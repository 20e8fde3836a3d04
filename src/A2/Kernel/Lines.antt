-- ===== src/A2/Kernel/Lines.antt =====
-- execute_process runs the lines of a process one after the other.
use comp310_assignments.Prelude.{
  ℕ, zero, suc, ◌+◌, ◌≤◌, ◌<◌, ◌≡◌, refl, ap, ◌∙◌, Bool, true, false, List, [], ◌∷◌, some, Text,
  streq, arith, ◌==◌, if◌then◌else◌, length, get_or, inl, inr, Bool-cases,
}
use comp310_assignments.Prelude.Int.{pos}
use comp310_assignments.Prelude.Scan.{scan}
use comp310_assignments.ShellMemory.{Store, slot_at}
use comp310_assignments.A2.Memory.{text, mem_get_value_at_line, get_index, holds_line}
use comp310_assignments.A2.Memory.Lines.{mem_get_value_at_line-inside}
use comp310_assignments.A2.Pcb.{Pcb, unused_page}
use comp310_assignments.A2.ReadyQueue.{QueueNode}
use comp310_assignments.A2.Shell.{Shell}
use comp310_assignments.A2.Kernel.{loaded_pages, frame_of, change_pages, mark_page, fetch}
use comp310_assignments.A2.Kernel.Pages.{mark_page-KeepsPlace, loaded_pages-change, frame_of-change}

scan-same :
    (test test' : ℕ → Bool) (n i : ℕ)
    → ((k : ℕ) → k < i + n → test k ≡ test' k)
    → scan test n i ≡ scan test' n i
unfolding scan
scan-same test test' zero i h = refl
scan-same test test' (suc n) i h =
    let e = h i (omega arith) in
    let rest = scan-same test test' n (i + 1) (λ k lt. h k (omega arith)) in ground arith

module _ (frame_size var_size : ℕ) where
  -- The same frames, in an array of the right length.
  pub record SameFrames (m m' : Store) : Type 0 where
    pub same : (i : ℕ) → i < frame_size → slot_at m' i ≡ slot_at m i
    pub fits : length m' ≡ frame_size + var_size

  -- Place `p` has a line, which the frames and the first `pages` pages know.
  abbrev pub Found : (pages : ℕ) → Pcb → Store → ℕ → Type 0
  Found pages pcb m p =
      (i : ℕ) × (framenumber : ℕ) × (get_index frame_size var_size (slot_at m p).value m ≡ some i)
      × (frame_of i pages 0 pcb.pt ≡ some framenumber)

  -- The lines from the program counter to the end are in frames of loaded pages.
  pub record Runnable (pcb : Pcb) (m : Store) : Type 0 where
    pub pages : ℕ
    pub loaded : loaded_pages pcb.pt ≡ some pages
    pub inside : pcb.end < frame_size
    pub found : (p : ℕ) → pcb.pc ≤ p → p ≤ pcb.end → Found pages pcb m p

  get_index-SameFrames :
      (line : Text) (m m' : Store)
      → SameFrames m m'
      → get_index frame_size var_size line m' ≡ get_index frame_size var_size line m
  unfolding get_index
  get_index-SameFrames line m m' h =
      scan-same (holds_line frame_size var_size m' line) (holds_line frame_size var_size m line)
        frame_size 0 (λ k lt. ap (λ s. streq s.value line) (h.same k (omega arith)))

  -- The table of the process is changed, or left, in a way that keeps the places.
  Runnable-pages :
      (pcb pcb' : Pcb) (m : Store)
      → Runnable pcb m
      → pcb'.end ≡ pcb.end
      → pcb.pc ≤ pcb'.pc
      → loaded_pages pcb'.pt ≡ loaded_pages pcb.pt
      → ((i n : ℕ) → frame_of i n 0 pcb'.pt ≡ frame_of i n 0 pcb.pt)
      → Runnable pcb' m
  Runnable-pages pcb pcb' m r e le loads frames = record {
    pages = r.pages;
    loaded = loads ∙ r.loaded;
    inside = omega (arith, r.inside);
    found = λ p lo hi.
        let (i, fn, at_index, at_frame) = r.found p (omega arith) (omega arith) in
        (i, fn, at_index, frames i r.pages ∙ at_frame);
  }

  pub Runnable-SameFrames :
      (pcb : Pcb) (m m' : Store) → SameFrames m m' → Runnable pcb m → Runnable pcb m'
  Runnable-SameFrames pcb m m' h r = record {
    pages = r.pages;
    loaded = r.loaded;
    inside = r.inside;
    found = λ p lo hi.
        let (i, fn, at_index, at_frame) = r.found p lo hi in
        let lt : p < frame_size = omega (arith, r.inside) in
        (
          i,
          fn,
          ap (λ s. get_index frame_size var_size s.value m') (h.same p lt)
              ∙ get_index-SameFrames (slot_at m p).value m m' h
              ∙ at_index,
          at_frame,
        );
  }

  -- The process behind a round.
  abbrev pub next_node : (quanta n framenumber : ℕ) → QueueNode → QueueNode
  next_node quanta n framenumber node = record node {
    pcb = record (node.pcb) {
      pc = node.pcb.pc + 1;
      priority = false;
      pt =
          if (get_or node.pcb.pt framenumber unused_page).end == node.pcb.pc
          then change_pages (mark_page quanta framenumber) n 0 node.pcb.pt
          else node.pcb.pt;
    };
  }

  next_node-Runnable :
      (quanta n framenumber : ℕ) (node : QueueNode) (m : Store)
      → Runnable node.pcb m
      → Runnable (next_node quanta n framenumber node).pcb m
  next_node-Runnable quanta n framenumber node m r =
      let k = mark_page-KeepsPlace quanta framenumber in
      let change = mark_page quanta framenumber in
      Runnable-pages node.pcb (next_node quanta n framenumber node).pcb m r refl (omega arith)
        (elim (Bool-cases ((get_or node.pcb.pt framenumber unused_page).end == node.pcb.pc)) [
          | inl at_end ↦ rw at_end (loaded_pages-change change k n 0 node.pcb.pt)
          | inr inner ↦ rw inner refl
        ])
        (λ i c.
          elim (Bool-cases ((get_or node.pcb.pt framenumber unused_page).end == node.pcb.pc)) [
            | inl at_end ↦ rw at_end (frame_of-change change k i c n 0 node.pcb.pt)
            | inr inner ↦ rw inner refl
          ])

  fetch-next :
      (quanta i framenumber n : ℕ) (line : Text) (node : QueueNode) (m : Store)
      → mem_get_value_at_line frame_size var_size (pos node.pcb.pc) m ≡ text line
      → get_index frame_size var_size line m ≡ some i
      → loaded_pages node.pcb.pt ≡ some n
      → frame_of i n 0 node.pcb.pt ≡ some framenumber
      → fetch frame_size var_size quanta node m
        ≡ some (line, framenumber, next_node quanta n framenumber node)
  unfolding fetch
  fetch-next quanta i framenumber n line node m e e1 e2 e3 = rw (e, e1, e2, e3, fetch) refl

  pub fetch-Runnable :
      (quanta : ℕ) (node : QueueNode) (m : Store)
      → length m ≡ frame_size + var_size
      → Runnable node.pcb m
      → node.pcb.pc ≤ node.pcb.end
      → (n : ℕ) × (framenumber : ℕ) × (fetch frame_size var_size quanta node m
          ≡ some ((slot_at m node.pcb.pc).value, framenumber, next_node quanta n framenumber node))
        × Runnable (next_node quanta n framenumber node).pcb m
  fetch-Runnable quanta node m fits r le =
      let (i, fn, at_index, at_frame) = r.found node.pcb.pc (omega arith) le in
      let inside : node.pcb.pc < length m = omega (arith, r.inside) in
      (
        r.pages,
        fn,
        fetch-next quanta i fn r.pages (slot_at m node.pcb.pc).value node m
            (mem_get_value_at_line-inside frame_size var_size node.pcb.pc m fits inside) at_index
            r.loaded at_frame,
        next_node-Runnable quanta r.pages fn node m r,
      )

  -- The lines of the places `p` and on.
  abbrev pub lines_at : Store → (p n : ℕ) → List Text
  lines_at m p zero = []
  lines_at m p (suc n) = (slot_at m p).value ∷ lines_at m (p + 1) n

  pub lines_at-SameFrames :
      (m m' : Store) (p n : ℕ)
      → SameFrames m m'
      → p + n ≤ frame_size
      → lines_at m' p n ≡ lines_at m p n
  lines_at-SameFrames m m' p zero h le = refl
  lines_at-SameFrames m m' p (suc n) h le =
      ap (λ s. s.value ∷ lines_at m' (p + 1) n) (h.same p (omega arith))
      ∙ ap (λ r. (slot_at m p).value ∷ r) (lines_at-SameFrames m m' (p + 1) n h (omega arith))

  pub SameFrames-trans : (m m1 m2 : Store) → SameFrames m m1 → SameFrames m1 m2 → SameFrames m m2
  SameFrames-trans m m1 m2 h k = record { same = λ i lt. k.same i lt ∙ h.same i lt; fits = k.fits }

module _ {W : Type 0} where
  abbrev pub set_background : Bool → Shell W → Shell W
  set_background b sh = record sh { in_background = b }

  -- The commands one after the other, each of which finds `in_background` set.
  abbrev pub run_listed : (after : Text → Shell W → Shell W) → List Text → Shell W → Shell W
  run_listed after [] sh = sh
  run_listed after (t ∷ ts) sh =
      run_listed after ts (set_background false (after t (set_background true sh)))
