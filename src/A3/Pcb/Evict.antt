-- ===== src/A3/Pcb/Evict.antt =====
-- What eviction and the end of a process free.
use comp310_assignments.Prelude.{
  ℕ, ◌+◌, ◌≤◌, ◌<◌, ◌≡◌, ◌≢◌, set, get_or-set_self, ◌⊎◌, inl, inr, refl, sym, ap, ◌∙◌, List, [],
  ◌∷◌, arith, none, length, subst, Text, get_or, get_or-set_ne, Nat-order,
}
use comp310_assignments.ShellMemory.{Slot, Store, slot_at, free_slot}
use comp310_assignments.A3.Memory.{
  clear_frame, free_range, mem_free_at, mem_get_value_at, frame_alloc,
}
use comp310_assignments.A3.Memory.Variables.{
  slot_at-free_range_in, slot_at-free_range_out, length-free_range,
}
use comp310_assignments.A3.Memory.Frames.{IsSpace, frame_alloc-fails_iff, clear_frame-IsSpace}
use comp310_assignments.A3.Pcb.{
  Page, Pcb, blank_page, page_at, evict_lines, page_evict, free_page, load_page, pid_str,
}

-- The indices of the frame that starts at `i`.
abbrev pub frame_at : ℕ → List ℕ
frame_at i = i ∷ (i + 1) ∷ (i + 2) ∷ []

evict_lines-memory :
    (i : ℕ) (page : Page) (m : Store)
    → page.index ≡ frame_at i
    → (evict_lines 3 0 page m).1 ≡ clear_frame i m
unfolding evict_lines clear_frame free_range
evict_lines-memory i page m e =
    subst
      (λ ix.
        (evict_lines 3 0 (record page { index = ix }) m).1
        ≡ mem_free_at (get_or ix 2 0) (mem_free_at (get_or ix 1 0) (mem_free_at (get_or ix 0 0) m)))
      (sym e) refl
    ∙ subst
        (λ ix.
          mem_free_at (get_or ix 2 0) (mem_free_at (get_or ix 1 0) (mem_free_at (get_or ix 0 0) m))
          ≡ mem_free_at (i + 1 + 1) (mem_free_at (i + 1) (mem_free_at i m)))
        (sym e) (ap (λ k. mem_free_at k (mem_free_at (i + 1) (mem_free_at i m))) (omega arith))

free_page-frames :
    (i : ℕ) (page : Page) (m : Store)
    → page.index ≡ frame_at i
    → free_page page m ≡ clear_frame (i + 2) (clear_frame (i + 1) (clear_frame i m))
unfolding free_page
free_page-frames i page m e = rw e refl

value_at-freed :
    (k j : ℕ) (m : Store) → k ≢ j → (slot_at (mem_free_at k m) j).value ≡ (slot_at m j).value
unfolding mem_free_at
value_at-freed k j m ne = ap (λ (s : Slot). s.value) (get_or-set_ne m k j free_slot free_slot ne)

abbrev pub frame_text : ℕ → Store → List Text
frame_text i m = (slot_at m i).value ∷ (slot_at m (i + 1)).value ∷ (slot_at m (i + 2)).value ∷ []

evict_lines-text :
    (i : ℕ) (page : Page) (m : Store)
    → page.index ≡ frame_at i
    → (evict_lines 3 0 page m).0 ≡ frame_text i m
unfolding evict_lines mem_get_value_at
evict_lines-text i page m e =
    subst (λ ix. (evict_lines 3 0 (record page { index = ix }) m).0 ≡ frame_text i m) (sym e)
      (ap2_text (value_at-freed i (i + 1) m (omega arith)) (
        value_at-freed (i + 1) (i + 2) (mem_free_at i m) (omega arith)
        ∙ value_at-freed i (i + 2) m (omega arith)))
  where
    ap2_text :
        {a b c d : Text}
        → a ≡ b
        → c ≡ d
        → (slot_at m i).value ∷ a ∷ c ∷ [] ≡ (slot_at m i).value ∷ b ∷ d ∷ []
    ap2_text {b = b} {c = c} p q =
        ap (λ a. (slot_at m i).value ∷ a ∷ c ∷ []) p ∙ ap (λ d. (slot_at m i).value ∷ b ∷ d ∷ []) q

-- All three places of an array are set to 0.
set_zeros : (l : List ℕ) → length l ≡ 3 → set (set (set l 0 0) 1 0) 2 0 ≡ 0 ∷ 0 ∷ 0 ∷ []
set_zeros [] e = absurd (omega arith)
set_zeros (a ∷ []) e = absurd (omega arith)
set_zeros (a ∷ b ∷ []) e = absurd (omega arith)
set_zeros (a ∷ b ∷ c ∷ []) e = refl
set_zeros (a ∷ b ∷ c ∷ d ∷ l) e = absurd (omega arith)

evict_lines-page :
    (page : Page) (m : Store)
    → length page.index ≡ 3
    → length page.valid_bit ≡ 3
    → (evict_lines 3 0 page m).2
      ≡ record page { index = 0 ∷ 0 ∷ 0 ∷ []; valid_bit = 0 ∷ 0 ∷ 0 ∷ [] }
unfolding evict_lines
evict_lines-page page m e e' =
    ap (λ ix. record page { index = ix; valid_bit = set (set (set page.valid_bit 0 0) 1 0) 2 0 })
      (set_zeros page.index e)
    ∙ ap (λ bits. record page { index = 0 ∷ 0 ∷ 0 ∷ []; valid_bit = bits })
        (set_zeros page.valid_bit e')

-- The process behind the eviction of its page `j`: the page has no place in memory and no valid bit, and
-- the other pages are as before.
abbrev pub PageGone : ℕ → Pcb → Pcb → Type 0
PageGone j pcb pcb' =
    (page_at pcb' j ≡ record (page_at pcb j) { index = 0 ∷ 0 ∷ 0 ∷ []; valid_bit = 0 ∷ 0 ∷ 0 ∷ [] })
    × ((k : ℕ) → j ≢ k → page_at pcb' k ≡ page_at pcb k)

page_evict-PageGone :
    (i j : ℕ) (pcb : Pcb) (m : Store)
    → j < length pcb.page_table
    → (page_at pcb j).index ≡ frame_at i
    → length (page_at pcb j).valid_bit ≡ 3
    → PageGone j pcb (page_evict j pcb m).2
unfolding page_evict
page_evict-PageGone i j pcb m lt e bits =
    let page = (evict_lines 3 0 (page_at pcb j) m).2 in
    (
      get_or-set_self pcb.page_table j page (blank_page 0 0) lt
          ∙ evict_lines-page (page_at pcb j) m (ap length e) bits,
      λ k ne. get_or-set_ne pcb.page_table j k page (blank_page 0 0) ne,
    )

load_page-fails :
    (border k : ℕ) (q : Pcb) (m : Store)
    → load_page border k q m ≡ none
    → frame_alloc border (pid_str q.pid) m ≡ none
unfolding load_page
load_page-fails border k q m e = ground arith

page_evict-memory :
    (i j : ℕ) (pcb : Pcb) (m : Store)
    → (page_at pcb j).index ≡ frame_at i
    → ((page_evict j pcb m).0 ≡ frame_text i m) × ((page_evict j pcb m).1 ≡ clear_frame i m)
unfolding page_evict
page_evict-memory i j pcb m e =
    (evict_lines-text i (page_at pcb j) m e, evict_lines-memory i (page_at pcb j) m e)

-- Where the page `j` of a process has the frame that starts at `i`, `PAGE_evict` prints the three lines
-- of the frame, makes the frame free, changes no other slot, clears the indices and the valid bits of the
-- page and changes no other page of the process, and a `load_PAGE` right after it does not fail, for any
-- page of any process.
pub page_evict_lem :
    (border i j : ℕ) (pcb : Pcb) (m : Store)
    → border ≤ length m
    → i + 3 ≤ border
    → j < length pcb.page_table
    → (page_at pcb j).index ≡ frame_at i
    → length (page_at pcb j).valid_bit ≡ 3
    → ((page_evict j pcb m).0 ≡ frame_text i m)
      × PageGone j pcb (page_evict j pcb m).2
      × IsSpace border (page_evict j pcb m).1 i
      × ((k : ℕ) → (k < i) ⊎ (i + 3 ≤ k) → slot_at (page_evict j pcb m).1 k ≡ slot_at m k)
      × ((q : Pcb) → (k : ℕ) → load_page border k q (page_evict j pcb m).1 ≢ none)
page_evict_lem border i j pcb m fits inside lt e bits = (
  done.0,
  page_evict-PageGone i j pcb m lt e bits,
  subst (λ m'. IsSpace border m' i) (sym done.1) freed.0,
  subst (λ m'. (k : ℕ) → (k < i) ⊎ (i + 3 ≤ k) → slot_at m' k ≡ slot_at m k) (sym done.1) freed.1,
  λ q k fails.
      (frame_alloc-fails_iff border (pid_str q.pid) (page_evict j pcb m).1).0
        (load_page-fails border k q (page_evict j pcb m).1 fails) i
        (subst (λ m'. IsSpace border m' i) (sym done.1) freed.0),
)
  where
    done : ((page_evict j pcb m).0 ≡ frame_text i m) × ((page_evict j pcb m).1 ≡ clear_frame i m)
    done = page_evict-memory i j pcb m e

    freed :
        IsSpace border (clear_frame i m) i
        × ((k : ℕ) → (k < i) ⊎ (i + 3 ≤ k) → slot_at (clear_frame i m) k ≡ slot_at m k)
    freed = clear_frame-IsSpace border i m fits inside

-- `free_PCB` clears a frame at each of the three indices of a page: where the page has the frame that
-- starts at `i`, the two slots behind the frame are freed too, and no others.
pub free_page_lem :
    (i : ℕ) (page : Page) (m : Store)
    → page.index ≡ frame_at i
    → i + 5 ≤ length m
    → ((k : ℕ) → i ≤ k → k < i + 5 → slot_at (free_page page m) k ≡ free_slot)
      × ((k : ℕ) → (k < i) ⊎ (i + 5 ≤ k) → slot_at (free_page page m) k ≡ slot_at m k)
unfolding clear_frame
free_page_lem i page m e fits =
    subst
      (λ m'.
        ((k : ℕ) → i ≤ k → k < i + 5 → slot_at m' k ≡ free_slot)
        × ((k : ℕ) → (k < i) ⊎ (i + 5 ≤ k) → slot_at m' k ≡ slot_at m k))
      (sym (free_page-frames i page m e)) (inside, outside)
  where
    m1 : Store
    m1 = free_range 3 i m

    m2 : Store
    m2 = free_range 3 (i + 1) m1

    l1 : length m1 ≡ length m
    l1 = length-free_range 3 i m

    l2 : length m2 ≡ length m1
    l2 = length-free_range 3 (i + 1) m1

    inside : (k : ℕ) → i ≤ k → k < i + 5 → slot_at (free_range 3 (i + 2) m2) k ≡ free_slot
    inside k lo hi = elim (Nat-order (i + 2) k) [
      | inl behind ↦
          slot_at-free_range_in 3 (i + 2) k m2 (omega (arith, l1, l2)) behind (omega arith)
      | inr before ↦
          slot_at-free_range_out 3 (i + 2) k m2 (inl before) ∙ elim (Nat-order (i + 1) k) [
            | inl behind ↦
                slot_at-free_range_in 3 (i + 1) k m1 (omega (arith, l1)) behind (omega arith)
            | inr front ↦
                slot_at-free_range_out 3 (i + 1) k m1 (inl front)
                ∙ slot_at-free_range_in 3 i k m (omega arith) lo (omega arith)
          ]
    ]

    outside : (k : ℕ) → (k < i) ⊎ (i + 5 ≤ k) → slot_at (free_range 3 (i + 2) m2) k ≡ slot_at m k
    outside k out =
        slot_at-free_range_out 3 (i + 2) k m2 (omega arith)
        ∙ slot_at-free_range_out 3 (i + 1) k m1 (omega arith)
        ∙ slot_at-free_range_out 3 i k m (omega arith)
