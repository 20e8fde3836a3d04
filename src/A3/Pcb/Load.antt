-- ===== src/A3/Pcb/Load.antt =====
-- load_PAGE: the next lines of the script go into the page's frame.
use comp310_assignments.Prelude.{
  ℕ, zero, suc, ◌+◌, ◌≤◌, ◌<◌, ◌≡◌, ◌≢◌, ◌⊎◌, refl, sym, ◌∙◌, [], ◌∷◌, arith, some, length, subst,
  Text, set, get_or, get_or-set_self, get_or-set_ne, get_elem?,
}
use comp310_assignments.ShellMemory.{Store, slot_at}
use comp310_assignments.A3.Memory.{frame_alloc}
use comp310_assignments.A3.Memory.Frames.{IsSpace, frame_alloc-takes_first, length-frame_alloc}
use comp310_assignments.A3.Pcb.{Page, Pcb, blank_page, page_at, load_lines, load_page, pid_str}
use comp310_assignments.A3.Pcb.Lines.{take_lines, bit_at, IsAt, HasLines, Loads, load_lines_lem}

-- The page `j` of `pcb'` has the frame that starts at `i`, with the next lines of the script of `pcb`
-- in it; the valid bits tell which places have a line; the other pages and slots are kept.
pub record Loaded (i j : ℕ) (pcb pcb' : Pcb) (m m' : Store) : Type 0 where
  pub at_frame : IsAt i (page_at pcb' j)
  pub stored :
      (k : ℕ)
      → (line : Text) → get_elem? (take_lines 3 pcb.source_file).0 k ≡ some line
      → (slot_at m' (i + k) ≡ record { var = pid_str pcb.pid; value = line })
        × (bit_at (page_at pcb' j) k ≡ 1)
  pub invalid :
      (k : ℕ) → length (take_lines 3 pcb.source_file).0 ≤ k → bit_at (page_at pcb' j) k ≡ 0
  pub read_on : pcb'.source_file ≡ (take_lines 3 pcb.source_file).1
  pub other_pages : (k : ℕ) → j ≢ k → page_at pcb' k ≡ page_at pcb k
  pub other_slots : (k : ℕ) → (k < i) ⊎ (i + 3 ≤ k) → slot_at m' k ≡ slot_at m k

module _ (border i j : ℕ) (pcb : Pcb) (m : Store) where
  -- The page that `frame_alloc` has written to.
  abbrev page_in : Page
  page_in = record (page_at pcb j) {
    index = i ∷ (i + 1) ∷ (i + 2) ∷ [];
    valid_bit = 0 ∷ 0 ∷ 0 ∷ [];
  }

  page_in-IsAt : IsAt i page_in
  page_in-IsAt = record { places = places; bits = refl }
    where
      places : (k : ℕ) → k < 3 → get_or (i ∷ (i + 1) ∷ (i + 2) ∷ []) k 0 ≡ i + k
      places zero lt = omega arith
      places (suc zero) lt = omega arith
      places (suc (suc zero)) lt = omega arith
      places (suc (suc (suc k))) lt = absurd (omega arith)

  abbrev read_in : Store → Store × Page × Text
  read_in m' = load_lines (pid_str pcb.pid) 3 0 page_in pcb.source_file m'

  abbrev pcb_after : Store → Pcb
  pcb_after m' = record pcb {
    page_table = set pcb.page_table j (read_in m').1;
    source_file = (read_in m').2;
  }

  load_page-some :
      (m' : Store)
      → frame_alloc border (pid_str pcb.pid) m
        ≡ some (m', record { index = i ∷ (i + 1) ∷ (i + 2) ∷ []; valid_bit = 0 ∷ 0 ∷ 0 ∷ [] })
      → load_page border j pcb m ≡ some ((read_in m').0, pcb_after m')
  unfolding load_page
  load_page-some m' e = rw (e, load_page) refl

  bit_of-zeros : (k : ℕ) → bit_at page_in k ≡ 0
  bit_of-zeros zero = refl
  bit_of-zeros (suc zero) = refl
  bit_of-zeros (suc (suc zero)) = refl
  bit_of-zeros (suc (suc (suc k))) = refl

  lines_in :
      (m' : Store)
      → i + 3 ≤ length m'
      → Loads (pid_str pcb.pid) i 3 0 page_in m' (take_lines 3 pcb.source_file) (read_in m')
  lines_in m' fits =
      load_lines_lem (pid_str pcb.pid) i 3 0 page_in pcb.source_file m' (omega arith) page_in-IsAt
        fits

  load_page-taken :
      (m' : Store)
      → frame_alloc border (pid_str pcb.pid) m
        ≡ some (m', record { index = i ∷ (i + 1) ∷ (i + 2) ∷ []; valid_bit = 0 ∷ 0 ∷ 0 ∷ [] })
      → ((k : ℕ) → (k < i) ⊎ (i + 3 ≤ k) → slot_at m' k ≡ slot_at m k)
      → i + 3 ≤ length m'
      → j < length pcb.page_table
      → (m'' : Store) × (pcb' : Pcb) × (load_page border j pcb m ≡ some (m'', pcb'))
        × Loaded i j pcb pcb' m m''
  load_page-taken m' e kept fits lt = (
    (read_in m').0,
    pcb_after m',
    load_page-some m' e,
    record {
      at_frame = subst (IsAt i) (sym page_eq) lines.at_frame;
      stored = λ k line q.
          subst
            (λ p.
              (slot_at (read_in m').0 (i + k) ≡ record { var = pid_str pcb.pid; value = line })
              × (bit_at p k ≡ 1))
            (sym page_eq)
            (subst
              (λ w.
                (slot_at (read_in m').0 (i + w) ≡ record { var = pid_str pcb.pid; value = line })
                × (bit_at (read_in m').1 w ≡ 1))
              (omega arith) (lines.stored k line q));
      invalid = λ k out.
          subst (λ p. bit_at p k ≡ 0) (sym page_eq)
            (lines.other_bits k (omega arith) ∙ bit_of-zeros k);
      read_on = (lines_in m' fits).1;
      other_pages = λ k ne. get_or-set_ne pcb.page_table j k (read_in m').1 (blank_page 0 0) ne;
      other_slots = λ k out. lines.other_slots k (omega (arith, lines.few)) ∙ kept k out;
    },
  )
    where
      lines :
          HasLines
            (pid_str pcb.pid)
            i
            0
            (take_lines 3 pcb.source_file).0
            m'
            (read_in m').0
            page_in
            (read_in m').1
      lines = (lines_in m' fits).0

      page_eq : page_at (pcb_after m') j ≡ (read_in m').1
      page_eq = get_or-set_self pcb.page_table j (read_in m').1 (blank_page 0 0) lt

  -- If three free slots in a row lie below the border, the first ones from `i` on, `load_PAGE` succeeds:
  -- the page gets that frame with the next lines of the script, of which there may be fewer than
  -- three, its valid bits tell which places have a line, and neither another page nor another slot
  -- changes.
  pub load_page_lem :
      border ≤ length m
      → j < length pcb.page_table
      → IsSpace border m i
      → ((k : ℕ) → k < i → ¬ IsSpace border m k)
      → (m' : Store) × (pcb' : Pcb) × (load_page border j pcb m ≡ some (m', pcb'))
        × Loaded i j pcb pcb' m m'
  load_page_lem fits lt space before =
      let m0 = frame_alloc-takes_first border (pid_str pcb.pid) m i fits space before in
      load_page-taken m0.0 m0.1 m0.3
        (omega (arith, space.inside, length-frame_alloc border (pid_str pcb.pid) m m0.0 _ m0.1)) lt
