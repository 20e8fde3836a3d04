-- ===== src/A3/Pcb/Lines.antt =====
-- The loop of load_PAGE: the next lines of the script go into the page's frame.
use comp310_assignments.Prelude.{
  ℕ, zero, suc, ◌+◌, ◌≤◌, ◌<◌, ◌≡◌, ◌⊎◌, inl, inr, refl, sym, ap, ◌∙◌, List, [], ◌∷◌, arith, none,
  some, length, length-set, subst, Text, set, get_or, get_or-set_self, get_or-set_ne, get_elem?,
  Option-cases,
}
use comp310_assignments.ShellMemory.{Store, slot_at, free_slot}
use comp310_assignments.A3.Memory.{mem_set_value_at}
use comp310_assignments.A3.Pcb.{Page, line_at, put_line, load_lines}
use comp310_assignments.Prelude.Stdio.{fgets}

-- At most `n` lines from the front of a text, and the rest of it.
unfoldable pub take_lines : ℕ → Text → List Text × Text
take_lines zero t = ([], t)
take_lines (suc n) t = elim (fgets 999 t) [
  | none ↦ ([], t)
  | some (line, rest) ↦ let (lines, rest') = take_lines n rest in (line ∷ lines, rest')
]

-- `page->valid_bit[k]`
abbrev pub bit_at : Page → ℕ → ℕ
bit_at page k = get_or page.valid_bit k 0

-- The page is at the frame that starts at `i`, with three valid bits.
pub record IsAt (i : ℕ) (page : Page) : Type 0 where
  pub places : (k : ℕ) → k < 3 → line_at page k ≡ i + k
  pub bits : length page.valid_bit ≡ 3

-- The lines `ls` are in the slots from `i + j` on, their valid bits are set, and all else is kept.
pub record HasLines (pid : Text) (i j : ℕ) (ls : List Text) (m m' : Store) (page page' : Page)
    : Type 0 where
  pub at_frame : IsAt i page'
  pub stored :
      (k : ℕ)
      → (line : Text) → get_elem? ls k ≡ some line
      → (slot_at m' (i + (j + k)) ≡ record { var = pid; value = line }) × (bit_at page' (j + k) ≡ 1)
  pub other_bits : (k : ℕ) → (k < j) ⊎ (j + length ls ≤ k) → bit_at page' k ≡ bit_at page k
  pub other_slots : (k : ℕ) → (k < i + j) ⊎ (i + (j + length ls) ≤ k) → slot_at m' k ≡ slot_at m k
  pub few : length ls ≤ 3

module _ (pid : Text) (i : ℕ) where
  put_line_lem :
      (j : ℕ) (line : Text) (page : Page) (m : Store)
      → j < 3
      → IsAt i page
      → i + 3 ≤ length m
      → ((put_line pid j line page m).0 ≡ set m (i + j) (record { var = pid; value = line }))
        × ((put_line pid j line page m).1 ≡ record page { valid_bit = set page.valid_bit j 1 })
  unfolding put_line mem_set_value_at
  put_line_lem j line page m lt p fits =
      (ap (λ k. set m k (record { var = pid; value = line })) (p.places j lt), refl)

  load_lines-none :
      (n j : ℕ) (page : Page) (t : Text) (m : Store)
      → fgets 999 t ≡ none
      → (load_lines pid (suc n) j page t m ≡ (m, page, t)) × (take_lines (suc n) t ≡ ([], t))
  unfolding load_lines take_lines
  load_lines-none n j page t m e = (ground arith, ground arith)

  load_lines-some :
      (n j : ℕ) (page : Page) (t line rest : Text) (m : Store)
      → fgets 999 t ≡ some (line, rest)
      → (load_lines pid (suc n) j page t m
          ≡ load_lines pid n
              (j + 1)
              (put_line pid j line page m).1
              rest
              (put_line pid j line page m).0)
        × (take_lines (suc n) t ≡ (line ∷ (take_lines n rest).0, (take_lines n rest).1))
  unfolding load_lines take_lines
  load_lines-some n j page t line rest m e = (ground arith, ground arith)

  HasLines-cons :
      (j : ℕ) (line : Text) (ls : List Text) (m m' : Store) (page page' : Page)
      → j < 3
      → IsAt i page
      → i + 3 ≤ length m
      → j + 1 + length ls ≤ 3
      → HasLines pid i
          (j + 1)
          ls
          (set m (i + j) (record { var = pid; value = line }))
          m'
          (record page { valid_bit = set page.valid_bit j 1 })
          page'
      → HasLines pid i j (line ∷ ls) m m' page page'
  HasLines-cons j line ls m m' page page' lt p fits few r = record {
    at_frame = r.at_frame;
    stored = stored;
    other_bits =
        λ k out. r.other_bits k (omega arith) ∙ get_or-set_ne page.valid_bit j k 1 0 (omega arith);
    other_slots = λ k out.
        r.other_slots k (omega arith)
        ∙ get_or-set_ne m (i + j) k (record { var = pid; value = line }) free_slot (omega arith);
    few = omega arith;
  }
    where
      now : (slot_at m' (i + j) ≡ record { var = pid; value = line }) × (bit_at page' j ≡ 1)
      now = (
        r.other_slots (i + j) (omega arith)
            ∙ get_or-set_self m (i + j) (record { var = pid; value = line }) free_slot
                (omega arith),
        r.other_bits j (omega arith) ∙ get_or-set_self page.valid_bit j 1 0 (omega (arith, p.bits)),
      )

      stored :
          (k : ℕ)
          → (l : Text) → get_elem? (line ∷ ls) k ≡ some l
          → (slot_at m' (i + (j + k)) ≡ record { var = pid; value = l })
            × (bit_at page' (j + k) ≡ 1)
      stored zero l e =
          subst
            (λ l'.
              (slot_at m' (i + (j + 0)) ≡ record { var = pid; value = l' })
              × (bit_at page' (j + 0) ≡ 1))
            (cc (e))
            (subst
              (λ q.
                (slot_at m' (i + q) ≡ record { var = pid; value = line }) × (bit_at page' q ≡ 1))
              (omega arith) now)
      stored (suc k) l e =
          subst (λ q. (slot_at m' (i + q) ≡ record { var = pid; value = l }) × (bit_at page' q ≡ 1))
            (omega arith) (r.stored k l e)

  HasLines-nil : (j : ℕ) (m : Store) (page : Page) → IsAt i page → HasLines pid i j [] m m page page
  HasLines-nil j m page p = record {
    at_frame = p;
    stored = λ k l e. absurd cc;
    other_bits = λ k out. refl;
    other_slots = λ k out. refl;
    few = omega arith;
  }

  abbrev pub Loads : ℕ → ℕ → Page → Store → List Text × Text → Store × Page × Text → Type 0
  Loads n j page m taken res =
      HasLines pid i j taken.0 m res.0 page res.1 × (res.2 ≡ taken.1) × (length taken.0 ≤ n)

  -- The page and the memory after one line.
  abbrev page_with : ℕ → Page → Page
  page_with j page = record page { valid_bit = set page.valid_bit j 1 }

  abbrev memory_with : ℕ → Text → Store → Store
  memory_with j line m = set m (i + j) (record { var = pid; value = line })

  page_with-IsAt : (j : ℕ) (page : Page) → IsAt i page → IsAt i (page_with j page)
  page_with-IsAt j page p = record {
    places = p.places;
    bits = length-set page.valid_bit j 1 ∙ p.bits;
  }

  Loads-cons :
      (n j : ℕ) (line : Text) (taken : List Text × Text) (page : Page) (m : Store)
      (res : Store × Page × Text)
      → j + suc n ≤ 3
      → IsAt i page
      → i + 3 ≤ length m
      → Loads n (j + 1) (page_with j page) (memory_with j line m) taken res
      → Loads (suc n) j page m (line ∷ taken.0, taken.1) res
  Loads-cons n j line taken page m res lt p fits r = (
    HasLines-cons j line taken.0 m res.0 page res.1 (omega arith) p fits (omega (arith, r.2)) r.0,
    r.1,
    omega (arith, r.2),
  )

  pub load_lines_lem :
      (n j : ℕ) (page : Page) (t : Text) (m : Store)
      → j + n ≤ 3
      → IsAt i page
      → i + 3 ≤ length m
      → Loads n j page m (take_lines n t) (load_lines pid n j page t m)
  unfolding load_lines take_lines
  load_lines_lem zero j page t m lt p fits = (HasLines-nil j m page p, refl, omega arith)
  load_lines_lem (suc n) j page t m lt p fits = elim (Option-cases (fgets 999 t)) [
    | inl e ↦
        subst (λ w. Loads (suc n) j page m w (load_lines pid (suc n) j page t m))
          (sym (load_lines-none n j page t m e).1)
          (subst (Loads (suc n) j page m ([], t)) (sym (load_lines-none n j page t m e).0)
            (HasLines-nil j m page p, refl, omega arith))
    | inr ((line, rest), e) ↦
        subst (λ w. Loads (suc n) j page m w (load_lines pid (suc n) j page t m))
          (sym (load_lines-some n j page t line rest m e).1)
          (subst (Loads (suc n) j page m (line ∷ (take_lines n rest).0, (take_lines n rest).1))
            (sym (load_lines-some n j page t line rest m e).0)
            (Loads-cons n j line (take_lines n rest) page m _ lt p fits (
              subst
                (λ w.
                  Loads n (j + 1) (page_with j page) (memory_with j line m) (take_lines n rest)
                    (load_lines pid n (j + 1) (put_line pid j line page m).1 rest w))
                (sym (put_line_lem j line page m (omega arith) p fits).0)
                (subst
                  (λ w.
                    Loads n (j + 1) (page_with j page) (memory_with j line m) (take_lines n rest)
                      (load_lines pid n (j + 1) w rest (memory_with j line m)))
                  (sym (put_line_lem j line page m (omega arith) p fits).1)
                  (load_lines_lem n (j + 1) (page_with j page) rest (memory_with j line m)
                    (omega arith) (page_with-IsAt j page p)
                    (omega (arith, length-set m (i + j) (record { var = pid; value = line }))))))))
  ]
