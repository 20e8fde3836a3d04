-- ===== src/A3/Cpu.antt =====
-- a3/cpu.c: a line of a process is run. The interpreter is the argument `parse_input`, which gives the
-- value of `parseInput` and the memory behind it.
use comp310_assignments.Prelude.{
  ℕ, ◌+◌, ◌-◌, ◌==◌, Text, if◌then◌else◌, ltb, ◌≡◌, refl, sym, ap, ◌∙◌, some, none, inl, inr,
  Option, Option-cases, List, [], ◌∷◌, zero, suc, arith, length, get_elem?, ◌<◌, ◌≤◌,
}
use comp310_assignments.Prelude.Int.{ℤ, pos}
use comp310_assignments.ShellMemory.{Slot, Store, slot_at}
use comp310_assignments.A3.Memory.{mem_get_value_at}
use comp310_assignments.A3.Memory.Frames.{IsSpace}
use comp310_assignments.A3.Pcb.{Pcb, page_at, line_at, load_page}
use comp310_assignments.A3.Pcb.Lines.{take_lines, bit_at}
use comp310_assignments.A3.Pcb.Load.{Loaded, load_page_lem}

-- The numbers behind the pointers `program_counter` and `size`. A size of 0 stays 0, where the source
-- goes on to -1; what reads it does not tell the two apart.
pub record Counters : Type 0 where
  pub program_counter : ℕ
  pub size : ℕ

module _ (parse_input : Text → Store → ℤ × Store) where
  -- 1 is a page fault, or what `parseInput` gives.
  unfoldable pub cpu_run : (start_pos valid_bit : ℕ) → Counters → Store → ℤ × Counters × Store
  cpu_run start_pos valid_bit c m =
      let run = parse_input (mem_get_value_at start_pos m) m in
      if valid_bit == 0
      then (pos 1, c, m)
      else (run.0, record { program_counter = c.program_counter + 1; size = c.size - 1 }, run.1)

unfoldable pub proc_done : ℕ → ℕ
proc_done size = if ltb 0 size then 0 else 1

get_elem?-none : (l : List Text) (k : ℕ) → get_elem? l k ≡ none → length l ≤ k
get_elem?-none [] k e = omega arith
get_elem?-none (x ∷ l) zero e = absurd (ground arith)
get_elem?-none (x ∷ l) (suc k) e = let rest = get_elem?-none l k e in omega arith

module _ (parse_input : Text → Store → ℤ × Store) where
  cpu_run-valid :
      (place bit : ℕ) (c : Counters) (m : Store) (line : Text)
      → bit ≡ 1
      → mem_get_value_at place m ≡ line
      → cpu_run parse_input place bit c m ≡ (
        (parse_input line m).0,
        record { program_counter = c.program_counter + 1; size = c.size - 1 },
        (parse_input line m).1,
      )
  unfolding cpu_run
  cpu_run-valid place bit c m line e e' = rw (e, e') refl

  cpu_run-invalid :
      (place bit : ℕ) (c : Counters) (m : Store)
      → bit ≡ 0
      → cpu_run parse_input place bit c m ≡ (pos 1, c, m)
  unfolding cpu_run
  cpu_run-invalid place bit c m e = rw e refl

  -- What a line does, or a place without one.
  abbrev pub ran_line : Option Text → Counters → Store → ℤ × Counters × Store
  ran_line none c m = (pos 1, c, m)
  ran_line (some line) c m = (
    (parse_input line m).0,
    record { program_counter = c.program_counter + 1; size = c.size - 1 },
    (parse_input line m).1,
  )

  cpu_run-Loaded :
      (i j : ℕ) (pcb pcb' : Pcb) (m m' : Store)
      → Loaded i j pcb pcb' m m'
      → (k : ℕ) → k < 3
      → (c : Counters)
      → cpu_run parse_input (line_at (page_at pcb' j) k) (bit_at (page_at pcb' j) k) c m'
        ≡ ran_line (get_elem? (take_lines 3 pcb.source_file).0 k) c m'
  unfolding mem_get_value_at
  cpu_run-Loaded i j pcb pcb' m m' loaded k lt c =
      elim (Option-cases (get_elem? (take_lines 3 pcb.source_file).0 k)) [
        | inl out ↦
            cpu_run-invalid (line_at (page_at pcb' j) k) (bit_at (page_at pcb' j) k) c m'
              (loaded.invalid k (get_elem?-none (take_lines 3 pcb.source_file).0 k out))
            ∙ ap (λ o. ran_line o c m') (sym out)
        | inr (line, e) ↦
            cpu_run-valid (line_at (page_at pcb' j) k) (bit_at (page_at pcb' j) k) c m' line
              (loaded.stored k line e).1
              (ap (λ p. (slot_at m' p).value) (loaded.at_frame.places k lt)
                ∙ ap (λ (s : Slot). s.value) (loaded.stored k line e).0)
            ∙ ap (λ o. ran_line o c m') (sym e)
      ]

  -- Where the first three free slots in a row below the border are those from `i` on, `load_PAGE` loads a
  -- page of the table, and `cpu_run` at any place of that page then gives the interpreter the line of the
  -- script that was read for this place and moves the counters by one, or reports a page fault and changes
  -- nothing where the script has no line left for the place.
  pub cpu_run-load_page :
      (border i j : ℕ) (pcb : Pcb) (m : Store)
      → border ≤ length m
      → j < length pcb.page_table
      → IsSpace border m i
      → ((k : ℕ) → k < i → ¬ IsSpace border m k)
      → (k : ℕ) → k < 3
      → (c : Counters)
      → (m' : Store) × (pcb' : Pcb) × (load_page border j pcb m ≡ some (m', pcb'))
        × (cpu_run parse_input (line_at (page_at pcb' j) k) (bit_at (page_at pcb' j) k) c m'
            ≡ ran_line (get_elem? (take_lines 3 pcb.source_file).0 k) c m')
  cpu_run-load_page border i j pcb m fits lt space before k place c =
      let (m', pcb', done, loaded) = load_page_lem border i j pcb m fits lt space before in
      (m', pcb', done, cpu_run-Loaded i j pcb pcb' m m' loaded k place c)
