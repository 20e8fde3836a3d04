-- ===== src/Tests/TestPcb.antt =====
-- Witnesses for a3/pcb.c and a3/cpu.c.
use comp310_assignments.Prelude.{
  ℕ, ◌+◌, ◌*◌, ◌≤◌, ◌<◌, ◌≡◌, ◌≢◌, ◌↔◌, ◌⊎◌, refl, true, [], ◌∷◌, none, some, arith, Text, All,
  get_elem?, streq, none_text,
}
use comp310_assignments.Prelude.Int.{ℤ, pos}
use comp310_assignments.ShellMemory.{Store, free_slot, slot_at}
use comp310_assignments.A3.Memory.Frames.{IsSpace}
use comp310_assignments.A3.Pcb.{
  Pcb, Page, blank_page, page_at, line_at, page_evict, free_page, load_page, page_table_size,
  pcb_done,
}
use comp310_assignments.A3.Pcb.Tables.{AtEnd, page_table_size_lem, pcb_done_iff}
use comp310_assignments.A3.Pcb.Evict.{frame_at, frame_text, PageGone, page_evict_lem, free_page_lem}
use comp310_assignments.A3.Pcb.Lines.{take_lines, bit_at}
use comp310_assignments.A3.Pcb.Load.{Loaded, load_page_lem}
use comp310_assignments.A3.Cpu.{Counters, cpu_run, ran_line, cpu_run-load_page}

abbrev six : Store
six = free_slot ∷ free_slot ∷ free_slot ∷ free_slot ∷ free_slot ∷ free_slot ∷ []

-- A script of two lines.
abbrev script : Text
script = 97 ∷ 10 ∷ 98 ∷ []

abbrev unloaded : Pcb
unloaded = record {
  pid = 1;
  size = 2;
  program_counter = 0 ∷ [];
  page_table = blank_page 1 0 ∷ [];
  source_file = script;
}

abbrev page_at_one : Page
page_at_one = record {
  index = frame_at 1;
  valid_bit = 1 ∷ 1 ∷ 0 ∷ [];
  page_index = 0;
  page_pid = 1;
}

abbrev resident : Pcb
resident = record unloaded { page_table = page_at_one ∷ [] }

IsSpace-six : IsSpace 6 six 0
unfolding free_slot streq none_text
IsSpace-six = record { inside = omega arith; first = refl; second = refl; third = refl }

none_before : (k : ℕ) → k < 0 → ¬ IsSpace 6 six k
none_before k h s = absurd (omega arith)

load_page_example :
    (m' : Store) × (pcb' : Pcb) × (load_page 6 0 unloaded six ≡ some (m', pcb'))
    × Loaded 0 0 unloaded pcb' six m'
load_page_example =
    load_page_lem 6 0 0 unloaded six (omega arith) (omega arith) IsSpace-six none_before

abbrev quiet : Text → Store → ℤ × Store
quiet t m = (pos 0, m)

abbrev counters : Counters
counters = record { program_counter = 0; size = 2 }

cpu_run-load_page_example :
    (m' : Store) × (pcb' : Pcb) × (load_page 6 0 unloaded six ≡ some (m', pcb'))
    × (cpu_run quiet (line_at (page_at pcb' 0) 1) (bit_at (page_at pcb' 0) 1) counters m'
        ≡ ran_line quiet (get_elem? (take_lines 3 script).0 1) counters m')
cpu_run-load_page_example =
    cpu_run-load_page quiet 6 0 0 unloaded six (omega arith) (omega arith) IsSpace-six none_before 1
      (omega arith) counters

page_evict_example :
    ((page_evict 0 resident six).0 ≡ frame_text 1 six)
    × PageGone 0 resident (page_evict 0 resident six).2
    × IsSpace 6 (page_evict 0 resident six).1 1
    × ((k : ℕ) → (k < 1) ⊎ (1 + 3 ≤ k) → slot_at (page_evict 0 resident six).1 k ≡ slot_at six k)
    × ((q : Pcb) → (k : ℕ) → load_page 6 k q (page_evict 0 resident six).1 ≢ none)
page_evict_example =
    page_evict_lem 6 1 0 resident six (omega arith) (omega arith) (omega arith) refl refl

free_page_example :
    ((k : ℕ) → 1 ≤ k → k < 1 + 5 → slot_at (free_page page_at_one six) k ≡ free_slot)
    × ((k : ℕ) → (k < 1) ⊎ (1 + 5 ≤ k) → slot_at (free_page page_at_one six) k ≡ slot_at six k)
free_page_example = free_page_lem 1 page_at_one six refl (omega arith)

page_table_size_example : (7 ≤ 3 * page_table_size 7) × (3 * page_table_size 7 < 7 + 3)
page_table_size_example = page_table_size_lem 7

pcb_done_example : (pcb_done unloaded ≡ true) ↔ All AtEnd (0 ∷ [])
pcb_done_example = pcb_done_iff unloaded
