-- ===== src/A3/Kernel/Fifo.antt =====
-- run_proc_FIFO of a3/kernel.c. The interpreter `parse_input` changes the memory only. `none` is
-- `exit(99)`, an access to what is not there, or a loop that is out of fuel.
pub mod Repeat
use comp310_assignments.Prelude.{
  ℕ, zero, suc, ◌+◌, Bool, true, false, List, [], ◌∷◌, Option, none, some, Text, ◌==◌,
  if◌then◌else◌,
}
use comp310_assignments.Prelude.Int.{ℤ}
use comp310_assignments.ShellMemory.{Store}
use comp310_assignments.A3.Pcb.{Page, Pcb, free_pages}
use comp310_assignments.A3.Pcb.Lines.{bit_at}
use comp310_assignments.A3.Cpu.{proc_done}
use comp310_assignments.A3.Kernel.{Kernel}
use comp310_assignments.A3.Kernel.RoundRobin.{run_proc}

-- The loop over the pages and their places, to the first valid bit.
unfoldable pub first_valid : (i : ℕ) → List Page → Option (ℕ × ℕ)
first_valid i [] = none
first_valid i (page ∷ pages) =
    let rest = first_valid (i + 1) pages in
    if bit_at page 0 == 0
    then if bit_at page 1 == 0
      then if bit_at page 2 == 0 then rest else some (i, 2)
      else some (i, 1)
    else some (i, 0)

module _ (parse_input : Text → Store → ℤ × Store) (border : ℕ) where
  -- The inner loop, on fuel.
  unfoldable pub run_whole : ℕ → (a : ℕ) → Kernel → Option Kernel
  run_whole zero a s = none
  run_whole (suc f) a s = elim (proc_done (s.pcbs a).size == 0) [
    | false ↦ some s
    | true ↦ elim (first_valid 0 (s.pcbs a).page_table) [
      | none ↦ none
      | some (i, j) ↦ elim (run_proc parse_input border a i j s) [
        | none ↦ none
        | some (ret, s1) ↦ run_whole f a s1
      ]
    ]
  ]

  unfoldable pub run_proc_fifo : ℕ → Kernel → Option Kernel
  run_proc_fifo zero s = none
  run_proc_fifo (suc f) s = elim s.queue [
    | [] ↦ some s
    | a ∷ rest ↦
        let s0 : Kernel = record s { queue = rest } in
        elim (run_whole ((s.pcbs a).size + 1) a s0) [
          | none ↦ none
          | some s1 ↦
              run_proc_fifo f (record s1 { memory = free_pages (s1.pcbs a).page_table s1.memory })
        ]
  ]
