-- ===== src/A3/Kernel/RoundRobin.antt =====
-- run_proc and run_proc_RR of a3/kernel.c. The interpreter `parse_input` changes the memory only: lines
-- that start processes of their own are left out. `none` is `exit(99)`, or an access to what is not
-- there, and in `run_rounds` a loop that is out of fuel.
use comp310_assignments.Prelude.{
  ℕ, zero, suc, ◌+◌, Bool, true, false, List, [], ◌∷◌, ◌++◌, Option, none, some, Text, ltb, ◌==◌,
  if◌then◌else◌, set, get_or,
}
use comp310_assignments.Prelude.Int.{ℤ}
use comp310_assignments.ShellMemory.{Store}
use comp310_assignments.A3.Pcb.{Pcb, page_at, line_at, pcb_done, free_pages}
use comp310_assignments.A3.Pcb.Lines.{bit_at}
use comp310_assignments.A3.Cpu.{Counters, cpu_run}
use comp310_assignments.A3.Kernel.{Kernel, put_pcb, is_one, page_fault, touch_page}

module _ (parse_input : Text → Store → ℤ × Store) (border : ℕ) where
  -- `cpu_run` on the place `k` of a page, and the counters that it changes.
  unfoldable pub run_line : (a i k : ℕ) → Kernel → ℤ × Kernel
  run_line a i k s =
      let pcb = s.pcbs a in
      let counters : Counters = record {
        program_counter = get_or pcb.program_counter i 0;
        size = pcb.size;
      } in
      let (ret, c, m) =
        cpu_run parse_input (line_at (page_at pcb i) k) (bit_at (page_at pcb i) k) counters
          s.memory in
      (
        ret,
        record s {
          pcbs =
              put_pcb a
                (record pcb {
                  program_counter = set pcb.program_counter i c.program_counter;
                  size = c.size;
                })
                s.pcbs;
          memory = m;
        },
      )

  -- The value is 1 for a page fault and 0 otherwise.
  unfoldable pub run_proc : (a i k : ℕ) → Kernel → Option (ℕ × Kernel)
  run_proc a i k s =
      let (ret, s1) = run_line a i k s in
      elim (is_one ret) [
        | true ↦ elim (page_fault border a i s1) [ none ↦ none | some s2 ↦ some (1, s2) ]
        | false ↦ elim (touch_page a i s1) [ none ↦ none | some s2 ↦ some (0, s2) ]
      ]

  -- The first page that is not at its end, and the place in it.
  unfoldable pub next_line : (i : ℕ) → List ℕ → Option (ℕ × ℕ)
  next_line i [] = none
  next_line i (c ∷ cs) = elim (c == 3) [ true ↦ next_line (i + 1) cs | false ↦ some (i, c) ]

  unfoldable pub run_next : (a : ℕ) → Kernel → Option (ℕ × Kernel)
  run_next a s = elim (next_line 0 (s.pcbs a).program_counter) [
    | none ↦ none
    | some (i, k) ↦ run_proc a i k s
  ]

  -- One round of run_proc_RR, for a process that was taken from the queue.
  unfoldable pub run_turn : (a : ℕ) → Kernel → Option Kernel
  run_turn a s =
      if ltb 1 (s.pcbs a).size
      then elim (run_next a s) [
        | none ↦ none
        | some (ret, s1) ↦ elim (ret == 1) [
          | true ↦ some s1
          | false ↦ elim (run_next a s1) [
            | none ↦ none
            | some (ret2, s2) ↦ elim (ret2 == 1) [
              | true ↦ some s2
              | false ↦ some (record s2 { queue = s2.queue ++ (a ∷ []) })
            ]
          ]
        ]
      ]
      else if (s.pcbs a).size == 1
      then elim (run_next a s) [ none ↦ none | some (ret, s1) ↦ some s1 ]
      else some s

  unfoldable pub queue_done : List ℕ → (ℕ → Pcb) → Bool
  queue_done [] pcbs = true
  queue_done (a ∷ rest) pcbs = elim (pcb_done (pcbs a)) [
    | true ↦ queue_done rest pcbs
    | false ↦ false
  ]

  -- The loop of run_proc_RR, on fuel; it does not end where a process faults for ever.
  unfoldable pub run_rounds : ℕ → Kernel → Option Kernel
  run_rounds zero s = none
  run_rounds (suc f) s = elim (queue_done s.queue s.pcbs) [
    | true ↦ some s
    | false ↦ elim s.queue [
      | [] ↦ none
      | a ∷ rest ↦ elim (run_turn a (record s { queue = rest })) [
        | none ↦ none
        | some s1 ↦ run_rounds f s1
      ]
    ]
  ]

  -- `free_PCB` of all processes.
  unfoldable pub free_all : List ℕ → (ℕ → Pcb) → Store → Store
  free_all [] pcbs m = m
  free_all (a ∷ rest) pcbs m = free_all rest pcbs (free_pages (pcbs a).page_table m)

  unfoldable pub run_proc_rr : ℕ → Kernel → Option Kernel
  run_proc_rr f s = elim (run_rounds f s) [
    | none ↦ none
    | some s1 ↦ some (record s1 {
      queue = [];
      lru_cache = [];
      all_pcb = [];
      memory = free_all s1.all_pcb s1.pcbs s1.memory;
    })
  ]
