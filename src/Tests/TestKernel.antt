-- ===== src/Tests/TestKernel.antt =====
-- Witnesses for a3/kernel.c: two processes and room for one page.
use comp310_assignments.Prelude.{
  ◌-◌, ℕ, zero, suc, ◌≡◌, ◌≢◌, refl, false, [], ◌∷◌, ◌++◌, none, some, arith, Text, get_elem?,
  if◌then◌else◌, ◌==◌, streq, none_text,
}
use comp310_assignments.ShellMemory.{Slot, Store, free_slot}
use comp310_assignments.A3.Memory.{frame_alloc, has_space, free_run}
use comp310_assignments.Prelude.Int.{ℤ, pos}
use comp310_assignments.Prelude.Scan.{scan}
use comp310_assignments.A3.Pcb.{
  Pcb, blank_page, page_table_size, count_lines, count_from, pcb_init, load_page, load_pages,
  load_lines, page_equal, pcb_done, done_from,
}
use comp310_assignments.A3.Pcb.Evict.{frame_at, frame_text, PageGone}
use comp310_assignments.A3.Cpu.{cpu_run}
use comp310_assignments.A3.Kernel.{
  Kernel, kernel_setup, put_pcb, page_fault, new_proc, is_one, remove_page, touch_page,
}
use comp310_assignments.A3.Kernel.RoundRobin.{
  run_line, run_proc, next_line, run_next, run_turn, queue_done, run_rounds,
}
use comp310_assignments.A3.Kernel.Fifo.{first_valid}
use comp310_assignments.A3.Kernel.Fifo.Repeat.{run_proc-first_valid}
use comp310_assignments.A3.Kernel.Turns.{no_round, round, Rounds-fair}
use comp310_assignments.A3.Kernel.Pids.{HasPids, new_proc-HasPids}
use comp310_assignments.A3.Kernel.Fault.{evicted, page_fault_lem}

abbrev taken : Slot
taken = record { var = 49 ∷ []; value = 97 ∷ [] }

abbrev full_memory : Store
full_memory = taken ∷ taken ∷ taken ∷ []

-- The process behind 10, whose page is in memory, and the one behind 11, whose page is not.
abbrev first_process : Pcb
first_process = record {
  pid = 1;
  size = 3;
  program_counter = 0 ∷ [];
  page_table = record (blank_page 1 0) { index = frame_at 0; valid_bit = 1 ∷ 1 ∷ 1 ∷ [] } ∷ [];
  source_file = [];
}

abbrev second_process : Pcb
second_process = record {
  pid = 2;
  size = 1;
  program_counter = 0 ∷ [];
  page_table = blank_page 2 0 ∷ [];
  source_file = 98 ∷ [];
}

abbrev two_processes : Kernel
two_processes = record {
  queue = 10 ∷ [];
  lru_cache = record { owner = 10; number = 0 } ∷ [];
  all_pcb = 10 ∷ 11 ∷ [];
  pid_counter = 3;
  pcbs = λ a. if a == 10 then first_process else second_process;
  memory = full_memory;
  output = [];
}

two_processes-HasPids : HasPids two_processes
two_processes-HasPids = record {
  below = λ n a e. ground arith;
  apart = λ n k a b e e' same. different n k a b e e' same;
}
  where
    different :
        (n k a b : ℕ)
        → get_elem? (10 ∷ 11 ∷ []) n ≡ some a
        → get_elem? (10 ∷ 11 ∷ []) k ≡ some b
        → (two_processes.pcbs a).pid ≡ (two_processes.pcbs b).pid
        → n ≡ k
    different zero zero a b e e' same = refl
    different (suc zero) (suc zero) a b e e' same = refl
    different zero (suc zero) a b e e' same = absurd (ground arith)
    different (suc zero) zero a b e e' same = absurd (ground arith)
    different (suc (suc n)) k a b e e' same = absurd (ground arith)
    different zero (suc (suc k)) a b e e' same = absurd (ground arith)
    different (suc zero) (suc (suc k)) a b e e' same = absurd (ground arith)

no_frame : load_page 3 0 second_process full_memory ≡ none
unfolding load_page frame_alloc streq none_text scan has_space free_run
no_frame = refl

page_fault_example :
    (s' : Kernel) × (page_fault 3 11 0 two_processes ≡ some s')
    × (s'.lru_cache ≡ record { owner = 11; number = 0 } ∷ [])
    × (s'.queue ≡ 10 ∷ 11 ∷ [])
    × (s'.output ≡ frame_text 0 full_memory ∷ [])
    × (load_page 3 0
          ((evicted 10 (record { owner = 10; number = 0 }) [] two_processes).pcbs 11)
          (evicted 10 (record { owner = 10; number = 0 }) [] two_processes).memory
        ≡ some (s'.memory, s'.pcbs 11))
    × PageGone 0 first_process
        ((evicted 10 (record { owner = 10; number = 0 }) [] two_processes).pcbs 10)
    × ((c : ℕ)
        → 10 ≢ c
        → (evicted 10 (record { owner = 10; number = 0 }) [] two_processes).pcbs c
          ≡ two_processes.pcbs c)
    × ((c : ℕ)
        → 11 ≢ c
        → s'.pcbs c ≡ (evicted 10 (record { owner = 10; number = 0 }) [] two_processes).pcbs c)
page_fault_example =
    page_fault_lem 3 11 0 0 0 10 two_processes (record { owner = 10; number = 0 }) []
      two_processes-HasPids refl refl refl no_frame (omega arith) (omega arith) (omega arith) refl
      refl

abbrev empty_kernel : Kernel
empty_kernel = kernel_setup (λ a. second_process) (free_slot ∷ free_slot ∷ free_slot ∷ [])

abbrev quiet_run : Text → Store → ℤ × Store
quiet_run t m = (pos 0, m)

-- The first process runs two lines and goes behind the second.
abbrev both_waiting : Kernel
both_waiting = record two_processes { queue = 10 ∷ 11 ∷ [] }

abbrev behind_turn : Kernel
behind_turn = record two_processes {
  queue = 11 ∷ 10 ∷ [];
  pcbs =
      put_pcb 10 (record first_process { program_counter = 2 ∷ []; size = 1 })
        (put_pcb 10 (record first_process { program_counter = 1 ∷ []; size = 2 })
          two_processes.pcbs);
}

first_turn : run_turn quiet_run 3 10 (record both_waiting { queue = 11 ∷ [] }) ≡ some behind_turn
unfolding run_turn run_next run_proc run_line cpu_run touch_page remove_page page_equal is_one
    next_line
first_turn = refl

first_undone : queue_done quiet_run 3 both_waiting.queue both_waiting.pcbs ≡ false
unfolding queue_done pcb_done done_from
first_undone = refl

Rounds-fair_example :
    (run_rounds quiet_run 3 10 both_waiting ≡ run_rounds quiet_run 3 9 behind_turn)
    × (get_elem? behind_turn.queue 0 ≡ some 11)
Rounds-fair_example =
    Rounds-fair quiet_run 3 1 9 11 both_waiting behind_turn
      (round 0 10 (11 ∷ []) both_waiting behind_turn behind_turn first_undone refl first_turn
        (no_round behind_turn))
      refl

abbrev one_process : Kernel
one_process = elim (new_proc 3 5 (some []) empty_kernel) [ none ↦ empty_kernel | some s ↦ s ]

empty_kernel-HasPids : HasPids empty_kernel
unfolding kernel_setup
empty_kernel-HasPids = record {
  below = λ n a e. absurd (ground arith);
  apart = λ n k a b e e' same. absurd (ground arith);
}

one_process-started : new_proc 3 5 (some []) empty_kernel ≡ some one_process
unfolding new_proc kernel_setup pcb_init load_pages load_page frame_alloc page_table_size
    count_lines count_from load_lines streq none_text scan has_space free_run free_slot
one_process-started = refl

none_listed : (n : ℕ) → get_elem? empty_kernel.all_pcb n ≢ some 5
unfolding kernel_setup
none_listed n e = absurd (ground arith)

new_proc_example :
    HasPids one_process
    × ((one_process.pcbs 5).pid ≡ empty_kernel.pid_counter)
    × (one_process.queue ≡ empty_kernel.queue ++ (5 ∷ []))
    × (one_process.all_pcb ≡ empty_kernel.all_pcb ++ (5 ∷ []))
new_proc_example =
    new_proc-HasPids 3 5 [] empty_kernel one_process empty_kernel-HasPids none_listed
      one_process-started

-- The first process after one of its lines.
abbrev one_line_on : Kernel
one_line_on = record both_waiting {
  pcbs =
      put_pcb 10 (record first_process { program_counter = 1 ∷ []; size = 2 }) two_processes.pcbs;
}

first_line : run_proc quiet_run 3 10 0 0 both_waiting ≡ some (0, one_line_on)
unfolding run_proc run_line cpu_run touch_page remove_page page_equal is_one
first_line = refl

first_line-hit : is_one (run_line quiet_run 3 10 0 0 both_waiting).0 ≡ false
unfolding run_line cpu_run is_one
first_line-hit = refl

first_place : first_valid 0 (both_waiting.pcbs 10).page_table ≡ some (0, 0)
unfolding first_valid
first_place = refl

run_proc-first_valid_example :
    (first_valid 0 (one_line_on.pcbs 10).page_table ≡ some (0, 0))
    × ((one_line_on.pcbs 10).size ≡ (both_waiting.pcbs 10).size - 1)
run_proc-first_valid_example =
    run_proc-first_valid quiet_run 3 10 0 0 0 both_waiting one_line_on (omega arith) first_place
      first_line-hit first_line
