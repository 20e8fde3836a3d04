-- ===== src/A2/Kernel/Schedulers.antt =====
-- scheduler_FCFS, scheduler_SJF, both versions of scheduler_AGING and schedule_by_policy of a2/kernel.c.
-- The interpreter is the argument `parse_input`, the disk the argument `os`, and scheduler_RR the argument
-- `scheduler_rr`, with its quanta. The loops are on fuel, since a script can start processes.
use comp310_assignments.Prelude.{
  ℕ, zero, suc, ◌+◌, Bool, true, false, ◌&&◌, ◌||◌, List, [], ◌∷◌, ◌++◌, Option, none, some, Text,
  codes, streq, ltb, ◌==◌, if◌then◌else◌,
}
use comp310_assignments.Prelude.Int.{ℤ}
use comp310_assignments.A2.Pcb.{Page}
use comp310_assignments.A2.ReadyQueue.{
  QueueNode, Queue, add_to_tail, add_to_head, is_ready_empty, decrement_job_length_score,
  sort_ready_queue, pop_shortest_job, max_int,
}
use comp310_assignments.A2.ReadyQueue.Aging.{aging_select}
use comp310_assignments.A2.Errors.{scheduling_error, error_code}
use comp310_assignments.A2.Shell.{
  Os, Shell, Outcome, returned, undefined, out_of_fuel, ◌>>=◌, defined,
}
use comp310_assignments.A2.Kernel.{execute_process, is_below}
use comp310_assignments.A2.Kernel.Paging.{load_page}

-- The executed page that was used least recently, from number `j` on; `none` where `lastusedframe` gets no
-- value. The walk ends at a page that is not loaded, or reads on behind the table.
unfoldable pub least_recent : (j lastused : ℕ) → (frame : Option ℕ) → List Page → Option ℕ
least_recent j lastused frame [] = none
least_recent j lastused frame (p ∷ ps) = elim (p.loaded == 1) [
  | false ↦ frame
  | true ↦
      least_recent (j + 1)
        (if p.executed == 1 && ltb lastused p.last_used then p.last_used else lastused)
        (if p.executed == 1 && ltb lastused p.last_used then some j else frame) ps
]

module _ {W : Type 0} (frame_size var_size : ℕ) (os : Os W)
    (parse_input : Text → Shell W → Outcome W (ℤ × Shell W)) where
  -- The process is taken from the queue and run.
  unfoldable pub run_popped :
      QueueNode → Queue → (quanta : ℕ) → Shell W → Outcome W (ℕ × QueueNode × Shell W)
  run_popped cur rest quanta sh =
      execute_process frame_size var_size parse_input (is_ready_empty rest) cur quanta
        (record sh { queue = rest })

  -- The next page of a process that ran to the end of its lines, and its way back into the queue.
  unfoldable pub reload : QueueNode → Shell W → Outcome W (Shell W)
  reload cur sh = do
    victim ← defined (least_recent 0 0 none cur.pcb.pt)
    (cur1, m, printed) ← defined (
        load_page frame_size var_size cur.pcb.temp_size (os.open_file cur.pcb.filename sh.world) cur
          victim sh.memory)
    returned
        (record sh { memory = m; output = sh.output ++ printed; queue = add_to_tail cur1 sh.queue })

  -- A round of scheduler_FCFS behind `execute_process`: the state and `stillrunning`.
  unfoldable pub fcfs_after :
      (result : ℕ) → (stillrunning : Bool) → QueueNode → Shell W → Outcome W (Bool × Shell W)
  fcfs_after result stillrunning cur sh = elim (result == 2) [
    | false ↦ returned (stillrunning, sh)
    | true ↦ elim (is_below cur.pcb.temp_size cur.pcb.full_size) [
      | false ↦ returned (false, sh)
      | true ↦ do sh1 ← reload cur sh; returned (true, sh1)
    ]
  ]

  unfoldable pub fcfs_loop : ℕ → (stillrunning : Bool) → Shell W → Outcome W (Shell W)
  fcfs_loop zero stillrunning sh = out_of_fuel
  fcfs_loop (suc f) stillrunning sh = elim sh.queue [
    | [] ↦ if stillrunning then undefined else returned sh
    | cur ∷ rest ↦ do
      (result, cur1, sh1) ← run_popped cur rest max_int sh
      (running, sh2) ← fcfs_after result stillrunning cur1 sh1
      fcfs_loop f running sh2
  ]

  unfoldable pub scheduler_fcfs : ℕ → Shell W → Outcome W (Shell W)
  scheduler_fcfs f sh = fcfs_loop f false sh

  unfoldable pub scheduler_sjf : ℕ → Shell W → Outcome W (Shell W)
  scheduler_sjf zero sh = out_of_fuel
  scheduler_sjf (suc f) sh = elim sh.queue [
    | [] ↦ returned sh
    | x ∷ q ↦ elim (pop_shortest_job (x ∷ q)) [
      | none ↦ undefined
      | some (none, rest) ↦ undefined
      | some (some cur, rest) ↦ do
        (result, cur1, sh1) ← run_popped cur rest max_int sh
        scheduler_sjf f sh1
    ]
  ]

  -- One line of a process; it goes back to the head of the queue where it has more.
  unfoldable pub run_aged : QueueNode → Queue → Shell W → Outcome W (Shell W)
  run_aged cur rest sh = do
    (result, cur1, sh1) ← run_popped cur (decrement_job_length_score rest) 1 sh
    returned (if result == 0 then record sh1 { queue = add_to_head cur1 sh1.queue } else sh1)

  unfoldable pub scheduler_aging_alternative : ℕ → Shell W → Outcome W (Shell W)
  scheduler_aging_alternative zero sh = out_of_fuel
  scheduler_aging_alternative (suc f) sh = elim sh.queue [
    | [] ↦ returned sh
    | x ∷ q ↦ elim (pop_shortest_job (x ∷ q)) [
      | none ↦ undefined
      | some (none, rest) ↦ undefined
      | some (some cur, rest) ↦ do sh1 ← run_aged cur rest sh; scheduler_aging_alternative f sh1
    ]
  ]

  unfoldable pub aging_loop : ℕ → Shell W → Outcome W (Shell W)
  aging_loop zero sh = out_of_fuel
  aging_loop (suc f) sh = elim sh.queue [
    | [] ↦ returned sh
    | x ∷ q ↦ do
      (cur, rest) ← defined (aging_select (x ∷ q))
      sh1 ← run_aged cur rest sh
      aging_loop f sh1
  ]

  unfoldable pub scheduler_aging : ℕ → Shell W → Outcome W (Shell W)
  scheduler_aging f sh = do
    q ← defined (sort_ready_queue sh.queue)
    aging_loop f (record sh { queue = q })

  unfoldable pub is_policy : Text → Bool
  is_policy policy =
      streq policy (codes "FCFS")
      || (streq policy (codes "SJF")
          || (streq policy (codes "RR")
              || (streq policy (codes "AGING") || streq policy (codes "RR30"))))

  -- The scheduler of a policy.
  unfoldable pub run_policy :
      (scheduler_rr : (quanta : ℕ) → Shell W → Outcome W (Shell W))
      → (fuel : ℕ) → Text
      → Shell W
      → Outcome W (Shell W)
  run_policy scheduler_rr f policy sh =
      if streq policy (codes "FCFS")
      then scheduler_fcfs f sh
      else if streq policy (codes "SJF")
      then scheduler_sjf f sh
      else if streq policy (codes "RR")
      then scheduler_rr 2 sh
      else if streq policy (codes "AGING")
      then scheduler_aging f sh
      else if streq policy (codes "RR30")
      then scheduler_rr 30 sh
      else returned sh

  -- The value is the error code.
  unfoldable pub schedule_by_policy :
      (scheduler_rr : (quanta : ℕ) → Shell W → Outcome W (Shell W))
      → (fuel : ℕ) → Text
      → Shell W
      → Outcome W (ℕ × Shell W)
  schedule_by_policy scheduler_rr f policy sh = elim (is_policy policy) [
    | false ↦ returned (error_code scheduling_error, sh)
    | true ↦ elim sh.in_background [
      | true ↦ returned (0, sh)
      | false ↦ do sh1 ← run_policy scheduler_rr f policy sh; returned (0, sh1)
    ]
  ]
