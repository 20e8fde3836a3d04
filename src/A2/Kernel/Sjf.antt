-- ===== src/A2/Kernel/Sjf.antt =====
-- scheduler_SJF of a2/kernel.c runs every process of the ready queue.
pub mod Popped
use mathlib.Core.List.{Perm}
use mathlib.Core.List.Perm
use comp310_assignments.Prelude.{
  ℕ, suc, ◌+◌, ◌-◌, ◌≤◌, ◌<◌, ◌≡◌, Bool, List, [], ◌∷◌, some, Text, length,
}
use comp310_assignments.Prelude.Int.{ℤ}
use comp310_assignments.ShellMemory.{Store}
use comp310_assignments.A2.ReadyQueue.{QueueNode, Queue, pop_shortest_job, max_int}
use comp310_assignments.A2.Shell.{Os, Shell, Outcome, returned}
use comp310_assignments.A2.Kernel.Lines.{Runnable, lines_at, set_background, run_listed}
use comp310_assignments.A2.Kernel.Execute.Ends.{KeepsFrames, QuietLines}
use comp310_assignments.A2.Kernel.Schedulers.{scheduler_sjf}

module _ {W : Type 0} (frame_size var_size : ℕ) (after : Text → Shell W → Shell W) where
  -- All lines of a process that are in memory.
  abbrev pub lines_of : QueueNode → Shell W → List Text
  lines_of x sh = lines_at frame_size var_size sh.memory x.pcb.pc (x.pcb.end + 1 - x.pcb.pc)

  -- The processes that are run one after the other, each of them taken from the queue by
  -- `pop_shortest_job`, all its lines in order.
  pub data RunsJobs : List QueueNode → Shell W → Shell W → Type 0 where
    no_job : (sh : Shell W) → sh.queue ≡ [] → RunsJobs [] sh sh
    job :
        (x : QueueNode) (rest : Queue) (order : List QueueNode) (b : Bool) (sh sh' : Shell W)
        → pop_shortest_job sh.queue ≡ some (some x, rest)
        → RunsJobs order
            (set_background b (run_listed after (lines_of x sh) (record sh { queue = rest })))
            sh'
        → RunsJobs (x ∷ order) sh sh'

module _ {W : Type 0} (frame_size var_size : ℕ) (os : Os W) (Quiet : Text → Type 0)
    (parse_input : Text → Shell W → Outcome W (ℤ × Shell W))
    (h : KeepsFrames W frame_size var_size Quiet parse_input)
    (keeps_queue : (t : Text) (sh : Shell W)
      → Quiet t
      → length sh.memory ≡ frame_size + var_size
      → (h.after t sh).queue ≡ sh.queue)
    (big : 5 < frame_size + var_size) where
  -- A process that can be run: its lines are in frames of its pages, there is one at least, and the
  -- interpreter is quiet on them.
  abbrev pub Ready : Store → QueueNode → Type 0
  Ready m x =
      Runnable frame_size var_size x.pcb m
      × (x.pcb.pc ≤ x.pcb.end)
      × (x.pcb.end + 1 - x.pcb.pc ≤ max_int)
      × QuietLines Quiet x.pcb m

  -- What the theorem says of a queue of `n` processes.
  abbrev pub SjfRan : ℕ → Shell W → Type 0
  SjfRan n sh =
      (order : List QueueNode) × (sh' : Shell W) × (scheduler_sjf frame_size var_size os parse_input
          (suc n) sh
        ≡ returned sh')
      × Perm order sh.queue
      × RunsJobs frame_size var_size h.after order sh sh'
      × (sh'.queue ≡ [])
