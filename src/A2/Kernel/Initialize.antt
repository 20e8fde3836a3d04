-- ===== src/A2/Kernel/Initialize.antt =====
-- process_initialize and shell_process_initialize of a2/kernel.c. `lines_read` is the value that `linesRead` of
-- load_file starts with. A process's node is named by its pid, which no other node has. The queue is the
-- global one.
use comp310_assignments.Prelude.{
  ℕ, ◌+◌, true, [], ◌∷◌, none, some, Text, codes, ◌==◌, if◌then◌else◌,
}
use comp310_assignments.Prelude.Int.{pos, ◌+ℤ◌, ◌-ℤ◌}
use comp310_assignments.Prelude.Stdio.{newline}
use comp310_assignments.A2.Memory.Load.{no_space, loaded, load_file}
use comp310_assignments.A2.Pcb.{Pcb, make_pcb}
use comp310_assignments.A2.ReadyQueue.{QueueNode, add_to_tail, add_to_head}
use comp310_assignments.A2.Errors.{file_does_not_exist, file_error, error_code}
use comp310_assignments.A2.Shell.{Os, Shell, Outcome, returned, undefined}

-- The newlines that the loop `while (!feof(file))` counts.
unfoldable pub count_newlines : Text → ℕ
count_newlines [] = 0
count_newlines (c ∷ t) = let rest = count_newlines t in if c == newline then rest + 1 else rest

-- The last `ch` is the end of the file, which is no newline.
unfoldable pub count_lines : Text → ℕ
count_lines t = let lines = count_newlines t in if lines == 0 then 0 else lines + 1

abbrev pub node_of : Pcb → QueueNode
node_of pcb = record { addr = pcb.pid; pcb = pcb }

module _ {W : Type 0} (frame_size var_size : ℕ) (lines_read : ℕ) where
  -- The value is the error code.
  unfoldable pub process_initialize : Os W → Text → Shell W → Outcome W (ℕ × Shell W)
  process_initialize os filename sh = elim (os.open_file filename sh.world) [
    | none ↦ returned (error_code file_does_not_exist, sh)
    | some text ↦ elim (load_file frame_size var_size lines_read text filename sh.memory) [
      | none ↦ undefined
      | some (no_space m) ↦ returned (error_code file_error, record sh { memory = m })
      | some (loaded start end m) ↦
          let newend = pos start +ℤ (pos (count_lines text) -ℤ pos 1) in
          let (pcb, counter) = make_pcb start end newend filename sh.pid_counter in
          returned (
            0,
            record sh {
              memory = m;
              pid_counter = counter;
              queue = add_to_tail (node_of pcb) sh.queue;
            },
          )
    ]
  ]

  -- `input` is what is left to read from `stdin`, which is then opened again.
  unfoldable pub shell_process_initialize : (input : Text) → Shell W → Outcome W (ℕ × Shell W)
  shell_process_initialize input sh =
      elim (load_file frame_size var_size lines_read input (codes "_SHELL") sh.memory) [
        | none ↦ undefined
        | some (no_space m) ↦ returned (21, record sh { memory = m })
        | some (loaded start end m) ↦
            let (pcb, counter) = make_pcb start end (pos 0) (codes "shell") sh.pid_counter in
            returned (
              0,
              record sh {
                memory = m;
                pid_counter = counter;
                queue = add_to_head (node_of (record pcb { priority = true })) sh.queue;
              },
            )
      ]
