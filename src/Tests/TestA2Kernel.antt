-- ===== src/Tests/TestA2Kernel.antt =====
-- Witnesses and runs for the kernel and the interpreter of a2/.
use comp310_assignments.Prelude.{
  ℕ, ◌+◌, ◌%◌, ◌≤◌, ◌<◌, ◌≡◌, ◌↔◌, refl, subst, inl, inr, true, false, List, [], ◌∷◌, ◌++◌, none,
  some, arith, Text, codes, none_text, length, streq, ◌==◌, three_cases, if◌then◌else◌,
}
use comp310_assignments.Prelude.Int.{ℤ, pos}
use comp310_assignments.ShellMemory.{Slot, Store, free_slot, has_var, slot_at}
use comp310_assignments.A2.Memory.Load.{
  loaded, load_file, load_at, search_space, read_lines, check_space, round_up, three_free, is_used,
}
use comp310_assignments.A2.Memory.{get_index}
use comp310_assignments.A2.Memory.Place.{set_from_line, is_set}
use comp310_assignments.Prelude.Scan.{scan}
use comp310_assignments.Prelude.Stdio.{newline, fgets, feof, read_line, meets_end}
use comp310_assignments.A1.Words.{is_separator}
use comp310_assignments.A2.Memory.Search.{FreeFrom}
use comp310_assignments.A2.Memory.Free.{load_file-FreeFrom}
use comp310_assignments.A2.Memory.Behind.{program, put_lines, load_file-behind}
use comp310_assignments.A2.Pcb.{Pcb, used_page, unused_page}
use comp310_assignments.A2.ReadyQueue.{QueueNode}
use comp310_assignments.A2.Shell.{Os, Shell, Outcome, returned, out_of_fuel}
use comp310_assignments.A2.Kernel.{execute_process, loaded_pages, frame_of}
use comp310_assignments.A2.Kernel.Lines.{Runnable, Found, run_listed}
use comp310_assignments.A2.Kernel.Execute.Ends.{KeepsFrames, QuietLines, Ran}
use comp310_assignments.A2.Kernel.Execute.{execute_process_lem}
use comp310_assignments.A2.Kernel.Schedulers.{schedule_by_policy}
use comp310_assignments.A2.Kernel.Policies.{schedule_by_policy_lem}
use comp310_assignments.A2.Interpreter.ParseInput.{parse_line}
use comp310_assignments.A2.Interpreter.Quiet.Commands.{Kept, print_of}
use comp310_assignments.A2.Interpreter.Quiet.{
  IsQuiet, parse_quiet, parse_input-Kept, parse_input-KeepsFrames,
}
use comp310_assignments.A2.Interpreter.Line.{print_command, print_line}
use comp310_assignments.A2.Interpreter.Chain.{run_commands, parse_line-print_line}
use comp310_assignments.A1.Shell.{strip, strip_all}
use comp310_assignments.A2.Errors.{too_few_tokens}
use comp310_assignments.A2.Interpreter.{handle_error}
use comp310_assignments.A2.Interpreter.Dispatch.{stripped, interpreter}
use comp310_assignments.A2.Interpreter.Counts.{interpreter-refusal}
use comp310_assignments.A2.Interpreter.Stuck.{parse_line-blank_semicolon}

-- Six frames, the first three with a program's lines, and three slots for variables.
abbrev line : Text → Slot
line t = record { var = codes "prog"; value = t }

abbrev memory : Store
memory =
    line (codes "print a" ++ newline ∷ [])
    ∷ line (codes "print b" ++ newline ∷ [])
    ∷ line (codes "print c" ++ newline ∷ [])
    ∷ free_slot
    ∷ free_slot
    ∷ free_slot
    ∷ free_slot
    ∷ free_slot
    ∷ free_slot
    ∷ []

abbrev pcb : Pcb
pcb = record {
  priority = false;
  pid = 1;
  pc = 0;
  start = 0;
  end = 2;
  job_length_score = 3;
  pt = used_page 0 ∷ unused_page ∷ [];
  endof_file = pos 2;
  temp_size = 1;
  full_size = pos 1;
  filename = codes "prog";
}

abbrev node : QueueNode
node = record { addr = 1; pcb = pcb }

abbrev shell : Shell Unit
shell = record {
  memory = memory;
  queue = node ∷ [];
  pid_counter = 2;
  in_background = false;
  output = [];
  world = tt;
}

abbrev os : Os Unit
os = record {
  system = λ t w. (pos 0, w);
  chdir = λ t w. (pos 0, w);
  is_directory = λ t w. false;
  open_file = λ t w. none;
}

-- parseInput, with a round robin that is never called.
abbrev no_round_robin :
    (Text → Shell Unit → Outcome Unit (ℤ × Shell Unit)) → ℕ → Shell Unit → Outcome Unit (Shell Unit)
no_round_robin parse quanta sh = returned sh

abbrev interpret : Text → Shell Unit → Outcome Unit (ℤ × Shell Unit)
interpret t sh = parse_quiet os (codes "help") 6 3 0 no_round_robin 3 (omega arith) t sh

keeps :
    (h : KeepsFrames Unit 6 3 IsQuiet interpret) × ((t : Text) (sh : Shell Unit)
      → IsQuiet t
      → length sh.memory ≡ 6 + 3
      → (h.after t sh).queue ≡ sh.queue)
keeps = parse_input-KeepsFrames os (codes "help") 6 3 0 no_round_robin 3 (omega arith)

-- The lines are `print` with a variable of one letter.
print_IsQuiet : (c : ℕ) → is_separator c ≡ false → IsQuiet (codes "print " ++ c ∷ newline ∷ [])
unfolding is_separator
print_IsQuiet c h = (
  codes "print" ∷ (c ∷ []) ∷ [],
  refl,
  print_of (c ∷ []),
  (
    (((refl, (refl, (refl, (refl, (refl, tt))))), omega arith), (((h, tt), omega arith), tt)),
    omega arith,
  ),
)

node-QuietLines : QuietLines IsQuiet pcb memory
unfolding is_separator
node-QuietLines = λ i lo hi. elim (three_cases 0 i lo (omega arith)) [
  | inl e ↦ subst (λ k. IsQuiet (slot_at memory k).value) e (print_IsQuiet b'a' refl)
  | inr (inl e) ↦ subst (λ k. IsQuiet (slot_at memory k).value) e (print_IsQuiet b'b' refl)
  | inr (inr e) ↦ subst (λ k. IsQuiet (slot_at memory k).value) e (print_IsQuiet b'c' refl)
]

parse_input-Kept_example : Kept 6 3 (interpret (codes "print a" ++ newline ∷ []) shell) shell
unfolding is_separator
parse_input-Kept_example =
    parse_input-Kept os (codes "help") 6 3 0 no_round_robin 3 (omega arith)
      (codes "print a" ++ newline ∷ []) shell (print_IsQuiet b'a' refl) refl

node-Runnable : Runnable 6 3 pcb memory
unfolding loaded_pages frame_of get_index scan streq used_page unused_page free_slot none_text
node-Runnable = record {
  pages = 1;
  loaded = refl;
  inside = omega arith;
  found = λ p lo hi. elim (three_cases 0 p lo (omega arith)) [
    | inl e ↦ subst (Found 6 3 1 pcb memory) e (0, 0, refl, refl)
    | inr (inl e) ↦ subst (Found 6 3 1 pcb memory) e (1, 0, refl, refl)
    | inr (inr e) ↦ subst (Found 6 3 1 pcb memory) e (2, 0, refl, refl)
  ];
}

execute_process_example :
    (r : ℕ) × ((r ≡ 0) ↔ (2 ≤ 2))
    × Ran (execute_process 6 3 interpret true node 2 shell) r 2 (
        run_listed keeps.0.after
          ((codes "print a" ++ newline ∷ []) ∷ (codes "print b" ++ newline ∷ []) ∷ [])
          shell)
execute_process_example =
    execute_process_lem 6 3 IsQuiet interpret keeps.0 2 true node shell node-Runnable
      node-QuietLines refl (omega arith) (omega arith)

schedule_by_policy_example :
    schedule_by_policy 6 3 os interpret (λ quanta sh. returned sh) 5 (codes "SJFS") shell
    ≡ returned (5, shell)
unfolding streq
schedule_by_policy_example =
    schedule_by_policy_lem 6 3 os interpret (λ quanta sh. returned sh) 5 (codes "SJFS") shell

-- Two lines are read behind the program that is there; the file ends with a newline.
abbrev longer : Store
longer = memory ++ free_slot ∷ free_slot ∷ free_slot ∷ []

abbrev after_loading : Store
after_loading =
    line (codes "print a" ++ newline ∷ [])
    ∷ line (codes "print b" ++ newline ∷ [])
    ∷ line (codes "print c" ++ newline ∷ [])
    ∷ record { var = codes "q"; value = codes "x" ++ newline ∷ [] }
    ∷ record { var = codes "q"; value = codes "y" ++ newline ∷ [] }
    ∷ free_slot
    ∷ free_slot
    ∷ free_slot
    ∷ free_slot
    ∷ free_slot
    ∷ free_slot
    ∷ free_slot
    ∷ []

load_file_run :
    load_file 9 3 0 (codes "x" ++ newline ∷ codes "y" ++ newline ∷ []) (codes "q") longer
    ≡ some (loaded 3 5 after_loading)
unfolding load_file load_at search_space read_lines check_space round_up three_free is_used
    set_from_line is_set scan has_var streq free_slot none_text fgets feof read_line meets_end
load_file_run = refl

load_file-FreeFrom_example :
    (3 % 3 ≡ 0)
    × (3 ≤ 5 + 1)
    × (5 < 9)
    × FreeFrom 9 3 longer
    × ((k : ℕ) → k < 3 → slot_at after_loading k ≡ slot_at longer k)
    × (length after_loading ≡ length longer)
load_file-FreeFrom_example =
    load_file-FreeFrom 9 3 0 (codes "x" ++ newline ∷ codes "y" ++ newline ∷ []) (codes "q") longer 3
      5 after_loading load_file_run

-- Commands that print their words.
abbrev show_words : List Text → (args_size : ℕ) → Shell Unit → Outcome Unit (ℤ × Shell Unit)
show_words words args_size sh = returned (
  pos args_size,
  record sh { output = sh.output ++ codes (if args_size == 1 then "one" else "two") },
)

parse_line-print_line_example :
    parse_line show_words 4
      (print_line ((codes "print" ∷ codes "a" ∷ []) ∷ (codes "help" ∷ []) ∷ []))
      shell
    ≡ run_commands show_words [] ((codes "print" ∷ codes "a" ∷ []) ∷ (codes "help" ∷ []) ∷ []) shell
unfolding is_separator
parse_line-print_line_example =
    parse_line-print_line show_words 4 (codes "print" ∷ codes "a" ∷ []) ((codes "help" ∷ []) ∷ [])
      shell
      (
        (
          (
            ((refl, (refl, (refl, (refl, (refl, tt))))), omega arith),
            (((refl, tt), omega arith), tt),
          ),
          omega arith,
        ),
        (((((refl, (refl, (refl, (refl, tt)))), omega arith), tt), omega arith), tt),
      )
      (omega arith)

parse_line-blank_semicolon_example :
    parse_line show_words 100 (print_command (codes "help" ∷ []) (b' ' ∷ b';' ∷ codes "help")) shell
    ≡ out_of_fuel
unfolding is_separator
parse_line-blank_semicolon_example =
    parse_line-blank_semicolon show_words 100 (codes "help" ∷ []) (codes "help") shell
      ((((refl, (refl, (refl, (refl, tt)))), omega arith), tt), omega arith)

longer_search : search_space 9 3 10 0 false longer ≡ (3, true)
unfolding search_space three_free is_used scan has_var streq free_slot none_text
longer_search = refl

load_file-behind_example :
    load_file 9 3 0 (program (codes "x" ∷ codes "y" ∷ [])) (codes "q") longer
    ≡ some (loaded 3 5 (put_lines (codes "q") 3 (codes "x" ∷ codes "y" ∷ []) longer))
unfolding round_up is_set streq
load_file-behind_example =
    load_file-behind 9 3 (codes "q") (codes "x" ∷ codes "y" ∷ []) 3 longer longer_search
      (omega arith) (omega arith)
      (((refl, tt), omega arith, refl), (((refl, tt), omega arith, refl), tt))

interpreter-refusal_example :
    interpreter os
      (codes "help")
      6
      3
      0
      (λ policy sh. returned (0, sh))
      5
      (codes "print" ∷ codes "x" ∷ [])
      1
      shell
    ≡ handle_error too_few_tokens shell
unfolding stripped strip_all strip streq
interpreter-refusal_example =
    interpreter-refusal os (codes "help") 6 3 0 (λ policy sh. returned (0, sh)) 5
      (codes "print" ∷ codes "x" ∷ []) 1 shell too_few_tokens refl
