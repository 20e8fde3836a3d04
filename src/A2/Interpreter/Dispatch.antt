-- ===== src/A2/Interpreter/Dispatch.antt =====
-- The function `interpreter` of a2/interpreter.c, with `run` and `exec`, which start processes. The words are
-- the array `command_args`, of which the first `args_size` are the command.
use comp310_assignments.Prelude.{
  ℕ, Bool, true, false, ◌||◌, List, [], ◌∷◌, ◌++◌, none, some, Text, codes, streq, ltb, leb, ◌==◌,
  if◌then◌else◌, take, drop, get_elem?,
}
use comp310_assignments.Prelude.Int.{ℤ, pos}
use comp310_assignments.A1.Shell.{strip_all}
use comp310_assignments.A2.Memory.{resetmem}
use comp310_assignments.A2.Shell.{Os, Shell, Outcome, returned, undefined, ◌>>=◌, say_line}
use comp310_assignments.A2.Kernel.Initialize.{process_initialize}
use comp310_assignments.A2.Errors.{
  file_error, too_many_tokens, too_few_tokens, bad_command, error_of,
}
use comp310_assignments.A2.Interpreter.{
  max_args_size, handle_error, join_words, file_exists, loadtobs, quit, my_ls, my_touch, my_cd,
  print, echo, set_variable, my_mkdir, print_shell_memory,
}

-- The words behind the loop that cuts them at a line's end.
unfoldable pub stripped : (args_size : ℕ) → List Text → List Text
stripped args_size words =
    if args_size == 0
    then words
    else if ltb max_args_size args_size
    then words
    else strip_all (take args_size words) ++ drop args_size words

module _ {W : Type 0} (os : Os W) (help_string : Text) (frame_size var_size lines_read : ℕ) where
  -- The schedule and the loop of loadtobs are on fuel.
  module _ (schedule : (policy : Text) → Shell W → Outcome W (ℕ × Shell W)) (fuel : ℕ) where
    -- A copy of the program in the backing store becomes a process.
    unfoldable pub start_process : Text → Shell W → Outcome W (ℕ × Shell W)
    start_process script sh = do
      (filename, sh1) ← loadtobs os fuel script sh
      process_initialize frame_size var_size lines_read os filename sh1

    unfoldable pub run : Text → Shell W → Outcome W (ℤ × Shell W)
    run script sh = elim (file_exists os script sh.world) [
      | false ↦ handle_error file_error sh
      | true ↦ do
        (code, sh1) ← start_process script sh
        elim (code == 0) [
          | false ↦ handle_error (error_of code) sh1
          | true ↦ do (ignored, sh2) ← schedule (codes "FCFS") sh1; returned (pos 0, sh2)
        ]
    ]

    -- The loop over the names that are not NULL, and the schedule behind it.
    unfoldable pub exec : List Text → Shell W → Outcome W (ℤ × Shell W)
    exec [] sh = do
      (code, sh1) ← schedule (codes "RR") sh
      if code == 0 then returned (pos 0, sh1) else handle_error (error_of code) sh1
    exec (script ∷ scripts) sh = elim (file_exists os script sh.world) [
      | false ↦ handle_error file_error sh
      | true ↦ do
        (code, sh1) ← start_process script sh
        elim (code == 0) [ false ↦ handle_error (error_of code) sh1 | true ↦ exec scripts sh1 ]
    ]

    unfoldable pub help : Shell W → Outcome W (ℤ × Shell W)
    help sh = returned (pos 0, say_line help_string sh)

    -- The commands that take no argument.
    unfoldable pub plain_command : (name : Text) → Shell W → Outcome W (ℤ × Shell W)
    plain_command name sh =
        if streq name (codes "help")
        then help sh
        else if streq name (codes "quit") || streq name (codes "exit")
        then quit os sh
        else if streq name (codes "my_ls")
        then my_ls os sh
        else if streq name (codes "resetmem")
        then returned (
          pos (resetmem frame_size var_size sh.memory).1,
          record sh { memory = (resetmem frame_size var_size sh.memory).0 },
        )
        else handle_error bad_command (print_shell_memory os frame_size var_size sh)

    unfoldable pub is_plain : Text → Bool
    is_plain name =
        streq name (codes "help")
        || (streq name (codes "quit")
            || (streq name (codes "exit")
                || (streq name (codes "my_ls")
                    || (streq name (codes "resetmem") || streq name (codes "mem")))))

    -- The commands that take one argument, and for some of which there may be none.
    unfoldable pub argument_command : (name argument : Text) → Shell W → Outcome W (ℤ × Shell W)
    argument_command name argument sh =
        if streq name (codes "print")
        then print os frame_size var_size argument sh
        else if streq name (codes "run")
        then run argument sh
        else if streq name (codes "echo")
        then echo os frame_size var_size argument sh
        else if streq name (codes "my_mkdir")
        then my_mkdir os frame_size var_size argument sh
        else if streq name (codes "my_touch")
        then my_touch os argument sh
        else my_cd os argument sh

    unfoldable pub needs_argument : Text → Bool
    needs_argument name = streq name (codes "print") || streq name (codes "run")

    unfoldable pub takes_argument : Text → Bool
    takes_argument name =
        streq name (codes "echo")
        || (streq name (codes "my_mkdir")
            || (streq name (codes "my_touch") || streq name (codes "my_cd")))

    -- `command_args[1]`, which is NULL or a word of a command before where the command has one word.
    unfoldable pub with_argument : (name : Text) → List Text → Shell W → Outcome W (ℤ × Shell W)
    with_argument name words sh = elim (get_elem? words 1) [
      | none ↦ undefined
      | some argument ↦ argument_command name argument sh
    ]

    unfoldable pub set_command : (args_size : ℕ) → List Text → Shell W → Outcome W (ℤ × Shell W)
    set_command args_size words sh = elim (get_elem? words 1) [
      | none ↦ undefined
      | some var ↦
          set_variable os frame_size var_size var (join_words (drop 2 (take args_size words))) sh
    ]

    -- The tests of the command's name and of the number of words.
    unfoldable pub run_command :
        (name : Text) → (args_size : ℕ) → List Text → Shell W → Outcome W (ℤ × Shell W)
    run_command name args_size words sh =
        if is_plain name
        then (if ltb 1 args_size then handle_error too_many_tokens sh else plain_command name sh)
        else if streq name (codes "set")
        then (if ltb args_size 3
            then handle_error too_few_tokens sh
            else set_command args_size words sh)
        else if needs_argument name
        then (if ltb args_size 2
            then handle_error too_few_tokens sh
            else if ltb 2 args_size
            then handle_error too_many_tokens sh
            else with_argument name words sh)
        else if takes_argument name
        then (if ltb 2 args_size
            then handle_error too_many_tokens sh
            else with_argument name words sh)
        else if streq name (codes "exec")
        then (if leb args_size 1
            then handle_error too_few_tokens sh
            else if ltb 5 args_size
            then handle_error too_many_tokens sh
            else if args_size == 5
            then handle_error bad_command sh
            else exec (drop 1 (take args_size words)) sh)
        else handle_error bad_command sh

    -- It returns the error code.
    unfoldable pub interpreter : List Text → (args_size : ℕ) → Shell W → Outcome W (ℤ × Shell W)
    interpreter words args_size sh =
        if ltb args_size 1
        then handle_error too_few_tokens sh
        else if ltb max_args_size args_size
        then handle_error too_many_tokens sh
        else elim (get_elem? (stripped args_size words) 0) [
          | none ↦ undefined
          | some name ↦ run_command name args_size (stripped args_size words) sh
        ]
