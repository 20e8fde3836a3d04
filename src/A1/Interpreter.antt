-- ===== src/A1/Interpreter.antt =====
-- a1/interpreter.c, and `parseInput` of a1/shell.c, which calls it. The system is a parameter, and so is
-- the text that `help` prints. `strdup` and `malloc` give a block of at least the size they are asked for:
-- `room n` is what a block of n bytes can hold. What is printed is one text.
pub mod Commands
pub mod Variables
pub mod Script
use comp310_assignments.Prelude.{
  ℕ, zero, suc, ◌+◌, Bool, true, false, List, [], ◌∷◌, ◌++◌, Option, none, some, Text, codes, streq,
  ltb, leb, ◌==◌, if◌then◌else◌, length,
}
use comp310_assignments.Prelude.Stdio.{newline, fgets, feof}
use comp310_assignments.ShellMemory.{Store}
use comp310_assignments.A1.Memory.{mem_set_value, mem_get_value}
use comp310_assignments.A1.Words.{parse_words}
use comp310_assignments.A1.Shell.{
  Os, Shell, Outcome, returned, exited, undefined, out_of_fuel, strip, strip_all, max_args_size,
  no_variable, say, say_line,
}

module _ {W : Type 0} where
  unfoldable pub badcommand : Shell W → Outcome W
  badcommand sh = returned 1 (say_line (codes "Unknown Command") sh)

  unfoldable pub set_failed : Shell W → Outcome W
  set_failed sh = returned 1 (say_line (codes "Bad command : set") sh)

  -- `set`, whose name is `set_variable` here.
  unfoldable pub set_variable : Text → Text → Shell W → Outcome W
  set_variable var [] sh = set_failed sh
  set_variable var (c ∷ value) sh =
      if c == b' '
      then set_failed sh
      else returned 0 (record sh { memory = mem_set_value var (c ∷ value) sh.memory })

  unfoldable pub print : Text → Shell W → Outcome W
  print var sh = returned 0 (say_line (mem_get_value var sh.memory) sh)

  unfoldable pub echo_failed : Shell W → Outcome W
  echo_failed sh = returned 1 (say_line (codes "Bad command : echo") sh)

  -- `echo` of `$var`: `s` has room for 101 characters, `result` for 99.
  unfoldable pub echo_variable : Text → Shell W → Outcome W
  echo_variable var sh =
      let result = mem_get_value var sh.memory in
      if leb 101 (length var)
      then undefined
      else if leb 100 (length result)
      then undefined
      else if streq result no_variable
      then returned 1 (say_line [] sh)
      else returned 0 (say_line result sh)

  unfoldable pub echo : Text → Shell W → Outcome W
  echo [] sh = echo_failed sh
  echo (c ∷ []) sh = if c == b'$' then echo_failed sh else returned 0 (say_line (c ∷ []) sh)
  echo (c ∷ d ∷ t) sh =
      if c == b'$' then echo_variable (d ∷ t) sh else returned 0 (say_line (c ∷ d ∷ t) sh)

  -- The loop of the command `set` at argument `i`: `size` is what the block of the first word holds.
  unfoldable pub set_words : (size i : ℕ) → (var value : Text) → List Text → Shell W → Outcome W
  set_words size i var value [] sh = set_variable var value sh
  set_words size i var value (a ∷ args) sh =
      let value' = value ++ b' ' ∷ a in
      let rest = set_words size (i + 1) var value' args sh in
      if ltb size (length value' + 1)
      then undefined
      else if ltb 6 i
      then set_failed sh
      else if length a == 0
      then set_failed sh
      else rest

  -- The loop of `run`: `line` has been read, `text` is left, and `eof` is what `feof` says.
  unfoldable pub run_lines :
      (parse_input : Text → Shell W → Outcome W)
      → ℕ
      → (line text : Text) → (eof : Bool) → Shell W
      → Outcome W
  run_lines parse_input zero line text eof sh = out_of_fuel
  run_lines parse_input (suc f) line text eof sh = elim (parse_input line sh) [
    | returned code sh' ↦ elim eof [
      | true ↦ returned code sh'
      | false ↦ elim (fgets 999 text) [
        | none ↦ run_lines parse_input f [] [] true sh'
        | some (line', text') ↦ run_lines parse_input f line' text' (feof 999 text) sh'
      ]
    ]
    | exited code sh' ↦ exited code sh'
    | undefined ↦ undefined
    | out_of_fuel ↦ out_of_fuel
  ]

  -- From an empty file no line is read, and the array that is interpreted has no value.
  unfoldable pub run_text : (parse_input : Text → Shell W → Outcome W) → Text → Shell W → Outcome W
  run_text parse_input text sh = elim (fgets 999 text) [
    | none ↦ undefined
    | some (line, rest) ↦ run_lines parse_input (length text + 1) line rest (feof 999 text) sh
  ]

  module _ (os : Os W) (help_string : Text) (room : ℕ → ℕ) where
    unfoldable pub my_ls : Shell W → Outcome W
    my_ls sh = returned 0 (record sh { world = (os.system (codes "ls") sh.world).1 })

    -- A command line, and what it prints where it fails.
    unfoldable pub run_system : (command failure : Text) → Shell W → Outcome W
    run_system command failure sh =
        let (result, world') = os.system command sh.world in
        let sh' = record sh { world = world' } in
        if result == 0 then returned 0 sh' else returned 1 (say_line failure sh')

    unfoldable pub my_mkdir : Text → Shell W → Outcome W
    my_mkdir value sh = run_system (codes "mkdir " ++ value) (codes "Bad command : my_mkdir") sh

    unfoldable pub my_touch : Text → Shell W → Outcome W
    my_touch value sh = run_system (codes "touch " ++ value) (codes "Bad command : my_touch") sh

    unfoldable pub my_cd : Text → Shell W → Outcome W
    my_cd value sh =
        let (result, world') = os.chdir value sh.world in
        let sh' = record sh { world = world' } in
        if result == 0
        then returned 0 sh'
        else returned 1 (say_line (codes "Bad command : my_cd") sh')

    unfoldable pub my_cat : Text → Shell W → Outcome W
    my_cat value sh = elim (os.open_file value sh.world) [
      | none ↦ returned 1 (say_line (codes "Bad command: my_cat") sh)
      | some text ↦ returned 0 (say text sh)
    ]

    unfoldable pub help : Shell W → Outcome W
    help sh = returned 0 (say_line help_string sh)

    unfoldable pub quit : Shell W → Outcome W
    quit sh = exited 0 (say_line (codes "Bye!") sh)

    unfoldable pub set_command : List Text → Shell W → Outcome W
    set_command (var ∷ value ∷ args) sh =
        if ltb (length var) 1
        then set_failed sh
        else set_words (room (length value + 1)) 3 var value args sh
    set_command args sh = badcommand sh

    module _ (parse_input : Text → Shell W → Outcome W) where
      unfoldable pub run : Text → Shell W → Outcome W
      run script sh = elim (os.open_file script sh.world) [
        | none ↦ returned 3 (say_line (codes "Bad command: File not found") sh)
        | some text ↦ run_text parse_input text sh
      ]

      -- The commands with one argument.
      unfoldable pub with_argument : (name arg : Text) → Shell W → Outcome W
      with_argument name arg sh =
          if streq name (codes "print")
          then print arg sh
          else if streq name (codes "run")
          then run arg sh
          else if streq name (codes "echo")
          then echo arg sh
          else if streq name (codes "my_mkdir")
          then my_mkdir arg sh
          else if streq name (codes "my_touch")
          then my_touch arg sh
          else if streq name (codes "my_cd")
          then my_cd arg sh
          else if streq name (codes "my_cat")
          then my_cat arg sh
          else badcommand sh

      -- The commands without arguments.
      unfoldable pub without_arguments : Text → Shell W → Outcome W
      without_arguments name sh =
          if streq name (codes "help")
          then help sh
          else if streq name (codes "quit")
          then quit sh
          else if streq name (codes "my_ls")
          then my_ls sh
          else badcommand sh

      unfoldable pub dispatch : List Text → Shell W → Outcome W
      dispatch [] sh = badcommand sh
      dispatch (name ∷ []) sh = without_arguments name sh
      dispatch (name ∷ a ∷ []) sh = with_argument name a sh
      dispatch (name ∷ a ∷ b ∷ args) sh =
          if streq name (codes "set") then set_command (a ∷ b ∷ args) sh else badcommand sh

      unfoldable pub interpreter : List Text → Shell W → Outcome W
      interpreter args sh =
          if ltb (length args) 1
          then badcommand sh
          else if ltb max_args_size (length args)
          then badcommand sh
          else dispatch (strip_all args) sh

    -- A script may run itself: fuel bounds the nesting of scripts.
    unfoldable pub parse_input : ℕ → Text → Shell W → Outcome W
    parse_input zero ui sh = out_of_fuel
    parse_input (suc f) ui sh = elim (parse_words ui) [
      | none ↦ undefined
      | some ws ↦ interpreter (parse_input f) ws sh
    ]
