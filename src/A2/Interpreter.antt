-- ===== src/A2/Interpreter.antt =====
-- a2/interpreter.c. The array `command_args` keeps the words of commands before on the same line behind
-- `args_size`: a command reads them where it looks at an argument that it was not given. `schedule` is
-- schedule_by_policy, `help_string` the text that `help` prints, and `lines_read` the value that `linesRead`
-- of load_file starts with.
pub mod Dispatch
pub mod ParseInput
pub mod Line
pub mod Rounds
pub mod Chain
pub mod Stuck
pub mod Counts
pub mod Quiet
use comp310_assignments.Prelude.{
  ℕ, zero, suc, ◌+◌, ◌-◌, Bool, true, false, ◌&&◌, ◌||◌, List, [], ◌∷◌, ◌++◌, Option, none, some,
  Text, codes, streq, none_text, ltb, leb, ◌==◌, if◌then◌else◌, length, take, drop, get_elem?,
}
use comp310_assignments.Prelude.Int.{ℤ, pos, negsuc}
use comp310_assignments.Prelude.Stdio.{newline, decimal}
use comp310_assignments.ShellMemory.{Slot, Store}
use comp310_assignments.A1.Shell.{strip_all}
use comp310_assignments.A2.Memory.{mem_set_value, mem_get_value, resetmem}
use comp310_assignments.A2.Shell.{
  Os, Shell, Outcome, returned, exited, undefined, out_of_fuel, ◌>>=◌, defined, say, say_line,
}
use comp310_assignments.A2.Errors.{Error, error_cd, error_mkdir, error_code, error_msg}

abbrev pub max_args_size : ℕ
max_args_size = 7

-- `set`: the words from number 2 on, with a space between two.
unfoldable pub join_words : List Text → Text
join_words [] = []
join_words (w ∷ []) = w
join_words (w ∷ v ∷ ws) = w ++ b' ' ∷ join_words (v ∷ ws)

unfoldable pub has_space : Text → Bool
has_space [] = false
has_space (c ∷ t) = let rest = has_space t in if c == b' ' then true else rest

-- The lines of printShellMemory, and the number of free slots.
unfoldable pub print_slots : (i : ℕ) → Store → Text × ℕ
print_slots i [] = ([], 0)
print_slots i (s ∷ m) =
    let rest = print_slots (i + 1) m in
    if streq s.var none_text then (rest.0, rest.1 + 1) else (
      newline
          ∷ (codes "line "
              ++ decimal i
              ++ codes ": key: "
              ++ s.var
              ++ 9 ∷ 9 ∷ (codes "value: " ++ s.value ++ newline ∷ rest.0)),
      rest.1,
    )

module _ {W : Type 0} where
  unfoldable pub handle_error : Error → Shell W → Outcome W (ℤ × Shell W)
  handle_error e sh =
      returned (pos (error_code e), say_line (codes "Bad command: " ++ error_msg e) sh)

-- `chdir` gives 0 where it succeeds.
unfoldable pub is_zero : ℤ → Bool
is_zero (pos n) = n == 0
is_zero (negsuc n) = false

module _ {W : Type 0} (os : Os W) where
  unfoldable pub file_exists : Text → W → Bool
  file_exists path world = elim (os.open_file path world) [ none ↦ false | some text ↦ true ]

  -- `snprintf` into an array of 100 characters.
  unfoldable pub fit : Text → Text
  fit t = take 99 t

  unfoldable pub unique_name : (filename : Text) → (unique_id : ℕ) → Text
  unique_name filename unique_id = fit (filename ++ b'_' ∷ decimal unique_id)

  -- The loop that looks for a name that is not in the backing store, on fuel.
  unfoldable pub find_unique : (fuel : ℕ) → (filename : Text) → (unique_id : ℕ) → W → Option Text
  find_unique zero filename unique_id world = none
  find_unique (suc f) filename unique_id world =
      elim (file_exists (fit (codes "backingstore/" ++ unique_name filename unique_id)) world) [
        | true ↦ find_unique f filename (unique_id + 1) world
        | false ↦ some (unique_name filename unique_id)
      ]

  unfoldable pub loadtobs : (fuel : ℕ) → Text → Shell W → Outcome W (Text × Shell W)
  loadtobs f filename sh = elim (find_unique f filename 1 sh.world) [
    | none ↦ out_of_fuel
    | some unique ↦
        let path = codes "backingstore/" ++ unique in
        let copied =
          (os.system (fit (codes "cp " ++ filename ++ codes " backingstore " ++ newline ∷ []))
            sh.world).1 in
        let moved =
          (os.system (fit (codes "mv backingstore/" ++ filename ++ b' ' ∷ fit path)) copied).1 in
        returned (path, record sh { world = moved })
  ]

  unfoldable pub remove_store : W → W
  remove_store world =
      let (result, inside) = os.chdir (codes "backingstore") world in
      if is_zero result
      then (os.system (codes "rm -r backingstore") (os.chdir (codes "..") inside).1).1
      else inside

  unfoldable pub quit : Shell W → Outcome W (ℤ × Shell W)
  quit sh =
      let (result, at_code) = os.chdir (codes "/code") sh.world in
      let world' =
        remove_store (if is_zero result then at_code else (os.chdir (codes "..") at_code).1) in
      exited 0 (record (say_line (codes "Bye!") sh) { queue = []; world = world' })

  unfoldable pub run_system : Text → Shell W → Outcome W (ℤ × Shell W)
  run_system command sh =
      let (code, world') = os.system command sh.world in
      returned (code, record sh { world = world' })

  unfoldable pub my_ls : Shell W → Outcome W (ℤ × Shell W)
  my_ls sh = run_system (codes "ls | sort") sh

  unfoldable pub my_touch : Text → Shell W → Outcome W (ℤ × Shell W)
  my_touch filename sh = run_system (codes "touch " ++ filename) sh

  unfoldable pub my_cd : Text → Shell W → Outcome W (ℤ × Shell W)
  my_cd dirname sh = elim (os.is_directory dirname sh.world) [
    | true ↦
        let (code, world') = os.chdir dirname sh.world in
        returned (code, record sh { world = world' })
    | false ↦ handle_error error_cd sh
  ]

  module _ (frame_size var_size : ℕ) where
    unfoldable pub print : Text → Shell W → Outcome W (ℤ × Shell W)
    print var sh = elim (mem_get_value frame_size var_size var sh.memory) [
      | none ↦ returned (pos 0, say_line (newline ∷ []) sh)
      | some value ↦ returned (pos 0, say_line value sh)
    ]

    unfoldable pub echo : Text → Shell W → Outcome W (ℤ × Shell W)
    echo [] sh = returned (pos 0, say_line [] sh)
    echo (c ∷ var) sh = if c == b'$' then print var sh else returned (pos 0, say_line (c ∷ var) sh)

    -- `set`, whose name is `set_variable` here; `buffer` has room for 999 characters.
    unfoldable pub set_variable : (var value : Text) → Shell W → Outcome W (ℤ × Shell W)
    set_variable var value sh =
        if ltb 999 (length var + 1 + length value)
        then undefined
        else returned
            (pos 0, record sh { memory = mem_set_value frame_size var_size var value sh.memory })

    unfoldable pub my_mkdir : Text → Shell W → Outcome W (ℤ × Shell W)
    my_mkdir [] sh = run_system (codes "mkdir ") sh
    my_mkdir (c ∷ name) sh =
        if c == b'$'
        then elim (mem_get_value frame_size var_size name sh.memory) [
          | none ↦ handle_error error_mkdir sh
          | some value ↦
              if has_space value
              then handle_error error_mkdir sh
              else run_system (codes "mkdir " ++ value) sh
        ]
        else run_system (codes "mkdir " ++ c ∷ name) sh

    unfoldable pub print_shell_memory : Shell W → Shell W
    print_shell_memory sh =
        let (lines, count_empty) = print_slots 0 sh.memory in
        let total = var_size + frame_size in
        say
          (lines
            ++ newline
              ∷ 9
              ∷ (decimal total
                  ++ codes " lines in total, "
                  ++ decimal (total - count_empty)
                  ++ codes " lines in use, "
                  ++ decimal count_empty
                  ++ codes " lines free"
                  ++ newline ∷ newline ∷ []))
          sh
