-- ===== src/A1/Interpreter/Commands.antt =====
-- What the commands of a1/interpreter.c leave alone, and when a command is unknown.
use comp310_assignments.Prelude.{
  ℕ, ◌≤◌, ◌<◌, All, Option, none, some, length, ◌≡◌, ◌≢◌, refl, sym, false, List, [], ◌∷◌, ◌++◌,
  Text, codes, streq, streq_ne, arith,
}
use comp310_assignments.ShellMemory.{Store}
use comp310_assignments.A1.Memory.{mem_get_value}
use comp310_assignments.A1.Shell.{
  Os, Shell, Outcome, returned, exited, undefined, out_of_fuel, strip, strip_all, say, say_line,
  length-strip,
}
use comp310_assignments.A1.Interpreter.{
  badcommand, print, echo_failed, echo_variable, echo, my_ls, run_system, my_mkdir, my_touch, my_cd,
  my_cat, help, quit, with_argument, without_arguments, dispatch, interpreter,
}

module _ {W : Type 0} where
  -- The memory behind a command that returns or ends the program.
  unfoldable pub memory_after : Outcome W → Option Store
  memory_after (returned code sh) = some sh.memory
  memory_after (exited code sh) = some sh.memory
  memory_after undefined = none
  memory_after out_of_fuel = none

  -- All values fit into `result` of `echo`.
  abbrev pub ShortValues : Shell W → Type 0
  ShortValues sh = (var : Text) → length (mem_get_value var sh.memory) < 100

  badcommand-memory : (sh : Shell W) → memory_after (badcommand sh) ≡ some sh.memory
  unfolding memory_after badcommand say_line say
  badcommand-memory sh = refl

  print-memory : (var : Text) (sh : Shell W) → memory_after (print var sh) ≡ some sh.memory
  unfolding memory_after print say_line say
  print-memory var sh = refl

  echo_variable-memory :
      (var : Text) (sh : Shell W)
      → length var ≤ 100
      → length (mem_get_value var sh.memory) < 100
      → memory_after (echo_variable var sh) ≡ some sh.memory
  unfolding memory_after echo_variable say_line say
  echo_variable-memory var sh le lt = ground arith

  echo-memory :
      (var : Text) (sh : Shell W)
      → length var ≤ 101
      → ShortValues sh
      → memory_after (echo var sh) ≡ some sh.memory
  unfolding memory_after echo echo_failed say_line say
  echo-memory [] sh le short = refl
  echo-memory (c ∷ []) sh le short = ground arith
  echo-memory (c ∷ d ∷ t) sh le short =
      let rest = echo_variable-memory (d ∷ t) sh (omega arith) (short (d ∷ t)) in ground arith

  module _ (os : Os W) (help_string : Text) (room : ℕ → ℕ) where
    run_system-memory :
        (command failure : Text) (sh : Shell W)
        → memory_after (run_system os help_string room command failure sh) ≡ some sh.memory
    unfolding memory_after run_system say_line say
    run_system-memory command failure sh = ground arith

    my_cd-memory :
        (value : Text) (sh : Shell W)
        → memory_after (my_cd os help_string room value sh) ≡ some sh.memory
    unfolding memory_after my_cd say_line say
    my_cd-memory value sh = ground arith

    my_cat-memory :
        (value : Text) (sh : Shell W)
        → memory_after (my_cat os help_string room value sh) ≡ some sh.memory
    unfolding memory_after my_cat say_line say
    my_cat-memory value sh = ground arith

    module _ (run_input : Text → Shell W → Outcome W) where
      with_argument-memory :
          (name a : Text) (sh : Shell W)
          → streq name (codes "run") ≡ false
          → length a ≤ 101
          → ShortValues sh
          → memory_after (with_argument os help_string room run_input name a sh) ≡ some sh.memory
      unfolding with_argument my_mkdir my_touch
      with_argument-memory name a sh ne le short =
          let p = print-memory a sh in
          let e = echo-memory a sh le short in
          let m = run_system-memory (codes "mkdir " ++ a) (codes "Bad command : my_mkdir") sh in
          let t = run_system-memory (codes "touch " ++ a) (codes "Bad command : my_touch") sh in
          let c = my_cd-memory a sh in
          let r = my_cat-memory a sh in let b = badcommand-memory sh in ground arith

      without_arguments-memory :
          (name : Text) (sh : Shell W)
          → memory_after (without_arguments os help_string room run_input name sh) ≡ some sh.memory
      unfolding memory_after without_arguments help quit my_ls badcommand say_line say
      without_arguments-memory name sh = ground arith

      dispatch-memory :
          (name : Text) (args : List Text) (sh : Shell W)
          → streq name (codes "set") ≡ false
          → streq name (codes "run") ≡ false
          → All (λ a. length a ≤ 101) args
          → ShortValues sh
          → memory_after (dispatch os help_string room run_input (name ∷ args) sh) ≡ some sh.memory
      unfolding dispatch
      dispatch-memory name [] sh ns nr fit short = without_arguments-memory name sh
      dispatch-memory name (a ∷ []) sh ns nr fit short =
          with_argument-memory name a sh nr fit.0 short
      dispatch-memory name (a ∷ b ∷ args) sh ns nr fit short =
          let bad = badcommand-memory sh in ground arith

      strip_all-fit :
          (args : List Text)
          → All (λ a. length a ≤ 101) args
          → All (λ a. length a ≤ 101) (strip_all args)
      unfolding strip_all
      strip_all-fit [] fit = tt
      strip_all-fit (a ∷ args) fit =
          (omega (arith, length-strip a, fit.0), strip_all-fit args fit.1)

      -- Commands other than `set` and `run`, with arguments of at most 101 characters each and while all
      -- values have fewer than 100, return or end the program, and leave the variables alone, however many
      -- words the line has.
      pub interpreter-memory :
          (name : Text) (args : List Text) (sh : Shell W)
          → codes "set" ≢ strip name
          → codes "run" ≢ strip name
          → All (λ a. length a ≤ 101) args
          → ShortValues sh
          → memory_after (interpreter os help_string room run_input (name ∷ args) sh)
            ≡ some sh.memory
      unfolding interpreter strip_all
      interpreter-memory name args sh ns nr fit short =
          let bad = badcommand-memory sh in
          let rest =
            dispatch-memory (strip name) (strip_all args) sh
              (streq_ne (strip name) (codes "set") (λ e. ns (sym e)))
              (streq_ne (strip name) (codes "run") (λ e. nr (sym e))) (strip_all-fit args fit)
              short in
          ground arith
