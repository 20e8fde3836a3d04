-- ===== src/A2/Interpreter/Quiet/Commands.antt =====
-- Commands of a2/interpreter.c that start no process, clear no memory and do not end the shell.
use comp310_assignments.Prelude.{
  ℕ, ◌+◌, ◌≤◌, ◌<◌, ◌≡◌, refl, ◌∙◌, List, [], ◌∷◌, none, some, Text, codes, streq, length, arith,
  inl, inr, Bool-cases, Option-cases, ◌++◌, ◌==◌,
}
use comp310_assignments.Prelude.Int.{ℤ, pos}
use comp310_assignments.Prelude.Stdio.{newline}
use comp310_assignments.ShellMemory.Frame.{slot_at-set_value, length-set_value}
use comp310_assignments.A1.Shell.{strip, strip_all, length-strip}
use comp310_assignments.A2.Memory.{mem_set_value, mem_get_value}
use comp310_assignments.A2.Shell.{Os, Shell, Outcome, returned, say, say_line}
use comp310_assignments.A2.Kernel.Lines.{SameFrames}
use comp310_assignments.A2.Interpreter.{
  print, echo, set_variable, join_words, handle_error, run_system, my_ls, my_touch, my_cd, my_mkdir,
  has_space,
}
use comp310_assignments.A2.Errors.{Error, error_cd, error_mkdir, error_code, error_msg}
use comp310_assignments.A2.Interpreter.Dispatch.{
  stripped, is_plain, plain_command, help, needs_argument, takes_argument, argument_command,
  with_argument, set_command, run_command, interpreter,
}
use comp310_assignments.A2.Interpreter.ParseInput.{put_word}
use comp310_assignments.A2.Interpreter.Line.{put_words}

-- The call returns, and leaves the frames and the queue of `sh` as they are.
pub record Kept {W : Type 0} (frame_size var_size : ℕ) (outcome : Outcome W (ℤ × Shell W))
    (sh : Shell W) : Type 0 where
  pub code : ℤ
  pub shell : Shell W
  pub result : outcome ≡ returned (code, shell)
  pub frames : SameFrames frame_size var_size sh.memory shell.memory
  pub same_queue : shell.queue ≡ sh.queue

-- Commands that start no process, clear nothing and do not end the shell.
pub data QuietCommand : List Text → Type 0 where
  help_of : QuietCommand (codes "help" ∷ [])
  my_ls_of : QuietCommand (codes "my_ls" ∷ [])
  my_mkdir_of : (x : Text) → QuietCommand (codes "my_mkdir" ∷ x ∷ [])
  my_touch_of : (x : Text) → QuietCommand (codes "my_touch" ∷ x ∷ [])
  my_cd_of : (x : Text) → QuietCommand (codes "my_cd" ∷ x ∷ [])
  print_of : (x : Text) → QuietCommand (codes "print" ∷ x ∷ [])
  echo_of : (x : Text) → QuietCommand (codes "echo" ∷ x ∷ [])
  set_of :
      (var value : Text)
      → length var < 200
      → length value < 200
      → QuietCommand (codes "set" ∷ var ∷ value ∷ [])

module _ {W : Type 0} (os : Os W) (help_string : Text) (frame_size var_size lines_read : ℕ) where
  say_line-Kept :
      (t : Text) (sh : Shell W)
      → length sh.memory ≡ frame_size + var_size
      → Kept frame_size var_size (returned (pos 0, say_line t sh)) sh
  unfolding say_line say
  say_line-Kept t sh fits = record {
    code = pos 0;
    shell = say_line t sh;
    result = refl;
    frames = record { same = λ i lt. refl; fits = fits };
    same_queue = refl;
  }

  print-Kept :
      (var : Text) (sh : Shell W)
      → length sh.memory ≡ frame_size + var_size
      → Kept frame_size var_size (print os frame_size var_size var sh) sh
  unfolding print
  print-Kept var sh fits =
      elim (mem_get_value frame_size var_size var sh.memory)
        as (λ o.
          Kept frame_size var_size
            (elim o [
              | none ↦ returned (pos 0, say_line (newline ∷ []) sh)
              | some value ↦ returned (pos 0, say_line value sh)
            ])
            sh) [
              | none ↦ say_line-Kept (newline ∷ []) sh fits
              | some value ↦ say_line-Kept value sh fits
            ]

  echo-Kept :
      (var : Text) (sh : Shell W)
      → length sh.memory ≡ frame_size + var_size
      → Kept frame_size var_size (echo os frame_size var_size var sh) sh
  unfolding echo
  echo-Kept [] sh fits = say_line-Kept [] sh fits
  echo-Kept (c ∷ var) sh fits = elim (Bool-cases (c == b'$')) [
    | inl dollar ↦ rw dollar (print-Kept var sh fits)
    | inr other ↦ rw other (say_line-Kept (c ∷ var) sh fits)
  ]

  handle_error-Kept :
      (e : Error) (sh : Shell W)
      → length sh.memory ≡ frame_size + var_size
      → Kept frame_size var_size (handle_error e sh) sh
  unfolding handle_error say_line say
  handle_error-Kept e sh fits = record {
    code = pos (error_code e);
    shell = say_line (codes "Bad command: " ++ error_msg e) sh;
    result = refl;
    frames = record { same = λ i lt. refl; fits = fits };
    same_queue = refl;
  }

  -- A command of the system changes its state only.
  world-Kept :
      (code : ℤ) (world' : W) (sh : Shell W)
      → length sh.memory ≡ frame_size + var_size
      → Kept frame_size var_size (returned (code, record sh { world = world' })) sh
  world-Kept code world' sh fits = record {
    code = code;
    shell = record sh { world = world' };
    result = refl;
    frames = record { same = λ i lt. refl; fits = fits };
    same_queue = refl;
  }

  run_system-Kept :
      (command : Text) (sh : Shell W)
      → length sh.memory ≡ frame_size + var_size
      → Kept frame_size var_size (run_system os command sh) sh
  unfolding run_system
  run_system-Kept command sh fits =
      world-Kept (os.system command sh.world).0 (os.system command sh.world).1 sh fits

  my_cd-Kept :
      (dirname : Text) (sh : Shell W)
      → length sh.memory ≡ frame_size + var_size
      → Kept frame_size var_size (my_cd os dirname sh) sh
  unfolding my_cd
  my_cd-Kept dirname sh fits = elim (Bool-cases (os.is_directory dirname sh.world)) [
    | inl there ↦
        rw (there, my_cd)
          (world-Kept (os.chdir dirname sh.world).0 (os.chdir dirname sh.world).1 sh fits)
    | inr missing ↦ rw (missing, my_cd) (handle_error-Kept error_cd sh fits)
  ]

  my_mkdir-Kept :
      (name : Text) (sh : Shell W)
      → length sh.memory ≡ frame_size + var_size
      → Kept frame_size var_size (my_mkdir os frame_size var_size name sh) sh
  unfolding my_mkdir
  my_mkdir-Kept [] sh fits = run_system-Kept (codes "mkdir ") sh fits
  my_mkdir-Kept (c ∷ name) sh fits = elim (Bool-cases (c == b'$')) [
    | inr plain ↦ rw (plain, my_mkdir) (run_system-Kept (codes "mkdir " ++ c ∷ name) sh fits)
    | inl dollar ↦ elim (Option-cases (mem_get_value frame_size var_size name sh.memory)) [
      | inl unset ↦ rw (dollar, unset, my_mkdir) (handle_error-Kept error_mkdir sh fits)
      | inr (value, is_set) ↦ elim (Bool-cases (has_space value)) [
        | inl spaced ↦ rw (dollar, is_set, spaced, my_mkdir) (handle_error-Kept error_mkdir sh fits)
        | inr word ↦
            rw (dollar, is_set, word, my_mkdir) (run_system-Kept (codes "mkdir " ++ value) sh fits)
      ]
    ]
  ]

  set_variable-Kept :
      (var value : Text) (sh : Shell W)
      → length sh.memory ≡ frame_size + var_size
      → length var + 1 + length value ≤ 999
      → Kept frame_size var_size (set_variable os frame_size var_size var value sh) sh
  unfolding set_variable mem_set_value
  set_variable-Kept var value sh fits le = record {
    code = pos 0;
    shell = record sh { memory = mem_set_value frame_size var_size var value sh.memory };
    result = ground arith;
    frames = record {
      same = λ i lt. slot_at-set_value frame_size var_size var value sh.memory i (inl lt);
      fits = length-set_value frame_size var_size var value sh.memory ∙ fits;
    };
    same_queue = refl;
  }

  module _ (schedule : (policy : Text) → Shell W → Outcome W (ℕ × Shell W)) (fuel : ℕ) where
    pub interpreter-Kept :
        (c : List Text) (sh : Shell W)
        → QuietCommand c
        → length sh.memory ≡ frame_size + var_size
        → Kept frame_size var_size
            (interpreter os help_string frame_size var_size lines_read schedule fuel
              (put_words 0 c [])
              (length c)
              sh)
            sh
    unfolding interpreter stripped strip_all strip streq run_command is_plain plain_command help
        needs_argument takes_argument with_argument argument_command set_command put_word join_words
        my_ls my_touch
    interpreter-Kept c sh help_of fits = say_line-Kept help_string sh fits
    interpreter-Kept c sh my_ls_of fits = run_system-Kept (codes "ls | sort") sh fits
    interpreter-Kept c sh (my_mkdir_of x) fits = my_mkdir-Kept (strip x) sh fits
    interpreter-Kept c sh (my_touch_of x) fits = run_system-Kept (codes "touch " ++ strip x) sh fits
    interpreter-Kept c sh (my_cd_of x) fits = my_cd-Kept (strip x) sh fits
    interpreter-Kept c sh (print_of x) fits = print-Kept (strip x) sh fits
    interpreter-Kept c sh (echo_of x) fits = echo-Kept (strip x) sh fits
    interpreter-Kept c sh (set_of var value short short') fits =
        set_variable-Kept (strip var) (strip value) sh fits
          (omega (arith, length-strip var, length-strip value))
