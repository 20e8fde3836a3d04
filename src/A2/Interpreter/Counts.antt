-- ===== src/A2/Interpreter/Counts.antt =====
-- The function `interpreter` of a2/interpreter.c refuses a command with too few or too many words.
use comp310_assignments.Prelude.{
  ℕ, ◌<◌, ◌≡◌, refl, ap, ◌∙◌, false, List, [], ◌∷◌, Option, none, some, Text, codes, streq, ltb,
  if◌then◌else◌, get_elem?, arith, inl, inr, Bool-cases, Option-cases,
}
use comp310_assignments.Prelude.Int.{ℤ}
use comp310_assignments.A2.Shell.{Os, Shell, Outcome}
use comp310_assignments.A2.Errors.{Error, too_many_tokens, too_few_tokens, bad_command}
use comp310_assignments.A2.Interpreter.{handle_error}
use comp310_assignments.A2.Interpreter.Dispatch.{
  stripped, is_plain, needs_argument, takes_argument, run_command, interpreter,
}

-- The numbers of words that a command may have.
abbrev pub limits_of : Text → List (Text × ℕ × ℕ) → Option (ℕ × ℕ)
limits_of t [] = none
limits_of t ((name, lo, hi) ∷ es) = if streq t name then some (lo, hi) else limits_of t es

abbrev pub limits : List (Text × ℕ × ℕ)
limits =
    (codes "help", 1, 1)
    ∷ (codes "quit", 1, 1)
    ∷ (codes "exit", 1, 1)
    ∷ (codes "my_ls", 1, 1)
    ∷ (codes "resetmem", 1, 1)
    ∷ (codes "mem", 1, 1)
    ∷ (codes "set", 3, 7)
    ∷ (codes "print", 2, 2)
    ∷ (codes "run", 2, 2)
    ∷ (codes "echo", 1, 2)
    ∷ (codes "my_mkdir", 1, 2)
    ∷ (codes "my_touch", 1, 2)
    ∷ (codes "my_cd", 1, 2)
    ∷ (codes "exec", 2, 5)
    ∷ []

module _ {W : Type 0} (os : Os W) (help_string : Text) (frame_size var_size lines_read : ℕ)
    (schedule : (policy : Text) → Shell W → Outcome W (ℕ × Shell W)) (fuel : ℕ) (words : List Text)
    (sh : Shell W) where
  unknown :
      (name : Text) (n : ℕ)
      → limits_of name limits ≡ none
      → run_command os help_string frame_size var_size lines_read schedule fuel name n words sh
        ≡ handle_error bad_command sh
  unfolding run_command is_plain needs_argument takes_argument
  unknown name n e = ground arith

  abbrev run_named : (name : Text) → (n : ℕ) → Outcome W (ℤ × Shell W)
  run_named name n =
      run_command os help_string frame_size var_size lines_read schedule fuel name n words sh

  too_few :
      (name : Text) (n lo hi : ℕ)
      → limits_of name limits ≡ some (lo, hi)
      → 0 < n
      → n < lo
      → run_named name n ≡ handle_error too_few_tokens sh
  unfolding run_command is_plain needs_argument takes_argument
  too_few name n lo hi e some_word few = ground arith

  too_many :
      (name : Text) (n lo hi : ℕ)
      → limits_of name limits ≡ some (lo, hi)
      → n < 8
      → hi < n
      → run_named name n ≡ handle_error too_many_tokens sh
  unfolding run_command is_plain needs_argument takes_argument
  too_many name n lo hi e fits many = ground arith

-- The error for a command with `n` words, where there is one.
abbrev pub verdict : Option (ℕ × ℕ) → (n : ℕ) → Option Error
verdict none n = some bad_command
verdict (some (lo, hi)) n =
    if ltb n lo then some too_few_tokens else if ltb hi n then some too_many_tokens else none

abbrev pub verdict_of_name : Option Text → (n : ℕ) → Option Error
verdict_of_name none n = none
verdict_of_name (some name) n = verdict (limits_of name limits) n

abbrev pub refusal : List Text → (n : ℕ) → Option Error
refusal words n =
    if ltb n 1
    then some too_few_tokens
    else if ltb 7 n
    then some too_many_tokens
    else verdict_of_name (get_elem? (stripped n words) 0) n

module _ {W : Type 0} (os : Os W) (help_string : Text) (frame_size var_size lines_read : ℕ)
    (schedule : (policy : Text) → Shell W → Outcome W (ℕ × Shell W)) (fuel : ℕ) where
  run_command-verdict :
      (name : Text) (n : ℕ) (words : List Text) (sh : Shell W) (e : Error) (o : Option (ℕ × ℕ))
      → limits_of name limits ≡ o
      → 0 < n
      → n < 8
      → verdict o n ≡ some e
      → run_command os help_string frame_size var_size lines_read schedule fuel name n words sh
        ≡ handle_error e sh
  run_command-verdict name n words sh e none found lo hi h =
      let same : bad_command ≡ e = cc in
      unknown os help_string frame_size var_size lines_read schedule fuel words sh name n found
      ∙ ap (λ x. handle_error x sh) same
  run_command-verdict name n words sh e (some (few, many)) found lo hi h =
      elim (Bool-cases (ltb n few)) [
        | inl less ↦
            let h' = rw less at h in
            let same : too_few_tokens ≡ e = cc in
            too_few os help_string frame_size var_size lines_read schedule fuel words sh name n few
              many found lo (ground arith)
            ∙ ap (λ x. handle_error x sh) same
        | inr enough ↦ elim (Bool-cases (ltb many n)) [
          | inl more ↦
              let h' = rw (enough, more) at h in
              let same : too_many_tokens ≡ e = cc in
              too_many os help_string frame_size var_size lines_read schedule fuel words sh name n
                few many found hi (ground arith)
              ∙ ap (λ x. handle_error x sh) same
          | inr right ↦ absurd (cc (rw (enough, right) at h))
        ]
      ]

  interpreter-none :
      (n : ℕ) (words : List Text) (sh : Shell W)
      → n < 1
      → interpreter os help_string frame_size var_size lines_read schedule fuel words n sh
        ≡ handle_error too_few_tokens sh
  unfolding interpreter
  interpreter-none n words sh h = ground arith

  interpreter-long :
      (n : ℕ) (words : List Text) (sh : Shell W)
      → 7 < n
      → interpreter os help_string frame_size var_size lines_read schedule fuel words n sh
        ≡ handle_error too_many_tokens sh
  unfolding interpreter
  interpreter-long n words sh h = ground arith

  interpreter-named :
      (n : ℕ) (words : List Text) (sh : Shell W) (name : Text)
      → 0 < n
      → n < 8
      → get_elem? (stripped n words) 0 ≡ some name
      → interpreter os help_string frame_size var_size lines_read schedule fuel words n sh
        ≡ run_command os help_string frame_size var_size lines_read schedule fuel name n
            (stripped n words)
            sh
  unfolding interpreter
  interpreter-named n words sh name lo hi e =
      let some_word : ltb n 1 ≡ false = ground arith in
      let fits : ltb 7 n ≡ false = ground arith in rw (some_word, fits, e, interpreter) refl

  -- `interpreter` refuses every command that a table of the commands and their least and greatest numbers of
  -- words refuses, and with the same error: no words or more than 7, a name that is none of the 14, or too few
  -- or too many words for the name. It prints the message of the error and returns its code, and
  -- nothing else of the state changes.
  pub interpreter-refusal :
      (words : List Text) (n : ℕ) (sh : Shell W) (e : Error)
      → refusal words n ≡ some e
      → interpreter os help_string frame_size var_size lines_read schedule fuel words n sh
        ≡ handle_error e sh
  interpreter-refusal words n sh e h = elim (Bool-cases (ltb n 1)) [
    | inl less ↦
        let h' = rw less at h in
        let same : too_few_tokens ≡ e = cc in
        interpreter-none n words sh (ground arith) ∙ ap (λ x. handle_error x sh) same
    | inr some_word ↦ elim (Bool-cases (ltb 7 n)) [
      | inl more ↦
          let h' = rw (some_word, more) at h in
          let same : too_many_tokens ≡ e = cc in
          interpreter-long n words sh (ground arith) ∙ ap (λ x. handle_error x sh) same
      | inr fits ↦
          let h' = rw (some_word, fits) at h in
          elim (Option-cases (get_elem? (stripped n words) 0)) [
            | inl e1 ↦ absurd (cc (rw e1 at h'))
            | inr (name, e1) ↦
                interpreter-named n words sh name (ground arith) (ground arith) e1
                ∙ run_command-verdict name n (stripped n words) sh e (limits_of name limits) refl
                    (ground arith) (ground arith) (rw e1 at h')
          ]
    ]
  ]
