-- ===== src/A1/Interpreter/Variables.antt =====
-- `set` and `echo` as lines of input: tokenizer, interpreter and memory together.
use comp310_assignments.Prelude.{
  ℕ, suc, ◌+◌, ◌++◌, length-append, ◌≤◌, ◌<◌, ◌≡◌, ◌≢◌, refl, sym, ap, ◌∙◌, true, false, false≢true,
  List, [], ◌∷◌, Text, codes, streq, streq_ne, ◌==◌, length, arith, subst, some,
}
use comp310_assignments.Prelude.Stdio.{newline}
use comp310_assignments.ShellMemory.Laws.{HasRoom}
use comp310_assignments.A1.Memory.{memory_size, mem_set_value, mem_get_value, mem_set_value_lem}
use comp310_assignments.A1.Words.{blank, is_separator, parse_words}
use comp310_assignments.A1.Words.Split.{IsWord, IsFullWord, join_words, blanks, parse_words-join}
use comp310_assignments.A1.Shell.{
  Os, Shell, Outcome, returned, strip, strip_all, no_variable, say_line,
}
use comp310_assignments.A1.Interpreter.{
  set_variable, set_words, set_command, echo, echo_variable, with_argument, dispatch, interpreter,
  parse_input,
}

-- A character that neither ends a word nor is a carriage return.
abbrev pub IsPlainChar : ℕ → Type 0
IsPlainChar c = (is_separator c ≡ false) × ((c == 13) ≡ false)

abbrev pub IsPlain : Text → Type 0
IsPlain [] = Unit
IsPlain (c ∷ t) = IsPlainChar c × IsPlain t

-- A word that is not empty.
abbrev pub IsFullPlain : Text → Type 0
IsFullPlain [] = ⊥
IsFullPlain (c ∷ t) = IsPlainChar c × IsPlain t

plain-IsFullWord : (w : Text) → IsFullPlain w → IsFullWord w
plain-IsFullWord [] h = h
plain-IsFullWord (c ∷ t) h = (h.0.0, rest t h.1)
  where
    rest : (t : Text) → IsPlain t → IsWord t
    rest [] h = tt
    rest (c ∷ t) h = (h.0.0, rest t h.1)

strip-IsPlain : (w : Text) → IsPlain w → strip w ≡ w
unfolding strip is_separator
strip-IsPlain [] h = refl
strip-IsPlain (c ∷ t) h =
    let rec = strip-IsPlain t h.1 in let first = h.0.0 in let other = h.0.1 in ground arith

strip-full : (w : Text) → IsFullPlain w → strip w ≡ w
strip-full [] h = elim h [ ]
strip-full (c ∷ t) h = strip-IsPlain (c ∷ t) h

module _ {W : Type 0} (os : Os W) (help_string : Text) (room : ℕ → ℕ) where
  parse_input-words :
      (f : ℕ) (ui : Text) (ws : List Text) (sh : Shell W)
      → parse_words ui ≡ some ws
      → parse_input os help_string room (suc f) ui sh
        ≡ interpreter os help_string room (parse_input os help_string room f) ws sh
  unfolding parse_input
  parse_input-words f ui ws sh e = ground arith

  interpreter-set :
      (run_input : Text → Shell W → Outcome W) (var value : Text) (sh : Shell W)
      → interpreter os help_string room run_input (codes "set" ∷ var ∷ value ∷ []) sh
        ≡ set_command os help_string room (strip var ∷ strip value ∷ []) sh
  unfolding interpreter dispatch strip_all strip streq
  interpreter-set run_input var value sh = refl

  interpreter-echo :
      (run_input : Text → Shell W → Outcome W) (var : Text) (sh : Shell W)
      → interpreter os help_string room run_input (codes "echo" ∷ var ∷ []) sh ≡ echo (strip var) sh
  unfolding interpreter dispatch with_argument strip_all strip streq
  interpreter-echo run_input var sh = refl

  set_command-plain :
      (var value : Text) (sh : Shell W)
      → IsFullPlain var
      → IsFullPlain value
      → set_command os help_string room (var ∷ value ∷ []) sh
        ≡ returned 0 (record sh { memory = mem_set_value var value sh.memory })
  unfolding set_command set_words set_variable is_separator
  set_command-plain [] value sh h h' = elim h [ ]
  set_command-plain (c ∷ var) [] sh h h' = elim h' [ ]
  set_command-plain (c ∷ var) (d ∷ value) sh h h' = let first = h'.0.0 in ground arith

-- Words have no spaces, the message for a variable that is not set has some.
plain_value : (value : Text) → IsFullPlain value → value ≢ no_variable
unfolding is_separator
plain_value value h e =
    let h' : IsFullPlain no_variable = subst IsFullPlain e h in
    false≢true (sym h'.1.1.1.1.1.1.1.1.0.0)

module _ {W : Type 0} where
  echo_variable-some :
      (var value : Text) (sh : Shell W)
      → length var ≤ 100
      → length value < 100
      → value ≢ no_variable
      → mem_get_value var sh.memory ≡ value
      → echo_variable var sh ≡ returned 0 (say_line value sh)
  unfolding echo_variable
  echo_variable-some var value sh lv lw ne e =
      let other = streq_ne value no_variable ne in ground arith

  echo-dollar :
      (var value : Text) (sh : Shell W)
      → IsFullPlain var
      → length var ≤ 100
      → length value < 100
      → value ≢ no_variable
      → mem_get_value var sh.memory ≡ value
      → echo (b'$' ∷ var) sh ≡ returned 0 (say_line value sh)
  unfolding echo
  echo-dollar [] value sh h lv lw ne e = elim h [ ]
  echo-dollar (c ∷ var) value sh h lv lw ne e = echo_variable-some (c ∷ var) value sh lv lw ne e

-- The lines `set var value` and `echo $var`.
unfoldable pub set_line : Text → Text → Text
set_line var value = blanks 0 (join_words blank (codes "set" ∷ var ∷ value ∷ []))

unfoldable pub echo_line : Text → Text
echo_line var = blanks 0 (join_words blank (codes "echo" ∷ (b'$' ∷ var) ∷ []))

blank_separates : is_separator blank ≡ true
unfolding is_separator
blank_separates = refl

set-IsFullPlain : IsFullPlain (codes "set")
unfolding is_separator
set-IsFullPlain = ((refl, refl), ((refl, refl), ((refl, refl), tt)))

echo-IsFullPlain : IsFullPlain (codes "echo")
unfolding is_separator
echo-IsFullPlain = ((refl, refl), ((refl, refl), ((refl, refl), ((refl, refl), tt))))

dollar-IsFullPlain : (var : Text) → IsFullPlain var → IsFullPlain (b'$' ∷ var)
unfolding is_separator
dollar-IsFullPlain [] h = elim h [ ]
dollar-IsFullPlain (c ∷ t) h = ((refl, refl), h)

length-set_line : (var value : Text) → length (set_line var value) ≡ 6 + length var + length value
unfolding set_line blanks join_words
length-set_line var value =
    let outer = length-append var (blank ∷ value ++ newline ∷ []) in
    let inner = length-append value (newline ∷ []) in omega arith

length-echo_line : (var : Text) → length (echo_line var) ≡ 7 + length var
unfolding echo_line blanks join_words
length-echo_line var = let here = length-append var (newline ∷ []) in omega arith

parse_words-set_line :
    (var value : Text)
    → IsFullPlain var
    → IsFullPlain value
    → length var ≤ 100
    → length value < 100
    → parse_words (set_line var value) ≡ some (codes "set" ∷ var ∷ value ∷ [])
unfolding set_line
parse_words-set_line var value h h' lv lw =
    let size = length-set_line var value in
    parse_words-join blank 0 (codes "set" ∷ var ∷ value ∷ []) blank_separates
      (
        (plain-IsFullWord (codes "set") set-IsFullPlain, omega arith),
        ((plain-IsFullWord var h, omega arith), ((plain-IsFullWord value h', omega arith), tt)),
      )
      (omega arith) (omega arith)

parse_words-echo_line :
    (var : Text)
    → IsFullPlain var
    → length var ≤ 100
    → parse_words (echo_line var) ≡ some (codes "echo" ∷ (b'$' ∷ var) ∷ [])
unfolding echo_line
parse_words-echo_line var h lv =
    let size = length-echo_line var in
    parse_words-join blank 0 (codes "echo" ∷ (b'$' ∷ var) ∷ []) blank_separates
      (
        (plain-IsFullWord (codes "echo") echo-IsFullPlain, omega arith),
        ((plain-IsFullWord (b'$' ∷ var) (dollar-IsFullPlain var h), omega arith), tt),
      )
      (omega arith) (omega arith)

module _ {W : Type 0} (os : Os W) (help_string : Text) (room : ℕ → ℕ) where
  -- For words without separators and carriage returns, a name of at most 100 characters and a value of
  -- fewer than 100: where memory has a slot for the variable, the line `set var value` returns 0 and
  -- sets it, and the line `echo $var` after it returns 0 and prints the value.
  pub parse_input-set_echo :
      (f g : ℕ) (var value : Text) (sh : Shell W)
      → IsFullPlain var
      → IsFullPlain value
      → length var ≤ 100
      → length value < 100
      → length sh.memory ≡ memory_size
      → HasRoom 0 memory_size var sh.memory
      → let sh' = record sh { memory = mem_set_value var value sh.memory } in
        (parse_input os help_string room (suc f) (set_line var value) sh ≡ returned 0 sh')
        × (parse_input os help_string room (suc g) (echo_line var) sh'
            ≡ returned 0 (say_line value sh'))
  parse_input-set_echo f g var value sh h h' lv lw fits free = (
    parse_input-words os help_string room f (set_line var value) (codes "set" ∷ var ∷ value ∷ []) sh
          (parse_words-set_line var value h h' lv lw)
        ∙ interpreter-set os help_string room (parse_input os help_string room f) var value sh
        ∙ ap (λ v. set_command os help_string room (v ∷ strip value ∷ []) sh) (strip-full var h)
        ∙ ap (λ v. set_command os help_string room (var ∷ v ∷ []) sh) (strip-full value h')
        ∙ set_command-plain os help_string room var value sh h h',
    parse_input-words os help_string room g (echo_line var) (codes "echo" ∷ (b'$' ∷ var) ∷ []) after
          (parse_words-echo_line var h lv)
        ∙ interpreter-echo os help_string room (parse_input os help_string room g) (b'$' ∷ var)
            after
        ∙ ap (λ v. echo v after) (strip-full (b'$' ∷ var) (dollar-IsFullPlain var h))
        ∙ echo-dollar var value after h lv lw (plain_value value h')
            (mem_set_value_lem var value sh.memory fits free).0,
  )
    where
      after : Shell W
      after = record sh { memory = mem_set_value var value sh.memory }
