-- ===== src/A2/Interpreter/ParseInput.antt =====
-- parseInput of a2/shell.c: every `;` runs the command before it. A line has fewer than 1000 characters. The
-- array `words` keeps its words from one command to the next.
use comp310_assignments.Prelude.{
  ℕ, zero, suc, ◌+◌, Bool, true, false, List, [], ◌∷◌, ◌++◌, Text, ltb, ◌==◌, if◌then◌else◌, length,
  set,
}
use comp310_assignments.Prelude.Int.{ℤ, pos, negsuc}
use comp310_assignments.A1.Words.{skip_blanks, take_word, at_end}
use comp310_assignments.A2.Shell.{Os, Shell, Outcome, returned, undefined, out_of_fuel, ◌>>=◌}
use comp310_assignments.A2.Kernel.Schedulers.{schedule_by_policy}
use comp310_assignments.A2.Interpreter.Dispatch.{stripped, interpreter}

-- `words[w] = strdup(tmp)`: `w` is at most the number of words that were ever set.
unfoldable pub put_word : ℕ → Text → List Text → List Text
put_word w word words = if ltb w (length words) then set words w word else words ++ word ∷ []

-- The error code -1.
unfoldable pub is_minus_one : ℤ → Bool
is_minus_one (pos n) = false
is_minus_one (negsuc n) = n == 0

module _ {W : Type 0}
    (run_words : List Text → (args_size : ℕ) → Shell W → Outcome W (ℤ × Shell W)) where
  -- The loop, on fuel: `tmp` has room for 199 characters, `words` for 100 words. Where a word is empty the
  -- loop goes on at the same place.
  unfoldable pub parse_from : (fuel w : ℕ) → List Text → Text → Shell W → Outcome W (ℤ × Shell W)
  parse_from zero w words ui sh = out_of_fuel
  parse_from (suc f) w words ui sh = elim (at_end ui) [
    | true ↦ run_words words w sh
    | false ↦ elim (skip_blanks ui) [
      | [] ↦ run_words words w sh
      | c ∷ t ↦ elim (length (take_word (c ∷ t)).0 == 0) [
        | true ↦ parse_from f w words (c ∷ t) sh
        | false ↦ elim (ltb (length (take_word (c ∷ t)).0) 200) [
          | false ↦ undefined
          | true ↦ elim (ltb w 100) [
            | false ↦ undefined
            | true ↦ elim (take_word (c ∷ t)).1 [
              | [] ↦ run_words (put_word w (take_word (c ∷ t)).0 words) (w + 1) sh
              | d ∷ rest ↦ elim (d == b';') [
                | false ↦ parse_from f (w + 1) (put_word w (take_word (c ∷ t)).0 words) rest sh
                | true ↦ do
                  (code, sh1) ← run_words (put_word w (take_word (c ∷ t)).0 words) (w + 1) sh
                  elim (is_minus_one code) [
                    | true ↦ returned (code, sh1)
                    | false ↦
                        parse_from f 0 (stripped (w + 1) (put_word w (take_word (c ∷ t)).0 words))
                          (skip_blanks rest) sh1
                  ]
              ]
            ]
          ]
        ]
      ]
    ]
  ]

  unfoldable pub parse_line : (fuel : ℕ) → Text → Shell W → Outcome W (ℤ × Shell W)
  parse_line f ui sh = parse_from f 0 [] (skip_blanks ui) sh

module _ {W : Type 0} (os : Os W) (help_string : Text) (frame_size var_size lines_read : ℕ)
    (scheduler_rr : (parse_input : Text → Shell W → Outcome W (ℤ × Shell W))
      → (quanta : ℕ) → Shell W
      → Outcome W (Shell W)) where
  -- A process may start processes: fuel bounds the nesting too.
  unfoldable pub parse_input : (fuel : ℕ) → Text → Shell W → Outcome W (ℤ × Shell W)
  parse_input zero ui sh = out_of_fuel
  parse_input (suc f) ui sh =
      parse_line
        (interpreter os help_string frame_size var_size lines_read
          (schedule_by_policy frame_size var_size os (parse_input f) (scheduler_rr (parse_input f))
            f)
          f)
        (suc f) ui sh
