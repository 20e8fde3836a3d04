-- ===== src/A2/Interpreter/Chain.antt =====
-- parseInput of a2/shell.c runs the commands of a line one after the other.
use comp310_assignments.Prelude.{
  ℕ, ◌+◌, ◌-◌, ◌<◌, ◌≡◌, refl, ap, ◌∙◌, fun_ext, List, [], ◌∷◌, Text, length, arith, All,
}
use comp310_assignments.Prelude.Int.{ℤ}
use comp310_assignments.Prelude.Stdio.{newline}
use comp310_assignments.A1.Words.{blank, skip_blanks}
use comp310_assignments.A1.Words.Split.{skip_blanks-blank}
use comp310_assignments.A2.Shell.{Shell, Outcome, ◌>>=◌}
use comp310_assignments.A2.Interpreter.Dispatch.{stripped}
use comp310_assignments.A2.Interpreter.ParseInput.{parse_from, parse_line}
use comp310_assignments.A2.Interpreter.Line.{
  go_on, put_words, print_line, IsCommand, skip_blanks-command, count_words,
}
use comp310_assignments.A2.Interpreter.Rounds.{last-rounds, command-rounds}

module _ {W : Type 0}
    (run_words : List Text → (args_size : ℕ) → Shell W → Outcome W (ℤ × Shell W)) where
  -- The commands one after the other, up to one that gives -1.
  abbrev pub run_commands : List Text → List (List Text) → Shell W → Outcome W (ℤ × Shell W)
  run_commands words [] sh = run_words words 0 sh
  run_commands words (c ∷ []) sh = run_words (put_words 0 c words) (length c) sh
  run_commands words (c ∷ d ∷ cs) sh =
      run_words (put_words 0 c words) (length c) sh
      >>= go_on (λ ws sh1. run_commands ws (d ∷ cs) sh1) (stripped (length c) (put_words 0 c words))

  skip_blanks-line :
      (cs : List (List Text)) → All IsCommand cs → skip_blanks (print_line cs) ≡ print_line cs
  skip_blanks-line [] h = unfold skip_blanks in refl
  skip_blanks-line (c ∷ []) h = skip_blanks-command c (newline ∷ []) h.0
  skip_blanks-line (c ∷ d ∷ cs) h = skip_blanks-command c (b';' ∷ blank ∷ print_line (d ∷ cs)) h.0

  parse_from-line :
      (f : ℕ) (words : List Text) (c : List Text) (cs : List (List Text)) (sh : Shell W)
      → All IsCommand (c ∷ cs)
      → count_words (c ∷ cs) < f
      → parse_from run_words f 0 words (print_line (c ∷ cs)) sh ≡ run_commands words (c ∷ cs) sh
  parse_from-line f words [] cs sh h fuel = absurd h.0
  parse_from-line f words (v ∷ vs) [] sh h fuel =
      let all : 0 + length (v ∷ vs) ≡ length (v ∷ vs) = omega arith in
      last-rounds run_words f 0 words v vs sh h.0.0 (omega (arith, h.0.1)) (omega arith)
      ∙ ap (λ n. run_words (put_words 0 (v ∷ vs) words) n sh) all
  parse_from-line f words (v ∷ vs) (d ∷ cs) sh h fuel =
      let g = f - length (v ∷ vs) in
      let all : 0 + length (v ∷ vs) ≡ length (v ∷ vs) = omega arith in
      command-rounds run_words f g 0 words v vs (blank ∷ print_line (d ∷ cs)) sh h.0.0
        (omega (arith, h.0.1)) (omega arith)
      ∙ ap
          (λ n.
            run_words (put_words 0 (v ∷ vs) words) n sh
            >>= go_on
                (λ ws sh1.
                  parse_from run_words g 0 ws (skip_blanks (blank ∷ print_line (d ∷ cs))) sh1)
                (stripped n (put_words 0 (v ∷ vs) words)))
          all
      ∙ ap
          (λ k.
            run_words (put_words 0 (v ∷ vs) words) (length (v ∷ vs)) sh
            >>= go_on k (stripped (length (v ∷ vs)) (put_words 0 (v ∷ vs) words)))
          (fun_ext (λ ws. fun_ext (λ sh1.
            ap (λ t. parse_from run_words g 0 ws t sh1)
              (skip_blanks-blank (print_line (d ∷ cs)) ∙ skip_blanks-line (d ∷ cs) h.1)
            ∙ parse_from-line g ws d cs sh1 h.1 (omega arith))))

  -- A line of commands, with a semicolon directly behind the last word of each but the last, and words that
  -- are not empty, hold no separator and fit into the arrays, is run within one round for each word and one
  -- more: the commands one after the other, each with its own words in front of those that are left in the
  -- array, up to a command that gives -1; the value is that of the last command.
  pub parse_line-print_line :
      (f : ℕ) (c : List Text) (cs : List (List Text)) (sh : Shell W)
      → All IsCommand (c ∷ cs)
      → count_words (c ∷ cs) < f
      → parse_line run_words f (print_line (c ∷ cs)) sh ≡ run_commands [] (c ∷ cs) sh
  unfolding parse_line
  parse_line-print_line f c cs sh h fuel =
      ap (λ t. parse_from run_words f 0 [] t sh) (skip_blanks-line (c ∷ cs) h)
      ∙ parse_from-line f [] c cs sh h fuel
