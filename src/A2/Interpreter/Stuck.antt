-- ===== src/A2/Interpreter/Stuck.antt =====
-- parseInput of a2/shell.c does not come past a semicolon that follows a space.
use comp310_assignments.Prelude.{
  ℕ, zero, suc, ◌+◌, ◌≤◌, ◌≡◌, refl, ap, ◌∙◌, List, [], ◌∷◌, Text, length, arith, All,
}
use comp310_assignments.Prelude.Int.{ℤ}
use comp310_assignments.A1.Words.{blank, is_separator, skip_blanks, take_word, at_end}
use comp310_assignments.A2.Shell.{Shell, Outcome, out_of_fuel}
use comp310_assignments.A2.Interpreter.ParseInput.{put_word, parse_from, parse_line}
use comp310_assignments.A1.Words.Split.{IsShortWord}
use comp310_assignments.A2.Interpreter.Line.{print_command, IsCommand, skip_blanks-command}
use comp310_assignments.A2.Interpreter.Rounds.{blank_separates, word-round}

module _ {W : Type 0}
    (run_words : List Text → (args_size : ℕ) → Shell W → Outcome W (ℤ × Shell W)) where
  at_semicolon :
      (f w : ℕ) (words : List Text) (t : Text) (sh : Shell W)
      → parse_from run_words f w words (b';' ∷ t) sh ≡ out_of_fuel
  unfolding parse_from at_end skip_blanks take_word is_separator
  at_semicolon zero w words t sh = refl
  at_semicolon (suc f) w words t sh = at_semicolon f w words t sh

  stuck-rounds :
      (f w : ℕ) (words : List Text) (v : Text) (vs : List Text) (t : Text) (sh : Shell W)
      → All IsShortWord (v ∷ vs)
      → w + length (v ∷ vs) ≤ 100
      → parse_from run_words f w words (print_command (v ∷ vs) (blank ∷ b';' ∷ t)) sh ≡ out_of_fuel
  unfolding parse_from
  stuck-rounds zero w words v vs t sh h few = refl
  stuck-rounds (suc f) w words v [] t sh h few =
      word-round run_words f w words v blank (b';' ∷ t) sh h.0 (omega arith) blank_separates
        (ground arith)
      ∙ at_semicolon f (w + 1) (put_word w v words) t sh
  stuck-rounds (suc f) w words v (u ∷ vs) t sh h few =
      word-round run_words f w words v blank (print_command (u ∷ vs) (blank ∷ b';' ∷ t)) sh h.0
        (omega arith) blank_separates (ground arith)
      ∙ stuck-rounds f (w + 1) (put_word w v words) u vs t sh h.1 (omega arith)

  -- A line whose first command has a space before its semicolon is never left, whatever number of rounds the
  -- loop is given.
  pub parse_line-blank_semicolon :
      (f : ℕ) (c : List Text) (t : Text) (sh : Shell W)
      → IsCommand c
      → parse_line run_words f (print_command c (blank ∷ b';' ∷ t)) sh ≡ out_of_fuel
  unfolding parse_line
  parse_line-blank_semicolon f [] t sh h = absurd h
  parse_line-blank_semicolon f (v ∷ vs) t sh h =
      ap (λ ui. parse_from run_words f 0 [] ui sh)
        (skip_blanks-command (v ∷ vs) (blank ∷ b';' ∷ t) h)
      ∙ stuck-rounds f 0 [] v vs t sh h.0 (omega (arith, h.1))
