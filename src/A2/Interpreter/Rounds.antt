-- ===== src/A2/Interpreter/Rounds.antt =====
-- The rounds of parseInput of a2/shell.c: each takes one word.
use comp310_assignments.Prelude.{
  ℕ, zero, suc, ◌+◌, ◌≤◌, ◌<◌, ◌≡◌, refl, ap, ◌∙◌, subst, true, false, List, [], ◌∷◌, ◌++◌, Text,
  ltb, ◌==◌, length, arith, All,
}
use comp310_assignments.Prelude.Int.{ℤ}
use comp310_assignments.Prelude.Stdio.{newline}
use comp310_assignments.A1.Words.{blank, is_separator, skip_blanks, at_end}
use comp310_assignments.A1.Words.Split.{
  IsShortWord, full-IsWord, take_word-word, at_end-word, skip_blanks-word, newline_separates,
}
use comp310_assignments.A2.Shell.{Shell, Outcome, ◌>>=◌}
use comp310_assignments.A2.Interpreter.Dispatch.{stripped}
use comp310_assignments.A2.Interpreter.ParseInput.{put_word, parse_from}
use comp310_assignments.A2.Interpreter.Line.{go_on, put_words, print_command}

pub blank_separates : is_separator blank ≡ true
unfolding is_separator
blank_separates = refl

module _ {W : Type 0}
    (run_words : List Text → (args_size : ℕ) → Shell W → Outcome W (ℤ × Shell W)) where
  pub word-round :
      (f w : ℕ) (words : List Text) (v : Text) (d : ℕ) (t : Text) (sh : Shell W)
      → IsShortWord v
      → w < 100
      → is_separator d ≡ true
      → (d == b';') ≡ false
      → parse_from run_words (suc f) w words (v ++ d ∷ t) sh
        ≡ parse_from run_words f (w + 1) (put_word w v words) t sh
  unfolding parse_from
  word-round f w words [] d t sh h few sep no' = absurd h.0
  word-round f w words (c ∷ v) d t sh h few sep no' =
      let open_end = at_end-word (c ∷ v) (d ∷ t) h.0 in
      let start = skip_blanks-word (c ∷ v) (d ∷ t) h.0 in
      let taken = take_word-word (c ∷ v) d t (full-IsWord (c ∷ v) h.0) sep in
      let word = ap (λ p. p.0) taken in
      let some' : (length (c ∷ v) == 0) ≡ false = ground arith in
      let fits : ltb (length (c ∷ v)) 200 ≡ true = ground (arith, h.1) in
      let room : ltb w 100 ≡ true = ground arith in
      rw
        (open_end, start, word, some', word, fits, room, ap (λ p. p.1) taken, no', word, parse_from)
        refl

  semicolon-round :
      (f w : ℕ) (words : List Text) (v : Text) (t : Text) (sh : Shell W)
      → IsShortWord v
      → w < 100
      → parse_from run_words (suc f) w words (v ++ b';' ∷ t) sh ≡ (
          run_words (put_word w v words) (w + 1) sh
          >>= go_on
              (λ ws sh1. parse_from run_words f 0 ws (skip_blanks t) sh1)
              (stripped (w + 1) (put_word w v words)))
  unfolding parse_from is_separator
  semicolon-round f w words [] t sh h few = absurd h.0
  semicolon-round f w words (c ∷ v) t sh h few =
      let open_end = at_end-word (c ∷ v) (b';' ∷ t) h.0 in
      let start = skip_blanks-word (c ∷ v) (b';' ∷ t) h.0 in
      let taken = take_word-word (c ∷ v) b';' t (full-IsWord (c ∷ v) h.0) refl in
      let word = ap (λ p. p.0) taken in
      let some' : (length (c ∷ v) == 0) ≡ false = ground arith in
      let fits : ltb (length (c ∷ v)) 200 ≡ true = ground (arith, h.1) in
      let room : ltb w 100 ≡ true = ground arith in
      rw (open_end, start, word, some', word, fits, room, ap (λ p. p.1) taken, word, parse_from)
        (ap
          (λ v'.
            run_words (put_word w (c ∷ v) words) (w + 1) sh
            >>= go_on (λ ws sh1. parse_from run_words f 0 ws (skip_blanks t) sh1)
                (stripped (w + 1) (put_word w v' words)))
          word)

  pub last-rounds :
      (f w : ℕ) (words : List Text) (v : Text) (vs : List Text) (sh : Shell W)
      → All IsShortWord (v ∷ vs)
      → w + length (v ∷ vs) ≤ 100
      → length (v ∷ vs) < f
      → parse_from run_words f w words (print_command (v ∷ vs) (newline ∷ [])) sh
        ≡ run_words (put_words w (v ∷ vs) words) (w + length (v ∷ vs)) sh
  unfolding parse_from at_end
  last-rounds zero w words v vs sh h few fuel = absurd (omega arith)
  last-rounds (suc zero) w words v vs sh h few fuel = absurd (omega arith)
  last-rounds (suc (suc f)) w words v [] sh h few fuel =
      word-round (suc f) w words v newline [] sh h.0 (omega arith) newline_separates (ground arith)
  last-rounds (suc f) w words v (u ∷ vs) sh h few fuel =
      word-round f w words v blank (print_command (u ∷ vs) (newline ∷ [])) sh h.0 (omega arith)
        blank_separates (ground arith)
      ∙ last-rounds f (w + 1) (put_word w v words) u vs sh h.1 (omega arith) (omega arith)
      ∙ ap (λ n. run_words (put_words (w + 1) (u ∷ vs) (put_word w v words)) n sh) (omega arith)

  pub command-rounds :
      (f g w : ℕ) (words : List Text) (v : Text) (vs : List Text) (t : Text) (sh : Shell W)
      → All IsShortWord (v ∷ vs)
      → w + length (v ∷ vs) ≤ 100
      → f ≡ length (v ∷ vs) + g
      → parse_from run_words f w words (print_command (v ∷ vs) (b';' ∷ t)) sh ≡ (
          run_words (put_words w (v ∷ vs) words) (w + length (v ∷ vs)) sh
          >>= go_on
              (λ ws sh1. parse_from run_words g 0 ws (skip_blanks t) sh1)
              (stripped (w + length (v ∷ vs)) (put_words w (v ∷ vs) words)))
  command-rounds zero g w words v vs t sh h few fuel = absurd (omega arith)
  command-rounds (suc f) g w words v [] t sh h few fuel =
      let same : f ≡ g = omega arith in
      subst
        (λ k. parse_from run_words (suc f) w words (v ++ b';' ∷ t) sh ≡ (
          run_words (put_word w v words) (w + 1) sh
          >>= go_on (λ ws sh1. parse_from run_words k 0 ws (skip_blanks t) sh1)
              (stripped (w + 1) (put_word w v words))))
        same (semicolon-round f w words v t sh h.0 (omega arith))
  command-rounds (suc f) g w words v (u ∷ vs) t sh h few fuel =
      let all : w + 1 + length (u ∷ vs) ≡ w + length (v ∷ u ∷ vs) = omega arith in
      word-round f w words v blank (print_command (u ∷ vs) (b';' ∷ t)) sh h.0 (omega arith)
        blank_separates (ground arith)
      ∙ command-rounds f g (w + 1) (put_word w v words) u vs t sh h.1 (omega arith) (omega arith)
      ∙ ap
          (λ n.
            run_words (put_words w (v ∷ u ∷ vs) words) n sh
            >>= go_on (λ ws sh1. parse_from run_words g 0 ws (skip_blanks t) sh1)
                (stripped n (put_words w (v ∷ u ∷ vs) words)))
          all
