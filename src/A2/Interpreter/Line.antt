-- ===== src/A2/Interpreter/Line.antt =====
-- Lines of commands, as parseInput of a2/shell.c reads them.
use comp310_assignments.Prelude.{
  ℕ, ◌+◌, ◌<◌, ◌≡◌, true, false, List, [], ◌∷◌, ◌++◌, Text, length, All,
}
use comp310_assignments.Prelude.Int.{ℤ}
use comp310_assignments.Prelude.Stdio.{newline}
use comp310_assignments.A1.Words.{blank, skip_blanks}
use comp310_assignments.A1.Words.Split.{IsShortWord, skip_blanks-word}
use comp310_assignments.A2.Shell.{Shell, Outcome, returned}
use comp310_assignments.A2.Interpreter.ParseInput.{put_word, is_minus_one}

-- What is done with the result of a command before a `;`.
abbrev pub go_on :
    {W : Type 0}
    → (List Text → Shell W → Outcome W (ℤ × Shell W))
    → List Text
    → ℤ × Shell W
    → Outcome W (ℤ × Shell W)
go_on next words (code, sh) = elim (is_minus_one code) [
  | true ↦ returned (code, sh)
  | false ↦ next words sh
]

-- The array behind the words of a command, the first of them number `w`.
abbrev pub put_words : (w : ℕ) → List Text → List Text → List Text
put_words w [] words = words
put_words w (v ∷ vs) words = put_words (w + 1) vs (put_word w v words)

-- The words of a command with a blank between two, and what is behind it.
abbrev pub print_command : List Text → Text → Text
print_command [] t = t
print_command (v ∷ []) t = v ++ t
print_command (v ∷ u ∷ vs) t = v ++ blank ∷ print_command (u ∷ vs) t

-- The line of some commands: `; ` is between two, and the line's end behind the last.
abbrev pub print_line : List (List Text) → Text
print_line [] = newline ∷ []
print_line (c ∷ []) = print_command c (newline ∷ [])
print_line (c ∷ d ∷ cs) = print_command c (b';' ∷ blank ∷ print_line (d ∷ cs))

-- A command of 1 to 99 words, none of them too long.
abbrev pub IsCommand : List Text → Type 0
IsCommand [] = ⊥
IsCommand (v ∷ vs) = All IsShortWord (v ∷ vs) × (length (v ∷ vs) < 100)

pub skip_blanks-command :
    (c : List Text) (t : Text) → IsCommand c → skip_blanks (print_command c t) ≡ print_command c t
skip_blanks-command [] t h = absurd h
skip_blanks-command (v ∷ []) t h = skip_blanks-word v t h.0.0.0
skip_blanks-command (v ∷ u ∷ vs) t h = skip_blanks-word v (blank ∷ print_command (u ∷ vs) t) h.0.0.0

abbrev pub count_words : List (List Text) → ℕ
count_words [] = 0
count_words (c ∷ cs) = length c + count_words cs
