-- ===== src/A1/Words.antt =====
-- The words of a line: the loops of `parseInput` of a1/shell.c.
pub mod Split
use comp310_assignments.Prelude.{
  ℕ, zero, suc, ◌+◌, Bool, true, false, not, List, [], ◌∷◌, ◌++◌, Option, none, some, Text, ltb,
  leb, ◌==◌, if◌then◌else◌, length, take,
}
use comp310_assignments.Prelude.Stdio.{newline}

abbrev pub blank : ℕ
blank = b' '

-- A character that ends a word.
unfoldable pub is_separator : ℕ → Bool
is_separator c = if c == b';' then true else if c == newline then true else c == blank

-- `for(a=0; ui[a]==' '; a++);`
unfoldable pub skip_blanks : Text → Text
skip_blanks [] = []
skip_blanks (c ∷ t) = let rest = skip_blanks t in if c == blank then rest else c ∷ t

-- The inner loop: the word, and the text from the character that ended it.
unfoldable pub take_word : Text → Text × Text
take_word [] = ([], [])
take_word (c ∷ t) =
    let rest = take_word t in if is_separator c then ([], c ∷ t) else (c ∷ rest.0, rest.1)

unfoldable pub at_end : Text → Bool
at_end [] = true
at_end (c ∷ t) = c == newline

-- The outer loop, on fuel: one round for each character is enough.
unfoldable pub words_from : ℕ → Text → List Text
words_from zero t = []
words_from (suc f) t = elim (at_end t) [
  | true ↦ []
  | false ↦ (take_word t).0 ∷ elim (take_word t).1 [ [] ↦ [] | c ∷ rest ↦ words_from f rest ]
]

-- All three loops end at character 1000.
unfoldable pub words_of : Text → List Text
words_of ui = words_from (length ui) (skip_blanks (take 1000 ui))

-- `tmp` has room for 199 characters and their NUL.
unfoldable pub words_fit : List Text → Bool
words_fit [] = true
words_fit (w ∷ ws) = let rest = words_fit ws in if ltb (length w) 200 then rest else false

-- The words that `parseInput` finds; `none` where it writes behind `tmp` or behind `words`.
unfoldable pub parse_words : Text → Option (List Text)
parse_words ui =
    let ws = words_of ui in
    if leb (length ws) 100 then if words_fit ws then some ws else none else none
