-- ===== src/Prelude/Stdio.antt =====
-- Reading a file by lines with `fgets`: a file is the text that is still to be read. The decimal digits that
-- `printf` prints.
pub mod Lines
use comp310_assignments.Prelude.{
  ℕ, zero, suc, ◌+◌, ◌-◌, ◌/◌, ◌%◌, Bool, true, false, List, [], ◌∷◌, ◌++◌, Option, none, some,
  Text, ltb, ◌==◌, if◌then◌else◌,
}

abbrev pub newline : ℕ
newline = 10

-- At most `n` characters, up to the end of a line: the line and the rest.
unfoldable pub read_line : ℕ → Text → Text × Text
read_line zero t = ([], t)
read_line (suc n) [] = ([], [])
read_line (suc n) (c ∷ t) =
    let rest = read_line n t in if c == newline then (c ∷ [], t) else (c ∷ rest.0, rest.1)

-- `fgets(line, size, file)`: `none` is NULL, the end of the file.
unfoldable pub fgets : ℕ → Text → Option (Text × Text)
fgets size [] = none
fgets size (c ∷ t) = some (read_line (size - 1) (c ∷ t))

-- Whether reading at most `n` characters of a line meets the end of the file.
unfoldable pub meets_end : ℕ → Text → Bool
meets_end zero t = false
meets_end (suc n) [] = true
meets_end (suc n) (c ∷ t) = let rest = meets_end n t in if c == newline then false else rest

-- `feof(file)` behind `fgets(line, size, file)`.
unfoldable pub feof : ℕ → Text → Bool
feof size t = meets_end (size - 1) t

-- The decimal digits of a number, before a text.
unfoldable pub digits : (fuel n : ℕ) → Text → Text
digits zero n t = t
digits (suc f) n t =
    let rest = digits f (n / 10) ((48 + n % 10) ∷ t) in if ltb n 10 then (48 + n) ∷ t else rest

-- `%d` of a number, which has at most `n + 1` digits.
unfoldable pub decimal : ℕ → Text
decimal n = digits (n + 1) n []
