-- ===== src/Prelude/Stdio/Lines.antt =====
-- What `fgets` and `feof` do on a line that is not too long.
use comp310_assignments.Prelude.{
  ℕ, zero, suc, ◌<◌, ◌≡◌, refl, ap, true, false, [], ◌∷◌, ◌++◌, Text, ◌==◌, length, arith, some,
}
use comp310_assignments.Prelude.Stdio.{newline, read_line, fgets, meets_end, feof}

-- A line that one call of `fgets` reads, without its newline.
abbrev pub NoNewline : Text → Type 0
NoNewline [] = Unit
NoNewline (c ∷ t) = ((c == newline) ≡ false) × NoNewline t

abbrev pub IsLine : Text → Type 0
IsLine t = NoNewline t × (length t < 998)

pub read_line-line :
    (n : ℕ) (l t : Text)
    → NoNewline l
    → length l < n
    → read_line n (l ++ newline ∷ t) ≡ (l ++ newline ∷ [], t)
unfolding read_line
read_line-line zero l t h lt = absurd (omega arith)
read_line-line (suc n) [] t h lt = ground arith
read_line-line (suc n) (c ∷ l) t h lt =
    let rec = read_line-line n l t h.1 (omega arith) in let first = h.0 in ground arith

read_line-last : (n : ℕ) (l : Text) → NoNewline l → length l < n → read_line n l ≡ (l, [])
unfolding read_line
read_line-last zero l h lt = absurd (omega arith)
read_line-last (suc n) [] h lt = refl
read_line-last (suc n) (c ∷ l) h lt =
    let rec = read_line-last n l h.1 (omega arith) in let first = h.0 in ground arith

pub meets_end-line :
    (n : ℕ) (l t : Text) → NoNewline l → length l < n → meets_end n (l ++ newline ∷ t) ≡ false
unfolding meets_end
meets_end-line zero l t h lt = absurd (omega arith)
meets_end-line (suc n) [] t h lt = ground arith
meets_end-line (suc n) (c ∷ l) t h lt =
    let rec = meets_end-line n l t h.1 (omega arith) in ground arith

meets_end-last : (n : ℕ) (l : Text) → NoNewline l → length l < n → meets_end n l ≡ true
unfolding meets_end
meets_end-last zero l h lt = absurd (omega arith)
meets_end-last (suc n) [] h lt = refl
meets_end-last (suc n) (c ∷ l) h lt =
    let rec = meets_end-last n l h.1 (omega arith) in let first = h.0 in ground arith

pub fgets-line :
    (l t : Text)
    → IsLine l
    → (fgets 999 (l ++ newline ∷ t) ≡ some (l ++ newline ∷ [], t))
      × (feof 999 (l ++ newline ∷ t) ≡ false)
unfolding fgets feof
fgets-line [] t h = (ap some (read_line-line 998 [] t h.0 h.1), meets_end-line 998 [] t h.0 h.1)
fgets-line (c ∷ l) t h =
    (ap some (read_line-line 998 (c ∷ l) t h.0 h.1), meets_end-line 998 (c ∷ l) t h.0 h.1)

pub fgets-last :
    (c : ℕ) (l : Text)
    → IsLine (c ∷ l)
    → (fgets 999 (c ∷ l) ≡ some (c ∷ l, [])) × (feof 999 (c ∷ l) ≡ true)
unfolding fgets feof
fgets-last c l h =
    (ap some (read_line-last 998 (c ∷ l) h.0 h.1), meets_end-last 998 (c ∷ l) h.0 h.1)
