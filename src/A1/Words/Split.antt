-- ===== src/A1/Words/Split.antt =====
-- The words of a line are its parts between separators.
use comp310_assignments.Prelude.{
  ℕ, zero, suc, ◌≤◌, ◌<◌, some, take, ◌≡◌, refl, ap, ◌∙◌, true, false, List, [], ◌∷◌, ◌++◌, Text,
  ◌==◌, length, arith, All,
}
use comp310_assignments.Prelude.Stdio.{newline}
use comp310_assignments.A1.Words.{
  blank, is_separator, skip_blanks, take_word, at_end, words_from, words_of, words_fit, parse_words,
}

-- No character of the text ends a word.
abbrev pub IsWord : Text → Type 0
IsWord [] = Unit
IsWord (c ∷ t) = (is_separator c ≡ false) × IsWord t

-- Words with a separator between them, and the line's end.
unfoldable pub join_words : (sep : ℕ) → List Text → Text
join_words sep [] = newline ∷ []
join_words sep (w ∷ []) = w ++ newline ∷ []
join_words sep (w ∷ v ∷ ws) = w ++ sep ∷ join_words sep (v ∷ ws)

pub take_word-word :
    (w : Text) (c : ℕ) (t : Text)
    → IsWord w
    → is_separator c ≡ true
    → take_word (w ++ c ∷ t) ≡ (w, c ∷ t)
unfolding take_word
take_word-word [] c t h e = ground arith
take_word-word (d ∷ w) c t h e =
    let rec = take_word-word w c t h.1 e in let first = h.0 in ground arith

pub newline_separates : is_separator newline ≡ true
unfolding is_separator
newline_separates = refl

pub starts_word : (c : ℕ) → is_separator c ≡ false → (c == newline) ≡ false
unfolding is_separator
starts_word c h = ground arith

-- One round of the outer loop, on a word and what follows it.
words_from-step :
    (f : ℕ) (w : Text) (c : ℕ) (t : Text)
    → at_end (w ++ c ∷ t) ≡ false
    → IsWord w
    → is_separator c ≡ true
    → words_from (suc f) (w ++ c ∷ t) ≡ w ∷ words_from f t
unfolding words_from
words_from-step f w c t open_end h e = let taken = take_word-word w c t h e in ground arith

-- A word that is not empty.
abbrev pub IsFullWord : Text → Type 0
IsFullWord [] = ⊥
IsFullWord (c ∷ t) = (is_separator c ≡ false) × IsWord t

pub full-IsWord : (w : Text) → IsFullWord w → IsWord w
full-IsWord [] h = elim h [ ]
full-IsWord (c ∷ t) h = h

pub at_end-word : (w t : Text) → IsFullWord w → at_end (w ++ t) ≡ false
unfolding at_end
at_end-word [] t h = elim h [ ]
at_end-word (c ∷ w) t h = starts_word c h.0

words_from-end : (f : ℕ) → words_from f [] ≡ []
unfolding words_from at_end
words_from-end zero = refl
words_from-end (suc f) = refl

words_from-line : (f : ℕ) → words_from f (newline ∷ []) ≡ []
unfolding words_from at_end
words_from-line zero = refl
words_from-line (suc f) = refl

words_from-join :
    (sep : ℕ)
    → is_separator sep ≡ true
    → (f : ℕ) (ws : List Text) → All IsFullWord ws
    → length ws ≤ f
    → words_from f (join_words sep ws) ≡ ws
unfolding join_words
words_from-join sep e f [] h le = words_from-line f
words_from-join sep e zero (w ∷ ws) h le = absurd (omega arith)
words_from-join sep e (suc f) (w ∷ []) h le =
    words_from-step f w newline [] (at_end-word w (newline ∷ []) h.0) (full-IsWord w h.0)
      newline_separates
    ∙ ap (λ r. w ∷ r) (words_from-end f)
words_from-join sep e (suc f) (w ∷ v ∷ ws) h le =
    words_from-step f w sep (join_words sep (v ∷ ws))
      (at_end-word w (sep ∷ join_words sep (v ∷ ws)) h.0) (full-IsWord w h.0) e
    ∙ ap (λ r. w ∷ r) (words_from-join sep e f (v ∷ ws) h.1 (omega arith))

length-word : (w t : Text) → length t ≤ length (w ++ t)
length-word [] t = omega arith
length-word (c ∷ w) t = let rec = length-word w t in omega arith

length-join_words : (sep : ℕ) (ws : List Text) → length ws ≤ length (join_words sep ws)
unfolding join_words
length-join_words sep [] = omega arith
length-join_words sep (w ∷ []) = let rec = length-word w (newline ∷ []) in omega arith
length-join_words sep (w ∷ v ∷ ws) =
    let rec = length-join_words sep (v ∷ ws) in
    let here = length-word w (sep ∷ join_words sep (v ∷ ws)) in omega arith

not_blank : (c : ℕ) → is_separator c ≡ false → (c == blank) ≡ false
unfolding is_separator
not_blank c h = ground arith

pub skip_blanks-word : (w t : Text) → IsFullWord w → skip_blanks (w ++ t) ≡ w ++ t
unfolding skip_blanks
skip_blanks-word [] t h = elim h [ ]
skip_blanks-word (c ∷ w) t h = let first = not_blank c h.0 in ground arith

skip_blanks-join :
    (sep : ℕ) (ws : List Text)
    → All IsFullWord ws
    → skip_blanks (join_words sep ws) ≡ join_words sep ws
unfolding join_words
skip_blanks-join sep [] h = unfold skip_blanks in refl
skip_blanks-join sep (w ∷ []) h = skip_blanks-word w (newline ∷ []) h.0
skip_blanks-join sep (w ∷ v ∷ ws) h = skip_blanks-word w (sep ∷ join_words sep (v ∷ ws)) h.0

pub skip_blanks-blank : (t : Text) → skip_blanks (blank ∷ t) ≡ skip_blanks t
unfolding skip_blanks
skip_blanks-blank t = refl

unfoldable pub blanks : ℕ → Text → Text
blanks zero t = t
blanks (suc n) t = blank ∷ blanks n t

skip_blanks-blanks : (n : ℕ) (t : Text) → skip_blanks (blanks n t) ≡ skip_blanks t
unfolding blanks
skip_blanks-blanks zero t = refl
skip_blanks-blanks (suc n) t = skip_blanks-blank (blanks n t) ∙ skip_blanks-blanks n t

length-blanks : (n : ℕ) (t : Text) → length t ≤ length (blanks n t)
unfolding blanks
length-blanks zero t = omega arith
length-blanks (suc n) t = let rec = length-blanks n t in omega arith

take-short : (n : ℕ) (t : Text) → length t ≤ n → take n t ≡ t
take-short zero [] le = refl
take-short zero (c ∷ t) le = absurd (omega arith)
take-short (suc n) [] le = refl
take-short (suc n) (c ∷ t) le = ap (λ r. c ∷ r) (take-short n t (omega arith))

-- A word that is not empty and fits into `tmp`.
abbrev pub IsShortWord : Text → Type 0
IsShortWord w = IsFullWord w × (length w < 200)

short-IsFullWord : (ws : List Text) → All IsShortWord ws → All IsFullWord ws
short-IsFullWord [] h = tt
short-IsFullWord (w ∷ ws) h = (h.0.0, short-IsFullWord ws h.1)

words_fit-short : (ws : List Text) → All IsShortWord ws → words_fit ws ≡ true
unfolding words_fit
words_fit-short [] h = refl
words_fit-short (w ∷ ws) h = let rest = words_fit-short ws h.1 in let here = h.0.1 in ground arith

words_of-join :
    (sep n : ℕ) (ws : List Text)
    → is_separator sep ≡ true
    → All IsFullWord ws
    → length (blanks n (join_words sep ws)) ≤ 1000
    → words_of (blanks n (join_words sep ws)) ≡ ws
unfolding words_of
words_of-join sep n ws e h le =
    ap (λ t. words_from (length (blanks n (join_words sep ws))) (skip_blanks t))
      (take-short 1000 (blanks n (join_words sep ws)) le)
    ∙ ap (words_from (length (blanks n (join_words sep ws))))
        (skip_blanks-blanks n (join_words sep ws) ∙ skip_blanks-join sep ws h)
    ∙ words_from-join sep e (length (blanks n (join_words sep ws))) ws h (
        let a = length-join_words sep ws in
        let b = length-blanks n (join_words sep ws) in omega arith)

-- At most 100 words that are not empty, hold no separator and have fewer than 200 characters, written with
-- one separator between each two (a space or a semicolon), after any number of spaces, on a line of at most
-- 1000 characters, are the words that `parseInput` finds, within its arrays.
pub parse_words-join :
    (sep n : ℕ) (ws : List Text)
    → is_separator sep ≡ true
    → All IsShortWord ws
    → length ws ≤ 100
    → length (blanks n (join_words sep ws)) ≤ 1000
    → parse_words (blanks n (join_words sep ws)) ≡ some ws
unfolding parse_words
parse_words-join sep n ws e h few le =
    rw (words_of-join sep n ws e (short-IsFullWord ws h) le)
      (let fit = words_fit-short ws h in ground arith)
