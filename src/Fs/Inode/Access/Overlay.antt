-- ===== src/Fs/Inode/Access/Overlay.antt =====
-- Bytes put over a part of a block.
use comp310_assignments.Prelude.{
  ℕ, zero, suc, ◌+◌, ◌%◌, ◌≤◌, ◌<◌, ◌≡◌, ◌⊎◌, inl, inr, refl, sym, ap, ◌∙◌, subst, List, [], ◌∷◌,
  arith, ◌==◌, length, get_or, get_or-set_self, get_or-set_ne, set, length-set, ◌&&◌, Bool-cases,
}
use comp310_assignments.Fs.Cache.{Block}
use comp310_assignments.Fs.Inode.Access.{overlay, block_with}

length-overlay : (b : Block) (i : ℕ) (xs : List ℕ) → length (overlay b i xs) ≡ length b
unfolding overlay
length-overlay b i [] = refl
length-overlay b i (x ∷ xs) = length-overlay (set b i x) (i + 1) xs ∙ length-set b i x

overlay-outside :
    (b : Block) (i : ℕ) (xs : List ℕ) (j : ℕ)
    → (j < i) ⊎ (i + length xs ≤ j)
    → get_or (overlay b i xs) j 0 ≡ get_or b j 0
unfolding overlay
overlay-outside b i [] j out = refl
overlay-outside b i (x ∷ xs) j out =
    overlay-outside (set b i x) (i + 1) xs j (omega arith) ∙ get_or-set_ne b i j x 0 (omega arith)

overlay-inside :
    (b : Block) (i : ℕ) (xs : List ℕ) (k : ℕ)
    → i + length xs ≤ length b
    → k < length xs
    → get_or (overlay b i xs) (i + k) 0 ≡ get_or xs k 0
unfolding overlay
overlay-inside b i [] k le lt = absurd (omega arith)
overlay-inside b i (x ∷ xs) zero le lt =
    let here : i + 0 ≡ i = omega arith in
    ap (λ j. get_or (overlay (set b i x) (i + 1) xs) j 0) here
    ∙ overlay-outside (set b i x) (i + 1) xs i (omega arith)
    ∙ get_or-set_self b i x 0 (omega arith)
overlay-inside b i (x ∷ xs) (suc k) le lt =
    let there : i + suc k ≡ i + 1 + k = omega arith in
    ap (λ j. get_or (overlay (set b i x) (i + 1) xs) j 0) there
    ∙ overlay-inside (set b i x) (i + 1) xs k (omega (arith, length-set b i x)) (omega arith)

-- The block `b'` is `b` with `bytes` from `i` on.
pub record Holds (b b' : Block) (i : ℕ) (bytes : List ℕ) : Type 0 where
  pub inside : (k : ℕ) → k < length bytes → get_or b' (i + k) 0 ≡ get_or bytes k 0
  pub outside : (j : ℕ) → (j < i) ⊎ (i + length bytes ≤ j) → j < 512 → get_or b' j 0 ≡ get_or b j 0
  pub full : length b' ≡ 512

-- What a round of the write loop makes of a sector.
pub block_with-Holds :
    (b : Block) (offset chunk : ℕ) (bytes : List ℕ)
    → length b ≡ 512
    → length bytes ≡ chunk
    → offset % 512 + chunk ≤ 512
    → Holds b (block_with offset chunk bytes b) (offset % 512) bytes
unfolding block_with
block_with-Holds b offset chunk bytes e e' le =
    elim (Bool-cases (offset % 512 == 0 && chunk == 512)) [
      | inl whole ↦
          let at_start : offset % 512 ≡ 0 = ground arith in
          let all : chunk ≡ 512 = ground arith in
          subst (λ b'. Holds b b' (offset % 512) bytes) (sym (rw (whole, block_with) refl))
            (record {
              inside = λ k lt. ap (λ j. get_or bytes j 0) (omega arith);
              outside = λ j out lt. absurd (omega arith);
              full = e' ∙ all;
            })
      | inr part ↦
          subst (λ b'. Holds b b' (offset % 512) bytes) (sym (rw (part, block_with) refl))
            (record {
              inside = λ k lt. overlay-inside b (offset % 512) bytes k (omega arith) lt;
              outside = λ j out lt. overlay-outside b (offset % 512) bytes j out;
              full = length-overlay b (offset % 512) bytes ∙ e;
            })
    ]
