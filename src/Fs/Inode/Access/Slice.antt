-- ===== src/Fs/Inode/Access/Slice.antt =====
-- The content of a file, byte by byte, and the parts of it that lie in one sector.
use comp310_assignments.Prelude.{
  ℕ, zero, suc, ◌+◌, ◌-◌, ◌/◌, ◌%◌, ◌≤◌, ◌<◌, ◌≡◌, refl, sym, ap, ◌∙◌, subst, List, [], ◌∷◌, ◌++◌,
  get_or, arith, ltb, ◌==◌, if◌then◌else◌, length, take, drop, Nat-order, inl, inr, ◌&&◌,
  Bool-cases,
}
use comp310_assignments.Fs.Cache.{Block, Cache}
use comp310_assignments.Fs.Cache.View.{view, IsCoherent}
use comp310_assignments.Fs.Inode.{InodeDisk, no_sector, index_to_sector}
use comp310_assignments.Fs.Inode.Lookup.{
  Gives, single_indirect_lem, doubly_indirect_lem, index_to_sector-cases,
}
use comp310_assignments.Fs.Inode.Access.{chunk_of}

-- The bytes of a block from `i` on.
abbrev pub bytes_of : Block → ℕ → ℕ → List ℕ
bytes_of b i zero = []
bytes_of b i (suc n) = get_or b i 0 ∷ bytes_of b (i + 1) n

take-drop : (n i : ℕ) (b : Block) → i + n ≤ length b → take n (drop i b) ≡ bytes_of b i n
take-drop zero i b le = refl
take-drop (suc n) i b le =
    take-cons n i b (omega arith) ∙ ap (λ r. get_or b i 0 ∷ r) (take-drop n (i + 1) b next)
  where
    next : i + 1 + n ≤ length b
    next = omega arith

    take-cons :
        (n i : ℕ) (b : Block)
        → i < length b
        → take (suc n) (drop i b) ≡ get_or b i 0 ∷ take n (drop (i + 1) b)
    take-cons n zero [] lt = absurd (omega arith)
    take-cons n zero (x ∷ b) lt = refl
    take-cons n (suc i) [] lt = absurd (omega arith)
    take-cons n (suc i) (x ∷ b) lt =
        let moved : suc (i + 1) ≡ suc i + 1 = omega arith in
        take-cons n i b (omega arith) ∙ ap (λ k. get_or b i 0 ∷ take n (drop k (x ∷ b))) moved

take-all : (n : ℕ) (b : Block) → length b ≡ n → take n b ≡ b
take-all zero [] e = refl
take-all zero (x ∷ b) e = absurd (omega arith)
take-all (suc n) [] e = absurd (omega arith)
take-all (suc n) (x ∷ b) e = ap (λ r. x ∷ r) (take-all n b (omega arith))

whole_block : (b : Block) (i n : ℕ) → i ≡ 0 → length b ≡ n → b ≡ bytes_of b i n
whole_block b i n e e' =
    subst (λ k. b ≡ bytes_of b k n) (sym e) (sym (take-all n b e') ∙ take-drop n 0 b le)
  where
    le : 0 + n ≤ length b
    le = omega arith

pub chunk_of-bytes :
    (block : Block) (offset chunk : ℕ)
    → length block ≡ 512
    → offset % 512 + chunk ≤ 512
    → chunk_of block offset chunk ≡ bytes_of block (offset % 512) chunk
unfolding chunk_of
chunk_of-bytes block offset chunk e le = elim (Bool-cases (offset % 512 == 0 && chunk == 512)) [
  | inl whole ↦
      let at_start : offset % 512 ≡ 0 = ground arith in
      let all : length block ≡ chunk = ground arith in
      rw (whole, chunk_of) (whole_block block (offset % 512) chunk at_start all)
  | inr part ↦ rw (part, chunk_of) (take-drop chunk (offset % 512) block (omega arith))
]

module _ (words : Block → ℕ → ℕ) (content : ℕ → Block) (idisk : InodeDisk) where
  -- The sector of the file's sector `k`.
  unfoldable pub sector_of : ℕ → ℕ
  sector_of k =
      if ltb k 123
      then get_or idisk.direct_blocks k 0
      else if ltb k 251
      then words (content idisk.indirect_block) (k - 123)
      else if ltb k 16635
      then words (content (words (content idisk.doubly_indirect_block) ((k - 251) / 128)))
          ((k - 251) % 128)
      else no_sector

  -- The byte of the file at `p`.
  unfoldable pub byte_at : ℕ → ℕ
  byte_at p = get_or (content (sector_of (p / 512))) (p % 512) 0

  byte_in : (k o : ℕ) → o / 512 ≡ k → byte_at o ≡ get_or (content (sector_of k)) (o % 512) 0
  unfolding byte_at
  byte_in k o e = ap (λ j. get_or (content (sector_of j)) (o % 512) 0) e

  -- `n` bytes of the file from `o` on.
  abbrev pub slice : (o n : ℕ) → List ℕ
  slice o zero = []
  slice o (suc n) = byte_at o ∷ slice (o + 1) n

  pub slice-append : (o m n : ℕ) → slice o (m + n) ≡ slice o m ++ slice (o + m) n
  slice-append o zero n =
      let left : 0 + n ≡ n = omega arith in
      let right : o ≡ o + 0 = omega arith in ap (slice o) left ∙ ap (λ p. slice p n) right
  slice-append o (suc m) n =
      let left : suc m + n ≡ suc (m + n) = omega arith in
      let right : o + 1 + m ≡ o + suc m = omega arith in
      ap (slice o) left
      ∙ ap (λ r. byte_at o ∷ r)
          (slice-append (o + 1) m n ∙ ap (λ p. slice (o + 1) m ++ slice p n) right)

  -- The file's bytes in one sector are bytes of that sector's block.
  slice-sector :
      (k o n : ℕ)
      → o / 512 ≡ k
      → o % 512 + n ≤ 512
      → slice o n ≡ bytes_of (content (sector_of k)) (o % 512) n
  slice-sector k o zero e le = refl
  slice-sector k o (suc zero) e le = ap (λ b. b ∷ []) (byte_in k o e)
  slice-sector k o (suc (suc n)) e le =
      let within : (o + 1) / 512 ≡ k = omega arith in
      let room : (o + 1) % 512 + suc n ≤ 512 = omega arith in
      let moved : (o + 1) % 512 ≡ o % 512 + 1 = omega arith in
      ap (λ b. b ∷ slice (o + 1) (suc n)) (byte_in k o e)
      ∙ ap (λ r. get_or (content (sector_of k)) (o % 512) 0 ∷ r)
          (slice-sector k (o + 1) (suc n) within room
            ∙ ap (λ i. bytes_of (content (sector_of k)) i (suc n)) moved)

  pub slice-chunk :
      (o n : ℕ)
      → o % 512 + n ≤ 512
      → slice o n ≡ bytes_of (content (sector_of (o / 512))) (o % 512) n
  slice-chunk o n le = slice-sector (o / 512) o n refl le

module _ (words : Block → ℕ → ℕ) (idisk : InodeDisk) (c : Cache) where
  pub index_to_sector-sector_of :
      (k : ℕ)
      → IsCoherent c
      → Gives c (index_to_sector words idisk k c) (sector_of words (view c) idisk k)
  unfolding sector_of
  index_to_sector-sector_of k h = elim (Nat-order 123 k) [
    | inr direct ↦
        (c, ground (arith, (index_to_sector-cases words idisk c k).0 direct), h, λ s. refl)
    | inl past ↦ elim (Nat-order 251 k) [
      | inr single ↦
          let (c', e, h', same) = single_indirect_lem words idisk c (k - 123) h in
          let e' = (index_to_sector-cases words idisk c k).1 past single in
          (c', ground arith, h', same)
      | inl past2 ↦ elim (Nat-order 16635 k) [
        | inr double ↦
            let (c', e, h', same) = doubly_indirect_lem words idisk c (k - 251) h in
            let e' = (index_to_sector-cases words idisk c k).2 past2 double in
            (c', ground arith, h', same)
        | inl beyond ↦
            (c, ground (arith, (index_to_sector-cases words idisk c k).3 beyond), h, λ s. refl)
      ]
    ]
  ]
