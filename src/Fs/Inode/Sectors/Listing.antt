-- ===== src/Fs/Inode/Sectors/Listing.antt =====
-- get_inode_data_sectors lists the sectors that index_to_sector finds.
use comp310_assignments.Prelude.{
  ℕ, zero, suc, ◌+◌, ◌-◌, ◌*◌, ◌/◌, ◌%◌, ◌≤◌, ◌<◌, ◌≡◌, ◌≢◌, inl, inr, refl, sym, ap, ◌∙◌, List, [],
  ◌∷◌, ◌++◌, some, arith, get_or, Nat-cases, Nat-order,
}
use comp310_assignments.Fs.Cache.{Block, Cache, buffer_cache_read}
use comp310_assignments.Fs.Inode.{InodeDisk, bytes_to_sectors}
use comp310_assignments.Fs.Inode.Access.{lesser}
use comp310_assignments.Fs.Inode.Access.Slice.{sector_of}
use comp310_assignments.Fs.Inode.Access.Read.{StandsFor, Yields, read-Yields}
use comp310_assignments.Fs.Inode.Sectors.{
  entries, second_entries, single_sectors, doubly_sectors, get_inode_data_sectors,
}

entries-append :
    (f : ℕ → ℕ) (i m n : ℕ) → entries f i (m + n) ≡ entries f i m ++ entries f (i + m) n
unfolding entries
entries-append f i zero n =
    let left : 0 + n ≡ n = omega arith in
    let right : i ≡ i + 0 = omega arith in ap (entries f i) left ∙ ap (λ p. entries f p n) right
entries-append f i (suc m) n =
    let left : suc m + n ≡ suc (m + n) = omega arith in
    let right : i + 1 + m ≡ i + suc m = omega arith in
    ap (entries f i) left
    ∙ ap (λ r. f i ∷ r)
        (entries-append f (i + 1) m n ∙ ap (λ p. entries f (i + 1) m ++ entries f p n) right)

entries-same :
    (f g : ℕ → ℕ) (i j n : ℕ)
    → ((k : ℕ) → k < n → f (i + k) ≡ g (j + k))
    → entries f i n ≡ entries g j n
unfolding entries
entries-same f g i j zero h = refl
entries-same f g i j (suc n) h =
    let i0 : i ≡ i + 0 = omega arith in
    let j0 : j + 0 ≡ j = omega arith in
    ap (λ x. x ∷ entries f (i + 1) n) (ap f i0 ∙ h 0 (omega arith) ∙ ap g j0)
    ∙ ap (λ r. g j ∷ r)
        (entries-same f g (i + 1) (j + 1) n (λ k lt.
          let ik : i + 1 + k ≡ i + suc k = omega arith in
          let jk : j + suc k ≡ j + 1 + k = omega arith in
          ap f ik ∙ h (suc k) (omega arith) ∙ ap g jk))

entries-empty : (f : ℕ → ℕ) (i n : ℕ) → n ≡ 0 → [] ≡ entries f i n
unfolding entries
entries-empty f i zero e = refl
entries-empty f i (suc n) e = absurd (omega arith)

module _ (words : Block → ℕ → ℕ) (content : ℕ → Block) (inode : InodeDisk) where
  -- The sector of the entry `k` of all that are behind a doubly indirect block.
  abbrev behind : Block → ℕ → ℕ
  behind block k = words (content (words block (k / 128))) (k % 128)

  second_entries-step :
      (n i num : ℕ) (block block2 : Block) (rest : List ℕ) (c c1 c2 : Cache)
      → buffer_cache_read (words block i) c ≡ some (block2, c1)
      → second_entries words n (i + 1) (num - lesser num 128) block c1 ≡ some (rest, c2)
      → second_entries words (suc n) i num block c
        ≡ some (entries (words block2) 0 (lesser num 128) ++ rest, c2)
  unfolding second_entries
  second_entries-step n i num block block2 rest c c1 c2 e e' = ground arith

  -- What one round lists, and what the rest does.
  behind-round :
      (block : Block) (i num : ℕ)
      → entries (words (content (words block i))) 0 (lesser num 128)
          ++ entries (behind block) ((i + 1) * 128) (num - lesser num 128)
        ≡ entries (behind block) (i * 128) num
  behind-round block i num =
      let sub = lesser num 128 in
      let small : sub ≤ 128 = ground arith in
      let sum : sub + (num - sub) ≡ num = ground arith in
      let first : entries (words (content (words block i))) 0 sub
          ≡ entries (behind block) (i * 128) sub =
        entries-same (words (content (words block i))) (behind block) 0 (i * 128) sub (λ k lt.
          let q : (i * 128 + k) / 128 ≡ i = omega arith in
          let r : (i * 128 + k) % 128 ≡ 0 + k = omega arith in
          sym (
            ap (λ j. words (content (words block j)) ((i * 128 + k) % 128)) q
            ∙ ap (words (content (words block i))) r)) in
      let second : entries (behind block) ((i + 1) * 128) (num - sub)
          ≡ entries (behind block) (i * 128 + sub) (num - sub) =
        elim (Nat-order 128 num) [
          | inl many ↦
              let same : (i + 1) * 128 ≡ i * 128 + sub = ground arith in
              ap (λ p. entries (behind block) p (num - sub)) same
          | inr few ↦
              let none_left : num - sub ≡ 0 = ground arith in
              sym (entries-empty (behind block) ((i + 1) * 128) (num - sub) none_left)
              ∙ entries-empty (behind block) (i * 128 + sub) (num - sub) none_left
        ] in
      ap (λ r. r ++ entries (behind block) ((i + 1) * 128) (num - sub)) first
      ∙ ap (λ r. entries (behind block) (i * 128) sub ++ r) second
      ∙ sym (entries-append (behind block) (i * 128) sub (num - sub))
      ∙ ap (entries (behind block) (i * 128)) sum

  second_entries_lem :
      (n i num : ℕ) (block : Block) (c : Cache)
      → num ≤ n * 128
      → StandsFor content c
      → Yields content (second_entries words n i num block c) (entries (behind block) (i * 128) num)
  unfolding second_entries
  second_entries_lem zero i num block c le h =
      (c, ap (λ r. some (r, c)) (entries-empty (behind block) (i * 128) num (omega arith)), h)
  second_entries_lem (suc n) i num block c le h =
      let (c1, e1, h1) = read-Yields words content inode (words block i) c h in
      let fewer : num - lesser num 128 ≤ n * 128 = ground arith in
      let (c2, e2, h2) = second_entries_lem n (i + 1) (num - lesser num 128) block c1 fewer h1 in
      (
        c2,
        second_entries-step n i num block (content (words block i))
              (entries (behind block) ((i + 1) * 128) (num - lesser num 128)) c c1 c2 e1 e2
            ∙ ap (λ r. some (r, c2)) (behind-round block i num),
        h2,
      )

  -- The three parts of a file's sectors.
  direct-part :
      (n : ℕ)
      → n ≤ 123
      → entries (λ i. get_or inode.direct_blocks i 0) 0 n
        ≡ entries (sector_of words content inode) 0 n
  unfolding sector_of
  direct-part n le =
      entries-same (λ i. get_or inode.direct_blocks i 0) (sector_of words content inode) 0 0 n
        (λ k lt. ground arith)

  single-part :
      (n : ℕ)
      → n ≤ 128
      → entries (words (content inode.indirect_block)) 0 n
        ≡ entries (sector_of words content inode) 123 n
  unfolding sector_of
  single-part n le =
      entries-same (words (content inode.indirect_block)) (sector_of words content inode) 0 123 n
        (λ k lt.
          let back : 0 + k ≡ 123 + k - 123 = omega arith in
          ap (words (content inode.indirect_block)) back ∙ ground arith)

  doubly-part :
      (n : ℕ)
      → n ≤ 16384
      → entries (behind (content inode.doubly_indirect_block)) (0 * 128) n
        ≡ entries (sector_of words content inode) 251 n
  unfolding sector_of
  doubly-part n le =
      entries-same (behind (content inode.doubly_indirect_block)) (sector_of words content inode)
        (0 * 128) 251 n
        (λ k lt.
          let back : 0 * 128 + k ≡ 251 + k - 251 = omega arith in
          ap (behind (content inode.doubly_indirect_block)) back ∙ ground arith)

  single_sectors_lem :
      (n : ℕ) (c : Cache)
      → n ≤ 128
      → StandsFor content c
      → Yields content
          (single_sectors words n inode c)
          (entries (sector_of words content inode) 123 n)
  unfolding single_sectors
  single_sectors_lem n c le h = elim (Nat-cases n 0) [
    | inl e ↦ (
      c,
      ground arith ∙ ap (λ r. some (r, c)) (entries-empty (sector_of words content inode) 123 n e),
      h,
    )
    | inr ne ↦
        let (c1, e1, h1) = read-Yields words content inode inode.indirect_block c h in
        (c1, ground arith ∙ ap (λ r. some (r, c1)) (single-part n le), h1)
  ]

  doubly_sectors_lem :
      (n : ℕ) (c : Cache)
      → n ≤ 16384
      → StandsFor content c
      → Yields content
          (doubly_sectors words n inode c)
          (entries (sector_of words content inode) 251 n)
  unfolding doubly_sectors
  doubly_sectors_lem n c le h = elim (Nat-cases n 0) [
    | inl e ↦ (
      c,
      ground arith ∙ ap (λ r. some (r, c)) (entries-empty (sector_of words content inode) 251 n e),
      h,
    )
    | inr ne ↦
        let (c1, e1, h1) = read-Yields words content inode inode.doubly_indirect_block c h in
        let (c2, e2, h2) =
          second_entries_lem ((n + 128 - 1) / 128) 0 n (content inode.doubly_indirect_block) c1
            (omega arith) h1 in
        (c2, ground arith ∙ ap (λ r. some (r, c2)) (doubly-part n le), h2)
  ]

  parts :
      (a b d : ℕ)
      → (b ≢ 0 → a ≡ 123)
      → (d ≢ 0 → a + b ≡ 251)
      → entries (sector_of words content inode) 0 a
          ++ (entries (sector_of words content inode) 123 b
              ++ entries (sector_of words content inode) 251 d)
        ≡ entries (sector_of words content inode) 0 (a + (b + d))
  parts a b d hb hd =
      let f = sector_of words content inode in
      let from_start : a ≡ 0 + a = omega arith in
      let last : entries f 251 d ≡ entries f (a + b) d = elim (Nat-cases d 0) [
        | inl e ↦ sym (entries-empty f 251 d e) ∙ entries-empty f (a + b) d e
        | inr ne ↦ ap (λ p. entries f p d) (sym (hd ne))
      ] in
      let middle : entries f 123 b ≡ entries f a b = elim (Nat-cases b 0) [
        | inl e ↦ sym (entries-empty f 123 b e) ∙ entries-empty f a b e
        | inr ne ↦ ap (λ p. entries f p b) (sym (hb ne))
      ] in
      ap (λ r. entries f 0 a ++ (entries f 123 b ++ r)) last
      ∙ ap (λ r. entries f 0 a ++ (r ++ entries f (a + b) d)) middle
      ∙ ap (λ r. entries f 0 a ++ r) (sym (entries-append f a b d))
      ∙ ap (λ p. entries f 0 a ++ entries f p (b + d)) from_start
      ∙ sym (entries-append f 0 a (b + d))

  -- `get_inode_data_sectors` ends and lists, in the file's order, the sector of each of its
  -- `bytes_to_sectors` sectors, where a file can have as many; every content stays as it is.
  pub get_inode_data_sectors_lem :
      (c : Cache)
      → bytes_to_sectors inode.length ≤ 16635
      → StandsFor content c
      → Yields content
          (get_inode_data_sectors words inode c)
          (entries (sector_of words content inode) 0 (bytes_to_sectors inode.length))
  unfolding get_inode_data_sectors
  get_inode_data_sectors_lem c le h =
      let n = bytes_to_sectors inode.length in
      let l1 = lesser n 123 in
      let l2 = lesser (n - l1) 128 in
      let l3 = lesser (n - l1 - l2) 16384 in
      let (c1, e1, h1) = single_sectors_lem l2 c (ground arith) h in
      let (c2, e2, h2) = doubly_sectors_lem l3 c1 (ground arith) h1 in
      let sum : l1 + (l2 + l3) ≡ n = ground arith in
      (
        c2,
        ground arith
            ∙ ap (λ r. some (r, c2))
                (ap
                    (λ r.
                      r
                      ++ (entries (sector_of words content inode) 123 l2
                          ++ entries (sector_of words content inode) 251 l3))
                    (direct-part l1 (ground arith))
                  ∙ parts l1 l2 l3 (λ ne. ground arith) (λ ne. ground arith)
                  ∙ ap (entries (sector_of words content inode) 0) sum),
        h2,
      )
