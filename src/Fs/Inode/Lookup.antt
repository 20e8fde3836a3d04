-- ===== src/Fs/Inode/Lookup.antt =====
-- The sector number of each sector of a file, against the content that the buffer cache stands for.
use comp310_assignments.Prelude.{
  ℕ, ◌+◌, ◌-◌, ◌*◌, ◌/◌, ◌%◌, ◌≤◌, ◌<◌, ◌≡◌, refl, sym, ◌∙◌, subst, Option, some, get_or, arith,
}
use comp310_assignments.Fs.Cache.{Block, Cache}
use comp310_assignments.Fs.Cache.View.{view, IsCoherent}
use comp310_assignments.Fs.Cache.Refine.{buffer_cache_read_lem}
use comp310_assignments.Fs.Inode.{
  InodeDisk, no_sector, single_indirect, doubly_indirect, index_to_sector,
}

-- The result is the sector, and a coherent cache with the same content.
abbrev pub Gives : Cache → Option (ℕ × Cache) → ℕ → Type 0
Gives c result sector =
    (c' : Cache) × (result ≡ some (sector, c')) × IsCoherent c' × ((s : ℕ) → view c' s ≡ view c s)

quotient : (f s : ℕ) → s < 128 → (251 + (f * 128 + s) - 251) / 128 ≡ f
quotient f s lt = omega arith

remainder : (f s : ℕ) → s < 128 → (251 + (f * 128 + s) - 251) % 128 ≡ s
remainder f s lt = omega arith

module _ (words : Block → ℕ → ℕ) (idisk : InodeDisk) (c : Cache) where
  pub single_indirect_lem :
      (rest : ℕ)
      → IsCoherent c
      → Gives c (single_indirect words idisk rest c) (words (view c idisk.indirect_block) rest)
  unfolding single_indirect
  single_indirect_lem rest k =
      let (c', e, k', same) = buffer_cache_read_lem idisk.indirect_block c k in
      (c', ground (arith, e), k', same)

  pub doubly_indirect_lem :
      (rest : ℕ)
      → IsCoherent c
      → Gives c
          (doubly_indirect words idisk rest c)
          (words (view c (words (view c idisk.doubly_indirect_block) (rest / 128))) (rest % 128))
  unfolding doubly_indirect
  doubly_indirect_lem rest k =
      let (c1, e1, k1, same1) = buffer_cache_read_lem idisk.doubly_indirect_block c k in
      let next = words (view c idisk.doubly_indirect_block) (rest / 128) in
      let (c2, e2, k2, same2) = buffer_cache_read_lem next c1 k1 in
      let e3 = same1 next in (c2, ground arith, k2, λ s. same2 s ∙ same1 s)

  pub index_to_sector-cases :
      (index : ℕ)
      → (index < 123
          → index_to_sector words idisk index c ≡ some (get_or idisk.direct_blocks index 0, c))
        × (123 ≤ index
            → index < 251
            → index_to_sector words idisk index c ≡ single_indirect words idisk (index - 123) c)
        × (251 ≤ index
            → index < 16635
            → index_to_sector words idisk index c ≡ doubly_indirect words idisk (index - 251) c)
        × (16635 ≤ index → index_to_sector words idisk index c ≡ some (no_sector, c))
  unfolding index_to_sector
  index_to_sector-cases index =
      ((λ h. ground arith), (λ h h'. ground arith), (λ h h'. ground arith), λ h. ground arith)

  -- Behind a coherent cache `index_to_sector` gives: for the first 123 sectors of a file their direct
  -- block; for the next 128 the entry of the indirect block; for the `s`-th sector behind the `f`-th entry of the
  -- doubly indirect block, the `s`-th entry of the block that this entry names; and for all further
  -- sectors -1. The cache stays coherent and no content changes.
  pub index_to_sector_lem :
      IsCoherent c
      → ((k : ℕ)
          → k < 123
          → Gives c (index_to_sector words idisk k c) (get_or idisk.direct_blocks k 0))
        × ((k : ℕ)
            → k < 128
            → Gives c
                (index_to_sector words idisk (123 + k) c)
                (words (view c idisk.indirect_block) k))
        × ((f s : ℕ)
            → f < 128
            → s < 128
            → Gives c
                (index_to_sector words idisk (251 + (f * 128 + s)) c)
                (words (view c (words (view c idisk.doubly_indirect_block) f)) s))
        × ((k : ℕ) → 16635 ≤ k → Gives c (index_to_sector words idisk k c) no_sector)
  index_to_sector_lem coherent = (
    (λ k lt. (c, (index_to_sector-cases k).0 lt, coherent, λ s. refl)),
    (λ k lt.
        subst (λ r. Gives c r (words (view c idisk.indirect_block) k))
          (sym ((index_to_sector-cases (123 + k)).1 (omega arith) (omega arith)))
          (subst
            (λ w.
              Gives c (single_indirect words idisk (123 + k - 123) c)
                (words (view c idisk.indirect_block) w))
            (omega arith) (single_indirect_lem (123 + k - 123) coherent))),
    (λ f s lf ls.
        subst (λ r. Gives c r (words (view c (words (view c idisk.doubly_indirect_block) f)) s))
          (sym ((index_to_sector-cases (251 + (f * 128 + s))).2 (omega arith) (omega arith)))
          (subst
            (λ w.
              Gives c (doubly_indirect words idisk (251 + (f * 128 + s) - 251) c)
                (words (view c (words (view c idisk.doubly_indirect_block) f)) w))
            (remainder f s ls)
            (subst
              (λ w. Gives c (doubly_indirect words idisk (251 + (f * 128 + s) - 251) c) (
                words (view c (words (view c idisk.doubly_indirect_block) w))
                  ((251 + (f * 128 + s) - 251) % 128)))
              (quotient f s ls) (doubly_indirect_lem (251 + (f * 128 + s) - 251) coherent)))),
    λ k le. (c, (index_to_sector-cases k).3 le, coherent, λ s. refl),
  )
