-- ===== src/Fs/Inode/Sectors.antt =====
-- inode_deallocate and get_inode_data_sectors of a3/fs/inode.c, for a length that is not negative.
-- `free_map_release` of one sector is a parameter. Where more sectors are left than a file has, the
-- source's assertion fails. `none` is a cache that runs out of fuel.
pub mod Listing
use comp310_assignments.Prelude.{
  ℕ, zero, suc, ◌+◌, ◌-◌, ◌*◌, ◌/◌, Bool, true, false, List, [], ◌∷◌, ◌++◌, Option, none, some,
  ◌==◌, if◌then◌else◌, ltb, get_or,
}
use comp310_assignments.Fs.Cache.{Block, Cache, buffer_cache_read}
use comp310_assignments.Fs.Inode.{
  InodeDisk, direct_blocks_count, indirect_blocks_per_sector, bytes_to_sectors,
}
use comp310_assignments.Fs.Inode.Access.{lesser}
use comp310_assignments.Fs.Inode.Reserve.{Disk}

-- The entries `i` up to `i + n` of a block.
unfoldable pub entries : (ℕ → ℕ) → (i n : ℕ) → List ℕ
entries block i zero = []
entries block i (suc n) = block i ∷ entries block (i + 1) n

module _ (words : Block → ℕ → ℕ) where
  -- The loop over the entries of the doubly indirect block, from entry `i` on.
  unfoldable pub second_entries :
      (rounds i num_sectors : ℕ) → Block → Cache → Option (List ℕ × Cache)
  second_entries zero i num_sectors block c = some ([], c)
  second_entries (suc n) i num_sectors block c =
      let subsize = lesser num_sectors indirect_blocks_per_sector in
      elim (buffer_cache_read (words block i) c) [
        | none ↦ none
        | some (block2, c1) ↦ elim (second_entries n (i + 1) (num_sectors - subsize) block c1) [
          | none ↦ none
          | some (rest, c2) ↦ some (entries (words block2) 0 subsize ++ rest, c2)
        ]
      ]

  -- The sectors behind the indirect block, `l` of them.
  unfoldable pub single_sectors : (l : ℕ) → InodeDisk → Cache → Option (List ℕ × Cache)
  single_sectors l inode c = elim (l == 0) [
    | true ↦ some ([], c)
    | false ↦ elim (buffer_cache_read inode.indirect_block c) [
      | none ↦ none
      | some (block, c1) ↦ some (entries (words block) 0 l, c1)
    ]
  ]

  unfoldable pub doubly_sectors : (l : ℕ) → InodeDisk → Cache → Option (List ℕ × Cache)
  doubly_sectors l inode c = elim (l == 0) [
    | true ↦ some ([], c)
    | false ↦ elim (buffer_cache_read inode.doubly_indirect_block c) [
      | none ↦ none
      | some (block, c1) ↦
          second_entries ((l + indirect_blocks_per_sector - 1) / indirect_blocks_per_sector) 0 l
            block c1
    ]
  ]

  unfoldable pub get_inode_data_sectors : InodeDisk → Cache → Option (List ℕ × Cache)
  get_inode_data_sectors inode c =
      let num_sectors = bytes_to_sectors inode.length in
      let l1 = lesser num_sectors direct_blocks_count in
      let l2 = lesser (num_sectors - l1) indirect_blocks_per_sector in
      let l3 =
        lesser (num_sectors - l1 - l2) (indirect_blocks_per_sector * indirect_blocks_per_sector) in
      elim (single_sectors l2 inode c) [
        | none ↦ none
        | some (single, c1) ↦ elim (doubly_sectors l3 inode c1) [
          | none ↦ none
          | some (doubly, c2) ↦
              some (entries (λ i. get_or inode.direct_blocks i 0) 0 l1 ++ (single ++ doubly), c2)
        ]
      ]

module _ {M : Type 0} (words : Block → ℕ → ℕ) (free_map_release : ℕ → Disk M → Disk M) where
  -- The loop over the entries of a block, from entry `i` on; `lower` frees what is behind an entry.
  unfoldable pub deallocate_entries :
      (lower : (entry num_sectors : ℕ) → Disk M → Option (Disk M)) (unit rounds i num_sectors : ℕ)
      → Block
      → Disk M
      → Option (Disk M)
  deallocate_entries lower unit zero i num_sectors block d = some d
  deallocate_entries lower unit (suc n) i num_sectors block d =
      elim (lower (words block i) (lesser num_sectors unit) d) [
        | none ↦ none
        | some d1 ↦
            deallocate_entries lower unit n (i + 1) (num_sectors - lesser num_sectors unit) block d1
      ]

  -- Levels 1 and 2 of `inode_deallocate_indirect`, over the level below.
  unfoldable pub deallocate_indirect :
      (lower : (entry num_sectors : ℕ) → Disk M → Option (Disk M)) (unit : ℕ)
      → (entry num_sectors : ℕ) → Disk M
      → Option (Disk M)
  deallocate_indirect lower unit entry num_sectors d = elim (buffer_cache_read entry d.cache) [
    | none ↦ none
    | some (block, c) ↦
        elim (deallocate_entries lower unit ((num_sectors + unit - 1) / unit) 0 num_sectors block
          (record d { cache = c })) [ none ↦ none | some d1 ↦ some (free_map_release entry d1) ]
  ]

  unfoldable pub deallocate_level0 : (entry num_sectors : ℕ) → Disk M → Option (Disk M)
  deallocate_level0 entry num_sectors d = some (free_map_release entry d)

  unfoldable pub deallocate_level1 : (entry num_sectors : ℕ) → Disk M → Option (Disk M)
  deallocate_level1 entry num_sectors d =
      deallocate_indirect deallocate_level0 1 entry num_sectors d

  unfoldable pub deallocate_level2 : (entry num_sectors : ℕ) → Disk M → Option (Disk M)
  deallocate_level2 entry num_sectors d =
      deallocate_indirect deallocate_level1 indirect_blocks_per_sector entry num_sectors d

  unfoldable pub deallocate_direct : (rounds i : ℕ) → InodeDisk → Disk M → Disk M
  deallocate_direct zero i inode d = d
  deallocate_direct (suc n) i inode d =
      deallocate_direct n (i + 1) inode (free_map_release (get_or inode.direct_blocks i 0) d)

  -- A level is freed only where some sectors are left for it.
  unfoldable pub deallocate_some :
      (lower : (entry num_sectors : ℕ) → Disk M → Option (Disk M)) (entry num_sectors : ℕ)
      → Disk M
      → Option (Disk M)
  deallocate_some lower entry num_sectors d = elim (num_sectors == 0) [
    | true ↦ some d
    | false ↦ lower entry num_sectors d
  ]

  unfoldable pub inode_deallocate : InodeDisk → Disk M → Option (Disk M)
  inode_deallocate inode d =
      let num_sectors = bytes_to_sectors inode.length in
      let l1 = lesser num_sectors direct_blocks_count in
      let l2 = lesser (num_sectors - l1) indirect_blocks_per_sector in
      let l3 =
        lesser (num_sectors - l1 - l2) (indirect_blocks_per_sector * indirect_blocks_per_sector) in
      elim (deallocate_some deallocate_level1 inode.indirect_block l2
        (deallocate_direct l1 0 inode d)) [
          | none ↦ none
          | some d1 ↦ deallocate_some deallocate_level2 inode.doubly_indirect_block l3 d1
        ]
