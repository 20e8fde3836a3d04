-- ===== src/Fs/Inode/Reserve.antt =====
-- inode_reserve of a3/fs/inode.c. The free map is the state `M` of the parameter `free_map_allocate`, for
-- one sector; `set_word` is an assignment to an entry of the array that `words` reads. `none` is a cache that runs out of fuel.
use comp310_assignments.Prelude.{
  ℕ, zero, suc, ◌+◌, ◌-◌, ◌*◌, ◌/◌, Bool, true, false, Option, none, some, ◌==◌, if◌then◌else◌,
  get_or, set,
}
use comp310_assignments.Fs.Cache.{Block, Cache, buffer_cache_read, buffer_cache_write}
use comp310_assignments.Fs.Inode.{
  InodeDisk, direct_blocks_count, indirect_blocks_per_sector, bytes_to_sectors,
}
use comp310_assignments.Fs.Inode.Access.{lesser, zeros}

-- The free map and the cache, which the allocation of sectors changes.
pub record Disk (M : Type 0) : Type 0 where
  pub free_map : M
  pub cache : Cache

-- How a step of a reservation ends: whether it succeeded, and what it has changed even where not.
pub record Step (M A : Type 0) : Type 0 where
  pub success : Bool
  pub value : A
  pub disk : Disk M

module _ {M : Type 0} (words : Block → ℕ → ℕ) (set_word : Block → ℕ → ℕ → Block)
    (free_map_allocate : Disk M → Option ℕ × Disk M) where
  -- `buffer_cache_write`
  unfoldable pub write_block : ℕ → Block → Disk M → Option (Disk M)
  write_block sector block d = elim (buffer_cache_write sector block d.cache) [
    | none ↦ none
    | some c ↦ some (record d { cache = c })
  ]

  -- A sector for an entry that has none, filled with zeros.
  unfoldable pub reserve_sector : ℕ → Disk M → Option (Step M ℕ)
  reserve_sector entry d =
      if entry == 0
      then (let (found, d1) = free_map_allocate d in
          elim found [
            | none ↦ some (record { success = false; value = entry; disk = d1 })
            | some sector ↦ elim (write_block sector zeros d1) [
              | none ↦ none
              | some d2 ↦ some (record { success = true; value = sector; disk = d2 })
            ]
          ])
      else some (record { success = true; value = entry; disk = d })

  -- The loop over the entries of a block, from entry `i` on; `lower` reserves what is behind an entry.
  unfoldable pub reserve_entries :
      (lower : (entry num_sectors : ℕ) → Disk M → Option (Step M ℕ)) (unit rounds i num_sectors : ℕ)
      → Block
      → Disk M
      → Option (Step M Block)
  reserve_entries lower unit zero i num_sectors block d =
      some (record { success = true; value = block; disk = d })
  reserve_entries lower unit (suc n) i num_sectors block d =
      elim (lower (words block i) (lesser num_sectors unit) d) [
        | none ↦ none
        | some step ↦ elim step.success [
          | false ↦
              some
                (record { success = false; value = set_word block i step.value; disk = step.disk })
          | true ↦
              reserve_entries lower unit n (i + 1) (num_sectors - lesser num_sectors unit)
                (set_word block i step.value) step.disk
        ]
      ]

  -- The block of an entry: what `free_map_allocate` returns is not looked at.
  unfoldable pub index_block : ℕ → Disk M → Option (ℕ × Disk M)
  index_block entry d =
      if entry == 0
      then (let (found, d1) = free_map_allocate d in
          elim found [
            | none ↦ elim (write_block entry zeros d1) [ none ↦ none | some d2 ↦ some (entry, d2) ]
            | some sector ↦ elim (write_block sector zeros d1) [
              | none ↦ none
              | some d2 ↦ some (sector, d2)
            ]
          ])
      else some (entry, d)

  -- Levels 1 and 2 of `inode_reserve_indirect`, over the level below.
  unfoldable pub reserve_indirect :
      (lower : (entry num_sectors : ℕ) → Disk M → Option (Step M ℕ)) (unit : ℕ)
      → (entry num_sectors : ℕ) → Disk M
      → Option (Step M ℕ)
  reserve_indirect lower unit entry num_sectors d = elim (index_block entry d) [
    | none ↦ none
    | some (sector, d1) ↦ elim (buffer_cache_read sector d1.cache) [
      | none ↦ none
      | some (block, c) ↦
          elim (reserve_entries lower unit ((num_sectors + unit - 1) / unit) 0 num_sectors block
            (record d1 { cache = c })) [
              | none ↦ none
              | some step ↦ elim step.success [
                | false ↦ some (record { success = false; value = sector; disk = step.disk })
                | true ↦ elim (write_block sector step.value step.disk) [
                  | none ↦ none
                  | some d2 ↦ some (record { success = true; value = sector; disk = d2 })
                ]
              ]
            ]
    ]
  ]

  unfoldable pub reserve_level1 : (entry num_sectors : ℕ) → Disk M → Option (Step M ℕ)
  reserve_level1 entry num_sectors d =
      reserve_indirect (λ e n d'. reserve_sector e d') 1 entry num_sectors d

  unfoldable pub reserve_level2 : (entry num_sectors : ℕ) → Disk M → Option (Step M ℕ)
  reserve_level2 entry num_sectors d =
      reserve_indirect reserve_level1 indirect_blocks_per_sector entry num_sectors d

  -- The loop over the direct blocks.
  unfoldable pub reserve_direct : (rounds i : ℕ) → InodeDisk → Disk M → Option (Step M InodeDisk)
  reserve_direct zero i inode d = some (record { success = true; value = inode; disk = d })
  reserve_direct (suc n) i inode d = elim (reserve_sector (get_or inode.direct_blocks i 0) d) [
    | none ↦ none
    | some step ↦
        let inode' = record inode { direct_blocks = set inode.direct_blocks i step.value } in
        elim step.success [
          | false ↦ some (record { success = false; value = inode'; disk = step.disk })
          | true ↦ reserve_direct n (i + 1) inode' step.disk
        ]
  ]

  -- The doubly indirect block, where `num_sectors` are left. Where some are left behind it, the source's
  -- assertion fails, in place of a result.
  unfoldable pub reserve_doubly : (num_sectors : ℕ) → InodeDisk → Disk M → Option (Step M InodeDisk)
  reserve_doubly num_sectors inode d =
      let l = lesser num_sectors (indirect_blocks_per_sector * indirect_blocks_per_sector) in
      elim (reserve_level2 inode.doubly_indirect_block l d) [
        | none ↦ none
        | some step ↦ some (record {
          success = if step.success then num_sectors - l == 0 else false;
          value = record inode { doubly_indirect_block = step.value };
          disk = step.disk;
        })
      ]

  unfoldable pub reserve_single : (num_sectors : ℕ) → InodeDisk → Disk M → Option (Step M InodeDisk)
  reserve_single num_sectors inode d =
      let l = lesser num_sectors indirect_blocks_per_sector in
      elim (reserve_level1 inode.indirect_block l d) [
        | none ↦ none
        | some step ↦
            let inode' = record inode { indirect_block = step.value } in
            elim step.success [
              | false ↦ some (record { success = false; value = inode'; disk = step.disk })
              | true ↦ elim (num_sectors - l == 0) [
                | true ↦ some (record { success = true; value = inode'; disk = step.disk })
                | false ↦ reserve_doubly (num_sectors - l) inode' step.disk
              ]
            ]
      ]

  -- `inode_reserve` for a length that is not negative.
  unfoldable pub inode_reserve : InodeDisk → (length : ℕ) → Disk M → Option (Step M InodeDisk)
  inode_reserve inode length d =
      let num_sectors = bytes_to_sectors length in
      let l = lesser num_sectors direct_blocks_count in
      elim (reserve_direct l 0 inode d) [
        | none ↦ none
        | some step ↦ elim step.success [
          | false ↦ some step
          | true ↦ elim (num_sectors - l == 0) [
            | true ↦ some step
            | false ↦ reserve_single (num_sectors - l) step.value step.disk
          ]
        ]
      ]
