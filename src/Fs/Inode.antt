-- ===== src/Fs/Inode.antt =====
-- a3/fs/inode.c: where the sectors of a file are. A sector is read through the buffer cache; `words`
-- is how the machine reads its bytes as an array of `block_sector_t`. Offsets are not negative, as
-- `byte_to_sector` makes sure. `none` is a cache that runs out of fuel.
pub mod Lookup
pub mod Access
pub mod Reserve
pub mod Update
pub mod Sectors
pub mod Open
use comp310_assignments.Prelude.{
  ℕ, ◌+◌, ◌-◌, ◌*◌, ◌/◌, ◌%◌, Bool, List, Option, none, some, ltb, get_or, if◌then◌else◌,
}
use comp310_assignments.Fs.Cache.{Block, Cache, buffer_cache_read}

abbrev pub direct_blocks_count : ℕ
direct_blocks_count = 123

abbrev pub indirect_blocks_per_sector : ℕ
indirect_blocks_per_sector = 128

abbrev pub block_sector_size : ℕ
block_sector_size = 512

-- `(block_sector_t)-1`
abbrev pub no_sector : ℕ
no_sector = 4294967295

-- `struct inode_disk`
pub record InodeDisk : Type 0 where
  pub direct_blocks : List ℕ
  pub indirect_block : ℕ
  pub doubly_indirect_block : ℕ
  pub is_dir : Bool
  pub length : ℕ
  pub magic : ℕ

-- `DIV_ROUND_UP(size, BLOCK_SECTOR_SIZE)`
unfoldable pub bytes_to_sectors : ℕ → ℕ
bytes_to_sectors size = (size + block_sector_size - 1) / block_sector_size

module _ (words : Block → ℕ → ℕ) where
  unfoldable pub single_indirect : InodeDisk → ℕ → Cache → Option (ℕ × Cache)
  single_indirect idisk rest c = elim (buffer_cache_read idisk.indirect_block c) [
    | none ↦ none
    | some (block, c') ↦ some (words block rest, c')
  ]

  unfoldable pub doubly_indirect : InodeDisk → ℕ → Cache → Option (ℕ × Cache)
  doubly_indirect idisk rest c = elim (buffer_cache_read idisk.doubly_indirect_block c) [
    | none ↦ none
    | some (first, c1) ↦
        elim (buffer_cache_read (words first (rest / indirect_blocks_per_sector)) c1) [
          | none ↦ none
          | some (second, c2) ↦ some (words second (rest % indirect_blocks_per_sector), c2)
        ]
  ]

  unfoldable pub index_to_sector : InodeDisk → ℕ → Cache → Option (ℕ × Cache)
  index_to_sector idisk index c =
      let limit1 = direct_blocks_count in
      let limit2 = limit1 + indirect_blocks_per_sector in
      let limit3 = limit2 + indirect_blocks_per_sector * indirect_blocks_per_sector in
      if ltb index limit1
      then some (get_or idisk.direct_blocks index 0, c)
      else if ltb index limit2
      then single_indirect idisk (index - limit1) c
      else if ltb index limit3
      then doubly_indirect idisk (index - limit2) c
      else some (no_sector, c)

  unfoldable pub byte_to_sector : InodeDisk → ℕ → Cache → Option (ℕ × Cache)
  byte_to_sector idisk pos c =
      if ltb pos idisk.length
      then index_to_sector idisk (pos / block_sector_size) c
      else some (no_sector, c)

-- `struct inode`, less its place in the list of open inodes.
pub record Inode : Type 0 where
  pub sector : ℕ
  pub open_cnt : ℕ
  pub removed : Bool
  pub deny_write_cnt : ℕ
  pub contents : InodeDisk
