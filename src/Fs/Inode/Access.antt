-- ===== src/Fs/Inode/Access.antt =====
-- inode_read_at and the loop of inode_write_at of a3/fs/inode.c. Sizes and offsets are not negative and
-- small enough that their sum is a number of the type `offset_t`. The loops are on fuel, of which one
-- round more than bytes are asked for is enough; `none` is a loop without fuel.
pub mod Slice
pub mod Read
pub mod Overlay
pub mod Layout
pub mod Wrote
pub mod Write
use comp310_assignments.Prelude.{
  ℕ, zero, suc, ◌+◌, ◌-◌, ◌/◌, ◌%◌, Bool, true, false, ◌&&◌, List, [], ◌∷◌, ◌++◌, Option, none,
  some, ltb, ◌==◌, if◌then◌else◌, length, take, drop, set, replicate, ◌||◌,
}
use comp310_assignments.Fs.Cache.{Block, Cache, buffer_cache_read, buffer_cache_write}
use comp310_assignments.Fs.Inode.{InodeDisk, block_sector_size, byte_to_sector}

-- `index < limit ? index : limit`
abbrev pub lesser : ℕ → ℕ → ℕ
lesser a b = if ltb a b then a else b

-- The bytes of one round, from a sector of a file of `length` bytes; the source breaks at 0 or below.
unfoldable pub chunk_size : (length offset size : ℕ) → ℕ
chunk_size length offset size =
    let sector_left = block_sector_size - offset % block_sector_size in
    lesser size (lesser (length - offset) sector_left)

-- What a round puts into the caller's buffer: the whole sector, or a part of it through `bounce`.
unfoldable pub chunk_of : Block → (offset chunk : ℕ) → List ℕ
chunk_of block offset chunk =
    if offset % block_sector_size == 0 && chunk == block_sector_size
    then block
    else take chunk (drop (offset % block_sector_size) block)

-- A sector of zeros.
abbrev pub zeros : Block
zeros = replicate block_sector_size 0

-- `memcpy(block + offset, bytes, length(bytes))`
unfoldable pub overlay : Block → ℕ → List ℕ → Block
overlay block i [] = block
overlay block i (x ∷ xs) = overlay (set block i x) (i + 1) xs

-- The block that a round writes: the bytes themselves, or a part of the old block through `bounce`,
-- which starts with zeros where the round covers the whole rest of the sector.
unfoldable pub block_with : (offset chunk : ℕ) → (bytes : List ℕ) → Block → Block
block_with offset chunk bytes block =
    if offset % block_sector_size == 0 && chunk == block_sector_size
    then bytes
    else overlay block (offset % block_sector_size) bytes

-- What `bounce` holds before the bytes go in; a whole sector needs no `bounce`.
unfoldable pub old_block : (sector offset chunk : ℕ) → Cache → Option (Block × Cache)
old_block sector offset chunk c =
    let sector_ofs = offset % block_sector_size in
    if sector_ofs == 0 && chunk == block_sector_size
    then some (zeros, c)
    else if ltb 0 sector_ofs || ltb chunk (block_sector_size - sector_ofs)
    then buffer_cache_read sector c
    else some (zeros, c)

module _ (words : Block → ℕ → ℕ) where
  -- The bytes that were read, of which the source returns the number too.
  unfoldable pub read_loop :
      ℕ → InodeDisk → (size offset : ℕ) → List ℕ → Cache → Option (List ℕ × Cache)
  read_loop zero inode size offset buffer c = none
  read_loop (suc f) inode size offset buffer c = elim (size == 0) [
    | true ↦ some (buffer, c)
    | false ↦ elim (byte_to_sector words inode offset c) [
      | none ↦ none
      | some (sector_idx, c1) ↦ elim (chunk_size inode.length offset size == 0) [
        | true ↦ some (buffer, c1)
        | false ↦ elim (buffer_cache_read sector_idx c1) [
          | none ↦ none
          | some (block, c2) ↦
              let chunk = chunk_size inode.length offset size in
              read_loop f inode (size - chunk) (offset + chunk)
                (buffer ++ chunk_of block offset chunk) c2
        ]
      ]
    ]
  ]

  unfoldable pub inode_read_at : InodeDisk → (size offset : ℕ) → Cache → Option (List ℕ × Cache)
  inode_read_at inode size offset c = read_loop (size + 1) inode size offset [] c

  -- The number of bytes that were written, and the cache.
  unfoldable pub write_loop :
      ℕ → InodeDisk → (size offset written : ℕ) → List ℕ → Cache → Option (ℕ × Cache)
  write_loop zero inode size offset written buffer c = none
  write_loop (suc f) inode size offset written buffer c = elim (size == 0) [
    | true ↦ some (written, c)
    | false ↦ elim (byte_to_sector words inode offset c) [
      | none ↦ none
      | some (sector_idx, c1) ↦
          let chunk = chunk_size inode.length offset size in
          elim (chunk == 0) [
            | true ↦ some (written, c1)
            | false ↦ elim (old_block sector_idx offset chunk c1) [
              | none ↦ none
              | some (block, c2) ↦
                  elim (buffer_cache_write sector_idx
                    (block_with offset chunk (take chunk buffer) block) c2) [
                      | none ↦ none
                      | some c3 ↦
                          write_loop f inode (size - chunk) (offset + chunk) (written + chunk)
                            (drop chunk buffer) c3
                    ]
            ]
          ]
    ]
  ]
