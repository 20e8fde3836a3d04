-- ===== src/Fs/Inode/Update.antt =====
-- inode_write_at of a3/fs/inode.c with the extension of the file, and what else changes an inode. How the
-- compiler lays a `struct inode_disk` out in a sector is the parameter `encode`.
pub mod RoundTrip
use comp310_assignments.Prelude.{
  ℕ, zero, suc, ◌+◌, ◌-◌, ◌*◌, ◌/◌, Bool, true, false, List, [], ◌∷◌, Option, none, some, ◌==◌,
  if◌then◌else◌, ltb, get_or, ◌++◌,
}
use comp310_assignments.Fs.Cache.{Block, Cache, buffer_cache_read}
use comp310_assignments.Fs.Inode.{
  InodeDisk, Inode, no_sector, byte_to_sector, bytes_to_sectors, direct_blocks_count,
  indirect_blocks_per_sector,
}
use comp310_assignments.Fs.Inode.Access.{lesser, write_loop}
use comp310_assignments.Fs.Inode.Reserve.{Disk, Step, inode_reserve, write_block}

-- `inode->removed = true`
unfoldable pub inode_remove : Inode → Inode
inode_remove inode = record inode { removed = true }

-- Each of the two is called only where its assertion holds.
unfoldable pub inode_deny_write : Inode → Inode
inode_deny_write inode = record inode { deny_write_cnt = inode.deny_write_cnt + 1 }

unfoldable pub inode_allow_write : Inode → Inode
inode_allow_write inode = record inode { deny_write_cnt = inode.deny_write_cnt - 1 }

-- What `inode_write_at` returns, and what it leaves behind.
pub record WriteResult (M : Type 0) : Type 0 where
  pub bytes_written : ℕ
  pub inode : Inode
  pub disk : Disk M

module _ {M : Type 0} (words : Block → ℕ → ℕ) (set_word : Block → ℕ → ℕ → Block)
    (free_map_allocate : Disk M → Option ℕ × Disk M) (encode : InodeDisk → Block) where
  -- `byte_to_sector(inode, position - 1)`, where -1 is no position in the file.
  unfoldable pub sector_before : InodeDisk → (position : ℕ) → Cache → Option (ℕ × Cache)
  sector_before inode zero c = some (no_sector, c)
  sector_before inode (suc p) c = byte_to_sector words inode p c

  -- The loop of `inode_write_at`, on the inode as it is then.
  unfoldable pub write_bytes : Inode → (size offset : ℕ) → List ℕ → Disk M → Option (WriteResult M)
  write_bytes inode size offset buffer d =
      elim (write_loop words (size + 1) inode.contents size offset 0 buffer d.cache) [
        | none ↦ none
        | some (written, c) ↦
            some (record { bytes_written = written; inode = inode; disk = record d { cache = c } })
      ]

  -- Where the file is too short it is extended first; where that fails, nothing is written.
  unfoldable pub extend_and_write :
      Inode → (size offset : ℕ) → List ℕ → Disk M → Option (WriteResult M)
  extend_and_write inode size offset buffer d =
      elim (inode_reserve words set_word free_map_allocate inode.contents (offset + size) d) [
        | none ↦ none
        | some step ↦ elim step.success [
          | false ↦ some (record {
            bytes_written = 0;
            inode = record inode { contents = step.value };
            disk = step.disk;
          })
          | true ↦
              let inode' = record inode {
                contents = record (step.value) { length = offset + size };
              } in
              elim (write_block words set_word free_map_allocate inode.sector
                (encode inode'.contents) step.disk) [
                  | none ↦ none
                  | some d' ↦ write_bytes inode' size offset buffer d'
                ]
        ]
      ]

  unfoldable pub inode_write_at :
      Inode → (size offset : ℕ) → List ℕ → Disk M → Option (WriteResult M)
  inode_write_at inode size offset buffer d = elim (inode.deny_write_cnt == 0) [
    | false ↦ some (record { bytes_written = 0; inode = inode; disk = d })
    | true ↦ elim (sector_before inode.contents (offset + size) d.cache) [
      | none ↦ none
      | some (sector, c) ↦ elim (sector == no_sector) [
        | true ↦ extend_and_write inode size offset buffer (record d { cache = c })
        | false ↦ write_bytes inode size offset buffer (record d { cache = c })
      ]
    ]
  ]
