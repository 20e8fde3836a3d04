-- ===== src/Fs/Inode/Open.antt =====
-- inode_create and the list of open inodes of a3/fs/inode.c. A `struct inode *` is a number, which
-- `malloc` gives as the argument `fresh`. Parameters are how the compiler lays a `struct inode_disk` out
-- in a sector, the other way round, and the free map. `none` is a cache that runs out of fuel.
pub mod Openers
use comp310_assignments.Prelude.{
  ℕ, zero, suc, ◌+◌, ◌-◌, Bool, true, false, List, [], ◌∷◌, Option, none, some, ◌==◌, if◌then◌else◌,
  replicate,
}
use comp310_assignments.Fs.Cache.{Block, Cache, buffer_cache_read}
use comp310_assignments.Fs.Inode.{InodeDisk, Inode, direct_blocks_count}
use comp310_assignments.Fs.Inode.Reserve.{Disk, inode_reserve, write_block}
use comp310_assignments.Fs.Inode.Sectors.{inode_deallocate}

abbrev pub inode_magic : ℕ
inode_magic = 1229868868

-- An inode and its address.
pub record OpenInode : Type 0 where
  pub addr : ℕ
  pub inode : Inode

-- `open_inodes`, the free map and the cache.
pub record OpenState (M : Type 0) : Type 0 where
  pub open_inodes : List OpenInode
  pub disk : Disk M

-- `inode_init`
unfoldable pub inode_init : {M : Type 0} → Disk M → OpenState M
inode_init d = record { open_inodes = []; disk = d }

-- The loop of `inode_open`, which looks for the sector.
unfoldable pub find_open : ℕ → List OpenInode → Option OpenInode
find_open sector [] = none
find_open sector (o ∷ l) = elim (o.inode.sector == sector) [
  | true ↦ some o
  | false ↦ find_open sector l
]

-- `inode_reopen`
unfoldable pub inode_reopen : OpenInode → OpenInode
inode_reopen o = o

-- An inode by its address.
unfoldable pub find_addr : ℕ → List OpenInode → Option OpenInode
find_addr a [] = none
find_addr a (o ∷ l) = elim (o.addr == a) [ true ↦ some o | false ↦ find_addr a l ]

-- `list_remove`
unfoldable pub remove_open : ℕ → List OpenInode → List OpenInode
remove_open a [] = []
remove_open a (o ∷ l) = elim (o.addr == a) [ true ↦ l | false ↦ o ∷ remove_open a l ]

-- `--inode->open_cnt`, where it stays above 0.
unfoldable pub decrement_open : ℕ → List OpenInode → List OpenInode
decrement_open a [] = []
decrement_open a (o ∷ l) = elim (o.addr == a) [
  | true ↦ record o { inode = record (o.inode) { open_cnt = o.inode.open_cnt - 1 } } ∷ l
  | false ↦ o ∷ decrement_open a l
]

module _ {M : Type 0} (words : Block → ℕ → ℕ) (set_word : Block → ℕ → ℕ → Block)
    (free_map_allocate : Disk M → Option ℕ × Disk M) (encode : InodeDisk → Block) where
  -- The value is whether it succeeded.
  unfoldable pub inode_create :
      (sector length : ℕ) → (is_dir : Bool) → Disk M → Option (Bool × Disk M)
  inode_create sector length is_dir d =
      let disk_inode : InodeDisk = record {
        direct_blocks = replicate direct_blocks_count 0;
        indirect_block = 0;
        doubly_indirect_block = 0;
        is_dir = is_dir;
        length = length;
        magic = inode_magic;
      } in
      elim (inode_reserve words set_word free_map_allocate disk_inode length d) [
        | none ↦ none
        | some step ↦ elim step.success [
          | false ↦ some (false, step.disk)
          | true ↦
              elim (write_block words set_word free_map_allocate sector (encode step.value)
                step.disk) [ none ↦ none | some d' ↦ some (true, d') ]
        ]
      ]

module _ {M : Type 0} (decode : Block → InodeDisk) where
  -- The inode that was read from the sector, at the head of the list.
  unfoldable pub open_new : (fresh sector : ℕ) → OpenState M → Option (ℕ × OpenState M)
  open_new fresh sector s = elim (buffer_cache_read sector s.disk.cache) [
    | none ↦ none
    | some (block, c) ↦
        let inode : Inode = record {
          sector = sector;
          open_cnt = 1;
          removed = false;
          deny_write_cnt = 0;
          contents = decode block;
        } in
        some (
          fresh,
          record {
            open_inodes = record { addr = fresh; inode = inode } ∷ s.open_inodes;
            disk = record (s.disk) { cache = c };
          },
        )
  ]

  -- The address of the inode, and the state.
  unfoldable pub inode_open : (fresh sector : ℕ) → OpenState M → Option (ℕ × OpenState M)
  inode_open fresh sector s = elim (find_open sector s.open_inodes) [
    | some o ↦ some ((inode_reopen o).addr, s)
    | none ↦ open_new fresh sector s
  ]

module _ {M : Type 0} (words : Block → ℕ → ℕ) (free_map_release : ℕ → Disk M → Disk M) where
  -- What the last close of an inode does with its sectors.
  unfoldable pub release_inode : Inode → Disk M → Option (Disk M)
  release_inode inode d =
      if inode.removed
      then inode_deallocate words free_map_release inode.contents (free_map_release inode.sector d)
      else some d

  -- `inode_close` of an address that is no inode's is not called.
  unfoldable pub inode_close : (addr : ℕ) → OpenState M → Option (OpenState M)
  inode_close a s = elim (find_addr a s.open_inodes) [
    | none ↦ some s
    | some o ↦ elim (o.inode.open_cnt == 1) [
      | false ↦ some (record s { open_inodes = decrement_open a s.open_inodes })
      | true ↦ elim (release_inode o.inode s.disk) [
        | none ↦ none
        | some d ↦ some (record { open_inodes = remove_open a s.open_inodes; disk = d })
      ]
    ]
  ]
