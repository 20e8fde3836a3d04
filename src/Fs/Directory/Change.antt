-- ===== src/Fs/Directory/Change.antt =====
-- a3/fs/directory.c: opening and closing directories, and the change of their entries. dir_open of NULL, which
-- inode_open never gives, is left out. `fresh` is the address that `malloc` gives to an inode, `fresh_dir` the one
-- that it gives to a directory.
use comp310_assignments.Prelude.{
  ℕ, ◌+◌, ◌-◌, ◌*◌, Bool, true, false, ◌||◌, not, [], Option, none, some, Text, codes, streq, ltb,
  ◌==◌, length,
}
use comp310_assignments.Fs.Cache.{Block}
use comp310_assignments.Fs.Inode.{InodeDisk}
use comp310_assignments.Fs.Inode.Reserve.{Disk}
use comp310_assignments.Fs.Inode.Update.{inode_write_at}
use comp310_assignments.Fs.Inode.Open.{find_addr, inode_create, inode_open, inode_close}
use comp310_assignments.Fs.File.{change_inode}
use comp310_assignments.Fs.Directory.{
  DirEntry, EntryLayout, DirState, put_dir, set_cache, name_max, read_entry, scan_entries, lookup,
}

abbrev pub root_dir_sector : ℕ
root_dir_sector = 1

module _ {M : Type 0} (words : Block → ℕ → ℕ) (set_word : Block → ℕ → ℕ → Block)
    (free_map_allocate : Disk M → Option ℕ × Disk M) (free_map_release : ℕ → Disk M → Disk M)
    (encode : InodeDisk → Block) (decode : Block → InodeDisk) (layout : EntryLayout) where
  -- `inode_open`: the address of the inode.
  unfoldable pub open_sector : (fresh sector : ℕ) → DirState M → Option (ℕ × DirState M)
  open_sector fresh sector s = elim (inode_open decode fresh sector s.opened) [
    | none ↦ none
    | some (a, o) ↦ some (a, record s { opened = o })
  ]

  unfoldable pub close_inode : (addr : ℕ) → DirState M → Option (DirState M)
  close_inode a s = elim (inode_close words free_map_release a s.opened) [
    | none ↦ none
    | some o ↦ some (record s { opened = o })
  ]

  -- The position is behind the entry of the parent.
  unfoldable pub dir_open : (fresh_dir inode : ℕ) → DirState M → DirState M
  dir_open d inode s = record s {
    dirs = put_dir d (record { inode = inode; pos = layout.size; open_cnt = 1 }) s.dirs;
  }

  -- The directory that was opened, and the state.
  unfoldable pub dir_open_root : (fresh_dir fresh : ℕ) → DirState M → Option (ℕ × DirState M)
  dir_open_root d fresh s = elim s.cwd [
    | some cwd ↦ some (
      cwd,
      record s {
        dirs = put_dir cwd (record (s.dirs cwd) { open_cnt = (s.dirs cwd).open_cnt + 1 }) s.dirs;
      },
    )
    | none ↦ elim (open_sector fresh root_dir_sector s) [
      | none ↦ none
      | some (a, s1) ↦ some (d, record (dir_open d a s1) { cwd = some d })
    ]
  ]

  unfoldable pub dir_reopen : (fresh_dir dir : ℕ) → DirState M → DirState M
  dir_reopen d dir s = dir_open d (s.dirs dir).inode s

  -- The last close of any directory sets `cwd` to NULL.
  unfoldable pub dir_close : (dir : ℕ) → DirState M → Option (DirState M)
  dir_close d s = elim ((s.dirs d).open_cnt == 1) [
    | false ↦ some (record s {
      dirs = put_dir d (record (s.dirs d) { open_cnt = (s.dirs d).open_cnt - 1 }) s.dirs;
    })
    | true ↦ elim (close_inode (s.dirs d).inode s) [
      | none ↦ none
      | some s1 ↦ some (record s1 { cwd = none })
    ]
  ]

  -- `inode_write_at(inode, &e, sizeof e, ofs) == sizeof e`
  unfoldable pub write_entry : (addr ofs : ℕ) → DirEntry → DirState M → Option (Bool × DirState M)
  write_entry a ofs e s = elim (find_addr a s.opened.open_inodes) [
    | none ↦ none
    | some o ↦
        elim (inode_write_at words set_word free_map_allocate encode o.inode layout.size ofs
          (layout.encode_entry e) s.opened.disk) [
            | none ↦ none
            | some r ↦ some (
              r.bytes_written == layout.size,
              record s {
                opened = record {
                  open_inodes = change_inode (λ i. r.inode) a s.opened.open_inodes;
                  disk = r.disk;
                };
              },
            )
          ]
  ]

  unfoldable pub dir_create :
      (fresh_dir fresh sector entry_cnt : ℕ) → DirState M → Option (Bool × DirState M)
  dir_create d fresh sector entry_cnt s =
      elim (inode_create words set_word free_map_allocate encode sector (entry_cnt * layout.size)
        true s.opened.disk) [
          | none ↦ none
          | some (false, disk) ↦
              some (false, record s { opened = record (s.opened) { disk = disk } })
          | some (true, disk) ↦
              elim (open_sector fresh sector
                (record s { opened = record (s.opened) { disk = disk } })) [
                  | none ↦ none
                  | some (a, s1) ↦
                      elim (write_entry a 0
                        (record { inode_sector = sector; name = []; in_use = true })
                        (dir_open d a s1)) [
                          | none ↦ none
                          | some (success, s2) ↦ elim (dir_close d s2) [
                            | none ↦ none
                            | some s3 ↦ some (success, s3)
                          ]
                        ]
                ]
        ]

  -- `lookup` in the directory of an inode that is open.
  unfoldable pub lookup_in :
      (addr : ℕ) → Text → DirState M → Option ((Option DirEntry × ℕ) × DirState M)
  lookup_in a name s = elim (find_addr a s.opened.open_inodes) [
    | none ↦ none
    | some o ↦ elim (lookup words layout o.inode.contents name s.opened.disk.cache) [
      | none ↦ none
      | some (found, c) ↦ some (found, set_cache c s)
    ]
  ]

  -- The sector of the parent's inode, from the first entry.
  unfoldable pub parent_of : (addr : ℕ) → DirState M → Option (ℕ × DirState M)
  parent_of a s = elim (find_addr a s.opened.open_inodes) [
    | none ↦ none
    | some o ↦ elim (read_entry words layout o.inode.contents 0 s.opened.disk.cache) [
      | none ↦ none
      | some (none, c) ↦ none
      | some (some e, c) ↦ some (e.inode_sector, set_cache c s)
    ]
  ]

  -- The address of the inode; `none` inside is NULL.
  unfoldable pub dir_lookup : (fresh dir : ℕ) → Text → DirState M → Option (Option ℕ × DirState M)
  dir_lookup fresh d name s = elim (streq name (codes ".")) [
    | true ↦ some (some (s.dirs d).inode, s)
    | false ↦ elim (streq name (codes "..")) [
      | true ↦ elim (parent_of (s.dirs d).inode s) [
        | none ↦ none
        | some (sector, s1) ↦ elim (open_sector fresh sector s1) [
          | none ↦ none
          | some (a, s2) ↦ some (some a, s2)
        ]
      ]
      | false ↦ elim (lookup_in (s.dirs d).inode name s) [
        | none ↦ none
        | some ((none, ofs), s1) ↦ some (none, s1)
        | some ((some e, ofs), s1) ↦ elim (open_sector fresh e.inode_sector s1) [
          | none ↦ none
          | some (a, s2) ↦ some (some a, s2)
        ]
      ]
    ]
  ]

  -- The first entry of a new directory gets the sector of its parent. Its name, which the source leaves
  -- without a value, is `garbage`.
  unfoldable pub set_parent :
      (fresh_dir fresh sector parent : ℕ)
      → (garbage : Text) → DirState M
      → Option (Bool × DirState M)
  set_parent child fresh sector parent garbage s = elim (open_sector fresh sector s) [
    | none ↦ none
    | some (a, s1) ↦
        elim (write_entry a 0 (record { inode_sector = parent; name = garbage; in_use = true })
          (dir_open child a s1)) [
            | none ↦ none
            | some (success, s2) ↦ elim (dir_close child s2) [
              | none ↦ none
              | some s3 ↦ some (success, s3)
            ]
          ]
  ]

  -- The entry goes into the first place that is not in use, or behind the last entry.
  unfoldable pub add_entry :
      (addr : ℕ) → (name : Text) → (sector : ℕ) → DirState M → Option (Bool × DirState M)
  add_entry a name sector s = elim (find_addr a s.opened.open_inodes) [
    | none ↦ none
    | some o ↦
        elim (scan_entries words layout (o.inode.contents.length + 1) (λ e. not e.in_use)
          o.inode.contents 0 s.opened.disk.cache) [
            | none ↦ none
            | some ((found, ofs), c) ↦
                write_entry a ofs (record { inode_sector = sector; name = name; in_use = true })
                  (set_cache c s)
          ]
  ]

  unfoldable pub dir_add :
      (fresh_dir fresh : ℕ)
      → (garbage : Text) → (dir : ℕ) → Text
      → (sector : ℕ) → (is_dir : Bool) → DirState M
      → Option (Bool × DirState M)
  dir_add child fresh garbage d name sector is_dir s =
      elim (length name == 0 || ltb name_max (length name)) [
        | true ↦ some (false, s)
        | false ↦ elim (lookup_in (s.dirs d).inode name s) [
          | none ↦ none
          | some ((some e, ofs), s1) ↦ some (false, s1)
          | some ((none, ofs), s1) ↦ elim is_dir [
            | false ↦ add_entry (s.dirs d).inode name sector s1
            | true ↦ elim (find_addr (s.dirs d).inode s1.opened.open_inodes) [
              | none ↦ none
              | some o ↦ elim (set_parent child fresh sector o.inode.sector garbage s1) [
                | none ↦ none
                | some (false, s2) ↦ some (false, s2)
                | some (true, s2) ↦ add_entry (s.dirs d).inode name sector s2
              ]
            ]
          ]
        ]
      ]
