-- ===== src/Fs/Directory.antt =====
-- a3/fs/directory.c: a directory is a file of entries, the first of which names its parent. How the compiler
-- lays a `struct dir_entry` out is a parameter. A `struct dir *` is a number, behind which `dirs` has the
-- directory; `malloc` gives it, and the address of an inode, as an argument. `none` is a cache that runs out
-- of fuel, an inode that is not open, or an entry that was not read.
pub mod Change
pub mod Paths
pub mod Entries
pub mod Refused
pub mod Written
pub mod Added
pub mod RoundTrip
use comp310_assignments.Prelude.{
  ℕ, zero, suc, ◌+◌, ◌-◌, ◌*◌, Bool, true, false, ◌&&◌, ◌||◌, not, List, [], ◌∷◌, Option, none,
  some, Text, codes, streq, ltb, ◌==◌, if◌then◌else◌, length, take,
}
use comp310_assignments.Fs.Cache.{Block, Cache}
use comp310_assignments.Fs.Inode.{InodeDisk, Inode}
use comp310_assignments.Fs.Inode.Access.{inode_read_at}
use comp310_assignments.Fs.Inode.Reserve.{Disk}
use comp310_assignments.Fs.Inode.Update.{inode_write_at, inode_remove}
use comp310_assignments.Fs.Inode.Open.{
  OpenInode, OpenState, find_addr, inode_create, inode_open, inode_reopen, inode_close,
}
use comp310_assignments.Fs.File.{change_inode}

abbrev pub name_max : ℕ
name_max = 30

-- `struct dir_entry`; its name ends before the NUL.
pub record DirEntry : Type 0 where
  pub inode_sector : ℕ
  pub name : Text
  pub in_use : Bool

-- `sizeof(struct dir_entry)`, and the bytes of an entry.
pub record EntryLayout : Type 0 where
  pub size : ℕ
  pub encode_entry : DirEntry → List ℕ
  pub decode_entry : List ℕ → DirEntry

-- `struct dir`
pub record Dir : Type 0 where
  pub inode : ℕ
  pub pos : ℕ
  pub open_cnt : ℕ

-- The open inodes and disk, the directories, and `cwd`.
pub record DirState (M : Type 0) : Type 0 where
  pub opened : OpenState M
  pub dirs : ℕ → Dir
  pub cwd : Option ℕ

abbrev pub put_dir : ℕ → Dir → (ℕ → Dir) → ℕ → Dir
put_dir d x dirs e = if d == e then x else dirs e

unfoldable pub set_cache : {M : Type 0} → Cache → DirState M → DirState M
set_cache c s = record s {
  opened = record (s.opened) { disk = record (s.opened.disk) { cache = c } };
}

module _ (words : Block → ℕ → ℕ) (layout : EntryLayout) where
  -- `inode_read_at(inode, &e, sizeof e, ofs) == sizeof e`: the entry, where all of it was read.
  unfoldable pub read_entry : InodeDisk → (ofs : ℕ) → Cache → Option (Option DirEntry × Cache)
  read_entry inode ofs c = elim (inode_read_at words inode layout.size ofs c) [
    | none ↦ none
    | some (bytes, c') ↦
        some (if length bytes == layout.size then some (layout.decode_entry bytes) else none, c')
  ]

  -- The loop over the entries from `ofs` on, up to one that passes the test: the entry, and where the loop
  -- ended. Every round is at a later byte of the file.
  unfoldable pub scan_entries :
      (fuel : ℕ)
      → (DirEntry → Bool)
      → InodeDisk
      → (ofs : ℕ) → Cache
      → Option ((Option DirEntry × ℕ) × Cache)
  scan_entries zero test inode ofs c = none
  scan_entries (suc f) test inode ofs c = elim (read_entry inode ofs c) [
    | none ↦ none
    | some (none, c') ↦ some ((none, ofs), c')
    | some (some e, c') ↦ elim (test e) [
      | true ↦ some ((some e, ofs), c')
      | false ↦ scan_entries f test inode (ofs + layout.size) c'
    ]
  ]

  unfoldable pub has_name : Text → DirEntry → Bool
  has_name name e = e.in_use && streq name e.name

  -- The entry of a name behind the first entry, and its offset.
  unfoldable pub lookup : InodeDisk → Text → Cache → Option ((Option DirEntry × ℕ) × Cache)
  lookup inode name c = scan_entries (inode.length + 1) (has_name name) inode layout.size c

  -- Whether no entry was found.
  unfoldable pub is_none : {A : Type 0} → Option A → Bool
  is_none none = true
  is_none (some a) = false

  unfoldable pub dir_is_empty : InodeDisk → Cache → Option (Bool × Cache)
  dir_is_empty inode c =
      elim (scan_entries (inode.length + 1) (λ e. e.in_use) inode layout.size c) [
        | none ↦ none
        | some ((found, ofs), c') ↦ some (is_none found, c')
      ]

  -- The entry that is read next, where `name` and the sector come from; the position goes behind it.
  unfoldable pub dir_readdir :
      {M : Type 0} → (d : ℕ) → DirState M → Option (Option DirEntry × DirState M)
  dir_readdir d s = elim (find_addr (s.dirs d).inode s.opened.open_inodes) [
    | none ↦ none
    | some o ↦
        elim (scan_entries (o.inode.contents.length + 1) (λ e. e.in_use) o.inode.contents
          (s.dirs d).pos s.opened.disk.cache) [
            | none ↦ none
            | some ((found, ofs), c) ↦
                let pos = if is_none found then ofs else ofs + layout.size in
                let s1 = set_cache c s in
                some
                  (found, record s1 { dirs = put_dir d (record (s.dirs d) { pos = pos }) s.dirs })
          ]
  ]
