-- ===== src/Fs/File.antt =====
-- a3/fs/file.c: open files and the table of them by name. A `struct file *` is a number, behind which
-- `files` has the file; its inode is the address of an open inode. `none` is an address that is no open
-- inode's, a cache that runs out of fuel, or a position below 0, which file_write can come to.
pub mod Table
use comp310_assignments.Prelude.{
  ℕ, zero, suc, ◌+◌, ◌-◌, Bool, true, false, List, [], ◌∷◌, Option, none, some, Text, streq, ◌==◌,
  if◌then◌else◌, ltb, length, set,
}
use comp310_assignments.Fs.Cache.{Block}
use comp310_assignments.Fs.Inode.{InodeDisk, Inode}
use comp310_assignments.Fs.Inode.Access.{inode_read_at}
use comp310_assignments.Fs.Inode.Reserve.{Disk}
use comp310_assignments.Fs.Inode.Update.{inode_deny_write, inode_allow_write, inode_write_at}
use comp310_assignments.Fs.Inode.Open.{OpenInode, OpenState, find_addr, inode_close}

pub record FileTableEntry : Type 0 where
  pub fname : Text
  pub file : ℕ

-- `struct file`
pub record File : Type 0 where
  pub inode : ℕ
  pub pos : ℕ
  pub deny_write : Bool

pub record FileState (M : Type 0) : Type 0 where
  pub file_table : List FileTableEntry
  pub files : ℕ → File
  pub opened : OpenState M

abbrev pub put_file : ℕ → File → (ℕ → File) → ℕ → File
put_file f x files g = if f == g then x else files g

-- A change of the inode at an address.
unfoldable pub change_inode : (Inode → Inode) → ℕ → List OpenInode → List OpenInode
change_inode change a [] = []
change_inode change a (o ∷ l) = elim (o.addr == a) [
  | true ↦ record o { inode = change o.inode } ∷ l
  | false ↦ o ∷ change_inode change a l
]

unfoldable pub get_file_by_fname : Text → List FileTableEntry → Option ℕ
get_file_by_fname fname [] = none
get_file_by_fname fname (e ∷ t) = elim (streq e.fname fname) [
  | true ↦ some e.file
  | false ↦ get_file_by_fname fname t
]

unfoldable pub push_entry : FileTableEntry → List FileTableEntry → List FileTableEntry
push_entry e [] = e ∷ []
push_entry e (x ∷ t) = x ∷ push_entry e t

unfoldable pub add_to_file_table :
    (file : ℕ) → (fname : Text) → List FileTableEntry → List FileTableEntry
add_to_file_table file fname t = elim (get_file_by_fname fname t) [
  | some f ↦ t
  | none ↦ push_entry (record { fname = fname; file = file }) t
]

-- The table without the first entry of the name.
unfoldable pub remove_entry : Text → List FileTableEntry → List FileTableEntry
remove_entry fname [] = []
remove_entry fname (e ∷ t) = elim (streq e.fname fname) [
  | true ↦ t
  | false ↦ e ∷ remove_entry fname t
]

module _ {M : Type 0} where
  -- `file_open` of an inode that is not NULL.
  unfoldable pub file_open : (fresh inode : ℕ) → FileState M → FileState M
  file_open fresh inode s = record s {
    files = put_file fresh (record { inode = inode; pos = 0; deny_write = false }) s.files;
  }

  unfoldable pub set_deny : (f : ℕ) → Bool → (Inode → Inode) → FileState M → FileState M
  set_deny f deny change s = record s {
    files = put_file f (record (s.files f) { deny_write = deny }) s.files;
    opened = record (s.opened) {
      open_inodes = change_inode change (s.files f).inode s.opened.open_inodes;
    };
  }

  unfoldable pub file_deny_write : (f : ℕ) → FileState M → FileState M
  file_deny_write f s = if (s.files f).deny_write then s else set_deny f true inode_deny_write s

  unfoldable pub file_allow_write : (f : ℕ) → FileState M → FileState M
  file_allow_write f s = if (s.files f).deny_write then set_deny f false inode_allow_write s else s

  unfoldable pub file_seek : (f new_pos : ℕ) → FileState M → FileState M
  file_seek f new_pos s = record s {
    files = put_file f (record (s.files f) { pos = new_pos }) s.files;
  }

module _ {M : Type 0} (words : Block → ℕ → ℕ) (free_map_release : ℕ → Disk M → Disk M) where
  unfoldable pub file_close : (f : ℕ) → FileState M → Option (FileState M)
  file_close f s =
      let s1 = file_allow_write f s in
      elim (inode_close words free_map_release (s1.files f).inode s1.opened) [
        | none ↦ none
        | some o ↦ some (record s1 { opened = o })
      ]

  -- The value is whether the name was in the table.
  unfoldable pub remove_from_file_table : Text → FileState M → Option (Bool × FileState M)
  remove_from_file_table fname s = elim (get_file_by_fname fname s.file_table) [
    | none ↦ some (false, s)
    | some f ↦ elim (file_close f s) [
      | none ↦ none
      | some s1 ↦ some (true, record s1 { file_table = remove_entry fname s1.file_table })
    ]
  ]

  -- The bytes that were read.
  unfoldable pub file_read : (f size : ℕ) → FileState M → Option (List ℕ × FileState M)
  file_read f size s = elim (find_addr (s.files f).inode s.opened.open_inodes) [
    | none ↦ none
    | some o ↦
        elim (inode_read_at words o.inode.contents size (s.files f).pos s.opened.disk.cache) [
          | none ↦ none
          | some (bytes, c) ↦
              let file = s.files f in
              some (
                bytes,
                record s {
                  files = put_file f (record file { pos = file.pos + length bytes }) s.files;
                  opened = record (s.opened) { disk = record (s.opened.disk) { cache = c } };
                },
              )
        ]
  ]

module _ {M : Type 0} (words : Block → ℕ → ℕ) (set_word : Block → ℕ → ℕ → Block)
    (free_map_allocate : Disk M → Option ℕ × Disk M) (encode : InodeDisk → Block) where
  -- The last byte of the buffer is set to 0 first, for a size above 0. The position goes on by two less
  -- than what was written.
  unfoldable pub file_write : (f size : ℕ) → List ℕ → FileState M → Option (ℕ × FileState M)
  file_write f size buffer s = elim (find_addr (s.files f).inode s.opened.open_inodes) [
    | none ↦ none
    | some o ↦
        elim (inode_write_at words set_word free_map_allocate encode o.inode size (s.files f).pos
          (set buffer (size - 1) 0) s.opened.disk) [
            | none ↦ none
            | some r ↦
                let file = s.files f in
                if ltb (file.pos + r.bytes_written) 2
                then none
                else some (
                  r.bytes_written,
                  record s {
                    files =
                        put_file f (record file { pos = file.pos + r.bytes_written - 2 }) s.files;
                    opened = record {
                      open_inodes = change_inode (λ i. r.inode) file.inode s.opened.open_inodes;
                      disk = r.disk;
                    };
                  },
                )
          ]
  ]
