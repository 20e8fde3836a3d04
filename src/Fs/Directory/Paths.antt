-- ===== src/Fs/Directory/Paths.antt =====
-- a3/fs/directory.c: paths, and the removal of an entry. `none` is a use of an inode that was freed too.
use comp310_assignments.Prelude.{
  ℕ, ◌+◌, Bool, true, false, List, [], ◌∷◌, ◌++◌, Option, none, some, Text, ◌==◌, if◌then◌else◌,
  length,
}
use comp310_assignments.Fs.Cache.{Block}
use comp310_assignments.Fs.Inode.{InodeDisk}
use comp310_assignments.Fs.Inode.Reserve.{Disk}
use comp310_assignments.Fs.Inode.Update.{inode_remove}
use comp310_assignments.Fs.Inode.Open.{find_addr}
use comp310_assignments.Fs.File.{change_inode}
use comp310_assignments.Fs.Directory.{DirEntry, EntryLayout, DirState, set_cache, dir_is_empty}
use comp310_assignments.Fs.Directory.Change.{
  open_sector, close_inode, dir_open, dir_open_root, dir_reopen, dir_close, write_entry, lookup_in,
  dir_lookup,
}

abbrev pub slash : ℕ
slash = b'/'

-- A character in front of the first token.
unfoldable pub put_char : ℕ → List Text → List Text
put_char c [] = (c ∷ []) ∷ []
put_char c (t ∷ ts) = (c ∷ t) ∷ ts

-- The pieces between slashes, empty ones too.
unfoldable pub pieces : Text → List Text
pieces [] = [] ∷ []
pieces (c ∷ t) = let rest = pieces t in if c == slash then [] ∷ rest else put_char c rest

unfoldable pub drop_empty : List Text → List Text
drop_empty [] = []
drop_empty ([] ∷ ts) = drop_empty ts
drop_empty ((c ∷ t) ∷ ts) = (c ∷ t) ∷ drop_empty ts

-- What `strtok_r(s, "/", &p)` gives one after the other.
unfoldable pub tokens : Text → List Text
tokens path = drop_empty (pieces path)

unfoldable pub is_absolute : Text → Bool
is_absolute [] = false
is_absolute (c ∷ t) = c == slash

-- The loop: every token but the last goes into the directory, with a slash behind it.
unfoldable pub split_tokens : (directory last_token : Text) → List Text → Text × Text
split_tokens directory last_token [] = (directory, last_token)
split_tokens directory last_token (t ∷ ts) =
    split_tokens
      (if length last_token == 0 then directory else directory ++ last_token ++ slash ∷ []) t ts

-- The directory and the file name.
unfoldable pub split_path_filename : Text → Text × Text
split_path_filename path =
    split_tokens (if is_absolute path then slash ∷ [] else []) [] (tokens path)

module _ {M : Type 0} (words : Block → ℕ → ℕ) (set_word : Block → ℕ → ℕ → Block)
    (free_map_allocate : Disk M → Option ℕ × Disk M) (free_map_release : ℕ → Disk M → Disk M)
    (encode : InodeDisk → Block) (decode : Block → InodeDisk) (layout : EntryLayout) where
  -- One token of a path: the directory that it names, or NULL. The addresses are fresh.
  unfoldable pub enter :
      (fresh_dir fresh dir : ℕ) → Text → DirState M → Option (Option ℕ × DirState M)
  enter next fresh d token s =
      elim (dir_lookup words set_word free_map_allocate free_map_release encode decode layout fresh
        d token s) [
          | none ↦ none
          | some (none, s1) ↦
              elim (dir_close words set_word free_map_allocate free_map_release encode decode layout
                d s1) [ none ↦ none | some s2 ↦ some (none, s2) ]
          | some (some a, s1) ↦
              elim (dir_close words set_word free_map_allocate free_map_release encode decode layout
                d
                (dir_open words set_word free_map_allocate free_map_release encode decode layout
                  next a s1)) [ none ↦ none | some s2 ↦ some (some next, s2) ]
        ]

  -- The loop of dir_open_path; each token takes a fresh address for a directory and one for an inode.
  unfoldable pub open_tokens :
      (fresh : ℕ) → (dir : ℕ) → List Text → DirState M → Option (Option ℕ × DirState M)
  open_tokens fresh d [] s = some (some d, s)
  open_tokens fresh d (t ∷ ts) s = elim (enter fresh (fresh + 1) d t s) [
    | none ↦ none
    | some (none, s1) ↦ some (none, s1)
    | some (some next, s1) ↦ open_tokens (fresh + 2) next ts s1
  ]

  unfoldable pub start_dir :
      (fresh_dir fresh : ℕ) → (path : Text) → DirState M → Option (ℕ × DirState M)
  start_dir new fresh path s = elim s.cwd [
    | none ↦
        dir_open_root words set_word free_map_allocate free_map_release encode decode layout new
          fresh s
    | some cwd ↦
        if is_absolute path
        then dir_open_root words set_word free_map_allocate free_map_release encode decode layout
            new fresh s
        else some (
          new,
          dir_reopen words set_word free_map_allocate free_map_release encode decode layout new cwd
              s,
        )
  ]

  -- A directory that was removed is not opened. All addresses from `fresh` on are fresh.
  unfoldable pub dir_open_path : (fresh : ℕ) → Text → DirState M → Option (Option ℕ × DirState M)
  dir_open_path fresh path s = elim (start_dir fresh (fresh + 1) path s) [
    | none ↦ none
    | some (d, s1) ↦ elim (open_tokens (fresh + 2) d (tokens path) s1) [
      | none ↦ none
      | some (none, s2) ↦ some (none, s2)
      | some (some d', s2) ↦ elim (find_addr (s2.dirs d').inode s2.opened.open_inodes) [
        | none ↦ none
        | some o ↦ elim o.inode.removed [
          | false ↦ some (some d', s2)
          | true ↦
              elim (dir_close words set_word free_map_allocate free_map_release encode decode layout
                d' s2) [ none ↦ none | some s3 ↦ some (none, s3) ]
        ]
      ]
    ]
  ]

  -- The check of a directory that is to be removed: whether it is empty. It is opened and closed again,
  -- which closes the inode.
  unfoldable pub check_empty : (fresh_dir addr : ℕ) → DirState M → Option (Bool × DirState M)
  check_empty target a s = elim (find_addr a s.opened.open_inodes) [
    | none ↦ none
    | some o ↦ elim o.inode.contents.is_dir [
      | false ↦ some (true, s)
      | true ↦ elim (dir_is_empty words layout o.inode.contents s.opened.disk.cache) [
        | none ↦ none
        | some (is_empty, c) ↦
            elim (dir_close words set_word free_map_allocate free_map_release encode decode layout
              target
              (dir_open words set_word free_map_allocate free_map_release encode decode layout
                target a (set_cache c s))) [ none ↦ none | some s1 ↦ some (is_empty, s1) ]
      ]
    ]
  ]

  -- `inode_close` at the end; `none` where the inode was freed before.
  unfoldable pub finish : (addr : ℕ) → (success : Bool) → DirState M → Option (Bool × DirState M)
  finish a success s = elim (find_addr a s.opened.open_inodes) [
    | none ↦ none
    | some o ↦
        elim (close_inode words set_word free_map_allocate free_map_release encode decode layout a
          s) [ none ↦ none | some s1 ↦ some (success, s1) ]
  ]

  unfoldable pub erase : (dir addr ofs : ℕ) → DirEntry → DirState M → Option (Bool × DirState M)
  erase d a ofs e s =
      elim (write_entry words set_word free_map_allocate free_map_release encode decode layout
        (s.dirs d).inode ofs (record e { in_use = false }) s) [
          | none ↦ none
          | some (false, s1) ↦ finish a false s1
          | some (true, s1) ↦ finish a true (record s1 {
            opened = record (s1.opened) {
              open_inodes = change_inode inode_remove a s1.opened.open_inodes;
            };
          })
        ]

  unfoldable pub dir_remove :
      (fresh_dir fresh dir : ℕ) → Text → DirState M → Option (Bool × DirState M)
  dir_remove target fresh d name s =
      elim (lookup_in words set_word free_map_allocate free_map_release encode decode layout
        (s.dirs d).inode name s) [
          | none ↦ none
          | some ((none, ofs), s1) ↦ some (false, s1)
          | some ((some e, ofs), s1) ↦
              elim (open_sector words set_word free_map_allocate free_map_release encode decode
                layout fresh e.inode_sector s1) [
                  | none ↦ none
                  | some (a, s2) ↦ elim (check_empty target a s2) [
                    | none ↦ none
                    | some (false, s3) ↦ finish a false s3
                    | some (true, s3) ↦ erase d a ofs e s3
                  ]
                ]
        ]
