-- ===== src/Fs/FileSys.antt =====
-- filesys_create, filesys_open and filesys_remove of a3/fs/filesys.c. The arrays for the directory and the file
-- name have the size that they need. All addresses from `fresh` on are fresh. `none` is as in Fs.Directory, and
-- dir_close of NULL does nothing.
use comp310_assignments.Prelude.{
  ℕ, ◌+◌, Bool, true, false, ◌&&◌, not, [], ◌∷◌, Option, none, some, Text, ◌==◌, if◌then◌else◌,
  length,
}
use comp310_assignments.Fs.Cache.{Block}
use comp310_assignments.Fs.Inode.{InodeDisk}
use comp310_assignments.Fs.Inode.Reserve.{Disk}
use comp310_assignments.Fs.Inode.Open.{find_addr, inode_create}
use comp310_assignments.Fs.Directory.{EntryLayout, DirState}
use comp310_assignments.Fs.Directory.Change.{dir_open_root, dir_close, dir_lookup, dir_add}
use comp310_assignments.Fs.Directory.Paths.{split_path_filename, dir_open_path, dir_remove}

unfoldable pub set_disk : {M : Type 0} → Disk M → DirState M → DirState M
set_disk d s = record s { opened = record (s.opened) { disk = d } }

module _ {M : Type 0} (words : Block → ℕ → ℕ) (set_word : Block → ℕ → ℕ → Block)
    (free_map_allocate : Disk M → Option ℕ × Disk M) (free_map_release : ℕ → Disk M → Disk M)
    (encode : InodeDisk → Block) (decode : Block → InodeDisk) (layout : EntryLayout) where
  -- The inode and the entry of a new file, whose sector was allocated.
  unfoldable pub create_in :
      (fresh : ℕ)
      → (garbage : Text) → (dir : ℕ) → (name : Text) → (sector initial_size : ℕ) → (is_dir : Bool)
      → DirState M
      → Option (Bool × DirState M)
  create_in fresh garbage d name sector initial_size is_dir s =
      elim (inode_create words set_word free_map_allocate encode sector initial_size is_dir
        s.opened.disk) [
          | none ↦ none
          | some (false, disk) ↦ some (false, set_disk disk s)
          | some (true, disk) ↦
              dir_add words set_word free_map_allocate free_map_release encode decode layout fresh
                (fresh + 1) garbage d name sector is_dir (set_disk disk s)
        ]

  -- Sector 0 is not released: it stands for none.
  unfoldable pub release_failed : (success : Bool) → (sector : ℕ) → DirState M → DirState M
  release_failed success sector s =
      if not success && not (sector == 0)
      then set_disk (free_map_release sector s.opened.disk) s
      else s

  unfoldable pub filesys_create :
      (fresh : ℕ)
      → (garbage path : Text) → (initial_size : ℕ) → (is_dir : Bool) → DirState M
      → Option (Bool × DirState M)
  filesys_create fresh garbage path initial_size is_dir s =
      elim (dir_open_root words set_word free_map_allocate free_map_release encode decode layout
        fresh (fresh + 1) s) [
          | none ↦ none
          | some (d, s1) ↦
              let (found, disk) = free_map_allocate s1.opened.disk in
              elim found [
                | none ↦
                    elim (dir_close words set_word free_map_allocate free_map_release encode decode
                      layout d (set_disk disk s1)) [ none ↦ none | some s2 ↦ some (false, s2) ]
                | some sector ↦
                    elim (create_in (fresh + 2) garbage d (split_path_filename path).1 sector
                      initial_size is_dir (set_disk disk s1)) [
                        | none ↦ none
                        | some (success, s2) ↦
                            elim (dir_close words set_word free_map_allocate free_map_release encode
                              decode layout d (release_failed success sector s2)) [
                                | none ↦ none
                                | some s3 ↦ some (success, s3)
                              ]
                      ]
              ]
        ]

  -- The inode that is opened as a file, if any; a removed one is not.
  unfoldable pub usable : Option ℕ → DirState M → Option (Option ℕ × DirState M)
  usable none s = some (none, s)
  usable (some a) s = elim (find_addr a s.opened.open_inodes) [
    | none ↦ none
    | some o ↦ some (if o.inode.removed then none else some a, s)
  ]

  -- The address of the inode that file_open gets. The directory of an empty file name is not closed.
  unfoldable pub filesys_open :
      (fresh : ℕ) → (name : Text) → DirState M → Option (Option ℕ × DirState M)
  filesys_open fresh [] s = some (none, s)
  filesys_open fresh (c ∷ name) s =
      elim (dir_open_root words set_word free_map_allocate free_map_release encode decode layout
        fresh (fresh + 1) s) [
          | none ↦ none
          | some (d, s1) ↦ elim (length (split_path_filename (c ∷ name)).1 == 0) [
            | true ↦ usable (some (s1.dirs d).inode) s1
            | false ↦
                elim (dir_lookup words set_word free_map_allocate free_map_release encode decode
                  layout (fresh + 2) d (split_path_filename (c ∷ name)).1 s1) [
                    | none ↦ none
                    | some (found, s2) ↦
                        elim (dir_close words set_word free_map_allocate free_map_release encode
                          decode layout d s2) [ none ↦ none | some s3 ↦ usable found s3 ]
                  ]
          ]
        ]

  unfoldable pub filesys_remove :
      (fresh fresh_dir fresh_inode : ℕ) → (name : Text) → DirState M → Option (Bool × DirState M)
  filesys_remove fresh target fresh_inode name s =
      elim (dir_open_path words set_word free_map_allocate free_map_release encode decode layout
        fresh (split_path_filename name).0 s) [
          | none ↦ none
          | some (none, s1) ↦ some (false, s1)
          | some (some d, s1) ↦
              elim (dir_remove words set_word free_map_allocate free_map_release encode decode
                layout target fresh_inode d (split_path_filename name).1 s1) [
                  | none ↦ none
                  | some (success, s2) ↦
                      elim (dir_close words set_word free_map_allocate free_map_release encode
                        decode layout d s2) [ none ↦ none | some s3 ↦ some (success, s3) ]
                ]
        ]
