-- ===== src/Fs/Directory/Refused.antt =====
-- dir_add of a3/fs/directory.c refuses a name that is not valid or that is there.
use comp310_assignments.Prelude.{
  ℕ, ◌+◌, ◌<◌, ◌≡◌, refl, ap, ◌∙◌, Bool, true, false, ◌||◌, Option, some, Text, ltb, ◌==◌, length,
  arith, ◌⊎◌, inl, inr, Nat-order,
}
use comp310_assignments.Fs.Cache.{Block, Cache}
use comp310_assignments.Fs.Inode.{InodeDisk}
use comp310_assignments.Fs.Inode.Access.Read.{StandsFor}
use comp310_assignments.Fs.Inode.Reserve.{Disk}
use comp310_assignments.Fs.Inode.Open.{OpenInode, find_addr}
use comp310_assignments.Fs.Directory.{DirEntry, EntryLayout, DirState, set_cache, has_name, lookup}
use comp310_assignments.Fs.Directory.Change.{lookup_in, dir_add}
use comp310_assignments.Fs.Directory.Entries.{first_entry, children, end_of_entries, lookup_lem}

module _ {M : Type 0} (words : Block → ℕ → ℕ) (set_word : Block → ℕ → ℕ → Block)
    (free_map_allocate : Disk M → Option ℕ × Disk M) (free_map_release : ℕ → Disk M → Disk M)
    (encode : InodeDisk → Block) (decode : Block → InodeDisk) (layout : EntryLayout)
    (child fresh : ℕ) (garbage : Text) (d : ℕ) (name : Text) (sector : ℕ) (is_dir : Bool)
    (s : DirState M) where
  abbrev added : Option (Bool × DirState M)
  added =
      dir_add words set_word free_map_allocate free_map_release encode decode layout child fresh
        garbage d name sector is_dir s

  dir_add-invalid : (length name ≡ 0) ⊎ (30 < length name) → added ≡ some (false, s)
  unfolding dir_add
  dir_add-invalid h =
      let bad : (length name == 0 || ltb 30 (length name)) ≡ true = ground arith in
      rw (bad, dir_add) refl

  dir_add-there :
      (o : OpenInode) (e : DirEntry) (ofs : ℕ) (c1 : Cache)
      → 0 < length name
      → length name < 31
      → find_addr (s.dirs d).inode s.opened.open_inodes ≡ some o
      → lookup words layout o.inode.contents name s.opened.disk.cache ≡ some ((some e, ofs), c1)
      → added ≡ some (false, set_cache c1 s)
  unfolding dir_add lookup_in
  dir_add-there o e ofs c1 some_name fits found there =
      let good : (length name == 0 || ltb 30 (length name)) ≡ false = ground arith in
      rw (good, found, there, dir_add, lookup_in) refl

  -- An empty name, one of more than 30 characters, or one that an entry in use behind the first has.
  abbrev pub Refusal : OpenInode → (content : ℕ → Block) → Type 0
  Refusal o content =
      ((length name ≡ 0) ⊎ (30 < length name))
      ⊎ ((e : DirEntry) × (ofs : ℕ) × (first_entry (has_name words layout name)
              (children words layout content o.inode.contents)
              (end_of_entries words layout content o.inode.contents (o.inode.contents.length + 1)
                layout.size)
            ≡ (some e, ofs)))

  -- `dir_add` of an empty name, of one of more than 30 characters, or of one that an entry in use of the open
  -- directory has behind the first, returns false, whether a file or a directory is added. The content of the
  -- disk, the open inodes and the directories stay.
  pub dir_add-refused :
      (o : OpenInode) (content : ℕ → Block)
      → find_addr (s.dirs d).inode s.opened.open_inodes ≡ some o
      → StandsFor content s.opened.disk.cache
      → 0 < layout.size
      → Refusal o content
      → (c' : Cache) × (added ≡ some (false, set_cache c' s)) × StandsFor content c'
  unfolding set_cache
  dir_add-refused o content found h some_bytes (inl invalid) =
      (s.opened.disk.cache, dir_add-invalid invalid, h)
  dir_add-refused o content found h some_bytes (inr (e, ofs, first)) =
      elim (Nat-order (length name) 30) [
        | inr long ↦ (s.opened.disk.cache, dir_add-invalid (inr long), h)
        | inl fits ↦ elim (Nat-order (length name) 0) [
          | inl none' ↦ (s.opened.disk.cache, dir_add-invalid (inl (omega arith)), h)
          | inr some_name ↦
              let (c1, ran, h1) =
                lookup_lem words layout content o.inode.contents name s.opened.disk.cache h
                  some_bytes in
              (
                c1,
                dir_add-there o e ofs c1 some_name (omega arith) found
                    (ran ∙ ap (λ r. some (r, c1)) first),
                h1,
              )
        ]
      ]
