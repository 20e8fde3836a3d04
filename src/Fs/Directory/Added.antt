-- ===== src/Fs/Directory/Added.antt =====
-- The parts of dir_add of a3/fs/directory.c where it adds a file.
use comp310_assignments.Prelude.{
  ℕ, zero, suc, ◌+◌, ◌≤◌, ◌<◌, ◌≡◌, refl, ap, subst, Bool, true, false, ◌||◌, not, List, [], ◌∷◌,
  Option, none, some, Text, ltb, ◌==◌, length, arith, inl, inr, Bool-cases,
}
use comp310_assignments.Fs.Cache.{Block, Cache}
use comp310_assignments.Fs.Inode.{InodeDisk, Inode}
use comp310_assignments.Fs.Inode.Reserve.{Disk}
use comp310_assignments.Fs.Inode.Update.{inode_write_at}
use comp310_assignments.Fs.Inode.Open.{OpenInode, find_addr}
use comp310_assignments.Fs.File.{change_inode}
use comp310_assignments.Fs.Directory.{
  DirEntry, EntryLayout, DirState, set_cache, scan_entries, lookup,
}
use comp310_assignments.Fs.Directory.Change.{write_entry, lookup_in, add_entry, dir_add}
use comp310_assignments.Fs.Directory.Entries.{first_entry, entry_at, entries}

abbrev pub with_change : (Inode → Inode) → OpenInode → OpenInode
with_change change o = record o { inode = change o.inode }

pub find_addr-change_inode :
    (change : Inode → Inode) (a : ℕ) (l : List OpenInode) (o : OpenInode)
    → find_addr a l ≡ some o
    → find_addr a (change_inode change a l) ≡ some (with_change change o)
unfolding find_addr change_inode
find_addr-change_inode change a [] o e = cc
find_addr-change_inode change a (x ∷ l) o e = elim (Bool-cases (x.addr == a)) [
  | inl same ↦
      let here : x ≡ o = cc in
      rw (same, change_inode, find_addr, same) (ap (λ y. some (with_change change y)) here)
  | inr other ↦
      let rest = find_addr-change_inode change a l o (rw (other, find_addr) at e) in
      rw (other, change_inode, find_addr, other) rest
]

module _ (words : Block → ℕ → ℕ) (layout : EntryLayout) (content : ℕ → Block)
    (inode : InodeDisk) where
  pub first_entry-inside :
      (test : DirEntry → Bool) (f o end : ℕ) (e : DirEntry) (at : ℕ)
      → first_entry test (entries words layout content inode f o) end ≡ (some e, at)
      → at + layout.size ≤ inode.length
  first_entry-inside test zero o end e at found = absurd (cc (ap (λ r. r.0) found))
  first_entry-inside test (suc f) o end e at found =
      elim (Bool-cases (ltb inode.length (o + layout.size))) [
        | inl outside ↦ absurd (cc (ap (λ r. r.0) (rw outside at found)))
        | inr room ↦ elim (Bool-cases (test (entry_at words layout content inode o))) [
          | inl passes ↦
              let same : o ≡ at = ap (λ r. r.1) (rw (room, passes) at found) in ground arith
          | inr fails ↦
              first_entry-inside test f (o + layout.size) end e at (rw (room, fails) at found)
        ]
      ]

  -- The search that starts at the first entry and ends behind it goes on at the second.
  pub first_entry-second :
      (test : DirEntry → Bool) (f end : ℕ) (e : DirEntry) (at : ℕ)
      → 0 < at
      → first_entry test (entries words layout content inode (suc f) 0) end ≡ (some e, at)
      → first_entry test (entries words layout content inode f layout.size) end ≡ (some e, at)
  first_entry-second test f end e at late found =
      elim (Bool-cases (ltb inode.length (0 + layout.size))) [
        | inl outside ↦ absurd (cc (ap (λ r. r.0) (rw outside at found)))
        | inr room ↦ elim (Bool-cases (test (entry_at words layout content inode 0))) [
          | inl passes ↦
              let same : 0 ≡ at = ap (λ r. r.1) (rw (room, passes) at found) in absurd (omega arith)
          | inr fails ↦
              let start : 0 + layout.size ≡ layout.size = omega arith in
              subst
                (λ o. first_entry test (entries words layout content inode f o) end ≡ (some e, at))
                start (rw (room, fails) at found)
        ]
      ]

module _ {M : Type 0} (words : Block → ℕ → ℕ) (set_word : Block → ℕ → ℕ → Block)
    (free_map_allocate : Disk M → Option ℕ × Disk M) (free_map_release : ℕ → Disk M → Disk M)
    (encode : InodeDisk → Block) (decode : Block → InodeDisk) (layout : EntryLayout) where
  pub write_entry-some :
      (a ofs : ℕ) (e : DirEntry) (s : DirState M) (o : OpenInode) (c : Cache)
      → find_addr a s.opened.open_inodes ≡ some o
      → inode_write_at words set_word free_map_allocate encode o.inode layout.size ofs
          (layout.encode_entry e)
          s.opened.disk
        ≡ some (record {
          bytes_written = layout.size;
          inode = o.inode;
          disk = record (s.opened.disk) { cache = c };
        })
      → write_entry words set_word free_map_allocate free_map_release encode decode layout a ofs e s
        ≡ some (
          true,
          record s {
            opened = record {
              open_inodes = change_inode (λ i. o.inode) a s.opened.open_inodes;
              disk = record (s.opened.disk) { cache = c };
            };
          },
        )
  unfolding write_entry
  write_entry-some a ofs e s o c found ran =
      let all : (layout.size == layout.size) ≡ true = ground arith in
      rw (found, ran, all, write_entry) refl

  pub add_entry-some :
      (a : ℕ) (name : Text) (sector : ℕ) (s : DirState M) (o : OpenInode) (found : Option DirEntry)
      (ofs : ℕ) (c : Cache)
      → find_addr a s.opened.open_inodes ≡ some o
      → scan_entries words layout
          (o.inode.contents.length + 1)
          (λ e. not e.in_use)
          o.inode.contents
          0
          s.opened.disk.cache
        ≡ some ((found, ofs), c)
      → add_entry words set_word free_map_allocate free_map_release encode decode layout a name
          sector s
        ≡ write_entry words set_word free_map_allocate free_map_release encode decode layout a ofs
            (record { inode_sector = sector; name = name; in_use = true })
            (set_cache c s)
  unfolding add_entry
  add_entry-some a name sector s o found ofs c e ran = rw (e, ran, add_entry) refl

  pub dir_add-new :
      (child fresh : ℕ) (garbage : Text) (d : ℕ) (name : Text) (sector : ℕ) (s : DirState M)
      (o : OpenInode) (last : ℕ) (c : Cache)
      → 0 < length name
      → length name < 31
      → find_addr (s.dirs d).inode s.opened.open_inodes ≡ some o
      → lookup words layout o.inode.contents name s.opened.disk.cache ≡ some ((none, last), c)
      → dir_add words set_word free_map_allocate free_map_release encode decode layout child fresh
          garbage d name sector false s
        ≡ add_entry words set_word free_map_allocate free_map_release encode decode layout
            (s.dirs d).inode
            name
            sector
            (set_cache c s)
  unfolding dir_add lookup_in
  dir_add-new child fresh garbage d name sector s o last c some_name fits found ran =
      let good : (length name == 0 || ltb 30 (length name)) ≡ false = ground arith in
      rw (good, found, ran, dir_add, lookup_in) refl

  pub lookup_in-some :
      (a : ℕ) (name : Text) (s : DirState M) (o : OpenInode) (r : Option DirEntry × ℕ) (c : Cache)
      → find_addr a s.opened.open_inodes ≡ some o
      → lookup words layout o.inode.contents name s.opened.disk.cache ≡ some (r, c)
      → lookup_in words set_word free_map_allocate free_map_release encode decode layout a name s
        ≡ some (r, set_cache c s)
  unfolding lookup_in
  lookup_in-some a name s o r c found ran = rw (found, ran, lookup_in) refl
