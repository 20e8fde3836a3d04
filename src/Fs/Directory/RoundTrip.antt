-- ===== src/Fs/Directory/RoundTrip.antt =====
-- dir_add of a3/fs/directory.c adds a file that lookup finds.
use comp310_assignments.Prelude.{
  ℕ, suc, ◌+◌, ◌-◌, ◌/◌, ◌<◌, ◌≡◌, ◌≢◌, ap, ◌∙◌, subst, true, false, not, Option, none, some, Text,
  streq_self, length, arith,
}
use comp310_assignments.Fs.Cache.{Block}
use comp310_assignments.Fs.Inode.{InodeDisk, no_sector}
use comp310_assignments.Fs.Inode.Access.Slice.{sector_of}
use comp310_assignments.Fs.Inode.Access.Layout.{HasLayout}
use comp310_assignments.Fs.Inode.Access.Read.{StandsFor}
use comp310_assignments.Fs.Inode.Reserve.{Disk}
use comp310_assignments.Fs.Inode.Update.RoundTrip.{inode_write_at-Wrote}
use comp310_assignments.Fs.Inode.Open.{OpenInode, find_addr}
use comp310_assignments.Fs.File.{change_inode}
use comp310_assignments.Fs.Directory.{DirEntry, EntryLayout, DirState, set_cache, has_name}
use comp310_assignments.Fs.Directory.Change.{lookup_in, dir_add}
use comp310_assignments.Fs.Directory.Entries.{
  first_entry, entries, end_of_entries, children, scan_entries_lem, lookup_lem,
}
use comp310_assignments.Fs.Directory.Written.{FitsEntry, IsLayout, first_entry-new}
use comp310_assignments.Fs.Directory.Added.{
  with_change, find_addr-change_inode, first_entry-inside, first_entry-second, write_entry-some,
  add_entry-some, dir_add-new, lookup_in-some,
}

module _ {M : Type 0} (words : Block → ℕ → ℕ) (set_word : Block → ℕ → ℕ → Block)
    (free_map_allocate : Disk M → Option ℕ × Disk M) (free_map_release : ℕ → Disk M → Disk M)
    (encode : InodeDisk → Block) (decode : Block → InodeDisk) (layout : EntryLayout)
    (law : IsLayout layout) where
  -- A directory on the disk, open at the address of `d`, where writes are allowed.
  pub record OpenDir (s : DirState M) (d : ℕ) (o : OpenInode) (content : ℕ → Block) : Type 0 where
    pub found : find_addr (s.dirs d).inode s.opened.open_inodes ≡ some o
    pub stands : StandsFor content s.opened.disk.cache
    pub blocks : HasLayout words o.inode.contents content
    pub allowed : o.inode.deny_write_cnt ≡ 0

  -- The first entry that is not in use, not the first of the file, is at `ofs`, in a sector of the file.
  pub record FreePlace (o : OpenInode) (content : ℕ → Block) (ofs : ℕ) : Type 0 where
    pub entry : DirEntry
    pub found :
        first_entry
          (λ e. not e.in_use)
          (entries words layout content o.inode.contents (o.inode.contents.length + 1) 0)
          (end_of_entries words layout content o.inode.contents (o.inode.contents.length + 1) 0)
        ≡ (some entry, ofs)
    pub late : 0 < ofs
    pub on_disk :
        sector_of words content o.inode.contents ((ofs + layout.size - 1) / 512) ≢ no_sector

  abbrev pub new_entry : Text → (sector : ℕ) → DirEntry
  new_entry name sector = record { inode_sector = sector; name = name; in_use = true }

  has_name-new :
      (name : Text) (sector : ℕ) → has_name words layout name (new_entry name sector) ≡ true
  unfolding has_name
  has_name-new name sector = streq_self name

  -- In an open directory that has no entry of the name, and an entry that is not in use, `dir_add` of a file
  -- with a valid name, without NUL, ends and returns true, and `lookup` of the name in the state behind it finds an entry
  -- in use with the name and the file's sector, at the place of the entry that was not in use.
  pub lookup_in-dir_add :
      (child fresh : ℕ) (garbage : Text) (d : ℕ) (name : Text) (sector : ℕ) (s : DirState M)
      (o : OpenInode) (content : ℕ → Block) (ofs last : ℕ)
      → OpenDir s d o content
      → FreePlace o content ofs
      → 0 < length name
      → FitsEntry (new_entry name sector)
      → first_entry (has_name words layout name) (children words layout content o.inode.contents) (
          end_of_entries words layout content o.inode.contents
            (o.inode.contents.length + 1)
            layout.size)
        ≡ (none, last)
      → (s' : DirState M) × (s'' : DirState M) × (dir_add words set_word free_map_allocate
            free_map_release encode decode layout child fresh garbage d name sector false s
          ≡ some (true, s'))
        × (lookup_in words set_word free_map_allocate free_map_release encode decode layout
              (s.dirs d).inode
              name
              s'
            ≡ some ((some (new_entry name sector), ofs), s''))
  unfolding set_cache
  lookup_in-dir_add child fresh garbage d name sector s o content ofs last dir free some_name fits
        never =
      let inode = o.inode.contents in
      let a = (s.dirs d).inode in
      let new = new_entry name sector in
      let inside =
        first_entry-inside words layout content inode (λ e. not e.in_use) (inode.length + 1) 0
          (end_of_entries words layout content inode (inode.length + 1) 0) free.entry ofs
          free.found in
      let (c1, ran1, h1) =
        lookup_lem words layout content inode name s.opened.disk.cache dir.stands law.some_bytes in
      let s1 = set_cache c1 s in
      let (c2, ran2, h2) =
        scan_entries_lem words layout content inode (inode.length + 1) (λ e. not e.in_use) 0 c1 h1
          law.some_bytes (omega arith) (omega arith) in
      let s2 = set_cache c2 s1 in
      let (c3, after, ran3, wrote, h3) =
        inode_write_at-Wrote words set_word free_map_allocate encode o.inode layout.size ofs
          (layout.encode_entry new) s2.opened.disk content h2 dir.blocks dir.allowed (law.sized new)
          law.some_bytes inside free.on_disk in
      let s3 : DirState M = record s2 {
        opened = record {
          open_inodes = change_inode (λ i. o.inode) a s.opened.open_inodes;
          disk = record (s2.opened.disk) { cache = c3 };
        };
      } in
      let (c4, ran4, h4) = lookup_lem words layout after inode name c3 h3 law.some_bytes in
      let one_more : inode.length + 1 ≡ suc inode.length = omega arith in
      let first =
        subst
          (λ f.
            first_entry (λ e. not e.in_use) (entries words layout content inode f 0)
              (end_of_entries words layout content inode (inode.length + 1) 0)
            ≡ (some free.entry, ofs))
          one_more free.found in
      let second =
        first_entry-second words layout content inode (λ e. not e.in_use) inode.length
          (end_of_entries words layout content inode (inode.length + 1) 0) free.entry ofs free.late
          first in
      let there =
        first_entry-new words layout law content after inode ofs new fits wrote inside
          (λ e. not e.in_use) (has_name words layout name) inode.length (inode.length + 1)
          layout.size (end_of_entries words layout content inode (inode.length + 1) 0)
          (end_of_entries words layout content inode (inode.length + 1) layout.size) last
          (end_of_entries words layout after inode (inode.length + 1) layout.size) free.entry
          (has_name-new name sector) (omega arith) second never in
      (
        s3,
        set_cache c4 s3,
        dir_add-new words set_word free_map_allocate free_map_release encode decode layout child
              fresh garbage d name sector s o last c1 some_name fits.0 dir.found
              (ran1 ∙ ap (λ r. some (r, c1)) never)
            ∙ add_entry-some words set_word free_map_allocate free_map_release encode decode layout
                a name sector s1 o (some free.entry) ofs c2 dir.found
                (ran2 ∙ ap (λ r. some (r, c2)) free.found)
            ∙ write_entry-some words set_word free_map_allocate free_map_release encode decode
                layout a ofs new s2 o c3 dir.found ran3,
        lookup_in-some words set_word free_map_allocate free_map_release encode decode layout a name
            s3 (with_change (λ i. o.inode) o) (some new, ofs) c4
            (find_addr-change_inode (λ i. o.inode) a s.opened.open_inodes o dir.found)
            (ran4 ∙ ap (λ r. some (r, c4)) there),
      )
