-- ===== src/Tests/TestDirectory.antt =====
-- Witnesses for a3/fs/directory.c: a directory in a file of three sectors on a disk of zeros.
use comp310_assignments.Prelude.{
  ℕ, ◌+◌, ◌-◌, ◌≡◌, ◌↔◌, refl, Bool, true, false, [], ◌∷◌, Option, some, codes, arith, get_or, ◌==◌,
  if◌then◌else◌, inr, streq,
}
use comp310_assignments.Fs.Cache.{Cache}
use comp310_assignments.Fs.Inode.Access.Slice.{sector_of, byte_at}
use comp310_assignments.Fs.Inode.Access.Read.{StandsFor, Yields}
use comp310_assignments.Fs.Inode.Open.{OpenInode, find_addr}
use comp310_assignments.Fs.Directory.{
  DirEntry, EntryLayout, DirState, set_cache, has_name, lookup, dir_is_empty,
}
use comp310_assignments.Fs.Directory.Change.{dir_add}
use comp310_assignments.Fs.Directory.Entries.{
  first_entry, children, end_of_entries, lookup_lem, NoneInUse, dir_is_empty_lem,
}
use comp310_assignments.Fs.Directory.Refused.{dir_add-refused}
use comp310_assignments.Tests.TestInode.{
  zero_disk, zero_cache, zero_cache-StandsFor, three_sectors, bytes_as_words, no_free_sectors,
  no_encoding, zero_state, open_file,
}

-- Entries of three bytes with names of one letter. Where the last byte is 0 the entry is in use.
abbrev letters : EntryLayout
letters = record {
  size = 3;
  encode_entry = λ e. e.inode_sector ∷ (get_or e.name 0 0 - 97) ∷ (if e.in_use then 0 else 1) ∷ [];
  decode_entry = λ bs. record {
    inode_sector = get_or bs 0 0;
    name = (97 + get_or bs 1 0) ∷ [];
    in_use = get_or bs 2 0 == 0;
  };
}

lookup_example :
    Yields zero_disk (lookup bytes_as_words letters three_sectors (codes "a") zero_cache) (
      first_entry
        (has_name bytes_as_words letters (codes "a"))
        (children bytes_as_words letters zero_disk three_sectors)
        (end_of_entries bytes_as_words letters zero_disk three_sectors 1101 3))
lookup_example =
    lookup_lem bytes_as_words letters zero_disk three_sectors (codes "a") zero_cache
      zero_cache-StandsFor (omega arith)

dir_is_empty_example :
    (b : Bool) × Yields zero_disk (dir_is_empty bytes_as_words letters three_sectors zero_cache) b
    × ((b ≡ true)
        ↔ NoneInUse bytes_as_words letters zero_disk three_sectors
            (children bytes_as_words letters zero_disk three_sectors))
dir_is_empty_example =
    dir_is_empty_lem bytes_as_words letters zero_disk three_sectors zero_cache zero_cache-StandsFor
      (omega arith)

abbrev opened_file : OpenInode
opened_file = record { addr = 7; inode = open_file }

abbrev one_dir : DirState ℕ
one_dir = record {
  opened = record { open_inodes = opened_file ∷ []; disk = zero_state };
  dirs = λ d. record { inode = 7; pos = 3; open_cnt = 1 };
  cwd = some 1;
}

abbrev add_a : Option (Bool × DirState ℕ)
add_a =
    dir_add bytes_as_words (λ b i w. b) no_free_sectors (λ sector d. d) no_encoding
      (λ b. three_sectors) letters 2 8 [] 1 (codes "a") 20 false one_dir

abbrev first_child : DirEntry
first_child = record { inode_sector = 0; name = codes "a"; in_use = true }

dir_add-refused_example :
    (c' : Cache) × (add_a ≡ some (false, set_cache c' one_dir)) × StandsFor zero_disk c'
unfolding find_addr sector_of byte_at has_name streq
dir_add-refused_example =
    dir_add-refused bytes_as_words (λ b i w. b) no_free_sectors (λ sector d. d) no_encoding
      (λ b. three_sectors) letters 2 8 [] 1 (codes "a") 20 false one_dir opened_file zero_disk refl
      zero_cache-StandsFor (omega arith) (inr (first_child, 3, refl))
