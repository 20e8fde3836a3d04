-- ===== src/Tests/TestInode.antt =====
-- Witnesses for the data of a file of a3/fs/inode.c: a file of three sectors on a disk of zeros.
use comp310_assignments.Prelude.{
  ℕ, zero, suc, ◌+◌, ◌-◌, ◌/◌, ◌≤◌, ◌<◌, ◌≡◌, ◌≢◌, refl, fun_ext, true, false, List, [], ◌∷◌,
  Option, none, some, arith, get_or, length-replicate,
}
use comp310_assignments.Fs.Cache.{Block, Cache, buffer_cache_init}
use comp310_assignments.Fs.Cache.Trace.{buffer_cache_init_lem}
use comp310_assignments.Fs.Inode.{InodeDisk, Inode, no_sector, bytes_to_sectors}
use comp310_assignments.Fs.Inode.Access.{zeros, inode_read_at}
use comp310_assignments.Fs.Inode.Access.Slice.{sector_of}
use comp310_assignments.Fs.Inode.Access.Read.{
  StandsFor, Yields, readable, file_slice, inode_read_at_lem,
}
use comp310_assignments.Fs.Inode.Access.Layout.{HasLayout}
use comp310_assignments.Fs.Inode.Access.Wrote.{Wrote}
use comp310_assignments.Fs.Inode.Reserve.{Disk}
use comp310_assignments.Fs.Inode.Update.{inode_write_at}
use comp310_assignments.Fs.Inode.Update.RoundTrip.{inode_read_at-inode_write_at}
use comp310_assignments.Fs.Inode.Sectors.{entries, get_inode_data_sectors}
use comp310_assignments.Fs.Inode.Sectors.Listing.{get_inode_data_sectors_lem}
use comp310_assignments.Fs.Cache.View.{view, IsCoherent}
use comp310_assignments.Fs.Inode.Open.{OpenState, find_open, inode_open, inode_close}
use comp310_assignments.Fs.Inode.Open.Openers.{first_inode, with_inode, inode_open-twice}

abbrev pub zero_disk : ℕ → Block
zero_disk s = zeros

abbrev pub unused_cache : Cache
unused_cache = record {
  entry =
      λ i. record { occupied = true; disk_sector = 0; buffer = []; dirty = true; access = false };
  clock = 0;
  disk = zero_disk;
}

abbrev pub zero_cache : Cache
zero_cache = buffer_cache_init unused_cache

pub zero_cache-StandsFor : StandsFor zero_disk zero_cache
zero_cache-StandsFor =
    let (coherent, same) = buffer_cache_init_lem unused_cache (omega arith) in
    record {
      coherent = coherent;
      same = fun_ext same;
      formatted = λ s. length-replicate {A = ℕ} 512 0;
    }

abbrev pub three_sectors : InodeDisk
three_sectors = record {
  direct_blocks = 3 ∷ 4 ∷ 9 ∷ [];
  indirect_block = 0;
  doubly_indirect_block = 0;
  is_dir = false;
  length = 1100;
  magic = 0;
}

abbrev pub bytes_as_words : Block → ℕ → ℕ
bytes_as_words b i = get_or b i 0

pub three_sectors-HasLayout : HasLayout bytes_as_words three_sectors zero_disk
unfolding sector_of
three_sectors-HasLayout = record {
  different = λ j k lj lk e. apart_sectors j k (omega (arith, lj)) (omega (arith, lk)) e;
  apart = λ j k lj lk. record {
    not_single = λ lo hi. absurd (omega (arith, lj, lo));
    not_double = λ lo hi. absurd (omega (arith, lj, lo));
    not_second = λ lo hi. absurd (omega (arith, lj, lo));
  };
}
  where
    apart_sectors :
        (j k : ℕ)
        → j < 3
        → k < 3
        → sector_of bytes_as_words zero_disk three_sectors j
          ≡ sector_of bytes_as_words zero_disk three_sectors k
        → j ≡ k
    apart_sectors zero zero lj lk e = refl
    apart_sectors (suc zero) (suc zero) lj lk e = refl
    apart_sectors (suc (suc zero)) (suc (suc zero)) lj lk e = refl
    apart_sectors zero (suc zero) lj lk e = absurd (omega (arith, e))
    apart_sectors zero (suc (suc zero)) lj lk e = absurd (omega (arith, e))
    apart_sectors (suc zero) zero lj lk e = absurd (omega (arith, e))
    apart_sectors (suc zero) (suc (suc zero)) lj lk e = absurd (omega (arith, e))
    apart_sectors (suc (suc zero)) zero lj lk e = absurd (omega (arith, e))
    apart_sectors (suc (suc zero)) (suc zero) lj lk e = absurd (omega (arith, e))
    apart_sectors (suc (suc (suc j))) k lj lk e = absurd (omega (arith, lj))
    apart_sectors zero (suc (suc (suc k))) lj lk e = absurd (omega (arith, lk))
    apart_sectors (suc zero) (suc (suc (suc k))) lj lk e = absurd (omega (arith, lk))
    apart_sectors (suc (suc zero)) (suc (suc (suc k))) lj lk e = absurd (omega (arith, lk))

inode_read_at_example :
    Yields zero_disk (inode_read_at bytes_as_words three_sectors 700 500 zero_cache) (
      file_slice bytes_as_words zero_disk three_sectors 500 (readable three_sectors.length 500 700))
inode_read_at_example =
    inode_read_at_lem bytes_as_words zero_disk three_sectors 700 500 zero_cache zero_cache-StandsFor

three_sectors-few : bytes_to_sectors three_sectors.length ≤ 16635
unfolding bytes_to_sectors
three_sectors-few = omega arith

get_inode_data_sectors_example :
    Yields zero_disk (get_inode_data_sectors bytes_as_words three_sectors zero_cache) (
      entries
        (sector_of bytes_as_words zero_disk three_sectors)
        0
        (bytes_to_sectors three_sectors.length))
get_inode_data_sectors_example =
    get_inode_data_sectors_lem bytes_as_words zero_disk three_sectors zero_cache three_sectors-few
      zero_cache-StandsFor

abbrev pub open_file : Inode
open_file = record {
  sector = 2;
  open_cnt = 1;
  removed = false;
  deny_write_cnt = 0;
  contents = three_sectors;
}

-- A free map with a counter, from which nothing can be allocated.
abbrev pub no_free_sectors : Disk ℕ → Option ℕ × Disk ℕ
no_free_sectors d = (none, d)

abbrev pub no_encoding : InodeDisk → Block
no_encoding idisk = zeros

abbrev pub zero_state : Disk ℕ
zero_state = record { free_map = 0; cache = zero_cache }

abbrev three_bytes : List ℕ
three_bytes = 7 ∷ 8 ∷ 9 ∷ []

second_sector-found :
    sector_of bytes_as_words zero_disk three_sectors ((511 + 3 - 1) / 512) ≢ no_sector
unfolding sector_of
second_sector-found = ground arith

-- Three bytes, of which one is in the first sector and two are in the second.
inode_write_at_example :
    (c' : Cache) × (after : ℕ → Block) × (inode_write_at bytes_as_words
        (λ b i x. b)
        no_free_sectors
        no_encoding
        open_file
        3
        511
        three_bytes
        zero_state
      ≡ some (record {
        bytes_written = 3;
        inode = open_file;
        disk = record zero_state { cache = c' };
      }))
    × Wrote bytes_as_words three_sectors zero_disk after 511 3 three_bytes
    × Yields after (inode_read_at bytes_as_words three_sectors 3 511 c') three_bytes
inode_write_at_example =
    inode_read_at-inode_write_at bytes_as_words (λ b i x. b) no_free_sectors no_encoding open_file 3
      511 three_bytes zero_state zero_disk zero_cache-StandsFor three_sectors-HasLayout refl refl
      (omega arith) (omega arith) second_sector-found

abbrev nothing_open : OpenState ℕ
nothing_open = record { open_inodes = []; disk = zero_state }

abbrev same_inode : Block → InodeDisk
same_inode b = three_sectors

none_open : find_open 2 nothing_open.open_inodes ≡ none
unfolding find_open
none_open = refl

inode_open-twice_example :
    (c : Cache) × IsCoherent c
    × ((t : ℕ) → view c t ≡ view zero_cache t)
    × (let s1 = with_inode 77 (first_inode 2 three_sectors) c nothing_open in
        (inode_open same_inode 77 2 nothing_open ≡ some (77, s1))
        × (inode_open same_inode 78 2 s1 ≡ some (77, s1))
        × (inode_close bytes_as_words (λ s d. d) 77 s1
            ≡ some (record { open_inodes = []; disk = record zero_state { cache = c } })))
inode_open-twice_example =
    inode_open-twice bytes_as_words (λ s d. d) same_inode 77 78 2 nothing_open
      zero_cache-StandsFor.coherent none_open
