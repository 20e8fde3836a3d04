-- ===== src/Tests/TestAdd.antt =====
-- The witness for dir_add of a3/fs/directory.c: a directory of 70 bytes with room for one more entry.
use comp310_assignments.Prelude.{
  ℕ, zero, suc, ◌≤◌, ◌<◌, ◌≡◌, refl, ap, ◌∙◌, fun_ext, Bool, true, false, [], ◌∷◌, some, Text,
  codes, arith, All, get_or, drop, replicate, length, length-replicate, ◌==◌, if◌then◌else◌,
}
use comp310_assignments.Fs.Cache.{Block, Cache, buffer_cache_init}
use comp310_assignments.Fs.Cache.Trace.{buffer_cache_init_lem}
use comp310_assignments.Fs.Inode.{InodeDisk}
use comp310_assignments.Fs.Inode.Access.Slice.{sector_of, byte_at}
use comp310_assignments.Fs.Inode.Access.Layout.{HasLayout}
use comp310_assignments.Fs.Inode.Access.Read.{StandsFor}
use comp310_assignments.Fs.Inode.Open.{OpenInode, find_addr}
use comp310_assignments.Fs.Directory.{EntryLayout, DirState, has_name}
use comp310_assignments.Fs.Directory.Change.{lookup_in, dir_add}
use comp310_assignments.Fs.Directory.Written.{IsLayout}
use comp310_assignments.Fs.Directory.RoundTrip.{OpenDir, FreePlace, lookup_in-dir_add}
use comp310_assignments.Tests.TestInode.{bytes_as_words, no_free_sectors, no_encoding}

-- A name with NULs behind it, 31 characters in all, and back.
pad : (n : ℕ) → Text → Text
pad zero t = []
pad (suc n) [] = 0 ∷ pad n []
pad (suc n) (c ∷ t) = c ∷ pad n t

unpad : (n : ℕ) → Text → Text
unpad zero t = []
unpad (suc n) [] = []
unpad (suc n) (c ∷ t) = let rest = unpad n t in if c == 0 then [] else c ∷ rest

unpad-pad :
    (n : ℕ) (t : Text) → length t ≤ n → All (λ c. (0 < c) × (c < 256)) t → unpad n (pad n t) ≡ t
unfolding pad unpad
unpad-pad zero [] le h = refl
unpad-pad zero (c ∷ t) le h = absurd (omega arith)
unpad-pad (suc n) [] le h = ground arith
unpad-pad (suc n) (c ∷ t) le h =
    let rest = unpad-pad n t (omega arith) h.1 in
    let not_nul : (c == 0) ≡ false = ground (arith, h.0.0) in rw not_nul (ap (λ r. c ∷ r) rest)

length-pad : (n : ℕ) (t : Text) → length (pad n t) ≡ n
unfolding pad
length-pad zero t = refl
length-pad (suc n) [] = ap suc (length-pad n [])
length-pad (suc n) (c ∷ t) = ap suc (length-pad n t)

-- A number for the sector, a flag and the name.
abbrev padded : EntryLayout
padded = record {
  size = 33;
  encode_entry = λ e. e.inode_sector ∷ (if e.in_use then 1 else 0) ∷ pad 31 e.name;
  decode_entry = λ bs. record {
    inode_sector = get_or bs 0 0;
    name = unpad 31 (drop 2 bs);
    in_use = get_or bs 1 0 == 1;
  };
}

flag_back : (b : Bool) → ((if b then 1 else 0) == 1) ≡ b
flag_back true = refl
flag_back false = refl

padded-IsLayout : IsLayout padded
padded-IsLayout = record {
  decoded = λ e fits.
      let name = unpad-pad 31 e.name (omega (arith, fits.0)) fits.2 in
      ap
        (λ b. record { inode_sector = e.inode_sector; name = unpad 31 (pad 31 e.name); in_use = b })
        (flag_back e.in_use)
      ∙ ap (λ n. record { inode_sector = e.inode_sector; name = n; in_use = e.in_use }) name;
  sized = λ e. ap (λ n. suc (suc n)) (length-pad 31 e.name);
  some_bytes = omega arith;
}

abbrev parent_block : Block
parent_block = 5 ∷ 1 ∷ replicate 510 0

abbrev dir_disk : ℕ → Block
dir_disk s = if s == 3 then parent_block else replicate 512 0

abbrev dir_cache : Cache
dir_cache = buffer_cache_init (record {
  entry =
      λ i. record { occupied = true; disk_sector = 0; buffer = []; dirty = true; access = false };
  clock = 0;
  disk = dir_disk;
})

dir_disk-formatted : (s : ℕ) → length (dir_disk s) ≡ 512
dir_disk-formatted s =
    elim (s == 3) as (λ b. length (if b then parent_block else replicate 512 0) ≡ 512) [
      | true ↦ ap (λ n. suc (suc n)) (length-replicate {A = ℕ} 510 0)
      | false ↦ length-replicate {A = ℕ} 512 0
    ]

dir_cache-StandsFor : StandsFor dir_disk dir_cache
dir_cache-StandsFor =
    let (coherent, same) =
      buffer_cache_init_lem
        (record {
          entry = λ i. record {
            occupied = true;
            disk_sector = 0;
            buffer = [];
            dirty = true;
            access = false;
          };
          clock = 0;
          disk = dir_disk;
        })
        (omega arith) in
    record { coherent = coherent; same = fun_ext same; formatted = dir_disk-formatted }

abbrev dir_inode : InodeDisk
dir_inode = record {
  direct_blocks = 3 ∷ [];
  indirect_block = 0;
  doubly_indirect_block = 0;
  is_dir = true;
  length = 70;
  magic = 0;
}

dir_inode-HasLayout : HasLayout bytes_as_words dir_inode dir_disk
dir_inode-HasLayout = record {
  different = λ j k lj lk e. omega (arith, lj, lk);
  apart = λ j k lj lk. record {
    not_single = λ lo hi. absurd (omega (arith, lj, lo));
    not_double = λ lo hi. absurd (omega (arith, lj, lo));
    not_second = λ lo hi. absurd (omega (arith, lj, lo));
  };
}

abbrev opened_dir : OpenInode
opened_dir = record {
  addr = 7;
  inode = record {
    sector = 2;
    open_cnt = 1;
    removed = false;
    deny_write_cnt = 0;
    contents = dir_inode;
  };
}

abbrev dir_state : DirState ℕ
dir_state = record {
  opened = record {
    open_inodes = opened_dir ∷ [];
    disk = record { free_map = 0; cache = dir_cache };
  };
  dirs = λ d. record { inode = 7; pos = 33; open_cnt = 1 };
  cwd = some 1;
}

state-OpenDir :
    OpenDir bytes_as_words
      (λ b i w. b)
      no_free_sectors
      (λ sector d. d)
      no_encoding
      (λ b. dir_inode)
      padded
      padded-IsLayout
      dir_state
      1
      opened_dir
      dir_disk
unfolding find_addr
state-OpenDir = record {
  found = refl;
  stands = dir_cache-StandsFor;
  blocks = dir_inode-HasLayout;
  allowed = refl;
}

free_place :
    FreePlace bytes_as_words
      (λ b i w. b)
      no_free_sectors
      (λ sector d. d)
      no_encoding
      (λ b. dir_inode)
      padded
      padded-IsLayout
      opened_dir
      dir_disk
      33
unfolding sector_of byte_at unpad
free_place = record {
  entry = record { inode_sector = 0; name = []; in_use = false };
  found = refl;
  late = omega arith;
  on_disk = ground arith;
}

lookup_in-dir_add_example :
    (s' : DirState ℕ) × (s'' : DirState ℕ) × (dir_add bytes_as_words
        (λ b i w. b)
        no_free_sectors
        (λ sector d. d)
        no_encoding
        (λ b. dir_inode)
        padded
        2
        8
        []
        1
        (codes "ab")
        20
        false
        dir_state
      ≡ some (true, s'))
    × (lookup_in bytes_as_words
          (λ b i w. b)
          no_free_sectors
          (λ sector d. d)
          no_encoding
          (λ b. dir_inode)
          padded
          7
          (codes "ab")
          s'
        ≡ some ((some (record { inode_sector = 20; name = codes "ab"; in_use = true }), 33), s''))
unfolding sector_of byte_at unpad has_name
lookup_in-dir_add_example =
    lookup_in-dir_add bytes_as_words (λ b i w. b) no_free_sectors (λ sector d. d) no_encoding
      (λ b. dir_inode) padded padded-IsLayout 2 8 [] 1 (codes "ab") 20 dir_state opened_dir dir_disk
      33 66 state-OpenDir free_place (omega arith)
      (omega arith, omega arith, ((omega arith, omega arith), ((omega arith, omega arith), tt)))
      refl
