-- ===== src/Tests/TestFs.antt =====
-- Witnesses and runs for a3/fs/.
use comp310_assignments.Prelude.{
  ℕ, ◌≡◌, ◌≢◌, refl, true, false, List, [], ◌∷◌, some, arith, ◌+◌, ◌*◌, ◌<◌, ◌≤◌, get_or,
}
use comp310_assignments.Fs.Cache.{
  Block, Cache, buffer_cache_init, buffer_cache_evict, buffer_cache_read, buffer_cache_write,
  buffer_cache_close,
}
use comp310_assignments.Fs.Cache.View.{view, IsCoherent}
use comp310_assignments.Fs.Cache.Evict.{Freed, buffer_cache_evict-Freed}
use comp310_assignments.Fs.Cache.Refine.{buffer_cache_read_lem, buffer_cache_write_lem}
use comp310_assignments.Fs.Cache.Trace.{
  Op, read, write, run_cache, run_disk, buffer_cache_init_lem, buffer_cache_close_lem,
  run_cache-run_disk,
}
use comp310_assignments.Fs.Inode.{InodeDisk, no_sector, index_to_sector}
use comp310_assignments.Fs.Inode.Lookup.{Gives, index_to_sector_lem}

-- A disk whose sector `s` holds the byte `s`, behind a cache that was never used.
abbrev start_cache : Cache
start_cache = record {
  entry =
      λ i. record { occupied = true; disk_sector = 0; buffer = []; dirty = true; access = false };
  clock = 0;
  disk = λ s. s ∷ [];
}

abbrev fresh : Cache
fresh = buffer_cache_init start_cache

fresh-IsCoherent : IsCoherent fresh
fresh-IsCoherent = (buffer_cache_init_lem start_cache (omega arith)).0

abbrev calls : List Op
calls = read 5 ∷ write 5 (9 ∷ []) ∷ read 5 ∷ read 70 ∷ []

buffer_cache_init_example :
    IsCoherent (buffer_cache_init start_cache)
    × ((s : ℕ) → view (buffer_cache_init start_cache) s ≡ start_cache.disk s)
buffer_cache_init_example = buffer_cache_init_lem start_cache (omega arith)

run_cache-run_disk_example :
    (c' : Cache) × (run_cache calls fresh ≡ some ((run_disk calls (view fresh)).0, c'))
    × IsCoherent c'
    × (view c' ≡ (run_disk calls (view fresh)).1)
run_cache-run_disk_example = run_cache-run_disk calls fresh fresh-IsCoherent

buffer_cache_read_example :
    (c' : Cache) × (buffer_cache_read 7 fresh ≡ some (view fresh 7, c'))
    × IsCoherent c'
    × ((s : ℕ) → view c' s ≡ view fresh s)
buffer_cache_read_example = buffer_cache_read_lem 7 fresh fresh-IsCoherent

buffer_cache_write_example :
    (c' : Cache) × (buffer_cache_write 7 (1 ∷ []) fresh ≡ some c')
    × IsCoherent c'
    × (view c' 7 ≡ 1 ∷ [])
    × ((s : ℕ) → 7 ≢ s → view c' s ≡ view fresh s)
buffer_cache_write_example = buffer_cache_write_lem 7 (1 ∷ []) fresh fresh-IsCoherent

buffer_cache_close_example :
    IsCoherent (buffer_cache_close fresh)
    × ((s : ℕ) → (buffer_cache_close fresh).disk s ≡ view fresh s)
buffer_cache_close_example = buffer_cache_close_lem fresh fresh-IsCoherent

buffer_cache_evict_example : Freed fresh (buffer_cache_evict fresh)
buffer_cache_evict_example = buffer_cache_evict-Freed fresh fresh-IsCoherent

-- The calls, run.
calls_run : (run_disk calls start_cache.disk).0 ≡ (5 ∷ []) ∷ (9 ∷ []) ∷ (70 ∷ []) ∷ []
unfolding run_disk
calls_run = refl

-- A file behind a doubly indirect block, where a sector holds its own number in each entry.
abbrev file : InodeDisk
file = record {
  direct_blocks = 3 ∷ 4 ∷ [];
  indirect_block = 5;
  doubly_indirect_block = 6;
  is_dir = false;
  length = 100000;
  magic = 0;
}

abbrev first_byte : Block → ℕ → ℕ
first_byte b i = get_or b 0 0 + i

index_to_sector_example :
    ((k : ℕ)
      → k < 123
      → Gives fresh (index_to_sector first_byte file k fresh) (get_or (3 ∷ 4 ∷ []) k 0))
    × ((k : ℕ)
        → k < 128
        → Gives fresh
            (index_to_sector first_byte file (123 + k) fresh)
            (first_byte (view fresh 5) k))
    × ((f s : ℕ)
        → f < 128
        → s < 128
        → Gives fresh
            (index_to_sector first_byte file (251 + (f * 128 + s)) fresh)
            (first_byte (view fresh (first_byte (view fresh 6) f)) s))
    × ((k : ℕ) → 16635 ≤ k → Gives fresh (index_to_sector first_byte file k fresh) no_sector)
index_to_sector_example = index_to_sector_lem first_byte file fresh fresh-IsCoherent
