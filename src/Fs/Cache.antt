-- ===== src/Fs/Cache.antt =====
-- a3/fs/cache.c: the buffer cache, 64 sectors of the disk in memory, with the clock algorithm.
-- The array `cache` is a function on its indices, and so is the disk (`fs_device`), on sector numbers:
-- `block_read` gives the sector's content and `block_write` replaces it. `entry_at.clock` is the static
-- variable of `buffer_cache_evict`.
pub mod View
pub mod Steps
pub mod WriteBack
pub mod Fill
pub mod Evict
pub mod Refine
pub mod Trace
use comp310_assignments.Prelude.{
  ℕ, zero, suc, ◌+◌, ◌%◌, Bool, true, false, ◌&&◌, List, [], ◌∷◌, Option, none, some, ◌==◌,
  if◌then◌else◌,
}
use comp310_assignments.Prelude.Scan.{scan}

-- The 512 bytes of a sector.
abbrev pub Block : Type 0
Block = List ℕ

abbrev pub buffer_cache_size : ℕ
buffer_cache_size = 64

-- `struct buffer_cache_entry_t`
pub record Entry : Type 0 where
  pub occupied : Bool
  pub disk_sector : ℕ
  pub buffer : Block
  pub dirty : Bool
  pub access : Bool

pub record Cache : Type 0 where
  pub entry : ℕ → Entry
  pub clock : ℕ
  pub disk : ℕ → Block

abbrev pub update {ℓ} : {A : Type ℓ} → (ℕ → A) → ℕ → A → ℕ → A
update f i v j = if i == j then v else f j

-- `cache[i] = e`
abbrev pub set_entry : Cache → ℕ → Entry → Cache
set_entry c i e = record c { entry = update c.entry i e }

unfoldable pub init_entries : (rounds i : ℕ) → (ℕ → Entry) → ℕ → Entry
init_entries zero i entries = entries
init_entries (suc n) i entries =
    init_entries n (i + 1)
      (update entries i (record (entries i) { occupied = false; dirty = false }))

unfoldable pub buffer_cache_init : Cache → Cache
unfolding init_entries
buffer_cache_init c = record c { entry = init_entries buffer_cache_size 0 c.entry }

-- `buffer_cache_flush(&cache[i])`
unfoldable pub buffer_cache_flush : ℕ → Cache → Cache
buffer_cache_flush i c =
    if (c.entry i).dirty
    then record c {
      entry = update c.entry i (record (c.entry i) { dirty = false });
      disk = update c.disk (c.entry i).disk_sector (c.entry i).buffer;
    }
    else c

-- The loop of `buffer_cache_close`.
unfoldable pub flush_from : (rounds i : ℕ) → Cache → Cache
flush_from zero i c = c
flush_from (suc n) i c =
    flush_from n (i + 1) (if (c.entry i).occupied then buffer_cache_flush i c else c)

unfoldable pub buffer_cache_close : Cache → Cache
buffer_cache_close c = flush_from buffer_cache_size 0 c

-- `cache[i].occupied && cache[i].disk_sector == sector`
unfoldable pub holds : Cache → ℕ → ℕ → Bool
holds c sector i = (c.entry i).occupied && (c.entry i).disk_sector == sector

-- The index of the entry; `none` is NULL, a cache miss.
unfoldable pub buffer_cache_lookup : ℕ → Cache → Option ℕ
buffer_cache_lookup sector c = scan (holds c sector) buffer_cache_size 0

-- `clock++; clock %= BUFFER_CACHE_SIZE;`
abbrev pub next_clock : ℕ → ℕ
next_clock clock = (clock + 1) % buffer_cache_size

-- The entry is taken: it is written back if it is dirty, and no longer occupied.
unfoldable pub take_slot : ℕ → Cache → Cache
take_slot i c =
    let c' = if (c.entry i).dirty then buffer_cache_flush i c else c in
    set_entry c' i (record (c'.entry i) { occupied = false })

-- The loop of `buffer_cache_evict`, on fuel: the slot's index is `clock` of the new state.
unfoldable pub evict_loop : ℕ → Cache → Option Cache
evict_loop zero c = none
evict_loop (suc f) c = elim (c.entry (c.clock)).occupied [
  | false ↦ some c
  | true ↦ elim (c.entry (c.clock)).access [
    | true ↦ evict_loop f (record c {
      entry = update c.entry c.clock (record (c.entry (c.clock)) { access = false });
      clock = next_clock c.clock;
    })
    | false ↦ some (take_slot c.clock c)
  ]
]

-- One round for each entry and one more are enough, as `Evict` shows.
unfoldable pub buffer_cache_evict : Cache → Option Cache
buffer_cache_evict c = evict_loop (buffer_cache_size + 1) c

-- `slot->occupied = true; ...; block_read(...)`: the sector is read from the disk into the entry.
unfoldable pub fill : ℕ → ℕ → Cache → Cache
fill sector i c = set_entry c i (record (c.entry i) {
  occupied = true;
  disk_sector = sector;
  dirty = false;
  buffer = c.disk sector;
})

-- The entry that holds the sector after a cache miss was filled: its index, and the cache.
unfoldable pub obtain : ℕ → Cache → Option (ℕ × Cache)
obtain sector c = elim (buffer_cache_lookup sector c) [
  | some i ↦ some (i, c)
  | none ↦ elim (buffer_cache_evict c) [
    | none ↦ none
    | some c' ↦ some (c'.clock, fill sector c'.clock c')
  ]
]

-- `none` is a loop of `buffer_cache_evict` that runs out of fuel.
unfoldable pub buffer_cache_read : ℕ → Cache → Option (Block × Cache)
buffer_cache_read sector c = elim (obtain sector c) [
  | none ↦ none
  | some (i, c') ↦
      some ((c'.entry i).buffer, set_entry c' i (record (c'.entry i) { access = true }))
]

unfoldable pub buffer_cache_write : ℕ → Block → Cache → Option Cache
buffer_cache_write sector source c = elim (obtain sector c) [
  | none ↦ none
  | some (i, c') ↦
      some (set_entry c' i (record (c'.entry i) { access = true; dirty = true; buffer = source }))
]
