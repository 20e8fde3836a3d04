-- ===== src/Fs/Cache/Refine.antt =====
-- The buffer cache implements a disk without a cache: a read gives what was last written to the
-- sector, and closing brings the disk up to date.
use comp310_assignments.Prelude.{
  ℕ, ◌<◌, ◌≡◌, refl, sym, ◌∙◌, ◌≢◌, inl, inr, true, false, false≢true, none, some, arith,
  Bool-cases,
}
use comp310_assignments.Prelude.Scan.{scan-cases}
use comp310_assignments.Fs.Cache.{
  Block, Cache, buffer_cache_size, holds, buffer_cache_lookup, buffer_cache_evict, fill, obtain,
  set_entry, buffer_cache_read, buffer_cache_write,
}
use comp310_assignments.Fs.Cache.View.{view, IsCoherent, view-hit}
use comp310_assignments.Fs.Cache.Steps.{Keeps, with_access, with_access-Keeps}
use comp310_assignments.Fs.Cache.Fill.{Writes, fill-Keeps, write_entry-Writes}
use comp310_assignments.Fs.Cache.Evict.{Freed, buffer_cache_evict-Freed}

-- The entry that a read or a write works on.
record Obtained (sector : ℕ) (c : Cache) : Type 0 where
  index : ℕ
  cache : Cache
  ends : obtain sector c ≡ some (index, cache)
  inside : index < buffer_cache_size
  keeps : Keeps c cache
  held : holds cache sector index ≡ true

obtain-hit :
    (sector : ℕ) (c : Cache) (i : ℕ)
    → buffer_cache_lookup sector c ≡ some i
    → obtain sector c ≡ some (i, c)
unfolding obtain
obtain-hit sector c i e = ground arith

obtain-miss :
    (sector : ℕ) (c c' : Cache)
    → buffer_cache_lookup sector c ≡ none
    → buffer_cache_evict c ≡ some c'
    → obtain sector c ≡ some (c'.clock, fill sector c'.clock c')
unfolding obtain
obtain-miss sector c c' e e' = ground arith

obtain-Obtained : (sector : ℕ) (c : Cache) → IsCoherent c → Obtained sector c
unfolding buffer_cache_lookup
obtain-Obtained sector c v = elim (scan-cases (holds c sector) buffer_cache_size 0) [
  | inr (i, r, f) ↦ record {
    index = i;
    cache = c;
    ends = obtain-hit sector c i r;
    inside = omega (arith, f.below);
    keeps = record { coherent = v; same = λ s. refl };
    held = f.passes;
  }
  | inl (r, never) ↦
      let e : Freed c (buffer_cache_evict c) = buffer_cache_evict-Freed c v in
      let (keeps, held) =
        fill-Keeps e.cache sector e.cache.clock e.keeps.coherent e.keeps.coherent.clock_in e.free
          (λ j hj. still_missing e j (never j (omega arith) (omega arith))) in
      record {
        index = e.cache.clock;
        cache = fill sector e.cache.clock e.cache;
        ends = obtain-miss sector c e.cache r e.ends;
        inside = e.keeps.coherent.clock_in;
        keeps = record { coherent = keeps.coherent; same = λ s. keeps.same s ∙ e.keeps.same s };
        held = held;
      }
]
  where
    still_missing :
        (e : Freed c (buffer_cache_evict c)) (j : ℕ)
        → holds c sector j ≡ false
        → holds e.cache sector j ≡ false
    still_missing e j h = elim (Bool-cases (holds e.cache sector j)) [
      | inl t ↦ absurd (false≢true (sym h ∙ e.fewer sector j t))
      | inr t ↦ t
    ]

-- From a coherent cache a read ends. It gives the content of the sector, and leaves the content of every
-- sector as it is and the cache coherent.
pub buffer_cache_read_lem :
    (sector : ℕ) (c : Cache)
    → IsCoherent c
    → (c' : Cache) × (buffer_cache_read sector c ≡ some (view c sector, c'))
      × IsCoherent c'
      × ((s : ℕ) → view c' s ≡ view c s)
unfolding buffer_cache_read
buffer_cache_read_lem sector c v =
    let o : Obtained sector c = obtain-Obtained sector c v in
    let k : Keeps o.cache (with_access o.cache o.index true o.cache.clock) =
      with_access-Keeps o.cache o.index true o.cache.clock o.keeps.coherent
        o.keeps.coherent.clock_in in
    let content : (o.cache.entry (o.index)).buffer ≡ view c sector =
      sym (view-hit o.cache sector o.index o.keeps.coherent o.inside o.held)
      ∙ o.keeps.same sector in
    (
      with_access o.cache o.index true o.cache.clock,
      ground (arith, o.ends),
      k.coherent,
      λ s. k.same s ∙ o.keeps.same s,
    )

-- From a coherent cache a write ends. The sector has the written content, every other sector
-- the one it had, and the cache is coherent.
pub buffer_cache_write_lem :
    (sector : ℕ) (source : Block) (c : Cache)
    → IsCoherent c
    → (c' : Cache) × (buffer_cache_write sector source c ≡ some c')
      × IsCoherent c'
      × (view c' sector ≡ source)
      × ((s : ℕ) → sector ≢ s → view c' s ≡ view c s)
unfolding buffer_cache_write
buffer_cache_write_lem sector source c v =
    let o : Obtained sector c = obtain-Obtained sector c v in
    let c' : Cache =
      set_entry o.cache o.index
        (record (o.cache.entry (o.index)) { access = true; dirty = true; buffer = source }) in
    let w : Writes o.cache c' sector source =
      write_entry-Writes o.cache sector o.index source o.keeps.coherent o.inside o.held in
    (c', ground (arith, o.ends), w.coherent, w.written, λ s far. w.others s far ∙ o.keeps.same s)
