-- ===== src/Fs/Cache/Evict.antt =====
-- `buffer_cache_evict` ends: each round that does not end it clears the reference bit of one entry.
use comp310_assignments.Prelude.{
  ℕ, zero, suc, ◌+◌, ◌≤◌, ◌<◌, ◌≡◌, refl, ◌∙◌, inl, inr, true, false, Option, some, arith,
  if◌then◌else◌, Bool-cases, Nat-order,
}
use comp310_assignments.Fs.Cache.{
  Entry, Cache, buffer_cache_size, holds, buffer_cache_flush, update, take_slot, next_clock,
  evict_loop, buffer_cache_evict,
}
use comp310_assignments.Fs.Cache.View.{IsCoherent}
use comp310_assignments.Fs.Cache.Steps.{Keeps, with_access, with_access-Keeps}
use comp310_assignments.Fs.Cache.WriteBack.{take_slot-Keeps}

-- The number of the first `n` entries whose reference bit is set.
count_access : (ℕ → Entry) → ℕ → ℕ
count_access entries zero = 0
count_access entries (suc n) = count_access entries n + (if (entries n).access then 1 else 0)

count_access-le : (entries : ℕ → Entry) (n : ℕ) → count_access entries n ≤ n
unfolding count_access
count_access-le entries zero = omega arith
count_access-le entries (suc n) = ground (arith, count_access-le entries n)

module _ (entries : ℕ → Entry) (i : ℕ) (e : Entry) (cleared : e.access ≡ false) where
  count_access-above :
      (n : ℕ) → n ≤ i → count_access (update entries i e) n ≡ count_access entries n
  unfolding count_access
  count_access-above zero h = refl
  count_access-above (suc n) h = ground (arith, count_access-above n)

  count_access-clear :
      (n : ℕ)
      → i < n
      → (entries i).access ≡ true
      → count_access (update entries i e) n + 1 ≡ count_access entries n
  unfolding count_access
  count_access-clear zero h a = absurd (omega arith)
  count_access-clear (suc n) h a = elim (Nat-order n i) [
    | inl le ↦ ground (arith, count_access-above n)
    | inr lt ↦ ground (arith, count_access-clear n lt a)
  ]

-- A slot that is not occupied stands at the clock.
pub record Freed (c : Cache) (result : Option Cache) : Type 0 where
  pub cache : Cache
  pub ends : result ≡ some cache
  pub keeps : Keeps c cache
  pub free : (cache.entry (cache.clock)).occupied ≡ false
  pub fewer : (sector j : ℕ) → holds cache sector j ≡ true → holds c sector j ≡ true

advance : Cache → Cache
advance c = with_access c c.clock false (next_clock c.clock)

module _ (f : ℕ) (c : Cache) where
  evict_loop-free : (c.entry (c.clock)).occupied ≡ false → evict_loop (suc f) c ≡ some c
  unfolding evict_loop
  evict_loop-free e = ground arith

  evict_loop-advance :
      (c.entry (c.clock)).occupied ≡ true
      → (c.entry (c.clock)).access ≡ true
      → evict_loop (suc f) c ≡ evict_loop f (advance c)
  unfolding evict_loop advance
  evict_loop-advance e a = ground arith

  evict_loop-take :
      (c.entry (c.clock)).occupied ≡ true
      → (c.entry (c.clock)).access ≡ false
      → evict_loop (suc f) c ≡ some (take_slot c.clock c)
  unfolding evict_loop
  evict_loop-take e a = ground arith

taken_free :
    (c : Cache) → ((take_slot c.clock c).entry ((take_slot c.clock c).clock)).occupied ≡ false
unfolding take_slot buffer_cache_flush
taken_free c = ground arith

taken_fewer :
    (c : Cache) (sector j : ℕ)
    → holds (take_slot c.clock c) sector j ≡ true
    → holds c sector j ≡ true
unfolding take_slot buffer_cache_flush holds
taken_fewer c sector j h = ground arith

advance_fewer :
    (c : Cache) (sector j : ℕ) → holds (advance c) sector j ≡ true → holds c sector j ≡ true
unfolding advance holds
advance_fewer c sector j h = ground arith

evict_loop-Freed :
    (f : ℕ) (c : Cache)
    → IsCoherent c
    → count_access c.entry buffer_cache_size < f
    → Freed c (evict_loop f c)
evict_loop-Freed zero c v h = absurd (omega arith)
evict_loop-Freed (suc f) c v h = elim (Bool-cases (c.entry (c.clock)).occupied) [
  | inr free ↦ record {
    cache = c;
    ends = evict_loop-free f c free;
    keeps = record { coherent = v; same = λ sector. refl };
    free = free;
    fewer = λ sector j h. h;
  }
  | inl occupied ↦ elim (Bool-cases (c.entry (c.clock)).access) [
    | inr out ↦ record {
      cache = take_slot c.clock c;
      ends = evict_loop-take f c occupied out;
      keeps = take_slot-Keeps c c.clock v v.clock_in occupied;
      free = taken_free c;
      fewer = taken_fewer c;
    }
    | inl second ↦
        let k : Keeps c (advance c) =
          unfold advance in
          with_access-Keeps c c.clock false (next_clock c.clock) v (omega arith) in
        let r : Freed (advance c) (evict_loop f (advance c)) =
          evict_loop-Freed f (advance c) k.coherent (
            unfold advance in
            omega (
              arith,
              count_access-clear c.entry c.clock (record (c.entry (c.clock)) { access = false })
                  refl buffer_cache_size v.clock_in second,
            )) in
        record {
          cache = r.cache;
          ends = evict_loop-advance f c occupied second ∙ r.ends;
          keeps = record {
            coherent = r.keeps.coherent;
            same = λ sector. r.keeps.same sector ∙ k.same sector;
          };
          free = r.free;
          fewer = λ sector j h. advance_fewer c sector j (r.fewer sector j h);
        }
  ]
]

-- From a coherent cache the call ends within 65 rounds. The slot at the clock is then not occupied, and the content
-- that the cache stands for is unchanged.
pub buffer_cache_evict-Freed : (c : Cache) → IsCoherent c → Freed c (buffer_cache_evict c)
unfolding buffer_cache_evict
buffer_cache_evict-Freed c v = evict_loop-Freed 65 c v (omega (arith, count_access-le c.entry 64))
