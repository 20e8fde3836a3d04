-- ===== src/Fs/Cache/Trace.antt =====
-- A client's calls of the buffer cache, in order, against a disk without a cache.
use comp310_assignments.Prelude.{
  ℕ, zero, suc, ◌+◌, ◌≤◌, ◌<◌, ◌≡◌, refl, sym, ap, ◌∙◌, ◌≢◌, inl, inr, true, false, false≢true,
  List, [], ◌∷◌, Option, none, some, arith, if◌then◌else◌, Bool-cases, Nat-cases, subst, fun_ext,
}
use comp310_assignments.Prelude.Scan.{scan-cases}
use comp310_assignments.Fs.Cache.{
  Block, Entry, Cache, buffer_cache_size, update, holds, init_entries, buffer_cache_init,
  buffer_cache_read, buffer_cache_write, buffer_cache_flush, flush_from, buffer_cache_close,
}
use comp310_assignments.Fs.Cache.View.{view, IsCoherent, holds_iff, view-hit, view-miss}
use comp310_assignments.Fs.Cache.Steps.{Keeps}
use comp310_assignments.Fs.Cache.WriteBack.{buffer_cache_flush-Keeps}
use comp310_assignments.Fs.Cache.Refine.{buffer_cache_read_lem, buffer_cache_write_lem}

init_entries-out :
    (n i j : ℕ) (entries : ℕ → Entry) → j < i → init_entries n i entries j ≡ entries j
unfolding init_entries
init_entries-out zero i j entries h = refl
init_entries-out (suc n) i j entries h =
    init_entries-out n (i + 1) j
      (update entries i (record (entries i) { occupied = false; dirty = false })) (omega arith)
    ∙ ground arith

init_entries-in :
    (n i j : ℕ) (entries : ℕ → Entry)
    → i ≤ j
    → j < i + n
    → (init_entries n i entries j).occupied ≡ false
unfolding init_entries
init_entries-in zero i j entries lo hi = absurd (omega arith)
init_entries-in (suc n) i j entries lo hi = elim (Nat-cases i j) [
  | inl e ↦
      ap (λ (x : Entry). x.occupied)
        (init_entries-out n (i + 1) j
          (update entries i (record (entries i) { occupied = false; dirty = false })) (omega arith))
      ∙ ground arith
  | inr ne ↦ init_entries-in n (i + 1) j _ (omega arith) (omega arith)
]

-- After `buffer_cache_init`, with the clock in range, the cache is coherent and stands for the disk's content.
pub buffer_cache_init_lem :
    (c : Cache)
    → c.clock < buffer_cache_size
    → IsCoherent (buffer_cache_init c) × ((s : ℕ) → view (buffer_cache_init c) s ≡ c.disk s)
unfolding buffer_cache_init
buffer_cache_init_lem c h = (
  record {
    clock_in = h;
    unique = λ i j s hi hj p q. absurd (false≢true (sym (missing s i hi) ∙ p));
    clean = λ i hi occ d. absurd (false≢true (sym (empty i hi) ∙ occ));
  },
  λ s. view-miss (buffer_cache_init c) s (missing s),
)
  where
    empty : (i : ℕ) → i < buffer_cache_size → ((buffer_cache_init c).entry i).occupied ≡ false
    empty i hi = init_entries-in 64 0 i c.entry (omega arith) (omega arith)

    missing : (s i : ℕ) → i < buffer_cache_size → holds (buffer_cache_init c) s i ≡ false
    missing s i hi = elim (Bool-cases (holds (buffer_cache_init c) s i)) [
      | inl t ↦ absurd (false≢true (sym (empty i hi) ∙ (holds_iff (buffer_cache_init c) s i t).0))
      | inr t ↦ t
    ]

abbrev IsWritten : Cache → ℕ → Type 0
IsWritten c j = (c.entry j).occupied ≡ true → (c.entry j).dirty ≡ false

abbrev flush_one : ℕ → Cache → Cache
flush_one i c = if (c.entry i).occupied then buffer_cache_flush i c else c

flush_one_self : (c : Cache) (i : ℕ) → IsWritten (flush_one i c) i
unfolding buffer_cache_flush
flush_one_self c i = ground arith

flush_one-other : (c : Cache) (i j : ℕ) → IsWritten c j → IsWritten (flush_one i c) j
unfolding buffer_cache_flush
flush_one-other c i j h = ground arith

flush_one-Keeps :
    (c : Cache) (i : ℕ) → IsCoherent c → i < buffer_cache_size → Keeps c (flush_one i c)
flush_one-Keeps c i v hi = elim (Bool-cases (c.entry i).occupied) [
  | inl t ↦ rw t (buffer_cache_flush-Keeps c i v hi t)
  | inr t ↦ rw t (record { coherent = v; same = λ s. refl })
]

flush_from-other : (n i j : ℕ) (c : Cache) → IsWritten c j → IsWritten (flush_from n i c) j
unfolding flush_from
flush_from-other zero i j c h = h
flush_from-other (suc n) i j c h =
    flush_from-other n (i + 1) j (flush_one i c) (flush_one-other c i j h)

flush_from-in : (n i j : ℕ) (c : Cache) → i ≤ j → j < i + n → IsWritten (flush_from n i c) j
unfolding flush_from
flush_from-in zero i j c lo hi = absurd (omega arith)
flush_from-in (suc n) i j c lo hi = elim (Nat-cases i j) [
  | inl e ↦
      flush_from-other n (i + 1) j (flush_one i c)
        (subst (IsWritten (flush_one i c)) e (flush_one_self c i))
  | inr ne ↦ flush_from-in n (i + 1) j (flush_one i c) (omega arith) (omega arith)
]

flush_from-Keeps :
    (n i : ℕ) (c : Cache) → IsCoherent c → i + n ≤ buffer_cache_size → Keeps c (flush_from n i c)
unfolding flush_from
flush_from-Keeps zero i c v h = record { coherent = v; same = λ s. refl }
flush_from-Keeps (suc n) i c v h =
    let k : Keeps c (flush_one i c) = flush_one-Keeps c i v (omega arith) in
    let k' : Keeps (flush_one i c) (flush_from n (i + 1) (flush_one i c)) =
      flush_from-Keeps n (i + 1) (flush_one i c) k.coherent (omega arith) in
    record { coherent = k'.coherent; same = λ s. k'.same s ∙ k.same s }

view-written :
    (c : Cache) (s : ℕ)
    → IsCoherent c
    → ((j : ℕ) → j < buffer_cache_size → IsWritten c j)
    → c.disk s ≡ view c s
view-written c s v written = elim (scan-cases (holds c s) 64 0) [
  | inl (_, never) ↦ sym (view-miss c s (λ i hi. never i (omega arith) (omega arith)))
  | inr (i, _, f) ↦
      let (occ, at) = holds_iff c s i f.passes in
      let hi : i < buffer_cache_size = omega (arith, f.below) in
      sym (view-hit c s i v hi f.passes ∙ v.clean i hi occ (written i hi occ) ∙ ap c.disk at)
]

-- After `buffer_cache_close` of a coherent cache every sector of the disk has the content that the cache stood for.
pub buffer_cache_close_lem :
    (c : Cache)
    → IsCoherent c
    → IsCoherent (buffer_cache_close c) × ((s : ℕ) → (buffer_cache_close c).disk s ≡ view c s)
unfolding buffer_cache_close
buffer_cache_close_lem c v = (
  k.coherent,
  λ s.
      view-written (flush_from 64 0 c) s k.coherent
        (λ j hj. flush_from-in 64 0 j c (omega arith) (omega arith))
      ∙ k.same s,
)
  where
    k : Keeps c (flush_from 64 0 c)
    k = flush_from-Keeps 64 0 c v (omega arith)

pub data Op : Type 0 where
  read : ℕ → Op
  write : ℕ → Block → Op

-- The contents that the reads gave, in order, and the cache afterwards.
unfoldable pub run_cache : List Op → Cache → Option (List Block × Cache)
run_cache [] c = some ([], c)
run_cache (read s ∷ ops) c = elim (buffer_cache_read s c) [
  | none ↦ none
  | some (b, c') ↦ elim (run_cache ops c') [ none ↦ none | some (bs, c2) ↦ some (b ∷ bs, c2) ]
]
run_cache (write s b ∷ ops) c = elim (buffer_cache_write s b c) [
  | none ↦ none
  | some c' ↦ run_cache ops c'
]

-- The same calls on a disk.
unfoldable pub run_disk : List Op → (ℕ → Block) → List Block × (ℕ → Block)
run_disk [] d = ([], d)
run_disk (read s ∷ ops) d = let (bs, d') = run_disk ops d in (d s ∷ bs, d')
run_disk (write s b ∷ ops) d = run_disk ops (update d s b)

-- Every sequence of reads and writes of a coherent cache ends. The reads give what a disk without a cache would
-- give, and the cache stands for that disk's content afterwards.
pub run_cache-run_disk :
    (ops : List Op) (c : Cache)
    → IsCoherent c
    → (c' : Cache) × (run_cache ops c ≡ some ((run_disk ops (view c)).0, c'))
      × IsCoherent c'
      × (view c' ≡ (run_disk ops (view c)).1)
unfolding run_cache run_disk
run_cache-run_disk [] c v = (c, refl, v, refl)
run_cache-run_disk (read s ∷ ops) c v =
    let (c1, e, v1, same) = buffer_cache_read_lem s c v in
    let (c2, e2, v2, end') = run_cache-run_disk ops c1 v1 in
    let kept : view c1 ≡ view c = fun_ext same in
    (c2, ground (arith, e, e2, kept), v2, end' ∙ ap (λ d. (run_disk ops d).1) kept)
run_cache-run_disk (write s b ∷ ops) c v =
    let (c1, e, v1, own, others) = buffer_cache_write_lem s b c v in
    let (c2, e2, v2, end') = run_cache-run_disk ops c1 v1 in
    let kept : view c1 ≡ update (view c) s b = fun_ext (λ t. at t c1 own others) in
    (c2, ground (arith, e, e2, kept), v2, end' ∙ ap (λ d. (run_disk ops d).1) kept)
  where
    at :
        (t : ℕ) (c1 : Cache)
        → view c1 s ≡ b
        → ((x : ℕ) → s ≢ x → view c1 x ≡ view c x)
        → view c1 t ≡ update (view c) s b t
    at t c1 own others = elim (Nat-cases s t) [
      | inl e ↦ ground arith
      | inr ne ↦ others t ne ∙ ground arith
    ]
