-- ===== src/Fs/Cache/Steps.antt =====
-- What each change of one entry does to the content that the cache stands for.
use comp310_assignments.Prelude.{
  ℕ, ◌+◌, ◌<◌, ◌≡◌, refl, sym, ap, ◌∙◌, inl, inr, Bool, true, arith, fun_ext,
}
use comp310_assignments.Prelude.Scan.{scan, NonePass, scan-cases}
use comp310_assignments.Fs.Cache.{Cache, buffer_cache_size, holds, buffer_cache_lookup, update}
use comp310_assignments.Fs.Cache.View.{view, IsClean, IsCoherent, view-found, view-lost}

-- The clients see no difference, and the cache stays coherent.
pub record Keeps (c c' : Cache) : Type 0 where
  pub coherent : IsCoherent c'
  pub same : (sector : ℕ) → view c' sector ≡ view c sector

pub view-same :
    (c c' : Cache) (sector : ℕ)
    → ((j : ℕ) → holds c' sector j ≡ holds c sector j)
    → ((j : ℕ) → holds c sector j ≡ true → (c'.entry j).buffer ≡ (c.entry j).buffer)
    → (NonePass (holds c sector) 0 (0 + buffer_cache_size) → c'.disk sector ≡ c.disk sector)
    → view c' sector ≡ view c sector
unfolding buffer_cache_lookup
view-same c c' sector h b d = elim (scan-cases (holds c sector) buffer_cache_size 0) [
  | inl (r, never) ↦
      view-lost c' sector (ap (λ t. scan t buffer_cache_size 0) (fun_ext h) ∙ r)
      ∙ d never
      ∙ sym (view-lost c sector r)
  | inr (j, r, f) ↦
      view-found c' sector j (ap (λ t. scan t buffer_cache_size 0) (fun_ext h) ∙ r)
      ∙ b j f.passes
      ∙ sym (view-found c sector j r)
]

pub unique-same :
    (c c' : Cache)
    → IsCoherent c
    → ((sector j : ℕ) → holds c' sector j ≡ holds c sector j)
    → (i j sector : ℕ) → i < buffer_cache_size
    → j < buffer_cache_size
    → holds c' sector i ≡ true
    → holds c' sector j ≡ true
    → i ≡ j
unique-same c c' v h i j sector hi hj p q =
    v.unique i j sector hi hj (sym (h sector i) ∙ p) (sym (h sector j) ∙ q)

-- The reference bit of an entry, and the clock.
abbrev pub with_access : Cache → ℕ → Bool → ℕ → Cache
with_access c i b k = record c {
  entry = update c.entry i (record (c.entry i) { access = b });
  clock = k;
}

pub with_access-Keeps :
    (c : Cache) (i : ℕ) (b : Bool) (k : ℕ)
    → IsCoherent c
    → k < buffer_cache_size
    → Keeps c (with_access c i b k)
with_access-Keeps c i b k v hk = record {
  coherent = record {
    clock_in = hk;
    unique = unique-same c (with_access c i b k) v held;
    clean = λ j hj occ cl. clean j hj occ cl;
  };
  same = λ sector.
      view-same c (with_access c i b k) sector (held sector) (λ j _. buffers j) (λ _. refl);
}
  where
    held : (sector j : ℕ) → holds (with_access c i b k) sector j ≡ holds c sector j
    held sector j = unfold holds in ground arith

    buffers : (j : ℕ) → ((with_access c i b k).entry j).buffer ≡ (c.entry j).buffer
    buffers j = ground arith

    clean : (j : ℕ) → j < buffer_cache_size → IsClean (with_access c i b k) j
    clean j hj occ cl = let known : IsClean c j = v.clean j hj in ground arith
