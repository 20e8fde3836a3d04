-- ===== src/Fs/Cache/View.antt =====
-- What the buffer cache stands for: the content of every sector, as its clients see it.
use comp310_assignments.Prelude.{
  ℕ, ◌<◌, ◌≡◌, sym, ap, ◌∙◌, inl, inr, true, false, false≢true, none, some, arith,
}
use comp310_assignments.Prelude.Scan.{scan-cases, scan-none_of}
use comp310_assignments.Fs.Cache.{Block, Cache, buffer_cache_size, holds, buffer_cache_lookup}

-- The buffer of the entry that holds the sector; the disk's content where none does.
unfoldable pub view : Cache → ℕ → Block
view c sector = elim (buffer_cache_lookup sector c) [
  | some i ↦ (c.entry i).buffer
  | none ↦ c.disk sector
]

-- An occupied entry that is not dirty agrees with the disk.
abbrev pub IsClean : Cache → ℕ → Type 0
IsClean c i =
    (c.entry i).occupied ≡ true
    → (c.entry i).dirty ≡ false
    → (c.entry i).buffer ≡ c.disk (c.entry i).disk_sector

-- No two entries hold the same sector, and an entry that is not dirty agrees with the disk.
pub record IsCoherent (c : Cache) : Type 0 where
  pub clock_in : c.clock < buffer_cache_size
  pub unique :
      (i j sector : ℕ)
      → i < buffer_cache_size
      → j < buffer_cache_size
      → holds c sector i ≡ true
      → holds c sector j ≡ true
      → i ≡ j
  pub clean : (i : ℕ) → i < buffer_cache_size → IsClean c i

pub holds_iff :
    (c : Cache) (sector i : ℕ)
    → holds c sector i ≡ true
    → ((c.entry i).occupied ≡ true) × ((c.entry i).disk_sector ≡ sector)
unfolding holds
holds_iff c sector i h = ground arith

pub holds-intro :
    (c : Cache) (i : ℕ) → (c.entry i).occupied ≡ true → holds c (c.entry i).disk_sector i ≡ true
unfolding holds
holds-intro c i h = ground arith

pub view-found :
    (c : Cache) (sector i : ℕ)
    → buffer_cache_lookup sector c ≡ some i
    → view c sector ≡ (c.entry i).buffer
unfolding view
view-found c sector i e = ground arith

pub view-lost :
    (c : Cache) (sector : ℕ) → buffer_cache_lookup sector c ≡ none → view c sector ≡ c.disk sector
unfolding view
view-lost c sector e = ground arith

pub view-hit :
    (c : Cache) (sector i : ℕ)
    → IsCoherent c
    → i < buffer_cache_size
    → holds c sector i ≡ true
    → view c sector ≡ (c.entry i).buffer
unfolding buffer_cache_lookup
view-hit c sector i v h e = elim (scan-cases (holds c sector) buffer_cache_size 0) [
  | inl (r, never) ↦ absurd (false≢true (sym (never i (omega arith) (omega arith)) ∙ e))
  | inr (j, r, f) ↦
      view-found c sector j r
      ∙ ap (λ k. (c.entry k).buffer) (v.unique j i sector (omega (arith, f.below)) h f.passes e)
]

pub view-miss :
    (c : Cache) (sector : ℕ)
    → ((i : ℕ) → i < buffer_cache_size → holds c sector i ≡ false)
    → view c sector ≡ c.disk sector
unfolding buffer_cache_lookup
view-miss c sector h =
    view-lost c sector
      (scan-none_of (holds c sector) buffer_cache_size 0 (λ k lo hi. h k (omega arith)))
