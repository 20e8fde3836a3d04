-- ===== src/Fs/Cache/Fill.antt =====
-- Reading a sector into a slot, and writing to the entry that holds a sector.
use comp310_assignments.Prelude.{
  ℕ, ◌<◌, ◌≡◌, refl, sym, ap, ◌∙◌, inl, inr, true, false, false≢true, arith, Nat-cases, subst, ◌≢◌,
  ◌⊎◌,
}
use comp310_assignments.Fs.Cache.{Block, Cache, buffer_cache_size, holds, set_entry, fill}
use comp310_assignments.Fs.Cache.View.{view, IsClean, IsCoherent, holds_iff, view-hit, view-miss}
use comp310_assignments.Fs.Cache.Steps.{Keeps, view-same, unique-same}

-- Reading a sector that no entry holds into an entry that is not occupied.
pub fill-Keeps :
    (c : Cache) (sector i : ℕ)
    → IsCoherent c
    → i < buffer_cache_size
    → (c.entry i).occupied ≡ false
    → ((j : ℕ) → j < buffer_cache_size → holds c sector j ≡ false)
    → Keeps c (fill sector i c) × (holds (fill sector i c) sector i ≡ true)
unfolding fill
fill-Keeps c sector i v hi free missing = (record { coherent = coherent; same = same }, held_self)
  where
    c' : Cache
    c' = set_entry c i (record (c.entry i) {
      occupied = true;
      disk_sector = sector;
      dirty = false;
      buffer = c.disk sector;
    })

    held_self : holds c' sector i ≡ true
    held_self = unfold holds in ground arith

    held_ne : (s j : ℕ) → i ≢ j → holds c' s j ≡ holds c s j
    held_ne s j ne = unfold holds in ground arith

    held_other : (s : ℕ) → sector ≢ s → (j : ℕ) → holds c' s j ≡ holds c s j
    held_other s far j = unfold holds in ground arith

    only : (j s : ℕ) → j < buffer_cache_size → holds c' s j ≡ true → (i ≡ j) ⊎ (holds c s j ≡ true)
    only j s hj h = elim (Nat-cases i j) [ inl e ↦ inl e | inr ne ↦ inr (sym (held_ne s j ne) ∙ h) ]

    at_i : (s : ℕ) → holds c' s i ≡ true → sector ≡ s
    at_i s h = unfold holds in ground arith

    clash : (s j : ℕ) → j < buffer_cache_size → holds c' s i ≡ true → holds c s j ≡ true → ⊥
    clash s j hj h h' =
        false≢true (sym (missing j hj) ∙ subst (λ t. holds c t j ≡ true) (sym (at_i s h)) h')

    unique :
        (j k s : ℕ)
        → j < buffer_cache_size
        → k < buffer_cache_size
        → holds c' s j ≡ true
        → holds c' s k ≡ true
        → j ≡ k
    unique j k s hj hk p q = elim (only j s hj p) [
      | inl e ↦ elim (only k s hk q) [
        | inl e' ↦ sym e ∙ e'
        | inr old' ↦ absurd (clash s k hk (subst (λ t. holds c' s t ≡ true) (sym e) p) old')
      ]
      | inr old ↦ elim (only k s hk q) [
        | inl e' ↦ absurd (clash s j hj (subst (λ t. holds c' s t ≡ true) (sym e') q) old)
        | inr old' ↦ v.unique j k s hj hk old old'
      ]
    ]

    clean : (j : ℕ) → j < buffer_cache_size → IsClean c' j
    clean j hj occ d = let known : IsClean c j = v.clean j hj in ground arith

    coherent : IsCoherent c'
    coherent = record { clock_in = v.clock_in; unique = unique; clean = clean }

    own : (c'.entry i).buffer ≡ c.disk sector
    own = ground arith

    not_i : (s : ℕ) → holds c s i ≡ true → ⊥
    not_i s h = false≢true (sym free ∙ (holds_iff c s i h).0)

    buffers : (s j : ℕ) → holds c s j ≡ true → (c'.entry j).buffer ≡ (c.entry j).buffer
    buffers s j h =
        let ne : i ≢ j = λ e. not_i s (subst (λ t. holds c s t ≡ true) (sym e) h) in ground arith

    same : (s : ℕ) → view c' s ≡ view c s
    same s = elim (Nat-cases sector s) [
      | inl e ↦
          subst (λ t. view c' t ≡ view c t) e
            (view-hit c' sector i coherent hi held_self ∙ own ∙ sym (view-miss c sector missing))
      | inr far ↦ view-same c c' s (held_other s far) (buffers s) (λ _. refl)
    ]

-- Replacing the buffer of the entry that holds a sector.
pub record Writes (c c' : Cache) (sector : ℕ) (source : Block) : Type 0 where
  pub coherent : IsCoherent c'
  pub written : view c' sector ≡ source
  pub others : (s : ℕ) → sector ≢ s → view c' s ≡ view c s

pub write_entry-Writes :
    (c : Cache) (sector i : ℕ) (source : Block)
    → IsCoherent c
    → i < buffer_cache_size
    → holds c sector i ≡ true
    → Writes c
        (set_entry c i (record (c.entry i) { access = true; dirty = true; buffer = source }))
        sector
        source
write_entry-Writes c sector i source v hi h = record {
  coherent = coherent;
  written = view-hit c' sector i coherent hi (held sector i ∙ h) ∙ own;
  others = λ s far. view-same c c' s (held s) (buffers s far) (λ _. refl);
}
  where
    c' : Cache
    c' = set_entry c i (record (c.entry i) { access = true; dirty = true; buffer = source })

    held : (s j : ℕ) → holds c' s j ≡ holds c s j
    held s j = unfold holds in ground arith

    own : (c'.entry i).buffer ≡ source
    own = ground arith

    clean : (j : ℕ) → j < buffer_cache_size → IsClean c' j
    clean j hj occ d = let known : IsClean c j = v.clean j hj in ground arith

    coherent : IsCoherent c'
    coherent = record { clock_in = v.clock_in; unique = unique-same c c' v held; clean = clean }

    buffers :
        (s : ℕ)
        → sector ≢ s
        → (j : ℕ) → holds c s j ≡ true
        → (c'.entry j).buffer ≡ (c.entry j).buffer
    buffers s far j h' =
        let ne : i ≢ j = λ e. far (
          sym (holds_iff c sector i h).1
          ∙ ap (λ t. (c.entry t).disk_sector) e
          ∙ (holds_iff c s j h').1) in
        ground arith
