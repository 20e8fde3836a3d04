-- ===== src/Fs/Cache/WriteBack.antt =====
-- Writing an entry back to the disk, and taking its slot.
use comp310_assignments.Prelude.{
  ℕ, ◌+◌, ◌<◌, ◌≡◌, refl, sym, ap, ◌∙◌, inl, inr, true, false, false≢true, arith, Bool-cases,
  Nat-cases, subst, ◌≢◌,
}
use comp310_assignments.Prelude.Scan.{NonePass}
use comp310_assignments.Fs.Cache.{
  Cache, buffer_cache_size, holds, update, set_entry, buffer_cache_flush, take_slot,
}
use comp310_assignments.Fs.Cache.View.{
  view, IsClean, IsCoherent, holds_iff, holds-intro, view-hit, view-miss,
}
use comp310_assignments.Fs.Cache.Steps.{Keeps, view-same, unique-same}

-- Writing an occupied dirty entry back.
abbrev flushed : Cache → ℕ → Cache
flushed c i = record c {
  entry = update c.entry i (record (c.entry i) { dirty = false });
  disk = update c.disk (c.entry i).disk_sector (c.entry i).buffer;
}

flushed-Keeps :
    (c : Cache) (i : ℕ)
    → IsCoherent c
    → i < buffer_cache_size
    → (c.entry i).occupied ≡ true
    → Keeps c (flushed c i)
flushed-Keeps c i v hi occupied = record {
  coherent = record {
    clock_in = v.clock_in;
    unique = unique-same c (flushed c i) v held;
    clean = λ j hj occ cl. clean j hj occ cl;
  };
  same = λ sector. same sector;
}
  where
    held : (sector j : ℕ) → holds (flushed c i) sector j ≡ holds c sector j
    held sector j = unfold holds in ground arith

    buffers : (j : ℕ) → ((flushed c i).entry j).buffer ≡ (c.entry j).buffer
    buffers j = ground arith

    apart_miss :
        (sector : ℕ)
        → NonePass (holds c sector) 0 (0 + buffer_cache_size)
        → (c.entry i).disk_sector ≢ sector
    apart_miss sector never e = false≢true (
        sym (never i (omega arith) (omega arith))
        ∙ subst (λ s. holds c s i ≡ true) e (holds-intro c i occupied))

    other_sector :
        (sector : ℕ) → (c.entry i).disk_sector ≢ sector → (flushed c i).disk sector ≡ c.disk sector
    other_sector sector ne = ground arith

    same : (sector : ℕ) → view (flushed c i) sector ≡ view c sector
    same sector =
        view-same c (flushed c i) sector (held sector) (λ j _. buffers j)
          (λ never. other_sector sector (apart_miss sector never))

    apart_hit :
        (j : ℕ)
        → j < buffer_cache_size
        → (c.entry j).occupied ≡ true
        → i ≢ j
        → (c.entry i).disk_sector ≢ (c.entry j).disk_sector
    apart_hit j hj occ ne e = ne (
        v.unique i j (c.entry j).disk_sector hi hj
          (subst (λ s. holds c s i ≡ true) e (holds-intro c i occupied)) (holds-intro c j occ))

    clean : (j : ℕ) → j < buffer_cache_size → IsClean (flushed c i) j
    clean j hj occ cl = elim (Nat-cases i j) [
      | inl e ↦ ground arith
      | inr ne ↦
          let occ' : (c.entry j).occupied ≡ true = ground arith in
          let cl' : (c.entry j).dirty ≡ false = ground arith in
          let known : (c.entry j).buffer ≡ c.disk (c.entry j).disk_sector = v.clean j hj occ' cl' in
          let far : (c.entry i).disk_sector ≢ (c.entry j).disk_sector = apart_hit j hj occ' ne in
          ground arith
    ]

pub buffer_cache_flush-Keeps :
    (c : Cache) (i : ℕ)
    → IsCoherent c
    → i < buffer_cache_size
    → (c.entry i).occupied ≡ true
    → Keeps c (buffer_cache_flush i c)
unfolding buffer_cache_flush
buffer_cache_flush-Keeps c i v hi occupied = elim (Bool-cases (c.entry i).dirty) [
  | inl d ↦ rw d (flushed-Keeps c i v hi occupied)
  | inr d ↦ rw d (record { coherent = v; same = λ sector. refl })
]

-- Dropping an entry that agrees with the disk.
abbrev dropped : Cache → ℕ → Cache
dropped c i = set_entry c i (record (c.entry i) { occupied = false })

dropped-Keeps :
    (c : Cache) (i : ℕ)
    → IsCoherent c
    → i < buffer_cache_size
    → (c.entry i).occupied ≡ true
    → (c.entry i).dirty ≡ false
    → Keeps c (dropped c i)
dropped-Keeps c i v hi occupied cl = record {
  coherent = record {
    clock_in = v.clock_in;
    unique = λ j k sector hj hk p q.
        v.unique j k sector hj hk (held_before j sector p) (held_before k sector q);
    clean = λ j hj occ d. clean j hj occ d;
  };
  same = λ sector. same sector;
}
  where
    held_before : (j sector : ℕ) → holds (dropped c i) sector j ≡ true → holds c sector j ≡ true
    held_before j sector p = unfold holds in ground arith

    held_ne : (sector j : ℕ) → i ≢ j → holds (dropped c i) sector j ≡ holds c sector j
    held_ne sector j ne = unfold holds in ground arith

    held_self : (sector : ℕ) → holds (dropped c i) sector i ≡ false
    held_self sector = unfold holds in ground arith

    clean : (j : ℕ) → j < buffer_cache_size → IsClean (dropped c i) j
    clean j hj occ d = let known : IsClean c j = v.clean j hj in ground arith

    holds_i : (sector : ℕ) → (c.entry i).disk_sector ≡ sector → holds c sector i ≡ true
    holds_i sector e = subst (λ s. holds c s i ≡ true) e (holds-intro c i occupied)

    lost :
        (sector : ℕ)
        → (c.entry i).disk_sector ≡ sector
        → (j : ℕ) → j < buffer_cache_size
        → holds (dropped c i) sector j ≡ false
    lost sector e j hj = elim (Nat-cases i j) [
      | inl same ↦ subst (λ k. holds (dropped c i) sector k ≡ false) same (held_self sector)
      | inr ne ↦ elim (Bool-cases (holds c sector j)) [
        | inl h ↦ absurd (ne (v.unique i j sector hi hj (holds_i sector e) h))
        | inr h ↦ held_ne sector j ne ∙ h
      ]
    ]

    not_i : (sector : ℕ) → (c.entry i).disk_sector ≢ sector → holds c sector i ≡ false
    not_i sector ne = elim (Bool-cases (holds c sector i)) [
      | inl h ↦ absurd (ne ((holds_iff c sector i h).1))
      | inr h ↦ h
    ]

    held :
        (sector : ℕ)
        → (c.entry i).disk_sector ≢ sector
        → (j : ℕ) → holds (dropped c i) sector j ≡ holds c sector j
    held sector far j = elim (Nat-cases i j) [
      | inl same ↦
          subst (λ k. holds (dropped c i) sector k ≡ holds c sector k) same
            (held_self sector ∙ sym (not_i sector far))
      | inr ne ↦ held_ne sector j ne
    ]

    buffers : (j : ℕ) → ((dropped c i).entry j).buffer ≡ (c.entry j).buffer
    buffers j = ground arith

    same : (sector : ℕ) → view (dropped c i) sector ≡ view c sector
    same sector = elim (Nat-cases (c.entry i).disk_sector sector) [
      | inl e ↦
          view-miss (dropped c i) sector (lost sector e)
          ∙ ap c.disk (sym e)
          ∙ sym (v.clean i hi occupied cl)
          ∙ sym (view-hit c sector i v hi (holds_i sector e))
      | inr ne ↦ view-same c (dropped c i) sector (held sector ne) (λ j _. buffers j) (λ _. refl)
    ]

-- Taking the slot of an occupied entry, at the clock or elsewhere.
pub take_slot-Keeps :
    (c : Cache) (i : ℕ)
    → IsCoherent c
    → i < buffer_cache_size
    → (c.entry i).occupied ≡ true
    → Keeps c (take_slot i c)
unfolding take_slot buffer_cache_flush
take_slot-Keeps c i v hi occupied = elim (Bool-cases (c.entry i).dirty) [
  | inl d ↦
      let k : Keeps c (flushed c i) = flushed-Keeps c i v hi occupied in
      let k' : Keeps (flushed c i) (dropped (flushed c i) i) =
        dropped-Keeps (flushed c i) i k.coherent hi (ground arith) (ground arith) in
      rw d (record { coherent = k'.coherent; same = λ sector. k'.same sector ∙ k.same sector })
  | inr d ↦ rw d (dropped-Keeps c i v hi occupied d)
]
