-- ===== src/A3/Memory/Frames.antt =====
-- The frames of a3/shellmemory.c: `frame_alloc` is a first fit.
use comp310_assignments.Prelude.{
  ℕ, ◌+◌, ◌≤◌, ◌<◌, ◌≡◌, sym, ap, ◌∙◌, false≢true, ◌≢◌, ◌⊎◌, ◌↔◌, inl, inr, true, false, none, some,
  arith, Text, streq_self, [], ◌∷◌, none_text, length, get_or-set_self, get_or-set_ne, length-set,
  three_cases, Bool-cases, Option-cases,
}
use comp310_assignments.Prelude.Scan.{scan, IsFirst, scan-cases, scan-first, scan-none_of}
use comp310_assignments.ShellMemory.{Slot, Store, free_slot, slot_at}
use comp310_assignments.A3.Memory.{
  is_free, free_run, has_space, occupy, frame_alloc, Frame, clear_frame, free_range,
}
use comp310_assignments.A3.Memory.Variables.{slot_at-free_range_in, slot_at-free_range_out}

-- Three free slots below the border.
pub record IsSpace (border : ℕ) (m : Store) (i : ℕ) : Type 0 where
  pub inside : i + 3 ≤ border
  pub first : is_free m i ≡ true
  pub second : is_free m (i + 1) ≡ true
  pub third : is_free m (i + 2) ≡ true

pub has_space→ : (border : ℕ) (m : Store) (i : ℕ) → has_space border m i ≡ true → IsSpace border m i
unfolding has_space free_run
has_space→ border m i h = ground arith

pub →has_space : (border : ℕ) (m : Store) (i : ℕ) → IsSpace border m i → has_space border m i ≡ true
unfolding has_space free_run
→has_space border m i s = ground arith

no_space : (border : ℕ) (m : Store) (i : ℕ) → ¬ IsSpace border m i → has_space border m i ≡ false
no_space border m i h = elim (Bool-cases (has_space border m i)) [
  | inl t ↦ absurd (h (has_space→ border m i t))
  | inr t ↦ t
]

slot_at-occupy_self :
    (pid : Text) (k : ℕ) (m : Store)
    → k < length m
    → slot_at (occupy pid k m) k ≡ record (slot_at m k) { var = pid }
unfolding occupy
slot_at-occupy_self pid k m h = get_or-set_self m k _ free_slot h

slot_at-occupy_ne :
    (pid : Text) (k j : ℕ) (m : Store) → k ≢ j → slot_at (occupy pid k m) j ≡ slot_at m j
unfolding occupy
slot_at-occupy_ne pid k j m h = get_or-set_ne m k j _ free_slot h

length-occupy : (pid : Text) (k : ℕ) (m : Store) → length (occupy pid k m) ≡ length m
unfolding occupy
length-occupy pid k m = length-set m k _

-- The three writes of `frame_alloc`.
unfoldable pub occupy_frame : Text → ℕ → Store → Store
occupy_frame pid i m = occupy pid (i + 2) (occupy pid (i + 1) (occupy pid i m))

occupy_frame_out :
    (pid : Text) (i k : ℕ) (m : Store)
    → (k < i) ⊎ (i + 3 ≤ k)
    → slot_at (occupy_frame pid i m) k ≡ slot_at m k
unfolding occupy_frame
occupy_frame_out pid i k m out =
    slot_at-occupy_ne pid (i + 2) k _ (omega arith)
    ∙ slot_at-occupy_ne pid (i + 1) k _ (omega arith)
    ∙ slot_at-occupy_ne pid i k m (omega arith)

occupy_frame_in :
    (pid : Text) (i k : ℕ) (m : Store)
    → i ≤ k
    → k < i + 3
    → i + 3 ≤ length m
    → slot_at (occupy_frame pid i m) k ≡ record (slot_at m k) { var = pid }
unfolding occupy_frame
occupy_frame_in pid i k m lo hi fits = elim (three_cases i k lo hi) [
  | inl e ↦
      slot_at-occupy_ne pid (i + 2) k _ (omega arith)
      ∙ slot_at-occupy_ne pid (i + 1) k _ (omega arith)
      ∙ rw (← e) (slot_at-occupy_self pid i m (omega arith))
  | inr (inl e) ↦
      slot_at-occupy_ne pid (i + 2) k _ (omega arith)
      ∙ rw (← e) (slot_at-occupy_self pid (i + 1) _ (omega (arith, length-occupy pid i m)))
      ∙ ap (λ (s : Slot). record s { var = pid }) (slot_at-occupy_ne pid i k m (omega arith))
  | inr (inr e) ↦
      rw (← e) (
        slot_at-occupy_self pid (i + 2) _
          (omega (arith, length-occupy pid i m, length-occupy pid (i + 1) (occupy pid i m))))
      ∙ ap (λ (s : Slot). record s { var = pid })
          (slot_at-occupy_ne pid (i + 1) k _ (omega arith)
            ∙ slot_at-occupy_ne pid i k m (omega arith))
]

frame_alloc-some :
    (border : ℕ) (pid : Text) (m : Store) (i : ℕ)
    → scan (has_space border m) border 0 ≡ some i
    → frame_alloc border pid m
      ≡ some (
        occupy_frame pid i m,
        record { index = i ∷ (i + 1) ∷ (i + 2) ∷ []; valid_bit = 0 ∷ 0 ∷ 0 ∷ [] },
      )
unfolding frame_alloc occupy_frame
frame_alloc-some border pid m i e = ground arith

frame_alloc-none :
    (border : ℕ) (pid : Text) (m : Store)
    → scan (has_space border m) border 0 ≡ none
    → frame_alloc border pid m ≡ none
unfolding frame_alloc
frame_alloc-none border pid m e = ground arith

-- If three free slots in a row lie below the border, `frame_alloc` succeeds. It takes the first such three: they get the
-- process as their variable and keep their values, all other slots stay as they are, the indices of
-- the three slots go out, and the valid bits are 0.
pub frame_alloc-takes_first :
    (border : ℕ) (pid : Text) (m : Store) (i : ℕ)
    → border ≤ length m
    → IsSpace border m i
    → ((k : ℕ) → k < i → ¬ IsSpace border m k)
    → (m' : Store) × (frame_alloc border pid m
        ≡ some (m', record { index = i ∷ (i + 1) ∷ (i + 2) ∷ []; valid_bit = 0 ∷ 0 ∷ 0 ∷ [] }))
      × ((k : ℕ) → i ≤ k → k < i + 3 → slot_at m' k ≡ record (slot_at m k) { var = pid })
      × ((k : ℕ) → (k < i) ⊎ (i + 3 ≤ k) → slot_at m' k ≡ slot_at m k)
frame_alloc-takes_first border pid m i fits s before = (
  occupy_frame pid i m,
  frame_alloc-some border pid m i (scan-first _ border 0 i first),
  (λ k lo hi. occupy_frame_in pid i k m lo hi (omega (arith, s.inside))),
  λ k out. occupy_frame_out pid i k m out,
)
  where
    first : IsFirst (has_space border m) 0 (0 + border) i
    first = record {
      above = omega arith;
      below = omega (arith, s.inside);
      passes = →has_space border m i s;
      before = λ k lo hi. no_space border m k (before k hi);
    }

frame_alloc-occupy :
    (border : ℕ) (pid : Text) (m m' : Store) (frame : Frame)
    → frame_alloc border pid m ≡ some (m', frame)
    → (i : ℕ) × (m' ≡ occupy_frame pid i m)
unfolding frame_alloc occupy_frame
frame_alloc-occupy border pid m m' frame e =
    elim (Option-cases (scan (has_space border m) border 0)) [
      | inl none_found ↦ absurd (ground arith)
      | inr (i, found) ↦ (i, ground arith)
    ]

pub length-frame_alloc :
    (border : ℕ) (pid : Text) (m m' : Store) (frame : Frame)
    → frame_alloc border pid m ≡ some (m', frame)
    → length m' ≡ length m
unfolding occupy_frame
length-frame_alloc border pid m m' frame e =
    let (i, e') = frame_alloc-occupy border pid m m' frame e in
    ap length e' ∙ length-occupy pid (i + 2) _ ∙ length-occupy pid (i + 1) _ ∙ length-occupy pid i m

-- `frame_alloc` returns 1 exactly when no three free slots in a row lie below the border.
pub frame_alloc-fails_iff :
    (border : ℕ) (pid : Text) (m : Store)
    → (frame_alloc border pid m ≡ none) ↔ ((i : ℕ) → ¬ IsSpace border m i)
frame_alloc-fails_iff border pid m = (fails, full)
  where
    fails : frame_alloc border pid m ≡ none → (i : ℕ) → ¬ IsSpace border m i
    fails e i s = elim (scan-cases (has_space border m) border 0) [
      | inl (_, never) ↦
          false≢true
            (sym (never i (omega arith) (omega (arith, s.inside))) ∙ →has_space border m i s)
      | inr (j, f, _) ↦ none_not_some (sym e ∙ frame_alloc-some border pid m j f)
    ]
      where
        none_not_some : {x : Store × Frame} → none ≡ some x → ⊥
        none_not_some p = cc

    full : ((i : ℕ) → ¬ IsSpace border m i) → frame_alloc border pid m ≡ none
    full h =
        frame_alloc-none border pid m
          (scan-none_of _ border 0 (λ k lo hi. no_space border m k (h k)))

-- `clear_frame` on the first slot of a frame below the border makes the frame free again, and leaves
-- all other slots as they are.
pub clear_frame-IsSpace :
    (border i : ℕ) (m : Store)
    → border ≤ length m
    → i + 3 ≤ border
    → IsSpace border (clear_frame i m) i
      × ((k : ℕ) → (k < i) ⊎ (i + 3 ≤ k) → slot_at (clear_frame i m) k ≡ slot_at m k)
unfolding clear_frame free_slot
clear_frame-IsSpace border i m fits inside = (
  record {
    inside = inside;
    first = freed i (omega arith) (omega arith);
    second = freed (i + 1) (omega arith) (omega arith);
    third = freed (i + 2) (omega arith) (omega arith);
  },
  λ k out. slot_at-free_range_out 3 i k m out,
)
  where
    freed : (k : ℕ) → i ≤ k → k < i + 3 → is_free (free_range 3 i m) k ≡ true
    freed k lo hi = rw (slot_at-free_range_in 3 i k m (omega arith) lo hi) (streq_self none_text)
