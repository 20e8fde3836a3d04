-- ===== src/A2/Memory/Lines.antt =====
-- The lines of programs in a2/shellmemory.c.
use comp310_assignments.Prelude.{
  ℕ, zero, suc, ◌+◌, ◌*◌, ◌/◌, ◌≤◌, ◌<◌, ◌≡◌, refl, sym, ◌∙◌, ◌⊎◌, ◌↔◌, inl, inr, true, false, [],
  ◌∷◌, none, some, arith, Text, streq_iff, length, none_text, get_elem?, set, get_or-set_self,
  get_or-set_ne, length-set, Nat-cases,
}
use comp310_assignments.Prelude.Int.{pos}
use comp310_assignments.Prelude.Scan.{scan, IsFirst, scan-cases, scan-some, scan-none_of}
use comp310_assignments.ShellMemory.{Store, free_slot, slot_at}
use comp310_assignments.A2.Memory.{
  text, mem_get_value_at_line, getvariable, free_lines, mem_free_lines_between, holds_line,
  get_index, is_free_page, mem_full_or_new_start,
}

get_elem?-slot_at : (m : Store) (i : ℕ) → i < length m → get_elem? m i ≡ some (slot_at m i)
get_elem?-slot_at [] i h = absurd (omega arith)
get_elem?-slot_at (x ∷ m) zero h = refl
get_elem?-slot_at (x ∷ m) (suc i) h = get_elem?-slot_at m i (omega arith)

pub mem_get_value_at_line-inside :
    (frame_size var_size i : ℕ) (m : Store)
    → length m ≡ frame_size + var_size
    → i < length m
    → mem_get_value_at_line frame_size var_size (pos i) m ≡ text (slot_at m i).value
unfolding mem_get_value_at_line
mem_get_value_at_line-inside frame_size var_size i m fits lt =
    ground (arith, get_elem?-slot_at m i lt)

-- A found line stands in the frames, and no frame slot in front of it holds the same line.
pub get_index_lem :
    (frame_size var_size : ℕ) (line : Text) (m : Store) {i : ℕ}
    → get_index frame_size var_size line m ≡ some i
    → (i < frame_size)
      × ((slot_at m i).value ≡ line)
      × ((k : ℕ) → k < i → holds_line frame_size var_size m line k ≡ false)
unfolding get_index
get_index_lem frame_size var_size line m {i} e =
    (omega (arith, f.below), (streq_iff _ line).0 f.passes, λ k h. f.before k (omega arith) h)
  where
    f : IsFirst (holds_line frame_size var_size m line) 0 (0 + frame_size) i
    f = scan-some _ frame_size 0 e

free_lines_out :
    (frame_size var_size fuel i end k : ℕ) (m : Store)
    → (k < i) ⊎ (end < k)
    → slot_at (free_lines frame_size var_size fuel i end m) k ≡ slot_at m k
unfolding free_lines
free_lines_out frame_size var_size zero i end k m out = refl
free_lines_out frame_size var_size (suc f) i end k m out = ground (
  arith,
  free_lines_out frame_size var_size f (i + 1) end k (set m i free_slot),
  get_or-set_ne m i k free_slot free_slot,
)

free_lines_in :
    (frame_size var_size fuel i end k : ℕ) (m : Store)
    → length m ≡ frame_size + var_size
    → i ≤ k
    → k ≤ end
    → k < length m
    → var_size + frame_size < fuel + i
    → slot_at (free_lines frame_size var_size fuel i end m) k ≡ free_slot
unfolding free_lines
free_lines_in frame_size var_size zero i end k m fits lo hi inside enough = absurd (omega arith)
free_lines_in frame_size var_size (suc f) i end k m fits lo hi inside enough =
    elim (Nat-cases i k) [
      | inl e ↦ ground (
        arith,
        free_lines_out frame_size var_size f (i + 1) end k (set m i free_slot) (omega arith),
        get_or-set_self m i free_slot free_slot (omega arith),
      )
      | inr ne ↦ ground (
        arith,
        free_lines_in frame_size var_size f (i + 1) end k (set m i free_slot)
            (length-set m i free_slot ∙ fits) (omega arith) hi
            (omega (arith, length-set m i free_slot)) (omega arith),
      )
    ]

-- `mem_free_lines_between` frees the slots from `start` to `end` that lie in the array, and leaves all others as they are.
pub mem_free_lines_between_lem :
    (frame_size var_size start end : ℕ) (m : Store)
    → length m ≡ frame_size + var_size
    → ((k : ℕ)
        → start ≤ k
        → k ≤ end
        → k < length m
        → slot_at (mem_free_lines_between frame_size var_size start end m) k ≡ free_slot)
      × ((k : ℕ)
          → (k < start) ⊎ (end < k)
          → slot_at (mem_free_lines_between frame_size var_size start end m) k ≡ slot_at m k)
unfolding mem_free_lines_between
mem_free_lines_between_lem frame_size var_size start end m fits = (
  (λ k lo hi inside.
      free_lines_in frame_size var_size _ start end k m fits lo hi inside (omega arith)),
  λ k out. free_lines_out frame_size var_size _ start end k m out,
)

page_values :
    (frame_size var_size p : ℕ) (m : Store)
    → is_free_page frame_size var_size m p ≡ true
    → ((slot_at m (3 * p)).value ≡ none_text)
      × ((slot_at m (3 * p + 1)).value ≡ none_text)
      × ((slot_at m (3 * p + 2)).value ≡ none_text)
page_values frame_size var_size p m h = ground (
  arith,
  streq_iff (slot_at m (3 * p)).value none_text,
  streq_iff (slot_at m (3 * p + 1)).value none_text,
  streq_iff (slot_at m (3 * p + 2)).value none_text,
)

new_start-some :
    (frame_size var_size p : ℕ) (m : Store)
    → scan (is_free_page frame_size var_size m) ((frame_size + 2) / 3) 0 ≡ some p
    → mem_full_or_new_start frame_size var_size m ≡ some (3 * p)
unfolding mem_full_or_new_start
new_start-some frame_size var_size p m e = ground arith

new_start-none :
    (frame_size var_size : ℕ) (m : Store)
    → scan (is_free_page frame_size var_size m) ((frame_size + 2) / 3) 0 ≡ none
    → mem_full_or_new_start frame_size var_size m ≡ none
unfolding mem_full_or_new_start
new_start-none frame_size var_size m e = ground arith

-- The page that `mem_full_or_new_start` returns starts at a multiple of 3 below `frame_size`, its three slots hold
-- the value "none", and every page in front of it holds another value.
pub mem_full_or_new_start-some :
    (frame_size var_size : ℕ) (m : Store) {s : ℕ}
    → mem_full_or_new_start frame_size var_size m ≡ some s
    → (p : ℕ) × (s ≡ 3 * p)
      × (s < frame_size)
      × ((slot_at m s).value ≡ none_text)
      × ((slot_at m (s + 1)).value ≡ none_text)
      × ((slot_at m (s + 2)).value ≡ none_text)
      × ((q : ℕ) → q < p → is_free_page frame_size var_size m q ≡ false)
mem_full_or_new_start-some frame_size var_size m {s} e =
    elim (scan-cases (is_free_page frame_size var_size m) ((frame_size + 2) / 3) 0) [
      | inl (r, _) ↦ absurd (none_not_some (sym (new_start-none frame_size var_size m r) ∙ e))
      | inr (p, r, f) ↦
          let same : 3 * p ≡ s = some_equal (sym (new_start-some frame_size var_size p m r) ∙ e) in
          let (a, b, c) = page_values frame_size var_size p m f.passes in
          (
            p,
            sym same,
            omega (arith, f.below),
            rw (← same) a,
            rw (← same) b,
            rw (← same) c,
            λ q h. f.before q (omega arith) h,
          )
    ]
  where
    none_not_some : none ≡ some s → ⊥
    none_not_some p = cc

    some_equal : {x : ℕ} → some x ≡ some s → x ≡ s
    some_equal p = cc

-- No page is found exactly when every page below `frame_size` has a slot that holds a line.
pub mem_full_or_new_start-none :
    (frame_size var_size : ℕ) (m : Store)
    → (mem_full_or_new_start frame_size var_size m ≡ none)
      ↔ ((p : ℕ) → 3 * p < frame_size → is_free_page frame_size var_size m p ≡ false)
mem_full_or_new_start-none frame_size var_size m = (fails, full)
  where
    fails :
        mem_full_or_new_start frame_size var_size m ≡ none
        → (p : ℕ) → 3 * p < frame_size
        → is_free_page frame_size var_size m p ≡ false
    fails e p h = elim (scan-cases (is_free_page frame_size var_size m) ((frame_size + 2) / 3) 0) [
      | inl (r, never) ↦ never p (omega arith) (omega arith)
      | inr (q, r, f) ↦ absurd (none_not_some (sym e ∙ new_start-some frame_size var_size q m r))
    ]
      where
        none_not_some : {x : ℕ} → none ≡ some x → ⊥
        none_not_some p = cc

    full :
        ((p : ℕ) → 3 * p < frame_size → is_free_page frame_size var_size m p ≡ false)
        → mem_full_or_new_start frame_size var_size m ≡ none
    full h =
        new_start-none frame_size var_size m
          (scan-none_of _ ((frame_size + 2) / 3) 0 (λ k lo hi. h k (omega arith)))

pub getvariable-inside :
    (frame_size var_size i : ℕ) (m : Store)
    → length m ≡ frame_size + var_size
    → i < length m
    → getvariable frame_size var_size (pos i) m ≡ text (slot_at m i).var
unfolding getvariable
getvariable-inside frame_size var_size i m fits lt = ground (arith, get_elem?-slot_at m i lt)
