-- ===== src/A3/Memory/Variables.antt =====
-- The variables of a3/shellmemory.c.
use comp310_assignments.Prelude.{
  ℕ, zero, suc, ◌+◌, ◌≤◌, ◌<◌, ◌≡◌, refl, ◌∙◌, ◌≢◌, ◌⊎◌, inl, inr, false, none, arith, Text,
  streq_ne, none_text, length, set, get_or-set_self, get_or-set_ne, length-set, Nat-cases, subst,
  codes,
}
use comp310_assignments.Prelude.Scan.{scan, scan-none_of}
use comp310_assignments.ShellMemory.{Store, free_slot, slot_at, has_var}
use comp310_assignments.ShellMemory.Laws.{HasRoom, get_value-set_value, get_value-miss}
use comp310_assignments.ShellMemory.Frame.{
  get_value-set_value_ne, slot_at-set_value, length-set_value,
}
use comp310_assignments.A3.Memory.{
  mem_free_at, mem_set_value, mem_get_value, free_range, reset_var_zone,
}

module _ (frame_size var_size : ℕ) (m : Store) (fits : length m ≡ frame_size + var_size) where
  -- A variable that is set while there is a slot for it has the value that was set, for every caller.
  pub mem_get_value-mem_set_value :
      (var_in value_in : Text) (caller : ℕ)
      → HasRoom frame_size var_size var_in m
      → mem_get_value frame_size var_size var_in caller
          (mem_set_value frame_size var_size var_in value_in m)
        ≡ value_in
  unfolding mem_get_value mem_set_value
  mem_get_value-mem_set_value var_in value_in caller room =
      rw (
        get_value-set_value frame_size var_size var_in value_in m (omega arith) room,
        mem_get_value,
      )

  -- What is set for one variable changes no other variable and no slot of the frames.
  pub mem_set_value-others :
      (var_in value_in : Text)
      → ((j : Text) (caller : ℕ)
          → var_in ≢ j
          → none_text ≢ j
          → mem_get_value frame_size var_size j caller
              (mem_set_value frame_size var_size var_in value_in m)
            ≡ mem_get_value frame_size var_size j caller m)
        × ((k : ℕ)
            → k < frame_size
            → slot_at (mem_set_value frame_size var_size var_in value_in m) k ≡ slot_at m k)
        × (length (mem_set_value frame_size var_size var_in value_in m) ≡ length m)
  unfolding mem_get_value mem_set_value
  mem_set_value-others var_in value_in = (
    (λ j caller ne ne'. rw (
      get_value-set_value_ne frame_size var_size var_in value_in j m (omega arith) ne ne',
      mem_get_value,
    )),
    (λ k h. slot_at-set_value frame_size var_size var_in value_in m k (inl h)),
    length-set_value frame_size var_size var_in value_in m,
  )

has_var-free :
    (m : Store) (key : Text) (k : ℕ)
    → none_text ≢ key
    → slot_at m k ≡ free_slot
    → has_var m key k ≡ false
unfolding has_var free_slot
has_var-free m key k ne e = rw e (streq_ne none_text key ne)

-- Which slots `free_range` frees.
pub slot_at-free_range_out :
    (n i k : ℕ) (m : Store) → (k < i) ⊎ (i + n ≤ k) → slot_at (free_range n i m) k ≡ slot_at m k
unfolding free_range mem_free_at
slot_at-free_range_out zero i k m out = refl
slot_at-free_range_out (suc n) i k m out =
    slot_at-free_range_out n (i + 1) k (set m i free_slot) (omega arith)
    ∙ get_or-set_ne m i k free_slot free_slot (omega arith)

pub length-free_range : (n i : ℕ) (m : Store) → length (free_range n i m) ≡ length m
unfolding free_range mem_free_at
length-free_range zero i m = refl
length-free_range (suc n) i m =
    length-free_range n (i + 1) (set m i free_slot) ∙ length-set m i free_slot

pub slot_at-free_range_in :
    (n i k : ℕ) (m : Store)
    → i + n ≤ length m
    → i ≤ k
    → k < i + n
    → slot_at (free_range n i m) k ≡ free_slot
unfolding free_range mem_free_at
slot_at-free_range_in zero i k m fits lo hi = absurd (omega arith)
slot_at-free_range_in (suc n) i k m fits lo hi = elim (Nat-cases i k) [
  | inl e ↦
      slot_at-free_range_out n (i + 1) k (set m i free_slot) (omega arith)
      ∙ subst (λ t. slot_at (set m i free_slot) t ≡ free_slot) e
          (get_or-set_self m i free_slot free_slot (omega arith))
  | inr ne ↦
      slot_at-free_range_in n (i + 1) k (set m i free_slot)
        (omega (arith, length-set m i free_slot)) (omega arith) (omega arith)
]

-- After `reset_var_zone` no variable is set, and the frames are as before.
pub reset_var_zone_lem :
    (frame_size var_size : ℕ) (m : Store)
    → length m ≡ frame_size + var_size
    → ((var_in : Text)
        → none_text ≢ var_in
        → mem_get_value frame_size var_size var_in b'p' (reset_var_zone frame_size var_size m)
          ≡ codes "Variable does not exist")
      × ((k : ℕ) → k < frame_size → slot_at (reset_var_zone frame_size var_size m) k ≡ slot_at m k)
unfolding reset_var_zone mem_get_value
reset_var_zone_lem frame_size var_size m fits = (
  (λ var_in ne. rw (get_value-miss frame_size var_size var_in _ (unset var_in ne), mem_get_value)),
  λ k h. slot_at-free_range_out var_size frame_size k m (inl h),
)
  where
    unset :
        (var_in : Text)
        → none_text ≢ var_in
        → scan (has_var (free_range var_size frame_size m) var_in) var_size frame_size ≡ none
    unset var_in ne = scan-none_of _ var_size frame_size (λ k lo hi.
        has_var-free m' var_in k ne
          (slot_at-free_range_in var_size frame_size k m (omega arith) lo hi))
      where
        m' : Store
        m' = free_range var_size frame_size m
