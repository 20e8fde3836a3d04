-- ===== src/ShellMemory/Frame.antt =====
-- What `set_value` leaves alone: the other variables, the slots outside the region, the array's length,
-- and that no variable has two slots.
use comp310_assignments.Prelude.{
  ℕ, ◌+◌, ◌≤◌, ◌<◌, ◌≡◌, sym, ap, ◌∙◌, fun_ext, ◌≢◌, ◌⊎◌, inl, inr, true, false, false≢true, subst,
  some, arith, Text, streq_iff, streq_ne, none_text, length, set, get_or-set_ne, length-set,
  Nat-cases,
}
use comp310_assignments.Prelude.Scan.{scan, scan-cases}
use comp310_assignments.ShellMemory.{Slot, Store, free_slot, slot_at, has_var, set_value, get_value}
use comp310_assignments.ShellMemory.Laws.{
  old, new, full, outcome, has_var-set_value_only, has_var-set_self, has_var-set_ne, get_value-hit,
  get_value-miss,
}

-- The variable of a slot that passes the test.
pub has_var→eq : (m : Store) (key : Text) (i : ℕ) → has_var m key i ≡ true → (slot_at m i).var ≡ key
unfolding has_var
has_var→eq m key i h = (streq_iff _ key).0 h

pub eq→has_var : (m : Store) (key : Text) (i : ℕ) → (slot_at m i).var ≡ key → has_var m key i ≡ true
unfolding has_var
eq→has_var m key i e = (streq_iff _ key).1 e

-- A slot that holds another variable.
pub has_var_other :
    (m : Store) (key j : Text) (i : ℕ) → key ≢ j → has_var m key i ≡ true → has_var m j i ≡ false
unfolding has_var
has_var_other m key j i ne h =
    streq_ne (slot_at m i).var j (λ e. ne (sym (has_var→eq m key i h) ∙ e))

-- A write to a slot that does not hold `j`, neither before nor after.
get_value_kept :
    (lo n : ℕ) (j : Text) (m : Store) (i : ℕ) (s : Slot)
    → has_var (set m i s) j ≡ has_var m j
    → has_var m j i ≡ false
    → get_value lo n j (set m i s) ≡ get_value lo n j m
get_value_kept lo n j m i s same out = elim (scan-cases (has_var m j) n lo) [
  | inl (e, _) ↦
      get_value-miss lo n j _ (ap (λ t. scan t n lo) same ∙ e) ∙ sym (get_value-miss lo n j m e)
  | inr (k, e, f) ↦
      get_value-hit lo n j _ k (ap (λ t. scan t n lo) same ∙ e)
      ∙ ap (λ (s : Slot). some s.value)
          (get_or-set_ne m i k s free_slot (λ i_is_k. differ k i_is_k f.passes))
      ∙ sym (get_value-hit lo n j m k e)
]
  where
    differ : (k : ℕ) → i ≡ k → has_var m j k ≡ true → ⊥
    differ k e h = false≢true (sym out ∙ ap (has_var m j) e ∙ h)

same_tests :
    (m : Store) (i : ℕ) (s : Slot) (j : Text)
    → i < length m
    → s.var ≢ j
    → has_var m j i ≡ false
    → has_var (set m i s) j ≡ has_var m j
same_tests m i s j fits ne out = fun_ext (λ k. elim (Nat-cases i k) [
  | inl e ↦
      subst (λ t. has_var (set m i s) j t ≡ has_var m j t) e
        (has_var-set_self m i s j fits ∙ streq_ne s.var j ne ∙ sym out)
  | inr e ↦ has_var-set_ne m i k s j e
])

-- The value of every other variable is as before.
pub get_value-set_value_ne :
    (lo n : ℕ) (key value j : Text) (m : Store)
    → lo + n ≤ length m
    → key ≢ j
    → none_text ≢ j
    → get_value lo n j (set_value lo n key value m) ≡ get_value lo n j m
get_value-set_value_ne lo n key value j m fits ne ne' = elim (outcome lo n key value m) [
  | old i e f r ↦ rw r (
      get_value_kept lo n j m i _ (has_var-set_value_only m i value j)
        (has_var_other m key j i ne f.passes))
  | new i never f r ↦ rw r (
      let out : has_var m j i ≡ false = has_var_other m none_text j i ne' f.passes in
      get_value_kept lo n j m i _ (same_tests m i _ j (omega (arith, f.below)) ne out) out)
  | full e e' r ↦ rw r
]

-- The slots outside the region are left alone.
pub slot_at-set_value :
    (lo n : ℕ) (key value : Text) (m : Store) (k : ℕ)
    → (k < lo) ⊎ (lo + n ≤ k)
    → slot_at (set_value lo n key value m) k ≡ slot_at m k
slot_at-set_value lo n key value m k out = elim (outcome lo n key value m) [
  | old i e f r ↦ rw r (get_or-set_ne m i k _ free_slot (omega (arith, f.above, f.below)))
  | new i never f r ↦ rw r (get_or-set_ne m i k _ free_slot (omega (arith, f.above, f.below)))
  | full e e' r ↦ rw r
]

pub length-set_value :
    (lo n : ℕ) (key value : Text) (m : Store) → length (set_value lo n key value m) ≡ length m
length-set_value lo n key value m = elim (outcome lo n key value m) [
  | old i e f r ↦ rw r (length-set m i _)
  | new i never f r ↦ rw r (length-set m i _)
  | full e e' r ↦ rw r
]
