-- ===== src/ShellMemory/Laws.antt =====
-- Setting and getting the value of a variable.
use comp310_assignments.Prelude.{
  ℕ, zero, suc, ◌+◌, ◌≤◌, ◌<◌, ◌≡◌, refl, ap, ◌∙◌, fun_ext, ◌≢◌, ◌⊎◌, inl, inr, [], ◌∷◌, none, some,
  arith, Text, streq, streq_self, none_text, length, set, get_or-set_self, get_or-set_ne,
}
use comp310_assignments.Prelude.Scan.{scan, NonePass, IsFirst, scan-cases, scan-first}
use comp310_assignments.ShellMemory.{Slot, Store, free_slot, slot_at, has_var, set_value, get_value}

pub has_var-set_value_only :
    (m : Store) (i : ℕ) (v key : Text)
    → has_var (set m i (record (slot_at m i) { value = v })) key ≡ has_var m key
unfolding has_var
has_var-set_value_only m i v key = fun_ext (λ k. ap (λ s. streq s key) (same_var m i k))
  where
    same_var :
        (m : Store) (i k : ℕ)
        → (slot_at (set m i (record (slot_at m i) { value = v })) k).var ≡ (slot_at m k).var
    same_var [] i k = refl
    same_var (s ∷ m) zero zero = refl
    same_var (s ∷ m) zero (suc k) = refl
    same_var (s ∷ m) (suc i) zero = refl
    same_var (s ∷ m) (suc i) (suc k) = same_var m i k

pub has_var-set_self :
    (m : Store) (i : ℕ) (s : Slot) (key : Text)
    → i < length m
    → has_var (set m i s) key i ≡ streq s.var key
unfolding has_var
has_var-set_self m i s key h = rw (get_or-set_self m i s free_slot h)

pub has_var-set_ne :
    (m : Store) (i k : ℕ) (s : Slot) (key : Text)
    → i ≢ k
    → has_var (set m i s) key k ≡ has_var m key k
unfolding has_var
has_var-set_ne m i k s key h = rw (get_or-set_ne m i k s free_slot h)

-- The calls, by the outcomes of their loops.
module _ (lo n : ℕ) (key : Text) (m : Store) where
  pub set_value-old :
      (value : Text) (i : ℕ)
      → scan (has_var m key) n lo ≡ some i
      → set_value lo n key value m ≡ set m i (record (slot_at m i) { value = value })
  unfolding set_value
  set_value-old value i e = ground arith

  pub set_value-new :
      (value : Text) (i : ℕ)
      → scan (has_var m key) n lo ≡ none
      → scan (has_var m none_text) n lo ≡ some i
      → set_value lo n key value m ≡ set m i (record { var = key; value = value })
  unfolding set_value
  set_value-new value i e e' = ground arith

  pub set_value-full :
      (value : Text)
      → scan (has_var m key) n lo ≡ none
      → scan (has_var m none_text) n lo ≡ none
      → set_value lo n key value m ≡ m
  unfolding set_value
  set_value-full value e e' = ground arith

  pub get_value-hit :
      (i : ℕ) → scan (has_var m key) n lo ≡ some i → get_value lo n key m ≡ some (slot_at m i).value
  unfolding get_value
  get_value-hit i e = ground arith

  pub get_value-miss : scan (has_var m key) n lo ≡ none → get_value lo n key m ≡ none
  unfolding get_value
  get_value-miss e = ground arith

-- The three outcomes of `set_value`.
pub data Outcome (lo n : ℕ) (key value : Text) (m : Store) : Type 0 where
  old :
      (i : ℕ)
      → scan (has_var m key) n lo ≡ some i
      → IsFirst (has_var m key) lo (lo + n) i
      → set_value lo n key value m ≡ set m i (record (slot_at m i) { value = value })
      → Outcome lo n key value m
  new :
      (i : ℕ)
      → NonePass (has_var m key) lo (lo + n)
      → IsFirst (has_var m none_text) lo (lo + n) i
      → set_value lo n key value m ≡ set m i (record { var = key; value = value })
      → Outcome lo n key value m
  full :
      scan (has_var m key) n lo ≡ none
      → scan (has_var m none_text) n lo ≡ none
      → set_value lo n key value m ≡ m
      → Outcome lo n key value m

pub outcome : (lo n : ℕ) (key value : Text) (m : Store) → Outcome lo n key value m
outcome lo n key value m = elim (scan-cases (has_var m key) n lo) [
  | inr (i, e, f) ↦ old i e f (set_value-old lo n key m value i e)
  | inl (e, never) ↦ elim (scan-cases (has_var m none_text) n lo) [
    | inl (e', _) ↦ full e e' (set_value-full lo n key m value e e')
    | inr (i, e', f) ↦ new i never f (set_value-new lo n key m value i e e')
  ]
]

-- The region has a slot for `key`: one that holds it, or a free one.
abbrev pub HasRoom : (lo n : ℕ) → Text → Store → Type 0
HasRoom lo n key m = (scan (has_var m key) n lo ≢ none) ⊎ (scan (has_var m none_text) n lo ≢ none)

get_new :
    (lo n : ℕ) (key value : Text) (m : Store) (i : ℕ)
    → lo + n ≤ length m
    → NonePass (has_var m key) lo (lo + n)
    → lo ≤ i
    → i < lo + n
    → get_value lo n key (set m i (record { var = key; value = value })) ≡ some value
get_new lo n key value m i fits never above below =
    get_value-hit lo n key m' i (scan-first (has_var m' key) n lo i first)
    ∙ ap (λ (s : Slot). some s.value) (get_or-set_self m i s free_slot (omega arith))
  where
    s : Slot
    s = record { var = key; value = value }

    m' : Store
    m' = set m i s

    first : IsFirst (has_var m' key) lo (lo + n) i
    first = record {
      above = above;
      below = below;
      passes = has_var-set_self m i s key (omega arith) ∙ streq_self key;
      before = λ k p q. has_var-set_ne m i k s key (omega arith) ∙ never k p (omega arith);
    }

-- After a call that finds a slot, the value of `key` is the one that was set.
pub get_value-set_value :
    (lo n : ℕ) (key value : Text) (m : Store)
    → lo + n ≤ length m
    → HasRoom lo n key m
    → get_value lo n key (set_value lo n key value m) ≡ some value
get_value-set_value lo n key value m fits room = by_outcome (outcome lo n key value m) room
  where
    by_outcome :
        Outcome lo n key value m
        → HasRoom lo n key m
        → get_value lo n key (set_value lo n key value m) ≡ some value
    by_outcome (old i e f r) room = rw r (
        get_value-hit lo n key _ i
          (ap (λ t. scan t n lo) (has_var-set_value_only m i value key) ∙ e)
        ∙ ap (λ (s : Slot). some s.value)
            (get_or-set_self m i _ free_slot (omega (arith, f.below))))
    by_outcome (new i never f r) room = rw r (get_new lo n key value m i fits never f.above f.below)
    by_outcome (full e e' r) (inl h) = absurd (h e)
    by_outcome (full e e' r) (inr h) = absurd (h e')
