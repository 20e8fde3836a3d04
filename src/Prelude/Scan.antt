-- ===== src/Prelude/Scan.antt =====
-- The loop `for (i = from; i < from + rounds; i++) if (test(a[i])) return i;` over an array, and what
-- its result says of the array.
use comp310_assignments.Prelude.Tests.{if◌then◌else◌, Bool-cases, Option-cases, Nat-order}
use Prim.Native.Nat.{ℕ, zero, suc, ◌+◌, ◌≤◌, ◌<◌}
use mathlib.Core.Path.{◌≡◌, sym, ◌∙◌, ap}
use mathlib.Core.Logic.{◌⊎◌, inl, inr}
use mathlib.Core.Bool.{Bool, true, false, false≢true}
use mathlib.Core.Option.{Option, none, some}
use native.Mathlib.Omega.{arith}

-- `test` is asked of the index.
unfoldable pub scan : (ℕ → Bool) → ℕ → ℕ → Option ℕ
scan test zero i = none
scan test (suc n) i = let rest = scan test n (i + 1) in if test i then some i else rest

-- No index of the range passes the test.
abbrev pub NonePass : (ℕ → Bool) → ℕ → ℕ → Type 0
NonePass test lo hi = (k : ℕ) → lo ≤ k → k < hi → test k ≡ false

-- `j` is the first index of the range that passes the test.
pub record IsFirst (test : ℕ → Bool) (lo hi j : ℕ) : Type 0 where
  pub above : lo ≤ j
  pub below : j < hi
  pub passes : test j ≡ true
  pub before : NonePass test lo j

NonePass-cons :
    (test : ℕ → Bool) (lo hi : ℕ)
    → test lo ≡ false
    → NonePass test (lo + 1) hi
    → NonePass test lo hi
NonePass-cons test lo hi e h k p q = elim (at_or_above lo k p) [
  | inl same ↦ rw (← same) e
  | inr more ↦ h k more q
]
  where
    at_or_above : (lo k : ℕ) → lo ≤ k → (lo ≡ k) ⊎ (lo + 1 ≤ k)
    at_or_above lo k p = grind arith

pub scan-some :
    (test : ℕ → Bool) (n i : ℕ) {j : ℕ} → scan test n i ≡ some j → IsFirst test i (i + n) j
unfolding scan
scan-some test zero i h = cc
scan-some test (suc n) i {j} h = elim (Bool-cases (test i)) [
  | inl yes' ↦
      let e : i ≡ j = ground arith in
      record {
        above = omega arith;
        below = omega arith;
        passes = rw (← e) yes';
        before = λ k p q. absurd (omega arith);
      }
  | inr no' ↦
      let r : IsFirst test (i + 1) (i + 1 + n) j = scan-some test n (i + 1) (rw no' at h) in
      record {
        above = omega (arith, r.above);
        below = omega (arith, r.below);
        passes = r.passes;
        before = NonePass-cons test i j no' r.before;
      }
]

pub scan-none : (test : ℕ → Bool) (n i : ℕ) → scan test n i ≡ none → NonePass test i (i + n)
unfolding scan
scan-none test zero i h = λ k p q. absurd (omega arith)
scan-none test (suc n) i h = elim (Bool-cases (test i)) [
  | inl yes' ↦ absurd (cc (rw yes' at h))
  | inr no' ↦
      NonePass-cons test i (i + suc n) no'
        (λ k p q. scan-none test n (i + 1) (rw no' at h) k p (omega arith))
]

first_unique :
    (test : ℕ → Bool) (lo hi j k : ℕ) → IsFirst test lo hi j → IsFirst test lo hi k → j ≡ k
first_unique test lo hi j k f g = elim (three j k) [
  | inl less ↦ absurd (false≢true (sym (g.before j f.above less) ∙ f.passes))
  | inr (inl e) ↦ e
  | inr (inr more) ↦ absurd (false≢true (sym (f.before k g.above more) ∙ g.passes))
]
  where
    three : (j k : ℕ) → (j < k) ⊎ ((j ≡ k) ⊎ (k < j))
    three j k = grind arith

-- The two outcomes of the loop.
pub scan-cases :
    (test : ℕ → Bool) (n i : ℕ)
    → ((scan test n i ≡ none) × NonePass test i (i + n))
      ⊎ ((j : ℕ) × (scan test n i ≡ some j) × IsFirst test i (i + n) j)
scan-cases test n i = elim (Option-cases (scan test n i)) [
  | inl e ↦ inl (e, scan-none test n i e)
  | inr (j, e) ↦ inr (j, e, scan-some test n i e)
]

-- The first index that passes is found.
pub scan-first : (test : ℕ → Bool) (n i j : ℕ) → IsFirst test i (i + n) j → scan test n i ≡ some j
scan-first test n i j f = elim (scan-cases test n i) [
  | inl (_, never) ↦ absurd (false≢true (sym (never j f.above f.below) ∙ f.passes))
  | inr (k, e, g) ↦ e ∙ ap some (first_unique test i (i + n) k j g f)
]

-- If no index passes, the loop runs to its end.
pub scan-none_of : (test : ℕ → Bool) (n i : ℕ) → NonePass test i (i + n) → scan test n i ≡ none
scan-none_of test n i never = elim (scan-cases test n i) [
  | inl (e, _) ↦ e
  | inr (k, e, g) ↦ absurd (false≢true (sym (never k g.above g.below) ∙ g.passes))
]

-- A range with no hit in front of the one that is scanned.
pub scan-skip :
    (test : ℕ → Bool) (k n total i : ℕ)
    → total ≡ k + n
    → NonePass test i (i + k)
    → scan test total i ≡ scan test n (i + k)
scan-skip test k n total i e never = elim (scan-cases test n (i + k)) [
  | inl (r, rest) ↦ scan-none_of test total i (λ j lo hi. both j lo hi rest) ∙ sym r
  | inr (j, r, f) ↦ scan-first test total i j (first j f) ∙ sym r
]
  where
    both : (j : ℕ) → i ≤ j → j < i + total → NonePass test (i + k) (i + k + n) → test j ≡ false
    both j lo hi rest = elim (Nat-order (i + k) j) [
      | inl le ↦ rest j le (omega arith)
      | inr lt ↦ never j lo lt
    ]

    before : (j x : ℕ) → i ≤ x → x < j → NonePass test (i + k) j → test x ≡ false
    before j x lo hi rest = elim (Nat-order (i + k) x) [
      | inl le ↦ rest x le hi
      | inr lt ↦ never x lo lt
    ]

    first : (j : ℕ) → IsFirst test (i + k) (i + k + n) j → IsFirst test i (i + total) j
    first j f = record {
      above = omega (arith, f.above);
      below = omega (arith, f.below);
      passes = f.passes;
      before = λ x lo hi. before j x lo hi f.before;
    }

-- A first hit in a range is the first hit in every longer one.
pub scan-first_part :
    (test : ℕ → Bool) (k total i j : ℕ)
    → k ≤ total
    → IsFirst test i (i + k) j
    → scan test total i ≡ some j
scan-first_part test k total i j le f = scan-first test total i j (record {
  above = f.above;
  below = omega (arith, f.below);
  passes = f.passes;
  before = f.before;
})
