-- ===== src/Prelude/Chars.antt =====
-- C strings as the lists of their characters, without the closing NUL, and `strcmp(s, t) == 0`.
use Prim.Native.Char.{code}
use Prim.Native.String.{String}
use Prim.Native.Nat.{ℕ}
use comp310_assignments.Prelude.Tests.{◌==◌}
use mathlib.Core.Path.{◌≡◌, refl}
use mathlib.Core.Logic.{◌≢◌, ◌↔◌}
use mathlib.Core.Bool.{Bool, true, false, ◌&&◌}
use mathlib.Core.List.{List, [], ◌∷◌}
use native.Mathlib.Omega.{arith}

abbrev pub Text : Type 0
Text = List ℕ

abbrev pub codes : String → Text
codes String.[] = []
codes (String.◌∷◌ c s) = code c ∷ codes s

unfoldable pub streq : Text → Text → Bool
streq [] [] = true
streq [] (_ ∷ _) = false
streq (_ ∷ _) [] = false
streq (c ∷ s) (d ∷ t) = c == d && streq s t

pub streq_self : (s : Text) → streq s s ≡ true
unfolding streq
streq_self [] = refl
streq_self (c ∷ s) = ground (arith, streq_self s)

pub streq→eq : (s t : Text) → streq s t ≡ true → s ≡ t
unfolding streq
streq→eq [] [] h = refl
streq→eq [] (d ∷ t) h = cc
streq→eq (c ∷ s) [] h = cc
streq→eq (c ∷ s) (d ∷ t) h = ground (arith, streq→eq s t)

pub streq_iff : (s t : Text) → (streq s t ≡ true) ↔ (s ≡ t)
streq_iff s t = (streq→eq s t, λ e. ground (arith, streq_self s))

pub streq_ne : (s t : Text) → s ≢ t → streq s t ≡ false
streq_ne s t h = ground (arith, streq_iff s t)

-- The mark of a free slot, "none".
unfoldable pub none_text : Text
none_text = codes "none"
