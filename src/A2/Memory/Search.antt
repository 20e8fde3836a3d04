-- ===== src/A2/Memory/Search.antt =====
-- The search of load_file of a2/shellmemory.c ends before frames that are all free.
use comp310_assignments.Prelude.{
  ℕ, zero, suc, ◌+◌, ◌-◌, ◌≤◌, ◌<◌, ◌≡◌, refl, sym, ap, ◌∙◌, subst, Bool, true, false, false≢true,
  none, some, none_text, arith, inl, inr, Nat-order,
}
use comp310_assignments.Prelude.Scan.{scan, scan-cases}
use comp310_assignments.ShellMemory.{Store, has_var}
use comp310_assignments.A2.Memory.Load.{three_free, is_used, search_space}

-- The slots from `i` on to the end of the frames have no owner.
abbrev pub FreeFrom : (frame_size i : ℕ) → Store → Type 0
FreeFrom frame_size i m = (k : ℕ) → i ≤ k → k < frame_size → has_var m none_text k ≡ true

not_used : (m : Store) (k : ℕ) → is_used m k ≡ false → has_var m none_text k ≡ true
unfolding is_used
not_used m k e = ground arith

candidate_free : (m : Store) (c : ℕ) → three_free m c ≡ true → is_used m c ≡ false
unfolding three_free is_used
candidate_free m c e = ground arith

module _ (frame_size var_size : ℕ) where
  search_space-full :
      (f i : ℕ) (space : Bool) (m : Store)
      → scan (three_free m) (frame_size - i) i ≡ none
      → search_space frame_size var_size (suc f) i space m ≡ (frame_size, space)
  unfolding search_space
  search_space-full f i space m e = rw (e, search_space) refl

  search_space-found :
      (f i c : ℕ) (space : Bool) (m : Store)
      → scan (three_free m) (frame_size - i) i ≡ some c
      → scan (is_used m) (frame_size - c) c ≡ none
      → search_space frame_size var_size (suc f) i space m ≡ (c, true)
  unfolding search_space
  search_space-found f i c space m e e1 = rw (e, e1, search_space) refl

  search_space-again :
      (f i c k : ℕ) (space : Bool) (m : Store)
      → scan (three_free m) (frame_size - i) i ≡ some c
      → scan (is_used m) (frame_size - c) c ≡ some k
      → search_space frame_size var_size (suc f) i space m
        ≡ search_space frame_size var_size f k true m
  unfolding search_space
  search_space-again f i c k space m e e1 = rw (e, e1, search_space) refl

  pub search_space-FreeFrom :
      (f i : ℕ) (space : Bool) (m : Store)
      → i ≤ frame_size
      → frame_size - i < f
      → FreeFrom frame_size (search_space frame_size var_size f i space m).0 m
  search_space-FreeFrom zero i space m le few = absurd (omega arith)
  search_space-FreeFrom (suc f) i space m le few =
      elim (scan-cases (three_free m) (frame_size - i) i) [
        | inl (e, never) ↦
            subst (λ r. FreeFrom frame_size r.0 m) (sym (search_space-full f i space m e))
              (λ k lo hi. absurd (omega arith))
        | inr (c, e, first) ↦ elim (scan-cases (is_used m) (frame_size - c) c) [
          | inl (e1, free) ↦
              subst (λ r. FreeFrom frame_size r.0 m) (sym (search_space-found f i c space m e e1))
                (λ k lo hi. not_used m k (free k lo (omega (arith, first.below))))
          | inr (k, e1, used) ↦
              let later : c < k = elim (Nat-order (c + 1) k) [
                | inl lt ↦ omega arith
                | inr ge ↦
                    let same : c ≡ k = omega (arith, used.above) in
                    absurd (
                      false≢true
                        (sym (candidate_free m c first.passes) ∙ ap (is_used m) same ∙ used.passes))
              ] in
              subst (λ r. FreeFrom frame_size r.0 m) (sym (search_space-again f i c k space m e e1))
                (search_space-FreeFrom f k true m (omega (arith, used.below, first.below))
                  (omega (arith, used.below, first.below, first.above)))
        ]
      ]
