-- ===== src/A2/Memory/Variables.antt =====
-- The variables of a2/shellmemory.c. The loop of `mem_get_value` goes over the frames too.
use comp310_assignments.Prelude.{
  ℕ, ◌+◌, ◌<◌, ◌≡◌, ap, ◌∙◌, inl, Option, none, some, arith, Text, streq, length,
}
use comp310_assignments.Prelude.Scan.{scan, NonePass, IsFirst, scan-skip, scan-first_part}
use comp310_assignments.ShellMemory.{Slot, Store, slot_at, has_var, set_value, get_value}
use comp310_assignments.ShellMemory.Laws.{HasRoom, get_value-set_value, get_value-hit}
use comp310_assignments.ShellMemory.Frame.{slot_at-set_value}
use comp310_assignments.A2.Memory.{mem_set_value, mem_get_value}

has_var-set_value_out :
    (lo n : ℕ) (key value : Text) (m : Store) (k : ℕ)
    → k < lo
    → has_var (set_value lo n key value m) key k ≡ has_var m key k
unfolding has_var
has_var-set_value_out lo n key value m k h =
    ap (λ (s : Slot). streq s.var key) (slot_at-set_value lo n key value m k (inl h))

get_value_skip :
    (frame_size var_size : ℕ) (key : Text) (m : Store)
    → NonePass (has_var m key) 0 frame_size
    → get_value 0 (var_size + frame_size) key m ≡ get_value frame_size var_size key m
unfolding get_value
get_value_skip frame_size var_size key m never =
    ap (λ (o : Option ℕ). elim o [ some i ↦ some (slot_at m i).value | none ↦ none ])
      (scan-skip (has_var m key) frame_size var_size (var_size + frame_size) 0 (omega arith)
          (λ k lo hi. never k lo (omega arith))
        ∙ ap (scan (has_var m key) var_size) (omega arith))

module _ (frame_size var_size : ℕ) (var_in value_in : Text) (m : Store)
    (fits : length m ≡ frame_size + var_size) where
  -- If no line of a program is stored under the variable's name, a variable that is set while there is
  -- a slot for it has the value that was set.
  pub mem_get_value-mem_set_value_unshadowed :
      NonePass (has_var m var_in) 0 frame_size
      → HasRoom frame_size var_size var_in m
      → mem_get_value frame_size var_size var_in
          (mem_set_value frame_size var_size var_in value_in m)
        ≡ some value_in
  unfolding mem_get_value mem_set_value
  mem_get_value-mem_set_value_unshadowed never room =
      get_value_skip frame_size var_size var_in _ (λ k lo hi.
        has_var-set_value_out frame_size var_size var_in value_in m k hi ∙ never k lo hi)
      ∙ get_value-set_value frame_size var_size var_in value_in m (omega arith) room

  -- If a line is stored under the variable's name, the first such line is what `mem_get_value` returns,
  -- whatever was set.
  pub mem_get_value-shadowed :
      (i : ℕ)
      → IsFirst (has_var m var_in) 0 frame_size i
      → mem_get_value frame_size var_size var_in
          (mem_set_value frame_size var_size var_in value_in m)
        ≡ some (slot_at m i).value
  unfolding mem_get_value mem_set_value
  mem_get_value-shadowed i f =
      get_value-hit 0 (var_size + frame_size) var_in _ i
        (scan-first_part _ frame_size (var_size + frame_size) 0 i (omega arith) first)
      ∙ ap (λ (s : Slot). some s.value)
          (slot_at-set_value frame_size var_size var_in value_in m i (inl f.below))
    where
      m' : Store
      m' = set_value frame_size var_size var_in value_in m

      same : (k : ℕ) → k < frame_size → has_var m' var_in k ≡ has_var m var_in k
      same k h = has_var-set_value_out frame_size var_size var_in value_in m k h

      first : IsFirst (has_var m' var_in) 0 (0 + frame_size) i
      first = record {
        above = f.above;
        below = omega (arith, f.below);
        passes = same i f.below ∙ f.passes;
        before = λ k lo hi. same k (omega (arith, f.below)) ∙ f.before k lo hi;
      }
