-- ===== src/A3/Memory.antt =====
-- a3/shellmemory.c: the array `shellmemory`, whose first `frame_size` slots (FRAME_STORE_SIZE, the
-- border) hold frames of three lines and whose last `var_size` slots (VAR_STORE_SIZE) hold variables.
-- Both sizes are given by the build. `strdup` copies text that is never changed, so a text is a value.
pub mod Variables
pub mod Frames
use comp310_assignments.Prelude.{
  ℕ, zero, suc, ◌+◌, Bool, true, false, List, [], ◌∷◌, Option, none, some, Text, codes, streq,
  none_text, ltb, ◌==◌, if◌then◌else◌, set, replicate,
}
use comp310_assignments.Prelude.Scan.{scan}
use comp310_assignments.ShellMemory.{Slot, Store, free_slot, slot_at, set_value, get_value}

unfoldable pub mem_init : (frame_size var_size : ℕ) → Store
mem_init frame_size var_size = replicate (frame_size + var_size) free_slot

unfoldable pub mem_free_at : ℕ → Store → Store
mem_free_at pos m = set m pos free_slot

-- `strcmp(shellmemory[j].var, "none") == 0`
abbrev pub is_free : Store → ℕ → Bool
is_free m j = streq (slot_at m j).var none_text

-- The inner loop of `frame_alloc`: the `j` at which it stops, with `rounds` rounds of `j < i + 3` left.
unfoldable pub free_run : (border : ℕ) → Store → (rounds j : ℕ) → ℕ
free_run border m zero j = j
free_run border m (suc n) j = elim (ltb j border) [
  | false ↦ j
  | true ↦ elim (is_free m j) [ false ↦ j | true ↦ free_run border m n (j + 1) ]
]

-- `j == i + 3` behind the inner loop
unfoldable pub has_space : (border : ℕ) → Store → ℕ → Bool
has_space border m i = free_run border m 3 i == i + 3

-- `shellmemory[k].var = strdup(pid)`
unfoldable pub occupy : Text → ℕ → Store → Store
occupy pid k m = set m k (record (slot_at m k) { var = pid })

-- What goes out through the arguments `index` and `valid_bit`.
pub record Frame : Type 0 where
  pub index : List ℕ
  pub valid_bit : List ℕ

-- `none` is the return value 1, where neither the memory nor the arguments have changed.
unfoldable pub frame_alloc : (border : ℕ) → Text → Store → Option (Store × Frame)
frame_alloc border pid m = elim (scan (has_space border m) border 0) [
  | none ↦ none
  | some i ↦ some (
    occupy pid (i + 2) (occupy pid (i + 1) (occupy pid i m)),
    record { index = i ∷ (i + 1) ∷ (i + 2) ∷ []; valid_bit = 0 ∷ 0 ∷ 0 ∷ [] },
  )
]

-- The memory, and the valid bit that the call sets.
unfoldable pub mem_set_value_at : ℕ → Text → Text → Store → Store × ℕ
mem_set_value_at pos pid value_in m = (set m pos (record { var = pid; value = value_in }), 1)

unfoldable pub mem_get_value_at : ℕ → Store → Text
mem_get_value_at pos m = (slot_at m pos).value

unfoldable pub mem_set_value : (frame_size var_size : ℕ) → Text → Text → Store → Store
mem_set_value frame_size var_size var_in value_in m =
    set_value frame_size var_size var_in value_in m

unfoldable pub mem_get_value : (frame_size var_size : ℕ) → Text → (caller : ℕ) → Store → Text
mem_get_value frame_size var_size var_in caller m = elim (get_value frame_size var_size var_in m) [
  | some v ↦ v
  | none ↦ if caller == b'p' then codes "Variable does not exist" else []
]

-- `for (i = ...) mem_free_at(i)`
unfoldable pub free_range : (rounds i : ℕ) → Store → Store
free_range zero i m = m
free_range (suc n) i m = free_range n (i + 1) (mem_free_at i m)

unfoldable pub reset_var_zone : (frame_size var_size : ℕ) → Store → Store
reset_var_zone frame_size var_size m = free_range var_size frame_size m

unfoldable pub clear_frame : ℕ → Store → Store
clear_frame start_pos m = free_range 3 start_pos m
