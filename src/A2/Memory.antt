-- ===== src/A2/Memory.antt =====
-- a2/shellmemory.c: the array `shellmemory`, whose first `frame_size` slots (FRAMESIZE) hold the lines of
-- programs, three to a page, and whose last `var_size` slots (VARMEMSIZE) hold variables. Both sizes
-- are given by the build. A line's slot has the file's name as its variable.
pub mod Variables
pub mod Lines
pub mod Place
pub mod Load
pub mod Search
pub mod Free
pub mod Behind
use comp310_assignments.Prelude.{
  ℕ, zero, suc, ◌+◌, ◌*◌, ◌/◌, Bool, true, false, not, ◌&&◌, ◌||◌, List, [], ◌∷◌, Option, none,
  some, Text, codes, streq, none_text, ltb, leb, ◌==◌, if◌then◌else◌, set, get_elem?, replicate,
}
use comp310_assignments.Prelude.Int.{ℤ, pos, negsuc}
use comp310_assignments.Prelude.Scan.{scan}
use comp310_assignments.ShellMemory.{Slot, Store, free_slot, slot_at, set_value, get_value}

-- What a read of `shellmemory[index]` gives: NULL, a text, or a read behind the array's end.
pub data Read : Type 0 where
  null : Read
  text : Text → Read
  out_of_bounds : Read

module _ (frame_size var_size : ℕ) where
  unfoldable pub mem_init : Store
  mem_init = replicate (frame_size + var_size) free_slot

  unfoldable pub mem_set_value : Text → Text → Store → Store
  mem_set_value var_in value_in m = set_value frame_size var_size var_in value_in m

  unfoldable pub frame_set_value : Text → Text → Store → Store
  frame_set_value var_in value_in m = set_value 0 frame_size var_in value_in m

  -- The loop goes over the whole array, the frames first; `none` is NULL.
  unfoldable pub mem_get_value : Text → Store → Option Text
  mem_get_value var_in m = get_value 0 (var_size + frame_size) var_in m

  unfoldable pub mem_get_value_at_line : ℤ → Store → Read
  mem_get_value_at_line (negsuc k) m = null
  mem_get_value_at_line (pos index) m =
      if ltb (var_size + frame_size) index
      then null
      else elim (get_elem? m index) [ some s ↦ text s.value | none ↦ out_of_bounds ]

  unfoldable pub getvariable : ℤ → Store → Read
  getvariable (negsuc k) m = null
  getvariable (pos index) m =
      if ltb (var_size + frame_size) index
      then null
      else elim (get_elem? m index) [ some s ↦ text s.var | none ↦ out_of_bounds ]

  -- `for (i = start; i <= end && i < VARMEMSIZE + FRAMESIZE; i++)` on fuel.
  unfoldable pub free_lines : (fuel i end : ℕ) → Store → Store
  free_lines zero i end m = m
  free_lines (suc f) i end m = elim (leb i end && ltb i (var_size + frame_size)) [
    | true ↦ free_lines f (i + 1) end (set m i free_slot)
    | false ↦ m
  ]

  -- The array's length is enough fuel: every round is at another index of it.
  unfoldable pub mem_free_lines_between : (start end : ℕ) → Store → Store
  mem_free_lines_between start end m = free_lines (var_size + frame_size + 1) start end m

  -- The slots that `exists` and `getIndex` compare with a line.
  abbrev pub holds_line : Store → Text → ℕ → Bool
  holds_line m line i = streq (slot_at m i).value line

  -- `none` is the result -1.
  unfoldable pub exists : Text → Store → Option ℕ
  exists variable m = scan (holds_line m variable) frame_size 0

  -- `none` is the end of the function, which has no `return` there.
  unfoldable pub get_index : Text → Store → Option ℕ
  get_index line m = scan (holds_line m line) frame_size 0

  abbrev pub is_free_page : Store → ℕ → Bool
  is_free_page m p =
      holds_line m none_text (3 * p)
      && holds_line m none_text (3 * p + 1)
      && holds_line m none_text (3 * p + 2)

  -- The loop takes `i` in steps of 3 below `frame_size`; here `p` is `i / 3`. `none` is the result -1.
  unfoldable pub mem_full_or_new_start : Store → Option ℕ
  mem_full_or_new_start m = elim (scan (is_free_page m) ((frame_size + 2) / 3) 0) [
    | some p ↦ some (3 * p)
    | none ↦ none
  ]

  unfoldable pub resetvariable : ℕ → Store → Store
  resetvariable index m =
      if streq (slot_at m index).value none_text
      then set m index (record (slot_at m index) { var = none_text })
      else m

  -- One round of the loop of `resetmem`.
  unfoldable pub reset_slot : ℕ → Store → Store
  reset_slot i m = resetvariable i (
      if streq (slot_at m i).value none_text
      then m
      else mem_set_value (slot_at m i).var none_text m)

  unfoldable pub reset_slots : (rounds i : ℕ) → Store → Store
  reset_slots zero i m = m
  reset_slots (suc n) i m = reset_slots n (i + 1) (reset_slot i m)

  -- It returns 1 beside the new memory.
  unfoldable pub resetmem : Store → Store × ℕ
  resetmem m = (reset_slots var_size frame_size m, 1)
