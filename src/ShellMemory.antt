-- ===== src/ShellMemory.antt =====
-- What the three shellmemory.c files share: the array `shellmemory` of variable and value, and the two
-- loops over a region of it, to set the value of a variable and to get it.
-- The region is the slots `lo .. lo + n - 1`; the files of A1, A2 and A3 give its bounds.
pub mod Laws
pub mod Frame
use comp310_assignments.Prelude.{
  ℕ, ◌+◌, Bool, List, Option, none, some, Text, streq, none_text, get_or, set,
}
use comp310_assignments.Prelude.Scan.{scan}

-- `struct memory_struct`
pub record Slot : Type 0 where
  pub var : Text
  pub value : Text

abbrev pub Store : Type 0
Store = List Slot

-- What `mem_init` leaves in every slot.
unfoldable pub free_slot : Slot
free_slot = record { var = none_text; value = none_text }

-- `shellmemory[i]`; every loop of the sources stays within the array.
abbrev pub slot_at : Store → ℕ → Slot
slot_at m i = get_or m i free_slot

-- `strcmp(shellmemory[i].var, key) == 0`
unfoldable pub has_var : Store → Text → ℕ → Bool
has_var m key i = streq (slot_at m i).var key

-- The first loop replaces the value of `key`; the second takes the first free slot; if neither
-- finds a slot, the call does nothing.
unfoldable pub set_value : (lo n : ℕ) → Text → Text → Store → Store
set_value lo n key value m = elim (scan (has_var m key) n lo) [
  | some i ↦ set m i (record (slot_at m i) { value = value })
  | none ↦ elim (scan (has_var m none_text) n lo) [
    | some i ↦ set m i (record { var = key; value = value })
    | none ↦ m
  ]
]

-- `none` is the end of the loop without a hit.
unfoldable pub get_value : (lo n : ℕ) → Text → Store → Option Text
get_value lo n key m = elim (scan (has_var m key) n lo) [
  | some i ↦ some (slot_at m i).value
  | none ↦ none
]
