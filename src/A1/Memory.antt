-- ===== src/A1/Memory.antt =====
-- a1/shellmemory.c: the array `shellmemory` of 1000 slots, all of them for variables.
use comp310_assignments.Prelude.{
  ℕ, ◌≡◌, ◌≢◌, ◌∙◌, none, some, arith, Text, codes, none_text, length, replicate,
}
use comp310_assignments.ShellMemory.{Store, free_slot, set_value, get_value}
use comp310_assignments.ShellMemory.Laws.{HasRoom, get_value-set_value}
use comp310_assignments.ShellMemory.Frame.{get_value-set_value_ne, length-set_value}

abbrev pub memory_size : ℕ
memory_size = 1000

unfoldable pub mem_init : Store
mem_init = replicate memory_size free_slot

unfoldable pub mem_set_value : Text → Text → Store → Store
mem_set_value var_in value_in m = set_value 0 memory_size var_in value_in m

unfoldable pub mem_get_value : Text → Store → Text
mem_get_value var_in m = elim (get_value 0 memory_size var_in m) [
  | some v ↦ v
  | none ↦ codes "Variable does not exist"
]

-- On a memory of 1000 slots: a variable that is set while there is a slot for it has the value that was set, and
-- every other variable keeps its value.
pub mem_set_value_lem :
    (var_in value_in : Text) (m : Store)
    → length m ≡ memory_size
    → HasRoom 0 memory_size var_in m
    → (mem_get_value var_in (mem_set_value var_in value_in m) ≡ value_in)
      × ((j : Text)
          → var_in ≢ j
          → none_text ≢ j
          → mem_get_value j (mem_set_value var_in value_in m) ≡ mem_get_value j m)
      × (length (mem_set_value var_in value_in m) ≡ memory_size)
unfolding mem_get_value mem_set_value
mem_set_value_lem var_in value_in m fits room = (
  rw (get_value-set_value 0 memory_size var_in value_in m (omega arith) room, mem_get_value),
  (λ j ne ne'. rw (
    get_value-set_value_ne 0 memory_size var_in value_in j m (omega arith) ne ne',
    mem_get_value,
  )),
  length-set_value 0 memory_size var_in value_in m ∙ fits,
)
