-- ===== src/Tests/TestA1.antt =====
-- Witnesses and runs for a1/.
use comp310_assignments.Prelude.{
  ◌≡◌, refl, ◌≢◌, inr, some, Text, streq, codes, none_text, length, length-replicate,
}
use comp310_assignments.ShellMemory.{free_slot, has_var}
use comp310_assignments.Prelude.Scan.{scan}
use comp310_assignments.A1.Memory.{
  memory_size, mem_init, mem_set_value, mem_get_value, mem_set_value_lem,
}

init_length : length mem_init ≡ 1000
unfolding mem_init
init_length = length-replicate 1000 free_slot

init_room : scan (has_var mem_init none_text) memory_size 0 ≡ some 0
unfolding scan has_var mem_init free_slot none_text streq
init_room = refl

mem_set_value_lem_in_a1 :
    (mem_get_value (codes "x") (mem_set_value (codes "x") (codes "5") mem_init) ≡ codes "5")
    × ((j : Text)
        → codes "x" ≢ j
        → none_text ≢ j
        → mem_get_value j (mem_set_value (codes "x") (codes "5") mem_init)
          ≡ mem_get_value j mem_init)
    × (length (mem_set_value (codes "x") (codes "5") mem_init) ≡ memory_size)
mem_set_value_lem_in_a1 =
    mem_set_value_lem (codes "x") (codes "5") mem_init init_length (inr (λ e. cc (init_room, e)))
