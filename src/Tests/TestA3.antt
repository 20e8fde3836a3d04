-- ===== src/Tests/TestA3.antt =====
-- Witnesses and runs for a3/.
use comp310_assignments.Prelude.{
  ℕ, zero, suc, ◌+◌, ◌≤◌, ◌<◌, ◌≡◌, ◌≢◌, ◌↔◌, ◌⊎◌, refl, inr, true, [], ◌∷◌, none, some, arith,
  Text, streq, codes, none_text, length,
}
use comp310_assignments.Prelude.Scan.{scan}
use comp310_assignments.ShellMemory.{Slot, Store, free_slot, has_var, slot_at}
use comp310_assignments.A3.Memory.{
  mem_set_value, mem_get_value, reset_var_zone, is_free, frame_alloc, clear_frame,
}
use comp310_assignments.A3.Memory.Variables.{
  mem_get_value-mem_set_value, mem_set_value-others, reset_var_zone_lem,
}
use comp310_assignments.A3.Memory.Frames.{
  IsSpace, frame_alloc-takes_first, frame_alloc-fails_iff, clear_frame-IsSpace,
}

-- One frame slot in use, four free ones, two slots for variables, one of them in use.
abbrev line_slot : Slot
line_slot = record { var = codes "1"; value = codes "help" }

abbrev var_slot : Slot
var_slot = record { var = codes "x"; value = codes "5" }

abbrev memory : Store
memory = line_slot ∷ free_slot ∷ free_slot ∷ free_slot ∷ free_slot ∷ var_slot ∷ free_slot ∷ []

room_for_y : scan (has_var memory none_text) 2 5 ≡ some 6
unfolding scan has_var free_slot none_text streq
room_for_y = refl

mem_get_value-mem_set_value_example :
    mem_get_value 5 2 (codes "y") b'p' (mem_set_value 5 2 (codes "y") (codes "7") memory)
    ≡ codes "7"
mem_get_value-mem_set_value_example =
    mem_get_value-mem_set_value 5 2 memory refl (codes "y") (codes "7") b'p'
      (inr (λ e. cc (room_for_y, e)))

mem_set_value-others_example :
    ((j : Text) (caller : ℕ)
      → codes "y" ≢ j
      → none_text ≢ j
      → mem_get_value 5 2 j caller (mem_set_value 5 2 (codes "y") (codes "7") memory)
        ≡ mem_get_value 5 2 j caller memory)
    × ((k : ℕ)
        → k < 5
        → slot_at (mem_set_value 5 2 (codes "y") (codes "7") memory) k ≡ slot_at memory k)
    × (length (mem_set_value 5 2 (codes "y") (codes "7") memory) ≡ length memory)
mem_set_value-others_example = mem_set_value-others 5 2 memory refl (codes "y") (codes "7")

reset_var_zone_example :
    ((var_in : Text)
      → none_text ≢ var_in
      → mem_get_value 5 2 var_in b'p' (reset_var_zone 5 2 memory) ≡ codes "Variable does not exist")
    × ((k : ℕ) → k < 5 → slot_at (reset_var_zone 5 2 memory) k ≡ slot_at memory k)
reset_var_zone_example = reset_var_zone_lem 5 2 memory refl

IsSpace-at_one : IsSpace 5 memory 1
unfolding free_slot none_text streq
IsSpace-at_one = record { inside = omega arith; first = refl; second = refl; third = refl }

first_slot_used : is_free memory 0 ≡ true → ⊥
unfolding none_text streq
first_slot_used h = cc

no-IsSpace_before : (k : ℕ) → k < 1 → ¬ IsSpace 5 memory k
no-IsSpace_before zero h s = first_slot_used s.first
no-IsSpace_before (suc k) h s = absurd (omega arith)

frame_alloc-takes_first_example :
    (m' : Store) × (frame_alloc 5 (codes "2") memory
      ≡ some (m', record { index = 1 ∷ 2 ∷ 3 ∷ []; valid_bit = 0 ∷ 0 ∷ 0 ∷ [] }))
    × ((k : ℕ) → 1 ≤ k → k < 1 + 3 → slot_at m' k ≡ record (slot_at memory k) { var = codes "2" })
    × ((k : ℕ) → (k < 1) ⊎ (1 + 3 ≤ k) → slot_at m' k ≡ slot_at memory k)
frame_alloc-takes_first_example =
    frame_alloc-takes_first 5 (codes "2") memory 1 (omega arith) IsSpace-at_one no-IsSpace_before

frame_alloc-fails_iff_example :
    (frame_alloc 5 (codes "2") memory ≡ none) ↔ ((i : ℕ) → ¬ IsSpace 5 memory i)
frame_alloc-fails_iff_example = frame_alloc-fails_iff 5 (codes "2") memory

clear_frame-IsSpace_example :
    IsSpace 5 (clear_frame 0 memory) 0
    × ((k : ℕ) → (k < 0) ⊎ (0 + 3 ≤ k) → slot_at (clear_frame 0 memory) k ≡ slot_at memory k)
clear_frame-IsSpace_example = clear_frame-IsSpace 5 0 memory (omega arith) (omega arith)
