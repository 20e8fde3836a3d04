-- ===== src/A3/Pcb/Tables.antt =====
-- The size of a page table, and the end of a process.
use comp310_assignments.Prelude.{
  ℕ, ◌+◌, ◌*◌, ◌≤◌, ◌<◌, ◌≡◌, ◌↔◌, refl, true, List, [], ◌∷◌, All, arith,
}
use comp310_assignments.A3.Pcb.{Pcb, page_table_size, done_from, pcb_done}

-- The pages of a page table have room for all lines, and one page less has not, if there is a line.
pub page_table_size_lem :
    (lines : ℕ) → (lines ≤ 3 * page_table_size lines) × (3 * page_table_size lines < lines + 3)
unfolding page_table_size
page_table_size_lem lines = ground arith

abbrev pub AtEnd : ℕ → Type 0
AtEnd c = c ≡ 3

done_from→ : (cs : List ℕ) → done_from cs ≡ true → All AtEnd cs
unfolding done_from
done_from→ [] h = tt
done_from→ (c ∷ cs) h = (ground arith, done_from→ cs (ground arith))

→done_from : (cs : List ℕ) → All AtEnd cs → done_from cs ≡ true
unfolding done_from
→done_from [] h = refl
→done_from (c ∷ cs) h = let rec = →done_from cs h.1 in let here = h.0 in ground arith

-- `PCB_done` holds exactly when every program counter of the process is 3.
pub pcb_done_iff : (pcb : Pcb) → (pcb_done pcb ≡ true) ↔ All AtEnd pcb.program_counter
unfolding pcb_done
pcb_done_iff pcb = (done_from→ pcb.program_counter, →done_from pcb.program_counter)
