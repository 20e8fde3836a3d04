-- ===== src/A2/Kernel/Execute/Ends.antt =====
-- What execute_process asks of the interpreter, and how its call ends.
use comp310_assignments.Prelude.{
  ℕ, ◌+◌, ◌≤◌, ◌<◌, ◌≡◌, ◌≢◌, refl, sym, subst, Bool, false, ◌&&◌, ◌||◌, not, some, Text, streq,
  none_text, arith, ◌==◌, if◌then◌else◌, length, inl, inr, Bool-cases,
}
use comp310_assignments.Prelude.Int.{ℤ, pos}
use comp310_assignments.ShellMemory.{Slot, Store, slot_at}
use comp310_assignments.A2.Memory.{text, getvariable}
use comp310_assignments.A2.Memory.Lines.{getvariable-inside}
use comp310_assignments.A2.Pcb.{Pcb}
use comp310_assignments.A2.ReadyQueue.{QueueNode}
use comp310_assignments.A2.Shell.{Shell, Outcome, returned}
use comp310_assignments.A2.Kernel.{
  loaded_pages, change_pages, age_page, is_below, is_equal, end_of_lines,
}
use comp310_assignments.A2.Kernel.Lines.{SameFrames, set_background}

-- On lines that are `Quiet`, the interpreter returns and leaves the frames as they are.
pub record KeepsFrames (W : Type 0) (frame_size var_size : ℕ) (Quiet : Text → Type 0)
    (parse_input : Text → Shell W → Outcome W (ℤ × Shell W)) : Type 0 where
  pub code : Text → Shell W → ℤ
  pub after : Text → Shell W → Shell W
  pub returns :
      (t : Text) (sh : Shell W)
      → Quiet t
      → length sh.memory ≡ frame_size + var_size
      → parse_input t sh ≡ returned (code t sh, after t sh)
  pub frames :
      (t : Text) (sh : Shell W)
      → Quiet t
      → length sh.memory ≡ frame_size + var_size
      → SameFrames frame_size var_size sh.memory (after t sh).memory

-- The lines of a process that are still to run are `Quiet`.
abbrev pub QuietLines : (Quiet : Text → Type 0) → Pcb → Store → Type 0
QuietLines Quiet pcb m = (i : ℕ) → pcb.pc ≤ i → i ≤ pcb.end → Quiet (slot_at m i).value

pub QuietLines-SameFrames :
    (Quiet : Text → Type 0) (frame_size var_size : ℕ) (pcb : Pcb) (m m' : Store)
    → SameFrames frame_size var_size m m'
    → pcb.end < frame_size
    → QuietLines Quiet pcb m
    → QuietLines Quiet pcb m'
QuietLines-SameFrames Quiet frame_size var_size pcb m m' same inside quiet =
    λ i lo hi. subst (λ (s : Slot). Quiet s.value) (sym (same.same i (omega arith))) (quiet i lo hi)

-- The call returns `r`, with the process at `pc` and the state `sh` but for `in_background`.
pub record Ran {W : Type 0} (outcome : Outcome W (ℕ × QueueNode × Shell W)) (r pc : ℕ)
    (sh : Shell W) : Type 0 where
  pub node : QueueNode
  pub background : Bool
  pub result : outcome ≡ returned (r, node, set_background background sh)
  pub at_place : node.pcb.pc ≡ pc

module _ {W : Type 0} (frame_size var_size : ℕ) where
  pub end_of_lines-Ran :
      (i fn n : ℕ) (last : Bool) (node : QueueNode) (sh : Shell W)
      → loaded_pages node.pcb.pt ≡ some n
      → 5 < frame_size + var_size
      → length sh.memory ≡ frame_size + var_size
      → (r : ℕ) × (r ≢ 0)
        × (node' : QueueNode) × (b : Bool) × (end_of_lines frame_size var_size i fn last node sh
            ≡ returned (r, node', set_background b sh))
        × (node'.pcb.pc ≡ node.pcb.pc)
  unfolding end_of_lines
  end_of_lines-Ran i fn n last node sh loaded big fits =
      let name = (slot_at sh.memory 5).var in
      let got : getvariable frame_size var_size (pos 5) sh.memory ≡ text name =
        getvariable-inside frame_size var_size 5 sh.memory fits (omega arith) in
      let more = is_below node.pcb.temp_size node.pcb.full_size in
      let done = is_equal node.pcb.temp_size node.pcb.full_size in
      let node' : QueueNode = record node {
        pcb = record (node.pcb) { pt = change_pages (age_page fn) n 0 node.pcb.pt };
      } in
      elim (Bool-cases
        ((i == 0 && more) || ((last && more) || ((not (streq name none_text) && last) && done)))) [
          | inl asks ↦ (
            if i == 0 then 4 else 2,
            ground arith,
            node',
            sh.in_background,
            rw (loaded, got, asks, end_of_lines) refl,
            refl,
          )
          | inr ends ↦
              (1, omega arith, node', false, rw (loaded, got, ends, end_of_lines) refl, refl)
        ]
