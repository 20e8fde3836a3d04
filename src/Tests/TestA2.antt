-- ===== src/Tests/TestA2.antt =====
-- Witnesses and runs for a2/.
use mathlib.Core.List.{Perm}
use comp310_assignments.Prelude.{
  ℕ, zero, suc, ◌+◌, ◌-◌, ◌*◌, ◌/◌, ◌≤◌, ◌<◌, ◌≡◌, ◌↔◌, ◌⊎◌, refl, inr, false, [], ◌∷◌, ◌++◌, none,
  some, arith, streq, codes, none_text, length, get_elem?, All, if◌then◌else◌,
}
use comp310_assignments.Prelude.Int.{pos}
use comp310_assignments.Prelude.Scan.{scan, NonePass, IsFirst}
use comp310_assignments.ShellMemory.{Slot, Store, free_slot, has_var, slot_at}
use comp310_assignments.A2.Memory.{
  mem_set_value, mem_get_value, mem_free_lines_between, holds_line, get_index, is_free_page,
  mem_full_or_new_start,
}
use comp310_assignments.A2.Memory.Variables.{
  mem_get_value-mem_set_value_unshadowed, mem_get_value-shadowed,
}
use comp310_assignments.A2.Memory.Lines.{
  get_index_lem, mem_free_lines_between_lem, mem_full_or_new_start-some, mem_full_or_new_start-none,
}
use comp310_assignments.A2.Pcb.{Page, unused_page, make_pcb}
use comp310_assignments.A2.Pcb.Pages.{make_pcb-page_of_line, make_pcb-unloaded}
use comp310_assignments.A2.ReadyQueue.{
  QueueNode, Queue, score, swap_needed, sort_ready_queue, pop_shortest_job,
}
use comp310_assignments.A2.ReadyQueue.Bubble.{bubble, Distinct}
use comp310_assignments.A2.ReadyQueue.Sorting.{
  IsOrdered, sort_ready_queue_lem, sort_ready_queue-IsOrdered, pop_shortest_job-first_two,
  pop_shortest_job-misses,
}
use comp310_assignments.A2.ReadyQueue.Aging.{ScoreAtLeast, aging_select, aging_select_lem}

-- Two pages for lines, the first of them in use, and two slots for variables.
abbrev line_slot : Slot
line_slot = record { var = codes "prog_1"; value = codes "print x" }

abbrev memory : Store
memory =
    line_slot ∷ free_slot ∷ free_slot ∷ free_slot ∷ free_slot ∷ free_slot ∷ free_slot ∷ free_slot
    ∷ []

no_line_x : NonePass (has_var memory (codes "x")) 0 6
unfolding has_var free_slot none_text streq
no_line_x zero lo hi = refl
no_line_x (suc zero) lo hi = refl
no_line_x (suc (suc zero)) lo hi = refl
no_line_x (suc (suc (suc zero))) lo hi = refl
no_line_x (suc (suc (suc (suc zero)))) lo hi = refl
no_line_x (suc (suc (suc (suc (suc zero))))) lo hi = refl
no_line_x (suc (suc (suc (suc (suc (suc k)))))) lo hi = absurd (omega arith)

room_for_x : scan (has_var memory none_text) 2 6 ≡ some 6
unfolding scan has_var free_slot none_text streq
room_for_x = refl

mem_get_value-mem_set_value_unshadowed_example :
    mem_get_value 6 2 (codes "x") (mem_set_value 6 2 (codes "x") (codes "5") memory)
    ≡ some (codes "5")
mem_get_value-mem_set_value_unshadowed_example =
    mem_get_value-mem_set_value_unshadowed 6 2 (codes "x") (codes "5") memory refl no_line_x
      (inr (λ e. cc (room_for_x, e)))

line-IsFirst : IsFirst (has_var memory (codes "prog_1")) 0 6 0
unfolding has_var streq
line-IsFirst = record {
  above = omega arith;
  below = omega arith;
  passes = refl;
  before = λ k lo hi. absurd (omega arith);
}

mem_get_value-shadowed_example :
    mem_get_value 6 2 (codes "prog_1") (mem_set_value 6 2 (codes "prog_1") (codes "5") memory)
    ≡ some (codes "print x")
mem_get_value-shadowed_example =
    mem_get_value-shadowed 6 2 (codes "prog_1") (codes "5") memory refl 0 line-IsFirst

line_found : get_index 6 2 (codes "print x") memory ≡ some 0
unfolding get_index scan streq
line_found = refl

get_index_example :
    (0 < 6)
    × ((slot_at memory 0).value ≡ codes "print x")
    × ((k : ℕ) → k < 0 → holds_line 6 2 memory (codes "print x") k ≡ false)
get_index_example = get_index_lem 6 2 (codes "print x") memory line_found

mem_free_lines_between_example :
    ((k : ℕ)
      → 0 ≤ k
      → k ≤ 2
      → k < length memory
      → slot_at (mem_free_lines_between 6 2 0 2 memory) k ≡ free_slot)
    × ((k : ℕ)
        → (k < 0) ⊎ (2 < k)
        → slot_at (mem_free_lines_between 6 2 0 2 memory) k ≡ slot_at memory k)
mem_free_lines_between_example = mem_free_lines_between_lem 6 2 0 2 memory refl

page_found : mem_full_or_new_start 6 2 memory ≡ some 3
unfolding mem_full_or_new_start scan free_slot none_text streq
page_found = refl

mem_full_or_new_start-some_example :
    (p : ℕ) × (3 ≡ 3 * p)
    × (3 < 6)
    × ((slot_at memory 3).value ≡ none_text)
    × ((slot_at memory (3 + 1)).value ≡ none_text)
    × ((slot_at memory (3 + 2)).value ≡ none_text)
    × ((q : ℕ) → q < p → is_free_page 6 2 memory q ≡ false)
mem_full_or_new_start-some_example = mem_full_or_new_start-some 6 2 memory page_found

mem_full_or_new_start-none_example :
    (mem_full_or_new_start 6 2 memory ≡ none)
    ↔ ((p : ℕ) → 3 * p < 6 → is_free_page 6 2 memory p ≡ false)
mem_full_or_new_start-none_example = mem_full_or_new_start-none 6 2 memory

make_pcb-page_of_line_example :
    (p : Page) × (get_elem? (make_pcb 9 14 (pos 20) (codes "prog_1") 1).0.pt ((13 - 9) / 3)
      ≡ some p)
    × (p.loaded ≡ 1)
    × (p.start ≤ 13)
    × (13 ≤ p.end)
make_pcb-page_of_line_example =
    make_pcb-page_of_line 9 14 (pos 20) (codes "prog_1") 1 13 (omega arith) (omega arith)
      (omega arith)

make_pcb-unloaded_example :
    get_elem? (make_pcb 9 14 (pos 20) (codes "prog_1") 1).0.pt 2 ≡ some unused_page
unfolding make_pcb
make_pcb-unloaded_example =
    make_pcb-unloaded 9 14 (pos 20) (codes "prog_1") 1 2 (omega arith) (omega arith)

-- A process at an address, with a score.
abbrev process : ℕ → ℕ → QueueNode
process a s = record {
  addr = a;
  pcb = record {
    priority = false;
    pid = a;
    pc = 0;
    start = 0;
    end = 0;
    job_length_score = s;
    pt = [];
    endof_file = pos 0;
    temp_size = 1;
    full_size = pos 1;
    filename = [];
  };
}

abbrev x : QueueNode
x = process 1 9

abbrev y : QueueNode
y = process 2 5

abbrev z : QueueNode
z = process 3 2

different : Distinct (x ∷ y ∷ z ∷ [])
different = ((λ e. omega arith, (λ e. omega arith, tt)), ((λ e. omega arith, tt), (tt, tt)))

sort_ready_queue_example :
    (r : Queue) × (last : QueueNode) × (sort_ready_queue (x ∷ y ∷ z ∷ []) ≡ some (r ++ last ∷ []))
    × Perm (r ++ last ∷ []) (x ∷ y ∷ z ∷ [])
    × All (λ n. swap_needed n last ≡ false) (x ∷ y ∷ z ∷ [])
sort_ready_queue_example = sort_ready_queue_lem x (y ∷ z ∷ []) different

ordered : IsOrdered z (y ∷ x ∷ [])
unfolding swap_needed
ordered = (refl, (refl, tt))

different_ordered : Distinct (z ∷ y ∷ x ∷ [])
different_ordered = ((λ e. omega arith, (λ e. omega arith, tt)), ((λ e. omega arith, tt), (tt, tt)))

sort_ready_queue-IsOrdered_example : sort_ready_queue (z ∷ y ∷ x ∷ []) ≡ some (z ∷ y ∷ x ∷ [])
sort_ready_queue-IsOrdered_example =
    sort_ready_queue-IsOrdered z (y ∷ x ∷ []) different_ordered ordered

pop_shortest_job-first_two_example :
    pop_shortest_job (x ∷ y ∷ z ∷ [])
    ≡ some (if swap_needed x y then (some y, bubble x (z ∷ [])) else (some x, bubble y (z ∷ [])))
pop_shortest_job-first_two_example = pop_shortest_job-first_two x y (z ∷ []) different

pop_shortest_job-misses_example : pop_shortest_job (x ∷ y ∷ z ∷ []) ≡ some (some y, z ∷ x ∷ [])
pop_shortest_job-misses_example =
    pop_shortest_job-misses x y z different refl refl refl (omega arith) (omega arith)

aging_select_example :
    (next : QueueNode) × (rest : Queue) × (aging_select (x ∷ y ∷ z ∷ []) ≡ some (next, rest))
    × Perm (next ∷ rest) (x ∷ y ∷ z ∷ [])
    × All (ScoreAtLeast (score next)) (x ∷ y ∷ z ∷ [])
aging_select_example =
    aging_select_lem x (y ∷ z ∷ []) (omega arith, (omega arith, (omega arith, tt)))
