-- ===== src/A2/Kernel/Sjf/Popped.antt =====
-- pop_shortest_job of a2/ready_queue.c, as scheduler_SJF calls it.
use mathlib.Core.List.{Perm}
use comp310_assignments.Prelude.{
  suc, ◌≡◌, refl, true, false, [], ◌∷◌, some, arith, length, All, if◌then◌else◌,
}
use comp310_assignments.A2.ReadyQueue.{
  QueueNode, Queue, swap_needed, pop_head, sort_ready_queue, pop_shortest_job,
}
use comp310_assignments.A2.ReadyQueue.Bubble.{
  bubble, Distinct, Distinct-bubble, length-bubble, sort_ready_queue-bubble,
}
use comp310_assignments.A2.ReadyQueue.Sorting.{bubble-perm}

All-bubble :
    (P : QueueNode → Type 0) (x : QueueNode) (q : Queue) → All P (x ∷ q) → All P (bubble x q)
unfolding bubble
All-bubble P x [] h = h
All-bubble P x (y ∷ q) h =
    elim (swap_needed x y) as (λ b. All P (if b then y ∷ bubble x q else x ∷ bubble y q)) [
      | true ↦ (h.1.0, All-bubble P x q (h.0, h.1.1))
      | false ↦ (h.0, All-bubble P y q h.1)
    ]

-- `pop_shortest_job` takes one node of a queue that is not empty.
pub record Popped (P : QueueNode → Type 0) (q : Queue) : Type 0 where
  pub node : QueueNode
  pub rest : Queue
  pub result : pop_shortest_job q ≡ some (some node, rest)
  pub perm : Perm (node ∷ rest) q
  pub shorter : suc (length rest) ≡ length q
  pub distinct : Distinct rest
  pub passes : P node
  pub all : All P rest

pop_head-Popped :
    (P : QueueNode → Type 0) (x : QueueNode) (q b : Queue)
    → pop_shortest_job (x ∷ q) ≡ some (pop_head b)
    → length b ≡ suc (length q)
    → Perm b (x ∷ q)
    → Distinct b
    → All P b
    → Popped P (x ∷ q)
unfolding pop_head
pop_head-Popped P x q [] e len p d h = absurd (omega arith)
pop_head-Popped P x q (y ∷ b) e len p d h = record {
  node = y;
  rest = b;
  result = e;
  perm = p;
  shorter = len;
  distinct = d.1;
  passes = h.0;
  all = h.1;
}

sorted-popped :
    (x : QueueNode) (q b : Queue)
    → sort_ready_queue (x ∷ q) ≡ some b
    → pop_shortest_job (x ∷ q) ≡ some (pop_head b)
unfolding pop_shortest_job
sorted-popped x q b e = rw (e, pop_shortest_job) refl

pub pop_shortest_job-Popped :
    (P : QueueNode → Type 0) (x : QueueNode) (q : Queue)
    → Distinct (x ∷ q)
    → All P (x ∷ q)
    → Popped P (x ∷ q)
pop_shortest_job-Popped P x q d h =
    pop_head-Popped P x q (bubble x q)
      (sorted-popped x q (bubble x q) (sort_ready_queue-bubble x q d)) (length-bubble x q)
      (bubble-perm x q) (Distinct-bubble x q d) (All-bubble P x q h)
