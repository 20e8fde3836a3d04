-- ===== src/A2/ReadyQueue/Sorting.antt =====
-- What `sort_ready_queue` and `ready_queue_pop_shortest_job` do to a queue.
use comp310_assignments.Prelude.{
  ◌<◌, ◌≡◌, refl, sym, ◌∙◌, ap, inl, inr, Bool, true, false, [], ◌∷◌, ◌++◌, some, arith, subst,
  if◌then◌else◌, Bool-cases, All,
}
use mathlib.Core.List.{Perm}
use mathlib.Core.List.Perm
use comp310_assignments.A2.ReadyQueue.{
  QueueNode, Queue, score, swap_needed, sort_ready_queue, pop_head, pop_shortest_job,
}
use comp310_assignments.A2.ReadyQueue.Bubble.{
  bubble, carried, front, bubble-front, Distinct, sort_ready_queue-bubble,
}

-- `swap_needed` orders the nodes: those with priority first, then by score.
pub swap_needed_asymm : (x y : QueueNode) → swap_needed x y ≡ true → swap_needed y x ≡ false
unfolding swap_needed
swap_needed_asymm x y h = ground arith

pub swap_needed_trans :
    (x y z : QueueNode)
    → swap_needed x y ≡ false
    → swap_needed y z ≡ false
    → swap_needed x z ≡ false
unfolding swap_needed
swap_needed_trans x y z h k = ground arith

swap_needed_self : (x : QueueNode) → swap_needed x x ≡ false
unfolding swap_needed
swap_needed_self x = ground arith

pub bubble-perm : (x : QueueNode) (q : Queue) → Perm (bubble x q) (x ∷ q)
unfolding bubble
bubble-perm x [] = Perm.refl (x ∷ [])
bubble-perm x (y ∷ q) =
    elim (swap_needed x y)
      as (λ b. Perm (if b then y ∷ bubble x q else x ∷ bubble y q) (x ∷ y ∷ q)) [
        | true ↦ Perm.trans (Perm.cons y (bubble-perm x q)) (Perm.swap x y q)
        | false ↦ Perm.cons x (bubble-perm y q)
      ]

-- No node of the list should stand behind the one that the pass carries to the end.
abbrev RanksBefore : QueueNode → QueueNode → Type 0
RanksBefore c z = swap_needed z c ≡ false

carried-cons :
    (x y : QueueNode) (q : Queue) (b : Bool)
    → swap_needed x y ≡ b
    → carried x (y ∷ q) ≡ carried (if b then x else y) q
unfolding carried
carried-cons x y q b e = ap (λ c. carried (if c then x else y) q) e

carried-max : (x : QueueNode) (q : Queue) → All (RanksBefore (carried x q)) (x ∷ q)
unfolding carried
carried-max x [] = (swap_needed_self x, tt)
carried-max x (y ∷ q) = elim (Bool-cases (swap_needed x y)) [
  | inl t ↦
      subst (λ c. All (RanksBefore c) (x ∷ y ∷ q)) (sym (carried-cons x y q true t))
        (let (h, k) = carried-max x q in
          (h, (swap_needed_trans y x (carried x q) (swap_needed_asymm x y t) h, k)))
  | inr t ↦
      subst (λ c. All (RanksBefore c) (x ∷ y ∷ q)) (sym (carried-cons x y q false t))
        (let (h, k) = carried-max y q in (swap_needed_trans x y (carried y q) t h, (h, k)))
]

-- Sorting a queue of nodes with different addresses ends. It permutes the nodes, and the last node of the result
-- is one behind which no node of the queue should stand.
pub sort_ready_queue_lem :
    (x : QueueNode) (q : Queue)
    → Distinct (x ∷ q)
    → (r : Queue) × (last : QueueNode) × (sort_ready_queue (x ∷ q) ≡ some (r ++ last ∷ []))
      × Perm (r ++ last ∷ []) (x ∷ q)
      × All (λ z. swap_needed z last ≡ false) (x ∷ q)
sort_ready_queue_lem x q d = (
  front x q,
  carried x q,
  sort_ready_queue-bubble x q d ∙ ap some (bubble-front x q),
  subst (λ l. Perm l (x ∷ q)) (bubble-front x q) (bubble-perm x q),
  carried-max x q,
)

-- The order that the sort means to make: no node should stand behind its successor.
abbrev pub IsOrdered : QueueNode → Queue → Type 0
IsOrdered x [] = Unit
IsOrdered x (y ∷ q) = (swap_needed x y ≡ false) × IsOrdered y q

bubble-IsOrdered : (x : QueueNode) (q : Queue) → IsOrdered x q → bubble x q ≡ x ∷ q
unfolding bubble
bubble-IsOrdered x [] h = refl
bubble-IsOrdered x (y ∷ q) h = ground (arith, bubble-IsOrdered y q h.1)

-- A queue that is in order already stays as it is.
pub sort_ready_queue-IsOrdered :
    (x : QueueNode) (q : Queue)
    → Distinct (x ∷ q)
    → IsOrdered x q
    → sort_ready_queue (x ∷ q) ≡ some (x ∷ q)
sort_ready_queue-IsOrdered x q d h =
    sort_ready_queue-bubble x q d ∙ ap some (bubble-IsOrdered x q h)

-- `pop_shortest_job` on at least two nodes returns the better of the first two; it does not look at
-- the others.
pub pop_shortest_job-first_two :
    (x y : QueueNode) (q : Queue)
    → Distinct (x ∷ y ∷ q)
    → pop_shortest_job (x ∷ y ∷ q)
      ≡ some (if swap_needed x y then (some y, bubble x q) else (some x, bubble y q))
unfolding pop_shortest_job bubble pop_head
pop_shortest_job-first_two x y q d =
    rw (sort_ready_queue-bubble x (y ∷ q) d, pop_shortest_job) (ground arith)

-- So it does not return the shortest job: of three processes without priority in falling order of
-- their scores it returns the second.
pub pop_shortest_job-misses :
    (x y z : QueueNode)
    → Distinct (x ∷ y ∷ z ∷ [])
    → x.pcb.priority ≡ false
    → y.pcb.priority ≡ false
    → z.pcb.priority ≡ false
    → score z < score y
    → score y < score x
    → pop_shortest_job (x ∷ y ∷ z ∷ []) ≡ some (some y, z ∷ x ∷ [])
unfolding bubble swap_needed
pop_shortest_job-misses x y z d px py pz h k =
    pop_shortest_job-first_two x y (z ∷ []) d ∙ ground arith
