-- ===== src/A2/ReadyQueue/Aging.antt =====
-- The choice of the next process by `scheduler_AGING`: a2/ready_queue.c and a2/kernel.c.
use comp310_assignments.Prelude.{
  ℕ, ◌≤◌, ◌<◌, ◌≡◌, refl, sym, inl, inr, [], ◌∷◌, Option, none, some, arith, subst, if◌then◌else◌,
  ltb, Nat-cases, Nat-order, ◌≢◌, All,
}
use mathlib.Core.List.{Perm}
use mathlib.Core.List.Perm
use comp310_assignments.A2.ReadyQueue.{
  QueueNode, Queue, score, pop_head, add_to_tail, shortest_from, get_shortest_job_score, max_int,
  take_score, promote,
}

abbrev pub ScoreAtLeast : ℕ → QueueNode → Type 0
ScoreAtLeast s z = s ≤ score z

abbrev pub ScoreAtMost : ℕ → QueueNode → Type 0
ScoreAtMost s z = score z ≤ s

-- `cur = ready_queue_pop_head();`, `none` where that is NULL.
unfoldable pub next_process : Queue → Option (QueueNode × Queue)
next_process q = let (next, r) = pop_head q in elim next [ none ↦ none | some x ↦ some (x, r) ]

-- One round of `scheduler_AGING` up to the choice of `cur`: the process that runs next, and the queue.
-- `none` is a read through NULL, of the empty queue among others; the scheduler tests for that first.
unfoldable pub aging_select : Queue → Option (QueueNode × Queue)
aging_select [] = none
aging_select (cur ∷ q) =
    let shortest = get_shortest_job_score q in
    if ltb shortest (score cur)
    then elim (promote shortest q) [ none ↦ none | some q' ↦ next_process (add_to_tail cur q') ]
    else some (cur, q)

shortest_from-le : (s : ℕ) (q : Queue) → shortest_from s q ≤ s
unfolding shortest_from
shortest_from-le s [] = omega arith
shortest_from-le s (x ∷ q) =
    ground (arith, shortest_from-le (if ltb (score x) s then score x else s) q)

shortest_from-lower : (s : ℕ) (q : Queue) → All (ScoreAtLeast (shortest_from s q)) q
unfolding shortest_from
shortest_from-lower s [] = tt
shortest_from-lower s (x ∷ q) = (
  ground (arith, shortest_from-le (if ltb (score x) s then score x else s) q),
  shortest_from-lower (if ltb (score x) s then score x else s) q,
)

-- The walk finds a node with the score, or there is none.
record Taken (s : ℕ) (q : Queue) : Type 0 where
  node : QueueNode
  others : Queue
  found : take_score s q ≡ some (node, others)
  has : score node ≡ s
  perm : Perm (node ∷ others) q

Taken-head : (s : ℕ) (x : QueueNode) (q : Queue) → score x ≡ s → Taken s (x ∷ q)
unfolding take_score
Taken-head s x q e = record {
  node = x;
  others = q;
  found = ground arith;
  has = e;
  perm = Perm.refl (x ∷ q);
}

Taken-cons : (s : ℕ) (x : QueueNode) (q : Queue) → score x ≢ s → Taken s q → Taken s (x ∷ q)
unfolding take_score
Taken-cons s x q ne t = record {
  node = t.node;
  others = x ∷ t.others;
  found = ground (arith, t.found);
  has = t.has;
  perm = Perm.trans (Perm.swap x t.node t.others) (Perm.cons x t.perm);
}

shortest-Taken : (s t : ℕ) (q : Queue) → shortest_from s q ≡ t → t < s → Taken t q
unfolding shortest_from
shortest-Taken s t [] e h = absurd (omega arith)
shortest-Taken s t (x ∷ q) e h = elim (Nat-cases (score x) t) [
  | inl same ↦ Taken-head t x q same
  | inr other ↦ Taken-cons t x q other (
      shortest-Taken (if ltb (score x) s then score x else s) t q e
        (below e (shortest_from-le (if ltb (score x) s then score x else s) q) other))
]
  where
    below :
        shortest_from (if ltb (score x) s then score x else s) q ≡ t
        → shortest_from (if ltb (score x) s then score x else s) q
          ≤ (if ltb (score x) s then score x else s)
        → score x ≢ t
        → t < (if ltb (score x) s then score x else s)
    below e le ne = ground arith

promote-Taken : (s : ℕ) (q : Queue) (t : Taken s q) → promote s q ≡ some (t.node ∷ t.others)
unfolding promote
promote-Taken s [] t = absurd (none_left s t)
  where
    none_left : (s : ℕ) → Taken s [] → ⊥
    none_left s t = cc (t.found)
promote-Taken s (x ∷ q) t =
    let e : take_score s (x ∷ q) ≡ some (t.node, t.others) = t.found in ground arith

add_to_tail-perm : (x : QueueNode) (q : Queue) → Perm (add_to_tail x q) (x ∷ q)
unfolding add_to_tail
add_to_tail-perm x [] = Perm.refl (x ∷ [])
add_to_tail-perm x (y ∷ q) = Perm.trans (Perm.cons y (add_to_tail-perm x q)) (Perm.swap x y q)

-- The process that is chosen, and the queue it leaves.
pub record Chosen (q : Queue) : Type 0 where
  pub next : QueueNode
  pub rest : Queue
  pub result : aging_select q ≡ some (next, rest)
  pub perm : Perm (next ∷ rest) q
  pub shortest : All (ScoreAtLeast (score next)) q

All-lower : (s t : ℕ) (q : Queue) → s ≤ t → All (ScoreAtLeast t) q → All (ScoreAtLeast s) q
All-lower s t [] h a = tt
All-lower s t (x ∷ q) h a = (omega (arith, a.0), All-lower s t q h a.1)

-- The current process is kept.
select_kept :
    (cur : QueueNode) (q : Queue) → score cur ≤ get_shortest_job_score q → Chosen (cur ∷ q)
unfolding aging_select get_shortest_job_score
select_kept cur q h = record {
  next = cur;
  rest = q;
  result = ground arith;
  perm = Perm.refl (cur ∷ q);
  shortest = (
    omega arith,
    All-lower (score cur) (shortest_from max_int q) q h (shortest_from-lower max_int q),
  );
}

-- A shorter process takes its place.
select_promoted :
    (cur : QueueNode) (q : Queue)
    → score cur ≤ max_int
    → get_shortest_job_score q < score cur
    → Chosen (cur ∷ q)
unfolding aging_select get_shortest_job_score add_to_tail next_process pop_head
select_promoted cur q top h =
    let s : ℕ = shortest_from max_int q in
    let t : Taken s q = shortest-Taken max_int s q refl (omega arith) in
    record {
      next = t.node;
      rest = add_to_tail cur t.others;
      result = ground (arith, promote-Taken s q t);
      perm =
          Perm.trans (Perm.cons t.node (add_to_tail-perm cur t.others))
            (Perm.trans (Perm.swap cur t.node t.others) (Perm.cons cur t.perm));
      shortest =
          subst (λ k. All (ScoreAtLeast k) (cur ∷ q)) (sym t.has)
            (omega arith, shortest_from-lower max_int q);
    }

-- From a queue that is not empty, with scores up to MAX_INT, the scheduler takes a process with the least score of all, and the
-- queue keeps the others.
pub aging_select_lem :
    (cur : QueueNode) (q : Queue)
    → All (ScoreAtMost max_int) (cur ∷ q)
    → (next : QueueNode) × (rest : Queue) × (aging_select (cur ∷ q) ≡ some (next, rest))
      × Perm (next ∷ rest) (cur ∷ q)
      × All (ScoreAtLeast (score next)) (cur ∷ q)
aging_select_lem cur q h = (c.next, c.rest, c.result, c.perm, c.shortest)
  where
    c : Chosen (cur ∷ q)
    c = elim (Nat-order (score cur) (get_shortest_job_score q)) [
      | inl le ↦ select_kept cur q le
      | inr gt' ↦ select_promoted cur q h.0 gt'
    ]
