-- ===== src/A2/ReadyQueue.antt =====
-- a2/ready_queue.c: the ready queue, a list of nodes linked through `next` from the global `head`.
-- The chain of `next` pointers is a list, whose order is that of the chain; the empty list is
-- `head == NULL`. A node keeps its address, so that the pointer comparisons of the source are
-- comparisons of addresses. Where the source would read through NULL the result is `none`.
pub mod Bubble
pub mod Sorting
pub mod Aging
use comp310_assignments.Prelude.{
  ℕ, zero, suc, ◌+◌, ◌-◌, Bool, true, false, not, ◌&&◌, List, [], ◌∷◌, Option, none, some, Text,
  streq, ltb, ◌==◌, if◌then◌else◌, length, map,
}
use comp310_assignments.A2.Pcb.{Pcb}

pub record QueueNode : Type 0 where
  pub addr : ℕ
  pub pcb : Pcb

abbrev pub Queue : Type 0
Queue = List QueueNode

abbrev pub score : QueueNode → ℕ
score x = x.pcb.job_length_score

unfoldable pub add_to_tail : QueueNode → Queue → Queue
add_to_tail node [] = node ∷ []
add_to_tail node (x ∷ q) = x ∷ add_to_tail node q

unfoldable pub add_to_head : QueueNode → Queue → Queue
add_to_head node q = node ∷ q

unfoldable pub is_ready_empty : Queue → Bool
is_ready_empty [] = true
is_ready_empty (_ ∷ _) = false

-- The node that is returned (`none` is NULL), and the queue after the call.
unfoldable pub pop_head : Queue → Option QueueNode × Queue
pop_head [] = (none, [])
pop_head (x ∷ q) = (some x, q)

-- `if (score > 0) score--;`, which is what `-` on ℕ does.
unfoldable pub decrement_score : QueueNode → QueueNode
decrement_score x = record x {
  pcb = record (x.pcb) { job_length_score = x.pcb.job_length_score - 1 };
}

unfoldable pub decrement_job_length_score : Queue → Queue
decrement_job_length_score [] = []
decrement_job_length_score (x ∷ q) = decrement_score x ∷ decrement_job_length_score q

-- The node at an address changes place with its successor: `none` where the source reads through a
-- successor that is NULL. If no node has the address the queue stays as it is.
unfoldable pub swap_with_next : ℕ → Queue → Option Queue
swap_with_next a [] = some []
swap_with_next a (x ∷ []) = if x.addr == a then none else some (x ∷ [])
swap_with_next a (x ∷ y ∷ q) = elim (x.addr == a) [
  | true ↦ some (y ∷ x ∷ q)
  | false ↦ elim (swap_with_next a (y ∷ q)) [ some r ↦ some (x ∷ r) | none ↦ none ]
]

-- `cur->next` of the node at an address.
unfoldable pub next_of : ℕ → Queue → Option QueueNode
next_of a [] = none
next_of a (x ∷ []) = none
next_of a (x ∷ y ∷ q) = if x.addr == a then some y else next_of a (y ∷ q)

-- `swap_needed(cur)` where `cur->next` is not NULL; the loop of `sort_ready_queue` calls it only there.
unfoldable pub swap_needed : QueueNode → QueueNode → Bool
swap_needed cur next =
    if cur.pcb.priority && next.pcb.priority
    then ltb (score next) (score cur)
    else if cur.pcb.priority && not next.pcb.priority
    then false
    else if not cur.pcb.priority && next.pcb.priority
    then true
    else ltb (score next) (score cur)

-- The inner loop of `sort_ready_queue`, on fuel: `cur`, the queue and the flag `sorted`.
unfoldable pub sort_pass : ℕ → QueueNode → Queue → Bool → Option (QueueNode × Queue × Bool)
sort_pass zero cur q sorted = none
sort_pass (suc f) cur q sorted = elim (next_of cur.addr q) [
  | none ↦ some (cur, q, sorted)
  | some next ↦ elim (swap_needed cur next) [
    | true ↦ elim (swap_with_next cur.addr q) [ some q' ↦ sort_pass f cur q' false | none ↦ none ]
    | false ↦ sort_pass f next q sorted
  ]
]

-- The outer loop, on fuel. `cur` is not set back to `head` between the rounds.
unfoldable pub sort_loop : ℕ → QueueNode → Queue → Option Queue
sort_loop zero cur q = none
sort_loop (suc f) cur q = elim (sort_pass (length q) cur q true) [
  | none ↦ none
  | some (cur', q', sorted) ↦ elim sorted [ true ↦ some q' | false ↦ sort_loop f cur' q' ]
]

-- Two rounds are enough fuel, as `Bubble` shows.
unfoldable pub sort_ready_queue : Queue → Option Queue
sort_ready_queue [] = some []
sort_ready_queue (x ∷ q) = sort_loop 2 x (x ∷ q)

unfoldable pub pop_shortest_job : Queue → Option (Option QueueNode × Queue)
pop_shortest_job q = elim (sort_ready_queue q) [ some q' ↦ some (pop_head q') | none ↦ none ]

abbrev pub max_int : ℕ
max_int = 2147483646

shortest_from : ℕ → Queue → ℕ
shortest_from shortest [] = shortest
shortest_from shortest (x ∷ q) =
    shortest_from (if ltb (score x) shortest then score x else shortest) q

unfoldable pub get_shortest_job_score : Queue → ℕ
unfolding shortest_from
get_shortest_job_score q = shortest_from max_int q

-- The walk of `ready_queue_promote` behind `head`: the first node with the score, and the others.
take_score : ℕ → Queue → Option (QueueNode × Queue)
take_score s [] = none
take_score s (x ∷ q) = elim (score x == s) [
  | true ↦ some (x, q)
  | false ↦ elim (take_score s q) [ some (y, r) ↦ some (y, x ∷ r) | none ↦ none ]
]

-- `none` where `head` is NULL: the source reads its score.
unfoldable pub promote : ℕ → Queue → Option Queue
unfolding take_score
promote s [] = none
promote s (x ∷ q) =
    if score x == s
    then some (x ∷ q)
    else elim (take_score s q) [ some (y, r) ↦ some (y ∷ x ∷ r) | none ↦ some (x ∷ q) ]

unfoldable pub present : Text → Queue → Bool
present name [] = false
present name (x ∷ q) = if streq x.pcb.filename name then true else present name q
