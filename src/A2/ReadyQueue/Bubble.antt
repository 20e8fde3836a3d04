-- ===== src/A2/ReadyQueue/Bubble.antt =====
-- The two loops of `sort_ready_queue` make one bubble pass.
use comp310_assignments.Prelude.{
  ℕ, zero, suc, ◌<◌, ◌≡◌, refl, sym, ap, ◌∙◌, ◌≢◌, inl, inr, Bool, true, false, ◌&&◌, [], ◌∷◌, ◌++◌,
  Option, none, some, arith, subst, if◌then◌else◌, Bool-cases, length,
}
use mathlib.Core.List.{append_assoc}
use comp310_assignments.A2.ReadyQueue.{
  QueueNode, Queue, next_of, swap_with_next, swap_needed, sort_pass, sort_loop, sort_ready_queue,
}

-- One pass: the node that is carried changes place with every node that should stand before it.
unfoldable pub bubble : QueueNode → Queue → Queue
bubble x [] = x ∷ []
bubble x (y ∷ q) = if swap_needed x y then y ∷ bubble x q else x ∷ bubble y q

-- The node that the pass carries to the end, and whether it moved none.
unfoldable pub carried : QueueNode → Queue → QueueNode
carried x [] = x
carried x (y ∷ q) = carried (if swap_needed x y then x else y) q

unfoldable pub unmoved : QueueNode → Queue → Bool
unmoved x [] = true
unmoved x (y ∷ q) = if swap_needed x y then false else unmoved y q

abbrev pub Avoids : ℕ → Queue → Type 0
Avoids a [] = Unit
Avoids a (x ∷ q) = (x.addr ≢ a) × Avoids a q

-- The nodes of a queue have different addresses.
abbrev pub Distinct : Queue → Type 0
Distinct [] = Unit
Distinct (x ∷ q) = Avoids x.addr q × Distinct q

Avoids-swap :
    (a : ℕ) (p : Queue) (x y : QueueNode) (q : Queue)
    → Avoids a (p ++ x ∷ y ∷ q)
    → Avoids a (p ++ y ∷ x ∷ q)
Avoids-swap a [] x y q h = (h.1.0, (h.0, h.1.1))
Avoids-swap a (z ∷ p) x y q h = (h.0, Avoids-swap a p x y q h.1)

Distinct-swap :
    (p : Queue) (x y : QueueNode) (q : Queue)
    → Distinct (p ++ x ∷ y ∷ q)
    → Distinct (p ++ y ∷ x ∷ q)
Distinct-swap [] x y q h = ((λ e. h.0.0 (sym e), h.1.0), (h.0.1, h.1.1))
Distinct-swap (z ∷ p) x y q h = (Avoids-swap z.addr p x y q h.0, Distinct-swap p x y q h.1)

Avoids-middle : (a : ℕ) (p : Queue) (x : QueueNode) (q : Queue) → Avoids a (p ++ x ∷ q) → x.addr ≢ a
Avoids-middle a [] x q h = h.0
Avoids-middle a (z ∷ p) x q h = Avoids-middle a p x q h.1

-- `cur` stands behind `p`: what its address finds.
next_of-middle :
    (p : Queue) (x : QueueNode) (y : QueueNode) (q : Queue)
    → Distinct (p ++ x ∷ y ∷ q)
    → next_of x.addr (p ++ x ∷ y ∷ q) ≡ some y
unfolding next_of
next_of-middle [] x y q h = ground arith
next_of-middle (z ∷ []) x y q h = ground arith
next_of-middle (z ∷ z' ∷ p) x y q h =
    ground (arith, next_of-middle (z' ∷ p) x y q h.1, Avoids-middle z.addr (z' ∷ p) x (y ∷ q) h.0)

next_of-last :
    (p : Queue) (x : QueueNode) → Distinct (p ++ x ∷ []) → next_of x.addr (p ++ x ∷ []) ≡ none
unfolding next_of
next_of-last [] x h = refl
next_of-last (z ∷ []) x h = ground arith
next_of-last (z ∷ z' ∷ p) x h =
    ground (arith, next_of-last (z' ∷ p) x h.1, Avoids-middle z.addr (z' ∷ p) x [] h.0)

swap_with_next-middle :
    (p : Queue) (x : QueueNode) (y : QueueNode) (q : Queue)
    → Distinct (p ++ x ∷ y ∷ q)
    → swap_with_next x.addr (p ++ x ∷ y ∷ q) ≡ some (p ++ y ∷ x ∷ q)
unfolding swap_with_next
swap_with_next-middle [] x y q h = ground arith
swap_with_next-middle (z ∷ []) x y q h = ground arith
swap_with_next-middle (z ∷ z' ∷ p) x y q h =
    ground
      (arith, swap_with_next-middle (z' ∷ p) x y q h.1, Avoids-middle z.addr (z' ∷ p) x (y ∷ q) h.0)

-- The rounds of the inner loop, by what they find.
module _ (f : ℕ) (x : QueueNode) (q : Queue) (sorted : Bool) where
  sort_pass-end : next_of x.addr q ≡ none → sort_pass (suc f) x q sorted ≡ some (x, q, sorted)
  unfolding sort_pass
  sort_pass-end e = ground arith

  sort_pass-advance :
      (y : QueueNode)
      → next_of x.addr q ≡ some y
      → swap_needed x y ≡ false
      → sort_pass (suc f) x q sorted ≡ sort_pass f y q sorted
  unfolding sort_pass
  sort_pass-advance y e t = ground arith

  sort_pass-swap :
      (y : QueueNode) (q' : Queue)
      → next_of x.addr q ≡ some y
      → swap_needed x y ≡ true
      → swap_with_next x.addr q ≡ some q'
      → sort_pass (suc f) x q sorted ≡ sort_pass f x q' false
  unfolding sort_pass
  sort_pass-swap y q' e t r = ground arith

-- What the inner loop leaves, with the nodes `p` in front of those that it walks.
abbrev passed : Queue → QueueNode → Queue → Bool → Option (QueueNode × Queue × Bool)
passed p x q sorted = some (carried x q, p ++ bubble x q, sorted && unmoved x q)

passed-swap :
    (p : Queue) (x y : QueueNode) (q : Queue) (sorted : Bool)
    → swap_needed x y ≡ true
    → passed (p ++ y ∷ []) x q false ≡ passed p x (y ∷ q) sorted
unfolding bubble carried unmoved
passed-swap p x y q sorted e =
    rw (e, append_assoc p (y ∷ []) (bubble x q))
      (ap (λ b. some (carried x q, p ++ y ∷ bubble x q, b)) (ground arith))

passed-advance :
    (p : Queue) (x y : QueueNode) (q : Queue) (sorted : Bool)
    → swap_needed x y ≡ false
    → passed (p ++ x ∷ []) y q sorted ≡ passed p x (y ∷ q) sorted
unfolding bubble carried unmoved
passed-advance p x y q sorted e = rw (e, append_assoc p (x ∷ []) (bubble y q))

&&-true : (b : Bool) → b ≡ (b && true)
&&-true b = ground arith

sort_pass-bubble :
    (f : ℕ) (p : Queue) (x : QueueNode) (q : Queue) (sorted : Bool) (l : Queue)
    → l ≡ p ++ x ∷ q
    → Distinct (p ++ x ∷ q)
    → length q < f
    → sort_pass f x l sorted ≡ passed p x q sorted
unfolding bubble carried unmoved
sort_pass-bubble zero p x q sorted l e d h = absurd (omega arith)
sort_pass-bubble (suc f) p x [] sorted l e d h = rw e (
    sort_pass-end f x (p ++ x ∷ []) sorted (next_of-last p x d)
    ∙ ap (λ b. some (x, p ++ x ∷ [], b)) (&&-true sorted))
sort_pass-bubble (suc f) p x (y ∷ q) sorted l e d h = elim (Bool-cases (swap_needed x y)) [
  | inl t ↦ rw e (
      sort_pass-swap f x _ sorted y (p ++ y ∷ x ∷ q) (next_of-middle p x y q d) t
        (swap_with_next-middle p x y q d)
      ∙ sort_pass-bubble f (p ++ y ∷ []) x q false (p ++ y ∷ x ∷ q)
          (sym (append_assoc p (y ∷ []) (x ∷ q)))
          (subst Distinct (sym (append_assoc p (y ∷ []) (x ∷ q))) (Distinct-swap p x y q d))
          (omega arith)
      ∙ passed-swap p x y q sorted t)
  | inr t ↦ rw e (
      sort_pass-advance f x _ sorted y (next_of-middle p x y q d) t
      ∙ sort_pass-bubble f (p ++ x ∷ []) y q sorted (p ++ x ∷ y ∷ q)
          (sym (append_assoc p (x ∷ []) (y ∷ q)))
          (subst Distinct (sym (append_assoc p (x ∷ []) (y ∷ q))) d) (omega arith)
      ∙ passed-advance p x y q sorted t)
]

-- The pass ends with the carried node.
pub front : QueueNode → Queue → Queue
front x [] = []
front x (y ∷ q) = if swap_needed x y then y ∷ front x q else x ∷ front y q

pub bubble-front : (x : QueueNode) (q : Queue) → bubble x q ≡ front x q ++ carried x q ∷ []
unfolding bubble front carried
bubble-front x [] = refl
bubble-front x (y ∷ q) = ground (arith, bubble-front x q, bubble-front y q)

pub length-bubble : (x : QueueNode) (q : Queue) → length (bubble x q) ≡ suc (length q)
unfolding bubble
length-bubble x [] = refl
length-bubble x (y ∷ q) = ground (arith, length-bubble x q, length-bubble y q)

Avoids-bubble : (a : ℕ) (x : QueueNode) (q : Queue) → Avoids a (x ∷ q) → Avoids a (bubble x q)
unfolding bubble
Avoids-bubble a x [] h = h
Avoids-bubble a x (y ∷ q) h =
    elim (swap_needed x y) as (λ b. Avoids a (if b then y ∷ bubble x q else x ∷ bubble y q)) [
      | true ↦ (h.1.0, Avoids-bubble a x q (h.0, h.1.1))
      | false ↦ (h.0, Avoids-bubble a y q h.1)
    ]

pub Distinct-bubble : (x : QueueNode) (q : Queue) → Distinct (x ∷ q) → Distinct (bubble x q)
unfolding bubble
Distinct-bubble x [] h = h
Distinct-bubble x (y ∷ q) h =
    elim (swap_needed x y) as (λ b. Distinct (if b then y ∷ bubble x q else x ∷ bubble y q)) [
      | true ↦ (
        Avoids-bubble y.addr x q ((λ e. h.0.0 (sym e)), h.1.0),
        Distinct-bubble x q (h.0.1, h.1.1),
      )
      | false ↦ (Avoids-bubble x.addr y q h.0, Distinct-bubble y q h.1)
    ]

sort_loop-round :
    (f : ℕ) (x c : QueueNode) (q r : Queue) (b : Bool)
    → sort_pass (length q) x q true ≡ some (c, r, b)
    → sort_loop (suc f) x q ≡ (if b then some r else sort_loop f c r)
unfolding sort_loop
sort_loop-round f x c q r b e = ground arith

second_pass :
    (x : QueueNode) (q : Queue)
    → Distinct (x ∷ q)
    → sort_pass (length (bubble x q)) (carried x q) (bubble x q) true
      ≡ some (carried x q, bubble x q, true)
second_pass x q d = rw (length-bubble x q) (
    sort_pass-end (length q) (carried x q) (bubble x q) true (
      rw (bubble-front x q) (
        next_of-last (front x q) (carried x q)
          (subst Distinct (bubble-front x q) (Distinct-bubble x q d)))))

-- A queue of nodes with different addresses: the outer loop ends within two rounds, and has made one
-- bubble pass over the queue.
pub sort_ready_queue-bubble :
    (x : QueueNode) (q : Queue) → Distinct (x ∷ q) → sort_ready_queue (x ∷ q) ≡ some (bubble x q)
unfolding sort_ready_queue
sort_ready_queue-bubble x q d =
    sort_loop-round 1 x (carried x q) (x ∷ q) (bubble x q) (unmoved x q)
      (sort_pass-bubble (suc (length q)) [] x q true (x ∷ q) refl d (omega arith))
    ∙ ground (arith, second)
  where
    second : sort_loop 1 (carried x q) (bubble x q) ≡ some (bubble x q)
    second =
        sort_loop-round 0 (carried x q) (carried x q) (bubble x q) (bubble x q) true
          (second_pass x q d)
