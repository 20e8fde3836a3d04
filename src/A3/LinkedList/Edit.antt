-- ===== src/A3/LinkedList/Edit.antt =====
-- Putting a node between two neighbours, and taking one out.
use mathlib.Core.List.{append_assoc}
use comp310_assignments.Prelude.{ℕ, ◌≡◌, sym, ◌≢◌, List, [], ◌∷◌, ◌++◌, subst}
use comp310_assignments.A3.LinkedList.{Node}
use comp310_assignments.A3.LinkedList.Path.{
  Avoids, Distinct, Avoids-append_left, Avoids-append_right, Distinct-front, Distinct-append_right,
  All-Avoids, Linked, Linked-front, Linked-back, Linked-join, Linked-front_same, Linked-back_same,
}

module _ {A : Type 0} where
  -- The heap `h'` is `h` with the node `n` between `u` and `v`.
  pub record Inserted (h h' : ℕ → Node A) (u n v : ℕ) : Type 0 where
    pub u_next : (h' u).next ≡ n
    pub n_prev : (h' n).prev ≡ u
    pub n_next : (h' n).next ≡ v
    pub v_prev : (h' v).prev ≡ n
    pub nexts : (b : ℕ) → u ≢ b → n ≢ b → (h' b).next ≡ (h b).next
    pub prevs : (b : ℕ) → v ≢ b → n ≢ b → (h' b).prev ≡ (h b).prev

  -- The heap `h'` is `h` with `u` and `v` as neighbours.
  pub record Removed (h h' : ℕ → Node A) (u v : ℕ) : Type 0 where
    pub u_next : (h' u).next ≡ v
    pub v_prev : (h' v).prev ≡ u
    pub nexts : (b : ℕ) → u ≢ b → (h' b).next ≡ (h b).next
    pub prevs : (b : ℕ) → v ≢ b → (h' b).prev ≡ (h b).prev

  module _ (h h' : ℕ → Node A) (p : List ℕ) (u v : ℕ) (q : List ℕ) where
    -- What the addresses of `p ++ u ∷ v ∷ q` being different gives.
    apart_front : Distinct (p ++ u ∷ v ∷ q) → Avoids v (p ++ u ∷ [])
    apart_front d =
        Distinct-front (p ++ u ∷ []) v q (subst Distinct (sym (append_assoc p (u ∷ []) (v ∷ q))) d)

    apart_back : Distinct (p ++ u ∷ v ∷ q) → Avoids u (v ∷ q)
    apart_back d = (Distinct-append_right p (u ∷ v ∷ q) d).0

    apart_v : Distinct (p ++ u ∷ v ∷ q) → Avoids v q
    apart_v d = (Distinct-append_right p (u ∷ v ∷ q) d).1.0

    new_front : (n : ℕ) → Avoids n (p ++ u ∷ v ∷ q) → Avoids n (p ++ u ∷ [])
    new_front n a =
        Avoids-append_left n (p ++ u ∷ []) (v ∷ q)
          (subst (Avoids n) (sym (append_assoc p (u ∷ []) (v ∷ q))) a)

    pub Linked-Inserted :
        (n : ℕ)
        → Inserted h h' u n v
        → Distinct (p ++ u ∷ v ∷ q)
        → Avoids n (p ++ u ∷ v ∷ q)
        → Linked h (p ++ u ∷ v ∷ q)
        → Linked h' (p ++ u ∷ n ∷ v ∷ q)
    Linked-Inserted n i d a k =
        Linked-join h' p u (n ∷ v ∷ q) front ((i.u_next, i.n_prev), ((i.n_next, i.v_prev), back))
      where
        rest : Avoids n (u ∷ v ∷ q)
        rest = Avoids-append_right n p (u ∷ v ∷ q) a

        front : Linked h' (p ++ u ∷ [])
        front =
            Linked-front_same h h' p u
              (All-Avoids u n p (Distinct-front p u (v ∷ q) d)
                (Avoids-append_left n p (u ∷ v ∷ q) a) i.nexts)
              (All-Avoids v n (p ++ u ∷ []) (apart_front d) (new_front n a) i.prevs)
              (Linked-front h p u (v ∷ q) k)

        back : Linked h' (v ∷ q)
        back =
            Linked-back_same h h' v q (All-Avoids u n (v ∷ q) (apart_back d) rest.1 i.nexts)
              (All-Avoids v n q (apart_v d) rest.1.1 i.prevs) (Linked-back h p (u ∷ v ∷ q) k).1

    pub Linked-Removed :
        (x : ℕ)
        → Removed h h' u v
        → Distinct (p ++ u ∷ v ∷ q)
        → Linked h (p ++ u ∷ x ∷ v ∷ q)
        → Linked h' (p ++ u ∷ v ∷ q)
    Linked-Removed x r d k = Linked-join h' p u (v ∷ q) front ((r.u_next, r.v_prev), back)
      where
        front : Linked h' (p ++ u ∷ [])
        front =
            Linked-front_same h h' p u
              (All-Avoids u u p (Distinct-front p u (v ∷ q) d) (Distinct-front p u (v ∷ q) d)
                (λ b ne _. r.nexts b ne))
              (All-Avoids v v (p ++ u ∷ []) (apart_front d) (apart_front d)
                (λ b ne _. r.prevs b ne))
              (Linked-front h p u (x ∷ v ∷ q) k)

        back : Linked h' (v ∷ q)
        back =
            Linked-back_same h h' v q
              (All-Avoids u u (v ∷ q) (apart_back d) (apart_back d) (λ b ne _. r.nexts b ne))
              (All-Avoids v v q (apart_v d) (apart_v d) (λ b ne _. r.prevs b ne))
              (Linked-back h p (u ∷ x ∷ v ∷ q) k).1.1
