-- ===== src/A3/LinkedList/Pop.antt =====
-- pop_head, pop_tail and what they share with remove_elem: a node is unlinked.
use mathlib.Core.List.{append-nil}
use comp310_assignments.Prelude.{
  ℕ, ◌≡◌, refl, sym, ◌∙◌, ◌≢◌, List, [], ◌∷◌, ◌++◌, subst, arith, ◌-◌, none, some,
}
use comp310_assignments.A3.LinkedList.{
  Heap, LinkedList, set_next, set_prev, unlink, pop_head, pop_tail,
}
use comp310_assignments.A3.LinkedList.Path.{Distinct, Distinct-append_right}
use comp310_assignments.A3.LinkedList.Edit.{Removed}
use comp310_assignments.A3.LinkedList.Ends.{
  path_with, cons_eq, Gap, gap, gap-around, Holds, Holds-remove, length-insert, contents,
}
use comp310_assignments.A3.LinkedList.Push.{right-back}

module _ {A : Type 0} (l : LinkedList) (h : Heap A) where
  unlink-Removed :
      (n u v : ℕ)
      → (h u).next ≡ n
      → (h n).prev ≡ u
      → (h n).next ≡ v
      → (h v).prev ≡ n
      → u ≢ n
      → v ≢ n
      → u ≢ v
      → Removed h (unlink n h) u v
  unfolding unlink set_next set_prev
  unlink-Removed n u v a b c d nu nv ne = record {
    u_next = ground arith;
    v_prev = ground arith;
    nexts = λ w q. ground arith;
    prevs = λ w q. ground arith;
  }

  unlink-content : (n b : ℕ) → (unlink n h b).content ≡ (h b).content
  unfolding unlink set_next set_prev
  unlink-content n b = ground arith

  contents-unlink : (n : ℕ) (ps : List ℕ) → contents (unlink n h) ps ≡ contents h ps
  contents-unlink n [] = refl
  contents-unlink n (b ∷ ps) = cons_eq (unlink-content n b) (contents-unlink n ps)

  -- A node of a well-formed list, unlinked, leaves a well-formed list of the others.
  pub Holds-unlink :
      (front : List ℕ) (n : ℕ) (back : List ℕ)
      → Holds h l (front ++ n ∷ back)
      → Holds (unlink n h) (record l { size = l.size - 1 }) (front ++ back)
        × (contents (unlink n h) (front ++ back) ≡ contents h (front ++ back))
  Holds-unlink front n back k = (
    Holds-remove h (unlink n h) l front back g n k (
        unlink-Removed n g.left g.right around.0 around.1 around.2 around.3 apart.0.0
          (λ e. apart.1.0.0 (sym e)) apart.0.1.0),
    contents-unlink n (front ++ back),
  )
    where
      g : Gap l front back
      g = gap l front back

      around :
          ((h g.left).next ≡ n)
          × ((h n).prev ≡ g.left)
          × ((h n).next ≡ g.right)
          × ((h g.right).prev ≡ n)
      around = gap-around h l front back g n k

      apart : Distinct (g.left ∷ n ∷ g.right ∷ g.after)
      apart =
          Distinct-append_right g.before (g.left ∷ n ∷ g.right ∷ g.after)
            (subst Distinct (path_with l front back g n) k.distinct)

  -- `pop_head` on a well-formed list of the nodes `n ∷ ps` gives what the first node holds, and leaves
  -- a well-formed list of `ps` with the same contents.
  pub pop_head_lem :
      (n : ℕ) (ps : List ℕ)
      → Holds h l (n ∷ ps)
      → (pop_head l h ≡ some ((h n).content, record l { size = l.size - 1 }, unlink n h))
        × Holds (unlink n h) (record l { size = l.size - 1 }) ps
        × (contents (unlink n h) ps ≡ contents h ps)
  unfolding pop_head
  pop_head_lem n ps k = (
    let e = k.linked.0.0 in let e' = k.sized in ground arith,
    (Holds-unlink [] n ps k).0,
    contents-unlink n ps,
  )

  -- `pop_tail` on a well-formed list of the nodes `ps ++ n ∷ []` gives what the last node holds, and
  -- leaves a well-formed list of `ps` with the same contents.
  pub pop_tail_lem :
      (ps : List ℕ) (n : ℕ)
      → Holds h l (ps ++ n ∷ [])
      → (pop_tail l h ≡ some ((h n).content, record l { size = l.size - 1 }, unlink n h))
        × Holds (unlink n h) (record l { size = l.size - 1 }) ps
        × (contents (unlink n h) ps ≡ contents h ps)
  unfolding pop_tail
  pop_tail_lem ps n k = (
    let e' = k.sized ∙ length-insert ps n [] in let e = last in ground arith,
    subst (λ r. Holds (unlink n h) (record l { size = l.size - 1 }) r) (append-nil ps)
        (Holds-unlink ps n [] k).0,
    contents-unlink n ps,
  )
    where
      g : Gap l ps []
      g = gap l ps []

      last : (h (l.dummy_tail)).prev ≡ n
      last = subst (λ w. (h w).prev ≡ n) (sym (right-back l ps g)) (gap-around h l ps [] g n k).3

  -- Both pops fault on an empty list: the program exits there.
  pub pop-empty : Holds h l [] → (pop_head l h ≡ none) × (pop_tail l h ≡ none)
  unfolding pop_head pop_tail
  pop-empty k = let e = k.sized in (ground arith, ground arith)
