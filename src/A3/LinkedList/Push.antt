-- ===== src/A3/LinkedList/Push.antt =====
-- add_tail, add_head and list_init.
use mathlib.Core.List.{map-append, append-nil}
use comp310_assignments.Prelude.{
  ℕ, ◌≡◌, refl, sym, ap, ◌∙◌, ◌≢◌, List, [], ◌∷◌, ◌++◌, subst, arith, ◌+◌,
}
use comp310_assignments.A3.LinkedList.{
  Heap, LinkedList, null, set_content, set_next, set_prev, add_tail, add_head,
}
use comp310_assignments.A3.LinkedList.Path.{All-Avoids, Avoids, Avoids-append_left}
use comp310_assignments.A3.LinkedList.Edit.{Inserted}
use comp310_assignments.A3.LinkedList.Ends.{
  path, Gap, gap, Holds, Holds-insert, contents, contents_same, gap-linked, gap_apart, gap-Avoids,
  cons_eq,
}

abbrev first_or : ℕ → List ℕ → ℕ
first_or d [] = d
first_or d (x ∷ xs) = x

abbrev last_or : ℕ → List ℕ → ℕ
last_or d [] = d
last_or d (x ∷ xs) = last_or x xs

last_or-append : (d : ℕ) (b : List ℕ) (w : ℕ) → last_or d (b ++ w ∷ []) ≡ w
last_or-append d [] w = refl
last_or-append d (x ∷ b) w = last_or-append x b w

append_eq : {A : Type 0} → {p q r s : List A} → p ≡ q → r ≡ s → p ++ r ≡ q ++ s
append_eq {q = q} {r = r} e e' = ap (λ w. w ++ r) e ∙ ap (λ w. q ++ w) e'

-- The gap before all nodes is behind the dummy head, the gap behind them before the dummy tail.
pub left-front : (l : LinkedList) (back : List ℕ) (g : Gap l [] back) → l.dummy_head ≡ g.left
left-front l back g = ap (last_or 0) g.front_eq ∙ last_or-append 0 g.before g.left

pub right-back : (l : LinkedList) (front : List ℕ) (g : Gap l front []) → l.dummy_tail ≡ g.right
right-back l front g = ap (first_or 0) g.back_eq

module _ {A : Type 0} (fresh : ℕ) (x : A) (l : LinkedList) (h : Heap A) where
  add_tail-Inserted :
      (u : ℕ)
      → (h (l.dummy_tail)).prev ≡ u
      → u ≢ fresh
      → l.dummy_tail ≢ fresh
      → u ≢ l.dummy_tail
      → Inserted h (add_tail fresh x l h).1 u fresh l.dummy_tail
  unfolding add_tail set_content set_next set_prev
  add_tail-Inserted u e nu nt ne = record {
    u_next = ground arith;
    n_prev = ground arith;
    n_next = ground arith;
    v_prev = ground arith;
    nexts = λ b q q'. ground arith;
    prevs = λ b q q'. ground arith;
  }

  add_head-Inserted :
      (v : ℕ)
      → (h (l.dummy_head)).next ≡ v
      → v ≢ fresh
      → l.dummy_head ≢ fresh
      → l.dummy_head ≢ v
      → Inserted h (add_head fresh x l h).1 l.dummy_head fresh v
  unfolding add_head set_content set_next set_prev
  add_head-Inserted v e nv nt ne = record {
    u_next = ground arith;
    n_prev = ground arith;
    n_next = ground arith;
    v_prev = ground arith;
    nexts = λ b q q'. ground arith;
    prevs = λ b q q'. ground arith;
  }

  add_tail-content :
      ((h (l.dummy_tail)).prev ≢ fresh)
      → l.dummy_tail ≢ fresh
      → (((add_tail fresh x l h).1 fresh).content ≡ x)
        × ((b : ℕ) → fresh ≢ b → fresh ≢ b → ((add_tail fresh x l h).1 b).content ≡ (h b).content)
  unfolding add_tail set_content set_next set_prev
  add_tail-content nu nt = (ground arith, λ b q _. ground arith)

  add_head-content :
      ((h (l.dummy_head)).next ≢ fresh)
      → l.dummy_head ≢ fresh
      → (((add_head fresh x l h).1 fresh).content ≡ x)
        × ((b : ℕ) → fresh ≢ b → fresh ≢ b → ((add_head fresh x l h).1 b).content ≡ (h b).content)
  unfolding add_head set_content set_next set_prev
  add_head-content nu nt = (ground arith, λ b q _. ground arith)

  add_tail-size : (add_tail fresh x l h).0 ≡ record l { size = l.size + 1 }
  unfolding add_tail
  add_tail-size = refl

  add_head-size : (add_head fresh x l h).0 ≡ record l { size = l.size + 1 }
  unfolding add_head
  add_head-size = refl

  -- On a well-formed list of the nodes `ps`, and with `fresh` an address that is neither NULL nor in
  -- use by the list, `add_tail` gives a well-formed list with `fresh` behind `ps`, whose contents are
  -- the old ones with `x` behind them.
  pub add_tail_lem :
      (ps : List ℕ)
      → Holds h l ps
      → Avoids fresh (path l ps)
      → null ≢ fresh
      → Holds (add_tail fresh x l h).1 (add_tail fresh x l h).0 (ps ++ fresh ∷ [])
        × (contents (add_tail fresh x l h).1 (ps ++ fresh ∷ []) ≡ contents h ps ++ x ∷ [])
  add_tail_lem ps k0 a0 nn = (
    subst (λ l'. Holds (add_tail fresh x l h).1 l' (ps ++ fresh ∷ [])) (sym add_tail-size)
        (Holds-insert h (add_tail fresh x l h).1 l ps [] g fresh k a nn (
          subst (λ v. Inserted h (add_tail fresh x l h).1 g.left fresh v) right_eq
            (add_tail-Inserted g.left prev_eq away.0 tail_away tail_apart))),
    map-append (λ b. ((add_tail fresh x l h).1 b).content) ps (fresh ∷ [])
        ∙ append_eq
            (contents_same h (add_tail fresh x l h).1 ps
              (All-Avoids fresh fresh ps others others kept.1))
            (cons_eq kept.0 refl),
  )
    where
      k : Holds h l (ps ++ [])
      k = subst (Holds h l) (sym (append-nil ps)) k0

      a : Avoids fresh (path l (ps ++ []))
      a = subst (λ r. Avoids fresh (path l r)) (sym (append-nil ps)) a0

      g : Gap l ps []
      g = gap l ps []

      right_eq : l.dummy_tail ≡ g.right
      right_eq = right-back l ps g

      away : (g.left ≢ fresh) × (g.right ≢ fresh)
      away = gap-Avoids h l ps [] g fresh a

      prev_eq : (h (l.dummy_tail)).prev ≡ g.left
      prev_eq = subst (λ u. (h u).prev ≡ g.left) (sym right_eq) (gap-linked h l ps [] g k).1

      tail_away : l.dummy_tail ≢ fresh
      tail_away e = away.1 (sym right_eq ∙ e)

      tail_apart : g.left ≢ l.dummy_tail
      tail_apart e = gap_apart h l ps [] g k.distinct (e ∙ right_eq)

      others : Avoids fresh ps
      others = Avoids-append_left fresh ps (l.dummy_tail ∷ []) a0.1

      kept :
          (((add_tail fresh x l h).1 fresh).content ≡ x)
          × ((b : ℕ) → fresh ≢ b → fresh ≢ b → ((add_tail fresh x l h).1 b).content ≡ (h b).content)
      kept = add_tail-content (λ e. away.0 (sym prev_eq ∙ e)) tail_away

  -- On a well-formed list of the nodes `ps`, and with `fresh` an address that is neither NULL nor in
  -- use by the list, `add_head` gives a well-formed list with `fresh` before `ps`, whose contents are
  -- the old ones with `x` before them.
  pub add_head_lem :
      (ps : List ℕ)
      → Holds h l ps
      → Avoids fresh (path l ps)
      → null ≢ fresh
      → Holds (add_head fresh x l h).1 (add_head fresh x l h).0 (fresh ∷ ps)
        × (contents (add_head fresh x l h).1 (fresh ∷ ps) ≡ x ∷ contents h ps)
  add_head_lem ps k a nn = (
    subst (λ l'. Holds (add_head fresh x l h).1 l' (fresh ∷ ps)) (sym add_head-size)
        (Holds-insert h (add_head fresh x l h).1 l [] ps g fresh k a nn (
          subst (λ u. Inserted h (add_head fresh x l h).1 u fresh g.right) left_eq
            (add_head-Inserted g.right next_eq away.1 head_away head_apart))),
    cons_eq kept.0 (
        contents_same h (add_head fresh x l h).1 ps
          (All-Avoids fresh fresh ps others others kept.1)),
  )
    where
      g : Gap l [] ps
      g = gap l [] ps

      left_eq : l.dummy_head ≡ g.left
      left_eq = left-front l ps g

      away : (g.left ≢ fresh) × (g.right ≢ fresh)
      away = gap-Avoids h l [] ps g fresh a

      next_eq : (h (l.dummy_head)).next ≡ g.right
      next_eq = subst (λ u. (h u).next ≡ g.right) (sym left_eq) (gap-linked h l [] ps g k).0

      head_away : l.dummy_head ≢ fresh
      head_away e = away.0 (sym left_eq ∙ e)

      head_apart : l.dummy_head ≢ g.right
      head_apart e = gap_apart h l [] ps g k.distinct (sym left_eq ∙ e)

      others : Avoids fresh ps
      others = Avoids-append_left fresh ps (l.dummy_tail ∷ []) a.1

      kept :
          (((add_head fresh x l h).1 fresh).content ≡ x)
          × ((b : ℕ) → fresh ≢ b → fresh ≢ b → ((add_head fresh x l h).1 b).content ≡ (h b).content)
      kept = add_head-content (λ e. away.1 (sym next_eq ∙ e)) head_away
