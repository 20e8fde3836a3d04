-- ===== src/A3/LinkedList/Search.antt =====
-- The searches of a linked list and remove_elem: the first node with an equal value.
use mathlib.Core.List.{append_assoc}
use comp310_assignments.Prelude.{
  ℕ, ◌≡◌, refl, sym, ap, ◌∙◌, ◌≢◌, List, [], ◌∷◌, ◌++◌, subst, arith, zero, suc, length, ◌+◌, ◌-◌,
  Bool, true, false, none, some, get_elem?, ◌<◌, ◌≤◌, Nat-order, inl, inr,
}
use comp310_assignments.A3.LinkedList.{
  Heap, LinkedList, null, unlink, walk, get_node_by_index, get_by_index, search_from,
  get_node_by_value, get_by_value, remove_elem,
}
use comp310_assignments.A3.LinkedList.Path.{Avoids, Linked, Avoids-append_right, Avoids-append_left}
use comp310_assignments.A3.LinkedList.Ends.{Holds, contents}
use comp310_assignments.A3.LinkedList.Pop.{Holds-unlink}

module _ {A : Type 0} (equal : A → A → Bool) (h : Heap A) where
  -- No value of the list is equal to `x`.
  abbrev pub NoneEqual : A → List A → Type 0
  NoneEqual x [] = Unit
  NoneEqual x (y ∷ ys) = (equal x y ≡ false) × NoneEqual x ys

  search_from_step :
      (m : ℕ) (x : A) (c : ℕ)
      → null ≢ c
      → equal x (h c).content ≡ false
      → search_from equal (suc m) x c h ≡ search_from equal m x (h c).next h
  unfolding search_from
  search_from_step m x c nn ne = ground arith

  search_from_hit :
      (m : ℕ) (x : A) (c : ℕ)
      → null ≢ c
      → equal x (h c).content ≡ true
      → search_from equal (suc m) x c h ≡ some c
  unfolding search_from
  search_from_hit m x c nn e = ground arith

  -- The search steps over nodes with other values.
  search_from_skip :
      (x : A) (u : ℕ) (front : List ℕ) (n : ℕ) (rest : List ℕ) (more : ℕ)
      → Linked h (u ∷ front ++ n ∷ rest)
      → Avoids null (front ++ n ∷ rest)
      → NoneEqual x (contents h front)
      → search_from equal (length front + more) x (h u).next h ≡ search_from equal more x n h
  search_from_skip x u [] n rest more k a ne =
      ap (λ c. search_from equal (0 + more) x c h) k.0.0
      ∙ ap (λ m. search_from equal m x n h) (omega arith)
  search_from_skip x u (y ∷ front) n rest more k a ne =
      ap (λ c. search_from equal (length (y ∷ front) + more) x c h) k.0.0
      ∙ ap (λ m. search_from equal m x y h) (omega arith)
      ∙ search_from_step (length front + more) x y a.0 ne.0
      ∙ search_from_skip x y front n rest more k.1 a.1 ne.1

  length-apart :
      (front : List ℕ) (n : ℕ) (back : List ℕ)
      → length (front ++ n ∷ back) ≡ length front + (length back + 1)
  length-apart [] n back = omega arith
  length-apart (x ∷ front) n back = let rec = length-apart front n back in omega arith

  module _ (l : LinkedList) (x : A) (front : List ℕ) (n : ℕ) (back : List ℕ) where
    get_node_by_value_lem :
        Holds h l (front ++ n ∷ back)
        → NoneEqual x (contents h front)
        → equal x (h n).content ≡ true
        → get_node_by_value equal l x h ≡ some n
    unfolding get_node_by_value
    get_node_by_value_lem k ne e =
        ap (λ m. search_from equal m x (h (l.dummy_head)).next h) fuel
        ∙ search_from_skip x l.dummy_head front n (back ++ l.dummy_tail ∷ [])
            (suc (length back + 2)) links present ne
        ∙ search_from_hit (length back + 2) x n
            (Avoids-append_right null front (n ∷ (back ++ l.dummy_tail ∷ [])) present).0 e
      where
        regroup :
            (p : List ℕ)
            → (p ++ n ∷ back) ++ l.dummy_tail ∷ [] ≡ p ++ n ∷ (back ++ l.dummy_tail ∷ [])
        regroup p = append_assoc p (n ∷ back) (l.dummy_tail ∷ [])

        links : Linked h (l.dummy_head ∷ front ++ n ∷ (back ++ l.dummy_tail ∷ []))
        links = subst (λ w. Linked h (l.dummy_head ∷ w)) (regroup front) k.linked

        present : Avoids null (front ++ n ∷ (back ++ l.dummy_tail ∷ []))
        present = subst (Avoids null) (regroup front) k.nonnull.1

        fuel : l.size + 2 ≡ length front + suc (length back + 2)
        fuel = let e1 = k.sized in let e2 = length-apart front n back in omega arith

    -- Where `x` is equal to what the node `n` of a well-formed list holds, and to what no earlier node
    -- holds, `remove_elem` gives the value of `n` and leaves a well-formed list of the other nodes,
    -- with their values in order.
    pub remove_elem_lem :
        Holds h l (front ++ n ∷ back)
        → NoneEqual x (contents h front)
        → equal x (h n).content ≡ true
        → (remove_elem equal x l h
            ≡ some ((h n).content, record l { size = l.size - 1 }, unlink n h))
          × Holds (unlink n h) (record l { size = l.size - 1 }) (front ++ back)
          × (contents (unlink n h) (front ++ back) ≡ contents h (front ++ back))
    unfolding remove_elem
    remove_elem_lem k ne e =
        let f = get_node_by_value_lem k ne e in
        let a =
          Avoids-append_right null front (n ∷ back)
            (Avoids-append_left null (front ++ n ∷ back) (l.dummy_tail ∷ []) k.nonnull.1) in
        let n0 = a.0 in let left = Holds-unlink l h front n back k in (ground arith, left.0, left.1)

    -- On the same conditions `get_by_value` gives the value of `n`.
    pub get_by_value_lem :
        Holds h l (front ++ n ∷ back)
        → NoneEqual x (contents h front)
        → equal x (h n).content ≡ true
        → get_by_value equal l x h ≡ some (h n).content
    unfolding get_by_value
    get_by_value_lem k ne e =
        let f = get_node_by_value_lem k ne e in
        let a =
          Avoids-append_right null front (n ∷ back)
            (Avoids-append_left null (front ++ n ∷ back) (l.dummy_tail ∷ []) k.nonnull.1) in
        let n0 = a.0 in ground arith

module _ {A : Type 0} (h : Heap A) where
  walk_lem :
      (u : ℕ) (ps : List ℕ) (t i : ℕ)
      → Linked h (u ∷ ps ++ t ∷ [])
      → Avoids null ps
      → i < length ps
      → (null ≢ walk i (h u).next h)
        × (get_elem? (contents h ps) i ≡ some (h (walk i (h u).next h)).content)
  unfolding walk
  walk_lem u [] t i k a lt = absurd (omega arith)
  walk_lem u (p ∷ ps) t zero k a lt =
      subst (λ c. (null ≢ c) × (some (h p).content ≡ some (h c).content)) (sym k.0.0) (a.0, refl)
  walk_lem u (p ∷ ps) t (suc i) k a lt =
      subst
        (λ c.
          (null ≢ walk i (h c).next h)
          × (get_elem? (contents h ps) i ≡ some (h (walk i (h c).next h)).content))
        (sym k.0.0) (walk_lem p ps t i k.1 a.1 (omega arith))

  contents-beyond : (ps : List ℕ) (i : ℕ) → length ps ≤ i → get_elem? (contents h ps) i ≡ none
  contents-beyond [] i lt = refl
  contents-beyond (p ∷ ps) zero lt = absurd (omega arith)
  contents-beyond (p ∷ ps) (suc i) lt = contents-beyond ps i (omega arith)

  -- On a well-formed list `get_by_index` gives the value at the index, and faults from the size on.
  pub get_by_index_lem :
      (l : LinkedList) (ps : List ℕ) (i : ℕ)
      → Holds h l ps
      → get_by_index l i h ≡ get_elem? (contents h ps) i
  unfolding get_by_index get_node_by_index
  get_by_index_lem l ps i k = elim (Nat-order (length ps) i) [
    | inl out ↦ let e = k.sized in let miss = contents-beyond ps i out in ground arith
    | inr within ↦
        let e = k.sized in
        let hit =
          walk_lem l.dummy_head ps l.dummy_tail i k.linked
            (Avoids-append_left null ps (l.dummy_tail ∷ []) k.nonnull.1) within in
        let hit0 = hit.0 in let hit1 = hit.1 in ground arith
  ]
