-- ===== src/A3/LinkedList/Ends.antt =====
-- The invariant of a linked list, kept where a node goes in and where one comes out.
use mathlib.Core.List.{append_assoc}
use comp310_assignments.Prelude.{
  ℕ, ◌≡◌, refl, sym, ap, ◌∙◌, ◌≢◌, List, [], ◌∷◌, ◌++◌, map, All, subst, arith, length, ◌+◌, ◌-◌,
}
use comp310_assignments.A3.LinkedList.{Node, LinkedList, null}
use comp310_assignments.A3.LinkedList.Path.{
  Avoids, Distinct, Linked, Linked-back, Avoids-append_right, Distinct-append_right, Avoids-insert,
  Distinct-insert, Avoids-remove, Distinct-remove,
}
use comp310_assignments.A3.LinkedList.Edit.{Inserted, Removed, Linked-Inserted, Linked-Removed}

-- The addresses from dummy to dummy.
abbrev pub path : LinkedList → List ℕ → List ℕ
path l ps = l.dummy_head ∷ ps ++ l.dummy_tail ∷ []

-- The neighbours on both sides of a place between two parts of a list.
pub record Gap (l : LinkedList) (front back : List ℕ) : Type 0 where
  pub before : List ℕ
  pub left : ℕ
  pub right : ℕ
  pub after : List ℕ
  pub front_eq : l.dummy_head ∷ front ≡ before ++ left ∷ []
  pub back_eq : back ++ l.dummy_tail ∷ [] ≡ right ∷ after

pub cons_eq : {A : Type 0} → {a b : A} → {r s : List A} → a ≡ b → r ≡ s → a ∷ r ≡ b ∷ s
cons_eq {b = b} {r = r} e e' = ap (λ a. a ∷ r) e ∙ ap (λ s. b ∷ s) e'

pub length-insert : (p : List ℕ) (n : ℕ) (q : List ℕ) → length (p ++ n ∷ q) ≡ length (p ++ q) + 1
length-insert [] n q = omega arith
length-insert (x ∷ p) n q = let rec = length-insert p n q in omega arith

-- The left neighbour is the dummy head, or the last node of the front.
left_of : (u : ℕ) (p : List ℕ) → (before : List ℕ) × (left : ℕ) × (u ∷ p ≡ before ++ left ∷ [])
left_of u [] = ([], u, refl)
left_of u (x ∷ p) = let (b, w, e) = left_of x p in (u ∷ b, w, ap (λ r. u ∷ r) e)

-- The right neighbour is the first node of the back, or the dummy tail.
right_of :
    (back : List ℕ) (v : ℕ) → (right : ℕ) × (after : List ℕ) × (back ++ v ∷ [] ≡ right ∷ after)
right_of [] v = (v, [], refl)
right_of (x ∷ back) v = (x, back ++ v ∷ [], refl)

pub gap : (l : LinkedList) (front back : List ℕ) → Gap l front back
gap l front back =
    let (b, w, e) = left_of l.dummy_head front in
    let (v, q, e') = right_of back l.dummy_tail in
    record { before = b; left = w; right = v; after = q; front_eq = e; back_eq = e' }

module _ (l : LinkedList) (front back : List ℕ) (g : Gap l front back) where
  split_at : (r s : List ℕ) → r ≡ s → (l.dummy_head ∷ front) ++ r ≡ g.before ++ g.left ∷ s
  split_at r s e =
      ap (λ w. w ++ r) g.front_eq
      ∙ append_assoc g.before (g.left ∷ []) r
      ∙ ap (λ w. g.before ++ g.left ∷ w) e

  pub path_gap : path l (front ++ back) ≡ g.before ++ g.left ∷ g.right ∷ g.after
  path_gap =
      ap (λ w. l.dummy_head ∷ w) (append_assoc front back (l.dummy_tail ∷ []))
      ∙ split_at (back ++ l.dummy_tail ∷ []) (g.right ∷ g.after) g.back_eq

  pub path_with : (n : ℕ) → path l (front ++ n ∷ back) ≡ g.before ++ g.left ∷ n ∷ g.right ∷ g.after
  path_with n =
      ap (λ w. l.dummy_head ∷ w) (append_assoc front (n ∷ back) (l.dummy_tail ∷ []))
      ∙ split_at (n ∷ back ++ l.dummy_tail ∷ []) (n ∷ g.right ∷ g.after) (ap (λ w. n ∷ w) g.back_eq)

module _ {A : Type 0} where
  -- The nodes `ps` stand between the dummies, linked both ways, all at different addresses that are
  -- not NULL, and the size counts them.
  pub record Holds (h : ℕ → Node A) (l : LinkedList) (ps : List ℕ) : Type 0 where
    pub linked : Linked h (path l ps)
    pub distinct : Distinct (path l ps)
    pub nonnull : Avoids null (path l ps)
    pub sized : l.size ≡ length ps

  abbrev pub contents : (ℕ → Node A) → List ℕ → List A
  contents h ps = map (λ a. (h a).content) ps

  pub contents_same :
      (h h' : ℕ → Node A) (ps : List ℕ)
      → All (λ a. (h' a).content ≡ (h a).content) ps
      → contents h' ps ≡ contents h ps
  contents_same h h' [] e = refl
  contents_same h h' (x ∷ ps) e = cons_eq e.0 (contents_same h h' ps e.1)

  module _ (h h' : ℕ → Node A) (l : LinkedList) (front back : List ℕ) (g : Gap l front back) where
    pub Holds-insert :
        (n : ℕ)
        → Holds h l (front ++ back)
        → Avoids n (path l (front ++ back))
        → null ≢ n
        → Inserted h h' g.left n g.right
        → Holds h' (record l { size = l.size + 1 }) (front ++ n ∷ back)
    Holds-insert n k a nn i = record {
      linked = subst (Linked h') (sym (path_with l front back g n)) (
          Linked-Inserted h h' g.before g.left g.right g.after n i (moved Distinct k.distinct)
            (moved (Avoids n) a) (moved (Linked h) k.linked));
      distinct = placed Distinct (
          Distinct-insert n (g.before ++ g.left ∷ []) (g.right ∷ g.after)
            (joined Distinct k.distinct) (joined (Avoids n) a));
      nonnull = placed (Avoids null) (
          Avoids-insert null n (g.before ++ g.left ∷ []) (g.right ∷ g.after)
            (joined (Avoids null) k.nonnull) nn);
      sized = ap (λ m. m + 1) k.sized ∙ sym (length-insert front n back);
    }
      where
        moved :
            (P : List ℕ → Type 0)
            → P (path l (front ++ back))
            → P (g.before ++ g.left ∷ g.right ∷ g.after)
        moved P x = subst P (path_gap l front back g) x

        joined :
            (P : List ℕ → Type 0)
            → P (path l (front ++ back))
            → P ((g.before ++ g.left ∷ []) ++ g.right ∷ g.after)
        joined P x =
            subst P (sym (append_assoc g.before (g.left ∷ []) (g.right ∷ g.after))) (moved P x)

        placed :
            (P : List ℕ → Type 0)
            → P ((g.before ++ g.left ∷ []) ++ n ∷ g.right ∷ g.after)
            → P (path l (front ++ n ∷ back))
        placed P x =
            subst P
              (append_assoc g.before (g.left ∷ []) (n ∷ g.right ∷ g.after)
                ∙ sym (path_with l front back g n))
              x

    pub Holds-remove :
        (n : ℕ)
        → Holds h l (front ++ n ∷ back)
        → Removed h h' g.left g.right
        → Holds h' (record l { size = l.size - 1 }) (front ++ back)
    Holds-remove n k r = record {
      linked = subst (Linked h') (sym (path_gap l front back g)) (
          Linked-Removed h h' g.before g.left g.right g.after n r
            (subst Distinct (path_gap l front back g) apart)
            (subst (Linked h) (path_with l front back g n) k.linked));
      distinct = apart;
      nonnull = shrunk (Avoids null) (λ p q. Avoids-remove null n p q) k.nonnull;
      sized = (let e = k.sized in let e' = length-insert front n back in omega arith);
    }
      where
        shrunk :
            (P : List ℕ → Type 0)
            → ((p q : List ℕ) → P (p ++ n ∷ q) → P (p ++ q))
            → P (path l (front ++ n ∷ back))
            → P (path l (front ++ back))
        shrunk P f x =
            subst P (ap (λ w. l.dummy_head ∷ w) (sym (append_assoc front back (l.dummy_tail ∷ []))))
              (f (l.dummy_head ∷ front) (back ++ l.dummy_tail ∷ []) (
                subst P
                  (ap (λ w. l.dummy_head ∷ w) (append_assoc front (n ∷ back) (l.dummy_tail ∷ [])))
                  x))

        apart : Distinct (path l (front ++ back))
        apart = shrunk Distinct (λ p q. Distinct-remove n p q) k.distinct

module _ {A : Type 0} (h : ℕ → Node A) (l : LinkedList) (front back : List ℕ)
    (g : Gap l front back) where
  -- The neighbours of a gap point at each other, and are two addresses.
  pub gap-linked :
      Holds h l (front ++ back) → ((h g.left).next ≡ g.right) × ((h g.right).prev ≡ g.left)
  gap-linked k =
      (Linked-back h g.before (g.left ∷ g.right ∷ g.after)
        (subst (Linked h) (path_gap l front back g) k.linked)).0

  -- The neighbours of a node.
  pub gap-around :
      (n : ℕ)
      → Holds h l (front ++ n ∷ back)
      → ((h g.left).next ≡ n)
        × ((h n).prev ≡ g.left)
        × ((h n).next ≡ g.right)
        × ((h g.right).prev ≡ n)
  gap-around n k = (links.0.0, links.0.1, links.1.0.0, links.1.0.1)
    where
      links : Linked h (g.left ∷ n ∷ g.right ∷ g.after)
      links =
          Linked-back h g.before (g.left ∷ n ∷ g.right ∷ g.after)
            (subst (Linked h) (path_with l front back g n) k.linked)

  pub gap_apart : Distinct (path l (front ++ back)) → g.left ≢ g.right
  gap_apart d =
      (Distinct-append_right g.before (g.left ∷ g.right ∷ g.after)
        (subst Distinct (path_gap l front back g) d)).0.0

  pub gap-Avoids : (n : ℕ) → Avoids n (path l (front ++ back)) → (g.left ≢ n) × (g.right ≢ n)
  gap-Avoids n a = ((λ e. both.0 (sym e)), λ e. both.1.0 (sym e))
    where
      both : Avoids n (g.left ∷ g.right ∷ g.after)
      both =
          Avoids-append_right n g.before (g.left ∷ g.right ∷ g.after)
            (subst (Avoids n) (path_gap l front back g) a)
