-- ===== src/A3/LinkedList/Path.antt =====
-- The addresses of a list from dummy to dummy, linked both ways, and how links survive a change of
-- the heap.
use comp310_assignments.Prelude.{ℕ, ◌≡◌, sym, ◌∙◌, ◌≢◌, List, [], ◌∷◌, ◌++◌, All}
use comp310_assignments.A3.LinkedList.{Node}

-- No address of the list is `a`.
abbrev pub Avoids : ℕ → List ℕ → Type 0
Avoids a [] = Unit
Avoids a (b ∷ bs) = (a ≢ b) × Avoids a bs

abbrev pub Distinct : List ℕ → Type 0
Distinct [] = Unit
Distinct (a ∷ as') = Avoids a as' × Distinct as'

pub Avoids-append_left : (a : ℕ) (p q : List ℕ) → Avoids a (p ++ q) → Avoids a p
Avoids-append_left a [] q h = tt
Avoids-append_left a (x ∷ p) q h = (h.0, Avoids-append_left a p q h.1)

pub Avoids-append_right : (a : ℕ) (p q : List ℕ) → Avoids a (p ++ q) → Avoids a q
Avoids-append_right a [] q h = h
Avoids-append_right a (x ∷ p) q h = Avoids-append_right a p q h.1

-- The address behind `p` is none of `p`.
pub Distinct-front : (p : List ℕ) (u : ℕ) (q : List ℕ) → Distinct (p ++ u ∷ q) → Avoids u p
Distinct-front [] u q d = tt
Distinct-front (x ∷ p) u q d =
    ((λ e. (Avoids-append_right x p (u ∷ q) d.0).0 (sym e)), Distinct-front p u q d.1)

pub Distinct-append_right : (p q : List ℕ) → Distinct (p ++ q) → Distinct q
Distinct-append_right [] q d = d
Distinct-append_right (x ∷ p) q d = Distinct-append_right p q d.1

pub Avoids-insert : (a n : ℕ) (p r : List ℕ) → Avoids a (p ++ r) → a ≢ n → Avoids a (p ++ n ∷ r)
Avoids-insert a n [] r h ne = (ne, h)
Avoids-insert a n (x ∷ p) r h ne = (h.0, Avoids-insert a n p r h.1 ne)

pub Distinct-insert :
    (n : ℕ) (p r : List ℕ) → Distinct (p ++ r) → Avoids n (p ++ r) → Distinct (p ++ n ∷ r)
Distinct-insert n [] r d h = (h, d)
Distinct-insert n (x ∷ p) r d h =
    (Avoids-insert x n p r d.0 (λ e. h.0 (sym e)), Distinct-insert n p r d.1 h.1)

pub Avoids-remove : (a x : ℕ) (p r : List ℕ) → Avoids a (p ++ x ∷ r) → Avoids a (p ++ r)
Avoids-remove a x [] r h = h.1
Avoids-remove a x (y ∷ p) r h = (h.0, Avoids-remove a x p r h.1)

pub Distinct-remove : (x : ℕ) (p r : List ℕ) → Distinct (p ++ x ∷ r) → Distinct (p ++ r)
Distinct-remove x [] r d = d.1
Distinct-remove x (y ∷ p) r d = (Avoids-remove y x p r d.0, Distinct-remove x p r d.1)

pub All-Avoids {κ} :
    {P : ℕ → Type κ} (a b : ℕ) (p : List ℕ)
    → Avoids a p
    → Avoids b p
    → ((c : ℕ) → a ≢ c → b ≢ c → P c)
    → All P p
All-Avoids a b [] ha hb f = tt
All-Avoids a b (x ∷ p) ha hb f = (f x ha.0 hb.0, All-Avoids a b p ha.1 hb.1 f)

module _ {A : Type 0} where
  -- Consecutive addresses point at each other.
  abbrev pub LinkedTo : (ℕ → Node A) → ℕ → List ℕ → Type 0
  LinkedTo h u [] = Unit
  LinkedTo h u (v ∷ r) = ((h u).next ≡ v) × ((h v).prev ≡ u)

  abbrev pub Linked : (ℕ → Node A) → List ℕ → Type 0
  Linked h [] = Unit
  Linked h (u ∷ r) = LinkedTo h u r × Linked h r

  pub Linked-front :
      (h : ℕ → Node A) (p : List ℕ) (u : ℕ) (q : List ℕ)
      → Linked h (p ++ u ∷ q)
      → Linked h (p ++ u ∷ [])
  Linked-front h [] u q k = (tt, tt)
  Linked-front h (x ∷ []) u q k = (k.0, (tt, tt))
  Linked-front h (x ∷ y ∷ p) u q k = (k.0, Linked-front h (y ∷ p) u q k.1)

  pub Linked-back : (h : ℕ → Node A) (p q : List ℕ) → Linked h (p ++ q) → Linked h q
  Linked-back h [] q k = k
  Linked-back h (x ∷ p) q k = Linked-back h p q k.1

  pub Linked-join :
      (h : ℕ → Node A) (p : List ℕ) (u : ℕ) (q : List ℕ)
      → Linked h (p ++ u ∷ [])
      → Linked h (u ∷ q)
      → Linked h (p ++ u ∷ q)
  Linked-join h [] u q k l = l
  Linked-join h (x ∷ []) u q k l = (k.0, l)
  Linked-join h (x ∷ y ∷ p) u q k l = (k.0, Linked-join h (y ∷ p) u q k.1 l)

  abbrev pub SameNext : (ℕ → Node A) → (ℕ → Node A) → ℕ → Type 0
  SameNext h h' a = (h' a).next ≡ (h a).next

  abbrev pub SamePrev : (ℕ → Node A) → (ℕ → Node A) → ℕ → Type 0
  SamePrev h h' a = (h' a).prev ≡ (h a).prev

  -- The links of a list up to `u`, and from `v` on.
  pub Linked-front_same :
      (h h' : ℕ → Node A) (p : List ℕ) (u : ℕ)
      → All (SameNext h h') p
      → All (SamePrev h h') (p ++ u ∷ [])
      → Linked h (p ++ u ∷ [])
      → Linked h' (p ++ u ∷ [])
  Linked-front_same h h' [] u n p k = (tt, tt)
  Linked-front_same h h' (x ∷ []) u n p k = ((n.0 ∙ k.0.0, p.1.0 ∙ k.0.1), (tt, tt))
  Linked-front_same h h' (x ∷ y ∷ r) u n p k =
      ((n.0 ∙ k.0.0, p.1.0 ∙ k.0.1), Linked-front_same h h' (y ∷ r) u n.1 p.1 k.1)

  pub Linked-back_same :
      (h h' : ℕ → Node A) (v : ℕ) (q : List ℕ)
      → All (SameNext h h') (v ∷ q)
      → All (SamePrev h h') q
      → Linked h (v ∷ q)
      → Linked h' (v ∷ q)
  Linked-back_same h h' v [] n p k = (tt, tt)
  Linked-back_same h h' v (w ∷ q) n p k =
      ((n.0 ∙ k.0.0, p.0 ∙ k.0.1), Linked-back_same h h' w q n.1 p.1 k.1)
