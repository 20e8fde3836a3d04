-- ===== src/A3/LinkedList/Init.antt =====
-- list_init and list_clear: a list without nodes.
use comp310_assignments.Prelude.{ℕ, ◌≡◌, ◌≢◌, List, [], ◌∷◌, refl, arith}
use comp310_assignments.A3.LinkedList.{
  Heap, LinkedList, null, list_init, list_clear, set_next, set_prev,
}
use comp310_assignments.A3.LinkedList.Path.{Avoids-append_right}
use comp310_assignments.A3.LinkedList.Ends.{Holds}

-- From two addresses that are different and not NULL, `list_init` gives a well-formed list without
-- nodes, behind whose dummy tail comes NULL.
pub list_init_lem :
    {A : Type 0}
    → (head tail : ℕ) → (h : Heap A) → head ≢ tail
    → null ≢ head
    → null ≢ tail
    → Holds (list_init head tail h).1 (list_init head tail h).0 []
      × (((list_init head tail h).1 tail).next ≡ null)
unfolding list_init set_next set_prev
list_init_lem head tail h ne nh nt = (
  record {
    linked = ((ground arith, ground arith), (tt, tt));
    distinct = ((ne, tt), (tt, tt));
    nonnull = (nh, (nt, tt));
    sized = refl;
  },
  ground arith,
)

-- `list_clear` makes a well-formed list one without nodes.
pub list_clear_lem :
    {A : Type 0}
    → (l : LinkedList) → (ps : List ℕ) → (h : Heap A) → Holds h l ps
    → Holds (list_clear l h).1 (list_clear l h).0 []
unfolding list_clear set_next set_prev
list_clear_lem l ps h k = record {
  linked = ((ground arith, ground arith), (tt, tt));
  distinct = ((apart, tt), (tt, tt));
  nonnull = (k.nonnull.0, (Avoids-append_right null ps (l.dummy_tail ∷ []) k.nonnull.1));
  sized = refl;
}
  where
    apart : l.dummy_head ≢ l.dummy_tail
    apart = (Avoids-append_right l.dummy_head ps (l.dummy_tail ∷ []) k.distinct.0).0
