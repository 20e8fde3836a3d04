-- ===== src/A3/LinkedList.antt =====
-- a3/linked_list.c: a doubly linked list between two dummy nodes, on a heap of nodes.
-- An address is a number, and NULL is 0. `malloc` gives an address as the argument `fresh`; what
-- is freed is nowhere used again, so nothing is freed. A `struct LINKED_LIST` is a record.
-- `none` is a fault: a read through NULL, `exit(99)`, or a loop that is out of fuel.
pub mod Path
pub mod Edit
pub mod Ends
pub mod Init
pub mod Push
pub mod Pop
pub mod Search
use comp310_assignments.Prelude.{
  ℕ, zero, suc, ◌+◌, ◌-◌, Bool, true, false, Option, none, some, ltb, leb, ◌==◌, if◌then◌else◌,
}

-- `NODE`
pub record Node (A : Type 0) : Type 0 where
  pub content : A
  pub next : ℕ
  pub prev : ℕ

-- `LINKED_LIST`, less the function `equal`, which the searches take as an argument.
pub record LinkedList : Type 0 where
  pub size : ℕ
  pub dummy_head : ℕ
  pub dummy_tail : ℕ

abbrev pub null : ℕ
null = 0

-- The nodes by their address.
abbrev pub Heap : Type 0 → Type 0
Heap A = ℕ → Node A

module _ {A : Type 0} where
  abbrev pub set_node : ℕ → Node A → Heap A → Heap A
  set_node a n h b = if a == b then n else h b

  -- `a->data = x`, `a->next = p` and `a->prev = p`
  unfoldable pub set_content : ℕ → A → Heap A → Heap A
  set_content a x h = set_node a (record (h a) { content = x }) h

  unfoldable pub set_next : ℕ → ℕ → Heap A → Heap A
  set_next a p h = set_node a (record (h a) { next = p }) h

  unfoldable pub set_prev : ℕ → ℕ → Heap A → Heap A
  set_prev a p h = set_node a (record (h a) { prev = p }) h

  -- `(*elem)->next != NULL`
  unfoldable pub has_next : ℕ → Heap A → Bool
  has_next elem h = if (h elem).next == null then false else true

  -- The node's data, and the node to go on with.
  unfoldable pub next : ℕ → Heap A → A × ℕ
  next elem h = ((h elem).content, (h elem).next)

  unfoldable pub swap : (node1 node2 : ℕ) → Heap A → Heap A
  swap node1 node2 h =
      let tmp = (h node1).content in set_content node2 tmp (set_content node1 (h node2).content h)

  -- `list_clear`
  unfoldable pub list_clear : LinkedList → Heap A → LinkedList × Heap A
  list_clear l h = (
    record l { size = 0 },
    set_prev l.dummy_tail l.dummy_head (set_next l.dummy_head l.dummy_tail h),
  )

  -- `dummy_tail->next = NULL` comes first in the source, then the links between the dummies.
  unfoldable pub list_init : (head tail : ℕ) → Heap A → LinkedList × Heap A
  list_init head tail h = (
    record { size = 0; dummy_head = head; dummy_tail = tail },
    set_prev tail head (set_next head tail (set_next tail null h)),
  )

  unfoldable pub add_tail : (fresh : ℕ) → A → LinkedList → Heap A → LinkedList × Heap A
  add_tail fresh x l h =
      let old_tail = (h (l.dummy_tail)).prev in
      (
        record l { size = l.size + 1 },
        set_prev l.dummy_tail fresh (
            set_next fresh l.dummy_tail
              (set_prev fresh old_tail (set_next old_tail fresh (set_content fresh x h)))),
      )

  unfoldable pub add_head : (fresh : ℕ) → A → LinkedList → Heap A → LinkedList × Heap A
  add_head fresh x l h =
      let old_head = (h (l.dummy_head)).next in
      (
        record l { size = l.size + 1 },
        set_next l.dummy_head fresh (
            set_prev fresh l.dummy_head
              (set_next fresh old_head (set_prev old_head fresh (set_content fresh x h)))),
      )

  -- `p->prev->next = p->next; p->next->prev = p->prev;`
  unfoldable pub unlink : ℕ → Heap A → Heap A
  unlink p h = let h' = set_next (h p).prev (h p).next h in set_prev (h' p).next (h' p).prev h'

  unfoldable pub pop_head : LinkedList → Heap A → Option (A × LinkedList × Heap A)
  pop_head l h =
      if leb l.size 0
      then none
      else (let p = (h (l.dummy_head)).next in
          some ((h p).content, record l { size = l.size - 1 }, unlink p h))

  unfoldable pub pop_tail : LinkedList → Heap A → Option (A × LinkedList × Heap A)
  pop_tail l h =
      if leb l.size 0
      then none
      else (let p = (h (l.dummy_tail)).prev in
          some ((h p).content, record l { size = l.size - 1 }, unlink p h))

  -- `for (i = 0; i < index; i++) curr = curr->next;`
  unfoldable pub walk : (rounds curr : ℕ) → Heap A → ℕ
  walk zero curr h = curr
  walk (suc n) curr h = walk n (h curr).next h

  -- The node's address, or NULL where the index is out of range. An index is not negative.
  unfoldable pub get_node_by_index : LinkedList → ℕ → Heap A → ℕ
  get_node_by_index l index h =
      if leb l.size index then null else walk index (h (l.dummy_head)).next h

  unfoldable pub get_by_index : LinkedList → ℕ → Heap A → Option A
  get_by_index l index h =
      let p = get_node_by_index l index h in if p == null then none else some (h p).content

  module _ (equal : A → A → Bool) where
    -- `while (curr && !list->equal(target_data, curr->data)) curr = curr->next;` on fuel
    unfoldable pub search_from : (fuel : ℕ) → A → (curr : ℕ) → Heap A → Option ℕ
    search_from zero x curr h = none
    search_from (suc f) x curr h =
        let rest = search_from f x (h curr).next h in
        if curr == null then some null else if equal x (h curr).content then some curr else rest

    -- One round for each node, one for the dummy tail and one for NULL are enough fuel.
    unfoldable pub get_node_by_value : LinkedList → A → Heap A → Option ℕ
    get_node_by_value l x h = search_from (l.size + 2) x (h (l.dummy_head)).next h

    unfoldable pub get_by_value : LinkedList → A → Heap A → Option A
    get_by_value l x h = elim (get_node_by_value l x h) [
      | none ↦ none
      | some p ↦ if p == null then none else some (h p).content
    ]

    unfoldable pub remove_elem : A → LinkedList → Heap A → Option (A × LinkedList × Heap A)
    remove_elem x l h = elim (get_node_by_value l x h) [
      | none ↦ none
      | some p ↦
          if p == null
          then none
          else some ((h p).content, record l { size = l.size - 1 }, unlink p h)
    ]
