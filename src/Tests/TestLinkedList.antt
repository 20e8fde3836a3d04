-- ===== src/Tests/TestLinkedList.antt =====
-- Witnesses for a3/linked_list.c.
use comp310_assignments.Prelude.{
  ℕ, ◌-◌, ◌≡◌, ◌==◌, refl, true, false, [], ◌∷◌, ◌++◌, some, arith, get_elem?,
}
use comp310_assignments.A3.LinkedList.{
  Heap, LinkedList, null, list_init, list_clear, set_prev, set_next, set_content, add_tail,
  add_head, pop_head, pop_tail, unlink, get_by_index, remove_elem,
}
use comp310_assignments.A3.LinkedList.Path.{Avoids}
use comp310_assignments.A3.LinkedList.Ends.{path, Holds, contents}
use comp310_assignments.A3.LinkedList.Push.{add_tail_lem, add_head_lem}
use comp310_assignments.A3.LinkedList.Init.{list_init_lem, list_clear_lem}
use comp310_assignments.A3.LinkedList.Pop.{pop_head_lem, pop_tail_lem}
use comp310_assignments.A3.LinkedList.Search.{remove_elem_lem, get_by_index_lem}

-- A list of 10, 20 at the addresses 3 and 4, between the dummies 1 and 2.
abbrev blank : Heap ℕ
blank a = record { content = 0; next = 0; prev = 0 }

abbrev empty_list : LinkedList
empty_list = (list_init 1 2 blank).0

abbrev empty_heap : Heap ℕ
empty_heap = (list_init 1 2 blank).1

abbrev list1 : LinkedList
list1 = (add_tail 3 10 empty_list empty_heap).0

abbrev heap1 : Heap ℕ
heap1 = (add_tail 3 10 empty_list empty_heap).1

abbrev list2 : LinkedList
list2 = (add_tail 4 20 list1 heap1).0

abbrev heap2 : Heap ℕ
heap2 = (add_tail 4 20 list1 heap1).1

list_init_example : Holds empty_heap empty_list [] × ((empty_heap 2).next ≡ null)
list_init_example = list_init_lem 1 2 blank (omega arith) (omega arith) (omega arith)

Holds-empty : Holds empty_heap empty_list []
Holds-empty = (list_init_lem 1 2 blank (omega arith) (omega arith) (omega arith)).0

fresh1 : Avoids 3 (path empty_list [])
unfolding list_init
fresh1 = (omega arith, (omega arith, tt))

Holds-list1 : Holds heap1 list1 (3 ∷ []) × (contents heap1 (3 ∷ []) ≡ 10 ∷ [])
Holds-list1 = add_tail_lem 3 10 empty_list empty_heap [] Holds-empty fresh1 (omega arith)

fresh2 : Avoids 4 (path list1 (3 ∷ []))
unfolding list_init add_tail
fresh2 = (omega arith, (omega arith, (omega arith, tt)))

add_tail_example :
    Holds heap2 list2 (3 ∷ 4 ∷ [])
    × (contents heap2 (3 ∷ 4 ∷ []) ≡ contents heap1 (3 ∷ []) ++ 20 ∷ [])
add_tail_example = add_tail_lem 4 20 list1 heap1 (3 ∷ []) Holds-list1.0 fresh2 (omega arith)

-- The same list, used by the witnesses below.
Holds-list2 : Holds heap2 list2 (3 ∷ 4 ∷ [])
Holds-list2 = (add_tail_lem 4 20 list1 heap1 (3 ∷ []) Holds-list1.0 fresh2 (omega arith)).0

add_head_example :
    Holds (add_head 4 20 list1 heap1).1 (add_head 4 20 list1 heap1).0 (4 ∷ 3 ∷ [])
    × (contents (add_head 4 20 list1 heap1).1 (4 ∷ 3 ∷ []) ≡ 20 ∷ contents heap1 (3 ∷ []))
add_head_example = add_head_lem 4 20 list1 heap1 (3 ∷ []) Holds-list1.0 fresh2 (omega arith)

list_clear_example : Holds (list_clear list2 heap2).1 (list_clear list2 heap2).0 []
list_clear_example = list_clear_lem list2 (3 ∷ 4 ∷ []) heap2 Holds-list2

pop_head_example :
    (pop_head list2 heap2
      ≡ some ((heap2 3).content, record list2 { size = list2.size - 1 }, unlink 3 heap2))
    × Holds (unlink 3 heap2) (record list2 { size = list2.size - 1 }) (4 ∷ [])
    × (contents (unlink 3 heap2) (4 ∷ []) ≡ contents heap2 (4 ∷ []))
pop_head_example = pop_head_lem list2 heap2 3 (4 ∷ []) Holds-list2

pop_tail_example :
    (pop_tail list2 heap2
      ≡ some ((heap2 4).content, record list2 { size = list2.size - 1 }, unlink 4 heap2))
    × Holds (unlink 4 heap2) (record list2 { size = list2.size - 1 }) (3 ∷ [])
    × (contents (unlink 4 heap2) (3 ∷ []) ≡ contents heap2 (3 ∷ []))
pop_tail_example = pop_tail_lem list2 heap2 (3 ∷ []) 4 Holds-list2

first_other : (20 == (heap2 3).content) ≡ false
unfolding list_init add_tail set_prev set_next set_content
first_other = refl

second_equal : (20 == (heap2 4).content) ≡ true
unfolding list_init add_tail set_prev set_next set_content
second_equal = refl

remove_elem_example :
    (remove_elem (λ x y. x == y) 20 list2 heap2
      ≡ some ((heap2 4).content, record list2 { size = list2.size - 1 }, unlink 4 heap2))
    × Holds (unlink 4 heap2) (record list2 { size = list2.size - 1 }) (3 ∷ [])
    × (contents (unlink 4 heap2) (3 ∷ []) ≡ contents heap2 (3 ∷ []))
remove_elem_example =
    remove_elem_lem (λ x y. x == y) heap2 list2 20 (3 ∷ []) 4 [] Holds-list2 (first_other, tt)
      second_equal

get_by_index_example : get_by_index list2 1 heap2 ≡ get_elem? (contents heap2 (3 ∷ 4 ∷ [])) 1
get_by_index_example = get_by_index_lem heap2 list2 (3 ∷ 4 ∷ []) 1 Holds-list2
