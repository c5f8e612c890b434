-- ===== src/Tests/Lists.antt =====
-- Concrete linked lists.
use c_data_structures.Prelude.{
  ℕ, zero, suc, ◌≡◌, ◌≢◌, refl, ◌==◌, true, none, some, List, [], ◌∷◌, get_elem?, arith,
  if◌then◌else◌,
}
use c_data_structures.Prelude.Int.{success}
use c_data_structures.Prelude.Run.{ok}
use c_data_structures.LinkedList.{LinkedList, freed_data, freed_node, ll_insert_at, ll_remove_at}
use c_data_structures.LinkedList.Refine.{IsList, ll_insert_at-splices, ll_remove_at-cuts}
use c_data_structures.DoublyLinkedList.{
  DoublyLinkedList, Heap, dll_get_at, dll_insert_at, dll_remove_at, dll_clear,
}
use c_data_structures.DoublyLinkedList.Linked.{IsLinked, address, before}
use c_data_structures.DoublyLinkedList.Access.{dll_get_at-elem}
use c_data_structures.DoublyLinkedList.Insert.{dll_insert_at-splices}
use c_data_structures.DoublyLinkedList.Remove.{dll_remove_at-cuts}
use c_data_structures.DoublyLinkedList.Clear.{dll_clear-frees}

abbrev three : LinkedList ℕ
three = record { head = 10 ∷ 20 ∷ 30 ∷ []; data_size = 4; length = 3 }

ll_insert_at-splices_example :
    (list : LinkedList ℕ) × (ll_insert_at true true three 1 15 ≡ ok (success, list))
    × (list.head ≡ 10 ∷ 15 ∷ 20 ∷ 30 ∷ [])
    × IsList list
ll_insert_at-splices_example = ll_insert_at-splices three 1 15 refl (omega arith) (omega arith)

ll_remove_at-cuts_example :
    (x : ℕ) × (list : LinkedList ℕ) × (some 20 ≡ some x)
    × (ll_remove_at true three 1 ≡ ok (success, some x, list, freed_data x ∷ freed_node x ∷ []))
    × (list.head ≡ 10 ∷ 30 ∷ [])
    × IsList list
ll_remove_at-cuts_example = ll_remove_at-cuts true three 1 refl (omega arith)

-- Two nodes, at the addresses 1 and 2.
abbrev pair_heap : Heap ℕ
pair_heap a =
    if a == 1
    then some (record { item = 10; next = some 2; prev = none })
    else if a == 2
    then some (record { item = 20; next = none; prev = some 1 })
    else none

abbrev pair : DoublyLinkedList
pair = record { head = some 1; tail = some 2; data_size = 4; length = 2 }

abbrev pair_nodes : List (ℕ × ℕ)
pair_nodes = (1, 10) ∷ (2, 20) ∷ []

pair-linked :
    (i a x : ℕ)
    → get_elem? pair_nodes i ≡ some (a, x)
    → pair_heap a
      ≡ some (record { item = x; next = address pair_nodes (suc i); prev = before pair_nodes i })
pair-linked zero a x e = ground arith
pair-linked (suc zero) a x e = ground arith
pair-linked (suc (suc i)) a x e = absurd (ground arith)

pair-IsLinked : IsLinked pair_heap pair pair_nodes
pair-IsLinked = record { counted = refl; first = refl; last = refl; linked = pair-linked }

dll_get_at-elem_example :
    (a x : ℕ) × (get_elem? pair_nodes 1 ≡ some (a, x))
    × (dll_get_at pair_heap pair 1 ≡ ok (success, some x))
dll_get_at-elem_example = dll_get_at-elem pair_heap pair pair_nodes 1 pair-IsLinked (omega arith)

dll_insert_at-splices_example :
    (heap : Heap ℕ) × (list : DoublyLinkedList) × (dll_insert_at (some 3) true pair_heap pair 1 5
      ≡ ok (success, heap, list))
    × IsLinked heap list ((1, 10) ∷ (3, 5) ∷ (2, 20) ∷ [])
dll_insert_at-splices_example =
    dll_insert_at-splices pair_heap pair pair_nodes 1 3 5 pair-IsLinked refl (omega arith)
      (omega arith)

dll_remove_at-cuts_example :
    (a x : ℕ) × (heap : Heap ℕ) × (list : DoublyLinkedList) × (get_elem? pair_nodes 1 ≡ some (a, x))
    × (dll_remove_at true pair_heap pair 1 ≡ ok (success, some x, heap, list))
    × (heap a ≡ none)
    × IsLinked heap list ((1, 10) ∷ [])
dll_remove_at-cuts_example =
    dll_remove_at-cuts true pair_heap pair pair_nodes 1 pair-IsLinked (omega arith)

dll_clear-frees_example :
    (heap : Heap ℕ) × (dll_clear 2 pair_heap (some pair)
      ≡ ok (success, heap, some (record { head = none; tail = none; data_size = 4; length = 0 })))
    × IsLinked heap (record { head = none; tail = none; data_size = 4; length = 0 }) []
    × ((j a x : ℕ) → get_elem? pair_nodes j ≡ some (a, x) → heap a ≡ none)
    × ((a : ℕ) → ((j x : ℕ) → get_elem? pair_nodes j ≢ some (a, x)) → heap a ≡ pair_heap a)
dll_clear-frees_example = dll_clear-frees pair_heap pair pair_nodes pair-IsLinked
