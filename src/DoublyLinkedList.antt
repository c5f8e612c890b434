-- ===== src/DoublyLinkedList.antt =====
-- doubly_linked_list/doubly_linked_list.c: nodes in a heap, linked in both directions. A heap maps
-- an address to the node that lives there, if any; NULL is `none`, and following NULL or the address
-- of no node is a fault. A function that updates `*list` returns the new heap and list beside its
-- `int`.
pub mod Linked
pub mod Access
pub mod Prepend
pub mod Append
pub mod Clear
pub mod Places
pub mod Relink
pub mod Unlink
pub mod Remove
pub mod Splice
pub mod Insert
use c_data_structures.Prelude.{
  ℕ, zero, suc, ◌+◌, ◌-◌, ◌/◌, ◌%◌, Bool, true, false, Option, none, some, ◌==◌, ltb, leb,
  if◌then◌else◌,
}
use c_data_structures.Prelude.Int.{ℤ, success, failure}
use c_data_structures.Prelude.Run.{Run, ok, fault, out_of_fuel, ◌>>=◌, deref}
use c_data_structures.Buffer.{size_mod}

-- `DListNode`.
pub record DListNode {ℓ} (A : Type ℓ) : Type ℓ where
  pub item : A
  pub next : Option ℕ
  pub prev : Option ℕ

-- `DoublyLinkedList`; an element is `data_size` bytes.
pub record DoublyLinkedList : Type 0 where
  pub head : Option ℕ
  pub tail : Option ℕ
  pub data_size : ℕ
  pub length : ℕ

abbrev pub Heap {ℓ} : Type ℓ → Type ℓ
Heap A = ℕ → Option (DListNode A)

-- `granted` answers `malloc`.
pub dll_create : (granted : Bool) (data_size : ℕ) → Option DoublyLinkedList
dll_create granted data_size =
    if granted
    then some (record { head = none; tail = none; data_size = data_size; length = 0 })
    else none

-- `none` is a `list` that is NULL.
pub dll_length : Option DoublyLinkedList → ℕ
dll_length none = 0
dll_length (some list) = list.length

module _ {ℓ} {A : Type ℓ} where
  -- The heap with another content at one address.
  abbrev pub put : Heap A → ℕ → Option (DListNode A) → Heap A
  put heap a n = λ b. if b == a then n else heap b

  -- The node that a pointer points to.
  abbrev pub node_at : Heap A → Option ℕ → Run (DListNode A)
  node_at heap p = deref p >>= λ a. deref (heap a)

  -- `p->next = q` and `p->prev = q`.
  unfoldable pub set_next : Heap A → Option ℕ → Option ℕ → Run (Heap A)
  set_next heap p q =
      deref p >>= λ a. deref (heap a) >>= λ n. ok (put heap a (some (record n { next = q })))

  unfoldable pub set_prev : Heap A → Option ℕ → Option ℕ → Run (Heap A)
  set_prev heap p q =
      deref p >>= λ a. deref (heap a) >>= λ n. ok (put heap a (some (record n { prev = q })))

  -- `steps` times `p = p->next`, and `steps` times `p = p->prev`.
  unfoldable pub walk_next : (steps : ℕ) → Heap A → Option ℕ → Run (Option ℕ)
  walk_next zero heap p = ok p
  walk_next (suc steps) heap p = node_at heap p >>= λ n. walk_next steps heap n.next

  unfoldable pub walk_prev : (steps : ℕ) → Heap A → Option ℕ → Run (Option ℕ)
  walk_prev zero heap p = ok p
  walk_prev (suc steps) heap p = node_at heap p >>= λ n. walk_prev steps heap n.prev

  -- `at` is the address that the first `malloc` returns; `granted_data` answers the second, and the
  -- node is given back where that one fails.
  unfoldable pub create_node :
      (at : Option ℕ) (granted_data : Bool) → Heap A → A → Option (ℕ × Heap A)
  create_node none granted_data heap x = none
  create_node (some a) granted_data heap x =
      if granted_data
      then some (a, put heap a (some (record { item = x; next = none; prev = none })))
      else none

  -- The links of a new node at address `a`.
  unfoldable pub link_node :
      Heap A → DoublyLinkedList → (index a : ℕ) → Run (Heap A × DoublyLinkedList)
  link_node heap list index a =
      if list.length == 0
      then ok (heap, record list { head = some a; tail = some a })
      else if index == 0
      then (do
        heap1 ← set_next heap (some a) list.head
        heap2 ← set_prev heap1 list.head (some a)
        ok (heap2, record list { head = some a }))
      else if index == list.length
      then (do
        heap1 ← set_prev heap (some a) list.tail
        heap2 ← set_next heap1 list.tail (some a)
        ok (heap2, record list { tail = some a }))
      else (do
        cur ← walk_next index heap list.head
        heap1 ← set_next heap (some a) cur
        n ← node_at heap1 cur
        heap2 ← set_prev heap1 (some a) n.prev
        m ← node_at heap2 cur
        heap3 ← set_next heap2 m.prev (some a)
        heap4 ← set_prev heap3 cur (some a)
        ok (heap4, list))

  unfoldable pub dll_insert_at :
      (at : Option ℕ) (granted_data : Bool)
      → Heap A
      → DoublyLinkedList
      → ℕ
      → A
      → Run (ℤ × Heap A × DoublyLinkedList)
  dll_insert_at at granted_data heap list index x =
      if ltb list.length index
      then ok (failure, heap, list)
      else elim (create_node at granted_data heap x) [
        | none ↦ ok (failure, heap, list)
        | some (a, heap1) ↦ (do
          (heap2, list2) ← link_node heap1 list index a
          ok (success, heap2, record list2 { length = (list2.length + 1) % size_mod }))
      ]

  unfoldable pub dll_append :
      (at : Option ℕ) (granted_data : Bool)
      → Heap A
      → DoublyLinkedList
      → A
      → Run (ℤ × Heap A × DoublyLinkedList)
  dll_append at granted_data heap list x = dll_insert_at at granted_data heap list list.length x

  unfoldable pub dll_prepend :
      (at : Option ℕ) (granted_data : Bool)
      → Heap A
      → DoublyLinkedList
      → A
      → Run (ℤ × Heap A × DoublyLinkedList)
  dll_prepend at granted_data heap list x = dll_insert_at at granted_data heap list 0 x

  -- The node to remove, and the heap and the list without its links.
  unfoldable pub unlink_node :
      Heap A → DoublyLinkedList → (index : ℕ) → Run (Option ℕ × Heap A × DoublyLinkedList)
  unlink_node heap list index =
      if index == 0
      then (do
        n ← node_at heap list.head
        elim n.next [
          | none ↦ ok (list.head, heap, record list { head = none; tail = none })
          | some b ↦ (do
            heap1 ← set_prev heap (some b) none
            ok (list.head, heap1, record list { head = some b }))
        ])
      else if index == list.length - 1
      then (do
        n ← node_at heap list.tail
        elim n.prev [
          | none ↦ ok (list.tail, heap, record list { tail = none; head = none })
          | some b ↦ (do
            heap1 ← set_next heap (some b) none
            ok (list.tail, heap1, record list { tail = some b }))
        ])
      else (do
        p ← walk_next index heap list.head
        n ← node_at heap p
        heap1 ← set_next heap n.prev n.next
        m ← node_at heap1 p
        heap2 ← set_prev heap1 m.next m.prev
        ok (p, heap2, list))

  -- `wanted` says that `out_data` is not NULL; the node is given back to the heap.
  unfoldable pub dll_remove_at :
      (wanted : Bool)
      → Heap A
      → DoublyLinkedList
      → ℕ
      → Run (ℤ × Option A × Heap A × DoublyLinkedList)
  dll_remove_at wanted heap list index =
      if leb list.length index then ok (failure, none, heap, list) else (do
        (p, heap1, list1) ← unlink_node heap list index
        a ← deref p
        n ← deref (heap1 a)
        ok (
          success,
          (if wanted then some n.item else none),
          put heap1 a none,
          record list1 { length = list1.length - 1 },
        ))

  unfoldable pub dll_get_at : Heap A → DoublyLinkedList → ℕ → Run (ℤ × Option A)
  dll_get_at heap list index =
      if leb list.length index
      then ok (failure, none)
      else if ltb index (list.length / 2)
      then (do p ← walk_next index heap list.head; n ← node_at heap p; ok (success, some n.item))
      else (do
        p ← walk_prev (list.length - 1 - index) heap list.tail
        n ← node_at heap p
        ok (success, some n.item))

  -- The loop of `dll_clear`, on fuel: each node is given back after its `next` is read.
  unfoldable pub free_nodes : (fuel : ℕ) → Heap A → Option ℕ → Run (Heap A)
  free_nodes zero heap none = ok heap
  free_nodes zero heap (some a) = out_of_fuel
  free_nodes (suc fuel) heap none = ok heap
  free_nodes (suc fuel) heap (some a) =
      deref (heap a) >>= λ n. free_nodes fuel (put heap a none) n.next

  -- `none` is a `list` that is NULL.
  unfoldable pub dll_clear :
      (fuel : ℕ) → Heap A → Option DoublyLinkedList → Run (ℤ × Heap A × Option DoublyLinkedList)
  dll_clear fuel heap none = ok (failure, heap, none)
  dll_clear fuel heap (some list) = free_nodes fuel heap list.head >>= λ heap1.
      ok (success, heap1, some (record list { head = none; tail = none; length = 0 }))

  -- `none` is a `list` that is NULL.
  unfoldable pub dll_destroy : (fuel : ℕ) → Heap A → Option DoublyLinkedList → Run (Heap A)
  dll_destroy fuel heap none = ok heap
  dll_destroy fuel heap (some list) =
      dll_clear fuel heap (some list) >>= λ (r, heap1, list1). ok heap1
