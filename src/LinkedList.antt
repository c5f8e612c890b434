-- ===== src/LinkedList.antt =====
-- linked_list/linked_list.c: a singly linked list. A node is reached by one pointer only, so the
-- nodes from `head` on are the list of their elements, and NULL is the empty list; following NULL is
-- a fault. A function that updates `*list` returns the new list beside its `int`.
pub mod Refine
use c_data_structures.Prelude.{
  ℕ, zero, suc, ◌+◌, ◌-◌, ◌%◌, ◌&&◌, Bool, true, false, Option, none, some, List, [], ◌∷◌, ◌++◌,
  ltb, leb, if◌then◌else◌,
}
use c_data_structures.Prelude.Int.{ℤ, success, failure}
use c_data_structures.Prelude.Run.{Run, ok, fault, ◌>>=◌}
use c_data_structures.Buffer.{size_mod}

-- `LinkedList`; an element is `data_size` bytes.
pub record LinkedList {ℓ} (A : Type ℓ) : Type ℓ where
  pub head : List A
  pub data_size : ℕ
  pub length : ℕ

-- What is given back by `free`, in order: a node's data, the node, the list.
pub data Release {ℓ} (A : Type ℓ) : Type ℓ where
  freed_data freed_node : A → Release A
  freed_list : Release A

module _ {ℓ} {A : Type ℓ} where
  -- `granted` answers `malloc`.
  pub ll_create : (granted : Bool) (data_size : ℕ) → Option (LinkedList A)
  ll_create granted data_size =
      if granted then some (record { head = []; data_size = data_size; length = 0 }) else none

  -- The new node at position `index` of the nodes, after `index - 1` steps to its predecessor.
  unfoldable pub link : ℕ → List A → A → Run (List A)
  link zero nodes x = ok (x ∷ nodes)
  link (suc index) [] x = fault
  link (suc index) (y ∷ nodes) x = link index nodes x >>= λ rest. ok (y ∷ rest)

  -- `granted` and `granted_data` answer the two allocations.
  unfoldable pub ll_insert_at :
      (granted granted_data : Bool) → LinkedList A → ℕ → A → Run (ℤ × LinkedList A)
  ll_insert_at granted granted_data list index x =
      if ltb list.length index
      then ok (failure, list)
      else if granted && granted_data
      then link index list.head x >>= (λ nodes.
        ok (success, record list { head = nodes; length = (list.length + 1) % size_mod }))
      else ok (failure, list)

  pub ll_append : (granted granted_data : Bool) → LinkedList A → A → Run (ℤ × LinkedList A)
  ll_append granted granted_data list x = ll_insert_at granted granted_data list list.length x

  pub ll_prepend : (granted granted_data : Bool) → LinkedList A → A → Run (ℤ × LinkedList A)
  ll_prepend granted granted_data list x = ll_insert_at granted granted_data list 0 x

  -- The node at position `index` taken out of the nodes.
  unfoldable pub unlink : ℕ → List A → Run (A × List A)
  unlink index [] = fault
  unlink zero (y ∷ nodes) = ok (y, nodes)
  unlink (suc index) (y ∷ nodes) = unlink index nodes >>= λ (x, rest). ok (x, y ∷ rest)

  -- `wanted` says that `out_data` is not NULL.
  unfoldable pub ll_remove_at :
      (wanted : Bool) → LinkedList A → ℕ → Run (ℤ × Option A × LinkedList A × List (Release A))
  ll_remove_at wanted list index =
      if leb list.length index
      then ok (failure, none, list, [])
      else unlink index list.head >>= (λ (x, nodes). ok (
        success,
        (if wanted then some x else none),
        record list { head = nodes; length = list.length - 1 },
        freed_data x ∷ freed_node x ∷ [],
      ))

  -- `index` steps from the node.
  unfoldable pub walk : ℕ → List A → Run A
  walk index [] = fault
  walk zero (y ∷ nodes) = ok y
  walk (suc index) (y ∷ nodes) = walk index nodes

  unfoldable pub ll_get_at : LinkedList A → ℕ → Run (ℤ × Option A)
  ll_get_at list index =
      if leb list.length index
      then ok (failure, none)
      else walk index list.head >>= (λ x. ok (success, some x))

  -- `none` is a `list` that is NULL.
  pub ll_length : Option (LinkedList A) → ℕ
  ll_length none = 0
  ll_length (some list) = list.length

  -- The loop of `ll_clear`.
  pub free_nodes : List A → List (Release A)
  free_nodes [] = []
  free_nodes (x ∷ nodes) = freed_data x ∷ freed_node x ∷ free_nodes nodes

  -- `none` is a `list` that is NULL.
  pub ll_clear : Option (LinkedList A) → ℤ × Option (LinkedList A) × List (Release A)
  ll_clear none = (failure, none, [])
  ll_clear (some list) =
      (success, some (record list { head = []; length = 0 }), free_nodes list.head)

  pub ll_destroy : Option (LinkedList A) → List (Release A)
  ll_destroy none = []
  ll_destroy (some list) = free_nodes list.head ++ (freed_list ∷ [])
