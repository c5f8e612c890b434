-- ===== src/BinaryTree.antt =====
-- binary_tree/binary_tree.c: an unbalanced search tree whose nodes own their data and children.
-- A node is reached by one pointer only, so a `TreeNode **` is the subtree that it points to, and
-- a function that updates `*node` returns the new subtree beside its `int`.
pub mod Order
pub mod Search
pub mod Remove
pub mod Traverse
use c_data_structures.Prelude.{
  ℕ, ◌+◌, ◌%◌, Bool, true, false, ◌&&◌, not, Option, none, some, List, [], ◌∷◌, ◌++◌, if◌then◌else◌,
}
use c_data_structures.Prelude.Int.{ℤ, pos, negsuc, success, failure, is_zero, is_negative}
use c_data_structures.Buffer.{size_mod}

-- `TreeNode *`; `leaf` is NULL.
pub data Tree {ℓ} (A : Type ℓ) : Type ℓ where
  leaf : Tree A
  node : (left : Tree A) (item : A) (right : Tree A) → Tree A

-- `BinaryTree`; the `destroy` callback is represented by its presence.
pub record BinaryTree {ℓ} (A : Type ℓ) : Type ℓ where
  pub root : Tree A
  pub data_size : ℕ
  pub compare : A → A → ℤ
  pub destroy : Bool

-- What `free` and the `destroy` callback are called on, in order.
pub data Release {ℓ} (A : Type ℓ) : Type ℓ where
  destroyed : A → Release A
  freed_data : A → Release A
  freed_node : A → Release A
  freed_tree : Release A

module _ {ℓ} {A : Type ℓ} where
  -- `granted` answers the two allocations.
  pub create_node : (granted granted_data : Bool) → A → Tree A
  create_node granted granted_data x = if granted && granted_data then node leaf x leaf else leaf

  pub btree_create : Bool → ℕ → (A → A → ℤ) → Bool → Option (BinaryTree A)
  btree_create granted data_size compare destroy =
      if granted
      then some
          (record { root = leaf; data_size = data_size; compare = compare; destroy = destroy })
      else none

  pub destroy_node : Tree A → List (Release A)
  destroy_node leaf = []
  destroy_node (node l x r) =
      destroy_node l ++ (destroy_node r ++ (destroyed x ∷ freed_data x ∷ freed_node x ∷ []))

  pub free_node : Tree A → List (Release A)
  free_node leaf = []
  free_node (node l x r) = free_node l ++ (free_node r ++ (freed_data x ∷ freed_node x ∷ []))

  pub is_leaf : Tree A → Bool
  is_leaf leaf = true
  is_leaf (node l x r) = false

  pub btree_destroy : Option (BinaryTree A) → List (Release A)
  btree_destroy none = []
  btree_destroy (some t) =
      (if t.destroy && not (is_leaf t.root) then destroy_node t.root else free_node t.root)
      ++ (freed_tree ∷ [])

  -- The item at the end of the `left` pointers.
  pub leftmost : Tree A → A → A
  leftmost leaf x = x
  leftmost (node l y r) x = leftmost l y

  pub find_min : Tree A → Option A
  find_min leaf = none
  find_min (node l x r) = some (leftmost l x)

  -- The node that holds the key, taken out: `again` is the recursive call of `remove_node` on the
  -- right subtree, for the key of the successor that has replaced the item.
  pub unlink : Tree A → Tree A → (A → ℤ × Tree A) → ℤ × Tree A
  unlink leaf leaf again = (success, leaf)
  unlink leaf (node rl z rr) again = (success, node rl z rr)
  unlink (node ll w lr) leaf again = (success, node ll w lr)
  unlink (node ll w lr) (node rl z rr) again =
      let successor = leftmost rl z in
      let removed = again successor in (removed.0, node (node ll w lr) successor removed.1)

  module _ (compare : A → A → ℤ) where
    pub insert_node : (granted granted_data : Bool) → A → Tree A → ℤ × Tree A
    insert_node granted granted_data x leaf =
        let made = create_node granted granted_data x in
        (if is_leaf made then failure else success, made)
    insert_node granted granted_data x (node l y r) =
        let cmp = compare x y in
        let in_left = insert_node granted granted_data x l in
        let in_right = insert_node granted granted_data x r in
        if is_negative cmp
        then (in_left.0, node in_left.1 y r)
        else if is_zero cmp
        then (success, node l y r)
        else (in_right.0, node l y in_right.1)

    -- The second component is what goes through `out_data`.
    unfoldable pub search_node : A → Tree A → ℤ × Option A
    search_node key leaf = (failure, none)
    search_node key (node l y r) =
        let cmp = compare key y in
        let in_left = search_node key l in
        let in_right = search_node key r in
        if is_zero cmp then (success, some y) else if is_negative cmp then in_left else in_right

    pub remove_node : A → Tree A → ℤ × Tree A
    remove_node key leaf = (failure, leaf)
    remove_node key (node l y r) =
        let cmp = compare key y in
        let in_left = remove_node key l in
        let in_right = remove_node key r in
        let here = unlink l r (λ m. remove_node m r) in
        if is_negative cmp
        then (in_left.0, node in_left.1 y r)
        else if is_zero cmp
        then here
        else (in_right.0, node l y in_right.1)

  -- The traversals call `visit` on the items in this order.
  pub inorder : Tree A → List A
  inorder leaf = []
  inorder (node l x r) = inorder l ++ (x ∷ inorder r)

  pub preorder : Tree A → List A
  preorder leaf = []
  preorder (node l x r) = x ∷ (preorder l ++ preorder r)

  pub postorder : Tree A → List A
  postorder leaf = []
  postorder (node l x r) = postorder l ++ (postorder r ++ (x ∷ []))

  pub size_node : Tree A → ℕ
  size_node leaf = 0
  size_node (node l x r) = (1 + size_node l + size_node r) % size_mod

  pub btree_insert :
      (granted granted_data : Bool) → Option (BinaryTree A) → Option A → ℤ × Option (BinaryTree A)
  btree_insert granted granted_data none x = (failure, none)
  btree_insert granted granted_data (some t) none = (failure, some t)
  btree_insert granted granted_data (some t) (some x) =
      let done = insert_node t.compare granted granted_data x t.root in
      (done.0, some (record t { root = done.1 }))

  pub btree_search : Option (BinaryTree A) → A → ℤ × Option A
  btree_search none key = (failure, none)
  btree_search (some t) key = search_node t.compare key t.root

  pub btree_remove : Option (BinaryTree A) → A → ℤ × Option (BinaryTree A)
  btree_remove none key = (failure, none)
  btree_remove (some t) key =
      let done = remove_node t.compare key t.root in (done.0, some (record t { root = done.1 }))

  pub btree_inorder : Option (BinaryTree A) → List A
  btree_inorder none = []
  btree_inorder (some t) = inorder t.root

  pub btree_preorder : Option (BinaryTree A) → List A
  btree_preorder none = []
  btree_preorder (some t) = preorder t.root

  pub btree_postorder : Option (BinaryTree A) → List A
  btree_postorder none = []
  btree_postorder (some t) = postorder t.root

  pub btree_size : Option (BinaryTree A) → ℕ
  btree_size none = 0
  btree_size (some t) = size_node t.root

  pub btree_is_empty : Option (BinaryTree A) → Bool
  btree_is_empty none = true
  btree_is_empty (some t) = is_leaf t.root
