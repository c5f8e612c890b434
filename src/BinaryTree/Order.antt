-- ===== src/BinaryTree/Order.antt =====
-- What binary_tree/binary_tree.c asks of its `compare` callback, and the trees that it keeps.
use c_data_structures.Prelude.{◌≡◌, refl, Bool, true, false, arith, if_intro}
use c_data_structures.Prelude.Int.{is_negative, ℤ, is_zero}
use c_data_structures.BinaryTree.{
  Tree, leaf, node, leftmost, unlink, create_node, insert_node, remove_node,
}

pub zero-not_negative : (n : ℤ) → is_zero n ≡ true → is_negative n ≡ false
zero-not_negative n e = ground arith

module _ {ℓ} {A : Type ℓ} where
  -- The items `x` and `y` compare alike to `z`: below, equal or above.
  abbrev pub AlikeTo : (A → A → ℤ) → (x y z : A) → Type 0
  AlikeTo compare x y z =
      (is_negative (compare x z) ≡ is_negative (compare y z))
      × (is_zero (compare x z) ≡ is_zero (compare y z))

  -- `compare` orders the items, up to items that it takes for equal.
  pub record IsOrder (compare : A → A → ℤ) : Type ℓ where
    pub self : (x : A) → is_zero (compare x x) ≡ true
    pub flip :
        (x y : A)
        → is_negative (compare x y) ≡ true
        → (is_negative (compare y x) ≡ false) × (is_zero (compare y x) ≡ false)
    pub flip_back :
        (x y : A)
        → is_negative (compare x y) ≡ false
        → is_zero (compare x y) ≡ false
        → is_negative (compare y x) ≡ true
    pub trans :
        (x y z : A)
        → is_negative (compare x y) ≡ true
        → is_negative (compare y z) ≡ true
        → is_negative (compare x z) ≡ true
    pub same : (x y z : A) → is_zero (compare x y) ≡ true → AlikeTo compare x y z

  -- `P` holds of every item of the tree.
  abbrev pub All {κ} : (A → Type κ) → Tree A → Type κ
  All P leaf = Unit
  All P (node l x r) = All P l × P x × All P r

  pub All-leftmost {κ} : (P : A → Type κ) (l : Tree A) (x : A) → All P l → P x → P (leftmost l x)
  unfolding leftmost
  All-leftmost P leaf x h p = p
  All-leftmost P (node l y r) x h p = All-leftmost P l y h.0 h.1

  pub All-imp {κ} : {P Q : A → Type κ} (t : Tree A) → ((x : A) → P x → Q x) → All P t → All Q t
  All-imp leaf f h = tt
  All-imp (node l x r) f h = (All-imp l f h.0, f x h.1, All-imp r f h.2)

  module _ (compare : A → A → ℤ) where
    abbrev pub Lt : A → A → Type 0
    Lt x y = is_negative (compare x y) ≡ true

    -- Every item comes after those of its left subtree and before those of its right subtree.
    abbrev pub IsSearchTree : Tree A → Type 0
    IsSearchTree leaf = Unit
    IsSearchTree (node l x r) = All (λ z. Lt z x) l × All (Lt x) r × IsSearchTree l × IsSearchTree r

    pub All-insert {κ} :
        (P : A → Type κ) (granted granted_data : Bool) (x : A) (t : Tree A)
        → P x
        → All P t
        → All P (insert_node compare granted granted_data x t).1
    unfolding insert_node create_node
    All-insert P true true x leaf p h = (tt, p, tt)
    All-insert P true false x leaf p h = tt
    All-insert P false granted_data x leaf p h = tt
    All-insert P granted granted_data x (node l y r) p h =
        if_intro {A = ℤ × Tree A} (λ t. All P t.1) (is_negative (compare x y)) _ _
          (λ e. (All-insert P granted granted_data x l p h.0, h.1, h.2))
          (λ e.
            if_intro {A = ℤ × Tree A} (λ t. All P t.1) (is_zero (compare x y)) _ _ (λ e. h)
              (λ e. (h.0, h.1, All-insert P granted granted_data x r p h.2)))

    All-unlink {κ} :
        (P : A → Type κ) (l r : Tree A) (again : A → ℤ × Tree A)
        → All P l
        → All P r
        → ((m : A) → All P (again m).1)
        → All P (unlink l r again).1
    unfolding unlink
    All-unlink P leaf leaf again hl hr rest = tt
    All-unlink P leaf (node rl z rr) again hl hr rest = hr
    All-unlink P (node ll w lr) leaf again hl hr rest = hl
    All-unlink P (node ll w lr) (node rl z rr) again hl hr rest =
        (hl, All-leftmost P rl z hr.0 hr.1, rest (leftmost rl z))

    pub All-remove {κ} :
        (P : A → Type κ) (key : A) (t : Tree A) → All P t → All P (remove_node compare key t).1
    unfolding remove_node
    All-remove P key leaf h = tt
    All-remove P key (node l y r) h =
        if_intro {A = ℤ × Tree A} (λ t. All P t.1) (is_negative (compare key y)) _ _
          (λ e. (All-remove P key l h.0, h.1, h.2))
          (λ e.
            if_intro {A = ℤ × Tree A} (λ t. All P t.1) (is_zero (compare key y)) _ _
              (λ e.
                All-unlink P l r (λ m. remove_node compare m r) h.0 h.2 (λ m. All-remove P m r h.2))
              (λ e. (h.0, h.1, All-remove P key r h.2)))

    -- The three ways of `remove_node` at a node.
    pub remove-before :
        (key : A) (l : Tree A) (y : A) (r : Tree A)
        → Lt key y
        → remove_node compare key (node l y r)
          ≡ ((remove_node compare key l).0, node (remove_node compare key l).1 y r)
    unfolding remove_node
    remove-before key l y r before = rw before

    pub remove-here :
        (key : A) (l : Tree A) (y : A) (r : Tree A)
        → is_zero (compare key y) ≡ true
        → remove_node compare key (node l y r) ≡ unlink l r (λ m. remove_node compare m r)
    unfolding remove_node
    remove-here key l y r here = rw (zero-not_negative (compare key y) here, here)

    pub remove-after :
        (key : A) (l : Tree A) (y : A) (r : Tree A)
        → is_negative (compare key y) ≡ false
        → is_zero (compare key y) ≡ false
        → remove_node compare key (node l y r)
          ≡ ((remove_node compare key r).0, node l y (remove_node compare key r).1)
    unfolding remove_node
    remove-after key l y r later other = rw (later, other)

    -- The successor that replaces a removed item is the least item of the right subtree.
    pub leftmost-Lt :
        (l : Tree A) (y : A) (r : Tree A)
        → IsOrder compare
        → IsSearchTree (node l y r)
        → All (Lt (leftmost l y)) (remove_node compare (leftmost l y) (node l y r)).1
    unfolding leftmost unlink
    leftmost-Lt leaf y leaf o v = rw (remove-here y leaf y leaf (o.self y)) tt
    leftmost-Lt leaf y (node rl z rr) o v = rw (remove-here y leaf y (node rl z rr) (o.self y)) v.1
    leftmost-Lt (node ll w lr) y r o v =
        let m : A = leftmost ll w in
        let before : Lt m y = All-leftmost (λ z. Lt z y) ll w v.0.0 v.0.1 in
        rw (remove-before m (node ll w lr) y r before)
          (leftmost-Lt ll w lr o v.2, before, All-imp r (λ z p. o.trans m y z before p) v.1)

    IsSearchTree-unlink :
        (l : Tree A) (y : A) (r : Tree A) (again : A → ℤ × Tree A)
        → IsOrder compare
        → IsSearchTree (node l y r)
        → ((m : A) → again m ≡ remove_node compare m r)
        → ((m : A) → IsSearchTree (again m).1)
        → IsSearchTree (unlink l r again).1
    unfolding unlink
    IsSearchTree-unlink leaf y leaf again o v same rest = tt
    IsSearchTree-unlink leaf y (node rl z rr) again o v same rest = v.3
    IsSearchTree-unlink (node ll w lr) y leaf again o v same rest = v.2
    IsSearchTree-unlink (node ll w lr) y (node rl z rr) again o v same rest =
        let m : A = leftmost rl z in
        let above : Lt y m = All-leftmost (Lt y) rl z v.1.0 v.1.1 in
        (
          All-imp (node ll w lr) (λ x p. o.trans x y m p above) v.0,
          rw (same m) (leftmost-Lt rl z rr o v.3),
          v.2,
          rest m,
        )

    -- Where `compare` is an order, `remove_node` on a search tree leaves a search tree.
    pub IsSearchTree-remove :
        (key : A) (t : Tree A)
        → IsOrder compare
        → IsSearchTree t
        → IsSearchTree (remove_node compare key t).1
    unfolding remove_node
    IsSearchTree-remove key leaf o v = tt
    IsSearchTree-remove key (node l y r) o v =
        if_intro {A = ℤ × Tree A} (λ t. IsSearchTree t.1) (is_negative (compare key y)) _ _
          (λ e. (All-remove (λ z. Lt z y) key l v.0, v.1, IsSearchTree-remove key l o v.2, v.3))
          (λ e.
            if_intro {A = ℤ × Tree A} (λ t. IsSearchTree t.1) (is_zero (compare key y)) _ _
              (λ e.
                IsSearchTree-unlink l y r (λ m. remove_node compare m r) o v (λ m. refl)
                  (λ m. IsSearchTree-remove m r o v.3))
              (λ e. (v.0, All-remove (Lt y) key r v.1, v.2, IsSearchTree-remove key r o v.3)))

    -- Where `compare` is an order, `insert_node` on a search tree leaves a search tree, whether
    -- or not the memory is granted.
    pub IsSearchTree-insert :
        (granted granted_data : Bool) (x : A) (t : Tree A)
        → IsOrder compare
        → IsSearchTree t
        → IsSearchTree (insert_node compare granted granted_data x t).1
    unfolding insert_node create_node
    IsSearchTree-insert true true x leaf o v = (tt, tt, tt, tt)
    IsSearchTree-insert true false x leaf o v = tt
    IsSearchTree-insert false granted_data x leaf o v = tt
    IsSearchTree-insert granted granted_data x (node l y r) o v =
        if_intro {A = ℤ × Tree A} (λ t. IsSearchTree t.1) (is_negative (compare x y)) _ _
          (λ before. (
            All-insert (λ z. Lt z y) granted granted_data x l before v.0,
            v.1,
            IsSearchTree-insert granted granted_data x l o v.2,
            v.3,
          ))
          (λ later.
            if_intro {A = ℤ × Tree A} (λ t. IsSearchTree t.1) (is_zero (compare x y)) _ _ (λ e. v)
              (λ other. (
                v.0,
                All-insert (Lt y) granted granted_data x r (o.flip_back x y later other) v.1,
                v.2,
                IsSearchTree-insert granted granted_data x r o v.3,
              )))
