-- ===== src/BinaryTree/Search.antt =====
-- What `search_node` of binary_tree/binary_tree.c finds after `insert_node` and `remove_node`.
use c_data_structures.Prelude.{
  ◌≡◌, refl, ◌∙◌, inl, inr, true, false, Option, none, some, arith, if◌then◌else◌, Bool-cases,
}
use c_data_structures.Prelude.Int.{is_negative, ℤ, success, failure, is_zero}
use c_data_structures.BinaryTree.{Tree, leaf, node, leftmost, create_node, insert_node, search_node}
use c_data_structures.BinaryTree.Order.{
  IsOrder, All, Lt, IsSearchTree, All-imp, All-leftmost, zero-not_negative,
}

module _ {ℓ} {A : Type ℓ} where
  -- The item that stays where an equal one is inserted.
  abbrev pub stored : A → Option A → A
  stored x none = x
  stored x (some y) = y

  module _ (compare : A → A → ℤ) (o : IsOrder compare) where
    search-insert_same :
        (key x : A) (t : Tree A)
        → is_zero (compare key x) ≡ true
        → search_node compare key (insert_node compare true true x t).1
          ≡ (success, some (stored x (search_node compare key t).1))
    unfolding search_node insert_node create_node
    search-insert_same key x leaf e = rw e
    search-insert_same key x (node l y r) e =
        let (neg, zer) = o.same key x y e in
        ground (arith, neg, zer, search-insert_same key x l e, search-insert_same key x r e)

    search-insert_other :
        (key x : A) (t : Tree A)
        → is_zero (compare key x) ≡ false
        → search_node compare key (insert_node compare true true x t).1 ≡ search_node compare key t
    unfolding search_node insert_node create_node
    search-insert_other key x leaf e = ground arith
    search-insert_other key x (node l y r) e =
        ground (arith, search-insert_other key x l e, search-insert_other key x r e)

    -- `search_node` at a node, by the order of the key and the item.
    pub search-before :
        (key : A) (l : Tree A) (y : A) (r : Tree A)
        → Lt compare key y
        → search_node compare key (node l y r) ≡ search_node compare key l
    unfolding search_node
    search-before key l y r e = ground (arith, zero-not_negative (compare key y))

    pub search-here :
        (key : A) (l : Tree A) (y : A) (r : Tree A)
        → is_zero (compare key y) ≡ true
        → search_node compare key (node l y r) ≡ (success, some y)
    unfolding search_node
    search-here key l y r e = rw e

    pub search-after :
        (key : A) (l : Tree A) (y : A) (r : Tree A)
        → is_negative (compare key y) ≡ false
        → is_zero (compare key y) ≡ false
        → search_node compare key (node l y r) ≡ search_node compare key r
    unfolding search_node
    search-after key l y r e f = rw (f, e)

    pub search-above :
        (key : A) (t : Tree A)
        → All (Lt compare key) t
        → search_node compare key t ≡ (failure, none)
    unfolding search_node
    search-above key leaf h = refl
    search-above key (node l y r) h = search-before key l y r h.1 ∙ search-above key l h.0

    pub search-below :
        (key : A) (t : Tree A)
        → All (λ z. Lt compare z key) t
        → search_node compare key t ≡ (failure, none)
    unfolding search_node
    search-below key leaf h = refl
    search-below key (node l y r) h =
        let (later, other) = o.flip y key h.1 in
        search-after key l y r later other ∙ search-below key r h.2

    -- Left of the least item nothing is found, and the least item is found.
    pub search-leftmost :
        (key : A) (l : Tree A) (y : A) (r : Tree A)
        → IsSearchTree compare (node l y r)
        → is_zero (compare key (leftmost l y)) ≡ true
        → search_node compare key (node l y r) ≡ (success, some (leftmost l y))
    unfolding leftmost
    search-leftmost key leaf y r v e = search-here key leaf y r e
    search-leftmost key (node ll w lr) y r v e =
        let m : A = leftmost ll w in
        let before : Lt compare m y = All-leftmost (λ z. Lt compare z y) ll w v.0.0 v.0.1 in
        search-before key (node ll w lr) y r ((o.same key m y e).0 ∙ before)
        ∙ search-leftmost key ll w lr v.2 e

    pub before-leftmost :
        (key : A) (l : Tree A) (y : A) (r : Tree A)
        → IsSearchTree compare (node l y r)
        → Lt compare key (leftmost l y)
        → search_node compare key (node l y r) ≡ (failure, none)
    unfolding leftmost
    before-leftmost key leaf y r v e =
        search-above key (node leaf y r) (tt, e, All-imp r (λ z p. o.trans key y z e p) v.1)
    before-leftmost key (node ll w lr) y r v e =
        let m : A = leftmost ll w in
        let before : Lt compare m y = All-leftmost (λ z. Lt compare z y) ll w v.0.0 v.0.1 in
        search-before key (node ll w lr) y r (o.trans key m y e before)
        ∙ before-leftmost key ll w lr v.2 e

    -- Where `compare` is an order, a search after `insert_node` with the memory granted finds
    -- under a key equal to the new item's the item that was stored before under it, or else the
    -- new item, and under any other key what it found before.
    pub search-insert :
        (key x : A) (t : Tree A)
        → search_node compare key (insert_node compare true true x t).1 ≡ (
            if is_zero (compare key x)
            then (success, some (stored x (search_node compare key t).1))
            else search_node compare key t)
    search-insert key x t = elim (Bool-cases (is_zero (compare key x))) [
      | inl e ↦ rw e (search-insert_same key x t e)
      | inr e ↦ rw e (search-insert_other key x t e)
    ]
