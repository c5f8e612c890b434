-- ===== src/BinaryTree/Remove.antt =====
-- What `search_node` of binary_tree/binary_tree.c finds after `remove_node`.
use mathlib.Core.Bool.{false≢true}
use c_data_structures.Prelude.{
  ◌≡◌, refl, ◌∙◌, sym, ap, inl, inr, true, false, none, arith, if◌then◌else◌, Bool-cases,
}
use c_data_structures.Prelude.Int.{is_negative, ℤ, success, failure, is_zero}
use c_data_structures.BinaryTree.{Tree, leaf, node, leftmost, unlink, remove_node, search_node}
use c_data_structures.BinaryTree.Order.{
  IsOrder, AlikeTo, Lt, IsSearchTree, All-imp, All-leftmost, remove-before, remove-here,
  remove-after,
}
use c_data_structures.BinaryTree.Search.{
  search-before, search-here, search-after, search-above, search-below, search-leftmost,
  before-leftmost,
}

module _ {ℓ} {A : Type ℓ} (compare : A → A → ℤ) (o : IsOrder compare) where
  -- How a key stands to an item.
  data Sides (key y : A) : Type 0 where
    before : Lt compare key y → Sides key y
    here : is_zero (compare key y) ≡ true → Sides key y
    after : is_negative (compare key y) ≡ false → is_zero (compare key y) ≡ false → Sides key y

  sides : (key y : A) → Sides key y
  sides key y = elim (Bool-cases (is_negative (compare key y))) [
    | inl e ↦ before e
    | inr e ↦ elim (Bool-cases (is_zero (compare key y))) [ inl f ↦ here f | inr f ↦ after e f ]
  ]

  below_same :
      (key y x : A) → ((z : A) → AlikeTo compare key y z) → Lt compare x y → Lt compare x key
  below_same key y x same p =
      let (later, other) = o.flip x y p in
      o.flip_back key x ((same x).0 ∙ later) ((same x).1 ∙ other)

  search-unlink_same :
      (key : A) (l : Tree A) (y : A) (r : Tree A) (again : A → ℤ × Tree A)
      → IsSearchTree compare (node l y r)
      → ((z : A) → AlikeTo compare key y z)
      → search_node compare key (unlink l r again).1 ≡ (failure, none)
  unfolding unlink search_node
  search-unlink_same key leaf y leaf again v same = refl
  search-unlink_same key leaf y (node rl z rr) again v same =
      search-above compare o key (node rl z rr) (All-imp (node rl z rr) (λ x p. (same x).0 ∙ p) v.1)
  search-unlink_same key (node ll w lr) y leaf again v same =
      search-below compare o key (node ll w lr)
        (All-imp (node ll w lr) (λ x p. below_same key y x same p) v.0)
  search-unlink_same key (node ll w lr) y (node rl z rr) again v same =
      let m : A = leftmost rl z in
      let above : Lt compare y m = All-leftmost (Lt compare y) rl z v.1.0 v.1.1 in
      search-before compare o key (node ll w lr) m (again m).1 ((same m).0 ∙ above)
      ∙ search-below compare o key (node ll w lr)
          (All-imp (node ll w lr) (λ x p. below_same key y x same p) v.0)

  search-remove_same :
      (key x : A) (t : Tree A)
      → IsSearchTree compare t
      → is_zero (compare key x) ≡ true
      → search_node compare key (remove_node compare x t).1 ≡ (failure, none)
  unfolding remove_node search_node
  search-remove_same key x leaf v e = refl
  search-remove_same key x (node l y r) v e = elim (sides x y) [
    | before p ↦ rw (remove-before compare x l y r p) (
        search-before compare o key _ y r ((o.same key x y e).0 ∙ p)
        ∙ search-remove_same key x l v.2 e)
    | here p ↦ rw (remove-here compare x l y r p) (
        search-unlink_same key l y r (λ m. remove_node compare m r) v
          (λ z.
            ((o.same key x z e).0 ∙ (o.same x y z p).0, (o.same key x z e).1 ∙ (o.same x y z p).1)))
    | after p q ↦ rw (remove-after compare x l y r p q) (
        search-after compare o key l y _ ((o.same key x y e).0 ∙ p) ((o.same key x y e).1 ∙ q)
        ∙ search-remove_same key x r v.3 e)
  ]

  search-unlink_other :
      (key : A) (l : Tree A) (y : A) (r : Tree A) (again : A → ℤ × Tree A)
      → IsSearchTree compare (node l y r)
      → is_zero (compare key y) ≡ false
      → ((m : A)
          → is_zero (compare key m) ≡ false
          → search_node compare key (again m).1 ≡ search_node compare key r)
      → search_node compare key (unlink l r again).1 ≡ search_node compare key (node l y r)
  unfolding unlink search_node
  search-unlink_other key leaf y leaf again v e rest = ground arith
  search-unlink_other key leaf y (node rl z rr) again v e rest = elim (sides key y) [
    | before p ↦
        search-above compare o key (node rl z rr)
          (All-imp (node rl z rr) (λ x q. o.trans key y x p q) v.1)
        ∙ sym (search-before compare o key leaf y (node rl z rr) p)
    | here p ↦ cc
    | after p q ↦ sym (search-after compare o key leaf y (node rl z rr) p q)
  ]
  search-unlink_other key (node ll w lr) y leaf again v e rest = elim (sides key y) [
    | before p ↦ sym (search-before compare o key (node ll w lr) y leaf p)
    | here p ↦ cc
    | after p q ↦
        search-below compare o key (node ll w lr)
          (All-imp (node ll w lr) (λ x s. o.trans x y key s (o.flip_back key y p q)) v.0)
        ∙ sym (search-after compare o key (node ll w lr) y leaf p q)
  ]
  search-unlink_other key (node ll w lr) y (node rl z rr) again v e rest =
      let l : Tree A = node ll w lr in
      let r : Tree A = node rl z rr in
      let m : A = leftmost rl z in
      let above : Lt compare y m = All-leftmost (Lt compare y) rl z v.1.0 v.1.1 in
      elim (sides key y) [
        | before p ↦
            search-before compare o key l m (again m).1 (o.trans key y m p above)
            ∙ sym (search-before compare o key l y r p)
        | here p ↦ cc
        | after p q ↦
            elim (sides key m) [
              | before s ↦
                  search-before compare o key l m (again m).1 s
                  ∙ search-below compare o key l
                      (All-imp l (λ x t. o.trans x y key t (o.flip_back key y p q)) v.0)
                  ∙ sym (before-leftmost compare o key rl z rr v.3 s)
              | here s ↦
                  search-here compare o key l m (again m).1 s
                  ∙ sym (search-leftmost compare o key rl z rr v.3 s)
              | after s t ↦ search-after compare o key l m (again m).1 s t ∙ rest m t
            ]
            ∙ sym (search-after compare o key l y r p q)
      ]

  search-node_congr :
      (key y : A) (l l' r r' : Tree A)
      → search_node compare key l ≡ search_node compare key l'
      → search_node compare key r ≡ search_node compare key r'
      → search_node compare key (node l y r) ≡ search_node compare key (node l' y r')
  unfolding search_node
  search-node_congr key y l l' r r' e f = ground arith

  ne_of_same :
      (key x y : A)
      → is_zero (compare key x) ≡ false
      → is_zero (compare x y) ≡ true
      → is_zero (compare key y) ≡ false
  ne_of_same key x y other p = elim (Bool-cases (is_zero (compare key y))) [
    | inl e ↦
        absurd (false≢true (sym other ∙ ((o.same key y x e).1 ∙ sym (o.same x y x p).1) ∙ o.self x))
    | inr e ↦ e
  ]

  search-remove_other :
      (key x : A) (t : Tree A)
      → IsSearchTree compare t
      → is_zero (compare key x) ≡ false
      → search_node compare key (remove_node compare x t).1 ≡ search_node compare key t
  unfolding remove_node
  search-remove_other key x leaf v e = refl
  search-remove_other key x (node l y r) v e = elim (sides x y) [
    | before p ↦
        rw (remove-before compare x l y r p)
          (search-node_congr key y _ l r r (search-remove_other key x l v.2 e) refl)
    | here p ↦ rw (remove-here compare x l y r p) (
        search-unlink_other key l y r (λ m. remove_node compare m r) v (ne_of_same key x y e p)
          (λ m n. search-remove_other key m r v.3 n))
    | after p q ↦
        rw (remove-after compare x l y r p q)
          (search-node_congr key y l l _ r refl (search-remove_other key x r v.3 e))
  ]

  -- Where `compare` is an order, after `remove_node` of a key from a search tree a search finds
  -- nothing under that key and every equal one, and under any other key what it found before.
  pub search-remove :
      (key x : A) (t : Tree A)
      → IsSearchTree compare t
      → search_node compare key (remove_node compare x t).1
        ≡ (if is_zero (compare key x) then (failure, none) else search_node compare key t)
  search-remove key x t v = elim (Bool-cases (is_zero (compare key x))) [
    | inl e ↦ rw e (search-remove_same key x t v e)
    | inr e ↦ rw e (search-remove_other key x t v e)
  ]

  status-unlink :
      (l : Tree A) (y : A) (r : Tree A) (again : A → ℤ × Tree A)
      → IsSearchTree compare (node l y r)
      → ((m : A) → (again m).0 ≡ (search_node compare m r).0)
      → (unlink l r again).0 ≡ success
  unfolding unlink
  status-unlink leaf y leaf again v rest = refl
  status-unlink leaf y (node rl z rr) again v rest = refl
  status-unlink (node ll w lr) y leaf again v rest = refl
  status-unlink (node ll w lr) y (node rl z rr) again v rest =
      let m : A = leftmost rl z in
      rest m ∙ ap (λ t. t.0) (search-leftmost compare o m rl z rr v.3 (o.self m))

  -- Where `compare` is an order, `remove_node` on a search tree returns what a search for the
  -- key returns: success exactly where the key is there.
  status-remove :
      (x : A) (t : Tree A)
      → IsSearchTree compare t
      → (remove_node compare x t).0 ≡ (search_node compare x t).0
  unfolding remove_node search_node
  status-remove x leaf v = refl
  status-remove x (node l y r) v = elim (sides x y) [
    | before p ↦
        rw (remove-before compare x l y r p, search-before compare o x l y r p)
          (status-remove x l v.2)
    | here p ↦
        rw (remove-here compare x l y r p, search-here compare o x l y r p)
          (status-unlink l y r (λ m. remove_node compare m r) v (λ m. status-remove m r v.3))
    | after p q ↦
        rw (remove-after compare x l y r p q, search-after compare o x l y r p q)
          (status-remove x r v.3)
  ]
