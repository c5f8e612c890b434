-- ===== src/BinaryTree/Traverse.antt =====
-- The traversals of binary_tree/binary_tree.c.
use mathlib.Core.List.{Perm, perm_middle, append-nil}
use mathlib.Core.List.Perm
use native.Mathlib.Nat.{mod-add-mod, add-mod-mod}
use c_data_structures.Prelude.{
  ℕ, ◌+◌, ◌%◌, ◌≡◌, ◌∙◌, refl, ap, ap₂, List, [], ◌∷◌, ◌++◌, arith, length, length-append,
}
use c_data_structures.Prelude.Int.{ℤ}
use c_data_structures.Buffer.{size_mod}
use c_data_structures.BinaryTree.{Tree, leaf, node, inorder, preorder, postorder, size_node}
use c_data_structures.BinaryTree.Order.{IsOrder, All, Lt, IsSearchTree}

sum-mod : (a b n : ℕ) → (1 + a % n + b % n) % n ≡ (1 + a + b) % n
sum-mod a b n =
    add-mod-mod (1 + a % n) b n
    ∙ ap (λ k. k % n) (omega arith)
    ∙ mod-add-mod a n (1 + b)
    ∙ ap (λ k. k % n) (omega arith)

module _ {ℓ} {A : Type ℓ} where
  abbrev AllItems {κ} : (A → Type κ) → List A → Type κ
  AllItems P [] = Unit
  AllItems P (x ∷ xs) = P x × AllItems P xs

  -- Each item comes before all the later ones.
  abbrev pub IsSorted : (A → A → ℤ) → List A → Type 0
  IsSorted compare [] = Unit
  IsSorted compare (x ∷ xs) = AllItems (Lt compare x) xs × IsSorted compare xs

  AllItems-append {κ} :
      (P : A → Type κ) (xs ys : List A) → AllItems P xs → AllItems P ys → AllItems P (xs ++ ys)
  AllItems-append P [] ys h k = k
  AllItems-append P (x ∷ xs) ys h k = (h.0, AllItems-append P xs ys h.1 k)

  AllItems-inorder {κ} : (P : A → Type κ) (t : Tree A) → All P t → AllItems P (inorder t)
  unfolding inorder
  AllItems-inorder P leaf h = tt
  AllItems-inorder P (node l x r) h =
      AllItems-append P (inorder l) (x ∷ inorder r) (AllItems-inorder P l h.0)
        (h.1, AllItems-inorder P r h.2)

  module _ (compare : A → A → ℤ) (o : IsOrder compare) where
    above :
        (w x : A) (ys : List A)
        → Lt compare w x
        → AllItems (Lt compare x) ys
        → AllItems (Lt compare w) ys
    above w x [] p h = tt
    above w x (y ∷ ys) p h = (o.trans w x y p h.0, above w x ys p h.1)

    IsSorted-middle :
        (xs : List A) (x : A) (ys : List A)
        → IsSorted compare xs
        → AllItems (λ w. Lt compare w x) xs
        → IsSorted compare (x ∷ ys)
        → IsSorted compare (xs ++ (x ∷ ys))
    IsSorted-middle [] x ys s h k = k
    IsSorted-middle (w ∷ xs) x ys s h k = (
      AllItems-append (Lt compare w) xs (x ∷ ys) s.0 (h.0, above w x ys h.0 k.0),
      IsSorted-middle xs x ys s.1 h.1 k,
    )

    -- Where `compare` is an order, `inorder` visits the items of a search tree in increasing
    -- order.
    pub inorder-IsSorted : (t : Tree A) → IsSearchTree compare t → IsSorted compare (inorder t)
    unfolding inorder
    inorder-IsSorted leaf v = tt
    inorder-IsSorted (node l x r) v =
        IsSorted-middle (inorder l) x (inorder r) (inorder-IsSorted l v.2)
          (AllItems-inorder (λ w. Lt compare w x) l v.0)
          (AllItems-inorder (Lt compare x) r v.1, inorder-IsSorted r v.3)

  preorder-perm : (t : Tree A) → Perm (preorder t) (inorder t)
  unfolding preorder inorder
  preorder-perm leaf = Perm.refl []
  preorder-perm (node l x r) =
      Perm.trans (Perm.cons x (Perm.append (preorder-perm l) (preorder-perm r)))
        (Perm.symm (perm_middle (inorder l) (inorder r)))

  postorder-perm : (t : Tree A) → Perm (postorder t) (inorder t)
  unfolding postorder inorder
  postorder-perm leaf = Perm.refl []
  postorder-perm (node l x r) = Perm.append (postorder-perm l) (
      Perm.trans (perm_middle (postorder r) [])
        (Perm.cons x (rw (append-nil (postorder r)) (postorder-perm r))))

  size_node-length : (t : Tree A) → size_node t ≡ length (inorder t) % size_mod
  unfolding inorder size_node
  size_node-length leaf = refl
  size_node-length (node l x r) =
      let a = length (inorder l) in
      let b = length (inorder r) in
      ap₂ (λ m n. (1 + m + n) % size_mod) (size_node-length l) (size_node-length r)
      ∙ sum-mod a b size_mod
      ∙ ap (λ n. n % size_mod) (omega (arith, length-append (inorder l) (x ∷ inorder r)))

  -- `preorder` and `postorder` visit the same items as `inorder`, each as often, and
  -- `size_node` is their number modulo 2 ^ 64.
  pub traversals_agree :
      (t : Tree A)
      → Perm (preorder t) (inorder t)
        × Perm (postorder t) (inorder t)
        × (size_node t ≡ length (inorder t) % size_mod)
  traversals_agree t = (preorder-perm t, postorder-perm t, size_node-length t)
