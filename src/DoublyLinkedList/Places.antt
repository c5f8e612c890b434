-- ===== src/DoublyLinkedList/Places.antt =====
-- The addresses in a sequence of nodes with one more or one less, and the positions of its nodes.
use c_data_structures.Prelude.{
  ℕ, zero, suc, ◌<◌, ◌≤◌, ◌≡◌, ◌≢◌, refl, ap, ◌∙◌, sym, some, List, [], ◌∷◌, length, get_elem?,
  insert_at, remove_at, arith, eq_of_some,
}
use c_data_structures.DoublyLinkedList.{DoublyLinkedList, Heap}
use c_data_structures.DoublyLinkedList.Linked.{IsLinked, address, before}
use c_data_structures.DoublyLinkedList.Clear.{positions}

module _ {ℓ} {A : Type ℓ} where
  address-insert_lt :
      (ns : List (ℕ × A)) (k i : ℕ) (n : ℕ × A)
      → i < k
      → k ≤ length ns
      → address (insert_at ns k n) i ≡ address ns i
  address-insert_lt ns zero i n lt le = absurd (omega arith)
  address-insert_lt [] (suc k) i n lt le = absurd (omega arith)
  address-insert_lt (m ∷ ns) (suc k) zero n lt le = refl
  address-insert_lt (m ∷ ns) (suc k) (suc i) n lt le =
      address-insert_lt ns k i n (omega arith) (omega arith)

  pub address-insert_eq :
      (ns : List (ℕ × A)) (k : ℕ) (n : ℕ × A)
      → k ≤ length ns
      → address (insert_at ns k n) k ≡ some n.0
  address-insert_eq ns zero n le = refl
  address-insert_eq [] (suc k) n le = absurd (omega arith)
  address-insert_eq (m ∷ ns) (suc k) n le = address-insert_eq ns k n (omega arith)

  pub address-insert_gt :
      (ns : List (ℕ × A)) (k i : ℕ) (n : ℕ × A)
      → k ≤ i
      → k ≤ length ns
      → address (insert_at ns k n) (suc i) ≡ address ns i
  address-insert_gt ns zero i n lt le = refl
  address-insert_gt [] (suc k) i n lt le = absurd (omega arith)
  address-insert_gt (m ∷ ns) (suc k) zero n lt le = absurd (omega arith)
  address-insert_gt (m ∷ ns) (suc k) (suc i) n lt le =
      address-insert_gt ns k i n (omega arith) (omega arith)

  pub before-insert_le :
      (ns : List (ℕ × A)) (k i : ℕ) (n : ℕ × A)
      → i ≤ k
      → k ≤ length ns
      → before (insert_at ns k n) i ≡ before ns i
  before-insert_le ns k zero n lt le = refl
  before-insert_le ns k (suc i) n lt le = address-insert_lt ns k i n (omega arith) le

  pub address-insert_before :
      (ns : List (ℕ × A)) (k i : ℕ) (n : ℕ × A)
      → suc i < k
      → k ≤ length ns
      → address (insert_at ns k n) (suc i) ≡ address ns (suc i)
  address-insert_before ns k i n lt le = address-insert_lt ns k (suc i) n lt le

  pub address-remove_lt :
      (ns : List (ℕ × A)) (k i : ℕ) → i < k → address (remove_at ns k) i ≡ address ns i
  address-remove_lt [] k i lt = refl
  address-remove_lt (n ∷ ns) zero i lt = absurd (omega arith)
  address-remove_lt (n ∷ ns) (suc k) zero lt = refl
  address-remove_lt (n ∷ ns) (suc k) (suc i) lt = address-remove_lt ns k i (omega arith)

  pub address-remove_ge :
      (ns : List (ℕ × A)) (k i : ℕ) → k ≤ i → address (remove_at ns k) i ≡ address ns (suc i)
  address-remove_ge [] k i le = refl
  address-remove_ge (n ∷ ns) zero i le = refl
  address-remove_ge (n ∷ ns) (suc k) zero le = absurd (omega arith)
  address-remove_ge (n ∷ ns) (suc k) (suc i) le = address-remove_ge ns k i (omega arith)

  pub before-remove_le :
      (ns : List (ℕ × A)) (k i : ℕ) → i ≤ k → before (remove_at ns k) i ≡ before ns i
  before-remove_le ns k zero le = refl
  before-remove_le ns k (suc i) le = address-remove_lt ns k i (omega arith)

  pub before-remove_gt :
      (ns : List (ℕ × A)) (k i : ℕ) → k < i → before (remove_at ns k) i ≡ before ns (suc i)
  before-remove_gt ns k zero lt = absurd (omega arith)
  before-remove_gt ns k (suc i) lt = address-remove_ge ns k i (omega arith)

  -- Nodes at different positions have different addresses, and a position has one node.
  pub apart :
      {heap : Heap A} {list : DoublyLinkedList} {ns : List (ℕ × A)}
      → IsLinked heap list ns
      → (i j b c : ℕ) (y z : A) → get_elem? ns i ≡ some (b, y)
      → get_elem? ns j ≡ some (c, z)
      → i ≢ j
      → b ≢ c
  apart {heap} {list} {ns} ok_list i j b c y z hi hj ne e = ne (
      positions heap ns (λ j a x _ has. ok_list.linked j a x has) i j b y z hi
        (hj ∙ ap (λ d. some (d, z)) (sym e)))

  pub same_node :
      (ns : List (ℕ × A)) (i j b c : ℕ) (y z : A)
      → get_elem? ns i ≡ some (b, y)
      → get_elem? ns j ≡ some (c, z)
      → i ≡ j
      → (b ≡ c) × (y ≡ z)
  same_node ns i j b c y z hi hj e =
      let both = eq_of_some (sym hi ∙ (ap (get_elem? ns) e ∙ hj)) in
      (ap (λ (p : ℕ × A). p.0) both, ap (λ (p : ℕ × A). p.1) both)
