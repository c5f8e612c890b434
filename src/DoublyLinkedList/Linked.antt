-- ===== src/DoublyLinkedList/Linked.antt =====
-- What a heap and a list that hold a sequence of nodes look like.
use c_data_structures.Prelude.{
  ℕ, zero, suc, ◌+◌, ◌-◌, ◌<◌, ◌≡◌, refl, ap, ◌∙◌, Option, none, some, List, [], ◌∷◌, length,
  get_elem?, arith,
}
use c_data_structures.Prelude.Run.{ok, ◌>>=◌}
use c_data_structures.DoublyLinkedList.{DoublyLinkedList, Heap, node_at, walk_next, walk_prev}

module _ {ℓ} {A : Type ℓ} where
  -- The address of the node at a position, if there is one, and of the node before a position.
  abbrev pub address : List (ℕ × A) → ℕ → Option ℕ
  address [] i = none
  address (n ∷ ns) zero = some n.0
  address (n ∷ ns) (suc i) = address ns i

  abbrev pub before : List (ℕ × A) → ℕ → Option ℕ
  before ns zero = none
  before ns (suc i) = address ns i

  -- The list consists of the nodes `ns`, each at its address with its element, linked both ways.
  pub record IsLinked (heap : Heap A) (list : DoublyLinkedList) (ns : List (ℕ × A)) : Type ℓ where
    pub counted : list.length ≡ length ns
    pub first : list.head ≡ address ns 0
    pub last : list.tail ≡ before ns (length ns)
    pub linked :
        (i a : ℕ) (x : A)
        → get_elem? ns i ≡ some (a, x)
        → heap a ≡ some (record { item = x; next = address ns (suc i); prev = before ns i })

  pub address-elem :
      (ns : List (ℕ × A)) (i : ℕ)
      → i < length ns
      → (a : ℕ) × (x : A) × (get_elem? ns i ≡ some (a, x)) × (address ns i ≡ some a)
  address-elem [] i h = absurd (omega arith)
  address-elem (n ∷ ns) zero h = (n.0, n.1, refl, refl)
  address-elem (n ∷ ns) (suc i) h = address-elem ns i (omega arith)

  module _ {heap : Heap A} {list : DoublyLinkedList} {ns : List (ℕ × A)}
      (ok_list : IsLinked heap list ns) where
    -- The node at position `i`.
    pub node_at-address :
        (i : ℕ)
        → i < length ns
        → (a : ℕ) × (x : A) × (get_elem? ns i ≡ some (a, x))
          × (node_at heap (address ns i)
              ≡ ok (record { item = x; next = address ns (suc i); prev = before ns i }))
    node_at-address i h =
        let (a, x, has, e) = address-elem ns i h in
        (a, x, has, rw (e, ok_list.linked i a x has) refl)

    pub walk_next-address :
        (k i j : ℕ)
        → i + k ≡ j
        → j < length ns
        → walk_next k heap (address ns i) ≡ ok (address ns j)
    unfolding walk_next
    walk_next-address zero i j e h = ap (λ n. ok (address ns n)) (omega arith)
    walk_next-address (suc k) i j e h =
        let (a, x, has, found) = node_at-address i (omega arith) in
        ap (λ r. r >>= λ n. walk_next k heap n.next) found
        ∙ walk_next-address k (suc i) j (omega arith) h

    pub walk_prev-address :
        (k i j : ℕ)
        → i + k ≡ j
        → j < length ns
        → walk_prev k heap (address ns j) ≡ ok (address ns i)
    unfolding walk_prev
    walk_prev-address zero i j e h = ap (λ n. ok (address ns n)) (omega arith)
    walk_prev-address (suc k) i zero e h = absurd (omega arith)
    walk_prev-address (suc k) i (suc j) e h =
        let (a, x, has, found) = node_at-address (suc j) h in
        ap (λ r. r >>= λ n. walk_prev k heap n.prev) found
        ∙ walk_prev-address k i j (omega arith) (omega arith)

  pub before-address : (ns : List (ℕ × A)) (n : ℕ) → 0 < n → before ns n ≡ address ns (n - 1)
  before-address ns zero h = absurd (omega arith)
  before-address ns (suc n) h = ap (address ns) (omega arith)
