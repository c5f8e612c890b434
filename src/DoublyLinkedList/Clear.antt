-- ===== src/DoublyLinkedList/Clear.antt =====
-- `dll_clear` on a linked list: its loop, and the heap that it leaves.
use c_data_structures.Prelude.{
  ℕ, zero, suc, ◌+◌, ◌<◌, ◌≤◌, ◌≡◌, ◌≢◌, refl, ap, ◌∙◌, sym, none, some, List, [], ◌∷◌, length,
  get_elem?, arith, eq_of_some,
}
use native.Mathlib.Decide.{dec_lt}
use c_data_structures.Prelude.Int.{success}
use c_data_structures.Prelude.Run.{ok, ◌>>=◌, deref}
use c_data_structures.DoublyLinkedList.{
  DListNode, DoublyLinkedList, Heap, put, free_nodes, dll_clear,
}
use c_data_structures.DoublyLinkedList.Prepend.{put_self, put_other}
use c_data_structures.DoublyLinkedList.Linked.{IsLinked, address, before, address-elem}

module _ {ℓ} {A : Type ℓ} where
  -- The nodes from position `i` on are in the heap.
  abbrev Rest : Heap A → List (ℕ × A) → ℕ → Type ℓ
  Rest heap ns i =
      (j a : ℕ) (x : A)
      → i ≤ j
      → get_elem? ns j ≡ some (a, x)
      → heap a ≡ some (record { item = x; next = address ns (suc j); prev = before ns j })

  pub elem-lt : (ns : List (ℕ × A)) (i : ℕ) (n : ℕ × A) → get_elem? ns i ≡ some n → i < length ns
  elem-lt [] i n has = absurd (ground arith)
  elem-lt (m ∷ ns) zero n has = omega arith
  elem-lt (m ∷ ns) (suc i) n has = omega (arith, elem-lt ns i n has)

  same-before :
      (heap : Heap A) (ns : List (ℕ × A))
      → Rest heap ns 0
      → (i j a : ℕ) (x y : A) → get_elem? ns i ≡ some (a, x)
      → get_elem? ns j ≡ some (a, y)
      → before ns i ≡ before ns j
  same-before heap ns rest i j a x y hi hj =
      ap (λ (n : DListNode A). n.prev)
        (eq_of_some (sym (rest i a x (omega arith) hi) ∙ rest j a y (omega arith) hj))

  -- The first node stands at no other position.
  first-once :
      (heap : Heap A) (ns : List (ℕ × A))
      → Rest heap ns 0
      → (j a : ℕ) (x y : A) → get_elem? ns 0 ≡ some (a, x)
      → get_elem? ns (suc j) ≡ some (a, y)
      → ⊥
  first-once heap ns rest j a x y hi hj =
      let below = elem-lt ns (suc j) (a, y) hj in
      let (c, v, has, e) = address-elem ns j (omega arith) in
      let none_some = same-before heap ns rest 0 (suc j) a x y hi hj ∙ e in ground arith

  -- A node has one position.
  pub positions :
      (heap : Heap A) (ns : List (ℕ × A))
      → Rest heap ns 0
      → (i j a : ℕ) (x y : A) → get_elem? ns i ≡ some (a, x)
      → get_elem? ns j ≡ some (a, y)
      → i ≡ j
  positions heap ns rest zero zero a x y hi hj = refl
  positions heap ns rest zero (suc j) a x y hi hj = absurd (first-once heap ns rest j a x y hi hj)
  positions heap ns rest (suc i) zero a x y hi hj = absurd (first-once heap ns rest i a y x hj hi)
  positions heap ns rest (suc i) (suc j) a x y hi hj =
      let below_i = elem-lt ns (suc i) (a, x) hi in
      let below_j = elem-lt ns (suc j) (a, y) hj in
      let (b, u, has_i, e_i) = address-elem ns i (omega arith) in
      let (c, v, has_j, e_j) = address-elem ns j (omega arith) in
      let one = eq_of_some (sym e_i ∙ same-before heap ns rest (suc i) (suc j) a x y hi hj ∙ e_j) in
      ap suc (positions heap ns rest i j b u v has_i (has_j ∙ ap (λ d. some (d, v)) (sym one)))

  -- What freeing the nodes from position `i` on leaves: those nodes are gone, and everything else is
  -- as it was.
  record Freed (ns : List (ℕ × A)) (i : ℕ) (heap heap' : Heap A) : Type ℓ where
    gone : (j a : ℕ) (x : A) → i ≤ j → get_elem? ns j ≡ some (a, x) → heap' a ≡ none
    others : (a : ℕ) → ((j : ℕ) (x : A) → get_elem? ns j ≢ some (a, x)) → heap' a ≡ heap a
    absent : (a : ℕ) → heap a ≡ none → heap' a ≡ none

  -- Every node has one position.
  abbrev Once : List (ℕ × A) → Type ℓ
  Once ns =
      (i j a : ℕ) (x y : A) → get_elem? ns i ≡ some (a, x) → get_elem? ns j ≡ some (a, y) → i ≡ j

  apart :
      (ns : List (ℕ × A)) (i j a b : ℕ) (x y : A)
      → Once ns
      → get_elem? ns i ≡ some (a, x)
      → suc i ≤ j
      → get_elem? ns j ≡ some (b, y)
      → b ≢ a
  apart ns i j a b x y once has le has_j e =
      let one = once i j a x y has (has_j ∙ ap (λ d. some (d, y)) e) in omega arith

  Rest-step :
      (heap : Heap A) (ns : List (ℕ × A)) (i a : ℕ) (x : A)
      → Once ns
      → get_elem? ns i ≡ some (a, x)
      → Rest heap ns i
      → Rest (put heap a none) ns (suc i)
  Rest-step heap ns i a x once has rest j b y le has_j =
      put_other heap a b none (apart ns i j a b x y once has le has_j)
      ∙ rest j b y (omega arith) has_j

  gone-step :
      (heap heap' : Heap A) (ns : List (ℕ × A)) (i a : ℕ) (x : A)
      → Once ns
      → get_elem? ns i ≡ some (a, x)
      → Freed ns (suc i) (put heap a none) heap'
      → (j b : ℕ) (y : A) → i ≤ j
      → get_elem? ns j ≡ some (b, y)
      → heap' b ≡ none
  gone-step heap heap' ns i a x once has left j b y le has_j = elim (dec_lt i j) [
    | yes after ↦ left.gone j b y (omega arith) has_j
    | no here ↦
        let same = ap (get_elem? ns) (omega arith) ∙ has_j in
        let one = ap (λ (n : ℕ × A). n.0) (eq_of_some (sym has ∙ same)) in
        left.absent b (ap (put heap a none) (sym one) ∙ put_self heap a none)
  ]

  Freed-step :
      (heap heap' : Heap A) (ns : List (ℕ × A)) (i a : ℕ) (x : A)
      → Once ns
      → get_elem? ns i ≡ some (a, x)
      → Freed ns (suc i) (put heap a none) heap'
      → Freed ns i heap heap'
  Freed-step heap heap' ns i a x once has left = record {
    gone = gone-step heap heap' ns i a x once has left;
    others = λ b out.
        left.others b out
        ∙ put_other heap a b none (λ e. out i x (has ∙ ap (λ d. some (d, x)) (sym e)));
    absent = λ b no_node. left.absent b (ground arith);
  }

  address-end : (ns : List (ℕ × A)) (i : ℕ) → i ≡ length ns → address ns i ≡ none
  address-end [] i e = refl
  address-end (n ∷ ns) zero e = absurd (omega arith)
  address-end (n ∷ ns) (suc i) e = address-end ns i (omega arith)

  free_nodes-Freed :
      (fuel : ℕ) (heap : Heap A) (ns : List (ℕ × A)) (i : ℕ)
      → Once ns
      → Rest heap ns i
      → i + fuel ≡ length ns
      → (heap' : Heap A) × (free_nodes fuel heap (address ns i) ≡ ok heap') × Freed ns i heap heap'
  unfolding free_nodes
  free_nodes-Freed zero heap ns i once rest e = (
    heap,
    ap (free_nodes zero heap) (address-end ns i (omega arith)),
    record {
      gone = λ j a x le has. absurd (omega (arith, elem-lt ns j (a, x) has));
      others = λ a out. refl;
      absent = λ a no_node. no_node;
    },
  )
  free_nodes-Freed (suc fuel) heap ns i once rest e =
      let (a, x, has, at) = address-elem ns i (omega arith) in
      let (heap', freed, left) =
        free_nodes-Freed fuel (put heap a none) ns (suc i) once
          (Rest-step heap ns i a x once has rest) (omega arith) in
      (
        heap',
        ap (free_nodes (suc fuel) heap) at
            ∙ ap (λ o. deref o >>= λ n. free_nodes fuel (put heap a none) n.next)
                (rest i a x (omega arith) has)
            ∙ freed,
        Freed-step heap heap' ns i a x once has left,
      )

  -- On a heap that holds a list of linked nodes, `dll_clear` with as much fuel as `length` says
  -- succeeds: it gives back each node of the list and nothing else, follows no pointer to a
  -- node that was given back, and leaves an empty list.
  pub dll_clear-frees :
      (heap : Heap A) (list : DoublyLinkedList) (ns : List (ℕ × A))
      → IsLinked heap list ns
      → (heap' : Heap A) × (dll_clear list.length heap (some list)
          ≡ ok (success, heap', some (record list { head = none; tail = none; length = 0 })))
        × IsLinked heap' (record list { head = none; tail = none; length = 0 }) []
        × ((j a : ℕ) (x : A) → get_elem? ns j ≡ some (a, x) → heap' a ≡ none)
        × ((a : ℕ) → ((j : ℕ) (x : A) → get_elem? ns j ≢ some (a, x)) → heap' a ≡ heap a)
  unfolding dll_clear
  dll_clear-frees heap list ns ok_list =
      let rest : Rest heap ns 0 = λ j a x le has. ok_list.linked j a x has in
      let (heap', freed, left) =
        free_nodes-Freed list.length heap ns 0 (positions heap ns rest) rest
          (omega (arith, ok_list.counted)) in
      (
        heap',
        ap
              (λ p. free_nodes list.length heap p >>= λ heap1.
                ok (success, heap1, some (record list { head = none; tail = none; length = 0 })))
              ok_list.first
            ∙ ap
                (λ r. r >>= λ heap1.
                  ok (success, heap1, some (record list { head = none; tail = none; length = 0 })))
                freed,
        record {
          counted = refl;
          first = refl;
          last = refl;
          linked = λ i a x has. absurd (ground arith);
        },
        (λ j a x has. left.gone j a x (omega arith) has),
        left.others,
      )
