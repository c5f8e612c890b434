-- ===== src/DoublyLinkedList/Remove.antt =====
-- `dll_remove_at` on a linked list.
use c_data_structures.Prelude.{
  ℕ, zero, suc, ◌-◌, ◌<◌, ◌≤◌, ◌≡◌, ◌≢◌, refl, ap, ap₂, ◌∙◌, sym, Bool, false, none, some, List,
  inl, inr, length, get_elem?, remove_at, elem-remove_at, length-remove_at, ◌==◌, leb,
  if◌then◌else◌, arith, Bool-cases,
}
use c_data_structures.Prelude.Int.{success}
use c_data_structures.Prelude.Run.{ok}
use c_data_structures.DoublyLinkedList.{DoublyLinkedList, Heap, put, dll_remove_at}
use c_data_structures.DoublyLinkedList.Linked.{IsLinked, address, before, address-elem}
use c_data_structures.DoublyLinkedList.Prepend.{put_self, put_other}
use c_data_structures.DoublyLinkedList.Relink.{past_both, past_both-node}
use c_data_structures.DoublyLinkedList.Places.{
  address-remove_lt, address-remove_ge, before-remove_le, before-remove_gt, apart,
}
use c_data_structures.DoublyLinkedList.Unlink.{unlinked, unlink-lem}

module _ {ℓ} {A : Type ℓ} where
  -- The heap without the node at position `k`: its two neighbours, where there are such, point at
  -- one another.
  abbrev Cut : Heap A → List (ℕ × A) → ℕ → Type ℓ
  Cut heap ns k =
      (i b : ℕ) (y : A)
      → get_elem? ns i ≡ some (b, y)
      → i ≢ k
      → heap b
        ≡ some (record {
          item = y;
          next = (if suc i == k then address ns (suc k) else address ns (suc i));
          prev = (if i == suc k then before ns k else before ns i);
        })

  next_before :
      (ns : List (ℕ × A)) (k i : ℕ)
      → i < k
      → (if suc i == k then address ns (suc k) else address ns (suc i))
        ≡ address (remove_at ns k) (suc i)
  next_before ns k i lt = elim (Bool-cases (suc i == k)) [
    | inl e ↦
        let at : suc i ≡ k = ground arith in
        rw e (sym (ap (address (remove_at ns k)) at ∙ address-remove_ge ns k k (omega arith)))
    | inr e ↦ rw e (sym (address-remove_lt ns k (suc i) (ground arith)))
  ]

  prev_after :
      (ns : List (ℕ × A)) (k i : ℕ)
      → k ≤ i
      → (if suc i == suc k then before ns k else before ns (suc i)) ≡ before (remove_at ns k) i
  prev_after ns k i le = elim (Bool-cases (suc i == suc k)) [
    | inl e ↦
        let at : i ≡ k = ground arith in
        rw e (sym (before-remove_le ns k i (omega arith) ∙ ap (before ns) at))
    | inr e ↦ rw e (sym (before-remove_gt ns k i (ground arith)))
  ]

  Cut-linked :
      (heap : Heap A) (ns : List (ℕ × A)) (k : ℕ)
      → Cut heap ns k
      → (i b : ℕ) (y : A) → get_elem? (remove_at ns k) i ≡ some (b, y)
      → heap b
        ≡ some (record {
          item = y;
          next = address (remove_at ns k) (suc i);
          prev = before (remove_at ns k) i;
        })
  Cut-linked heap ns k cut i b y has = elim (elem-remove_at ns k i (b, y) has) [
    | inl (lt, old) ↦
        let no : (i == suc k) ≡ false = ground arith in
        cut i b y old (omega arith)
        ∙ ap₂ (λ n p. some (record { item = y; next = n; prev = p })) (next_before ns k i lt)
            (rw no (sym (before-remove_le ns k i (omega arith))))
    | inr (le, old) ↦
        let no : (suc (suc i) == k) ≡ false = ground arith in
        cut (suc i) b y old (omega arith)
        ∙ ap₂ (λ n p. some (record { item = y; next = n; prev = p }))
            (rw no (sym (address-remove_ge ns k (suc i) (omega arith)))) (prev_after ns k i le)
  ]

  module _ {heap : Heap A} {list : DoublyLinkedList} {ns : List (ℕ × A)}
      (ok_list : IsLinked heap list ns) where
    unlinked-first : (k : ℕ) → (unlinked list ns k).head ≡ address (remove_at ns k) 0
    unlinked-first zero = sym (address-remove_ge ns 0 0 (omega arith))
    unlinked-first (suc j) =
        let no : (suc j == 0) ≡ false = ground arith in
        rw no (ok_list.first ∙ sym (address-remove_lt ns (suc j) 0 (omega arith)))

    unlinked-last :
        (k : ℕ)
        → k < length ns
        → (unlinked list ns k).tail ≡ before (remove_at ns k) (length (remove_at ns k))
    unlinked-last k below =
        let shorter = length-remove_at ns k below in
        elim (Bool-cases (suc k == length ns)) [
          | inl e ↦
              let count : length (remove_at ns k) ≡ k = ground (arith, shorter) in
              rw e
                (sym (ap (before (remove_at ns k)) count ∙ before-remove_le ns k k (omega arith)))
          | inr e ↦
              let inner : k < length (remove_at ns k) = ground (arith, shorter) in
              rw e (
                ok_list.last
                ∙ sym (
                    before-remove_gt ns k (length (remove_at ns k)) inner ∙ ap (before ns) shorter))
        ]

    unlinked-IsLinked :
        (k a : ℕ) (x : A)
        → (below : k < length ns) → get_elem? ns k ≡ some (a, x)
        → IsLinked
            (put (past_both ok_list k below) a none)
            (record (unlinked list ns k) { length = list.length - 1 })
            (remove_at ns k)
    unlinked-IsLinked k a x below has =
        let shorter = length-remove_at ns k below in
        record {
          counted = omega (arith, ok_list.counted, shorter);
          first = unlinked-first k;
          last = unlinked-last k below;
          linked = Cut-linked (put (past_both ok_list k below) a none) ns k (λ i b y has_b ne.
              put_other (past_both ok_list k below) a b none
                (apart ok_list i k b a y x has_b has ne)
              ∙ past_both-node ok_list k below (address ns (suc k)) refl i b y has_b);
        }

  -- On a heap that holds a list of linked nodes, `dll_remove_at` at an index below the length
  -- succeeds and hands out the element at that index if it is wanted; the new heap holds the
  -- list without that node, linked both ways, and the node's address holds nothing.
  pub dll_remove_at-cuts :
      (wanted : Bool) (heap : Heap A) (list : DoublyLinkedList) (ns : List (ℕ × A)) (k : ℕ)
      → IsLinked heap list ns
      → k < length ns
      → (a : ℕ) × (x : A) × (heap' : Heap A) × (list' : DoublyLinkedList) × (get_elem? ns k
          ≡ some (a, x))
        × (dll_remove_at wanted heap list k
            ≡ ok (success, if wanted then some x else none, heap', list'))
        × (heap' a ≡ none)
        × IsLinked heap' list' (remove_at ns k)
  unfolding dll_remove_at
  dll_remove_at-cuts wanted heap list ns k ok_list below =
      let (a, x, has, at) = address-elem ns k below in
      let inside : leb list.length k ≡ false = ground (arith, ok_list.counted, below) in
      let node = past_both-node ok_list k below (address ns (suc k)) refl k a x has in
      (
        a,
        x,
        put (past_both ok_list k below) a none,
        record (unlinked list ns k) { length = list.length - 1 },
        has,
        simp (inside, unlink-lem ok_list k a x below has at, node) refl,
        put_self (past_both ok_list k below) a none,
        unlinked-IsLinked ok_list k a x below has,
      )
