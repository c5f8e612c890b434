-- ===== src/DoublyLinkedList/Unlink.antt =====
-- `dll_remove_at` of a linked list up to the removal of the node from the heap: the choice of the
-- node and the links round it.
use c_data_structures.Prelude.{
  ℕ, zero, suc, ◌-◌, ◌<◌, ◌≡◌, ◌≢◌, refl, ap, ap₂, ◌∙◌, sym, true, false, Option, none, some, List,
  inl, inr, length, get_elem?, ◌==◌, if◌then◌else◌, arith, eq_of_some, Bool-cases,
}
use c_data_structures.Prelude.Run.{ok}
use c_data_structures.DoublyLinkedList.{DoublyLinkedList, Heap, walk_next, unlink_node}
use c_data_structures.DoublyLinkedList.Linked.{
  IsLinked, address, before, address-elem, walk_next-address,
}
use c_data_structures.DoublyLinkedList.Append.{address-beyond}
use c_data_structures.DoublyLinkedList.Relink.{
  address-lt, address-none, write_next, past_both, set_next-write, set_prev-write, past_next-node,
}

module _ {ℓ} {A : Type ℓ} where
  -- The structure after the node at position `k` is unlinked.
  abbrev pub unlinked : DoublyLinkedList → List (ℕ × A) → ℕ → DoublyLinkedList
  unlinked list ns k = record list {
    head = (if k == 0 then address ns 1 else list.head);
    tail = (if suc k == length ns then before ns k else list.tail);
  }

  module _ {heap : Heap A} {list : DoublyLinkedList} {ns : List (ℕ × A)}
      (ok_list : IsLinked heap list ns) where
    own_node :
        (k a : ℕ) (x : A) (next prev : Option ℕ)
        → get_elem? ns k ≡ some (a, x)
        → address ns (suc k) ≡ next
        → before ns k ≡ prev
        → heap a ≡ some (record { item = x; next = next; prev = prev })
    own_node k a x next prev has after previous =
        ok_list.linked k a x has
        ∙ ap₂ (λ n p. some (record { item = x; next = n; prev = p })) after previous

    unlink_first :
        (a : ℕ) (x : A) (o : Option ℕ)
        → (below : 0 < length ns) → get_elem? ns 0 ≡ some (a, x)
        → address ns 0 ≡ some a
        → address ns 1 ≡ o
        → unlink_node heap list 0 ≡ ok (some a, past_both ok_list 0 below, unlinked list ns 0)
    unfolding unlink_node
    unlink_first a x none below has at after =
        let only : (1 == length ns) ≡ true = ground (arith, address-none ns 1 after, below) in
        simp (ok_list.first ∙ at, own_node 0 a x none none has after refl, after, only) refl
    unlink_first a x (some s) below has at after =
        let more : (1 == length ns) ≡ false = ground (arith, address-lt ns 1 s after) in
        let (s', w, has_s, at_s) = address-elem ns 1 (address-lt ns 1 s after) in
        let s_eq : s' ≡ s = eq_of_some (sym at_s ∙ after) in
        let node = ap heap (sym s_eq) ∙ ok_list.linked 1 s' w has_s in
        simp
          (
            ok_list.first ∙ at,
            own_node 0 a x (some s) none has after refl,
            after,
            more,
            set_prev-write heap s none _ node,
          )
          refl

    unlink_last :
        (j a : ℕ) (x : A)
        → (below : suc j < length ns) → get_elem? ns (suc j) ≡ some (a, x)
        → address ns (suc j) ≡ some a
        → suc (suc j) ≡ length ns
        → unlink_node heap list (suc j)
          ≡ ok (some a, past_both ok_list (suc j) below, unlinked list ns (suc j))
    unfolding unlink_node
    unlink_last j a x below has at last =
        let (p, u, has_p, at_p) = address-elem ns j (omega arith) in
        let beyond = address-beyond ns (suc (suc j)) (omega (arith, last)) in
        let not_first : (suc j == 0) ≡ false = ground arith in
        let end : (suc j == list.length - 1) ≡ true = ground (arith, ok_list.counted, last) in
        let whole : (suc (suc j) == length ns) ≡ true = ground (arith, last) in
        let tail_eq : list.tail ≡ some a = ok_list.last ∙ (ap (before ns) (sym last) ∙ at) in
        simp
          (
            not_first,
            end,
            whole,
            tail_eq,
            own_node (suc j) a x none (some p) has beyond at_p,
            beyond,
            at_p,
            set_next-write heap p none _ (ok_list.linked j p u has_p),
          )
          refl

    -- A node after the first write, where the neighbours are at `p` and `s`.
    node_past_next :
        (j p s i b : ℕ) (y : A)
        → suc j < length ns
        → address ns j ≡ some p
        → address ns (suc (suc j)) ≡ some s
        → get_elem? ns i ≡ some (b, y)
        → i ≢ j
        → write_next heap (some p) (some s) b
          ≡ some (record { item = y; next = address ns (suc i); prev = before ns i })
    node_past_next j p s i b y below at_p at_s has ne =
        let no : (suc i == suc j) ≡ false = ground arith in
        ap₂ (λ q v. write_next heap q v b) (sym at_p) (sym at_s)
        ∙ (past_next-node ok_list (suc j) below (suc j) refl i b y has
            ∙ ap (λ n. some (record { item = y; next = n; prev = before ns i })) (rw no refl))

    unlink_inner :
        (j a : ℕ) (x : A)
        → (below : suc j < length ns) → get_elem? ns (suc j) ≡ some (a, x)
        → address ns (suc j) ≡ some a
        → suc (suc j) < length ns
        → unlink_node heap list (suc j)
          ≡ ok (some a, past_both ok_list (suc j) below, unlinked list ns (suc j))
    unfolding unlink_node
    unlink_inner j a x below has at inner =
        let (p, u, has_p, at_p) = address-elem ns j (omega arith) in
        let (s, w, has_s, at_s) = address-elem ns (suc (suc j)) inner in
        let not_first : (suc j == 0) ≡ false = ground arith in
        let not_last : (suc j == list.length - 1) ≡ false =
          ground (arith, ok_list.counted, inner) in
        let not_whole : (suc (suc j) == length ns) ≡ false = ground (arith, inner) in
        let walked : walk_next (suc j) heap list.head ≡ ok (some a) =
          ap (walk_next (suc j) heap) ok_list.first
          ∙ (walk_next-address ok_list (suc j) 0 (suc j) (omega arith) below ∙ ap ok at) in
        let node_a =
          node_past_next j p s (suc j) a x below at_p at_s has (omega arith)
          ∙ ap₂ (λ n q. some (record { item = x; next = n; prev = q })) at_s at_p in
        let node_s = node_past_next j p s (suc (suc j)) s w below at_p at_s has_s (omega arith) in
        simp
          (
            not_first,
            not_last,
            not_whole,
            walked,
            own_node (suc j) a x (some s) (some p) has at_s at_p,
            at_p,
            at_s,
            set_next-write heap p (some s) _ (ok_list.linked j p u has_p),
            node_a,
            set_prev-write (write_next heap (some p) (some s)) s (some p) _ node_s,
          )
          refl

    pub unlink-lem :
        (k a : ℕ) (x : A)
        → (below : k < length ns) → get_elem? ns k ≡ some (a, x)
        → address ns k ≡ some a
        → unlink_node heap list k ≡ ok (some a, past_both ok_list k below, unlinked list ns k)
    unlink-lem zero a x below has at = unlink_first a x (address ns 1) below has at refl
    unlink-lem (suc j) a x below has at = elim (Bool-cases (suc (suc j) == length ns)) [
      | inl e ↦ unlink_last j a x below has at (ground arith)
      | inr e ↦ unlink_inner j a x below has at (ground arith)
    ]
