-- ===== src/DoublyLinkedList/Access.antt =====
-- `dll_get_at` from both ends.
use c_data_structures.Prelude.{
  ℕ, ◌-◌, ◌/◌, ◌<◌, ◌≡◌, inl, inr, ap, ◌∙◌, false, Option, some, List, length, get_elem?, ltb, leb,
  arith, Bool-cases,
}
use c_data_structures.Prelude.Int.{ℤ, success}
use c_data_structures.Prelude.Run.{Run, ok, ◌>>=◌}
use c_data_structures.DoublyLinkedList.{
  DoublyLinkedList, Heap, node_at, walk_next, walk_prev, dll_get_at,
}
use c_data_structures.DoublyLinkedList.Linked.{
  IsLinked, node_at-address, walk_next-address, walk_prev-address, before-address,
}

leb-false : (a b : ℕ) → b < a → leb a b ≡ false
leb-false a b h = ground arith

module _ {ℓ} {A : Type ℓ} where
  -- What follows the walk of `dll_get_at`.
  abbrev item_at : Heap A → Option ℕ → Run (ℤ × Option A)
  item_at heap p = node_at heap p >>= λ n. ok (success, some n.item)

  -- On a heap that holds a list of linked nodes, `dll_get_at` of an index in range succeeds
  -- with the element at that index, both where it walks from the head and where it walks from
  -- the tail.
  pub dll_get_at-elem :
      (heap : Heap A) (list : DoublyLinkedList) (ns : List (ℕ × A)) (i : ℕ)
      → IsLinked heap list ns
      → i < length ns
      → (a : ℕ) × (x : A) × (get_elem? ns i ≡ some (a, x))
        × (dll_get_at heap list i ≡ ok (success, some x))
  unfolding dll_get_at
  dll_get_at-elem heap list ns i ok_list h =
      let (a, x, has, e) = node_at-address ok_list i h in
      let found = ap (λ r. r >>= λ n. ok (success, some n.item)) e in
      let from_head =
        ap (λ p. walk_next i heap p >>= item_at heap) ok_list.first
        ∙ ap (λ r. r >>= item_at heap) (walk_next-address ok_list i 0 i (omega arith) h)
        ∙ found in
      let from_tail =
        ap (λ p. walk_prev (list.length - 1 - i) heap p >>= item_at heap)
          (ok_list.last ∙ before-address ns (length ns) (omega arith))
        ∙ ap (λ r. r >>= item_at heap)
            (walk_prev-address ok_list (list.length - 1 - i) i (length ns - 1)
              (omega (arith, ok_list.counted)) (omega arith))
        ∙ found in
      (
        a,
        x,
        has,
        simp (leb-false list.length i (omega (arith, ok_list.counted)))
            (elim (Bool-cases (ltb i (list.length / 2))) [
              | inl near ↦ simp near from_head
              | inr far ↦ simp far from_tail
            ]),
      )
