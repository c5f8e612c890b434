-- ===== src/DoublyLinkedList/Insert.antt =====
-- `dll_insert_at` on a linked list.
use mathlib.Core.Path.{subst}
use c_data_structures.Prelude.{
  ℕ, zero, suc, ◌+◌, ◌%◌, ◌<◌, ◌≤◌, ◌≡◌, ◌≢◌, refl, ap, ap₂, ◌∙◌, sym, true, false, none, some,
  List, inl, inr, length, get_elem?, insert_at, length-insert_at, insert_at-length, ◌==◌, ltb,
  if◌then◌else◌, arith, Bool-cases,
}
use c_data_structures.Prelude.Int.{success}
use c_data_structures.Prelude.Run.{ok}
use c_data_structures.Buffer.{size_mod}
use c_data_structures.DoublyLinkedList.{
  DListNode, DoublyLinkedList, Heap, put, walk_next, create_node, link_node, dll_insert_at,
  dll_prepend, dll_append,
}
use c_data_structures.DoublyLinkedList.Linked.{
  IsLinked, address, before, address-elem, walk_next-address,
}
use c_data_structures.DoublyLinkedList.Prepend.{
  put_self, put_other, set_next-ok, set_prev-ok, fresh-apart, dll_prepend-cons, one_more,
}
use c_data_structures.DoublyLinkedList.Append.{dll_append-snoc}
use c_data_structures.DoublyLinkedList.Places.{apart, same_node}
use c_data_structures.DoublyLinkedList.Splice.{
  Spliced, Spliced-linked, inserted-first, inserted-last,
}

inner_tests :
    (j n : ℕ)
    → suc j < n
    → (ltb n (suc j) ≡ false) × ((n == 0) ≡ false) × ((suc j == 0) ≡ false) × ((suc j == n) ≡ false)
inner_tests j n h = ground arith

module _ {ℓ} {A : Type ℓ} where
  put-IsLinked :
      {heap : Heap A} {list : DoublyLinkedList} {ns : List (ℕ × A)} (a : ℕ) (n : DListNode A)
      → IsLinked heap list ns
      → ((i b : ℕ) (y : A) → get_elem? ns i ≡ some (b, y) → b ≢ a)
      → IsLinked (put heap a (some n)) list ns
  put-IsLinked {heap} {list} {ns} a n ok_list away = record {
    counted = ok_list.counted;
    first = ok_list.first;
    last = ok_list.last;
    linked = (λ i b y has. put_other heap a b (some n) (away i b y has) ∙ ok_list.linked i b y has);
  }

  -- Between the nodes at the positions `j` and `suc j`.
  module _ (heap : Heap A) (list : DoublyLinkedList) (ns : List (ℕ × A)) (a : ℕ) (x : A) (j p c : ℕ)
      (u v : A) (ok_list : IsLinked heap list ns) (fresh : heap a ≡ none)
      (below : suc j < length ns) (has_p : get_elem? ns j ≡ some (p, u))
      (at_p : address ns j ≡ some p) (has_c : get_elem? ns (suc j) ≡ some (c, v))
      (at_c : address ns (suc j) ≡ some c) where
    abbrev first_node : DListNode A
    first_node = record { item = x; next = none; prev = none }

    abbrev with_node : Heap A
    with_node = put heap a (some first_node)

    abbrev with_next : Heap A
    with_next = put with_node a (some (record { item = x; next = some c; prev = none }))

    abbrev with_both : Heap A
    with_both = put with_next a (some (record { item = x; next = some c; prev = some p }))

    abbrev after_p : Heap A
    after_p = put with_both p (some (record { item = u; next = some a; prev = before ns j }))

    spliced_heap : Heap A
    spliced_heap =
        put after_p c (some (record { item = v; next = address ns (suc (suc j)); prev = some a }))

    away : (i b : ℕ) (y : A) → get_elem? ns i ≡ some (b, y) → b ≢ a
    away i b y has = fresh-apart heap list ns a i b y ok_list fresh has

    with_node-IsLinked : IsLinked with_node list ns
    with_node-IsLinked = put-IsLinked a first_node ok_list away

    with_both-IsLinked : IsLinked with_both list ns
    with_both-IsLinked =
        put-IsLinked a (record { item = x; next = some c; prev = some p })
          (put-IsLinked a (record { item = x; next = some c; prev = none }) with_node-IsLinked away)
          away

    c_apart : c ≢ p
    c_apart = apart ok_list (suc j) j c p v u has_c has_p (omega arith)

    node_p : with_both p ≡ some (record { item = u; next = some c; prev = before ns j })
    node_p =
        with_both-IsLinked.linked j p u has_p
        ∙ ap (λ n. some (record { item = u; next = n; prev = before ns j })) at_c

    node_c :
        with_both c ≡ some (record { item = v; next = address ns (suc (suc j)); prev = some p })
    node_c =
        with_both-IsLinked.linked (suc j) c v has_c
        ∙ ap (λ q. some (record { item = v; next = address ns (suc (suc j)); prev = q })) at_p

    spliced_heap-kept :
        (i b : ℕ) (y : A)
        → get_elem? ns i ≡ some (b, y)
        → spliced_heap b
          ≡ some (record {
            item = y;
            next = (if suc i == suc j then some a else address ns (suc i));
            prev = (if i == suc j then some a else before ns i);
          })
    unfolding spliced_heap
    spliced_heap-kept i b y has = elim (Bool-cases (i == suc j)) [
      | inl e ↦
          let at : i ≡ suc j = ground arith in
          let no : (suc i == suc j) ≡ false = ground arith in
          let (b_eq, y_eq) = same_node ns i (suc j) b c y v has has_c at in
          ap spliced_heap b_eq
          ∙ (put_self after_p c
                (some (record { item = v; next = address ns (suc (suc j)); prev = some a }))
              ∙ rw (e, no)
                  (ap₂ (λ w t. some (record { item = w; next = address ns (suc t); prev = some a }))
                    (sym y_eq) (sym at)))
      | inr e ↦ elim (Bool-cases (suc i == suc j)) [
        | inl e' ↦
            let at : i ≡ j = ground arith in
            let (b_eq, y_eq) = same_node ns i j b p y u has has_p at in
            ap spliced_heap b_eq
            ∙ (put_other after_p c p _ (λ h. c_apart (sym h))
                ∙ (put_self with_both p
                      (some (record { item = u; next = some a; prev = before ns j }))
                    ∙ rw (e, e')
                        (ap₂ (λ w t. some (record { item = w; next = some a; prev = before ns t }))
                          (sym y_eq) (sym at))))
        | inr e' ↦
            put_other after_p c b _ (apart ok_list i (suc j) b c y v has has_c (ground arith))
            ∙ (put_other with_both p b _ (apart ok_list i j b p y u has has_p (ground arith))
                ∙ (with_both-IsLinked.linked i b y has ∙ rw (e, e') refl))
      ]
    ]

    spliced_heap-Spliced : Spliced spliced_heap ns (suc j) a x
    unfolding spliced_heap
    spliced_heap-Spliced = record {
      new =
          put_other after_p c a _ (λ e. away (suc j) c v has_c (sym e))
          ∙ (put_other with_both p a _ (λ e. away j p u has_p (sym e))
              ∙ (put_self with_next a (some (record { item = x; next = some c; prev = some p }))
                  ∙ ap₂ (λ n q. some (record { item = x; next = n; prev = q })) (sym at_c)
                      (sym at_p)));
      kept = spliced_heap-kept;
    }

    insert_inner :
        dll_insert_at (some a) true heap list (suc j) x
        ≡ ok (success, spliced_heap, record list { length = (list.length + 1) % size_mod })
    unfolding dll_insert_at create_node link_node spliced_heap
    insert_inner =
        let (not_over, not_empty, not_front, not_end) =
          inner_tests j list.length (omega (arith, ok_list.counted, below)) in
        let walked : walk_next (suc j) with_node list.head ≡ ok (some c) =
          ap (walk_next (suc j) with_node) ok_list.first
          ∙ (walk_next-address with_node-IsLinked (suc j) 0 (suc j) (omega arith) below
              ∙ ap ok at_c) in
        let c_new : (c == a) ≡ false = ground (arith, away (suc j) c v has_c) in
        let old_c : heap c
            ≡ some (record { item = v; next = address ns (suc (suc j)); prev = some p }) =
          ok_list.linked (suc j) c v has_c
          ∙ ap (λ q. some (record { item = v; next = address ns (suc (suc j)); prev = q })) at_p in
        simp
          (
            not_over,
            not_empty,
            not_front,
            not_end,
            walked,
            set_next-ok with_node a (some c) first_node (put_self heap a (some first_node)),
            c_new,
            old_c,
            set_prev-ok with_next a (some p) (record { item = x; next = some c; prev = none })
                (put_self with_node a (some (record { item = x; next = some c; prev = none }))),
            set_next-ok with_both p (some a) _ node_p,
            set_prev-ok after_p c (some a) _ (put_other with_both p c _ c_apart ∙ node_c),
          )
          refl

  -- On a heap that holds a list of linked nodes, whose number plus one fits a `size_t`,
  -- `dll_insert_at` at any index up to the length, with the memory granted at an address where
  -- no node lives, succeeds, and the new heap holds the list with the new node at that index,
  -- linked both ways.
  pub dll_insert_at-splices :
      (heap : Heap A) (list : DoublyLinkedList) (ns : List (ℕ × A)) (k a : ℕ) (x : A)
      → IsLinked heap list ns
      → heap a ≡ none
      → length ns + 1 < size_mod
      → k ≤ length ns
      → (heap' : Heap A) × (list' : DoublyLinkedList) × (dll_insert_at (some a) true heap list k x
          ≡ ok (success, heap', list'))
        × IsLinked heap' list' (insert_at ns k (a, x))
  unfolding dll_prepend dll_append
  dll_insert_at-splices heap list ns zero a x ok_list fresh room le =
      dll_prepend-cons heap list ns a x ok_list fresh room
  dll_insert_at-splices heap list ns (suc j) a x ok_list fresh room le =
      elim (Bool-cases (suc j == length ns)) [
        | inl e ↦
            let at : suc j ≡ length ns = ground arith in
            let (heap', list', run, linked) = dll_append-snoc heap list ns a x ok_list fresh room in
            (
              heap',
              list',
              ap (λ i. dll_insert_at (some a) true heap list i x) (at ∙ sym ok_list.counted) ∙ run,
              subst (IsLinked heap' list')
                  (sym (ap (λ i. insert_at ns i (a, x)) at ∙ insert_at-length ns (a, x))) linked,
            )
        | inr e ↦
            let below : suc j < length ns = ground arith in
            let (p, u, has_p, at_p) = address-elem ns j (omega arith) in
            let (c, v, has_c, at_c) = address-elem ns (suc j) below in
            (
              spliced_heap heap list ns a x j p c u v ok_list fresh below has_p at_p has_c at_c,
              record list { length = (list.length + 1) % size_mod },
              insert_inner heap list ns a x j p c u v ok_list fresh below has_p at_p has_c at_c,
              record {
                counted =
                    one_more list.length (length ns) ok_list.counted room
                    ∙ sym (length-insert_at ns (suc j) (a, x) le);
                first = ok_list.first ∙ sym (inserted-first ns j (a, x) below);
                last =
                    ok_list.last
                    ∙ sym (
                        ap (before (insert_at ns (suc j) (a, x)))
                          (length-insert_at ns (suc j) (a, x) le)
                        ∙ inserted-last ns j (a, x) below);
                linked =
                    Spliced-linked _ ns (suc j) a x
                      (spliced_heap-Spliced heap list ns a x j p c u v ok_list fresh below has_p
                        at_p has_c at_c)
                      le;
              },
            )
      ]
