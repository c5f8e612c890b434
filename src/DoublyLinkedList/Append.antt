-- ===== src/DoublyLinkedList/Append.antt =====
-- `dll_append` on a linked list that is not empty.
use mathlib.Core.Path.{subst}
use c_data_structures.Prelude.{
  ℕ, zero, suc, ◌+◌, ◌%◌, ◌<◌, ◌≤◌, ◌≡◌, ◌≢◌, refl, ap, ap₂, ◌∙◌, sym, true, false, none, some,
  List, [], ◌∷◌, ◌++◌, ◌⊎◌, inl, inr, length, get_elem?, ◌==◌, ltb, arith, eq_of_some, Bool-cases,
  length-append,
}
use c_data_structures.Prelude.Int.{success}
use c_data_structures.Prelude.Run.{ok}
use c_data_structures.Buffer.{size_mod}
use c_data_structures.DoublyLinkedList.{
  DListNode, DoublyLinkedList, Heap, put, create_node, link_node, dll_insert_at, dll_append,
  dll_prepend,
}
use c_data_structures.DoublyLinkedList.Linked.{IsLinked, address, before, address-elem}
use c_data_structures.DoublyLinkedList.Prepend.{
  put_self, put_other, set_next-ok, set_prev-ok, fresh-apart, dll_prepend-cons, one_more,
}

end_tests :
    (k : ℕ) → (ltb (suc k) (suc k) ≡ false) × ((suc k == 0) ≡ false) × ((suc k == suc k) ≡ true)
end_tests k = ground arith

module _ {ℓ} {A : Type ℓ} where
  address-append :
      (ns ms : List (ℕ × A)) (i : ℕ) → i < length ns → address (ns ++ ms) i ≡ address ns i
  address-append [] ms i lt = ground arith
  address-append (n ∷ ns) ms zero lt = refl
  address-append (n ∷ ns) ms (suc i) lt = address-append ns ms i (omega arith)

  address-end :
      (ns : List (ℕ × A)) (a i : ℕ) (x : A)
      → i ≡ length ns
      → address (ns ++ ((a, x) ∷ [])) i ≡ some a
  address-end [] a zero x e = refl
  address-end [] a (suc i) x e = ground arith
  address-end (n ∷ ns) a zero x e = ground arith
  address-end (n ∷ ns) a (suc i) x e = address-end ns a i x (omega arith)

  pub address-beyond : (ns : List (ℕ × A)) (i : ℕ) → length ns ≤ i → address ns i ≡ none
  address-beyond [] i le = refl
  address-beyond (n ∷ ns) zero le = ground arith
  address-beyond (n ∷ ns) (suc i) le = address-beyond ns i (omega arith)

  before-append : (ns ms : List (ℕ × A)) (i : ℕ) → i ≤ length ns → before (ns ++ ms) i ≡ before ns i
  before-append ns ms zero le = refl
  before-append ns ms (suc i) le = address-append ns ms i (omega arith)

  elem-append :
      (ns : List (ℕ × A)) (a i b : ℕ) (x y : A)
      → get_elem? (ns ++ ((a, x) ∷ [])) i ≡ some (b, y)
      → ((i < length ns) × (get_elem? ns i ≡ some (b, y))) ⊎ ((i ≡ length ns) × (a ≡ b) × (x ≡ y))
  elem-append [] a zero b x y e =
      inr (refl, ap (λ (p : ℕ × A). p.0) (eq_of_some e), ap (λ (p : ℕ × A). p.1) (eq_of_some e))
  elem-append [] a (suc i) b x y e = ground arith
  elem-append (n ∷ ns) a zero b x y e = inl (omega arith, e)
  elem-append (n ∷ ns) a (suc i) b x y e = elim (elem-append ns a i b x y e) [
    | inl (lt, has) ↦ inl (omega arith, has)
    | inr (at, same_a, same_x) ↦ inr (omega arith, same_a, same_x)
  ]

  -- The last of the nodes `ns`, at position `k` with the address `t` and the element `z`, and a new
  -- node at `a`.
  module _ (heap : Heap A) (list : DoublyLinkedList) (ns : List (ℕ × A)) (a : ℕ) (x : A) (k t : ℕ)
      (z : A) (ok_list : IsLinked heap list ns) (fresh : heap a ≡ none) (size : length ns ≡ suc k)
      (last_has : get_elem? ns k ≡ some (t, z)) (last_at : address ns k ≡ some t) where
    abbrev with_new : Heap A
    with_new = put heap a (some (record { item = x; next = none; prev = none }))

    abbrev with_prev : Heap A
    with_prev = put with_new a (some (record { item = x; next = none; prev = some t }))

    appended : Heap A
    appended = put with_prev t (some (record { item = z; next = some a; prev = before ns k }))

    last_apart : t ≢ a
    last_apart = fresh-apart heap list ns a k t z ok_list fresh last_has

    last_node : heap t ≡ some (record { item = z; next = none; prev = before ns k })
    last_node =
        ok_list.linked k t z last_has
        ∙ ap (λ n. some (record { item = z; next = n; prev = before ns k }))
            (address-beyond ns (suc k) (omega (arith, size)))

    -- A node before the last one has another address.
    inner_apart : (i b : ℕ) (y : A) → i < k → get_elem? ns i ≡ some (b, y) → b ≢ t
    inner_apart i b y lt has e =
        let (c, w, has', at) = address-elem ns (suc i) (omega (arith, size)) in
        let same = sym (ok_list.linked i b y has) ∙ ap heap e ∙ last_node in
        let nexts = ap (λ (m : DListNode A). m.next) (eq_of_some same) in
        absurd (ground (arith, sym at ∙ nexts))

    untouched : (b : ℕ) → b ≢ a → b ≢ t → appended b ≡ heap b
    unfolding appended
    untouched b ne_a ne_t =
        put_other with_prev t b _ ne_t ∙ (put_other with_new a b _ ne_a ∙ put_other heap a b _ ne_a)

    appended-linked :
        (i b : ℕ) (y : A)
        → get_elem? (ns ++ ((a, x) ∷ [])) i ≡ some (b, y)
        → appended b
          ≡ some (record {
            item = y;
            next = address (ns ++ ((a, x) ∷ [])) (suc i);
            prev = before (ns ++ ((a, x) ∷ [])) i;
          })
    unfolding appended
    appended-linked i b y has = elim (elem-append ns a i b x y has) [
      | inl (lt, old) ↦ elim (Bool-cases (i == k)) [
        | inl e ↦
            let at : i ≡ k = ground arith in
            let found = sym (subst (λ j. get_elem? ns j ≡ some (b, y)) at old) ∙ last_has in
            let b_eq : b ≡ t = ap (λ (p : ℕ × A). p.0) (eq_of_some found) in
            let y_eq : y ≡ z = ap (λ (p : ℕ × A). p.1) (eq_of_some found) in
            let next_eq : address (ns ++ ((a, x) ∷ [])) (suc i) ≡ some a =
              address-end ns a (suc i) x (omega (arith, size)) in
            let prev_eq : before (ns ++ ((a, x) ∷ [])) i ≡ before ns k =
              before-append ns ((a, x) ∷ []) i (omega arith) ∙ ap (before ns) at in
            ap appended b_eq
            ∙ (put_self with_prev t (some (record { item = z; next = some a; prev = before ns k }))
                ∙ (ap (λ w. some (record { item = w; next = some a; prev = before ns k }))
                      (sym y_eq)
                    ∙ ap₂ (λ n p. some (record { item = y; next = n; prev = p })) (sym next_eq)
                        (sym prev_eq)))
        | inr ne ↦
            let inner : i < k = ground (arith, size) in
            untouched b (fresh-apart heap list ns a i b y ok_list fresh old)
              (inner_apart i b y inner old)
            ∙ (ok_list.linked i b y old
                ∙ ap₂ (λ n p. some (record { item = y; next = n; prev = p }))
                    (sym (address-append ns ((a, x) ∷ []) (suc i) (omega (arith, size))))
                    (sym (before-append ns ((a, x) ∷ []) i (omega arith))))
      ]
      | inr (at, a_eq, x_eq) ↦
          let next_eq : address (ns ++ ((a, x) ∷ [])) (suc i) ≡ none =
            address-beyond (ns ++ ((a, x) ∷ [])) (suc i)
              (omega (arith, length-append ns ((a, x) ∷ []))) in
          let prev_eq : before (ns ++ ((a, x) ∷ [])) i ≡ some t =
            before-append ns ((a, x) ∷ []) i (omega arith)
            ∙ (ap (before ns) (at ∙ size) ∙ last_at) in
          ap appended (sym a_eq)
          ∙ (put_other with_prev t a _ (λ e. last_apart (sym e))
              ∙ (put_self with_new a (some (record { item = x; next = none; prev = some t }))
                  ∙ (ap (λ w. some (record { item = w; next = none; prev = some t })) x_eq
                      ∙ ap₂ (λ n p. some (record { item = y; next = n; prev = p })) (sym next_eq)
                          (sym prev_eq))))
    ]

    append_last :
        dll_append (some a) true heap list x
        ≡ ok (
          success,
          appended,
          record list { tail = some a; length = (list.length + 1) % size_mod },
        )
    unfolding dll_append dll_insert_at create_node link_node appended
    append_last =
        let tail_eq : list.tail ≡ some t = ok_list.last ∙ (ap (before ns) size ∙ last_at) in
        let count_eq : list.length ≡ suc k = ok_list.counted ∙ size in
        let (not_more, not_empty, at_end) = end_tests k in
        simp
          (
            count_eq,
            tail_eq,
            not_more,
            not_empty,
            at_end,
            set_prev-ok with_new a (some t) _
                (put_self heap a (some (record { item = x; next = none; prev = none }))),
            set_next-ok with_prev t (some a) (record { item = z; next = none; prev = before ns k })
                (put_other with_new a t _ last_apart
                  ∙ (put_other heap a t _ last_apart ∙ last_node)),
          )
          refl

    append_last-IsLinked :
        length ns + 1 < size_mod
        → IsLinked appended
            (record list { tail = some a; length = (list.length + 1) % size_mod })
            (ns ++ ((a, x) ∷ []))
    append_last-IsLinked room =
        let longer = length-append ns ((a, x) ∷ []) in
        let len_eq : length (ns ++ ((a, x) ∷ [])) ≡ suc (length ns) = omega (arith, longer) in
        record {
          counted = one_more list.length (length ns) ok_list.counted room ∙ sym len_eq;
          first = ok_list.first ∙ sym (address-append ns ((a, x) ∷ []) 0 (omega (arith, size)));
          last =
              sym (ap (before (ns ++ ((a, x) ∷ []))) len_eq ∙ address-end ns a (length ns) x refl);
          linked = appended-linked;
        }

  append-prepend :
      (heap : Heap A) (list : DoublyLinkedList) (a : ℕ) (x : A)
      → list.length ≡ 0
      → dll_append (some a) true heap list x ≡ dll_prepend (some a) true heap list x
  unfolding dll_append dll_prepend
  append-prepend heap list a x e = ap (λ i. dll_insert_at (some a) true heap list i x) e

  -- On a heap that holds a list of linked nodes, whose number plus one fits a `size_t`,
  -- `dll_append` with the memory granted at an address where no node lives succeeds, and the new heap holds the list with the new node
  -- behind the others, linked both ways.
  pub dll_append-snoc :
      (heap : Heap A) (list : DoublyLinkedList) (ns : List (ℕ × A)) (a : ℕ) (x : A)
      → IsLinked heap list ns
      → heap a ≡ none
      → length ns + 1 < size_mod
      → (heap' : Heap A) × (list' : DoublyLinkedList) × (dll_append (some a) true heap list x
          ≡ ok (success, heap', list'))
        × IsLinked heap' list' (ns ++ ((a, x) ∷ []))
  dll_append-snoc heap list [] a x ok_list fresh room =
      let (heap', list', run, linked) = dll_prepend-cons heap list [] a x ok_list fresh room in
      (heap', list', append-prepend heap list a x ok_list.counted ∙ run, linked)
  dll_append-snoc heap list (n ∷ ns) a x ok_list fresh room =
      let (t, z, has, at) = address-elem (n ∷ ns) (length ns) (omega arith) in
      (
        appended heap list (n ∷ ns) a x (length ns) t z ok_list fresh (omega arith) has at,
        record list { tail = some a; length = (list.length + 1) % size_mod },
        append_last heap list (n ∷ ns) a x (length ns) t z ok_list fresh (omega arith) has at,
        append_last-IsLinked heap list (n ∷ ns) a x (length ns) t z ok_list fresh (omega arith) has
            at room,
      )
