-- ===== src/DoublyLinkedList/Prepend.antt =====
-- `dll_prepend` on a linked list.
use mathlib.Core.Path.{subst}
use native.Mathlib.Nat.{mod-eq_of_lt}
use c_data_structures.Prelude.{
  ℕ, zero, suc, ◌+◌, ◌%◌, ◌<◌, ◌≡◌, ◌≢◌, refl, ap, ◌∙◌, sym, true, false, Option, none, some, List,
  [], ◌∷◌, length, get_elem?, ◌==◌, ltb, arith, eq_of_some,
}
use c_data_structures.Prelude.Int.{success}
use c_data_structures.Prelude.Run.{ok}
use c_data_structures.Buffer.{size_mod}
use c_data_structures.DoublyLinkedList.{
  DListNode, DoublyLinkedList, Heap, put, set_next, set_prev, create_node, link_node, dll_insert_at,
  dll_prepend,
}
use c_data_structures.DoublyLinkedList.Linked.{IsLinked, address, before}

suc-positive : (n : ℕ) → (ltb (suc n) 0 ≡ false) × ((suc n == 0) ≡ false)
suc-positive n = ground arith

-- The `size_t` that counts one more.
pub one_more : (m n : ℕ) → m ≡ n → n + 1 < size_mod → (m + 1) % size_mod ≡ suc n
one_more m n e room = ap (λ k. (k + 1) % size_mod) e ∙ (mod-eq_of_lt room ∙ omega arith)

module _ {ℓ} {A : Type ℓ} where
  pub put_self : (heap : Heap A) (a : ℕ) (n : Option (DListNode A)) → put heap a n a ≡ n
  put_self heap a n = ground arith

  pub put_other :
      (heap : Heap A) (a b : ℕ) (n : Option (DListNode A)) → b ≢ a → put heap a n b ≡ heap b
  put_other heap a b n ne = ground arith

  pub set_next-ok :
      (heap : Heap A) (a : ℕ) (q : Option ℕ) (n : DListNode A)
      → heap a ≡ some n
      → set_next heap (some a) q ≡ ok (put heap a (some (record n { next = q })))
  unfolding set_next
  set_next-ok heap a q n e = rw e refl

  pub set_prev-ok :
      (heap : Heap A) (a : ℕ) (q : Option ℕ) (n : DListNode A)
      → heap a ≡ some n
      → set_prev heap (some a) q ≡ ok (put heap a (some (record n { prev = q })))
  unfolding set_prev
  set_prev-ok heap a q n e = rw e refl

  -- The heap that holds no node at `a` holds none of the list's nodes there.
  pub fresh-apart :
      (heap : Heap A) (list : DoublyLinkedList) (ns : List (ℕ × A)) (a i b : ℕ) (y : A)
      → IsLinked heap list ns
      → heap a ≡ none
      → get_elem? ns i ≡ some (b, y)
      → b ≢ a
  fresh-apart heap list ns a i b y ok_list fresh has e =
      absurd (ground (arith, ok_list.linked i b y has, ap heap e))

  previous-some :
      (n : ℕ × A) (ns : List (ℕ × A)) (i b : ℕ) (y : A)
      → get_elem? ns i ≡ some (b, y)
      → (c : ℕ) × (address (n ∷ ns) i ≡ some c)
  previous-some n [] i b y has = absurd (ground arith)
  previous-some n (m ∷ ns) zero b y has = (n.0, refl)
  previous-some n (m ∷ ns) (suc i) b y has = previous-some m ns i b y has

  -- The first node's address is no other node's.
  head-apart :
      (heap : Heap A) (list : DoublyLinkedList) (n : ℕ × A) (ns : List (ℕ × A)) (i b : ℕ) (y : A)
      → IsLinked heap list (n ∷ ns)
      → get_elem? ns i ≡ some (b, y)
      → b ≢ n.0
  head-apart heap list n ns i b y ok_list has e =
      let (c, before_b) = previous-some n ns i b y has in
      let same = sym (ok_list.linked (suc i) b y has) ∙ ap heap e ∙ ok_list.linked 0 n.0 n.1 refl in
      let prevs = ap (λ (m : DListNode A). m.prev) (eq_of_some same) in
      absurd (ground (arith, sym before_b ∙ prevs))

  -- A new node at `a` before the nodes `ns`.
  prepended : Heap A → ℕ → A → List (ℕ × A) → Heap A
  prepended heap a x [] = put heap a (some (record { item = x; next = none; prev = none }))
  prepended heap a x (n ∷ ns) =
      put
        (put (put heap a (some (record { item = x; next = none; prev = none }))) a
          (some (record { item = x; next = some n.0; prev = none })))
        n.0 (some (record { item = n.1; next = address ns 0; prev = some a }))

  prepended-linked :
      (heap : Heap A) (list : DoublyLinkedList) (ns : List (ℕ × A)) (a : ℕ) (x : A)
      → IsLinked heap list ns
      → heap a ≡ none
      → (i b : ℕ) (y : A) → get_elem? ((a, x) ∷ ns) i ≡ some (b, y)
      → prepended heap a x ns b
        ≡ some (record {
          item = y;
          next = address ((a, x) ∷ ns) (suc i);
          prev = before ((a, x) ∷ ns) i;
        })
  unfolding prepended
  prepended-linked heap list [] a x ok_list fresh zero b y has =
      subst
        (λ p.
          put heap a (some (record { item = x; next = none; prev = none })) p.0
          ≡ some (record { item = p.1; next = none; prev = none }))
        (eq_of_some has) (put_self heap a (some (record { item = x; next = none; prev = none })))
  prepended-linked heap list [] a x ok_list fresh (suc i) b y has = absurd (ground arith)
  prepended-linked heap list (n ∷ ns) a x ok_list fresh zero b y has =
      subst
        (λ p.
          prepended heap a x (n ∷ ns) p.0
          ≡ some (record { item = p.1; next = some n.0; prev = none }))
        (eq_of_some has)
        (put_other
            (put (put heap a (some (record { item = x; next = none; prev = none }))) a
              (some (record { item = x; next = some n.0; prev = none })))
            n.0 a _ (λ e. fresh-apart heap list (n ∷ ns) a 0 n.0 n.1 ok_list fresh refl (sym e))
          ∙ put_self (put heap a (some (record { item = x; next = none; prev = none }))) a _)
  prepended-linked heap list (n ∷ ns) a x ok_list fresh (suc zero) b y has =
      subst
        (λ p.
          prepended heap a x (n ∷ ns) p.0
          ≡ some (record { item = p.1; next = address ns 0; prev = some a }))
        (eq_of_some has)
        (put_self
          (put (put heap a (some (record { item = x; next = none; prev = none }))) a
            (some (record { item = x; next = some n.0; prev = none })))
          n.0 _)
  prepended-linked heap list (n ∷ ns) a x ok_list fresh (suc (suc i)) b y has =
      put_other
        (put (put heap a (some (record { item = x; next = none; prev = none }))) a
          (some (record { item = x; next = some n.0; prev = none })))
        n.0 b _ (head-apart heap list n ns i b y ok_list has)
      ∙ put_other (put heap a (some (record { item = x; next = none; prev = none }))) a b
          (some (record { item = x; next = some n.0; prev = none }))
          (fresh-apart heap list (n ∷ ns) a (suc i) b y ok_list fresh has)
      ∙ put_other heap a b (some (record { item = x; next = none; prev = none }))
          (fresh-apart heap list (n ∷ ns) a (suc i) b y ok_list fresh has)
      ∙ ok_list.linked (suc i) b y has

  link_node-first :
      (heap : Heap A) (list : DoublyLinkedList) (a : ℕ) (x : A)
      → list.length ≡ 0
      → dll_prepend (some a) true heap list x
        ≡ ok (
          success,
          prepended heap a x [],
          record list { head = some a; tail = some a; length = (list.length + 1) % size_mod },
        )
  unfolding dll_prepend dll_insert_at create_node link_node prepended
  link_node-first heap list a x e = simp e refl

  link_node-front :
      (heap : Heap A) (list : DoublyLinkedList) (n : ℕ × A) (ns : List (ℕ × A)) (a : ℕ) (x : A)
      → IsLinked heap list (n ∷ ns)
      → heap a ≡ none
      → dll_prepend (some a) true heap list x
        ≡ ok (
          success,
          prepended heap a x (n ∷ ns),
          record list { head = some a; length = (list.length + 1) % size_mod },
        )
  unfolding dll_prepend dll_insert_at create_node link_node prepended
  link_node-front heap list n ns a x ok_list fresh =
      let heap1 = put heap a (some (record { item = x; next = none; prev = none })) in
      let heap2 = put heap1 a (some (record { item = x; next = some n.0; prev = none })) in
      simp
        (
          ok_list.counted,
          ok_list.first,
          (suc-positive (length ns)).0,
          (suc-positive (length ns)).1,
          set_next-ok heap1 a (some n.0) _
              (put_self heap a (some (record { item = x; next = none; prev = none }))),
          set_prev-ok heap2 n.0 (some a) (record { item = n.1; next = address ns 0; prev = none })
              (put_other heap1 a n.0 (some (record { item = x; next = some n.0; prev = none }))
                  (fresh-apart heap list (n ∷ ns) a 0 n.0 n.1 ok_list fresh refl)
                ∙ put_other heap a n.0 (some (record { item = x; next = none; prev = none }))
                    (fresh-apart heap list (n ∷ ns) a 0 n.0 n.1 ok_list fresh refl)
                ∙ ok_list.linked 0 n.0 n.1 refl),
        )
        refl

  -- On a heap that holds a list of linked nodes, whose number plus one fits a `size_t`,
  -- `dll_prepend` with the memory granted at an address where no node lives succeeds, and the new heap holds the list with the new node in
  -- front, linked both ways.
  pub dll_prepend-cons :
      (heap : Heap A) (list : DoublyLinkedList) (ns : List (ℕ × A)) (a : ℕ) (x : A)
      → IsLinked heap list ns
      → heap a ≡ none
      → length ns + 1 < size_mod
      → (heap' : Heap A) × (list' : DoublyLinkedList) × (dll_prepend (some a) true heap list x
          ≡ ok (success, heap', list'))
        × IsLinked heap' list' ((a, x) ∷ ns)
  dll_prepend-cons heap list [] a x ok_list fresh room = (
    prepended heap a x [],
    record list { head = some a; tail = some a; length = (list.length + 1) % size_mod },
    link_node-first heap list a x ok_list.counted,
    record {
      counted = one_more list.length 0 ok_list.counted room;
      first = refl;
      last = refl;
      linked = prepended-linked heap list [] a x ok_list fresh;
    },
  )
  dll_prepend-cons heap list (n ∷ ns) a x ok_list fresh room = (
    prepended heap a x (n ∷ ns),
    record list { head = some a; length = (list.length + 1) % size_mod },
    link_node-front heap list n ns a x ok_list fresh,
    record {
      counted = one_more list.length (length (n ∷ ns)) ok_list.counted room;
      first = refl;
      last = ok_list.last;
      linked = prepended-linked heap list (n ∷ ns) a x ok_list fresh;
    },
  )
