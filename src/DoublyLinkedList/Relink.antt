-- ===== src/DoublyLinkedList/Relink.antt =====
-- The heap after the neighbours of a node are linked past it, as `dll_remove_at` does.
use c_data_structures.Prelude.{
  ℕ, zero, suc, ◌<◌, ◌≤◌, ◌≡◌, ◌≢◌, refl, ap, ap₂, ◌∙◌, sym, false, Option, none, some, List, [],
  ◌∷◌, inl, inr, length, get_elem?, ◌==◌, if◌then◌else◌, arith, eq_of_some, Bool-cases,
}
use c_data_structures.Prelude.Run.{ok}
use c_data_structures.DoublyLinkedList.{DListNode, DoublyLinkedList, Heap, put, set_next, set_prev}
use c_data_structures.DoublyLinkedList.Linked.{IsLinked, address, before, address-elem}
use c_data_structures.DoublyLinkedList.Clear.{elem-lt}
use c_data_structures.DoublyLinkedList.Prepend.{put_self, put_other, set_next-ok, set_prev-ok}
use c_data_structures.DoublyLinkedList.Places.{apart, same_node}

module _ {ℓ} {A : Type ℓ} where
  -- The node at `q`, if it is there, as `f` makes it.
  abbrev pub patch : Heap A → ℕ → (DListNode A → DListNode A) → Option (DListNode A) → Heap A
  patch heap q f none = heap
  patch heap q f (some n) = put heap q (some (f n))

  -- `q->next = v` and `q->prev = v` where `q` is not NULL and its node is there.
  abbrev pub write_next : Heap A → Option ℕ → Option ℕ → Heap A
  write_next heap none v = heap
  write_next heap (some q) v = patch heap q (λ n. record n { next = v }) (heap q)

  abbrev pub write_prev : Heap A → Option ℕ → Option ℕ → Heap A
  write_prev heap none v = heap
  write_prev heap (some q) v = patch heap q (λ n. record n { prev = v }) (heap q)

  pub set_next-write :
      (heap : Heap A) (q : ℕ) (v : Option ℕ) (n : DListNode A)
      → heap q ≡ some n
      → set_next heap (some q) v ≡ ok (write_next heap (some q) v)
  set_next-write heap q v n e =
      set_next-ok heap q v n e ∙ ap (λ o. ok (patch heap q (λ n. record n { next = v }) o)) (sym e)

  pub set_prev-write :
      (heap : Heap A) (q : ℕ) (v : Option ℕ) (n : DListNode A)
      → heap q ≡ some n
      → set_prev heap (some q) v ≡ ok (write_prev heap (some q) v)
  set_prev-write heap q v n e =
      set_prev-ok heap q v n e ∙ ap (λ o. ok (patch heap q (λ n. record n { prev = v }) o)) (sym e)

  patch_self :
      (heap : Heap A) (q : ℕ) (f : DListNode A → DListNode A) (n : DListNode A)
      → heap q ≡ some n
      → patch heap q f (heap q) q ≡ some (f n)
  patch_self heap q f n e = ap (λ o. patch heap q f o q) e ∙ put_self heap q (some (f n))

  patch_other :
      (heap : Heap A) (q b : ℕ) (f : DListNode A → DListNode A) (n : DListNode A)
      → heap q ≡ some n
      → b ≢ q
      → patch heap q f (heap q) b ≡ heap b
  patch_other heap q b f n e ne =
      ap (λ o. patch heap q f o b) e ∙ put_other heap q b (some (f n)) ne

  pub address-lt : (ns : List (ℕ × A)) (i a : ℕ) → address ns i ≡ some a → i < length ns
  address-lt [] i a e = absurd (ground arith)
  address-lt (n ∷ ns) zero a e = omega arith
  address-lt (n ∷ ns) (suc i) a e = omega (arith, address-lt ns i a e)

  pub address-none : (ns : List (ℕ × A)) (i : ℕ) → address ns i ≡ none → length ns ≤ i
  address-none [] i e = omega arith
  address-none (n ∷ ns) zero e = absurd (ground arith)
  address-none (n ∷ ns) (suc i) e = omega (arith, address-none ns i e)

  module _ {heap : Heap A} {list : DoublyLinkedList} {ns : List (ℕ × A)}
      (ok_list : IsLinked heap list ns) (k : ℕ) (below : k < length ns) where
    abbrev pub past_next : Heap A
    past_next = write_next heap (before ns k) (address ns (suc k))

    abbrev pub past_both : Heap A
    past_both = write_prev past_next (address ns (suc k)) (before ns k)

    -- Every node after the first write.
    pub past_next-node :
        (j : ℕ)
        → j ≡ k
        → (i b : ℕ) (y : A) → get_elem? ns i ≡ some (b, y)
        → write_next heap (before ns j) (address ns (suc k)) b
          ≡ some (record {
            item = y;
            next = (if suc i == j then address ns (suc k) else address ns (suc i));
            prev = before ns i;
          })
    past_next-node zero at i b y has =
        let no : (suc i == 0) ≡ false = ground arith in
        ok_list.linked i b y has
        ∙ ap (λ n. some (record { item = y; next = n; prev = before ns i })) (rw no refl)
    past_next-node (suc j) at i b y has =
        let (p, u, has_p, at_p) = address-elem ns j (omega (arith, at, below)) in
        let node = ok_list.linked j p u has_p in
        ap (λ q. write_next heap q (address ns (suc k)) b) at_p
        ∙ elim (Bool-cases (suc i == suc j)) [
          | inl e ↦
              let (b_eq, y_eq) = same_node ns i j b p y u has has_p (ground arith) in
              ap (write_next heap (some p) (address ns (suc k))) b_eq
              ∙ (patch_self heap p (λ n. record n { next = address ns (suc k) }) _ node
                  ∙ rw e (
                      ap₂ (λ v q. some (record { item = v; next = address ns (suc k); prev = q }))
                        (sym y_eq) (ap (before ns) (ground arith))))
          | inr e ↦
              patch_other heap p b (λ n. record n { next = address ns (suc k) }) _ node
                (apart ok_list i j b p y u has has_p (ground arith))
              ∙ (ok_list.linked i b y has
                  ∙ ap (λ n. some (record { item = y; next = n; prev = before ns i })) (rw e refl))
        ]

    -- Every node after both writes.
    pub past_both-node :
        (o : Option ℕ)
        → address ns (suc k) ≡ o
        → (i b : ℕ) (y : A) → get_elem? ns i ≡ some (b, y)
        → write_prev past_next o (before ns k) b
          ≡ some (record {
            item = y;
            next = (if suc i == k then address ns (suc k) else address ns (suc i));
            prev = (if i == suc k then before ns k else before ns i);
          })
    past_both-node none at i b y has =
        let last : suc k ≡ length ns = omega (arith, address-none ns (suc k) at, below) in
        let no : (i == suc k) ≡ false = ground (arith, elem-lt ns i (b, y) has, last) in
        past_next-node k refl i b y has
        ∙ ap
            (λ p. some (record {
              item = y;
              next = (if suc i == k then address ns (suc k) else address ns (suc i));
              prev = p;
            }))
            (rw no refl)
    past_both-node (some s) at i b y has =
        let inside : suc k < length ns = address-lt ns (suc k) s at in
        let (s', w, has_s, at_s) = address-elem ns (suc k) inside in
        let s_eq : s' ≡ s = eq_of_some (sym at_s ∙ at) in
        let node = ap past_next (sym s_eq) ∙ past_next-node k refl (suc k) s' w has_s in
        elim (Bool-cases (i == suc k)) [
          | inl e ↦
              let at_i : i ≡ suc k = ground arith in
              let (b_eq, y_eq) = same_node ns i (suc k) b s' y w has has_s at_i in
              ap (patch past_next s (λ n. record n { prev = before ns k }) (past_next s))
                (b_eq ∙ s_eq)
              ∙ (patch_self past_next s (λ n. record n { prev = before ns k }) _ node
                  ∙ (ap₂
                        (λ v j. some (record {
                          item = v;
                          next = (if suc j == k then address ns (suc k) else address ns (suc j));
                          prev = before ns k;
                        }))
                        (sym y_eq) (sym at_i)
                      ∙ ap
                          (λ p. some (record {
                            item = y;
                            next = (if suc i == k then address ns (suc k) else address ns (suc i));
                            prev = p;
                          }))
                          (rw e refl)))
          | inr e ↦
              patch_other past_next s b (λ n. record n { prev = before ns k }) _ node
                (λ h. apart ok_list i (suc k) b s' y w has has_s (ground arith) (h ∙ sym s_eq))
              ∙ (past_next-node k refl i b y has
                  ∙ ap
                      (λ p. some (record {
                        item = y;
                        next = (if suc i == k then address ns (suc k) else address ns (suc i));
                        prev = p;
                      }))
                      (rw e refl))
        ]
