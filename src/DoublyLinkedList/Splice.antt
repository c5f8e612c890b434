-- ===== src/DoublyLinkedList/Splice.antt =====
-- The nodes of a list with a new one among them, and the heap that holds them.
use c_data_structures.Prelude.{
  ℕ, zero, suc, ◌-◌, ◌<◌, ◌≤◌, ◌≡◌, refl, ap, ap₂, ◌∙◌, sym, false, some, List, [], ◌∷◌, inl, inr,
  length, get_elem?, insert_at, elem-insert_at, ◌==◌, if◌then◌else◌, arith, eq_of_some, Bool-cases,
}
use c_data_structures.DoublyLinkedList.{Heap}
use c_data_structures.DoublyLinkedList.Linked.{address, before}
use c_data_structures.DoublyLinkedList.Places.{
  address-insert_eq, address-insert_gt, before-insert_le, address-insert_before,
}

module _ {ℓ} {A : Type ℓ} where
  -- The heap where the nodes on both sides of position `k` point at a new node `a`.
  pub record Spliced (heap : Heap A) (ns : List (ℕ × A)) (k a : ℕ) (x : A) : Type ℓ where
    pub new : heap a ≡ some (record { item = x; next = address ns k; prev = before ns k })
    pub kept :
        (i b : ℕ) (y : A)
        → get_elem? ns i ≡ some (b, y)
        → heap b
          ≡ some (record {
            item = y;
            next = (if suc i == k then some a else address ns (suc i));
            prev = (if i == k then some a else before ns i);
          })

  next_before :
      (ns : List (ℕ × A)) (k i : ℕ) (n : ℕ × A)
      → i < k
      → k ≤ length ns
      → (if suc i == k then some n.0 else address ns (suc i)) ≡ address (insert_at ns k n) (suc i)
  next_before ns k i n lt le = elim (Bool-cases (suc i == k)) [
    | inl e ↦
        let at : suc i ≡ k = ground arith in
        rw e (sym (ap (address (insert_at ns k n)) at ∙ address-insert_eq ns k n le))
    | inr e ↦ rw e (sym (address-insert_before ns k i n (ground arith) le))
  ]

  before_gt :
      (ns : List (ℕ × A)) (k i : ℕ) (n : ℕ × A)
      → k < i
      → k ≤ length ns
      → before ns i ≡ address (insert_at ns k n) i
  before_gt ns k zero n lt fits = absurd (omega arith)
  before_gt ns k (suc i) n lt fits = sym (address-insert_gt ns k i n (omega arith) fits)

  prev_after :
      (ns : List (ℕ × A)) (k i : ℕ) (n : ℕ × A)
      → k ≤ i
      → k ≤ length ns
      → (if i == k then some n.0 else before ns i) ≡ address (insert_at ns k n) i
  prev_after ns k i n le fits = elim (Bool-cases (i == k)) [
    | inl e ↦
        let at : i ≡ k = ground arith in
        rw e (sym (ap (address (insert_at ns k n)) at ∙ address-insert_eq ns k n fits))
    | inr e ↦ rw e (before_gt ns k i n (ground arith) fits)
  ]

  pub Spliced-linked :
      (heap : Heap A) (ns : List (ℕ × A)) (k a : ℕ) (x : A)
      → Spliced heap ns k a x
      → k ≤ length ns
      → (i b : ℕ) (y : A) → get_elem? (insert_at ns k (a, x)) i ≡ some (b, y)
      → heap b
        ≡ some (record {
          item = y;
          next = address (insert_at ns k (a, x)) (suc i);
          prev = before (insert_at ns k (a, x)) i;
        })
  Spliced-linked heap ns k a x spliced le i b y has =
      elim (elem-insert_at ns k i (a, x) (b, y) le has) [
        | inl (lt, old) ↦
            let no : (i == k) ≡ false = ground arith in
            spliced.kept i b y old
            ∙ ap₂ (λ n p. some (record { item = y; next = n; prev = p }))
                (next_before ns k i (a, x) lt le)
                (rw no (sym (before-insert_le ns k i (a, x) (omega arith) le)))
        | inr rest ↦ elim rest [
          | inl (at, same) ↦
              let pair = eq_of_some same in
              let a_eq : a ≡ b = ap (λ (p : ℕ × A). p.0) pair in
              let x_eq : x ≡ y = ap (λ (p : ℕ × A). p.1) pair in
              ap heap (sym a_eq)
              ∙ (spliced.new
                  ∙ (ap (λ w. some (record { item = w; next = address ns k; prev = before ns k }))
                        x_eq
                      ∙ ap₂ (λ n p. some (record { item = y; next = n; prev = p }))
                          (sym
                            (address-insert_gt ns k i (a, x) (omega arith) le ∙ ap (address ns) at))
                          (sym
                            (before-insert_le ns k i (a, x) (omega arith) le ∙ ap (before ns) at))))
          | inr (j, at, ge, old) ↦
              let no : (suc j == k) ≡ false = ground arith in
              spliced.kept j b y old
              ∙ (ap₂ (λ n p. some (record { item = y; next = n; prev = p }))
                    (rw no (sym (address-insert_gt ns k (suc j) (a, x) (omega arith) le)))
                    (prev_after ns k j (a, x) ge le)
                  ∙ ap
                      (λ t. some (record {
                        item = y;
                        next = address (insert_at ns k (a, x)) (suc t);
                        prev = before (insert_at ns k (a, x)) t;
                      }))
                      (sym at))
        ]
      ]

  pub inserted-first :
      (ns : List (ℕ × A)) (j : ℕ) (n : ℕ × A)
      → suc j < length ns
      → address (insert_at ns (suc j) n) 0 ≡ address ns 0
  inserted-first [] j n below = absurd (omega arith)
  inserted-first (m ∷ ns) j n below = refl

  pub inserted-last :
      (ns : List (ℕ × A)) (j : ℕ) (n : ℕ × A)
      → suc j < length ns
      → before (insert_at ns (suc j) n) (suc (length ns)) ≡ before ns (length ns)
  inserted-last ns j n below =
      let size : length ns ≡ suc (length ns - 1) = omega arith in
      ap (address (insert_at ns (suc j) n)) size
      ∙ (address-insert_gt ns (suc j) (length ns - 1) n (omega arith) (omega arith)
          ∙ sym (ap (before ns) size))
