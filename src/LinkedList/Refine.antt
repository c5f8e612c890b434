-- ===== src/LinkedList/Refine.antt =====
-- The singly linked list as a sequence of elements.
use native.Mathlib.Nat.{mod-eq_of_lt}
use c_data_structures.Prelude.{
  ℕ, zero, suc, ◌+◌, ◌-◌, ◌%◌, ◌<◌, ◌≤◌, ◌≡◌, refl, ap, ◌∙◌, Bool, true, false, none, some, List,
  [], ◌∷◌, ◌++◌, length, length-append, length-take, length-drop, take, drop, get_elem?, ltb, leb,
  if◌then◌else◌, arith,
}
use c_data_structures.Prelude.Int.{success}
use c_data_structures.Prelude.Run.{ok, ◌>>=◌}
use c_data_structures.Buffer.{size_mod}
use c_data_structures.LinkedList.{
  LinkedList, freed_data, freed_node, link, unlink, walk, ll_insert_at, ll_remove_at, ll_get_at,
}

-- `length` counts the nodes.
abbrev pub IsList {ℓ} : {A : Type ℓ} → LinkedList A → Type 0
IsList list = list.length ≡ length list.head

ltb-false : (a b : ℕ) → b ≤ a → ltb a b ≡ false
ltb-false a b h = ground arith

leb-false : (a b : ℕ) → b < a → leb a b ≡ false
leb-false a b h = ground arith

module _ {ℓ} {A : Type ℓ} where
  length-splice :
      (i : ℕ) (xs : List A) (x : A)
      → i ≤ length xs
      → length (take i xs ++ (x ∷ drop i xs)) ≡ length xs + 1
  length-splice i xs x h =
      omega (arith, length-append (take i xs) (x ∷ drop i xs), length-take i xs, length-drop i xs)

  length-cut :
      (i : ℕ) (xs : List A) → i < length xs → length (take i xs ++ drop (suc i) xs) ≡ length xs - 1
  length-cut i xs h =
      omega (
        arith,
        length-append (take i xs) (drop (suc i) xs),
        length-take i xs,
        length-drop (suc i) xs,
      )

  link-ok :
      (i : ℕ) (xs : List A) (x : A)
      → i ≤ length xs
      → link i xs x ≡ ok (take i xs ++ (x ∷ drop i xs))
  unfolding link
  link-ok zero xs x h = refl
  link-ok (suc i) [] x h = absurd (omega arith)
  link-ok (suc i) (y ∷ xs) x h = rw (link-ok i xs x (omega arith)) refl

  unlink-ok :
      (i : ℕ) (xs : List A)
      → i < length xs
      → (x : A) × (get_elem? xs i ≡ some x) × (unlink i xs ≡ ok (x, take i xs ++ drop (suc i) xs))
  unfolding unlink
  unlink-ok i [] h = absurd (omega arith)
  unlink-ok zero (y ∷ xs) h = (y, refl, refl)
  unlink-ok (suc i) (y ∷ xs) h =
      let (x, has, e) = unlink-ok i xs (omega arith) in
      (x, has, ap (λ o. o >>= λ (x, rest). ok (x, y ∷ rest)) e)

  walk-ok :
      (i : ℕ) (xs : List A)
      → i < length xs
      → (x : A) × (get_elem? xs i ≡ some x) × (walk i xs ≡ ok x)
  unfolding walk
  walk-ok i [] h = absurd (omega arith)
  walk-ok zero (y ∷ xs) h = (y, refl, refl)
  walk-ok (suc i) (y ∷ xs) h = walk-ok i xs (omega arith)

  -- On a list whose `length` counts its nodes and can still count one more in a `size_t`,
  -- `ll_insert_at` with the memory granted at an index up to the length succeeds, puts the
  -- element before those from that index on, and `length` counts the nodes again.
  pub ll_insert_at-splices :
      (list : LinkedList A) (i : ℕ) (x : A)
      → IsList list
      → list.length + 1 < size_mod
      → i ≤ list.length
      → (list' : LinkedList A) × (ll_insert_at true true list i x ≡ ok (success, list'))
        × (list'.head ≡ take i list.head ++ (x ∷ drop i list.head))
        × IsList list'
  unfolding ll_insert_at
  ll_insert_at-splices list i x ok_list room h = (
    record list {
      head = take i list.head ++ (x ∷ drop i list.head);
      length = (list.length + 1) % size_mod;
    },
    simp (ltb-false list.length i h, link-ok i list.head x (omega arith)) refl,
    refl,
    mod-eq_of_lt room ∙ omega (arith, length-splice i list.head x (omega arith)),
  )

  -- On a list whose `length` counts its nodes, `ll_remove_at` of an index in range succeeds
  -- with the element there (where `out_data` is not NULL), takes it out of the list, gives back
  -- its data and its node, and `length` counts the nodes again.
  pub ll_remove_at-cuts :
      (wanted : Bool) (list : LinkedList A) (i : ℕ)
      → IsList list
      → i < list.length
      → (x : A) × (list' : LinkedList A) × (get_elem? list.head i ≡ some x)
        × (ll_remove_at wanted list i
            ≡ ok (
              success,
              (if wanted then some x else none),
              list',
              freed_data x ∷ freed_node x ∷ [],
            ))
        × (list'.head ≡ take i list.head ++ drop (suc i) list.head)
        × IsList list'
  unfolding ll_remove_at
  ll_remove_at-cuts wanted list i ok_list h =
      let (x, has, e) = unlink-ok i list.head (omega arith) in
      (
        x,
        record list { head = take i list.head ++ drop (suc i) list.head; length = list.length - 1 },
        has,
        simp (leb-false list.length i h, e) refl,
        refl,
        omega (arith, length-cut i list.head (omega arith)),
      )

  -- On a list whose `length` counts its nodes, `ll_get_at` of an index in range succeeds with
  -- the element at that index.
  ll_get_at-elem :
      (list : LinkedList A) (i : ℕ)
      → IsList list
      → i < list.length
      → (x : A) × (get_elem? list.head i ≡ some x) × (ll_get_at list i ≡ ok (success, some x))
  unfolding ll_get_at
  ll_get_at-elem list i ok_list h =
      let (x, has, e) = walk-ok i list.head (omega arith) in
      (x, has, simp (e, leb-false list.length i h) refl)
