-- ===== src/HashTable/Chains.antt =====
-- One chain of hash_table/hash_table.c.
use c_data_structures.Prelude.{
  ℕ, ◌+◌, ◌≡◌, refl, ◌∙◌, true, Option, none, some, [], ◌∷◌, arith, if◌then◌else◌, length, inl, inr,
  Bool-cases,
}
use c_data_structures.Prelude.Int.{ℤ, is_zero}
use c_data_structures.HashTable.{HashEntry, Chain, find, assign, erase}

-- What the table asks of its callbacks: `key_eq` tells equal keys by 0, consistently, and equal
-- keys have one hash.
pub record IsKey {ℓ} {K : Type ℓ} (hash : K → ℕ) (key_eq : K → K → ℤ) : Type ℓ where
  pub self : (a : K) → is_zero (key_eq a a) ≡ true
  pub left : (a b c : K) → is_zero (key_eq a b) ≡ true → is_zero (key_eq a c) ≡ is_zero (key_eq b c)
  pub right :
      (a b c : K) → is_zero (key_eq a b) ≡ true → is_zero (key_eq c a) ≡ is_zero (key_eq c b)
  pub same_hash : (a b : K) → is_zero (key_eq a b) ≡ true → hash a ≡ hash b

module _ {ℓ} {K V : Type ℓ} where
  -- The value that a search finds; `none` inside is the NULL that a refused update leaves.
  abbrev pub value_of : Option (HashEntry K V) → Option (Option V)
  value_of none = none
  value_of (some e) = some e.value

  module _ {hash : K → ℕ} {key_eq : K → K → ℤ} (key : IsKey hash key_eq) where
    -- No two entries have equal keys.
    abbrev pub Distinct : Chain K V → Type ℓ
    Distinct [] = Unit
    Distinct (e ∷ c) = (find key_eq e.key c ≡ none) × Distinct c

    pub find_congr :
        (k q : K) (c : Chain K V) → is_zero (key_eq k q) ≡ true → find key_eq k c ≡ find key_eq q c
    unfolding find
    find_congr k q [] e = refl
    find_congr k q (x ∷ c) e = ground (arith, key.right k q x.key e, find_congr k q c e)

    pub find-assign :
        (k q : K) (v : Option V) (c : Chain K V) (old : HashEntry K V)
        → find key_eq k c ≡ some old
        → value_of (find key_eq q (assign key_eq k v c))
          ≡ (if is_zero (key_eq k q) then some v else value_of (find key_eq q c))
    unfolding find assign
    find-assign k q v [] old h = cc
    find-assign k q v (x ∷ c) old h =
        ground (arith, key.left x.key k q, key.right k q x.key, find-assign k q v c old)

    find-assign-none :
        (k q : K) (v : Option V) (c : Chain K V)
        → find key_eq q c ≡ none
        → find key_eq q (assign key_eq k v c) ≡ none
    unfolding find assign
    find-assign-none k q v [] h = refl
    find-assign-none k q v (x ∷ c) h = ground (arith, find-assign-none k q v c)

    pub find-erase :
        (k q : K) (c : Chain K V)
        → Distinct c
        → find key_eq q (erase key_eq k c)
          ≡ (if is_zero (key_eq k q) then none else find key_eq q c)
    unfolding find erase
    find-erase k q [] d = ground arith
    find-erase k q (x ∷ c) d =
        ground (
          arith,
          key.left x.key k q,
          key.right k q x.key,
          find-erase k q c d.1,
          find_congr x.key q c,
        )

    -- The updates keep the keys of a chain distinct.
    pub Distinct-assign :
        (k : K) (v : Option V) (c : Chain K V) → Distinct c → Distinct (assign key_eq k v c)
    unfolding assign
    Distinct-assign k v [] d = tt
    Distinct-assign k v (x ∷ c) d = elim (Bool-cases (is_zero (key_eq x.key k))) [
      | inl e ↦ rw e (d.0, d.1)
      | inr e ↦ rw e (find-assign-none k x.key v c d.0, Distinct-assign k v c d.1)
    ]

    pub Distinct-erase : (k : K) (c : Chain K V) → Distinct c → Distinct (erase key_eq k c)
    unfolding erase
    Distinct-erase k [] d = tt
    Distinct-erase k (x ∷ c) d = elim (Bool-cases (is_zero (key_eq x.key k))) [
      | inl e ↦ rw e d.1
      | inr e ↦ rw e (find-erase k x.key c d.1 ∙ ground (arith, d.0), Distinct-erase k c d.1)
    ]

    pub length-assign :
        (k : K) (v : Option V) (c : Chain K V) → length (assign key_eq k v c) ≡ length c
    unfolding assign
    length-assign k v [] = refl
    length-assign k v (x ∷ c) = ground (arith, length-assign k v c)

    pub length-erase :
        (k : K) (c : Chain K V) (old : HashEntry K V)
        → find key_eq k c ≡ some old
        → length (erase key_eq k c) + 1 ≡ length c
    unfolding erase find
    length-erase k [] old h = cc
    length-erase k (x ∷ c) old h = ground (arith, length-erase k c old)
