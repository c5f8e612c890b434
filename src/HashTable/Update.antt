-- ===== src/HashTable/Update.antt =====
-- `ht_insert` and `ht_remove` of hash_table/hash_table.c as updates of a finite map.
use c_data_structures.Prelude.{
  ℕ, ◌+◌, ◌-◌, ◌%◌, ◌<◌, ◌≡◌, refl, sym, ◌∙◌, ap, Bool, true, false, Option, none, some, List, [],
  ◌∷◌, arith, if◌then◌else◌, get_elem?, ◌↔◌, inl, inr, Bool-cases, Option-cases,
}
use c_data_structures.Prelude.Int.{ℤ, success, failure, is_zero}
use c_data_structures.Prelude.Run.{ok, fault}
use c_data_structures.Buffer.{size_mod}
use c_data_structures.HashTable.{
  HashEntry, Chain, HashTable, Release, index, find, assign, erase, insert_chain, remove_chain,
  release_entry, release_value, ht_insert, ht_search, ht_remove, copy_value,
}
use c_data_structures.HashTable.Chains.{
  value_of, find_congr, find-assign, find-erase, Distinct-assign, Distinct-erase, length-assign,
  length-erase,
}
use c_data_structures.HashTable.Map.{
  IsTable, outcome, chain_at, with_chain, with_chain-IsTable, search-with_chain, search_at,
  length-le-total,
}

module _ {ℓ} {K V : Type ℓ} where
  find-cons :
      (key_eq : K → K → ℤ) (k q : K) (x : V) (c : Chain K V)
      → value_of (find key_eq q (record { key = k; value = some x } ∷ c))
        ≡ (if is_zero (key_eq k q) then some (some x) else value_of (find key_eq q c))
  unfolding find
  find-cons key_eq k q x c = ground arith

  value_of-if :
      (b : Bool) (o : Option (HashEntry K V))
      → value_of (if b then none else o) ≡ (if b then none else value_of o)
  value_of-if true o = refl
  value_of-if false o = refl

  module _ {t : HashTable K V} (v : IsTable t) (k : K) where
    -- On a valid table whose size can still be counted, `ht_insert` with the memory granted
    -- succeeds and leaves a valid table in which `ht_search` finds the value under the inserted
    -- key and every equal one, and under any other key what it found before.
    pub ht_insert-search :
        (x : V)
        → t.size + 1 < size_mod
        → (t' : HashTable K V) × (given : List (Release K V)) × (ht_insert true true true
              (some t)
              (some k)
              (some x)
            ≡ ok (success, given, some t'))
          × IsTable t'
          × ((q : K)
              → ht_search true (some t') (some q) ≡ (
                  if is_zero (t.key_eq k q)
                  then ok (success, some x)
                  else ht_search true (some t) (some q)))
    unfolding ht_insert insert_chain copy_value
    ht_insert-search x room =
        let (c, at) = chain_at v k in
        elim (Option-cases (find t.key_eq k c)) [
          | inl new ↦
              let d : Chain K V = record { key = k; value = some x } ∷ c in
              let n : ℕ = (t.size + 1) % size_mod in
              (
                with_chain v k d n,
                [],
                rw (at, insert_chain, new),
                with_chain-IsTable v k c d n at (new, v.distinct (index t k) c at)
                    (omega (arith, v.count)) (omega arith),
                search-with_chain v k c d n (some (some x)) at (λ q. find-cons t.key_eq k q x c),
              )
          | inr (e, found) ↦
              let d : Chain K V = assign t.key_eq k (some x) c in
              (
                with_chain v k d t.size,
                release_value t e.value ∷ [],
                rw (at, insert_chain, found),
                with_chain-IsTable v k c d t.size at
                    (Distinct-assign v.key k (some x) c (v.distinct (index t k) c at))
                    (omega (arith, v.count, length-assign v.key k (some x) c)) v.bounded,
                search-with_chain v k c d t.size (some (some x)) at
                    (λ q. find-assign v.key k q (some x) c e found),
              )
        ]

    -- When the memory for the new value is refused, `ht_insert` on a key that a valid table
    -- holds fails, and the value that was stored is gone: afterwards `ht_search` with an out
    -- pointer is undefined behaviour under the key and every equal one, since it copies from
    -- NULL, and finds under any other key what it found before.
    pub ht_insert-lost :
        (x y : V) (entry key_mem : Bool)
        → ht_search true (some t) (some k) ≡ ok (success, some y)
        → (t' : HashTable K V) × (given : List (Release K V)) × (ht_insert entry key_mem false
              (some t)
              (some k)
              (some x)
            ≡ ok (failure, given, some t'))
          × ((q : K)
              → ht_search true (some t') (some q)
                ≡ (if is_zero (t.key_eq k q) then fault else ht_search true (some t) (some q)))
    unfolding ht_insert insert_chain copy_value
    ht_insert-lost x y entry key_mem stored =
        let (c, at) = chain_at v k in
        elim (Option-cases (find t.key_eq k c)) [
          | inl new ↦ absurd (impossible c at new)
          | inr (e, found) ↦
              let d : Chain K V = assign t.key_eq k none c in
              (
                with_chain v k d t.size,
                release_value t e.value ∷ [],
                rw (at, insert_chain, found),
                search-with_chain v k c d t.size (some none) at
                    (λ q. find-assign v.key k q none c e found),
              )
        ]
      where
        impossible :
            (c : Chain K V)
            → get_elem? t.buckets (index t k) ≡ some c
            → find t.key_eq k c ≡ none
            → ⊥
        impossible c at new = cc (search_at t k c at, new, stored)

    -- A key that its chain lacks is not found, nor is any key equal to it.
    search-absent :
        (c : Chain K V)
        → get_elem? t.buckets (index t k) ≡ some c
        → find t.key_eq k c ≡ none
        → (q : K)
        → ht_search true (some t) (some q) ≡ (
            if is_zero (t.key_eq k q) then ok (failure, none) else ht_search true (some t) (some q))
    unfolding index
    search-absent c at absent q = elim (Bool-cases (is_zero (t.key_eq k q))) [
      | inl e ↦ rw e (
          search_at t q c
            (ap (λ h. get_elem? t.buckets (h % t.num_buckets)) (sym (v.key.same_hash k q e)) ∙ at)
          ∙ ap (λ o. outcome (value_of o)) (sym (find_congr v.key k q c e) ∙ absent))
      | inr e ↦ rw e
    ]

    copy-ne-failure : (w : Option V) → copy_value true w ≡ ok (failure, none) → ⊥
    unfolding copy_value
    copy-ne-failure none e = cc
    copy-ne-failure (some w) e = cc

    -- On a valid table `ht_remove` fails exactly where a search for the key finds nothing, and
    -- leaves a valid table in which `ht_search` finds nothing under the key and every equal
    -- one, and under any other key what it found before.
    pub ht_remove-search :
        (t' : HashTable K V) × (given : List (Release K V)) × (ret : ℤ) × (ht_remove
            (some t)
            (some k)
          ≡ ok (ret, given, some t'))
        × ((ret ≡ failure) ↔ (ht_search true (some t) (some k) ≡ ok (failure, none)))
        × IsTable t'
        × ((q : K)
            → ht_search true (some t') (some q) ≡ (
                if is_zero (t.key_eq k q)
                then ok (failure, none)
                else ht_search true (some t) (some q)))
    unfolding ht_remove remove_chain
    ht_remove-search =
        let (c, at) = chain_at v k in
        elim (Option-cases (find t.key_eq k c)) [
          | inl absent ↦ (
            t,
            [],
            failure,
            rw (at, remove_chain, absent),
            (λ e. search_at t k c at ∙ ap (λ o. outcome (value_of o)) absent, λ e. refl),
            v,
            search-absent c at absent,
          )
          | inr (e, found) ↦
              let d : Chain K V = erase t.key_eq k c in
              let n : ℕ = (t.size + size_mod - 1) % size_mod in
              (
                with_chain v k d n,
                release_entry t e,
                success,
                rw (at, remove_chain, found),
                (
                  λ e. cc,
                  λ f. absurd (
                      copy-ne-failure e.value (
                        ap (λ o. outcome (value_of o)) (sym found) ∙ sym (search_at t k c at) ∙ f)),
                ),
                with_chain-IsTable v k c d n at
                    (Distinct-erase v.key k c (v.distinct (index t k) c at))
                    (omega (
                      arith,
                      v.count,
                      v.bounded,
                      length-erase v.key k c e found,
                      length-le-total t.buckets (index t k) c at,
                    ))
                    (omega arith),
                search-with_chain v k c d n none at (λ q.
                    ap value_of (find-erase v.key k q c (v.distinct (index t k) c at))
                    ∙ value_of-if (is_zero (t.key_eq k q)) (find t.key_eq q c)),
              )
        ]
