-- ===== src/HashTable/Map.antt =====
-- hash_table/hash_table.c as a finite map: what a search finds after an insertion or a removal.
use mathlib.Core.Path.{subst}
use native.Mathlib.Decide.{ℕ_discrete}
use c_data_structures.Prelude.{
  ℕ, suc, zero, ◌+◌, ◌%◌, ◌<◌, ◌≤◌, ◌≡◌, refl, sym, ◌∙◌, ap, Bool, true, false, Option, none, some,
  List, [], ◌∷◌, arith, if◌then◌else◌, length, get_elem?, set, get_elem?-set_self, get_elem?-set_ne,
  length-set, inl, inr, Bool-cases, eq_of_some,
}
use c_data_structures.Prelude.Int.{ℤ, failure, is_zero}
use c_data_structures.Prelude.Run.{Run, ok}
use c_data_structures.Buffer.{size_mod}
use c_data_structures.HashTable.{HashEntry, Chain, HashTable, index, find, copy_value, ht_search}
use c_data_structures.HashTable.Chains.{IsKey, value_of, Distinct}

-- The result of a search, from the value that the chain holds.
abbrev pub outcome {ℓ} : {V : Type ℓ} → Option (Option V) → Run (ℤ × Option V)
outcome none = ok (failure, none)
outcome (some value) = copy_value true value

outcome-if {ℓ} :
    {V : Type ℓ} (b : Bool) (w z : Option (Option V))
    → outcome (if b then w else z) ≡ (if b then outcome w else outcome z)
outcome-if true w z = refl
outcome-if false w z = refl

module _ {ℓ} {K V : Type ℓ} where
  -- The number of entries.
  abbrev pub total : List (Chain K V) → ℕ
  total [] = 0
  total (c ∷ cs) = length c + total cs

  total-set :
      (cs : List (Chain K V)) (i : ℕ) (c d : Chain K V)
      → get_elem? cs i ≡ some c
      → total (set cs i d) + length c ≡ total cs + length d
  total-set [] i c d e = cc
  total-set (x ∷ cs) zero c d e = ground arith
  total-set (x ∷ cs) (suc i) c d e = omega (arith, total-set cs i c d e)

  pub length-le-total :
      (cs : List (Chain K V)) (i : ℕ) (c : Chain K V)
      → get_elem? cs i ≡ some c
      → length c ≤ total cs
  length-le-total [] i c e = cc
  length-le-total (x ∷ cs) zero c e = ground arith
  length-le-total (x ∷ cs) (suc i) c e = omega (arith, length-le-total cs i c e)

  get_elem?-some :
      (cs : List (Chain K V)) (i : ℕ) → i < length cs → (c : Chain K V) × (get_elem? cs i ≡ some c)
  get_elem?-some [] i h = absurd (omega arith)
  get_elem?-some (c ∷ cs) zero h = (c, refl)
  get_elem?-some (c ∷ cs) (suc i) h = get_elem?-some cs i (omega arith)

  pub record IsTable (t : HashTable K V) : Type ℓ where
    pub key : IsKey t.hash t.key_eq
    pub positive : 0 < t.num_buckets
    pub all_buckets : length t.buckets ≡ t.num_buckets
    pub distinct : (i : ℕ) (c : Chain K V) → get_elem? t.buckets i ≡ some c → Distinct key c
    pub count : t.size ≡ total t.buckets
    pub bounded : t.size < size_mod

  module _ {t : HashTable K V} (v : IsTable t) where
    pub index_in : (k : K) → index t k < length t.buckets
    unfolding index
    index_in k = omega arith

    pub chain_at : (k : K) → (c : Chain K V) × (get_elem? t.buckets (index t k) ≡ some c)
    unfolding index
    chain_at k = get_elem?-some t.buckets (index t k) (omega arith)

    -- The table with another chain at the key's index.
    abbrev pub with_chain : K → Chain K V → ℕ → HashTable K V
    with_chain k d n = record t { buckets = set t.buckets (index t k) d; size = n }

    pub with_chain-IsTable :
        (k : K) (c d : Chain K V) (n : ℕ)
        → get_elem? t.buckets (index t k) ≡ some c
        → Distinct v.key d
        → n + length c ≡ total t.buckets + length d
        → n < size_mod
        → IsTable (with_chain k d n)
    with_chain-IsTable k c d n at distinct size small = record {
      key = v.key;
      positive = v.positive;
      all_buckets = length-set t.buckets (index t k) d ∙ v.all_buckets;
      distinct = λ i e found. elim (ℕ_discrete (index t k) i) [
        | yes same ↦
            subst (Distinct v.key)
              (eq_of_some (
                sym (get_elem?-set_self t.buckets (index t k) d (index_in k))
                ∙ ap (get_elem? (set t.buckets (index t k) d)) same
                ∙ found))
              distinct
        | no other ↦
            v.distinct i e
              (sym (get_elem?-set_ne t.buckets {i = index t k} {j = i} d other) ∙ found)
      ];
      count = omega (arith, total-set t.buckets (index t k) c d at);
      bounded = small;
    }

  pub search_at :
      (t : HashTable K V) (q : K) (c : Chain K V)
      → get_elem? t.buckets (index t q) ≡ some c
      → ht_search true (some t) (some q) ≡ outcome (value_of (find t.key_eq q c))
  unfolding ht_search
  search_at t q c at = rw at (found_at (find t.key_eq q c))
    where
      found_at :
          (o : Option (HashEntry K V))
          → elim o [ none ↦ ok (failure, none) | some e ↦ copy_value true e.value ]
            ≡ outcome (value_of o)
      found_at none = refl
      found_at (some e) = refl

  module _ {t : HashTable K V} (v : IsTable t) (k : K) (c d : Chain K V) (n : ℕ) where
    pub search-with_chain :
        (w : Option (Option V))
        → get_elem? t.buckets (index t k) ≡ some c
        → ((q : K)
            → value_of (find t.key_eq q d)
              ≡ (if is_zero (t.key_eq k q) then w else value_of (find t.key_eq q c)))
        → (q : K)
        → ht_search true (some (with_chain v k d n)) (some q)
          ≡ (if is_zero (t.key_eq k q) then outcome w else ht_search true (some t) (some q))
    unfolding index
    search-with_chain w at finds q = elim (ℕ_discrete (index t k) (index t q)) [
      | yes same ↦
          search_at (with_chain v k d n) q d (
            ap (get_elem? (set t.buckets (index t k) d)) (sym same)
            ∙ get_elem?-set_self t.buckets (index t k) d (index_in v k))
          ∙ ap outcome (finds q)
          ∙ outcome-if (is_zero (t.key_eq k q)) w (value_of (find t.key_eq q c))
          ∙ ap (λ s. if is_zero (t.key_eq k q) then outcome w else s)
              (sym (search_at t q c (ap (get_elem? t.buckets) (sym same) ∙ at)))
      | no other ↦ elim (Bool-cases (is_zero (t.key_eq k q))) [
        | inl e ↦ absurd (other (ap (λ h. h % t.num_buckets) (v.key.same_hash k q e)))
        | inr e ↦
            let (c', at') = chain_at v q in
            rw e (
              search_at (with_chain v k d n) q c'
                (get_elem?-set_ne t.buckets {i = index t k} {j = index t q} d other ∙ at')
              ∙ sym (search_at t q c' at'))
      ]
    ]
