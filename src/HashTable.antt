-- ===== src/HashTable.antt =====
-- hash_table/hash_table.c: a table of chains. A function that updates `*table` returns the new
-- table beside its `int` and what it gives back to the allocator or the destroy callbacks; the
-- callbacks `hash` and `key_eq` are fields, and a destroy callback is represented by its presence.
pub mod Chains
pub mod Map
pub mod Update
use c_data_structures.Prelude.{
  ℕ, ◌+◌, ◌-◌, ◌%◌, ◌&&◌, Bool, true, false, Option, none, some, List, [], ◌∷◌, ◌++◌, ◌==◌,
  if◌then◌else◌, get_elem?, set, replicate,
}
use c_data_structures.Prelude.Int.{ℤ, success, failure, is_zero}
use c_data_structures.Prelude.Run.{Run, ok, fault, ◌>>=◌, deref}
use c_data_structures.Buffer.{size_mod}

-- `HashEntry`; `value` is `none` where the pointer is NULL.
pub record HashEntry {ℓ} (K V : Type ℓ) : Type ℓ where
  pub key : K
  pub value : Option V

-- The entries that `next` links.
abbrev pub Chain {ℓ} : Type ℓ → Type ℓ → Type ℓ
Chain K V = List (HashEntry K V)

pub record HashTable {ℓ} (K V : Type ℓ) : Type ℓ where
  pub buckets : List (Chain K V)
  pub num_buckets : ℕ
  pub size : ℕ
  pub hash : K → ℕ
  pub key_eq : K → K → ℤ
  pub key_destroy : Bool
  pub value_destroy : Bool

-- What is given back, in order: by the callback, or by `free`.
pub data Release {ℓ} (K V : Type ℓ) : Type ℓ where
  key_destroyed key_freed : K → Release K V
  value_destroyed value_freed : Option V → Release K V
  entry_freed : K → Release K V
  buckets_freed table_freed : Release K V

-- `memcpy(out_value, entry->value, ...)`, if `out_value` is not NULL.
unfoldable pub copy_value {ℓ} : {V : Type ℓ} → Bool → Option V → Run (ℤ × Option V)
copy_value false value = ok (success, none)
copy_value true none = fault
copy_value true (some v) = ok (success, some v)

module _ {ℓ} {K V : Type ℓ} where
  pub ht_create :
      (granted granted_buckets : Bool) (num_buckets : ℕ)
      → (K → ℕ)
      → (K → K → ℤ)
      → (key_destroy value_destroy : Bool) → Option (HashTable K V)
  ht_create granted granted_buckets num_buckets hash key_eq key_destroy value_destroy =
      let n = if num_buckets == 0 then 16 else num_buckets in
      if granted && granted_buckets
      then some (record {
        buckets = replicate n [];
        num_buckets = n;
        size = 0;
        hash = hash;
        key_eq = key_eq;
        key_destroy = key_destroy;
        value_destroy = value_destroy;
      })
      else none

  pub release_value : HashTable K V → Option V → Release K V
  release_value t value = if t.value_destroy then value_destroyed value else value_freed value

  -- What an entry gives back when it goes.
  pub release_entry : HashTable K V → HashEntry K V → List (Release K V)
  release_entry t e =
      (if t.key_destroy then key_destroyed e.key else key_freed e.key)
      ∷ release_value t e.value
      ∷ entry_freed e.key
      ∷ []

  pub release_chain : HashTable K V → Chain K V → List (Release K V)
  release_chain t [] = []
  release_chain t (e ∷ c) = release_entry t e ++ release_chain t c

  pub release_buckets : HashTable K V → List (Chain K V) → List (Release K V)
  release_buckets t [] = []
  release_buckets t (c ∷ cs) = release_chain t c ++ release_buckets t cs

  pub ht_destroy : Option (HashTable K V) → List (Release K V)
  ht_destroy none = []
  ht_destroy (some t) = release_buckets t t.buckets ++ (buckets_freed ∷ table_freed ∷ [])

  module _ (key_eq : K → K → ℤ) where
    -- The first entry with the key, if there is one.
    unfoldable pub find : K → Chain K V → Option (HashEntry K V)
    find k [] = none
    find k (e ∷ c) = if is_zero (key_eq e.key k) then some e else find k c

    -- The loop of `ht_insert`: the first entry with the key gets the value.
    pub assign : K → Option V → Chain K V → Chain K V
    assign k v [] = []
    assign k v (e ∷ c) =
        let rest = assign k v c in
        if is_zero (key_eq e.key k) then record e { value = v } ∷ c else e ∷ rest

    -- The loop of `ht_remove`: the first entry with the key is unlinked.
    pub erase : K → Chain K V → Chain K V
    erase k [] = []
    erase k (e ∷ c) = let rest = erase k c in if is_zero (key_eq e.key k) then c else e ∷ rest

  unfoldable pub index : HashTable K V → K → ℕ
  index t k = t.hash k % t.num_buckets

  -- `ht_insert` once the chain is at hand. The flags answer the allocations of the entry, its key
  -- and its value; where a new value is refused for an entry that is there, the old one is gone.
  pub insert_chain :
      (entry key_mem value_mem : Bool)
      → HashTable K V
      → K
      → V
      → Chain K V
      → ℤ × List (Release K V) × HashTable K V
  insert_chain entry key_mem value_mem t k v chain = elim (find t.key_eq k chain) [
    | some e ↦
        let stored = if value_mem then some v else none in
        (
          (if value_mem then success else failure),
          release_value t e.value ∷ [],
          record t { buckets = set t.buckets (index t k) (assign t.key_eq k stored chain) },
        )
    | none ↦
        if entry && (key_mem && value_mem)
        then (
          success,
          [],
          record t {
            buckets = set t.buckets (index t k) (record { key = k; value = some v } ∷ chain);
            size = (t.size + 1) % size_mod;
          },
        )
        else (failure, [], t)
  ]

  pub ht_insert :
      (entry key_mem value_mem : Bool)
      → Option (HashTable K V)
      → Option K
      → Option V
      → Run (ℤ × List (Release K V) × Option (HashTable K V))
  ht_insert entry key_mem value_mem none k v = ok (failure, [], none)
  ht_insert entry key_mem value_mem (some t) none v = ok (failure, [], some t)
  ht_insert entry key_mem value_mem (some t) (some k) none = ok (failure, [], some t)
  ht_insert entry key_mem value_mem (some t) (some k) (some v) = do
    chain ← deref (get_elem? t.buckets (index t k))
    let done = insert_chain entry key_mem value_mem t k v chain
    ok (done.0, done.1, some done.2)

  unfoldable pub ht_search :
      (wanted : Bool) → Option (HashTable K V) → Option K → Run (ℤ × Option V)
  ht_search wanted none k = ok (failure, none)
  ht_search wanted (some t) none = ok (failure, none)
  ht_search wanted (some t) (some k) = do
    chain ← deref (get_elem? t.buckets (index t k))
    elim (find t.key_eq k chain) [ none ↦ ok (failure, none) | some e ↦ copy_value wanted e.value ]

  pub remove_chain : HashTable K V → K → Chain K V → ℤ × List (Release K V) × HashTable K V
  remove_chain t k chain = elim (find t.key_eq k chain) [
    | none ↦ (failure, [], t)
    | some e ↦ (
      success,
      release_entry t e,
      record t {
        buckets = set t.buckets (index t k) (erase t.key_eq k chain);
        size = (t.size + size_mod - 1) % size_mod;
      },
    )
  ]

  pub ht_remove :
      Option (HashTable K V) → Option K → Run (ℤ × List (Release K V) × Option (HashTable K V))
  ht_remove none k = ok (failure, [], none)
  ht_remove (some t) none = ok (failure, [], some t)
  ht_remove (some t) (some k) = do
    chain ← deref (get_elem? t.buckets (index t k))
    let done = remove_chain t k chain
    ok (done.0, done.1, some done.2)

  pub ht_size : Option (HashTable K V) → ℕ
  ht_size none = 0
  ht_size (some t) = t.size

  pub ht_is_empty : Option (HashTable K V) → Bool
  ht_is_empty none = true
  ht_is_empty (some t) = t.size == 0
