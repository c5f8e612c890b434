-- ===== src/Prelude/Lists.antt =====
-- Lists measured and indexed by native numbers, under the library's names.
use Prim.Native.Nat.{ℕ, zero, suc, ◌+◌, ◌-◌, ◌≤◌, ◌<◌, min}
use mathlib.Core.Path.{◌≡◌, refl, ap}
use mathlib.Core.Logic.{◌≢◌, ◌⊎◌, inl, inr}
use mathlib.Core.List.{List, [], ◌∷◌, ◌++◌, map}
use mathlib.Core.Option.{Option, none, some}
use native.Mathlib.Omega.{arith}

module _ {ℓ} {A : Type ℓ} where
  abbrev pub length : List A → ℕ
  length [] = 0
  length (x ∷ xs) = suc (length xs)

  abbrev pub get_elem? : List A → ℕ → Option A
  get_elem? [] i = none
  get_elem? (x ∷ xs) zero = some x
  get_elem? (x ∷ xs) (suc i) = get_elem? xs i

  -- A write out of bounds changes nothing.
  abbrev pub set : List A → ℕ → A → List A
  set [] i v = []
  set (x ∷ xs) zero v = v ∷ xs
  set (x ∷ xs) (suc i) v = x ∷ set xs i v

  pub length-append : (xs ys : List A) → length (xs ++ ys) ≡ length xs + length ys
  length-append [] ys = omega arith
  length-append (x ∷ xs) ys = omega (arith, length-append xs ys)

module _ {ℓ} {A : Type ℓ} where
  pub length-set : (xs : List A) (i : ℕ) (v : A) → length (set xs i v) ≡ length xs
  length-set [] i v = refl
  length-set (x ∷ xs) zero v = refl
  length-set (x ∷ xs) (suc i) v = ap suc (length-set xs i v)

  pub get_elem?-set_self :
      (xs : List A) (i : ℕ) (v : A) → i < length xs → get_elem? (set xs i v) i ≡ some v
  get_elem?-set_self [] i v h = elim h [ ]
  get_elem?-set_self (x ∷ xs) zero v h = refl
  get_elem?-set_self (x ∷ xs) (suc i) v h = get_elem?-set_self xs i v (omega arith)

  pub get_elem?-set_ne :
      (xs : List A) {i j : ℕ} (v : A) → i ≢ j → get_elem? (set xs i v) j ≡ get_elem? xs j
  get_elem?-set_ne [] v h = refl
  get_elem?-set_ne (x ∷ xs) {i = zero} {j = zero} v h = absurd (h refl)
  get_elem?-set_ne (x ∷ xs) {i = zero} {j = suc j} v h = refl
  get_elem?-set_ne (x ∷ xs) {i = suc i} {j = zero} v h = refl
  get_elem?-set_ne (x ∷ xs) {i = suc i} {j = suc j} v h = get_elem?-set_ne xs v (λ e. h (ap suc e))

module _ {ℓ} {A : Type ℓ} where
  abbrev pub get_or : List A → ℕ → A → A
  get_or [] i d = d
  get_or (x ∷ xs) zero d = x
  get_or (x ∷ xs) (suc i) d = get_or xs i d

  abbrev pub take : ℕ → List A → List A
  take zero xs = []
  take (suc n) [] = []
  take (suc n) (x ∷ xs) = x ∷ take n xs

  abbrev pub drop : ℕ → List A → List A
  drop zero xs = xs
  drop (suc n) [] = []
  drop (suc n) (x ∷ xs) = drop n xs

  abbrev pub replicate : ℕ → A → List A
  replicate zero a = []
  replicate (suc n) a = a ∷ replicate n a

  take-append-drop : (n : ℕ) (xs : List A) → take n xs ++ drop n xs ≡ xs
  take-append-drop zero xs = refl
  take-append-drop (suc n) [] = refl
  take-append-drop (suc n) (x ∷ xs) = rw (take-append-drop n xs)

  pub length-take : (n : ℕ) (xs : List A) → length (take n xs) ≡ min n (length xs)
  length-take zero xs = omega arith
  length-take (suc n) [] = omega arith
  length-take (suc n) (x ∷ xs) = omega (arith, length-take n xs)

  pub length-drop : (n : ℕ) (xs : List A) → length (drop n xs) ≡ length xs - n
  length-drop zero xs = omega arith
  length-drop (suc n) [] = omega arith
  length-drop (suc n) (x ∷ xs) = omega (arith, length-drop n xs)

  pub length-replicate : (n : ℕ) (a : A) → length (replicate n a) ≡ n
  length-replicate zero a = refl
  length-replicate (suc n) a = ap suc (length-replicate n a)

  pub length-map {κ} : {B : Type κ} (xs : List A) (f : A → B) → length (map f xs) ≡ length xs
  length-map [] f = refl
  length-map (x ∷ xs) f = ap suc (length-map xs f)

  -- A segment begins with the element at its index.
  pub take-drop-cons :
      (xs : List A) (h n : ℕ) (y : A)
      → get_elem? xs h ≡ some y
      → take (suc n) (drop h xs) ≡ y ∷ take n (drop (suc h) xs)
  take-drop-cons [] h n y e = cc
  take-drop-cons (x ∷ xs) zero n y e = ground arith
  take-drop-cons (x ∷ xs) (suc h) n y e = take-drop-cons xs h n y e

  pub take-drop-uncons :
      (xs : List A) (h n : ℕ) (y : A) (ys : List A)
      → take (suc n) (drop h xs) ≡ y ∷ ys
      → (get_elem? xs h ≡ some y) × (take n (drop (suc h) xs) ≡ ys)
  take-drop-uncons [] zero n y ys e = cc
  take-drop-uncons [] (suc h) n y ys e = cc
  take-drop-uncons (x ∷ xs) zero n y ys e = ground arith
  take-drop-uncons (x ∷ xs) (suc h) n y ys e = take-drop-uncons xs h n y ys e

  pub take-append : (xs ys : List A) (n : ℕ) → n ≡ length xs → take n (xs ++ ys) ≡ xs
  take-append [] ys zero e = refl
  take-append [] ys (suc n) e = absurd (omega arith)
  take-append (x ∷ xs) ys zero e = absurd (omega arith)
  take-append (x ∷ xs) ys (suc n) e = ap (λ t. x ∷ t) (take-append xs ys n (omega arith))

  drop-append : (xs ys : List A) (n : ℕ) → n ≡ length xs → drop n (xs ++ ys) ≡ ys
  drop-append [] ys zero e = refl
  drop-append [] ys (suc n) e = absurd (omega arith)
  drop-append (x ∷ xs) ys zero e = absurd (omega arith)
  drop-append (x ∷ xs) ys (suc n) e = drop-append xs ys n (omega arith)

  pub take-all : (n : ℕ) (xs : List A) → length xs ≤ n → take n xs ≡ xs
  take-all zero [] h = refl
  take-all zero (x ∷ xs) h = absurd (omega arith)
  take-all (suc n) [] h = refl
  take-all (suc n) (x ∷ xs) h = ap (λ t. x ∷ t) (take-all n xs (omega arith))

  pub get_elem?-append_left :
      (xs ys : List A) (i : ℕ) → i < length xs → get_elem? (xs ++ ys) i ≡ get_elem? xs i
  get_elem?-append_left [] ys i h = absurd (omega arith)
  get_elem?-append_left (x ∷ xs) ys zero h = refl
  get_elem?-append_left (x ∷ xs) ys (suc i) h = get_elem?-append_left xs ys i (omega arith)

module _ {ℓ} {A : Type ℓ} where
  -- A position that is out of range changes nothing.
  abbrev pub insert_at : List A → ℕ → A → List A
  insert_at xs zero v = v ∷ xs
  insert_at [] (suc i) v = []
  insert_at (x ∷ xs) (suc i) v = x ∷ insert_at xs i v

  abbrev pub remove_at : List A → ℕ → List A
  remove_at [] i = []
  remove_at (x ∷ xs) zero = xs
  remove_at (x ∷ xs) (suc i) = x ∷ remove_at xs i

  pub length-insert_at :
      (xs : List A) (i : ℕ) (v : A) → i ≤ length xs → length (insert_at xs i v) ≡ suc (length xs)
  length-insert_at xs zero v h = refl
  length-insert_at [] (suc i) v h = absurd (omega arith)
  length-insert_at (x ∷ xs) (suc i) v h = ap suc (length-insert_at xs i v (omega arith))

  pub length-remove_at :
      (xs : List A) (i : ℕ) → i < length xs → suc (length (remove_at xs i)) ≡ length xs
  length-remove_at [] i h = absurd (omega arith)
  length-remove_at (x ∷ xs) zero h = refl
  length-remove_at (x ∷ xs) (suc i) h = ap suc (length-remove_at xs i (omega arith))

  -- Where an element of the longer list comes from, and one of the shorter list.
  pub elem-insert_at :
      (xs : List A) (k i : ℕ) (v w : A)
      → k ≤ length xs
      → get_elem? (insert_at xs k v) i ≡ some w
      → ((i < k) × (get_elem? xs i ≡ some w))
        ⊎ (((i ≡ k) × (some v ≡ some w))
            ⊎ ((j : ℕ) × (i ≡ suc j) × (k ≤ j) × (get_elem? xs j ≡ some w)))
  elem-insert_at xs zero zero v w h e = inr (inl (refl, e))
  elem-insert_at xs zero (suc i) v w h e = inr (inr (i, refl, omega arith, e))
  elem-insert_at [] (suc k) i v w h e = absurd (omega arith)
  elem-insert_at (x ∷ xs) (suc k) zero v w h e = inl (omega arith, e)
  elem-insert_at (x ∷ xs) (suc k) (suc i) v w h e =
      elim (elem-insert_at xs k i v w (omega arith) e) [
        | inl (lt, has) ↦ inl (omega arith, has)
        | inr rest ↦ elim rest [
          | inl (at, same) ↦ inr (inl (ap suc at, same))
          | inr (j, at, le, has) ↦ inr (inr (suc j, ap suc at, omega arith, has))
        ]
      ]

  pub elem-remove_at :
      (xs : List A) (k i : ℕ) (w : A)
      → get_elem? (remove_at xs k) i ≡ some w
      → ((i < k) × (get_elem? xs i ≡ some w)) ⊎ ((k ≤ i) × (get_elem? xs (suc i) ≡ some w))
  elem-remove_at [] k i w e = absurd (ground arith)
  elem-remove_at (x ∷ xs) zero i w e = inr (omega arith, e)
  elem-remove_at (x ∷ xs) (suc k) zero w e = inl (omega arith, e)
  elem-remove_at (x ∷ xs) (suc k) (suc i) w e = elim (elem-remove_at xs k i w e) [
    | inl (lt, has) ↦ inl (omega arith, has)
    | inr (le, has) ↦ inr (omega arith, has)
  ]

  pub insert_at-length : (xs : List A) (v : A) → insert_at xs (length xs) v ≡ xs ++ (v ∷ [])
  insert_at-length [] v = refl
  insert_at-length (x ∷ xs) v = ap (λ t. x ∷ t) (insert_at-length xs v)
