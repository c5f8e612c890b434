-- ===== src/Queue/Window.antt =====
-- The elements of a circular array, read from one index on.
use native.Mathlib.Nat.{mod-add-mod, mod-eq_of_lt, mod-eq-sub-mod, add-zero}
use mathlib.Core.Path.{subst}
use native.Mathlib.Decide.{dec_lt}
use c_data_structures.Prelude.{
  ℕ, suc, ◌+◌, ◌-◌, ◌%◌, ◌≤◌, ◌<◌, ◌≡◌, refl, ap, ◌∙◌, ◌≢◌, ◌⊎◌, inl, inr, some, List, [], ◌∷◌,
  ◌++◌, map, arith, length, get_elem?, set, take, drop, get_elem?-set_self, get_elem?-set_ne, sym,
  take-drop-cons, take-drop-uncons,
}
use c_data_structures.Buffer.{Buffer}

-- A number below twice the modulus is itself, or one modulus too much.
mod_once :
    (cap total : ℕ)
    → total < cap + cap
    → ((total < cap) × (total % cap ≡ total)) ⊎ ((cap ≤ total) × (total % cap ≡ total - cap))
mod_once cap total below = elim (dec_lt total cap) [
  | yes small ↦ inl (small, mod-eq_of_lt small)
  | no large ↦ inr (
    omega arith,
    mod-eq-sub-mod (omega arith) ∙ mod-eq_of_lt {n = total - cap} {m = cap} (omega arith),
  )
]

-- Fewer than `cap` steps round the array do not come back to the start.
round_ne : {cap start steps : ℕ} → start < cap → suc steps < cap → (start + suc steps) % cap ≢ start
round_ne {cap} {start} {steps} in_array fewer =
    elim (mod_once cap (start + suc steps) (omega arith)) [
      | inl (small, e) ↦ omega (arith, e)
      | inr (large, e) ↦ omega (arith, e)
    ]

module _ {ℓ} {A : Type ℓ} where
  -- From index `h` on, going round at `cap`, the cells hold the elements of the list.
  abbrev pub Holds : Buffer A → ℕ → ℕ → List A → Type ℓ
  Holds block cap h [] = Unit
  Holds block cap h (x ∷ xs) =
      (get_elem? block h ≡ some (some x)) × Holds block cap ((h + 1) % cap) xs

  -- A write just past a window extends it by the element.
  pub Holds-set :
      (block : Buffer A) (cap : ℕ) (x : A) (xs : List A) (h i : ℕ)
      → cap ≤ length block
      → h < cap
      → length xs < cap
      → i ≡ (h + length xs) % cap
      → Holds block cap h xs
      → Holds (set block i (some x)) cap h (xs ++ (x ∷ []))
  Holds-set block cap x [] h i big hh room at held =
      (rw (at, add-zero, mod-eq_of_lt hh) (get_elem?-set_self block h (some x) (omega arith)), tt)
  Holds-set block cap x (y ∷ ys) h i big hh room at held = (
    get_elem?-set_ne block (some x) (rw at (round_ne hh room)) ∙ held.0,
    Holds-set block cap x ys ((h + 1) % cap) i big (omega arith) (omega arith) (at ∙ shift) held.1,
  )
    where
      shift : (h + suc (length ys)) % cap ≡ ((h + 1) % cap + length ys) % cap
      shift = rw mod-add-mod (ap (λ k. k % cap) (omega arith))

  -- A window that does not go round, as a segment of the block.
  pub segment-Holds :
      (block : Buffer A) (cap : ℕ) (xs : List A) (h : ℕ)
      → h + length xs ≤ cap
      → Holds block cap h xs
      → take (length xs) (drop h block) ≡ map some xs
  segment-Holds block cap [] h fits held = refl
  segment-Holds block cap (x ∷ []) h fits held = take-drop-cons block h 0 (some x) held.0
  segment-Holds block cap (x ∷ y ∷ ys) h fits held =
      take-drop-cons block h (suc (length ys)) (some x) held.0
      ∙ ap (λ t. some x ∷ t)
          (segment-Holds block cap (y ∷ ys) (suc h) (omega arith)
            (subst (λ k. Holds block cap k (y ∷ ys)) next held.1))
    where
      next : (h + 1) % cap ≡ suc h
      next = mod-eq_of_lt {n = h + 1} {m = cap} (omega arith) ∙ omega arith

  pub Holds-segment :
      (block : Buffer A) (cap : ℕ) (xs : List A) (h : ℕ)
      → h + length xs ≤ cap
      → take (length xs) (drop h block) ≡ map some xs
      → Holds block cap h xs
  Holds-segment block cap [] h fits same = tt
  Holds-segment block cap (x ∷ []) h fits same =
      ((take-drop-uncons block h 0 (some x) [] same).0, tt)
  Holds-segment block cap (x ∷ y ∷ ys) h fits same =
      let parts = take-drop-uncons block h (suc (length ys)) (some x) (map some (y ∷ ys)) same in
      (
        parts.0,
        subst (λ k. Holds block cap k (y ∷ ys)) (sym next)
            (Holds-segment block cap (y ∷ ys) (suc h) (omega arith) parts.1),
      )
    where
      next : (h + 1) % cap ≡ suc h
      next = mod-eq_of_lt {n = h + 1} {m = cap} (omega arith) ∙ omega arith
