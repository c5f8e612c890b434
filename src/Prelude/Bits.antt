-- ===== src/Prelude/Bits.antt =====
-- The bits of `&`, `|` and `^` at variables, from the digit recursion that the native operations
-- stand for.
use Prim.Native.Nat.{
  ℕ, zero, suc, ◌+◌, ◌-◌, ◌*◌, ◌/◌, ◌%◌, ◌^◌, ◌≤◌, ◌<◌, min, max, bit_and, bit_or, digits, bitwise,
  bit_and-bitwise, bit_or-bitwise,
}
use mathlib.Core.Path.{◌≡◌, refl, ◌∙◌, ap, ap₂}
use native.Mathlib.Omega.{arith, pow_step}

-- The bit of `a` at position `k`.
unfoldable pub bit : ℕ → ℕ → ℕ
bit a zero = a % 2
bit a (suc k) = bit (a / 2) k

module _ (base : ℕ → ℕ) (op : ℕ → ℕ → ℕ) where
  -- The fuel of the digit recursion does not matter once the first operand is no greater.
  digits_fuel :
      (fuel more x y : ℕ) → x ≤ more → x ≤ fuel → digits base op more x y ≡ digits base op fuel x y
  digits_fuel zero zero x y p r = refl
  digits_fuel zero (suc more) zero y p r = refl
  digits_fuel zero (suc more) (suc x) y p r = absurd (omega arith)
  digits_fuel (suc fuel) zero zero y p r = refl
  digits_fuel (suc fuel) zero (suc x) y p r = absurd (omega arith)
  digits_fuel (suc fuel) (suc more) zero y p r = refl
  digits_fuel (suc fuel) (suc more) (suc x) y p r =
      let halves = digits_fuel fuel more (suc x / 2) (y / 2) (omega arith) (omega arith) in
      rw halves refl

  -- One step of the recursion.
  digit_step :
      (x y : ℕ)
      → bitwise base op (suc x) y ≡ op (suc x % 2) (y % 2) + 2 * bitwise base op (suc x / 2) (y / 2)
  digit_step x y =
      omega (arith, digits_fuel (suc x / 2) x (suc x / 2) (y / 2) (omega arith) (omega arith))

and_step : (x y : ℕ) → bit_and x y ≡ min (x % 2) (y % 2) + 2 * bit_and (x / 2) (y / 2)
and_step zero y = simp bit_and-bitwise (omega arith)
and_step (suc x) y = simp bit_and-bitwise (digit_step (λ _. 0) min x y)

or_step : (x y : ℕ) → bit_or x y ≡ max (x % 2) (y % 2) + 2 * bit_or (x / 2) (y / 2)
or_step zero y = simp bit_or-bitwise (omega arith)
or_step (suc x) y = simp bit_or-bitwise (digit_step (λ n. n) max x y)

pub bit-lt : (a k : ℕ) → bit a k < 2
unfolding bit
bit-lt a zero = omega arith
bit-lt a (suc k) = bit-lt (a / 2) k

-- The bit of `a & b` is the smaller of the two bits.
pub bit-bit_and : (a b k : ℕ) → bit (bit_and a b) k ≡ min (bit a k) (bit b k)
unfolding bit
bit-bit_and a b zero = omega (arith, and_step a b)
bit-bit_and a b (suc k) =
    ap (λ t. bit t k) (omega (arith, and_step a b)) ∙ bit-bit_and (a / 2) (b / 2) k

-- The bit of `a | b` is the greater of the two bits.
pub bit-bit_or : (a b k : ℕ) → bit (bit_or a b) k ≡ max (bit a k) (bit b k)
unfolding bit
bit-bit_or a b zero = omega (arith, or_step a b)
bit-bit_or a b (suc k) =
    ap (λ t. bit t k) (omega (arith, or_step a b)) ∙ bit-bit_or (a / 2) (b / 2) k

-- 2 ^ n - 1.
ones : ℕ → ℕ
ones zero = 0
ones (suc n) = 2 * ones n + 1

bit-complement : (n m k : ℕ) → m ≤ ones n → k < n → bit (ones n - m) k ≡ 1 - bit m k
unfolding bit ones
bit-complement zero m k h lt = absurd (omega arith)
bit-complement (suc n) m zero h lt = omega arith
bit-complement (suc n) m (suc k) h lt =
    ap (λ t. bit t k) (omega arith) ∙ bit-complement n (m / 2) k (omega arith) (omega arith)

-- The complement of a byte has the other bit at each of the eight positions.
pub bit-complement8 : (m k : ℕ) → m < 256 → k < 8 → bit (255 - m) k ≡ 1 - bit m k
unfolding ones
bit-complement8 m k h lt = bit-complement 8 m k (omega arith) lt

digits_of_zero : (fuel a : ℕ) → digits (λ _. 0) min fuel a 0 ≡ 0
digits_of_zero zero a = refl
digits_of_zero (suc fuel) zero = refl
digits_of_zero (suc fuel) (suc a) = omega (arith, digits_of_zero fuel (suc a / 2))

and_zero : (a : ℕ) → bit_and a 0 ≡ 0
and_zero a = bit_and-bitwise a 0 ∙ digits_of_zero a a

-- `a & 1`.
pub bit_and-one : (a : ℕ) → bit_and a 1 ≡ bit a 0
unfolding bit
bit_and-one a = omega (arith, and_step a 1, and_zero (a / 2))

-- The lowest bits of a word of 32 bits.
pub bit-word : (a k : ℕ) → k < 4 → bit (a % 4294967296) k ≡ bit a k
unfolding bit
bit-word a zero h = omega arith
bit-word a (suc zero) h = omega arith
bit-word a (suc (suc zero)) h = omega arith
bit-word a (suc (suc (suc zero))) h = omega arith
bit-word a (suc (suc (suc (suc k)))) h = absurd (omega arith)

twice_shifted : (n m : ℕ) → m * (2 * n) ≡ 2 * (m * n)
twice_shifted n m = grind arith

digits_or_zero : (fuel a : ℕ) → a ≤ fuel → digits (λ b. b) max fuel a 0 ≡ a
digits_or_zero zero zero h = refl
digits_or_zero zero (suc a) h = absurd (omega arith)
digits_or_zero (suc fuel) zero h = refl
digits_or_zero (suc fuel) (suc a) h = omega (arith, digits_or_zero fuel (suc a / 2) (omega arith))

-- Two halves of a word put together.
pub bit_or-halves : (k hi lo : ℕ) → lo < 2 ^ k → bit_or (hi * 2 ^ k) lo ≡ hi * 2 ^ k + lo
bit_or-halves zero hi lo h =
    let low : lo ≡ 0 = omega arith in
    ap₂ bit_or {x = hi * 1} refl low
    ∙ (bit_or-bitwise (hi * 1) 0 ∙ digits_or_zero (hi * 1) (hi * 1) (omega arith))
    ∙ omega arith
bit_or-halves (suc k) hi lo h =
    let two = pow_step 2 k in
    let shift : hi * 2 ^ suc k ≡ 2 * (hi * 2 ^ k) =
      ap (λ t. hi * t) two ∙ twice_shifted (2 ^ k) hi in
    let half : (hi * 2 ^ suc k) / 2 ≡ hi * 2 ^ k = omega (arith, shift) in
    let rest =
      ap (λ t. bit_or t (lo / 2)) half ∙ bit_or-halves k hi (lo / 2) (omega (arith, two)) in
    omega (arith, or_step (hi * 2 ^ suc k) lo, rest, shift)
