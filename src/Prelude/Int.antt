-- ===== src/Prelude/Int.antt =====
-- Signed integers over the native numbers: the `int` that the functions return.
use Prim.Native.Nat.{ℕ, zero, suc}
use mathlib.Core.Bool.{Bool, true, false}

-- `negsuc n` is -(n + 1).
pub data ℤ : Type 0 where
  pos : ℕ → ℤ
  negsuc : ℕ → ℤ

abbrev pub is_zero : ℤ → Bool
is_zero (pos zero) = true
is_zero (pos (suc n)) = false
is_zero (negsuc n) = false

abbrev pub is_negative : ℤ → Bool
is_negative (pos n) = false
is_negative (negsuc n) = true

-- `return 0` and `return -1`.
abbrev pub success : ℤ
success = pos 0

abbrev pub failure : ℤ
failure = negsuc 0
