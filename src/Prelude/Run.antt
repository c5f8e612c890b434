-- ===== src/Prelude/Run.antt =====
-- The outcome of C code: a value, or undefined behaviour (an access outside an object, a NULL
-- pointer that is followed), or a loop whose fuel ran out.
use mathlib.Core.Path.{◌≡◌, refl}
use mathlib.Core.Option.{Option, none, some}
use native.Mathlib.Omega.{arith}

pub data Run {ℓ} (A : Type ℓ) : Type ℓ where
  ok : A → Run A
  fault : Run A
  out_of_fuel : Run A

infixl 5 ◌>>=◌ ◌>>◌
abbrev pub ◌>>=◌ {ℓ κ} : {A : Type ℓ} {B : Type κ} → Run A → (A → Run B) → Run B
ok a >>= f = f a
fault >>= f = fault
out_of_fuel >>= f = out_of_fuel

abbrev pub ◌>>◌ {ℓ κ} : {A : Type ℓ} {B : Type κ} → Run A → Run B → Run B
m >> n = m >>= λ _. n

-- A pointer that the code follows.
abbrev pub deref {ℓ} : {A : Type ℓ} → Option A → Run A
deref none = fault
deref (some a) = ok a

pub eq_of_ok {ℓ} : {A : Type ℓ} {a b : A} → ok a ≡ ok b → a ≡ b
eq_of_ok e = cc

-- A result that is computed from the value of a run.
pub bind_ok {ℓ κ} :
    {A : Type ℓ} {B : Type κ} (r : Run A) (f : A → B) {b : B}
    → (r >>= λ a. ok (f a)) ≡ ok b
    → (a : A) × (r ≡ ok a) × (f a ≡ b)
bind_ok (ok a) f e = (a, refl, eq_of_ok e)
bind_ok fault f e = ground arith
bind_ok out_of_fuel f e = ground arith

pub bind_inv {ℓ κ} :
    {A : Type ℓ} {B : Type κ} (r : Run A) (f : A → Run B) {b : B}
    → (r >>= f) ≡ ok b
    → (a : A) × (r ≡ ok a) × (f a ≡ ok b)
bind_inv (ok a) f e = (a, refl, e)
bind_inv fault f e = ground arith
bind_inv out_of_fuel f e = ground arith
