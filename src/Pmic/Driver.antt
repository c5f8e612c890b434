-- ===== src/Pmic/Driver.antt =====
-- Commands over the state of the TPS6594 driver: error codes, early returns and the instance that
-- `dev` points to.
use c_data_structures.Prelude.{Bool, true, false, Option, none, some, if◌then◌else◌}
use c_data_structures.Prelude.Int.{ℤ, negsuc}
use c_data_structures.Pmic.Types.{Device}

-- The error codes that the functions return.
pub data Error : Type 0 where
  inval : Error
  nocomm : Error
  nomatch : Error

abbrev pub error_code : Error → ℤ
error_code inval = negsuc 0
error_code nocomm = negsuc 1
error_code nomatch = negsuc 3

-- What a function returns: `TPS6594_ERR_OK`, with what goes through its out pointers; an error; or
-- undefined behaviour.
pub data Res (A : Type 0) : Type 0 where
  ok : A → Res A
  err : Error → Res A
  fault : Res A

-- The driver's state: the instance that `dev` points to (`none` where it is NULL), and the world
-- behind the I2C bus.
pub record State (W : Type 0) : Type 0 where
  pub dev : Option Device
  pub world : W

abbrev pub Drv : Type 0 → Type 0 → Type 0
Drv W A = State W → Res A × State W

module _ {W A B : Type 0} where
  abbrev pub and_then : Res A × State W → (A → Drv W B) → Res B × State W
  and_then (ok a, s) f = f a s
  and_then (err e, s) f = (err e, s)
  and_then (fault, s) f = (fault, s)

  infixl 5 ◌>>=◌
  abbrev pub ◌>>=◌ : Drv W A → (A → Drv W B) → Drv W B
  m >>= f = λ s. and_then (m s) f

module _ {W : Type 0} where
  infixl 5 ◌>>◌
  abbrev pub ◌>>◌ : {A B : Type 0} → Drv W A → Drv W B → Drv W B
  m >> n = m >>= λ _. n

  abbrev pub pure : {A : Type 0} → A → Drv W A
  pure a s = (ok a, s)

  abbrev pub throw : {A : Type 0} → Error → Drv W A
  throw e s = (err e, s)

  -- `if (...) return error;`
  abbrev pub require : Bool → Error → Drv W (Unit {0})
  require true e = pure tt
  require false e = throw e

  -- The instance, where the code follows `dev` with no test.
  abbrev pub device : Drv W Device
  device s = (elim s.dev [ none ↦ fault | some d ↦ ok d ], s)

  -- `if (!dev || !dev->initialized) return TPS6594_ERR_INVAL;`
  abbrev pub ready : Drv W Device
  ready s =
      (elim s.dev [ none ↦ err inval | some d ↦ if d.initialized then ok d else err inval ], s)

  -- An assignment to the instance's fields.
  abbrev pub set_device : Device → Drv W (Unit {0})
  set_device d s = (ok tt, record s { dev = some d })

  -- A call whose result is not looked at.
  abbrev pub ignore : {A : Type 0} → Drv W A → Drv W (Unit {0})
  ignore m s = let (r, s') = m s in (elim r [ ok a ↦ ok tt | err e ↦ ok tt | fault ↦ fault ], s')
