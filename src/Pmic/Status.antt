-- ===== src/Pmic/Status.antt =====
-- The power-good bits that `tps6594_regulator_get_status` tests.
use Prim.Native.Nat.{bit_and}
use c_data_structures.Prelude.{
  ℕ, ◌-◌, ◌^◌, ◌<◌, ◌≤◌, ◌≡◌, ap, sym, Bool, true, not, none, some, get_elem?, set, ◌==◌, arith,
}
use c_data_structures.Pmic.Registers.{reg_pg_status}
use c_data_structures.Pmic.Types.{Device, RegulatorState}
use c_data_structures.Pmic.Driver.{State, Res, ok, err, fault, nocomm}
use c_data_structures.Pmic.Bus.{Board}
use c_data_structures.Pmic.Regulator.{pg_bit, update_regulator, regulator_get_status}
use c_data_structures.Pmic.Chip.{IsChip, on, i2c_read-Got, Got-bind}

pg_bit-shared : (id : ℕ) → 5 ≤ id → id < 8 → pg_bit id ≡ pg_bit (id - 3)
unfolding pg_bit
pg_bit-shared id lo hi = ground arith

-- An assignment to a regulator's state inside the array.
pub update_regulator-some :
    {W : Type 0} (id : ℕ) (change : RegulatorState → RegulatorState) (r : RegulatorState)
    (d : Device) (w : W)
    → get_elem? d.regulators id ≡ some r
    → update_regulator id change (on d w)
      ≡ (ok tt, on (record d { regulators = set d.regulators id (change r) }) w)
unfolding update_regulator
update_regulator-some {W} id change r d w has =
    ap
      (λ o. elim o as (λ _. Res (Unit {0}) × State W) [
        | none ↦ (fault, on d w)
        | some x ↦ (ok tt, on (record d { regulators = set d.regulators id (change x) }) w)
      ])
      has

module _ {W : Type 0} {board : Board W} (chip : IsChip board) where
  open chip use {regs}

  -- How a test of the power-good bit `k` ends, where PG_STATUS holds `n`.
  pub data Tested (k n : ℕ) : Res Bool × State W → Type 0 where
    tested : {s : State W} → Tested k n (ok (not (bit_and n (2 ^ k) == 0)), s)
    no_comm : {s : State W} → Tested k n (err nocomm, s)

  get_status-Tested :
      (id : ℕ) (r : RegulatorState) (d : Device) (w : W)
      → d.initialized ≡ true
      → get_elem? d.regulators id ≡ some r
      → Tested (pg_bit id) (regs w reg_pg_status) (regulator_get_status board true id (on d w))
  unfolding regulator_get_status
  get_status-Tested id r d w up has = simp up (
      Got-bind chip (Tested (pg_bit id) (regs w reg_pg_status)) _ d w _ (i2c_read-Got chip _ d w)
        (λ v w' e same. rw (sym e, update_regulator-some id _ r d w' has) tested)
        (λ w' same. no_comm))

  -- Two commands end alike: with the same Boolean, or one of them with TPS6594_ERR_NOCOMM.
  pub data Alike : Res Bool × State W → Res Bool × State W → Type 0 where
    alike : {s t : State W} (b : Bool) → Alike (ok b, s) (ok b, t)
    no_first : {s : State W} {o : Res Bool × State W} → Alike (err nocomm, s) o
    no_second : {s : State W} {o : Res Bool × State W} → Alike o (err nocomm, s)

  Tested-Alike : (k n : ℕ) {o p : Res Bool × State W} → Tested k n o → Tested k n p → Alike o p
  Tested-Alike k n tested tested = alike _
  Tested-Alike k n tested no_comm = no_second
  Tested-Alike k n no_comm t = no_first

  -- On an initialised instance whose array holds both regulators,
  -- `tps6594_regulator_get_status` of LDO1, LDO2 or LDO3 gives the same answer as of BUCK3,
  -- BUCK4 or BUCK5, unless one of the calls returns TPS6594_ERR_NOCOMM: both test one bit of
  -- PG_STATUS.
  pub get_status-Alike :
      (id : ℕ) (r q : RegulatorState) (d : Device) (w : W)
      → d.initialized ≡ true
      → 5 ≤ id
      → id < 8
      → get_elem? d.regulators id ≡ some r
      → get_elem? d.regulators (id - 3) ≡ some q
      → Alike
          (regulator_get_status board true id (on d w))
          (regulator_get_status board true (id - 3) (on d w))
  get_status-Alike id r q d w up lo hi has has' =
      Tested-Alike (pg_bit id) (regs w reg_pg_status) (get_status-Tested id r d w up has)
        (rw (pg_bit-shared id lo hi) (get_status-Tested (id - 3) q d w up has'))
