-- ===== src/Pmic/Voltage.antt =====
-- The voltage codes of `tps6594_regulator_set_voltage` and `tps6594_regulator_get_voltage`.
use mathlib.Core.Path.{subst}
use c_data_structures.Prelude.{
  ℕ, ◌+◌, ◌<◌, ◌≤◌, ◌≡◌, ◌⊎◌, ap, ◌∙◌, sym, true, some, not, ◌||◌, ltb, arith, lt→ltb, get_elem?,
  set,
}
use c_data_structures.Pmic.Registers.{reg_buck1_volt, reg_ldo1_volt, regulator_count}
use c_data_structures.Pmic.Types.{Device, RegulatorState}
use c_data_structures.Pmic.Driver.{State, Res, and_then, ◌>>=◌, ok, err, nocomm}
use c_data_structures.Pmic.Bus.{Board}
use c_data_structures.Pmic.Chip.{
  IsChip, on, Same, Stored, i2c_read-Got, i2c_write-Written, Got-bind, Written-bind,
}
use c_data_structures.Pmic.Status.{update_regulator-some}
use c_data_structures.Pmic.Regulator.{
  voltage_range, volt_to_reg, reg_to_volt, reg_address, regulator_set_voltage,
  regulator_get_voltage,
}

-- A voltage that the code accepts for the regulator.
abbrev pub Accepted : (id v : ℕ) → Type 0
Accepted id v = ((voltage_range id).min_v ≤ v) × (v ≤ (voltage_range id).max_v)

pub reg_to_volt-volt_to_reg :
    (id v : ℕ)
    → Accepted id v
    → ((5 ≤ id) ⊎ (v < 1580))
    → (reg_to_volt id (volt_to_reg id v) ≤ v)
      × (v < reg_to_volt id (volt_to_reg id v) + (voltage_range id).step)
unfolding reg_to_volt volt_to_reg voltage_range
reg_to_volt-volt_to_reg id v h c = ground arith

-- For a BUCK and an accepted voltage of 1580 mV or more, the code does not fit the 8-bit
-- register: the voltage that the code stands for is at least 1280 mV below the one that was
-- asked for.
pub reg_to_volt-wraps :
    (id v : ℕ) → id < 5 → 1580 ≤ v → v ≤ 3340 → reg_to_volt id (volt_to_reg id v) + 1280 ≤ v
unfolding reg_to_volt volt_to_reg voltage_range
reg_to_volt-wraps id v h lo hi = ground arith

Accepted-test :
    (id v : ℕ)
    → Accepted id v
    → not (ltb v (voltage_range id).min_v || ltb (voltage_range id).max_v v) ≡ true
Accepted-test id v h = ground arith

-- The instance with the voltage of a regulator noted.
abbrev pub noted : (id v : ℕ) → RegulatorState → Device → Device
noted id v r d = record d { regulators = set d.regulators id (record r { voltage_mv = v }) }

module _ {W : Type 0} {board : Board W} (chip : IsChip board) where
  open chip use {regs, Plain}

  -- How setting a voltage ends: with the code stored and the voltage noted in the instance, or with
  -- an error and no change.
  pub data SetTo (id v : ℕ) (r : RegulatorState) (d : Device) (w : W)
      : Res (Unit {0}) × State W → Type 0 where
    set_to :
        {w' : W}
        → Stored chip (reg_address reg_buck1_volt reg_ldo1_volt id) (volt_to_reg id v) w w'
        → SetTo id v r d w (ok tt, on (noted id v r d) w')
    left : {w' : W} → Same chip w w' → SetTo id v r d w (err nocomm, on d w')

  regulator_set_voltage-SetTo :
      (id v : ℕ) (r : RegulatorState) (d : Device) (w : W)
      → d.initialized ≡ true
      → id < regulator_count
      → get_elem? d.regulators id ≡ some r
      → Accepted id v
      → Plain (reg_address reg_buck1_volt reg_ldo1_volt id)
      → SetTo id v r d w (regulator_set_voltage board id v (on d w))
  unfolding regulator_set_voltage
  regulator_set_voltage-SetTo id v r d w up small has acc plain =
      simp (up, lt→ltb id regulator_count small, Accepted-test id v acc)
        (Written-bind chip (SetTo id v r d w) _ _ d w _
          (i2c_write-Written chip _ (volt_to_reg id v) d w plain)
          (λ w' st.
            subst (SetTo id v r d w) (sym (update_regulator-some id _ r d w' has)) (set_to st))
          (λ w' same. left same))

  -- How reading a voltage ends.
  pub data Reads (P : ℕ → Type 0) (d : Device) (w : W) : Res ℕ × State W → Type 0 where
    reads : {w' : W} (v : ℕ) → P v → Same chip w w' → Reads P d w (ok v, on d w')
    lost : {w' : W} → Same chip w w' → Reads P d w (err nocomm, on d w')

  regulator_get_voltage-Reads :
      (id : ℕ) (d : Device) (w : W)
      → d.initialized ≡ true
      → id < regulator_count
      → Reads
          (λ v. v ≡ reg_to_volt id (regs w (reg_address reg_buck1_volt reg_ldo1_volt id)))
          d
          w
          (regulator_get_voltage board true id (on d w))
  unfolding regulator_get_voltage
  regulator_get_voltage-Reads id d w up small =
      simp (up, lt→ltb id regulator_count small)
        (Got-bind chip (Reads _ d w) _ d w _ (i2c_read-Got chip _ d w)
          (λ n w' e same. reads _ (ap (reg_to_volt id) e) same) (λ w' same. lost same))

  -- The voltage that is read lies below the one that was set by less than a step.
  abbrev pub Near : (id v m : ℕ) → Type 0
  Near id v m = (m ≤ v) × (v < m + (voltage_range id).step)

  -- How setting a voltage and reading it back ends.
  pub data SetThenRead (id v : ℕ) : Res ℕ × State W → Type 0 where
    near : {s : State W} (m : ℕ) → Near id v m → SetThenRead id v (ok m, s)
    no_comm : {s : State W} → SetThenRead id v (err nocomm, s)

  -- On a board that keeps its plain registers and an initialised instance, setting an accepted
  -- voltage and reading it back gives, where the voltage register is plain and the regulator is
  -- an LDO or the voltage is below 1580 mV, a voltage at most the one that was set and less
  -- than one step below it, or TPS6594_ERR_NOCOMM.
  pub set_then_get :
      (id v : ℕ) (r : RegulatorState) (d : Device) (w : W)
      → d.initialized ≡ true
      → id < regulator_count
      → get_elem? d.regulators id ≡ some r
      → Accepted id v
      → ((5 ≤ id) ⊎ (v < 1580))
      → Plain (reg_address reg_buck1_volt reg_ldo1_volt id)
      → SetThenRead id v
          ((regulator_set_voltage board id v >>= λ _. regulator_get_voltage board true id) (on d w))
  set_then_get id v r d w up small has acc fits plain =
      after_set (regulator_set_voltage-SetTo id v r d w up small has acc plain)
    where
      after_get :
          {d' : Device} {w' : W} {o : Res ℕ × State W}
          → regs w' (reg_address reg_buck1_volt reg_ldo1_volt id) ≡ volt_to_reg id v
          → Reads
              (λ n. n ≡ reg_to_volt id (regs w' (reg_address reg_buck1_volt reg_ldo1_volt id)))
              d'
              w'
              o
          → SetThenRead id v o
      after_get e (reads m eq same) = near m (
          subst (Near id v) (sym (eq ∙ ap (reg_to_volt id) e))
            (reg_to_volt-volt_to_reg id v acc fits))
      after_get e (lost same) = no_comm

      after_set :
          {o : Res (Unit {0}) × State W}
          → SetTo id v r d w o
          → SetThenRead id v (and_then o (λ _. regulator_get_voltage board true id))
      after_set (set_to {w'} st) =
          after_get (st _ plain ∙ ground arith)
            (regulator_get_voltage-Reads id (noted id v r d) w' up small)
      after_set (left same) = no_comm
