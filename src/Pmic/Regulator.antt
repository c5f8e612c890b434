-- ===== src/Pmic/Regulator.antt =====
-- Regulator control of tps6594_driver/src/tps6594.c.
use Prim.Native.Nat.{bit_and}
use c_data_structures.Prelude.{
  ℕ, ◌+◌, ◌-◌, ◌*◌, ◌/◌, ◌%◌, ◌^◌, Bool, not, none, some, ltb, leb, ◌==◌, if◌then◌else◌, get_elem?,
  set, ◌||◌,
}
use c_data_structures.Pmic.Registers.{
  regulator_buck5, regulator_count, reg_buck1_volt, reg_buck1_conf, reg_ldo1_volt, reg_ldo1_conf,
  reg_pg_status, buck_volt_min_mv, buck_volt_max_mv, buck_step_mv, ldo_volt_min_mv, ldo_volt_max_mv,
  ldo_step_mv,
}
use c_data_structures.Pmic.Types.{RegulatorState}
use c_data_structures.Pmic.Driver.{
  Drv, fault, inval, ◌>>=◌, ◌>>◌, pure, require, ready, set_device, device,
}
use c_data_structures.Pmic.Bus.{Board, i2c_read, i2c_write, reg_modify}

-- The address that belongs to a regulator, in a block of registers four apart.
unfoldable pub reg_address : (buck ldo id : ℕ) → ℕ
reg_address buck ldo id =
    (if leb id regulator_buck5 then buck + id * 4 else ldo + (id - 5) * 4) % 256

-- The range and the step of a regulator's voltage.
pub record VoltageRange : Type 0 where
  pub min_v : ℕ
  pub max_v : ℕ
  pub step : ℕ

unfoldable pub voltage_range : ℕ → VoltageRange
voltage_range id =
    if leb id regulator_buck5
    then record { min_v = buck_volt_min_mv; max_v = buck_volt_max_mv; step = buck_step_mv }
    else record { min_v = ldo_volt_min_mv; max_v = ldo_volt_max_mv; step = ldo_step_mv }

-- `reg_val = (voltage_mv - min_v) / step`, in a `uint8_t`.
unfoldable pub volt_to_reg : (id voltage_mv : ℕ) → ℕ
volt_to_reg id voltage_mv =
    let range = voltage_range id in (voltage_mv - range.min_v) / range.step % 256

-- `min_v + (reg_val * step)`, in a `uint16_t`.
unfoldable pub reg_to_volt : (id reg_val : ℕ) → ℕ
reg_to_volt id reg_val =
    let range = voltage_range id in (range.min_v + reg_val * range.step) % 2 ^ 16

-- The position of a regulator's bit in PG_STATUS.
unfoldable pub pg_bit : ℕ → ℕ
pg_bit id = if leb id regulator_buck5 then id else id - 3

-- An assignment to a field of `dev->regulators[id]`; outside the array it is a fault.
unfoldable pub update_regulator :
    {W : Type 0} → ℕ → (RegulatorState → RegulatorState) → Drv W (Unit {0})
update_regulator id change = do
  d ← device
  λ s. elim (get_elem? d.regulators id) [
    | none ↦ (fault, s)
    | some r ↦ set_device (record d { regulators = set d.regulators id (change r) }) s
  ]

module _ {W : Type 0} (board : Board W) where
  unfoldable pub regulator_enable : ℕ → Drv W (Unit {0})
  regulator_enable id = do
    ready
    require (ltb id regulator_count) inval
    reg_modify board (reg_address reg_buck1_conf reg_ldo1_conf id) 0x80 0x80

  unfoldable pub regulator_disable : ℕ → Drv W (Unit {0})
  regulator_disable id = do
    ready
    require (ltb id regulator_count) inval
    reg_modify board (reg_address reg_buck1_conf reg_ldo1_conf id) 0x80 0x00

  unfoldable pub regulator_set_voltage : (id voltage_mv : ℕ) → Drv W (Unit {0})
  regulator_set_voltage id voltage_mv = do
    ready
    require (ltb id regulator_count) inval
    let range = voltage_range id
    require (not (ltb voltage_mv range.min_v || ltb range.max_v voltage_mv)) inval
    i2c_write board (reg_address reg_buck1_volt reg_ldo1_volt id) (volt_to_reg id voltage_mv)
    update_regulator id (λ r. record r { voltage_mv = voltage_mv })

  -- `wanted` says that `voltage_mv` is not NULL.
  unfoldable pub regulator_get_voltage : (wanted : Bool) → ℕ → Drv W ℕ
  regulator_get_voltage wanted id = do
    ready
    require wanted inval
    require (ltb id regulator_count) inval
    reg_val ← i2c_read board (reg_address reg_buck1_volt reg_ldo1_volt id)
    pure (reg_to_volt id reg_val)

  -- `wanted` says that `is_ok` is not NULL.
  unfoldable pub regulator_get_status : (wanted : Bool) → ℕ → Drv W Bool
  regulator_get_status wanted id = do
    ready
    require wanted inval
    pg_status ← i2c_read board reg_pg_status
    let is_ok = not (bit_and pg_status (2 ^ pg_bit id) == 0)
    update_regulator id (λ r. record r { voltage_ok = is_ok })
    pure is_ok
