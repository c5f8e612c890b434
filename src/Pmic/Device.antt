-- ===== src/Pmic/Device.antt =====
-- Life cycle and utilities of tps6594_driver/src/tps6594.c.
use Prim.Native.Nat.{bit_and}
use Prim.Native.String.{String}
use c_data_structures.Prelude.{
  ℕ, zero, suc, ◌+◌, Bool, true, false, ◌||◌, none, some, List, [], ◌∷◌, ◌==◌, if◌then◌else◌,
  replicate,
}
use c_data_structures.Prelude.Int.{ℤ, pos, negsuc}
use c_data_structures.Pmic.Registers.{
  reg_device_id, reg_int_sts, reg_pwr_status, device_id_pmic, device_id_fpga, regulator_count,
  state_unknown,
}
use c_data_structures.Pmic.Types.{Device, RegulatorState}
use c_data_structures.Pmic.Driver.{
  Drv, inval, nomatch, ◌>>=◌, ◌>>◌, pure, throw, require, device, set_device, ignore,
}
use c_data_structures.Pmic.Bus.{Board, i2c_read}
use c_data_structures.Pmic.Regulator.{regulator_disable}
use c_data_structures.Pmic.Monitor.{watchdog_disable}
use c_data_structures.Pmic.Power.{pwr_state_mask}

-- A regulator's state after `memset`.
abbrev pub blank : RegulatorState
blank = record { is_enabled = false; voltage_mv = 0; voltage_ok = false; in_sleep_mode = false }

-- The instance that `tps6594_init` leaves.
abbrev pub fresh_device : ℕ → Device
fresh_device i2c_addr = record {
  i2c_addr = i2c_addr;
  initialized = false;
  current_state = state_unknown;
  regulators = replicate regulator_count blank;
  i2c_context = true;
  device_id = 0;
  revid = 0;
}

-- `i2c_ctx` says that the pointer is not NULL.
unfoldable pub init : {W : Type 0} → (i2c_addr : ℕ) (i2c_ctx : Bool) → Drv W (Unit {0})
init i2c_addr i2c_ctx s = elim s.dev [
  | none ↦ throw inval s
  | some d ↦ if i2c_ctx then set_device (fresh_device i2c_addr) s else throw inval s
]

unfoldable pub err_str : ℤ → String
err_str (pos zero) = "OK"
err_str (pos (suc n)) = "Unknown error"
err_str (negsuc n) =
    if n == 0
    then "Invalid argument"
    else if n == 1
    then "I2C communication error"
    else if n == 2
    then "Operation timeout"
    else if n == 3
    then "Device ID mismatch"
    else if n == 4
    then "Hardware fault"
    else if n == 5
    then "NVM locked"
    else if n == 6
    then "CRC error"
    else if n == 7
    then "Timed out waiting"
    else "Unknown error"

module _ {W : Type 0} (board : Board W) where
  unfoldable pub probe : Drv W (Unit {0})
  probe = do
    val ← i2c_read board reg_device_id
    d ← device
    set_device (record d { device_id = val })
    require (val == device_id_pmic || val == device_id_fpga) nomatch
    rev ← i2c_read board reg_int_sts
    d ← device
    set_device (record d { revid = bit_and rev 0x0F })
    status ← i2c_read board reg_pwr_status
    d ← device
    set_device (record d { current_state = bit_and status pwr_state_mask; initialized = true })

  -- `for (int i = 0; i < TPS6594_REGULATOR_COUNT; i++) tps6594_regulator_disable(dev, i);`
  unfoldable pub disable_from : (i left : ℕ) → Drv W (Unit {0})
  disable_from i zero = pure tt
  disable_from i (suc left) = do ignore (regulator_disable board i); disable_from (i + 1) left

  unfoldable pub deinit : Drv W (Unit {0})
  deinit s = elim s.dev [
    | none ↦ throw inval s
    | some _ ↦
        (do
          ignore (watchdog_disable board)
          disable_from 0 regulator_count
          d ← device
          set_device (record d { initialized = false }))
          s
  ]

  -- `tps6594_dump_registers` over the registers that are left of `regs`; nothing is printed.
  unfoldable pub dump_from : List ℕ → Drv W (Unit {0})
  dump_from [] = pure tt
  dump_from (reg ∷ regs) = do ignore (i2c_read board reg); dump_from regs

  unfoldable pub dump_registers : Drv W (Unit {0})
  dump_registers = dump_from (
      0x00 ∷ 0x01 ∷ 0x02 ∷ 0x03 ∷ 0x04 ∷ 0x05 ∷ 0x06 ∷ 0x07 ∷ 0x10 ∷ 0x11 ∷ 0x14 ∷ 0x15 ∷ 0x18
      ∷ 0x19 ∷ 0x1C ∷ 0x1D ∷ 0x28 ∷ 0x29 ∷ 0x2C ∷ 0x2D ∷ 0x30 ∷ 0x31 ∷ 0x34 ∷ 0x35 ∷ 0x60 ∷ 0x70
      ∷ 0x80 ∷ 0x81 ∷ 0xA0 ∷ 0xA1 ∷ [])
