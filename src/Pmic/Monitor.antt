-- ===== src/Pmic/Monitor.antt =====
-- Watchdog, error signal monitor, interrupts and NVM of tps6594_driver/src/tps6594.c.
use Prim.Native.Nat.{bit_and, bit_or, bit_xor}
use c_data_structures.Prelude.{ℕ, ◌/◌, ◌^◌, Bool, none, some, ltb, leb, ◌==◌, if◌then◌else◌}
use c_data_structures.Pmic.Registers.{
  reg_wdog_conf, reg_wdog_response, reg_esm_conf, reg_esm_status, reg_int_msk, reg_int_sts,
  reg_nvm_lock, reg_fault_sts,
}
use c_data_structures.Pmic.Driver.{Drv, ok, inval, ◌>>=◌, ◌>>◌, pure, throw, require, ready}
use c_data_structures.Pmic.Bus.{Board, i2c_read, i2c_write, not8}

-- The watchdog's timeout, in steps of 256 ms.
unfoldable pub timeout_bits : ℕ → ℕ
timeout_bits timeout_ms =
    let limited = if ltb 32000 timeout_ms then 32000 else timeout_ms in
    bit_and (limited / 2 ^ 8) 0x7F

module _ {W : Type 0} (board : Board W) where
  unfoldable pub watchdog_enable : (timeout_ms : ℕ) → Drv W (Unit {0})
  watchdog_enable timeout_ms = ready >> i2c_write board reg_wdog_response (timeout_bits timeout_ms)

  unfoldable pub watchdog_disable : Drv W (Unit {0})
  watchdog_disable = ready >> i2c_write board reg_wdog_response 0x00

  unfoldable pub watchdog_pet : Drv W (Unit {0})
  watchdog_pet = do
    ready
    val ← i2c_read board reg_wdog_conf
    i2c_write board reg_wdog_conf (bit_xor val 0x02)

  unfoldable pub esm_enable : (mode : ℕ) → Drv W (Unit {0})
  esm_enable mode = do
    ready
    require (leb mode 2) inval
    i2c_write board reg_esm_conf (bit_or (bit_and mode 0x03) 0x80)

  unfoldable pub esm_disable : Drv W (Unit {0})
  esm_disable = ready >> i2c_write board reg_esm_conf 0x00

  unfoldable pub esm_reset : Drv W (Unit {0})
  esm_reset = do ready; val ← i2c_read board reg_esm_status; i2c_write board reg_esm_status val

  unfoldable pub enable_interrupts : (mask : ℕ) → Drv W (Unit {0})
  enable_interrupts mask = do
    ready
    cur ← i2c_read board reg_int_msk
    i2c_write board reg_int_msk (bit_or cur mask)

  unfoldable pub disable_interrupts : (mask : ℕ) → Drv W (Unit {0})
  disable_interrupts mask = do
    ready
    cur ← i2c_read board reg_int_msk
    i2c_write board reg_int_msk (bit_and cur (not8 mask))

  unfoldable pub clear_interrupts : (mask : ℕ) → Drv W (Unit {0})
  clear_interrupts mask = ready >> i2c_write board reg_int_sts mask

  -- `wanted` says that `pending` is not NULL.
  unfoldable pub get_pending_interrupts : (wanted : Bool) → Drv W ℕ
  get_pending_interrupts wanted = do ready; require wanted inval; i2c_read board reg_int_sts

  unfoldable pub register_event_callback : (cb : ℕ) → Drv W (Unit {0})
  register_event_callback cb s = elim s.dev [
    | none ↦ throw inval s
    | some d ↦ (ok tt, record s { world = board.register_isr_cb cb s.world })
  ]

  unfoldable pub nvm_lock : Bool → Drv W (Unit {0})
  nvm_lock lock = i2c_write board reg_nvm_lock (if lock then 0x80 else 0x00)

  -- `wanted` says that `crc_ok` is not NULL.
  unfoldable pub nvm_crc_check : (wanted : Bool) → Drv W Bool
  nvm_crc_check wanted = do
    ready
    require wanted inval
    status ← i2c_read board reg_fault_sts
    pure (bit_and status 0x01 == 0)
