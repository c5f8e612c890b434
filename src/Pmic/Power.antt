-- ===== src/Pmic/Power.antt =====
-- Power state, sleep and wake control of tps6594_driver/src/tps6594.c.
use Prim.Native.Nat.{bit_and, bit_or}
use c_data_structures.Prelude.{ℕ, ◌*◌, ◌%◌, ◌^◌, Bool, Option, none, some, leb, ◌==◌, if◌then◌else◌}
use c_data_structures.Pmic.Registers.{
  state_active, state_standby, state_backup, state_shutdown, reg_pwr_ctrl, reg_pwr_status,
  reg_sleep_conf, reg_wake_conf,
}
use c_data_structures.Pmic.Types.{SleepConfig}
use c_data_structures.Pmic.Driver.{
  Drv, inval, ◌>>=◌, ◌>>◌, pure, throw, require, ready, device, set_device,
}
use c_data_structures.Pmic.Bus.{Board, i2c_read, i2c_write, not8}

abbrev pub pwr_state_mask : ℕ
pwr_state_mask = 0x0F

abbrev pub sleep_en : ℕ
sleep_en = 0x01

abbrev pub sleep_ret_en : ℕ
sleep_ret_en = 0x40

abbrev pub sleep_buck_mask : ℕ
sleep_buck_mask = 0x1F

abbrev pub sleep_ldo_mask : ℕ
sleep_ldo_mask = 0x0F

-- The `switch` of `tps6594_set_power_state`.
unfoldable pub ctrl_value : ℕ → Option ℕ
ctrl_value state =
    if state == state_active
    then some 0x00
    else if state == state_standby
    then some 0x01
    else if state == state_backup
    then some 0x02
    else if state == state_shutdown
    then some 0x03
    else none

-- The bits that `tps6594_configure_sleep` puts into SLEEP_CONF and WAKE_CONF.
unfoldable pub sleep_bits : SleepConfig → ℕ
sleep_bits cfg =
    let enabled = if cfg.sleep_enabled then sleep_en else 0 in
    let kept = if cfg.retention_enabled then bit_or enabled sleep_ret_en else enabled in
    let bucks = bit_or kept (bit_and cfg.buck_mask sleep_buck_mask) in
    bit_or bucks (bit_and cfg.ldo_mask sleep_ldo_mask * 2 ^ 6) % 256

unfoldable pub wake_bits : (pin edge : ℕ) → ℕ
wake_bits pin edge = bit_or (bit_and pin 0x07) (bit_and edge 0x03 * 2 ^ 4)

module _ {W : Type 0} (board : Board W) where
  unfoldable pub set_power_state : ℕ → Drv W (Unit {0})
  set_power_state state = do
    ready
    elim (ctrl_value state) [
      | none ↦ throw inval
      | some ctrl_val ↦ (do
        i2c_write board reg_pwr_ctrl ctrl_val
        d ← device
        set_device (record d { current_state = state }))
    ]

  -- `wanted` says that `state` is not NULL.
  unfoldable pub get_power_state : (wanted : Bool) → Drv W ℕ
  get_power_state wanted = do
    ready
    require wanted inval
    val ← i2c_read board reg_pwr_status
    let state = bit_and val pwr_state_mask
    d ← device
    set_device (record d { current_state = state })
    pure state

  unfoldable pub enter_sleep : Drv W (Unit {0})
  enter_sleep = do
    ready
    sleep_cfg ← i2c_read board reg_sleep_conf
    i2c_write board reg_sleep_conf (bit_or sleep_cfg sleep_en)
    set_power_state state_standby

  unfoldable pub exit_sleep : Drv W (Unit {0})
  exit_sleep = do
    ready
    val ← i2c_read board reg_sleep_conf
    i2c_write board reg_sleep_conf (bit_and val (not8 sleep_en))
    d ← device
    set_device (record d { current_state = state_active })

  -- `none` stands for a `cfg` that is NULL.
  unfoldable pub configure_sleep : Option SleepConfig → Drv W (Unit {0})
  configure_sleep cfg = do
    ready
    elim cfg [
      | none ↦ throw inval
      | some cfg ↦ (do
        i2c_write board reg_sleep_conf (sleep_bits cfg)
        i2c_write board reg_wake_conf (wake_bits cfg.wake_pin cfg.wake_edge))
    ]

  unfoldable pub enable_wake : (gpio_pin edge : ℕ) → Drv W (Unit {0})
  enable_wake gpio_pin edge = do
    ready
    require (leb gpio_pin 6) inval
    i2c_write board reg_wake_conf (bit_or (wake_bits gpio_pin edge) 0x80)
