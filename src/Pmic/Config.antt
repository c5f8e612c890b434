-- ===== src/Pmic/Config.antt =====
-- `tps6594_set_config` and the default configuration of tps6594_driver/src/tps6594.c.
use Prim.Native.Nat.{bit_and, bit_or}
use c_data_structures.Prelude.{
  ℕ, ◌+◌, ◌*◌, ◌%◌, Bool, true, false, ◌&&◌, Option, none, some, List, [], ◌∷◌, ltb, ◌==◌,
  if◌then◌else◌,
}
use c_data_structures.Pmic.Registers.{regulator_ldo1, reg_buck1_conf, reg_ldo1_conf}
use c_data_structures.Pmic.Types.{BuckConfig, LdoConfig, WdogConfig, Config}
use c_data_structures.Pmic.Driver.{Drv, inval, ◌>>◌, pure, throw, ignore}
use c_data_structures.Pmic.Bus.{Board, i2c_write}
use c_data_structures.Pmic.Regulator.{regulator_set_voltage}
use c_data_structures.Pmic.Power.{configure_sleep}
use c_data_structures.Pmic.Monitor.{watchdog_enable, watchdog_disable, esm_enable}

-- The BUCK_CONF value of a configuration.
unfoldable pub buck_conf : BuckConfig → ℕ
buck_conf bc =
    let enabled = if bc.enable then 0x80 else 0 in
    let mode = if bc.fpwm_mode then bit_or enabled 0x40 else enabled in
    bit_or (bit_or mode (bit_and bc.freq 0x38)) (bit_and bc.phase 0x07)

-- The LDO_CONF value of the configuration of LDO `i + 1`.
unfoldable pub ldo_conf : ℕ → LdoConfig → ℕ
ldo_conf i lc =
    let enabled = if lc.enable then 0x80 else 0 in
    let mode = if lc.bypass_mode then bit_or enabled 0x40 else enabled in
    if i == 3 && lc.low_noise_mode then bit_or mode 0x20 else mode

module _ {W : Type 0} (board : Board W) where
  -- The loop over `cfg->buck`, from index `i` on.
  unfoldable pub configure_bucks : ℕ → List BuckConfig → Drv W (Unit {0})
  configure_bucks i [] = pure tt
  configure_bucks i (bc ∷ rest) = do
    regulator_set_voltage board i bc.voltage_mv
    i2c_write board ((reg_buck1_conf + i * 4) % 256) (buck_conf bc)
    configure_bucks (i + 1) rest

  -- The loop over `cfg->ldo`, from index `i` on.
  unfoldable pub configure_ldos : ℕ → List LdoConfig → Drv W (Unit {0})
  configure_ldos i [] = pure tt
  configure_ldos i (lc ∷ rest) = do
    regulator_set_voltage board (regulator_ldo1 + i) lc.voltage_mv
    i2c_write board ((reg_ldo1_conf + i * 4) % 256) (ldo_conf i lc)
    configure_ldos (i + 1) rest

  unfoldable pub configure_watchdog : WdogConfig → Drv W (Unit {0})
  configure_watchdog wd =
      if wd.enabled then watchdog_enable board wd.timeout_ms else watchdog_disable board

  -- `none` stands for a `cfg` that is NULL.
  unfoldable pub set_config : Option Config → Drv W (Unit {0})
  set_config cfg s = elim s.dev [
    | none ↦ throw inval s
    | some _ ↦ elim cfg [
      | none ↦ throw inval s
      | some cfg ↦
          (do
            configure_bucks 0 cfg.buck
            configure_ldos 0 cfg.ldo
            configure_sleep board (some cfg.sleep)
            ignore (configure_watchdog cfg.watchdog)
            if ltb 0 cfg.esm_mode then ignore (esm_enable board cfg.esm_mode) else pure tt)
            s
    ]
  ]

-- `tps6594_get_config` is not implemented.
unfoldable pub get_config : {W : Type 0} → Drv W Config
get_config = throw inval

abbrev buck : ℕ → Bool → ℕ → ℕ → Bool → BuckConfig
buck voltage_mv fpwm phase limit dvs = record {
  voltage_mv = voltage_mv;
  enable = true;
  fpwm_mode = fpwm;
  freq = 0x08;
  phase = phase;
  current_limit_ma = limit % 256;
  discharge_enable = true;
  dvs_enable = dvs;
}

abbrev ldo : ℕ → Bool → ℕ → LdoConfig
ldo voltage_mv low_noise limit = record {
  voltage_mv = voltage_mv;
  enable = true;
  bypass_mode = false;
  low_noise_mode = low_noise;
  current_limit_ma = limit % 256;
}

-- `tps6594_default_config`; the current limits are stored in a `uint8_t`.
abbrev pub default_config : Config
default_config = record {
  i2c_address = 0x58;
  buck =
      buck 3300 false 0 4000 false
      ∷ buck 1800 false 1 3500 true
      ∷ buck 1200 true 2 3500 true
      ∷ buck 1100 false 3 3500 true
      ∷ buck 900 false 4 2000 false
      ∷ [];
  ldo = ldo 1800 false 500 ∷ ldo 1200 false 500 ∷ ldo 3300 false 500 ∷ ldo 1800 true 300 ∷ [];
  sleep = record {
    sleep_enabled = true;
    buck_mask = 0x04;
    ldo_mask = 0x02;
    retention_enabled = true;
    wake_pin = 1;
    wake_edge = 0;
  };
  watchdog = record { enabled = true; timeout_ms = 30000; qa_mode = false };
  esm_mode = 1;
  enable_gpio_wake = true;
  gpio_wake_pin = 1;
}
