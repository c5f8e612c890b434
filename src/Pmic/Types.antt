-- ===== src/Pmic/Types.antt =====
-- The structures of tps6594_driver/include/tps6594.h.
use c_data_structures.Prelude.{ℕ, Bool, List}

-- `tps6594_buck_config_t`; the numbers are below the width of their fields.
pub record BuckConfig : Type 0 where
  pub voltage_mv : ℕ
  pub enable : Bool
  pub fpwm_mode : Bool
  pub freq : ℕ
  pub phase : ℕ
  pub current_limit_ma : ℕ
  pub discharge_enable : Bool
  pub dvs_enable : Bool

pub record LdoConfig : Type 0 where
  pub voltage_mv : ℕ
  pub enable : Bool
  pub bypass_mode : Bool
  pub low_noise_mode : Bool
  pub current_limit_ma : ℕ

pub record SleepConfig : Type 0 where
  pub sleep_enabled : Bool
  pub buck_mask : ℕ
  pub ldo_mask : ℕ
  pub retention_enabled : Bool
  pub wake_pin : ℕ
  pub wake_edge : ℕ

pub record WdogConfig : Type 0 where
  pub enabled : Bool
  pub timeout_ms : ℕ
  pub qa_mode : Bool

-- `tps6594_config_t`.
pub record Config : Type 0 where
  pub i2c_address : ℕ
  pub buck : List BuckConfig
  pub ldo : List LdoConfig
  pub sleep : SleepConfig
  pub watchdog : WdogConfig
  pub esm_mode : ℕ
  pub enable_gpio_wake : Bool
  pub gpio_wake_pin : ℕ

pub record RegulatorState : Type 0 where
  pub is_enabled : Bool
  pub voltage_mv : ℕ
  pub voltage_ok : Bool
  pub in_sleep_mode : Bool

-- `tps6594_dev_t`; `i2c_context` says whether the pointer is set.
pub record Device : Type 0 where
  pub i2c_addr : ℕ
  pub initialized : Bool
  pub current_state : ℕ
  pub regulators : List RegulatorState
  pub i2c_context : Bool
  pub device_id : ℕ
  pub revid : ℕ
