-- ===== src/Pmic/Refusal.antt =====
-- The operations that test `dev` and `dev->initialized`, on an instance that is not ready.
use c_data_structures.Prelude.{ℕ, ◌≡◌, ap, Bool, Option}
use c_data_structures.Pmic.Types.{Device, SleepConfig}
use c_data_structures.Pmic.Driver.{State, Drv, err, inval, and_then, ready}
use c_data_structures.Pmic.Bus.{Board}
use c_data_structures.Pmic.Regulator.{
  regulator_enable, regulator_disable, regulator_set_voltage, regulator_get_voltage,
  regulator_get_status,
}
use c_data_structures.Pmic.Power.{
  set_power_state, get_power_state, enter_sleep, exit_sleep, configure_sleep, enable_wake,
}
use c_data_structures.Pmic.Monitor.{
  watchdog_enable, watchdog_disable, watchdog_pet, esm_enable, esm_disable, esm_reset,
  enable_interrupts, disable_interrupts, clear_interrupts, get_pending_interrupts, nvm_crc_check,
}

module _ {W : Type 0} (board : Board W) where
  -- The command returns TPS6594_ERR_INVAL in state `s` and changes nothing.
  abbrev pub Refuses : {A : Type 0} → State W → Drv W A → Type 0
  Refuses s m = m s ≡ (err inval, s)

  -- `dev` is NULL or the instance is not initialised.
  abbrev pub NotReady : State W → Type 0
  NotReady s = ready s ≡ (err inval, s)

  refuse-then :
      {A : Type 0} (s : State W) (f : Device → Drv W A)
      → NotReady s
      → and_then (ready s) f ≡ (err inval, s)
  refuse-then s f idle = ap (λ o. and_then o f) idle

  pub regulators_refuse :
      (s : State W) (id v : ℕ) (wanted : Bool)
      → NotReady s
      → Refuses s (regulator_enable board id)
        × Refuses s (regulator_disable board id)
        × Refuses s (regulator_set_voltage board id v)
        × Refuses s (regulator_get_voltage board wanted id)
        × Refuses s (regulator_get_status board wanted id)
  unfolding regulator_enable regulator_disable regulator_set_voltage regulator_get_voltage
      regulator_get_status
  regulators_refuse s id v wanted idle = (
    refuse-then s _ idle,
    refuse-then s _ idle,
    refuse-then s _ idle,
    refuse-then s _ idle,
    refuse-then s _ idle,
  )

  power-Refuses :
      (s : State W) (state pin edge : ℕ) (cfg : Option SleepConfig) (wanted : Bool)
      → NotReady s
      → Refuses s (set_power_state board state)
        × Refuses s (get_power_state board wanted)
        × Refuses s (enter_sleep board)
        × Refuses s (exit_sleep board)
        × Refuses s (configure_sleep board cfg)
        × Refuses s (enable_wake board pin edge)
  unfolding set_power_state get_power_state enter_sleep exit_sleep configure_sleep enable_wake
  power-Refuses s state pin edge cfg wanted idle = (
    refuse-then s _ idle,
    refuse-then s _ idle,
    refuse-then s _ idle,
    refuse-then s _ idle,
    refuse-then s _ idle,
    refuse-then s _ idle,
  )

  pub monitors_refuse :
      (s : State W) (n : ℕ) (wanted : Bool)
      → NotReady s
      → Refuses s (watchdog_enable board n)
        × Refuses s (watchdog_disable board)
        × Refuses s (watchdog_pet board)
        × Refuses s (esm_enable board n)
        × Refuses s (esm_disable board)
        × Refuses s (esm_reset board)
        × Refuses s (enable_interrupts board n)
        × Refuses s (disable_interrupts board n)
        × Refuses s (clear_interrupts board n)
        × Refuses s (get_pending_interrupts board wanted)
        × Refuses s (nvm_crc_check board wanted)
  unfolding watchdog_enable watchdog_disable watchdog_pet esm_enable esm_disable esm_reset
      enable_interrupts disable_interrupts clear_interrupts get_pending_interrupts nvm_crc_check
  monitors_refuse s n wanted idle = (
    refuse-then s _ idle,
    refuse-then s _ idle,
    refuse-then s _ idle,
    refuse-then s _ idle,
    refuse-then s _ idle,
    refuse-then s _ idle,
    refuse-then s _ idle,
    refuse-then s _ idle,
    refuse-then s _ idle,
    refuse-then s _ idle,
    refuse-then s _ idle,
  )

  -- Every operation that tests `dev` and `dev->initialized` refuses.
  abbrev pub AllRefuse : State W → (id v pin edge : ℕ) (wanted : Bool) → Option SleepConfig → Type 0
  AllRefuse s id v pin edge wanted cfg =
      (Refuses s (regulator_enable board id)
        × Refuses s (regulator_disable board id)
        × Refuses s (regulator_set_voltage board id v)
        × Refuses s (regulator_get_voltage board wanted id)
        × Refuses s (regulator_get_status board wanted id))
      × (Refuses s (set_power_state board v)
          × Refuses s (get_power_state board wanted)
          × Refuses s (enter_sleep board)
          × Refuses s (exit_sleep board)
          × Refuses s (configure_sleep board cfg)
          × Refuses s (enable_wake board pin edge))
      × (Refuses s (watchdog_enable board v)
          × Refuses s (watchdog_disable board)
          × Refuses s (watchdog_pet board)
          × Refuses s (esm_enable board v)
          × Refuses s (esm_disable board)
          × Refuses s (esm_reset board)
          × Refuses s (enable_interrupts board v)
          × Refuses s (disable_interrupts board v)
          × Refuses s (clear_interrupts board v)
          × Refuses s (get_pending_interrupts board wanted)
          × Refuses s (nvm_crc_check board wanted))

  -- Where `dev` is NULL or the instance is not initialised, each of the 22 regulator, power,
  -- sleep, watchdog, error monitor, interrupt and CRC operations returns TPS6594_ERR_INVAL,
  -- with no transaction and no change.
  pub NotReady-refused :
      (s : State W) (id v pin edge : ℕ) (wanted : Bool) (cfg : Option SleepConfig)
      → NotReady s
      → AllRefuse s id v pin edge wanted cfg
  NotReady-refused s id v pin edge wanted cfg idle = (
    regulators_refuse s id v wanted idle,
    power-Refuses s v pin edge cfg wanted idle,
    monitors_refuse s v wanted idle,
  )
