-- ===== src/Pmic/Boot.antt =====
-- The power task and the boot sequence of tps6594_driver/src/tps6594_safertos.c.
use Prim.Native.Nat.{bit_and}
use c_data_structures.Prelude.{
  ℕ, zero, suc, ◌+◌, Bool, true, false, not, ◌&&◌, none, some, List, [], ◌∷◌, ltb, ◌==◌,
  if◌then◌else◌,
}
use c_data_structures.Prelude.Int.{ℤ, pos, negsuc, is_zero}
use c_data_structures.Prelude.Run.{Run, ok, fault, ◌>>=◌}
use c_data_structures.Pmic.Types.{Config}
use c_data_structures.Pmic.Registers.{reg_pwr_status, regulator_count, state_active}
use c_data_structures.Pmic.Driver.{Drv, Res, err, State}
use c_data_structures.Pmic.Driver
use c_data_structures.Pmic.Bus.{Board, i2c_read}
use c_data_structures.Pmic.Power.{enter_sleep, exit_sleep, pwr_state_mask}
use c_data_structures.Pmic.Monitor.{watchdog_enable, esm_enable}
use c_data_structures.Pmic.Config.{set_config}
use c_data_structures.Pmic.Regulator.{regulator_enable, regulator_get_status}
use c_data_structures.Pmic.Tasks.{TaskState, call, finished}

abbrev pub reg_wake_status : ℕ
reg_wake_status = 0xA2

abbrev pub state_sleep : ℕ
state_sleep = 4

-- `TPS6594_ERR_FAULT`.
abbrev pub err_fault : ℤ
err_fault = negsuc 4

-- The regulators in the order in which they are enabled.
abbrev pub boot_order : List ℕ
boot_order = 0 ∷ 2 ∷ 3 ∷ 4 ∷ 1 ∷ 5 ∷ 6 ∷ 7 ∷ 8 ∷ []

-- A call of the driver on the instance that `g_pmic_dev` points to, NULL where it is not set.
unfoldable pub through : {W A : Type 0} → TaskState W → Drv W A → Res A × State W
through t m =
    if t.pmic_dev
    then m t.drv
    else (let (r, s) = m (record t.drv { dev = none }) in (r, record s { dev = t.drv.dev }))

module _ {W : Type 0} (board : Board W) where
  -- A register that a task reads; a failed read gives nothing.
  unfoldable pub status_of :
      TaskState W
      → Res ℕ × State W
      → (TaskState W → ℕ → Run (ℕ × TaskState W))
      → (failed : ℕ) → Run (ℕ × TaskState W)
  status_of t (Driver.ok status, s) next failed = next (record t { drv = s }) status
  status_of t (err e, s) next failed = ok (failed, record t { drv = s })
  status_of t (Driver.fault, s) next failed = fault

  -- The sleep request at the start of a round of the power task: the state that it notes.
  unfoldable pub sleep_step :
      TaskState W → (requested : Bool) → (current_state : ℕ) → Run (ℕ × TaskState W)
  sleep_step t requested current_state =
      if requested && (current_state == state_active)
      then (finished t (through t (enter_sleep board)) >>= λ (ret, t'). ok (state_sleep, t'))
      else ok (current_state, t)

  unfoldable pub wake_step : TaskState W → (current_state : ℕ) → Run (ℕ × TaskState W)
  wake_step t current_state =
      status_of t (through t (i2c_read board reg_wake_status))
        (λ t' wake_status.
          if bit_and wake_status 128 == 0
          then ok (current_state, t')
          else finished t' (through t' (exit_sleep board)) >>= λ (ret, t''). ok (state_active, t''))
        current_state

  unfoldable pub power_step : TaskState W → (current_state : ℕ) → Run (ℕ × TaskState W)
  power_step t current_state =
      status_of t (through t (i2c_read board reg_pwr_status))
        (λ t' pwr_status. ok (bit_and pwr_status pwr_state_mask, t')) current_state

  -- One round of `tps6594_power_state_task`, which hands on `g_pmic_dev` with no test.
  unfoldable pub power_round :
      TaskState W → (requested : Bool) → (current_state : ℕ) → Run (ℕ × TaskState W)
  power_round t requested current_state = sleep_step t requested current_state >>= λ (c1, t1).
      wake_step t1 c1 >>= λ (c2, t2). power_step t2 c2

  unfoldable pub enable_each : List ℕ → TaskState W → Run (TaskState W)
  enable_each [] t = ok t
  enable_each (id ∷ ids) t = call t (regulator_enable board id) >>= λ (ret, t'). enable_each ids t'

  -- `ok` after `tps6594_regulator_get_status`; when it fails, what stood there.
  unfoldable pub rail_good :
      (junk : Bool) → TaskState W → Res Bool × State W → Run (Bool × TaskState W)
  rail_good junk t (Driver.ok good, s) = ok (good, record t { drv = s })
  rail_good junk t (err e, s) = ok (junk, record t { drv = s })
  rail_good junk t (Driver.fault, s) = fault

  -- The check of the regulators from `id` on, `left` of them: whether all are good.
  unfoldable pub check_rails :
      (junk : Bool) → (id left : ℕ) → TaskState W → Run (Bool × TaskState W)
  check_rails junk id zero t = ok (true, t)
  check_rails junk id (suc left) t =
      rail_good junk t (regulator_get_status board true id t.drv) >>= λ (good, t').
      let rest = check_rails junk (id + 1) left t' in if good then rest else ok (false, t')

  unfoldable pub boot_sequence : (junk : Bool) → TaskState W → Config → Run (ℤ × TaskState W)
  boot_sequence junk t cfg = call t (set_config board (some cfg)) >>= λ (ret, t1).
      if not (is_zero ret)
      then ok (ret, t1)
      else enable_each boot_order t1 >>= λ t2.
          check_rails junk 0 regulator_count t2 >>= λ (good, t3).
          if not good
          then ok (err_fault, t3)
          else call t3 (watchdog_enable board cfg.watchdog.timeout_ms) >>= λ (ret, t4).
              if ltb 0 cfg.esm_mode
              then (call t4 (esm_enable board cfg.esm_mode) >>= λ (ret, t5). ok (pos 0, t5))
              else ok (pos 0, t4)
