-- ===== src/Pmic/Tasks.antt =====
-- tps6594_driver/src/tps6594_safertos.c: the driver under an operating system. The driver's
-- functions run over a board; the operating system's and the bus's answers are parameters.
use Prim.Native.Nat.{bit_and}
use c_data_structures.Prelude.{
  ℕ, Bool, true, false, not, ◌&&◌, Option, none, some, List, [], ◌∷◌, ◌++◌, ◌==◌, if◌then◌else◌,
}
use c_data_structures.Prelude.Int.{ℤ, pos, negsuc, is_zero}
use c_data_structures.Prelude.Run.{Run, ok, fault, out_of_fuel, deref, ◌>>=◌}
use c_data_structures.Pmic.Types.{Device}
use c_data_structures.Pmic.Registers.{reg_int_sts}
use c_data_structures.Pmic.Driver.{Drv, Res, err, State, error_code, nocomm, inval}
use c_data_structures.Pmic.Driver
use c_data_structures.Pmic.Bus.{Board, i2c_read, i2c_write}
use c_data_structures.Pmic.Device.{init, probe, deinit}
use c_data_structures.Pmic.Power.{enter_sleep, exit_sleep}
use c_data_structures.Pmic.Monitor.{watchdog_pet, enable_interrupts}

-- The platform's bus functions.
pub record I2cBus (W : Type 0) : Type 0 where
  pub bus_init : W → ℤ × W
  pub bus_write_read : (addr wreg wval rreg timeout_ms : ℕ) → W → ℤ × ℕ × W
  pub bus_write : (addr reg val timeout_ms : ℕ) → W → ℤ × W
  pub bus_read : (addr reg timeout_ms : ℕ) → W → ℤ × ℕ × W

-- `board_i2c_write_read`, which the driver calls; `global` is the address in the instance that
-- `g_pmic_dev` points to, if it is set, and `wanted` says that `rval` is.
unfoldable pub board_i2c_write_read :
    {W : Type 0}
    → I2cBus W
    → (global : Option ℕ) → (wreg wval rreg : ℕ) → (wanted : Bool) → (timeout_ms : ℕ) → W
    → Run (ℤ × ℕ × W)
board_i2c_write_read bus global wreg wval rreg wanted timeout_ms w =
    if wanted && not (rreg == 0)
    then (deref global >>= λ addr. ok (bus.bus_write_read addr wreg wval rreg timeout_ms w))
    else if not (wreg == 0)
    then (deref global >>= λ addr.
        let (ret, w') = bus.bus_write addr wreg wval timeout_ms w in ok (ret, 0, w'))
    else if wanted
    then (deref global >>= λ addr. ok (bus.bus_read addr wreg timeout_ms w))
    else ok (negsuc 0, 0, w)

-- What a transaction gives; with an instance behind `g_pmic_dev` there is no other case.
abbrev pub transaction : {W : Type 0} → W → Run (ℤ × ℕ × W) → ℤ × ℕ × W
transaction w (ok r) = r
transaction w fault = (negsuc 0, 0, w)
transaction w out_of_fuel = (negsuc 0, 0, w)

-- The board that the driver runs on here, where `g_pmic_dev` is set to an instance with address
-- `addr`: the driver's transactions are calls of `board_i2c_write_read`.
abbrev pub bus_board : {W : Type 0} → I2cBus W → (addr : ℕ) → (ℕ → W → W) → Board W
bus_board bus addr register = record {
  write_read = λ _ wreg wval rreg wanted timeout_ms w.
      transaction w (board_i2c_write_read bus (some addr) wreg wval rreg wanted timeout_ms w);
  register_isr_cb = register;
}

-- `pmic_event_t`.
pub data Event : Type 0 where
  evt_int : (event_data : ℕ) → Event
  evt_wake : (event_data : ℕ) → Event
  evt_fault : (event_data : ℕ) → Event
  evt_state_chg : (event_data : ℕ) → Event

-- The static state. `pmic_dev` says that `g_pmic_dev` is set, to the instance of `drv`;
-- `sent_events` are the events given to `xQueueSendFromISR`, and `calls` the arguments of calls of
-- the callback.
pub record TaskState (W : Type 0) : Type 0 where
  pub drv : State W
  pub pmic_dev : Bool
  pub event_queue : Bool
  pub dpc_task : Bool
  pub watchdog_task : Bool
  pub power_task : Bool
  pub event_cb : Option ℕ
  pub watchdog_enabled : Bool
  pub watchdog_timeout_ms : ℕ
  pub sent_events : List Event
  pub calls : List (ℕ × ℕ)

-- A call of the driver, with what it returns as an `int`.
unfoldable pub finished : {W A : Type 0} → TaskState W → Res A × State W → Run (ℤ × TaskState W)
finished t (Driver.ok a, s) = ok (pos 0, record t { drv = s })
finished t (err e, s) = ok (error_code e, record t { drv = s })
finished t (Driver.fault, s) = fault

abbrev pub call : {W A : Type 0} → TaskState W → Drv W A → Run (ℤ × TaskState W)
call t m = finished t (m t.drv)

-- `g_pmic_dev && g_pmic_dev->initialized`.
unfoldable pub is_up : {W : Type 0} → TaskState W → Bool
is_up t = t.pmic_dev && (elim t.drv.dev [ none ↦ false | some d ↦ d.initialized ])

-- The events for an interrupt status that is not 0.
unfoldable pub events_of : (int_sts : ℕ) → List Event
events_of int_sts =
    (if bit_and int_sts 16 == 0 then [] else evt_wake int_sts ∷ [])
    ++ ((if bit_and int_sts 7 == 0 then [] else evt_fault int_sts ∷ []) ++ (evt_int int_sts ∷ []))

-- `tps6594_register_isr_cb`.
unfoldable pub set_isr_cb : {W : Type 0} → (cb : Option ℕ) → TaskState W → TaskState W
set_isr_cb cb t = record t { event_cb = cb }

-- `tps6594_dpc_task` for one event that it received; a fault event is only printed.
unfoldable pub dpc_event : {W : Type 0} → Event → TaskState W → TaskState W
dpc_event (evt_int event_data) t = elim t.event_cb [
  | none ↦ t
  | some cb ↦ record t { calls = t.calls ++ ((event_data, 0) ∷ []) }
]
dpc_event (evt_wake event_data) t = elim t.event_cb [
  | none ↦ t
  | some cb ↦ record t { calls = t.calls ++ ((255, event_data) ∷ []) }
]
dpc_event (evt_fault event_data) t = t
dpc_event (evt_state_chg event_data) t = t

module _ {W : Type 0} (board : Board W) where
  -- `tps6594_isr_handler` after the read of INT_STS.
  unfoldable pub isr_status : TaskState W → Res ℕ × State W → Run (TaskState W)
  isr_status t (err e, s) = ok (record t { drv = s })
  isr_status t (Driver.fault, s) = fault
  isr_status t (Driver.ok int_sts, s) =
      if int_sts == 0
      then ok (record t { drv = s })
      else call (record t { drv = s }) (i2c_write board reg_int_sts int_sts) >>= λ (ret, t').
          ok (record t' { sent_events = t'.sent_events ++ events_of int_sts })

  unfoldable pub isr_handler : TaskState W → Run (TaskState W)
  isr_handler t = if is_up t then isr_status t (i2c_read board reg_int_sts t.drv) else ok t

  -- One round of `tps6594_watchdog_task`.
  unfoldable pub watchdog_round : TaskState W → Run (TaskState W)
  watchdog_round t =
      if t.watchdog_enabled && is_up t
      then (call t (watchdog_pet board) >>= λ (ret, t'). ok t')
      else ok t

  -- `tps6594_request_sleep` and `tps6594_request_wake`.
  unfoldable pub request_sleep : TaskState W → Run (TaskState W)
  request_sleep t = if is_up t then (call t (enter_sleep board) >>= λ (ret, t'). ok t') else ok t

  unfoldable pub request_wake : TaskState W → Run (TaskState W)
  request_wake t = if is_up t then (call t (exit_sleep board) >>= λ (ret, t'). ok t') else ok t

  -- `tps6594_safertos_init` from the creation of the queue on. `queue` says whether it is created,
  -- `err_nomem` is TPS6594_ERR_NOMEM, which no header of the driver defines, and `irq` is what
  -- `arm_gic_register_handler` returns; the creation of a task is taken to succeed.
  unfoldable pub start_tasks :
      (queue : Bool) → (err_nomem irq : ℤ) → TaskState W → Run (ℤ × TaskState W)
  start_tasks queue err_nomem irq t =
      let running = record t {
        pmic_dev = true;
        event_queue = true;
        dpc_task = true;
        watchdog_task = true;
        power_task = true;
        watchdog_enabled = true;
        watchdog_timeout_ms = 30000;
      } in
      if not queue
      then ok (err_nomem, record t { pmic_dev = true; event_queue = false })
      else if is_zero irq
      then (call running (enable_interrupts board 255) >>= λ (ret, t'). ok (pos 0, t'))
      else ok (irq, running)

  -- A probe reads through `g_pmic_dev`, which is followed whether it is set or not.
  unfoldable pub probe_device : TaskState W → Run (ℤ × TaskState W)
  probe_device t = if t.pmic_dev then call t (probe board) else fault

  -- The rest of `tps6594_safertos_init` after the driver's initialisation, which is handed NULL as
  -- the context.
  unfoldable pub after_init :
      (queue : Bool) → (err_nomem irq : ℤ) → ℤ × TaskState W → Run (ℤ × TaskState W)
  after_init queue err_nomem irq (ret, t) =
      if not (is_zero ret)
      then ok (ret, t)
      else probe_device t >>= λ (ret, t').
          if not (is_zero ret) then ok (ret, t') else start_tasks queue err_nomem irq t'

  -- `tps6594_safertos_init` of the instance that `dev` points to, where the bus answers `bus_ret`.
  unfoldable pub init_instance :
      (bus_ret : ℤ)
      → (world : W) → (queue : Bool) → (err_nomem irq : ℤ) → (i2c_addr : ℕ) → TaskState W
      → Option Device
      → Run (ℤ × TaskState W)
  init_instance bus_ret world queue err_nomem irq i2c_addr t none = ok (error_code inval, t)
  init_instance bus_ret world queue err_nomem irq i2c_addr t (some d) =
      let t' = record t { drv = record { dev = some d; world = world } } in
      if not (is_zero bus_ret)
      then ok (error_code nocomm, t')
      else call t' (init i2c_addr false) >>= after_init queue err_nomem irq

  unfoldable pub safertos_init :
      I2cBus W
      → (queue : Bool) → (err_nomem irq : ℤ) → (i2c_addr : ℕ) → TaskState W
      → Run (ℤ × TaskState W)
  safertos_init bus queue err_nomem irq i2c_addr t =
      let (bus_ret, world) = bus.bus_init t.drv.world in
      init_instance bus_ret world queue err_nomem irq i2c_addr t t.drv.dev

  -- `tps6594_safertos_deinit` of the instance that `dev` points to; the power task is not deleted.
  unfoldable pub deinit_instance : TaskState W → Option Device → Run (ℤ × TaskState W)
  deinit_instance t none = ok (error_code inval, t)
  deinit_instance t (some d) =
      let stopped = record t { watchdog_task = false; dpc_task = false; event_queue = false } in
      call stopped (deinit board) >>= λ (ret, t'). ok (pos 0, record t' { pmic_dev = false })

  unfoldable pub safertos_deinit : TaskState W → Run (ℤ × TaskState W)
  safertos_deinit t = deinit_instance t t.drv.dev
