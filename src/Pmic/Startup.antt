-- ===== src/Pmic/Startup.antt =====
-- Starting the tasks of tps6594_driver/src/tps6594_safertos.c.
use c_data_structures.Prelude.{ℕ, ◌≡◌, ◌⊎◌, inl, inr, refl, Bool, not, Option, none, some, if_intro}
use c_data_structures.Prelude.Int.{ℤ, is_zero}
use c_data_structures.Prelude.Run.{Run, ok}
use c_data_structures.Pmic.Types.{Device}
use c_data_structures.Pmic.Driver.{State, error_code, inval, nocomm}
use c_data_structures.Pmic.Bus.{Board}
use c_data_structures.Pmic.Device.{init}
use c_data_structures.Pmic.Tasks.{
  I2cBus, TaskState, finished, after_init, init_instance, safertos_init,
}

-- A start that was refused: nothing but the driver's instance and the bus was touched.
abbrev pub Refused : {W : Type 0} → TaskState W → Run (ℤ × TaskState W) → Type 0
Refused {W = W} t r =
    (ret : ℤ) × (s : State W) × (r ≡ ok (ret, record t { drv = s }))
    × ((ret ≡ error_code inval) ⊎ (ret ≡ error_code nocomm))

module _ {W : Type 0} (board : Board W) where
  init_instance-Refused :
      (bus_ret : ℤ) (world : W) (queue : Bool) (err_nomem irq : ℤ) (i2c_addr : ℕ) (t : TaskState W)
      (o : Option Device)
      → Refused t (init_instance board bus_ret world queue err_nomem irq i2c_addr t o)
  unfolding init_instance after_init init finished
  init_instance-Refused bus_ret world queue err_nomem irq i2c_addr t none =
      (error_code inval, t.drv, refl, inl refl)
  init_instance-Refused bus_ret world queue err_nomem irq i2c_addr t (some d) =
      if_intro (Refused t) (not (is_zero bus_ret)) _ _ (λ _. (error_code nocomm, _, refl, inr refl))
        (λ _. (error_code inval, _, refl, inl refl))

  -- `tps6594_safertos_init` never succeeds, whatever the instance, the bus and the operating
  -- system: it returns TPS6594_ERR_INVAL or TPS6594_ERR_NOCOMM, and of the static state nothing
  -- has changed, so no task runs and no queue exists that did not before.
  pub safertos_init-Refused :
      (bus : I2cBus W) (queue : Bool) (err_nomem irq : ℤ) (i2c_addr : ℕ) (t : TaskState W)
      → Refused t (safertos_init board bus queue err_nomem irq i2c_addr t)
  unfolding safertos_init
  safertos_init-Refused bus queue err_nomem irq i2c_addr t =
      init_instance-Refused _ _ queue err_nomem irq i2c_addr t t.drv.dev
