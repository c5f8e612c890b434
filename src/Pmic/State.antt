-- ===== src/Pmic/State.antt =====
-- The end of an instance's life: `tps6594_deinit` of tps6594_driver/src/tps6594.c, whatever fails.
use c_data_structures.Prelude.{
  ℕ, zero, suc, ◌+◌, ◌≡◌, inl, inr, refl, Bool, true, false, some, ltb, Bool-cases,
}
use c_data_structures.Prelude.Int.{is_zero}
use c_data_structures.Pmic.Registers.{regulator_count}
use c_data_structures.Pmic.Types.{Device}
use c_data_structures.Pmic.Driver.{Error, State, Res, Drv, ok, err, fault, and_then, ignore}
use c_data_structures.Pmic.Bus.{
  Board, i2c_timeout_ms, i2c_write_read, i2c_read, i2c_write, write_attempts, reg_modify,
}
use c_data_structures.Pmic.Regulator.{regulator_disable}
use c_data_structures.Pmic.Monitor.{watchdog_disable}
use c_data_structures.Pmic.Device.{disable_from, deinit}
use c_data_structures.Pmic.Chip.{on}

module _ {W : Type 0} (board : Board W) where
  -- A command that ended without undefined behaviour and left the instance alone.
  pub data Steady {A : Type 0} (d : Device) : Res A × State W → Type 0 where
    fine : {a : A} (w : W) → Steady d (ok a, on d w)
    refused : {e : Error} (w : W) → Steady d (err e, on d w)

  Steady-then :
      {A B : Type 0} (d : Device) {o : Res A × State W} (f : A → Drv W B)
      → Steady d o
      → ((a : A) (w : W) → Steady d (f a (on d w)))
      → Steady d (and_then o f)
  Steady-then d f (fine w) next = next _ w
  Steady-then d f (refused w) next = refused w

  i2c_write_read-Steady :
      (wreg wval rreg : ℕ) (wanted : Bool) (d : Device) (w : W)
      → Steady d (i2c_write_read board wreg wval rreg wanted (on d w))
  unfolding i2c_write_read
  i2c_write_read-Steady wreg wval rreg wanted d w =
      elim (Bool-cases
        (is_zero (board.write_read d.i2c_addr wreg wval rreg wanted i2c_timeout_ms w).0)) [
          | inl e ↦ rw e (fine _)
          | inr e ↦ rw e (refused _)
        ]

  write_attempts-Steady :
      (left r v : ℕ) (d : Device) (w : W) → Steady d (write_attempts board left r v (on d w))
  unfolding write_attempts
  write_attempts-Steady zero r v d w = refused w
  write_attempts-Steady (suc left) r v d w =
      retry (write_attempts-Steady left r v d) (i2c_write_read-Steady r v 0 false d w)
    where
      retry :
          {o : Res ℕ × State W}
          → ((w' : W) → Steady {A = Unit {0}} d (write_attempts board left r v (on d w')))
          → Steady d o
          → Steady {A = Unit {0}} d (elim o.0 [
            | ok v ↦ (ok tt, o.1)
            | err e ↦ write_attempts board left r v o.1
            | fault ↦ (fault, o.1)
          ])
      retry again (fine w') = fine w'
      retry again (refused w') = again w'

  reg_modify-Steady :
      (r mask val : ℕ) (d : Device) (w : W) → Steady d (reg_modify board r mask val (on d w))
  unfolding reg_modify i2c_read i2c_write
  reg_modify-Steady r mask val d w =
      Steady-then d _ (i2c_write_read-Steady 0 0 r true d w)
        (λ v w'. write_attempts-Steady 3 r _ d w')

  regulator_disable-Steady :
      (id : ℕ) (d : Device) (w : W) → Steady d (regulator_disable board id (on d w))
  unfolding regulator_disable
  regulator_disable-Steady id d w = elim (Bool-cases d.initialized) [
    | inl up ↦ elim (Bool-cases (ltb id regulator_count)) [
      | inl small ↦ simp (up, small) (reg_modify-Steady _ 0x80 0x00 d w)
      | inr large ↦ simp (up, large) (refused w)
    ]
    | inr down ↦ simp down (refused w)
  ]

  watchdog_disable-Steady : (d : Device) (w : W) → Steady d (watchdog_disable board (on d w))
  unfolding watchdog_disable i2c_write
  watchdog_disable-Steady d w = elim (Bool-cases d.initialized) [
    | inl up ↦ simp up (write_attempts-Steady 3 _ 0 d w)
    | inr down ↦ simp down (refused w)
  ]

  -- A command ended well and left the instance alone.
  data Done (d : Device) : Res (Unit {0}) × State W → Type 0 where
    done : (w : W) → Done d (ok tt, on d w)

  Steady-ignore :
      {A : Type 0} (d : Device) (m : Drv W A) (s : State W) → Steady d (m s) → Done d (ignore m s)
  Steady-ignore {A} d m s st = forget st
    where
      forget :
          {o : Res A × State W}
          → Steady {A = A} d o
          → Done d (elim o.0 [ ok a ↦ ok tt | err e ↦ ok tt | fault ↦ fault ], o.1)
      forget (fine w) = done w
      forget (refused w) = done w

  Done-then :
      {A : Type 0} (P : Res A × State W → Type 0) (d : Device) {o : Res (Unit {0}) × State W}
      (f : Unit {0} → Drv W A)
      → Done d o
      → ((w : W) → P (f tt (on d w)))
      → P (and_then o f)
  Done-then P d f (done w) next = next w

  disable_from-Done :
      (left i : ℕ) (d : Device) (w : W) → Done d (disable_from board i left (on d w))
  unfolding disable_from
  disable_from-Done zero i d w = done w
  disable_from-Done (suc left) i d w =
      Done-then (Done d) d _
        (Steady-ignore d (regulator_disable board i) (on d w) (regulator_disable-Steady i d w))
        (disable_from-Done left (i + 1) d)

  -- `tps6594_deinit` of an instance succeeds on every board, whatever transactions fail, and
  -- leaves the instance with nothing changed but `initialized`, which is false.
  deinit-Done :
      (d : Device) (w : W)
      → ((deinit board (on d w)).0 ≡ ok tt)
        × ((deinit board (on d w)).1.dev ≡ some (record d { initialized = false }))
  unfolding deinit
  deinit-Done d w =
      Done-then (λ o. (o.0 ≡ ok tt) × (o.1.dev ≡ some (record d { initialized = false }))) d _
        (Steady-ignore d (watchdog_disable board) (on d w) (watchdog_disable-Steady d w))
        (λ w'.
          Done-then (λ o. (o.0 ≡ ok tt) × (o.1.dev ≡ some (record d { initialized = false }))) d _
            (disable_from-Done regulator_count 0 d w') (λ w''. (refl, refl)))
