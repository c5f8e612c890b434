-- ===== src/Pmic/Life.antt =====
-- Probing and the power states of tps6594_driver/src/tps6594.c, over a board with registers.
use Prim.Native.Nat.{bit_and, bit_or}
use c_data_structures.Prelude.{
  ℕ, ◌≡◌, ◌≢◌, ◌⊎◌, inl, inr, refl, ap, ◌∙◌, sym, true, ◌||◌, none, some, ◌==◌, arith, Bool-cases,
  Option-cases, eq_of_some,
}
use c_data_structures.Pmic.Registers.{
  reg_pwr_ctrl, reg_sleep_conf, reg_device_id, reg_int_sts, reg_pwr_status, state_active,
  state_standby, device_id_pmic, device_id_fpga,
}
use c_data_structures.Pmic.Types.{Device}
use c_data_structures.Pmic.Driver.{State, Res, ok, err, inval, nocomm, nomatch, and_then, ◌>>=◌}
use c_data_structures.Pmic.Bus.{Board, not8}
use c_data_structures.Pmic.Power.{set_power_state, enter_sleep, exit_sleep, ctrl_value, sleep_en}
use c_data_structures.Pmic.Device.{probe}
use c_data_structures.Pmic.Chip.{
  IsChip, on, Same, Stored, i2c_read-Got, i2c_write-Written, Got-bind, Written-bind,
}

ctrl_value-standby : ctrl_value state_standby ≡ some 0x01
unfolding ctrl_value
ctrl_value-standby = refl

module _ {W : Type 0} {board : Board W} (chip : IsChip board) where
  open chip use {regs, Plain}

  -- How a request for a power state ends.
  pub data PowerSet (state : ℕ) (d : Device) (w : W) : Res (Unit {0}) × State W → Type 0 where
    power_set :
        {w' : W} (code : ℕ)
        → ctrl_value state ≡ some code
        → Stored chip reg_pwr_ctrl code w w'
        → PowerSet state d w (ok tt, on (record d { current_state = state }) w')
    no_comm : {w' : W} → Same chip w w' → PowerSet state d w (err nocomm, on d w')
    no_state : ctrl_value state ≡ none → PowerSet state d w (err inval, on d w)

  -- On an initialised instance and a plain PWR_CTRL, `tps6594_set_power_state` writes the
  -- state's code to PWR_CTRL and notes the state; or it returns TPS6594_ERR_NOCOMM and changes
  -- neither; or, for a state that has no code, it returns TPS6594_ERR_INVAL with no
  -- transaction.
  set_power_state-PowerSet :
      (state : ℕ) (d : Device) (w : W)
      → d.initialized ≡ true
      → Plain reg_pwr_ctrl
      → PowerSet state d w (set_power_state board state (on d w))
  unfolding set_power_state
  set_power_state-PowerSet state d w up plain = elim (Option-cases (ctrl_value state)) [
    | inl e ↦ simp (up, e) (no_state e)
    | inr (code, e) ↦
        simp (up, e)
          (Written-bind chip (PowerSet state d w) _ code d w _
            (i2c_write-Written chip _ code d w plain) (λ w' stored. power_set code e stored)
            (λ w' same. no_comm same))
  ]

  -- The SLEEP_CONF value with the sleep bit set, and with it cleared.
  abbrev pub sleep_set : W → ℕ
  sleep_set w = bit_or (regs w reg_sleep_conf) sleep_en

  abbrev pub sleep_clear : W → ℕ
  sleep_clear w = bit_and (regs w reg_sleep_conf) (not8 sleep_en)

  -- How `tps6594_enter_sleep` ends; `half_way` is a failure of its second write.
  pub data Slept (d : Device) (w : W) : Res (Unit {0}) × State W → Type 0 where
    asleep :
        {w' : W}
        → regs w' reg_sleep_conf ≡ sleep_set w
        → regs w' reg_pwr_ctrl ≡ 0x01
        → ((q : ℕ) → Plain q → q ≢ reg_sleep_conf → q ≢ reg_pwr_ctrl → regs w' q ≡ regs w q)
        → Slept d w (ok tt, on (record d { current_state = state_standby }) w')
    half_way :
        {w' : W} → Stored chip reg_sleep_conf (sleep_set w) w w' → Slept d w (err nocomm, on d w')
    no_sleep : {w' : W} → Same chip w w' → Slept d w (err nocomm, on d w')

  -- On an initialised instance and plain PWR_CTRL and SLEEP_CONF, `tps6594_enter_sleep` sets
  -- the sleep bit, requests standby and notes it, leaving the other plain registers alone; or
  -- it returns TPS6594_ERR_NOCOMM with the instance as it was and either no plain register
  -- changed, or only SLEEP_CONF, with the sleep bit set.
  enter_sleep-Slept :
      (d : Device) (w : W)
      → d.initialized ≡ true
      → Plain reg_pwr_ctrl
      → Plain reg_sleep_conf
      → Slept d w (enter_sleep board (on d w))
  unfolding enter_sleep
  enter_sleep-Slept d w up ctrl conf = simp up (
      Got-bind chip (Slept d w) _ d w _ (i2c_read-Got chip _ d w)
        (λ v w' e same.
          Written-bind chip (Slept d w) _ _ d w' _
            (i2c_write-Written chip _ (bit_or v sleep_en) d w' conf)
            (λ w'' stored.
              standby w''
                (λ q p. stored q p ∙ ground (arith, same q p, ap (λ n. bit_or n sleep_en) e))
                (set_power_state-PowerSet state_standby d w'' up ctrl))
            (λ w'' same'. no_sleep (λ q p. same' q p ∙ same q p)))
        (λ w' same. no_sleep same))
    where
      standby :
          (w'' : W) {o : Res (Unit {0}) × State W}
          → Stored chip reg_sleep_conf (sleep_set w) w w''
          → PowerSet state_standby d w'' o
          → Slept d w o
      standby w'' stored (power_set code e put) =
          asleep (put _ conf ∙ stored _ conf) (put _ ctrl ∙ eq_of_some (sym e ∙ ctrl_value-standby))
            (λ q p off_conf off_ctrl. ground (arith, put q p, stored q p))
      standby w'' stored (no_comm same) = half_way (λ q p. same q p ∙ stored q p)
      standby w'' stored (no_state e) = absurd (ground (arith, sym e ∙ ctrl_value-standby))

  -- How `tps6594_exit_sleep` ends.
  pub data Woken (d : Device) (w : W) : Res (Unit {0}) × State W → Type 0 where
    woken :
        {w' : W}
        → Stored chip reg_sleep_conf (sleep_clear w) w w'
        → Woken d w (ok tt, on (record d { current_state = state_active }) w')
    no_wake : {w' : W} → Same chip w w' → Woken d w (err nocomm, on d w')

  exit_sleep-Woken :
      (d : Device) (w : W)
      → d.initialized ≡ true
      → Plain reg_sleep_conf
      → Woken d w (exit_sleep board (on d w))
  unfolding exit_sleep
  exit_sleep-Woken d w up conf = simp up (
      Got-bind chip (Woken d w) _ d w _ (i2c_read-Got chip _ d w)
        (λ v w' e same.
          Written-bind chip (Woken d w) _ _ d w' _
            (i2c_write-Written chip _ (bit_and v (not8 sleep_en)) d w' conf)
            (λ w'' stored.
              woken (λ q p.
                stored q p ∙ ground (arith, same q p, ap (λ n. bit_and n (not8 sleep_en)) e)))
            (λ w'' same'. no_wake (λ q p. same' q p ∙ same q p)))
        (λ w' same. no_wake same))

  -- How entering sleep and leaving it again ends.
  pub data SleepCycle (d : Device) : Res (Unit {0}) × State W → Type 0 where
    cycle :
        {w' : W}
        → regs w' reg_pwr_ctrl ≡ 0x01
        → SleepCycle d (ok tt, on (record d { current_state = state_active }) w')
    broken : {s : State W} → SleepCycle d (err nocomm, s)

  -- On an initialised instance and plain PWR_CTRL and SLEEP_CONF, entering sleep and leaving it
  -- again ends with the instance in state ACTIVE while PWR_CTRL still holds the code of
  -- STANDBY, or with TPS6594_ERR_NOCOMM.
  pub exit_sleep-enter_sleep :
      (d : Device) (w : W)
      → d.initialized ≡ true
      → Plain reg_pwr_ctrl
      → Plain reg_sleep_conf
      → SleepCycle d ((enter_sleep board >>= λ _. exit_sleep board) (on d w))
  exit_sleep-enter_sleep d w up ctrl conf = after_sleep (enter_sleep-Slept d w up ctrl conf)
    where
      after_wake :
          {w' : W} {o : Res (Unit {0}) × State W}
          → regs w' reg_pwr_ctrl ≡ 0x01
          → Woken (record d { current_state = state_standby }) w' o
          → SleepCycle d o
      after_wake put (woken stored) = cycle (stored _ ctrl ∙ put)
      after_wake put (no_wake same) = broken

      after_sleep :
          {o : Res (Unit {0}) × State W}
          → Slept d w o
          → SleepCycle d (and_then o (λ _. exit_sleep board))
      after_sleep (asleep {w'} set put others) = after_wake put (exit_sleep-Woken _ w' up conf)
      after_sleep (half_way stored) = broken
      after_sleep (no_sleep same) = broken

  -- How `tps6594_probe` ends, by the value of the DEVICE_ID register.
  pub data Probed (d : Device) (id : ℕ) : Res (Unit {0}) × State W → Type 0 where
    known :
        {w' : W} (rev status : ℕ)
        → ((id ≡ 0x24) ⊎ (id ≡ 0x30))
        → Probed d id (
          ok tt,
          on
              (record d {
                device_id = id;
                revid = bit_and rev 0x0F;
                current_state = bit_and status 0x0F;
                initialized = true;
              })
              w',
        )
    unknown :
        {w' : W}
        → id ≢ 0x24
        → id ≢ 0x30
        → Probed d id (err nomatch, on (record d { device_id = id }) w')
    cut :
        {d' : Device} {w' : W} → d'.initialized ≡ d.initialized → Probed d id (err nocomm, on d' w')

  -- On a board that keeps its plain registers, `tps6594_probe` ends in one of three ways: with
  -- a DEVICE_ID of 0x24 or 0x30 it may succeed, and the instance is initialised with that
  -- identity and the masked revision and power state; with any other DEVICE_ID it may return
  -- TPS6594_ERR_NOMATCH with only the identity noted; or it returns TPS6594_ERR_NOCOMM with the
  -- initialised flag as it was.
  pub probe-Probed : (d : Device) (w : W) → Probed d (regs w reg_device_id) (probe board (on d w))
  unfolding probe
  probe-Probed d w =
      Got-bind chip (Probed d (regs w reg_device_id)) _ d w _ (i2c_read-Got chip reg_device_id d w)
        (λ v w' e same. rw (sym e) (elim (Bool-cases (v == device_id_pmic || v == device_id_fpga)) [
          | inl good ↦ simp good (
              Got-bind chip (Probed d v) _ _ w' _ (i2c_read-Got chip reg_int_sts _ w')
                (λ rev w2 e2 same2.
                  Got-bind chip (Probed d v) _ _ w2 _ (i2c_read-Got chip reg_pwr_status _ w2)
                    (λ status w3 e3 same3. known rev status (ground arith)) (λ w3 same3. cut refl))
                (λ w2 same2. cut refl))
          | inr bad ↦ simp bad (unknown (ground arith) (ground arith))
        ]))
        (λ w' same. cut refl)
