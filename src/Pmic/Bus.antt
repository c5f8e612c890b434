-- ===== src/Pmic/Bus.antt =====
-- I2C transactions and register access of tps6594_driver/src/tps6594.c.
use Prim.Native.Nat.{bit_and, bit_or}
use c_data_structures.Prelude.{ℕ, zero, suc, ◌-◌, Bool, true, false, if◌then◌else◌}
use c_data_structures.Prelude.Int.{ℤ, is_zero}
use c_data_structures.Pmic.Driver.{Drv, ok, err, fault, nocomm, ◌>>=◌, throw, device}

-- What the board supplies, which is not part of the driver.
pub record Board (W : Type 0) : Type 0 where
  -- `board_i2c_write_read(addr, wreg, wval, rreg, rval, timeout_ms)`: the `int` that it returns,
  -- and what it stores through `rval`; the flag says whether `rval` is set.
  pub write_read : (addr wreg wval rreg : ℕ) → Bool → (timeout_ms : ℕ) → W → ℤ × ℕ × W
  -- `tps6594_register_isr_cb`, for a callback that is known by a number.
  pub register_isr_cb : ℕ → W → W

abbrev pub i2c_timeout_ms : ℕ
i2c_timeout_ms = 100

abbrev pub i2c_retry_max : ℕ
i2c_retry_max = 3

-- `~mask` as it meets an 8-bit operand of `&`.
abbrev pub not8 : ℕ → ℕ
not8 mask = 255 - mask

module _ {W : Type 0} (board : Board W) where
  open board use {write_read}

  unfoldable pub i2c_write_read : (wreg wval rreg : ℕ) → Bool → Drv W ℕ
  i2c_write_read wreg wval rreg wanted = do
    d ← device
    λ s.
        let (ret, val, w) = write_read d.i2c_addr wreg wval rreg wanted i2c_timeout_ms s.world in
        (if is_zero ret then ok val else err nocomm, record s { world = w })

  -- The attempts that are left of `for (retry = 0; retry < TPS6594_I2C_RETRY_MAX; retry++)`.
  unfoldable pub write_attempts : ℕ → (reg val : ℕ) → Drv W (Unit {0})
  write_attempts zero reg val s = throw nocomm s
  write_attempts (suc left) reg val s =
      let (r, s') = i2c_write_read reg val 0 false s in
      let again = write_attempts left reg val s' in
      elim r [ ok v ↦ (ok tt, s') | err e ↦ again | fault ↦ (fault, s') ]

  unfoldable pub i2c_write : (reg val : ℕ) → Drv W (Unit {0})
  i2c_write reg val = write_attempts i2c_retry_max reg val

  unfoldable pub i2c_read : (reg : ℕ) → Drv W ℕ
  i2c_read reg = i2c_write_read 0 0 reg true

  unfoldable pub reg_read : (reg : ℕ) → Drv W ℕ
  reg_read reg = i2c_read reg

  unfoldable pub reg_write : (reg val : ℕ) → Drv W (Unit {0})
  reg_write reg val = i2c_write reg val

  unfoldable pub reg_modify : (reg mask val : ℕ) → Drv W (Unit {0})
  reg_modify reg mask val = do
    cur ← i2c_read reg
    i2c_write reg (bit_or (bit_and cur (not8 mask)) (bit_and val mask))
