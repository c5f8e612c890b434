-- ===== src/Pmic/Modify.antt =====
-- `tps6594_reg_modify` and the functions that go through it.
use Prim.Native.Nat.{bit_and, bit_or}
use mathlib.Core.Path.{subst}
use c_data_structures.Prelude.{ℕ, ◌<◌, ◌≡◌, ◌≢◌, ap, ◌∙◌, true, ◌==◌, if◌then◌else◌, arith, lt→ltb}
use c_data_structures.Prelude.Bits.{bit, bit-lt, bit-bit_and, bit-bit_or, bit-complement8}
use c_data_structures.Pmic.Registers.{reg_buck1_conf, reg_ldo1_conf, regulator_count}
use c_data_structures.Pmic.Types.{Device}
use c_data_structures.Pmic.Driver.{State, Res, ok, err, nocomm}
use c_data_structures.Pmic.Bus.{Board, not8, i2c_write, reg_modify}
use c_data_structures.Pmic.Regulator.{reg_address, regulator_enable, regulator_disable}
use c_data_structures.Pmic.Chip.{
  IsChip, on, Same, Written, done, failed, i2c_read-Got, i2c_write-Written, Got-bind,
}

-- The byte that `tps6594_reg_modify` writes has the value's bits where the mask has ones, and the
-- register's bits elsewhere.
pub modify_bits :
    (cur mask val k : ℕ)
    → mask < 256
    → k < 8
    → bit (bit_or (bit_and cur (not8 mask)) (bit_and val mask)) k
      ≡ (if bit mask k == 1 then bit val k else bit cur k)
modify_bits cur mask val k h lt = ground (
  arith,
  bit-bit_or (bit_and cur (not8 mask)) (bit_and val mask) k,
  bit-bit_and cur (not8 mask) k,
  bit-bit_and val mask k,
  bit-complement8 mask k h lt,
  bit-lt mask k,
  bit-lt val k,
  bit-lt cur k,
)

module _ {W : Type 0} {board : Board W} (chip : IsChip board) where
  open chip use {regs, Plain}

  -- How a change of the masked bits of register `r` ends: with the bits changed, the other bits of
  -- the register and all other plain registers as they were; or with an error and no change.
  pub data Changed (r mask val : ℕ) (d : Device) (w : W) : Res (Unit {0}) × State W → Type 0 where
    changed :
        {w' : W}
        → ((k : ℕ)
            → k < 8
            → bit (regs w' r) k ≡ (if bit mask k == 1 then bit val k else bit (regs w r) k))
        → ((q : ℕ) → Plain q → q ≢ r → regs w' q ≡ regs w q)
        → Changed r mask val d w (ok tt, on d w')
    kept : {w' : W} → Same chip w w' → Changed r mask val d w (err nocomm, on d w')

  Changed-write :
      (r mask val : ℕ) (d : Device) (w w' : W) {o : Res (Unit {0}) × State W}
      → mask < 256
      → Plain r
      → Same chip w w'
      → Written chip r (bit_or (bit_and (regs w r) (not8 mask)) (bit_and val mask)) d w' o
      → Changed r mask val d w o
  Changed-write r mask val d w w' small plain same (done stored) =
      changed
        (λ k lt.
          ap (λ n. bit n k) (stored r plain ∙ ground arith)
          ∙ modify_bits (regs w r) mask val k small lt)
        (λ q p ne. stored q p ∙ ground (arith, same q p))
  Changed-write r mask val d w w' small plain same (failed same') =
      kept (λ q p. same' q p ∙ same q p)

  -- On a board that keeps its plain registers, `tps6594_reg_modify` with a mask of one byte on
  -- a plain register sets each of its eight bits to the value's bit where the mask has a one
  -- and keeps it elsewhere, leaves the other plain registers and the instance alone, and
  -- succeeds; or it returns TPS6594_ERR_NOCOMM and no plain register changes.
  reg_modify-Changed :
      (r mask val : ℕ) (d : Device) (w : W)
      → mask < 256
      → Plain r
      → Changed r mask val d w (reg_modify board r mask val (on d w))
  unfolding reg_modify
  reg_modify-Changed r mask val d w small plain =
      Got-bind chip (Changed r mask val d w) r d w _ (i2c_read-Got chip r d w)
        (λ v w' e same. Changed-write r mask val d w w' small plain same (
          subst
            (λ n.
              Written chip r (bit_or (bit_and n (not8 mask)) (bit_and val mask)) d w'
                (i2c_write board r (bit_or (bit_and v (not8 mask)) (bit_and val mask)) (on d w')))
            e (i2c_write-Written chip r _ d w' plain)))
        (λ w' same. kept same)

module _ {W : Type 0} {board : Board W} (chip : IsChip board) where
  open chip use {regs, Plain}

  -- On an initialised instance, a regulator in range and a plain configuration register,
  -- `tps6594_regulator_enable` sets bit 7 of that register and `tps6594_regulator_disable`
  -- clears it, with its other bits and the other plain registers as they were; or the call
  -- returns TPS6594_ERR_NOCOMM and no plain register changes.
  pub regulator_enable-Changed :
      (id : ℕ) (d : Device) (w : W)
      → d.initialized ≡ true
      → id < regulator_count
      → Plain (reg_address reg_buck1_conf reg_ldo1_conf id)
      → Changed chip
          (reg_address reg_buck1_conf reg_ldo1_conf id)
          0x80
          0x80
          d
          w
          (regulator_enable board id (on d w))
        × Changed chip
            (reg_address reg_buck1_conf reg_ldo1_conf id)
            0x80
            0x00
            d
            w
            (regulator_disable board id (on d w))
  unfolding regulator_enable regulator_disable
  regulator_enable-Changed id d w up small plain =
      simp (up, lt→ltb id regulator_count small)
        (
          reg_modify-Changed chip _ 0x80 0x80 d w (omega arith) plain,
          reg_modify-Changed chip _ 0x80 0x00 d w (omega arith) plain,
        )
