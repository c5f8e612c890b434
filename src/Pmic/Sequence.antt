-- ===== src/Pmic/Sequence.antt =====
-- The order of the regulators in `tps6594_boot_sequence` of
-- tps6594_driver/src/tps6594_safertos.c, over a bus that does not fail.
use mathlib.Core.Path.{subst}
use c_data_structures.Prelude.{
  ℕ, zero, suc, ◌<◌, ◌≡◌, ◌≢◌, refl, ap, ◌∙◌, sym, Bool, true, false, some, ◌||◌, List, [], ◌∷◌,
  ◌==◌, if◌then◌else◌, arith, inl, inr, Bool-cases, lt→ltb,
}
use c_data_structures.Prelude.Int.{is_zero}
use c_data_structures.Prelude.Run.{ok}
use c_data_structures.Prelude.Bits.{bit}
use c_data_structures.Pmic.Registers.{reg_buck1_conf, reg_ldo1_conf, regulator_count}
use c_data_structures.Pmic.Types.{Device}
use c_data_structures.Pmic.Driver.{State, Res}
use c_data_structures.Pmic.Driver
use c_data_structures.Pmic.Bus.{
  Board, i2c_timeout_ms, i2c_write_read, write_attempts, i2c_write, i2c_read, reg_modify,
}
use c_data_structures.Pmic.Regulator.{reg_address, regulator_enable}
use c_data_structures.Pmic.Chip.{IsChip, on}
use c_data_structures.Pmic.Modify.{Changed, changed, kept, regulator_enable-Changed}
use c_data_structures.Pmic.Tasks.{
  I2cBus, board_i2c_write_read, transaction, bus_board, TaskState, finished,
}
use c_data_structures.Pmic.Boot.{enable_each}

-- The configuration register of a regulator.
abbrev pub conf : ℕ → ℕ
conf id = reg_address reg_buck1_conf reg_ldo1_conf id

conf_apart : (i j : ℕ) → i < regulator_count → j < regulator_count → i ≢ j → conf i ≢ conf j
unfolding reg_address
conf_apart i j hi hj ne e = ne (ground arith)

pub conf-nonzero : (id : ℕ) → id < regulator_count → conf id ≢ 0
unfolding reg_address
conf-nonzero id small e = ground arith

abbrev pub contains : List ℕ → ℕ → Bool
contains [] i = false
contains (j ∷ js) i = j == i || contains js i

abbrev pub AllBelow : ℕ → List ℕ → Type 0
AllBelow n [] = Unit
AllBelow n (j ∷ js) = (j < n) × AllBelow n js

-- Every read and every write of a register other than register 0 is carried out.
pub record Reliable {W : Type 0} (board : Board W) : Type 0 where
  pub reads :
      (addr r t : ℕ) (w : W) → r ≢ 0 → is_zero (board.write_read addr 0 0 r true t w).0 ≡ true
  pub writes :
      (addr r v t : ℕ) (w : W) → r ≢ 0 → is_zero (board.write_read addr r v 0 false t w).0 ≡ true

module _ {W : Type 0} (bus : I2cBus W) (addr : ℕ) where
  read_through :
      (r t : ℕ) (w : W)
      → r ≢ 0
      → board_i2c_write_read bus (some addr) 0 0 r true t w ≡ ok (bus.bus_write_read addr 0 0 r t w)
  unfolding board_i2c_write_read
  read_through r t w ne = let e : (r == 0) ≡ false = ground arith in simp e refl

  write_through :
      (r v t : ℕ) (w : W)
      → r ≢ 0
      → board_i2c_write_read bus (some addr) r v 0 false t w
        ≡ ok (let (ret, w') = bus.bus_write addr r v t w in (ret, 0, w'))
  unfolding board_i2c_write_read
  write_through r v t w ne = let e : (r == 0) ≡ false = ground arith in simp e refl

  -- `board_i2c_write_read` does so over a bus that carries out its transactions.
  pub bus_board-Reliable :
      (register : ℕ → W → W)
      → ((r t : ℕ) (w : W) → is_zero (bus.bus_write_read addr 0 0 r t w).0 ≡ true)
      → ((r v t : ℕ) (w : W) → is_zero (bus.bus_write addr r v t w).0 ≡ true)
      → Reliable (bus_board bus addr register)
  bus_board-Reliable register reads_ok writes_ok = record {
    reads = (λ a r t w ne.
        ap (λ x. is_zero (transaction w x).0) (read_through r t w ne) ∙ reads_ok r t w);
    writes = (λ a r v t w ne.
        ap (λ x. is_zero (transaction w x).0) (write_through r v t w ne) ∙ writes_ok r v t w);
  }

low_bits : (k : ℕ) → k < 7 → bit 0x80 k ≡ 0
unfolding bit
low_bits zero h = refl
low_bits (suc zero) h = refl
low_bits (suc (suc zero)) h = refl
low_bits (suc (suc (suc zero))) h = refl
low_bits (suc (suc (suc (suc zero)))) h = refl
low_bits (suc (suc (suc (suc (suc zero))))) h = refl
low_bits (suc (suc (suc (suc (suc (suc zero)))))) h = refl
low_bits (suc (suc (suc (suc (suc (suc (suc k))))))) h = absurd (omega arith)

module _ {W : Type 0} {board : Board W} (chip : IsChip board) where
  open chip use {regs, Plain}

  -- A change that succeeds.
  Changed-inv :
      {r mask val : ℕ} {d : Device} {w : W} {o : Res (Unit {0}) × State W}
      → Changed chip r mask val d w o
      → o.0 ≡ Driver.ok tt
      → (w' : W) × (o ≡ (Driver.ok tt, on d w'))
        × ((k : ℕ)
            → k < 8
            → bit (regs w' r) k ≡ (if bit mask k == 1 then bit val k else bit (regs w r) k))
        × ((q : ℕ) → Plain q → q ≢ r → regs w' q ≡ regs w q)
  Changed-inv (changed bits others) e = (_, refl, bits, others)
  Changed-inv (kept same) e = absurd (ground arith)

  i2c_write-ok :
      (r val : ℕ) (d : Device) (w : W)
      → Reliable board
      → r ≢ 0
      → (i2c_write board r val (on d w)).0 ≡ Driver.ok tt
  unfolding i2c_write write_attempts i2c_write_read
  i2c_write-ok r val d w reliable ne =
      rw (reliable.writes d.i2c_addr r val i2c_timeout_ms w ne, write_attempts) refl

  reg_modify-ok :
      (r mask val : ℕ) (d : Device) (w : W)
      → Reliable board
      → r ≢ 0
      → (reg_modify board r mask val (on d w)).0 ≡ Driver.ok tt
  unfolding reg_modify i2c_read i2c_write_read
  reg_modify-ok r mask val d w reliable ne =
      rw (reliable.reads d.i2c_addr r i2c_timeout_ms w ne) (i2c_write-ok r _ d _ reliable ne)

  regulator_enable-ok :
      (id : ℕ) (d : Device) (w : W)
      → Reliable board
      → d.initialized ≡ true
      → id < regulator_count
      → (regulator_enable board id (on d w)).0 ≡ Driver.ok tt
  unfolding regulator_enable
  regulator_enable-ok id d w reliable up small =
      simp (up, lt→ltb id regulator_count small)
        (reg_modify-ok (conf id) 0x80 0x80 d w reliable (conf-nonzero id small))

  -- The configuration registers are plain ones.
  abbrev pub PlainConf : Type 0
  PlainConf = (id : ℕ) → id < regulator_count → Plain (conf id)

  -- From `w` to `w'` the regulators in `ids` were enabled and nothing else changed.
  abbrev pub Enables : List ℕ → W → W → Type 0
  Enables ids w w' =
      (id : ℕ)
      → id < regulator_count
      → (bit (regs w' (conf id)) 7 ≡ (if contains ids id then 1 else bit (regs w (conf id)) 7))
        × ((k : ℕ) → k < 7 → bit (regs w' (conf id)) k ≡ bit (regs w (conf id)) k)

  enable_one :
      (j : ℕ) (d : Device) (w : W)
      → Reliable board
      → PlainConf
      → d.initialized ≡ true
      → j < regulator_count
      → (w' : W) × (regulator_enable board j (on d w) ≡ (Driver.ok tt, on d w'))
        × Enables (j ∷ []) w w'
  unfolding bit
  enable_one j d w reliable plain up small =
      let (w', run, own, others) =
        Changed-inv (regulator_enable-Changed chip j d w up small (plain j small)).0
          (regulator_enable-ok j d w reliable up small) in
      (
        w',
        run,
        λ id below. elim (Bool-cases (j == id)) [
          | inl e ↦
              let same : j ≡ id = ground arith in
              subst
                (λ i.
                  (bit (regs w' (conf i)) 7
                    ≡ (if contains (j ∷ []) id then 1 else bit (regs w (conf i)) 7))
                  × ((k : ℕ) → k < 7 → bit (regs w' (conf i)) k ≡ bit (regs w (conf i)) k))
                same
                (
                  own 7 (omega arith) ∙ rw e refl,
                  λ k lt. own k (omega arith) ∙ rw (low_bits k lt) refl,
                )
          | inr e ↦
              let kept_reg =
                others (conf id) (plain id below)
                  (λ h. conf_apart j id small below (ground arith) (sym h)) in
              (ap (λ t. bit t 7) kept_reg ∙ rw e refl, λ k lt. ap (λ t. bit t k) kept_reg)
        ],
      )

  -- On an initialised instance, over a board that carries out the reads and writes of registers
  -- other than register 0, with a chip whose configuration registers keep what is written: the
  -- calls of `tps6594_regulator_enable` that `tps6594_boot_sequence` makes, for any list of
  -- regulators, end without a fault and with the enable bit of exactly those regulators set in
  -- addition; no other bit of a regulator's configuration register changes.
  pub enable_each-Enables :
      (ids : List ℕ) (t : TaskState W) (d : Device) (w : W)
      → Reliable board
      → PlainConf
      → d.initialized ≡ true
      → AllBelow regulator_count ids
      → t.drv ≡ on d w
      → (w' : W) × (enable_each board ids t ≡ ok (record t { drv = on d w' })) × Enables ids w w'
  unfolding enable_each finished
  enable_each-Enables [] t d w reliable plain up below at =
      (w, ap (λ s. ok (record t { drv = s })) at, λ id lt. (refl, λ k lt'. refl))
  enable_each-Enables (j ∷ ids) t d w reliable plain up below at =
      let (w1, run, first) = enable_one j d w reliable plain up below.0 in
      let (w2, more, rest) =
        enable_each-Enables ids (record t { drv = on d w1 }) d w1 reliable plain up below.1 refl in
      (
        w2,
        rw (at, run) more,
        λ id lt. (
          (rest id lt).0 ∙ ground (arith, (first id lt).0),
          λ k lt'. (rest id lt).1 k lt' ∙ (first id lt).1 k lt',
        ),
      )
