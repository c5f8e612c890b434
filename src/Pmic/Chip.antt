-- ===== src/Pmic/Chip.antt =====
-- What the driver expects of the board: transactions on registers that keep what is written.
use c_data_structures.Prelude.{
  ℕ, zero, suc, ◌<◌, ◌≡◌, refl, inl, inr, ap, ◌∙◌, true, false, some, ◌==◌, if◌then◌else◌, arith,
  Bool-cases,
}
use c_data_structures.Prelude.Int.{is_zero}
use c_data_structures.Pmic.Types.{Device}
use c_data_structures.Pmic.Driver.{State, Res, Drv, ok, err, nocomm, and_then}
use c_data_structures.Pmic.Bus.{
  Board, i2c_timeout_ms, i2c_retry_max, i2c_write_read, write_attempts, i2c_write, i2c_read,
}

-- A transaction that returns 0 was carried out, and any other left the registers alone. `Plain`
-- marks the registers that keep what is written and change by writes alone.
pub record IsChip {W : Type 0} (board : Board W) : Type 1 where
  pub regs : W → ℕ → ℕ
  pub Plain : ℕ → Type 0
  pub read_value :
      (addr r t : ℕ) (w : W)
      → is_zero (board.write_read addr 0 0 r true t w).0 ≡ true
      → (board.write_read addr 0 0 r true t w).1 ≡ regs w r
  pub read_keeps :
      (addr r t : ℕ) (w : W) (q : ℕ)
      → Plain q
      → regs (board.write_read addr 0 0 r true t w).2 q ≡ regs w q
  pub write_done :
      (addr r v t : ℕ) (w : W) (q : ℕ)
      → Plain r
      → Plain q
      → is_zero (board.write_read addr r v 0 false t w).0 ≡ true
      → regs (board.write_read addr r v 0 false t w).2 q ≡ (if q == r then v else regs w q)
  pub write_failed :
      (addr r v t : ℕ) (w : W) (q : ℕ)
      → Plain q
      → is_zero (board.write_read addr r v 0 false t w).0 ≡ false
      → regs (board.write_read addr r v 0 false t w).2 q ≡ regs w q

-- The state with instance `d` and world `w`.
abbrev pub on : {W : Type 0} → Device → W → State W
on d w = record { dev = some d; world = w }

module _ {W : Type 0} {board : Board W} (chip : IsChip board) where
  open chip use {regs, Plain}

  -- No plain register changed.
  abbrev pub Same : W → W → Type 0
  Same w w' = (q : ℕ) → Plain q → regs w' q ≡ regs w q

  -- Register `r` holds `v`, and no other plain register changed.
  abbrev pub Stored : (r v : ℕ) → W → W → Type 0
  Stored r v w w' = (q : ℕ) → Plain q → regs w' q ≡ (if q == r then v else regs w q)

  -- How a command ends that writes `v` to register `r`: with the value stored, or with an error and
  -- no change; the instance stays in both cases.
  pub data Written (r v : ℕ) (d : Device) (w : W) : Res (Unit {0}) × State W → Type 0 where
    done : {w' : W} → Stored r v w w' → Written r v d w (ok tt, on d w')
    failed : {w' : W} → Same w w' → Written r v d w (err nocomm, on d w')

  -- How a read ends: with the register's value, or with an error.
  pub data Got (r : ℕ) (d : Device) (w : W) : Res ℕ × State W → Type 0 where
    got : {w' : W} (v : ℕ) → v ≡ regs w r → Same w w' → Got r d w (ok v, on d w')
    missed : {w' : W} → Same w w' → Got r d w (err nocomm, on d w')

  pub i2c_read-Got : (r : ℕ) (d : Device) (w : W) → Got r d w (i2c_read board r (on d w))
  unfolding i2c_read i2c_write_read
  i2c_read-Got r d w =
      elim (Bool-cases (is_zero (board.write_read d.i2c_addr 0 0 r true i2c_timeout_ms w).0)) [
        | inl e ↦ rw e (
            got _ (chip.read_value d.i2c_addr r i2c_timeout_ms w e)
              (chip.read_keeps d.i2c_addr r i2c_timeout_ms w))
        | inr e ↦ rw e (missed (chip.read_keeps d.i2c_addr r i2c_timeout_ms w))
      ]

  -- What follows a read, and what follows a write.
  pub Got-bind :
      {A : Type 0} (P : Res A × State W → Type 0) (r : ℕ) (d : Device) (w : W) {o : Res ℕ × State W}
      (f : ℕ → Drv W A)
      → Got r d w o
      → ((v : ℕ) (w' : W) → v ≡ regs w r → Same w w' → P (f v (on d w')))
      → ((w' : W) → Same w w' → P (err nocomm, on d w'))
      → P (and_then o f)
  Got-bind P r d w f (got v e same) next stop = next v _ e same
  Got-bind P r d w f (missed same) next stop = stop _ same

  pub Written-bind :
      {A : Type 0} (P : Res A × State W → Type 0) (r v : ℕ) (d : Device) (w : W)
      {o : Res (Unit {0}) × State W} (f : Unit {0} → Drv W A)
      → Written r v d w o
      → ((w' : W) → Stored r v w w' → P (f tt (on d w')))
      → ((w' : W) → Same w w' → P (err nocomm, on d w'))
      → P (and_then o f)
  Written-bind P r v d w f (done stored) next stop = next _ stored
  Written-bind P r v d w f (failed same) next stop = stop _ same

  Written-after :
      (r v : ℕ) (d : Device) (w w' : W) {o : Res (Unit {0}) × State W}
      → Same w w'
      → Written r v d w' o
      → Written r v d w o
  Written-after r v d w w' same (done stored) =
      done (λ q p. stored q p ∙ ap (λ z. if q == r then v else z) (same q p))
  Written-after r v d w w' same (failed same') = failed (λ q p. same' q p ∙ same q p)

  write_attempts-Written :
      (left r v : ℕ) (d : Device) (w : W)
      → Plain r
      → Written r v d w (write_attempts board left r v (on d w))
  unfolding write_attempts i2c_write_read
  write_attempts-Written zero r v d w plain = failed (λ q p. refl)
  write_attempts-Written (suc left) r v d w plain =
      let t = board.write_read d.i2c_addr r v 0 false i2c_timeout_ms w in
      elim (Bool-cases (is_zero t.0)) [
        | inl e ↦
            rw (e, write_attempts)
              (done (λ q p. chip.write_done d.i2c_addr r v i2c_timeout_ms w q plain p e))
        | inr e ↦
            rw (e, write_attempts)
              (Written-after r v d w t.2
                (λ q p. chip.write_failed d.i2c_addr r v i2c_timeout_ms w q p e)
                (write_attempts-Written left r v d t.2 plain))
      ]

  -- `tps6594_i2c_write` stores the value in the register, or returns TPS6594_ERR_NOCOMM with every
  -- plain register as it was; other plain registers and the instance do not change.
  pub i2c_write-Written :
      (r v : ℕ) (d : Device) (w : W) → Plain r → Written r v d w (i2c_write board r v (on d w))
  unfolding i2c_write
  i2c_write-Written r v d w plain = write_attempts-Written i2c_retry_max r v d w plain

-- The attempts that `tps6594_i2c_write` may make: the world after `n` of them, and that they failed.
module _ {W : Type 0} (board : Board W) (addr r v : ℕ) where
  abbrev pub after : ℕ → W → W
  after zero w = w
  after (suc n) w = after n (board.write_read addr r v 0 false i2c_timeout_ms w).2

  abbrev pub Fails : ℕ → W → Type 0
  Fails zero w = Unit
  Fails (suc n) w =
      (is_zero (board.write_read addr r v 0 false i2c_timeout_ms w).0 ≡ false)
      × Fails n (board.write_read addr r v 0 false i2c_timeout_ms w).2

module _ {W : Type 0} (board : Board W) where
  attempts-done :
      (left n r v : ℕ) (d : Device) (w : W)
      → n < left
      → Fails board d.i2c_addr r v n w
      → is_zero
          (board.write_read d.i2c_addr r v 0 false i2c_timeout_ms
            (after board d.i2c_addr r v n w)).0
        ≡ true
      → write_attempts board left r v (on d w)
        ≡ (ok tt, on d (after board d.i2c_addr r v (suc n) w))
  unfolding write_attempts i2c_write_read
  attempts-done zero n r v d w few fails good = absurd (omega arith)
  attempts-done (suc left) zero r v d w few fails good = rw (good, write_attempts)
  attempts-done (suc left) (suc n) r v d w few fails good =
      rw (fails.0, write_attempts) (attempts-done left n r v d _ (omega arith) fails.1 good)

  attempts-fail :
      (left r v : ℕ) (d : Device) (w : W)
      → Fails board d.i2c_addr r v left w
      → write_attempts board left r v (on d w)
        ≡ (err nocomm, on d (after board d.i2c_addr r v left w))
  unfolding write_attempts i2c_write_read
  attempts-fail zero r v d w fails = refl
  attempts-fail (suc left) r v d w fails =
      rw (fails.0, write_attempts) (attempts-fail left r v d _ fails.1)

  -- When the first `n` transactions of a write fail, `n` being less than three, and the next
  -- one is carried out, `tps6594_i2c_write` succeeds after exactly these `n + 1` transactions.
  pub i2c_write-retry :
      (r v n : ℕ) (d : Device) (w : W)
      → n < 3
      → Fails board d.i2c_addr r v n w
      → is_zero
          (board.write_read d.i2c_addr r v 0 false i2c_timeout_ms
            (after board d.i2c_addr r v n w)).0
        ≡ true
      → i2c_write board r v (on d w) ≡ (ok tt, on d (after board d.i2c_addr r v (suc n) w))
  unfolding i2c_write
  i2c_write-retry r v n d w few fails good = attempts-done 3 n r v d w few fails good

  -- When three transactions of a write fail, `tps6594_i2c_write` returns TPS6594_ERR_NOCOMM
  -- after exactly these three.
  i2c_write-gives_up :
      (r v : ℕ) (d : Device) (w : W)
      → Fails board d.i2c_addr r v 3 w
      → i2c_write board r v (on d w) ≡ (err nocomm, on d (after board d.i2c_addr r v 3 w))
  unfolding i2c_write
  i2c_write-gives_up r v d w fails = attempts-fail 3 r v d w fails
