-- ===== src/Pmic/Watchdog.antt =====
-- The watchdog's timeout in tps6594_driver/src/tps6594.c.
use c_data_structures.Prelude.{ℕ, ◌/◌, ◌<◌, ◌≡◌, ap, arith, ltb, if◌then◌else◌}
use Prim.Native.Nat.{bit_and}
use c_data_structures.Pmic.Driver.{State, ◌>>◌, ready}
use c_data_structures.Pmic.Bus.{Board, i2c_write}
use c_data_structures.Pmic.Registers.{reg_wdog_response}
use c_data_structures.Pmic.Monitor.{timeout_bits, watchdog_enable, watchdog_disable}

-- The code of a timeout counts whole steps of 256 ms.
timeout_bits-eq-zero : (timeout_ms : ℕ) → timeout_ms < 256 → timeout_bits timeout_ms ≡ 0
unfolding timeout_bits
timeout_bits-eq-zero timeout_ms short =
    let steps : (if ltb 32000 timeout_ms then 32000 else timeout_ms) / 256 ≡ 0 = ground arith in
    ap (λ n. bit_and n 0x7F) steps

-- `tps6594_watchdog_enable` of a timeout below 256 ms does what `tps6594_watchdog_disable` does.
watchdog_enable-off :
    {W : Type 0} (board : Board W) (timeout_ms : ℕ) (s : State W)
    → timeout_ms < 256
    → watchdog_enable board timeout_ms s ≡ watchdog_disable board s
unfolding watchdog_enable watchdog_disable
watchdog_enable-off board timeout_ms s short =
    ap (λ bits. (ready >> i2c_write board reg_wdog_response bits) s)
      (timeout_bits-eq-zero timeout_ms short)
