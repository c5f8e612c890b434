-- ===== src/Pmic/Sleep.antt =====
-- The bits that `tps6594_configure_sleep` writes to SLEEP_CONF.
use Prim.Native.Nat.{bit_and, bit_or, min, max}
use c_data_structures.Prelude.{
  ℕ, ◌*◌, ◌%◌, ◌^◌, ◌≡◌, refl, ap, ◌∙◌, Bool, true, false, if◌then◌else◌, arith,
}
use c_data_structures.Prelude.Bits.{bit, bit-lt, bit-bit_and, bit-bit_or}
use c_data_structures.Pmic.Types.{SleepConfig}
use c_data_structures.Pmic.Power.{sleep_bits}

-- The flags of SLEEP_CONF.
abbrev flags : (enabled retention : Bool) → ℕ
flags enabled retention =
    let on = if enabled then 0x01 else 0 in if retention then bit_or on 0x40 else on

byte-bits :
    (x : ℕ)
    → (bit (x % 256) 0 ≡ bit x 0)
      × (bit (x % 256) 1 ≡ bit x 1)
      × (bit (x % 256) 2 ≡ bit x 2)
      × (bit (x % 256) 3 ≡ bit x 3)
      × (bit (x % 256) 4 ≡ bit x 4)
      × (bit (x % 256) 5 ≡ bit x 5)
      × (bit (x % 256) 6 ≡ bit x 6)
      × (bit (x % 256) 7 ≡ bit x 7)
unfolding bit
byte-bits x = (
  omega arith,
  omega arith,
  omega arith,
  omega arith,
  omega arith,
  omega arith,
  omega arith,
  omega arith,
)

shifted-bits :
    (y : ℕ)
    → (bit (y * 2 ^ 6) 0 ≡ 0)
      × (bit (y * 2 ^ 6) 1 ≡ 0)
      × (bit (y * 2 ^ 6) 2 ≡ 0)
      × (bit (y * 2 ^ 6) 3 ≡ 0)
      × (bit (y * 2 ^ 6) 4 ≡ 0)
      × (bit (y * 2 ^ 6) 5 ≡ 0)
      × (bit (y * 2 ^ 6) 6 ≡ bit y 0)
      × (bit (y * 2 ^ 6) 7 ≡ bit y 1)
unfolding bit
shifted-bits y = (
  omega arith,
  omega arith,
  omega arith,
  omega arith,
  omega arith,
  omega arith,
  omega arith,
  omega arith,
)

flags-bits :
    (enabled retention : Bool)
    → (bit (flags enabled retention) 0 ≡ (if enabled then 1 else 0))
      × (bit (flags enabled retention) 1 ≡ 0)
      × (bit (flags enabled retention) 2 ≡ 0)
      × (bit (flags enabled retention) 3 ≡ 0)
      × (bit (flags enabled retention) 4 ≡ 0)
      × (bit (flags enabled retention) 5 ≡ 0)
      × (bit (flags enabled retention) 6 ≡ (if retention then 1 else 0))
      × (bit (flags enabled retention) 7 ≡ 0)
unfolding bit
flags-bits true true = (refl, refl, refl, refl, refl, refl, refl, refl)
flags-bits true false = (refl, refl, refl, refl, refl, refl, refl, refl)
flags-bits false true = (refl, refl, refl, refl, refl, refl, refl, refl)
flags-bits false false = (refl, refl, refl, refl, refl, refl, refl, refl)

-- A bit of the value is the greatest of the bits that are joined.
joined :
    (cfg : SleepConfig) (k : ℕ)
    → ((x : ℕ) → bit (x % 256) k ≡ bit x k)
    → bit (sleep_bits cfg) k
      ≡ max
          (max
            (bit (flags cfg.sleep_enabled cfg.retention_enabled) k)
            (min (bit cfg.buck_mask k) (bit 0x1F k)))
          (bit (bit_and cfg.ldo_mask 0x0F * 2 ^ 6) k)
unfolding sleep_bits
joined cfg k whole =
    let kept = flags cfg.sleep_enabled cfg.retention_enabled in
    let bucks = bit_and cfg.buck_mask 0x1F in
    let ldos = bit_and cfg.ldo_mask 0x0F * 2 ^ 6 in
    whole (bit_or (bit_or kept bucks) ldos)
    ∙ bit-bit_or (bit_or kept bucks) ldos k
    ∙ ap (λ n. max n (bit ldos k))
        (bit-bit_or kept bucks k ∙ ap (max (bit kept k)) (bit-bit_and cfg.buck_mask 0x1F k))

-- The eight bits that `tps6594_configure_sleep` puts into SLEEP_CONF are: at 0, set by the
-- enable flag or by the first BUCK's mask bit; at 1 to 4, the mask bits of the other BUCKs; at
-- 5, clear; at 6, set by the retention flag or by the first LDO's mask bit; at 7, the second
-- LDO's mask bit. The mask bits of the third and the fourth LDO reach none of them.
pub sleep_bits-bits :
    (cfg : SleepConfig)
    → (bit (sleep_bits cfg) 0 ≡ max (if cfg.sleep_enabled then 1 else 0) (bit cfg.buck_mask 0))
      × (bit (sleep_bits cfg) 1 ≡ bit cfg.buck_mask 1)
      × (bit (sleep_bits cfg) 2 ≡ bit cfg.buck_mask 2)
      × (bit (sleep_bits cfg) 3 ≡ bit cfg.buck_mask 3)
      × (bit (sleep_bits cfg) 4 ≡ bit cfg.buck_mask 4)
      × (bit (sleep_bits cfg) 5 ≡ 0)
      × (bit (sleep_bits cfg) 6 ≡ max (if cfg.retention_enabled then 1 else 0) (bit cfg.ldo_mask 0))
      × (bit (sleep_bits cfg) 7 ≡ bit cfg.ldo_mask 1)
unfolding bit
sleep_bits-bits cfg =
    let (f0, f1, f2, f3, f4, f5, f6, f7) = flags-bits cfg.sleep_enabled cfg.retention_enabled in
    let (s0, s1, s2, s3, s4, s5, s6, s7) = shifted-bits (bit_and cfg.ldo_mask 0x0F) in
    (
      omega (arith, joined cfg 0 (λ x. (byte-bits x).0), f0, s0, bit-lt cfg.buck_mask 0),
      omega (arith, joined cfg 1 (λ x. (byte-bits x).1), f1, s1, bit-lt cfg.buck_mask 1),
      omega (arith, joined cfg 2 (λ x. (byte-bits x).2), f2, s2, bit-lt cfg.buck_mask 2),
      omega (arith, joined cfg 3 (λ x. (byte-bits x).3), f3, s3, bit-lt cfg.buck_mask 3),
      omega (arith, joined cfg 4 (λ x. (byte-bits x).4), f4, s4, bit-lt cfg.buck_mask 4),
      omega (arith, joined cfg 5 (λ x. (byte-bits x).5), f5, s5, bit-lt cfg.buck_mask 5),
      omega (
        arith,
        joined cfg 6 (λ x. (byte-bits x).6),
        f6,
        s6,
        bit-bit_and cfg.ldo_mask 0x0F 0,
        bit-lt cfg.ldo_mask 0,
      ),
      omega (
        arith,
        joined cfg 7 (λ x. (byte-bits x).7),
        f7,
        s7,
        bit-bit_and cfg.ldo_mask 0x0F 1,
        bit-lt cfg.ldo_mask 1,
      ),
    )
