-- ===== src/PcieEp/Engine.antt =====
-- The DMA engine as the requests of pcie_ep_driver/xilinx_pcie_ep.c switch it, and its lock.
use Prim.Native.Nat.{bit_or, min, max}
use c_data_structures.Prelude.{
  ℕ, ◌-◌, ◌%◌, ◌<◌, ◌≡◌, ◌∙◌, ap, Bool, true, false, ◌==◌, if◌then◌else◌, arith,
}
use c_data_structures.Prelude.Int.{ℤ}
use c_data_structures.Prelude.Run.{Run, ok, fault, out_of_fuel}
use c_data_structures.Prelude.Bits.{bit, bit-lt, bit-bit_and, bit-bit_or, bit-word}
use c_data_structures.PcieEp.Registers.{
  Endpoint, XilinxEpDev, reg_ctrl, reg_ring_base, reg_ring_base_hi, reg_ring_size, reg_int_enable,
  ctrl_start, ctrl_reset, ctrl_irq_en, u32_mod, and_not, ep_read32, ep_write32,
}
use c_data_structures.PcieEp.Control.{
  Cmd, UserMemory, Copied, nothing, copied_status, copied_desc, modify_ctrl,
}

-- The registers beside CTRL that the driver writes with the engine in view.
pub data Beside : ℕ → Type 0 where
  ring_base : Beside reg_ring_base
  ring_base_hi : Beside reg_ring_base_hi
  ring_size : Beside reg_ring_size
  int_enable : Beside reg_int_enable

-- An endpoint whose control register, `ctrl`, keeps what is written to it unless that is a reset,
-- and is changed by no read and by no write of a register beside it.
pub record KeepsCtrl {D : Type 0} (endpoint : Endpoint D) (ctrl : D → ℕ) : Type 0 where
  pub reads : (d : D) → (endpoint.ioread32 reg_ctrl d).0 ≡ ctrl d
  pub read_keeps : (offset : ℕ) (d : D) → ctrl (endpoint.ioread32 offset d).1 ≡ ctrl d
  pub write_keeps :
      (val : ℕ) {offset : ℕ} (d : D)
      → Beside offset
      → ctrl (endpoint.iowrite32 val offset d) ≡ ctrl d
  pub writes :
      (val : ℕ) (d : D)
      → val < u32_mod
      → bit val 2 ≡ 0
      → ctrl (endpoint.iowrite32 val reg_ctrl d) ≡ val

-- Whether the engine runs after a request: what is asked for, if the argument can be read.
abbrev pub runs : UserMemory → Cmd → Bool → Bool
runs memory Cmd.start running = true
runs memory Cmd.stop running = false
runs memory Cmd.reset running = running
runs memory (Cmd.config size) running = running
runs memory Cmd.status running = running
runs memory (Cmd.dma_alloc desc) running = running
runs memory (Cmd.dma_free desc) running = running
runs memory (Cmd.dma_start desc) running = if memory.readable then true else running
runs memory Cmd.dma_stop running = false
runs memory Cmd.other running = running

abbrev pub digit : Bool → ℕ
digit running = if running then 1 else 0

module _ {D : Type 0} (ctrl : D → ℕ) where
  -- The lock is free, no reset is pending, and the start bit says whether the engine runs.
  pub record IsEngine (ep : XilinxEpDev D) (running : Bool) : Type 0 where
    pub free : ep.locked ≡ false
    pub no_reset : bit (ctrl ep.bar0) 2 ≡ 0
    pub start_bit : bit (ctrl ep.bar0) 0 ≡ digit running

  -- What a status request reports of the engine.
  abbrev pub Reports : Copied → Bool → Type 0
  Reports nothing running = Unit
  Reports (copied_status report) running = report.dma_active ≡ digit running
  Reports (copied_desc desc) running = Unit

  abbrev pub Serves : Bool → Run (ℤ × Copied × XilinxEpDev D) → Type 0
  Serves running (ok (ret, answer, ep)) = IsEngine ep running × Reports answer running
  Serves running fault = ⊥
  Serves running out_of_fuel = ⊥

pub if_same : (b running : Bool) → (if b then running else running) ≡ running
if_same b running = ground arith

pub digit_test : (running : Bool) → (if digit running == 0 then 0 else 1) ≡ digit running
digit_test running = ground arith

or_bit : (tmp mask k : ℕ) → k < 4 → bit (bit_or tmp mask % u32_mod) k ≡ max (bit tmp k) (bit mask k)
or_bit tmp mask k lt = bit-word (bit_or tmp mask) k lt ∙ bit-bit_or tmp mask k

and_not-bit :
    (tmp mask k : ℕ)
    → k < 4
    → bit (and_not tmp mask % u32_mod) k ≡ min (bit tmp k) (bit (u32_mod - 1 - mask) k)
and_not-bit tmp mask k lt =
    bit-word (and_not tmp mask) k lt ∙ bit-bit_and tmp (u32_mod - 1 - mask) k

pub start_bits :
    (tmp : ℕ)
    → bit tmp 2 ≡ 0
    → (bit (bit_or tmp ctrl_start % u32_mod) 2 ≡ 0) × (bit (bit_or tmp ctrl_start % u32_mod) 0 ≡ 1)
unfolding bit
start_bits tmp h = (
  omega (arith, or_bit tmp ctrl_start 2 (omega arith)),
  omega (arith, or_bit tmp ctrl_start 0 (omega arith), bit-lt tmp 0),
)

pub dma_start_bits :
    (tmp : ℕ)
    → bit tmp 2 ≡ 0
    → (bit (bit_or (bit_or tmp ctrl_start) ctrl_irq_en % u32_mod) 2 ≡ 0)
      × (bit (bit_or (bit_or tmp ctrl_start) ctrl_irq_en % u32_mod) 0 ≡ 1)
unfolding bit
dma_start_bits tmp h =
    let once = bit_or tmp ctrl_start in
    (
      omega (arith, or_bit once ctrl_irq_en 2 (omega arith), bit-bit_or tmp ctrl_start 2),
      omega (
        arith,
        or_bit once ctrl_irq_en 0 (omega arith),
        bit-bit_or tmp ctrl_start 0,
        bit-lt tmp 0,
      ),
    )

pub stop_bits :
    (tmp : ℕ)
    → bit tmp 2 ≡ 0
    → (bit (and_not tmp ctrl_start % u32_mod) 2 ≡ 0)
      × (bit (and_not tmp ctrl_start % u32_mod) 0 ≡ 0)
unfolding bit
stop_bits tmp h = (
  omega (arith, and_not-bit tmp ctrl_start 2 (omega arith)),
  omega (arith, and_not-bit tmp ctrl_start 0 (omega arith)),
)

pub reset_bits :
    (tmp : ℕ)
    → (bit (and_not tmp ctrl_reset % u32_mod) 2 ≡ 0)
      × (bit (and_not tmp ctrl_reset % u32_mod) 0 ≡ bit tmp 0)
unfolding bit
reset_bits tmp = (
  omega (arith, and_not-bit tmp ctrl_reset 2 (omega arith)),
  omega (arith, and_not-bit tmp ctrl_reset 0 (omega arith), bit-lt tmp 0),
)

module _ {D : Type 0} (endpoint : Endpoint D) (ctrl : D → ℕ) (keeps : KeepsCtrl endpoint ctrl) where
  pub modify_ctrl-lem :
      (memory : UserMemory) (f : ℕ → ℕ) (d : D)
      → bit (f (ctrl d) % u32_mod) 2 ≡ 0
      → ctrl (modify_ctrl endpoint memory f d) ≡ f (ctrl d) % u32_mod
  unfolding modify_ctrl ep_read32 ep_write32
  modify_ctrl-lem memory f d no_reset =
      let tmp_eq = keeps.reads d in
      ap (λ t. ctrl (endpoint.iowrite32 (f t % u32_mod) reg_ctrl (endpoint.ioread32 reg_ctrl d).1))
        tmp_eq
      ∙ keeps.writes (f (ctrl d) % u32_mod) _ (omega arith) no_reset
