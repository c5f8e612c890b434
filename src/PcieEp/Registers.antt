-- ===== src/PcieEp/Registers.antt =====
-- The registers of pcie_ep_driver/xilinx_pcie_ep.c, up to the interrupt handler. The endpoint behind
-- BAR0 is a parameter: what `ioread32` and `iowrite32` do at an offset.
use Prim.Native.Nat.{bit_and, bit_or}
use c_data_structures.Prelude.{
  ℕ, ◌+◌, ◌-◌, ◌*◌, ◌/◌, ◌%◌, ◌^◌, Bool, true, false, ◌==◌, if◌then◌else◌,
}
use c_data_structures.Prelude.Run.{Run, ok, fault, ◌>>=◌}

abbrev pub reg_ctrl : ℕ
reg_ctrl = 0x00

abbrev pub reg_status : ℕ
reg_status = 0x04

abbrev pub reg_ring_base : ℕ
reg_ring_base = 0x08

abbrev pub reg_ring_base_hi : ℕ
reg_ring_base_hi = 0x0C

abbrev pub reg_ring_size : ℕ
reg_ring_size = 0x10

abbrev pub reg_int_enable : ℕ
reg_int_enable = 0x1C

abbrev pub reg_int_status : ℕ
reg_int_status = 0x20

abbrev pub ctrl_start : ℕ
ctrl_start = 1

abbrev pub ctrl_reset : ℕ
ctrl_reset = 4

abbrev pub ctrl_irq_en : ℕ
ctrl_irq_en = 8

abbrev pub u32_mod : ℕ
u32_mod = 2 ^ 32

-- `tmp & ~mask` in a `u32`.
abbrev pub and_not : (tmp mask : ℕ) → ℕ
and_not tmp mask = bit_and tmp (u32_mod - 1 - mask)

-- An endpoint whose own state is a `D`: a read may change it, as may time between the calls.
pub record Endpoint (D : Type 0) : Type 0 where
  pub ioread32 : (offset : ℕ) → D → ℕ × D
  pub iowrite32 : (val offset : ℕ) → D → D

-- `struct xilinx_ep_dev`: the endpoint behind `bar0`, whether `lock` is held, `dma_phys` and the
-- `refcount` as the 32 bits of an `atomic_t`.
pub record XilinxEpDev (D : Type 0) : Type 0 where
  pub bar0 : D
  pub locked : Bool
  pub dma_phys : ℕ
  pub refcount : ℕ

module _ {D : Type 0} (endpoint : Endpoint D) where
  unfoldable pub ep_read32 : (offset : ℕ) → D → ℕ × D
  ep_read32 offset d = endpoint.ioread32 offset d

  unfoldable pub ep_write32 : (offset val : ℕ) → D → D
  ep_write32 offset val d = endpoint.iowrite32 (val % u32_mod) offset d

  -- The lower half is read first.
  unfoldable pub ep_read64 : (offset_lo offset_hi : ℕ) → D → ℕ × D
  ep_read64 offset_lo offset_hi d =
      let (lo, d1) = ep_read32 offset_lo d in
      let (hi, d2) = ep_read32 offset_hi d1 in (bit_or (hi * 2 ^ 32) lo, d2)

  unfoldable pub ep_write64 : (offset_lo offset_hi val : ℕ) → D → D
  ep_write64 offset_lo offset_hi val d =
      ep_write32 offset_hi (val / 2 ^ 32) (ep_write32 offset_lo (val % u32_mod) d)

module _ {D : Type 0} where
  -- A processor that takes a lock it holds waits for ever.
  unfoldable pub spin_lock : XilinxEpDev D → Run (XilinxEpDev D)
  spin_lock ep = if ep.locked then fault else ok (record ep { locked = true })

  unfoldable pub spin_unlock : XilinxEpDev D → Run (XilinxEpDev D)
  spin_unlock ep = if ep.locked then ok (record ep { locked = false }) else fault

  unfoldable pub ep_open : XilinxEpDev D → XilinxEpDev D
  ep_open ep = record ep { refcount = (ep.refcount + 1) % u32_mod }

  unfoldable pub ep_release : XilinxEpDev D → XilinxEpDev D
  ep_release ep = record ep { refcount = (ep.refcount + u32_mod - 1) % u32_mod }

-- `irqreturn_t`.
pub data IrqReturn : Type 0 where
  irq_none : IrqReturn
  irq_handled : IrqReturn

module _ {D : Type 0} (endpoint : Endpoint D) where
  -- `xilinx_ep_irq_handler`; what it prints of `STATUS_DMA_DONE` and `STATUS_DMA_ERR` is left out.
  unfoldable pub irq_handler : XilinxEpDev D → Run (IrqReturn × XilinxEpDev D)
  unfolding spin_lock spin_unlock
  irq_handler ep = do
    ep1 ← spin_lock ep
    let (status, d) = ep_read32 endpoint reg_int_status ep1.bar0
    let ep2 = record ep1 { bar0 = d }
    let cleared = record ep1 { bar0 = ep_write32 endpoint reg_int_status status d }
    ep3 ← spin_unlock (if status == 0 then ep2 else cleared)
    ok (if status == 0 then irq_none else irq_handled, ep3)

  -- `xilinx_ep_shutdown`.
  unfoldable pub shutdown : XilinxEpDev D → Run (XilinxEpDev D)
  unfolding spin_lock spin_unlock
  shutdown ep = do
    ep1 ← spin_lock ep
    let (tmp, d) = ep_read32 endpoint reg_ctrl ep1.bar0
    ep2 ←
        spin_unlock (record ep1 { bar0 = ep_write32 endpoint reg_ctrl (and_not tmp ctrl_start) d })
    ok (record ep2 { bar0 = ep_write32 endpoint reg_int_enable 0 ep2.bar0 })
