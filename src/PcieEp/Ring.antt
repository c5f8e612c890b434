-- ===== src/PcieEp/Ring.antt =====
-- The arguments of the requests of pcie_ep_driver/xilinx_pcie_ep.c: the address of the ring, and
-- the copies that are made under the spinlock.
use Prim.Native.Nat.{bit_or}
use c_data_structures.Prelude.{ℕ, ◌*◌, ◌/◌, ◌%◌, ◌^◌, ◌<◌, ◌≡◌, refl, ◌∙◌, ap₂, true, false, arith}
use c_data_structures.Prelude.Int.{pos}
use c_data_structures.Prelude.Run.{ok, fault}
use c_data_structures.Prelude.Bits.{bit_or-halves}
use c_data_structures.PcieEp.Registers.{
  Endpoint, XilinxEpDev, reg_ctrl, reg_ring_base, reg_ring_base_hi, ctrl_start, ctrl_irq_en,
  u32_mod, ep_read32, ep_write32, ep_read64, ep_write64, spin_lock, spin_unlock,
}
use c_data_structures.PcieEp.Control.{
  EpDmaDesc, Cmd, UserMemory, nothing, copy_user, modify_ctrl, finish, with_arg, dispatch, ep_ioctl,
}

-- An endpoint whose two address registers keep what is written to them, and are changed by no access
-- to the control register.
pub record KeepsRing {D : Type 0} (endpoint : Endpoint D) (lo hi : D → ℕ) : Type 0 where
  pub reads_lo : (d : D) → (endpoint.ioread32 reg_ring_base d).0 ≡ lo d
  pub reads_hi : (d : D) → (endpoint.ioread32 reg_ring_base_hi d).0 ≡ hi d
  pub read_keeps : (d : D) → hi (endpoint.ioread32 reg_ring_base d).1 ≡ hi d
  pub writes_lo :
      (val : ℕ) (d : D) → val < u32_mod → lo (endpoint.iowrite32 val reg_ring_base d) ≡ val
  pub writes_hi :
      (val : ℕ) (d : D) → val < u32_mod → hi (endpoint.iowrite32 val reg_ring_base_hi d) ≡ val
  pub write_keeps : (val : ℕ) (d : D) → lo (endpoint.iowrite32 val reg_ring_base_hi d) ≡ lo d
  pub ctrl_read :
      (d : D)
      → (lo (endpoint.ioread32 reg_ctrl d).1 ≡ lo d) × (hi (endpoint.ioread32 reg_ctrl d).1 ≡ hi d)
  pub ctrl_write :
      (val : ℕ) (d : D)
      → (lo (endpoint.iowrite32 val reg_ctrl d) ≡ lo d)
        × (hi (endpoint.iowrite32 val reg_ctrl d) ≡ hi d)

module _ {D : Type 0} (endpoint : Endpoint D) (lo hi : D → ℕ)
    (keeps : KeepsRing endpoint lo hi) where
  -- The two registers hold the halves of an address.
  ep_read64-lem :
      (d : D) (addr : ℕ)
      → lo d ≡ addr % u32_mod
      → hi d ≡ addr / 2 ^ 32
      → (ep_read64 endpoint reg_ring_base reg_ring_base_hi d).0 ≡ addr
  unfolding ep_read64 ep_read32
  ep_read64-lem d addr low high =
      ap₂ (λ h l. bit_or (h * 2 ^ 32) l) (keeps.reads_hi _ ∙ (keeps.read_keeps d ∙ high))
        (keeps.reads_lo d ∙ low)
      ∙ (bit_or-halves 32 (addr / 2 ^ 32) (addr % u32_mod) (omega arith) ∙ omega arith)

  -- On an endpoint whose two address registers keep what is written, with the lock free and the
  -- argument's pages there and readable, XILINX_EP_IOC_DMA_START of an address below 2^64
  -- returns 0, and `ep_read64` of the registers gives the address back.
  pub dma_start-address :
      (memory : UserMemory) (desc : EpDmaDesc) (ep : XilinxEpDev D)
      → memory.resident ≡ true
      → memory.readable ≡ true
      → desc.dev_addr < 2 ^ 64
      → ep.locked ≡ false
      → (ep' : XilinxEpDev D) × (ep_ioctl endpoint memory (Cmd.dma_start desc) ep
          ≡ ok (pos 0, nothing, ep'))
        × ((ep_read64 endpoint reg_ring_base reg_ring_base_hi ep'.bar0).0 ≡ desc.dev_addr)
  unfolding ep_ioctl dispatch with_arg copy_user finish modify_ctrl spin_lock spin_unlock ep_write64
      ep_write32 ep_read32
  dma_start-address memory desc ep there readable small free =
      let addr = desc.dev_addr in
      let d1 = endpoint.iowrite32 (addr % u32_mod % u32_mod) reg_ring_base ep.bar0 in
      let d2 = endpoint.iowrite32 (addr / 2 ^ 32 % u32_mod) reg_ring_base_hi d1 in
      let (tmp, d3) = endpoint.ioread32 reg_ctrl d2 in
      let val = bit_or (bit_or tmp ctrl_start) ctrl_irq_en % u32_mod in
      let low : lo d2 ≡ addr % u32_mod =
        keeps.write_keeps (addr / 2 ^ 32 % u32_mod) d1
        ∙ (keeps.writes_lo (addr % u32_mod % u32_mod) ep.bar0 (omega arith) ∙ omega arith) in
      let high : hi d2 ≡ addr / 2 ^ 32 =
        keeps.writes_hi (addr / 2 ^ 32 % u32_mod) d1 (omega arith) ∙ omega (arith, small) in
      (
        record ep { locked = false; bar0 = endpoint.iowrite32 val reg_ctrl d3 },
        simp (free, there, readable) refl,
        ep_read64-lem (endpoint.iowrite32 val reg_ctrl d3) addr
            ((keeps.ctrl_write val d3).0 ∙ ((keeps.ctrl_read d2).0 ∙ low))
            ((keeps.ctrl_write val d3).1 ∙ ((keeps.ctrl_read d2).1 ∙ high)),
      )

-- The requests whose argument is copied in.
pub data TakesArg : Cmd → Type 0 where
  of_config : (size : ℕ) → TakesArg (Cmd.config size)
  of_alloc : (desc : EpDmaDesc) → TakesArg (Cmd.dma_alloc desc)
  of_start : (desc : EpDmaDesc) → TakesArg (Cmd.dma_start desc)

-- With the lock free and the argument's page not there, `ep_ioctl` of the requests CONFIG,
-- DMA_ALLOC and DMA_START sleeps under the spinlock, which is a fault.
pub ep_ioctl-sleeps :
    {D : Type 0} (endpoint : Endpoint D) (memory : UserMemory) (cmd : Cmd) (ep : XilinxEpDev D)
    → TakesArg cmd
    → memory.resident ≡ false
    → ep.locked ≡ false
    → ep_ioctl endpoint memory cmd ep ≡ fault
unfolding ep_ioctl dispatch with_arg copy_user spin_lock
ep_ioctl-sleeps endpoint memory cmd ep (of_config size) absent free = simp (free, absent) refl
ep_ioctl-sleeps endpoint memory cmd ep (of_alloc desc) absent free = simp (free, absent) refl
ep_ioctl-sleeps endpoint memory cmd ep (of_start desc) absent free = simp (free, absent) refl
