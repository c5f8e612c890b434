-- ===== src/PcieEp/Interrupts.antt =====
-- The interrupt handler and the shutdown of pcie_ep_driver/xilinx_pcie_ep.c, and the address that a
-- request of `XILINX_EP_IOC_DMA_START` gives the endpoint.
use c_data_structures.Prelude.{
  ℕ, ◌%◌, ◌<◌, ◌≡◌, ◌≢◌, refl, ◌∙◌, ap, Bool, true, false, ◌==◌, if◌then◌else◌, arith,
}
use c_data_structures.Prelude.Run.{ok}
use c_data_structures.Prelude.Bits.{bit}
use c_data_structures.PcieEp.Registers.{
  Endpoint, XilinxEpDev, irq_none, irq_handled, reg_ctrl, reg_int_enable, reg_int_status,
  ctrl_start, u32_mod, and_not, ep_read32, ep_write32, spin_lock, spin_unlock, irq_handler,
  shutdown,
}
use c_data_structures.PcieEp.Engine.{int_enable, KeepsCtrl, IsEngine, stop_bits}

-- The pending interrupts of an endpoint, `pending`: a read shows them, a write clears those whose
-- bits it sets.
pub record ClearsOnWrite {D : Type 0} (endpoint : Endpoint D) (pending : D → ℕ) : Type 0 where
  pub in_word : (d : D) → pending d < u32_mod
  pub reads : (d : D) → (endpoint.ioread32 reg_int_status d).0 ≡ pending d
  pub clears :
      (val : ℕ) (d : D) (k : ℕ)
      → bit (pending (endpoint.iowrite32 val reg_int_status d)) k
        ≡ (if bit val k == 0 then bit (pending d) k else 0)

module _ {D : Type 0} (endpoint : Endpoint D) (pending : D → ℕ)
    (clear : ClearsOnWrite endpoint pending) where
  -- On an endpoint that clears the interrupts whose bits are written, with the lock free and an
  -- interrupt pending, `xilinx_ep_irq_handler` returns IRQ_HANDLED with the lock free; those
  -- that were pending are cleared, and of the others those that are pending after the read
  -- still are.
  pub irq_handler-acknowledges :
      (ep : XilinxEpDev D)
      → ep.locked ≡ false
      → pending ep.bar0 ≢ 0
      → (ep' : XilinxEpDev D) × (irq_handler endpoint ep ≡ ok (irq_handled, ep'))
        × (ep'.locked ≡ false)
        × ((k : ℕ)
            → bit (pending ep'.bar0) k ≡ (
                if bit (pending ep.bar0) k == 0
                then bit (pending (endpoint.ioread32 reg_int_status ep.bar0).1) k
                else 0))
  unfolding irq_handler spin_lock spin_unlock ep_read32 ep_write32
  irq_handler-acknowledges ep free some_pending =
      let d1 = (endpoint.ioread32 reg_int_status ep.bar0).1 in
      let word = (endpoint.ioread32 reg_int_status ep.bar0).0 in
      let same : word ≡ pending ep.bar0 = clear.reads ep.bar0 in
      let nonzero : (word == 0) ≡ false = ground (arith, same, some_pending) in
      let whole : word % u32_mod ≡ pending ep.bar0 = omega (arith, same, clear.in_word ep.bar0) in
      (
        record ep { locked = false; bar0 = endpoint.iowrite32 (word % u32_mod) reg_int_status d1 },
        simp (free, nonzero) refl,
        refl,
        λ k.
            clear.clears (word % u32_mod) d1 k
            ∙ ap (λ t. if bit t k == 0 then bit (pending d1) k else 0) whole,
      )

  pub irq_handler-none :
      (ep : XilinxEpDev D)
      → ep.locked ≡ false
      → pending ep.bar0 ≡ 0
      → irq_handler endpoint ep
        ≡ ok (irq_none, record ep { bar0 = (endpoint.ioread32 reg_int_status ep.bar0).1 })
  unfolding irq_handler spin_lock spin_unlock ep_read32
  irq_handler-none ep free idle =
      let none_there : ((endpoint.ioread32 reg_int_status ep.bar0).0 == 0) ≡ true =
        ground (arith, clear.reads ep.bar0, idle) in
      simp (free, none_there) (ground arith)

-- `xilinx_ep_shutdown` of a device whose lock is free ends with the engine stopped, the lock free and
-- the interrupts disabled.
pub shutdown-quiet :
    {D : Type 0} (endpoint : Endpoint D) (ctrl enable : D → ℕ) (ep : XilinxEpDev D) (running : Bool)
    → KeepsCtrl endpoint ctrl
    → ((val : ℕ) (d : D) → enable (endpoint.iowrite32 val reg_int_enable d) ≡ val)
    → IsEngine ctrl ep running
    → (ep' : XilinxEpDev D) × (shutdown endpoint ep ≡ ok ep')
      × IsEngine ctrl ep' false
      × (enable ep'.bar0 ≡ 0)
unfolding shutdown spin_lock spin_unlock ep_read32 ep_write32
shutdown-quiet endpoint ctrl enable ep running keeps enables engine =
    let (tmp, d1) = endpoint.ioread32 reg_ctrl ep.bar0 in
    let d2 = endpoint.iowrite32 (and_not tmp ctrl_start % u32_mod) reg_ctrl d1 in
    let (two, one) = stop_bits (ctrl ep.bar0) engine.no_reset in
    let stopped : ctrl d2 ≡ and_not (ctrl ep.bar0) ctrl_start % u32_mod =
      ap (λ t. ctrl (endpoint.iowrite32 (and_not t ctrl_start % u32_mod) reg_ctrl d1))
        (keeps.reads ep.bar0)
      ∙ keeps.writes (and_not (ctrl ep.bar0) ctrl_start % u32_mod) d1 (omega arith) two in
    let kept = keeps.write_keeps 0 d2 int_enable ∙ stopped in
    (
      record ep { locked = false; bar0 = endpoint.iowrite32 0 reg_int_enable d2 },
      simp (engine.free) refl,
      record {
        free = refl;
        no_reset = ap (λ t. bit t 2) kept ∙ two;
        start_bit = ap (λ t. bit t 0) kept ∙ one;
      },
      enables 0 d2,
    )
