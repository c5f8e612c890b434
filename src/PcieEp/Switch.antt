-- ===== src/PcieEp/Switch.antt =====
-- `ep_ioctl` of pcie_ep_driver/xilinx_pcie_ep.c, request by request.
use Prim.Native.Nat.{bit_and, bit_or}
use mathlib.Core.Path.{subst}
use c_data_structures.Prelude.{
  ℕ, ◌%◌, ◌/◌, ◌^◌, ◌≡◌, refl, ◌∙◌, ap, Bool, true, false, ◌==◌, if◌then◌else◌, arith, Bool-cases,
  inl, inr,
}
use c_data_structures.Prelude.Int.{ℤ, pos}
use c_data_structures.Prelude.Run.{Run}
use c_data_structures.Prelude.Bits.{bit, bit_and-one}
use c_data_structures.PcieEp.Registers.{
  Endpoint, XilinxEpDev, reg_ctrl, reg_status, reg_ring_base, reg_ring_base_hi, reg_ring_size,
  ctrl_start, ctrl_reset, ctrl_irq_en, u32_mod, and_not, ep_read32, ep_write32, ep_write64,
  spin_lock, spin_unlock,
}
use c_data_structures.PcieEp.Control.{
  Cmd, UserMemory, Copied, copied_desc, efault, enotty, copy_user, modify_ctrl, pulse_reset,
  read_status, finish, reply, with_arg, dispatch, ep_ioctl,
}
use c_data_structures.PcieEp.Engine.{
  ring_base, ring_base_hi, ring_size, KeepsCtrl, runs, digit, IsEngine, Reports, Serves, if_same,
  digit_test, modify_ctrl-lem, start_bits, dma_start_bits, stop_bits, reset_bits,
}

module _ {D : Type 0} (endpoint : Endpoint D) (ctrl : D → ℕ) (keeps : KeepsCtrl endpoint ctrl) where
  module _ (memory : UserMemory) where
    finish-Serves :
        (ret : ℤ) (ep : XilinxEpDev D) (running : Bool)
        → ep.locked ≡ true
        → bit (ctrl ep.bar0) 2 ≡ 0
        → bit (ctrl ep.bar0) 0 ≡ digit running
        → Serves ctrl running (finish endpoint memory ret ep)
    unfolding finish spin_unlock
    finish-Serves ret ep running held no_reset start_bit =
        simp held (record { free = refl; no_reset = no_reset; start_bit = start_bit }, tt)

    modified-Serves :
        (f : ℕ → ℕ) (d : D) (ep : XilinxEpDev D) (running : Bool)
        → ep.locked ≡ true
        → bit (f (ctrl d) % u32_mod) 2 ≡ 0
        → bit (f (ctrl d) % u32_mod) 0 ≡ digit running
        → Serves ctrl running
            (finish endpoint memory (pos 0) (record ep { bar0 = modify_ctrl endpoint memory f d }))
    modified-Serves f d ep running held no_reset start_bit =
        let e = modify_ctrl-lem endpoint ctrl keeps memory f d no_reset in
        finish-Serves (pos 0) (record ep { bar0 = modify_ctrl endpoint memory f d }) running held
          (ap (λ t. bit t 2) e ∙ no_reset) (ap (λ t. bit t 0) e ∙ start_bit)

    reply-Serves :
        (answer : Copied) (ep : XilinxEpDev D) (running : Bool)
        → ep.locked ≡ true
        → bit (ctrl ep.bar0) 2 ≡ 0
        → bit (ctrl ep.bar0) 0 ≡ digit running
        → Reports ctrl answer running
        → Serves ctrl running (reply endpoint memory answer ep)
    unfolding reply spin_unlock copy_user
    reply-Serves answer ep running held no_reset start_bit reports =
        let engine : IsEngine ctrl (record ep { locked = false }) running = record {
          free = refl;
          no_reset = no_reset;
          start_bit = start_bit;
        } in
        elim (Bool-cases memory.writable) [
          | inl e ↦ simp (held, e) (engine, reports)
          | inr e ↦ simp (held, e) (engine, tt)
        ]

    with_arg-Serves :
        (body : Run (ℤ × Copied × XilinxEpDev D)) (ep : XilinxEpDev D) (running after : Bool)
        → memory.resident ≡ true
        → ep.locked ≡ true
        → bit (ctrl ep.bar0) 2 ≡ 0
        → bit (ctrl ep.bar0) 0 ≡ digit running
        → Serves ctrl after body
        → Serves ctrl
            (if memory.readable then after else running)
            (with_arg endpoint memory body ep)
    unfolding with_arg copy_user
    with_arg-Serves body ep running after there held no_reset start_bit served =
        elim (Bool-cases memory.readable) [
          | inl e ↦ simp (held, there, e) served
          | inr e ↦ simp (held, there, e) (finish-Serves efault ep running held no_reset start_bit)
        ]

    kept-Serves :
        (body : Run (ℤ × Copied × XilinxEpDev D)) (ep : XilinxEpDev D) (running : Bool)
        → memory.resident ≡ true
        → ep.locked ≡ true
        → bit (ctrl ep.bar0) 2 ≡ 0
        → bit (ctrl ep.bar0) 0 ≡ digit running
        → Serves ctrl running body
        → Serves ctrl running (with_arg endpoint memory body ep)
    kept-Serves body ep running there held no_reset start_bit served =
        subst (λ r. Serves ctrl r (with_arg endpoint memory body ep))
          (if_same memory.readable running)
          (with_arg-Serves body ep running running there held no_reset start_bit served)

    status-Serves :
        (ep : XilinxEpDev D) (running : Bool)
        → ep.locked ≡ true
        → bit (ctrl ep.bar0) 2 ≡ 0
        → bit (ctrl ep.bar0) 0 ≡ digit running
        → Serves ctrl running (dispatch endpoint memory Cmd.status ep)
    unfolding dispatch read_status ep_read32
    status-Serves ep running held no_reset start_bit =
        let d1 = (endpoint.ioread32 reg_ctrl ep.bar0).1 in
        let kept = keeps.read_keeps reg_status d1 ∙ keeps.read_keeps reg_ctrl ep.bar0 in
        reply-Serves _ (record ep { bar0 = (endpoint.ioread32 reg_status d1).1 }) running held
          (ap (λ t. bit t 2) kept ∙ no_reset) (ap (λ t. bit t 0) kept ∙ start_bit)
          (ap (λ t. if bit_and t ctrl_start == 0 then 0 else 1) (keeps.reads ep.bar0)
            ∙ (ap (λ t. if t == 0 then 0 else 1) (bit_and-one (ctrl ep.bar0) ∙ start_bit)
                ∙ digit_test running))

    dispatch-Serves :
        (cmd : Cmd) (ep : XilinxEpDev D) (running : Bool)
        → memory.resident ≡ true
        → ep.locked ≡ true
        → bit (ctrl ep.bar0) 2 ≡ 0
        → bit (ctrl ep.bar0) 0 ≡ digit running
        → Serves ctrl (runs memory cmd running) (dispatch endpoint memory cmd ep)
    unfolding dispatch pulse_reset ep_write64 ep_write32 ep_read32
    dispatch-Serves Cmd.start ep running there held no_reset start_bit =
        let (two, one) = start_bits (ctrl ep.bar0) no_reset in
        modified-Serves (λ tmp. bit_or tmp ctrl_start) ep.bar0 ep true held two one
    dispatch-Serves Cmd.stop ep running there held no_reset start_bit =
        let (two, one) = stop_bits (ctrl ep.bar0) no_reset in
        modified-Serves (λ tmp. and_not tmp ctrl_start) ep.bar0 ep false held two one
    dispatch-Serves Cmd.reset ep running there held no_reset start_bit =
        let (two, one) = reset_bits (ctrl ep.bar0) in
        let (tmp, d1) = endpoint.ioread32 reg_ctrl ep.bar0 in
        let d2 = endpoint.iowrite32 (bit_or tmp ctrl_reset % u32_mod) reg_ctrl d1 in
        let e =
          ap (λ t. ctrl (endpoint.iowrite32 (and_not t ctrl_reset % u32_mod) reg_ctrl d2))
            (keeps.reads ep.bar0)
          ∙ keeps.writes (and_not (ctrl ep.bar0) ctrl_reset % u32_mod) d2 (omega arith) two in
        finish-Serves (pos 0) (record ep { bar0 = pulse_reset endpoint memory ep.bar0 }) running
          held (ap (λ t. bit t 2) e ∙ two) (ap (λ t. bit t 0) e ∙ (one ∙ start_bit))
    dispatch-Serves (Cmd.config size) ep running there held no_reset start_bit =
        let e = keeps.write_keeps (size % u32_mod) ep.bar0 ring_size in
        kept-Serves _ ep running there held no_reset start_bit (
          finish-Serves (pos 0)
            (record ep { bar0 = ep_write32 endpoint reg_ring_size size ep.bar0 }) running held
            (ap (λ t. bit t 2) e ∙ no_reset) (ap (λ t. bit t 0) e ∙ start_bit))
    dispatch-Serves Cmd.status ep running there held no_reset start_bit =
        status-Serves ep running held no_reset start_bit
    dispatch-Serves (Cmd.dma_alloc desc) ep running there held no_reset start_bit =
        kept-Serves _ ep running there held no_reset start_bit (
          reply-Serves (copied_desc (record desc { dev_addr = ep.dma_phys })) ep running held
            no_reset start_bit tt)
    dispatch-Serves (Cmd.dma_free desc) ep running there held no_reset start_bit =
        finish-Serves enotty ep running held no_reset start_bit
    dispatch-Serves (Cmd.dma_start desc) ep running there held no_reset start_bit =
        let d1 = ep_write32 endpoint reg_ring_base (desc.dev_addr % u32_mod) ep.bar0 in
        let d = ep_write64 endpoint reg_ring_base reg_ring_base_hi desc.dev_addr ep.bar0 in
        let e =
          keeps.write_keeps (desc.dev_addr / 2 ^ 32 % u32_mod) d1 ring_base_hi
          ∙ keeps.write_keeps (desc.dev_addr % u32_mod % u32_mod) ep.bar0 ring_base in
        let (two, one) = dma_start_bits (ctrl d) (ap (λ t. bit t 2) e ∙ no_reset) in
        with_arg-Serves _ ep running true there held no_reset start_bit (
          modified-Serves (λ tmp. bit_or (bit_or tmp ctrl_start) ctrl_irq_en) d ep true held two
            one)
    dispatch-Serves Cmd.dma_stop ep running there held no_reset start_bit =
        let (two, one) = stop_bits (ctrl ep.bar0) no_reset in
        modified-Serves (λ tmp. and_not tmp ctrl_start) ep.bar0 ep false held two one
    dispatch-Serves Cmd.other ep running there held no_reset start_bit =
        finish-Serves enotty ep running held no_reset start_bit

    -- On an endpoint whose control register keeps what is written, with the caller's pages
    -- there and the lock free: every request of `ep_ioctl` returns with the lock free, the
    -- start bit is set after START and DMA_START, clear after STOP and DMA_STOP and as before
    -- after the others or a failed copy of DMA_START's argument, no reset stays pending, and a
    -- status that is copied back reports the engine as it is.
    pub ep_ioctl-Serves :
        (cmd : Cmd) (ep : XilinxEpDev D) (running : Bool)
        → memory.resident ≡ true
        → IsEngine ctrl ep running
        → Serves ctrl (runs memory cmd running) (ep_ioctl endpoint memory cmd ep)
    unfolding ep_ioctl spin_lock
    ep_ioctl-Serves cmd ep running there engine = simp engine.free (
        dispatch-Serves cmd (record ep { locked = true }) running there refl engine.no_reset
          engine.start_bit)
