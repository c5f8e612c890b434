-- ===== src/PcieEp/Control.antt =====
-- `ep_ioctl` of pcie_ep_driver/xilinx_pcie_ep.c, under its spinlock. The copies from and to the
-- caller's memory are answered by parameters; of a copy that fails, the part that came through is
-- left out. A copy may have to wait until a page is there, and a processor that holds a spinlock
-- must not sleep: this is a fault.
use Prim.Native.Nat.{bit_and, bit_or}
use c_data_structures.Prelude.{ℕ, Bool, not, ◌&&◌, ◌==◌, if◌then◌else◌}
use c_data_structures.Prelude.Int.{ℤ, pos, negsuc}
use c_data_structures.Prelude.Run.{Run, ok, fault, ◌>>=◌}
use c_data_structures.PcieEp.Registers.{
  Endpoint, XilinxEpDev, reg_ctrl, reg_status, reg_ring_base, reg_ring_base_hi, reg_ring_size,
  ctrl_start, ctrl_reset, ctrl_irq_en, and_not, ep_read32, ep_write32, ep_write64, spin_lock,
  spin_unlock,
}

-- `struct ep_status`.
pub record EpStatus : Type 0 where
  pub ctrl : ℕ
  pub status : ℕ
  pub dma_active : ℕ
  pub irq_count : ℕ
  pub rx_bytes : ℕ
  pub tx_bytes : ℕ

-- `struct ep_dma_desc`.
pub record EpDmaDesc : Type 0 where
  pub user_addr : ℕ
  pub dev_addr : ℕ
  pub size : ℕ
  pub flags : ℕ

-- The requests of xilinx_pcie_ep.h; a structure at `arg` comes with the request, of `struct
-- ep_config` the field that is used.
pub data Cmd : Type 0 where
  start : Cmd
  stop : Cmd
  reset : Cmd
  config : (dma_ring_size : ℕ) → Cmd
  status : Cmd
  dma_alloc : EpDmaDesc → Cmd
  dma_free : EpDmaDesc → Cmd
  dma_start : EpDmaDesc → Cmd
  dma_stop : Cmd
  other : Cmd

-- The caller's memory at `arg`: whether its pages are there, whether it can be read and written.
pub record UserMemory : Type 0 where
  pub resident : Bool
  pub readable : Bool
  pub writable : Bool

-- What is copied back to `arg`.
pub data Copied : Type 0 where
  nothing : Copied
  copied_status : EpStatus → Copied
  copied_desc : EpDmaDesc → Copied

abbrev pub enotty : ℤ
enotty = negsuc 24

abbrev pub efault : ℤ
efault = negsuc 13

module _ {D : Type 0} where
  -- `copy_from_user` or `copy_to_user`: whether the copy is complete.
  unfoldable pub copy_user : UserMemory → (allowed : Bool) → XilinxEpDev D → Run Bool
  copy_user memory allowed ep = if ep.locked && not memory.resident then fault else ok allowed

module _ {D : Type 0} (endpoint : Endpoint D) (memory : UserMemory) where
  -- The read of `REG_CTRL` and the write of what `f` makes of it.
  unfoldable pub modify_ctrl : (f : ℕ → ℕ) → D → D
  modify_ctrl f d =
      let (tmp, d1) = ep_read32 endpoint reg_ctrl d in ep_write32 endpoint reg_ctrl (f tmp) d1

  -- `XILINX_EP_IOC_RESET`.
  unfoldable pub pulse_reset : D → D
  pulse_reset d =
      let (tmp, d1) = ep_read32 endpoint reg_ctrl d in
      let d2 = ep_write32 endpoint reg_ctrl (bit_or tmp ctrl_reset) d1 in
      ep_write32 endpoint reg_ctrl (and_not tmp ctrl_reset) d2

  -- `XILINX_EP_IOC_STATUS`: what is reported.
  unfoldable pub read_status : D → EpStatus × D
  read_status d =
      let (ctrl, d1) = ep_read32 endpoint reg_ctrl d in
      let (word, d2) = ep_read32 endpoint reg_status d1 in
      (
        record {
          ctrl = ctrl;
          status = word;
          dma_active = (if bit_and ctrl ctrl_start == 0 then 0 else 1);
          irq_count = 0;
          rx_bytes = 0;
          tx_bytes = 0;
        },
        d2,
      )

  -- The end of the cases that `break`.
  unfoldable pub finish : ℤ → XilinxEpDev D → Run (ℤ × Copied × XilinxEpDev D)
  finish ret ep = do ep1 ← spin_unlock ep; ok (ret, nothing, ep1)

  -- The end of the cases that unlock first, copy back and return.
  unfoldable pub reply : Copied → XilinxEpDev D → Run (ℤ × Copied × XilinxEpDev D)
  reply answer ep = do
    ep1 ← spin_unlock ep
    done ← copy_user memory memory.writable ep1
    ok (if done then pos 0 else efault, if done then answer else nothing, ep1)

  -- The cases that copy a structure in under the lock.
  unfoldable pub with_arg :
      Run (ℤ × Copied × XilinxEpDev D) → XilinxEpDev D → Run (ℤ × Copied × XilinxEpDev D)
  with_arg body ep = do
    done ← copy_user memory memory.readable ep
    if done then body else finish efault ep

  -- The `switch`.
  unfoldable pub dispatch : Cmd → XilinxEpDev D → Run (ℤ × Copied × XilinxEpDev D)
  dispatch start ep =
      finish (pos 0) (record ep { bar0 = modify_ctrl (λ tmp. bit_or tmp ctrl_start) ep.bar0 })
  dispatch stop ep =
      finish (pos 0) (record ep { bar0 = modify_ctrl (λ tmp. and_not tmp ctrl_start) ep.bar0 })
  dispatch reset ep = finish (pos 0) (record ep { bar0 = pulse_reset ep.bar0 })
  dispatch status ep =
      let (report, d) = read_status ep.bar0 in reply (copied_status report) (record ep { bar0 = d })
  dispatch (config dma_ring_size) ep =
      with_arg
        (finish (pos 0)
          (record ep { bar0 = ep_write32 endpoint reg_ring_size dma_ring_size ep.bar0 }))
        ep
  dispatch (dma_alloc desc) ep =
      with_arg (reply (copied_desc (record desc { dev_addr = ep.dma_phys })) ep) ep
  dispatch (dma_start desc) ep =
      let d = ep_write64 endpoint reg_ring_base reg_ring_base_hi desc.dev_addr ep.bar0 in
      let d1 = modify_ctrl (λ tmp. bit_or (bit_or tmp ctrl_start) ctrl_irq_en) d in
      with_arg (finish (pos 0) (record ep { bar0 = d1 })) ep
  dispatch dma_stop ep =
      finish (pos 0) (record ep { bar0 = modify_ctrl (λ tmp. and_not tmp ctrl_start) ep.bar0 })
  dispatch (dma_free desc) ep = finish enotty ep
  dispatch other ep = finish enotty ep

  unfoldable pub ep_ioctl : Cmd → XilinxEpDev D → Run (ℤ × Copied × XilinxEpDev D)
  ep_ioctl cmd ep = do ep1 ← spin_lock ep; dispatch cmd ep1
