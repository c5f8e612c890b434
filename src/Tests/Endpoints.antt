-- ===== src/Tests/Endpoints.antt =====
-- Concrete endpoints and drivers of the PCIe endpoint.
use c_data_structures.Prelude.{
  ℕ, zero, suc, ◌+◌, ◌<◌, ◌≡◌, refl, Bool, true, false, ◌==◌, if◌then◌else◌, none, some, [], ◌∷◌,
  arith,
}
use c_data_structures.Prelude.Int.{pos, negsuc}
use c_data_structures.Prelude.Run.{ok}
use c_data_structures.Prelude.Bits.{bit}
use c_data_structures.PcieEp.Registers.{
  Endpoint, XilinxEpDev, irq_handled, reg_ctrl, reg_ring_base, reg_ring_base_hi, reg_int_enable,
  reg_int_status, ep_read64, ep_write32, irq_handler,
}
use c_data_structures.PcieEp.Control.{Cmd, EpDmaDesc, UserMemory, nothing, ep_ioctl}
use c_data_structures.PcieEp.Window.{VmArea, ep_mmap}
use c_data_structures.PcieEp.Resources.{
  DmaBuffer, coherent, Minors, holds_nothing, put_bit, write_bit,
}
use c_data_structures.PcieEp.Bind.{
  Answers, create_node, add_cdev, choose_minor, enable_interrupts, dma_buffer, set_up_dma, map_bars,
  request_bars, enable, probe, remove,
}
use c_data_structures.PcieEp.Settle.{probe-Settles}
use c_data_structures.PcieEp.Unwind.{FindsZero, Settles, mapped, released}
use c_data_structures.PcieEp.Minors.{
  Driver, IsDriver, Reaches, here, next, probed, removable, Reaches-IsDriver,
}
use c_data_structures.PcieEp.Engine.{
  Beside, ring_base, ring_base_hi, ring_size, int_enable, KeepsCtrl, IsEngine, Serves,
}
use c_data_structures.PcieEp.Switch.{ep_ioctl-Serves}
use c_data_structures.PcieEp.Mapping.{Within, ep_mmap-Within}
use c_data_structures.PcieEp.Interrupts.{ClearsOnWrite, irq_handler-acknowledges}
use c_data_structures.PcieEp.Ring.{KeepsRing, dma_start-address}

-- An endpoint whose registers all keep what is written to them.
abbrev Registers : Type 0
Registers = ℕ → ℕ

abbrev plain : Endpoint Registers
plain = record {
  ioread32 = (λ offset d. (d offset, d));
  iowrite32 = (λ val offset d j. if offset == j then val else d j);
}

abbrev idle : XilinxEpDev Registers
idle = record { bar0 = (λ _. 0); locked = false; dma_phys = 4096; refcount = 1 }

abbrev readable : UserMemory
readable = record { resident = true; readable = true; writable = true }

abbrev swapped_out : UserMemory
swapped_out = record { resident = false; readable = true; writable = true }

abbrev transfer : EpDmaDesc
transfer = record { user_addr = 0; dev_addr = 0x123456789; size = 64; flags = 0 }

plain-Beside :
    (val : ℕ) {offset : ℕ} (d : Registers)
    → Beside offset
    → plain.iowrite32 val offset d reg_ctrl ≡ d reg_ctrl
plain-Beside val d ring_base = refl
plain-Beside val d ring_base_hi = refl
plain-Beside val d ring_size = refl
plain-Beside val d int_enable = refl

plain-KeepsCtrl : KeepsCtrl plain (λ d. d reg_ctrl)
plain-KeepsCtrl = record {
  reads = (λ d. refl);
  read_keeps = (λ offset d. refl);
  write_keeps = (λ val d beside. plain-Beside val d beside);
  writes = (λ val d small no_reset. refl);
}

plain-KeepsRing : KeepsRing plain (λ d. d reg_ring_base) (λ d. d reg_ring_base_hi)
plain-KeepsRing = record {
  reads_lo = (λ d. refl);
  reads_hi = (λ d. refl);
  read_keeps = (λ d. refl);
  writes_lo = (λ val d small. refl);
  writes_hi = (λ val d small. refl);
  write_keeps = (λ val d. refl);
  ctrl_read = (λ d. (refl, refl));
  ctrl_write = (λ val d. (refl, refl));
}

idle-IsEngine : IsEngine (λ d. d reg_ctrl) idle false
unfolding bit
idle-IsEngine = record { free = refl; no_reset = refl; start_bit = refl }

ep_ioctl-Serves_example : Serves (λ d. d reg_ctrl) true (ep_ioctl plain readable Cmd.start idle)
ep_ioctl-Serves_example =
    ep_ioctl-Serves plain (λ d. d reg_ctrl) plain-KeepsCtrl readable Cmd.start idle false refl
      idle-IsEngine

dma_start-address_example :
    (ep : XilinxEpDev Registers) × (ep_ioctl plain readable (Cmd.dma_start transfer) idle
      ≡ ok (pos 0, nothing, ep))
    × ((ep_read64 plain reg_ring_base reg_ring_base_hi ep.bar0).0 ≡ 0x123456789)
dma_start-address_example =
    dma_start-address plain (λ d. d reg_ring_base) (λ d. d reg_ring_base_hi) plain-KeepsRing
      readable transfer idle refl refl (omega arith) refl

-- An endpoint with one interrupt, at bit 0.
abbrev bell : Endpoint Bool
bell = record {
  ioread32 = (λ offset d. (if d then 1 else 0, d));
  iowrite32 = (λ val offset d. if bit val 0 == 0 then d else false);
}

zero_bits : (k : ℕ) → bit 0 k ≡ 0
unfolding bit
zero_bits zero = refl
zero_bits (suc k) = zero_bits k

bell-clears :
    (val : ℕ) (d : Bool) (k : ℕ)
    → bit (if (if bit val 0 == 0 then d else false) then 1 else 0) k
      ≡ (if bit val k == 0 then bit (if d then 1 else 0) k else 0)
unfolding bit
bell-clears val true zero = ground arith
bell-clears val false zero = ground arith
bell-clears val true (suc k) = ground (arith, zero_bits k)
bell-clears val false (suc k) = ground (arith, zero_bits k)

bell-ClearsOnWrite : ClearsOnWrite bell (λ d. if d then 1 else 0)
bell-ClearsOnWrite = record {
  in_word = (λ d. ground arith);
  reads = (λ d. refl);
  clears = (λ val d k. bell-clears val d k);
}

abbrev ringing : XilinxEpDev Bool
ringing = record { bar0 = true; locked = false; dma_phys = 0; refcount = 0 }

irq_handler-acknowledges_example :
    (ep : XilinxEpDev Bool) × (irq_handler bell ringing ≡ ok (irq_handled, ep))
    × (ep.locked ≡ false)
    × ((k : ℕ) → bit (if ep.bar0 then 1 else 0) k ≡ (if bit 1 k == 0 then bit 1 k else 0))
irq_handler-acknowledges_example =
    irq_handler-acknowledges bell (λ d. if d then 1 else 0) bell-ClearsOnWrite ringing refl
      (omega arith)

-- A machine whose BAR0 lies at 64 MB and that has no BAR1.
abbrev starts : ℕ → ℕ
starts bar = if bar == 0 then 0x4000000 else 0

abbrev one_page : VmArea
one_page = record { vm_start = 0x7000; vm_end = 0x8000; vm_pgoff = 1 }

ep_mmap-Within_example : Within starts one_page (ep_mmap starts true one_page)
ep_mmap-Within_example = ep_mmap-Within starts true one_page

-- The search for a bit that is zero.
scan : (bits : Minors) (left i : ℕ) → ℕ
scan bits zero i = i
scan bits (suc left) i = let rest = scan bits left (i + 1) in if bits i then rest else i

abbrev first_zero : Minors → ℕ → ℕ
first_zero bits n = scan bits n 0

scan-zero :
    (bits : Minors) (left i : ℕ) → scan bits left i < i + left → bits (scan bits left i) ≡ false
unfolding scan
scan-zero bits zero i h = absurd (omega arith)
scan-zero bits (suc left) i h = ground (arith, scan-zero bits left (i + 1))

first_zero-FindsZero : FindsZero first_zero
first_zero-FindsZero bits n h = scan-zero bits n 0 (omega arith)

-- A test that never holds.
abbrev never : DmaBuffer → Bool
never buffer = false

abbrev willing : Answers
willing = record {
  kzalloc_ep = true;
  enable_device = pos 0;
  request_regions = pos 0;
  iomap_bar0 = true;
  resource_len_bar1 = 0;
  iomap_bar1 = false;
  set_mask = pos 0;
  alloc_coherent = some 4096;
  kzalloc_dma = true;
  virt_to_phys = 0;
  request_irq = pos 0;
  cdev_add = pos 0;
  device_create = none;
}

-- The last call but one is refused.
abbrev no_cdev : Answers
no_cdev = record willing { cdev_add = negsuc 11 }

abbrev no_minors : Minors
no_minors m = false

probe-Settles_example : Settles never 4 no_minors (
    probe plain never no_cdev first_zero 4
      (record { held = holds_nothing; dev_minor = no_minors; bar0 = λ _. 0 }))
probe-Settles_example =
    probe-Settles plain never no_cdev first_zero 4 no_minors first_zero-FindsZero (omega arith)
      (λ e. cc) (λ _. 0)

abbrev empty_driver : Driver
empty_driver = record { dev_minor = no_minors; live = [] }

empty-IsDriver : IsDriver 4 empty_driver
empty-IsDriver = record { marks = (λ m. refl); holding = (λ i bound held e. ground arith) }

abbrev one_device : Driver
one_device = record {
  dev_minor = put_bit no_minors 0 true;
  live = (record { minor = 0; dma_phys = 4096 }, mapped false coherent true true true) ∷ [];
}

one_device-reached : Reaches plain never first_zero 4 empty_driver one_device
unfolding probe enable request_bars map_bars set_up_dma dma_buffer enable_interrupts choose_minor
    add_cdev create_node write_bit put_bit ep_write32 scan
one_device-reached = next here (
    probed willing (λ _. 0) (pos 0) (some (record { minor = 0; dma_phys = 4096 }))
      (record {
        held = mapped false coherent true true true;
        dev_minor = put_bit no_minors 0 true;
        bar0 =
            plain.iowrite32 7 reg_int_enable (plain.iowrite32 0xFFFFFFFF reg_int_status (λ _. 0));
      })
      (λ e. cc) refl refl)

Reaches-IsDriver_example : IsDriver 4 one_device
Reaches-IsDriver_example =
    Reaches-IsDriver plain never first_zero 4 first_zero-FindsZero (omega arith) empty-IsDriver
      one_device-reached

removable_example :
    remove plain never
      (record { minor = 0; dma_phys = 4096 })
      (record {
        held = mapped false coherent true true true;
        dev_minor = one_device.dev_minor;
        bar0 = λ _. 0;
      })
    ≡ ok (record {
      held = released never coherent;
      dev_minor = put_bit one_device.dev_minor 0 false;
      bar0 = λ _. 0;
    })
removable_example =
    removable plain never first_zero 4 first_zero-FindsZero (omega arith) one_device 0
      (record { minor = 0; dma_phys = 4096 }) (mapped false coherent true true true) (λ _. 0)
      (Reaches-IsDriver plain never first_zero 4 first_zero-FindsZero (omega arith) empty-IsDriver
        one_device-reached)
      refl
