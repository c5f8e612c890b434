-- ===== src/PcieEp/Settle.antt =====
-- `xilinx_ep_probe` of pcie_ep_driver/xilinx_pcie_ep.c, from the last step to the first.
use c_data_structures.Prelude.{
  ℕ, ◌<◌, ◌≤◌, ◌≡◌, ◌≢◌, refl, ◌∙◌, ap, Bool, true, false, leb, some, arith, Bool-cases,
  Option-cases, inl, inr, lt→ltb,
}
use c_data_structures.Prelude.Int.{pos, is_zero}
use c_data_structures.PcieEp.Registers.{Endpoint}
use c_data_structures.PcieEp.Resources.{DmaBuffer, null, holds_nothing, Minors, put_bit, write_bit}
use c_data_structures.PcieEp.Bind.{
  enodev, enomem, Answers, err_free, err_disable, err_release, err_unmap, unmap, create_node,
  add_cdev, choose_minor, enable_interrupts, set_up_dma, map_bars, request_bars, enable, probe,
}
use c_data_structures.PcieEp.Unwind.{
  FindsZero, mapped, Settles, put_bit-twice, not_zero, undo_dma, undo_irq, undo_bit, undo_cdev,
}

module _ {D : Type 0} (endpoint : Endpoint D) (says : DmaBuffer → Bool) (a : Answers)
    (find : Minors → ℕ → ℕ) (max_devices : ℕ) (bits : Minors) (finds : FindsZero find)
    (room : max_devices ≤ 256) (node_error : a.device_create ≢ some (pos 0)) where
  create_node-Settles :
      (bar1 : Bool) (dma : DmaBuffer) (minor phys : ℕ) (d : D)
      → minor < max_devices
      → bits minor ≡ false
      → Settles says max_devices bits (
          create_node endpoint says a find max_devices minor phys (record {
            held = mapped bar1 dma true true false;
            dev_minor = put_bit bits minor true;
            bar0 = d;
          }))
  unfolding create_node
  create_node-Settles bar1 dma minor phys d small zero_bit = elim (Option-cases a.device_create) [
    | inl e ↦ rw e (refl, small, zero_bit, refl, (bar1, dma, refl))
    | inr (err, e) ↦
        rw (e, undo_cdev endpoint says bar1 dma minor err (put_bit bits minor true) d (omega arith))
          (λ z. node_error (e ∙ ap some z), (dma, refl), λ j. put_bit-twice bits minor j zero_bit)
  ]

  add_cdev-Settles :
      (bar1 : Bool) (dma : DmaBuffer) (minor phys : ℕ) (d : D)
      → minor < max_devices
      → bits minor ≡ false
      → Settles says max_devices bits (
          add_cdev endpoint says a find max_devices minor phys (record {
            held = mapped bar1 dma true false false;
            dev_minor = put_bit bits minor true;
            bar0 = d;
          }))
  unfolding add_cdev
  add_cdev-Settles bar1 dma minor phys d small zero_bit = elim (Bool-cases (is_zero a.cdev_add)) [
    | inl e ↦ rw e (create_node-Settles bar1 dma minor phys d small zero_bit)
    | inr e ↦
        rw
          (
            e,
            undo_bit endpoint says bar1 dma minor a.cdev_add (put_bit bits minor true) d
                (omega arith),
          )
          (not_zero a.cdev_add e, (dma, refl), λ j. put_bit-twice bits minor j zero_bit)
  ]

  choose_minor-Settles :
      (bar1 : Bool) (dma : DmaBuffer) (phys : ℕ) (d : D)
      → Settles says max_devices bits (
          choose_minor endpoint says a find max_devices phys
            (record { held = mapped bar1 dma true false false; dev_minor = bits; bar0 = d }))
  unfolding choose_minor write_bit
  choose_minor-Settles bar1 dma phys d =
      let minor = find bits max_devices in
      elim (Bool-cases (leb max_devices minor)) [
        | inl e ↦
            rw (e, undo_irq endpoint says bar1 dma enodev bits d)
              (not_zero enodev refl, (dma, refl), λ j. refl)
        | inr e ↦
            let small : minor < max_devices = ground arith in
            rw (e, lt→ltb minor 256 (omega arith))
              (add_cdev-Settles bar1 dma minor phys d small (finds bits max_devices small))
      ]

  enable_interrupts-Settles :
      (bar1 : Bool) (dma : DmaBuffer) (phys : ℕ) (d : D)
      → Settles says max_devices bits (
          enable_interrupts endpoint says a find max_devices phys
            (record { held = mapped bar1 dma false false false; dev_minor = bits; bar0 = d }))
  unfolding enable_interrupts
  enable_interrupts-Settles bar1 dma phys d = elim (Bool-cases (is_zero a.request_irq)) [
    | inl e ↦ rw e (choose_minor-Settles bar1 dma phys _)
    | inr e ↦
        rw (e, undo_dma endpoint says bar1 dma a.request_irq bits d)
          (not_zero a.request_irq e, (dma, refl), λ j. refl)
  ]

  set_up_dma-Settles :
      (bar1 : Bool) (d : D)
      → Settles says max_devices bits (
          set_up_dma endpoint says a find max_devices
            (record { held = mapped bar1 null false false false; dev_minor = bits; bar0 = d }))
  unfolding set_up_dma err_unmap unmap err_release err_disable err_free
  set_up_dma-Settles bar1 d = elim (Bool-cases (is_zero a.set_mask)) [
    | inl e ↦ rw e (enable_interrupts-Settles bar1 _ _ d)
    | inr e ↦ rw e (not_zero a.set_mask e, (null, refl), λ j. refl)
  ]

  map_bars-Settles :
      (d : D)
      → Settles says max_devices bits (
          map_bars endpoint says a find max_devices (record {
            held = record holds_nothing { device_struct = true; enabled = true; regions = true };
            dev_minor = bits;
            bar0 = d;
          }))
  unfolding map_bars err_release err_disable err_free
  map_bars-Settles d = elim (Bool-cases a.iomap_bar0) [
    | inl e ↦ simp e (set_up_dma-Settles _ d)
    | inr e ↦ simp e (not_zero enomem refl, (null, refl), λ j. refl)
  ]

  request_bars-Settles :
      (d : D)
      → Settles says max_devices bits (
          request_bars endpoint says a find max_devices (record {
            held = record holds_nothing { device_struct = true; enabled = true };
            dev_minor = bits;
            bar0 = d;
          }))
  unfolding request_bars err_disable err_free
  request_bars-Settles d = elim (Bool-cases (is_zero a.request_regions)) [
    | inl e ↦ rw e (map_bars-Settles d)
    | inr e ↦ rw e (not_zero a.request_regions e, (null, refl), λ j. refl)
  ]

  enable-Settles :
      (d : D)
      → Settles says max_devices bits (
          enable endpoint says a find max_devices (record {
            held = record holds_nothing { device_struct = true };
            dev_minor = bits;
            bar0 = d;
          }))
  unfolding enable err_free
  enable-Settles d = elim (Bool-cases (is_zero a.enable_device)) [
    | inl e ↦ rw e (request_bars-Settles d)
    | inr e ↦ rw e (not_zero a.enable_device e, (null, refl), λ j. refl)
  ]

  -- Where `find_first_zero_bit` gives a zero bit, at most 256 devices are allowed and an error
  -- of `device_create` is not 0: `xilinx_ep_probe` on a device that holds nothing ends without
  -- a fault for all other answers of the kernel. It returns an error, has left every minor
  -- number and holds nothing, a DMA buffer that is not NULL having been handed to
  -- `dma_free_coherent` once, and once to `kfree` exactly if the test of the first call's value
  -- says so; or it returns 0, has marked one minor number below `max_devices` that was free,
  -- and holds all that it takes, where only BAR1 and the DMA buffer may be NULL.
  pub probe-Settles :
      (d : D)
      → Settles says max_devices bits (
          probe endpoint says a find max_devices
            (record { held = holds_nothing; dev_minor = bits; bar0 = d }))
  unfolding probe
  probe-Settles d = elim (Bool-cases a.kzalloc_ep) [
    | inl e ↦ simp e (enable-Settles d)
    | inr e ↦ simp e (not_zero enomem refl, (null, refl), λ j. refl)
  ]
