-- ===== src/PcieEp/Bind.antt =====
-- `xilinx_ep_probe` and `xilinx_ep_remove` of pcie_ep_driver/xilinx_pcie_ep.c. The functions of the
-- kernel are answered by parameters; what the device takes and gives back is in `Held`.
use c_data_structures.Prelude.{
  ℕ, Bool, true, false, ltb, leb, if◌then◌else◌, Option, none, some, [], ◌∷◌, ◌++◌,
}
use c_data_structures.Prelude.Int.{ℤ, pos, negsuc, is_zero}
use c_data_structures.Prelude.Run.{Run, ok, ◌>>=◌}
use c_data_structures.PcieEp.Registers.{Endpoint, reg_int_enable, reg_int_status, ep_write32}
use c_data_structures.PcieEp.Resources.{
  DmaBuffer, coherent, fallback, null, dma_free_coherent, kfree, Held, Minors, take, give,
  write_bit,
}

abbrev pub enomem : ℤ
enomem = negsuc 11

abbrev pub enodev : ℤ
enodev = negsuc 18

-- What the kernel answers to one `xilinx_ep_probe`.
pub record Answers : Type 0 where
  pub kzalloc_ep : Bool
  pub enable_device : ℤ
  pub request_regions : ℤ
  pub iomap_bar0 : Bool
  pub resource_len_bar1 : ℕ
  pub iomap_bar1 : Bool
  pub set_mask : ℤ
  -- The bus address of the buffer, if there is one.
  pub alloc_coherent : Option ℕ
  pub kzalloc_dma : Bool
  -- Of the buffer from `kzalloc`, or of NULL.
  pub virt_to_phys : ℕ
  pub request_irq : ℤ
  pub cdev_add : ℤ
  -- `IS_ERR` and `PTR_ERR`.
  pub device_create : Option ℤ

-- The state that the probe of one device works on: `dev_minor` belongs to the module.
pub record Machine (D : Type 0) : Type 0 where
  pub held : Held
  pub dev_minor : Minors
  pub bar0 : D

-- What a successful probe leaves in `struct xilinx_ep_dev`.
pub record Bound : Type 0 where
  pub minor : ℕ
  pub dma_phys : ℕ

abbrev pub Outcome : Type 0 → Type 0
Outcome D = ℤ × Option Bound × Machine D

-- `says` is the value of `dma_free_coherent` that the driver tests before it calls `kfree`. In Linux
-- that function has no value, so nothing is assumed of `says`.
module _ {D : Type 0} (endpoint : Endpoint D) (says : DmaBuffer → Bool) where
  unfoldable pub free_buffer : DmaBuffer → Held → Held
  free_buffer buffer h = record h {
    dma = null;
    dma_frees =
        h.dma_frees ++ (dma_free_coherent buffer ∷ (if says buffer then kfree buffer ∷ [] else []));
  }

  unfoldable pub free_dma : DmaBuffer → Held → Run Held
  free_dma null h = ok h
  free_dma coherent h = ok (free_buffer coherent h)
  free_dma fallback h = ok (free_buffer fallback h)

  -- `pci_iounmap` of both BARs.
  unfoldable pub unmap : Held → Run Held
  unmap h = do h1 ← give h.bar0 (record h { bar0 = false }); ok (record h1 { bar1 = false })

  -- The labels of `xilinx_ep_probe`, from the last to the first.
  unfoldable pub err_free : ℤ → Machine D → Run (Outcome D)
  err_free ret m = do
    h ← give m.held.device_struct (record m.held { device_struct = false })
    ok (ret, none, record m { held = h })

  unfoldable pub err_disable : ℤ → Machine D → Run (Outcome D)
  err_disable ret m = do
    h ← give m.held.enabled (record m.held { enabled = false })
    err_free ret (record m { held = h })

  unfoldable pub err_release : ℤ → Machine D → Run (Outcome D)
  err_release ret m = do
    h ← give m.held.regions (record m.held { regions = false })
    err_disable ret (record m { held = h })

  unfoldable pub err_unmap : ℤ → Machine D → Run (Outcome D)
  err_unmap ret m = do h ← unmap m.held; err_release ret (record m { held = h })

  unfoldable pub err_dma : ℤ → Machine D → Run (Outcome D)
  err_dma ret m = do h ← free_dma m.held.dma m.held; err_unmap ret (record m { held = h })

  unfoldable pub err_irq : ℤ → Machine D → Run (Outcome D)
  err_irq ret m = do
    h ← give m.held.irq (record m.held { irq = false })
    err_dma ret (record m { held = h })

  unfoldable pub err_bit : (minor : ℕ) → ℤ → Machine D → Run (Outcome D)
  err_bit minor ret m = do
    bits ← write_bit m.dev_minor minor false
    err_irq ret (record m { dev_minor = bits })

  unfoldable pub err_cdev : (minor : ℕ) → ℤ → Machine D → Run (Outcome D)
  err_cdev minor ret m = do
    h ← give m.held.cdev (record m.held { cdev = false })
    err_bit minor ret (record m { held = h })

  module _ (a : Answers) (find_first_zero_bit : Minors → ℕ → ℕ) (max_devices : ℕ) where
    -- From `device_create` on.
    unfoldable pub create_node : (minor dma_phys : ℕ) → Machine D → Run (Outcome D)
    create_node minor dma_phys m = elim a.device_create [
      | some err ↦ err_cdev minor err m
      | none ↦ do
        h ← take m.held.node (record m.held { node = true })
        ok (pos 0, some (record { minor = minor; dma_phys = dma_phys }), record m { held = h })
    ]

    -- From `cdev_init` on.
    unfoldable pub add_cdev : (minor dma_phys : ℕ) → Machine D → Run (Outcome D)
    add_cdev minor dma_phys m =
        if is_zero a.cdev_add
        then (take m.held.cdev (record m.held { cdev = true }) >>= λ h.
            create_node minor dma_phys (record m { held = h }))
        else err_bit minor a.cdev_add m

    -- From `find_first_zero_bit` on.
    unfoldable pub choose_minor : (dma_phys : ℕ) → Machine D → Run (Outcome D)
    choose_minor dma_phys m =
        let minor = find_first_zero_bit m.dev_minor max_devices in
        if leb max_devices minor
        then err_irq enodev m
        else (write_bit m.dev_minor minor true >>= λ bits.
            add_cdev minor dma_phys (record m { dev_minor = bits }))

    -- From `request_irq` on.
    unfoldable pub enable_interrupts : (dma_phys : ℕ) → Machine D → Run (Outcome D)
    enable_interrupts dma_phys m =
        let cleared = ep_write32 endpoint reg_int_status 0xFFFFFFFF m.bar0 in
        if is_zero a.request_irq
        then (take m.held.irq (record m.held { irq = true }) >>= λ h.
            choose_minor dma_phys
              (record m { held = h; bar0 = ep_write32 endpoint reg_int_enable 7 cleared }))
        else err_dma a.request_irq m

    -- The buffer for DMA and its bus address.
    unfoldable pub dma_buffer : DmaBuffer × ℕ
    dma_buffer = elim a.alloc_coherent [
      | some phys ↦ (coherent, phys)
      | none ↦ (if a.kzalloc_dma then fallback else null, a.virt_to_phys)
    ]

    -- From `dma_set_coherent_mask` on.
    unfoldable pub set_up_dma : Machine D → Run (Outcome D)
    set_up_dma m =
        if is_zero a.set_mask
        then enable_interrupts dma_buffer.1
            (record m { held = record m.held { dma = dma_buffer.0 } })
        else err_unmap a.set_mask m

    -- From the mapping of BAR0 on; BAR1 need not be there.
    unfoldable pub map_bars : Machine D → Run (Outcome D)
    map_bars m =
        let has_bar1 = if ltb 0 a.resource_len_bar1 then a.iomap_bar1 else false in
        if a.iomap_bar0
        then (take m.held.bar0 (record m.held { bar0 = true; bar1 = has_bar1 }) >>= λ h.
            set_up_dma (record m { held = h }))
        else err_release enomem m

    -- From `pci_request_regions` on.
    unfoldable pub request_bars : Machine D → Run (Outcome D)
    request_bars m =
        if is_zero a.request_regions
        then (take m.held.regions (record m.held { regions = true }) >>= λ h.
            map_bars (record m { held = h }))
        else err_disable a.request_regions m

    -- From `pci_enable_device` on.
    unfoldable pub enable : Machine D → Run (Outcome D)
    enable m =
        if is_zero a.enable_device
        then (take m.held.enabled (record m.held { enabled = true }) >>= λ h.
            request_bars (record m { held = h }))
        else err_free a.enable_device m

    -- `xilinx_ep_probe`: what it returns, the device that it binds, if it does, and the state.
    unfoldable pub probe : Machine D → Run (Outcome D)
    probe m =
        if a.kzalloc_ep
        then (take m.held.device_struct (record m.held { device_struct = true }) >>= λ h.
            enable (record m { held = h }))
        else ok (enomem, none, m)

  -- `xilinx_ep_remove`.
  unfoldable pub remove : Bound → Machine D → Run (Machine D)
  remove bound m = do
    h1 ← give m.held.node (record m.held { node = false })
    h2 ← give h1.cdev (record h1 { cdev = false })
    bits ← write_bit m.dev_minor bound.minor false
    h3 ← give h2.irq (record h2 { irq = false })
    h4 ← free_dma h3.dma h3
    h5 ← unmap h4
    h6 ← give h5.regions (record h5 { regions = false })
    h7 ← give h6.enabled (record h6 { enabled = false })
    h8 ← give h7.device_struct (record h7 { device_struct = false })
    ok (record m { held = h8; dev_minor = bits })
