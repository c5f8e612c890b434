-- ===== src/PcieEp/Unwind.antt =====
-- What a probe of pcie_ep_driver/xilinx_pcie_ep.c holds when it ends, and what a removal leaves.
use c_data_structures.Prelude.{
  ℕ, ◌<◌, ◌≡◌, ◌≢◌, refl, ◌∙◌, sym, ap, Bool, true, false, ◌==◌, if◌then◌else◌, none, some, List,
  [], ◌∷◌, arith, Bool-cases, inl, inr, lt→ltb,
}
use c_data_structures.Prelude.Int.{ℤ, pos, is_zero}
use c_data_structures.Prelude.Run.{Run, ok, fault, out_of_fuel}
use c_data_structures.PcieEp.Registers.{Endpoint}
use c_data_structures.PcieEp.Resources.{
  DmaBuffer, coherent, fallback, null, DmaFree, dma_free_coherent, kfree, Held, holds_nothing,
  Minors, put_bit, write_bit,
}
use c_data_structures.PcieEp.Bind.{
  Bound, Outcome, err_free, err_disable, err_release, err_unmap, err_dma, err_irq, err_bit,
  err_cdev, free_buffer, free_dma, unmap, remove,
}

-- A DMA buffer that is not NULL is handed to `dma_free_coherent` once, and then to `kfree` once
-- exactly if the driver's test of the first call's value says so.
abbrev pub frees : (says : DmaBuffer → Bool) → DmaBuffer → List DmaFree
frees says null = []
frees says coherent =
    if says coherent
    then dma_free_coherent coherent ∷ kfree coherent ∷ []
    else dma_free_coherent coherent ∷ []
frees says fallback =
    if says fallback
    then dma_free_coherent fallback ∷ kfree fallback ∷ []
    else dma_free_coherent fallback ∷ []

-- Nothing is held, and the buffer was given back by these calls.
abbrev pub released : (says : DmaBuffer → Bool) → DmaBuffer → Held
released says dma = record holds_nothing { dma_frees = frees says dma }

-- `find_first_zero_bit` of the kernel: below the size it gives a bit that is zero.
abbrev pub FindsZero : (Minors → ℕ → ℕ) → Type 0
FindsZero find = (bits : Minors) (n : ℕ) → find bits n < n → bits (find bits n) ≡ false

-- What is held with the BARs mapped.
abbrev pub mapped : (bar1 : Bool) → DmaBuffer → (irq cdev node : Bool) → Held
mapped bar1 dma irq cdev node = record {
  device_struct = true;
  enabled = true;
  regions = true;
  bar0 = true;
  bar1 = bar1;
  dma = dma;
  dma_frees = [];
  irq = irq;
  cdev = cdev;
  node = node;
}

module _ {D : Type 0} (says : DmaBuffer → Bool) where
  -- A probe that fails holds nothing and leaves the minor numbers; one that succeeds has marked a
  -- minor number that was free and holds all but BAR1 and the DMA buffer, which may be NULL.
  abbrev pub Settled : (max_devices : ℕ) → Minors → Outcome D → Type 0
  Settled max_devices bits (ret, none, m) =
      (ret ≢ pos 0)
      × ((dma : DmaBuffer) × (m.held ≡ released says dma))
      × ((j : ℕ) → m.dev_minor j ≡ bits j)
  Settled max_devices bits (ret, some bound, m) =
      (ret ≡ pos 0)
      × (bound.minor < max_devices)
      × (bits bound.minor ≡ false)
      × (m.dev_minor ≡ put_bit bits bound.minor true)
      × ((bar1 : Bool) × (dma : DmaBuffer) × (m.held ≡ mapped bar1 dma true true true))

  abbrev pub Settles : (max_devices : ℕ) → Minors → Run (Outcome D) → Type 0
  Settles max_devices bits (ok outcome) = Settled max_devices bits outcome
  Settles max_devices bits fault = ⊥
  Settles max_devices bits out_of_fuel = ⊥

pub put_bit-twice :
    (bits : Minors) (m j : ℕ) → bits m ≡ false → put_bit (put_bit bits m true) m false j ≡ bits j
unfolding put_bit
put_bit-twice bits m j e = elim (Bool-cases (m == j)) [
  | inl same ↦ let here : m ≡ j = ground arith in rw same (sym e ∙ ap bits here)
  | inr other ↦ rw other refl
]

pub not_zero : (z : ℤ) → is_zero z ≡ false → z ≢ pos 0
not_zero z e h = ground arith

module _ {D : Type 0} (endpoint : Endpoint D) (says : DmaBuffer → Bool) where
  pub undo_dma :
      (bar1 : Bool) (dma : DmaBuffer) (ret : ℤ) (bits : Minors) (d : D)
      → err_dma endpoint says ret
          (record { held = mapped bar1 dma false false false; dev_minor = bits; bar0 = d })
        ≡ ok (ret, none, record { held = released says dma; dev_minor = bits; bar0 = d })
  unfolding err_dma free_dma free_buffer err_unmap unmap err_release err_disable err_free
  undo_dma bar1 null ret bits d = refl
  undo_dma bar1 coherent ret bits d = elim (Bool-cases (says coherent)) [
    | inl e ↦ rw e refl
    | inr e ↦ rw e refl
  ]
  undo_dma bar1 fallback ret bits d = elim (Bool-cases (says fallback)) [
    | inl e ↦ rw e refl
    | inr e ↦ rw e refl
  ]

  pub undo_irq :
      (bar1 : Bool) (dma : DmaBuffer) (ret : ℤ) (bits : Minors) (d : D)
      → err_irq endpoint says ret
          (record { held = mapped bar1 dma true false false; dev_minor = bits; bar0 = d })
        ≡ ok (ret, none, record { held = released says dma; dev_minor = bits; bar0 = d })
  unfolding err_irq
  undo_irq bar1 dma ret bits d = undo_dma bar1 dma ret bits d

  pub undo_bit :
      (bar1 : Bool) (dma : DmaBuffer) (minor : ℕ) (ret : ℤ) (bits : Minors) (d : D)
      → minor < 256
      → err_bit endpoint says minor ret
          (record { held = mapped bar1 dma true false false; dev_minor = bits; bar0 = d })
        ≡ ok (
          ret,
          none,
          record { held = released says dma; dev_minor = put_bit bits minor false; bar0 = d },
        )
  unfolding err_bit write_bit
  undo_bit bar1 dma minor ret bits d small =
      rw (lt→ltb minor 256 small) (undo_irq bar1 dma ret (put_bit bits minor false) d)

  pub undo_cdev :
      (bar1 : Bool) (dma : DmaBuffer) (minor : ℕ) (ret : ℤ) (bits : Minors) (d : D)
      → minor < 256
      → err_cdev endpoint says minor ret
          (record { held = mapped bar1 dma true true false; dev_minor = bits; bar0 = d })
        ≡ ok (
          ret,
          none,
          record { held = released says dma; dev_minor = put_bit bits minor false; bar0 = d },
        )
  unfolding err_cdev
  undo_cdev bar1 dma minor ret bits d small = undo_bit bar1 dma minor ret bits d small

  pub remove-lem :
      (bar1 : Bool) (dma : DmaBuffer) (bound : Bound) (bits : Minors) (d : D)
      → bound.minor < 256
      → remove endpoint says bound
          (record { held = mapped bar1 dma true true true; dev_minor = bits; bar0 = d })
        ≡ ok (record {
          held = released says dma;
          dev_minor = put_bit bits bound.minor false;
          bar0 = d;
        })
  unfolding remove write_bit free_dma free_buffer unmap
  remove-lem bar1 null bound bits d small = rw (lt→ltb bound.minor 256 small) refl
  remove-lem bar1 coherent bound bits d small = elim (Bool-cases (says coherent)) [
    | inl e ↦ rw (lt→ltb bound.minor 256 small, e) refl
    | inr e ↦ rw (lt→ltb bound.minor 256 small, e) refl
  ]
  remove-lem bar1 fallback bound bits d small = elim (Bool-cases (says fallback)) [
    | inl e ↦ rw (lt→ltb bound.minor 256 small, e) refl
    | inr e ↦ rw (lt→ltb bound.minor 256 small, e) refl
  ]
