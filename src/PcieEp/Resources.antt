-- ===== src/PcieEp/Resources.antt =====
-- What a bound device of pcie_ep_driver/xilinx_pcie_ep.c holds, from `xilinx_ep_probe` on. To take
-- what is held, or to give back what is not, is a fault.
use c_data_structures.Prelude.{ℕ, Bool, true, false, List, [], ◌==◌, ltb, if◌then◌else◌}
use c_data_structures.Prelude.Run.{Run, ok, fault}

-- The memory behind `dma_virt`: from `dma_alloc_coherent`, from `kzalloc`, or NULL.
pub data DmaBuffer : Type 0 where
  coherent : DmaBuffer
  fallback : DmaBuffer
  null : DmaBuffer

-- The calls that the driver makes to give that memory back. What they do to memory of another
-- allocator is not known here.
pub data DmaFree : Type 0 where
  dma_free_coherent kfree : DmaBuffer → DmaFree

pub record Held : Type 0 where
  pub device_struct : Bool
  pub enabled : Bool
  pub regions : Bool
  pub bar0 : Bool
  pub bar1 : Bool
  pub dma : DmaBuffer
  pub dma_frees : List DmaFree
  pub irq : Bool
  pub cdev : Bool
  pub node : Bool

abbrev pub holds_nothing : Held
holds_nothing = record {
  device_struct = false;
  enabled = false;
  regions = false;
  bar0 = false;
  bar1 = false;
  dma = null;
  dma_frees = [];
  irq = false;
  cdev = false;
  node = false;
}

-- A resource that is free is taken, one that is held is given back.
abbrev pub take : Bool → Held → Run Held
take false h = ok h
take true h = fault

abbrev pub give : Bool → Held → Run Held
give true h = ok h
give false h = fault

-- The bits of `dev_minor`: 256 of them.
abbrev pub Minors : Type 0
Minors = ℕ → Bool

unfoldable pub put_bit : Minors → (m : ℕ) → Bool → Minors
put_bit bits m b j = if m == j then b else bits j

-- `set_bit` and `clear_bit`, which look at no bound.
unfoldable pub write_bit : Minors → (m : ℕ) → Bool → Run Minors
write_bit bits m b = if ltb m 256 then ok (put_bit bits m b) else fault
