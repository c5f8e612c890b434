-- ===== src/PcieEp/Window.antt =====
-- `ep_mmap` of pcie_ep_driver/xilinx_pcie_ep.c, on a machine with pages of 4096 bytes.
use c_data_structures.Prelude.{
  ℕ, ◌+◌, ◌-◌, ◌/◌, ◌%◌, ◌^◌, Bool, Option, none, some, ltb, ◌==◌, if◌then◌else◌,
}
use c_data_structures.Prelude.Int.{ℤ, pos, negsuc}

abbrev pub bar_0_size : ℕ
bar_0_size = 0x10000

abbrev pub bar_1_size : ℕ
bar_1_size = 0x100000

abbrev pub page_size : ℕ
page_size = 2 ^ 12

-- The fields of `struct vm_area_struct` that the function reads.
pub record VmArea : Type 0 where
  pub vm_start : ℕ
  pub vm_end : ℕ
  pub vm_pgoff : ℕ

-- What `io_remap_pfn_range` is asked for.
pub record Remap : Type 0 where
  pub pfn : ℕ
  pub size : ℕ

abbrev pub einval : ℤ
einval = negsuc 21

abbrev pub eagain : ℤ
eagain = negsuc 10

-- `size`, an `unsigned long`.
unfoldable pub vma_size : VmArea → ℕ
vma_size vma = (vma.vm_end + 2 ^ 64 - vma.vm_start) % 2 ^ 64

-- The call of `io_remap_pfn_range`, which `remapped` answers, and the end of `ep_mmap`.
unfoldable pub remap : (remapped : Bool) → (pfn size : ℕ) → ℤ × Option Remap
remap remapped pfn size =
    if remapped then (pos 0, some (record { pfn = pfn; size = size })) else (eagain, none)

-- `ep_mmap`: what is returned and what is mapped. `resource_start` is `pci_resource_start`.
unfoldable pub ep_mmap : (resource_start : ℕ → ℕ) → (remapped : Bool) → VmArea → ℤ × Option Remap
unfolding vma_size remap
ep_mmap resource_start remapped vma =
    if vma.vm_pgoff == 0
    then (if ltb bar_0_size (vma_size vma)
        then (einval, none)
        else remap remapped (resource_start 0 / page_size) (vma_size vma))
    else if vma.vm_pgoff == 1
    then (if ltb bar_1_size (vma_size vma)
        then (einval, none)
        else remap remapped (resource_start 1 / page_size) (vma_size vma))
    else (einval, none)
