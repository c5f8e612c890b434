-- ===== src/PcieEp/Mapping.antt =====
-- What `ep_mmap` of pcie_ep_driver/xilinx_pcie_ep.c maps.
use c_data_structures.Prelude.{
  ℕ, ◌+◌, ◌*◌, ◌/◌, ◌≤◌, ◌≡◌, refl, ap, Bool, true, false, ◌==◌, ltb, if◌then◌else◌, Option, none,
  some, arith, if_intro, ◌⊎◌, inl, inr,
}
use c_data_structures.Prelude.Int.{ℤ, pos}
use c_data_structures.PcieEp.Window.{
  VmArea, Remap, bar_0_size, bar_1_size, page_size, einval, eagain, vma_size, remap, ep_mmap,
}

-- A mapping is of all the pages of the caller, and lies in the most that the driver takes its BAR
-- to be.
abbrev pub Within : (resource_start : ℕ → ℕ) → VmArea → ℤ × Option Remap → Type 0
Within resource_start vma (ret, none) = (ret ≡ einval) ⊎ (ret ≡ eagain)
Within resource_start vma (ret, some r) =
    (ret ≡ pos 0)
    × (vma.vm_pgoff ≤ 1)
    × (r.size ≡ vma_size vma)
    × (r.pfn * page_size + r.size
        ≤ resource_start vma.vm_pgoff + (if vma.vm_pgoff == 0 then bar_0_size else bar_1_size))

remap-Within :
    (resource_start : ℕ → ℕ) (remapped : Bool) (vma : VmArea) (bar most : ℕ)
    → vma.vm_pgoff ≡ bar
    → bar ≤ 1
    → most ≡ (if bar == 0 then bar_0_size else bar_1_size)
    → vma_size vma ≤ most
    → Within resource_start vma (remap remapped (resource_start bar / page_size) (vma_size vma))
unfolding remap
remap-Within resource_start false vma bar most at low size fits = inr refl
remap-Within resource_start true vma bar most at low size fits =
    let here = ap (λ k. resource_start k + (if k == 0 then bar_0_size else bar_1_size)) at in
    (refl, omega (arith, at), refl, omega (arith, here, size))

-- `ep_mmap` returns -EINVAL or -EAGAIN and maps nothing, or returns 0 and maps as many bytes as
-- the caller asked for, below the start of BAR0 plus 64 KB at page offset 0, or of BAR1 plus 1
-- MB at page offset 1, and at no other offset.
pub ep_mmap-Within :
    (resource_start : ℕ → ℕ) (remapped : Bool) (vma : VmArea)
    → Within resource_start vma (ep_mmap resource_start remapped vma)
unfolding ep_mmap
ep_mmap-Within resource_start remapped vma =
    if_intro (Within resource_start vma) (vma.vm_pgoff == 0) _ _
      (λ zero_off.
        if_intro (Within resource_start vma) (ltb bar_0_size (vma_size vma)) _ _ (λ _. inl refl)
          (λ fits.
            remap-Within resource_start remapped vma 0 bar_0_size (ground arith) (omega arith) refl
              (ground arith)))
      (λ _.
        if_intro (Within resource_start vma) (vma.vm_pgoff == 1) _ _
          (λ one_off.
            if_intro (Within resource_start vma) (ltb bar_1_size (vma_size vma)) _ _ (λ _. inl refl)
              (λ fits.
                remap-Within resource_start remapped vma 1 bar_1_size (ground arith) (omega arith)
                  refl (ground arith)))
          (λ _. inl refl))
