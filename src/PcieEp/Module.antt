-- ===== src/PcieEp/Module.antt =====
-- `xilinx_ep_init` and `xilinx_ep_exit` of pcie_ep_driver/xilinx_pcie_ep.c.
use c_data_structures.Prelude.{Bool, true, false, Option, none, some, if◌then◌else◌}
use c_data_structures.Prelude.Int.{ℤ, pos, is_zero}
use c_data_structures.Prelude.Run.{Run, ok, fault, ◌>>=◌}

-- What the module holds: the device numbers, the class, the registration of the PCI driver.
pub record Registered : Type 0 where
  pub region : Bool
  pub class : Bool
  pub driver : Bool

unfoldable pub hold : Bool → Registered → Run Registered
hold false r = ok r
hold true r = fault

unfoldable pub drop : Bool → Registered → Run Registered
drop true r = ok r
drop false r = fault

-- The label `err_unreg`.
unfoldable pub err_unreg : ℤ → Registered → Run (ℤ × Registered)
err_unreg ret r = do r1 ← drop r.region (record r { region = false }); ok (ret, r1)

-- The label `err_class`.
unfoldable pub err_class : ℤ → Registered → Run (ℤ × Registered)
err_class ret r = do r1 ← drop r.class (record r { class = false }); err_unreg ret r1

-- From `pci_register_driver`, which returns `registered`, on.
unfoldable pub register_driver : (registered : ℤ) → Registered → Run (ℤ × Registered)
register_driver registered r =
    if is_zero registered
    then (hold r.driver (record r { driver = true }) >>= λ r1. ok (pos 0, r1))
    else err_class registered r

-- From `class_create`, whose error is `class_error` if there is one, on.
unfoldable pub create_class :
    (class_error : Option ℤ) → (registered : ℤ) → Registered → Run (ℤ × Registered)
create_class none registered r =
    hold r.class (record r { class = true }) >>= λ r1. register_driver registered r1
create_class (some err) registered r = err_unreg err r

-- `xilinx_ep_init`: `region` is what `alloc_chrdev_region` returns.
unfoldable pub ep_init :
    (region : ℤ) → (class_error : Option ℤ) → (registered : ℤ) → Registered → Run (ℤ × Registered)
ep_init region class_error registered r =
    if is_zero region
    then (hold r.region (record r { region = true }) >>= λ r1.
        create_class class_error registered r1)
    else ok (region, r)

-- `xilinx_ep_exit`.
unfoldable pub ep_exit : Registered → Run Registered
ep_exit r = do
  r1 ← drop r.driver (record r { driver = false })
  r2 ← drop r1.class (record r1 { class = false })
  drop r2.region (record r2 { region = false })
