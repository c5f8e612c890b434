-- ===== src/PcieEp/Load.antt =====
-- Loading and unloading the module of pcie_ep_driver/xilinx_pcie_ep.c.
use c_data_structures.Prelude.{
  ◌≡◌, ◌≢◌, refl, ◌⊎◌, ap, true, false, Option, none, some, Bool-cases, inl, inr, arith,
}
use c_data_structures.Prelude.Int.{ℤ, pos, is_zero}
use c_data_structures.Prelude.Run.{Run, ok, fault, out_of_fuel}
use c_data_structures.PcieEp.Module.{
  Registered, hold, drop, err_unreg, err_class, register_driver, create_class, ep_init, ep_exit,
}

abbrev pub unloaded : Registered
unloaded = record { region = false; class = false; driver = false }

abbrev pub loaded : Registered
loaded = record { region = true; class = true; driver = true }

-- The end of `ep_init`: an error with nothing held, or success, after which `ep_exit` gives all back.
abbrev pub Loads : Run (ℤ × Registered) → Type 0
Loads (ok (ret, r)) = ((ret ≢ pos 0) × (r ≡ unloaded)) ⊎ ((ret ≡ pos 0) × (ep_exit r ≡ ok unloaded))
Loads fault = ⊥
Loads out_of_fuel = ⊥

not_zero : (z : ℤ) → is_zero z ≡ false → z ≢ pos 0
not_zero z e h = ground arith

register_driver-Loads :
    (registered : ℤ)
    → Loads (register_driver registered (record { region = true; class = true; driver = false }))
unfolding register_driver err_class err_unreg hold drop ep_exit
register_driver-Loads registered = elim (Bool-cases (is_zero registered)) [
  | inl e ↦ rw e (inr (refl, refl))
  | inr e ↦ rw e (inl (not_zero registered e, refl))
]

create_class-Loads :
    (class_error : Option ℤ) (registered : ℤ)
    → class_error ≢ some (pos 0)
    → Loads (
        create_class class_error registered
          (record { region = true; class = false; driver = false }))
unfolding create_class err_unreg hold drop
create_class-Loads none registered error = register_driver-Loads registered
create_class-Loads (some err) registered error = inl (λ e. error (ap some e), refl)

-- `xilinx_ep_init` with nothing held, where the error of `class_create` is not 0, returns: either
-- an error with nothing held, or 0, and then `xilinx_ep_exit` gives back all that is held.
ep_init-Loads :
    (region : ℤ) (class_error : Option ℤ) (registered : ℤ)
    → class_error ≢ some (pos 0)
    → Loads (ep_init region class_error registered unloaded)
unfolding ep_init hold
ep_init-Loads region class_error registered error = elim (Bool-cases (is_zero region)) [
  | inl e ↦ rw e (create_class-Loads class_error registered error)
  | inr e ↦ rw e (inl (not_zero region e, refl))
]
