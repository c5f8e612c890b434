-- ===== src/PcieEp/Minors.antt =====
-- The devices that pcie_ep_driver/xilinx_pcie_ep.c has bound, as they come and go, and the minor
-- numbers they share.
use mathlib.Core.Path.{subst}
use c_data_structures.Prelude.{
  ℕ, zero, suc, ◌+◌, ◌<◌, ◌≤◌, ◌≡◌, ◌≢◌, ◌∙◌, sym, ap, Bool, true, false, ◌==◌, if◌then◌else◌,
  Option, none, some, List, [], ◌∷◌, get_elem?, remove_at, elem-remove_at, arith, eq_of_some,
  Bool-cases, inl, inr,
}
use c_data_structures.Prelude.Int.{ℤ, pos}
use c_data_structures.Prelude.Run.{ok, eq_of_ok}
use c_data_structures.PcieEp.Registers.{Endpoint}
use c_data_structures.PcieEp.Resources.{DmaBuffer, Held, holds_nothing, Minors, put_bit}
use c_data_structures.PcieEp.Bind.{Answers, Machine, Bound, probe, remove}
use c_data_structures.PcieEp.Settle.{probe-Settles}
use c_data_structures.PcieEp.Unwind.{FindsZero, mapped, released, Settled, Settles, remove-lem}

-- `dev_minor`, and each bound device with what it holds.
pub record Driver : Type 0 where
  pub dev_minor : Minors
  pub live : List (Bound × Held)

-- How many of the devices have the minor number `m`.
abbrev pub uses : List (Bound × Held) → ℕ → ℕ
uses [] m = 0
uses ((bound, held) ∷ devices) m = (if bound.minor == m then 1 else 0) + uses devices m

-- A device that holds all but BAR1 and the DMA buffer, which may be NULL, with a minor number in range.
abbrev pub IsBound : ℕ → Bound × Held → Type 0
IsBound max_devices (bound, held) =
    (bound.minor < max_devices)
    × ((bar1 : Bool) × (dma : DmaBuffer) × (held ≡ mapped bar1 dma true true true))

-- Each minor number is marked exactly if a device has it, and then one device has it; each device
-- is bound.
pub record IsDriver (max_devices : ℕ) (s : Driver) : Type 0 where
  pub marks : (m : ℕ) → uses s.live m ≡ (if s.dev_minor m then 1 else 0)
  pub holding :
      (i : ℕ) (bound : Bound) (held : Held)
      → get_elem? s.live i ≡ some (bound, held)
      → IsBound max_devices (bound, held)

-- The devices after a probe.
abbrev pub after_probe : {D : Type 0} → List (Bound × Held) → Option Bound → Machine D → Driver
after_probe live none m = record { dev_minor = m.dev_minor; live = live }
after_probe live (some bound) m = record { dev_minor = m.dev_minor; live = (bound, m.held) ∷ live }

uses-remove_at :
    (devices : List (Bound × Held)) (i : ℕ) (bound : Bound) (held : Held) (m : ℕ)
    → get_elem? devices i ≡ some (bound, held)
    → (if bound.minor == m then 1 else 0) + uses (remove_at devices i) m ≡ uses devices m
uses-remove_at [] i bound held m e = ground arith
uses-remove_at ((b, h) ∷ devices) zero bound held m e =
    let same = ap (λ (p : Bound × Held). p.0.minor) (eq_of_some e) in
    ap (λ k. (if k == m then 1 else 0) + uses devices m) (sym same)
uses-remove_at ((b, h) ∷ devices) (suc i) bound held m e =
    omega (arith, uses-remove_at devices i bound held m e)

-- A new mark on a minor number that had none, and the count of the devices that have it.
marks-put_bit :
    (bits : Minors) (minor j n : ℕ)
    → bits minor ≡ false
    → n ≡ (if bits j then 1 else 0)
    → (if minor == j then 1 else 0) + n ≡ (if put_bit bits minor true j then 1 else 0)
unfolding put_bit
marks-put_bit bits minor j n free e = elim (Bool-cases (minor == j)) [
  | inl same ↦
      let here : minor ≡ j = ground arith in
      let zero_bit : bits j ≡ false = sym (ap bits here) ∙ free in
      rw same (omega (arith, e ∙ ap (λ (b : Bool). if b then 1 else 0) zero_bit))
  | inr other ↦ rw other (omega (arith, e))
]

-- The mark of a device that goes.
marks-clear_bit :
    (bits : Minors) (minor j n : ℕ)
    → (if minor == j then 1 else 0) + n ≡ (if bits j then 1 else 0)
    → n ≡ (if put_bit bits minor false j then 1 else 0)
unfolding put_bit
marks-clear_bit bits minor j n e = ground arith

holds-cons :
    (max_devices : ℕ) (devices : List (Bound × Held)) (bound : Bound) (held : Held)
    → IsBound max_devices (bound, held)
    → ((i : ℕ) (b : Bound) (h : Held)
        → get_elem? devices i ≡ some (b, h)
        → IsBound max_devices (b, h))
    → (i : ℕ) (b : Bound) (h : Held) → get_elem? ((bound, held) ∷ devices) i ≡ some (b, h)
    → IsBound max_devices (b, h)
holds-cons max_devices devices bound held new old zero b h at =
    subst (IsBound max_devices) (eq_of_some at) new
holds-cons max_devices devices bound held new old (suc i) b h at = old i b h at

probed-IsDriver :
    {D : Type 0} (says : DmaBuffer → Bool) (max_devices : ℕ) (s : Driver) (ret : ℤ)
    (bound : Option Bound) (m : Machine D)
    → IsDriver max_devices s
    → Settled says max_devices s.dev_minor (ret, bound, m)
    → IsDriver max_devices (after_probe s.live bound m)
probed-IsDriver says max_devices s ret none m h settled = record {
  marks = (λ j. h.marks j ∙ ap (λ (b : Bool). if b then 1 else 0) (sym (settled.2 j)));
  holding = h.holding;
}
probed-IsDriver says max_devices s ret (some bound) m h settled = record {
  marks = (λ j.
      marks-put_bit s.dev_minor bound.minor j (uses s.live j) settled.2 (h.marks j)
      ∙ ap (λ (bits : Minors). if bits j then 1 else 0) (sym settled.3));
  holding = holds-cons max_devices s.live bound m.held (settled.1, settled.4) h.holding;
}

module _ {D : Type 0} (endpoint : Endpoint D) (says : DmaBuffer → Bool) (find : Minors → ℕ → ℕ)
    (max_devices : ℕ) where
  -- A device is found and probed, or a bound one is removed; the endpoints change as they like.
  pub data Step (s t : Driver) : Type 0 where
    probed :
        (a : Answers) (d : D) (ret : ℤ) (bound : Option Bound) (m : Machine D)
        → a.device_create ≢ some (pos 0)
        → probe endpoint says a find max_devices
            (record { held = holds_nothing; dev_minor = s.dev_minor; bar0 = d })
          ≡ ok (ret, bound, m)
        → t ≡ after_probe s.live bound m
        → Step s t
    removed :
        (i : ℕ) (bound : Bound) (held : Held) (d : D) (m : Machine D)
        → get_elem? s.live i ≡ some (bound, held)
        → remove endpoint says bound (record { held = held; dev_minor = s.dev_minor; bar0 = d })
          ≡ ok m
        → t ≡ record { dev_minor = m.dev_minor; live = remove_at s.live i }
        → Step s t

  pub data Reaches (s : Driver) : Driver → Type 0 where
    here : Reaches s s
    next : {t u : Driver} → Reaches s t → Step t u → Reaches s u

  module _ (finds : FindsZero find) (room : max_devices ≤ 256) where
    -- Where `find_first_zero_bit` gives a zero bit and at most 256 devices are allowed,
    -- `xilinx_ep_remove` on a bound device of a valid driver ends without a fault, with nothing
    -- held and its minor number cleared; a DMA buffer that is not NULL was handed to
    -- `dma_free_coherent` once, and once to `kfree` exactly if the test of the first call's
    -- value says so.
    pub removable :
        (s : Driver) (i : ℕ) (bound : Bound) (held : Held) (d : D)
        → IsDriver max_devices s
        → get_elem? s.live i ≡ some (bound, held)
        → remove endpoint says bound (record { held = held; dev_minor = s.dev_minor; bar0 = d })
          ≡ ok (record {
            held = released says held.dma;
            dev_minor = put_bit s.dev_minor bound.minor false;
            bar0 = d;
          })
    removable s i bound held d h at =
        let (small, (bar1, dma, holds)) = h.holding i bound held at in
        subst
          (λ k.
            remove endpoint says bound (record { held = k; dev_minor = s.dev_minor; bar0 = d })
            ≡ ok (record {
              held = released says k.dma;
              dev_minor = put_bit s.dev_minor bound.minor false;
              bar0 = d;
            }))
          (sym holds) (remove-lem endpoint says bar1 dma bound s.dev_minor d (omega arith))

    Step-IsDriver : {s t : Driver} → Step s t → IsDriver max_devices s → IsDriver max_devices t
    Step-IsDriver {s} {t} (probed a d ret bound m error run e) h =
        subst (IsDriver max_devices) (sym e) (
          probed-IsDriver says max_devices s ret bound m h (
            subst (Settles says max_devices s.dev_minor) run
              (probe-Settles endpoint says a find max_devices s.dev_minor finds room error d)))
    Step-IsDriver {s} {t} (removed i bound held d m at run e) h =
        let bits =
          ap (λ (k : Machine D). k.dev_minor)
            (eq_of_ok (sym run ∙ removable s i bound held d h at)) in
        subst (IsDriver max_devices) (sym e) (record {
          marks = (λ j.
              marks-clear_bit s.dev_minor bound.minor j (uses (remove_at s.live i) j)
                (uses-remove_at s.live i bound held j at ∙ h.marks j)
              ∙ ap (λ (k : Minors). if k j then 1 else 0) (sym bits));
          holding = (λ j b k found. elim (elem-remove_at s.live i j (b, k) found) [
            | inl (lt, there) ↦ h.holding j b k there
            | inr (le, there) ↦ h.holding (suc j) b k there
          ]);
        })

    -- Where `find_first_zero_bit` gives a zero bit, at most 256 devices are allowed and an
    -- error of `device_create` is not 0: whatever probes, failed ones included, and removals
    -- have followed on a valid driver, a bit of `dev_minor` is set exactly if a bound device
    -- has that minor number, then one device has it, and every bound device has a number below
    -- `max_devices` and holds all that a probe takes, where only BAR1 and the DMA buffer may be
    -- NULL.
    pub Reaches-IsDriver :
        {s t : Driver} → IsDriver max_devices s → Reaches s t → IsDriver max_devices t
    Reaches-IsDriver h here = h
    Reaches-IsDriver h (next r step) = Step-IsDriver step (Reaches-IsDriver h r)
