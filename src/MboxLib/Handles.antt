-- ===== src/MboxLib/Handles.antt =====
-- Handles of mailbox_framework/lib/mbox_lib.c: an address that was converted to `int`.
use c_data_structures.Prelude.{
  ℕ, ◌-◌, ◌<◌, ◌≤◌, ◌≡◌, ◌∙◌, refl, ap, Option, some, List, ◌++◌, arith, ◌==◌, if_intro, length,
  take,
}
use c_data_structures.Prelude.Int.{ℤ, pos, negsuc}
use c_data_structures.Prelude.Run.{Run, ok, deref, ◌>>=◌}
use c_data_structures.Mailbox.Types.{u32, MboxStats}
use c_data_structures.MboxLib.System.{System, MboxHandle, World, set_handle}
use c_data_structures.MboxLib.Api.{
  device_prefix, open_flags_of, handle_of, minus_err_inval, new_handle, opened_handle, mbox_open,
  mbox_get_fd,
}

module _ {S : Type 0} (sys : System S) where
  abbrev pub open_result : World S → (name : List ℕ) → (flags : ℕ) → ℤ × S
  open_result w name flags =
      sys.open_device w.state (take 63 (device_prefix ++ name)) (open_flags_of flags)

  -- What `mbox_get_fd` answers for the handle that `mbox_open` returned.
  abbrev pub Usable : World S → (address : ℕ) → (fd : ℕ) → Type 0
  Usable w address fd =
      (address < 2147483648 → mbox_get_fd sys w (handle_of address) ≡ ok (pos fd))
      × (2147483648 ≤ u32 address → mbox_get_fd sys w (handle_of address) ≡ ok minus_err_inval)

  get_fd-here :
      (w : World S) (address fd : ℕ) (h : MboxHandle)
      → h.fd ≡ pos fd
      → w.heap address ≡ some h
      → Usable w address fd
  unfolding mbox_get_fd
  get_fd-here w address fd h fd_eq here = (
    (λ low.
        ap (mbox_get_fd sys w) (low_handle low)
        ∙ (ap (λ (o : Option MboxHandle). deref o >>= λ h. ok h.fd) here ∙ ap ok fd_eq)),
    (λ high. ap (mbox_get_fd sys w) (high_handle high)),
  )
    where
      low_handle : address < 2147483648 → handle_of address ≡ pos address
      low_handle low = ground arith

      high_handle :
          2147483648 ≤ u32 address → handle_of address ≡ negsuc (4294967296 - u32 address - 1)
      high_handle high = ground arith

  -- `mbox_open` with a name, where the system opens the device and answers MBOX_IOC_STATS,
  -- returns the address of the new handle as an `int`; with it `mbox_get_fd` gives the file
  -- descriptor when the address is below 2^31, and MBOX_ERR_INVAL negated when its bit 31 is
  -- set.
  pub mbox_open-Usable :
      (w : World S) (address fd : ℕ) (name : List ℕ) (flags : ℕ) (s s' : S) (ret : ℤ)
      (stats : MboxStats)
      → 0 < length name
      → open_result w name flags ≡ (pos fd, s)
      → sys.stats_call s (pos fd) ≡ ok (ret, stats, s')
      → (w' : World S) × (mbox_open sys w (some address) name flags ≡ ok (handle_of address, w'))
        × Usable w' address fd
  unfolding mbox_open opened_handle set_handle
  mbox_open-Usable w address fd name flags s s' ret stats named opened asked =
      let h = new_handle name fd flags ret stats in
      let w' : World S = record { heap = set_handle w.heap address (some h); state = s' } in
      let P : Run (ℤ × World S) → Type 0 = λ t. t ≡ ok (handle_of address, w') in
      (
        w',
        if_intro P (length name == 0) _ _ (λ e. ground arith)
            (λ _.
              ap (opened_handle sys w address name flags) opened
              ∙ ap
                  (λ (r : Run (ℤ × MboxStats × S)). r >>= λ (ret, stats, state). ok (
                    handle_of address,
                    record {
                      heap = set_handle w.heap address (some (new_handle name fd flags ret stats));
                      state = state;
                    },
                  ))
                  asked),
        get_fd-here w' address fd h refl (ground arith),
      )
