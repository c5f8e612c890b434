-- ===== src/MboxLib/Api.antt =====
-- The functions of mailbox_framework/lib/mbox_lib.c. A handle is a pointer converted to `int`; the
-- error constants are negative and negated where they are returned.
use Prim.Native.Nat.{bit_and, bit_or}
use c_data_structures.Prelude.{
  ℕ, zero, suc, ◌+◌, ◌-◌, Bool, not, Option, none, some, List, [], ◌∷◌, ◌++◌, ltb, ◌==◌,
  if◌then◌else◌, length, take,
}
use c_data_structures.Prelude.Int.{ℤ, pos, negsuc, is_zero, is_negative}
use c_data_structures.Prelude.Run.{Run, ok, deref, ◌>>=◌}
use c_data_structures.Mailbox.Types.{u32, int32, MboxStats, mbox_name_len}
use c_data_structures.MboxLib.System.{System, MboxHandle, World, set_handle}

-- `-MBOX_ERR_NOENT`, `-MBOX_ERR_INVAL` and `-MBOX_ERR_NOMEM`.
abbrev pub minus_err_noent : ℤ
minus_err_noent = pos 1

abbrev pub minus_err_inval : ℤ
minus_err_inval = pos 3

abbrev pub minus_err_nomem : ℤ
minus_err_nomem = pos 4

-- `MBOX_O_RDONLY`, `MBOX_O_WRONLY`, `MBOX_O_RDWR` and `MBOX_O_NONBLOCK`, and `O_RDWR` and `O_NONBLOCK`.
abbrev pub mbox_o_rdonly : ℕ
mbox_o_rdonly = 1

abbrev pub mbox_o_wronly : ℕ
mbox_o_wronly = 2

abbrev pub mbox_o_rdwr : ℕ
mbox_o_rdwr = 3

abbrev pub mbox_o_nonblock : ℕ
mbox_o_nonblock = 32

abbrev o_rdwr : ℕ
o_rdwr = 2

abbrev o_nonblock : ℕ
o_nonblock = 2048

abbrev pub has_flag : (flags mask : ℕ) → Bool
has_flag flags mask = not (bit_and flags mask == 0)

-- `/dev/mbox-`.
abbrev pub device_prefix : List ℕ
device_prefix = 47 ∷ 100 ∷ 101 ∷ 118 ∷ 47 ∷ 109 ∷ 98 ∷ 111 ∷ 120 ∷ 45 ∷ []

-- `(int)(intptr_t)h`.
abbrev pub handle_of : (address : ℕ) → ℤ
handle_of address = int32 (u32 address)

unfoldable pub mbox_validate_handle : ℤ → ℤ
mbox_validate_handle (pos n) = pos 0
mbox_validate_handle (negsuc n) = minus_err_inval

-- The index into `mbox_err_strings`, which has 11 entries, or `none` for the text of an unknown error.
unfoldable pub mbox_strerror : (err : ℤ) → Option ℕ
mbox_strerror (pos zero) = some 0
mbox_strerror (pos (suc n)) = none
mbox_strerror (negsuc n) = if ltb n 10 then some (n + 1) else none

abbrev pub open_flags_of : (flags : ℕ) → ℕ
open_flags_of flags = if has_flag flags mbox_o_nonblock then bit_or o_rdwr o_nonblock else o_rdwr

-- The handle that `mbox_open` fills, after MBOX_IOC_STATS returned `ret`.
abbrev pub new_handle : (name : List ℕ) → (fd flags : ℕ) → (ret : ℤ) → MboxStats → MboxHandle
new_handle name fd flags ret stats = record {
  name = take (mbox_name_len - 1) name;
  fd = pos fd;
  shmem = none;
  shmem_size = 0;
  depth = (if is_zero ret then stats.max_depth else 0);
  msg_size = 0;
  flags = flags;
}

module _ {S : Type 0} (sys : System S) where
  -- `mbox_open` after the call of `open`.
  unfoldable pub opened_handle :
      World S → (address : ℕ) → (name : List ℕ) → (flags : ℕ) → ℤ × S → Run (ℤ × World S)
  opened_handle w address name flags (negsuc e, s) = ok (minus_err_noent, record w { state = s })
  opened_handle w address name flags (pos fd, s) =
      sys.stats_call s (pos fd) >>= λ (ret, stats, state). ok (
        handle_of address,
        record {
          heap = set_handle w.heap address (some (new_handle name fd flags ret stats));
          state = state;
        },
      )

  -- `mbox_open` with the address that `calloc` gives; a NULL name is the empty one.
  unfoldable pub mbox_open :
      World S → (calloc : Option ℕ) → (name : List ℕ) → (flags : ℕ) → Run (ℤ × World S)
  mbox_open w none name flags =
      ok (if length name == 0 then minus_err_inval else minus_err_nomem, w)
  mbox_open w (some address) name flags =
      if length name == 0
      then ok (minus_err_inval, w)
      else opened_handle w address name flags
          (sys.open_device w.state (take 63 (device_prefix ++ name)) (open_flags_of flags))

  -- The object behind a handle.
  abbrev pub handle_at : World S → (mbox : ℕ) → Run MboxHandle
  handle_at w mbox = deref (w.heap mbox)

  unfoldable pub mbox_close : World S → (mbox : ℤ) → Run (ℤ × World S)
  mbox_close w (negsuc n) = ok (minus_err_inval, w)
  mbox_close w (pos mbox) = handle_at w mbox >>= λ h.
      let unmapped : S = elim h.shmem [
        | none ↦ w.state
        | some a ↦ sys.unmap w.state a h.shmem_size
      ] in
      let closed : S = elim h.fd [
        | pos fd ↦ sys.close_device unmapped h.fd
        | negsuc fd ↦ unmapped
      ] in
      ok (pos 0, record w { heap = set_handle w.heap mbox none; state = closed })

  unfoldable pub mbox_flush : World S → (mbox : ℤ) → Run (ℤ × World S)
  mbox_flush w (negsuc n) = ok (minus_err_inval, w)
  mbox_flush w (pos mbox) = handle_at w mbox >>= λ h.
      sys.flush_call w.state h.fd >>= λ (ret, state).
      ok (if is_negative ret then minus_err_inval else pos 0, record w { state = state })

  unfoldable pub mbox_stats : World S → (mbox : ℤ) → Run (ℤ × Option MboxStats × World S)
  mbox_stats w (negsuc n) = ok (minus_err_inval, none, w)
  mbox_stats w (pos mbox) = handle_at w mbox >>= λ h.
      sys.stats_call w.state h.fd >>= λ (ret, stats, state).
      ok
        (if is_negative ret then minus_err_inval else pos 0, some stats, record w { state = state })

  unfoldable pub mbox_get_fd : World S → (mbox : ℤ) → Run ℤ
  mbox_get_fd w (negsuc n) = ok minus_err_inval
  mbox_get_fd w (pos mbox) = handle_at w mbox >>= λ h. ok h.fd

  -- The address and the size, or NULL with no size written.
  unfoldable pub mbox_get_shmem : World S → (mbox : ℤ) → Run (Option ℕ × Option ℕ)
  mbox_get_shmem w (negsuc n) = ok (none, none)
  mbox_get_shmem w (pos mbox) = handle_at w mbox >>= λ h. ok (h.shmem, some h.shmem_size)

  unfoldable pub mbox_get_queue_ptr : World S → (mbox : ℤ) → Run (Option ℕ)
  mbox_get_queue_ptr w mbox = mbox_get_shmem w mbox >>= λ (shmem, size). ok shmem
