-- ===== src/MboxLib/Messages.antt =====
-- Sending and receiving in mailbox_framework/lib/mbox_lib.c: `mbox_send`, `mbox_recv` and `mbox_peek`.
use c_data_structures.Prelude.{
  ℕ, ◌-◌, ◌%◌, ◌&&◌, ◌||◌, Bool, true, false, not, Option, none, some, List, [], ◌∷◌, ◌++◌, ltb,
  leb, ◌==◌, if◌then◌else◌, length,
}
use c_data_structures.Prelude.Int.{ℤ, pos, negsuc, is_zero, is_negative}
use c_data_structures.Prelude.Run.{Run, ok, ◌>>=◌}
use c_data_structures.Mailbox.Memory.{bytes32}
use c_data_structures.Mailbox.Types.{
  u32, int32, RecvReq, mbox_max_msg_size, minus_err_timeout, minus_err_wouldblock, minus_err_toobig,
}
use c_data_structures.Mailbox.Files.{Copied, nothing, request, send_req_size, recv_req_size}
use c_data_structures.MboxLib.System.{System, MboxHandle, World}
use c_data_structures.MboxLib.Api.{
  minus_err_inval, mbox_o_rdonly, mbox_o_wronly, mbox_o_rdwr, mbox_o_nonblock, has_flag, handle_at,
}

-- `errno == EWOULDBLOCK || errno == EAGAIN` after a failed call, and what is returned then.
unfoldable pub failed_call : (errno_less_one : ℕ) → ℤ
failed_call n = if n == 10 then minus_err_wouldblock else minus_err_inval

-- `n < sizeof(req)`, where `n` is converted to an unsigned number.
unfoldable pub below_size : ℤ → (size : ℕ) → Bool
below_size (pos n) size = ltb n size
below_size (negsuc n) size = false

-- `(int)(n - sizeof(req))`.
unfoldable pub less_header : ℕ → ℤ
less_header n =
    if leb send_req_size n then int32 (u32 (n - send_req_size)) else negsuc (send_req_size - n - 1)

-- The bytes of a `struct mbox_send_req`.
abbrev pub send_req : (channel size flags : ℕ) → List ℕ
send_req channel size flags = (channel % 256) ∷ 0 ∷ 0 ∷ 0 ∷ (bytes32 size ++ bytes32 flags)

-- What `mbox_send` returns for the result of `writev`.
unfoldable pub sent_result : ℤ → ℤ
sent_result (negsuc e) = failed_call e
sent_result (pos n) = less_header n

-- What is returned for the result of the read of a payload of `size` bytes: its count or the size.
unfoldable pub payload_result : ℤ → (size : ℕ) → (count_read : Bool) → ℤ
payload_result (negsuc e) size count_read = minus_err_inval
payload_result (pos n) size count_read = if count_read then int32 (u32 n) else int32 size

-- The request after a read, and the bytes that a read put at `payload`.
abbrev pub request_of : RecvReq → Copied → RecvReq
request_of req (request req') = req'
request_of req _ = req

-- A read of a request structure: what it returns, the structure then, and the state.
abbrev pub Answer : Type 0 → Type 0
Answer S = ℤ × RecvReq × S

-- What `mbox_recv` returns, what its last read put at `payload`, and the world then.
abbrev pub Delivered : Type 0 → Type 0
Delivered S = ℤ × Copied × World S

-- The request of `mbox_peek`.
abbrev pub peek_req : (mask : ℕ) → RecvReq
peek_req mask = record {
  channel_mask = mask;
  timeout_ms = 0;
  out_size = 0;
  out_msg_id = 0;
  out_channel = 0;
  out_flags = 0;
}

module _ {S : Type 0} (sys : System S) where
  -- `mbox_send` of a payload that is not NULL.
  unfoldable pub mbox_send :
      World S → (mbox : ℤ) → (channel : ℕ) → (payload : List ℕ) → (flags : ℕ) → Run (ℤ × World S)
  mbox_send w (negsuc n) channel payload flags = ok (minus_err_inval, w)
  mbox_send w (pos mbox) channel payload flags =
      let size = length payload in
      if ltb mbox_max_msg_size size
      then ok (minus_err_toobig, w)
      else handle_at sys w mbox >>= λ h.
          if not (has_flag h.flags mbox_o_wronly) && not (has_flag h.flags mbox_o_rdwr)
          then ok (minus_err_inval, w)
          else (sys.writev w.state h.fd (send_req channel (u32 size) flags ∷ payload ∷ [])
              >>= λ (ret, state). ok (sent_result ret, record w { state = state }))

  -- `read(h->fd, &req, sizeof(req))`.
  unfoldable pub read_req : S → (fd : ℤ) → RecvReq → Run (Answer S)
  read_req s fd req =
      sys.read s fd recv_req_size req >>= λ (ret, copied, s'). ok (ret, request_of req copied, s')

  -- The read of the payload after the request `req`, when there is room for it; `buffer` is what stands
  -- at `payload`, and the result is what is returned when the read works.
  unfoldable pub read_payload :
      World S
      → S
      → (fd : ℤ) → RecvReq
      → (payload : Option RecvReq) → (max_size : ℕ) → (count_read : Bool) → Run (Delivered S)
  read_payload w s fd req none max_size count_read =
      ok (int32 req.out_size, nothing, record w { state = s })
  read_payload w s fd req (some buffer) max_size count_read =
      if ltb 0 req.out_size && leb req.out_size max_size
      then (sys.read s fd req.out_size buffer >>= λ (ret, copied, s').
          ok (payload_result ret req.out_size count_read, copied, record w { state = s' }))
      else ok (int32 req.out_size, nothing, record w { state = s })

  -- The path of `mbox_recv` that does not block, after the read of the request.
  unfoldable pub recv_read :
      World S
      → (fd : ℤ) → (payload : Option RecvReq) → (max_size : ℕ) → Answer S
      → Run (Delivered S)
  recv_read w fd payload max_size (negsuc e, req, s) =
      ok (failed_call e, nothing, record w { state = s })
  recv_read w fd payload max_size (pos n, req, s) =
      if ltb n recv_req_size
      then ok (minus_err_inval, nothing, record w { state = s })
      else read_payload w s fd req payload max_size false

  unfoldable pub recv_now :
      World S → (fd : ℤ) → RecvReq → (payload : Option RecvReq) → (max_size : ℕ) → Run (Delivered S)
  recv_now w fd req payload max_size = read_req w.state fd req >>= recv_read w fd payload max_size

  -- The path that polls first.
  unfoldable pub recv_poll :
      World S
      → (fd timeout_ms : ℤ) → RecvReq
      → (payload : Option RecvReq) → (max_size : ℕ) → Run (Delivered S)
  recv_poll w fd timeout_ms req payload max_size =
      sys.poll w.state fd (if is_negative timeout_ms then negsuc 0 else timeout_ms)
      >>= λ (polled, s).
          if is_negative polled
          then ok (minus_err_inval, nothing, record w { state = s })
          else if is_zero polled
          then ok (minus_err_timeout, nothing, record w { state = s })
          else (read_req s fd req >>= λ (ret, req', s').
              if below_size ret recv_req_size
              then ok (minus_err_inval, nothing, record w { state = s' })
              else read_payload w s' fd req' payload max_size true)

  -- `mbox_recv` with the request `req` and the handle that was found.
  unfoldable pub recv_from :
      World S
      → MboxHandle
      → RecvReq
      → (payload : Option RecvReq) → (max_size : ℕ) → (timeout_ms : ℤ) → Run (Delivered S)
  recv_from w h req payload max_size timeout_ms =
      if not (has_flag h.flags mbox_o_rdonly) && not (has_flag h.flags mbox_o_rdwr)
      then ok (minus_err_inval, nothing, w)
      else if is_zero timeout_ms || has_flag h.flags mbox_o_nonblock
      then recv_now w h.fd req payload max_size
      else recv_poll w h.fd timeout_ms req payload max_size

  -- `mbox_recv`, where `junk` is what stands in the request before its two inputs are set.
  unfoldable pub mbox_recv :
      World S
      → (mbox : ℤ) → (junk : RecvReq) → (mask : ℕ) → (payload : Option RecvReq) → (max_size : ℕ)
      → (timeout_ms : ℤ) → Run (Delivered S)
  mbox_recv w (negsuc n) junk mask payload max_size timeout_ms = ok (minus_err_inval, nothing, w)
  mbox_recv w (pos mbox) junk mask payload max_size timeout_ms = handle_at sys w mbox >>= λ h.
      recv_from w h (record junk { channel_mask = mask; timeout_ms = 0 }) payload max_size
        timeout_ms

  -- What `mbox_peek` writes through its pointers.
  abbrev pub Peeked : Type 0
  Peeked = Option (ℕ × ℕ × ℕ)

  -- `mbox_peek` after the read of the request.
  unfoldable pub peek_read :
      World S
      → (fd : ℤ) → (payload : Option RecvReq) → (max_size : ℕ) → Answer S
      → Run (Peeked × Delivered S)
  peek_read w fd payload max_size (negsuc e, req, s) =
      ok (none, (failed_call e, nothing, record w { state = s }))
  peek_read w fd payload max_size (pos n, req, s) =
      if ltb n recv_req_size
      then ok (none, (minus_err_inval, nothing, record w { state = s }))
      else (read_payload w s fd req payload max_size true >>= λ d.
          ok (some (req.out_msg_id, req.out_channel % 256, req.out_flags), d))

  -- `mbox_peek`, which reads as `mbox_recv` does.
  unfoldable pub mbox_peek :
      World S
      → (mbox : ℤ) → (mask : ℕ) → (payload : Option RecvReq) → (max_size : ℕ)
      → Run (Peeked × Delivered S)
  mbox_peek w (negsuc n) mask payload max_size = ok (none, (minus_err_inval, nothing, w))
  mbox_peek w (pos mbox) mask payload max_size = handle_at sys w mbox >>= λ h.
      read_req w.state h.fd (peek_req mask) >>= peek_read w h.fd payload max_size
