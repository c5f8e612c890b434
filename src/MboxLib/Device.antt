-- ===== src/MboxLib/Device.antt =====
-- mailbox_framework/lib/mbox_lib.c over the file operations of mailbox_framework/kernel/mbox_kern.c.
use mathlib.Core.Path.{subst}
use c_data_structures.Prelude.{
  ℕ, ◌<◌, ◌≡◌, ◌∙◌, refl, sym, ap, true, not, ◌&&◌, Option, none, some, List, arith, ltb, if_intro,
}
use c_data_structures.Prelude.Int.{ℤ, pos}
use c_data_structures.Prelude.Run.{Run, ok, deref, ◌>>=◌}
use c_data_structures.Mailbox.Types.{int32, Mailbox, Received, RecvReq, FileData}
use c_data_structures.Mailbox.Receive.{Wait, Dequeued, take_message}
use c_data_structures.Mailbox.Files.{
  Caller, Copied, nothing, request, Outcome, outcome, filled, read_full, mbox_read, recv_req_size,
}
use c_data_structures.Mailbox.Delivery.{dequeue_takes, int32-pos}
use c_data_structures.MboxLib.System.{System, MboxHandle, World}
use c_data_structures.MboxLib.Api.{has_flag, mbox_o_rdonly, mbox_o_rdwr, minus_err_inval}
use c_data_structures.MboxLib.Messages.{
  Answer, Delivered, request_of, read_payload, read_req, recv_read, recv_now, recv_from, mbox_recv,
  Peeked, peek_read, peek_req, mbox_peek,
}

-- An open file of the mailbox module.
abbrev pub MboxFile : Type 0
MboxFile = FileData × Mailbox

-- `read` on the device.
abbrev pub device_read :
    Caller → List Wait → MboxFile → (count : ℕ) → RecvReq → Run (ℤ × Copied × MboxFile)
device_read caller waits d count req =
    mbox_read caller waits d.0 d.1 count req >>= λ r. ok (r.ret, r.copied, (r.file, r.mbox))

-- The system hands a read over to the module.
abbrev pub ReadsDevice : Caller → List Wait → System MboxFile → Type 0
ReadsDevice caller waits sys =
    (d : MboxFile) (fd : ℤ) (count : ℕ) (req : RecvReq)
    → sys.read d fd count req ≡ device_read caller waits d count req

-- The module answers a read of a request with the message that is next.
mbox_read-takes :
    (caller : Caller) (waits : List Wait) (fd : FileData) (m : Mailbox) (req : RecvReq)
    (got : Received) (after : Mailbox)
    → fd.attached ≡ true
    → caller.readable ≡ true
    → caller.writable recv_req_size ≡ true
    → got.size < 2147483648
    → take_message m req.channel_mask m.queue.msg_size ≡ ok (some got, after)
    → mbox_read caller waits fd m recv_req_size req
      ≡ ok (outcome fd after (request (filled req (some got))) (pos got.size))
unfolding mbox_read read_full filled
mbox_read-takes caller waits fd m req got after open_file readable writable few e =
    let Goal = ok (outcome fd after (request (filled req (some got))) (pos got.size)) in
    let P : Run Outcome → Type 0 = λ t. t ≡ Goal in
    let d =
      dequeue_takes waits m req.channel_mask m.queue.msg_size (int32 req.timeout_ms) got after e in
    let Q : Outcome → Type 0 = λ t. ok t ≡ Goal in
    if_intro P (not fd.attached) _ _ (λ e. ground arith)
      (λ _.
        if_intro P (not caller.readable) _ _ (λ e. ground arith)
          (λ _.
            ap
              (λ (r : Run Dequeued).
                r >>= λ (ret, got, after). ok (read_full caller fd after req ret got))
              d
            ∙ if_intro Q (caller.writable recv_req_size) _ _
                (λ _.
                  ap (λ n. ok (outcome fd after (request (filled req (some got))) n))
                    (int32-pos got.size few))
                (λ e. ground arith)))

module _ (caller : Caller) (waits : List Wait) (sys : System MboxFile)
    (reads : ReadsDevice caller waits sys) where
  read_req-takes :
      (d : MboxFile) (fd : ℤ) (req : RecvReq) (got : Received) (after : Mailbox)
      → d.0.attached ≡ true
      → caller.readable ≡ true
      → caller.writable recv_req_size ≡ true
      → got.size < 2147483648
      → take_message d.1 req.channel_mask d.1.queue.msg_size ≡ ok (some got, after)
      → read_req sys d fd req ≡ ok (pos got.size, filled req (some got), (d.0, after))
  unfolding read_req
  read_req-takes d fd req got after open_file readable writable few e =
      ap
        (λ (r : Run (ℤ × Copied × MboxFile)).
          r >>= λ (ret, copied, s'). ok (ret, request_of req copied, s'))
        (reads d fd recv_req_size req
          ∙ ap (λ (r : Run Outcome). r >>= λ r. ok (r.ret, r.copied, (r.file, r.mbox)))
              (mbox_read-takes caller waits d.0 d.1 req got after open_file readable writable few
                e))

  -- Where the system hands reads of the device to the module, `mbox_recv` with timeout 0
  -- through a handle that permits it, when the next message on the mask has less than 24 bytes
  -- and the caller's memory can be read and written, returns MBOX_ERR_INVAL negated and reads
  -- no payload, while the module has taken the message out of the mailbox.
  pub mbox_recv-loses_short :
      (w : World MboxFile) (mbox : ℕ) (h : MboxHandle) (junk : RecvReq) (mask : ℕ)
      (payload : Option RecvReq) (max_size : ℕ) (got : Received) (after : Mailbox)
      → w.heap mbox ≡ some h
      → has_flag h.flags mbox_o_rdwr ≡ true
      → w.state.0.attached ≡ true
      → caller.readable ≡ true
      → caller.writable recv_req_size ≡ true
      → got.size < 24
      → take_message w.state.1 mask w.state.1.queue.msg_size ≡ ok (some got, after)
      → mbox_recv sys w (pos mbox) junk mask payload max_size (pos 0)
        ≡ ok (minus_err_inval, nothing, record w { state = (w.state.0, after) })
  unfolding mbox_recv recv_from recv_now recv_read
  mbox_recv-loses_short w mbox h junk mask payload max_size got after here flags open_file readable
        writable short e =
      let req : RecvReq = record junk { channel_mask = mask; timeout_ms = 0 } in
      let Goal : Run (Delivered MboxFile) =
        ok (minus_err_inval, nothing, record w { state = (w.state.0, after) }) in
      let P : Run (Delivered MboxFile) → Type 0 = λ t. t ≡ Goal in
      let r =
        read_req-takes w.state h.fd req got after open_file readable writable (omega arith) e in
      ap
        (λ (o : Option MboxHandle). deref o >>= λ h. recv_from sys w h req payload max_size (pos 0))
        here
      ∙ if_intro P (not (has_flag h.flags mbox_o_rdonly) && not (has_flag h.flags mbox_o_rdwr)) _ _
          (λ e. ground arith)
          (λ _.
            ap (λ (t : Run (Answer MboxFile)). t >>= recv_read sys w h.fd payload max_size) r
            ∙ if_intro P (ltb got.size recv_req_size) _ _ (λ _. refl) (λ e. ground arith))

  -- A peek left the mailbox `after`.
  abbrev pub Peeks : World MboxFile → (mbox : ℕ) → (mask max_size : ℕ) → Mailbox → Type 0
  Peeks w mbox mask max_size after =
      (out : Peeked sys) × (ret : ℤ) × (mbox_peek sys w (pos mbox) mask none max_size
        ≡ ok (out, (ret, nothing, record w { state = (w.state.0, after) })))

  -- Where the system hands reads of the device to the module, `mbox_peek` of the next message
  -- without a buffer for its payload leaves the mailbox as a receive does: the message, of a
  -- size below 2^31, is taken out.
  pub mbox_peek-removes :
      (w : World MboxFile) (mbox : ℕ) (h : MboxHandle) (mask max_size : ℕ) (got : Received)
      (after : Mailbox)
      → w.heap mbox ≡ some h
      → w.state.0.attached ≡ true
      → caller.readable ≡ true
      → caller.writable recv_req_size ≡ true
      → got.size < 2147483648
      → take_message w.state.1 mask w.state.1.queue.msg_size ≡ ok (some got, after)
      → Peeks w mbox mask max_size after
  unfolding mbox_peek peek_read read_payload
  mbox_peek-removes w mbox h mask max_size got after here open_file readable writable few e =
      let r =
        read_req-takes w.state h.fd (peek_req mask) got after open_file readable writable few e in
      let P : Run (Peeked sys × Delivered MboxFile) → Type 0 = λ t.
        (out : Peeked sys) × (ret : ℤ) × (t
          ≡ ok (out, (ret, nothing, record w { state = (w.state.0, after) }))) in
      let first =
        ap
          (λ (o : Option MboxHandle). deref o >>= λ h.
            read_req sys w.state h.fd (peek_req mask) >>= peek_read sys w h.fd none max_size)
          here in
      let second = ap (λ (t : Run (Answer MboxFile)). t >>= peek_read sys w h.fd none max_size) r in
      subst P (sym (first ∙ second))
        (if_intro P (ltb got.size recv_req_size) _ _ (λ _. (none, _, refl)) (λ _. (_, _, refl)))
