-- ===== src/Mailbox/Delivery.antt =====
-- A message that a receive of mailbox_framework/kernel/mbox_kern.c hands out.
use c_data_structures.Prelude.{
  ℕ, ◌<◌, ◌≡◌, ◌∙◌, refl, ap, true, not, none, some, List, [], ◌∷◌, arith, ltb, if_intro,
}
use c_data_structures.Prelude.Int.{ℤ, pos}
use c_data_structures.Prelude.Run.{Run, ok, out_of_fuel, ◌>>=◌}
use c_data_structures.Mailbox.Types.{int32, Mailbox, Received, RecvReq, FileData}
use c_data_structures.Mailbox.Receive.{Wait, Dequeued, take_message, after_pass, mbox_dequeue}
use c_data_structures.Mailbox.Files.{
  Caller, Outcome, outcome, Copied, request, filled, recv_req_size,
}
use c_data_structures.Mailbox.Ioctl.{received_request, ioctl_recv}

pub dequeue_takes :
    (waits : List Wait) (m : Mailbox) (mask max_size : ℕ) (t : ℤ) (got : Received) (after : Mailbox)
    → take_message m mask max_size ≡ ok (some got, after)
    → mbox_dequeue waits m mask max_size t ≡ ok (pos got.size, some got, after)
unfolding mbox_dequeue after_pass
dequeue_takes [] m mask max_size t got after e = ap (λ r. r >>= after_pass none out_of_fuel t) e
dequeue_takes (wait ∷ waits) m mask max_size t got after e =
    ap (λ r. r >>= after_pass (some wait) (mbox_dequeue waits (wait.others m) mask max_size t) t) e

pub int32-pos : (n : ℕ) → n < 2147483648 → int32 n ≡ pos n
int32-pos n h = ground arith

answer_filled :
    (caller : Caller) (req : RecvReq)
    → caller.writable recv_req_size ≡ true
    → 0 < req.out_size
    → req.out_size < 2147483648
    → received_request caller req (pos req.out_size) ≡ (pos req.out_size, request req)
unfolding received_request
answer_filled caller req writable some_bytes few =
    let P : ℤ × Copied → Type 0 = λ t. t ≡ (pos req.out_size, request req) in
    if_intro P (ltb 0 req.out_size) _ _
      (λ _.
        if_intro P (caller.writable recv_req_size) _ _
          (λ _. ap (λ n. (n, request req)) (int32-pos req.out_size few)) (λ e. ground arith))
      (λ e. ground arith)

-- MBOX_IOC_RECV, when a message of at least one byte and below 2^31 is there and the caller's
-- memory can be read and written, takes the message, returns its size, and copies the request
-- alone, with the size and with 0 as the message's identifier; the payload reaches nobody.
pub ioctl_recv-drops_payload :
    (caller : Caller) (waits : List Wait) (fd : FileData) (m : Mailbox) (req : RecvReq)
    (got : Received) (after : Mailbox)
    → caller.readable ≡ true
    → caller.memory ≡ true
    → caller.writable recv_req_size ≡ true
    → 0 < got.size
    → got.size < 2147483648
    → take_message m req.channel_mask m.queue.msg_size ≡ ok (some got, after)
    → (req' : RecvReq) × (ioctl_recv caller waits fd m req
        ≡ ok (outcome fd after (request req') (pos got.size)))
      × (req'.out_size ≡ got.size)
      × (req'.out_msg_id ≡ 0)
unfolding ioctl_recv filled
ioctl_recv-drops_payload caller waits fd m req got after readable room writable some_bytes few e =
    let P : Run Outcome → Type 0 =
      λ t. t ≡ ok (outcome fd after (request (filled req (some got))) (pos got.size)) in
    let d =
      dequeue_takes waits m req.channel_mask m.queue.msg_size (int32 req.timeout_ms) got after e in
    (
      filled req (some got),
      if_intro P (not caller.readable) _ _ (λ e. ground arith)
          (λ _.
            if_intro P (not caller.memory) _ _ (λ e. ground arith)
              (λ _.
                ap
                  (λ (r : Run Dequeued). r >>= λ (ret, got, after).
                    let answer = received_request caller (filled req got) ret in
                    ok (outcome fd after answer.1 answer.0))
                  d
                ∙ ap (λ (t : ℤ × Copied). ok (outcome fd after t.1 t.0))
                    (answer_filled caller (filled req (some got)) writable some_bytes few))),
      refl,
      refl,
    )
