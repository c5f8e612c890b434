-- ===== src/Mailbox/Answers.antt =====
-- What the file operations of mailbox_framework/kernel/mbox_kern.c answer on a full and on an
-- empty mailbox.
use Prim.Native.Nat.{bit_and}
use c_data_structures.Prelude.{
  ℕ, zero, suc, ◌<◌, ◌≤◌, ◌≡◌, ◌∙◌, refl, ap, true, not, ◌||◌, ◌&&◌, none, some, List, [], ◌∷◌,
  arith, ltb, leb, ◌==◌, if_intro, length, get_or, drop,
}
use c_data_structures.Prelude.Int.{ℤ, pos, negsuc}
use c_data_structures.Prelude.Run.{Run, ok, fault, out_of_fuel, ◌>>=◌}
use c_data_structures.Mailbox.Memory.{Memory}
use c_data_structures.Mailbox.Types.{
  MboxQueue, Mailbox, RecvReq, FileData, minus_err_nobufs, minus_err_wouldblock,
}
use c_data_structures.Mailbox.Transfer.{mbox_enqueue, mbox_queue_full, unlocked, flag_urgent}
use c_data_structures.Mailbox.Receive.{
  Wait, Dequeued, find_entry, taken, take_message, after_pass, mbox_dequeue,
}
use c_data_structures.Mailbox.Files.{
  Caller, Outcome, outcome, data_bytes, mbox_write, tmp_bytes, read_simple, mbox_read,
  send_req_size, recv_req_size, field32,
}
use c_data_structures.Mailbox.RoundTrip.{unlocked-mailbox}

-- Nothing was put into the mailbox.
abbrev pub Unsent : Mailbox → Mailbox → Type 0
Unsent m m' =
    (m'.entries ≡ m.entries)
    × (m'.queue.head ≡ m.queue.head)
    × (m'.queue.count ≡ m.queue.count)
    × (m'.queue.total_sent ≡ m.queue.total_sent)

full-Unsent :
    (pid : ℕ) (m : Mailbox) (channel : ℕ) (payload : List ℕ) (flags : ℕ)
    → m.queue.depth ≤ m.queue.count
    → Unsent m (mbox_enqueue pid m channel payload flags).1
unfolding mbox_enqueue mbox_queue_full
full-Unsent pid m channel payload flags full =
    let Goal : ℤ × Mailbox → Type 0 = λ t. Unsent m t.1 in
    if_intro Goal (ltb m.queue.msg_size (length payload)) _ _ (λ e. (refl, refl, refl, refl))
      (λ e.
        if_intro Goal (leb m.queue.depth m.queue.count) _ _
          (λ e. unlocked-Unsent minus_err_nobufs _ (
            if_intro (λ (t : Mailbox). Unsent m t) (bit_and flags flag_urgent == 0) _ _
              (λ e. (refl, refl, refl, refl)) (λ e. (refl, refl, refl, refl))))
          (λ e. ground arith))
  where
    unlocked-Unsent : (ret : ℤ) (t : Mailbox) → Unsent m t → Unsent m (unlocked ret t).1
    unlocked-Unsent ret t (a, b, c, d) =
        let (e, f) = unlocked-mailbox ret t in
        (f ∙ a, ap (λ q. q.head) e ∙ b, ap (λ q. q.count) e ∙ c, ap (λ q. q.total_sent) e ∙ d)

-- `mbox_write` to a full mailbox, of readable bytes whose payload fits, returns the number of
-- bytes as if they were sent, and puts no message into the mailbox.
pub mbox_write-full :
    (caller : Caller) (fd : FileData) (m : Mailbox) (buf : List ℕ)
    → fd.attached ≡ true
    → caller.readable ≡ true
    → length (drop send_req_size buf) ≤ m.queue.msg_size
    → m.queue.depth ≤ m.queue.count
    → (r : Outcome) × (mbox_write caller fd m buf ≡ ok r)
      × (r.ret ≡ pos (length buf))
      × Unsent m r.mbox
unfolding mbox_write
mbox_write-full caller fd m buf here readable fits full =
    let P : Run Outcome → Type 0 =
      λ t. (r : Outcome) × (t ≡ ok r) × (r.ret ≡ pos (length buf)) × Unsent m r.mbox in
    if_intro P (not fd.attached) _ _ (λ e. ground arith)
      (λ e.
        if_intro P (ltb (length buf) send_req_size) _ _
          (λ e. (_, refl, refl, full-Unsent caller.pid m 0 buf 0 full))
          (λ e.
            if_intro P (not caller.readable) _ _ (λ e. ground arith)
              (λ e.
                if_intro P (ltb m.queue.msg_size (length (drop send_req_size buf))) _ _
                  (λ e. ground arith)
                  (λ e. (
                    _,
                    refl,
                    refl,
                    full-Unsent caller.pid m (get_or buf 0 0) (drop send_req_size buf)
                        (field32 buf 8) full,
                  )))))

find_entry-at_head :
    (left : ℕ) (q : MboxQueue) (m : Memory) (mask i : ℕ)
    → i ≡ q.head
    → find_entry left q m mask i ≡ ok none
unfolding find_entry
find_entry-at_head zero q m mask i e = refl
find_entry-at_head (suc left) q m mask i e = ground arith

take_message-empty :
    (m : Mailbox) (mask max_size : ℕ)
    → m.queue.tail ≡ m.queue.head
    → take_message m mask max_size ≡ ok (none, m)
unfolding take_message taken
take_message-empty m mask max_size e =
    ap (λ r. r >>= λ found. ok (taken m max_size found))
      (find_entry-at_head m.queue.depth m.queue m.entries mask m.queue.tail e)

dequeue_empty :
    (waits : List Wait) (m : Mailbox) (mask max_size : ℕ)
    → m.queue.tail ≡ m.queue.head
    → mbox_dequeue waits m mask max_size (pos 0) ≡ ok (minus_err_wouldblock, none, m)
unfolding mbox_dequeue after_pass
dequeue_empty [] m mask max_size e =
    ap (λ r. r >>= after_pass none out_of_fuel (pos 0)) (take_message-empty m mask max_size e)
dequeue_empty (wait ∷ waits) m mask max_size e =
    ap
      (λ r.
        r
        >>= after_pass (some wait) (mbox_dequeue waits (wait.others m) mask max_size (pos 0))
            (pos 0))
      (take_message-empty m mask max_size e)

read_simple-seven :
    (caller : Caller) (fd : FileData) (m : Mailbox)
    → caller.memory ≡ true
    → caller.writable 7 ≡ true
    → 7 ≤ m.queue.msg_size
    → read_simple caller fd m (pos 7) none
      ≡ ok (outcome fd m (data_bytes (0 ∷ 0 ∷ 0 ∷ 0 ∷ 0 ∷ 0 ∷ 0 ∷ [])) (pos 7))
unfolding read_simple tmp_bytes
read_simple-seven caller fd m room writable size =
    let P : Run Outcome → Type 0 =
      λ t. t ≡ ok (outcome fd m (data_bytes (0 ∷ 0 ∷ 0 ∷ 0 ∷ 0 ∷ 0 ∷ 0 ∷ [])) (pos 7)) in
    if_intro P ((not caller.memory && ltb 0 7) || ltb m.queue.msg_size 7) _ _ (λ e. ground arith)
      (λ e. if_intro P (caller.writable 7) _ _ (λ e. refl) (λ e. ground arith))

-- `mbox_read` of less than 24 bytes from a mailbox without a message, with the memory granted
-- and the caller's buffer writable, returns 7 and copies seven zero bytes, whatever the room
-- that the caller asked for.
pub mbox_read-empty :
    (caller : Caller) (waits : List Wait) (fd : FileData) (m : Mailbox) (count : ℕ) (req : RecvReq)
    → fd.attached ≡ true
    → caller.memory ≡ true
    → caller.writable 7 ≡ true
    → 7 ≤ m.queue.msg_size
    → count < 24
    → m.queue.tail ≡ m.queue.head
    → mbox_read caller waits fd m count req
      ≡ ok (outcome fd m (data_bytes (0 ∷ 0 ∷ 0 ∷ 0 ∷ 0 ∷ 0 ∷ 0 ∷ [])) (pos 7))
unfolding mbox_read
mbox_read-empty caller waits fd m count req here room writable size short empty =
    let e = dequeue_empty waits m fd.channel_mask m.queue.msg_size empty in
    let P : Run Outcome → Type 0 =
      λ t. t ≡ ok (outcome fd m (data_bytes (0 ∷ 0 ∷ 0 ∷ 0 ∷ 0 ∷ 0 ∷ 0 ∷ [])) (pos 7)) in
    if_intro P (not fd.attached) _ _ (λ e. ground arith)
      (λ _.
        if_intro P (ltb count recv_req_size) _ _
          (λ _.
            ap
              (λ (r : Run Dequeued). r >>= λ (ret, got, after). read_simple caller fd after ret got)
              e
            ∙ read_simple-seven caller fd m room writable size)
          (λ e. ground arith))

-- A negative timeout on a mailbox without a message: a variable that was never set is used.
mbox_dequeue-infinite :
    (waits : List Wait) (m : Mailbox) (mask max_size n : ℕ)
    → m.queue.tail ≡ m.queue.head
    → mbox_dequeue waits m mask max_size (negsuc n) ≡ fault
unfolding mbox_dequeue after_pass
mbox_dequeue-infinite [] m mask max_size n e =
    ap (λ r. r >>= after_pass none out_of_fuel (negsuc n)) (take_message-empty m mask max_size e)
mbox_dequeue-infinite (wait ∷ waits) m mask max_size n e =
    ap
      (λ r.
        r
        >>= after_pass (some wait) (mbox_dequeue waits (wait.others m) mask max_size (negsuc n))
            (negsuc n))
      (take_message-empty m mask max_size e)
