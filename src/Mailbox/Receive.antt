-- ===== src/Mailbox/Receive.antt =====
-- Receiving in mailbox_framework/kernel/mbox_kern.c: `mbox_dequeue` and `mbox_peek_nolock`.
use Prim.Native.Nat.{bit_and}
use c_data_structures.Prelude.{
  ℕ, zero, suc, ◌+◌, ◌^◌, Bool, not, Option, none, some, List, [], ◌∷◌, ltb, leb, ◌==◌,
  if◌then◌else◌,
}
use c_data_structures.Prelude.Int.{ℤ, pos, negsuc}
use c_data_structures.Prelude.Run.{Run, ok, fault, out_of_fuel, ◌>>=◌}
use c_data_structures.Mailbox.Memory.{Memory, get_bytes}
use c_data_structures.Mailbox.Types.{
  u32, u64, MboxQueue, Mailbox, Received, minus_err_timeout, minus_err_wouldblock,
}
use c_data_structures.Mailbox.Transfer.{
  entry_size, mbox_get_entry, entry_msg_id, entry_channel, entry_flags, entry_bytes,
}

-- `(1 << entry->channel) & channel_mask`; a shift by 32 or more is undefined.
unfoldable pub matches : (mask channel : ℕ) → Run Bool
matches mask channel = if ltb channel 32 then ok (not (bit_and mask (2 ^ channel) == 0)) else fault

-- The loop over the entries from `idx` on, with `left` tries: the index of the first that matches.
unfoldable pub find_entry : (left : ℕ) → MboxQueue → Memory → (mask idx : ℕ) → Run (Option ℕ)
find_entry zero q m mask idx = ok none
find_entry (suc left) q m mask idx =
    let rest = find_entry left q m mask (u32 (idx + 1)) in
    if idx == q.head
    then ok none
    else matches mask (entry_channel m (mbox_get_entry q idx)) >>= λ found.
        if found then ok (some idx) else rest

-- The entry as it is handed to a reader with room for `max_size` bytes.
unfoldable pub read_entry : Memory → (entry max_size : ℕ) → Received
read_entry m entry max_size =
    let size = entry_bytes m entry in
    record {
      msg_id = entry_msg_id m entry;
      channel = entry_channel m entry;
      flags = entry_flags m entry;
      size = size;
      payload = (if leb size max_size then get_bytes m (entry + entry_size) size else []);
    }

-- The queue header after the message at `idx` went out.
unfoldable pub received : MboxQueue → (idx size : ℕ) → MboxQueue
received q idx size = record q {
  tail = u32 (idx + 1);
  count = u32 (q.count + 4294967295);
  total_recv = u32 (q.total_recv + 1);
  bytes_recv = u64 (q.bytes_recv + size);
}

-- What is handed out when the search has ended, and the mailbox after it.
unfoldable pub taken : Mailbox → (max_size : ℕ) → Option ℕ → Option Received × Mailbox
taken mbox max_size none = (none, mbox)
taken mbox max_size (some idx) =
    let got = read_entry mbox.entries (mbox_get_entry mbox.queue idx) max_size in
    (some got, record mbox { queue = received mbox.queue idx got.size })

-- One pass of `mbox_dequeue` under the lock.
unfoldable pub take_message : Mailbox → (mask max_size : ℕ) → Run (Option Received × Mailbox)
take_message mbox mask max_size =
    let q = mbox.queue in
    find_entry q.depth q mbox.entries mask q.tail >>= λ found. ok (taken mbox max_size found)

-- A wait of `mbox_dequeue`: the milliseconds since its start when it looks at the clock, which fit an
-- `int`, what other
-- processes do to the mailbox while the lock is free, and what
-- `wait_event_interruptible_timeout` returns.
pub record Wait : Type 0 where
  pub elapsed_ms : ℕ
  pub others : Mailbox → Mailbox
  pub woken : ℤ

-- What `mbox_dequeue` returns, what it handed out, and the mailbox then.
abbrev pub Dequeued : Type 0
Dequeued = ℤ × Option Received × Mailbox

-- The rest of a round after `wait_event_interruptible_timeout` returned; `again` is the next round.
unfoldable pub after_wait : (woken : ℤ) → (again : Run Dequeued) → Mailbox → Run Dequeued
after_wait (pos zero) again mbox = ok (pos 0, none, mbox)
after_wait (pos (suc w)) again mbox = again
after_wait (negsuc w) again mbox = ok (minus_err_timeout, none, mbox)

-- The rest of a round after no message was found with a timeout of `n` milliseconds.
unfoldable pub wait_for_message : Wait → (again : Run Dequeued) → Mailbox → (n : ℕ) → Run Dequeued
wait_for_message wait again mbox n =
    if leb n wait.elapsed_ms
    then ok (minus_err_timeout, none, mbox)
    else after_wait wait.woken again (wait.others mbox)

-- The rest of a round after the pass under the lock. A negative timeout makes it wait for
-- `remaining_ms`, which nothing has set.
unfoldable pub after_pass :
    Option Wait
    → (again : Run Dequeued) → (timeout_ms : ℤ) → Option Received × Mailbox
    → Run Dequeued
after_pass wait again timeout_ms (some r, mbox) = ok (pos r.size, some r, mbox)
after_pass wait again (negsuc n) (none, mbox) = fault
after_pass wait again (pos zero) (none, mbox) = ok (minus_err_wouldblock, none, mbox)
after_pass none again (pos (suc n)) (none, mbox) = out_of_fuel
after_pass (some wait) again (pos (suc n)) (none, mbox) = wait_for_message wait again mbox (suc n)

-- `mbox_dequeue`, with the waits that the environment chooses as its fuel.
unfoldable pub mbox_dequeue :
    List Wait → Mailbox → (mask max_size : ℕ) → (timeout_ms : ℤ) → Run Dequeued
mbox_dequeue [] mbox mask max_size timeout_ms =
    take_message mbox mask max_size >>= after_pass none out_of_fuel timeout_ms
mbox_dequeue (wait ∷ waits) mbox mask max_size timeout_ms =
    let again = mbox_dequeue waits (wait.others mbox) mask max_size timeout_ms in
    take_message mbox mask max_size >>= after_pass (some wait) again timeout_ms

-- `mbox_peek_nolock`.
unfoldable pub mbox_peek_nolock : Mailbox → (mask max_size : ℕ) → Run (ℤ × Option Received)
mbox_peek_nolock mbox mask max_size =
    let q = mbox.queue in
    find_entry q.depth q mbox.entries mask q.tail >>= λ found. elim found [
      | none ↦ ok (minus_err_wouldblock, none)
      | some idx ↦
          let got = read_entry mbox.entries (mbox_get_entry q idx) max_size in
          ok (pos got.size, some got)
    ]
