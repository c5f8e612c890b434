-- ===== src/Mailbox/Transfer.antt =====
-- The queue operations of mailbox_framework/kernel/mbox_kern.c, from `mbox_queue_full` to
-- `mbox_enqueue`. A payload is the bytes at a pointer that is not NULL, as every caller passes.
use Prim.Native.Nat.{bit_and}
use c_data_structures.Prelude.{
  ℕ, ◌+◌, ◌*◌, ◌%◌, Bool, List, ◌∷◌, ◌++◌, ltb, leb, ◌==◌, if◌then◌else◌, length,
}
use c_data_structures.Prelude.Int.{ℤ, pos, negsuc}
use c_data_structures.Mailbox.Memory.{Memory, put_bytes, bytes16, bytes32, get16, get32}
use c_data_structures.Mailbox.Types.{
  u16, u32, u64, int32, MboxQueue, Mailbox, minus_err_nobufs, minus_err_toobig,
}

-- `sizeof(struct mbox_msg_entry)`; the payload begins there.
abbrev pub entry_size : ℕ
entry_size = 20

abbrev pub flag_urgent : ℕ
flag_urgent = 1

unfoldable pub mbox_queue_full : MboxQueue → Bool
mbox_queue_full q = leb q.depth q.count

unfoldable pub mbox_queue_empty : MboxQueue → Bool
mbox_queue_empty q = q.count == 0

-- `mbox_get_entry`, as the offset of the entry: an index moves by the size of the structure alone.
unfoldable pub mbox_get_entry : MboxQueue → ℕ → ℕ
mbox_get_entry q idx = idx % q.depth * entry_size

-- The fields of an entry.
abbrev pub entry_msg_id : Memory → ℕ → ℕ
entry_msg_id m entry = get32 m entry

abbrev pub entry_channel : Memory → ℕ → ℕ
entry_channel m entry = m (entry + 16)

abbrev pub entry_flags : Memory → ℕ → ℕ
entry_flags m entry = m (entry + 17)

abbrev pub entry_bytes : Memory → ℕ → ℕ
entry_bytes m entry = get16 m (entry + 18)

-- The bytes of an entry's header.
abbrev pub header : (msg_id pid channel flags size : ℕ) → List ℕ
header msg_id pid channel flags size =
    bytes32 msg_id
    ++ (bytes32 0
        ++ (bytes32 0 ++ (bytes32 pid ++ ((channel % 256) ∷ (flags % 256) ∷ bytes16 size))))

-- The entry at `entry`, filled.
unfoldable pub fill_entry : Memory → (entry msg_id pid channel flags : ℕ) → List ℕ → Memory
fill_entry m entry msg_id pid channel flags payload =
    put_bytes (put_bytes m entry (header msg_id pid channel flags (u16 (length payload))))
      (entry + entry_size) payload

-- `wake_up_interruptible`.
abbrev pub wake_up : Mailbox → Mailbox
wake_up mbox = record mbox { wakeups = mbox.wakeups + 1 }

-- `if (ret >= 0) wake_up_interruptible(&mbox->waitq); return ret;`
unfoldable pub unlocked : ℤ → Mailbox → ℤ × Mailbox
unlocked (pos n) mbox = (pos n, wake_up mbox)
unlocked (negsuc n) mbox = (negsuc n, mbox)

-- The queue header after a message of `size` bytes went in.
unfoldable pub sent : MboxQueue → (size : ℕ) → MboxQueue
sent q size = record q {
  head = u32 (q.head + 1);
  count = u32 (q.count + 1);
  total_sent = u32 (q.total_sent + 1);
  bytes_sent = u64 (q.bytes_sent + size);
}

unfoldable pub mbox_enqueue :
    (pid : ℕ) → Mailbox → (channel : ℕ) → (payload : List ℕ) → (flags : ℕ) → ℤ × Mailbox
mbox_enqueue pid mbox channel payload flags =
    let q = mbox.queue in
    let entry = mbox_get_entry q q.head in
    let m = fill_entry mbox.entries entry (u32 (q.total_sent + 1)) pid channel flags payload in
    if ltb q.msg_size (length payload)
    then (minus_err_toobig, mbox)
    else if mbox_queue_full q
    then unlocked minus_err_nobufs (
        if bit_and flags flag_urgent == 0
        then mbox
        else record mbox { queue = record q { messages_dropped = u32 (q.messages_dropped + 1) } })
    else unlocked (int32 (entry_msg_id m entry))
        (record mbox { queue = sent q (length payload); entries = m })
