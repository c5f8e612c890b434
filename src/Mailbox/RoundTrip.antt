-- ===== src/Mailbox/RoundTrip.antt =====
-- Sending a message and receiving it in mailbox_framework/kernel/mbox_kern.c.
use c_data_structures.Prelude.{
  ℕ, zero, suc, ◌+◌, ◌*◌, ◌%◌, ◌<◌, ◌≤◌, ◌≡◌, ◌≢◌, ◌∙◌, refl, sym, ap, ap₂, Bool, true, Option,
  some, List, arith, if◌then◌else◌, ltb, leb, ◌==◌, if_intro, length,
}
use c_data_structures.Prelude.Int.{ℤ, pos, negsuc}
use c_data_structures.Prelude.Run.{Run, ok, ◌>>=◌}
use c_data_structures.Mailbox.Memory.{Memory, get_bytes, get_bytes-put_bytes}
use c_data_structures.Mailbox.Types.{u32, MboxQueue, Mailbox, Received}
use c_data_structures.Mailbox.Transfer.{
  entry_channel, fill_entry, mbox_get_entry, unlocked, sent, mbox_queue_full, mbox_enqueue,
}
use c_data_structures.Mailbox.Receive.{
  matches, find_entry, received, read_entry, taken, take_message,
}
use c_data_structures.Mailbox.Window.{IsQueue}
use c_data_structures.Mailbox.Letter.{letter, fill_entry-header, IsHeader, IsHeader-read_entry}

-- The entries after a message was stored.
abbrev pub stored : (pid : ℕ) → Mailbox → (channel : ℕ) → List ℕ → (flags : ℕ) → Memory
stored pid mbox channel payload flags =
    fill_entry mbox.entries (mbox_get_entry mbox.queue mbox.queue.head)
      (u32 (mbox.queue.total_sent + 1)) pid channel flags payload

pub unlocked-mailbox :
    (ret : ℤ) (mbox : Mailbox)
    → ((unlocked ret mbox).1.queue ≡ mbox.queue) × ((unlocked ret mbox).1.entries ≡ mbox.entries)
unfolding unlocked
unlocked-mailbox (pos n) mbox = (refl, refl)
unlocked-mailbox (negsuc n) mbox = (refl, refl)

pub mbox_enqueue-stored :
    (pid : ℕ) (mbox : Mailbox) (channel : ℕ) (payload : List ℕ) (flags : ℕ)
    → length payload ≤ mbox.queue.msg_size
    → mbox.queue.count < mbox.queue.depth
    → ((mbox_enqueue pid mbox channel payload flags).1.queue ≡ sent mbox.queue (length payload))
      × ((mbox_enqueue pid mbox channel payload flags).1.entries
          ≡ stored pid mbox channel payload flags)
unfolding mbox_enqueue mbox_queue_full
mbox_enqueue-stored pid mbox channel payload flags fits room =
    let Goal : ℤ × Mailbox → Type 0 = λ t.
      (t.1.queue ≡ sent mbox.queue (length payload))
      × (t.1.entries ≡ stored pid mbox channel payload flags) in
    if_intro Goal (ltb mbox.queue.msg_size (length payload)) _ _ (λ e. ground arith)
      (λ e.
        if_intro Goal (leb mbox.queue.depth mbox.queue.count) _ _ (λ e. ground arith)
          (λ e. unlocked-mailbox _ _))

find_entry-here :
    (left : ℕ) (q : MboxQueue) (e : Memory) (mask i : ℕ)
    → 0 < left
    → i ≢ q.head
    → matches mask (entry_channel e (mbox_get_entry q i)) ≡ ok true
    → find_entry left q e mask i ≡ ok (some i)
unfolding find_entry
find_entry-here zero q e mask i deep some_left match = ground arith
find_entry-here (suc left) q e mask i deep some_left match =
    if_intro (λ (r : Run (Option ℕ)). r ≡ ok (some i)) (i == q.head) _ _ (λ h. ground arith)
      (λ h.
        ap
          (λ (r : Run Bool).
            r >>= λ found. if found then ok (some i) else find_entry left q e mask (u32 (i + 1)))
          match)

-- A pass over a mailbox whose next message is in the slot at `tail`.
pub take_message-here :
    (m : Mailbox) (mask max_size : ℕ)
    → 0 < m.queue.depth
    → m.queue.tail ≢ m.queue.head
    → matches mask (entry_channel m.entries (mbox_get_entry m.queue m.queue.tail)) ≡ ok true
    → take_message m mask max_size ≡ ok (taken m max_size (some m.queue.tail))
unfolding take_message
take_message-here m mask max_size deep some_left match =
    ap (λ r. r >>= λ found. ok (taken m max_size found))
      (find_entry-here m.queue.depth m.queue m.entries mask m.queue.tail deep some_left match)

pub matches-lt : (mask channel : ℕ) → matches mask channel ≡ ok true → channel < 32
unfolding matches
matches-lt mask channel e = ground arith

-- A pass over the mailbox `m` takes a message with the fields and bytes in `got`, and no slot is
-- left in use.
abbrev pub TakesLast : Mailbox → (mask : ℕ) → (count : ℕ) → Received → Type 0
TakesLast m mask count got =
    (after : Mailbox) × (take_message m mask m.queue.msg_size ≡ ok (some got, after))
    × (after.queue.head ≡ after.queue.tail)
    × (after.queue.count ≡ count)

stored-TakesLast :
    (pid : ℕ) (mbox m : Mailbox) (channel : ℕ) (payload : List ℕ) (flags mask : ℕ)
    → IsQueue mbox.queue
    → mbox.queue.head ≡ mbox.queue.tail
    → mbox.queue.count < mbox.queue.depth
    → length payload ≤ mbox.queue.msg_size
    → length payload < 65536
    → matches mask channel ≡ ok true
    → m.queue ≡ sent mbox.queue (length payload)
    → m.entries ≡ stored pid mbox channel payload flags
    → TakesLast m mask mbox.queue.count
        (letter (u32 (mbox.queue.total_sent + 1)) channel flags payload)
unfolding taken received sent mbox_get_entry fill_entry
stored-TakesLast pid mbox m channel payload flags mask h empty room fits short match e1 e2 =
    let entry = mbox_get_entry mbox.queue mbox.queue.head in
    let head_eq = ap (λ q. q.head) e1 in
    let tail_eq = ap (λ q. q.tail) e1 in
    let depth_eq = ap (λ q. q.depth) e1 in
    let size_eq = ap (λ q. q.msg_size) e1 in
    let count_eq = ap (λ q. q.count) e1 in
    let same : mbox_get_entry m.queue m.queue.tail ≡ entry =
      ap₂ (λ a b. a % b * 20) (tail_eq ∙ sym empty) depth_eq in
    let heading : IsHeader m.entries entry (u32 (mbox.queue.total_sent + 1)) pid channel flags
        (length payload) =
      λ i lt.
        ap (λ (e : Memory). e (entry + i)) e2
        ∙ fill_entry-header mbox.entries entry _ pid channel flags payload i lt in
    let small = matches-lt mask channel match in
    let got =
      IsHeader-read_entry m.entries entry _ pid channel flags (length payload) m.queue.msg_size
        heading short (omega arith) in
    let bytes : get_bytes m.entries (entry + 20) (length payload) ≡ payload =
      ap (λ (e : Memory). get_bytes e (entry + 20) (length payload)) e2
      ∙ get_bytes-put_bytes _ (entry + 20) payload in
    let id_eq : u32 (u32 (mbox.queue.total_sent + 1)) ≡ u32 (mbox.queue.total_sent + 1) =
      omega arith in
    let channel_eq : channel % 256 ≡ channel = omega arith in
    let found : m.entries (mbox_get_entry m.queue m.queue.tail + 16) ≡ channel =
      ap (λ e. m.entries (e + 16)) same ∙ (heading 16 (omega arith) ∙ channel_eq) in
    let readback : read_entry m.entries (mbox_get_entry m.queue m.queue.tail) m.queue.msg_size
        ≡ letter (u32 (mbox.queue.total_sent + 1)) channel flags payload =
      ap (λ e. read_entry m.entries e m.queue.msg_size) same ∙ (got ∙ cc) in
    let after = (taken m m.queue.msg_size (some m.queue.tail)).1 in
    (
      after,
      take_message-here m mask m.queue.msg_size (omega arith) (ground arith)
            (ap (matches mask) found ∙ match)
          ∙ ap (λ (r : Received). ok (some r, after)) readback,
      omega arith,
      omega arith,
    )

-- On a valid mailbox without a message and with a free slot, after `mbox_enqueue` of a payload
-- that fits a message and 16 bits, on a channel below 32 that the mask has, the next pass of
-- `mbox_dequeue` hands out the message: the next identifier, the channel, the low byte of the
-- flags, and the payload's bytes; it leaves no message and the count as it was.
pub mbox_enqueue-take_message :
    (pid : ℕ) (mbox : Mailbox) (channel : ℕ) (payload : List ℕ) (flags mask : ℕ)
    → IsQueue mbox.queue
    → mbox.queue.head ≡ mbox.queue.tail
    → mbox.queue.count < mbox.queue.depth
    → length payload ≤ mbox.queue.msg_size
    → length payload < 65536
    → matches mask channel ≡ ok true
    → TakesLast
        (mbox_enqueue pid mbox channel payload flags).1
        mask
        mbox.queue.count
        (letter (u32 (mbox.queue.total_sent + 1)) channel flags payload)
mbox_enqueue-take_message pid mbox channel payload flags mask h empty room fits short match =
    let (e1, e2) = mbox_enqueue-stored pid mbox channel payload flags fits room in
    stored-TakesLast pid mbox (mbox_enqueue pid mbox channel payload flags).1 channel payload flags
      mask h empty room fits short match e1 e2
