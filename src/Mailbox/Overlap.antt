-- ===== src/Mailbox/Overlap.antt =====
-- Two messages in a row in mailbox_framework/kernel/mbox_kern.c: their entries are 20 bytes apart.
use native.Mathlib.Nat.{mod-add-mod, mod-eq_of_lt}
use c_data_structures.Prelude.{
  ℕ, ◌+◌, ◌*◌, ◌%◌, ◌<◌, ◌≤◌, ◌≡◌, ◌≢◌, ◌∙◌, inl, sym, ap, ap₂, true, some, List, ◌++◌, arith,
  length,
}
use c_data_structures.Prelude.Run.{ok}
use c_data_structures.Mailbox.Memory.{Memory, get_bytes, get_bytes-put_bytes}
use c_data_structures.Mailbox.Types.{u16, u32, Mailbox, Received}
use c_data_structures.Mailbox.Transfer.{header, fill_entry, mbox_get_entry, sent, mbox_enqueue}
use c_data_structures.Mailbox.Receive.{matches, read_entry, taken, take_message}
use c_data_structures.Mailbox.Window.{IsQueue}
use c_data_structures.Mailbox.Letter.{
  fill_entry-header, fill_entry-outside, IsHeader, IsHeader-read_entry,
}
use c_data_structures.Mailbox.RoundTrip.{mbox_enqueue-stored, take_message-here, matches-lt}
use c_data_structures.Mailbox.Overlay.{overlay, get_bytes-fill_entry}

-- Two entries, 20 bytes apart.
module _ (m : Memory) (entry msg_id pid channel flags : ℕ) (payload : List ℕ)
    (msg_id' pid' channel' flags' : ℕ) (payload' : List ℕ) where
  abbrev one_entry : Memory
  one_entry = fill_entry m entry msg_id pid channel flags payload

  abbrev two_entries : Memory
  two_entries = fill_entry one_entry (entry + 20) msg_id' pid' channel' flags' payload'

  -- The first message, as it is read then.
  abbrev pub damaged : Received
  damaged = record {
    msg_id = u32 msg_id;
    channel = channel % 256;
    flags = flags % 256;
    size = length payload;
    payload =
        overlay payload (header msg_id' pid' channel' flags' (u16 (length payload')) ++ payload');
  }

  two_entries-IsHeader : IsHeader two_entries entry msg_id pid channel flags (length payload)
  two_entries-IsHeader i lt =
      fill_entry-outside one_entry (entry + 20) msg_id' pid' channel' flags' payload' (entry + i)
        (inl (omega arith))
      ∙ fill_entry-header m entry msg_id pid channel flags payload i lt

  one_entry-payload : get_bytes one_entry (entry + 20) (length payload) ≡ payload
  unfolding fill_entry
  one_entry-payload = get_bytes-put_bytes _ (entry + 20) payload

  read_entry-two_entries :
      (max_size : ℕ)
      → length payload < 65536
      → length payload ≤ max_size
      → read_entry two_entries entry max_size ≡ damaged
  read_entry-two_entries max_size short fits =
      let got =
        IsHeader-read_entry two_entries entry msg_id pid channel flags (length payload) max_size
          two_entries-IsHeader short fits in
      let bytes =
        get_bytes-fill_entry one_entry (entry + 20) msg_id' pid' channel' flags' payload'
          (length payload) in
      let own = one_entry-payload in got ∙ cc

mod-next : (a d : ℕ) → a % d + 1 < d → (a + 1) % d ≡ a % d + 1
mod-next a d h = sym (mod-add-mod a d 1) ∙ mod-eq_of_lt h

-- The next message that a pass takes is `got`.
abbrev pub TakesFirst : Mailbox → (mask : ℕ) → Received → Type 0
TakesFirst m mask got =
    (after : Mailbox) × (take_message m mask m.queue.msg_size ≡ ok (some got, after))

take-TakesFirst :
    (m : Mailbox) (mask : ℕ) {got : Received}
    → 0 < m.queue.depth
    → m.queue.tail ≢ m.queue.head
    → matches mask got.channel ≡ ok true
    → read_entry m.entries (mbox_get_entry m.queue m.queue.tail) m.queue.msg_size ≡ got
    → TakesFirst m mask got
unfolding taken read_entry
take-TakesFirst m mask deep more match e = (
  (taken m m.queue.msg_size (some m.queue.tail)).1,
  take_message-here m mask m.queue.msg_size deep more
        (ap (λ (r : Received). matches mask r.channel) e ∙ match)
      ∙ ap (λ (r : Received). ok (some r, (taken m m.queue.msg_size (some m.queue.tail)).1)) e,
)

module _ (mbox : Mailbox) (pid channel : ℕ) (payload : List ℕ) (flags : ℕ) (pid' channel' : ℕ)
    (payload' : List ℕ) (flags' : ℕ) where
  abbrev pub one_sent : Mailbox
  one_sent = (mbox_enqueue pid mbox channel payload flags).1

  abbrev pub two_sent : Mailbox
  two_sent = (mbox_enqueue pid' one_sent channel' payload' flags').1

  -- The queue of `two_sent` and its entries.
  abbrev TwoSent : Type 0
  TwoSent =
      (two_sent.queue.tail ≡ mbox.queue.tail)
      × (two_sent.queue.head ≡ u32 (mbox.queue.head + 2))
      × (two_sent.queue.depth ≡ mbox.queue.depth)
      × (two_sent.queue.msg_size ≡ mbox.queue.msg_size)
      × (two_sent.entries
          ≡ two_entries mbox.entries (mbox_get_entry mbox.queue mbox.queue.head)
              (mbox.queue.total_sent + 1) pid channel flags payload (mbox.queue.total_sent + 2) pid'
              channel' flags' payload')

  two_sent-TwoSent :
      IsQueue mbox.queue
      → mbox.queue.head + 2 < 4294967296
      → mbox.queue.total_sent + 2 < 4294967296
      → mbox.queue.head % mbox.queue.depth + 1 < mbox.queue.depth
      → mbox.queue.count + 1 < mbox.queue.depth
      → length payload ≤ mbox.queue.msg_size
      → length payload' ≤ mbox.queue.msg_size
      → TwoSent
  unfolding sent mbox_get_entry
  two_sent-TwoSent h far many inner room fits fits' =
      let q = mbox.queue in
      let entry = mbox_get_entry q q.head in
      let (e1, f1) = mbox_enqueue-stored pid mbox channel payload flags fits (omega arith) in
      let head_eq = ap (λ q. q.head) e1 in
      let depth_eq = ap (λ q. q.depth) e1 in
      let size_eq = ap (λ q. q.msg_size) e1 in
      let count_eq = ap (λ q. q.count) e1 in
      let (e2, f2) =
        mbox_enqueue-stored pid' one_sent channel' payload' flags' (omega arith)
          (omega (arith, h.sane)) in
      let place : (q.head + 1) % 4294967296 ≡ q.head + 1 = omega arith in
      let next : mbox_get_entry one_sent.queue one_sent.queue.head ≡ entry + 20 =
        ap₂ (λ a b. a % b * 20) (head_eq ∙ place) depth_eq
        ∙ omega (arith, mod-next q.head q.depth inner) in
      let id_eq : u32 (q.total_sent + 1) ≡ q.total_sent + 1 = omega arith in
      let id_eq' : u32 (one_sent.queue.total_sent + 1) ≡ q.total_sent + 2 =
        omega (arith, ap (λ q. q.total_sent) e1) in
      (
        ap (λ q. q.tail) e2 ∙ ap (λ q. q.tail) e1,
        ap (λ q. q.head) e2 ∙ omega (arith, head_eq),
        ap (λ q. q.depth) e2 ∙ depth_eq,
        ap (λ q. q.msg_size) e2 ∙ size_eq,
        f2 ∙ cc,
      )

  -- When two messages are put into a valid mailbox without a message, in slots that follow each
  -- other in the array, the first is received with its own header fields but with the second's
  -- header and payload written over the first bytes of its payload, since the entries are 20
  -- bytes apart. The payloads fit a message, the first one's size fits 16 bits, and its channel
  -- is in the mask; the counters do not wrap.
  pub second-over_first :
      (mask : ℕ)
      → IsQueue mbox.queue
      → mbox.queue.head ≡ mbox.queue.tail
      → mbox.queue.head + 2 < 4294967296
      → mbox.queue.total_sent + 2 < 4294967296
      → mbox.queue.head % mbox.queue.depth + 1 < mbox.queue.depth
      → mbox.queue.count + 1 < mbox.queue.depth
      → length payload ≤ mbox.queue.msg_size
      → length payload' ≤ mbox.queue.msg_size
      → length payload < 65536
      → matches mask channel ≡ ok true
      → TakesFirst two_sent mask (record {
        msg_id = mbox.queue.total_sent + 1;
        channel = channel;
        flags = flags % 256;
        size = length payload;
        payload = overlay payload (
            header (mbox.queue.total_sent + 2) pid' channel' flags' (u16 (length payload'))
            ++ payload');
      })
  unfolding mbox_get_entry
  second-over_first mask h empty far many inner room fits fits' short match =
      let q = mbox.queue in
      let entry = mbox_get_entry q q.head in
      let (tail_eq, head_eq, depth_eq, size_eq, both) =
        two_sent-TwoSent h far many inner room fits fits' in
      let at : mbox_get_entry two_sent.queue two_sent.queue.tail ≡ entry =
        ap₂ (λ a b. a % b * 20) (tail_eq ∙ sym empty) depth_eq in
      let got =
        read_entry-two_entries mbox.entries entry (q.total_sent + 1) pid channel flags payload
          (q.total_sent + 2) pid' channel' flags' payload' q.msg_size short fits in
      let small = matches-lt mask channel match in
      let id_eq : u32 (q.total_sent + 1) ≡ q.total_sent + 1 = omega arith in
      let channel_eq : channel % 256 ≡ channel = omega arith in
      take-TakesFirst two_sent mask (omega (arith, h.holds_one)) (ground arith) match (cc)
