-- ===== src/Mailbox/Window.antt =====
-- The indices of the queue of mailbox_framework/kernel/mbox_kern.c against its message count.
use c_data_structures.Prelude.{
  ℕ, zero, suc, ◌+◌, ◌-◌, ◌<◌, ◌≤◌, ◌≡◌, refl, Option, none, some, ltb, leb, ◌==◌, List, length,
  arith, if_intro, sym,
}
use Prim.Native.Nat.{bit_and}
use mathlib.Core.Path.{subst}
use c_data_structures.Prelude.Int.{ℤ, pos, negsuc}
use c_data_structures.Prelude.Run.{bind_ok, ok}
use c_data_structures.Mailbox.Memory.{Memory}
use c_data_structures.Mailbox.Types.{minus_err_nobufs, u32, MboxQueue, Mailbox, Received}
use c_data_structures.Mailbox.Transfer.{flag_urgent, mbox_queue_full, mbox_enqueue, unlocked, sent}
use c_data_structures.Mailbox.Receive.{taken, matches, find_entry, received, take_message}

-- The entries from `tail` to `head`.
unfoldable pub span : MboxQueue → ℕ
span q = u32 (q.head + 4294967296 - q.tail)

-- A queue between two operations.
pub record IsQueue (q : MboxQueue) : Type 0 where
  pub head_fits : q.head < 4294967296
  pub tail_fits : q.tail < 4294967296
  pub spanned : span q ≤ q.count
  pub bounded : q.count ≤ q.depth
  pub sane : q.depth ≤ 4096
  pub holds_one : 0 < q.depth

sent-IsQueue : (q : MboxQueue) (n : ℕ) → IsQueue q → q.count < q.depth → IsQueue (sent q n)
unfolding sent span
sent-IsQueue q n h room = ground arith

-- The slot that is found lies between `tail` and `head`.
pub find_entry-within :
    (left : ℕ) (q : MboxQueue) (m : Memory) (mask i j : ℕ)
    → i < 4294967296
    → q.head < 4294967296
    → find_entry left q m mask i ≡ ok (some j)
    → (j < 4294967296) × (u32 (j + 4294967296 - i) < u32 (q.head + 4294967296 - i))
unfolding find_entry matches
find_entry-within zero q m mask i j hi hh e = ground arith
find_entry-within (suc left) q m mask i j hi hh e =
    let again = find_entry-within left q m mask (u32 (i + 1)) j (omega arith) hh in ground arith

-- Slots that hold no message and count as taken.
unfoldable pub lost : MboxQueue → ℕ
lost q = q.count - span q

received-IsQueue :
    (q : MboxQueue) (j n : ℕ)
    → IsQueue q
    → j < 4294967296
    → u32 (j + 4294967296 - q.tail) < span q
    → IsQueue (received q j n)
unfolding received span
received-IsQueue q j n h fits within = ground arith

pub sent-lost : (q : MboxQueue) (n : ℕ) → IsQueue q → q.count < q.depth → lost (sent q n) ≡ lost q
unfolding sent lost span
sent-lost q n h room = ground arith

-- The receiver leaves behind the slots of the messages that it passes over.
pub received-lost :
    (q : MboxQueue) (j n : ℕ)
    → IsQueue q
    → j < 4294967296
    → u32 (j + 4294967296 - q.tail) < span q
    → lost (received q j n) ≡ lost q + u32 (j + 4294967296 - q.tail)
unfolding received lost span
received-lost q j n h fits within = ground arith

-- What the operations do to the queue of a mailbox, except for a flush.
pub data Move (q : MboxQueue) : MboxQueue → Type 0 where
  unmoved : Move q q
  urgent_drop : Move q (record q { messages_dropped = u32 (q.messages_dropped + 1) })
  send : (n : ℕ) → q.count < q.depth → Move q (sent q n)
  receive :
      (j n : ℕ) → j < 4294967296 → u32 (j + 4294967296 - q.tail) < span q → Move q (received q j n)

pub Move-IsQueue : {q q' : MboxQueue} → Move q q' → IsQueue q → IsQueue q'
unfolding span
Move-IsQueue unmoved h = h
Move-IsQueue urgent_drop h = ground arith
Move-IsQueue {q = q} (send n room) h = sent-IsQueue q n h room
Move-IsQueue {q = q} (receive j n fits within) h = received-IsQueue q j n h fits within

pub unlocked-queue : (ret : ℤ) (mbox : Mailbox) → (unlocked ret mbox).1.queue ≡ mbox.queue
unfolding unlocked
unlocked-queue (pos n) mbox = refl
unlocked-queue (negsuc n) mbox = refl

unlocked-Move :
    {q : MboxQueue} (ret : ℤ) (mbox : Mailbox)
    → Move q mbox.queue
    → Move q (unlocked ret mbox).1.queue
unlocked-Move {q} ret mbox = subst (Move q) (sym (unlocked-queue ret mbox))

pub mbox_enqueue-Move :
    (pid : ℕ) (mbox : Mailbox) (channel : ℕ) (payload : List ℕ) (flags : ℕ)
    → Move mbox.queue (mbox_enqueue pid mbox channel payload flags).1.queue
unfolding mbox_enqueue mbox_queue_full
mbox_enqueue-Move pid mbox channel payload flags =
    let P : ℤ × Mailbox → Type 0 = λ t. Move mbox.queue t.1.queue in
    if_intro P (ltb mbox.queue.msg_size (length payload)) _ _ (λ big. unmoved)
      (λ fits.
        if_intro P (leb mbox.queue.depth mbox.queue.count) _ _
          (λ full. unlocked-Move minus_err_nobufs _ (
            if_intro (λ (t : Mailbox). Move mbox.queue t.queue) (bit_and flags flag_urgent == 0) _ _
              (λ e. unmoved) (λ e. urgent_drop)))
          (λ room. unlocked-Move _ _ (send (length payload) (ground arith))))

taken-Move :
    (mbox : Mailbox) (mask max_size : ℕ) (found : Option ℕ)
    → IsQueue mbox.queue
    → find_entry mbox.queue.depth mbox.queue mbox.entries mask mbox.queue.tail ≡ ok found
    → Move mbox.queue (taken mbox max_size found).1.queue
unfolding taken span
taken-Move mbox mask max_size none h f = unmoved
taken-Move mbox mask max_size (some j) h f =
    let (fits, within) =
      find_entry-within mbox.queue.depth mbox.queue mbox.entries mask mbox.queue.tail j h.tail_fits
        h.head_fits f in
    receive j _ fits within

pub take_message-Move :
    (mbox : Mailbox) (mask max_size : ℕ) {r : Option Received × Mailbox}
    → IsQueue mbox.queue
    → take_message mbox mask max_size ≡ ok r
    → Move mbox.queue r.1.queue
unfolding take_message
take_message-Move mbox mask max_size h e =
    let (found, f, same) =
      bind_ok (find_entry mbox.queue.depth mbox.queue mbox.entries mask mbox.queue.tail)
        (taken mbox max_size) e in
    subst (λ (t : Option Received × Mailbox). Move mbox.queue t.1.queue) same
      (taken-Move mbox mask max_size found h f)
