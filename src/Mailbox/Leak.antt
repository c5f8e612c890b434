-- ===== src/Mailbox/Leak.antt =====
-- The slots that a receiver of mailbox_framework/kernel/mbox_kern.c passes over: they stay counted,
-- but never all of them.
use c_data_structures.Prelude.{ℕ, ◌<◌, ◌≤◌, ◌≡◌, false, List, arith, length, ltb}
use c_data_structures.Mailbox.Types.{MboxQueue, Mailbox}
use c_data_structures.Mailbox.Transfer.{mbox_queue_full, mbox_enqueue, sent}
use c_data_structures.Mailbox.Receive.{received}
use c_data_structures.Mailbox.Manage.{new_mailbox}
use c_data_structures.Mailbox.Ioctl.{ioctl_flush}
use c_data_structures.Mailbox.Window.{
  IsQueue, span, lost, Move, unmoved, urgent_drop, send, receive, sent-lost, unlocked-queue,
}
use c_data_structures.Mailbox.Steps.{
  Steps, start, step, flushed, Step-Move, Steps-IsQueue, new_mailbox-IsQueue,
}

-- Some slot is not lost.
abbrev pub HasSlot : MboxQueue → Type 0
HasSlot q = lost q < q.depth

Move-HasSlot : {q q' : MboxQueue} → Move q q' → IsQueue q → HasSlot q → HasSlot q'
unfolding lost span sent received
Move-HasSlot unmoved h s = s
Move-HasSlot urgent_drop h s = ground arith
Move-HasSlot {q = q} (send n room) h s = omega (arith, sent-lost q n h room)
Move-HasSlot {q = q} (receive j n fits within) h s = ground arith

flush-HasSlot : (m : Mailbox) → IsQueue m.queue → HasSlot (ioctl_flush m).queue
unfolding ioctl_flush lost span
flush-HasSlot m h = ground arith

Steps-HasSlot : {m m' : Mailbox} → IsQueue m.queue → HasSlot m.queue → Steps m m' → HasSlot m'.queue
Steps-HasSlot h s start = s
Steps-HasSlot h s (step before t) =
    let h' = Steps-IsQueue h before in Move-HasSlot (Step-Move h' t) h' (Steps-HasSlot h s before)
Steps-HasSlot h s (flushed before) = flush-HasSlot _ (Steps-IsQueue h before)

new_mailbox-HasSlot :
    (name : List ℕ) (id depth msg_size : ℕ)
    → 0 < depth
    → HasSlot (new_mailbox name id depth msg_size).queue
unfolding new_mailbox lost span
new_mailbox-HasSlot name id depth msg_size lo = ground arith

empty-not_full :
    (q : MboxQueue) → IsQueue q → HasSlot q → q.head ≡ q.tail → mbox_queue_full q ≡ false
unfolding mbox_queue_full lost span
empty-not_full q h s empty = ground arith

-- Whatever calls of processes and flushes have followed on a mailbox that `mbox_create` set up
-- with a valid depth: fewer slots are lost than there are, and where no message is left between
-- `tail` and `head`, `mbox_enqueue` of any payload that fits puts the message into the queue.
pub Steps-accepts :
    (name : List ℕ) (id depth msg_size : ℕ) {m : Mailbox}
    → 0 < depth
    → depth ≤ 4096
    → Steps (new_mailbox name id depth msg_size) m
    → (lost m.queue < m.queue.depth)
      × ((pid channel flags : ℕ) (payload : List ℕ)
          → m.queue.head ≡ m.queue.tail
          → length payload ≤ m.queue.msg_size
          → (mbox_enqueue pid m channel payload flags).1.queue ≡ sent m.queue (length payload))
unfolding mbox_enqueue
Steps-accepts name id depth msg_size {m = m} lo hi steps =
    let v = new_mailbox-IsQueue name id depth msg_size lo hi in
    let s = Steps-HasSlot v (new_mailbox-HasSlot name id depth msg_size lo) steps in
    let h = Steps-IsQueue v steps in
    (
      s,
      λ pid channel flags payload empty fits.
          let small : ltb m.queue.msg_size (length payload) ≡ false = ground arith in
          rw (small, empty-not_full m.queue h s empty) (unlocked-queue _ _),
    )
