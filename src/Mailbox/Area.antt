-- ===== src/Mailbox/Area.antt =====
-- The shared memory area of a mailbox of mailbox_framework/kernel/mbox_kern.c and what is stored in it.
use native.Mathlib.Nat.{mod-lt}
use Prim.Native.Nat.{bit_and}
use c_data_structures.Prelude.{
  ℕ, ◌+◌, ◌*◌, ◌%◌, ◌<◌, ◌≤◌, ◌≡◌, ◌∙◌, inr, refl, ap, List, arith, ltb, leb, ◌==◌, if_intro,
  length,
}
use c_data_structures.Prelude.Int.{ℤ}
use c_data_structures.Mailbox.Memory.{Memory}
use c_data_structures.Mailbox.Types.{MboxQueue, Mailbox, u32}
use c_data_structures.Mailbox.Transfer.{
  unlocked, mbox_get_entry, mbox_enqueue, mbox_queue_full, flag_urgent,
}
use c_data_structures.Mailbox.Manage.{total_size, queue_size}
use c_data_structures.Mailbox.Letter.{fill_entry-outside}
use c_data_structures.Mailbox.RoundTrip.{unlocked-mailbox}

-- An entry with a payload that fits ends inside the area.
pub entry_ends :
    (q : MboxQueue) (idx size : ℕ)
    → 0 < q.depth
    → size ≤ q.msg_size
    → queue_size + mbox_get_entry q idx + 20 + size ≤ total_size q.depth q.msg_size
unfolding mbox_get_entry total_size
entry_ends q idx size deep fits =
    let inside : idx % q.depth < q.depth = mod-lt idx deep in
    let room : q.msg_size ≤ q.depth * q.msg_size = grind arith in
    let split : q.depth * (20 + q.msg_size) ≡ q.depth * 20 + q.depth * q.msg_size = grind arith in
    omega arith

-- `mbox_enqueue` changes no byte behind the shared memory area that `mbox_create` allocates for
-- the mailbox's depth and message size, whatever the payload's size; the depth is not 0.
pub mbox_enqueue-inside :
    (pid : ℕ) (mbox : Mailbox) (channel : ℕ) (payload : List ℕ) (flags i : ℕ)
    → 0 < mbox.queue.depth
    → total_size mbox.queue.depth mbox.queue.msg_size ≤ queue_size + i
    → (mbox_enqueue pid mbox channel payload flags).1.entries i ≡ mbox.entries i
unfolding mbox_enqueue mbox_queue_full
mbox_enqueue-inside pid mbox channel payload flags i deep beyond =
    let Goal : ℤ × Mailbox → Type 0 = λ t. t.1.entries i ≡ mbox.entries i in
    let q = mbox.queue in
    let same : (ret : ℤ) (m : Mailbox) → m.entries i ≡ mbox.entries i → Goal (unlocked ret m) =
      λ ret m e. ap (λ (f : Memory). f i) (unlocked-mailbox ret m).1 ∙ e in
    if_intro Goal (ltb q.msg_size (length payload)) _ _ (λ e. refl)
      (λ fits.
        if_intro Goal (leb q.depth q.count) _ _
          (λ full. same _ _ (
            if_intro (λ (m : Mailbox). m.entries i ≡ mbox.entries i)
              (bit_and flags flag_urgent == 0) _ _ (λ e. refl) (λ e. refl)))
          (λ room. same _ _ (
            fill_entry-outside mbox.entries (mbox_get_entry q q.head) (u32 (q.total_sent + 1)) pid
              channel flags payload i
              (inr (omega (arith, entry_ends q q.head (length payload) deep (ground arith)))))))
