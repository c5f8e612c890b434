-- ===== src/Mailbox/Returns.antt =====
-- `mbox_dequeue` of mailbox_framework/kernel/mbox_kern.c comes to an end.
use mathlib.Core.Path.{subst}
use c_data_structures.Prelude.{
  ℕ, zero, suc, ◌+◌, ◌<◌, ◌≤◌, ◌≡◌, ◌⊎◌, inl, inr, refl, sym, Option, none, some, List, [], ◌∷◌,
  arith, ltb, leb, ◌==◌, if_intro,
}
use c_data_structures.Prelude.Int.{ℤ, pos, negsuc}
use c_data_structures.Prelude.Run.{Run, ok, fault, out_of_fuel, ◌>>=◌}
use c_data_structures.Mailbox.Memory.{Memory}
use c_data_structures.Mailbox.Types.{u32, MboxQueue, Mailbox, Received}
use c_data_structures.Mailbox.Transfer.{mbox_get_entry, entry_channel}
use c_data_structures.Mailbox.Receive.{
  Wait, Dequeued, matches, find_entry, take_message, after_wait, wait_for_message, after_pass,
  mbox_dequeue,
}

-- The channel of every slot can be shifted by.
abbrev pub SmallChannels : MboxQueue → Memory → Type 0
SmallChannels q e = (i : ℕ) → entry_channel e (mbox_get_entry q i) < 32

abbrev pub Returns {ℓ} : {A : Type ℓ} → Run A → Type ℓ
Returns {A = A} r = (a : A) × (r ≡ ok a)

bind-Returns {ℓ κ} :
    {A : Type ℓ} {B : Type κ} (r : Run A) (f : A → Run B)
    → Returns r
    → ((a : A) → Returns (f a))
    → Returns (r >>= f)
bind-Returns (ok a) f h next = next a
bind-Returns fault f (a, e) next = ground arith
bind-Returns out_of_fuel f (a, e) next = ground arith

matches-Returns : (mask channel : ℕ) → channel < 32 → Returns (matches mask channel)
unfolding matches
matches-Returns mask channel small =
    if_intro Returns (ltb channel 32) _ _ (λ e. (_, refl)) (λ e. ground arith)

find_entry-Returns :
    (left : ℕ) (q : MboxQueue) (e : Memory) (mask i : ℕ)
    → SmallChannels q e
    → Returns (find_entry left q e mask i)
unfolding find_entry
find_entry-Returns zero q e mask i small = (none, refl)
find_entry-Returns (suc left) q e mask i small =
    if_intro Returns (i == q.head) _ _ (λ h. (none, refl))
      (λ h.
        bind-Returns (matches mask (entry_channel e (mbox_get_entry q i))) _
          (matches-Returns mask _ (small i))
          (λ b.
            if_intro Returns b _ _ (λ _. (some i, refl))
              (λ _. find_entry-Returns left q e mask (u32 (i + 1)) small)))

take_message-Returns :
    (m : Mailbox) (mask max_size : ℕ)
    → SmallChannels m.queue m.entries
    → Returns (take_message m mask max_size)
unfolding take_message
take_message-Returns m mask max_size small =
    bind-Returns (find_entry m.queue.depth m.queue m.entries mask m.queue.tail) _
      (find_entry-Returns m.queue.depth m.queue m.entries mask m.queue.tail small)
      (λ found. (_, refl))

-- The other processes keep the channels small while a receiver waits.
abbrev pub KeepChannels : List Wait → Type 0
KeepChannels [] = Unit
KeepChannels (wait ∷ waits) =
    ((m : Mailbox)
      → SmallChannels m.queue m.entries
      → SmallChannels (wait.others m).queue (wait.others m).entries)
    × KeepChannels waits

-- The clock reaches `n` milliseconds.
abbrev pub Expires : List Wait → ℕ → Type 0
Expires [] n = n ≡ 0
Expires (wait ∷ waits) n = (n ≤ wait.elapsed_ms) ⊎ Expires waits n

after_wait-Returns :
    (woken : ℤ) (again : Run Dequeued) (m : Mailbox)
    → Returns again
    → Returns (after_wait woken again m)
unfolding after_wait
after_wait-Returns (pos zero) again m h = (_, refl)
after_wait-Returns (pos (suc w)) again m h = h
after_wait-Returns (negsuc w) again m h = (_, refl)

after_pass-Returns :
    (wait : Wait) (again : Run Dequeued) (n : ℕ) (pass : Option Received × Mailbox)
    → ((n ≤ wait.elapsed_ms) ⊎ Returns again)
    → Returns (after_pass (some wait) again (pos n) pass)
unfolding after_pass wait_for_message
after_pass-Returns wait again n (some r, m) h = (_, refl)
after_pass-Returns wait again zero (none, m) h = (_, refl)
after_pass-Returns wait again (suc n) (none, m) h =
    if_intro Returns (leb (suc n) wait.elapsed_ms) _ _ (λ e. (_, refl))
      (λ e. elim h [
        | inl late ↦ ground arith
        | inr rest ↦ after_wait-Returns wait.woken again (wait.others m) rest
      ])

last_pass-Returns :
    (pass : Option Received × Mailbox) → Returns (after_pass none out_of_fuel (pos 0) pass)
unfolding after_pass
last_pass-Returns (some r, m) = (_, refl)
last_pass-Returns (none, m) = (_, refl)

-- `mbox_dequeue` with a timeout that is not negative returns, when the clock reaches the
-- timeout at one of its looks, and while every slot has a channel below 32, which the other
-- processes keep.
pub mbox_dequeue-Returns :
    (waits : List Wait) (m : Mailbox) (mask max_size n : ℕ)
    → SmallChannels m.queue m.entries
    → KeepChannels waits
    → Expires waits n
    → Returns (mbox_dequeue waits m mask max_size (pos n))
unfolding mbox_dequeue
mbox_dequeue-Returns [] m mask max_size n small keep none_left =
    bind-Returns (take_message m mask max_size) _ (take_message-Returns m mask max_size small)
      (λ pass.
        subst (λ k. Returns (after_pass none out_of_fuel (pos k) pass)) (sym none_left)
          (last_pass-Returns pass))
mbox_dequeue-Returns (wait ∷ waits) m mask max_size n small (keep, rest) expires =
    bind-Returns (take_message m mask max_size) _ (take_message-Returns m mask max_size small)
      (λ pass.
        after_pass-Returns wait (mbox_dequeue waits (wait.others m) mask max_size (pos n)) n pass
          (elim expires [
            | inl late ↦ inl late
            | inr later ↦ inr (
                mbox_dequeue-Returns waits (wait.others m) mask max_size n (keep m small) rest
                  later)
          ]))
