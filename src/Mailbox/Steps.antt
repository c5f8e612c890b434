-- ===== src/Mailbox/Steps.antt =====
-- What the processes that share a mailbox of mailbox_framework/kernel/mbox_kern.c do to it, as a
-- step relation: each step is what one call does under the lock.
use mathlib.Core.Path.{subst}
use c_data_structures.Prelude.{
  ℕ, zero, suc, ◌<◌, ◌≤◌, ◌≡◌, refl, sym, not, Option, none, some, List, [], ◌∷◌, arith, leb,
  if_intro,
}
use c_data_structures.Prelude.Int.{ℤ, pos, negsuc}
use c_data_structures.Prelude.Run.{Run, ok, out_of_fuel, eq_of_ok, bind_inv, bind_ok}
use c_data_structures.Mailbox.Types.{Mailbox, Received, FileData}
use c_data_structures.Mailbox.Transfer.{mbox_enqueue}
use c_data_structures.Mailbox.Receive.{
  taken, find_entry, after_wait, take_message, Wait, Dequeued, wait_for_message, after_pass,
  mbox_dequeue,
}
use c_data_structures.Mailbox.Files.{Caller, mbox_open, mbox_release}
use c_data_structures.Mailbox.Ioctl.{ioctl_flush}
use c_data_structures.Mailbox.Manage.{new_mailbox}
use c_data_structures.Mailbox.Window.{
  IsQueue, Move, unmoved, Move-IsQueue, span, mbox_enqueue-Move, take_message-Move,
}

pub data Step (m : Mailbox) : Mailbox → Type 0 where
  opened : (caller : Caller) → Step m (mbox_open caller m).2
  released : (file : Option FileData) → Step m (mbox_release file m).1
  wrote :
      (pid channel : ℕ) (payload : List ℕ) (flags : ℕ)
      → Step m (mbox_enqueue pid m channel payload flags).1
  took :
      (mask max_size : ℕ) {r : Option Received × Mailbox}
      → take_message m mask max_size ≡ ok r
      → Step m r.1

pub data Steps (m : Mailbox) : Mailbox → Type 0 where
  start : Steps m m
  step : {m' m'' : Mailbox} → Steps m m' → Step m' m'' → Steps m m''
  flushed : {m' : Mailbox} → Steps m m' → Steps m (ioctl_flush m')

pub Step-Move : {m m' : Mailbox} → IsQueue m.queue → Step m m' → Move m.queue m'.queue
unfolding mbox_open mbox_release
Step-Move {m = m} h (opened caller) =
    if_intro (λ (t : ℤ × Option FileData × Mailbox). Move m.queue t.2.queue) (not caller.memory) _ _
      (λ e. unmoved) (λ e. unmoved)
Step-Move h (released none) = unmoved
Step-Move {m = m} h (released (some fd)) =
    if_intro (λ (t : Mailbox). Move m.queue t.queue) fd.attached _ _ (λ e. unmoved) (λ e. unmoved)
Step-Move {m = m} h (wrote pid channel payload flags) =
    mbox_enqueue-Move pid m channel payload flags
Step-Move {m = m} h (took mask max_size e) = take_message-Move m mask max_size h e

flush-IsQueue : (m : Mailbox) → IsQueue m.queue → IsQueue (ioctl_flush m).queue
unfolding ioctl_flush span
flush-IsQueue m h = ground arith

pub Steps-IsQueue : {m m' : Mailbox} → IsQueue m.queue → Steps m m' → IsQueue m'.queue
Steps-IsQueue h start = h
Steps-IsQueue h (step before s) =
    let h' = Steps-IsQueue h before in Move-IsQueue (Step-Move h' s) h'
Steps-IsQueue h (flushed before) = flush-IsQueue _ (Steps-IsQueue h before)

Steps-trans : {m m' m'' : Mailbox} → Steps m m' → Steps m' m'' → Steps m m''
Steps-trans p start = p
Steps-trans p (step q s) = step (Steps-trans p q) s
Steps-trans p (flushed q) = flushed (Steps-trans p q)

pub new_mailbox-IsQueue :
    (name : List ℕ) (id depth msg_size : ℕ)
    → 0 < depth
    → depth ≤ 4096
    → IsQueue (new_mailbox name id depth msg_size).queue
unfolding new_mailbox span
new_mailbox-IsQueue name id depth msg_size lo hi = ground arith

-- The other processes make steps while a receiver waits.
abbrev pub MakesSteps : Wait → Type 0
MakesSteps wait = (m : Mailbox) → Steps m (wait.others m)

abbrev pub AllMakeSteps : List Wait → Type 0
AllMakeSteps [] = Unit
AllMakeSteps (wait ∷ waits) = MakesSteps wait × AllMakeSteps waits

after_wait-Steps :
    (woken : ℤ) (again : Run Dequeued) (m m' : Mailbox) {r : Dequeued}
    → Steps m m'
    → (again ≡ ok r → Steps m r.2)
    → after_wait woken again m' ≡ ok r
    → Steps m r.2
unfolding after_wait
after_wait-Steps (pos zero) again m m' now next e =
    subst (λ (r : Dequeued). Steps m r.2) (eq_of_ok e) now
after_wait-Steps (pos (suc w)) again m m' now next e = next e
after_wait-Steps (negsuc w) again m m' now next e =
    subst (λ (r : Dequeued). Steps m r.2) (eq_of_ok e) now

wait_for_message-Steps :
    (wait : Wait) (again : Run Dequeued) (m : Mailbox) (n : ℕ) {r : Dequeued}
    → MakesSteps wait
    → (again ≡ ok r → Steps m r.2)
    → wait_for_message wait again m n ≡ ok r
    → Steps m r.2
unfolding wait_for_message
wait_for_message-Steps wait again m n {r = r} moves next =
    if_intro (λ (t : Run Dequeued). t ≡ ok r → Steps m r.2) (leb n wait.elapsed_ms) _ _
      (λ late e. subst (λ (r : Dequeued). Steps m r.2) (eq_of_ok e) start)
      (λ early. after_wait-Steps wait.woken again m (wait.others m) (moves m) next)

after_pass-Steps :
    (wait : Wait) (again : Run Dequeued) (t : ℤ) (m : Mailbox) (pass : Option Received × Mailbox)
    {r : Dequeued}
    → MakesSteps wait
    → Steps m pass.1
    → (pass.0 ≡ none → again ≡ ok r → Steps pass.1 r.2)
    → after_pass (some wait) again t pass ≡ ok r
    → Steps m r.2
unfolding after_pass
after_pass-Steps wait again t m (some x, mbox) moves now next e =
    subst (λ (r : Dequeued). Steps m r.2) (eq_of_ok e) now
after_pass-Steps wait again (negsuc n) m (none, mbox) moves now next e = ground arith
after_pass-Steps wait again (pos zero) m (none, mbox) moves now next e =
    subst (λ (r : Dequeued). Steps m r.2) (eq_of_ok e) now
after_pass-Steps wait again (pos (suc n)) m (none, mbox) moves now next e =
    Steps-trans now (wait_for_message-Steps wait again mbox (suc n) moves (next refl) e)

last_pass-Steps :
    (t : ℤ) (m : Mailbox) (pass : Option Received × Mailbox) {r : Dequeued}
    → Steps m pass.1
    → after_pass none out_of_fuel t pass ≡ ok r
    → Steps m r.2
unfolding after_pass
last_pass-Steps t m (some x, mbox) now e = subst (λ (r : Dequeued). Steps m r.2) (eq_of_ok e) now
last_pass-Steps (negsuc n) m (none, mbox) now e = ground arith
last_pass-Steps (pos zero) m (none, mbox) now e =
    subst (λ (r : Dequeued). Steps m r.2) (eq_of_ok e) now
last_pass-Steps (pos (suc n)) m (none, mbox) now e = ground arith

-- A pass without a message leaves the mailbox.
take_message-none :
    (m : Mailbox) (mask max_size : ℕ) {r : Option Received × Mailbox}
    → take_message m mask max_size ≡ ok r
    → r.0 ≡ none
    → r.1 ≡ m
unfolding take_message taken
take_message-none m mask max_size e =
    let (found, f, same) =
      bind_ok (find_entry m.queue.depth m.queue m.entries mask m.queue.tail) (taken m max_size) e in
    subst (λ (t : Option Received × Mailbox). t.0 ≡ none → t.1 ≡ m) same
      (elim found as (λ o. (taken m max_size o).0 ≡ none → (taken m max_size o).1 ≡ m) [
        | none ↦ (λ _. refl)
        | some j ↦ (λ bad. ground arith)
      ])

pub mbox_dequeue-Steps :
    (waits : List Wait) (m : Mailbox) (mask max_size : ℕ) (t : ℤ) {r : Dequeued}
    → AllMakeSteps waits
    → mbox_dequeue waits m mask max_size t ≡ ok r
    → Steps m r.2
unfolding mbox_dequeue
mbox_dequeue-Steps [] m mask max_size t moves e =
    let (pass, p, e') = bind_inv (take_message m mask max_size) (after_pass none out_of_fuel t) e in
    last_pass-Steps t m pass (step start (took mask max_size p)) e'
mbox_dequeue-Steps (wait ∷ waits) m mask max_size t {r = r} (moves, rest) e =
    let again = mbox_dequeue waits (wait.others m) mask max_size t in
    let (pass, p, e') =
      bind_inv (take_message m mask max_size) (after_pass (some wait) again t) e in
    after_pass-Steps wait again t m pass moves (step start (took mask max_size p))
      (λ nil e''.
        subst (λ (x : Mailbox). Steps x r.2) (sym (take_message-none m mask max_size p nil))
          (Steps-trans (moves m)
            (mbox_dequeue-Steps waits (wait.others m) mask max_size t rest e'')))
      e'
