-- ===== src/Mailbox/Calls.antt =====
-- The file operations of mailbox_framework/kernel/mbox_kern.c as steps of the mailbox.
use mathlib.Core.Path.{subst}
use c_data_structures.Prelude.{
  ℕ, ◌≡◌, refl, sym, not, Option, List, arith, ltb, ◌||◌, ◌&&◌, if_intro, length, drop, get_or,
}
use c_data_structures.Prelude.Int.{ℤ, pos, negsuc}
use c_data_structures.Prelude.Run.{Run, ok, fault, ◌>>=◌, eq_of_ok, bind_inv}
use c_data_structures.Mailbox.Types.{Mailbox, Received, RecvReq, FileData}
use c_data_structures.Mailbox.Receive.{Wait, Dequeued, mbox_dequeue}
use c_data_structures.Mailbox.Files.{
  Caller, Outcome, Copied, outcome, nothing, mbox_write, read_simple, read_full, mbox_read,
  send_req_size, recv_req_size, field32,
}
use c_data_structures.Mailbox.Ioctl.{
  stats_size, ioctl_switch, Cmd, ioc_create, ioc_send, ioc_recv, ioc_flush, ioc_stats, ioc_setflags,
  ioc_getflags, ioc_other, mbox_ioctl, ioctl_recv,
}
use c_data_structures.Mailbox.Window.{IsQueue}
use c_data_structures.Mailbox.Steps.{
  Steps, start, step, flushed, wrote, AllMakeSteps, mbox_dequeue-Steps, Steps-IsQueue,
}

-- A call that returned made steps from `m`.
abbrev pub RetSteps : Mailbox → Run Outcome → Type 0
RetSteps m t = (r : Outcome) → t ≡ ok r → Steps m r.mbox

ok-Steps :
    {m m' : Mailbox} (fd : FileData) (c : Copied) (ret : ℤ)
    → Steps m m'
    → RetSteps m (ok (outcome fd m' c ret))
ok-Steps {m = m} fd c ret s r e = subst (λ (r : Outcome). Steps m r.mbox) (eq_of_ok e) s

fault-Steps : (m : Mailbox) → RetSteps m fault
fault-Steps m r e = ground arith

mbox_write-Steps :
    (caller : Caller) (fd : FileData) (m : Mailbox) (buf : List ℕ)
    → RetSteps m (mbox_write caller fd m buf)
unfolding mbox_write
mbox_write-Steps caller fd m buf =
    if_intro (RetSteps m) (not fd.attached) _ _ (λ e. fault-Steps m)
      (λ e.
        if_intro (RetSteps m) (ltb (length buf) send_req_size) _ _
          (λ e. ok-Steps fd nothing _ (step start (wrote caller.pid 0 buf 0)))
          (λ e.
            if_intro (RetSteps m) (not caller.readable) _ _ (λ e. ok-Steps fd nothing _ start)
              (λ e.
                if_intro (RetSteps m) (ltb m.queue.msg_size (length (drop send_req_size buf))) _ _
                  (λ e. ok-Steps fd nothing _ start)
                  (λ e. ok-Steps fd nothing _ (
                    step start (
                      wrote caller.pid (get_or buf 0 0) (drop send_req_size buf)
                        (field32 buf 8)))))))

read_simple-Steps :
    (caller : Caller) (fd : FileData) (m m' : Mailbox) (ret : ℤ) (got : Option Received)
    → Steps m m'
    → RetSteps m (read_simple caller fd m' ret got)
unfolding read_simple
read_simple-Steps caller fd m m' (negsuc n) got s = ok-Steps fd nothing _ s
read_simple-Steps caller fd m m' (pos n) got s =
    if_intro (RetSteps m) (((not caller.memory && ltb 0 n) || ltb m'.queue.msg_size n)) _ _
      (λ e. fault-Steps m)
      (λ e.
        if_intro (RetSteps m) (caller.writable n) _ _ (λ e. ok-Steps fd _ _ s)
          (λ e. ok-Steps fd nothing _ s))

read_full-mbox :
    (caller : Caller) (fd : FileData) (m : Mailbox) (req : RecvReq) (ret : ℤ)
    (got : Option Received)
    → (read_full caller fd m req ret got).mbox ≡ m
unfolding read_full
read_full-mbox caller fd m req (negsuc n) got = refl
read_full-mbox caller fd m req (pos n) got =
    if_intro (λ (r : Outcome). r.mbox ≡ m) (caller.writable recv_req_size) _ _ (λ e. refl)
      (λ e. refl)

bind-Steps :
    (waits : List Wait) (m : Mailbox) (mask max_size : ℕ) (t : ℤ) (f : Dequeued → Run Outcome)
    → AllMakeSteps waits
    → ((d : Dequeued) → Steps m d.2 → RetSteps m (f d))
    → RetSteps m (mbox_dequeue waits m mask max_size t >>= f)
bind-Steps waits m mask max_size t f moves next r e =
    let (d, p, e') = bind_inv (mbox_dequeue waits m mask max_size t) f e in
    next d (mbox_dequeue-Steps waits m mask max_size t moves p) r e'

mbox_read-Steps :
    (caller : Caller) (waits : List Wait) (fd : FileData) (m : Mailbox) (count : ℕ) (req : RecvReq)
    → AllMakeSteps waits
    → RetSteps m (mbox_read caller waits fd m count req)
unfolding mbox_read
mbox_read-Steps caller waits fd m count req moves =
    if_intro (RetSteps m) (not fd.attached) _ _ (λ e. fault-Steps m)
      (λ e.
        if_intro (RetSteps m) (ltb count recv_req_size) _ _
          (λ e.
            bind-Steps waits m _ _ _ _ moves (λ d s. read_simple-Steps caller fd m d.2 d.0 d.1 s))
          (λ e.
            if_intro (RetSteps m) (not caller.readable) _ _ (λ e. ok-Steps fd nothing _ start)
              (λ e. bind-Steps waits m _ _ _ _ moves (λ d s r e'.
                subst (λ (r : Outcome). Steps m r.mbox) (eq_of_ok e')
                  (subst (Steps m) (sym (read_full-mbox caller fd d.2 req d.0 d.1)) s)))))

ioctl_switch-Steps :
    (caller : Caller) (waits : List Wait) (fd : FileData) (m : Mailbox) (cmd : Cmd)
    → AllMakeSteps waits
    → RetSteps m (ioctl_switch caller waits fd m cmd)
unfolding ioctl_switch ioctl_recv
ioctl_switch-Steps caller waits fd m ioc_create moves = ok-Steps fd nothing _ start
ioctl_switch-Steps caller waits fd m (ioc_send size) moves = ok-Steps fd nothing _ start
ioctl_switch-Steps caller waits fd m (ioc_recv req) moves =
    if_intro (RetSteps m) (not caller.readable) _ _ (λ e. ok-Steps fd nothing _ start)
      (λ e.
        if_intro (RetSteps m) (not caller.memory) _ _ (λ e. ok-Steps fd nothing _ start)
          (λ e. bind-Steps waits m _ _ _ _ moves (λ d s. ok-Steps fd _ _ s)))
ioctl_switch-Steps caller waits fd m ioc_flush moves = ok-Steps fd nothing _ (flushed start)
ioctl_switch-Steps caller waits fd m ioc_stats moves =
    if_intro (RetSteps m) (caller.writable stats_size) _ _ (λ e. ok-Steps fd _ _ start)
      (λ e. ok-Steps fd nothing _ start)
ioctl_switch-Steps caller waits fd m (ioc_setflags arg) moves = ok-Steps _ nothing _ start
ioctl_switch-Steps caller waits fd m ioc_getflags moves = ok-Steps fd nothing _ start
ioctl_switch-Steps caller waits fd m ioc_other moves = ok-Steps fd nothing _ start

mbox_ioctl-Steps :
    (caller : Caller) (waits : List Wait) (fd : FileData) (m : Mailbox) (cmd : Cmd)
    → AllMakeSteps waits
    → RetSteps m (mbox_ioctl caller waits fd m cmd)
unfolding mbox_ioctl
mbox_ioctl-Steps caller waits fd m cmd moves =
    if_intro (RetSteps m) fd.attached _ _ (λ e. ioctl_switch-Steps caller waits fd m cmd moves)
      (λ e. ok-Steps fd nothing _ start)

-- One of the calls that use the queue.
pub data Call : Type 0 where
  write_call : (buf : List ℕ) → Call
  read_call : (count : ℕ) → RecvReq → Call
  ioctl_call : Cmd → Call

unfoldable pub perform : Caller → List Wait → FileData → Mailbox → Call → Run Outcome
perform caller waits fd m (write_call buf) = mbox_write caller fd m buf
perform caller waits fd m (read_call count req) = mbox_read caller waits fd m count req
perform caller waits fd m (ioctl_call cmd) = mbox_ioctl caller waits fd m cmd

perform-Steps :
    (caller : Caller) (waits : List Wait) (fd : FileData) (m : Mailbox) (call : Call)
    → AllMakeSteps waits
    → RetSteps m (perform caller waits fd m call)
unfolding perform
perform-Steps caller waits fd m (write_call buf) moves = mbox_write-Steps caller fd m buf
perform-Steps caller waits fd m (read_call count req) moves =
    mbox_read-Steps caller waits fd m count req moves
perform-Steps caller waits fd m (ioctl_call cmd) moves =
    mbox_ioctl-Steps caller waits fd m cmd moves

-- Every write, read and ioctl call that returns leaves a valid queue valid, while other
-- processes make steps during the waits: the distance from `tail` to `head` is at most `count`,
-- and `count` is at most `depth`.
pub perform-IsQueue :
    (caller : Caller) (waits : List Wait) (fd : FileData) (m : Mailbox) (call : Call) (r : Outcome)
    → AllMakeSteps waits
    → perform caller waits fd m call ≡ ok r
    → IsQueue m.queue
    → IsQueue r.mbox.queue
perform-IsQueue caller waits fd m call r moves e h =
    Steps-IsQueue h (perform-Steps caller waits fd m call moves r e)
