-- ===== src/Mailbox/Ioctl.antt =====
-- `mbox_ioctl` of mailbox_framework/kernel/mbox_kern.c, one function per command.
use c_data_structures.Prelude.{ℕ, not, List, ltb, ◌==◌, if◌then◌else◌}
use c_data_structures.Prelude.Int.{ℤ, pos, negsuc}
use c_data_structures.Prelude.Run.{Run, ok, ◌>>=◌}
use c_data_structures.Mailbox.Types.{
  u32, int32, MboxQueue, Mailbox, RecvReq, MboxStats, FileData, minus_err_toobig, mbox_max_msg_size,
  enomem, efault, enodev, einval, enotty, enosys,
}
use c_data_structures.Mailbox.Receive.{Wait, mbox_dequeue}
use c_data_structures.Mailbox.Files.{
  Caller, Copied, nothing, request, statistics, Outcome, outcome, filled, recv_req_size,
}

-- The command and what the argument points at.
pub data Cmd : Type 0 where
  ioc_create : Cmd
  ioc_send : (size : ℕ) → Cmd
  ioc_recv : RecvReq → Cmd
  ioc_flush : Cmd
  ioc_stats : Cmd
  ioc_setflags : (arg : ℕ) → Cmd
  ioc_getflags : Cmd
  ioc_other : Cmd

-- `MBOX_IOC_SEND`.
unfoldable pub ioctl_send : Caller → (size : ℕ) → ℤ
ioctl_send caller size =
    if not caller.readable
    then efault
    else if ltb mbox_max_msg_size size
    then minus_err_toobig
    else if not caller.memory
    then enomem
    else einval

-- `MBOX_IOC_RECV` after `mbox_dequeue` returned; 6 and 7 are the negated error constants.
unfoldable pub received_request : Caller → RecvReq → ℤ → ℤ × Copied
received_request caller req (negsuc n) = (negsuc n, nothing)
received_request caller req (pos n) =
    let copied = caller.writable recv_req_size in
    if ltb 0 req.out_size
    then (if copied then (int32 req.out_size, request req) else (efault, nothing))
    else if n == 7
    then (if copied then (pos n, request req) else (efault, nothing))
    else if n == 6
    then (if copied then (pos n, request req) else (efault, nothing))
    else (pos n, nothing)

unfoldable pub ioctl_recv : Caller → List Wait → FileData → Mailbox → RecvReq → Run Outcome
ioctl_recv caller waits fd mbox req =
    if not caller.readable
    then ok (outcome fd mbox nothing efault)
    else if not caller.memory
    then ok (outcome fd mbox nothing enomem)
    else mbox_dequeue waits mbox req.channel_mask mbox.queue.msg_size (int32 req.timeout_ms)
      >>= λ (ret, got, after).
          let answer = received_request caller (filled req got) ret in
          ok (outcome fd after answer.1 answer.0)

-- `MBOX_IOC_FLUSH`.
unfoldable pub ioctl_flush : Mailbox → Mailbox
ioctl_flush mbox = record mbox { queue = record mbox.queue { head = 0; tail = 0; count = 0 } }

-- `MBOX_IOC_STATS`.
unfoldable pub ioctl_stats : MboxQueue → MboxStats
ioctl_stats q = record {
  messages_sent = q.total_sent;
  messages_recv = q.total_recv;
  messages_dropped = q.messages_dropped;
  current_depth = q.count;
  max_depth = q.depth;
  bytes_sent = q.bytes_sent;
  bytes_recv = q.bytes_recv;
}

-- `sizeof(mbox_stats_t)`.
abbrev pub stats_size : ℕ
stats_size = 40

-- The `switch` of `mbox_ioctl`.
unfoldable pub ioctl_switch : Caller → List Wait → FileData → Mailbox → Cmd → Run Outcome
ioctl_switch caller waits fd mbox ioc_create = ok (outcome fd mbox nothing enosys)
ioctl_switch caller waits fd mbox (ioc_send size) =
    ok (outcome fd mbox nothing (ioctl_send caller size))
ioctl_switch caller waits fd mbox (ioc_recv req) = ioctl_recv caller waits fd mbox req
ioctl_switch caller waits fd mbox ioc_flush = ok (outcome fd (ioctl_flush mbox) nothing (pos 0))
ioctl_switch caller waits fd mbox ioc_stats =
    if caller.writable stats_size
    then ok (outcome fd mbox (statistics (ioctl_stats mbox.queue)) (pos 0))
    else ok (outcome fd mbox nothing efault)
ioctl_switch caller waits fd mbox (ioc_setflags arg) =
    ok (outcome (record fd { channel_mask = u32 arg }) mbox nothing (pos 0))
ioctl_switch caller waits fd mbox ioc_getflags =
    ok (outcome fd mbox nothing (int32 fd.channel_mask))
ioctl_switch caller waits fd mbox ioc_other = ok (outcome fd mbox nothing enotty)

unfoldable pub mbox_ioctl : Caller → List Wait → FileData → Mailbox → Cmd → Run Outcome
mbox_ioctl caller waits fd mbox cmd =
    if fd.attached
    then ioctl_switch caller waits fd mbox cmd
    else ok (outcome fd mbox nothing enodev)
