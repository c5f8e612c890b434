-- ===== src/Mailbox/Types.antt =====
-- The structures and constants of the mailbox module: `struct mbox_queue`, `struct mbox_instance`,
-- the requests of mailbox_framework/include/mbox.h, and the 32-bit arithmetic on them.
use c_data_structures.Prelude.{ℕ, ◌-◌, ◌%◌, ◌^◌, Bool, List, ltb, if◌then◌else◌}
use c_data_structures.Prelude.Int.{ℤ, pos, negsuc}
use c_data_structures.Mailbox.Memory.{Memory}

-- `uint16_t`, `uint32_t` and `uint64_t` arithmetic wraps, and a `uint32_t` becomes an `int`.
abbrev pub u16 : ℕ → ℕ
u16 n = n % 65536

abbrev pub u32 : ℕ → ℕ
u32 n = n % 4294967296

abbrev pub u64 : ℕ → ℕ
u64 n = n % 2 ^ 64

abbrev pub int32 : ℕ → ℤ
int32 n = if ltb n 2147483648 then pos n else negsuc (4294967296 - n - 1)

-- `struct mbox_queue`; the fields that no code uses are left out.
pub record MboxQueue : Type 0 where
  pub head : ℕ
  pub tail : ℕ
  pub depth : ℕ
  pub msg_size : ℕ
  pub count : ℕ
  pub total_sent : ℕ
  pub total_recv : ℕ
  pub messages_dropped : ℕ
  pub bytes_sent : ℕ
  pub bytes_recv : ℕ

-- `struct mbox_instance`. `entries` is the area behind the queue header, and `wakeups` counts the
-- calls of `wake_up_interruptible`.
pub record Mailbox : Type 0 where
  pub name : List ℕ
  pub id : ℕ
  pub shmem_size : ℕ
  pub queue : MboxQueue
  pub entries : Memory
  pub refcount : ℕ
  pub open_count : ℕ
  pub wakeups : ℕ

-- What a reader gets: the fields of the entry, and the payload bytes that were copied.
pub record Received : Type 0 where
  pub msg_id : ℕ
  pub channel : ℕ
  pub flags : ℕ
  pub size : ℕ
  pub payload : List ℕ

-- `struct mbox_recv_req` and `mbox_stats_t`.
pub record RecvReq : Type 0 where
  pub channel_mask : ℕ
  pub timeout_ms : ℕ
  pub out_size : ℕ
  pub out_msg_id : ℕ
  pub out_channel : ℕ
  pub out_flags : ℕ

pub record MboxStats : Type 0 where
  pub messages_sent : ℕ
  pub messages_recv : ℕ
  pub messages_dropped : ℕ
  pub current_depth : ℕ
  pub max_depth : ℕ
  pub bytes_sent : ℕ
  pub bytes_recv : ℕ

-- `struct mbox_filedata`; `attached` says that `mbox` is not NULL.
pub record FileData : Type 0 where
  pub attached : Bool
  pub channel_mask : ℕ
  pub reader_idx : ℕ

-- Limits.
abbrev pub max_mailboxes : ℕ
max_mailboxes = 64

abbrev pub mbox_min_depth : ℕ
mbox_min_depth = 2

abbrev pub mbox_max_depth : ℕ
mbox_max_depth = 4096

abbrev pub mbox_min_size : ℕ
mbox_min_size = 64

abbrev pub mbox_max_size : ℕ
mbox_max_size = 1048576

abbrev pub mbox_max_msg_size : ℕ
mbox_max_msg_size = 4096

abbrev pub mbox_name_len : ℕ
mbox_name_len = 32

-- The error constants as they leave the module: each stands there negated, and is negative already.
abbrev pub minus_err_nobufs : ℤ
minus_err_nobufs = pos 5

abbrev pub minus_err_timeout : ℤ
minus_err_timeout = pos 6

abbrev pub minus_err_wouldblock : ℤ
minus_err_wouldblock = pos 7

abbrev pub minus_err_toobig : ℤ
minus_err_toobig = pos 8

-- `-ENOMEM`, `-EAGAIN`, `-EFAULT`, `-ENODEV`, `-EINVAL`, `-ENOTTY` and `-ENOSYS`.
abbrev pub enomem : ℤ
enomem = negsuc 11

abbrev pub eagain : ℤ
eagain = negsuc 10

abbrev pub efault : ℤ
efault = negsuc 13

abbrev pub enodev : ℤ
enodev = negsuc 18

abbrev pub einval : ℤ
einval = negsuc 21

abbrev pub enotty : ℤ
enotty = negsuc 24

abbrev pub enosys : ℤ
enosys = negsuc 37
