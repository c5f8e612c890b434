-- ===== src/Mailbox/Files.antt =====
-- The file operations of mailbox_framework/kernel/mbox_kern.c except `mbox_ioctl`. What the kernel
-- and the caller's memory answer is a parameter.
use c_data_structures.Prelude.{
  ℕ, zero, suc, ◌+◌, ◌*◌, ◌/◌, Bool, true, not, ◌||◌, ◌&&◌, Option, none, some, List, [], ◌∷◌, ltb,
  ◌==◌, if◌then◌else◌, length, get_or, drop,
}
use c_data_structures.Prelude.Int.{ℤ, pos, negsuc}
use c_data_structures.Prelude.Run.{Run, ok, fault, ◌>>=◌}
use c_data_structures.Mailbox.Types.{
  u32, int32, Mailbox, Received, RecvReq, MboxStats, FileData, minus_err_toobig, enomem, eagain,
  efault, enodev, einval,
}
use c_data_structures.Mailbox.Transfer.{mbox_enqueue}
use c_data_structures.Mailbox.Receive.{Wait, mbox_dequeue}

-- The process that calls and its memory: `readable` and `writable` say whether `copy_from_user`
-- and a `copy_to_user` of so many bytes succeed, `memory` whether `kzalloc` does.
pub record Caller : Type 0 where
  pub pid : ℕ
  pub readable : Bool
  pub writable : ℕ → Bool
  pub memory : Bool

-- What a call copied to its caller.
pub data Copied : Type 0 where
  nothing : Copied
  data_bytes : List ℕ → Copied
  request : RecvReq → Copied
  statistics : MboxStats → Copied

-- What a call returns, and what it leaves.
pub record Outcome : Type 0 where
  pub ret : ℤ
  pub copied : Copied
  pub file : FileData
  pub mbox : Mailbox

abbrev pub outcome : FileData → Mailbox → Copied → ℤ → Outcome
outcome fd mbox copied ret = record { ret = ret; copied = copied; file = fd; mbox = mbox }

-- `mbox_open`: the file data is missing when there is no memory.
unfoldable pub mbox_open : Caller → Mailbox → ℤ × Option FileData × Mailbox
mbox_open caller mbox = if not caller.memory then (enomem, none, mbox) else (
  pos 0,
  some (record { attached = true; channel_mask = 65535; reader_idx = u32 (mbox.open_count + 1) }),
  record mbox { open_count = u32 (mbox.open_count + 1); refcount = u32 (mbox.refcount + 1) },
)

-- `mbox_release`: `filp->private_data` may be NULL.
unfoldable pub mbox_release : Option FileData → Mailbox → ℤ × Mailbox
mbox_release none mbox = (pos 0, mbox)
mbox_release (some fd) mbox = (
  pos 0,
  if fd.attached then record mbox { refcount = u32 (mbox.refcount + 4294967295) } else mbox,
)

-- `sizeof(struct mbox_send_req)` and `sizeof(struct mbox_recv_req)`.
abbrev pub send_req_size : ℕ
send_req_size = 12

abbrev pub recv_req_size : ℕ
recv_req_size = 24

-- The `uint32_t` at offset `i` of a structure that came from the caller.
abbrev pub field32 : List ℕ → ℕ → ℕ
field32 bytes i =
    get_or bytes i 0
    + 256 * get_or bytes (i + 1) 0
    + 65536 * get_or bytes (i + 2) 0
    + 16777216 * get_or bytes (i + 3) 0

-- `mbox_write` of the bytes at `buf`; its test `msg_id < 0` is on a `uint32_t`.
unfoldable pub mbox_write : Caller → FileData → Mailbox → List ℕ → Run Outcome
mbox_write caller fd mbox buf =
    let count = length buf in
    let payload = drop send_req_size buf in
    let simple = mbox_enqueue caller.pid mbox 0 buf 0 in
    let full = mbox_enqueue caller.pid mbox (get_or buf 0 0) payload (field32 buf 8) in
    if not fd.attached
    then fault
    else if ltb count send_req_size
    then ok (outcome fd simple.1 nothing (pos count))
    else if not caller.readable
    then ok (outcome fd mbox nothing efault)
    else if ltb mbox.queue.msg_size (length payload)
    then ok (outcome fd mbox nothing minus_err_toobig)
    else ok (outcome fd full.1 nothing (pos count))

-- `n` bytes of `tmp`: the zeros of `kzalloc` under the payload that was copied there.
unfoldable pub tmp_bytes : (payload : List ℕ) → (n : ℕ) → List ℕ
tmp_bytes payload zero = []
tmp_bytes [] (suc n) = 0 ∷ tmp_bytes [] n
tmp_bytes (x ∷ payload) (suc n) = x ∷ tmp_bytes payload n

abbrev pub payload_of : Option Received → List ℕ
payload_of none = []
payload_of (some r) = r.payload

-- The request with the output fields that `mbox_dequeue` writes through its pointers: the channel
-- as one byte, and the size as eight bytes that reach over `out_msg_id`.
unfoldable pub filled : RecvReq → Option Received → RecvReq
filled req none = req
filled req (some r) = record req {
  out_size = r.size;
  out_msg_id = 0;
  out_channel = req.out_channel / 256 * 256 + r.channel;
  out_flags = r.flags;
}

-- The rest of `mbox_read` in its simple mode, after `mbox_dequeue` returned `ret`.
unfoldable pub read_simple : Caller → FileData → Mailbox → ℤ → Option Received → Run Outcome
read_simple caller fd mbox (negsuc n) got = ok (outcome fd mbox nothing (negsuc n))
read_simple caller fd mbox (pos n) got =
    if (not caller.memory && ltb 0 n) || ltb mbox.queue.msg_size n
    then fault
    else if caller.writable n
    then ok (outcome fd mbox (data_bytes (tmp_bytes (payload_of got) n)) (pos n))
    else ok (outcome fd mbox nothing efault)

-- The rest in its full mode.
unfoldable pub read_full : Caller → FileData → Mailbox → RecvReq → ℤ → Option Received → Outcome
read_full caller fd mbox req (negsuc n) got = outcome fd mbox nothing (negsuc n)
read_full caller fd mbox req (pos n) got =
    let req' = filled req got in
    if caller.writable recv_req_size
    then outcome fd mbox (request req') (int32 req'.out_size)
    else outcome fd mbox nothing efault

-- `mbox_read` with room for `count` bytes at `buf`, where `req` stands.
unfoldable pub mbox_read :
    Caller → List Wait → FileData → Mailbox → (count : ℕ) → RecvReq → Run Outcome
mbox_read caller waits fd mbox count req =
    if not fd.attached
    then fault
    else if ltb count recv_req_size
    then (mbox_dequeue waits mbox fd.channel_mask mbox.queue.msg_size (pos 0)
        >>= λ (ret, got, after). read_simple caller fd after ret got)
    else if not caller.readable
    then ok (outcome fd mbox nothing efault)
    else mbox_dequeue waits mbox req.channel_mask mbox.queue.msg_size (int32 req.timeout_ms)
      >>= λ (ret, got, after). ok (read_full caller fd after req ret got)

-- `POLLIN | POLLRDNORM` and `POLLOUT | POLLWRNORM`, which have no bit in common.
abbrev pub pollin : ℕ
pollin = 65

abbrev pub pollout : ℕ
pollout = 260

unfoldable pub mbox_poll : FileData → Mailbox → Run ℕ
mbox_poll fd mbox =
    let q = mbox.queue in
    if not fd.attached
    then fault
    else ok ((if ltb 0 q.count then pollin else 0) + (if ltb q.count q.depth then pollout else 0))

-- `mbox_mmap` of an area of `size` bytes; `pfn` is what `vmalloc_to_pfn` gives and `mapped` whether
-- `remap_pfn_range` succeeds.
unfoldable pub mbox_mmap : (pfn : ℕ) → (mapped : Bool) → FileData → Mailbox → (size : ℕ) → ℤ
mbox_mmap pfn mapped fd mbox size =
    if not fd.attached
    then enodev
    else if ltb mbox.shmem_size size
    then einval
    else if pfn == 0
    then efault
    else if mapped
    then pos 0
    else eagain
