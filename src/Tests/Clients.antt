-- ===== src/Tests/Clients.antt =====
-- Processes that use a mailbox through mailbox_framework/lib/mbox_lib.c.
use c_data_structures.Prelude.{◌==◌, ◌≡◌, refl, true, none, some, [], ◌∷◌, arith, if◌then◌else◌}
use c_data_structures.Prelude.Int.{pos}
use c_data_structures.Prelude.Run.{ok}
use c_data_structures.Mailbox.Memory.{put_bytes, get_bytes}
use c_data_structures.Mailbox.Types.{Mailbox, RecvReq, FileData}
use c_data_structures.Mailbox.Transfer.{
  mbox_enqueue, mbox_queue_full, unlocked, sent, fill_entry, mbox_get_entry,
}
use c_data_structures.Mailbox.Receive.{
  matches, find_entry, read_entry, received, taken, take_message,
}
use c_data_structures.Mailbox.Files.{Caller, nothing}
use c_data_structures.Mailbox.Ioctl.{ioctl_stats}
use c_data_structures.Mailbox.Manage.{new_mailbox}
use c_data_structures.Mailbox.Letter.{letter}
use c_data_structures.MboxLib.System.{System, MboxHandle, World}
use c_data_structures.MboxLib.Api.{minus_err_inval}
use c_data_structures.MboxLib.Messages.{mbox_recv}
use c_data_structures.MboxLib.Device.{
  MboxFile, device_read, mbox_recv-loses_short, Peeks, mbox_peek-removes,
}

abbrev process : Caller
process = record { pid = 7; readable = true; writable = (λ n. true); memory = true }

-- A system with one device, whose other calls do nothing.
abbrev one_device : System MboxFile
one_device = record {
  open_device = (λ s path flags. (pos 3, s));
  close_device = (λ s fd. s);
  unmap = (λ s address size. s);
  read = (λ s fd count req. device_read process [] s count req);
  writev = (λ s fd vectors. ok (pos 0, s));
  poll = (λ s fd timeout_ms. ok (pos 1, s));
  flush_call = (λ s fd. ok (pos 0, s));
  stats_call = (λ s fd. ok (pos 0, ioctl_stats s.1.queue, s));
}

abbrev bare_box : Mailbox
bare_box = new_mailbox (98 ∷ []) 0 4 64

abbrev one_message : Mailbox
one_message = (mbox_enqueue 7 bare_box 3 (10 ∷ 20 ∷ []) 0).1

abbrev no_message : Mailbox
no_message = record one_message { queue = received one_message.queue 0 2 }

abbrev open_file : FileData
open_file = record { attached = true; channel_mask = 65535; reader_idx = 1 }

abbrev handle : MboxHandle
handle = record {
  name = 98 ∷ [];
  fd = pos 3;
  shmem = none;
  shmem_size = 0;
  depth = 4;
  msg_size = 0;
  flags = 3;
}

abbrev world : World MboxFile
world = record {
  heap = (λ a. if a == 4096 then some handle else none);
  state = (open_file, one_message);
}

abbrev junk : RecvReq
junk = record {
  channel_mask = 0;
  timeout_ms = 0;
  out_size = 99;
  out_msg_id = 0;
  out_channel = 0;
  out_flags = 0;
}

one_message-take :
    take_message one_message 65535 one_message.queue.msg_size
    ≡ ok (some (letter 1 3 0 (10 ∷ 20 ∷ [])), no_message)
unfolding take_message find_entry matches taken read_entry received mbox_enqueue mbox_queue_full
    unlocked sent new_mailbox fill_entry put_bytes get_bytes mbox_get_entry
one_message-take = refl

mbox_recv-loses_short_example :
    mbox_recv one_device world (pos 4096) junk 65535 none 64 (pos 0)
    ≡ ok (minus_err_inval, nothing, record world { state = (open_file, no_message) })
mbox_recv-loses_short_example =
    mbox_recv-loses_short process [] one_device (λ d fd count req. refl) world 4096 handle junk
      65535 none 64 (letter 1 3 0 (10 ∷ 20 ∷ [])) no_message refl refl refl refl refl (omega arith)
      one_message-take

mbox_peek-removes_example :
    Peeks process [] one_device (λ d fd count req. refl) world 4096 65535 64 no_message
mbox_peek-removes_example =
    mbox_peek-removes process [] one_device (λ d fd count req. refl) world 4096 handle 65535 64
      (letter 1 3 0 (10 ∷ 20 ∷ [])) no_message refl refl refl refl (omega arith) one_message-take
