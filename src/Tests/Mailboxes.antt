-- ===== src/Tests/Mailboxes.antt =====
-- Mailboxes at which the theorems about mailbox_framework/kernel/mbox_kern.c apply.
use c_data_structures.Prelude.{
  ℕ, ◌<◌, ◌≤◌, ◌≡◌, length, replicate, refl, inl, inr, true, none, some, List, [], ◌∷◌, arith,
}
use c_data_structures.Prelude.Int.{pos}
use c_data_structures.Prelude.Run.{ok}
use c_data_structures.Mailbox.Types.{Mailbox, Received, RecvReq, FileData}
use c_data_structures.Mailbox.Transfer.{
  mbox_enqueue, mbox_queue_full, unlocked, sent, fill_entry, mbox_get_entry,
}
use c_data_structures.Mailbox.Memory.{put_bytes, get_bytes}
use c_data_structures.Mailbox.Receive.{
  Wait, matches, find_entry, read_entry, received, taken, take_message, mbox_dequeue,
}
use c_data_structures.Mailbox.Files.{Caller, Outcome, outcome, nothing, mbox_write}
use c_data_structures.Mailbox.Manage.{MboxGlobal, new_mailbox, total_size, mbox_init}
use c_data_structures.Mailbox.Window.{IsQueue, lost}
use c_data_structures.Mailbox.Steps.{start, step, wrote, took, Steps-IsQueue, new_mailbox-IsQueue}
use c_data_structures.Mailbox.Calls.{perform, write_call, perform-IsQueue}
use c_data_structures.Mailbox.Search.{TookFirst, take_message-first}
use c_data_structures.Mailbox.Leak.{Steps-accepts}
use c_data_structures.Mailbox.Answers.{Unsent, mbox_write-full}
use c_data_structures.Mailbox.Letter.{letter}
use c_data_structures.Mailbox.RoundTrip.{TakesLast, mbox_enqueue-take_message}
use c_data_structures.Mailbox.Overlay.{overlay}
use c_data_structures.Mailbox.Overlap.{TakesFirst, two_sent, second-over_first}
use c_data_structures.Mailbox.Area.{mbox_enqueue-inside}
use c_data_structures.Mailbox.Registry.{IsRegistry}
use c_data_structures.Mailbox.Lifetime.{loaded, Life-IsRegistry}
use c_data_structures.Mailbox.Returns.{Returns, mbox_dequeue-Returns}

abbrev box : Mailbox
box = new_mailbox (98 ∷ []) 0 4 64

abbrev caller : Caller
caller = record { pid = 7; readable = true; writable = (λ n. true); memory = true }

abbrev file : FileData
file = record { attached = true; channel_mask = 65535; reader_idx = 1 }

abbrev request_all : RecvReq
request_all = record {
  channel_mask = 65535;
  timeout_ms = 0;
  out_size = 0;
  out_msg_id = 0;
  out_channel = 0;
  out_flags = 0;
}

box-IsQueue : IsQueue box.queue
box-IsQueue = new_mailbox-IsQueue (98 ∷ []) 0 4 64 (omega arith) (omega arith)

-- A mailbox with one message on channel 3.
abbrev loaded_box : Mailbox
loaded_box = (mbox_enqueue 7 box 3 (10 ∷ 20 ∷ []) 0).1

loaded_box-IsQueue : IsQueue loaded_box.queue
loaded_box-IsQueue = Steps-IsQueue box-IsQueue (step start (wrote 7 3 (10 ∷ 20 ∷ []) 0))

abbrev message : Received
message = letter 1 3 0 (10 ∷ 20 ∷ [])

abbrev emptied_box : Mailbox
emptied_box = record loaded_box { queue = received loaded_box.queue 0 2 }

loaded_box-take : take_message loaded_box 65535 64 ≡ ok (some message, emptied_box)
unfolding take_message find_entry matches taken read_entry received mbox_enqueue mbox_queue_full
    unlocked sent new_mailbox fill_entry put_bytes get_bytes mbox_get_entry
loaded_box-take = refl

loaded_box-taken :
    take_message loaded_box request_all.channel_mask loaded_box.queue.msg_size
    ≡ ok (some message, emptied_box)
unfolding mbox_enqueue mbox_queue_full unlocked sent new_mailbox fill_entry put_bytes mbox_get_entry
loaded_box-taken = loaded_box-take

perform-IsQueue_example :
    IsQueue (outcome file (mbox_enqueue 7 box 0 (1 ∷ 2 ∷ []) 0).1 nothing (pos 2)).mbox.queue
unfolding perform mbox_write
perform-IsQueue_example =
    perform-IsQueue caller [] file box (write_call (1 ∷ 2 ∷ []))
      (outcome file (mbox_enqueue 7 box 0 (1 ∷ 2 ∷ []) 0).1 nothing (pos 2)) tt refl box-IsQueue

take_message-first_example : TookFirst loaded_box 65535 64 message emptied_box
take_message-first_example =
    take_message-first loaded_box 65535 64 message emptied_box loaded_box-IsQueue loaded_box-take

-- Two messages, of which a receiver takes the second one and so loses the slot of the first.
abbrev two_box : Mailbox
two_box = (mbox_enqueue 7 loaded_box 4 (30 ∷ []) 0).1

abbrev passed_box : Mailbox
passed_box = record two_box { queue = received two_box.queue 1 1 }

two_box-take : take_message two_box 16 64 ≡ ok (some (letter 2 4 0 (30 ∷ [])), passed_box)
unfolding take_message find_entry matches taken read_entry received mbox_enqueue mbox_queue_full
    unlocked sent new_mailbox fill_entry put_bytes get_bytes mbox_get_entry
two_box-take = refl

-- Four messages fill the mailbox.
abbrev full_box : Mailbox
full_box = record box { queue = record box.queue { head = 4; count = 4; total_sent = 4 } }

mbox_write-full_example :
    (r : Outcome) × (mbox_write caller file full_box (replicate 25 1) ≡ ok r)
    × (r.ret ≡ pos 25)
    × Unsent full_box r.mbox
unfolding new_mailbox
mbox_write-full_example =
    mbox_write-full caller file full_box (replicate 25 1) refl refl (omega arith) (omega arith)

Steps-accepts_example :
    (lost passed_box.queue < passed_box.queue.depth)
    × ((pid channel flags : ℕ) (payload : List ℕ)
        → passed_box.queue.head ≡ passed_box.queue.tail
        → length payload ≤ passed_box.queue.msg_size
        → (mbox_enqueue pid passed_box channel payload flags).1.queue
          ≡ sent passed_box.queue (length payload))
Steps-accepts_example = Steps-accepts (98 ∷ []) 0 4 64 (omega arith) (omega arith) (
    step (step (step start (wrote 7 3 (10 ∷ 20 ∷ []) 0)) (wrote 7 4 (30 ∷ []) 0))
      (took 16 64 two_box-take))

mbox_enqueue-take_message_example :
    TakesLast loaded_box 65535 box.queue.count (letter 1 3 0 (10 ∷ 20 ∷ []))
unfolding new_mailbox matches
mbox_enqueue-take_message_example =
    mbox_enqueue-take_message 7 box 3 (10 ∷ 20 ∷ []) 0 65535 box-IsQueue refl (omega arith)
      (omega arith) (omega arith) refl

-- Three bytes 1, 2 and 3 are read as the first three of the identifier 2.
second-over_first_example :
    TakesFirst
      (two_sent box 7 3 (1 ∷ 2 ∷ 3 ∷ []) 0 8 4 (9 ∷ []) 0)
      65535
      (record { msg_id = 1; channel = 3; flags = 0; size = 3; payload = 2 ∷ 0 ∷ 0 ∷ [] })
unfolding new_mailbox matches overlay
second-over_first_example =
    second-over_first box 7 3 (1 ∷ 2 ∷ 3 ∷ []) 0 8 4 (9 ∷ []) 0 65535 box-IsQueue refl (omega arith)
      (omega arith) (omega arith) (omega arith) (omega arith) (omega arith) (omega arith) refl

mbox_enqueue-inside_example : loaded_box.entries 336 ≡ box.entries 336
unfolding new_mailbox total_size
mbox_enqueue-inside_example =
    mbox_enqueue-inside 7 box 3 (10 ∷ 20 ∷ []) 0 336 (omega arith) (omega arith)

abbrev module_state : MboxGlobal
module_state = (mbox_init (pos 0) 240 none).1

abbrev used_up : MboxGlobal
used_up = record module_state { next_id = 64 }

used_up-IsRegistry : IsRegistry used_up
unfolding mbox_init
used_up-IsRegistry =
    let h = Life-IsRegistry (loaded 240) in
    record { slots = h.slots; own_id = h.own_id; unused = (λ i le lt. ground arith) }

-- The clock is 60 ms after the start at the first look, and 120 ms at the second.
abbrev waits : List Wait
waits =
    record { elapsed_ms = 60; others = (λ m. m); woken = pos 1 }
    ∷ record { elapsed_ms = 120; others = (λ m. m); woken = pos 1 }
    ∷ []

mbox_dequeue-Returns_example : Returns (mbox_dequeue waits box 65535 64 (pos 100))
unfolding new_mailbox
mbox_dequeue-Returns_example =
    mbox_dequeue-Returns waits box 65535 64 100 (λ i. omega arith) ((λ m h. h), ((λ m h. h), tt))
      (inr (inl (omega arith)))
