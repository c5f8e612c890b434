-- ===== src/MboxLib/System.antt =====
-- What mailbox_framework/lib/mbox_lib.c asks of the operating system, and its handles.
use c_data_structures.Prelude.{ℕ, ◌==◌, Option, List, if◌then◌else◌}
use c_data_structures.Prelude.Int.{ℤ}
use c_data_structures.Prelude.Run.{Run}
use c_data_structures.Mailbox.Types.{RecvReq, MboxStats}
use c_data_structures.Mailbox.Files.{Copied}

-- The system calls on a state `S`. A result below 0 stands for -1 with this `errno` negated. A read
-- is given what stands in the buffer, and says what it puts there; `stats_call` gives what stands
-- in its structure then.
pub record System (S : Type 0) : Type 0 where
  pub open_device : S → (path : List ℕ) → (flags : ℕ) → ℤ × S
  pub close_device : S → (fd : ℤ) → S
  pub unmap : S → (address size : ℕ) → S
  pub read : S → (fd : ℤ) → (count : ℕ) → RecvReq → Run (ℤ × Copied × S)
  pub writev : S → (fd : ℤ) → List (List ℕ) → Run (ℤ × S)
  pub poll : S → (fd timeout_ms : ℤ) → Run (ℤ × S)
  pub flush_call : S → (fd : ℤ) → Run (ℤ × S)
  pub stats_call : S → (fd : ℤ) → Run (ℤ × MboxStats × S)

-- `struct mbox_handle`; nothing sets `is_owner`, and a NULL `shmem` is `none`.
pub record MboxHandle : Type 0 where
  pub name : List ℕ
  pub fd : ℤ
  pub shmem : Option ℕ
  pub shmem_size : ℕ
  pub depth : ℕ
  pub msg_size : ℕ
  pub flags : ℕ

-- The handles by their addresses, and the rest of the system.
pub record World (S : Type 0) : Type 0 where
  pub heap : ℕ → Option MboxHandle
  pub state : S

unfoldable pub set_handle : (ℕ → Option MboxHandle) → ℕ → Option MboxHandle → ℕ → Option MboxHandle
set_handle heap a h b = if a == b then h else heap b
