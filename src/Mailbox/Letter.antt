-- ===== src/Mailbox/Letter.antt =====
-- The entry of a message in the shared memory of mailbox_framework/kernel/mbox_kern.c.
use c_data_structures.Prelude.{
  ℕ, ◌+◌, ◌%◌, ◌<◌, ◌≤◌, ◌≡◌, ◌∙◌, ◌⊎◌, inl, ap, List, [], arith, if◌then◌else◌, leb, length,
  get_or,
}
use c_data_structures.Mailbox.Memory.{
  Memory, put_bytes, get_bytes, put_bytes-inside, put_bytes-outside,
}
use c_data_structures.Mailbox.Types.{u16, u32, Received}
use c_data_structures.Mailbox.Transfer.{entry_msg_id, entry_bytes, header, fill_entry}
use c_data_structures.Mailbox.Receive.{read_entry}

pub fill_entry-header :
    (m : Memory) (entry msg_id pid channel flags : ℕ) (payload : List ℕ) (i : ℕ)
    → i < 20
    → fill_entry m entry msg_id pid channel flags payload (entry + i)
      ≡ get_or (header msg_id pid channel flags (u16 (length payload))) i 0
unfolding fill_entry
fill_entry-header m entry msg_id pid channel flags payload i lt =
    let bytes = header msg_id pid channel flags (u16 (length payload)) in
    put_bytes-outside (put_bytes m entry bytes) (entry + 20) payload (entry + i) (inl (omega arith))
    ∙ put_bytes-inside m entry bytes i lt

pub fill_entry-outside :
    (m : Memory) (entry msg_id pid channel flags : ℕ) (payload : List ℕ) (i : ℕ)
    → ((i < entry) ⊎ (entry + 20 + length payload ≤ i))
    → fill_entry m entry msg_id pid channel flags payload i ≡ m i
unfolding fill_entry
fill_entry-outside m entry msg_id pid channel flags payload i out =
    let bytes = header msg_id pid channel flags (u16 (length payload)) in
    put_bytes-outside (put_bytes m entry bytes) (entry + 20) payload i (ground arith)
    ∙ put_bytes-outside m entry bytes i (ground arith)

-- A message as it should come back.
abbrev pub letter : (msg_id channel flags : ℕ) → List ℕ → Received
letter msg_id channel flags payload = record {
  msg_id = msg_id;
  channel = channel;
  flags = flags % 256;
  size = length payload;
  payload = payload;
}

-- The bytes at `entry` are this header.
abbrev pub IsHeader : Memory → (entry msg_id pid channel flags size : ℕ) → Type 0
IsHeader m entry msg_id pid channel flags size =
    (i : ℕ) → i < 20 → m (entry + i) ≡ get_or (header msg_id pid channel flags (u16 size)) i 0

IsHeader-msg_id :
    (m : Memory) (entry msg_id pid channel flags size : ℕ)
    → IsHeader m entry msg_id pid channel flags size
    → entry_msg_id m entry ≡ u32 msg_id
IsHeader-msg_id m entry msg_id pid channel flags size h =
    let z : entry + 0 ≡ entry = omega arith in
    omega
      (arith, ap m z, h 0 (omega arith), h 1 (omega arith), h 2 (omega arith), h 3 (omega arith))

IsHeader-size :
    (m : Memory) (entry msg_id pid channel flags size : ℕ)
    → IsHeader m entry msg_id pid channel flags size
    → entry_bytes m entry ≡ u16 size
IsHeader-size m entry msg_id pid channel flags size h =
    let z : entry + 19 ≡ entry + 18 + 1 = omega arith in
    omega (arith, ap m z, h 18 (omega arith), h 19 (omega arith))

pub IsHeader-read_entry :
    (m : Memory) (entry msg_id pid channel flags size max_size : ℕ)
    → IsHeader m entry msg_id pid channel flags size
    → size < 65536
    → size ≤ max_size
    → read_entry m entry max_size ≡ record {
      msg_id = u32 msg_id;
      channel = channel % 256;
      flags = flags % 256;
      size = size;
      payload = get_bytes m (entry + 20) size;
    }
unfolding read_entry
IsHeader-read_entry m entry msg_id pid channel flags size max_size h short fits =
    let e1 = IsHeader-msg_id m entry msg_id pid channel flags size h in
    let e2 : entry_bytes m entry ≡ size =
      omega (arith, IsHeader-size m entry msg_id pid channel flags size h) in
    let e3 = h 16 (omega arith) in
    let e4 = h 17 (omega arith) in
    let e5 : (if leb (entry_bytes m entry) max_size
          then get_bytes m (entry + 20) (entry_bytes m entry)
          else [])
        ≡ get_bytes m (entry + 20) size =
      ground (arith, ap (get_bytes m (entry + 20)) e2) in
    cc
