-- ===== src/Mailbox/Search.antt =====
-- The search of mailbox_framework/kernel/mbox_kern.c for a message on the channels of a mask.
use c_data_structures.Prelude.{
  ℕ, zero, suc, ◌+◌, ◌-◌, ◌<◌, ◌≡◌, ◌∙◌, sym, ap, Bool, true, false, Option, none, some, arith,
  if◌then◌else◌, ◌==◌, if_intro, eq_of_some,
}
use c_data_structures.Prelude.Run.{Run, ok, eq_of_ok, bind_inv, bind_ok}
use c_data_structures.Mailbox.Memory.{Memory}
use c_data_structures.Mailbox.Types.{u32, MboxQueue, Mailbox, Received}
use c_data_structures.Mailbox.Transfer.{mbox_get_entry, entry_channel}
use c_data_structures.Mailbox.Receive.{
  matches, find_entry, received, read_entry, taken, take_message,
}
use c_data_structures.Mailbox.Window.{find_entry-within, received-lost, IsQueue, span, lost}

-- The test of the slot `i` by a search.
abbrev pub slot_matches : MboxQueue → Memory → (mask i : ℕ) → Run Bool
slot_matches q m mask i = matches mask (entry_channel m (mbox_get_entry q i))

-- The first match is `k` slots after `i`, and every slot before it was passed over.
pub record IsFirst (q : MboxQueue) (m : Memory) (mask i k : ℕ) : Type 0 where
  pub found : slot_matches q m mask (u32 (i + k)) ≡ ok true
  pub passed : (t : ℕ) → t < k → slot_matches q m mask (u32 (i + t)) ≡ ok false

IsFirst-next :
    (q : MboxQueue) (m : Memory) (mask i k : ℕ)
    → i < 4294967296
    → slot_matches q m mask i ≡ ok false
    → IsFirst q m mask (u32 (i + 1)) k
    → IsFirst q m mask i (suc k)
IsFirst-next q m mask i k fits here h = record {
  found = ap (slot_matches q m mask) (omega arith) ∙ h.found;
  passed = (λ t lt.
      elim t as (λ t. t < suc k → slot_matches q m mask (u32 (i + t)) ≡ ok false) [
        | zero ↦ (λ _. ap (slot_matches q m mask) (omega arith) ∙ here)
        | suc t ↦ (λ lt. ap (slot_matches q m mask) (omega arith) ∙ h.passed t (omega arith))
      ]
        lt);
}

find_entry-some :
    (left : ℕ) (q : MboxQueue) (m : Memory) (mask i j : ℕ)
    → i < 4294967296
    → find_entry left q m mask i ≡ ok (some j)
    → (k : ℕ) × (j ≡ u32 (i + k)) × (k < left) × IsFirst q m mask i k
unfolding find_entry
find_entry-some zero q m mask i j fits = λ e. ground arith
find_entry-some (suc left) q m mask i j fits =
    let next = find_entry-some left q m mask (u32 (i + 1)) j (omega arith) in
    let rest = find_entry left q m mask (u32 (i + 1)) in
    let Goal = (k : ℕ) × (j ≡ u32 (i + k)) × (k < suc left) × IsFirst q m mask i k in
    if_intro (λ (r : Run (Option ℕ)). r ≡ ok (some j) → Goal) (i == q.head) _ _
      (λ h e. ground arith)
      (λ h e.
        let (b, p, e') =
          bind_inv (slot_matches q m mask i) (λ (found : Bool). if found then ok (some i) else rest)
            e in
        elim b
            as (λ (b : Bool).
              slot_matches q m mask i ≡ ok b
              → (if b then ok (some i) else rest) ≡ ok (some j)
              → Goal) [
                | true ↦ (λ p e. (
                  0,
                  omega (arith, eq_of_some (eq_of_ok e)),
                  omega arith,
                  record {
                    found = ap (slot_matches q m mask) (omega arith) ∙ p;
                    passed = (λ t lt. ground arith);
                  },
                ))
                | false ↦ (λ p e.
                    let (k, at, lt, first) = next e in
                    (suc k, omega arith, omega arith, IsFirst-next q m mask i k fits p first))
              ]
          p e')

-- A search without a match passed over every slot up to the head.
find_entry-none :
    (left : ℕ) (q : MboxQueue) (m : Memory) (mask i : ℕ)
    → i < 4294967296
    → q.head < 4294967296
    → find_entry left q m mask i ≡ ok none
    → (t : ℕ) → t < left
    → t < u32 (q.head + 4294967296 - i)
    → slot_matches q m mask (u32 (i + t)) ≡ ok false
unfolding find_entry
find_entry-none zero q m mask i fits hh = λ e t lt within. ground arith
find_entry-none (suc left) q m mask i fits hh =
    let next = find_entry-none left q m mask (u32 (i + 1)) (omega arith) hh in
    let rest = find_entry left q m mask (u32 (i + 1)) in
    let Goal =
      (t : ℕ)
      → t < suc left
      → t < u32 (q.head + 4294967296 - i)
      → slot_matches q m mask (u32 (i + t)) ≡ ok false in
    if_intro (λ (r : Run (Option ℕ)). r ≡ ok none → Goal) (i == q.head) _ _
      (λ h e t lt within. ground arith)
      (λ h e.
        let (b, p, e') =
          bind_inv (slot_matches q m mask i) (λ (found : Bool). if found then ok (some i) else rest)
            e in
        elim b
            as (λ (b : Bool).
              slot_matches q m mask i ≡ ok b → (if b then ok (some i) else rest) ≡ ok none → Goal) [
                | true ↦ (λ p e. ground arith)
                | false ↦ (λ p e t.
                    elim t
                      as (λ t.
                        t < suc left
                        → t < u32 (q.head + 4294967296 - i)
                        → slot_matches q m mask (u32 (i + t)) ≡ ok false) [
                          | zero ↦ (λ lt within. ap (slot_matches q m mask) (omega arith) ∙ p)
                          | suc t ↦ (λ lt within.
                              ap (slot_matches q m mask) (omega arith)
                              ∙ next e t (omega arith) (ground arith))
                        ])
              ]
          p e')

abbrev pub TookFirst : (mbox : Mailbox) → (mask max_size : ℕ) → Received → Mailbox → Type 0
TookFirst mbox mask max_size got after =
    (k : ℕ) × IsFirst mbox.queue mbox.entries mask mbox.queue.tail k
    × (got
        ≡ read_entry mbox.entries (mbox_get_entry mbox.queue (u32 (mbox.queue.tail + k))) max_size)
    × (after.queue.tail ≡ u32 (mbox.queue.tail + k + 1))
    × (lost after.queue ≡ lost mbox.queue + k)

taken-first :
    (mbox : Mailbox) (mask max_size : ℕ) (got : Received) (after : Mailbox) (found : Option ℕ)
    → IsQueue mbox.queue
    → find_entry mbox.queue.depth mbox.queue mbox.entries mask mbox.queue.tail ≡ ok found
    → taken mbox max_size found ≡ (some got, after)
    → TookFirst mbox mask max_size got after
unfolding taken received span
taken-first mbox mask max_size got after none h f same = ground (arith, ap (λ t. t.0) same)
taken-first mbox mask max_size got after (some j) h f same =
    let q = mbox.queue in
    let (k, at, lt, first) = find_entry-some q.depth q mbox.entries mask q.tail j h.tail_fits f in
    let (fits, within) =
      find_entry-within q.depth q mbox.entries mask q.tail j h.tail_fits h.head_fits f in
    let cost =
      received-lost q j (read_entry mbox.entries (mbox_get_entry q j) max_size).size h fits
        within in
    let size = h.sane in
    (
      k,
      first,
      sym (eq_of_some (ap (λ t. t.0) same))
          ∙ ap (λ j. read_entry mbox.entries (mbox_get_entry q j) max_size) at,
      sym (ap (λ t. t.1.queue.tail) same) ∙ omega (arith, at),
      sym (ap (λ t. lost t.1.queue) same) ∙ (cost ∙ omega arith),
    )

-- What a pass of `mbox_dequeue` takes from a valid queue is the first message, from `tail` on,
-- on a channel of the mask: it reads this entry, `tail` moves behind it, and the slots of the
-- messages that it passed over, as many as they are, are lost: they stay counted and hold no
-- message.
pub take_message-first :
    (mbox : Mailbox) (mask max_size : ℕ) (got : Received) (after : Mailbox)
    → IsQueue mbox.queue
    → take_message mbox mask max_size ≡ ok (some got, after)
    → TookFirst mbox mask max_size got after
unfolding take_message
take_message-first mbox mask max_size got after h e =
    let q = mbox.queue in
    let (found, f, same) =
      bind_ok (find_entry q.depth q mbox.entries mask q.tail) (taken mbox max_size) e in
    taken-first mbox mask max_size got after found h f same
