-- ===== src/Mailbox/Manage.antt =====
-- The mailboxes of the module, from `mbox_create` on in mailbox_framework/kernel/mbox_kern.c. The
-- kernel's answers are parameters; the device nodes it makes are not part of the state.
use c_data_structures.Prelude.{
  ℕ, zero, suc, ◌+◌, ◌-◌, ◌*◌, Bool, true, false, not, ◌||◌, ◌&&◌, Option, none, some, List, [],
  ◌∷◌, ltb, leb, ◌==◌, if◌then◌else◌, length, take, get_elem?, set,
}
use c_data_structures.Prelude.Int.{ℤ, pos, is_zero}
use c_data_structures.Prelude.Run.{Run, ok, fault}
use c_data_structures.Mailbox.Types.{
  MboxQueue, Mailbox, max_mailboxes, mbox_min_depth, mbox_max_depth, mbox_min_size, mbox_max_size,
  mbox_name_len, enomem, einval,
}
use c_data_structures.Mailbox.Transfer.{entry_size}

-- `mbox_global`; `region` and `class` say that the device numbers and the class are held. A
-- `next_id` from 2^31 on stands for a negative `int`.
pub record MboxGlobal : Type 0 where
  pub region : Bool
  pub class : Bool
  pub major : ℕ
  pub instances : List (Option Mailbox)
  pub next_id : ℕ

-- `sizeof(struct mbox_queue)`, on lines of 64 bytes.
abbrev pub queue_size : ℕ
queue_size = 192

unfoldable pub total_size : (depth msg_size : ℕ) → ℕ
total_size depth msg_size = queue_size + depth * (entry_size + msg_size)

abbrev pub empty_queue : (depth msg_size : ℕ) → MboxQueue
empty_queue depth msg_size = record {
  head = 0;
  tail = 0;
  depth = depth;
  msg_size = msg_size;
  count = 0;
  total_sent = 0;
  total_recv = 0;
  messages_dropped = 0;
  bytes_sent = 0;
  bytes_recv = 0;
}

-- The instance that `mbox_create` sets up, with the name cut to its array.
unfoldable pub new_mailbox : (name : List ℕ) → (id depth msg_size : ℕ) → Mailbox
new_mailbox name id depth msg_size = record {
  name = take (mbox_name_len - 1) name;
  id = id;
  shmem_size = total_size depth msg_size;
  queue = empty_queue depth msg_size;
  entries = (λ offset. 0);
  refcount = 0;
  open_count = 0;
  wakeups = 0;
}

-- What `mbox_create` returns: `ERR_PTR` or the instance.
pub data Created : Type 0 where
  err_ptr : ℤ → Created
  created : Mailbox → Created

-- The checks of the arguments.
unfoldable pub valid_args : (name : List ℕ) → (depth msg_size : ℕ) → Bool
valid_args name depth msg_size =
    not (length name == 0)
    && (leb mbox_min_depth depth && leb depth mbox_max_depth)
    && (leb mbox_min_size msg_size && leb msg_size mbox_max_size)

-- The slot of an identifier is free; one that is out of range is not.
unfoldable pub free_slot : List (Option Mailbox) → (id : ℕ) → Bool
free_slot instances id = elim (get_elem? instances id) [
  | none ↦ false
  | some slot ↦ elim slot [ none ↦ true | some mbox ↦ false ]
]

-- `mbox_create`, where `kzalloc` and `vmalloc` say whether they have memory. A NULL name is the
-- empty one.
unfoldable pub mbox_create :
    (kzalloc vmalloc : Bool)
    → MboxGlobal
    → (name : List ℕ) → (depth msg_size : ℕ) → Run (Created × MboxGlobal)
mbox_create kzalloc vmalloc g name depth msg_size =
    let id = g.next_id in
    let mbox = new_mailbox name id depth msg_size in
    let g' = record g { next_id = id + 1 } in
    if not (valid_args name depth msg_size)
    then ok (err_ptr einval, g)
    else if not kzalloc || not vmalloc
    then ok (err_ptr enomem, g)
    else if leb 2147483648 id
    then fault
    else if ltb id max_mailboxes && free_slot g.instances id
    then ok (created mbox, record g' { instances = set g.instances id (some mbox) })
    else ok (err_ptr enomem, g')

-- `mbox_destroy` of an instance or of NULL.
unfoldable pub mbox_destroy : MboxGlobal → Option Mailbox → MboxGlobal
mbox_destroy g none = g
mbox_destroy g (some mbox) =
    if ltb mbox.id max_mailboxes then record g { instances = set g.instances mbox.id none } else g

abbrev pub no_instances : (n : ℕ) → List (Option Mailbox)
no_instances zero = []
no_instances (suc n) = none ∷ no_instances n

-- `mbox_init`: what `alloc_chrdev_region` returns, the major number it gives, and the error of
-- `class_create` if there is one.
unfoldable pub mbox_init : (region : ℤ) → (major : ℕ) → (class : Option ℤ) → ℤ × MboxGlobal
mbox_init region major class =
    let g : MboxGlobal = record {
      region = is_zero region;
      class = false;
      major = (if is_zero region then major else 0);
      instances = no_instances max_mailboxes;
      next_id = 0;
    } in
    if not (is_zero region) then (region, g) else elim class [
      | none ↦ (pos 0, record g { class = true })
      | some err ↦ (err, record g { region = false })
    ]

-- The loop of `mbox_exit` from `i` on.
unfoldable pub destroy_all : (left i : ℕ) → MboxGlobal → MboxGlobal
destroy_all zero i g = g
destroy_all (suc left) i g = elim (get_elem? g.instances i) [
  | none ↦ g
  | some slot ↦ destroy_all left (i + 1) (mbox_destroy g slot)
]

unfoldable pub mbox_exit : MboxGlobal → MboxGlobal
mbox_exit g = record (destroy_all max_mailboxes 0 g) { class = false; region = false }
