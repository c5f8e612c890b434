-- ===== src/Mailbox/Lifetime.antt =====
-- The module of mailbox_framework/kernel/mbox_kern.c from `mbox_init` to `mbox_exit`.
use mathlib.Core.Path.{subst}
use c_data_structures.Prelude.{
  ℕ, zero, suc, ◌+◌, ◌<◌, ◌≤◌, ◌≡◌, ◌≢◌, inl, inr, refl, sym, ap, Bool, Option, none, some, List,
  [], ◌∷◌, arith, ltb, ◌==◌, if_intro, Bool-cases, length, get_elem?, set, get_elem?-set_self,
}
use c_data_structures.Prelude.Int.{pos}
use c_data_structures.Prelude.Run.{ok}
use c_data_structures.Mailbox.Types.{Mailbox}
use c_data_structures.Mailbox.Manage.{
  MboxGlobal, Created, created, mbox_create, mbox_destroy, mbox_init, destroy_all, mbox_exit,
  no_instances,
}
use c_data_structures.Mailbox.Registry.{
  IsRegistry, mbox_create-IsRegistry, mbox_destroy-IsRegistry, destroy_all-none,
}

slot_of :
    (xs : List (Option Mailbox)) (i : ℕ)
    → i < length xs
    → (slot : Option Mailbox) × (get_elem? xs i ≡ some slot)
slot_of [] i lt = ground arith
slot_of (x ∷ xs) zero lt = (x, refl)
slot_of (x ∷ xs) (suc i) lt = slot_of xs i (omega arith)

destroyed_slot :
    (g : MboxGlobal) (i : ℕ) (slot : Option Mailbox)
    → IsRegistry g
    → i < 64
    → get_elem? g.instances i ≡ some slot
    → get_elem? (mbox_destroy g slot).instances i ≡ some none
unfolding mbox_destroy
destroyed_slot g i none h lt e = e
destroyed_slot g i (some mbox) h lt e =
    let own = h.own_id i mbox e in
    if_intro (λ (t : MboxGlobal). get_elem? t.instances i ≡ some none) (ltb mbox.id 64) _ _
      (λ _.
        subst (λ k. get_elem? (set g.instances k none) i ≡ some none) (sym own)
          (get_elem?-set_self g.instances i none (omega (arith, h.slots))))
      (λ big. ground arith)

destroy_all-all :
    (left i : ℕ) (g : MboxGlobal) (j : ℕ)
    → IsRegistry g
    → i + left ≡ 64
    → i ≤ j
    → j < 64
    → get_elem? (destroy_all left i g).instances j ≡ some none
unfolding destroy_all
destroy_all-all zero i g j h e le lt = ground arith
destroy_all-all (suc left) i g j h e le lt =
    let (slot, found) = slot_of g.instances i (omega (arith, h.slots)) in
    let next = mbox_destroy g slot in
    let h' = mbox_destroy-IsRegistry g slot h in
    let step =
      ap
        (λ (o : Option (Option Mailbox)). elim o as (λ _. MboxGlobal) [
          | none ↦ g
          | some slot ↦ destroy_all left (i + 1) (mbox_destroy g slot)
        ])
        found in
    subst (λ (t : MboxGlobal). get_elem? t.instances j ≡ some none) (sym step)
      (elim (Bool-cases (i == j)) [
        | inl same ↦
            let here : i ≡ j = ground arith in
            destroy_all-none left (i + 1) next j (
              subst (λ k. get_elem? next.instances k ≡ some none) here
                (destroyed_slot g i slot h (omega arith) found))
        | inr differ ↦ destroy_all-all left (i + 1) next j h' (omega arith) (ground arith) lt
      ])

-- `mbox_exit` on a valid table of mailboxes leaves no mailbox in any of the 64 slots.
mbox_exit-empty :
    (g : MboxGlobal) (i : ℕ)
    → IsRegistry g
    → i < 64
    → get_elem? (mbox_exit g).instances i ≡ some none
unfolding mbox_exit
mbox_exit-empty g i h lt = destroy_all-all 64 0 g i h refl (omega arith) lt

no_instances-none : (n i : ℕ) → i < n → get_elem? (no_instances n) i ≡ some none
no_instances-none zero i lt = ground arith
no_instances-none (suc n) zero lt = refl
no_instances-none (suc n) (suc i) lt = no_instances-none n i (omega arith)

no_instances-id :
    (n i k : ℕ) (mbox : Mailbox) → get_elem? (no_instances n) i ≡ some (some mbox) → mbox.id ≡ k
no_instances-id zero i k mbox e = ground arith
no_instances-id (suc n) zero k mbox e = ground arith
no_instances-id (suc n) (suc i) k mbox e = no_instances-id n i k mbox e

-- The module is loaded, and mailboxes come and go.
pub data Life : MboxGlobal → Type 0 where
  loaded : (major : ℕ) → Life (mbox_init (pos 0) major none).1
  creates :
      {g g' : MboxGlobal} (kzalloc vmalloc : Bool) (name : List ℕ) (depth msg_size : ℕ)
      (r : Created)
      → Life g
      → mbox_create kzalloc vmalloc g name depth msg_size ≡ ok (r, g')
      → Life g'
  destroys : {g : MboxGlobal} (mbox : Option Mailbox) → Life g → Life (mbox_destroy g mbox)

init-IsRegistry : (major : ℕ) → IsRegistry (mbox_init (pos 0) major none).1
unfolding mbox_init
init-IsRegistry major = record {
  slots = refl;
  own_id = (λ i mbox at. no_instances-id 64 i i mbox at);
  unused = (λ i le lt. no_instances-none 64 i lt);
}

-- The table stays valid while the module is loaded.
pub Life-IsRegistry : {g : MboxGlobal} → Life g → IsRegistry g
Life-IsRegistry (loaded major) = init-IsRegistry major
Life-IsRegistry (creates kzalloc vmalloc name depth msg_size r before e) =
    (mbox_create-IsRegistry _ _ kzalloc vmalloc name depth msg_size r (Life-IsRegistry before) e).0
Life-IsRegistry (destroys mbox before) = mbox_destroy-IsRegistry _ mbox (Life-IsRegistry before)

-- Creations and destructions from `g` on.
pub data Later (g : MboxGlobal) : MboxGlobal → Type 0 where
  now : Later g g
  creates_then :
      {g' g'' : MboxGlobal} (kzalloc vmalloc : Bool) (name : List ℕ) (depth msg_size : ℕ)
      (r : Created)
      → Later g g'
      → mbox_create kzalloc vmalloc g' name depth msg_size ≡ ok (r, g'')
      → Later g g''
  destroys_then :
      {g' : MboxGlobal} (mbox : Option Mailbox) → Later g g' → Later g (mbox_destroy g' mbox)

mbox_destroy-next_id :
    (g : MboxGlobal) (mbox : Option Mailbox) → (mbox_destroy g mbox).next_id ≡ g.next_id
unfolding mbox_destroy
mbox_destroy-next_id g none = refl
mbox_destroy-next_id g (some mbox) =
    if_intro (λ (t : MboxGlobal). t.next_id ≡ g.next_id) (ltb mbox.id 64) _ _ (λ _. refl)
      (λ _. refl)

Later-next_id :
    {g g' : MboxGlobal} → IsRegistry g → Later g g' → IsRegistry g' × (g.next_id ≤ g'.next_id)
Later-next_id h now = (h, omega arith)
Later-next_id {g' = g''} h (creates_then {g' = g'} kzalloc vmalloc name depth msg_size r before e) =
    let (h', le) = Later-next_id h before in
    let (h'', le') = mbox_create-IsRegistry g' g'' kzalloc vmalloc name depth msg_size r h' e in
    (h'', omega arith)
Later-next_id h (destroys_then {g' = g'} mbox before) =
    let (h', le) = Later-next_id h before in
    (mbox_destroy-IsRegistry g' mbox h', omega (arith, mbox_destroy-next_id g' mbox))

create-refuses :
    (g : MboxGlobal) (kzalloc vmalloc : Bool) (name : List ℕ) (depth msg_size : ℕ) (mbox : Mailbox)
    (g' : MboxGlobal)
    → 64 ≤ g.next_id
    → mbox_create kzalloc vmalloc g name depth msg_size ≢ ok (created mbox, g')
unfolding mbox_create
create-refuses g kzalloc vmalloc name depth msg_size mbox g' over = ground arith

-- After 64 identifiers were used `mbox_create` never again gives a mailbox, through whatever
-- creations and destructions come later.
pub Later-refuses :
    {g g' : MboxGlobal} (kzalloc vmalloc : Bool) (name : List ℕ) (depth msg_size : ℕ)
    (mbox : Mailbox) (g'' : MboxGlobal)
    → IsRegistry g
    → 64 ≤ g.next_id
    → Later g g'
    → mbox_create kzalloc vmalloc g' name depth msg_size ≢ ok (created mbox, g'')
Later-refuses {g' = g'} kzalloc vmalloc name depth msg_size mbox g'' h over later =
    create-refuses g' kzalloc vmalloc name depth msg_size mbox g''
      (omega (arith, (Later-next_id h later).1))
