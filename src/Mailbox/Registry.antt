-- ===== src/Mailbox/Registry.antt =====
-- The table of mailboxes of mailbox_framework/kernel/mbox_kern.c.
use mathlib.Core.Path.{subst}
use c_data_structures.Prelude.{
  ℕ, zero, suc, ◌+◌, ◌<◌, ◌≤◌, ◌≡◌, ◌≢◌, ◌∙◌, inl, inr, refl, sym, ap, Bool, true, false, not, ◌||◌,
  ◌&&◌, Option, none, some, List, [], ◌∷◌, arith, if◌then◌else◌, ltb, leb, ◌==◌, if_intro,
  Bool-cases, length, get_elem?, set, eq_of_some, get_elem?-set_self, get_elem?-set_ne, length-set,
}
use c_data_structures.Prelude.Run.{Run, ok, eq_of_ok}
use c_data_structures.Mailbox.Types.{Mailbox, enomem}
use c_data_structures.Mailbox.Manage.{
  MboxGlobal, Created, err_ptr, created, new_mailbox, valid_args, free_slot, mbox_create,
  mbox_destroy, destroy_all,
}

-- Slot `i` holds nothing or the mailbox `i`, and the slots from `next_id` on were never used.
pub record IsRegistry (g : MboxGlobal) : Type 0 where
  pub slots : length g.instances ≡ 64
  pub own_id : (i : ℕ) (mbox : Mailbox) → get_elem? g.instances i ≡ some (some mbox) → mbox.id ≡ i
  pub unused : (i : ℕ) → g.next_id ≤ i → i < 64 → get_elem? g.instances i ≡ some none

set-IsRegistry :
    (g : MboxGlobal) (mbox : Mailbox) (region class : Bool) (major : ℕ)
    → IsRegistry g
    → mbox.id ≡ g.next_id
    → mbox.id < 64
    → IsRegistry (record {
      region = region;
      class = class;
      major = major;
      instances = set g.instances mbox.id (some mbox);
      next_id = g.next_id + 1;
    })
set-IsRegistry g mbox region class major h e small = record {
  slots = length-set g.instances mbox.id (some mbox) ∙ h.slots;
  own_id = (λ i other at. elim (Bool-cases (mbox.id == i)) [
    | inl equal ↦
        let here : mbox.id ≡ i = ground arith in
        let found =
          subst (λ j. get_elem? (set g.instances mbox.id (some mbox)) j ≡ some (some other))
            (sym here) at in
        let same = eq_of_some (
          eq_of_some (
            sym found
            ∙ get_elem?-set_self g.instances mbox.id (some mbox) (omega (arith, h.slots)))) in
        ap (λ (m : Mailbox). m.id) same ∙ here
    | inr differs ↦
        let away : mbox.id ≢ i = ground arith in
        h.own_id i other (sym (get_elem?-set_ne g.instances (some mbox) away) ∙ at)
  ]);
  unused = (λ i later inside.
      get_elem?-set_ne g.instances (some mbox) (omega arith) ∙ h.unused i (omega arith) inside);
}

free_slot-none :
    (xs : List (Option Mailbox)) (i : ℕ) → get_elem? xs i ≡ some none → free_slot xs i ≡ true
unfolding free_slot
free_slot-none xs i e =
    ap
      (λ (o : Option (Option Mailbox)). elim o as (λ _. Bool) [
        | none ↦ false
        | some slot ↦ elim slot [ none ↦ true | some mbox ↦ false ]
      ])
      e

-- The mailbox in its slot, as long as there is one; the identifier is used up in any case.
unfoldable pub create_result : MboxGlobal → Mailbox → Run (Created × MboxGlobal)
create_result g mbox =
    if ltb g.next_id 64
    then ok (
      created mbox,
      record g { next_id = g.next_id + 1; instances = set g.instances g.next_id (some mbox) },
    )
    else ok (err_ptr enomem, record g { next_id = g.next_id + 1 })

-- In a valid table of mailboxes, with valid arguments and the memory granted, `mbox_create`
-- makes the mailbox in the slot of the next identifier when this is below 64, and else fails
-- with -ENOMEM; the identifier is used up either way, being below 2^31.
mbox_create-lem :
    (g : MboxGlobal) (name : List ℕ) (depth msg_size : ℕ)
    → IsRegistry g
    → g.next_id < 2147483648
    → valid_args name depth msg_size ≡ true
    → mbox_create true true g name depth msg_size
      ≡ create_result g (new_mailbox name g.next_id depth msg_size)
unfolding mbox_create create_result
mbox_create-lem g name depth msg_size h small valid =
    let free : g.next_id < 64 → free_slot g.instances g.next_id ≡ true =
      λ lt. free_slot-none g.instances g.next_id (h.unused g.next_id (omega arith) lt) in
    let P : Run (Created × MboxGlobal) → Type 0 =
      λ r. r ≡ create_result g (new_mailbox name g.next_id depth msg_size) in
    if_intro P (not (valid_args name depth msg_size)) _ _ (λ e. ground arith)
      (λ e.
        if_intro P (leb 2147483648 g.next_id) _ _ (λ e. ground arith)
          (λ e.
            if_intro P (ltb g.next_id 64 && free_slot g.instances g.next_id) _ _ (λ e. ground arith)
              (λ e. ground arith)))

pub mbox_create-IsRegistry :
    (g g' : MboxGlobal) (kzalloc vmalloc : Bool) (name : List ℕ) (depth msg_size : ℕ) (r : Created)
    → IsRegistry g
    → mbox_create kzalloc vmalloc g name depth msg_size ≡ ok (r, g')
    → IsRegistry g' × (g.next_id ≤ g'.next_id)
unfolding mbox_create new_mailbox
mbox_create-IsRegistry g g' kzalloc vmalloc name depth msg_size r h =
    let P : Run (Created × MboxGlobal) → Type 0 =
      λ t. t ≡ ok (r, g') → IsRegistry g' × (g.next_id ≤ g'.next_id) in
    let done : (c : Created) (g1 : MboxGlobal)
        → IsRegistry g1
        → g.next_id ≤ g1.next_id
        → P (ok (c, g1)) =
      λ c g1 k le e.
        subst (λ (t : Created × MboxGlobal). IsRegistry t.1 × (g.next_id ≤ t.1.next_id))
          (eq_of_ok e) (k, le) in
    if_intro P (not (valid_args name depth msg_size)) _ _ (λ e. done _ g h (omega arith))
      (λ e.
        if_intro P (not kzalloc || not vmalloc) _ _ (λ e. done _ g h (omega arith))
          (λ e.
            if_intro P (leb 2147483648 g.next_id) _ _ (λ e e'. ground arith)
              (λ e.
                if_intro P (ltb g.next_id 64 && free_slot g.instances g.next_id) _ _
                  (λ e.
                    done _ _
                      (set-IsRegistry g (new_mailbox name g.next_id depth msg_size) g.region g.class
                        g.major h refl (ground arith))
                      (omega arith))
                  (λ e.
                    done _ _
                      (record {
                        slots = h.slots;
                        own_id = h.own_id;
                        unused = (λ i later inside. h.unused i (omega arith) inside);
                      })
                      (omega arith)))))

-- A slot that is empty stays so.
set-none :
    (xs : List (Option Mailbox)) (i j : ℕ)
    → get_elem? xs j ≡ some none
    → get_elem? (set xs i none) j ≡ some none
set-none [] i j e = ground arith
set-none (x ∷ xs) zero zero e = refl
set-none (x ∷ xs) zero (suc j) e = e
set-none (x ∷ xs) (suc i) zero e = e
set-none (x ∷ xs) (suc i) (suc j) e = set-none xs i j e

set-none_other :
    (xs : List (Option Mailbox)) (i j : ℕ) (mbox : Mailbox)
    → get_elem? (set xs i none) j ≡ some (some mbox)
    → get_elem? xs j ≡ some (some mbox)
set-none_other [] i j mbox e = e
set-none_other (x ∷ xs) zero zero mbox e = ground arith
set-none_other (x ∷ xs) zero (suc j) mbox e = e
set-none_other (x ∷ xs) (suc i) zero mbox e = e
set-none_other (x ∷ xs) (suc i) (suc j) mbox e = set-none_other xs i j mbox e

pub mbox_destroy-IsRegistry :
    (g : MboxGlobal) (mbox : Option Mailbox) → IsRegistry g → IsRegistry (mbox_destroy g mbox)
unfolding mbox_destroy
mbox_destroy-IsRegistry g none h = h
mbox_destroy-IsRegistry g (some mbox) h =
    if_intro IsRegistry (ltb mbox.id 64) _ _
      (λ e. record {
        slots = length-set g.instances mbox.id none ∙ h.slots;
        own_id = (λ i other at. h.own_id i other (set-none_other g.instances mbox.id i other at));
        unused = (λ i later inside. set-none g.instances mbox.id i (h.unused i later inside));
      })
      (λ e. h)

mbox_destroy-none :
    (g : MboxGlobal) (mbox : Option Mailbox) (j : ℕ)
    → get_elem? g.instances j ≡ some none
    → get_elem? (mbox_destroy g mbox).instances j ≡ some none
unfolding mbox_destroy
mbox_destroy-none g none j e = e
mbox_destroy-none g (some mbox) j e =
    if_intro (λ (t : MboxGlobal). get_elem? t.instances j ≡ some none) (ltb mbox.id 64) _ _
      (λ _. set-none g.instances mbox.id j e) (λ _. e)

pub destroy_all-none :
    (left i : ℕ) (g : MboxGlobal) (j : ℕ)
    → get_elem? g.instances j ≡ some none
    → get_elem? (destroy_all left i g).instances j ≡ some none
unfolding destroy_all
destroy_all-none zero i g j e = e
destroy_all-none (suc left) i g j e =
    elim (get_elem? g.instances i)
      as (λ o.
        get_elem?
          (elim o as (λ _. MboxGlobal) [
            | none ↦ g
            | some slot ↦ destroy_all left (i + 1) (mbox_destroy g slot)
          ]).instances
          j
        ≡ some none) [
          | none ↦ e
          | some slot ↦
              destroy_all-none left (i + 1) (mbox_destroy g slot) j (mbox_destroy-none g slot j e)
        ]
