-- ===== src/Queue/Refine.antt =====
-- queue/queue.c behaves as a first-in first-out list.
use mathlib.Core.Path.{subst}
use native.Mathlib.Nat.{mod-add-mod, mod-eq_of_lt}
use c_data_structures.Prelude.{
  ℕ, suc, ◌+◌, ◌-◌, ◌*◌, ◌%◌, ◌≤◌, ◌<◌, ◌≡◌, refl, ap, ◌∙◌, true, false, none, some, List, [], ◌∷◌,
  ◌++◌, arith, length, length-append, length-set, length-replicate, replicate, Bool, leb, ◌==◌,
  lt→ltb, set, sym, if◌then◌else◌,
}
use c_data_structures.Prelude.Int.{success, failure}
use c_data_structures.Prelude.Run.{ok}
use c_data_structures.Buffer.{size_mod, store, load-ok, malloc-true}
use c_data_structures.Queue.{
  Queue, queue_create, put, queue_enqueue, queue_dequeue, queue_peek, queue_is_empty, queue_size,
}
use c_data_structures.Queue.Window.{Holds, Holds-set}

module _ {ℓ} {A : Type ℓ} where
  -- The queue holds the elements `xs`, oldest first, in a block of `capacity` elements.
  pub record IsQueue (q : Queue A) (xs : List A) : Type ℓ where
    pub sized : 0 < q.data_size
    pub fits : q.data_size * q.capacity < size_mod
    pub block : length q.cells ≡ q.capacity
    pub front_in : q.front < q.capacity
    pub rear_at : q.rear ≡ (q.front + length xs) % q.capacity
    pub count : q.length ≡ length xs
    pub room : length xs ≤ q.capacity
    pub held : Holds q.cells q.capacity q.front xs

  -- A capacity fits `size_t`, as the block's size in bytes does.
  pub cap-lt : {q : Queue A} {xs : List A} → IsQueue q xs → q.capacity < size_mod
  cap-lt v = grind arith

  -- The next index after the rear of a valid queue.
  rear-suc :
      {q : Queue A} {xs : List A} (x : A)
      → IsQueue q xs
      → (q.rear + 1) % size_mod % q.capacity ≡ (q.front + length (xs ++ (x ∷ []))) % q.capacity
  rear-suc {q} {xs} x v =
      ap (λ k. k % q.capacity)
        (mod-eq_of_lt {n = q.rear + 1} {m = size_mod} (omega (arith, cap-lt v)))
      ∙ (rw v.rear_at
          (rw mod-add-mod (ap (λ k. k % q.capacity) (omega (arith, length-append xs (x ∷ []))))))

  abbrev pub put_result : Queue A → A → Queue A
  put_result q x = record q {
    cells = set q.cells q.rear (some x);
    rear = (q.rear + 1) % size_mod % q.capacity;
    length = (q.length + 1) % size_mod;
  }

  pub put-IsQueue :
      {q : Queue A} {xs : List A} (x : A)
      → IsQueue q xs
      → length xs < q.capacity
      → (put q x ≡ ok (success, some (put_result q x))) × IsQueue (put_result q x) (xs ++ (x ∷ []))
  unfolding put store
  put-IsQueue {q} {xs} x v free = (
    rw (lt→ltb q.rear (length q.cells) (omega arith)),
    record {
      sized = v.sized;
      fits = v.fits;
      block = length-set q.cells q.rear (some x) ∙ v.block;
      front_in = v.front_in;
      rear_at = rear-suc x v;
      count = omega (arith, cap-lt v, length-append xs (x ∷ []));
      room = omega (arith, length-append xs (x ∷ []));
      held =
          Holds-set q.cells q.capacity x xs q.front q.rear (omega arith) v.front_in free v.rear_at
            v.held;
    },
  )

  -- `queue_enqueue` on a valid queue that is not full succeeds, adds the element behind the
  -- others, and keeps the capacity, the front and the element size.
  pub queue_enqueue-append :
      {q : Queue A} {xs : List A} (granted : Bool) (x : A)
      → IsQueue q xs
      → length xs < q.capacity
      → (q' : Queue A) × (queue_enqueue granted (some q) (some x) ≡ ok (success, some q'))
        × IsQueue q' (xs ++ (x ∷ []))
        × (q'.capacity ≡ q.capacity)
        × (q'.front ≡ q.front)
        × (q'.data_size ≡ q.data_size)
  unfolding queue_enqueue
  queue_enqueue-append {q} {xs} granted x v free =
      let below : leb q.capacity q.length ≡ false = ground arith in
      (
        put_result q x,
        rw below (put-IsQueue x v free).0,
        (put-IsQueue x v free).1,
        refl,
        refl,
        refl,
      )

  -- `queue_dequeue` on a valid queue that is not empty succeeds with the oldest element, leaves
  -- a valid queue of the others in order, and keeps the capacity.
  pub queue_dequeue-cons :
      {q : Queue A} (x : A) {xs : List A}
      → IsQueue q (x ∷ xs)
      → (q' : Queue A) × (queue_dequeue true (some q) ≡ ok (success, some x, some q'))
        × IsQueue q' xs
        × (q'.capacity ≡ q.capacity)
  unfolding queue_dequeue queue_is_empty
  queue_dequeue-cons {q} x {xs} v =
      let busy : (q.length == 0) ≡ false = ground arith in
      let next : (q.front + 1) % size_mod % q.capacity ≡ (q.front + 1) % q.capacity =
        ap (λ k. k % q.capacity)
          (mod-eq_of_lt {n = q.front + 1} {m = size_mod} (omega (arith, cap-lt v))) in
      (
        record q { front = (q.front + 1) % size_mod % q.capacity; length = q.length - 1 },
        rw (busy, load-ok q.cells q.front (some x) v.held.0),
        record {
          sized = v.sized;
          fits = v.fits;
          block = v.block;
          front_in = omega arith;
          rear_at = v.rear_at ∙ rw next (rw mod-add-mod (ap (λ k. k % q.capacity) (omega arith)));
          count = omega arith;
          room = omega arith;
          held = subst (λ k. Holds q.cells q.capacity k xs) (sym next) v.held.1;
        },
        refl,
      )

  -- An empty queue gives nothing: `queue_dequeue` and `queue_peek` fail and change nothing.
  pub queue_dequeue-empty :
      {q : Queue A} (wanted : Bool)
      → IsQueue q []
      → (queue_dequeue wanted (some q) ≡ ok (failure, none, some q))
        × (queue_peek wanted (some q) ≡ ok (failure, none))
        × (queue_is_empty (some q) ≡ true)
        × (queue_size (some q) ≡ 0)
  unfolding queue_dequeue queue_peek queue_is_empty queue_size
  queue_dequeue-empty {q} wanted v =
      let idle : (q.length == 0) ≡ true = ground arith in (rw idle, rw idle, idle, v.count)

  -- `queue_peek` shows the element that `queue_dequeue` would take, and `queue_size` counts.
  pub queue_peek-cons :
      {q : Queue A} (x : A) {xs : List A}
      → IsQueue q (x ∷ xs)
      → (queue_peek true (some q) ≡ ok (success, some x))
        × (queue_is_empty (some q) ≡ false)
        × (queue_size (some q) ≡ suc (length xs))
  unfolding queue_peek queue_is_empty queue_size
  queue_peek-cons {q} x v =
      let busy : (q.length == 0) ≡ false = ground arith in
      (rw (busy, load-ok q.cells q.front (some x) v.held.0), busy, v.count)

  -- `queue_create` with the memory granted gives an empty queue, of 16 elements where the caller
  -- asks for none.
  pub queue_create-IsQueue :
      (data_size n : ℕ)
      → 0 < data_size
      → data_size * (if n == 0 then 16 else n) < size_mod
      → (q : Queue A) × (queue_create true true data_size n ≡ some q)
        × IsQueue q []
        × (q.capacity ≡ (if n == 0 then 16 else n))
        × (q.front ≡ 0)
        × (q.data_size ≡ data_size)
  unfolding queue_create
  queue_create-IsQueue data_size n sized fits =
      let capacity : ℕ = if n == 0 then 16 else n in
      (
        record {
          cells = replicate capacity none;
          data_size = data_size;
          capacity = capacity;
          front = 0;
          rear = 0;
          length = 0;
        },
        rw (malloc-true {A = A} data_size capacity sized fits),
        record {
          sized = sized;
          fits = fits;
          block = length-replicate capacity none;
          front_in = ground arith;
          rear_at = ground arith;
          count = refl;
          room = ground arith;
          held = tt;
        },
        refl,
        refl,
        refl,
      )
