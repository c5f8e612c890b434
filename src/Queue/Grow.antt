-- ===== src/Queue/Grow.antt =====
-- `grow` of queue/queue.c: what `queue_enqueue` does on a full queue.
use mathlib.Core.Path.{subst}
use native.Mathlib.Nat.{mod-eq_of_lt}
use c_data_structures.Prelude.{
  ℕ, ◌+◌, ◌*◌, ◌%◌, ◌<◌, ◌≡◌, refl, ap, ◌∙◌, true, false, Option, none, some, List, [], ◌∷◌, ◌++◌,
  map, arith, length, take, drop, length-append, length-take, length-drop, length-map, take-append,
  length-replicate, replicate, leb, sym, ap₂,
}
use c_data_structures.Prelude.Int.{success, failure}
use c_data_structures.Prelude.Run.{ok, fault}
use c_data_structures.Buffer.{
  size_mod, mul_size, malloc-false, malloc-true, memcpy-ok, memcpy-fault,
}
use c_data_structures.Queue.{Queue, move_elements, grow, queue_enqueue}
use c_data_structures.Queue.Window.{Holds, segment-Holds, Holds-segment}
use c_data_structures.Queue.Refine.{IsQueue, put-IsQueue, put_result}

-- A whole turn round the array ends where it began.
round : (h cap : ℕ) → h < cap → (h + cap) % cap ≡ h
round h cap inside = grind arith

module _ {ℓ} {A : Type ℓ} where
  -- A full queue as it is after a growth that started at index 0.
  abbrev grown : Queue A → Queue A
  grown q = record q {
    cells = take q.length q.cells ++ drop q.length (replicate (q.capacity * 2) none);
    front = 0;
    rear = q.length;
    capacity = q.capacity * 2;
  }

  module _ {q : Queue A} {xs : List A} (v : IsQueue q xs) where
    double-lt : q.data_size * (q.capacity * 2) < size_mod → mul_size q.capacity 2 ≡ q.capacity * 2
    double-lt fits = mod-eq_of_lt {n = q.capacity * 2} {m = size_mod} (grind arith)

    grown-IsQueue :
        q.data_size * (q.capacity * 2) < size_mod
        → q.front ≡ 0
        → length xs ≡ q.capacity
        → IsQueue (grown q) xs
    grown-IsQueue fits start full =
        let same : take q.length q.cells ≡ map some xs =
          ap (λ n. take n q.cells) v.count
          ∙ segment-Holds q.cells q.capacity xs 0 (omega arith)
              (subst (λ k. Holds q.cells q.capacity k xs) start v.held) in
        record {
          sized = v.sized;
          fits = fits;
          block = omega (
            arith,
            length-append (take q.length q.cells)
                (drop q.length (replicate {A = Option A} (q.capacity * 2) none)),
            length-take q.length q.cells,
            length-drop q.length (replicate {A = Option A} (q.capacity * 2) none),
            length-replicate {A = Option A} (q.capacity * 2) none,
          );
          front_in = omega arith;
          rear_at =
              v.count
              ∙ sym (
                  mod-eq_of_lt {n = 0 + length xs} {m = q.capacity * 2} (omega arith)
                  ∙ omega arith);
          count = v.count;
          room = omega arith;
          held = Holds-segment (grown q).cells (q.capacity * 2) xs 0 (omega arith) (
              rw same (
                take-append (map some xs) (drop q.length (replicate (q.capacity * 2) none))
                  (length xs) (sym (length-map xs some))));
        }

    move-start :
        q.front ≡ 0
        → length xs ≡ q.capacity
        → move_elements q (replicate (q.capacity * 2) none) ≡ ok (grown q).cells
    unfolding move_elements
    move-start start full =
        let ahead : leb q.front q.rear ≡ true = ground arith in
        rw ahead (
          memcpy-ok (replicate (q.capacity * 2) none) 0 q.cells q.front q.length (omega arith)
            (omega (arith, length-replicate {A = Option A} (q.capacity * 2) none))
          ∙ ap₂
              (λ k n.
                ok (take q.length (drop k q.cells) ++ drop n (replicate (q.capacity * 2) none)))
              start (omega arith))

    grow-start :
        q.data_size * (q.capacity * 2) < size_mod
        → q.front ≡ 0
        → length xs ≡ q.capacity
        → grow true q ≡ ok (success, grown q)
    unfolding grow
    grow-start fits start full =
        rw
          (
            double-lt fits,
            grow,
            malloc-true {A = A} q.data_size (q.capacity * 2) v.sized fits,
            move-start start full,
          )
          (ap (λ c. ok (success, record (grown q) { capacity = c })) (double-lt fits))

    -- `queue_enqueue` on a valid full queue whose oldest element stands at index 0, with the
    -- memory granted and the doubled block fitting `size_t`, succeeds, doubles the capacity,
    -- adds the element behind the others, and keeps the element size.
    pub queue_enqueue-grow :
        (x : A)
        → length xs ≡ q.capacity
        → q.front ≡ 0
        → q.data_size * (q.capacity * 2) < size_mod
        → (q' : Queue A) × (queue_enqueue true (some q) (some x) ≡ ok (success, some q'))
          × IsQueue q' (xs ++ (x ∷ []))
          × (q'.capacity ≡ q.capacity * 2)
          × (q'.front ≡ 0)
          × (q'.data_size ≡ q.data_size)
    unfolding queue_enqueue
    queue_enqueue-grow x full start fits =
        let busy : leb q.capacity q.length ≡ true = ground arith in
        let added = put-IsQueue x (grown-IsQueue fits start full) (omega arith) in
        (
          put_result (grown q) x,
          rw (busy, grow-start fits start full) added.0,
          added.1,
          refl,
          refl,
          refl,
        )

    -- `queue_enqueue` on a valid full queue fails and leaves the queue as it is when the memory
    -- for the growth is refused.
    pub queue_enqueue-refused :
        (x : A)
        → length xs ≡ q.capacity
        → queue_enqueue false (some q) (some x) ≡ ok (failure, some q)
    unfolding queue_enqueue grow
    queue_enqueue-refused x full =
        let busy : leb q.capacity q.length ≡ true = ground arith in
        rw (
          busy,
          grow,
          malloc-false {A = A} (mul_size q.data_size (mul_size q.capacity 2)) q.data_size,
        )

    full-rear : length xs ≡ q.capacity → q.rear ≡ q.front
    full-rear full =
        v.rear_at ∙ ap (λ n. (q.front + n) % q.capacity) full ∙ round q.front q.capacity v.front_in

    grow-overrun :
        length xs ≡ q.capacity
        → 0 < q.front
        → q.data_size * (q.capacity * 2) < size_mod
        → grow true q ≡ fault
    unfolding grow move_elements
    grow-overrun full wrapped fits =
        let ahead : leb q.front q.rear ≡ true = ground (arith, full-rear full) in
        rw (
          double-lt fits,
          grow,
          malloc-true {A = A} q.data_size (q.capacity * 2) v.sized fits,
          ahead,
          memcpy-fault (replicate (q.capacity * 2) none) 0 q.cells q.front q.length (omega arith),
        )

    -- `queue_enqueue` on a valid full queue whose oldest element does not stand at index 0,
    -- with the memory granted and the doubled block fitting `size_t`, is undefined behaviour:
    -- `front <= rear` holds because both are equal, and the single copy from `front` reads past
    -- the end of the array.
    pub queue_enqueue-overrun :
        (x : A)
        → length xs ≡ q.capacity
        → 0 < q.front
        → q.data_size * (q.capacity * 2) < size_mod
        → queue_enqueue true (some q) (some x) ≡ fault
    unfolding queue_enqueue
    queue_enqueue-overrun x full wrapped fits =
        let busy : leb q.capacity q.length ≡ true = ground arith in
        rw (busy, grow-overrun full wrapped fits)
