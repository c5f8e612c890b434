-- ===== src/Queue/Fifo.antt =====
-- The queue part of test.c: put all the values in, then take values until the queue is empty.
use native.Mathlib.Decide.{dec_lt}
use c_data_structures.Prelude.{
  ℕ, zero, suc, ◌+◌, ◌*◌, ◌≤◌, ◌<◌, ◌≡◌, refl, ◌∙◌, true, Option, some, List, [], ◌∷◌, ◌++◌, map,
  arith, length, length-append, if◌then◌else◌, ◌==◌,
}
use mathlib.Core.List.{append-nil, append_assoc}
use c_data_structures.Prelude.Run.{Run, ok, out_of_fuel, ◌>>=◌}
use c_data_structures.Buffer.{size_mod, fits_of_le}
use c_data_structures.Queue.{Queue, queue_create, queue_enqueue, queue_dequeue, queue_is_empty}
use c_data_structures.Queue.Refine.{
  IsQueue, queue_enqueue-append, queue_dequeue-cons, queue_dequeue-empty, queue_peek-cons,
  queue_create-IsQueue,
}
use c_data_structures.Queue.Grow.{queue_enqueue-grow}

module _ {ℓ} {A : Type ℓ} where
  -- `for (...) queue_enqueue(q, &vals[i]);`, with the memory granted at every call.
  pub fill : Option (Queue A) → List A → Run (Option (Queue A))
  fill q [] = ok q
  fill q (x ∷ xs) = queue_enqueue true q (some x) >>= (λ (ret, q'). fill q' xs)

  -- `while (!queue_is_empty(q)) { queue_dequeue(q, &v); ... }`, and the values in order.
  pub drain : ℕ → Option (Queue A) → Run (List (Option A))
  drain zero q = out_of_fuel
  drain (suc fuel) q =
      if queue_is_empty q
      then ok []
      else queue_dequeue true q >>= (λ (ret, v, q'). drain fuel q' >>= (λ vs. ok (v ∷ vs)))

  drain_all :
      (xs : List A) (fuel : ℕ) {q : Queue A}
      → length xs < fuel
      → IsQueue q xs
      → drain fuel (some q) ≡ ok (map some xs)
  unfolding drain
  drain_all xs zero enough v = absurd (omega arith)
  drain_all [] (suc fuel) enough v = rw (queue_dequeue-empty true v).2
  drain_all (x ∷ xs) (suc fuel) enough v =
      let (q', taken, v', _) = queue_dequeue-cons x v in
      rw ((queue_peek-cons x v).1, taken, drain_all xs fuel (omega arith) v')

  fill_all :
      (xs : List A) {q : Queue A} {ys : List A} (most : ℕ)
      → IsQueue q ys
      → q.front ≡ 0
      → q.capacity ≤ most
      → 2 * (length ys + length xs) ≤ most
      → q.data_size * most < size_mod
      → (q' : Queue A) × (fill (some q) xs ≡ ok (some q')) × IsQueue q' (ys ++ xs)
  unfolding fill
  fill_all [] {q} {ys} most v start small enough fits = (q, refl, rw (append-nil ys) v)
  fill_all (x ∷ xs) {q} {ys} most v start small enough fits = elim (dec_lt (length ys) q.capacity) [
    | yes free ↦
        let (q', put, v', same, start', size) = queue_enqueue-append true x v free in
        let (q'', filled, v'') =
          fill_all xs {q = q'} most v' (start' ∙ start) (omega arith)
            (omega (arith, length-append ys (x ∷ []))) (rw size fits) in
        (q'', rw put filled, rw (append_assoc ys (x ∷ []) xs) at v'')
    | no busy ↦
        let (q', put, v', same, start', size) =
          queue_enqueue-grow v x (omega (arith, v.room)) start
            (fits_of_le q.data_size (q.capacity * 2) most (omega (arith, v.room)) fits) in
        let (q'', filled, v'') =
          fill_all xs {q = q'} most v' start' (omega (arith, v.room))
            (omega (arith, length-append ys (x ∷ []))) (rw size fits) in
        (q'', rw put filled, rw (append_assoc ys (x ∷ []) xs) at v'')
  ]

  -- From `queue_create` on with the memory granted, enqueueing any values and dequeuing until
  -- the queue is empty gives the values back in their order, through any number of growths.
  -- Conditions: elements of at least one byte, and a block of `most` elements that fits
  -- `size_t`, `most` being at least the first capacity (16 where the caller asks for none) and
  -- twice the number of values. The loop's fuel, one more than the number of values, is enough.
  pub drain-fill :
      (data_size n most : ℕ) (xs : List A)
      → 0 < data_size
      → (if n == 0 then 16 else n) ≤ most
      → 2 * length xs ≤ most
      → data_size * most < size_mod
      → (fill (queue_create true true data_size n) xs >>= drain (suc (length xs)))
        ≡ ok (map some xs)
  drain-fill data_size n most xs sized small enough fits =
      let (q, made, v, cap, start, size) =
        queue_create-IsQueue {A = A} data_size n sized
          (fits_of_le data_size (if n == 0 then 16 else n) most small fits) in
      let (q', filled, v') =
        fill_all xs {q = q} most v start (rw cap small) (omega arith) (rw size fits) in
      rw (made, filled) (drain_all xs (suc (length xs)) (omega arith) v')
