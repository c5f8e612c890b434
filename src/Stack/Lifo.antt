-- ===== src/Stack/Lifo.antt =====
-- The stack part of test.c: push all the values, then pop until the stack is empty.
use mathlib.Core.List.{reverse, reverse_aux}
use c_data_structures.Prelude.{
  ℕ, zero, suc, ◌+◌, ◌*◌, ◌≤◌, ◌<◌, ◌≡◌, refl, true, Option, none, some, List, [], ◌∷◌, map, arith,
  length, if◌then◌else◌, ◌==◌, length-replicate, replicate, leb,
}
use c_data_structures.Prelude.Run.{Run, ok, out_of_fuel, ◌>>=◌}
use c_data_structures.Buffer.{size_mod, fits_of_le, malloc-true}
use c_data_structures.Stack.{Stack, stack_create, stack_push, stack_pop, stack_is_empty}
use c_data_structures.Stack.Refine.{IsStack, stack_push-cons, stack_pop-cons, stack_pop-empty}

length-reverse_aux {ℓ} :
    {A : Type ℓ} (xs ys : List A) → length (reverse_aux xs ys) ≡ length xs + length ys
length-reverse_aux [] ys = omega arith
length-reverse_aux (x ∷ xs) ys = omega (arith, length-reverse_aux xs (x ∷ ys))

grown_le :
    (cap most n : ℕ) → cap ≤ most → 2 * n ≤ most → (if leb cap n then cap * 2 else cap) ≤ most
grown_le cap most n small enough = ground arith

module _ {ℓ} {A : Type ℓ} where
  -- `for (...) stack_push(s, &vals[i]);`, with the memory granted at every call.
  pub fill : Option (Stack A) → List A → Run (Option (Stack A))
  fill s [] = ok s
  fill s (x ∷ xs) = stack_push true s (some x) >>= (λ (ret, s'). fill s' xs)

  -- `while (!stack_is_empty(s)) { stack_pop(s, &v); ... }`, and the values in order.
  pub drain : ℕ → Option (Stack A) → Run (List (Option A))
  drain zero s = out_of_fuel
  drain (suc fuel) s =
      if stack_is_empty s
      then ok []
      else stack_pop true s >>= (λ (ret, v, s'). drain fuel s' >>= (λ vs. ok (v ∷ vs)))

  drain_all :
      (xs : List A) (fuel : ℕ) {s : Stack A}
      → length xs < fuel
      → IsStack s xs
      → drain fuel (some s) ≡ ok (map some xs)
  unfolding drain
  drain_all xs zero enough v = absurd (omega arith)
  drain_all [] (suc fuel) enough v = rw (stack_pop-empty true v).2
  drain_all (x ∷ xs) (suc fuel) enough v =
      let (s', taken, shown, busy, v') = stack_pop-cons x v in
      rw (busy, taken, drain_all xs fuel (omega arith) v')

  fill_all :
      (xs : List A) {s : Stack A} {ys : List A} (most : ℕ)
      → IsStack s ys
      → s.capacity ≤ most
      → 2 * (length ys + length xs) ≤ most
      → s.data_size * (most * 2) < size_mod
      → (s' : Stack A) × (fill (some s) xs ≡ ok (some s')) × IsStack s' (reverse_aux xs ys)
  unfolding fill
  fill_all [] {s} most v small enough fits = (s, refl, v)
  fill_all (x ∷ xs) {s} {ys} most v small enough fits =
      let (s', put, v', cap, size) =
        stack_push-cons x v
          (fits_of_le s.data_size (s.capacity * 2) (most * 2) (omega arith) fits) in
      let (s'', filled, v'') =
        fill_all xs {s = s'} most v'
          (rw cap (grown_le s.capacity most (length ys) small (omega arith))) (omega arith)
          (rw size fits) in
      (s'', rw put filled, v'')

  -- `stack_create` with the memory granted gives an empty stack, of 16 elements where the caller
  -- asks for none.
  stack_create-IsStack :
      (data_size n : ℕ)
      → 0 < data_size
      → data_size * (if n == 0 then 16 else n) < size_mod
      → (s : Stack A) × (stack_create true true data_size n ≡ some s)
        × IsStack s []
        × (s.capacity ≡ (if n == 0 then 16 else n))
        × (s.data_size ≡ data_size)
  unfolding stack_create
  stack_create-IsStack data_size n sized fits =
      let capacity : ℕ = if n == 0 then 16 else n in
      (
        record {
          cells = replicate capacity none;
          data_size = data_size;
          capacity = capacity;
          top = 0;
        },
        rw (malloc-true {A = A} data_size capacity sized fits),
        record {
          sized = sized;
          fits = fits;
          block = length-replicate capacity none;
          positive = ground arith;
          count = refl;
          room = ground arith;
          held = tt;
        },
        refl,
        refl,
      )

  -- From `stack_create` on with the memory granted, pushing any values and popping until the
  -- stack is empty gives the values back in reverse order, through any number of growths.
  -- Conditions: elements of at least one byte, and a block of `2 * most` elements that fits
  -- `size_t`, `most` being at least the first capacity (16 where the caller asks for none) and
  -- twice the number of values. The loop's fuel, one more than the number of values, is enough.
  pub drain-fill-reverse :
      (data_size n most : ℕ) (xs : List A)
      → 0 < data_size
      → (if n == 0 then 16 else n) ≤ most
      → 2 * length xs ≤ most
      → data_size * (most * 2) < size_mod
      → (fill (stack_create true true data_size n) xs >>= drain (suc (length xs)))
        ≡ ok (map some (reverse xs))
  drain-fill-reverse data_size n most xs sized small enough fits =
      let (s, made, v, cap, size) =
        stack_create-IsStack data_size n sized
          (fits_of_le data_size (if n == 0 then 16 else n) (most * 2) (omega arith) fits) in
      let (s', filled, v') =
        fill_all xs {s = s} most v (rw cap small) (omega arith) (rw size fits) in
      rw (made, filled)
        (drain_all (reverse xs) (suc (length xs)) (omega (arith, length-reverse_aux xs [])) v')
