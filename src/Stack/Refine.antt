-- ===== src/Stack/Refine.antt =====
-- stack/stack.c behaves as a last-in first-out list.
use native.Mathlib.Nat.{mod-eq_of_lt}
use c_data_structures.Prelude.{
  ℕ, ◌+◌, ◌-◌, ◌*◌, ◌%◌, ◌≤◌, ◌<◌, ◌≡◌, refl, sym, ap, ◌∙◌, Bool, true, false, Option, none, some,
  List, [], ◌∷◌, ◌++◌, arith, length, drop, set, get_elem?, leb, leb→le, inl, inr, Bool-cases, ◌==◌,
  if◌then◌else◌, get_elem?-set_self, get_elem?-set_ne, get_elem?-append_left, length-set,
  length-append, length-drop, length-replicate, replicate,
}
use c_data_structures.Prelude.Int.{success, failure}
use c_data_structures.Prelude.Run.{ok}
use c_data_structures.Buffer.{
  Buffer, size_mod, mul_size, load-ok, store-ok, realloc-true, realloc-false,
}
use c_data_structures.Stack.{Stack, grow, put, stack_push, stack_pop, stack_peek, stack_is_empty}

module _ {ℓ} {A : Type ℓ} where
  -- The cells hold the elements of the list, its last one at index 0.
  abbrev pub Holds : Buffer A → List A → Type ℓ
  Holds block [] = Unit
  Holds block (x ∷ xs) = (get_elem? block (length xs) ≡ some (some x)) × Holds block xs

  -- Cells at and above the top do not matter.
  Holds-above :
      (block : Buffer A) (c : Option A) (i : ℕ) (xs : List A)
      → length xs ≤ i
      → Holds block xs
      → Holds (set block i c) xs
  Holds-above block c i [] h held = tt
  Holds-above block c i (x ∷ xs) h held = (
    get_elem?-set_ne block {i = i} {j = length xs} c (omega arith) ∙ held.0,
    Holds-above block c i xs (omega arith) held.1,
  )

  Holds-append :
      (block more : Buffer A) (xs : List A)
      → length xs ≤ length block
      → Holds block xs
      → Holds (block ++ more) xs
  Holds-append block more [] h held = tt
  Holds-append block more (x ∷ xs) h held = (
    get_elem?-append_left block more (length xs) (omega arith) ∙ held.0,
    Holds-append block more xs (omega arith) held.1,
  )

  -- The stack holds the elements `xs`, newest first, in a block of `capacity` elements.
  pub record IsStack (s : Stack A) (xs : List A) : Type ℓ where
    pub sized : 0 < s.data_size
    pub fits : s.data_size * s.capacity < size_mod
    pub block : length s.cells ≡ s.capacity
    pub positive : 0 < s.capacity
    pub count : s.top ≡ length xs
    pub room : length xs ≤ s.capacity
    pub held : Holds s.cells xs

  cap-lt : {s : Stack A} {xs : List A} → IsStack s xs → s.capacity < size_mod
  cap-lt v = grind arith

  abbrev put_result : Stack A → A → Stack A
  put_result s x = record s { cells = set s.cells s.top (some x); top = (s.top + 1) % size_mod }

  put-IsStack :
      {s : Stack A} {xs : List A} (x : A)
      → IsStack s xs
      → length xs < s.capacity
      → (put s x ≡ ok (success, some (put_result s x))) × IsStack (put_result s x) (x ∷ xs)
  unfolding put
  put-IsStack {s} {xs} x v free = (
    rw (store-ok s.cells s.top x (omega arith)),
    record {
      sized = v.sized;
      fits = v.fits;
      block = length-set s.cells s.top (some x) ∙ v.block;
      positive = v.positive;
      count = omega (arith, cap-lt v);
      room = free;
      held = (
        ap (get_elem? (set s.cells s.top (some x))) (sym v.count)
            ∙ get_elem?-set_self s.cells s.top (some x) (omega arith),
        Holds-above s.cells (some x) s.top xs (omega arith) v.held,
      );
    },
  )

  abbrev grown : Stack A → Stack A
  grown s = record s {
    cells = s.cells ++ drop (length s.cells) (replicate (s.capacity * 2) none);
    capacity = s.capacity * 2;
  }

  grow-IsStack :
      {s : Stack A} {xs : List A}
      → IsStack s xs
      → s.data_size * (s.capacity * 2) < size_mod
      → (grow true s ≡ (success, grown s)) × IsStack (grown s) xs
  unfolding grow
  grow-IsStack {s} {xs} v fits = (
    rw (double, grow, realloc-true s.cells s.data_size (s.capacity * 2) v.sized fits (omega arith))
        (ap (λ c. (success, record (grown s) { capacity = c })) double),
    record {
      sized = v.sized;
      fits = fits;
      block = omega (
        arith,
        length-append s.cells
            (drop (length s.cells) (replicate {A = Option A} (s.capacity * 2) none)),
        length-drop (length s.cells) (replicate {A = Option A} (s.capacity * 2) none),
        length-replicate {A = Option A} (s.capacity * 2) none,
      );
      positive = omega arith;
      count = v.count;
      room = omega arith;
      held = Holds-append s.cells _ xs (omega arith) v.held;
    },
  )
    where
      double : mul_size s.capacity 2 ≡ s.capacity * 2
      double = mod-eq_of_lt {n = s.capacity * 2} {m = size_mod} (grind arith)

  -- `stack_push` on a valid stack, with the memory granted and a doubled block fitting
  -- `size_t`, succeeds and puts the element on top; the capacity is twice the old one where the
  -- stack was full, and the old one elsewhere, and the element size stays.
  pub stack_push-cons :
      {s : Stack A} {xs : List A} (x : A)
      → IsStack s xs
      → s.data_size * (s.capacity * 2) < size_mod
      → (s' : Stack A) × (stack_push true (some s) (some x) ≡ ok (success, some s'))
        × IsStack s' (x ∷ xs)
        × (s'.capacity ≡ (if leb s.capacity (length xs) then s.capacity * 2 else s.capacity))
        × (s'.data_size ≡ s.data_size)
  unfolding stack_push
  stack_push-cons {s} {xs} x v fits = elim (Bool-cases (leb s.capacity s.top)) [
    | inl full ↦
        let grew = grow-IsStack v fits in
        let added =
          put-IsStack x grew.1 (omega (arith, leb→le s.capacity s.top full, v.positive)) in
        (put_result (grown s) x, rw (full, grew.0) added.0, added.1, ground arith, refl)
    | inr free ↦
        let added = put-IsStack x v (ground arith) in
        (put_result s x, rw free added.0, added.1, ground arith, refl)
  ]

  -- `stack_push` on a valid full stack fails and leaves the stack as it is when the memory for
  -- the growth is refused.
  stack_push-refused :
      {s : Stack A} {xs : List A} (x : A)
      → IsStack s xs
      → length xs ≡ s.capacity
      → stack_push false (some s) (some x) ≡ ok (failure, some s)
  unfolding stack_push grow
  stack_push-refused {s} x v full =
      let busy : leb s.capacity s.top ≡ true = ground arith in
      rw (
        busy,
        grow,
        realloc-false s.cells (mul_size s.data_size (mul_size s.capacity 2)) s.data_size,
      )

  -- On a valid stack that is not empty `stack_pop` and `stack_peek` succeed with the newest
  -- element, `stack_is_empty` says no, and `stack_pop` leaves a valid stack of the others.
  pub stack_pop-cons :
      {s : Stack A} (x : A) {xs : List A}
      → IsStack s (x ∷ xs)
      → (s' : Stack A) × (stack_pop true (some s) ≡ ok (success, some x, some s'))
        × (stack_peek true (some s) ≡ ok (success, some x))
        × (stack_is_empty (some s) ≡ false)
        × IsStack s' xs
  unfolding stack_pop stack_peek stack_is_empty
  stack_pop-cons {s} x {xs} v =
      let busy : (s.top == 0) ≡ false = ground arith in
      let at : get_elem? s.cells (s.top - 1) ≡ some (some x) =
        ap (get_elem? s.cells) (omega arith) ∙ v.held.0 in
      (
        record s { top = s.top - 1 },
        rw (busy, load-ok s.cells (s.top - 1) (some x) at),
        rw (busy, load-ok s.cells (s.top - 1) (some x) at),
        busy,
        record {
          sized = v.sized;
          fits = v.fits;
          block = v.block;
          positive = v.positive;
          count = omega arith;
          room = omega arith;
          held = v.held.1;
        },
      )

  -- On an empty stack `stack_pop` and `stack_peek` fail and change nothing.
  pub stack_pop-empty :
      {s : Stack A} (wanted : Bool)
      → IsStack s []
      → (stack_pop wanted (some s) ≡ ok (failure, none, some s))
        × (stack_peek wanted (some s) ≡ ok (failure, none))
        × (stack_is_empty (some s) ≡ true)
  unfolding stack_pop stack_peek stack_is_empty
  stack_pop-empty {s} wanted v =
      let idle : (s.top == 0) ≡ true = ground arith in (rw idle, rw idle, idle)
