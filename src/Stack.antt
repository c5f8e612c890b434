-- ===== src/Stack.antt =====
-- stack/stack.c: a stack in an array that grows by doubling. A function that updates `*s` returns
-- the new stack beside its `int`; `granted` is the allocator's answer to each `malloc` or `realloc`.
pub mod Refine
pub mod Lifo
use c_data_structures.Prelude.{
  ◌∷◌, [], List, ℕ, ◌+◌, ◌-◌, ◌%◌, Bool, true, Option, none, some, leb, ◌==◌, if◌then◌else◌,
}
use c_data_structures.Prelude.Int.{ℤ, success, failure, is_zero}
use c_data_structures.Prelude.Run.{Run, ok, ◌>>=◌}
use c_data_structures.Buffer.{
  Freed, freed_block, freed_struct, Buffer, size_mod, mul_size, malloc, realloc, load, store,
}

-- `Stack`; `cells` is the block that `data` points to.
pub record Stack {ℓ} (A : Type ℓ) : Type ℓ where
  pub cells : Buffer A
  pub data_size : ℕ
  pub capacity : ℕ
  pub top : ℕ

module _ {ℓ} {A : Type ℓ} where
  pub stack_create :
      (granted granted_data : Bool) (data_size initial_capacity : ℕ) → Option (Stack A)
  stack_create granted granted_data data_size initial_capacity =
      let capacity = if initial_capacity == 0 then 16 else initial_capacity in
      if granted
      then elim (malloc {A = A} granted_data (mul_size data_size capacity) data_size) [
        | none ↦ none
        | some block ↦
            some (record { cells = block; data_size = data_size; capacity = capacity; top = 0 })
      ]
      else none

  pub grow : Bool → Stack A → ℤ × Stack A
  grow granted s =
      let new_cap = mul_size s.capacity 2 in
      elim (realloc granted s.cells (mul_size s.data_size new_cap) s.data_size) [
        | none ↦ (failure, s)
        | some block ↦ (success, record s { cells = block; capacity = new_cap })
      ]

  -- The end of `stack_push`, once there is room.
  pub put : Stack A → A → Run (ℤ × Option (Stack A))
  put s x = do
    block ← store s.cells s.top x
    ok (success, some (record s { cells = block; top = (s.top + 1) % size_mod }))

  pub stack_push : Bool → Option (Stack A) → Option A → Run (ℤ × Option (Stack A))
  stack_push granted none x = ok (failure, none)
  stack_push granted (some s) none = ok (failure, some s)
  stack_push granted (some s) (some x) =
      if leb s.capacity s.top
      then (let (ret, s') = grow granted s in
          if is_zero ret then put s' x else ok (failure, some s'))
      else put s x

  pub stack_is_empty : Option (Stack A) → Bool
  stack_is_empty none = true
  stack_is_empty (some s) = s.top == 0

  -- The middle component is what goes through `out_data`; `wanted` says that it is not NULL.
  pub stack_pop : (wanted : Bool) → Option (Stack A) → Run (ℤ × Option A × Option (Stack A))
  stack_pop wanted none = ok (failure, none, none)
  stack_pop wanted (some s) = if stack_is_empty (some s) then ok (failure, none, some s) else do
    out ← (if wanted then load s.cells (s.top - 1) else ok none)
    ok (success, out, some (record s { top = s.top - 1 }))

  pub stack_peek : (wanted : Bool) → Option (Stack A) → Run (ℤ × Option A)
  stack_peek wanted none = ok (failure, none)
  stack_peek wanted (some s) =
      if stack_is_empty (some s)
      then ok (failure, none)
      else do out ← (if wanted then load s.cells (s.top - 1) else ok none); ok (success, out)

  pub stack_size : Option (Stack A) → ℕ
  stack_size none = 0
  stack_size (some s) = s.top

  unfoldable pub stack_destroy : Option (Stack A) → List (Freed A)
  stack_destroy none = []
  stack_destroy (some s) = freed_block s.cells ∷ freed_struct ∷ []
