-- ===== src/Queue.antt =====
-- queue/queue.c: a FIFO in a circular array that grows by doubling. A function that updates `*q`
-- returns the new queue beside its `int`; `granted` is the allocator's answer to each `malloc`.
pub mod Window
pub mod Refine
pub mod Grow
pub mod Fifo
use c_data_structures.Prelude.{
  ◌∷◌, [], List, ℕ, ◌+◌, ◌-◌, ◌*◌, ◌%◌, Bool, true, false, Option, none, some, ltb, leb, ◌==◌,
  if◌then◌else◌,
}
use c_data_structures.Prelude.Int.{ℤ, success, failure, is_zero}
use c_data_structures.Prelude.Run.{Run, ok, ◌>>=◌}
use c_data_structures.Buffer.{
  Freed, freed_block, freed_struct, Buffer, size_mod, mul_size, malloc, load, store, memcpy,
}

-- `Queue`; `cells` is the block that `data` points to.
pub record Queue {ℓ} (A : Type ℓ) : Type ℓ where
  pub cells : Buffer A
  pub data_size : ℕ
  pub capacity : ℕ
  pub front : ℕ
  pub rear : ℕ
  pub length : ℕ

module _ {ℓ} {A : Type ℓ} where
  pub queue_create :
      (granted granted_data : Bool) (data_size initial_capacity : ℕ) → Option (Queue A)
  queue_create granted granted_data data_size initial_capacity =
      let capacity = if initial_capacity == 0 then 16 else initial_capacity in
      if granted
      then elim (malloc {A = A} granted_data (mul_size data_size capacity) data_size) [
        | none ↦ none
        | some block ↦ some (record {
          cells = block;
          data_size = data_size;
          capacity = capacity;
          front = 0;
          rear = 0;
          length = 0;
        })
      ]
      else none

  -- The elements that `grow` moves to the front of the new block.
  pub move_elements : Queue A → Buffer A → Run (Buffer A)
  move_elements q block = if leb q.front q.rear then memcpy block 0 q.cells q.front q.length else do
    let first_part = q.capacity - q.front
    block ← memcpy block 0 q.cells q.front first_part
    memcpy block first_part q.cells 0 q.rear

  pub grow : Bool → Queue A → Run (ℤ × Queue A)
  grow granted q =
      let new_cap = mul_size q.capacity 2 in
      elim (malloc {A = A} granted (mul_size q.data_size new_cap) q.data_size) [
        | none ↦ ok (failure, q)
        | some block ↦ (do
          block ← move_elements q block
          ok (success, record q { cells = block; front = 0; rear = q.length; capacity = new_cap }))
      ]

  -- The end of `queue_enqueue`, once there is room.
  pub put : Queue A → A → Run (ℤ × Option (Queue A))
  put q x = do
    block ← store q.cells q.rear x
    ok (
      success,
      some (record q {
        cells = block;
        rear = (q.rear + 1) % size_mod % q.capacity;
        length = (q.length + 1) % size_mod;
      }),
    )

  pub queue_enqueue : Bool → Option (Queue A) → Option A → Run (ℤ × Option (Queue A))
  queue_enqueue granted none x = ok (failure, none)
  queue_enqueue granted (some q) none = ok (failure, some q)
  queue_enqueue granted (some q) (some x) =
      if leb q.capacity q.length
      then grow granted q >>= (λ (ret, q'). if is_zero ret then put q' x else ok (failure, some q'))
      else put q x

  pub queue_is_empty : Option (Queue A) → Bool
  queue_is_empty none = true
  queue_is_empty (some q) = q.length == 0

  -- The middle component is what goes through `out_data`; `wanted` says that it is not NULL.
  pub queue_dequeue : (wanted : Bool) → Option (Queue A) → Run (ℤ × Option A × Option (Queue A))
  queue_dequeue wanted none = ok (failure, none, none)
  queue_dequeue wanted (some q) = if queue_is_empty (some q) then ok (failure, none, some q) else do
    out ← (if wanted then load q.cells q.front else ok none)
    ok (
      success,
      out,
      some (record q { front = (q.front + 1) % size_mod % q.capacity; length = q.length - 1 }),
    )

  pub queue_peek : (wanted : Bool) → Option (Queue A) → Run (ℤ × Option A)
  queue_peek wanted none = ok (failure, none)
  queue_peek wanted (some q) =
      if queue_is_empty (some q)
      then ok (failure, none)
      else do out ← (if wanted then load q.cells q.front else ok none); ok (success, out)

  pub queue_size : Option (Queue A) → ℕ
  queue_size none = 0
  queue_size (some q) = q.length

  unfoldable pub queue_destroy : Option (Queue A) → List (Freed A)
  queue_destroy none = []
  queue_destroy (some q) = freed_block q.cells ∷ freed_struct ∷ []
