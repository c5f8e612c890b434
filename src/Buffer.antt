-- ===== src/Buffer.antt =====
-- Heap blocks that hold an array of elements of one size: `malloc`, `realloc` and `memcpy` as the
-- stack and the queue use them. A block is a list of whole elements. A cell is `none` until it is
-- written, since `malloc` leaves it indeterminate; an access outside the block is a fault.
use native.Mathlib.Nat.{mod-eq_of_lt, mul-div_cancel_left}
use c_data_structures.Prelude.{
  ℕ, ◌+◌, ◌*◌, ◌/◌, ◌%◌, ◌^◌, ◌&&◌, Bool, Option, none, some, List, ◌++◌, ltb, leb, if◌then◌else◌,
  length, get_elem?, set, take, drop, replicate, ap, arith, lt→ltb, ◌≡◌, ◌<◌, ◌≤◌, true, false, ◌∙◌,
  refl, take-all,
}
use c_data_structures.Prelude.Run.{Run, ok, fault}

-- One more than the greatest `size_t`.
abbrev pub size_mod : ℕ
size_mod = 2 ^ 64

-- A product of `size_t` operands.
abbrev pub mul_size : ℕ → ℕ → ℕ
mul_size a b = a * b % size_mod

abbrev pub Buffer {ℓ} : Type ℓ → Type ℓ
Buffer A = List (Option A)

-- What a container gives back by `free`: its block, and the structure itself.
pub data Freed {ℓ} (A : Type ℓ) : Type ℓ where
  freed_block : Buffer A → Freed A
  freed_struct : Freed A

-- The number of elements in a block of `data_size * n` bytes, where the product does not wrap.
pub slots :
    (data_size n : ℕ)
    → 0 < data_size
    → data_size * n < size_mod
    → mul_size data_size n / data_size ≡ n
slots data_size n sized fits =
    ap (λ k. k / data_size) (mod-eq_of_lt {n = data_size * n} {m = size_mod} fits)
    ∙ mul-div_cancel_left n sized

-- Fewer elements need fewer bytes.
pub fits_of_le :
    (data_size n most : ℕ) → n ≤ most → data_size * most < size_mod → data_size * n < size_mod
fits_of_le data_size n most below fits = grind arith

module _ {ℓ} {A : Type ℓ} where
  -- `malloc(bytes)` for elements of `data_size` bytes; the allocator may refuse.
  unfoldable pub malloc : Bool → (bytes data_size : ℕ) → Option (Buffer A)
  malloc granted bytes data_size =
      if granted then some (replicate (bytes / data_size) none) else none

  -- `realloc(block, bytes)` keeps the cells that both blocks have.
  unfoldable pub realloc : Bool → Buffer A → (bytes data_size : ℕ) → Option (Buffer A)
  realloc granted block bytes data_size =
      if granted
      then some (
          take (bytes / data_size) block
          ++ drop (length block) (replicate (bytes / data_size) none))
      else none

  -- `memcpy` of one element out of the block.
  unfoldable pub load : Buffer A → ℕ → Run (Option A)
  load block i = elim (get_elem? block i) [ none ↦ fault | some c ↦ ok c ]

  -- `memcpy` of one element into the block.
  unfoldable pub store : Buffer A → ℕ → A → Run (Buffer A)
  store block i x = if ltb i (length block) then ok (set block i (some x)) else fault

  -- `memcpy` of `n` elements from index `from` of `src` to index `to` of `dst`.
  unfoldable pub memcpy : (dst : Buffer A) (to : ℕ) (src : Buffer A) (from n : ℕ) → Run (Buffer A)
  memcpy dst to src from n =
      if leb (from + n) (length src) && leb (to + n) (length dst)
      then ok (take to dst ++ (take n (drop from src) ++ drop (to + n) dst))
      else fault

  pub load-ok :
      (block : Buffer A) (i : ℕ) (c : Option A) → get_elem? block i ≡ some c → load block i ≡ ok c
  unfolding load
  load-ok block i c e = rw (e, load)

  pub store-ok :
      (block : Buffer A) (i : ℕ) (x : A)
      → i < length block
      → store block i x ≡ ok (set block i (some x))
  unfolding store
  store-ok block i x h = rw (lt→ltb i (length block) h)

  -- A refused allocation.
  pub malloc-false : (bytes data_size : ℕ) → malloc false bytes data_size ≡ none
  unfolding malloc
  malloc-false bytes data_size = refl

  -- A granted block of `data_size * n` bytes has room for `n` elements, if the product fits
  -- `size_t`.
  pub malloc-true :
      (data_size n : ℕ)
      → 0 < data_size
      → data_size * n < size_mod
      → malloc true (mul_size data_size n) data_size ≡ some (replicate n none)
  unfolding malloc
  malloc-true data_size n sized fits =
      ap (λ k. some (replicate k none)) (slots data_size n sized fits)

  -- A copy that stays inside both blocks.
  pub memcpy-ok :
      (dst : Buffer A) (to : ℕ) (src : Buffer A) (from n : ℕ)
      → from + n ≤ length src
      → to + n ≤ length dst
      → memcpy dst to src from n ≡ ok (take to dst ++ (take n (drop from src) ++ drop (to + n) dst))
  unfolding memcpy
  memcpy-ok dst to src from n inside fits = ground arith

  -- A copy that reads past the end of its source.
  pub memcpy-fault :
      (dst : Buffer A) (to : ℕ) (src : Buffer A) (from n : ℕ)
      → length src < from + n
      → memcpy dst to src from n ≡ fault
  unfolding memcpy
  memcpy-fault dst to src from n outside = ground arith

  -- A granted `realloc` to a block that is no smaller keeps every cell.
  pub realloc-true :
      (block : Buffer A) (data_size n : ℕ)
      → 0 < data_size
      → data_size * n < size_mod
      → length block ≤ n
      → realloc true block (mul_size data_size n) data_size
        ≡ some (block ++ drop (length block) (replicate n none))
  unfolding realloc
  realloc-true block data_size n sized fits larger =
      rw (slots data_size n sized fits, take-all n block larger)

  pub realloc-false :
      (block : Buffer A) (bytes data_size : ℕ) → realloc false block bytes data_size ≡ none
  unfolding realloc
  realloc-false block bytes data_size = refl
