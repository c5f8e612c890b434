-- ===== src/Mailbox/Memory.antt =====
-- The bytes of a shared memory area, as a function of the offset; wide fields are little-endian.
use c_data_structures.Prelude.{
  ℕ, zero, suc, ◌+◌, ◌-◌, ◌*◌, ◌/◌, ◌%◌, ◌<◌, ◌≤◌, ◌≡◌, ◌⊎◌, refl, ap, ap₂, ◌∙◌, ◌&&◌, List, [],
  ◌∷◌, ltb, leb, if◌then◌else◌, arith, length, get_or,
}

abbrev pub Memory : Type 0
Memory = ℕ → ℕ

-- `memcpy` to and from the area.
unfoldable pub put_bytes : Memory → (offset : ℕ) → List ℕ → Memory
put_bytes m offset bytes i =
    if leb offset i && ltb i (offset + length bytes) then get_or bytes (i - offset) 0 else m i

unfoldable pub get_bytes : Memory → (offset n : ℕ) → List ℕ
get_bytes m offset zero = []
get_bytes m offset (suc n) = m offset ∷ get_bytes m (offset + 1) n

-- A `uint16_t` and a `uint32_t`.
abbrev pub bytes16 : ℕ → List ℕ
bytes16 v = (v % 256) ∷ (v / 256 % 256) ∷ []

abbrev pub bytes32 : ℕ → List ℕ
bytes32 v = (v % 256) ∷ (v / 256 % 256) ∷ (v / 65536 % 256) ∷ (v / 16777216 % 256) ∷ []

abbrev pub get16 : Memory → ℕ → ℕ
get16 m offset = m offset + 256 * m (offset + 1)

abbrev pub get32 : Memory → ℕ → ℕ
get32 m offset =
    m offset + 256 * m (offset + 1) + 65536 * m (offset + 2) + 16777216 * m (offset + 3)

-- A byte inside the bytes that were put, and one outside.
pub put_bytes-inside :
    (m : Memory) (offset : ℕ) (bytes : List ℕ) (i : ℕ)
    → i < length bytes
    → put_bytes m offset bytes (offset + i) ≡ get_or bytes i 0
unfolding put_bytes
put_bytes-inside m offset bytes i h =
    let back : offset + i - offset ≡ i = omega arith in
    ground (arith, ap (λ j. get_or bytes j 0) back)

pub put_bytes-outside :
    (m : Memory) (offset : ℕ) (bytes : List ℕ) (i : ℕ)
    → ((i < offset) ⊎ (offset + length bytes ≤ i))
    → put_bytes m offset bytes i ≡ m i
unfolding put_bytes
put_bytes-outside m offset bytes i h = ground arith

pub get_bytes-same :
    (m m' : Memory) (offset n : ℕ)
    → ((i : ℕ) → offset ≤ i → i < offset + n → m i ≡ m' i)
    → get_bytes m offset n ≡ get_bytes m' offset n
unfolding get_bytes
get_bytes-same m m' offset zero same = refl
get_bytes-same m m' offset (suc n) same =
    ap₂ (λ x xs. x ∷ xs) (same offset (omega arith) (omega arith))
      (get_bytes-same m m' (offset + 1) n (λ i lo hi. same i (omega arith) (omega arith)))

get_bytes-list :
    (m : Memory) (offset : ℕ) (bytes : List ℕ)
    → ((i : ℕ) → i < length bytes → m (offset + i) ≡ get_or bytes i 0)
    → get_bytes m offset (length bytes) ≡ bytes
unfolding get_bytes
get_bytes-list m offset [] same = refl
get_bytes-list m offset (x ∷ bytes) same =
    ap₂ (λ y ys. y ∷ ys) (ap m (omega arith) ∙ same 0 (omega arith))
      (get_bytes-list m (offset + 1) bytes (λ i h. ap m (omega arith) ∙ same (suc i) (omega arith)))

-- What was put is read back.
pub get_bytes-put_bytes :
    (m : Memory) (offset : ℕ) (bytes : List ℕ)
    → get_bytes (put_bytes m offset bytes) offset (length bytes) ≡ bytes
get_bytes-put_bytes m offset bytes =
    get_bytes-list (put_bytes m offset bytes) offset bytes (put_bytes-inside m offset bytes)
