-- ===== src/Mailbox/Overlay.antt =====
-- The bytes of an entry over the bytes that stood there, in mailbox_framework/kernel/mbox_kern.c.
use c_data_structures.Prelude.{
  ℕ, zero, suc, ◌+◌, ◌-◌, ◌<◌, ◌≤◌, ◌≡◌, ◌∙◌, inl, inr, refl, sym, ap, ap₂, List, [], ◌∷◌, ◌++◌,
  arith, ltb, Bool-cases, length, get_or,
}
use c_data_structures.Mailbox.Memory.{
  Memory, put_bytes, get_bytes, put_bytes-inside, get_bytes-same,
}
use c_data_structures.Mailbox.Types.{u16}
use c_data_structures.Mailbox.Transfer.{header, fill_entry}
use c_data_structures.Mailbox.Letter.{fill_entry-header, fill_entry-outside}

-- `xs` with its first bytes replaced by those of `ys`.
unfoldable pub overlay : List ℕ → List ℕ → List ℕ
overlay [] ys = []
overlay (x ∷ xs) [] = x ∷ xs
overlay (x ∷ xs) (y ∷ ys) = y ∷ overlay xs ys

get_bytes-put_bytes_over :
    (m m' : Memory) (offset n : ℕ) (bytes : List ℕ)
    → ((i : ℕ) → i < length bytes → m' (offset + i) ≡ get_or bytes i 0)
    → ((i : ℕ) → offset + length bytes ≤ i → m' i ≡ m i)
    → get_bytes m' offset n ≡ overlay (get_bytes m offset n) bytes
unfolding get_bytes overlay
get_bytes-put_bytes_over m m' offset zero bytes inside outside = refl
get_bytes-put_bytes_over m m' offset (suc n) [] inside outside =
    get_bytes-same m' m offset (suc n) (λ i lo hi. outside i (omega arith))
get_bytes-put_bytes_over m m' offset (suc n) (y ∷ ys) inside outside =
    ap₂ (λ x xs. x ∷ xs) (ap m' (omega arith) ∙ inside 0 (omega arith))
      (get_bytes-put_bytes_over m m' (offset + 1) n ys
        (λ i lt. ap m' (omega arith) ∙ inside (suc i) (omega arith))
        (λ i le. outside i (omega arith)))

get_or-append_left :
    (xs ys : List ℕ) (i : ℕ) → i < length xs → get_or (xs ++ ys) i 0 ≡ get_or xs i 0
get_or-append_left [] ys i lt = ground arith
get_or-append_left (x ∷ xs) ys zero lt = refl
get_or-append_left (x ∷ xs) ys (suc i) lt = get_or-append_left xs ys i (omega arith)

get_or-append_right :
    (xs ys : List ℕ) (i k : ℕ) → i ≡ length xs + k → get_or (xs ++ ys) i 0 ≡ get_or ys k 0
get_or-append_right [] ys i k e = ap (λ j. get_or ys j 0) (omega arith)
get_or-append_right (x ∷ xs) ys zero k e = ground arith
get_or-append_right (x ∷ xs) ys (suc i) k e = get_or-append_right xs ys i k (omega arith)

fill_entry-payload :
    (m : Memory) (entry msg_id pid channel flags : ℕ) (payload : List ℕ) (i : ℕ)
    → i < length payload
    → fill_entry m entry msg_id pid channel flags payload (entry + 20 + i) ≡ get_or payload i 0
unfolding fill_entry
fill_entry-payload m entry msg_id pid channel flags payload i lt =
    put_bytes-inside (put_bytes m entry (header msg_id pid channel flags (u16 (length payload))))
      (entry + 20) payload i lt

-- An entry is its header and its payload in a row.
fill_entry-get_or :
    (m : Memory) (entry msg_id pid channel flags : ℕ) (payload : List ℕ) (i : ℕ)
    → i < 20 + length payload
    → fill_entry m entry msg_id pid channel flags payload (entry + i)
      ≡ get_or (header msg_id pid channel flags (u16 (length payload)) ++ payload) i 0
fill_entry-get_or m entry msg_id pid channel flags payload i lt =
    let bytes = header msg_id pid channel flags (u16 (length payload)) in
    elim (Bool-cases (ltb i 20)) [
      | inl near ↦
          fill_entry-header m entry msg_id pid channel flags payload i (ground arith)
          ∙ sym (get_or-append_left bytes payload i (ground arith))
      | inr far ↦
          let k = i - 20 in
          let at : entry + i ≡ entry + 20 + k = ground arith in
          let split : i ≡ 20 + k = ground arith in
          ap (fill_entry m entry msg_id pid channel flags payload) at
          ∙ (fill_entry-payload m entry msg_id pid channel flags payload k (ground arith)
              ∙ sym (get_or-append_right bytes payload i k split))
    ]

pub get_bytes-fill_entry :
    (m : Memory) (entry msg_id pid channel flags : ℕ) (payload : List ℕ) (n : ℕ)
    → get_bytes (fill_entry m entry msg_id pid channel flags payload) entry n
      ≡ overlay
          (get_bytes m entry n)
          (header msg_id pid channel flags (u16 (length payload)) ++ payload)
get_bytes-fill_entry m entry msg_id pid channel flags payload n =
    get_bytes-put_bytes_over m (fill_entry m entry msg_id pid channel flags payload) entry n
      (header msg_id pid channel flags (u16 (length payload)) ++ payload)
      (λ i lt. fill_entry-get_or m entry msg_id pid channel flags payload i (omega arith))
      (λ i le. fill_entry-outside m entry msg_id pid channel flags payload i (inr (omega arith)))
