-- ===== src/Script/Push.antt =====
-- `push_data` against an independent reader of script pushes.
use yubtc_python.Prelude.{
  ℕ, ◌+◌, ◌*◌, ◌/◌, ◌%◌, ◌≤◌, ◌≡◌, refl, ◌∙◌, [], ◌∷◌, ◌++◌, length, length-append, take, drop,
  take-length_append, drop-length_append, ltb, leb, ◌==◌, if◌then◌else◌, Bool-cases, inl, inr,
  Option, none, some, ok, le→ltb, arith,
}
use yubtc_python.Prelude.Bytes.{Bytes, le_bytes}
use yubtc_python.Script.{push_data, push_data_len}

-- The first `n` bytes and the rest, if there are so many.
split_at : ℕ → Bytes → Option (Bytes × Bytes)
split_at n s = if ltb (length s) n then none else some (take n s, drop n s)

-- How consensus reads a push: the item that it pushes, and the script behind it.
pub read_push : Bytes → Option (Bytes × Bytes)
unfolding split_at
read_push [] = none
read_push (n ∷ []) = if leb n 0x4b then split_at n [] else none
read_push (n ∷ a ∷ []) =
    if leb n 0x4b then split_at n (a ∷ []) else if n == 0x4c then split_at a [] else none
read_push (n ∷ a ∷ b ∷ s) =
    if leb n 0x4b
    then split_at n (a ∷ b ∷ s)
    else if n == 0x4c
    then split_at a (b ∷ s)
    else if n == 0x4d
    then split_at (a + 256 * b) s
    else none

split_at-append : (d rest : Bytes) → split_at (length d) (d ++ rest) ≡ some (d, rest)
unfolding split_at
split_at-append d rest = rw (
  le→ltb (length (d ++ rest)) (length d) (omega (arith, length-append {0} d rest)),
  take-length_append d rest,
  drop-length_append d rest,
)

read_direct : (n : ℕ) (s : Bytes) → n ≤ 0x4b → read_push (n ∷ s) ≡ split_at n s
unfolding read_push
read_direct n [] h = ground arith
read_direct n (a ∷ []) h = ground arith
read_direct n (a ∷ b ∷ s) h = ground arith

read_pushdata1 : (n : ℕ) (s : Bytes) → read_push (0x4c ∷ n ∷ s) ≡ split_at n s
unfolding read_push
read_pushdata1 n [] = refl
read_pushdata1 n (b ∷ s) = refl

two_digits : (n : ℕ) → n ≤ 0xffff → n % 256 + 256 * (n / 256 % 256) ≡ n
two_digits n h = omega arith

-- The push that `push_data` writes has the length that `push_data_len` announces, and pushes the item.
pub push_data_lem :
    (d rest : Bytes)
    → length d ≤ 0xffff
    → (s : Bytes) × (push_data d ≡ ok s)
      × (length s ≡ push_data_len (length d) + length d)
      × (read_push (s ++ rest) ≡ some (d, rest))
push_data_lem d rest h = elim (Bool-cases (leb (length d) 0x4b)) [
  | inl direct ↦ (
    length d ∷ d,
    unfold push_data in ground arith,
    unfold push_data_len in ground arith,
    read_direct (length d) (d ++ rest) (ground arith) ∙ split_at-append d rest,
  )
  | inr long ↦ elim (Bool-cases (leb (length d) 0xff)) [
    | inl one ↦ (
      0x4c ∷ length d ∷ d,
      unfold push_data in ground arith,
      unfold push_data_len in ground arith,
      read_pushdata1 (length d) (d ++ rest) ∙ split_at-append d rest,
    )
    | inr two ↦ (
      0x4d ∷ (le_bytes 2 (length d) ++ d),
      unfold push_data in ground arith,
      unfold push_data_len le_bytes in ground arith,
      unfold read_push le_bytes in rw (two_digits (length d) h) (split_at-append d rest),
    )
  ]
]
