-- ===== src/Psbt/KeyValue/Keys.antt =====
-- `split_key` and the minimal encoding of a key.
use yubtc_python.Prelude.{
  ℕ, suc, ◌+◌, ◌-◌, ◌^◌, ◌≤◌, ◌<◌, ◌≡◌, refl, [], ◌∷◌, ◌++◌, length, length-append, take, drop,
  take-append-drop, All, ltb, if◌then◌else◌, Bool-cases, le→ltb, take_exact, drop_exact, lt→ltb,
  ltb→lt, ==_refl, length-take_le, All-take, inl, inr, ok, err, arith, psbt, truncated,
  non_minimal_compact_size,
}
use yubtc_python.Prelude.Bytes.{
  Bytes, IsByte, unpack, le_bytes, from_le, length-le_bytes, unpack-le_bytes, le_bytes-from_le,
  from_le-lt,
}
use yubtc_python.Transaction.CompactSize.Laws.{compact, compact_cases, compact_small, compact_wide}
use yubtc_python.Psbt.KeyValue.{split_wide, split_key}

split_wide_lem :
    (p k least v : ℕ) (keydata : Bytes)
    → v < 256 ^ k
    → least ≤ v
    → split_wide k least (p ∷ (le_bytes k v ++ keydata)) ≡ ok (v, keydata)
unfolding split_wide
split_wide_lem p k least v keydata h hl =
    let one : 1 + k ≡ suc k = omega arith in
    let size : length (le_bytes k v ++ keydata) ≡ k + length keydata =
      omega (arith, length-append {0} (le_bytes k v) keydata, length-le_bytes k v) in
    let behind : suc k - 1 ≡ k = omega arith in
    rw (
      one,
      le→ltb (suc (length (le_bytes k v ++ keydata))) (suc k) (omega arith),
      behind,
      take_exact k (le_bytes k v) keydata (length-le_bytes k v),
      unpack-le_bytes k v h,
      le→ltb v least hl,
      drop_exact k (le_bytes k v) keydata (length-le_bytes k v),
    )

-- `split_key` finds the type and the key data behind the minimal encoding of the type.
pub split_key-compact :
    (t : ℕ) (keydata : Bytes) → t < 2 ^ 64 → split_key (compact t ++ keydata) ≡ ok (t, keydata)
unfolding split_key
split_key-compact t keydata h = elim (compact_cases t h) [
  | inl (small, e) ↦ rw e (ground arith)
  | inr (p, k, least, wide, above, fits, e) ↦
      rw e (ground (arith, split_wide_lem p k least t keydata fits above))
]

split_wide_short :
    (p k least : ℕ) (rest : Bytes)
    → length rest < k
    → split_wide k least (p ∷ rest) ≡ err (psbt truncated)
unfolding split_wide
split_wide_short p k least rest h = rw (lt→ltb (suc (length rest)) (1 + k) (omega arith))

split_wide_long :
    (p k least : ℕ) (rest : Bytes)
    → k ≤ length rest
    → split_wide k least (p ∷ rest) ≡ (
        if ltb (from_le (take k rest)) least
        then err (psbt non_minimal_compact_size)
        else ok (from_le (take k rest), drop k rest))
unfolding split_wide unpack
split_wide_long p k least rest h =
    let one : 1 + k ≡ suc k = omega arith in
    let behind : suc k - 1 ≡ k = omega arith in
    rw (
      one,
      le→ltb (suc (length rest)) (suc k) (omega arith),
      behind,
      length-take_le k rest h,
      ==_refl k,
    )

split_wide_inv :
    (p k least t : ℕ) (rest keydata : Bytes)
    → All IsByte rest
    → split_wide k least (p ∷ rest) ≡ ok (t, keydata)
    → (least ≤ t) × (t < 256 ^ k) × (rest ≡ le_bytes k t ++ keydata)
split_wide_inv p k least t rest keydata h e = elim (Bool-cases (ltb (length rest) k)) [
  | inl short ↦ absurd (cc (split_wide_short p k least rest (ltb→lt _ _ short)))
  | inr long ↦
      let room : k ≤ length rest = ground arith in
      let size : length (take k rest) ≡ k = length-take_le k rest room in
      let bytes : All IsByte (take k rest) = All-take IsByte k rest h in
      let below : from_le (take k rest) < 256 ^ k = rw size at (from_le-lt (take k rest) bytes) in
      let back : le_bytes k (from_le (take k rest)) ≡ take k rest =
        rw size at (le_bytes-from_le (take k rest) bytes) in
      ground (arith, split_wide_long p k least rest room, below, back, take-append-drop k rest)
]

-- A key of bytes that `split_key` accepts is the minimal encoding of its type, then the key data.
pub split_key_inv :
    (key : Bytes) (t : ℕ) (keydata : Bytes)
    → All IsByte key
    → split_key key ≡ ok (t, keydata)
    → (t < 2 ^ 64) × (key ≡ compact t ++ keydata)
unfolding split_key
split_key_inv [] t keydata h e = cc
split_key_inv (p ∷ rest) t keydata h e = ground (
  arith,
  h.0,
  compact_small p,
  split_wide_inv p 2 0xfd t rest keydata h.1,
  split_wide_inv p 4 0x1_0000 t rest keydata h.1,
  split_wide_inv p 8 0x1_0000_0000 t rest keydata h.1,
  compact_wide 0xfd 2 0xfd t (inl (refl, refl, refl)),
  compact_wide 0xfe 4 0x1_0000 t (inr (inl (refl, refl, refl))),
  compact_wide 0xff 8 0x1_0000_0000 t (inr (inr (refl, refl, refl))),
)
