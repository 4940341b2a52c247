-- ===== src/Transaction/CompactSize/Agreement.antt =====
-- The older encodings of counts against `compact_size`.
use yubtc_python.Prelude.{
  ℕ, ◌/◌, ◌%◌, ◌^◌, ◌≤◌, ◌<◌, ◌≡◌, ◌≢◌, ◌↔◌, ap, subst, [], ◌∷◌, ltb, lt→ltb, inl, inr, Bool-cases,
  Result, ok, err, arith,
}
use yubtc_python.Prelude.Int.{pos}
use yubtc_python.Prelude.Bytes.{Bytes, pack, pack_lem, le_bytes}
use yubtc_python.Transaction.CompactSize.{
  prefixed, compact_size, varint, to_var_int, to_var_int_loop,
}

varint-wide : (n : ℕ) → 0xfd ≤ n → n ≢ 0xffff → n ≢ 0xffff_ffff → varint n ≡ compact_size (pos n)
unfolding varint compact_size
varint-wide n l a b = ground arith

first_byte : Result Bytes → ℕ
first_byte (ok (b ∷ bs)) = b
first_byte (ok []) = 0
first_byte (err e) = 0

varint-0xffff : varint 0xffff ≢ compact_size (pos 0xffff)
unfolding varint compact_size prefixed pack le_bytes first_byte
varint-0xffff e = let h : ◌≡◌ {A = ℕ} 0xfe 0xfd = ap first_byte e in omega arith

varint-0xffffffff : varint 0xffff_ffff ≢ compact_size (pos 0xffff_ffff)
unfolding varint compact_size prefixed pack le_bytes first_byte
varint-0xffffffff e = let h : ◌≡◌ {A = ℕ} 0xff 0xfe = ap first_byte e in omega arith

-- `varint` writes what `compact_size` writes, or fails as it does, at every number but 0xffff and
-- 0xffffffff; at these two it does not.
pub varint_iff : (n : ℕ) → (varint n ≡ compact_size (pos n)) ↔ ((n ≢ 0xffff) × (n ≢ 0xffff_ffff))
unfolding varint compact_size
varint_iff n = (
  λ e. (
    λ h. varint-0xffff (subst (λ k. varint k ≡ compact_size (pos k)) h e),
    λ h. varint-0xffffffff (subst (λ k. varint k ≡ compact_size (pos k)) h e),
  ),
  λ (a, b). elim (Bool-cases (ltb n 0xfd)) [
    | inl small ↦ rw small
    | inr wide ↦ varint-wide n (ground arith) a b
  ],
)

-- Below 128, `toVarInt` and `compact_size` write the same byte.
pub to_var_int-compact_size : (n : ℕ) → n < 128 → to_var_int (pos n) ≡ compact_size (pos n)
unfolding to_var_int to_var_int_loop compact_size le_bytes
to_var_int-compact_size n h =
    let q : n / 2 ^ 7 ≡ 0 = omega arith in
    let r : n % 2 ^ 7 ≡ n = omega arith in
    let byte : n % 256 ≡ n = omega arith in
    rw (q, r, lt→ltb n 0xfd (omega arith), pack_lem 1 n (omega arith), byte)
