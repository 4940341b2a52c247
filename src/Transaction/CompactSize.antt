-- ===== src/Transaction/CompactSize.antt =====
-- The encodings of counts and lengths: `compact_size` and `toVarInt` of transaction.py, `varint` and
-- `varstr` of misc.py, `_write_compact_size` of psbt.py.
pub mod Laws
pub mod Agreement
use Prim.Native.Nat.{bit_or}
use yubtc_python.Prelude.{
  ℕ, zero, suc, ◌+◌, ◌/◌, ◌%◌, ◌^◌, ◌<◌, List, [], ◌∷◌, ◌++◌, length, ltb, leb, ◌==◌, if◌then◌else◌,
  Result, ok, err, ◌>>=◌, value_error, out_of_fuel,
}
use yubtc_python.Prelude.Int.{ℤ, pos, negsuc}
use yubtc_python.Prelude.Bytes.{Bytes, pack}

-- `pack('<cH', prefix, n)` and its kind: the prefix byte, then `k` bytes of `n`.
unfoldable pub prefixed : ℕ → ℕ → ℕ → Result Bytes
prefixed prefix k n = do b ← pack k n; ok (prefix ∷ b)

unfoldable pub compact_size : ℤ → Result Bytes
compact_size (negsuc n) = err value_error
compact_size (pos n) =
    if ltb n 0xfd
    then pack 1 n
    else if leb n 0xffff
    then prefixed 0xfd 2 n
    else if leb n 0xffff_ffff
    then prefixed 0xfe 4 n
    else prefixed 0xff 8 n

-- `out` grows by the encoding.
unfoldable pub write_compact_size : Bytes → ℕ → Result Bytes
write_compact_size out n = do
  b ←
      if ltb n 0xfd
      then pack 1 n
      else if leb n 0xffff
      then prefixed 0xfd 2 n
      else if leb n 0xffff_ffff
      then prefixed 0xfe 4 n
      else prefixed 0xff 8 n
  ok (out ++ b)

-- misc.py. A negative number fails in `pack('<B', n)`.
unfoldable pub varint : ℕ → Result Bytes
varint n =
    if ltb n 0xfd
    then pack 1 n
    else if ltb n 0xffff
    then prefixed 0xfd 2 n
    else if ltb n 0xffff_ffff
    then prefixed 0xfe 4 n
    else prefixed 0xff 8 n

unfoldable pub varstr : Bytes → Result Bytes
varstr s = do n ← varint (length s); ok (n ++ s)

-- The loop of `toVarInt`: `value & 0x7f` is `value % 2 ^ 7`, `value >>= 7` is `value / 2 ^ 7`.
to_var_int_loop : ℕ → ℕ → Bytes → Result Bytes
to_var_int_loop zero value buf = err out_of_fuel
to_var_int_loop (suc fuel) value buf =
    let towrite = value % 2 ^ 7 in
    let rest = to_var_int_loop fuel (value / 2 ^ 7) (buf ++ bit_or towrite 0x80 ∷ []) in
    if value / 2 ^ 7 == 0 then ok (buf ++ towrite ∷ []) else rest

-- Every round divides `value` by 128, so `value + 1` rounds are enough.
pub to_var_int : ℤ → Result Bytes
to_var_int (negsuc n) = err value_error
to_var_int (pos n) = to_var_int_loop (suc n) n []
