-- ===== src/Psbt/KeyValue.antt =====
-- psbt.py: `_split_key`, `_read_map` and `_write_map`, the key-value maps of BIP-174.
pub mod Keys
pub mod RoundTrip
use yubtc_python.Prelude.{
  ℕ, zero, suc, ◌+◌, List, [], ◌∷◌, ◌++◌, length, drop, ltb, leb, ◌==◌, ◌||◌, if◌then◌else◌, Bool,
  true, false, Result, ok, err, ◌>>=◌, psbt, truncated, non_minimal_compact_size, duplicate_key,
  out_of_fuel,
}
use yubtc_python.Prelude.Bytes.{Bytes, bytes_eq, slice, unpack}
use yubtc_python.Prelude.Sort.{bytes_leb, sort}
use yubtc_python.Transaction.CompactSize.{write_compact_size}
use yubtc_python.Psbt.Reader.{Reader, remaining, at_end, take, read_compact_size}

-- A type of `k` bytes behind the prefix byte, which must not fit a shorter form.
unfoldable pub split_wide : ℕ → ℕ → Bytes → Result (ℕ × Bytes)
split_wide k least key = if ltb (length key) (1 + k) then err (psbt truncated) else do
  v ← unpack k (slice key 1 (1 + k))
  if ltb v least then err (psbt non_minimal_compact_size) else ok (v, drop (1 + k) key)

unfoldable pub split_key : Bytes → Result (ℕ × Bytes)
unfolding split_wide
split_key [] = err (psbt truncated)
split_key (prefix ∷ rest) =
    if leb prefix 0xfc
    then ok (prefix, rest)
    else if prefix == 0xfd
    then split_wide 2 0xfd (prefix ∷ rest)
    else if prefix == 0xfe
    then split_wide 4 0x1_0000 (prefix ∷ rest)
    else split_wide 8 0x1_0000_0000 (prefix ∷ rest)

abbrev pub Pair : Type 0
Pair = Bytes × Bytes

-- `key in seen`
unfoldable pub contains : Bytes → List Bytes → Bool
contains key [] = false
contains key (k ∷ ks) = bytes_eq key k || contains key ks

unfoldable pub read_map_loop : ℕ → Reader → List Pair → List Bytes → Result (List Pair × Reader)
read_map_loop zero r out seen = err out_of_fuel
read_map_loop (suc fuel) r out seen = if at_end r then err (psbt truncated) else do
  (keylen, r1) ← read_compact_size r
  let next = (do
    (key, r2) ← take r1 keylen
    let more = (do
      (valuelen, r3) ← read_compact_size r2
      (value, r4) ← take r3 valuelen
      read_map_loop fuel r4 (out ++ (key, value) ∷ []) (key ∷ seen))
    if contains key seen then err (psbt duplicate_key) else more)
  if keylen == 0 then ok (out, r1) else next

-- A round that goes on has read two bytes at least, so `remaining` rounds and one are enough.
unfoldable pub read_map : Reader → Result (List Pair × Reader)
read_map r = read_map_loop (suc (remaining r)) r [] []

unfoldable pub key_leb : Pair → Pair → Bool
key_leb a b = bytes_leb a.0 b.0

write_pairs : Bytes → List Pair → Result Bytes
write_pairs out [] = ok out
write_pairs out ((key, value) ∷ rest) = do
  out1 ← write_compact_size out (length key)
  out2 ← write_compact_size (out1 ++ key) (length value)
  write_pairs (out2 ++ value) rest

pub write_map : Bytes → List Pair → Result Bytes
write_map out pairs = do out' ← write_pairs out (sort key_leb pairs); ok (out' ++ 0 ∷ [])
