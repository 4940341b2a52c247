-- ===== src/Psbt/Reader.antt =====
-- psbt.py: `_Reader`, the sequential reader over a byte string.
pub mod Laws
use yubtc_python.Prelude.{
  ℕ, ◌+◌, ◌-◌, ◌≤◌, List, length, get_elem?, ltb, leb, ◌==◌, if◌then◌else◌, Bool, Option, none,
  Result, ok, err, ◌>>=◌, psbt, truncated,
}
use yubtc_python.Prelude.Bytes.{Bytes, index, slice, unpack}

-- `data` and `pos`.
pub record Reader : Type 0 where
  pub input : Bytes
  pub pos : ℕ

unfoldable pub reader : Bytes → Reader
reader data' = record { input = data'; pos = 0 }

-- `pos` never passes the length, so the difference is Python's.
unfoldable pub remaining : Reader → ℕ
remaining r = length r.input - r.pos

unfoldable pub at_end : Reader → Bool
at_end r = leb (length r.input) r.pos

unfoldable pub peek : Reader → ℕ → Option ℕ
peek r offset =
    let pos = r.pos + offset in if leb (length r.input) pos then none else get_elem? r.input pos

unfoldable pub take : Reader → ℕ → Result (Bytes × Reader)
take r n =
    if ltb (remaining r) n
    then err (psbt truncated)
    else ok (slice r.input r.pos (r.pos + n), record r { pos = r.pos + n })

unfoldable pub read_array : Reader → ℕ → Result (Bytes × Reader)
read_array r n = take r n

-- `unpack` of the next `k` bytes as one unsigned little-endian number.
unfoldable pub read_le : ℕ → Reader → Result (ℕ × Reader)
read_le k r = do (b, r') ← read_array r k; v ← unpack k b; ok (v, r')

unfoldable pub read_compact_size : Reader → Result (ℕ × Reader)
read_compact_size r = do
  (p, r') ← read_array r 1
  prefix ← index p 0
  if leb prefix 0xfc
      then ok (prefix, r')
      else if prefix == 0xfd
      then read_le 2 r'
      else if prefix == 0xfe
      then read_le 4 r'
      else read_le 8 r'

-- A length-prefixed byte string: `r.take(r.read_compact_size())`.
unfoldable pub read_bytes : Reader → Result (Bytes × Reader)
read_bytes r = do (n, r') ← read_compact_size r; take r' n
