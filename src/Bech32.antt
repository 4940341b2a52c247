-- ===== src/Bech32.antt =====
-- bech32.py: the regrouping of bytes into values of five bits, and back. The string format with its
-- checksum is left out.
pub mod RoundTrip
use yubtc_python.Prelude.{
  ℕ, zero, suc, ◌+◌, ◌-◌, ◌*◌, ◌/◌, ◌%◌, ◌^◌, List, [], ◌∷◌, ◌++◌, ltb, leb, ◌==◌, ◌&&◌, not,
  if◌then◌else◌, Option, none, some,
}
use yubtc_python.Prelude.Bytes.{Bytes}

-- `while bits >= width: bits -= width; out.append((acc >> bits) & (2 ** width - 1))`, in at most `fuel`
-- rounds: the values, and the bits that are left.
unfoldable pub flush : ℕ → ℕ → ℕ → ℕ → List ℕ × ℕ
flush width zero acc bits = ([], bits)
flush width (suc fuel) acc bits =
    let rest = flush width fuel acc (bits - width) in
    if ltb bits width then ([], bits) else (acc / 2 ^ (bits - width) % 2 ^ width ∷ rest.0, rest.1)

-- `bits` is below 5 in front of a round: two rounds of the inner loop are enough for eight bits more.
unfoldable pub to_5bit : ℕ → ℕ → Bytes → List ℕ
unfolding flush
to_5bit acc bits [] = if ltb 0 bits then acc * 2 ^ (5 - bits) % 32 ∷ [] else []
to_5bit acc bits (b ∷ bs) =
    let acc' = (acc * 256 + b) % 4096 in
    let flushed = flush 5 2 acc' (bits + 8) in flushed.0 ++ to_5bit acc' flushed.1 bs

unfoldable pub bytes_to_5bit : Bytes → List ℕ
unfolding to_5bit
bytes_to_5bit data' = to_5bit 0 0 data'

unfoldable pub prepend : List ℕ → Option Bytes → Option Bytes
prepend out none = none
prepend out (some rest) = some (out ++ rest)

-- `bits` is below 8 in front of a round: one round of the inner loop is enough.
unfoldable pub from_5bit : ℕ → ℕ → List ℕ → Option Bytes
unfolding flush prepend
from_5bit acc bits [] =
    if leb 5 bits then none else if ltb 0 bits && not (acc % 2 ^ bits == 0) then none else some []
from_5bit acc bits (v ∷ vs) =
    let acc' = (acc * 32 + v) % 4096 in
    let flushed = flush 8 1 acc' (bits + 5) in
    let rest = from_5bit acc' flushed.1 vs in if ltb 31 v then none else prepend flushed.0 rest

unfoldable pub five_bit_to_bytes : List ℕ → Option Bytes
unfolding from_5bit
five_bit_to_bytes data' = from_5bit 0 0 data'
