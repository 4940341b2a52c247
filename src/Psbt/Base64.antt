-- ===== src/Psbt/Base64.antt =====
-- psbt.py: `encode_base64`, `decode_base64` and what uses them. A text is the list of its UTF-8 bytes.
pub mod RoundTrip
use mathlib.Core.List.{reverse}
use yubtc_python.Prelude.{
  ℕ, zero, suc, ◌+◌, ◌-◌, ◌*◌, ◌/◌, ◌%◌, ◌^◌, min, List, [], ◌∷◌, ◌++◌, length, ltb, leb, ◌==◌,
  ◌&&◌, ◌||◌, not, if◌then◌else◌, Bool, true, false, Result, ok, err, ◌>>=◌, ◌>>◌, guard, psbt,
  invalid_field_value,
}
use yubtc_python.Prelude.Bytes.{Bytes, index}
use yubtc_python.Psbt.Model.{Psbt}
use yubtc_python.Psbt.Model.Parse.{parse_psbt}
use yubtc_python.Psbt.Model.Serialize.{serialize_psbt}

-- `A` to `Z`, `a` to `z`, `0` to `9`, `+` and `/`.
abbrev pub b64_alphabet : Bytes
b64_alphabet =
    65 ∷ 66 ∷ 67 ∷ 68 ∷ 69 ∷ 70 ∷ 71 ∷ 72 ∷ 73 ∷ 74 ∷ 75 ∷ 76 ∷ 77 ∷ 78 ∷ 79 ∷ 80 ∷ 81 ∷ 82 ∷ 83
    ∷ 84 ∷ 85 ∷ 86 ∷ 87 ∷ 88 ∷ 89 ∷ 90 ∷ 97 ∷ 98 ∷ 99 ∷ 100 ∷ 101 ∷ 102 ∷ 103 ∷ 104 ∷ 105 ∷ 106
    ∷ 107 ∷ 108 ∷ 109 ∷ 110 ∷ 111 ∷ 112 ∷ 113 ∷ 114 ∷ 115 ∷ 116 ∷ 117 ∷ 118 ∷ 119 ∷ 120 ∷ 121 ∷ 122
    ∷ 48 ∷ 49 ∷ 50 ∷ 51 ∷ 52 ∷ 53 ∷ 54 ∷ 55 ∷ 56 ∷ 57 ∷ 43 ∷ 47 ∷ []

-- `_B64_ALPHABET[v & 63]`
unfoldable pub b64_char : ℕ → Result ℕ
b64_char v = index b64_alphabet (v % 64)

-- `(chunk[0] << 16) | (b1 << 8) | b2`: the bits of the three bytes do not overlap.
unfoldable pub joined24 : ℕ → ℕ → ℕ → ℕ
joined24 b0 b1 b2 = b0 * 2 ^ 16 + b1 * 2 ^ 8 + b2

-- The chunks of three bytes; the last one may be shorter. 0x3d is `=`.
unfoldable pub encode_base64 : Bytes → Result Bytes
unfolding b64_char joined24
encode_base64 [] = ok []
encode_base64 (b0 ∷ []) = do
  let n = joined24 b0 0 0
  c0 ← b64_char (n / 2 ^ 18)
  c1 ← b64_char (n / 2 ^ 12)
  ok (c0 ∷ c1 ∷ 0x3d ∷ 0x3d ∷ [])
encode_base64 (b0 ∷ b1 ∷ []) = do
  let n = joined24 b0 b1 0
  c0 ← b64_char (n / 2 ^ 18)
  c1 ← b64_char (n / 2 ^ 12)
  c2 ← b64_char (n / 2 ^ 6)
  ok (c0 ∷ c1 ∷ c2 ∷ 0x3d ∷ [])
encode_base64 (b0 ∷ b1 ∷ b2 ∷ rest) = do
  let n = joined24 b0 b1 b2
  c0 ← b64_char (n / 2 ^ 18)
  c1 ← b64_char (n / 2 ^ 12)
  c2 ← b64_char (n / 2 ^ 6)
  c3 ← b64_char n
  more ← encode_base64 rest
  ok (c0 ∷ c1 ∷ c2 ∷ c3 ∷ more)

unfoldable pub b64_value_of : ℕ → Result ℕ
b64_value_of c =
    if leb 0x41 c && leb c 0x5a
    then ok (c - 0x41)
    else if leb 0x61 c && leb c 0x7a
    then ok (c - 0x61 + 26)
    else if leb 0x30 c && leb c 0x39
    then ok (c - 0x30 + 52)
    else if c == 0x2b
    then ok 62
    else if c == 0x2f
    then ok 63
    else err (psbt invalid_field_value)

-- ` \t\n\r\f`
unfoldable pub is_space : ℕ → Bool
is_space c = c == 0x20 || (c == 0x09 || (c == 0x0a || (c == 0x0d || c == 0x0c)))

unfoldable pub strip_front : Bytes → Bytes
unfolding is_space
strip_front [] = []
strip_front (c ∷ cs) = if is_space c then strip_front cs else c ∷ cs

unfoldable pub strip : Bytes → Bytes
unfolding strip_front
strip s = reverse (strip_front (reverse (strip_front s)))

-- The loop over the characters of a group, from character `i` on: how many of them carry data, and their
-- values, with 0 for a padding.
unfoldable pub group_loop : ℕ → Bytes → ℕ → Result (ℕ × List ℕ)
unfolding b64_value_of
group_loop i [] n_data = ok (n_data, [])
group_loop i (c ∷ cs) n_data =
    let padding = group_loop (i + 1) cs (min n_data i) in
    let character = group_loop (i + 1) cs n_data in
    if c == 0x3d
    then (do (n, vals) ← padding; ok (n, 0 ∷ vals))
    else if leb n_data i
    then err (psbt invalid_field_value)
    else (do v ← b64_value_of c; (n, vals) ← character; ok (n, v ∷ vals))

-- `packed` and the bytes that it holds; a group has four values.
unfoldable pub group_bytes : ℕ → List ℕ → Bytes
group_bytes n_data (v0 ∷ v1 ∷ v2 ∷ v3 ∷ []) =
    let packed = v0 * 2 ^ 18 + v1 * 2 ^ 12 + v2 * 2 ^ 6 + v3 in
    packed / 2 ^ 16 % 256
    ∷ ((if leb 3 n_data then packed / 2 ^ 8 % 256 ∷ [] else [])
        ++ (if leb 4 n_data then packed % 256 ∷ [] else []))
group_bytes n_data _ = []

unfoldable pub decode_group : Bytes → Result Bytes
unfolding group_loop group_bytes
decode_group group = do
  (n_data, vals) ← group_loop 0 group 4
  guard (not (ltb n_data 2)) (psbt invalid_field_value)
  ok (group_bytes n_data vals)

-- The groups of four characters; their number is known to be whole.
unfoldable pub decode_groups : Bytes → Result Bytes
unfolding decode_group
decode_groups (c0 ∷ c1 ∷ c2 ∷ c3 ∷ rest) = do
  out ← decode_group (c0 ∷ c1 ∷ c2 ∷ c3 ∷ [])
  more ← decode_groups rest
  ok (out ++ more)
decode_groups _ = ok []

unfoldable pub decode_base64 : Bytes → Result Bytes
unfolding strip decode_groups
decode_base64 s = do
  let trimmed = strip s
  guard (length trimmed % 4 == 0) (psbt invalid_field_value)
  decode_groups trimmed

unfoldable pub from_base64 : Bytes → Result Psbt
from_base64 s = do data' ← decode_base64 s; parse_psbt data'

unfoldable pub to_base64 : Psbt → Result Bytes
to_base64 p = do data' ← serialize_psbt p; encode_base64 data'
