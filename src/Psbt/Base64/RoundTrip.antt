-- ===== src/Psbt/Base64/RoundTrip.antt =====
-- `decode_base64` against `encode_base64`.
use mathlib.Core.List.{reverse, reverse-reverse, reverse-cons}
use yubtc_python.Prelude.{
  ℕ, zero, suc, ◌+◌, ◌*◌, ◌/◌, ◌%◌, ◌^◌, ◌<◌, ◌≡◌, ◌∙◌, refl, ap, subst, List, [], ◌∷◌, length, ltb,
  ◌==◌, ==_iff, ◌&&◌, not, Bool, true, false, All, All-append, Result, ok, err, arith,
}
use yubtc_python.Prelude.Bytes.{Bytes, IsByte, index}
use yubtc_python.Psbt.Base64.{
  b64_alphabet, b64_char, joined24, encode_base64, b64_value_of, is_space, strip_front, strip,
  group_loop, group_bytes, decode_group, decode_groups, decode_base64,
}

-- A character of the alphabet with the value `v`.
record IsChar (v c : ℕ) : Type 0 where
  value : b64_value_of c ≡ ok v
  data' : (c == 0x3d) ≡ false
  visible : is_space c ≡ false

is_value : Result ℕ → ℕ → Bool
is_value (ok w) v = w == v
is_value (err raised) v = false

is_char : ℕ → ℕ → Bool
unfolding is_value
is_char v c = is_value (b64_value_of c) v && (not (c == 0x3d) && not (is_space c))

all_chars : ℕ → Bytes → Bool
unfolding is_char
all_chars v [] = true
all_chars v (c ∷ cs) = is_char v c && all_chars (suc v) cs

is_value-eq : (r : Result ℕ) (v : ℕ) → is_value r v ≡ true → r ≡ ok v
unfolding is_value
is_value-eq (ok w) v h = ap ok ((==_iff w v).0 h)
is_value-eq (err raised) v h = cc

is_char-IsChar : (v c : ℕ) → is_char v c ≡ true → IsChar v c
unfolding is_char
is_char-IsChar v c h = record {
  value = is_value-eq (b64_value_of c) v (ground arith);
  data' = ground arith;
  visible = ground arith;
}

IsChar-at :
    (cs : Bytes) (first v : ℕ)
    → all_chars first cs ≡ true
    → v < length cs
    → (c : ℕ) × (index cs v ≡ ok c) × IsChar (first + v) c
unfolding all_chars
IsChar-at [] first v h k = absurd (omega arith)
IsChar-at (c ∷ cs) first zero h k =
    let same : first + 0 ≡ first = omega arith in
    (c, refl, rw same (is_char-IsChar first c (ground arith)))
IsChar-at (c ∷ cs) first (suc v) h k =
    let same : first + suc v ≡ suc first + v = omega arith in
    rw same (IsChar-at cs (suc first) v (ground arith) (omega arith))

alphabet_chars : all_chars 0 b64_alphabet ≡ true
unfolding all_chars is_char is_value b64_value_of is_space
alphabet_chars = refl

-- The character that stands for six bits.
char : (v : ℕ) → (c : ℕ) × (b64_char v ≡ ok c) × IsChar (v % 64) c
unfolding b64_char
char v =
    let none_before : 0 + v % 64 ≡ v % 64 = omega arith in
    subst (λ w. (c : ℕ) × (b64_char v ≡ ok c) × IsChar w c) none_before
      (IsChar-at b64_alphabet 0 (v % 64) alphabet_chars (omega arith))

packed :
    (n : ℕ)
    → n < 2 ^ 24
    → n / 2 ^ 18 % 64 * 2 ^ 18 + n / 2 ^ 12 % 64 * 2 ^ 12 + n / 2 ^ 6 % 64 * 2 ^ 6 + n % 64 ≡ n
packed n h = omega arith

joined24-lt : (b0 b1 b2 : ℕ) → b0 < 256 → b1 < 256 → b2 < 256 → joined24 b0 b1 b2 < 2 ^ 24
unfolding joined24
joined24-lt b0 b1 b2 h0 h1 h2 = omega arith

joined24-bytes :
    (b0 b1 b2 : ℕ)
    → b0 < 256
    → b1 < 256
    → b2 < 256
    → (joined24 b0 b1 b2 / 2 ^ 16 % 256 ≡ b0)
      × (joined24 b0 b1 b2 / 2 ^ 8 % 256 ≡ b1)
      × (joined24 b0 b1 b2 % 256 ≡ b2)
unfolding joined24
joined24-bytes b0 b1 b2 h0 h1 h2 = (omega arith, omega arith, omega arith)

-- A group of four, three or two characters of the alphabet.
group4 :
    (v0 v1 v2 v3 c0 c1 c2 c3 : ℕ)
    → IsChar v0 c0
    → IsChar v1 c1
    → IsChar v2 c2
    → IsChar v3 c3
    → group_loop 0 (c0 ∷ c1 ∷ c2 ∷ c3 ∷ []) 4 ≡ ok (4, v0 ∷ v1 ∷ v2 ∷ v3 ∷ [])
unfolding group_loop
group4 v0 v1 v2 v3 c0 c1 c2 c3 h0 h1 h2 h3 =
    rw (h0.data', h1.data', h2.data', h3.data', h0.value, h1.value, h2.value, h3.value)

group3 :
    (v0 v1 v2 c0 c1 c2 : ℕ)
    → IsChar v0 c0
    → IsChar v1 c1
    → IsChar v2 c2
    → group_loop 0 (c0 ∷ c1 ∷ c2 ∷ 0x3d ∷ []) 4 ≡ ok (3, v0 ∷ v1 ∷ v2 ∷ 0 ∷ [])
unfolding group_loop
group3 v0 v1 v2 c0 c1 c2 h0 h1 h2 = rw (h0.data', h1.data', h2.data', h0.value, h1.value, h2.value)

group2 :
    (v0 v1 c0 c1 : ℕ)
    → IsChar v0 c0
    → IsChar v1 c1
    → group_loop 0 (c0 ∷ c1 ∷ 0x3d ∷ 0x3d ∷ []) 4 ≡ ok (2, v0 ∷ v1 ∷ 0 ∷ 0 ∷ [])
unfolding group_loop
group2 v0 v1 c0 c1 h0 h1 = rw (h0.data', h1.data', h0.value, h1.value)

decode_group-loop :
    (group : Bytes) (n : ℕ) (vals : List ℕ)
    → group_loop 0 group 4 ≡ ok (n, vals)
    → ltb n 2 ≡ false
    → decode_group group ≡ ok (group_bytes n vals)
unfolding decode_group
decode_group-loop group n vals e h = rw (e, h)

bytes4 :
    (b0 b1 b2 : ℕ)
    → b0 < 256
    → b1 < 256
    → b2 < 256
    → let n : ℕ = joined24 b0 b1 b2 in
      group_bytes 4 (n / 2 ^ 18 % 64 ∷ n / 2 ^ 12 % 64 ∷ n / 2 ^ 6 % 64 ∷ n % 64 ∷ [])
      ≡ b0 ∷ b1 ∷ b2 ∷ []
unfolding group_bytes
bytes4 b0 b1 b2 h0 h1 h2 =
    let (e0, e1, e2) = joined24-bytes b0 b1 b2 h0 h1 h2 in
    rw (packed (joined24 b0 b1 b2) (joined24-lt b0 b1 b2 h0 h1 h2), e0, e1, e2)

bytes3 :
    (b0 b1 : ℕ)
    → b0 < 256
    → b1 < 256
    → let n : ℕ = joined24 b0 b1 0 in
      group_bytes 3 (n / 2 ^ 18 % 64 ∷ n / 2 ^ 12 % 64 ∷ n / 2 ^ 6 % 64 ∷ 0 ∷ []) ≡ b0 ∷ b1 ∷ []
unfolding group_bytes joined24
bytes3 b0 b1 h0 h1 =
    let n : ℕ = b0 * 2 ^ 16 + b1 * 2 ^ 8 + 0 in
    let whole : n / 2 ^ 18 % 64 * 2 ^ 18 + n / 2 ^ 12 % 64 * 2 ^ 12 + n / 2 ^ 6 % 64 * 2 ^ 6 + 0
        ≡ n =
      omega arith in
    let e0 : n / 2 ^ 16 % 256 ≡ b0 = omega arith in
    let e1 : n / 2 ^ 8 % 256 ≡ b1 = omega arith in rw (whole, e0, e1)

bytes2 :
    (b0 : ℕ)
    → b0 < 256
    → let n : ℕ = joined24 b0 0 0 in
      group_bytes 2 (n / 2 ^ 18 % 64 ∷ n / 2 ^ 12 % 64 ∷ 0 ∷ 0 ∷ []) ≡ b0 ∷ []
unfolding group_bytes joined24
bytes2 b0 h0 =
    let n : ℕ = b0 * 2 ^ 16 + 0 * 2 ^ 8 + 0 in
    let whole : n / 2 ^ 18 % 64 * 2 ^ 18 + n / 2 ^ 12 % 64 * 2 ^ 12 + 0 * 2 ^ 6 + 0 ≡ n =
      omega arith in
    let e0 : n / 2 ^ 16 % 256 ≡ b0 = omega arith in rw (whole, e0)

-- A text that decodes to the bytes `d`, has no spaces and is made of whole groups.
IsEncoded : Bytes → Bytes → Type 0
IsEncoded d s = (decode_groups s ≡ ok d) × All (λ c. is_space c ≡ false) s × (length s % 4 ≡ 0)

encode3 :
    (b0 b1 b2 : ℕ) (rest more : Bytes)
    → b0 < 256
    → b1 < 256
    → b2 < 256
    → encode_base64 rest ≡ ok more
    → IsEncoded rest more
    → (s : Bytes) × (encode_base64 (b0 ∷ b1 ∷ b2 ∷ rest) ≡ ok s) × IsEncoded (b0 ∷ b1 ∷ b2 ∷ rest) s
unfolding encode_base64 IsEncoded decode_groups
encode3 b0 b1 b2 rest more h0 h1 h2 e (decoded, visible, whole) =
    let n : ℕ = joined24 b0 b1 b2 in
    let (c0, e0, k0) = char (n / 2 ^ 18) in
    let (c1, e1, k1) = char (n / 2 ^ 12) in
    let (c2, e2, k2) = char (n / 2 ^ 6) in
    let (c3, e3, k3) = char n in
    let group : decode_group (c0 ∷ c1 ∷ c2 ∷ c3 ∷ []) ≡ ok (b0 ∷ b1 ∷ b2 ∷ []) =
      decode_group-loop (c0 ∷ c1 ∷ c2 ∷ c3 ∷ []) 4 _ (group4 _ _ _ _ c0 c1 c2 c3 k0 k1 k2 k3) refl
      ∙ ap ok (bytes4 b0 b1 b2 h0 h1 h2) in
    (
      c0 ∷ c1 ∷ c2 ∷ c3 ∷ more,
      rw (e0, e1, e2, e3, e),
      (
        rw (group, decoded),
        (k0.visible, (k1.visible, (k2.visible, (k3.visible, visible)))),
        omega (arith, whole),
      ),
    )

pad : is_space 0x3d ≡ false
unfolding is_space
pad = refl

encoded : (d : Bytes) → All IsByte d → (s : Bytes) × (encode_base64 d ≡ ok s) × IsEncoded d s
unfolding encode_base64 IsEncoded decode_groups
encoded [] h = ([], refl, (refl, tt, omega arith))
encoded (b0 ∷ []) h =
    let n : ℕ = joined24 b0 0 0 in
    let (c0, e0, k0) = char (n / 2 ^ 18) in
    let (c1, e1, k1) = char (n / 2 ^ 12) in
    let group : decode_group (c0 ∷ c1 ∷ 0x3d ∷ 0x3d ∷ []) ≡ ok (b0 ∷ []) =
      decode_group-loop (c0 ∷ c1 ∷ 0x3d ∷ 0x3d ∷ []) 2 _ (group2 _ _ c0 c1 k0 k1) refl
      ∙ ap ok (bytes2 b0 h.0) in
    (
      c0 ∷ c1 ∷ 0x3d ∷ 0x3d ∷ [],
      rw (e0, e1),
      (rw group, (k0.visible, (k1.visible, (pad, (pad, tt)))), omega arith),
    )
encoded (b0 ∷ b1 ∷ []) h =
    let n : ℕ = joined24 b0 b1 0 in
    let (c0, e0, k0) = char (n / 2 ^ 18) in
    let (c1, e1, k1) = char (n / 2 ^ 12) in
    let (c2, e2, k2) = char (n / 2 ^ 6) in
    let group : decode_group (c0 ∷ c1 ∷ c2 ∷ 0x3d ∷ []) ≡ ok (b0 ∷ b1 ∷ []) =
      decode_group-loop (c0 ∷ c1 ∷ c2 ∷ 0x3d ∷ []) 3 _ (group3 _ _ _ c0 c1 c2 k0 k1 k2) refl
      ∙ ap ok (bytes3 b0 b1 h.0 h.1.0) in
    (
      c0 ∷ c1 ∷ c2 ∷ 0x3d ∷ [],
      rw (e0, e1, e2),
      (rw group, (k0.visible, (k1.visible, (k2.visible, (pad, tt)))), omega arith),
    )
encoded (b0 ∷ b1 ∷ b2 ∷ rest) h =
    let (more, e, is_encoded) = encoded rest h.1.1.1 in
    encode3 b0 b1 b2 rest more h.0 h.1.0 h.1.1.0 e is_encoded

strip_front-visible : (s : Bytes) → All (λ c. is_space c ≡ false) s → strip_front s ≡ s
unfolding strip_front
strip_front-visible [] h = refl
strip_front-visible (c ∷ cs) h = rw h.0

All-reverse :
    (s : Bytes) → All (λ c. is_space c ≡ false) s → All (λ c. is_space c ≡ false) (reverse s)
All-reverse [] h = tt
All-reverse (c ∷ cs) h =
    rw (reverse-cons c cs)
      (All-append (λ c. is_space c ≡ false) (reverse cs) (c ∷ []) (All-reverse cs h.1) (h.0, tt))

strip-visible : (s : Bytes) → All (λ c. is_space c ≡ false) s → strip s ≡ s
unfolding strip
strip-visible s h =
    ap (λ t. reverse (strip_front (reverse t))) (strip_front-visible s h)
    ∙ ap reverse (strip_front-visible (reverse s) (All-reverse s h))
    ∙ reverse-reverse s

-- Every byte string is encoded, and `decode_base64` reads it back from the text.
pub decode-encode_base64 :
    (d : Bytes) → All IsByte d → (s : Bytes) × (encode_base64 d ≡ ok s) × (decode_base64 s ≡ ok d)
unfolding decode_base64 IsEncoded
decode-encode_base64 d h =
    let (s, e, (decoded, visible, whole)) = encoded d h in
    (s, e, rw (strip-visible s visible, whole, decoded))
