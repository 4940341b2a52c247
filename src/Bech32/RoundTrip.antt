-- ===== src/Bech32/RoundTrip.antt =====
-- The two directions of the regrouping against each other.
use yubtc_python.Prelude.{
  ℕ, ◌+◌, ◌*◌, ◌/◌, ◌%◌, ◌<◌, ◌≡◌, ◌∙◌, refl, ap, List, [], ◌∷◌, Option, none, some, All, arith,
}
use yubtc_python.Prelude.Bytes.{Bytes}
use yubtc_python.Bech32.{flush, to_5bit, bytes_to_5bit, prepend, from_5bit, five_bit_to_bytes}

-- The accumulators behind a value of five bits, and behind a byte.
abbrev fed : ℕ → ℕ → ℕ
fed acc v = (acc * 32 + v) % 4096

abbrev taken : ℕ → ℕ → ℕ
taken acc b = (acc * 256 + b) % 4096

prepend_nil : (o : Option Bytes) → prepend [] o ≡ o
unfolding prepend
prepend_nil none = refl
prepend_nil (some bs) = refl

-- A value that completes no byte, by the number of bits that wait.

skip_0 : (acc v : ℕ) (vs : List ℕ) → v < 32 → from_5bit acc 0 (v ∷ vs) ≡ from_5bit (fed acc v) 5 vs
unfolding from_5bit flush
skip_0 acc v vs h = ground (arith, prepend_nil (from_5bit (fed acc v) 5 vs))

skip_2 : (acc v : ℕ) (vs : List ℕ) → v < 32 → from_5bit acc 2 (v ∷ vs) ≡ from_5bit (fed acc v) 7 vs
unfolding from_5bit flush
skip_2 acc v vs h = ground (arith, prepend_nil (from_5bit (fed acc v) 7 vs))

skip_1 : (acc v : ℕ) (vs : List ℕ) → v < 32 → from_5bit acc 1 (v ∷ vs) ≡ from_5bit (fed acc v) 6 vs
unfolding from_5bit flush
skip_1 acc v vs h = ground (arith, prepend_nil (from_5bit (fed acc v) 6 vs))

-- A value that completes the byte `c`.

emit_5 :
    (acc v c : ℕ) (vs : List ℕ)
    → v < 32
    → fed acc v / 4 % 256 ≡ c
    → from_5bit acc 5 (v ∷ vs) ≡ prepend (c ∷ []) (from_5bit (fed acc v) 2 vs)
unfolding from_5bit flush
emit_5 acc v c vs h k = ground (arith, k)

emit_7 :
    (acc v c : ℕ) (vs : List ℕ)
    → v < 32
    → fed acc v / 16 % 256 ≡ c
    → from_5bit acc 7 (v ∷ vs) ≡ prepend (c ∷ []) (from_5bit (fed acc v) 4 vs)
unfolding from_5bit flush
emit_7 acc v c vs h k = ground (arith, k)

emit_4 :
    (acc v c : ℕ) (vs : List ℕ)
    → v < 32
    → fed acc v / 2 % 256 ≡ c
    → from_5bit acc 4 (v ∷ vs) ≡ prepend (c ∷ []) (from_5bit (fed acc v) 1 vs)
unfolding from_5bit flush
emit_4 acc v c vs h k = ground (arith, k)

emit_6 :
    (acc v c : ℕ) (vs : List ℕ)
    → v < 32
    → fed acc v / 8 % 256 ≡ c
    → from_5bit acc 6 (v ∷ vs) ≡ prepend (c ∷ []) (from_5bit (fed acc v) 3 vs)
unfolding from_5bit flush
emit_6 acc v c vs h k = ground (arith, k)

emit_3 :
    (acc v c : ℕ) (vs : List ℕ)
    → v < 32
    → fed acc v / 1 % 256 ≡ c
    → from_5bit acc 3 (v ∷ vs) ≡ prepend (c ∷ []) (from_5bit (fed acc v) 0 vs)
unfolding from_5bit flush
emit_3 acc v c vs h k = ground (arith, k)

-- What is left at the end is padding of zeros.

close_2 : (acc : ℕ) → acc % 4 ≡ 0 → from_5bit acc 2 [] ≡ some []
unfolding from_5bit
close_2 acc h = ground (arith, h)

close_4 : (acc : ℕ) → acc % 16 ≡ 0 → from_5bit acc 4 [] ≡ some []
unfolding from_5bit
close_4 acc h = ground (arith, h)

close_1 : (acc : ℕ) → acc % 2 ≡ 0 → from_5bit acc 1 [] ≡ some []
unfolding from_5bit
close_1 acc h = ground (arith, h)

close_3 : (acc : ℕ) → acc % 8 ≡ 0 → from_5bit acc 3 [] ≡ some []
unfolding from_5bit
close_3 acc h = ground (arith, h)

-- The decoder, with `d` bits that wait, on what the encoder makes of `bs` with `e` bits that wait: between
-- them they hold the byte `c`, its lower bits in the encoder. `m` is `2 ^ e`, `n` is `2 ^ d`.
abbrev Splits : ℕ → ℕ → ℕ → ℕ → Bytes → Type 0
Splits e d m n bs =
    (acc acc' c : ℕ)
    → c < 256
    → acc % m ≡ c % m
    → acc' % n ≡ c / m
    → from_5bit acc' d (to_5bit acc e bs) ≡ some (c ∷ bs)

abbrev Ends : Bytes → Type 0
Ends bs = (acc acc' : ℕ) → from_5bit acc' 0 (to_5bit acc 0 bs) ≡ some bs

-- The five states in which a byte can begin.

end_3 : Splits 3 5 8 32 []
unfolding to_5bit prepend
end_3 acc acc' c h k l =
    let small : acc * 4 % 32 < 32 = omega arith in
    let byte : fed acc' (acc * 4 % 32) / 4 % 256 ≡ c = omega arith in
    let zeros : fed acc' (acc * 4 % 32) % 4 ≡ 0 = omega arith in
    emit_5 acc' (acc * 4 % 32) c [] small byte
    ∙ ap (prepend (c ∷ [])) (close_2 (fed acc' (acc * 4 % 32)) zeros)

end_1 : Splits 1 7 2 128 []
unfolding to_5bit prepend
end_1 acc acc' c h k l =
    let small : acc * 16 % 32 < 32 = omega arith in
    let byte : fed acc' (acc * 16 % 32) / 16 % 256 ≡ c = omega arith in
    let zeros : fed acc' (acc * 16 % 32) % 16 ≡ 0 = omega arith in
    emit_7 acc' (acc * 16 % 32) c [] small byte
    ∙ ap (prepend (c ∷ [])) (close_4 (fed acc' (acc * 16 % 32)) zeros)

end_4 : Splits 4 4 16 16 []
unfolding to_5bit prepend
end_4 acc acc' c h k l =
    let small : acc * 2 % 32 < 32 = omega arith in
    let byte : fed acc' (acc * 2 % 32) / 2 % 256 ≡ c = omega arith in
    let zeros : fed acc' (acc * 2 % 32) % 2 ≡ 0 = omega arith in
    emit_4 acc' (acc * 2 % 32) c [] small byte
    ∙ ap (prepend (c ∷ [])) (close_1 (fed acc' (acc * 2 % 32)) zeros)

end_2 : Splits 2 6 4 64 []
unfolding to_5bit prepend
end_2 acc acc' c h k l =
    let small : acc * 8 % 32 < 32 = omega arith in
    let byte : fed acc' (acc * 8 % 32) / 8 % 256 ≡ c = omega arith in
    let zeros : fed acc' (acc * 8 % 32) % 8 ≡ 0 = omega arith in
    emit_6 acc' (acc * 8 % 32) c [] small byte
    ∙ ap (prepend (c ∷ [])) (close_3 (fed acc' (acc * 8 % 32)) zeros)

step_0 : (b : ℕ) (bs : Bytes) → b < 256 → Splits 3 5 8 32 bs → Ends (b ∷ bs)
unfolding to_5bit flush prepend
step_0 b bs h next acc acc' =
    let small : taken acc b / 8 % 32 < 32 = omega arith in
    let low : taken acc b % 8 ≡ b % 8 = omega arith in
    let high : fed acc' (taken acc b / 8 % 32) % 32 ≡ b / 8 = omega arith in
    skip_0 acc' (taken acc b / 8 % 32) (to_5bit (taken acc b) 3 bs) small
    ∙ next (taken acc b) (fed acc' (taken acc b / 8 % 32)) b h low high

step_3 : (b : ℕ) (bs : Bytes) → b < 256 → Splits 1 7 2 128 bs → Splits 3 5 8 32 (b ∷ bs)
unfolding to_5bit flush prepend
step_3 b bs hb next acc acc' c h k l =
    let byte : fed acc' (taken acc b / 64 % 32) / 4 % 256 ≡ c = omega arith in
    let low : taken acc b % 2 ≡ b % 2 = omega arith in
    let high : fed (fed acc' (taken acc b / 64 % 32)) (taken acc b / 2 % 32) % 128 ≡ b / 2 =
      omega arith in
    emit_5 acc' (taken acc b / 64 % 32) c ((taken acc b / 2 % 32) ∷ to_5bit (taken acc b) 1 bs)
      (omega arith) byte
    ∙ ap (prepend (c ∷ [])) (
        skip_2 (fed acc' (taken acc b / 64 % 32)) (taken acc b / 2 % 32)
          (to_5bit (taken acc b) 1 bs) (omega arith)
        ∙ next (taken acc b) (fed (fed acc' (taken acc b / 64 % 32)) (taken acc b / 2 % 32)) b hb
            low high)

step_1 : (b : ℕ) (bs : Bytes) → b < 256 → Splits 4 4 16 16 bs → Splits 1 7 2 128 (b ∷ bs)
unfolding to_5bit flush prepend
step_1 b bs hb next acc acc' c h k l =
    let byte : fed acc' (taken acc b / 16 % 32) / 16 % 256 ≡ c = omega arith in
    let low : taken acc b % 16 ≡ b % 16 = omega arith in
    let high : fed acc' (taken acc b / 16 % 32) % 16 ≡ b / 16 = omega arith in
    emit_7 acc' (taken acc b / 16 % 32) c (to_5bit (taken acc b) 4 bs) (omega arith) byte
    ∙ ap (prepend (c ∷ [])) (next (taken acc b) (fed acc' (taken acc b / 16 % 32)) b hb low high)

step_4 : (b : ℕ) (bs : Bytes) → b < 256 → Splits 2 6 4 64 bs → Splits 4 4 16 16 (b ∷ bs)
unfolding to_5bit flush prepend
step_4 b bs hb next acc acc' c h k l =
    let byte : fed acc' (taken acc b / 128 % 32) / 2 % 256 ≡ c = omega arith in
    let low : taken acc b % 4 ≡ b % 4 = omega arith in
    let high : fed (fed acc' (taken acc b / 128 % 32)) (taken acc b / 4 % 32) % 64 ≡ b / 4 =
      omega arith in
    emit_4 acc' (taken acc b / 128 % 32) c ((taken acc b / 4 % 32) ∷ to_5bit (taken acc b) 2 bs)
      (omega arith) byte
    ∙ ap (prepend (c ∷ [])) (
        skip_1 (fed acc' (taken acc b / 128 % 32)) (taken acc b / 4 % 32)
          (to_5bit (taken acc b) 2 bs) (omega arith)
        ∙ next (taken acc b) (fed (fed acc' (taken acc b / 128 % 32)) (taken acc b / 4 % 32)) b hb
            low high)

step_2 : (b : ℕ) (bs : Bytes) → b < 256 → Ends bs → Splits 2 6 4 64 (b ∷ bs)
unfolding to_5bit flush prepend
step_2 b bs hb next acc acc' c h k l =
    let byte : fed acc' (taken acc b / 32 % 32) / 8 % 256 ≡ c = omega arith in
    let whole : fed (fed acc' (taken acc b / 32 % 32)) (taken acc b / 1 % 32) / 1 % 256 ≡ b =
      omega arith in
    emit_6 acc' (taken acc b / 32 % 32) c ((taken acc b / 1 % 32) ∷ to_5bit (taken acc b) 0 bs)
      (omega arith) byte
    ∙ ap (prepend (c ∷ [])) (
        emit_3 (fed acc' (taken acc b / 32 % 32)) (taken acc b / 1 % 32) b
          (to_5bit (taken acc b) 0 bs) (omega arith) whole
        ∙ ap (prepend (b ∷ []))
            (next (taken acc b) (fed (fed acc' (taken acc b / 32 % 32)) (taken acc b / 1 % 32))))

from-to_5bit :
    (bs : Bytes)
    → All (λ b. b < 256) bs
    → Ends bs × Splits 3 5 8 32 bs × Splits 1 7 2 128 bs × Splits 4 4 16 16 bs × Splits 2 6 4 64 bs
unfolding to_5bit from_5bit
from-to_5bit [] h = (λ acc acc'. refl, end_3, end_1, end_4, end_2)
from-to_5bit (b ∷ bs) h =
    let (ends, three, one, four, two) = from-to_5bit bs h.1 in
    (
      step_0 b bs h.0 three,
      step_3 b bs h.0 one,
      step_1 b bs h.0 four,
      step_4 b bs h.0 two,
      step_2 b bs h.0 ends,
    )

-- Bytes that `bytes_to_5bit` regroups are what `five_bit_to_bytes` returns: it accepts the values and the
-- padding, and loses and adds no byte.
pub five_bit_to_bytes-bytes_to_5bit :
    (data' : Bytes)
    → All (λ b. b < 256) data'
    → five_bit_to_bytes (bytes_to_5bit data') ≡ some data'
unfolding five_bit_to_bytes bytes_to_5bit
five_bit_to_bytes-bytes_to_5bit data' h = (from-to_5bit data' h).0 0 0
