-- ===== src/Transaction/CompactSize/Laws.antt =====
-- What `compact_size` writes, in closed form, and how the other two encoders compare with it.
use yubtc_python.Prelude.{
  ℕ, ◌^◌, ◌≤◌, ◌<◌, ◌≡◌, refl, [], ◌∷◌, ◌++◌, length, ltb, leb, if◌then◌else◌, Bool-cases, ltb→lt,
  ◌⊎◌, inl, inr, ok, arith,
}
use yubtc_python.Prelude.Int.{pos}
use yubtc_python.Prelude.Bytes.{Bytes, pack_lem, le_bytes, length-le_bytes, pack}
use yubtc_python.Transaction.CompactSize.{prefixed, compact_size, write_compact_size}

-- The encoding in closed form.
unfoldable pub compact : ℕ → Bytes
compact n =
    if ltb n 0xfd
    then le_bytes 1 n
    else if leb n 0xffff
    then 0xfd ∷ le_bytes 2 n
    else if leb n 0xffff_ffff
    then 0xfe ∷ le_bytes 4 n
    else 0xff ∷ le_bytes 8 n

pub compact_size-compact : (n : ℕ) → n < 2 ^ 64 → compact_size (pos n) ≡ ok (compact n)
unfolding compact_size compact prefixed
compact_size-compact n h = ground (arith, pack_lem 1 n, pack_lem 2 n, pack_lem 4 n, pack_lem 8 n)

pub write_compact_size-compact :
    (out : Bytes) (n : ℕ) → n < 2 ^ 64 → write_compact_size out n ≡ ok (out ++ compact n)
unfolding write_compact_size compact prefixed
write_compact_size-compact out n h =
    ground (arith, pack_lem 1 n, pack_lem 2 n, pack_lem 4 n, pack_lem 8 n)

pub length-compact :
    (n : ℕ)
    → length (compact n)
      ≡ (if ltb n 0xfd then 1 else if leb n 0xffff then 3 else if leb n 0xffff_ffff then 5 else 9)
unfolding compact
length-compact n =
    ground
      (arith, length-le_bytes 1 n, length-le_bytes 2 n, length-le_bytes 4 n, length-le_bytes 8 n)

pub length-compact_pos : (n : ℕ) → 1 ≤ length (compact n)
length-compact_pos n = ground (arith, length-compact n)

-- The prefix byte of a form with `k` bytes of payload, and the least number that takes it.
abbrev pub WidePrefix : ℕ → ℕ → ℕ → Type 0
WidePrefix p k least =
    (p ≡ 0xfd) × (k ≡ 2) × (least ≡ 0xfd)
    ⊎ (p ≡ 0xfe) × (k ≡ 4) × (least ≡ 0x1_0000)
    ⊎ (p ≡ 0xff) × (k ≡ 8) × (least ≡ 0x1_0000_0000)

pub compact_small : (n : ℕ) → n < 0xfd → compact n ≡ n ∷ []
unfolding compact le_bytes
compact_small n h = ground arith

pub compact_wide :
    (p k least n : ℕ)
    → WidePrefix p k least
    → least ≤ n
    → n < 256 ^ k
    → compact n ≡ p ∷ le_bytes k n
unfolding compact
compact_wide p k least n (inl (a, b, c)) h hn = rw (a, b) (ground arith)
compact_wide p k least n (inr (inl (a, b, c))) h hn = rw (a, b) (ground (arith, four_bound))
  where
    four_bound : n < 256 ^ 4
    four_bound = rw b at hn
compact_wide p k least n (inr (inr (a, b, c))) h hn = rw (a, b) (ground arith)

abbrev pub WideForm : ℕ → Type 0
WideForm n =
    (p : ℕ) × (k : ℕ) × (least : ℕ) × WidePrefix p k least
    × (least ≤ n)
    × (n < 256 ^ k)
    × (compact n ≡ p ∷ le_bytes k n)

wide : (p k least n : ℕ) → WidePrefix p k least → least ≤ n → n < 256 ^ k → WideForm n
wide p k least n w h hn = (p, k, least, w, h, hn, compact_wide p k least n w h hn)

pub compact_cases : (n : ℕ) → n < 2 ^ 64 → (n < 0xfd) × (compact n ≡ n ∷ []) ⊎ WideForm n
compact_cases n h = elim (Bool-cases (ltb n 0xfd)) [
  | inl small ↦ let fits = ltb→lt n 0xfd small in inl (fits, compact_small n fits)
  | inr large ↦ inr (elim (Bool-cases (leb n 0xffff)) [
    | inl two ↦ wide 0xfd 2 0xfd n (inl (refl, refl, refl)) (ground arith) (ground arith)
    | inr more ↦ elim (Bool-cases (leb n 0xffff_ffff)) [
      | inl four ↦
          wide 0xfe 4 0x1_0000 n (inr (inl (refl, refl, refl))) (ground arith) (ground arith)
      | inr most ↦
          wide 0xff 8 0x1_0000_0000 n (inr (inr (refl, refl, refl))) (ground arith) (omega arith)
    ]
  ])
]

-- What was written was in range.
pub write_compact_size_bound :
    (out : Bytes) (n : ℕ) {out' : Bytes} → write_compact_size out n ≡ ok out' → n < 2 ^ 64
unfolding write_compact_size prefixed pack
write_compact_size_bound out n e = ground arith
