-- ===== src/Psbt/Reader/Laws.antt =====
-- The reader at what the encoders wrote.
use yubtc_python.Prelude.{
  ℕ, ◌+◌, ◌-◌, ◌^◌, ◌<◌, ◌≡◌, refl, sym, [], ◌∷◌, ◌++◌, append_assoc, length, length-append,
  take-length_append, drop-length_append, leb, le→ltb, lt→leb, get_elem?, get_elem?-append, inl,
  inr, ok, arith,
}
use yubtc_python.Prelude.Bytes.{Bytes, slice, le_bytes, length-le_bytes, unpack-le_bytes}
use yubtc_python.Transaction.CompactSize.Laws.{compact, compact_cases, WidePrefix}
use yubtc_python.Psbt.Reader.{
  Reader, remaining, at_end, peek, take, read_array, read_le, read_compact_size, read_bytes,
}

-- The reader that has read `front` and has `rest` before it.
abbrev pub at : Bytes → Bytes → Reader
at front rest = record { input = front ++ rest; pos = length front }

pub remaining-at : (front rest : Bytes) → remaining (at front rest) ≡ length rest
unfolding remaining
remaining-at front rest = omega (arith, length-append {0} front rest)

pub at_end-at : (front rest : Bytes) → at_end (at front rest) ≡ leb (length rest) 0
unfolding at_end
at_end-at front rest = ground (arith, length-append front rest)

pub peek-at :
    (front rest : Bytes) (i : ℕ) → i < length rest → peek (at front rest) i ≡ get_elem? rest i
unfolding peek
peek-at front rest i h =
    rw
      (lt→leb (length (front ++ rest)) (length front + i)
        (omega (arith, length-append {0} front rest)))
      (get_elem?-append front rest i)

slice_next :
    (front xs rest : Bytes)
    → slice (front ++ (xs ++ rest)) (length front) (length front + length xs) ≡ xs
slice_next front xs rest =
    let e : length front + length xs - length front ≡ length xs = omega arith in
    rw (drop-length_append front (xs ++ rest), e) (take-length_append xs rest)

at_step :
    (front xs rest : Bytes)
    → at (front ++ xs) rest ≡ record (at front (xs ++ rest)) { pos = length front + length xs }
at_step front xs rest =
    λ i. record { input = append_assoc front xs rest i; pos = length-append front xs i }

-- Taking as many bytes as `xs` has returns `xs`.
pub take-at :
    (front xs rest : Bytes) (n : ℕ)
    → n ≡ length xs
    → take (at front (xs ++ rest)) n ≡ ok (xs, at (front ++ xs) rest)
unfolding take
take-at front xs rest n e = rw (
  e,
  remaining-at front (xs ++ rest),
  le→ltb (length (xs ++ rest)) (length xs) (omega (arith, length-append {0} xs rest)),
  slice_next front xs rest,
  at_step front xs rest,
)

pub read_array-at :
    (front xs rest : Bytes) (n : ℕ)
    → n ≡ length xs
    → read_array (at front (xs ++ rest)) n ≡ ok (xs, at (front ++ xs) rest)
unfolding read_array
read_array-at = take-at

-- Four parts in a row, grouped either way.
pub regroup :
    (a b c d rest : Bytes) → (a ++ (b ++ (c ++ d))) ++ rest ≡ a ++ (b ++ (c ++ (d ++ rest)))
regroup a b c d rest = simp append_assoc

pub regroup_front :
    (front a b c d : Bytes) → front ++ (a ++ (b ++ (c ++ d))) ≡ (((front ++ a) ++ b) ++ c) ++ d
regroup_front front a b c d = simp append_assoc

pub read_le-at :
    (k n : ℕ) (front rest : Bytes)
    → n < 256 ^ k
    → read_le k (at front (le_bytes k n ++ rest)) ≡ ok (n, at (front ++ le_bytes k n) rest)
unfolding read_le read_array
read_le-at k n front rest h =
    rw (take-at front (le_bytes k n) rest k (sym (length-le_bytes k n)), unpack-le_bytes k n h)

pub small_prefix :
    (n : ℕ) (front rest : Bytes)
    → n < 0xfd
    → read_compact_size (at front (n ∷ rest)) ≡ ok (n, at (front ++ n ∷ []) rest)
unfolding read_compact_size read_array
small_prefix n front rest h = rw (take-at front (n ∷ []) rest 1 refl) (ground arith)

wide_prefix :
    (p k least n : ℕ) (front rest : Bytes)
    → WidePrefix p k least
    → n < 256 ^ k
    → read_compact_size (at front (p ∷ (le_bytes k n ++ rest)))
      ≡ ok (n, at (front ++ p ∷ le_bytes k n) rest)
unfolding read_compact_size read_array
wide_prefix p k least n front rest h hn =
    rw (take-at front (p ∷ []) (le_bytes k n ++ rest) 1 refl) (
      ground
        (arith, read_le-at k n (front ++ p ∷ []) rest, append_assoc front (p ∷ []) (le_bytes k n)))

-- The reader returns the number that was encoded, and stands behind its encoding.
pub read_compact_size-at :
    (n : ℕ) (front rest : Bytes)
    → n < 2 ^ 64
    → read_compact_size (at front (compact n ++ rest)) ≡ ok (n, at (front ++ compact n) rest)
read_compact_size-at n front rest h = elim (compact_cases n h) [
  | inl (small, e) ↦ rw e (small_prefix n front rest small)
  | inr (p, k, least, wide, above, fits, e) ↦ rw e (wide_prefix p k least n front rest wide fits)
]

-- A length-prefixed item is read back.
pub read_bytes-at :
    (item front rest : Bytes)
    → length item < 2 ^ 64
    → read_bytes (at front (compact (length item) ++ (item ++ rest)))
      ≡ ok (item, at (front ++ (compact (length item) ++ item)) rest)
unfolding read_bytes
read_bytes-at item front rest h = rw (
  read_compact_size-at (length item) front (item ++ rest) h,
  take-at (front ++ compact (length item)) item rest (length item) refl,
  append_assoc front (compact (length item)) item,
)
