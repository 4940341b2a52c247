-- ===== src/Prelude/Bytes.antt =====
-- Byte strings and what `struct` does with fixed-width integers.
use Prim.Native.Nat.{ℕ, zero, suc, ◌+◌, ◌*◌, ◌/◌, ◌%◌, ◌^◌, ◌≤◌, ◌<◌, ◌-◌}
use mathlib.Core.Path.{◌≡◌, refl, ap}
use mathlib.Core.Bool.{Bool, true, false, ◌&&◌}
use mathlib.Core.List.{List, [], ◌∷◌}
use native.Mathlib.Omega.{arith}
use native.Mathlib.Nat.{pow-suc}
use yubtc_python.Prelude.Tests.{ltb, ◌==◌, if◌then◌else◌}
use yubtc_python.Prelude.Lists.{length, take, drop, All}
use yubtc_python.Prelude.Exceptions.{Result, ok, err, index_error, struct_error}
use yubtc_python.Prelude.Int.{ℤ, pos, negsuc}

abbrev pub Bytes : Type 0
Bytes = List ℕ

abbrev pub IsByte : ℕ → Type 0
IsByte b = b < 256

-- `bs[i]`
abbrev pub index {ℓ} : {A : Type ℓ} → List A → ℕ → Result A
index [] i = err index_error
index (x ∷ xs) zero = ok x
index (x ∷ xs) (suc i) = index xs i

pub index_of_drop {ℓ} :
    {A : Type ℓ} (xs ys : List A) (n : ℕ) (y : A) → drop n xs ≡ y ∷ ys → index xs n ≡ ok y
index_of_drop [] ys zero y e = cc
index_of_drop [] ys (suc n) y e = cc
index_of_drop (x ∷ xs) ys zero y e = ground arith
index_of_drop (x ∷ xs) ys (suc n) y e = index_of_drop xs ys n y e

pub drop_of_index {ℓ} :
    {A : Type ℓ} (xs : List A) (n : ℕ) (y : A) → index xs n ≡ ok y → drop n xs ≡ y ∷ drop (n + 1) xs
drop_of_index [] zero y e = cc
drop_of_index [] (suc n) y e = cc
drop_of_index (x ∷ xs) zero y e = ground arith
drop_of_index (x ∷ xs) (suc n) y e =
    let next : suc n + 1 ≡ suc (n + 1) = omega arith in rw next (drop_of_index xs n y e)

-- `bs[i:j]`
abbrev pub slice {ℓ} : {A : Type ℓ} → List A → ℕ → ℕ → List A
slice xs i j = take (j - i) (drop i xs)

-- `a == b` on byte strings
unfoldable pub bytes_eq : Bytes → Bytes → Bool
bytes_eq [] [] = true
bytes_eq [] (b ∷ bs) = false
bytes_eq (a ∷ as') [] = false
bytes_eq (a ∷ as') (b ∷ bs) = a == b && bytes_eq as' bs

pub bytes_eq→eq : (a b : Bytes) → bytes_eq a b ≡ true → a ≡ b
unfolding bytes_eq
bytes_eq→eq [] [] h = refl
bytes_eq→eq [] (b ∷ bs) h = cc
bytes_eq→eq (a ∷ as') [] h = cc
bytes_eq→eq (a ∷ as') (b ∷ bs) h = ground (arith, bytes_eq→eq as' bs)

pub bytes_eq_refl : (a : Bytes) → bytes_eq a a ≡ true
unfolding bytes_eq
bytes_eq_refl [] = refl
bytes_eq_refl (a ∷ as') = ground (arith, bytes_eq_refl as')

-- `k` bytes of `n`, the lowest first, and back.
unfoldable pub le_bytes : ℕ → ℕ → Bytes
le_bytes zero n = []
le_bytes (suc k) n = n % 256 ∷ le_bytes k (n / 256)

unfoldable pub from_le : Bytes → ℕ
from_le [] = 0
from_le (b ∷ bs) = b + 256 * from_le bs

pub length-le_bytes : (k n : ℕ) → length (le_bytes k n) ≡ k
unfolding le_bytes
length-le_bytes zero n = refl
length-le_bytes (suc k) n = ap suc (length-le_bytes k (n / 256))

pub le_bytes-IsByte : (k n : ℕ) → All IsByte (le_bytes k n)
unfolding le_bytes
le_bytes-IsByte zero n = tt
le_bytes-IsByte (suc k) n = (omega arith, le_bytes-IsByte k (n / 256))

from_le_step : (b m p : ℕ) → m + 1 ≤ p → b < 256 → b + 256 * m < 256 * p
from_le_step b m p h k = omega arith

div_below : (n p : ℕ) → n < 256 * p → n / 256 < p
div_below n p h = omega arith

pub from_le-le_bytes : (k n : ℕ) → n < 256 ^ k → from_le (le_bytes k n) ≡ n
unfolding le_bytes from_le
from_le-le_bytes zero n h = omega arith
from_le-le_bytes (suc k) n h =
    omega
      (arith, from_le-le_bytes k (n / 256) (div_below n (256 ^ k) (omega (arith, pow-suc 256 k))))

pub le_bytes-from_le : (bs : Bytes) → All IsByte bs → le_bytes (length bs) (from_le bs) ≡ bs
unfolding le_bytes from_le
le_bytes-from_le [] h = refl
le_bytes-from_le (b ∷ bs) h = ground (arith, le_bytes-from_le bs h.1, low, high)
  where
    low : (b + 256 * from_le bs) % 256 ≡ b
    low = omega arith

    high : (b + 256 * from_le bs) / 256 ≡ from_le bs
    high = omega arith

pub from_le-lt : (bs : Bytes) → All IsByte bs → from_le bs < 256 ^ length bs
unfolding from_le
from_le-lt [] h = omega arith
from_le-lt (b ∷ bs) h = omega (
  arith,
  from_le_step b (from_le bs) (256 ^ length bs),
  from_le-lt bs h.1,
  pow-suc 256 (length bs),
)

-- `struct.pack` of one unsigned field of `k` bytes, and `struct.unpack`.
unfoldable pub pack : ℕ → ℕ → Result Bytes
pack k n = if ltb n (256 ^ k) then ok (le_bytes k n) else err struct_error

unfoldable pub unpack : ℕ → Bytes → Result ℕ
unpack k bs = if length bs == k then ok (from_le bs) else err struct_error

pub pack_lem : (k n : ℕ) → n < 256 ^ k → pack k n ≡ ok (le_bytes k n)
unfolding pack
pack_lem k n h = ground arith

pub unpack-le_bytes : (k n : ℕ) → n < 256 ^ k → unpack k (le_bytes k n) ≡ ok n
unfolding unpack
unpack-le_bytes k n h = ground (arith, length-le_bytes k n, from_le-le_bytes k n h)

-- The format `<l`: a signed word of four bytes.
unfoldable pub signed_bytes : ℤ → Bytes
signed_bytes (pos n) = le_bytes 4 n
signed_bytes (negsuc n) = le_bytes 4 (2 ^ 32 - 1 - n)

abbrev pub IsInt32 : ℤ → Type 0
IsInt32 (pos n) = n < 2 ^ 31
IsInt32 (negsuc n) = n < 2 ^ 31

unfoldable pub pack_signed : ℤ → Result Bytes
pack_signed (pos n) = if ltb n (2 ^ 31) then ok (signed_bytes (pos n)) else err struct_error
pack_signed (negsuc n) = if ltb n (2 ^ 31) then ok (signed_bytes (negsuc n)) else err struct_error

unfoldable pub from_signed : ℕ → ℤ
from_signed n = if ltb n (2 ^ 31) then pos n else negsuc (2 ^ 32 - 1 - n)

unfoldable pub unpack_signed : Bytes → Result ℤ
unpack_signed bs = if length bs == 4 then ok (from_signed (from_le bs)) else err struct_error

pub length-signed_bytes : (v : ℤ) → length (signed_bytes v) ≡ 4
unfolding signed_bytes
length-signed_bytes (pos n) = length-le_bytes 4 n
length-signed_bytes (negsuc n) = length-le_bytes 4 (2 ^ 32 - 1 - n)

pub pack_signed_lem : (v : ℤ) → IsInt32 v → pack_signed v ≡ ok (signed_bytes v)
unfolding pack_signed
pack_signed_lem (pos n) h = ground arith
pack_signed_lem (negsuc n) h = ground arith

pub unpack_signed_lem : (v : ℤ) → IsInt32 v → unpack_signed (signed_bytes v) ≡ ok v
unfolding unpack_signed from_signed signed_bytes
unpack_signed_lem (pos n) h =
    ground (arith, length-le_bytes 4 n, from_le-le_bytes 4 n (omega arith))
unpack_signed_lem (negsuc n) h =
    ground
      (arith, length-le_bytes 4 (2 ^ 32 - 1 - n), from_le-le_bytes 4 (2 ^ 32 - 1 - n) (omega arith))
