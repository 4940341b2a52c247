-- ===== src/Script/Multisig/Extract.antt =====
-- `extract_multisig_quorum` against `make_multisig_redeem_script`.
use yubtc_python.Prelude.{
  ℕ, zero, suc, ◌<◌, leb, ltb, ◌==◌, Result, err, Error, invalid_multisig_redeem, ◌+◌, ◌-◌, ◌*◌,
  ◌≤◌, ◌≡◌, inl, inr, refl, sym, ap, ◌∙◌, List, [], ◌∷◌, ◌++◌, append_assoc, length, length-append,
  take, drop, drop-drop, take_exact, drop_exact, All, le→ltb, le→leb, ==_refl, ◌&&◌, true, false,
  Bool-cases, ok, arith,
}
use yubtc_python.Prelude.Int.{ℤ, pos, negsuc}
use yubtc_python.Prelude.Bytes.{Bytes, bytes_eq→eq, bytes_eq_refl, index, index_of_drop, slice}
use yubtc_python.Prelude.Sort.{
  bytes_leb, bytes_leb_refl, bytes_leb_trans, bytes_leb_antisymm, IsSorted, sort-IsSorted,
  bytes_leb_total, sort, length-sort, All-sort,
}
use yubtc_python.Script.Multisig.{
  key_pushes, make_multisig_redeem_script, is_canonical_compressed_pubkey, is_quorum_op, read_keys,
  mem_bytes, has_duplicates, adjacent_equal, out_of_bounds, append_op_n, extract_multisig_quorum,
}

-- A compressed public key: the prefix 02 or 03, then 32 bytes.
abbrev pub IsKey : Bytes → Type 0
IsKey [] = ⊥
IsKey (b ∷ bs) = (is_canonical_compressed_pubkey b ≡ true) × (length bs ≡ 32)

IsKey-length : (k : Bytes) → IsKey k → length k ≡ 33
IsKey-length [] h = absurd h
IsKey-length (b ∷ bs) h = omega arith

IsKey-first :
    (k : Bytes) → IsKey k → (b : ℕ) × (index k 0 ≡ ok b) × (is_canonical_compressed_pubkey b ≡ true)
IsKey-first [] h = absurd h
IsKey-first (b ∷ bs) h = (b, refl, h.0)

pub slice-drop : (xs : Bytes) (a : ℕ) → slice xs (a + 1) (a + 34) ≡ take 33 (drop 1 (drop a xs))
slice-drop xs a = let e : a + 34 - (a + 1) ≡ 33 = omega arith in rw (e, drop-drop a 1 xs)

-- The loop reads back the pushes that stand from its start on.
read_keys-key_pushes :
    (ks : List Bytes) (i : ℕ) (script tail : Bytes)
    → All IsKey ks
    → drop (1 + i * 34) script ≡ key_pushes ks ++ tail
    → read_keys (length ks) i script ≡ ok ks
unfolding read_keys key_pushes
read_keys-key_pushes [] i script tail h e = refl
read_keys-key_pushes (k ∷ ks) i script tail h e =
    let (first, at_0, canonical) = IsKey-first k h.0 in
    let whole : drop (1 + i * 34) script ≡ 0x21 ∷ (k ++ (key_pushes ks ++ tail)) =
      e ∙ ap (◌∷◌ 0x21) (append_assoc k (key_pushes ks) tail) in
    let key : slice script (1 + i * 34 + 1) (1 + i * 34 + 34) ≡ k =
      slice-drop script (1 + i * 34)
      ∙ ap (λ (xs : Bytes). take 33 (drop 1 xs)) whole
      ∙ take_exact 33 k (key_pushes ks ++ tail) (IsKey-length k h.0) in
    let next : 1 + (i + 1) * 34 ≡ 1 + i * 34 + 34 = omega arith in
    let behind : drop (1 + (i + 1) * 34) script ≡ key_pushes ks ++ tail =
      ap (λ n. drop n script) next
      ∙ sym (drop-drop (1 + i * 34) 34 script)
      ∙ ap (λ (xs : Bytes). drop 34 xs) whole
      ∙ drop_exact 33 k (key_pushes ks ++ tail) (IsKey-length k h.0) in
    rw (
      index_of_drop script (k ++ (key_pushes ks ++ tail)) (1 + i * 34) 0x21 whole,
      key,
      at_0,
      canonical,
      read_keys-key_pushes ks (i + 1) script tail h.1 behind,
    )

length-key_pushes : (ks : List Bytes) → All IsKey ks → length (key_pushes ks) ≡ length ks * 34
unfolding key_pushes
length-key_pushes [] h = omega arith
length-key_pushes (k ∷ ks) h =
    omega (arith, length-append {0} k (key_pushes ks), IsKey-length k h.0, length-key_pushes ks h.1)

-- The canonical redeem script in closed form.
abbrev pub redeem : ℕ → List Bytes → Bytes
redeem m ks = (0x50 + m) ∷ (key_pushes ks ++ (0x50 + length ks) ∷ 0xae ∷ [])

length-redeem : (m : ℕ) (ks : List Bytes) → All IsKey ks → length (redeem m ks) ≡ length ks * 34 + 3
length-redeem m ks h = omega (
  arith,
  length-append {0} (key_pushes ks) ((0x50 + length ks) ∷ 0xae ∷ []),
  length-key_pushes ks h,
)

redeem_tail :
    (m : ℕ) (ks : List Bytes)
    → All IsKey ks
    → drop (length (redeem m ks) - 2) (redeem m ks) ≡ (0x50 + length ks) ∷ 0xae ∷ []
redeem_tail m ks h =
    drop_exact (length (redeem m ks) - 2) ((0x50 + m) ∷ key_pushes ks)
      ((0x50 + length ks) ∷ 0xae ∷ []) (omega (arith, length-redeem m ks h, length-key_pushes ks h))

redeem_last :
    (m : ℕ) (ks : List Bytes)
    → All IsKey ks
    → drop (length (redeem m ks) - 1) (redeem m ks) ≡ 0xae ∷ []
redeem_last m ks h =
    let e : length (redeem m ks) - 1 ≡ length (redeem m ks) - 2 + 1 =
      omega (arith, length-redeem m ks h) in
    rw (e, ← drop-drop (length (redeem m ks) - 2) 1 (redeem m ks), redeem_tail m ks h)

abbrev pub IsQuorum : ℕ → ℕ → Type 0
IsQuorum m n = (1 ≤ m) × (m ≤ n) × (n ≤ 15)

pub extract-redeem :
    (m : ℕ) (ks : List Bytes)
    → IsQuorum m (length ks)
    → All IsKey ks
    → has_duplicates ks ≡ false
    → extract_multisig_quorum (redeem m ks) ≡ ok (m, ks)
unfolding extract_multisig_quorum is_quorum_op
extract-redeem m ks q h d =
    let size : length (redeem m ks) ≡ length ks * 34 + 3 = length-redeem m ks h in
    let back_m : 0x50 + m - 0x50 ≡ m = omega arith in
    let back_n : 0x50 + length ks - 0x50 ≡ length ks = omega arith in
    let ops : (is_quorum_op (0x50 + m) && is_quorum_op (0x50 + length ks)) ≡ true = ground arith in
    let fits : length (redeem m ks) - 3 ≡ length ks * 34 = omega (arith, size) in
    rw (
      index_of_drop (redeem m ks) (0xae ∷ []) (length (redeem m ks) - 2) (0x50 + length ks)
          (redeem_tail m ks h),
      index_of_drop (redeem m ks) [] (length (redeem m ks) - 1) 0xae (redeem_last m ks h),
      le→ltb (length (redeem m ks)) 37 (omega (arith, size)),
      ops,
      back_m,
      back_n,
      le→leb m (length ks) q.1,
      fits,
      ==_refl (length ks * 34),
      read_keys-key_pushes ks 0 (redeem m ks) ((0x50 + length ks) ∷ 0xae ∷ []) h refl,
      d,
    )

-- Every item of a sorted list whose neighbours differ stands there once.
mem_above :
    (k j : Bytes) (js : List Bytes)
    → IsSorted bytes_leb (j ∷ js)
    → mem_bytes k (j ∷ js) ≡ true
    → bytes_leb j k ≡ true
unfolding mem_bytes
mem_above k j [] s h = ground (arith, bytes_eq→eq k j, bytes_leb_refl k)
mem_above k j (i ∷ js) s h =
    ground
      (arith, bytes_eq→eq k j, bytes_leb_refl k, mem_above k i js s.1, bytes_leb_trans j i k s.0)

pub distinct_neighbours :
    (ks : List Bytes)
    → IsSorted bytes_leb ks
    → adjacent_equal ks ≡ false
    → has_duplicates ks ≡ false
unfolding has_duplicates mem_bytes adjacent_equal
distinct_neighbours [] s h = refl
distinct_neighbours (k ∷ []) s h = refl
distinct_neighbours (k ∷ j ∷ ks) s h = elim (Bool-cases (mem_bytes k (j ∷ ks))) [
  | inl twice ↦
      ground (arith, mem_above k j ks s.1 twice, bytes_leb_antisymm k j s.0, bytes_eq_refl k)
  | inr once ↦ ground (arith, once, distinct_neighbours (j ∷ ks) s.1)
]

make-redeem :
    (m : ℕ) (keys : List Bytes) (script : Bytes)
    → make_multisig_redeem_script (pos m) keys ≡ ok script
    → IsQuorum m (length keys)
      × (script ≡ redeem m (sort bytes_leb keys))
      × (adjacent_equal (sort bytes_leb keys) ≡ false)
unfolding make_multisig_redeem_script out_of_bounds append_op_n
make-redeem m keys script e = ground (arith, length-sort bytes_leb keys)

make-redeem_negative :
    (k : ℕ) (keys : List Bytes) (script : Bytes)
    → make_multisig_redeem_script (negsuc k) keys ≡ ok script
    → script
      ≡ (0x50 - (k + 1)) ∷ (key_pushes (sort bytes_leb keys) ++ (0x50 + length keys) ∷ 0xae ∷ [])
unfolding make_multisig_redeem_script out_of_bounds append_op_n
make-redeem_negative k keys script e = ground arith

index-lt {ℓ} : {A : Type ℓ} (xs : List A) (i : ℕ) → i < length xs → (x : A) × (index xs i ≡ ok x)
index-lt [] i h = absurd (omega arith)
index-lt (x ∷ xs) zero h = (x, refl)
index-lt (x ∷ xs) (suc i) h = index-lt xs i (omega arith)

-- A script whose first byte is no OP_M.
extract-low :
    (b : ℕ) (rest : Bytes)
    → leb 0x51 b ≡ false
    → extract_multisig_quorum (b ∷ rest) ≡ err invalid_multisig_redeem
unfolding extract_multisig_quorum is_quorum_op
extract-low b rest low = elim (Bool-cases (ltb (length (b ∷ rest)) 37)) [
  | inl short ↦ rw short
  | inr long ↦
      let (n_op, at_n) = index-lt (b ∷ rest) (length (b ∷ rest) - 2) (ground arith) in
      let (last, at_last) = index-lt (b ∷ rest) (length (b ∷ rest) - 1) (ground arith) in
      elim (Bool-cases (last == 0xae)) [
        | inl check ↦ rw (long, at_n, at_last, check, low)
        | inr other ↦ rw (long, at_n, at_last, other)
      ]
]

-- What an extractor makes of a script that was built of a threshold and keys: it returns the threshold and
-- the sorted keys, where the threshold is not negative, and raises `refused` where it is.
abbrev pub IsExtracted : Error → ℤ → List Bytes → Result (ℕ × List Bytes) → Type 0
IsExtracted refused (pos m) keys result =
    (result ≡ ok (m, sort bytes_leb keys)) × IsQuorum m (length keys)
IsExtracted refused (negsuc k) keys result = result ≡ err refused

-- From the redeem script that `make_multisig_redeem_script` built of compressed keys and a threshold that
-- is not negative, `extract_multisig_quorum` returns the threshold and the sorted keys; the threshold is
-- at least 1 and at most the number of keys, and there are at most 15 of them. A script that was built of
-- a negative threshold is refused by it with an `InvalidMultisigRedeem`.
pub extract-make :
    (m : ℤ) (keys : List Bytes) (script : Bytes)
    → All IsKey keys
    → make_multisig_redeem_script m keys ≡ ok script
    → IsExtracted invalid_multisig_redeem m keys (extract_multisig_quorum script)
extract-make (negsuc k) keys script h e =
    rw (make-redeem_negative k keys script e) (extract-low (0x50 - (k + 1)) _ (ground arith))
extract-make (pos m) keys script h e =
    let (q, layout, distinct) = make-redeem m keys script e in
    let sorted : IsSorted bytes_leb (sort bytes_leb keys) =
      sort-IsSorted bytes_leb bytes_leb_total keys in
    (
      rw layout (
          extract-redeem m (sort bytes_leb keys) (rw (length-sort bytes_leb keys) q)
            (All-sort bytes_leb IsKey keys h)
            (distinct_neighbours (sort bytes_leb keys) sorted distinct)),
      q,
    )
