-- ===== src/Script/Tapscript/Extract.antt =====
-- `extract_multisig_tapscript` against `make_multisig_tapscript`.
use yubtc_python.Prelude.{
  ℕ, ◌+◌, ◌-◌, ◌*◌, ◌/◌, ◌%◌, ◌≡◌, refl, sym, ap, ◌∙◌, List, [], ◌∷◌, ◌++◌, append_assoc, length,
  length-append, take, drop, drop-drop, take_exact, drop_exact, All, leb, le→ltb, ==_iff, ==_refl,
  ◌&&◌, true, false, ok, err, ltb, Bool-cases, inl, inr, invalid_multisig_tapscript, arith,
}
use yubtc_python.Prelude.Int.{pos, negsuc, ℤ}
use yubtc_python.Prelude.Bytes.{Bytes, index_of_drop, slice}
use yubtc_python.Prelude.Sort.{
  bytes_leb, IsSorted, sort-IsSorted, bytes_leb_total, sort, length-sort, All-sort,
}
use yubtc_python.Script.Multisig.{
  has_duplicates, adjacent_equal, any_other_length, out_of_bounds, append_op_n,
}
use yubtc_python.Script.Multisig.Extract.{IsQuorum, IsExtracted, distinct_neighbours}
use yubtc_python.Script.Tapscript.{
  key_opcode, tap_pushes, make_multisig_tapscript, read_tap_keys, extract_long_tapscript,
  extract_multisig_tapscript,
}

abbrev pub IsXOnly : Bytes → Type 0
IsXOnly k = length k ≡ 32

slice_key : (xs : Bytes) (a : ℕ) → slice xs (a + 1) (a + 33) ≡ take 32 (drop 1 (drop a xs))
slice_key xs a = let e : a + 33 - (a + 1) ≡ 32 = omega arith in rw (e, drop-drop a 1 xs)

-- The loop reads back the pushes that stand from its start on.
read_tap_keys-tap_pushes :
    (ks : List Bytes) (i : ℕ) (script tail : Bytes)
    → All IsXOnly ks
    → drop (i * 34) script ≡ tap_pushes i ks ++ tail
    → read_tap_keys (length ks) i script ≡ ok ks
unfolding read_tap_keys tap_pushes
read_tap_keys-tap_pushes [] i script tail h e = refl
read_tap_keys-tap_pushes (k ∷ ks) i script tail h e =
    let rest : Bytes = key_opcode i ∷ (tap_pushes (i + 1) ks ++ tail) in
    let whole : drop (i * 34) script ≡ 0x20 ∷ (k ++ rest) =
      e ∙ ap (◌∷◌ 0x20) (append_assoc k (key_opcode i ∷ tap_pushes (i + 1) ks) tail) in
    let key : slice script (i * 34 + 1) (i * 34 + 33) ≡ k =
      slice_key script (i * 34)
      ∙ ap (λ (xs : Bytes). take 32 (drop 1 xs)) whole
      ∙ take_exact 32 k rest h.0 in
    let opcode : drop (i * 34 + 33) script ≡ rest =
      sym (drop-drop (i * 34) 33 script)
      ∙ ap (λ (xs : Bytes). drop 33 xs) whole
      ∙ drop_exact 32 k rest h.0 in
    let next : (i + 1) * 34 ≡ i * 34 + 33 + 1 = omega arith in
    let behind : drop ((i + 1) * 34) script ≡ tap_pushes (i + 1) ks ++ tail =
      ap (λ n. drop n script) next
      ∙ sym (drop-drop (i * 34 + 33) 1 script)
      ∙ ap (λ (xs : Bytes). drop 1 xs) opcode in
    rw (
      index_of_drop script (k ++ rest) (i * 34) 0x20 whole,
      key,
      index_of_drop script (tap_pushes (i + 1) ks ++ tail) (i * 34 + 33) (key_opcode i) opcode,
      ==_refl (key_opcode i),
      read_tap_keys-tap_pushes ks (i + 1) script tail h.1 behind,
    )

length-tap_pushes :
    (ks : List Bytes) (i : ℕ) → All IsXOnly ks → length (tap_pushes i ks) ≡ length ks * 34
unfolding tap_pushes
length-tap_pushes [] i h = omega arith
length-tap_pushes (k ∷ ks) i h = omega (
  arith,
  length-append {0} k (key_opcode i ∷ tap_pushes (i + 1) ks),
  h.0,
  length-tap_pushes ks (i + 1) h.1,
)

-- The canonical leaf in closed form.
abbrev pub leaf : ℕ → List Bytes → Bytes
leaf m ks = tap_pushes 0 ks ++ (0x50 + m) ∷ 0x9d ∷ []

length-leaf : (m : ℕ) (ks : List Bytes) → All IsXOnly ks → length (leaf m ks) ≡ length ks * 34 + 2
length-leaf m ks h =
    omega (
      arith,
      length-append {0} (tap_pushes 0 ks) ((0x50 + m) ∷ 0x9d ∷ []),
      length-tap_pushes ks 0 h,
    )

leaf_tail :
    (m : ℕ) (ks : List Bytes)
    → All IsXOnly ks
    → drop (length (leaf m ks) - 2) (leaf m ks) ≡ (0x50 + m) ∷ 0x9d ∷ []
leaf_tail m ks h =
    drop_exact (length (leaf m ks) - 2) (tap_pushes 0 ks) ((0x50 + m) ∷ 0x9d ∷ [])
      (omega (arith, length-leaf m ks h, length-tap_pushes ks 0 h))

leaf_last :
    (m : ℕ) (ks : List Bytes)
    → All IsXOnly ks
    → drop (length (leaf m ks) - 1) (leaf m ks) ≡ 0x9d ∷ []
leaf_last m ks h =
    let e : length (leaf m ks) - 1 ≡ length (leaf m ks) - 2 + 1 =
      omega (arith, length-leaf m ks h) in
    rw (e, ← drop-drop (length (leaf m ks) - 2) 1 (leaf m ks), leaf_tail m ks h)

extract-leaf :
    (m : ℕ) (ks : List Bytes)
    → IsQuorum m (length ks)
    → All IsXOnly ks
    → has_duplicates ks ≡ false
    → extract_multisig_tapscript (leaf m ks) ≡ ok (m, ks)
unfolding extract_multisig_tapscript extract_long_tapscript
extract-leaf m ks q h d =
    let size : length (leaf m ks) ≡ length ks * 34 + 2 = length-leaf m ks h in
    let back_m : 0x50 + m - 0x50 ≡ m = omega arith in
    let op : (leb 0x51 (0x50 + m) && leb (0x50 + m) 0x5f) ≡ true = ground arith in
    let body : length (leaf m ks) - 2 ≡ length ks * 34 = omega (arith, size) in
    let whole : length ks * 34 % 34 ≡ 0 = omega arith in
    let count : length ks * 34 / 34 ≡ length ks = omega arith in
    let bounds : (leb m (length ks) && leb (length ks) 15) ≡ true = ground arith in
    rw (
      index_of_drop (leaf m ks) (0x9d ∷ []) (length (leaf m ks) - 2) (0x50 + m) (leaf_tail m ks h),
      index_of_drop (leaf m ks) [] (length (leaf m ks) - 1) 0x9d (leaf_last m ks h),
      le→ltb (length (leaf m ks)) 36 (omega (arith, size)),
      op,
      back_m,
      body,
      whole,
      count,
      bounds,
      read_tap_keys-tap_pushes ks 0 (leaf m ks) ((0x50 + m) ∷ 0x9d ∷ []) h refl,
      d,
    )

any_other_length-All :
    (n : ℕ) (ks : List Bytes) → any_other_length n ks ≡ false → All (λ k. length k ≡ n) ks
unfolding any_other_length
any_other_length-All n [] h = tt
any_other_length-All n (k ∷ ks) h =
    (ground (arith, ==_iff (length k) n), any_other_length-All n ks (ground arith))

make-leaf :
    (m : ℕ) (keys : List Bytes) (script : Bytes)
    → make_multisig_tapscript (pos m) keys ≡ ok script
    → IsQuorum m (length keys)
      × (script ≡ leaf m (sort bytes_leb keys))
      × (adjacent_equal (sort bytes_leb keys) ≡ false)
      × (any_other_length 32 keys ≡ false)
unfolding make_multisig_tapscript out_of_bounds append_op_n
make-leaf m keys script e = ground (arith, length-sort bytes_leb keys)

make-leaf_negative :
    (k : ℕ) (keys : List Bytes) (script : Bytes)
    → make_multisig_tapscript (negsuc k) keys ≡ ok script
    → script ≡ tap_pushes 0 (sort bytes_leb keys) ++ (0x50 - (k + 1)) ∷ 0x9d ∷ []
unfolding make_multisig_tapscript out_of_bounds append_op_n
make-leaf_negative k keys script e = ground arith

-- A leaf whose last byte but one is no OP_M.
extract-low_leaf :
    (op : ℕ) (front : Bytes)
    → leb 0x51 op ≡ false
    → extract_multisig_tapscript (front ++ op ∷ 0x9d ∷ []) ≡ err invalid_multisig_tapscript
unfolding extract_multisig_tapscript extract_long_tapscript
extract-low_leaf op front low =
    let script : Bytes = front ++ op ∷ 0x9d ∷ [] in
    let size : length script ≡ length front + 2 = length-append {0} front (op ∷ 0x9d ∷ []) in
    let tail : drop (length script - 2) script ≡ op ∷ 0x9d ∷ [] =
      drop_exact (length script - 2) front (op ∷ 0x9d ∷ []) (omega (arith, size)) in
    let next : length script - 1 ≡ length script - 2 + 1 = omega (arith, size) in
    let last : drop (length script - 1) script ≡ 0x9d ∷ [] =
      ap (λ n. drop n script) next
      ∙ sym (drop-drop (length script - 2) 1 script)
      ∙ ap (λ (xs : Bytes). drop 1 xs) tail in
    elim (Bool-cases (ltb (length script) 36)) [
      | inl short ↦ rw short
      | inr long ↦ rw (
        long,
        index_of_drop script (0x9d ∷ []) (length script - 2) op tail,
        index_of_drop script [] (length script - 1) 0x9d last,
        low,
      )
    ]

-- From the leaf script that `make_multisig_tapscript` built of a threshold that is not negative,
-- `extract_multisig_tapscript` returns the threshold and the sorted keys; the threshold is at least 1 and
-- at most the number of keys, and there are at most 15 of them. A leaf that was built of a negative
-- threshold is refused by it with an `InvalidMultisigTapscript`.
pub extract-make_tapscript :
    (m : ℤ) (keys : List Bytes) (script : Bytes)
    → make_multisig_tapscript m keys ≡ ok script
    → IsExtracted invalid_multisig_tapscript m keys (extract_multisig_tapscript script)
extract-make_tapscript (negsuc k) keys script e =
    rw (make-leaf_negative k keys script e)
      (extract-low_leaf (0x50 - (k + 1)) (tap_pushes 0 (sort bytes_leb keys)) (ground arith))
extract-make_tapscript (pos m) keys script e =
    let (q, layout, distinct, sizes) = make-leaf m keys script e in
    let sorted : IsSorted bytes_leb (sort bytes_leb keys) =
      sort-IsSorted bytes_leb bytes_leb_total keys in
    (
      rw layout (
          extract-leaf m (sort bytes_leb keys) (rw (length-sort bytes_leb keys) q)
            (All-sort bytes_leb IsXOnly keys (any_other_length-All 32 keys sizes))
            (distinct_neighbours (sort bytes_leb keys) sorted distinct)),
      q,
    )
