-- ===== src/Script/Multisig.antt =====
-- script.py: the M-of-N CHECKMULTISIG redeem script, its extractor and the spends that reveal it.
pub mod Bip67
pub mod Extract
pub mod Strict
use yubtc_python.Prelude.{
  ℕ, zero, suc, ◌+◌, ◌-◌, ◌*◌, List, [], ◌∷◌, ◌++◌, length, ltb, leb, ◌==◌, ◌&&◌, ◌||◌, not,
  if◌then◌else◌, Bool, true, false, Result, ok, err, ◌>>=◌, ◌>>◌, guard, concat_map, value_error,
  invalid_multisig_redeem,
}
use yubtc_python.Prelude.Int.{ℤ, pos, negsuc}
use yubtc_python.Prelude.Bytes.{Bytes, bytes_eq, index, slice}
use yubtc_python.Prelude.Sort.{bytes_leb, sort}
use yubtc_python.Script.{op_0, op_checkmultisig, push_data}

abbrev pub ms_max_pubkeys : ℕ
ms_max_pubkeys = 15

-- `n == 0 or m == 0 or m > n or n > MS_MAX_PUBKEYS`; a negative `m` is neither 0 nor above `n`.
unfoldable pub out_of_bounds : ℤ → ℕ → Bool
out_of_bounds (pos m) n = n == 0 || (m == 0 || (ltb n m || ltb ms_max_pubkeys n))
out_of_bounds (negsuc m) n = n == 0 || ltb ms_max_pubkeys n

-- `out.append(0x50 + n)`: a byte, or a ValueError.
unfoldable pub append_op_n : ℤ → Result Bytes
append_op_n (pos n) = if ltb (0x50 + n) 256 then ok ((0x50 + n) ∷ []) else err value_error
append_op_n (negsuc n) = if ltb n 0x50 then ok ((0x50 - (n + 1)) ∷ []) else err value_error

-- `any(len(k) != size for k in keys)`
unfoldable pub any_other_length : ℕ → List Bytes → Bool
any_other_length size [] = false
any_other_length size (k ∷ ks) = not (length k == size) || any_other_length size ks

-- `any(a == b for a, b in zip(keys, keys[1:]))`
unfoldable pub adjacent_equal : List Bytes → Bool
adjacent_equal [] = false
adjacent_equal (a ∷ []) = false
adjacent_equal (a ∷ b ∷ ks) = bytes_eq a b || adjacent_equal (b ∷ ks)

unfoldable pub key_pushes : List Bytes → Bytes
key_pushes [] = []
key_pushes (k ∷ ks) = 0x21 ∷ (k ++ key_pushes ks)

unfoldable pub make_multisig_redeem_script : ℤ → List Bytes → Result Bytes
make_multisig_redeem_script m keys = do
  let n = length keys
  guard (not (out_of_bounds m n)) invalid_multisig_redeem
  guard (not (any_other_length 33 keys)) invalid_multisig_redeem
  let sorted_keys = sort bytes_leb keys
  guard (not (adjacent_equal sorted_keys)) invalid_multisig_redeem
  op_m ← append_op_n m
  op_n ← append_op_n (pos n)
  ok (op_m ++ (key_pushes sorted_keys ++ (op_n ++ op_checkmultisig ∷ [])))

unfoldable pub is_canonical_compressed_pubkey : ℕ → Bool
is_canonical_compressed_pubkey first = first == 0x02 || first == 0x03

-- The loop over the keys, from key `i` on with `count` keys to go.
unfoldable pub read_keys : ℕ → ℕ → Bytes → Result (List Bytes)
read_keys zero i script = ok []
read_keys (suc count) i script = do
  let start = 1 + i * 34
  push ← index script start
  guard (push == 0x21) invalid_multisig_redeem
  let key = slice script (start + 1) (start + 34)
  first ← index key 0
  guard (is_canonical_compressed_pubkey first) invalid_multisig_redeem
  keys ← read_keys count (i + 1) script
  ok (key ∷ keys)

-- `key in keys`
unfoldable pub mem_bytes : Bytes → List Bytes → Bool
mem_bytes k [] = false
mem_bytes k (j ∷ js) = bytes_eq k j || mem_bytes k js

-- `len(set(keys)) != len(keys)`
unfoldable pub has_duplicates : List Bytes → Bool
has_duplicates [] = false
has_duplicates (k ∷ ks) = mem_bytes k ks || has_duplicates ks

-- `0x51 <= op <= 0x50 + MS_MAX_PUBKEYS`
unfoldable pub is_quorum_op : ℕ → Bool
is_quorum_op op = leb 0x51 op && leb op (0x50 + ms_max_pubkeys)

unfoldable pub extract_multisig_quorum : Bytes → Result (ℕ × List Bytes)
extract_multisig_quorum script =
    if ltb (length script) (3 + 34) then err invalid_multisig_redeem else do
      m_op ← index script 0
      n_op ← index script (length script - 2)
      last ← index script (length script - 1)
      guard (last == op_checkmultisig) invalid_multisig_redeem
      guard (is_quorum_op m_op && is_quorum_op n_op) invalid_multisig_redeem
      let m = m_op - 0x50
      let n = n_op - 0x50
      guard (leb m n) invalid_multisig_redeem
      guard (length script - 3 == n * 34) invalid_multisig_redeem
      keys ← read_keys n 0 script
      guard (not (has_duplicates keys)) invalid_multisig_redeem
      ok (m, keys)

unfoldable pub make_multisig_script_sig : Bytes → List Bytes → Result Bytes
make_multisig_script_sig redeem sigs = do
  pushes ← concat_map push_data sigs
  last ← push_data redeem
  ok (op_0 ∷ (pushes ++ last))

unfoldable pub make_multisig_witness : Bytes → List Bytes → List Bytes
make_multisig_witness redeem sigs = [] ∷ (sigs ++ redeem ∷ [])
