-- ===== src/Script/Multisig/Bip67.antt =====
-- The redeem script and the order of its keys (BIP-67).
use mathlib.Core.List.{Perm}
use yubtc_python.Prelude.{
  ℕ, ◌≡◌, refl, sym, ap, ◌∙◌, List, [], ◌∷◌, ◌++◌, length, not, Result, ok, ◌>>=◌, ◌>>◌, guard,
  invalid_multisig_redeem, arith,
}
use yubtc_python.Prelude.Int.{ℤ, pos}
use yubtc_python.Prelude.Bytes.{Bytes}
use yubtc_python.Prelude.Sort.{bytes_leb, insert, sort, sort-perm, length-sort}
use yubtc_python.Script.Multisig.{
  out_of_bounds, append_op_n, any_other_length, adjacent_equal, key_pushes,
  make_multisig_redeem_script,
}
use yubtc_python.Script.{op_checkmultisig}

any_other_length-insert :
    (n : ℕ) (k : Bytes) (ks : List Bytes)
    → any_other_length n (insert bytes_leb k ks) ≡ any_other_length n (k ∷ ks)
unfolding any_other_length insert
any_other_length-insert n k [] = refl
any_other_length-insert n k (j ∷ ks) = ground (arith, any_other_length-insert n k ks)

any_other_length-sort :
    (n : ℕ) (ks : List Bytes) → any_other_length n (sort bytes_leb ks) ≡ any_other_length n ks
unfolding any_other_length sort
any_other_length-sort n [] = refl
any_other_length-sort n (k ∷ ks) =
    ground (arith, any_other_length-insert n k (sort bytes_leb ks), any_other_length-sort n ks)

-- What the script is made of, with every use of the keys behind the sort.
from_sorted : ℤ → List Bytes → Result Bytes
from_sorted m sorted_keys = do
  let n = length sorted_keys
  guard (not (out_of_bounds m n)) invalid_multisig_redeem
  guard (not (any_other_length 33 sorted_keys)) invalid_multisig_redeem
  guard (not (adjacent_equal sorted_keys)) invalid_multisig_redeem
  op_m ← append_op_n m
  op_n ← append_op_n (pos n)
  ok (op_m ++ (key_pushes sorted_keys ++ (op_n ++ op_checkmultisig ∷ [])))

make-from_sorted :
    (m : ℤ) (keys : List Bytes)
    → make_multisig_redeem_script m keys ≡ from_sorted m (sort bytes_leb keys)
unfolding make_multisig_redeem_script from_sorted
make-from_sorted m keys = rw (length-sort bytes_leb keys, any_other_length-sort 33 keys)

-- Two orders of the same keys give the same redeem script, or the same error.
pub make_multisig_redeem_script-perm :
    (m : ℤ) {keys keys' : List Bytes}
    → Perm keys keys'
    → make_multisig_redeem_script m keys ≡ make_multisig_redeem_script m keys'
make_multisig_redeem_script-perm m {keys} {keys'} p =
    make-from_sorted m keys ∙ ap (from_sorted m) (sort-perm p) ∙ sym (make-from_sorted m keys')
