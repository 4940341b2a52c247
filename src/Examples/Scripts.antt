-- ===== src/Examples/Scripts.antt =====
-- Lock scripts, pushes and multi-signature scripts at concrete inputs.
use mathlib.Core.List.{Permᴰ}
use yubtc_python.Prelude.{
  ℕ, ◌+◌, ◌≡◌, ◌≢◌, ◌↔◌, refl, List, [], ◌∷◌, ◌++◌, length, replicate, drop, All, false, some, ok,
  arith,
}
use yubtc_python.Prelude.Int.{pos}
use yubtc_python.Prelude.Bytes.{Bytes, bytes_eq}
use yubtc_python.Prelude.Sort.{bytes_leb, insert, sort}
use yubtc_python.Transaction.CompactSize.{compact_size, varint}
use yubtc_python.Transaction.CompactSize.Agreement.{varint_iff}
use yubtc_python.Bech32.{bytes_to_5bit, five_bit_to_bytes}
use yubtc_python.Bech32.RoundTrip.{five_bit_to_bytes-bytes_to_5bit}
use yubtc_python.Script.{
  make_p2wpkh_lock_script, extract_p2wpkh_hash, extract_p2tr_output_key,
  sig_scheme_from_script_pubkey, bip143_p2wpkh, bip341_keypath, push_data, push_data_len,
}
use yubtc_python.Script.LockScripts.{p2wpkh_iff, sig_scheme_iff}
use yubtc_python.Script.Push.{read_push, push_data_lem}
use yubtc_python.Script.Multisig.{
  out_of_bounds, append_op_n, any_other_length, adjacent_equal, key_pushes, read_keys, mem_bytes,
  is_quorum_op, make_multisig_redeem_script, extract_multisig_quorum, has_duplicates,
  is_canonical_compressed_pubkey,
}
use yubtc_python.Script.Multisig.Extract.{IsKey, IsQuorum, redeem, extract-make}
use yubtc_python.Script.Multisig.Bip67.{make_multisig_redeem_script-perm}
use yubtc_python.Script.Multisig.Strict.{extract_inv}

abbrev key_a : Bytes
key_a = 0x02 ∷ replicate 32 0x11

abbrev key_b : Bytes
key_b = 0x03 ∷ replicate 32 0x22

abbrev keys : List Bytes
keys = key_a ∷ key_b ∷ []

abbrev hash20 : Bytes
hash20 = replicate 20 0x07

abbrev hash32 : Bytes
hash32 = replicate 32 0x09

keys-IsKey : All IsKey keys
unfolding is_canonical_compressed_pubkey
keys-IsKey = ((refl, refl), ((refl, refl), tt))

made : make_multisig_redeem_script (pos 2) (key_b ∷ key_a ∷ []) ≡ ok (redeem 2 keys)
unfolding make_multisig_redeem_script out_of_bounds append_op_n any_other_length adjacent_equal
    key_pushes bytes_eq bytes_leb sort insert
made = refl

extract-make_example :
    (extract_multisig_quorum (redeem 2 keys) ≡ ok (2, sort bytes_leb (key_b ∷ key_a ∷ [])))
    × IsQuorum 2 (length (key_b ∷ key_a ∷ []))
extract-make_example =
    extract-make (pos 2) (key_b ∷ key_a ∷ []) (redeem 2 keys) (keys-IsKey.1.0, (keys-IsKey.0, tt))
      made

extracted : extract_multisig_quorum (redeem 2 keys) ≡ ok (2, keys)
unfolding extract_multisig_quorum is_quorum_op read_keys mem_bytes has_duplicates key_pushes
    is_canonical_compressed_pubkey bytes_eq
extracted = refl

extract_inv_example :
    (redeem 2 keys ≡ redeem 2 keys)
    × All IsKey keys
    × IsQuorum 2 (length keys)
    × (has_duplicates keys ≡ false)
extract_inv_example = extract_inv (redeem 2 keys) 2 keys extracted

make_multisig_redeem_script-perm_example :
    make_multisig_redeem_script (pos 2) (key_a ∷ key_b ∷ [])
    ≡ make_multisig_redeem_script (pos 2) (key_b ∷ key_a ∷ [])
make_multisig_redeem_script-perm_example =
    make_multisig_redeem_script-perm (pos 2) ∣ Permᴰ.swap refl refl ∣₁

abbrev item : Bytes
item = replicate 80 1

push_data_lem_example :
    (s : Bytes) × (push_data item ≡ ok s)
    × (length s ≡ push_data_len (length item) + length item)
    × (read_push (s ++ 0xac ∷ []) ≡ some (item, 0xac ∷ []))
push_data_lem_example = push_data_lem item (0xac ∷ []) (omega arith)

p2wpkh_iff_example :
    (make_p2wpkh_lock_script hash20 ≡ ok (0x00 ∷ 0x14 ∷ hash20))
    ↔ (extract_p2wpkh_hash (0x00 ∷ 0x14 ∷ hash20) ≡ ok hash20)
p2wpkh_iff_example = p2wpkh_iff (0x00 ∷ 0x14 ∷ hash20) hash20

sig_scheme_iff_example :
    ((sig_scheme_from_script_pubkey (0x00 ∷ 0x14 ∷ hash20) ≡ bip143_p2wpkh)
      ↔ (extract_p2wpkh_hash (0x00 ∷ 0x14 ∷ hash20) ≡ ok (drop 2 (0x00 ∷ 0x14 ∷ hash20))))
    × ((sig_scheme_from_script_pubkey (0x00 ∷ 0x14 ∷ hash20) ≡ bip341_keypath)
        ↔ (extract_p2tr_output_key (0x00 ∷ 0x14 ∷ hash20) ≡ ok (drop 2 (0x00 ∷ 0x14 ∷ hash20))))
sig_scheme_iff_example = sig_scheme_iff (0x00 ∷ 0x14 ∷ hash20)

varint_iff_example :
    (varint 300 ≡ compact_size (pos 300))
    ↔ ((◌≢◌ {A = ℕ} 300 0xffff) × (◌≢◌ {A = ℕ} 300 0xffff_ffff))
varint_iff_example = varint_iff 300

five_bit_to_bytes-bytes_to_5bit_example :
    five_bit_to_bytes (bytes_to_5bit (0x75 ∷ 0x1e ∷ 0x76 ∷ [])) ≡ some (0x75 ∷ 0x1e ∷ 0x76 ∷ [])
five_bit_to_bytes-bytes_to_5bit_example =
    five_bit_to_bytes-bytes_to_5bit (0x75 ∷ 0x1e ∷ 0x76 ∷ []) (ground arith)
