-- ===== src/Examples/Tests.antt =====
-- The operations that no theorem is about, run at concrete inputs.
use yubtc_python.Prelude.{
  ◌≡◌, refl, [], ◌∷◌, ◌++◌, length, replicate, true, false, ok, err, value_error,
}
use yubtc_python.Prelude.Int.{pos, negsuc}
use yubtc_python.Prelude.Bytes.{Bytes, pack, le_bytes, unpack, from_le}
use yubtc_python.Hash.{dsha256, tagged_hash}
use yubtc_python.Transaction.CompactSize.{varint, varstr}
use yubtc_python.Transaction.Model.{bounded, c_in, c_out, c_transaction}
use yubtc_python.Transaction.Sighash.{
  p2wpkh_script_code, bip143_sighash, taproot_keypath_sighash, taproot_scriptpath_sighash,
}
use yubtc_python.Transaction.Signing.{Coincurve, sign, sign_hash, taproot_sign_sighash_untweaked}
use yubtc_python.Script.{op, push, cscript, cscript_item, make_p2sh_lock_script, push_data}
use yubtc_python.Script.Multisig.{make_multisig_script_sig, make_multisig_witness}
use yubtc_python.Psbt.Reader.{
  reader, remaining, at_end, take, read_array, read_le, read_compact_size, read_bytes,
}
use yubtc_python.Psbt.Tx.{read_out, parse_witness_utxo}
use yubtc_python.Wallet.{is_dust}

abbrev toy_hash : Bytes → Bytes
toy_hash b = length b ∷ []

hashed : dsha256 toy_hash (7 ∷ 8 ∷ []) ≡ 1 ∷ []
unfolding dsha256
hashed = refl

tagged : tagged_hash toy_hash (7 ∷ 8 ∷ []) (9 ∷ []) ≡ 3 ∷ []
unfolding tagged_hash
tagged = refl

varstr-two : varstr (7 ∷ 8 ∷ []) ≡ ok (2 ∷ 7 ∷ 8 ∷ [])
unfolding varstr varint pack le_bytes
varstr-two = refl

c_in-short : c_in (1 ∷ []) (pos 0) [] (pos 0) [] ≡ err value_error
unfolding c_in
c_in-short = refl

c_in-negative : c_in (replicate 32 1) (negsuc 0) [] (pos 0) [] ≡ err value_error
unfolding c_in bounded
c_in-negative = refl

c_out-large : c_out (pos 0x1_0000_0000_0000_0000) [] ≡ err value_error
unfolding c_out bounded
c_out-large = refl

c_transaction-version : (c_transaction [] [] 5).version ≡ pos 2
unfolding c_transaction
c_transaction-version = refl

script_code-length : length (p2wpkh_script_code (0x00 ∷ 0x14 ∷ replicate 20 7)) ≡ 26
unfolding p2wpkh_script_code
script_code-length = refl

bip143-no_input : bip143_sighash toy_hash (c_transaction [] [] 0) 0 [] 0 ≡ err value_error
unfolding bip143_sighash c_transaction
bip143-no_input = refl

keypath-no_input : taproot_keypath_sighash toy_hash (c_transaction [] [] 0) 0 [] ≡ err value_error
unfolding taproot_keypath_sighash c_transaction
keypath-no_input = refl

scriptpath-no_input :
    taproot_scriptpath_sighash toy_hash (c_transaction [] [] 0) 0 [] [] ≡ err value_error
unfolding taproot_scriptpath_sighash c_transaction
scriptpath-no_input = refl

abbrev toy : Coincurve
toy = record {
  PrivateKey = Bytes;
  private_key = ok;
  secret = λ k. k;
  public_key = λ k. 0x02 ∷ k;
  sign = λ k h. k ++ h;
  sign_schnorr = λ k h aux. k ++ h;
}

sign-no_signer : sign toy_hash toy (c_transaction [] [] 0) ((7 ∷ [], []) ∷ []) ≡ err value_error
unfolding sign c_transaction
sign-no_signer = refl

sign_hash-toy : sign_hash toy_hash toy (7 ∷ []) (8 ∷ []) ≡ 7 ∷ 8 ∷ []
unfolding sign_hash
sign_hash-toy = refl

untweaked-toy : taproot_sign_sighash_untweaked toy_hash toy (7 ∷ []) (8 ∷ []) ≡ 7 ∷ 8 ∷ []
unfolding taproot_sign_sighash_untweaked
untweaked-toy = refl

cscript-two : cscript (op 0x76 ∷ push (7 ∷ 8 ∷ []) ∷ []) ≡ ok (0x76 ∷ 2 ∷ 7 ∷ 8 ∷ [])
unfolding cscript cscript_item
cscript-two = refl

p2sh-short : make_p2sh_lock_script (7 ∷ []) ≡ err value_error
unfolding make_p2sh_lock_script
p2sh-short = refl

script_sig-one :
    make_multisig_script_sig (0x51 ∷ []) ((7 ∷ []) ∷ []) ≡ ok (0 ∷ 1 ∷ 7 ∷ 1 ∷ 0x51 ∷ [])
unfolding make_multisig_script_sig push_data
script_sig-one = refl

witness-one : make_multisig_witness (0x51 ∷ []) ((7 ∷ []) ∷ []) ≡ [] ∷ (7 ∷ []) ∷ (0x51 ∷ []) ∷ []
unfolding make_multisig_witness
witness-one = refl

witness_utxo-one :
    parse_witness_utxo (5 ∷ 0 ∷ 0 ∷ 0 ∷ 0 ∷ 0 ∷ 0 ∷ 0 ∷ 1 ∷ 0x51 ∷ [])
    ≡ ok (record { amount = 5; script = 0x51 ∷ [] })
unfolding parse_witness_utxo read_out read_bytes read_compact_size read_le read_array take at_end
    remaining reader unpack from_le
witness_utxo-one = refl

is_dust-p2wpkh : is_dust 293 (0x00 ∷ 0x14 ∷ replicate 20 7) ≡ ok true
unfolding is_dust
is_dust-p2wpkh = refl

is_dust-other : is_dust 0 [] ≡ ok false
unfolding is_dust
is_dust-other = refl
