-- ===== src/Examples/Corners.antt =====
-- Corner cases of the Finalizer, with the stand-ins of Roles.
use yubtc_python.Prelude.{◌≡◌, refl, [], ◌∷◌, ◌++◌, replicate, take, some, err, value_error}
use yubtc_python.Prelude.Bytes.{Bytes, bytes_eq}
use yubtc_python.Hash.{hash160}
use yubtc_python.Script.{
  cscript, cscript_item, starts_with, extract_p2wpkh_hash, extract_p2tr_output_key,
}
use yubtc_python.Transaction.Signing.{update}
use yubtc_python.Psbt.Tx.{nonempty}
use yubtc_python.Psbt.Model.{PsbtIn}
use yubtc_python.Psbt.Utxo.{
  set_input, input_data, utxo_data, out_data, is_p2sh_script, is_p2wsh_script, is_p2tr_script,
  byte_is, script2pkh, or_form, form_of_script, pinned_sighash, sighash_fits, ends_with,
}
use yubtc_python.Psbt.Finalizer.{
  partial_sig_by_hash, found_sig, finalize_form, finalize_own, finalize_by_script, finalize_known,
  finalize_unless, finalize_input, finalize_at, finalize_psbt_input, or_unchanged, finalize_loop,
  finalize_psbt,
}
use yubtc_python.Examples.Roles.{toy_sha256, toy_ripemd160, toy_curve, key, with_input, created}

abbrev p2pkh_script : Bytes
p2pkh_script = 0x76 ∷ 0xa9 ∷ 0x14 ∷ (take 20 key ++ 0x88 ∷ 0xac ∷ [])

-- An input that spends a P2PKH output, with a signature of 76 bytes.
abbrev long_signed : PsbtIn
long_signed = record created {
  witness_utxo = some (record { amount = 1000; script = p2pkh_script });
  partial_sigs = (key, replicate 75 7 ++ 0x01 ∷ []) ∷ [];
}

long-aborts :
    finalize_psbt toy_sha256 toy_ripemd160 toy_curve (with_input long_signed) ≡ err value_error
unfolding finalize_psbt finalize_loop or_unchanged finalize_psbt_input finalize_at finalize_input
    finalize_unless finalize_known finalize_by_script finalize_own finalize_form found_sig
    partial_sig_by_hash pinned_sighash sighash_fits ends_with form_of_script or_form script2pkh
    byte_is is_p2sh_script is_p2wsh_script is_p2tr_script starts_with extract_p2wpkh_hash
    extract_p2tr_output_key input_data utxo_data out_data set_input update hash160 bytes_eq nonempty
    cscript cscript_item
long-aborts = refl
