-- ===== src/Examples/Roles.antt =====
-- The roles of a PSBT at concrete inputs, with small stand-ins for the hashes and the curve.
use yubtc_python.Prelude.{
  get_elem?, ◌≡◌, refl, List, [], ◌∷◌, replicate, take, true, false, none, some, ok, err, ◌>>=◌,
  ◌⊎◌, length, All, All2, inr, psbt, not_finalized, arith,
}
use yubtc_python.Prelude.Int.{pos}
use yubtc_python.Prelude.Bytes.{
  Bytes, pack, pack_signed, signed_bytes, le_bytes, bytes_eq, from_le, unpack,
}
use yubtc_python.Prelude.Sort.{bytes_leb}
use yubtc_python.Hash.{dsha256, hash160}
use yubtc_python.Transaction.CompactSize.{compact_size, write_compact_size}
use yubtc_python.Transaction.Model.{serialize_c_out}
use yubtc_python.Transaction.Sighash.{
  prevout, sequence_bytes, p2wpkh_script_code, bip143_sighash_in_range, bip143_sighash,
}
use yubtc_python.Transaction.Signing.{Coincurve, update, sign_hash}
use yubtc_python.Transaction.Taproot.{Curve}
use yubtc_python.Script.{starts_with, extract_p2wpkh_hash, extract_p2tr_output_key}
use yubtc_python.Psbt.Tx.{
  PsbtTransaction, nonempty, encode_items, encode_witness_stack, decode_witness_stack, bounded_many,
  read_many,
}
use yubtc_python.Psbt.Model.{PsbtIn, Psbt, empty_input}
use yubtc_python.Psbt.Utxo.{
  set_input, out_data, utxo_data, input_data, input_utxo_data, byte_is, script2pkh, is_p2sh_script,
  is_p2wsh_script, is_p2tr_script, or_form, form_of_script, pinned_sighash, sighash_fits, ends_with,
  own_of, own_of_form, own_form,
}
use yubtc_python.Psbt.Signer.{
  insert_partial_sig, has_partial_sig, check_sighash_type, add_partial_sig, put_partial_sig,
  unless_signed, check_prev, sign_member_ecdsa, bip143_sig, form_sig, sign_own, sign_by_script,
  sign_known, sign_psbt_input,
}
use yubtc_python.Psbt.Signer.Again.{sign_psbt_input-IsSigning}
use yubtc_python.Psbt.Signer.Sorted.{AreOrdered, HasOneMore, sign_psbt_input-AreOrdered}
use yubtc_python.Psbt.Lifecycle.{Reach, here, next, signs, finalizes}
use yubtc_python.Psbt.Lifecycle.Grows.{PsbtGrows, Reach-PsbtGrows}
use yubtc_python.Psbt.Lifecycle.Extracts.{unscripted, AreWholeSteps, Reach-unscripted}
use yubtc_python.Psbt.Reader.{
  reader, remaining, at_end, read_array, read_le, read_compact_size, read_bytes,
}
use yubtc_python.Psbt.Reader
use yubtc_python.Psbt.Finalizer.{
  finalize_psbt, finalize_loop, or_unchanged, finalize_psbt_input, finalize_at, finalize_input,
  finalize_unless, finalize_known, finalize_by_script, finalize_own, finalize_form, found_sig,
  partial_sig_by_hash, with_witness, cleared,
}
use yubtc_python.Psbt.Finalizer.Outcome.{IsFinal}
use yubtc_python.Psbt.Finalizer.Each.{
  with_inputs, finalize_each, IsSettled, finalize_psbt_lem, finalize_psbt-IsSettled,
  finalize_psbt-again, finalize_psbt-no_PsbtError,
}
use yubtc_python.Psbt.Extractor.{
  final_field, with_stack, extract_witness, extract_form, extract_known, extract_input,
  extract_inputs, extract_transaction,
}
use yubtc_python.Psbt.Extractor.Skeleton.{IsSkeleton, extract_transaction-IsSkeleton}
use yubtc_python.Psbt.Extractor.Progress.{extract-finalize_psbt}
use yubtc_python.Psbt.Creator.{
  CreateInput, any_signed, witness_input, create_tap, create_witness, create_script, create_form,
  create_inputs, create_psbt,
}
use yubtc_python.Psbt.Creator.Created.{AreCreated, create_psbt-AreCreated}
use yubtc_python.Psbt.Walk.{
  or_skipped, all_signed, unsigned_from, sign_inputs, sign_forms, sign_nonces, sign_psbt,
}
use yubtc_python.Psbt.Walk.Keys.{try_keys, keys_from, sign_psbt-try_keys}
use yubtc_python.Psbt.Model.Parse.{except_psbt}
use yubtc_python.Psbt.Signer.Adds.{IsSigning}

-- Twenty bytes for a hash, and a public key that is the private key.
abbrev pub toy_sha256 : Bytes → Bytes
toy_sha256 b = take 20 b

abbrev pub toy_ripemd160 : Bytes → Bytes
toy_ripemd160 b = b

abbrev toy : Coincurve
toy = record {
  PrivateKey = Bytes;
  private_key = ok;
  secret = λ k. k;
  public_key = λ k. k;
  sign = λ k h. 0x30 ∷ [];
  sign_schnorr = λ k h aux. replicate 64 7;
}

abbrev pub toy_curve : Curve
toy_curve = record {
  PublicKey = Bytes;
  public_key = ok;
  public_key_of_secret = ok;
  combine = λ p q. ok p;
  format = λ p. p;
}

abbrev pub key : Bytes
key = 0x02 ∷ replicate 32 0x11

abbrev pub unsigned : PsbtTransaction
unsigned = record {
  version = pos 2;
  vin =
      record {
        txhash = replicate 32 0xab;
        n = 0;
        script = [];
        sequence = 0xffff_fffd;
        witness = [];
      }
      ∷ [];
  vout = record { amount = 900; script = 0x51 ∷ [] } ∷ [];
  locktime = 0;
}

abbrev p2wpkh_script : Bytes
p2wpkh_script = 0x00 ∷ 0x14 ∷ take 20 key

abbrev pub with_input : PsbtIn → Psbt
with_input input = record {
  version = 0;
  unsigned_tx = unsigned;
  inputs = input ∷ [];
  outputs = record { unknown = [] } ∷ [];
  unknown_global = [];
}

abbrev pub created : PsbtIn
created = record empty_input {
  witness_utxo = some (record { amount = 1000; script = p2wpkh_script });
}

abbrev sig : Bytes
sig = 0x30 ∷ 0x01 ∷ []

abbrev signed : PsbtIn
signed = record created { partial_sigs = (key, sig) ∷ [] }

abbrev final : PsbtIn
final = record created { final_scriptwitness = some (2 ∷ 2 ∷ 0x30 ∷ 0x01 ∷ 33 ∷ key) }

created-signed :
    sign_psbt_input toy_sha256 toy_ripemd160 toy toy_curve (with_input created) 0 key
    ≡ ok (with_input signed, true)
unfolding sign_psbt_input sign_known sign_by_script sign_own form_sig bip143_sig sign_member_ecdsa
    check_prev unless_signed put_partial_sig add_partial_sig check_sighash_type has_partial_sig
    insert_partial_sig own_form own_of_form own_of pinned_sighash form_of_script or_form script2pkh
    byte_is is_p2sh_script is_p2wsh_script is_p2tr_script starts_with extract_p2wpkh_hash
    extract_p2tr_output_key input_utxo_data input_data utxo_data out_data set_input update hash160
    bip143_sighash bip143_sighash_in_range dsha256 prevout sequence_bytes serialize_c_out
    compact_size pack pack_signed signed_bytes le_bytes p2wpkh_script_code sign_hash bytes_eq
    bytes_leb nonempty
created-signed = refl

signed-finalized :
    finalize_psbt toy_sha256 toy_ripemd160 toy_curve (with_input signed) ≡ ok (with_input final)
unfolding finalize_psbt finalize_loop or_unchanged finalize_psbt_input finalize_at finalize_input
    finalize_unless finalize_known finalize_by_script finalize_own finalize_form found_sig
    partial_sig_by_hash with_witness cleared pinned_sighash sighash_fits ends_with form_of_script
    or_form script2pkh byte_is is_p2sh_script is_p2wsh_script is_p2tr_script starts_with
    extract_p2wpkh_hash extract_p2tr_output_key input_data utxo_data out_data set_input update
    hash160 bytes_eq nonempty encode_witness_stack encode_items write_compact_size pack le_bytes
signed-finalized = refl

-- Signed, and then finalized.
whole_run : Reach toy_sha256 toy_ripemd160 toy toy_curve (with_input created) (with_input final)
whole_run = next (next here (signs 0 key true created-signed)) (finalizes signed-finalized)

Reach-PsbtGrows_example : PsbtGrows (with_input created) (with_input final)
Reach-PsbtGrows_example = Reach-PsbtGrows toy_sha256 toy_ripemd160 toy toy_curve whole_run

abbrev extracted : PsbtTransaction
extracted = record unsigned {
  vin =
      record {
        txhash = replicate 32 0xab;
        n = 0;
        script = [];
        sequence = 0xffff_fffd;
        witness = sig ∷ key ∷ [];
      }
      ∷ [];
}

final-extracted : extract_transaction (with_input final) ≡ ok extracted
unfolding extract_transaction extract_inputs extract_input extract_known extract_form
    extract_witness final_field with_stack except_psbt decode_witness_stack bounded_many read_many
    read_bytes read_compact_size read_le read_array Reader.take remaining at_end reader from_le
    unpack input_data utxo_data out_data form_of_script or_form script2pkh byte_is starts_with
    extract_p2wpkh_hash extract_p2tr_output_key nonempty
final-extracted = refl

whole_run-AreWholeSteps : AreWholeSteps toy_sha256 toy_ripemd160 toy toy_curve whole_run
unfolding whole_run
whole_run-AreWholeSteps = ((tt, tt), tt)

Reach-unscripted_example : unscripted extracted ≡ unscripted unsigned
Reach-unscripted_example =
    Reach-unscripted toy_sha256 toy_ripemd160 toy toy_curve extracted whole_run
      whole_run-AreWholeSteps refl final-extracted

extract_transaction-IsSkeleton_example :
    All IsFinal (final ∷ [])
    × (length extracted.vin ≡ length (final ∷ []))
    × IsSkeleton unsigned extracted
extract_transaction-IsSkeleton_example =
    extract_transaction-IsSkeleton (with_input final) extracted final-extracted

sign_psbt_input-IsSigning_example :
    (with_input signed ≡ with_input created)
    ⊎ ((true ≡ true)
        × (f : PsbtIn → PsbtIn) × IsSigning key f
        × (with_input signed ≡ set_input (with_input created) 0 f)
        × (sign_psbt_input toy_sha256 toy_ripemd160 toy toy_curve (with_input signed) 0 key
            ≡ ok (with_input signed, true)))
sign_psbt_input-IsSigning_example =
    sign_psbt_input-IsSigning toy_sha256 toy_ripemd160 toy toy_curve 0 key (with_input created)
      (with_input signed) true created-signed

sign_psbt_input-AreOrdered_example :
    (with_input signed ≡ with_input created)
    ⊎ ((x' : PsbtIn) × (get_elem? (with_input signed).inputs 0 ≡ some x')
        × HasOneMore key created x'
        × AreOrdered x')
sign_psbt_input-AreOrdered_example =
    sign_psbt_input-AreOrdered toy_sha256 toy_ripemd160 toy toy_curve (with_input created)
      (with_input signed) 0 key true created refl (tt, tt) created-signed

finalize_psbt_lem_example : finalize_psbt toy_sha256 toy_ripemd160 toy_curve (with_input signed) ≡ (
    finalize_each toy_sha256 toy_ripemd160 toy_curve unsigned 0 (signed ∷ []) >>= λ inputs.
    ok (with_inputs (with_input signed) inputs))
finalize_psbt_lem_example = finalize_psbt_lem toy_sha256 toy_ripemd160 toy_curve (with_input signed)

finalize_psbt-IsSettled_example :
    (inputs : List PsbtIn) × (with_input final ≡ with_inputs (with_input signed) inputs)
    × All2 IsSettled (signed ∷ []) inputs
finalize_psbt-IsSettled_example =
    finalize_psbt-IsSettled toy_sha256 toy_ripemd160 toy_curve (with_input signed)
      (with_input final) signed-finalized

finalize_psbt-again_example :
    finalize_psbt toy_sha256 toy_ripemd160 toy_curve (with_input final) ≡ ok (with_input final)
finalize_psbt-again_example =
    finalize_psbt-again toy_sha256 toy_ripemd160 toy_curve (with_input signed) (with_input final)
      signed-finalized

finalize_psbt-no_PsbtError_example : ¬ (
    finalize_psbt toy_sha256 toy_ripemd160 toy_curve (with_input created)
    ≡ err (psbt not_finalized))
finalize_psbt-no_PsbtError_example =
    finalize_psbt-no_PsbtError toy_sha256 toy_ripemd160 toy_curve (with_input created) not_finalized

extract-finalize_psbt_example :
    (tx : PsbtTransaction) × (extract_transaction (with_input final) ≡ ok tx)
extract-finalize_psbt_example =
    extract-finalize_psbt toy_sha256 toy_ripemd160 toy_curve (with_input signed) (with_input final)
      (omega arith) ((refl, refl), tt) signed-finalized
      (inr (2 ∷ 2 ∷ 0x30 ∷ 0x01 ∷ 33 ∷ key, refl), tt)

abbrev descriptor : CreateInput
descriptor = record {
  amount = 1000;
  script_pubkey = p2wpkh_script;
  prev_tx = none;
  redeem_script = none;
  witness_script = none;
  tap_leaf_script = none;
}

made :
    create_psbt toy_sha256 toy_ripemd160 toy_curve unsigned (descriptor ∷ [])
    ≡ ok (with_input created)
unfolding create_psbt any_signed create_inputs create_form create_script create_witness create_tap
    witness_input form_of_script or_form script2pkh byte_is starts_with extract_p2wpkh_hash
    extract_p2tr_output_key nonempty
made = refl

create_psbt-AreCreated_example :
    (unsigned ≡ unsigned)
    × (nonempty unsigned.vout ≡ true)
    × (any_signed unsigned.vin ≡ false)
    × AreCreated toy_sha256 toy_ripemd160 toy_curve unsigned.vin (descriptor ∷ []) (created ∷ [])
    × (length (with_input created).outputs ≡ length unsigned.vout)
create_psbt-AreCreated_example =
    create_psbt-AreCreated toy_sha256 toy_ripemd160 toy_curve unsigned (descriptor ∷ [])
      (with_input created) made

-- The walk signs the input with its first key and stops.
walked :
    sign_psbt toy_sha256 toy_ripemd160 toy toy_curve (λ nonce form. key) (with_input created)
    ≡ ok (with_input signed, [])
unfolding sign_psbt sign_nonces sign_forms sign_inputs or_skipped all_signed unsigned_from
    sign_psbt_input sign_known sign_by_script sign_own form_sig bip143_sig sign_member_ecdsa
    check_prev unless_signed put_partial_sig add_partial_sig check_sighash_type has_partial_sig
    insert_partial_sig own_form own_of_form own_of pinned_sighash form_of_script or_form script2pkh
    byte_is is_p2sh_script is_p2wsh_script is_p2tr_script starts_with extract_p2wpkh_hash
    extract_p2tr_output_key input_utxo_data input_data utxo_data out_data set_input update hash160
    bip143_sighash bip143_sighash_in_range dsha256 prevout sequence_bytes serialize_c_out
    compact_size pack pack_signed signed_bytes le_bytes p2wpkh_script_code sign_hash bytes_eq
    bytes_leb nonempty
walked = refl

sign_psbt-try_keys_example :
    sign_psbt toy_sha256 toy_ripemd160 toy toy_curve (λ nonce form. key) (with_input created)
    ≡ try_keys toy_sha256 toy_ripemd160 toy toy_curve
        (keys_from toy_sha256 toy_ripemd160 toy toy_curve (λ nonce form. key) 0 1000)
        (0 ∷ [])
        (with_input created)
sign_psbt-try_keys_example =
    sign_psbt-try_keys toy_sha256 toy_ripemd160 toy toy_curve (λ nonce form. key)
      (with_input created)
