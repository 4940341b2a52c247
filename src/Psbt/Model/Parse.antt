-- ===== src/Psbt/Model/Parse.antt =====
-- psbt.py: `_parse_input_map`, `_parse_output_map` and `parse_psbt`.
pub mod Ladder
use yubtc_python.Prelude.{
  ℕ, zero, suc, ◌+◌, ◌*◌, List, [], ◌∷◌, ◌++◌, length, take, drop, ltb, leb, ◌==◌, ◌&&◌, ◌||◌, not,
  if◌then◌else◌, Bool, true, false, Option, none, some, Result, ok, err, Error, ◌>>=◌, ◌>>◌, guard,
  psbt, PsbtError, too_large, invalid_magic, invalid_key_length, invalid_field_value,
  invalid_unsigned_tx, missing_unsigned_tx, map_count_mismatch, truncated, unsupported_version,
}
use yubtc_python.Prelude.Bytes.{Bytes, bytes_eq, slice, unpack}
use yubtc_python.Psbt.Reader.{Reader, reader, at_end}
use yubtc_python.Psbt.KeyValue.{Pair, split_key, read_map}
use yubtc_python.Psbt.Tx.{PsbtTxIn, PsbtTransaction, nonempty, parse_tx, parse_witness_utxo}
use yubtc_python.Psbt.Model.{
  UnknownKv, TapScriptSig, TapLeafScript, PsbtIn, PsbtOut, Psbt, empty_input, t_unsigned_tx,
  t_global_xpub, t_in_witness_utxo, t_partial_sig, t_sighash_type, t_redeem_script,
  t_witness_script, t_in_bip32_derivation, t_final_scriptsig, t_final_scriptwitness,
  t_in_tap_script_sig, t_in_tap_leaf_script, t_in_tap_internal_key, t_in_tap_merkle_root, t_version,
}

-- `try: … except PsbtError: raise e`
unfoldable pub except_psbt {ℓ} : {A : Type ℓ} → Result A → PsbtError → Result A
except_psbt (ok a) e = ok a
except_psbt (err (psbt _)) e = err (psbt e)
except_psbt (err other) e = err other

-- `if keydata: raise InvalidKeyLength(field_type=ty)`
unfoldable pub no_keydata : ℕ → Bytes → Result (Unit {0})
unfolding nonempty
no_keydata ty keydata = guard (not (nonempty keydata)) (psbt (invalid_key_length ty))

pub pubkey_keydata_len : Bytes → Bool
pubkey_keydata_len keydata = length keydata == 33 || length keydata == 65

pub kv : Pair → UnknownKv
kv (key, value) = record { key = key; value = value }

-- One round of the loop of `_parse_input_map` on a key that has been split.
pub input_field : PsbtIn → Pair → ℕ → Bytes → Result PsbtIn
unfolding no_keydata pubkey_keydata_len kv
input_field i (key, value) ty keydata =
    let opaque = record i { unknown = i.unknown ++ kv (key, value) ∷ [] } in
    if ltb 0xff ty
    then ok opaque
    else if ty == t_unsigned_tx
    then (do
      no_keydata t_unsigned_tx keydata
      tx ← except_psbt (parse_tx value true) invalid_field_value
      ok (record i { non_witness_utxo = some tx }))
    else if ty == t_in_witness_utxo
    then (do
      no_keydata t_in_witness_utxo keydata
      utxo ← parse_witness_utxo value
      ok (record i { witness_utxo = some utxo }))
    else if ty == t_partial_sig
    then (do
      guard (pubkey_keydata_len keydata) (psbt (invalid_key_length t_partial_sig))
      ok (record i { partial_sigs = i.partial_sigs ++ (keydata, value) ∷ [] }))
    else if ty == t_sighash_type
    then (do
      no_keydata t_sighash_type keydata
      guard (length value == 4) (psbt invalid_field_value)
      sighash ← unpack 4 value
      ok (record i { sighash_type = some sighash }))
    else if ty == t_redeem_script
    then (do no_keydata t_redeem_script keydata; ok (record i { redeem_script = some value }))
    else if ty == t_witness_script
    then (do no_keydata t_witness_script keydata; ok (record i { witness_script = some value }))
    else if ty == t_in_bip32_derivation
    then (do
      guard (pubkey_keydata_len keydata) (psbt (invalid_key_length t_in_bip32_derivation))
      ok opaque)
    else if ty == t_final_scriptsig
    then (do no_keydata t_final_scriptsig keydata; ok (record i { final_scriptsig = some value }))
    else if ty == t_final_scriptwitness
    then (do
      no_keydata t_final_scriptwitness keydata
      ok (record i { final_scriptwitness = some value }))
    else if ty == t_in_tap_script_sig
    then (do
      guard (length keydata == 64) (psbt (invalid_key_length t_in_tap_script_sig))
      let entry : TapScriptSig = record {
        x_only = take 32 keydata;
        leaf_hash = drop 32 keydata;
        sig = value;
      }
      ok (record i { tap_script_sigs = i.tap_script_sigs ++ entry ∷ [] }))
    else if ty == t_in_tap_leaf_script
    then (do
      guard (length keydata == 33) (psbt (invalid_key_length t_in_tap_leaf_script))
      guard (nonempty value) (psbt invalid_field_value)
      let entry : TapLeafScript = record { control_block = keydata; script_with_version = value }
      ok (record i { tap_leaf_scripts = i.tap_leaf_scripts ++ entry ∷ [] }))
    else if ty == t_in_tap_internal_key
    then (do
      no_keydata t_in_tap_internal_key keydata
      guard (length value == 32) (psbt invalid_field_value)
      ok (record i { tap_internal_key = some value }))
    else if ty == t_in_tap_merkle_root
    then (do
      no_keydata t_in_tap_merkle_root keydata
      guard (length value == 32) (psbt invalid_field_value)
      ok (record i { tap_merkle_root = some value }))
    else ok opaque

unfoldable pub input_pairs_loop : PsbtIn → List Pair → Result PsbtIn
input_pairs_loop i [] = ok i
input_pairs_loop i ((key, value) ∷ pairs) = do
  (ty, keydata) ← split_key key
  i' ← input_field i (key, value) ty keydata
  input_pairs_loop i' pairs

unfoldable pub parse_input_map : List Pair → Result PsbtIn
unfolding input_pairs_loop
parse_input_map pairs = input_pairs_loop empty_input pairs

pub output_field : PsbtOut → Pair → ℕ → Bytes → Result PsbtOut
unfolding no_keydata pubkey_keydata_len kv
output_field o (key, value) ty keydata =
    let opaque = record o { unknown = o.unknown ++ kv (key, value) ∷ [] } in
    if ltb 0xff ty
    then ok opaque
    else if ty == t_unsigned_tx || ty == t_in_witness_utxo
    then (do no_keydata ty keydata; ok opaque)
    else if ty == t_partial_sig
    then (do
      guard (pubkey_keydata_len keydata) (psbt (invalid_key_length t_partial_sig))
      ok opaque)
    else ok opaque

unfoldable pub output_pairs_loop : PsbtOut → List Pair → Result PsbtOut
output_pairs_loop o [] = ok o
output_pairs_loop o ((key, value) ∷ pairs) = do
  (ty, keydata) ← split_key key
  o' ← output_field o (key, value) ty keydata
  output_pairs_loop o' pairs

unfoldable pub parse_output_map : List Pair → Result PsbtOut
unfolding output_pairs_loop
parse_output_map pairs = output_pairs_loop (record { unknown = [] }) pairs

-- The variables of the loop over the global map.
pub record Global : Type 0 where
  pub version : ℕ
  pub unsigned_tx : Option PsbtTransaction
  pub unknown_global : List UnknownKv

unfoldable pub any_script : List PsbtTxIn → Bool
unfolding nonempty
any_script [] = false
any_script (i ∷ is) = nonempty i.script || any_script is

-- The value of `UNSIGNED_TX`: a stripped transaction with an output and with no signature script.
unfoldable pub unsigned_field : Global → Bytes → Result Global
unfolding any_script
unsigned_field g value = do
  tx ← except_psbt (parse_tx value false) invalid_unsigned_tx
  guard (not (not (nonempty tx.vout) || any_script tx.vin)) (psbt invalid_unsigned_tx)
  ok (record g { unsigned_tx = some tx })

unfoldable pub version_field : Global → Bytes → Result Global
version_field g value = do
  guard (length value == 4) (psbt invalid_field_value)
  version ← unpack 4 value
  guard (version == 0) (psbt (unsupported_version version))
  ok (record g { version = version })

unfoldable pub global_field : Global → Pair → ℕ → Bytes → Result Global
unfolding no_keydata kv
global_field g (key, value) ty keydata =
    let opaque = record g { unknown_global = g.unknown_global ++ kv (key, value) ∷ [] } in
    if ltb 0xff ty
    then ok opaque
    else if ty == t_unsigned_tx
    then (do no_keydata t_unsigned_tx keydata; unsigned_field g value)
    else if ty == t_version
    then (do no_keydata t_version keydata; version_field g value)
    else if ty == t_global_xpub
    then (do guard (length keydata == 78) (psbt (invalid_key_length t_global_xpub)); ok opaque)
    else ok opaque

unfoldable pub global_pairs_loop : Global → List Pair → Result Global
global_pairs_loop g [] = ok g
global_pairs_loop g ((key, value) ∷ pairs) = do
  (ty, keydata) ← split_key key
  g' ← global_field g (key, value) ty keydata
  global_pairs_loop g' pairs

-- One map for each input, or for each output, of the unsigned transaction.
module _ {ℓ} {A : Type ℓ} (interpret : List Pair → Result A) where
  unfoldable pub read_maps : ℕ → Reader → Result (List A × Reader)
  read_maps zero r = ok ([], r)
  read_maps (suc n) r = if at_end r then err (psbt map_count_mismatch) else do
    (pairs, r1) ← read_map r
    x ← interpret pairs
    (xs, r2) ← read_maps n r1
    ok (x ∷ xs, r2)

abbrev pub magic : Bytes
magic = 0x70 ∷ 0x73 ∷ 0x62 ∷ 0x74 ∷ 0xff ∷ []

abbrev pub psbt_max_size : ℕ
psbt_max_size = 4 * 1024 * 1024

pub all_zero : Bytes → Bool
all_zero [] = true
all_zero (b ∷ bs) = b == 0 && all_zero bs

unfoldable pub the_unsigned_tx : Option PsbtTransaction → Result PsbtTransaction
the_unsigned_tx none = err (psbt missing_unsigned_tx)
the_unsigned_tx (some tx) = ok tx

-- What is read behind the magic. `data[r.pos:]` cuts `data`, and `r` counts from behind the magic.
unfoldable pub parse_maps : Bytes → Reader → Result Psbt
unfolding the_unsigned_tx
parse_maps data' r0 = do
  (pairs, r1) ← read_map r0
  g ← global_pairs_loop (record { version = 0; unsigned_tx = none; unknown_global = [] }) pairs
  tx ← the_unsigned_tx g.unsigned_tx
  (inputs, r2) ← read_maps parse_input_map (length tx.vin) r1
  (outputs, r3) ← read_maps parse_output_map (length tx.vout) r2
  guard (at_end r3) (psbt (if all_zero (drop r3.pos data') then truncated else map_count_mismatch))
  ok (record {
    version = g.version;
    unsigned_tx = tx;
    inputs = inputs;
    outputs = outputs;
    unknown_global = g.unknown_global;
  })

unfoldable pub parse_psbt : Bytes → Result Psbt
parse_psbt data' =
    if ltb psbt_max_size (length data')
    then err (psbt too_large)
    else if ltb (length data') 5 || not (bytes_eq (take 5 data') magic)
    then err (psbt invalid_magic)
    else parse_maps data' (reader (drop 5 data'))
