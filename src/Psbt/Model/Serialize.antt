-- ===== src/Psbt/Model/Serialize.antt =====
-- psbt.py: `_input_pairs` and `serialize_psbt`.
use yubtc_python.Prelude.{
  ℕ, List, [], ◌∷◌, ◌++◌, map, length, Option, none, some, Result, ok, ◌>>=◌,
}
use yubtc_python.Prelude.Bytes.{Bytes, pack}
use yubtc_python.Transaction.CompactSize.{write_compact_size}
use yubtc_python.Psbt.KeyValue.{Pair, write_map}
use yubtc_python.Psbt.Tx.{PsbtTxOut, PsbtTransaction, serialize_wire, serialize_stripped}
use yubtc_python.Psbt.Model.{
  UnknownKv, TapScriptSig, TapLeafScript, PsbtIn, PsbtOut, Psbt, t_unsigned_tx, t_in_witness_utxo,
  t_partial_sig, t_sighash_type, t_redeem_script, t_witness_script, t_final_scriptsig,
  t_final_scriptwitness, t_in_tap_script_sig, t_in_tap_leaf_script, t_in_tap_internal_key,
  t_in_tap_merkle_root,
}
use yubtc_python.Psbt.Model.Parse.{magic}

tx_pair : Option PsbtTransaction → Result (List Pair)
tx_pair none = ok []
tx_pair (some tx) = do value ← serialize_wire tx; ok ((t_unsigned_tx ∷ [], value) ∷ [])

utxo_pair : Option PsbtTxOut → Result (List Pair)
utxo_pair none = ok []
utxo_pair (some utxo) = do
  amount ← pack 8 utxo.amount
  value ← write_compact_size amount (length utxo.script)
  ok ((t_in_witness_utxo ∷ [], value ++ utxo.script) ∷ [])

sighash_pair : Option ℕ → Result (List Pair)
sighash_pair none = ok []
sighash_pair (some n) = do value ← pack 4 n; ok ((t_sighash_type ∷ [], value) ∷ [])

-- A field that is a byte string.
pub bytes_pair : ℕ → Option Bytes → List Pair
bytes_pair ty none = []
bytes_pair ty (some value) = (ty ∷ [], value) ∷ []

-- An empty final field counts as unset.
final_pair : ℕ → Option Bytes → List Pair
final_pair ty none = []
final_pair ty (some []) = []
final_pair ty (some (b ∷ bs)) = (ty ∷ [], b ∷ bs) ∷ []

partial_sig_pair : Pair → Pair
partial_sig_pair (pubkey, sig) = (t_partial_sig ∷ pubkey, sig)

tap_sig_pair : TapScriptSig → Pair
tap_sig_pair s = (t_in_tap_script_sig ∷ (s.x_only ++ s.leaf_hash), s.sig)

tap_leaf_pair : TapLeafScript → Pair
tap_leaf_pair l = (t_in_tap_leaf_script ∷ l.control_block, l.script_with_version)

pub kv_pair : UnknownKv → Pair
kv_pair u = (u.key, u.value)

pub input_pairs : PsbtIn → Result (List Pair)
unfolding tx_pair utxo_pair sighash_pair bytes_pair final_pair partial_sig_pair tap_sig_pair
    tap_leaf_pair kv_pair
input_pairs i = do
  tx ← tx_pair i.non_witness_utxo
  utxo ← utxo_pair i.witness_utxo
  sighash ← sighash_pair i.sighash_type
  ok (
      tx
      ++ (utxo
          ++ (map partial_sig_pair i.partial_sigs
              ++ (sighash
                  ++ (bytes_pair t_redeem_script i.redeem_script
                      ++ (bytes_pair t_witness_script i.witness_script
                          ++ (map tap_sig_pair i.tap_script_sigs
                              ++ (map tap_leaf_pair i.tap_leaf_scripts
                                  ++ (bytes_pair t_in_tap_internal_key i.tap_internal_key
                                      ++ (bytes_pair t_in_tap_merkle_root i.tap_merkle_root
                                          ++ (final_pair t_final_scriptsig i.final_scriptsig
                                              ++ (final_pair t_final_scriptwitness
                                                    i.final_scriptwitness
                                                  ++ map kv_pair i.unknown))))))))))))

write_inputs : Bytes → List PsbtIn → Result Bytes
write_inputs out [] = ok out
write_inputs out (i ∷ is) = do
  pairs ← input_pairs i
  out' ← write_map out pairs
  write_inputs out' is

write_outputs : Bytes → List PsbtOut → Result Bytes
unfolding kv_pair
write_outputs out [] = ok out
write_outputs out (o ∷ os) = do out' ← write_map out (map kv_pair o.unknown); write_outputs out' os

pub serialize_psbt : Psbt → Result Bytes
unfolding write_inputs write_outputs
serialize_psbt psbt = do
  tx ← serialize_stripped psbt.unsigned_tx
  out1 ← write_map magic ((t_unsigned_tx ∷ [], tx) ∷ map kv_pair psbt.unknown_global)
  out2 ← write_inputs out1 psbt.inputs
  write_outputs out2 psbt.outputs
