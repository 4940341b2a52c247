-- ===== src/Psbt/Creator.antt =====
-- psbt.py, the Creator: `create_psbt`.
pub mod Descriptor
pub mod Created
use yubtc_python.Prelude.{
  ℕ, ◌+◌, ◌-◌, List, [], ◌∷◌, length, take, map, ◌==◌, ◌&&◌, ◌||◌, not, if◌then◌else◌, Bool, true,
  false, Option, none, some, Result, ok, err, ◌>>=◌, ◌>>◌, guard, except_value, psbt,
  invalid_unsigned_tx, map_count_mismatch, incomplete_input, utxo_mismatch,
  unsupported_input_script,
}
use yubtc_python.Prelude.Bytes.{Bytes, bytes_eq, slice}
use yubtc_python.Hash.{hash160}
use yubtc_python.Script.Multisig.{extract_multisig_quorum}
use yubtc_python.Script.Tapscript.{
  tapscript_leaf_version, extract_multisig_tapscript, tapscript_leaf_hash,
}
use yubtc_python.Transaction.Taproot.{
  Curve, ms_tapscript_internal_key, tapscript_output_key, tapscript_control_block,
}
use yubtc_python.Psbt.Tx.{PsbtTxIn, PsbtTxOut, PsbtTransaction, nonempty}
use yubtc_python.Psbt.Model.{PsbtIn, PsbtOut, Psbt, empty_input}
use yubtc_python.Psbt.Utxo.{
  is_p2sh_script, is_p2wsh_script, is_p2tr_script, Form, legacy_form, p2wpkh_form, p2tr_form,
  form_of_script, ends_with, txid,
}

pub record CreateInput : Type 0 where
  pub amount : ℕ
  pub script_pubkey : Bytes
  pub prev_tx : Option PsbtTransaction
  pub redeem_script : Option Bytes
  pub witness_script : Option Bytes
  pub tap_leaf_script : Option Bytes

-- `any(vin.script or vin.witness for vin in unsigned_tx.vin)`
unfoldable pub any_signed : List PsbtTxIn → Bool
any_signed [] = false
any_signed (vin ∷ vins) = (nonempty vin.script || nonempty vin.witness) || any_signed vins

-- An input of a witness form: its `WITNESS_UTXO` and nothing else.
unfoldable pub witness_input : CreateInput → PsbtIn
witness_input create = record empty_input {
  witness_utxo = some (record { amount = create.amount; script = create.script_pubkey });
}

module _ (sha256 ripemd160 : Bytes → Bytes) (curve : Curve) where
  -- The previous transaction, which must be there and must be the one that is spent.
  unfoldable pub checked_prev : ℕ → Option PsbtTransaction → Bytes → Result PsbtTransaction
  checked_prev i none txhash = err (psbt (incomplete_input i))
  checked_prev i (some prev) txhash = do
    id' ← txid sha256 prev
    guard (bytes_eq id' txhash) (psbt utxo_mismatch)
    ok prev

  unfoldable pub create_legacy : ℕ → PsbtTxIn → CreateInput → Result PsbtIn
  unfolding checked_prev
  create_legacy i vin create = do
    prev ← checked_prev i create.prev_tx vin.txhash
    ok (record empty_input { non_witness_utxo = some prev })

  unfoldable pub create_p2sh : ℕ → PsbtTxIn → CreateInput → Bytes → Result PsbtIn
  unfolding checked_prev
  create_p2sh i vin create redeem = do
    _ ← except_value (extract_multisig_quorum redeem) (psbt unsupported_input_script)
    guard (bytes_eq (hash160 sha256 ripemd160 redeem) (slice create.script_pubkey 2 22))
        (psbt utxo_mismatch)
    prev ← checked_prev i create.prev_tx vin.txhash
    ok (record empty_input { non_witness_utxo = some prev; redeem_script = some redeem })

  unfoldable pub create_p2wsh : CreateInput → Bytes → Result PsbtIn
  unfolding witness_input
  create_p2wsh create redeem = do
    _ ← except_value (extract_multisig_quorum redeem) (psbt unsupported_input_script)
    guard (bytes_eq (sha256 redeem) (slice create.script_pubkey 2 34)) (psbt utxo_mismatch)
    ok (record (witness_input create) { witness_script = some redeem })

  -- The leaf of a P2TR input; on any other lock script it is dropped.
  unfoldable pub create_p2tr : CreateInput → Bytes → Result PsbtIn
  unfolding witness_input
  create_p2tr create leaf_value =
      if not (is_p2tr_script create.script_pubkey) then ok (witness_input create) else do
        guard (ends_with leaf_value tapscript_leaf_version) (psbt unsupported_input_script)
        let script = take (length leaf_value - 1) leaf_value
        _ ← except_value (extract_multisig_tapscript script) (psbt unsupported_input_script)
        leaf_hash ← tapscript_leaf_hash sha256 script
        output_key ← tapscript_output_key sha256 curve ms_tapscript_internal_key leaf_hash
        guard (bytes_eq output_key (slice create.script_pubkey 2 34)) (psbt utxo_mismatch)
        control_block ← tapscript_control_block sha256 curve ms_tapscript_internal_key leaf_hash
        ok (record (witness_input create) {
          tap_leaf_scripts =
              record { control_block = control_block; script_with_version = leaf_value } ∷ [];
          tap_internal_key = some ms_tapscript_internal_key;
        })

  unfoldable pub create_tap : CreateInput → Option Bytes → Result PsbtIn
  unfolding create_p2tr witness_input
  create_tap create none = ok (witness_input create)
  create_tap create (some leaf_value) = create_p2tr create leaf_value

  unfoldable pub create_witness : CreateInput → Option Bytes → Result PsbtIn
  unfolding create_p2wsh create_tap
  create_witness create none = create_tap create create.tap_leaf_script
  create_witness create (some redeem) =
      if is_p2wsh_script create.script_pubkey
      then create_p2wsh create redeem
      else create_tap create create.tap_leaf_script

  unfoldable pub create_script : ℕ → PsbtTxIn → CreateInput → Option Bytes → Result PsbtIn
  unfolding create_p2sh create_witness
  create_script i vin create none = create_witness create create.witness_script
  create_script i vin create (some redeem) =
      if is_p2sh_script create.script_pubkey
      then create_p2sh i vin create redeem
      else create_witness create create.witness_script

  -- One round of the loop.
  unfoldable pub create_form : ℕ → PsbtTxIn → CreateInput → Option Form → Result PsbtIn
  unfolding create_legacy create_script
  create_form i vin create (some (legacy_form h)) = create_legacy i vin create
  create_form i vin create (some (p2wpkh_form h)) = create_script i vin create create.redeem_script
  create_form i vin create (some (p2tr_form k)) = create_script i vin create create.redeem_script
  create_form i vin create none = create_script i vin create create.redeem_script

  unfoldable pub create_inputs : ℕ → List PsbtTxIn → List CreateInput → Result (List PsbtIn)
  unfolding create_form
  create_inputs i [] creates = ok []
  create_inputs i (vin ∷ vins) [] = ok []
  create_inputs i (vin ∷ vins) (create ∷ creates) = do
    input ← create_form i vin create (form_of_script create.script_pubkey)
    inputs ← create_inputs (i + 1) vins creates
    ok (input ∷ inputs)

  unfoldable pub create_psbt : PsbtTransaction → List CreateInput → Result Psbt
  unfolding any_signed create_inputs
  create_psbt unsigned_tx creates = do
    guard (nonempty unsigned_tx.vout) (psbt invalid_unsigned_tx)
    guard (length unsigned_tx.vin == length creates) (psbt map_count_mismatch)
    guard (not (any_signed unsigned_tx.vin)) (psbt invalid_unsigned_tx)
    inputs ← create_inputs 0 unsigned_tx.vin creates
    ok (record {
      version = 0;
      unsigned_tx = unsigned_tx;
      inputs = inputs;
      outputs = map (λ (o : PsbtTxOut). record { unknown = [] }) unsigned_tx.vout;
      unknown_global = [];
    })
