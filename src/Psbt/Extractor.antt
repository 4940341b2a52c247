-- ===== src/Psbt/Extractor.antt =====
-- psbt.py, the Extractor: `extract_transaction`.
pub mod Skeleton
pub mod Branches
pub mod Progress
use yubtc_python.Prelude.{
  ℕ, zero, suc, ◌+◌, ◌-◌, List, [], ◌∷◌, length, get_elem?, map, leb, ◌&&◌, ◌||◌, not,
  if◌then◌else◌, Bool, true, false, Option, none, some, Result, ok, err, Error, ◌>>=◌, ◌>>◌, guard,
  psbt, incomplete_input, not_finalized,
}
use yubtc_python.Prelude.Bytes.{Bytes, index}
use yubtc_python.Psbt.Tx.{PsbtTxIn, PsbtTxOut, PsbtTransaction, nonempty, decode_witness_stack}
use yubtc_python.Psbt.Model.{PsbtIn, Psbt}
use yubtc_python.Psbt.Model.Parse.{except_psbt}
use yubtc_python.Psbt.Utxo.{
  input_data, input_utxo_data, is_p2sh_script, is_p2wsh_script, Form, legacy_form, p2wpkh_form,
  p2tr_form, form_of_script, txid,
}

-- `x is not None`
abbrev pub is_some {ℓ} : {A : Type ℓ} → Option A → Bool
is_some none = false
is_some (some a) = true

-- `if x is None: raise NotFinalized()`
unfoldable pub final_field : Option Bytes → Result Bytes
final_field none = err (psbt not_finalized)
final_field (some field) = ok field

unfoldable pub with_script : Option PsbtTxIn → Bytes → Result PsbtTxIn
with_script none script = err Error.index_error
with_script (some vin) script = ok (record vin { script = script })

unfoldable pub with_stack : Option PsbtTxIn → List Bytes → Result PsbtTxIn
with_stack none stack = err Error.index_error
with_stack (some vin) stack = ok (record vin { script = []; witness = stack })

-- An input that is spent by a `scriptSig`, and one that is spent by a witness stack.
unfoldable pub extract_script : Option PsbtTxIn → PsbtIn → Result PsbtTxIn
unfolding final_field with_script
extract_script vin input = do script ← final_field input.final_scriptsig; with_script vin script

unfoldable pub extract_witness : ℕ → Option PsbtTxIn → PsbtIn → Result PsbtTxIn
unfolding final_field with_stack
extract_witness i vin input = do
  stack_bytes ← final_field input.final_scriptwitness
  stack ← except_psbt (decode_witness_stack stack_bytes) (incomplete_input i)
  with_stack vin stack

-- No form that signs with one key: P2SH and P2WSH remain.
unfoldable pub extract_multisig : ℕ → Option PsbtTxIn → PsbtIn → Bytes → Result PsbtTxIn
unfolding extract_script extract_witness
extract_multisig i vin input script_pubkey =
    if is_p2sh_script script_pubkey
    then (do
      guard (not (is_some input.final_scriptwitness)) (psbt (incomplete_input i))
      extract_script vin input)
    else if is_p2wsh_script script_pubkey
    then (do
      guard (not (is_some input.final_scriptsig)) (psbt (incomplete_input i))
      extract_witness i vin input)
    else err (psbt not_finalized)

unfoldable pub extract_form : ℕ → Option PsbtTxIn → PsbtIn → Bytes → Option Form → Result PsbtTxIn
unfolding extract_multisig
extract_form i vin input script_pubkey none = extract_multisig i vin input script_pubkey
extract_form i vin input script_pubkey (some (legacy_form h)) = extract_script vin input
extract_form i vin input script_pubkey (some (p2wpkh_form h)) = do
  guard (not (is_some input.final_scriptsig && nonempty input.tap_leaf_scripts))
      (psbt (incomplete_input i))
  extract_witness i vin input
extract_form i vin input script_pubkey (some (p2tr_form k)) = do
  guard (not (is_some input.final_scriptsig && nonempty input.tap_leaf_scripts))
      (psbt (incomplete_input i))
  extract_witness i vin input

unfoldable pub extract_known : ℕ → Option PsbtTxIn → PsbtIn → Option (Bytes × ℕ) → Result PsbtTxIn
unfolding extract_form
extract_known i vin input none = err (psbt not_finalized)
extract_known i vin input (some (script_pubkey, amount)) =
    extract_form i vin input script_pubkey (form_of_script script_pubkey)

-- One round of the loop: input `i` and the entry of `vin` at its index.
unfoldable pub extract_input : ℕ → Option PsbtTxIn → PsbtIn → Result PsbtTxIn
unfolding extract_known
extract_input i vin input = extract_known i vin input (input_data (some input) vin)

-- The loop over the inputs from input `i` on.
unfoldable pub extract_inputs : PsbtTransaction → ℕ → List PsbtIn → Result (List PsbtTxIn)
unfolding extract_input
extract_inputs tx i [] = ok []
extract_inputs tx i (input ∷ inputs) = do
  vin ← extract_input i (get_elem? tx.vin i) input
  rest ← extract_inputs tx (i + 1) inputs
  ok (vin ∷ rest)

unfoldable pub extract_transaction : Psbt → Result PsbtTransaction
unfolding extract_inputs
extract_transaction p = do
  vin ← extract_inputs p.unsigned_tx 0 p.inputs
  ok (record p.unsigned_tx { vin = vin })
