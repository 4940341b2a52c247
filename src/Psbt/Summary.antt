-- ===== src/Psbt/Summary.antt =====
-- psbt.py: `psbt_summary`.
pub mod Fee
use yubtc_python.Prelude.{
  ℕ, zero, suc, ◌+◌, ◌-◌, ◌/◌, ◌%◌, List, [], ◌∷◌, length, map, ltb, leb, ◌&&◌, ◌||◌, if◌then◌else◌,
  Bool, true, false, Option, none, some, Result, ok, ◌>>=◌,
}
use yubtc_python.Prelude.Bytes.{Bytes}
use yubtc_python.Psbt.Tx.{PsbtTxOut}
use yubtc_python.Psbt.Model.{PsbtIn, Psbt}
use yubtc_python.Psbt.Utxo.{input_utxo_data, txid}
use yubtc_python.Psbt.Extractor.{is_some}

pub record PsbtInputSummary : Type 0 where
  pub has_utxo : Bool
  pub n_partial_sigs : ℕ
  pub sighash_type : Option ℕ
  pub finalized : Bool

pub record PsbtOutputSummary : Type 0 where
  pub amount_sat : ℕ
  pub script_pubkey_hex : Bytes

pub record PsbtSummary : Type 0 where
  pub txid_hex : Bytes
  pub version : ℕ
  pub inputs : List PsbtInputSummary
  pub outputs : List PsbtOutputSummary
  pub fee_sat : Option ℕ

-- `bytes.hex`, as the codes of the characters.
unfoldable pub hex_digit : ℕ → ℕ
hex_digit n = if ltb n 10 then 0x30 + n else 0x57 + n

unfoldable pub hex : Bytes → Bytes
unfolding hex_digit
hex [] = []
hex (b ∷ bs) = hex_digit (b / 16) ∷ hex_digit (b % 16) ∷ hex bs

-- `credit_sat` and `all_inputs_known`.
unfoldable pub add_input : Option (Bytes × ℕ) → ℕ × Bool → ℕ × Bool
add_input none (credit, known) = (credit, false)
add_input (some (script, amount)) (credit, known) = (amount + credit, known)

-- The loop from input `i` on, with `count` inputs to go.
unfoldable pub credit_from : Psbt → ℕ → ℕ → ℕ × Bool
unfolding add_input
credit_from p i zero = (0, true)
credit_from p i (suc count) = add_input (input_utxo_data p i) (credit_from p (i + 1) count)

unfoldable pub spend_sat : List PsbtTxOut → ℕ
spend_sat [] = 0
spend_sat (out ∷ outs) = out.amount + spend_sat outs

-- `0 <= fee <= 0xffffffffffffffff`, where the fee is not known to be positive.
unfoldable pub fee_of : ℕ × Bool → ℕ → Option ℕ
fee_of (credit, false) spend = none
fee_of (credit, true) spend =
    if leb spend credit && leb (credit - spend) 0xffff_ffff_ffff_ffff
    then some (credit - spend)
    else none

unfoldable pub input_summary : PsbtIn → PsbtInputSummary
input_summary input = record {
  has_utxo = is_some input.witness_utxo || is_some input.non_witness_utxo;
  n_partial_sigs = length input.partial_sigs;
  sighash_type = input.sighash_type;
  finalized = is_some input.final_scriptsig || is_some input.final_scriptwitness;
}

unfoldable pub output_summary : PsbtTxOut → PsbtOutputSummary
unfolding hex
output_summary out = record { amount_sat = out.amount; script_pubkey_hex = hex out.script }

unfoldable pub psbt_summary : (Bytes → Bytes) → Psbt → Result PsbtSummary
unfolding hex credit_from spend_sat fee_of input_summary output_summary
psbt_summary sha256 p = do
  id' ← txid sha256 p.unsigned_tx
  ok (record {
    txid_hex = hex id';
    version = p.version;
    inputs = map input_summary p.inputs;
    outputs = map output_summary p.unsigned_tx.vout;
    fee_sat = fee_of (credit_from p 0 (length p.inputs)) (spend_sat p.unsigned_tx.vout);
  })
