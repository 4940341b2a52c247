-- ===== src/Psbt/Model.antt =====
-- psbt.py: the data types of a PSBT, `parse_psbt` with the interpretation of its maps, and
-- `serialize_psbt`.
pub mod Parse
pub mod Serialize
use yubtc_python.Prelude.{ℕ, List, [], Option, none}
use yubtc_python.Prelude.Bytes.{Bytes}
use yubtc_python.Psbt.KeyValue.{Pair}
use yubtc_python.Psbt.Tx.{PsbtTxOut, PsbtTransaction}

pub record UnknownKv : Type 0 where
  pub key : Bytes
  pub value : Bytes

pub record TapScriptSig : Type 0 where
  pub x_only : Bytes
  pub leaf_hash : Bytes
  pub sig : Bytes

pub record TapLeafScript : Type 0 where
  pub control_block : Bytes
  pub script_with_version : Bytes

pub record PsbtIn : Type 0 where
  pub non_witness_utxo : Option PsbtTransaction
  pub witness_utxo : Option PsbtTxOut
  pub partial_sigs : List Pair
  pub sighash_type : Option ℕ
  pub redeem_script : Option Bytes
  pub witness_script : Option Bytes
  pub final_scriptsig : Option Bytes
  pub final_scriptwitness : Option Bytes
  pub tap_script_sigs : List TapScriptSig
  pub tap_leaf_scripts : List TapLeafScript
  pub tap_internal_key : Option Bytes
  pub tap_merkle_root : Option Bytes
  pub unknown : List UnknownKv

abbrev pub empty_input : PsbtIn
empty_input = record {
  non_witness_utxo = none;
  witness_utxo = none;
  partial_sigs = [];
  sighash_type = none;
  redeem_script = none;
  witness_script = none;
  final_scriptsig = none;
  final_scriptwitness = none;
  tap_script_sigs = [];
  tap_leaf_scripts = [];
  tap_internal_key = none;
  tap_merkle_root = none;
  unknown = [];
}

pub record PsbtOut : Type 0 where
  pub unknown : List UnknownKv

pub record Psbt : Type 0 where
  pub version : ℕ
  pub unsigned_tx : PsbtTransaction
  pub inputs : List PsbtIn
  pub outputs : List PsbtOut
  pub unknown_global : List UnknownKv

-- The BIP-174 field types.
abbrev pub t_unsigned_tx : ℕ
t_unsigned_tx = 0x00

abbrev pub t_global_xpub : ℕ
t_global_xpub = 0x01

abbrev pub t_in_witness_utxo : ℕ
t_in_witness_utxo = 0x01

abbrev pub t_partial_sig : ℕ
t_partial_sig = 0x02

abbrev pub t_sighash_type : ℕ
t_sighash_type = 0x03

abbrev pub t_redeem_script : ℕ
t_redeem_script = 0x04

abbrev pub t_witness_script : ℕ
t_witness_script = 0x05

abbrev pub t_in_bip32_derivation : ℕ
t_in_bip32_derivation = 0x06

abbrev pub t_final_scriptsig : ℕ
t_final_scriptsig = 0x07

abbrev pub t_final_scriptwitness : ℕ
t_final_scriptwitness = 0x08

abbrev pub t_in_tap_script_sig : ℕ
t_in_tap_script_sig = 0x14

abbrev pub t_in_tap_leaf_script : ℕ
t_in_tap_leaf_script = 0x15

abbrev pub t_in_tap_internal_key : ℕ
t_in_tap_internal_key = 0x17

abbrev pub t_in_tap_merkle_root : ℕ
t_in_tap_merkle_root = 0x18

abbrev pub t_version : ℕ
t_version = 0xfb
