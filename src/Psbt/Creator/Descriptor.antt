-- ===== src/Psbt/Creator/Descriptor.antt =====
-- The input of a PSBT that a descriptor asks for, by the form of its lock script.
use yubtc_python.Prelude.{
  ℕ, Bool, ◌&&◌, ◌-◌, ◌≡◌, refl, List, [], ◌∷◌, inl, inr, length, take, true, false, Bool-cases,
  Option, none, some, ok,
}
use yubtc_python.Prelude.Bytes.{Bytes, slice}
use yubtc_python.Hash.{hash160}
use yubtc_python.Script.Multisig.{extract_multisig_quorum}
use yubtc_python.Script.Tapscript.{
  tapscript_leaf_version, extract_multisig_tapscript, tapscript_leaf_hash,
}
use yubtc_python.Transaction.Taproot.{
  Curve, ms_tapscript_internal_key, tapscript_output_key, tapscript_control_block,
}
use yubtc_python.Psbt.Tx.{PsbtTxIn, PsbtTransaction}
use yubtc_python.Psbt.Model.{PsbtIn, empty_input}
use yubtc_python.Psbt.Utxo.{
  is_p2sh_script, is_p2wsh_script, is_p2tr_script, Form, legacy_form, p2wpkh_form, p2tr_form,
  form_of_script, ends_with, txid,
}
use yubtc_python.Psbt.Extractor.{is_some}
use yubtc_python.Psbt.Creator.{CreateInput}

-- An input whose lock script is of the legacy form.
abbrev pub is_legacy : Option Form → Bool
is_legacy (some (legacy_form h)) = true
is_legacy (some (p2wpkh_form h)) = false
is_legacy (some (p2tr_form k)) = false
is_legacy none = false

-- A script is given for a lock script of the form that takes it.
abbrev pub takes : (Bytes → Bool) → CreateInput → Option Bytes → Bool
takes is_form create given = is_form create.script_pubkey && is_some given

pub takes-none :
    (is_form : Bytes → Bool) (create : CreateInput) (given : Option Bytes)
    → given ≡ none
    → takes is_form create given ≡ false
takes-none is_form create none e = elim (Bool-cases (is_form create.script_pubkey)) [
  | inl t ↦ rw t refl
  | inr f ↦ rw f refl
]
takes-none is_form create (some script) e = cc

pub takes-other :
    (is_form : Bytes → Bool) (create : CreateInput) (given : Option Bytes)
    → is_form create.script_pubkey ≡ false
    → takes is_form create given ≡ false
takes-other is_form create given f = rw f refl

module _ (sha256 ripemd160 : Bytes → Bytes) (curve : Curve) where
  -- The previous transaction of a descriptor, with the id that the input spends.
  abbrev pub IsPrev : PsbtTxIn → CreateInput → PsbtTransaction → Type 0
  IsPrev vin create prev = (create.prev_tx ≡ some prev) × (txid sha256 prev ≡ ok vin.txhash)

  -- A canonical redeem script.
  abbrev pub IsCanonical : Bytes → Type 0
  IsCanonical redeem = (quorum : ℕ × List Bytes) × (extract_multisig_quorum redeem ≡ ok quorum)

  -- A leaf value: a canonical script behind which the leaf version stands; the lock script commits to the
  -- leaf, and `control_block` shows it.
  abbrev pub IsLeafOf : Bytes → Bytes → Bytes → Type 0
  IsLeafOf script_pubkey leaf_value control_block =
      (ends_with leaf_value tapscript_leaf_version ≡ true)
      × ((quorum : ℕ × List Bytes) × (extract_multisig_tapscript
              (take (length leaf_value - 1) leaf_value)
            ≡ ok quorum))
      × (leaf_hash : Bytes) × (tapscript_leaf_hash sha256 (take (length leaf_value - 1) leaf_value)
          ≡ ok leaf_hash)
      × (tapscript_output_key sha256 curve ms_tapscript_internal_key leaf_hash
          ≡ ok (slice script_pubkey 2 34))
      × (tapscript_control_block sha256 curve ms_tapscript_internal_key leaf_hash
          ≡ ok control_block)

  -- The input that a descriptor asks for, by the form of its lock script: a legacy input and a P2SH input
  -- with a redeem script carry the previous transaction, every other one its UTXO, and a script or a leaf
  -- where one is given for the form.
  pub data IsCreated (vin : PsbtTxIn) (create : CreateInput) : PsbtIn → Type 0 where
    of_legacy :
        (prev : PsbtTransaction)
        → is_legacy (form_of_script create.script_pubkey) ≡ true
        → IsPrev vin create prev
        → IsCreated vin create (record empty_input { non_witness_utxo = some prev })
    of_p2sh :
        (prev : PsbtTransaction) (redeem : Bytes)
        → is_legacy (form_of_script create.script_pubkey) ≡ false
        → is_p2sh_script create.script_pubkey ≡ true
        → create.redeem_script ≡ some redeem
        → IsCanonical redeem
        → hash160 sha256 ripemd160 redeem ≡ slice create.script_pubkey 2 22
        → IsPrev vin create prev
        → IsCreated vin create
            (record empty_input { non_witness_utxo = some prev; redeem_script = some redeem })
    of_p2wsh :
        (redeem : Bytes)
        → is_legacy (form_of_script create.script_pubkey) ≡ false
        → takes is_p2sh_script create create.redeem_script ≡ false
        → is_p2wsh_script create.script_pubkey ≡ true
        → create.witness_script ≡ some redeem
        → IsCanonical redeem
        → sha256 redeem ≡ slice create.script_pubkey 2 34
        → IsCreated vin create (record empty_input {
          witness_utxo = some (record { amount = create.amount; script = create.script_pubkey });
          witness_script = some redeem;
        })
    of_leaf :
        (leaf_value control_block : Bytes)
        → is_legacy (form_of_script create.script_pubkey) ≡ false
        → takes is_p2sh_script create create.redeem_script ≡ false
        → takes is_p2wsh_script create create.witness_script ≡ false
        → is_p2tr_script create.script_pubkey ≡ true
        → create.tap_leaf_script ≡ some leaf_value
        → IsLeafOf create.script_pubkey leaf_value control_block
        → IsCreated vin create (record empty_input {
          witness_utxo = some (record { amount = create.amount; script = create.script_pubkey });
          tap_leaf_scripts =
              record { control_block = control_block; script_with_version = leaf_value } ∷ [];
          tap_internal_key = some ms_tapscript_internal_key;
        })
    plain :
        is_legacy (form_of_script create.script_pubkey) ≡ false
        → takes is_p2sh_script create create.redeem_script ≡ false
        → takes is_p2wsh_script create create.witness_script ≡ false
        → takes is_p2tr_script create create.tap_leaf_script ≡ false
        → IsCreated vin create (record empty_input {
          witness_utxo = some (record { amount = create.amount; script = create.script_pubkey });
        })
