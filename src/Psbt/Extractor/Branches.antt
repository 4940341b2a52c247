-- ===== src/Psbt/Extractor/Branches.antt =====
-- The branches of the Extractor on what the branches of the Finalizer leave.
use yubtc_python.Prelude.{
  ℕ, ◌≡◌, ◌∙◌, refl, ap, List, [], ◌∷◌, drop, ◌&&◌, true, false, Bool-cases, inl, inr, none, some,
  ok, arith,
}
use yubtc_python.Prelude.Bytes.{Bytes}
use yubtc_python.Script.{extract_p2wpkh_hash, extract_p2tr_output_key, starts_with}
use yubtc_python.Transaction.Taproot.{Curve}
use yubtc_python.Psbt.Tx.{PsbtTxIn, nonempty, encode_witness_stack}
use yubtc_python.Psbt.Tx.RoundTrip.{decode-of-encode}
use yubtc_python.Psbt.Model.{PsbtIn}
use yubtc_python.Psbt.Model.Parse.{except_psbt}
use yubtc_python.Psbt.Utxo.{
  is_p2sh_script, is_p2wsh_script, is_p2tr_script, Form, legacy_form, p2wpkh_form, p2tr_form,
  script2pkh, or_form, form_of_script,
}
use yubtc_python.Psbt.Finalizer.{
  cleared, with_scriptsig, with_witness, with_tap_witness, finalize_by_script,
}
use yubtc_python.Psbt.Finalizer.Outcome.{
  ByScript, ByStack, ByForm, p2sh-ByScript, p2wsh-ByStack, p2tr-ByTapStack, own-ByForm,
}
use yubtc_python.Psbt.Extractor.{
  final_field, with_script, with_stack, extract_script, extract_witness, extract_multisig,
  extract_form,
}

-- The shapes of lock scripts exclude each other.
p2sh-no_form : (script : Bytes) → is_p2sh_script script ≡ true → form_of_script script ≡ none
unfolding is_p2sh_script form_of_script or_form script2pkh extract_p2wpkh_hash
    extract_p2tr_output_key
p2sh-no_form script h = ground arith

p2wsh-no_form : (script : Bytes) → is_p2wsh_script script ≡ true → form_of_script script ≡ none
unfolding is_p2wsh_script form_of_script or_form script2pkh extract_p2wpkh_hash
    extract_p2tr_output_key starts_with
p2wsh-no_form [] h = cc
p2wsh-no_form (a ∷ []) h = cc
p2wsh-no_form (a ∷ b ∷ rest) h = ground arith

p2tr-form :
    (script : Bytes)
    → is_p2tr_script script ≡ true
    → form_of_script script ≡ some (p2tr_form (drop 2 script))
unfolding is_p2tr_script form_of_script or_form script2pkh extract_p2wpkh_hash
    extract_p2tr_output_key starts_with
p2tr-form [] h = cc
p2tr-form (a ∷ []) h = cc
p2tr-form (a ∷ b ∷ rest) h = ground arith

-- An input that has just been finalized, in either way.
script-progress :
    (vin : PsbtTxIn) (input input' : PsbtIn)
    → ByScript input input'
    → (tx_in : PsbtTxIn) × (extract_script (some vin) input' ≡ ok tx_in)
unfolding with_scriptsig cleared extract_script final_field with_script
script-progress vin input input' (script, same) = (record vin { script = script }, rw same)

stack-progress :
    (i : ℕ) (vin : PsbtTxIn) (input' : PsbtIn) (items : List Bytes) (stack : Bytes)
    → encode_witness_stack items ≡ ok stack
    → input'.final_scriptwitness ≡ some stack
    → (tx_in : PsbtTxIn) × (extract_witness i (some vin) input' ≡ ok tx_in)
unfolding extract_witness final_field with_stack except_psbt
stack-progress i vin input' items stack encoded final =
    (record vin { script = []; witness = items }, rw (final, decode-of-encode items stack encoded))

module _ (i : ℕ) (vin : PsbtTxIn) where
  abbrev pub IsExtractable : PsbtIn → Bytes → Type 0
  IsExtractable input' script =
      (tx_in : PsbtTxIn) × (extract_form i (some vin) input' script (form_of_script script)
        ≡ ok tx_in)

  p2sh-branch :
      (input' : PsbtIn) (script : Bytes)
      → input'.final_scriptwitness ≡ none
      → is_p2sh_script script ≡ true
      → extract_form i (some vin) input' script (form_of_script script)
        ≡ extract_script (some vin) input'
  unfolding extract_form extract_multisig
  p2sh-branch input' script no_witness sh = rw (p2sh-no_form script sh, sh, no_witness)

  p2wsh-branch :
      (input' : PsbtIn) (script : Bytes)
      → input'.final_scriptsig ≡ none
      → is_p2sh_script script ≡ false
      → is_p2wsh_script script ≡ true
      → extract_form i (some vin) input' script (form_of_script script)
        ≡ extract_witness i (some vin) input'
  unfolding extract_form extract_multisig
  p2wsh-branch input' script no_script sh wsh = rw (p2wsh-no_form script wsh, sh, wsh, no_script)

  form-branch :
      (input' : PsbtIn) (script : Bytes) (form : Form)
      → input'.final_scriptsig ≡ none
      → form_of_script script ≡ some form
      → ¬ ((h : Bytes) × (form ≡ legacy_form h))
      → extract_form i (some vin) input' script (form_of_script script)
        ≡ extract_witness i (some vin) input'
  unfolding extract_form
  form-branch input' script (legacy_form h) no_script f other = absurd (other (h, refl))
  form-branch input' script (p2wpkh_form h) no_script f other = rw (f, no_script)
  form-branch input' script (p2tr_form h) no_script f other = rw (f, no_script)

  p2sh-progress :
      (input input' : PsbtIn) (script : Bytes)
      → input.final_scriptwitness ≡ none
      → is_p2sh_script script ≡ true
      → ByScript input input'
      → IsExtractable input' script
  p2sh-progress input input' script open' sh by =
      let (tx_in, done) = script-progress vin input input' by in
      let no_witness : input'.final_scriptwitness ≡ none =
        ap (λ (x : PsbtIn). x.final_scriptwitness) by.1 ∙ unfold with_scriptsig cleared in open' in
      (tx_in, p2sh-branch input' script no_witness sh ∙ done)

  p2wsh-progress :
      (input input' : PsbtIn) (script : Bytes)
      → input.final_scriptsig ≡ none
      → is_p2sh_script script ≡ false
      → is_p2wsh_script script ≡ true
      → ByStack input input'
      → IsExtractable input' script
  p2wsh-progress input input' script open' sh wsh (items, stack, encoded, same) =
      let no_script : input'.final_scriptsig ≡ none =
        ap (λ (x : PsbtIn). x.final_scriptsig) same ∙ unfold with_witness cleared in open' in
      let final : input'.final_scriptwitness ≡ some stack =
        ap (λ (x : PsbtIn). x.final_scriptwitness) same ∙ unfold with_witness cleared in refl in
      let (tx_in, done) = stack-progress i vin input' items stack encoded final in
      (tx_in, p2wsh-branch input' script no_script sh wsh ∙ done)

  -- A form that is spent by a witness.
  form-progress :
      (input' : PsbtIn) (script : Bytes) (form : Form) (items : List Bytes) (stack : Bytes)
      → input'.final_scriptsig ≡ none
      → input'.final_scriptwitness ≡ some stack
      → encode_witness_stack items ≡ ok stack
      → form_of_script script ≡ some form
      → ¬ ((h : Bytes) × (form ≡ legacy_form h))
      → IsExtractable input' script
  form-progress input' script form items stack no_script final encoded f other =
      let (tx_in, done) = stack-progress i vin input' items stack encoded final in
      (tx_in, form-branch input' script form no_script f other ∙ done)

  own-progress :
      (input input' : PsbtIn) (script : Bytes) (form : Form)
      → input.final_scriptsig ≡ none
      → form_of_script script ≡ some form
      → ByForm form input input'
      → IsExtractable input' script
  unfolding extract_form
  own-progress input input' script (legacy_form h) open' f by =
      let (tx_in, done) = script-progress vin input input' by in
      (tx_in, ap (extract_form i (some vin) input' script) f ∙ done)
  own-progress input input' script (p2wpkh_form h) open' f (items, stack, encoded, same) =
      form-progress input' script (p2wpkh_form h) items stack
        (ap (λ (x : PsbtIn). x.final_scriptsig) same ∙ unfold with_witness cleared in open')
        (ap (λ (x : PsbtIn). x.final_scriptwitness) same ∙ unfold with_witness cleared in refl)
        encoded f (λ h. cc)
  own-progress input input' script (p2tr_form key) open' f (items, stack, encoded, same) =
      form-progress input' script (p2tr_form key) items stack
        (ap (λ (x : PsbtIn). x.final_scriptsig) same ∙ unfold with_witness cleared in open')
        (ap (λ (x : PsbtIn). x.final_scriptwitness) same ∙ unfold with_witness cleared in refl)
        encoded f (λ h. cc)

module _ (sha256 ripemd160 : Bytes → Bytes) (curve : Curve) (i : ℕ) (vin : PsbtTxIn) where
  pub by_script-progress :
      (input input' : PsbtIn) (script : Bytes)
      → input.final_scriptsig ≡ none
      → input.final_scriptwitness ≡ none
      → finalize_by_script sha256 ripemd160 curve i input script ≡ ok input'
      → IsExtractable i vin input' script
  unfolding finalize_by_script
  by_script-progress input input' script no_script no_witness e =
      elim (Bool-cases (is_p2sh_script script)) [
        | inl sh ↦
            p2sh-progress i vin input input' script no_witness sh
              (p2sh-ByScript sha256 ripemd160 curve i input input' script (rw sh at e))
        | inr sh ↦ elim (Bool-cases (is_p2wsh_script script)) [
          | inl wsh ↦
              p2wsh-progress i vin input input' script no_script sh wsh
                (p2wsh-ByStack sha256 ripemd160 curve i input input' script (rw (sh, wsh) at e))
          | inr wsh ↦ elim (Bool-cases (is_p2tr_script script && nonempty input.tap_leaf_scripts)) [
            | inl tr ↦
                let (items, stack, encoded, same) =
                  p2tr-ByTapStack sha256 ripemd160 curve i input input' script
                    (rw (sh, wsh, tr) at e) in
                form-progress i vin input' script (p2tr_form (drop 2 script)) items stack
                  (ap (λ (x : PsbtIn). x.final_scriptsig) same
                    ∙ unfold with_tap_witness with_witness cleared in no_script)
                  (ap (λ (x : PsbtIn). x.final_scriptwitness) same
                    ∙ unfold with_tap_witness with_witness cleared in refl)
                  encoded (p2tr-form script (ground (arith, tr))) (λ h. cc)
            | inr tr ↦
                let (form, is_form, by) =
                  own-ByForm sha256 ripemd160 curve i input input' (form_of_script script)
                    (rw (sh, wsh, tr) at e) in
                own-progress i vin input input' script form no_script is_form by
          ]
        ]
      ]
