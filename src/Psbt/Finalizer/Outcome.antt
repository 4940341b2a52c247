-- ===== src/Psbt/Finalizer/Outcome.antt =====
-- What the Finalizer makes of one input.
use yubtc_python.Prelude.{
  ℕ, ◌≡◌, refl, sym, subst, List, [], ◌&&◌, Bool-cases, inl, inr, ◌⊎◌, Option, none, some, Result,
  ok, err, psbt, incomplete_input, ◌>>=◌, >>=-eq-ok, guard, ok-injective,
}
use yubtc_python.Prelude.Bytes.{Bytes}
use yubtc_python.Transaction.Taproot.{Curve}
use yubtc_python.Psbt.Tx.{PsbtTxIn, nonempty, encode_witness_stack}
use yubtc_python.Psbt.Model.{PsbtIn}
use yubtc_python.Psbt.Utxo.{
  input_data, is_p2sh_script, is_p2wsh_script, is_p2tr_script, Form, legacy_form, p2wpkh_form,
  p2tr_form, form_of_script, sighash_all, sighash_default, pinned_sighash, sighash_fits,
  committed_quorum, committed_leaf,
}
use yubtc_python.Psbt.Finalizer.{
  cleared, with_scriptsig, with_witness, with_tap_witness, quorum_sigs, quorum_slots,
  finalize_psbt_input_p2sh_multisig, finalize_psbt_input_p2wsh_multisig,
  finalize_psbt_input_p2tr_scriptpath, found_sig, keypath_found, partial_sig_by_hash,
  p2tr_sig_by_output_key, finalize_form, finalize_own, finalize_by_script, finalize_known,
  finalize_unless, finalize_input,
}

abbrev pub IsFinal : PsbtIn → Type 0
IsFinal input =
    ((script : Bytes) × (input.final_scriptsig ≡ some script))
    ⊎ ((stack : Bytes) × (input.final_scriptwitness ≡ some stack))

-- The fields that the Finalizer may not touch.
abbrev pub IsKept : PsbtIn → PsbtIn → Type 0
IsKept input input' =
    (input'.non_witness_utxo ≡ input.non_witness_utxo)
    × (input'.witness_utxo ≡ input.witness_utxo)
    × (input'.unknown ≡ input.unknown)

-- The fields of the signing round are gone.
abbrev pub IsCleared : PsbtIn → Type 0
IsCleared input =
    (input.partial_sigs ≡ [])
    × (input.sighash_type ≡ none)
    × (input.redeem_script ≡ none)
    × (input.witness_script ≡ none)

-- The three ways in which an input becomes final.
abbrev pub ByScript : PsbtIn → PsbtIn → Type 0
ByScript input input' = (script : Bytes) × (input' ≡ with_scriptsig input script)

abbrev pub ByStack : PsbtIn → PsbtIn → Type 0
ByStack input input' =
    (items : List Bytes) × (stack : Bytes) × (encode_witness_stack items ≡ ok stack)
    × (input' ≡ with_witness input stack)

abbrev pub ByTapStack : PsbtIn → PsbtIn → Type 0
ByTapStack input input' =
    (items : List Bytes) × (stack : Bytes) × (encode_witness_stack items ≡ ok stack)
    × (input' ≡ with_tap_witness input stack)

-- How an input with a form becomes final.
abbrev pub ByForm : Form → PsbtIn → PsbtIn → Type 0
ByForm (legacy_form h) input input' = ByScript input input'
ByForm (p2wpkh_form h) input input' = ByStack input input'
ByForm (p2tr_form key) input input' = ByStack input input'

pub data Finalized (input : PsbtIn) : PsbtIn → Type 0 where
  by_scriptsig : (script : Bytes) → Finalized input (with_scriptsig input script)
  by_witness : (stack : Bytes) → Finalized input (with_witness input stack)
  by_tap_witness : (stack : Bytes) → Finalized input (with_tap_witness input stack)

script-Finalized : {input input' : PsbtIn} → ByScript input input' → Finalized input input'
script-Finalized {input} (script, e) = subst (λ x. Finalized input x) (sym e) (by_scriptsig script)

stack-Finalized : {input input' : PsbtIn} → ByStack input input' → Finalized input input'
stack-Finalized {input} (items, stack, encoded, e) =
    subst (λ x. Finalized input x) (sym e) (by_witness stack)

tap_stack-Finalized : {input input' : PsbtIn} → ByTapStack input input' → Finalized input input'
tap_stack-Finalized {input} (items, stack, encoded, e) =
    subst (λ x. Finalized input x) (sym e) (by_tap_witness stack)

pub Finalized-IsFinal : {input input' : PsbtIn} → Finalized input input' → IsFinal input'
unfolding with_scriptsig with_witness with_tap_witness cleared
Finalized-IsFinal (by_scriptsig script) = inl (script, refl)
Finalized-IsFinal (by_witness stack) = inr (stack, refl)
Finalized-IsFinal (by_tap_witness stack) = inr (stack, refl)

pub Finalized-IsKept : {input input' : PsbtIn} → Finalized input input' → IsKept input input'
unfolding with_scriptsig with_witness with_tap_witness cleared
Finalized-IsKept (by_scriptsig script) = (refl, refl, refl)
Finalized-IsKept (by_witness stack) = (refl, refl, refl)
Finalized-IsKept (by_tap_witness stack) = (refl, refl, refl)

pub Finalized-IsCleared : {input input' : PsbtIn} → Finalized input input' → IsCleared input'
unfolding with_scriptsig with_witness with_tap_witness cleared
Finalized-IsCleared (by_scriptsig script) = (refl, refl, refl, refl)
Finalized-IsCleared (by_witness stack) = (refl, refl, refl, refl)
Finalized-IsCleared (by_tap_witness stack) = (refl, refl, refl, refl)

module _ (sha256 ripemd160 : Bytes → Bytes) (curve : Curve) where
  -- A computation that ends in a way of becoming final.
  script_end :
      (input input' : PsbtIn) (m : Result Bytes)
      → (m >>= λ script. ok (with_scriptsig input script)) ≡ ok input'
      → ByScript input input'
  script_end input input' (ok script) e = (script, sym (ok-injective e))
  script_end input input' (err raised) e = cc

  stack_end :
      (input input' : PsbtIn) (items : List Bytes)
      → (encode_witness_stack items >>= λ stack. ok (with_witness input stack)) ≡ ok input'
      → ByStack input input'
  stack_end input input' items e =
      let (stack, encoded, e1) = >>=-eq-ok (encode_witness_stack items) _ e in
      (items, stack, encoded, sym (ok-injective e1))

  tap_stack_end :
      (input input' : PsbtIn) (items : List Bytes)
      → (encode_witness_stack items >>= λ stack. ok (with_tap_witness input stack)) ≡ ok input'
      → ByTapStack input input'
  tap_stack_end input input' items e =
      let (stack, encoded, e1) = >>=-eq-ok (encode_witness_stack items) _ e in
      (items, stack, encoded, sym (ok-injective e1))

  pub p2sh-ByScript :
      (i : ℕ) (input input' : PsbtIn) (script_pubkey : Bytes)
      → finalize_psbt_input_p2sh_multisig sha256 ripemd160 curve i input script_pubkey ≡ ok input'
      → ByScript input input'
  unfolding finalize_psbt_input_p2sh_multisig
  p2sh-ByScript i input input' script_pubkey e =
      let ((redeem, m, keys), _, e1) = >>=-eq-ok (committed_quorum _ _ _ _) _ e in
      let (_, _, e2) =
        >>=-eq-ok (guard (sighash_fits input.sighash_type sighash_all) (psbt (incomplete_input i)))
          _ e1 in
      let (sigs, _, e3) = >>=-eq-ok (quorum_sigs i input.partial_sigs m keys) _ e2 in
      script_end input input' _ e3

  pub p2wsh-ByStack :
      (i : ℕ) (input input' : PsbtIn) (script_pubkey : Bytes)
      → finalize_psbt_input_p2wsh_multisig sha256 ripemd160 curve i input script_pubkey ≡ ok input'
      → ByStack input input'
  unfolding finalize_psbt_input_p2wsh_multisig
  p2wsh-ByStack i input input' script_pubkey e =
      let ((redeem, m, keys), _, e1) = >>=-eq-ok (committed_quorum _ _ _ _) _ e in
      let (_, _, e2) =
        >>=-eq-ok (guard (sighash_fits input.sighash_type sighash_all) (psbt (incomplete_input i)))
          _ e1 in
      let (sigs, _, e3) = >>=-eq-ok (quorum_sigs i input.partial_sigs m keys) _ e2 in
      stack_end input input' _ e3

  pub p2tr-ByTapStack :
      (i : ℕ) (input input' : PsbtIn) (script_pubkey : Bytes)
      → finalize_psbt_input_p2tr_scriptpath sha256 ripemd160 curve i input script_pubkey ≡ ok input'
      → ByTapStack input input'
  unfolding finalize_psbt_input_p2tr_scriptpath
  p2tr-ByTapStack i input input' script_pubkey e =
      let (leaf, _, e1) = >>=-eq-ok (committed_leaf sha256 curve _ _ _) _ e in
      let (_, _, e2) =
        >>=-eq-ok
          (guard (sighash_fits input.sighash_type sighash_default) (psbt (incomplete_input i))) _
          e1 in
      let (slots, _, e3) = >>=-eq-ok (quorum_slots i leaf.m leaf.leaf_hash _ leaf.keys) _ e2 in
      tap_stack_end input input' _ e3

  pub form-ByForm :
      (i : ℕ) (input input' : PsbtIn) (form : Form)
      → finalize_form sha256 ripemd160 curve i input form ≡ ok input'
      → ByForm form input input'
  unfolding finalize_form
  form-ByForm i input input' (legacy_form h) e =
      let ((pubkey, sig), _, e1) =
        >>=-eq-ok
          (found_sig i (partial_sig_by_hash sha256 ripemd160 curve h input.partial_sigs)
            sighash_all)
          _ e in
      script_end input input' _ e1
  form-ByForm i input input' (p2wpkh_form h) e =
      let ((pubkey, sig), _, e1) =
        >>=-eq-ok
          (found_sig i (partial_sig_by_hash sha256 ripemd160 curve h input.partial_sigs)
            sighash_all)
          _ e in
      stack_end input input' _ e1
  form-ByForm i input input' (p2tr_form key) e =
      let (found, _, e1) =
        >>=-eq-ok (p2tr_sig_by_output_key sha256 ripemd160 curve key input.partial_sigs) _ e in
      let (sig, _, e2) = >>=-eq-ok (keypath_found i found) _ e1 in stack_end input input' _ e2

  form-Finalized :
      (form : Form) {input input' : PsbtIn} → ByForm form input input' → Finalized input input'
  form-Finalized (legacy_form h) f = script-Finalized f
  form-Finalized (p2wpkh_form h) f = stack-Finalized f
  form-Finalized (p2tr_form key) f = stack-Finalized f

  pub own-ByForm :
      (i : ℕ) (input input' : PsbtIn) (form : Option Form)
      → finalize_own sha256 ripemd160 curve i input form ≡ ok input'
      → (f : Form) × (form ≡ some f) × ByForm f input input'
  unfolding finalize_own
  own-ByForm i input input' none e = cc
  own-ByForm i input input' (some form) e =
      let (_, _, e1) =
        >>=-eq-ok
          (guard (sighash_fits input.sighash_type (pinned_sighash form))
            (psbt (incomplete_input i)))
          _ e in
      (form, refl, form-ByForm i input input' form e1)

  by_script-Finalized :
      (i : ℕ) (input input' : PsbtIn) (script : Bytes)
      → finalize_by_script sha256 ripemd160 curve i input script ≡ ok input'
      → Finalized input input'
  unfolding finalize_by_script
  by_script-Finalized i input input' script e = elim (Bool-cases (is_p2sh_script script)) [
    | inl sh ↦ script-Finalized (p2sh-ByScript i input input' script (rw sh at e))
    | inr sh ↦ elim (Bool-cases (is_p2wsh_script script)) [
      | inl wsh ↦ stack-Finalized (p2wsh-ByStack i input input' script (rw (sh, wsh) at e))
      | inr wsh ↦ elim (Bool-cases (is_p2tr_script script && nonempty input.tap_leaf_scripts)) [
        | inl tr ↦
            tap_stack-Finalized (p2tr-ByTapStack i input input' script (rw (sh, wsh, tr) at e))
        | inr tr ↦
            let (form, _, by_form) =
              own-ByForm i input input' (form_of_script script) (rw (sh, wsh, tr) at e) in
            form-Finalized form by_form
      ]
    ]
  ]

  pub known-Finalized :
      (i : ℕ) (input input' : PsbtIn) (data' : Option (Bytes × ℕ))
      → finalize_known sha256 ripemd160 curve i input data' ≡ ok input'
      → Finalized input input'
  unfolding finalize_known
  known-Finalized i input input' none e = cc
  known-Finalized i input input' (some (script, amount)) e =
      by_script-Finalized i input input' script e

  unless-cases :
      (script stack : Option Bytes) (input input' : PsbtIn) (now : Result PsbtIn)
      → finalize_unless script stack input now ≡ ok input'
      → (input' ≡ input) ⊎ ((script ≡ none) × (stack ≡ none) × (now ≡ ok input'))
  unfolding finalize_unless
  unless-cases none none input input' now e = inr (refl, refl, e)
  unless-cases (some script) stack input input' now e = inl (sym (ok-injective e))
  unless-cases none (some stack) input input' now e = inl (sym (ok-injective e))

  -- An input that ends well was final before, or was not and becomes final.
  pub finalize_input-IsOpen :
      (i : ℕ) (vin : Option PsbtTxIn) (input input' : PsbtIn)
      → finalize_input sha256 ripemd160 curve i vin input ≡ ok input'
      → (input' ≡ input)
        ⊎ ((input.final_scriptsig ≡ none)
            × (input.final_scriptwitness ≡ none)
            × Finalized input input')
  unfolding finalize_input
  finalize_input-IsOpen i vin input input' e =
      elim (unless-cases input.final_scriptsig input.final_scriptwitness input input'
        (finalize_known sha256 ripemd160 curve i input (input_data (some input) vin)) e) [
          | inl same ↦ inl same
          | inr (no_script, no_witness, now) ↦ inr (
            no_script,
            no_witness,
            known-Finalized i input input' (input_data (some input) vin) now,
          )
        ]

  pub finalize_input-cases :
      (i : ℕ) (vin : Option PsbtTxIn) (input input' : PsbtIn)
      → finalize_input sha256 ripemd160 curve i vin input ≡ ok input'
      → (input' ≡ input) ⊎ Finalized input input'
  finalize_input-cases i vin input input' e = elim (finalize_input-IsOpen i vin input input' e) [
    | inl same ↦ inl same
    | inr (_, _, final) ↦ inr final
  ]

  pub finalize_input-IsFinal :
      (i : ℕ) (vin : Option PsbtTxIn) (input : PsbtIn)
      → IsFinal input
      → finalize_input sha256 ripemd160 curve i vin input ≡ ok input
  unfolding finalize_input
  finalize_input-IsFinal i vin input (inl (script, e)) = rw (e, finalize_unless)
  finalize_input-IsFinal i vin input (inr (stack, e)) =
      stays input.final_scriptsig input.final_scriptwitness stack e
    where
      stays :
          (script final : Option Bytes) (stack : Bytes)
          → final ≡ some stack
          → finalize_unless script final input
              (finalize_known sha256 ripemd160 curve i input (input_data (some input) vin))
            ≡ ok input
      stays none final stack e = unfold finalize_unless in rw e
      stays (some script) final stack e = unfold finalize_unless in refl
