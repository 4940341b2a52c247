-- ===== src/Psbt/Extractor/Skeleton.antt =====
-- What the Extractor keeps of the unsigned transaction, and what it asks of the inputs.
use yubtc_python.Prelude.{
  ℕ, suc, ◌+◌, ◌≡◌, refl, ap, subst, List, [], ◌∷◌, length, get_elem?, ◌&&◌, not, Bool-cases, inl,
  inr, Option, none, some, All, ok, ◌>>=◌, >>=-eq-ok, guard, ok-injective, psbt, incomplete_input,
}
use yubtc_python.Prelude.Bytes.{Bytes}
use yubtc_python.Psbt.Tx.{PsbtTxIn, PsbtTransaction, nonempty, decode_witness_stack}
use yubtc_python.Psbt.Model.{PsbtIn, Psbt}
use yubtc_python.Psbt.Model.Parse.{except_psbt}
use yubtc_python.Psbt.Utxo.{
  input_data, is_p2sh_script, is_p2wsh_script, Form, legacy_form, p2wpkh_form, p2tr_form,
  form_of_script,
}
use yubtc_python.Psbt.Finalizer.Outcome.{IsFinal}
use yubtc_python.Psbt.Extractor.{
  is_some, final_field, with_script, with_stack, extract_script, extract_witness, extract_multisig,
  extract_form, extract_known, extract_input, extract_inputs, extract_transaction,
}

-- An input of the transaction with the outpoint and the sequence number of another.
abbrev pub IsSpendOf : Option PsbtTxIn → PsbtTxIn → Type 0
IsSpendOf none vin = ⊥
IsSpendOf (some unsigned) vin =
    (vin.txhash ≡ unsigned.txhash) × (vin.n ≡ unsigned.n) × (vin.sequence ≡ unsigned.sequence)

abbrev IsExtracted : Option PsbtTxIn → PsbtIn → PsbtTxIn → Type 0
IsExtracted unsigned input vin = IsFinal input × IsSpendOf unsigned vin

script-IsExtracted :
    (unsigned : Option PsbtTxIn) (input : PsbtIn) (field : Option Bytes) (vin : PsbtTxIn)
    → input.final_scriptsig ≡ field
    → (final_field field >>= λ script. with_script unsigned script) ≡ ok vin
    → IsExtracted unsigned input vin
unfolding final_field with_script
script-IsExtracted unsigned input none vin f e = cc
script-IsExtracted none input (some script) vin f e = cc
script-IsExtracted (some unsigned) input (some script) vin f e =
    subst (λ v. IsExtracted (some unsigned) input v) (ok-injective e)
      (inl (script, f), (refl, refl, refl))

stack-IsSpendOf :
    (unsigned : Option PsbtTxIn) (stack : List Bytes) (vin : PsbtTxIn)
    → with_stack unsigned stack ≡ ok vin
    → IsSpendOf unsigned vin
unfolding with_stack
stack-IsSpendOf none stack vin e = cc
stack-IsSpendOf (some unsigned) stack vin e =
    subst (λ v. IsSpendOf (some unsigned) v) (ok-injective e) (refl, refl, refl)

final_field-eq-ok : (field : Option Bytes) {b : Bytes} → final_field field ≡ ok b → field ≡ some b
unfolding final_field
final_field-eq-ok none e = cc
final_field-eq-ok (some b) e = cc

witness-IsExtracted :
    (i : ℕ) (unsigned : Option PsbtTxIn) (input : PsbtIn) (vin : PsbtTxIn)
    → extract_witness i unsigned input ≡ ok vin
    → IsExtracted unsigned input vin
unfolding extract_witness
witness-IsExtracted i unsigned input vin e =
    let (stack_bytes, final, e1) = >>=-eq-ok (final_field input.final_scriptwitness) _ e in
    let (stack, _, e2) =
      >>=-eq-ok (except_psbt (decode_witness_stack stack_bytes) (incomplete_input i)) _ e1 in
    (inr (stack_bytes, final_field-eq-ok _ final), stack-IsSpendOf unsigned stack vin e2)

multisig-IsExtracted :
    (i : ℕ) (unsigned : Option PsbtTxIn) (input : PsbtIn) (script : Bytes) (vin : PsbtTxIn)
    → extract_multisig i unsigned input script ≡ ok vin
    → IsExtracted unsigned input vin
unfolding extract_multisig extract_script
multisig-IsExtracted i unsigned input script vin e = elim (Bool-cases (is_p2sh_script script)) [
  | inl sh ↦
      let (_, _, e1) =
        >>=-eq-ok (guard (not (is_some input.final_scriptwitness)) (psbt (incomplete_input i))) _
          (rw sh at e) in
      script-IsExtracted unsigned input input.final_scriptsig vin refl e1
  | inr sh ↦ elim (Bool-cases (is_p2wsh_script script)) [
    | inl wsh ↦
        let (_, _, e1) =
          >>=-eq-ok (guard (not (is_some input.final_scriptsig)) (psbt (incomplete_input i))) _
            (rw (sh, wsh) at e) in
        witness-IsExtracted i unsigned input vin e1
    | inr wsh ↦ absurd (cc (rw (sh, wsh) at e))
  ]
]

form-IsExtracted :
    (i : ℕ) (unsigned : Option PsbtTxIn) (input : PsbtIn) (script : Bytes) (form : Option Form)
    (vin : PsbtTxIn)
    → extract_form i unsigned input script form ≡ ok vin
    → IsExtracted unsigned input vin
unfolding extract_form extract_script
form-IsExtracted i unsigned input script none vin e =
    multisig-IsExtracted i unsigned input script vin e
form-IsExtracted i unsigned input script (some (legacy_form h)) vin e =
    script-IsExtracted unsigned input input.final_scriptsig vin refl e
form-IsExtracted i unsigned input script (some (p2wpkh_form h)) vin e =
    let (_, _, e1) =
      >>=-eq-ok
        (guard (not (is_some input.final_scriptsig && nonempty input.tap_leaf_scripts))
          (psbt (incomplete_input i)))
        _ e in
    witness-IsExtracted i unsigned input vin e1
form-IsExtracted i unsigned input script (some (p2tr_form k)) vin e =
    let (_, _, e1) =
      >>=-eq-ok
        (guard (not (is_some input.final_scriptsig && nonempty input.tap_leaf_scripts))
          (psbt (incomplete_input i)))
        _ e in
    witness-IsExtracted i unsigned input vin e1

known-IsExtracted :
    (i : ℕ) (unsigned : Option PsbtTxIn) (input : PsbtIn) (data' : Option (Bytes × ℕ))
    (vin : PsbtTxIn)
    → extract_known i unsigned input data' ≡ ok vin
    → IsExtracted unsigned input vin
unfolding extract_known
known-IsExtracted i unsigned input none vin e = cc
known-IsExtracted i unsigned input (some (script, amount)) vin e =
    form-IsExtracted i unsigned input script (form_of_script script) vin e

-- The inputs of the unsigned transaction from input `i` on, kept in the inputs that were extracted.
abbrev pub IsSkeletonFrom : PsbtTransaction → ℕ → List PsbtTxIn → Type 0
IsSkeletonFrom tx i [] = Unit
IsSkeletonFrom tx i (vin ∷ vins) =
    IsSpendOf (get_elem? tx.vin i) vin × IsSkeletonFrom tx (i + 1) vins

extract_inputs-IsSkeleton :
    (tx : PsbtTransaction) (i : ℕ) (inputs : List PsbtIn) (vins : List PsbtTxIn)
    → extract_inputs tx i inputs ≡ ok vins
    → All IsFinal inputs × (length vins ≡ length inputs) × IsSkeletonFrom tx i vins
unfolding extract_inputs extract_input
extract_inputs-IsSkeleton tx i [] vins e =
    subst (λ v. Unit × (length v ≡ 0) × IsSkeletonFrom tx i v) (ok-injective e) (tt, refl, tt)
extract_inputs-IsSkeleton tx i (input ∷ inputs) vins e =
    let (vin, first, e1) =
      >>=-eq-ok
        (extract_known i (get_elem? tx.vin i) input (input_data (some input) (get_elem? tx.vin i)))
        _ e in
    let (rest, more, e2) = >>=-eq-ok (extract_inputs tx (i + 1) inputs) _ e1 in
    let (final, spend) = known-IsExtracted i (get_elem? tx.vin i) input _ vin first in
    let (finals, count, skeleton) = extract_inputs-IsSkeleton tx (i + 1) inputs rest more in
    subst
      (λ v. All IsFinal (input ∷ inputs) × (length v ≡ suc (length inputs)) × IsSkeletonFrom tx i v)
      (ok-injective e2) ((final, finals), ap suc count, (spend, skeleton))

abbrev pub IsSkeleton : PsbtTransaction → PsbtTransaction → Type 0
IsSkeleton unsigned tx =
    (tx.version ≡ unsigned.version)
    × (tx.vout ≡ unsigned.vout)
    × (tx.locktime ≡ unsigned.locktime)
    × IsSkeletonFrom unsigned 0 tx.vin

-- From a PSBT that the Extractor accepts, every input is final, and the transaction has one input for
-- each of them; it has the version, the outputs and the locktime of the unsigned transaction, and each
-- input has the outpoint and the sequence number of the input at its index there.
pub extract_transaction-IsSkeleton :
    (p : Psbt) (tx : PsbtTransaction)
    → extract_transaction p ≡ ok tx
    → All IsFinal p.inputs × (length tx.vin ≡ length p.inputs) × IsSkeleton p.unsigned_tx tx
unfolding extract_transaction
extract_transaction-IsSkeleton p tx e =
    let (vins, each, e1) = >>=-eq-ok (extract_inputs p.unsigned_tx 0 p.inputs) _ e in
    let (finals, count, skeleton) = extract_inputs-IsSkeleton p.unsigned_tx 0 p.inputs vins each in
    subst
      (λ (t : PsbtTransaction).
        All IsFinal p.inputs × (length t.vin ≡ length p.inputs) × IsSkeleton p.unsigned_tx t)
      (ok-injective e1) (finals, count, (refl, refl, refl, skeleton))
