-- ===== src/Psbt/Extractor/Progress.antt =====
-- The Extractor behind the Finalizer.
use yubtc_python.Prelude.{
  ℕ, ◌+◌, ◌≤◌, ◌≡◌, ◌∙◌, refl, sym, ap, subst, List, [], ◌∷◌, length, get_elem?, inl, inr, Option,
  none, some, All, Result, ok, err, ◌>>=◌, >>=-eq-ok, ok-injective, arith, ap₂, get_elem?-some,
}
use yubtc_python.Prelude.Bytes.{Bytes}
use yubtc_python.Transaction.Taproot.{Curve}
use yubtc_python.Psbt.Tx.{PsbtTxIn, PsbtTransaction}
use yubtc_python.Psbt.Model.{PsbtIn, Psbt}
use yubtc_python.Psbt.Utxo.{input_data, utxo_data}
use yubtc_python.Psbt.Finalizer.{
  finalize_known, finalize_unless, finalize_input, finalize_psbt, or_unchanged,
}
use yubtc_python.Psbt.Finalizer.Outcome.{IsFinal, IsKept, Finalized-IsKept, known-Finalized}
use yubtc_python.Psbt.Extractor.{extract_known, extract_input, extract_inputs, extract_transaction}
use yubtc_python.Psbt.Finalizer.Each.{finalize_each, finalize_psbt-each, or_unchanged-err}
use yubtc_python.Psbt.Extractor.Branches.{by_script-progress}

-- No final field yet.
abbrev pub IsOpen : PsbtIn → Type 0
IsOpen input = (input.final_scriptsig ≡ none) × (input.final_scriptwitness ≡ none)

unless_open :
    (script stack : Option Bytes) (input : PsbtIn) (now : Result PsbtIn)
    → script ≡ none
    → stack ≡ none
    → finalize_unless script stack input now ≡ now
unfolding finalize_unless
unless_open none none input now h k = refl
unless_open none (some stack) input now h k = cc
unless_open (some script) stack input now h k = cc

module _ (sha256 ripemd160 : Bytes → Bytes) (curve : Curve) where
  data_of_kept :
      (input input' : PsbtIn) (vin : Option PsbtTxIn)
      → IsKept input input'
      → input_data (some input') vin ≡ input_data (some input) vin
  unfolding input_data
  data_of_kept input input' vin (prev, utxo, unknown) = ap₂ (λ u p. utxo_data u p vin) utxo prev

  known-progress :
      (i : ℕ) (vin : PsbtTxIn) (input input' : PsbtIn) (data' : Option (Bytes × ℕ))
      → IsOpen input
      → finalize_known sha256 ripemd160 curve i input data' ≡ ok input'
      → (tx_in : PsbtTxIn) × (extract_known i (some vin) input' data' ≡ ok tx_in)
  unfolding finalize_known extract_known
  known-progress i vin input input' none open' e = cc
  known-progress i vin input input' (some (script, amount)) (no_script, no_witness) e =
      by_script-progress sha256 ripemd160 curve i vin input input' script no_script no_witness e

  -- An input without a final field that the Finalizer accepts is accepted by the Extractor.
  pub extract-finalize_input :
      (i : ℕ) (vin : PsbtTxIn) (input input' : PsbtIn)
      → IsOpen input
      → finalize_input sha256 ripemd160 curve i (some vin) input ≡ ok input'
      → (tx_in : PsbtTxIn) × (extract_input i (some vin) input' ≡ ok tx_in)
  unfolding finalize_input extract_input
  extract-finalize_input i vin input input' open' e =
      let known : finalize_known sha256 ripemd160 curve i input (input_data (some input) (some vin))
          ≡ ok input' =
        sym (unless_open input.final_scriptsig input.final_scriptwitness input _ open'.0 open'.1)
        ∙ e in
      let (tx_in, done) =
        known-progress i vin input input' (input_data (some input) (some vin)) open' known in
      let kept : IsKept input input' =
        Finalized-IsKept (known-Finalized sha256 ripemd160 curve i input input' _ known) in
      (
        tx_in,
        ap (extract_known i (some vin) input') (data_of_kept input input' (some vin) kept) ∙ done,
      )

  open_not-IsFinal : (input : PsbtIn) → IsOpen input → ¬ (IsFinal input)
  open_not-IsFinal input (no_script, no_witness) =
      λ final. elim final [ inl (script, e) ↦ cc | inr (stack, e) ↦ cc ]

  settled-progress :
      (i : ℕ) (vin : PsbtTxIn) (input input' : PsbtIn) (m : Result PsbtIn)
      → finalize_input sha256 ripemd160 curve i (some vin) input ≡ m
      → IsOpen input
      → IsFinal input'
      → or_unchanged input m ≡ ok input'
      → (tx_in : PsbtTxIn) × (extract_input i (some vin) input' ≡ ok tx_in)
  settled-progress i vin input input' (ok x) now open' final e =
      extract-finalize_input i vin input input' open' (now ∙ unfold or_unchanged in e)
  settled-progress i vin input input' (err raised) now open' final e = absurd (
      open_not-IsFinal input open'
        (subst (λ x. IsFinal x) (sym (or_unchanged-err input raised e)) final))

  extract_inputs-cons :
      (tx : PsbtTransaction) (i : ℕ) (input : PsbtIn) (inputs : List PsbtIn) (tx_in : PsbtTxIn)
      (vins : List PsbtTxIn)
      → extract_input i (get_elem? tx.vin i) input ≡ ok tx_in
      → extract_inputs tx (i + 1) inputs ≡ ok vins
      → extract_inputs tx i (input ∷ inputs) ≡ ok (tx_in ∷ vins)
  unfolding extract_inputs
  extract_inputs-cons tx i input inputs tx_in vins here there = rw (here, there)

  each-progress :
      (tx : PsbtTransaction) (i : ℕ) (inputs inputs' : List PsbtIn)
      → i + length inputs ≤ length tx.vin
      → All IsOpen inputs
      → All IsFinal inputs'
      → finalize_each sha256 ripemd160 curve tx i inputs ≡ ok inputs'
      → (vins : List PsbtTxIn) × (extract_inputs tx i inputs' ≡ ok vins)
  unfolding finalize_each extract_inputs
  each-progress tx i [] [] h opens finals e = ([], refl)
  each-progress tx i [] (x ∷ xs) h opens finals e = cc
  each-progress tx i (input ∷ inputs) [] h opens finals e =
      let now : Result PsbtIn =
        finalize_input sha256 ripemd160 curve i (get_elem? tx.vin i) input in
      let (x, first, e1) = >>=-eq-ok (or_unchanged input now) _ e in
      let (xs, rest, e2) =
        >>=-eq-ok (finalize_each sha256 ripemd160 curve tx (i + 1) inputs) _ e1 in
      cc
  each-progress tx i (input ∷ inputs) (input' ∷ inputs') h opens finals e =
      let (vin, at_i) = get_elem?-some tx.vin i (omega arith) in
      let now : Result PsbtIn =
        finalize_input sha256 ripemd160 curve i (get_elem? tx.vin i) input in
      let (x, first, e1) = >>=-eq-ok (or_unchanged input now) _ e in
      let (xs, rest, e2) =
        >>=-eq-ok (finalize_each sha256 ripemd160 curve tx (i + 1) inputs) _ e1 in
      let same : ◌≡◌ {A = List PsbtIn} (x ∷ xs) (input' ∷ inputs') = ok-injective e2 in
      let head : x ≡ input' = cc in
      let tail : xs ≡ inputs' = cc in
      let (tx_in, here) =
        subst (λ o. (tx_in : PsbtTxIn) × (extract_input i o input' ≡ ok tx_in)) (sym at_i)
          (settled-progress i vin input input' now
            (ap (λ o. finalize_input sha256 ripemd160 curve i o input) (sym at_i)) opens.0 finals.0
            (first ∙ ap ok head)) in
      let (vins, there) =
        each-progress tx (i + 1) inputs inputs' (omega arith) opens.1 finals.1
          (rest ∙ ap ok tail) in
      (tx_in ∷ vins, extract_inputs-cons tx i input' inputs' tx_in vins here there)

  -- A PSBT none of whose inputs has a final field, and whose inputs are no more than those of the
  -- unsigned transaction, is extracted once `finalize_psbt` has given every input a final field.
  pub extract-finalize_psbt :
      (p p' : Psbt)
      → length p.inputs ≤ length p.unsigned_tx.vin
      → All IsOpen p.inputs
      → finalize_psbt sha256 ripemd160 curve p ≡ ok p'
      → All IsFinal p'.inputs
      → (tx : PsbtTransaction) × (extract_transaction p' ≡ ok tx)
  unfolding extract_transaction
  extract-finalize_psbt p p' h opens e finals =
      let (inputs, same, all, each, again) = finalize_psbt-each sha256 ripemd160 curve p p' e in
      let (vins, done) =
        each-progress p.unsigned_tx 0 p.inputs inputs (omega arith) opens
          (subst (λ (q : Psbt). All IsFinal q.inputs) same finals) each in
      (
        record p.unsigned_tx { vin = vins },
        subst
            (λ (q : Psbt).
              (extract_inputs q.unsigned_tx 0 q.inputs >>= λ v.
              ok (record q.unsigned_tx { vin = v }))
              ≡ ok (record p.unsigned_tx { vin = vins }))
            (sym same)
            (ap (λ (r : Result (List PsbtTxIn)). r >>= λ v. ok (record p.unsigned_tx { vin = v }))
              done),
      )
