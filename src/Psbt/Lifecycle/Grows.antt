-- ===== src/Psbt/Lifecycle/Grows.antt =====
-- What no step changes.
use yubtc_python.Prelude.{
  ℕ, zero, suc, ◌+◌, ◌≡◌, ◌∙◌, refl, sym, subst, List, [], ◌∷◌, inl, inr, get_elem?, Option, none,
  some, Result, ok, err, >>=-eq-ok, ok-injective, guard, psbt, foreign_transaction, arith,
}
use native.Mathlib.Decide.{ℕ_discrete}
use yubtc_python.Prelude.Bytes.{Bytes, bytes_eq}
use yubtc_python.Transaction.Signing.{Coincurve, update}
use yubtc_python.Transaction.Taproot.{Curve}
use yubtc_python.Psbt.Tx.{PsbtTransaction, serialize_stripped, PsbtTxIn}
use yubtc_python.Psbt.Model.{PsbtIn, Psbt, TapLeafScript}
use yubtc_python.Psbt.Merge.{
  merge_field, merge_partial_sigs, merge_typed_list, merge_unknown, merge_input, merge_output,
  zip_merge, combine_psbt, tap_sig_key, tap_sig_eq, tap_sig_leb, tap_leaf_eq, tap_leaf_leb,
  Bytes-discrete, PsbtTxOut-discrete, PsbtTransaction-discrete,
}
use yubtc_python.Psbt.Utxo.{set_input}
use yubtc_python.Psbt.Finalizer.{
  cleared, with_scriptsig, with_witness, with_tap_witness, finalize_input, finalize_at,
  finalize_psbt_input, or_unchanged,
}
use yubtc_python.Psbt.Finalizer.Outcome.{
  Finalized, by_scriptsig, by_witness, by_tap_witness, finalize_input-IsOpen,
}
use yubtc_python.Psbt.Finalizer.Each.{finalize_psbt-each, finalize_each, or_unchanged-err}
use yubtc_python.Psbt.Signer.{add_partial_sig, add_tap_sig}
use yubtc_python.Psbt.Signer.Adds.{IsSigning, by_partial_sig, by_tap_sig}
use yubtc_python.Psbt.Signer.Again.{sign_psbt_input-IsSigning}
use yubtc_python.Psbt.Lifecycle.{Step, Reach, signs, combines, finalizes_one, finalizes, here, next}

-- A field that is set stays as it is.
abbrev pub Keeps {ℓ} : {A : Type ℓ} → Option A → Option A → Type ℓ
Keeps {A = A} before after = (v : A) → before ≡ some v → after ≡ some v

-- An input whose UTXO and whose final fields stay, where they are set.
abbrev pub Grows : PsbtIn → PsbtIn → Type 0
Grows x x' =
    Keeps x.non_witness_utxo x'.non_witness_utxo
    × Keeps x.witness_utxo x'.witness_utxo
    × Keeps x.final_scriptsig x'.final_scriptsig
    × Keeps x.final_scriptwitness x'.final_scriptwitness

Grows-refl : (x : PsbtIn) → Grows x x
Grows-refl x = (λ v e. e, λ v e. e, λ v e. e, λ v e. e)

Grows-trans : (x y z : PsbtIn) → Grows x y → Grows y z → Grows x z
Grows-trans x y z f g =
    (λ v e. g.0 v (f.0 v e), λ v e. g.1 v (f.1 v e), λ v e. g.2 v (f.2 v e), λ v e. g.3 v (f.3 v e))

-- Every input that a list has stood, smaller, in another at its index.
abbrev pub InputsGrow : List PsbtIn → List PsbtIn → Type 0
InputsGrow xs [] = Unit
InputsGrow [] (y ∷ ys) = ⊥
InputsGrow (x ∷ xs) (y ∷ ys) = Grows x y × InputsGrow xs ys

InputsGrow-refl : (xs : List PsbtIn) → InputsGrow xs xs
InputsGrow-refl [] = tt
InputsGrow-refl (x ∷ xs) = (Grows-refl x, InputsGrow-refl xs)

InputsGrow-trans : (xs ys zs : List PsbtIn) → InputsGrow xs ys → InputsGrow ys zs → InputsGrow xs zs
InputsGrow-trans xs ys [] f g = tt
InputsGrow-trans xs [] (z ∷ zs) f g = absurd g
InputsGrow-trans [] (y ∷ ys) (z ∷ zs) f g = absurd f
InputsGrow-trans (x ∷ xs) (y ∷ ys) (z ∷ zs) f g =
    (Grows-trans x y z f.0 g.0, InputsGrow-trans xs ys zs f.1 g.1)

InputsGrow-update :
    (f : PsbtIn → PsbtIn) (i : ℕ) (xs : List PsbtIn)
    → ((x : PsbtIn) → get_elem? xs i ≡ some x → Grows x (f x))
    → InputsGrow xs (update f i xs)
unfolding update
InputsGrow-update f i [] h = tt
InputsGrow-update f zero (x ∷ xs) h = (h x refl, InputsGrow-refl xs)
InputsGrow-update f (suc i) (x ∷ xs) h = (Grows-refl x, InputsGrow-update f i xs h)

signing-Grows :
    {pubkey : Bytes} {f : PsbtIn → PsbtIn} → IsSigning pubkey f → (x : PsbtIn) → Grows x (f x)
unfolding add_partial_sig add_tap_sig
signing-Grows (by_partial_sig sig) x = Grows-refl x
signing-Grows (by_tap_sig leaf_hash sig) x = Grows-refl x

merge_field-Keeps {ℓ} :
    {A : Type ℓ} (eq : Discrete A) (a b : Option A) {c : Option A}
    → merge_field eq a b ≡ ok c
    → Keeps a c
unfolding merge_field
merge_field-Keeps eq none b e = λ v h. cc
merge_field-Keeps eq (some a) none e = λ v h. sym (ok-injective e) ∙ h
merge_field-Keeps eq (some a) (some b) e = elim (eq a b) [
  | yes same ↦ λ v h. ground (arith, same)
  | no other ↦ λ v h. ground (arith, other)
]

merge_input-Grows : (a b c : PsbtIn) → merge_input a b ≡ ok c → Grows a c
unfolding merge_input
merge_input-Grows a b c e =
    let (_, _, e1) = >>=-eq-ok (merge_partial_sigs a.partial_sigs b.partial_sigs) _ e in
    let (_, _, e2) =
      >>=-eq-ok
        (merge_typed_list tap_sig_key tap_sig_eq tap_sig_leb a.tap_script_sigs b.tap_script_sigs) _
        e1 in
    let (_, _, e3) =
      >>=-eq-ok
        (merge_typed_list (λ (l : TapLeafScript). l.control_block) tap_leaf_eq tap_leaf_leb
          a.tap_leaf_scripts b.tap_leaf_scripts)
        _ e2 in
    let (prev, f1, e4) =
      >>=-eq-ok (merge_field PsbtTransaction-discrete a.non_witness_utxo b.non_witness_utxo) _ e3 in
    let (utxo, f2, e5) =
      >>=-eq-ok (merge_field PsbtTxOut-discrete a.witness_utxo b.witness_utxo) _ e4 in
    let (_, _, e6) = >>=-eq-ok (merge_field ℕ_discrete a.sighash_type b.sighash_type) _ e5 in
    let (_, _, e7) = >>=-eq-ok (merge_field Bytes-discrete a.redeem_script b.redeem_script) _ e6 in
    let (_, _, e8) =
      >>=-eq-ok (merge_field Bytes-discrete a.witness_script b.witness_script) _ e7 in
    let (script, f3, e9) =
      >>=-eq-ok (merge_field Bytes-discrete a.final_scriptsig b.final_scriptsig) _ e8 in
    let (stack, f4, e10) =
      >>=-eq-ok (merge_field Bytes-discrete a.final_scriptwitness b.final_scriptwitness) _ e9 in
    let (_, _, e11) =
      >>=-eq-ok (merge_field Bytes-discrete a.tap_internal_key b.tap_internal_key) _ e10 in
    let (_, _, e12) =
      >>=-eq-ok (merge_field Bytes-discrete a.tap_merkle_root b.tap_merkle_root) _ e11 in
    let (_, _, e13) = >>=-eq-ok (merge_unknown a.unknown b.unknown) _ e12 in
    subst (λ x. Grows a x) (ok-injective e13)
      (
        merge_field-Keeps PsbtTransaction-discrete a.non_witness_utxo b.non_witness_utxo f1,
        merge_field-Keeps PsbtTxOut-discrete a.witness_utxo b.witness_utxo f2,
        merge_field-Keeps Bytes-discrete a.final_scriptsig b.final_scriptsig f3,
        merge_field-Keeps Bytes-discrete a.final_scriptwitness b.final_scriptwitness f4,
      )

zip_merge-Grows : (xs ys zs : List PsbtIn) → zip_merge merge_input xs ys ≡ ok zs → InputsGrow xs zs
unfolding zip_merge
zip_merge-Grows [] ys zs e = subst (λ l. InputsGrow [] l) (ok-injective e) tt
zip_merge-Grows (x ∷ xs) [] zs e = subst (λ l. InputsGrow (x ∷ xs) l) (ok-injective e) tt
zip_merge-Grows (x ∷ xs) (y ∷ ys) zs e =
    let (z, first, e1) = >>=-eq-ok (merge_input x y) _ e in
    let (rest, more, e2) = >>=-eq-ok (zip_merge merge_input xs ys) _ e1 in
    subst (λ l. InputsGrow (x ∷ xs) l) (ok-injective e2)
      (merge_input-Grows x y z first, zip_merge-Grows xs ys rest more)

-- A PSBT over the same unsigned transaction whose inputs have grown.
abbrev pub PsbtGrows : Psbt → Psbt → Type 0
PsbtGrows p p' =
    (p'.version ≡ p.version) × (p'.unsigned_tx ≡ p.unsigned_tx) × InputsGrow p.inputs p'.inputs

combine-PsbtGrows : (p other p' : Psbt) → combine_psbt p other ≡ ok p' → PsbtGrows p p'
unfolding combine_psbt
combine-PsbtGrows p other p' e =
    let (tx, _, e1) = >>=-eq-ok (serialize_stripped p.unsigned_tx) _ e in
    let (other_tx, _, e2) = >>=-eq-ok (serialize_stripped other.unsigned_tx) _ e1 in
    let (_, _, e3) = >>=-eq-ok (guard (bytes_eq tx other_tx) (psbt foreign_transaction)) _ e2 in
    let (_, _, e4) = >>=-eq-ok (merge_unknown p.unknown_global other.unknown_global) _ e3 in
    let (inputs, merged, e5) = >>=-eq-ok (zip_merge merge_input p.inputs other.inputs) _ e4 in
    let (_, _, e6) = >>=-eq-ok (zip_merge merge_output p.outputs other.outputs) _ e5 in
    subst (λ q. PsbtGrows p q) (ok-injective e6)
      (refl, refl, zip_merge-Grows p.inputs other.inputs inputs merged)

Finalized-Grows :
    {x x' : PsbtIn}
    → x.final_scriptsig ≡ none
    → x.final_scriptwitness ≡ none
    → Finalized x x'
    → Grows x x'
unfolding with_scriptsig with_witness with_tap_witness cleared
Finalized-Grows no_script no_witness (by_scriptsig script) =
    (λ v e. e, λ v e. e, λ v e. cc, λ v e. e)
Finalized-Grows no_script no_witness (by_witness stack) = (λ v e. e, λ v e. e, λ v e. e, λ v e. cc)
Finalized-Grows no_script no_witness (by_tap_witness stack) =
    (λ v e. e, λ v e. e, λ v e. e, λ v e. cc)

PsbtGrows-set_input :
    (p : Psbt) (i : ℕ) (f : PsbtIn → PsbtIn)
    → ((x : PsbtIn) → get_elem? p.inputs i ≡ some x → Grows x (f x))
    → PsbtGrows p (set_input p i f)
unfolding set_input
PsbtGrows-set_input p i f h = (refl, refl, InputsGrow-update f i p.inputs h)

module _ (sha256 ripemd160 : Bytes → Bytes) (lib : Coincurve) (curve : Curve) where
  finalize_input-Grows :
      (i : ℕ) (vin : Option PsbtTxIn) (x x' : PsbtIn)
      → finalize_input sha256 ripemd160 curve i vin x ≡ ok x'
      → Grows x x'
  finalize_input-Grows i vin x x' e =
      elim (finalize_input-IsOpen sha256 ripemd160 curve i vin x x' e) [
        | inl same ↦ subst (λ y. Grows x y) (sym same) (Grows-refl x)
        | inr (no_script, no_witness, final) ↦ Finalized-Grows no_script no_witness final
      ]

  finalize_at-PsbtGrows :
      (p : Psbt) (i : ℕ) (o : Option PsbtIn) (p' : Psbt)
      → get_elem? p.inputs i ≡ o
      → finalize_at sha256 ripemd160 curve p i o ≡ ok p'
      → PsbtGrows p p'
  unfolding finalize_at
  finalize_at-PsbtGrows p i none p' at_i e = cc
  finalize_at-PsbtGrows p i (some input) p' at_i e =
      let (input', final, e1) =
        >>=-eq-ok (finalize_input sha256 ripemd160 curve i (get_elem? p.unsigned_tx.vin i) input) _
          e in
      let grows : Grows input input' =
        finalize_input-Grows i (get_elem? p.unsigned_tx.vin i) input input' final in
      subst (λ q. PsbtGrows p q) (ok-injective e1)
        (PsbtGrows-set_input p i (λ _. input')
          (λ x at_x. subst (λ y. Grows y input') (some-injective (sym at_i ∙ at_x)) grows))
    where
      some-injective : {a b : PsbtIn} → some a ≡ some b → a ≡ b
      some-injective h = cc

  or_unchanged-Grows :
      (i : ℕ) (vin : Option PsbtTxIn) (x x' : PsbtIn) (m : Result PsbtIn)
      → finalize_input sha256 ripemd160 curve i vin x ≡ m
      → or_unchanged x m ≡ ok x'
      → Grows x x'
  or_unchanged-Grows i vin x x' (ok y) now e =
      finalize_input-Grows i vin x x' (now ∙ unfold or_unchanged in e)
  or_unchanged-Grows i vin x x' (err raised) now e =
      subst (λ y. Grows x y) (or_unchanged-err x raised e) (Grows-refl x)

  each-Grows :
      (tx : PsbtTransaction) (i : ℕ) (xs ys : List PsbtIn)
      → finalize_each sha256 ripemd160 curve tx i xs ≡ ok ys
      → InputsGrow xs ys
  unfolding finalize_each
  each-Grows tx i [] ys e = subst (λ l. InputsGrow [] l) (ok-injective e) tt
  each-Grows tx i (x ∷ xs) ys e =
      let now : Result PsbtIn = finalize_input sha256 ripemd160 curve i (get_elem? tx.vin i) x in
      let (y, first, e1) = >>=-eq-ok (or_unchanged x now) _ e in
      let (rest, more, e2) = >>=-eq-ok (finalize_each sha256 ripemd160 curve tx (i + 1) xs) _ e1 in
      subst (λ l. InputsGrow (x ∷ xs) l) (ok-injective e2)
        (
          or_unchanged-Grows i (get_elem? tx.vin i) x y now refl first,
          each-Grows tx (i + 1) xs rest more,
        )

  pub Step-PsbtGrows : {p p' : Psbt} → Step sha256 ripemd160 lib curve p p' → PsbtGrows p p'
  Step-PsbtGrows {p} {p'} (signs i privkey b e) =
      elim (sign_psbt_input-IsSigning sha256 ripemd160 lib curve i privkey p p' b e) [
        | inl same ↦ subst (λ q. PsbtGrows p q) (sym same) (refl, refl, InputsGrow-refl p.inputs)
        | inr (_, f, signing, is_set, _) ↦
            subst (λ q. PsbtGrows p q) (sym is_set)
              (PsbtGrows-set_input p i f (λ x at_x. signing-Grows signing x))
      ]
  Step-PsbtGrows {p} {p'} (combines other e) = combine-PsbtGrows p other p' e
  Step-PsbtGrows {p} {p'} (finalizes_one i e) =
      finalize_at-PsbtGrows p i (get_elem? p.inputs i) p' refl (unfold finalize_psbt_input in e)
  Step-PsbtGrows {p} {p'} (finalizes e) =
      let (inputs, same, _, each, _) = finalize_psbt-each sha256 ripemd160 curve p p' e in
      subst (λ q. PsbtGrows p q) (sym same)
        (refl, refl, each-Grows p.unsigned_tx 0 p.inputs inputs each)

  -- Through any number of steps of the Signer, the Combiner and the Finalizer, in any order, the version and
  -- the unsigned transaction stay; there are no more inputs than there were, and in each of them a UTXO or
  -- a final field that was set is still the same.
  pub Reach-PsbtGrows : {p p' : Psbt} → Reach sha256 ripemd160 lib curve p p' → PsbtGrows p p'
  Reach-PsbtGrows {p} here = (refl, refl, InputsGrow-refl p.inputs)
  Reach-PsbtGrows {p} {p'} (next {q} {r} before step) =
      let (version, tx, inputs) = Reach-PsbtGrows before in
      let (version', tx', inputs') = Step-PsbtGrows step in
      (version' ∙ version, tx' ∙ tx, InputsGrow-trans p.inputs q.inputs r.inputs inputs inputs')
