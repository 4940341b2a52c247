-- ===== src/Psbt/Finalizer/Each.antt =====
-- `finalize_psbt`, which changes a PSBT in place, against the inputs taken one by one.
use yubtc_python.Prelude.{
  ℕ, ◌+◌, ◌≡◌, ◌∙◌, refl, sym, ap, subst, List, [], ◌∷◌, ◌++◌, append_assoc, length, length-append,
  get_elem?, get_elem?-length, All2, inl, inr, ◌⊎◌, Option, Result, ok, err, Error, psbt, ◌>>=◌,
  >>=-cong, >>=_assoc, >>=-eq-ok, ok-injective, arith, PsbtError,
}
use yubtc_python.Prelude.Bytes.{Bytes}
use yubtc_python.Transaction.Signing.{update}
use yubtc_python.Transaction.Taproot.{Curve}
use yubtc_python.Psbt.Tx.{PsbtTxIn, PsbtTransaction}
use yubtc_python.Psbt.Model.{PsbtIn, Psbt}
use yubtc_python.Psbt.Utxo.{set_input}
use yubtc_python.Psbt.Finalizer.{
  finalize_input, finalize_at, finalize_psbt_input, or_unchanged, finalize_loop, finalize_psbt,
}
use yubtc_python.Psbt.Finalizer.Outcome.{
  IsFinal, IsKept, IsCleared, Finalized-IsFinal, Finalized-IsKept, Finalized-IsCleared,
  finalize_input-cases, finalize_input-IsFinal,
}

abbrev pub with_inputs : Psbt → List PsbtIn → Psbt
with_inputs p inputs = record p { inputs = inputs }

update-length {ℓ} :
    {A : Type ℓ} (f : A → A) (xs ys : List A) (y : A)
    → update f (length xs) (xs ++ y ∷ ys) ≡ xs ++ f y ∷ ys
unfolding update
update-length f [] ys y = refl
update-length f (x ∷ xs) ys y = ap (◌∷◌ x) (update-length f xs ys y)

-- A change of the whole that goes through a part fails and succeeds with the part.
or_unchanged-map {ℓ κ} :
    {A : Type ℓ} {B : Type κ} (q : A → B) (a : A) (m : Result A)
    → or_unchanged (q a) (m >>= λ x. ok (q x)) ≡ (or_unchanged a m >>= λ x. ok (q x))
unfolding or_unchanged
or_unchanged-map q a (ok x) = refl
or_unchanged-map q a (err (psbt e)) = refl
or_unchanged-map q a (err Error.struct_error) = refl
or_unchanged-map q a (err Error.index_error) = refl
or_unchanged-map q a (err Error.value_error) = refl
or_unchanged-map q a (err Error.overflow_error) = refl
or_unchanged-map q a (err Error.invalid_multisig_redeem) = refl
or_unchanged-map q a (err Error.invalid_multisig_tapscript) = refl
or_unchanged-map q a (err Error.tap_tweak_error) = refl
or_unchanged-map q a (err Error.out_of_fuel) = refl

-- Where an exception is passed over, nothing has changed.
pub or_unchanged-err {ℓ} :
    {A : Type ℓ} (a : A) (raised : Error) {a' : A} → or_unchanged a (err raised) ≡ ok a' → a ≡ a'
unfolding or_unchanged
or_unchanged-err a (psbt e) same = ok-injective same
or_unchanged-err a Error.struct_error same = cc
or_unchanged-err a Error.index_error same = cc
or_unchanged-err a Error.value_error same = cc
or_unchanged-err a Error.overflow_error same = cc
or_unchanged-err a Error.invalid_multisig_redeem same = cc
or_unchanged-err a Error.invalid_multisig_tapscript same = cc
or_unchanged-err a Error.tap_tweak_error same = cc
or_unchanged-err a Error.out_of_fuel same = cc

module _ (sha256 ripemd160 : Bytes → Bytes) (curve : Curve) where
  -- Every input by itself, with the entry of `vin` at its index.
  unfoldable pub finalize_each : PsbtTransaction → ℕ → List PsbtIn → Result (List PsbtIn)
  finalize_each tx i [] = ok []
  finalize_each tx i (input ∷ inputs) = do
    input' ← or_unchanged input (finalize_input sha256 ripemd160 curve i (get_elem? tx.vin i) input)
    rest ← finalize_each tx (i + 1) inputs
    ok (input' ∷ rest)

  finalize_psbt_input_at :
      (p : Psbt) (before after : List PsbtIn) (input : PsbtIn)
      → finalize_psbt_input sha256 ripemd160 curve
          (with_inputs p (before ++ input ∷ after))
          (length before)
        ≡ (finalize_input sha256 ripemd160 curve
              (length before)
              (get_elem? p.unsigned_tx.vin (length before))
              input
            >>= λ x. ok (with_inputs p (before ++ x ∷ after)))
  unfolding finalize_psbt_input finalize_at set_input
  finalize_psbt_input_at p before after input = rw (get_elem?-length before after input) (
      >>=-cong _ (λ x.
        ap (λ inputs. ok (with_inputs p inputs))
          (update-length (λ (_ : PsbtIn). x) before after input)))

  finalize_loop-each :
      (p : Psbt) (before after : List PsbtIn)
      → finalize_loop sha256 ripemd160 curve
          (length after)
          (length before)
          (with_inputs p (before ++ after))
        ≡ (finalize_each p.unsigned_tx (length before) after >>= λ inputs.
            ok (with_inputs p (before ++ inputs)))
  unfolding finalize_loop finalize_each
  finalize_loop-each p before [] = refl
  finalize_loop-each p before (input ∷ after) =
      let m : Result PsbtIn =
        finalize_input sha256 ripemd160 curve (length before)
          (get_elem? p.unsigned_tx.vin (length before)) input in
      let next : (x : PsbtIn) → length (before ++ x ∷ []) ≡ length before + 1 =
        λ x. omega (arith, length-append {0} before (x ∷ [])) in
      let step : (x : PsbtIn)
          → finalize_loop sha256 ripemd160 curve (length after) (length before + 1)
              (with_inputs p (before ++ x ∷ after))
            ≡ (finalize_each p.unsigned_tx (length before + 1) after >>= λ inputs.
                ok (with_inputs p (before ++ x ∷ inputs))) =
        λ x.
          rw (next x, append_assoc before (x ∷ []) after) at
            (finalize_loop-each p (before ++ x ∷ []) after)
          ∙ >>=-cong _
              (λ inputs. ap (λ l. ok (with_inputs p l)) (append_assoc before (x ∷ []) inputs)) in
      ap
        (λ r. or_unchanged (with_inputs p (before ++ input ∷ after)) r >>= λ p'.
          finalize_loop sha256 ripemd160 curve (length after) (length before + 1) p')
        (finalize_psbt_input_at p before after input)
      ∙ ap
          (λ r.
            r >>= λ p'. finalize_loop sha256 ripemd160 curve (length after) (length before + 1) p')
          (or_unchanged-map (λ x. with_inputs p (before ++ x ∷ after)) input m)
      ∙ >>=_assoc (or_unchanged input m) (λ x. ok (with_inputs p (before ++ x ∷ after))) _
      ∙ >>=-cong (or_unchanged input m) (λ x.
        step x ∙ sym (>>=_assoc (finalize_each p.unsigned_tx (length before + 1) after) _ _))
      ∙ sym (>>=_assoc (or_unchanged input m) _ _)

  -- `finalize_psbt` finalizes every input by itself: an input becomes what `finalize_psbt_input` makes of
  -- it and of the transaction, or stays as it is where that raises a PsbtError, whatever became of the
  -- inputs before it; all else of the PSBT stays.
  pub finalize_psbt_lem :
      (p : Psbt)
      → finalize_psbt sha256 ripemd160 curve p
        ≡ (finalize_each p.unsigned_tx 0 p.inputs >>= λ inputs. ok (with_inputs p inputs))
  unfolding finalize_psbt
  finalize_psbt_lem p = finalize_loop-each p [] p.inputs

-- What the Finalizer leaves of an input: the input as it was, or a final one that kept its UTXO and its
-- unknown fields and lost the fields of the signing round.
abbrev pub IsSettled : PsbtIn → PsbtIn → Type 0
IsSettled input input' =
    (input' ≡ input) ⊎ (IsFinal input' × IsKept input input' × IsCleared input')

module _ (sha256 ripemd160 : Bytes → Bytes) (curve : Curve) where
  settled :
      (i : ℕ) (vin : Option PsbtTxIn) (input input' : PsbtIn) (m : Result PsbtIn)
      → finalize_input sha256 ripemd160 curve i vin input ≡ m
      → or_unchanged input m ≡ ok input'
      → IsSettled input input'
        × (or_unchanged input' (finalize_input sha256 ripemd160 curve i vin input') ≡ ok input')
  unfolding or_unchanged
  settled i vin input input' (err (psbt raised)) now e =
      let same : input ≡ input' = ok-injective e in
      (
        inl (sym same),
        subst (λ x. or_unchanged x (finalize_input sha256 ripemd160 curve i vin x) ≡ ok x) same
            (rw now),
      )
  settled i vin input input' (ok x) now e =
      let same : x ≡ input' = ok-injective e in
      subst
        (λ x.
          IsSettled input x
          × (or_unchanged x (finalize_input sha256 ripemd160 curve i vin x) ≡ ok x))
        same
        (elim (finalize_input-cases sha256 ripemd160 curve i vin input x now) [
          | inl unchanged ↦ (
            inl unchanged,
            rw (
                subst (λ y. finalize_input sha256 ripemd160 curve i vin y ≡ ok y) (sym unchanged)
                  (now ∙ ap ok unchanged)),
          )
          | inr final ↦ (
            inr (Finalized-IsFinal final, Finalized-IsKept final, Finalized-IsCleared final),
            rw (finalize_input-IsFinal sha256 ripemd160 curve i vin x (Finalized-IsFinal final)),
          )
        ])
  settled i vin input input' (err Error.struct_error) now e = cc
  settled i vin input input' (err Error.index_error) now e = cc
  settled i vin input input' (err Error.value_error) now e = cc
  settled i vin input input' (err Error.overflow_error) now e = cc
  settled i vin input input' (err Error.invalid_multisig_redeem) now e = cc
  settled i vin input input' (err Error.invalid_multisig_tapscript) now e = cc
  settled i vin input input' (err Error.tap_tweak_error) now e = cc
  settled i vin input input' (err Error.out_of_fuel) now e = cc

  finalize_each-IsSettled :
      (tx : PsbtTransaction) (i : ℕ) (inputs inputs' : List PsbtIn)
      → finalize_each sha256 ripemd160 curve tx i inputs ≡ ok inputs'
      → All2 IsSettled inputs inputs'
        × (finalize_each sha256 ripemd160 curve tx i inputs' ≡ ok inputs')
  unfolding finalize_each
  finalize_each-IsSettled tx i [] [] e = (tt, refl)
  finalize_each-IsSettled tx i [] (x ∷ xs) e = cc
  finalize_each-IsSettled tx i (input ∷ inputs) inputs' e =
      let now : Result PsbtIn =
        finalize_input sha256 ripemd160 curve i (get_elem? tx.vin i) input in
      let (x, first, e1) = >>=-eq-ok (or_unchanged input now) _ e in
      let (xs, rest, e2) =
        >>=-eq-ok (finalize_each sha256 ripemd160 curve tx (i + 1) inputs) _ e1 in
      let (here, again) = settled i (get_elem? tx.vin i) input x now refl first in
      let (there, agains) = finalize_each-IsSettled tx (i + 1) inputs xs rest in
      subst
        (λ l.
          All2 IsSettled (input ∷ inputs) l × (finalize_each sha256 ripemd160 curve tx i l ≡ ok l))
        (ok-injective e2) ((here, there), rw (again, agains))

  pub finalize_psbt-each :
      (p p' : Psbt)
      → finalize_psbt sha256 ripemd160 curve p ≡ ok p'
      → (inputs : List PsbtIn) × (p' ≡ with_inputs p inputs)
        × (All2 IsSettled p.inputs inputs)
        × (finalize_each sha256 ripemd160 curve p.unsigned_tx 0 p.inputs ≡ ok inputs)
        × (finalize_each sha256 ripemd160 curve p.unsigned_tx 0 inputs ≡ ok inputs)
  finalize_psbt-each p p' e =
      let (inputs, each, same) =
        >>=-eq-ok (finalize_each sha256 ripemd160 curve p.unsigned_tx 0 p.inputs) _
          (sym (finalize_psbt_lem sha256 ripemd160 curve p) ∙ e) in
      let (all, again) = finalize_each-IsSettled p.unsigned_tx 0 p.inputs inputs each in
      (inputs, sym (ok-injective same), all, each, again)

  -- After `finalize_psbt` the PSBT differs in its inputs alone, and each of them is as it was, or has a
  -- final field, the UTXO and the unknown fields that it had, and no partial signature, sighash type,
  -- redeem script or witness script.
  pub finalize_psbt-IsSettled :
      (p p' : Psbt)
      → finalize_psbt sha256 ripemd160 curve p ≡ ok p'
      → (inputs : List PsbtIn) × (p' ≡ with_inputs p inputs) × (All2 IsSettled p.inputs inputs)
  finalize_psbt-IsSettled p p' e =
      let (inputs, same, all, each, again) = finalize_psbt-each p p' e in (inputs, same, all)

  -- `finalize_psbt` changes nothing of a PSBT that it returned.
  pub finalize_psbt-again :
      (p p' : Psbt)
      → finalize_psbt sha256 ripemd160 curve p ≡ ok p'
      → finalize_psbt sha256 ripemd160 curve p' ≡ ok p'
  finalize_psbt-again p p' e =
      let (inputs, same, all, each, again) = finalize_psbt-each p p' e in
      finalize_psbt_lem sha256 ripemd160 curve p'
      ∙ subst
          (λ q.
            (finalize_each sha256 ripemd160 curve q.unsigned_tx 0 q.inputs >>= λ l.
            ok (with_inputs q l))
            ≡ ok q)
          (sym same) (ap (λ r. r >>= λ l. ok (with_inputs p l)) again)

  or_unchanged-no_PsbtError :
      {A : Type 0} (a : A) (m : Result A) (raised : PsbtError)
      → ¬ (or_unchanged a m ≡ err (psbt raised))
  unfolding or_unchanged
  or_unchanged-no_PsbtError a (ok x) raised = λ e. cc
  or_unchanged-no_PsbtError a (err (psbt r)) raised = λ e. cc
  or_unchanged-no_PsbtError a (err Error.struct_error) raised = λ e. cc
  or_unchanged-no_PsbtError a (err Error.index_error) raised = λ e. cc
  or_unchanged-no_PsbtError a (err Error.value_error) raised = λ e. cc
  or_unchanged-no_PsbtError a (err Error.overflow_error) raised = λ e. cc
  or_unchanged-no_PsbtError a (err Error.invalid_multisig_redeem) raised = λ e. cc
  or_unchanged-no_PsbtError a (err Error.invalid_multisig_tapscript) raised = λ e. cc
  or_unchanged-no_PsbtError a (err Error.tap_tweak_error) raised = λ e. cc
  or_unchanged-no_PsbtError a (err Error.out_of_fuel) raised = λ e. cc

  bind-no_PsbtError :
      {A B : Type 0} (m : Result A) (next : A → Result B) (raised : PsbtError)
      → ¬ (m ≡ err (psbt raised))
      → ((a : A) → ¬ (next a ≡ err (psbt raised)))
      → ¬ ((m >>= next) ≡ err (psbt raised))
  bind-no_PsbtError (ok a) next raised here there = there a
  bind-no_PsbtError (err e) next raised here there = λ h. here (err-injective h)
    where
      err-injective :
          {A B : Type 0} {e : Error}
          → ◌≡◌ {A = Result B} (err e) (err (psbt raised))
          → ◌≡◌ {A = Result A} (err e) (err (psbt raised))
      err-injective h = cc

  each-no_PsbtError :
      (tx : PsbtTransaction) (i : ℕ) (inputs : List PsbtIn) (raised : PsbtError)
      → ¬ (finalize_each sha256 ripemd160 curve tx i inputs ≡ err (psbt raised))
  unfolding finalize_each
  each-no_PsbtError tx i [] raised = λ e. cc
  each-no_PsbtError tx i (input ∷ inputs) raised =
      bind-no_PsbtError _ _ raised (or_unchanged-no_PsbtError input _ raised) (λ x.
        bind-no_PsbtError _ _ raised (each-no_PsbtError tx (i + 1) inputs raised) (λ xs e. cc))

  -- `finalize_psbt` raises no PsbtError.
  pub finalize_psbt-no_PsbtError :
      (p : Psbt) (raised : PsbtError)
      → ¬ (finalize_psbt sha256 ripemd160 curve p ≡ err (psbt raised))
  finalize_psbt-no_PsbtError p raised = λ e.
      bind-no_PsbtError (finalize_each sha256 ripemd160 curve p.unsigned_tx 0 p.inputs)
        (λ l. ok (with_inputs p l)) raised (each-no_PsbtError p.unsigned_tx 0 p.inputs raised)
        (λ xs h. cc) (sym (finalize_psbt_lem sha256 ripemd160 curve p) ∙ e)
