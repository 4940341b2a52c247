-- ===== src/Psbt/Lifecycle/Extracts.antt =====
-- What the Extractor makes of a PSBT at the end of its life.
use yubtc_python.Prelude.{
  ℕ, zero, suc, ◌+◌, ◌≡◌, ◌∙◌, refl, sym, ap, ap₂, List, [], ◌∷◌, length, map, drop, inl, inr,
  get_elem?, Option, none, some, Result, ok, >>=-eq-ok, ok-injective, guard, psbt,
  foreign_transaction, arith,
}
use yubtc_python.Prelude.Bytes.{Bytes, bytes_eq}
use yubtc_python.Transaction.Signing.{Coincurve, update}
use yubtc_python.Transaction.Taproot.{Curve}
use yubtc_python.Psbt.Tx.{PsbtTxIn, PsbtTransaction, serialize_stripped}
use yubtc_python.Psbt.Model.{PsbtIn, Psbt}
use yubtc_python.Psbt.Merge.{merge_unknown, merge_input, merge_output, zip_merge, combine_psbt}
use yubtc_python.Psbt.Utxo.{set_input}
use yubtc_python.Psbt.Finalizer.{finalize_input, finalize_at, finalize_psbt_input, or_unchanged}
use yubtc_python.Psbt.Finalizer.Each.{finalize_psbt-each, finalize_each}
use yubtc_python.Psbt.Signer.Again.{sign_psbt_input-IsSigning}
use yubtc_python.Psbt.Extractor.{extract_transaction}
use yubtc_python.Psbt.Extractor.Skeleton.{IsSpendOf, IsSkeletonFrom, extract_transaction-IsSkeleton}
use yubtc_python.Psbt.Lifecycle.{Step, Reach, signs, combines, finalizes_one, finalizes, here, next}
use yubtc_python.Psbt.Lifecycle.Grows.{Reach-PsbtGrows}

-- A transaction without the scripts and the witnesses of its inputs.
abbrev pub unscripted_in : PsbtTxIn → PsbtTxIn
unscripted_in vin = record vin { script = []; witness = [] }

abbrev pub unscripted : PsbtTransaction → PsbtTransaction
unscripted tx = record tx { vin = map unscripted_in tx.vin }

get_elem?-drop {ℓ} :
    {A : Type ℓ} (xs : List A) (i : ℕ) (x : A)
    → get_elem? xs i ≡ some x
    → drop i xs ≡ x ∷ drop (i + 1) xs
get_elem?-drop [] i x e = cc
get_elem?-drop (y ∷ ys) zero x e = ground arith
get_elem?-drop (y ∷ ys) (suc i) x e =
    let next : suc i + 1 ≡ suc (i + 1) = omega arith in rw next (get_elem?-drop ys i x e)

drop_all {ℓ} : {A : Type ℓ} (xs : List A) (i : ℕ) → length xs ≡ i → drop i xs ≡ []
drop_all [] zero h = refl
drop_all [] (suc i) h = refl
drop_all (x ∷ xs) zero h = absurd (omega arith)
drop_all (x ∷ xs) (suc i) h = drop_all xs i (omega arith)

IsSpendOf-unscripted :
    (unsigned vin : PsbtTxIn)
    → IsSpendOf (some unsigned) vin
    → unscripted_in vin ≡ unscripted_in unsigned
IsSpendOf-unscripted unsigned vin h =
    ap (λ t. unscripted_in (record vin { txhash = t })) h.0
    ∙ ap (λ n. unscripted_in (record vin { txhash = unsigned.txhash; n = n })) h.1
    ∙ ap (λ t. unscripted_in (record unsigned { sequence = t })) h.2

-- Inputs that keep all inputs of the unsigned transaction from input `i` on.
IsSkeletonFrom-unscripted :
    (tx : PsbtTransaction) (i : ℕ) (vins : List PsbtTxIn)
    → IsSkeletonFrom tx i vins
    → i + length vins ≡ length tx.vin
    → map unscripted_in vins ≡ map unscripted_in (drop i tx.vin)
IsSkeletonFrom-unscripted tx i [] h count =
    sym (ap (map unscripted_in) (drop_all tx.vin i (omega arith)))
IsSkeletonFrom-unscripted tx i (vin ∷ vins) h count =
    go (get_elem? tx.vin i) refl h.0 (IsSkeletonFrom-unscripted tx (i + 1) vins h.1 (omega arith))
  where
    go :
        (unsigned : Option PsbtTxIn)
        → get_elem? tx.vin i ≡ unsigned
        → IsSpendOf unsigned vin
        → map unscripted_in vins ≡ map unscripted_in (drop (i + 1) tx.vin)
        → map unscripted_in (vin ∷ vins) ≡ map unscripted_in (drop i tx.vin)
    go none at_i spend rest = absurd spend
    go (some unsigned) at_i spend rest =
        ap₂ (λ v vs. v ∷ vs) (IsSpendOf-unscripted unsigned vin spend) rest
        ∙ sym (ap (map unscripted_in) (get_elem?-drop tx.vin i unsigned at_i))

extract_transaction-unscripted :
    (p : Psbt) (tx : PsbtTransaction)
    → extract_transaction p ≡ ok tx
    → length p.inputs ≡ length p.unsigned_tx.vin
    → unscripted tx ≡ unscripted p.unsigned_tx
extract_transaction-unscripted p tx e parallel =
    let (finals, count, (version, vout, locktime, each)) = extract_transaction-IsSkeleton p tx e in
    let vin : map unscripted_in tx.vin ≡ map unscripted_in p.unsigned_tx.vin =
      IsSkeletonFrom-unscripted p.unsigned_tx 0 tx.vin each (omega (arith, count, parallel)) in
    ap (λ v. record (unscripted tx) { version = v }) version
    ∙ ap (λ vs. record (unscripted tx) { version = p.unsigned_tx.version; vin = vs }) vin
    ∙ ap (λ outs. record (unscripted p.unsigned_tx) { vout = outs; locktime = tx.locktime }) vout
    ∙ ap (λ time. record (unscripted p.unsigned_tx) { locktime = time }) locktime

-- How many inputs a step leaves.
length-update {ℓ} :
    {A : Type ℓ} (f : A → A) (i : ℕ) (xs : List A) → length (update f i xs) ≡ length xs
unfolding update
length-update f i [] = refl
length-update f zero (x ∷ xs) = refl
length-update f (suc i) (x ∷ xs) = ap suc (length-update f i xs)

length-zip_merge {ℓ} :
    {A : Type ℓ} (merge : A → A → Result A) (xs ys zs : List A)
    → zip_merge merge xs ys ≡ ok zs
    → length ys ≡ length xs
    → length zs ≡ length xs
unfolding zip_merge
length-zip_merge merge [] ys zs e h = sym (ap length (ok-injective e))
length-zip_merge merge (x ∷ xs) [] zs e h = absurd (omega arith)
length-zip_merge merge (x ∷ xs) (y ∷ ys) zs e h =
    let (z, _, e1) = >>=-eq-ok (merge x y) _ e in
    let (rest, more, e2) = >>=-eq-ok (zip_merge merge xs ys) _ e1 in
    sym (ap length (ok-injective e2))
    ∙ ap suc (length-zip_merge merge xs ys rest more (omega arith))

combine-length :
    (p other p' : Psbt)
    → combine_psbt p other ≡ ok p'
    → length other.inputs ≡ length p.inputs
    → length p'.inputs ≡ length p.inputs
unfolding combine_psbt
combine-length p other p' e h =
    let (tx, _, e1) = >>=-eq-ok (serialize_stripped p.unsigned_tx) _ e in
    let (other_tx, _, e2) = >>=-eq-ok (serialize_stripped other.unsigned_tx) _ e1 in
    let (_, _, e3) = >>=-eq-ok (guard (bytes_eq tx other_tx) (psbt foreign_transaction)) _ e2 in
    let (_, _, e4) = >>=-eq-ok (merge_unknown p.unknown_global other.unknown_global) _ e3 in
    let (inputs, merged, e5) = >>=-eq-ok (zip_merge merge_input p.inputs other.inputs) _ e4 in
    let (_, _, e6) = >>=-eq-ok (zip_merge merge_output p.outputs other.outputs) _ e5 in
    sym (ap (λ (q : Psbt). length q.inputs) (ok-injective e6))
    ∙ length-zip_merge merge_input p.inputs other.inputs inputs merged h

set_input-length :
    (p : Psbt) (i : ℕ) (f : PsbtIn → PsbtIn) → length (set_input p i f).inputs ≡ length p.inputs
unfolding set_input
set_input-length p i f = length-update f i p.inputs

module _ (sha256 ripemd160 : Bytes → Bytes) (lib : Coincurve) (curve : Curve) where
  finalize_at-length :
      (p : Psbt) (i : ℕ) (o : Option PsbtIn) (p' : Psbt)
      → finalize_at sha256 ripemd160 curve p i o ≡ ok p'
      → length p'.inputs ≡ length p.inputs
  unfolding finalize_at
  finalize_at-length p i none p' e = cc
  finalize_at-length p i (some input) p' e =
      let (input', _, e1) =
        >>=-eq-ok (finalize_input sha256 ripemd160 curve i (get_elem? p.unsigned_tx.vin i) input) _
          e in
      sym (ap (λ (q : Psbt). length q.inputs) (ok-injective e1))
      ∙ set_input-length p i (λ _. input')

  finalize_each-length :
      (tx : PsbtTransaction) (i : ℕ) (xs ys : List PsbtIn)
      → finalize_each sha256 ripemd160 curve tx i xs ≡ ok ys
      → length ys ≡ length xs
  unfolding finalize_each
  finalize_each-length tx i [] ys e = sym (ap length (ok-injective e))
  finalize_each-length tx i (x ∷ xs) ys e =
      let (y, _, e1) =
        >>=-eq-ok (or_unchanged x (finalize_input sha256 ripemd160 curve i (get_elem? tx.vin i) x))
          _ e in
      let (rest, more, e2) = >>=-eq-ok (finalize_each sha256 ripemd160 curve tx (i + 1) xs) _ e1 in
      sym (ap length (ok-injective e2)) ∙ ap suc (finalize_each-length tx (i + 1) xs rest more)

  -- The PSBTs that the Combiner takes have as many inputs as those they are merged into.
  abbrev pub IsWholeStep : {p p' : Psbt} → Step sha256 ripemd160 lib curve p p' → Type 0
  IsWholeStep (signs i privkey b e) = Unit
  IsWholeStep {p} (combines other e) = length other.inputs ≡ length p.inputs
  IsWholeStep (finalizes_one i e) = Unit
  IsWholeStep (finalizes e) = Unit

  abbrev pub AreWholeSteps : {p p' : Psbt} → Reach sha256 ripemd160 lib curve p p' → Type 0
  AreWholeSteps here = Unit
  AreWholeSteps (next before step) = AreWholeSteps before × IsWholeStep step

  Step-length :
      {p p' : Psbt} (step : Step sha256 ripemd160 lib curve p p')
      → IsWholeStep step
      → length p'.inputs ≡ length p.inputs
  Step-length {p} {p'} (signs i privkey b e) h =
      elim (sign_psbt_input-IsSigning sha256 ripemd160 lib curve i privkey p p' b e) [
        | inl same ↦ ap (λ (q : Psbt). length q.inputs) same
        | inr (_, f, _, is_set, _) ↦
            ap (λ (q : Psbt). length q.inputs) is_set ∙ set_input-length p i f
      ]
  Step-length {p} {p'} (combines other e) h = combine-length p other p' e h
  Step-length {p} {p'} (finalizes_one i e) h =
      finalize_at-length p i (get_elem? p.inputs i) p' (unfold finalize_psbt_input in e)
  Step-length {p} {p'} (finalizes e) h =
      let (inputs, same, _, each, _) = finalize_psbt-each sha256 ripemd160 curve p p' e in
      ap (λ (q : Psbt). length q.inputs) same
      ∙ finalize_each-length p.unsigned_tx 0 p.inputs inputs each

  Reach-length :
      {p p' : Psbt} (reach : Reach sha256 ripemd160 lib curve p p')
      → AreWholeSteps reach
      → length p'.inputs ≡ length p.inputs
  Reach-length here h = refl
  Reach-length (next before step) h = Step-length step h.1 ∙ Reach-length before h.0

  -- From a PSBT with an input for each input of its transaction, through any number of steps of the Signer,
  -- the Combiner and the Finalizer, in any order, where the PSBTs that the Combiner takes have as many
  -- inputs: the transaction that the Extractor makes at the end is the unsigned transaction of the start, up
  -- to the scripts and the witnesses of its inputs.
  pub Reach-unscripted :
      {p p' : Psbt} (tx : PsbtTransaction) (reach : Reach sha256 ripemd160 lib curve p p')
      → AreWholeSteps reach
      → length p.inputs ≡ length p.unsigned_tx.vin
      → extract_transaction p' ≡ ok tx
      → unscripted tx ≡ unscripted p.unsigned_tx
  Reach-unscripted {p} {p'} tx reach whole parallel e =
      let (_, same, _) = Reach-PsbtGrows sha256 ripemd160 lib curve reach in
      let parallel' : length p'.inputs ≡ length p'.unsigned_tx.vin =
        Reach-length reach whole
        ∙ parallel
        ∙ sym (ap (λ (t : PsbtTransaction). length t.vin) same) in
      extract_transaction-unscripted p' tx e parallel' ∙ ap unscripted same
