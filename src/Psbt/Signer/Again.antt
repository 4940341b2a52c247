-- ===== src/Psbt/Signer/Again.antt =====
-- `sign_psbt_input` on a PSBT, and again on the PSBT that it signed.
use yubtc_python.Prelude.{
  ℕ, zero, suc, ◌≡◌, ◌∙◌, refl, sym, ap, ap₂, List, [], ◌∷◌, ◌⊎◌, inl, inr, get_elem?, Bool, true,
  Option, none, some, Result, ok, >>=-eq-ok, ok-injective, arith, ◌↔◌,
}
use yubtc_python.Prelude.Bytes.{Bytes, index}
use yubtc_python.Transaction.Signing.{Coincurve, update}
use yubtc_python.Transaction.Taproot.{Curve}
use yubtc_python.Psbt.Tx.{PsbtTxIn}
use yubtc_python.Psbt.Model.{PsbtIn, Psbt}
use yubtc_python.Psbt.Utxo.{set_input, input_data, input_utxo_data, utxo_data}
use yubtc_python.Psbt.Signer.{sign_by_script, sign_known, sign_psbt_input}
use yubtc_python.Psbt.Signer.Adds.{IsSigning, signing-keeps}
use yubtc_python.Psbt.Signer.Branches.{by_script-IsOutcome}

-- The input that the Signer changed, behind the change.
pub get_elem?-update {ℓ} :
    {A : Type ℓ} (f : A → A) (i : ℕ) (xs : List A) (x : A)
    → get_elem? xs i ≡ some x
    → get_elem? (update f i xs) i ≡ some (f x)
unfolding update
get_elem?-update f i [] x e = cc
get_elem?-update f zero (y ∷ ys) x e = ground arith
get_elem?-update f (suc i) (y ∷ ys) x e = get_elem?-update f i ys x e

index-get_elem? {ℓ} :
    {A : Type ℓ} (xs : List A) (i : ℕ) (x : A) → (index xs i ≡ ok x) ↔ (get_elem? xs i ≡ some x)
index-get_elem? [] i x = (λ e. cc, λ e. cc)
index-get_elem? (y ∷ ys) zero x = (λ e. ground arith, λ e. ground arith)
index-get_elem? (y ∷ ys) (suc i) x = index-get_elem? ys i x

index-update {ℓ} :
    {A : Type ℓ} (f : A → A) (i : ℕ) (xs : List A) (x : A)
    → index xs i ≡ ok x
    → index (update f i xs) i ≡ ok (f x)
index-update f i xs x e =
    (index-get_elem? (update f i xs) i (f x)).1
      (get_elem?-update f i xs x ((index-get_elem? xs i x).0 e))

-- A signature does not change the UTXO of the input.
data-set_input :
    {pubkey : Bytes} {f : PsbtIn → PsbtIn} (p : Psbt) (i : ℕ) (x : PsbtIn)
    → IsSigning pubkey f
    → index p.inputs i ≡ ok x
    → input_utxo_data (set_input p i f) i ≡ input_utxo_data p i
unfolding input_utxo_data set_input input_data
data-set_input {f = f} p i x s e =
    let at_i : get_elem? p.inputs i ≡ some x = (index-get_elem? p.inputs i x).0 e in
    let kept = signing-keeps s x in
    let vin : Option PsbtTxIn = get_elem? p.unsigned_tx.vin i in
    ap (λ o. input_data o vin) (get_elem?-update f i p.inputs x at_i)
    ∙ ap₂ (λ prev utxo. utxo_data utxo prev vin) kept.4 kept.5
    ∙ sym (ap (λ o. input_data o vin) at_i)

index-set_input :
    (p : Psbt) (i : ℕ) (f : PsbtIn → PsbtIn) (x : PsbtIn)
    → index p.inputs i ≡ ok x
    → index (set_input p i f).inputs i ≡ ok (f x)
unfolding set_input
index-set_input p i f x e = index-update f i p.inputs x e

module _ (sha256 ripemd160 : Bytes → Bytes) (lib : Coincurve) (curve : Curve) (i : ℕ)
    (privkey : lib.PrivateKey) where
  abbrev sign_run : Psbt → Result (Psbt × Bool)
  sign_run q = sign_psbt_input sha256 ripemd160 lib curve q i privkey

  rerun_at :
      (q : Psbt) (script : Bytes) (amount : ℕ) (x : PsbtIn) (r : Psbt × Bool)
      → input_utxo_data q i ≡ some (script, amount)
      → index q.inputs i ≡ ok x
      → sign_by_script sha256 ripemd160 lib curve q i x privkey script amount ≡ ok r
      → sign_run q ≡ ok r
  unfolding sign_psbt_input sign_known
  rerun_at q script amount x r data' at_i again = rw (data', at_i) again

  rerun :
      (p p' : Psbt) (script : Bytes) (amount : ℕ) (input : PsbtIn) {f : PsbtIn → PsbtIn}
      → IsSigning (lib.public_key privkey) f
      → p' ≡ set_input p i f
      → index p.inputs i ≡ ok input
      → input_utxo_data p i ≡ some (script, amount)
      → sign_by_script sha256 ripemd160 lib curve p' i (f input) privkey script amount
        ≡ ok (p', true)
      → sign_run p' ≡ ok (p', true)
  rerun p p' script amount input {f} signing is_set at_i d again =
      rerun_at p' script amount (f input) (p', true)
        (ap (λ q. input_utxo_data q i) is_set ∙ data-set_input p i input signing at_i ∙ d)
        (ap (λ (q : Psbt). index q.inputs i) is_set ∙ index-set_input p i f input at_i) again

  known-again :
      (p p' : Psbt) (b : Bool) (data' : Option (Bytes × ℕ))
      → input_utxo_data p i ≡ data'
      → sign_known sha256 ripemd160 lib curve data' p i privkey ≡ ok (p', b)
      → (p' ≡ p)
        ⊎ ((b ≡ true)
            × (f : PsbtIn → PsbtIn) × IsSigning (lib.public_key privkey) f
            × (p' ≡ set_input p i f)
            × (sign_run p' ≡ ok (p', true)))
  unfolding sign_known
  known-again p p' b none d e = inl (sym (ap (λ (r : Psbt × Bool). r.0) (ok-injective e)))
  known-again p p' b (some (script, amount)) d e =
      let (input, at_i, e1) = >>=-eq-ok (index p.inputs i) _ e in
      elim (by_script-IsOutcome sha256 ripemd160 lib curve i privkey script p input p' b amount
        e1) [
          | inl unchanged ↦ inl unchanged
          | inr (signed, f, signing, is_set, again) ↦ inr (
            signed,
            f,
            signing,
            is_set,
            rerun p p' script amount input signing is_set at_i d again,
          )
        ]

  -- `sign_psbt_input` leaves the PSBT as it was, or it returns true and has added, to the input alone, a
  -- partial signature or a tapscript signature under the key that signs; on a PSBT that it has so changed,
  -- it returns true again and changes nothing.
  pub sign_psbt_input-IsSigning :
      (p p' : Psbt) (b : Bool)
      → sign_run p ≡ ok (p', b)
      → (p' ≡ p)
        ⊎ ((b ≡ true)
            × (f : PsbtIn → PsbtIn) × IsSigning (lib.public_key privkey) f
            × (p' ≡ set_input p i f)
            × (sign_run p' ≡ ok (p', true)))
  unfolding sign_psbt_input
  sign_psbt_input-IsSigning p p' b e = known-again p p' b (input_utxo_data p i) refl e
