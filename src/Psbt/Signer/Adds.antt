-- ===== src/Psbt/Signer/Adds.antt =====
-- What the Signer changes, and what it makes of an input that it has signed.
use yubtc_python.Prelude.{
  ℕ, ◌≡◌, ◌∙◌, refl, sym, ap, subst, List, [], ◌∷◌, ◌⊎◌, inl, inr, Bool, true, false, Option, none,
  some, Result, ok, err, ◌>>=◌, >>=-eq-ok, ok-injective, arith,
}
use yubtc_python.Prelude.Bytes.{Bytes, bytes_eq_refl, slice}
use yubtc_python.Psbt.KeyValue.{Pair}
use yubtc_python.Psbt.Model.{PsbtIn, Psbt, TapScriptSig}
use yubtc_python.Psbt.Merge.{insert_tap_script_sig}
use yubtc_python.Psbt.Utxo.{set_input, sighash_default}
use yubtc_python.Psbt.Signer.{
  insert_partial_sig, has_partial_sig, has_tap_sig, check_sighash_type, add_partial_sig,
  add_tap_sig, put_partial_sig, put_tap_sig, unless_signed, check_prev, sign_member_ecdsa,
  sign_member_tap,
}

inserted :
    (sigs : List Pair) (pubkey sig : Bytes)
    → has_partial_sig pubkey (insert_partial_sig sigs pubkey sig) ≡ true
unfolding has_partial_sig insert_partial_sig
inserted [] pubkey sig = ground (arith, bytes_eq_refl pubkey)
inserted ((k, s) ∷ sigs) pubkey sig = ground (arith, bytes_eq_refl pubkey, inserted sigs pubkey sig)

tap_inserted :
    (sigs : List TapScriptSig) (entry : TapScriptSig)
    → has_tap_sig entry.x_only entry.leaf_hash (insert_tap_script_sig sigs entry) ≡ true
unfolding has_tap_sig insert_tap_script_sig
tap_inserted [] entry = ground (arith, bytes_eq_refl entry.x_only, bytes_eq_refl entry.leaf_hash)
tap_inserted (s ∷ sigs) entry =
    ground
      (arith, bytes_eq_refl entry.x_only, bytes_eq_refl entry.leaf_hash, tap_inserted sigs entry)

-- The change of an input by a signature under a key.
pub data IsSigning (pubkey : Bytes) : (PsbtIn → PsbtIn) → Type 0 where
  by_partial_sig : (sig : Bytes) → IsSigning pubkey (add_partial_sig pubkey sig)
  by_tap_sig :
      (leaf_hash sig : Bytes)
      → IsSigning pubkey
          (add_tap_sig (record { x_only = slice pubkey 1 33; leaf_hash = leaf_hash; sig = sig }))

-- A run of the Signer left the PSBT as it was, or added a signature, and then a run on the result ends
-- well and adds nothing.
abbrev pub IsOutcome :
    Bytes → Psbt → ℕ → PsbtIn → (Psbt → PsbtIn → Result (Psbt × Bool)) → Psbt → Bool → Type 0
IsOutcome pubkey p i input run p' b =
    (p' ≡ p)
    ⊎ ((b ≡ true)
        × (f : PsbtIn → PsbtIn) × IsSigning pubkey f
        × (p' ≡ set_input p i f)
        × (run p' (f input) ≡ ok (p', true)))

module _ (sha256 : Bytes → Bytes) (p : Psbt) (i : ℕ) (input : PsbtIn) where
  module _ (pinned : ℕ) (pubkey : Bytes) (make : Psbt → Result (Option Bytes)) where
    ecdsa_again :
        (sig : Bytes)
        → check_sighash_type input.sighash_type pinned ≡ ok tt
        → check_prev sha256 p.unsigned_tx i input.non_witness_utxo ≡ ok tt
        → sign_member_ecdsa sha256
            (set_input p i (add_partial_sig pubkey sig))
            i
            (add_partial_sig pubkey sig input)
            pinned
            pubkey
            (make (set_input p i (add_partial_sig pubkey sig)))
          ≡ ok (set_input p i (add_partial_sig pubkey sig), true)
    unfolding sign_member_ecdsa set_input add_partial_sig unless_signed
    ecdsa_again sig typed prev = rw (typed, prev, inserted input.partial_sigs pubkey sig)

    ecdsa_ends :
        (signed : Bool) (made : Result (Option Bytes)) (p' : Psbt) (b : Bool)
        → unless_signed signed p (made >>= λ sig. ok (put_partial_sig p i pubkey sig)) ≡ ok (p', b)
        → check_sighash_type input.sighash_type pinned ≡ ok tt
        → check_prev sha256 p.unsigned_tx i input.non_witness_utxo ≡ ok tt
        → IsOutcome pubkey p i input
            (λ q x. sign_member_ecdsa sha256 q i x pinned pubkey (make q))
            p'
            b
    unfolding unless_signed put_partial_sig
    ecdsa_ends true made p' b e typed prev =
        inl (sym (ap (λ (r : Psbt × Bool). r.0) (ok-injective e)))
    ecdsa_ends false (err raised) p' b e typed prev = cc
    ecdsa_ends false (ok none) p' b e typed prev =
        inl (sym (ap (λ (r : Psbt × Bool). r.0) (ok-injective e)))
    ecdsa_ends false (ok (some sig)) p' b e typed prev =
        subst
          (λ (r : Psbt × Bool).
            IsOutcome pubkey p i input
              (λ q x. sign_member_ecdsa sha256 q i x pinned pubkey (make q)) r.0 r.1)
          (ok-injective e)
          (inr (
            refl,
            add_partial_sig pubkey sig,
            by_partial_sig sig,
            refl,
            ecdsa_again sig typed prev,
          ))

    -- The end of the branches that sign by ECDSA or by the key path: `make` is the signature that a run
    -- on a PSBT would make.
    pub ecdsa-IsOutcome :
        (p' : Psbt) (b : Bool)
        → sign_member_ecdsa sha256 p i input pinned pubkey (make p) ≡ ok (p', b)
        → IsOutcome pubkey p i input
            (λ q x. sign_member_ecdsa sha256 q i x pinned pubkey (make q))
            p'
            b
    unfolding sign_member_ecdsa
    ecdsa-IsOutcome p' b e =
        let (_, typed, e1) = >>=-eq-ok (check_sighash_type input.sighash_type pinned) _ e in
        let (_, prev, e2) =
          >>=-eq-ok (check_prev sha256 p.unsigned_tx i input.non_witness_utxo) _ e1 in
        ecdsa_ends (has_partial_sig pubkey input.partial_sigs) (make p) p' b e2 typed prev

  module _ (pubkey leaf_hash : Bytes) (make : Psbt → Result (Option Bytes)) where
    abbrev with_entry : Bytes → PsbtIn → PsbtIn
    with_entry sig =
        add_tap_sig (record { x_only = slice pubkey 1 33; leaf_hash = leaf_hash; sig = sig })

    tap_again :
        (sig : Bytes)
        → check_sighash_type input.sighash_type sighash_default ≡ ok tt
        → check_prev sha256 p.unsigned_tx i input.non_witness_utxo ≡ ok tt
        → sign_member_tap sha256
            (set_input p i (with_entry sig))
            i
            (with_entry sig input)
            (slice pubkey 1 33)
            leaf_hash
            (make (set_input p i (with_entry sig)))
          ≡ ok (set_input p i (with_entry sig), true)
    unfolding sign_member_tap set_input add_tap_sig unless_signed
    tap_again sig typed prev = rw (
      typed,
      prev,
      tap_inserted input.tap_script_sigs
          (record { x_only = slice pubkey 1 33; leaf_hash = leaf_hash; sig = sig }),
    )

    tap_ends :
        (signed : Bool) (made : Result (Option Bytes)) (p' : Psbt) (b : Bool)
        → unless_signed signed p
            (made >>= λ sig. ok (put_tap_sig p i (slice pubkey 1 33) leaf_hash sig))
          ≡ ok (p', b)
        → check_sighash_type input.sighash_type sighash_default ≡ ok tt
        → check_prev sha256 p.unsigned_tx i input.non_witness_utxo ≡ ok tt
        → IsOutcome pubkey p i input
            (λ q x. sign_member_tap sha256 q i x (slice pubkey 1 33) leaf_hash (make q))
            p'
            b
    unfolding unless_signed put_tap_sig
    tap_ends true made p' b e typed prev =
        inl (sym (ap (λ (r : Psbt × Bool). r.0) (ok-injective e)))
    tap_ends false (err raised) p' b e typed prev = cc
    tap_ends false (ok none) p' b e typed prev =
        inl (sym (ap (λ (r : Psbt × Bool). r.0) (ok-injective e)))
    tap_ends false (ok (some sig)) p' b e typed prev =
        subst
          (λ (r : Psbt × Bool).
            IsOutcome pubkey p i input
              (λ q x. sign_member_tap sha256 q i x (slice pubkey 1 33) leaf_hash (make q)) r.0 r.1)
          (ok-injective e)
          (inr (refl, with_entry sig, by_tap_sig leaf_hash sig, refl, tap_again sig typed prev))

    pub tap-IsOutcome :
        (p' : Psbt) (b : Bool)
        → sign_member_tap sha256 p i input (slice pubkey 1 33) leaf_hash (make p) ≡ ok (p', b)
        → IsOutcome pubkey p i input
            (λ q x. sign_member_tap sha256 q i x (slice pubkey 1 33) leaf_hash (make q))
            p'
            b
    unfolding sign_member_tap
    tap-IsOutcome p' b e =
        let (_, typed, e1) =
          >>=-eq-ok (check_sighash_type input.sighash_type sighash_default) _ e in
        let (_, prev, e2) =
          >>=-eq-ok (check_prev sha256 p.unsigned_tx i input.non_witness_utxo) _ e1 in
        tap_ends (has_tap_sig (slice pubkey 1 33) leaf_hash input.tap_script_sigs) (make p) p' b e2
          typed prev

-- A run that goes through the same branch.
pub IsOutcome-through :
    (pubkey : Bytes) (p : Psbt) (i : ℕ) (input : PsbtIn)
    (run run' : Psbt → PsbtIn → Result (Psbt × Bool)) (p' : Psbt) (b : Bool)
    → ((q : Psbt) (f : PsbtIn → PsbtIn) → IsSigning pubkey f → run' q (f input) ≡ run q (f input))
    → IsOutcome pubkey p i input run p' b
    → IsOutcome pubkey p i input run' p' b
IsOutcome-through pubkey p i input run run' p' b same (inl unchanged) = inl unchanged
IsOutcome-through pubkey p i input run run' p' b same (inr (signed, f, is_signing, is_set, again)) =
    inr (signed, f, is_signing, is_set, same p' f is_signing ∙ again)

-- What a signature leaves of an input.
pub signing-keeps :
    {pubkey : Bytes} {f : PsbtIn → PsbtIn}
    → IsSigning pubkey f
    → (x : PsbtIn)
    → ((f x).redeem_script ≡ x.redeem_script)
      × ((f x).witness_script ≡ x.witness_script)
      × ((f x).tap_leaf_scripts ≡ x.tap_leaf_scripts)
      × ((f x).tap_merkle_root ≡ x.tap_merkle_root)
      × ((f x).non_witness_utxo ≡ x.non_witness_utxo)
      × ((f x).witness_utxo ≡ x.witness_utxo)
unfolding add_partial_sig add_tap_sig
signing-keeps (by_partial_sig sig) x = (refl, refl, refl, refl, refl, refl)
signing-keeps (by_tap_sig leaf_hash sig) x = (refl, refl, refl, refl, refl, refl)

pub no-IsOutcome :
    (pubkey : Bytes) (p : Psbt) (i : ℕ) (input : PsbtIn)
    (run : Psbt → PsbtIn → Result (Psbt × Bool)) (p' : Psbt) (b : Bool)
    → ◌≡◌ {A = Result (Psbt × Bool)} (ok (p, false)) (ok (p', b))
    → IsOutcome pubkey p i input run p' b
no-IsOutcome pubkey p i input run p' b e =
    inl (sym (ap (λ (r : Psbt × Bool). r.0) (ok-injective e)))
