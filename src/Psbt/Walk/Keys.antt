-- ===== src/Psbt/Walk/Keys.antt =====
-- The walk of `sign_psbt` as one pass of every key over the inputs that are still missing.
use yubtc_python.Prelude.{
  ℕ, zero, suc, ◌+◌, ◌≡◌, ◌∙◌, refl, sym, ap, List, [], ◌∷◌, ◌++◌, length, replicate, map,
  if◌then◌else◌, Bool, true, false, Bool-cases, inl, inr, Result, ok, err, ◌>>=◌, >>=-cong,
  >>=-cong_of, >>=_assoc, psbt, struct_error, index_error, value_error, overflow_error,
  invalid_multisig_redeem, invalid_multisig_tapscript, tap_tweak_error, out_of_fuel, invalid_magic,
  truncated, non_minimal_compact_size, duplicate_key, missing_unsigned_tx, invalid_unsigned_tx,
  map_count_mismatch, invalid_field_value, unsupported_input_script, utxo_mismatch,
  conflicting_field, foreign_transaction, not_finalized, too_large, invalid_key_length,
  unsupported_version, unsupported_sighash_type, incomplete_input,
}
use yubtc_python.Prelude.Bytes.{Bytes}
use yubtc_python.Transaction.Signing.{Coincurve}
use yubtc_python.Transaction.Taproot.{Curve}
use yubtc_python.Psbt.Model.{Psbt}
use yubtc_python.Psbt.Signer.{sign_psbt_input}
use yubtc_python.Psbt.Walk.{
  AddrType, legacy, native, taproot, addr_types, all_signed, or_skipped, unsigned_from, sign_inputs,
  sign_forms, sign_nonces, sign_psbt, is_skipped, skip_or_raise,
}

-- A try to sign: a sighash type that is not supported counts as not signed, other errors pass.
abbrev pub tried : Psbt → Result (Psbt × Bool) → Result (Psbt × Bool)
tried p (ok r) = ok r
tried p (err (psbt (unsupported_sighash_type n))) = ok (p, false)
tried p (err raised) = err raised

or_skipped-tried : (p : Psbt) (m : Result (Psbt × Bool)) → or_skipped p m ≡ tried p m
unfolding or_skipped is_skipped skip_or_raise
or_skipped-tried p (ok r) = refl
or_skipped-tried p (err struct_error) = refl
or_skipped-tried p (err index_error) = refl
or_skipped-tried p (err value_error) = refl
or_skipped-tried p (err overflow_error) = refl
or_skipped-tried p (err invalid_multisig_redeem) = refl
or_skipped-tried p (err invalid_multisig_tapscript) = refl
or_skipped-tried p (err tap_tweak_error) = refl
or_skipped-tried p (err out_of_fuel) = refl
or_skipped-tried p (err (psbt invalid_magic)) = refl
or_skipped-tried p (err (psbt truncated)) = refl
or_skipped-tried p (err (psbt non_minimal_compact_size)) = refl
or_skipped-tried p (err (psbt duplicate_key)) = refl
or_skipped-tried p (err (psbt missing_unsigned_tx)) = refl
or_skipped-tried p (err (psbt invalid_unsigned_tx)) = refl
or_skipped-tried p (err (psbt map_count_mismatch)) = refl
or_skipped-tried p (err (psbt invalid_field_value)) = refl
or_skipped-tried p (err (psbt unsupported_input_script)) = refl
or_skipped-tried p (err (psbt utxo_mismatch)) = refl
or_skipped-tried p (err (psbt conflicting_field)) = refl
or_skipped-tried p (err (psbt foreign_transaction)) = refl
or_skipped-tried p (err (psbt not_finalized)) = refl
or_skipped-tried p (err (psbt too_large)) = refl
or_skipped-tried p (err (psbt (invalid_key_length n))) = refl
or_skipped-tried p (err (psbt (unsupported_version n))) = refl
or_skipped-tried p (err (psbt (unsupported_sighash_type n))) = refl
or_skipped-tried p (err (psbt (incomplete_input n))) = refl

-- The indices of `n` inputs from input `i` on.
abbrev pub indices : ℕ → ℕ → List ℕ
indices i zero = []
indices i (suc n) = i ∷ indices (i + 1) n

unsigned_from-replicate : (n i : ℕ) → unsigned_from i (replicate n false) ≡ indices i n
unfolding unsigned_from
unsigned_from-replicate zero i = refl
unsigned_from-replicate (suc n) i = ap (◌∷◌ i) (unsigned_from-replicate n (i + 1))

all_signed-unsigned_from :
    (signed : List Bool) (i : ℕ) → all_signed signed ≡ true → unsigned_from i signed ≡ []
unfolding all_signed unsigned_from
all_signed-unsigned_from [] i h = refl
all_signed-unsigned_from (true ∷ signed) i h = all_signed-unsigned_from signed (i + 1) h
all_signed-unsigned_from (false ∷ signed) i h = cc

module _ (sha256 ripemd160 : Bytes → Bytes) (lib : Coincurve) (curve : Curve) where
  -- One key on the inputs that are missing; those that it signs are missing no longer.
  abbrev pub try_key : lib.PrivateKey → List ℕ → Psbt → Result (Psbt × List ℕ)
  try_key key [] p = ok (p, [])
  try_key key (i ∷ is) p = tried p (sign_psbt_input sha256 ripemd160 lib curve p i key) >>= λ r.
      try_key key is r.0 >>= λ s. ok (s.0, if r.1 then s.1 else i ∷ s.1)

  -- One key behind the other.
  abbrev pub try_keys : List lib.PrivateKey → List ℕ → Psbt → Result (Psbt × List ℕ)
  try_keys [] missing p = ok (p, missing)
  try_keys (key ∷ keys) missing p = try_key key missing p >>= λ r. try_keys keys r.1 r.0

  try_keys-nil : (keys : List lib.PrivateKey) (p : Psbt) → try_keys keys [] p ≡ ok (p, [])
  try_keys-nil [] p = refl
  try_keys-nil (key ∷ keys) p = try_keys-nil keys p

  module _ (seed2privkey : ℕ → AddrType → lib.PrivateKey) where
    -- The keys of `count` nonces from `nonce` on, of each the three address forms.
    abbrev pub keys_from : ℕ → ℕ → List lib.PrivateKey
    keys_from nonce zero = []
    keys_from nonce (suc count) =
        seed2privkey nonce legacy
        ∷ seed2privkey nonce native
        ∷ seed2privkey nonce taproot
        ∷ keys_from (nonce + 1) count

    sign_inputs-try_key :
        (key : lib.PrivateKey) (signed : List Bool) (i : ℕ) (p : Psbt)
        → try_key key (unsigned_from i signed) p ≡ (
            sign_inputs sha256 ripemd160 lib curve seed2privkey key i signed p >>= λ r.
            ok (r.0, unsigned_from i r.1))
    unfolding sign_inputs unsigned_from
    sign_inputs-try_key key [] i p = refl
    sign_inputs-try_key key (true ∷ signed) i p =
        sign_inputs-try_key key signed (i + 1) p
        ∙ sym (
            >>=_assoc (sign_inputs sha256 ripemd160 lib curve seed2privkey key (i + 1) signed p) _
              _)
    sign_inputs-try_key key (false ∷ signed) i p =
        >>=-cong_of (sym (or_skipped-tried p (sign_psbt_input sha256 ripemd160 lib curve p i key)))
          (λ (r : Psbt × Bool).
            ap (λ m. m >>= λ s. ok (s.0, if r.1 then s.1 else i ∷ s.1))
              (sign_inputs-try_key key signed (i + 1) r.0)
            ∙ >>=_assoc (sign_inputs sha256 ripemd160 lib curve seed2privkey key (i + 1) signed r.0)
                _ _
            ∙ sym (
                >>=_assoc
                  (sign_inputs sha256 ripemd160 lib curve seed2privkey key (i + 1) signed r.0) _ _))
        ∙ sym (>>=_assoc (or_skipped p (sign_psbt_input sha256 ripemd160 lib curve p i key)) _ _)

    sign_forms-try_keys :
        (nonce : ℕ) (forms : List AddrType) (keys : List lib.PrivateKey) (signed : List Bool)
        (p : Psbt)
        → try_keys (map (seed2privkey nonce) forms ++ keys) (unsigned_from 0 signed) p ≡ (
            sign_forms sha256 ripemd160 lib curve seed2privkey nonce forms signed p >>= λ r.
            try_keys keys (unsigned_from 0 r.1) r.0)
    unfolding sign_forms
    sign_forms-try_keys nonce [] keys signed p = refl
    sign_forms-try_keys nonce (form ∷ forms) keys signed p =
        let key : lib.PrivateKey = seed2privkey nonce form in
        let first : Result (Psbt × List Bool) =
          sign_inputs sha256 ripemd160 lib curve seed2privkey key 0 signed p in
        ap (λ m. m >>= λ r. try_keys (map (seed2privkey nonce) forms ++ keys) r.1 r.0)
          (sign_inputs-try_key key signed 0 p)
        ∙ >>=_assoc first _ _
        ∙ >>=-cong first (λ r. sign_forms-try_keys nonce forms keys r.1 r.0)
        ∙ sym (>>=_assoc first _ _)

    -- The loop over the nonces stops where all inputs are signed.
    sign_nonces_stop :
        (count nonce : ℕ) (signed : List Bool) (p : Psbt)
        → all_signed signed ≡ true
        → sign_nonces sha256 ripemd160 lib curve seed2privkey (suc count) nonce signed p
          ≡ ok (p, signed)
    unfolding sign_nonces
    sign_nonces_stop count nonce signed p all = rw (all, sign_nonces)

    sign_nonces_on :
        (count nonce : ℕ) (signed : List Bool) (p : Psbt)
        → all_signed signed ≡ false
        → sign_nonces sha256 ripemd160 lib curve seed2privkey (suc count) nonce signed p ≡ (
            sign_forms sha256 ripemd160 lib curve seed2privkey nonce addr_types signed p >>= λ r.
            sign_nonces sha256 ripemd160 lib curve seed2privkey count (nonce + 1) r.1 r.0)
    unfolding sign_nonces
    sign_nonces_on count nonce signed p more = rw (more, sign_nonces)

    sign_nonces-try_keys :
        (count nonce : ℕ) (signed : List Bool) (p : Psbt)
        → try_keys (keys_from nonce count) (unsigned_from 0 signed) p ≡ (
            sign_nonces sha256 ripemd160 lib curve seed2privkey count nonce signed p >>= λ r.
            ok (r.0, unsigned_from 0 r.1))
    unfolding sign_nonces
    sign_nonces-try_keys zero nonce signed p = refl
    sign_nonces-try_keys (suc count) nonce signed p = elim (Bool-cases (all_signed signed)) [
      | inl all ↦
          let none_missing : unsigned_from 0 signed ≡ [] = all_signed-unsigned_from signed 0 all in
          ap (λ is. try_keys (keys_from nonce (suc count)) is p) none_missing
          ∙ try_keys-nil (keys_from nonce (suc count)) p
          ∙ sym (ap (λ is. ok (p, is)) none_missing)
          ∙ sym (
              ap (λ m. m >>= λ r. ok (r.0, unsigned_from 0 r.1))
                (sign_nonces_stop count nonce signed p all))
      | inr more ↦
          let first : Result (Psbt × List Bool) =
            sign_forms sha256 ripemd160 lib curve seed2privkey nonce addr_types signed p in
          sign_forms-try_keys nonce addr_types (keys_from (nonce + 1) count) signed p
          ∙ >>=-cong first (λ r. sign_nonces-try_keys count (nonce + 1) r.1 r.0)
          ∙ sym (>>=_assoc first _ _)
          ∙ sym (
              ap (λ m. m >>= λ r. ok (r.0, unsigned_from 0 r.1))
                (sign_nonces_on count nonce signed p more))
    ]

    -- `sign_psbt` tries the keys of the nonces below 1000, three address forms of each, one behind the
    -- other, each on all inputs that no earlier key has signed, and returns the indices of the inputs that
    -- none of them signed. An unsupported sighash type counts as not signed; any other error ends it.
    pub sign_psbt-try_keys :
        (p : Psbt)
        → sign_psbt sha256 ripemd160 lib curve seed2privkey p
          ≡ try_keys (keys_from 0 1000) (indices 0 (length p.inputs)) p
    unfolding sign_psbt
    sign_psbt-try_keys p = sym (
        ap (λ missing. try_keys (keys_from 0 1000) missing p)
          (sym (unsigned_from-replicate (length p.inputs) 0))
        ∙ sign_nonces-try_keys 1000 0 (replicate (length p.inputs) false) p)
