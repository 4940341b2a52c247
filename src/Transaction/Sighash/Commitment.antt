-- ===== src/Transaction/Sighash/Commitment.antt =====
-- What the witness digests commit to.
use yubtc_python.Prelude.{
  ℕ, zero, suc, ◌≡◌, refl, ap, List, [], ◌∷◌, map, length, Result, ◌>>=◌, concat_map,
}
use yubtc_python.Prelude.Bytes.{Bytes, index}
use yubtc_python.Transaction.Model.{CIn, CTransaction}
use yubtc_python.Transaction.Sighash.{
  SpendInput, prevout, sequence_bytes, bip143_sighash_in_range, taproot_sha_fields, taproot_sig_msg,
  taproot_keypath_sighash_in_range,
}

-- An input without what signing writes.
abbrev pub blank : CIn → CIn
blank i = record i { script = []; witness = [] }

abbrev pub blanked : CTransaction → CTransaction
blanked tx = record tx { vin = map blank tx.vin }

length-blank : (is : List CIn) → length (map blank is) ≡ length is
length-blank [] = refl
length-blank (i ∷ is) = ap suc (length-blank is)

prevouts-blank : (is : List CIn) → concat_map prevout (map blank is) ≡ concat_map prevout is
unfolding prevout
prevouts-blank [] = refl
prevouts-blank (i ∷ is) = rw (prevouts-blank is)

sequences-blank :
    (is : List CIn) → concat_map sequence_bytes (map blank is) ≡ concat_map sequence_bytes is
unfolding sequence_bytes
sequences-blank [] = refl
sequences-blank (i ∷ is) = rw (sequences-blank is)

-- A lookup that is continued by the outpoint and the sequence alone.
index-blank {ℓ} :
    {B : Type ℓ} (f : CIn → Result B)
    → ((i : CIn) → f (blank i) ≡ f i)
    → (is : List CIn) (k : ℕ) → (index (map blank is) k >>= f) ≡ (index is k >>= f)
index-blank f h [] k = refl
index-blank f h (i ∷ is) zero = h i
index-blank f h (i ∷ is) (suc k) = index-blank f h is k

module _ (sha256 : Bytes → Bytes) where
  -- Emptying the signature scripts and witness stacks of all inputs does not change the BIP-143 digest.
  pub bip143-blanked :
      (tx : CTransaction) (i : ℕ) (code : Bytes) (amount : ℕ)
      → bip143_sighash_in_range sha256 (blanked tx) i code amount
        ≡ bip143_sighash_in_range sha256 tx i code amount
  unfolding bip143_sighash_in_range
  bip143-blanked tx i code amount =
      rw (prevouts-blank tx.vin, sequences-blank tx.vin) (index-blank _ (λ v. refl) tx.vin i)

  sig_msg-blanked :
      (tx : CTransaction) (i : ℕ) (spend : List SpendInput) (spend_type : ℕ)
      → taproot_sig_msg sha256 (blanked tx) i spend spend_type
        ≡ taproot_sig_msg sha256 tx i spend spend_type
  unfolding taproot_sig_msg taproot_sha_fields
  sig_msg-blanked tx i spend spend_type = rw (prevouts-blank tx.vin, sequences-blank tx.vin)

  -- Emptying the signature scripts and witness stacks of all inputs does not change the BIP-341 digest
  -- of the key path.
  pub keypath-blanked :
      (tx : CTransaction) (i : ℕ) (spend : List SpendInput)
      → taproot_keypath_sighash_in_range sha256 (blanked tx) i spend
        ≡ taproot_keypath_sighash_in_range sha256 tx i spend
  unfolding taproot_keypath_sighash_in_range
  keypath-blanked tx i spend = rw (sig_msg-blanked tx i spend 0x00)
