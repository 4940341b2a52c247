-- ===== src/Psbt/Finalizer/Quorum.antt =====
-- The signatures that the Finalizer puts into a multi-signature spend.
use yubtc_python.Prelude.{
  ℕ, zero, suc, ◌≤◌, ◌≡◌, refl, sym, subst, List, [], ◌∷◌, ◌⊎◌, inl, inr, length, length-take_le,
  take, ltb, not, true, Bool-cases, Option, none, some, ok, >>=-eq-ok, guard, guard-eq-ok,
  ok-injective, psbt, incomplete_input, except_value, Error, unsupported_input_script,
  utxo_mismatch, arith, except_value-eq-ok,
}
use yubtc_python.Prelude.Bytes.{Bytes, bytes_eq, bytes_eq→eq, slice}
use yubtc_python.Hash.{hash160}
use yubtc_python.Script.Multisig.{
  extract_multisig_quorum, make_multisig_script_sig, make_multisig_witness,
}
use yubtc_python.Transaction.Taproot.{Curve}
use yubtc_python.Psbt.KeyValue.{Pair}
use yubtc_python.Psbt.Tx.{encode_witness_stack}
use yubtc_python.Psbt.Model.{PsbtIn}
use yubtc_python.Psbt.Merge.{find}
use yubtc_python.Psbt.Utxo.{sighash_all, sighash_fits, ends_with, committed_quorum}
use yubtc_python.Psbt.Finalizer.{
  with_scriptsig, with_witness, collect, member_sigs, quorum_sigs,
  finalize_psbt_input_p2sh_multisig, finalize_psbt_input_p2wsh_multisig,
}

-- The pair stands in the list.
abbrev pub IsIn : Pair → List Pair → Type 0
IsIn pair [] = ⊥
IsIn pair (x ∷ xs) = (x ≡ pair) ⊎ IsIn pair xs

-- Signatures of some of the keys, in the order of the keys, each with the sighash byte of SIGHASH_ALL.
pub data Chosen (partial_sigs : List Pair) : List Bytes → List Bytes → Type 0 where
  stop : (keys : List Bytes) → Chosen partial_sigs keys []
  skip :
      (key : Bytes) {keys sigs : List Bytes}
      → Chosen partial_sigs keys sigs
      → Chosen partial_sigs (key ∷ keys) sigs
  pick :
      (key sig : Bytes) {keys sigs : List Bytes}
      → IsIn (key, sig) partial_sigs
      → ends_with sig sighash_all ≡ true
      → Chosen partial_sigs keys sigs
      → Chosen partial_sigs (key ∷ keys) (sig ∷ sigs)

find-IsIn :
    (key pk sig : Bytes) (pairs : List Pair)
    → find (λ (p : Pair). p.0) key pairs ≡ some (pk, sig)
    → IsIn (key, sig) pairs
unfolding find
find-IsIn key pk sig [] e = cc
find-IsIn key pk sig ((k, s) ∷ pairs) e = elim (Bool-cases (bytes_eq k key)) [
  | inl same ↦
      let is_key : k ≡ key = bytes_eq→eq k key same in
      let is_first : ◌≡◌ {A = Option Pair} (some (k, s)) (some (pk, sig)) = rw same at e in
      let is_sig : s ≡ sig = cc in inl (rw (is_key, is_sig))
  | inr other ↦ inr (find-IsIn key pk sig pairs (rw other at e))
]

collect-Chosen :
    (i : ℕ) (partial_sigs : List Pair) (key : Bytes) (keys sigs : List Bytes) (found : Option Pair)
    → find (λ (p : Pair). p.0) key partial_sigs ≡ found
    → ((rest : List Bytes)
        → member_sigs i partial_sigs keys ≡ ok rest
        → Chosen partial_sigs keys rest)
    → collect i found (member_sigs i partial_sigs keys) ≡ ok sigs
    → Chosen partial_sigs (key ∷ keys) sigs
unfolding collect
collect-Chosen i partial_sigs key keys sigs none f ih e = skip key (ih sigs e)
collect-Chosen i partial_sigs key keys sigs (some (pk, sig)) f ih e =
    let (_, ends, e1) =
      >>=-eq-ok (guard (ends_with sig sighash_all) (psbt (incomplete_input i))) _ e in
    let (rest, more, e2) = >>=-eq-ok (member_sigs i partial_sigs keys) _ e1 in
    subst (λ s. Chosen partial_sigs (key ∷ keys) s) (ok-injective e2)
      (pick key sig (find-IsIn key pk sig partial_sigs f) (guard-eq-ok _ _ ends) (ih rest more))

member_sigs-Chosen :
    (i : ℕ) (partial_sigs : List Pair) (keys sigs : List Bytes)
    → member_sigs i partial_sigs keys ≡ ok sigs
    → Chosen partial_sigs keys sigs
unfolding member_sigs
member_sigs-Chosen i partial_sigs [] sigs e =
    subst (λ s. Chosen partial_sigs [] s) (ok-injective e) (stop [])
member_sigs-Chosen i partial_sigs (key ∷ keys) sigs e =
    collect-Chosen i partial_sigs key keys sigs (find (λ (p : Pair). p.0) key partial_sigs) refl
      (λ rest more. member_sigs-Chosen i partial_sigs keys rest more) e

take-Chosen :
    {partial_sigs : List Pair} {keys sigs : List Bytes}
    → Chosen partial_sigs keys sigs
    → (n : ℕ) → Chosen partial_sigs keys (take n sigs)
take-Chosen (stop keys) zero = stop keys
take-Chosen (stop keys) (suc n) = stop keys
take-Chosen (skip key c) n = skip key (take-Chosen c n)
take-Chosen (pick key sig found ends c) zero = stop _
take-Chosen (pick key sig found ends c) (suc n) = pick key sig found ends (take-Chosen c n)

not_below : (a b : ℕ) → not (ltb a b) ≡ true → b ≤ a
not_below a b h = ground arith

quorum_sigs-Chosen :
    (i : ℕ) (partial_sigs : List Pair) (m : ℕ) (keys sigs : List Bytes)
    → quorum_sigs i partial_sigs m keys ≡ ok sigs
    → (length sigs ≡ m) × Chosen partial_sigs keys sigs
unfolding quorum_sigs
quorum_sigs-Chosen i partial_sigs m keys sigs e =
    let (members, some_members, e1) = >>=-eq-ok (member_sigs i partial_sigs keys) _ e in
    let (_, enough, e2) =
      >>=-eq-ok (guard (not (ltb (length members) m)) (psbt (incomplete_input i))) _ e1 in
    subst (λ s. (length s ≡ m) × Chosen partial_sigs keys s) (ok-injective e2)
      (
        length-take_le m members (not_below (length members) m (guard-eq-ok _ _ enough)),
        take-Chosen (member_sigs-Chosen i partial_sigs keys members some_members) m,
      )

-- What the checks of a script leave.
abbrev pub IsCommitted : (Bytes → Bytes) → Option Bytes → Bytes → Bytes → ℕ → List Bytes → Type 0
IsCommitted hash' field commitment redeem m keys =
    (field ≡ some redeem)
    × (extract_multisig_quorum redeem ≡ ok (m, keys))
    × (hash' redeem ≡ commitment)

committed_quorum-IsCommitted :
    (missing : Error) (hash' : Bytes → Bytes) (field : Option Bytes) (commitment redeem : Bytes)
    (m : ℕ) (keys : List Bytes)
    → committed_quorum missing hash' field commitment ≡ ok (redeem, m, keys)
    → IsCommitted hash' field commitment redeem m keys
unfolding committed_quorum
committed_quorum-IsCommitted missing hash' none commitment redeem m keys e = cc
committed_quorum-IsCommitted missing hash' (some script) commitment redeem m keys e =
    let ((m', keys'), canonical, e1) =
      >>=-eq-ok (except_value (extract_multisig_quorum script) (psbt unsupported_input_script)) _
        e in
    let (_, hashed, e2) =
      >>=-eq-ok (guard (bytes_eq (hash' script) commitment) (psbt utxo_mismatch)) _ e1 in
    subst (λ (r : Bytes × ℕ × List Bytes). IsCommitted hash' (some script) commitment r.0 r.1 r.2)
      (ok-injective e2)
      (refl, except_value-eq-ok _ _ canonical, bytes_eq→eq _ _ (guard-eq-ok _ _ hashed))

module _ (sha256 ripemd160 : Bytes → Bytes) (curve : Curve) where
  -- A P2SH input that was finalized has a redeem script that is canonical and hashes to the commitment of
  -- the lock script. Its `scriptSig` is the spend of that script by exactly `m` signatures, which are
  -- partial signatures of the input under keys of the script, in the order of the keys, and which end in
  -- the byte of SIGHASH_ALL.
  pub p2sh_quorum :
      (i : ℕ) (input input' : PsbtIn) (script_pubkey : Bytes)
      → finalize_psbt_input_p2sh_multisig sha256 ripemd160 curve i input script_pubkey ≡ ok input'
      → (redeem : Bytes) × (m : ℕ) × (keys sigs : List Bytes) × (script : Bytes) × IsCommitted
          (hash160 sha256 ripemd160)
          input.redeem_script
          (slice script_pubkey 2 22)
          redeem
          m
          keys
        × (length sigs ≡ m)
        × Chosen input.partial_sigs keys sigs
        × (make_multisig_script_sig redeem sigs ≡ ok script)
        × (input' ≡ with_scriptsig input script)
  unfolding finalize_psbt_input_p2sh_multisig
  p2sh_quorum i input input' script_pubkey e =
      let ((redeem, m, keys), checked, e1) =
        >>=-eq-ok
          (committed_quorum (psbt (incomplete_input i)) (hash160 sha256 ripemd160)
            input.redeem_script (slice script_pubkey 2 22))
          _ e in
      let (_, _, e2) =
        >>=-eq-ok (guard (sighash_fits input.sighash_type sighash_all) (psbt (incomplete_input i)))
          _ e1 in
      let (sigs, chosen, e3) = >>=-eq-ok (quorum_sigs i input.partial_sigs m keys) _ e2 in
      let (script, made, e4) = >>=-eq-ok (make_multisig_script_sig redeem sigs) _ e3 in
      let (count, in_order) = quorum_sigs-Chosen i input.partial_sigs m keys sigs chosen in
      (
        redeem,
        m,
        keys,
        sigs,
        script,
        committed_quorum-IsCommitted _ _ _ _ redeem m keys checked,
        count,
        in_order,
        made,
        sym (ok-injective e4),
      )

  -- A P2WSH input that was finalized has a witness script that is canonical and hashes to the program of
  -- the lock script. Its witness is the spend of that script by exactly `m` signatures, chosen as those
  -- of a P2SH input.
  pub p2wsh_quorum :
      (i : ℕ) (input input' : PsbtIn) (script_pubkey : Bytes)
      → finalize_psbt_input_p2wsh_multisig sha256 ripemd160 curve i input script_pubkey ≡ ok input'
      → (redeem : Bytes) × (m : ℕ) × (keys sigs : List Bytes) × (stack : Bytes) × IsCommitted sha256
          input.witness_script
          (slice script_pubkey 2 34)
          redeem
          m
          keys
        × (length sigs ≡ m)
        × Chosen input.partial_sigs keys sigs
        × (encode_witness_stack (make_multisig_witness redeem sigs) ≡ ok stack)
        × (input' ≡ with_witness input stack)
  unfolding finalize_psbt_input_p2wsh_multisig
  p2wsh_quorum i input input' script_pubkey e =
      let ((redeem, m, keys), checked, e1) =
        >>=-eq-ok
          (committed_quorum (psbt (incomplete_input i)) sha256 input.witness_script
            (slice script_pubkey 2 34))
          _ e in
      let (_, _, e2) =
        >>=-eq-ok (guard (sighash_fits input.sighash_type sighash_all) (psbt (incomplete_input i)))
          _ e1 in
      let (sigs, chosen, e3) = >>=-eq-ok (quorum_sigs i input.partial_sigs m keys) _ e2 in
      let (stack, made, e4) =
        >>=-eq-ok (encode_witness_stack (make_multisig_witness redeem sigs)) _ e3 in
      let (count, in_order) = quorum_sigs-Chosen i input.partial_sigs m keys sigs chosen in
      (
        redeem,
        m,
        keys,
        sigs,
        stack,
        committed_quorum-IsCommitted _ _ _ _ redeem m keys checked,
        count,
        in_order,
        made,
        sym (ok-injective e4),
      )
