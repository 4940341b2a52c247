-- ===== src/Psbt/Signer/Branches.antt =====
-- The branches of the Signer, run on an input and again on the input that the run signed.
use yubtc_python.Prelude.{
  ℕ, ◌≡◌, ◌∙◌, sym, ap, ap₂, List, inl, inr, ◌&&◌, Bool, true, false, Bool-cases, Option, none,
  some, Result, ok, >>=-eq-ok, psbt, unsupported_input_script,
}
use yubtc_python.Prelude.Bytes.{Bytes, slice}
use yubtc_python.Hash.{hash160}
use yubtc_python.Script.Multisig.{mem_bytes}
use yubtc_python.Transaction.Signing.{Coincurve}
use yubtc_python.Transaction.Taproot.{Curve}
use yubtc_python.Psbt.Tx.{nonempty}
use yubtc_python.Psbt.Model.{PsbtIn, Psbt}
use yubtc_python.Psbt.Utxo.{
  spend_context, is_p2sh_script, is_p2wsh_script, is_p2tr_script, Form, sighash_all, pinned_sighash,
  committed_quorum, Leaf, committed_leaf, own_form,
}
use yubtc_python.Psbt.Signer.{
  sign_member_ecdsa, sign_member_tap, legacy_sig, script_code_sig, scriptpath_sig, form_sig,
  sign_psbt_input_p2sh_multisig, sign_psbt_input_p2wsh_multisig, sign_psbt_input_p2tr_scriptpath,
  sign_own, sign_by_script,
}
use yubtc_python.Psbt.Signer.Adds.{
  IsSigning, IsOutcome, ecdsa-IsOutcome, tap-IsOutcome, IsOutcome-through, signing-keeps,
  no-IsOutcome,
}

module _ (sha256 ripemd160 : Bytes → Bytes) (lib : Coincurve) (curve : Curve) (i : ℕ)
    (privkey : lib.PrivateKey) (script : Bytes) where
  abbrev key : Bytes
  key = lib.public_key privkey

  -- The quorums that the lock script of a P2SH or a P2WSH input commits to.
  abbrev p2sh_quorum : PsbtIn → Result (Bytes × ℕ × List Bytes)
  p2sh_quorum x =
      committed_quorum (psbt unsupported_input_script) (hash160 sha256 ripemd160) x.redeem_script
        (slice script 2 22)

  abbrev p2wsh_quorum : PsbtIn → Result (Bytes × ℕ × List Bytes)
  p2wsh_quorum x =
      committed_quorum (psbt unsupported_input_script) sha256 x.witness_script (slice script 2 34)

  abbrev p2tr_leaf : PsbtIn → Result Leaf
  p2tr_leaf x = committed_leaf sha256 curve x.tap_leaf_scripts x.tap_merkle_root (slice script 2 34)

  -- The branches as runs on a PSBT and an input, and the signatures that they make.
  abbrev p2sh_run : Psbt → PsbtIn → Result (Psbt × Bool)
  p2sh_run q x = sign_psbt_input_p2sh_multisig sha256 ripemd160 lib curve q i x privkey script

  abbrev p2wsh_run : ℕ → Psbt → PsbtIn → Result (Psbt × Bool)
  p2wsh_run amount q x =
      sign_psbt_input_p2wsh_multisig sha256 ripemd160 lib curve q i x privkey script amount

  abbrev p2tr_run : Psbt → PsbtIn → Result (Psbt × Bool)
  p2tr_run q x = sign_psbt_input_p2tr_scriptpath sha256 ripemd160 lib curve q i x privkey script

  abbrev own_run : Option Form → ℕ → Psbt → PsbtIn → Result (Psbt × Bool)
  own_run form amount q x = sign_own sha256 ripemd160 lib curve form q i x privkey script amount

  abbrev p2sh_make : Bytes → Psbt → Result (Option Bytes)
  p2sh_make redeem q = legacy_sig sha256 ripemd160 lib curve q.unsigned_tx i redeem privkey

  abbrev p2wsh_make : Bytes → ℕ → Psbt → Result (Option Bytes)
  p2wsh_make redeem amount q =
      script_code_sig sha256 ripemd160 lib curve q.unsigned_tx i redeem amount privkey

  abbrev p2tr_make : Leaf → Psbt → Result (Option Bytes)
  p2tr_make leaf q =
      scriptpath_sig sha256 ripemd160 lib curve q.unsigned_tx i (spend_context q) leaf.leaf_hash
        privkey

  p2sh_member :
      (q : Psbt) (x : PsbtIn) (redeem : Bytes) (m : ℕ) (keys : List Bytes)
      → p2sh_quorum x ≡ ok (redeem, m, keys)
      → mem_bytes key keys ≡ true
      → p2sh_run q x ≡ sign_member_ecdsa sha256 q i x sighash_all key (p2sh_make redeem q)
  unfolding sign_psbt_input_p2sh_multisig
  p2sh_member q x redeem m keys checked member = rw (checked, member)

  p2wsh_member :
      (q : Psbt) (x : PsbtIn) (amount : ℕ) (redeem : Bytes) (m : ℕ) (keys : List Bytes)
      → p2wsh_quorum x ≡ ok (redeem, m, keys)
      → mem_bytes key keys ≡ true
      → p2wsh_run amount q x
        ≡ sign_member_ecdsa sha256 q i x sighash_all key (p2wsh_make redeem amount q)
  unfolding sign_psbt_input_p2wsh_multisig
  p2wsh_member q x amount redeem m keys checked member = rw (checked, member)

  p2tr_member :
      (q : Psbt) (x : PsbtIn) (leaf : Leaf)
      → p2tr_leaf x ≡ ok leaf
      → mem_bytes (slice key 1 33) leaf.keys ≡ true
      → p2tr_run q x
        ≡ sign_member_tap sha256 q i x (slice key 1 33) leaf.leaf_hash (
            scriptpath_sig sha256 ripemd160 lib curve q.unsigned_tx i
              (spend_context q)
              leaf.leaf_hash
              privkey)
  unfolding sign_psbt_input_p2tr_scriptpath
  p2tr_member q x leaf checked member = rw (checked, member)

  abbrev script_run : ℕ → Psbt → PsbtIn → Result (Psbt × Bool)
  script_run amount q x = sign_by_script sha256 ripemd160 lib curve q i x privkey script amount

  -- The branch that the dispatch takes.
  take_p2wsh :
      (amount : ℕ) (q : Psbt) (x : PsbtIn)
      → is_p2wsh_script script ≡ true
      → script_run amount q x ≡ p2wsh_run amount q x
  unfolding sign_by_script
  take_p2wsh amount q x wsh = rw wsh

  take_p2sh :
      (amount : ℕ) (q : Psbt) (x : PsbtIn)
      → is_p2wsh_script script ≡ false
      → is_p2sh_script script ≡ true
      → script_run amount q x ≡ p2sh_run q x
  unfolding sign_by_script
  take_p2sh amount q x wsh sh = rw (wsh, sh)

  take_p2tr :
      (amount : ℕ) (q : Psbt) (x : PsbtIn)
      → is_p2wsh_script script ≡ false
      → is_p2sh_script script ≡ false
      → (is_p2tr_script script && nonempty x.tap_leaf_scripts) ≡ true
      → script_run amount q x ≡ p2tr_run q x
  unfolding sign_by_script
  take_p2tr amount q x wsh sh path = rw (wsh, sh, path)

  take_own :
      (amount : ℕ) (q : Psbt) (x : PsbtIn) (form : Option Form)
      → is_p2wsh_script script ≡ false
      → is_p2sh_script script ≡ false
      → (is_p2tr_script script && nonempty x.tap_leaf_scripts) ≡ false
      → own_form sha256 ripemd160 curve script key ≡ ok form
      → script_run amount q x ≡ own_run form amount q x
  unfolding sign_by_script
  take_own amount q x form wsh sh path own = rw (wsh, sh, path, own)

  own_form_inv :
      (amount : ℕ) (q : Psbt) (x : PsbtIn) (r : Psbt × Bool)
      → is_p2wsh_script script ≡ false
      → is_p2sh_script script ≡ false
      → (is_p2tr_script script && nonempty x.tap_leaf_scripts) ≡ false
      → script_run amount q x ≡ ok r
      → (form : Option Form) × (own_form sha256 ripemd160 curve script key ≡ ok form)
  unfolding sign_by_script
  own_form_inv amount q x r wsh sh path e =
      let (form, own, e1) =
        >>=-eq-ok (own_form sha256 ripemd160 curve script key) _ (rw (wsh, sh, path) at e) in
      (form, own)

  module _ (p : Psbt) (input : PsbtIn) (p' : Psbt) (b : Bool) where
    p2sh-IsOutcome : p2sh_run p input ≡ ok (p', b) → IsOutcome key p i input p2sh_run p' b
    unfolding sign_psbt_input_p2sh_multisig
    p2sh-IsOutcome e =
        let ((redeem, m, keys), checked, e1) = >>=-eq-ok (p2sh_quorum input) _ e in
        elim (Bool-cases (mem_bytes key keys)) [
          | inl member ↦
              IsOutcome-through key p i input
                (λ q x. sign_member_ecdsa sha256 q i x sighash_all key (p2sh_make redeem q))
                (p2sh_run) p' b
                (λ q f s.
                  p2sh_member q (f input) redeem m keys
                    (ap
                        (λ field.
                          committed_quorum (psbt unsupported_input_script)
                            (hash160 sha256 ripemd160) field (slice script 2 22))
                        (signing-keeps s input).0
                      ∙ checked)
                    member)
                (ecdsa-IsOutcome sha256 p i input sighash_all key (p2sh_make redeem) p' b
                  (rw member at e1))
          | inr foreign ↦ no-IsOutcome key p i input (p2sh_run) p' b (rw foreign at e1)
        ]

    p2wsh-IsOutcome :
        (amount : ℕ)
        → p2wsh_run amount p input ≡ ok (p', b)
        → IsOutcome key p i input
            (λ q x.
              sign_psbt_input_p2wsh_multisig sha256 ripemd160 lib curve q i x privkey script amount)
            p'
            b
    unfolding sign_psbt_input_p2wsh_multisig
    p2wsh-IsOutcome amount e =
        let ((redeem, m, keys), checked, e1) = >>=-eq-ok (p2wsh_quorum input) _ e in
        elim (Bool-cases (mem_bytes key keys)) [
          | inl member ↦
              IsOutcome-through key p i input
                (λ q x. sign_member_ecdsa sha256 q i x sighash_all key (p2wsh_make redeem amount q))
                (p2wsh_run amount) p' b
                (λ q f s.
                  p2wsh_member q (f input) amount redeem m keys
                    (ap
                        (λ field.
                          committed_quorum (psbt unsupported_input_script) sha256 field
                            (slice script 2 34))
                        (signing-keeps s input).1
                      ∙ checked)
                    member)
                (ecdsa-IsOutcome sha256 p i input sighash_all key
                  (λ q.
                    script_code_sig sha256 ripemd160 lib curve q.unsigned_tx i redeem amount
                      privkey)
                  p' b (rw member at e1))
          | inr foreign ↦ no-IsOutcome key p i input (p2wsh_run amount) p' b (rw foreign at e1)
        ]

    p2tr-IsOutcome : p2tr_run p input ≡ ok (p', b) → IsOutcome key p i input p2tr_run p' b
    unfolding sign_psbt_input_p2tr_scriptpath
    p2tr-IsOutcome e =
        let (leaf, checked, e1) = >>=-eq-ok (p2tr_leaf input) _ e in
        elim (Bool-cases (mem_bytes (slice key 1 33) leaf.keys)) [
          | inl member ↦
              IsOutcome-through key p i input
                (λ q x.
                  sign_member_tap sha256 q i x (slice key 1 33) leaf.leaf_hash (p2tr_make leaf q))
                (p2tr_run) p' b
                (λ q f s.
                  p2tr_member q (f input) leaf
                    (ap₂
                        (λ leaves root. committed_leaf sha256 curve leaves root (slice script 2 34))
                        (signing-keeps s input).2 (signing-keeps s input).3
                      ∙ checked)
                    member)
                (tap-IsOutcome sha256 p i input key leaf.leaf_hash
                  (λ q.
                    scriptpath_sig sha256 ripemd160 lib curve q.unsigned_tx i (spend_context q)
                      leaf.leaf_hash privkey)
                  p' b (rw member at e1))
          | inr foreign ↦ no-IsOutcome key p i input (p2tr_run) p' b (rw foreign at e1)
        ]

    own-IsOutcome :
        (form : Option Form) (amount : ℕ)
        → own_run form amount p input ≡ ok (p', b)
        → IsOutcome key p i input (own_run form amount) p' b
    unfolding sign_own
    own-IsOutcome none amount e = no-IsOutcome key p i input (own_run none amount) p' b e
    own-IsOutcome (some form) amount e =
        ecdsa-IsOutcome sha256 p i input (pinned_sighash form) key
          (λ q. form_sig sha256 ripemd160 lib curve q i form script amount privkey) p' b e

    kept_leaves :
        {f : PsbtIn → PsbtIn} (c : Bool)
        → IsSigning key f
        → (is_p2tr_script script && nonempty input.tap_leaf_scripts) ≡ c
        → (is_p2tr_script script && nonempty (f input).tap_leaf_scripts) ≡ c
    kept_leaves c s path =
        ap (λ leaves. is_p2tr_script script && nonempty leaves) (signing-keeps s input).2 ∙ path

    pub by_script-IsOutcome :
        (amount : ℕ)
        → script_run amount p input ≡ ok (p', b)
        → IsOutcome key p i input (script_run amount) p' b
    by_script-IsOutcome amount e = elim (Bool-cases (is_p2wsh_script script)) [
      | inl wsh ↦
          IsOutcome-through key p i input (p2wsh_run amount) (script_run amount) p' b
            (λ q f s. take_p2wsh amount q (f input) wsh)
            (p2wsh-IsOutcome amount (sym (take_p2wsh amount p input wsh) ∙ e))
      | inr wsh ↦ elim (Bool-cases (is_p2sh_script script)) [
        | inl sh ↦
            IsOutcome-through key p i input p2sh_run (script_run amount) p' b
              (λ q f s. take_p2sh amount q (f input) wsh sh)
              (p2sh-IsOutcome (sym (take_p2sh amount p input wsh sh) ∙ e))
        | inr sh ↦ elim (Bool-cases (is_p2tr_script script && nonempty input.tap_leaf_scripts)) [
          | inl path ↦
              IsOutcome-through key p i input p2tr_run (script_run amount) p' b
                (λ q f s. take_p2tr amount q (f input) wsh sh (kept_leaves true s path))
                (p2tr-IsOutcome (sym (take_p2tr amount p input wsh sh path) ∙ e))
          | inr path ↦
              let (form, own) = own_form_inv amount p input (p', b) wsh sh path e in
              IsOutcome-through key p i input (own_run form amount) (script_run amount) p' b
                (λ q f s. take_own amount q (f input) form wsh sh (kept_leaves false s path) own)
                (own-IsOutcome form amount (sym (take_own amount p input form wsh sh path own) ∙ e))
        ]
      ]
    ]
