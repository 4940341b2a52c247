-- ===== src/Psbt/Creator/Created.antt =====
-- What the Creator builds.
use yubtc_python.Prelude.{
  ℕ, ◌+◌, ◌-◌, ◌≡◌, ◌∙◌, refl, sym, ap, subst, List, [], ◌∷◌, inl, inr, length, length-map, take,
  ◌==◌, ==_iff, not, not-true, true, false, Bool-cases, Option, none, some, ok, >>=-eq-ok,
  ok-injective, guard, guard-eq-ok, except_value, except_value-eq-ok, psbt,
  unsupported_input_script, utxo_mismatch, invalid_unsigned_tx, map_count_mismatch, arith,
}
use yubtc_python.Prelude.Bytes.{Bytes, bytes_eq, bytes_eq→eq, slice}
use yubtc_python.Hash.{hash160}
use yubtc_python.Script.Multisig.{extract_multisig_quorum}
use yubtc_python.Script.Tapscript.{
  tapscript_leaf_version, extract_multisig_tapscript, tapscript_leaf_hash,
}
use yubtc_python.Transaction.Taproot.{
  Curve, ms_tapscript_internal_key, tapscript_output_key, tapscript_control_block,
}
use yubtc_python.Psbt.Tx.{PsbtTxIn, PsbtTxOut, PsbtTransaction, nonempty}
use yubtc_python.Psbt.Model.{PsbtIn, Psbt}
use yubtc_python.Psbt.Utxo.{
  is_p2sh_script, is_p2wsh_script, is_p2tr_script, Form, legacy_form, p2wpkh_form, p2tr_form,
  form_of_script, ends_with, txid,
}
use yubtc_python.Psbt.Creator.{
  CreateInput, any_signed, witness_input, checked_prev, create_legacy, create_p2sh, create_p2wsh,
  create_p2tr, create_tap, create_witness, create_script, create_form, create_inputs, create_psbt,
}
use yubtc_python.Psbt.Creator.Descriptor.{
  is_legacy, takes, takes-none, takes-other, IsCreated, of_legacy, of_p2sh, of_p2wsh, of_leaf,
  plain,
}

module _ (sha256 ripemd160 : Bytes → Bytes) (curve : Curve) where
  checked_prev-inv :
      (i : ℕ) (o : Option PsbtTransaction) (txhash : Bytes) {prev : PsbtTransaction}
      → checked_prev sha256 ripemd160 curve i o txhash ≡ ok prev
      → (o ≡ some prev) × (txid sha256 prev ≡ ok txhash)
  unfolding checked_prev
  checked_prev-inv i none txhash e = cc
  checked_prev-inv i (some tx) txhash e =
      let (id', is_id, e1) = >>=-eq-ok (txid sha256 tx) _ e in
      let (_, same, e2) = >>=-eq-ok (guard (bytes_eq id' txhash) (psbt utxo_mismatch)) _ e1 in
      let is_txhash : id' ≡ txhash = bytes_eq→eq id' txhash (guard-eq-ok _ _ same) in
      let is_prev : tx ≡ _ = ok-injective e2 in
      (ap some is_prev, ap (txid sha256) (sym is_prev) ∙ is_id ∙ ap ok is_txhash)

  legacy-IsCreated :
      (i : ℕ) (vin : PsbtTxIn) (create : CreateInput) (input : PsbtIn)
      → is_legacy (form_of_script create.script_pubkey) ≡ true
      → create_legacy sha256 ripemd160 curve i vin create ≡ ok input
      → IsCreated sha256 ripemd160 curve vin create input
  unfolding create_legacy
  legacy-IsCreated i vin create input form e =
      let (prev, checked, e1) =
        >>=-eq-ok (checked_prev sha256 ripemd160 curve i create.prev_tx vin.txhash) _ e in
      subst (λ x. IsCreated sha256 ripemd160 curve vin create x) (ok-injective e1)
        (of_legacy prev form (checked_prev-inv i create.prev_tx vin.txhash checked))

  module _ (i : ℕ) (vin : PsbtTxIn) (create : CreateInput) (input : PsbtIn)
      (form : is_legacy (form_of_script create.script_pubkey) ≡ false) where
    p2sh-IsCreated :
        (redeem : Bytes)
        → is_p2sh_script create.script_pubkey ≡ true
        → create.redeem_script ≡ some redeem
        → create_p2sh sha256 ripemd160 curve i vin create redeem ≡ ok input
        → IsCreated sha256 ripemd160 curve vin create input
    unfolding create_p2sh
    p2sh-IsCreated redeem sh given e =
        let (quorum, canonical, e1) =
          >>=-eq-ok (except_value (extract_multisig_quorum redeem) (psbt unsupported_input_script))
            _ e in
        let (_, hashed, e2) =
          >>=-eq-ok
            (guard (bytes_eq (hash160 sha256 ripemd160 redeem) (slice create.script_pubkey 2 22))
              (psbt utxo_mismatch))
            _ e1 in
        let (prev, checked, e3) =
          >>=-eq-ok (checked_prev sha256 ripemd160 curve i create.prev_tx vin.txhash) _ e2 in
        subst (λ x. IsCreated sha256 ripemd160 curve vin create x) (ok-injective e3)
          (of_p2sh prev redeem form sh given (quorum, except_value-eq-ok _ _ canonical)
            (bytes_eq→eq _ _ (guard-eq-ok _ _ hashed))
            (checked_prev-inv i create.prev_tx vin.txhash checked))

    module _ (no_redeem : takes is_p2sh_script create create.redeem_script ≡ false) where
      p2wsh-IsCreated :
          (redeem : Bytes)
          → is_p2wsh_script create.script_pubkey ≡ true
          → create.witness_script ≡ some redeem
          → create_p2wsh sha256 ripemd160 curve create redeem ≡ ok input
          → IsCreated sha256 ripemd160 curve vin create input
      unfolding create_p2wsh witness_input
      p2wsh-IsCreated redeem wsh given e =
          let (quorum, canonical, e1) =
            >>=-eq-ok
              (except_value (extract_multisig_quorum redeem) (psbt unsupported_input_script)) _ e in
          let (_, hashed, e2) =
            >>=-eq-ok
              (guard (bytes_eq (sha256 redeem) (slice create.script_pubkey 2 34))
                (psbt utxo_mismatch))
              _ e1 in
          subst (λ x. IsCreated sha256 ripemd160 curve vin create x) (ok-injective e2)
            (of_p2wsh redeem form no_redeem wsh given (quorum, except_value-eq-ok _ _ canonical)
              (bytes_eq→eq _ _ (guard-eq-ok _ _ hashed)))

      module _ (no_witness : takes is_p2wsh_script create create.witness_script ≡ false) where
        plain-IsCreated :
            takes is_p2tr_script create create.tap_leaf_script ≡ false
            → witness_input create ≡ input
            → IsCreated sha256 ripemd160 curve vin create input
        unfolding witness_input
        plain-IsCreated no_leaf same =
            subst (λ x. IsCreated sha256 ripemd160 curve vin create x) same
              (plain form no_redeem no_witness no_leaf)

        leaf-IsCreated :
            (leaf_value : Bytes)
            → is_p2tr_script create.script_pubkey ≡ true
            → create.tap_leaf_script ≡ some leaf_value
            → create_p2tr sha256 ripemd160 curve create leaf_value ≡ ok input
            → IsCreated sha256 ripemd160 curve vin create input
        unfolding create_p2tr witness_input
        leaf-IsCreated leaf_value taproot given e =
            let script : Bytes = take (length leaf_value - 1) leaf_value in
            let (_, version, e1) =
              >>=-eq-ok
                (guard (ends_with leaf_value tapscript_leaf_version)
                  (psbt unsupported_input_script))
                _ (rw taproot at e) in
            let (quorum, canonical, e2) =
              >>=-eq-ok
                (except_value (extract_multisig_tapscript script) (psbt unsupported_input_script)) _
                e1 in
            let (leaf_hash, hashed, e3) = >>=-eq-ok (tapscript_leaf_hash sha256 script) _ e2 in
            let (output_key, is_key, e4) =
              >>=-eq-ok (tapscript_output_key sha256 curve ms_tapscript_internal_key leaf_hash) _
                e3 in
            let (_, committed, e5) =
              >>=-eq-ok
                (guard (bytes_eq output_key (slice create.script_pubkey 2 34)) (psbt utxo_mismatch))
                _ e4 in
            let (control_block, shown, e6) =
              >>=-eq-ok (tapscript_control_block sha256 curve ms_tapscript_internal_key leaf_hash) _
                e5 in
            let is_committed : output_key ≡ slice create.script_pubkey 2 34 =
              bytes_eq→eq _ _ (guard-eq-ok _ _ committed) in
            subst (λ x. IsCreated sha256 ripemd160 curve vin create x) (ok-injective e6)
              (of_leaf leaf_value control_block form no_redeem no_witness taproot given (
                guard-eq-ok _ _ version,
                (quorum, except_value-eq-ok _ _ canonical),
                leaf_hash,
                hashed,
                is_key ∙ ap ok is_committed,
                shown,
              ))

        tap-IsCreated :
            (o : Option Bytes)
            → create.tap_leaf_script ≡ o
            → create_tap sha256 ripemd160 curve create o ≡ ok input
            → IsCreated sha256 ripemd160 curve vin create input
        unfolding create_tap create_p2tr
        tap-IsCreated none given e =
            plain-IsCreated (takes-none is_p2tr_script create create.tap_leaf_script given)
              (ok-injective e)
        tap-IsCreated (some leaf_value) given e =
            elim (Bool-cases (is_p2tr_script create.script_pubkey)) [
              | inl taproot ↦ leaf-IsCreated leaf_value taproot given e
              | inr other ↦
                  plain-IsCreated (takes-other is_p2tr_script create create.tap_leaf_script other)
                    (ok-injective (rw other at e))
            ]

      witness-IsCreated :
          (o : Option Bytes)
          → create.witness_script ≡ o
          → create_witness sha256 ripemd160 curve create o ≡ ok input
          → IsCreated sha256 ripemd160 curve vin create input
      unfolding create_witness
      witness-IsCreated none given e =
          tap-IsCreated (takes-none is_p2wsh_script create create.witness_script given)
            create.tap_leaf_script refl e
      witness-IsCreated (some redeem) given e =
          elim (Bool-cases (is_p2wsh_script create.script_pubkey)) [
            | inl wsh ↦ p2wsh-IsCreated redeem wsh given (rw wsh at e)
            | inr other ↦
                tap-IsCreated (takes-other is_p2wsh_script create create.witness_script other)
                  create.tap_leaf_script refl (rw other at e)
          ]

    script-IsCreated :
        (o : Option Bytes)
        → create.redeem_script ≡ o
        → create_script sha256 ripemd160 curve i vin create o ≡ ok input
        → IsCreated sha256 ripemd160 curve vin create input
    unfolding create_script
    script-IsCreated none given e =
        witness-IsCreated (takes-none is_p2sh_script create create.redeem_script given)
          create.witness_script refl e
    script-IsCreated (some redeem) given e =
        elim (Bool-cases (is_p2sh_script create.script_pubkey)) [
          | inl sh ↦ p2sh-IsCreated redeem sh given (rw sh at e)
          | inr other ↦
              witness-IsCreated (takes-other is_p2sh_script create create.redeem_script other)
                create.witness_script refl (rw other at e)
        ]

  form-IsCreated :
      (i : ℕ) (vin : PsbtTxIn) (create : CreateInput) (form : Option Form) (input : PsbtIn)
      → form_of_script create.script_pubkey ≡ form
      → create_form sha256 ripemd160 curve i vin create form ≡ ok input
      → IsCreated sha256 ripemd160 curve vin create input
  unfolding create_form
  form-IsCreated i vin create (some (legacy_form h)) input is_form e =
      legacy-IsCreated i vin create input (ap is_legacy is_form) e
  form-IsCreated i vin create (some (p2wpkh_form h)) input is_form e =
      script-IsCreated i vin create input (ap is_legacy is_form) create.redeem_script refl e
  form-IsCreated i vin create (some (p2tr_form k)) input is_form e =
      script-IsCreated i vin create input (ap is_legacy is_form) create.redeem_script refl e
  form-IsCreated i vin create none input is_form e =
      script-IsCreated i vin create input (ap is_legacy is_form) create.redeem_script refl e

  abbrev pub AreCreated : List PsbtTxIn → List CreateInput → List PsbtIn → Type 0
  AreCreated [] creates [] = Unit
  AreCreated [] creates (input ∷ inputs) = ⊥
  AreCreated (vin ∷ vins) [] inputs = ⊥
  AreCreated (vin ∷ vins) (create ∷ creates) [] = ⊥
  AreCreated (vin ∷ vins) (create ∷ creates) (input ∷ inputs) =
      IsCreated sha256 ripemd160 curve vin create input × AreCreated vins creates inputs

  inputs-AreCreated :
      (i : ℕ) (vins : List PsbtTxIn) (creates : List CreateInput) (inputs : List PsbtIn)
      → length vins ≡ length creates
      → create_inputs sha256 ripemd160 curve i vins creates ≡ ok inputs
      → AreCreated vins creates inputs
  unfolding create_inputs
  inputs-AreCreated i [] creates inputs h e =
      subst (λ l. AreCreated [] creates l) (ok-injective e) tt
  inputs-AreCreated i (vin ∷ vins) [] inputs h e = absurd (omega arith)
  inputs-AreCreated i (vin ∷ vins) (create ∷ creates) inputs h e =
      let (input, first, e1) =
        >>=-eq-ok
          (create_form sha256 ripemd160 curve i vin create (form_of_script create.script_pubkey)) _
          e in
      let (rest, more, e2) =
        >>=-eq-ok (create_inputs sha256 ripemd160 curve (i + 1) vins creates) _ e1 in
      subst (λ l. AreCreated (vin ∷ vins) (create ∷ creates) l) (ok-injective e2)
        (
          form-IsCreated i vin create (form_of_script create.script_pubkey) input refl first,
          inputs-AreCreated (i + 1) vins creates rest (omega arith) more,
        )

  -- A PSBT that the Creator builds holds the transaction that it was given, which has outputs and is
  -- unsigned, and for each of its inputs the one that the descriptor asks for, with no other field set:
  -- for a legacy lock script the previous transaction, whose id is the one that is spent; for P2SH with a
  -- redeem script this too, and the script, which is canonical and hashes to the commitment; for P2WSH with
  -- a witness script the UTXO, and the script, which is canonical and hashes to the commitment; for P2TR
  -- with a leaf the UTXO, and the leaf, which is canonical and to which the output key commits; for all
  -- others the UTXO alone.
  pub create_psbt-AreCreated :
      (tx : PsbtTransaction) (creates : List CreateInput) (p : Psbt)
      → create_psbt sha256 ripemd160 curve tx creates ≡ ok p
      → (p.unsigned_tx ≡ tx)
        × (nonempty tx.vout ≡ true)
        × (any_signed tx.vin ≡ false)
        × AreCreated tx.vin creates p.inputs
        × (length p.outputs ≡ length tx.vout)
  unfolding create_psbt
  create_psbt-AreCreated tx creates p e =
      let (_, outs, e1) = >>=-eq-ok (guard (nonempty tx.vout) (psbt invalid_unsigned_tx)) _ e in
      let (_, count, e2) =
        >>=-eq-ok (guard (length tx.vin == length creates) (psbt map_count_mismatch)) _ e1 in
      let (_, unsigned, e3) =
        >>=-eq-ok (guard (not (any_signed tx.vin)) (psbt invalid_unsigned_tx)) _ e2 in
      let (inputs, created, e4) =
        >>=-eq-ok (create_inputs sha256 ripemd160 curve 0 tx.vin creates) _ e3 in
      let same : length tx.vin ≡ length creates =
        (==_iff (length tx.vin) (length creates)).0 (guard-eq-ok _ _ count) in
      subst
        (λ (q : Psbt).
          (q.unsigned_tx ≡ tx)
          × (nonempty tx.vout ≡ true)
          × (any_signed tx.vin ≡ false)
          × AreCreated tx.vin creates q.inputs
          × (length q.outputs ≡ length tx.vout))
        (ok-injective e4)
        (
          refl,
          guard-eq-ok _ _ outs,
          not-true _ (guard-eq-ok _ _ unsigned),
          inputs-AreCreated 0 tx.vin creates inputs same created,
          length-map (λ (o : PsbtTxOut). record { unknown = [] }) tx.vout,
        )
