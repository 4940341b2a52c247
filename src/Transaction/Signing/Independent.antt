-- ===== src/Transaction/Signing/Independent.antt =====
-- `sign_segwit`, which updates the transaction as it goes, against signing every input by itself.
use yubtc_python.Prelude.{
  ℕ, ◌+◌, ◌≡◌, refl, sym, ap, ap₂, ◌∙◌, List, [], ◌∷◌, ◌++◌, append_assoc, map, length,
  length-append, drop, drop-drop, ◌==◌, ==_iff, if◌then◌else◌, Bool-cases, inl, inr, Option, Result,
  ok, err, ◌>>=◌, >>=-cong, >>=-cong_of, >>=_assoc, value_error, arith,
}
use yubtc_python.Prelude.Bytes.{Bytes, index, index_of_drop}
use yubtc_python.Script.{sig_scheme_from_script_pubkey}
use yubtc_python.Transaction.Model.{CIn, CTransaction}
use yubtc_python.Transaction.Sighash.{SpendInput}
use yubtc_python.Transaction.Sighash.Commitment.{blank}
use yubtc_python.Transaction.Signing.{Coincurve, sign_input, sign_segwit_loop, sign_segwit}
use yubtc_python.Transaction.Signing.Round.{
  map-append-blank, signed_by_scheme, signed_by_scheme-blank, so_far, round,
}

module _ (sha256 : Bytes → Bytes) (lib : Coincurve) where
  unfoldable pub signed_input :
      CTransaction → Option (List SpendInput) → ℕ → lib.PrivateKey → Bytes → CIn → Result CIn
  unfolding signed_by_scheme
  signed_input self ctx i k w v =
      signed_by_scheme sha256 lib (sig_scheme_from_script_pubkey v.script) self ctx i k w v

  -- The inputs `vs`, from index `i` on, each signed by its own signer.
  unfoldable pub signed_inputs :
      CTransaction
      → Option (List SpendInput)
      → ℕ
      → List CIn
      → List (lib.PrivateKey × Bytes)
      → Result (List CIn)
  unfolding signed_input
  signed_inputs self ctx i [] signers = ok []
  signed_inputs self ctx i (v ∷ vs) [] = ok []
  signed_inputs self ctx i (v ∷ vs) ((k, w) ∷ signers) = do
    v' ← signed_input self ctx i k w v
    vs' ← signed_inputs self ctx (i + 1) vs signers
    ok (v' ∷ vs')

  signed_input-blank :
      (self : CTransaction) (ctx : Option (List SpendInput)) (i : ℕ) (k : lib.PrivateKey)
      (w : Bytes) (v v' : CIn)
      → signed_input self ctx i k w v ≡ ok v'
      → blank v' ≡ blank v
  unfolding signed_input
  signed_input-blank self ctx i k w v = signed_by_scheme-blank sha256 lib _ self ctx i k w v

  sign_input-independent :
      (self : CTransaction) (ctx : Option (List SpendInput)) (k : lib.PrivateKey) (w : Bytes)
      (done : List CIn) (v : CIn) (rest : List CIn)
      → map blank (done ++ v ∷ rest) ≡ map blank self.vin
      → index self.vin (length done) ≡ ok v
      → sign_input sha256 lib self ctx (length done) k w (record self { vin = done ++ v ∷ rest })
        ≡ (signed_input self ctx (length done) k w v >>= λ v'.
            ok (record self { vin = done ++ v' ∷ rest }))
  unfolding sign_input signed_input so_far
  sign_input-independent self ctx k w done v rest same at_i =
      rw at_i
        (round sha256 lib self done v rest same (sig_scheme_from_script_pubkey v.script) ctx k w)

  loop_from :
      (self : CTransaction) (ctx : Option (List SpendInput))
      (signers : List (lib.PrivateKey × Bytes)) (done rest : List CIn)
      → length signers ≡ length rest
      → map blank (done ++ rest) ≡ map blank self.vin
      → drop (length done) self.vin ≡ rest
      → sign_segwit_loop sha256 lib self ctx signers
          (length done)
          (record self { vin = done ++ rest })
        ≡ (signed_inputs self ctx (length done) rest signers >>= λ vs.
            ok (record self { vin = done ++ vs }))
  unfolding sign_segwit_loop signed_inputs
  loop_from self ctx [] done [] e same at_rest = refl
  loop_from self ctx [] done (v ∷ rest) e same at_rest = absurd (omega arith)
  loop_from self ctx ((k, w) ∷ signers) done [] e same at_rest = absurd (omega arith)
  loop_from self ctx ((k, w) ∷ signers) done (v ∷ rest) e same at_rest =
      >>=-cong_of
        (sign_input-independent self ctx k w done v rest same
          (index_of_drop self.vin rest (length done) v at_rest))
        (λ tx. refl)
      ∙ >>=_assoc (signed_input self ctx (length done) k w v) _ _
      ∙ go (λ done'. loop_from self ctx signers done' rest)
          (signed_input self ctx (length done) k w v) refl
      ∙ sym (>>=_assoc (signed_input self ctx (length done) k w v) _ _)
    where
      go :
          ((done' : List CIn)
            → length signers ≡ length rest
            → map blank (done' ++ rest) ≡ map blank self.vin
            → drop (length done') self.vin ≡ rest
            → sign_segwit_loop sha256 lib self ctx signers
                (length done')
                (record self { vin = done' ++ rest })
              ≡ (signed_inputs self ctx (length done') rest signers >>= λ vs.
                  ok (record self { vin = done' ++ vs })))
          → (r : Result CIn) → signed_input self ctx (length done) k w v ≡ r
          → (r >>= λ v'.
              sign_segwit_loop sha256 lib self ctx signers
                (length done + 1)
                (record self { vin = done ++ v' ∷ rest }))
            ≡ (r >>= λ v'.
                (signed_inputs self ctx (length done + 1) rest signers >>= λ vs. ok (v' ∷ vs))
                >>= λ vs. ok (record self { vin = done ++ vs }))
      go next (err e) is_r = refl
      go next (ok v') is_r =
          let size : length (done ++ v' ∷ []) ≡ length done + 1 = length-append done (v' ∷ []) in
          let joined : (done ++ v' ∷ []) ++ rest ≡ done ++ v' ∷ rest =
            append_assoc done (v' ∷ []) rest in
          let same' : map blank ((done ++ v' ∷ []) ++ rest) ≡ map blank self.vin =
            ap (map blank) joined
            ∙ map-append-blank done v v' rest
                (signed_input-blank self ctx (length done) k w v v' is_r)
            ∙ same in
          let at' : drop (length (done ++ v' ∷ [])) self.vin ≡ rest =
            ap (λ n. drop n self.vin) size
            ∙ sym (drop-drop (length done) 1 self.vin)
            ∙ ap (drop 1) at_rest in
          ap₂ (λ n vs. sign_segwit_loop sha256 lib self ctx signers n (record self { vin = vs }))
            (sym size) (sym joined)
          ∙ next (done ++ v' ∷ []) (omega arith) same' at'
          ∙ ap
              (λ n. signed_inputs self ctx n rest signers >>= λ vs.
                ok (record self { vin = (done ++ v' ∷ []) ++ vs }))
              size
          ∙ >>=-cong (signed_inputs self ctx (length done + 1) rest signers) (λ vs.
            ap (λ (l : List CIn). ok (record self { vin = l })) (append_assoc done (v' ∷ []) vs))
          ∙ sym (>>=_assoc (signed_inputs self ctx (length done + 1) rest signers) _ _)

  -- `sign_segwit` refuses a list of signers that is not parallel to the inputs. Otherwise its result is
  -- that of signing every input by itself, each with the digests of the unsigned transaction: what the
  -- loop has written to earlier inputs does not change a later signature, and it fails where the first
  -- of the inputs fails.
  pub sign_segwit_lem :
      (self : CTransaction) (signers : List (lib.PrivateKey × Bytes))
      (spend : Option (List SpendInput))
      → sign_segwit sha256 lib self signers spend ≡ (
          if length signers == length self.vin
          then (signed_inputs self spend 0 self.vin signers >>= λ vs. ok (record self { vin = vs }))
          else err value_error)
  unfolding sign_segwit
  sign_segwit_lem self signers spend = elim (Bool-cases (length signers == length self.vin)) [
    | inl parallel ↦ rw parallel (
        loop_from self spend signers [] self.vin
          ((==_iff (length signers) (length self.vin)).0 parallel) refl refl)
    | inr short ↦ rw short
  ]
