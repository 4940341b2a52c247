-- ===== src/Transaction/Signing/Round.antt =====
-- One round of the loop of `sign_segwit`, at a transaction that differs from the given one in what
-- signing writes alone.
use yubtc_python.Prelude.{
  ℕ, suc, ◌≡◌, refl, sym, ap, ◌∙◌, List, [], ◌∷◌, ◌++◌, map, length, Option, Result, ok, ◌>>=◌,
  >>=-eq-ok, >>=-cong, >>=-cong_of, >>=_assoc, ok-injective,
}
use yubtc_python.Prelude.Bytes.{Bytes}
use yubtc_python.Script.{SigScheme, legacy, bip143_p2wpkh, bip341_keypath}
use yubtc_python.Transaction.Model.{CIn, CTransaction}
use yubtc_python.Transaction.Sighash.{
  SpendInput, p2wpkh_script_code, bip143_sighash_in_range, taproot_keypath_sighash_in_range,
}
use yubtc_python.Transaction.Sighash.Commitment.{blank, blanked, bip143-blanked, keypath-blanked}
use yubtc_python.Transaction.Signing.{
  Coincurve, update, set_script, set_witness, spend_input, whole_context, sign_hash,
  taproot_sign_sighash, legacy_script_sig, sign_by_scheme,
}

update-append {ℓ} :
    {A : Type ℓ} (f : A → A) (xs : List A) (y : A) (ys : List A)
    → update f (length xs) (xs ++ y ∷ ys) ≡ xs ++ f y ∷ ys
unfolding update
update-append f [] y ys = refl
update-append f (x ∷ xs) y ys = ap (◌∷◌ x) (update-append f xs y ys)

pub map-append-blank :
    (xs : List CIn) (v w : CIn) (ys : List CIn)
    → blank w ≡ blank v
    → map blank (xs ++ w ∷ ys) ≡ map blank (xs ++ v ∷ ys)
map-append-blank [] v w ys e = ap (λ b. b ∷ map blank ys) e
map-append-blank (x ∷ xs) v w ys e = ap (◌∷◌ (blank x)) (map-append-blank xs v w ys e)

length-map-blank : (xs ys : List CIn) → map blank xs ≡ map blank ys → length xs ≡ length ys
length-map-blank xs ys e = sym (size xs) ∙ ap length e ∙ size ys
  where
    size : (xs : List CIn) → length (map blank xs) ≡ length xs
    size [] = refl
    size (x ∷ xs) = ap suc (size xs)

module _ (sha256 : Bytes → Bytes) (lib : Coincurve) where
  -- Input `v` of `self`, at index `i`, signed with the digests of `self`.
  unfoldable pub signed_by_scheme :
      SigScheme
      → CTransaction
      → Option (List SpendInput)
      → ℕ
      → lib.PrivateKey
      → Bytes
      → CIn
      → Result CIn
  signed_by_scheme legacy self ctx i k w v = do
    script' ← legacy_script_sig sha256 lib self i k w
    ok (record v { script = script' })
  signed_by_scheme bip143_p2wpkh self ctx i k w v = do
    meta ← spend_input ctx i
    sighash ← bip143_sighash_in_range sha256 self i (p2wpkh_script_code v.script) meta.amount
    ok (record v { script = []; witness = (sign_hash sha256 lib k sighash ++ 0x01 ∷ []) ∷ w ∷ [] })
  signed_by_scheme bip341_keypath self ctx i k w v = do
    spend ← whole_context ctx (length self.vin)
    sighash ← taproot_keypath_sighash_in_range sha256 self i spend
    signature ← taproot_sign_sighash sha256 lib k sighash
    ok (record v { script = []; witness = signature ∷ [] })

  pub signed_by_scheme-blank :
      (s : SigScheme) (self : CTransaction) (ctx : Option (List SpendInput)) (i : ℕ)
      (k : lib.PrivateKey) (w : Bytes) (v v' : CIn)
      → signed_by_scheme s self ctx i k w v ≡ ok v'
      → blank v' ≡ blank v
  unfolding signed_by_scheme
  signed_by_scheme-blank legacy self ctx i k w v v' e =
      let (a, h, f) = >>=-eq-ok (legacy_script_sig sha256 lib self i k w) _ e in
      ap blank (sym (ok-injective f))
  signed_by_scheme-blank bip143_p2wpkh self ctx i k w v v' e =
      let (meta, h, f) = >>=-eq-ok (spend_input ctx i) _ e in
      let (b, h', f') =
        >>=-eq-ok (bip143_sighash_in_range sha256 self i (p2wpkh_script_code v.script) meta.amount)
          _ f in
      ap blank (sym (ok-injective f'))
  signed_by_scheme-blank bip341_keypath self ctx i k w v v' e =
      let (spend, h, f) = >>=-eq-ok (whole_context ctx (length self.vin)) _ e in
      let (sighash, h', f') =
        >>=-eq-ok (taproot_keypath_sighash_in_range sha256 self i spend) _ f in
      let (c, h'', f'') = >>=-eq-ok (taproot_sign_sighash sha256 lib k sighash) _ f' in
      ap blank (sym (ok-injective f''))

  -- One round, at a transaction that differs from `self` in what signing writes alone.
  module _ (self : CTransaction) (done : List CIn) (v : CIn) (rest : List CIn)
      (same : map blank (done ++ v ∷ rest) ≡ map blank self.vin) where
    unfoldable pub so_far : CTransaction
    so_far = record self { vin = done ++ v ∷ rest }

    alike : blanked so_far ≡ blanked self
    unfolding so_far
    alike = ap (λ (vs : List CIn). record self { vin = vs }) same

    bip143-so_far :
        (i : ℕ) (code : Bytes) (amount : ℕ)
        → bip143_sighash_in_range sha256 so_far i code amount
          ≡ bip143_sighash_in_range sha256 self i code amount
    bip143-so_far i code amount =
        sym (bip143-blanked sha256 so_far i code amount)
        ∙ ap (λ t. bip143_sighash_in_range sha256 t i code amount) alike
        ∙ bip143-blanked sha256 self i code amount

    keypath-so_far :
        (i : ℕ) (spend : List SpendInput)
        → taproot_keypath_sighash_in_range sha256 so_far i spend
          ≡ taproot_keypath_sighash_in_range sha256 self i spend
    keypath-so_far i spend =
        sym (keypath-blanked sha256 so_far i spend)
        ∙ ap (λ t. taproot_keypath_sighash_in_range sha256 t i spend) alike
        ∙ keypath-blanked sha256 self i spend

    length-so_far : length so_far.vin ≡ length self.vin
    unfolding so_far
    length-so_far = length-map-blank (done ++ v ∷ rest) self.vin same

    set_script-so_far :
        (s : Bytes)
        → set_script so_far (length done) s
          ≡ record self { vin = done ++ record v { script = s } ∷ rest }
    unfolding so_far set_script
    set_script-so_far s =
        ap (λ (vs : List CIn). record self { vin = vs })
          (update-append (λ (u : CIn). record u { script = s }) done v rest)

    set_witness-so_far :
        (w : List Bytes)
        → set_witness so_far (length done) w
          ≡ record self { vin = done ++ record v { script = []; witness = w } ∷ rest }
    unfolding so_far set_witness
    set_witness-so_far w =
        ap (λ (vs : List CIn). record self { vin = vs })
          (update-append (λ (u : CIn). record u { script = []; witness = w }) done v rest)

    pub round :
        (s : SigScheme) (ctx : Option (List SpendInput)) (k : lib.PrivateKey) (w : Bytes)
        → sign_by_scheme sha256 lib s self ctx (length done) k w v so_far ≡ (
            signed_by_scheme s self ctx (length done) k w v >>= λ v'.
            ok (record self { vin = done ++ v' ∷ rest }))
    unfolding sign_by_scheme signed_by_scheme
    round legacy ctx k w =
        >>=-cong (legacy_script_sig sha256 lib self (length done) k w)
          (λ script'. ap ok (set_script-so_far script'))
        ∙ sym (>>=_assoc (legacy_script_sig sha256 lib self (length done) k w) _ _)
    round bip143_p2wpkh ctx k w =
        >>=-cong (spend_input ctx (length done)) (λ meta.
          >>=-cong_of (bip143-so_far (length done) (p2wpkh_script_code v.script) meta.amount)
            (λ sighash.
              ap ok (set_witness-so_far ((sign_hash sha256 lib k sighash ++ 0x01 ∷ []) ∷ w ∷ [])))
          ∙ sym (
              >>=_assoc
                (bip143_sighash_in_range sha256 self (length done) (p2wpkh_script_code v.script)
                  meta.amount)
                _ _))
        ∙ sym (>>=_assoc (spend_input ctx (length done)) _ _)
    round bip341_keypath ctx k w = rw length-so_far (
        >>=-cong (whole_context ctx (length self.vin)) (λ spend.
          >>=-cong_of (keypath-so_far (length done) spend) (λ sighash.
            >>=-cong (taproot_sign_sighash sha256 lib k sighash)
              (λ signature. ap ok (set_witness-so_far (signature ∷ [])))
            ∙ sym (>>=_assoc (taproot_sign_sighash sha256 lib k sighash) _ _))
          ∙ sym (>>=_assoc (taproot_keypath_sighash_in_range sha256 self (length done) spend) _ _))
        ∙ sym (>>=_assoc (whole_context ctx (length self.vin)) _ _))
