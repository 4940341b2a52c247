-- ===== src/Psbt/Walk.antt =====
-- psbt.py: `sign_psbt`, the walk over the wallet's keys. The keys that `seed2privkey` derives, one for each
-- nonce and address form, are a parameter.
pub mod Keys
use yubtc_python.Prelude.{
  ℕ, zero, suc, ◌+◌, List, [], ◌∷◌, length, replicate, ◌&&◌, if◌then◌else◌, Bool, true, false,
  Result, ok, err, Error, ◌>>=◌, psbt, unsupported_sighash_type,
}
use yubtc_python.Prelude.Bytes.{Bytes}
use yubtc_python.Transaction.Signing.{Coincurve}
use yubtc_python.Transaction.Taproot.{Curve}
use yubtc_python.Psbt.Model.{Psbt}
use yubtc_python.Psbt.Signer.{sign_psbt_input}

-- `ADDR_TYPES`
pub data AddrType : Type 0 where
  legacy native taproot : AddrType

abbrev pub addr_types : List AddrType
addr_types = legacy ∷ native ∷ taproot ∷ []

abbrev pub psbt_sign_max_nonce : ℕ
psbt_sign_max_nonce = 1000

unfoldable pub all_signed : List Bool → Bool
all_signed [] = true
all_signed (b ∷ bs) = b && all_signed bs

-- `try: … except UnsupportedSighashType: continue`
unfoldable pub is_skipped : Error → Bool
is_skipped (psbt (unsupported_sighash_type ty)) = true
is_skipped _ = false

unfoldable pub skip_or_raise : Bool → Error → Psbt → Result (Psbt × Bool)
skip_or_raise true raised p = ok (p, false)
skip_or_raise false raised p = err raised

unfoldable pub or_skipped : Psbt → Result (Psbt × Bool) → Result (Psbt × Bool)
unfolding is_skipped skip_or_raise
or_skipped p (ok r) = ok r
or_skipped p (err raised) = skip_or_raise (is_skipped raised) raised p

-- `[i for i in range(n_inputs) if not signed[i]]`, from input `i` on
unfoldable pub unsigned_from : ℕ → List Bool → List ℕ
unsigned_from i [] = []
unsigned_from i (b ∷ bs) = let rest = unsigned_from (i + 1) bs in if b then rest else i ∷ rest

module _ (sha256 ripemd160 : Bytes → Bytes) (lib : Coincurve) (curve : Curve)
    (seed2privkey : ℕ → AddrType → lib.PrivateKey) where
  -- The loop over the inputs from input `i` on, with what is signed of them.
  unfoldable pub sign_inputs : lib.PrivateKey → ℕ → List Bool → Psbt → Result (Psbt × List Bool)
  unfolding or_skipped
  sign_inputs key i [] p = ok (p, [])
  sign_inputs key i (true ∷ signed) p = do
    (p', signed') ← sign_inputs key (i + 1) signed p
    ok (p', true ∷ signed')
  sign_inputs key i (false ∷ signed) p = do
    (p1, b) ← or_skipped p (sign_psbt_input sha256 ripemd160 lib curve p i key)
    (p', signed') ← sign_inputs key (i + 1) signed p1
    ok (p', b ∷ signed')

  unfoldable pub sign_forms : ℕ → List AddrType → List Bool → Psbt → Result (Psbt × List Bool)
  unfolding sign_inputs
  sign_forms nonce [] signed p = ok (p, signed)
  sign_forms nonce (form ∷ forms) signed p = do
    (p', signed') ← sign_inputs (seed2privkey nonce form) 0 signed p
    sign_forms nonce forms signed' p'

  -- The loop over the nonces, with `count` of them to go.
  unfoldable pub sign_nonces : ℕ → ℕ → List Bool → Psbt → Result (Psbt × List Bool)
  unfolding all_signed sign_forms
  sign_nonces zero nonce signed p = ok (p, signed)
  sign_nonces (suc count) nonce signed p = elim (all_signed signed) [
    | true ↦ ok (p, signed)
    | false ↦ do
      (p', signed') ← sign_forms nonce addr_types signed p
      sign_nonces count (nonce + 1) signed' p'
  ]

  unfoldable pub sign_psbt : Psbt → Result (Psbt × List ℕ)
  unfolding sign_nonces unsigned_from
  sign_psbt p = do
    (p', signed) ← sign_nonces psbt_sign_max_nonce 0 (replicate (length p.inputs) false) p
    ok (p', unsigned_from 0 signed)
