-- ===== src/Transaction/Signing.antt =====
-- transaction.py and crypto.py: signing. libsecp256k1, behind the package coincurve, is a parameter.
pub mod Round
pub mod Independent
use mathlib.Core.List.{reverse}
use yubtc_python.Prelude.{
  ℕ, zero, suc, ◌+◌, ◌-◌, ◌*◌, ◌%◌, List, [], ◌∷◌, ◌++◌, map, length, replicate, ◌==◌, not,
  if◌then◌else◌, Bool, true, false, Option, none, some, Result, ok, err, ◌>>=◌, value_error, arith,
}
use yubtc_python.Prelude.Bytes.{Bytes, index, slice, pack, le_bytes, from_le}
use yubtc_python.Hash.{dsha256, tagged_hash}
use yubtc_python.Script.{
  ScriptItem, push, cscript, SigScheme, legacy, bip143_p2wpkh, bip341_keypath,
  sig_scheme_from_script_pubkey,
}
use yubtc_python.Transaction.Model.{CIn, CTransaction, serialize_stripped}
use yubtc_python.Transaction.Sighash.{
  SpendInput, p2wpkh_script_code, bip143_sighash_in_range, taproot_keypath_sighash_in_range,
}

-- What the code uses of coincurve: `PrivateKey(secret)` (which raises when the scalar is out of range),
-- `.secret`, `.public_key.format(compressed=True)`, `.sign(hash, hasher=None)` and `.sign_schnorr`.
pub record Coincurve : Type 1 where
  pub PrivateKey : Type 0
  pub private_key : Bytes → Result PrivateKey
  pub secret : PrivateKey → Bytes
  pub public_key : PrivateKey → Bytes
  pub sign : PrivateKey → Bytes → Bytes
  pub sign_schnorr : PrivateKey → Bytes → Bytes → Bytes

abbrev pub secp256k1_n : ℕ
secp256k1_n = 0xfffffffffffffffffffffffffffffffebaaedce6af48a03bbfd25e8cd0364141

-- `b'TapTweak'`
abbrev tap_tweak : Bytes
tap_tweak = 0x54 ∷ 0x61 ∷ 0x70 ∷ 0x54 ∷ 0x77 ∷ 0x65 ∷ 0x61 ∷ 0x6b ∷ []

-- `tx.vin[i] = f(tx.vin[i])`
unfoldable pub update {ℓ} : {A : Type ℓ} → (A → A) → ℕ → List A → List A
update f i [] = []
update f zero (x ∷ xs) = f x ∷ xs
update f (suc i) (x ∷ xs) = x ∷ update f i xs

-- `tx.vin[i].script = s`, and with it `tx.vin[i].witness = w`
unfoldable pub set_script : CTransaction → ℕ → Bytes → CTransaction
unfolding update
set_script tx i s = record tx { vin = update (λ (v : CIn). record v { script = s }) i tx.vin }

unfoldable pub set_witness : CTransaction → ℕ → List Bytes → CTransaction
unfolding update
set_witness tx i w = record tx {
  vin = update (λ (v : CIn). record v { script = []; witness = w }) i tx.vin;
}

-- Every script emptied but that of input `i`.
unfoldable pub blank_others : ℕ → List CIn → List CIn
blank_others i [] = []
blank_others zero (v ∷ vs) = v ∷ map (λ (u : CIn). record u { script = [] }) vs
blank_others (suc i) (v ∷ vs) = record v { script = [] } ∷ blank_others i vs

-- `ctx[i]`, with an absent or a short context refused
unfoldable pub spend_input : Option (List SpendInput) → ℕ → Result SpendInput
spend_input none i = err value_error
spend_input (some []) i = err value_error
spend_input (some (meta ∷ ctx)) zero = ok meta
spend_input (some (meta ∷ ctx)) (suc i) = spend_input (some ctx) i

-- The context of a Taproot input covers every input.
unfoldable pub whole_context : Option (List SpendInput) → ℕ → Result (List SpendInput)
whole_context none n = err value_error
whole_context (some ctx) n = if length ctx == n then ok ctx else err value_error

module _ (sha256 : Bytes → Bytes) (lib : Coincurve) where
  unfoldable pub sign_hash : lib.PrivateKey → Bytes → Bytes
  sign_hash k datahash = lib.sign k datahash

  unfoldable pub sign_data : lib.PrivateKey → Bytes → Bytes
  sign_data k data' = lib.sign k (sha256 (sha256 data'))

  -- `d` is at most the group order, so the subtraction does not stop at 0.
  unfoldable pub taproot_tweaked_scalar : lib.PrivateKey → Result ℕ
  taproot_tweaked_scalar k =
      let pubkey = lib.public_key k in
      let t = from_le (reverse (tagged_hash sha256 tap_tweak (slice pubkey 1 33))) % secp256k1_n in
      let d = from_le (reverse (lib.secret k)) in
      do
        parity ← index pubkey 0
        let even = if parity == 0x03 then secp256k1_n - d else d
        ok ((even + t) % secp256k1_n)

  unfoldable pub taproot_sign_sighash : lib.PrivateKey → Bytes → Result Bytes
  taproot_sign_sighash k sighash = do
    tweaked ← taproot_tweaked_scalar k
    key ← lib.private_key (reverse (le_bytes 32 tweaked))
    ok (lib.sign_schnorr key sighash (replicate 32 0))

  unfoldable pub taproot_sign_sighash_untweaked : lib.PrivateKey → Bytes → Bytes
  taproot_sign_sighash_untweaked k sighash = lib.sign_schnorr k sighash (replicate 32 0)

  unfoldable pub legacy_script_sig : CTransaction → ℕ → lib.PrivateKey → Bytes → Result Bytes
  unfolding blank_others sign_data
  legacy_script_sig self i k pubkey = do
    let tx : CTransaction = record self { vin = blank_others i self.vin }
    data' ← serialize_stripped tx
    let signature = sign_data k (data' ++ 0x01 ∷ 0 ∷ 0 ∷ 0 ∷ []) ++ 0x01 ∷ []
    cscript (push signature ∷ push pubkey ∷ [])

  -- The loop of `sign` from input `i` on.
  sign_loop : CTransaction → List (lib.PrivateKey × Bytes) → ℕ → CTransaction → Result CTransaction
  unfolding set_script
  sign_loop self [] i tx = ok tx
  sign_loop self ((k, w) ∷ signers) i tx = do
    script ← legacy_script_sig self i k w
    sign_loop self signers (i + 1) (set_script tx i script)

  unfoldable pub sign : CTransaction → List (lib.PrivateKey × Bytes) → Result CTransaction
  unfolding sign_loop
  sign self signers =
      if not (length signers == length self.vin)
      then err value_error
      else sign_loop self signers 0 self

  -- One round of the loop of `sign_segwit`: the scheme is that of the input as it was given, the
  -- witness digests are those of the transaction as signed so far.
  unfoldable pub sign_by_scheme :
      SigScheme
      → CTransaction
      → Option (List SpendInput)
      → ℕ
      → lib.PrivateKey
      → Bytes
      → CIn
      → CTransaction
      → Result CTransaction
  unfolding set_script set_witness
  sign_by_scheme legacy self ctx i k w given tx = do
    script ← legacy_script_sig self i k w
    ok (set_script tx i script)
  sign_by_scheme bip143_p2wpkh self ctx i k w given tx = do
    meta ← spend_input ctx i
    sighash ← bip143_sighash_in_range sha256 tx i (p2wpkh_script_code given.script) meta.amount
    ok (set_witness tx i ((sign_hash k sighash ++ 0x01 ∷ []) ∷ w ∷ []))
  sign_by_scheme bip341_keypath self ctx i k w given tx = do
    spend ← whole_context ctx (length tx.vin)
    sighash ← taproot_keypath_sighash_in_range sha256 tx i spend
    signature ← taproot_sign_sighash k sighash
    ok (set_witness tx i (signature ∷ []))

  unfoldable pub sign_input :
      CTransaction
      → Option (List SpendInput)
      → ℕ
      → lib.PrivateKey
      → Bytes
      → CTransaction
      → Result CTransaction
  unfolding sign_by_scheme
  sign_input self ctx i k w tx = do
    given ← index self.vin i
    sign_by_scheme (sig_scheme_from_script_pubkey given.script) self ctx i k w given tx

  unfoldable pub sign_segwit_loop :
      CTransaction
      → Option (List SpendInput)
      → List (lib.PrivateKey × Bytes)
      → ℕ
      → CTransaction
      → Result CTransaction
  sign_segwit_loop self ctx [] i tx = ok tx
  sign_segwit_loop self ctx ((k, w) ∷ signers) i tx = do
    tx' ← sign_input self ctx i k w tx
    sign_segwit_loop self ctx signers (i + 1) tx'

  unfoldable pub sign_segwit :
      CTransaction → List (lib.PrivateKey × Bytes) → Option (List SpendInput) → Result CTransaction
  sign_segwit self signers spend =
      if not (length signers == length self.vin)
      then err value_error
      else sign_segwit_loop self spend signers 0 self
