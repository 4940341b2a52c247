-- ===== src/Script/LockScripts.antt =====
-- The lock scripts of script.py against their extractors and the signing schemes.
use yubtc_python.Prelude.{
  ℕ, ◌+◌, ◌≡◌, ◌↔◌, [], ◌∷◌, length, drop, ◌==◌, ◌&&◌, if◌then◌else◌, Result, ok, err, value_error,
  arith,
}
use yubtc_python.Prelude.Bytes.{Bytes}
use yubtc_python.Script.{
  starts_with, make_p2wpkh_lock_script, make_p2tr_lock_script, make_p2wsh_lock_script,
  extract_p2wpkh_hash, extract_p2tr_output_key, extract_p2wsh_program, bip143_p2wpkh,
  bip341_keypath, sig_scheme_from_script_pubkey,
}

-- What the three extractors share: a length, two leading bytes, and the rest.
module _ (a b n : ℕ) where
  abbrev extract : Bytes → Result Bytes
  extract script =
      if length script == n + 2 && starts_with a b script
      then ok (drop 2 script)
      else err value_error

  abbrev make : Bytes → Result Bytes
  make key = if length key == n then ok (a ∷ b ∷ key) else err value_error

  extract_iff : (script key : Bytes) → (make key ≡ ok script) ↔ (extract script ≡ ok key)
  unfolding starts_with
  extract_iff [] key = (λ e. ground arith, λ e. ground arith)
  extract_iff (x ∷ []) key = (λ e. ground arith, λ e. ground arith)
  extract_iff (x ∷ y ∷ rest) key = (λ e. ground arith, λ e. ground arith)

-- A script is the P2WPKH lock script of a hash exactly when the extractor returns that hash from it.
pub p2wpkh_iff :
    (script hash160 : Bytes)
    → (make_p2wpkh_lock_script hash160 ≡ ok script) ↔ (extract_p2wpkh_hash script ≡ ok hash160)
unfolding make_p2wpkh_lock_script extract_p2wpkh_hash
p2wpkh_iff = extract_iff 0x00 0x14 20

-- A script is the P2TR lock script of an output key exactly when the extractor returns that key from it.
pub p2tr_iff :
    (script output_key : Bytes)
    → (make_p2tr_lock_script output_key ≡ ok script)
      ↔ (extract_p2tr_output_key script ≡ ok output_key)
unfolding make_p2tr_lock_script extract_p2tr_output_key
p2tr_iff = extract_iff 0x51 0x20 32

-- A script is the P2WSH lock script of a hash exactly when the extractor returns that hash from it.
pub p2wsh_iff :
    (script sha256 : Bytes)
    → (make_p2wsh_lock_script sha256 ≡ ok script) ↔ (extract_p2wsh_program script ≡ ok sha256)
unfolding make_p2wsh_lock_script extract_p2wsh_program
p2wsh_iff = extract_iff 0x00 0x20 32

-- An input is signed by BIP-143 exactly when the P2WPKH extractor accepts its script, and by the
-- BIP-341 key path exactly when the P2TR extractor does.
pub sig_scheme_iff :
    (script : Bytes)
    → ((sig_scheme_from_script_pubkey script ≡ bip143_p2wpkh)
        ↔ (extract_p2wpkh_hash script ≡ ok (drop 2 script)))
      × ((sig_scheme_from_script_pubkey script ≡ bip341_keypath)
          ↔ (extract_p2tr_output_key script ≡ ok (drop 2 script)))
unfolding sig_scheme_from_script_pubkey extract_p2wpkh_hash extract_p2tr_output_key
sig_scheme_iff script =
    ((λ e. ground arith, λ e. ground arith), (λ e. ground arith, λ e. ground arith))
