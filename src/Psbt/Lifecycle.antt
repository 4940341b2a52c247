-- ===== src/Psbt/Lifecycle.antt =====
-- The life of a PSBT: the operations of the Signer, the Combiner and the Finalizer (psbt.py) as steps
-- from one state to the next.
pub mod Grows
pub mod Extracts
use yubtc_python.Prelude.{ℕ, ◌≡◌, Bool, ok}
use yubtc_python.Prelude.Bytes.{Bytes}
use yubtc_python.Transaction.Signing.{Coincurve}
use yubtc_python.Transaction.Taproot.{Curve}
use yubtc_python.Psbt.Model.{Psbt}
use yubtc_python.Psbt.Merge.{combine_psbt}
use yubtc_python.Psbt.Finalizer.{finalize_psbt_input, finalize_psbt}
use yubtc_python.Psbt.Signer.{sign_psbt_input}

module _ (sha256 ripemd160 : Bytes → Bytes) (lib : Coincurve) (curve : Curve) where
  pub data Step : Psbt → Psbt → Type 1 where
    signs :
        {p p' : Psbt} (i : ℕ) (privkey : lib.PrivateKey) (b : Bool)
        → sign_psbt_input sha256 ripemd160 lib curve p i privkey ≡ ok (p', b)
        → Step p p'
    combines : {p p' : Psbt} (other : Psbt) → combine_psbt p other ≡ ok p' → Step p p'
    finalizes_one :
        {p p' : Psbt} (i : ℕ) → finalize_psbt_input sha256 ripemd160 curve p i ≡ ok p' → Step p p'
    finalizes : {p p' : Psbt} → finalize_psbt sha256 ripemd160 curve p ≡ ok p' → Step p p'

  -- Any number of steps, in any order.
  pub data Reach (p : Psbt) : Psbt → Type 1 where
    here : Reach p p
    next : {q r : Psbt} → Reach p q → Step q r → Reach p r
