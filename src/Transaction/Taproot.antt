-- ===== src/Transaction/Taproot.antt =====
-- crypto.py: the Taproot output keys and the control block. The points of the curve, behind the package
-- coincurve, are a parameter.
use mathlib.Core.List.{reverse}
use yubtc_python.Prelude.{
  ℕ, ◌+◌, ◌%◌, [], ◌∷◌, ◌++◌, length, ltb, ◌==◌, Result, ok, ◌>>=◌, ◌>>◌, guard, except_value,
  value_error, tap_tweak_error,
}
use yubtc_python.Prelude.Bytes.{Bytes, index, slice, le_bytes, from_le}
use yubtc_python.Hash.{tagged_hash}
use yubtc_python.Transaction.Signing.{secp256k1_n}

-- What the code uses of coincurve's points: `PublicKey(data)` and `PrivateKey(secret).public_key`, which
-- raise a ValueError off the curve, `.combine([other])` and `.format(compressed=True)`.
pub record Curve : Type 1 where
  pub PublicKey : Type 0
  pub public_key : Bytes → Result PublicKey
  pub public_key_of_secret : Bytes → Result PublicKey
  pub combine : PublicKey → PublicKey → Result PublicKey
  pub format : PublicKey → Bytes

-- `b'TapTweak'`
abbrev pub tap_tweak : Bytes
tap_tweak = 0x54 ∷ 0x61 ∷ 0x70 ∷ 0x54 ∷ 0x77 ∷ 0x65 ∷ 0x61 ∷ 0x6b ∷ []

-- The NUMS point of every quorum (fwd.py).
abbrev pub ms_tapscript_internal_key : Bytes
ms_tapscript_internal_key =
    reverse (le_bytes 32 0x50929b74c1a04954b78b4b6035e97a5e078a5a0f28ec96d547bfee9ace803ac0)

-- `int.from_bytes(b, 'big')`
unfoldable pub from_be : Bytes → ℕ
from_be b = from_le (reverse b)

-- `if t >= SECP256K1_N: raise TapTweakError`
unfoldable pub tweak_script_scalar_from_digest : Bytes → Result ℕ
unfolding from_be
tweak_script_scalar_from_digest t_bytes = do
  let t = from_be t_bytes
  guard (ltb t secp256k1_n) tap_tweak_error
  ok t

module _ (sha256 : Bytes → Bytes) (curve : Curve) where
  -- `p.combine([PrivateKey(t.to_bytes(32, 'big')).public_key])`
  unfoldable pub tweaked_point : curve.PublicKey → ℕ → Result curve.PublicKey
  tweaked_point p t =
      except_value (do q ← curve.public_key_of_secret (reverse (le_bytes 32 t)); curve.combine p q)
        tap_tweak_error

  -- `PublicKey(b'\x02' + internal_xonly)`
  unfoldable pub lift_x : Bytes → Result curve.PublicKey
  lift_x internal_xonly = except_value (curve.public_key (0x02 ∷ internal_xonly)) tap_tweak_error

  unfoldable pub tweak_output_key : curve.PublicKey → ℕ → Result Bytes
  unfolding tweaked_point
  tweak_output_key p t = do tweaked ← tweaked_point p t; ok (slice (curve.format tweaked) 1 33)

  unfoldable pub taproot_output_key : Bytes → Result Bytes
  unfolding lift_x tweak_output_key from_be
  taproot_output_key internal_xonly = do
    guard (length internal_xonly == 32) value_error
    p ← lift_x internal_xonly
    let t = from_be (tagged_hash sha256 tap_tweak internal_xonly) % secp256k1_n
    tweak_output_key p t

  -- The internal key as a point and the tweak of the leaf, which the two functions below compute.
  unfoldable pub script_tweak : Bytes → Bytes → Result (curve.PublicKey × ℕ)
  unfolding lift_x tweak_script_scalar_from_digest
  script_tweak internal_xonly leaf_hash = do
    guard (length internal_xonly == 32) value_error
    guard (length leaf_hash == 32) value_error
    p ← lift_x internal_xonly
    t ← tweak_script_scalar_from_digest (tagged_hash sha256 tap_tweak (internal_xonly ++ leaf_hash))
    ok (p, t)

  unfoldable pub tapscript_output_key : Bytes → Bytes → Result Bytes
  unfolding script_tweak tweak_output_key
  tapscript_output_key internal_xonly leaf_hash = do
    (p, t) ← script_tweak internal_xonly leaf_hash
    tweak_output_key p t

  -- `TAPSCRIPT_LEAF_VERSION | parity`: the version 0xc0 is even.
  unfoldable pub tapscript_control_block : Bytes → Bytes → Result Bytes
  unfolding script_tweak tweaked_point
  tapscript_control_block internal_xonly leaf_hash = do
    (p, t) ← script_tweak internal_xonly leaf_hash
    q ← tweaked_point p t
    prefix ← index (curve.format q) 0
    ok ((0xc0 + prefix % 2) ∷ internal_xonly)
