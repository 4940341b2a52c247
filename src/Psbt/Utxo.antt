-- ===== src/Psbt/Utxo.antt =====
-- psbt.py: what the roles share. The UTXO of an input and the forms of its lock script, the checks of a
-- redeem script and of a tapscript leaf against it, and the identifier of a transaction.
use mathlib.Core.List.{reverse}
use yubtc_python.Prelude.{
  ℕ, zero, suc, ◌+◌, ◌-◌, ◌/◌, ◌%◌, ◌*◌, List, [], ◌∷◌, length, get_elem?, take, ◌==◌, ◌&&◌,
  if◌then◌else◌, Bool, true, false, Option, none, some, Result, ok, err, Error, ◌>>=◌, ◌>>◌, guard,
  except_value, value_error, psbt, unsupported_input_script, utxo_mismatch,
}
use yubtc_python.Prelude.Bytes.{Bytes, bytes_eq, slice}
use yubtc_python.Hash.{dsha256, hash160}
use yubtc_python.Transaction.Sighash.{SpendInput}
use yubtc_python.Transaction.Signing.{update}
use yubtc_python.Transaction.Taproot.{
  Curve, ms_tapscript_internal_key, taproot_output_key, tapscript_output_key,
}
use yubtc_python.Script.{
  op_dup, op_hash160, op_equal, op_equalverify, op_checksig, extract_p2wpkh_hash,
  extract_p2tr_output_key, starts_with,
}
use yubtc_python.Script.Multisig.{extract_multisig_quorum}
use yubtc_python.Script.Tapscript.{
  tapscript_leaf_version, extract_multisig_tapscript, tapscript_leaf_hash,
}
use yubtc_python.Psbt.Tx.{PsbtTxIn, PsbtTxOut, PsbtTransaction, serialize_stripped}
use yubtc_python.Psbt.Model.{PsbtIn, Psbt, TapLeafScript}

-- `psbt.inputs[i]`, changed in place.
unfoldable pub set_input : Psbt → ℕ → (PsbtIn → PsbtIn) → Psbt
unfolding update
set_input p i f = record p { inputs = update f i p.inputs }

-- The entry of `vout` that an input spends.
unfoldable pub spent_output : Option PsbtTxIn → PsbtTransaction → Option PsbtTxOut
spent_output none prev = none
spent_output (some vin) prev = get_elem? prev.vout vin.n

unfoldable pub out_data : Option PsbtTxOut → Option (Bytes × ℕ)
out_data none = none
out_data (some out) = some (out.script, out.amount)

unfoldable pub utxo_data :
    Option PsbtTxOut → Option PsbtTransaction → Option PsbtTxIn → Option (Bytes × ℕ)
unfolding out_data spent_output
utxo_data (some utxo) prev vin = out_data (some utxo)
utxo_data none none vin = none
utxo_data none (some prev) vin = out_data (spent_output vin prev)

-- What `input_utxo_data` makes of the input and of the entry of `vin` at its index.
unfoldable pub input_data : Option PsbtIn → Option PsbtTxIn → Option (Bytes × ℕ)
unfolding utxo_data
input_data none vin = none
input_data (some input) vin = utxo_data input.witness_utxo input.non_witness_utxo vin

unfoldable pub input_utxo_data : Psbt → ℕ → Option (Bytes × ℕ)
unfolding input_data
input_utxo_data p i = input_data (get_elem? p.inputs i) (get_elem? p.unsigned_tx.vin i)

unfoldable pub spend_cons : Option (Bytes × ℕ) → Option (List SpendInput) → Option (List SpendInput)
spend_cons none rest = none
spend_cons (some data') none = none
spend_cons (some (script_pubkey, amount)) (some rest) =
    some (record { amount = amount; script_pubkey = script_pubkey } ∷ rest)

-- The loop of `_spend_context` from input `i` on, with `count` inputs to go.
unfoldable pub spend_context_from : Psbt → ℕ → ℕ → Option (List SpendInput)
unfolding spend_cons
spend_context_from p i zero = some []
spend_context_from p i (suc count) =
    spend_cons (input_utxo_data p i) (spend_context_from p (i + 1) count)

unfoldable pub spend_context : Psbt → Option (List SpendInput)
unfolding spend_context_from
spend_context p = spend_context_from p 0 (length p.unsigned_tx.vin)

-- `script[i] == b`
unfoldable pub byte_is : Bytes → ℕ → ℕ → Bool
byte_is [] i b = false
byte_is (x ∷ xs) zero b = x == b
byte_is (x ∷ xs) (suc i) b = byte_is xs i b

-- `script2pkh` of transaction.py
unfoldable pub script2pkh : Bytes → Result Bytes
unfolding byte_is
script2pkh script =
    if length script == 25
      && (byte_is script 0 op_dup
          && (byte_is script 1 op_hash160
              && (byte_is script 2 20
                  && (byte_is script 23 op_equalverify && byte_is script 24 op_checksig))))
    then ok (slice script 3 23)
    else err value_error

unfoldable pub is_p2sh_script : Bytes → Bool
unfolding byte_is
is_p2sh_script script =
    length script == 23
    && (byte_is script 0 op_hash160 && (byte_is script 1 0x14 && byte_is script 22 op_equal))

unfoldable pub is_p2wsh_script : Bytes → Bool
is_p2wsh_script script = length script == 34 && starts_with 0x00 0x20 script

unfoldable pub is_p2tr_script : Bytes → Bool
is_p2tr_script script = length script == 34 && starts_with 0x51 0x20 script

-- `('legacy', hash)`, `('p2wpkh', hash)` and `('p2tr', key)`.
pub data Form : Type 0 where
  legacy_form p2wpkh_form p2tr_form : Bytes → Form

abbrev pub committed : Form → Bytes
committed (legacy_form hash') = hash'
committed (p2wpkh_form hash') = hash'
committed (p2tr_form key) = key

-- `try: return …, except ValueError: pass`; the three extractors raise nothing else.
unfoldable pub or_form : Result Bytes → (Bytes → Form) → Option Form → Option Form
or_form (ok h) form rest = some (form h)
or_form (err raised) form rest = rest

unfoldable pub form_of_script : Bytes → Option Form
unfolding or_form script2pkh
form_of_script script = or_form (script2pkh script) legacy_form (
    or_form (extract_p2wpkh_hash script) p2wpkh_form
      (or_form (extract_p2tr_output_key script) p2tr_form none))

abbrev pub sighash_all : ℕ
sighash_all = 1

abbrev pub sighash_default : ℕ
sighash_default = 0

unfoldable pub pinned_sighash : Form → ℕ
pinned_sighash (legacy_form h) = sighash_all
pinned_sighash (p2wpkh_form h) = sighash_all
pinned_sighash (p2tr_form k) = sighash_default

-- `sighash_type is not None and sighash_type != pinned`, negated.
unfoldable pub sighash_fits : Option ℕ → ℕ → Bool
sighash_fits none pinned = true
sighash_fits (some ty) pinned = ty == pinned

-- `bool(b) and b[-1] == last`
unfoldable pub ends_with : Bytes → ℕ → Bool
ends_with [] last = false
ends_with (b ∷ []) last = b == last
ends_with (b ∷ c ∷ bs) last = ends_with (c ∷ bs) last

-- `PsbtTransaction.id`
unfoldable pub txid : (Bytes → Bytes) → PsbtTransaction → Result Bytes
txid sha256 tx = do data' ← serialize_stripped tx; ok (reverse (dsha256 sha256 data'))

-- The checks that the Signer and the Finalizer run on a redeem script or a witness script: it is
-- canonical, and its hash is the one that the lock script commits to. Without it, `missing` is raised.
unfoldable pub committed_quorum :
    Error → (Bytes → Bytes) → Option Bytes → Bytes → Result (Bytes × ℕ × List Bytes)
committed_quorum missing hash' none commitment = err missing
committed_quorum missing hash' (some redeem) commitment = do
  (m, keys) ← except_value (extract_multisig_quorum redeem) (psbt unsupported_input_script)
  guard (bytes_eq (hash' redeem) commitment) (psbt utxo_mismatch)
  ok (redeem, m, keys)

-- A tapscript leaf that has passed the checks.
pub record Leaf : Type 0 where
  pub control_block : Bytes
  pub script : Bytes
  pub leaf_hash : Bytes
  pub m : ℕ
  pub keys : List Bytes

-- `c[0] & 0xfe`
abbrev pub without_parity : ℕ → ℕ
without_parity b = b / 2 * 2 % 256

unfoldable pub is_control_block : Bytes → Bool
is_control_block [] = false
is_control_block (c ∷ key) =
    length key == 32
    && (without_parity c == tapscript_leaf_version && bytes_eq key ms_tapscript_internal_key)

-- `root is not None and root != leaf_hash`, negated.
unfoldable pub root_fits : Option Bytes → Bytes → Bool
root_fits none leaf_hash = true
root_fits (some root) leaf_hash = bytes_eq root leaf_hash

module _ (sha256 : Bytes → Bytes) (curve : Curve) where
  -- The checks that the Signer and the Finalizer run on the first leaf of an input.
  unfoldable pub committed_leaf : List TapLeafScript → Option Bytes → Bytes → Result Leaf
  unfolding is_control_block root_fits ends_with
  committed_leaf [] root commitment = err Error.index_error
  committed_leaf (leaf ∷ leaves) root commitment = do
    guard (is_control_block leaf.control_block) (psbt unsupported_input_script)
    let leaf_value = leaf.script_with_version
    guard (ends_with leaf_value tapscript_leaf_version) (psbt unsupported_input_script)
    let script = take (length leaf_value - 1) leaf_value
    (m, keys) ← except_value (extract_multisig_tapscript script) (psbt unsupported_input_script)
    leaf_hash ← tapscript_leaf_hash sha256 script
    output_key ← tapscript_output_key sha256 curve ms_tapscript_internal_key leaf_hash
    guard (bytes_eq output_key commitment) (psbt utxo_mismatch)
    guard (root_fits root leaf_hash) (psbt utxo_mismatch)
    ok (record {
      control_block = leaf.control_block;
      script = script;
      leaf_hash = leaf_hash;
      m = m;
      keys = keys;
    })

module _ (sha256 ripemd160 : Bytes → Bytes) (curve : Curve) where
  -- The form that a key opens, by its hash or by its output key.
  unfoldable pub own_of : Form → Bytes → Result (Option Form)
  own_of (legacy_form h) pubkey =
      ok (if bytes_eq h (hash160 sha256 ripemd160 pubkey) then some (legacy_form h) else none)
  own_of (p2wpkh_form h) pubkey =
      ok (if bytes_eq h (hash160 sha256 ripemd160 pubkey) then some (p2wpkh_form h) else none)
  own_of (p2tr_form key) pubkey = do
    tweaked ← taproot_output_key sha256 curve (slice pubkey 1 33)
    ok (if bytes_eq tweaked key then some (p2tr_form key) else none)

  unfoldable pub own_of_form : Option Form → Bytes → Result (Option Form)
  unfolding own_of
  own_of_form none pubkey = ok none
  own_of_form (some form) pubkey = own_of form pubkey

  unfoldable pub own_form : Bytes → Bytes → Result (Option Form)
  unfolding own_of_form
  own_form script_pubkey pubkey = own_of_form (form_of_script script_pubkey) pubkey
