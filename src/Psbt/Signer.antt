-- ===== src/Psbt/Signer.antt =====
-- psbt.py, the Signer of one input: `sign_psbt_input` with its branches. The PSBT that it changes in
-- place is explicit state.
pub mod Adds
pub mod Branches
pub mod Again
pub mod Sorted
use yubtc_python.Prelude.{
  ℕ, List, [], ◌∷◌, ◌++◌, length, ◌==◌, ◌&&◌, ◌||◌, not, if◌then◌else◌, Bool, true, false, Option,
  none, some, Result, ok, err, Error, ◌>>=◌, ◌>>◌, guard, psbt, index_error,
  unsupported_input_script, utxo_mismatch, unsupported_sighash_type, map,
}
use yubtc_python.Prelude.Int.{pos}
use yubtc_python.Prelude.Bytes.{Bytes, bytes_eq, index, slice, pack}
use yubtc_python.Prelude.Sort.{bytes_leb}
use yubtc_python.Hash.{hash160}
use yubtc_python.Script.Multisig.{mem_bytes}
use yubtc_python.Transaction.CompactSize.{compact_size}
use yubtc_python.Transaction.Model.{CIn, COut, CTransaction}
use yubtc_python.Transaction.Sighash.{
  SpendInput, p2wpkh_script_code, bip143_sighash, taproot_keypath_sighash,
  taproot_scriptpath_sighash,
}
use yubtc_python.Transaction.Signing.{
  Coincurve, update, sign_hash, sign_data, taproot_sign_sighash, taproot_sign_sighash_untweaked,
}
use yubtc_python.Transaction.Taproot.{Curve}
use yubtc_python.Psbt.KeyValue.{Pair}
use yubtc_python.Psbt.Tx.{PsbtTxIn, PsbtTxOut, PsbtTransaction, nonempty, serialize_stripped}
use yubtc_python.Psbt.Model.{PsbtIn, Psbt, TapScriptSig}
use yubtc_python.Psbt.Merge.{insert_tap_script_sig}
use yubtc_python.Psbt.Utxo.{
  set_input, input_utxo_data, spend_context, is_p2sh_script, is_p2wsh_script, is_p2tr_script, Form,
  legacy_form, p2wpkh_form, p2tr_form, sighash_all, sighash_default, pinned_sighash, sighash_fits,
  txid, committed_quorum, Leaf, committed_leaf, own_form,
}

-- The digests of transaction.py take either class of transaction: they read the same fields.
abbrev pub as_c_in : PsbtTxIn → CIn
as_c_in i = record {
  txhash = i.txhash;
  n = i.n;
  script = i.script;
  sequence = i.sequence;
  witness = i.witness;
}

abbrev pub as_c_out : PsbtTxOut → COut
as_c_out o = record { amount = o.amount; script = o.script }

abbrev pub as_c_transaction : PsbtTransaction → CTransaction
as_c_transaction tx = record {
  version = tx.version;
  vin = map as_c_in tx.vin;
  vout = map as_c_out tx.vout;
  locktime = tx.locktime;
}

unfoldable pub blanked_serialization : PsbtTransaction → ℕ → Bytes → Result Bytes
blanked_serialization tx i script_pubkey = do
  let blanked = map (λ (v : PsbtTxIn). record v { script = []; witness = [] }) tx.vin
  _ ← index blanked i
  serialize_stripped
      (record tx { vin = update (λ (v : PsbtTxIn). record v { script = script_pubkey }) i blanked })

-- The loop stops at the first key behind the new one.
unfoldable pub insert_partial_sig : List Pair → Bytes → Bytes → List Pair
insert_partial_sig [] pubkey sig = (pubkey, sig) ∷ []
insert_partial_sig ((existing_key, s) ∷ sigs) pubkey sig =
    if bytes_leb existing_key pubkey
    then (existing_key, s) ∷ insert_partial_sig sigs pubkey sig
    else (pubkey, sig) ∷ (existing_key, s) ∷ sigs

-- `any(k == pubkey for k, _ in input_.partial_sigs)`
unfoldable pub has_partial_sig : Bytes → List Pair → Bool
has_partial_sig pubkey [] = false
has_partial_sig pubkey ((k, s) ∷ sigs) = bytes_eq k pubkey || has_partial_sig pubkey sigs

unfoldable pub has_tap_sig : Bytes → Bytes → List TapScriptSig → Bool
has_tap_sig x_only leaf_hash [] = false
has_tap_sig x_only leaf_hash (s ∷ sigs) =
    bytes_eq s.x_only x_only && bytes_eq s.leaf_hash leaf_hash || has_tap_sig x_only leaf_hash sigs

-- `if input_.sighash_type is not None and input_.sighash_type != pinned: raise UnsupportedSighashType`
unfoldable pub check_sighash_type : Option ℕ → ℕ → Result (Unit {0})
check_sighash_type none pinned = ok tt
check_sighash_type (some ty) pinned = guard (ty == pinned) (psbt (unsupported_sighash_type ty))

unfoldable pub add_partial_sig : Bytes → Bytes → PsbtIn → PsbtIn
unfolding insert_partial_sig
add_partial_sig pubkey sig input = record input {
  partial_sigs = insert_partial_sig input.partial_sigs pubkey sig;
}

unfoldable pub add_tap_sig : TapScriptSig → PsbtIn → PsbtIn
add_tap_sig entry input = record input {
  tap_script_sigs = insert_tap_script_sig input.tap_script_sigs entry;
}

-- A signature that could be made is added to the input.
unfoldable pub put_partial_sig : Psbt → ℕ → Bytes → Option Bytes → Psbt × Bool
unfolding add_partial_sig
put_partial_sig p i pubkey none = (p, false)
put_partial_sig p i pubkey (some sig) = (set_input p i (add_partial_sig pubkey sig), true)

unfoldable pub put_tap_sig : Psbt → ℕ → Bytes → Bytes → Option Bytes → Psbt × Bool
unfolding add_tap_sig
put_tap_sig p i x_only leaf_hash none = (p, false)
put_tap_sig p i x_only leaf_hash (some sig) = (
  set_input p i (add_tap_sig (record { x_only = x_only; leaf_hash = leaf_hash; sig = sig })),
  true,
)

-- What the branches of the Signer do once the key is known to be one of the input's: the sighash type,
-- the previous transaction, a signature that is already in place, and else a new one.
unfoldable pub unless_signed : Bool → Psbt → Result (Psbt × Bool) → Result (Psbt × Bool)
unless_signed true p sign_now = ok (p, true)
unless_signed false p sign_now = sign_now

module _ (sha256 : Bytes → Bytes) where
  -- `if prev is not None and prev.id() != psbt.unsigned_tx.vin[index].txhash: raise UtxoMismatch()`
  unfoldable pub check_prev : PsbtTransaction → ℕ → Option PsbtTransaction → Result (Unit {0})
  check_prev tx i none = ok tt
  check_prev tx i (some prev) = do
    id' ← txid sha256 prev
    vin ← index tx.vin i
    guard (bytes_eq id' vin.txhash) (psbt utxo_mismatch)

  unfoldable pub sign_member_ecdsa :
      Psbt → ℕ → PsbtIn → ℕ → Bytes → Result (Option Bytes) → Result (Psbt × Bool)
  unfolding check_sighash_type check_prev unless_signed put_partial_sig has_partial_sig
  sign_member_ecdsa p i input pinned pubkey make_sig = do
    check_sighash_type input.sighash_type pinned
    check_prev p.unsigned_tx i input.non_witness_utxo
    unless_signed (has_partial_sig pubkey input.partial_sigs) p
        (do sig ← make_sig; ok (put_partial_sig p i pubkey sig))

  unfoldable pub sign_member_tap :
      Psbt → ℕ → PsbtIn → Bytes → Bytes → Result (Option Bytes) → Result (Psbt × Bool)
  unfolding check_sighash_type check_prev unless_signed put_tap_sig has_tap_sig
  sign_member_tap p i input x_only leaf_hash make_sig = do
    check_sighash_type input.sighash_type sighash_default
    check_prev p.unsigned_tx i input.non_witness_utxo
    unless_signed (has_tap_sig x_only leaf_hash input.tap_script_sigs) p
        (do sig ← make_sig; ok (put_tap_sig p i x_only leaf_hash sig))

module _ (sha256 ripemd160 : Bytes → Bytes) (lib : Coincurve) (curve : Curve) where
  -- The signatures of the branches. A Taproot digest covers all inputs: without the data of each of
  -- them there is none.
  unfoldable pub legacy_sig : PsbtTransaction → ℕ → Bytes → lib.PrivateKey → Result (Option Bytes)
  unfolding blanked_serialization
  legacy_sig tx i script_code privkey = do
    stripped ← blanked_serialization tx i script_code
    suffix ← pack 4 sighash_all
    ok (some (sign_data sha256 lib privkey (stripped ++ suffix) ++ sighash_all ∷ []))

  unfoldable pub bip143_sig :
      PsbtTransaction → ℕ → Bytes → ℕ → lib.PrivateKey → Result (Option Bytes)
  bip143_sig tx i script_code amount privkey = do
    sighash ← bip143_sighash sha256 (as_c_transaction tx) i script_code amount
    ok (some (sign_hash sha256 lib privkey sighash ++ sighash_all ∷ []))

  unfoldable pub keypath_sig :
      PsbtTransaction → ℕ → Option (List SpendInput) → lib.PrivateKey → Result (Option Bytes)
  keypath_sig tx i none privkey = ok none
  keypath_sig tx i (some spend) privkey = do
    sighash ← taproot_keypath_sighash sha256 (as_c_transaction tx) i spend
    sig ← taproot_sign_sighash sha256 lib privkey sighash
    ok (some sig)

  unfoldable pub scriptpath_sig :
      PsbtTransaction
      → ℕ
      → Option (List SpendInput)
      → Bytes
      → lib.PrivateKey
      → Result (Option Bytes)
  scriptpath_sig tx i none leaf_hash privkey = ok none
  scriptpath_sig tx i (some spend) leaf_hash privkey = do
    sighash ← taproot_scriptpath_sighash sha256 (as_c_transaction tx) i spend leaf_hash
    ok (some (taproot_sign_sighash_untweaked sha256 lib privkey sighash))

  unfoldable pub sign_psbt_input_p2sh_multisig :
      Psbt → ℕ → PsbtIn → lib.PrivateKey → Bytes → Result (Psbt × Bool)
  unfolding legacy_sig
  sign_psbt_input_p2sh_multisig p i input privkey script_pubkey = do
    let pubkey = lib.public_key privkey
    (redeem, m, keys) ←
        committed_quorum (psbt unsupported_input_script) (hash160 sha256 ripemd160)
          input.redeem_script (slice script_pubkey 2 22)
    if mem_bytes pubkey keys
        then sign_member_ecdsa sha256 p i input sighash_all pubkey
            (legacy_sig p.unsigned_tx i redeem privkey)
        else ok (p, false)

  -- `compact_size(len(redeem)) + redeem`
  unfoldable pub script_code_sig :
      PsbtTransaction → ℕ → Bytes → ℕ → lib.PrivateKey → Result (Option Bytes)
  unfolding bip143_sig
  script_code_sig tx i redeem amount privkey = do
    size ← compact_size (pos (length redeem))
    bip143_sig tx i (size ++ redeem) amount privkey

  unfoldable pub sign_psbt_input_p2wsh_multisig :
      Psbt → ℕ → PsbtIn → lib.PrivateKey → Bytes → ℕ → Result (Psbt × Bool)
  unfolding script_code_sig
  sign_psbt_input_p2wsh_multisig p i input privkey script_pubkey amount = do
    let pubkey = lib.public_key privkey
    (redeem, m, keys) ←
        committed_quorum (psbt unsupported_input_script) sha256 input.witness_script
          (slice script_pubkey 2 34)
    if mem_bytes pubkey keys
        then sign_member_ecdsa sha256 p i input sighash_all pubkey
            (script_code_sig p.unsigned_tx i redeem amount privkey)
        else ok (p, false)

  unfoldable pub sign_psbt_input_p2tr_scriptpath :
      Psbt → ℕ → PsbtIn → lib.PrivateKey → Bytes → Result (Psbt × Bool)
  unfolding scriptpath_sig
  sign_psbt_input_p2tr_scriptpath p i input privkey script_pubkey = do
    let x_only = slice (lib.public_key privkey) 1 33
    leaf ←
        committed_leaf sha256 curve input.tap_leaf_scripts input.tap_merkle_root
          (slice script_pubkey 2 34)
    if mem_bytes x_only leaf.keys
        then sign_member_tap sha256 p i input x_only leaf.leaf_hash
            (scriptpath_sig p.unsigned_tx i (spend_context p) leaf.leaf_hash privkey)
        else ok (p, false)

  -- The signature of a form that the key opens by itself.
  unfoldable pub form_sig : Psbt → ℕ → Form → Bytes → ℕ → lib.PrivateKey → Result (Option Bytes)
  unfolding legacy_sig bip143_sig keypath_sig
  form_sig p i (legacy_form h) script_pubkey amount privkey =
      legacy_sig p.unsigned_tx i script_pubkey privkey
  form_sig p i (p2wpkh_form h) script_pubkey amount privkey =
      bip143_sig p.unsigned_tx i (p2wpkh_script_code script_pubkey) amount privkey
  form_sig p i (p2tr_form k) script_pubkey amount privkey =
      keypath_sig p.unsigned_tx i (spend_context p) privkey

  unfoldable pub sign_own :
      Option Form → Psbt → ℕ → PsbtIn → lib.PrivateKey → Bytes → ℕ → Result (Psbt × Bool)
  unfolding form_sig
  sign_own none p i input privkey script_pubkey amount = ok (p, false)
  sign_own (some form) p i input privkey script_pubkey amount =
      sign_member_ecdsa sha256 p i input (pinned_sighash form) (lib.public_key privkey)
        (form_sig p i form script_pubkey amount privkey)

  -- The dispatch on the lock script.
  unfoldable pub sign_by_script :
      Psbt → ℕ → PsbtIn → lib.PrivateKey → Bytes → ℕ → Result (Psbt × Bool)
  unfolding sign_own sign_psbt_input_p2sh_multisig sign_psbt_input_p2wsh_multisig
      sign_psbt_input_p2tr_scriptpath
  sign_by_script p i input privkey script_pubkey amount =
      if is_p2wsh_script script_pubkey
      then sign_psbt_input_p2wsh_multisig p i input privkey script_pubkey amount
      else if is_p2sh_script script_pubkey
      then sign_psbt_input_p2sh_multisig p i input privkey script_pubkey
      else if is_p2tr_script script_pubkey && nonempty input.tap_leaf_scripts
      then sign_psbt_input_p2tr_scriptpath p i input privkey script_pubkey
      else (do
        form ← own_form sha256 ripemd160 curve script_pubkey (lib.public_key privkey)
        sign_own form p i input privkey script_pubkey amount)

  unfoldable pub sign_known : Option (Bytes × ℕ) → Psbt → ℕ → lib.PrivateKey → Result (Psbt × Bool)
  unfolding sign_by_script
  sign_known none p i privkey = ok (p, false)
  sign_known (some (script_pubkey, amount)) p i privkey = do
    input ← index p.inputs i
    sign_by_script p i input privkey script_pubkey amount

  unfoldable pub sign_psbt_input : Psbt → ℕ → lib.PrivateKey → Result (Psbt × Bool)
  unfolding sign_known
  sign_psbt_input p i privkey = sign_known (input_utxo_data p i) p i privkey
