-- ===== src/Psbt/Finalizer.antt =====
-- psbt.py, the Finalizer: `finalize_psbt_input` with its branches, and `finalize_psbt`.
pub mod Outcome
pub mod Each
pub mod Quorum
pub mod Slots
use yubtc_python.Prelude.{
  ℕ, zero, suc, ◌+◌, List, [], ◌∷◌, ◌++◌, length, take, get_elem?, ltb, ◌==◌, ◌&&◌, ◌||◌, not,
  if◌then◌else◌, Bool, true, false, Option, none, some, Result, ok, err, Error, ◌>>=◌, ◌>>◌, guard,
  psbt, incomplete_input, tap_tweak_error,
}
use yubtc_python.Prelude.Bytes.{Bytes, bytes_eq, slice}
use yubtc_python.Hash.{hash160}
use yubtc_python.Script.{push, cscript}
use yubtc_python.Script.Multisig.{make_multisig_script_sig, make_multisig_witness}
use yubtc_python.Script.Tapscript.{make_multisig_tapscript_witness}
use yubtc_python.Transaction.Taproot.{Curve, taproot_output_key}
use yubtc_python.Psbt.KeyValue.{Pair}
use yubtc_python.Psbt.Tx.{PsbtTxIn, PsbtTransaction, nonempty, encode_witness_stack}
use yubtc_python.Psbt.Model.{PsbtIn, Psbt, TapScriptSig}
use yubtc_python.Psbt.Merge.{find}
use yubtc_python.Psbt.Utxo.{
  set_input, input_data, is_p2sh_script, is_p2wsh_script, is_p2tr_script, Form, legacy_form,
  p2wpkh_form, p2tr_form, form_of_script, sighash_all, sighash_default, pinned_sighash,
  sighash_fits, ends_with, committed_quorum, Leaf, committed_leaf,
}

-- Intermediates out, UTXOs and unknowns stay.
unfoldable pub cleared : PsbtIn → PsbtIn
cleared input = record input {
  partial_sigs = [];
  sighash_type = none;
  redeem_script = none;
  witness_script = none;
}

unfoldable pub with_scriptsig : PsbtIn → Bytes → PsbtIn
unfolding cleared
with_scriptsig input script = cleared (record input { final_scriptsig = some script })

unfoldable pub with_witness : PsbtIn → Bytes → PsbtIn
unfolding cleared
with_witness input stack = cleared (record input { final_scriptwitness = some stack })

-- The Taproot fields go too.
unfoldable pub with_tap_witness : PsbtIn → Bytes → PsbtIn
unfolding with_witness
with_tap_witness input stack = record (with_witness input stack) {
  tap_script_sigs = [];
  tap_leaf_scripts = [];
  tap_internal_key = none;
  tap_merkle_root = none;
}

-- The signatures of the members, in the order of the keys of the script. `i` is the index that an error
-- reports.
unfoldable pub collect : ℕ → Option Pair → Result (List Bytes) → Result (List Bytes)
collect i none rest = rest
collect i (some (pk, sig)) rest = do
  guard (ends_with sig sighash_all) (psbt (incomplete_input i))
  sigs ← rest
  ok (sig ∷ sigs)

unfoldable pub member_sigs : ℕ → List Pair → List Bytes → Result (List Bytes)
unfolding collect
member_sigs i partial_sigs [] = ok []
member_sigs i partial_sigs (key ∷ keys) =
    collect i (find (λ (p : Pair). p.0) key partial_sigs) (member_sigs i partial_sigs keys)

-- The first `m` of them, if there are so many.
unfoldable pub quorum_sigs : ℕ → List Pair → ℕ → List Bytes → Result (List Bytes)
unfolding member_sigs
quorum_sigs i partial_sigs m keys = do
  sigs ← member_sigs i partial_sigs keys
  guard (not (ltb (length sigs) m)) (psbt (incomplete_input i))
  ok (take m sigs)

-- `next((s.sig for s in tap_script_sigs if s.x_only == key and s.leaf_hash == leaf_hash), None)`
unfoldable pub tap_sig_of : Bytes → Bytes → List TapScriptSig → Option Bytes
tap_sig_of key leaf_hash [] = none
tap_sig_of key leaf_hash (s ∷ sigs) =
    if bytes_eq s.x_only key && bytes_eq s.leaf_hash leaf_hash
    then some s.sig
    else tap_sig_of key leaf_hash sigs

abbrev pub SlotsAndCount : Type 0
SlotsAndCount = List (Option Bytes) × ℕ

-- A slot that a signature fills, and a slot that stays empty.
unfoldable pub fill_slot : ℕ → Bytes → Result SlotsAndCount → Result SlotsAndCount
fill_slot i sig rest = do
  guard (length sig == 64) (psbt (incomplete_input i))
  (slots, total) ← rest
  ok (some sig ∷ slots, total)

unfoldable pub empty_slot : Result SlotsAndCount → Result SlotsAndCount
empty_slot rest = do (slots, total) ← rest; ok (none ∷ slots, total)

unfoldable pub next_slot :
    ℕ → ℕ → Option Bytes → ℕ → (ℕ → Result SlotsAndCount) → Result SlotsAndCount
unfolding fill_slot empty_slot
next_slot i m none taken rest = empty_slot (rest taken)
next_slot i m (some sig) taken rest =
    if ltb taken m then fill_slot i sig (rest (taken + 1)) else empty_slot (rest taken)

-- The slots in the order of the keys, and how many are filled at the end.
unfoldable pub tap_slots : ℕ → ℕ → Bytes → List TapScriptSig → List Bytes → ℕ → Result SlotsAndCount
unfolding next_slot tap_sig_of
tap_slots i m leaf_hash sigs [] taken = ok ([], taken)
tap_slots i m leaf_hash sigs (key ∷ keys) taken =
    next_slot i m (tap_sig_of key leaf_hash sigs) taken (tap_slots i m leaf_hash sigs keys)

unfoldable pub quorum_slots :
    ℕ → ℕ → Bytes → List TapScriptSig → List Bytes → Result (List (Option Bytes))
unfolding tap_slots
quorum_slots i m leaf_hash sigs keys = do
  (slots, taken) ← tap_slots i m leaf_hash sigs keys 0
  guard (not (ltb taken m)) (psbt (incomplete_input i))
  ok slots

-- `TapTweakError` skips a key; any other exception would pass.
unfoldable pub skip_tweak : Result Bytes → Result (Option Bytes)
skip_tweak (ok k) = ok (some k)
skip_tweak (err tap_tweak_error) = ok none
skip_tweak (err raised) = err raised

unfoldable pub tweaks_to : Option Bytes → Bytes → Bool
tweaks_to none output_key = false
tweaks_to (some tweaked) output_key = bytes_eq tweaked output_key

-- `found` with a signature that ends in the pinned sighash byte.
unfoldable pub found_sig : ℕ → Option Pair → ℕ → Result Pair
found_sig i none pinned = err (psbt (incomplete_input i))
found_sig i (some (pubkey, sig)) pinned = do
  guard (ends_with sig pinned) (psbt (incomplete_input i))
  ok (pubkey, sig)

unfoldable pub keypath_found : ℕ → Option Bytes → Result Bytes
keypath_found i none = err (psbt (incomplete_input i))
keypath_found i (some sig) = ok sig

-- A final field means that there is nothing to do.
unfoldable pub finalize_unless :
    Option Bytes → Option Bytes → PsbtIn → Result PsbtIn → Result PsbtIn
finalize_unless none none input finalize_now = finalize_now
finalize_unless (some script) stack input finalize_now = ok input
finalize_unless none (some stack) input finalize_now = ok input

-- `try: … except PsbtError: pass`: an input that fails is left as it is.
unfoldable pub or_unchanged {ℓ} : {A : Type ℓ} → A → Result A → Result A
or_unchanged a (ok a') = ok a'
or_unchanged a (err (psbt e)) = ok a
or_unchanged a (err raised) = err raised

module _ (sha256 ripemd160 : Bytes → Bytes) (curve : Curve) where
  unfoldable pub partial_sig_by_hash : Bytes → List Pair → Option Pair
  partial_sig_by_hash h [] = none
  partial_sig_by_hash h ((pubkey, sig) ∷ sigs) =
      if length pubkey == 33 && bytes_eq (hash160 sha256 ripemd160 pubkey) h
      then some (pubkey, sig)
      else partial_sig_by_hash h sigs

  unfoldable pub p2tr_sig_by_output_key : Bytes → List Pair → Result (Option Bytes)
  unfolding skip_tweak tweaks_to
  p2tr_sig_by_output_key output_key [] = ok none
  p2tr_sig_by_output_key output_key ((pubkey, sig) ∷ sigs) =
      let rest = p2tr_sig_by_output_key output_key sigs in
      if not (length sig == 64) || not (length pubkey == 33) then rest else do
        tweaked ← skip_tweak (taproot_output_key sha256 curve (slice pubkey 1 33))
        if tweaks_to tweaked output_key then ok (some sig) else rest

  unfoldable pub finalize_psbt_input_p2sh_multisig : ℕ → PsbtIn → Bytes → Result PsbtIn
  unfolding quorum_sigs with_scriptsig
  finalize_psbt_input_p2sh_multisig i input script_pubkey = do
    (redeem, m, keys) ←
        committed_quorum (psbt (incomplete_input i)) (hash160 sha256 ripemd160) input.redeem_script
          (slice script_pubkey 2 22)
    guard (sighash_fits input.sighash_type sighash_all) (psbt (incomplete_input i))
    sigs ← quorum_sigs i input.partial_sigs m keys
    script ← make_multisig_script_sig redeem sigs
    ok (with_scriptsig input script)

  unfoldable pub finalize_psbt_input_p2wsh_multisig : ℕ → PsbtIn → Bytes → Result PsbtIn
  unfolding quorum_sigs with_witness
  finalize_psbt_input_p2wsh_multisig i input script_pubkey = do
    (redeem, m, keys) ←
        committed_quorum (psbt (incomplete_input i)) sha256 input.witness_script
          (slice script_pubkey 2 34)
    guard (sighash_fits input.sighash_type sighash_all) (psbt (incomplete_input i))
    sigs ← quorum_sigs i input.partial_sigs m keys
    stack ← encode_witness_stack (make_multisig_witness redeem sigs)
    ok (with_witness input stack)

  unfoldable pub finalize_psbt_input_p2tr_scriptpath : ℕ → PsbtIn → Bytes → Result PsbtIn
  unfolding quorum_slots with_tap_witness
  finalize_psbt_input_p2tr_scriptpath i input script_pubkey = do
    leaf ←
        committed_leaf sha256 curve input.tap_leaf_scripts input.tap_merkle_root
          (slice script_pubkey 2 34)
    guard (sighash_fits input.sighash_type sighash_default) (psbt (incomplete_input i))
    slots ← quorum_slots i leaf.m leaf.leaf_hash input.tap_script_sigs leaf.keys
    stack ←
        encode_witness_stack (make_multisig_tapscript_witness leaf.script leaf.control_block slots)
    ok (with_tap_witness input stack)

  unfoldable pub finalize_form : ℕ → PsbtIn → Form → Result PsbtIn
  unfolding found_sig keypath_found partial_sig_by_hash p2tr_sig_by_output_key with_scriptsig
      with_witness
  finalize_form i input (legacy_form h) = do
    (pubkey, sig) ← found_sig i (partial_sig_by_hash h input.partial_sigs) sighash_all
    script ← cscript (push sig ∷ push pubkey ∷ [])
    ok (with_scriptsig input script)
  finalize_form i input (p2wpkh_form h) = do
    (pubkey, sig) ← found_sig i (partial_sig_by_hash h input.partial_sigs) sighash_all
    stack ← encode_witness_stack (sig ∷ pubkey ∷ [])
    ok (with_witness input stack)
  finalize_form i input (p2tr_form key) = do
    found ← p2tr_sig_by_output_key key input.partial_sigs
    sig ← keypath_found i found
    stack ← encode_witness_stack (sig ∷ [])
    ok (with_witness input stack)

  unfoldable pub finalize_own : ℕ → PsbtIn → Option Form → Result PsbtIn
  unfolding finalize_form
  finalize_own i input none = err (psbt (incomplete_input i))
  finalize_own i input (some form) = do
    guard (sighash_fits input.sighash_type (pinned_sighash form)) (psbt (incomplete_input i))
    finalize_form i input form

  -- The dispatch on the lock script.
  unfoldable pub finalize_by_script : ℕ → PsbtIn → Bytes → Result PsbtIn
  unfolding finalize_psbt_input_p2sh_multisig finalize_psbt_input_p2wsh_multisig
      finalize_psbt_input_p2tr_scriptpath finalize_own
  finalize_by_script i input script_pubkey =
      if is_p2sh_script script_pubkey
      then finalize_psbt_input_p2sh_multisig i input script_pubkey
      else if is_p2wsh_script script_pubkey
      then finalize_psbt_input_p2wsh_multisig i input script_pubkey
      else if is_p2tr_script script_pubkey && nonempty input.tap_leaf_scripts
      then finalize_psbt_input_p2tr_scriptpath i input script_pubkey
      else finalize_own i input (form_of_script script_pubkey)

  unfoldable pub finalize_known : ℕ → PsbtIn → Option (Bytes × ℕ) → Result PsbtIn
  unfolding finalize_by_script
  finalize_known i input none = err (psbt (incomplete_input i))
  finalize_known i input (some (script_pubkey, amount)) = finalize_by_script i input script_pubkey

  -- Input `i` and the entry of `vin` at its index; the result is what the input becomes.
  unfoldable pub finalize_input : ℕ → Option PsbtTxIn → PsbtIn → Result PsbtIn
  unfolding finalize_known finalize_unless
  finalize_input i vin input =
      finalize_unless input.final_scriptsig input.final_scriptwitness input
        (finalize_known i input (input_data (some input) vin))

  unfoldable pub finalize_at : Psbt → ℕ → Option PsbtIn → Result Psbt
  unfolding finalize_input
  finalize_at p i none = err (psbt (incomplete_input i))
  finalize_at p i (some input) = do
    input' ← finalize_input i (get_elem? p.unsigned_tx.vin i) input
    ok (set_input p i (λ _. input'))

  unfoldable pub finalize_psbt_input : Psbt → ℕ → Result Psbt
  unfolding finalize_at
  finalize_psbt_input p i = finalize_at p i (get_elem? p.inputs i)

  unfoldable pub finalize_loop : ℕ → ℕ → Psbt → Result Psbt
  unfolding or_unchanged finalize_psbt_input
  finalize_loop zero i p = ok p
  finalize_loop (suc count) i p = do
    p' ← or_unchanged p (finalize_psbt_input p i)
    finalize_loop count (i + 1) p'

  unfoldable pub finalize_psbt : Psbt → Result Psbt
  unfolding finalize_loop
  finalize_psbt p = finalize_loop (length p.inputs) 0 p
