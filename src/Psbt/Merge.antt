-- ===== src/Psbt/Merge.antt =====
-- psbt.py, the Combiner: `_merge_unknown`, `_merge_field`, `_merge_typed_list`, `_merge_input`,
-- `combine_psbt` and `_insert_tap_script_sig`.
pub mod Keyed
pub mod Field
use mathlib.Core.Logic.{ite}
use native.Mathlib.Decide.{ℕ_discrete}
use yubtc_python.Prelude.{
  ℕ, List, [], ◌∷◌, ◌++◌, ◌&&◌, ◌||◌, if◌then◌else◌, Bool, true, false, Option, none, some, Result,
  ok, err, ◌>>=◌, ◌>>◌, guard, psbt, conflicting_field, foreign_transaction,
}
use yubtc_python.Prelude.Int.{ℤ}
use yubtc_python.Prelude.Bytes.{Bytes, bytes_eq}
use yubtc_python.Prelude.Sort.{bytes_leb, sort}
use yubtc_python.Psbt.KeyValue.{Pair, key_leb}
use yubtc_python.Psbt.Tx.{PsbtTxIn, PsbtTxOut, PsbtTransaction, serialize_stripped}
use yubtc_python.Psbt.Model.{UnknownKv, TapScriptSig, TapLeafScript, PsbtIn, PsbtOut, Psbt}

module _ {ℓ} {A : Type ℓ} (key : A → Bytes) where
  -- `next((x for x in out if key(x) == k), None)`
  unfoldable pub find : Bytes → List A → Option A
  find k [] = none
  find k (x ∷ xs) = if bytes_eq (key x) k then some x else find k xs

  -- The loop that the three merges of lists share: an item with a known key must be `same` as the
  -- item at hand, and any other is appended.
  unfoldable pub merge_keyed : (A → A → Bool) → List A → List A → Result (List A)
  unfolding find
  merge_keyed same out [] = ok out
  merge_keyed same out (x ∷ b) = elim (find (key x) out) [
    | none ↦ merge_keyed same (out ++ x ∷ []) b
    | some existing ↦ elim (same existing x) [
      | true ↦ merge_keyed same out b
      | false ↦ err (psbt conflicting_field)
    ]
  ]

unfoldable pub same_value : UnknownKv → UnknownKv → Bool
same_value x y = bytes_eq x.value y.value

unfoldable pub merge_unknown : List UnknownKv → List UnknownKv → Result (List UnknownKv)
unfolding merge_keyed same_value
merge_unknown a b = merge_keyed (λ u. u.key) same_value a b

pub same_sig : Pair → Pair → Bool
same_sig x y = bytes_eq x.1 y.1

-- The loop over `b.partial_sigs` in `_merge_input`, and the sort behind it.
pub merge_partial_sigs : List Pair → List Pair → Result (List Pair)
unfolding merge_keyed same_sig
merge_partial_sigs a b = do merged ← merge_keyed (λ p. p.0) same_sig a b; ok (sort key_leb merged)

-- Python's order of named tuples: the first field that differs decides.
pub tap_sig_leb : TapScriptSig → TapScriptSig → Bool
tap_sig_leb a b =
    if bytes_eq a.x_only b.x_only
    then (if bytes_eq a.leaf_hash b.leaf_hash
        then bytes_leb a.sig b.sig
        else bytes_leb a.leaf_hash b.leaf_hash)
    else bytes_leb a.x_only b.x_only

pub tap_leaf_leb : TapLeafScript → TapLeafScript → Bool
tap_leaf_leb a b =
    if bytes_eq a.control_block b.control_block
    then bytes_leb a.script_with_version b.script_with_version
    else bytes_leb a.control_block b.control_block

pub tap_sig_eq : TapScriptSig → TapScriptSig → Bool
tap_sig_eq a b =
    bytes_eq a.x_only b.x_only && (bytes_eq a.leaf_hash b.leaf_hash && bytes_eq a.sig b.sig)

pub tap_leaf_eq : TapLeafScript → TapLeafScript → Bool
tap_leaf_eq a b =
    bytes_eq a.control_block b.control_block && bytes_eq a.script_with_version b.script_with_version

pub merge_typed_list {ℓ} :
    {A : Type ℓ} → (A → Bytes) → (A → A → Bool) → (A → A → Bool) → List A → List A → Result (List A)
unfolding merge_keyed
merge_typed_list key_of eq leb a b = do merged ← merge_keyed key_of eq a b; ok (sort leb merged)

module _ {ℓ} {A : Type ℓ} (eq : Discrete A) where
  unfoldable pub merge_field : Option A → Option A → Result (Option A)
  merge_field none b = ok b
  merge_field (some a) none = ok (some a)
  merge_field (some a) (some b) = ite (eq a b) (ok (some a)) (err (psbt conflicting_field))

pub Bytes-discrete : Discrete Bytes
Bytes-discrete = hlevel ℕ_discrete

pub PsbtTxOut-discrete : Discrete PsbtTxOut
PsbtTxOut-discrete = hlevel ℕ_discrete

pub PsbtTransaction-discrete : Discrete PsbtTransaction
PsbtTransaction-discrete = hlevel ℕ_discrete

abbrev pub tap_sig_key : TapScriptSig → Bytes
tap_sig_key s = s.x_only ++ s.leaf_hash

unfoldable pub merge_input : PsbtIn → PsbtIn → Result PsbtIn
unfolding merge_partial_sigs merge_typed_list merge_field merge_unknown
merge_input a b = do
  partial_sigs ← merge_partial_sigs a.partial_sigs b.partial_sigs
  tap_script_sigs ←
      merge_typed_list tap_sig_key tap_sig_eq tap_sig_leb a.tap_script_sigs b.tap_script_sigs
  tap_leaf_scripts ←
      merge_typed_list (λ l. l.control_block) tap_leaf_eq tap_leaf_leb a.tap_leaf_scripts
        b.tap_leaf_scripts
  non_witness_utxo ← merge_field PsbtTransaction-discrete a.non_witness_utxo b.non_witness_utxo
  witness_utxo ← merge_field PsbtTxOut-discrete a.witness_utxo b.witness_utxo
  sighash_type ← merge_field ℕ_discrete a.sighash_type b.sighash_type
  redeem_script ← merge_field Bytes-discrete a.redeem_script b.redeem_script
  witness_script ← merge_field Bytes-discrete a.witness_script b.witness_script
  final_scriptsig ← merge_field Bytes-discrete a.final_scriptsig b.final_scriptsig
  final_scriptwitness ← merge_field Bytes-discrete a.final_scriptwitness b.final_scriptwitness
  tap_internal_key ← merge_field Bytes-discrete a.tap_internal_key b.tap_internal_key
  tap_merkle_root ← merge_field Bytes-discrete a.tap_merkle_root b.tap_merkle_root
  unknown ← merge_unknown a.unknown b.unknown
  ok (record {
    non_witness_utxo = non_witness_utxo;
    witness_utxo = witness_utxo;
    partial_sigs = partial_sigs;
    sighash_type = sighash_type;
    redeem_script = redeem_script;
    witness_script = witness_script;
    final_scriptsig = final_scriptsig;
    final_scriptwitness = final_scriptwitness;
    tap_script_sigs = tap_script_sigs;
    tap_leaf_scripts = tap_leaf_scripts;
    tap_internal_key = tap_internal_key;
    tap_merkle_root = tap_merkle_root;
    unknown = unknown;
  })

-- `[merge(a, b) for a, b in zip(xs, ys)]`
module _ {ℓ} {A : Type ℓ} (merge : A → A → Result A) where
  unfoldable pub zip_merge : List A → List A → Result (List A)
  zip_merge [] ys = ok []
  zip_merge (x ∷ xs) [] = ok []
  zip_merge (x ∷ xs) (y ∷ ys) = do z ← merge x y; zs ← zip_merge xs ys; ok (z ∷ zs)

pub merge_output : PsbtOut → PsbtOut → Result PsbtOut
unfolding merge_unknown
merge_output a b = do unknown ← merge_unknown a.unknown b.unknown; ok (record { unknown = unknown })

unfoldable pub combine_psbt : Psbt → Psbt → Result Psbt
unfolding merge_input merge_output merge_unknown zip_merge
combine_psbt p other = do
  tx ← serialize_stripped p.unsigned_tx
  other_tx ← serialize_stripped other.unsigned_tx
  guard (bytes_eq tx other_tx) (psbt foreign_transaction)
  unknown_global ← merge_unknown p.unknown_global other.unknown_global
  inputs ← zip_merge merge_input p.inputs other.inputs
  outputs ← zip_merge merge_output p.outputs other.outputs
  ok (record {
    version = p.version;
    unsigned_tx = p.unsigned_tx;
    inputs = inputs;
    outputs = outputs;
    unknown_global = unknown_global;
  })

-- The order of `(x_only, leaf_hash)`.
unfoldable pub sig_key_leb : TapScriptSig → TapScriptSig → Bool
sig_key_leb a b =
    if bytes_eq a.x_only b.x_only
    then bytes_leb a.leaf_hash b.leaf_hash
    else bytes_leb a.x_only b.x_only

-- The loop stops at the first entry behind the new one.
unfoldable pub insert_tap_script_sig : List TapScriptSig → TapScriptSig → List TapScriptSig
insert_tap_script_sig [] entry = entry ∷ []
insert_tap_script_sig (existing ∷ sigs) entry =
    if sig_key_leb existing entry
    then existing ∷ insert_tap_script_sig sigs entry
    else entry ∷ existing ∷ sigs
