-- ===== src/Examples/Quorums.antt =====
-- Multi-signature spends, tapscript leaves, summaries and the base64 form at concrete inputs.
use mathlib.Core.List.{reverse}
use yubtc_python.Prelude.{
  ℕ, ◌+◌, ◌^◌, ◌<◌, ◌≡◌, refl, List, [], ◌∷◌, ◌++◌, length, replicate, All2, none, some, Option, ok,
  arith, except_value, map,
}
use yubtc_python.Prelude.Int.{pos}
use yubtc_python.Prelude.Bytes.{Bytes, slice, bytes_eq, pack, pack_signed, signed_bytes, le_bytes}
use yubtc_python.Prelude.Sort.{bytes_leb, insert, sort}
use yubtc_python.Hash.{hash160, dsha256}
use yubtc_python.Transaction.CompactSize.{compact_size}
use yubtc_python.Script.{push_data}
use yubtc_python.Script.Multisig.{
  key_pushes, read_keys, mem_bytes, has_duplicates, is_quorum_op, is_canonical_compressed_pubkey,
  extract_multisig_quorum, make_multisig_script_sig, out_of_bounds, any_other_length,
  adjacent_equal, append_op_n,
}
use yubtc_python.Script.Multisig.Extract.{redeem, IsQuorum}
use yubtc_python.Script.Tapscript.{
  key_opcode, tap_pushes, make_multisig_tapscript, extract_multisig_tapscript,
}
use yubtc_python.Script.Tapscript.Extract.{leaf, extract-make_tapscript}
use yubtc_python.Psbt.Tx.{var_bytes, serialize_in, serialize_out, serialize_stripped}
use yubtc_python.Psbt.Model.{PsbtIn, empty_input, TapScriptSig}
use yubtc_python.Psbt.Merge.{find}
use yubtc_python.Psbt.Utxo.{
  committed_quorum, sighash_fits, ends_with, input_utxo_data, input_data, utxo_data, out_data, txid,
}
use yubtc_python.Psbt.Finalizer.{
  cleared, with_scriptsig, collect, member_sigs, quorum_sigs, tap_sig_of, fill_slot, empty_slot,
  next_slot, tap_slots, quorum_slots, finalize_psbt_input_p2sh_multisig,
}
use yubtc_python.Psbt.Finalizer.Quorum.{Chosen, IsCommitted, p2sh_quorum}
use yubtc_python.Psbt.Finalizer.Slots.{filled, IsSlot, quorum_slots_bound}
use yubtc_python.Psbt.Summary.{
  PsbtSummary, hex_digit, hex, add_input, credit_from, spend_sat, fee_of, input_summary,
  output_summary, psbt_summary,
}
use yubtc_python.Psbt.Summary.Fee.{HasCredit, psbt_summary-fee}
use yubtc_python.Psbt.Base64.{
  encode_base64, b64_value_of, is_space, strip_front, strip, group_loop, group_bytes, decode_group,
  decode_groups, decode_base64,
}
use yubtc_python.Psbt.Base64.RoundTrip.{decode-encode_base64}
use yubtc_python.Examples.Roles.{
  toy_sha256, toy_ripemd160, toy_curve, with_input, created, unsigned,
}

abbrev key_a : Bytes
key_a = 0x02 ∷ replicate 32 0x11

abbrev key_b : Bytes
key_b = 0x03 ∷ replicate 32 0x22

abbrev quorum : Bytes
quorum = redeem 2 (key_a ∷ key_b ∷ [])

-- The lock script of the quorum; the stand-in for its hash is its first twenty bytes.
abbrev p2sh_script : Bytes
p2sh_script = 0xa9 ∷ 0x14 ∷ 0x52 ∷ 0x21 ∷ 0x02 ∷ (replicate 17 0x11 ++ 0x87 ∷ [])

abbrev sig_a : Bytes
sig_a = 0x31 ∷ 0x01 ∷ []

abbrev sig_b : Bytes
sig_b = 0x32 ∷ 0x01 ∷ []

-- The signatures arrived in the other order.
abbrev both_signed : PsbtIn
both_signed = record empty_input {
  redeem_script = some quorum;
  partial_sigs = (key_b, sig_b) ∷ (key_a, sig_a) ∷ [];
}

abbrev spend : Bytes
spend =
    0
    ∷ 2
    ∷ 0x31
    ∷ 0x01
    ∷ 2
    ∷ 0x32
    ∷ 0x01
    ∷ 71
    ∷ 0x52
    ∷ 0x21
    ∷ (key_a ++ 0x21 ∷ (key_b ++ 0x52 ∷ 0xae ∷ []))

abbrev spent : PsbtIn
spent = record empty_input { final_scriptsig = some spend }

quorum-finalized :
    finalize_psbt_input_p2sh_multisig toy_sha256 toy_ripemd160 toy_curve 0 both_signed p2sh_script
    ≡ ok spent
unfolding finalize_psbt_input_p2sh_multisig quorum_sigs member_sigs collect find with_scriptsig
    cleared committed_quorum except_value extract_multisig_quorum is_quorum_op read_keys mem_bytes
    has_duplicates key_pushes is_canonical_compressed_pubkey bytes_eq hash160 sighash_fits ends_with
    make_multisig_script_sig push_data
quorum-finalized = refl

p2sh_quorum_example :
    (redeem' : Bytes) × (m : ℕ) × (keys sigs : List Bytes) × (script : Bytes) × IsCommitted
      (hash160 toy_sha256 toy_ripemd160)
      (some quorum)
      (slice p2sh_script 2 22)
      redeem'
      m
      keys
    × (length sigs ≡ m)
    × Chosen ((key_b, sig_b) ∷ (key_a, sig_a) ∷ []) keys sigs
    × (make_multisig_script_sig redeem' sigs ≡ ok script)
    × (spent ≡ with_scriptsig both_signed script)
p2sh_quorum_example =
    p2sh_quorum toy_sha256 toy_ripemd160 toy_curve 0 both_signed spent p2sh_script quorum-finalized

abbrev x_a : Bytes
x_a = replicate 32 0x11

abbrev x_b : Bytes
x_b = replicate 32 0x22

abbrev leaf_hash : Bytes
leaf_hash = replicate 32 0x05

abbrev tap_sigs : List TapScriptSig
tap_sigs = record { x_only = x_b; leaf_hash = leaf_hash; sig = replicate 64 7 } ∷ []

abbrev slots : List (Option Bytes)
slots = none ∷ some (replicate 64 7) ∷ []

one_of_two : quorum_slots 0 1 leaf_hash tap_sigs (x_a ∷ x_b ∷ []) ≡ ok slots
unfolding quorum_slots tap_slots next_slot fill_slot empty_slot tap_sig_of bytes_eq
one_of_two = refl

quorum_slots_bound_example :
    (filled slots ≡ 1)
    × (length slots ≡ length (x_a ∷ x_b ∷ []))
    × All2 (IsSlot leaf_hash tap_sigs) (x_a ∷ x_b ∷ []) slots
quorum_slots_bound_example =
    quorum_slots_bound 0 1 leaf_hash tap_sigs (x_a ∷ x_b ∷ []) slots one_of_two

leaf_made : make_multisig_tapscript (pos 1) (x_b ∷ x_a ∷ []) ≡ ok (leaf 1 (x_a ∷ x_b ∷ []))
unfolding make_multisig_tapscript out_of_bounds append_op_n any_other_length adjacent_equal
    tap_pushes key_opcode bytes_eq bytes_leb sort insert
leaf_made = refl

extract-make_tapscript_example :
    (extract_multisig_tapscript (leaf 1 (x_a ∷ x_b ∷ [])) ≡ ok (1, sort bytes_leb (x_b ∷ x_a ∷ [])))
    × IsQuorum 1 (length (x_b ∷ x_a ∷ []))
extract-make_tapscript_example =
    extract-make_tapscript (pos 1) (x_b ∷ x_a ∷ []) (leaf 1 (x_a ∷ x_b ∷ [])) leaf_made

decode-encode_base64_example :
    (s : Bytes) × (encode_base64 (1 ∷ 2 ∷ 3 ∷ 4 ∷ []) ≡ ok s)
    × (decode_base64 s ≡ ok (1 ∷ 2 ∷ 3 ∷ 4 ∷ []))
decode-encode_base64_example =
    decode-encode_base64 (1 ∷ 2 ∷ 3 ∷ 4 ∷ [])
      (omega arith, (omega arith, (omega arith, (omega arith, tt))))

-- `QQ==QQ==`: padding inside the text.
padded_inside :
    decode_base64 (0x51 ∷ 0x51 ∷ 0x3d ∷ 0x3d ∷ 0x51 ∷ 0x51 ∷ 0x3d ∷ 0x3d ∷ [])
    ≡ ok (0x41 ∷ 0x41 ∷ [])
unfolding decode_base64 strip strip_front is_space decode_groups decode_group group_loop group_bytes
    b64_value_of
padded_inside = refl

-- The first twenty bytes of the transaction, backwards.
abbrev txid_hex : Bytes
txid_hex = hex (reverse (2 ∷ 0 ∷ 0 ∷ 0 ∷ 1 ∷ replicate 15 0xab))

abbrev summary : PsbtSummary
summary = record {
  txid_hex = txid_hex;
  version = 0;
  inputs = map input_summary (created ∷ []);
  outputs = map output_summary unsigned.vout;
  fee_sat = some 100;
}

summarized : psbt_summary toy_sha256 (with_input created) ≡ ok summary
unfolding psbt_summary hex hex_digit credit_from add_input spend_sat fee_of input_summary
    output_summary input_utxo_data input_data utxo_data out_data txid dsha256 serialize_stripped
    serialize_in serialize_out var_bytes compact_size pack pack_signed signed_bytes le_bytes
summarized = refl

psbt_summary-fee_example : (◌<◌ 100 (2 ^ 64)) × HasCredit (with_input created) 0 1 (900 + 100)
unfolding spend_sat
psbt_summary-fee_example =
    psbt_summary-fee toy_sha256 (with_input created) summary 100 summarized refl
