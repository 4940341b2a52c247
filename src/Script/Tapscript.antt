-- ===== src/Script/Tapscript.antt =====
-- script.py: the M-of-N tapscript leaf, its extractor, its hash and the witness that reveals it.
pub mod Extract
use mathlib.Core.List.{reverse}
use yubtc_python.Prelude.{
  ℕ, zero, suc, ◌+◌, ◌-◌, ◌*◌, ◌/◌, ◌%◌, List, [], ◌∷◌, ◌++◌, map, length, ltb, leb, ◌==◌, ◌&&◌,
  ◌||◌, not, if◌then◌else◌, Bool, true, false, Option, none, some, Result, ok, err, ◌>>=◌, ◌>>◌,
  guard, invalid_multisig_tapscript,
}
use yubtc_python.Prelude.Int.{ℤ, pos}
use yubtc_python.Prelude.Bytes.{Bytes, index, slice}
use yubtc_python.Prelude.Sort.{bytes_leb, sort}
use yubtc_python.Hash.{tagged_hash}
use yubtc_python.Transaction.CompactSize.{compact_size}
use yubtc_python.Script.{op_checksig, op_checksigadd, tapscript_numequal}
use yubtc_python.Script.Multisig.{
  out_of_bounds, any_other_length, adjacent_equal, append_op_n, has_duplicates, ms_max_pubkeys,
}

abbrev pub tapscript_leaf_version : ℕ
tapscript_leaf_version = 0xc0

-- `OP_CHECKSIG if i == 0 else OP_CHECKSIGADD`
unfoldable pub key_opcode : ℕ → ℕ
key_opcode i = if i == 0 then op_checksig else op_checksigadd

-- The loop over the sorted keys, from key `i` on.
unfoldable pub tap_pushes : ℕ → List Bytes → Bytes
unfolding key_opcode
tap_pushes i [] = []
tap_pushes i (k ∷ ks) = 0x20 ∷ (k ++ key_opcode i ∷ tap_pushes (i + 1) ks)

unfoldable pub make_multisig_tapscript : ℤ → List Bytes → Result Bytes
make_multisig_tapscript m keys = do
  guard (not (out_of_bounds m (length keys))) invalid_multisig_tapscript
  guard (not (any_other_length 32 keys)) invalid_multisig_tapscript
  let sorted_keys = sort bytes_leb keys
  guard (not (adjacent_equal sorted_keys)) invalid_multisig_tapscript
  op_m ← append_op_n m
  ok (tap_pushes 0 sorted_keys ++ (op_m ++ tapscript_numequal ∷ []))

-- The loop over the keys, from key `i` on with `count` keys to go.
unfoldable pub read_tap_keys : ℕ → ℕ → Bytes → Result (List Bytes)
read_tap_keys zero i script = ok []
read_tap_keys (suc count) i script = do
  let start = i * 34
  push ← index script start
  guard (push == 0x20) invalid_multisig_tapscript
  let key = slice script (start + 1) (start + 33)
  opcode ← index script (start + 33)
  guard (opcode == key_opcode i) invalid_multisig_tapscript
  keys ← read_tap_keys count (i + 1) script
  ok (key ∷ keys)

-- What follows the test of the length.
unfoldable pub extract_long_tapscript : Bytes → Result (ℕ × List Bytes)
extract_long_tapscript script = do
  m_op ← index script (length script - 2)
  last ← index script (length script - 1)
  guard (last == tapscript_numequal && (leb 0x51 m_op && leb m_op 0x5f)) invalid_multisig_tapscript
  let m = m_op - 0x50
  let body = length script - 2
  guard (body % 34 == 0) invalid_multisig_tapscript
  let n = body / 34
  guard (leb m n && leb n ms_max_pubkeys) invalid_multisig_tapscript
  keys ← read_tap_keys n 0 script
  guard (not (has_duplicates keys)) invalid_multisig_tapscript
  ok (m, keys)

unfoldable pub extract_multisig_tapscript : Bytes → Result (ℕ × List Bytes)
unfolding extract_long_tapscript
extract_multisig_tapscript script =
    if ltb (length script) (34 + 2)
    then err invalid_multisig_tapscript
    else extract_long_tapscript script

-- `b'TapLeaf'`
abbrev pub tap_leaf : Bytes
tap_leaf = 0x54 ∷ 0x61 ∷ 0x70 ∷ 0x4c ∷ 0x65 ∷ 0x61 ∷ 0x66 ∷ []

unfoldable pub tapscript_leaf_hash : (Bytes → Bytes) → Bytes → Result Bytes
tapscript_leaf_hash sha256 script = do
  size ← compact_size (pos (length script))
  ok (tagged_hash sha256 tap_leaf (tapscript_leaf_version ∷ (size ++ script)))

-- `bytes(slot) if slot is not None else b''`
abbrev pub slot_item : Option Bytes → Bytes
slot_item (some sig) = sig
slot_item none = []

unfoldable pub make_multisig_tapscript_witness : Bytes → Bytes → List (Option Bytes) → List Bytes
make_multisig_tapscript_witness script control_block sig_slots =
    map slot_item (reverse sig_slots) ++ script ∷ control_block ∷ []
