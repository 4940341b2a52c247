-- ===== src/Script.antt =====
-- script.py: opcodes, `CScript`, the lock scripts with their extractors, and data pushes.
-- The multi-signature scripts are in the modules below.
pub mod LockScripts
pub mod Push
pub mod Multisig
pub mod Tapscript
use yubtc_python.Prelude.{
  ℕ, ◌+◌, ◌/◌, ◌%◌, List, [], ◌∷◌, ◌++◌, length, drop, ltb, leb, ◌==◌, ◌&&◌, if◌then◌else◌, Bool,
  true, false, Result, ok, err, ◌>>=◌, value_error, concat_map,
}
use yubtc_python.Prelude.Bytes.{Bytes, le_bytes}

abbrev pub op_0 : ℕ
op_0 = 0x00

abbrev pub op_pushbytes_20 : ℕ
op_pushbytes_20 = 0x14

abbrev pub op_pushbytes_32 : ℕ
op_pushbytes_32 = 0x20

abbrev pub op_pushdata1 : ℕ
op_pushdata1 = 0x4c

abbrev pub op_pushdata2 : ℕ
op_pushdata2 = 0x4d

abbrev pub op_1 : ℕ
op_1 = 0x51

abbrev pub op_dup : ℕ
op_dup = 0x76

abbrev pub op_equal : ℕ
op_equal = 0x87

abbrev pub op_equalverify : ℕ
op_equalverify = 0x88

abbrev pub op_hash160 : ℕ
op_hash160 = 0xa9

abbrev pub op_checksig : ℕ
op_checksig = 0xac

abbrev pub op_checkmultisig : ℕ
op_checkmultisig = 0xae

abbrev pub op_checksigadd : ℕ
op_checksigadd = 0xba

abbrev pub tapscript_numequal : ℕ
tapscript_numequal = 0x9d

-- An element of the iterable that `CScript` takes.
pub data ScriptItem : Type 0 where
  op : ℕ → ScriptItem
  push : Bytes → ScriptItem

unfoldable pub cscript_item : ScriptItem → Result Bytes
cscript_item (op n) = ok (n ∷ [])
cscript_item (push d) = if leb 0x4c (length d) then err value_error else ok (length d ∷ d)

unfoldable pub cscript : List ScriptItem → Result Bytes
unfolding cscript_item
cscript items = concat_map cscript_item items

pub make_p2wpkh_lock_script : Bytes → Result Bytes
make_p2wpkh_lock_script hash160 =
    if length hash160 == 20 then ok (op_0 ∷ op_pushbytes_20 ∷ hash160) else err value_error

pub make_p2tr_lock_script : Bytes → Result Bytes
make_p2tr_lock_script output_key =
    if length output_key == 32 then ok (op_1 ∷ op_pushbytes_32 ∷ output_key) else err value_error

pub make_p2wsh_lock_script : Bytes → Result Bytes
make_p2wsh_lock_script sha256 =
    if length sha256 == 32 then ok (op_0 ∷ op_pushbytes_32 ∷ sha256) else err value_error

unfoldable pub make_p2sh_lock_script : Bytes → Result Bytes
make_p2sh_lock_script hash160 =
    if length hash160 == 20
    then ok (op_hash160 ∷ 0x14 ∷ (hash160 ++ op_equal ∷ []))
    else err value_error

-- `script[0] == a and script[1] == b`, behind a test of the length.
unfoldable pub starts_with : ℕ → ℕ → Bytes → Bool
starts_with a b (x ∷ y ∷ rest) = x == a && y == b
starts_with a b _ = false

unfoldable pub extract_p2wpkh_hash : Bytes → Result Bytes
unfolding starts_with
extract_p2wpkh_hash script =
    if length script == 22 && starts_with op_0 op_pushbytes_20 script
    then ok (drop 2 script)
    else err value_error

unfoldable pub extract_p2tr_output_key : Bytes → Result Bytes
unfolding starts_with
extract_p2tr_output_key script =
    if length script == 34 && starts_with op_1 op_pushbytes_32 script
    then ok (drop 2 script)
    else err value_error

pub extract_p2wsh_program : Bytes → Result Bytes
unfolding starts_with
extract_p2wsh_program script =
    if length script == 34 && starts_with op_0 op_pushbytes_32 script
    then ok (drop 2 script)
    else err value_error

-- transaction.py: how an input is signed.
pub data SigScheme : Type 0 where
  legacy bip143_p2wpkh bip341_keypath : SigScheme

pub sig_scheme_from_script_pubkey : Bytes → SigScheme
unfolding starts_with
sig_scheme_from_script_pubkey script =
    if length script == 22 && starts_with 0x00 0x14 script
    then bip143_p2wpkh
    else if length script == 34 && starts_with 0x51 0x20 script
    then bip341_keypath
    else legacy

unfoldable pub push_data : Bytes → Result Bytes
push_data data' =
    if ltb 0xffff (length data')
    then err value_error
    else if leb (length data') 0x4b
    then ok (length data' ∷ data')
    else if leb (length data') 0xff
    then ok (op_pushdata1 ∷ length data' ∷ data')
    else ok (op_pushdata2 ∷ (le_bytes 2 (length data') ++ data'))

pub push_data_len : ℕ → ℕ
push_data_len length' = if leb length' 0x4b then 1 else if leb length' 0xff then 2 else 3
