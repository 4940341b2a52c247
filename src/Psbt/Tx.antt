-- ===== src/Psbt/Tx.antt =====
-- psbt.py: the transactions inside a PSBT (`PsbtTxIn`, `PsbtTxOut`, `PsbtTransaction`), their
-- serialization, and `_parse_tx` with its parts.
pub mod Layout
pub mod Items
pub mod RoundTrip
use yubtc_python.Prelude.{
  ℕ, zero, suc, List, [], ◌∷◌, ◌++◌, length, ltb, leb, ◌==◌, ◌&&◌, ◌||◌, not, if◌then◌else◌, Bool,
  true, false, Option, none, some, Result, ok, err, ◌>>=◌, concat_map, psbt, truncated,
  invalid_field_value,
}
use yubtc_python.Prelude.Int.{ℤ, pos}
use yubtc_python.Prelude.Bytes.{Bytes, pack, pack_signed, unpack_signed}
use yubtc_python.Transaction.CompactSize.{compact_size, write_compact_size}
use yubtc_python.Psbt.Reader.{
  Reader, reader, remaining, at_end, peek, take, read_array, read_le, read_compact_size, read_bytes,
}

pub record PsbtTxIn : Type 0 where
  pub txhash : Bytes
  pub n : ℕ
  pub script : Bytes
  pub sequence : ℕ
  pub witness : List Bytes

pub record PsbtTxOut : Type 0 where
  pub amount : ℕ
  pub script : Bytes

pub record PsbtTransaction : Type 0 where
  pub version : ℤ
  pub vin : List PsbtTxIn
  pub vout : List PsbtTxOut
  pub locktime : ℕ

-- `compact_size(len(item)) + item`
unfoldable pub var_bytes : Bytes → Result Bytes
var_bytes item = do size ← compact_size (pos (length item)); ok (size ++ item)

unfoldable pub serialize_in : PsbtTxIn → Result Bytes
unfolding var_bytes
serialize_in i = do
  n ← pack 4 i.n
  script ← var_bytes i.script
  sequence ← pack 4 i.sequence
  ok (i.txhash ++ (n ++ (script ++ sequence)))

unfoldable pub serialize_out : PsbtTxOut → Result Bytes
unfolding var_bytes
serialize_out o = do amount ← pack 8 o.amount; script ← var_bytes o.script; ok (amount ++ script)

unfoldable pub serialize_stripped : PsbtTransaction → Result Bytes
unfolding serialize_in serialize_out
serialize_stripped tx = do
  version ← pack_signed tx.version
  n_vin ← compact_size (pos (length tx.vin))
  vin ← concat_map serialize_in tx.vin
  n_vout ← compact_size (pos (length tx.vout))
  vout ← concat_map serialize_out tx.vout
  locktime ← pack 4 tx.locktime
  ok (version ++ (n_vin ++ (vin ++ (n_vout ++ (vout ++ locktime)))))

-- `any(vin.witness for vin in self.vin)`: an empty stack is false.
unfoldable pub nonempty {ℓ} : {A : Type ℓ} → List A → Bool
nonempty [] = false
nonempty (x ∷ xs) = true

pub any_witness : List PsbtTxIn → Bool
unfolding nonempty
any_witness [] = false
any_witness (i ∷ is) = nonempty i.witness || any_witness is

pub has_witness : PsbtTransaction → Bool
unfolding any_witness
has_witness tx = any_witness tx.vin

pub serialize_witness : PsbtTxIn → Result Bytes
unfolding var_bytes
serialize_witness i = do
  count ← compact_size (pos (length i.witness))
  items ← concat_map var_bytes i.witness
  ok (count ++ items)

pub serialize_wire : PsbtTransaction → Result Bytes
unfolding serialize_in serialize_out serialize_witness
serialize_wire tx = if not (has_witness tx) then serialize_stripped tx else do
  version ← pack_signed tx.version
  n_vin ← compact_size (pos (length tx.vin))
  vin ← concat_map serialize_in tx.vin
  n_vout ← compact_size (pos (length tx.vout))
  vout ← concat_map serialize_out tx.vout
  witnesses ← concat_map serialize_witness tx.vin
  locktime ← pack 4 tx.locktime
  ok (version ++ (0 ∷ 1 ∷ [] ++ (n_vin ++ (vin ++ (n_vout ++ (vout ++ (witnesses ++ locktime)))))))

-- `for _ in range(n): out.append(read(r))`
module _ {ℓ} {A : Type ℓ} (read : Reader → Result (A × Reader)) where
  unfoldable pub read_many : ℕ → Reader → Result (List A × Reader)
  read_many zero r = ok ([], r)
  read_many (suc n) r = do (x, r1) ← read r; (xs, r2) ← read_many n r1; ok (x ∷ xs, r2)

unfoldable pub read_in : Reader → Result (PsbtTxIn × Reader)
read_in r = do
  (txhash, r1) ← read_array r 32
  (n, r2) ← read_le 4 r1
  (script, r3) ← read_bytes r2
  (sequence, r4) ← read_le 4 r3
  ok (record { txhash = txhash; n = n; script = script; sequence = sequence; witness = [] }, r4)

unfoldable pub read_out : Reader → Result (PsbtTxOut × Reader)
read_out r = do
  (amount, r1) ← read_le 8 r
  (script, r2) ← read_bytes r1
  ok (record { amount = amount; script = script }, r2)

-- A count above the bytes that are left is refused before the loop.
unfoldable pub bounded_many {ℓ} :
    {A : Type ℓ} → (Reader → Result (A × Reader)) → Reader → Result (List A × Reader)
unfolding read_many
bounded_many read r = do
  (n, r1) ← read_compact_size r
  if ltb (remaining r1) n then err (psbt truncated) else read_many read n r1

pub parse_witness_section : Reader → Result (List Bytes × Reader)
unfolding bounded_many
parse_witness_section r = bounded_many read_bytes r

-- The stacks follow the outputs, one for each input, in the order of the inputs.
pub parse_witnesses : List PsbtTxIn → Reader → Result (List PsbtTxIn × Reader)
parse_witnesses [] r = ok ([], r)
parse_witnesses (i ∷ is) r = do
  (stack, r1) ← parse_witness_section r
  (rest, r2) ← parse_witnesses is r1
  ok (record i { witness = stack } ∷ rest, r2)

unfoldable pub peek_is : Reader → ℕ → ℕ → Bool
peek_is r offset b = elim (peek r offset) [ none ↦ false | some c ↦ c == b ]

unfoldable pub parse_tx : Bytes → Bool → Result PsbtTransaction
unfolding bounded_many parse_witnesses peek_is
parse_tx data' segwit_allowed = do
  (v, r1) ← read_array (reader data') 4
  version ← unpack_signed v
  let segwit = segwit_allowed && (leb 2 (remaining r1) && (peek_is r1 0 0 && peek_is r1 1 1))
  (skipped, r2) ← (if segwit then take r1 2 else ok ([], r1))
  (vin, r3) ← bounded_many read_in r2
  (vout, r4) ← bounded_many read_out r3
  (vin', r5) ← (if segwit then parse_witnesses vin r4 else ok (vin, r4))
  (locktime, r6) ← read_le 4 r5
  if at_end r6
      then ok (record { version = version; vin = vin'; vout = vout; locktime = locktime })
      else err (psbt truncated)

unfoldable pub parse_witness_utxo : Bytes → Result PsbtTxOut
parse_witness_utxo data' = do
  (out, r) ← read_out (reader data')
  if at_end r then ok out else err (psbt invalid_field_value)

-- `_encode_witness_stack` and `_decode_witness_stack`: the value of `FINAL_SCRIPTWITNESS`.
unfoldable pub encode_items : Bytes → List Bytes → Result Bytes
encode_items out [] = ok out
encode_items out (item ∷ items) = do
  out' ← write_compact_size out (length item)
  encode_items (out' ++ item) items

unfoldable pub encode_witness_stack : List Bytes → Result Bytes
unfolding encode_items
encode_witness_stack items = do out ← write_compact_size [] (length items); encode_items out items

unfoldable pub decode_witness_stack : Bytes → Result (List Bytes)
unfolding bounded_many
decode_witness_stack data' = do
  (stack, r) ← bounded_many read_bytes (reader data')
  if at_end r then ok stack else err (psbt truncated)
