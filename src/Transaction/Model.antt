-- ===== src/Transaction/Model.antt =====
-- transaction.py: `CIn`, `COut` and `CTransaction`, their serializations, sizes and identifiers.
pub mod Sizes
use mathlib.Core.List.{reverse}
use yubtc_python.Prelude.{
  ℕ, ◌+◌, ◌*◌, ◌/◌, List, [], ◌∷◌, ◌++◌, length, ltb, ◌==◌, ◌||◌, not, if◌then◌else◌, Bool, true,
  false, Result, ok, err, ◌>>=◌, concat_map, value_error, map,
}
use yubtc_python.Prelude.Int.{ℤ, pos, negsuc}
use yubtc_python.Prelude.Bytes.{Bytes, pack, pack_signed}
use yubtc_python.Transaction.CompactSize.{compact_size}
use yubtc_python.Hash.{dsha256}

pub record CIn : Type 0 where
  pub txhash : Bytes
  pub n : ℕ
  pub script : Bytes
  pub sequence : ℕ
  pub witness : List Bytes

pub record COut : Type 0 where
  pub amount : ℕ
  pub script : Bytes

pub record CTransaction : Type 0 where
  pub version : ℤ
  pub vin : List CIn
  pub vout : List COut
  pub locktime : ℕ

-- `if x < 0: raise` and `if x > limit: raise`
unfoldable pub bounded : ℕ → ℤ → Result ℕ
bounded limit (negsuc x) = err value_error
bounded limit (pos x) = if ltb limit x then err value_error else ok x

-- `CIn(txhash=..., n=..., script=..., sequence=..., witness=...)`
unfoldable pub c_in : Bytes → ℤ → Bytes → ℤ → List Bytes → Result CIn
unfolding bounded
c_in txhash' n' script' sequence' witness' =
    if not (length txhash' == 32) then err value_error else do
      n'' ← bounded 0xffff_ffff n'
      sequence'' ← bounded 0xffff_ffff sequence'
      ok (record {
        txhash = txhash';
        n = n'';
        script = script';
        sequence = sequence'';
        witness = witness';
      })

-- `COut(amount=..., script=...)`
unfoldable pub c_out : ℤ → Bytes → Result COut
unfolding bounded
c_out amount' script' = do
  amount'' ← bounded 0xffff_ffff_ffff_ffff amount'
  ok (record { amount = amount''; script = script' })

-- `CTransaction(vin=..., vout=..., locktime=...)`
unfoldable pub c_transaction : List CIn → List COut → ℕ → CTransaction
c_transaction vin' vout' locktime' = record {
  version = pos 2;
  vin = vin';
  vout = vout';
  locktime = locktime';
}

unfoldable pub var_bytes : Bytes → Result Bytes
var_bytes item = do size ← compact_size (pos (length item)); ok (size ++ item)

-- `CIn.serialize` and `COut.serialize`
unfoldable pub serialize_c_in : CIn → Result Bytes
unfolding var_bytes
serialize_c_in i = do
  n' ← pack 4 i.n
  script' ← var_bytes i.script
  sequence' ← pack 4 i.sequence
  ok (i.txhash ++ (n' ++ (script' ++ sequence')))

unfoldable pub serialize_c_out : COut → Result Bytes
unfolding var_bytes
serialize_c_out o = do
  amount' ← pack 8 o.amount
  script' ← var_bytes o.script
  ok (amount' ++ script')

unfoldable pub serialize_stripped : CTransaction → Result Bytes
unfolding serialize_c_in serialize_c_out
serialize_stripped tx = do
  version' ← pack_signed tx.version
  n_vin ← compact_size (pos (length tx.vin))
  vin' ← concat_map serialize_c_in tx.vin
  n_vout ← compact_size (pos (length tx.vout))
  vout' ← concat_map serialize_c_out tx.vout
  locktime' ← pack 4 tx.locktime
  ok (version' ++ (n_vin ++ (vin' ++ (n_vout ++ (vout' ++ locktime')))))

-- `any(vin.witness for vin in self.vin)`
unfoldable pub any_witness : List CIn → Bool
any_witness [] = false
any_witness (i ∷ is) = not (length i.witness == 0) || any_witness is

unfoldable pub has_witness : CTransaction → Bool
unfolding any_witness
has_witness tx = any_witness tx.vin

pub serialize_witness : CIn → Result Bytes
unfolding var_bytes
serialize_witness i = do
  count ← compact_size (pos (length i.witness))
  items ← concat_map var_bytes i.witness
  ok (count ++ items)

pub serialize_wire : CTransaction → Result Bytes
unfolding serialize_c_in serialize_c_out serialize_witness
serialize_wire tx = if not (has_witness tx) then serialize_stripped tx else do
  version' ← pack_signed tx.version
  n_vin ← compact_size (pos (length tx.vin))
  vin' ← concat_map serialize_c_in tx.vin
  n_vout ← compact_size (pos (length tx.vout))
  vout' ← concat_map serialize_c_out tx.vout
  witnesses ← concat_map serialize_witness tx.vin
  locktime' ← pack 4 tx.locktime
  ok (
      version'
      ++ (0 ∷ 1 ∷ [] ++ (n_vin ++ (vin' ++ (n_vout ++ (vout' ++ (witnesses ++ locktime')))))))

unfoldable pub weight : CTransaction → Result ℕ
weight tx = do
  stripped ← serialize_stripped tx
  wire ← serialize_wire tx
  ok (length stripped * 3 + length wire)

-- `-(-w // 4)`: Python's `//` rounds down, so this is `w / 4` rounded up.
unfoldable pub vsize : CTransaction → Result ℕ
vsize tx = do w ← weight tx; ok ((w + 3) / 4)

unfoldable pub id : (Bytes → Bytes) → CTransaction → Result Bytes
id sha256 tx = do data' ← serialize_stripped tx; ok (reverse (dsha256 sha256 data'))

unfoldable pub wtxid : (Bytes → Bytes) → CTransaction → Result Bytes
wtxid sha256 tx = do data' ← serialize_wire tx; ok (reverse (dsha256 sha256 data'))
