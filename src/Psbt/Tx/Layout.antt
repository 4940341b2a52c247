-- ===== src/Psbt/Tx/Layout.antt =====
-- The serializations of psbt.py in closed form.
use yubtc_python.Prelude.{
  ◌^◌, ◌≤◌, ◌<◌, ◌≡◌, refl, List, [], ◌∷◌, ◌++◌, length, length-append, All, true, false, Result,
  ok, concat_map, arith,
}
use yubtc_python.Prelude.Bytes.{Bytes, le_bytes, pack_lem, signed_bytes, IsInt32, pack_signed_lem}
use yubtc_python.Transaction.CompactSize.Laws.{compact, compact_size-compact}
use yubtc_python.Psbt.Tx.{
  PsbtTxIn, PsbtTxOut, PsbtTransaction, var_bytes, serialize_in, serialize_out, serialize_stripped,
  has_witness, serialize_witness, serialize_wire,
}

-- `b''.join(f(x) for x in xs)`
module _ {ℓ} {A : Type ℓ} (f : A → Bytes) where
  abbrev pub joined : List A → Bytes
  joined [] = []
  joined (x ∷ xs) = f x ++ joined xs

  pub length-joined : ((x : A) → 1 ≤ length (f x)) → (xs : List A) → length xs ≤ length (joined xs)
  length-joined h [] = omega arith
  length-joined h (x ∷ xs) =
      omega (arith, h x, length-append {0} (f x) (joined xs), length-joined h xs)

  pub concat_map-joined {κ} :
      (g : A → Result Bytes) (P : A → Type κ)
      → ((x : A) → P x → g x ≡ ok (f x))
      → (xs : List A) → All P xs
      → concat_map g xs ≡ ok (joined xs)
  concat_map-joined g P step [] h = refl
  concat_map-joined g P step (x ∷ xs) h = rw (step x h.0, concat_map-joined g P step xs h.1)

abbrev pub IsItem : Bytes → Type 0
IsItem b = length b < 2 ^ 64

abbrev pub item_bytes : Bytes → Bytes
item_bytes b = compact (length b) ++ b

abbrev pub in_bytes : PsbtTxIn → Bytes
in_bytes i = i.txhash ++ (le_bytes 4 i.n ++ (item_bytes i.script ++ le_bytes 4 i.sequence))

abbrev pub out_bytes : PsbtTxOut → Bytes
out_bytes o = le_bytes 8 o.amount ++ item_bytes o.script

abbrev pub witness_bytes : PsbtTxIn → Bytes
witness_bytes i = compact (length i.witness) ++ joined item_bytes i.witness

abbrev pub stripped_bytes : PsbtTransaction → Bytes
stripped_bytes tx =
    signed_bytes tx.version
    ++ (compact (length tx.vin)
        ++ (joined in_bytes tx.vin
            ++ (compact (length tx.vout) ++ (joined out_bytes tx.vout ++ le_bytes 4 tx.locktime))))

abbrev pub wire_bytes : PsbtTransaction → Bytes
wire_bytes tx =
    signed_bytes tx.version
    ++ (0 ∷ 1 ∷ []
        ++ (compact (length tx.vin)
            ++ (joined in_bytes tx.vin
                ++ (compact (length tx.vout)
                    ++ (joined out_bytes tx.vout
                        ++ (joined witness_bytes tx.vin ++ le_bytes 4 tx.locktime))))))

-- The fields fit the widths of the wire format.
pub record IsTxIn (i : PsbtTxIn) : Type 0 where
  pub txhash : length i.txhash ≡ 32
  pub n : i.n < 2 ^ 32
  pub script : IsItem i.script
  pub sequence : i.sequence < 2 ^ 32
  pub count : length i.witness < 2 ^ 64
  pub witness : All IsItem i.witness

pub record IsTxOut (o : PsbtTxOut) : Type 0 where
  pub amount : o.amount < 2 ^ 64
  pub script : IsItem o.script

pub record IsTransaction (tx : PsbtTransaction) : Type 0 where
  pub version : IsInt32 tx.version
  pub n_vin : length tx.vin < 2 ^ 64
  pub n_vout : length tx.vout < 2 ^ 64
  pub vin : All IsTxIn tx.vin
  pub vout : All IsTxOut tx.vout
  pub locktime : tx.locktime < 2 ^ 32

var_bytes-item_bytes : (b : Bytes) → IsItem b → var_bytes b ≡ ok (item_bytes b)
unfolding var_bytes
var_bytes-item_bytes b h = rw (compact_size-compact (length b) h)

serialize_in-in_bytes : (i : PsbtTxIn) → IsTxIn i → serialize_in i ≡ ok (in_bytes i)
unfolding serialize_in
serialize_in-in_bytes i h = rw (
  pack_lem 4 i.n h.n,
  compact_size-compact (length i.script) h.script,
  pack_lem 4 i.sequence h.sequence,
)

serialize_out-out_bytes : (o : PsbtTxOut) → IsTxOut o → serialize_out o ≡ ok (out_bytes o)
unfolding serialize_out
serialize_out-out_bytes o h =
    rw (pack_lem 8 o.amount h.amount, compact_size-compact (length o.script) h.script)

serialize_witness-witness_bytes :
    (i : PsbtTxIn) → IsTxIn i → serialize_witness i ≡ ok (witness_bytes i)
unfolding serialize_witness
serialize_witness-witness_bytes i h = rw (
  compact_size-compact (length i.witness) h.count,
  concat_map-joined item_bytes var_bytes IsItem var_bytes-item_bytes i.witness h.witness,
)

pub serialize_stripped-stripped_bytes :
    (tx : PsbtTransaction) → IsTransaction tx → serialize_stripped tx ≡ ok (stripped_bytes tx)
unfolding serialize_stripped
serialize_stripped-stripped_bytes tx h = rw (
  pack_signed_lem tx.version h.version,
  compact_size-compact (length tx.vin) h.n_vin,
  concat_map-joined in_bytes serialize_in IsTxIn serialize_in-in_bytes tx.vin h.vin,
  compact_size-compact (length tx.vout) h.n_vout,
  concat_map-joined out_bytes serialize_out IsTxOut serialize_out-out_bytes tx.vout h.vout,
  pack_lem 4 tx.locktime h.locktime,
)

pub serialize_wire-wire_bytes :
    (tx : PsbtTransaction)
    → IsTransaction tx
    → has_witness tx ≡ true
    → serialize_wire tx ≡ ok (wire_bytes tx)
unfolding serialize_wire
serialize_wire-wire_bytes tx h w = rw (
  w,
  pack_signed_lem tx.version h.version,
  compact_size-compact (length tx.vin) h.n_vin,
  concat_map-joined in_bytes serialize_in IsTxIn serialize_in-in_bytes tx.vin h.vin,
  compact_size-compact (length tx.vout) h.n_vout,
  concat_map-joined out_bytes serialize_out IsTxOut serialize_out-out_bytes tx.vout h.vout,
  concat_map-joined witness_bytes serialize_witness IsTxIn serialize_witness-witness_bytes tx.vin
      h.vin,
  pack_lem 4 tx.locktime h.locktime,
)

pub serialize_wire-stripped :
    (tx : PsbtTransaction) → has_witness tx ≡ false → serialize_wire tx ≡ serialize_stripped tx
unfolding serialize_wire
serialize_wire-stripped tx w = rw w
