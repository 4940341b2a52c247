-- ===== src/Transaction/Model/Sizes.antt =====
-- The sizes and identifiers of a `CTransaction`.
use yubtc_python.Prelude.{
  suc, ◌+◌, ◌*◌, ◌/◌, ◌≡◌, refl, ap, List, [], ◌∷◌, map, length, false, ok, concat_map, arith,
}
use yubtc_python.Prelude.Bytes.{Bytes}
use yubtc_python.Transaction.Model.{
  CIn, CTransaction, serialize_c_in, serialize_stripped, serialize_wire, has_witness, weight, vsize,
  id, wtxid,
}

-- The transaction without its witness stacks.
abbrev pub bare : CIn → CIn
bare i = record i { witness = [] }

abbrev pub without_witnesses : CTransaction → CTransaction
without_witnesses tx = record tx { vin = map bare tx.vin }

length-bare : (is : List CIn) → length (map bare is) ≡ length is
length-bare [] = refl
length-bare (i ∷ is) = ap suc (length-bare is)

serialize-bare :
    (is : List CIn) → concat_map serialize_c_in (map bare is) ≡ concat_map serialize_c_in is
unfolding serialize_c_in
serialize-bare [] = refl
serialize-bare (i ∷ is) = rw (serialize-bare is)

stripped-without_witnesses :
    (tx : CTransaction) → serialize_stripped (without_witnesses tx) ≡ serialize_stripped tx
unfolding serialize_stripped
stripped-without_witnesses tx = rw (length-bare tx.vin, serialize-bare tx.vin)

-- The transaction identifier does not depend on the witness stacks.
pub id-without_witnesses :
    (sha256 : Bytes → Bytes) (tx : CTransaction) → id sha256 (without_witnesses tx) ≡ id sha256 tx
unfolding id
id-without_witnesses sha256 tx = rw (stripped-without_witnesses tx)

-- A transaction without witnesses has one identifier and one size: `wtxid` is `id`, and `vsize` is the
-- length of the stripped serialization.
pub legacy_sizes :
    (sha256 : Bytes → Bytes) (tx : CTransaction) (data' : Bytes)
    → has_witness tx ≡ false
    → serialize_stripped tx ≡ ok data'
    → (wtxid sha256 tx ≡ id sha256 tx) × (vsize tx ≡ ok (length data'))
unfolding id wtxid vsize weight serialize_wire
legacy_sizes sha256 tx data' h e =
    let size : (length data' * 3 + length data' + 3) / 4 ≡ length data' = omega arith in
    (rw (h, e), rw (h, e, size))
