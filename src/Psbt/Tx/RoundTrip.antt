-- ===== src/Psbt/Tx/RoundTrip.antt =====
-- `_parse_tx` and the other parsers at what the serializers wrote.
use yubtc_python.Prelude.{
  ℕ, ◌^◌, ◌<◌, ◌≡◌, refl, sym, ap, ap₂, ◌∙◌, List, [], ◌∷◌, ◌++◌, append-nil, append_assoc, map,
  map-id, get_elem?, ◌⊎◌, length, All, leb, ◌==◌, le→leb, some, ◌&&◌, Bool, true, false, Bool-cases,
  inl, inr, ok, arith, >>=-eq-ok, ok-injective, subst,
}
use yubtc_python.Prelude.Bytes.{
  Bytes, le_bytes, signed_bytes, length-signed_bytes, unpack_signed_lem,
}
use yubtc_python.Transaction.CompactSize.Laws.{
  compact, compact_cases, write_compact_size-compact, write_compact_size_bound,
}
use yubtc_python.Psbt.Reader.{reader, remaining, read_le, read_bytes}
use yubtc_python.Psbt.Reader.Laws.{
  at, at_end-at, remaining-at, take-at, read_array-at, peek-at, read_le-at,
}
use yubtc_python.Psbt.Tx.{
  PsbtTxIn, PsbtTransaction, serialize_stripped, has_witness, nonempty, any_witness, serialize_wire,
  read_in, read_out, bounded_many, peek_is, parse_tx, encode_items, encode_witness_stack,
  decode_witness_stack,
}
use yubtc_python.Psbt.Tx.Layout.{
  joined, IsItem, item_bytes, in_bytes, out_bytes, witness_bytes, stripped_bytes, wire_bytes,
  IsTxIn, IsTxOut, IsTransaction, serialize_stripped-stripped_bytes, serialize_wire-wire_bytes,
  serialize_wire-stripped,
}
use yubtc_python.Psbt.Tx.Items.{
  bounded_many-at, item_step, bare, read_in-at, read_out-at, length-in_bytes, length-out_bytes,
  length-item_bytes, parse_witnesses-at,
}
use yubtc_python.Transaction.CompactSize.{write_compact_size}

-- The parts of a transaction, in the order of the wire.
vins-at :
    (tx : PsbtTransaction) (front rest : Bytes)
    → IsTransaction tx
    → bounded_many read_in (at front (compact (length tx.vin) ++ (joined in_bytes tx.vin ++ rest)))
      ≡ ok (map bare tx.vin, at (front ++ (compact (length tx.vin) ++ joined in_bytes tx.vin)) rest)
vins-at tx front rest h =
    bounded_many-at read_in in_bytes bare IsTxIn read_in-at length-in_bytes tx.vin front rest
      h.n_vin h.vin

vouts-at :
    (tx : PsbtTransaction) (front rest : Bytes)
    → IsTransaction tx
    → bounded_many read_out
        (at front (compact (length tx.vout) ++ (joined out_bytes tx.vout ++ rest)))
      ≡ ok (tx.vout, at (front ++ (compact (length tx.vout) ++ joined out_bytes tx.vout)) rest)
vouts-at tx front rest h = rw map-id at (
    bounded_many-at read_out out_bytes (λ o. o) IsTxOut read_out-at length-out_bytes tx.vout front
      rest h.n_vout h.vout)

last_field :
    (n : ℕ) (front : Bytes)
    → n < 2 ^ 32
    → read_le 4 (at front (le_bytes 4 n)) ≡ ok (n, at (front ++ le_bytes 4 n) [])
last_field n front h = rw append-nil at (read_le-at 4 n front [] h)

-- The stacks are no part of the stripped layout.
abbrev pub strip : PsbtTransaction → PsbtTransaction
strip tx = record tx { vin = map bare tx.vin }

peek_is-at :
    (front rest : Bytes) (i b c : ℕ)
    → i < length rest
    → get_elem? rest i ≡ some c
    → peek_is (at front rest) i b ≡ (c == b)
unfolding peek_is
peek_is-at front rest i b c h e = rw (peek-at front rest i h ∙ e, peek_is)

-- A count of at least one input does not start with the byte of the marker.
no_marker :
    (n : ℕ) (front rest : Bytes)
    → 0 < n
    → n < 2 ^ 64
    → peek_is (at front (compact n ++ rest)) 0 0 ≡ false
no_marker n front rest h hn = elim (compact_cases n hn) [
  | inl (small, e) ↦ rw (e, peek_is-at front (n ∷ rest) 0 0 n (omega arith) refl) (ground arith)
  | inr (p, k, least, wide, above, fits, e) ↦
      rw (e, peek_is-at front (p ∷ (le_bytes k n ++ rest)) 0 0 p (omega arith) refl) (ground arith)
]

marker_off :
    (allowed : Bool) (n : ℕ) (front rest : Bytes)
    → n < 2 ^ 64
    → (allowed ≡ false) ⊎ (0 < n)
    → (allowed
        && (leb 2 (remaining (at front (compact n ++ rest)))
            && (peek_is (at front (compact n ++ rest)) 0 0
                && peek_is (at front (compact n ++ rest)) 1 1)))
      ≡ false
marker_off allowed n front rest hn kind = ground (arith, no_marker n front rest)

marker_on :
    (front rest : Bytes)
    → (true
        && (leb 2 (remaining (at front (0 ∷ 1 ∷ rest)))
            && (peek_is (at front (0 ∷ 1 ∷ rest)) 0 0 && peek_is (at front (0 ∷ 1 ∷ rest)) 1 1)))
      ≡ true
marker_on front rest = rw (
  remaining-at front (0 ∷ 1 ∷ rest),
  le→leb 2 (length (0 ∷ 1 ∷ rest)) (omega arith),
  peek_is-at front (0 ∷ 1 ∷ rest) 0 0 0 (omega arith) refl,
  peek_is-at front (0 ∷ 1 ∷ rest) 1 1 1 (omega arith) refl,
)

parse_stripped :
    (tx : PsbtTransaction) (allowed : Bool)
    → IsTransaction tx
    → (allowed ≡ false) ⊎ (0 < length tx.vin)
    → parse_tx (stripped_bytes tx) allowed ≡ ok (strip tx)
unfolding parse_tx reader
parse_stripped tx allowed h kind =
    let version : Bytes = signed_bytes tx.version in
    let ins : Bytes = compact (length tx.vin) ++ joined in_bytes tx.vin in
    let outs : Bytes = compact (length tx.vout) ++ joined out_bytes tx.vout in
    let last : Bytes = le_bytes 4 tx.locktime in
    let rest2 : Bytes = compact (length tx.vout) ++ (joined out_bytes tx.vout ++ last) in
    let rest1 : Bytes = compact (length tx.vin) ++ (joined in_bytes tx.vin ++ rest2) in
    rw (
      read_array-at [] version rest1 4 (sym (length-signed_bytes tx.version)),
      unpack_signed_lem tx.version h.version,
      marker_off allowed (length tx.vin) version (joined in_bytes tx.vin ++ rest2) h.n_vin kind,
      vins-at tx version rest2 h,
      vouts-at tx (version ++ ins) last h,
      last_field tx.locktime ((version ++ ins) ++ outs) h.locktime,
      at_end-at (((version ++ ins) ++ outs) ++ last) [],
    )

parse_witnessed : (tx : PsbtTransaction) → IsTransaction tx → parse_tx (wire_bytes tx) true ≡ ok tx
unfolding parse_tx reader
parse_witnessed tx h =
    let version : Bytes = signed_bytes tx.version in
    let marker : Bytes = version ++ 0 ∷ 1 ∷ [] in
    let ins : Bytes = compact (length tx.vin) ++ joined in_bytes tx.vin in
    let outs : Bytes = compact (length tx.vout) ++ joined out_bytes tx.vout in
    let last : Bytes = le_bytes 4 tx.locktime in
    let rest3 : Bytes = joined witness_bytes tx.vin ++ last in
    let rest2 : Bytes = compact (length tx.vout) ++ (joined out_bytes tx.vout ++ rest3) in
    let rest1 : Bytes = compact (length tx.vin) ++ (joined in_bytes tx.vin ++ rest2) in
    let front3 : Bytes = ((marker ++ ins) ++ outs) ++ joined witness_bytes tx.vin in
    rw (
      read_array-at [] version (0 ∷ 1 ∷ rest1) 4 (sym (length-signed_bytes tx.version)),
      unpack_signed_lem tx.version h.version,
      marker_on version rest1,
      take-at version (0 ∷ 1 ∷ []) rest1 2 refl,
      vins-at tx marker rest2 h,
      vouts-at tx (marker ++ ins) rest3 h,
      parse_witnesses-at tx.vin ((marker ++ ins) ++ outs) last h.vin,
      last_field tx.locktime front3 h.locktime,
      at_end-at (front3 ++ last) [],
    )

-- `_parse_tx` with the marker refused reads back every well-formed transaction from its stripped
-- serialization, without its witness stacks.
pub parse_tx-serialize_stripped :
    (tx : PsbtTransaction)
    → IsTransaction tx
    → (out : Bytes) × (serialize_stripped tx ≡ ok out) × (parse_tx out false ≡ ok (strip tx))
parse_tx-serialize_stripped tx h = (
  stripped_bytes tx,
  serialize_stripped-stripped_bytes tx h,
  parse_stripped tx false h (inl refl),
)

bare_in : (i : PsbtTxIn) → nonempty i.witness ≡ false → bare i ≡ i
unfolding nonempty
bare_in i h = ground arith

bare_ins : (is : List PsbtTxIn) → any_witness is ≡ false → map bare is ≡ is
unfolding any_witness nonempty
bare_ins [] h = refl
bare_ins (i ∷ is) h = ap₂ ◌∷◌ (bare_in i (ground arith)) (bare_ins is (ground arith))

bare_tx : (tx : PsbtTransaction) → has_witness tx ≡ false → strip tx ≡ tx
unfolding has_witness
bare_tx tx h = λ i. record tx { vin = bare_ins tx.vin h i }

-- `_parse_tx` with the marker allowed reads back every well-formed transaction with an input from its
-- wire serialization, witness stacks included.
pub parse_tx-serialize_wire :
    (tx : PsbtTransaction)
    → IsTransaction tx
    → 0 < length tx.vin
    → (out : Bytes) × (serialize_wire tx ≡ ok out) × (parse_tx out true ≡ ok tx)
parse_tx-serialize_wire tx h one = elim (Bool-cases (has_witness tx)) [
  | inl w ↦ (wire_bytes tx, serialize_wire-wire_bytes tx h w, parse_witnessed tx h)
  | inr w ↦ (
    stripped_bytes tx,
    serialize_wire-stripped tx w ∙ serialize_stripped-stripped_bytes tx h,
    parse_stripped tx true h (inr one) ∙ ap ok (bare_tx tx w),
  )
]

encode_items-joined :
    (items : List Bytes) (out : Bytes)
    → All IsItem items
    → encode_items out items ≡ ok (out ++ joined item_bytes items)
unfolding encode_items
encode_items-joined [] out h = rw append-nil
encode_items-joined (item ∷ items) out h =
    rw (write_compact_size-compact out (length item) h.0)
      (encode_items-joined items ((out ++ compact (length item)) ++ item) h.1 ∙ simp append_assoc)

encode_witness_stack-joined :
    (items : List Bytes)
    → length items < 2 ^ 64
    → All IsItem items
    → encode_witness_stack items ≡ ok (compact (length items) ++ joined item_bytes items)
unfolding encode_witness_stack
encode_witness_stack-joined items h hi = rw (
  write_compact_size-compact [] (length items) h,
  encode_items-joined items (compact (length items)) hi,
)

decode_joined :
    (items : List Bytes)
    → length items < 2 ^ 64
    → All IsItem items
    → decode_witness_stack (compact (length items) ++ joined item_bytes items) ≡ ok items
unfolding decode_witness_stack reader
decode_joined items h hi = rw (
  rw (append-nil (joined item_bytes items), map-id items) at
      (bounded_many-at read_bytes item_bytes (λ x. x) IsItem item_step length-item_bytes items [] []
        h hi),
  at_end-at (compact (length items) ++ joined item_bytes items) [],
)

-- `_decode_witness_stack` reads back the stack that `_encode_witness_stack` wrote.
pub decode-encode_witness_stack :
    (items : List Bytes)
    → length items < 2 ^ 64
    → All IsItem items
    → (out : Bytes) × (encode_witness_stack items ≡ ok out) × (decode_witness_stack out ≡ ok items)
decode-encode_witness_stack items h hi =
    (_, encode_witness_stack-joined items h hi, decode_joined items h hi)

encode_items-IsItem :
    (items : List Bytes) (out : Bytes) {out' : Bytes}
    → encode_items out items ≡ ok out'
    → All IsItem items
unfolding encode_items
encode_items-IsItem [] out e = tt
encode_items-IsItem (item ∷ items) out e =
    let (out1, written, e1) = >>=-eq-ok (write_compact_size out (length item)) _ e in
    (
      write_compact_size_bound out (length item) written,
      encode_items-IsItem items (out1 ++ item) e1,
    )

-- A stack that was encoded is decoded.
pub decode-of-encode :
    (items : List Bytes) (out : Bytes)
    → encode_witness_stack items ≡ ok out
    → decode_witness_stack out ≡ ok items
unfolding encode_witness_stack
decode-of-encode items out e =
    let (counted, written, e1) = >>=-eq-ok (write_compact_size [] (length items)) _ e in
    let h : length items < 2 ^ 64 = write_compact_size_bound [] (length items) written in
    let hi : All IsItem items = encode_items-IsItem items counted e1 in
    subst (λ o. decode_witness_stack o ≡ ok items)
      (ok-injective (sym (encode_witness_stack-joined items h hi) ∙ e)) (decode_joined items h hi)
