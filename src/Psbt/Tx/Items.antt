-- ===== src/Psbt/Tx/Items.antt =====
-- The parsers of one input, one output and one witness stack, and of lists of them, at what the
-- serializers wrote.
use yubtc_python.Prelude.{
  ◌^◌, ◌≤◌, ◌<◌, ◌≡◌, sym, List, [], ◌∷◌, ◌++◌, append-nil, append_assoc, map, map-id, length,
  length-append, All, le→ltb, Result, ok, arith,
}
use yubtc_python.Prelude.Bytes.{Bytes, le_bytes, length-le_bytes}
use yubtc_python.Transaction.CompactSize.Laws.{compact, length-compact_pos}
use yubtc_python.Psbt.Reader.{Reader, read_bytes}
use yubtc_python.Psbt.Reader.Laws.{
  at, remaining-at, read_array-at, regroup, regroup_front, read_le-at, read_compact_size-at,
  read_bytes-at,
}
use yubtc_python.Psbt.Tx.{
  PsbtTxIn, PsbtTxOut, read_many, read_in, read_out, bounded_many, parse_witness_section,
  parse_witnesses,
}
use yubtc_python.Psbt.Tx.Layout.{
  joined, length-joined, IsItem, item_bytes, in_bytes, out_bytes, witness_bytes, IsTxIn, IsTxOut,
}

-- A reader of one item that reads back its encoding reads back a list of them.
module _ {A B : Type 0} (read : Reader → Result (B × Reader)) (enc : A → Bytes) (view : A → B)
    (P : A → Type 0)
    (step : (x : A) (front rest : Bytes)
      → P x
      → read (at front (enc x ++ rest)) ≡ ok (view x, at (front ++ enc x) rest)) where
  read_many-at :
      (xs : List A) (front rest : Bytes)
      → All P xs
      → read_many read (length xs) (at front (joined enc xs ++ rest))
        ≡ ok (map view xs, at (front ++ joined enc xs) rest)
  unfolding read_many
  read_many-at [] front rest h = rw append-nil
  read_many-at (x ∷ xs) front rest h = rw (
    append_assoc (enc x) (joined enc xs) rest,
    step x front (joined enc xs ++ rest) h.0,
    read_many-at xs (front ++ enc x) rest h.1,
    append_assoc front (enc x) (joined enc xs),
  )

  pub bounded_many-at :
      ((x : A) → 1 ≤ length (enc x))
      → (xs : List A) (front rest : Bytes) → length xs < 2 ^ 64
      → All P xs
      → bounded_many read (at front (compact (length xs) ++ (joined enc xs ++ rest)))
        ≡ ok (map view xs, at (front ++ (compact (length xs) ++ joined enc xs)) rest)
  unfolding bounded_many
  bounded_many-at nonempty xs front rest fits h =
      let front1 : Bytes = front ++ compact (length xs) in
      let room : length xs ≤ length (joined enc xs ++ rest) =
        omega (arith, length-joined enc nonempty xs, length-append {0} (joined enc xs) rest) in
      rw (
        read_compact_size-at (length xs) front (joined enc xs ++ rest) fits,
        remaining-at front1 (joined enc xs ++ rest),
        le→ltb (length (joined enc xs ++ rest)) (length xs) room,
        read_many-at xs front1 rest h,
        append_assoc front (compact (length xs)) (joined enc xs),
      )

pub item_step :
    (item front rest : Bytes)
    → IsItem item
    → read_bytes (at front (item_bytes item ++ rest))
      ≡ ok (item, at (front ++ item_bytes item) rest)
item_step item front rest h =
    rw (append_assoc (compact (length item)) item rest) (read_bytes-at item front rest h)

abbrev pub bare : PsbtTxIn → PsbtTxIn
bare i = record i { witness = [] }

pub read_in-at :
    (i : PsbtTxIn) (front rest : Bytes)
    → IsTxIn i
    → read_in (at front (in_bytes i ++ rest)) ≡ ok (bare i, at (front ++ in_bytes i) rest)
unfolding read_in
read_in-at i front rest h =
    let front1 : Bytes = front ++ i.txhash in
    let front2 : Bytes = front1 ++ le_bytes 4 i.n in
    let front3 : Bytes = front2 ++ item_bytes i.script in
    let rest3 : Bytes = le_bytes 4 i.sequence ++ rest in
    rw (
      regroup i.txhash (le_bytes 4 i.n) (item_bytes i.script) (le_bytes 4 i.sequence) rest,
      regroup_front front i.txhash (le_bytes 4 i.n) (item_bytes i.script) (le_bytes 4 i.sequence),
      read_array-at front i.txhash (le_bytes 4 i.n ++ (item_bytes i.script ++ rest3)) 32
          (sym h.txhash),
      read_le-at 4 i.n front1 (item_bytes i.script ++ rest3) h.n,
      item_step i.script front2 rest3 h.script,
      read_le-at 4 i.sequence front3 rest h.sequence,
    )

pub read_out-at :
    (o : PsbtTxOut) (front rest : Bytes)
    → IsTxOut o
    → read_out (at front (out_bytes o ++ rest)) ≡ ok (o, at (front ++ out_bytes o) rest)
unfolding read_out
read_out-at o front rest h = rw (
  append_assoc (le_bytes 8 o.amount) (item_bytes o.script) rest,
  read_le-at 8 o.amount front (item_bytes o.script ++ rest) h.amount,
  item_step o.script (front ++ le_bytes 8 o.amount) rest h.script,
  append_assoc front (le_bytes 8 o.amount) (item_bytes o.script),
)

pub length-in_bytes : (i : PsbtTxIn) → 1 ≤ length (in_bytes i)
length-in_bytes i = omega (
  arith,
  length-append {0} i.txhash (le_bytes 4 i.n ++ (item_bytes i.script ++ le_bytes 4 i.sequence)),
  length-append {0} (le_bytes 4 i.n) (item_bytes i.script ++ le_bytes 4 i.sequence),
  length-le_bytes 4 i.n,
)

pub length-out_bytes : (o : PsbtTxOut) → 1 ≤ length (out_bytes o)
length-out_bytes o = omega (
  arith,
  length-append {0} (le_bytes 8 o.amount) (item_bytes o.script),
  length-le_bytes 8 o.amount,
)

pub length-item_bytes : (item : Bytes) → 1 ≤ length (item_bytes item)
length-item_bytes item =
    omega (arith, length-append {0} (compact (length item)) item, length-compact_pos (length item))

read_stack-at :
    (i : PsbtTxIn) (front rest : Bytes)
    → IsTxIn i
    → parse_witness_section (at front (witness_bytes i ++ rest))
      ≡ ok (i.witness, at (front ++ witness_bytes i) rest)
unfolding parse_witness_section
read_stack-at i front rest h =
    rw (append_assoc (compact (length i.witness)) (joined item_bytes i.witness) rest) (
      rw map-id at (
        bounded_many-at read_bytes item_bytes (λ x. x) IsItem item_step length-item_bytes i.witness
          front rest h.count h.witness))

pub parse_witnesses-at :
    (is : List PsbtTxIn) (front rest : Bytes)
    → All IsTxIn is
    → parse_witnesses (map bare is) (at front (joined witness_bytes is ++ rest))
      ≡ ok (is, at (front ++ joined witness_bytes is) rest)
unfolding parse_witnesses
parse_witnesses-at [] front rest h = rw append-nil
parse_witnesses-at (i ∷ is) front rest h = rw (
  append_assoc (witness_bytes i) (joined witness_bytes is) rest,
  read_stack-at i front (joined witness_bytes is ++ rest) h.0,
  parse_witnesses-at is (front ++ witness_bytes i) rest h.1,
  append_assoc front (witness_bytes i) (joined witness_bytes is),
)
