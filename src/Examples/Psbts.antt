-- ===== src/Examples/Psbts.antt =====
-- PSBTs, their transactions and their merges at concrete inputs.
use yubtc_python.Prelude.{
  ◌^◌, ◌≤◌, ◌<◌, ◌≡◌, refl, List, [], ◌∷◌, ◌++◌, length, replicate, true, false, none, ok, arith,
}
use yubtc_python.Prelude.Lists
use yubtc_python.Prelude.Int.{pos}
use yubtc_python.Prelude.Bytes.{Bytes, from_le, unpack, unpack_signed, from_signed, bytes_eq}
use yubtc_python.Prelude.Sort.{bytes_leb, insert, sort}
use yubtc_python.Transaction.CompactSize.Laws.{compact}
use yubtc_python.Psbt.Reader.{
  reader, remaining, at_end, peek, take, read_array, read_le, read_compact_size, read_bytes,
}
use yubtc_python.Psbt.KeyValue.{
  Pair, split_wide, split_key, contains, read_map_loop, read_map, key_leb, write_map,
}
use yubtc_python.Psbt.KeyValue.Keys.{split_key_inv}
use yubtc_python.Psbt.KeyValue.RoundTrip.{Fresh, read_map-write_map}
use yubtc_python.Psbt.Tx.{
  PsbtTxIn, PsbtTxOut, PsbtTransaction, nonempty, serialize_wire, serialize_stripped, read_many,
  read_in, read_out, bounded_many, peek_is, parse_tx, encode_witness_stack, decode_witness_stack,
}
use yubtc_python.Psbt.Tx.Layout.{IsTxIn, IsTransaction}
use yubtc_python.Psbt.Tx.RoundTrip.{
  strip, parse_tx-serialize_wire, parse_tx-serialize_stripped, decode-encode_witness_stack,
}
use yubtc_python.Psbt.Model.{UnknownKv, Psbt, empty_input}
use yubtc_python.Psbt.Model.Parse.{
  except_psbt, no_keydata, output_pairs_loop, parse_output_map, input_pairs_loop, parse_input_map,
  any_script, unsigned_field, global_field, global_pairs_loop, read_maps, the_unsigned_tx,
  parse_maps, magic, psbt_max_size, parse_psbt,
}
use yubtc_python.Psbt.Model.Parse.Ladder.{IsAccepted, parse_psbt-IsAccepted}
use yubtc_python.Psbt.Merge.{find, merge_keyed, same_value, merge_unknown}
use yubtc_python.Psbt.Merge.Keyed.{or_else}
use yubtc_python.Psbt.Merge.Field.{merge_unknown_lem}

abbrev spend : PsbtTxIn
spend = record {
  txhash = replicate 32 0xab;
  n = 1;
  script = [];
  sequence = 0xffff_fffd;
  witness = (0x30 ∷ 0x44 ∷ []) ∷ [];
}

abbrev payment : PsbtTxOut
payment = record { amount = 50000; script = 0x51 ∷ [] }

abbrev tx : PsbtTransaction
tx = record { version = pos 2; vin = spend ∷ []; vout = payment ∷ []; locktime = 0 }

spend-IsTxIn : IsTxIn spend
spend-IsTxIn = record {
  txhash = refl;
  n = omega arith;
  script = omega arith;
  sequence = omega arith;
  count = omega arith;
  witness = (omega arith, tt);
}

tx-IsTransaction : IsTransaction tx
tx-IsTransaction = record {
  version = omega arith;
  n_vin = omega arith;
  n_vout = omega arith;
  vin = (spend-IsTxIn, tt);
  vout = (record { amount = omega arith; script = omega arith }, tt);
  locktime = omega arith;
}

parse_tx-serialize_wire_example :
    (out : Bytes) × (serialize_wire tx ≡ ok out) × (parse_tx out true ≡ ok tx)
parse_tx-serialize_wire_example = parse_tx-serialize_wire tx tx-IsTransaction (omega arith)

parse_tx-serialize_stripped_example :
    (out : Bytes) × (serialize_stripped tx ≡ ok out) × (parse_tx out false ≡ ok (strip tx))
parse_tx-serialize_stripped_example = parse_tx-serialize_stripped tx tx-IsTransaction

abbrev items : List Bytes
items = [] ∷ (1 ∷ 2 ∷ []) ∷ []

decode-encode_witness_stack_example :
    (out : Bytes) × (encode_witness_stack items ≡ ok out) × (decode_witness_stack out ≡ ok items)
decode-encode_witness_stack_example =
    decode-encode_witness_stack items (omega arith) (omega arith, (omega arith, tt))

abbrev front : Bytes
front = 9 ∷ []

abbrev pairs : List Pair
pairs = (1 ∷ [], 2 ∷ 3 ∷ []) ∷ (0 ∷ [], 4 ∷ []) ∷ []

pairs-Fresh : Fresh [] (sort key_leb pairs)
unfolding sort insert key_leb bytes_leb contains bytes_eq
pairs-Fresh = (refl, (refl, tt))

read_map-write_map_example :
    (out : Bytes) × (write_map front pairs ≡ ok out)
    × (read_map (record { input = out ++ 5 ∷ []; pos = length front })
        ≡ ok (sort key_leb pairs, record { input = out ++ 5 ∷ []; pos = length out }))
read_map-write_map_example =
    read_map-write_map pairs front (5 ∷ [])
      ((omega arith, omega arith, omega arith), ((omega arith, omega arith, omega arith), tt))
      pairs-Fresh

abbrev wide_key : Bytes
wide_key = 0xfd ∷ 0x2c ∷ 0x01 ∷ 7 ∷ []

wide_key-split : split_key wide_key ≡ ok (300, 7 ∷ [])
unfolding split_key split_wide unpack from_le
wide_key-split = refl

split_key_inv_example : (300 < 2 ^ 64) × (wide_key ≡ compact 300 ++ 7 ∷ [])
split_key_inv_example =
    split_key_inv wide_key 300 (7 ∷ [])
      (omega arith, (omega arith, (omega arith, (omega arith, tt)))) wide_key-split

abbrev kv_a : UnknownKv
kv_a = record { key = 0xfc ∷ []; value = 1 ∷ [] }

abbrev kv_b : UnknownKv
kv_b = record { key = 0xfd ∷ []; value = 2 ∷ [] }

merged : merge_unknown (kv_a ∷ []) (kv_a ∷ kv_b ∷ []) ≡ ok (kv_a ∷ kv_b ∷ [])
unfolding merge_unknown merge_keyed find same_value bytes_eq
merged = refl

kv_a-distinct : find (λ (u : UnknownKv). u.key) (0xfc ∷ []) [] ≡ none
unfolding find
kv_a-distinct = refl

merge_unknown_lem_example :
    ((k : Bytes)
      → find (λ (u : UnknownKv). u.key) k (kv_a ∷ kv_b ∷ [])
        ≡ or_else
            (find (λ (u : UnknownKv). u.key) k (kv_a ∷ []))
            (find (λ (u : UnknownKv). u.key) k (kv_a ∷ kv_b ∷ [])))
    × ((c' : List UnknownKv) × (merge_unknown (kv_a ∷ kv_b ∷ []) (kv_a ∷ []) ≡ ok c')
        × ((k : Bytes)
            → find (λ (u : UnknownKv). u.key) k c'
              ≡ find (λ (u : UnknownKv). u.key) k (kv_a ∷ kv_b ∷ [])))
merge_unknown_lem_example =
    merge_unknown_lem (kv_a ∷ []) (kv_a ∷ kv_b ∷ []) (kv_a ∷ kv_b ∷ []) (kv_a-distinct, tt) merged

-- An unsigned transaction of one input and one output, and the PSBT that holds it.
abbrev unsigned_tx : PsbtTransaction
unsigned_tx = record {
  version = pos 2;
  vin = record { txhash = replicate 32 0xab; n = 1; script = []; sequence = 0; witness = [] } ∷ [];
  vout = record { amount = 5; script = 0x51 ∷ [] } ∷ [];
  locktime = 0;
}

abbrev unsigned_bytes : Bytes
unsigned_bytes =
    2
    ∷ 0
    ∷ 0
    ∷ 0
    ∷ 1
    ∷ (replicate 32 0xab
        ++ 1 ∷ 0 ∷ 0 ∷ 0 ∷ 0 ∷ 0 ∷ 0 ∷ 0 ∷ 0 ∷ 1 ∷ 5 ∷ 0 ∷ 0 ∷ 0 ∷ 0 ∷ 0 ∷ 0 ∷ 0 ∷ 1 ∷ 0x51 ∷ 0 ∷ 0
          ∷ 0 ∷ 0 ∷ [])

abbrev psbt_bytes : Bytes
psbt_bytes = magic ++ 1 ∷ 0 ∷ length unsigned_bytes ∷ (unsigned_bytes ++ 0 ∷ 0 ∷ 0 ∷ [])

abbrev parsed : Psbt
parsed = record {
  version = 0;
  unsigned_tx = unsigned_tx;
  inputs = empty_input ∷ [];
  outputs = record { unknown = [] } ∷ [];
  unknown_global = [];
}

psbt_bytes-parsed : parse_psbt psbt_bytes ≡ ok parsed
unfolding parse_psbt parse_maps read_maps the_unsigned_tx global_pairs_loop global_field
    unsigned_field any_script parse_input_map input_pairs_loop parse_output_map output_pairs_loop
    no_keydata except_psbt parse_tx peek_is bounded_many read_many read_out read_in nonempty
    read_map read_map_loop contains split_key split_wide read_bytes read_compact_size read_le
    read_array take peek at_end remaining reader unpack unpack_signed from_signed from_le bytes_eq
psbt_bytes-parsed = refl

parse_psbt-IsAccepted_example :
    (length psbt_bytes ≤ psbt_max_size) × (Lists.take 5 psbt_bytes ≡ magic) × IsAccepted parsed
parse_psbt-IsAccepted_example = parse_psbt-IsAccepted psbt_bytes parsed psbt_bytes-parsed
