-- ===== src/Psbt/Model/Parse/Ladder.antt =====
-- The checks of `parse_psbt`, from the global map to the maps of the inputs and outputs.
use yubtc_python.Prelude.{
  ℕ, zero, suc, ◌≤◌, ◌<◌, ◌≡◌, refl, List, [], ◌∷◌, length, take, drop, All, ◌||◌, not, true, false,
  Bool-cases, inl, inr, Option, none, some, Result, ok, >>=-eq-ok, invalid_unsigned_tx, arith,
}
use yubtc_python.Prelude.Bytes.{Bytes, bytes_eq→eq}
use yubtc_python.Psbt.Reader.{Reader, reader, at_end}
use yubtc_python.Psbt.KeyValue.{Pair, split_key, read_map}
use yubtc_python.Psbt.Tx.{PsbtTxIn, PsbtTransaction, nonempty, parse_tx}
use yubtc_python.Psbt.Model.{Psbt}
use yubtc_python.Psbt.Model.Parse.{
  Global, any_script, except_psbt, unsigned_field, version_field, global_field, global_pairs_loop,
  read_maps, magic, psbt_max_size, the_unsigned_tx, parse_maps, parse_psbt, parse_input_map,
  parse_output_map,
}

-- An unsigned transaction has an output and no signature script.
pub record IsUnsigned (tx : PsbtTransaction) : Type 0 where
  pub outputs : 0 < length tx.vout
  pub scripts : All (λ i. i.script ≡ []) tx.vin

abbrev AllUnsigned : Option PsbtTransaction → Type 0
AllUnsigned none = Unit
AllUnsigned (some tx) = IsUnsigned tx

record IsGlobal (g : Global) : Type 0 where
  version : g.version ≡ 0
  unsigned : AllUnsigned g.unsigned_tx

any_script_lem : (is : List PsbtTxIn) → any_script is ≡ false → All (λ i. i.script ≡ []) is
unfolding any_script nonempty
any_script_lem [] h = tt
any_script_lem (i ∷ is) h = (ground arith, any_script_lem is (ground arith))

nonempty_pos {ℓ} : {A : Type ℓ} (xs : List A) → nonempty xs ≡ true → 0 < length xs
unfolding nonempty
nonempty_pos [] h = cc
nonempty_pos (x ∷ xs) h = omega arith

unsigned_lem :
    (tx : PsbtTransaction)
    → not (not (nonempty tx.vout) || any_script tx.vin) ≡ true
    → IsUnsigned tx
unsigned_lem tx h = record {
  outputs = nonempty_pos tx.vout (ground arith);
  scripts = any_script_lem tx.vin (ground arith);
}

unsigned_field-IsGlobal :
    (g g' : Global) (value : Bytes) → IsGlobal g → unsigned_field g value ≡ ok g' → IsGlobal g'
unfolding unsigned_field
unsigned_field-IsGlobal g g' value h e =
    let (tx, parsed, rest) =
      >>=-eq-ok (except_psbt (parse_tx value false) invalid_unsigned_tx) _ e in
    ground (arith, unsigned_lem tx)

version_field-IsGlobal :
    (g g' : Global) (value : Bytes) → IsGlobal g → version_field g value ≡ ok g' → IsGlobal g'
unfolding version_field
version_field-IsGlobal g g' value h e = ground arith

global_field-IsGlobal :
    (g g' : Global) (pair : Pair) (ty : ℕ) (keydata : Bytes)
    → IsGlobal g
    → global_field g pair ty keydata ≡ ok g'
    → IsGlobal g'
unfolding global_field
global_field-IsGlobal g g' (key, value) ty keydata h e =
    ground (arith, unsigned_field-IsGlobal g g' value h, version_field-IsGlobal g g' value h)

global_pairs_loop-IsGlobal :
    (pairs : List Pair) (g g' : Global)
    → IsGlobal g
    → global_pairs_loop g pairs ≡ ok g'
    → IsGlobal g'
unfolding global_pairs_loop
global_pairs_loop-IsGlobal [] g g' h e = ground arith
global_pairs_loop-IsGlobal ((key, value) ∷ pairs) g g' h e =
    let (split, _, rest) = >>=-eq-ok (split_key key) _ e in
    let (g1, field, loop) = >>=-eq-ok (global_field g (key, value) split.0 split.1) _ rest in
    global_pairs_loop-IsGlobal pairs g1 g'
      (global_field-IsGlobal g g1 (key, value) split.0 split.1 h field) loop

read_maps-length {ℓ} :
    {A : Type ℓ} (interpret : List Pair → Result A) (n : ℕ) (r r' : Reader) (xs : List A)
    → read_maps interpret n r ≡ ok (xs, r')
    → length xs ≡ n
unfolding read_maps
read_maps-length interpret zero r r' xs e = ground arith
read_maps-length interpret (suc n) r r' xs e = elim (Bool-cases (at_end r)) [
  | inl done ↦ absurd (cc (rw done at e))
  | inr more ↦
      let (p, _, e1) = >>=-eq-ok (read_map r) _ (rw more at e) in
      let (x, _, e2) = >>=-eq-ok (interpret p.0) _ e1 in
      let (rest, e3, e4) = >>=-eq-ok (read_maps interpret n p.1) _ e2 in
      ground (arith, read_maps-length interpret n p.1 rest.1 rest.0 e3)
]

-- What the ladder of checks leaves.
pub record IsAccepted (p : Psbt) : Type 0 where
  pub version : p.version ≡ 0
  pub unsigned : IsUnsigned p.unsigned_tx
  pub inputs : length p.inputs ≡ length p.unsigned_tx.vin
  pub outputs : length p.outputs ≡ length p.unsigned_tx.vout

the_unsigned_tx_lem :
    (o : Option PsbtTransaction) (tx : PsbtTransaction)
    → AllUnsigned o
    → the_unsigned_tx o ≡ ok tx
    → IsUnsigned tx
unfolding the_unsigned_tx
the_unsigned_tx_lem none tx h e = cc
the_unsigned_tx_lem (some t) tx h e = ground arith

parse_maps-IsAccepted :
    (data' : Bytes) (r0 : Reader) (p : Psbt) → parse_maps data' r0 ≡ ok p → IsAccepted p
unfolding parse_maps
parse_maps-IsAccepted data' r0 p e =
    let (m, _, e1) = >>=-eq-ok (read_map r0) _ e in
    let start : Global = record { version = 0; unsigned_tx = none; unknown_global = [] } in
    let (g, loop, e2) = >>=-eq-ok (global_pairs_loop start m.0) _ e1 in
    let (tx, found, e3) = >>=-eq-ok (the_unsigned_tx g.unsigned_tx) _ e2 in
    let (is, ins, e4) = >>=-eq-ok (read_maps parse_input_map (length tx.vin) m.1) _ e3 in
    let (os, outs, e5) = >>=-eq-ok (read_maps parse_output_map (length tx.vout) is.1) _ e4 in
    let kept : IsGlobal g =
      global_pairs_loop-IsGlobal m.0 start g (record { version = refl; unsigned = tt }) loop in
    let unsigned : IsUnsigned tx = the_unsigned_tx_lem g.unsigned_tx tx kept.unsigned found in
    ground (
      arith,
      kept.version,
      unsigned,
      read_maps-length parse_input_map (length tx.vin) m.1 is.1 is.0 ins,
      read_maps-length parse_output_map (length tx.vout) is.1 os.1 os.0 outs,
    )

-- Every PSBT that `parse_psbt` accepts comes from at most 4 MiB that start with the magic bytes; its
-- version is 0, its transaction has an output and no signature script, and it has one input map for
-- each input and one output map for each output.
pub parse_psbt-IsAccepted :
    (data' : Bytes) (p : Psbt)
    → parse_psbt data' ≡ ok p
    → (length data' ≤ psbt_max_size) × (take 5 data' ≡ magic) × IsAccepted p
unfolding parse_psbt
parse_psbt-IsAccepted data' p e =
    ground (
      arith,
      bytes_eq→eq (take 5 data') magic,
      parse_maps-IsAccepted data' (reader (drop 5 data')) p,
    )
