-- ===== src/Psbt/KeyValue/RoundTrip.antt =====
-- `_read_map` at what `_write_map` wrote.
use yubtc_python.Prelude.{
  ℕ, zero, suc, ◌^◌, ◌≤◌, ◌<◌, ◌≡◌, refl, ap, ◌∙◌, List, [], ◌∷◌, ◌++◌, append-nil, append_assoc,
  length, length-append, All, lt→leb, ==_false, false, ok, arith,
}
use yubtc_python.Prelude.Bytes.{Bytes}
use yubtc_python.Prelude.Sort.{sort, All-sort}
use yubtc_python.Transaction.CompactSize.Laws.{
  compact, length-compact_pos, write_compact_size-compact,
}
use yubtc_python.Psbt.Reader.Laws.{
  at, small_prefix, regroup, regroup_front, at_end-at, remaining-at, take-at, read_compact_size-at,
}
use yubtc_python.Psbt.KeyValue.{
  Pair, contains, read_map_loop, read_map, key_leb, write_pairs, write_map,
}

-- One entry on the wire, and all of them.
abbrev pub entry : Pair → Bytes
entry (k, v) = compact (length k) ++ (k ++ (compact (length v) ++ v))

abbrev pub entries : List Pair → Bytes
entries [] = []
entries (p ∷ ps) = entry p ++ entries ps

abbrev pub IsPair : Pair → Type 0
IsPair (k, v) = (0 < length k) × (length k < 2 ^ 64) × (length v < 2 ^ 64)

-- No key occurs twice, or among `seen`.
abbrev pub Fresh : List Bytes → List Pair → Type 0
Fresh seen [] = Unit
Fresh seen ((k, v) ∷ ps) = (contains k seen ≡ false) × Fresh (k ∷ seen) ps

write_pairs-entries :
    (out : Bytes) (ps : List Pair) → All IsPair ps → write_pairs out ps ≡ ok (out ++ entries ps)
unfolding write_pairs
write_pairs-entries out [] h = rw append-nil
write_pairs-entries out ((k, v) ∷ ps) h =
    let out1 : Bytes = out ++ compact (length k) in
    let out2 : Bytes = (out1 ++ k) ++ compact (length v) in
    rw
      (
        write_compact_size-compact out (length k) h.0.1,
        write_compact_size-compact (out1 ++ k) (length v) h.0.2,
      )
      (write_pairs-entries (out2 ++ v) ps h.1 ∙ simp append_assoc)

-- What `_write_map` writes: the entries in the order of their keys, then the empty key.
pub write_map-entries :
    (out : Bytes) (ps : List Pair)
    → All IsPair ps
    → write_map out ps ≡ ok (out ++ (entries (sort key_leb ps) ++ 0 ∷ []))
unfolding write_map
write_map-entries out ps h =
    rw (write_pairs-entries out (sort key_leb ps) (All-sort key_leb IsPair ps h))
      (simp append_assoc)

read_map_end :
    (fuel : ℕ) (front rest : Bytes) (out : List Pair) (seen : List Bytes)
    → read_map_loop (suc fuel) (at front (0 ∷ rest)) out seen ≡ ok (out, at (front ++ 0 ∷ []) rest)
unfolding read_map_loop
read_map_end fuel front rest out seen = rw (
  at_end-at front (0 ∷ rest),
  lt→leb (length (0 ∷ rest)) 0 (omega arith),
  small_prefix 0 front rest (omega arith),
)

flat_entry :
    (fuel : ℕ) (front rest k v : Bytes) (out : List Pair) (seen : List Bytes)
    → IsPair (k, v)
    → contains k seen ≡ false
    → read_map_loop
        (suc fuel)
        (at front (compact (length k) ++ (k ++ (compact (length v) ++ (v ++ rest)))))
        out
        seen
      ≡ read_map_loop fuel
          (at ((((front ++ compact (length k)) ++ k) ++ compact (length v)) ++ v) rest)
          (out ++ (k, v) ∷ [])
          (k ∷ seen)
unfolding read_map_loop
flat_entry fuel front rest k v out seen h fresh =
    let front1 : Bytes = front ++ compact (length k) in
    let rest2 : Bytes = compact (length v) ++ (v ++ rest) in
    rw (
      at_end-at front (compact (length k) ++ (k ++ rest2)),
      lt→leb (length (compact (length k) ++ (k ++ rest2))) 0 (
          omega (
            arith,
            length-append {0} (compact (length k)) (k ++ rest2),
            length-compact_pos (length k),
          )),
      read_compact_size-at (length k) front (k ++ rest2) h.1,
      ==_false (length k) 0 (omega arith),
      take-at front1 k rest2 (length k) refl,
      fresh,
      read_compact_size-at (length v) (front1 ++ k) (v ++ rest) h.2,
      take-at ((front1 ++ k) ++ compact (length v)) v rest (length v) refl,
    )

read_map_entry :
    (fuel : ℕ) (front rest k v : Bytes) (out : List Pair) (seen : List Bytes)
    → IsPair (k, v)
    → contains k seen ≡ false
    → read_map_loop (suc fuel) (at front (entry (k, v) ++ rest)) out seen
      ≡ read_map_loop fuel (at (front ++ entry (k, v)) rest) (out ++ (k, v) ∷ []) (k ∷ seen)
read_map_entry fuel front rest k v out seen h fresh =
    rw
      (
        regroup (compact (length k)) k (compact (length v)) v rest,
        regroup_front front (compact (length k)) k (compact (length v)) v,
      )
      (flat_entry fuel front rest k v out seen h fresh)

read_map_loop-entries :
    (ps : List Pair) (fuel : ℕ) (front rest : Bytes) (out : List Pair) (seen : List Bytes)
    → All IsPair ps
    → Fresh seen ps
    → length ps < fuel
    → read_map_loop fuel (at front (entries ps ++ 0 ∷ rest)) out seen
      ≡ ok (out ++ ps, at (front ++ (entries ps ++ 0 ∷ [])) rest)
read_map_loop-entries ps zero front rest out seen h fresh hf = absurd (omega arith)
read_map_loop-entries [] (suc fuel) front rest out seen h fresh hf =
    rw append-nil (read_map_end fuel front rest out seen)
read_map_loop-entries ((k, v) ∷ ps) (suc fuel) front rest out seen h fresh hf =
    rw (append_assoc (entry (k, v)) (entries ps) (0 ∷ rest)) (
      read_map_entry fuel front (entries ps ++ 0 ∷ rest) k v out seen h.0 fresh.0
      ∙ read_map_loop-entries ps fuel (front ++ entry (k, v)) rest (out ++ (k, v) ∷ []) (k ∷ seen)
          h.1 fresh.1 (omega arith)
      ∙ simp append_assoc)

length-entries : (ps : List Pair) → length ps ≤ length (entries ps)
length-entries [] = omega arith
length-entries ((k, v) ∷ ps) = omega (
  arith,
  length-append {0} (entry (k, v)) (entries ps),
  length-entries ps,
  length-append {0} (compact (length k)) (k ++ (compact (length v) ++ v)),
  length-compact_pos (length k),
)

-- Entries with distinct keys are read back as they stand, and the reader stands behind them.
pub read_map-entries :
    (ps : List Pair) (front rest : Bytes)
    → All IsPair ps
    → Fresh [] ps
    → read_map (at front (entries ps ++ 0 ∷ rest))
      ≡ ok (ps, at (front ++ (entries ps ++ 0 ∷ [])) rest)
unfolding read_map
read_map-entries ps front rest h fresh = read_map_loop-entries ps _ front rest [] [] h fresh (
    omega (
      arith,
      remaining-at front (entries ps ++ 0 ∷ rest),
      length-append {0} (entries ps) (0 ∷ rest),
      length-entries ps,
    ))

-- `_read_map` after `_write_map` returns the entries in the order of their keys.
pub read_map-write_map :
    (ps : List Pair) (front rest : Bytes)
    → All IsPair ps
    → Fresh [] (sort key_leb ps)
    → (out : Bytes) × (write_map front ps ≡ ok out)
      × (read_map (record { input = out ++ rest; pos = length front })
          ≡ ok (sort key_leb ps, record { input = out ++ rest; pos = length out }))
read_map-write_map ps front rest h fresh =
    let body : Bytes = entries (sort key_leb ps) in
    let seam : (front ++ (body ++ 0 ∷ [])) ++ rest ≡ front ++ (body ++ 0 ∷ rest) =
      simp append_assoc in
    (
      front ++ (body ++ 0 ∷ []),
      write_map-entries front ps h,
      ap (λ x. read_map (record { input = x; pos = length front })) seam
          ∙ read_map-entries (sort key_leb ps) front rest (All-sort key_leb IsPair ps h) fresh,
    )
