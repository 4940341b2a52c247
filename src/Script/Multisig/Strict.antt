-- ===== src/Script/Multisig/Strict.antt =====
-- What `extract_multisig_quorum` accepts.
use yubtc_python.Prelude.{
  ℕ, zero, suc, ◌+◌, ◌-◌, ◌*◌, ◌≤◌, ◌≡◌, inl, inr, refl, sym, ap, ap₂, ◌∙◌, List, [], ◌∷◌, ◌++◌,
  append_assoc, subst, ok-injective, length, length-drop, length-take, ==_iff, guard-eq-ok, take,
  drop, drop-drop, take-append-drop, All, ltb, leb, ◌==◌, ◌&&◌, not, true, false, Bool-cases,
  Result, ok, >>=-eq-ok, guard, invalid_multisig_redeem, arith, not-true, nil_of_length,
}
use yubtc_python.Prelude.Bytes.{Bytes, index, slice, drop_of_index}
use yubtc_python.Script.Multisig.{
  key_pushes, is_canonical_compressed_pubkey, is_quorum_op, read_keys, has_duplicates,
  extract_multisig_quorum,
}
use yubtc_python.Script.Multisig.Extract.{IsKey, IsQuorum, redeem, slice-drop}

IsKey_lem :
    (k : Bytes) (b : ℕ)
    → index k 0 ≡ ok b
    → is_canonical_compressed_pubkey b ≡ true
    → length k ≡ 33
    → IsKey k
IsKey_lem [] b e c h = absurd (omega arith)
IsKey_lem (x ∷ k) b e c h = (ground arith, omega arith)

-- The 34 bytes from `a` on, if the first of them is a push of 33 bytes.
slot :
    (script : Bytes) (a : ℕ)
    → a + 34 ≤ length script
    → index script a ≡ ok 0x21
    → (length (slice script (a + 1) (a + 34)) ≡ 33)
      × (drop a script ≡ 0x21 ∷ (slice script (a + 1) (a + 34) ++ drop (a + 34) script))
slot script a h e =
    let behind : drop 1 (drop a script) ≡ drop (a + 1) script = drop-drop a 1 script in
    let key : slice script (a + 1) (a + 34) ≡ take 33 (drop (a + 1) script) =
      slice-drop script a ∙ ap (λ (xs : Bytes). take 33 xs) behind in
    let end : a + 1 + 33 ≡ a + 34 = omega arith in
    let rest : drop 33 (drop (a + 1) script) ≡ drop (a + 34) script =
      drop-drop (a + 1) 33 script ∙ ap (λ n. drop n script) end in
    (
      rw key
          (omega (arith, length-take {0} 33 (drop (a + 1) script), length-drop {0} (a + 1) script)),
      drop_of_index script a 0x21 e
          ∙ ap (◌∷◌ 0x21)
              (sym (take-append-drop 33 (drop (a + 1) script)) ∙ ap₂ ◌++◌ (sym key) rest),
    )

read_keys_inv :
    (count i : ℕ) (script : Bytes) (ks : List Bytes)
    → 1 + (i + count) * 34 ≤ length script
    → read_keys count i script ≡ ok ks
    → (length ks ≡ count)
      × All IsKey ks
      × (drop (1 + i * 34) script ≡ key_pushes ks ++ drop (1 + (i + count) * 34) script)
unfolding read_keys key_pushes
read_keys_inv zero i script [] h e = let same : i + 0 ≡ i = omega arith in (refl, tt, rw same)
read_keys_inv zero i script (k ∷ ks) h e = cc
read_keys_inv (suc count) i script ks h e =
    let start : ℕ = 1 + i * 34 in
    let key : Bytes = slice script (start + 1) (start + 34) in
    let (push, at_start, e1) = >>=-eq-ok (index script start) _ e in
    let (_, pushed, e2) = >>=-eq-ok (guard (push == 0x21) invalid_multisig_redeem) _ e1 in
    let (first, at_first, e3) = >>=-eq-ok (index key 0) _ e2 in
    let (_, canonical, e4) =
      >>=-eq-ok (guard (is_canonical_compressed_pubkey first) invalid_multisig_redeem) _ e3 in
    let (rest, loop, e5) = >>=-eq-ok (read_keys count (i + 1) script) _ e4 in
    let is_push : push ≡ 0x21 = (==_iff push 0x21).0 (guard-eq-ok _ _ pushed) in
    let (size, piece) = slot script start (omega arith) (at_start ∙ ap ok is_push) in
    let is_key : IsKey key = IsKey_lem key first at_first (guard-eq-ok _ _ canonical) size in
    let (count', keys', tail) = read_keys_inv count (i + 1) script rest (omega arith) loop in
    inversion start key rest e5 is_key piece count' keys' tail
  where
    inversion :
        (start : ℕ) (key : Bytes) (rest : List Bytes)
        → ◌≡◌ {A = Result (List Bytes)} (ok (key ∷ rest)) (ok ks)
        → IsKey key
        → drop (1 + i * 34) script ≡ 0x21 ∷ (key ++ drop (1 + i * 34 + 34) script)
        → length rest ≡ count
        → All IsKey rest
        → drop (1 + (i + 1) * 34) script ≡ key_pushes rest ++ drop (1 + (i + 1 + count) * 34) script
        → (length ks ≡ suc count)
          × All IsKey ks
          × (drop (1 + i * 34) script ≡ key_pushes ks ++ drop (1 + (i + suc count) * 34) script)
    inversion start key rest e k piece c cs tail =
        let next : 1 + (i + 1) * 34 ≡ 1 + i * 34 + 34 = omega arith in
        let end : 1 + (i + 1 + count) * 34 ≡ 1 + (i + suc count) * 34 = omega arith in
        let tail' : drop (1 + i * 34 + 34) script
            ≡ key_pushes rest ++ drop (1 + (i + suc count) * 34) script =
          ap (λ n. drop n script) (sym next)
          ∙ tail
          ∙ ap (λ n. key_pushes rest ++ drop n script) end in
        subst
          (λ l.
            (length l ≡ suc count)
            × All IsKey l
            × (drop (1 + i * 34) script ≡ key_pushes l ++ drop (1 + (i + suc count) * 34) script))
          (ok-injective e)
          (
            ap suc c,
            (k, cs),
            piece
                ∙ ap (λ t. 0x21 ∷ (key ++ t)) tail'
                ∙ ap (◌∷◌ 0x21) (
                    sym (
                      append_assoc key (key_pushes rest) (drop (1 + (i + suc count) * 34) script))),
          )

-- What the checks on the length and on the three opcodes leave of the script.
ops-IsQuorum :
    (m_op n_op : ℕ)
    → (is_quorum_op m_op && is_quorum_op n_op) ≡ true
    → leb (m_op - 0x50) (n_op - 0x50) ≡ true
    → IsQuorum (m_op - 0x50) (n_op - 0x50)
      × (m_op ≡ 0x50 + (m_op - 0x50))
      × (n_op ≡ 0x50 + (n_op - 0x50))
unfolding is_quorum_op
ops-IsQuorum m_op n_op h k = ground arith

Inverted : Bytes → ℕ → List Bytes → Type 0
Inverted script m ks =
    (script ≡ redeem m ks) × All IsKey ks × IsQuorum m (length ks) × (has_duplicates ks ≡ false)

not_short : (n : ℕ) → ltb n 37 ≡ false → 37 ≤ n
not_short n h = ground arith

-- What the checks have read of the script is all of it.
assemble :
    (script : Bytes) (m_op n_op last : ℕ) (ks : List Bytes)
    → 37 ≤ length script
    → index script 0 ≡ ok m_op
    → index script (length script - 2) ≡ ok n_op
    → index script (length script - 1) ≡ ok last
    → (last == 0xae) ≡ true
    → (is_quorum_op m_op && is_quorum_op n_op) ≡ true
    → leb (m_op - 0x50) (n_op - 0x50) ≡ true
    → (length script - 3 == (n_op - 0x50) * 34) ≡ true
    → read_keys (n_op - 0x50) 0 script ≡ ok ks
    → not (has_duplicates ks) ≡ true
    → Inverted script (m_op - 0x50) ks
unfolding Inverted
assemble script m_op n_op last ks long at_m at_n at_last is_last ops below sized loop distinct =
    let n : ℕ = n_op - 0x50 in
    let size : length script - 3 ≡ n * 34 = (==_iff (length script - 3) (n * 34)).0 sized in
    let (quorum, is_m, is_n) = ops-IsQuorum m_op n_op ops below in
    let (count, keys, body) = read_keys_inv n 0 script ks (omega arith) loop in
    let behind : 1 + (0 + n) * 34 ≡ length script - 2 = omega arith in
    let next : length script - 2 + 1 ≡ length script - 1 = omega arith in
    let op_n : drop (length script - 2) script ≡ n_op ∷ drop (length script - 2 + 1) script =
      drop_of_index script (length script - 2) n_op at_n in
    let op_last : drop (length script - 1) script ≡ last ∷ drop (length script - 1 + 1) script =
      drop_of_index script (length script - 1) last at_last in
    let end : drop (length script - 1 + 1) script ≡ [] =
      nil_of_length _ (omega (arith, length-drop {0} (length script - 1 + 1) script)) in
    let is_ae : last ≡ 0xae = (==_iff last 0xae).0 is_last in
    let two : drop (length script - 2) script ≡ n_op ∷ last ∷ [] =
      op_n ∙ ap (λ k. n_op ∷ drop k script) next ∙ ap (◌∷◌ n_op) (op_last ∙ ap (◌∷◌ last) end) in
    let whole : script ≡ m_op ∷ (key_pushes ks ++ n_op ∷ last ∷ []) =
      drop_of_index script 0 m_op at_m
      ∙ ap (◌∷◌ m_op) (
          body ∙ ap (λ k. key_pushes ks ++ drop k script) behind ∙ ap (◌++◌ (key_pushes ks)) two) in
    let is_n' : n_op ≡ 0x50 + length ks = is_n ∙ ap (◌+◌ 0x50) (sym count) in
    (
      whole ∙ ap₂ (λ a b. a ∷ (key_pushes ks ++ b)) is_m (ap₂ (λ a b. a ∷ b ∷ []) is_n' is_ae),
      keys,
      subst (λ k. IsQuorum (m_op - 0x50) k) (sym count) quorum,
      not-true _ distinct,
    )

-- A script that `extract_multisig_quorum` accepts is the canonical redeem script of the threshold and
-- the keys that it returns; the keys are compressed, no two are equal, and the quorum is within bounds.
pub extract_inv :
    (script : Bytes) (m : ℕ) (ks : List Bytes)
    → extract_multisig_quorum script ≡ ok (m, ks)
    → (script ≡ redeem m ks) × All IsKey ks × IsQuorum m (length ks) × (has_duplicates ks ≡ false)
unfolding extract_multisig_quorum Inverted
extract_inv script m ks e = elim (Bool-cases (ltb (length script) (3 + 34))) [
  | inl short ↦ absurd (cc (rw short at e))
  | inr long ↦
      let (m_op, at_m, e1) = >>=-eq-ok (index script 0) _ (rw long at e) in
      let (n_op, at_n, e2) = >>=-eq-ok (index script (length script - 2)) _ e1 in
      let (last, at_last, e3) = >>=-eq-ok (index script (length script - 1)) _ e2 in
      let (_, multisig, e4) = >>=-eq-ok (guard (last == 0xae) invalid_multisig_redeem) _ e3 in
      let (_, ops, e5) =
        >>=-eq-ok (guard (is_quorum_op m_op && is_quorum_op n_op) invalid_multisig_redeem) _ e4 in
      let (_, below, e6) =
        >>=-eq-ok (guard (leb (m_op - 0x50) (n_op - 0x50)) invalid_multisig_redeem) _ e5 in
      let (_, sized, e7) =
        >>=-eq-ok (guard (length script - 3 == (n_op - 0x50) * 34) invalid_multisig_redeem) _ e6 in
      let (keys, loop, e8) = >>=-eq-ok (read_keys (n_op - 0x50) 0 script) _ e7 in
      let (_, distinct, e9) =
        >>=-eq-ok (guard (not (has_duplicates keys)) invalid_multisig_redeem) _ e8 in
      let done : Inverted script (m_op - 0x50) keys =
        assemble script m_op n_op last keys (not_short (length script) long) at_m at_n at_last
          (guard-eq-ok _ _ multisig) (guard-eq-ok _ _ ops) (guard-eq-ok _ _ below)
          (guard-eq-ok _ _ sized) loop (guard-eq-ok _ _ distinct) in
      subst (λ (r : ℕ × List Bytes). Inverted script r.0 r.1) (ok-injective e9) done
]
