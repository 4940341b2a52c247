-- ===== src/Psbt/Merge/Keyed.antt =====
-- What the merge of two keyed lists holds, in either order of the two.
use yubtc_python.Prelude.{
  ◌≡◌, refl, sym, ap, ◌∙◌, List, [], ◌∷◌, ◌++◌, Bool, true, false, Bool-cases, Option-cases, inl,
  inr, Option, none, some, ok, err, psbt, conflicting_field, arith,
}
use yubtc_python.Prelude.Bytes.{Bytes, bytes_eq, bytes_eq→eq, bytes_eq_refl}
use yubtc_python.Psbt.Merge.{find, merge_keyed}

abbrev pub or_else {ℓ} : {A : Type ℓ} → Option A → Option A → Option A
or_else (some a) b = some a
or_else none b = b

module _ {ℓ} {A : Type ℓ} (key : A → Bytes) where
  find-append :
      (k : Bytes) (xs ys : List A) → find key k (xs ++ ys) ≡ or_else (find key k xs) (find key k ys)
  unfolding find
  find-append k [] ys = refl
  find-append k (x ∷ xs) ys = elim (Bool-cases (bytes_eq (key x) k)) [
    | inl here ↦ rw here
    | inr there ↦ rw there (find-append k xs ys)
  ]

  same_key : (j k : Bytes) (xs : List A) → bytes_eq j k ≡ true → find key j xs ≡ find key k xs
  same_key j k xs h = ap (λ i. find key i xs) (bytes_eq→eq j k h)

  pub find_key : (k : Bytes) (y : A) (xs : List A) → find key k xs ≡ some y → key y ≡ k
  unfolding find
  find_key k y [] e = cc
  find_key k y (x ∷ xs) e = ground (arith, bytes_eq→eq (key x) k, find_key k y xs)

  -- No key occurs twice.
  abbrev pub DistinctKeys : List A → Type ℓ
  DistinctKeys [] = Unit
  DistinctKeys (x ∷ xs) = (find key (key x) xs ≡ none) × DistinctKeys xs

module _ {ℓ} {A : Type ℓ} (key : A → Bytes) (same : A → A → Bool) where
  merge_nil : (a : List A) → merge_keyed key same a [] ≡ ok a
  unfolding merge_keyed
  merge_nil a = refl

  merge_new :
      (x : A) (out b : List A)
      → find key (key x) out ≡ none
      → merge_keyed key same out (x ∷ b) ≡ merge_keyed key same (out ++ x ∷ []) b
  unfolding merge_keyed
  merge_new x out b e = rw (e, merge_keyed)

  merge_known :
      (x y : A) (out b : List A)
      → find key (key x) out ≡ some y
      → same y x ≡ true
      → merge_keyed key same out (x ∷ b) ≡ merge_keyed key same out b
  unfolding merge_keyed
  merge_known x y out b e s = rw (e, s, merge_keyed)

  merge_conflict :
      (x y : A) (out b : List A)
      → find key (key x) out ≡ some y
      → same y x ≡ false
      → merge_keyed key same out (x ∷ b) ≡ err (psbt conflicting_field)
  unfolding merge_keyed
  merge_conflict x y out b e s = rw (e, s, merge_keyed)

  -- The merge holds the items of the first list, and those of the second with other keys.
  pub merge_keyed-find :
      (b a c : List A) (k : Bytes)
      → merge_keyed key same a b ≡ ok c
      → find key k c ≡ or_else (find key k a) (find key k b)
  unfolding find
  merge_keyed-find [] a c k e = ground (arith, merge_nil a)
  merge_keyed-find (x ∷ b) a c k e = elim (Option-cases (find key (key x) a)) [
    | inl new ↦ ground (
      arith,
      merge_new x a b new,
      merge_keyed-find b (a ++ x ∷ []) c k,
      find-append key k a (x ∷ []),
    )
    | inr (y, known) ↦ elim (Bool-cases (same y x)) [
      | inl s ↦
          ground
            (arith, merge_known x y a b known s, merge_keyed-find b a c k, same_key key (key x) k a)
      | inr d ↦ absurd (cc (merge_conflict x y a b known d))
    ]
  ]

  -- The merge refuses lists that disagree on a key.
  pub merge_keyed-agree :
      (law : (x y : A) → key x ≡ key y → same x y ≡ true → x ≡ y) (b a c : List A) (k : Bytes)
      (u v : A)
      → merge_keyed key same a b ≡ ok c
      → find key k a ≡ some u
      → find key k b ≡ some v
      → u ≡ v
  unfolding find
  merge_keyed-agree law [] a c k u v e hu hv = cc
  merge_keyed-agree law (x ∷ b) a c k u v e hu hv = elim (Option-cases (find key (key x) a)) [
    | inl new ↦ ground (
      arith,
      merge_new x a b new,
      merge_keyed-agree law b (a ++ x ∷ []) c k u v,
      find-append key k a (x ∷ []),
      same_key key (key x) k a,
    )
    | inr (y, known) ↦ elim (Bool-cases (same y x)) [
      | inl s ↦ ground (
        arith,
        merge_known x y a b known s,
        merge_keyed-agree law b a c k u v,
        same_key key (key x) k a,
        law y x (find_key key (key x) y a known) s,
      )
      | inr d ↦ absurd (cc (merge_conflict x y a b known d))
    ]
  ]

  -- Lists that agree on their common keys are merged, where the second has no key twice.
  pub merge_keyed-total :
      (law : (x : A) → same x x ≡ true) (b a : List A)
      → DistinctKeys key b
      → ((k : Bytes) (u v : A) → find key k a ≡ some u → find key k b ≡ some v → u ≡ v)
      → (c : List A) × (merge_keyed key same a b ≡ ok c)
  unfolding find
  merge_keyed-total law [] a d agree = (a, merge_nil a)
  merge_keyed-total law (x ∷ b) a d agree = elim (Option-cases (find key (key x) a)) [
    | inl new ↦
        let (c, e) = merge_keyed-total law b (a ++ x ∷ []) d.1 (λ k u v hu hv.
          ground
            (arith, d.0, agree k u v, find-append key k a (x ∷ []), same_key key (key x) k b)) in
        (c, merge_new x a b new ∙ e)
    | inr (y, known) ↦
        let (c, e) =
          merge_keyed-total law b a d.1
            (λ k u v hu hv. ground (arith, d.0, agree k u v, same_key key (key x) k b)) in
        (
          c,
          merge_known x y a b known
                (ground (arith, agree (key x) y x known, bytes_eq_refl (key x), law x))
              ∙ e,
        )
  ]

  or_else_comm :
      (o p : Option A) → ((u v : A) → o ≡ some u → p ≡ some v → u ≡ v) → or_else p o ≡ or_else o p
  or_else_comm none none h = refl
  or_else_comm none (some v) h = refl
  or_else_comm (some u) none h = refl
  or_else_comm (some u) (some v) h = ap some (sym (h u v refl refl))

  -- Merging the other way round succeeds too, and finds the same item under every key.
  pub merge_keyed_comm :
      (refl_law : (x : A) → same x x ≡ true)
      (law : (x y : A) → key x ≡ key y → same x y ≡ true → x ≡ y) (a b c : List A)
      → DistinctKeys key a
      → merge_keyed key same a b ≡ ok c
      → (c' : List A) × (merge_keyed key same b a ≡ ok c')
        × ((k : Bytes) → find key k c' ≡ find key k c)
  merge_keyed_comm refl_law law a b c d e =
      let agree = λ (k : Bytes) (u v : A). merge_keyed-agree law b a c k u v e in
      let (c', e') = merge_keyed-total refl_law a b d (λ k u v hu hv. sym (agree k v u hv hu)) in
      (
        c',
        e',
        λ k.
            merge_keyed-find a b c' k e'
            ∙ or_else_comm (find key k a) (find key k b) (agree k)
            ∙ sym (merge_keyed-find b a c k e),
      )
