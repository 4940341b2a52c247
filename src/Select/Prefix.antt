-- ===== src/Select/Prefix.antt =====
-- The selections and the prefixes of the list of outputs.
use yubtc_python.Prelude.{
  ℕ, zero, suc, ◌+◌, ◌≤◌, ◌<◌, ◌≡◌, refl, sym, ap, ◌∙◌, List, [], ◌∷◌, ◌++◌, append_assoc,
  append-nil, length, take, if◌then◌else◌, Bool-cases, true, false, ◌⊎◌, inl, inr, Option, arith,
}
use yubtc_python.Select.{
  Utxo, Source, reached, add, select_unspent, select_sources, default_selection, ms_select_loop,
  ms_select_utxos,
}

-- The unspent outputs in the order of the walk, each with its key.
keyed : ℕ → List Utxo → List ((ℕ × ℕ) × ℕ)
keyed nonce [] = []
keyed nonce (u ∷ us) = ((nonce, u.out_n), u.amount) ∷ keyed nonce us

abbrev pub flat : List Source → List ((ℕ × ℕ) × ℕ)
unfolding keyed
flat [] = []
flat (s ∷ sources) = keyed s.nonce s.unspent ++ flat sources

abbrev pub add_all : List (ℕ × ℕ) → List ((ℕ × ℕ) × ℕ) → List (ℕ × ℕ)
add_all selected [] = selected
add_all selected ((k, a) ∷ rest) = add_all (add selected k) rest

module _ {A : Type 0} (value : A → ℕ) where
  abbrev pub sum : List A → ℕ
  sum [] = 0
  sum (x ∷ xs) = value x + sum xs

-- Fewer than `n` (but at least `least`) of the `xs` do not reach the target; `n` of them do, or are all.
abbrev pub IsShortest : {A : Type 0} → (A → ℕ) → Option ℕ → ℕ → ℕ → List A → ℕ → Type 0
IsShortest value target least total xs n =
    ((j : ℕ) → least ≤ j → j < n → reached target (total + sum value (take j xs)) ≡ false)
    × ((length xs ≤ n) ⊎ (reached target (total + sum value (take n xs)) ≡ true))

IsShortest-suc :
    {A : Type 0} (value : A → ℕ) (target : Option ℕ) (least total n : ℕ) (x : A) (xs : List A)
    → ((least ≡ 0) → reached target total ≡ false)
    → IsShortest value target 0 (total + value x) xs n
    → IsShortest value target least total (x ∷ xs) (suc n)
IsShortest-suc value target least total n x xs h (before, enough) = (
  λ j. below j,
  elim enough [
    | inl all ↦ inl (omega arith)
    | inr there ↦ inr (ap (reached target) (move n) ∙ there)
  ],
)
  where
    move :
        (j : ℕ)
        → total + (value x + sum value (take j xs)) ≡ total + value x + sum value (take j xs)
    move j = omega arith

    below :
        (j : ℕ)
        → least ≤ j
        → j < suc n
        → reached target (total + sum value (take j (x ∷ xs))) ≡ false
    below zero l k =
        let e : total + 0 ≡ total = omega arith in ap (reached target) e ∙ h (omega arith)
    below (suc j) l k = ap (reached target) (move j) ∙ before j (omega arith) (omega arith)

-- The walk over all unspent outputs at once.
pick : Option ℕ → List (ℕ × ℕ) → ℕ → List ((ℕ × ℕ) × ℕ) → List (ℕ × ℕ)
pick target selected total [] = selected
pick target selected total ((k, a) ∷ rest) =
    let later = pick target (add selected k) (total + a) rest in
    if reached target total then selected else later

pick-nil :
    (target : Option ℕ) (selected : List (ℕ × ℕ)) (total : ℕ)
    → pick target selected total [] ≡ selected
unfolding pick
pick-nil target selected total = refl

pick-reached :
    (target : Option ℕ) (selected : List (ℕ × ℕ)) (total : ℕ) (xs : List ((ℕ × ℕ) × ℕ))
    → reached target total ≡ true
    → pick target selected total xs ≡ selected
unfolding pick
pick-reached target selected total [] h = refl
pick-reached target selected total ((k, a) ∷ xs) h = rw h

pick-keyed :
    (target : Option ℕ) (nonce : ℕ) (us : List Utxo) (selected : List (ℕ × ℕ)) (total : ℕ)
    (rest : List ((ℕ × ℕ) × ℕ))
    → reached target total ≡ false
    → pick target selected total (keyed nonce us ++ rest)
      ≡ pick target
          (select_unspent target nonce us selected total).0
          (select_unspent target nonce us selected total).1
          rest
unfolding pick keyed select_unspent
pick-keyed target nonce [] selected total rest h = refl
pick-keyed target nonce (u ∷ us) selected total rest h =
    elim (Bool-cases (reached target (total + u.amount))) [
      | inl hit ↦
          rw (h, hit)
            (pick-reached target (add selected (nonce, u.out_n)) (total + u.amount)
                (keyed nonce us ++ rest) hit
              ∙ sym
                  (pick-reached target (add selected (nonce, u.out_n)) (total + u.amount) rest hit))
      | inr miss ↦
          rw (h, miss)
            (pick-keyed target nonce us (add selected (nonce, u.out_n)) (total + u.amount) rest
              miss)
    ]

select_sources-pick :
    (target : Option ℕ) (sources : List Source) (selected : List (ℕ × ℕ)) (total : ℕ)
    → select_sources target sources selected total ≡ pick target selected total (flat sources)
unfolding select_sources flat
select_sources-pick target [] selected total = sym (pick-nil target selected total)
select_sources-pick target (s ∷ sources) selected total = elim (Bool-cases (reached target total)) [
  | inl hit ↦
      rw hit
        (sym (pick-reached target selected total (keyed s.nonce s.unspent ++ flat sources) hit))
  | inr miss ↦ rw miss (
      select_sources-pick target sources (select_unspent target s.nonce s.unspent selected total).0
        (select_unspent target s.nonce s.unspent selected total).1
      ∙ sym (pick-keyed target s.nonce s.unspent selected total (flat sources) miss))
]

pick-IsShortest :
    (target : Option ℕ) (xs : List ((ℕ × ℕ) × ℕ)) (selected : List (ℕ × ℕ)) (total : ℕ)
    → (n : ℕ) × (pick target selected total xs ≡ add_all selected (take n xs))
      × IsShortest (λ (u : (ℕ × ℕ) × ℕ). u.1) target 0 total xs n
unfolding pick
pick-IsShortest target [] selected total =
    (0, refl, ((λ j l k. absurd (omega arith)), inl (omega arith)))
pick-IsShortest target ((k, a) ∷ xs) selected total = elim (Bool-cases (reached target total)) [
  | inl hit ↦
      let e : total + 0 ≡ total = omega arith in
      (0, rw hit, ((λ j l k. absurd (omega arith)), inr (ap (reached target) e ∙ hit)))
  | inr miss ↦
      let (n, same, shortest) = pick-IsShortest target xs (add selected k) (total + a) in
      (
        suc n,
        rw miss same,
        IsShortest-suc (λ (u : (ℕ × ℕ) × ℕ). u.1) target 0 total n (k, a) xs (λ z. miss) shortest,
      )
]

-- `default_selection` selects the keys of the first `n` unspent outputs in scan order, for an `n` of
-- which no smaller number reaches the target; these reach the target, or are all there are (as they
-- are without a target).
pub default_selection-IsShortest :
    (sources : List Source) (target : Option ℕ)
    → (n : ℕ) × (default_selection sources target ≡ add_all [] (take n (flat sources)))
      × IsShortest (λ (u : (ℕ × ℕ) × ℕ). u.1) target 0 0 (flat sources) n
unfolding default_selection
default_selection-IsShortest sources target =
    let (n, same, shortest) = pick-IsShortest target (flat sources) [] 0 in
    (n, select_sources-pick target sources [] 0 ∙ same, shortest)

module _ {A : Type 0} (value : A → ℕ) where
  ms_select_loop-IsShortest :
      (target : Option ℕ) (us out : List A) (total : ℕ)
      → (n : ℕ) × (ms_select_loop value target us out total ≡ out ++ take n us)
        × ((us ≡ []) ⊎ (1 ≤ n))
        × IsShortest value target 1 total us n
  unfolding ms_select_loop
  ms_select_loop-IsShortest target [] out total =
      (0, sym (append-nil out), inl refl, ((λ j l k. absurd (omega arith)), inl (omega arith)))
  ms_select_loop-IsShortest target (u ∷ us) out total =
      elim (Bool-cases (reached target (total + value u))) [
        | inl hit ↦
            let e : total + (value u + 0) ≡ total + value u = omega arith in
            (
              1,
              rw hit,
              inr (omega arith),
              ((λ j l k. absurd (omega arith)), inr (ap (reached target) e ∙ hit)),
            )
        | inr miss ↦
            let (n, same, _, (before, enough)) =
              ms_select_loop-IsShortest target us (out ++ u ∷ []) (total + value u) in
            let e : total + value u + 0 ≡ total + value u = omega arith in
            (
              suc n,
              rw miss (same ∙ append_assoc out (u ∷ []) (take n us)),
              inr (omega arith),
              IsShortest-suc value target 1 total n u us (λ z. absurd (omega arith))
                  (from_zero before e miss, enough),
            )
      ]
    where
      from_zero :
          {n : ℕ}
          → ((j : ℕ)
              → 1 ≤ j
              → j < n
              → reached target (total + value u + sum value (take j us)) ≡ false)
          → total + value u + 0 ≡ total + value u
          → reached target (total + value u) ≡ false
          → (j : ℕ) → 0 ≤ j
          → j < n
          → reached target (total + value u + sum value (take j us)) ≡ false
      from_zero before e miss zero l k = ap (reached target) e ∙ miss
      from_zero before e miss (suc j) l k = before (suc j) (omega arith) k

  -- `ms_select_utxos` returns the first `n` outputs, in order, and at least one where there is one, even
  -- for a target of 0; no smaller positive number of them reaches the target, and these reach it, or are
  -- all there are (as they are without a target).
  pub ms_select_utxos-IsShortest :
      (utxos : List A) (target : Option ℕ)
      → (n : ℕ) × (ms_select_utxos value utxos target ≡ take n utxos)
        × ((utxos ≡ []) ⊎ (1 ≤ n))
        × IsShortest value target 1 0 utxos n
  unfolding ms_select_utxos
  ms_select_utxos-IsShortest utxos target = ms_select_loop-IsShortest target utxos [] 0
