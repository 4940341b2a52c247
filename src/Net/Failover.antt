-- ===== src/Net/Failover.antt =====
-- The failover of `AutoBackend`: the order of the attempts, and what its outcome means.
use native.Mathlib.Nat.{mod-eq_of_lt, mod-eq-sub-mod, mod-lt, zero-lt-suc}
use yubtc_python.Prelude.{
  ℕ, zero, suc, ◌+◌, ◌-◌, ◌%◌, ◌≤◌, ◌<◌, ◌≡◌, refl, ap, ◌∙◌, subst, List, [], ◌∷◌, ◌++◌, map, All,
  leb, ◌==◌, Bool-cases, Option, none, some, ◌⊎◌, inl, inr, arith,
}
use yubtc_python.Net.{range, order, after_call, run_loop, run}

-- The remembered backend is one of the backends.
abbrev pub IsPreferred : ℕ → Option ℕ → Type 0
IsPreferred total none = Unit {0}
IsPreferred total (some p) = p < total

All-range :
    (P : ℕ → Type 0) (f : ℕ → ℕ) (a n k : ℕ)
    → All P (map f (range a n))
    → a ≤ k
    → k < a + n
    → P (f k)
unfolding range
All-range P f a zero k h l u = absurd (omega arith)
All-range P f a (suc n) k h l u = elim (Bool-cases (k == a)) [
  | inl e ↦ let same : a ≡ k = ground arith in subst (λ j. P (f j)) same h.0
  | inr ne ↦ All-range P f (a + 1) n k h.1 (ground arith) (omega arith)
]

-- What holds of all attempts holds of all backends.
All-rotation :
    (P : ℕ → Type 0) (total start i : ℕ)
    → start < total
    → All P (map (λ offset. (start + offset) % total) (range 0 total))
    → i < total
    → P i
All-rotation P total start i s h l = elim (Bool-cases (leb start i)) [
  | inl ahead ↦
      let e : start + (i - start) ≡ i = ground arith in
      subst P (ap (λ k. k % total) e ∙ mod-eq_of_lt l) (
        All-range P (λ offset. (start + offset) % total) 0 total (i - start) h (omega arith)
          (omega arith))
  | inr behind ↦
      let below : i < start = ground arith in
      let e : start + (i + total - start) ≡ i + total = omega arith in
      let e' : i + total - total ≡ i = omega arith in
      subst P
        (ap (λ k. k % total) e
          ∙ mod-eq-sub-mod {n = i + total} {m = total} (omega arith)
          ∙ ap (λ k. k % total) e'
          ∙ mod-eq_of_lt l)
        (All-range P (λ offset. (start + offset) % total) 0 total (i + total - start) h
          (omega arith) (omega arith))
]

All-order :
    (P : ℕ → Type 0) (total : ℕ) (preferred : Option ℕ) (i : ℕ)
    → IsPreferred total preferred
    → All P (order total preferred)
    → i < total
    → P i
unfolding order
All-order P total none i p h l = All-rotation P total 0 i (omega arith) h l
All-order P total (some start) i p h l = All-rotation P total start i p h l

range-rotation_lt :
    (total start a n : ℕ)
    → 0 < total
    → All (λ i. i < total) (map (λ offset. (start + offset) % total) (range a n))
unfolding range
range-rotation_lt total start a zero h = tt
range-rotation_lt total start a (suc n) h =
    (mod-lt (start + a) h, range-rotation_lt total start (a + 1) n h)

order_lt : (total : ℕ) (preferred : Option ℕ) → All (λ i. i < total) (order total preferred)
unfolding order range
order_lt zero preferred = tt
order_lt (suc n) none = range-rotation_lt (suc n) 0 0 (suc n) (zero-lt-suc n)
order_lt (suc n) (some p) = range-rotation_lt (suc n) p 0 (suc n) (zero-lt-suc n)

module _ {E B : Type 0} (call : ℕ → E ⊎ B) where
  IsFailure : ℕ → Type 0
  IsFailure i = (e : E) × (call i ≡ inl e)

  module _ (i : ℕ) (is : List ℕ) (attempts : List (ℕ × E)) (preferred : Option ℕ) where
    run_loop_failed :
        (e : E)
        → call i ≡ inl e
        → run_loop call (i ∷ is) attempts preferred
          ≡ run_loop call is (attempts ++ (i, e) ∷ []) preferred
    unfolding run_loop after_call
    run_loop_failed e h =
        ap (λ a. after_call call a i (λ x. run_loop call is (attempts ++ (i, x) ∷ []) preferred)) h

    run_loop_answered :
        (r : B) → call i ≡ inr r → run_loop call (i ∷ is) attempts preferred ≡ (inr r, some i)
    unfolding run_loop after_call
    run_loop_answered r h =
        ap (λ a. after_call call a i (λ x. run_loop call is (attempts ++ (i, x) ∷ []) preferred)) h

  run_loop-cases :
      (is : List ℕ) (total : ℕ) (attempts : List (ℕ × E)) (preferred : Option ℕ)
      → All (λ i. i < total) is
      → ((i : ℕ) × (r : B) × (run_loop call is attempts preferred ≡ (inr r, some i))
          × (call i ≡ inr r)
          × (i < total))
        ⊎ ((trail : List (ℕ × E)) × (run_loop call is attempts preferred ≡ (inl trail, preferred))
            × All IsFailure is)
  unfolding run_loop IsFailure
  run_loop-cases [] total attempts preferred h = inr (attempts, refl, tt)
  run_loop-cases (i ∷ is) total attempts preferred h =
      go (call i) refl (λ e. run_loop-cases is total (attempts ++ (i, e) ∷ []) preferred h.1)
    where
      go :
          (answer : E ⊎ B)
          → call i ≡ answer
          → ((e : E)
              → ((j : ℕ) × (r : B) × (run_loop call is (attempts ++ (i, e) ∷ []) preferred
                    ≡ (inr r, some j))
                  × (call j ≡ inr r)
                  × (j < total))
                ⊎ ((trail : List (ℕ × E)) × (run_loop call is (attempts ++ (i, e) ∷ []) preferred
                      ≡ (inl trail, preferred))
                    × All IsFailure is))
          → ((j : ℕ) × (r : B) × (run_loop call (i ∷ is) attempts preferred ≡ (inr r, some j))
              × (call j ≡ inr r)
              × (j < total))
            ⊎ ((trail : List (ℕ × E)) × (run_loop call (i ∷ is) attempts preferred
                  ≡ (inl trail, preferred))
                × All IsFailure (i ∷ is))
      go (inr r) e next = inl (i, r, run_loop_answered i is attempts preferred r e, e, h.0)
      go (inl x) e next = elim (next x) [
        | inl (j, r, same, answered, l) ↦
            inl (j, r, run_loop_failed i is attempts preferred x e ∙ same, answered, l)
        | inr (trail, same, failed) ↦
            inr (trail, run_loop_failed i is attempts preferred x e ∙ same, ((x, e), failed))
      ]

  -- `AutoBackend._run`, with a remembered backend that is one of the `total` ones (or none), has one of
  -- two outcomes: the answer of a backend, which it then remembers; or a trail, where every one of the
  -- backends fails, with the remembered backend unchanged. So one working backend is enough.
  pub run-cases :
      (total : ℕ) (preferred : Option ℕ)
      → IsPreferred total preferred
      → ((i : ℕ) × (r : B) × (run call total preferred ≡ (inr r, some i))
          × (call i ≡ inr r)
          × (i < total))
        ⊎ ((trail : List (ℕ × E)) × (run call total preferred ≡ (inl trail, preferred))
            × ((i : ℕ) → i < total → (e : E) × (call i ≡ inl e)))
  unfolding run IsFailure
  run-cases total preferred p =
      elim (run_loop-cases (order total preferred) total [] preferred (order_lt total preferred)) [
        | inl answered ↦ inl answered
        | inr (trail, same, failed) ↦
            inr (trail, same, λ i l. All-order IsFailure total preferred i p failed l)
      ]
