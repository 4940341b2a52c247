-- ===== src/Wallet/Candidates.antt =====
-- The choice of `_pick_best_fee_loop_candidate`.
use yubtc_python.Prelude.{
  ℕ, ◌≤◌, ◌<◌, ◌≡◌, refl, sym, ap, subst, List, [], ◌∷◌, All, ltb, Bool-cases, true, false, Option,
  none, some, ◌⊎◌, inl, inr, Result, ok, err, ◌>>=◌, value_error, arith,
}
use yubtc_python.Prelude.Bytes.{index}
use yubtc_python.Wallet.{
  BySize, sort_sizes, improves, too_low, consider, scan_fees, scan_sizes, smallest, best_or,
  pick_best_fee_loop_candidate,
}
use yubtc_python.Wallet.Sorted.{
  All-weaken, In, All-In, AllCandidates, All-sort_sizes, sort_sizes_inv, sort_sizes-head,
}

module _ {A : Type 0} where
  module _ (feekb min_relay : ℕ) where
    -- A candidate that the loop drops, or that is not better than the best one.
    abbrev NotBetter : Option (ℕ × (ℕ × A)) → ℕ → ℕ → Type 0
    NotBetter best size fee =
        (too_low feekb min_relay size fee ≡ true) ⊎ (improves size fee best ≡ false)

    improves_trans :
        (size fee s f : ℕ) (a : A) (best : Option (ℕ × (ℕ × A)))
        → improves size fee best ≡ true
        → improves s f best ≡ false
        → improves s f (some (size, (fee, a))) ≡ false
    unfolding improves
    improves_trans size fee s f a none h k = cc
    improves_trans size fee s f a (some (size', (fee', b))) h k = ground arith

    improves_self : (size fee : ℕ) (a : A) → improves size fee (some (size, (fee, a))) ≡ false
    unfolding improves
    improves_self size fee a = ground arith

    consider_mono :
        (size fee s f : ℕ) (a : A) (best : Option (ℕ × (ℕ × A)))
        → NotBetter best s f
        → NotBetter (consider feekb min_relay size fee a best) s f
    unfolding consider
    consider_mono size fee s f a best (inl low) = inl low
    consider_mono size fee s f a best (inr h) =
        elim (Bool-cases (too_low feekb min_relay size fee)) [
          | inl t ↦ rw t (inr h)
          | inr u ↦ elim (Bool-cases (improves size fee best)) [
            | inl better ↦ rw (u, better) (inr (improves_trans size fee s f a best better h))
            | inr worse ↦ rw (u, worse) (inr h)
          ]
        ]

    consider_self :
        (size fee : ℕ) (a : A) (best : Option (ℕ × (ℕ × A)))
        → NotBetter (consider feekb min_relay size fee a best) size fee
    unfolding consider
    consider_self size fee a best = elim (Bool-cases (too_low feekb min_relay size fee)) [
      | inl t ↦ inl t
      | inr u ↦ elim (Bool-cases (improves size fee best)) [
        | inl better ↦ rw (u, better) (inr (improves_self size fee a))
        | inr worse ↦ rw (u, worse) (inr worse)
      ]
    ]

    scan_fees_mono :
        (size : ℕ) (cs : List (ℕ × A)) (s f : ℕ) (best : Option (ℕ × (ℕ × A)))
        → NotBetter best s f
        → NotBetter (scan_fees feekb min_relay size cs best) s f
    unfolding scan_fees
    scan_fees_mono size [] s f best h = h
    scan_fees_mono size ((fee, a) ∷ cs) s f best h =
        scan_fees_mono size cs s f (consider feekb min_relay size fee a best)
          (consider_mono size fee s f a best h)

    scan_fees_all :
        (size : ℕ) (cs : List (ℕ × A)) (best : Option (ℕ × (ℕ × A)))
        → All (λ c. NotBetter (scan_fees feekb min_relay size cs best) size c.0) cs
    unfolding scan_fees
    scan_fees_all size [] best = tt
    scan_fees_all size ((fee, a) ∷ cs) best = (
      scan_fees_mono size cs size fee (consider feekb min_relay size fee a best)
          (consider_self size fee a best),
      scan_fees_all size cs (consider feekb min_relay size fee a best),
    )

    scan_sizes_mono :
        (xs : BySize A) (s f : ℕ) (best : Option (ℕ × (ℕ × A)))
        → NotBetter best s f
        → NotBetter (scan_sizes feekb min_relay xs best) s f
    unfolding scan_sizes
    scan_sizes_mono [] s f best h = h
    scan_sizes_mono ((size, cs) ∷ xs) s f best h =
        scan_sizes_mono xs s f (scan_fees feekb min_relay size cs best)
          (scan_fees_mono size cs s f best h)

    scan_sizes_all :
        (xs : BySize A) (best : Option (ℕ × (ℕ × A)))
        → AllCandidates (λ s f a. NotBetter (scan_sizes feekb min_relay xs best) s f) xs
    unfolding scan_sizes
    scan_sizes_all [] best = tt
    scan_sizes_all ((size, cs) ∷ xs) best = (
      All-weaken _ _
          (λ (c : ℕ × A) h. scan_sizes_mono xs size c.0 (scan_fees feekb min_relay size cs best) h)
          cs (scan_fees_all size cs best),
      scan_sizes_all xs (scan_fees feekb min_relay size cs best),
    )

    -- A candidate that was kept is valid, and has what all candidates have.
    module _ (Q : ℕ → ℕ → A → Type 0) where
      abbrev Kept : Option (ℕ × (ℕ × A)) → Type 0
      Kept none = Unit {0}
      Kept (some (s, (f, a))) = (too_low feekb min_relay s f ≡ false) × Q s f a

      consider-Kept :
          (size fee : ℕ) (a : A) (best : Option (ℕ × (ℕ × A)))
          → Q size fee a
          → Kept best
          → Kept (consider feekb min_relay size fee a best)
      unfolding consider
      consider-Kept size fee a best q h = elim (Bool-cases (too_low feekb min_relay size fee)) [
        | inl t ↦ rw t h
        | inr u ↦ elim (Bool-cases (improves size fee best)) [
          | inl better ↦ rw (u, better) (u, q)
          | inr worse ↦ rw (u, worse) h
        ]
      ]

      scan_fees-Kept :
          (size : ℕ) (cs : List (ℕ × A)) (best : Option (ℕ × (ℕ × A)))
          → All (λ c. Q size c.0 c.1) cs
          → Kept best
          → Kept (scan_fees feekb min_relay size cs best)
      unfolding scan_fees
      scan_fees-Kept size [] best qs h = h
      scan_fees-Kept size ((fee, a) ∷ cs) best qs h =
          scan_fees-Kept size cs (consider feekb min_relay size fee a best) qs.1
            (consider-Kept size fee a best qs.0 h)

      scan_sizes-Kept :
          (xs : BySize A) (best : Option (ℕ × (ℕ × A)))
          → AllCandidates Q xs
          → Kept best
          → Kept (scan_sizes feekb min_relay xs best)
      unfolding scan_sizes
      scan_sizes-Kept [] best qs h = h
      scan_sizes-Kept ((size, cs) ∷ xs) best qs h =
          scan_sizes-Kept xs (scan_fees feekb min_relay size cs best) qs.1
            (scan_fees-Kept size cs best qs.0 h)

    not_improves :
        (s f s' f' : ℕ) (a : A)
        → improves s' f' (some (s, (f, a))) ≡ false
        → (s < s') ⊎ ((s ≡ s') × (f ≤ f'))
    unfolding improves
    not_improves s f s' f' a h = elim (Bool-cases (ltb s s')) [
      | inl t ↦ inl (ground arith)
      | inr u ↦ inr (ground arith, ground arith)
    ]

    -- A candidate of size `s` with fee `f` and rest `a` is there.
    abbrev pub Among : ℕ → ℕ → A → BySize A → Type 0
    Among s f a [] = ⊥
    Among s f a ((size, cs) ∷ rest) = ((s ≡ size) × In (f, a) cs) ⊎ Among s f a rest

    -- What becomes of candidates that are all dropped: the first candidate of a smallest size, or an error
    -- where there is no size, or no candidate of that size.
    abbrev pub FallsBack : BySize A → Result (ℕ × (ℕ × A)) → Type 0
    FallsBack by_size result =
        ((by_size ≡ []) × (result ≡ err value_error))
        ⊎ ((s : ℕ) × (cs : List (ℕ × A)) × In (s, cs) by_size
            × All (λ (e : ℕ × List (ℕ × A)). s ≤ e.0) by_size
            × (result ≡ (index cs 0 >>= λ c. ok (s, c))))

    smallest-FallsBack : (by_size : BySize A) → FallsBack by_size (smallest (sort_sizes by_size))
    unfolding smallest sort_sizes
    smallest-FallsBack by_size = elim (sort_sizes-head by_size) [
      | inl e ↦ inl (e, ap (λ xs. smallest (sort_sizes xs)) e)
      | inr ((s, cs), tail, sorted, (here, least)) ↦
          inr (s, cs, here, least, ap (λ (xs : BySize A). smallest xs) sorted)
    ]

    -- A candidate is chosen, it is one of them, valid, and the best of the valid ones; or none is valid,
    -- and the choice is the first candidate of the smallest size.
    abbrev pub IsBestPick : BySize A → Type 0
    IsBestPick by_size =
        ((s : ℕ) × (f : ℕ) × (a : A) × (pick_best_fee_loop_candidate feekb min_relay by_size
            ≡ ok (s, (f, a)))
          × (too_low feekb min_relay s f ≡ false)
          × Among s f a by_size
          × AllCandidates
              (λ s' f' a'.
                (too_low feekb min_relay s' f' ≡ true) ⊎ ((s < s') ⊎ ((s ≡ s') × (f ≤ f'))))
              by_size)
        ⊎ (AllCandidates (λ s' f' a'. too_low feekb min_relay s' f' ≡ true) by_size
            × FallsBack by_size (pick_best_fee_loop_candidate feekb min_relay by_size))

    candidates_mono :
        (P Q : ℕ → ℕ → A → Type 0)
        → ((s f : ℕ) (a : A) → P s f a → Q s f a)
        → (by_size : BySize A) → AllCandidates P by_size
        → AllCandidates Q by_size
    candidates_mono P Q h [] hs = tt
    candidates_mono P Q h ((s, cs) ∷ xs) hs =
        (All-weaken _ _ (λ (c : ℕ × A) p. h s c.0 c.1 p) cs hs.0, candidates_mono P Q h xs hs.1)

    all-Among : (by_size : BySize A) → AllCandidates (λ s f a. Among s f a by_size) by_size
    all-Among [] = tt
    all-Among ((size, cs) ∷ rest) = (
      All-weaken _ _ (λ (c : ℕ × A) i. inl (refl, i)) cs (All-In cs),
      candidates_mono _ _ (λ s f a i. inr i) rest (all-Among rest),
    )

    pick_from :
        (by_size : BySize A) (best : Option (ℕ × (ℕ × A)))
        → scan_sizes feekb min_relay (sort_sizes by_size) none ≡ best
        → AllCandidates (λ s f a. NotBetter best s f) by_size
        → IsBestPick by_size
    unfolding pick_best_fee_loop_candidate best_or improves
    pick_from by_size none e h = inr (
      candidates_mono _ _ (λ s f a. low s f) by_size h,
      subst (FallsBack by_size) (sym (ap (λ b. best_or b (smallest (sort_sizes by_size))) e))
          (smallest-FallsBack by_size),
    )
      where
        low : (s f : ℕ) → NotBetter none s f → too_low feekb min_relay s f ≡ true
        low s f (inl t) = t
        low s f (inr u) = cc
    pick_from by_size (some (s, (f, a))) e h =
        let kept : Kept (λ s' f' a'. Among s' f' a' by_size) (some (s, (f, a))) =
          subst (Kept (λ s' f' a'. Among s' f' a' by_size)) e (
            scan_sizes-Kept (λ s' f' a'. Among s' f' a' by_size) (sort_sizes by_size) none
              (All-sort_sizes (λ x. All (λ c. Among x.0 c.0 c.1 by_size) x.1) by_size
                (all-Among by_size))
              tt) in
        inl (
          s,
          f,
          a,
          ap (λ b. best_or b (smallest (sort_sizes by_size))) e,
          kept.0,
          kept.1,
          candidates_mono _ _ (λ s' f' a'. worse s' f') by_size h,
        )
      where
        worse :
            (s' f' : ℕ)
            → NotBetter (some (s, (f, a))) s' f'
            → (too_low feekb min_relay s' f' ≡ true) ⊎ ((s < s') ⊎ ((s ≡ s') × (f ≤ f')))
        worse s' f' (inl t) = inl t
        worse s' f' (inr u) = inr (not_improves s f s' f' a u)

    -- `_pick_best_fee_loop_candidate` returns one of the candidates, whose fee is neither below the rate
    -- asked for nor below the relay floor, and every other such candidate is larger or, at the same size,
    -- costs at least as much; or all candidates are below one of the two, and it returns the first
    -- candidate of a size that no other is smaller than: a `ValueError` where there is no size, and an
    -- `IndexError` where that size has no candidate.
    pub pick_best-IsBestPick : (by_size : BySize A) → IsBestPick by_size
    pick_best-IsBestPick by_size = pick_from by_size _ refl (
        sort_sizes_inv
          (λ x.
            All (λ c. NotBetter (scan_sizes feekb min_relay (sort_sizes by_size) none) x.0 c.0) x.1)
          by_size (scan_sizes_all (sort_sizes by_size) none))
