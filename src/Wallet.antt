-- ===== src/Wallet.antt =====
-- wallet.py and misc.py: the choice among the candidates of the fee loop, and the dust limits.
pub mod Sorted
pub mod Candidates
use yubtc_python.Prelude.{
  ℕ, ◌*◌, ◌/◌, ◌+◌, List, [], ◌∷◌, ◌++◌, length, ltb, leb, ◌==◌, ◌&&◌, ◌||◌, if◌then◌else◌, Bool,
  true, false, Option, none, some, Result, ok, err, ◌>>=◌, value_error, index_error,
}
use yubtc_python.Prelude.Bytes.{Bytes, index}

-- `MIN_RELAY_TX_FEE`
abbrev pub min_relay_tx_fee : ℕ
min_relay_tx_fee = 1000

-- `fee < needed or fee < relay_floor`
pub too_low : ℕ → ℕ → ℕ → ℕ → Bool
too_low feekb min_relay_per_kb size fee =
    ltb fee (size * feekb / 1000) || ltb fee (size * min_relay_per_kb / 1000)

-- `by_size`: for each size the candidates, a fee and what comes with it.
abbrev pub BySize : Type 0 → Type 0
BySize A = List (ℕ × List (ℕ × A))

module _ {A : Type 0} where
  -- `sorted(by_size)`, with the entries in place of the keys: the keys of a dict are distinct.
  insert_size : ℕ × List (ℕ × A) → BySize A → BySize A
  insert_size e [] = e ∷ []
  insert_size e (x ∷ xs) = if leb e.0 x.0 then e ∷ x ∷ xs else x ∷ insert_size e xs

  pub sort_sizes : BySize A → BySize A
  unfolding insert_size
  sort_sizes [] = []
  sort_sizes (x ∷ xs) = insert_size x (sort_sizes xs)

  -- `size < best[0] or (size == best[0] and fee < best[1])`, where there is a `best`
  improves : ℕ → ℕ → Option (ℕ × (ℕ × A)) → Bool
  improves size fee none = true
  improves size fee (some (size', (fee', _))) = ltb size size' || (size == size' && ltb fee fee')

  -- `min(by_size)` of an empty dict is a `ValueError`, `[0]` of an empty list an `IndexError`.
  pub smallest : BySize A → Result (ℕ × (ℕ × A))
  smallest [] = err value_error
  smallest ((size, cs) ∷ rest) = do c ← index cs 0; ok (size, c)

  best_or : Option (ℕ × (ℕ × A)) → Result (ℕ × (ℕ × A)) → Result (ℕ × (ℕ × A))
  best_or none fallback = fallback
  best_or (some best) fallback = ok best

  module _ (feekb min_relay_per_kb : ℕ) where
    -- One round of the inner loop.
    consider : ℕ → ℕ → A → Option (ℕ × (ℕ × A)) → Option (ℕ × (ℕ × A))
    unfolding too_low improves
    consider size fee a best =
        if too_low feekb min_relay_per_kb size fee
        then best
        else if improves size fee best
        then some (size, (fee, a))
        else best

    scan_fees : ℕ → List (ℕ × A) → Option (ℕ × (ℕ × A)) → Option (ℕ × (ℕ × A))
    unfolding consider
    scan_fees size [] best = best
    scan_fees size ((fee, a) ∷ cs) best = scan_fees size cs (consider size fee a best)

    scan_sizes : BySize A → Option (ℕ × (ℕ × A)) → Option (ℕ × (ℕ × A))
    unfolding scan_fees
    scan_sizes [] best = best
    scan_sizes ((size, cs) ∷ rest) best = scan_sizes rest (scan_fees size cs best)

    pub pick_best_fee_loop_candidate : BySize A → Result (ℕ × (ℕ × A))
    unfolding sort_sizes scan_sizes smallest best_or
    pick_best_fee_loop_candidate by_size =
        best_or (scan_sizes (sort_sizes by_size) none) (smallest (sort_sizes by_size))

-- `DUST_THRESHOLD_P2PKH` and its kind, by the length of the lock script
unfoldable pub is_dust : ℕ → Bytes → Result Bool
is_dust amount script =
    if length script == 25
    then ok (ltb amount 546)
    else if length script == 23
    then ok (ltb amount 540)
    else if length script == 22
    then ok (ltb amount 294)
    else if length script == 34
    then (do first ← index script 0; ok (if first == 0x00 then ltb amount 330 else ltb amount 330))
    else ok false
