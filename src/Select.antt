-- ===== src/Select.antt =====
-- select.py and `ms_select_utxos` of wallet.py: which unspent outputs a payment takes.
pub mod Prefix
use yubtc_python.Prelude.{
  ℕ, ◌+◌, List, [], ◌∷◌, ◌++◌, leb, ◌==◌, ◌&&◌, ◌||◌, if◌then◌else◌, Bool, true, false, Option,
  none, some,
}

-- An entry of a list of unspent outputs: `u['out_n']` and `u['amount']`.
pub record Utxo : Type 0 where
  pub out_n : ℕ
  pub amount : ℕ

-- A private key, of which the selection uses the nonce, with its unspent outputs.
pub record Source : Type 0 where
  pub nonce : ℕ
  pub unspent : List Utxo

-- `target is not None and total >= target`
unfoldable pub reached : Option ℕ → ℕ → Bool
reached none total = false
reached (some target) total = leb target total

mem_key : ℕ × ℕ → List (ℕ × ℕ) → Bool
mem_key k [] = false
mem_key (nonce, out_n) ((nonce', out_n') ∷ ks) =
    (nonce == nonce' && out_n == out_n') || mem_key (nonce, out_n) ks

-- `selected.add(k)`: the set as a list in the order of insertion.
pub add : List (ℕ × ℕ) → ℕ × ℕ → List (ℕ × ℕ)
unfolding mem_key
add selected k = if mem_key k selected then selected else selected ++ k ∷ []

-- The inner loop of `default_selection`.
select_unspent : Option ℕ → ℕ → List Utxo → List (ℕ × ℕ) → ℕ → List (ℕ × ℕ) × ℕ
select_unspent target nonce [] selected total = (selected, total)
select_unspent target nonce (u ∷ us) selected total =
    let selected' = add selected (nonce, u.out_n) in
    let rest = select_unspent target nonce us selected' (total + u.amount) in
    if reached target (total + u.amount) then (selected', total + u.amount) else rest

-- The outer loop.
select_sources : Option ℕ → List Source → List (ℕ × ℕ) → ℕ → List (ℕ × ℕ)
unfolding select_unspent
select_sources target [] selected total = selected
select_sources target (s ∷ sources) selected total =
    let (selected', total') = select_unspent target s.nonce s.unspent selected total in
    let rest = select_sources target sources selected' total' in
    if reached target total then selected else rest

pub default_selection : List Source → Option ℕ → List (ℕ × ℕ)
unfolding select_sources
default_selection sources target = select_sources target sources [] 0

-- The loop of `ms_select_utxos`, over outputs that carry a value.
module _ {A : Type 0} (value : A → ℕ) where
  ms_select_loop : Option ℕ → List A → List A → ℕ → List A
  ms_select_loop target [] out total = out
  ms_select_loop target (u ∷ us) out total =
      let out' = out ++ u ∷ [] in
      let rest = ms_select_loop target us out' (total + value u) in
      if reached target (total + value u) then out' else rest

  pub ms_select_utxos : List A → Option ℕ → List A
  unfolding ms_select_loop
  ms_select_utxos utxos target = ms_select_loop target utxos [] 0
