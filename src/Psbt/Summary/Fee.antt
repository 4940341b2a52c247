-- ===== src/Psbt/Summary/Fee.antt =====
-- The fee that the summary states.
use yubtc_python.Prelude.{
  ℕ, zero, suc, ◌+◌, ◌^◌, ◌<◌, ◌≡◌, ◌∙◌, refl, sym, ap, List, [], ◌∷◌, length, Bool, true, false,
  Option, none, some, ok, >>=-eq-ok, ok-injective, arith,
}
use yubtc_python.Prelude.Bytes.{Bytes}
use yubtc_python.Psbt.Model.{Psbt}
use yubtc_python.Psbt.Utxo.{input_utxo_data, txid}
use yubtc_python.Psbt.Summary.{PsbtSummary, add_input, credit_from, spend_sat, fee_of, psbt_summary}

-- The amounts of the inputs from input `i` on, each of which is known.
pub data Amounts (p : Psbt) : ℕ → ℕ → List ℕ → Type 0 where
  done : (i : ℕ) → Amounts p i 0 []
  known :
      (i count amount : ℕ) (script : Bytes) {amounts : List ℕ}
      → input_utxo_data p i ≡ some (script, amount)
      → Amounts p (i + 1) count amounts
      → Amounts p i (suc count) (amount ∷ amounts)

unfoldable pub sum : List ℕ → ℕ
sum [] = 0
sum (a ∷ as') = a + sum as'

-- The sum over the amounts of the inputs, if each of them is known.
abbrev pub HasCredit : Psbt → ℕ → ℕ → ℕ → Type 0
HasCredit p i count credit = (amounts : List ℕ) × Amounts p i count amounts × (credit ≡ sum amounts)

add_input-HasCredit :
    (p : Psbt) (i count credit : ℕ) (data' : Option (Bytes × ℕ)) (rest : ℕ × Bool)
    → input_utxo_data p i ≡ data'
    → ((c : ℕ) → rest ≡ (c, true) → HasCredit p (i + 1) count c)
    → add_input data' rest ≡ (credit, true)
    → HasCredit p i (suc count) credit
unfolding add_input sum
add_input-HasCredit p i count credit none (c, b) d ih e = cc
add_input-HasCredit p i count credit (some (script, amount)) (c, false) d ih e = cc
add_input-HasCredit p i count credit (some (script, amount)) (c, true) d ih e =
    let (amounts, known_rest, total) = ih c refl in
    let is_credit : amount + c ≡ credit = ap (λ (r : ℕ × Bool). r.0) e in
    (
      amount ∷ amounts,
      known i count amount script d known_rest,
      sym is_credit ∙ ap (◌+◌ amount) total,
    )

credit-HasCredit :
    (p : Psbt) (i count credit : ℕ)
    → credit_from p i count ≡ (credit, true)
    → HasCredit p i count credit
unfolding credit_from sum
credit-HasCredit p i zero credit e = ([], done i, sym (ap (λ (r : ℕ × Bool). r.0) e))
credit-HasCredit p i (suc count) credit e =
    add_input-HasCredit p i count credit (input_utxo_data p i) (credit_from p (i + 1) count) refl
      (λ c rest. credit-HasCredit p (i + 1) count c rest) e

fee_of-some :
    (total : ℕ × Bool) (spend fee : ℕ)
    → fee_of total spend ≡ some fee
    → (total ≡ (spend + fee, true)) × (fee < 2 ^ 64)
unfolding fee_of
fee_of-some (credit, false) spend fee e = cc
fee_of-some (credit, true) spend fee e = ground arith

-- A fee that the summary states is below 2 ^ 64; the amount of every input is known, and their sum is the
-- sum of the outputs and the fee.
pub psbt_summary-fee :
    (sha256 : Bytes → Bytes) (p : Psbt) (summary : PsbtSummary) (fee : ℕ)
    → psbt_summary sha256 p ≡ ok summary
    → summary.fee_sat ≡ some fee
    → (fee < 2 ^ 64) × HasCredit p 0 (length p.inputs) (spend_sat p.unsigned_tx.vout + fee)
unfolding psbt_summary
psbt_summary-fee sha256 p summary fee e is_fee =
    let (id', _, e1) = >>=-eq-ok (txid sha256 p.unsigned_tx) _ e in
    let stated : fee_of (credit_from p 0 (length p.inputs)) (spend_sat p.unsigned_tx.vout)
        ≡ some fee =
      ap (λ (s : PsbtSummary). s.fee_sat) (ok-injective e1) ∙ is_fee in
    let (total, bound) = fee_of-some _ _ fee stated in
    (bound, credit-HasCredit p 0 (length p.inputs) (spend_sat p.unsigned_tx.vout + fee) total)
