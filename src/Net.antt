-- ===== src/Net.antt =====
-- net.py: the retry policy of the HTTP requests, and the failover of `AutoBackend`. The requests
-- themselves (the package `requests`, and the sites) are parameters.
pub mod Retry
pub mod Failover
use yubtc_python.Prelude.{
  ℕ, zero, suc, ◌+◌, ◌*◌, ◌%◌, ◌^◌, min, List, [], ◌∷◌, ◌++◌, map, leb, ◌==◌, ◌||◌, not,
  if◌then◌else◌, Bool, true, false, Option, none, some, ◌⊎◌, inl, inr, Result, ok, err, ◌>>=◌,
  out_of_fuel, overflow_error,
}
use yubtc_python.Prelude.Int.{ℤ, pos, negsuc}

-- A response: its status, and the header `Retry-After` where it is there and an integer.
pub record Response : Type 0 where
  pub status_code : ℕ
  pub retry_after : Option ℤ

-- What `send()` does: a `ConnectionError` or `Timeout`, another exception, or a response.
pub data Outcome : Type 0 where
  fault failure : Outcome
  response : Response → Outcome

pub is_retryable_status : ℕ → Bool
is_retryable_status status = leb 500 status || (status == 408 || status == 429)

-- Delays are counted in half seconds: `HTTP_RETRY_BASE_DELAY` is 1, `HTTP_RETRY_MAX_DELAY` is 4. The base
-- is a float in the source, and `2 ** 1024` is too large to be converted to one.
pub backoff_delay : ℕ → Result ℕ
backoff_delay attempt =
    if leb 1024 attempt then err overflow_error else ok (min (1 * 2 ^ attempt) 4)

-- `0 <= secs <= HTTP_RETRY_AFTER_MAX`
pub retry_after_sane : Option ℤ → Option ℕ
retry_after_sane none = none
retry_after_sane (some (negsuc n)) = none
retry_after_sane (some (pos secs)) = if leb secs 30 then some (2 * secs) else none

-- What becomes of the `delay` where a response is tried again.
response_delay : ℕ → Response → ℕ
unfolding retry_after_sane
response_delay delay r =
    if r.status_code == 429
    then elim (retry_after_sane r.retry_after) [ some sane ↦ sane | none ↦ delay ]
    else delay

-- The delay before the next attempt, or none where the outcome is final.
pub next_delay : ℕ → ℕ → Outcome → Result (Option ℕ)
unfolding backoff_delay is_retryable_status response_delay
next_delay retries attempt fault =
    if leb retries attempt then ok none else (do delay ← backoff_delay attempt; ok (some delay))
next_delay retries attempt failure = ok none
next_delay retries attempt (response r) =
    if not (is_retryable_status r.status_code)
    then ok none
    else if leb retries attempt
    then ok none
    else (do delay ← backoff_delay attempt; ok (some (response_delay delay r)))

-- Return, or sleep and go on with the `rest`.
after_attempt : Result (Option ℕ) → Outcome → Result (Outcome × List ℕ) → Result (Outcome × List ℕ)
after_attempt (err raised) outcome rest = err raised
after_attempt (ok none) outcome rest = ok (outcome, [])
after_attempt (ok (some delay)) outcome rest = do (last, delays) ← rest; ok (last, delay ∷ delays)

-- The loop: the final outcome, which is returned or raised, and the delays slept before.
request_loop : (ℕ → Outcome) → ℕ → ℕ → ℕ → Result (Outcome × List ℕ)
unfolding next_delay after_attempt
request_loop send retries zero attempt = err out_of_fuel
request_loop send retries (suc fuel) attempt =
    let rest = request_loop send retries fuel (attempt + 1) in
    after_attempt (next_delay retries attempt (send attempt)) (send attempt) rest

-- `send n` is the outcome of the `n`-th call. At attempt `retries` the loop ends.
pub request_with_retries : (ℕ → Outcome) → ℕ → Result (Outcome × List ℕ)
unfolding request_loop
request_with_retries send retries = request_loop send retries (suc retries) 0

-- `range(n)` from `a` on
unfoldable pub range : ℕ → ℕ → List ℕ
range a zero = []
range a (suc n) = a ∷ range (a + 1) n

-- `AutoBackend._order`
pub order : ℕ → Option ℕ → List ℕ
unfolding range
order total preferred =
    let start : ℕ = elim preferred [ some p ↦ p | none ↦ 0 ] in
    map (λ offset. (start + offset) % total) (range 0 total)

-- `AutoBackend._run`: `call i` is what the method of backend `i` does, `E` its exceptions, `B` its
-- results. The outcome is the trail of failures or a result; the preference is state.
module _ {E B : Type 0} (call : ℕ → E ⊎ B) where
  -- Remember the backend that answered, or go on with the `rest`.
  after_call : E ⊎ B → ℕ → (E → (List (ℕ × E) ⊎ B) × Option ℕ) → (List (ℕ × E) ⊎ B) × Option ℕ
  after_call (inl e) i rest = rest e
  after_call (inr result) i rest = (inr result, some i)

  run_loop : List ℕ → List (ℕ × E) → Option ℕ → (List (ℕ × E) ⊎ B) × Option ℕ
  unfolding after_call
  run_loop [] attempts preferred = (inl attempts, preferred)
  run_loop (i ∷ is) attempts preferred =
      after_call (call i) i (λ e. run_loop is (attempts ++ (i, e) ∷ []) preferred)

  pub run : ℕ → Option ℕ → (List (ℕ × E) ⊎ B) × Option ℕ
  unfolding run_loop order
  run total preferred = run_loop (order total preferred) [] preferred
