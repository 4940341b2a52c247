-- ===== src/Net/Retry.antt =====
-- The retry policy: how often a request is sent, which outcome is final, and how long the delays are.
use yubtc_python.Prelude.{
  ℕ, zero, suc, ◌+◌, ◌*◌, ◌^◌, min, ◌≤◌, ◌<◌, ◌≡◌, refl, sym, ap, ap₂, subst, ◌∙◌, List, [], ◌∷◌,
  length, All, leb, ◌==◌, Bool, true, false, Bool-cases, Option, none, some, ◌⊎◌, inl, inr, Result,
  ok, err, Error, overflow_error, arith, le→leb, lt→leb,
}
use yubtc_python.Prelude.Int.{ℤ, pos, negsuc}
use yubtc_python.Net.{
  Response, Outcome, fault, failure, response, is_retryable_status, backoff_delay, retry_after_sane,
  response_delay, next_delay, after_attempt, request_loop, request_with_retries,
}

-- An outcome that is worth a retry.
abbrev pub is_transient : Outcome → Bool
is_transient fault = true
is_transient failure = false
is_transient (response r) = is_retryable_status r.status_code

response_delay_le : (delay : ℕ) (r : Response) → delay ≤ 60 → response_delay delay r ≤ 60
unfolding response_delay retry_after_sane
response_delay_le delay r small = go r.status_code r.retry_after
  where
    go :
        (status : ℕ) (header : Option ℤ)
        → response_delay delay (record { status_code = status; retry_after = header }) ≤ 60
    go status none = ground (arith, small)
    go status (some (negsuc n)) = ground (arith, small)
    go status (some (pos n)) = ground (arith, small)

-- The backoff, up to the attempt at which it overflows.
backoff_delay-ok :
    (attempt : ℕ) → attempt < 1024 → (d : ℕ) × (backoff_delay attempt ≡ ok d) × (d ≤ 60)
unfolding backoff_delay
backoff_delay-ok attempt l = (min (1 * 2 ^ attempt) 4, rw (lt→leb 1024 attempt l), omega arith)

-- Whether there is a next attempt.
next_delay_final :
    (retries attempt : ℕ) (o : Outcome)
    → ((is_transient o ≡ false) ⊎ (retries ≤ attempt))
    → next_delay retries attempt o ≡ ok none
unfolding next_delay
next_delay_final retries attempt fault (inl e) = cc
next_delay_final retries attempt failure h = refl
next_delay_final retries attempt (response r) (inl e) = rw e
next_delay_final retries attempt fault (inr l) = rw (le→leb retries attempt l)
next_delay_final retries attempt (response r) (inr l) =
    elim (Bool-cases (is_retryable_status r.status_code)) [
      | inl t ↦ rw (t, le→leb retries attempt l)
      | inr f ↦ rw f
    ]

next_delay_again :
    (retries attempt : ℕ) (o : Outcome)
    → is_transient o ≡ true
    → attempt < retries
    → attempt < 1024
    → (d : ℕ) × (next_delay retries attempt o ≡ ok (some d)) × (d ≤ 60)
unfolding next_delay
next_delay_again retries attempt fault e l k =
    let (d, is_d, small) = backoff_delay-ok attempt k in
    (d, rw (lt→leb retries attempt l, is_d), small)
next_delay_again retries attempt failure e l k = cc
next_delay_again retries attempt (response r) e l k =
    let (d, is_d, small) = backoff_delay-ok attempt k in
    (response_delay d r, rw (e, lt→leb retries attempt l, is_d), response_delay_le d r small)

next_delay-overflow :
    (retries : ℕ) (o : Outcome)
    → is_transient o ≡ true
    → 1024 < retries
    → next_delay retries 1024 o ≡ err overflow_error
unfolding next_delay
next_delay-overflow retries fault e l = rw (lt→leb retries 1024 l)
next_delay-overflow retries failure e l = cc
next_delay-overflow retries (response r) e l = rw (e, lt→leb retries 1024 l)

-- A run of the loop from one attempt on: it ends at attempt `n`, after transient outcomes alone.
pub record IsRun (send : ℕ → Outcome) (retries attempt n : ℕ) (delays : List ℕ) : Type 0 where
  pub within : (attempt ≤ n) × (n ≤ retries)
  pub before : (j : ℕ) → attempt ≤ j → j < n → is_transient (send j) ≡ true
  pub last : (is_transient (send n) ≡ false) ⊎ (n ≡ retries)
  pub slept : attempt + length delays ≡ n
  pub bounded : All (λ d. d ≤ 60) delays

from_first :
    (send : ℕ → Outcome) (attempt n : ℕ)
    → is_transient (send attempt) ≡ true
    → ((j : ℕ) → attempt + 1 ≤ j → j < n → is_transient (send j) ≡ true)
    → (j : ℕ) → attempt ≤ j
    → j < n
    → is_transient (send j) ≡ true
from_first send attempt n transient rest j a b = elim (Bool-cases (j == attempt)) [
  | inl e ↦
      let same : attempt ≡ j = ground arith in
      ap (λ k. is_transient (send k)) (sym same) ∙ transient
  | inr ne ↦ rest j (ground arith) b
]

request_loop_final :
    (send : ℕ → Outcome) (retries fuel attempt : ℕ)
    → next_delay retries attempt (send attempt) ≡ ok none
    → request_loop send retries (suc fuel) attempt ≡ ok (send attempt, [])
unfolding request_loop after_attempt
request_loop_final send retries fuel attempt e =
    ap (λ d. after_attempt d (send attempt) (request_loop send retries fuel (attempt + 1))) e

request_loop_again :
    (send : ℕ → Outcome) (retries fuel attempt d : ℕ) {last : Outcome} {delays : List ℕ}
    → next_delay retries attempt (send attempt) ≡ ok (some d)
    → request_loop send retries fuel (attempt + 1) ≡ ok (last, delays)
    → request_loop send retries (suc fuel) attempt ≡ ok (last, d ∷ delays)
unfolding request_loop after_attempt
request_loop_again send retries fuel attempt d e rest =
    ap₂ (λ o r. after_attempt o (send attempt) r) e rest

-- The loop from one attempt on: it returns after a run, or the backoff before retry 1024 overflows.
abbrev pub Ends : (ℕ → Outcome) → ℕ → ℕ → Result (Outcome × List ℕ) → Type 0
Ends send retries attempt result =
    ((n : ℕ) × (delays : List ℕ) × (result ≡ ok (send n, delays))
      × (n ≤ 1024)
      × IsRun send retries attempt n delays)
    ⊎ ((1024 < retries)
        × ((j : ℕ) → attempt ≤ j → j < 1025 → is_transient (send j) ≡ true)
        × (result ≡ err overflow_error))

request_loop_err :
    (send : ℕ → Outcome) (retries fuel attempt : ℕ) {raised : Error}
    → next_delay retries attempt (send attempt) ≡ err raised
    → request_loop send retries (suc fuel) attempt ≡ err raised
unfolding request_loop after_attempt
request_loop_err send retries fuel attempt e =
    ap (λ d. after_attempt d (send attempt) (request_loop send retries fuel (attempt + 1))) e

request_loop_through :
    (send : ℕ → Outcome) (retries fuel attempt d : ℕ) {raised : Error}
    → next_delay retries attempt (send attempt) ≡ ok (some d)
    → request_loop send retries fuel (attempt + 1) ≡ err raised
    → request_loop send retries (suc fuel) attempt ≡ err raised
unfolding request_loop after_attempt
request_loop_through send retries fuel attempt d e rest =
    ap₂ (λ o r. after_attempt o (send attempt) r) e rest

module _ (send : ℕ → Outcome) (retries fuel attempt : ℕ) (l : attempt ≤ retries)
    (small : attempt ≤ 1024) where
  -- The three ways on from an attempt.
  stop-Ends :
      ((is_transient (send attempt) ≡ false) ⊎ (attempt ≡ retries))
      → next_delay retries attempt (send attempt) ≡ ok none
      → Ends send retries attempt (request_loop send retries (suc fuel) attempt)
  stop-Ends final e = inl (
    attempt,
    [],
    request_loop_final send retries fuel attempt e,
    small,
    record {
      within = (omega arith, l);
      before = λ j a b. absurd (omega arith);
      last = final;
      slept = omega arith;
      bounded = tt;
    },
  )

  overflow-Ends :
      is_transient (send attempt) ≡ true
      → attempt < retries
      → attempt ≡ 1024
      → Ends send retries attempt (request_loop send retries (suc fuel) attempt)
  overflow-Ends transient more top = inr (
    omega arith,
    from_first send attempt 1025 transient (λ j a b. absurd (omega arith)),
    request_loop_err send retries fuel attempt (
        subst (λ k. next_delay retries k (send attempt) ≡ err overflow_error) (sym top)
          (next_delay-overflow retries (send attempt) transient (omega arith))),
  )

  again-Ends :
      is_transient (send attempt) ≡ true
      → attempt < retries
      → attempt < 1024
      → Ends send retries (attempt + 1) (request_loop send retries fuel (attempt + 1))
      → Ends send retries attempt (request_loop send retries (suc fuel) attempt)
  again-Ends transient more below next =
      let (d, is_d, bound) = next_delay_again retries attempt (send attempt) transient more below in
      elim next [
        | inl (n, delays, result, early, r) ↦ inl (
          n,
          d ∷ delays,
          request_loop_again send retries fuel attempt d is_d result,
          early,
          record {
            within = (omega (arith, r.within), r.within.1);
            before = from_first send attempt n transient r.before;
            last = r.last;
            slept = omega (arith, r.slept);
            bounded = (bound, r.bounded);
          },
        )
        | inr (many, all, raised) ↦ inr (
          many,
          from_first send attempt 1025 transient all,
          request_loop_through send retries fuel attempt d is_d raised,
        )
      ]

request_loop-Ends :
    (send : ℕ → Outcome) (retries fuel attempt : ℕ)
    → attempt + fuel ≡ suc retries
    → attempt ≤ retries
    → attempt ≤ 1024
    → Ends send retries attempt (request_loop send retries fuel attempt)
request_loop-Ends send retries zero attempt e l small = absurd (omega arith)
request_loop-Ends send retries (suc fuel) attempt e l small =
    let next : attempt + 1 ≤ retries
        → attempt + 1 ≤ 1024
        → Ends send retries (attempt + 1) (request_loop send retries fuel (attempt + 1)) =
      request_loop-Ends send retries fuel (attempt + 1) (omega arith) in
    elim (Bool-cases (is_transient (send attempt))) [
      | inr final ↦
          stop-Ends send retries fuel attempt l small (inl final)
            (next_delay_final retries attempt (send attempt) (inl final))
      | inl transient ↦ elim (Bool-cases (leb retries attempt)) [
        | inl out ↦
            stop-Ends send retries fuel attempt l small (inr (ground arith))
              (next_delay_final retries attempt (send attempt) (inr (ground arith)))
        | inr left ↦ elim (Bool-cases (leb 1024 attempt)) [
          | inl top ↦
              overflow-Ends send retries fuel attempt l small transient (ground arith)
                (ground arith)
          | inr below ↦
              again-Ends send retries fuel attempt l small transient (ground arith) (ground arith)
                (next (ground arith) (ground arith))
        ]
      ]
    ]

-- `_request_with_retries` ends, whatever the requests do, in one of two ways. It returns the outcome of
-- call `n` (counted from 0) for an `n` that is at most `retries` and at most 1024; all calls before were
-- transient faults, and call `n` was not or was the last one allowed; it slept once before each later
-- call, at most 30 seconds. Or more than 1024 retries are allowed, the first 1025 calls were all
-- transient faults, and the backoff raises an `OverflowError`.
pub request_with_retries-IsRun :
    (send : ℕ → Outcome) (retries : ℕ) → Ends send retries 0 (request_with_retries send retries)
unfolding request_with_retries
request_with_retries-IsRun send retries =
    request_loop-Ends send retries (suc retries) 0 (omega arith) (omega arith) (omega arith)
