-- ===== src/Retry.antt =====
-- `withRetry` of src/utils/retry.ts. The call that is retried is the list of what its attempts
-- give, by their number; `jitter` is `Math.floor(Math.random() * 100)` at each. A base delay is a
-- whole number of milliseconds, so that the floor of the sum is the sum with that floor.
pub mod Bounds
mod Tests
use ydb_qdrant.Prelude.{
  ℕ, zero, suc, ◌+◌, ◌-◌, ◌*◌, ◌^◌, ◌≤◌, ◌<◌, min, List, [], ◌∷◌, Bool, true, false, not, ◌||◌, ◌≡◌,
  refl, ap, sym, ◌∙◌, ◌⊎◌, inl, inr, arith, leb, if◌then◌else◌, Option, none, some, get_or, Result,
  ok, err, length, All, Bool-cases,
}

pub record RetryOptions (E : Type 0) : Type 0 where
  pub max_retries : Option ℕ
  pub base_delay_ms : Option ℕ
  pub max_backoff_ms : Option ℕ  -- `none` for an infinite, negative or missing bound
  pub is_transient : E → Bool

abbrev pub default_max_retries : ℕ
default_max_retries = 6

abbrev pub default_base_delay_ms : ℕ
default_base_delay_ms = 250

-- `Math.min(computedBackoffMs, maxBackoffMs)`
abbrev pub bounded : ℕ → Option ℕ → ℕ
bounded computed none = computed
bounded computed (some bound) = min computed bound

-- What a run of the loop did: its result, the number of calls and the delays between them.
pub record Run (E A : Type 0) : Type 0 where
  pub result : Result E A
  pub calls : ℕ
  pub delays : List ℕ

module _ {E A : Type 0} (fn : ℕ → Result E A) (options : RetryOptions E) (jitter : ℕ → ℕ) where
  abbrev pub backoff_ms : ℕ → ℕ
  backoff_ms attempt =
      bounded (get_or options.base_delay_ms default_base_delay_ms * (2 ^ attempt) + jitter attempt)
        options.max_backoff_ms

  abbrev add_delay : ℕ → Option (Run E A) → Option (Run E A)
  add_delay delay none = none
  add_delay delay (some r) = some (record r { delays = delay ∷ r.delays })

  -- The loop from an attempt on; `none` is a run that the fuel does not cover.
  unfoldable pub retry_from : (fuel : ℕ) → (attempt : ℕ) → Option (Run E A)
  retry_from zero attempt = none
  retry_from (suc fuel) attempt =
      let rest = retry_from fuel (suc attempt) in
      elim (fn attempt) [
        | ok a ↦ some (record { result = ok a; calls = suc attempt; delays = [] })
        | err e ↦
            if not (options.is_transient e)
              || leb (get_or options.max_retries default_max_retries) attempt
            then some (record { result = err e; calls = suc attempt; delays = [] })
            else add_delay (backoff_ms attempt) rest
      ]

  unfoldable pub with_retry : Option (Run E A)
  unfolding retry_from
  with_retry = retry_from (suc (get_or options.max_retries default_max_retries)) 0

  -- The outcome of a run that made `calls` calls from an attempt on: the last call's, all others
  -- having thrown a transient error, and it is no transient error unless no retry is left.
  pub record IsRun (attempt : ℕ) (r : Run E A) : Type 0 where
    pub started : suc attempt ≤ r.calls
    pub bounded_calls : r.calls ≤ suc (get_or options.max_retries default_max_retries)
    pub count : r.calls ≡ suc attempt + length r.delays
    pub last : (n : ℕ) → suc n ≡ r.calls → fn n ≡ r.result
    pub earlier :
        (i : ℕ)
        → attempt ≤ i
        → suc i < r.calls
        → (e : E) × (fn i ≡ err e) × (options.is_transient e ≡ true)
    pub spent :
        (e : E)
        → r.result ≡ err e
        → options.is_transient e ≡ true
        → r.calls ≡ suc (get_or options.max_retries default_max_retries)
    pub short : (b : ℕ) → options.max_backoff_ms ≡ some b → All (λ d. d ≤ b) r.delays
