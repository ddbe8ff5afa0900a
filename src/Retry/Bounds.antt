-- ===== src/Retry/Bounds.antt =====
-- How often `withRetry` calls, and how long it waits.
use ydb_qdrant.Prelude.{
  ℕ, zero, suc, ◌+◌, ◌≤◌, ◌<◌, [], ◌∷◌, true, ◌≡◌, refl, ◌⊎◌, inl, inr, arith, leb, Option, some,
  get_or, Result, ok, err, Bool-cases, ◌==◌, leb→le,
}
use ydb_qdrant.Retry.{
  RetryOptions, Run, IsRun, retry_from, with_retry, default_max_retries, backoff_ms,
}

Result-cases : {E A : Type 0} (o : Result E A) → ((a : A) × (o ≡ ok a)) ⊎ ((e : E) × (o ≡ err e))
Result-cases (ok a) = inl (a, refl)
Result-cases (err e) = inr (e, refl)

module _ {E A : Type 0} (fn : ℕ → Result E A) (options : RetryOptions E) (jitter : ℕ → ℕ) where
  abbrev limit : ℕ
  limit = get_or options.max_retries default_max_retries

  abbrev HasRun : ℕ → Option (Run E A) → Type 0
  HasRun attempt o = (r : Run E A) × (o ≡ some r) × IsRun fn options jitter attempt r

  backoff-bounded :
      (attempt b : ℕ) → options.max_backoff_ms ≡ some b → backoff_ms fn options jitter attempt ≤ b
  backoff-bounded attempt b e = rw e (omega arith)

  -- The call ends the loop.
  ends :
      (attempt : ℕ) (result : Result E A)
      → fn attempt ≡ result
      → attempt ≤ limit
      → ((e : E) → result ≡ err e → options.is_transient e ≡ true → limit ≤ attempt)
      → IsRun fn options jitter attempt
          (record { result = result; calls = suc attempt; delays = [] })
  ends attempt result e le stop = record {
    started = omega arith;
    bounded_calls = omega arith;
    count = omega arith;
    last = λ n q. (let same : n ≡ attempt = omega arith in rw same e);
    earlier = λ i ge lt. (let no : ⊥ = omega arith in elim no [ ]);
    spent = λ x h t. omega (arith, stop x h t);
    short = λ b h. tt;
  }

  -- The call throws a transient error and the loop goes on.
  goes_on :
      (attempt : ℕ) (e : E) (r : Run E A)
      → fn attempt ≡ err e
      → options.is_transient e ≡ true
      → IsRun fn options jitter (suc attempt) r
      → IsRun fn options jitter attempt
          (record r { delays = backoff_ms fn options jitter attempt ∷ r.delays })
  goes_on attempt e r h t run = record {
    started = omega (arith, run.started);
    bounded_calls = run.bounded_calls;
    count = omega (arith, run.count);
    last = run.last;
    earlier = λ i ge lt. earlier i ge lt;
    spent = run.spent;
    short = λ b bound. (backoff-bounded attempt b bound, run.short b bound);
  }
    where
      earlier :
          (i : ℕ)
          → attempt ≤ i
          → suc i < r.calls
          → (x : E) × (fn i ≡ err x) × (options.is_transient x ≡ true)
      earlier i ge lt = elim (Bool-cases (i == attempt)) [
        | inl q ↦ (let same : i ≡ attempt = ground arith in (e, rw same h, t))
        | inr q ↦ (let later : suc attempt ≤ i = ground arith in run.earlier i later lt)
      ]

  retry_from-HasRun :
      (fuel attempt : ℕ)
      → suc limit ≡ fuel + attempt
      → attempt ≤ limit
      → HasRun attempt (retry_from fn options jitter fuel attempt)
  unfolding retry_from
  retry_from-HasRun zero attempt f le = (let no : ⊥ = omega arith in elim no [ ])
  retry_from-HasRun (suc fuel) attempt f le = elim (Result-cases (fn attempt)) [
    | inl (a, h) ↦ rw (h, retry_from) (ended (ok a) h (λ e q. cc))
    | inr (e, h) ↦ elim (Bool-cases (options.is_transient e)) [
      | inr t ↦ rw (h, retry_from, t) (ended (err e) h (λ x q u. cc))
      | inl t ↦ elim (Bool-cases (leb limit attempt)) [
        | inl l ↦ rw (h, retry_from, t, l) (ended (err e) h (λ x q u. leb→le limit attempt l))
        | inr l ↦
            (let below : attempt < limit = ground arith in
              let (r, eq, run) = retry_from-HasRun fuel (suc attempt) (omega arith) (omega arith) in
              rw (h, retry_from, t, l, eq)
                (
                  record r { delays = backoff_ms fn options jitter attempt ∷ r.delays },
                  refl,
                  goes_on attempt e r h t run,
                ))
      ]
    ]
  ]
    where
      ended :
          (result : Result E A)
          → fn attempt ≡ result
          → ((e : E) → result ≡ err e → options.is_transient e ≡ true → limit ≤ attempt)
          → HasRun attempt (some (record { result = result; calls = suc attempt; delays = [] }))
      ended result e stop = (
        record { result = result; calls = suc attempt; delays = [] },
        refl,
        ends attempt result e le stop,
      )

  -- Whatever the attempts give, withRetry ends: it returns or throws what its last call did, all
  -- calls before threw a transient error, it makes one call more than it waits and at most
  -- maxRetries + 1, all of them if it throws a transient error, and no wait is over the bound.
  pub with_retry-IsRun :
      (r : Run E A) × (with_retry fn options jitter ≡ some r) × IsRun fn options jitter 0 r
  unfolding with_retry
  with_retry-IsRun = retry_from-HasRun (suc limit) 0 (omega arith) (omega arith)
