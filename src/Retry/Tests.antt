-- ===== src/Retry/Tests.antt =====
-- A call that fails twice and then returns.
use ydb_qdrant.Prelude.{ℕ, zero, suc, true, ◌≡◌, some, Result, ok, err}
use ydb_qdrant.Retry.{RetryOptions, Run, IsRun, with_retry}
use ydb_qdrant.Retry.Bounds.{with_retry-IsRun}

abbrev third_time : ℕ → Result ℕ ℕ
third_time zero = err 1
third_time (suc zero) = err 2
third_time (suc (suc n)) = ok 7

abbrev options : RetryOptions ℕ
options = record {
  max_retries = some 3;
  base_delay_ms = some 10;
  max_backoff_ms = some 15;
  is_transient = λ e. true;
}

abbrev no_jitter : ℕ → ℕ
no_jitter n = 0

with_retry-IsRun_example :
    (r : Run ℕ ℕ) × (with_retry third_time options no_jitter ≡ some r)
    × IsRun third_time options no_jitter 0 r
with_retry-IsRun_example = with_retry-IsRun third_time options no_jitter
