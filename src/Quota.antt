-- ===== src/Quota.antt =====
-- src/code-indexer/quota.ts. The store counts the uses of a day; a run is its sequence of searches.
pub mod Daily
mod Tests
use ydb_qdrant.Prelude.{
  ℕ, zero, suc, List, [], ◌∷◌, Bool, true, false, leb, if◌then◌else◌, Option, none, some, get_or,
  Result, ok, err,
}
use ydb_qdrant.Text.{Text, codes}

pub data QuotaMetric : Type 0 where
  chunks_per_repo : QuotaMetric
  files_per_repo : QuotaMetric
  repos_per_installation : QuotaMetric
  searches_per_user_per_day : QuotaMetric

pub record QuotaLimits : Type 0 where
  pub chunks_per_repo : ℕ
  pub files_per_repo : ℕ
  pub repos_per_installation : ℕ
  pub searches_per_user_per_day : ℕ

pub record QuotaError : Type 0 where
  pub count : ℕ
  pub limit : ℕ
  pub metric : QuotaMetric
  pub status_code : ℕ

-- `incrementDailyUsage`, with the store's state; `none` is a promise that it rejects.
pub record QuotaStore (S : Type 0) : Type 0 where
  pub increment_daily_usage : Text → Text → S → Option ℕ × S

-- What a call throws.
pub data Denial : Type 0 where
  quota_error : QuotaError → Denial
  store_error : Denial

unfoldable pub assert_within_limit : ℕ → ℕ → QuotaMetric → ℕ → Result Denial (Unit {0})
assert_within_limit count limit metric status_code =
    if leb count limit
    then ok tt
    else err (
        quota_error
          (record { count = count; limit = limit; metric = metric; status_code = status_code }))

unfoldable pub assert_repositories_per_installation : QuotaLimits → ℕ → Result Denial (Unit {0})
assert_repositories_per_installation limits repo_count =
    assert_within_limit repo_count limits.repos_per_installation QuotaMetric.repos_per_installation
      422

unfoldable pub assert_files_per_repo : QuotaLimits → ℕ → Result Denial (Unit {0})
assert_files_per_repo limits file_count =
    assert_within_limit file_count limits.files_per_repo QuotaMetric.files_per_repo 422

unfoldable pub assert_chunks_per_repo : QuotaLimits → ℕ → Result Denial (Unit {0})
assert_chunks_per_repo limits chunk_count =
    assert_within_limit chunk_count limits.chunks_per_repo QuotaMetric.chunks_per_repo 422

abbrev check_search : QuotaLimits → Option ℕ → Result Denial (Unit {0})
check_search limits count =
    assert_within_limit (get_or count 1) limits.searches_per_user_per_day
      QuotaMetric.searches_per_user_per_day 429

abbrev counted : {S : Type 0} → QuotaLimits → Option ℕ × S → Result Denial (Unit {0}) × S
counted limits (none, s) = (err store_error, s)
counted limits (some count, s) = (check_search limits (some count), s)

-- Without a store the count is undefined, which stands for 1.
unfoldable pub record_search :
    {S : Type 0} → QuotaLimits → Option (QuotaStore S) → Text → S → Result Denial (Unit {0}) × S
record_search limits none github_user_id s = (check_search limits none, s)
record_search limits (some store) github_user_id s =
    counted limits (store.increment_daily_usage github_user_id (codes "search") s)

-- The searches of users, one after another, and what each call gives.
pub searches :
    {S : Type 0} → QuotaLimits → QuotaStore S → List Text → S → List (Result Denial (Unit {0}))
searches limits store [] s = []
searches limits store (user ∷ users) s =
    let (result, next) = record_search limits (some store) user s in
    result ∷ searches limits store users next
