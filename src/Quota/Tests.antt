-- ===== src/Quota/Tests.antt =====
-- Three searches with a limit of two.
use ydb_qdrant.Prelude.{ℕ, suc, ◌-◌, min, ◌≡◌, refl, some, filter, length}
use ydb_qdrant.Text.{codes}
use ydb_qdrant.Quota.{QuotaLimits, QuotaStore, searches}
use ydb_qdrant.Quota.Daily.{Counts, is_ok, repeated, searches-accepted}

abbrev two_a_day : QuotaLimits
two_a_day = record {
  chunks_per_repo = 100;
  files_per_repo = 10;
  repos_per_installation = 1;
  searches_per_user_per_day = 2;
}

-- A store for one user, whose state is the count.
abbrev counter : QuotaStore ℕ
counter = record { increment_daily_usage = λ user metric s. (some (suc s), suc s) }

counter-Counts : Counts counter (λ user s. s)
counter-Counts user s = (suc s, refl, refl)

searches-accepted_example :
    length (filter is_ok (searches two_a_day counter (repeated (codes "7") 3) 0)) ≡ min 3 (2 - 0)
searches-accepted_example =
    searches-accepted two_a_day counter (λ user s. s) counter-Counts (codes "7") 3 0
