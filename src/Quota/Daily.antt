-- ===== src/Quota/Daily.antt =====
-- The daily limit over a sequence of searches.
use ydb_qdrant.Prelude.{
  ℕ, zero, suc, ◌-◌, min, List, [], ◌∷◌, Bool, true, false, ◌≡◌, refl, arith, leb, some, Result, ok,
  err, length, filter,
}
use ydb_qdrant.Text.{Text, codes}
use ydb_qdrant.Quota.{QuotaLimits, QuotaStore, Denial, assert_within_limit, record_search, searches}

-- A store that counts: each use adds one to what the user has used, and is never rejected.
abbrev pub Counts : {S : Type 0} → QuotaStore S → (Text → S → ℕ) → Type 0
Counts {S} store used =
    (user : Text) (s : S)
    → (next : S) × (store.increment_daily_usage user (codes "search") s
        ≡ (some (suc (used user s)), next))
      × (used user next ≡ suc (used user s))

abbrev pub is_ok : Result Denial (Unit {0}) → Bool
is_ok (ok u) = true
is_ok (err e) = false

-- As many searches of one user as a number says.
abbrev pub repeated : Text → ℕ → List Text
repeated user zero = []
repeated user (suc n) = user ∷ repeated user n

-- One search of a store that counts.
record_search-counts :
    {S : Type 0} (limits : QuotaLimits) (store : QuotaStore S) (user : Text) (count : ℕ)
    (s next : S)
    → store.increment_daily_usage user (codes "search") s ≡ (some count, next)
    → ((record_search limits (some store) user s).1 ≡ next)
      × (is_ok (record_search limits (some store) user s).0
          ≡ leb count limits.searches_per_user_per_day)
unfolding record_search assert_within_limit
record_search-counts limits store user count s next e = rw e (refl, ground arith)

-- With a store that counts, of any number of searches that a user makes one after another exactly
-- as many are accepted as the daily limit leaves from what the user has used, or all if it leaves
-- more.
pub searches-accepted :
    {S : Type 0} (limits : QuotaLimits) (store : QuotaStore S) (used : Text → S → ℕ)
    → Counts store used
    → (user : Text) (n : ℕ) (s : S)
    → length (filter is_ok (searches limits store (repeated user n) s))
      ≡ min n (limits.searches_per_user_per_day - used user s)
unfolding searches
searches-accepted limits store used counts user zero s = omega arith
searches-accepted limits store used counts user (suc n) s =
    let (next, e, u) = counts user s in
    let ih = searches-accepted limits store used counts user n next in
    let (after, accepted) = record_search-counts limits store user (suc (used user s)) s next e in
    rw (after, accepted) (ground (arith, ih, u))
