-- ===== src/Webhooks/Fallback.antt =====
-- The signature check of src/code-indexer/webhookSignature.ts, and the jobs of a delivery with the
-- fallback of `jobsForWebhook` in src/code-indexer/webhooks.ts, which asks the stores for the
-- repositories that the payload does not list. What the callees do is in `Deps`.
use ydb_qdrant.Prelude.{
  ℕ, List, [], ◌∷◌, ◌++◌, Bool, true, false, not, ◌||◌, ◌==◌, if◌then◌else◌, Option, none, some,
  get_or, map, filter, length,
}
use ydb_qdrant.Prelude.Options.{◌>>=◌, ◌>>◌, guard, cat_some}
use ydb_qdrant.Text.{Text, codes, text_eq, is_empty, trim, starts_with}
use ydb_qdrant.Json.{Json, get, is_record, as_text}
use ydb_qdrant.Jobs.{RepositoryRef, JobKind, IndexingJob}
use ydb_qdrant.Queue.{DeliveryStore}
use ydb_qdrant.Webhooks.Payload.{read_installation_id, Account}
use ydb_qdrant.Webhooks.Mapping.{
  map_webhook_to_jobs, jobs_of, full_index_of, delete_of, installation_deleted,
  installation_unsuspended,
}

-- `hmac secret body` is the hexadecimal HMAC-SHA-256. It is ASCII, so the UTF-8 buffers that the
-- source compares are equal exactly if the texts are.
module _ (hmac : Text → Text → Text) where
  unfoldable pub create_webhook_signature : Text → Text → Text
  create_webhook_signature secret body = codes "sha256=" ++ hmac secret body

  unfoldable pub verify_webhook_signature : Text → Text → Option Text → Bool
  unfolding create_webhook_signature trim
  verify_webhook_signature body secret none = false
  verify_webhook_signature body secret (some raw) =
      let header = trim raw in
      let expected = create_webhook_signature secret body in
      if is_empty header || not (starts_with (codes "sha256=") header)
      then false
      else if not (length header == length expected)
      then false
      else text_eq header expected

-- `repoId` is a number or a text.
pub data RepoId : Type 0 where
  number : ℕ → RepoId
  text : Text → RepoId

pub record StoredRepository : Type 0 where
  pub default_branch : Text
  pub owner : Text
  pub repo : Text
  pub repo_id : RepoId
  pub status : Option Text

-- A call of the lifecycle store.
pub data LifecycleCall : Type 0 where
  upsert_installation : (account : Account) (installation_id : ℕ) (status : Text) → LifecycleCall
  upsert_repository :
      (installation_id : ℕ) (repository : RepositoryRef) (status : Text) → LifecycleCall
  mark_repository_status :
      (installation_id : ℕ) (repository : RepositoryRef) (status : Text) → LifecycleCall

pub record LifecycleStore : Type 0 where
  -- Absent, or a query that may throw.
  pub list_repositories : Option (ℕ → Option (List StoredRepository))
  pub succeeds : LifecycleCall → Bool

-- How a call of a store ends. One that throws may have had its effect, as when its answer is lost.
pub data StoreCall : Type 0 where
  works : StoreCall
  fails : (applied : Bool) → StoreCall

abbrev pub returns : StoreCall → Bool
returns works = true
returns (fails applied) = false

abbrev pub takes_effect : StoreCall → Bool
takes_effect works = true
takes_effect (fails applied) = applied

pub record Deps : Type 0 where
  pub atomic : Bool
  -- The calls of the delivery store: `reserve` or, without it, `has`; then `mark` and `release`.
  pub reserve_call : StoreCall
  pub mark_call : StoreCall
  pub release_call : StoreCall
  pub lifecycle_store : Option LifecycleStore
  pub enqueue_succeeds : IndexingJob → Bool
  pub repository_source : Option (ℕ → Option (List RepositoryRef))
  pub webhook_secret : Text
  pub hmac : Text → Text → Text
  pub parse : Text → Option Json
  -- `Number(s)`, where that is a safe integer.
  pub number_of : Text → Option ℕ

pub record State : Type 0 where
  pub deliveries : DeliveryStore
  pub enqueued : List IndexingJob
  pub calls : List LifecycleCall

unfoldable pub fallback_action : Text → Json → Option Text
fallback_action event payload =
    let action = get_or (as_text (get (codes "action") payload)) [] in
    if not (text_eq event (codes "installation")) || not (is_record payload)
    then none
    else if text_eq action (codes "deleted") || text_eq action (codes "unsuspend")
    then some action
    else none

unfoldable pub stored_repository_to_ref :
    (Text → Option ℕ) → StoredRepository → Option RepositoryRef
stored_repository_to_ref number_of r = do
  let id : Option ℕ = elim r.repo_id [ number n ↦ some n | text s ↦ number_of s ]
  n ← id
  guard (not (n == 0))
  some (record { owner = r.owner; repo = r.repo; repo_id = n; default_branch = r.default_branch })

-- `merged.set(key, repository)` on a `Map`: a new key goes last, a known one keeps its place. Distinct
-- numbers have distinct texts as keys.
abbrev pub map_set : RepositoryRef → List RepositoryRef → List RepositoryRef
map_set r [] = r ∷ []
map_set r (s ∷ m) = if s.repo_id == r.repo_id then r ∷ m else s ∷ map_set r m

abbrev pub set_all : List RepositoryRef → List RepositoryRef → List RepositoryRef
set_all m [] = m
set_all m (r ∷ rs) = set_all (map_set r m) rs

unfoldable pub merge_repository_refs : List RepositoryRef → List RepositoryRef → List RepositoryRef
merge_repository_refs stored source = set_all [] (stored ++ source)

abbrev not_deleted : StoredRepository → Bool
not_deleted r = not (text_eq (get_or r.status []) (codes "deleted"))

module _ (deps : Deps) where
  unfoldable pub stored_repositories : Bool → ℕ → Option (List RepositoryRef)
  unfolding stored_repository_to_ref
  stored_repositories unsuspend installation_id = elim deps.lifecycle_store [
    | none ↦ some []
    | some store ↦ elim store.list_repositories [
      | none ↦ some []
      | some list ↦ (do
        stored ← list installation_id
        let kept = filter (λ r. not unsuspend || not_deleted r) stored
        some (cat_some (map (stored_repository_to_ref deps.number_of) kept)))
    ]
  ]

  -- The repositories of the fallback, stored ones first; `none` if a query throws.
  unfoldable pub fallback_repositories : Bool → ℕ → Option (List RepositoryRef)
  unfolding stored_repositories merge_repository_refs
  fallback_repositories unsuspend installation_id = do
    stored ← stored_repositories unsuspend installation_id
    elim deps.repository_source [
      | none ↦ some stored
      | some source ↦
          if unsuspend
          then (do some (merge_repository_refs stored (← source installation_id)))
          else some stored
    ]

  abbrev pub is_nil : List IndexingJob → Bool
  is_nil [] = true
  is_nil (j ∷ js) = false

  -- `none` if a query throws.
  unfoldable pub jobs_for_webhook : Text → Text → Json → Option (List IndexingJob)
  unfolding map_webhook_to_jobs fallback_action fallback_repositories read_installation_id
  jobs_for_webhook delivery_id event payload =
      let jobs = map_webhook_to_jobs delivery_id event payload in
      let fallback : Option (List IndexingJob) = elim (fallback_action event payload) [
        | none ↦ some jobs
        | some action ↦ elim (read_installation_id payload) [
          | none ↦ some jobs
          | some installation_id ↦ (do
            let deleted = text_eq action (codes "deleted")
            repositories ←
                fallback_repositories (text_eq action (codes "unsuspend")) installation_id
            let kind : RepositoryRef → JobKind =
                if deleted
                then delete_of installation_deleted
                else full_index_of installation_unsuspended
            some (jobs_of delivery_id installation_id kind repositories))
        ]
      ] in
      if is_nil jobs then fallback else some jobs
