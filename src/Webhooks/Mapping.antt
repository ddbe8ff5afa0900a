-- ===== src/Webhooks/Mapping.antt =====
-- `mapWebhookToJobs` of src/code-indexer/webhooks.ts. A function of the source that returns `[]` or
-- one job is a chain of early returns here.
pub mod Origin
use ydb_qdrant.Prelude.{
  ℕ, List, [], ◌∷◌, ◌++◌, Bool, true, false, not, ◌&&◌, ◌||◌, if◌then◌else◌, Option, none, some,
  get_or, map,
}
use ydb_qdrant.Prelude.Options.{◌>>=◌, ◌>>◌, guard, to_list}
use ydb_qdrant.Text.{Text, codes, text_eq, is_empty, includes}
use ydb_qdrant.Json.{
  Json, null, obj, no_prop, get, is_record, as_record, as_text, as_num, as_list, is_true,
}
use ydb_qdrant.Jobs.{
  RepositoryRef, BaseJob, PushDetails, PullRequestDetails, JobKind, full_index, incremental_push,
  delete_repo_index, pr_index, delete_pr_index, IndexingJob,
}
use ydb_qdrant.Webhooks.Payload.{
  is_sha, read_repository, read_installation_id, read_repository_list, text_or_empty,
}

abbrev pub job_for : Text → ℕ → RepositoryRef → JobKind → IndexingJob
job_for delivery_id installation_id repository kind = record {
  base = record {
    delivery_id = some delivery_id;
    installation_id = installation_id;
    repository = repository;
  };
  kind = kind;
}

unfoldable pub push_job : Json → Text → Option IndexingJob
push_job payload delivery_id = do
  guard (is_record payload)
  installation_id ← read_installation_id payload
  repository ← read_repository (get (codes "repository") payload)
  let ref = text_or_empty (get (codes "ref") payload)
  guard (text_eq ref (codes "refs/heads/" ++ repository.default_branch))
  let after = text_or_empty (get (codes "after") payload)
  let deleted = is_true (get (codes "deleted") payload)
  if deleted
      then some (
          job_for delivery_id installation_id repository
            (delete_repo_index (codes "default-branch-deleted")))
      else (do
        guard (not (is_empty after))
        some (
            job_for delivery_id installation_id repository (
              incremental_push (record {
                after = after;
                before = text_or_empty (get (codes "before") payload);
                created = is_true (get (codes "created") payload);
                deleted = deleted;
                forced = is_true (get (codes "forced") payload);
                ref = ref;
              }))))

-- `isRecord(value) ? value : {}`
abbrev record_or_empty : Option Json → Json
record_or_empty v = get_or (as_record v) (obj no_prop)

-- The index details of an opened, reopened or synchronised pull request.
unfoldable pub pull_request_details : RepositoryRef → Json → ℕ → Text → Option PullRequestDetails
pull_request_details repository pr number action = do
  let head = record_or_empty (get (codes "head") pr)
  let base = record_or_empty (get (codes "base") pr)
  let head_ref = text_or_empty (get (codes "ref") head)
  let head_sha = text_or_empty (get (codes "sha") head)
  guard (includes action (codes "opened" ∷ codes "reopened" ∷ codes "synchronize" ∷ []))
  guard (not (is_empty head_ref || is_empty head_sha))
  some (record {
    base_ref = text_or_empty (get (codes "ref") base);
    head_ref = head_ref;
    head_sha = head_sha;
    pr_number = number;
    source_repository = get_or (read_repository (get (codes "repo") head)) repository;
  })

-- `{ ...commonPrJob, type: "pr-index", ... }`
unfoldable pub pr_index_job :
    Text → ℕ → RepositoryRef → Option PullRequestDetails → Option IndexingJob
pr_index_job delivery_id installation_id repository read = do
  details ← read
  some (job_for delivery_id installation_id repository (pr_index details))

unfoldable pub pull_request_job : Json → Text → Option IndexingJob
pull_request_job payload delivery_id = do
  pr ← as_record (get (codes "pull_request") payload)
  installation_id ← read_installation_id payload
  repository ← read_repository (get (codes "repository") payload)
  let action = text_or_empty (get (codes "action") payload)
  number ← as_num (get (codes "number") pr)
  if text_eq action (codes "closed")
      then some (
          job_for delivery_id installation_id repository
            (delete_pr_index number (codes "pull-request-closed")))
      else pr_index_job delivery_id installation_id repository
          (pull_request_details repository pr number action)

abbrev first_record : List Json → Option Json
first_record [] = none
first_record (v ∷ vs) = if is_record v then some v else first_record vs

-- `typeof head.sha === "string" ? head.sha : checkRun.head_sha`, if that is a string
abbrev text_or : Option Json → Option Json → Option Text
text_or v w = elim (as_text v) [ some s ↦ some s | none ↦ as_text w ]

unfoldable pub check_run_details : Json → RepositoryRef → Option PullRequestDetails
check_run_details check_run repository = do
  pr ← first_record (get_or (as_list (get (codes "pull_requests") check_run)) [])
  let head = record_or_empty (get (codes "head") pr)
  let base = record_or_empty (get (codes "base") pr)
  let head_ref = text_or_empty (get (codes "ref") head)
  let base_ref = text_or_empty (get (codes "ref") base)
  number ← as_num (get (codes "number") pr)
  guard (not (is_empty head_ref || is_empty base_ref))
  head_sha ← text_or (get (codes "sha") head) (get (codes "head_sha") check_run)
  guard (is_sha head_sha)
  some (record {
    base_ref = base_ref;
    head_ref = head_ref;
    head_sha = head_sha;
    pr_number = number;
    source_repository = get_or (read_repository (get (codes "repo") head)) repository;
  })

abbrev pub read_check_run_pr_job : Json → Text → ℕ → RepositoryRef → Option IndexingJob
read_check_run_pr_job check_run delivery_id installation_id repository =
    pr_index_job delivery_id installation_id repository (check_run_details check_run repository)

-- The re-run of a check run that names no pull request: the default branch at its commit.
unfoldable pub check_run_branch_job : Json → Text → ℕ → RepositoryRef → Option IndexingJob
check_run_branch_job check_run delivery_id installation_id repository = do
  let head_sha = text_or_empty (get (codes "head_sha") check_run)
  let check_suite = record_or_empty (get (codes "check_suite") check_run)
  head_branch ←
      text_or (get (codes "head_branch") check_run) (get (codes "head_branch") check_suite)
  guard (text_eq head_branch repository.default_branch)
  guard (is_sha head_sha)
  some (
      job_for delivery_id installation_id repository
        (full_index (codes "check-run-rerequested") repository.default_branch (some head_sha)))

abbrev pub check_run_name : Text
check_run_name = codes "YDB Qdrant Code Index"

-- `a ?? b` on jobs.
abbrev pub or_job : Option IndexingJob → Option IndexingJob → Option IndexingJob
or_job (some j) o = some j
or_job none o = o

unfoldable pub check_run_job : Json → Text → Option IndexingJob
check_run_job payload delivery_id = do
  check_run ← as_record (get (codes "check_run") payload)
  guard (text_eq (text_or_empty (get (codes "action") payload)) (codes "rerequested"))
  installation_id ← read_installation_id payload
  repository ← read_repository (get (codes "repository") payload)
  name ← as_text (get (codes "name") check_run)
  guard (text_eq name check_run_name)
  or_job (read_check_run_pr_job check_run delivery_id installation_id repository)
      (check_run_branch_job check_run delivery_id installation_id repository)

abbrev pub full_index_of : Text → RepositoryRef → JobKind
full_index_of reason r = full_index reason r.default_branch none

abbrev pub delete_of : Text → RepositoryRef → JobKind
delete_of reason r = delete_repo_index reason

-- A job for each repository of a list.
abbrev pub jobs_of : Text → ℕ → (RepositoryRef → JobKind) → List RepositoryRef → List IndexingJob
jobs_of delivery_id installation_id kind = map (λ r. job_for delivery_id installation_id r (kind r))

abbrev pub installation_deleted : Text
installation_deleted = codes "installation-deleted"

abbrev pub installation_unsuspended : Text
installation_unsuspended = codes "installation-unsuspended"

-- `typeof payload.action === "string" ? payload.action : fallback`
abbrev pub action_or : Text → Json → Text
action_or fallback payload = get_or (as_text (get (codes "action") payload)) fallback

unfoldable pub installation_jobs : Json → Text → List IndexingJob
installation_jobs payload delivery_id = elim (read_installation_id payload) [
  | none ↦ []
  | some installation_id ↦
      (let action = action_or (codes "created") payload in
        let repositories = read_repository_list payload (codes "repositories") in
        let jobs = jobs_of delivery_id installation_id in
        if text_eq action (codes "suspend")
        then []
        else if text_eq action (codes "deleted")
        then jobs (delete_of installation_deleted) repositories
        else if text_eq action (codes "unsuspend")
        then jobs (full_index_of installation_unsuspended) repositories
        else if not (text_eq action (codes "created"))
        then []
        else jobs (full_index_of (codes "installation")) repositories)
]

unfoldable pub installation_repositories_jobs : Json → Text → List IndexingJob
installation_repositories_jobs payload delivery_id = elim (read_installation_id payload) [
  | none ↦ []
  | some installation_id ↦
      jobs_of delivery_id installation_id (full_index_of (codes "installation-repositories-added"))
        (read_repository_list payload (codes "repositories_added"))
      ++ jobs_of delivery_id installation_id (delete_of (codes "installation-repositories-removed"))
          (read_repository_list payload (codes "repositories_removed"))
]

unfoldable pub map_webhook_to_jobs : Text → Text → Json → List IndexingJob
map_webhook_to_jobs delivery_id event payload =
    if text_eq event (codes "installation")
    then installation_jobs payload delivery_id
    else if text_eq event (codes "installation_repositories")
    then installation_repositories_jobs payload delivery_id
    else if text_eq event (codes "push")
    then to_list (push_job payload delivery_id)
    else if text_eq event (codes "pull_request")
    then to_list (pull_request_job payload delivery_id)
    else if text_eq event (codes "check_run")
    then to_list (check_run_job payload delivery_id)
    else []
