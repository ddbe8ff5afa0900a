-- ===== src/Webhooks/Mapping/Origin.antt =====
-- Where the jobs of a delivery come from.
use ydb_qdrant.Prelude.{
  ℕ, List, [], ◌∷◌, ◌++◌, Bool, true, false, ◌≡◌, refl, inl, inr, arith, if◌then◌else◌, Option,
  none, some, All, All-append, Option-cases,
}
use ydb_qdrant.Prelude.Options.{to_list}
use ydb_qdrant.Text.{Text, codes}
use ydb_qdrant.Text.Laws.{text_eq_iff}
use ydb_qdrant.Json.{Json, get}
use ydb_qdrant.Jobs.{RepositoryRef, PullRequestDetails, JobKind, IndexingJob}
use ydb_qdrant.Webhooks.Payload.{read_repository, read_installation_id, text_or_empty}
use ydb_qdrant.Webhooks.Mapping.{
  push_job, pr_index_job, pull_request_job, check_run_branch_job, check_run_job, jobs_of,
  installation_jobs, installation_repositories_jobs, map_webhook_to_jobs,
}

-- A job for this delivery, installation and repository.
abbrev IsFor : Text → ℕ → RepositoryRef → IndexingJob → Type 0
IsFor d id r j = (j.delivery_id ≡ some d) × (j.installation_id ≡ id) × (j.repository ≡ r)

module _ (d : Text) (id : ℕ) (r : RepositoryRef) (j : IndexingJob) where
  pr_index_job-IsFor :
      (read : Option PullRequestDetails) → pr_index_job d id r read ≡ some j → IsFor d id r j
  unfolding pr_index_job
  pr_index_job-IsFor read h = ground arith

  check_run_branch_job-IsFor :
      (check_run : Json) → check_run_branch_job check_run d id r ≡ some j → IsFor d id r j
  unfolding check_run_branch_job
  check_run_branch_job-IsFor check_run h = ground arith

module _ (payload : Json) (d : Text) where
  -- The job names the delivery and the installation that the payload is about.
  abbrev pub IsOwn : IndexingJob → Type 0
  IsOwn j = (j.delivery_id ≡ some d) × (read_installation_id payload ≡ some j.installation_id)

  push_job-IsOwn : (j : IndexingJob) → push_job payload d ≡ some j → IsOwn j
  unfolding push_job
  push_job-IsOwn j h = ground arith

  pull_request_job-IsOwn : (j : IndexingJob) → pull_request_job payload d ≡ some j → IsOwn j
  unfolding pull_request_job
  pull_request_job-IsOwn j h = grind (arith, pr_index_job-IsFor)

  check_run_job-IsOwn : (j : IndexingJob) → check_run_job payload d ≡ some j → IsOwn j
  unfolding check_run_job
  check_run_job-IsOwn j h = grind (arith, pr_index_job-IsFor, check_run_branch_job-IsFor)

  -- Every job of a list is.
  unfoldable AreOwn : List IndexingJob → Type 0
  AreOwn jobs = All IsOwn jobs

  none-AreOwn : AreOwn []
  unfolding AreOwn
  none-AreOwn = tt

  jobs_of-IsOwn :
      (id : ℕ) (kind : RepositoryRef → JobKind) (rs : List RepositoryRef)
      → read_installation_id payload ≡ some id
      → AreOwn (jobs_of d id kind rs)
  unfolding AreOwn
  jobs_of-IsOwn id kind [] e = tt
  jobs_of-IsOwn id kind (r ∷ rs) e = ((refl, e), jobs_of-IsOwn id kind rs e)

  append-AreOwn : (xs ys : List IndexingJob) → AreOwn xs → AreOwn ys → AreOwn (xs ++ ys)
  unfolding AreOwn
  append-AreOwn xs ys p q = All-append _ xs ys p q

  -- All of both branches, all of the conditional.
  ite-All :
      (b : Bool) (xs ys : List IndexingJob) → AreOwn xs → AreOwn ys → AreOwn (if b then xs else ys)
  ite-All true xs ys p q = p
  ite-All false xs ys p q = q

  installation_jobs-IsOwn : AreOwn (installation_jobs payload d)
  unfolding installation_jobs
  installation_jobs-IsOwn = elim (Option-cases (read_installation_id payload)) [
    | inl e ↦ rw (e, installation_jobs) none-AreOwn
    | inr (id, e) ↦
        (let own : (k : RepositoryRef → JobKind) (rs : List RepositoryRef)
              → AreOwn (jobs_of d id k rs) =
            λ k rs. jobs_of-IsOwn id k rs e in
          rw (e, installation_jobs) (search (ite-All, own, none-AreOwn)))
  ]

  installation_repositories_jobs-IsOwn : AreOwn (installation_repositories_jobs payload d)
  unfolding installation_repositories_jobs
  installation_repositories_jobs-IsOwn = elim (Option-cases (read_installation_id payload)) [
    | inl e ↦ rw (e, installation_repositories_jobs) none-AreOwn
    | inr (id, e) ↦
        rw (e, installation_repositories_jobs)
          (append-AreOwn _ _ (jobs_of-IsOwn id _ _ e) (jobs_of-IsOwn id _ _ e))
  ]

  to_list-IsOwn :
      (o : Option IndexingJob) → ((j : IndexingJob) → o ≡ some j → IsOwn j) → AreOwn (to_list o)
  unfolding AreOwn
  to_list-IsOwn none f = tt
  to_list-IsOwn (some j) f = (f j refl, tt)

  map_webhook_to_jobs-AreOwn : (event : Text) → AreOwn (map_webhook_to_jobs d event payload)
  unfolding map_webhook_to_jobs
  map_webhook_to_jobs-AreOwn event =
      let push : AreOwn (to_list (push_job payload d)) = to_list-IsOwn _ push_job-IsOwn in
      let pr : AreOwn (to_list (pull_request_job payload d)) =
        to_list-IsOwn _ pull_request_job-IsOwn in
      let check : AreOwn (to_list (check_run_job payload d)) =
        to_list-IsOwn _ check_run_job-IsOwn in
      search (ite-All, installation_jobs-IsOwn, installation_repositories_jobs-IsOwn, none-AreOwn)
        depth 9

  AreOwn-All : (jobs : List IndexingJob) → AreOwn jobs → All IsOwn jobs
  unfolding AreOwn
  AreOwn-All jobs own = own

  -- Every job that a delivery is mapped to, whatever the event and the payload, carries the id of
  -- that delivery and the installation id that the payload states.
  pub map_webhook_to_jobs-IsOwn : (event : Text) → All IsOwn (map_webhook_to_jobs d event payload)
  map_webhook_to_jobs-IsOwn event = AreOwn-All _ (map_webhook_to_jobs-AreOwn event)

  -- A push makes a job only if the ref it names is the default branch of the repository that the
  -- payload describes, and then the job is about that repository.
  pub push_job-default_branch :
      (j : IndexingJob)
      → push_job payload d ≡ some j
      → (read_repository (get (codes "repository") payload) ≡ some j.repository)
        × (text_or_empty (get (codes "ref") payload)
            ≡ codes "refs/heads/" ++ j.repository.default_branch)
  unfolding push_job
  push_job-default_branch j h = grind (arith, text_eq_iff)
