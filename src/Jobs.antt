-- ===== src/Jobs.antt =====
-- src/code-indexer/types.ts: the jobs that the webhooks produce and the queue runs. Identifiers,
-- which GitHub issues as positive integers, are natural numbers.
use ydb_qdrant.Prelude.{ℕ, ◌++◌, Bool, Option}
use ydb_qdrant.Text.{Text, codes}
use ydb_qdrant.Text.Decimal.{decimal}

pub record RepositoryRef : Type 0 where
  pub owner : Text
  pub repo : Text
  pub repo_id : ℕ
  pub default_branch : Text

pub record BaseJob : Type 0 where
  pub delivery_id : Option Text
  pub installation_id : ℕ
  pub repository : RepositoryRef

pub record PushDetails : Type 0 where
  pub after : Text
  pub before : Text
  pub created : Bool
  pub deleted : Bool
  pub forced : Bool
  pub ref : Text

pub record PullRequestDetails : Type 0 where
  pub base_ref : Text
  pub head_ref : Text
  pub head_sha : Text
  pub pr_number : ℕ
  pub source_repository : RepositoryRef

pub data JobKind : Type 0 where
  full_index : (reason ref : Text) (sha : Option Text) → JobKind
  incremental_push : PushDetails → JobKind
  delete_repo_index : (reason : Text) → JobKind
  pr_index : PullRequestDetails → JobKind
  delete_pr_index : (pr_number : ℕ) (reason : Text) → JobKind

pub record IndexingJob : Type 0 where
  pub base : BaseJob
  pub open base use *
  pub kind : JobKind

-- `${installationId}/${repoId}`
unfoldable pub repo_key : ℕ → ℕ → Text
repo_key installation_id repo_id = decimal installation_id ++ (codes "/" ++ decimal repo_id)

unfoldable pub repo_key_for_job : IndexingJob → Text
unfolding repo_key
repo_key_for_job job = repo_key job.installation_id job.repository.repo_id
