-- ===== src/Access/Tests.antt =====
-- The access checks at a store with one user, one installation and one repository.
use ydb_qdrant.Prelude.{[], ◌∷◌, false, ◌≡◌, ◌↔◌, refl, some, ok}
use ydb_qdrant.Text.{codes}
use ydb_qdrant.Access.{
  AccessStore, AccessContext, RepositoryRecord, InstallationRecord, ready, is_deleted,
  resolve_dashboard_session, read_session_cookie, require_repository_access,
  require_installation_access,
}
use ydb_qdrant.Access.Agreement.{require_repository_access-require_installation_access}

abbrev octo_repo : RepositoryRecord
octo_repo = record {
  default_branch = codes "main";
  installation_id = codes "11";
  owner = codes "octo";
  repo = codes "repo";
  repo_id = codes "5";
  status = ready;
}

abbrev store : AccessStore
store = record {
  get_github_user = λ id. some (record { github_user_id = id; login = codes "octocat" });
  get_repository = λ id. some octo_repo;
  get_session = λ id. some (record { github_user_id = codes "7"; session_id = id });
  list_installations_for_user =
      λ id. record { installation_id = codes "11"; status = codes "active" } ∷ [];
}

abbrev context : AccessContext
context = record { session_id = codes "s1"; github_user_id = codes "7"; login = codes "octocat" }

session :
    resolve_dashboard_session (λ t. some t) (some (codes "a=b; __Host-ydbqci_session=s1")) store
    ≡ ok context
unfolding resolve_dashboard_session read_session_cookie
session = refl

granted : require_repository_access context (codes "5") store ≡ ok octo_repo
unfolding require_repository_access
granted = refl

require_repository_access-require_installation_access_example :
    (require_repository_access context (codes "5") store ≡ ok octo_repo) ↔ (
      (some octo_repo ≡ some octo_repo)
      × (is_deleted octo_repo.status ≡ false)
      × ((installation : InstallationRecord) × (require_installation_access context
              octo_repo.installation_id store
            ≡ ok installation)))
require_repository_access-require_installation_access_example =
    require_repository_access-require_installation_access context store (codes "5") octo_repo
