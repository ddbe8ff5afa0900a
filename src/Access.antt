-- ===== src/Access.antt =====
-- src/code-indexer/accessControl.ts, with the session cookie of src/code-indexer/auth.ts and the
-- records of src/code-indexer/saasStore.ts that it reads. The store is four queries.
pub mod Agreement
mod Tests
use ydb_qdrant.Prelude.{
  ℕ, List, [], ◌∷◌, Bool, true, false, not, ◌&&◌, ◌||◌, if◌then◌else◌, Option, none, some, map, any,
  Result, ok, err,
}
use ydb_qdrant.Prelude.Options.{and_then}
use ydb_qdrant.Text.{Text, codes, text_eq, is_empty, trim, split_on, join}

pub record StoredGithubUser : Type 0 where
  pub github_user_id : Text
  pub login : Text

pub record Session : Type 0 where
  pub github_user_id : Text
  pub session_id : Text

pub record InstallationRecord : Type 0 where
  pub installation_id : Text
  pub status : Text

pub data RepositoryStatus : Type 0 where
  queued : RepositoryStatus
  indexing : RepositoryStatus
  ready : RepositoryStatus
  failed : RepositoryStatus
  deleted : RepositoryStatus

pub record RepositoryRecord : Type 0 where
  pub default_branch : Text
  pub installation_id : Text
  pub owner : Text
  pub repo : Text
  pub repo_id : Text
  pub status : RepositoryStatus

pub record AccessStore : Type 0 where
  pub get_github_user : Text → Option StoredGithubUser
  pub get_repository : Text → Option RepositoryRecord
  pub get_session : Text → Option Session
  pub list_installations_for_user : Text → List InstallationRecord

pub record AccessContext : Type 0 where
  pub session_id : Text
  pub github_user_id : Text
  pub login : Text

-- The errors, by the `code` and the `statusCode` that each has.
pub data AccessError : Type 0 where
  unauthenticated : AccessError  -- 401
  installation_forbidden : AccessError  -- 403, `github_installation_forbidden`
  repository_forbidden : AccessError  -- 403, `github_repository_forbidden`

abbrev pub status_code : AccessError → ℕ
status_code unauthenticated = 401
status_code installation_forbidden = 403
status_code repository_forbidden = 403

abbrev session_cookie : Text
session_cookie = codes "__Host-ydbqci_session"

-- `decode` is `decodeURIComponent`, `none` where it throws.
module _ (decode : Text → Option Text) where
  cookie_in : Text → List Text → Option Text
  cookie_in cookie_name [] = none
  cookie_in cookie_name (part ∷ parts) =
      let later = cookie_in cookie_name parts in
      elim (split_on b'=' (trim part)) [
        | [] ↦ later
        | name ∷ rest ↦ if text_eq name cookie_name then decode (join (b'=' ∷ []) rest) else later
      ]

  unfoldable pub read_session_cookie : Option Text → Option Text
  unfolding cookie_in trim split_on join
  read_session_cookie none = none
  read_session_cookie (some cookie_header) =
      if is_empty cookie_header
      then none
      else cookie_in session_cookie (split_on b';' cookie_header)

  -- `if (!sessionId)` refuses an empty id too.
  unfoldable pub resolve_dashboard_session :
      Option Text → AccessStore → Result AccessError AccessContext
  resolve_dashboard_session cookie_header store = elim (read_session_cookie cookie_header) [
    | none ↦ err unauthenticated
    | some session_id ↦
        if is_empty session_id then err unauthenticated else elim (store.get_session session_id) [
          | none ↦ err unauthenticated
          | some session ↦ elim (store.get_github_user session.github_user_id) [
            | none ↦ err unauthenticated
            | some user ↦ ok (record {
              session_id = session_id;
              github_user_id = user.github_user_id;
              login = user.login;
            })
          ]
        ]
  ]

abbrev pub is_active_installation : InstallationRecord → Bool
is_active_installation installation = text_eq installation.status (codes "active")

abbrev pub find {ℓ} : {A : Type ℓ} → (A → Bool) → List A → Option A
find p [] = none
find p (x ∷ xs) = if p x then some x else find p xs

-- The test that both lookups make of an installation.
abbrev pub grants : Text → InstallationRecord → Bool
grants installation_id candidate =
    text_eq candidate.installation_id installation_id && is_active_installation candidate

unfoldable pub require_installation_access :
    AccessContext → Text → AccessStore → Result AccessError InstallationRecord
require_installation_access context installation_id store =
    elim (find (grants installation_id)
      (store.list_installations_for_user context.github_user_id)) [
        | none ↦ err installation_forbidden
        | some installation ↦ ok installation
      ]

abbrev pub is_deleted : RepositoryStatus → Bool
is_deleted deleted = true
is_deleted _ = false

unfoldable pub require_repository_access :
    AccessContext → Text → AccessStore → Result AccessError RepositoryRecord
require_repository_access context repo_id store = elim (store.get_repository repo_id) [
  | none ↦ err repository_forbidden
  | some repository ↦
      if is_deleted repository.status
      then err repository_forbidden
      else if not (
          any (grants repository.installation_id)
            (store.list_installations_for_user context.github_user_id))
      then err repository_forbidden
      else ok repository
]
