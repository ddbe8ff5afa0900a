-- ===== src/Identity.antt =====
-- src/utils/requestIdentity.ts: the user and the namespace of a request, from its headers and its
-- address. An absent header is `none`.
pub mod Namespace
mod Tests
use ydb_qdrant.Prelude.{
  ℕ, List, [], ◌∷◌, ◌++◌, if◌then◌else◌, Option, none, some, Result, ok, err, ◌>>=◌,
}
use ydb_qdrant.Text.{Text, codes, trim, is_empty}
use ydb_qdrant.Tenant.{
  IdentityError, sanitize_tenant_id, sanitize_user_uid, derive_user_uid_from_api_key,
  derive_anonymous_user_uid,
}

pub record RequestHead : Type 0 where
  pub api_key : Option Text
  pub ip : Option Text
  pub remote_address : Option Text
  pub user_agent : Option Text
  pub tenant_id : Option Text

-- The trimmed text, if there is anything left.
abbrev non_blank : Option Text → Option Text
non_blank none = none
non_blank (some s) = if is_empty (trim s) then none else some (trim s)

pub get_request_api_key : RequestHead → Option Text
get_request_api_key req = non_blank req.api_key

pub get_request_client_ip : RequestHead → Option Text
get_request_client_ip req = elim (non_blank req.ip) [
  | some ip ↦ some ip
  | none ↦ non_blank req.remote_address
]

module _ (sha256_hex : Text → Text) (to_lower : Text → Text) where
  pub resolve_request_user_uid : RequestHead → Result IdentityError Text
  unfolding get_request_api_key get_request_client_ip
  resolve_request_user_uid req = elim (get_request_api_key req) [
    | some key ↦ derive_user_uid_from_api_key sha256_hex key
    | none ↦
        derive_anonymous_user_uid sha256_hex to_lower (get_request_client_ip req) req.user_agent
  ]

  pub resolve_request_namespace_user_uid : RequestHead → Result IdentityError Text
  unfolding resolve_request_user_uid
  resolve_request_namespace_user_uid req = do
    base ← resolve_request_user_uid req
    ok (sanitize_user_uid (base ++ (codes "_" ++ sanitize_tenant_id req.tenant_id)))

  pub resolve_request_signing_key : RequestHead → Option Text → Result IdentityError Text
  unfolding get_request_api_key resolve_request_user_uid
  resolve_request_signing_key req user_uid = elim (get_request_api_key req) [
    | some key ↦ ok key
    | none ↦ elim (non_blank user_uid) [ some uid ↦ ok uid | none ↦ resolve_request_user_uid req ]
  ]
