-- ===== src/Identity/Tests.antt =====
-- The theorems on namespaces at concrete requests. The digest here is a constant; the source's is
-- SHA-256.
use ydb_qdrant.Prelude.{◌++◌, ◌≡◌, refl, arith, ok, some, none}
use ydb_qdrant.Text.{Text, codes}
use ydb_qdrant.Tenant.{sanitize_tenant_id, sanitize_user_uid, derive_user_uid_from_api_key}
use ydb_qdrant.Tenant.Uid.{IsDigest}
use ydb_qdrant.Identity.{RequestHead, resolve_request_user_uid, resolve_request_namespace_user_uid}
use ydb_qdrant.Identity.Namespace.{resolve_request_namespace_user_uid_lem, namespace_injective}

abbrev digest_of : Text → Text
digest_of s = codes "0123456789abcdef"

abbrev same_text : Text → Text
same_text s = s

digest_of-IsDigest : IsDigest digest_of
digest_of-IsDigest = record { digits = λ s. ground arith; long = λ s. ground arith }

abbrev keyed : RequestHead
keyed = record {
  api_key = some (codes " secret ");
  ip = none;
  remote_address = none;
  user_agent = none;
  tenant_id = some (codes "Team A");
}

abbrev keyed_again : RequestHead
keyed_again = record {
  api_key = some (codes "secret");
  ip = some (codes "10.0.0.1");
  remote_address = none;
  user_agent = none;
  tenant_id = some (codes "team-a");
}

abbrev keyed_uid : Text
keyed_uid = codes "ak_0123456789abcdef"

resolved : resolve_request_user_uid digest_of same_text keyed ≡ ok keyed_uid
unfolding resolve_request_user_uid derive_user_uid_from_api_key
resolved = refl

resolved_again : resolve_request_user_uid digest_of same_text keyed_again ≡ ok keyed_uid
unfolding resolve_request_user_uid derive_user_uid_from_api_key
resolved_again = refl

resolve_request_namespace_user_uid_lem_example :
    resolve_request_namespace_user_uid digest_of same_text keyed
    ≡ ok (keyed_uid ++ (codes "_" ++ sanitize_tenant_id (some (codes "Team A"))))
resolve_request_namespace_user_uid_lem_example =
    resolve_request_namespace_user_uid_lem digest_of same_text digest_of-IsDigest keyed keyed_uid
      resolved

same_namespace :
    resolve_request_namespace_user_uid digest_of same_text keyed
    ≡ resolve_request_namespace_user_uid digest_of same_text keyed_again
unfolding resolve_request_namespace_user_uid derive_user_uid_from_api_key sanitize_tenant_id
    sanitize_user_uid
same_namespace = refl

namespace_injective_example :
    (keyed_uid ≡ keyed_uid)
    × (sanitize_tenant_id (some (codes "Team A")) ≡ sanitize_tenant_id (some (codes "team-a")))
namespace_injective_example =
    namespace_injective digest_of same_text digest_of-IsDigest keyed keyed_again keyed_uid keyed_uid
      resolved resolved_again same_namespace
