-- ===== src/Tenant.antt =====
-- src/utils/tenant.ts and src/services/CollectionService.shared.ts: the names under which a
-- collection of a user is stored. SHA-256 and the full Unicode case mapping are parameters.
pub mod Clean
pub mod Keys
pub mod Uid
mod Tests
use mathlib.Core.List.{reverse}
use ydb_qdrant.Prelude.{
  ℕ, ◌+◌, List, [], ◌∷◌, ◌++◌, Bool, true, false, not, ◌&&◌, ◌||◌, ◌==◌, leb, ltb, if◌then◌else◌,
  map, length, take, Option, none, some, get_or, Result, ok, err, ◌>>=◌,
}
use ydb_qdrant.Text.{Text, codes, trim, is_empty, drop_while, join, starts_with}

abbrev pub underscore : ℕ
underscore = b'_'

-- `/[a-zA-Z0-9_]/` and `/[a-z0-9_]/` on a code unit
abbrev pub is_word : ℕ → Bool
is_word c =
    (leb b'a' c && leb c b'z')
    || (leb b'A' c && leb c b'Z')
    || (leb b'0' c && leb c b'9')
    || c == underscore

abbrev pub is_ident : ℕ → Bool
is_ident c = (leb b'a' c && leb c b'z') || (leb b'0' c && leb c b'9') || c == underscore

-- `toLowerCase` on the ASCII text that the cleaning leaves.
abbrev pub lower : ℕ → ℕ
lower c = if leb b'A' c && leb c b'Z' then c + 32 else c

abbrev pub starts_under : Text → Bool
starts_under [] = false
starts_under (x ∷ xs) = x == underscore

-- `replace(/_+/g, "_")`
unfoldable pub squeeze : Text → Text
squeeze [] = []
squeeze (x ∷ xs) =
    let rest = squeeze xs in if x == underscore && starts_under xs then rest else x ∷ rest

-- `replace(/[^a-zA-Z0-9_]/g, "_")`
abbrev replace_foreign : (ℕ → Bool) → Text → Text
replace_foreign keep = map (λ c. if keep c then c else underscore)

-- `replace(/^_+/, "")` and `replace(/_+$/, "")`
abbrev strip_start : Text → Text
strip_start = drop_while (λ c. c == underscore)

abbrev strip_end : Text → Text
strip_end s = reverse (strip_start (reverse s))

-- The three steps that each sanitiser repeats: clean, lower, strip.
unfoldable pub sanitize : Text → Text
unfolding squeeze
sanitize name = strip_start (map lower (squeeze (replace_foreign is_word name)))

unfoldable pub or_default : Text → Text → Text
or_default fallback lowered = if is_empty lowered then fallback else lowered

pub sanitize_collection_name : Text → Text
unfolding sanitize or_default
sanitize_collection_name name = or_default (codes "collection") (sanitize name)

unfoldable pub sanitize_user_uid : Text → Text
unfolding sanitize or_default
sanitize_user_uid uid = or_default (codes "anonymous") (sanitize uid)

unfoldable pub sanitize_tenant_id : Option Text → Text
unfolding sanitize or_default
sanitize_tenant_id tenant =
    or_default (codes "default") (sanitize (get_or tenant (codes "default")))

pub meta_key_for : Text → Text → Text
meta_key_for uid collection = uid ++ (codes "/" ++ collection)

pub uid_for : Text → Text → Text
unfolding meta_key_for
uid_for uid collection = meta_key_for uid collection

-- `QdrantServiceError`: a status code and the text of the payload's `error`.
pub data ServiceError : Type 0 where
  service_error : ℕ → Text → ServiceError

abbrev pub unauthorized : ServiceError
unauthorized = service_error 401 (codes "unauthorized")

pub require_and_sanitize_user_uid : Text → Result ServiceError Text
unfolding sanitize trim
require_and_sanitize_user_uid uid =
    if is_empty uid || is_empty (trim uid)
    then err unauthorized
    else (let lowered = sanitize uid in if is_empty lowered then err unauthorized else ok lowered)

pub record CollectionContext : Type 0 where
  pub user_uid : Text
  pub collection : Text
  pub meta_key : Text
  pub uid : Text

pub context_for : Text → Text → CollectionContext
unfolding sanitize_collection_name meta_key_for uid_for
context_for u collection = record {
  user_uid = u;
  collection = sanitize_collection_name collection;
  meta_key = meta_key_for u (sanitize_collection_name collection);
  uid = uid_for u (sanitize_collection_name collection);
}

pub normalize_collection_context : Text → Text → Result ServiceError CollectionContext
unfolding require_and_sanitize_user_uid context_for
normalize_collection_context user collection = do
  u ← require_and_sanitize_user_uid user
  ok (context_for u collection)

pub data IdentityError : Type 0 where
  empty_api_key anonymous_identity : IdentityError

-- `to_lower` is `toLowerCase` on any text.
module _ (to_lower : Text → Text) where
  -- The cut to 32 code units may end in an underscore, which is stripped again.
  pub normalize_user_agent : Option Text → Option Text
  unfolding squeeze trim
  normalize_user_agent none = none
  normalize_user_agent (some ua) =
      let lowered =
        strip_end (strip_start (squeeze (replace_foreign is_ident (to_lower (trim ua))))) in
      let cut = if ltb 32 (length lowered) then strip_end (take 32 lowered) else lowered in
      if is_empty ua || is_empty (trim ua) || is_empty lowered || is_empty cut
      then none
      else some cut

-- `x || d`: the empty string counts as missing.
abbrev or_else : Option Text → Text → Text
or_else none d = d
or_else (some s) d = if is_empty s then d else s

abbrev is_missing : Option Text → Bool
is_missing none = true
is_missing (some s) = is_empty s

-- `sha256_hex` is the hexadecimal SHA-256 digest.
module _ (sha256_hex : Text → Text) where
  unfoldable pub short_hash : Text → Text
  short_hash value = take 16 (sha256_hex value)

  unfoldable pub derive_user_uid_from_api_key : Text → Result IdentityError Text
  unfolding short_hash sanitize_user_uid trim
  derive_user_uid_from_api_key api_key =
      let normalized = trim api_key in
      if is_empty normalized
      then err empty_api_key
      else ok (sanitize_user_uid (codes "ak_" ++ short_hash normalized))

  pub identity_seed : Option Text → Option Text → Text
  unfolding join
  identity_seed ip ua =
      join (codes "|") (or_else ip (codes "unknown_ip") ∷ or_else ua (codes "unknown_ua") ∷ [])

  -- `ua` is the normalised user agent.
  anonymous_uid : Option Text → Option Text → Result IdentityError Text
  unfolding short_hash sanitize_user_uid identity_seed
  anonymous_uid ip ua =
      if is_missing ip && is_missing ua
      then err anonymous_identity
      else ok (sanitize_user_uid (codes "anon_" ++ short_hash (identity_seed ip ua)))

  pub derive_anonymous_user_uid :
      (Text → Text) → Option Text → Option Text → Result IdentityError Text
  unfolding anonymous_uid normalize_user_agent trim
  derive_anonymous_user_uid to_lower client_ip user_agent =
      anonymous_uid (elim client_ip [ none ↦ none | some s ↦ some (trim s) ])
        (normalize_user_agent to_lower user_agent)
