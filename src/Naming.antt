-- ===== src/Naming.antt =====
-- src/code-indexer/naming.ts: the names of collections and points. SHA-256 is a parameter.
pub mod Collections
pub mod Points
mod Tests
use mathlib.Core.List.{reverse}
use ydb_qdrant.Prelude.{
  ℕ, [], ◌∷◌, ◌++◌, Bool, false, not, ◌&&◌, ◌==◌, all, drop, length, Option, none, some,
  if◌then◌else◌,
}
use ydb_qdrant.Text.{Text, codes, is_empty, drop_while, starts_with}
use ydb_qdrant.Text.Decimal.{decimal}
use ydb_qdrant.Tenant.{underscore, sanitize}
use ydb_qdrant.Chunker.{CodeChunk}

-- The steps before the last are those of the names of users and collections.
unfoldable pub sanitize_identifier : Text → Text
sanitize_identifier value =
    let lowered = reverse (drop_while (λ c. c == underscore) (reverse (sanitize value))) in
    if is_empty lowered then codes "index" else lowered

unfoldable pub user_uid_for_installation : ℕ → Text
user_uid_for_installation installation_id =
    sanitize_identifier (codes "gh_installation_" ++ decimal installation_id)

unfoldable pub default_branch_collection_for_repo : ℕ → Text
default_branch_collection_for_repo repo_id =
    sanitize_identifier (codes "gh_repo_" ++ (decimal repo_id ++ codes "_default"))

unfoldable pub repo_collection_prefix_for_repo : ℕ → Text
repo_collection_prefix_for_repo repo_id =
    sanitize_identifier (codes "gh_repo_" ++ decimal repo_id) ++ (underscore ∷ [])

unfoldable pub pull_request_collection_for_repo : ℕ → ℕ → Text
pull_request_collection_for_repo repo_id pr_number =
    sanitize_identifier
      (codes "gh_repo_" ++ (decimal repo_id ++ (codes "_pr_" ++ decimal pr_number)))

-- A chunk with the blob, the reference and the repository that it was read from.
pub record IndexedCodeChunk : Type 0 where
  pub chunk : CodeChunk
  pub blob_sha : Text
  pub owner : Text
  pub ref : Text
  pub repo : Text
  pub repo_id : ℕ
  pub sha : Text

-- What `pointIdForChunk` hashes.
unfoldable pub point_key : IndexedCodeChunk → Text
point_key c =
    decimal c.repo_id
    ++ (0 ∷ c.ref ++ (0 ∷ c.chunk.path ++ (0 ∷ c.blob_sha ++ (0 ∷ decimal c.chunk.chunk_index))))

unfoldable pub point_id_for_chunk : (Text → Text) → IndexedCodeChunk → Text
point_id_for_chunk sha256_hex c = sha256_hex (point_key c)

abbrev heads : Text
heads = codes "refs/heads/"

unfoldable pub branch_name_from_ref : Text → Option Text
branch_name_from_ref ref =
    let branch = drop (length heads) ref in
    if starts_with heads ref then if is_empty branch then none else some branch else none

-- `/^0+$/`
unfoldable pub is_all_zero_sha : Text → Bool
is_all_zero_sha sha = not (is_empty sha) && all (λ c. c == b'0') sha
