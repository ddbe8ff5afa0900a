-- ===== src/Naming/Tests.antt =====
-- Runs of the naming functions, and the theorems at concrete values.
use ydb_qdrant.Prelude.{ℕ, [], ◌∷◌, true, false, ◌≡◌, ◌↔◌, refl, none, some, arith}
use ydb_qdrant.Text.{codes, starts_with}
use ydb_qdrant.Text.Decimal.{decimal}
use ydb_qdrant.Tenant.{sanitize}
use ydb_qdrant.Naming.{
  IndexedCodeChunk, sanitize_identifier, user_uid_for_installation,
  default_branch_collection_for_repo, repo_collection_prefix_for_repo,
  pull_request_collection_for_repo, branch_name_from_ref, is_all_zero_sha,
}
use ydb_qdrant.Naming.Collections.{repo_collection_prefix_iff}
use ydb_qdrant.Naming.Points.{HasNoNul, point_id_for_chunk_injective}

collection_names :
    (default_branch_collection_for_repo 5 ≡ codes "gh_repo_5_default")
    × (pull_request_collection_for_repo 51 7 ≡ codes "gh_repo_51_pr_7")
    × (repo_collection_prefix_for_repo 5 ≡ codes "gh_repo_5_")
    × (user_uid_for_installation 12 ≡ codes "gh_installation_12")
unfolding default_branch_collection_for_repo pull_request_collection_for_repo
    repo_collection_prefix_for_repo user_uid_for_installation sanitize_identifier sanitize decimal
collection_names = (refl, refl, refl, refl)

branches :
    (branch_name_from_ref (codes "refs/heads/main") ≡ some (codes "main"))
    × (branch_name_from_ref (codes "refs/heads/") ≡ none)
    × (branch_name_from_ref (codes "refs/tags/v1") ≡ none)
    × (is_all_zero_sha (codes "000") ≡ true)
    × (is_all_zero_sha (codes "") ≡ false)
unfolding branch_name_from_ref is_all_zero_sha
branches = (refl, refl, refl, refl, refl)

abbrev first_repo : ℕ
first_repo = 5

repo_collection_prefix_iff_example :
    ((starts_with (repo_collection_prefix_for_repo 5) (default_branch_collection_for_repo 51)
        ≡ true)
      ↔ (first_repo ≡ 51))
    × ((starts_with (repo_collection_prefix_for_repo 5) (pull_request_collection_for_repo 51 7)
          ≡ true)
        ↔ (first_repo ≡ 51))
repo_collection_prefix_iff_example = repo_collection_prefix_iff first_repo 51 7

abbrev chunk_at : ℕ → IndexedCodeChunk
chunk_at n = record {
  chunk = record {
    chunker = none;
    chunk_index = n;
    chunk_kind = none;
    end_line = 1;
    language = none;
    path = codes "a";
    path_segments = codes "a" ∷ [];
    start_line = 1;
    symbol_name = none;
    symbol_path = none;
    text = codes "x";
  };
  blob_sha = codes "b";
  owner = codes "o";
  ref = codes "r";
  repo = codes "p";
  repo_id = 5;
  sha = codes "s";
}

chunk_at-HasNoNul : (n : ℕ) → HasNoNul (chunk_at n)
chunk_at-HasNoNul n = record {
  ref_without = (ground arith, tt);
  path_without = (ground arith, tt);
  blob_without = (ground arith, tt);
}

-- A digest that keeps its text has no collision.
same_point :
    (first_repo ≡ 5)
    × (codes "r" ≡ codes "r")
    × (codes "a" ≡ codes "a")
    × (codes "b" ≡ codes "b")
    × ((chunk_at 3).chunk.chunk_index ≡ 3)
same_point =
    point_id_for_chunk_injective (λ s. s) (λ s t e. e) (chunk_at 3) (chunk_at 3)
      (chunk_at-HasNoNul 3) (chunk_at-HasNoNul 3) refl
