-- ===== src/Tenant/Tests.antt =====
-- Runs of the name sanitisers, and the theorems at concrete names.
use ydb_qdrant.Prelude.{[], ◌∷◌, ◌≡◌, refl, ok}
use ydb_qdrant.Text.{codes, split_on}
use ydb_qdrant.Tenant.{sanitize_collection_name, CollectionContext, normalize_collection_context}
use ydb_qdrant.Tenant.Clean.{IsName, sanitize_collection_name_canonical}
use ydb_qdrant.Tenant.Keys.{normalize_collection_context_key}

abbrev docs_context : CollectionContext
docs_context = record {
  user_uid = codes "team_1";
  collection = codes "my_docs";
  meta_key = codes "team_1/my_docs";
  uid = codes "team_1/my_docs";
}

sanitized : sanitize_collection_name (codes "__My--Docs") ≡ codes "my_docs"
unfolding sanitize_collection_name
sanitized = refl

docs : normalize_collection_context (codes "Team  1") (codes "My.Docs") ≡ ok docs_context
unfolding normalize_collection_context
docs = refl

other_docs : normalize_collection_context (codes "_team.1") (codes "my docs") ≡ ok docs_context
unfolding normalize_collection_context
other_docs = refl

sanitize_collection_name_canonical_example :
    IsName (sanitize_collection_name (codes "__My--Docs"))
    × (sanitize_collection_name (sanitize_collection_name (codes "__My--Docs"))
        ≡ sanitize_collection_name (codes "__My--Docs"))
sanitize_collection_name_canonical_example = sanitize_collection_name_canonical (codes "__My--Docs")

normalize_collection_context_key_example :
    IsName docs_context.user_uid
    × IsName docs_context.collection
    × (docs_context.uid ≡ docs_context.meta_key)
    × (split_on b'/' docs_context.meta_key ≡ docs_context.user_uid ∷ docs_context.collection ∷ [])
normalize_collection_context_key_example =
    normalize_collection_context_key (codes "Team  1") (codes "My.Docs") docs_context docs
