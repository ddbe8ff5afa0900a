-- ===== src/Indexer.antt =====
-- src/code-indexer/repoIndexer.ts: how a push changes the index and the manifest of a repository, over the
-- store of src/code-indexer/indexStore.ts. The points of the collection are a list of chunks, of which
-- each has its own identifier, and the manifest's files a map from paths. GitHub's content, the embedding
-- provider and the chunker are parameters. A step returns the points that it leaves, also when it throws.
pub mod Batches
pub mod Push
pub mod Stored
pub mod Maps
pub mod Outcome
pub mod Cleared
pub mod Synced
pub mod Steps
pub mod Pushed
pub mod Success
mod Tests
use ydb_qdrant.Prelude.{
  ℕ, ◌+◌, ◌-◌, List, [], ◌∷◌, ◌++◌, Bool, true, false, not, ◌&&◌, ◌||◌, ◌==◌, Option, none, some,
  get_or, is_some, Result, ok, err, if◌then◌else◌, map, length, filter, any,
}
use ydb_qdrant.Text.{Text, codes, text_eq, is_empty}
use ydb_qdrant.Jobs.{RepositoryRef}
use ydb_qdrant.Quota.{QuotaLimits, Denial, assert_chunks_per_repo}
use ydb_qdrant.Chunker.{ChunkingOptions, CodeChunk}
use ydb_qdrant.Chunker.Files.{should_index_file}
use ydb_qdrant.Chunker.Paths.{path_segments_for_path}
use ydb_qdrant.Naming.{IndexedCodeChunk, point_id_for_chunk}

pub record ManifestFile : Type 0 where
  pub blob_sha : Text
  pub chunk_count : Option ℕ
  pub path : Text

pub record ChangedFile : Type 0 where
  pub filename : Text
  pub previous_filename : Option Text
  pub sha : Option Text
  pub status : Text

-- What a call throws.
pub data Failure : Type 0 where
  client_error embedding_error length_mismatch store_error progress_error : Failure
  quota_denied : Denial → Failure

-- How a call of a store ends. One that throws may have had its effect, as when its answer is lost.
pub data CallResult : Type 0 where
  works : CallResult
  fails : (applied : Bool) → CallResult

-- `Map<string, RepoManifestFile>`
abbrev pub FileMap : Type 0
FileMap = List (Text × ManifestFile)

unfoldable pub map_get : Text → FileMap → Option ManifestFile
map_get k [] = none
map_get k ((l, f) ∷ m) = let rest = map_get k m in if text_eq l k then some f else rest

unfoldable pub map_delete : Text → FileMap → FileMap
map_delete k m = filter (λ entry. not (text_eq entry.0 k)) m

-- A key that is there keeps its place.
unfoldable pub map_set : Text → ManifestFile → FileMap → FileMap
map_set k f [] = (k, f) ∷ []
map_set k f ((l, g) ∷ m) =
    let rest = map_set k f m in if text_eq l k then (l, f) ∷ m else (l, g) ∷ rest

abbrev pub Points : Type 0
Points = List IndexedCodeChunk

-- The segments that a deletion names come first in the point's.
unfoldable pub has_segments : List Text → List Text → Bool
has_segments [] stored = true
has_segments (s ∷ ss) [] = false
has_segments (s ∷ ss) (t ∷ ts) = text_eq t s && has_segments ss ts

-- The `pathSegments` of a point's payload.
unfoldable pub stored_segments : IndexedCodeChunk → List Text
stored_segments c =
    if length c.chunk.path_segments == 0
    then path_segments_for_path c.chunk.path
    else c.chunk.path_segments

unfoldable pub delete_path : List Text → Points → Points
delete_path [] points = points
delete_path (s ∷ ss) points = filter (λ c. not (has_segments (s ∷ ss) (stored_segments c))) points

-- `if (value)` on an optional string
abbrev pub truthy : Option Text → Option Text
truthy none = none
truthy (some []) = none
truthy (some (x ∷ xs)) = some (x ∷ xs)

unfoldable pub delete_previous : Option Text → Points → Points
delete_previous none points = points
delete_previous (some path) points = delete_path (path_segments_for_path path) points

-- A call that takes the points from `before` to `after`, and what follows it.
abbrev pub attempt :
    {A : Type 0}
    → CallResult
    → Points
    → Points
    → Points × Result Failure A
    → Points × Result Failure A
attempt works before after rest = rest
attempt (fails applied) before after rest = (if applied then after else before, err store_error)

-- A call of the store, and a phase that is reported.
pub data StoreCall : Type 0 where
  ensure_collection count_collection count_at_end : StoreCall
  deletes : (segments : List Text) → StoreCall
  upserts : List IndexedCodeChunk → StoreCall
  saves : FileMap → StoreCall

pub data Phase : Type 0 where
  processing_files : Phase
  fetching_file chunking embedding upserting : (path : Text) → Phase

pub record Prepared : Type 0 where
  pub chunks : List IndexedCodeChunk
  pub file : ManifestFile

module _ (sha256_hex : Text → Text) where
  abbrev pub same_id : IndexedCodeChunk → IndexedCodeChunk → Bool
  same_id c d = text_eq (point_id_for_chunk sha256_hex c) (point_id_for_chunk sha256_hex d)

  -- A point replaces the one with its identifier.
  unfoldable pub put_points : List IndexedCodeChunk → Points → Points
  put_points chunks points = filter (λ c. not (any (same_id c) chunks)) points ++ chunks

  unfoldable pub upsert_chunks :
      {V : Type 0}
      → CallResult
      → List IndexedCodeChunk
      → List V
      → Points
      → Points × Result Failure (Unit {0})
  upsert_chunks outcome [] vectors points = (points, ok tt)
  upsert_chunks outcome (c ∷ cs) vectors points =
      let put = put_points (c ∷ cs) points in
      if length (c ∷ cs) == length vectors
      then attempt outcome points put (put, ok tt)
      else (points, err length_mismatch)

-- The job, and what it reads.
pub record Source : Type 1 where
  pub V : Type 0
  pub to_lower : Text → Text
  pub sha256_hex : Text → Text
  pub options : ChunkingOptions
  pub chunk_file : Text → Text → List CodeChunk
  pub get_file_content : Text → Result Failure (Option Text)
  pub embed_documents : List Text → Option (List V)
  pub repository : RepositoryRef
  pub after : Text
  pub limits : Option QuotaLimits
  pub outcome : StoreCall → CallResult
  -- Whether `reportProgress` returns.
  pub reports : Phase → Bool

module _ (source : Source) where
  unfoldable pub indexed_chunk : Text → CodeChunk → IndexedCodeChunk
  indexed_chunk blob_sha c = record {
    chunk = c;
    blob_sha = blob_sha;
    owner = source.repository.owner;
    ref = source.after;
    repo = source.repository.repo;
    repo_id = source.repository.repo_id;
    sha = source.after;
  }

  unfoldable pub prepared : Text → Text → List CodeChunk → Option Prepared
  prepared blob_sha path [] = none
  prepared blob_sha path (c ∷ cs) = some (record {
    chunks = map (indexed_chunk blob_sha) (c ∷ cs);
    file = record { blob_sha = blob_sha; chunk_count = some (length (c ∷ cs)); path = path };
  })

  -- `content === null`
  unfoldable pub chunked : Text → Text → Option Text → Option Prepared
  chunked blob_sha path none = none
  chunked blob_sha path (some content) = prepared blob_sha path (source.chunk_file path content)

  unfoldable pub read_and_chunk_single_file : Text → Text → Result Failure (Option Prepared)
  read_and_chunk_single_file path blob_sha =
      if not (should_index_file source.to_lower path none source.options)
      then ok none
      else if not (source.reports (fetching_file path))
      then err progress_error
      else elim (source.get_file_content path) [
        | err e ↦ err e
        | ok content ↦
            if is_some content && not (source.reports (chunking path))
            then err progress_error
            else ok (chunked blob_sha path content)
      ]

  -- `this.quota?.assertChunksPerRepo`
  unfoldable pub check_chunks : ℕ → Result Failure (Unit {0})
  check_chunks count = elim source.limits [
    | none ↦ ok tt
    | some limits ↦ elim (assert_chunks_per_repo limits count) [
      | ok _ ↦ ok tt
      | err d ↦ err (quota_denied d)
    ]
  ]

  unfoldable pub embed_and_upsert_chunks :
      Text → List IndexedCodeChunk → Points → Points × Result Failure (Unit {0})
  embed_and_upsert_chunks path chunks points =
      if not (source.reports (embedding path))
      then (points, err progress_error)
      else elim (source.embed_documents (map (λ (c : IndexedCodeChunk). c.chunk.text) chunks)) [
        | none ↦ (points, err embedding_error)
        | some vectors ↦
            if not (source.reports (upserting path))
            then (points, err progress_error)
            else upsert_chunks source.sha256_hex (source.outcome (upserts chunks)) chunks vectors
                points
      ]

  -- Once the file is read, and once its chunks are stored.
  unfoldable pub stored_file :
      ManifestFile
      → Points × Result Failure (Unit {0})
      → Points × Result Failure (Option ManifestFile)
  stored_file file (points, ok _) = (points, ok (some file))
  stored_file file (points, err e) = (points, err e)

  unfoldable pub store_prepared :
      ℕ → Points → Result Failure (Option Prepared) → Points × Result Failure (Option ManifestFile)
  store_prepared current points (err e) = (points, err e)
  store_prepared current points (ok none) = (points, ok none)
  store_prepared current points (ok (some p)) = elim (check_chunks (current + length p.chunks)) [
    | err e ↦ (points, err e)
    | ok _ ↦ stored_file p.file (embed_and_upsert_chunks p.file.path p.chunks points)
  ]

  unfoldable pub index_single_file :
      ℕ → Points → Text → Text → Points × Result Failure (Option ManifestFile)
  index_single_file current points path blob_sha =
      store_prepared current points (read_and_chunk_single_file path blob_sha)

  abbrev pub is_removed : ChangedFile → Bool
  is_removed change =
      let status = source.to_lower change.status in
      text_eq status (codes "removed") || text_eq status (codes "deleted")

  -- `deletePath` calls nothing without a segment.
  abbrev pub delete_call : List Text → CallResult
  delete_call [] = works
  delete_call (s ∷ ss) = source.outcome (deletes (s ∷ ss))

  abbrev pub previous_call : Option Text → CallResult
  previous_call none = works
  previous_call (some path) = delete_call (path_segments_for_path path)

  -- The files of the change are gone from the points; the last call writes the new one.
  unfoldable pub apply_cleared :
      ℕ → Points → ChangedFile → Points × Result Failure (Option ManifestFile)
  apply_cleared current cleared change =
      if is_removed change
      then (cleared, ok none)
      else index_single_file current cleared change.filename (get_or change.sha source.after)

  unfoldable pub apply_changed_file :
      ℕ → Points → ChangedFile → Points × Result Failure (Option ManifestFile)
  apply_changed_file current points change =
      let segments = path_segments_for_path change.filename in
      let left = delete_previous (truthy change.previous_filename) points in
      let cleared = delete_path segments left in
      attempt (previous_call (truthy change.previous_filename)) points left
        (attempt (delete_call segments) left cleared (apply_cleared current cleared change))
