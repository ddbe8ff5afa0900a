-- ===== src/Indexer/Success.antt =====
-- A push ends, and in step with the commit, when nothing that it calls fails.
use ydb_qdrant.Prelude.{
  any, All, ℕ, false, not, ◌&&◌, is_some, List, [], ◌∷◌, true, ◌==◌, ◌≡◌, refl, inl, inr, arith,
  Bool-cases, Option, none, some, get_or, ok, map, length, length-map,
}
use ydb_qdrant.Text.{Text}
use ydb_qdrant.Chunker.Files.{should_index_file}
use ydb_qdrant.Chunker.Paths.{path_segments_for_path}
use ydb_qdrant.Naming.{IndexedCodeChunk}
use ydb_qdrant.Indexer.{
  ManifestFile, ChangedFile, Points, Prepared, Source, StoreCall, ensure_collection,
  count_collection, count_at_end, deletes, upserts, saves, Phase, processing_files, fetching_file,
  chunking, embedding, upserting, works, truthy, delete_call, previous_call, apply_cleared,
  put_points, upsert_chunks, read_and_chunk_single_file, chunked, check_chunks,
  embed_and_upsert_chunks, stored_file, store_prepared, index_single_file, is_removed,
  apply_changed_file,
}
use ydb_qdrant.Indexer.Cleared.{names_path, cleared}
use ydb_qdrant.Indexer.Stored.{IsPoint}
use ydb_qdrant.Indexer.Outcome.{chunks_of}
use ydb_qdrant.Indexer.Synced.{IsSound, IsChange, IsSyncedAt}
use ydb_qdrant.Indexer.Pushed.{push_changes-Synced}
use ydb_qdrant.Indexer.Push.{
  Progress, files_by_path, current_manifest_chunk_count, check_files, before_change, after_change,
  apply_changes, counted_chunks, count_call, finish_push, push_changes,
}

-- Every read answers, every text gets a vector, no call of a store fails, and there is no quota.
pub record Answers (source : Source) : Type 0 where
  pub read : (path : Text) → (found : Option Text) × (source.get_file_content path ≡ ok found)
  pub embed :
      (texts : List Text)
      → (vectors : List source.V) × (source.embed_documents texts ≡ some vectors)
        × (length vectors ≡ length texts)
  pub store_works : (call : StoreCall) → source.outcome call ≡ works
  pub reported : (phase : Phase) → source.reports phase ≡ true
  pub no_limits : source.limits ≡ none

module _ (source : Source) (answers : Answers source) where
  embed_succeeds :
      (path : Text) (chunks : List IndexedCodeChunk) (points : Points)
      → (left : Points) × (embed_and_upsert_chunks source path chunks points ≡ (left, ok tt))
  unfolding embed_and_upsert_chunks upsert_chunks
  embed_succeeds path [] points =
      let (vs, e, n) = answers.embed [] in
      (
        points,
        rw
            (
              embed_and_upsert_chunks,
              answers.reported (embedding path),
              e,
              answers.reported (upserting path),
            )
            refl,
      )
  embed_succeeds path (c ∷ cs) points =
      let (vs, e, n) = answers.embed (map (λ d. d.chunk.text) (c ∷ cs)) in
      let same : (length (c ∷ cs) == length vs) ≡ true =
        ground (arith, length-map (λ (d : IndexedCodeChunk). d.chunk.text) (c ∷ cs)) in
      (
        put_points source.sha256_hex (c ∷ cs) points,
        rw
            (
              embed_and_upsert_chunks,
              answers.reported (embedding path),
              e,
              answers.reported (upserting path),
              answers.store_works (upserts (c ∷ cs)),
              same,
            )
            refl,
      )

  store_succeeds :
      (current : ℕ) (points : Points) (o : Option Prepared)
      → (left : Points) × (file : Option ManifestFile) × (store_prepared source current points
            (ok o)
          ≡ (left, ok file))
  unfolding store_prepared check_chunks stored_file
  store_succeeds current points none = (points, none, refl)
  store_succeeds current points (some p) =
      let (left, e) = embed_succeeds p.file.path p.chunks points in
      (left, some p.file, rw (store_prepared, answers.no_limits, e) refl)

  chunking_reported :
      (path : Text) (found : Option Text)
      → (is_some found && not (source.reports (chunking path))) ≡ false
  chunking_reported path none = refl
  chunking_reported path (some text) = rw (answers.reported (chunking path)) refl

  index_succeeds :
      (current : ℕ) (points : Points) (path blob : Text)
      → (left : Points) × (file : Option ManifestFile) × (index_single_file source current points
            path blob
          ≡ (left, ok file))
  unfolding index_single_file read_and_chunk_single_file
  index_succeeds current points path blob =
      let (found, e) = answers.read path in
      elim (Bool-cases (should_index_file source.to_lower path none source.options)) [
        | inl d ↦
            (let (left, file, f) = store_succeeds current points (chunked source blob path found) in
              (
                left,
                file,
                rw
                    (
                      index_single_file,
                      d,
                      answers.reported (fetching_file path),
                      e,
                      chunking_reported path found,
                    )
                    f,
              ))
        | inr d ↦
            (let (left, file, f) = store_succeeds current points none in
              (left, file, rw (index_single_file, d) f))
      ]

  cleared_succeeds :
      (current : ℕ) (points : Points) (change : ChangedFile)
      → (left : Points) × (file : Option ManifestFile) × (apply_cleared source current points change
          ≡ (left, ok file))
  unfolding apply_cleared
  cleared_succeeds current points change = elim (Bool-cases (is_removed source change)) [
    | inl e ↦ (points, none, rw (apply_cleared, e) refl)
    | inr e ↦
        (let (left, file, f) =
            index_succeeds current points change.filename (get_or change.sha source.after) in
          (left, file, rw (apply_cleared, e) f))
  ]

  delete_works : (segments : List Text) → delete_call source segments ≡ works
  delete_works [] = refl
  delete_works (s ∷ ss) = answers.store_works (deletes (s ∷ ss))

  previous_works : (o : Option Text) → previous_call source o ≡ works
  previous_works none = refl
  previous_works (some path) = delete_works (path_segments_for_path path)

  change_succeeds :
      (current : ℕ) (points : Points) (change : ChangedFile)
      → (left : Points) × (file : Option ManifestFile) × (apply_changed_file source current points
            change
          ≡ (left, ok file))
  unfolding apply_changed_file
  change_succeeds current points change =
      let (left, file, f) = cleared_succeeds current (cleared change points) change in
      (
        left,
        file,
        rw
            (
              apply_changed_file,
              previous_works (truthy change.previous_filename),
              delete_works (path_segments_for_path change.filename),
            )
            f,
      )

  changes_succeed :
      (changes : List ChangedFile) (s : Progress source) (points : Points)
      → (left : Points) × (done : Progress source) × (apply_changes source changes s points
          ≡ (left, ok done))
  unfolding apply_changes
  changes_succeed [] s points = (points, s, refl)
  changes_succeed (change ∷ changes) s points =
      let ready = before_change source s change in
      let (next, file, e) = change_succeeds ready.count points change in
      let (left, done, f) = changes_succeed changes (after_change source ready file) next in
      (left, done, rw (apply_changes, e, e) f)

  -- The run of a push.
  push_ends :
      (manifest_files : List ManifestFile) (points : Points) (changes : List ChangedFile)
      → (left : Points) × (done : Progress source) × (push_changes source manifest_files points
            changes
          ≡ (left, ok done))
  unfolding push_changes check_files finish_push
  push_ends manifest_files points changes =
      let (left, done, f) =
        changes_succeed changes
          (record {
            files = files_by_path manifest_files [];
            count = current_manifest_chunk_count manifest_files points;
          })
          points in
      (
        left,
        done,
        rw
            (
              push_changes,
              answers.reported processing_files,
              answers.no_limits,
              answers.store_works ensure_collection,
              count_works (counted_chunks manifest_files),
              f,
              answers.store_works (saves done.files),
              answers.store_works count_at_end,
            )
            refl,
      )
    where
      count_works : (o : Option ℕ) → count_call source o ≡ works
      count_works none = answers.store_works count_collection
      count_works (some n) = refl

-- If every read answers with what the commit has, every text gets a vector, no call of the index,
-- of the manifests or of the progress throws, and there is no quota, then a push ends without an
-- exception, and at each path the points of the index are the chunks of the file that the new
-- commit has there, and the manifest has an entry with their number, or none if there are none. It
-- is assumed that index and manifest were so of the commit before, that files which the push does
-- not name are the same in both commits, that a file which was removed or has another name now is
-- not in the new one, that the chunker names the file in its chunks, that the digest has no
-- collision, and that no path is a folder of another one, is without a segment or holds a NUL.
pub push_changes_succeeds :
    (source : Source) (Known : Text → Type 0) (before content : Text → Option Text)
    (manifest_files : List ManifestFile) (changes : List ChangedFile) (points : Points)
    → Answers source
    → IsSound source Known content
    → All (IsChange source Known content) changes
    → ((q : Text) → any (λ change. names_path change q) changes ≡ false → before q ≡ content q)
    → All (IsPoint Known) points
    → ((q : Text)
        → IsSyncedAt q (chunks_of source before q) (files_by_path manifest_files []) points)
    → (left : Points) × (done : Progress source) × (push_changes source manifest_files points
          changes
        ≡ (left, ok done))
      × ((q : Text) → IsSyncedAt q (chunks_of source content q) done.files left)
push_changes_succeeds source Known before content manifest_files changes points answers sound
      are_changes same known synced =
    let (left, done, e) = push_ends source answers manifest_files points changes in
    (
      left,
      done,
      e,
      push_changes-Synced source Known content sound before manifest_files changes done points left
          are_changes same known synced e,
    )
