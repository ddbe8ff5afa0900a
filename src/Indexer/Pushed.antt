-- ===== src/Indexer/Pushed.antt =====
-- A push as a whole.
use mathlib.Core.Path.{subst}
use ydb_qdrant.Prelude.{
  List, [], ◌∷◌, Bool, false, ◌≡◌, refl, ap, inl, inr, Bool-cases, Option, none, some, Result, ok,
  err, if◌then◌else◌, any, All,
}
use ydb_qdrant.Text.{Text}
use ydb_qdrant.Chunker.Files.{should_index_file}
use ydb_qdrant.Indexer.{
  ManifestFile, ChangedFile, Failure, progress_error, attempt, ensure_collection, count_at_end,
  saves, processing_files, Points, Source, apply_changed_file,
}
use ydb_qdrant.Indexer.Push.{
  Progress, files_by_path, current_manifest_chunk_count, project_files, check_files, before_change,
  after_change, apply_changes, counted_chunks, count_call, finish_push, push_changes,
}
use ydb_qdrant.Indexer.Stored.{IsPoint}
use ydb_qdrant.Indexer.Cleared.{names_path}
use ydb_qdrant.Indexer.Outcome.{chunks_of, attempt-ok}
use ydb_qdrant.Indexer.Synced.{IsSound, IsChange, IsSyncedAt}
use ydb_qdrant.Indexer.Steps.{thrown, Follows, apply_changed_file-Follows}

module _ (source : Source) (Known : Text → Type 0) (content : Text → Option Text)
    (sound : IsSound source Known content) where
  -- Whether a later change names the path.
  abbrev named_later : List ChangedFile → Text → Bool
  named_later changes q = any (λ change. names_path change q) changes

  apply_changes-Synced :
      (changes : List ChangedFile) (s done : Progress source) (points left : Points)
      → All (IsChange source Known content) changes
      → All (IsPoint Known) points
      → ((q : Text)
          → named_later changes q ≡ false
          → IsSyncedAt q (chunks_of source content q) s.files points)
      → apply_changes source changes s points ≡ (left, ok done)
      → (q : Text) → IsSyncedAt q (chunks_of source content q) done.files left
  unfolding apply_changes
  apply_changes-Synced [] s done points left c k h e q =
      let same_progress : s ≡ done = cc in
      let same_points : points ≡ left = cc in rw (← same_progress, ← same_points) (h q refl)
  apply_changes-Synced (change ∷ changes) s done points left (c, cs) k h e q =
      go (apply_changed_file source ready_here.count points change) refl
        (λ s' points' k' h' e'. apply_changes-Synced changes s' done points' left cs k' h' e' q)
    where
      ready_here : Progress source
      ready_here = before_change source s change

      go :
          (r : Points × Result Failure (Option ManifestFile))
          → apply_changed_file source ready_here.count points change ≡ r
          → ((s' : Progress source) (points' : Points)
              → All (IsPoint Known) points'
              → ((p : Text)
                  → named_later changes p ≡ false
                  → IsSyncedAt p (chunks_of source content p) s'.files points')
              → apply_changes source changes s' points' ≡ (left, ok done)
              → IsSyncedAt q (chunks_of source content q) done.files left)
          → IsSyncedAt q (chunks_of source content q) done.files left
      go (next, err x) d ih = absurd (thrown next left x done (rw (apply_changes, d, d) at e))
      go (next, ok file) d ih =
          let f =
            apply_changed_file-Follows source Known content sound change c s points k
              ready_here.count next file d in
          ih _ next f.all_ok (later next file f) (rw (apply_changes, d, d) at e)
        where
          later :
              (next : Points) (file : Option ManifestFile)
              → Follows source Known content sound change s points
                  (after_change source ready_here file).files
                  next
              → (p : Text) → named_later changes p ≡ false
              → IsSyncedAt p
                  (chunks_of source content p)
                  (after_change source ready_here file).files
                  next
          later next file f p n = elim (Bool-cases (names_path change p)) [
            | inl b ↦ f.named p b
            | inr b ↦ f.others p _ b (h p (rw (b, n) refl))
          ]

  finished :
      (r : Points × Result Failure (Progress source)) (left : Points) (done : Progress source)
      → finish_push source r ≡ (left, ok done)
      → r ≡ (left, ok done)
  unfolding finish_push
  finished (q, err x) left done h = absurd (thrown q left x done h)
  finished (q, ok d) left done h =
      let saved = attempt-ok (source.outcome (saves d.files)) _ _ h in
      (attempt-ok (source.outcome count_at_end) _ _ (saved.1)).1

  same_chunks :
      (before : Text → Option Text) (q : Text)
      → before q ≡ content q
      → chunks_of source before q ≡ chunks_of source content q
  same_chunks before q e =
      ap
        (λ (o : Option Text).
          if should_index_file source.to_lower q none source.options
          then elim o [ none ↦ [] | some text ↦ source.chunk_file q text ]
          else [])
        e

  -- If a push ends without an exception, then at each path the points of the index are the chunks
  -- of the file that the new commit has there, and the manifest has an entry with their number, or
  -- none if there are none. It is assumed that index and manifest were so of the commit before,
  -- that files which the push does not name are the same in both commits, that a file which was
  -- removed or has another name now is not in the new one, that a read gives what the commit has,
  -- that the chunker names the file in its chunks, that the digest has no collision, and that no
  -- path is a folder of another one, is without a segment or holds a NUL.
  pub push_changes-Synced :
      (before : Text → Option Text) (manifest_files : List ManifestFile)
      (changes : List ChangedFile) (done : Progress source) (points left : Points)
      → All (IsChange source Known content) changes
      → ((q : Text) → named_later changes q ≡ false → before q ≡ content q)
      → All (IsPoint Known) points
      → ((q : Text)
          → IsSyncedAt q (chunks_of source before q) (files_by_path manifest_files []) points)
      → push_changes source manifest_files points changes ≡ (left, ok done)
      → (q : Text) → IsSyncedAt q (chunks_of source content q) done.files left
  unfolding push_changes
  push_changes-Synced before manifest_files changes done points left c same k h e =
      elim (Bool-cases (source.reports processing_files)) [
        | inr f ↦ absurd (thrown points left progress_error done (rw (push_changes, f) at e))
        | inl f ↦
            go (check_files source (project_files source (files_by_path manifest_files []) changes))
              refl (rw (push_changes, f) at e)
      ]
    where
      start : Progress source
      start = record {
        files = files_by_path manifest_files [];
        count = current_manifest_chunk_count manifest_files points;
      }

      unnamed :
          (q : Text)
          → named_later changes q ≡ false
          → IsSyncedAt q (chunks_of source content q) start.files points
      unnamed q n =
          subst (λ cs. IsSyncedAt q cs (files_by_path manifest_files []) points)
            (same_chunks before q (same q n)) (h q)

      go :
          (r : Result Failure (Unit {0}))
          → check_files source (project_files source (files_by_path manifest_files []) changes) ≡ r
          → (elim r as (λ _. Points × Result Failure (Progress source)) [
            | err x ↦ (points, err x)
            | ok _ ↦ attempt (source.outcome ensure_collection) points points (
                attempt
                  (count_call source (counted_chunks manifest_files))
                  points
                  points
                  (finish_push source (apply_changes source changes start points)))
          ])
            ≡ (left, ok done)
          → (q : Text) → IsSyncedAt q (chunks_of source content q) done.files left
      go (err x) d z = absurd (thrown points left x done z)
      go (ok u) d z =
          let ensured = attempt-ok (source.outcome ensure_collection) _ _ z in
          let counted =
            attempt-ok (count_call source (counted_chunks manifest_files)) _ _ (ensured.1) in
          apply_changes-Synced changes start done points left c k unnamed
            (finished (apply_changes source changes start points) left done (counted.1))
