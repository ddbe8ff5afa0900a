-- ===== src/Indexer/Push.antt =====
-- incrementalPush of src/code-indexer/repoIndexer.ts, from the decision to work in increments to the files
-- of the new manifest.
use ydb_qdrant.Prelude.{
  ℕ, ◌+◌, ◌-◌, List, [], ◌∷◌, Bool, true, false, not, ◌&&◌, ◌||◌, ltb, leb, Option, none, some,
  get_or, Result, ok, err, if◌then◌else◌, length, any,
}
use ydb_qdrant.Text.{Text, codes, text_eq}
use ydb_qdrant.Jobs.{RepositoryRef, PushDetails, JobKind, full_index, incremental_push}
use ydb_qdrant.Quota.{assert_files_per_repo}
use ydb_qdrant.Chunker.Files.{should_index_file}
use ydb_qdrant.Naming.{branch_name_from_ref, is_all_zero_sha}
use ydb_qdrant.Indexer.{
  ManifestFile, ChangedFile, Failure, quota_denied, FileMap, map_get, map_delete, map_set, Points,
  truthy, CallResult, works, attempt, ensure_collection, count_collection, count_at_end, saves,
  processing_files, progress_error, Source, is_removed, apply_changed_file,
}

-- What is kept of a collection's last run.
pub record Manifest : Type 0 where
  pub files : List ManifestFile
  pub indexing_fingerprint : Option Text

abbrev is_default_branch : Option Text → Text → Bool
is_default_branch none branch = false
is_default_branch (some name) branch = text_eq name branch

unfoldable pub should_fallback_to_full_index : RepositoryRef → PushDetails → Bool
should_fallback_to_full_index repository push =
    if push.created || push.forced || is_all_zero_sha push.before
    then true
    else if push.deleted
    then false
    else not (is_default_branch (branch_name_from_ref push.ref) repository.default_branch)

unfoldable pub adds_repository_to_installation : JobKind → Bool
adds_repository_to_installation (full_index reason ref sha) =
    text_eq reason (codes "installation")
    || text_eq reason (codes "installation-repositories-added")
adds_repository_to_installation _ = false

unfoldable pub updates_default_branch_status : JobKind → Bool
updates_default_branch_status (full_index reason ref sha) = true
updates_default_branch_status (incremental_push push) = true
updates_default_branch_status _ = false

abbrev repo_config_path : Text
repo_config_path = codes ".ydb-qdrant-code-indexer.json"

abbrev names_config : Option Text → Bool
names_config none = false
names_config (some path) = text_eq path repo_config_path

unfoldable pub changes_repo_config : ChangedFile → Bool
changes_repo_config change =
    text_eq change.filename repo_config_path || names_config change.previous_filename

abbrev github_compare_files_cap : ℕ
github_compare_files_cap = 300

-- What the reads before the first change decide: the files to start from, or the reason of a full index.
pub data Plan : Type 0 where
  start_over : (reason : Text) → Plan
  work_on : List ManifestFile → Plan

abbrev same_fingerprint : Option Text → Text → Bool
same_fingerprint none fingerprint = false
same_fingerprint (some stored) fingerprint = text_eq stored fingerprint

unfoldable pub incremental_plan : Option Manifest → Text → ℕ → List ChangedFile → Plan
incremental_plan none fingerprint max_changed changes = start_over (codes "missing-manifest")
incremental_plan (some manifest) fingerprint max_changed changes =
    if not (same_fingerprint manifest.indexing_fingerprint fingerprint)
    then start_over (codes "indexing-fingerprint-changed")
    else if ltb max_changed (length changes) || leb github_compare_files_cap (length changes)
    then start_over (codes "too-many-changed-files")
    else if any changes_repo_config changes
    then start_over (codes "repo-config-changed")
    else work_on manifest.files

-- `new Map(files.map((file) => [file.path, file]))`
unfoldable pub files_by_path : List ManifestFile → FileMap → FileMap
files_by_path [] m = m
files_by_path (file ∷ files) m = files_by_path files (map_set file.path file m)

unfoldable pub delete_previous_entry : Option Text → FileMap → FileMap
delete_previous_entry none files = files
delete_previous_entry (some path) files = map_delete path files

-- The sum of the counts, when every file has one.
unfoldable pub counted_chunks : List ManifestFile → Option ℕ
counted_chunks [] = some 0
counted_chunks (file ∷ files) = elim file.chunk_count [
  | none ↦ none
  | some n ↦ elim (counted_chunks files) [ none ↦ none | some m ↦ some (n + m) ]
]

-- Without a count in each file, the store is asked for the points of the collection.
unfoldable pub current_manifest_chunk_count : List ManifestFile → Points → ℕ
current_manifest_chunk_count files points = get_or (counted_chunks files) (length points)

unfoldable pub subtract_manifest_chunk_count : ℕ → Option ManifestFile → ℕ
subtract_manifest_chunk_count current none = current
subtract_manifest_chunk_count current (some file) = current - get_or file.chunk_count 0

abbrev subtract_previous : ℕ → Option Text → FileMap → ℕ
subtract_previous current none files = current
subtract_previous current (some path) files =
    subtract_manifest_chunk_count current (map_get path files)

module _ (source : Source) where
  -- A round of the loop that foresees the files.
  unfoldable pub project : FileMap → ChangedFile → FileMap
  project files change =
      let left =
        map_delete change.filename
          (delete_previous_entry (truthy change.previous_filename) files) in
      if not (is_removed source change)
        && should_index_file source.to_lower change.filename none source.options
      then map_set change.filename
          (record {
            blob_sha = get_or change.sha source.after;
            chunk_count = none;
            path = change.filename;
          })
          left
      else left

  unfoldable pub project_files : FileMap → List ChangedFile → FileMap
  project_files files [] = files
  project_files files (change ∷ changes) = project_files (project files change) changes

  unfoldable pub check_files : FileMap → Result Failure (Unit {0})
  check_files files = elim source.limits [
    | none ↦ ok tt
    | some limits ↦ elim (assert_files_per_repo limits (length files)) [
      | ok _ ↦ ok tt
      | err d ↦ err (quota_denied d)
    ]
  ]

  -- `filesByPath` and `currentChunkCount` between two changes.
  pub record Progress : Type 0 where
    pub files : FileMap
    pub count : ℕ

  unfoldable pub before_change : Progress → ChangedFile → Progress
  before_change s change =
      let previous = truthy change.previous_filename in
      let left = delete_previous_entry previous s.files in
      let count = subtract_previous s.count previous s.files in
      record {
        files = map_delete change.filename left;
        count = subtract_manifest_chunk_count count (map_get change.filename left);
      }

  unfoldable pub after_change : Progress → Option ManifestFile → Progress
  after_change s none = s
  after_change s (some file) = record {
    files = map_set file.path file s.files;
    count = s.count + get_or file.chunk_count 0;
  }

  -- The loop: an exception leaves the points of the changes that were done.
  unfoldable pub apply_changes :
      List ChangedFile → Progress → Points → Points × Result Failure Progress
  apply_changes [] s points = (points, ok s)
  apply_changes (change ∷ changes) s points =
      let ready = before_change s change in
      let (left, result) = apply_changed_file source ready.count points change in
      elim result [
        | err e ↦ (left, err e)
        | ok file ↦ apply_changes changes (after_change ready file) left
      ]

  -- The end of the push: the new manifest, and the number of points that the result has.
  unfoldable pub finish_push : Points × Result Failure Progress → Points × Result Failure Progress
  finish_push (left, err e) = (left, err e)
  finish_push (left, ok done) =
      attempt (source.outcome (saves done.files)) left left
        (attempt (source.outcome count_at_end) left left (left, ok done))

  -- The number of points is asked for only if a file of the manifest has no count.
  abbrev pub count_call : Option ℕ → CallResult
  count_call (some n) = works
  count_call none = source.outcome count_collection

  unfoldable pub push_changes :
      List ManifestFile → Points → List ChangedFile → Points × Result Failure Progress
  push_changes manifest_files points changes =
      let files = files_by_path manifest_files [] in
      let start : Progress = record {
        files = files;
        count = current_manifest_chunk_count manifest_files points;
      } in
      if not (source.reports processing_files)
      then (points, err progress_error)
      else elim (check_files (project_files files changes)) [
        | err e ↦ (points, err e)
        | ok _ ↦ attempt (source.outcome ensure_collection) points points (
            attempt (count_call (counted_chunks manifest_files)) points points
              (finish_push (apply_changes changes start points)))
      ]
