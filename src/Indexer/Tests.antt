-- ===== src/Indexer/Tests.antt =====
-- A push that gives a file another name, and the theorems at it.
use mathlib.Core.Path.{subst}
use mathlib.Core.Bool.{false≢true}
use ydb_qdrant.Prelude.{
  List, [], ◌∷◌, ◌++◌, true, false, ◌≡◌, ◌⊎◌, refl, sym, ◌∙◌, inl, inr, arith, Bool-cases, Option,
  none, some, ok, if◌then◌else◌, map, length-map, any, All,
}
use ydb_qdrant.Text.{Text, codes, text_eq}
use ydb_qdrant.Text.Laws.{text_eq_sound, text_eq_comm}
use ydb_qdrant.Chunker.{CodeChunk}
use ydb_qdrant.Chunker.Smart.Origin.{IsOf}
use ydb_qdrant.Indexer.{ManifestFile, ChangedFile, Points, Source}
use ydb_qdrant.Indexer.Push.{Progress}
use ydb_qdrant.Indexer.Stored.{ArePaths, IsPoint}
use ydb_qdrant.Indexer.Batches.{add_chunks, flush_current_batch, new_batcher}
use ydb_qdrant.Indexer.Batches.Bounds.{IsBatch, flatten, batches_of_chunks}
use ydb_qdrant.Indexer.Cleared.{names_path}
use ydb_qdrant.Indexer.Outcome.{chunks_of, entry_of}
use ydb_qdrant.Indexer.Synced.{IsSound, IsChange, IsSyncedAt}
use ydb_qdrant.Indexer.Pushed.{push_changes-Synced}
use ydb_qdrant.Indexer.Success.{Answers, push_changes_succeeds}
use ydb_qdrant.Chunker.Files.{
  candidates, matches_any_path_pattern, matches_path_pattern, normalize_path_pattern, piece_at,
  pieces_from, repeated, should_index_file, test, with_slashes,
}
use ydb_qdrant.Chunker.Paths.{
  basename, contains_excluded_directory, extension_of, filename_of, from_last, language_for_path,
  path_segments_for_path,
}
use ydb_qdrant.Indexer.{
  works, apply_cleared, apply_changed_file, check_chunks, chunked, delete_path, delete_previous,
  embed_and_upsert_chunks, has_segments, index_single_file, indexed_chunk, map_delete, map_get,
  map_set, prepared, put_points, read_and_chunk_single_file, store_prepared, stored_file,
  stored_segments, upsert_chunks,
}
use ydb_qdrant.Indexer.Push.{
  adds_repository_to_installation, after_change, apply_changes, before_change, changes_repo_config,
  check_files, counted_chunks, current_manifest_chunk_count, delete_previous_entry, files_by_path,
  incremental_plan, project, project_files, finish_push, push_changes,
  should_fallback_to_full_index, subtract_manifest_chunk_count, updates_default_branch_status,
}
use ydb_qdrant.Naming.{point_id_for_chunk, point_key}
use ydb_qdrant.Text.{is_space, split_on, trim}
use ydb_qdrant.Text.Decimal.{decimal}

abbrev old_path : Text
old_path = codes "b.ts"

abbrev new_path : Text
new_path = codes "a.ts"

-- A commit that has one file.
abbrev one_file : Text → Text → Option Text
one_file path q = if text_eq q path then some (codes "x") else none

abbrev one_chunk : Text → Text → List CodeChunk
one_chunk path content =
    record {
      chunker = none;
      chunk_index = 0;
      chunk_kind = none;
      end_line = 1;
      language = none;
      path = path;
      path_segments = path_segments_for_path path;
      start_line = 1;
      symbol_name = none;
      symbol_path = none;
      text = content;
    }
    ∷ []

abbrev job : Source
job = record {
  V = Unit;
  to_lower = λ s. s;
  sha256_hex = λ s. s;
  options = record {
    chunk_lines = none;
    exclude_patterns = none;
    include_patterns = none;
    max_chunk_chars = none;
    max_file_bytes = none;
    overlap_lines = none;
  };
  chunk_file = one_chunk;
  get_file_content = λ path. ok (one_file new_path path);
  embed_documents = λ texts. some (map (λ _. tt) texts);
  repository = record {
    owner = codes "o";
    repo = codes "r";
    repo_id = 5;
    default_branch = codes "main";
  };
  after = codes "2";
  limits = none;
  outcome = λ call. works;
  reports = λ phase. true;
}

abbrev renamed : ChangedFile
renamed = record {
  filename = new_path;
  previous_filename = some old_path;
  sha = some (codes "s");
  status = codes "renamed";
}

abbrev old_points : Points
old_points = map (indexed_chunk job (codes "0")) (one_chunk old_path (codes "x"))

abbrev old_files : List ManifestFile
old_files = entry_of (codes "0") old_path (one_chunk old_path (codes "x")) ∷ []

abbrev IsKnown : Text → Type 0
IsKnown p = (p ≡ old_path) ⊎ (p ≡ new_path)

segments_differ :
    (has_segments (path_segments_for_path old_path) (path_segments_for_path new_path) ≡ false)
    × (has_segments (path_segments_for_path new_path) (path_segments_for_path old_path) ≡ false)
unfolding path_segments_for_path split_on has_segments
segments_differ = (refl, refl)

segments_there :
    (path_segments_for_path old_path ≡ old_path ∷ [])
    × (path_segments_for_path new_path ≡ new_path ∷ [])
unfolding path_segments_for_path split_on
segments_there = (refl, refl)

IsKnown-paths : ArePaths IsKnown
IsKnown-paths = record {
  apart = λ p q k l h. elim k [
    | inl a ↦ elim l [
      | inl b ↦ a ∙ sym b
      | inr b ↦ absurd (false≢true (sym segments_differ.0 ∙ (rw (a, b) at h)))
    ]
    | inr a ↦ elim l [
      | inl b ↦ absurd (false≢true (sym segments_differ.1 ∙ (rw (a, b) at h)))
      | inr b ↦ a ∙ sym b
    ]
  ];
  some_segment = λ p k e. elim k [
    | inl a ↦ (let z : old_path ∷ [] ≡ [] = sym segments_there.0 ∙ (rw a at e) in cc)
    | inr a ↦ (let z : new_path ∷ [] ≡ [] = sym segments_there.1 ∙ (rw a at e) in cc)
  ];
  no_nul = λ p k. elim k [ inl a ↦ rw a (ground arith) | inr a ↦ rw a (ground arith) ];
}

job-IsSound : IsSound job IsKnown (one_file new_path)
unfolding IsOf
job-IsSound = record {
  paths = IsKnown-paths;
  no_collision = λ s t e. e;
  chunks_are = λ path content. ((refl, refl), tt);
  after_without = ground arith;
  reads = λ path found e. cc;
}

renamed-IsChange : IsChange job IsKnown (one_file new_path) renamed
renamed-IsChange = record {
  known = inr refl;
  known_previous = inl refl;
  moved = λ q e. let same : q ≡ old_path = text_eq_sound q old_path e in rw same refl;
  removed = λ e. absurd (false≢true e);
  blob_without = ground arith;
}

old_points-IsPoint : All (IsPoint IsKnown) old_points
unfolding indexed_chunk IsOf
old_points-IsPoint = (
  record {
    known = inl refl;
    origin = (refl, refl);
    without_nul = record {
      ref_without = ground arith;
      path_without = ground arith;
      blob_without = ground arith;
    };
  },
  tt,
)

nothing_else : (q : Text) → text_eq q old_path ≡ false → chunks_of job (one_file old_path) q ≡ []
nothing_else q e = elim (Bool-cases (should_index_file job.to_lower q none job.options)) [
  | inl d ↦ rw (d, e) refl
  | inr d ↦ rw d refl
]

old_path-IsSynced :
    IsSyncedAt old_path
      (chunks_of job (one_file old_path) old_path)
      (files_by_path old_files [])
      old_points
unfolding files_by_path indexed_chunk map_get map_set basename from_last path_segments_for_path
    extension_of filename_of contains_excluded_directory language_for_path piece_at pieces_from
    repeated test with_slashes normalize_path_pattern candidates matches_path_pattern
    matches_any_path_pattern should_index_file trim is_space split_on
old_path-IsSynced = record { points_are = refl; entry_is = refl }

old-IsSynced :
    (q : Text)
    → IsSyncedAt q (chunks_of job (one_file old_path) q) (files_by_path old_files []) old_points
unfolding files_by_path indexed_chunk map_get map_set
old-IsSynced q = elim (Bool-cases (text_eq q old_path)) [
  | inl e ↦
      subst
        (λ x.
          IsSyncedAt x (chunks_of job (one_file old_path) x) (files_by_path old_files [])
            old_points)
        (sym (text_eq_sound q old_path e)) old_path-IsSynced
  | inr e ↦
      (let other : text_eq old_path q ≡ false = text_eq_comm old_path q ∙ e in
        rw (nothing_else q e) (record { points_are = rw other refl; entry_is = rw other refl }))
]

renamed_only :
    (q : Text)
    → any (λ change. names_path change q) (renamed ∷ []) ≡ false
    → one_file old_path q ≡ one_file new_path q
renamed_only q h =
    let at_old : text_eq q old_path ≡ false = ground arith in
    let at_new : text_eq q new_path ≡ false = ground arith in rw (at_old, at_new) refl

abbrev pushed_points : Points
pushed_points = map (indexed_chunk job (codes "s")) (one_chunk new_path (codes "x"))

abbrev pushed : Progress job
pushed = record {
  files = (new_path, entry_of (codes "s") new_path (one_chunk new_path (codes "x"))) ∷ [];
  count = 1;
}

push_runs : push_changes job old_files old_points (renamed ∷ []) ≡ (pushed_points, ok pushed)
unfolding point_id_for_chunk point_key decimal basename from_last path_segments_for_path
    extension_of filename_of contains_excluded_directory language_for_path piece_at pieces_from
    repeated test with_slashes normalize_path_pattern candidates matches_path_pattern
    matches_any_path_pattern should_index_file map_get map_delete map_set has_segments
    stored_segments delete_path delete_previous put_points upsert_chunks indexed_chunk prepared
    chunked read_and_chunk_single_file check_chunks embed_and_upsert_chunks stored_file
    store_prepared index_single_file apply_cleared apply_changed_file should_fallback_to_full_index
    adds_repository_to_installation updates_default_branch_status changes_repo_config
    incremental_plan files_by_path delete_previous_entry counted_chunks current_manifest_chunk_count
    subtract_manifest_chunk_count project project_files check_files before_change after_change
    apply_changes finish_push push_changes trim is_space split_on
push_runs = refl

push_changes-Synced_example :
    IsSyncedAt new_path (chunks_of job (one_file new_path) new_path) pushed.files pushed_points
push_changes-Synced_example =
    push_changes-Synced job IsKnown (one_file new_path) job-IsSound (one_file old_path) old_files
      (renamed ∷ []) pushed old_points pushed_points (renamed-IsChange, tt) renamed_only
      old_points-IsPoint old-IsSynced push_runs new_path

job-Answers : Answers job
job-Answers = record {
  read = λ path. (one_file new_path path, refl);
  embed = λ texts. (map (λ _. tt) texts, refl, length-map (λ _. tt) texts);
  store_works = λ call. refl;
  reported = λ phase. refl;
  no_limits = refl;
}

push_changes_succeeds_example :
    (left : Points) × (done : Progress job) × (push_changes job old_files old_points (renamed ∷ [])
      ≡ (left, ok done))
    × ((q : Text) → IsSyncedAt q (chunks_of job (one_file new_path) q) done.files left)
push_changes_succeeds_example =
    push_changes_succeeds job IsKnown (one_file old_path) (one_file new_path) old_files
      (renamed ∷ []) old_points job-Answers job-IsSound (renamed-IsChange, tt) renamed_only
      old_points-IsPoint old-IsSynced

-- Two chunks of one character, and batches of one chunk.
batches_of_chunks_example :
    All
      (IsBatch 1 10)
      (flush_current_batch (add_chunks 1 10 new_batcher (old_points ++ pushed_points))).scheduled
    × (flatten
          (flush_current_batch
            (add_chunks 1 10 new_batcher (old_points ++ pushed_points))).scheduled
        ≡ old_points ++ pushed_points)
batches_of_chunks_example = batches_of_chunks 1 10 (old_points ++ pushed_points) (omega arith)
