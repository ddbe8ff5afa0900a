-- ===== src/Points/Tables/Tests.antt =====
-- A point that is written under two paths, and a deletion by the first.
use ydb_qdrant.Prelude.{
  ℕ, All, inl, List, [], ◌∷◌, ◌++◌, true, false, ◌≡◌, refl, arith, filter, not, ◌&&◌, none, some,
  get_or, Option, Result, ok, err, ◌>>=◌,
}
use ydb_qdrant.Text.{Text, codes, text_eq, trim, join, split_on}
use ydb_qdrant.Json.{obj, arr, str, prop, no_prop, value, no_value}
use ydb_qdrant.Points.{Failure}
use ydb_qdrant.Points.Paths.{
  extract_path_prefix, normalize_path_segments, path_segments_to_prefix, expand_path_prefixes,
}
use ydb_qdrant.Points.Filter.{exact_matches}
use ydb_qdrant.Points.Rows.{Platform, PreparedUpsertRow, Pool, PrepareUpsertBatchTask, at_limit}
use ydb_qdrant.Points.Rows.Prepare.{
  prepare_rows, build_bulk_upsert_rows_value, bulk_upsert_row, vector_to_float_binary,
  compute_payload_sign,
}
use ydb_qdrant.Points.Tables.Index.{column_matches}
use ydb_qdrant.Points.Tables.Reached.{
  IsBatch, delete_points_by_path_segments_chunked-column_matches,
}
use ydb_qdrant.Points.Tables.{
  Tables, upsert_batches, upsert_batch, build_points_by_file_lookup_rows, delete_rounds,
  delete_points_by_path_segments_chunked,
}
use ydb_qdrant.Points.Tables.Deletion.{IsDeleted, delete_points_by_path_segments_chunked-IsDeleted}

abbrev simple : Platform ℕ
simple = record {
  encode = λ t. ok t;
  hmac = λ k t. b'#' ∷ k ++ t;
  stable_stringify = λ v. codes "payload";
  stringify = λ v. codes "payload";
  parse = λ t. some (obj no_prop);
  is_finite = λ v. true;
  write_float = λ v. v ∷ 0 ∷ 0 ∷ 0 ∷ [];
  number_of = λ f t. get_or f 0;
}

abbrev no_workers : Pool ℕ
no_workers = record { enabled = false; run_prepare = λ t. at_limit; run_verify = λ t. at_limit }

-- The point `p1` at a path of one segment.
abbrev at : Text → PrepareUpsertBatchTask ℕ
at segment = record {
  collection = codes "c";
  api_key = codes "k";
  batch =
      record {
        id = codes "p1";
        vector = [];
        payload =
            some (obj (prop (codes "pathSegments") (arr (value (str segment) no_value)) no_prop));
      }
      ∷ [];
}

abbrev empty : Tables
empty = record { points = []; lookup = [] }

abbrev moved : Result Failure Tables
moved = upsert_batch simple no_workers (at (codes "a")) empty >>= λ t.
    upsert_batch simple no_workers (at (codes "b")) t

abbrev left_points : Result Failure Tables → Option (List PreparedUpsertRow)
left_points (err e) = none
left_points (ok t) =
    elim (delete_points_by_path_segments_chunked (codes "c") (λ f. text_eq f (codes "a")) 2 t) [
      | none ↦ none
      | some (t', n) ↦ some t'.points
    ]

-- The deletion by the first path finds the point by its old lookup row.
deleted_by_old_path : left_points moved ≡ some []
unfolding upsert_batch prepare_rows build_bulk_upsert_rows_value bulk_upsert_row
    vector_to_float_binary compute_payload_sign trim extract_path_prefix normalize_path_segments
    path_segments_to_prefix expand_path_prefixes join split_on build_points_by_file_lookup_rows
    delete_rounds delete_points_by_path_segments_chunked
deleted_by_old_path = refl

abbrev two_rows : Tables
two_rows = record {
  points = [];
  lookup =
      record { collection = codes "c"; file_path = codes "a"; point_id = codes "p1" }
      ∷ record { collection = codes "c"; file_path = codes "b"; point_id = codes "p2" }
      ∷ [];
}

delete_points_by_path_segments_chunked-IsDeleted_example :
    (t' : Tables) × (n : ℕ) × (delete_points_by_path_segments_chunked
        (codes "c")
        (λ f. text_eq f (codes "a"))
        2
        two_rows
      ≡ some (t', n))
    × IsDeleted (codes "c") (λ f. text_eq f (codes "a")) two_rows t'
delete_points_by_path_segments_chunked-IsDeleted_example =
    delete_points_by_path_segments_chunked-IsDeleted (codes "c") (λ f. text_eq f (codes "a")) 2
      (omega arith) two_rows

-- The point is written twice at the same path.
abbrev twice : List (PrepareUpsertBatchTask ℕ)
twice = at (codes "a") ∷ at (codes "a") ∷ []

abbrev reached : Tables
reached = record {
  points =
      record {
        collection = codes "c";
        point_id = codes "p1";
        embedding = 1 ∷ [];
        payload = codes "payload";
        payload_sign = codes "#kpayload";
        path_prefix = some (codes "a");
      }
      ∷ [];
  lookup = record { collection = codes "c"; file_path = codes "a"; point_id = codes "p1" } ∷ [];
}

twice-reached : upsert_batches simple no_workers twice empty ≡ ok reached
unfolding upsert_batches upsert_batch prepare_rows build_bulk_upsert_rows_value bulk_upsert_row
    vector_to_float_binary compute_payload_sign trim extract_path_prefix normalize_path_segments
    path_segments_to_prefix expand_path_prefixes join split_on build_points_by_file_lookup_rows
twice-reached = refl

abbrev always_a : Text → Text → Option Text
always_a c i = some (codes "a")

twice-IsBatch : All (IsBatch always_a simple) twice
unfolding trim extract_path_prefix normalize_path_segments path_segments_to_prefix join
twice-IsBatch = ((refl, (refl, tt)), ((refl, (refl, tt)), tt))

delete_points_by_path_segments_chunked-column_matches_example :
    (t' : Tables) × (n : ℕ) × (delete_points_by_path_segments_chunked
        (codes "c")
        (λ f. exact_matches f (codes "a"))
        2
        reached
      ≡ some (t', n))
    × (t'.points
        ≡ filter
            (λ p.
              not (text_eq p.collection (codes "c") && column_matches p.path_prefix (codes "a")))
            reached.points)
delete_points_by_path_segments_chunked-column_matches_example =
    delete_points_by_path_segments_chunked-column_matches always_a simple no_workers twice reached
      (codes "c") (codes "a") 2 (λ c i e. cc) (λ task. inl refl) twice-IsBatch twice-reached
      (omega arith)
