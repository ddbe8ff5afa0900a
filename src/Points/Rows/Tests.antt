-- ===== src/Points/Rows/Tests.antt =====
-- The theorems on rows at a platform of simple functions, and one signed row.
use ydb_qdrant.Prelude.{
  ℕ, ◌+◌, ◌*◌, List, [], ◌∷◌, ◌++◌, true, false, ◌≡◌, refl, inr, none, some, get_or, map, ok, ◌>>=◌,
}
use ydb_qdrant.Prelude.Options.{cat_some}
use ydb_qdrant.Text.{Text, codes, is_empty, trim}
use ydb_qdrant.Json.{obj, no_prop}
use ydb_qdrant.Points.Paths.{extract_path_prefix, normalize_path_segments}
use ydb_qdrant.Points.Rows.{
  Platform, Pool, YdbRow, UpsertPoint, PreparedUpsertRow, PrepareUpsertBatchTask, answer,
}
use ydb_qdrant.Points.Rows.Prepare.{
  prepare_upsert_batch, prepare_row, prepare_rows, build_bulk_upsert_rows_value,
  vector_to_float_binary, compute_payload_sign,
}
use ydb_qdrant.Points.Rows.Verify.{
  verify_search_rows, parse_search_rows, parse_search_rows_maybe_with_workers, retrieve_rows,
}
use ydb_qdrant.Points.Rows.Reading.{point_of}
use ydb_qdrant.Points.Rows.Reading.Agreement.{
  IsFaithful, parse_search_rows_maybe_with_workers-parse_search_rows, parse_search_rows-point_of,
  retrieve_rows-parse_search_rows,
}
use ydb_qdrant.Points.Rows.Writing.{
  read_back, length-vector_to_float_binary, prepare_rows-build_bulk_upsert_rows_value,
  prepare_row-parse_search_rows,
}

abbrev simple : Platform ℕ
simple = record {
  encode = λ t. ok t;
  hmac = λ k t. b'#' ∷ k ++ t;
  stable_stringify = λ v. codes "payload";
  stringify = λ v. codes "payload";
  parse = λ t. some (obj no_prop);
  is_finite = λ v. true;
  write_float = λ v. v ∷ 0 ∷ 0 ∷ 0 ∷ [];
  number_of = λ f t. get_or f 0;
}

abbrev workers : Pool ℕ
workers = record {
  enabled = true;
  run_prepare = λ task. answer (prepare_upsert_batch simple task);
  run_verify = λ task. answer (verify_search_rows simple task);
}

workers-IsFaithful : IsFaithful simple workers
workers-IsFaithful task = inr refl

abbrev key : Text
key = codes " k "

abbrev point : UpsertPoint ℕ
point = record { id = codes "p1"; vector = 3 ∷ 4 ∷ []; payload = none }

abbrev prepared_point : PreparedUpsertRow
prepared_point = record {
  collection = codes "c";
  point_id = codes "p1";
  embedding = 3 ∷ 0 ∷ 0 ∷ 0 ∷ 4 ∷ 0 ∷ 0 ∷ 0 ∷ 1 ∷ [];
  payload = codes "payload";
  payload_sign = codes "#kpayload";
  path_prefix = none;
}

point_prepared : prepare_row simple (codes "c") (trim key) point ≡ ok prepared_point
unfolding prepare_row vector_to_float_binary compute_payload_sign extract_path_prefix
    normalize_path_segments
point_prepared = refl

abbrev rows : List (YdbRow ℕ)
rows = read_back simple (codes "payload") 9 prepared_point ∷ []

key_given : is_empty (trim key) ≡ false
unfolding trim
key_given = refl

parse_search_rows_maybe_with_workers-parse_search_rows_example :
    parse_search_rows_maybe_with_workers simple workers rows key (some true)
    ≡ parse_search_rows simple rows key (some true)
parse_search_rows_maybe_with_workers-parse_search_rows_example =
    parse_search_rows_maybe_with_workers-parse_search_rows simple key key_given workers
      workers-IsFaithful rows (some true)

parse_search_rows-point_of_example :
    parse_search_rows simple rows key (some true)
    ≡ ok (cat_some (map (point_of simple key (some true)) rows))
parse_search_rows-point_of_example =
    parse_search_rows-point_of simple key key_given rows (some true) refl

retrieve_rows-parse_search_rows_example :
    (retrieve_rows simple rows key true >>= λ rs. ok (map (λ p. p.id) rs))
    ≡ (parse_search_rows simple rows key none >>= λ ps. ok (map (λ p. p.id) ps))
retrieve_rows-parse_search_rows_example =
    retrieve_rows-parse_search_rows simple key key_given rows true none refl

abbrev batch : PrepareUpsertBatchTask ℕ
batch = record { collection = codes "c"; api_key = key; batch = point ∷ [] }

prepare_rows-build_bulk_upsert_rows_value_example :
    prepare_rows simple workers batch ≡ build_bulk_upsert_rows_value simple batch
prepare_rows-build_bulk_upsert_rows_value_example =
    prepare_rows-build_bulk_upsert_rows_value simple workers batch (inr refl) key_given

prepare_row-parse_search_rows_example :
    parse_search_rows simple rows key (some true)
    ≡ ok (record { id = codes "p1"; score = 9; payload = some (obj no_prop) } ∷ [])
prepare_row-parse_search_rows_example =
    prepare_row-parse_search_rows simple (λ k t. refl) key (codes "c") point prepared_point
      key_given point_prepared (codes "payload") (obj no_prop) refl refl refl refl 9

two_floats :
    vector_to_float_binary simple (3 ∷ 4 ∷ []) ≡ ok (3 ∷ 0 ∷ 0 ∷ 0 ∷ 4 ∷ 0 ∷ 0 ∷ 0 ∷ 1 ∷ [])
unfolding vector_to_float_binary
two_floats = refl

length-vector_to_float_binary_example : 9 ≡ 4 * 2 + 1
length-vector_to_float_binary_example =
    length-vector_to_float_binary simple (λ v. refl) (3 ∷ 4 ∷ [])
      (3 ∷ 0 ∷ 0 ∷ 0 ∷ 4 ∷ 0 ∷ 0 ∷ 0 ∷ 1 ∷ []) two_floats
