-- ===== src/Points/Tables.antt =====
-- The table of points and the table of their lookup rows, under the statements of
-- src/repositories/pointsRepo.storage/Upsert.ts and Delete.ts. A statement is what it does to the
-- rows: `UPSERT` and `BulkUpsert` replace the row of a key or add one, and `LIMIT` takes the first rows
-- that qualify. An error of the database is left out.
pub mod Filters
pub mod Deletion
pub mod Index
pub mod Upserts
pub mod Reached
mod Tests
use ydb_qdrant.Prelude.{
  ℕ, zero, suc, ◌+◌, List, [], ◌∷◌, ◌++◌, Bool, true, false, not, ◌&&◌, ◌==◌, if◌then◌else◌, Option,
  none, some, get_or, map, filter, any, take, length, Result, ok, err, ◌>>=◌,
}
use ydb_qdrant.Text.{Text, text_eq, is_empty}
use ydb_qdrant.Json.{Json, obj, no_prop}
use ydb_qdrant.Points.{Failure, traverse}
use ydb_qdrant.Points.Paths.{extract_path_prefix, expand_path_prefixes}
use ydb_qdrant.Points.Rows.{Platform, Pool, UpsertPoint, PreparedUpsertRow, PrepareUpsertBatchTask}
use ydb_qdrant.Points.Rows.Prepare.{prepare_rows}

pub record LookupRow : Type 0 where
  pub collection : Text
  pub file_path : Text
  pub point_id : Text

pub record Tables : Type 0 where
  pub points : List PreparedUpsertRow
  pub lookup : List LookupRow

-- Rows with the same primary key, and the lookup rows of a point.
abbrev pub same_row : LookupRow → LookupRow → Bool
same_row l r =
    text_eq l.collection r.collection
    && text_eq l.file_path r.file_path
    && text_eq l.point_id r.point_id

abbrev pub same_point : PreparedUpsertRow → PreparedUpsertRow → Bool
same_point p q = text_eq p.collection q.collection && text_eq p.point_id q.point_id

abbrev pub is_of : LookupRow → PreparedUpsertRow → Bool
is_of l p = text_eq l.collection p.collection && text_eq l.point_id p.point_id

abbrev pub put_all : {A : Type 0} → (A → A → Bool) → List A → List A → List A
put_all same [] rows = rows
put_all same (r ∷ rs) rows = put_all same rs (r ∷ filter (λ q. not (same r q)) rows)

abbrev pub lookup_rows_at : Text → Text → Option Text → List LookupRow
lookup_rows_at collection id none = []
lookup_rows_at collection id (some file_path) =
    if is_empty file_path
    then []
    else map (λ prefix. record { collection = collection; file_path = prefix; point_id = id })
        (expand_path_prefixes file_path)

abbrev pub concat : List (List LookupRow) → List LookupRow
concat [] = []
concat (ls ∷ lss) = ls ++ concat lss

unfoldable pub build_points_by_file_lookup_rows :
    {Float : Type 0}
    → (Text → Result Failure Text)
    → Text
    → List (UpsertPoint Float)
    → Result Failure (List LookupRow)
build_points_by_file_lookup_rows encode collection batch =
    traverse
      (λ point. extract_path_prefix encode (get_or point.payload (obj no_prop)) >>= λ file_path.
        ok (lookup_rows_at collection point.id file_path))
      batch
    >>= λ rows. ok (concat rows)

-- One round of the loop of `upsertPoints`.
unfoldable pub upsert_batch :
    {Float : Type 0}
    → Platform Float
    → Pool Float
    → PrepareUpsertBatchTask Float
    → Tables
    → Result Failure Tables
upsert_batch platform pool task t = prepare_rows platform pool task >>= λ rows.
    build_points_by_file_lookup_rows platform.encode task.collection task.batch >>= λ lookup_rows.
    ok (record {
      points = put_all same_point rows t.points;
      lookup = put_all same_row lookup_rows t.lookup;
    })

-- Any batches, one after another.
unfoldable pub upsert_batches :
    {Float : Type 0}
    → Platform Float
    → Pool Float
    → List (PrepareUpsertBatchTask Float)
    → Tables
    → Result Failure Tables
upsert_batches platform pool [] t = ok t
upsert_batches platform pool (task ∷ tasks) t =
    upsert_batch platform pool task t >>= λ t'. upsert_batches platform pool tasks t'

-- `collection = $collection AND` the exact filter on `file_path`
abbrev pub hits : Text → (Text → Bool) → LookupRow → Bool
hits collection matches l = text_eq l.collection collection && matches l.file_path

-- The rows of `$to_delete`.
abbrev pub to_delete : Text → (Text → Bool) → ℕ → List LookupRow → List LookupRow
to_delete collection matches limit rows = take limit (filter (hits collection matches) rows)

-- The two `DELETE` statements of a round.
abbrev pub without : List LookupRow → Tables → Tables
without deleted t = record {
  points = filter (λ p. not (any (λ l. is_of l p) deleted)) t.points;
  lookup = filter (λ l. not (any (same_row l) deleted)) t.lookup;
}

abbrev pub add_deleted : ℕ → Option (Tables × ℕ) → Option (Tables × ℕ)
add_deleted n none = none
add_deleted n (some (t, deleted)) = some (t, n + deleted)

-- The loop of `deletePointsByPathSegmentsChunked`; `none` is a run that the fuel does not cover. The
-- count of a round is at most its limit, so the check of the count never throws.
unfoldable pub delete_rounds : (fuel : ℕ) → Text → (Text → Bool) → ℕ → Tables → Option (Tables × ℕ)
delete_rounds zero collection matches limit t = none
delete_rounds (suc fuel) collection matches limit t =
    let deleted = to_delete collection matches limit t.lookup in
    let after = without deleted t in
    let rest = delete_rounds fuel collection matches limit after in
    if length deleted == 0 then some (after, 0) else add_deleted (length deleted) rest

-- Each round deletes a lookup row, but for the last.
unfoldable pub delete_points_by_path_segments_chunked :
    Text → (Text → Bool) → ℕ → Tables → Option (Tables × ℕ)
delete_points_by_path_segments_chunked collection matches limit t =
    delete_rounds (suc (length t.lookup)) collection matches limit t
