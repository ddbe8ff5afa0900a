-- ===== src/Points/Rows/Verify.antt =====
-- The rows that a search or a retrieval reads: `verifySearchRows` of src/compute/ComputeWorker.ts, the
-- row parsers of Search.ts and the loop of Retrieve.ts.
use ydb_qdrant.Prelude.{
  List, [], ◌∷◌, Bool, true, if◌then◌else◌, Option, none, some, Result, ok, ◌⊎◌, inl, inr, err,
  ◌>>=◌,
}
use ydb_qdrant.Prelude.Options.{and_then, cat_some}
use ydb_qdrant.Text.{Text, text_eq, is_empty, trim}
use ydb_qdrant.Json.{Json}
use ydb_qdrant.Points.{Failure, worker_key_empty, missing_point_id, traverse}
use ydb_qdrant.Points.Rows.Prepare.{compute_payload_sign}
use ydb_qdrant.Points.Rows.{
  Platform, YdbRow, ScoredPoint, RetrievedPoint, TaskRow, VerifySearchRowsTask, DropReason,
  VerifySearchRowsResult, Answer, Pool, is_truthy, fall_back, present, text_at, float_at, done,
  at_limit, thrown, missing_payload_or_signature, signature_mismatch,
}

module _ {Float : Type 0} (platform : Platform Float) where
  -- `if (payloadText) { try { JSON.parse } catch { undefined } }`, and then the test `!payload`.
  unfoldable pub read_payload : Option Text → Option Json
  read_payload payload_text =
      and_then (present payload_text)
        (λ t. and_then (platform.parse t) (λ v. if is_truthy v then some v else none))

  -- `...(withPayload === true ? { payload } : {})`
  abbrev pub shown : Option Bool → Json → Option Json
  shown (some true) payload = some payload
  shown _ payload = none

  unfoldable pub verify_row :
      Text → Option Bool → TaskRow Float → Result Failure (DropReason ⊎ ScoredPoint Float)
  verify_row api_key with_payload row = elim (read_payload row.payload_text) [
    | none ↦ ok (inl missing_payload_or_signature)
    | some payload ↦ elim (present row.payload_sign) [
      | none ↦ ok (inl missing_payload_or_signature)
      | some payload_sign ↦ compute_payload_sign platform api_key payload >>= λ expected.
          (if text_eq expected payload_sign
            then ok (
                inr (record {
                  id = row.point_id;
                  score = platform.number_of row.score_float row.score_text;
                  payload = shown with_payload payload;
                }))
            else ok (inl signature_mismatch))
    ]
  ]

  -- `points.push` or `dropped.push`, before those of the later rows.
  abbrev pub add_verified :
      Text
      → DropReason ⊎ ScoredPoint Float
      → VerifySearchRowsResult Float
      → VerifySearchRowsResult Float
  add_verified id (inl reason) r = record r { dropped = (id, reason) ∷ r.dropped }
  add_verified id (inr point) r = record r { points = point ∷ r.points }

  unfoldable pub verify_rows :
      Text → Option Bool → List (TaskRow Float) → Result Failure (VerifySearchRowsResult Float)
  unfolding verify_row
  verify_rows api_key with_payload [] = ok (record { points = []; dropped = [] })
  verify_rows api_key with_payload (row ∷ rows) =
      verify_row api_key with_payload row >>= λ verified.
      verify_rows api_key with_payload rows >>= λ rest. ok (add_verified row.point_id verified rest)

  unfoldable pub verify_search_rows :
      VerifySearchRowsTask Float → Result Failure (VerifySearchRowsResult Float)
  unfolding trim verify_rows
  verify_search_rows task =
      let api_key = trim task.api_key in
      if is_empty api_key
      then err worker_key_empty
      else verify_rows api_key task.with_payload task.rows

  -- A row of the search result: its id, and its point unless it is left out.
  unfoldable pub parse_row :
      Text → Option Bool → YdbRow Float → Result Failure (Option (ScoredPoint Float))
  parse_row api_key with_payload row = elim (text_at 0 row) [
    | none ↦ err missing_point_id
    | some id ↦ elim (read_payload (text_at 1 row)) [
      | none ↦ ok none
      | some payload ↦ elim (present (text_at 2 row)) [
        | none ↦ ok none
        | some payload_sign ↦ compute_payload_sign platform api_key payload >>= λ expected.
            (if text_eq expected payload_sign
              then ok (
                  some (record {
                    id = id;
                    score = platform.number_of (float_at 3 row) (text_at 3 row);
                    payload = shown with_payload payload;
                  }))
              else ok none)
      ]
    ]
  ]

  unfoldable pub parse_search_rows :
      List (YdbRow Float) → Text → Option Bool → Result Failure (List (ScoredPoint Float))
  unfolding trim parse_row
  parse_search_rows rows key with_payload =
      let api_key = trim key in
      traverse (parse_row api_key with_payload) rows >>= λ points. ok (cat_some points)

  abbrev pub task_row : YdbRow Float → Result Failure (TaskRow Float)
  task_row row = elim (text_at 0 row) [
    | none ↦ err missing_point_id
    | some id ↦ ok (record {
      point_id = id;
      payload_text = text_at 1 row;
      payload_sign = text_at 2 row;
      score_text = text_at 3 row;
      score_float = float_at 3 row;
    })
  ]

  unfoldable pub points_of :
      Answer (VerifySearchRowsResult Float) → Answer (List (ScoredPoint Float))
  points_of (done r) = done r.points
  points_of at_limit = at_limit
  points_of (thrown e) = thrown e

  unfoldable pub parse_search_rows_with_workers :
      Pool Float → List (YdbRow Float) → Text → Option Bool → Answer (List (ScoredPoint Float))
  unfolding points_of
  parse_search_rows_with_workers pool rows api_key with_payload = elim (traverse task_row rows) [
    | err e ↦ thrown e
    | ok task_rows ↦ points_of (
        pool.run_verify
          (record { api_key = api_key; with_payload = with_payload; rows = task_rows }))
  ]

  unfoldable pub parse_search_rows_maybe_with_workers :
      Pool Float
      → List (YdbRow Float)
      → Text
      → Option Bool
      → Result Failure (List (ScoredPoint Float))
  parse_search_rows_maybe_with_workers pool rows api_key with_payload =
      if pool.enabled
      then fall_back (parse_search_rows_with_workers pool rows api_key with_payload)
          (parse_search_rows rows api_key with_payload)
      else parse_search_rows rows api_key with_payload

  -- A row of `retrievePointsByIds`, which skips a row that has no id.
  unfoldable pub retrieve_row : Text → Bool → YdbRow Float → Result Failure (Option RetrievedPoint)
  retrieve_row api_key with_payload row = elim (text_at 0 row) [
    | none ↦ ok none
    | some id ↦ elim (read_payload (text_at 1 row)) [
      | none ↦ ok none
      | some payload ↦ elim (present (text_at 2 row)) [
        | none ↦ ok none
        | some payload_sign ↦ compute_payload_sign platform api_key payload >>= λ expected.
            (if text_eq expected payload_sign
              then ok
                  (some (record { id = id; payload = if with_payload then some payload else none }))
              else ok none)
      ]
    ]
  ]

  unfoldable pub retrieve_rows :
      List (YdbRow Float) → Text → Bool → Result Failure (List RetrievedPoint)
  unfolding trim retrieve_row
  retrieve_rows rows api_key with_payload =
      let trimmed_api_key = trim api_key in
      traverse (retrieve_row trimmed_api_key with_payload) rows >>= λ points. ok (cat_some points)
