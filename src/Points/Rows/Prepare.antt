-- ===== src/Points/Rows/Prepare.antt =====
-- The rows that an upsert writes: `computePayloadSign`, `vectorToFloatBinary`, `prepareUpsertBatch` of
-- src/compute/ComputeWorker.ts and the row builders of Upsert.ts.
use ydb_qdrant.Prelude.{ℕ, List, [], ◌∷◌, ◌++◌, if◌then◌else◌, get_or, map, Result, ok, err, ◌>>=◌}
use ydb_qdrant.Text.{Text, is_empty, trim}
use ydb_qdrant.Json.{Json, obj, no_prop}
use ydb_qdrant.Points.{Failure, sign_key_empty, worker_key_empty, non_finite, traverse}
use ydb_qdrant.Points.Paths.{extract_path_prefix}
use ydb_qdrant.Points.Rows.{
  Answer, done, at_limit, thrown, Platform, UpsertPoint, PreparedUpsertRow, PrepareUpsertBatchTask,
  Pool, fall_back,
}

module _ {Float : Type 0} (platform : Platform Float) where
  unfoldable pub compute_payload_sign : Text → Json → Result Failure Text
  unfolding trim
  compute_payload_sign api_key payload =
      let key = trim api_key in
      if is_empty key
      then err sign_key_empty
      else ok (platform.hmac key (platform.stable_stringify payload))

  unfoldable pub write_floats : List Float → Result Failure (List ℕ)
  write_floats [] = ok (1 ∷ [])
  write_floats (v ∷ vs) =
      let rest = write_floats vs in
      if platform.is_finite v
      then (rest >>= λ octets. ok (platform.write_float v ++ octets))
      else err non_finite

  -- The octets of the vector and a last octet 1, which alone stands for the empty vector.
  unfoldable pub vector_to_float_binary : List Float → Result Failure (List ℕ)
  unfolding write_floats
  vector_to_float_binary vector = write_floats vector

  -- The row of one point in a worker.
  unfoldable pub prepare_row : Text → Text → UpsertPoint Float → Result Failure PreparedUpsertRow
  prepare_row collection api_key p =
      let payload_obj = get_or p.payload (obj no_prop) in
      vector_to_float_binary p.vector >>= λ embedding.
      compute_payload_sign api_key payload_obj >>= λ payload_sign.
      extract_path_prefix platform.encode payload_obj >>= λ path_prefix. ok (record {
        collection = collection;
        point_id = p.id;
        embedding = embedding;
        payload = platform.stringify payload_obj;
        payload_sign = payload_sign;
        path_prefix = path_prefix;
      })

  unfoldable pub prepare_upsert_batch :
      PrepareUpsertBatchTask Float → Result Failure (List PreparedUpsertRow)
  unfolding trim
  prepare_upsert_batch task =
      let api_key = trim task.api_key in
      if is_empty api_key
      then err worker_key_empty
      else traverse (prepare_row task.collection api_key) task.batch

  -- The row of one point on the main thread.
  unfoldable pub bulk_upsert_row :
      Text → Text → UpsertPoint Float → Result Failure PreparedUpsertRow
  bulk_upsert_row collection api_key p =
      let payload_obj = get_or p.payload (obj no_prop) in
      vector_to_float_binary p.vector >>= λ embedding.
      compute_payload_sign api_key payload_obj >>= λ payload_sign.
      extract_path_prefix platform.encode payload_obj >>= λ path_prefix. ok (record {
        collection = collection;
        point_id = p.id;
        embedding = embedding;
        payload = platform.stringify payload_obj;
        payload_sign = payload_sign;
        path_prefix = path_prefix;
      })

  unfoldable pub build_bulk_upsert_rows_value :
      PrepareUpsertBatchTask Float → Result Failure (List PreparedUpsertRow)
  unfolding trim
  build_bulk_upsert_rows_value args =
      let api_key = trim args.api_key in
      traverse (bulk_upsert_row args.collection api_key) args.batch

  -- The buffer is another view of the same octets.
  abbrev as_bytes_buffer : List ℕ → List ℕ
  as_bytes_buffer octets = octets

  -- A row that came from a worker.
  unfoldable pub mapped_row : PreparedUpsertRow → PreparedUpsertRow
  mapped_row row = record {
    collection = row.collection;
    point_id = row.point_id;
    embedding = as_bytes_buffer row.embedding;
    payload = row.payload;
    payload_sign = row.payload_sign;
    path_prefix = row.path_prefix;
  }

  abbrev map_rows : Answer (List PreparedUpsertRow) → Answer (List PreparedUpsertRow)
  map_rows (done rows) = done (map mapped_row rows)
  map_rows at_limit = at_limit
  map_rows (thrown e) = thrown e

  unfoldable pub build_bulk_upsert_rows_value_with_workers :
      Pool Float → PrepareUpsertBatchTask Float → Answer (List PreparedUpsertRow)
  build_bulk_upsert_rows_value_with_workers pool args = map_rows (pool.run_prepare args)

  -- The choice between the two in `upsertPoints`.
  unfoldable pub prepare_rows :
      Pool Float → PrepareUpsertBatchTask Float → Result Failure (List PreparedUpsertRow)
  prepare_rows pool args =
      if pool.enabled
      then fall_back (build_bulk_upsert_rows_value_with_workers pool args)
          (build_bulk_upsert_rows_value args)
      else build_bulk_upsert_rows_value args
