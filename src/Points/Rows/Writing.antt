-- ===== src/Points/Rows/Writing.antt =====
-- Writing signed rows: the workers and the inline path prepare the same rows, and a row that was
-- written with a key is returned to a search with that key.
use ydb_qdrant.Prelude.{
  ◌∙◌, ap, refl, ℕ, ◌+◌, ◌*◌, List, [], ◌∷◌, true, ◌≡◌, ◌⊎◌, arith, Option, none, some, get_or,
  length, length-append, ok, err, Result, map, sym, inl, inr, Bool, false, if◌then◌else◌,
}
use ydb_qdrant.Prelude.Options.{cat_some}
use ydb_qdrant.Text.{Text, is_empty, trim}
use ydb_qdrant.Text.Laws.{text_eq_refl}
use ydb_qdrant.Json.{Json, obj, no_prop}
use ydb_qdrant.Points.{Failure, traverse}
use ydb_qdrant.Points.Rows.{
  ScoredPoint, Platform, UpsertPoint, PreparedUpsertRow, PrepareUpsertBatchTask, Pool, at_limit,
  answer, fall_back, YdbRow, Cell, is_truthy,
}
use ydb_qdrant.Points.Rows.Prepare.{
  bulk_upsert_row, mapped_row, build_bulk_upsert_rows_value_with_workers, prepare_row,
  prepare_upsert_batch, prepare_rows, build_bulk_upsert_rows_value, write_floats,
  vector_to_float_binary,
}
use ydb_qdrant.Points.Rows.Verify.{parse_search_rows, read_payload}
use ydb_qdrant.Points.Rows.Reading.Agreement.{parse_search_rows-point_of}
use ydb_qdrant.Points.Rows.Reading.{signature, compute_payload_sign-ok, point_of}

module _ {Float : Type 0} (platform : Platform Float) where
  -- A binary vector that is made has four octets for each number and a last one, if the platform
  -- writes a number as four octets.
  pub length-vector_to_float_binary :
      ((v : Float) → length (platform.write_float v) ≡ 4)
      → (vector : List Float) (octets : List ℕ) → vector_to_float_binary platform vector ≡ ok octets
      → length octets ≡ 4 * length vector + 1
  unfolding vector_to_float_binary write_floats
  length-vector_to_float_binary four [] octets e = ground arith
  length-vector_to_float_binary four (v ∷ vs) octets e =
      grind (arith, four, length-append, length-vector_to_float_binary four vs)

  bulk_upsert_row-prepare_row :
      (collection key : Text) (p : UpsertPoint Float)
      → bulk_upsert_row platform collection key p ≡ prepare_row platform collection key p
  unfolding bulk_upsert_row prepare_row
  bulk_upsert_row-prepare_row collection key p = refl

  mapped_rows : (rows : List PreparedUpsertRow) → map (mapped_row platform) rows ≡ rows
  unfolding mapped_row
  mapped_rows [] = refl
  mapped_rows (r ∷ rs) = ap (λ (q : List PreparedUpsertRow). r ∷ q) (mapped_rows rs)

  traverse-ext :
      {A B : Type 0} (f g : A → Result Failure B)
      → ((x : A) → f x ≡ g x)
      → (xs : List A) → traverse f xs ≡ traverse g xs
  traverse-ext f g e [] = refl
  traverse-ext f g e (x ∷ xs) = rw (e x, traverse-ext f g e xs) refl

  build-prepare_upsert_batch :
      (args : PrepareUpsertBatchTask Float)
      → is_empty (trim args.api_key) ≡ false
      → prepare_upsert_batch platform args ≡ build_bulk_upsert_rows_value platform args
  unfolding prepare_upsert_batch build_bulk_upsert_rows_value
  build-prepare_upsert_batch args h = rw h (
      sym (
        traverse-ext _ _ (bulk_upsert_row-prepare_row args.collection (trim args.api_key))
          args.batch))

  from_worker :
      (pool : Pool Float) (args : PrepareUpsertBatchTask Float)
      (r : Result Failure (List PreparedUpsertRow))
      → pool.run_prepare args ≡ answer r
      → (inline : Result Failure (List PreparedUpsertRow))
      → fall_back (build_bulk_upsert_rows_value_with_workers platform pool args) inline ≡ r
  unfolding build_bulk_upsert_rows_value_with_workers
  from_worker pool args (ok rows) e inline =
      rw e (ap (λ (q : List PreparedUpsertRow). ok q) (mapped_rows rows))
  from_worker pool args (err x) e inline = rw e refl

  at_its_limit :
      (pool : Pool Float) (args : PrepareUpsertBatchTask Float)
      → pool.run_prepare args ≡ at_limit
      → (inline : Result Failure (List PreparedUpsertRow))
      → fall_back (build_bulk_upsert_rows_value_with_workers platform pool args) inline ≡ inline
  unfolding build_bulk_upsert_rows_value_with_workers
  at_its_limit pool args e inline = rw e refl

  -- With a key that is not blank the rows to write are the same with workers and without, and also
  -- when the pool's queue is at its limit, if the pool runs prepareUpsertBatch on what it takes.
  pub prepare_rows-build_bulk_upsert_rows_value :
      (pool : Pool Float) (args : PrepareUpsertBatchTask Float)
      → (pool.run_prepare args ≡ at_limit)
        ⊎ (pool.run_prepare args ≡ answer (prepare_upsert_batch platform args))
      → is_empty (trim args.api_key) ≡ false
      → prepare_rows platform pool args ≡ build_bulk_upsert_rows_value platform args
  unfolding prepare_rows
  prepare_rows-build_bulk_upsert_rows_value pool args faithful h =
      either_way pool.enabled (elim faithful [
        | inl full ↦ at_its_limit pool args full (build_bulk_upsert_rows_value platform args)
        | inr worked ↦
            from_worker pool args (prepare_upsert_batch platform args) worked
              (build_bulk_upsert_rows_value platform args)
            ∙ build-prepare_upsert_batch args h
      ])
    where
      either_way :
          (c : Bool) {a b : Result Failure (List PreparedUpsertRow)}
          → a ≡ b
          → (if c then a else b) ≡ b
      either_way true e = e
      either_way false e = refl

  -- What a search reads of a row that was prepared: `stored` is the payload's text as the
  -- database returns it, and `score` the computed distance.
  abbrev pub read_back : Text → Float → PreparedUpsertRow → YdbRow Float
  read_back stored score r =
      let cell : Text → Option (Cell Float) =
        λ t. some (record { text_value = some t; float_value = none }) in
      record {
        items = some (
            cell r.point_id
            ∷ cell stored
            ∷ cell r.payload_sign
            ∷ some (record { text_value = none; float_value = some score })
            ∷ []);
      }

  prepared :
      (key collection : Text) (p : UpsertPoint Float) (r : PreparedUpsertRow)
      → is_empty (trim key) ≡ false
      → prepare_row platform collection (trim key) p ≡ ok r
      → (r.point_id ≡ p.id)
        × (r.payload_sign ≡ signature platform key (get_or p.payload (obj no_prop)))
  unfolding prepare_row
  prepared key collection p r h e =
      let signed = compute_payload_sign-ok platform key (get_or p.payload (obj no_prop)) h in
      ground arith

  read :
      (stored : Text) (payload : Json)
      → is_empty stored ≡ false
      → platform.parse stored ≡ some payload
      → is_truthy payload ≡ true
      → read_payload platform (some stored) ≡ some payload
  unfolding read_payload
  read stored payload s parsed truthy = ground arith

  prepare_row-point_of :
      ((k t : Text) → is_empty (platform.hmac k t) ≡ false)
      → (key collection : Text) (p : UpsertPoint Float) (r : PreparedUpsertRow)
      → is_empty (trim key) ≡ false
      → prepare_row platform collection (trim key) p ≡ ok r
      → (stored : Text) (payload : Json) → is_empty stored ≡ false
      → platform.parse stored ≡ some payload
      → is_truthy payload ≡ true
      → platform.stable_stringify payload
        ≡ platform.stable_stringify (get_or p.payload (obj no_prop))
      → (score : Float)
      → point_of platform key (some true) (read_back stored score r)
        ≡ some (record {
          id = p.id;
          score = platform.number_of (some score) none;
          payload = some payload;
        })
  prepare_row-point_of signs key collection p r h e stored payload s parsed truthy stable score =
      let (same_id, signed) = prepared key collection p r h e in
      let found = read stored payload s parsed truthy in
      let nonempty = signs (trim key) (platform.stable_stringify payload) in
      let same = text_eq_refl (signature platform key payload) in grind arith

  -- A point whose row is prepared with a key that is not blank is returned, with the payload that
  -- is read back, by a search over that row with the same key that asks for payloads, provided that
  -- signatures are not empty texts and that the database's text of the payload is not empty and
  -- parses to a value that is truthy and has the payload's stable text.
  pub prepare_row-parse_search_rows :
      ((k t : Text) → is_empty (platform.hmac k t) ≡ false)
      → (key collection : Text) (p : UpsertPoint Float) (r : PreparedUpsertRow)
      → is_empty (trim key) ≡ false
      → prepare_row platform collection (trim key) p ≡ ok r
      → (stored : Text) (payload : Json) → is_empty stored ≡ false
      → platform.parse stored ≡ some payload
      → is_truthy payload ≡ true
      → platform.stable_stringify payload
        ≡ platform.stable_stringify (get_or p.payload (obj no_prop))
      → (score : Float)
      → parse_search_rows platform (read_back stored score r ∷ []) key (some true)
        ≡ ok (
            record {
              id = p.id;
              score = platform.number_of (some score) none;
              payload = some payload;
            }
            ∷ [])
  prepare_row-parse_search_rows signs key collection p r h e stored payload s parsed truthy stable
        score =
      parse_search_rows-point_of platform key h (read_back stored score r ∷ []) (some true) refl
      ∙ ap (λ (o : Option (ScoredPoint Float)). ok (cat_some (o ∷ [])))
          (prepare_row-point_of signs key collection p r h e stored payload s parsed truthy stable
            score)
