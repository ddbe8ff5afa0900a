-- ===== src/Points/Rows/Reading/Agreement.antt =====
-- The inline path, the workers and the retrieval return the same points, and only signed ones.
use ydb_qdrant.Prelude.{
  List, [], ◌∷◌, Bool, true, false, ◌≡◌, refl, ap, ◌⊎◌, inl, inr, arith, if◌then◌else◌, Option,
  none, some, map, all, is_some, ok, ◌>>=◌, All,
}
use ydb_qdrant.Prelude.Options.{and_then, cat_some}
use ydb_qdrant.Text.{Text, is_empty, trim}
use ydb_qdrant.Json.{Json}
use ydb_qdrant.Points.{traverse-ok}
use ydb_qdrant.Points.Rows.{
  Platform, YdbRow, TaskRow, ScoredPoint, RetrievedPoint, VerifySearchRowsTask, Pool, done,
  at_limit, answer, text_at, float_at,
}
use ydb_qdrant.Points.Rows.Verify.{
  shown, verify_search_rows, parse_row, parse_search_rows, points_of,
  parse_search_rows_with_workers, parse_search_rows_maybe_with_workers, retrieve_row, retrieve_rows,
}
use ydb_qdrant.Points.Rows.Reading.{
  signed_payload, point_of, AreAlike, alike, collect, verify_rows-ok, parse_row-ok, signed,
}

-- A pool that turns a task away, or gives what `verifySearchRows` does with it.
abbrev pub IsFaithful : {Float : Type 0} → Platform Float → Pool Float → Type 0
IsFaithful {Float} platform pool =
    (task : VerifySearchRowsTask Float)
    → (pool.run_verify task ≡ at_limit)
      ⊎ (pool.run_verify task ≡ answer (verify_search_rows platform task))

module _ {Float : Type 0} (platform : Platform Float) (key : Text)
    (h : is_empty (trim key) ≡ false) where
  worker_points :
      (with_payload : Option Bool) (ts : List (TaskRow Float))
      → verify_search_rows platform
          (record { api_key = key; with_payload = with_payload; rows = ts })
        ≡ ok (collect platform key h with_payload ts)
  unfolding verify_search_rows
  worker_points with_payload ts = rw (h, verify_rows-ok platform key h with_payload ts) refl

  -- The workers' answer is at the limit, or what the inline path computes.
  workers-answer :
      (pool : Pool Float)
      → IsFaithful platform pool
      → (rows : List (YdbRow Float)) (with_payload : Option Bool)
      → (parse_search_rows_with_workers platform pool rows key with_payload ≡ at_limit)
        ⊎ (parse_search_rows_with_workers platform pool rows key with_payload
            ≡ answer (parse_search_rows platform rows key with_payload))
  unfolding parse_search_rows_with_workers parse_search_rows points_of AreAlike
  workers-answer pool faithful rows with_payload = elim (alike platform key h with_payload rows) [
    | inl (p, t) ↦ inr (rw (t, parse_search_rows_with_workers, p) refl)
    | inr (ts, t, p, r) ↦
        elim (faithful (record { api_key = key; with_payload = with_payload; rows = ts })) [
          | inl e ↦ inl (rw (t, parse_search_rows_with_workers, e) refl)
          | inr e ↦ inr (
              rw (t, parse_search_rows_with_workers, e, p, worker_points with_payload ts)
                (ap (λ ps. done ps) r))
        ]
  ]

  -- With workers or without them, and also when the pool's queue is at its limit, a search returns
  -- the same points of the rows or throws the same error, provided that the key is not blank and
  -- that the pool runs verifySearchRows on the tasks that it takes.
  pub parse_search_rows_maybe_with_workers-parse_search_rows :
      (pool : Pool Float)
      → IsFaithful platform pool
      → (rows : List (YdbRow Float)) (with_payload : Option Bool)
      → parse_search_rows_maybe_with_workers platform pool rows key with_payload
        ≡ parse_search_rows platform rows key with_payload
  unfolding parse_search_rows_maybe_with_workers
  parse_search_rows_maybe_with_workers-parse_search_rows pool faithful rows with_payload =
      ground (arith, workers-answer pool faithful rows with_payload)

  -- With a key that is not blank, a search over rows that all have an id throws nothing, and
  -- returns in the rows' order one point for each row whose signature is the one that the key makes
  -- of the row's parsed payload.
  pub parse_search_rows-point_of :
      (rows : List (YdbRow Float)) (with_payload : Option Bool)
      → all (λ row. is_some (text_at 0 row)) rows ≡ true
      → parse_search_rows platform rows key with_payload
        ≡ ok (cat_some (map (point_of platform key with_payload) rows))
  unfolding parse_search_rows
  parse_search_rows-point_of rows with_payload ids = rw (traverse-ok _ _ rows (each rows ids)) refl
    where
      each :
          (rows : List (YdbRow Float))
          → all (λ row. is_some (text_at 0 row)) rows ≡ true
          → All
              (λ row.
                parse_row platform (trim key) with_payload row
                ≡ ok (point_of platform key with_payload row))
              rows
      each [] ids = tt
      each (row ∷ rows) ids =
          (parse_row-ok platform key h with_payload row (ground arith), each rows (ground arith))

  retrieved_of : Bool → YdbRow Float → Option RetrievedPoint
  retrieved_of with_payload row = and_then (text_at 0 row) (λ id.
      and_then (signed_payload platform key row) (λ payload.
        some (record { id = id; payload = if with_payload then some payload else none })))

  retrieve_row-ok :
      (with_payload : Bool) (row : YdbRow Float)
      → retrieve_row platform (trim key) with_payload row ≡ ok (retrieved_of with_payload row)
  unfolding retrieve_row retrieved_of
  retrieve_row-ok with_payload row = grind (arith, signed platform key h none)

  -- One row in front, whatever its id and payload are.
  same_id :
      (b : Bool) (score : Float) (with_payload : Option Bool) (id : Option Text)
      (read : Option Json) (rs : List (Option RetrievedPoint))
      (ps : List (Option (ScoredPoint Float)))
      → map (λ p. p.id) (cat_some rs) ≡ map (λ p. p.id) (cat_some ps)
      → map
          (λ p. p.id)
          (cat_some (
            and_then id (λ i.
              and_then read
                (λ payload. some (record { id = i; payload = if b then some payload else none })))
            ∷ rs))
        ≡ map
            (λ p. p.id)
            (cat_some (
              and_then id (λ i. and_then read (λ payload.
                some (record {
                  id = i;
                  score = score;
                  payload = shown platform with_payload payload;
                })))
              ∷ ps))
  same_id b score with_payload none read rs ps e = e
  same_id b score with_payload (some i) none rs ps e = e
  same_id b score with_payload (some i) (some payload) rs ps e = ap (λ (ids : List Text). i ∷ ids) e

  same_ids :
      (b : Bool) (with_payload : Option Bool) (rows : List (YdbRow Float))
      → map (λ p. p.id) (cat_some (map (retrieved_of b) rows))
        ≡ map (λ p. p.id) (cat_some (map (point_of platform key with_payload) rows))
  unfolding retrieved_of
  same_ids b with_payload [] = refl
  same_ids b with_payload (row ∷ rows) =
      same_id b (platform.number_of (float_at 3 row) (text_at 3 row)) with_payload (text_at 0 row)
        (signed_payload platform key row) (map (retrieved_of b) rows)
        (map (point_of platform key with_payload) rows) (same_ids b with_payload rows)

  -- With a key that is not blank, over rows that all have an id, a retrieval returns points with
  -- the same ids in the same order as a search does, whether or not they are asked for payloads.
  pub retrieve_rows-parse_search_rows :
      (rows : List (YdbRow Float)) (b : Bool) (with_payload : Option Bool)
      → all (λ row. is_some (text_at 0 row)) rows ≡ true
      → (retrieve_rows platform rows key b >>= λ rs. ok (map (λ p. p.id) rs))
        ≡ (parse_search_rows platform rows key with_payload >>= λ ps. ok (map (λ p. p.id) ps))
  unfolding retrieve_rows
  retrieve_rows-parse_search_rows rows b with_payload ids =
      let found = traverse-ok _ _ rows (each b rows) in
      rw (found, parse_search_rows-point_of rows with_payload ids)
        (ap (λ (r : List Text). ok r) (same_ids b with_payload rows))
    where
      each :
          (b : Bool) (rows : List (YdbRow Float))
          → All (λ row. retrieve_row platform (trim key) b row ≡ ok (retrieved_of b row)) rows
      each b [] = tt
      each b (row ∷ rows) = (retrieve_row-ok b row, each b rows)
