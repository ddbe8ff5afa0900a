-- ===== src/Points/Rows/Reading.antt =====
-- Reading signed rows: what the loops over rows compute.
pub mod Agreement
use ydb_qdrant.Prelude.{
  ℕ, List, [], ◌∷◌, ◌++◌, Bool, true, false, not, ◌&&◌, ◌||◌, ◌≡◌, refl, ap, sym, ◌∙◌, ◌⊎◌, inl,
  inr, arith, if◌then◌else◌, Option, none, some, map, all, is_some, Result, ok, err, ◌>>=◌,
  >>=-eq-ok, Bool-cases, Option-cases, All,
}
use ydb_qdrant.Prelude.Options.{and_then, cat_some}
use ydb_qdrant.Text.{Text, text_eq, is_empty, trim}
use ydb_qdrant.Text.Trim.{trim-trim}
use ydb_qdrant.Text.Laws.{text_eq_iff}
use ydb_qdrant.Json.{Json}
use ydb_qdrant.Points.{Failure, traverse, missing_point_id, sign_key_empty, worker_key_empty}
use ydb_qdrant.Points.Rows.{
  Platform, YdbRow, TaskRow, ScoredPoint, RetrievedPoint, VerifySearchRowsTask,
  VerifySearchRowsResult, Pool, Answer, done, at_limit, thrown, answer, present, text_at, float_at,
  fall_back, DropReason, missing_payload_or_signature, signature_mismatch,
}
use ydb_qdrant.Points.Rows.Prepare.{compute_payload_sign}
use ydb_qdrant.Points.Rows.Verify.{
  read_payload, verify_row, verify_rows, verify_search_rows, parse_row, parse_search_rows, task_row,
  points_of, parse_search_rows_with_workers, parse_search_rows_maybe_with_workers, retrieve_row,
  retrieve_rows, add_verified, shown,
}

-- The point of a row that is not dropped.
abbrev pub kept : {Float : Type 0} → DropReason ⊎ ScoredPoint Float → Option (ScoredPoint Float)
kept (inl reason) = none
kept (inr point) = some point

module _ {Float : Type 0} (platform : Platform Float) where
  -- The signature that a key makes of a payload.
  abbrev pub signature : Text → Json → Text
  signature key payload = platform.hmac (trim key) (platform.stable_stringify payload)

  pub compute_payload_sign-ok :
      (key : Text) (payload : Json)
      → is_empty (trim key) ≡ false
      → compute_payload_sign platform (trim key) payload ≡ ok (signature key payload)
  unfolding compute_payload_sign
  compute_payload_sign-ok key payload h = rw (trim-trim key, h) refl

  -- The payload of a row that carries the key's signature.
  abbrev pub signed_payload : Text → YdbRow Float → Option Json
  signed_payload key row = and_then (read_payload platform (text_at 1 row)) (λ payload.
      and_then (present (text_at 2 row))
        (λ sign. if text_eq (signature key payload) sign then some payload else none))

  -- The point of a row that has an id.
  abbrev pub point_of : Text → Option Bool → YdbRow Float → Option (ScoredPoint Float)
  point_of key with_payload row = and_then (text_at 0 row) (λ id.
      and_then (signed_payload key row) (λ payload. some (record {
        id = id;
        score = platform.number_of (float_at 3 row) (text_at 3 row);
        payload = shown platform with_payload payload;
      })))

  module _ (key : Text) (h : is_empty (trim key) ≡ false) (with_payload : Option Bool) where
    pub signed :
        (payload : Json)
        → compute_payload_sign platform (trim key) payload ≡ ok (signature key payload)
    signed payload = compute_payload_sign-ok key payload h

    -- What the loops do with one row that has an id.
    pub parse_row-ok :
        (row : YdbRow Float)
        → is_some (text_at 0 row) ≡ true
        → parse_row platform (trim key) with_payload row ≡ ok (point_of key with_payload row)
    unfolding parse_row
    parse_row-ok row i = grind (arith, signed)

    abbrev pub verdict : TaskRow Float → DropReason ⊎ ScoredPoint Float
    verdict t = elim (read_payload platform t.payload_text) [
      | none ↦ inl missing_payload_or_signature
      | some payload ↦ elim (present t.payload_sign) [
        | none ↦ inl missing_payload_or_signature
        | some sign ↦
            if text_eq (signature key payload) sign
            then inr (record {
              id = t.point_id;
              score = platform.number_of t.score_float t.score_text;
              payload = shown platform with_payload payload;
            })
            else inl signature_mismatch
      ]
    ]

    verify_row-ok :
        (t : TaskRow Float) → verify_row platform (trim key) with_payload t ≡ ok (verdict t)
    unfolding verify_row
    verify_row-ok t = grind (arith, signed)

    kept-verdict :
        (row : YdbRow Float) (t : TaskRow Float)
        → task_row platform row ≡ ok t
        → kept (verdict t) ≡ point_of key with_payload row
    kept-verdict row t e = grind arith

    unfoldable pub collect : List (TaskRow Float) → VerifySearchRowsResult Float
    collect [] = record { points = []; dropped = [] }
    collect (t ∷ ts) = add_verified platform t.point_id (verdict t) (collect ts)

    pub verify_rows-ok :
        (ts : List (TaskRow Float))
        → verify_rows platform (trim key) with_payload ts ≡ ok (collect ts)
    unfolding verify_rows collect
    verify_rows-ok [] = refl
    verify_rows-ok (t ∷ ts) = rw (verify_row-ok t, verify_rows-ok ts) refl

    -- Both loops throw, or both go over every row.
    unfoldable pub AreAlike : List (YdbRow Float) → Type 0
    AreAlike rows =
        ((traverse (parse_row platform (trim key) with_payload) rows ≡ err missing_point_id)
          × (traverse (task_row platform) rows ≡ err missing_point_id))
        ⊎ ((ts : List (TaskRow Float)) × (traverse (task_row platform) rows ≡ ok ts)
            × (traverse (parse_row platform (trim key) with_payload) rows
                ≡ ok (map (point_of key with_payload) rows))
            × ((collect ts).points ≡ cat_some (map (point_of key with_payload) rows)))

    no_id :
        (row : YdbRow Float)
        → text_at 0 row ≡ none
        → (parse_row platform (trim key) with_payload row ≡ err missing_point_id)
          × (task_row platform row ≡ err missing_point_id)
    unfolding parse_row
    no_id row e = (grind arith, grind arith)

    has_id :
        (row : YdbRow Float) (id : Text)
        → text_at 0 row ≡ some id
        → (t : TaskRow Float) × (task_row platform row ≡ ok t)
    has_id row id e = (
      record {
        point_id = id;
        payload_text = text_at 1 row;
        payload_sign = text_at 2 row;
        score_text = text_at 3 row;
        score_float = float_at 3 row;
      },
      grind arith,
    )

    points-add :
        (id : Text) (v : DropReason ⊎ ScoredPoint Float) (r : VerifySearchRowsResult Float)
        (os : List (Option (ScoredPoint Float)))
        → r.points ≡ cat_some os
        → (add_verified platform id v r).points ≡ cat_some (kept v ∷ os)
    points-add id (inl reason) r os e = e
    points-add id (inr p) r os e = ap (λ (ps : List (ScoredPoint Float)). p ∷ ps) e

    pub alike : (rows : List (YdbRow Float)) → AreAlike rows
    unfolding AreAlike collect
    alike [] = inr ([], refl, refl, refl)
    alike (row ∷ rows) = elim (Option-cases (text_at 0 row)) [
      | inl e ↦ (let (p, t) = no_id row e in inl (rw p refl, rw t refl))
      | inr (id, e) ↦
          (let (t, te) = has_id row id e in
            let pe = parse_row-ok row (rw e refl) in
            elim (alike rows) [
              | inl (p, q) ↦ inl (rw (pe, p) refl, rw (te, q) refl)
              | inr (ts, q, p, r) ↦ inr (
                t ∷ ts,
                rw (te, q) refl,
                rw (pe, p) refl,
                rw (sym (kept-verdict row t te))
                    (points-add t.point_id (verdict t) (collect ts) _ r),
              )
            ])
    ]
