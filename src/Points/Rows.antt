-- ===== src/Points/Rows.antt =====
-- The signed rows of a collection: src/utils/PayloadSign.ts, src/utils/vectorBinary.ts,
-- src/compute/ComputeWorker.ts and src/compute/ComputePool.ts, and what
-- src/repositories/pointsRepo.storage/Upsert.ts, Search.ts and Retrieve.ts do with rows. A log line
-- is left out; what the callees outside src/ do is in `Platform`.
pub mod Prepare
pub mod Verify
pub mod Reading
pub mod Writing
mod Tests
use ydb_qdrant.Prelude.{
  ℕ, zero, suc, List, [], ◌∷◌, ◌++◌, Bool, true, false, not, ◌&&◌, ◌||◌, ◌==◌, if◌then◌else◌,
  Option, none, some, get_or, map, Result, ok, ◌⊎◌, inl, inr, err, ◌>>=◌,
}
use ydb_qdrant.Prelude.Options.{and_then, cat_some}
use ydb_qdrant.Text.{Text, text_eq, is_empty, trim}
use ydb_qdrant.Json.{Json, null, bool, num, str, arr, obj, no_prop}
use ydb_qdrant.Points.{
  Failure, sign_key_empty, worker_key_empty, missing_point_id, non_finite, pool_failed, traverse,
}
use ydb_qdrant.Points.Paths.{extract_path_prefix}

-- The language and the packages: `Float` are JavaScript's numbers and `Bytes` is a list of octets.
pub record Platform (Float : Type 0) : Type 0 where
  pub encode : Text → Result Failure Text  -- `encodeURIComponent`
  pub hmac : Text → Text → Text  -- `createHmac("sha256", k).update(t).digest("hex")`
  pub stable_stringify : Json → Text
  pub stringify : Json → Text  -- `JSON.stringify`
  pub parse : Text → Option Json  -- `JSON.parse`, `none` where it throws
  pub is_finite : Float → Bool
  pub write_float : Float → List ℕ  -- the four octets of `writeFloatLE` or `writeFloatBE`
  pub number_of : Option Float → Option Text → Float  -- `Number(float ?? text)`

-- The truth value that `!payload` negates.
abbrev pub is_truthy : Json → Bool
is_truthy null = false
is_truthy (bool b) = b
is_truthy (num n) = not (n == 0)
is_truthy (str s) = not (is_empty s)
is_truthy (arr vs) = true
is_truthy (obj ps) = true

pub record UpsertPoint (Float : Type 0) : Type 0 where
  pub id : Text  -- `String(p.id)`
  pub vector : List Float
  pub payload : Option Json

pub record PreparedUpsertRow : Type 0 where
  pub collection : Text
  pub point_id : Text
  pub embedding : List ℕ
  pub payload : Text
  pub payload_sign : Text
  pub path_prefix : Option Text

-- `result.rows[i].items[j]`
pub record Cell (Float : Type 0) : Type 0 where
  pub text_value : Option Text
  pub float_value : Option Float

pub record YdbRow (Float : Type 0) : Type 0 where
  pub items : Option (List (Option (Cell Float)))

pub record ScoredPoint (Float : Type 0) : Type 0 where
  pub id : Text
  pub score : Float
  pub payload : Option Json

pub record RetrievedPoint : Type 0 where
  pub id : Text
  pub payload : Option Json

-- `get_elem? i items`, undefined out of range.
abbrev nth {ℓ} : {A : Type ℓ} → ℕ → List (Option A) → Option A
nth i [] = none
nth zero (c ∷ cs) = c
nth (suc i) (c ∷ cs) = nth i cs

-- A task row of `verifySearchRows`.
pub record TaskRow (Float : Type 0) : Type 0 where
  pub point_id : Text
  pub payload_text : Option Text
  pub payload_sign : Option Text
  pub score_text : Option Text
  pub score_float : Option Float

pub record VerifySearchRowsTask (Float : Type 0) : Type 0 where
  pub api_key : Text
  pub with_payload : Option Bool
  pub rows : List (TaskRow Float)

pub data DropReason : Type 0 where
  missing_payload_or_signature : DropReason
  signature_mismatch : DropReason

pub record VerifySearchRowsResult (Float : Type 0) : Type 0 where
  pub points : List (ScoredPoint Float)
  pub dropped : List (Text × DropReason)

pub record PrepareUpsertBatchTask (Float : Type 0) : Type 0 where
  pub collection : Text
  pub api_key : Text
  pub batch : List (UpsertPoint Float)

-- What awaiting a task of the pool gives. `at_limit` is an error whose message is one of the two
-- that `isComputePoolQueueAtLimitError` looks for.
pub data Answer (A : Type 0) : Type 0 where
  done : A → Answer A
  at_limit : Answer A
  thrown : Failure → Answer A

pub record Pool (Float : Type 0) : Type 0 where
  pub enabled : Bool
  pub run_prepare : PrepareUpsertBatchTask Float → Answer (List PreparedUpsertRow)
  pub run_verify : VerifySearchRowsTask Float → Answer (VerifySearchRowsResult Float)

-- A function that runs in a worker, as its caller sees it.
abbrev pub answer : {A : Type 0} → Result Failure A → Answer A
answer (ok a) = done a
answer (err e) = thrown e

-- `try { return await ... } catch { if at the limit, return inline }`
abbrev pub fall_back : {A : Type 0} → Answer A → Result Failure A → Result Failure A
fall_back (done a) inline = ok a
fall_back at_limit inline = inline
fall_back (thrown e) inline = err e

-- `typeof s !== "string" || s === ""` negated
abbrev pub present : Option Text → Option Text
present none = none
present (some s) = if is_empty s then none else some s

module _ {Float : Type 0} where
  -- `row.items?.[i]?.textValue` and `row.items?.[i]?.floatValue`
  abbrev pub text_at : ℕ → YdbRow Float → Option Text
  text_at i row = and_then (and_then row.items (nth i)) (λ c. c.text_value)

  abbrev pub float_at : ℕ → YdbRow Float → Option Float
  float_at i row = and_then (and_then row.items (nth i)) (λ c. c.float_value)
