-- ===== src/Timeouts/Runs.antt =====
-- The life of a request under the middlewares of src/server.ts, as any sequence of its events.
use ydb_qdrant.Prelude.{ℕ, List, [], ◌∷◌, Bool, ◌||◌, ◌==◌, if◌then◌else◌, Option, none, some}
use ydb_qdrant.Text.{Text}
use ydb_qdrant.Timeouts.{
  Timer, Exchange, new_exchange, answer, send, fire, end_response, is_upsert_request_target,
  upsert_body_timeout, upsert_processing_timeout,
}
use ydb_qdrant.Timeouts.Body.{
  UpsertBodyPhaseState, Flow, observe_chunk, instrument_upsert_request_body,
  verify_upsert_request_body, log_upsert_body_phase, log_upsert_body_phase_error,
}

pub data Event : Type 0 where
  -- a timer with this number, if it is armed, runs its callback
  fires : ℕ → Event
  -- a chunk with its bytes, and the time
  receives : Option ℕ → ℕ → Event
  -- the body is buffered: its bytes, and the time
  buffers : ℕ → ℕ → Event
  -- the body is parsed at this time, or its reading failed with this status
  parses : ℕ → Event
  fails : ℕ → Event
  -- a route answers
  replies : ℕ → Event
  -- `finish` or `close`
  ends : Event

abbrev pub armed : ℕ → List Timer → Option Timer
armed n [] = none
armed n (t ∷ ts) = if t.id == n then some t else armed n ts

abbrev pub fire_armed : Exchange → Option Timer → Exchange
fire_armed x none = x
fire_armed x (some t) = fire x t

-- A route answers unless `shouldSkipResponse`.
unfoldable pub reply : Exchange → ℕ → Exchange
reply x status =
    if x.headers_sent || x.writable_ended || x.timed_out then x else send x (answer status)

-- The error handler that comes last.
unfoldable pub handle_error : Exchange → ℕ → Exchange
handle_error x status = if x.headers_sent || x.writable_ended then x else send x (answer status)

abbrev observe : Option UpsertBodyPhaseState → Option ℕ → ℕ → Option UpsertBodyPhaseState
observe none bytes now = none
observe (some s) bytes now = some (observe_chunk s bytes now)

module _ (target : Bool) (body_timeout_ms http_timeout_ms : ℕ) (request_start_ns : Option ℕ) where
  abbrev pub process : Flow × Bool → Flow
  process (f, goes_on) =
      if goes_on
      then record f { exchange = (upsert_processing_timeout target http_timeout_ms f.exchange).0 }
      else f

  unfoldable pub step : Flow → Event → Flow
  step f (fires n) = record f { exchange = fire_armed f.exchange (armed n f.exchange.timers) }
  step f (receives bytes now) = record f { phases = observe f.phases bytes now }
  step f (buffers bytes now) = verify_upsert_request_body target f bytes now
  step f (parses now) =
      process (log_upsert_body_phase target body_timeout_ms request_start_ns f now)
  step f (fails status) =
      let failed = log_upsert_body_phase_error target f in
      record failed { exchange = handle_error failed.exchange status }
  step f (replies status) = record f { exchange = reply f.exchange status }
  step f ends = record f { exchange = end_response f.exchange }

  unfoldable pub run : Flow → List Event → Flow
  run f [] = f
  run f (e ∷ es) = run (step f e) es

  -- The request after the middlewares that come before the body.
  unfoldable pub begin : Flow
  begin =
      instrument_upsert_request_body target (record {
        exchange = upsert_body_timeout target body_timeout_ms new_exchange;
        phases = none;
      })

-- All that the middlewares make of a request with this method and URL.
unfoldable pub serve : Text → Text → ℕ → ℕ → Option ℕ → List Event → Flow
serve method url body_timeout_ms http_timeout_ms request_start_ns es =
    let target = is_upsert_request_target method url in
    run target body_timeout_ms http_timeout_ms request_start_ns
      (begin target body_timeout_ms http_timeout_ms request_start_ns) es
