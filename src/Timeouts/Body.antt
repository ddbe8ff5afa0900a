-- ===== src/Timeouts/Body.antt =====
-- src/middleware/upsertBodyPhase.ts: the phases in which the body of an upsert is read, and what its
-- middlewares do about the deadlines. Times are those of the monotonic clock, in nanoseconds.
use ydb_qdrant.Prelude.{
  ℕ, ◌+◌, ◌-◌, ◌*◌, Bool, true, false, not, leb, if◌then◌else◌, Option, none, some, get_or,
}
use ydb_qdrant.Timeouts.{
  Exchange, parse, mark_upsert_body_phase_completed, respond_upsert_request_timed_out,
}

pub record UpsertBodyPhaseState : Type 0 where
  pub observed_body_bytes : ℕ
  pub parsed_body_bytes : Option ℕ
  pub first_chunk_at_ns : Option ℕ
  pub body_buffered_at_ns : Option ℕ
  pub body_parsed_at_ns : Option ℕ
  pub body_parse_completed : Bool
  pub body_phase_logged : Bool

abbrev pub new_state : UpsertBodyPhaseState
new_state = record {
  observed_body_bytes = 0;
  parsed_body_bytes = none;
  first_chunk_at_ns = none;
  body_buffered_at_ns = none;
  body_parsed_at_ns = none;
  body_parse_completed = false;
  body_phase_logged = false;
}

-- A request under way: its exchange and the state under UPSERT_BODY_PHASE_STATE.
pub record Flow : Type 0 where
  pub exchange : Exchange
  pub phases : Option UpsertBodyPhaseState

-- `bytes` is the length of a string or of an array of bytes, and nothing for another chunk.
unfoldable pub append_observed_body_bytes : UpsertBodyPhaseState → Option ℕ → UpsertBodyPhaseState
append_observed_body_bytes s bytes = record s {
  observed_body_bytes = s.observed_body_bytes + get_or bytes 0;
}

-- A time that is kept once it is set.
abbrev first_of : Option ℕ → ℕ → Option ℕ
first_of (some t) now = some t
first_of none now = some now

-- The listener of "data".
unfoldable pub observe_chunk : UpsertBodyPhaseState → Option ℕ → ℕ → UpsertBodyPhaseState
observe_chunk s bytes now =
    append_observed_body_bytes (record s { first_chunk_at_ns = first_of s.first_chunk_at_ns now })
      bytes

module _ (target : Bool) where
  unfoldable pub instrument_upsert_request_body : Flow → Flow
  instrument_upsert_request_body f =
      if not target then f else record f { phases = some (get_or f.phases new_state) }

  unfoldable pub verify_upsert_request_body : Flow → ℕ → ℕ → Flow
  verify_upsert_request_body f bytes now = if not target then f else record {
    exchange = mark_upsert_body_phase_completed f.exchange;
    phases = some (record (get_or f.phases new_state) {
      body_buffered_at_ns = some now;
      parsed_body_bytes = some bytes;
    });
  }

  module _ (body_timeout_ms : ℕ) (request_start_ns : Option ℕ) where
    abbrev expires : Option ℕ → Option ℕ → Bool
    expires (some parsed_at) (some start) = leb (body_timeout_ms * 1000000) (parsed_at - start)
    expires parsed_at start = false

    unfoldable pub did_body_budget_expire : UpsertBodyPhaseState → Bool
    did_body_budget_expire s =
        if leb body_timeout_ms 0 then false else expires s.body_parsed_at_ns request_start_ns

    -- What follows the tests of the state; `next` is called if the second part is true.
    unfoldable pub conclude_phase : Exchange → UpsertBodyPhaseState → ℕ → Flow × Bool
    conclude_phase x s now =
        let parsed = record s { body_parsed_at_ns = some now; body_parse_completed = true } in
        if x.timed_out
        then (record { exchange = mark_upsert_body_phase_completed x; phases = some parsed }, false)
        else if did_body_budget_expire parsed
        then (
          record {
            exchange = (respond_upsert_request_timed_out x body_timeout_ms parse).0;
            phases = some parsed;
          },
          false,
        )
        else (
          record { exchange = x; phases = some (record parsed { body_phase_logged = true }) },
          true,
        )

    abbrev log_phase : Flow → Option UpsertBodyPhaseState → ℕ → Flow × Bool
    log_phase f none now = (f, true)
    log_phase f (some s) now =
        if s.body_phase_logged then (f, true) else conclude_phase f.exchange s now

    unfoldable pub log_upsert_body_phase : Flow → ℕ → Flow × Bool
    log_upsert_body_phase f now = if not target then (f, true) else log_phase f f.phases now

  abbrev log_phase_error : Flow → Option UpsertBodyPhaseState → Flow
  log_phase_error f none = f
  log_phase_error f (some s) =
      if s.body_phase_logged
      then f
      else let left = mark_upsert_body_phase_completed f.exchange in
        if f.exchange.timed_out
        then record f { exchange = left }
        else record { exchange = left; phases = some (record s { body_phase_logged = true }) }

  -- It calls `next(err)` in each case.
  unfoldable pub log_upsert_body_phase_error : Flow → Flow
  log_upsert_body_phase_error f = if not target then f else log_phase_error f f.phases
