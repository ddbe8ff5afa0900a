-- ===== src/Timeouts.antt =====
-- src/middleware/upsertRequestTimeout.ts: the deadlines of a request that upserts points. An Exchange is
-- the request with its response; a timer is known by a number, and a callback by the timer it clears.
pub mod Body
mod Runs
mod Once
mod Tracked
mod Guarantees
mod Tests
use ydb_qdrant.Prelude.{
  ℕ, ◌+◌, List, [], ◌∷◌, ◌++◌, Bool, true, false, not, ◌&&◌, ◌||◌, ◌==◌, leb, if◌then◌else◌, Option,
  none, some, filter,
}
use ydb_qdrant.Text.{Text, codes, text_eq, is_empty, split_on}

pub data UpsertTimeoutPhase : Type 0 where
  body : UpsertTimeoutPhase
  parse : UpsertTimeoutPhase
  processing : UpsertTimeoutPhase

abbrev pub is_body : UpsertTimeoutPhase → Bool
is_body body = true
is_body parse = false
is_body processing = false

pub record Timer : Type 0 where
  id : ℕ
  timeout_ms : ℕ
  phase : UpsertTimeoutPhase

-- The answer of the deadlines, or one with another status.
pub data Answer : Type 0 where
  request_timeout : Answer
  answer : ℕ → Answer

abbrev pub is_request_timeout : Answer → Bool
is_request_timeout request_timeout = true
is_request_timeout (answer n) = false

-- The fields of UpsertRequestTimeoutState, which are unset before it is made; the timers that are armed;
-- and of the response `headersSent`, `writableEnded` and what was sent.
pub record Exchange : Type 0 where
  timed_out : Bool
  timeout_ms : Option ℕ
  timeout_phase : Option UpsertTimeoutPhase
  clear_body_timeout : Option ℕ
  clear_processing_timeout : Option ℕ
  next_timer : ℕ
  timers : List Timer
  headers_sent : Bool
  writable_ended : Bool
  answers : List Answer

abbrev pub new_exchange : Exchange
new_exchange = record {
  timed_out = false;
  timeout_ms = none;
  timeout_phase = none;
  clear_body_timeout = none;
  clear_processing_timeout = none;
  next_timer = 0;
  timers = [];
  headers_sent = false;
  writable_ended = false;
  answers = [];
}

-- `originalUrl.split("?", 1)[0]`
abbrev first_part : List Text → Text
first_part [] = []
first_part (p ∷ ps) = p

abbrev pub get_request_path : Text → Text
get_request_path original_url = first_part (split_on b'?' original_url)

abbrev same_parts : List Text → List Text → Bool
same_parts [] [] = true
same_parts [] (y ∷ ys) = false
same_parts (x ∷ xs) [] = false
same_parts (x ∷ xs) (y ∷ ys) = text_eq x y && same_parts xs ys

-- /^\/collections\/[^/]+\/points\/?$/, with the names that follow a collection's.
abbrev matches_points_path : List Text → List Text → Bool
matches_points_path names (root ∷ collections ∷ collection ∷ rest) =
    is_empty root
    && text_eq collections (codes "collections")
    && not (is_empty collection)
    && (same_parts rest names || same_parts rest (names ++ [] ∷ []))
matches_points_path names parts = false

unfoldable pub is_upsert_request_target : Text → Text → Bool
is_upsert_request_target method original_url =
    let parts = split_on b'/' (get_request_path original_url) in
    if text_eq method (codes "PUT")
    then matches_points_path (codes "points" ∷ []) parts
    else if text_eq method (codes "POST")
    then matches_points_path (codes "points" ∷ codes "upsert" ∷ []) parts
    else false

unfoldable pub mark_upsert_request_timed_out : Exchange → ℕ → UpsertTimeoutPhase → Exchange
mark_upsert_request_timed_out x ms phase = record x {
  timed_out = true;
  timeout_ms = some ms;
  timeout_phase = some phase;
}

-- `clearTimer`, if there is one.
unfoldable pub clear_timer : Option ℕ → List Timer → List Timer
clear_timer none timers = timers
clear_timer (some n) timers = filter (λ (t : Timer). not (t.id == n)) timers

unfoldable pub clear_upsert_timeout : Exchange → UpsertTimeoutPhase → Exchange
clear_upsert_timeout x phase =
    if is_body phase
    then record x { timers = clear_timer x.clear_body_timeout x.timers; clear_body_timeout = none }
    else record x {
      timers = clear_timer x.clear_processing_timeout x.timers;
      clear_processing_timeout = none;
    }

-- A response is sent whole, by `res.status(...).json(...)`.
unfoldable pub send : Exchange → Answer → Exchange
send x a = record x { headers_sent = true; writable_ended = true; answers = x.answers ++ a ∷ [] }

abbrev pub cleared_phase : UpsertTimeoutPhase → UpsertTimeoutPhase
cleared_phase body = body
cleared_phase parse = body
cleared_phase processing = processing

unfoldable pub respond_upsert_request_timed_out :
    Exchange → ℕ → UpsertTimeoutPhase → Exchange × Bool
respond_upsert_request_timed_out x ms phase =
    if x.headers_sent || x.writable_ended || x.timed_out
    then (x, false)
    else let cleared = clear_upsert_timeout x (cleared_phase phase) in
      (send (mark_upsert_request_timed_out cleared ms phase) request_timeout, true)

unfoldable pub install_upsert_timeout : Exchange → ℕ → UpsertTimeoutPhase → Exchange
install_upsert_timeout x ms phase =
    if leb ms 0
    then x
    else let timer : Timer = record { id = x.next_timer; timeout_ms = ms; phase = phase } in
      let armed : Exchange = record x {
        timers = x.timers ++ timer ∷ [];
        next_timer = x.next_timer + 1;
      } in
      if is_body phase
      then record armed { clear_body_timeout = some x.next_timer }
      else record armed { clear_processing_timeout = some x.next_timer }

unfoldable pub mark_upsert_body_phase_completed : Exchange → Exchange
mark_upsert_body_phase_completed x = clear_upsert_timeout x body

-- The callback of `setTimeout`, which runs once.
unfoldable pub fire : Exchange → Timer → Exchange
fire x timer =
    (respond_upsert_request_timed_out (record x { timers = clear_timer (some timer.id) x.timers })
      timer.timeout_ms timer.phase).0

-- `finish` and `close` of the response clear every timer.
unfoldable pub end_response : Exchange → Exchange
end_response x = record x { timers = [] }

module _ (target : Bool) (timeout_ms : ℕ) where
  unfoldable pub upsert_body_timeout : Exchange → Exchange
  upsert_body_timeout x = if not target then x else install_upsert_timeout x timeout_ms body

  -- Whether `next` is called comes second.
  unfoldable pub upsert_processing_timeout : Exchange → Exchange × Bool
  upsert_processing_timeout x =
      if not target
      then (x, true)
      else if x.headers_sent || x.writable_ended
      then (x, false)
      else (install_upsert_timeout x timeout_ms processing, true)
