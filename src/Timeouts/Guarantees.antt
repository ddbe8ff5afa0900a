-- ===== src/Timeouts/Guarantees.antt =====
-- What the middlewares promise over every sequence of events of a request.
use ydb_qdrant.Prelude.{
  ℕ, ◌≤◌, leb, ◌||◌, List, [], ◌∷◌, ◌++◌, Bool, true, false, ◌≡◌, inl, inr, refl, ap, ◌∙◌, Option,
  none, some, length, arith, any,
}
use ydb_qdrant.Text.{Text}
use ydb_qdrant.Timeouts.{
  body, parse, processing, Timer, Exchange, new_exchange, is_request_timeout, fire, send,
  mark_upsert_body_phase_completed, respond_upsert_request_timed_out, install_upsert_timeout,
  upsert_body_timeout, upsert_processing_timeout, end_response, is_upsert_request_target,
  clear_upsert_timeout,
}
use ydb_qdrant.Timeouts.Body.{
  UpsertBodyPhaseState, Flow, instrument_upsert_request_body, verify_upsert_request_body,
  log_upsert_body_phase, log_upsert_body_phase_error, conclude_phase, did_body_budget_expire,
}
use ydb_qdrant.Timeouts.Runs.{
  Event, fires, receives, buffers, parses, fails, replies, ends, armed, fire_armed, reply,
  handle_error, step, run, begin, serve,
}
use ydb_qdrant.Timeouts.Once.{
  IsAnswered, if-keeps, reply-IsAnswered, handle_error-IsAnswered, clear-IsAnswered,
  install-IsAnswered, respond-IsAnswered, fire-IsAnswered,
}
use ydb_qdrant.Timeouts.Tracked.{
  IsTracked, IsSettled, is_body_timeout, clear-IsTracked, respond-IsTracked, fire-IsTracked,
  install-IsTracked, clear-IsSettled, respond-IsSettled, install-IsSettled, armed-Tracks,
  other_phase,
}

-- A property of exchanges that each part of a step keeps.
record Keeps (P : Exchange → Type 0) : Type 0 where
  fired : (x : Exchange) (n : ℕ) → P x → P (fire_armed x (armed n x.timers))
  completed : (x : Exchange) → P x → P (mark_upsert_body_phase_completed x)
  expired : (x : Exchange) (ms : ℕ) → P x → P (respond_upsert_request_timed_out x ms parse).0
  installed : (x : Exchange) (ms : ℕ) → P x → P (install_upsert_timeout x ms processing)
  replied : (x : Exchange) (status : ℕ) → P x → P (reply x status)
  handled : (x : Exchange) (status : ℕ) → P x → P (handle_error x status)
  ended : (x : Exchange) → P x → P (end_response x)

module _ (P : Exchange → Type 0) (k : Keeps P) (ms http_ms : ℕ) (start : Option ℕ) where
  conclude-keeps :
      (x : Exchange) (s : UpsertBodyPhaseState) (now : ℕ)
      → P x
      → P (conclude_phase true ms start x s now).0.exchange
  unfolding conclude_phase
  conclude-keeps x s now h =
      let parsed = record s { body_parsed_at_ns = some now; body_parse_completed = true } in
      if-keeps (λ (p : Flow × Bool). P (p.0.exchange)) x.timed_out (λ e. k.completed x h)
        (λ e.
          if-keeps (λ (p : Flow × Bool). P (p.0.exchange))
            (did_body_budget_expire true ms start parsed) (λ e. k.expired x ms h) (λ e. h))

  log-keeps :
      (x : Exchange) (o : Option UpsertBodyPhaseState) (now : ℕ)
      → P x
      → P (log_upsert_body_phase true ms start (record { exchange = x; phases = o }) now).0.exchange
  unfolding log_upsert_body_phase
  log-keeps x none now h = h
  log-keeps x (some s) now h =
      if-keeps (λ (p : Flow × Bool). P (p.0.exchange)) s.body_phase_logged (λ e. h)
        (λ e. conclude-keeps x s now h)

  error-keeps :
      (x : Exchange) (o : Option UpsertBodyPhaseState)
      → P x
      → P (log_upsert_body_phase_error true (record { exchange = x; phases = o })).exchange
  unfolding log_upsert_body_phase_error
  error-keeps x none h = h
  error-keeps x (some s) h =
      if-keeps (λ (f : Flow). P f.exchange) s.body_phase_logged (λ e. h)
        (λ e.
          if-keeps (λ (f : Flow). P f.exchange) x.timed_out (λ e. k.completed x h)
            (λ e. k.completed x h))

  process-keeps : (x : Exchange) → P x → P (upsert_processing_timeout true http_ms x).0
  unfolding upsert_processing_timeout
  process-keeps x h =
      if-keeps (λ (p : Exchange × Bool). P (p.0)) _ (λ e. h) (λ e. k.installed x http_ms h)

  step-keeps : (f : Flow) (e : Event) → P f.exchange → P (step true ms http_ms start f e).exchange
  unfolding step verify_upsert_request_body
  step-keeps f (fires n) h = k.fired f.exchange n h
  step-keeps f (receives bytes now) h = h
  step-keeps f (buffers bytes now) h = k.completed f.exchange h
  step-keeps f (parses now) h =
      let p = log_upsert_body_phase true ms start f now in
      let kept = log-keeps f.exchange f.phases now h in
      if-keeps (λ (g : Flow). P g.exchange) (p.1) (λ e. process-keeps p.0.exchange kept) (λ e. kept)
  step-keeps f (fails status) h = k.handled _ status (error-keeps f.exchange f.phases h)
  step-keeps f (replies status) h = k.replied f.exchange status h
  step-keeps f ends h = k.ended f.exchange h

  run-keeps :
      (f : Flow) (es : List Event) → P f.exchange → P (run true ms http_ms start f es).exchange
  unfolding run
  run-keeps f [] h = h
  run-keeps f (e ∷ es) h = run-keeps (step true ms http_ms start f e) es (step-keeps f e h)

abbrev IsSound : Exchange → Type 0
IsSound x = IsAnswered x × IsTracked x

Keeps-IsSound : Keeps IsSound
unfolding mark_upsert_body_phase_completed reply handle_error end_response send
Keeps-IsSound = record {
  fired = λ x n h. fired x (armed n x.timers) h;
  completed = λ x h. (clear-IsAnswered x body (h.0), clear-IsTracked x body (h.1));
  expired = λ x ms h. (respond-IsAnswered x ms parse (h.0), respond-IsTracked x ms parse (h.1));
  installed = λ x ms h. (install-IsAnswered x ms processing (h.0), install-IsTracked x ms (h.1));
  replied = λ x status h.
      (reply-IsAnswered x status (h.0), if-keeps IsTracked _ {a = x} (λ e. h.1) (λ e. h.1));
  handled = λ x status h.
      (handle_error-IsAnswered x status (h.0), if-keeps IsTracked _ {a = x} (λ e. h.1) (λ e. h.1));
  ended = λ x h. (h.0, tt);
}
  where
    fired : (x : Exchange) (o : Option Timer) → IsSound x → IsSound (fire_armed x o)
    fired x none h = h
    fired x (some t) h = (fire-IsAnswered x t (h.0), fire-IsTracked x t (h.1))

abbrev IsDone : Bool → Exchange → Type 0
IsDone passed x = IsSound x × IsSettled passed x

-- A timer that is armed when the body's deadline is gone is not the body's.
fire-IsDone :
    (passed : Bool) (x : Exchange) (n : ℕ) (o : Option Timer)
    → armed n x.timers ≡ o
    → IsDone passed x
    → IsSettled passed (fire_armed x o)
fire-IsDone passed x n none e h = h.1
fire-IsDone passed x n (some t) e ((h, k), (c, p)) =
    unfold fire in
    respond-IsSettled passed _ t.timeout_ms t.phase
      (other_phase t (rw (← c) (armed-Tracks x.clear_body_timeout n x.timers t e k))) h (c, p)

Keeps-IsDone : (passed : Bool) → Keeps (IsDone passed)
unfolding mark_upsert_body_phase_completed reply handle_error end_response send
Keeps-IsDone passed = record {
  fired =
      λ x n h. (Keeps-IsSound.fired x n (h.0), fire-IsDone passed x n (armed n x.timers) refl h);
  completed = λ x h. (Keeps-IsSound.completed x (h.0), clear-IsSettled passed x body (h.1));
  expired = λ x ms h.
      (Keeps-IsSound.expired x ms (h.0), respond-IsSettled passed x ms parse refl (h.0.0) (h.1));
  installed = λ x ms h. (Keeps-IsSound.installed x ms (h.0), install-IsSettled passed x ms (h.1));
  replied = λ x status h. (
    Keeps-IsSound.replied x status (h.0),
    if-keeps (IsSettled passed) _ {a = x} (λ e. h.1) (λ e. h.1),
  );
  handled = λ x status h. (
    Keeps-IsSound.handled x status (h.0),
    if-keeps (IsSettled passed) _ {a = x} (λ e. h.1) (λ e. h.1),
  );
  ended = λ x h. (Keeps-IsSound.ended x (h.0), h.1);
}

begin-IsSound : (ms http_ms : ℕ) (start : Option ℕ) → IsSound (begin true ms http_ms start).exchange
unfolding begin instrument_upsert_request_body upsert_body_timeout install_upsert_timeout
begin-IsSound ms http_ms start =
    if-keeps IsSound (leb ms 0) {a = new_exchange} (λ e. (inl (refl, refl, refl, refl, refl), tt))
      (λ e. (inl (refl, refl, refl, refl, refl), (inr refl, tt)))

or_last : (b : Bool) → b ≡ (b || false)
or_last true = refl
or_last false = refl

once :
    (x : Exchange)
    → IsAnswered x
    → (length x.answers ≤ 1) × (x.timed_out ≡ any is_request_timeout x.answers)
once x (inl (n, h, w, t, p)) = rw n (omega arith, t)
once x (inr (h, a, n, t)) = rw n (omega arith, t ∙ or_last (is_request_timeout a))

run-append :
    (target : Bool) (ms http_ms : ℕ) (start : Option ℕ) (f : Flow) (es fs : List Event)
    → run target ms http_ms start f (es ++ fs)
      ≡ run target ms http_ms start (run target ms http_ms start f es) fs
unfolding run
run-append target ms http_ms start f [] fs = refl
run-append target ms http_ms start f (e ∷ es) fs =
    run-append target ms http_ms start (step target ms http_ms start f e) es fs

-- The body's deadline is cleared as soon as the body is there.
buffers-IsDone :
    (ms http_ms : ℕ) (start : Option ℕ) (f : Flow) (bytes now : ℕ)
    → IsSound f.exchange
    → IsDone
        (is_body_timeout f.exchange.timeout_phase)
        (step true ms http_ms start f (buffers bytes now)).exchange
unfolding step verify_upsert_request_body mark_upsert_body_phase_completed clear_upsert_timeout
buffers-IsDone ms http_ms start f bytes now h = (Keeps-IsSound.completed f.exchange h, (refl, refl))

-- Whatever the order of the events of a request that upserts points, at most one response is sent,
-- the request is marked as timed out exactly if that is the answer of a deadline, and once the body
-- is buffered no deadline for the body passes any more.
pub serve-answers :
    (method url : Text) (ms http_ms : ℕ) (start : Option ℕ) (es fs : List Event) (bytes now : ℕ)
    → is_upsert_request_target method url ≡ true
    → let x = (serve method url ms http_ms start es).exchange in
      let later = (serve method url ms http_ms start (es ++ buffers bytes now ∷ fs)).exchange in
      (length x.answers ≤ 1)
      × (x.timed_out ≡ any is_request_timeout x.answers)
      × (is_body_timeout later.timeout_phase ≡ is_body_timeout x.timeout_phase)
unfolding serve run
serve-answers method url ms http_ms start es fs bytes now upserts = rw upserts (
    let f = run true ms http_ms start (begin true ms http_ms start) es in
    let sound =
      run-keeps IsSound Keeps-IsSound ms http_ms start (begin true ms http_ms start) es
        (begin-IsSound ms http_ms start) in
    let done =
      run-keeps (IsDone (is_body_timeout f.exchange.timeout_phase))
        (Keeps-IsDone (is_body_timeout f.exchange.timeout_phase)) ms http_ms start
        (step true ms http_ms start f (buffers bytes now)) fs
        (buffers-IsDone ms http_ms start f bytes now sound) in
    let split =
      run-append true ms http_ms start (begin true ms http_ms start) es (buffers bytes now ∷ fs) in
    let one = once f.exchange (sound.0) in
    (one.0, one.1, ap (λ (g : Flow). is_body_timeout g.exchange.timeout_phase) split ∙ done.1.1))
