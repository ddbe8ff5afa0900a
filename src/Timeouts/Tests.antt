-- ===== src/Timeouts/Tests.antt =====
-- Runs of the middlewares, and their guarantees at a concrete run.
use ydb_qdrant.Prelude.{◌≤◌, List, [], ◌∷◌, ◌++◌, true, false, ◌≡◌, refl, some, length, any}
use ydb_qdrant.Text.{codes, split_on}
use ydb_qdrant.Timeouts.{
  is_upsert_request_target, request_timeout, answer, is_request_timeout, upsert_body_timeout,
  upsert_processing_timeout, install_upsert_timeout, clear_upsert_timeout, clear_timer,
  mark_upsert_body_phase_completed, mark_upsert_request_timed_out, respond_upsert_request_timed_out,
  send, fire,
}
use ydb_qdrant.Timeouts.Body.{
  instrument_upsert_request_body, verify_upsert_request_body, log_upsert_body_phase, conclude_phase,
  did_body_budget_expire,
}
use ydb_qdrant.Timeouts.Runs.{
  Event, fires, buffers, parses, replies, serve, run, begin, step, reply,
}
use ydb_qdrant.Timeouts.Tracked.{is_body_timeout}
use ydb_qdrant.Timeouts.Guarantees.{serve-answers}

targets :
    (is_upsert_request_target (codes "PUT") (codes "/collections/a/points") ≡ true)
    × (is_upsert_request_target (codes "PUT") (codes "/collections/a/points?wait=true") ≡ true)
    × (is_upsert_request_target (codes "PUT") (codes "/collections/a/points/") ≡ true)
    × (is_upsert_request_target (codes "PUT") (codes "/collections//points") ≡ false)
    × (is_upsert_request_target (codes "POST") (codes "/collections/a/points") ≡ false)
    × (is_upsert_request_target (codes "POST") (codes "/collections/a/points/upsert") ≡ true)
unfolding is_upsert_request_target split_on
targets = (refl, refl, refl, refl, refl, refl)

-- The body comes too late, and the answer of the route is not sent.
late_body :
    (serve
      (codes "PUT")
      (codes "/collections/a/points")
      60
      10
      (some 0)
      (fires 0 ∷ buffers 8 1 ∷ parses 2 ∷ replies 200 ∷ [])).exchange.answers
    ≡ request_timeout ∷ []
unfolding serve is_upsert_request_target split_on run begin step reply fire send clear_timer
    clear_upsert_timeout mark_upsert_body_phase_completed mark_upsert_request_timed_out
    respond_upsert_request_timed_out install_upsert_timeout upsert_body_timeout
    upsert_processing_timeout instrument_upsert_request_body verify_upsert_request_body
    log_upsert_body_phase conclude_phase did_body_budget_expire
late_body = refl

-- The body is in time, so its timer is gone, and the route answers.
in_time :
    (serve
      (codes "PUT")
      (codes "/collections/a/points")
      60
      10
      (some 0)
      (buffers 8 1 ∷ fires 0 ∷ parses 2 ∷ replies 200 ∷ fires 1 ∷ [])).exchange.answers
    ≡ answer 200 ∷ []
unfolding serve is_upsert_request_target split_on run begin step reply fire send clear_timer
    clear_upsert_timeout mark_upsert_body_phase_completed mark_upsert_request_timed_out
    respond_upsert_request_timed_out install_upsert_timeout upsert_body_timeout
    upsert_processing_timeout instrument_upsert_request_body verify_upsert_request_body
    log_upsert_body_phase conclude_phase did_body_budget_expire
in_time = refl

abbrev before : List Event
before = []

abbrev after : List Event
after = fires 0 ∷ parses 2 ∷ fires 1 ∷ replies 200 ∷ []

upserts : is_upsert_request_target (codes "PUT") (codes "/collections/a/points") ≡ true
upserts = targets.0

serve-answers_example :
    let x = (serve (codes "PUT") (codes "/collections/a/points") 60 10 (some 0) before).exchange in
    let later =
      (serve
        (codes "PUT")
        (codes "/collections/a/points")
        60
        10
        (some 0)
        (before ++ buffers 8 1 ∷ after)).exchange in
    (length x.answers ≤ 1)
    × (x.timed_out ≡ any is_request_timeout x.answers)
    × (is_body_timeout later.timeout_phase ≡ is_body_timeout x.timeout_phase)
serve-answers_example =
    serve-answers (codes "PUT") (codes "/collections/a/points") 60 10 (some 0) before after 8 1
      upserts
