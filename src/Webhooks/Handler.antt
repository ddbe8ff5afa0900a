-- ===== src/Webhooks/Handler.antt =====
-- `createWebhookHandler` of src/code-indexer/webhooks.ts. What the stores and the queue hold is the
-- state; whether a call of them throws is decided by `Deps`.
pub mod Delivery
pub mod Requests
use ydb_qdrant.Prelude.{
  ℕ, List, [], ◌∷◌, ◌++◌, Bool, true, false, not, ◌&&◌, ◌||◌, ◌==◌, if◌then◌else◌, Option, none,
  some, get_or, is_some, map, length,
}
use ydb_qdrant.Prelude.Options.{◌>>=◌, ◌>>◌, guard, cat_some, to_list}
use ydb_qdrant.Text.{Text, codes, text_eq, is_empty, trim}
use ydb_qdrant.Json.{Json}
use ydb_qdrant.Jobs.{
  RepositoryRef, JobKind, full_index, incremental_push, delete_repo_index, pr_index,
  delete_pr_index, IndexingJob,
}
use ydb_qdrant.Queue.{DeliveryStore, has, mark, release, reserve}
use ydb_qdrant.Webhooks.Payload.{read_installation_id, read_installation_account}
use ydb_qdrant.Webhooks.Mapping.{action_or}
use ydb_qdrant.Webhooks.Fallback.{
  verify_webhook_signature, StoreCall, returns, takes_effect, Deps, State, LifecycleCall,
  upsert_installation, upsert_repository, mark_repository_status, LifecycleStore, jobs_for_webhook,
}

pub record Request : Type 0 where
  pub body : Text
  pub delivery : Option Text
  pub event : Option Text
  pub signature : Option Text

pub data Reply : Type 0 where
  failure : (error : Text) → Reply
  success : (enqueued : ℕ) (status : Text) → Reply

pub data Answer : Type 0 where
  replied : (status_code : ℕ) → Reply → Answer
  threw : Answer

-- The loop over `deps.queue.enqueue`; `false` if a call throws.
unfoldable pub enqueue_all : Deps → List IndexingJob → State → State × Bool
enqueue_all deps [] s = (s, true)
enqueue_all deps (j ∷ js) s =
    let rest = enqueue_all deps js (record s { enqueued = s.enqueued ++ j ∷ [] }) in
    if deps.enqueue_succeeds j then rest else (s, false)

status_by_action : Text → Option Text
status_by_action action =
    if text_eq action (codes "created") || text_eq action (codes "unsuspend")
    then some (codes "active")
    else if text_eq action (codes "deleted")
    then some (codes "deleted")
    else if text_eq action (codes "suspend")
    then some (codes "suspended")
    else none

pub installation_call : Text → Json → Option LifecycleCall
unfolding status_by_action
installation_call event payload = do
  guard (text_eq event (codes "installation"))
  id ← read_installation_id payload
  account ← read_installation_account payload
  status ← status_by_action (action_or [] payload)
  some (upsert_installation account id status)

abbrev queued : Text
queued = codes "queued"

pub job_call : IndexingJob → Option LifecycleCall
job_call job = elim job.kind [
  | delete_repo_index reason ↦
      some (upsert_repository job.installation_id job.repository (codes "deleted"))
  | full_index reason ref sha ↦
      if text_eq reason (codes "installation")
        || text_eq reason (codes "installation-repositories-added")
      then some (upsert_repository job.installation_id job.repository queued)
      else some (mark_repository_status job.installation_id job.repository queued)
  | incremental_push details ↦
      some (mark_repository_status job.installation_id job.repository queued)
  | pr_index details ↦ none
  | delete_pr_index number reason ↦ none
]

pub perform : LifecycleStore → List LifecycleCall → State → State × Bool
perform store [] s = (s, true)
perform store (c ∷ cs) s =
    let rest = perform store cs (record s { calls = s.calls ++ c ∷ [] }) in
    if store.succeeds c then rest else (s, false)

pub record_webhook_lifecycle :
    LifecycleStore → Text → Json → List IndexingJob → State → State × Bool
unfolding installation_call job_call perform
record_webhook_lifecycle store event payload jobs =
    perform store (to_list (installation_call event payload) ++ cat_some (map job_call jobs))

-- `if (deps.lifecycleStore)`
unfoldable pub record_if_stored :
    Option LifecycleStore → Text → Json → List IndexingJob → State → State × Bool
unfolding record_webhook_lifecycle
record_if_stored none event payload jobs s = (s, true)
record_if_stored (some store) event payload jobs s =
    record_webhook_lifecycle store event payload jobs s

-- `if (!usedAtomicReservation)`
abbrev pub mark_unless : Bool → DeliveryStore → Text → DeliveryStore
mark_unless atomic store delivery_id = if atomic then store else mark store delivery_id

-- The rest of the `try` block once the jobs are in the queue.
unfoldable pub conclude : Deps → Text → Text → Json → List IndexingJob → State → State × Answer
conclude deps delivery_id event payload jobs s =
    let recorded = record_if_stored deps.lifecycle_store event payload jobs s in
    let s' = recorded.0 in
    let marked = record s' {
      deliveries =
          mark_unless (deps.atomic || not (takes_effect deps.mark_call)) s'.deliveries delivery_id;
    } in
    if not (recorded.1)
    then (s', threw)
    else if deps.atomic || returns deps.mark_call
    then (marked, replied 200 (success (length jobs) (codes "accepted")))
    else (marked, threw)

-- The `try` block.
unfoldable pub process : Deps → Text → Text → Json → State → State × Answer
process deps delivery_id event payload s = elim (jobs_for_webhook deps delivery_id event payload) [
  | none ↦ (s, threw)
  | some jobs ↦
      (let queued = enqueue_all deps jobs s in
        if queued.1
        then conclude deps delivery_id event payload jobs queued.0
        else (queued.0, threw))
]

-- `if (usedAtomicReservation)` of the `catch` block
abbrev pub release_if : Bool → DeliveryStore → Text → DeliveryStore
release_if atomic store delivery_id = if atomic then release store delivery_id else store

-- The `catch` block, which gives a reservation back; an exception of `release` is swallowed.
unfoldable pub recover : Deps → Text → State × Answer → State × Answer
recover deps delivery_id (s, replied code r) = (s, replied code r)
recover deps delivery_id (s, threw) = (
  record s {
    deliveries =
        release_if (deps.atomic && takes_effect deps.release_call) s.deliveries delivery_id;
  },
  threw,
)

abbrev pub reserve_or_check : Bool → DeliveryStore → Text → DeliveryStore × Bool
reserve_or_check atomic store delivery_id =
    if atomic then reserve store delivery_id else (store, not (has store delivery_id))

-- The reservation, and all that follows it.
unfoldable pub deliver : Deps → Text → Text → Json → State → State × Answer
deliver deps delivery_id event payload s =
    let reserved = reserve_or_check deps.atomic s.deliveries delivery_id in
    let s' = record s { deliveries = reserved.0 } in
    if not (returns deps.reserve_call)
    then (if takes_effect deps.reserve_call then s' else s, threw)
    else if reserved.1
    then recover deps delivery_id (process deps delivery_id event payload s')
    else (s', replied 200 (success 0 (codes "duplicate")))

-- `req.header(name)?.trim()`, as the empty text where it is absent.
abbrev pub header : Option Text → Text
header none = []
header (some s) = trim s

unfoldable pub webhook_handler : Deps → Request → State → State × Answer
webhook_handler deps req s =
    let delivery_id = header req.delivery in
    let event = header req.event in
    let refuse : ℕ → Text → State × Answer = λ code message. (s, replied code (failure message)) in
    if is_empty delivery_id || is_empty event
    then refuse 400 (codes "missing GitHub delivery or event header")
    else if not (verify_webhook_signature deps.hmac req.body deps.webhook_secret req.signature)
    then refuse 401 (codes "invalid signature")
    else elim (deps.parse req.body) [
      | none ↦ refuse 400 (codes "invalid json")
      | some payload ↦ deliver deps delivery_id event payload s
    ]
