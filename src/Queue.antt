-- ===== src/Queue.antt =====
-- src/code-indexer/queue.ts: the in-memory delivery store and the in-memory indexing queue. The code
-- between two `await`s runs as one step; `processing` and `started` record the calls of
-- `processQueuedJob` that are pending and those that were ever made.
pub mod Drain
pub mod Order
pub mod Runs
pub mod Deliveries
pub mod Guarantees
pub mod Fifo
mod Tests
use Prim.Native.Nat.{max}
use ydb_qdrant.Prelude.{
  ℕ, zero, suc, ◌+◌, ◌-◌, List, [], ◌∷◌, ◌++◌, Bool, true, false, not, ◌≡◌, ◌⊎◌, ltb, if◌then◌else◌,
  Option, none, some, get_or, filter, length,
}
use ydb_qdrant.Text.{Text, codes, text_eq, is_empty, includes}
use ydb_qdrant.Text.Decimal.{decimal}
use ydb_qdrant.Jobs.{IndexingJob, repo_key, repo_key_for_job}

-- `InMemoryDeliveryStore`: a set of delivery identifiers.
pub record DeliveryStore : Type 0 where
  pub delivery_ids : List Text

unfoldable pub has : DeliveryStore → Text → Bool
has s id = includes id s.delivery_ids

unfoldable pub mark : DeliveryStore → Text → DeliveryStore
unfolding has
mark s id = if has s id then s else record { delivery_ids = id ∷ s.delivery_ids }

unfoldable pub release : DeliveryStore → Text → DeliveryStore
release s id = record { delivery_ids = filter (λ t. not (text_eq t id)) s.delivery_ids }

unfoldable pub reserve : DeliveryStore → Text → DeliveryStore × Bool
unfolding has
reserve s id =
    if has s id then (s, false) else (record { delivery_ids = id ∷ s.delivery_ids }, true)

-- `QueuedMemoryJob`
pub record Item : Type 0 where
  pub job_id : Text
  pub job : IndexingJob

abbrev pub key : Item → Text
key i = repo_key_for_job i.job

-- `Map<string, Array<() => void>>`; a waiter is a number.
abbrev pub Waiters : Type 0
Waiters = List (Text × List ℕ)

pub record Queue : Type 0 where
  pub active_count : ℕ
  pub concurrency : ℕ
  pub jobs : List Item
  pub running_repo_keys : List Text
  pub next_job_sequence : ℕ
  pub repo_idle_waiters : Waiters
  pub processing : List Item
  pub started : List Item

pub new_queue : Option ℕ → Queue
new_queue concurrency = record {
  active_count = 0;
  concurrency = max 1 (get_or concurrency 1);
  jobs = [];
  running_repo_keys = [];
  next_job_sequence = 0;
  repo_idle_waiters = [];
  processing = [];
  started = [];
}

abbrev pub keep_ahead : Item → Option (Item × List Item) → Option (Item × List Item)
keep_ahead i none = none
keep_ahead i (some (j, rest)) = some (j, i ∷ rest)

-- `findIndex` of a job whose repository is idle, and its removal by `splice`.
pub take_next : List Text → List Item → Option (Item × List Item)
take_next running [] = none
take_next running (i ∷ is) =
    let later = keep_ahead i (take_next running is) in
    if includes (key i) running then later else some (i, is)

-- The body of the loop of `drain`, which starts `processQueuedJob`.
pub start : Queue → Item → List Item → Queue
start q i rest = record q {
  active_count = q.active_count + 1;
  jobs = rest;
  running_repo_keys = key i ∷ q.running_repo_keys;
  processing = i ∷ q.processing;
  started = q.started ++ i ∷ [];
}

pub drain_rounds : ℕ → Queue → Queue
unfolding start take_next
drain_rounds zero q = q
drain_rounds (suc f) q =
    let next : Queue = elim (take_next q.running_repo_keys q.jobs) [
      | none ↦ q
      | some (i, rest) ↦ drain_rounds f (start q i rest)
    ] in
    if ltb q.active_count q.concurrency then next else q

-- Each round takes a job off the queue, so as many rounds as jobs are enough.
pub drain : Queue → Queue
unfolding drain_rounds
drain q = drain_rounds (length q.jobs) q

-- `enqueue` up to its first `await`: the job's identifier. `uuid` is what `randomUUID` returns.
pub assign_job_id : Queue → Text → IndexingJob → Queue × Text
assign_job_id q uuid job =
    let delivery = get_or job.delivery_id [] in
    if is_empty delivery then (q, codes "memory:" ++ uuid) else (
      record q { next_job_sequence = q.next_job_sequence + 1 },
      delivery ++ (codes ":memory:" ++ decimal q.next_job_sequence),
    )

-- `enqueue` from there on.
pub admit : Queue → Item → Queue
unfolding drain
admit q i = drain (record q { jobs = q.jobs ++ i ∷ [] })

pub delete_queued_repository_jobs : Queue → Text → Queue × ℕ
delete_queued_repository_jobs q k =
    let kept = filter (λ i. not (text_eq (key i) k)) q.jobs in
    (record q { jobs = kept }, length q.jobs - length kept)

abbrev add_waiter : Text → ℕ → Waiters → Waiters
add_waiter k w [] = (k, w ∷ []) ∷ []
add_waiter k w ((j, ws) ∷ m) =
    if text_eq j k then (j, ws ++ w ∷ []) ∷ m else (j, ws) ∷ add_waiter k w m

-- The promise of `waitForRepoIdle` is resolved at once (`true`), or `w` is registered.
pub wait_for_repo_idle : Queue → Text → ℕ → Queue × Bool
wait_for_repo_idle q k w =
    if includes k q.running_repo_keys
    then (record q { repo_idle_waiters = add_waiter k w q.repo_idle_waiters }, false)
    else (q, true)

abbrev waiters_of : Text → Waiters → List ℕ
waiters_of k [] = []
waiters_of k ((j, ws) ∷ m) = if text_eq j k then ws else waiters_of k m

-- The waiters that are resolved, and the queue without them.
pub notify_repo_idle : Queue → Text → Queue × List ℕ
notify_repo_idle q k = if includes k q.running_repo_keys then (q, []) else (
  record q { repo_idle_waiters = filter (λ e. not (text_eq e.0 k)) q.repo_idle_waiters },
  waiters_of k q.repo_idle_waiters,
)

abbrev pub free_key : Queue → Item → Queue
free_key q i = record q {
  running_repo_keys = filter (λ k. not (text_eq k (key i))) q.running_repo_keys;
  processing = filter (λ j. not (text_eq (key j) (key i))) q.processing;
}

-- The `finally` block of `processQueuedJob`.
pub finish : Queue → Item → Queue × List ℕ
unfolding notify_repo_idle drain
finish q i =
    let (idle, resolved) = notify_repo_idle (free_key q i) (key i) in
    (drain (record idle { active_count = idle.active_count - 1 }), resolved)

-- One round of the loop of `deleteRepositoryJobs`, after its wait; `true` if the loop returns.
pub delete_round : Queue → Text → Queue × ℕ × Bool
unfolding delete_queued_repository_jobs
delete_round q k =
    let (q', deleted) = delete_queued_repository_jobs q k in
    (q', deleted, not (includes k q'.running_repo_keys))
