-- ===== src/Queue/Guarantees.antt =====
-- What the queue promises to its users, over every sequence of its steps.
use Prim.Native.Nat.{max}
use ydb_qdrant.Prelude.{
  ℕ, ◌+◌, ◌≤◌, List, [], ◌∷◌, ◌++◌, true, false, not, ◌≡◌, ◌⊎◌, inl, inr, refl, ap, ◌∙◌, Option,
  get_or, filter, length, map, All, arith, Bool-cases,
}
use ydb_qdrant.Text.{Text, text_eq, includes}
use ydb_qdrant.Queue.{
  Queue, Item, key, new_queue, assign_job_id, admit, delete_queued_repository_jobs,
  wait_for_repo_idle, free_key, finish, delete_round,
}
use ydb_qdrant.Queue.Drain.{Distinct, IsSaturated}
use ydb_qdrant.Queue.Order.{of_repo}
use ydb_qdrant.Queue.Runs.{
  Event, names, admits, finishes, clears, waits, step, run, IsPossible, IsSound, run-IsSound,
  new_queue-IsSound, drain-concurrency, notify-concurrency,
}

step-concurrency : (q : Queue) (e : Event) → (step q e).concurrency ≡ q.concurrency
unfolding step
step-concurrency q (names uuid job) = unfold assign_job_id in ground arith
step-concurrency q (admits i) =
    unfold admit in drain-concurrency (record q { jobs = q.jobs ++ i ∷ [] })
step-concurrency q (finishes i) =
    unfold finish in drain-concurrency _ ∙ notify-concurrency (free_key q i) (key i)
step-concurrency q (clears k) = unfold delete_queued_repository_jobs in refl
step-concurrency q (waits k w) = unfold wait_for_repo_idle in ground arith

run-concurrency : (q : Queue) (es : List Event) → (run q es).concurrency ≡ q.concurrency
unfolding run
run-concurrency q [] = refl
run-concurrency q (e ∷ es) = run-concurrency (step q e) es ∙ step-concurrency q e

-- After any possible sequence of steps of a new queue the running jobs are for distinct
-- repositories, activeCount is their number, and it is at most the configured concurrency, which is
-- taken as at least 1.
pub run-exclusive :
    (c : Option ℕ) (es : List Event)
    → IsPossible (new_queue c) es
    → let q = run (new_queue c) es in
      Distinct (map key q.processing)
      × (q.active_count ≡ length q.processing)
      × (length q.processing ≤ max 1 (get_or c 1))
run-exclusive c es m =
    let s = run-IsSound (new_queue c) es m (new_queue-IsSound c) in
    let limit = run-concurrency (new_queue c) es ∙ new_queue-concurrency c in
    (
      rw (← s.inv.keys) s.inv.distinct,
      s.inv.count,
      omega (arith, s.inv.bounded, s.inv.count, limit),
    )
  where
    new_queue-concurrency : (c : Option ℕ) → (new_queue c).concurrency ≡ max 1 (get_or c 1)
    new_queue-concurrency c = unfold new_queue in refl

none-busy : (is : List Item) → All (λ i. includes (key i) [] ≡ true) is → is ≡ []
none-busy [] h = refl
none-busy (i ∷ is) (p, h) = cc

empty_of_length : (is : List Item) → length is ≡ 0 → is ≡ []
empty_of_length [] h = refl
empty_of_length (i ∷ is) h = absurd (omega arith)

idle-jobs : (q : Queue) → IsSound q → length q.processing ≡ 0 → q.jobs ≡ []
idle-jobs q s e = go s.saturated
  where
    idle : q.running_repo_keys ≡ []
    idle = s.inv.keys ∙ ap (map key) (empty_of_length q.processing e)

    go : IsSaturated q → q.jobs ≡ []
    go (inl full) = absurd (omega (arith, s.inv.count, s.positive))
    go (inr busy) = none-busy q.jobs (rw idle at busy)

-- After any possible sequence of steps of a new queue no job waits without need: either every place
-- is taken, or each waiting job is for a repository that a job is running for; and if no job runs,
-- none waits.
pub run-busy :
    (c : Option ℕ) (es : List Event)
    → IsPossible (new_queue c) es
    → let q = run (new_queue c) es in
      ((length q.processing ≡ q.concurrency)
        ⊎ All (λ i. includes (key i) (map key q.processing) ≡ true) q.jobs)
      × (length q.processing ≡ 0 → q.jobs ≡ [])
run-busy c es m =
    let s = run-IsSound (new_queue c) es m (new_queue-IsSound c) in
    (rw (← s.inv.count, ← s.inv.keys) s.saturated, idle-jobs _ s)

not-running : (k : Text) (is : List Item) → includes k (map key is) ≡ false → of_repo k is ≡ []
not-running k [] h = refl
not-running k (i ∷ is) h = ground (arith, not-running k is)

none-left : (k : Text) (is : List Item) → of_repo k (filter (λ i. not (text_eq (key i) k)) is) ≡ []
none-left k [] = refl
none-left k (i ∷ is) = elim (Bool-cases (text_eq (key i) k)) [
  | inl e ↦ rw e (none-left k is)
  | inr e ↦ rw (e, e) (none-left k is)
]

counted :
    (k : Text) (is : List Item)
    → length (filter (λ i. not (text_eq (key i) k)) is) + length (of_repo k is) ≡ length is
counted k [] = omega arith
counted k (i ∷ is) = ground (arith, counted k is)

-- When the loop of deleteRepositoryJobs returns, after any possible sequence of steps, the
-- repository has no waiting job and no running one, and the round has counted the waiting jobs that
-- it removed.
pub delete_round-empty :
    (c : Option ℕ) (es : List Event) (k : Text)
    → IsPossible (new_queue c) es
    → (delete_round (run (new_queue c) es) k).2 ≡ true
    → let q = run (new_queue c) es in
      let (q', deleted, done) = delete_round q k in
      (of_repo k q'.jobs ≡ [])
      × (of_repo k q'.processing ≡ [])
      × (deleted ≡ length (of_repo k q.jobs))
unfolding delete_round
delete_round-empty c es k m h =
    let q = run (new_queue c) es in
    let s = run-IsSound (new_queue c) es m (new_queue-IsSound c) in
    let idle : includes k q.running_repo_keys ≡ false = ground arith in
    (
      none-left k q.jobs,
      not-running k q.processing (rw (← s.inv.keys) idle),
      omega (arith, counted k q.jobs),
    )
