-- ===== src/Queue/Tests.antt =====
-- The theorems on the queue at short runs of steps.
use Prim.Native.Nat.{max}
use ydb_qdrant.Prelude.{
  List, [], ◌∷◌, ◌++◌, true, false, not, ◌≡◌, ◌≤◌, ◌⊎◌, refl, if◌then◌else◌, none, some, get_or,
  length, map, All,
}
use ydb_qdrant.Text.{Text, codes, text_eq, includes}
use ydb_qdrant.Text.Decimal.{decimal}
use ydb_qdrant.Jobs.{RepositoryRef, IndexingJob, delete_repo_index, repo_key_for_job}
use ydb_qdrant.Queue.{
  DeliveryStore, Item, key, new_queue, admit, drain, delete_round, has, mark, release, reserve,
}
use ydb_qdrant.Queue.Drain.{Distinct}
use ydb_qdrant.Queue.Order.{of_repo}
use ydb_qdrant.Queue.Runs.{Event, admits, finishes, step, run, IsPossible}
use ydb_qdrant.Queue.Guarantees.{run-exclusive, run-busy, delete_round-empty}
use ydb_qdrant.Queue.Fifo.{admitted, run-fifo}
use ydb_qdrant.Queue.Deliveries.{has-store}

abbrev octo : RepositoryRef
octo = record { owner = codes "octo"; repo = codes "a"; repo_id = 5; default_branch = codes "main" }

abbrev removal : Text → IndexingJob
removal reason = record {
  base = record { delivery_id = none; installation_id = 1; repository = octo };
  kind = delete_repo_index reason;
}

abbrev first_item : Item
first_item = record { job_id = codes "m1"; job = removal (codes "x") }

abbrev second_item : Item
second_item = record { job_id = codes "m2"; job = removal (codes "y") }

-- Two jobs of one repository, of which the first ends.
abbrev two_jobs : List Event
two_jobs = admits first_item ∷ admits second_item ∷ []

abbrev one_left : List Event
one_left = admits first_item ∷ admits second_item ∷ finishes first_item ∷ []

two_jobs-IsPossible : IsPossible (new_queue (some 2)) two_jobs
two_jobs-IsPossible = tt

run-exclusive_example :
    let q = run (new_queue (some 2)) two_jobs in
    Distinct (map key q.processing)
    × (q.active_count ≡ length q.processing)
    × (length q.processing ≤ max 1 (get_or (some 2) 1))
run-exclusive_example = run-exclusive (some 2) two_jobs two_jobs-IsPossible

run-busy_example :
    let q = run (new_queue (some 2)) two_jobs in
    ((length q.processing ≡ q.concurrency)
      ⊎ All (λ i. includes (key i) (map key q.processing) ≡ true) q.jobs)
    × (length q.processing ≡ 0 → q.jobs ≡ [])
run-busy_example = run-busy (some 2) two_jobs two_jobs-IsPossible

run-fifo_example :
    let q = run (new_queue (some 2)) one_left in
    of_repo (key first_item) q.started ++ of_repo (key first_item) q.jobs
    ≡ of_repo (key first_item) (admitted one_left)
run-fifo_example = run-fifo (some 2) (key first_item) one_left tt

abbrev elsewhere : Text
elsewhere = codes "1/6"

round_returns : (delete_round (run (new_queue (some 2)) two_jobs) elsewhere).2 ≡ true
unfolding run step admit drain new_queue delete_round repo_key_for_job decimal
round_returns = refl

delete_round-empty_example :
    let q = run (new_queue (some 2)) two_jobs in
    let (q', deleted, done) = delete_round q elsewhere in
    (of_repo elsewhere q'.jobs ≡ [])
    × (of_repo elsewhere q'.processing ≡ [])
    × (deleted ≡ length (of_repo elsewhere q.jobs))
delete_round-empty_example =
    delete_round-empty (some 2) two_jobs elsewhere two_jobs-IsPossible round_returns

abbrev seen : DeliveryStore
seen = record { delivery_ids = codes "d1" ∷ [] }

has-store_example :
    (has (mark seen (codes "d2")) (codes "d1")
      ≡ (if text_eq (codes "d2") (codes "d1") then true else has seen (codes "d1")))
    × (has (reserve seen (codes "d2")).0 (codes "d1")
        ≡ (if text_eq (codes "d2") (codes "d1") then true else has seen (codes "d1")))
    × ((reserve seen (codes "d2")).1 ≡ not (has seen (codes "d2")))
    × (has (release seen (codes "d2")) (codes "d1")
        ≡ (if text_eq (codes "d2") (codes "d1") then false else has seen (codes "d1")))
has-store_example = has-store seen (codes "d2") (codes "d1")
