-- ===== src/Queue/Fifo.antt =====
-- Jobs of one repository start in the order of their admission, over every sequence of steps.
use ydb_qdrant.Prelude.{
  ℕ, ◌-◌, List, [], ◌∷◌, ◌++◌, false, not, ◌≡◌, inl, inr, refl, ap, sym, ◌∙◌, Option, filter, arith,
  Bool-cases, append_assoc, append-nil,
}
use ydb_qdrant.Text.{Text, text_eq}
use ydb_qdrant.Text.Laws.{text_eq_iff}
use ydb_qdrant.Queue.{
  Queue, Item, key, new_queue, assign_job_id, admit, delete_queued_repository_jobs,
  wait_for_repo_idle, notify_repo_idle, free_key, finish,
}
use ydb_qdrant.Queue.Order.{of_repo, of_repo-append, history, drain-history}
use ydb_qdrant.Queue.Runs.{Event, names, admits, finishes, clears, waits, step, run}

-- The jobs that a sequence of steps hands to the queue.
abbrev pub admitted : List Event → List Item
admitted [] = []
admitted (admits i ∷ es) = i ∷ admitted es
admitted (e ∷ es) = admitted es

abbrev pub Keeps : Text → List Event → Type 0
Keeps k [] = Unit
Keeps k (clears j ∷ es) = (text_eq j k ≡ false) × Keeps k es
Keeps k (e ∷ es) = Keeps k es

same-history :
    (k : Text) (q p : Queue)
    → p.jobs ≡ q.jobs
    → p.started ≡ q.started
    → history k p ≡ history k q ++ []
same-history k q p j s = rw (j, s) (sym (append-nil (history k q)))

notify-same :
    (q : Queue) (k : Text)
    → ((notify_repo_idle q k).0.jobs ≡ q.jobs) × ((notify_repo_idle q k).0.started ≡ q.started)
unfolding notify_repo_idle
notify-same q k = ground arith

cleared :
    (k j : Text) (is : List Item)
    → text_eq j k ≡ false
    → of_repo k (filter (λ i. not (text_eq (key i) j)) is) ≡ of_repo k is
cleared k j [] h = refl
cleared k j (i ∷ is) h = elim (Bool-cases (text_eq (key i) j)) [
  | inr e ↦ rw e (ground (arith, cleared k j is h))
  | inl e ↦
      let differs : text_eq (key i) k ≡ false = rw ((text_eq_iff (key i) j).0 e) h in
      rw (e, differs) (cleared k j is h)
]

step-history :
    (k : Text) (q : Queue) (e : Event)
    → Keeps k (e ∷ [])
    → history k (step q e) ≡ history k q ++ of_repo k (admitted (e ∷ []))
unfolding step
step-history k q (names uuid job) h =
    unfold assign_job_id in
    same-history k q (assign_job_id q uuid job).0 (ground arith) (ground arith)
step-history k q (admits i) h =
    let p : Queue = record q { jobs = q.jobs ++ i ∷ [] } in
    let grown : history k p ≡ history k q ++ of_repo k (i ∷ []) =
      rw (of_repo-append k q.jobs (i ∷ []))
        (sym (append_assoc (of_repo k q.started) (of_repo k q.jobs) (of_repo k (i ∷ [])))) in
    unfold admit in drain-history k p ∙ grown
step-history k q (finishes i) h =
    let idle = (notify_repo_idle (free_key q i) (key i)).0 in
    let same = notify-same (free_key q i) (key i) in
    unfold finish in
    drain-history k (record idle { active_count = idle.active_count - 1 })
    ∙ same-history k q (record idle { active_count = idle.active_count - 1 }) same.0 same.1
step-history k q (clears j) (h, _) =
    unfold delete_queued_repository_jobs in
    ap (◌++◌ (of_repo k q.started)) (cleared k j q.jobs h) ∙ sym (append-nil (history k q))
step-history k q (waits j w) h =
    unfold wait_for_repo_idle in
    same-history k q (wait_for_repo_idle q j w).0 (ground arith) (ground arith)

Keeps-split :
    (k : Text) (e : Event) (es : List Event) → Keeps k (e ∷ es) → Keeps k (e ∷ []) × Keeps k es
Keeps-split k (clears j) es (h, hs) = ((h, tt), hs)
Keeps-split k (names uuid job) es h = (tt, h)
Keeps-split k (admits i) es h = (tt, h)
Keeps-split k (finishes i) es h = (tt, h)
Keeps-split k (waits j w) es h = (tt, h)

admitted-cons :
    (k : Text) (e : Event) (es : List Event)
    → of_repo k (admitted (e ∷ [])) ++ of_repo k (admitted es) ≡ of_repo k (admitted (e ∷ es))
admitted-cons k (admits i) es = sym (of_repo-append k (i ∷ []) (admitted es))
admitted-cons k (names uuid job) es = refl
admitted-cons k (finishes i) es = refl
admitted-cons k (clears j) es = refl
admitted-cons k (waits j w) es = refl

run-history :
    (k : Text) (q : Queue) (es : List Event)
    → Keeps k es
    → history k (run q es) ≡ history k q ++ of_repo k (admitted es)
unfolding run
run-history k q [] h = sym (append-nil (history k q))
run-history k q (e ∷ es) h =
    let (now, later) = Keeps-split k e es h in
    run-history k (step q e) es later
    ∙ ap (λ (r : List Item). r ++ of_repo k (admitted es)) (step-history k q e now)
    ∙ append_assoc (history k q) (of_repo k (admitted (e ∷ []))) (of_repo k (admitted es))
    ∙ ap (◌++◌ (history k q)) (admitted-cons k e es)

-- In a sequence of steps from a new queue that deletes no job of a repository, the jobs of the
-- repository that were started, followed by those that still wait, are the jobs that were admitted
-- for it, in the order of their admission.
pub run-fifo :
    (c : Option ℕ) (k : Text) (es : List Event)
    → Keeps k es
    → let q = run (new_queue c) es in
      of_repo k q.started ++ of_repo k q.jobs ≡ of_repo k (admitted es)
run-fifo c k es h = run-history k (new_queue c) es h ∙ empty c
  where
    empty :
        (c : Option ℕ)
        → history k (new_queue c) ++ of_repo k (admitted es) ≡ of_repo k (admitted es)
    empty c = unfold new_queue in refl
