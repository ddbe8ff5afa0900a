-- ===== src/Queue/Runs.antt =====
-- Any sequence of the queue's steps: enqueuing, the ends of running jobs, deletions and waits.
use ydb_qdrant.Prelude.{
  ℕ, ◌+◌, ◌-◌, ◌≤◌, List, [], ◌∷◌, ◌++◌, Bool, true, false, not, ◌≡◌, ◌⊎◌, inl, inr, refl, ap, sym,
  ◌∙◌, Option, filter, length, map, All-filter, arith, Bool-cases,
}
use ydb_qdrant.Text.{Text, text_eq, includes}
use ydb_qdrant.Text.Laws.{text_eq_iff, text_eq_refl}
use ydb_qdrant.Jobs.{IndexingJob}
use ydb_qdrant.Queue.{
  Queue, Item, key, new_queue, assign_job_id, admit, delete_queued_repository_jobs,
  wait_for_repo_idle, notify_repo_idle, free_key, finish, drain, start,
}
use ydb_qdrant.Queue.Drain.{
  Distinct, Inv, IsSaturated, drain-Inv, drain-IsSaturated, drain_rounds-keeps,
}

pub data Event : Type 0 where
  names : Text → IndexingJob → Event
  admits : Item → Event
  finishes : Item → Event
  clears : Text → Event
  waits : Text → ℕ → Event

unfoldable pub step : Queue → Event → Queue
unfolding delete_queued_repository_jobs
step q (names uuid job) = (assign_job_id q uuid job).0
step q (admits i) = admit q i
step q (finishes i) = (finish q i).0
step q (clears k) = (delete_queued_repository_jobs q k).0
step q (waits k w) = (wait_for_repo_idle q k w).0

unfoldable pub run : Queue → List Event → Queue
run q [] = q
run q (e ∷ es) = run (step q e) es

abbrev pub In : Item → List Item → Type 0
In i [] = ⊥
In i (j ∷ js) = (i ≡ j) ⊎ In i js

-- Only a pending call of `processQueuedJob` can end.
abbrev pub IsPossible : Queue → List Event → Type 0
IsPossible q [] = Unit
IsPossible q (finishes i ∷ es) = In i q.processing × IsPossible (step q (finishes i)) es
IsPossible q (e ∷ es) = IsPossible (step q e) es

module _ (k : Text) where
  abbrev other : Text → Bool
  other t = not (text_eq t k)

  includes-filter :
      (t : Text) (ks : List Text) → includes t ks ≡ false → includes t (filter other ks) ≡ false
  includes-filter t [] h = refl
  includes-filter t (x ∷ ks) h = ground (arith, includes-filter t ks)

  Distinct-filter : (ks : List Text) → Distinct ks → Distinct (filter other ks)
  Distinct-filter [] d = tt
  Distinct-filter (x ∷ ks) (n, d) = ground (arith, includes-filter x ks n, Distinct-filter ks d)

  filter-map :
      (is : List Item) → filter other (map key is) ≡ map key (filter (λ i. other (key i)) is)
  filter-map [] = refl
  filter-map (i ∷ is) = ground (arith, filter-map is)

  filter-absent :
      (is : List Item) → includes k (map key is) ≡ false → filter (λ i. other (key i)) is ≡ is
  filter-absent [] h = refl
  filter-absent (i ∷ is) h = ground (arith, filter-absent is)

includes-key : (i : Item) (is : List Item) → In i is → includes (key i) (map key is) ≡ true
includes-key i [] m = absurd m
includes-key i (j ∷ is) (inl e) = rw (← e, text_eq_refl (key i))
includes-key i (j ∷ is) (inr m) = ground (arith, includes-key i is m)

length-free :
    (i : Item) (is : List Item)
    → Distinct (map key is)
    → In i is
    → length (filter (λ j. not (text_eq (key j) (key i))) is) + 1 ≡ length is
length-free i [] d m = absurd m
length-free i (j ∷ is) (n, d) (inl e) =
    rw (← e, text_eq_refl (key i))
      (omega (arith, ap length (filter-absent (key i) is (rw (ap key e) n))))
length-free i (j ∷ is) (n, d) (inr m) = elim (Bool-cases (text_eq (key j) (key i))) [
  | inl same ↦
      let e = (text_eq_iff (key j) (key i)).0 same in
      let clash =
        sym (includes-key i is m) ∙ ap (λ (t : Text). includes t (map key is)) (sym e) ∙ n in
      cc
  | inr differs ↦ rw differs (omega (arith, length-free i is d m))
]

-- Freeing the repository of a running job and its place keeps the invariant.
released-Inv :
    (q : Queue) (i : Item)
    → Inv q
    → In i q.processing
    → let idle = (notify_repo_idle (free_key q i) (key i)).0 in
      Inv (record idle { active_count = idle.active_count - 1 })
unfolding notify_repo_idle
released-Inv q i v m =
    let d : Distinct (map key q.processing) = rw (← v.keys) v.distinct in
    let l = length-free i q.processing d m in
    let keys =
      ap (filter (λ t. not (text_eq t (key i)))) v.keys ∙ filter-map (key i) q.processing in
    let distinct = Distinct-filter (key i) q.running_repo_keys v.distinct in
    elim (Bool-cases (includes (key i) (free_key q i).running_repo_keys)) [
      | inl e ↦ rw e (record {
        keys = keys;
        distinct = distinct;
        count = omega (arith, l, v.count);
        bounded = omega (arith, v.bounded);
      })
      | inr e ↦ rw e (record {
        keys = keys;
        distinct = distinct;
        count = omega (arith, l, v.count);
        bounded = omega (arith, v.bounded);
      })
    ]

pub drain-concurrency : (q : Queue) → (drain q).concurrency ≡ q.concurrency
unfolding drain
drain-concurrency q =
    drain_rounds-keeps (λ p. p.concurrency ≡ q.concurrency) (λ p i rest e room h. unfold start in h)
      (length q.jobs) q refl

pub record IsSound (q : Queue) : Type 0 where
  pub inv : Inv q
  pub saturated : IsSaturated q
  pub positive : 1 ≤ q.concurrency

drain-IsSound : (q : Queue) → Inv q → 1 ≤ q.concurrency → IsSound (drain q)
drain-IsSound q v p = record {
  inv = drain-Inv q v;
  saturated = drain-IsSaturated q v.bounded;
  positive = rw (drain-concurrency q) p;
}

pub notify-concurrency :
    (q : Queue) (k : Text) → (notify_repo_idle q k).0.concurrency ≡ q.concurrency
unfolding notify_repo_idle
notify-concurrency q k = ground arith

-- Only these fields matter.
IsSound-same :
    (q p : Queue)
    → p.active_count ≡ q.active_count
    → p.concurrency ≡ q.concurrency
    → p.jobs ≡ q.jobs
    → p.running_repo_keys ≡ q.running_repo_keys
    → p.processing ≡ q.processing
    → IsSound q
    → IsSound p
IsSound-same q p a c j r g s = record {
  inv = record {
    keys = r ∙ s.inv.keys ∙ ap (map key) (sym g);
    distinct = rw r s.inv.distinct;
    count = a ∙ s.inv.count ∙ ap length (sym g);
    bounded = rw (a, c) s.inv.bounded;
  };
  saturated = rw (a, c, j, r) s.saturated;
  positive = rw c s.positive;
}

clear-IsSaturated :
    (q : Queue) (k : Text) → IsSaturated q → IsSaturated (delete_queued_repository_jobs q k).0
unfolding delete_queued_repository_jobs
clear-IsSaturated q k (inl full) = inl full
clear-IsSaturated q k (inr busy) = inr (All-filter _ (λ i. not (text_eq (key i) k)) q.jobs busy)

step-IsSound : (q : Queue) (e : Event) → IsPossible q (e ∷ []) → IsSound q → IsSound (step q e)
unfolding step
step-IsSound q (names uuid job) m s =
    unfold assign_job_id in
    IsSound-same q _ (ground arith) (ground arith) (ground arith) (ground arith) (ground arith) s
step-IsSound q (admits i) m s =
    unfold admit in
    drain-IsSound (record q { jobs = q.jobs ++ i ∷ [] }) (ground (arith, s.inv)) s.positive
step-IsSound q (finishes i) (m, _) s =
    unfold finish in
    drain-IsSound _ (released-Inv q i s.inv m)
      (rw (notify-concurrency (free_key q i) (key i)) s.positive)
step-IsSound q (clears k) m s = record {
  inv = ground (arith, s.inv);
  saturated = clear-IsSaturated q k s.saturated;
  positive = s.positive;
}
step-IsSound q (waits k w) m s =
    unfold wait_for_repo_idle in
    IsSound-same q _ (ground arith) (ground arith) (ground arith) (ground arith) (ground arith) s

pub run-IsSound : (q : Queue) (es : List Event) → IsPossible q es → IsSound q → IsSound (run q es)
unfolding run
run-IsSound q [] m s = s
run-IsSound q (finishes i ∷ es) (h, m) s =
    run-IsSound (step q (finishes i)) es m (step-IsSound q (finishes i) (h, tt) s)
run-IsSound q (names uuid job ∷ es) m s = run-IsSound _ es m (step-IsSound q (names uuid job) tt s)
run-IsSound q (admits i ∷ es) m s = run-IsSound _ es m (step-IsSound q (admits i) tt s)
run-IsSound q (clears k ∷ es) m s = run-IsSound _ es m (step-IsSound q (clears k) tt s)
run-IsSound q (waits k w ∷ es) m s = run-IsSound _ es m (step-IsSound q (waits k w) tt s)

pub new_queue-IsSound : (c : Option ℕ) → IsSound (new_queue c)
unfolding new_queue
new_queue-IsSound c = record {
  inv = record { keys = refl; distinct = tt; count = refl; bounded = omega arith };
  saturated = inr tt;
  positive = omega arith;
}
