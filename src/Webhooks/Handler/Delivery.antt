-- ===== src/Webhooks/Handler/Delivery.antt =====
-- Each delivery is checked, and its jobs are queued once.
use ydb_qdrant.Prelude.{
  ℕ, List, [], ◌∷◌, ◌++◌, Bool, true, false, not, ◌&&◌, ◌||◌, ◌≡◌, ◌⊎◌, refl, ap, sym, ◌∙◌, inl,
  inr, arith, Option, none, some, length, Bool-cases, Option-cases, append_assoc, append-nil,
}
use ydb_qdrant.Text.{Text, codes}
use ydb_qdrant.Text.Laws.{text_eq_refl}
use ydb_qdrant.Json.{Json}
use ydb_qdrant.Jobs.{IndexingJob}
use ydb_qdrant.Queue.{DeliveryStore, has, reserve}
use ydb_qdrant.Queue.Deliveries.{has-store}
use ydb_qdrant.Webhooks.Fallback.{
  StoreCall, works, fails, returns, takes_effect, Deps, State, LifecycleCall, LifecycleStore,
  jobs_for_webhook,
}
use ydb_qdrant.Webhooks.Handler.{
  Reply, success, Answer, replied, threw, enqueue_all, record_if_stored, mark_unless, release_if,
  reserve_or_check, perform, conclude, process, recover, deliver,
}

enqueue_all-deliveries :
    (deps : Deps) (js : List IndexingJob) (s : State)
    → (enqueue_all deps js s).0.deliveries ≡ s.deliveries
unfolding enqueue_all
enqueue_all-deliveries deps [] s = refl
enqueue_all-deliveries deps (j ∷ js) s =
    ground (arith, enqueue_all-deliveries deps js (record s { enqueued = s.enqueued ++ j ∷ [] }))

enqueue_all-enqueued :
    (deps : Deps) (js : List IndexingJob) (s : State)
    → (enqueue_all deps js s).1 ≡ true
    → (enqueue_all deps js s).0.enqueued ≡ s.enqueued ++ js
unfolding enqueue_all
enqueue_all-enqueued deps [] s h = sym (append-nil s.enqueued)
enqueue_all-enqueued deps (j ∷ js) s h = ground (
  arith,
  enqueue_all-enqueued deps js (record s { enqueued = s.enqueued ++ j ∷ [] }),
  append_assoc s.enqueued (j ∷ []) js,
)

perform-same :
    (store : LifecycleStore) (cs : List LifecycleCall) (s : State)
    → ((perform store cs s).0.deliveries ≡ s.deliveries)
      × ((perform store cs s).0.enqueued ≡ s.enqueued)
unfolding perform
perform-same store [] s = (refl, refl)
perform-same store (c ∷ cs) s =
    ground (arith, perform-same store cs (record s { calls = s.calls ++ c ∷ [] }))

record_if_stored-same :
    (store : Option LifecycleStore) (event : Text) (payload : Json) (jobs : List IndexingJob)
    (s : State)
    → ((record_if_stored store event payload jobs s).0.deliveries ≡ s.deliveries)
      × ((record_if_stored store event payload jobs s).0.enqueued ≡ s.enqueued)
unfolding record_if_stored
record_if_stored-same none event payload jobs s = (refl, refl)
record_if_stored-same (some store) event payload jobs s = perform-same store _ s

-- What a reservation, its return and a mark do to an identifier that is free.
reserve-fresh :
    (atomic : Bool) (d : DeliveryStore) (id : Text)
    → has d id ≡ false
    → let r = reserve_or_check atomic d id in
      (r.1 ≡ true)
      × (has (release_if atomic r.0 id) id ≡ false)
      × (has (mark_unless atomic r.0 id) id ≡ true)
reserve-fresh true d id h =
    let (m, r, b, l) = has-store d id id in
    let self = text_eq_refl id in
    (b ∙ ap not h, (has-store (reserve d id).0 id id).3 ∙ rw self, r ∙ rw self)
reserve-fresh false d id h = (ap not h, h, (has-store d id id).0 ∙ rw (text_eq_refl id))

reserve-duplicate :
    (atomic : Bool) (d : DeliveryStore) (id : Text)
    → has d id ≡ true
    → reserve_or_check atomic d id ≡ (d, false)
unfolding reserve
reserve-duplicate true d id h = rw h
reserve-duplicate false d id h = rw h

recover-threw :
    (deps : Deps) (id : Text) (p : State × Answer)
    → p.1 ≡ threw
    → recover deps id p ≡ (
      record (p.0) {
        deliveries = release_if (deps.atomic && takes_effect deps.release_call) p.0.deliveries id;
      },
      threw,
    )
unfolding recover
recover-threw deps id (s, replied c r) h = cc
recover-threw deps id (s, threw) h = refl

recover-replied :
    (deps : Deps) (id : Text) (p : State × Answer) {c : ℕ} {r : Reply}
    → p.1 ≡ replied c r
    → recover deps id p ≡ p
unfolding recover
recover-replied deps id (s, replied c r) h = refl
recover-replied deps id (s, threw) h = cc

-- A call of the delivery store that did not return.
abbrev pub IsFaulty : Deps → Type 0
IsFaulty deps =
    (returns deps.reserve_call ≡ false)
    ⊎ (((deps.atomic ≡ false) × (returns deps.mark_call ≡ false))
        ⊎ ((deps.atomic ≡ true) × (returns deps.release_call ≡ false)))

unreleased : (c : StoreCall) → takes_effect c ≡ false → returns c ≡ false
unreleased works h = cc
unreleased (fails b) h = refl

-- A delivery that failed keeps its reservation only if the store could not release it.
after_failure :
    (deps : Deps) (d : DeliveryStore) (id : Text)
    → has d id ≡ false
    → let left =
        release_if
          (deps.atomic && takes_effect deps.release_call)
          (reserve_or_check deps.atomic d id).0
          id in
      (has left id ≡ false) ⊎ IsFaulty deps
after_failure deps d id h = go deps.atomic refl (takes_effect deps.release_call) refl
  where
    go :
        (atomic : Bool)
        → deps.atomic ≡ atomic
        → (applied : Bool) → takes_effect deps.release_call ≡ applied
        → (has (release_if (atomic && applied) (reserve_or_check atomic d id).0 id) id ≡ false)
          ⊎ IsFaulty deps
    go true e true f = inl ((reserve-fresh true d id h).1)
    go false e applied f = inl h
    go true e false f = inr (inr (inr (e, unreleased deps.release_call f)))

marked_in_effect :
    (atomic : Bool) (c : StoreCall)
    → (atomic || returns c) ≡ true
    → (atomic || not (takes_effect c)) ≡ atomic
marked_in_effect true c h = refl
marked_in_effect false works h = refl
marked_in_effect false (fails b) h = cc

unmarked :
    (atomic : Bool) (c : StoreCall)
    → (atomic || returns c) ≡ false
    → (atomic ≡ false) × (returns c ≡ false)
unmarked true c h = cc
unmarked false c h = (refl, h)

module _ (deps : Deps) (id event : Text) (payload : Json) where
  -- How the `try` block ends, in a state where the delivery is marked only if it was reserved.
  abbrev Ends : State → State × Answer → Type 0
  Ends s (s', a) =
      ((a ≡ threw)
        × ((s'.deliveries ≡ s.deliveries)
            ⊎ ((deps.atomic ≡ false) × (returns deps.mark_call ≡ false))))
      ⊎ ((jobs : List IndexingJob) × (jobs_for_webhook deps id event payload ≡ some jobs)
          × (a ≡ replied 200 (success (length jobs) (codes "accepted")))
          × (s'.enqueued ≡ s.enqueued ++ jobs)
          × (s'.deliveries ≡ mark_unless deps.atomic s.deliveries id))

  conclude-Ends :
      (jobs : List IndexingJob) (s q : State)
      → jobs_for_webhook deps id event payload ≡ some jobs
      → q.deliveries ≡ s.deliveries
      → q.enqueued ≡ s.enqueued ++ jobs
      → Ends s (conclude deps id event payload jobs q)
  unfolding conclude
  conclude-Ends jobs s q e d n =
      let same = record_if_stored-same deps.lifecycle_store event payload jobs q in
      elim (Bool-cases (record_if_stored deps.lifecycle_store event payload jobs q).1) [
        | inr stopped ↦ rw (stopped, conclude) (inl (refl, inl (same.0 ∙ d)))
        | inl done ↦ elim (Bool-cases (deps.atomic || returns deps.mark_call)) [
          | inr broken ↦
              rw (done, conclude)
                (rw broken (inl (refl, inr (unmarked deps.atomic deps.mark_call broken))))
          | inl went ↦
              rw (done, conclude)
                (rw went (
                  inr (
                    jobs,
                    e,
                    refl,
                    same.1 ∙ n,
                    ap
                          (λ (a : Bool).
                            mark_unless a
                              (record_if_stored deps.lifecycle_store event payload jobs
                                q).0.deliveries
                              id)
                          (marked_in_effect deps.atomic deps.mark_call went)
                        ∙ ap (λ (t : DeliveryStore). mark_unless deps.atomic t id) (same.0 ∙ d),
                  )))
        ]
      ]

  process-Ends : (s : State) → Ends s (process deps id event payload s)
  unfolding process
  process-Ends s = elim (Option-cases (jobs_for_webhook deps id event payload)) [
    | inl e ↦ rw (e, process) (inl (refl, inl refl))
    | inr (jobs, e) ↦ elim (Bool-cases (enqueue_all deps jobs s).1) [
      | inr stopped ↦
          rw (e, process) (rw stopped (inl (refl, inl (enqueue_all-deliveries deps jobs s))))
      | inl done ↦
          let q = (enqueue_all deps jobs s).0 in
          let p : process deps id event payload s ≡ conclude deps id event payload jobs q =
            rw (e, process) (rw done) in
          rw p (
            conclude-Ends jobs s q e (enqueue_all-deliveries deps jobs s)
              (enqueue_all-enqueued deps jobs s done))
    ]
  ]

  pub deliver-fresh :
      (s : State)
      → has s.deliveries id ≡ false
      → let (s', a) = deliver deps id event payload s in
        ((a ≡ threw) × ((has s'.deliveries id ≡ false) ⊎ IsFaulty deps))
        ⊎ ((jobs : List IndexingJob) × (jobs_for_webhook deps id event payload ≡ some jobs)
            × (a ≡ replied 200 (success (length jobs) (codes "accepted")))
            × (s'.enqueued ≡ s.enqueued ++ jobs)
            × (has s'.deliveries id ≡ true))
  unfolding deliver
  deliver-fresh s fresh =
      let r = reserve_or_check deps.atomic s.deliveries id in
      let (taken, _, marked) = reserve-fresh deps.atomic s.deliveries id fresh in
      let q : State = record s { deliveries = r.0 } in
      let p = process deps id event payload q in
      elim (Bool-cases (returns deps.reserve_call)) [
        | inr broken ↦ rw (broken, deliver) (inl (refl, inr (inl refl)))
        | inl went ↦
            (let same : deliver deps id event payload s ≡ recover deps id p =
                rw (went, deliver) (rw taken refl) in
              rw same (elim (process-Ends q) [
                | inl (stopped, inl d) ↦
                    rw (recover-threw deps id p stopped)
                      (inl (refl, rw d (after_failure deps s.deliveries id fresh)))
                | inl (stopped, inr unmarked_here) ↦
                    rw (recover-threw deps id p stopped) (inl (refl, inr (inr (inl unmarked_here))))
                | inr (jobs, e, accepted, n, d) ↦
                    rw (recover-replied deps id p accepted)
                      (inr (jobs, e, accepted, n, rw d marked))
              ]))
      ]

  -- A delivery that is marked is answered as a duplicate, and nothing changes.
  pub deliver-duplicate :
      (s : State)
      → returns deps.reserve_call ≡ true
      → has s.deliveries id ≡ true
      → deliver deps id event payload s ≡ (s, replied 200 (success 0 (codes "duplicate")))
  unfolding deliver
  deliver-duplicate s went h =
      rw (went, deliver) (rw (reserve-duplicate deps.atomic s.deliveries id h) refl)

  answered-reserved :
      (s : State) (c : ℕ) (r : Reply)
      → (deliver deps id event payload s).1 ≡ replied c r
      → returns deps.reserve_call ≡ true
  unfolding deliver
  answered-reserved s c r h = elim (Bool-cases (returns deps.reserve_call)) [
    | inl went ↦ went
    | inr broken ↦ let k = rw (broken, deliver) at h in cc
  ]

  -- After an answer other than a throw the delivery is marked.
  pub deliver-marked :
      (s : State) (c : ℕ) (r : Reply)
      → (deliver deps id event payload s).1 ≡ replied c r
      → (returns deps.reserve_call ≡ true)
        × (has (deliver deps id event payload s).0.deliveries id ≡ true)
        × (c ≡ 200)
  deliver-marked s c r h =
      let went = answered-reserved s c r h in
      elim (Bool-cases (has s.deliveries id)) [
        | inl old ↦
            (let k = rw (deliver-duplicate s went old) at h in
              rw (deliver-duplicate s went old) (went, old, (cc)))
        | inr fresh ↦ elim (deliver-fresh s fresh) [
          | inl (stopped, _) ↦ let clash = sym h ∙ stopped in cc
          | inr (jobs, e, accepted, n, marked) ↦ (went, marked, (cc))
        ]
      ]
