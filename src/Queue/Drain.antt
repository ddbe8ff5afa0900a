-- ===== src/Queue/Drain.antt =====
-- The loop that starts jobs: one job to a repository, no more than the concurrency, and no job left
-- waiting that could run.
use ydb_qdrant.Prelude.{
  ℕ, zero, suc, ◌≤◌, ◌<◌, List, [], ◌∷◌, true, false, ◌≡◌, ◌⊎◌, inl, inr, ltb, Option, none, some,
  length, map, All, arith, Bool-cases, Option-cases, ltb→lt,
}
use ydb_qdrant.Text.{Text, includes}
use ydb_qdrant.Queue.{Queue, Item, key, take_next, start, drain_rounds, drain}

-- No repository twice.
abbrev pub Distinct : List Text → Type 0
Distinct [] = Unit
Distinct (k ∷ ks) = (includes k ks ≡ false) × Distinct ks

pub record Inv (q : Queue) : Type 0 where
  pub keys : q.running_repo_keys ≡ map key q.processing
  pub distinct : Distinct q.running_repo_keys
  pub count : q.active_count ≡ length q.processing
  pub bounded : q.active_count ≤ q.concurrency

-- Every place is taken, or each waiting job is for a repository that a running job is for.
abbrev pub IsSaturated : Queue → Type 0
IsSaturated q =
    (q.active_count ≡ q.concurrency) ⊎ All (λ i. includes (key i) q.running_repo_keys ≡ true) q.jobs

take_next-none :
    (running : List Text) (is : List Item)
    → take_next running is ≡ none
    → All (λ i. includes (key i) running ≡ true) is
unfolding take_next
take_next-none running [] h = tt
take_next-none running (i ∷ is) h = ground (arith, take_next-none running is)

-- The job that is taken is for an idle repository, and the jobs ahead of it are not.
pub take_next-some :
    (running : List Text) (is rest : List Item) (i : Item)
    → take_next running is ≡ some (i, rest)
    → (includes (key i) running ≡ false) × (length is ≡ suc (length rest))
unfolding take_next
take_next-some running [] rest i h = cc
take_next-some running (x ∷ is) rest i h = elim (Bool-cases (includes (key x) running)) [
  | inr idle ↦ ground arith
  | inl busy ↦ elim (Option-cases (take_next running is)) [
    | inl e ↦
        let clash : ◌≡◌ {A = Option (Item × List Item)} none (some (i, rest)) = ground arith in cc
    | inr ((j, later), e) ↦
        let same : j ≡ i = ground arith in
        let tail : x ∷ later ≡ rest = ground arith in
        let (idle, len) = take_next-some running is later j e in
        (rw (← same) idle, rw (← tail) (omega (arith, len)))
  ]
]

start-Inv :
    (q : Queue) (i : Item) (rest : List Item)
    → includes (key i) q.running_repo_keys ≡ false
    → q.active_count < q.concurrency
    → Inv q
    → Inv (start q i rest)
unfolding start
start-Inv q i rest fresh room v = ground arith

-- What each start keeps, the loop keeps.
pub drain_rounds-keeps {ℓ} :
    (P : Queue → Type ℓ)
    → ((q : Queue) (i : Item) (rest : List Item)
        → take_next q.running_repo_keys q.jobs ≡ some (i, rest)
        → q.active_count < q.concurrency
        → P q
        → P (start q i rest))
    → (f : ℕ) (q : Queue) → P q
    → P (drain_rounds f q)
unfolding drain_rounds
drain_rounds-keeps P keep zero q h = h
drain_rounds-keeps P keep (suc f) q h = elim (Bool-cases (ltb q.active_count q.concurrency)) [
  | inr full ↦ rw full h
  | inl room ↦ rw room (elim (Option-cases (take_next q.running_repo_keys q.jobs)) [
    | inl e ↦ rw e h
    | inr ((i, rest), e) ↦
        rw e (drain_rounds-keeps P keep f (start q i rest) (keep q i rest e (ltb→lt _ _ room) h))
  ])
]

pub drain-Inv : (q : Queue) → Inv q → Inv (drain q)
unfolding drain
drain-Inv q v =
    drain_rounds-keeps Inv
      (λ p i rest e room w.
        start-Inv p i rest (take_next-some p.running_repo_keys p.jobs rest i e).0 room w)
      (length q.jobs) q v

drain_rounds-IsSaturated :
    (f : ℕ) (q : Queue)
    → q.active_count ≤ q.concurrency
    → length q.jobs ≤ f
    → IsSaturated (drain_rounds f q)
unfolding drain_rounds
drain_rounds-IsSaturated zero q b h = inr (none-left q.jobs h)
  where
    none-left :
        (is : List Item) → length is ≤ 0 → All (λ i. includes (key i) q.running_repo_keys ≡ true) is
    none-left [] l = tt
    none-left (i ∷ is) l = absurd (omega arith)
drain_rounds-IsSaturated (suc f) q b h = elim (Bool-cases (ltb q.active_count q.concurrency)) [
  | inr full ↦ rw full (inl (ground arith))
  | inl room ↦ rw room (elim (Option-cases (take_next q.running_repo_keys q.jobs)) [
    | inl e ↦ rw e (inr (take_next-none q.running_repo_keys q.jobs e))
    | inr ((i, rest), e) ↦ rw e (
        drain_rounds-IsSaturated f (start q i rest) (unfold start in ground arith)
          (unfold start in omega (arith, (take_next-some q.running_repo_keys q.jobs rest i e).1)))
  ])
]

-- The fuel of `drain` is enough: the loop ends because no job can be started.
pub drain-IsSaturated : (q : Queue) → q.active_count ≤ q.concurrency → IsSaturated (drain q)
unfolding drain
drain-IsSaturated q b = drain_rounds-IsSaturated (length q.jobs) q b (omega arith)
