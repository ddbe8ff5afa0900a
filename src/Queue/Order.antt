-- ===== src/Queue/Order.antt =====
-- Jobs of one repository start in the order in which they were queued, and none is lost.
use mathlib.Core.List.{append_assoc}
use ydb_qdrant.Prelude.{
  List, [], ◌∷◌, ◌++◌, true, false, ◌≡◌, inl, inr, refl, ap, sym, ◌∙◌, Option, none, some, filter,
  length, arith, Bool-cases, Option-cases,
}
use ydb_qdrant.Text.{Text, text_eq, includes}
use ydb_qdrant.Text.Laws.{text_eq_iff}
use ydb_qdrant.Queue.{Queue, Item, key, take_next, start, drain}
use ydb_qdrant.Queue.Drain.{take_next-some, drain_rounds-keeps}

-- The jobs of the repository `k`, in order.
abbrev pub of_repo : Text → List Item → List Item
of_repo k = filter (λ i. text_eq (key i) k)

pub of_repo-append :
    (k : Text) (xs ys : List Item) → of_repo k (xs ++ ys) ≡ of_repo k xs ++ of_repo k ys
of_repo-append k [] ys = refl
of_repo-append k (x ∷ xs) ys = ground (arith, of_repo-append k xs ys)

swap :
    (k : Text) (running : List Text) (x j : Item) (is later : List Item)
    → includes (key x) running ≡ true
    → includes (key j) running ≡ false
    → of_repo k is ≡ of_repo k (j ∷ []) ++ of_repo k later
    → of_repo k (x ∷ is) ≡ of_repo k (j ∷ []) ++ of_repo k (x ∷ later)
swap k running x j is later busy idle ih = elim (Bool-cases (text_eq (key x) k)) [
  | inr ex ↦ rw ex ih
  | inl ex ↦ elim (Bool-cases (text_eq (key j) k)) [
    | inr ej ↦
        let ih' : of_repo k is ≡ of_repo k later = rw ih (rw ej) in
        rw (ex, ej) (ap (λ (r : List Item). x ∷ r) ih')
    | inl ej ↦
        let same : key x ≡ key j =
          (text_eq_iff (key x) k).0 ex ∙ sym ((text_eq_iff (key j) k).0 ej) in
        let clash = sym busy ∙ ap (λ (t : Text). includes t running) same ∙ idle in cc
  ]
]

take_next-order :
    (k : Text) (running : List Text) (is rest : List Item) (i : Item)
    → take_next running is ≡ some (i, rest)
    → of_repo k is ≡ of_repo k (i ∷ []) ++ of_repo k rest
unfolding take_next
take_next-order k running [] rest i h = cc
take_next-order k running (x ∷ is) rest i h = elim (Bool-cases (includes (key x) running)) [
  | inr idle ↦
      let same : x ≡ i = ground arith in
      let tail : is ≡ rest = ground arith in rw (← same, ← tail) (ground arith)
  | inl busy ↦ elim (Option-cases (take_next running is)) [
    | inl e ↦
        let clash : ◌≡◌ {A = Option (Item × List Item)} none (some (i, rest)) = ground arith in cc
    | inr ((j, later), e) ↦
        let same : j ≡ i = ground arith in
        let tail : x ∷ later ≡ rest = ground arith in
        let ih = take_next-order k running is later j e in
        let (idle, _) = take_next-some running is later j e in
        rw (← same, ← tail) (swap k running x j is later busy idle ih)
  ]
]

-- The jobs of a repository that were started, and those that wait, in order.
abbrev pub history : Text → Queue → List Item
history k q = of_repo k q.started ++ of_repo k q.jobs

start-history :
    (k : Text) (q : Queue) (i : Item) (rest : List Item)
    → take_next q.running_repo_keys q.jobs ≡ some (i, rest)
    → history k (start q i rest) ≡ history k q
unfolding start
start-history k q i rest e =
    rw (of_repo-append k q.started (i ∷ []), take_next-order k q.running_repo_keys q.jobs rest i e)
      (append_assoc (of_repo k q.started) (of_repo k (i ∷ [])) (of_repo k rest))

pub drain-history : (k : Text) (q : Queue) → history k (drain q) ≡ history k q
unfolding drain
drain-history k q =
    drain_rounds-keeps (λ p. history k p ≡ history k q)
      (λ p i rest e room h. start-history k p i rest e ∙ h) (length q.jobs) q refl
