-- ===== src/Naming/Collections.antt =====
-- The collections of a repository are told from those of every other by their names.
use mathlib.Core.List.{reverse, reverse-append, reverse-reverse, reverse-cons, append_assoc}
use ydb_qdrant.Prelude.{
  ℕ, [], ◌∷◌, ◌++◌, true, false, ◌==◌, ◌≡◌, ◌↔◌, refl, sym, ap, ◌∙◌, arith, All, All-imp, drop,
}
use ydb_qdrant.Text.{Text, codes, drop_while, starts_with}
use ydb_qdrant.Text.Laws.{starts_with_append, starts_with_sound}
use ydb_qdrant.Text.Decimal.{decimal, decimal-All, decimal-cons, decimal-terminated}
use ydb_qdrant.Tenant.{underscore}
use ydb_qdrant.Tenant.Clean.{IsClean, IsName, sanitize_of_IsClean}
use ydb_qdrant.Tenant.Uid.{is_hex, Ends, hex-IsClean, hex-Ends, joined-IsName}
use ydb_qdrant.Naming.{
  sanitize_identifier, default_branch_collection_for_repo, repo_collection_prefix_for_repo,
  pull_request_collection_for_repo,
}

last-split :
    (s : Text) → Ends s → (a : Text) × (x : ℕ) × (s ≡ a ++ (x ∷ [])) × ((x == underscore) ≡ false)
last-split [] e = absurd e
last-split (x ∷ []) e = ([], x, refl, e)
last-split (x ∷ y ∷ s) e =
    let (a, z, f, g) = last-split (y ∷ s) e in (x ∷ a, z, ap (λ (r : Text). x ∷ r) f, g)

strip-Ends : (s : Text) → Ends s → reverse (drop_while (λ c. c == underscore) (reverse s)) ≡ s
strip-Ends s e =
    let (a, x, f, g) = last-split s e in
    rw (f, reverse-append a (x ∷ []), g, reverse-cons x (reverse a), reverse-reverse a) refl

sanitize_identifier-fixed : (s : Text) → IsName s → Ends s → sanitize_identifier s ≡ s
unfolding sanitize_identifier
sanitize_identifier-fixed s (c, n) e = rw (sanitize_of_IsClean s c, strip-Ends s e, n) refl

digits-Clean : (n : ℕ) → IsClean (decimal n)
digits-Clean n = hex-IsClean (decimal n) (All-imp (λ c d. ground arith) (decimal n) (decimal-All n))

decimal-Ends : (n : ℕ) → Ends (decimal n)
decimal-Ends n =
    let (x, xs, e) = decimal-cons n in
    let hex : All (λ c. is_hex c ≡ true) (decimal n) =
      All-imp (λ c d. ground arith) (decimal n) (decimal-All n) in
    rw e (hex-Ends x xs (rw e at hex))

Ends-joined : (a b : Text) → Ends b → Ends (a ++ b)
Ends-joined [] b e = e
Ends-joined (x ∷ []) [] e = absurd e
Ends-joined (x ∷ []) (y ∷ b) e = e
Ends-joined (x ∷ y ∷ a) b e = Ends-joined (y ∷ a) b e

-- `gh_repo_` and a number.
repo_name : ℕ → Text
repo_name n = codes "gh_repo" ++ underscore ∷ decimal n

repo_name-IsName : (n : ℕ) → IsName (repo_name n)
unfolding repo_name
repo_name-IsName n =
    joined-IsName (codes "gh_repo") (decimal n) (ground arith) refl (digits-Clean n)

repo_name-Ends : (n : ℕ) → Ends (repo_name n)
unfolding repo_name
repo_name-Ends n = Ends-joined (codes "gh_repo_") (decimal n) (decimal-Ends n)

-- A name under the repository's: an underscore and a part.
part_of-fixed :
    (n : ℕ) (part : Text)
    → IsClean part
    → Ends part
    → sanitize_identifier (repo_name n ++ underscore ∷ part) ≡ repo_name n ++ underscore ∷ part
part_of-fixed n part c e =
    sanitize_identifier-fixed _
      (joined-IsName (repo_name n) part (repo_name-IsName n) (repo_name-Ends n) c)
      (Ends-joined (repo_name n) (underscore ∷ part) (Ends-cons part e))
  where
    Ends-cons : (s : Text) → Ends s → Ends (underscore ∷ s)
    Ends-cons [] e = absurd e
    Ends-cons (x ∷ s) e = e

pull_request_part-IsClean : (n : ℕ) → IsName (codes "pr" ++ underscore ∷ decimal n)
pull_request_part-IsClean n =
    joined-IsName (codes "pr") (decimal n) (ground arith) refl (digits-Clean n)

default_name :
    (n : ℕ) → default_branch_collection_for_repo n ≡ repo_name n ++ underscore ∷ codes "default"
unfolding default_branch_collection_for_repo repo_name
default_name n = part_of-fixed n (codes "default") (ground arith) refl

pull_request_name :
    (n k : ℕ)
    → pull_request_collection_for_repo n k
      ≡ repo_name n ++ underscore ∷ (codes "pr" ++ underscore ∷ decimal k)
unfolding pull_request_collection_for_repo repo_name
pull_request_name n k =
    part_of-fixed n (codes "pr" ++ underscore ∷ decimal k) (pull_request_part-IsClean k).0
      (Ends-joined (codes "pr_") (decimal k) (decimal-Ends k))

prefix_name : (n : ℕ) → repo_collection_prefix_for_repo n ≡ repo_name n ++ (underscore ∷ [])
unfolding repo_collection_prefix_for_repo repo_name
prefix_name n =
    ap (λ (s : Text). s ++ (underscore ∷ []))
      (sanitize_identifier-fixed (repo_name n) (repo_name-IsName n) (repo_name-Ends n))

-- Two names that go on after their number.
repo_name-terminated :
    (m n : ℕ) (s t : Text)
    → (repo_name m ++ underscore ∷ s) ≡ (repo_name n ++ underscore ∷ t)
    → (m ≡ n) × (s ≡ t)
unfolding repo_name
repo_name-terminated m n s t e =
    decimal-terminated m n underscore s t (λ d. omega arith) (ap (drop 8) e)

under_prefix_iff :
    (m n : ℕ) (part : Text)
    → (starts_with (repo_name m ++ (underscore ∷ [])) (repo_name n ++ underscore ∷ part) ≡ true)
      ↔ (m ≡ n)
under_prefix_iff m n part = (
  λ h.
      let (rest, e) = starts_with_sound _ _ h in
      (repo_name-terminated m n rest part
        (sym (e ∙ append_assoc (repo_name m) (underscore ∷ []) rest))).0,
  λ e.
      rw (e, ← (append_assoc (repo_name n) (underscore ∷ []) part))
        (starts_with_append (repo_name n ++ (underscore ∷ [])) part),
)

-- The name of a repository's default collection and those of its pull requests start with its own
-- prefix, and with that of no other repository, so that a deletion by prefix finds the collections
-- of one repository only.
pub repo_collection_prefix_iff :
    (m n k : ℕ)
    → ((starts_with (repo_collection_prefix_for_repo m) (default_branch_collection_for_repo n)
          ≡ true)
        ↔ (m ≡ n))
      × ((starts_with (repo_collection_prefix_for_repo m) (pull_request_collection_for_repo n k)
            ≡ true)
          ↔ (m ≡ n))
repo_collection_prefix_iff m n k =
    rw (prefix_name m, default_name n, pull_request_name n k)
      (
        under_prefix_iff m n (codes "default"),
        under_prefix_iff m n (codes "pr" ++ underscore ∷ decimal k),
      )
