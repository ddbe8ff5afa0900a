-- ===== src/Points/Filter/Lookup.antt =====
-- The lookup rows of a point against the filters: an exact test of the lookup rows' paths is the
-- prefix test of the point's own column.
use ydb_qdrant.Prelude.{
  ℕ, zero, suc, List, [], ◌∷◌, false, ◌&&◌, ◌==◌, ◌≡◌, refl, ap, arith, if◌then◌else◌, map, length,
  take, ==_iff, Bool-cases, ◌⊎◌, inl, inr,
}
use ydb_qdrant.Text.{Text, is_empty, split_on, join, includes, push_head}
use ydb_qdrant.Points.Paths.{slash, joined_from, expand_path_prefixes}
use ydb_qdrant.Points.Filter.{prefix_matches}

-- The prefixes of a text that end before a slash or at its end, by recursion on the text.
prefixes : Text → List Text
prefixes [] = [] ∷ []
prefixes (x ∷ xs) =
    let longer = map (λ (t : Text). x ∷ t) (prefixes xs) in
    if x == slash then [] ∷ longer else longer

includes-map :
    (x y : ℕ) (ys : Text) (ts : List Text)
    → includes (y ∷ ys) (map (λ (t : Text). x ∷ t) ts) ≡ ((x == y) && includes ys ts)
includes-map x y ys [] = ground arith
includes-map x y ys (t ∷ ts) = ground (arith, includes-map x y ys ts)

not_includes-map : (x : ℕ) (ts : List Text) → includes [] (map (λ (t : Text). x ∷ t) ts) ≡ false
not_includes-map x [] = refl
not_includes-map x (t ∷ ts) = not_includes-map x ts

includes-prefixes : (p q : Text) → includes q (prefixes p) ≡ prefix_matches p q
unfolding prefixes
includes-prefixes [] [] = refl
includes-prefixes [] (y ∷ ys) = refl
includes-prefixes (x ∷ xs) [] = ground (arith, not_includes-map x (prefixes xs))
includes-prefixes (x ∷ xs) (y ∷ ys) =
    ground (arith, includes-prefixes xs ys, includes-map x y ys (prefixes xs))

-- A list of parts that is not empty.
abbrev HasPart : List Text → Type 0
HasPart ps = (p : Text) × (rest : List Text) × (ps ≡ p ∷ rest)

push_head-HasPart : (x : ℕ) (ps : List Text) → HasPart (push_head x ps)
push_head-HasPart x [] = (x ∷ [], [], refl)
push_head-HasPart x (p ∷ ps) = (x ∷ p, ps, refl)

split_on-HasPart : (p : Text) → HasPart (split_on slash p)
unfolding split_on
split_on-HasPart [] = ([], [], refl)
split_on-HasPart (x ∷ xs) = elim (Bool-cases (x == slash)) [
  | inl e ↦ rw e ([], split_on slash xs, refl)
  | inr e ↦ rw e (push_head-HasPart x (split_on slash xs))
]

-- The two ways that a code unit in front changes the joined prefixes.
joined-push :
    (x : ℕ) (p : Text) (ps : List Text) (i n : ℕ)
    → joined_from ((x ∷ p) ∷ ps) (suc i) n
      ≡ map (λ (t : Text). x ∷ t) (joined_from (p ∷ ps) (suc i) n)
unfolding join
joined-push x p ps i zero = refl
joined-push x p ps i (suc n) = elim (take-cases ps i) [
  | inl e ↦ rw (e, joined-push x p ps (suc i) n) refl
  | inr (q, qs, e) ↦ rw (e, joined-push x p ps (suc i) n) refl
]
  where
    take-cases :
        (ps : List Text) (i : ℕ)
        → (take i ps ≡ []) ⊎ ((q : Text) × (qs : List Text) × (take i ps ≡ q ∷ qs))
    take-cases ps zero = inl refl
    take-cases [] (suc i) = inl refl
    take-cases (q ∷ qs) (suc i) = inr (q, take i qs, refl)

joined-slash :
    (p : Text) (ps : List Text) (i n : ℕ)
    → joined_from ([] ∷ p ∷ ps) (suc (suc i)) n
      ≡ map (λ (t : Text). slash ∷ t) (joined_from (p ∷ ps) (suc i) n)
unfolding join
joined-slash p ps i zero = refl
joined-slash p ps i (suc n) = rw (joined-slash p ps (suc i) n) refl

all_joined : List Text → List Text
all_joined parts = joined_from parts 1 (length parts)

all_joined-slash_cons :
    (q : Text) (qs : List Text)
    → all_joined ([] ∷ q ∷ qs) ≡ [] ∷ map (λ (t : Text). slash ∷ t) (all_joined (q ∷ qs))
unfolding all_joined join
all_joined-slash_cons q qs = ap (λ (r : List Text). [] ∷ r) (joined-slash q qs 0 (suc (length qs)))

all_joined-slash :
    (parts : List Text)
    → HasPart parts
    → all_joined ([] ∷ parts) ≡ [] ∷ map (λ (t : Text). slash ∷ t) (all_joined parts)
all_joined-slash parts (q, qs, e) = rw e (all_joined-slash_cons q qs)

all_joined-push :
    (x : ℕ) (parts : List Text)
    → HasPart parts
    → all_joined (push_head x parts) ≡ map (λ (t : Text). x ∷ t) (all_joined parts)
unfolding all_joined
all_joined-push x parts (q, qs, e) = rw e (joined-push x q qs 0 (suc (length qs)))

all_joined-split : (p : Text) → all_joined (split_on slash p) ≡ prefixes p
unfolding prefixes split_on all_joined join
all_joined-split [] = refl
all_joined-split (x ∷ xs) =
    let slashed = all_joined-slash (split_on slash xs) (split_on-HasPart xs) in
    let pushed = all_joined-push x (split_on slash xs) (split_on-HasPart xs) in
    ground (arith, all_joined-split xs, slashed, pushed, ==_iff x slash)

-- For a stored path that is not empty, the lookup rows that an upsert writes hold a given path
-- exactly if the prefix filter of a search with that path matches the stored one.
pub expand_path_prefixes-prefix_matches :
    (path_prefix path : Text)
    → is_empty path_prefix ≡ false
    → includes path (expand_path_prefixes path_prefix) ≡ prefix_matches path_prefix path
unfolding expand_path_prefixes all_joined
expand_path_prefixes-prefix_matches path_prefix path h =
    rw (h, all_joined-split path_prefix) (includes-prefixes path_prefix path)
