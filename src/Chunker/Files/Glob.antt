-- ===== src/Chunker/Files/Glob.antt =====
-- What a path pattern matches, described by how the text is cut and not by a search.
use mathlib.Core.Bool.{false≢true}
use ydb_qdrant.Prelude.{
  ℕ, List, [], ◌∷◌, ◌++◌, Bool, true, false, ◌||◌, ◌==◌, ◌≡◌, ◌≢◌, ◌↔◌, ◌⊎◌, refl, ap, inl, inr,
  arith, Bool-cases, All, any, if◌then◌else◌,
}
use ydb_qdrant.Text.{Text, is_empty, starts_with}
use ydb_qdrant.Chunker.Paths.{filename_of}
use ydb_qdrant.Text.Laws.{starts_with_append, starts_with_sound}
use ydb_qdrant.Chunker.Files.{
  Piece, folders, rest_of_path, name_part, name_unit, literal, repeated, then_unit, is_dot, is_name,
  test, pattern_to_reg_exp, with_slashes, normalize_path_pattern, ends_with_slash, candidates,
  matches_path_pattern,
}

-- The text is one code unit that passes, and a rest.
abbrev StartsBy : (ℕ → Type 0) → (Text → Type 0) → Text → Type 0
StartsBy T Next s = (x : ℕ) × (rest : Text) × (s ≡ x ∷ rest) × T x × Next rest

-- The text is a row of code units that pass, and a rest.
abbrev SplitsBy : (ℕ → Bool) → (Text → Type 0) → Text → Type 0
SplitsBy t Next s =
    (row : Text) × (rest : Text) × (s ≡ row ++ rest) × All (λ c. t c ≡ true) row × Next rest

-- What the pieces of a pattern stand for.
abbrev pub Matches : List Piece → Text → Type 0
Matches [] s = s ≡ []
Matches (literal c ∷ p) s = StartsBy (λ x. x ≡ c) (Matches p) s
Matches (name_unit ∷ p) s = StartsBy (λ x. is_name x ≡ true) (Matches p) s
Matches (name_part ∷ p) s = SplitsBy is_name (Matches p) s
Matches (rest_of_path ∷ p) s = SplitsBy is_dot (Matches p) s
Matches (folders ∷ p) s = SplitsBy is_dot (StartsBy (λ x. x ≡ b'/') (Matches p)) s ⊎ Matches p s

module _ (next : Text → Bool) (Next : Text → Type 0)
    (same : (s : Text) → (next s ≡ true) ↔ Next s) where
  then_unit_iff :
      (t : ℕ → Bool) (T : ℕ → Type 0)
      → ((x : ℕ) → (t x ≡ true) ↔ T x)
      → (s : Text) → (then_unit t next s ≡ true) ↔ StartsBy T Next s
  then_unit_iff t T e [] = (λ h. cc, λ (x, rest, f, _, _). cc)
  then_unit_iff t T e (x ∷ xs) = (
    λ h. (x, xs, refl, (e x).0 (ground arith), (same xs).0 (ground arith)),
    λ (y, rest, f, g, k).
        let a : t x ≡ true = (e x).1 (let q : y ≡ x = cc in rw (← q) g) in
        let b : next xs ≡ true = (same xs).1 (let q : rest ≡ xs = cc in rw (← q) k) in ground arith,
  )

  repeated_sound : (t : ℕ → Bool) (s : Text) → repeated t next s ≡ true → SplitsBy t Next s
  unfolding repeated
  repeated_sound t [] h = ([], [], refl, tt, (same []).0 h)
  repeated_sound t (x ∷ xs) h = elim (Bool-cases (next (x ∷ xs))) [
    | inl e ↦ ([], x ∷ xs, refl, tt, (same (x ∷ xs)).0 e)
    | inr e ↦
        (let (row, rest, f, a, k) = repeated_sound t xs (ground arith) in
          (x ∷ row, rest, ap (λ (r : Text). x ∷ r) f, (ground arith, a), k))
  ]

  repeated_complete :
      (t : ℕ → Bool) (row rest : Text)
      → All (λ c. t c ≡ true) row
      → next rest ≡ true
      → repeated t next (row ++ rest) ≡ true
  unfolding repeated
  repeated_complete t [] [] a k = k
  repeated_complete t [] (x ∷ xs) a k = ground arith
  repeated_complete t (x ∷ row) rest (b, a) k = ground (arith, repeated_complete t row rest a k)

  repeated_iff : (t : ℕ → Bool) (s : Text) → (repeated t next s ≡ true) ↔ SplitsBy t Next s
  repeated_iff t s = (
    repeated_sound t s,
    λ (row, rest, f, a, k). rw f (repeated_complete t row rest a ((same rest).1 k)),
  )

either_iff :
    (a b : Bool) (A B : Type 0) → (a ≡ true) ↔ A → (b ≡ true) ↔ B → ((a || b) ≡ true) ↔ (A ⊎ B)
either_iff true b A B e f = (λ h. inl (e.0 refl), λ h. refl)
either_iff false b A B e f =
    (λ h. inr (f.0 h), λ h. elim h [ inl x ↦ absurd (false≢true (e.1 x)) | inr y ↦ f.1 y ])

pub test_iff : (p : List Piece) (s : Text) → (test p s ≡ true) ↔ Matches p s
unfolding test
test_iff [] [] = (λ h. refl, λ h. refl)
test_iff [] (x ∷ xs) = (λ h. cc, λ h. cc)
test_iff (literal c ∷ p) s =
    then_unit_iff (test p) (Matches p) (test_iff p) (λ x. x == c) (λ x. x ≡ c) (λ x. ground arith) s
test_iff (name_unit ∷ p) s =
    then_unit_iff (test p) (Matches p) (test_iff p) is_name (λ x. is_name x ≡ true)
      (λ x. (λ h. h, λ h. h)) s
test_iff (name_part ∷ p) s = repeated_iff (test p) (Matches p) (test_iff p) is_name s
test_iff (rest_of_path ∷ p) s = repeated_iff (test p) (Matches p) (test_iff p) is_dot s
test_iff (folders ∷ p) s =
    let Folder = StartsBy (λ x. x ≡ b'/') (Matches p) in
    let (a, b) =
      repeated_iff (then_unit (λ x. x == b'/') (test p)) Folder
        (then_unit_iff (test p) (Matches p) (test_iff p) (λ x. x == b'/') (λ x. x ≡ b'/')
          (λ x. ground arith))
        is_dot s in
    let (c, d) = test_iff p s in either_iff _ _ _ _ (a, b) (c, d)

-- A pattern `p` against a path `s` whose file has the name `f`.
abbrev pub Selects : Text → Text → Text → Type 0
Selects p s f =
    (p ≢ [])
    × (((ends_with_slash p ≡ true) × ((rest : Text) × (s ≡ p ++ rest)))
        ⊎ ((ends_with_slash p ≡ false)
            × (Matches (pattern_to_reg_exp p) s
                ⊎ (All (λ c. (c == b'/') ≡ false) p × Matches (pattern_to_reg_exp p) f))))

no_slash : (p : Text) → (any (λ c. c == b'/') p ≡ false) ↔ All (λ c. (c == b'/') ≡ false) p
no_slash [] = (λ h. tt, λ h. refl)
no_slash (x ∷ xs) =
    let (a, b) = no_slash xs in
    (λ h. (ground arith, a (ground arith)), λ (h, k). ground (arith, b k))

tries : Text → Text → Text → Bool
tries p s f =
    any (test (pattern_to_reg_exp p)) (if any (λ c. c == b'/') p then s ∷ [] else f ∷ s ∷ [])

tries_iff :
    (p s f : Text)
    → (tries p s f ≡ true) ↔ (
        Matches (pattern_to_reg_exp p) s
        ⊎ (All (λ c. (c == b'/') ≡ false) p × Matches (pattern_to_reg_exp p) f))
unfolding tries
tries_iff p s f =
    let q = pattern_to_reg_exp p in
    let (a, b) = test_iff q s in
    let (c, d) = test_iff q f in
    let (n, m) = no_slash p in
    (
      λ h. elim (Bool-cases (test q s)) [
        | inl e ↦ inl (a e)
        | inr e ↦ inr (n (ground arith), c (ground arith))
      ],
      λ h. elim h [
        | inl k ↦ (let e = b k in ground arith)
        | inr (z, k) ↦ (let e = d k in let y = m z in ground arith)
      ],
    )

-- The decision of `matchesPathPattern`, after its texts are normalized.
chosen : Text → Text → Text → Bool
chosen p s f =
    if is_empty p then false else if ends_with_slash p then starts_with p s else tries p s f

chosen_iff : (p s f : Text) → (chosen p s f ≡ true) ↔ Selects p s f
unfolding chosen
chosen_iff [] s f = (λ h. cc, λ (n, _). absurd (n refl))
chosen_iff (x ∷ xs) s f =
    let p = x ∷ xs in
    let (a, b) = tries_iff p s f in
    elim (Bool-cases (ends_with_slash p)) [
      | inl e ↦ (
        λ h. (λ z. cc, inl (e, starts_with_sound p s (ground arith))),
        λ (n, k). elim k [
          | inl (_, (rest, q)) ↦ rw (chosen, e, q) (starts_with_append p rest)
          | inr (z, _) ↦ cc
        ],
      )
      | inr e ↦ (
        λ h. (λ z. cc, inr (e, a (ground arith))),
        λ (n, k). elim k [ inl (z, _) ↦ cc | inr (_, m) ↦ rw (chosen, e) (b m) ],
      )
    ]

-- The code asks for the pieces of the normalized pattern.
pub matches_path_pattern-Selects :
    (to_lower : Text → Text) (path pattern : Text)
    → (matches_path_pattern to_lower path pattern ≡ true)
      ↔ Selects
          (normalize_path_pattern pattern)
          (with_slashes path)
          (filename_of to_lower (with_slashes path))
unfolding matches_path_pattern candidates chosen tries
matches_path_pattern-Selects to_lower path pattern = chosen_iff _ _ _
