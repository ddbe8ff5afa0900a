-- ===== src/Chunker/Files/Matching.antt =====
-- Which paths matchesPathPattern of src/code-indexer/chunker.ts accepts.
use ydb_qdrant.Prelude.{ℕ, [], ◌∷◌, ◌++◌, ◌==◌, ◌≡◌, ◌≢◌, ◌⊎◌, All, if◌then◌else◌}
use ydb_qdrant.Text.{Text}
use ydb_qdrant.Chunker.Files.Patterns.{BeginsNot, Describes}

-- A text with each backslash read as a slash.
abbrev Reads : Text → Text → Type 0
Reads [] [] = Unit
Reads [] (y ∷ ys) = ⊥
Reads (x ∷ xs) [] = ⊥
Reads (x ∷ xs) (y ∷ ys) = (((x ≡ b'\\') × (y ≡ b'/')) ⊎ ((x ≢ b'\\') × (y ≡ x))) × Reads xs ys

-- What is left of a text read so, without the slashes that it begins with.
abbrev pub IsNormal : Text → Text → Type 0
IsNormal raw t = (row : Text) × Reads raw (row ++ t) × All (λ c. c ≡ b'/') row × BeginsNot b'/' t

abbrev with_slash : ℕ → ℕ
with_slash c = if c == b'\\' then b'/' else c

abbrev pub EndsInSlash : Text → Type 0
EndsInSlash p = (front : Text) × (p ≡ front ++ b'/' ∷ [])

-- A pattern `p` against a path `s` whose file has the name `f`.
abbrev pub IsSelected : Text → Text → Text → Type 0
IsSelected p s f =
    (p ≢ [])
    × ((EndsInSlash p × ((rest : Text) × (s ≡ p ++ rest)))
        ⊎ (¬ EndsInSlash p × (Describes p s ⊎ (All (λ c. c ≢ b'/') p × Describes p f))))
