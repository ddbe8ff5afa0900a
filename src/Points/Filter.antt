-- ===== src/Points/Filter.antt =====
-- The filter of a request as paths, `parsePathSegmentsFilterToPaths` of
-- src/services/PointsService.ts, and the two `WHERE` clauses that
-- src/repositories/pointsRepo.storage/PathSegmentsFilter.ts builds from paths, as tests of the
-- column's value instead of texts of YQL.
pub mod Lookup
mod Tests
use ydb_qdrant.Prelude.{
  ℕ, List, [], ◌∷◌, ◌++◌, Bool, true, false, ◌||◌, if◌then◌else◌, Option, none, some, get_or, any,
  Result, ok, err, ◌>>=◌, is_some,
}
use ydb_qdrant.Prelude.Options.{and_then}
use ydb_qdrant.Text.{Text, codes, text_eq, starts_with}
use ydb_qdrant.Text.Laws.{Without}
use ydb_qdrant.Json.{Json, arr, values, get, is_record, as_record, as_text}
use ydb_qdrant.Points.{Failure, empty_path, traverse}
use ydb_qdrant.Points.Paths.{read_digits, in_order, slash, path_segments_to_prefix}

abbrev path_key : Text
path_key = codes "pathSegments."

-- The rest of a text after a start that it must have.
abbrev after_start : Text → Text → Option Text
after_start [] s = some s
after_start (x ∷ xs) [] = none
after_start (x ∷ xs) (y ∷ ys) =
    let rest = after_start xs ys in if text_eq (x ∷ []) (y ∷ []) then rest else none

-- One condition `{ key: "pathSegments.<n>", match: { value } }`.
abbrev pub read_condition : Json → Option (ℕ × Text)
read_condition cond = and_then (as_record (some cond)) (λ c.
    and_then (as_text (get (codes "key") c)) (λ key.
      and_then (and_then (after_start path_key key) read_digits) (λ idx.
        and_then (as_record (get (codes "match") c))
          (λ m. and_then (as_text (get (codes "value") m)) (λ value. some (idx, value))))))

abbrev all_some {ℓ κ} : {A : Type ℓ} {B : Type κ} → (A → Option B) → List A → Option (List B)
all_some f [] = some []
all_some f (x ∷ xs) = and_then (f x) (λ y. and_then (all_some f xs) (λ ys. some (y ∷ ys)))

-- A list that has an element.
abbrev non_empty_list : Option Json → Option (List Json)
non_empty_list (some (arr vs)) = elim (values vs) [ [] ↦ none | x ∷ xs ↦ some (x ∷ xs) ]
non_empty_list v = none

unfoldable pub extract_must : Option Json → Option (List Text)
extract_must must =
    and_then (non_empty_list must)
      (λ conditions. and_then (all_some read_condition conditions) in_order)

abbrev read_group : Json → Option (List Text)
read_group g = and_then (as_record (some g)) (λ group. extract_must (get (codes "must") group))

unfoldable pub parse_path_segments_filter_to_paths : Option Json → Option (List (List Text))
parse_path_segments_filter_to_paths filter = and_then (as_record filter) (λ f.
    elim (get (codes "must") f) [
      | some must ↦ and_then (extract_must (some must)) (λ path. some (path ∷ []))
      | none ↦ and_then (non_empty_list (get (codes "should") f)) (all_some read_group)
    ])

-- `columnName = $p OR StartsWith(columnName, $p/)`
abbrev pub prefix_matches : Text → Text → Bool
prefix_matches column prefix = text_eq column prefix || starts_with (prefix ++ (slash ∷ [])) column

-- `columnName = $p`
abbrev pub exact_matches : Text → Text → Bool
exact_matches column prefix = text_eq column prefix

module _ (encode : Text → Result Failure Text) where
  unfoldable pub clause_prefix : List Text → Result Failure Text
  clause_prefix [] = err empty_path
  clause_prefix (s ∷ ss) = path_segments_to_prefix encode (s ∷ ss)

  -- `undefined` where there is no path to filter by, and else the test of the column.
  abbrev build_filter :
      (Text → Text → Bool) → Option (List (List Text)) → Result Failure (Option (Text → Bool))
  build_filter matches none = ok none
  build_filter matches (some []) = ok none
  build_filter matches (some (path ∷ paths)) = traverse clause_prefix (path ∷ paths) >>= λ prefixes.
      ok (some (λ column. any (matches column) prefixes))

  unfoldable pub build_prefix_path_segments_filter :
      Option (List (List Text)) → Result Failure (Option (Text → Bool))
  build_prefix_path_segments_filter paths = build_filter prefix_matches paths

  unfoldable pub build_exact_path_segments_filter :
      Option (List (List Text)) → Result Failure (Option (Text → Bool))
  build_exact_path_segments_filter paths = build_filter exact_matches paths
