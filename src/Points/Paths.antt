-- ===== src/Points/Paths.antt =====
-- src/utils/pathPrefix.ts and src/utils/prefixExpansion.ts: the text under which the path segments
-- of a payload are stored, and the prefixes that its lookup rows list.
use ydb_qdrant.Prelude.{
  ℕ, zero, suc, ◌+◌, ◌*◌, ◌-◌, List, [], ◌∷◌, Bool, true, false, not, ◌&&◌, ◌==◌, leb,
  if◌then◌else◌, Option, none, some, map, length, take, Result, ok, ◌>>=◌,
}
use ydb_qdrant.Prelude.Options.{and_then}
use ydb_qdrant.Text.{Text, codes, is_empty, split_on, join}
use ydb_qdrant.Json.{Json, arr, obj, str, values, props, get}
use ydb_qdrant.Points.{Failure, traverse}

abbrev is_digit : ℕ → Bool
is_digit c = leb b'0' c && leb c b'9'

abbrev digits_only : Text → Bool
digits_only [] = true
digits_only (c ∷ cs) = is_digit c && digits_only cs

abbrev value_from : ℕ → Text → ℕ
value_from n [] = n
value_from n (c ∷ cs) = value_from (10 * n + (c - b'0')) cs

-- `Number(s)` on a text that `/^\d+$/` matches.
abbrev pub read_digits : Text → Option ℕ
read_digits s = if not (is_empty s) && digits_only s then some (value_from 0 s) else none

abbrev leading_zero : Text → Bool
leading_zero [] = false
leading_zero (c ∷ cs) = c == b'0' && not (is_empty cs)

-- `/^(0|[1-9]\d*)$/`
abbrev pub is_numeric_path_segment_key : Text → Bool
is_numeric_path_segment_key key = not (is_empty key) && digits_only key && not (leading_zero key)

-- `sort((left, right) => left.index - right.index)`, which is stable.
abbrev insert_indexed : ℕ × Text → List (ℕ × Text) → List (ℕ × Text)
insert_indexed e [] = e ∷ []
insert_indexed e (f ∷ fs) =
    let rest = insert_indexed e fs in if leb e.0 f.0 then e ∷ f ∷ fs else f ∷ rest

abbrev sort_indexed : List (ℕ × Text) → List (ℕ × Text)
sort_indexed [] = []
sort_indexed (e ∷ es) = insert_indexed e (sort_indexed es)

-- The indexes are `n`, `n + 1` and so on.
abbrev contiguous_from : ℕ → List (ℕ × Text) → Bool
contiguous_from n [] = true
contiguous_from n ((i, s) ∷ es) = i == n && contiguous_from (suc n) es

-- The segments in the order of their indexes, if these are 0, 1, 2 and so on.
abbrev pub in_order : List (ℕ × Text) → Option (List Text)
in_order es =
    let sorted = sort_indexed es in
    if contiguous_from 0 sorted then some (map (λ e. e.1) sorted) else none

abbrev texts_of : List Json → Option (List Text)
texts_of [] = some []
texts_of (str s ∷ vs) = and_then (texts_of vs) (λ ss. some (s ∷ ss))
texts_of (v ∷ vs) = none

abbrev indexed_of : List (Text × Json) → Option (List (ℕ × Text))
indexed_of [] = some []
indexed_of ((key, str s) ∷ ps) =
    let rest = indexed_of ps in
    if is_numeric_path_segment_key key
    then and_then (read_digits key) (λ i. and_then rest (λ es. some ((i, s) ∷ es)))
    else none
indexed_of ((key, v) ∷ ps) = none

abbrev non_empty {ℓ} : {A : Type ℓ} → List A → Option (List A)
non_empty [] = none
non_empty (x ∷ xs) = some (x ∷ xs)

unfoldable pub normalize_path_segments : Option Json → Option (List Text)
normalize_path_segments (some (arr vs)) = and_then (non_empty (values vs)) texts_of
normalize_path_segments (some (obj ps)) =
    and_then (non_empty (props ps)) (λ entries. and_then (indexed_of entries) in_order)
normalize_path_segments v = none

abbrev pub slash : ℕ
slash = b'/'

-- `encode` is `encodeURIComponent`, which throws on a text that is not well-formed UTF-16.
module _ (encode : Text → Result Failure Text) where
  unfoldable pub path_segments_to_prefix : List Text → Result Failure Text
  unfolding join
  path_segments_to_prefix segments =
      traverse encode segments >>= λ encoded. ok (join (slash ∷ []) encoded)

  unfoldable pub extract_path_prefix : Json → Result Failure (Option Text)
  extract_path_prefix payload =
      elim (normalize_path_segments (get (codes "pathSegments") payload)) [
        | none ↦ ok none
        | some segments ↦ path_segments_to_prefix segments >>= λ prefix. ok (some prefix)
      ]

-- `parts.slice(0, index).join("/")` for `index` from `i`, `n` times.
abbrev pub joined_from : List Text → ℕ → ℕ → List Text
joined_from parts i zero = []
joined_from parts i (suc n) = join (slash ∷ []) (take i parts) ∷ joined_from parts (suc i) n

unfoldable pub expand_path_prefixes : Text → List Text
unfolding split_on
expand_path_prefixes path_prefix =
    if is_empty path_prefix
    then []
    else (let parts = split_on slash path_prefix in joined_from parts 1 (length parts))
