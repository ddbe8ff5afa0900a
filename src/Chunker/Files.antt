-- ===== src/Chunker/Files.antt =====
-- matchesPathPattern and shouldIndexFile of src/code-indexer/chunker.ts. The regular expression that a
-- pattern is compiled to is a list of its pieces, and `test` is what they match, from `^` to `$`.
pub mod Glob
pub mod Patterns
pub mod Matching
pub mod Selection
use ydb_qdrant.Prelude.{
  ℕ, zero, suc, List, [], ◌∷◌, Bool, true, false, not, ◌&&◌, ◌||◌, ◌==◌, ltb, Option, none, some,
  get_or, is_some, if◌then◌else◌, map, any,
}
use ydb_qdrant.Text.{Text, trim, is_empty, drop_while, starts_with, includes}
use ydb_qdrant.Chunker.{ChunkingOptions, default_max_file_bytes}
use ydb_qdrant.Chunker.Sections.{is_line_terminator}
use ydb_qdrant.Chunker.Paths.{
  slash, extension_of, filename_of, contains_excluded_directory, excluded_filenames,
  binary_extensions,
}

-- The pieces `(?:.*/)?`, `.*`, `[^/]*`, `[^/]`, and a code unit.
pub data Piece : Type 0 where
  folders rest_of_path name_part name_unit : Piece
  literal : ℕ → Piece

abbrev asterisk : ℕ
asterisk = b'*'

abbrev starts_with_unit : ℕ → Text → Bool
starts_with_unit c [] = false
starts_with_unit c (x ∷ xs) = x == c

-- A round of the loop at `x`, before `xs`: the piece, and what the round adds to `i`.
unfoldable pub piece_at : ℕ → Text → Piece × ℕ
piece_at x xs =
    if x == asterisk
    then if starts_with_unit asterisk xs
      then if starts_with (asterisk ∷ slash ∷ []) xs then (folders, 2) else (rest_of_path, 1)
      else (name_part, 0)
    else if x == b'?'
    then (name_unit, 0)
    else (literal x, 0)

-- The loop; its first argument counts the code units that `i` has passed already.
unfoldable pub pieces_from : ℕ → Text → List Piece
pieces_from skip [] = []
pieces_from zero (x ∷ xs) = (piece_at x xs).0 ∷ pieces_from (piece_at x xs).1 xs
pieces_from (suc skip) (x ∷ xs) = pieces_from skip xs

abbrev pub pattern_to_reg_exp : Text → List Piece
pattern_to_reg_exp pattern = pieces_from 0 pattern

-- `t*` for a test of code units, before what `next` matches.
unfoldable pub repeated : (ℕ → Bool) → (Text → Bool) → Text → Bool
repeated t next [] = next []
repeated t next (x ∷ xs) = let rest = repeated t next xs in next (x ∷ xs) || (t x && rest)

abbrev pub then_unit : (ℕ → Bool) → (Text → Bool) → Text → Bool
then_unit t next [] = false
then_unit t next (x ∷ xs) = t x && next xs

abbrev pub is_dot : ℕ → Bool
is_dot c = not (is_line_terminator c)

abbrev pub is_name : ℕ → Bool
is_name c = not (c == slash)

unfoldable pub test : List Piece → Text → Bool
test [] s = is_empty s
test (literal c ∷ p) s = then_unit (λ x. x == c) (test p) s
test (name_unit ∷ p) s = then_unit is_name (test p) s
test (name_part ∷ p) s = repeated is_name (test p) s
test (rest_of_path ∷ p) s = repeated is_dot (test p) s
test (folders ∷ p) s = repeated is_dot (then_unit (λ x. x == slash) (test p)) s || test p s

-- `replace(/\\/g, "/").replace(/^\/+/, "")`
unfoldable pub with_slashes : Text → Text
with_slashes s = drop_while (λ c. c == slash) (map (λ c. if c == b'\\' then slash else c) s)

unfoldable pub normalize_path_pattern : Text → Text
normalize_path_pattern value = with_slashes (trim value)

abbrev pub ends_with_slash : Text → Bool
ends_with_slash [] = false
ends_with_slash (x ∷ []) = x == slash
ends_with_slash (x ∷ y ∷ s) = ends_with_slash (y ∷ s)

-- `file.size !== undefined && file.size > maxFileBytes`
abbrev pub is_too_large : Option ℕ → ℕ → Bool
is_too_large none limit = false
is_too_large (some size) limit = ltb limit size

module _ (to_lower : Text → Text) where
  unfoldable pub candidates : Text → Text → List Text
  candidates normalized_path normalized_pattern =
      if any (λ c. c == slash) normalized_pattern
      then normalized_path ∷ []
      else filename_of to_lower normalized_path ∷ normalized_path ∷ []

  unfoldable pub matches_path_pattern : Text → Text → Bool
  matches_path_pattern path pattern =
      let normalized_pattern = normalize_path_pattern pattern in
      let normalized_path = with_slashes path in
      if is_empty normalized_pattern
      then false
      else if ends_with_slash normalized_pattern
      then starts_with normalized_pattern normalized_path
      else any (test (pattern_to_reg_exp normalized_pattern))
          (candidates normalized_path normalized_pattern)

  unfoldable pub matches_any_path_pattern : Text → Option (List Text) → Bool
  matches_any_path_pattern path patterns =
      any (λ pattern. matches_path_pattern path pattern) (get_or patterns [])

  unfoldable pub should_index_file : Text → Option ℕ → ChunkingOptions → Bool
  should_index_file path size options =
      let explicit = matches_any_path_pattern path options.include_patterns in
      if matches_any_path_pattern path options.exclude_patterns
      then false
      else if (contains_excluded_directory to_lower path
            || includes (filename_of to_lower path) excluded_filenames)
          && not explicit
      then false
      else if includes (extension_of to_lower path) binary_extensions
      then false
      else if is_some options.include_patterns && not explicit
      then false
      else if is_too_large size (get_or options.max_file_bytes default_max_file_bytes)
      then false
      else true
