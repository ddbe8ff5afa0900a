-- ===== src/Chunker.antt =====
-- src/code-indexer/chunker.ts: the options of the chunker, the chunks it makes, and the lines of a file.
-- An option is a non-negative integer when it is given. The full case mapping of `toLowerCase` is a
-- parameter.
pub mod Paths
pub mod Windows
pub mod Sections
pub mod Files
pub mod Grammars
pub mod Syntax
pub mod Smart
mod Tests
use ydb_qdrant.Prelude.{
  ℕ, zero, suc, ◌-◌, ◌*◌, min, max, List, [], ◌∷◌, Bool, true, false, not, ◌&&◌, ◌||◌, ◌==◌, ltb,
  Option, get_or, if◌then◌else◌, length, take, filter, any,
}
use ydb_qdrant.Text.{Text, starts_with, push_head}

-- The numbers and the patterns that a caller may set.
pub record ChunkingOptions : Type 0 where
  pub chunk_lines : Option ℕ
  pub exclude_patterns : Option (List Text)
  pub include_patterns : Option (List Text)
  pub max_chunk_chars : Option ℕ
  pub max_file_bytes : Option ℕ
  pub overlap_lines : Option ℕ

pub record CodeChunk : Type 0 where
  pub chunker : Option Text
  pub chunk_index : ℕ
  pub chunk_kind : Option Text
  pub end_line : ℕ
  pub language : Option Text
  pub path : Text
  pub path_segments : List Text
  pub start_line : ℕ
  pub symbol_name : Option Text
  pub symbol_path : Option Text
  pub text : Text

abbrev pub default_max_file_bytes : ℕ
default_max_file_bytes = 512 * 1024

abbrev pub default_chunk_lines : ℕ
default_chunk_lines = 80

abbrev pub default_overlap_lines : ℕ
default_overlap_lines = 10

abbrev pub default_max_chunk_chars : ℕ
default_max_chunk_chars = 8000

unfoldable pub normalized_chunk_lines : ChunkingOptions → ℕ
normalized_chunk_lines options = max 1 (get_or options.chunk_lines default_chunk_lines)

unfoldable pub normalized_overlap_lines : ChunkingOptions → ℕ
normalized_overlap_lines options =
    min (max 0 (get_or options.overlap_lines default_overlap_lines))
      (max 0 (normalized_chunk_lines options - 1))

unfoldable pub normalized_max_chunk_chars : ChunkingOptions → ℕ
normalized_max_chunk_chars options = max 1 (get_or options.max_chunk_chars default_max_chunk_chars)

abbrev is_suspicious : ℕ → Bool
is_suspicious c = ltb c 9 || (ltb 13 c && ltb c 32)

-- Whether more than a tenth of the sample is suspicious, over the integers.
unfoldable pub is_probably_binary_content : Text → Bool
is_probably_binary_content content =
    any (λ c. c == 0) content
    || (let sample = take 4096 content in
        not (length sample == 0) && ltb (length sample) (10 * length (filter is_suspicious sample)))

-- The line feed and the carriage return.
abbrev pub lf : ℕ
lf = 10

abbrev pub cr : ℕ
cr = 13

-- `content.split(/\r?\n/)`
unfoldable pub split_lines : Text → List Text
split_lines [] = [] ∷ []
split_lines (x ∷ xs) =
    let rest = split_lines xs in
    if x == lf
    then [] ∷ rest
    else if x == cr && starts_with (lf ∷ []) xs
    then rest
    else push_head x rest
