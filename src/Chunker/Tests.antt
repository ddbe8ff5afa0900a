-- ===== src/Chunker/Tests.antt =====
-- Runs of the chunker, and the theorems at concrete files.
use ydb_qdrant.Prelude.{
  ℕ, ◌+◌, List, [], ◌∷◌, true, false, ◌≡◌, ◌↔◌, ◌⊎◌, refl, Option, none, some, map, any, All,
}
use ydb_qdrant.Text.{Text, codes, includes}
use ydb_qdrant.Tenant.{lower}
use ydb_qdrant.Chunker.{ChunkingOptions, CodeChunk}
use ydb_qdrant.Chunker.Paths.{binary_extensions, excluded_filenames}
use ydb_qdrant.Chunker.Files.Selection.{HasPlace, should_index_file_iff}
use ydb_qdrant.Chunker.Windows.Bounds.{IsSized, IsWithin, AreNumbered}
use ydb_qdrant.Chunker.Windows.Cover.{has_line}
use ydb_qdrant.Chunker.Windows.Complete.{chunk_lines_of_complete}
use ydb_qdrant.Chunker.Sections.Layout.{AreAdjacent, all_lines}
use ydb_qdrant.Chunker.Sections.Paragraphs.{sections_of-lines}
use ydb_qdrant.Chunker.Syntax.{TreeSitter}
use ydb_qdrant.Chunker.Smart.{line_window, smart, auto}
use ydb_qdrant.Chunker.Smart.Bounds.{chunk_file-bounds, chunk_file-lines}
use ydb_qdrant.Chunker.Smart.Fingerprint.{fingerprint-chunk_file}
use ydb_qdrant.Chunker.{
  is_probably_binary_content, normalized_chunk_lines, normalized_max_chunk_chars,
  normalized_overlap_lines, split_lines,
}
use ydb_qdrant.Chunker.Files.{
  candidates, matches_any_path_pattern, matches_path_pattern, normalize_path_pattern, piece_at,
  pieces_from, repeated, should_index_file, test, with_slashes,
}
use ydb_qdrant.Chunker.Grammars.{chunk_kind_for_type, registration_for}
use ydb_qdrant.Chunker.Paths.{
  basename, contains_excluded_directory, extension_of, filename_of, from_last, language_for_path,
  path_segments_for_path,
}
use ydb_qdrant.Chunker.Sections.{
  add_line, add_section, add_sections, chunk_markdown_file, chunk_paragraph_text_file,
  chunks_from_text_sections, close, heading_match, is_fence, markdown_line, number_from,
  paragraph_line, read_lines, reindex_chunks, sections_of,
}
use ydb_qdrant.Chunker.Smart.{
  chunk_file, chunk_text_file, chunking_options_fingerprint, create_code_chunker, fingerprint,
  line_window_chunk_file, or_line_windows, smart_chunk_file, tree_sitter_chunk_file,
}
use ydb_qdrant.Chunker.Syntax.{
  chunk_semantic_node, chunk_semantic_nodes, collect_semantic_nodes, first_semantic_child,
  semantic_node_for_top_level_child, slice_by_utf8_bytes, symbol_name_for_node,
}
use ydb_qdrant.Chunker.Windows.{
  buffer_line, chunk_file_with_line_windows, chunk_lines_of, chunk_of, flush, joined_text,
  make_room, push_bounded_line_chunks, push_chunk, push_line, push_lines, push_long_line,
  push_slices, windows_from,
}
use ydb_qdrant.Text.{is_space, join, split_on, trim}
use ydb_qdrant.Text.Decimal.{decimal}

abbrev small : ChunkingOptions
small = record {
  chunk_lines = some 3;
  exclude_patterns = some (codes "docs/" ∷ []);
  include_patterns = none;
  max_chunk_chars = some 8;
  max_file_bytes = some 100;
  overlap_lines = some 1;
}

abbrev lower_text : Text → Text
lower_text = map lower

-- A tree of one function.
data Sample : Type 0 where
  program declared : Sample

abbrev sample_children : Sample → List Sample
sample_children program = declared ∷ []
sample_children declared = []

abbrev sample_type : Sample → Text
sample_type program = codes "program"
sample_type declared = codes "function_declaration"

abbrev sample_end : Sample → ℕ
sample_end program = 8
sample_end declared = 6

abbrev one_function : TreeSitter
one_function = record {
  Node = Sample;
  parse = λ language content. some program;
  has_error = λ node. false;
  type_of = sample_type;
  named_children = sample_children;
  child_for_field_name = λ name node. none;
  node_text = λ node. [];
  start_index = λ node. 0;
  end_index = sample_end;
  start_row = λ node. 0;
  end_row = λ node. 0;
  utf8_bytes = λ s. s;
  utf8_text = λ s. s;
}

abbrev kinds : List CodeChunk → List (Option Text × Text)
kinds = map (λ (c : CodeChunk). (c.chunk_kind, c.text))

abbrev four_lines : List Text
four_lines = codes "a" ∷ codes "0123456789" ∷ codes "" ∷ codes "bc" ∷ []

abbrev chunk_kinds : Text → List (Option Text × Text)
chunk_kinds path =
    kinds (chunk_file one_function lower_text small (smart auto true) path (codes "f(){};\n\n"))

source_kinds : chunk_kinds (codes "src/A.ts") ≡ (some (codes "function"), codes "f(){};") ∷ []
unfolding normalized_chunk_lines normalized_overlap_lines normalized_max_chunk_chars
    is_probably_binary_content split_lines basename from_last path_segments_for_path extension_of
    filename_of contains_excluded_directory language_for_path joined_text chunk_of push_chunk flush
    push_slices push_long_line make_room buffer_line push_line push_lines push_bounded_line_chunks
    windows_from chunk_lines_of chunk_file_with_line_windows is_fence heading_match close add_line
    markdown_line paragraph_line read_lines sections_of number_from reindex_chunks add_section
    add_sections chunks_from_text_sections chunk_markdown_file chunk_paragraph_text_file
    registration_for chunk_kind_for_type first_semantic_child symbol_name_for_node
    semantic_node_for_top_level_child collect_semantic_nodes slice_by_utf8_bytes chunk_semantic_node
    chunk_semantic_nodes create_code_chunker line_window_chunk_file or_line_windows chunk_text_file
    tree_sitter_chunk_file smart_chunk_file chunk_file chunking_options_fingerprint fingerprint trim
    is_space split_on join decimal
source_kinds = refl

-- The middle line is too long for one chunk.
window_texts :
    map {B = ℕ × ℕ × Text}
      (λ (c : CodeChunk). (c.start_line, c.end_line, c.text))
      (chunk_lines_of lower_text
        (record { label_chunker = none; label_kind = none; label_symbol = none })
        (codes "x")
        small
        four_lines
        1)
    ≡ (1, 1, codes "a") ∷ (2, 2, codes "01234567") ∷ (2, 2, codes "89") ∷ (3, 4, codes "bc") ∷ []
unfolding normalized_chunk_lines normalized_overlap_lines normalized_max_chunk_chars
    is_probably_binary_content split_lines basename from_last path_segments_for_path extension_of
    filename_of contains_excluded_directory language_for_path joined_text chunk_of push_chunk flush
    push_slices push_long_line make_room buffer_line push_line push_lines push_bounded_line_chunks
    windows_from chunk_lines_of chunk_file_with_line_windows trim is_space split_on join
window_texts = refl

chunk_lines_of_complete_example :
    any (has_line (1 + 3)) (
      chunk_lines_of lower_text
        (record { label_chunker = none; label_kind = none; label_symbol = none })
        (codes "x")
        small
        four_lines
        1)
    ≡ true
unfolding is_space
chunk_lines_of_complete_example =
    chunk_lines_of_complete lower_text
      (record { label_chunker = none; label_kind = none; label_symbol = none }) (codes "x") small
      four_lines 1 3 refl

chunk_file-bounds_example :
    All (IsSized 8) (
      chunk_file one_function lower_text small
        (smart auto true)
        (codes "src/A.ts")
        (codes "f(){};\n\n"))
    × AreNumbered 0 (
        chunk_file one_function lower_text small
          (smart auto true)
          (codes "src/A.ts")
          (codes "f(){};\n\n"))
unfolding normalized_max_chunk_chars
chunk_file-bounds_example =
    chunk_file-bounds one_function lower_text small (codes "src/A.ts") (codes "f(){};\n\n")
      (smart auto true)

chunk_file-lines_example :
    All
      (IsWithin 1 4)
      (chunk_file one_function lower_text small line_window (codes "A.md") (codes "# T\na b\n"))
    × All (IsWithin 1 4) (
        chunk_file one_function lower_text small
          (smart auto false)
          (codes "A.md")
          (codes "# T\na b\n"))
unfolding split_lines
chunk_file-lines_example =
    chunk_file-lines one_function lower_text small (codes "A.md") (codes "# T\na b\n") auto

-- The limits are written in another way, and are the same.
abbrev written : ChunkingOptions
written = record small { exclude_patterns = none; max_file_bytes = some 100 }

fingerprint-chunk_file_example :
    chunk_file one_function lower_text small (smart auto true) (codes "b.ts") (codes "f(){};")
    ≡ chunk_file one_function lower_text written (smart auto true) (codes "b.ts") (codes "f(){};")
unfolding fingerprint chunking_options_fingerprint normalized_chunk_lines normalized_max_chunk_chars
    normalized_overlap_lines
fingerprint-chunk_file_example =
    fingerprint-chunk_file one_function lower_text (smart auto true) (smart auto true) small written
      refl (codes "b.ts") (codes "f(){};")

abbrev noted : List Text
noted = codes "intro" ∷ codes "## Title " ∷ codes "" ∷ codes "text" ∷ []

headings : map (λ line. heading_match line) noted ≡ none ∷ some (codes "Title ") ∷ none ∷ none ∷ []
unfolding heading_match is_space
headings = refl

sections_of-lines_example :
    (all_lines (sections_of markdown_line noted) ≡ noted)
    × AreAdjacent 1 (sections_of markdown_line noted)
    × (all_lines (sections_of paragraph_line noted)
        ≡ codes "intro" ∷ codes "## Title " ∷ codes "text" ∷ [])
unfolding is_space
sections_of-lines_example = sections_of-lines noted

selected :
    map
      (λ path. should_index_file lower_text path (some 10) small)
      (codes "docs/a.ts" ∷ codes "src/a.ts" ∷ codes "Dist/a.ts" ∷ codes "a.PNG" ∷ [])
    ≡ false ∷ true ∷ false ∷ false ∷ []
unfolding basename from_last path_segments_for_path extension_of filename_of
    contains_excluded_directory language_for_path piece_at pieces_from repeated test with_slashes
    normalize_path_pattern candidates matches_path_pattern matches_any_path_pattern
    should_index_file trim is_space split_on join
selected = refl

globs :
    map
      (λ pattern. matches_path_pattern lower_text (codes "/src/a/b.ts") (codes pattern))
      ("*.ts" ∷ "src/*.ts" ∷ "src/**/*.ts" ∷ "**/b.?s" ∷ "src/" ∷ " " ∷ [])
    ≡ true ∷ false ∷ true ∷ true ∷ true ∷ false ∷ []
unfolding basename from_last path_segments_for_path extension_of filename_of
    contains_excluded_directory language_for_path piece_at pieces_from repeated test with_slashes
    normalize_path_pattern candidates matches_path_pattern matches_any_path_pattern
    should_index_file trim is_space split_on join
globs = refl

should_index_file_iff_example :
    (should_index_file lower_text (codes "src/a.ts") (some 10) small ≡ true) ↔ (
      (matches_any_path_pattern lower_text (codes "src/a.ts") (some (codes "docs/" ∷ [])) ≡ false)
      × (includes (extension_of lower_text (codes "src/a.ts")) binary_extensions ≡ false)
      × HasPlace (some 10) 100
      × ((matches_any_path_pattern lower_text (codes "src/a.ts") none ≡ true)
          ⊎ ((false ≡ false)
              × (contains_excluded_directory lower_text (codes "src/a.ts") ≡ false)
              × (includes (filename_of lower_text (codes "src/a.ts")) excluded_filenames ≡ false))))
should_index_file_iff_example = should_index_file_iff lower_text (codes "src/a.ts") (some 10) small
