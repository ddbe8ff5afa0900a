-- ===== src/Chunker/Smart.antt =====
-- The chunkers of src/code-indexer/chunker.ts put together: LineWindowChunker, TreeSitterChunker and
-- SmartChunker, how one is chosen, and the fingerprint that tells when their output may differ.
-- Whether the tree-sitter packages can be loaded is a parameter.
pub mod Bounds
pub mod Fingerprint
pub mod Origin
use Prim.Native.String.{String}
use ydb_qdrant.Prelude.{
  ℕ, List, [], ◌∷◌, ◌++◌, Bool, true, false, ◌&&◌, ◌||◌, Option, none, some, get_or, is_some,
  if◌then◌else◌, map, length,
}
use ydb_qdrant.Text.{Text, codes, text_eq}
use ydb_qdrant.Text.Decimal.{decimal}
use ydb_qdrant.Chunker.{
  ChunkingOptions, CodeChunk, default_max_file_bytes, is_probably_binary_content,
  normalized_chunk_lines, normalized_overlap_lines, normalized_max_chunk_chars,
}
use ydb_qdrant.Chunker.Grammars.{LanguageRegistration, registration_for}
use ydb_qdrant.Chunker.Paths.{extension_of}
use ydb_qdrant.Chunker.Windows.{Labels, chunk_file_with_line_windows}
use ydb_qdrant.Chunker.Sections.{reindex_chunks, chunk_markdown_file, chunk_paragraph_text_file}
use ydb_qdrant.Chunker.Syntax.{TreeSitter, collect_semantic_nodes, chunk_semantic_nodes}

-- The two modes of `SmartChunker`.
pub data SmartMode : Type 0 where
  auto tree_sitter : SmartMode

-- A chunker that was created; `parsers` tells whether it has the parsers.
pub data CodeChunker : Type 0 where
  line_window : CodeChunker
  smart : SmartMode → (parsers : Bool) → CodeChunker

-- The `mode` of the factory's options.
pub data ChunkerMode : Type 0 where
  line_window_mode : ChunkerMode
  smart_mode : SmartMode → ChunkerMode

-- `none` when the parsers are required and cannot be loaded: the constructor throws.
unfoldable pub create_code_chunker : Bool → Option ChunkerMode → Option CodeChunker
create_code_chunker loads mode = elim (get_or mode (smart_mode auto)) [
  | line_window_mode ↦ some line_window
  | smart_mode auto ↦ some (smart auto loads)
  | smart_mode tree_sitter ↦ if loads then some (smart tree_sitter true) else none
]

module _ (to_lower : Text → Text) (options : ChunkingOptions) where
  unfoldable pub line_window_chunk_file : Text → Text → List CodeChunk
  line_window_chunk_file path content =
      map (λ (c : CodeChunk). record c { chunker = some (codes "line-window") })
        (chunk_file_with_line_windows to_lower
          (record { label_chunker = none; label_kind = none; label_symbol = none }) path options
          content 1)

  -- The chunks of the declarations, or the windows if there is none.
  unfoldable pub or_line_windows : List CodeChunk → Text → Text → List CodeChunk
  or_line_windows [] path content = line_window_chunk_file path content
  or_line_windows (c ∷ cs) path content = reindex_chunks (c ∷ cs)

  -- `none` for a file that is not a text.
  unfoldable pub chunk_text_file : Text → Text → Option (List CodeChunk)
  chunk_text_file path content =
      let extension = extension_of to_lower path in
      if text_eq extension (codes ".md") || text_eq extension (codes ".mdx")
      then some (chunk_markdown_file to_lower path options content)
      else if text_eq extension (codes ".txt")
          || text_eq extension (codes ".rst")
          || text_eq extension (codes ".adoc")
          || text_eq extension (codes ".asciidoc")
      then some (chunk_paragraph_text_file to_lower path options content)
      else none

module _ (ts : TreeSitter) (to_lower : Text → Text) (options : ChunkingOptions) where
  unfoldable pub tree_sitter_chunk_file : Text → Text → List CodeChunk
  tree_sitter_chunk_file path content = elim (registration_for (extension_of to_lower path)) [
    | none ↦ []
    | some registration ↦
        if is_probably_binary_content content
        then []
        else elim (ts.parse registration.grammar content) [
          | none ↦ line_window_chunk_file to_lower options path content
          | some root ↦
              if ts.has_error root
              then line_window_chunk_file to_lower options path content
              else or_line_windows to_lower options
                  (chunk_semantic_nodes ts to_lower options path content registration.language_name
                    (collect_semantic_nodes ts registration.top_level_types root))
                  path content
        ]
  ]

  unfoldable pub smart_chunk_file : Bool → Text → Text → List CodeChunk
  smart_chunk_file parsers path content = elim (chunk_text_file to_lower options path content) [
    | some chunks ↦ reindex_chunks chunks
    | none ↦
        if parsers && is_some (registration_for (extension_of to_lower path))
        then or_line_windows to_lower options (tree_sitter_chunk_file path content) path content
        else line_window_chunk_file to_lower options path content
  ]

  unfoldable pub chunk_file : CodeChunker → Text → Text → List CodeChunk
  chunk_file line_window path content = line_window_chunk_file to_lower options path content
  chunk_file (smart mode parsers) path content = smart_chunk_file parsers path content

abbrev field : String → ℕ → Text
field name n = b'"' ∷ codes name ++ (b'"' ∷ b':' ∷ decimal n)

-- `JSON.stringify` of an object of four numbers.
unfoldable pub chunking_options_fingerprint : ChunkingOptions → Text
chunking_options_fingerprint options =
    b'{' ∷ field "chunkLines" (normalized_chunk_lines options)
    ++ (b',' ∷ field "maxChunkChars" (normalized_max_chunk_chars options)
        ++ (b',' ∷ field "maxFileBytes" (get_or options.max_file_bytes default_max_file_bytes)
            ++ (b',' ∷ field "overlapLines" (normalized_overlap_lines options) ++ (b'}' ∷ []))))

abbrev mode_name : SmartMode → Text
mode_name auto = codes "auto"
mode_name tree_sitter = codes "tree-sitter"

abbrev registry_version : Text
registry_version = codes "js-ts-python-go-rust:v2"

-- The `fingerprint` of each chunker, which every chunker of this file has.
unfoldable pub fingerprint : CodeChunker → ChunkingOptions → Text
fingerprint line_window options = codes "line-window:v2:" ++ chunking_options_fingerprint options
fingerprint (smart mode parsers) options =
    codes "smart:v2:"
    ++ (mode_name mode
        ++ (b':' ∷ (if parsers then registry_version else codes "none")
            ++ (b':' ∷ chunking_options_fingerprint options)))
