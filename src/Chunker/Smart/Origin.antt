-- ===== src/Chunker/Smart/Origin.antt =====
-- Every chunk of a file names the file.
use ydb_qdrant.Prelude.{
  ℕ, ◌+◌, List, [], ◌∷◌, Bool, ◌&&◌, ◌≡◌, refl, inl, inr, ltb, arith, Bool-cases, some,
  Option-cases, is_some, length, All, All-append, All-map, All-filter,
}
use ydb_qdrant.Text.{Text, is_empty, trim}
use ydb_qdrant.Chunker.{
  ChunkingOptions, CodeChunk, split_lines, is_probably_binary_content, normalized_max_chunk_chars,
}
use ydb_qdrant.Chunker.Grammars.{registration_for}
use ydb_qdrant.Chunker.Paths.{extension_of, path_segments_for_path}
use ydb_qdrant.Chunker.Windows.{
  Labels, joined_text, chunk_of, push_chunk, chunk_lines_of, chunk_file_with_line_windows,
}
use ydb_qdrant.Chunker.Windows.Loop.{windows_from-kept}
use ydb_qdrant.Chunker.Sections.{
  Section, reindex_chunks, add_section, add_sections, chunks_from_text_sections,
  chunk_markdown_file, chunk_paragraph_text_file,
}
use ydb_qdrant.Chunker.Sections.Bounds.{number_from-kept}
use ydb_qdrant.Chunker.Syntax.{
  TreeSitter, SemanticNode, slice_by_utf8_bytes, chunk_semantic_node, chunk_semantic_nodes,
}
use ydb_qdrant.Chunker.Smart.{
  CodeChunker, line_window, smart, line_window_chunk_file, or_line_windows, tree_sitter_chunk_file,
  chunk_text_file, smart_chunk_file, chunk_file,
}

unfoldable pub IsOf : Text → CodeChunk → Type 0
IsOf path c = (c.path ≡ path) × (c.path_segments ≡ path_segments_for_path path)

reindex_chunks-IsOf :
    (path : Text) (cs : List CodeChunk) → All (IsOf path) cs → All (IsOf path) (reindex_chunks cs)
unfolding reindex_chunks IsOf
reindex_chunks-IsOf path cs h =
    number_from-kept (IsOf path) (λ c k p. p) 0 _ (All-filter (IsOf path) _ cs h)

module _ (to_lower : Text → Text) (options : ChunkingOptions) (path : Text) where
  push_chunk-IsOf :
      (labels : Labels) (chunks : List CodeChunk) (lines : List Text) (first final : ℕ)
      → All (IsOf path) chunks
      → All (IsOf path) (push_chunk to_lower labels path chunks lines first final)
  unfolding push_chunk chunk_of IsOf
  push_chunk-IsOf labels chunks lines first final h =
      elim (Bool-cases (is_empty (joined_text lines))) [
        | inl e ↦ rw e h
        | inr e ↦ rw e (All-append (IsOf path) chunks _ h ((refl, refl), tt))
      ]

  windows-IsOf :
      (labels : Labels) (content : Text) (base : ℕ)
      → All (IsOf path) (chunk_file_with_line_windows to_lower labels path options content base)
  unfolding chunk_file_with_line_windows chunk_lines_of
  windows-IsOf labels content base = elim (Bool-cases (is_probably_binary_content content)) [
    | inl e ↦ rw (chunk_file_with_line_windows, e) tt
    | inr e ↦
        rw (chunk_file_with_line_windows, e)
          (windows_from-kept to_lower labels path _ base (base + length (split_lines content))
            (All (IsOf path))
            (λ cs ls first final _ _ _ _ g. push_chunk-IsOf labels cs ls first final g) _ _
            (split_lines content) base _ 0 [] (omega arith) (omega arith) tt)
  ]

  add_section-IsOf :
      (chunker kind : Text) (chunks : List CodeChunk) (section : Section)
      → All (IsOf path) chunks
      → All (IsOf path) (add_section to_lower path options chunker kind chunks section)
  unfolding add_section chunk_of IsOf
  add_section-IsOf chunker kind chunks section h =
      elim (Bool-cases (is_empty (joined_text section.lines))) [
        | inl e ↦ rw (add_section, e) h
        | inr e ↦
            elim (Bool-cases
              (ltb (normalized_max_chunk_chars options) (length (joined_text section.lines)))) [
                | inl d ↦
                    rw (add_section, e, d)
                      (All-append (IsOf path) chunks _ h
                        (windows-IsOf _ (joined_text section.lines) section.start_line))
                | inr d ↦
                    rw (add_section, e, d) (All-append (IsOf path) chunks _ h ((refl, refl), tt))
              ]
      ]

  add_sections-IsOf :
      (chunker kind : Text) (sections : List Section) (chunks : List CodeChunk)
      → All (IsOf path) chunks
      → All (IsOf path) (add_sections to_lower path options chunker kind chunks sections)
  unfolding add_sections
  add_sections-IsOf chunker kind [] chunks h = h
  add_sections-IsOf chunker kind (section ∷ rest) chunks h =
      add_sections-IsOf chunker kind rest _ (add_section-IsOf chunker kind chunks section h)

  texts-IsOf :
      (content : Text)
      → All (IsOf path) (chunk_markdown_file to_lower path options content)
        × All (IsOf path) (chunk_paragraph_text_file to_lower path options content)
  unfolding chunk_markdown_file chunk_paragraph_text_file chunks_from_text_sections
  texts-IsOf content = elim (Bool-cases (is_probably_binary_content content)) [
    | inl e ↦ rw e (tt, tt)
    | inr e ↦ rw e (
      reindex_chunks-IsOf path _ (add_sections-IsOf _ _ _ [] tt),
      reindex_chunks-IsOf path _ (add_sections-IsOf _ _ _ [] tt),
    )
  ]

  chunk_text_file-IsOf :
      (content : Text) (cs : List CodeChunk)
      → chunk_text_file to_lower options path content ≡ some cs
      → All (IsOf path) cs
  unfolding chunk_text_file
  chunk_text_file-IsOf content cs h = let (md, txt) = texts-IsOf content in ground (arith, md, txt)

  line_window_chunk_file-IsOf :
      (content : Text) → All (IsOf path) (line_window_chunk_file to_lower options path content)
  unfolding line_window_chunk_file IsOf
  line_window_chunk_file-IsOf content = All-map (IsOf path) _ _ (windows-IsOf _ content 1)

  or_line_windows-IsOf :
      (content : Text) (cs : List CodeChunk)
      → All (IsOf path) cs
      → All (IsOf path) (or_line_windows to_lower options cs path content)
  unfolding or_line_windows
  or_line_windows-IsOf content [] h = line_window_chunk_file-IsOf content
  or_line_windows-IsOf content (c ∷ cs) h = reindex_chunks-IsOf path (c ∷ cs) h

  module _ (ts : TreeSitter) (content : Text) where
    node-IsOf :
        (language : Text) (semantic : SemanticNode ts)
        → All (IsOf path) (chunk_semantic_node ts to_lower options path content language semantic)
    unfolding chunk_semantic_node IsOf
    node-IsOf language semantic =
        let text = trim (
          slice_by_utf8_bytes ts content (ts.start_index semantic.node)
            (ts.end_index semantic.node)) in
        elim (Bool-cases (is_empty text)) [
          | inl e ↦ rw (chunk_semantic_node, e) tt
          | inr e ↦ elim (Bool-cases (ltb (normalized_max_chunk_chars options) (length text))) [
            | inl d ↦ rw (chunk_semantic_node, e, d) (windows-IsOf _ text _)
            | inr d ↦ rw (chunk_semantic_node, e, d) ((refl, refl), tt)
          ]
        ]

    chunk_semantic_nodes-IsOf :
        (language : Text) (semantics : List (SemanticNode ts))
        → All (IsOf path) (chunk_semantic_nodes ts to_lower options path content language semantics)
    unfolding chunk_semantic_nodes
    chunk_semantic_nodes-IsOf language [] = tt
    chunk_semantic_nodes-IsOf language (semantic ∷ rest) =
        All-append (IsOf path) _ _ (node-IsOf language semantic)
          (chunk_semantic_nodes-IsOf language rest)

    tree_sitter_chunk_file-IsOf :
        All (IsOf path) (tree_sitter_chunk_file ts to_lower options path content)
    unfolding tree_sitter_chunk_file
    tree_sitter_chunk_file-IsOf =
        elim (Option-cases (registration_for (extension_of to_lower path))) [
          | inl e ↦ rw (tree_sitter_chunk_file, e) tt
          | inr (r, e) ↦ elim (Bool-cases (is_probably_binary_content content)) [
            | inl b ↦ rw (tree_sitter_chunk_file, e, b) tt
            | inr b ↦ elim (Option-cases (ts.parse r.grammar content)) [
              | inl p ↦ rw (tree_sitter_chunk_file, e, b, p) (line_window_chunk_file-IsOf content)
              | inr (root, p) ↦ elim (Bool-cases (ts.has_error root)) [
                | inl x ↦
                    rw (tree_sitter_chunk_file, e, b, p, x) (line_window_chunk_file-IsOf content)
                | inr x ↦
                    rw (tree_sitter_chunk_file, e, b, p, x)
                      (or_line_windows-IsOf content _ (chunk_semantic_nodes-IsOf r.language_name _))
              ]
            ]
          ]
        ]

    smart_chunk_file-IsOf :
        (parsers : Bool)
        → All (IsOf path) (smart_chunk_file ts to_lower options parsers path content)
    unfolding smart_chunk_file
    smart_chunk_file-IsOf parsers =
        elim (Option-cases (chunk_text_file to_lower options path content)) [
          | inr (cs, e) ↦
              rw (smart_chunk_file, e)
                (reindex_chunks-IsOf path cs (chunk_text_file-IsOf content cs e))
          | inl e ↦
              elim (Bool-cases
                (parsers && is_some (registration_for (extension_of to_lower path)))) [
                  | inl d ↦
                      rw (smart_chunk_file, e, d)
                        (or_line_windows-IsOf content _ tree_sitter_chunk_file-IsOf)
                  | inr d ↦ rw (smart_chunk_file, e, d) (line_window_chunk_file-IsOf content)
                ]
        ]

    pub chunk_file-IsOf :
        (chunker : CodeChunker)
        → All (IsOf path) (chunk_file ts to_lower options chunker path content)
    unfolding chunk_file
    chunk_file-IsOf line_window = line_window_chunk_file-IsOf content
    chunk_file-IsOf (smart mode parsers) = smart_chunk_file-IsOf parsers
