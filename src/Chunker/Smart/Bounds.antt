-- ===== src/Chunker/Smart/Bounds.antt =====
-- What every chunker promises of its chunks, whichever way a file is cut.
use ydb_qdrant.Prelude.{
  ℕ, suc, ◌+◌, List, [], ◌∷◌, Bool, false, ◌&&◌, ◌≡◌, refl, inl, inr, ltb, arith, Bool-cases, some,
  Option-cases, is_some, map, length, All, All-append, All-map,
}
use ydb_qdrant.Text.{Text, is_empty, trim}
use ydb_qdrant.Text.Trim.{trim-trim}
use ydb_qdrant.Chunker.{
  ChunkingOptions, CodeChunk, split_lines, is_probably_binary_content, normalized_max_chunk_chars,
}
use ydb_qdrant.Chunker.Grammars.{registration_for}
use ydb_qdrant.Chunker.Paths.{extension_of}
use ydb_qdrant.Chunker.Windows.Bounds.{
  IsSized, IsWithin, AreNumbered, length_of_is_empty, chunk_file_with_line_windows-AreChunks,
}
use ydb_qdrant.Chunker.Sections.Bounds.{
  reindex_chunks-kept, reindex_chunks-IsWithin, chunk_text-AreChunks,
}
use ydb_qdrant.Chunker.Syntax.{
  TreeSitter, SemanticNode, slice_by_utf8_bytes, chunk_semantic_node, chunk_semantic_nodes,
}
use ydb_qdrant.Chunker.Smart.{
  CodeChunker, SmartMode, line_window, smart, line_window_chunk_file, or_line_windows,
  tree_sitter_chunk_file, chunk_text_file, smart_chunk_file, chunk_file,
}

number-map :
    (f : CodeChunk → CodeChunk)
    → ((c : CodeChunk) → (f c).chunk_index ≡ c.chunk_index)
    → (k : ℕ) (cs : List CodeChunk) → AreNumbered k cs
    → AreNumbered k (map f cs)
number-map f e k [] h = tt
number-map f e k (c ∷ cs) (h, hs) = (rw (e c) h, number-map f e (suc k) cs hs)

module _ (ts : TreeSitter) (to_lower : Text → Text) (options : ChunkingOptions)
    (path content : Text) where
  abbrev IsGood : List CodeChunk → Type 0
  IsGood cs = All (IsSized (normalized_max_chunk_chars options)) cs × AreNumbered 0 cs

  line_window_chunk_file-IsGood : IsGood (line_window_chunk_file to_lower options path content)
  unfolding line_window_chunk_file IsSized
  line_window_chunk_file-IsGood =
      let (s, w, n) = chunk_file_with_line_windows-AreChunks to_lower _ path options content 1 in
      (All-map (IsSized (normalized_max_chunk_chars options)) _ _ s, number-map _ (λ c. refl) 0 _ n)

  or_line_windows-IsGood :
      (cs : List CodeChunk)
      → All (IsSized (normalized_max_chunk_chars options)) cs
      → IsGood (or_line_windows to_lower options cs path content)
  unfolding or_line_windows
  or_line_windows-IsGood [] h = line_window_chunk_file-IsGood
  or_line_windows-IsGood (c ∷ cs) h = reindex_chunks-kept _ (c ∷ cs) h

  chunk_semantic_node-IsSized :
      (language : Text) (semantic : SemanticNode ts)
      → All
          (IsSized (normalized_max_chunk_chars options))
          (chunk_semantic_node ts to_lower options path content language semantic)
  unfolding chunk_semantic_node IsSized
  chunk_semantic_node-IsSized language semantic =
      let text = trim (
        slice_by_utf8_bytes ts content (ts.start_index semantic.node)
          (ts.end_index semantic.node)) in
      elim (Bool-cases (is_empty text)) [
        | inl e ↦ rw (chunk_semantic_node, e) tt
        | inr e ↦ elim (Bool-cases (ltb (normalized_max_chunk_chars options) (length text))) [
          | inl d ↦
              rw (chunk_semantic_node, e, d)
                (chunk_file_with_line_windows-AreChunks to_lower _ path options text _).0
          | inr d ↦
              rw (chunk_semantic_node, e, d)
                ((trim-trim _, length_of_is_empty text e, ground arith), tt)
        ]
      ]

  chunk_semantic_nodes-IsSized :
      (language : Text) (semantics : List (SemanticNode ts))
      → All
          (IsSized (normalized_max_chunk_chars options))
          (chunk_semantic_nodes ts to_lower options path content language semantics)
  unfolding chunk_semantic_nodes
  chunk_semantic_nodes-IsSized language [] = tt
  chunk_semantic_nodes-IsSized language (semantic ∷ rest) =
      All-append (IsSized (normalized_max_chunk_chars options)) _ _
        (chunk_semantic_node-IsSized language semantic) (chunk_semantic_nodes-IsSized language rest)

  tree_sitter_chunk_file-IsGood : IsGood (tree_sitter_chunk_file ts to_lower options path content)
  unfolding tree_sitter_chunk_file
  tree_sitter_chunk_file-IsGood =
      elim (Option-cases (registration_for (extension_of to_lower path))) [
        | inl e ↦ rw (tree_sitter_chunk_file, e) (tt, tt)
        | inr (registration, e) ↦ elim (Bool-cases (is_probably_binary_content content)) [
          | inl b ↦ rw (tree_sitter_chunk_file, e, b) (tt, tt)
          | inr b ↦ elim (Option-cases (ts.parse registration.grammar content)) [
            | inl p ↦ rw (tree_sitter_chunk_file, e, b, p) line_window_chunk_file-IsGood
            | inr (root, p) ↦ elim (Bool-cases (ts.has_error root)) [
              | inl r ↦ rw (tree_sitter_chunk_file, e, b, p, r) line_window_chunk_file-IsGood
              | inr r ↦
                  rw (tree_sitter_chunk_file, e, b, p, r)
                    (or_line_windows-IsGood _
                      (chunk_semantic_nodes-IsSized registration.language_name _))
            ]
          ]
        ]
      ]

  chunk_text_file-IsSized :
      (cs : List CodeChunk)
      → chunk_text_file to_lower options path content ≡ some cs
      → All (IsSized (normalized_max_chunk_chars options)) cs
  unfolding chunk_text_file
  chunk_text_file-IsSized cs h =
      let (md, txt) = chunk_text-AreChunks to_lower path options content in
      ground (arith, md.0, txt.0)

  smart_chunk_file-IsGood :
      (parsers : Bool) → IsGood (smart_chunk_file ts to_lower options parsers path content)
  unfolding smart_chunk_file
  smart_chunk_file-IsGood parsers =
      elim (Option-cases (chunk_text_file to_lower options path content)) [
        | inr (cs, e) ↦
            rw (smart_chunk_file, e) (reindex_chunks-kept _ cs (chunk_text_file-IsSized cs e))
        | inl e ↦
            elim (Bool-cases (parsers && is_some (registration_for (extension_of to_lower path)))) [
              | inl d ↦
                  rw (smart_chunk_file, e, d)
                    (or_line_windows-IsGood _ tree_sitter_chunk_file-IsGood.0)
              | inr d ↦ rw (smart_chunk_file, e, d) line_window_chunk_file-IsGood
            ]
      ]

  -- Whatever the chunker, the options, the file and its syntax tree, each chunk has a text that is
  -- trimmed, not empty and no longer than the limit of the options, and the chunks are numbered
  -- from 0 in their order.
  pub chunk_file-bounds :
      (chunker : CodeChunker)
      → All
          (IsSized (normalized_max_chunk_chars options))
          (chunk_file ts to_lower options chunker path content)
        × AreNumbered 0 (chunk_file ts to_lower options chunker path content)
  unfolding chunk_file
  chunk_file-bounds line_window = line_window_chunk_file-IsGood
  chunk_file-bounds (smart mode parsers) = smart_chunk_file-IsGood parsers

module _ (ts : TreeSitter) (to_lower : Text → Text) (options : ChunkingOptions)
    (path content : Text) where
  abbrev HasLines : List CodeChunk → Type 0
  HasLines = All (IsWithin 1 (1 + length (split_lines content)))

  line_window_chunk_file-lines : HasLines (line_window_chunk_file to_lower options path content)
  unfolding line_window_chunk_file IsWithin
  line_window_chunk_file-lines =
      All-map (IsWithin 1 (1 + length (split_lines content))) _ _
        (chunk_file_with_line_windows-AreChunks to_lower _ path options content 1).1

  chunk_text_file-lines :
      (cs : List CodeChunk) → chunk_text_file to_lower options path content ≡ some cs → HasLines cs
  unfolding chunk_text_file
  chunk_text_file-lines cs h =
      let (md, txt) = chunk_text-AreChunks to_lower path options content in
      ground (arith, md.1, txt.1)

  smart_chunk_file-lines : HasLines (smart_chunk_file ts to_lower options false path content)
  unfolding smart_chunk_file
  smart_chunk_file-lines = elim (Option-cases (chunk_text_file to_lower options path content)) [
    | inr (cs, e) ↦
        rw (smart_chunk_file, e)
          (reindex_chunks-IsWithin 1 (1 + length (split_lines content)) cs
            (chunk_text_file-lines cs e))
    | inl e ↦ rw (smart_chunk_file, e) line_window_chunk_file-lines
  ]

  -- Without parsers, whatever the options and the file, the lines of each chunk are lines of the
  -- file: the first is at least 1 and not behind the last, which is at most the number of lines.
  pub chunk_file-lines :
      (mode : SmartMode)
      → All
          (IsWithin 1 (1 + length (split_lines content)))
          (chunk_file ts to_lower options line_window path content)
        × All
            (IsWithin 1 (1 + length (split_lines content)))
            (chunk_file ts to_lower options (smart mode false) path content)
  unfolding chunk_file
  chunk_file-lines mode = (line_window_chunk_file-lines, smart_chunk_file-lines)
