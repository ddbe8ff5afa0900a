-- ===== src/Chunker/Smart/Fingerprint.antt =====
-- The fingerprint of a chunker tells what its chunks depend on.
use ydb_qdrant.Prelude.{
  ℕ, List, [], ◌∷◌, true, false, ◌≡◌, refl, ap, arith, inl, inr, Option-cases, drop,
}
use ydb_qdrant.Text.{Text, codes}
use ydb_qdrant.Text.Decimal.{decimal-terminated}
use ydb_qdrant.Chunker.{
  ChunkingOptions, CodeChunk, normalized_chunk_lines, normalized_overlap_lines,
  normalized_max_chunk_chars,
}
use ydb_qdrant.Chunker.Grammars.{registration_for}
use ydb_qdrant.Chunker.Paths.{extension_of}
use ydb_qdrant.Chunker.Windows.{Labels, chunk_lines_of, chunk_file_with_line_windows}
use ydb_qdrant.Chunker.Sections.{
  Section, add_section, add_sections, chunks_from_text_sections, chunk_markdown_file,
  chunk_paragraph_text_file,
}
use ydb_qdrant.Chunker.Syntax.{TreeSitter, SemanticNode, chunk_semantic_node, chunk_semantic_nodes}
use ydb_qdrant.Chunker.Smart.{
  CodeChunker, auto, tree_sitter, line_window, smart, line_window_chunk_file, or_line_windows,
  tree_sitter_chunk_file, chunk_text_file, smart_chunk_file, chunk_file,
  chunking_options_fingerprint, fingerprint,
}

-- The numbers that a chunker reads of two options are the same.
pub record SameNumbers (o p : ChunkingOptions) : Type 0 where
  pub same_lines : normalized_chunk_lines o ≡ normalized_chunk_lines p
  pub same_chars : normalized_max_chunk_chars o ≡ normalized_max_chunk_chars p
  pub same_overlap : normalized_overlap_lines o ≡ normalized_overlap_lines p

fingerprint-SameNumbers :
    (o p : ChunkingOptions)
    → chunking_options_fingerprint o ≡ chunking_options_fingerprint p
    → SameNumbers o p
unfolding chunking_options_fingerprint
fingerprint-SameNumbers o p e =
    let (lines, e1) = decimal-terminated _ _ b',' _ _ (λ d. omega arith) (ap (drop 14) e) in
    let (chars, e2) = decimal-terminated _ _ b',' _ _ (λ d. omega arith) (ap (drop 16) e1) in
    let (_, e3) = decimal-terminated _ _ b',' _ _ (λ d. omega arith) (ap (drop 15) e2) in
    let (overlap, _) = decimal-terminated _ _ b'}' _ _ (λ d. omega arith) (ap (drop 15) e3) in
    record { same_lines = lines; same_chars = chars; same_overlap = overlap }

module _ (to_lower : Text → Text) (path : Text) (o p : ChunkingOptions) (n : SameNumbers o p) where
  same_windows :
      (labels : Labels) (content : Text) (base : ℕ)
      → chunk_file_with_line_windows to_lower labels path o content base
        ≡ chunk_file_with_line_windows to_lower labels path p content base
  unfolding chunk_file_with_line_windows chunk_lines_of
  same_windows labels content base = rw (n.same_lines, n.same_chars, n.same_overlap) refl

  same_section :
      (chunker kind : Text) (chunks : List CodeChunk) (section : Section)
      → add_section to_lower path o chunker kind chunks section
        ≡ add_section to_lower path p chunker kind chunks section
  unfolding add_section
  same_section chunker kind chunks section = rw (n.same_chars, same_windows) refl

  same_sections :
      (chunker kind : Text) (sections : List Section) (chunks : List CodeChunk)
      → add_sections to_lower path o chunker kind chunks sections
        ≡ add_sections to_lower path p chunker kind chunks sections
  unfolding add_sections
  same_sections chunker kind [] chunks = refl
  same_sections chunker kind (section ∷ rest) chunks =
      rw (same_section chunker kind chunks section) (same_sections chunker kind rest _)

  same_line_windows :
      (content : Text)
      → line_window_chunk_file to_lower o path content
        ≡ line_window_chunk_file to_lower p path content
  unfolding line_window_chunk_file
  same_line_windows content = rw (same_windows _ content 1) refl

  same_or_line_windows :
      (cs : List CodeChunk) (content : Text)
      → or_line_windows to_lower o cs path content ≡ or_line_windows to_lower p cs path content
  unfolding or_line_windows
  same_or_line_windows [] content = same_line_windows content
  same_or_line_windows (c ∷ cs) content = refl

  same_text_file :
      (content : Text)
      → chunk_text_file to_lower o path content ≡ chunk_text_file to_lower p path content
  unfolding chunk_text_file chunk_markdown_file chunk_paragraph_text_file chunks_from_text_sections
  same_text_file content =
      rw
        (
          same_sections (codes "markdown") (codes "markdown-section"),
          same_sections (codes "text") (codes "text-section"),
        )
        refl

  module _ (ts : TreeSitter) where
    same_semantic_nodes :
        (content language : Text) (semantics : List (SemanticNode ts))
        → chunk_semantic_nodes ts to_lower o path content language semantics
          ≡ chunk_semantic_nodes ts to_lower p path content language semantics
    unfolding chunk_semantic_nodes chunk_semantic_node
    same_semantic_nodes content language [] = refl
    same_semantic_nodes content language (semantic ∷ rest) =
        rw (n.same_chars, same_windows, same_semantic_nodes content language rest) refl

    same_tree_sitter :
        (content : Text)
        → tree_sitter_chunk_file ts to_lower o path content
          ≡ tree_sitter_chunk_file ts to_lower p path content
    unfolding tree_sitter_chunk_file
    same_tree_sitter content = elim (Option-cases (registration_for (extension_of to_lower path))) [
      | inl e ↦ rw (tree_sitter_chunk_file, e) refl
      | inr (r, e) ↦ elim (Option-cases (ts.parse r.grammar content)) [
        | inl q ↦ rw (tree_sitter_chunk_file, e, q, same_line_windows content) refl
        | inr (root, q) ↦
            rw
              (
                tree_sitter_chunk_file,
                e,
                q,
                same_line_windows content,
                same_semantic_nodes content,
                same_or_line_windows,
              )
              refl
      ]
    ]

    same_chunk_file :
        (chunker : CodeChunker) (content : Text)
        → chunk_file ts to_lower o chunker path content
          ≡ chunk_file ts to_lower p chunker path content
    unfolding chunk_file smart_chunk_file
    same_chunk_file line_window content = same_line_windows content
    same_chunk_file (smart mode parsers) content =
        elim (Option-cases (chunk_text_file to_lower p path content)) [
          | inr (cs, e) ↦ rw (smart_chunk_file, same_text_file content, e) refl
          | inl e ↦
              rw
                (
                  smart_chunk_file,
                  same_text_file content,
                  e,
                  same_tree_sitter content,
                  same_or_line_windows,
                  same_line_windows content,
                )
                refl
        ]

-- A code unit of a text, which tells two texts apart.
first : Text → ℕ
first [] = 0
first (x ∷ xs) = x

same_chunker :
    (c d : CodeChunker) (o p : ChunkingOptions)
    → fingerprint c o ≡ fingerprint d p
    → (c ≡ d) × (chunking_options_fingerprint o ≡ chunking_options_fingerprint p)
unfolding fingerprint first
same_chunker line_window line_window o p e = (refl, ap (drop 15) e)
same_chunker line_window (smart m b) o p e = absurd (omega (arith, ap first e))
same_chunker (smart m b) line_window o p e = absurd (omega (arith, ap first e))
same_chunker (smart auto b) (smart tree_sitter b') o p e =
    absurd (omega (arith, ap (λ t. first (drop 9 t)) e))
same_chunker (smart tree_sitter b) (smart auto b') o p e =
    absurd (omega (arith, ap (λ t. first (drop 9 t)) e))
same_chunker (smart auto true) (smart auto true) o p e = (refl, ap (drop 38) e)
same_chunker (smart auto false) (smart auto false) o p e = (refl, ap (drop 19) e)
same_chunker (smart auto true) (smart auto false) o p e =
    absurd (omega (arith, ap (λ t. first (drop 14 t)) e))
same_chunker (smart auto false) (smart auto true) o p e =
    absurd (omega (arith, ap (λ t. first (drop 14 t)) e))
same_chunker (smart tree_sitter true) (smart tree_sitter true) o p e = (refl, ap (drop 45) e)
same_chunker (smart tree_sitter false) (smart tree_sitter false) o p e = (refl, ap (drop 26) e)
same_chunker (smart tree_sitter true) (smart tree_sitter false) o p e =
    absurd (omega (arith, ap (λ t. first (drop 21 t)) e))
same_chunker (smart tree_sitter false) (smart tree_sitter true) o p e =
    absurd (omega (arith, ap (λ t. first (drop 21 t)) e))

-- If two chunkers with their options have the same fingerprint, then they make the same chunks of
-- every file: an index whose fingerprint is still the same needs no new chunks.
pub fingerprint-chunk_file :
    (ts : TreeSitter) (to_lower : Text → Text) (c d : CodeChunker) (o p : ChunkingOptions)
    → fingerprint c o ≡ fingerprint d p
    → (path content : Text)
    → chunk_file ts to_lower o c path content ≡ chunk_file ts to_lower p d path content
fingerprint-chunk_file ts to_lower c d o p e path content =
    let (same, f) = same_chunker c d o p e in
    rw same (same_chunk_file to_lower path o p (fingerprint-SameNumbers o p f) ts d content)
