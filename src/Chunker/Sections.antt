-- ===== src/Chunker/Sections.antt =====
-- chunkMarkdownFile, chunkParagraphTextFile, chunksFromTextSections and reindexChunks of
-- src/code-indexer/chunker.ts: texts are cut at headings or blank lines before they are cut by length.
pub mod Layout
pub mod Paragraphs
pub mod Feeds
pub mod Fit
pub mod Bounds
use ydb_qdrant.Prelude.{
  ℕ, suc, ◌+◌, ◌-◌, List, [], ◌∷◌, ◌++◌, Bool, true, false, not, ◌&&◌, ◌||◌, ◌==◌, leb, ltb, Option,
  none, some, if◌then◌else◌, length, filter, any,
}
use ydb_qdrant.Text.{Text, codes, trim, is_empty, is_space, drop_while, starts_with}
use ydb_qdrant.Chunker.{
  ChunkingOptions, CodeChunk, lf, cr, split_lines, is_probably_binary_content,
  normalized_max_chunk_chars,
}
use ydb_qdrant.Chunker.Windows.{Labels, joined_text, chunk_of, chunk_file_with_line_windows}

pub record Section : Type 0 where
  pub heading : Option Text
  pub lines : List Text
  pub start_line : ℕ

-- `/^\s*(```|~~~)/`
unfoldable pub is_fence : Text → Bool
is_fence line =
    let rest = drop_while is_space line in
    starts_with (codes "```") rest || starts_with (codes "~~~") rest

-- What `.` of a pattern does not match.
abbrev pub is_line_terminator : ℕ → Bool
is_line_terminator c = c == lf || c == cr || c == 0x2028 || c == 0x2029

-- The second group of `\s+(.+)$`. When the spaces reach the end, the last of them is given to the group.
abbrev title_after_spaces : Text → Option Text
title_after_spaces [] = none
title_after_spaces (x ∷ []) = none
title_after_spaces (x ∷ y ∷ []) =
    if is_space x && not (is_line_terminator y) then some (y ∷ []) else none
title_after_spaces (x ∷ y ∷ z ∷ s) =
    let others = title_after_spaces (y ∷ z ∷ s) in
    if is_space x
    then if is_space y
      then others
      else if any is_line_terminator (y ∷ z ∷ s)
      then none
      else some (y ∷ z ∷ s)
    else none

-- `/^(#{1,6})\s+(.+)$/`
unfoldable pub heading_match : Text → Option Text
heading_match line =
    let rest = drop_while (λ c. c == b'#') line in
    let hashes = length line - length rest in
    if leb 1 hashes && leb hashes 6 then title_after_spaces rest else none

-- `sections`, `current` and `inFence`.
pub record Reading : Type 0 where
  pub sections : List Section
  pub current : Option Section
  pub in_fence : Bool

unfoldable pub close : Reading → List Section
close s = elim s.current [ none ↦ s.sections | some section ↦ s.sections ++ (section ∷ []) ]

unfoldable pub add_line : Option Section → Text → ℕ → Section
add_line none line number = record { heading = none; lines = line ∷ []; start_line = number }
add_line (some section) line number = record section { lines = section.lines ++ (line ∷ []) }

-- One round of the loop, for the line with the number `index + 1`.
unfoldable pub markdown_line : Reading → Text → ℕ → Reading
markdown_line s line number =
    let fence = if is_fence line then not s.in_fence else s.in_fence in
    elim (if fence then none else heading_match line) [
      | some title ↦ record {
        sections = close s;
        current =
            some (record { heading = some (trim title); lines = line ∷ []; start_line = number });
        in_fence = fence;
      }
      | none ↦ record {
        sections = s.sections;
        current = some (add_line s.current line number);
        in_fence = fence;
      }
    ]

unfoldable pub paragraph_line : Reading → Text → ℕ → Reading
paragraph_line s line number =
    if is_empty (trim line)
    then record { sections = close s; current = none; in_fence = s.in_fence }
    else record s { current = some (add_line s.current line number) }

unfoldable pub read_lines : (Reading → Text → ℕ → Reading) → Reading → List Text → ℕ → Reading
read_lines round s [] number = s
read_lines round s (line ∷ lines) number = read_lines round (round s line number) lines (number + 1)

unfoldable pub sections_of : (Reading → Text → ℕ → Reading) → List Text → List Section
sections_of round lines =
    close (read_lines round (record { sections = []; current = none; in_fence = false }) lines 1)

-- `map((chunk, index) => ({ ...chunk, chunkIndex: index }))`
unfoldable pub number_from : ℕ → List CodeChunk → List CodeChunk
number_from k [] = []
number_from k (c ∷ cs) = record c { chunk_index = k } ∷ number_from (suc k) cs

unfoldable pub reindex_chunks : List CodeChunk → List CodeChunk
reindex_chunks chunks = number_from 0 (filter (λ c. not (is_empty (trim c.text))) chunks)

module _ (to_lower : Text → Text) (path : Text) (options : ChunkingOptions) where
  unfoldable pub add_section : Text → Text → List CodeChunk → Section → List CodeChunk
  add_section chunker kind chunks section =
      let content = joined_text section.lines in
      let labels : Labels = record {
        label_chunker = some chunker;
        label_kind = some kind;
        label_symbol = section.heading;
      } in
      if is_empty content
      then chunks
      else if ltb (normalized_max_chunk_chars options) (length content)
      then chunks
        ++ chunk_file_with_line_windows to_lower labels path options content section.start_line
      else chunks
        ++ (chunk_of to_lower labels path content (length chunks) section.start_line
              (section.start_line + length section.lines - 1)
            ∷ [])

  unfoldable pub add_sections : Text → Text → List CodeChunk → List Section → List CodeChunk
  add_sections chunker kind chunks [] = chunks
  add_sections chunker kind chunks (section ∷ rest) =
      add_sections chunker kind (add_section chunker kind chunks section) rest

  unfoldable pub chunks_from_text_sections : Text → Text → List Section → List CodeChunk
  chunks_from_text_sections chunker kind sections =
      reindex_chunks (add_sections chunker kind [] sections)

  unfoldable pub chunk_markdown_file : Text → List CodeChunk
  chunk_markdown_file content =
      if is_probably_binary_content content
      then []
      else chunks_from_text_sections (codes "markdown") (codes "markdown-section")
          (sections_of markdown_line (split_lines content))

  unfoldable pub chunk_paragraph_text_file : Text → List CodeChunk
  chunk_paragraph_text_file content =
      if is_probably_binary_content content
      then []
      else chunks_from_text_sections (codes "text") (codes "text-section")
          (sections_of paragraph_line (split_lines content))
