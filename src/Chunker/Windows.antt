-- ===== src/Chunker/Windows.antt =====
-- chunkFileWithLineWindows and pushBoundedLineChunks of src/code-indexer/chunker.ts. A file is cut into
-- windows of lines that overlap, and a window into chunks of bounded length.
pub mod Loop
pub mod Bounds
pub mod Cover
pub mod Complete
use ydb_qdrant.Prelude.{
  ℕ, zero, suc, ◌+◌, ◌-◌, min, List, [], ◌∷◌, ◌++◌, Bool, true, false, not, ◌&&◌, leb, ltb, Option,
  none, if◌then◌else◌, length, take, drop, ◌==◌,
}
use ydb_qdrant.Text.{Text, trim, is_empty, join}
use ydb_qdrant.Chunker.{
  ChunkingOptions, CodeChunk, lf, split_lines, is_probably_binary_content, normalized_chunk_lines,
  normalized_overlap_lines, normalized_max_chunk_chars,
}
use ydb_qdrant.Chunker.Paths.{language_for_path, path_segments_for_path}

-- What a caller says of every chunk that it asks for.
pub record Labels : Type 0 where
  pub label_chunker : Option Text
  pub label_kind : Option Text
  pub label_symbol : Option Text

-- The lines that wait for a chunk, with the number of the first.
pub record Buffered : Type 0 where
  pub chunks : List CodeChunk
  pub buffer : List Text
  pub buffer_start_line : ℕ

-- `lines.join("\n").trim()`
unfoldable pub joined_text : List Text → Text
joined_text lines = trim (join (lf ∷ []) lines)

abbrev pub nothing_buffered : Buffered → Bool
nothing_buffered s = length s.buffer == 0

module _ (to_lower : Text → Text) (labels : Labels) (path : Text) where
  unfoldable pub chunk_of : Text → ℕ → ℕ → ℕ → CodeChunk
  chunk_of content index first final = record {
    chunker = labels.label_chunker;
    chunk_index = index;
    chunk_kind = labels.label_kind;
    end_line = final;
    language = language_for_path to_lower path;
    path = path;
    path_segments = path_segments_for_path path;
    start_line = first;
    symbol_name = labels.label_symbol;
    symbol_path = labels.label_symbol;
    text = content;
  }

  unfoldable pub push_chunk : List CodeChunk → List Text → ℕ → ℕ → List CodeChunk
  push_chunk chunks lines first final =
      let content = joined_text lines in
      if is_empty content
      then chunks
      else chunks ++ (chunk_of content (length chunks) first final ∷ [])

  unfoldable pub flush : Buffered → ℕ → Buffered
  flush s final = record {
    chunks = push_chunk s.chunks s.buffer s.buffer_start_line final;
    buffer = [];
    buffer_start_line = s.buffer_start_line;
  }

  module _ (max_chunk_chars : ℕ) where
    -- The loop over `offset`; `rest` is the line from there on, and each round takes a code unit at least.
    unfoldable pub push_slices : ℕ → Text → ℕ → List CodeChunk → List CodeChunk
    push_slices zero rest number chunks = chunks
    push_slices (suc f) rest number chunks =
        let slice = push_chunk chunks (take max_chunk_chars rest ∷ []) number number in
        let others = push_slices f (drop max_chunk_chars rest) number slice in
        if is_empty rest then chunks else others

    -- A line that is longer than a chunk may be.
    unfoldable pub push_long_line : Buffered → Text → ℕ → Buffered
    push_long_line s line number =
        let before = if nothing_buffered s then s else flush s (number - 1) in
        record {
          chunks = push_slices (length line) line number before.chunks;
          buffer = before.buffer;
          buffer_start_line = number + 1;
        }

    -- The `if` on `candidate`: make room when the line does not fit.
    unfoldable pub make_room : Buffered → Text → ℕ → Buffered
    make_room s line number =
        if ltb max_chunk_chars (length (joined_text (s.buffer ++ (line ∷ []))))
          && not (nothing_buffered s)
        then record (flush s (number - 1)) { buffer_start_line = number }
        else s

    unfoldable pub buffer_line : Buffered → Text → ℕ → Buffered
    buffer_line s line number = record {
      chunks = s.chunks;
      buffer = s.buffer ++ (line ∷ []);
      buffer_start_line = if nothing_buffered s then number else s.buffer_start_line;
    }

    unfoldable pub push_line : Buffered → Text → ℕ → Buffered
    push_line s line number =
        if ltb max_chunk_chars (length line)
        then push_long_line s line number
        else buffer_line (make_room s line number) line number

    unfoldable pub push_lines : Buffered → List Text → ℕ → Buffered
    push_lines s [] number = s
    push_lines s (line ∷ lines) number = push_lines (push_line s line number) lines (number + 1)

    unfoldable pub push_bounded_line_chunks : List CodeChunk → List Text → ℕ → List CodeChunk
    push_bounded_line_chunks chunks lines start_line =
        let s =
          push_lines (record { chunks = chunks; buffer = []; buffer_start_line = start_line }) lines
            start_line in
        (if nothing_buffered s then s else flush s (start_line + length lines - 1)).chunks

    -- The loop over windows of `size` lines, `step` lines apart.
    unfoldable pub windows_from : ℕ → ℕ → List Text → ℕ → ℕ → ℕ → List CodeChunk → List CodeChunk
    windows_from size step lines base zero start chunks = chunks
    windows_from size step lines base (suc f) start chunks =
        let end_exclusive = min (start + size) (length lines) in
        let window = take (end_exclusive - start) (drop start lines) in
        let pushed = push_bounded_line_chunks chunks window (base + start) in
        let others = windows_from size step lines base f (start + step) pushed in
        if ltb start (length lines)
        then if leb (length lines) end_exclusive then pushed else others
        else chunks

  unfoldable pub chunk_lines_of : ChunkingOptions → List Text → ℕ → List CodeChunk
  chunk_lines_of options lines base =
      let size = normalized_chunk_lines options in
      windows_from (normalized_max_chunk_chars options) size
        (size - normalized_overlap_lines options) lines base (length lines) 0 []

  unfoldable pub chunk_file_with_line_windows : ChunkingOptions → Text → ℕ → List CodeChunk
  chunk_file_with_line_windows options content base_start_line =
      if is_probably_binary_content content
      then []
      else chunk_lines_of options (split_lines content) base_start_line
