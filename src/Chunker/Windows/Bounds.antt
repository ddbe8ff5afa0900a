-- ===== src/Chunker/Windows/Bounds.antt =====
-- What holds of every chunk that the line windows make: its length, its lines and its number.
use ydb_qdrant.Prelude.{
  ℕ, suc, ◌+◌, ◌≤◌, ◌<◌, List, [], ◌∷◌, ◌++◌, false, ◌≡◌, inl, inr, arith, Bool-cases, length, All,
  All-append,
}
use ydb_qdrant.Text.{Text, trim, is_empty}
use ydb_qdrant.Text.Trim.{trim-trim}
use ydb_qdrant.Chunker.{
  ChunkingOptions, CodeChunk, split_lines, is_probably_binary_content, normalized_max_chunk_chars,
}
use ydb_qdrant.Chunker.Windows.{
  Labels, joined_text, chunk_of, push_chunk, chunk_lines_of, chunk_file_with_line_windows,
}
use ydb_qdrant.Chunker.Windows.Loop.{windows_from-kept}

-- The text of a chunk is trimmed, has something in it, and is no longer than the limit.
unfoldable pub IsSized : ℕ → CodeChunk → Type 0
IsSized limit c = (trim c.text ≡ c.text) × (1 ≤ length c.text) × (length c.text ≤ limit)

-- The lines of a chunk are in order, the first at least `lo` and the last less than `hi`.
unfoldable pub IsWithin : ℕ → ℕ → CodeChunk → Type 0
IsWithin lo hi c = (lo ≤ c.start_line) × (c.start_line ≤ c.end_line) × (c.end_line < hi)

-- The chunks are numbered in their order, from `k`.
abbrev pub AreNumbered : ℕ → List CodeChunk → Type 0
AreNumbered k [] = Unit
AreNumbered k (c ∷ cs) = (c.chunk_index ≡ k) × AreNumbered (suc k) cs

numbered-append :
    (k : ℕ) (cs : List CodeChunk) (c : CodeChunk)
    → c.chunk_index ≡ k + length cs
    → AreNumbered k cs
    → AreNumbered k (cs ++ (c ∷ []))
numbered-append k [] c e h = (omega arith, tt)
numbered-append k (x ∷ xs) c e (h, hs) = (h, numbered-append (suc k) xs c (omega arith) hs)

pub length_of_is_empty : (s : Text) → is_empty s ≡ false → 1 ≤ length s
length_of_is_empty [] e = cc
length_of_is_empty (x ∷ xs) e = omega arith

-- What the file's chunks are together.
abbrev pub AreChunks : ℕ → ℕ → ℕ → List CodeChunk → Type 0
AreChunks limit lo hi cs = All (IsSized limit) cs × All (IsWithin lo hi) cs × AreNumbered 0 cs

pub trimmed_joined_text : (lines : List Text) → trim (joined_text lines) ≡ joined_text lines
unfolding joined_text
trimmed_joined_text lines = trim-trim _

module _ (to_lower : Text → Text) (labels : Labels) (path : Text) where
  push_chunk-AreChunks :
      (limit lo hi : ℕ) (chunks : List CodeChunk) (lines : List Text) (first final : ℕ)
      → length (joined_text lines) ≤ limit
      → lo ≤ first
      → first ≤ final
      → final < hi
      → AreChunks limit lo hi chunks
      → AreChunks limit lo hi (push_chunk to_lower labels path chunks lines first final)
  unfolding push_chunk chunk_of IsSized IsWithin
  push_chunk-AreChunks limit lo hi chunks lines first final h l m r (s, w, n) =
      elim (Bool-cases (is_empty (joined_text lines))) [
        | inl e ↦ rw e (s, w, n)
        | inr e ↦ rw e (
          All-append (IsSized limit) chunks _ s
              ((trimmed_joined_text lines, length_of_is_empty (joined_text lines) e, h), tt),
          All-append (IsWithin lo hi) chunks _ w ((l, m, r), tt),
          numbered-append 0 chunks _ (omega arith) n,
        )
      ]

  chunk_lines_of-AreChunks :
      (options : ChunkingOptions) (lines : List Text) (base : ℕ)
      → AreChunks
          (normalized_max_chunk_chars options)
          base
          (base + length lines)
          (chunk_lines_of to_lower labels path options lines base)
  unfolding chunk_lines_of
  chunk_lines_of-AreChunks options lines base =
      let limit = normalized_max_chunk_chars options in
      let hi = base + length lines in
      windows_from-kept to_lower labels path limit base hi (AreChunks limit base hi)
        (push_chunk-AreChunks limit base hi) _ _ lines base (length lines) 0 [] (omega arith)
        (omega arith) (tt, tt, tt)

  -- The chunks of a file that is cut into windows, from the line `base`.
  pub chunk_file_with_line_windows-AreChunks :
      (options : ChunkingOptions) (content : Text) (base : ℕ)
      → AreChunks
          (normalized_max_chunk_chars options)
          base
          (base + length (split_lines content))
          (chunk_file_with_line_windows to_lower labels path options content base)
  unfolding chunk_file_with_line_windows
  chunk_file_with_line_windows-AreChunks options content base =
      elim (Bool-cases (is_probably_binary_content content)) [
        | inl e ↦ rw e (tt, tt, tt)
        | inr e ↦ rw e (chunk_lines_of-AreChunks options (split_lines content) base)
      ]
