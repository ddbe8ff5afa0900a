-- ===== src/Chunker/Sections/Bounds.antt =====
-- The chunks of a text file: their lengths, their lines within the file, and their numbers.
use ydb_qdrant.Prelude.{
  ℕ, suc, ◌+◌, ◌≤◌, List, [], ◌∷◌, ◌++◌, refl, inl, inr, ltb, arith, Bool-cases, length, All,
  All-append, All-filter, All-imp,
}
use ydb_qdrant.Text.{Text, is_empty}
use ydb_qdrant.Chunker.{
  ChunkingOptions, CodeChunk, split_lines, is_probably_binary_content, normalized_max_chunk_chars,
}
use ydb_qdrant.Chunker.Windows.{Labels, joined_text, chunk_of, chunk_file_with_line_windows}
use ydb_qdrant.Chunker.Windows.Bounds.{
  IsSized, IsWithin, AreNumbered, AreChunks, length_of_is_empty, trimmed_joined_text,
  chunk_file_with_line_windows-AreChunks,
}
use ydb_qdrant.Chunker.Sections.Feeds.{length-joined_lines, split_lines-Without}
use ydb_qdrant.Chunker.Sections.Fit.{
  Fits, sections_of-Fits, markdown_line-Fits, paragraph_line-Fits,
}
use ydb_qdrant.Chunker.Sections.{
  Section, markdown_line, paragraph_line, number_from, reindex_chunks, add_section, add_sections,
  chunks_from_text_sections, chunk_markdown_file, chunk_paragraph_text_file,
}

-- Renumbering keeps what does not depend on the number.
pub number_from-kept :
    (P : CodeChunk → Type 0)
    → ((c : CodeChunk) (k : ℕ) → P c → P (record c { chunk_index = k }))
    → (k : ℕ) (cs : List CodeChunk) → All P cs
    → All P (number_from k cs)
unfolding number_from
number_from-kept P f k [] h = tt
number_from-kept P f k (c ∷ cs) (p, h) = (f c k p, number_from-kept P f (suc k) cs h)

number_from-AreNumbered : (k : ℕ) (cs : List CodeChunk) → AreNumbered k (number_from k cs)
unfolding number_from
number_from-AreNumbered k [] = tt
number_from-AreNumbered k (c ∷ cs) = (refl, number_from-AreNumbered (suc k) cs)

pub reindex_chunks-kept :
    (limit : ℕ) (cs : List CodeChunk)
    → All (IsSized limit) cs
    → All (IsSized limit) (reindex_chunks cs) × AreNumbered 0 (reindex_chunks cs)
unfolding reindex_chunks IsSized
reindex_chunks-kept limit cs h = (
  number_from-kept (IsSized limit) (λ c k p. p) 0 _ (All-filter (IsSized limit) _ cs h),
  number_from-AreNumbered 0 _,
)

pub reindex_chunks-IsWithin :
    (lo hi : ℕ) (cs : List CodeChunk)
    → All (IsWithin lo hi) cs
    → All (IsWithin lo hi) (reindex_chunks cs)
unfolding reindex_chunks IsWithin
reindex_chunks-IsWithin lo hi cs h =
    number_from-kept (IsWithin lo hi) (λ c k p. p) 0 _ (All-filter (IsWithin lo hi) _ cs h)

IsWithin-weaken :
    (lo hi lo' hi' : ℕ)
    → lo' ≤ lo
    → hi ≤ hi'
    → (c : CodeChunk) → IsWithin lo hi c
    → IsWithin lo' hi' c
unfolding IsWithin
IsWithin-weaken lo hi lo' hi' a b c (p, q, r) = (omega arith, q, omega arith)

module _ (to_lower : Text → Text) (path : Text) (options : ChunkingOptions) (chunker kind : Text)
    (hi : ℕ) where
  abbrev limit : ℕ
  limit = normalized_max_chunk_chars options

  abbrev AreGood : List CodeChunk → Type 0
  AreGood cs = All (IsSized limit) cs × All (IsWithin 1 hi) cs

  push-AreGood :
      (chunks added : List CodeChunk)
      → AreGood chunks
      → All (IsSized limit) added
      → All (IsWithin 1 hi) added
      → AreGood (chunks ++ added)
  push-AreGood chunks added (s, w) t v =
      (All-append (IsSized limit) chunks added s t, All-append (IsWithin 1 hi) chunks added w v)

  windows-IsWithin :
      (labels : Labels) (section : Section)
      → Fits hi section
      → All (IsWithin 1 hi) (
          chunk_file_with_line_windows to_lower labels path options
            (joined_text section.lines)
            section.start_line)
  windows-IsWithin labels section f =
      let content = joined_text section.lines in
      let (_, w, _) =
        chunk_file_with_line_windows-AreChunks to_lower labels path options content
          section.start_line in
      All-imp
        (IsWithin-weaken section.start_line (section.start_line + length (split_lines content)) 1 hi
          f.first
          (omega (arith, length-joined_lines section.lines f.some_line f.no_feeds, f.last_line)))
        _ w

  add_section-AreGood :
      (chunks : List CodeChunk) (section : Section)
      → Fits hi section
      → AreGood chunks
      → AreGood (add_section to_lower path options chunker kind chunks section)
  unfolding add_section chunk_of IsSized IsWithin
  add_section-AreGood chunks section f g =
      let content = joined_text section.lines in
      elim (Bool-cases (is_empty content)) [
        | inl e ↦ rw (add_section, e) g
        | inr e ↦ elim (Bool-cases (ltb limit (length content))) [
          | inl d ↦
              rw (add_section, e, d)
                (push-AreGood chunks _ g
                  (chunk_file_with_line_windows-AreChunks to_lower _ path options content
                    section.start_line).0
                  (windows-IsWithin _ section f))
          | inr d ↦
              rw (add_section, e, d)
                (push-AreGood chunks _ g
                  (
                    (trimmed_joined_text section.lines, length_of_is_empty content e, ground arith),
                    tt,
                  )
                  (
                    (f.first, omega (arith, f.some_line), omega (arith, f.some_line, f.last_line)),
                    tt,
                  ))
        ]
      ]

  add_sections-AreGood :
      (sections : List Section) (chunks : List CodeChunk)
      → All (Fits hi) sections
      → AreGood chunks
      → AreGood (add_sections to_lower path options chunker kind chunks sections)
  unfolding add_sections
  add_sections-AreGood [] chunks f g = g
  add_sections-AreGood (section ∷ rest) chunks (f, fs) g =
      add_sections-AreGood rest _ fs (add_section-AreGood chunks section f g)

  chunks_from_text_sections-AreChunks :
      (sections : List Section)
      → All (Fits hi) sections
      → AreChunks limit 1 hi (chunks_from_text_sections to_lower path options chunker kind sections)
  unfolding chunks_from_text_sections
  chunks_from_text_sections-AreChunks sections f =
      let (s, w) = add_sections-AreGood sections [] f (tt, tt) in
      let (s', n) = reindex_chunks-kept limit _ s in (s', reindex_chunks-IsWithin 1 hi _ w, n)

module _ (to_lower : Text → Text) (path : Text) (options : ChunkingOptions) (content : Text) where
  abbrev hi_of : ℕ
  hi_of = 1 + length (split_lines content)

  -- The chunks of a text file.
  pub chunk_text-AreChunks :
      AreChunks
        (normalized_max_chunk_chars options)
        1
        (1 + length (split_lines content))
        (chunk_markdown_file to_lower path options content)
      × AreChunks
          (normalized_max_chunk_chars options)
          1
          (1 + length (split_lines content))
          (chunk_paragraph_text_file to_lower path options content)
  unfolding chunk_markdown_file chunk_paragraph_text_file
  chunk_text-AreChunks = elim (Bool-cases (is_probably_binary_content content)) [
    | inl e ↦ rw e ((tt, tt, tt), (tt, tt, tt))
    | inr e ↦
        (let w = split_lines-Without content in
          rw e (
            chunks_from_text_sections-AreChunks to_lower path options _ _ hi_of _
                (sections_of-Fits markdown_line _ markdown_line-Fits w),
            chunks_from_text_sections-AreChunks to_lower path options _ _ hi_of _
                (sections_of-Fits paragraph_line _ paragraph_line-Fits w),
          ))
  ]
