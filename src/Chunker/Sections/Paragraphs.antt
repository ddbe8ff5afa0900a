-- ===== src/Chunker/Sections/Paragraphs.antt =====
-- The sections of a plain text are its lines with ink.
use mathlib.Core.List.{append_assoc, append-nil}
use ydb_qdrant.Prelude.{
  ℕ, ◌+◌, List, [], ◌∷◌, ◌++◌, ◌≡◌, refl, inl, inr, Bool-cases, none, some, Option-cases, filter,
  filter-append,
}
use ydb_qdrant.Text.{Text}
use ydb_qdrant.Text.Ink.{has_ink, is_empty-trim}
use ydb_qdrant.Chunker.Sections.{
  Reading, close, add_line, markdown_line, paragraph_line, read_lines, sections_of,
}
use ydb_qdrant.Chunker.Sections.Layout.{
  all_lines, all_lines-append, AreAdjacent, sections_of-adjacent,
}

-- The section that is being read gets the line, as a new one if there is none.
close-add_line :
    (s : Reading) (line : Text) (n : ℕ)
    → all_lines (close (record s { current = some (add_line s.current line n) }))
      ≡ all_lines (close s) ++ (line ∷ [])
unfolding close add_line
close-add_line s line n = elim (Option-cases s.current) [
  | inl e ↦ rw e (all_lines-append s.sections _)
  | inr (c, e) ↦
      rw
        (
          e,
          all_lines-append s.sections (c ∷ []),
          all_lines-append s.sections (record c { lines = c.lines ++ (line ∷ []) } ∷ []),
        )
        (cc (
          append-nil c.lines,
          append-nil (c.lines ++ (line ∷ [])),
          append_assoc (all_lines s.sections) c.lines (line ∷ []),
        ))
]

close-closed :
    (s : Reading)
    → close (record { sections = close s; current = none; in_fence = s.in_fence }) ≡ close s
unfolding close
close-closed s = refl

paragraph_line-inked :
    (before : List Text) (s : Reading) (line : Text) (n : ℕ)
    → all_lines (close s) ≡ filter has_ink before
    → all_lines (close (paragraph_line s line n)) ≡ filter has_ink (before ++ (line ∷ []))
unfolding paragraph_line
paragraph_line-inked before s line n h = elim (Bool-cases (has_ink line)) [
  | inl k ↦
      rw
        (
          paragraph_line,
          is_empty-trim line,
          k,
          close-add_line s line n,
          h,
          filter-append has_ink before (line ∷ []),
          k,
        )
        refl
  | inr k ↦
      rw
        (
          paragraph_line,
          is_empty-trim line,
          k,
          filter-append has_ink before (line ∷ []),
          k,
          append-nil (filter has_ink before),
        )
        (rw (close-closed s) h)
]

read_lines-inked :
    (before lines : List Text) (s : Reading) (n : ℕ)
    → all_lines (close s) ≡ filter has_ink before
    → all_lines (close (read_lines paragraph_line s lines n)) ≡ filter has_ink (before ++ lines)
unfolding read_lines
read_lines-inked before [] s n h = rw (append-nil before) h
read_lines-inked before (line ∷ lines) s n h = rw (← (append_assoc before (line ∷ []) lines)) (
    read_lines-inked (before ++ (line ∷ [])) lines _ (n + 1)
      (paragraph_line-inked before s line n h))

sections_of-inked :
    (lines : List Text) → all_lines (sections_of paragraph_line lines) ≡ filter has_ink lines
unfolding sections_of close
sections_of-inked lines = read_lines-inked [] lines _ 1 refl

-- The sections of a Markdown file hold its lines, each once and in order, each section starting
-- where the one before it ends; the sections of a plain text hold exactly its lines that are not
-- blank, in order.
pub sections_of-lines :
    (lines : List Text)
    → (all_lines (sections_of markdown_line lines) ≡ lines)
      × AreAdjacent 1 (sections_of markdown_line lines)
      × (all_lines (sections_of paragraph_line lines) ≡ filter has_ink lines)
sections_of-lines lines =
    let (kept, adjacent) = sections_of-adjacent lines in (kept, adjacent, sections_of-inked lines)
