-- ===== src/Chunker/Sections/Layout.antt =====
-- How the sections of a text lie in its lines.
use mathlib.Core.List.{append_assoc, append-nil}
use ydb_qdrant.Prelude.{
  ℕ, suc, ◌+◌, ◌≤◌, List, [], ◌∷◌, ◌++◌, Bool, not, ◌≡◌, refl, sym, ap, ◌∙◌, inl, inr, arith,
  Option, none, some, Option-cases, if◌then◌else◌, length, length-append,
}
use ydb_qdrant.Text.{Text, trim}
use ydb_qdrant.Chunker.Sections.{
  Section, Reading, is_fence, heading_match, close, add_line, markdown_line, read_lines,
  sections_of,
}

-- The lines of the sections in their order.
abbrev pub all_lines : List Section → List Text
all_lines [] = []
all_lines (section ∷ rest) = section.lines ++ all_lines rest

-- Each section starts where the one before it ends, the first at `n`, and none is empty.
abbrev pub AreAdjacent : ℕ → List Section → Type 0
AreAdjacent n [] = Unit
AreAdjacent n (section ∷ rest) =
    (section.start_line ≡ n)
    × (1 ≤ length section.lines)
    × AreAdjacent (n + length section.lines) rest

pub all_lines-append : (a b : List Section) → all_lines (a ++ b) ≡ all_lines a ++ all_lines b
all_lines-append [] b = refl
all_lines-append (x ∷ xs) b =
    ap (λ (r : List Text). x.lines ++ r) (all_lines-append xs b)
    ∙ sym (append_assoc x.lines (all_lines xs) (all_lines b))

adjacent-append :
    (n : ℕ) (a : List Section) (section : Section)
    → AreAdjacent n a
    → section.start_line ≡ n + length (all_lines a)
    → 1 ≤ length section.lines
    → AreAdjacent n (a ++ (section ∷ []))
adjacent-append n [] section h e p = (omega arith, p, tt)
adjacent-append n (x ∷ xs) section (q, r, h) e p = (
  q,
  r,
  adjacent-append (n + length x.lines) xs section h
      (omega (arith, length-append x.lines (all_lines xs))) p,
)

-- After the lines `before`, all of which are in sections.
record Laid (before : List Text) (s : Reading) : Type 0 where
  lines_kept : all_lines (close s) ≡ before
  adjacent : AreAdjacent 1 (close s)

-- A section that starts at this line.
open_section :
    (before : List Text) (s : Reading) (section : Section) (line : Text)
    → Laid before s
    → section.lines ≡ line ∷ []
    → section.start_line ≡ suc (length before)
    → (all_lines (close s ++ (section ∷ [])) ≡ before ++ (line ∷ []))
      × AreAdjacent 1 (close s ++ (section ∷ []))
open_section before s section line h e n = (
  all_lines-append (close s) (section ∷ []) ∙ rw (h.lines_kept, e) refl,
  adjacent-append 1 (close s) section h.adjacent
      (let same : length (all_lines (close s)) ≡ length before =
          ap (λ (ls : List Text). length ls) h.lines_kept in
        omega (arith, same, n))
      (rw e (omega arith)),
)

adjacent-extend :
    (n : ℕ) (a : List Section) (c d : Section)
    → AreAdjacent n (a ++ (c ∷ []))
    → d.start_line ≡ c.start_line
    → length c.lines ≤ length d.lines
    → AreAdjacent n (a ++ (d ∷ []))
adjacent-extend n [] c d (q, r, _) e p = (e ∙ q, omega arith, tt)
adjacent-extend n (x ∷ xs) c d (q, r, h) e p =
    (q, r, adjacent-extend (n + length x.lines) xs c d h e p)

-- A line that goes to the section that is being read.
extend_section :
    (before : List Text) (a : List Section) (c d : Section) (line : Text)
    → all_lines (a ++ (c ∷ [])) ≡ before
    → AreAdjacent 1 (a ++ (c ∷ []))
    → d.start_line ≡ c.start_line
    → d.lines ≡ c.lines ++ (line ∷ [])
    → (all_lines (a ++ (d ∷ [])) ≡ before ++ (line ∷ [])) × AreAdjacent 1 (a ++ (d ∷ []))
extend_section before a c d line k h e f = (
  lines_kept,
  adjacent-extend 1 a c d h e (rw f (omega (arith, length-append c.lines (line ∷ [])))),
)
  where
    lines_kept : all_lines (a ++ (d ∷ [])) ≡ before ++ (line ∷ [])
    lines_kept =
        rw (← k, all_lines-append a (d ∷ []), all_lines-append a (c ∷ []), f)
          (cc (
            append-nil c.lines,
            append-nil (c.lines ++ (line ∷ [])),
            append_assoc (all_lines a) c.lines (line ∷ []),
          ))

add_line-Laid :
    (before : List Text) (s : Reading) (line : Text) (fence : Bool)
    → Laid before s
    → Laid (before ++ (line ∷ [])) (record {
      sections = s.sections;
      current = some (add_line s.current line (suc (length before)));
      in_fence = fence;
    })
unfolding close add_line
add_line-Laid before s line fence h = go s.current refl
  where
    go :
        (o : Option Section)
        → s.current ≡ o
        → Laid (before ++ (line ∷ [])) (record {
          sections = s.sections;
          current = some (add_line o line (suc (length before)));
          in_fence = fence;
        })
    go none e =
        let new : Section = record {
          heading = none;
          lines = line ∷ [];
          start_line = suc (length before);
        } in
        let (k, a) = open_section before s new line h refl refl in
        let same : close s ≡ s.sections = rw (close, e) refl in
        record { lines_kept = rw same at k; adjacent = rw same at a }
    go (some c) e =
        let same : close s ≡ s.sections ++ (c ∷ []) = rw (close, e) refl in
        let (k, a) =
          extend_section before s.sections c (record c { lines = c.lines ++ (line ∷ []) }) line
            (rw same at h.lines_kept) (rw same at h.adjacent) refl refl in
        record { lines_kept = k; adjacent = a }

markdown_line-Laid :
    (before : List Text) (s : Reading) (line : Text)
    → Laid before s
    → Laid (before ++ (line ∷ [])) (markdown_line s line (suc (length before)))
unfolding markdown_line close
markdown_line-Laid before s line h =
    let fence = if is_fence line then not s.in_fence else s.in_fence in
    elim (Option-cases (if fence then none else heading_match line)) [
      | inl e ↦ rw (markdown_line, e) (add_line-Laid before s line fence h)
      | inr (title, e) ↦
          (let new : Section = record {
            heading = some (trim title);
            lines = line ∷ [];
            start_line = suc (length before);
          } in
            let (k, a) = open_section before s new line h refl refl in
            rw (markdown_line, e) (record { lines_kept = k; adjacent = a }))
    ]

read_lines-Laid :
    (before lines : List Text) (s : Reading) (n : ℕ)
    → n ≡ suc (length before)
    → Laid before s
    → Laid (before ++ lines) (read_lines markdown_line s lines n)
unfolding read_lines
read_lines-Laid before [] s n e h = rw (append-nil before) h
read_lines-Laid before (line ∷ lines) s n e h =
    rw (← (append_assoc before (line ∷ []) lines), e)
      (read_lines-Laid (before ++ (line ∷ [])) lines _ _
        (omega (arith, length-append before (line ∷ []))) (markdown_line-Laid before s line h))

-- Together they are the lines.
pub sections_of-adjacent :
    (lines : List Text)
    → (all_lines (sections_of markdown_line lines) ≡ lines)
      × AreAdjacent 1 (sections_of markdown_line lines)
unfolding sections_of close
sections_of-adjacent lines =
    let h = read_lines-Laid [] lines _ 1 refl (record { lines_kept = refl; adjacent = tt }) in
    (h.lines_kept, h.adjacent)
