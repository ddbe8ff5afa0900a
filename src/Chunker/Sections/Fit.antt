-- ===== src/Chunker/Sections/Fit.antt =====
-- The sections of a file have lines within the file.
use ydb_qdrant.Prelude.{
  ℕ, ◌+◌, ◌≤◌, List, [], ◌∷◌, ◌++◌, not, ◌≡◌, refl, inl, inr, arith, Bool-cases, Option, none, some,
  Option-cases, if◌then◌else◌, length, length-append, All, All-append, All-imp,
}
use ydb_qdrant.Text.{Text, is_empty, trim}
use ydb_qdrant.Text.Laws.{Without}
use ydb_qdrant.Chunker.{lf}
use ydb_qdrant.Chunker.Sections.{
  Section, Reading, is_fence, heading_match, close, add_line, markdown_line, paragraph_line,
  read_lines, sections_of,
}

-- A section of lines that were read before the line `n`.
pub record Fits (n : ℕ) (section : Section) : Type 0 where
  pub first : 1 ≤ section.start_line
  pub some_line : 1 ≤ length section.lines
  pub last_line : section.start_line + length section.lines ≤ n
  pub no_feeds : All (Without lf) section.lines

Fits-later : (n : ℕ) (section : Section) → Fits n section → Fits (n + 1) section
Fits-later n section f = record {
  first = f.first;
  some_line = f.some_line;
  last_line = omega (arith, f.last_line);
  no_feeds = f.no_feeds;
}

Fits-new :
    (n : ℕ) (title : Option Text) (line : Text)
    → 1 ≤ n
    → Without lf line
    → Fits (n + 1) (record { heading = title; lines = line ∷ []; start_line = n })
Fits-new n title line h w = record {
  first = h;
  some_line = omega arith;
  last_line = omega arith;
  no_feeds = (w, tt);
}

Fits-extended :
    (n : ℕ) (c : Section) (line : Text)
    → Fits n c
    → Without lf line
    → Fits (n + 1) (record c { lines = c.lines ++ (line ∷ []) })
Fits-extended n c line f w = record {
  first = f.first;
  some_line = omega (arith, length-append c.lines (line ∷ []), f.some_line);
  last_line = omega (arith, length-append c.lines (line ∷ []), f.last_line);
  no_feeds = All-append (Without lf) c.lines (line ∷ []) f.no_feeds (w, tt);
}

All-split : {A : Type 0} (P : A → Type 0) (xs ys : List A) → All P (xs ++ ys) → All P xs × All P ys
All-split P [] ys h = (tt, h)
All-split P (x ∷ xs) ys (p, h) = let (a, b) = All-split P xs ys h in ((p, a), b)

-- What either loop keeps, for a round that it may have.
abbrev pub KeepsFit : (Reading → Text → ℕ → Reading) → Type 0
KeepsFit round =
    (s : Reading) (line : Text) (n : ℕ)
    → 1 ≤ n
    → Without lf line
    → All (Fits n) (close s)
    → All (Fits (n + 1)) (close (round s line n))

close-add_line-Fits :
    (s : Reading) (line : Text) (n : ℕ)
    → 1 ≤ n
    → Without lf line
    → All (Fits n) (close s)
    → All (Fits (n + 1)) (s.sections ++ (add_line s.current line n ∷ []))
unfolding close add_line
close-add_line-Fits s line n h w f = elim (Option-cases s.current) [
  | inl e ↦ rw e (
      All-append (Fits (n + 1)) s.sections _
        (All-imp (Fits-later n) s.sections (rw (close, e) at f)) (Fits-new n none line h w, tt))
  | inr (c, e) ↦
      (let both = All-split (Fits n) s.sections (c ∷ []) (rw (close, e) at f) in
        rw e (
          All-append (Fits (n + 1)) s.sections _ (All-imp (Fits-later n) s.sections both.0)
            (Fits-extended n c line both.1.0 w, tt)))
]

pub markdown_line-Fits : KeepsFit markdown_line
unfolding markdown_line close
markdown_line-Fits s line n h w f =
    let fence = if is_fence line then not s.in_fence else s.in_fence in
    elim (Option-cases (if fence then none else heading_match line)) [
      | inl e ↦ rw (markdown_line, e) (close-add_line-Fits s line n h w f)
      | inr (title, e) ↦
          rw (markdown_line, e)
            (All-append (Fits (n + 1)) (close s) _ (All-imp (Fits-later n) (close s) f)
              (Fits-new n (some (trim title)) line h w, tt))
    ]

pub paragraph_line-Fits : KeepsFit paragraph_line
unfolding paragraph_line close
paragraph_line-Fits s line n h w f = elim (Bool-cases (is_empty (trim line))) [
  | inl e ↦ rw (paragraph_line, e) (All-imp (Fits-later n) (close s) f)
  | inr e ↦ rw (paragraph_line, e) (close-add_line-Fits s line n h w f)
]

read_lines-Fits :
    (round : Reading → Text → ℕ → Reading) (s : Reading) (lines : List Text) (n m : ℕ)
    → KeepsFit round
    → m ≡ n + length lines
    → 1 ≤ n
    → All (Without lf) lines
    → All (Fits n) (close s)
    → All (Fits m) (close (read_lines round s lines n))
unfolding read_lines
read_lines-Fits round s [] n m k e h w f = let same : m ≡ n = omega arith in rw same f
read_lines-Fits round s (line ∷ lines) n m k e h (w, ws) f =
    read_lines-Fits round (round s line n) lines (n + 1) m k (omega arith) (omega arith) ws
      (k s line n h w f)

pub sections_of-Fits :
    (round : Reading → Text → ℕ → Reading) (lines : List Text)
    → KeepsFit round
    → All (Without lf) lines
    → All (Fits (1 + length lines)) (sections_of round lines)
unfolding sections_of close
sections_of-Fits round lines k w =
    read_lines-Fits round _ lines 1 (1 + length lines) k refl (omega arith) w tt
