-- ===== src/Chunker/Sections/Feeds.antt =====
-- The lines of a text, counted by its line feeds.
use ydb_qdrant.Prelude.{
  ℕ, suc, ◌≤◌, List, [], ◌∷◌, ◌==◌, ◌≡◌, ◌≢◌, refl, arith, if◌then◌else◌, length, All,
}
use ydb_qdrant.Text.{Text, join, push_head}
use ydb_qdrant.Text.Laws.{Without}
use ydb_qdrant.Text.Ink.{total, total-append, total-trim}
use ydb_qdrant.Chunker.{lf, split_lines}
use ydb_qdrant.Chunker.Windows.{joined_text}

-- Line feeds, counted.
abbrev feeds : Text → ℕ
feeds = total (λ c. if c == lf then 1 else 0)

length-push_head : (x : ℕ) (ps : List Text) → 1 ≤ length ps → length (push_head x ps) ≡ length ps
length-push_head x [] h = absurd (omega arith)
length-push_head x (p ∷ ps) h = refl

-- A text has one line more than it has line feeds.
length-split_lines : (s : Text) → length (split_lines s) ≡ suc (feeds s)
unfolding split_lines
length-split_lines [] = refl
length-split_lines (x ∷ xs) =
    ground (arith, length-split_lines xs, length-push_head x (split_lines xs))

push_head-All :
    (x : ℕ) (ps : List Text) → x ≢ lf → All (Without lf) ps → All (Without lf) (push_head x ps)
push_head-All x [] n h = ((n, tt), tt)
push_head-All x (p ∷ ps) n (q, h) = ((n, q), h)

pub split_lines-Without : (s : Text) → All (Without lf) (split_lines s)
unfolding split_lines
split_lines-Without [] = (tt, tt)
split_lines-Without (x ∷ xs) =
    ground (arith, split_lines-Without xs, push_head-All x (split_lines xs))

feeds_nil : (s : Text) → Without lf s → feeds s ≡ 0
feeds_nil [] h = refl
feeds_nil (x ∷ xs) (n, h) = ground (arith, feeds_nil xs h)

feeds-join :
    (p : Text) (ps : List Text)
    → All (Without lf) (p ∷ ps)
    → feeds (join (lf ∷ []) (p ∷ ps)) ≡ length ps
unfolding join
feeds-join p [] (h, _) = feeds_nil p h
feeds-join p (q ∷ ps) (h, hs) = ground (
  arith,
  total-append (λ c. if c == lf then 1 else 0) p (lf ∷ join (lf ∷ []) (q ∷ ps)),
  feeds_nil p h,
  feeds-join q ps hs,
)

-- The text of a section has no more lines than the section.
pub length-joined_lines :
    (ls : List Text)
    → 1 ≤ length ls
    → All (Without lf) ls
    → length (split_lines (joined_text ls)) ≤ length ls
unfolding joined_text
length-joined_lines [] h w = absurd (omega arith)
length-joined_lines (p ∷ ps) h w = omega (
  arith,
  length-split_lines (joined_text (p ∷ ps)),
  total-trim (λ c. if c == lf then 1 else 0) (join (lf ∷ []) (p ∷ ps)),
  feeds-join p ps w,
)
