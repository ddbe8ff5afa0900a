-- ===== src/Chunker/Files/Patterns.antt =====
-- What the text of a path pattern describes, and that patternToRegExp of src/code-indexer/chunker.ts
-- compiles it to just that.
use mathlib.Core.Path.{subst}
use ydb_qdrant.Prelude.{
  ℕ, [], ◌∷◌, ◌++◌, true, false, ◌==◌, ◌≡◌, ◌≢◌, ◌↔◌, ◌⊎◌, refl, ap, sym, inl, inr, arith, ◌∙◌,
  Bool-cases, All,
}
use ydb_qdrant.Text.{Text}
use ydb_qdrant.Chunker.Files.{
  Piece, folders, rest_of_path, name_part, name_unit, literal, is_dot, is_name, piece_at,
  pieces_from, pattern_to_reg_exp,
}
use ydb_qdrant.Chunker.Files.Glob.{Matches}

abbrev pub BeginsNot : ℕ → Text → Type 0
BeginsNot c [] = Unit
BeginsNot c (x ∷ xs) = x ≢ c

-- What `.` of a regular expression leaves out.
abbrev pub IsInLine : ℕ → Type 0
IsInLine c = (c ≢ 10) × (c ≢ 13) × (c ≢ 0x2028) × (c ≢ 0x2029)

-- A text that a pattern describes. One star is a row of units of a name, two stars are a row of any
-- units of a line, and with a slash behind them no folder or any number of folders.
pub data Describes : Text → Text → Type 0 where
  finished : Describes [] []
  itself : {x : ℕ} {p s : Text} → x ≢ b'*' → x ≢ b'?' → Describes p s → Describes (x ∷ p) (x ∷ s)
  one_unit : {c : ℕ} {p s : Text} → c ≢ b'/' → Describes p s → Describes (b'?' ∷ p) (c ∷ s)
  row_of_name :
      {p s t : Text} (row : Text)
      → BeginsNot b'*' p
      → All (λ c. c ≢ b'/') row
      → t ≡ row ++ s
      → Describes p s
      → Describes (b'*' ∷ p) t
  row_of_path :
      {p s t : Text} (row : Text)
      → BeginsNot b'/' p
      → All IsInLine row
      → t ≡ row ++ s
      → Describes p s
      → Describes (b'*' ∷ b'*' ∷ p) t
  no_folder : {p s : Text} → Describes p s → Describes (b'*' ∷ b'*' ∷ b'/' ∷ p) s
  some_folders :
      {p s t : Text} (row : Text)
      → All IsInLine row
      → t ≡ row ++ b'/' ∷ s
      → Describes p s
      → Describes (b'*' ∷ b'*' ∷ b'/' ∷ p) t

-- How a pattern is read from its left end.
data Parsed : Text → Type 0 where
  done : Parsed []
  plain : {x : ℕ} {p : Text} → x ≢ b'*' → x ≢ b'?' → Parsed p → Parsed (x ∷ p)
  mark : {p : Text} → Parsed p → Parsed (b'?' ∷ p)
  star : {p : Text} → BeginsNot b'*' p → Parsed p → Parsed (b'*' ∷ p)
  two_stars : {p : Text} → BeginsNot b'/' p → Parsed p → Parsed (b'*' ∷ b'*' ∷ p)
  stars_and_slash : {p : Text} → Parsed p → Parsed (b'*' ∷ b'*' ∷ b'/' ∷ p)

same_or_not : (x c : ℕ) → (x ≡ c) ⊎ (x ≢ c)
same_or_not x c = elim (Bool-cases (x == c)) [
  | inl e ↦ inl (ground arith)
  | inr e ↦ inr (ground arith)
]

no_star : (x : ℕ) (p : Text) → x ≢ b'*' → Parsed p → Parsed (x ∷ p)
no_star x p n k = elim (same_or_not x b'?') [
  | inl e ↦ subst (λ c. Parsed (c ∷ p)) (sym e) (mark k)
  | inr m ↦ plain n m k
]

parse : (p : Text) → Parsed p
parse [] = done
parse (x ∷ []) = elim (same_or_not x b'*') [
  | inl e ↦ subst (λ c. Parsed (c ∷ [])) (sym e) (star tt done)
  | inr n ↦ no_star x [] n done
]
parse (x ∷ y ∷ []) = elim (same_or_not x b'*') [
  | inr n ↦ no_star x (y ∷ []) n (parse (y ∷ []))
  | inl e ↦
      subst (λ c. Parsed (c ∷ y ∷ [])) (sym e)
        (elim (same_or_not y b'*') [
          | inl f ↦ subst (λ c. Parsed (b'*' ∷ c ∷ [])) (sym f) (two_stars tt done)
          | inr n ↦ star n (parse (y ∷ []))
        ])
]
parse (x ∷ y ∷ z ∷ p) = elim (same_or_not x b'*') [
  | inr n ↦ no_star x (y ∷ z ∷ p) n (parse (y ∷ z ∷ p))
  | inl e ↦
      subst (λ c. Parsed (c ∷ y ∷ z ∷ p)) (sym e)
        (elim (same_or_not y b'*') [
          | inr n ↦ star n (parse (y ∷ z ∷ p))
          | inl f ↦
              subst (λ c. Parsed (b'*' ∷ c ∷ z ∷ p)) (sym f)
                (elim (same_or_not z b'/') [
                  | inl g ↦
                      subst (λ c. Parsed (b'*' ∷ b'*' ∷ c ∷ p)) (sym g) (stars_and_slash (parse p))
                  | inr n ↦ two_stars n (parse (z ∷ p))
                ])
        ])
]

-- The pieces that each of these ways of reading gives.
pieces-plain :
    (x : ℕ) (p : Text) → x ≢ b'*' → x ≢ b'?' → pieces_from 0 (x ∷ p) ≡ literal x ∷ pieces_from 0 p
unfolding pieces_from piece_at
pieces-plain x p n m =
    let a : (x == b'*') ≡ false = ground arith in
    let b : (x == b'?') ≡ false = ground arith in rw (pieces_from, a, b) refl

piece_at-star : (p : Text) → BeginsNot b'*' p → piece_at b'*' p ≡ (name_part, 0)
unfolding piece_at
piece_at-star [] n = refl
piece_at-star (y ∷ p) n = let a : (y == b'*') ≡ false = ground arith in rw (piece_at, a) refl

pieces-star : (p : Text) → BeginsNot b'*' p → pieces_from 0 (b'*' ∷ p) ≡ name_part ∷ pieces_from 0 p
unfolding pieces_from
pieces-star p n = ap (λ (r : Piece × ℕ). r.0 ∷ pieces_from (r.1) p) (piece_at-star p n)

piece_at-two_stars : (p : Text) → BeginsNot b'/' p → piece_at b'*' (b'*' ∷ p) ≡ (rest_of_path, 1)
unfolding piece_at
piece_at-two_stars [] n = refl
piece_at-two_stars (z ∷ p) n = let a : (b'/' == z) ≡ false = ground arith in rw (piece_at, a) refl

pieces-two_stars :
    (p : Text) → BeginsNot b'/' p → pieces_from 0 (b'*' ∷ b'*' ∷ p) ≡ rest_of_path ∷ pieces_from 0 p
unfolding pieces_from
pieces-two_stars p n =
    ap (λ (r : Piece × ℕ). r.0 ∷ pieces_from (r.1) (b'*' ∷ p)) (piece_at-two_stars p n)

pieces-mark : (p : Text) → pieces_from 0 (b'?' ∷ p) ≡ name_unit ∷ pieces_from 0 p
unfolding pieces_from piece_at
pieces-mark p = refl

pieces-folders : (p : Text) → pieces_from 0 (b'*' ∷ b'*' ∷ b'/' ∷ p) ≡ folders ∷ pieces_from 0 p
unfolding pieces_from piece_at
pieces-folders p = refl

names : (row : Text) → All (λ c. is_name c ≡ true) row ↔ All (λ c. c ≢ b'/') row
names [] = (λ h. tt, λ h. tt)
names (x ∷ row) =
    let (a, b) = names row in (λ (h, k). (ground arith, a k), λ (h, k). (ground arith, b k))

in_line : (c : ℕ) → (is_dot c ≡ true) ↔ IsInLine c
in_line c = ground arith

lines : (row : Text) → All (λ c. is_dot c ≡ true) row ↔ All IsInLine row
lines [] = (λ h. tt, λ h. tt)
lines (x ∷ row) =
    let (a, b) = lines row in let (c, d) = in_line x in (λ (h, k). (c h, a k), λ (h, k). (d h, b k))

-- What the pieces match is described.
sound : {p : Text} → Parsed p → (s : Text) → Matches (pieces_from 0 p) s → Describes p s
unfolding pieces_from
sound done [] e = finished
sound done (x ∷ s) e = cc
sound (plain {x} {p} n m k) s h =
    let (y, rest, e, same, inner) = rw (pieces-plain x p n m) at h in
    subst (λ t. Describes (x ∷ p) t) (sym (e ∙ ap (λ c. c ∷ rest) same))
      (itself n m (sound k rest inner))
sound (mark {p} k) s h =
    let (y, rest, e, other, inner) = rw (pieces-mark p) at h in
    subst (λ t. Describes (b'?' ∷ p) t) (sym e) (one_unit (ground arith) (sound k rest inner))
sound (star {p} n k) s h =
    let (row, rest, e, passes, inner) = rw (pieces-star p n) at h in
    row_of_name row n ((names row).0 passes) e (sound k rest inner)
sound (two_stars {p} n k) s h =
    let (row, rest, e, passes, inner) = rw (pieces-two_stars p n) at h in
    row_of_path row n ((lines row).0 passes) e (sound k rest inner)
sound (stars_and_slash {p} k) s h = elim (rw (pieces-folders p) at h) [
  | inr inner ↦ no_folder (sound k s inner)
  | inl (row, rest, e, passes, (c, left, f, slash, inner)) ↦
      some_folders row ((lines row).0 passes)
        (e ∙ ap (λ (r : Text). row ++ r) (f ∙ ap (λ d. d ∷ left) slash)) (sound k left inner)
]

complete : {p s : Text} → Describes p s → Matches (pieces_from 0 p) s
unfolding pieces_from
complete finished = refl
complete (itself {x} {p} {s} n m d) = rw (pieces-plain x p n m) (x, s, refl, refl, complete d)
complete (one_unit {c} {p} {s} n d) = rw (pieces-mark p) (c, s, refl, ground arith, complete d)
complete (row_of_name {p} {s} row n others e d) =
    rw (pieces-star p n) (row, s, e, (names row).1 others, complete d)
complete (row_of_path {p} {s} row n others e d) =
    rw (pieces-two_stars p n) (row, s, e, (lines row).1 others, complete d)
complete (no_folder {p} d) = rw (pieces-folders p) (inr (complete d))
complete (some_folders {p} {s} row others e d) =
    rw (pieces-folders p)
      (inl (row, b'/' ∷ s, e, (lines row).1 others, (b'/', s, refl, refl, complete d)))

pub pattern_to_reg_exp_iff : (p s : Text) → Matches (pattern_to_reg_exp p) s ↔ Describes p s
pattern_to_reg_exp_iff p s = (sound (parse p) s, complete)
