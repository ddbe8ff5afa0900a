-- ===== src/Text/Ink.antt =====
-- What `trim`, `join` and `split` keep of a text: its ink, the code units that are not white space, and
-- the line feeds.
use mathlib.Core.List.{reverse, reverse_aux}
use ydb_qdrant.Prelude.{
  ℕ, zero, suc, ◌+◌, ◌≤◌, List, [], ◌∷◌, ◌++◌, Bool, true, not, ◌||◌, ◌≡◌, refl, arith, any, length,
  take, drop,
}
use ydb_qdrant.Text.{Text, is_space, is_empty, drop_while, trim, join}

abbrev pub has_ink : Text → Bool
has_ink = any (λ c. not (is_space c))

pub any-append : {A : Type 0} (q : A → Bool) (s t : List A) → any q (s ++ t) ≡ (any q s || any q t)
any-append q [] t = refl
any-append q (x ∷ xs) t = ground (arith, any-append q xs t)

any-reverse_aux : (q : ℕ → Bool) (s acc : Text) → any q (reverse_aux s acc) ≡ (any q s || any q acc)
any-reverse_aux q [] acc = refl
any-reverse_aux q (x ∷ xs) acc = ground (arith, any-reverse_aux q xs (x ∷ acc))

any-reverse : (q : ℕ → Bool) (s : Text) → any q (reverse s) ≡ any q s
any-reverse q s = ground (arith, any-reverse_aux q s [])

any-drop_while :
    (p : ℕ → Bool) (s : Text) → any (λ c. not (p c)) (drop_while p s) ≡ any (λ c. not (p c)) s
any-drop_while p [] = refl
any-drop_while p (x ∷ xs) = ground (arith, any-drop_while p xs)

is_empty-drop_while :
    (p : ℕ → Bool) (s : Text) → is_empty (drop_while p s) ≡ not (any (λ c. not (p c)) s)
is_empty-drop_while p [] = refl
is_empty-drop_while p (x ∷ xs) = ground (arith, is_empty-drop_while p xs)

is_empty-any : (s : Text) → is_empty s ≡ not (any (λ _. true) s)
is_empty-any [] = refl
is_empty-any (x ∷ xs) = refl

is_empty-reverse : (s : Text) → is_empty (reverse s) ≡ is_empty s
is_empty-reverse s = rw (is_empty-any (reverse s), is_empty-any s, any-reverse (λ _. true) s) refl

-- Trimming leaves nothing exactly of a text without ink.
pub is_empty-trim : (s : Text) → is_empty (trim s) ≡ not (has_ink s)
unfolding trim
is_empty-trim s =
    rw
      (
        is_empty-reverse (drop_while is_space (reverse (drop_while is_space s))),
        is_empty-drop_while is_space (reverse (drop_while is_space s)),
        any-reverse (λ c. not (is_space c)) (drop_while is_space s),
        any-drop_while is_space s,
      )
      refl

-- A measure of texts that no dropped code unit raises.
module _ (weight : ℕ → ℕ) where
  abbrev pub total : Text → ℕ
  total [] = 0
  total (x ∷ xs) = weight x + total xs

  pub total-append : (s t : Text) → total (s ++ t) ≡ total s + total t
  total-append [] t = omega arith
  total-append (x ∷ xs) t = omega (arith, total-append xs t)

  total-reverse_aux : (s acc : Text) → total (reverse_aux s acc) ≡ total s + total acc
  total-reverse_aux [] acc = omega arith
  total-reverse_aux (x ∷ xs) acc = omega (arith, total-reverse_aux xs (x ∷ acc))

  total-drop_while : (p : ℕ → Bool) (s : Text) → total (drop_while p s) ≤ total s
  total-drop_while p [] = omega arith
  total-drop_while p (x ∷ xs) = ground (arith, total-drop_while p xs)

  pub total-trim : (s : Text) → total (trim s) ≤ total s
  unfolding trim
  total-trim s =
      let once = drop_while is_space s in
      let twice = drop_while is_space (reverse once) in
      omega (
        arith,
        total-drop_while is_space s,
        total-drop_while is_space (reverse once),
        total-reverse_aux once [],
        total-reverse_aux twice [],
      )

length-total : (s : Text) → total (λ _. 1) s ≡ length s
length-total [] = refl
length-total (x ∷ xs) = omega (arith, length-total xs)

pub length-trim : (s : Text) → length (trim s) ≤ length s
length-trim s = omega (arith, total-trim (λ _. 1) s, length-total s, length-total (trim s))

-- The parts of a text that is cut in two share its ink.
pub any-take-drop :
    {A : Type 0} (q : A → Bool) (n : ℕ) (s : List A)
    → (any q (take n s) || any q (drop n s)) ≡ any q s
any-take-drop q zero s = refl
any-take-drop q (suc n) [] = refl
any-take-drop q (suc n) (x ∷ xs) = ground (arith, any-take-drop q n xs)

-- A separator of white space adds no ink.
pub has_ink-join :
    (c : ℕ) (ps : List Text) → is_space c ≡ true → has_ink (join (c ∷ []) ps) ≡ any has_ink ps
unfolding join
has_ink-join c [] e = refl
has_ink-join c (p ∷ []) e = ground arith
has_ink-join c (p ∷ q ∷ ps) e = ground (
  arith,
  any-append (λ x. not (is_space x)) p (c ∷ join (c ∷ []) (q ∷ ps)),
  has_ink-join c (q ∷ ps) e,
)
