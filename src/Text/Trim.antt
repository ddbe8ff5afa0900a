-- ===== src/Text/Trim.antt =====
-- Laws of `trim`.
use mathlib.Core.List.{reverse, reverse_aux, reverse-cons, reverse-reverse}
use ydb_qdrant.Prelude.{
  ℕ, [], ◌∷◌, ◌++◌, Bool, false, ◌≡◌, refl, ap, ◌∙◌, ◌⊎◌, inl, inr, arith, Bool-cases,
}
use ydb_qdrant.Text.{Text, is_space, drop_while, trim}

-- What is left starts with a code unit that is kept.
drop_while-cases :
    (p : ℕ → Bool) (s : Text)
    → (drop_while p s ≡ []) ⊎ ((x : ℕ) × (xs : Text) × (drop_while p s ≡ x ∷ xs) × (p x ≡ false))
drop_while-cases p [] = inl refl
drop_while-cases p (x ∷ xs) = elim (Bool-cases (p x)) [
  | inl e ↦ rw e (drop_while-cases p xs)
  | inr e ↦ rw e (inr (x, xs, refl, e))
]

drop_while-kept : (p : ℕ → Bool) (x : ℕ) (xs : Text) → p x ≡ false → drop_while p (x ∷ xs) ≡ x ∷ xs
drop_while-kept p x xs e = rw e refl

drop_while-twice : (p : ℕ → Bool) (s : Text) → drop_while p (drop_while p s) ≡ drop_while p s
drop_while-twice p s = elim (drop_while-cases p s) [
  | inl e ↦ rw e refl
  | inr (x, xs, e, f) ↦ rw e (drop_while-kept p x xs f)
]

-- A kept code unit at the end stays there.
drop_while-end :
    (p : ℕ → Bool) (x : ℕ) (s : Text)
    → p x ≡ false
    → drop_while p (s ++ (x ∷ [])) ≡ drop_while p s ++ (x ∷ [])
drop_while-end p x [] e = drop_while-kept p x [] e
drop_while-end p x (y ∷ ys) e = ground (arith, drop_while-end p x ys e)

reverse_aux-end : (x : ℕ) (s acc : Text) → reverse_aux (s ++ (x ∷ [])) acc ≡ x ∷ reverse_aux s acc
reverse_aux-end x [] acc = refl
reverse_aux-end x (y ∷ ys) acc = reverse_aux-end x ys (y ∷ acc)

-- `replace(/\s+$/, "")` for the spaces that `p` tests for
strip_end : (ℕ → Bool) → Text → Text
strip_end p s = reverse (drop_while p (reverse s))

strip_end-kept :
    (p : ℕ → Bool) (x : ℕ) (xs : Text) → p x ≡ false → strip_end p (x ∷ xs) ≡ x ∷ strip_end p xs
unfolding strip_end
strip_end-kept p x xs e =
    rw (reverse-cons x xs, drop_while-end p x (reverse xs) e)
      (reverse_aux-end x (drop_while p (reverse xs)) [])

strip_end-twice : (p : ℕ → Bool) (s : Text) → strip_end p (strip_end p s) ≡ strip_end p s
unfolding strip_end
strip_end-twice p s =
    ap (λ (t : Text). reverse (drop_while p t)) (reverse-reverse (drop_while p (reverse s)))
    ∙ ap (λ (t : Text). reverse t) (drop_while-twice p (reverse s))

strip-nothing : (p : ℕ → Bool) → strip_end p (drop_while p (strip_end p [])) ≡ strip_end p []
unfolding strip_end
strip-nothing p = refl

strip-twice :
    (p : ℕ → Bool) (s : Text)
    → strip_end p (drop_while p (strip_end p (drop_while p s))) ≡ strip_end p (drop_while p s)
strip-twice p s = elim (drop_while-cases p s) [
  | inl e ↦ rw e (strip-nothing p)
  | inr (x, xs, e, f) ↦
      rw
        (
          e,
          strip_end-kept p x xs f,
          drop_while-kept p x (strip_end p xs) f,
          strip_end-kept p x (strip_end p xs) f,
          strip_end-twice p xs,
        )
        refl
]

pub trim-trim : (s : Text) → trim (trim s) ≡ trim s
unfolding trim strip_end
trim-trim s = strip-twice is_space s
