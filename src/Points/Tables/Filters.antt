-- ===== src/Points/Tables/Filters.antt =====
-- Laws of `filter`, `any` and `take` that a deletion in rounds rests on.
use ydb_qdrant.Prelude.{
  ℕ, zero, suc, ◌≤◌, List, [], ◌∷◌, Bool, true, false, not, ◌&&◌, ◌||◌, ◌≡◌, inl, inr, refl, ap,
  sym, arith, filter, any, take, length, Bool-cases,
}

pub both : (a b : Bool) → (a ≡ true → b ≡ true) → (b ≡ true → a ≡ true) → a ≡ b
both true b f g = sym (f refl)
both false true f g = g refl
both false false f g = refl

pub either :
    (a b c : Bool) → (a ≡ true → c ≡ true) → (b ≡ true → c ≡ true) → (a || b) ≡ true → c ≡ true
either true b c f g h = f refl
either false b c f g h = g h

pub not-or : (a b : Bool) → (not a && not b) ≡ not (a || b)
not-or true b = refl
not-or false b = refl

module _ {A : Type 0} where
  pub filter-filter :
      (p q : A → Bool) (xs : List A) → filter p (filter q xs) ≡ filter (λ x. q x && p x) xs
  filter-filter p q [] = refl
  filter-filter p q (x ∷ xs) = ground (arith, filter-filter p q xs)

  pub filter-ext :
      (p q : A → Bool) → ((x : A) → p x ≡ q x) → (xs : List A) → filter p xs ≡ filter q xs
  filter-ext p q e [] = refl
  filter-ext p q e (x ∷ xs) = rw (e x, filter-ext p q e xs) refl

  pub any-filter : (s h : A → Bool) (xs : List A) → any s (filter h xs) ≡ any (λ x. h x && s x) xs
  any-filter s h [] = refl
  any-filter s h (x ∷ xs) = ground (arith, any-filter s h xs)

  pub any-take : (s : A → Bool) (n : ℕ) (xs : List A) → any s (take n xs) ≡ true → any s xs ≡ true
  any-take s zero xs h = cc
  any-take s (suc n) [] h = cc
  any-take s (suc n) (x ∷ xs) h = ground (arith, any-take s n xs)

  pub length-filter : (p : A → Bool) (xs : List A) → length (filter p xs) ≤ length xs
  length-filter p [] = omega arith
  length-filter p (x ∷ xs) = ground (arith, length-filter p xs)

  pub nil_of_length : (xs : List A) → length xs ≡ 0 → xs ≡ []
  nil_of_length [] e = refl
  nil_of_length (x ∷ xs) e = absurd (omega arith)

  pub no_hits : (p : A → Bool) (xs : List A) → filter p xs ≡ [] → filter (λ x. not (p x)) xs ≡ xs
  no_hits p [] e = refl
  no_hits p (x ∷ xs) e = elim (Bool-cases (p x)) [
    | inl h ↦
        (let clash : x ∷ filter p xs ≡ [] = rw h at e in absurd (omega (arith, ap length clash)))
    | inr h ↦ rw h (ap (λ (r : List A). x ∷ r) (no_hits p xs (rw h at e)))
  ]

  -- A test of the rows that are taken, or of those that stay.
  pub any-split :
      (s out : A → Bool) (d : Bool) (xs : List A)
      → ((x : A) → out x ≡ true → s x ≡ true → d ≡ true)
      → any s xs ≡ true
      → (d || any s (filter (λ x. not (out x)) xs)) ≡ true
  any-split s out d [] f h = cc
  any-split s out d (x ∷ xs) f h = ground (arith, any-split s out d xs f, f x)

  pub any-kept : (s q : A → Bool) (xs : List A) → any s (filter q xs) ≡ true → any s xs ≡ true
  any-kept s q [] h = h
  any-kept s q (x ∷ xs) h = ground (arith, any-kept s q xs)
