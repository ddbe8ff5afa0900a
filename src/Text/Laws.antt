-- ===== src/Text/Laws.antt =====
-- Laws of the string methods.
use ydb_qdrant.Prelude.{ℕ, List, [], ◌∷◌, ◌++◌, true, ◌≡◌, ◌≢◌, ◌↔◌, refl, ap, ◌∙◌, arith, All}
use ydb_qdrant.Text.{Text, text_eq, starts_with, split_on, join}

pub text_eq_refl : (s : Text) → text_eq s s ≡ true
text_eq_refl [] = refl
text_eq_refl (x ∷ xs) = ground (arith, text_eq_refl xs)

pub text_eq_sound : (s t : Text) → text_eq s t ≡ true → s ≡ t
text_eq_sound [] [] h = refl
text_eq_sound [] (y ∷ ys) h = cc
text_eq_sound (x ∷ xs) [] h = cc
text_eq_sound (x ∷ xs) (y ∷ ys) h = ground (arith, text_eq_sound xs ys)

pub text_eq_iff : (s t : Text) → (text_eq s t ≡ true) ↔ (s ≡ t)
text_eq_iff s t = (text_eq_sound s t, λ e. rw e (text_eq_refl t))

pub text_eq_comm : (s t : Text) → text_eq s t ≡ text_eq t s
text_eq_comm [] [] = refl
text_eq_comm [] (y ∷ ys) = refl
text_eq_comm (x ∷ xs) [] = refl
text_eq_comm (x ∷ xs) (y ∷ ys) = ground (arith, text_eq_comm xs ys)

pub starts_with_append : (p s : Text) → starts_with p (p ++ s) ≡ true
starts_with_append [] s = refl
starts_with_append (x ∷ xs) s = ground (arith, starts_with_append xs s)

pub starts_with_sound : (p s : Text) → starts_with p s ≡ true → (r : Text) × (s ≡ p ++ r)
starts_with_sound [] s h = (s, refl)
starts_with_sound (x ∷ xs) [] h = cc
starts_with_sound (x ∷ xs) (y ∷ ys) h =
    let (r, e) = starts_with_sound xs ys (ground arith) in (r, ground arith)

-- No code unit of the text is `c`.
abbrev pub Without : ℕ → Text → Type 0
Without c = All (λ x. x ≢ c)

split_on-prefix : (c : ℕ) (p s : Text) → Without c p → split_on c (p ++ c ∷ s) ≡ p ∷ split_on c s
unfolding split_on
split_on-prefix c [] s h = ground arith
split_on-prefix c (x ∷ xs) s (n, h) = ground (arith, split_on-prefix c xs s h)

split_on-Without : (c : ℕ) (p : Text) → Without c p → split_on c p ≡ p ∷ []
unfolding split_on
split_on-Without c [] h = refl
split_on-Without c (x ∷ xs) (n, h) = ground (arith, split_on-Without c xs h)

-- Splitting what was joined gives back the parts, if there is one and none holds the separator.
pub split_on-join :
    (c : ℕ) (p : Text) (ps : List Text)
    → All (Without c) (p ∷ ps)
    → split_on c (join (c ∷ []) (p ∷ ps)) ≡ p ∷ ps
unfolding join
split_on-join c p [] (h, _) = split_on-Without c p h
split_on-join c p (q ∷ ps) (h, hs) =
    split_on-prefix c p (join (c ∷ []) (q ∷ ps)) h
    ∙ ap (λ (r : List Text). p ∷ r) (split_on-join c q ps hs)
