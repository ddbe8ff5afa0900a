-- ===== src/Text/Decimal.antt =====
-- `String(n)` on a non-negative integer, as template literals use it.
use ydb_qdrant.Prelude.{
  ℕ, zero, suc, ◌+◌, ◌-◌, ◌*◌, ◌/◌, ◌%◌, ◌<◌, [], ◌∷◌, ◌++◌, ltb, if◌then◌else◌, ◌≡◌, refl, ap, sym,
  ◌∙◌, arith, All, All-append, Bool-cases, inl, inr, ◌≢◌,
}
use ydb_qdrant.Text.{Text}

-- One digit for each unit of fuel; `n` has fewer than `n + 1` digits.
digits : ℕ → ℕ → Text
digits zero n = []
digits (suc f) n =
    let high = digits f (n / 10) in if ltb n 10 then (48 + n) ∷ [] else high ++ (48 + n % 10) ∷ []

unfoldable pub decimal : ℕ → Text
unfolding digits
decimal n = digits (suc n) n

-- The number that a row of digits stands for.
abbrev value_from : ℕ → Text → ℕ
value_from acc [] = acc
value_from acc (c ∷ cs) = value_from (10 * acc + (c - 48)) cs

value_from-append :
    (acc : ℕ) (s t : Text) → value_from acc (s ++ t) ≡ value_from (value_from acc s) t
value_from-append acc [] t = refl
value_from-append acc (c ∷ cs) t = value_from-append (10 * acc + (c - 48)) cs t

value-digits : (f n : ℕ) → n < f → value_from 0 (digits f n) ≡ n
unfolding digits
value-digits zero n h = elim h [ ]
value-digits (suc f) n h =
    ground
      (arith, value-digits f (n / 10), value_from-append 0 (digits f (n / 10)) ((48 + n % 10) ∷ []))

value-decimal : (n : ℕ) → value_from 0 (decimal n) ≡ n
unfolding decimal
value-decimal n = value-digits (suc n) n (omega arith)

pub decimal_injective : (m n : ℕ) → decimal m ≡ decimal n → m ≡ n
decimal_injective m n e = sym (value-decimal m) ∙ ap (value_from 0) e ∙ value-decimal n

abbrev pub IsDigit : ℕ → Type 0
IsDigit c = (47 < c) × (c < 58)

digits-All : (f n : ℕ) → All IsDigit (digits f n)
unfolding digits
digits-All zero n = tt
digits-All (suc f) n = ground (
  arith,
  digits-All f (n / 10),
  All-append IsDigit (digits f (n / 10)) ((48 + n % 10) ∷ []) (digits-All f (n / 10))
      ((omega arith, omega arith), tt),
)

-- A number is written in digits alone.
pub decimal-All : (n : ℕ) → All IsDigit (decimal n)
unfolding decimal
decimal-All n = digits-All (suc n) n

decimal_nonempty : (n : ℕ) → decimal n ≢ []
unfolding decimal digits
decimal_nonempty n e = elim (Bool-cases (ltb n 10)) [
  | inl h ↦ absurd (cons-nonempty (48 + n) [] (rw h at e))
  | inr h ↦ absurd (end-nonempty (digits n (n / 10)) (48 + n % 10) (rw h at e))
]
  where
    cons-nonempty : (x : ℕ) (s : Text) → (x ∷ s) ≢ []
    cons-nonempty x s e = cc

    end-nonempty : (s : Text) (x : ℕ) → (s ++ (x ∷ [])) ≢ []
    end-nonempty [] x e = cc
    end-nonempty (y ∷ ys) x e = cc

-- A number starts and ends with a digit.
pub decimal-cons : (n : ℕ) → (x : ℕ) × (xs : Text) × (decimal n ≡ x ∷ xs)
decimal-cons n = go (decimal n) (decimal_nonempty n)
  where
    go : (s : Text) → s ≢ [] → (x : ℕ) × (xs : Text) × (s ≡ x ∷ xs)
    go [] e = absurd (e refl)
    go (x ∷ xs) e = (x, xs, refl)

-- Two rows of digits before the same code unit, which is not a digit, end at the same place.
digits-terminated :
    (a b : Text) (c : ℕ) (s t : Text)
    → All IsDigit a
    → All IsDigit b
    → ¬ IsDigit c
    → (a ++ c ∷ s) ≡ (b ++ c ∷ t)
    → (a ≡ b) × (s ≡ t)
digits-terminated [] [] c s t h k n e = (refl, cc)
digits-terminated [] (y ∷ ys) c s t h (d, k) n e = let same : c ≡ y = cc in absurd (n (rw same d))
digits-terminated (x ∷ xs) [] c s t (d, h) k n e = let same : c ≡ x = cc in absurd (n (rw same d))
digits-terminated (x ∷ xs) (y ∷ ys) c s t (d, h) (f, k) n e =
    let (p, q) = digits-terminated xs ys c s t h k n cc in (cc, q)

pub decimal-terminated :
    (m n c : ℕ) (s t : Text)
    → ¬ IsDigit c
    → (decimal m ++ c ∷ s) ≡ (decimal n ++ c ∷ t)
    → (m ≡ n) × (s ≡ t)
decimal-terminated m n c s t d e =
    let (p, q) =
      digits-terminated (decimal m) (decimal n) c s t (decimal-All m) (decimal-All n) d e in
    (decimal_injective m n p, q)
