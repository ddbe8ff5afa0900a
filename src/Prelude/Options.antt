-- ===== src/Prelude/Options.antt =====
-- Chains of early returns: `none` is the `return` that gives up.
use mathlib.Core.Path.{◌≡◌, refl}
use mathlib.Core.Bool.{Bool, true, false}
use mathlib.Core.Option.{Option, none, some}
use mathlib.Core.List.{List, [], ◌∷◌}

abbrev pub guard : Bool → Option (Unit {0})
guard go_on = elim go_on [ false ↦ none | true ↦ some tt ]

-- The next step of a chain, under a name for files that chain results too.
abbrev pub and_then {ℓ κ} : {A : Type ℓ} {B : Type κ} → Option A → (A → Option B) → Option B
and_then (some a) next = next a
and_then none next = none

-- The same two, as the operators that a `do` block stands for.
infixl 5 ◌>>=◌ ◌>>◌
abbrev pub ◌>>=◌ {ℓ κ} : {A : Type ℓ} {B : Type κ} → Option A → (A → Option B) → Option B
o >>= next = and_then o next

abbrev pub ◌>>◌ {ℓ} : {B : Type ℓ} → Option (Unit {0}) → Option B → Option B
o >> next = and_then o (λ _. next)

pub >>=-eq-some {ℓ κ} :
    {A : Type ℓ} {B : Type κ} (m : Option A) (f : A → Option B) {b : B}
    → (m >>= f) ≡ some b
    → (a : A) × (m ≡ some a) × (f a ≡ some b)
>>=-eq-some none f h = cc
>>=-eq-some (some a) f h = (a, refl, h)

-- What follows a test that lets the chain go on.
pub after_guard {ℓ} :
    {B : Type ℓ} (test : Bool) (k : Option B) {b : B} → (guard test >> k) ≡ some b → k ≡ some b
after_guard true k h = h
after_guard false k h = cc

-- `[]` or a list of one element.
abbrev pub to_list {ℓ} : {A : Type ℓ} → Option A → List A
to_list none = []
to_list (some a) = a ∷ []

-- `xs.filter(x => x !== null)`
abbrev pub cat_some {ℓ} : {A : Type ℓ} → List (Option A) → List A
cat_some [] = []
cat_some (none ∷ os) = cat_some os
cat_some (some a ∷ os) = a ∷ cat_some os
