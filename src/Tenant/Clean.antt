-- ===== src/Tenant/Clean.antt =====
-- What the sanitisers guarantee of a name.
use ydb_qdrant.Prelude.{
  ℕ, [], ◌∷◌, true, false, ◌&&◌, ◌==◌, map, ◌≡◌, refl, arith, All, Option, get_or,
}
use ydb_qdrant.Text.{Text, codes, is_empty}
use ydb_qdrant.Tenant.{
  underscore, is_word, is_ident, lower, starts_under, squeeze, replace_foreign, strip_start,
  sanitize, or_default, sanitize_collection_name, sanitize_user_uid, sanitize_tenant_id,
}

-- No underscore follows an underscore.
abbrev pub HasSingles : Text → Type 0
HasSingles [] = Unit
HasSingles (x ∷ xs) = ((x == underscore && starts_under xs) ≡ false) × HasSingles xs

-- A name of lower-case letters, digits and single underscores that begins with no underscore.
abbrev pub IsClean : Text → Type 0
IsClean s = All (λ c. is_ident c ≡ true) s × HasSingles s × (starts_under s ≡ false)

starts_under-squeeze : (s : Text) → starts_under (squeeze s) ≡ starts_under s
unfolding squeeze
starts_under-squeeze [] = refl
starts_under-squeeze (x ∷ xs) = ground (arith, starts_under-squeeze xs)

squeeze-HasSingles : (s : Text) → HasSingles (squeeze s)
unfolding squeeze
squeeze-HasSingles [] = tt
squeeze-HasSingles (x ∷ xs) = ground (arith, squeeze-HasSingles xs, starts_under-squeeze xs)

squeeze-All {ℓ} : (P : ℕ → Type ℓ) (s : Text) → All P s → All P (squeeze s)
unfolding squeeze
squeeze-All P [] h = tt
squeeze-All P (x ∷ xs) (p, h) = ground (arith, squeeze-All P xs h)

squeeze_of_HasSingles : (s : Text) → HasSingles s → squeeze s ≡ s
unfolding squeeze
squeeze_of_HasSingles [] h = refl
squeeze_of_HasSingles (x ∷ xs) (p, h) = ground (arith, squeeze_of_HasSingles xs h)

starts_under-lower : (s : Text) → starts_under (map lower s) ≡ starts_under s
starts_under-lower [] = refl
starts_under-lower (x ∷ xs) = ground arith

lower-HasSingles : (s : Text) → HasSingles s → HasSingles (map lower s)
lower-HasSingles [] h = tt
lower-HasSingles (x ∷ xs) (p, h) = (ground (arith, starts_under-lower xs), lower-HasSingles xs h)

strip_start-All {ℓ} : (P : ℕ → Type ℓ) (s : Text) → All P s → All P (strip_start s)
strip_start-All P [] h = tt
strip_start-All P (x ∷ xs) (p, h) = ground (arith, strip_start-All P xs h)

strip_start-HasSingles : (s : Text) → HasSingles s → HasSingles (strip_start s)
strip_start-HasSingles [] h = tt
strip_start-HasSingles (x ∷ xs) (p, h) = ground (arith, strip_start-HasSingles xs h)

starts_under-strip_start : (s : Text) → starts_under (strip_start s) ≡ false
starts_under-strip_start [] = refl
starts_under-strip_start (x ∷ xs) = ground (arith, starts_under-strip_start xs)

replace_foreign-All : (s : Text) → All (λ c. is_word c ≡ true) (replace_foreign is_word s)
replace_foreign-All [] = tt
replace_foreign-All (x ∷ xs) = (ground arith, replace_foreign-All xs)

lower-All : (s : Text) → All (λ c. is_word c ≡ true) s → All (λ c. is_ident c ≡ true) (map lower s)
lower-All [] h = tt
lower-All (x ∷ xs) (p, h) = (ground arith, lower-All xs h)

pub sanitize-IsClean : (s : Text) → IsClean (sanitize s)
unfolding sanitize
sanitize-IsClean s =
    let word =
      squeeze-All (λ c. is_word c ≡ true) (replace_foreign is_word s) (replace_foreign-All s) in
    let cleaned = squeeze (replace_foreign is_word s) in
    let singles = lower-HasSingles cleaned (squeeze-HasSingles (replace_foreign is_word s)) in
    (
      strip_start-All (λ c. is_ident c ≡ true) (map lower cleaned) (lower-All cleaned word),
      strip_start-HasSingles (map lower cleaned) singles,
      starts_under-strip_start (map lower cleaned),
    )

replace_foreign_of_ident :
    (s : Text) → All (λ c. is_ident c ≡ true) s → replace_foreign is_word s ≡ s
replace_foreign_of_ident [] h = refl
replace_foreign_of_ident (x ∷ xs) (p, h) = ground (arith, replace_foreign_of_ident xs h)

lower_of_ident : (s : Text) → All (λ c. is_ident c ≡ true) s → map lower s ≡ s
lower_of_ident [] h = refl
lower_of_ident (x ∷ xs) (p, h) = ground (arith, lower_of_ident xs h)

strip_start_of : (s : Text) → starts_under s ≡ false → strip_start s ≡ s
strip_start_of [] h = refl
strip_start_of (x ∷ xs) h = ground arith

pub sanitize_of_IsClean : (s : Text) → IsClean s → sanitize s ≡ s
unfolding sanitize
sanitize_of_IsClean s (ident, singles, start) =
    rw (replace_foreign_of_ident s ident)
      (rw (squeeze_of_HasSingles s singles) (rw (lower_of_ident s ident) (strip_start_of s start)))

-- A clean name that is not empty: what every sanitiser of the source returns.
abbrev pub IsName : Text → Type 0
IsName s = IsClean s × (is_empty s ≡ false)

or_default-IsName : (d s : Text) → IsName d → IsClean s → IsName (or_default d s)
unfolding or_default
or_default-IsName d [] n c = n
or_default-IsName d (x ∷ xs) n c = (c, refl)

pub sanitize_collection_name-IsName : (s : Text) → IsName (sanitize_collection_name s)
unfolding sanitize_collection_name
sanitize_collection_name-IsName s =
    or_default-IsName (codes "collection") (sanitize s) (ground arith) (sanitize-IsClean s)

pub sanitize_user_uid-IsName : (s : Text) → IsName (sanitize_user_uid s)
unfolding sanitize_user_uid
sanitize_user_uid-IsName s =
    or_default-IsName (codes "anonymous") (sanitize s) (ground arith) (sanitize-IsClean s)

pub sanitize_tenant_id-IsName : (o : Option Text) → IsName (sanitize_tenant_id o)
unfolding sanitize_tenant_id
sanitize_tenant_id-IsName o =
    or_default-IsName (codes "default") (sanitize (get_or o (codes "default"))) (ground arith)
      (sanitize-IsClean (get_or o (codes "default")))

pub sanitize_collection_name_of_IsName : (s : Text) → IsName s → sanitize_collection_name s ≡ s
unfolding sanitize_collection_name or_default
sanitize_collection_name_of_IsName s (c, n) = rw (sanitize_of_IsClean s c) (rw n)

pub sanitize_user_uid_of_IsName : (s : Text) → IsName s → sanitize_user_uid s ≡ s
unfolding sanitize_user_uid or_default
sanitize_user_uid_of_IsName s (c, n) = rw (sanitize_of_IsClean s c) (rw n)

-- Whatever name a client sends, its stored form is not empty, consists of lower-case letters,
-- digits and single underscores, begins with no underscore, and is left as it is by a second pass.
pub sanitize_collection_name_canonical :
    (name : Text)
    → IsName (sanitize_collection_name name)
      × (sanitize_collection_name (sanitize_collection_name name) ≡ sanitize_collection_name name)
sanitize_collection_name_canonical name =
    let n = sanitize_collection_name-IsName name in (n, sanitize_collection_name_of_IsName _ n)
