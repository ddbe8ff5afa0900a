-- ===== src/Tenant/Uid.antt =====
-- The form of a user's uid: a class prefix and sixteen digits of a digest.
use ydb_qdrant.Prelude.{
  ℕ, ◌≤◌, [], ◌∷◌, ◌++◌, Bool, true, false, ◌&&◌, ◌||◌, ◌==◌, leb, ◌≡◌, refl, ◌⊎◌, inl, inr, arith,
  All, All-take, length, length-take, ok, Option,
}
use ydb_qdrant.Text.{Text, codes, trim}
use ydb_qdrant.Tenant.{
  underscore, is_ident, sanitize_user_uid, short_hash, derive_user_uid_from_api_key,
  derive_anonymous_user_uid, anonymous_uid, identity_seed,
}
use ydb_qdrant.Tenant.Clean.{HasSingles, IsClean, IsName, sanitize_user_uid_of_IsName}

abbrev pub is_hex : ℕ → Bool
is_hex c = (leb b'0' c && leb c b'9') || (leb b'a' c && leb c b'f')

-- What the digest is documented to be: at least sixteen lower-case hexadecimal digits.
pub record IsDigest (sha256_hex : Text → Text) : Type 0 where
  pub digits : (s : Text) → All (λ c. is_hex c ≡ true) (sha256_hex s)
  pub long : (s : Text) → 16 ≤ length (sha256_hex s)

pub hex-IsClean : (h : Text) → All (λ c. is_hex c ≡ true) h → IsClean h
hex-IsClean [] d = (tt, tt, refl)
hex-IsClean (x ∷ xs) (p, d) =
    let (i, s, u) = hex-IsClean xs d in ((ground arith, i), (ground arith, s), ground arith)

-- The text ends in something other than an underscore.
abbrev pub Ends : Text → Type 0
Ends [] = ⊥
Ends (x ∷ []) = (x == underscore) ≡ false
Ends (x ∷ y ∷ ys) = Ends (y ∷ ys)

-- Clean but for its first code unit.
abbrev IsBody : Text → Type 0
IsBody s = All (λ c. is_ident c ≡ true) s × HasSingles s

joined-IsBody : (a b : Text) → IsBody a → Ends a → IsClean b → IsBody (a ++ underscore ∷ b)
joined-IsBody [] b body e cb = absurd e
joined-IsBody (x ∷ []) b body e (ib, sb, ub) =
    ((body.0.0, (refl, ib)), (ground arith, (ground arith, sb)))
joined-IsBody (x ∷ y ∷ ys) b ((ix, ia), (sx, sa)) e cb =
    let (i, s) = joined-IsBody (y ∷ ys) b (ia, sa) e cb in ((ix, i), (ground arith, s))

pub joined-IsName : (a b : Text) → IsName a → Ends a → IsClean b → IsName (a ++ underscore ∷ b)
joined-IsName [] b na e cb = absurd e
joined-IsName (x ∷ xs) b ((i, s, u), n) e cb =
    let (i', s') = joined-IsBody (x ∷ xs) b (i, s) e cb in ((i', s', u), refl)

pub hex-Ends : (x : ℕ) (h : Text) → All (λ c. is_hex c ≡ true) (x ∷ h) → Ends (x ∷ h)
hex-Ends x [] (p, _) = ground arith
hex-Ends x (y ∷ ys) (p, d) = hex-Ends y ys d

-- A user's uid: a prefix for its class and sixteen hexadecimal digits.
abbrev pub IsUid : Text → Text → Type 0
IsUid u prefix =
    (h : Text) × (u ≡ prefix ++ underscore ∷ h) × (length h ≡ 16) × All (λ c. is_hex c ≡ true) h

abbrev pub IsUserUid : Text → Type 0
IsUserUid u = IsUid u (codes "ak") ⊎ IsUid u (codes "anon")

module _ (sha256_hex : Text → Text) (digest : IsDigest sha256_hex) where
  hash-parts :
      (s : Text)
      → (length (short_hash sha256_hex s) ≡ 16)
        × All (λ c. is_hex c ≡ true) (short_hash sha256_hex s)
  unfolding short_hash
  hash-parts s = (
    omega (arith, length-take 16 (sha256_hex s), digest.long s),
    All-take (λ c. is_hex c ≡ true) 16 (sha256_hex s) (digest.digits s),
  )

  tagged :
      (prefix s : Text)
      → IsName prefix
      → Ends prefix
      → IsUid (sanitize_user_uid (prefix ++ underscore ∷ short_hash sha256_hex s)) prefix
  tagged prefix s n e =
      let (l, d) = hash-parts s in
      let name = joined-IsName prefix (short_hash sha256_hex s) n e (hex-IsClean _ d) in
      (short_hash sha256_hex s, sanitize_user_uid_of_IsName _ name, l, d)

  pub api_key-IsUid :
      (key u : Text) → derive_user_uid_from_api_key sha256_hex key ≡ ok u → IsUid u (codes "ak")
  unfolding derive_user_uid_from_api_key
  api_key-IsUid key u h =
      let same : sanitize_user_uid (codes "ak_" ++ short_hash sha256_hex (trim key)) ≡ u =
        ground arith in
      rw (← same) (tagged (codes "ak") (trim key) (ground arith) refl)

  anonymous_uid-IsUid :
      (ip ua : Option Text) (u : Text)
      → anonymous_uid sha256_hex ip ua ≡ ok u
      → IsUid u (codes "anon")
  unfolding anonymous_uid
  anonymous_uid-IsUid ip ua u h =
      let seed = identity_seed sha256_hex ip ua in
      let same : sanitize_user_uid (codes "anon_" ++ short_hash sha256_hex seed) ≡ u =
        ground arith in
      rw (← same) (tagged (codes "anon") seed (ground arith) refl)

  pub anonymous-IsUid :
      (to_lower : Text → Text) (ip ua : Option Text) (u : Text)
      → derive_anonymous_user_uid sha256_hex to_lower ip ua ≡ ok u
      → IsUid u (codes "anon")
  unfolding derive_anonymous_user_uid
  anonymous-IsUid to_lower ip ua u h = anonymous_uid-IsUid _ _ u h

IsUid-IsName : (u prefix : Text) → IsName prefix → Ends prefix → IsUid u prefix → IsName u × Ends u
IsUid-IsName u prefix n e (h, same, l, d) =
    rw same (joined-IsName prefix h n e (hex-IsClean h d), Ends-append prefix h l d)
  where
    Ends-append :
        (p h : Text) → length h ≡ 16 → All (λ c. is_hex c ≡ true) h → Ends (p ++ underscore ∷ h)
    Ends-append p [] l d = absurd (omega arith)
    Ends-append [] (x ∷ h) l d = hex-Ends x h d
    Ends-append (y ∷ []) (x ∷ h) l d = hex-Ends x h d
    Ends-append (y ∷ z ∷ p) (x ∷ h) l d = Ends-append (z ∷ p) (x ∷ h) l d

pub IsUserUid-IsName : (u : Text) → IsUserUid u → IsName u × Ends u
IsUserUid-IsName u (inl k) = IsUid-IsName u (codes "ak") (ground arith) refl k
IsUserUid-IsName u (inr k) = IsUid-IsName u (codes "anon") (ground arith) refl k
