-- ===== src/Identity/Namespace.antt =====
-- Requests of different users or tenants have different namespaces.
use ydb_qdrant.Prelude.{
  ℕ, [], ◌∷◌, ◌++◌, ◌≡◌, refl, ap, inl, inr, arith, length, drop, ok, ◌>>=◌, Option-cases,
}
use ydb_qdrant.Text.{Text, codes}
use ydb_qdrant.Tenant.{underscore, sanitize_tenant_id}
use ydb_qdrant.Tenant.Clean.{sanitize_user_uid_of_IsName, sanitize_tenant_id-IsName}
use ydb_qdrant.Identity.{
  RequestHead, get_request_api_key, get_request_client_ip, resolve_request_user_uid,
  resolve_request_namespace_user_uid,
}
use ydb_qdrant.Tenant.Uid.{
  IsDigest, joined-IsName, IsUserUid, IsUserUid-IsName, api_key-IsUid, anonymous-IsUid,
}

append_cancel :
    (a a' : Text) {x1 x2 : Text} → length a ≡ length a' → a ++ x1 ≡ a' ++ x2 → (a ≡ a') × (x1 ≡ x2)
append_cancel [] [] l e = (refl, e)
append_cancel [] (y ∷ ys) l e = absurd (omega arith)
append_cancel (x ∷ xs) [] l e = absurd (omega arith)
append_cancel (x ∷ xs) (y ∷ ys) {x1} {x2} l e =
    let rest : xs ++ x1 ≡ ys ++ x2 = cc in
    let (p, q) = append_cancel xs ys (omega arith) rest in (cc, q)

-- The classes differ in their second letter.
abbrev second : Text → ℕ
second (x ∷ y ∷ s) = y
second s = 0

uid_cancel :
    (u u' : Text) {t t' : Text}
    → IsUserUid u
    → IsUserUid u'
    → u ++ underscore ∷ t ≡ u' ++ underscore ∷ t'
    → (u ≡ u') × (t ≡ t')
uid_cancel u u' {t} {t'} (inl (h, s, l, d)) (inl (h', s', l', d')) e =
    let (p, q) = append_cancel u u' (rw (s, s') (omega (arith, l, l'))) e in (p, ap (drop 1) q)
uid_cancel u u' {t} {t'} (inr (h, s, l, d)) (inr (h', s', l', d')) e =
    let (p, q) = append_cancel u u' (rw (s, s') (omega (arith, l, l'))) e in (p, ap (drop 1) q)
uid_cancel u u' {t} {t'} (inl (h, s, l, d)) (inr (h', s', l', d')) e =
    let f : codes "ak" ++ underscore ∷ (h ++ underscore ∷ t)
        ≡ codes "anon" ++ underscore ∷ (h' ++ underscore ∷ t') =
      cc in
    absurd (omega (arith, ap second f))
uid_cancel u u' {t} {t'} (inr (h, s, l, d)) (inl (h', s', l', d')) e =
    let f : codes "anon" ++ underscore ∷ (h ++ underscore ∷ t)
        ≡ codes "ak" ++ underscore ∷ (h' ++ underscore ∷ t') =
      cc in
    absurd (omega (arith, ap second f))

module _ (sha256_hex to_lower : Text → Text) (digest : IsDigest sha256_hex) where
  resolve-IsUserUid :
      (req : RequestHead) (u : Text)
      → resolve_request_user_uid sha256_hex to_lower req ≡ ok u
      → IsUserUid u
  unfolding resolve_request_user_uid
  resolve-IsUserUid req u h = elim (Option-cases (get_request_api_key req)) [
    | inl e ↦ inr (
        anonymous-IsUid sha256_hex digest to_lower (get_request_client_ip req) req.user_agent u
          (ground arith))
    | inr (key, e) ↦ inl (api_key-IsUid sha256_hex digest key u (ground arith))
  ]

  -- The namespace of a request is the user's uid and the sanitised tenant, joined by an underscore,
  -- if the digest has at least sixteen hexadecimal digits: the sanitiser that is applied to the
  -- joined text changes nothing.
  pub resolve_request_namespace_user_uid_lem :
      (req : RequestHead) (u : Text)
      → resolve_request_user_uid sha256_hex to_lower req ≡ ok u
      → resolve_request_namespace_user_uid sha256_hex to_lower req
        ≡ ok (u ++ (codes "_" ++ sanitize_tenant_id req.tenant_id))
  unfolding resolve_request_namespace_user_uid
  resolve_request_namespace_user_uid_lem req u h =
      let (n, e) = IsUserUid-IsName u (resolve-IsUserUid req u h) in
      let t = sanitize_tenant_id-IsName req.tenant_id in
      rw (h, ◌>>=◌) (ap ok (sanitize_user_uid_of_IsName _ (joined-IsName u _ n e t.0)))

  -- Requests that share a namespace have the same user uid and the same sanitised tenant, whether
  -- the user is known by an API key or anonymous, if the digest has at least sixteen hexadecimal
  -- digits.
  pub namespace_injective :
      (req req' : RequestHead) (u u' : Text)
      → resolve_request_user_uid sha256_hex to_lower req ≡ ok u
      → resolve_request_user_uid sha256_hex to_lower req' ≡ ok u'
      → resolve_request_namespace_user_uid sha256_hex to_lower req
        ≡ resolve_request_namespace_user_uid sha256_hex to_lower req'
      → (u ≡ u') × (sanitize_tenant_id req.tenant_id ≡ sanitize_tenant_id req'.tenant_id)
  namespace_injective req req' u u' h h' e =
      let l = resolve_request_namespace_user_uid_lem req u h in
      let l' = resolve_request_namespace_user_uid_lem req' u' h' in
      uid_cancel u u' (resolve-IsUserUid req u h) (resolve-IsUserUid req' u' h') cc
