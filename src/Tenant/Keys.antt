-- ===== src/Tenant/Keys.antt =====
-- The storage key of a collection determines its user and its name.
use ydb_qdrant.Prelude.{[], ◌∷◌, true, ◌≡◌, refl, arith, All-imp, ok, >>=-eq-ok}
use ydb_qdrant.Text.{Text, split_on, join}
use ydb_qdrant.Text.Laws.{Without, split_on-join}
use ydb_qdrant.Tenant.{
  is_ident, sanitize, sanitize_collection_name, require_and_sanitize_user_uid, meta_key_for,
  uid_for, CollectionContext, context_for, normalize_collection_context,
}
use ydb_qdrant.Tenant.Clean.{IsName, sanitize-IsClean, sanitize_collection_name-IsName}

pub IsName-Without_slash : (s : Text) → IsName s → Without b'/' s
IsName-Without_slash s ((ident, singles, start), nonempty) =
    All-imp {P = λ c. is_ident c ≡ true} (λ c h. ground arith) s ident

pub split_on-meta_key_for :
    (u c : Text) → Without b'/' u → Without b'/' c → split_on b'/' (meta_key_for u c) ≡ u ∷ c ∷ []
unfolding meta_key_for join
split_on-meta_key_for u c hu hc = split_on-join b'/' u (c ∷ []) (hu, (hc, tt))

pub require_and_sanitize_user_uid-IsName :
    (user u : Text) → require_and_sanitize_user_uid user ≡ ok u → IsName u
unfolding require_and_sanitize_user_uid
require_and_sanitize_user_uid-IsName user u h =
    let e : sanitize user ≡ u = ground arith in rw (← e) (sanitize-IsClean user, ground arith)

context_for_key :
    (u collection : Text)
    → IsName u
    → let ctx = context_for u collection in
      IsName ctx.user_uid
      × IsName ctx.collection
      × (ctx.uid ≡ ctx.meta_key)
      × (split_on b'/' ctx.meta_key ≡ ctx.user_uid ∷ ctx.collection ∷ [])
unfolding context_for uid_for
context_for_key u collection n =
    let m = sanitize_collection_name-IsName collection in
    (
      n,
      m,
      refl,
      split_on-meta_key_for u (sanitize_collection_name collection) (IsName-Without_slash u n)
          (IsName-Without_slash _ m),
    )

-- A context that is accepted has canonical names, one key for both tables, and a key from which the
-- user and the collection can be read back by splitting at the slash.
pub normalize_collection_context_key :
    (user collection : Text) (ctx : CollectionContext)
    → normalize_collection_context user collection ≡ ok ctx
    → IsName ctx.user_uid
      × IsName ctx.collection
      × (ctx.uid ≡ ctx.meta_key)
      × (split_on b'/' ctx.meta_key ≡ ctx.user_uid ∷ ctx.collection ∷ [])
unfolding normalize_collection_context
normalize_collection_context_key user collection ctx h =
    let (u, found, built) = >>=-eq-ok (require_and_sanitize_user_uid user) _ h in
    let same : context_for u collection ≡ ctx = ground arith in
    rw (← same) (context_for_key u collection (require_and_sanitize_user_uid-IsName user u found))
