-- ===== src/Points.antt =====
-- Points of a collection: what the storage and the compute workers share. The components are
-- the children: the path index, the signed rows, and the two tables.
pub mod Paths
pub mod Filter
pub mod Rows
pub mod Tables
use ydb_qdrant.Prelude.{◌≡◌, refl, map, All, List, [], ◌∷◌, Result, ok, err, ◌>>=◌}

-- What the modelled code throws.
pub data Failure : Type 0 where
  -- `encodeURIComponent` on a lone surrogate
  uri_malformed : Failure
  -- `pathSegments filter: empty path segments`
  empty_path : Failure
  -- `computePayloadSign: apiKey is empty`
  sign_key_empty : Failure
  -- `prepareUpsertBatch: apiKey is empty` and `verifySearchRows: apiKey is empty`
  worker_key_empty : Failure
  -- `point_id is missing in YDB search result`
  missing_point_id : Failure
  -- `Non-finite value in vector`
  non_finite : Failure
  -- An error of the worker pool other than its queue being at its limit.
  pool_failed : Failure

-- A loop that stops at the first element that throws.
abbrev pub traverse {ℓ κ} :
    {A : Type ℓ} {B : Type κ} → (A → Result Failure B) → List A → Result Failure (List B)
traverse f [] = ok []
traverse f (x ∷ xs) = f x >>= λ y. traverse f xs >>= λ ys. ok (y ∷ ys)

-- A loop in which no element throws.
pub traverse-ok {ℓ κ} :
    {A : Type ℓ} {B : Type κ} (f : A → Result Failure B) (g : A → B) (xs : List A)
    → All (λ x. f x ≡ ok (g x)) xs
    → traverse f xs ≡ ok (map g xs)
traverse-ok f g [] h = refl
traverse-ok f g (x ∷ xs) (e, h) = rw (e, traverse-ok f g xs h) refl
