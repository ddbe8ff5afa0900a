-- ===== src/Naming/Points.antt =====
-- Different chunks have different points.
use ydb_qdrant.Prelude.{ℕ, [], ◌∷◌, ◌++◌, ◌≡◌, refl, arith}
use ydb_qdrant.Text.{Text}
use ydb_qdrant.Text.Laws.{Without}
use ydb_qdrant.Text.Decimal.{decimal-terminated, decimal_injective}
use ydb_qdrant.Naming.{IndexedCodeChunk, point_key, point_id_for_chunk}

-- Texts without a code unit end at its first occurrence.
Without-terminated :
    (c : ℕ) (a b s t : Text)
    → Without c a
    → Without c b
    → (a ++ c ∷ s) ≡ (b ++ c ∷ t)
    → (a ≡ b) × (s ≡ t)
Without-terminated c [] [] s t h k e = (refl, cc)
Without-terminated c [] (y ∷ ys) s t h (n, k) e = absurd (n cc)
Without-terminated c (x ∷ xs) [] s t (n, h) k e = absurd (n cc)
Without-terminated c (x ∷ xs) (y ∷ ys) s t (n, h) (m, k) e =
    let (p, q) = Without-terminated c xs ys s t h k cc in (cc, q)

-- The texts that go into a point's identifier hold no NUL.
pub record HasNoNul (c : IndexedCodeChunk) : Type 0 where
  pub ref_without : Without 0 c.ref
  pub path_without : Without 0 c.chunk.path
  pub blob_without : Without 0 c.blob_sha

point_key_injective :
    (c d : IndexedCodeChunk)
    → HasNoNul c
    → HasNoNul d
    → point_key c ≡ point_key d
    → (c.repo_id ≡ d.repo_id)
      × (c.ref ≡ d.ref)
      × (c.chunk.path ≡ d.chunk.path)
      × (c.blob_sha ≡ d.blob_sha)
      × (c.chunk.chunk_index ≡ d.chunk.chunk_index)
unfolding point_key
point_key_injective c d h k e =
    let (repo, e1) = decimal-terminated _ _ 0 _ _ (λ z. omega arith) e in
    let (ref, e2) = Without-terminated 0 _ _ _ _ h.ref_without k.ref_without e1 in
    let (path, e3) = Without-terminated 0 _ _ _ _ h.path_without k.path_without e2 in
    let (blob, e4) = Without-terminated 0 _ _ _ _ h.blob_without k.blob_without e3 in
    (repo, ref, path, blob, decimal_injective _ _ e4)

module _ (sha256_hex : Text → Text)
    (no_collision : (s t : Text) → sha256_hex s ≡ sha256_hex t → s ≡ t) where
  -- Chunks with the same identifier are the same chunk of the same blob, of one repository.
  pub point_id_for_chunk_injective :
      (c d : IndexedCodeChunk)
      → HasNoNul c
      → HasNoNul d
      → point_id_for_chunk sha256_hex c ≡ point_id_for_chunk sha256_hex d
      → (c.repo_id ≡ d.repo_id)
        × (c.ref ≡ d.ref)
        × (c.chunk.path ≡ d.chunk.path)
        × (c.blob_sha ≡ d.blob_sha)
        × (c.chunk.chunk_index ≡ d.chunk.chunk_index)
  unfolding point_id_for_chunk
  point_id_for_chunk_injective c d h k e = point_key_injective c d h k (no_collision _ _ e)
