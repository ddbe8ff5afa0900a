-- ===== src/Indexer/Stored.antt =====
-- The points of a path, under deletions and upserts.
use mathlib.Core.List.{append-nil}
use ydb_qdrant.Prelude.{
  List, [], ◌∷◌, Bool, true, false, not, ◌≡◌, ◌≢◌, refl, ap, ◌∙◌, inl, inr, arith, Bool-cases,
  filter, filter-append, filter-ext-All, any, All, All-append, All-filter, All-imp,
}
use ydb_qdrant.Text.{Text, text_eq}
use ydb_qdrant.Text.Laws.{Without, text_eq_refl, text_eq_sound, text_eq_comm}
use ydb_qdrant.Chunker.Paths.{path_segments_for_path}
use ydb_qdrant.Chunker.Smart.Origin.{IsOf}
use ydb_qdrant.Naming.{IndexedCodeChunk}
use ydb_qdrant.Naming.Points.{HasNoNul, point_id_for_chunk_injective}
use ydb_qdrant.Indexer.{Points, has_segments, stored_segments, delete_path, same_id, put_points}

-- The points of a path.
abbrev pub at : Text → Points → Points
at path points = filter (λ c. text_eq c.chunk.path path) points

-- What is assumed of the paths that a push and the index name: no path is a folder of another one, each
-- has a segment, and none holds a NUL.
pub record ArePaths (Known : Text → Type 0) : Type 0 where
  pub apart :
      (p q : Text)
      → Known p
      → Known q
      → has_segments (path_segments_for_path p) (path_segments_for_path q) ≡ true
      → p ≡ q
  pub some_segment : (p : Text) → Known p → path_segments_for_path p ≢ []
  pub no_nul : (p : Text) → Known p → Without 0 p

-- A point of a known path, as the chunker and the naming make it.
pub record IsPoint (Known : Text → Type 0) (c : IndexedCodeChunk) : Type 0 where
  pub known : Known c.chunk.path
  pub origin : IsOf c.chunk.path c.chunk
  pub without_nul : HasNoNul c

stored_segments-path :
    (c : IndexedCodeChunk)
    → IsOf c.chunk.path c.chunk
    → stored_segments c ≡ path_segments_for_path c.chunk.path
unfolding stored_segments IsOf
stored_segments-path c (_, e) = ground arith

has_segments_refl : (ss : List Text) → has_segments ss ss ≡ true
unfolding has_segments
has_segments_refl [] = refl
has_segments_refl (s ∷ ss) = rw (text_eq_refl s) (has_segments_refl ss)

delete_path-some :
    (ss : List Text) (points : Points)
    → ss ≢ []
    → delete_path ss points ≡ filter (λ c. not (has_segments ss (stored_segments c))) points
unfolding delete_path
delete_path-some [] points n = absurd (n refl)
delete_path-some (s ∷ ss) points n = refl

module _ (Known : Text → Type 0) (paths : ArePaths Known) where
  -- Which points a deletion takes.
  deletes :
      (path : Text) (c : IndexedCodeChunk)
      → Known path
      → IsPoint Known c
      → has_segments (path_segments_for_path path) (stored_segments c) ≡ text_eq c.chunk.path path
  deletes path c k p = elim (Bool-cases (text_eq c.chunk.path path)) [
    | inl e ↦
        (let same : c.chunk.path ≡ path = text_eq_sound c.chunk.path path e in
          rw (stored_segments-path c p.origin, e, same)
            (has_segments_refl (path_segments_for_path path)))
    | inr e ↦
        rw (stored_segments-path c p.origin, e)
          (off (has_segments (path_segments_for_path path) (path_segments_for_path c.chunk.path)) e
            (λ h. paths.apart path c.chunk.path k p.known h))
  ]
    where
      off :
          (b : Bool)
          → text_eq c.chunk.path path ≡ false
          → (b ≡ true → path ≡ c.chunk.path)
          → b ≡ false
      off false e f = refl
      off true e f = let same = f refl in ground (arith, text_eq_refl path)

  pub delete_path-filter :
      (path : Text) (points : Points)
      → Known path
      → All (IsPoint Known) points
      → delete_path (path_segments_for_path path) points
        ≡ filter (λ c. not (text_eq c.chunk.path path)) points
  delete_path-filter path points k h =
      delete_path-some (path_segments_for_path path) points (paths.some_segment path k)
      ∙ filter-ext-All _ _ points (All-imp (λ c p. ap (λ b. not b) (deletes path c k p)) points h)

pub at-deleted :
    (path : Text) (points : Points)
    → at path (filter (λ c. not (text_eq c.chunk.path path)) points) ≡ []
at-deleted path [] = refl
at-deleted path (c ∷ cs) = ground (arith, at-deleted path cs)

pub at-others :
    (q path : Text) (points : Points)
    → text_eq q path ≡ false
    → at q (filter (λ c. not (text_eq c.chunk.path path)) points) ≡ at q points
at-others q path [] e = refl
at-others q path (c ∷ cs) e = elim (Bool-cases (text_eq c.chunk.path q)) [
  | inl d ↦
      (let same : c.chunk.path ≡ q = text_eq_sound c.chunk.path q d in
        let other : text_eq c.chunk.path path ≡ false = rw same e in
        rw (other, d) (ap (λ (r : Points). c ∷ r) (at-others q path cs e)))
  | inr d ↦ elim (Bool-cases (text_eq c.chunk.path path)) [
    | inl k ↦ rw (k, d) (at-others q path cs e)
    | inr k ↦ rw (k, d) (at-others q path cs e)
  ]
]

-- The chunks are all of one path.
abbrev pub AreAt : Text → List IndexedCodeChunk → Type 0
AreAt path = All (λ c. c.chunk.path ≡ path)

at-all : (path : Text) (cs : List IndexedCodeChunk) → AreAt path cs → at path cs ≡ cs
at-all path [] h = refl
at-all path (c ∷ cs) (e, h) =
    let here : text_eq c.chunk.path path ≡ true = rw e (text_eq_refl path) in
    rw here (ap (λ (r : Points). c ∷ r) (at-all path cs h))

at-none :
    (q path : Text) (cs : List IndexedCodeChunk)
    → text_eq path q ≡ false
    → AreAt path cs
    → at q cs ≡ []
at-none q path [] n h = refl
at-none q path (c ∷ cs) n (e, h) =
    let there : text_eq c.chunk.path q ≡ false = rw e n in rw there (at-none q path cs n h)

-- Filters do not depend on their order.
filter-swap :
    (p q : IndexedCodeChunk → Bool) (cs : Points) → filter p (filter q cs) ≡ filter q (filter p cs)
filter-swap p q [] = refl
filter-swap p q (c ∷ cs) = ground (arith, filter-swap p q cs)

module _ (Known : Text → Type 0) (sha256_hex : Text → Text)
    (no_collision : (s t : Text) → sha256_hex s ≡ sha256_hex t → s ≡ t) where
  -- A point of another path has none of the new identifiers.
  other_ids :
      (path : Text) (new : List IndexedCodeChunk) (c : IndexedCodeChunk)
      → IsPoint Known c
      → All (IsPoint Known) new
      → AreAt path new
      → text_eq c.chunk.path path ≡ false
      → any (same_id sha256_hex c) new ≡ false
  other_ids path [] c p h a n = refl
  other_ids path (d ∷ ds) c p (q, h) (e, a) n = elim (Bool-cases (same_id sha256_hex c d)) [
    | inl s ↦
        (let (_, _, same, _, _) =
            point_id_for_chunk_injective sha256_hex no_collision c d p.without_nul q.without_nul
              (text_eq_sound _ _ s) in
          let clash : text_eq path path ≡ false =
            (let t : c.chunk.path ≡ path = same ∙ e in rw t at n) in
          ground (arith, text_eq_refl path))
    | inr s ↦ rw s (other_ids path ds c p h a n)
  ]

  put-others :
      (q path : Text) (new : List IndexedCodeChunk) (points : Points)
      → All (IsPoint Known) points
      → All (IsPoint Known) new
      → AreAt path new
      → text_eq q path ≡ false
      → at q (filter (λ c. not (any (same_id sha256_hex c) new)) points) ≡ at q points
  put-others q path new [] h k a n = refl
  put-others q path new (c ∷ cs) (p, h) k a n = elim (Bool-cases (text_eq c.chunk.path q)) [
    | inl d ↦
        (let same : c.chunk.path ≡ q = text_eq_sound c.chunk.path q d in
          let fresh : any (same_id sha256_hex c) new ≡ false =
            other_ids path new c p k a (rw same n) in
          rw (fresh, d) (ap (λ (r : Points). c ∷ r) (put-others q path new cs h k a n)))
    | inr d ↦ ground (arith, put-others q path new cs h k a n)
  ]

  pub put_points-others :
      (q path : Text) (new : List IndexedCodeChunk) (points : Points)
      → All (IsPoint Known) points
      → All (IsPoint Known) new
      → AreAt path new
      → text_eq q path ≡ false
      → at q (put_points sha256_hex new points) ≡ at q points
  unfolding put_points
  put_points-others q path new points h k a n =
      let nothing : at q new ≡ [] = at-none q path new (text_eq_comm path q ∙ n) a in
      filter-append (λ c. text_eq c.chunk.path q)
        (filter (λ c. not (any (same_id sha256_hex c) new)) points) new
      ∙ rw (put-others q path new points h k a n, nothing) (append-nil (at q points))

  pub put_points-new :
      (path : Text) (new : List IndexedCodeChunk) (points : Points)
      → AreAt path new
      → at path points ≡ []
      → at path (put_points sha256_hex new points) ≡ new
  unfolding put_points
  put_points-new path new points a e =
      filter-append (λ c. text_eq c.chunk.path path)
        (filter (λ c. not (any (same_id sha256_hex c) new)) points) new
      ∙ rw
          (
            filter-swap (λ c. text_eq c.chunk.path path) (λ c. not (any (same_id sha256_hex c) new))
                points,
            e,
          )
          (at-all path new a)

  pub put_points-IsPoint :
      (new : List IndexedCodeChunk) (points : Points)
      → All (IsPoint Known) points
      → All (IsPoint Known) new
      → All (IsPoint Known) (put_points sha256_hex new points)
  unfolding put_points
  put_points-IsPoint new points h k =
      All-append (IsPoint Known) _ new (All-filter (IsPoint Known) _ points h) k

pub delete_path-IsPoint :
    (Known : Text → Type 0) (ss : List Text) (points : Points)
    → All (IsPoint Known) points
    → All (IsPoint Known) (delete_path ss points)
unfolding delete_path
delete_path-IsPoint Known [] points h = h
delete_path-IsPoint Known (s ∷ ss) points h = All-filter (IsPoint Known) _ points h
