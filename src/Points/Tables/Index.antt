-- ===== src/Points/Tables/Index.antt =====
-- A deletion by a path and a search filter with that path are about the same points.
use ydb_qdrant.Prelude.{
  ℕ, ◌≤◌, List, [], ◌∷◌, Bool, false, not, ◌&&◌, ◌≡◌, refl, ap, ◌∙◌, arith, Option, none, some,
  filter, any, All, inl, inr, Bool-cases,
}
use ydb_qdrant.Text.{Text, text_eq}
use ydb_qdrant.Text.Laws.{text_eq_iff}
use ydb_qdrant.Points.Filter.{prefix_matches, exact_matches}
use ydb_qdrant.Points.Rows.{PreparedUpsertRow}
use ydb_qdrant.Points.Tables.{
  LookupRow, Tables, is_of, hits, delete_points_by_path_segments_chunked,
}
use ydb_qdrant.Points.Tables.Deletion.{delete_points_by_path_segments_chunked-IsDeleted}

-- The test that a search filter makes of a point's column, which is not true of a null.
abbrev pub column_matches : Option Text → Text → Bool
column_matches none path = false
column_matches (some path_prefix) path = prefix_matches path_prefix path

-- The lookup rows of each point are those of the prefixes of its path.
abbrev pub IsIndexed : Tables → Type 0
IsIndexed t =
    All
      (λ p.
        (path : Text)
        → any (λ l. is_of l p && exact_matches l.file_path path) t.lookup
          ≡ column_matches p.path_prefix path)
      t.points

filter-same :
    {A : Type 0} (f g : A → Bool) (xs : List A)
    → All (λ x. f x ≡ g x) xs
    → filter f xs ≡ filter g xs
filter-same f g [] h = refl
filter-same f g (x ∷ xs) (e, h) = rw (e, filter-same f g xs h) refl

any-hits :
    (c path : Text) (p : PreparedUpsertRow) (ls : List LookupRow)
    → any (λ l. hits c (λ f. exact_matches f path) l && is_of l p) ls
      ≡ (text_eq p.collection c && any (λ l. is_of l p && exact_matches l.file_path path) ls)
any-hits c path p [] = ground arith
any-hits c path p (l ∷ ls) = elim (Bool-cases (text_eq l.collection p.collection)) [
  | inl e ↦
      (let same : l.collection ≡ p.collection = (text_eq_iff l.collection p.collection).0 e in
        let same_test : text_eq l.collection c ≡ text_eq p.collection c =
          ap (λ (k : Text). text_eq k c) same in
        grind (arith, any-hits c path p ls))
  | inr e ↦ grind (arith, any-hits c path p ls)
]

-- If the lookup rows of each point are those of the prefixes of its path, a deletion by one path,
-- with a batch limit of at least one, ends, and removes exactly the points of the collection that a
-- search filter with that path matches.
pub IsIndexed-column_matches :
    (t : Tables) (c path : Text) (limit : ℕ)
    → 1 ≤ limit
    → IsIndexed t
    → (t' : Tables) × (n : ℕ) × (delete_points_by_path_segments_chunked c
          (λ f. exact_matches f path)
          limit
          t
        ≡ some (t', n))
      × (t'.points
          ≡ filter
              (λ p. not (text_eq p.collection c && column_matches p.path_prefix path))
              t.points)
IsIndexed-column_matches t c path limit positive indexed =
    let (t', n, found, (points, lookup)) =
      delete_points_by_path_segments_chunked-IsDeleted c (λ f. exact_matches f path) limit positive
        t in
    (t', n, found, points ∙ filter-same _ _ t.points (each t.points indexed))
  where
    each :
        (ps : List PreparedUpsertRow)
        → All
            (λ p.
              (path : Text)
              → any (λ l. is_of l p && exact_matches l.file_path path) t.lookup
                ≡ column_matches p.path_prefix path)
            ps
        → All
            (λ p.
              not (any (λ l. hits c (λ f. exact_matches f path) l && is_of l p) t.lookup)
              ≡ not (text_eq p.collection c && column_matches p.path_prefix path))
            ps
    each [] h = tt
    each (p ∷ ps) (e, h) = (
      ap not (any-hits c path p t.lookup ∙ ap (λ (b : Bool). text_eq p.collection c && b) (e path)),
      each ps h,
    )
