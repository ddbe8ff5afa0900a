-- ===== src/Points/Tables/Deletion.antt =====
-- What the loop of a deletion by paths leaves.
use ydb_qdrant.Prelude.{
  ℕ, zero, suc, ◌+◌, ◌≤◌, ◌<◌, List, [], ◌∷◌, Bool, true, false, not, ◌&&◌, ◌||◌, ◌==◌, ◌≡◌, inl,
  inr, refl, ap, sym, ◌≢◌, ◌∙◌, arith, Option, some, filter, any, take, length, Bool-cases,
}
use ydb_qdrant.Text.{Text}
use ydb_qdrant.Text.Laws.{text_eq_iff, text_eq_refl}
use ydb_qdrant.Points.Rows.{PreparedUpsertRow}
use ydb_qdrant.Points.Tables.Filters.{
  both, either, not-or, filter-filter, filter-ext, any-filter, any-take, length-filter,
  nil_of_length, no_hits, any-split, any-kept,
}
use ydb_qdrant.Points.Tables.{
  LookupRow, Tables, same_row, is_of, hits, to_delete, without, delete_rounds,
  delete_points_by_path_segments_chunked,
}

module _ (c : Text) (m : Text → Bool) where
  same-hits : (l r : LookupRow) → same_row l r ≡ true → hits c m l ≡ hits c m r
  same-hits l r e =
      let k : l.collection ≡ r.collection = grind (arith, text_eq_iff) in
      let f : l.file_path ≡ r.file_path = grind (arith, text_eq_iff) in rw (k, f) refl

  same-of : (l r : LookupRow) (p : PreparedUpsertRow) → same_row l r ≡ true → is_of l p ≡ is_of r p
  same-of l r p e =
      let k : l.collection ≡ r.collection = grind (arith, text_eq_iff) in
      let i : l.point_id ≡ r.point_id = grind (arith, text_eq_iff) in rw (k, i) refl

  same_row_refl : (l : LookupRow) → same_row l l ≡ true
  same_row_refl l =
      rw (text_eq_refl l.collection, text_eq_refl l.file_path, text_eq_refl l.point_id) refl

  no-same :
      (l : LookupRow)
      → hits c m l ≡ false
      → (rows : List LookupRow) → any (same_row l) (filter (hits c m) rows) ≡ false
  no-same l h [] = refl
  no-same l h (r ∷ rows) = elim (Bool-cases (hits c m r)) [
    | inr e ↦ rw e (no-same l h rows)
    | inl e ↦ elim (Bool-cases (same_row l r)) [
      | inl s ↦ (let clash = sym (same-hits l r s ∙ e) ∙ h in cc)
      | inr s ↦ rw (e, s) (no-same l h rows)
    ]
  ]

  same-any :
      (l : LookupRow) (p : PreparedUpsertRow) (rows : List LookupRow)
      → any (same_row l) rows ≡ true
      → is_of l p ≡ true
      → any (λ r. is_of r p) rows ≡ true
  same-any l p [] e o = cc
  same-any l p (r ∷ rows) e o = elim (Bool-cases (same_row l r)) [
    | inl s ↦ rw (sym (same-of l r p s) ∙ o) refl
    | inr s ↦ (let later = same-any l p rows (rw s at e) o in rw later (ground arith))
  ]

  none_taken : (n : ℕ) (rows : List LookupRow) → 1 ≤ n → length (take n rows) ≡ 0 → rows ≡ []
  none_taken zero rows le e = absurd (omega arith)
  none_taken (suc n) [] le e = refl
  none_taken (suc n) (r ∷ rows) le e = absurd (omega arith)

  shrinks :
      (n : ℕ) (rows : List LookupRow)
      → 1 ≤ n
      → length (take n rows) ≢ 0
      → length (filter (λ l. not (any (same_row l) (take n rows))) rows) < length rows
  shrinks zero rows le e = absurd (omega arith)
  shrinks (suc n) [] le e = absurd (e refl)
  shrinks (suc n) (r ∷ rows) le e =
      let rest = length-filter (λ l. not (any (same_row l) (r ∷ take n rows))) rows in
      rw (same_row_refl r) (omega (arith, rest))

  module _ (limit : ℕ) (rows : List LookupRow) where
    abbrev gone : List LookupRow
    gone = to_delete c m limit rows

    abbrev out : LookupRow → Bool
    out l = any (same_row l) gone

    abbrev left : List LookupRow
    left = filter (λ l. not (out l)) rows

    out-hits : (l : LookupRow) → hits c m l ≡ false → out l ≡ false
    out-hits l h = elim (Bool-cases (out l)) [
      | inr e ↦ e
      | inl e ↦
          (let clash =
              sym (any-take (same_row l) limit (filter (hits c m) rows) e) ∙ no-same l h rows in
            cc)
    ]

    others-left : filter (λ l. not (hits c m l)) left ≡ filter (λ l. not (hits c m l)) rows
    others-left =
        filter-filter (λ l. not (hits c m l)) (λ l. not (out l)) rows
        ∙ filter-ext (λ l. not (out l) && not (hits c m l)) (λ l. not (hits c m l))
            (λ l. elim (Bool-cases (hits c m l)) [
              | inl e ↦ rw e (ground arith)
              | inr e ↦ rw (e, out-hits l e) refl
            ])
            rows

    hits-left : filter (hits c m) left ≡ filter (λ l. not (out l)) (filter (hits c m) rows)
    hits-left =
        filter-filter (hits c m) (λ l. not (out l)) rows
        ∙ filter-ext (λ l. not (out l) && hits c m l) (λ l. hits c m l && not (out l))
            (λ l. ground arith) rows
        ∙ sym (filter-filter (λ l. not (out l)) (hits c m) rows)

    -- A point has a lookup row that qualifies if it has one that is deleted now or one that is left.
    split-of :
        (p : PreparedUpsertRow)
        → (any (λ l. is_of l p) gone || any (λ l. hits c m l && is_of l p) left)
          ≡ any (λ l. hits c m l && is_of l p) rows
    split-of p =
        let found : List LookupRow = filter (hits c m) rows in
        let later : List LookupRow = filter (λ l. not (out l)) found in
        let all_rows = any-filter (λ l. is_of l p) (hits c m) rows in
        let left_rows = any-filter (λ l. is_of l p) (hits c m) left in
        let core : (any (λ l. is_of l p) gone || any (λ l. is_of l p) later)
            ≡ any (λ l. is_of l p) found =
          both _ _
            (either _ _ _ (any-take (λ l. is_of l p) limit found)
              (any-kept (λ l. is_of l p) (λ l. not (out l)) found))
            (any-split (λ l. is_of l p) out (any (λ l. is_of l p) gone) found
              (λ l o i. same-any l p gone o i)) in
        ap (λ (b : Bool). any (λ l. is_of l p) gone || b)
          (sym left_rows ∙ ap (any (λ l. is_of l p)) hits-left)
        ∙ core
        ∙ all_rows

    fewer :
        1 ≤ limit
        → length gone ≢ 0
        → length (filter (hits c m) left) < length (filter (hits c m) rows)
    fewer positive some_gone =
        rw hits-left (shrinks limit (filter (hits c m) rows) positive some_gone)

    all_left : filter (hits c m) rows ≡ [] → left ≡ filter (λ l. not (hits c m l)) rows
    all_left none_found =
        sym (no_hits (hits c m) left (hits-left ∙ ap (filter (λ l. not (out l))) none_found))
        ∙ others-left

  -- What a deletion of all rows that qualify leaves of the tables.
  abbrev pub IsDeleted : Tables → Tables → Type 0
  IsDeleted t t' =
      (t'.points ≡ filter (λ p. not (any (λ l. hits c m l && is_of l p) t.lookup)) t.points)
      × (t'.lookup ≡ filter (λ l. not (hits c m l)) t.lookup)

  module _ (limit : ℕ) (positive : 1 ≤ limit) where
    abbrev after : Tables → Tables
    after t = without (to_delete c m limit t.lookup) t

    last_round : (t : Tables) → length (to_delete c m limit t.lookup) ≡ 0 → IsDeleted t (after t)
    last_round t e =
        let none_found = none_taken limit (filter (hits c m) t.lookup) positive e in
        let nothing = nil_of_length (to_delete c m limit t.lookup) e in
        let same : (p : PreparedUpsertRow)
            → not (any (λ l. is_of l p) (to_delete c m limit t.lookup))
              ≡ not (any (λ l. hits c m l && is_of l p) t.lookup) =
          λ p.
            ap (λ (ls : List LookupRow). not (any (λ l. is_of l p) ls)) (nothing ∙ sym none_found)
            ∙ ap not (any-filter (λ l. is_of l p) (hits c m) t.lookup) in
        (filter-ext _ _ same t.points, all_left limit t.lookup none_found)

    more_rounds : (t t' : Tables) → IsDeleted (after t) t' → IsDeleted t t'
    more_rounds t t' (p, l) = (
      p
          ∙ filter-filter _ _ t.points
          ∙ filter-ext _ _ (λ x. not-or _ _ ∙ ap not (split-of limit t.lookup x)) t.points,
      l ∙ others-left limit t.lookup,
    )

    HasRounds : Tables → Option (Tables × ℕ) → Type 0
    HasRounds t o = (t' : Tables) × (n : ℕ) × (o ≡ some (t', n)) × IsDeleted t t'

    rounds :
        (fuel : ℕ) (t : Tables)
        → length (filter (hits c m) t.lookup) < fuel
        → HasRounds t (delete_rounds fuel c m limit t)
    unfolding delete_rounds HasRounds
    rounds zero t le = absurd (omega arith)
    rounds (suc fuel) t le = elim (Bool-cases (length (to_delete c m limit t.lookup) == 0)) [
      | inl e ↦ rw (e, delete_rounds) (after t, 0, refl, last_round t (ground arith))
      | inr e ↦
          (let some_gone : length (to_delete c m limit t.lookup) ≢ 0 = ground arith in
            let below = fewer limit t.lookup positive some_gone in
            let (t', n, found, deleted) = rounds fuel (after t) (omega (arith, below, le)) in
            rw (e, delete_rounds, found)
              (t', length (to_delete c m limit t.lookup) + n, refl, more_rounds t t' deleted))
    ]

    -- With a batch limit of at least one the loop of a deletion by paths ends, and leaves of the
    -- points those of which no lookup row qualified, and of the lookup rows those that do not
    -- qualify.
    pub delete_points_by_path_segments_chunked-IsDeleted :
        (t : Tables)
        → (t' : Tables) × (n : ℕ) × (delete_points_by_path_segments_chunked c m limit t
            ≡ some (t', n))
          × IsDeleted t t'
    unfolding delete_points_by_path_segments_chunked HasRounds
    delete_points_by_path_segments_chunked-IsDeleted t =
        rounds (suc (length t.lookup)) t (omega (arith, length-filter (hits c m) t.lookup))
