-- ===== src/Points/Tables/Reached.antt =====
-- Batches of points that keep their paths leave tables on which a deletion and a search agree.
use ydb_qdrant.Prelude.{
  ℕ, ◌≤◌, List, [], ◌∷◌, Bool, true, false, not, ◌&&◌, ◌≡◌, ◌≢◌, ◌⊎◌, inl, inr, refl, ap, sym, ◌∙◌,
  arith, Option, none, some, filter, any, All, Bool-cases, ok, ◌>>=◌, >>=-eq-ok,
}
use ydb_qdrant.Text.{Text, text_eq, is_empty, trim, includes}
use ydb_qdrant.Text.Laws.{text_eq_iff, text_eq_refl}
use ydb_qdrant.Points.{traverse}
use ydb_qdrant.Points.Filter.{exact_matches}
use ydb_qdrant.Points.Filter.Lookup.{expand_path_prefixes-prefix_matches}
use ydb_qdrant.Points.Rows.{
  Platform, Pool, PreparedUpsertRow, PrepareUpsertBatchTask, at_limit, answer,
}
use ydb_qdrant.Points.Rows.Prepare.{
  build_bulk_upsert_rows_value, prepare_rows, prepare_upsert_batch,
}
use ydb_qdrant.Points.Rows.Writing.{prepare_rows-build_bulk_upsert_rows_value}
use ydb_qdrant.Points.Tables.{
  LookupRow, Tables, same_row, same_point, is_of, put_all, concat, build_points_by_file_lookup_rows,
  upsert_batch, upsert_batches, delete_points_by_path_segments_chunked,
}
use ydb_qdrant.Points.Tables.Index.{IsIndexed, column_matches, IsIndexed-column_matches}
use ydb_qdrant.Points.Tables.Upserts.{
  row, paths_of, holds, same_row_sound, holds-put_all, holds_new, All-put_all, IsOwn, IsHeld,
  IsKept, KeepsPath, rows_for, batch-IsHeld,
}

-- The pool runs prepareUpsertBatch on what it takes.
abbrev pub IsFaithful : {Float : Type 0} → Platform Float → Pool Float → Type 0
IsFaithful platform pool =
    (task : PrepareUpsertBatchTask _)
    → (pool.run_prepare task ≡ at_limit)
      ⊎ (pool.run_prepare task ≡ answer (prepare_upsert_batch platform task))

module _ (P : Text → Text → Option Text) where
  -- A batch with a key, all of whose points keep their paths.
  abbrev pub IsBatch : {Float : Type 0} → Platform Float → PrepareUpsertBatchTask Float → Type 0
  IsBatch platform task =
      (is_empty (trim task.api_key) ≡ false)
      × All (KeepsPath P platform task.collection (trim task.api_key)) task.batch

  IsHeld-put_all :
      (rs ls : List LookupRow) (ps : List PreparedUpsertRow)
      → All (IsHeld P ls) ps
      → All (IsHeld P (put_all same_row rs ls)) ps
  IsHeld-put_all rs ls [] h = tt
  IsHeld-put_all rs ls (p ∷ ps) ((e, k), h) =
      ((e, λ f i. holds-put_all _ rs ls (k f i)), IsHeld-put_all rs ls ps h)

  IsHeld-new :
      (rs ls : List LookupRow) (ps : List PreparedUpsertRow)
      → All (IsHeld P rs) ps
      → All (IsHeld P (put_all same_row rs ls)) ps
  IsHeld-new rs ls [] h = tt
  IsHeld-new rs ls (p ∷ ps) ((e, k), h) =
      ((e, λ f i. holds_new _ rs ls (k f i)), IsHeld-new rs ls ps h)

  module _ {Float : Type 0} (platform : Platform Float) (pool : Pool Float)
      (faithful : IsFaithful platform pool) where
    upsert_batch-IsKept :
        (task : PrepareUpsertBatchTask Float) (t t' : Tables)
        → IsBatch platform task
        → IsKept P t
        → upsert_batch platform pool task t ≡ ok t'
        → IsKept P t'
    unfolding upsert_batch build_bulk_upsert_rows_value build_points_by_file_lookup_rows
    upsert_batch-IsKept task t t' (key, paths) k h =
        let (rows, e, h1) =
          >>=-eq-ok (prepare_rows platform pool task)
            (λ rows.
              build_points_by_file_lookup_rows platform.encode task.collection task.batch
              >>= λ lookup_rows. ok (record {
                points = put_all same_point rows t.points;
                lookup = put_all same_row lookup_rows t.lookup;
              }))
            h in
        let (lookup_rows, f, h2) =
          >>=-eq-ok (build_points_by_file_lookup_rows platform.encode task.collection task.batch)
            (λ lookup_rows. ok (record {
              points = put_all same_point rows t.points;
              lookup = put_all same_row lookup_rows t.lookup;
            }))
            h1 in
        let (lss, g, f1) =
          >>=-eq-ok (traverse (rows_for P platform task.collection (trim task.api_key)) task.batch)
            (λ qs. ok (concat qs)) f in
        let inline =
          sym (prepare_rows-build_bulk_upsert_rows_value platform pool task (faithful task) key)
          ∙ e in
        let (held, own) =
          batch-IsHeld P platform task.collection (trim task.api_key) task.batch rows lss paths
            inline g in
        let same : concat lss ≡ lookup_rows = cc in
        let built : t' ≡ record {
          points = put_all same_point rows t.points;
          lookup = put_all same_row lookup_rows t.lookup;
        } =
          cc in
        rw (built, ← same)
          (record {
            points_held =
                All-put_all (IsHeld P (put_all same_row (concat lss) t.lookup)) same_point rows
                  t.points (IsHeld-new (concat lss) t.lookup rows held)
                  (IsHeld-put_all (concat lss) t.lookup t.points k.points_held);
            rows_own = All-put_all (IsOwn P) same_row (concat lss) t.lookup own k.rows_own;
          })

    upsert_batches-IsKept :
        (tasks : List (PrepareUpsertBatchTask Float)) (t t' : Tables)
        → All (IsBatch platform) tasks
        → IsKept P t
        → upsert_batches platform pool tasks t ≡ ok t'
        → IsKept P t'
    unfolding upsert_batches
    upsert_batches-IsKept [] t t' b k h = let same : t ≡ t' = cc in rw (← same) k
    upsert_batches-IsKept (task ∷ tasks) t t' (b, bs) k h =
        let (u, e, h1) =
          >>=-eq-ok (upsert_batch platform pool task t) (λ v. upsert_batches platform pool tasks v)
            h in
        upsert_batches-IsKept tasks u t' bs (upsert_batch-IsKept task t u b k e) h1

  module _ (some_path : (c i : Text) → P c i ≢ some []) where
    paths_of-column_matches :
        (c i path : Text) → includes path (paths_of (P c i)) ≡ column_matches (P c i) path
    paths_of-column_matches c i path = go (P c i) (some_path c i)
      where
        go : (o : Option Text) → o ≢ some [] → includes path (paths_of o) ≡ column_matches o path
        go none n = refl
        go (some []) n = absurd (n refl)
        go (some (x ∷ xs)) n = expand_path_prefixes-prefix_matches (x ∷ xs) path refl

    -- What the lookup table says of a point.
    looked_up_only :
        (p : PreparedUpsertRow) (path : Text) (ls : List LookupRow)
        → All (IsOwn P) ls
        → any (λ l. is_of l p && exact_matches l.file_path path) ls ≡ true
        → includes path (paths_of (P p.collection p.point_id)) ≡ true
    looked_up_only p path [] h e = cc
    looked_up_only p path (l ∷ ls) (o, h) e =
        elim (Bool-cases (is_of l p && exact_matches l.file_path path)) [
          | inr miss ↦ looked_up_only p path ls h (rw miss at e)
          | inl hit ↦
              (let a : l.collection ≡ p.collection =
                  (text_eq_iff l.collection p.collection).0 (ground arith) in
                let b : l.point_id ≡ p.point_id =
                  (text_eq_iff l.point_id p.point_id).0 (ground arith) in
                let c : l.file_path ≡ path = (text_eq_iff l.file_path path).0 (ground arith) in
                rw (← a, ← b, ← c) o)
        ]

    looked_up_all :
        (p : PreparedUpsertRow) (path : Text) (ls : List LookupRow)
        → holds (row p.collection path p.point_id) ls ≡ true
        → any (λ l. is_of l p && exact_matches l.file_path path) ls ≡ true
    looked_up_all p path [] h = h
    looked_up_all p path (l ∷ ls) h =
        elim (Bool-cases (same_row (row p.collection path p.point_id) l)) [
          | inr miss ↦ (let rest = looked_up_all p path ls (rw miss at h) in ground arith)
          | inl hit ↦
              (let e : row p.collection path p.point_id ≡ l =
                  same_row_sound (row p.collection path p.point_id) l hit in
                rw (← e, text_eq_refl p.collection, text_eq_refl p.point_id, text_eq_refl path)
                  refl)
        ]

    IsKept-IsIndexed : (t : Tables) → IsKept P t → IsIndexed t
    IsKept-IsIndexed t k = each t.points k.points_held
      where
        same_test : (a b : Bool) → (a ≡ true → b ≡ true) → (b ≡ true → a ≡ true) → a ≡ b
        same_test true b f g = sym (f refl)
        same_test false true f g = g refl
        same_test false false f g = refl

        each :
            (ps : List PreparedUpsertRow)
            → All (IsHeld P t.lookup) ps
            → All
                (λ p.
                  (path : Text)
                  → any (λ l. is_of l p && exact_matches l.file_path path) t.lookup
                    ≡ column_matches p.path_prefix path)
                ps
        each [] h = tt
        each (p ∷ ps) ((e, held), h) = (
          λ path.
              same_test _ (includes path (paths_of (P p.collection p.point_id)))
                (looked_up_only p path t.lookup k.rows_own)
                (λ i. looked_up_all p path t.lookup (held path i))
              ∙ paths_of-column_matches p.collection p.point_id path
              ∙ ap (λ (o : Option Text). column_matches o path) (sym e),
          each ps h,
        )

-- After any batches of upserts into empty tables, in which each point keeps its path and no path is
-- the empty text, a deletion by one path, with a batch limit of at least one, ends, and removes
-- exactly the points of the collection that a search filter with that path matches. The keys are
-- not blank, and the pool runs prepareUpsertBatch on what it takes or is at its limit.
pub delete_points_by_path_segments_chunked-column_matches :
    (P : Text → Text → Option Text) {Float : Type 0} (platform : Platform Float) (pool : Pool Float)
    (tasks : List (PrepareUpsertBatchTask Float)) (t : Tables) (c path : Text) (limit : ℕ)
    → ((c i : Text) → P c i ≢ some [])
    → IsFaithful platform pool
    → All (IsBatch P platform) tasks
    → upsert_batches platform pool tasks (record { points = []; lookup = [] }) ≡ ok t
    → 1 ≤ limit
    → (t' : Tables) × (n : ℕ) × (delete_points_by_path_segments_chunked c
          (λ f. exact_matches f path)
          limit
          t
        ≡ some (t', n))
      × (t'.points
          ≡ filter
              (λ p. not (text_eq p.collection c && column_matches p.path_prefix path))
              t.points)
delete_points_by_path_segments_chunked-column_matches P platform pool tasks t c path limit some_path
      faithful batches reached positive =
    IsIndexed-column_matches t c path limit positive (
      IsKept-IsIndexed P some_path t (
        upsert_batches-IsKept P platform pool faithful tasks (record { points = []; lookup = [] }) t
          batches (record { points_held = tt; rows_own = tt }) reached))
