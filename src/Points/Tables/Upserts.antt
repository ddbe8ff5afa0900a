-- ===== src/Points/Tables/Upserts.antt =====
-- The tables after any batches of `upsertPoints`, in which each point keeps its path.
use mathlib.Core.Path.{subst}
use ydb_qdrant.Prelude.{
  append_assoc, List, [], ◌∷◌, ◌++◌, Bool, true, false, not, ◌||◌, ◌≡◌, inl, inr, refl, ap, sym,
  ◌∙◌, arith, Option, none, some, get_or, filter, any, map, All, All-append, All-filter, Bool-cases,
  Result, ok, ◌>>=◌, >>=-eq-ok,
}
use ydb_qdrant.Text.{Text, text_eq, is_empty, includes}
use ydb_qdrant.Text.Laws.{text_eq_iff, text_eq_refl}
use ydb_qdrant.Json.{obj, no_prop}
use ydb_qdrant.Points.{Failure, traverse}
use ydb_qdrant.Points.Paths.{extract_path_prefix, expand_path_prefixes}
use ydb_qdrant.Points.Rows.{Platform, UpsertPoint, PreparedUpsertRow}
use ydb_qdrant.Points.Rows.Prepare.{bulk_upsert_row}
use ydb_qdrant.Points.Tables.{LookupRow, Tables, same_row, put_all, lookup_rows_at, concat}

abbrev pub row : Text → Text → Text → LookupRow
row c f i = record { collection = c; file_path = f; point_id = i }

-- The paths at which the lookup table holds a point.
abbrev pub paths_of : Option Text → List Text
paths_of none = []
paths_of (some path) = expand_path_prefixes path

pub same_row_sound : (l r : LookupRow) → same_row l r ≡ true → l ≡ r
same_row_sound l r h =
    let a : l.collection ≡ r.collection =
      (text_eq_iff l.collection r.collection).0 (ground arith) in
    let b : l.file_path ≡ r.file_path = (text_eq_iff l.file_path r.file_path).0 (ground arith) in
    let c : l.point_id ≡ r.point_id = (text_eq_iff l.point_id r.point_id).0 (ground arith) in cc

same_row_refl : (l : LookupRow) → same_row l l ≡ true
same_row_refl l =
    rw (text_eq_refl l.collection, text_eq_refl l.file_path, text_eq_refl l.point_id) refl

abbrev pub holds : LookupRow → List LookupRow → Bool
holds x rows = any (λ l. same_row x l) rows

holds-append :
    (x : LookupRow) (ls ms : List LookupRow) → holds x (ls ++ ms) ≡ (holds x ls || holds x ms)
holds-append x [] ms = refl
holds-append x (l ∷ ls) ms = ground (arith, holds-append x ls ms)

holds-filter :
    (x r : LookupRow) (ls : List LookupRow)
    → same_row x r ≡ false
    → holds x ls ≡ true
    → holds x (filter (λ q. not (same_row r q)) ls) ≡ true
holds-filter x r [] n h = h
holds-filter x r (l ∷ ls) n h = elim (Bool-cases (same_row r l)) [
  | inr other ↦ (elim (Bool-cases (same_row x l)) [
    | inl hit ↦ rw (other, hit) refl
    | inr miss ↦ rw (other, miss) (holds-filter x r ls n (rw miss at h))
  ])
  | inl same ↦
      (let e : r ≡ l = same_row_sound r l same in
        let miss : same_row x l ≡ false = rw (← e) n in
        rw same (holds-filter x r ls n (rw miss at h)))
]

holds-put :
    (x r : LookupRow) (ls : List LookupRow)
    → holds x ls ≡ true
    → holds x (r ∷ filter (λ q. not (same_row r q)) ls) ≡ true
holds-put x r ls h = elim (Bool-cases (same_row x r)) [
  | inl hit ↦ rw hit refl
  | inr miss ↦ rw miss (holds-filter x r ls miss h)
]

pub holds-put_all :
    (x : LookupRow) (rs ls : List LookupRow)
    → holds x ls ≡ true
    → holds x (put_all same_row rs ls) ≡ true
holds-put_all x [] ls h = h
holds-put_all x (r ∷ rs) ls h = holds-put_all x rs _ (holds-put x r ls h)

pub holds_new :
    (x : LookupRow) (rs ls : List LookupRow)
    → holds x rs ≡ true
    → holds x (put_all same_row rs ls) ≡ true
holds_new x [] ls h = cc
holds_new x (r ∷ rs) ls h = elim (Bool-cases (same_row x r)) [
  | inl hit ↦ holds-put_all x rs _ (rw hit refl)
  | inr miss ↦ holds_new x rs _ (rw miss at h)
]

pub All-put_all :
    {A : Type 0} (Q : A → Type 0) (same : A → A → Bool) (rs xs : List A)
    → All Q rs
    → All Q xs
    → All Q (put_all same rs xs)
All-put_all Q same [] xs h k = k
All-put_all Q same (r ∷ rs) xs (q, h) k =
    All-put_all Q same rs _ h (q, All-filter Q (λ x. not (same r x)) xs k)

holds-lookup_rows :
    (c i f : Text) (fs : List Text)
    → includes f fs ≡ true
    → holds (row c f i) (map (λ g. row c g i) fs) ≡ true
holds-lookup_rows c i f [] h = h
holds-lookup_rows c i f (g ∷ fs) h = elim (Bool-cases (text_eq g f)) [
  | inl e ↦ (let same : g ≡ f = (text_eq_iff g f).0 e in rw (same, same_row_refl (row c f i)) refl)
  | inr n ↦ (let rest = holds-lookup_rows c i f fs (rw n at h) in ground arith)
]

members : (before xs : List Text) → All (λ x. includes x (before ++ xs) ≡ true) xs
members before [] = tt
members before (x ∷ xs) = (
  here before,
  subst (λ (ys : List Text). All (λ z. includes z ys ≡ true) xs) (append_assoc before (x ∷ []) xs)
      (members (before ++ x ∷ []) xs),
)
  where
    here : (ys : List Text) → includes x (ys ++ x ∷ xs) ≡ true
    here [] = rw (text_eq_refl x) refl
    here (y ∷ ys) = let rest = here ys in ground arith

traverse-cons :
    {A B : Type 0} (f : A → Result Failure B) (x : A) (xs : List A) {zs : List B}
    → traverse f (x ∷ xs) ≡ ok zs
    → (y : B) × (ys : List B) × (f x ≡ ok y) × (traverse f xs ≡ ok ys) × (zs ≡ y ∷ ys)
traverse-cons f x xs h =
    let (y, e, h1) = >>=-eq-ok (f x) (λ z. traverse f xs >>= λ zs. ok (z ∷ zs)) h in
    let (ys, g, h2) = >>=-eq-ok (traverse f xs) (λ zs. ok (y ∷ zs)) h1 in (y, ys, e, g, (cc))

module _ (P : Text → Text → Option Text) where
  -- A lookup row that belongs to the path of its point.
  abbrev pub IsOwn : LookupRow → Type 0
  IsOwn l = includes l.file_path (paths_of (P l.collection l.point_id)) ≡ true

  -- A point with its path, all of whose lookup rows are there.
  abbrev pub IsHeld : List LookupRow → PreparedUpsertRow → Type 0
  IsHeld lookup p =
      (p.path_prefix ≡ P p.collection p.point_id)
      × ((f : Text)
          → includes f (paths_of (P p.collection p.point_id)) ≡ true
          → holds (row p.collection f p.point_id) lookup ≡ true)

  pub record IsKept (t : Tables) : Type 0 where
    pub points_held : All (IsHeld t.lookup) t.points
    pub rows_own : All IsOwn t.lookup

  IsOwn-rows :
      (c i : Text) (fs : List Text)
      → All (λ f. includes f (paths_of (P c i)) ≡ true) fs
      → All IsOwn (map (λ f. row c f i) fs)
  IsOwn-rows c i [] h = tt
  IsOwn-rows c i (f ∷ fs) (e, h) = (e, IsOwn-rows c i fs h)

  lookup_rows_at-IsOwn : (c i : Text) → All IsOwn (lookup_rows_at c i (P c i))
  lookup_rows_at-IsOwn c i = go (P c i) refl
    where
      go : (o : Option Text) → P c i ≡ o → All IsOwn (lookup_rows_at c i o)
      go none e = tt
      go (some path) e = elim (Bool-cases (is_empty path)) [
        | inl empty ↦ rw empty tt
        | inr other ↦ rw other (
            IsOwn-rows c i (expand_path_prefixes path) (
              subst (λ o. All (λ f. includes f (paths_of o) ≡ true) (expand_path_prefixes path))
                (sym e) (members [] (expand_path_prefixes path))))
      ]

  holds-lookup_rows_at :
      (c i f : Text) (o : Option Text)
      → includes f (paths_of o) ≡ true
      → holds (row c f i) (lookup_rows_at c i o) ≡ true
  unfolding expand_path_prefixes
  holds-lookup_rows_at c i f none h = cc
  holds-lookup_rows_at c i f (some []) h = cc
  holds-lookup_rows_at c i f (some (x ∷ xs)) h =
      holds-lookup_rows c i f (expand_path_prefixes (x ∷ xs)) h

  module _ {Float : Type 0} (platform : Platform Float) (c key : Text) where
    -- A point of a batch has the path that it had before.
    abbrev pub KeepsPath : UpsertPoint Float → Type 0
    KeepsPath p =
        extract_path_prefix platform.encode (get_or p.payload (obj no_prop)) ≡ ok (P c p.id)

    written :
        (p : UpsertPoint Float) (r : PreparedUpsertRow)
        → KeepsPath p
        → bulk_upsert_row platform c key p ≡ ok r
        → (r.collection ≡ c) × (r.point_id ≡ p.id) × (r.path_prefix ≡ P c p.id)
    unfolding bulk_upsert_row
    written p r k h = ground arith

    -- The lookup rows of one point of the batch.
    abbrev pub rows_for : UpsertPoint Float → Result Failure (List LookupRow)
    rows_for p =
        extract_path_prefix platform.encode (get_or p.payload (obj no_prop)) >>= λ file_path.
        ok (lookup_rows_at c p.id file_path)

    looked_up :
        (p : UpsertPoint Float) (ls : List LookupRow)
        → KeepsPath p
        → rows_for p ≡ ok ls
        → ls ≡ lookup_rows_at c p.id (P c p.id)
    looked_up p ls k h = ground arith

    IsHeld-append :
        (ls ms : List LookupRow) (rs : List PreparedUpsertRow)
        → All (IsHeld ms) rs
        → All (IsHeld (ls ++ ms)) rs
    IsHeld-append ls ms [] h = tt
    IsHeld-append ls ms (r ∷ rs) ((e, k), h) = (
      (
        e,
        λ f i.
            let there = k f i in
            holds-append (row r.collection f r.point_id) ls ms
            ∙ either (holds (row r.collection f r.point_id) ls) there,
      ),
      IsHeld-append ls ms rs h,
    )
      where
        either : (a : Bool) {b : Bool} → b ≡ true → (a || b) ≡ true
        either true e = refl
        either false e = e

    first-IsHeld :
        (p : UpsertPoint Float) (r : PreparedUpsertRow) (ms : List LookupRow)
        → (r.collection ≡ c) × (r.point_id ≡ p.id) × (r.path_prefix ≡ P c p.id)
        → IsHeld (lookup_rows_at c p.id (P c p.id) ++ ms) r
    first-IsHeld p r ms (a, b, d) = (
      d ∙ sym same,
      λ f i.
          holds-append (row r.collection f r.point_id) (lookup_rows_at c p.id (P c p.id)) ms
          ∙ ap (λ (q : Bool). q || holds (row r.collection f r.point_id) ms)
              (subst (λ k. holds (row k f r.point_id) (lookup_rows_at c p.id (P c p.id)) ≡ true)
                (sym a)
                (subst (λ j. holds (row c f j) (lookup_rows_at c p.id (P c p.id)) ≡ true) (sym b)
                  (holds-lookup_rows_at c p.id f (P c p.id)
                    (subst (λ o. includes f (paths_of o) ≡ true) same i)))),
    )
      where
        same : P r.collection r.point_id ≡ P c p.id
        same = ap (λ k. P k r.point_id) a ∙ ap (λ j. P c j) b

    pub batch-IsHeld :
        (batch : List (UpsertPoint Float)) (rows : List PreparedUpsertRow)
        (lss : List (List LookupRow))
        → All KeepsPath batch
        → traverse (bulk_upsert_row platform c key) batch ≡ ok rows
        → traverse rows_for batch ≡ ok lss
        → All (IsHeld (concat lss)) rows × All IsOwn (concat lss)
    batch-IsHeld [] [] [] k e f = (tt, tt)
    batch-IsHeld [] (r ∷ rows) lss k e f = cc
    batch-IsHeld [] [] (ls ∷ lss) k e f = cc
    batch-IsHeld (p ∷ batch) [] lss k e f =
        let (r, rs, er, ers, clash) = traverse-cons (bulk_upsert_row platform c key) p batch e in cc
    batch-IsHeld (p ∷ batch) (r ∷ rows) [] k e f =
        let (ls, ms, fl, fms, clash) = traverse-cons rows_for p batch f in cc
    batch-IsHeld (p ∷ batch) (r ∷ rows) (ls ∷ lss) (k, ks) e f =
        let (r', rs, er, ers, same_rows) =
          traverse-cons (bulk_upsert_row platform c key) p batch e in
        let (ls', ms, fl, fms, same_lookup) = traverse-cons rows_for p batch f in
        let same_r : r' ≡ r = cc in
        let same_rs : rs ≡ rows = cc in
        let same_ls : ls' ≡ ls = cc in
        let same_ms : ms ≡ lss = cc in
        let (held, own) =
          batch-IsHeld batch rows lss ks (rw (← same_rs) ers) (rw (← same_ms) fms) in
        let there : ls ≡ lookup_rows_at c p.id (P c p.id) = looked_up p ls k (rw (← same_ls) fl) in
        (
          (
            subst (λ qs. IsHeld (qs ++ concat lss) r) (sym there)
                (first-IsHeld p r (concat lss) (written p r k (rw (← same_r) er))),
            IsHeld-append ls (concat lss) rows held,
          ),
          All-append IsOwn ls (concat lss)
              (subst (λ qs. All IsOwn qs) (sym there) (lookup_rows_at-IsOwn c p.id)) own,
        )
