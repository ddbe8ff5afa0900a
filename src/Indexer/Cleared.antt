-- ===== src/Indexer/Cleared.antt =====
-- Before a changed file is read, its paths have neither points nor entries, and all others are as before.
use ydb_qdrant.Prelude.{
  [], Bool, true, false, ◌||◌, ◌≡◌, refl, ◌∙◌, inl, inr, arith, Bool-cases, Option, none, some,
  if◌then◌else◌, All,
}
use ydb_qdrant.Text.{Text, text_eq}
use ydb_qdrant.Text.Laws.{text_eq_sound}
use ydb_qdrant.Chunker.Paths.{path_segments_for_path}
use ydb_qdrant.Indexer.{
  ChangedFile, FileMap, map_get, Points, delete_path, truthy, Source, delete_previous,
}
use ydb_qdrant.Indexer.Maps.{map_get-map_delete}
use ydb_qdrant.Indexer.Push.{Progress, delete_previous_entry, before_change}
use ydb_qdrant.Indexer.Stored.{
  at, ArePaths, IsPoint, delete_path-filter, delete_path-IsPoint, at-deleted, at-others,
}

-- The change names the path, as the file's or as the file's before.
abbrev pub is_previous : Option Text → Text → Bool
is_previous none q = false
is_previous (some path) q = text_eq q path

abbrev pub names_path : ChangedFile → Text → Bool
names_path change q = text_eq q change.filename || is_previous (truthy change.previous_filename) q

-- The points that are left when a changed file is read.
abbrev pub cleared : ChangedFile → Points → Points
cleared change points =
    delete_path (path_segments_for_path change.filename)
      (delete_previous (truthy change.previous_filename) points)

abbrev pub KnownPrevious : (Text → Type 0) → Option Text → Type 0
KnownPrevious Known none = Unit
KnownPrevious Known (some p) = Known p

module _ (Known : Text → Type 0) (paths : ArePaths Known) where
  deleted-here :
      (path : Text) (points : Points)
      → Known path
      → All (IsPoint Known) points
      → at path (delete_path (path_segments_for_path path) points) ≡ []
  deleted-here path points k h =
      rw (delete_path-filter Known paths path points k h) (at-deleted path points)

  deleted-others :
      (q path : Text) (points : Points)
      → Known path
      → All (IsPoint Known) points
      → text_eq q path ≡ false
      → at q (delete_path (path_segments_for_path path) points) ≡ at q points
  deleted-others q path points k h e =
      rw (delete_path-filter Known paths path points k h) (at-others q path points e)

  -- No point of a path comes back by a deletion.
  deleted-nothing :
      (q path : Text) (points : Points)
      → Known path
      → All (IsPoint Known) points
      → at q points ≡ []
      → at q (delete_path (path_segments_for_path path) points) ≡ []
  deleted-nothing q path points k h e = elim (Bool-cases (text_eq q path)) [
    | inl d ↦
        (let same : q ≡ path = text_eq_sound q path d in rw same (deleted-here path points k h))
    | inr d ↦ deleted-others q path points k h d ∙ e
  ]

  previous-IsPoint :
      (o : Option Text) (points : Points)
      → All (IsPoint Known) points
      → All (IsPoint Known) (delete_previous o points)
  unfolding delete_previous
  previous-IsPoint none points h = h
  previous-IsPoint (some p) points h = delete_path-IsPoint Known _ points h

  previous-here :
      (o : Option Text) (q : Text) (points : Points)
      → KnownPrevious Known o
      → All (IsPoint Known) points
      → is_previous o q ≡ true
      → at q (delete_previous o points) ≡ []
  unfolding delete_previous
  previous-here none q points k h e = cc
  previous-here (some p) q points k h e =
      let same : q ≡ p = text_eq_sound q p e in rw same (deleted-here p points k h)

  previous-others :
      (o : Option Text) (q : Text) (points : Points)
      → KnownPrevious Known o
      → All (IsPoint Known) points
      → is_previous o q ≡ false
      → at q (delete_previous o points) ≡ at q points
  unfolding delete_previous
  previous-others none q points k h e = refl
  previous-others (some p) q points k h e = deleted-others q p points k h e

  module _ (change : ChangedFile) (known : Known change.filename)
      (known_previous : KnownPrevious Known (truthy change.previous_filename)) where
    pub cleared-IsPoint :
        (points : Points) → All (IsPoint Known) points → All (IsPoint Known) (cleared change points)
    cleared-IsPoint points h = delete_path-IsPoint Known _ _ (previous-IsPoint _ points h)

    pub cleared-here :
        (q : Text) (points : Points)
        → All (IsPoint Known) points
        → names_path change q ≡ true
        → at q (cleared change points) ≡ []
    cleared-here q points h e = elim (Bool-cases (text_eq q change.filename)) [
      | inl d ↦
          (let same : q ≡ change.filename = text_eq_sound q change.filename d in
            rw same (deleted-here change.filename _ known (previous-IsPoint _ points h)))
      | inr d ↦
          deleted-nothing q change.filename _ known (previous-IsPoint _ points h)
            (previous-here _ q points known_previous h (rw d at e))
    ]

    pub cleared-others :
        (q : Text) (points : Points)
        → All (IsPoint Known) points
        → names_path change q ≡ false
        → at q (cleared change points) ≡ at q points
    cleared-others q points h e =
        deleted-others q change.filename _ known (previous-IsPoint _ points h) (ground arith)
        ∙ previous-others _ q points known_previous h (ground arith)

previous_entry :
    (o : Option Text) (q : Text) (files : FileMap)
    → map_get q (delete_previous_entry o files)
      ≡ (if is_previous o q then none else map_get q files)
unfolding delete_previous_entry
previous_entry none q files = refl
previous_entry (some p) q files = map_get-map_delete q p files

pub cleared_entry :
    (source : Source) (s : Progress source) (change : ChangedFile) (q : Text)
    → map_get q (before_change source s change).files
      ≡ (if names_path change q then none else map_get q s.files)
unfolding before_change
cleared_entry source s change q =
    rw
      (
        map_get-map_delete q change.filename
            (delete_previous_entry (truthy change.previous_filename) s.files),
        previous_entry (truthy change.previous_filename) q s.files,
      )
      (ground arith)
