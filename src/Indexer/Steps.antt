-- ===== src/Indexer/Steps.antt =====
-- What one changed file of a push does to the index and to the manifest.
use mathlib.Core.Path.{subst}
use ydb_qdrant.Prelude.{
  ℕ, List, [], true, false, ◌≡◌, ◌≢◌, refl, sym, ap, ◌∙◌, inl, inr, arith, Bool-cases, Option, none,
  some, get_or, Result, ok, err, map, All,
}
use ydb_qdrant.Text.{Text, text_eq}
use ydb_qdrant.Text.Laws.{text_eq_refl, text_eq_sound}
use ydb_qdrant.Chunker.{CodeChunk}
use ydb_qdrant.Chunker.Paths.{path_segments_for_path}
use ydb_qdrant.Naming.{IndexedCodeChunk}
use ydb_qdrant.Indexer.{
  ManifestFile, ChangedFile, Failure, FileMap, map_set, Points, put_points, Source, indexed_chunk,
  is_removed, truthy, delete_call, previous_call, apply_cleared, apply_changed_file,
}
use ydb_qdrant.Indexer.Maps.{map_get-map_set}
use ydb_qdrant.Indexer.Push.{Progress, before_change, after_change}
use ydb_qdrant.Indexer.Stored.{
  IsPoint, AreAt, put_points-others, put_points-new, put_points-IsPoint,
}
use ydb_qdrant.Indexer.Cleared.{names_path, cleared, cleared-here}
use ydb_qdrant.Indexer.Outcome.{
  chunks_of, entry_of, Outcome, Stores, attempt-ok, index_single_file-Outcome, nothing_stored,
}
use ydb_qdrant.Indexer.Synced.{
  IsSound, IsChange, IsSyncedAt, no_content, new-IsPoint, chunks_of-IsOf, left_ok, cleared-Synced,
  kept-Synced, map-indexed, count_of-some,
}

-- An exception is no result.
pub thrown :
    {A : Type 0} (points left : Points) (x : Failure) (a : A)
    → ◌≡◌ {A = Points × Result Failure A} (points, err x) (left, ok a)
    → ⊥
thrown points left x a e = cc

module _ (source : Source) (Known : Text → Type 0) (content : Text → Option Text)
    (sound : IsSound source Known content) where
  -- What a change does to the paths that it names, and to the others.
  pub record Follows (change : ChangedFile) (s : Progress source) (points : Points)
      (files : FileMap) (new : Points) : Type 0 where
    pub all_ok : All (IsPoint Known) new
    pub named :
        (q : Text)
        → names_path change q ≡ true
        → IsSyncedAt q (chunks_of source content q) files new
    pub others :
        (q : Text) (cs : List CodeChunk)
        → names_path change q ≡ false
        → IsSyncedAt q cs s.files points
        → IsSyncedAt q cs files new

  module _ (change : ChangedFile) (is_change : IsChange source Known content change)
      (s : Progress source) (points : Points) (points_ok : All (IsPoint Known) points) where
    -- Only the path of the file can have chunks in the commit.
    empty_previous :
        (q : Text)
        → names_path change q ≡ true
        → text_eq q change.filename ≡ false
        → chunks_of source content q ≡ []
    empty_previous q e d = no_content source Known content sound q (is_change.moved q (rw d at e))

    nothing-Follows :
        chunks_of source content change.filename ≡ []
        → Follows change s points (before_change source s change).files (cleared change points)
    nothing-Follows n = record {
      all_ok = left_ok source Known content sound change is_change s points points_ok;
      named = λ q e.
          cleared-Synced source Known content sound change is_change s points points_ok q e
            (elim (Bool-cases (text_eq q change.filename)) [
              | inl d ↦ ap (λ x. chunks_of source content x) (text_eq_sound q change.filename d) ∙ n
              | inr d ↦ empty_previous q e d
            ]);
      others = kept-Synced source Known content sound change is_change s points points_ok;
    }

    abbrev here : Text
    here = change.filename

    abbrev chunks_here : List CodeChunk
    chunks_here = chunks_of source content change.filename

    module _ (blob : Text) (same_blob : blob ≡ get_or change.sha source.after) where
      abbrev new_points : List IndexedCodeChunk
      new_points = map (indexed_chunk source blob) chunks_here

      abbrev next_files : FileMap
      next_files =
          map_set here (entry_of blob here chunks_here) (before_change source s change).files

      abbrev next_points : Points
      next_points = put_points source.sha256_hex new_points (cleared change points)

      new_ok : All (IsPoint Known) new_points × AreAt here new_points
      new_ok =
          new-IsPoint source Known content sound here blob is_change.known
            (rw same_blob is_change.blob_without) chunks_here
            (chunks_of-IsOf source Known content sound here)

      away-Synced :
          (q : Text) (cs : List CodeChunk)
          → text_eq q here ≡ false
          → IsSyncedAt q cs (before_change source s change).files (cleared change points)
          → IsSyncedAt q cs next_files next_points
      away-Synced q cs d h = record {
        points_are =
            rw
              (put_points-others Known source.sha256_hex sound.no_collision q here new_points
                (cleared change points)
                (left_ok source Known content sound change is_change s points points_ok) new_ok.0
                new_ok.1 d)
              h.points_are;
        entry_is =
            rw
              (
                map_get-map_set q here (entry_of blob here chunks_here)
                    (before_change source s change).files,
                d,
              )
              h.entry_is;
      }

      here-Synced : chunks_here ≢ [] → IsSyncedAt here chunks_here next_files next_points
      here-Synced n = record {
        points_are =
            rw
              (put_points-new Known source.sha256_hex sound.no_collision here new_points
                (cleared change points) new_ok.1
                (cleared-here Known sound.paths change is_change.known is_change.known_previous here
                  points points_ok (rw (text_eq_refl here) refl)))
              (map-indexed source blob chunks_here);
        entry_is =
            rw
              (
                map_get-map_set here here (entry_of blob here chunks_here)
                    (before_change source s change).files,
                text_eq_refl here,
              )
              (count_of-some blob here chunks_here n);
      }

      exactly-Follows : chunks_here ≢ [] → Follows change s points next_files next_points
      exactly-Follows n = record {
        all_ok =
            put_points-IsPoint Known source.sha256_hex sound.no_collision new_points
              (cleared change points)
              (left_ok source Known content sound change is_change s points points_ok) new_ok.0;
        named = λ q e. elim (Bool-cases (text_eq q here)) [
          | inr d ↦ away-Synced q _ d (
              cleared-Synced source Known content sound change is_change s points points_ok q e
                (empty_previous q e d))
          | inl d ↦ subst_path q (text_eq_sound q here d) (here-Synced n)
        ];
        others = λ q cs e h.
            away-Synced q cs (ground arith)
              (kept-Synced source Known content sound change is_change s points points_ok q cs e h);
      }
        where
          subst_path :
              (q : Text)
              → q ≡ here
              → IsSyncedAt here chunks_here next_files next_points
              → IsSyncedAt q (chunks_of source content q) next_files next_points
          subst_path q e h =
              subst (λ x. IsSyncedAt x (chunks_of source content x) next_files next_points) (sym e)
                h

    stored-Follows :
        (blob : Text) (next : Points) (file : ManifestFile)
        → blob ≡ get_or change.sha source.after
        → Stores source content change.filename blob (cleared change points) next file
        → Follows change s points
            (map_set file.path file (before_change source s change).files)
            next
    stored-Follows blob next file same_blob st =
        rw (st.file_is, st.left_is, st.new_is) (exactly-Follows blob same_blob st.some_chunk)

    from_Outcome :
        (next : Points) (file : Option ManifestFile)
        → Outcome source content here
            (get_or change.sha source.after)
            (cleared change points)
            next
            file
        → Follows change s points
            (after_change source (before_change source s change) file).files
            next
    unfolding Outcome after_change
    from_Outcome next none (e, n) = rw e (nothing-Follows n)
    from_Outcome next (some file) st =
        stored-Follows (get_or change.sha source.after) next file refl st

    pub apply_changed_file-Follows :
        (count : ℕ) (next : Points) (file : Option ManifestFile)
        → apply_changed_file source count points change ≡ (next, ok file)
        → Follows change s points
            (after_change source (before_change source s change) file).files
            next
    unfolding apply_changed_file apply_cleared
    apply_changed_file-Follows count next file h = elim (Bool-cases (is_removed source change)) [
      | inl e ↦
          (let done : ◌≡◌ {A = Points × Result Failure (Option ManifestFile)}
                (cleared change points, ok none) (next, ok file) =
              rw (apply_cleared, e) at applied in
            from_Outcome next file (
              nothing_stored source content sound.reads here (get_or change.sha source.after)
                (cleared change points) next file (cc) (cc)
                (no_content source Known content sound here (is_change.removed e))))
      | inr e ↦ from_Outcome next file (
          index_single_file-Outcome source content sound.reads count here
            (get_or change.sha source.after) (cleared change points) next file
            (rw (apply_cleared, e) at applied))
    ]
      where
        applied : apply_cleared source count (cleared change points) change ≡ (next, ok file)
        applied =
            let cleared_previous =
              attempt-ok (previous_call source (truthy change.previous_filename)) _ _ h in
            (attempt-ok (delete_call source (path_segments_for_path here)) _ _
              (cleared_previous.1)).1
