-- ===== src/Indexer/Synced.antt =====
-- A push that is applied without an exception leaves the index and the manifest as the new commit has them.
use ydb_qdrant.Prelude.{
  ℕ, List, [], ◌∷◌, true, false, ◌≡◌, ◌≢◌, refl, ap, inl, inr, Bool-cases, Option, none, some,
  get_or, ok, map, length, All,
}
use ydb_qdrant.Text.{Text}
use ydb_qdrant.Text.Laws.{Without}
use ydb_qdrant.Chunker.{CodeChunk}
use ydb_qdrant.Chunker.Files.{should_index_file}
use ydb_qdrant.Chunker.Smart.Origin.{IsOf}
use ydb_qdrant.Naming.{IndexedCodeChunk}
use ydb_qdrant.Indexer.{
  ManifestFile, ChangedFile, FileMap, map_get, Points, truthy, Source, indexed_chunk, is_removed,
}
use ydb_qdrant.Indexer.Push.{Progress, before_change}
use ydb_qdrant.Indexer.Stored.{at, ArePaths, IsPoint, AreAt}
use ydb_qdrant.Indexer.Cleared.{
  is_previous, names_path, cleared, KnownPrevious, cleared-IsPoint, cleared-here, cleared-others,
  cleared_entry,
}
use ydb_qdrant.Indexer.Outcome.{chunks_of, entry_of}

-- The chunk count of an entry, and that of a file with these chunks: none is stored without one.
abbrev pub entry_count : Option ManifestFile → Option (Option ℕ)
entry_count none = none
entry_count (some file) = some file.chunk_count

abbrev pub count_of : List CodeChunk → Option (Option ℕ)
count_of [] = none
count_of (c ∷ cs) = some (some (length (c ∷ cs)))

-- The points and the entry of a path are those of these chunks.
pub record IsSyncedAt (q : Text) (cs : List CodeChunk) (files : FileMap) (points : Points)
    : Type 0 where
  pub points_are : map (λ (c : IndexedCodeChunk). c.chunk) (at q points) ≡ cs
  pub entry_is : entry_count (map_get q files) ≡ count_of cs

pub map-indexed :
    (source : Source) (blob : Text) (cs : List CodeChunk)
    → map (λ (c : IndexedCodeChunk). c.chunk) (map (indexed_chunk source blob) cs) ≡ cs
unfolding indexed_chunk
map-indexed source blob [] = refl
map-indexed source blob (c ∷ cs) = ap (λ (r : List CodeChunk). c ∷ r) (map-indexed source blob cs)

pub count_of-some :
    (blob path : Text) (cs : List CodeChunk)
    → cs ≢ []
    → entry_count (some (entry_of blob path cs)) ≡ count_of cs
count_of-some blob path [] n = absurd (n refl)
count_of-some blob path (c ∷ cs) n = refl

-- What a push relies on.
pub record IsSound (source : Source) (Known : Text → Type 0) (content : Text → Option Text)
    : Type 0 where
  pub paths : ArePaths Known
  pub no_collision : (s t : Text) → source.sha256_hex s ≡ source.sha256_hex t → s ≡ t
  pub chunks_are : (path text : Text) → All (IsOf path) (source.chunk_file path text)
  pub after_without : Without 0 source.after
  pub reads :
      (path : Text) (found : Option Text)
      → source.get_file_content path ≡ ok found
      → found ≡ content path

-- What GitHub says of a changed file: a file that was removed, or that has another name now, is not in the
-- commit.
pub record IsChange (source : Source) (Known : Text → Type 0) (content : Text → Option Text)
    (change : ChangedFile) : Type 0 where
  pub known : Known change.filename
  pub known_previous : KnownPrevious Known (truthy change.previous_filename)
  pub moved : (q : Text) → is_previous (truthy change.previous_filename) q ≡ true → content q ≡ none
  pub removed : is_removed source change ≡ true → content change.filename ≡ none
  pub blob_without : Without 0 (get_or change.sha source.after)

module _ (source : Source) (Known : Text → Type 0) (content : Text → Option Text)
    (sound : IsSound source Known content) where
  pub no_content : (q : Text) → content q ≡ none → chunks_of source content q ≡ []
  no_content q e = elim (Bool-cases (should_index_file source.to_lower q none source.options)) [
    | inl d ↦ rw (d, e) refl
    | inr d ↦ rw d refl
  ]

  pub new-IsPoint :
      (path blob : Text)
      → Known path
      → Without 0 blob
      → (cs : List CodeChunk) → All (IsOf path) cs
      → All (IsPoint Known) (map (indexed_chunk source blob) cs)
        × AreAt path (map (indexed_chunk source blob) cs)
  unfolding indexed_chunk IsOf
  new-IsPoint path blob k w [] h = (tt, tt)
  new-IsPoint path blob k w (c ∷ cs) ((e, f), h) =
      let (points, here) = new-IsPoint path blob k w cs h in
      (
        (
          record {
            known = rw e k;
            origin = (refl, rw e f);
            without_nul = record {
              ref_without = sound.after_without;
              path_without = rw e (sound.paths.no_nul path k);
              blob_without = w;
            };
          },
          points,
        ),
        (e, here),
      )

  pub chunks_of-IsOf : (path : Text) → All (IsOf path) (chunks_of source content path)
  chunks_of-IsOf path =
      elim (Bool-cases (should_index_file source.to_lower path none source.options)) [
        | inl d ↦ rw d (found (content path))
        | inr d ↦ rw d tt
      ]
    where
      found :
          (o : Option Text)
          → All (IsOf path) (elim o [ none ↦ [] | some text ↦ source.chunk_file path text ])
      found none = tt
      found (some text) = sound.chunks_are path text

  module _ (change : ChangedFile) (is_change : IsChange source Known content change)
      (s : Progress source) (points : Points) (points_ok : All (IsPoint Known) points) where
    -- The state when the changed file is read.
    abbrev pub ready : Progress source
    ready = before_change source s change

    abbrev pub left : Points
    left = cleared change points

    pub left_ok : All (IsPoint Known) left
    left_ok =
        cleared-IsPoint Known sound.paths change is_change.known is_change.known_previous points
          points_ok

    -- A path that the change names is as in the commit, if that has nothing of it.
    pub cleared-Synced :
        (q : Text)
        → names_path change q ≡ true
        → chunks_of source content q ≡ []
        → IsSyncedAt q (chunks_of source content q) ready.files left
    cleared-Synced q e n = rw n (record {
      points_are =
          rw
            (cleared-here Known sound.paths change is_change.known is_change.known_previous q points
              points_ok e)
            refl;
      entry_is = rw (cleared_entry source s change q, e) refl;
    })

    pub kept-Synced :
        (q : Text) (cs : List CodeChunk)
        → names_path change q ≡ false
        → IsSyncedAt q cs s.files points
        → IsSyncedAt q cs ready.files left
    kept-Synced q cs e h = record {
      points_are =
          rw
            (cleared-others Known sound.paths change is_change.known is_change.known_previous q
              points points_ok e)
            h.points_are;
      entry_is = rw (cleared_entry source s change q, e) h.entry_is;
    }
