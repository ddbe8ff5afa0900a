-- ===== src/Indexer/Outcome.antt =====
-- What a change that was applied without an exception has done.
use ydb_qdrant.Prelude.{
  ℕ, ◌+◌, Bool, true, false, not, ◌&&◌, is_some, List, [], ◌∷◌, ◌==◌, ◌≡◌, ◌≢◌, refl, sym, ◌∙◌, inl,
  inr, Bool-cases, Option, none, some, Option-cases, Result, ok, err, if◌then◌else◌, map, length,
}
use ydb_qdrant.Text.{Text}
use ydb_qdrant.Chunker.{CodeChunk}
use ydb_qdrant.Chunker.Files.{should_index_file}
use ydb_qdrant.Naming.{IndexedCodeChunk}
use ydb_qdrant.Indexer.{
  ManifestFile, Failure, progress_error, CallResult, works, fails, attempt, fetching_file, chunking,
  embedding, upserting, upserts, Points, Prepared, Source, put_points, upsert_chunks, indexed_chunk,
  prepared, chunked, read_and_chunk_single_file, check_chunks, embed_and_upsert_chunks, stored_file,
  store_prepared, index_single_file,
}

-- The chunks of a path in a commit, by the content of its files.
abbrev pub chunks_of : Source → (Text → Option Text) → Text → List CodeChunk
chunks_of source content path =
    if should_index_file source.to_lower path none source.options
    then elim (content path) [ none ↦ [] | some text ↦ source.chunk_file path text ]
    else []

-- The entry of a file with these chunks.
abbrev pub entry_of : Text → Text → List CodeChunk → ManifestFile
entry_of blob_sha path cs = record {
  blob_sha = blob_sha;
  chunk_count = some (length cs);
  path = path;
}

-- What is left of a chain of calls that returned.
pub attempt-ok :
    {A : Type 0} (c : CallResult) (before after : Points) {left : Points}
    {rest : Points × Result Failure A} {a : A}
    → attempt c before after rest ≡ (left, ok a)
    → (c ≡ works) × (rest ≡ (left, ok a))
attempt-ok works before after h = (refl, h)
attempt-ok (fails b) before after h = cc

module _ (source : Source) where
  prepared-some :
      (blob path : Text) (cs : List CodeChunk) (p : Prepared)
      → prepared source blob path cs ≡ some p
      → (p.chunks ≡ map (indexed_chunk source blob) cs)
        × (p.file ≡ entry_of blob path cs)
        × (cs ≢ [])
  unfolding prepared
  prepared-some blob path [] p h = cc
  prepared-some blob path (c ∷ cs) p h = (cc, cc, λ e. cc)

  prepared-none :
      (blob path : Text) (cs : List CodeChunk) → prepared source blob path cs ≡ none → cs ≡ []
  unfolding prepared
  prepared-none blob path [] h = refl
  prepared-none blob path (c ∷ cs) h = cc

  -- A file that is not indexed, is not there, or has no chunk.
  chunked-prepared :
      (blob path : Text) (o : Option Text)
      → chunked source blob path o
        ≡ prepared source blob path (elim o [ none ↦ [] | some text ↦ source.chunk_file path text ])
  unfolding chunked prepared
  chunked-prepared blob path none = refl
  chunked-prepared blob path (some text) = refl

  module _ (content : Text → Option Text) where
    -- A file that is stored is stored as its chunks in the commit.
    pub record Stores (path blob : Text) (points left : Points) (file : ManifestFile) : Type 0 where
      pub new : List IndexedCodeChunk
      pub new_is : new ≡ map (indexed_chunk source blob) (chunks_of source content path)
      pub some_chunk : chunks_of source content path ≢ []
      pub file_is : file ≡ entry_of blob path (chunks_of source content path)
      pub left_is : left ≡ put_points source.sha256_hex new points

    -- Either nothing was stored, and the commit has nothing to store, or its chunks were.
    unfoldable pub Outcome : Text → Text → Points → Points → Option ManifestFile → Type 0
    Outcome path blob points left none = (left ≡ points) × (chunks_of source content path ≡ [])
    Outcome path blob points left (some file) = Stores path blob points left file

  module _ (content : Text → Option Text)
      (reads : (path : Text) (found : Option Text)
        → source.get_file_content path ≡ ok found
        → found ≡ content path) where
    read-chunked :
        (blob path : Text) (o : Option Prepared)
        → read_and_chunk_single_file source path blob ≡ ok o
        → o ≡ prepared source blob path (chunks_of source content path)
    unfolding read_and_chunk_single_file prepared
    read-chunked blob path o h =
        elim (Bool-cases (should_index_file source.to_lower path none source.options)) [
          | inr e ↦ rw e (let k = rw (read_and_chunk_single_file, e) at h in cc)
          | inl e ↦ elim (Bool-cases (source.reports (fetching_file path))) [
            | inr f ↦ (let k = rw (read_and_chunk_single_file, e, f) at h in cc)
            | inl f ↦ rw e (
                found (source.get_file_content path) refl
                  (rw (read_and_chunk_single_file, e, f) at h))
          ]
        ]
      where
        found :
            (r : Result Failure (Option Text))
            → source.get_file_content path ≡ r
            → (elim r as (λ _. Result Failure (Option Prepared)) [
              | err e ↦ err e
              | ok text ↦
                  if is_some text && not (source.reports (chunking path))
                  then err progress_error
                  else ok (chunked source blob path text)
            ])
              ≡ ok o
            → o
              ≡ prepared source blob path
                  (elim (content path) [ none ↦ [] | some text ↦ source.chunk_file path text ])
        found (err e) g k = cc
        found (ok text) g k =
            let same : text ≡ content path = reads path text g in
            let there : chunked source blob path text ≡ o =
              reported (is_some text && not (source.reports (chunking path))) _ k in
            rw (← there, ← same) (chunked-prepared blob path text)
          where
            reported :
                (c : Bool) (p : Option Prepared)
                → ◌≡◌ {A = Result Failure (Option Prepared)}
                    (if c then err progress_error else ok p)
                    (ok o)
                → p ≡ o
            reported true p k = cc
            reported false p k = cc

    embedded :
        (path : Text) (chunks : List IndexedCodeChunk) (points left : Points)
        → embed_and_upsert_chunks source path chunks points ≡ (left, ok tt)
        → chunks ≢ []
        → left ≡ put_points source.sha256_hex chunks points
    unfolding embed_and_upsert_chunks upsert_chunks
    embedded path [] points left h n = absurd (n refl)
    embedded path (c ∷ cs) points left h n = elim (Bool-cases (source.reports (embedding path))) [
      | inr f ↦ (let k = rw (embed_and_upsert_chunks, f) at h in cc)
      | inl f ↦ elim (Option-cases (source.embed_documents (map (λ d. d.chunk.text) (c ∷ cs)))) [
        | inl e ↦ (let k = rw (embed_and_upsert_chunks, f, e) at h in cc)
        | inr (vs, e) ↦ elim (Bool-cases (source.reports (upserting path))) [
          | inr g ↦ (let k = rw (embed_and_upsert_chunks, f, e, g) at h in cc)
          | inl g ↦ elim (Bool-cases (length (c ∷ cs) == length vs)) [
            | inl b ↦
                (let k = rw (embed_and_upsert_chunks, f, e, g, b) at h in
                  let (_, same) = attempt-ok (source.outcome (upserts (c ∷ cs))) _ _ k in cc)
            | inr b ↦ (let k = rw (embed_and_upsert_chunks, f, e, g, b) at h in cc)
          ]
        ]
      ]
    ]

    pub nothing_stored :
        (path blob : Text) (points left : Points) (file : Option ManifestFile)
        → file ≡ none
        → left ≡ points
        → chunks_of source content path ≡ []
        → Outcome content path blob points left file
    unfolding Outcome
    nothing_stored path blob points left none e l c = (l, c)
    nothing_stored path blob points left (some f) e l c = cc

    something_stored :
        (path blob : Text) (points left : Points) (p : Prepared) (file : Option ManifestFile)
        (r : Points × Result Failure (Unit {0}))
        → embed_and_upsert_chunks source p.file.path p.chunks points ≡ r
        → (p.chunks ≡ map (indexed_chunk source blob) (chunks_of source content path))
          × (p.file ≡ entry_of blob path (chunks_of source content path))
          × (chunks_of source content path ≢ [])
        → stored_file source p.file r ≡ (left, ok file)
        → Outcome content path blob points left file
    unfolding stored_file Outcome
    something_stored path blob points left p file (q, err e) d k h = cc
    something_stored path blob points left p none (q, ok tt) d k h = cc
    something_stored path blob points left p (some f) (q, ok tt) d (a, b, c) h = record {
      new = p.chunks;
      new_is = a;
      some_chunk = c;
      file_is = (let same : p.file ≡ f = cc in sym same ∙ b);
      left_is =
          (let same : q ≡ left = cc in
            sym same
            ∙ embedded p.file.path p.chunks points q d
                (λ e. map-nil (chunks_of source content path) c (sym a ∙ e)));
    }
      where
        map-nil : (cs : List CodeChunk) → cs ≢ [] → map (indexed_chunk source blob) cs ≡ [] → ⊥
        map-nil [] n e = n refl
        map-nil (x ∷ xs) n e = cc

    store_prepared-Outcome :
        (current : ℕ) (path blob : Text) (points left : Points) (o : Option Prepared)
        (file : Option ManifestFile)
        → o ≡ prepared source blob path (chunks_of source content path)
        → store_prepared source current points (ok o) ≡ (left, ok file)
        → Outcome content path blob points left file
    unfolding store_prepared Outcome
    store_prepared-Outcome current path blob points left none file e h =
        nothing_stored path blob points left file (cc) (cc)
          (prepared-none blob path (chunks_of source content path) (sym e))
    store_prepared-Outcome current path blob points left (some p) file e h =
        checked (check_chunks source (current + length p.chunks)) refl
      where
        checked :
            (r : Result Failure (Unit {0}))
            → check_chunks source (current + length p.chunks) ≡ r
            → Outcome content path blob points left file
        checked (err d) k = let z = rw (store_prepared, k) at h in cc
        checked (ok u) k =
            something_stored path blob points left p file _ refl
              (prepared-some blob path (chunks_of source content path) p (sym e))
              (rw (store_prepared, k) at h)

    store_prepared_err :
        (current : ℕ) (points left : Points) (e : Failure) (file : Option ManifestFile)
        → store_prepared source current points (err e) ≡ (left, ok file)
        → ⊥
    unfolding store_prepared
    store_prepared_err current points left e file h = cc

    pub index_single_file-Outcome :
        (current : ℕ) (path blob : Text) (points left : Points) (file : Option ManifestFile)
        → index_single_file source current points path blob ≡ (left, ok file)
        → Outcome content path blob points left file
    unfolding index_single_file
    index_single_file-Outcome current path blob points left file h =
        go (read_and_chunk_single_file source path blob) refl
      where
        go :
            (r : Result Failure (Option Prepared))
            → read_and_chunk_single_file source path blob ≡ r
            → Outcome content path blob points left file
        go (err e) k =
            let z : store_prepared source current points (err e) ≡ (left, ok file) =
              rw (index_single_file, k) at h in
            absurd (store_prepared_err current points left e file z)
        go (ok o) k =
            store_prepared-Outcome current path blob points left o file (read-chunked blob path o k)
              (rw (index_single_file, k) at h)
