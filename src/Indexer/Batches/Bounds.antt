-- ===== src/Indexer/Batches/Bounds.antt =====
-- The batches hold all chunks, in their order, and none is larger than it may be.
use mathlib.Core.List.{append_assoc, append-nil}
use ydb_qdrant.Prelude.{
  ℕ, suc, ◌+◌, ◌≤◌, List, [], ◌∷◌, ◌++◌, true, ◌||◌, ◌==◌, ◌≡◌, ◌⊎◌, refl, sym, ap, ◌∙◌, inl, inr,
  arith, Bool-cases, leb, ltb, length, length-append, All, All-append,
}
use ydb_qdrant.Naming.{IndexedCodeChunk}
use ydb_qdrant.Indexer.Batches.{
  Batcher, new_batcher, chunk_chars, flush_current_batch, make_place, push_to_batch, flush_full,
  add_chunk, add_chunks,
}

abbrev pub total_chars : List IndexedCodeChunk → ℕ
total_chars [] = 0
total_chars (c ∷ cs) = chunk_chars c + total_chars cs

abbrev pub flatten : List (List IndexedCodeChunk) → List IndexedCodeChunk
flatten [] = []
flatten (b ∷ bs) = b ++ flatten bs

total_chars-append :
    (a b : List IndexedCodeChunk) → total_chars (a ++ b) ≡ total_chars a + total_chars b
total_chars-append [] b = omega arith
total_chars-append (x ∷ xs) b = omega (arith, total_chars-append xs b)

flatten-append :
    (a : List (List IndexedCodeChunk)) (b : List IndexedCodeChunk)
    → flatten (a ++ (b ∷ [])) ≡ flatten a ++ b
flatten-append [] b = append-nil b
flatten-append (x ∷ xs) b =
    ap (λ (r : List IndexedCodeChunk). x ++ r) (flatten-append xs b)
    ∙ sym (append_assoc x (flatten xs) b)

module _ (batch_size max_chars : ℕ) where
  -- A batch has a chunk, at most as many as it may, and is of one chunk if it has too many characters.
  abbrev pub IsBatch : List IndexedCodeChunk → Type 0
  IsBatch b =
      (1 ≤ length b) × (length b ≤ batch_size) × ((total_chars b ≤ max_chars) ⊎ (length b ≡ 1))

  -- Between two chunks.
  record Holds (all : List IndexedCodeChunk) (s : Batcher) : Type 0 where
    batches : All IsBatch s.scheduled
    kept : flatten s.scheduled ++ s.current ≡ all
    counted : s.chars ≡ total_chars s.current
    small : length s.current ≤ batch_size
    few : (total_chars s.current ≤ max_chars) ⊎ (length s.current ≡ 1)

  nil_of_nothing : (b : List IndexedCodeChunk) → (length b == 0) ≡ true → b ≡ []
  nil_of_nothing [] e = refl
  nil_of_nothing (x ∷ xs) e = absurd (ground arith)

  flush-Holds :
      (all : List IndexedCodeChunk) (s : Batcher)
      → Holds all s
      → Holds all (flush_current_batch s) × ((flush_current_batch s).current ≡ [])
  unfolding flush_current_batch
  flush-Holds all s h = elim (Bool-cases (length s.current == 0)) [
    | inl e ↦ rw e (h, nil_of_nothing s.current e)
    | inr e ↦ rw e (
      record {
        batches = All-append IsBatch s.scheduled _ h.batches ((ground arith, h.small, h.few), tt);
        kept = append-nil _ ∙ flatten-append s.scheduled s.current ∙ h.kept;
        counted = refl;
        small = omega arith;
        few = inl (omega arith);
      },
      refl,
    )
  ]

  -- There is place for the chunk.
  abbrev HasRoom : Batcher → IndexedCodeChunk → Type 0
  HasRoom s c =
      (s.current ≡ [])
      ⊎ ((suc (length s.current) ≤ batch_size) × (s.chars + chunk_chars c ≤ max_chars))

  make_place-Holds :
      (all : List IndexedCodeChunk) (s : Batcher) (c : IndexedCodeChunk)
      → Holds all s
      → Holds all (make_place batch_size max_chars s c)
        × HasRoom (make_place batch_size max_chars s c) c
  unfolding make_place
  make_place-Holds all s c h = elim (Bool-cases (length s.current == 0)) [
    | inl e ↦ rw e (h, inl (nil_of_nothing s.current e))
    | inr e ↦
        elim (Bool-cases
          (leb batch_size (length s.current) || ltb max_chars (s.chars + chunk_chars c))) [
            | inl d ↦ rw (e, d) (let (k, n) = flush-Holds all s h in (k, inl n))
            | inr d ↦ rw (e, d) (h, inr (ground arith, ground arith))
          ]
  ]

  push-Holds :
      (all : List IndexedCodeChunk) (s : Batcher) (c : IndexedCodeChunk)
      → 1 ≤ batch_size
      → Holds all s
      → HasRoom s c
      → Holds (all ++ (c ∷ [])) (push_to_batch batch_size max_chars s c)
  unfolding push_to_batch
  push-Holds all s c b h room = record {
    batches = h.batches;
    kept =
        sym (append_assoc (flatten s.scheduled) s.current (c ∷ []))
        ∙ ap (λ r. r ++ (c ∷ [])) h.kept;
    counted = omega (arith, total_chars-append s.current (c ∷ []), h.counted);
    small = fits room;
    few = few_now room;
  }
    where
      fits : HasRoom s c → length (s.current ++ (c ∷ [])) ≤ batch_size
      fits (inl e) = rw e b
      fits (inr (l, m)) = omega (arith, length-append s.current (c ∷ []))

      few_now :
          HasRoom s c
          → (total_chars (s.current ++ (c ∷ [])) ≤ max_chars) ⊎ (length (s.current ++ (c ∷ [])) ≡ 1)
      few_now (inl e) = rw e (inr refl)
      few_now (inr (l, m)) = inl (omega (arith, total_chars-append s.current (c ∷ []), h.counted))

  flush_full-Holds :
      (all : List IndexedCodeChunk) (s : Batcher)
      → Holds all s
      → Holds all (flush_full batch_size max_chars s)
  unfolding flush_full
  flush_full-Holds all s h =
      elim (Bool-cases (leb batch_size (length s.current) || leb max_chars s.chars)) [
        | inl e ↦ rw e (flush-Holds all s h).0
        | inr e ↦ rw e h
      ]

  add_chunks-Holds :
      (cs all : List IndexedCodeChunk) (s : Batcher)
      → 1 ≤ batch_size
      → Holds all s
      → Holds (all ++ cs) (add_chunks batch_size max_chars s cs)
  unfolding add_chunks add_chunk
  add_chunks-Holds [] all s b h = rw (append-nil all) h
  add_chunks-Holds (c ∷ cs) all s b h =
      let (k, room) = make_place-Holds all s c h in
      let pushed = push-Holds all _ c b k room in
      rw (← (append_assoc all (c ∷ []) cs))
        (add_chunks-Holds cs (all ++ (c ∷ [])) _ b (flush_full-Holds _ _ pushed))

  -- If chunks are added one after another and the batcher is flushed, then its batches, one behind
  -- the other, are the chunks in their order; each batch has at least one chunk and at most as many
  -- as the batch size, and no more characters than the limit unless it is a single chunk.
  pub batches_of_chunks :
      (cs : List IndexedCodeChunk)
      → 1 ≤ batch_size
      → All IsBatch (flush_current_batch (add_chunks batch_size max_chars new_batcher cs)).scheduled
        × (flatten (flush_current_batch (add_chunks batch_size max_chars new_batcher cs)).scheduled
            ≡ cs)
  batches_of_chunks cs b =
      let start : Holds [] new_batcher = record {
        batches = tt;
        kept = refl;
        counted = refl;
        small = omega arith;
        few = inl (omega arith);
      } in
      let (h, e) = flush-Holds cs _ (add_chunks-Holds cs [] new_batcher b start) in
      (h.batches, sym (append-nil _) ∙ rw e at h.kept)
