-- ===== src/Indexer/Batches.antt =====
-- createEmbeddingBatcher of src/code-indexer/repoIndexer.ts, for files that are added one after another: a
-- batch is done before the next chunk is added.
pub mod Bounds
use ydb_qdrant.Prelude.{
  ℕ, ◌+◌, List, [], ◌∷◌, ◌++◌, Bool, true, false, not, ◌&&◌, ◌||◌, ◌==◌, leb, ltb, if◌then◌else◌,
  length,
}
use ydb_qdrant.Naming.{IndexedCodeChunk}

-- `currentBatch`, `currentBatchChars`, and the batches that were scheduled.
pub record Batcher : Type 0 where
  pub scheduled : List (List IndexedCodeChunk)
  pub current : List IndexedCodeChunk
  pub chars : ℕ

abbrev pub new_batcher : Batcher
new_batcher = record { scheduled = []; current = []; chars = 0 }

abbrev pub chunk_chars : IndexedCodeChunk → ℕ
chunk_chars c = length c.chunk.text

unfoldable pub flush_current_batch : Batcher → Batcher
flush_current_batch s =
    if length s.current == 0
    then s
    else record { scheduled = s.scheduled ++ (s.current ∷ []); current = []; chars = 0 }

-- `Math.max(1, Math.floor(value ?? defaultValue))` bounds both.
module _ (batch_size max_chars : ℕ) where
  unfoldable pub make_place : Batcher → IndexedCodeChunk → Batcher
  make_place s c =
      if not (length s.current == 0)
        && (leb batch_size (length s.current) || ltb max_chars (s.chars + chunk_chars c))
      then flush_current_batch s
      else s

  unfoldable pub push_to_batch : Batcher → IndexedCodeChunk → Batcher
  push_to_batch s c = record {
    scheduled = s.scheduled;
    current = s.current ++ (c ∷ []);
    chars = s.chars + chunk_chars c;
  }

  unfoldable pub flush_full : Batcher → Batcher
  flush_full s =
      if leb batch_size (length s.current) || leb max_chars s.chars
      then flush_current_batch s
      else s

  unfoldable pub add_chunk : Batcher → IndexedCodeChunk → Batcher
  add_chunk s c = flush_full (push_to_batch (make_place s c) c)

  unfoldable pub add_chunks : Batcher → List IndexedCodeChunk → Batcher
  add_chunks s [] = s
  add_chunks s (c ∷ cs) = add_chunks (add_chunk s c) cs
