-- ===== src/Chunker/Windows/Complete.antt =====
-- The loop over windows reaches every line: its step is at least one line, and no longer than a window.
use ydb_qdrant.Prelude.{
  ℕ, zero, suc, ◌+◌, ◌-◌, ◌≤◌, ◌<◌, min, List, [], ◌∷◌, true, false, ◌≡◌, refl, inl, inr, ltb, leb,
  arith, Bool-cases, length, take, drop, any,
}
use ydb_qdrant.Text.{Text}
use ydb_qdrant.Chunker.{
  ChunkingOptions, CodeChunk, normalized_chunk_lines, normalized_overlap_lines,
  normalized_max_chunk_chars,
}
use ydb_qdrant.Chunker.Windows.{Labels, push_bounded_line_chunks, windows_from, chunk_lines_of}
use ydb_qdrant.Chunker.Windows.Loop.{windows_from-kept}
use ydb_qdrant.Chunker.Windows.Cover.{has_line, ink_at, push_chunk-kept, push_bounded-new}

ink_at-lt : (i : ℕ) (lines : List Text) → ink_at i lines ≡ true → i < length lines
ink_at-lt i [] k = cc
ink_at-lt zero (x ∷ xs) k = omega arith
ink_at-lt (suc i) (x ∷ xs) k = omega (arith, ink_at-lt i xs k)

ink_at-drop : (s i : ℕ) (lines : List Text) → ink_at (s + i) lines ≡ ink_at i (drop s lines)
ink_at-drop zero i lines = let same : 0 + i ≡ i = omega arith in rw same refl
ink_at-drop (suc s) i [] = refl
ink_at-drop (suc s) i (x ∷ xs) =
    let same : suc s + i ≡ suc (s + i) = omega arith in rw same (ink_at-drop s i xs)

ink_at-take : (n i : ℕ) (lines : List Text) → i < n → ink_at i (take n lines) ≡ ink_at i lines
ink_at-take zero i lines h = absurd (omega arith)
ink_at-take (suc n) i [] h = refl
ink_at-take (suc n) zero (x ∷ xs) h = refl
ink_at-take (suc n) (suc i) (x ∷ xs) h = ink_at-take n i xs (omega arith)

-- A line of the file, in the window that reads it.
ink_at-window :
    (start n i : ℕ) (lines : List Text)
    → ink_at i lines ≡ true
    → start ≤ i
    → i < start + n
    → ink_at (i - start) (take n (drop start lines)) ≡ true
ink_at-window start n i lines k a b =
    let same : start + (i - start) ≡ i = omega arith in
    rw
      (
        ink_at-take n (i - start) (drop start lines) (omega arith),
        ← (ink_at-drop start (i - start) lines),
        same,
      )
      k

module _ (to_lower : Text → Text) (labels : Labels) (path : Text) where
  windows_from_complete :
      (limit size step : ℕ) (lines : List Text) (base f start i : ℕ) (chunks : List CodeChunk)
      → 1 ≤ limit
      → 1 ≤ step
      → step ≤ size
      → start ≤ i
      → i < start + f
      → ink_at i lines ≡ true
      → any
          (has_line (base + i))
          (windows_from to_lower labels path limit size step lines base f start chunks)
        ≡ true
  unfolding windows_from
  windows_from_complete limit size step lines base zero start i chunks m p q a b k =
      absurd (omega arith)
  windows_from_complete limit size step lines base (suc f) start i chunks m p q a b k =
      let end_exclusive = min (start + size) (length lines) in
      let window = take (end_exclusive - start) (drop start lines) in
      let pushed =
        push_bounded_line_chunks to_lower labels path limit chunks window (base + start) in
      let inside : ltb start (length lines) ≡ true = ground (arith, ink_at-lt i lines k) in
      elim (Bool-cases (ltb i end_exclusive)) [
        | inl e ↦
            (let new : any (has_line (base + i)) pushed ≡ true =
                push_bounded-new to_lower labels path (base + i) limit chunks window (base + start)
                  (i - start) (omega arith) m
                  (ink_at-window start (end_exclusive - start) i lines k a (ground arith)) in
              elim (Bool-cases (leb (length lines) end_exclusive)) [
                | inl d ↦ rw (inside, d) new
                | inr d ↦ rw (inside, d) (later f (start + step) pushed new)
              ])
        | inr e ↦
            (let d : leb (length lines) end_exclusive ≡ false =
                ground (arith, ink_at-lt i lines k) in
              rw (inside, d)
                (windows_from_complete limit size step lines base f (start + step) i pushed m p q
                  (ground (arith, ink_at-lt i lines k)) (omega arith) k))
      ]
    where
      later :
          (f start : ℕ) (chunks : List CodeChunk)
          → any (has_line (base + i)) chunks ≡ true
          → any
              (has_line (base + i))
              (windows_from to_lower labels path limit size step lines base f start chunks)
            ≡ true
      later f start chunks h =
          windows_from-kept to_lower labels path limit base (base + length lines)
            (λ cs. any (has_line (base + i)) cs ≡ true)
            (λ cs ls first final _ _ _ _ g.
              push_chunk-kept to_lower labels path (base + i) cs ls first final g)
            size step lines base f start chunks (omega arith) (omega arith) h

  -- No line is lost: whatever the options, a line of the file that is not blank lies between the
  -- first and the last line of one of the chunks that the line windows make.
  pub chunk_lines_of_complete :
      (options : ChunkingOptions) (lines : List Text) (base i : ℕ)
      → ink_at i lines ≡ true
      → any (has_line (base + i)) (chunk_lines_of to_lower labels path options lines base) ≡ true
  unfolding chunk_lines_of normalized_chunk_lines normalized_overlap_lines
      normalized_max_chunk_chars
  chunk_lines_of_complete options lines base i k =
      windows_from_complete _ _ _ lines base (length lines) 0 i [] (omega arith) (omega arith)
        (omega arith) (omega arith) (omega (arith, ink_at-lt i lines k)) k
