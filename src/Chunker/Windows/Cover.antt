-- ===== src/Chunker/Windows/Cover.antt =====
-- No line with ink is lost: each one lies within the lines of a chunk.
use ydb_qdrant.Prelude.{
  ℕ, zero, suc, ◌+◌, ◌-◌, ◌≤◌, ◌<◌, List, [], ◌∷◌, ◌++◌, Bool, true, false, not, ◌&&◌, ◌==◌, ◌≡◌,
  ◌⊎◌, refl, inl, inr, ltb, leb, arith, Bool-cases, length, take, drop, any, length-drop,
}
use ydb_qdrant.Text.{Text, is_space, is_empty}
use ydb_qdrant.Text.Ink.{has_ink, any-append, any-take-drop, has_ink-join, is_empty-trim}
use ydb_qdrant.Chunker.{CodeChunk, lf}
use ydb_qdrant.Chunker.Windows.{
  Labels, Buffered, joined_text, chunk_of, push_chunk, flush, nothing_buffered, push_slices,
  push_long_line, make_room, buffer_line, push_line, push_lines, push_bounded_line_chunks,
}

-- The number `l` is between the first and the last line of the chunk.
abbrev pub has_line : ℕ → CodeChunk → Bool
has_line l c = leb c.start_line l && leb l c.end_line

-- Whether the line at an index has ink, and false past the end.
abbrev pub ink_at : ℕ → List Text → Bool
ink_at i [] = false
ink_at zero (line ∷ lines) = has_ink line
ink_at (suc i) (line ∷ lines) = ink_at i lines

is_empty-joined_text : (lines : List Text) → is_empty (joined_text lines) ≡ not (any has_ink lines)
unfolding joined_text is_space
is_empty-joined_text lines = rw (is_empty-trim _, has_ink-join lf lines refl) refl

module _ (to_lower : Text → Text) (labels : Labels) (path : Text) (l : ℕ) where
  pub push_chunk-kept :
      (chunks : List CodeChunk) (lines : List Text) (first final : ℕ)
      → any (has_line l) chunks ≡ true
      → any (has_line l) (push_chunk to_lower labels path chunks lines first final) ≡ true
  unfolding push_chunk
  push_chunk-kept chunks lines first final h =
      let c = chunk_of to_lower labels path (joined_text lines) (length chunks) first final in
      ground (arith, any-append (has_line l) chunks (c ∷ []))

  push_chunk-new :
      (chunks : List CodeChunk) (lines : List Text) (first final : ℕ)
      → any has_ink lines ≡ true
      → first ≤ l
      → l ≤ final
      → any (has_line l) (push_chunk to_lower labels path chunks lines first final) ≡ true
  unfolding push_chunk chunk_of
  push_chunk-new chunks lines first final h a b =
      let c = chunk_of to_lower labels path (joined_text lines) (length chunks) first final in
      ground (arith, is_empty-joined_text lines, any-append (has_line l) chunks (c ∷ []))

  -- The line is in a chunk, or waits in the buffer, which is to end before the line `n`.
  abbrev Held : ℕ → Buffered → Type 0
  Held n s =
      (any (has_line l) s.chunks ≡ true)
      ⊎ ((any has_ink s.buffer ≡ true) × (s.buffer_start_line ≤ l) × (l < n))

  flush-Held :
      (n : ℕ) (s : Buffered)
      → Held n s
      → any (has_line l) (flush to_lower labels path s (n - 1)).chunks ≡ true
  unfolding flush
  flush-Held n s (inl h) = push_chunk-kept s.chunks s.buffer s.buffer_start_line (n - 1) h
  flush-Held n s (inr (k, a, b)) =
      push_chunk-new s.chunks s.buffer s.buffer_start_line (n - 1) k a (omega arith)

  -- Flushing only what is there keeps it too.
  settle-Held :
      (n : ℕ) (s : Buffered)
      → Held n s
      → nothing_buffered s ≡ true
      → any (has_line l) s.chunks ≡ true
  settle-Held n s (inl h) e = h
  settle-Held n s (inr (k, a, b)) e = absurd (empty s.buffer e k)
    where
      empty : (b : List Text) → (length b == 0) ≡ true → any has_ink b ≡ true → ⊥
      empty [] e k = cc
      empty (x ∷ xs) e k = ground arith

  module _ (max_chars : ℕ) where
    push_slices-kept :
        (f : ℕ) (rest : Text) (n : ℕ) (chunks : List CodeChunk)
        → any (has_line l) chunks ≡ true
        → any (has_line l) (push_slices to_lower labels path max_chars f rest n chunks) ≡ true
    unfolding push_slices
    push_slices-kept zero rest n chunks h = h
    push_slices-kept (suc f) [] n chunks h = h
    push_slices-kept (suc f) (x ∷ xs) n chunks h =
        push_slices-kept f (drop max_chars (x ∷ xs)) n _
          (push_chunk-kept chunks (take max_chars (x ∷ xs) ∷ []) n n h)

    push_slices-new :
        (f : ℕ) (rest : Text) (chunks : List CodeChunk)
        → 1 ≤ max_chars
        → length rest ≤ f
        → has_ink rest ≡ true
        → any (has_line l) (push_slices to_lower labels path max_chars f rest l chunks) ≡ true
    unfolding push_slices
    push_slices-new zero [] chunks m h k = cc
    push_slices-new zero (x ∷ xs) chunks m h k = absurd (omega arith)
    push_slices-new (suc f) [] chunks m h k = cc
    push_slices-new (suc f) (x ∷ xs) chunks m h k =
        elim (Bool-cases (has_ink (take max_chars (x ∷ xs)))) [
          | inl e ↦ push_slices-kept f (drop max_chars (x ∷ xs)) l _ (
              push_chunk-new chunks (take max_chars (x ∷ xs) ∷ []) l l (ground arith) (omega arith)
                (omega arith))
          | inr e ↦
              push_slices-new f (drop max_chars (x ∷ xs)) _ m
                (omega (arith, length-drop max_chars (x ∷ xs)))
                (ground (arith, any-take-drop (λ c. not (is_space c)) max_chars (x ∷ xs)))
        ]

    push_long_line-Held :
        (n : ℕ) (s : Buffered) (line : Text)
        → Held n s
        → Held (n + 1) (push_long_line to_lower labels path max_chars s line n)
    unfolding push_long_line
    push_long_line-Held n s line h = elim (Bool-cases (nothing_buffered s)) [
      | inl e ↦ rw e (inl (push_slices-kept (length line) line n s.chunks (settle-Held n s h e)))
      | inr e ↦ rw e (inl (push_slices-kept (length line) line n _ (flush-Held n s h)))
    ]

    push_long_line-new :
        (s : Buffered) (line : Text)
        → 1 ≤ max_chars
        → has_ink line ≡ true
        → Held (l + 1) (push_long_line to_lower labels path max_chars s line l)
    unfolding push_long_line
    push_long_line-new s line m k = inl (push_slices-new (length line) line _ m (omega arith) k)

    make_room-Held :
        (n : ℕ) (s : Buffered) (line : Text)
        → Held n s
        → Held n (make_room to_lower labels path max_chars s line n)
    unfolding make_room
    make_room-Held n s line h =
        elim (Bool-cases (
          ltb max_chars (length (joined_text (s.buffer ++ (line ∷ []))))
          && not (nothing_buffered s))) [ inl e ↦ rw e (inl (flush-Held n s h)) | inr e ↦ rw e h ]

    make_room-start :
        (n : ℕ) (s : Buffered) (line : Text)
        → s.buffer_start_line ≤ n
        → (make_room to_lower labels path max_chars s line n).buffer_start_line ≤ n
    unfolding make_room
    make_room-start n s line h = ground arith

    buffer_line-Held :
        (n : ℕ) (s : Buffered) (line : Text)
        → Held n s
        → Held (n + 1) (buffer_line to_lower labels path max_chars s line n)
    unfolding buffer_line
    buffer_line-Held n s line (inl h) = inl h
    buffer_line-Held n s line (inr (k, a, b)) = elim (Bool-cases (nothing_buffered s)) [
      | inl e ↦ inl (settle-Held n s (inr (k, a, b)) e)
      | inr e ↦ rw e (inr (ground (arith, any-append has_ink s.buffer (line ∷ [])), a, omega arith))
    ]

    buffer_line-new :
        (s : Buffered) (line : Text)
        → s.buffer_start_line ≤ l
        → has_ink line ≡ true
        → Held (l + 1) (buffer_line to_lower labels path max_chars s line l)
    unfolding buffer_line
    buffer_line-new s line h k =
        inr (ground (arith, any-append has_ink s.buffer (line ∷ [])), ground arith, omega arith)

    push_line-Held :
        (n : ℕ) (s : Buffered) (line : Text)
        → Held n s
        → Held (n + 1) (push_line to_lower labels path max_chars s line n)
    unfolding push_line
    push_line-Held n s line h = elim (Bool-cases (ltb max_chars (length line))) [
      | inl e ↦ rw e (push_long_line-Held n s line h)
      | inr e ↦ rw e (buffer_line-Held n _ line (make_room-Held n s line h))
    ]

    push_line-new :
        (s : Buffered) (line : Text)
        → 1 ≤ max_chars
        → s.buffer_start_line ≤ l
        → has_ink line ≡ true
        → Held (l + 1) (push_line to_lower labels path max_chars s line l)
    unfolding push_line
    push_line-new s line m h k = elim (Bool-cases (ltb max_chars (length line))) [
      | inl e ↦ rw e (push_long_line-new s line m k)
      | inr e ↦ rw e (buffer_line-new _ line (make_room-start l s line h) k)
    ]

    push_line-start :
        (n : ℕ) (s : Buffered) (line : Text)
        → s.buffer_start_line ≤ n
        → (push_line to_lower labels path max_chars s line n).buffer_start_line ≤ n + 1
    unfolding push_line push_long_line buffer_line
    push_line-start n s line h = elim (Bool-cases (ltb max_chars (length line))) [
      | inl e ↦ rw e (omega arith)
      | inr e ↦ rw e (ground (arith, make_room-start n s line h))
    ]

    push_lines-Held :
        (n m : ℕ) (s : Buffered) (lines : List Text)
        → m ≡ n + length lines
        → Held n s
        → Held m (push_lines to_lower labels path max_chars s lines n)
    unfolding push_lines
    push_lines-Held n m s [] e h = let same : m ≡ n = omega arith in rw same h
    push_lines-Held n m s (line ∷ lines) e h =
        push_lines-Held (n + 1) m _ lines (omega arith) (push_line-Held n s line h)

    push_lines-new :
        (n m i : ℕ) (s : Buffered) (lines : List Text)
        → m ≡ n + length lines
        → l ≡ n + i
        → 1 ≤ max_chars
        → s.buffer_start_line ≤ n
        → ink_at i lines ≡ true
        → Held m (push_lines to_lower labels path max_chars s lines n)
    unfolding push_lines
    push_lines-new n m i s [] e d c h k = cc
    push_lines-new n m zero s (line ∷ lines) e d c h k =
        let same : n ≡ l = omega arith in
        push_lines-Held (n + 1) m _ lines (omega arith)
          (rw same (push_line-new s line c (omega arith) k))
    push_lines-new n m (suc i) s (line ∷ lines) e d c h k =
        push_lines-new (n + 1) m i _ lines (omega arith) (omega arith) c
          (push_line-start n s line h) k

    pub push_bounded-new :
        (chunks : List CodeChunk) (lines : List Text) (n i : ℕ)
        → l ≡ n + i
        → 1 ≤ max_chars
        → ink_at i lines ≡ true
        → any (has_line l) (push_bounded_line_chunks to_lower labels path max_chars chunks lines n)
          ≡ true
    unfolding push_bounded_line_chunks
    push_bounded-new chunks lines n i e m k =
        let s =
          push_lines to_lower labels path max_chars
            (record { chunks = chunks; buffer = []; buffer_start_line = n }) lines n in
        let h : Held (n + length lines) s = push_lines-new n _ i _ lines refl e m (omega arith) k in
        elim (Bool-cases (nothing_buffered s)) [
          | inl b ↦ rw (push_bounded_line_chunks, b) (settle-Held _ s h b)
          | inr b ↦ rw (push_bounded_line_chunks, b) (flush-Held (n + length lines) s h)
        ]
