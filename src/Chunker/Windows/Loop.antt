-- ===== src/Chunker/Windows/Loop.antt =====
-- What the loops over lines and windows keep: every chunk is pushed from lines that fit, and with line
-- numbers in the range of the lines that were read.
use ydb_qdrant.Prelude.{
  ℕ, zero, suc, ◌+◌, ◌-◌, ◌≤◌, ◌<◌, min, List, [], ◌∷◌, ◌++◌, true, false, ◌==◌, ◌≡◌, refl, inl,
  inr, ltb, leb, arith, Bool-cases, ltb→lt, length, take, drop, length-take, length-drop,
}
use ydb_qdrant.Text.{Text, join}
use ydb_qdrant.Text.Ink.{length-trim}
use ydb_qdrant.Chunker.{CodeChunk}
use ydb_qdrant.Chunker.Windows.{
  Labels, Buffered, joined_text, push_chunk, flush, nothing_buffered, push_slices, push_long_line,
  make_room, buffer_line, push_line, push_lines, push_bounded_line_chunks, windows_from,
}

length-joined_text : (line : Text) → length (joined_text (line ∷ [])) ≤ length line
unfolding joined_text join
length-joined_text line = length-trim line

length-joined_text_nil : length (joined_text []) ≡ 0
unfolding joined_text join
length-joined_text_nil = omega (arith, length-trim [])

nothing_buffered_nil : (b : List Text) → (length b == 0) ≡ true → b ≡ []
nothing_buffered_nil [] e = refl
nothing_buffered_nil (x ∷ xs) e = absurd (ground arith)

module _ (to_lower : Text → Text) (labels : Labels) (path : Text) (max_chars lo hi : ℕ)
    (G : List CodeChunk → Type 0)
    (push : (chunks : List CodeChunk) (lines : List Text) (first final : ℕ)
      → length (joined_text lines) ≤ max_chars
      → lo ≤ first
      → first ≤ final
      → final < hi
      → G chunks
      → G (push_chunk to_lower labels path chunks lines first final)) where
  -- Before the line with the number `n`.
  record Ready (n : ℕ) (s : Buffered) : Type 0 where
    kept : G s.chunks
    fit : length (joined_text s.buffer) ≤ max_chars
    low : nothing_buffered s ≡ false → lo ≤ s.buffer_start_line
    high : nothing_buffered s ≡ false → s.buffer_start_line < n

  flush-Ready :
      (n : ℕ) (s : Buffered)
      → Ready n s
      → n ≤ hi
      → nothing_buffered s ≡ false
      → Ready n (flush to_lower labels path s (n - 1))
  unfolding flush
  flush-Ready n s r h e = record {
    kept =
        push s.chunks s.buffer s.buffer_start_line (n - 1) r.fit (r.low e) (omega (arith, r.high e))
          (omega (arith, r.high e)) r.kept;
    fit = omega (arith, length-joined_text_nil);
    low = λ f. cc;
    high = λ f. cc;
  }

  push_slices-kept :
      (f : ℕ) (rest : Text) (n : ℕ) (chunks : List CodeChunk)
      → lo ≤ n
      → n < hi
      → G chunks
      → G (push_slices to_lower labels path max_chars f rest n chunks)
  unfolding push_slices
  push_slices-kept zero rest n chunks l h g = g
  push_slices-kept (suc f) [] n chunks l h g = g
  push_slices-kept (suc f) (x ∷ xs) n chunks l h g =
      push_slices-kept f (drop max_chars (x ∷ xs)) n _ l h (
        push chunks (take max_chars (x ∷ xs) ∷ []) n n
          (omega
            (arith, length-joined_text (take max_chars (x ∷ xs)), length-take max_chars (x ∷ xs)))
          l (omega arith) h g)

  push_long_line-Ready :
      (n : ℕ) (s : Buffered) (line : Text)
      → Ready n s
      → n < hi
      → lo ≤ n
      → Ready (n + 1) (push_long_line to_lower labels path max_chars s line n)
  unfolding push_long_line flush
  push_long_line-Ready n s line r h l = elim (Bool-cases (nothing_buffered s)) [
    | inl e ↦ rw e (record {
      kept = push_slices-kept (length line) line n s.chunks l h r.kept;
      fit = r.fit;
      low = λ f. cc;
      high = λ f. cc;
    })
    | inr e ↦
        (let t = flush-Ready n s r (omega arith) e in
          rw e (record {
            kept = push_slices-kept (length line) line n _ l h t.kept;
            fit = t.fit;
            low = λ f. cc;
            high = λ f. cc;
          }))
  ]

  make_room-Ready :
      (n : ℕ) (s : Buffered) (line : Text)
      → Ready n s
      → n < hi
      → Ready n (make_room to_lower labels path max_chars s line n)
  unfolding make_room flush
  make_room-Ready n s line r h =
      elim (Bool-cases (ltb max_chars (length (joined_text (s.buffer ++ (line ∷ [])))))) [
        | inr e ↦ rw e r
        | inl e ↦ elim (Bool-cases (nothing_buffered s)) [
          | inl b ↦ rw (e, b) r
          | inr b ↦
              (let t = flush-Ready n s r (omega arith) b in
                rw (e, b) (record { kept = t.kept; fit = t.fit; low = λ f. cc; high = λ f. cc }))
        ]
      ]

  -- What `make_room` leaves has place for the line.
  make_room-fit :
      (n : ℕ) (s : Buffered) (line : Text)
      → length line ≤ max_chars
      → length
          (joined_text ((make_room to_lower labels path max_chars s line n).buffer ++ (line ∷ [])))
        ≤ max_chars
  unfolding make_room flush
  make_room-fit n s line h =
      elim (Bool-cases (ltb max_chars (length (joined_text (s.buffer ++ (line ∷ [])))))) [
        | inr e ↦ rw e (ground arith)
        | inl e ↦ elim (Bool-cases (nothing_buffered s)) [
          | inl b ↦ rw (e, b, nothing_buffered_nil s.buffer b) alone
          | inr b ↦ rw (e, b) alone
        ]
      ]
    where
      alone : length (joined_text (line ∷ [])) ≤ max_chars
      alone = omega (arith, length-joined_text line)

  buffer_line-Ready :
      (n : ℕ) (s : Buffered) (line : Text)
      → Ready n s
      → lo ≤ n
      → length (joined_text (s.buffer ++ (line ∷ []))) ≤ max_chars
      → Ready (n + 1) (buffer_line to_lower labels path max_chars s line n)
  unfolding buffer_line
  buffer_line-Ready n s line r l h = record {
    kept = r.kept;
    fit = h;
    low = λ f. ground (arith, r.low);
    high = λ f. ground (arith, r.high);
  }

  push_line-Ready :
      (n : ℕ) (s : Buffered) (line : Text)
      → Ready n s
      → lo ≤ n
      → n < hi
      → Ready (n + 1) (push_line to_lower labels path max_chars s line n)
  unfolding push_line
  push_line-Ready n s line r l h = elim (Bool-cases (ltb max_chars (length line))) [
    | inl e ↦ rw e (push_long_line-Ready n s line r h l)
    | inr e ↦ rw e (
        buffer_line-Ready n _ line (make_room-Ready n s line r h) l
          (make_room-fit n s line (ground arith)))
  ]

  push_lines-Ready :
      (n m : ℕ) (s : Buffered) (lines : List Text)
      → m ≡ n + length lines
      → Ready n s
      → lo ≤ n
      → m ≤ hi
      → Ready m (push_lines to_lower labels path max_chars s lines n)
  unfolding push_lines
  push_lines-Ready n m s [] e r l h = let same : m ≡ n = omega arith in rw same r
  push_lines-Ready n m s (line ∷ lines) e r l h =
      push_lines-Ready (n + 1) m _ lines (omega arith) (push_line-Ready n s line r l (omega arith))
        (omega arith) h

  pub push_bounded-kept :
      (chunks : List CodeChunk) (lines : List Text) (n : ℕ)
      → lo ≤ n
      → n + length lines ≤ hi
      → G chunks
      → G (push_bounded_line_chunks to_lower labels path max_chars chunks lines n)
  unfolding push_bounded_line_chunks
  push_bounded-kept chunks lines n l h g =
      let s =
        push_lines to_lower labels path max_chars
          (record { chunks = chunks; buffer = []; buffer_start_line = n }) lines n in
      let r : Ready (n + length lines) s =
        push_lines-Ready n _ _ lines refl
          (record {
            kept = g;
            fit = omega (arith, length-joined_text_nil);
            low = λ f. cc;
            high = λ f. cc;
          })
          l h in
      elim (Bool-cases (nothing_buffered s)) [
        | inl e ↦ rw (push_bounded_line_chunks, e) r.kept
        | inr e ↦ rw (push_bounded_line_chunks, e) (flush-Ready (n + length lines) s r h e).kept
      ]

  pub windows_from-kept :
      (size step : ℕ) (lines : List Text) (base f start : ℕ) (chunks : List CodeChunk)
      → lo ≤ base
      → base + length lines ≤ hi
      → G chunks
      → G (windows_from to_lower labels path max_chars size step lines base f start chunks)
  unfolding windows_from
  windows_from-kept size step lines base zero start chunks l h g = g
  windows_from-kept size step lines base (suc f) start chunks l h g =
      let end_exclusive = min (start + size) (length lines) in
      let window = take (end_exclusive - start) (drop start lines) in
      let pushed =
        push_bounded_line_chunks to_lower labels path max_chars chunks window (base + start) in
      elim (Bool-cases (ltb start (length lines))) [
        | inr e ↦ rw e g
        | inl e ↦
            (let p : G pushed =
                push_bounded-kept chunks window (base + start) (omega arith)
                  (omega (
                    arith,
                    ltb→lt start (length lines) e,
                    length-take (end_exclusive - start) (drop start lines),
                    length-drop start lines,
                  ))
                  g in
              elim (Bool-cases (leb (length lines) end_exclusive)) [
                | inl k ↦ rw (e, k) p
                | inr k ↦
                    rw (e, k) (windows_from-kept size step lines base f (start + step) pushed l h p)
              ])
      ]
