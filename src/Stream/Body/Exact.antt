-- ===== src/Stream/Body/Exact.antt =====
-- internal/stream/handler.go: the bytes that the range loop of `streamBody` sends.
use thunder_go.Prelude.Text.Laws.{is_empty_of_pos}
use thunder_go.Prelude.{
  ℕ, zero, suc, ◌+◌, ◌-◌, ◌*◌, ◌/◌, ◌≤◌, ◌<◌, min, ◌≡◌, refl, ap, ◌∙◌, ◌⊎◌, inl, inr, Option, none,
  some, ◌++◌, arith, length, take, drop, length-take, length-drop, ltb, leb, tests, leb→le, le→leb,
  leb-false→lt, ltb→lt, Bool-cases,
}
use thunder_go.Prelude.Text.{Text}
use thunder_go.Stream.Body.{
  after_chunk, in_reach, chunk_size, max_native_int, range_loop, stream_range,
}
use thunder_go.Stream.Body.Windows.{drop-drop, drop-take, take-append_take, take-take-length}

-- The part of the file that a chunk gives: from a position inside the file on, some bytes at least.
abbrev pub Serves : (ℕ → ℕ → Option Text) → Text → Type 0
Serves fetch file =
    (from : ℕ)
    → from < length file
    → (n : ℕ) × (fetch from (from + chunk_size) ≡ some (take (suc n) (drop from file)))

module _ (accepts : ℕ → Option ℕ) (content_length : ℕ) (file : Text)
    (willing : (n : ℕ) → accepts n ≡ none) where
  -- What is left to send, from a state of the loop.
  abbrev left : ℕ → ℕ → ℕ → Text
  left wire skip written = take (content_length - written) (drop (wire + skip) file)

  -- The loop with less fuel sends what is left.
  abbrev GoesOn : ℕ → (ℕ → ℕ → ℕ → Text) → Type 0
  GoesOn fuel next =
      (wire skip written : ℕ)
      → skip + (content_length - written) < fuel
      → wire + skip + (content_length - written) ≤ length file
      → next wire skip written ≡ left wire skip written

  -- What remains after `d` of the bytes left is the same window, unless nothing remains.
  resume :
      (wire skip written r d : ℕ)
      → (wire + r ≡ wire + skip + d) ⊎ (content_length - (written + d) ≡ 0)
      → take (content_length - (written + d)) (drop (wire + r + 0) file)
        ≡ take (content_length - (written + d)) (drop d (drop (wire + skip) file))
  resume wire skip written r d (inl e) =
      let e' : wire + r + 0 ≡ wire + skip + d = omega arith in
      rw (e', drop-drop d (wire + skip) file)
  resume wire skip written r d (inr e) = rw e

  front :
      (m wire skip n d : ℕ) (raw : Text)
      → raw ≡ take (suc n) (drop wire file)
      → d ≡ length (take m (drop skip raw))
      → take m (drop skip raw) ≡ take d (drop (wire + skip) file)
  front m wire skip n d raw e de =
      let cut : drop skip raw ≡ take (suc n - skip) (drop (wire + skip) file) =
        ap (drop skip) e
        ∙ drop-take skip (suc n) (drop wire file)
        ∙ ap (take (suc n - skip)) (drop-drop skip wire file) in
      rw de (rw cut (take-take-length m (suc n - skip) (drop (wire + skip) file)))

  sent :
      (fuel wire skip written n d : ℕ) (next : ℕ → ℕ → ℕ → Text) (raw : Text)
      → GoesOn fuel next
      → skip + (content_length - written) < suc fuel
      → wire + skip + (content_length - written) ≤ length file
      → written < content_length
      → raw ≡ take (suc n) (drop wire file)
      → skip < length raw
      → wire + length raw ≤ length file
      → d ≡ length (take (content_length - written) (drop skip raw))
      → d ≡ min (content_length - written) (length raw - skip)
      → take (content_length - written) (drop skip raw) ++ next (wire + length raw) 0 (written + d)
        ≡ left wire skip written
  sent fuel wire skip written n d next raw go f h more e l w de dm =
      let x = drop (wire + skip) file in
      let all : d + (content_length - (written + d)) ≡ content_length - written = omega arith in
      rw
        (
          go (wire + length raw) 0 (written + d) (omega arith) (omega arith),
          front (content_length - written) wire skip n d raw e de,
          resume wire skip written (length raw) d (omega arith),
        )
        (take-append_take d (content_length - (written + d)) x ∙ ap (λ k. take k x) all)

  after_chunk-left :
      (fuel wire skip written n : ℕ) (next : ℕ → ℕ → ℕ → Text) (raw : Text)
      → GoesOn fuel next
      → skip + (content_length - written) < suc fuel
      → wire + skip + (content_length - written) ≤ length file
      → written < content_length
      → raw ≡ take (suc n) (drop wire file)
      → 0 < length raw
      → wire + length raw ≤ length file
      → after_chunk accepts content_length next wire skip written raw ≡ left wire skip written
  unfolding after_chunk
  after_chunk-left fuel wire skip written n next raw go f h more e some' w =
      rw (is_empty_of_pos raw some') (elim (Bool-cases (leb (length raw) skip)) [
        | inl skipped ↦
            (let fits : length raw ≤ skip = leb→le _ _ skipped in
              let same : wire + length raw + (skip - length raw) ≡ wire + skip = omega arith in
              rw (
                skipped,
                go (wire + length raw) (skip - length raw) written (omega arith) (omega arith),
                same,
              ))
        | inr starts ↦
            (let data' = take (content_length - written) (drop skip raw) in
              let begins : skip < length raw = leb-false→lt _ _ starts in
              let size : length data' ≡ min (content_length - written) (length raw - skip) =
                length-take (content_length - written) (drop skip raw)
                ∙ ap (min (content_length - written)) (length-drop skip raw) in
              rw (starts, is_empty_of_pos data' (omega (arith, size)), willing written)
                (sent fuel wire skip written n (length data') next raw go f h more e begins w refl
                  size))
      ])

module _ (fetch : ℕ → ℕ → Option Text) (accepts : ℕ → Option ℕ) (content_length : ℕ) (file : Text)
    (serves : Serves fetch file) (willing : (n : ℕ) → accepts n ≡ none)
    (room : length file + chunk_size ≤ max_native_int) where
  range_loop-left :
      (fuel : ℕ)
      → GoesOn accepts content_length file willing fuel
          (range_loop fetch accepts content_length fuel)
  unfolding range_loop in_reach
  range_loop-left zero wire skip written f h = absurd (omega arith)
  range_loop-left (suc fuel) wire skip written f h =
      elim (Bool-cases (ltb written content_length)) [
        | inr done ↦
            (let none_left : content_length - written ≡ 0 = omega (tests, done) in
              rw (done, in_reach, range_loop, none_left))
        | inl more ↦
            (let m : written < content_length = ltb→lt _ _ more in
              let inside : wire < length file = omega arith in
              let (n, e) = serves wire inside in
              rw
                (
                  more,
                  le→leb wire (max_native_int - chunk_size) (omega arith),
                  in_reach,
                  range_loop,
                  e,
                )
                (after_chunk-left accepts content_length file willing fuel wire skip written n
                  (range_loop fetch accepts content_length fuel) (take (suc n) (drop wire file))
                  (range_loop-left fuel) f h m refl
                  (omega (arith, length-take (suc n) (drop wire file), length-drop wire file))
                  (omega (arith, length-take (suc n) (drop wire file), length-drop wire file))))
      ]

  -- A range request delivers exactly the bytes of its window, from the chunk that holds the first
  -- of them on, if Telegram gives some bytes of the file from each position asked for, the client
  -- accepts every write, the window lies inside the file, and the length of the file and a chunk
  -- are together at most the largest native integer, that of a 64-bit build.
  pub stream_range-exact :
      (start : ℕ)
      → start + content_length ≤ length file
      → stream_range fetch accepts content_length start ≡ take content_length (drop start file)
  unfolding stream_range
  stream_range-exact start h =
      let wire = start / chunk_size * chunk_size in
      let e : wire + (start - wire) ≡ start = omega arith in
      let all : content_length - 0 ≡ content_length = omega arith in
      range_loop-left (start - wire + content_length + 1) wire (start - wire) 0 (omega arith)
        (omega arith)
      ∙ rw (e, all)
