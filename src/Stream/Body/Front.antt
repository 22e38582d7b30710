-- ===== src/Stream/Body/Front.antt =====
-- internal/stream/handler.go: what the range loop of `streamBody` sends when chunks or writes fail.
use thunder_go.Prelude.{
  ℕ, zero, suc, ◌+◌, ◌-◌, ◌*◌, ◌/◌, ◌≤◌, ◌<◌, min, ◌≡◌, refl, sym, ap, ◌∙◌, subst, ◌⊎◌, inl, inr,
  true, Option, some, [], ◌∷◌, ◌++◌, append-nil, arith, length, take, drop, length-take,
  length-drop, leb, tests, leb-false→lt, Bool-cases, Option-cases,
}
use thunder_go.Prelude.Text.{Text, is_empty}
use thunder_go.Stream.Body.{after_chunk, in_reach, chunk_size, range_loop, stream_range}
use thunder_go.Stream.Body.Windows.{drop-drop, drop-take, take-append_take, take-take-length}

-- What a chunk holds, if it comes, is what the file holds there, in any number of bytes.
abbrev pub IsTruthful : (ℕ → ℕ → Option Text) → Text → Type 0
IsTruthful fetch file =
    (from : ℕ) (raw : Text)
    → fetch from (from + chunk_size) ≡ some raw
    → (n : ℕ) × (raw ≡ take n (drop from file))

module _ (accepts : ℕ → Option ℕ) (content_length : ℕ) (file : Text) where
  -- At most so many bytes, as the file holds them from a position on.
  abbrev pub IsFront : ℕ → ℕ → Text → Type 0
  IsFront most from sent = (k : ℕ) × (k ≤ most) × (sent ≡ take k (drop from file))

  nothing : (most from : ℕ) → IsFront most from []
  nothing most from = (0, omega arith, refl)

  abbrev Fronts : (ℕ → ℕ → ℕ → Text) → Type 0
  Fronts next =
      (wire skip written : ℕ)
      → IsFront (content_length - written) (wire + skip) (next wire skip written)

  resumed :
      (k a b d : ℕ) → (a ≡ b + d) ⊎ (k ≡ 0) → take k (drop a file) ≡ take k (drop d (drop b file))
  resumed k a b d (inl e) = rw (e, drop-drop d b file)
  resumed k a b d (inr e) = rw e

  joined :
      (wire skip written r n : ℕ) (raw rest : Text)
      → raw ≡ take n (drop wire file)
      → length raw ≡ r
      → skip < r
      → let d = length (take (content_length - written) (drop skip raw)) in
        IsFront (content_length - (written + d)) (wire + r + 0) rest
        → IsFront
            (content_length - written)
            (wire + skip)
            (take (content_length - written) (drop skip raw) ++ rest)
  joined wire skip written r n raw rest e l w (k, most, f) =
      let m = content_length - written in
      let x = drop (wire + skip) file in
      let data' = take m (drop skip raw) in
      let d = length data' in
      let size : d ≡ min m (r - skip) =
        length-take m (drop skip raw) ∙ ap (min m) (length-drop skip raw ∙ ap (λ z. z - skip) l) in
      let cut : drop skip raw ≡ take (n - skip) x =
        ap (drop skip) e
        ∙ (drop-take skip n (drop wire file) ∙ ap (take (n - skip)) (drop-drop skip wire file)) in
      let part : data' ≡ take d x =
        subst (λ z. take m z ≡ take (length (take m z)) x) (sym cut)
          (take-take-length m (n - skip) x) in
      let more : rest ≡ take k (drop d x) =
        f ∙ resumed k (wire + r + 0) (wire + skip) d (omega arith) in
      (d + k, omega arith, rw more (ap (λ z. z ++ take k (drop d x)) part ∙ take-append_take d k x))

  cut_short :
      (most from k : ℕ) (sent : Text) → IsFront most from sent → IsFront most from (take k sent)
  cut_short most from k sent (j, b, e) =
      let x = drop from file in
      let size : length (take k (take j x)) ≡ min k (min j (length x)) =
        length-take k (take j x) ∙ ap (min k) (length-take j x) in
      (length (take k (take j x)), omega (arith, size), ap (take k) e ∙ take-take-length k j x)

  empty-IsFront :
      (most from : ℕ) (d rest : Text)
      → is_empty d ≡ true
      → IsFront most from (d ++ rest)
      → IsFront most from rest
  unfolding is_empty
  empty-IsFront most from [] rest e h = h
  empty-IsFront most from (c ∷ d) rest e h = cc

  after_chunk-IsFront :
      (wire skip written n : ℕ) (next : ℕ → ℕ → ℕ → Text) (raw : Text)
      → Fronts next
      → raw ≡ take n (drop wire file)
      → IsFront
          (content_length - written)
          (wire + skip)
          (after_chunk accepts content_length next wire skip written raw)
  unfolding after_chunk
  after_chunk-IsFront wire skip written n next raw go e = elim (Bool-cases (is_empty raw)) [
    | inl none' ↦ rw none' (nothing _ _)
    | inr some' ↦ elim (Bool-cases (leb (length raw) skip)) [
      | inl skipped ↦
          (let same : wire + length raw + (skip - length raw) ≡ wire + skip =
              omega (tests, skipped) in
            rw (some', skipped)
              (subst
                (λ p.
                  IsFront (content_length - written) p
                    (next (wire + length raw) (skip - length raw) written))
                same (go (wire + length raw) (skip - length raw) written)))
      | inr starts ↦
          (let data' = take (content_length - written) (drop skip raw) in
            let all =
              joined wire skip written (length raw) n raw
                (next (wire + length raw) 0 (written + length data')) e refl
                (leb-false→lt _ _ starts) (go (wire + length raw) 0 (written + length data')) in
            elim (Bool-cases (is_empty data')) [
              | inl no_data ↦
                  rw (some', starts, no_data)
                    (empty-IsFront _ _ data' (next (wire + length raw) 0 (written + length data'))
                      no_data all)
              | inr data'' ↦ elim (Option-cases (accepts written)) [
                | inl yes' ↦ rw (some', starts, data'', yes') all
                | inr no' ↦
                    rw (some', starts, data'', no'.1)
                      (cut_short _ _ no'.0 data' (
                        subst (λ s. IsFront (content_length - written) (wire + skip) s)
                          (append-nil data')
                          (joined wire skip written (length raw) n raw [] e refl
                            (leb-false→lt _ _ starts) (nothing _ _))))
              ]
            ])
    ]
  ]

module _ (fetch : ℕ → ℕ → Option Text) (accepts : ℕ → Option ℕ) (content_length : ℕ) (file : Text)
    (truthful : IsTruthful fetch file) where
  range_loop-IsFront :
      (fuel : ℕ) → Fronts accepts content_length file (range_loop fetch accepts content_length fuel)
  unfolding range_loop
  range_loop-IsFront zero wire skip written = nothing accepts content_length file _ _
  range_loop-IsFront (suc fuel) wire skip written =
      elim (Bool-cases (in_reach fetch accepts content_length wire written)) [
        | inr e ↦
            rw (e, range_loop)
              (nothing accepts content_length file (content_length - written) (wire + skip))
        | inl e ↦ elim (Option-cases (fetch wire (wire + chunk_size))) [
          | inl f ↦
              rw (e, f, range_loop)
                (nothing accepts content_length file (content_length - written) (wire + skip))
          | inr f ↦
              (let (n, g) = truthful wire f.0 f.1 in
                rw (e, f.1, range_loop)
                  (after_chunk-IsFront accepts content_length file wire skip written n
                    (range_loop fetch accepts content_length fuel) f.0 (range_loop-IsFront fuel) g))
        ]
      ]

  -- Whatever chunks and writes fail, a write also after a part of its bytes, and however short the chunks
  -- are, what a range request delivers
  -- is a front part of its window, if what Telegram gives is what the file holds there.
  pub stream_range-IsFront :
      (start : ℕ)
      → IsFront accepts content_length file content_length start
          (stream_range fetch accepts content_length start)
  unfolding stream_range
  stream_range-IsFront start =
      let wire = start / chunk_size * chunk_size in
      let same : wire + (start - wire) ≡ start = omega arith in
      let whole = range_loop-IsFront (start - wire + content_length + 1) wire (start - wire) 0 in
      (whole.0, omega (arith, whole.1), whole.2 ∙ ap (λ p. take whole.0 (drop p file)) same)
