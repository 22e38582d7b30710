-- ===== src/Stream/Body.antt =====
-- internal/stream/handler.go: `streamBody` for a range request. Telegram's chunk download and the
-- client's connection are parameters: `fetch from to` is what `DownloadChunkCtx` returns for that
-- window, `none` an error, and `accepts n` is what the `Write` after `n` bytes does: `none` if it takes
-- all of its bytes, and `some k` if it fails after it has taken `k` of them at most.
pub mod Windows
pub mod Exact
pub mod Front
use thunder_go.Prelude.{
  ℕ, zero, suc, ◌+◌, ◌-◌, ◌*◌, ◌/◌, ◌%◌, ◌^◌, ◌≤◌, ◌<◌, min, max, ◌≡◌, refl, sym, ap, ◌∙◌, subst,
  ◌≢◌, ◌↔◌, ◌⊎◌, inl, inr, Bool, true, false, not, ◌&&◌, ◌||◌, Option, none, some, List, [], ◌∷◌,
  ◌++◌, map, append-nil, append_assoc, arith, length, get_elem?, set, take, drop, length-append,
  length-take, length-drop, All, All-append, All-map, All_at, get_elem?-append,
  get_elem?-append_length, ltb, leb, ◌==◌, if◌then◌else◌, tests, leb→le, le→leb, leb-false→lt,
  ltb→lt, lt→ltb, ltb-false→le, Bool-cases, Option-cases,
}
use thunder_go.Prelude.Text.{Text, is_empty}

-- StreamChunkSize
abbrev pub chunk_size : ℕ
chunk_size = 2 ^ 20

-- maxNativeInt, on a 64-bit build.
abbrev pub max_native_int : ℕ
max_native_int = 9223372036854775807

module _ (accepts : ℕ → Option ℕ) (content_length : ℕ) where
  -- What goes to the client once a chunk has come in; `next` goes on with the loop, from a wire
  -- position, a number of bytes to skip and the number written. A failed `Write` ends it.
  after_chunk : (ℕ → ℕ → ℕ → Text) → ℕ → ℕ → ℕ → Text → Text
  after_chunk next wire_start skip written raw =
      let raw_len = length raw in
      let data' = take (content_length - written) (drop skip raw) in
      let rest = next (wire_start + raw_len) 0 (written + length data') in
      if is_empty raw
      then []
      else if leb raw_len skip
      then next (wire_start + raw_len) (skip - raw_len) written
      else if is_empty data'
      then rest
      else elim (accepts written) [ none ↦ data' ++ rest | some k ↦ take k data' ]

module _ (fetch : ℕ → ℕ → Option Text) (accepts : ℕ → Option ℕ) (content_length : ℕ) where
  in_reach : ℕ → ℕ → Bool
  in_reach wire_start written =
      ltb written content_length && leb wire_start (max_native_int - chunk_size)

  -- What goes to the client, from the state of the loop. A failed chunk ends it, since
  -- `maxConsecutiveChunkFails` is one; so does an empty one.
  pub range_loop : ℕ → ℕ → ℕ → ℕ → Text
  unfolding after_chunk in_reach
  range_loop zero wire_start skip written = []
  range_loop (suc fuel) wire_start skip written = elim (in_reach wire_start written) [
    | false ↦ []
    | true ↦ elim (fetch wire_start (wire_start + chunk_size)) [
      | none ↦ []
      | some raw ↦ after_chunk accepts content_length (range_loop fuel) wire_start skip written raw
    ]
  ]

  -- The chunk that holds the first byte, and what of it comes before that byte. Each round
  -- consumes a byte at least, of those to skip or of those to send.
  unfoldable pub stream_range : ℕ → Text
  unfolding range_loop
  stream_range start =
      let wire_start = start / chunk_size * chunk_size in
      let skip = start - wire_start in range_loop (skip + content_length + 1) wire_start skip 0
