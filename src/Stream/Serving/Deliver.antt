-- ===== src/Stream/Serving/Deliver.antt =====
-- internal/stream/handler.go: `ServeHTTP` on a GET request for a part of a file.
use thunder_go.Prelude.{
  ℕ, ◌+◌, ◌-◌, ◌≤◌, ◌<◌, ◌≡◌, refl, ap, ◌∙◌, subst, false, Option, none, some, [], arith, length,
  take, drop, length-take, length-drop,
}
use thunder_go.Pool.{Pool, acquire_best}
use thunder_go.Prelude.Dict.{lookup, insert, lookup-insert, lookup-insert_self}
use thunder_go.Prelude.Int.{pos, leb_ℤ}
use thunder_go.Prelude.Text.{text_eq, Text, codes, is_empty}
use thunder_go.Prelude.Text.Decimal.{print_nat}
use thunder_go.Store.{FileRecord}
use thunder_go.Stream.Body.{chunk_size, stream_range, max_native_int}
use thunder_go.Stream.Body.Exact.{Serves, stream_range-exact}
use thunder_go.Stream.Serving.{
  set_common_headers, Backend, Request, Response, get, is_other, is_head, just, unsupported, admit,
  after_lookup, after_resolve, content_range, content_length, effective_range, file_headers,
  serve_range, serve_client, serve_http, status_of,
}
use thunder_go.Stream.Vault.{media, resolve_vault_media}
use thunder_go.Tgutil.Disposition.{query_disposition}
use thunder_go.Tgutil.Media.{Message}
use thunder_go.Tgutil.Range.Bounds.{parse_range-Inside}
use thunder_go.Tgutil.Range.{content_range_value, Range, range, parse_range}

-- The part of a file that a range names, both ends included.
abbrev pub slice : Range → Text → Text
slice rng file = take (rng.end + 1 - rng.start) (drop rng.start file)

-- The response serves that part, under its length.
abbrev pub IsPart : Range → Text → Response → Type 0
IsPart rng file s =
    (s.status ≡ 206)
    × (s.body ≡ slice rng file)
    × (lookup (codes "Content-Length") s.headers ≡ some (print_nat (length s.body)))

file_headers-length :
    (r : Request) (rec : FileRecord) (rng : Range)
    → lookup (codes "Content-Length") (file_headers r rec (some rng))
      ≡ some (print_nat (rng.end + 1 - rng.start))
unfolding file_headers content_range content_length text_eq
file_headers-length r rec rng =
    let name = codes "Content-Length" in
    let inner =
      insert name (print_nat (rng.end + 1 - rng.start))
        (set_common_headers rec (query_disposition r.disposition) []) in
    lookup-insert (codes "Content-Range") name (content_range_value rng rec.size) inner
    ∙ lookup-insert_self name (print_nat (rng.end + 1 - rng.start))
        (set_common_headers rec (query_disposition r.disposition) [])

supported :
    (rng : Range) → rng.end ≤ max_native_int → rng.start ≤ rng.end → unsupported (some rng) ≡ false
unfolding unsupported
supported rng h o = ground arith

length-slice :
    (rng : Range) (file : Text)
    → rng.start ≤ rng.end
    → rng.end < length file
    → length (slice rng file) ≡ rng.end + 1 - rng.start
length-slice rng file o h =
    omega (
      arith,
      length-take (rng.end + 1 - rng.start) (drop rng.start file),
      length-drop rng.start file,
    )

module _ (b : Backend) (r : Request) (rec : FileRecord) (client : ℕ) (msg : Message) (file : Text)
    (rng : Range) (willing : (n : ℕ) → b.accepts n ≡ none)
    (serves : Serves (b.fetch client msg) file) (sized : rec.size ≡ pos (length file))
    (native : length file + chunk_size ≤ max_native_int)
    (resolved : resolve_vault_media b.has_ingester (b.lookup client rec) rec ≡ media msg)
    (is_get : r.method ≡ get) (parsed : parse_range r.range_header rec.size ≡ range rng)
    (is_part : effective_range rec.size rng ≡ some rng) where
  ends : (rng.start ≤ rng.end) × (rng.end < length file)
  ends =
      let i = parse_range-Inside r.range_header rec.size rng parsed in
      let e : i.bounded.0 ≡ length file = cc (i.bounded.1, sized) in
      (i.ordered, subst (λ n. rng.end < n) e i.bounded.2)

  sent :
      stream_range (b.fetch client msg) b.accepts (rng.end + 1 - rng.start) rng.start
      ≡ slice rng file
  sent =
      stream_range-exact (b.fetch client msg) b.accepts (rng.end + 1 - rng.start) file serves
        willing native rng.start (omega (arith, ends))

  serve_range-IsPart : IsPart rng file (serve_range b r rec client (some rng)).response
  unfolding serve_range is_head just after_resolve status_of
  serve_range-IsPart =
      rw (supported rng (omega (arith, ends)) ends.0, is_get, resolved, after_resolve, just)
        (refl, sent, file_headers-length r rec rng ∙ rw (sent, length-slice rng file ends.0 ends.1))

  serve_client-IsPart :
      IsPart rng file (serve_client b r rec client (parse_range r.range_header rec.size)).response
  unfolding serve_client
  serve_client-IsPart = rw (parsed, serve_client, is_part) serve_range-IsPart

  admit-IsPart :
      (t : Option ℕ × Pool) → t.0 ≡ some client → IsPart rng file (admit b r rec t).response
  unfolding admit
  admit-IsPart (none, p) h = cc
  admit-IsPart (some i, p) h = let e : i ≡ client = cc in rw e serve_client-IsPart

  -- A GET request for a part of a file gets status 206, exactly the bytes of the part and their
  -- number, if the record of its token has the size of the file, a client is free and the vault
  -- lookup of that client gives the media, Telegram serves the file, the connection takes every
  -- write, and the native integers hold the position a chunk after the end of the file.
  pub serve_http-IsPart :
      (p : Pool)
      → is_empty r.token ≡ false
      → b.find_file r.token ≡ some (some rec)
      → (acquire_best p).0 ≡ some client
      → IsPart rng file (serve_http b r p).response
  unfolding serve_http after_lookup is_other
  serve_http-IsPart p t f free =
      let no : is_other r.method ≡ false = ap is_other is_get in
      let positive : leb_ℤ rec.size (pos 0) ≡ false = rw sized (ground (arith, ends)) in
      rw (t, no, f, positive) (admit-IsPart (acquire_best p) free)
