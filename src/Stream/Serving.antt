-- ===== src/Stream/Serving.antt =====
-- internal/stream/handler.go: `ServeHTTP`, `setCommonHeaders` and the dispatch of `streamBody`.
-- The database, Telegram and the client's connection are parameters.
pub mod Tickets
pub mod Deliver
pub mod Stale
pub mod Head
use thunder_go.Prelude.{
  ℕ, zero, suc, ◌+◌, ◌-◌, ◌*◌, ◌/◌, ◌%◌, ◌^◌, ◌≤◌, ◌<◌, min, max, ◌≡◌, refl, sym, ap, ◌∙◌, subst,
  ◌≢◌, ◌↔◌, ◌⊎◌, inl, inr, Bool, true, false, not, ◌&&◌, ◌||◌, Option, none, some, List, [], ◌∷◌,
  ◌++◌, map, append-nil, append_assoc, arith, length, get_elem?, set, take, drop, length-append,
  length-take, length-drop, All, All-append, All-map, All_at, get_elem?-append,
  get_elem?-append_length, ltb, leb, ◌==◌, if◌then◌else◌, tests, leb→le, le→leb, leb-false→lt,
  ltb→lt, lt→ltb, ltb-false→le, Bool-cases, Option-cases,
}
use thunder_go.Prelude.Dict.{insert}
use thunder_go.Prelude.Int.{ℤ, pos, leb_ℤ, eqb_ℤ, pos_part}
use thunder_go.Prelude.Text.{Text, codes, is_empty}
use thunder_go.Prelude.Text.Decimal.{print_nat}
use thunder_go.Pool.{Pool, acquire_best, release}
use thunder_go.Store.{FileRecord}
use thunder_go.Stream.Body.{stream_range, max_native_int}
use thunder_go.Stream.Vault.{
  Lookup, Resolved, media, unresolved, resolve_vault_media, is_permanent_vault_error,
}
use thunder_go.Tgutil.Disposition.{disposition_header, query_disposition}
use thunder_go.Tgutil.Media.{Message}
use thunder_go.Tgutil.Range.{
  Range, RangeResult, absent, range, err, malformed, unsatisfiable, parse_range,
  content_range_value, unsatisfiable_content_range,
}

pub data Method : Type 0 where
  get head other : Method

pub record Request : Type 0 where
  -- `tokenFromContext`
  pub token : Text
  pub method : Method
  -- the Range header and the `disposition` parameter of the query
  pub range_header : Text
  pub disposition : Text

abbrev pub Headers : Type 0
Headers = List (Text × Text)

pub record Response : Type 0 where
  pub status : ℕ
  pub headers : Headers
  pub body : Text

-- The calls of the store that write.
pub data Call : Type 0 where
  increment_seen_count : Text → Call
  delete_file_by_hash : Text → Call

pub record Outcome : Type 0 where
  pub response : Response
  pub calls : List Call
  pub pool : Pool

pub record Backend : Type 0 where
  -- `FindFileByHash`: `none` is an error, `some none` no record.
  pub find_file : Text → Option (Option FileRecord)
  pub has_ingester : Bool
  -- what the lookup of a record by a client comes to
  pub lookup : ℕ → FileRecord → Lookup
  -- what `DownloadChunkCtx` of a client returns
  pub fetch : ℕ → Message → ℕ → ℕ → Option Text
  -- what `DownloadMedia` of a client writes
  pub download : ℕ → Message → Text
  -- what the client's connection does with a write, after so many bytes: it takes all of it, or it
  -- fails after so many bytes of it at most
  pub accepts : ℕ → Option ℕ

-- http.Error
abbrev http_error : Headers → Text → ℕ → Response
http_error headers message status = record {
  status = status;
  headers =
      insert (codes "X-Content-Type-Options") (codes "nosniff")
        (insert (codes "Content-Type") (codes "text/plain; charset=utf-8") headers);
  body = message ++ (10 ∷ []);
}

-- http.NotFound
abbrev not_found : Headers → Response
not_found headers = http_error headers (codes "404 page not found") 404

abbrev no_store : Headers
no_store = insert (codes "Cache-Control") (codes "no-store") []

abbrev retry : Headers → Headers
retry = insert (codes "Retry-After") (codes "2")

unfoldable pub set_common_headers : FileRecord → Text → Headers → Headers
unfolding is_empty
set_common_headers rec disposition headers =
    let mime = if is_empty rec.mime_type then codes "application/octet-stream" else rec.mime_type in
    insert (codes "X-Content-Type-Options") (codes "nosniff") (
      insert (codes "Connection") (codes "keep-alive") (
        insert (codes "Cache-Control") (codes "public, max-age=31536000") (
          insert (codes "Accept-Ranges") (codes "bytes") (
            insert (codes "Content-Disposition") (disposition_header disposition rec.file_name)
              (insert (codes "Content-Type") mime headers)))))

-- The range to serve: none if there is no Range header, or if its range is the whole file.
unfoldable pub effective_range : ℤ → Range → Option Range
effective_range size r = if r.start == 0 && eqb_ℤ (pos (r.end + 1)) size then none else some r

unfoldable pub content_length : ℤ → Option Range → ℕ
content_length size none = pos_part size
content_length size (some r) = r.end + 1 - r.start

pub status_of : Option Range → ℕ
status_of none = 200
status_of (some r) = 206

-- A range that the native integers of `DownloadChunkCtx` do not hold.
pub unsupported : Option Range → Bool
unsupported none = false
unsupported (some r) = ltb max_native_int r.start || ltb max_native_int r.end

pub content_range : FileRecord → Option Range → Headers → Headers
content_range rec none headers = headers
content_range rec (some r) headers =
    insert (codes "Content-Range") (content_range_value r rec.size) headers

-- The headers of a response that serves the file.
pub file_headers : Request → FileRecord → Option Range → Headers
unfolding set_common_headers content_length content_range query_disposition
file_headers r rec rng = content_range rec rng (
    insert (codes "Content-Length") (print_nat (content_length rec.size rng))
      (set_common_headers rec (query_disposition r.disposition) []))

pub record Answer : Type 0 where
  pub response : Response
  pub calls : List Call

pub just : Response → Answer
just response = record { response = response; calls = [] }

pub is_head : Method → Bool
is_head get = false
is_head head = true
is_head other = false

pub is_other : Method → Bool
is_other get = false
is_other head = false
is_other other = true

pub only : Response → Pool → Outcome
only response p = record { response = response; calls = []; pool = p }

module _ (b : Backend) where
  stream_body : ℕ → Message → FileRecord → Option Range → Text
  unfolding content_length
  stream_body client msg rec none = b.download client msg
  stream_body client msg rec (some r) =
      stream_range (b.fetch client msg) b.accepts (content_length rec.size (some r)) r.start

  -- Once the media is resolved, or is not.
  pub after_resolve : Request → FileRecord → ℕ → Option Range → Resolved → Answer
  unfolding stream_body status_of file_headers is_permanent_vault_error just
  after_resolve r rec client rng (media msg) = just (record {
    status = status_of rng;
    headers = file_headers r rec rng;
    body = stream_body client msg rec rng;
  })
  after_resolve r rec client rng (unresolved e) =
      if is_permanent_vault_error e
      then record { response = not_found no_store; calls = delete_file_by_hash r.token ∷ [] }
      else just (http_error (retry no_store) (codes "Service Unavailable") 503)

  -- Once the range is known.
  pub serve_range : Request → FileRecord → ℕ → Option Range → Answer
  unfolding after_resolve unsupported is_head just status_of file_headers resolve_vault_media
  serve_range r rec client rng =
      if unsupported rng
      then just (http_error no_store (codes "file range is unsupported on this build") 500)
      else if is_head r.method
      then just (record { status = status_of rng; headers = file_headers r rec rng; body = [] })
      else after_resolve r rec client rng
          (resolve_vault_media b.has_ingester (b.lookup client rec) rec)

  -- Once a client is reserved.
  pub serve_client : Request → FileRecord → ℕ → RangeResult → Answer
  unfolding serve_range effective_range just
  serve_client r rec client absent = serve_range r rec client none
  serve_client r rec client (range rng) = serve_range r rec client (effective_range rec.size rng)
  serve_client r rec client (err unsatisfiable) = just (
      http_error (insert (codes "Content-Range") (unsatisfiable_content_range rec.size) [])
        (codes "Range Not Satisfiable") 416)
  serve_client r rec client (err malformed) = just (http_error no_store (codes "Bad Request") 400)

  -- The deferred release runs on each way out once a client is reserved.
  pub admit : Request → FileRecord → Option ℕ × Pool → Outcome
  unfolding serve_client
  admit r rec (none, p) = record {
    response = http_error (retry no_store) (codes "Service Unavailable") 503;
    calls = increment_seen_count rec.file_key ∷ [];
    pool = p;
  }
  admit r rec (some client, p) =
      let a = serve_client r rec client (parse_range r.range_header rec.size) in
      record {
        response = a.response;
        calls = increment_seen_count rec.file_key ∷ a.calls;
        pool = release client p;
      }

  pub after_lookup : Request → Pool → Option (Option FileRecord) → Outcome
  unfolding admit only
  after_lookup r p none = only (http_error [] (codes "internal error") 500) p
  after_lookup r p (some none) = only (not_found no_store) p
  after_lookup r p (some (some rec)) =
      if leb_ℤ rec.size (pos 0) then only (not_found no_store) p else admit r rec (acquire_best p)

  unfoldable pub serve_http : Request → Pool → Outcome
  unfolding after_lookup is_other is_empty only
  serve_http r p =
      if is_empty r.token
      then only (not_found no_store) p
      else if is_other r.method
      then only
          (http_error (insert (codes "Allow") (codes "GET, HEAD, OPTIONS") no_store)
            (codes "Method Not Allowed") 405)
          p
      else after_lookup r p (b.find_file r.token)
