-- ===== src/Stream/Serving/Head.antt =====
-- internal/stream/handler.go: `ServeHTTP` on a HEAD request and on a GET request.
use thunder_go.Prelude.{ℕ, ◌≡◌, refl, inl, inr, false, Option, none, some, Bool-cases}
use thunder_go.Pool.{Pool, acquire_best}
use thunder_go.Prelude.Int.{pos, leb_ℤ}
use thunder_go.Prelude.Text.{Text, is_empty}
use thunder_go.Store.{FileRecord}
use thunder_go.Stream.Serving.{
  Backend, Headers, Request, Response, Method, get, head, is_other, is_head, only, just,
  unsupported, admit, after_lookup, after_resolve, effective_range, serve_range, serve_client,
  serve_http,
}
use thunder_go.Stream.Vault.{media, resolve_vault_media}
use thunder_go.Tgutil.Media.{Message}
use thunder_go.Tgutil.Range.{
  Range, RangeResult, absent, range, err, malformed, unsatisfiable, parse_range,
}

abbrev pub with_method : Method → Request → Request
with_method m r = record r { method = m }

abbrev pub front : Response → ℕ × Headers
front s = (s.status, s.headers)

-- The media of the record of a token is there, for each client.
abbrev pub IsIntact : Backend → Text → Type 0
IsIntact b token =
    (client : ℕ) (rec : FileRecord)
    → b.find_file token ≡ some (some rec)
    → leb_ℤ rec.size (pos 0) ≡ false
    → (msg : Message) × (resolve_vault_media b.has_ingester (b.lookup client rec) rec ≡ media msg)

module _ (b : Backend) (r : Request) (rec : FileRecord)
    (intact : (client : ℕ)
      → (msg : Message) × (resolve_vault_media b.has_ingester (b.lookup client rec) rec
          ≡ media msg)) where
  serve_range-front :
      (client : ℕ) (rng : Option Range)
      → front (serve_range b (with_method head r) rec client rng).response
        ≡ front (serve_range b (with_method get r) rec client rng).response
  unfolding serve_range is_head just after_resolve
  serve_range-front client rng = elim (Bool-cases (unsupported rng)) [
    | inl e ↦ rw e
    | inr e ↦ rw (e, (intact client).1, after_resolve, just)
  ]

  serve_client-front :
      (client : ℕ) (o : RangeResult)
      → front (serve_client b (with_method head r) rec client o).response
        ≡ front (serve_client b (with_method get r) rec client o).response
  unfolding serve_client
  serve_client-front client absent = serve_range-front client none
  serve_client-front client (range rng) = serve_range-front client (effective_range rec.size rng)
  serve_client-front client (err malformed) = refl
  serve_client-front client (err unsatisfiable) = refl

  admit-front :
      (t : Option ℕ × Pool)
      → front (admit b (with_method head r) rec t).response
        ≡ front (admit b (with_method get r) rec t).response
  unfolding admit
  admit-front (none, p) = refl
  admit-front (some client, p) = serve_client-front client (parse_range r.range_header rec.size)

module _ (b : Backend) (r : Request) (intact : IsIntact b r.token) where
  after_lookup-front :
      (p : Pool) (o : Option (Option FileRecord))
      → b.find_file r.token ≡ o
      → front (after_lookup b (with_method head r) p o).response
        ≡ front (after_lookup b (with_method get r) p o).response
  unfolding after_lookup only
  after_lookup-front p none f = refl
  after_lookup-front p (some none) f = refl
  after_lookup-front p (some (some rec)) f = elim (Bool-cases (leb_ℤ rec.size (pos 0))) [
    | inl e ↦ rw e
    | inr e ↦ rw e (admit-front b r rec (λ client. intact client rec f e) (acquire_best p))
  ]

  -- Where the media of the record of the token is there, a HEAD request has the status and the headers of the
  -- GET request.
  pub serve_http-front :
      (p : Pool)
      → front (serve_http b (with_method head r) p).response
        ≡ front (serve_http b (with_method get r) p).response
  unfolding serve_http is_other only
  serve_http-front p = elim (Bool-cases (is_empty r.token)) [
    | inl e ↦ rw e
    | inr e ↦ rw e (after_lookup-front p (b.find_file r.token) refl)
  ]
