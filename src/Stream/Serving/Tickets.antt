-- ===== src/Stream/Serving/Tickets.antt =====
-- internal/stream/handler.go: what `ServeHTTP` leaves behind in the pool.
use thunder_go.Prelude.{ℕ, ◌≡◌, refl, ◌∙◌, inl, inr, Option, none, some, Bool-cases}
use thunder_go.Pool.{Pool, acquire_best}
use thunder_go.Pool.Tickets.{given_back, given_back-acquire_best}
use thunder_go.Prelude.Int.{pos, leb_ℤ}
use thunder_go.Prelude.Text.{is_empty}
use thunder_go.Store.{FileRecord}
use thunder_go.Stream.Serving.{Backend, Request, is_other, only, admit, after_lookup, serve_http}

module _ (b : Backend) where
  admit-given_back :
      (r : Request) (rec : FileRecord) (t : Option ℕ × Pool) → (admit b r rec t).pool ≡ given_back t
  unfolding admit
  admit-given_back r rec (none, p) = refl
  admit-given_back r rec (some i, p) = refl

  after_lookup-pool :
      (r : Request) (p : Pool) (o : Option (Option FileRecord)) → (after_lookup b r p o).pool ≡ p
  unfolding after_lookup only
  after_lookup-pool r p none = refl
  after_lookup-pool r p (some none) = refl
  after_lookup-pool r p (some (some rec)) = elim (Bool-cases (leb_ℤ rec.size (pos 0))) [
    | inl e ↦ rw (e, after_lookup, only)
    | inr e ↦ rw e (admit-given_back r rec (acquire_best p) ∙ given_back-acquire_best p)
  ]

  -- On every way out the request has given back the ticket that it took, and no other: the pool is
  -- as it was before.
  pub serve_http-pool : (r : Request) (p : Pool) → (serve_http b r p).pool ≡ p
  unfolding serve_http only
  serve_http-pool r p = elim (Bool-cases (is_empty r.token)) [
    | inl e ↦ rw (e, serve_http, only)
    | inr e ↦ elim (Bool-cases (is_other r.method)) [
      | inl e' ↦ rw (e, e', serve_http, only)
      | inr e' ↦ rw (e, e', after_lookup-pool r p (b.find_file r.token))
    ]
  ]
