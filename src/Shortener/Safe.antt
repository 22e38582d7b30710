-- ===== src/Shortener/Safe.antt =====
-- internal/shortener/shortener.go: the URLs that `Shorten` returns and caches.
use thunder_go.Prelude.{
  ℕ, suc, ◌≡◌, refl, subst, ◌≢◌, ◌⊎◌, inl, inr, Bool, true, false, ◌||◌, Option, none, some, List,
  [], ◌∷◌, arith, length, All, ltb, ◌==◌, if◌then◌else◌, Bool-cases,
}
use thunder_go.Prelude.Assoc
use thunder_go.Prelude.Dict.{lookup, remove}
use thunder_go.Prelude.Text.{Text, text_eq, is_empty, has_prefix, to_lower}
use thunder_go.Prelude.Text.Laws.{text_eq_iff}
use thunder_go.Shortener.{
  LruCache, Shortener, Web, get, get_found, put, put_found, to_front, drop_back, insecure, secure,
  host_matches, norm_host, checked, from_response, parse_shortener_body, call_api, fresh, cached,
  shorten,
}

module _ {κ} (P : Text → Text → Type κ) where
  abbrev Good : List (Text × Text) → Type κ
  Good = All (λ e. P e.0 e.1)

  remove-Good : (k : Text) (m : List (Text × Text)) → Good m → Good (remove k m)
  unfolding Assoc.remove
  remove-Good k [] h = h
  remove-Good k ((j, v) ∷ m) h = elim (Bool-cases (text_eq j k)) [
    | inl e ↦ rw e (remove-Good k m h.1)
    | inr e ↦ rw e (h.0, remove-Good k m h.1)
  ]

  lookup-Good : (k v : Text) (m : List (Text × Text)) → Good m → lookup k m ≡ some v → P k v
  unfolding Assoc.lookup
  lookup-Good k v [] h e = absurd (ground arith)
  lookup-Good k v ((j, x) ∷ m) h e = elim (Bool-cases (text_eq j k)) [
    | inl t ↦
        let same : x ≡ v = ground (arith, t) in
        subst (λ z. P k z) same (subst (λ z. P z x) ((text_eq_iff j k).0 t) h.0)
    | inr t ↦ lookup-Good k v m h.1 (rw t at e)
  ]

  drop_back-Good : (m : List (Text × Text)) → Good m → Good (drop_back m)
  unfolding drop_back
  drop_back-Good [] h = h
  drop_back-Good (x ∷ []) h = tt
  drop_back-Good (x ∷ y ∷ m) h = (h.0, drop_back-Good (y ∷ m) h.1)

  put-Good : (k v : Text) (c : LruCache) → P k v → Good c.order → Good (put k v c).order
  unfolding put put_found to_front
  put-Good k v c p h = go (lookup k c.order)
    where
      go : (o : Option Text) → Good (put_found k v c o).order
      go (some old) = (p, remove-Good k c.order h)
      go none = elim (Bool-cases (ltb c.cap (suc (length c.order)))) [
        | inl e ↦ rw e (drop_back-Good ((k, v) ∷ c.order) (p, h))
        | inr e ↦ rw e (p, h)
      ]

module _ (w : Web) where
  -- Two URLs that can be parsed and have the same host, which is not empty, up to letter case.
  abbrev pub OnHost : Text → Text → Type 0
  OnHost short site =
      (w.parses short ≡ true)
      × ((w.parses site ≡ true)
          × ((w.hostname short ≢ []) × (to_lower (w.hostname short) ≡ to_lower (w.hostname site))))

  host_of :
      (b : Bool) (h : Text)
      → is_empty (if b then to_lower h else []) ≡ false
      → (b ≡ true) × (h ≢ [])
  unfolding is_empty to_lower
  host_of true [] p = cc
  host_of true (c ∷ h) p = (refl, λ e. cc e)
  host_of false h p = cc

  host_matches-OnHost : (short site : Text) → host_matches w short site ≡ true → OnHost short site
  unfolding host_matches norm_host
  host_matches-OnHost short site h =
      let own = if w.parses short then to_lower (w.hostname short) else [] in
      let other = if w.parses site then to_lower (w.hostname site) else [] in
      let full : is_empty own ≡ false = ground arith in
      let same : own ≡ other = (text_eq_iff own other).0 (ground arith) in
      let a = host_of (w.parses short) (w.hostname short) full in
      let b =
        host_of (w.parses site) (w.hostname site) (subst (λ t. is_empty t ≡ false) same full) in
      (a.0, (b.0, (a.1, rw (a.0, b.0) at same)))

  -- The URL itself, or an HTTP URL on the host of the site.
  abbrev pub IsSafe : Text → Text → Text → Type 0
  IsSafe site long_url short =
      (short ≡ long_url)
      ⊎ (((has_prefix short insecure || has_prefix short secure) ≡ true) × OnHost short site)

  checked-IsSafe :
      (site long_url short : Text) → IsSafe site long_url (checked w site long_url short)
  unfolding checked
  checked-IsSafe site long_url short = elim (Bool-cases (host_matches w short site)) [
    | inl e ↦ ground (arith, host_matches-OnHost short site e)
    | inr e ↦ ground arith
  ]

  call_api-IsSafe :
      (s : Shortener) (long_url : Text) → IsSafe s.site long_url (call_api w s long_url)
  unfolding call_api from_response
  call_api-IsSafe s long_url = go (w.fetch _ _)
    where
      go :
          (o : Option (ℕ × Option Text))
          → IsSafe s.site long_url (from_response w s.site long_url o)
      go none = inl refl
      go (some (status, none)) = inl refl
      go (some (status, some body)) = elim (Bool-cases (status == 200)) [
        | inl e ↦ rw e (checked-IsSafe s.site long_url (parse_shortener_body w body))
        | inr e ↦ rw e (inl refl)
      ]

  -- What the cache holds for each URL is safe for it.
  abbrev pub HoldsSafe : Shortener → Type 0
  HoldsSafe s = Good (IsSafe s.site) s.cache.order

  fresh-Safe :
      (s : Shortener) (long_url short : Text)
      → HoldsSafe s
      → IsSafe s.site long_url short
      → IsSafe s.site long_url (fresh w s long_url short).0 × HoldsSafe (fresh w s long_url short).1
  unfolding fresh
  fresh-Safe s long_url short h p = elim (Bool-cases (is_empty short || text_eq short long_url)) [
    | inl e ↦ rw e (inl refl, h)
    | inr e ↦ rw e (p, put-Good (IsSafe s.site) long_url short s.cache p h)
  ]

  -- The outcome is safe, and so is the cache after it.
  abbrev pub Fine : Shortener → Text → Text × Shortener → Type 0
  Fine s long_url r = IsSafe s.site long_url r.0 × HoldsSafe r.1

  after_get :
      (s : Shortener) (long_url : Text) (o : Option Text)
      → lookup long_url s.cache.order ≡ o
      → HoldsSafe s
      → Fine s long_url (cached w s long_url (get_found long_url s.cache o))
  unfolding cached get_found to_front
  after_get s long_url none e h =
      fresh-Safe s long_url (call_api w s long_url) h (call_api-IsSafe s long_url)
  after_get s long_url (some short) e h =
      let p = lookup-Good (IsSafe s.site) long_url short s.cache.order h e in
      (p, (p, remove-Good (IsSafe s.site) long_url s.cache.order h))

  -- `Shorten` returns the long URL, or an HTTP URL that can be parsed and whose host, which is not
  -- empty, is that of the configured site up to letter case, whatever the shortening service
  -- answers, if that is so of what is in the cache; and it is so of the cache after the call.
  pub shorten-IsSafe :
      (s : Shortener) (long_url : Text) → HoldsSafe s → Fine s long_url (shorten w s long_url)
  unfolding shorten get
  shorten-IsSafe s long_url h = elim (Bool-cases (is_empty long_url)) [
    | inl e ↦ rw e (inl refl, h)
    | inr e ↦ rw e (after_get s long_url (lookup long_url s.cache.order) refl h)
  ]
