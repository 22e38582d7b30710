-- ===== src/Shortener.antt =====
-- internal/shortener/shortener.go: the client of the URL shortener and its LRU cache. The URL and
-- JSON libraries and the HTTP exchange are parameters; calls for one URL do not overlap here.
pub mod Safe
pub mod Recent
use thunder_go.Prelude.{
  ℕ, zero, suc, ◌+◌, ◌-◌, ◌*◌, ◌/◌, ◌%◌, ◌^◌, ◌≤◌, ◌<◌, min, max, ◌≡◌, refl, sym, ap, ◌∙◌, subst,
  ◌≢◌, ◌↔◌, ◌⊎◌, inl, inr, Bool, true, false, not, ◌&&◌, ◌||◌, Option, none, some, List, [], ◌∷◌,
  ◌++◌, map, append-nil, append_assoc, arith, length, get_elem?, set, take, drop, length-append,
  length-take, length-drop, All, All-append, All-map, All_at, get_elem?-append,
  get_elem?-append_length, ltb, leb, ◌==◌, if◌then◌else◌, tests, leb→le, le→leb, leb-false→lt,
  ltb→lt, lt→ltb, ltb-false→le, Bool-cases, Option-cases,
}
use thunder_go.Prelude.Dict.{lookup, remove}
use thunder_go.Prelude.Text.{
  Text, codes, text_eq, is_empty, has_prefix, trim_space, trim_right, to_lower,
}

-- `order`, front first; the map `items` points into it.
pub record LruCache : Type 0 where
  pub cap : ℕ
  pub order : List (Text × Text)

unfoldable pub new_lru_cache : ℕ → LruCache
new_lru_cache cap = record { cap = cap; order = [] }

to_front : Text → Text → LruCache → LruCache
to_front key value c = record c { order = (key, value) ∷ remove key c.order }

get_found : Text → LruCache → Option Text → Option Text × LruCache
unfolding to_front
get_found key c none = (none, c)
get_found key c (some value) = (some value, to_front key value c)

unfoldable pub get : Text → LruCache → Option Text × LruCache
unfolding get_found
get key c = get_found key c (lookup key c.order)

-- Without its last element.
pub drop_back : List (Text × Text) → List (Text × Text)
drop_back [] = []
drop_back (x ∷ []) = []
drop_back (x ∷ y ∷ xs) = x ∷ drop_back (y ∷ xs)

put_found : Text → Text → LruCache → Option Text → LruCache
unfolding to_front drop_back
put_found key value c (some old) = to_front key value c
put_found key value c none =
    let order = (key, value) ∷ c.order in
    record c { order = if ltb c.cap (length order) then drop_back order else order }

unfoldable pub put : Text → Text → LruCache → LruCache
unfolding put_found
put key value c = put_found key value c (lookup key c.order)

-- The fields shorturl, url and short.
pub record ShortenerResponse : Type 0 where
  pub short_url : Text
  pub url : Text
  pub short : Text

pub record Shortener : Type 0 where
  pub api_key : Text
  pub site : Text
  pub cache : LruCache

pub record Web : Type 0 where
  -- url.Parse of a text succeeds; its Hostname
  pub parses : Text → Bool
  pub hostname : Text → Text
  pub query_escape : Text → Text
  -- json.Unmarshal
  pub unmarshal : Text → Option ShortenerResponse
  -- What a GET of the URL with that Authorization header comes to: a status and the first 8192
  -- bytes of the body, `none` for an error while they are read.
  pub fetch : Text → Text → Option (ℕ × Option Text)

abbrev pub secure : Text
secure = codes "https://"

abbrev pub insecure : Text
insecure = codes "http://"

first_of : ShortenerResponse → Text
unfolding is_empty
first_of sr =
    if not (is_empty sr.short_url)
    then trim_space sr.short_url
    else if not (is_empty sr.url)
    then trim_space sr.url
    else if not (is_empty sr.short)
    then trim_space sr.short
    else []

json_body : Option ShortenerResponse → Text
unfolding first_of
json_body none = []
json_body (some sr) = first_of sr

module _ (w : Web) where
  -- The result (nil, error) is `none`, a nil shortener `some none`.
  unfoldable pub new : Text → Text → Option (Option Shortener)
  unfolding is_empty has_prefix
  new api_key site =
      if is_empty api_key || is_empty site
      then some none
      else if not (has_prefix site secure)
      then some none
      else if not (w.parses site)
      then none
      else some (
          some (record {
            api_key = api_key;
            site = trim_right (λ c. c == b'/') site;
            cache = new_lru_cache 10000;
          }))

  unfoldable pub parse_shortener_body : Text → Text
  unfolding json_body
  parse_shortener_body body =
      let trimmed = trim_space body in
      if is_empty trimmed
      then []
      else if has_prefix trimmed (b'{' ∷ [])
      then json_body (w.unmarshal trimmed)
      else trimmed

  unfoldable pub norm_host : Text → Text
  norm_host u = if w.parses u then to_lower (w.hostname u) else []

  unfoldable pub host_matches : Text → Text → Bool
  unfolding norm_host
  host_matches short_url site =
      let h = norm_host short_url in not (is_empty h) && text_eq h (norm_host site)

  checked : Text → Text → Text → Text
  unfolding host_matches
  checked site long_url short =
      if is_empty short
      then long_url
      else if not (has_prefix short insecure) && not (has_prefix short secure)
      then long_url
      else if not (host_matches short site)
      then long_url
      else short

  from_response : Text → Text → Option (ℕ × Option Text) → Text
  unfolding checked parse_shortener_body
  from_response site long_url none = long_url
  from_response site long_url (some (status, none)) = long_url
  from_response site long_url (some (status, some body)) =
      if not (status == 200) then long_url else checked site long_url (parse_shortener_body body)

  unfoldable pub call_api : Shortener → Text → Text
  unfolding from_response
  call_api s long_url = from_response s.site long_url (
      w.fetch (s.site ++ (codes "/api?url=" ++ w.query_escape long_url))
        (if is_empty s.api_key then [] else codes "Bearer " ++ s.api_key))

  fresh : Shortener → Text → Text → Text × Shortener
  fresh s long_url short =
      if is_empty short || text_eq short long_url
      then (long_url, s)
      else (short, record s { cache = put long_url short s.cache })

  cached : Shortener → Text → Option Text × LruCache → Text × Shortener
  unfolding fresh
  cached s long_url (some short, c) = (short, record s { cache = c })
  cached s long_url (none, c) =
      fresh (record s { cache = c }) long_url (call_api (record s { cache = c }) long_url)

  -- A nil shortener returns the URL as it is.
  unfoldable pub shorten : Shortener → Text → Text × Shortener
  unfolding cached
  shorten s long_url =
      if is_empty long_url then (long_url, s) else cached s long_url (get long_url s.cache)
