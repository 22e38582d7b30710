-- ===== src/Http/Pages.antt =====
-- internal/http/server.go: the routes but the one of the bytes, which is Stream.Serving, and the
-- CORS middleware. Templates, JSON and url.PathEscape are parameters, and so is the DC of a client.
pub mod Shown
use thunder_go.Prelude.{
  ℕ, zero, suc, ◌+◌, ◌-◌, ◌*◌, ◌/◌, ◌%◌, ◌^◌, ◌≤◌, ◌<◌, min, max, ◌≡◌, refl, sym, ap, ◌∙◌, subst,
  ◌≢◌, ◌↔◌, ◌⊎◌, inl, inr, Bool, true, false, not, ◌&&◌, ◌||◌, Option, none, some, List, [], ◌∷◌,
  ◌++◌, map, append-nil, append_assoc, arith, length, get_elem?, set, take, drop, length-append,
  length-take, length-drop, All, All-append, All-map, All_at, get_elem?-append,
  get_elem?-append_length, ltb, leb, ◌==◌, if◌then◌else◌, tests, leb→le, le→leb, leb-false→lt,
  ltb→lt, lt→ltb, ltb-false→le, Bool-cases, Option-cases,
}
use thunder_go.Config.{Config}
use thunder_go.Config.Links.{file_raw_url}
use thunder_go.Pool.{Pool, total_inflight}
use thunder_go.Prelude.Int.{ℤ, pos, leb_ℤ}
use thunder_go.Prelude.Text.{Text, codes, has_prefix, is_empty}
use thunder_go.Store.{FileRecord}
use thunder_go.Store.Files.{Collection, Files, find_file_by_hash}
use thunder_go.Tgutil.Base32.{normalize_base32}

pub record Page : Type 0 where
  pub file_name : Text
  pub mime_type : Text
  pub size : ℤ
  pub stream_url : Text
  pub download_url : Text
  pub is_video : Bool
  pub is_audio : Bool
  pub is_image : Bool

pub record ClientStatus : Type 0 where
  pub index : ℕ
  pub inflight : ℕ
  pub dc : ℤ

pub record StatusResponse : Type 0 where
  pub status_text : Text
  pub version : Text
  pub uptime : Text
  pub uptime_secs : ℕ
  pub bot_username : Text
  pub client_count : ℕ
  pub total_inflight : ℕ
  pub clients : List ClientStatus

-- What a route answers with: 404, 500, 503, a redirect, a page, or the status document.
pub data Answer : Type 0 where
  not_found internal_error unavailable healthy : Answer
  redirect : Text → Answer
  page : Page → Answer
  status : StatusResponse → Answer

abbrev cors_headers : List (Text × Text)
cors_headers =
    (codes "Access-Control-Allow-Origin", codes "*")
    ∷ (codes "Access-Control-Allow-Methods", codes "GET, HEAD, OPTIONS")
    ∷ (codes "Access-Control-Allow-Headers", codes "Range, Content-Type, Accept, Authorization")
    ∷ (
      codes "Access-Control-Expose-Headers",
      codes "Content-Length, Content-Range, Content-Disposition",
    )
    ∷ (codes "Access-Control-Max-Age", codes "86400")
    ∷ []

-- The headers that are set, and the answer of the next handler unless the method is OPTIONS.
unfoldable pub cors_middleware {ℓ} : {A : Type ℓ} → Bool → A → List (Text × Text) × Option A
cors_middleware is_options next = (cors_headers, if is_options then none else some next)

unfoldable pub handle_root : Answer
handle_root = redirect (codes "https://github.com/fyaz05/ThunderGo")

unfoldable pub handle_health : Answer
handle_health = healthy

-- The name of the bot, and the token of the path.
unfoldable pub handle_activate : Text → Text → Answer
unfolding is_empty normalize_base32
handle_activate bot_username param =
    let token = normalize_base32 param in
    if is_empty token
    then not_found
    else if is_empty bot_username
    then unavailable
    else redirect (codes "tg://" ++ (bot_username ++ (codes "?start=" ++ token)))

module _ (get_dc : ℕ → ℤ) where
  clients_from : ℕ → List ℕ → List ClientStatus
  clients_from i [] = []
  clients_from i (n ∷ ns) =
      record { index = i; inflight = n; dc = get_dc i } ∷ clients_from (i + 1) ns

  -- With the nanoseconds since the start, which are read twice; the text of a duration that is
  -- rounded to seconds is the standard library's.
  unfoldable pub handle_status : (ℕ → Text) → Text → Text → ℕ → ℕ → Pool → Answer
  unfolding clients_from total_inflight
  handle_status duration_text build bot since since_again p = status (record {
    status_text = codes "ok";
    version = build;
    uptime = duration_text since;
    uptime_secs = since_again / 1000000000;
    bot_username = bot;
    client_count = length p.inflight;
    total_inflight = total_inflight p;
    clients = clients_from 0 p.inflight;
  })

module _ (path_escape : Text → Text) (cfg : Config) where
  page_of : Text → FileRecord → Page
  unfolding file_raw_url has_prefix
  page_of token rec = record {
    file_name = rec.file_name;
    mime_type = rec.mime_type;
    size = rec.size;
    stream_url = file_raw_url path_escape cfg token rec.file_name ++ codes "?disposition=inline";
    download_url = file_raw_url path_escape cfg token rec.file_name;
    is_video = has_prefix rec.mime_type (codes "video/");
    is_audio = has_prefix rec.mime_type (codes "audio/");
    is_image = has_prefix rec.mime_type (codes "image/");
  }

  answer_of : Text → Option (Option FileRecord) → Answer
  unfolding page_of
  answer_of token none = internal_error
  answer_of token (some none) = not_found
  answer_of token (some (some rec)) =
      if leb_ℤ rec.size (pos 0) then not_found else page (page_of token rec)

  module _ {S : Type 0} (db : Collection S) where
    -- The answer, and the store with what it has cached.
    unfoldable pub handle_player_page : ℕ → Text → Files S → Answer × Files S
    unfolding answer_of normalize_base32 is_empty
    handle_player_page now param st =
        let token = normalize_base32 param in
        let (o, st') = find_file_by_hash db now token st in
        if is_empty token then (not_found, st) else (answer_of token o, st')
