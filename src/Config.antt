-- ===== src/Config.antt =====
-- internal/config/config.go: the checks of `validate`, the listen port, the owner test and the form
-- of channel identifiers in links. The environment and the URL library are parameters.
pub mod Links
pub mod Ports
pub mod Comment
use thunder_go.Prelude.{
  ℕ, zero, suc, ◌+◌, ◌-◌, ◌*◌, ◌/◌, ◌%◌, ◌^◌, ◌≤◌, ◌<◌, min, max, ◌≡◌, refl, sym, ap, ◌∙◌, subst,
  ◌≢◌, ◌↔◌, ◌⊎◌, inl, inr, Bool, true, false, not, ◌&&◌, ◌||◌, Option, none, some, List, [], ◌∷◌,
  ◌++◌, map, append-nil, append_assoc, arith, length, get_elem?, set, take, drop, length-append,
  length-take, length-drop, All, All-append, All-map, All_at, get_elem?-append,
  get_elem?-append_length, ltb, leb, ◌==◌, if◌then◌else◌, tests, leb→le, le→leb, leb-false→lt,
  ltb→lt, lt→ltb, ltb-false→le, Bool-cases, Option-cases,
}
use thunder_go.Prelude.Int.{ℤ, pos, negsuc, ltb_ℤ, leb_ℤ, eqb_ℤ, sub_ℕ}
use thunder_go.Prelude.Text.{Text, codes, text_eq, is_empty, to_lower, trim_right}
use thunder_go.Prelude.Text.Decimal.{parse_int}

-- The fields that are read here.
pub record Config : Type 0 where
  pub api_id : ℤ
  pub vault_channel_id : ℤ
  pub force_sub_channel_id : ℤ
  pub owner_user_id : ℤ
  pub token_enabled : Bool
  pub token_ttl_hours : ℤ
  pub max_concurrent_per_client : ℤ
  pub file_ttl_days : ℤ
  pub keepalive_secs : ℤ
  pub log_level : Text
  pub http_port : ℤ
  pub batch_cap : ℤ
  pub base_url : Text
  pub private_mode : Bool
  pub banned_channel_ids : List ℤ
  pub channel_auto_process : Bool

-- The setting that an error names.
pub data ConfigError : Type 0 where
  tg_api_id tg_vault_channel_id tg_force_sub_channel_id tg_owner_user_id tg_token_ttl_hours :
      ConfigError
  tg_max_concurrent_per_client tg_file_ttl_days tg_keepalive_secs tg_http_port : ConfigError

pub data Checked : Type 0 where
  valid : Config → Checked
  invalid : ConfigError → Checked

-- -1000000000000
abbrev pub min_channel_id : ℤ
min_channel_id = negsuc 999999999999

pub known_level : Text → Bool
known_level level =
    text_eq level (codes "debug")
    || (text_eq level (codes "info")
        || (text_eq level (codes "warn") || text_eq level (codes "error")))

-- The settings that are put right rather than refused.
pub settled : Config → Config
unfolding known_level
settled c =
    let level = to_lower c.log_level in
    record c {
      log_level = if known_level level then level else codes "info";
      batch_cap = if ltb_ℤ c.batch_cap (pos 1) then pos 50 else c.batch_cap;
    }

unfoldable pub validate : Config → Checked
unfolding settled
validate c =
    if leb_ℤ c.api_id (pos 0)
    then invalid tg_api_id
    else if ltb_ℤ min_channel_id c.vault_channel_id
    then invalid tg_vault_channel_id
    else if not (eqb_ℤ c.force_sub_channel_id (pos 0))
        && ltb_ℤ min_channel_id c.force_sub_channel_id
    then invalid tg_force_sub_channel_id
    else if eqb_ℤ c.owner_user_id (pos 0)
    then invalid tg_owner_user_id
    else if c.token_enabled && leb_ℤ c.token_ttl_hours (pos 0)
    then invalid tg_token_ttl_hours
    else if ltb_ℤ c.max_concurrent_per_client (pos 1)
    then invalid tg_max_concurrent_per_client
    else if ltb_ℤ c.file_ttl_days (pos 0)
    then invalid tg_file_ttl_days
    else if ltb_ℤ c.keepalive_secs (pos 0)
    then invalid tg_keepalive_secs
    else if ltb_ℤ c.http_port (pos 0) || ltb_ℤ (pos 65535) c.http_port
    then invalid tg_http_port
    else valid (settled c)

unfoldable pub is_owner : Config → ℤ → Bool
is_owner c user_id = not (eqb_ℤ c.owner_user_id (pos 0)) && eqb_ℤ user_id c.owner_user_id

abbrev offset : ℕ
offset = 1000000000000

unfoldable pub channel_id_to_raw : ℤ → ℤ
channel_id_to_raw (pos n) = pos n
channel_id_to_raw (negsuc n) = if leb offset (suc n) then pos (suc n - offset) else pos (suc n)

-- What `url.Parse` gives: the port, or "", and the scheme.
pub record Url : Type 0 where
  pub port : Text
  pub scheme : Text

by_scheme : Text → ℤ
by_scheme scheme = if text_eq scheme (codes "https") then pos 443 else pos 8080

or_scheme : Text → Option ℤ → ℤ
unfolding by_scheme
or_scheme scheme none = by_scheme scheme
or_scheme scheme (some n) = n

pub default_port : Url → ℤ
unfolding or_scheme is_empty
default_port u =
    if is_empty u.port then by_scheme u.scheme else or_scheme u.scheme (parse_int u.port)

-- The port that the platform sets, if it is one.
platform_port : Option ℤ → Option ℤ
platform_port none = none
platform_port (some n) = if ltb_ℤ (pos 0) n && leb_ℤ n (pos 65535) then some n else none

parsed_port : Option Url → ℤ
unfolding default_port
parsed_port none = pos 8080
parsed_port (some u) = default_port u

or_parsed : Option Url → Option ℤ → ℤ
unfolding parsed_port
or_parsed u none = parsed_port u
or_parsed u (some n) = n

-- `port` is the environment's PORT, "" if it is not set; `parse` is `url.Parse`.
unfoldable pub listen_port : (Text → Option Url) → Text → Config → ℤ
unfolding platform_port or_parsed
listen_port parse port c =
    if ltb_ℤ (pos 0) c.http_port
    then c.http_port
    else or_parsed (parse c.base_url)
        (if is_empty port then none else platform_port (parse_int port))

is_blank : ℕ → Bool
is_blank c = c == 32 || c == 9

before_comment : ℕ → Option Text → Option Text
before_comment c none = none
before_comment c (some s) = some (c ∷ s)

-- The text before the comment, if there is one, from the quotes that are open and the byte before.
pub scan : Bool → Bool → Bool → Text → Option Text
unfolding is_blank before_comment
scan in_single in_double after_blank [] = none
scan in_single in_double after_blank (c ∷ s) =
    let rest =
      scan (if c == 39 && not in_double then not in_single else in_single)
        (if c == b'"' && not in_single then not in_double else in_double) (is_blank c) s in
    if c == b'#' && (not in_single && (not in_double && after_blank))
    then some []
    else before_comment c rest

stripped : Text → Option Text → Text
unfolding is_blank
stripped line none = line
stripped line (some before) = trim_right is_blank before

unfoldable pub strip_inline_comment : Text → Text
unfolding scan stripped
strip_inline_comment line = stripped line (scan false false false line)
