-- ===== src/Config/Ports.antt =====
-- internal/config/config.go: configurations that pass `validate`, and `ListenPort`.
use thunder_go.Prelude.{
  ℕ, ◌+◌, ◌≡◌, refl, subst, inl, inr, Bool, true, false, not, ◌&&◌, ◌||◌, Option, none, some, arith,
  if◌then◌else◌, tests, Bool-cases,
}
use thunder_go.Config.{
  Config, Checked, ConfigError, valid, invalid, tg_api_id, tg_vault_channel_id,
  tg_force_sub_channel_id, tg_owner_user_id, tg_token_ttl_hours, tg_max_concurrent_per_client,
  tg_file_ttl_days, tg_keepalive_secs, tg_http_port, validate, settled, known_level, min_channel_id,
  Url, listen_port, default_port, or_scheme, by_scheme, platform_port, parsed_port, or_parsed,
  channel_id_to_raw,
}
use thunder_go.Prelude.Int.{ℤ, pos, negsuc, ltb_ℤ, leb_ℤ, eqb_ℤ}
use thunder_go.Prelude.Text.{Text, codes, text_eq, to_lower, is_empty}
use thunder_go.Prelude.Text.Decimal.{parse_int}

-- The ranges of the settings.
pub record IsChecked (c : Config) : Type 0 where
  pub api_id : ltb_ℤ (pos 0) c.api_id ≡ true
  pub vault : leb_ℤ c.vault_channel_id min_channel_id ≡ true
  pub owner : eqb_ℤ c.owner_user_id (pos 0) ≡ false
  pub clients : leb_ℤ (pos 1) c.max_concurrent_per_client ≡ true
  pub port : (leb_ℤ (pos 0) c.http_port && leb_ℤ c.http_port (pos 65535)) ≡ true
  pub batch : leb_ℤ (pos 1) c.batch_cap ≡ true
  pub level : known_level c.log_level ≡ true

-- A check that fails makes the configuration invalid.
passed :
    (b : Bool) (e : ConfigError) (rest : Checked) (c' : Config)
    → (if b then invalid e else rest) ≡ valid c'
    → (b ≡ false) × (rest ≡ valid c')
passed true e rest c' h = cc
passed false e rest c' h = (refl, h)

known_level-settled :
    (level : Text) → known_level (if known_level level then level else codes "info") ≡ true
unfolding known_level text_eq
known_level-settled level = elim (Bool-cases (known_level level)) [
  | inl e ↦ rw (e, e)
  | inr e ↦ rw e
]

settled-IsChecked :
    (c : Config)
    → leb_ℤ c.api_id (pos 0) ≡ false
    → ltb_ℤ min_channel_id c.vault_channel_id ≡ false
    → eqb_ℤ c.owner_user_id (pos 0) ≡ false
    → ltb_ℤ c.max_concurrent_per_client (pos 1) ≡ false
    → (ltb_ℤ c.http_port (pos 0) || ltb_ℤ (pos 65535) c.http_port) ≡ false
    → IsChecked (settled c)
unfolding settled
settled-IsChecked c api vault owner clients port = record {
  api_id = omega (tests, api);
  vault = ground (arith, vault);
  owner = owner;
  clients = ground (arith, clients);
  port = ground (arith, port);
  batch = ground arith;
  level = known_level-settled (to_lower c.log_level);
}

-- A configuration that passes the checks has its settings in their ranges: the API identifier is
-- positive, the vault is a channel, there is an owner, a client may serve a stream, the port is at
-- most 65535, a batch holds a file, and the log level is a known one.
validate-IsChecked : (c c' : Config) → validate c ≡ valid c' → IsChecked c'
unfolding validate
validate-IsChecked c c' h =
    let r9 = valid (settled c) in
    let t8 = ltb_ℤ c.http_port (pos 0) || ltb_ℤ (pos 65535) c.http_port in
    let r8 = if t8 then invalid tg_http_port else r9 in
    let t7 = ltb_ℤ c.keepalive_secs (pos 0) in
    let r7 = if t7 then invalid tg_keepalive_secs else r8 in
    let t6 = ltb_ℤ c.file_ttl_days (pos 0) in
    let r6 = if t6 then invalid tg_file_ttl_days else r7 in
    let t5 = ltb_ℤ c.max_concurrent_per_client (pos 1) in
    let r5 = if t5 then invalid tg_max_concurrent_per_client else r6 in
    let t4 = c.token_enabled && leb_ℤ c.token_ttl_hours (pos 0) in
    let r4 = if t4 then invalid tg_token_ttl_hours else r5 in
    let t3 = eqb_ℤ c.owner_user_id (pos 0) in
    let r3 = if t3 then invalid tg_owner_user_id else r4 in
    let t2 =
      not (eqb_ℤ c.force_sub_channel_id (pos 0)) && ltb_ℤ min_channel_id c.force_sub_channel_id in
    let r2 = if t2 then invalid tg_force_sub_channel_id else r3 in
    let t1 = ltb_ℤ min_channel_id c.vault_channel_id in
    let r1 = if t1 then invalid tg_vault_channel_id else r2 in
    let t0 = leb_ℤ c.api_id (pos 0) in
    let h0 = passed t0 tg_api_id r1 c' h in
    let h1 = passed t1 tg_vault_channel_id r2 c' h0.1 in
    let h2 = passed t2 tg_force_sub_channel_id r3 c' h1.1 in
    let h3 = passed t3 tg_owner_user_id r4 c' h2.1 in
    let h4 = passed t4 tg_token_ttl_hours r5 c' h3.1 in
    let h5 = passed t5 tg_max_concurrent_per_client r6 c' h4.1 in
    let h6 = passed t6 tg_file_ttl_days r7 c' h5.1 in
    let h7 = passed t7 tg_keepalive_secs r8 c' h6.1 in
    let h8 = passed t8 tg_http_port r9 c' h7.1 in
    let e : settled c ≡ c' = cc h8.1 in
    subst IsChecked e (settled-IsChecked c h0.0 h1.0 h3.0 h5.0 h8.0)

-- The number that a text stands for, if any, is a port.
abbrev pub IsPort : ℤ → Type 0
IsPort n = (leb_ℤ (pos 1) n && leb_ℤ n (pos 65535)) ≡ true

-- The number that a URL has for its port, if it has one, is a port; url.Parse takes any number.
abbrev pub HasPort : (Text → Option Url) → Text → Type 0
HasPort parse base = (u : Url) (n : ℤ) → parse base ≡ some u → parse_int u.port ≡ some n → IsPort n

IsPortIfAny : Option ℤ → Type 0
IsPortIfAny none = Unit
IsPortIfAny (some n) = IsPort n

platform_port-IsPort : (o : Option ℤ) → IsPortIfAny (platform_port o)
unfolding platform_port IsPortIfAny
platform_port-IsPort none = tt
platform_port-IsPort (some n) = elim (Bool-cases (ltb_ℤ (pos 0) n && leb_ℤ n (pos 65535))) [
  | inl e ↦ rw e (ground (arith, e))
  | inr e ↦ rw e tt
]

chosen-IsPort :
    (port : Text) → IsPortIfAny (if is_empty port then none else platform_port (parse_int port))
unfolding IsPortIfAny
chosen-IsPort port = elim (Bool-cases (is_empty port)) [
  | inl e ↦ rw e tt
  | inr e ↦ rw e (platform_port-IsPort (parse_int port))
]

by_scheme-IsPort : (scheme : Text) → IsPort (by_scheme scheme)
unfolding by_scheme
by_scheme-IsPort scheme = elim (Bool-cases (text_eq scheme (codes "https"))) [
  | inl e ↦ rw e refl
  | inr e ↦ rw e refl
]

or_scheme-IsPort :
    (scheme : Text) (o : Option ℤ) → ((n : ℤ) → o ≡ some n → IsPort n) → IsPort (or_scheme scheme o)
unfolding or_scheme
or_scheme-IsPort scheme none h = by_scheme-IsPort scheme
or_scheme-IsPort scheme (some n) h = h n refl

parsed_port-IsPort :
    (u : Option Url)
    → ((v : Url) (n : ℤ) → u ≡ some v → parse_int v.port ≡ some n → IsPort n)
    → IsPort (parsed_port u)
unfolding parsed_port default_port
parsed_port-IsPort none h = refl
parsed_port-IsPort (some u) h = elim (Bool-cases (is_empty u.port)) [
  | inl e ↦ rw e (by_scheme-IsPort u.scheme)
  | inr e ↦ rw e (or_scheme-IsPort u.scheme (parse_int u.port) (λ n f. h u n refl f))
]

or_parsed-IsPort :
    (u : Option Url)
    → ((v : Url) (n : ℤ) → u ≡ some v → parse_int v.port ≡ some n → IsPort n)
    → (o : Option ℤ) → IsPortIfAny o
    → IsPort (or_parsed u o)
unfolding or_parsed IsPortIfAny
or_parsed-IsPort u h none k = parsed_port-IsPort u h
or_parsed-IsPort u h (some n) k = k

-- A validated configuration listens on a port from 1 to 65535, whatever PORT is set to, if the
-- port that url.Parse reads off its base URL, if any, is one.
pub listen_port-IsPort :
    (parse : Text → Option Url) (port : Text) (c c' : Config)
    → HasPort parse c'.base_url
    → validate c ≡ valid c'
    → IsPort (listen_port parse port c')
unfolding listen_port
listen_port-IsPort parse port c c' ports h = elim (Bool-cases (ltb_ℤ (pos 0) c'.http_port)) [
  | inl e ↦ rw e (ground (arith, (validate-IsChecked c c' h).port))
  | inr e ↦ rw e (
      or_parsed-IsPort (parse c'.base_url) (λ u n f g. ports u n f g)
        (if is_empty port then none else platform_port (parse_int port)) (chosen-IsPort port))
]

-- The raw identifier of a channel whose identifier has the prefix -100 is what follows the prefix.
pub channel_id_to_raw-offset : (n : ℕ) → channel_id_to_raw (negsuc (999999999999 + n)) ≡ pos n
unfolding channel_id_to_raw
channel_id_to_raw-offset n = ground arith
