-- ===== src/Examples/Settings.antt =====
-- A configuration that passes the checks.
use thunder_go.Prelude.{◌≡◌, refl, sym, subst, false, Option, some, []}
use thunder_go.Config.{Config, valid, validate, Url, listen_port}
use thunder_go.Config.Ports.{IsPort, HasPort, listen_port-IsPort}
use thunder_go.Prelude.Int.{pos, negsuc}
use thunder_go.Prelude.Text.{Text, codes, text_eq, to_lower}
use thunder_go.Prelude.Text.Decimal.{parse_int}

abbrev pub settings : Config
settings = record {
  api_id = pos 12;
  vault_channel_id = negsuc 1000000000122;
  force_sub_channel_id = pos 0;
  owner_user_id = pos 7;
  token_enabled = false;
  token_ttl_hours = pos 0;
  max_concurrent_per_client = pos 8;
  file_ttl_days = pos 0;
  keepalive_secs = pos 0;
  log_level = codes "info";
  http_port = pos 0;
  batch_cap = pos 0;
  base_url = codes "https://bot.example";
  private_mode = false;
  banned_channel_ids = [];
  channel_auto_process = false;
}

abbrev settled_settings : Config
settled_settings = record settings { batch_cap = pos 50 }

settings-validate : validate settings ≡ valid settled_settings
unfolding validate to_lower text_eq
settings-validate = refl

abbrev parse_example : Text → Option Url
parse_example base = some (record { port = []; scheme = codes "https" })

parse-HasPort : HasPort parse_example settled_settings.base_url
unfolding parse_int
parse-HasPort u n f g =
    let same : [] ≡ u.port = cc f in
    let k : parse_int [] ≡ some n = subst (λ t. parse_int t ≡ some n) (sym same) g in cc k

listen_port-IsPort_example : IsPort (listen_port parse_example (codes "70000") settled_settings)
listen_port-IsPort_example =
    listen_port-IsPort parse_example (codes "70000") settings settled_settings parse-HasPort
      settings-validate
