-- ===== src/Tests/Config.antt =====
-- Examples of environments: a cluster with a webhook, and one that has only what it has to have.
use open_rtc.Base.{
  pos, negsuc, String, ◌≡◌, refl, false, none, some, List, [], ◌∷◌, ◌==◌, if◌then◌else◌, contains,
  arith, append,
}
use open_rtc.Dict.{Dict, get}
use open_rtc.Config.{
  Library, loaded, failed, cluster, RuntimeConfig, read_string, read_csv, map_from_environ, mode_of,
  default_string, require_string, is_single_byte, read_int, read_non_negative_int, positive,
  read_bool, all_valid, has_web_scheme, valid_webhook_url,
}
use open_rtc.Config.Load.{
  load_from_map, load_from_os, tenant_separator_of, load_limits, load_admin_auth, admin_auth_of,
  load_webhooks, webhook_urls, load_redis, require_secret,
}
use open_rtc.Config.Sound.{IsValid, load_from_map-IsValid}
use open_rtc.Config.Defaults.{required, default_config, load_from_map-defaults}

-- A library that knows the texts of the examples.
abbrev library : Library
library = record {
  atoi = λ s. if s == "100" then some (pos 100) else if s == "-1" then some (negsuc 0) else none;
  to_lower = λ s. if s == "TRUE" then "true" else s;
  url_parse = λ s. if s == "https://a.example/hook" then some ("https", "a.example") else none;
}

abbrev needed : List String
needed =
    "OPENRTC_NODE_ID= n1 " ∷ "OPENRTC_AUTH_ISSUER=i" ∷ "OPENRTC_AUTH_AUDIENCE=a"
    ∷ "OPENRTC_AUTH_JWKS_URL=https://k=1" ∷ []

abbrev needed_env : Dict String
needed_env = map_from_environ needed

abbrev cluster_environ : List String
cluster_environ =
    "OPENRTC_MODE=cluster" ∷ "OPENRTC_REDIS_URL=redis://r"
    ∷ "OPENRTC_WEBHOOK_URLS= https://a.example/hook ,," ∷ "OPENRTC_WEBHOOK_SECRET=s"
    ∷ "OPENRTC_LIMIT_EMITS_PER_SECOND=100" ∷ "ignored" ∷ needed

abbrev cluster_config : RuntimeConfig
cluster_config =
    let base : RuntimeConfig = default_config "n1" "i" "a" "https://k=1" in
    record base {
      mode = cluster;
      redis =
          some
            (record { url = "redis://r"; channel_prefix = "room:"; event_log_max_entries = 1000 });
      webhooks =
          some (record { urls = "https://a.example/hook" ∷ []; secret = "s"; timeout_ms = 2000 });
    }

cluster_loads : load_from_os library cluster_environ ≡ loaded cluster_config
unfolding load_from_os load_from_map mode_of default_string read_string map_from_environ
    require_string is_single_byte tenant_separator_of load_limits read_int read_non_negative_int
    positive read_bool load_admin_auth admin_auth_of load_webhooks webhook_urls load_redis
    require_secret all_valid read_csv append has_web_scheme valid_webhook_url
cluster_loads = refl

load_from_map-IsValid_example : IsValid library cluster_config
unfolding load_from_map load_from_os
load_from_map-IsValid_example =
    load_from_map-IsValid library (map_from_environ cluster_environ) cluster_config cluster_loads

refused_limit :
    load_from_os library ("OPENRTC_SERVER_PORT=-1" ∷ needed)
    ≡ failed "OPENRTC_SERVER_PORT must be a positive integer"
unfolding load_from_os load_from_map mode_of default_string read_string map_from_environ
    require_string is_single_byte tenant_separator_of load_limits read_int read_non_negative_int
    positive read_bool load_admin_auth admin_auth_of load_webhooks webhook_urls load_redis
    require_secret all_valid read_csv append has_web_scheme valid_webhook_url
refused_limit = refl

refused_url :
    load_from_os library ("OPENRTC_WEBHOOK_URL=ftp://b" ∷ "OPENRTC_WEBHOOK_SECRET=s" ∷ needed)
    ≡ failed "OPENRTC_WEBHOOK_URLS must contain absolute http(s) URLs"
unfolding load_from_os load_from_map mode_of default_string read_string map_from_environ
    require_string is_single_byte tenant_separator_of load_limits read_int read_non_negative_int
    positive read_bool load_admin_auth admin_auth_of load_webhooks webhook_urls load_redis
    require_secret all_valid read_csv append has_web_scheme valid_webhook_url
refused_url = refl

nothing_else_set : (key : String) → contains required key ≡ false → read_string needed_env key ≡ ""
unfolding read_string get contains map_from_environ
nothing_else_set key h = ground arith

load_from_map-defaults_example :
    load_from_map library needed_env ≡ loaded (default_config "n1" "i" "a" "https://k=1")
unfolding read_string map_from_environ
load_from_map-defaults_example =
    load_from_map-defaults library needed_env nothing_else_set refl refl refl refl refl
