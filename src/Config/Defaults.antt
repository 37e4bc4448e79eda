-- ===== src/Config/Defaults.antt =====
-- What `LoadFromMap` of server/internal/config/config.go makes of an environment that holds only what it
-- has to hold.
use open_rtc.Base.{ℕ, String, ◌≡◌, refl, true, false, none, List, [], ◌∷◌, ◌==◌, contains}
use open_rtc.Dict.{Dict}
use open_rtc.Config.{
  Library, loaded, single, LimitsConfig, RuntimeConfig, default_string, is_single_byte, read_string,
  require_string, read_csv, mode_of, read_int, read_non_negative_int, read_bool,
}
use open_rtc.Config.Load.{
  webhook_urls, tenant_separator_of, admin_auth_of, load_admin_auth, load_limits, load_webhooks,
  load_redis, load_from_map,
}

abbrev pub required : List String
required =
    "OPENRTC_NODE_ID" ∷ "OPENRTC_AUTH_ISSUER" ∷ "OPENRTC_AUTH_AUDIENCE" ∷ "OPENRTC_AUTH_JWKS_URL"
    ∷ []

abbrev pub default_limits : LimitsConfig
default_limits = record {
  payload_max_bytes = 16384;
  envelope_max_bytes = 20480;
  yjs_max_bytes = 1048576;
  rooms_per_connection = 50;
  room_connections = 0;
  yjs_room_connections = 0;
  emits_per_second = 100;
  outbound_queue_depth = 256;
}

abbrev pub default_config : String → String → String → String → RuntimeConfig
default_config node_id issuer audience jwks_url = record {
  mode = single;
  node_id = node_id;
  server = record { host = "0.0.0.0"; port = 8080; ws_path = "/ws"; allowed_origins = [] };
  redis = none;
  auth = record { issuer = issuer; audience = audience; jwks_url = jwks_url };
  admin_auth = none;
  tenant = record { enforce_prefix = true; separator = ":" };
  limits = default_limits;
  webhooks = none;
}

module _ (l : Library) (env : Dict String) where
  int_unset : (key : String) (n : ℕ) → read_string env key ≡ "" → read_int l env key n ≡ loaded n
  unfolding read_int
  int_unset key n h = rw h refl

  non_negative_unset :
      (key : String) (n : ℕ)
      → read_string env key ≡ ""
      → read_non_negative_int l env key n ≡ loaded n
  unfolding read_non_negative_int
  non_negative_unset key n h = rw h refl

  csv_unset : (key : String) → read_string env key ≡ "" → read_csv env key ≡ []
  unfolding read_csv
  csv_unset key h = rw h refl

  given :
      (key : String)
      → (read_string env key == "") ≡ false
      → require_string env key ≡ loaded (read_string env key)
  unfolding require_string
  given key h = rw h refl

  module _ (unset : (key : String) → contains required key ≡ false → read_string env key ≡ "") where
    limits_unset : load_limits l env ≡ loaded default_limits
    unfolding load_limits contains
    limits_unset =
        rw
          (
            int_unset "OPENRTC_LIMIT_PAYLOAD_MAX_BYTES" 16384 (unset _ refl),
            int_unset "OPENRTC_LIMIT_ENVELOPE_MAX_BYTES" 20480 (unset _ refl),
            int_unset "OPENRTC_LIMIT_YJS_MAX_BYTES" 1048576 (unset _ refl),
            int_unset "OPENRTC_LIMIT_ROOMS_PER_CONNECTION" 50 (unset _ refl),
            non_negative_unset "OPENRTC_LIMIT_ROOM_CONNECTIONS" 0 (unset _ refl),
            non_negative_unset "OPENRTC_LIMIT_YJS_ROOM_CONNECTIONS" 0 (unset _ refl),
            int_unset "OPENRTC_LIMIT_EMITS_PER_SECOND" 100 (unset _ refl),
            int_unset "OPENRTC_LIMIT_OUTBOUND_QUEUE_DEPTH" 256 (unset _ refl),
          )
          refl

    admin_unset : (jwks_url : String) → load_admin_auth env jwks_url ≡ loaded none
    unfolding load_admin_auth admin_auth_of contains
    admin_unset jwks_url =
        rw (unset "OPENRTC_ADMIN_AUTH_ISSUER" refl, unset "OPENRTC_ADMIN_AUTH_AUDIENCE" refl) refl

    urls_unset : webhook_urls env ≡ []
    unfolding webhook_urls contains
    urls_unset =
        rw (csv_unset "OPENRTC_WEBHOOK_URLS" (unset _ refl), unset "OPENRTC_WEBHOOK_URL" refl) refl

    separator_unset : tenant_separator_of env ≡ ":"
    unfolding tenant_separator_of default_string contains
    separator_unset = rw (unset "OPENRTC_TENANT_SEPARATOR" refl) refl

    prefix_unset :
        l.to_lower "" ≡ "" → read_bool l env "OPENRTC_TENANT_ENFORCE_PREFIX" true ≡ loaded true
    unfolding read_bool contains
    prefix_unset h = rw (unset "OPENRTC_TENANT_ENFORCE_PREFIX" refl, h) refl

    -- Where all variables but the node's id, the issuer, the audience and the address of the keys are unset
    -- or blank, and these four are not: the configuration loads, and is the default one with the four values.
    pub load_from_map-defaults :
        l.to_lower "" ≡ ""
        → (read_string env "OPENRTC_NODE_ID" == "") ≡ false
        → (read_string env "OPENRTC_AUTH_ISSUER" == "") ≡ false
        → (read_string env "OPENRTC_AUTH_AUDIENCE" == "") ≡ false
        → (read_string env "OPENRTC_AUTH_JWKS_URL" == "") ≡ false
        → load_from_map l env
          ≡ loaded (
              default_config
                (read_string env "OPENRTC_NODE_ID")
                (read_string env "OPENRTC_AUTH_ISSUER")
                (read_string env "OPENRTC_AUTH_AUDIENCE")
                (read_string env "OPENRTC_AUTH_JWKS_URL"))
    unfolding load_from_map default_string mode_of load_webhooks load_redis is_single_byte contains
    load_from_map-defaults lower node issuer audience jwks_url =
        rw
          (
            unset "OPENRTC_MODE" refl,
            given "OPENRTC_NODE_ID" node,
            given "OPENRTC_AUTH_ISSUER" issuer,
            given "OPENRTC_AUTH_AUDIENCE" audience,
            given "OPENRTC_AUTH_JWKS_URL" jwks_url,
            separator_unset,
            limits_unset,
            int_unset "OPENRTC_SERVER_PORT" 8080 (unset _ refl),
            prefix_unset lower,
            admin_unset (read_string env "OPENRTC_AUTH_JWKS_URL"),
            urls_unset,
            unset "OPENRTC_SERVER_HOST" refl,
            unset "OPENRTC_WS_PATH" refl,
            csv_unset "OPENRTC_ALLOWED_ORIGINS" (unset _ refl),
          )
          refl
