-- ===== src/Config/Load.antt =====
-- `LoadFromMap` of server/internal/config/config.go, with one function for each group of settings.
use open_rtc.Base.{String, true, not, Option, none, some, List, [], ◌∷◌, ◌==◌, if◌then◌else◌, leb}
use open_rtc.Dict.{Dict}
use open_rtc.Config.{
  Library, Loaded, loaded, failed, ◌>>=◌, ◌>>◌, require, wanted, RuntimeMode, single, cluster,
  LimitsConfig, AuthConfig, WebhooksConfig, RedisConfig, RuntimeConfig, default_string,
  map_from_environ, read_string, require_string, read_csv, mode_of, is_single_byte, read_int,
  read_non_negative_int, read_bool, all_valid,
}

unfoldable pub webhook_urls : Dict String → List String
webhook_urls env =
    let urls : List String = read_csv env "OPENRTC_WEBHOOK_URLS" in
    let url : String = read_string env "OPENRTC_WEBHOOK_URL" in
    if url == "" then urls else url ∷ urls

unfoldable pub tenant_separator_of : Dict String → String
tenant_separator_of env = default_string (read_string env "OPENRTC_TENANT_SEPARATOR") ":"

unfoldable pub admin_auth_of : String → String → String → String → Loaded (Option AuthConfig)
admin_auth_of issuer audience jwks_url auth_jwks_url =
    if issuer == ""
    then (if audience == ""
        then loaded none
        else failed "OPENRTC_ADMIN_AUTH_ISSUER and OPENRTC_ADMIN_AUTH_AUDIENCE must both be set")
    else if audience == ""
    then failed "OPENRTC_ADMIN_AUTH_ISSUER and OPENRTC_ADMIN_AUTH_AUDIENCE must both be set"
    else loaded (
        some (record {
          issuer = issuer;
          audience = audience;
          jwks_url = default_string jwks_url auth_jwks_url;
        }))

unfoldable pub load_admin_auth : Dict String → String → Loaded (Option AuthConfig)
load_admin_auth env auth_jwks_url =
    admin_auth_of (read_string env "OPENRTC_ADMIN_AUTH_ISSUER")
      (read_string env "OPENRTC_ADMIN_AUTH_AUDIENCE")
      (read_string env "OPENRTC_ADMIN_AUTH_JWKS_URL") auth_jwks_url

unfoldable pub require_secret : String → Loaded String
require_secret secret =
    if secret == ""
    then failed "OPENRTC_WEBHOOK_SECRET is required when webhooks are configured"
    else loaded secret

module _ (l : Library) where
  unfoldable pub load_limits : Dict String → Loaded LimitsConfig
  load_limits env = do
    payload ← read_int l env "OPENRTC_LIMIT_PAYLOAD_MAX_BYTES" 16384
    envelope ← read_int l env "OPENRTC_LIMIT_ENVELOPE_MAX_BYTES" 20480
    yjs ← read_int l env "OPENRTC_LIMIT_YJS_MAX_BYTES" 1048576
    rooms ← read_int l env "OPENRTC_LIMIT_ROOMS_PER_CONNECTION" 50
    room ← read_non_negative_int l env "OPENRTC_LIMIT_ROOM_CONNECTIONS" 0
    yjs_room ← read_non_negative_int l env "OPENRTC_LIMIT_YJS_ROOM_CONNECTIONS" 0
    emits ← read_int l env "OPENRTC_LIMIT_EMITS_PER_SECOND" 100
    depth ← read_int l env "OPENRTC_LIMIT_OUTBOUND_QUEUE_DEPTH" 256
    loaded (record {
      payload_max_bytes = payload;
      envelope_max_bytes = envelope;
      yjs_max_bytes = yjs;
      rooms_per_connection = rooms;
      room_connections = room;
      yjs_room_connections = yjs_room;
      emits_per_second = emits;
      outbound_queue_depth = depth;
    })

  unfoldable pub load_webhooks : Dict String → List String → Loaded (Option WebhooksConfig)
  load_webhooks env [] = loaded none
  load_webhooks env (url ∷ urls) = do
    secret ← require_secret (read_string env "OPENRTC_WEBHOOK_SECRET")
    timeout ← read_int l env "OPENRTC_WEBHOOK_TIMEOUT_MS" 2000
    require (all_valid l (url ∷ urls)) "OPENRTC_WEBHOOK_URLS must contain absolute http(s) URLs"
    loaded (some (record { urls = url ∷ urls; secret = secret; timeout_ms = timeout }))

  unfoldable pub load_redis : Dict String → RuntimeMode → Loaded (Option RedisConfig)
  load_redis env single = loaded none
  load_redis env cluster = do
    require (not (read_string env "OPENRTC_REDIS_URL" == ""))
        "OPENRTC_REDIS_URL is required when OPENRTC_MODE=cluster"
    entries ← read_int l env "OPENRTC_REDIS_EVENT_LOG_MAX_ENTRIES" 1000
    loaded (
        some (record {
          url = read_string env "OPENRTC_REDIS_URL";
          channel_prefix = default_string (read_string env "OPENRTC_REDIS_CHANNEL_PREFIX") "room:";
          event_log_max_entries = entries;
        }))

  unfoldable pub load_from_map : Dict String → Loaded RuntimeConfig
  load_from_map env = do
    mode ←
        wanted (mode_of (default_string (read_string env "OPENRTC_MODE") "single"))
          "OPENRTC_MODE must be either single or cluster"
    node_id ← require_string env "OPENRTC_NODE_ID"
    issuer ← require_string env "OPENRTC_AUTH_ISSUER"
    audience ← require_string env "OPENRTC_AUTH_AUDIENCE"
    jwks_url ← require_string env "OPENRTC_AUTH_JWKS_URL"
    require (is_single_byte (tenant_separator_of env))
        "OPENRTC_TENANT_SEPARATOR must be a single character"
    limits ← load_limits env
    port ← read_int l env "OPENRTC_SERVER_PORT" 8080
    enforce_prefix ← read_bool l env "OPENRTC_TENANT_ENFORCE_PREFIX" true
    admin_auth ← load_admin_auth env jwks_url
    webhooks ← load_webhooks env (webhook_urls env)
    redis ← load_redis env mode
    require (leb limits.payload_max_bytes limits.envelope_max_bytes)
        "OPENRTC_LIMIT_ENVELOPE_MAX_BYTES must be >= OPENRTC_LIMIT_PAYLOAD_MAX_BYTES"
    loaded (record {
      mode = mode;
      node_id = node_id;
      server = record {
        host = default_string (read_string env "OPENRTC_SERVER_HOST") "0.0.0.0";
        port = port;
        ws_path = default_string (read_string env "OPENRTC_WS_PATH") "/ws";
        allowed_origins = read_csv env "OPENRTC_ALLOWED_ORIGINS";
      };
      redis = redis;
      auth = record { issuer = issuer; audience = audience; jwks_url = jwks_url };
      admin_auth = admin_auth;
      tenant = record { enforce_prefix = enforce_prefix; separator = tenant_separator_of env };
      limits = limits;
      webhooks = webhooks;
    })

  unfoldable pub load_from_os : List String → Loaded RuntimeConfig
  load_from_os environ = load_from_map (map_from_environ environ)
