-- ===== src/Config/Sound.antt =====
-- What every configuration that `LoadFromMap` of server/internal/config/config.go returns is like.
use open_rtc.Base.{
  ℕ, String, ◌≡◌, ◌≢◌, refl, subst, true, false, not, Option, none, some, List, [], ◌∷◌, ◌≤◌, ◌<◌,
  ◌==◌, leb, leb→le, arith,
}
use open_rtc.Dict.{Dict}
use open_rtc.Config.{
  Library, Loaded, loaded, failed, ◌>>=◌, require, wanted, RuntimeMode, single, cluster,
  LimitsConfig, AuthConfig, WebhooksConfig, RedisConfig, RuntimeConfig, default_string, read_string,
  require_string, mode_of, is_single_byte, positive, read_int, read_non_negative_int, read_bool,
  all_valid,
}
use open_rtc.Config.Load.{
  tenant_separator_of, admin_auth_of, load_admin_auth, require_secret, load_limits, load_webhooks,
  load_redis, load_from_map,
}

-- What follows from the steps of a chain that loads.
pub steps_of {ℓ κ μ} :
    {A : Type ℓ} {B : Type κ} {C : Type μ} (m : Loaded A) (f : A → Loaded B) {b : B}
    → (m >>= f) ≡ loaded b
    → ((a : A) → m ≡ loaded a → f a ≡ loaded b → C)
    → C
steps_of (loaded a) f h k = k a refl h
steps_of (failed e) f h k = absurd cc

loaded-inj {ℓ} : {A : Type ℓ} {a b : A} → loaded a ≡ loaded b → a ≡ b
loaded-inj h = cc

abbrev pub IsNamed : String → Type 0
IsNamed s = (s == "") ≡ false

pub record AuthIsValid (auth : AuthConfig) : Type 0 where
  issuer_named : IsNamed auth.issuer
  audience_named : IsNamed auth.audience
  jwks_url_named : IsNamed auth.jwks_url

-- Every limit is positive but those on the connections of a room, which 0 turns off.
pub record LimitsAreValid (limits : LimitsConfig) : Type 0 where
  payload_positive : 0 < limits.payload_max_bytes
  envelope_positive : 0 < limits.envelope_max_bytes
  yjs_positive : 0 < limits.yjs_max_bytes
  rooms_positive : 0 < limits.rooms_per_connection
  emits_positive : 0 < limits.emits_per_second
  depth_positive : 0 < limits.outbound_queue_depth

-- There is an admin issuer only with an audience and an address for its keys.
abbrev pub AdminIsValid : Option AuthConfig → Type 0
AdminIsValid none = Unit
AdminIsValid (some auth) = AuthIsValid auth

-- Webhooks have an address, each a web address, and a secret and a time limit.
abbrev pub WebhooksAreValid : Library → Option WebhooksConfig → Type 0
WebhooksAreValid l none = Unit
WebhooksAreValid l (some webhooks) =
    (webhooks.urls ≢ [])
    × (all_valid l webhooks.urls ≡ true)
    × IsNamed webhooks.secret
    × (0 < webhooks.timeout_ms)

-- There are settings of Redis exactly in a cluster, with an address, a prefix and a positive length.
abbrev pub RedisIsValid : RuntimeMode → Option RedisConfig → Type 0
RedisIsValid single redis = redis ≡ none
RedisIsValid cluster none = ⊥
RedisIsValid cluster (some redis) =
    IsNamed redis.url × IsNamed redis.channel_prefix × (0 < redis.event_log_max_entries)

pub record IsValid (l : Library) (c : RuntimeConfig) : Type 0 where
  node_named : IsNamed c.node_id
  auth_valid : AuthIsValid c.auth
  admin_valid : AdminIsValid c.admin_auth
  separator_single : is_single_byte c.tenant.separator ≡ true
  limits_valid : LimitsAreValid c.limits
  payload_fits : c.limits.payload_max_bytes ≤ c.limits.envelope_max_bytes
  host_named : IsNamed c.server.host
  port_positive : 0 < c.server.port
  path_named : IsNamed c.server.ws_path
  webhooks_valid : WebhooksAreValid l c.webhooks
  redis_valid : RedisIsValid c.mode c.redis

default_string-IsNamed :
    (value default_value : String)
    → IsNamed default_value
    → IsNamed (default_string value default_value)
unfolding default_string
default_string-IsNamed value default_value h = ground arith

require_string-IsNamed :
    (env : Dict String) (key : String) {value : String}
    → require_string env key ≡ loaded value
    → IsNamed value
unfolding require_string
require_string-IsNamed env key h = ground arith

admin_auth_of-AdminIsValid :
    (issuer audience jwks_url auth_jwks_url : String) {r : Option AuthConfig}
    → IsNamed auth_jwks_url
    → admin_auth_of issuer audience jwks_url auth_jwks_url ≡ loaded r
    → AdminIsValid r
unfolding admin_auth_of default_string
admin_auth_of-AdminIsValid issuer audience jwks_url auth_jwks_url {r = none} named h = tt
admin_auth_of-AdminIsValid issuer audience jwks_url auth_jwks_url {r = some auth} named h = record {
  issuer_named = ground arith;
  audience_named = ground arith;
  jwks_url_named = ground arith;
}

require_secret-IsNamed :
    (secret : String) {r : String} → require_secret secret ≡ loaded r → IsNamed r
unfolding require_secret
require_secret-IsNamed secret h = ground arith

module _ (l : Library) where
  read_int-positive :
      (env : Dict String) (key : String) (default_value : ℕ) {n : ℕ}
      → 0 < default_value
      → read_int l env key default_value ≡ loaded n
      → 0 < n
  unfolding read_int positive
  read_int-positive env key default_value p h = ground arith

  load_limits-LimitsAreValid :
      (env : Dict String) {limits : LimitsConfig}
      → load_limits l env ≡ loaded limits
      → LimitsAreValid limits
  unfolding load_limits
  load_limits-LimitsAreValid env h = steps_of (read_int l env _ _) _ h λ payload e0 h0.
      steps_of (read_int l env _ _) _ h0 λ envelope e1 h1.
        steps_of (read_int l env _ _) _ h1 λ yjs e2 h2.
          steps_of (read_int l env _ _) _ h2 λ rooms e3 h3.
            steps_of (read_non_negative_int l env _ _) _ h3 λ room e4 h4.
              steps_of (read_non_negative_int l env _ _) _ h4 λ yjs_room e5 h5.
                steps_of (read_int l env _ _) _ h5 λ emits e6 h6.
                  steps_of (read_int l env _ _) _ h6 λ depth e7 h7.
                    subst LimitsAreValid (loaded-inj h7) (record {
                      payload_positive = read_int-positive env _ _ (omega arith) e0;
                      envelope_positive = read_int-positive env _ _ (omega arith) e1;
                      yjs_positive = read_int-positive env _ _ (omega arith) e2;
                      rooms_positive = read_int-positive env _ _ (omega arith) e3;
                      emits_positive = read_int-positive env _ _ (omega arith) e6;
                      depth_positive = read_int-positive env _ _ (omega arith) e7;
                    })

  load_webhooks-WebhooksAreValid :
      (env : Dict String) (urls : List String) {r : Option WebhooksConfig}
      → load_webhooks l env urls ≡ loaded r
      → WebhooksAreValid l r
  unfolding load_webhooks
  load_webhooks-WebhooksAreValid env [] h = subst (WebhooksAreValid l) (loaded-inj h) tt
  load_webhooks-WebhooksAreValid env (url ∷ urls) h =
      steps_of (require_secret (read_string env _)) _ h λ secret e0 h0.
        steps_of (read_int l env _ _) _ h0 λ timeout e1 h1.
          steps_of (require (all_valid l (url ∷ urls)) _) _ h1 λ u e2 h2.
            subst (WebhooksAreValid l) (loaded-inj h2) (
              (λ e. cc),
              ground arith,
              require_secret-IsNamed _ e0,
              read_int-positive env _ _ (omega arith) e1,
            )

  load_redis-RedisIsValid :
      (env : Dict String) (mode : RuntimeMode) {r : Option RedisConfig}
      → load_redis l env mode ≡ loaded r
      → RedisIsValid mode r
  unfolding load_redis
  load_redis-RedisIsValid env single h = ground arith
  load_redis-RedisIsValid env cluster h =
      steps_of (require (not (read_string env _ == "")) _) _ h λ u e0 h0.
        steps_of (read_int l env _ _) _ h0 λ entries e1 h1.
          subst (RedisIsValid cluster) (loaded-inj h1) (
            ground arith,
            default_string-IsNamed _ _ refl,
            read_int-positive env _ _ (omega arith) e1,
          )

  -- Whatever the environment holds: a configuration that is loaded names the node, the issuer, the audience
  -- and the address of the keys, for the admin side too where it has its own; its limits are positive but
  -- those that 0 turns off, and the payload limit is within the envelope limit; the separator is one byte;
  -- its webhooks are web addresses, with a secret and a time limit; and it has Redis exactly in a cluster.
  pub load_from_map-IsValid :
      (env : Dict String) (c : RuntimeConfig) → load_from_map l env ≡ loaded c → IsValid l c
  unfolding load_from_map load_admin_auth
  load_from_map-IsValid env c h = steps_of (wanted (mode_of _) _) _ h λ mode e0 h0.
      steps_of (require_string env _) _ h0 λ node_id e1 h1.
        steps_of (require_string env _) _ h1 λ issuer e2 h2.
          steps_of (require_string env _) _ h2 λ audience e3 h3.
            steps_of (require_string env _) _ h3 λ jwks_url e4 h4.
              steps_of (require (is_single_byte (tenant_separator_of env)) _) _ h4 λ u e5 h5.
                steps_of (load_limits l env) _ h5 λ limits e6 h6.
                  steps_of (read_int l env _ _) _ h6 λ port e7 h7.
                    steps_of (read_bool l env _ _) _ h7 λ enforce_prefix e8 h8.
                      steps_of (load_admin_auth env jwks_url) _ h8 λ admin_auth e9 h9.
                        steps_of (load_webhooks l env _) _ h9 λ webhooks e10 h10.
                          steps_of (load_redis l env mode) _ h10 λ redis e11 h11.
                            steps_of
                              (require (leb limits.payload_max_bytes limits.envelope_max_bytes) _) _
                              h11
                              λ v e12 h12. subst (IsValid l) (loaded-inj h12) (record {
                                node_named = require_string-IsNamed env _ e1;
                                auth_valid = record {
                                  issuer_named = require_string-IsNamed env _ e2;
                                  audience_named = require_string-IsNamed env _ e3;
                                  jwks_url_named = require_string-IsNamed env _ e4;
                                };
                                admin_valid =
                                    admin_auth_of-AdminIsValid _ _ _ jwks_url
                                      (require_string-IsNamed env _ e4) e9;
                                separator_single = ground arith;
                                limits_valid = load_limits-LimitsAreValid env e6;
                                payload_fits = leb→le _ _ (ground arith);
                                host_named = default_string-IsNamed _ _ refl;
                                port_positive = read_int-positive env _ _ (omega arith) e7;
                                path_named = default_string-IsNamed _ _ refl;
                                webhooks_valid = load_webhooks-WebhooksAreValid env _ e10;
                                redis_valid = load_redis-RedisIsValid env mode e11;
                              })
