-- ===== src/Config.antt =====
-- The configuration of the server: server/internal/config/config.go. The settings that the code reads
-- as an int are natural numbers here: the readers refuse the negative ones.
pub mod Load
pub mod Sound
pub mod Defaults
use open_rtc.Base.{
  ℤ, pos, negsuc, ℕ, zero, suc, String, Bool, true, false, not, ◌&&◌, ◌||◌, Option, none, some,
  List, [], ◌∷◌, ◌==◌, if◌then◌else◌, leb, ltb, nat_eq, append, trim_space,
}
use open_rtc.Dict.{Dict, empty, get, put}
use Prim.Native.Char.{code}

-- What the code takes from the Go library: strconv.Atoi, strings.ToLower, and the scheme and the host
-- that url.Parse reads. `none` is an error.
pub record Library : Type 0 where
  pub atoi : String → Option ℤ
  pub to_lower : String → String
  pub url_parse : String → Option (String × String)

-- A value, or the message of an Error.
pub data Loaded {ℓ} (A : Type ℓ) : Type ℓ where
  loaded : A → Loaded A
  failed : String → Loaded A

infixl 5 ◌>>=◌ ◌>>◌
abbrev pub ◌>>=◌ {ℓ κ} : {A : Type ℓ} {B : Type κ} → Loaded A → (A → Loaded B) → Loaded B
loaded a >>= f = f a
failed e >>= f = failed e

abbrev pub ◌>>◌ {ℓ} : {B : Type ℓ} → Loaded (Unit {0}) → Loaded B → Loaded B
m >> k = m >>= λ _. k

abbrev pub require : Bool → String → Loaded (Unit {0})
require true message = loaded tt
require false message = failed message

abbrev pub wanted {ℓ} : {A : Type ℓ} → Option A → String → Loaded A
wanted (some a) message = loaded a
wanted none message = failed message

pub data RuntimeMode : Type 0 where
  single cluster : RuntimeMode

pub record LimitsConfig : Type 0 where
  pub payload_max_bytes : ℕ
  pub envelope_max_bytes : ℕ
  pub yjs_max_bytes : ℕ
  pub rooms_per_connection : ℕ
  pub room_connections : ℕ
  pub yjs_room_connections : ℕ
  pub emits_per_second : ℕ
  pub outbound_queue_depth : ℕ

pub record ServerConfig : Type 0 where
  pub host : String
  pub port : ℕ
  pub ws_path : String
  pub allowed_origins : List String

pub record AuthConfig : Type 0 where
  pub issuer : String
  pub audience : String
  pub jwks_url : String

pub record TenantConfig : Type 0 where
  pub enforce_prefix : Bool
  pub separator : String

pub record WebhooksConfig : Type 0 where
  pub urls : List String
  pub secret : String
  pub timeout_ms : ℕ

pub record RedisConfig : Type 0 where
  pub url : String
  pub channel_prefix : String
  pub event_log_max_entries : ℕ

pub record RuntimeConfig : Type 0 where
  pub mode : RuntimeMode
  pub node_id : String
  pub server : ServerConfig
  pub redis : Option RedisConfig
  pub auth : AuthConfig
  pub admin_auth : Option AuthConfig
  pub tenant : TenantConfig
  pub limits : LimitsConfig
  pub webhooks : Option WebhooksConfig

-- The parts of a text between commas: the first, and those after it.
unfoldable pub split_commas : String → String × List String
split_commas String.[] = ("", [])
split_commas (String.◌∷◌ c s) =
    let (part, parts) = split_commas s in
    if nat_eq (code c) 44 then ("", part ∷ parts) else (String.◌∷◌ c part, parts)

unfoldable pub trimmed_parts : List String → List String
unfolding trim_space
trimmed_parts [] = []
trimmed_parts (part ∷ parts) =
    let rest = trimmed_parts parts in if trim_space part == "" then rest else trim_space part ∷ rest

unfoldable pub default_string : String → String → String
default_string value default_value = if value == "" then default_value else value

-- strings.Cut(item, "=")
unfoldable pub cut : String → Option (String × String)
cut String.[] = none
cut (String.◌∷◌ c s) =
    let rest = cut s in
    if nat_eq (code c) 61
    then some ("", s)
    else elim rest [ none ↦ none | some found ↦ some (String.◌∷◌ c found.0, found.1) ]

unfoldable pub add_item : Dict String → Option (String × String) → Dict String
unfolding put
add_item env none = env
add_item env (some found) = put env found.0 found.1

unfoldable pub add_items : Dict String → List String → Dict String
unfolding add_item cut
add_items env [] = env
add_items env (item ∷ items) = add_items (add_item env (cut item)) items

unfoldable pub map_from_environ : List String → Dict String
unfolding add_items empty
map_from_environ items = add_items empty items

unfoldable pub read_string : Dict String → String → String
unfolding get trim_space
read_string env key = elim (get env key) [ none ↦ trim_space "" | some value ↦ trim_space value ]

unfoldable pub require_string : Dict String → String → Loaded String
require_string env key =
    if read_string env key == ""
    then failed (append key " is required")
    else loaded (read_string env key)

unfoldable pub read_csv : Dict String → String → List String
unfolding trimmed_parts split_commas
read_csv env key =
    if read_string env key == ""
    then []
    else (let (part, parts) = split_commas (read_string env key) in trimmed_parts (part ∷ parts))

unfoldable pub mode_of : String → Option RuntimeMode
mode_of name =
    if name == "single" then some single else if name == "cluster" then some cluster else none

-- One character of one byte.
unfoldable pub is_single_byte : String → Bool
is_single_byte String.[] = false
is_single_byte (String.◌∷◌ c String.[]) = ltb (code c) 128
is_single_byte (String.◌∷◌ c (String.◌∷◌ d s)) = false

unfoldable pub positive : String → Option ℤ → Loaded ℕ
unfolding append
positive key (some (pos (suc n))) = loaded (suc n)
positive key (some (pos zero)) = failed (append key " must be a positive integer")
positive key (some (negsuc n)) = failed (append key " must be a positive integer")
positive key none = failed (append key " must be a positive integer")

unfoldable pub non_negative : String → Option ℤ → Loaded ℕ
unfolding append
non_negative key (some (pos n)) = loaded n
non_negative key (some (negsuc n)) = failed (append key " must be a non-negative integer")
non_negative key none = failed (append key " must be a non-negative integer")

module _ (l : Library) where
  unfoldable pub read_int : Dict String → String → ℕ → Loaded ℕ
  read_int env key default_value =
      if read_string env key == ""
      then loaded default_value
      else positive key (l.atoi (read_string env key))

  unfoldable pub read_non_negative_int : Dict String → String → ℕ → Loaded ℕ
  read_non_negative_int env key default_value =
      if read_string env key == ""
      then loaded default_value
      else non_negative key (l.atoi (read_string env key))

  unfoldable pub read_bool : Dict String → String → Bool → Loaded Bool
  read_bool env key default_value =
      let value : String = l.to_lower (read_string env key) in
      if value == ""
      then loaded default_value
      else if value == "true"
      then loaded true
      else if value == "false"
      then loaded false
      else failed (append key " must be true or false")

  unfoldable pub has_web_scheme : Option (String × String) → Bool
  has_web_scheme none = false
  has_web_scheme (some parts) =
      let scheme : String = l.to_lower parts.0 in
      not (parts.1 == "") && (scheme == "http" || scheme == "https")

  unfoldable pub valid_webhook_url : String → Bool
  unfolding has_web_scheme
  valid_webhook_url raw_url = has_web_scheme (l.url_parse raw_url)

  unfoldable pub all_valid : List String → Bool
  all_valid [] = true
  all_valid (url ∷ urls) = valid_webhook_url url && all_valid urls
