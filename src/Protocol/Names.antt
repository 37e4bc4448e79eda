-- ===== src/Protocol/Names.antt =====
-- The checks of names in server/internal/protocol/messages.go.
use Prim.Native.Char.{code}
use Prim.Native.String.{len}
use open_rtc.Base.{ℕ, String, Bool, true, not, ◌&&◌, ◌||◌, ◌==◌, leb, nat_eq}
use open_rtc.Catalog.{bad_request}
use open_rtc.Protocol.{Parsed, ◌>>◌, require}

-- Letters, digits and -_.:@
unfoldable pub is_safe_rune : ℕ → Bool
is_safe_rune r =
    (leb 97 r && leb r 122)
    || ((leb 65 r && leb r 90)
        || ((leb 48 r && leb r 57)
            || (nat_eq r 45 || (nat_eq r 95 || (nat_eq r 46 || (nat_eq r 58 || nat_eq r 64))))))

unfoldable pub is_safe_identifier : String → Bool
unfolding is_safe_rune
is_safe_identifier String.[] = true
is_safe_identifier (String.◌∷◌ c s) = is_safe_rune (code c) && is_safe_identifier s

-- At most so many bytes, all of them safe.
unfoldable pub is_name : ℕ → String → Bool
unfolding is_safe_identifier
is_name max name = leb (len name) max && is_safe_identifier name

unfoldable pub validate_message_id : String → Parsed (Unit {0})
unfolding is_name
validate_message_id id = do
  require (not (id == "")) bad_request "Message id `id` is required"
  require (is_name 128 id) bad_request "Message id must be 1-128 safe ASCII characters"

unfoldable pub validate_room_name : String → Parsed (Unit {0})
unfolding is_name
validate_room_name room = do
  require (not (room == "")) bad_request "Room is required"
  require (is_name 256 room) bad_request "Room must be 1-256 safe ASCII characters"

unfoldable pub validate_room_prefix : String → Parsed (Unit {0})
unfolding is_name
validate_room_prefix prefix =
    require (is_name 256 prefix) bad_request "Room prefix must be at most 256 safe ASCII characters"

unfoldable pub validate_event_name : String → Parsed (Unit {0})
unfolding is_name
validate_event_name event = do
  require (not (event == "")) bad_request "Event is required"
  require (is_name 128 event) bad_request "Event must be 1-128 safe ASCII characters"

unfoldable pub validate_connection_id : String → Parsed (Unit {0})
unfolding is_name
validate_connection_id conn_id = do
  require (not (conn_id == "")) bad_request "Connection id is required"
  require (is_name 128 conn_id) bad_request "Connection id must be 1-128 safe ASCII characters"
