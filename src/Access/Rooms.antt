-- ===== src/Access/Rooms.antt =====
-- `AllowsRoomAction` of server/internal/roomengine/authorization.go. The claims may be nil, there may
-- be no store, and what the store returns for the room is an argument; `none` is an error.
use open_rtc.Base.{String, Bool, true, false, not, ◌&&◌, Option, none, some, ◌==◌, if◌then◌else◌}
use open_rtc.Access.Claims.{Claims, allows, in_tenant, room_group_ids}
use open_rtc.Access.Records.{RoomRecord, record_allows}

pub record RoomAuthorizationOptions : Type 0 where
  pub enforce_tenant_prefix : Bool
  pub tenant_separator : String

-- RoomGetter: the record of a room, or an error.
abbrev pub RoomGetter : Type 0
RoomGetter = String → Option RoomRecord

unfoldable pub separator_of : RoomAuthorizationOptions → String
separator_of options = if options.tenant_separator == "" then ":" else options.tenant_separator

unfoldable pub store_allows : Claims → Option RoomGetter → String → String → Bool
unfolding record_allows room_group_ids
store_allows claims none action room = false
store_allows claims (some get_room) action room = elim (get_room room) [
  | none ↦ false
  | some r ↦ record_allows r claims.subject (room_group_ids claims) action
]

unfoldable pub allows_room_action :
    Option Claims → Option RoomGetter → String → String → RoomAuthorizationOptions → Bool
unfolding separator_of allows in_tenant store_allows
allows_room_action none store action room options = false
allows_room_action (some claims) store action room options =
    let separator = separator_of options in
    if allows claims action room options.enforce_tenant_prefix separator
    then true
    else if options.enforce_tenant_prefix && not (in_tenant claims room separator)
    then false
    else store_allows claims store action room
