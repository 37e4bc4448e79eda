-- ===== src/Engine/Activity.antt =====
-- The activity and connection snapshots: server/internal/roomengine/engine.go. Go fills a slice in
-- the order of the map and sorts it by its distinct names; here the names are sorted first.
pub mod Range
use open_rtc.Base.{
  ℕ, zero, suc, ◌+◌, String, Bool, true, false, ◌&&◌, not, Option, none, some, List, [], ◌∷◌, map,
  if◌then◌else◌, nat_eq, ltb, length, sort_strings, ◌||◌,
}
use mathlib.Core.List.{flat_map}
use open_rtc.Dict.{Dict, empty, get, has, put, size, keys}
use open_rtc.Dict.Nested.{at, get_in}
use open_rtc.Engine.{Engine, Names, SessionInfo, YjsSessionInfo}
use open_rtc.Engine.Membership.{joined_rooms_locked}
use open_rtc.Engine.Presence.{or_zero}

-- The least and the greatest acknowledgement so far, after one more; 0 is none.
unfoldable pub widen : ℕ × ℕ → ℕ → ℕ × ℕ
widen (min_ack, max_ack) sequence = if nat_eq sequence 0 then (min_ack, max_ack) else (
  (if nat_eq min_ack 0 || ltb sequence min_ack then sequence else min_ack),
  (if ltb max_ack sequence then sequence else max_ack),
)

-- The loop over the connections of the room.
unfoldable pub ack_range : Dict (Dict ℕ) → String → List String → ℕ × ℕ → ℕ × ℕ
unfolding widen
ack_range acks room [] range = range
ack_range acks room (conn_id ∷ conn_ids) range =
    ack_range acks room conn_ids (widen range (or_zero (get_in acks conn_id room)))

unfoldable pub event_ack_range_locked : Engine → String → ℕ × ℕ
unfolding ack_range
event_ack_range_locked e room = ack_range e.event_acks room (keys (at e.rooms room)) (0, 0)

pub record RoomActivitySnapshot : Type 0 where
  pub room : String
  pub connections : ℕ
  pub yjs_connections : ℕ
  pub total_sockets : ℕ
  pub event_ack_min_sequence : ℕ
  pub event_ack_max_sequence : ℕ

add_names : Names → List String → Names
add_names names [] = names
add_names names (room ∷ rooms) = add_names (put names room tt) rooms

unfoldable pub room_names : Engine → List String
unfolding add_names
room_names e = sort_strings (keys (add_names (add_names empty (keys e.rooms)) (keys e.yjs_rooms)))

activity_of : Engine → String → RoomActivitySnapshot
unfolding event_ack_range_locked
activity_of e room = record {
  room = room;
  connections = size (at e.rooms room);
  yjs_connections = size (at e.yjs_rooms room);
  total_sockets = size (at e.rooms room) + size (at e.yjs_rooms room);
  event_ack_min_sequence = (event_ack_range_locked e room).0;
  event_ack_max_sequence = (event_ack_range_locked e room).1;
}

unfoldable pub room_activity_locked : Engine → List RoomActivitySnapshot
unfolding activity_of room_names
room_activity_locked e = map (activity_of e) (room_names e)

unfoldable pub active_room_count : Engine → ℕ
unfolding room_activity_locked
active_room_count e = length (room_activity_locked e)

pub record ConnectionSnapshot : Type 0 where
  pub connection_id : String
  pub subject : String
  pub tenant : String
  pub rooms : List String
  -- nil and the empty map are both empty
  pub event_acks : Dict ℕ

pub record YjsConnectionSnapshot : Type 0 where
  pub connection_id : String
  pub subject : String
  pub tenant : String
  pub room : String

-- The acknowledgements that are not 0 and of a room that the connection is in.
joined_acks : Names → List (String × ℕ) → Dict ℕ → Dict ℕ
joined_acks joined [] out = out
joined_acks joined ((room, sequence) ∷ acks) out =
    joined_acks joined acks
      (if not (nat_eq sequence 0) && has joined room then put out room sequence else out)

unfoldable pub event_acks_for_connection_locked : Engine → String → Dict ℕ
unfolding joined_acks
event_acks_for_connection_locked e conn_id =
    joined_acks (at e.conn_rooms conn_id) ((at e.event_acks conn_id).entries) empty

abbrev connection_of : Engine → String → Option SessionInfo → List ConnectionSnapshot
connection_of e conn_id none = []
connection_of e conn_id (some session) =
    record {
      connection_id = conn_id;
      subject = session.subject;
      tenant = session.tenant;
      rooms = joined_rooms_locked e conn_id;
      event_acks = event_acks_for_connection_locked e conn_id;
    }
    ∷ []

abbrev yjs_connection_of : String → Option YjsSessionInfo → List YjsConnectionSnapshot
yjs_connection_of conn_id none = []
yjs_connection_of conn_id (some session) =
    record {
      connection_id = conn_id;
      subject = session.subject;
      tenant = session.tenant;
      room = session.room;
    }
    ∷ []

pub record ConnectionsSnapshot : Type 0 where
  pub connections : List ConnectionSnapshot
  pub yjs_connections : List YjsConnectionSnapshot
  pub rooms : List RoomActivitySnapshot
  pub active_room_count : ℕ

unfoldable pub connections_snapshot : Engine → ConnectionsSnapshot
unfolding room_activity_locked
connections_snapshot e = record {
  connections =
      flat_map (λ c. connection_of e c (get e.sessions c)) (sort_strings (keys e.sessions));
  yjs_connections =
      flat_map (λ c. yjs_connection_of c (get e.yjs_sessions c))
        (sort_strings (keys e.yjs_sessions));
  rooms = room_activity_locked e;
  active_room_count = length (room_activity_locked e);
}
