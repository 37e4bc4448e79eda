-- ===== src/Engine/Membership.antt =====
-- Sessions, joining, leaving and disconnecting: server/internal/roomengine/engine.go.
pub mod Preserve
pub mod Join
pub mod Leave
use open_rtc.Base.{
  ℕ, String, Bool, true, false, Option, none, some, List, [], ◌∷◌, ◌==◌, if◌then◌else◌,
  sort_strings, map, ℤ, pos,
}
use open_rtc.Cluster.{PresenceEvent}
use open_rtc.Dict.{get, put, remove, keys, size}
use open_rtc.Dict.Nested.{at, has_in, put_in, remove_in, ensure}
use open_rtc.Errors.{Result, ok, err, room_limit_exceeded, room_capacity_exceeded}
use open_rtc.Engine.{
  Engine, SessionInfo, Snapshot, MembershipMutation, PresenceFanout, copy, member_ids_locked,
  snapshot_locked, reached, remove_room_member_locked, remove_presence_locked,
  remove_event_ack_locked,
}

pub record ConnectionTouch : Type 0 where
  pub conn_id : String
  pub subject : String
  pub tenant : String

pub record ConnectionCleanup : Type 0 where
  pub conn_id : String

unfoldable pub new_connection_touch : SessionInfo → ConnectionTouch
new_connection_touch info = record {
  conn_id = info.conn_id;
  subject = info.subject;
  tenant = info.tenant;
}

-- The state after, and the touch unless the connection has no id.
unfoldable pub register_session : Engine → SessionInfo → Engine × Option ConnectionTouch
unfolding new_connection_touch
register_session e info = if info.conn_id == "" then (e, none) else (
  record e { sessions = put e.sessions info.conn_id info },
  some (new_connection_touch info),
)

unfoldable pub touch_session : Engine → String → Option ConnectionTouch
unfolding new_connection_touch
touch_session e conn_id = elim (get e.sessions conn_id) [
  | none ↦ none
  | some info ↦ some (new_connection_touch info)
]

abbrev pub mutation_join : String
mutation_join = "join"

abbrev pub mutation_leave : String
mutation_leave = "leave"

unfoldable pub new_membership_mutation : String → String → String → MembershipMutation
new_membership_mutation kind conn_id room = record { kind = kind; conn_id = conn_id; room = room }

pub record JoinLimits : Type 0 where
  pub rooms_per_connection : ℤ
  pub room_connections : ℤ

pub record JoinResult : Type 0 where
  pub already_joined : Bool
  pub snapshot : Snapshot
  pub membership_mutation : Option MembershipMutation

-- The writes of a join that passed every test.
unfoldable pub enter : Engine → String → String → Engine
enter e conn_id room = record e {
  conn_rooms = put_in e.conn_rooms conn_id room tt;
  rooms = put_in e.rooms room conn_id tt;
}

-- The tests of a join, once the connection has its own set of rooms.
join_checked : Engine → String → String → JoinLimits → Engine × Result JoinResult
unfolding enter new_membership_mutation
join_checked e conn_id room limits =
    if has_in e.conn_rooms conn_id room
    then (
      e,
      ok (record {
        already_joined = true;
        snapshot = snapshot_locked e room;
        membership_mutation = none;
      }),
    )
    else if reached limits.rooms_per_connection (size (at e.conn_rooms conn_id))
    then (e, err room_limit_exceeded)
    else if reached limits.room_connections (size (at e.rooms room))
    then (e, err room_capacity_exceeded)
    else (
      enter e conn_id room,
      ok (record {
        already_joined = false;
        snapshot = snapshot_locked (enter e conn_id room) room;
        membership_mutation = some (new_membership_mutation mutation_join conn_id room);
      }),
    )

unfoldable pub join_with_limits : Engine → String → String → JoinLimits → Engine × Result JoinResult
unfolding join_checked
join_with_limits e conn_id room limits =
    join_checked (record e { conn_rooms = ensure e.conn_rooms conn_id }) conn_id room limits

unfoldable pub join : Engine → String → String → ℤ → Engine × Result JoinResult
unfolding join_with_limits
join e conn_id room room_limit =
    join_with_limits e conn_id room
      (record { rooms_per_connection = room_limit; room_connections = pos 0 })

-- PresenceEventOptions has the one field OriginNode.
unfoldable pub new_offline_presence_event : String → String → String → PresenceEvent
new_offline_presence_event conn_id room origin_node = record {
  room = room;
  conn_id = conn_id;
  state = [];
  offline = true;
  origin_node = origin_node;
}

-- LeavePlan and LeaveResult have the same fields.
pub record LeavePlan : Type 0 where
  pub left : Bool
  pub presence_fanout : Option PresenceFanout
  pub membership_mutation : Option MembershipMutation

abbrev pub no_leave : LeavePlan
no_leave = record { left = false; presence_fanout = none; membership_mutation = none }

unfoldable pub offline_fanout : Engine → String → String → String → PresenceFanout
unfolding new_offline_presence_event
offline_fanout e conn_id origin_node room = record {
  event = new_offline_presence_event conn_id room origin_node;
  target_conn_ids = member_ids_locked e room conn_id;
}

unfoldable pub new_leave_plan : Engine → String → String → String → Bool → LeavePlan
unfolding offline_fanout new_membership_mutation
new_leave_plan e conn_id room origin_node include_fanout =
    if has_in e.conn_rooms conn_id room
    then record {
      left = true;
      presence_fanout =
          if include_fanout then some (offline_fanout e conn_id origin_node room) else none;
      membership_mutation = some (new_membership_mutation mutation_leave conn_id room);
    }
    else no_leave

-- The writes of a leave for a connection that is in the room.
unfoldable pub exit : Engine → String → String → Engine
unfolding remove_room_member_locked remove_presence_locked remove_event_ack_locked
exit e conn_id room =
    remove_event_ack_locked
      (remove_presence_locked
        (remove_room_member_locked (record e { conn_rooms = remove_in e.conn_rooms conn_id room })
          conn_id room)
        conn_id room)
      conn_id room

apply_leave_mutation : Engine → MembershipMutation → Engine
unfolding exit
apply_leave_mutation e mutation =
    if has_in e.conn_rooms mutation.conn_id mutation.room
    then exit e mutation.conn_id mutation.room
    else e

unfoldable pub apply_leave_plan : Engine → LeavePlan → Engine × LeavePlan
unfolding apply_leave_mutation
apply_leave_plan e plan = elim plan.membership_mutation [
  | none ↦ (e, no_leave)
  | some mutation ↦
      if plan.left
      then (
        apply_leave_mutation e mutation,
        record {
          left = true;
          presence_fanout = plan.presence_fanout;
          membership_mutation = plan.membership_mutation;
        },
      )
      else (e, no_leave)
]

unfoldable pub leave : Engine → String → String → Engine × LeavePlan
unfolding apply_leave_plan new_leave_plan
leave e conn_id room = apply_leave_plan e (new_leave_plan e conn_id room "" false)

unfoldable pub leave_with_presence_fanout : Engine → String → String → String → Engine × LeavePlan
unfolding apply_leave_plan new_leave_plan
leave_with_presence_fanout e conn_id room origin_node =
    apply_leave_plan e (new_leave_plan e conn_id room origin_node true)

-- DisconnectPlan and DisconnectResult have the same fields.
pub record DisconnectPlan : Type 0 where
  pub rooms : List String
  pub presence_fanouts : List PresenceFanout
  pub cleanup : Option ConnectionCleanup

unfoldable pub joined_rooms_locked : Engine → String → List String
joined_rooms_locked e conn_id = sort_strings (keys (at e.conn_rooms conn_id))

unfoldable pub new_disconnect_plan : Engine → String → String → Bool → DisconnectPlan
unfolding offline_fanout joined_rooms_locked
new_disconnect_plan e conn_id origin_node include_fanouts =
    let rooms = joined_rooms_locked e conn_id in
    record {
      rooms = rooms;
      presence_fanouts =
          if include_fanouts then map (offline_fanout e conn_id origin_node) rooms else [];
      cleanup = some (record { conn_id = conn_id });
    }

-- The loop over the rooms of the plan.
unfoldable pub drop_rooms : Engine → String → List String → Engine
unfolding remove_room_member_locked remove_presence_locked
drop_rooms e conn_id [] = e
drop_rooms e conn_id (room ∷ rooms) =
    drop_rooms (remove_presence_locked (remove_room_member_locked e conn_id room) conn_id room)
      conn_id rooms

unfoldable pub forget : Engine → String → Engine
forget e conn_id = record e {
  conn_rooms = remove e.conn_rooms conn_id;
  sessions = remove e.sessions conn_id;
  event_acks = remove e.event_acks conn_id;
}

unfoldable pub apply_disconnect_plan : Engine → DisconnectPlan → Engine × DisconnectPlan
unfolding drop_rooms forget
apply_disconnect_plan e plan = elim plan.cleanup [
  | none ↦ (e, record { rooms = []; presence_fanouts = []; cleanup = none })
  | some cleanup ↦ (
    forget (drop_rooms e cleanup.conn_id plan.rooms) cleanup.conn_id,
    record {
      rooms = copy plan.rooms;
      presence_fanouts = copy plan.presence_fanouts;
      cleanup = plan.cleanup;
    },
  )
]

unfoldable pub disconnect_session : Engine → String → String → Engine × DisconnectPlan
unfolding apply_disconnect_plan new_disconnect_plan
disconnect_session e conn_id origin_node =
    apply_disconnect_plan e (new_disconnect_plan e conn_id origin_node true)

unfoldable pub disconnect : Engine → String → Engine × List String
unfolding apply_disconnect_plan new_disconnect_plan
disconnect e conn_id =
    let (e', result) = apply_disconnect_plan e (new_disconnect_plan e conn_id "" false) in
    (e', result.rooms)

unfoldable pub disconnect_presence_fanouts : Engine → String → String → Engine × List PresenceFanout
unfolding disconnect_session
disconnect_presence_fanouts e conn_id origin_node =
    let (e', result) = disconnect_session e conn_id origin_node in (e', result.presence_fanouts)
