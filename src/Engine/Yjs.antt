-- ===== src/Engine/Yjs.antt =====
-- YJS connections and documents: server/internal/roomengine/engine.go.
pub mod Documents
pub mod Rooms
use open_rtc.Base.{
  ℕ, zero, suc, ◌+◌, ◌%◌, String, Bool, true, false, not, ◌||◌, ◌&&◌, Option, none, some, List, [],
  ◌∷◌, ◌++◌, ◌==◌, if◌then◌else◌, nat_eq, length, map, ℤ, pos,
}
use open_rtc.Cluster.{Bytes, YjsEvent, YjsDocument}
use open_rtc.Cluster.YjsEventKind
use open_rtc.Dict.{get, put, remove, size}
use open_rtc.Dict.Nested.{at, put_in, remove_in}
use open_rtc.Errors.{Result, ok, err, ◌>>=◌, yjs_room_capacity_exceeded, yjs_persistence_kind}
use open_rtc.Engine.{
  Engine, YjsSessionInfo, MemoryYjsDocument, copy, reached, yjs_target_ids_locked,
}
use open_rtc.Engine.Events.{clone_yjs_event}

unfoldable pub remove_yjs_conn_locked : Engine → String → String → Engine
remove_yjs_conn_locked e conn_id room = record e { yjs_rooms = remove_in e.yjs_rooms room conn_id }

-- A connection that was in another room leaves it first.
leave_other_yjs_room : Engine → Option YjsSessionInfo → YjsSessionInfo → Engine
unfolding remove_yjs_conn_locked
leave_other_yjs_room e none info = e
leave_other_yjs_room e (some existing) info =
    if existing.room == info.room then e else remove_yjs_conn_locked e info.conn_id existing.room

enter_yjs_room : Engine → YjsSessionInfo → Engine
enter_yjs_room e info = record e {
  yjs_sessions = put e.yjs_sessions info.conn_id info;
  yjs_rooms = put_in e.yjs_rooms info.room info.conn_id tt;
}

abbrev pub same_room : Option YjsSessionInfo → String → Bool
same_room none room = false
same_room (some existing) room = existing.room == room

-- The state after, and the error if the room is full.
unfoldable pub register_yjs_session_with_limit :
    Engine → YjsSessionInfo → ℤ → Engine × Result (Unit {0})
unfolding leave_other_yjs_room enter_yjs_room
register_yjs_session_with_limit e info room_limit =
    if info.conn_id == "" || info.room == ""
    then (e, ok tt)
    else if same_room (get e.yjs_sessions info.conn_id) info.room
    then (record e { yjs_sessions = put e.yjs_sessions info.conn_id info }, ok tt)
    else if reached room_limit (size (at e.yjs_rooms info.room))
    then (e, err yjs_room_capacity_exceeded)
    else (
      enter_yjs_room (leave_other_yjs_room e (get e.yjs_sessions info.conn_id) info) info,
      ok tt,
    )

unfoldable pub register_yjs_session : Engine → YjsSessionInfo → Engine
unfolding register_yjs_session_with_limit
register_yjs_session e info = (register_yjs_session_with_limit e info (pos 0)).0

unfoldable pub register_yjs_conn : Engine → String → String → Engine
unfolding register_yjs_session
register_yjs_conn e conn_id room =
    register_yjs_session e (record { conn_id = conn_id; subject = ""; tenant = ""; room = room })

-- The removal from the room that is named, and before it from the session's room if that differs.
unregister_from : Engine → Option YjsSessionInfo → String → String → Engine
unfolding remove_yjs_conn_locked
unregister_from e none conn_id room = remove_yjs_conn_locked e conn_id room
unregister_from e (some existing) conn_id room =
    let named : String = if room == "" then existing.room else room in
    if existing.room == named
    then remove_yjs_conn_locked e conn_id named
    else remove_yjs_conn_locked (remove_yjs_conn_locked e conn_id existing.room) conn_id named

forget_yjs_session : Engine → String → Engine
forget_yjs_session e conn_id = record e { yjs_sessions = remove e.yjs_sessions conn_id }

unfoldable pub unregister_yjs_conn : Engine → String → String → Engine
unfolding unregister_from forget_yjs_session
unregister_yjs_conn e conn_id room =
    forget_yjs_session (unregister_from e (get e.yjs_sessions conn_id) conn_id room) conn_id

unfoldable pub valid_client_yjs_event_kind : ℕ → Bool
valid_client_yjs_event_kind kind =
    nat_eq kind YjsEventKind.update
    || (nat_eq kind YjsEventKind.state_vector_request
        || (nat_eq kind YjsEventKind.state_vector_diff
            || (nat_eq kind YjsEventKind.subdoc_update
                || (nat_eq kind YjsEventKind.subdoc_state_vector
                    || nat_eq kind YjsEventKind.subdoc_diff))))

unfoldable pub yjs_event_requires_publish : ℕ → Bool
yjs_event_requires_publish kind =
    nat_eq kind YjsEventKind.update
    || (nat_eq kind YjsEventKind.state_vector_diff
        || (nat_eq kind YjsEventKind.subdoc_update || nat_eq kind YjsEventKind.subdoc_diff))

unfoldable pub durable_yjs_event_kind : ℕ → Bool
durable_yjs_event_kind kind =
    nat_eq kind YjsEventKind.update || nat_eq kind YjsEventKind.subdoc_update

pub data PersistenceMode : Type 0 where
  append_update store_snapshot : PersistenceMode

unfoldable pub yjs_persistence_mode : ℕ → Option PersistenceMode
yjs_persistence_mode kind =
    if nat_eq kind YjsEventKind.snapshot
    then some store_snapshot
    else if nat_eq kind YjsEventKind.update || nat_eq kind YjsEventKind.subdoc_update
    then some append_update
    else none

unfoldable pub new_yjs_event : String → ℕ → Bytes → String → String → YjsEvent
new_yjs_event room kind update origin_node origin_conn_id = record {
  room = room;
  kind = kind;
  update = copy update;
  sequence = pos 0;
  origin_node = origin_node;
  origin_conn_id = origin_conn_id;
}

pub record YjsEventPlan : Type 0 where
  pub event : YjsEvent
  pub requires_publish : Bool
  pub durable : Bool

unfoldable pub new_yjs_event_plan : String → ℕ → Bytes → String → String → Option YjsEventPlan
unfolding valid_client_yjs_event_kind yjs_event_requires_publish durable_yjs_event_kind
    new_yjs_event
new_yjs_event_plan room kind update origin_node origin_conn_id =
    if valid_client_yjs_event_kind kind
    then some (record {
      event = new_yjs_event room kind update origin_node origin_conn_id;
      requires_publish = yjs_event_requires_publish kind;
      durable = durable_yjs_event_kind kind;
    })
    else none

pub record YjsFanout : Type 0 where
  pub event : YjsEvent
  pub target_conn_ids : List String

unfoldable pub yjs_fanout : Engine → YjsEvent → YjsFanout
unfolding clone_yjs_event
yjs_fanout e event = record {
  event = clone_yjs_event event;
  target_conn_ids = yjs_target_ids_locked e event.room event.origin_conn_id;
}

pub record YjsMutationEffects : Type 0 where
  pub event : YjsEvent
  pub fanout : YjsFanout
  pub publish_cluster : Bool
  pub requires_publish : Bool
  pub durable : Bool

unfoldable pub yjs_mutation_effects : Engine → YjsEventPlan → YjsMutationEffects
unfolding yjs_fanout
yjs_mutation_effects e plan = record {
  event = clone_yjs_event plan.event;
  fanout = yjs_fanout e plan.event;
  publish_cluster = true;
  requires_publish = plan.requires_publish;
  durable = plan.durable;
}

pub record YjsPersistencePlan : Type 0 where
  pub event : YjsEvent
  pub mode : PersistenceMode

unfoldable pub new_yjs_persistence_plan : YjsEvent → Result YjsPersistencePlan
unfolding yjs_persistence_mode clone_yjs_event
new_yjs_persistence_plan event = elim (yjs_persistence_mode event.kind) [
  | none ↦ err yjs_persistence_kind
  | some mode ↦ ok (record { event = clone_yjs_event event; mode = mode })
]
