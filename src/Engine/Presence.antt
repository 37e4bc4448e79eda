-- ===== src/Engine/Presence.antt =====
-- Presence, event fan-out and acknowledgements: server/internal/roomengine/engine.go.
pub mod Acks
use open_rtc.Base.{
  ℕ, zero, suc, ◌<◌, String, Bool, true, false, ◌||◌, ◌&&◌, Option, none, some, List, [], ◌∷◌, ◌==◌,
  if◌then◌else◌, nat_eq, ltb, sort_strings,
}
use open_rtc.Cluster.{Bytes, PublishedEvent, PresenceEvent}
use open_rtc.Dict.{Dict}
use open_rtc.Dict.Nested.{at, get_in, has_in, put_in}
use open_rtc.Engine.{Engine, SessionInfo, PresenceFanout, copy, member_ids_locked}
use open_rtc.Engine.Events.{clone_presence_event, clone_published_event, new_presence_event}

unfoldable pub set_presence_locked : Engine → String → String → Bytes → Engine
set_presence_locked e conn_id room payload = record e {
  presence = put_in e.presence room conn_id (copy payload);
}

unfoldable pub set_presence : Engine → String → String → Bytes → Engine
unfolding set_presence_locked
set_presence e conn_id room payload = set_presence_locked e conn_id room payload

-- The fan-out is the one field of a PresenceSetPlan.
unfoldable pub new_presence_set_plan : Engine → String → String → Bytes → String → PresenceFanout
unfolding new_presence_event
new_presence_set_plan e conn_id room payload origin_node = record {
  event = new_presence_event conn_id room payload origin_node;
  target_conn_ids = member_ids_locked e room "";
}

unfoldable pub apply_presence_set_plan : Engine → PresenceFanout → Engine × PresenceFanout
unfolding set_presence_locked
apply_presence_set_plan e plan =
    (set_presence_locked e plan.event.conn_id plan.event.room plan.event.state, plan)

unfoldable pub set_presence_fanout :
    Engine → String → String → Bytes → String → Engine × PresenceFanout
unfolding apply_presence_set_plan new_presence_set_plan
set_presence_fanout e conn_id room payload origin_node =
    apply_presence_set_plan e (new_presence_set_plan e conn_id room payload origin_node)

unfoldable pub presence_fanout : Engine → PresenceEvent → PresenceFanout
unfolding clone_presence_event
presence_fanout e event = record {
  event = clone_presence_event event;
  target_conn_ids = member_ids_locked e event.room "";
}

pub record EventFanout : Type 0 where
  pub event : PublishedEvent
  pub target_conn_ids : List String

unfoldable pub event_fanout : Engine → PublishedEvent → EventFanout
unfolding clone_published_event
event_fanout e event = record {
  event = clone_published_event event;
  target_conn_ids = member_ids_locked e event.room event.exclude_sender_conn_id;
}

-- The number at a key of a `map[string]uint64`, 0 where it is missing.
abbrev pub or_zero : Option ℕ → ℕ
or_zero none = 0
or_zero (some n) = n

unfoldable pub event_ack_sequence : Engine → String → String → ℕ
event_ack_sequence e conn_id room = or_zero (get_in e.event_acks conn_id room)

unfoldable pub acknowledge_event : Engine → String → String → ℕ → Engine × Bool
unfolding event_ack_sequence
acknowledge_event e conn_id room sequence =
    if conn_id == "" || (room == "" || nat_eq sequence 0)
    then (e, false)
    else if has_in e.conn_rooms conn_id room
    then (
      if ltb (event_ack_sequence e conn_id room) sequence
          then record e { event_acks = put_in e.event_acks conn_id room sequence }
          else e,
      true,
    )
    else (e, false)

-- The names of the sessions of one subject, in the order of the map.
subject_conn_ids : String → List (String × SessionInfo) → List String
subject_conn_ids user_id [] = []
subject_conn_ids user_id ((conn_id, session) ∷ rest) =
    let ids = subject_conn_ids user_id rest in
    if session.subject == user_id then conn_id ∷ ids else ids

pub record NotificationFanout : Type 0 where
  pub event : PublishedEvent
  pub user_id : String
  pub target_conn_ids : List String

unfoldable pub notification_fanout : Engine → PublishedEvent → String → NotificationFanout
unfolding clone_published_event subject_conn_ids
notification_fanout e event user_id = record {
  event = clone_published_event event;
  user_id = user_id;
  target_conn_ids =
      sort_strings (if user_id == "" then [] else subject_conn_ids user_id e.sessions.entries);
}
