-- ===== src/Engine/Steps/Frame.antt =====
-- The parts of the engine that a call does not touch: server/internal/roomengine/engine.go.
pub mod Writes
use open_rtc.Base.{ℕ, ℤ, String, ◌≡◌, refl, Bool, List, [], ◌∷◌, arith}
use open_rtc.Cluster.{Bytes}
use open_rtc.Engine.{
  Engine, SessionInfo, YjsSessionInfo, PresenceFanout, remove_room_member_locked,
  remove_presence_locked,
}
use open_rtc.Engine.Invariant.{IsConsistent, IsYjsConsistent}
use open_rtc.Engine.Membership.{
  JoinLimits, LeavePlan, register_session, join_with_limits, apply_leave_plan, exit,
  disconnect_session, drop_rooms, apply_disconnect_plan, new_disconnect_plan, forget,
  joined_rooms_locked,
}
use open_rtc.Engine.Presence.{set_presence, apply_presence_set_plan, acknowledge_event}
use open_rtc.Engine.Yjs.{register_yjs_session_with_limit, unregister_yjs_conn, YjsPersistencePlan}
use open_rtc.Engine.Yjs.Documents.{store_yjs_persistence}

-- The rooms and their members, presence and acknowledgements are the same.
pub record SameRooms (e f : Engine) : Type 0 where
  pub rooms_same : f.rooms ≡ e.rooms
  pub conn_rooms_same : f.conn_rooms ≡ e.conn_rooms
  pub presence_same : f.presence ≡ e.presence
  pub acks_same : f.event_acks ≡ e.event_acks

-- The YJS connections are the same.
pub record SameYjs (e f : Engine) : Type 0 where
  pub yjs_rooms_same : f.yjs_rooms ≡ e.yjs_rooms
  pub yjs_sessions_same : f.yjs_sessions ≡ e.yjs_sessions

pub SameRooms-IsConsistent : (e f : Engine) → SameRooms e f → IsConsistent e → IsConsistent f
SameRooms-IsConsistent e f s h = record {
  rooms_nested = rw s.rooms_same h.rooms_nested;
  rooms_tidy = rw s.rooms_same h.rooms_tidy;
  conn_rooms_nested = rw s.conn_rooms_same h.conn_rooms_nested;
  indexed = rw (s.rooms_same, s.conn_rooms_same) h.indexed;
  presence_nested = rw s.presence_same h.presence_nested;
  presence_tidy = rw s.presence_same h.presence_tidy;
  acks_nested = rw s.acks_same h.acks_nested;
  acks_tidy = rw s.acks_same h.acks_tidy;
  acked = rw (s.acks_same, s.conn_rooms_same) h.acked;
}

pub SameYjs-IsYjsConsistent : (e f : Engine) → SameYjs e f → IsYjsConsistent e → IsYjsConsistent f
SameYjs-IsYjsConsistent e f s h = record {
  yjs_nested = rw s.yjs_rooms_same h.yjs_nested;
  yjs_tidy = rw s.yjs_rooms_same h.yjs_tidy;
  in_session_room = rw (s.yjs_rooms_same, s.yjs_sessions_same) h.in_session_room;
}

-- Neither invariant is touched.
abbrev pub Untouched : Engine → Engine → Type 0
Untouched e f = SameRooms e f × SameYjs e f

pub Untouched-refl : (e : Engine) → Untouched e e
Untouched-refl e = (
  record { rooms_same = refl; conn_rooms_same = refl; presence_same = refl; acks_same = refl },
  record { yjs_rooms_same = refl; yjs_sessions_same = refl },
)

pub register_session-SameRooms :
    (e : Engine) (info : SessionInfo) → SameRooms e (register_session e info).0
unfolding register_session
register_session-SameRooms e info = record {
  rooms_same = ground arith;
  conn_rooms_same = ground arith;
  presence_same = ground arith;
  acks_same = ground arith;
}

pub register_session-SameYjs :
    (e : Engine) (info : SessionInfo) → SameYjs e (register_session e info).0
unfolding register_session
register_session-SameYjs e info = record {
  yjs_rooms_same = ground arith;
  yjs_sessions_same = ground arith;
}

pub join_with_limits-SameYjs :
    (e : Engine) (c r : String) (limits : JoinLimits) → SameYjs e (join_with_limits e c r limits).0
unfolding join_with_limits
join_with_limits-SameYjs e c r limits = record {
  yjs_rooms_same = ground arith;
  yjs_sessions_same = ground arith;
}

pub apply_leave_plan-SameYjs :
    (e : Engine) (plan : LeavePlan) → SameYjs e (apply_leave_plan e plan).0
unfolding apply_leave_plan exit
apply_leave_plan-SameYjs e plan = record {
  yjs_rooms_same = ground arith;
  yjs_sessions_same = ground arith;
}

drop_rooms-yjs :
    (e : Engine) (c : String) (rs : List String)
    → ((drop_rooms e c rs).yjs_rooms ≡ e.yjs_rooms)
      × ((drop_rooms e c rs).yjs_sessions ≡ e.yjs_sessions)
unfolding drop_rooms
drop_rooms-yjs e c [] = (refl, refl)
drop_rooms-yjs e c (r ∷ rs) =
    drop_rooms-yjs (remove_presence_locked (remove_room_member_locked e c r) c r) c rs

pub disconnect_session-SameYjs :
    (e : Engine) (c origin : String) → SameYjs e (disconnect_session e c origin).0
unfolding disconnect_session apply_disconnect_plan new_disconnect_plan forget
disconnect_session-SameYjs e c origin =
    let dropped = drop_rooms-yjs e c (joined_rooms_locked e c) in
    record { yjs_rooms_same = dropped.0; yjs_sessions_same = dropped.1 }

pub acknowledge_event-SameYjs :
    (e : Engine) (c r : String) (n : ℕ) → SameYjs e (acknowledge_event e c r n).0
unfolding acknowledge_event
acknowledge_event-SameYjs e c r n = record {
  yjs_rooms_same = ground arith;
  yjs_sessions_same = ground arith;
}

pub register_yjs-SameRooms :
    (e : Engine) (info : YjsSessionInfo) (limit : ℤ)
    → SameRooms e (register_yjs_session_with_limit e info limit).0
unfolding register_yjs_session_with_limit
register_yjs-SameRooms e info limit = record {
  rooms_same = ground arith;
  conn_rooms_same = ground arith;
  presence_same = ground arith;
  acks_same = ground arith;
}

pub unregister_yjs_conn-SameRooms :
    (e : Engine) (c r : String) → SameRooms e (unregister_yjs_conn e c r)
unfolding unregister_yjs_conn
unregister_yjs_conn-SameRooms e c r = record {
  rooms_same = ground arith;
  conn_rooms_same = ground arith;
  presence_same = ground arith;
  acks_same = ground arith;
}

pub store_yjs_persistence-Untouched :
    (e : Engine) (plan : YjsPersistencePlan) → Untouched e (store_yjs_persistence e plan).0
unfolding store_yjs_persistence
store_yjs_persistence-Untouched e plan = (
  record { rooms_same = refl; conn_rooms_same = refl; presence_same = refl; acks_same = refl },
  record { yjs_rooms_same = refl; yjs_sessions_same = refl },
)

pub set_presence-SameYjs :
    (e : Engine) (c r : String) (payload : Bytes) → SameYjs e (set_presence e c r payload)
unfolding set_presence
set_presence-SameYjs e c r payload = record { yjs_rooms_same = refl; yjs_sessions_same = refl }

pub apply_presence_set_plan-SameYjs :
    (e : Engine) (plan : PresenceFanout) → SameYjs e (apply_presence_set_plan e plan).0
unfolding apply_presence_set_plan
apply_presence_set_plan-SameYjs e plan = record { yjs_rooms_same = refl; yjs_sessions_same = refl }
