-- ===== src/Engine/Invariant.antt =====
-- The well-formedness of the maps of an `Engine`.
use open_rtc.Base.{ℕ, String, ◌≡◌, Bool, true, false, Option, none, some, ◌==◌, arith}
use open_rtc.Dict.{get, get-empty}
use open_rtc.Dict.Nested.{has_in, IsNested, IsTidy, empty-IsNested, empty-IsTidy, get_in-empty}
use open_rtc.Engine.{Engine, YjsSessionInfo, new}

-- Which connection is in which room is stored twice, and the two agree. Acknowledgements and room
-- sets are dropped with their last entry, and only a connection in the room has an acknowledgement.
pub record IsConsistent (e : Engine) : Type 0 where
  pub rooms_nested : IsNested e.rooms
  pub rooms_tidy : IsTidy e.rooms
  pub conn_rooms_nested : IsNested e.conn_rooms
  pub indexed : (c r : String) → has_in e.rooms r c ≡ has_in e.conn_rooms c r
  pub presence_nested : IsNested e.presence
  pub presence_tidy : IsTidy e.presence
  pub acks_nested : IsNested e.event_acks
  pub acks_tidy : IsTidy e.event_acks
  pub acked : (c r : String) → has_in e.event_acks c r ≡ true → has_in e.conn_rooms c r ≡ true

abbrev pub in_room : Option YjsSessionInfo → String → Bool
in_room none r = false
in_room (some info) r = info.room == r

-- A YJS connection is in the set of its session's room and in no other set.
pub record IsYjsConsistent (e : Engine) : Type 0 where
  pub yjs_nested : IsNested e.yjs_rooms
  pub yjs_tidy : IsTidy e.yjs_rooms
  pub in_session_room : (c r : String) → has_in e.yjs_rooms r c ≡ in_room (get e.yjs_sessions c) r

pub new-IsConsistent : IsConsistent new
unfolding new
new-IsConsistent = record {
  rooms_nested = empty-IsNested _;
  rooms_tidy = empty-IsTidy _;
  conn_rooms_nested = empty-IsNested _;
  indexed = λ c r. simp get_in-empty;
  presence_nested = empty-IsNested _;
  presence_tidy = empty-IsTidy _;
  acks_nested = empty-IsNested _;
  acks_tidy = empty-IsTidy _;
  acked = λ c r h. ground (arith, get_in-empty {V = ℕ} c r);
}

pub new-IsYjsConsistent : IsYjsConsistent new
unfolding new
new-IsYjsConsistent = record {
  yjs_nested = empty-IsNested _;
  yjs_tidy = empty-IsTidy _;
  in_session_room = λ c r. simp (get_in-empty, get-empty);
}
