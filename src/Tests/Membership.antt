-- ===== src/Tests/Membership.antt =====
-- Examples of joining, leaving and disconnecting: server/internal/roomengine/engine.go.
use open_rtc.Base.{
  ℕ, String, ◌≡◌, ◌≢◌, refl, Bool, true, false, not, ◌&&◌, ◌||◌, ◌==◌, Option, none, some, List, [],
  ◌∷◌, ◌⊎◌, inl, inr, ℤ, pos, arith, if◌then◌else◌, map, contains, Distinct, IsSorted,
}
use open_rtc.Errors.{ok, err, room_capacity_exceeded}
use open_rtc.Dict.{get, size, keys}
use open_rtc.Dict.Nested.{get_in, has_in, at}
use open_rtc.Engine.{Engine, new, member_ids_locked}
use open_rtc.Engine.Invariant.{IsConsistent, new-IsConsistent}
use open_rtc.Engine.Membership.{
  JoinLimits, DisconnectPlan, join_with_limits, leave, leave_with_presence_fanout,
  disconnect_session, apply_disconnect_plan,
}
use open_rtc.Engine.Membership.Preserve.{join_with_limits-IsConsistent}
use open_rtc.Engine.Membership.Join.{
  join-adds, join-refused, AtLimit, RoomsWithin, ConnectionsWithin, join-RoomsWithin,
}
use open_rtc.Engine.Membership.Leave.{
  leave-removes, leave-join, disconnect-removes, disconnect-fanouts, stale_disconnect_plan,
  presence_outlives,
}
use open_rtc.Engine.Presence.{set_presence}

abbrev pub limits : JoinLimits
limits = record { rooms_per_connection = pos 2; room_connections = pos 2 }

-- "ann" and "bob" are in "r", "ann" also in "s".
abbrev pub one_member : Engine
one_member = (join_with_limits new "ann" "r" limits).0

abbrev pub two_members : Engine
two_members = (join_with_limits one_member "bob" "r" limits).0

abbrev pub lobby : Engine
lobby = (join_with_limits two_members "ann" "s" limits).0

pub one_member-IsConsistent : IsConsistent one_member
one_member-IsConsistent = join_with_limits-IsConsistent new "ann" "r" limits new-IsConsistent

pub two_members-IsConsistent : IsConsistent two_members
two_members-IsConsistent =
    join_with_limits-IsConsistent one_member "bob" "r" limits one_member-IsConsistent

pub lobby-IsConsistent : IsConsistent lobby
lobby-IsConsistent =
    join_with_limits-IsConsistent two_members "ann" "s" limits two_members-IsConsistent

lobby_members : member_ids_locked lobby "r" "" ≡ "ann" ∷ "bob" ∷ []
unfolding new join_with_limits member_ids_locked open_rtc.Base.sort_strings open_rtc.Base.keep keys
    at get open_rtc.Dict.Nested.ensure open_rtc.Dict.put open_rtc.Dict.empty open_rtc.Engine.reached
    size open_rtc.Dict.Nested.put_in
lobby_members = refl

disconnect-removes_example :
    get (disconnect_session lobby "ann" "node").0.sessions "bob" ≡ get lobby.sessions "bob"
disconnect-removes_example = (disconnect-removes lobby "ann" "node" lobby-IsConsistent).0 "bob"

disconnect-fanouts_example :
    contains (disconnect_session lobby "ann" "node").1.rooms "r" ≡ has_in lobby.conn_rooms "ann" "r"
disconnect-fanouts_example = (disconnect-fanouts lobby "ann" "node" lobby-IsConsistent refl).0.1 "r"

joined :
    (join_with_limits two_members "ann" "s" limits).1
    ≡ ok (record {
      already_joined = false;
      snapshot = record { members = "ann" ∷ []; presence = at two_members.presence "s" };
      membership_mutation = some (record { kind = "join"; conn_id = "ann"; room = "s" });
    })
unfolding new join_with_limits get at open_rtc.Dict.Nested.ensure open_rtc.Dict.put
    open_rtc.Dict.empty open_rtc.Engine.reached size open_rtc.Dict.Nested.put_in
    open_rtc.Engine.snapshot_locked open_rtc.Base.sort_strings keys
joined = refl

join-adds_example : contains ("ann" ∷ []) "ann" ≡ true
join-adds_example = (join-adds two_members "ann" "s" limits _ two_members-IsConsistent joined).3

full : (join_with_limits lobby "cat" "r" limits).1 ≡ err room_capacity_exceeded
unfolding new join_with_limits get at open_rtc.Dict.Nested.ensure open_rtc.Dict.put
    open_rtc.Dict.empty open_rtc.Engine.reached size open_rtc.Dict.Nested.put_in
full = refl

join-refused_example :
    AtLimit (pos 2) (size (at lobby.conn_rooms "cat")) ⊎ AtLimit (pos 2) (size (at lobby.rooms "r"))
join-refused_example = (join-refused lobby "cat" "r" limits room_capacity_exceeded full).2

new-RoomsWithin : RoomsWithin 2 new
unfolding new at open_rtc.Dict.get open_rtc.Dict.empty size
new-RoomsWithin r = omega arith

join-RoomsWithin_example : RoomsWithin 2 (join_with_limits new "ann" "r" limits).0
join-RoomsWithin_example = join-RoomsWithin new "ann" "r" limits 1 refl new-RoomsWithin

new-ConnectionsWithin : ConnectionsWithin 2 new
unfolding new at open_rtc.Dict.get open_rtc.Dict.empty size
new-ConnectionsWithin r = omega arith

leave-removes_example :
    (leave_with_presence_fanout lobby "ann" "r" "node").1.left ≡ has_in lobby.conn_rooms "ann" "r"
leave-removes_example = (leave-removes lobby "ann" "r" "node").0

ann_joined : has_in lobby.conn_rooms "ann" "r" ≡ true
unfolding new join_with_limits get at open_rtc.Dict.Nested.ensure open_rtc.Dict.put
    open_rtc.Dict.empty open_rtc.Engine.reached size open_rtc.Dict.Nested.put_in
ann_joined = refl

ann_apart : has_in two_members.conn_rooms "ann" "s" ≡ false
unfolding new join_with_limits get at open_rtc.Dict.Nested.ensure open_rtc.Dict.put
    open_rtc.Dict.empty open_rtc.Engine.reached size open_rtc.Dict.Nested.put_in
ann_apart = refl

leave-join_example :
    let f = (leave (join_with_limits two_members "ann" "s" limits).0 "ann" "s").0 in
    (has_in f.rooms "r" "bob" ≡ has_in two_members.rooms "r" "bob")
    × (has_in f.conn_rooms "bob" "r" ≡ has_in two_members.conn_rooms "bob" "r")
leave-join_example =
    leave-join two_members "ann" "s" limits _ two_members-IsConsistent ann_apart joined "bob" "r"

-- A plan that was made before the connection joined "s".
abbrev stale : DisconnectPlan
stale = record {
  rooms = "r" ∷ [];
  presence_fanouts = [];
  cleanup = some (record { conn_id = "ann" });
}

ann_in_s : has_in lobby.conn_rooms "ann" "s" ≡ true
unfolding new join_with_limits get at open_rtc.Dict.Nested.ensure open_rtc.Dict.put
    open_rtc.Dict.empty open_rtc.Engine.reached size open_rtc.Dict.Nested.put_in
ann_in_s = refl

missed : contains stale.rooms "s" ≡ false
unfolding contains
missed = refl

stale_disconnect_plan_example : ¬ IsConsistent (apply_disconnect_plan lobby stale).0
stale_disconnect_plan_example =
    stale_disconnect_plan lobby "ann" "s" stale lobby-IsConsistent refl ann_in_s missed

presence_outlives_example :
    get_in
      (disconnect_session (set_presence two_members "ann" "s" (1 ∷ [])) "ann" "node").0.presence
      "s"
      "ann"
    ≡ some (1 ∷ [])
presence_outlives_example = presence_outlives two_members "ann" "s" "node" (1 ∷ []) ann_apart
