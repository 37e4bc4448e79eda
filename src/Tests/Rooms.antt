-- ===== src/Tests/Rooms.antt =====
-- Examples of presence, acknowledgements, targets and pages: server/internal/roomengine/engine.go.
use open_rtc.Base.{
  String, ◌≡◌, ◌≢◌, refl, true, false, not, ◌&&◌, [], ◌∷◌, arith, contains, Distinct, sort_strings,
  nat_eq,
}
use open_rtc.Dict.{keys}
use open_rtc.Dict.Nested.{at, has_in}
use open_rtc.Engine.{Engine, Snapshot, new, member_ids_locked, snapshot_locked}
use open_rtc.Engine.Membership.{join_with_limits}
use open_rtc.Engine.Presence.{acknowledge_event, event_ack_sequence}
use open_rtc.Engine.Presence.Acks.{acknowledge-max}
use open_rtc.Engine.Activity.{event_ack_range_locked}
use open_rtc.Engine.Activity.Range.{ack_range_holds}
use open_rtc.Engine.Page.Walk.{walk, pages_complete}
use open_rtc.Tests.Membership.{two_members, lobby}

abbrev acked : Engine
acked = (acknowledge_event lobby "ann" "r" 7).0

acked_seven : event_ack_sequence acked "ann" "r" ≡ 7
unfolding new acknowledge_event open_rtc.Dict.get at join_with_limits open_rtc.Dict.Nested.ensure
    open_rtc.Dict.put open_rtc.Dict.empty open_rtc.Engine.reached open_rtc.Dict.size
    open_rtc.Dict.Nested.put_in
acked_seven = refl

ann_in_r : has_in acked.rooms "r" "ann" ≡ true
unfolding new acknowledge_event open_rtc.Dict.get at join_with_limits open_rtc.Dict.Nested.ensure
    open_rtc.Dict.put open_rtc.Dict.empty open_rtc.Engine.reached open_rtc.Dict.size
    open_rtc.Dict.Nested.put_in
ann_in_r = refl

ann_acked : event_ack_sequence acked "ann" "r" ≢ 0
ann_acked = omega (arith, acked_seven)

acknowledge-max_example :
    (acknowledge_event lobby "ann" "r" 7).1
    ≡ (not (nat_eq 7 0) && has_in lobby.conn_rooms "ann" "r")
acknowledge-max_example = (acknowledge-max lobby "ann" "r" 7 refl refl).0

ack_range_holds_example : (event_ack_range_locked acked "r").0 ≢ 0
ack_range_holds_example = (ack_range_holds acked "r" "ann" ann_in_r ann_acked).0

-- Nobody is in "t" in either state.
nobody : (k : String) → has_in lobby.rooms "t" k ≡ has_in two_members.rooms "t" k
unfolding new join_with_limits open_rtc.Dict.get open_rtc.Dict.Nested.ensure at open_rtc.Dict.put
    snapshot_locked open_rtc.Dict.size open_rtc.Dict.empty open_rtc.Engine.reached
    open_rtc.Dict.Nested.put_in
nobody k = refl

abbrev three : Snapshot
three = record { members = "cat" ∷ "ann" ∷ "bob" ∷ []; presence = at two_members.presence "r" }

three-Distinct : Distinct three.members
unfolding contains
three-Distinct = (refl, (refl, (refl, tt)))

three_named : contains three.members "" ≡ false
unfolding contains
three_named = refl

pages_complete_example : walk 3 three 2 "" ≡ sort_strings three.members
pages_complete_example = pages_complete three 1 3 three-Distinct three_named (omega arith)
