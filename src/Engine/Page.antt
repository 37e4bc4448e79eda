-- ===== src/Engine/Page.antt =====
-- Snapshot pages, join plans and replay: server/internal/roomengine/engine.go.
pub mod Walk
use open_rtc.Base.{
  ℕ, zero, suc, ◌+◌, ◌-◌, ◌<◌, String, Bool, true, false, not, ◌&&◌, ◌||◌, Option, none, some, List,
  [], ◌∷◌, ◌==◌, if◌then◌else◌, nat_eq, ltb, sort_strings, contains, length, take, drop, ℤ, pos,
  negsuc,
}
use open_rtc.Cluster.{Bytes, PublishedEvent}
use open_rtc.Dict.{Dict, empty, get, put}
use open_rtc.Engine.{Engine, Snapshot, MembershipMutation, copy, snapshot_locked}
use open_rtc.Engine.Events.{clone_published_event}
use open_rtc.Engine.Membership.{JoinResult}

pub record SnapshotPageOptions : Type 0 where
  pub limit : ℤ
  pub cursor : String

pub record SnapshotPage : Type 0 where
  pub members : List String
  pub presence : Dict Bytes
  pub next_cursor : String

-- One past the first occurrence of the cursor, and 0 where it does not occur.
unfoldable pub after_cursor : List String → String → ℕ → ℕ
after_cursor [] cursor index = 0
after_cursor (member ∷ members) cursor index =
    let rest = after_cursor members cursor (index + 1) in
    if member == cursor then index + 1 else rest

unfoldable pub page_start : List String → String → ℕ
unfolding after_cursor
page_start members cursor = if cursor == "" then 0 else after_cursor members cursor 0

-- A limit that is not positive, or past the number of members, is that number.
unfoldable pub page_limit : ℤ → ℕ → ℕ
page_limit (pos zero) n = n
page_limit (pos (suc l)) n = if ltb n (suc l) then n else suc l
page_limit (negsuc l) n = n

unfoldable pub page_end : ℕ → ℕ → ℕ
page_end end n = if ltb n end then n else end

-- The states of the members listed, copied one by one into a new map.
unfoldable pub presence_of : Dict Bytes → List String → Dict Bytes → Dict Bytes
presence_of states [] out = out
presence_of states (member ∷ members) out =
    presence_of states members
      (elim (get states member) [ none ↦ out | some state ↦ put out member (copy state) ])

-- The last of the first `end` members.
unfoldable pub last_before : List String → ℕ → String
last_before members zero = ""
last_before [] (suc end) = ""
last_before (member ∷ members) (suc zero) = member
last_before (member ∷ members) (suc (suc end)) = last_before members (suc end)

-- sorted[start:end]
unfoldable pub slice : List String → ℕ → ℕ → List String
slice members start end = take (end - start) (drop start members)

page_of : Snapshot → List String → ℕ → ℕ → SnapshotPage
unfolding slice presence_of last_before
page_of snapshot sorted start end = record {
  members = slice sorted start end;
  presence = presence_of snapshot.presence (slice sorted start end) empty;
  next_cursor = if ltb end (length sorted) then last_before sorted end else "";
}

unfoldable pub page_snapshot : Snapshot → SnapshotPageOptions → SnapshotPage
unfolding page_of page_start page_limit page_end
page_snapshot snapshot options =
    let sorted = sort_strings (copy snapshot.members) in
    let start = page_start sorted options.cursor in
    let limit = page_limit options.limit (length sorted) in
    page_of snapshot sorted start (page_end (start + limit) (length sorted))

pub record JoinReplayOptions : Type 0 where
  pub after_sequence : ℕ
  pub max_events : ℤ
  pub exclude_conn_id : String
  pub excluded_event_names : List String

-- The set of excluded names is the list that it is made from.
pub record JoinReplayPlan : Type 0 where
  pub after_sequence : ℕ
  pub max_events : ℤ
  pub exclude_conn_id : String
  pub excluded_event_names : List String

unfoldable pub new_join_replay_plan : JoinReplayOptions → JoinReplayPlan
new_join_replay_plan options = record {
  after_sequence = options.after_sequence;
  max_events = options.max_events;
  exclude_conn_id = options.exclude_conn_id;
  excluded_event_names = options.excluded_event_names;
}

unfoldable pub enabled : JoinReplayPlan → Bool
enabled plan = ltb 0 plan.after_sequence

unfoldable pub skip_replay_event : JoinReplayPlan → PublishedEvent → Bool
skip_replay_event plan event =
    (not (plan.exclude_conn_id == "") && event.exclude_sender_conn_id == plan.exclude_conn_id)
    || contains plan.excluded_event_names event.event

unfoldable pub replay_events : JoinReplayPlan → List PublishedEvent → List PublishedEvent
unfolding skip_replay_event clone_published_event
replay_events plan [] = []
replay_events plan (event ∷ events) =
    let rest = replay_events plan events in
    if skip_replay_event plan event then rest else clone_published_event event ∷ rest

pub record JoinPlan : Type 0 where
  pub result : JoinResult
  pub snapshot_options : SnapshotPageOptions
  pub replay_plan : JoinReplayPlan

unfoldable pub new_join_plan : JoinResult → SnapshotPageOptions → JoinReplayOptions → JoinPlan
unfolding new_join_replay_plan
new_join_plan result page replay = record {
  result = result;
  snapshot_options = page;
  replay_plan = new_join_replay_plan replay;
}

unfoldable pub local_snapshot_page : JoinPlan → SnapshotPage
unfolding page_snapshot
local_snapshot_page plan = page_snapshot plan.result.snapshot plan.snapshot_options

unfoldable pub replay_log_request : JoinPlan → ℕ × ℤ × Bool
unfolding enabled
replay_log_request plan =
    if enabled plan.replay_plan
    then (plan.replay_plan.after_sequence, plan.replay_plan.max_events, true)
    else (0, pos 0, false)
