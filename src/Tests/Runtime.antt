-- ===== src/Tests/Runtime.antt =====
-- Examples of the service: two connections, one of them in a room.
use open_rtc.Base.{
  ◌+◌, ◌≤◌, pos, String, ◌≡◌, refl, Bool, true, false, some, List, [], ◌∷◌, ◌++◌, arith,
  if◌then◌else◌, leb, contains, eq_iff, ◌==◌,
}
use open_rtc.Access.Claims.{Claims}
use open_rtc.Dict.{Dict, get, put, empty, get-put, get-empty}
use open_rtc.Engine.Membership.{JoinLimits, join_with_limits}
use open_rtc.Engine.Membership.Preserve.{join_with_limits-IsConsistent}
use open_rtc.Dict.Nested.{has_in}
use open_rtc.Engine.{Engine, new, member_ids_locked}
use open_rtc.Engine.Invariant.{new-IsConsistent}
use open_rtc.Protocol.{Message, emit}
use open_rtc.Protocol.Parse.{message_of}
use open_rtc.Runtime.{EmitLimiter, Outbound, ClientConn, Service, RuntimeConfig, nothing}
use open_rtc.Runtime.Limiter.{allow, allowed_in, allowed_in-le-limit, burst-allowed, same_time}
use open_rtc.Runtime.Queue.{deliver, event_outbound_message}
use open_rtc.Runtime.Handlers.{may, emitted, handle_emit, reply}
use open_rtc.Runtime.Delivery.{received}
use open_rtc.Runtime.Overflow.{overflowed, deliver-stops}
use open_rtc.Runtime.Emit.{emit_reaches, counted_conn}
use open_rtc.Runtime.Safety.{IsSound}
use open_rtc.Runtime.Sequence.{
  Call, connected, disconnected, join_message, emit_message, run, no_service, run-IsSound,
}

abbrev quiet : EmitLimiter
quiet = record { limit = 2; window = 0; used = 0 }

allowed_in-le-limit_example : allowed_in 7 quiet (6 ∷ 7 ∷ 7 ∷ 7 ∷ 8 ∷ []) ≤ 2
allowed_in-le-limit_example = allowed_in-le-limit 7 quiet (6 ∷ 7 ∷ 7 ∷ 7 ∷ 8 ∷ []) (omega arith)

two_allowed : allowed_in 7 quiet (6 ∷ 7 ∷ 7 ∷ 7 ∷ 8 ∷ []) ≡ 2
unfolding allowed_in allow
two_allowed = refl

burst-allowed_example :
    allowed_in 7 quiet (same_time 5 7) ≡ (if leb 5 quiet.limit then 5 else quiet.limit)
burst-allowed_example = burst-allowed quiet 7 5 (omega arith)

abbrev cfg : RuntimeConfig
cfg = record {
  node_id = "node";
  enforce_prefix = false;
  separator = ":";
  rooms_per_connection = pos 10;
  room_connections = pos 10;
  outbound_queue_depth = 2;
}

abbrev picks : ClientConn → Bool
picks c = true

abbrev token : Claims
token = record {
  subject = "ann";
  tenant = "acme";
  join = "*" ∷ [];
  publish = "*" ∷ [];
  presence = [];
  groups = [];
  group_ids = [];
  scope = "";
}

abbrev conn : String → ClientConn
conn id = record {
  id = id;
  claims = some token;
  queue = [];
  closed = false;
  close_code = 0;
  limiter = quiet;
}

abbrev hello : Outbound
hello = reply "HELLO" "1" "lobby" nothing

abbrev stuck : ClientConn
stuck = record (conn "b") { queue = hello ∷ hello ∷ [] }

abbrev two : Service
two = record no_service { conns = put (put empty "b" stuck) "a" (conn "a") }

abbrev message : Message
message = record (message_of emit "m1" "lobby" (1 ∷ [])) { event = "said" }

abbrev trial : List Call
trial =
    connected "a" (some token) 2
    ∷ connected "b" (some token) 2
    ∷ join_message "a" message
    ∷ join_message "b" message
    ∷ emit_message "a" message 5
    ∷ disconnected "b"
    ∷ []

run-IsSound_example : IsSound cfg (run cfg picks no_service trial)
run-IsSound_example = run-IsSound cfg picks trial

two-Keyed : (k : String) (c : ClientConn) → get two.conns k ≡ some c → c.id ≡ k
two-Keyed k c e = ground (
  arith,
  get-put (put (empty {V = ClientConn}) "b" stuck) "a" k (conn "a"),
  get-put (empty {V = ClientConn}) "b" k stuck,
  get-empty {V = ClientConn} k,
  eq_iff "a" k,
  eq_iff "b" k,
)

deliver-stops_example :
    let r = deliver cfg picks two ([] ++ ("b" ∷ "a" ∷ [])) hello in
    (r.1 ≡ false)
    × ((k : String)
        → get r.0.conns k ≡ (
            if "b" == k
            then some (overflowed stuck)
            else if contains [] k
            then received hello (get two.conns k)
            else get two.conns k))
    × (r.0.counters
        ≡ record two.counters { queue_overflows_total = two.counters.queue_overflows_total + 1 })
    × (r.0.engine ≡ two.engine)
unfolding contains put get empty
deliver-stops_example =
    deliver-stops cfg picks two [] "b" ("a" ∷ []) hello stuck two-Keyed (refl, (refl, tt))
      (λ k c m e. absurd (ground arith)) refl refl (omega arith)

abbrev limits : JoinLimits
limits = record { rooms_per_connection = pos 10; room_connections = pos 10 }

abbrev joined_one : Service
joined_one = record no_service {
  engine = (join_with_limits new "a" "lobby" limits).0;
  conns = put empty "a" (conn "a");
}

one_conn :
    (k : String) (c : ClientConn) → get joined_one.conns k ≡ some c → (c.id ≡ k) × (c ≡ conn "a")
one_conn k c e = ground (
  arith,
  get-put (empty {V = ClientConn}) "a" k (conn "a"),
  get-empty {V = ClientConn} k,
  eq_iff "a" k,
)

a_member : has_in joined_one.engine.rooms "lobby" "a" ≡ true
unfolding join_with_limits get open_rtc.Dict.Nested.at open_rtc.Dict.Nested.ensure put new empty
    open_rtc.Engine.reached open_rtc.Dict.size open_rtc.Dict.Nested.put_in
a_member = refl

a_may : may cfg (conn "a") "publish" "lobby" ≡ true
unfolding may open_rtc.Access.Rooms.allows_room_action
a_may = refl

emit_reaches_example :
    let r = handle_emit cfg picks joined_one (conn "a") message 5 in
    (r.1 ≡ true)
    × (r.0.engine ≡ joined_one.engine)
    × (r.0.counters.events_total ≡ 1)
    × ((k : String)
        → get r.0.conns k ≡ (
            if has_in joined_one.engine.rooms "lobby" k
            then received
                (event_outbound_message (emitted cfg message))
                (counted_conn cfg picks joined_one (conn "a") 5 k)
            else counted_conn cfg picks joined_one (conn "a") 5 k))
unfolding get put empty allow
emit_reaches_example =
    emit_reaches cfg picks joined_one (conn "a") message 5
      (join_with_limits-IsConsistent new "a" "lobby" limits new-IsConsistent)
      (λ k c e. (one_conn k c e).0) refl a_may refl
      (λ k c m e. let same = (one_conn k c e).1 in rw same (refl, omega arith))
