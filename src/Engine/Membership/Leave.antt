-- ===== src/Engine/Membership/Leave.antt =====
-- What leaving and disconnecting change.
use open_rtc.Base.{
  String, ◌≡◌, refl, Bool, true, false, not, ◌&&◌, none, some, map, arith, ◌==◌, eq_iff, eq_refl,
  if◌then◌else◌, contains, contains-sort_strings, sort_strings, ◌∙◌, List, [], Distinct,
  sort_strings-Distinct,
}
use open_rtc.Cluster.{Bytes}
use open_rtc.Dict.{get, get-remove, keys, contains-keys}
use open_rtc.Dict.Nested.{
  at-IsMap, at, has_in, get_in, get_in-put_in, get_in-remove_in, get_in-remove,
}
use open_rtc.Errors.{ok}
use open_rtc.Engine.{Engine, PresenceFanout, member_ids_locked}
use open_rtc.Engine.Invariant.{IsConsistent}
use open_rtc.Engine.Fanout.{contains-member_ids, member_ids_exact}
use open_rtc.Engine.Membership.{
  JoinLimits, JoinResult, DisconnectPlan, join_with_limits, exit, leave, leave_with_presence_fanout,
  apply_leave_plan, new_leave_plan, offline_fanout, drop_rooms, forget, new_disconnect_plan,
  apply_disconnect_plan, disconnect_session, new_offline_presence_event, joined_rooms_locked,
}
use open_rtc.Engine.Membership.Preserve.{drop_rooms-Dropped, join_with_limits-IsConsistent}
use open_rtc.Engine.Membership.Join.{join-adds}
use open_rtc.Engine.Presence.{set_presence, set_presence_locked}

-- What a leave of `c` from `r` makes of `e`, where `f` is the state after.
abbrev pub Leaves : Engine → String → String → Engine → Type 0
Leaves e c r f =
    let gone = has_in e.conn_rooms c r in
    (x s : String)
    → (has_in f.conn_rooms x s ≡ (not (c == x && r == s) && has_in e.conn_rooms x s))
      × (get_in f.rooms s x ≡ (if gone && (r == s && c == x) then none else get_in e.rooms s x))
      × (get_in f.presence s x
          ≡ (if gone && (r == s && c == x) then none else get_in e.presence s x))
      × (get_in f.event_acks x s
          ≡ (if gone && (c == x && r == s) then none else get_in e.event_acks x s))

apply-new_leave_plan :
    (e : Engine) (c r origin : String) (fanout : Bool)
    → Leaves e c r (apply_leave_plan e (new_leave_plan e c r origin fanout)).0
unfolding apply_leave_plan new_leave_plan exit
apply-new_leave_plan e c r origin fanout x s = (
  ground (arith, get_in-remove_in e.conn_rooms c r x s, eq_iff c x, eq_iff r s),
  ground (arith, get_in-remove_in e.rooms r c s x),
  ground (arith, get_in-remove_in e.presence r c s x),
  ground (arith, get_in-remove_in e.event_acks c r x s),
)

-- A leave removes the connection's membership of the room, its presence there and its
-- acknowledgement, and no other; it answers whether the connection was in the room, and if it was
-- not, its presence stays too.
pub leave-removes :
    (e : Engine) (c r origin : String)
    → ((leave_with_presence_fanout e c r origin).1.left ≡ has_in e.conn_rooms c r)
      × Leaves e c r (leave_with_presence_fanout e c r origin).0
unfolding leave_with_presence_fanout
leave-removes e c r origin = (ground arith, apply-new_leave_plan e c r origin true)

-- In a consistent engine, the fan-out of a leave by a connection with a name, which is in the room,
-- is its offline event, to exactly the other connections that are in the room.
pub leave-fanout :
    (e : Engine) (c r origin k : String)
    → IsConsistent e
    → (c == "") ≡ false
    → has_in e.conn_rooms c r ≡ true
    → ((leave_with_presence_fanout e c r origin).1.presence_fanout
        ≡ some (record {
          event = new_offline_presence_event c r origin;
          target_conn_ids = member_ids_locked e r c;
        }))
      × (contains (member_ids_locked e r c) k
          ≡ (not (k == c) && has_in (leave_with_presence_fanout e c r origin).0.conn_rooms k r))
unfolding leave_with_presence_fanout exit
leave-fanout e c r origin k h named joined = (
  ground (arith, joined),
  ground (
    arith,
    contains-member_ids e r c k,
    h.indexed k r,
    get_in-remove_in e.conn_rooms c r k r,
    eq_iff c k,
    eq_iff k c,
    eq_iff r r,
  ),
)

-- In a consistent engine, joining a room that the connection was not in and leaving it again
-- restores every membership.
pub leave-join :
    (e : Engine) (c r : String) (limits : JoinLimits) (result : JoinResult)
    → IsConsistent e
    → has_in e.conn_rooms c r ≡ false
    → (join_with_limits e c r limits).1 ≡ ok result
    → (x s : String)
    → let f = (leave (join_with_limits e c r limits).0 c r).0 in
      (has_in f.rooms s x ≡ has_in e.rooms s x)
      × (has_in f.conn_rooms x s ≡ has_in e.conn_rooms x s)
unfolding leave
leave-join e c r limits result h apart done x s =
    let joined = join_with_limits e c r limits in
    let adds = join-adds e c r limits result h done in
    let after = join_with_limits-IsConsistent e c r limits h in
    let left = apply-new_leave_plan joined.0 c r "" false in
    (
      ground (
        arith,
        (left x s).1,
        adds.0 x s,
        adds.0 c r,
        after.indexed c r,
        h.indexed c r,
        eq_iff r s,
        eq_iff c x,
        eq_refl r,
        eq_refl c,
        apart,
      ),
      ground (
        arith,
        (left x s).0,
        adds.0 x s,
        after.indexed x s,
        h.indexed x s,
        eq_iff r s,
        eq_iff c x,
        apart,
      ),
    )

-- In a consistent engine, a disconnect forgets the connection's session, its memberships, its
-- acknowledgements and its presence in the rooms that it was in. Every other session, membership,
-- acknowledgement and presence stays, the connection's presence in rooms that it was not in included.
pub disconnect-removes :
    (e : Engine) (c origin : String)
    → IsConsistent e
    → let f = (disconnect_session e c origin).0 in
      ((x : String) → get f.sessions x ≡ (if c == x then none else get e.sessions x))
      × ((x r : String)
          → (get_in f.rooms r x ≡ (if c == x then none else get_in e.rooms r x))
            × (get_in f.conn_rooms x r ≡ (if c == x then none else get_in e.conn_rooms x r))
            × (get_in f.presence r x
                ≡ (if c == x && has_in e.conn_rooms c r then none else get_in e.presence r x))
            × (get_in f.event_acks x r ≡ (if c == x then none else get_in e.event_acks x r)))
unfolding disconnect_session apply_disconnect_plan new_disconnect_plan forget joined_rooms_locked
disconnect-removes e c origin h =
    let rs = sort_strings (keys (at e.conn_rooms c)) in
    let d = drop_rooms-Dropped e c rs in
    let listed = λ (r : String).
      contains-sort_strings (keys (at e.conn_rooms c)) r ∙ contains-keys (at e.conn_rooms c) r in
    let f = drop_rooms e c rs in
    (
      λ x. ground (arith, get-remove f.sessions c x, d.sessions_same, eq_iff c x),
      λ x r. (
        ground (arith, d.rooms_kept r x, listed r, h.indexed c r, eq_iff c x),
        ground (arith, get_in-remove f.conn_rooms c x r, d.conn_rooms_same),
        ground (arith, d.presence_kept r x, listed r),
        ground (arith, get_in-remove f.event_acks c x r, d.acks_same),
      ),
    )

-- The news that a connection has left a room, for the given connections.
abbrev pub offline_news : String → String → List String → String → PresenceFanout
offline_news c origin targets r = record {
  event = record { room = r; conn_id = c; state = []; offline = true; origin_node = origin };
  target_conn_ids = targets;
}

-- In a consistent engine, a disconnect of a connection with a name makes one offline event, of this
-- connection and from the given node, for each room that the connection was in, each room once and no
-- other, and its targets are exactly the connections that are in the room after the disconnect, each
-- once.
pub disconnect-fanouts :
    (e : Engine) (c origin : String)
    → IsConsistent e
    → (c == "") ≡ false
    → let f = (disconnect_session e c origin).0 in
      let result = (disconnect_session e c origin).1 in
      (Distinct result.rooms × ((r : String) → contains result.rooms r ≡ has_in e.conn_rooms c r))
      × ((targets : String → List String) × (result.presence_fanouts
            ≡ map (λ r. offline_news c origin (targets r) r) result.rooms)
          × ((r : String)
              → Distinct (targets r)
                × ((k : String) → contains (targets r) k ≡ has_in f.conn_rooms k r)))
unfolding disconnect_session apply_disconnect_plan new_disconnect_plan joined_rooms_locked
    offline_fanout new_offline_presence_event
disconnect-fanouts e c origin h named =
    let removed = disconnect-removes e c origin h in
    let targets_of = λ (r : String). member_ids_exact e r c h in
    (
      (
        sort_strings-Distinct _ (at-IsMap e.conn_rooms c h.conn_rooms_nested),
        λ r.
            contains-sort_strings (keys (at e.conn_rooms c)) r
            ∙ contains-keys (at e.conn_rooms c) r,
      ),
      (
        (λ r. member_ids_locked e r c),
        refl,
        λ r. (
          (targets_of r).1,
          λ k.
              (targets_of r).0 k ∙ ground (arith, (removed.1 k r).1, eq_iff c k, eq_iff k c, named),
        ),
      ),
    )

-- Applying a disconnect plan that misses a room which its connection is in, in a consistent engine,
-- leaves the engine inconsistent.
pub stale_disconnect_plan :
    (e : Engine) (c r : String) (plan : DisconnectPlan)
    → IsConsistent e
    → plan.cleanup ≡ some (record { conn_id = c })
    → has_in e.conn_rooms c r ≡ true
    → contains plan.rooms r ≡ false
    → ¬ IsConsistent (apply_disconnect_plan e plan).0
unfolding apply_disconnect_plan forget
stale_disconnect_plan e c r plan h planned joined missed bad =
    let d = drop_rooms-Dropped e c plan.rooms in
    ground (
      arith,
      planned,
      bad.indexed c r,
      d.rooms_kept r c,
      get_in-remove (drop_rooms e c plan.rooms).conn_rooms c c r,
      h.indexed c r,
      eq_refl c,
    )

-- Presence that a connection sets in a room which it is not in is still there after the connection
-- has disconnected.
pub presence_outlives :
    (e : Engine) (c r origin : String) (payload : Bytes)
    → has_in e.conn_rooms c r ≡ false
    → get_in (disconnect_session (set_presence e c r payload) c origin).0.presence r c
      ≡ some payload
unfolding disconnect_session apply_disconnect_plan new_disconnect_plan forget joined_rooms_locked
    set_presence
presence_outlives e c r origin payload apart =
    let rs = sort_strings (keys (at e.conn_rooms c)) in
    let d = drop_rooms-Dropped (set_presence_locked e c r payload) c rs in
    ground (
      arith,
      d.presence_kept r c,
      contains-sort_strings (keys (at e.conn_rooms c)) r,
      contains-keys (at e.conn_rooms c) r,
      get_in-put_in e.presence r c payload r c,
      eq_refl c,
      eq_refl r,
    )
