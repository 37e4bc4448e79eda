-- ===== src/Runtime/Handlers.antt =====
-- The handlers of the messages of server/internal/runtime/service.go that change rooms, presence and
-- acknowledgements, and the registration of connections. A handler returns the state and whether it
-- returned no error.
use open_rtc.Base.{
  ℕ, zero, suc, ◌+◌, ℤ, pos, negsuc, String, Bool, true, false, not, ◌||◌, Option, none, some, List,
  [], ◌∷◌, ◌==◌, if◌then◌else◌, append,
}
use open_rtc.Access.Claims.{Claims}
use open_rtc.Access.Rooms.{allows_room_action}
use open_rtc.Catalog.{Code, bad_request, room_capacity, room_forbidden, rate_limited}
use open_rtc.Cluster.{PublishedEvent}
use open_rtc.Dict.{remove}
use open_rtc.Engine.{Engine, SessionInfo, PresenceFanout}
use open_rtc.Engine.Events.{
  new_event, event_storage_update, notification_inbox_created, notification_inbox_read,
  notification_inbox_deleted, notification_inbox_deleted_all,
}
use open_rtc.Engine.Membership.{
  JoinResult, join_with_limits, new_leave_plan, apply_leave_plan, register_session,
  new_disconnect_plan, apply_disconnect_plan,
}
use open_rtc.Engine.Page.{
  SnapshotPageOptions, JoinReplayOptions, new_join_plan, local_snapshot_page,
}
use open_rtc.Engine.Presence.{new_presence_set_plan, apply_presence_set_plan, acknowledge_event}
use open_rtc.Errors.{Result, ok, err, room_limit_exceeded, room_capacity_exceeded}
use open_rtc.Protocol.{Message, JoinMeta, EmitMeta}
use open_rtc.Runtime.{Payload, nothing, page, Outbound, ClientConn, Service, RuntimeConfig}
use open_rtc.Runtime.Limiter.{allow}
use open_rtc.Runtime.Queue.{
  set_conn, error_message, enqueue, broadcast_event, broadcast_presence_fanout,
}

-- defaultJoinLimit, where the client names no limit.
unfoldable pub page_limit_of : ℤ → ℤ
page_limit_of (pos zero) = pos 100
page_limit_of (pos (suc n)) = pos (suc n)
page_limit_of (negsuc n) = pos 100

unfoldable pub snapshot_page_options : Option JoinMeta → SnapshotPageOptions
unfolding page_limit_of
snapshot_page_options none = record { limit = pos 100; cursor = "" }
snapshot_page_options (some meta) = record {
  limit = page_limit_of meta.limit;
  cursor = meta.cursor;
}

abbrev pub join_replay_excluded_event_names : List String
join_replay_excluded_event_names =
    event_storage_update ∷ notification_inbox_created ∷ notification_inbox_read
    ∷ notification_inbox_deleted ∷ notification_inbox_deleted_all ∷ []

after_sequence_of : Option JoinMeta → ℕ
after_sequence_of none = 0
after_sequence_of (some meta) = meta.after_sequence

-- The replay half of joinPlanOptions.
unfoldable pub replay_options : String → Option JoinMeta → JoinReplayOptions
unfolding after_sequence_of
replay_options conn_id meta = record {
  after_sequence = after_sequence_of meta;
  max_events = pos 1000;
  exclude_conn_id = conn_id;
  excluded_event_names = join_replay_excluded_event_names;
}

unfoldable pub tenant_prefix : RuntimeConfig → Claims → String
unfolding append
tenant_prefix cfg claims =
    if not cfg.enforce_prefix || claims.tenant == "" then "" else append claims.tenant cfg.separator

-- The service's allowsRoomAction: without a store only the claims decide.
unfoldable pub may : RuntimeConfig → ClientConn → String → String → Bool
may cfg c action room =
    allows_room_action c.claims none action room
      (record { enforce_tenant_prefix = cfg.enforce_prefix; tenant_separator = cfg.separator })

unfoldable pub session_info_from_conn : ClientConn → SessionInfo
session_info_from_conn c = elim c.claims [
  | none ↦ record { conn_id = c.id; subject = ""; tenant = "" }
  | some claims ↦ record { conn_id = c.id; subject = claims.subject; tenant = claims.tenant }
]

unfoldable pub set_engine : Service → Engine → Service
set_engine s e = record s { engine = e }

unfoldable pub count_join : Service → Service
count_join s = record s {
  counters = record s.counters { joins_total = s.counters.joins_total + 1 };
}

unfoldable pub record_leave : Service → Service
record_leave s = record s {
  counters = record s.counters { leaves_total = s.counters.leaves_total + 1 };
}

unfoldable pub record_presence_update : Service → Service
record_presence_update s = record s {
  counters = record s.counters { presence_updates_total = s.counters.presence_updates_total + 1 };
}

-- A reply about a room that has neither event nor meta.
unfoldable pub reply : String → String → String → Payload → Outbound
reply t id room payload = record {
  t = t;
  id = id;
  room = room;
  event = "";
  payload = payload;
  meta = none;
}

trace_id_of : Option EmitMeta → String
trace_id_of none = ""
trace_id_of (some meta) = meta.trace_id

-- The event that an EMIT message publishes.
unfoldable pub emitted : RuntimeConfig → Message → PublishedEvent
unfolding trace_id_of
emitted cfg m = new_event m.room m.event m.payload (record {
  origin_node = cfg.node_id;
  trace_id = trace_id_of m.emit_meta;
  exclude_sender_conn_id = "";
})

module _ (cfg : RuntimeConfig) (picks_done : ClientConn → Bool) where
  unfoldable pub refuse : Service → ClientConn → Message → Code → String → Service × Bool
  refuse s c m code message = enqueue cfg picks_done s c.id (error_message m.id code message)

  -- The answer to a join, in the state that the engine left.
  unfoldable pub joined : Service → ClientConn → Message → Result JoinResult → Service × Bool
  unfolding refuse
  joined s c m (err room_limit_exceeded) =
      refuse s c m bad_request "maximum rooms per connection exceeded"
  joined s c m (err room_capacity_exceeded) = refuse s c m room_capacity "room capacity exceeded"
  joined s c m (err error) = (s, false)
  joined s c m (ok result) =
      let plan =
        new_join_plan result (snapshot_page_options m.join_meta)
          (replay_options c.id m.join_meta) in
      enqueue cfg picks_done (if result.already_joined then s else count_join s) c.id
        (reply "JOINED" m.id m.room (page (local_snapshot_page plan)))

  unfoldable pub handle_join : Service → ClientConn → Message → Service × Bool
  unfolding refuse
  handle_join s c m =
      if not (may cfg c "join" m.room)
      then refuse s c m room_forbidden "room join is not permitted"
      else (let (e, result) = join_with_limits s.engine c.id m.room (record {
        rooms_per_connection = cfg.rooms_per_connection;
        room_connections = cfg.room_connections;
      }) in
          joined (set_engine s e) c m result)

  unfoldable pub leave_broadcast : Service → Option PresenceFanout → Service × Bool
  leave_broadcast s none = (s, true)
  leave_broadcast s (some fanout) = broadcast_presence_fanout cfg picks_done s fanout

  unfoldable pub handle_leave : Service → ClientConn → Message → Service × Bool
  unfolding leave_broadcast
  handle_leave s c m =
      let plan = new_leave_plan s.engine c.id m.room cfg.node_id true in
      let (s', sent) =
        leave_broadcast (set_engine s (apply_leave_plan s.engine plan).0) plan.presence_fanout in
      let done = enqueue cfg picks_done (record_leave s') c.id (reply "LEFT" m.id m.room nothing) in
      if plan.left
      then (if sent then done else (s', false))
      else enqueue cfg picks_done s c.id (reply "LEFT" m.id m.room nothing)

  unfoldable pub handle_emit : Service → ClientConn → Message → ℕ → Service × Bool
  unfolding refuse
  handle_emit s c m now =
      if not (may cfg c "publish" m.room)
      then refuse s c m room_forbidden "room publish is not permitted"
      else (let (limiter, allowed) = allow c.limiter now in
          let s' = set_conn s (record c { limiter = limiter }) in
          if not allowed
          then refuse s' c m rate_limited "emit rate limit exceeded"
          else broadcast_event cfg picks_done s' (emitted cfg m) true)

  unfoldable pub handle_event_ack : Service → ClientConn → Message → Service × Bool
  unfolding refuse
  handle_event_ack s c m = elim m.event_ack_meta [
    | none ↦ refuse s c m bad_request "event ack sequence is required"
    | some meta ↦
        let (e, acknowledged) = acknowledge_event s.engine c.id m.room meta.sequence in
        if acknowledged
        then enqueue cfg picks_done (set_engine s e) c.id
            (record (reply "EVENT_ACKED" m.id m.room nothing) {
              meta = some (record { trace_id = ""; seq = meta.sequence });
            })
        else refuse (set_engine s e) c m room_forbidden "event ack requires joined room"
  ]

  unfoldable pub handle_presence : Service → ClientConn → Message → Service × Bool
  unfolding refuse
  handle_presence s c m =
      if not (may cfg c "presence" m.room)
      then refuse s c m room_forbidden "room presence is not permitted"
      else (let plan = new_presence_set_plan s.engine c.id m.room m.payload cfg.node_id in
          let (e, fanout) = apply_presence_set_plan s.engine plan in
          let (s', sent) = broadcast_presence_fanout cfg picks_done (set_engine s e) fanout in
          if sent then (record_presence_update s', true) else (s', false))

  unfoldable pub register_conn : Service → ClientConn → Service
  unfolding set_conn
  register_conn s c =
      set_conn (set_engine s (register_session s.engine (session_info_from_conn c)).0) c

  -- Errors of a broadcast are ignored.
  unfoldable pub broadcast_all : Service → List PresenceFanout → Service
  broadcast_all s [] = s
  broadcast_all s (fanout ∷ fanouts) =
      broadcast_all (broadcast_presence_fanout cfg picks_done s fanout).0 fanouts

  unfoldable pub unregister_conn : Service → String → Service
  unfolding broadcast_all
  unregister_conn s conn_id =
      let (e, result) =
        apply_disconnect_plan s.engine (new_disconnect_plan s.engine conn_id cfg.node_id true) in
      broadcast_all (record s { engine = e; conns = remove s.conns conn_id })
        result.presence_fanouts
