-- ===== src/Runtime/Preserve.antt =====
-- Each handler of server/internal/runtime/service.go keeps the service sound.
use open_rtc.Base.{
  ℕ, ◌≤◌, String, ◌≡◌, refl, sym, ap, ◌∙◌, Bool, true, false, not, Option, none, some, List, [],
  ◌∷◌, arith, eq_iff, if◌then◌else◌, length,
}
use open_rtc.Catalog.{Code, bad_request, room_forbidden, rate_limited}
use open_rtc.Dict.{has, remove, get-remove}
use open_rtc.Dict.Nested.{has_in}
use open_rtc.Engine.{Engine, PresenceFanout}
use open_rtc.Engine.Membership.{
  JoinLimits, JoinResult, join_with_limits, new_leave_plan, apply_leave_plan,
  leave_with_presence_fanout, register_session, disconnect_session,
}
use open_rtc.Engine.Membership.Join.{join-adds, join-refused}
use open_rtc.Engine.Membership.Leave.{leave-removes, disconnect-removes}
use open_rtc.Engine.Membership.Preserve.{
  join_with_limits-IsConsistent, apply_leave_plan-IsConsistent, disconnect_session-IsConsistent,
}
use open_rtc.Engine.Presence.{acknowledge_event, apply_presence_set_plan, new_presence_set_plan}
use open_rtc.Engine.Presence.Acks.{
  acknowledge_event-IsConsistent, apply_presence_set_plan-IsConsistent,
}
use open_rtc.Engine.Steps.Frame.{SameRooms-IsConsistent, register_session-SameRooms}
use open_rtc.Errors.{Result, ok, err, room_limit_exceeded, room_capacity_exceeded}
use open_rtc.Protocol.{Message, EventAckMeta}
use open_rtc.Runtime.{Outbound, nothing, ClientConn, EmitLimiter, Service, RuntimeConfig}
use open_rtc.Runtime.Limiter.{allow}
use open_rtc.Runtime.Queue.{
  set_conn, error_message, enqueue, broadcast_event, broadcast_presence_fanout,
}
use open_rtc.Runtime.Handlers.{
  may, emitted, set_engine, count_join, record_leave, record_presence_update, reply,
  session_info_from_conn, joined, refuse, leave_broadcast, handle_join, handle_leave, handle_emit,
  handle_event_ack, handle_presence, register_conn, broadcast_all, unregister_conn,
}
use open_rtc.Runtime.Safety.{
  IsSound, After, set_conn-IsSound, counted-IsSound, engine-IsSound, enqueue-IsSound,
  broadcast_event-IsSound, broadcast_presence-IsSound,
}

module _ (cfg : RuntimeConfig) (picks_done : ClientConn → Bool) where
  join_members :
      (s : Service) (c r : String) (limits : JoinLimits)
      → IsSound cfg s
      → has s.conns c ≡ true
      → (x t : String) → has_in (join_with_limits s.engine c r limits).0.rooms t x ≡ true
      → has s.conns x ≡ true
  join_members s c r limits h registered x t member =
      go (join_with_limits s.engine c r limits).1 refl
    where
      go :
          (o : Result JoinResult)
          → (join_with_limits s.engine c r limits).1 ≡ o
          → has s.conns x ≡ true
      go (ok result) e =
          let adds = (join-adds s.engine c r limits result h.engine e).0 x t in
          let old = h.members x t in ground (arith, eq_iff c x)
      go (err error) e =
          let same = ((join-refused s.engine c r limits error e).0 x t).0 in
          h.members x t (sym same ∙ member)

  refuse-IsSound :
      (s : Service) (c : ClientConn) (m : Message) (code : Code) (message : String)
      → IsSound cfg s
      → After cfg (refuse cfg picks_done s c m code message)
  unfolding refuse
  refuse-IsSound s c m code message h =
      enqueue-IsSound cfg picks_done s c.id (error_message m.id code message) h

  joined-IsSound :
      (s : Service) (c : ClientConn) (m : Message) (o : Result JoinResult)
      → IsSound cfg s
      → After cfg (joined cfg picks_done s c m o)
  unfolding joined count_join
  joined-IsSound s c m (err room_limit_exceeded) h = refuse-IsSound s c m _ _ h
  joined-IsSound s c m (err room_capacity_exceeded) h = refuse-IsSound s c m _ _ h
  joined-IsSound s c m (err error) h = h
  joined-IsSound s c m (ok result) h =
      enqueue-IsSound cfg picks_done _ c.id _ (go result.already_joined)
    where
      go : (b : Bool) → IsSound cfg (if b then s else count_join s)
      go true = h
      go false = counted-IsSound cfg s _ h

  pub handle_join-IsSound :
      (s : Service) (c : ClientConn) (m : Message)
      → IsSound cfg s
      → has s.conns c.id ≡ true
      → After cfg (handle_join cfg picks_done s c m)
  unfolding handle_join set_engine
  handle_join-IsSound s c m h registered =
      let limits : JoinLimits = record {
        rooms_per_connection = cfg.rooms_per_connection;
        room_connections = cfg.room_connections;
      } in
      go (may cfg c "join" m.room) limits
    where
      go :
          (b : Bool) (limits : JoinLimits)
          → After cfg (
              if not b
              then refuse cfg picks_done s c m room_forbidden "room join is not permitted"
              else joined cfg picks_done
                  (set_engine s (join_with_limits s.engine c.id m.room limits).0)
                  c
                  m
                  (join_with_limits s.engine c.id m.room limits).1)
      go false limits = refuse-IsSound s c m _ _ h
      go true limits =
          joined-IsSound (set_engine s (join_with_limits s.engine c.id m.room limits).0) c m
            (join_with_limits s.engine c.id m.room limits).1
            (engine-IsSound cfg s (join_with_limits s.engine c.id m.room limits).0
              (join_with_limits-IsConsistent s.engine c.id m.room limits h.engine)
              (join_members s c.id m.room limits h registered) h)

  leave_broadcast-IsSound :
      (s : Service) (o : Option PresenceFanout)
      → IsSound cfg s
      → After cfg (leave_broadcast cfg picks_done s o)
  unfolding leave_broadcast
  leave_broadcast-IsSound s none h = h
  leave_broadcast-IsSound s (some fanout) h = broadcast_presence-IsSound cfg picks_done s fanout h

  left_engine :
      (s : Service) (c r : String)
      → IsSound cfg s
      → IsSound cfg (
          set_engine s (apply_leave_plan s.engine (new_leave_plan s.engine c r cfg.node_id true)).0)
  unfolding set_engine leave_with_presence_fanout
  left_engine s c r h =
      engine-IsSound cfg s
        (apply_leave_plan s.engine (new_leave_plan s.engine c r cfg.node_id true)).0
        (apply_leave_plan-IsConsistent s.engine (new_leave_plan s.engine c r cfg.node_id true)
          h.engine)
        (λ x t member.
          let rooms = ((leave-removes s.engine c r cfg.node_id).1 x t).1 in
          let old = h.members x t in ground arith)
        h

  pub handle_leave-IsSound :
      (s : Service) (c : ClientConn) (m : Message)
      → IsSound cfg s
      → After cfg (handle_leave cfg picks_done s c m)
  unfolding handle_leave record_leave
  handle_leave-IsSound s c m h =
      let plan = new_leave_plan s.engine c.id m.room cfg.node_id true in
      let s0 = set_engine s (apply_leave_plan s.engine plan).0 in
      go plan.left (leave_broadcast cfg picks_done s0 plan.presence_fanout)
        (leave_broadcast-IsSound s0 plan.presence_fanout (left_engine s c.id m.room h))
    where
      go :
          (left : Bool) (r : Service × Bool)
          → IsSound cfg r.0
          → After cfg (
              if left
              then (if r.1
                  then enqueue cfg picks_done
                      (record_leave r.0)
                      c.id
                      (reply "LEFT" m.id m.room nothing)
                  else (r.0, false))
              else enqueue cfg picks_done s c.id (reply "LEFT" m.id m.room nothing))
      go true (s', true) k = enqueue-IsSound cfg picks_done _ c.id _ (counted-IsSound cfg s' _ k)
      go true (s', false) k = k
      go false r k = enqueue-IsSound cfg picks_done s c.id _ h

  pub handle_emit-IsSound :
      (s : Service) (c : ClientConn) (m : Message) (now : ℕ)
      → IsSound cfg s
      → length c.queue ≤ cfg.outbound_queue_depth
      → After cfg (handle_emit cfg picks_done s c m now)
  unfolding handle_emit
  handle_emit-IsSound s c m now h short = go (may cfg c "publish" m.room) (allow c.limiter now)
    where
      go :
          (b : Bool) (r : EmitLimiter × Bool)
          → After cfg (
              if not b
              then refuse cfg picks_done s c m room_forbidden "room publish is not permitted"
              else if not r.1
              then refuse cfg picks_done
                  (set_conn s (record c { limiter = r.0 }))
                  c
                  m
                  rate_limited
                  "emit rate limit exceeded"
              else broadcast_event cfg picks_done
                  (set_conn s (record c { limiter = r.0 }))
                  (emitted cfg m)
                  true)
      go false r = refuse-IsSound s c m _ _ h
      go true (l, false) =
          refuse-IsSound _ c m _ _ (set_conn-IsSound cfg s (record c { limiter = l }) short h)
      go true (l, true) =
          broadcast_event-IsSound cfg picks_done _ (emitted cfg m) true
            (set_conn-IsSound cfg s (record c { limiter = l }) short h)

  ack_members :
      (s : Service) (c r : String) (n : ℕ)
      → IsSound cfg s
      → (x t : String) → has_in (acknowledge_event s.engine c r n).0.rooms t x ≡ true
      → has s.conns x ≡ true
  unfolding acknowledge_event
  ack_members s c r n h x t member = let old = h.members x t in ground arith

  pub handle_event_ack-IsSound :
      (s : Service) (c : ClientConn) (m : Message)
      → IsSound cfg s
      → After cfg (handle_event_ack cfg picks_done s c m)
  unfolding handle_event_ack set_engine
  handle_event_ack-IsSound s c m h = go m.event_ack_meta
    where
      answer :
          (e : Engine) (acknowledged : Bool) (message : Outbound)
          → IsSound cfg (set_engine s e)
          → After cfg (
              if acknowledged
              then enqueue cfg picks_done (set_engine s e) c.id message
              else refuse cfg picks_done
                  (set_engine s e)
                  c
                  m
                  room_forbidden
                  "event ack requires joined room")
      answer e true message k = enqueue-IsSound cfg picks_done _ c.id _ k
      answer e false message k = refuse-IsSound _ c m _ _ k

      go :
          (o : Option EventAckMeta)
          → After cfg (elim o [
            | none ↦ refuse cfg picks_done s c m bad_request "event ack sequence is required"
            | some meta ↦
                let (e, acknowledged) = acknowledge_event s.engine c.id m.room meta.sequence in
                if acknowledged
                then enqueue cfg picks_done
                    (set_engine s e)
                    c.id
                    (record (reply "EVENT_ACKED" m.id m.room nothing) {
                      meta = some (record { trace_id = ""; seq = meta.sequence });
                    })
                else refuse cfg picks_done
                    (set_engine s e)
                    c
                    m
                    room_forbidden
                    "event ack requires joined room"
          ])
      go none = refuse-IsSound s c m _ _ h
      go (some meta) =
          let r = acknowledge_event s.engine c.id m.room meta.sequence in
          answer r.0 r.1 _ (
            engine-IsSound cfg s r.0
              (acknowledge_event-IsConsistent s.engine c.id m.room meta.sequence h.engine)
              (ack_members s c.id m.room meta.sequence h) h)

  pub handle_presence-IsSound :
      (s : Service) (c : ClientConn) (m : Message)
      → IsSound cfg s
      → After cfg (handle_presence cfg picks_done s c m)
  unfolding handle_presence set_engine apply_presence_set_plan record_presence_update
  handle_presence-IsSound s c m h =
      let plan = new_presence_set_plan s.engine c.id m.room m.payload cfg.node_id in
      let e = (apply_presence_set_plan s.engine plan).0 in
      go (may cfg c "presence" m.room)
        (broadcast_presence_fanout cfg picks_done (set_engine s e) plan)
        (broadcast_presence-IsSound cfg picks_done (set_engine s e) plan (
          engine-IsSound cfg s e (apply_presence_set_plan-IsConsistent s.engine plan h.engine)
            h.members h))
    where
      go :
          (b : Bool) (r : Service × Bool)
          → IsSound cfg r.0
          → After cfg (
              if not b
              then refuse cfg picks_done s c m room_forbidden "room presence is not permitted"
              else (if r.1 then (record_presence_update r.0, true) else (r.0, false)))
      go false r k = refuse-IsSound s c m _ _ h
      go true (s', true) k = counted-IsSound cfg s' _ k
      go true (s', false) k = k

  pub register_conn-IsSound :
      (s : Service) (c : ClientConn)
      → IsSound cfg s
      → length c.queue ≤ cfg.outbound_queue_depth
      → IsSound cfg (register_conn cfg picks_done s c)
  unfolding register_conn set_engine
  register_conn-IsSound s c h short =
      let info = session_info_from_conn c in
      let e = (register_session s.engine info).0 in
      let same = register_session-SameRooms s.engine info in
      set_conn-IsSound cfg (set_engine s e) c short (
        engine-IsSound cfg s e (SameRooms-IsConsistent s.engine e same h.engine)
          (λ x r member. h.members x r (sym (ap (λ d. has_in d r x) same.rooms_same) ∙ member)) h)

  broadcast_all-IsSound :
      (s : Service) (fanouts : List PresenceFanout)
      → IsSound cfg s
      → IsSound cfg (broadcast_all cfg picks_done s fanouts)
  unfolding broadcast_all
  broadcast_all-IsSound s [] h = h
  broadcast_all-IsSound s (fanout ∷ fanouts) h =
      broadcast_all-IsSound (broadcast_presence_fanout cfg picks_done s fanout).0 fanouts
        (broadcast_presence-IsSound cfg picks_done s fanout h)

  pub unregister_conn-IsSound :
      (s : Service) (conn_id : String)
      → IsSound cfg s
      → IsSound cfg (unregister_conn cfg picks_done s conn_id)
  unfolding unregister_conn disconnect_session
  unregister_conn-IsSound s conn_id h =
      let r = disconnect_session s.engine conn_id cfg.node_id in
      let removed = disconnect-removes s.engine conn_id cfg.node_id h.engine in
      broadcast_all-IsSound (record s { engine = r.0; conns = remove s.conns conn_id })
        r.1.presence_fanouts
        (record {
          engine = disconnect_session-IsConsistent s.engine conn_id cfg.node_id h.engine;
          keyed = λ k c e. let old = h.keyed k c in ground (arith, get-remove s.conns conn_id k);
          within = λ k c e. let old = h.within k c in ground (arith, get-remove s.conns conn_id k);
          members = λ x t member.
              let rooms = (removed.1 x t).0 in
              let old = h.members x t in ground (arith, get-remove s.conns conn_id x);
        })
