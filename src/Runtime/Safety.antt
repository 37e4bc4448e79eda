-- ===== src/Runtime/Safety.antt =====
-- Any sequence of calls of the service keeps it sound: server/internal/runtime/service.go.
use open_rtc.Base.{
  ℕ, ◌+◌, ◌≤◌, String, ◌≡◌, refl, Bool, true, false, ◌&&◌, ◌||◌, Option, none, some, List, [], ◌∷◌,
  ◌++◌, arith, if◌then◌else◌, ltb, ltb→lt, length, length-append, Bool-cases, inl, inr,
}
use open_rtc.Catalog.{queue_overflow, descriptor_for}
use open_rtc.Cluster.{PublishedEvent}
use open_rtc.Dict.{get, has, get-put}
use open_rtc.Dict.Nested.{has_in}
use open_rtc.Engine.{Engine, PresenceFanout}
use open_rtc.Engine.Invariant.{IsConsistent}
use open_rtc.Engine.Presence.{event_fanout}
use open_rtc.Runtime.{Outbound, ClientConn, Counters, Service, RuntimeConfig}
use open_rtc.Runtime.Queue.{
  set_conn, overflow, close, count_event, enqueue_at, enqueue, deliver, deliver_rest,
  broadcast_event, broadcast_presence_fanout, event_outbound_message, presence_outbound_message,
}
use open_rtc.Runtime.Delivery.{Keyed, set_conn-Keyed}

module _ (cfg : RuntimeConfig) where
  -- The engine is consistent, connections are registered under their ids, no queue is longer than it may
  -- be, and every member of a room is a registered connection.
  pub record IsSound (s : Service) : Type 0 where
    pub engine : IsConsistent s.engine
    pub keyed : Keyed s
    pub within :
        (k : String) (c : ClientConn)
        → get s.conns k ≡ some c
        → length c.queue ≤ cfg.outbound_queue_depth
    pub members : (x r : String) → has_in s.engine.rooms r x ≡ true → has s.conns x ≡ true

  pub set_conn-IsSound :
      (s : Service) (c : ClientConn)
      → length c.queue ≤ cfg.outbound_queue_depth
      → IsSound s
      → IsSound (set_conn s c)
  unfolding set_conn
  set_conn-IsSound s c short h = record {
    engine = h.engine;
    keyed = set_conn-Keyed s c h.keyed;
    within = λ k x e. let old = h.within k x in ground (arith, get-put s.conns c.id k c, old);
    members =
        λ x r joined. let old = h.members x r joined in ground (arith, get-put s.conns c.id x c);
  }

  -- A handler leaves a sound state.
  abbrev pub After : Service × Bool → Type 0
  After r = IsSound r.0

  pub counted-IsSound :
      (s : Service) (n : Counters) → IsSound s → IsSound (record s { counters = n })
  counted-IsSound s n h = record {
    engine = h.engine;
    keyed = h.keyed;
    within = h.within;
    members = h.members;
  }

  length-close : (c : ClientConn) (code : ℕ) → length (close c code).queue ≡ length c.queue
  unfolding close
  length-close c code = ground arith

  overflow-IsSound :
      (s : Service) (c : ClientConn)
      → length c.queue ≤ cfg.outbound_queue_depth
      → IsSound s
      → IsSound (overflow s c)
  unfolding overflow
  overflow-IsSound s c short h =
      let n = record s.counters { queue_overflows_total = s.counters.queue_overflows_total + 1 } in
      let code = (descriptor_for queue_overflow).ws_close_code in
      set_conn-IsSound (record s { counters = n }) (close c code)
        (omega (arith, length-close c code, short)) (counted-IsSound s n h)

  -- The engine changes, and whoever is a member then was registered.
  pub engine-IsSound :
      (s : Service) (e : Engine)
      → IsConsistent e
      → ((x r : String) → has_in e.rooms r x ≡ true → has s.conns x ≡ true)
      → IsSound s
      → IsSound (record s { engine = e })
  engine-IsSound s e consistent joined h = record {
    engine = consistent;
    keyed = h.keyed;
    within = h.within;
    members = joined;
  }

  module _ (picks_done : ClientConn → Bool) where
    pub enqueue_at-IsSound :
        (s : Service) (c : ClientConn) (message : Outbound)
        → length c.queue ≤ cfg.outbound_queue_depth
        → IsSound s
        → IsSound (enqueue_at cfg picks_done s c message).0
    unfolding enqueue_at
    enqueue_at-IsSound s c message short h =
        elim (Bool-cases (
          c.closed
          && (picks_done c
              || (if ltb (length c.queue) cfg.outbound_queue_depth then false else true)))) [
                | inl shut ↦ rw shut h
                | inr open_or_free ↦
                    rw open_or_free
                      (elim (Bool-cases (ltb (length c.queue) cfg.outbound_queue_depth)) [
                        | inl free ↦ rw free (
                            set_conn-IsSound s (record c { queue = c.queue ++ (message ∷ []) })
                              (omega (
                                arith,
                                length-append c.queue (message ∷ []),
                                ltb→lt (length c.queue) cfg.outbound_queue_depth free,
                              ))
                              h)
                        | inr full ↦ rw full (overflow-IsSound s c short h)
                      ])
              ]

    pub enqueue-IsSound :
        (s : Service) (conn_id : String) (message : Outbound)
        → IsSound s
        → IsSound (enqueue cfg picks_done s conn_id message).0
    unfolding enqueue
    enqueue-IsSound s conn_id message h = go (get s.conns conn_id) refl
      where
        go :
            (o : Option ClientConn)
            → get s.conns conn_id ≡ o
            → After (elim o [ none ↦ (s, false) | some c ↦ enqueue_at cfg picks_done s c message ])
        go none e = h
        go (some c) e = enqueue_at-IsSound s c message (h.within conn_id c e) h

    pub deliver-IsSound :
        (s : Service) (targets : List String) (message : Outbound)
        → IsSound s
        → IsSound (deliver cfg picks_done s targets message).0
    unfolding deliver
    deliver-IsSound s [] message h = h
    deliver-IsSound s (t ∷ ts) message h =
        go (get s.conns t) refl (λ s' k. deliver-IsSound s' ts message k)
      where
        rest_of :
            (r : Service × Bool)
            → IsSound r.0
            → ((s' : Service) → IsSound s' → IsSound (deliver cfg picks_done s' ts message).0)
            → IsSound (deliver_rest r (λ s'. deliver cfg picks_done s' ts message)).0
        rest_of (s', true) k later = later s' k
        rest_of (s', false) k later = k

        go :
            (o : Option ClientConn)
            → get s.conns t ≡ o
            → ((s' : Service) → IsSound s' → IsSound (deliver cfg picks_done s' ts message).0)
            → After (elim o [
              | none ↦ deliver cfg picks_done s ts message
              | some c ↦
                  deliver_rest
                    (enqueue_at cfg picks_done s c message)
                    (λ s'. deliver cfg picks_done s' ts message)
            ])
        go none e later = later s h
        go (some c) e later =
            rest_of (enqueue_at cfg picks_done s c message)
              (enqueue_at-IsSound s c message (h.within t c e) h) later

    pub broadcast_event-IsSound :
        (s : Service) (event : PublishedEvent) (count_metric : Bool)
        → IsSound s
        → IsSound (broadcast_event cfg picks_done s event count_metric).0
    unfolding broadcast_event count_event
    broadcast_event-IsSound s event count_metric h =
        let fanout = event_fanout s.engine event in
        go (deliver cfg picks_done s fanout.target_conn_ids (event_outbound_message fanout.event))
          count_metric
          (deliver-IsSound s fanout.target_conn_ids (event_outbound_message fanout.event) h)
      where
        go :
            (r : Service × Bool) (count_metric : Bool)
            → IsSound r.0
            → After (
                if r.1 then (if count_metric then count_event r.0 else r.0, true) else (r.0, false))
        go (s', true) true k = counted-IsSound s' _ k
        go (s', true) false k = k
        go (s', false) counting k = k

    pub broadcast_presence-IsSound :
        (s : Service) (fanout : PresenceFanout)
        → IsSound s
        → IsSound (broadcast_presence_fanout cfg picks_done s fanout).0
    unfolding broadcast_presence_fanout
    broadcast_presence-IsSound s fanout h =
        deliver-IsSound s fanout.target_conn_ids (presence_outbound_message fanout.event) h
