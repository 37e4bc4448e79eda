-- ===== src/Runtime/Queue.antt =====
-- The outbound queues and the broadcasts of server/internal/runtime/service.go. Where a connection is
-- closed and its queue has room, Go's select takes either case: `picks_done` says which.
use open_rtc.Base.{
  ℕ, ◌+◌, String, Bool, true, false, ◌&&◌, ◌||◌, Option, none, some, List, [], ◌∷◌, ◌++◌, ◌==◌,
  if◌then◌else◌, ltb, nat_eq, length,
}
use open_rtc.Catalog.{Code, queue_overflow, descriptor_for}
use open_rtc.Cluster.{PublishedEvent, PresenceEvent}
use open_rtc.Dict.{get, put}
use open_rtc.Engine.{PresenceFanout}
use open_rtc.Engine.Presence.{EventFanout, event_fanout}
use open_rtc.Runtime.{
  api_error, raw, presence_state, Meta, Outbound, ClientConn, Service, RuntimeConfig,
}

unfoldable pub close : ClientConn → ℕ → ClientConn
close c code = if c.closed then c else record c { closed = true; close_code = code }

-- A new value of a connection.
unfoldable pub set_conn : Service → ClientConn → Service
set_conn s c = record s { conns = put s.conns c.id c }

unfoldable pub overflow : Service → ClientConn → Service
unfolding close set_conn descriptor_for
overflow s c =
    set_conn
      (record s {
        counters = record s.counters {
          queue_overflows_total = s.counters.queue_overflows_total + 1;
        };
      })
      (close c (descriptor_for queue_overflow).ws_close_code)

unfoldable pub error_message : String → Code → String → Outbound
error_message request_id code message = record {
  t = "ERROR";
  id = request_id;
  room = "";
  event = "";
  payload = api_error (record { code = code; message = message; request_id = request_id });
  meta = none;
}

unfoldable pub event_meta : PublishedEvent → Option Meta
event_meta event =
    if event.trace_id == "" && nat_eq event.sequence 0
    then none
    else some (record { trace_id = event.trace_id; seq = event.sequence })

unfoldable pub event_outbound_message : PublishedEvent → Outbound
unfolding event_meta
event_outbound_message event = record {
  t = "EVENT";
  id = "";
  room = event.room;
  event = event.event;
  payload = raw event.payload;
  meta = event_meta event;
}

unfoldable pub presence_outbound_message : PresenceEvent → Outbound
presence_outbound_message event = record {
  t = "PRESENCE";
  id = "";
  room = event.room;
  event = "";
  payload = presence_state event.conn_id (if event.offline then none else some event.state);
  meta = none;
}

abbrev not_below : ℕ → ℕ → Bool
not_below n depth = if ltb n depth then false else true

-- After an error the loop returns.
abbrev pub deliver_rest : Service × Bool → (Service → Service × Bool) → Service × Bool
deliver_rest (s, true) rest = rest s
deliver_rest (s, false) rest = (s, false)

unfoldable pub count_event : Service → Service
count_event s = record s {
  counters = record s.counters { events_total = s.counters.events_total + 1 };
}

module _ (cfg : RuntimeConfig) (picks_done : ClientConn → Bool) where
  -- The state and whether there was no error.
  unfoldable pub enqueue_at : Service → ClientConn → Outbound → Service × Bool
  enqueue_at s c message =
      if c.closed && (picks_done c || not_below (length c.queue) cfg.outbound_queue_depth)
      then (s, false)
      else if ltb (length c.queue) cfg.outbound_queue_depth
      then (set_conn s (record c { queue = c.queue ++ (message ∷ []) }), true)
      else (overflow s c, false)

  -- A connection that is no longer registered is closed.
  unfoldable pub enqueue : Service → String → Outbound → Service × Bool
  unfolding enqueue_at
  enqueue s conn_id message = elim (get s.conns conn_id) [
    | none ↦ (s, false)
    | some c ↦ enqueue_at s c message
  ]

  -- To each registered target in turn, up to the first error.
  unfoldable pub deliver : Service → List String → Outbound → Service × Bool
  deliver s [] message = (s, true)
  deliver s (target ∷ targets) message = elim (get s.conns target) [
    | none ↦ deliver s targets message
    | some c ↦ deliver_rest (enqueue_at s c message) (λ s'. deliver s' targets message)
  ]

  unfoldable pub broadcast_event_fanout : Service → EventFanout → Bool → Service × Bool
  broadcast_event_fanout s fanout count_metric =
      let (s', delivered) =
        deliver s fanout.target_conn_ids (event_outbound_message fanout.event) in
      if delivered then (if count_metric then count_event s' else s', true) else (s', false)

  unfoldable pub broadcast_event : Service → PublishedEvent → Bool → Service × Bool
  unfolding broadcast_event_fanout
  broadcast_event s event count_metric =
      broadcast_event_fanout s (event_fanout s.engine event) count_metric

  unfoldable pub broadcast_presence_fanout : Service → PresenceFanout → Service × Bool
  broadcast_presence_fanout s fanout =
      deliver s fanout.target_conn_ids (presence_outbound_message fanout.event)
