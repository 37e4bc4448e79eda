-- ===== src/Runtime/Sequence.antt =====
-- Sequences of the calls of server/internal/runtime/service.go, from an empty service.
use open_rtc.Base.{
  ℕ, ◌≤◌, String, ◌≡◌, refl, sym, ap, subst, Bool, true, false, Option, none, some, List, [], ◌∷◌,
  arith, length,
}
use open_rtc.Access.Claims.{Claims}
use open_rtc.Dict.{get, has, is_some, empty, get-empty}
use open_rtc.Dict.Nested.{get_in-empty}
use open_rtc.Engine.{new}
use open_rtc.Engine.Invariant.{new-IsConsistent}
use open_rtc.Protocol.{Message}
use open_rtc.Runtime.{Outbound, ClientConn, Service, RuntimeConfig}
use open_rtc.Runtime.Queue.{set_conn}
use open_rtc.Runtime.Handlers.{
  handle_join, handle_leave, handle_emit, handle_event_ack, handle_presence, register_conn,
  unregister_conn,
}
use open_rtc.Runtime.Safety.{IsSound, set_conn-IsSound}
use open_rtc.Runtime.Preserve.{
  handle_join-IsSound, handle_leave-IsSound, handle_emit-IsSound, handle_event_ack-IsSound,
  handle_presence-IsSound, register_conn-IsSound, unregister_conn-IsSound,
}

-- A call of the service. The messages name their connection; a message of a connection that is not
-- registered has been handled before its connection went. `written` is the writer taking the oldest
-- message of a queue.
pub data Call : Type 0 where
  connected : String → Option Claims → ℕ → Call
  disconnected : String → Call
  join_message : String → Message → Call
  leave_message : String → Message → Call
  emit_message : String → Message → ℕ → Call
  ack_message : String → Message → Call
  presence_message : String → Message → Call
  written : String → Call

-- A connection as the service makes it.
abbrev fresh_conn : String → Option Claims → ℕ → ClientConn
fresh_conn conn_id claims limit = record {
  id = conn_id;
  claims = claims;
  queue = [];
  closed = false;
  close_code = 0;
  limiter = record { limit = limit; window = 0; used = 0 };
}

tail : List Outbound → List Outbound
tail [] = []
tail (m ∷ ms) = ms

on_conn : Service → String → (ClientConn → Service) → Service
on_conn s conn_id handle = elim (get s.conns conn_id) [ none ↦ s | some c ↦ handle c ]

abbrev pub no_service : Service
no_service = record {
  engine = new;
  conns = empty;
  counters = record {
    joins_total = 0;
    leaves_total = 0;
    events_total = 0;
    presence_updates_total = 0;
    queue_overflows_total = 0;
  };
}

module _ (cfg : RuntimeConfig) (picks_done : ClientConn → Bool) where
  unfoldable pub step : Service → Call → Service
  unfolding on_conn tail
  step s (connected conn_id claims limit) =
      register_conn cfg picks_done s (fresh_conn conn_id claims limit)
  step s (disconnected conn_id) = unregister_conn cfg picks_done s conn_id
  step s (join_message conn_id m) = on_conn s conn_id (λ c. (handle_join cfg picks_done s c m).0)
  step s (leave_message conn_id m) = on_conn s conn_id (λ c. (handle_leave cfg picks_done s c m).0)
  step s (emit_message conn_id m now) =
      on_conn s conn_id (λ c. (handle_emit cfg picks_done s c m now).0)
  step s (ack_message conn_id m) =
      on_conn s conn_id (λ c. (handle_event_ack cfg picks_done s c m).0)
  step s (presence_message conn_id m) =
      on_conn s conn_id (λ c. (handle_presence cfg picks_done s c m).0)
  step s (written conn_id) = on_conn s conn_id (λ c. set_conn s (record c { queue = tail c.queue }))

  unfoldable pub run : Service → List Call → Service
  unfolding step
  run s [] = s
  run s (call ∷ calls) = run (step s call) calls

  length-tail : (ms : List Outbound) → length (tail ms) ≤ length ms
  unfolding tail
  length-tail [] = omega arith
  length-tail (m ∷ ms) = omega arith

  on_conn-IsSound :
      (s : Service) (conn_id : String) (handle : ClientConn → Service)
      → IsSound cfg s
      → ((c : ClientConn) → get s.conns conn_id ≡ some c → IsSound cfg (handle c))
      → IsSound cfg (on_conn s conn_id handle)
  unfolding on_conn
  on_conn-IsSound s conn_id handle h k = go (get s.conns conn_id) k
    where
      go :
          (o : Option ClientConn)
          → ((c : ClientConn) → o ≡ some c → IsSound cfg (handle c))
          → IsSound cfg (elim o [ none ↦ s | some c ↦ handle c ])
      go none k = h
      go (some c) k = k c refl

  registered :
      (s : Service) (conn_id : String) (c : ClientConn)
      → IsSound cfg s
      → get s.conns conn_id ≡ some c
      → has s.conns c.id ≡ true
  registered s conn_id c h e =
      subst (λ k. has s.conns k ≡ true) (sym (h.keyed conn_id c e)) (ap is_some e)

  step-IsSound : (s : Service) (call : Call) → IsSound cfg s → IsSound cfg (step s call)
  unfolding step
  step-IsSound s (connected conn_id claims limit) h =
      register_conn-IsSound cfg picks_done s (fresh_conn conn_id claims limit) h (omega arith)
  step-IsSound s (disconnected conn_id) h = unregister_conn-IsSound cfg picks_done s conn_id h
  step-IsSound s (join_message conn_id m) h =
      on_conn-IsSound s conn_id _ h
        (λ c e. handle_join-IsSound cfg picks_done s c m h (registered s conn_id c h e))
  step-IsSound s (leave_message conn_id m) h =
      on_conn-IsSound s conn_id _ h (λ c e. handle_leave-IsSound cfg picks_done s c m h)
  step-IsSound s (emit_message conn_id m now) h =
      on_conn-IsSound s conn_id _ h
        (λ c e. handle_emit-IsSound cfg picks_done s c m now h (h.within conn_id c e))
  step-IsSound s (ack_message conn_id m) h =
      on_conn-IsSound s conn_id _ h (λ c e. handle_event_ack-IsSound cfg picks_done s c m h)
  step-IsSound s (presence_message conn_id m) h =
      on_conn-IsSound s conn_id _ h (λ c e. handle_presence-IsSound cfg picks_done s c m h)
  step-IsSound s (written conn_id) h = on_conn-IsSound s conn_id _ h (λ c e.
      set_conn-IsSound cfg s (record c { queue = tail c.queue })
        (omega (arith, length-tail c.queue, h.within conn_id c e)) h)

  run-from : (s : Service) (calls : List Call) → IsSound cfg s → IsSound cfg (run s calls)
  unfolding run
  run-from s [] h = h
  run-from s (call ∷ calls) h = run-from (step s call) calls (step-IsSound s call h)

  no_service-IsSound : IsSound cfg no_service
  unfolding new
  no_service-IsSound = record {
    engine = new-IsConsistent;
    keyed = λ k c e. ground (arith, get-empty {V = ClientConn} k);
    within = λ k c e. ground (arith, get-empty {V = ClientConn} k);
    members = λ x r member. ground (arith, get_in-empty {V = Unit {0}} r x);
  }

  -- After any sequence of connections, disconnections, joins, leaves, emits, acknowledgements, presence
  -- updates and writes, from an empty service: the engine is consistent, every connection is registered
  -- under its id, no queue is longer than the configured depth, and every member of a room is a registered
  -- connection.
  pub run-IsSound : (calls : List Call) → IsSound cfg (run no_service calls)
  run-IsSound calls = run-from no_service calls no_service-IsSound
