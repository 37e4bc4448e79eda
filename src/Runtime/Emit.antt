-- ===== src/Runtime/Emit.antt =====
-- An EMIT message from the client to the members of the room: handleEmit of
-- server/internal/runtime/service.go with EventFanout of server/internal/roomengine/engine.go.
use open_rtc.Base.{
  ℕ, ◌+◌, String, ◌≡◌, refl, ap, ◌∙◌, Bool, true, Option, some, List, ◌==◌, arith, eq_iff,
  if◌then◌else◌,
}
use open_rtc.Cluster.{PublishedEvent}
use open_rtc.Dict.{get}
use open_rtc.Dict.Nested.{has_in}
use open_rtc.Engine.{member_ids_locked}
use open_rtc.Engine.Events.{new_event, clone_published_event}
use open_rtc.Engine.Fanout.{contains-member_ids, member_ids_exact}
use open_rtc.Engine.Invariant.{IsConsistent}
use open_rtc.Engine.Presence.{event_fanout}
use open_rtc.Protocol.{Message}
use open_rtc.Runtime.{ClientConn, Counters, Service, RuntimeConfig}
use open_rtc.Runtime.Limiter.{allow}
use open_rtc.Runtime.Queue.{set_conn, count_event, deliver, event_outbound_message, broadcast_event}
use open_rtc.Runtime.Handlers.{may, emitted, handle_emit}
use open_rtc.Runtime.Delivery.{
  Keyed, received, AllReady, get-set_conn, set_conn-Keyed, deliver-Delivered,
}

module _ (cfg : RuntimeConfig) (picks_done : ClientConn → Bool) where
  abbrev limited : ClientConn → ℕ → ClientConn
  limited c now = record c { limiter = (allow c.limiter now).0 }

  -- The connections after the limiter of the sender has counted the message.
  abbrev pub counted_conn : Service → ClientConn → ℕ → String → Option ClientConn
  counted_conn s c now k =
      if c.id == k then some (record c { limiter = (allow c.limiter now).0 }) else get s.conns k

  ready_limited :
      (s : Service) (c : ClientConn) (now : ℕ) (targets : List String)
      → get s.conns c.id ≡ some c
      → AllReady cfg picks_done s targets
      → AllReady cfg picks_done (set_conn s (limited c now)) targets
  ready_limited s c now targets e ready k x m f =
      let old = ready k x m in
      let sender = ready k c m in
      ground (arith, get-set_conn s (limited c now) k, eq_iff c.id k, old, sender)

  counted :
      (s : Service) (event : PublishedEvent)
      → (deliver cfg picks_done s
          (member_ids_locked s.engine event.room event.exclude_sender_conn_id)
          (event_outbound_message event)).1
        ≡ true
      → broadcast_event cfg picks_done s event true ≡ (
        count_event
            (deliver cfg picks_done s
              (member_ids_locked s.engine event.room event.exclude_sender_conn_id)
              (event_outbound_message event)).0,
        true,
      )
  unfolding broadcast_event event_fanout clone_published_event
  counted s event h = rw h refl

  sent_emit :
      (s : Service) (c : ClientConn) (m : Message) (now : ℕ)
      → may cfg c "publish" m.room ≡ true
      → (allow c.limiter now).1 ≡ true
      → handle_emit cfg picks_done s c m now
        ≡ broadcast_event cfg picks_done (set_conn s (limited c now)) (emitted cfg m) true
  unfolding handle_emit
  sent_emit s c m now permitted allowed = rw (permitted, allowed) refl

  -- A permitted EMIT within the rate limit, in a room all of whose members are open and have room in their
  -- queues, succeeds: exactly the members of the room, the sender included if it is one, have the event
  -- as the last message of their queues; no other queue and nothing of the engine changes, and the event is
  -- counted once.
  pub emit_reaches :
      (s : Service) (c : ClientConn) (m : Message) (now : ℕ)
      → IsConsistent s.engine
      → Keyed s
      → get s.conns c.id ≡ some c
      → may cfg c "publish" m.room ≡ true
      → (allow c.limiter now).1 ≡ true
      → AllReady cfg picks_done s (member_ids_locked s.engine m.room "")
      → let r = handle_emit cfg picks_done s c m now in
        (r.1 ≡ true)
        × (r.0.engine ≡ s.engine)
        × (r.0.counters.events_total ≡ s.counters.events_total + 1)
        × ((k : String)
            → get r.0.conns k ≡ (
                if has_in s.engine.rooms m.room k
                then received (event_outbound_message (emitted cfg m)) (counted_conn s c now k)
                else counted_conn s c now k))
  unfolding emitted set_conn count_event new_event
  emit_reaches s c m now h keyed e permitted allowed ready =
      let s' = set_conn s (limited c now) in
      let members = member_ids_locked s.engine m.room "" in
      let done =
        deliver-Delivered cfg picks_done s' members (event_outbound_message (emitted cfg m))
          (set_conn-Keyed s (limited c now) keyed) (member_ids_exact s.engine m.room "" h).1
          (ready_limited s c now members e ready) in
      let all = sent_emit s c m now permitted allowed ∙ counted s' (emitted cfg m) done.sent in
      (
        ap (λ (r : Service × Bool). r.1) all,
        ap (λ (r : Service × Bool). r.0.engine) all ∙ done.same_engine,
        ap (λ (r : Service × Bool). r.0.counters.events_total) all
            ∙ ap (λ (t : Counters). t.events_total + 1) done.same_counters,
        λ k.
            ap (λ (r : Service × Bool). get r.0.conns k) all
            ∙ (done.queues k
                ∙ (ap
                      (λ (b : Bool).
                        if b
                        then received (event_outbound_message (emitted cfg m)) (get s'.conns k)
                        else get s'.conns k)
                      (contains-member_ids s.engine m.room "" k)
                    ∙ ap
                        (λ (o : Option ClientConn).
                          if has_in s.engine.rooms m.room k
                          then received (event_outbound_message (emitted cfg m)) o
                          else o)
                        (get-set_conn s (limited c now) k))),
      )
