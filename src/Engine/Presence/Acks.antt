-- ===== src/Engine/Presence/Acks.antt =====
-- Presence and acknowledgements keep the engine consistent; acknowledgements only grow.
use open_rtc.Base.{
  ℕ, String, ◌≡◌, true, false, not, ◌&&◌, arith, ◌==◌, eq_iff, if◌then◌else◌, nat_eq, ltb,
}
use open_rtc.Cluster.{Bytes}
use open_rtc.Dict.Nested.{has_in, put_in, get_in-put_in, put_in-IsNested, put_in-IsTidy}
use open_rtc.Engine.{Engine, PresenceFanout}
use open_rtc.Engine.Invariant.{IsConsistent}
use open_rtc.Engine.Presence.{
  set_presence_locked, apply_presence_set_plan, acknowledge_event, event_ack_sequence,
}

pub set_presence_locked-IsConsistent :
    (e : Engine) (c r : String) (payload : Bytes)
    → IsConsistent e
    → IsConsistent (set_presence_locked e c r payload)
unfolding set_presence_locked
set_presence_locked-IsConsistent e c r payload h = record {
  rooms_nested = h.rooms_nested;
  rooms_tidy = h.rooms_tidy;
  conn_rooms_nested = h.conn_rooms_nested;
  indexed = h.indexed;
  presence_nested = put_in-IsNested e.presence r c payload h.presence_nested;
  presence_tidy = put_in-IsTidy e.presence r c payload h.presence_tidy;
  acks_nested = h.acks_nested;
  acks_tidy = h.acks_tidy;
  acked = h.acked;
}

pub apply_presence_set_plan-IsConsistent :
    (e : Engine) (plan : PresenceFanout)
    → IsConsistent e
    → IsConsistent (apply_presence_set_plan e plan).0
unfolding apply_presence_set_plan
apply_presence_set_plan-IsConsistent e plan h =
    set_presence_locked-IsConsistent e plan.event.conn_id plan.event.room plan.event.state h

write_ack-IsConsistent :
    (e : Engine) (c r : String) (n : ℕ)
    → has_in e.conn_rooms c r ≡ true
    → IsConsistent e
    → IsConsistent (record e { event_acks = put_in e.event_acks c r n })
write_ack-IsConsistent e c r n joined h = record {
  rooms_nested = h.rooms_nested;
  rooms_tidy = h.rooms_tidy;
  conn_rooms_nested = h.conn_rooms_nested;
  indexed = h.indexed;
  presence_nested = h.presence_nested;
  presence_tidy = h.presence_tidy;
  acks_nested = put_in-IsNested e.event_acks c r n h.acks_nested;
  acks_tidy = put_in-IsTidy e.event_acks c r n h.acks_tidy;
  acked = λ x s a.
      ground
        (arith, get_in-put_in e.event_acks c r n x s, h.acked x s, eq_iff c x, eq_iff r s, joined);
}

-- An acknowledgement keeps the engine consistent, accepted or not.
pub acknowledge_event-IsConsistent :
    (e : Engine) (c r : String) (n : ℕ)
    → IsConsistent e
    → IsConsistent (acknowledge_event e c r n).0
unfolding acknowledge_event
acknowledge_event-IsConsistent e c r n h = ground (arith, write_ack-IsConsistent e c r n)

-- For names that are not empty: an acknowledgement is accepted exactly from a connection that is in
-- the room, for a sequence other
-- than 0. The sequence that is kept is then the greater of the old and the new one; a refused one
-- changes nothing, and no other acknowledgement changes.
pub acknowledge-max :
    (e : Engine) (c r : String) (n : ℕ)
    → (c == "") ≡ false
    → (r == "") ≡ false
    → let f = (acknowledge_event e c r n).0 in
      let accepted = not (nat_eq n 0) && has_in e.conn_rooms c r in
      ((acknowledge_event e c r n).1 ≡ accepted)
      × ((x s : String)
          → event_ack_sequence f x s ≡ (
              if accepted && ((c == x && r == s) && ltb (event_ack_sequence e c r) n)
              then n
              else event_ack_sequence e x s))
unfolding acknowledge_event
acknowledge-max e c r n named roomed = (
  ground arith,
  λ x s. ground (arith, get_in-put_in e.event_acks c r n x s, eq_iff c x, eq_iff r s),
)
