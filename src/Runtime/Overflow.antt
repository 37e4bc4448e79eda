-- ===== src/Runtime/Overflow.antt =====
-- How a broadcast of server/internal/runtime/service.go ends at a connection with a full queue.
use open_rtc.Base.{
  ◌+◌, ◌≤◌, String, ◌≡◌, refl, ap, ◌∙◌, Bool, true, false, Option, none, some, List, [], ◌∷◌, ◌++◌,
  ◌==◌, arith, eq_iff, eq_refl, if◌then◌else◌, length, contains, contains-append, Distinct,
}
use open_rtc.Catalog.{descriptor_for}
use open_rtc.Dict.{get, get-put}
use open_rtc.Runtime.{Outbound, ClientConn, Service, RuntimeConfig, Counters}
use open_rtc.Runtime.Queue.{set_conn, overflow, close, enqueue_at, deliver, deliver_rest}
use open_rtc.Runtime.Delivery.{Keyed, received, AllReady, Delivered, deliver-Delivered}

Distinct-split :
    (ts : List String) (t : String) (rest : List String)
    → Distinct (ts ++ (t ∷ rest))
    → Distinct ts × (contains ts t ≡ false)
unfolding contains
Distinct-split [] t rest d = (tt, refl)
Distinct-split (u ∷ ts) t rest d =
    let ih = Distinct-split ts t rest d.1 in
    ground (arith, contains-append ts (t ∷ rest) u, eq_iff t u, eq_iff u t, eq_refl u)

deliver_rest-sent :
    (r : Service × Bool) (f : Service → Service × Bool) → r.1 ≡ true → deliver_rest r f ≡ f r.0
deliver_rest-sent (s, true) f h = refl
deliver_rest-sent (s, false) f h = cc

-- A connection that has been closed for its full queue: QUEUE_OVERFLOW has the code 4410.
abbrev pub overflowed : ClientConn → ClientConn
overflowed c = record c { closed = true; close_code = 4410 }

get-overflow :
    (s : Service) (c : ClientConn) (k : String)
    → c.closed ≡ false
    → get (overflow s c).conns k ≡ (if c.id == k then some (overflowed c) else get s.conns k)
unfolding overflow set_conn close descriptor_for
get-overflow s c k up = rw up (get-put s.conns c.id k (overflowed c))

module _ (cfg : RuntimeConfig) (picks_done : ClientConn → Bool) where
  deliver-append :
      (s : Service) (ts us : List String) (message : Outbound)
      → deliver cfg picks_done s (ts ++ us) message
        ≡ deliver_rest
            (deliver cfg picks_done s ts message)
            (λ s'. deliver cfg picks_done s' us message)
  unfolding deliver
  deliver-append s [] us message = refl
  deliver-append s (t ∷ ts) us message =
      go (get s.conns t) (deliver-append s ts us message) (λ s'. deliver-append s' ts us message)
    where
      go :
          (o : Option ClientConn)
          → deliver cfg picks_done s (ts ++ us) message
            ≡ deliver_rest
                (deliver cfg picks_done s ts message)
                (λ s'. deliver cfg picks_done s' us message)
          → ((s' : Service)
              → deliver cfg picks_done s' (ts ++ us) message
                ≡ deliver_rest
                    (deliver cfg picks_done s' ts message)
                    (λ s''. deliver cfg picks_done s'' us message))
          → elim o [
            | none ↦ deliver cfg picks_done s (ts ++ us) message
            | some c ↦
                deliver_rest
                  (enqueue_at cfg picks_done s c message)
                  (λ s'. deliver cfg picks_done s' (ts ++ us) message)
          ]
            ≡ deliver_rest
                (elim o [
                  | none ↦ deliver cfg picks_done s ts message
                  | some c ↦
                      deliver_rest
                        (enqueue_at cfg picks_done s c message)
                        (λ s'. deliver cfg picks_done s' ts message)
                ])
                (λ s'. deliver cfg picks_done s' us message)
      go none skipped later = skipped
      go (some c) skipped later = after (enqueue_at cfg picks_done s c message) later
        where
          after :
              (r : Service × Bool)
              → ((s' : Service)
                  → deliver cfg picks_done s' (ts ++ us) message
                    ≡ deliver_rest
                        (deliver cfg picks_done s' ts message)
                        (λ s''. deliver cfg picks_done s'' us message))
              → deliver_rest r (λ s'. deliver cfg picks_done s' (ts ++ us) message)
                ≡ deliver_rest
                    (deliver_rest r (λ s'. deliver cfg picks_done s' ts message))
                    (λ s'. deliver cfg picks_done s' us message)
          after (s', true) later = later s'
          after (s', false) later = refl

  deliver-full :
      (s : Service) (t : String) (rest : List String) (message : Outbound) (c : ClientConn)
      → get s.conns t ≡ some c
      → c.closed ≡ false
      → cfg.outbound_queue_depth ≤ length c.queue
      → deliver cfg picks_done s (t ∷ rest) message ≡ (overflow s c, false)
  unfolding deliver enqueue_at
  deliver-full s t rest message c e up full =
      rw (e, deliver)
        (ap (λ (r : Service × Bool). deliver_rest r (λ s'. deliver cfg picks_done s' rest message))
          (refused c up full))
    where
      refused :
          (c : ClientConn)
          → c.closed ≡ false
          → cfg.outbound_queue_depth ≤ length c.queue
          → enqueue_at cfg picks_done s c message ≡ (overflow s c, false)
      refused c up full = ground arith

  -- Where the targets are distinct, every connection is registered under its id, and the registered ones
  -- of the first targets are open with room in their queues: a registered target after them that is open
  -- and has a full queue ends the broadcast with an error, whoever comes after it. It is closed with the
  -- code 4410, and the overflow is counted; the targets before it have the message as their last one,
  -- and no other connection changes, so that no target after it gets the message; nor does the engine.
  pub deliver-stops :
      (s : Service) (ts : List String) (t : String) (rest : List String) (message : Outbound)
      (c : ClientConn)
      → Keyed s
      → Distinct (ts ++ (t ∷ rest))
      → AllReady cfg picks_done s ts
      → get s.conns t ≡ some c
      → c.closed ≡ false
      → cfg.outbound_queue_depth ≤ length c.queue
      → let r = deliver cfg picks_done s (ts ++ (t ∷ rest)) message in
        (r.1 ≡ false)
        × ((k : String)
            → get r.0.conns k ≡ (
                if t == k
                then some (overflowed c)
                else if contains ts k
                then received message (get s.conns k)
                else get s.conns k))
        × (r.0.counters
            ≡ record s.counters { queue_overflows_total = s.counters.queue_overflows_total + 1 })
        × (r.0.engine ≡ s.engine)
  unfolding deliver
  deliver-stops s ts t rest message c keyed d ready e up full =
      let (d', fresh) = Distinct-split ts t rest d in
      let before = deliver-Delivered cfg picks_done s ts message keyed d' ready in
      let stop = stopped before fresh in
      (
        ap (λ (r : Service × Bool). r.1) stop,
        (λ k.
            ap (λ (r : Service × Bool). get r.0.conns k) stop
            ∙ after (deliver cfg picks_done s ts message) k before),
        ap (λ (r : Service × Bool). r.0.counters) stop
            ∙ counted (deliver cfg picks_done s ts message) before,
        ap (λ (r : Service × Bool). r.0.engine) stop
            ∙ unfold overflow set_conn in before.same_engine,
      )
    where
      stopped :
          Delivered cfg picks_done s ts message (deliver cfg picks_done s ts message)
          → contains ts t ≡ false
          → deliver cfg picks_done s (ts ++ (t ∷ rest)) message
            ≡ (overflow (deliver cfg picks_done s ts message).0 c, false)
      stopped before fresh =
          deliver-append s ts (t ∷ rest) message
          ∙ (deliver_rest-sent (deliver cfg picks_done s ts message)
                (λ s'. deliver cfg picks_done s' (t ∷ rest) message) before.sent
              ∙ deliver-full (deliver cfg picks_done s ts message).0 t rest message c
                  (ground (arith, before.queues t)) up full)

      after :
          (r : Service × Bool) (k : String)
          → Delivered cfg picks_done s ts message r
          → get (overflow r.0 c).conns k ≡ (
              if t == k
              then some (overflowed c)
              else if contains ts k
              then received message (get s.conns k)
              else get s.conns k)
      after r k before =
          let i = keyed t c e in get-overflow r.0 c k up ∙ ground (arith, before.queues k)

      counted :
          (r : Service × Bool)
          → Delivered cfg picks_done s ts message r
          → (overflow r.0 c).counters
            ≡ record s.counters { queue_overflows_total = s.counters.queue_overflows_total + 1 }
      counted r before =
          unfold overflow set_conn in
          ap (λ (k : Counters). record k { queue_overflows_total = k.queue_overflows_total + 1 })
            before.same_counters
