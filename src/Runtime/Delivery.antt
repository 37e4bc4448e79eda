-- ===== src/Runtime/Delivery.antt =====
-- What a broadcast of server/internal/runtime/service.go does to the queues.
use open_rtc.Base.{
  ◌<◌, String, ◌≡◌, refl, Bool, true, false, Option, none, some, List, [], ◌∷◌, ◌++◌, ◌==◌, arith,
  eq_iff, eq_refl, if◌then◌else◌, length, contains, Distinct,
}
use open_rtc.Dict.{get, get-put}
use open_rtc.Runtime.{Outbound, ClientConn, Service, RuntimeConfig}
use open_rtc.Runtime.Queue.{set_conn, enqueue_at, deliver, deliver_rest}

-- Every connection is registered under its id.
abbrev pub Keyed : Service → Type 0
Keyed s = (k : String) (c : ClientConn) → get s.conns k ≡ some c → c.id ≡ k

abbrev pub received : Outbound → Option ClientConn → Option ClientConn
received message none = none
received message (some c) = some (record c { queue = c.queue ++ (message ∷ []) })

pub get-set_conn :
    (s : Service) (c : ClientConn) (k : String)
    → get (set_conn s c).conns k ≡ (if c.id == k then some c else get s.conns k)
unfolding set_conn
get-set_conn s c k = get-put s.conns c.id k c

pub set_conn-Keyed : (s : Service) (c : ClientConn) → Keyed s → Keyed (set_conn s c)
set_conn-Keyed s c h k d e =
    let old = h k d in ground (arith, get-set_conn s c k, eq_iff c.id k, old)

module _ (cfg : RuntimeConfig) (picks_done : ClientConn → Bool) where
  -- An open connection whose queue has room.
  abbrev pub Ready : ClientConn → Type 0
  Ready c = (c.closed ≡ false) × (length c.queue < cfg.outbound_queue_depth)

  abbrev pub AllReady : Service → List String → Type 0
  AllReady s targets =
      (k : String) (c : ClientConn) → contains targets k ≡ true → get s.conns k ≡ some c → Ready c

  -- Everybody in the list has the message as the last one, and nothing else has changed.
  pub record Delivered (s : Service) (targets : List String) (message : Outbound)
      (r : Service × Bool) : Type 0 where
    pub sent : r.1 ≡ true
    pub queues :
        (k : String)
        → get r.0.conns k
          ≡ (if contains targets k then received message (get s.conns k) else get s.conns k)
    pub same_engine : r.0.engine ≡ s.engine
    pub same_counters : r.0.counters ≡ s.counters

  enqueue_at-Ready :
      (s : Service) (c : ClientConn) (message : Outbound)
      → Ready c
      → enqueue_at cfg picks_done s c message
        ≡ (set_conn s (record c { queue = c.queue ++ (message ∷ []) }), true)
  unfolding enqueue_at
  enqueue_at-Ready s c message r = ground arith

  abbrev with_message : Service → ClientConn → Outbound → Service
  with_message s c message = set_conn s (record c { queue = c.queue ++ (message ∷ []) })

  ready_after :
      (s : Service) (t : String) (ts : List String) (message : Outbound) (c : ClientConn)
      → c.id ≡ t
      → contains ts t ≡ false
      → AllReady s ts
      → AllReady (with_message s c message) ts
  ready_after s t ts message c i fresh ready k x m e =
      let old = ready k x in
      ground (
        arith,
        get-set_conn s (record c { queue = c.queue ++ (message ∷ []) }) k,
        eq_iff c.id k,
        old,
      )

  deliver_first :
      (s : Service) (t : String) (ts : List String) (message : Outbound) (c : ClientConn)
      {r : Service × Bool}
      → c.id ≡ t
      → contains ts t ≡ false
      → get s.conns t ≡ some c
      → Delivered (with_message s c message) ts message r
      → Delivered s (t ∷ ts) message r
  unfolding set_conn contains
  deliver_first s t ts message c i fresh e rest = record {
    sent = rest.sent;
    queues = λ k. ground (
      arith,
      rest.queues k,
      get-set_conn s (record c { queue = c.queue ++ (message ∷ []) }) k,
      eq_iff c.id k,
      eq_iff t k,
    );
    same_engine = rest.same_engine;
    same_counters = rest.same_counters;
  }

  -- If every registered target is open and has room, a broadcast sends the message to each of them once, as
  -- the last message of its queue, and changes nothing else.
  pub deliver-Delivered :
      (s : Service) (targets : List String) (message : Outbound)
      → Keyed s
      → Distinct targets
      → AllReady s targets
      → Delivered s targets message (deliver cfg picks_done s targets message)
  unfolding deliver contains
  deliver-Delivered s [] message keyed d ready = record {
    sent = refl;
    queues = λ k. refl;
    same_engine = refl;
    same_counters = refl;
  }
  deliver-Delivered s (t ∷ ts) message keyed d ready =
      go (get s.conns t) refl
        (deliver-Delivered s ts message keyed d.1 (λ k c m e. ready k c (ground arith) e))
        (λ s'. deliver-Delivered s' ts message)
    where
      go :
          (o : Option ClientConn)
          → get s.conns t ≡ o
          → Delivered s ts message (deliver cfg picks_done s ts message)
          → ((s' : Service)
              → Keyed s'
              → Distinct ts
              → AllReady s' ts
              → Delivered s' ts message (deliver cfg picks_done s' ts message))
          → Delivered s (t ∷ ts) message (elim o [
            | none ↦ deliver cfg picks_done s ts message
            | some c ↦
                deliver_rest
                  (enqueue_at cfg picks_done s c message)
                  (λ s'. deliver cfg picks_done s' ts message)
          ])
      go none e rest later = record {
        sent = rest.sent;
        queues = λ k. ground (arith, rest.queues k, eq_iff t k);
        same_engine = rest.same_engine;
        same_counters = rest.same_counters;
      }
      go (some c) e rest later =
          rw (enqueue_at-Ready s c message (ready t c (ground (arith, eq_refl t)) e)) (
            deliver_first s t ts message c (keyed t c e) d.0 e (
              later (with_message s c message)
                (set_conn-Keyed s (record c { queue = c.queue ++ (message ∷ []) }) keyed) d.1
                (ready_after s t ts message c (keyed t c e) d.0
                  (λ k x m f. ready k x (ground arith) f))))
