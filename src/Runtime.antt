-- ===== src/Runtime.antt =====
-- The runtime service of server/internal/runtime/service.go, on a node without Redis: `s.store` is nil.
-- The state and the configuration are here; the children have the rate limit (Limiter), the outbound
-- queues and the broadcasts (Queue), the handlers of the messages (Handlers) and the proofs.
pub mod Limiter
pub mod Queue
pub mod Handlers
pub mod Delivery
pub mod Overflow
pub mod Emit
pub mod Safety
pub mod Preserve
pub mod Sequence
use open_rtc.Base.{ℕ, ℤ, String, Bool, Option, List}
use open_rtc.Access.Claims.{Claims}
use open_rtc.Catalog.{Code}
use open_rtc.Cluster.{Bytes}
use open_rtc.Dict.{Dict}
use open_rtc.Engine.{Engine}
use open_rtc.Engine.Page.{SnapshotPage}

-- openrtcerr.APIError
pub record ApiError : Type 0 where
  pub code : Code
  pub message : String
  pub request_id : String

-- What a message carries: the payloads that the handlers build.
pub data Payload : Type 0 where
  nothing : Payload
  api_error : ApiError → Payload
  page : SnapshotPage → Payload
  raw : Bytes → Payload
  -- none: the connection is offline
  presence_state : String → Option Bytes → Payload

pub record Meta : Type 0 where
  pub trace_id : String
  pub seq : ℕ

-- outboundMessage
pub record Outbound : Type 0 where
  pub t : String
  pub id : String
  pub room : String
  pub event : String
  pub payload : Payload
  pub meta : Option Meta

-- emitLimiter
pub record EmitLimiter : Type 0 where
  pub limit : ℕ
  pub window : ℕ
  pub used : ℕ

-- clientConn: `queue` is what `send` holds, oldest first, and `close_code` what the close frame says, 0
-- while the connection is open.
pub record ClientConn : Type 0 where
  pub id : String
  pub claims : Option Claims
  pub queue : List Outbound
  pub closed : Bool
  pub close_code : ℕ
  pub limiter : EmitLimiter

-- The counters of stats.Snapshot that the service keeps.
pub record Counters : Type 0 where
  pub joins_total : ℕ
  pub leaves_total : ℕ
  pub events_total : ℕ
  pub presence_updates_total : ℕ
  pub queue_overflows_total : ℕ

pub record Service : Type 0 where
  pub engine : Engine
  pub conns : Dict ClientConn
  pub counters : Counters

-- The part of config.RuntimeConfig that the handlers read.
pub record RuntimeConfig : Type 0 where
  pub node_id : String
  pub enforce_prefix : Bool
  pub separator : String
  pub rooms_per_connection : ℤ
  pub room_connections : ℤ
  pub outbound_queue_depth : ℕ
