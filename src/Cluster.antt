-- ===== src/Cluster.antt =====
-- The messages that nodes exchange: the types of server/internal/cluster/redis.go that the room
-- engine builds and reads.
pub mod YjsEventKind
use open_rtc.Base.{ℤ, ℕ, ◌^◌, String, Bool, List}

-- json.RawMessage and []byte; nil and the empty slice are both [].
abbrev pub Bytes : Type 0
Bytes = List ℕ

-- uint64 wraps here.
abbrev pub u64_mod : ℕ
u64_mod = 2 ^ 64

pub record PublishedEvent : Type 0 where
  pub room : String
  pub event : String
  pub payload : Bytes
  pub exclude_sender_conn_id : String
  pub trace_id : String
  pub sequence : ℕ
  pub origin_node : String

pub record PresenceEvent : Type 0 where
  pub room : String
  pub conn_id : String
  pub state : Bytes
  pub offline : Bool
  pub origin_node : String

pub record YjsEvent : Type 0 where
  pub room : String
  pub kind : ℕ
  pub update : Bytes
  pub sequence : ℤ
  pub origin_node : String
  pub origin_conn_id : String

pub record YjsDocument : Type 0 where
  pub snapshot : Bytes
  pub snapshot_hash : String
  pub snapshot_checkpoint : ℤ
  pub updates : List Bytes
  pub update_sequences : List ℤ
  pub update_kinds : List ℕ

-- JSONPatchOperation
pub record PatchOperation : Type 0 where
  pub op : String
  pub path : String
  pub from : String
  pub value : Bytes
