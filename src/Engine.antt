-- ===== src/Engine.antt =====
-- The state of server/internal/roomengine/engine.go and the parts that its methods share. A method
-- that takes the lock is one step on the state; a plan and its application are two steps.
pub mod Invariant
pub mod Events
pub mod Membership
pub mod Presence
pub mod Page
pub mod Yjs
pub mod Activity
pub mod Fanout
pub mod Storage
pub mod Steps
use open_rtc.Base.{
  ℕ, zero, suc, String, Bool, true, false, not, ◌&&◌, Option, none, some, List, [], ◌++◌, ◌==◌,
  if◌then◌else◌, leb, keep, sort_strings, ℤ, pos, negsuc,
}
use open_rtc.Cluster.{Bytes, PresenceEvent, PatchOperation}
use open_rtc.Dict.{Dict, empty, get, keys}
use open_rtc.Dict.Nested.{at, remove_in}

pub record SessionInfo : Type 0 where
  pub conn_id : String
  pub subject : String
  pub tenant : String

pub record YjsSessionInfo : Type 0 where
  pub conn_id : String
  pub subject : String
  pub tenant : String
  pub room : String

pub record MemoryYjsDocument : Type 0 where
  pub snapshot : Bytes
  pub snapshot_hash : String
  pub snapshot_checkpoint : ℤ
  pub updates : List Bytes
  pub update_sequences : List ℤ
  pub update_kinds : List ℕ
  pub next_sequence : ℤ

pub record StorageMutation : Type 0 where
  pub kind : String
  pub op_id : String
  pub origin_conn_id : String
  pub sequence : ℕ
  pub operations : List PatchOperation
  pub document : Bytes

pub record StorageOpRecord : Type 0 where
  pub fingerprint : String
  pub mutation : StorageMutation

-- map[string]struct{}
abbrev pub Names : Type 0
Names = Dict (Unit {0})

pub record Engine : Type 0 where
  pub rooms : Dict Names
  pub conn_rooms : Dict Names
  pub sessions : Dict SessionInfo
  pub presence : Dict (Dict Bytes)
  pub yjs_rooms : Dict Names
  pub yjs_sessions : Dict YjsSessionInfo
  pub yjs_docs : Dict MemoryYjsDocument
  pub storage : Dict Bytes
  pub storage_seq : Dict ℕ
  pub storage_ops : Dict (Dict StorageOpRecord)
  pub event_acks : Dict (Dict ℕ)

unfoldable pub new : Engine
new = record {
  rooms = empty;
  conn_rooms = empty;
  sessions = empty;
  presence = empty;
  yjs_rooms = empty;
  yjs_sessions = empty;
  yjs_docs = empty;
  storage = empty;
  storage_seq = empty;
  storage_ops = empty;
  event_acks = empty;
}

pub record Snapshot : Type 0 where
  pub members : List String
  pub presence : Dict Bytes

-- append(nil, xs...)
abbrev pub copy {ℓ} : {A : Type ℓ} → List A → List A
copy xs = [] ++ xs

pub record MembershipMutation : Type 0 where
  pub kind : String
  pub conn_id : String
  pub room : String

pub record PresenceFanout : Type 0 where
  pub event : PresenceEvent
  pub target_conn_ids : List String

-- The names of a set, without one of them unless that is "", sorted.
unfoldable pub sorted_without : Names → String → List String
sorted_without members exclude =
    sort_strings (keep (λ conn_id. not (not (exclude == "") && conn_id == exclude)) (keys members))

unfoldable pub member_ids_locked : Engine → String → String → List String
unfolding sorted_without
member_ids_locked e room exclude_conn_id = sorted_without (at e.rooms room) exclude_conn_id

unfoldable pub yjs_target_ids_locked : Engine → String → String → List String
unfolding sorted_without
yjs_target_ids_locked e room exclude_conn_id = sorted_without (at e.yjs_rooms room) exclude_conn_id

unfoldable pub snapshot_locked : Engine → String → Snapshot
snapshot_locked e room = record {
  members = sort_strings (keys (at e.rooms room));
  presence = at e.presence room;
}

-- limit > 0 && n >= limit
unfoldable pub reached : ℤ → ℕ → Bool
reached (pos zero) n = false
reached (pos (suc l)) n = leb (suc l) n
reached (negsuc l) n = false

unfoldable pub remove_room_member_locked : Engine → String → String → Engine
remove_room_member_locked e conn_id room = record e { rooms = remove_in e.rooms room conn_id }

unfoldable pub remove_presence_locked : Engine → String → String → Engine
remove_presence_locked e conn_id room = record e { presence = remove_in e.presence room conn_id }

unfoldable pub remove_event_ack_locked : Engine → String → String → Engine
remove_event_ack_locked e conn_id room = record e {
  event_acks = remove_in e.event_acks conn_id room;
}
