-- ===== src/Engine/Yjs/Documents.antt =====
-- The in-memory YJS documents: storing events, loading, and the frames sent to a new client.
-- server/internal/roomengine/engine.go, and YJSSnapshotHash of server/internal/cluster/redis.go.
pub mod History
use Prim.Native.Nat.{bit_xor, ◌*◌, ◌/◌}
use Prim.Native.String.{slice}
use Prim.Native.String.{◌++◌ as ◌<>◌}
use open_rtc.Base.{
  ℤ, pos, negsuc, ℕ, zero, suc, ◌+◌, ◌-◌, ◌%◌, ◌^◌, ltb, String, Bool, true, false, Option, none,
  some, List, [], ◌∷◌, ◌++◌, if◌then◌else◌, nat_eq, length, map,
}
use open_rtc.Cluster.{Bytes, YjsEvent, YjsDocument}
use open_rtc.Cluster.YjsEventKind
use open_rtc.Dict.{get, put}
use open_rtc.Errors.{Result, ok, err, ◌>>=◌}
use open_rtc.Engine.{Engine, MemoryYjsDocument, copy}
use open_rtc.Engine.Events.{clone_yjs_event}
use open_rtc.Engine.Yjs.{
  PersistenceMode, append_update, store_snapshot, YjsPersistencePlan, new_yjs_persistence_plan,
}

fnv_round : ℕ → ℕ → ℕ
fnv_round hash b = (bit_xor hash b * 0x01000193) % 2 ^ 32

fnv : ℕ → Bytes → ℕ
unfolding fnv_round
fnv hash [] = hash
fnv hash (b ∷ bytes) = fnv (fnv_round hash b) bytes

hex_digit : ℕ → String
hex_digit n = slice "0123456789abcdef" n (n + 1)

-- %0wx for a number below 16 ^ w
hex : ℕ → ℕ → String
unfolding hex_digit
hex zero n = ""
hex (suc w) n = hex w (n / 16) <> hex_digit (n % 16)

unfoldable pub yjs_snapshot_hash : Bytes → String
unfolding fnv hex
yjs_snapshot_hash [] = ""
yjs_snapshot_hash (b ∷ bytes) = hex 8 (fnv 0x811c9dc5 (b ∷ bytes))

abbrev pub empty_yjs_document : MemoryYjsDocument
empty_yjs_document = record {
  snapshot = [];
  snapshot_hash = "";
  snapshot_checkpoint = pos 0;
  updates = [];
  update_sequences = [];
  update_kinds = [];
  next_sequence = pos 0;
}

-- The document of a room, a new one where there is none.
unfoldable pub yjs_doc : Engine → String → MemoryYjsDocument
yjs_doc e room = elim (get e.yjs_docs room) [ none ↦ empty_yjs_document | some doc ↦ doc ]

write_snapshot : MemoryYjsDocument → Bytes → MemoryYjsDocument
write_snapshot doc update = record doc {
  snapshot = copy update;
  snapshot_hash = yjs_snapshot_hash update;
}

-- The end of int64, which goes on with its least number.
abbrev pub int64_end : ℕ
int64_end = 2 ^ 63

-- n++ on int64
next_int64 : ℤ → ℤ
next_int64 (pos n) = if ltb (n + 1) int64_end then pos (n + 1) else negsuc (int64_end - 1)
next_int64 (negsuc zero) = pos 0
next_int64 (negsuc (suc n)) = negsuc n

next_sequence : MemoryYjsDocument → ℤ
unfolding next_int64
next_sequence doc = next_int64 doc.next_sequence

append_to : MemoryYjsDocument → YjsEvent → MemoryYjsDocument
unfolding next_sequence
append_to doc event = record doc {
  next_sequence = next_sequence doc;
  updates = doc.updates ++ (copy event.update ∷ []);
  update_sequences = doc.update_sequences ++ (next_sequence doc ∷ []);
  update_kinds = doc.update_kinds ++ (event.kind ∷ []);
}

-- The document after, and the event that is returned.
store_in : MemoryYjsDocument → YjsEvent → PersistenceMode → MemoryYjsDocument × YjsEvent
unfolding write_snapshot append_to
store_in doc event store_snapshot = (write_snapshot doc event.update, event)
store_in doc event append_update =
    (append_to doc event, record event { sequence = next_sequence doc })

unfoldable pub store_yjs_persistence : Engine → YjsPersistencePlan → Engine × YjsEvent
unfolding store_in yjs_doc clone_yjs_event
store_yjs_persistence e plan =
    let event = clone_yjs_event plan.event in
    let (doc, stored) = store_in (yjs_doc e event.room) event plan.mode in
    (record e { yjs_docs = put e.yjs_docs event.room doc }, stored)

unfoldable pub store_yjs_event : Engine → YjsEvent → Engine × Result YjsEvent
unfolding store_yjs_persistence new_yjs_persistence_plan
store_yjs_event e event = elim (new_yjs_persistence_plan event) [
  | err error ↦ (e, err error)
  | ok plan ↦ let (e', stored) = store_yjs_persistence e plan in (e', ok stored)
]

abbrev pub no_yjs_document : YjsDocument
no_yjs_document = record {
  snapshot = [];
  snapshot_hash = "";
  snapshot_checkpoint = pos 0;
  updates = [];
  update_sequences = [];
  update_kinds = [];
}

abbrev load_from : Option MemoryYjsDocument → YjsDocument
load_from none = no_yjs_document
load_from (some doc) = record {
  snapshot = copy doc.snapshot;
  snapshot_hash = doc.snapshot_hash;
  snapshot_checkpoint = doc.snapshot_checkpoint;
  updates = map copy doc.updates;
  update_sequences = copy doc.update_sequences;
  update_kinds = copy doc.update_kinds;
}

unfoldable pub load_yjs_document : Engine → String → YjsDocument
load_yjs_document e room = load_from (get e.yjs_docs room)

pub record YjsFrame : Type 0 where
  pub kind : ℕ
  pub update : Bytes

-- Every update as a plain update.
plain_frames : List Bytes → List YjsFrame
plain_frames [] = []
plain_frames (update ∷ updates) =
    record { kind = YjsEventKind.update; update = copy update } ∷ plain_frames updates

-- Every update under its own kind; the lists are as long as one another.
unfoldable pub kind_frames : List ℕ → List Bytes → List YjsFrame
kind_frames (kind ∷ kinds) (update ∷ updates) =
    record { kind = kind; update = copy update } ∷ kind_frames kinds updates
kind_frames _ _ = []

unfoldable pub snapshot_frames : Bytes → List YjsFrame
snapshot_frames [] = []
snapshot_frames (b ∷ bytes) =
    record { kind = YjsEventKind.snapshot; update = copy (b ∷ bytes) } ∷ []

unfoldable pub new_yjs_document_frames : YjsDocument → List YjsFrame
unfolding snapshot_frames kind_frames plain_frames
new_yjs_document_frames document =
    snapshot_frames document.snapshot
    ++ (if nat_eq (length document.update_kinds) (length document.updates)
        then kind_frames document.update_kinds document.updates
        else plain_frames document.updates)
