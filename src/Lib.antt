-- ===== src/Lib.antt =====
-- Verification of the OpenRTC server: the room engine of server/internal/roomengine, the permissions of
-- server/internal/auth, the parser of server/internal/protocol, the configuration of
-- server/internal/config, and the runtime service of server/internal/runtime on a node without a store.
--
-- The server keeps, for every room, its connections, their presence, a YJS document and a storage
-- document. The runtime service reads messages from sockets and calls the engine; the engine changes
-- its maps under one lock and returns plans: what to send to which connections, and what to publish
-- to the other nodes. Events of other nodes reach the engine through the same calls. A message is parsed
-- by the protocol package, its room is checked against the permissions of the token, and its handler
-- calls the engine and puts what the plan says into the queues of the connections.
--
-- The files and what they model, in server/internal/roomengine/engine.go unless it says otherwise:
--   Base: shared names, Boolean tests, Go's order on strings and sort.Strings, lists by length.
--     Base/Text has the functions of Go's strings package that the source uses.
--   Dict, Dict/Nested: a Go map with text keys, and a map of maps with the idioms of the engine
--     (delete the inner map with its last entry, make it on the first write).
--   Errors: the sentinel errors and a result that is a value or an error.
--   Cluster: the message types of server/internal/cluster/redis.go that the engine exchanges.
--   Json, Patch: JSON values, and ApplyJSONPatch of server/internal/cluster/redis.go: pointers, array
--     indices, add, remove, get (Patch) and the operations (Patch/Operations). Patch/Lookup and
--     Patch/Replace have the proofs.
--   StorageDocument: ValidateStorageDocument of server/internal/cluster/redis.go. StorageDocument/Grammar
--     has the rules for a document, StorageDocument/Sound the proof that they are what is checked.
--   Engine: the Engine struct, New, the snapshot, the sorted target lists, the removal helpers.
--   Engine/Invariant: which states are well formed. Engine/Fanout: the target lists.
--   Engine/Membership: RegisterSession, TouchSession, JoinWithLimits, Join, NewLeavePlan,
--     ApplyLeavePlan, Leave, NewDisconnectPlan, ApplyDisconnectPlan, Disconnect. Its children have
--     the proofs: Preserve for the invariant, Join and Leave for what the calls do.
--   Engine/Presence: SetPresence and its plans, EventFanout, NotificationFanout, AcknowledgeEvent.
--   Engine/Activity: the acknowledgement range of a room, RoomActivity, ConnectionsSnapshot.
--   Engine/Page: PageSnapshot, join plans and replay. Engine/Page/Walk reads all pages.
--   Engine/Events: the constructors, copies and kinds of events.
--   Engine/Yjs: YJS sessions and update plans. Engine/Yjs/Documents: StoreYJSEvent,
--     LoadYJSDocument, NewYJSDocumentFrames, and YJSSnapshotHash of cluster/redis.go.
--   Engine/Storage: sequences, operation records. Engine/Storage/Write: set, patch and delete with
--     their options, and the same under an operation id. Engine/Storage/Plan: mutation plans and
--     events. Engine/Storage/Follower: mutations that come from other nodes.
--   Engine/Steps: every call that changes the engine as one step, and sequences of them; what a call
--     does not touch (Frame) and what holds after any sequence (Reached).
--   Access: the claims of a token, rooms and actions, in server/internal/auth/verifier.go and
--     room_permission.go. Access/Claims parses scopes and groups, Access/Rooms decides by scope, tenant
--     and pattern, Access/Records by the record of a room, Access/Keys is the cache of keys.
--     Access/Pattern is Go's path.Match. Tenant, Scope, Groups, Implied and Freshness have the proofs.
--   Catalog: the errors of server/internal/errors/catalog.go that the other parts return.
--   Config: LoadFromMap and the readers of server/internal/config/config.go. Config/Sound has the proofs.
--   Protocol: messages and options of server/internal/protocol/messages.go. Protocol/Names validates
--     names, Protocol/Parse is ParseClientMessage. Shape, Metas, Bodies, Sound and Emit have the proofs.
--   Runtime: the service of server/internal/runtime/service.go: connections, queues, claims, counters.
--     Runtime/Limiter is the limit of calls in a second (authorization.go has the checks of the
--     actions), Runtime/Queue the queues and the broadcasts, Runtime/Handlers what the service does
--     with messages, connections and disconnections. Delivery, Overflow, Emit, Safety, Preserve and
--     Sequence have the proofs.
--   Tests: the theorems applied to small states.
--
-- How the code is read: a method that holds the lock is a function from the state to the state and
-- its result. A plan and its application, which hold the lock one after the other, are two functions.
-- A map is an association list with distinct keys, and the code sorts what it reads off a map. nil
-- and the empty slice are both [], which the code tells apart nowhere but in JSON.
-- int limits are integers. uint64 counters are natural numbers that wrap at 2 ^ 64, and the int64
-- sequences of YJS updates are integers that wrap from 2 ^ 63 - 1 to - 2 ^ 63; the statistics are
-- natural numbers without a bound. Bytes are numbers and texts are ASCII where their bytes matter. Loops are structural recursion; only the
-- reader of pages in Engine/Page/Walk has a bound, the number of pages, which is taken to be at least
-- the number of members.
--
-- Parameters: the record Documents of Engine/Storage stands for encoding/json, the SHA-256 sum and
-- the document functions of the cluster package. All that is assumed of it is that a sum is not the
-- empty text. That two contents have different sums, and that a mutation is read back as it was
-- written, are hypotheses where they are used. Patch/Operations takes the decoder and the encoder of
-- JSON as arguments. The record Decoders of Protocol stands for encoding/json in the parser. The answer
-- of the key server, the decoder of base64, the record of a room, strconv.Atoi, url.Parse, the clock,
-- and the case that Go's select takes when a connection closes are arguments where they are used.
--
-- Not modelled: sockets, goroutines, Redis and every path of the service that needs a store, the
-- service's handlers of storage, YJS and cluster messages, the signatures of tokens, the product store,
-- the admin service, the development server, HTTP and start-up, and the clients.
mod Base
pub mod Access
pub mod Catalog
pub mod Config
pub mod Protocol
pub mod Dict
pub mod Errors
pub mod Cluster
pub mod Json
pub mod Patch
pub mod Engine
pub mod StorageDocument
pub mod Runtime
pub mod Tests
