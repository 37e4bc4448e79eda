-- ===== src/Engine/Steps.antt =====
-- Every call that changes the engine, as one step, and sequences of calls in any order, as the
-- service makes them from many connections: server/internal/roomengine/engine.go. A plan may be
-- applied long after it was made, except that of a disconnect, which is one step with its plan.
pub mod Frame
pub mod Reached
use open_rtc.Base.{ℕ, String, Bool, List, [], ◌∷◌, ℤ}
use open_rtc.Cluster.{Bytes, PublishedEvent, PatchOperation, YjsEvent}
use open_rtc.Engine.{Engine, SessionInfo, YjsSessionInfo, PresenceFanout}
use open_rtc.Engine.Membership.{
  JoinLimits, LeavePlan, register_session, join_with_limits, apply_leave_plan, disconnect_session,
}
use open_rtc.Engine.Presence.{set_presence, apply_presence_set_plan, acknowledge_event}
use open_rtc.Engine.Yjs.{register_yjs_session_with_limit, unregister_yjs_conn, YjsPersistencePlan}
use open_rtc.Engine.Yjs.Documents.{store_yjs_persistence}
use open_rtc.Engine.Storage.{Documents, StorageMutationOptions, next_storage_sequence}
use open_rtc.Engine.Storage.Write.{
  set_storage_with_options, set_storage_mutation, apply_storage_patch_with_options,
  apply_storage_patch_mutation, delete_storage_with_options, delete_storage_mutation,
}
use open_rtc.Engine.Storage.Plan.{record_storage_event}

pub data Call : Type 0 where
  register : SessionInfo → Call
  join_room : String → String → JoinLimits → Call
  apply_leave : LeavePlan → Call
  drop_connection : String → String → Call
  presence : String → String → Bytes → Call
  presence_plan : PresenceFanout → Call
  acknowledge : String → String → ℕ → Call
  register_yjs : YjsSessionInfo → ℤ → Call
  unregister_yjs : String → String → Call
  store_yjs : YjsPersistencePlan → Call
  set : String → Bytes → StorageMutationOptions → Call
  set_mutation : String → Bytes → StorageMutationOptions → Call
  patch : String → List PatchOperation → StorageMutationOptions → Call
  patch_mutation : String → List PatchOperation → StorageMutationOptions → Call
  delete : String → StorageMutationOptions → Bool → Call
  delete_mutation : String → StorageMutationOptions → Bool → Call
  next_sequence : String → Call
  record_event : PublishedEvent → ℤ → Call

module _ (docs : Documents) where
  unfoldable pub step : Engine → Call → Engine
  step e (register info) = (register_session e info).0
  step e (join_room conn_id room limits) = (join_with_limits e conn_id room limits).0
  step e (apply_leave plan) = (apply_leave_plan e plan).0
  step e (drop_connection conn_id origin_node) = (disconnect_session e conn_id origin_node).0
  step e (presence conn_id room payload) = set_presence e conn_id room payload
  step e (presence_plan plan) = (apply_presence_set_plan e plan).0
  step e (acknowledge conn_id room sequence) = (acknowledge_event e conn_id room sequence).0
  step e (register_yjs info limit) = (register_yjs_session_with_limit e info limit).0
  step e (unregister_yjs conn_id room) = unregister_yjs_conn e conn_id room
  step e (store_yjs plan) = (store_yjs_persistence e plan).0
  step e (set room document options) = (set_storage_with_options docs e room document options).0
  step e (set_mutation room document options) =
      (set_storage_mutation docs e room document options).0
  step e (patch room operations options) =
      (apply_storage_patch_with_options docs e room operations options).0
  step e (patch_mutation room operations options) =
      (apply_storage_patch_mutation docs e room operations options).0
  step e (delete room options existing) =
      (delete_storage_with_options docs e room options existing).0
  step e (delete_mutation room options existing) =
      (delete_storage_mutation docs e room options existing).0
  step e (next_sequence room) = (next_storage_sequence e room).0
  step e (record_event event max_bytes) = (record_storage_event docs e event max_bytes).0

  unfoldable pub run : Engine → List Call → Engine
  run e [] = e
  run e (call ∷ calls) = run (step e call) calls
