-- ===== src/Engine/Steps/Reached.antt =====
-- What holds in every state that the engine gets into: server/internal/roomengine/engine.go.
use open_rtc.Base.{List, [], ◌∷◌}
use open_rtc.Engine.{Engine, new}
use open_rtc.Engine.Invariant.{IsConsistent, IsYjsConsistent, new-IsConsistent, new-IsYjsConsistent}
use open_rtc.Engine.Membership.Preserve.{
  join_with_limits-IsConsistent, apply_leave_plan-IsConsistent, disconnect_session-IsConsistent,
}
use open_rtc.Engine.Presence.{set_presence}
use open_rtc.Engine.Presence.Acks.{
  set_presence_locked-IsConsistent, apply_presence_set_plan-IsConsistent,
  acknowledge_event-IsConsistent,
}
use open_rtc.Engine.Yjs.Rooms.{register-IsYjsConsistent, unregister-IsYjsConsistent}
use open_rtc.Engine.Storage.{Documents}
use open_rtc.Engine.Steps.{
  Call, register, join_room, apply_leave, drop_connection, presence, presence_plan, acknowledge,
  register_yjs, unregister_yjs, store_yjs, set, set_mutation, patch, patch_mutation, delete,
  delete_mutation, next_sequence, record_event, step, run,
}
use open_rtc.Engine.Steps.Frame.{
  SameRooms-IsConsistent, SameYjs-IsYjsConsistent, Untouched, register_session-SameRooms,
  register_session-SameYjs, join_with_limits-SameYjs, apply_leave_plan-SameYjs,
  disconnect_session-SameYjs, acknowledge_event-SameYjs, register_yjs-SameRooms,
  set_presence-SameYjs, apply_presence_set_plan-SameYjs, unregister_yjs_conn-SameRooms,
  store_yjs_persistence-Untouched,
}
use open_rtc.Engine.Steps.Frame.Writes.{
  set_storage_with_options-Untouched, set_storage_mutation-Untouched,
  apply_storage_patch_with_options-Untouched, apply_storage_patch_mutation-Untouched,
  delete_storage_with_options-Untouched, delete_storage_mutation-Untouched,
  record_storage_event-Untouched, next_storage_sequence-Untouched,
}

abbrev Both : Engine → Type 0
Both e = IsConsistent e × IsYjsConsistent e

kept : (e f : Engine) → Untouched e f → Both e → Both f
kept e f same h = (SameRooms-IsConsistent e f same.0 h.0, SameYjs-IsYjsConsistent e f same.1 h.1)

module _ (docs : Documents) where
  step-Both : (e : Engine) (call : Call) → Both e → Both (step docs e call)
  unfolding step set_presence
  step-Both e (register info) h =
      kept e _ (register_session-SameRooms e info, register_session-SameYjs e info) h
  step-Both e (join_room c r limits) h = (
    join_with_limits-IsConsistent e c r limits h.0,
    SameYjs-IsYjsConsistent e _ (join_with_limits-SameYjs e c r limits) h.1,
  )
  step-Both e (apply_leave plan) h = (
    apply_leave_plan-IsConsistent e plan h.0,
    SameYjs-IsYjsConsistent e _ (apply_leave_plan-SameYjs e plan) h.1,
  )
  step-Both e (drop_connection c origin) h = (
    disconnect_session-IsConsistent e c origin h.0,
    SameYjs-IsYjsConsistent e _ (disconnect_session-SameYjs e c origin) h.1,
  )
  step-Both e (presence c r payload) h = (
    set_presence_locked-IsConsistent e c r payload h.0,
    SameYjs-IsYjsConsistent e _ (set_presence-SameYjs e c r payload) h.1,
  )
  step-Both e (presence_plan plan) h = (
    apply_presence_set_plan-IsConsistent e plan h.0,
    SameYjs-IsYjsConsistent e _ (apply_presence_set_plan-SameYjs e plan) h.1,
  )
  step-Both e (acknowledge c r n) h = (
    acknowledge_event-IsConsistent e c r n h.0,
    SameYjs-IsYjsConsistent e _ (acknowledge_event-SameYjs e c r n) h.1,
  )
  step-Both e (register_yjs info limit) h = (
    SameRooms-IsConsistent e _ (register_yjs-SameRooms e info limit) h.0,
    register-IsYjsConsistent e info limit h.1,
  )
  step-Both e (unregister_yjs c r) h = (
    SameRooms-IsConsistent e _ (unregister_yjs_conn-SameRooms e c r) h.0,
    unregister-IsYjsConsistent e c r h.1,
  )
  step-Both e (store_yjs plan) h = kept e _ (store_yjs_persistence-Untouched e plan) h
  step-Both e (set r document options) h =
      kept e _ (set_storage_with_options-Untouched docs e r document options) h
  step-Both e (set_mutation r document options) h =
      kept e _ (set_storage_mutation-Untouched docs e r document options) h
  step-Both e (patch r operations options) h =
      kept e _ (apply_storage_patch_with_options-Untouched docs e r operations options) h
  step-Both e (patch_mutation r operations options) h =
      kept e _ (apply_storage_patch_mutation-Untouched docs e r operations options) h
  step-Both e (delete r options existing) h =
      kept e _ (delete_storage_with_options-Untouched docs e r options existing) h
  step-Both e (delete_mutation r options existing) h =
      kept e _ (delete_storage_mutation-Untouched docs e r options existing) h
  step-Both e (next_sequence r) h = kept e _ (next_storage_sequence-Untouched e r) h
  step-Both e (record_event event max_bytes) h =
      kept e _ (record_storage_event-Untouched docs e event max_bytes) h

  run-Both : (e : Engine) (calls : List Call) → Both e → Both (run docs e calls)
  unfolding run
  run-Both e [] h = h
  run-Both e (call ∷ calls) h = run-Both (step docs e call) calls (step-Both e call h)

  -- Whatever calls are made on a new engine, in whatever order, from however many connections, and
  -- with leave and presence plans as old as may be, the engine is consistent in its rooms and in
  -- its YJS rooms after them. A disconnect counts as one call with its plan.
  pub run-IsConsistent :
      (calls : List Call) → IsConsistent (run docs new calls) × IsYjsConsistent (run docs new calls)
  run-IsConsistent calls = run-Both new calls (new-IsConsistent, new-IsYjsConsistent)
