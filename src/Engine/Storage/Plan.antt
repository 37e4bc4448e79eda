-- ===== src/Engine/Storage/Plan.antt =====
-- Storage mutations as events: what is sent to the room and to the other nodes, and what another
-- node does with it. server/internal/roomengine/engine.go.
use open_rtc.Base.{ℕ, String, Bool, true, false, List, if◌then◌else◌, nat_eq, ℤ}
use open_rtc.Cluster.{Bytes, PublishedEvent, PatchOperation}
use open_rtc.Errors.{Result, ok, err, ◌>>=◌}
use open_rtc.Engine.{Engine, StorageMutation, copy, member_ids_locked}
use open_rtc.Engine.Events.{event_storage_update, clone_published_event}
use open_rtc.Engine.Storage.{
  Documents, StorageMutationOptions, clone_storage_mutation, new_storage_mutation,
}
use open_rtc.Engine.Storage.Write.{
  set_storage_mutation, apply_storage_patch_mutation, delete_storage_mutation,
  record_storage_mutation,
}

pub record StorageEventOptions : Type 0 where
  pub origin_node : String
  pub exclude_sender_conn_id : String
  pub sequence : ℕ

pub record StorageFanout : Type 0 where
  pub room : String
  pub update : StorageMutation
  pub sequence : ℕ
  pub target_conn_ids : List String

pub record StorageMutationPlan : Type 0 where
  pub mutation : StorageMutation
  pub fanout : StorageFanout
  pub event : PublishedEvent
  pub duplicate : Bool

pub record StorageMutationEventPlan : Type 0 where
  pub mutation : StorageMutation
  pub event : PublishedEvent

unfoldable pub storage_fanout : Engine → String → StorageMutation → String → StorageFanout
unfolding clone_storage_mutation
storage_fanout e room update exclude_conn_id = record {
  room = room;
  update = clone_storage_mutation update;
  sequence = 0;
  target_conn_ids = member_ids_locked e room exclude_conn_id;
}

unfoldable pub clone_storage_fanout : StorageFanout → StorageFanout
unfolding clone_storage_mutation
clone_storage_fanout fanout = record {
  room = fanout.room;
  update = clone_storage_mutation fanout.update;
  sequence = fanout.sequence;
  target_conn_ids = copy fanout.target_conn_ids;
}

-- The first number unless it is 0.
abbrev pub or_else : ℕ → ℕ → ℕ
or_else a b = if nat_eq a 0 then b else a

unfoldable pub with_event : StorageMutationPlan → PublishedEvent → StorageMutationPlan
unfolding clone_storage_mutation clone_storage_fanout clone_published_event
with_event plan event = record {
  mutation = clone_storage_mutation plan.mutation;
  fanout = record (clone_storage_fanout plan.fanout) {
    sequence = or_else plan.fanout.sequence event.sequence;
  };
  event = clone_published_event event;
  duplicate = plan.duplicate;
}

module _ (docs : Documents) where
  open docs use {marshal_mutation, unmarshal_mutation}

  unfoldable pub new_storage_event :
      String → StorageMutation → StorageEventOptions → Result PublishedEvent
  unfolding clone_storage_mutation
  new_storage_event room update options = do
    payload ← marshal_mutation (clone_storage_mutation update)
    ok (record {
      room = room;
      event = event_storage_update;
      payload = payload;
      exclude_sender_conn_id = options.exclude_sender_conn_id;
      trace_id = "";
      sequence = options.sequence;
      origin_node = options.origin_node;
    })

  unfoldable pub new_storage_mutation_event_plan :
      String
      → String
      → Bytes
      → List PatchOperation
      → StorageMutationOptions
      → StorageEventOptions
      → Result StorageMutationEventPlan
  unfolding new_storage_event new_storage_mutation
  new_storage_mutation_event_plan room kind document operations mutation_options event_options = do
    mutation ← new_storage_mutation kind document operations mutation_options
    event ← new_storage_event room mutation event_options
    ok (record { mutation = clone_storage_mutation mutation; event = event })

  -- StorageMutationPlanWithOptions; StorageMutationPlan is the case of no duplicate.
  unfoldable pub storage_mutation_plan :
      Engine → String → StorageMutation → StorageEventOptions → Bool → Result StorageMutationPlan
  unfolding new_storage_event storage_fanout
  storage_mutation_plan e room update options duplicate = do
    event ← new_storage_event room update options
    ok (record {
      mutation = clone_storage_mutation update;
      fanout = record (storage_fanout e room update options.exclude_sender_conn_id) {
        sequence = or_else options.sequence update.sequence;
      };
      event = event;
      duplicate = duplicate;
    })

  -- The plan of a mutation that was made, or its error; the state is the one that the call left.
  planned :
      String
      → StorageEventOptions
      → Engine × Result (StorageMutation × Bool)
      → Engine × Result StorageMutationPlan
  unfolding storage_mutation_plan
  planned room options (e, made) = (
    e,
    do
      outcome ← made
      storage_mutation_plan e room outcome.0 (record options { sequence = outcome.0.sequence })
          outcome.1,
  )

  unfoldable pub set_storage_mutation_plan :
      Engine
      → String
      → Bytes
      → StorageMutationOptions
      → StorageEventOptions
      → Engine × Result StorageMutationPlan
  unfolding planned
  set_storage_mutation_plan e room document mutation_options event_options =
      planned room event_options (set_storage_mutation docs e room document mutation_options)

  unfoldable pub apply_storage_patch_mutation_plan :
      Engine
      → String
      → List PatchOperation
      → StorageMutationOptions
      → StorageEventOptions
      → Engine × Result StorageMutationPlan
  unfolding planned
  apply_storage_patch_mutation_plan e room operations mutation_options event_options =
      planned room event_options
        (apply_storage_patch_mutation docs e room operations mutation_options)

  unfoldable pub delete_storage_mutation_plan :
      Engine
      → String
      → StorageMutationOptions
      → StorageEventOptions
      → Engine × Result StorageMutationPlan
  unfolding planned
  delete_storage_mutation_plan e room mutation_options event_options =
      planned room event_options (delete_storage_mutation docs e room mutation_options true)

  unfoldable pub record_storage_mutation_plan :
      Engine
      → String
      → String
      → Bytes
      → List PatchOperation
      → StorageMutationOptions
      → StorageEventOptions
      → Engine × Result StorageMutationPlan
  unfolding storage_mutation_plan
  record_storage_mutation_plan e room kind document operations mutation_options event_options =
      let (e', made) =
        record_storage_mutation docs e room kind document operations mutation_options in
      (e', do mutation ← made; storage_mutation_plan e' room mutation event_options false)

  -- The plan with the sequences of the event that it was read from.
  replanned : PublishedEvent → ℕ → StorageMutationPlan → StorageMutationPlan
  replanned event sequence plan = record plan {
    event = record (plan.event) { sequence = event.sequence };
    fanout = record (plan.fanout) { sequence = sequence };
  }

  record_decoded :
      Engine → PublishedEvent → ℤ → StorageMutation → Engine × Result StorageMutationPlan
  unfolding record_storage_mutation_plan replanned
  record_decoded e event max_bytes mutation =
      let sequence = or_else mutation.sequence event.sequence in
      let (e', made) =
        record_storage_mutation_plan e event.room mutation.kind mutation.document
          mutation.operations
          (record {
            max_bytes = max_bytes;
            op_id = mutation.op_id;
            origin_conn_id = mutation.origin_conn_id;
            sequence = sequence;
            expected_sequence = 0;
            expected_sequence_set = false;
          })
          (record {
            origin_node = event.origin_node;
            exclude_sender_conn_id = event.exclude_sender_conn_id;
            sequence = sequence;
          }) in
      (e', do plan ← made; ok (replanned event sequence plan))

  unfoldable pub record_storage_event :
      Engine → PublishedEvent → ℤ → Engine × Result StorageMutationPlan
  unfolding record_decoded
  record_storage_event e event max_bytes = elim (unmarshal_mutation event.payload) [
    | err error ↦ (e, err error)
    | ok mutation ↦ record_decoded e event max_bytes mutation
  ]
