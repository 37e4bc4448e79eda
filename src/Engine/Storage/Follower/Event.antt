-- ===== src/Engine/Storage/Follower/Event.antt =====
-- A storage event, from the node that made the mutation to a node that records it:
-- server/internal/roomengine/engine.go, NewStorageEvent and RecordStorageEvent.
use open_rtc.Base.{ℕ, ◌<◌, String, ◌≡◌, refl, ap, sym, subst, ◌∙◌, arith, ℤ, false}
use open_rtc.Cluster.{Bytes, PublishedEvent}
use open_rtc.Errors.{ok}
use open_rtc.Engine.{Engine, StorageMutation}
use open_rtc.Engine.Storage.{Documents, document_of, sequence_of}
use open_rtc.Engine.Storage.Plan.{
  StorageEventOptions, or_else, new_storage_event, record_storage_event,
  record_storage_mutation_plan,
}
use open_rtc.Engine.Storage.Write.Once.{clone_self}
use open_rtc.Engine.Storage.Follower.{Update, Content, receive, receive-newer}

-- The update that a recorded mutation is.
abbrev pub update_of : StorageMutation → ℕ → ℤ → Update
update_of m sequence max_bytes = record {
  kind = m.kind;
  document = m.document;
  operations = m.operations;
  options = record {
    max_bytes = max_bytes;
    op_id = m.op_id;
    origin_conn_id = m.origin_conn_id;
    sequence = sequence;
    expected_sequence = 0;
    expected_sequence_set = false;
  };
}

module _ (docs : Documents) where
  recorded-receive :
      (e : Engine) (event : PublishedEvent) (max_bytes : ℤ) (m : StorageMutation)
      → docs.unmarshal_mutation event.payload ≡ ok m
      → (record_storage_event docs e event max_bytes).0
        ≡ receive docs e event.room (update_of m (or_else m.sequence event.sequence) max_bytes)
  unfolding record_storage_event record_storage_mutation_plan
  recorded-receive e event max_bytes m read = rw (read, record_storage_event) refl

  event-payload :
      (room : String) (m : StorageMutation) (options : StorageEventOptions) (event : PublishedEvent)
      → new_storage_event docs room m options ≡ ok event
      → (docs.marshal_mutation m ≡ ok event.payload) × (event.room ≡ room)
  unfolding new_storage_event
  event-payload room m options event made =
      let marshal-clone = ap docs.marshal_mutation (clone_self m) in
      (ground (arith, made, marshal-clone), ground (arith, made))

  -- Where decoding a mutation that was encoded gives it back, for a mutation of a valid kind that is
  -- a delete or has a document that the recording node admits under its limit: an event that is made
  -- of the mutation for a room, when a node whose sequence for that room is lower records it, gives
  -- that node the document in the form in which it is admitted, none for a delete, and the
  -- mutation's sequence.
  pub record-new_storage_event :
      (e : Engine) (room : String) (m : StorageMutation) (options : StorageEventOptions)
      (event : PublishedEvent) (max_bytes : ℤ) (c : Bytes)
      → ((raw : Bytes) → docs.marshal_mutation m ≡ ok raw → docs.unmarshal_mutation raw ≡ ok m)
      → new_storage_event docs room m options ≡ ok event
      → sequence_of e room < m.sequence
      → Content docs (update_of m m.sequence max_bytes) c
      → let f = (record_storage_event docs e event max_bytes).0 in
        (document_of f room ≡ c) × (sequence_of f room ≡ m.sequence)
  record-new_storage_event e room m options event max_bytes c decodes made newer content =
      let (encoded, in_room) = event-payload room m options event made in
      let same : or_else m.sequence event.sequence ≡ m.sequence = ground (arith, newer) in
      let stored =
        recorded-receive e event max_bytes m (decodes event.payload encoded)
        ∙ ap (λ n. receive docs e event.room (update_of m n max_bytes)) same
        ∙ ap (λ r. receive docs e r (update_of m m.sequence max_bytes)) in_room in
      subst (λ f. (document_of f room ≡ c) × (sequence_of f room ≡ m.sequence)) (sym stored)
        (receive-newer docs e room (update_of m m.sequence max_bytes) c newer content)
