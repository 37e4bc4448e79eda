-- ===== src/Tests/Storage.antt =====
-- Examples of storage writes: server/internal/roomengine/engine.go. The functions of other packages
-- are simple ones: every document is compact and valid, a patch leaves a document as it is, and the
-- sum of a text is as long as the text.
use open_rtc.Base.{
  ℕ, inr, ◌++◌, ◌+◌, ◌<◌, String, ◌≡◌, ◌≢◌, refl, ap, Bool, true, false, List, [], ◌∷◌, arith, ◌==◌,
  pos, eq_iff,
}
use open_rtc.Cluster.{Bytes, PublishedEvent, u64_mod}
use open_rtc.Errors.{ok, err, storage_conflict}
use open_rtc.Engine.{Engine, StorageMutation, new}
use open_rtc.Engine.Invariant.{IsConsistent, IsYjsConsistent}
use open_rtc.Engine.Membership.{new_leave_plan}
use open_rtc.Engine.Storage.Follower.{Update, Content, receive_all}
use open_rtc.Engine.Storage.Follower.Order.{last_writer_wins}
use open_rtc.Engine.Storage.Plan.{StorageEventOptions, new_storage_event, record_storage_event}
use open_rtc.Engine.Storage.Follower.Event.{update_of, record-new_storage_event}
use open_rtc.Engine.Steps.{
  Call, join_room, acknowledge, register_yjs, apply_leave, set_mutation, drop_connection, run,
}
use open_rtc.Engine.Steps.Reached.{run-IsConsistent}
use open_rtc.Tests.Membership.{limits, one_member}
use open_rtc.Tests.Yjs.{session}
use open_rtc.Engine.Storage.{
  Documents, StorageMutationOptions, document_of, sequence_of, write_sequence,
}
use open_rtc.Engine.Storage.Write.{admit, set_storage_with_options}
use open_rtc.Engine.Storage.Write.Swap.{set_storage_swap, no_lost_update}
use open_rtc.Engine.Storage.Write.Once.{set_call, delete_call, mutate, fingerprint_of}
use open_rtc.Engine.Storage.Write.ExactlyOnce.{mutate_all, exactly_once, other_content_refused}

abbrev tally : Bytes → String
tally [] = "#"
tally (b ∷ bytes) = String.◌∷◌ "1" (tally bytes)

abbrev has_sign : String → Bool
has_sign String.[] = false
has_sign (String.◌∷◌ c s) = true

tally-ne-empty : (bytes : Bytes) → (tally bytes == "") ≡ false
tally-ne-empty [] = refl
tally-ne-empty (b ∷ bytes) =
    ground
      (arith, eq_iff (tally (b ∷ bytes)) "", λ (same : tally (b ∷ bytes) ≡ ""). ap has_sign same)

abbrev docs : Documents
docs = record {
  compact = λ document. ok document;
  validate = λ document. ok tt;
  apply_patch = λ document operations. ok document;
  sha256_hex = tally;
  marshal_operations = λ operations. ok [];
  marshal_mutation = λ mutation. ok mutation.document;
  unmarshal_mutation = λ bytes. ok (record {
    kind = "set";
    op_id = "";
    origin_conn_id = "";
    sequence = 5;
    operations = [];
    document = bytes;
  });
  sha256_hex-ne-empty = tally-ne-empty;
}

abbrev options : String → StorageMutationOptions
options op_id = record {
  max_bytes = pos 100;
  op_id = op_id;
  origin_conn_id = "ann";
  sequence = 0;
  expected_sequence = 0;
  expected_sequence_set = false;
}

abbrev expecting : StorageMutationOptions
expecting = record (options "") { expected_sequence_set = true }

abbrev small : Bytes
small = 123 ∷ 125 ∷ []

abbrev large : Bytes
large = 123 ∷ 32 ∷ 125 ∷ []

no_wrap : sequence_of new "r" + 1 < u64_mod
unfolding new sequence_of open_rtc.Dict.get open_rtc.Dict.empty
no_wrap = omega arith

written : (set_storage_with_options docs new "r" small expecting).1 ≡ ok (small, 1)
unfolding new set_storage_with_options admit open_rtc.Engine.Storage.too_long write_sequence
    sequence_of open_rtc.Dict.get open_rtc.Dict.empty
written = refl

set_storage_swap_example : sequence_of new "r" < 1
set_storage_swap_example = (set_storage_swap docs new "r" small expecting small 1 no_wrap written).3

admitted : admit docs large expecting ≡ ok large
unfolding admit open_rtc.Engine.Storage.too_long
admitted = refl

expected_zero : 0 ≡ sequence_of new "r"
unfolding new sequence_of open_rtc.Dict.get open_rtc.Dict.empty
expected_zero = refl

no_lost_update_example :
    let f = (set_storage_with_options docs new "r" small expecting).0 in
    set_storage_with_options docs f "r" large expecting ≡ (f, err storage_conflict)
no_lost_update_example =
    no_lost_update docs new "r" small large expecting expecting small large 1 refl expected_zero
      no_wrap written admitted

abbrev after_write : Engine
after_write = (set_storage_with_options docs new "r" small expecting).0

refused : (set_storage_with_options docs after_write "r" large expecting).1 ≡ err storage_conflict
unfolding new set_storage_with_options admit open_rtc.Engine.Storage.too_long write_sequence
    sequence_of open_rtc.Dict.get open_rtc.Dict.empty open_rtc.Engine.Storage.write_document
    open_rtc.Dict.put
refused = refl

abbrev first : StorageMutation
first = record {
  kind = "set";
  op_id = "op";
  origin_conn_id = "ann";
  sequence = 1;
  operations = [];
  document = small;
}

abbrev after_first : Engine
after_first = (mutate docs new "r" (set_call small) (options "op")).0

fingerprinted :
    fingerprint_of docs (set_call small) (options "op") ≡ ok (tally (115 ∷ 101 ∷ 116 ∷ 0 ∷ small))
unfolding admit open_rtc.Engine.Storage.too_long
    open_rtc.Engine.Storage.Write.storage_document_fingerprint
fingerprinted = refl

fingerprinted_large :
    fingerprint_of docs (set_call large) (options "op") ≡ ok (tally (115 ∷ 101 ∷ 116 ∷ 0 ∷ large))
unfolding admit open_rtc.Engine.Storage.too_long
    open_rtc.Engine.Storage.Write.storage_document_fingerprint
fingerprinted_large = refl

made : mutate docs new "r" (set_call small) (options "op") ≡ (after_first, ok (first, false))
unfolding new open_rtc.Engine.Storage.Write.set_storage_mutation admit
    open_rtc.Engine.Storage.too_long open_rtc.Engine.Storage.Write.once
    open_rtc.Engine.Storage.storage_op_mutation_locked open_rtc.Dict.get open_rtc.Dict.Nested.at
    open_rtc.Dict.empty open_rtc.Engine.Storage.Write.set_once write_sequence
    open_rtc.Engine.Storage.Write.record_op open_rtc.Engine.Storage.storage_mutation sequence_of
made = refl

sums_differ : tally (115 ∷ 101 ∷ 116 ∷ 0 ∷ small) ≢ tally (115 ∷ 101 ∷ 116 ∷ 0 ∷ large)
sums_differ = λ same. ground (
  arith,
  eq_iff (tally (115 ∷ 101 ∷ 116 ∷ 0 ∷ small)) (tally (115 ∷ 101 ∷ 116 ∷ 0 ∷ large)),
  same,
)

-- Another write of the room, and a delete under another id, before the retry.
abbrev between :
    List (String × (open_rtc.Engine.Storage.Write.Once.Call docs × StorageMutationOptions))
between = ("r", (set_call large, options "")) ∷ ("r", (delete_call true, options "other")) ∷ []

exactly_once_example :
    mutate docs (mutate_all docs after_first between) "r" (set_call small) (options "op")
    ≡ (mutate_all docs after_first between, ok (first, true))
exactly_once_example =
    exactly_once docs new after_first "r" (tally (115 ∷ 101 ∷ 116 ∷ 0 ∷ small)) (set_call small)
      (options "op") first between (set_call small) (options "op") refl fingerprinted made refl
      fingerprinted

other_content_refused_example :
    mutate docs (mutate_all docs after_first between) "r" (set_call large) (options "op")
    ≡ (mutate_all docs after_first between, err storage_conflict)
other_content_refused_example =
    other_content_refused docs new after_first "r" (tally (115 ∷ 101 ∷ 116 ∷ 0 ∷ small))
      (tally (115 ∷ 101 ∷ 116 ∷ 0 ∷ large)) (set_call small) (options "op") first between
      (set_call large) (options "op") refl fingerprinted made refl fingerprinted_large sums_differ

-- Updates of another node: the third one arrives before the second one, and twice.
abbrev arriving : ℕ → Bytes → Update
arriving n document = record {
  kind = "set";
  document = document;
  operations = [];
  options = record (options "") { sequence = n };
}

arriving-Content : Content docs (arriving 3 large) large
unfolding admit open_rtc.Engine.Storage.valid_storage_mutation_kind open_rtc.Engine.Storage.too_long
arriving-Content = (refl, inr (refl, refl))

past : sequence_of new "r" < 3
unfolding new sequence_of open_rtc.Dict.get open_rtc.Dict.empty
past = omega arith

last_writer_wins_example :
    let f = receive_all docs new "r" (
      (arriving 1 small ∷ []) ++ (arriving 3 large ∷ (arriving 2 small ∷ arriving 3 large ∷ []))) in
    (document_of f "r" ≡ large) × (sequence_of f "r" ≡ 3)
last_writer_wins_example =
    last_writer_wins docs new "r" (arriving 1 small ∷ []) (arriving 2 small ∷ arriving 3 large ∷ [])
      (arriving 3 large) large arriving-Content past ((omega arith, omega arith), tt)
      ((omega arith, omega arith), ((omega arith, omega arith), tt))

-- A join, an acknowledgement, a YJS session that moves, a leave that was planned before a second
-- join, a write, and a disconnect.
abbrev calls : List Call
calls =
    join_room "ann" "r" limits
    ∷ acknowledge "ann" "r" 4
    ∷ register_yjs (session "r") (pos 2)
    ∷ register_yjs (session "s") (pos 2)
    ∷ apply_leave (new_leave_plan one_member "ann" "r" "node" true)
    ∷ join_room "ann" "s" limits
    ∷ set_mutation "s" small (options "op")
    ∷ drop_connection "ann" "node"
    ∷ []

run-IsConsistent_example : IsConsistent (run docs new calls) × IsYjsConsistent (run docs new calls)
run-IsConsistent_example = run-IsConsistent docs calls

abbrev sent : StorageMutation
sent = record {
  kind = "set";
  op_id = "";
  origin_conn_id = "";
  sequence = 5;
  operations = [];
  document = small;
}

abbrev event_options : StorageEventOptions
event_options = record { origin_node = "node"; exclude_sender_conn_id = "ann"; sequence = 5 }

abbrev sent_event : PublishedEvent
sent_event = record {
  room = "r";
  event = "$openrtc.storage.update";
  payload = small;
  exclude_sender_conn_id = "ann";
  trace_id = "";
  sequence = 5;
  origin_node = "node";
}

decodes :
    (raw : Bytes) → docs.marshal_mutation sent ≡ ok raw → docs.unmarshal_mutation raw ≡ ok sent
decodes raw same = ground (arith, same)

event_made : new_storage_event docs "r" sent event_options ≡ ok sent_event
unfolding new_storage_event
event_made = refl

sent-Content : Content docs (update_of sent 5 (pos 100)) small
unfolding admit open_rtc.Engine.Storage.valid_storage_mutation_kind open_rtc.Engine.Storage.too_long
sent-Content = (refl, inr (refl, refl))

lower : sequence_of new "r" < 5
unfolding new sequence_of open_rtc.Dict.get open_rtc.Dict.empty
lower = omega arith

record-new_storage_event_example :
    let f = (record_storage_event docs new sent_event (pos 100)).0 in
    (document_of f "r" ≡ small) × (sequence_of f "r" ≡ 5)
record-new_storage_event_example =
    record-new_storage_event docs new "r" sent event_options sent_event (pos 100) small decodes
      event_made lower sent-Content
