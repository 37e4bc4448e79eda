-- ===== src/Engine/Storage.antt =====
-- The storage document of each room: server/internal/roomengine/engine.go.
-- encoding/json, crypto/sha256 and the document functions of the cluster package are the fields of
-- `Documents`.
pub mod Write
pub mod Laws
pub mod Plan
pub mod Follower
use Prim.Native.Char.{code}
use open_rtc.Base.{
  ℕ, zero, suc, ◌+◌, ◌%◌, ◌<◌, String, ◌≡◌, ◌≢◌, Bool, true, false, not, ◌||◌, ◌&&◌, Option, none,
  some, List, [], ◌∷◌, ◌++◌, ◌==◌, if◌then◌else◌, nat_eq, ltb, leb, length, map, ℤ, pos, negsuc,
}
use open_rtc.Cluster.{Bytes, PublishedEvent, PatchOperation, u64_mod}
use open_rtc.Dict.{get, put, remove}
use open_rtc.Dict.Nested.{get_in, put_in}
use open_rtc.Errors.{
  Error, Result, ok, err, ◌>>=◌, storage_not_found, storage_conflict, storage_patch,
  storage_mutation_kind,
}
use open_rtc.Engine.{Engine, StorageMutation, StorageOpRecord, copy, member_ids_locked}
use open_rtc.Engine.Events.{event_storage_update, clone_published_event}

-- What storage needs of documents. `compact` is json.Compact, `validate` and `apply_patch` are
-- ValidateStorageDocument and ApplyJSONPatch of the cluster package, `sha256_hex` is the
-- hexadecimal SHA-256 sum, and the rest is json.Marshal and json.Unmarshal.
pub record Documents : Type 0 where
  pub compact : Bytes → Result Bytes
  pub validate : Bytes → Result (Unit {0})
  pub apply_patch : Bytes → List PatchOperation → Result Bytes
  pub sha256_hex : Bytes → String
  pub marshal_operations : List PatchOperation → Result Bytes
  pub marshal_mutation : StorageMutation → Result Bytes
  pub unmarshal_mutation : Bytes → Result StorageMutation
  -- a sum has 64 digits
  pub sha256_hex-ne-empty : (b : Bytes) → (sha256_hex b == "") ≡ false

abbrev pub mutation_set : String
mutation_set = "set"

abbrev pub mutation_patch : String
mutation_patch = "patch"

abbrev pub mutation_delete : String
mutation_delete = "delete"

unfoldable pub valid_storage_mutation_kind : String → Bool
valid_storage_mutation_kind kind =
    kind == mutation_set || (kind == mutation_patch || kind == mutation_delete)

pub record StorageMutationOptions : Type 0 where
  pub max_bytes : ℤ
  pub op_id : String
  pub origin_conn_id : String
  pub sequence : ℕ
  pub expected_sequence : ℕ
  pub expected_sequence_set : Bool

-- e.storage[room], nil where it is missing
unfoldable pub document_of : Engine → String → Bytes
document_of e room = elim (get e.storage room) [ none ↦ [] | some document ↦ document ]

unfoldable pub sequence_of : Engine → String → ℕ
sequence_of e room = elim (get e.storage_seq room) [ none ↦ 0 | some sequence ↦ sequence ]

abbrev pub is_nil : Bytes → Bool
is_nil [] = true
is_nil (b ∷ bytes) = false

-- len(document) > maxBytes && maxBytes > 0
unfoldable pub too_long : ℤ → Bytes → Bool
too_long (pos zero) document = false
too_long (pos (suc n)) document = ltb (suc n) (length document)
too_long (negsuc n) document = false

abbrev pub check : Bool → Error → Result (Unit {0})
check true error = err error
check false error = ok tt

-- The sequence that a write gets, after the tests for a conflict. A uint64 wraps.
unfoldable pub write_sequence : StorageMutationOptions → ℕ → Result ℕ
write_sequence options current =
    if options.expected_sequence_set && not (nat_eq current options.expected_sequence)
    then err storage_conflict
    else if ltb 0 options.sequence && leb options.sequence current
    then err storage_conflict
    else ok (if nat_eq options.sequence 0 then (current + 1) % u64_mod else options.sequence)

unfoldable pub write_document : Engine → String → Bytes → ℕ → Engine
write_document e room document sequence = record e {
  storage = put e.storage room (copy document);
  storage_seq = put e.storage_seq room sequence;
}

unfoldable pub delete_document : Engine → String → ℕ → Engine
delete_document e room sequence = record e {
  storage = remove e.storage room;
  storage_seq = put e.storage_seq room sequence;
}

unfoldable pub next_storage_sequence : Engine → String → Engine × ℕ
unfolding sequence_of
next_storage_sequence e room =
    let next = (sequence_of e room + 1) % u64_mod in
    (record e { storage_seq = put e.storage_seq room next }, next)

unfoldable pub clone_storage_operations : List PatchOperation → List PatchOperation
clone_storage_operations operations =
    map {A = PatchOperation} (λ o. record o { value = copy o.value }) operations

unfoldable pub clone_storage_mutation : StorageMutation → StorageMutation
unfolding clone_storage_operations
clone_storage_mutation update = record {
  kind = update.kind;
  op_id = update.op_id;
  origin_conn_id = update.origin_conn_id;
  sequence = update.sequence;
  operations = clone_storage_operations update.operations;
  document = copy update.document;
}

-- newStorageMutation
unfoldable pub storage_mutation :
    String → Bytes → List PatchOperation → StorageMutationOptions → StorageMutation
unfolding clone_storage_operations
storage_mutation kind document operations options = record {
  kind = kind;
  op_id = options.op_id;
  origin_conn_id = options.origin_conn_id;
  sequence = options.sequence;
  operations = clone_storage_operations operations;
  document = copy document;
}

-- NewStorageMutation
unfoldable pub new_storage_mutation :
    String → Bytes → List PatchOperation → StorageMutationOptions → Result StorageMutation
unfolding valid_storage_mutation_kind storage_mutation
new_storage_mutation kind document operations options =
    if valid_storage_mutation_kind kind
    then ok (
        storage_mutation kind (if kind == mutation_delete then [] else document)
          (if kind == mutation_set || kind == mutation_delete then [] else operations) options)
    else err storage_mutation_kind

-- The outcome that is kept for an operation id, if any.
recorded : Option StorageOpRecord → String → Result (Option StorageMutation)
unfolding clone_storage_mutation
recorded none fingerprint = ok none
recorded (some r) fingerprint =
    if r.fingerprint == ""
    then ok none
    else if r.fingerprint == fingerprint
    then ok (some (clone_storage_mutation r.mutation))
    else err storage_conflict

unfoldable pub storage_op_mutation_locked :
    Engine → String → String → String → Result (Option StorageMutation)
unfolding recorded
storage_op_mutation_locked e room op_id fingerprint =
    if op_id == "" then ok none else recorded (get_in e.storage_ops room op_id) fingerprint

unfoldable pub remember_storage_op_locked :
    Engine → String → String → String → StorageMutation → Engine
unfolding clone_storage_mutation
remember_storage_op_locked e room op_id fingerprint mutation = if op_id == "" then e else record e {
  storage_ops =
      put_in e.storage_ops room op_id
        (record { fingerprint = fingerprint; mutation = clone_storage_mutation mutation });
}

-- The bytes of a text; every text here is ASCII.
abbrev pub bytes_of : String → Bytes
bytes_of String.[] = []
bytes_of (String.◌∷◌ c s) = code c ∷ bytes_of s

unfoldable pub get_storage_with_sequence : Engine → String → Result (Bytes × ℕ)
unfolding document_of sequence_of
get_storage_with_sequence e room =
    if is_nil (document_of e room)
    then err storage_not_found
    else ok (copy (document_of e room), sequence_of e room)

unfoldable pub get_storage : Engine → String → Result Bytes
unfolding get_storage_with_sequence
get_storage e room = do found ← get_storage_with_sequence e room; ok found.0
