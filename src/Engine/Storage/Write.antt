-- ===== src/Engine/Storage/Write.antt =====
-- Reads and writes of storage with optimistic sequences and operation ids:
-- server/internal/roomengine/engine.go. Each returns the state after and the result; what `do`
-- leaves early leaves the state as it was.
pub mod Swap
pub mod Once
pub mod Retry
pub mod Kept
pub mod ExactlyOnce
use open_rtc.Base.{
  ℕ, String, Bool, true, false, ◌&&◌, Option, none, some, List, [], ◌∷◌, ◌++◌, ◌==◌, if◌then◌else◌,
  ℤ,
}
use open_rtc.Cluster.{Bytes, PatchOperation}
use open_rtc.Errors.{
  Result, ok, err, ◌>>=◌, storage_not_found, storage_patch, storage_mutation_kind,
}
use open_rtc.Engine.{Engine, StorageMutation}
use open_rtc.Engine.Storage.{
  Documents, StorageMutationOptions, mutation_set, mutation_patch, mutation_delete,
  valid_storage_mutation_kind, document_of, sequence_of, is_nil, too_long, check, write_sequence,
  write_document, delete_document, storage_mutation, new_storage_mutation,
  storage_op_mutation_locked, remember_storage_op_locked, bytes_of,
}

-- The state that a call leaves: the new one if the call succeeded.
abbrev pub commit {ℓ} : {A : Type ℓ} → Engine → Result (Engine × A) → Engine × Result A
commit e (err error) = (e, err error)
commit e (ok (e', a)) = (e', ok a)

-- StorageMutationOptions{MaxBytes: maxBytes}
abbrev only_max : ℤ → StorageMutationOptions
only_max max_bytes = record {
  max_bytes = max_bytes;
  op_id = "";
  origin_conn_id = "";
  sequence = 0;
  expected_sequence = 0;
  expected_sequence_set = false;
}

module _ (docs : Documents) where
  open docs use {compact, validate, apply_patch, sha256_hex, marshal_operations}

  unfoldable pub storage_document_fingerprint : String → Bytes → String
  storage_document_fingerprint kind document = sha256_hex (bytes_of kind ++ (0 ∷ document))

  unfoldable pub storage_patch_fingerprint : List PatchOperation → Result String
  storage_patch_fingerprint operations = do
    raw ← marshal_operations operations
    ok (sha256_hex (bytes_of mutation_patch ++ (0 ∷ raw)))

  unfoldable pub storage_delete_fingerprint : String
  storage_delete_fingerprint = sha256_hex (bytes_of mutation_delete ++ (0 ∷ []))

  -- A document that may be stored, in compact form.
  unfoldable pub admit : Bytes → StorageMutationOptions → Result Bytes
  admit document options = do
    compacted ← compact document
    _ ← check (too_long options.max_bytes compacted) storage_patch
    _ ← validate compacted
    ok compacted

  unfoldable pub set_storage_with_options :
      Engine → String → Bytes → StorageMutationOptions → Engine × Result (Bytes × ℕ)
  set_storage_with_options e room document options = commit e do
    compacted ← admit document options
    sequence ← write_sequence options (sequence_of e room)
    ok (write_document e room compacted sequence, (compacted, sequence))

  unfoldable pub set_storage : Engine → String → Bytes → ℤ → Engine × Result Bytes
  unfolding set_storage_with_options
  set_storage e room document max_bytes =
      let (e', written) = set_storage_with_options e room document (only_max max_bytes) in
      (e', do found ← written; ok found.0)

  -- The writes of a mutation, and what is remembered of it.
  unfoldable pub record_op :
      Engine
      → String
      → String
      → StorageMutationOptions
      → ℕ
      → String
      → Bytes
      → List PatchOperation
      → Engine × (StorageMutation × Bool)
  record_op e room fingerprint options sequence kind document operations =
      let mutation =
        storage_mutation kind document operations (record options { sequence = sequence }) in
      (remember_storage_op_locked e room options.op_id fingerprint mutation, (mutation, false))

  -- A mutation under its operation id: the outcome that is remembered, or that of `run`.
  unfoldable pub once :
      Engine
      → String
      → String
      → String
      → Result (Engine × (StorageMutation × Bool))
      → Result (Engine × (StorageMutation × Bool))
  once e room op_id fingerprint run = do
    found ← storage_op_mutation_locked e room op_id fingerprint
    elim found [ none ↦ run | some mutation ↦ ok (e, (mutation, true)) ]

  unfoldable pub set_once :
      Engine
      → String
      → Bytes
      → StorageMutationOptions
      → String
      → Result (Engine × (StorageMutation × Bool))
  set_once e room compacted options fingerprint = do
    sequence ← write_sequence options (sequence_of e room)
    ok (
        record_op (write_document e room compacted sequence) room fingerprint options sequence
          mutation_set compacted [])

  -- setStorageMutation: the mutation, and whether it is a duplicate.
  unfoldable pub set_storage_mutation :
      Engine → String → Bytes → StorageMutationOptions → Engine × Result (StorageMutation × Bool)
  set_storage_mutation e room document options = commit e do
    compacted ← admit document options
    let fingerprint = storage_document_fingerprint mutation_set compacted
    once e room options.op_id fingerprint (set_once e room compacted options fingerprint)

  -- The patched document that may be stored, and its sequence.
  unfoldable pub patched_document :
      Engine → String → List PatchOperation → StorageMutationOptions → Result (Bytes × ℕ)
  patched_document e room operations options = do
    _ ← check (is_nil (document_of e room)) storage_not_found
    sequence ← write_sequence options (sequence_of e room)
    patched ← apply_patch (document_of e room) operations
    _ ← check (too_long options.max_bytes patched) storage_patch
    _ ← validate patched
    ok (patched, sequence)

  unfoldable pub apply_storage_patch_with_options :
      Engine → String → List PatchOperation → StorageMutationOptions → Engine × Result (Bytes × ℕ)
  apply_storage_patch_with_options e room operations options = commit e do
    found ← patched_document e room operations options
    ok (write_document e room found.0 found.1, found)

  unfoldable pub apply_storage_patch :
      Engine → String → List PatchOperation → ℤ → Engine × Result Bytes
  unfolding apply_storage_patch_with_options
  apply_storage_patch e room operations max_bytes =
      let (e', written) = apply_storage_patch_with_options e room operations (only_max max_bytes) in
      (e', do found ← written; ok found.0)

  unfoldable pub patch_once :
      Engine
      → String
      → List PatchOperation
      → StorageMutationOptions
      → String
      → Result (Engine × (StorageMutation × Bool))
  patch_once e room operations options fingerprint = do
    found ← patched_document e room operations options
    ok (
        record_op (write_document e room found.0 found.1) room fingerprint options found.1
          mutation_patch found.0 operations)

  -- applyStoragePatchMutation
  unfoldable pub apply_storage_patch_mutation :
      Engine
      → String
      → List PatchOperation
      → StorageMutationOptions
      → Engine × Result (StorageMutation × Bool)
  apply_storage_patch_mutation e room operations options = commit e do
    fingerprint ← storage_patch_fingerprint operations
    once e room options.op_id fingerprint (patch_once e room operations options fingerprint)

  unfoldable pub delete_storage_with_options :
      Engine → String → StorageMutationOptions → Bool → Engine × Result ℕ
  delete_storage_with_options e room options require_existing = commit e do
    _ ← check (require_existing && is_nil (document_of e room)) storage_not_found
    sequence ← write_sequence options (sequence_of e room)
    ok (delete_document e room sequence, sequence)

  unfoldable pub delete_once :
      Engine
      → String
      → StorageMutationOptions
      → Bool
      → String
      → Result (Engine × (StorageMutation × Bool))
  delete_once e room options require_existing fingerprint = do
    _ ← check (require_existing && is_nil (document_of e room)) storage_not_found
    sequence ← write_sequence options (sequence_of e room)
    ok (
        record_op (delete_document e room sequence) room fingerprint options sequence
          mutation_delete [] [])

  -- deleteStorageMutation
  unfoldable pub delete_storage_mutation :
      Engine → String → StorageMutationOptions → Bool → Engine × Result (StorageMutation × Bool)
  delete_storage_mutation e room options require_existing = commit e (
      once e room options.op_id storage_delete_fingerprint
        (delete_once e room options require_existing storage_delete_fingerprint))

  -- A mutation of another node, kept without the test of an expected sequence.
  unfoldable pub record_storage_mutation :
      Engine
      → String
      → String
      → Bytes
      → List PatchOperation
      → StorageMutationOptions
      → Engine × Result StorageMutation
  record_storage_mutation e room kind document operations options =
      let options' = record options { expected_sequence_set = false } in
      if valid_storage_mutation_kind kind
      then if kind == mutation_delete
        then (let (e', deleted) = delete_storage_with_options e room options' false in
            (
              e',
              do
                sequence ← deleted
                new_storage_mutation mutation_delete [] []
                    (record options' { sequence = sequence }),
            ))
        else (let (e', written) = set_storage_with_options e room document options' in
            (
              e',
              do
                stored ← written
                new_storage_mutation kind stored.0 operations
                    (record options' { sequence = stored.1 }),
            ))
      else (e, err storage_mutation_kind)
