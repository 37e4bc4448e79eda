-- ===== src/Engine/Steps/Frame/Writes.antt =====
-- Storage calls touch the storage maps only: server/internal/roomengine/engine.go.
use open_rtc.Engine.Storage.Write.Swap.{set_storage-ok}
use open_rtc.Base.{
  ℕ, String, ◌≡◌, refl, sym, subst, Bool, false, Bool-cases, inl, inr, Option, none, some, List, [],
  ◌==◌, arith, ℤ,
}
use open_rtc.Cluster.{Bytes, PublishedEvent, PatchOperation}
use open_rtc.Errors.{Result, ok, err}
use open_rtc.Engine.{Engine, StorageMutation}
use open_rtc.Engine.Steps.Frame.{Untouched, Untouched-refl}
use open_rtc.Engine.Storage.{
  Documents, StorageMutationOptions, write_document, delete_document, remember_storage_op_locked,
  storage_op_mutation_locked, next_storage_sequence, write_sequence, sequence_of, storage_mutation,
  mutation_set, mutation_patch, mutation_delete, valid_storage_mutation_kind,
}
use open_rtc.Engine.Storage.Write.{
  commit, record_op, once, set_once, patch_once, delete_once, set_storage_with_options,
  set_storage_mutation, apply_storage_patch_with_options, apply_storage_patch_mutation,
  delete_storage_with_options, delete_storage_mutation, record_storage_mutation, admit,
  patched_document, storage_document_fingerprint, storage_patch_fingerprint,
  storage_delete_fingerprint,
}
use open_rtc.Engine.Storage.Plan.{record_storage_event, record_storage_mutation_plan}

write_document-Untouched :
    (e : Engine) (room : String) (document : Bytes) (n : ℕ)
    → Untouched e (write_document e room document n)
unfolding write_document
write_document-Untouched e room document n = (
  record { rooms_same = refl; conn_rooms_same = refl; presence_same = refl; acks_same = refl },
  record { yjs_rooms_same = refl; yjs_sessions_same = refl },
)

delete_document-Untouched :
    (e : Engine) (room : String) (n : ℕ) → Untouched e (delete_document e room n)
unfolding delete_document
delete_document-Untouched e room n = (
  record { rooms_same = refl; conn_rooms_same = refl; presence_same = refl; acks_same = refl },
  record { yjs_rooms_same = refl; yjs_sessions_same = refl },
)

remember-Untouched :
    (e f : Engine) (room op mark : String) (m : StorageMutation)
    → Untouched e f
    → Untouched e (remember_storage_op_locked f room op mark m)
unfolding remember_storage_op_locked
remember-Untouched e f room op mark m h =
    let rooms = h.0 in
    let yjs = h.1 in
    (
      record {
        rooms_same = ground (arith, rooms.rooms_same);
        conn_rooms_same = ground (arith, rooms.conn_rooms_same);
        presence_same = ground (arith, rooms.presence_same);
        acks_same = ground (arith, rooms.acks_same);
      },
      record {
        yjs_rooms_same = ground (arith, yjs.yjs_rooms_same);
        yjs_sessions_same = ground (arith, yjs.yjs_sessions_same);
      },
    )

module _ (docs : Documents) where
  once-Untouched :
      (e : Engine) (room op mark : String) (r : Result (Engine × (StorageMutation × Bool)))
      → ((f : Engine) (x : StorageMutation × Bool) → r ≡ ok (f, x) → Untouched e f)
      → Untouched e (commit e (once docs e room op mark r)).0
  unfolding once
  once-Untouched e room op mark r keeps = go (storage_op_mutation_locked e room op mark) refl
    where
      carried :
          (result : Result (Engine × (StorageMutation × Bool)))
          → r ≡ result
          → Untouched e (commit e result).0
      carried (ok (f, x)) ran = keeps f x ran
      carried (err error) ran = Untouched-refl e

      go :
          (found : Result (Option StorageMutation))
          → storage_op_mutation_locked e room op mark ≡ found
          → Untouched e (commit e (once docs e room op mark r)).0
      go (err error) found = rw (found, once) (Untouched-refl e)
      go (ok (some n)) found = rw (found, once) (Untouched-refl e)
      go (ok none) found = rw (found, once) (carried r refl)

  pub set_storage_with_options-Untouched :
      (e : Engine) (room : String) (document : Bytes) (options : StorageMutationOptions)
      → Untouched e (set_storage_with_options docs e room document options).0
  unfolding set_storage_with_options
  set_storage_with_options-Untouched e room document options =
      go (set_storage_with_options docs e room document options).1 refl
    where
      go :
          (result : Result (Bytes × ℕ))
          → (set_storage_with_options docs e room document options).1 ≡ result
          → Untouched e (set_storage_with_options docs e room document options).0
      go (ok (c, n)) k =
          subst (Untouched e) (sym (set_storage-ok docs e room document options c n k).2)
            (write_document-Untouched e room c n)
      go (err error) k = subst (Untouched e) (ground (arith, k)) (Untouched-refl e)

  pub apply_storage_patch_with_options-Untouched :
      (e : Engine) (room : String) (operations : List PatchOperation)
      (options : StorageMutationOptions)
      → Untouched e (apply_storage_patch_with_options docs e room operations options).0
  unfolding apply_storage_patch_with_options
  apply_storage_patch_with_options-Untouched e room operations options =
      go (patched_document docs e room operations options) refl
    where
      go :
          (found : Result (Bytes × ℕ))
          → patched_document docs e room operations options ≡ found
          → Untouched e (apply_storage_patch_with_options docs e room operations options).0
      go (err error) k = rw (k, apply_storage_patch_with_options) (Untouched-refl e)
      go (ok (c, n)) k =
          rw (k, apply_storage_patch_with_options) (write_document-Untouched e room c n)

  pub delete_storage_with_options-Untouched :
      (e : Engine) (room : String) (options : StorageMutationOptions) (existing : Bool)
      → Untouched e (delete_storage_with_options docs e room options existing).0
  unfolding delete_storage_with_options
  delete_storage_with_options-Untouched e room options existing =
      go (delete_storage_with_options docs e room options existing).1 refl
    where
      go :
          (result : Result ℕ)
          → (delete_storage_with_options docs e room options existing).1 ≡ result
          → Untouched e (delete_storage_with_options docs e room options existing).0
      go (ok n) k = subst (Untouched e) (ground (arith, k)) (delete_document-Untouched e room n)
      go (err error) k = subst (Untouched e) (ground (arith, k)) (Untouched-refl e)

  set_once-Untouched :
      (e : Engine) (room : String) (c : Bytes) (options : StorageMutationOptions) (mark : String)
      (f : Engine) (x : StorageMutation × Bool)
      → set_once docs e room c options mark ≡ ok (f, x)
      → Untouched e f
  unfolding set_once record_op
  set_once-Untouched e room c options mark f x ran =
      go (write_sequence options (sequence_of e room)) refl
    where
      go : (n : Result ℕ) → write_sequence options (sequence_of e room) ≡ n → Untouched e f
      go (err error) k = ground (arith, ran, k)
      go (ok n) k = subst (Untouched e) (ground (arith, ran, k)) (
          remember-Untouched e (write_document e room c n) room options.op_id mark
            (storage_mutation mutation_set c [] (record options { sequence = n }))
            (write_document-Untouched e room c n))

  patch_once-Untouched :
      (e : Engine) (room : String) (operations : List PatchOperation)
      (options : StorageMutationOptions) (mark : String) (f : Engine) (x : StorageMutation × Bool)
      → patch_once docs e room operations options mark ≡ ok (f, x)
      → Untouched e f
  unfolding patch_once record_op
  patch_once-Untouched e room operations options mark f x ran =
      go (patched_document docs e room operations options) refl
    where
      go :
          (found : Result (Bytes × ℕ))
          → patched_document docs e room operations options ≡ found
          → Untouched e f
      go (err error) k = ground (arith, ran, k)
      go (ok (c, n)) k = subst (Untouched e) (ground (arith, ran, k)) (
          remember-Untouched e (write_document e room c n) room options.op_id mark
            (storage_mutation mutation_patch c operations (record options { sequence = n }))
            (write_document-Untouched e room c n))

  delete_once-Untouched :
      (e : Engine) (room : String) (options : StorageMutationOptions) (existing : Bool)
      (mark : String) (f : Engine) (x : StorageMutation × Bool)
      → delete_once docs e room options existing mark ≡ ok (f, x)
      → Untouched e f
  unfolding delete_once record_op
  delete_once-Untouched e room options existing mark f x ran =
      go (write_sequence options (sequence_of e room)) refl
    where
      go : (n : Result ℕ) → write_sequence options (sequence_of e room) ≡ n → Untouched e f
      go (err error) k = ground (arith, ran, k)
      go (ok n) k = subst (Untouched e) (ground (arith, ran, k)) (
          remember-Untouched e (delete_document e room n) room options.op_id mark
            (storage_mutation mutation_delete [] [] (record options { sequence = n }))
            (delete_document-Untouched e room n))

  pub set_storage_mutation-Untouched :
      (e : Engine) (room : String) (document : Bytes) (options : StorageMutationOptions)
      → Untouched e (set_storage_mutation docs e room document options).0
  unfolding set_storage_mutation
  set_storage_mutation-Untouched e room document options = go (admit docs document options) refl
    where
      go :
          (c : Result Bytes)
          → admit docs document options ≡ c
          → Untouched e (set_storage_mutation docs e room document options).0
      go (err error) k = rw (k, set_storage_mutation) (Untouched-refl e)
      go (ok c) k =
          let mark = storage_document_fingerprint docs mutation_set c in
          rw (k, set_storage_mutation)
            (once-Untouched e room options.op_id mark (set_once docs e room c options mark)
              (set_once-Untouched e room c options mark))

  pub apply_storage_patch_mutation-Untouched :
      (e : Engine) (room : String) (operations : List PatchOperation)
      (options : StorageMutationOptions)
      → Untouched e (apply_storage_patch_mutation docs e room operations options).0
  unfolding apply_storage_patch_mutation
  apply_storage_patch_mutation-Untouched e room operations options =
      go (storage_patch_fingerprint docs operations) refl
    where
      go :
          (p : Result String)
          → storage_patch_fingerprint docs operations ≡ p
          → Untouched e (apply_storage_patch_mutation docs e room operations options).0
      go (err error) k = rw (k, apply_storage_patch_mutation) (Untouched-refl e)
      go (ok mark) k =
          rw (k, apply_storage_patch_mutation)
            (once-Untouched e room options.op_id mark
              (patch_once docs e room operations options mark)
              (patch_once-Untouched e room operations options mark))

  pub delete_storage_mutation-Untouched :
      (e : Engine) (room : String) (options : StorageMutationOptions) (existing : Bool)
      → Untouched e (delete_storage_mutation docs e room options existing).0
  unfolding delete_storage_mutation
  delete_storage_mutation-Untouched e room options existing =
      let mark = storage_delete_fingerprint docs in
      once-Untouched e room options.op_id mark (delete_once docs e room options existing mark)
        (delete_once-Untouched e room options existing mark)

  record_storage_mutation-Untouched :
      (e : Engine) (room kind : String) (document : Bytes) (operations : List PatchOperation)
      (options : StorageMutationOptions)
      → Untouched e (record_storage_mutation docs e room kind document operations options).0
  unfolding record_storage_mutation
  record_storage_mutation-Untouched e room kind document operations options =
      let plain = record options { expected_sequence_set = false } in
      elim (Bool-cases (valid_storage_mutation_kind kind)) [
        | inr bad ↦ rw (bad, record_storage_mutation) (Untouched-refl e)
        | inl fine ↦ elim (Bool-cases (kind == mutation_delete)) [
          | inl gone ↦
              rw (fine, gone, record_storage_mutation)
                (delete_storage_with_options-Untouched e room plain false)
          | inr here ↦
              rw (fine, here, record_storage_mutation)
                (set_storage_with_options-Untouched e room document plain)
        ]
      ]

  pub record_storage_event-Untouched :
      (e : Engine) (event : PublishedEvent) (max_bytes : ℤ)
      → Untouched e (record_storage_event docs e event max_bytes).0
  unfolding record_storage_event record_storage_mutation_plan
  record_storage_event-Untouched e event max_bytes = go (docs.unmarshal_mutation event.payload) refl
    where
      go :
          (found : Result StorageMutation)
          → docs.unmarshal_mutation event.payload ≡ found
          → Untouched e (record_storage_event docs e event max_bytes).0
      go (err error) k = rw (k, record_storage_event) (Untouched-refl e)
      go (ok mutation) k =
          rw (k, record_storage_event)
            (record_storage_mutation-Untouched e event.room mutation.kind mutation.document
              mutation.operations _)

pub next_storage_sequence-Untouched :
    (e : Engine) (room : String) → Untouched e (next_storage_sequence e room).0
unfolding next_storage_sequence
next_storage_sequence-Untouched e room = (
  record { rooms_same = refl; conn_rooms_same = refl; presence_same = refl; acks_same = refl },
  record { yjs_rooms_same = refl; yjs_sessions_same = refl },
)
