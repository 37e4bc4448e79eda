-- ===== src/Engine/Storage/Write/Kept.antt =====
-- A mutation under an operation id leaves its outcome with the state.
use open_rtc.Base.{
  ℕ, String, ◌≡◌, refl, ap, subst, Bool, false, ◌&&◌, Option, none, some, List, [], ◌∷◌, ◌++◌,
  arith, ◌==◌, eq_refl, Bool-cases, inl, inr,
}
use open_rtc.Cluster.{Bytes, PatchOperation}
use open_rtc.Dict.Nested.{get_in-put_in}
use open_rtc.Errors.{Result, ok, err}
use open_rtc.Engine.{Engine, StorageMutation}
use open_rtc.Engine.Storage.{
  Documents, StorageMutationOptions, storage_op_mutation_locked, remember_storage_op_locked,
  storage_mutation, write_sequence, sequence_of, document_of, is_nil, write_document,
  delete_document, mutation_set, mutation_patch, mutation_delete, bytes_of, clone_storage_mutation,
}
use open_rtc.Engine.Storage.Write.{
  admit, commit, once, set_once, patch_once, delete_once, record_op, set_storage_mutation,
  apply_storage_patch_mutation, delete_storage_mutation, storage_document_fingerprint,
  storage_patch_fingerprint, storage_delete_fingerprint, patched_document,
}
use open_rtc.Engine.Storage.Write.Once.{
  Remembers, clone_self, Call, set_call, patch_call, delete_call, mutate, fingerprint_of,
}

module _ (docs : Documents) where
  -- The outcome of a write under an id is kept with the state that it leaves.
  abbrev Keeps : String → String → String → Result (Engine × (StorageMutation × Bool)) → Type 0
  Keeps room op mark (err error) = Unit
  Keeps room op mark (ok (f, (m, duplicate))) = Remembers f room op mark m

  record_op-Keeps :
      (e : Engine) (room mark : String) (options : StorageMutationOptions) (n : ℕ) (kind : String)
      (document : Bytes) (operations : List PatchOperation)
      → (options.op_id == "") ≡ false
      → (mark == "") ≡ false
      → Keeps room options.op_id mark
          (ok (record_op docs e room mark options n kind document operations))
  unfolding record_op remember_storage_op_locked storage_mutation
  record_op-Keeps e room mark options n kind document operations named marked =
      let m = storage_mutation kind document operations (record options { sequence = n }) in
      record {
        named = named;
        marked = marked;
        kept = ground (
          arith,
          named,
          get_in-put_in e.storage_ops room options.op_id
              (record { fingerprint = mark; mutation = clone_storage_mutation m }) room
              options.op_id,
          clone_self m,
          eq_refl room,
          eq_refl options.op_id,
        );
      }

  set_once-Keeps :
      (e : Engine) (room : String) (c : Bytes) (options : StorageMutationOptions) (mark : String)
      → (options.op_id == "") ≡ false
      → (mark == "") ≡ false
      → Keeps room options.op_id mark (set_once docs e room c options mark)
  unfolding set_once
  set_once-Keeps e room c options mark named marked =
      go (write_sequence options (sequence_of e room)) refl
    where
      go :
          (n : Result ℕ)
          → write_sequence options (sequence_of e room) ≡ n
          → Keeps room options.op_id mark (set_once docs e room c options mark)
      go (err error) k = rw (k, set_once) tt
      go (ok n) k =
          rw (k, set_once)
            (record_op-Keeps (write_document e room c n) room mark options n mutation_set c [] named
              marked)

  patch_once-Keeps :
      (e : Engine) (room : String) (operations : List PatchOperation)
      (options : StorageMutationOptions) (mark : String)
      → (options.op_id == "") ≡ false
      → (mark == "") ≡ false
      → Keeps room options.op_id mark (patch_once docs e room operations options mark)
  unfolding patch_once
  patch_once-Keeps e room operations options mark named marked =
      go (patched_document docs e room operations options) refl
    where
      go :
          (found : Result (Bytes × ℕ))
          → patched_document docs e room operations options ≡ found
          → Keeps room options.op_id mark (patch_once docs e room operations options mark)
      go (err error) k = rw (k, patch_once) tt
      go (ok (document, n)) k =
          rw (k, patch_once)
            (record_op-Keeps (write_document e room document n) room mark options n mutation_patch
              document operations named marked)

  delete_once-Keeps :
      (e : Engine) (room : String) (options : StorageMutationOptions) (existing : Bool)
      (mark : String)
      → (options.op_id == "") ≡ false
      → (mark == "") ≡ false
      → Keeps room options.op_id mark (delete_once docs e room options existing mark)
  unfolding delete_once
  delete_once-Keeps e room options existing mark named marked =
      elim (Bool-cases (existing && is_nil (document_of e room))) [
        | inl missing ↦ rw (missing, delete_once) tt
        | inr found ↦ go found (write_sequence options (sequence_of e room)) refl
      ]
    where
      go :
          (existing && is_nil (document_of e room)) ≡ false
          → (n : Result ℕ) → write_sequence options (sequence_of e room) ≡ n
          → Keeps room options.op_id mark (delete_once docs e room options existing mark)
      go found (err error) k = rw (found, k, delete_once) tt
      go found (ok n) k =
          rw (found, k, delete_once)
            (record_op-Keeps (delete_document e room n) room mark options n mutation_delete [] []
              named marked)

  -- An outcome that is no duplicate is the outcome of the run.
  once-Keeps :
      (e f : Engine) (room mark : String) (options : StorageMutationOptions)
      (run : Result (Engine × (StorageMutation × Bool))) (m : StorageMutation)
      → Keeps room options.op_id mark run
      → commit e (once docs e room options.op_id mark run) ≡ (f, ok (m, false))
      → Remembers f room options.op_id mark m
  unfolding once
  once-Keeps e f room mark options run m keeps made =
      go (storage_op_mutation_locked e room options.op_id mark) refl
    where
      carried :
          (result : Result (Engine × (StorageMutation × Bool)))
          → Keeps room options.op_id mark result
          → commit e result ≡ (f, ok (m, false))
          → Remembers f room options.op_id mark m
      carried (err error) kept same = ground (arith, same)
      carried (ok (g, (n, b))) kept same =
          subst (λ h. Remembers h room options.op_id mark m) (ap (λ x. x.0) same)
            (subst (λ x. Remembers g room options.op_id mark x) (ground (arith, same)) kept)

      go :
          (found : Result (Option StorageMutation))
          → storage_op_mutation_locked e room options.op_id mark ≡ found
          → Remembers f room options.op_id mark m
      go (err error) found = ground (arith, made, found)
      go (ok (some n)) found = ground (arith, made, found)
      go (ok none) found = carried run keeps (rw (found, once) at made)

  pub mutate-Keeps :
      (e f : Engine) (room mark : String) (call : Call docs) (options : StorageMutationOptions)
      (m : StorageMutation)
      → (options.op_id == "") ≡ false
      → fingerprint_of docs call options ≡ ok mark
      → mutate docs e room call options ≡ (f, ok (m, false))
      → Remembers f room options.op_id mark m
  unfolding set_storage_mutation apply_storage_patch_mutation delete_storage_mutation
      storage_document_fingerprint storage_delete_fingerprint storage_patch_fingerprint
  mutate-Keeps e f room mark (set_call document) options m named marked made =
      go (admit docs document options) refl
    where
      go :
          (c : Result Bytes)
          → admit docs document options ≡ c
          → Remembers f room options.op_id mark m
      go (err error) k = ground (arith, marked, k)
      go (ok c) k =
          let mark' = storage_document_fingerprint docs mutation_set c in
          subst (λ x. Remembers f room options.op_id x m) (ground (arith, marked, k))
            (once-Keeps e f room mark' options (set_once docs e room c options mark') m
              (set_once-Keeps e room c options mark' named (docs.sha256_hex-ne-empty _))
              (rw (k, set_storage_mutation) at made))
  mutate-Keeps e f room mark (patch_call operations) options m named marked made =
      go (docs.marshal_operations operations) refl
    where
      go :
          (raw : Result Bytes)
          → docs.marshal_operations operations ≡ raw
          → Remembers f room options.op_id mark m
      go (err error) k = ground (arith, marked, k)
      go (ok raw) k =
          let mark' = docs.sha256_hex (bytes_of mutation_patch ++ (0 ∷ raw)) in
          subst (λ x. Remembers f room options.op_id x m) (ground (arith, marked, k))
            (once-Keeps e f room mark' options (patch_once docs e room operations options mark') m
              (patch_once-Keeps e room operations options mark' named (docs.sha256_hex-ne-empty _))
              (rw (k, apply_storage_patch_mutation) at made))
  mutate-Keeps e f room mark (delete_call existing) options m named marked made =
      let mark' = storage_delete_fingerprint docs in
      subst (λ x. Remembers f room options.op_id x m) (ground (arith, marked))
        (once-Keeps e f room mark' options (delete_once docs e room options existing mark') m
          (delete_once-Keeps e room options existing mark' named (docs.sha256_hex-ne-empty _)) made)
