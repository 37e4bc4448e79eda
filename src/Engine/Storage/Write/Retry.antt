-- ===== src/Engine/Storage/Write/Retry.antt =====
-- A retry of a mutation, at any later time: the outcome is the first one and nothing is written.
use open_rtc.Base.{ℕ, String, ◌≡◌, refl, subst, Bool, true, false, ◌&&◌, List, [], arith, ◌==◌, ◌⊎◌}
use open_rtc.Cluster.{Bytes, PatchOperation}
use open_rtc.Errors.{Result, ok, err}
use open_rtc.Engine.{Engine, StorageMutation}
use open_rtc.Engine.Storage.{
  Documents, StorageMutationOptions, write_sequence, sequence_of, write_document, delete_document,
  mutation_set, mutation_patch, mutation_delete,
}
use open_rtc.Engine.Storage.Write.{
  admit, set_once, patch_once, delete_once, set_storage_mutation, apply_storage_patch_mutation,
  delete_storage_mutation, storage_document_fingerprint, storage_patch_fingerprint,
  storage_delete_fingerprint, patched_document,
}
use open_rtc.Engine.Storage.Write.Once.{
  Remembers, once-Remembers, record_op-Remembers, set_once-Remembers, Call, set_call, patch_call,
  delete_call, mutate,
}

module _ (docs : Documents) where
  patch_once-Remembers :
      (e : Engine) (room : String) (operations : List PatchOperation)
      (options : StorageMutationOptions) (fingerprint r o mark : String) (m : StorageMutation)
      (f : Engine) (x : StorageMutation × Bool)
      → Remembers e r o mark m
      → patch_once docs e room operations options fingerprint ≡ ok (f, x)
      → (options.op_id == "") ≡ true ⊎ (room == r && options.op_id == o) ≡ false
      → Remembers f r o mark m
  unfolding patch_once
  patch_once-Remembers e room operations options fingerprint r o mark m f x h ran apart =
      go (patched_document docs e room operations options) refl
    where
      go :
          (found : Result (Bytes × ℕ))
          → patched_document docs e room operations options ≡ found
          → Remembers f r o mark m
      go (err error) k = ground (arith, ran, k)
      go (ok (document, n)) k =
          let base = write_document e room document n in
          let still : Remembers base r o mark m =
            unfold write_document in record { named = h.named; marked = h.marked; kept = h.kept } in
          subst (λ g. Remembers g r o mark m) (ground (arith, ran, k))
            (record_op-Remembers docs base room fingerprint options n mutation_patch document
              operations r o mark m still apart)

  delete_once-Remembers :
      (e : Engine) (room : String) (options : StorageMutationOptions) (existing : Bool)
      (fingerprint r o mark : String) (m : StorageMutation) (f : Engine)
      (x : StorageMutation × Bool)
      → Remembers e r o mark m
      → delete_once docs e room options existing fingerprint ≡ ok (f, x)
      → (options.op_id == "") ≡ true ⊎ (room == r && options.op_id == o) ≡ false
      → Remembers f r o mark m
  unfolding delete_once
  delete_once-Remembers e room options existing fingerprint r o mark m f x h ran apart =
      go (write_sequence options (sequence_of e room)) refl
    where
      go : (n : Result ℕ) → write_sequence options (sequence_of e room) ≡ n → Remembers f r o mark m
      go (err error) k = ground (arith, ran, k)
      go (ok n) k =
          let base = delete_document e room n in
          let still : Remembers base r o mark m =
            unfold delete_document in
            record { named = h.named; marked = h.marked; kept = h.kept } in
          subst (λ g. Remembers g r o mark m) (ground (arith, ran, k))
            (record_op-Remembers docs base room fingerprint options n mutation_delete [] [] r o mark
              m still apart)

  -- No mutation call, whatever its outcome, disturbs an outcome that is kept.
  pub mutate-Remembers :
      (e : Engine) (room : String) (call : Call docs) (options : StorageMutationOptions)
      (r o mark : String) (m : StorageMutation)
      → Remembers e r o mark m
      → Remembers (mutate docs e room call options).0 r o mark m
  unfolding set_storage_mutation apply_storage_patch_mutation delete_storage_mutation
  mutate-Remembers e room (set_call document) options r o mark m h =
      go (admit docs document options) refl
    where
      go :
          (c : Result Bytes)
          → admit docs document options ≡ c
          → Remembers (set_storage_mutation docs e room document options).0 r o mark m
      go (err error) k = rw (k, set_storage_mutation) h
      go (ok c) k =
          let mark' = storage_document_fingerprint docs mutation_set c in
          rw (k, set_storage_mutation)
            (once-Remembers docs e room options.op_id mark' (set_once docs e room c options mark') r
              o mark m h (λ f x. set_once-Remembers docs e room c options mark' r o mark m f x h))
  mutate-Remembers e room (patch_call operations) options r o mark m h =
      go (storage_patch_fingerprint docs operations) refl
    where
      go :
          (p : Result String)
          → storage_patch_fingerprint docs operations ≡ p
          → Remembers (apply_storage_patch_mutation docs e room operations options).0 r o mark m
      go (err error) k = rw (k, apply_storage_patch_mutation) h
      go (ok mark') k =
          rw (k, apply_storage_patch_mutation)
            (once-Remembers docs e room options.op_id mark'
              (patch_once docs e room operations options mark') r o mark m h
              (λ f x. patch_once-Remembers e room operations options mark' r o mark m f x h))
  mutate-Remembers e room (delete_call existing) options r o mark m h =
      let mark' = storage_delete_fingerprint docs in
      once-Remembers docs e room options.op_id mark'
        (delete_once docs e room options existing mark') r o mark m h
        (λ f x. delete_once-Remembers e room options existing mark' r o mark m f x h)
