-- ===== src/Engine/Storage/Write/Once.antt =====
-- Operation ids: a mutation under an id takes effect once, and a retry gets the first outcome.
use open_rtc.Base.{
  ℕ, String, ◌≡◌, ◌≢◌, refl, ap, subst, Bool, true, false, ◌&&◌, Option, none, some, List, [], ◌∷◌,
  arith, ◌==◌, eq_iff, eq_refl, ◌⊎◌,
}
use open_rtc.Cluster.{Bytes, PatchOperation}
use open_rtc.Dict.Nested.{get_in, get_in-put_in}
use open_rtc.Errors.{Result, ok, err, ◌>>=◌, storage_conflict}
use open_rtc.Engine.{Engine, StorageMutation}
use open_rtc.Engine.Storage.{
  Documents, StorageMutationOptions, clone_storage_mutation, clone_storage_operations,
  storage_op_mutation_locked, remember_storage_op_locked, recorded, write_sequence, sequence_of,
  write_document, mutation_set,
}
use open_rtc.Engine.Storage.Write.{
  admit, commit, once, set_once, record_op, set_storage_mutation, apply_storage_patch_mutation,
  delete_storage_mutation, storage_document_fingerprint, storage_patch_fingerprint,
  storage_delete_fingerprint,
}

-- The outcome `m` is kept for an operation id of a room, under a fingerprint.
pub record Remembers (e : Engine) (room op fingerprint : String) (m : StorageMutation)
    : Type 0 where
  pub named : (op == "") ≡ false
  pub marked : (fingerprint == "") ≡ false
  pub kept :
      get_in e.storage_ops room op ≡ some (record { fingerprint = fingerprint; mutation = m })

map-clone : (os : List PatchOperation) → clone_storage_operations os ≡ os
unfolding clone_storage_operations
map-clone [] = refl
map-clone (o ∷ os) = ap (◌∷◌ o) (map-clone os)

pub clone_self : (m : StorageMutation) → clone_storage_mutation m ≡ m
unfolding clone_storage_mutation
clone_self m = λ i. record m { operations = map-clone m.operations i }

-- What the table says of an id that it has.
pub locked-Remembers :
    (e : Engine) (room op fingerprint : String) (m : StorageMutation)
    → Remembers e room op fingerprint m
    → (storage_op_mutation_locked e room op fingerprint ≡ ok (some m))
unfolding storage_op_mutation_locked recorded
locked-Remembers e room op fingerprint m h =
    ground (arith, h.named, h.marked, h.kept, eq_refl fingerprint, clone_self m)

pub locked-other :
    (e : Engine) (room op fingerprint other : String) (m : StorageMutation)
    → Remembers e room op fingerprint m
    → fingerprint ≢ other
    → storage_op_mutation_locked e room op other ≡ err storage_conflict
unfolding storage_op_mutation_locked recorded
locked-other e room op fingerprint other m h differs =
    ground (arith, h.named, h.marked, h.kept, eq_iff fingerprint other)

-- A mutation that is carried out is not under an id that the table has.
pub locked-apart :
    (e : Engine) (room op fingerprint r o mark : String) (m : StorageMutation)
    → Remembers e r o mark m
    → storage_op_mutation_locked e room op fingerprint ≡ ok none
    → (op == "") ≡ true ⊎ (room == r && op == o) ≡ false
unfolding storage_op_mutation_locked recorded
locked-apart e room op fingerprint r o mark m h free =
    ground (arith, h.named, h.marked, h.kept, eq_iff room r, eq_iff op o, eq_iff mark fingerprint)

remember-Remembers :
    (e : Engine) (room op fingerprint r o mark : String) (m n : StorageMutation)
    → Remembers e r o mark m
    → (op == "") ≡ true ⊎ (room == r && op == o) ≡ false
    → Remembers (remember_storage_op_locked e room op fingerprint n) r o mark m
unfolding remember_storage_op_locked
remember-Remembers e room op fingerprint r o mark m n h apart = record {
  named = h.named;
  marked = h.marked;
  kept = ground (
    arith,
    h.kept,
    get_in-put_in e.storage_ops room op
        (record { fingerprint = fingerprint; mutation = clone_storage_mutation n }) r o,
    apart,
  );
}

-- A call that may write, under an id.
module _ (docs : Documents) where
  -- What `once` does with an entry that another id has, whatever its own outcome.
  pub once-Remembers :
      (e : Engine) (room op fingerprint : String) (run : Result (Engine × (StorageMutation × Bool)))
      (r o mark : String) (m : StorageMutation)
      → Remembers e r o mark m
      → ((f : Engine) (x : StorageMutation × Bool)
          → run ≡ ok (f, x)
          → (op == "") ≡ true ⊎ (room == r && op == o) ≡ false
          → Remembers f r o mark m)
      → Remembers (commit e (once docs e room op fingerprint run)).0 r o mark m
  unfolding once
  once-Remembers e room op fingerprint run r o mark m h keeps =
      go (storage_op_mutation_locked e room op fingerprint) refl
    where
      carried :
          (result : Result (Engine × (StorageMutation × Bool)))
          → run ≡ result
          → (op == "") ≡ true ⊎ (room == r && op == o) ≡ false
          → Remembers (commit e result).0 r o mark m
      carried (ok (f, x)) ran apart = keeps f x ran apart
      carried (err error) ran apart = h

      go :
          (found : Result (Option StorageMutation))
          → storage_op_mutation_locked e room op fingerprint ≡ found
          → Remembers (commit e (once docs e room op fingerprint run)).0 r o mark m
      go (err error) found = rw (found, once) h
      go (ok (some n)) found = rw (found, once) h
      go (ok none) found =
          rw (found, once)
            (carried run refl (locked-apart e room op fingerprint r o mark m h found))

  -- The mutation calls of the engine.
  pub data Call : Type 0 where
    set_call : Bytes → Call
    patch_call : List PatchOperation → Call
    delete_call : Bool → Call

  abbrev pub mutate :
      Engine → String → Call → StorageMutationOptions → Engine × Result (StorageMutation × Bool)
  mutate e room (set_call document) options = set_storage_mutation docs e room document options
  mutate e room (patch_call operations) options =
      apply_storage_patch_mutation docs e room operations options
  mutate e room (delete_call existing) options =
      delete_storage_mutation docs e room options existing

  -- What identifies a call under its id.
  abbrev pub fingerprint_of : Call → StorageMutationOptions → Result String
  fingerprint_of (set_call document) options = do
    compacted ← admit docs document options
    ok (storage_document_fingerprint docs mutation_set compacted)
  fingerprint_of (patch_call operations) options = storage_patch_fingerprint docs operations
  fingerprint_of (delete_call existing) options = ok (storage_delete_fingerprint docs)

  pub record_op-Remembers :
      (e : Engine) (room fingerprint : String) (options : StorageMutationOptions) (n : ℕ)
      (kind : String) (document : Bytes) (operations : List PatchOperation) (r o mark : String)
      (m : StorageMutation)
      → Remembers e r o mark m
      → (options.op_id == "") ≡ true ⊎ (room == r && options.op_id == o) ≡ false
      → Remembers
          (record_op docs e room fingerprint options n kind document operations).0
          r
          o
          mark
          m
  unfolding record_op
  record_op-Remembers e room fingerprint options n kind document operations r o mark m h apart =
      remember-Remembers e room options.op_id fingerprint r o mark m _ h apart

  pub set_once-Remembers :
      (e : Engine) (room : String) (c : Bytes) (options : StorageMutationOptions)
      (fingerprint r o mark : String) (m : StorageMutation) (f : Engine)
      (x : StorageMutation × Bool)
      → Remembers e r o mark m
      → set_once docs e room c options fingerprint ≡ ok (f, x)
      → (options.op_id == "") ≡ true ⊎ (room == r && options.op_id == o) ≡ false
      → Remembers f r o mark m
  unfolding set_once
  set_once-Remembers e room c options fingerprint r o mark m f x h ran apart =
      go (write_sequence options (sequence_of e room)) refl
    where
      go : (n : Result ℕ) → write_sequence options (sequence_of e room) ≡ n → Remembers f r o mark m
      go (err error) k = ground (arith, ran, k)
      go (ok n) k =
          let base = write_document e room c n in
          let still : Remembers base r o mark m =
            unfold write_document in record { named = h.named; marked = h.marked; kept = h.kept } in
          let kept =
            record_op-Remembers base room fingerprint options n mutation_set c [] r o mark m still
              apart in
          subst (λ g. Remembers g r o mark m) (ground (arith, ran, k)) kept
