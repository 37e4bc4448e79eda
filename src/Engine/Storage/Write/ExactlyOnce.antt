-- ===== src/Engine/Storage/Write/ExactlyOnce.antt =====
-- A mutation under an operation id, later calls of any kind, and a retry.
use open_rtc.Base.{String, ◌≡◌, ◌≢◌, refl, true, false, List, [], ◌∷◌, arith, ◌==◌}
use open_rtc.Cluster.{Bytes}
use open_rtc.Errors.{Result, ok, err, storage_conflict}
use open_rtc.Engine.{Engine, StorageMutation}
use open_rtc.Engine.Storage.{Documents, StorageMutationOptions}
use open_rtc.Engine.Storage.Write.{
  admit, once, set_storage_mutation, apply_storage_patch_mutation, delete_storage_mutation,
  storage_patch_fingerprint,
}
use open_rtc.Engine.Storage.Write.Once.{
  Remembers, locked-Remembers, locked-other, Call, set_call, patch_call, delete_call, mutate,
  fingerprint_of,
}
use open_rtc.Engine.Storage.Write.Retry.{mutate-Remembers}
use open_rtc.Engine.Storage.Write.Kept.{mutate-Keeps}

module _ (docs : Documents) where
  -- A retry of a call whose outcome is kept.
  mutate-again :
      (e : Engine) (room op mark : String) (call : Call docs) (options : StorageMutationOptions)
      (m : StorageMutation)
      → Remembers e room op mark m
      → options.op_id ≡ op
      → fingerprint_of docs call options ≡ ok mark
      → mutate docs e room call options ≡ (e, ok (m, true))
  unfolding set_storage_mutation apply_storage_patch_mutation delete_storage_mutation once
  mutate-again e room op mark (set_call document) options m h same marked =
      go (admit docs document options) refl
    where
      go :
          (found : Result Bytes)
          → admit docs document options ≡ found
          → mutate docs e room (set_call document) options ≡ (e, ok (m, true))
      go (err error) k = ground (arith, marked, k)
      go (ok c) k = ground (arith, marked, k, same, locked-Remembers e room op mark m h)
  mutate-again e room op mark (patch_call operations) options m h same marked =
      go (storage_patch_fingerprint docs operations) refl
    where
      go :
          (found : Result String)
          → storage_patch_fingerprint docs operations ≡ found
          → mutate docs e room (patch_call operations) options ≡ (e, ok (m, true))
      go (err error) k = ground (arith, marked, k)
      go (ok c) k = ground (arith, marked, k, same, locked-Remembers e room op mark m h)
  mutate-again e room op mark (delete_call existing) options m h same marked =
      ground (arith, marked, same, locked-Remembers e room op mark m h)

  -- A call of other content under an id whose outcome is kept.
  mutate-other :
      (e : Engine) (room op mark other : String) (call : Call docs)
      (options : StorageMutationOptions) (m : StorageMutation)
      → Remembers e room op mark m
      → options.op_id ≡ op
      → fingerprint_of docs call options ≡ ok other
      → mark ≢ other
      → mutate docs e room call options ≡ (e, err storage_conflict)
  unfolding set_storage_mutation apply_storage_patch_mutation delete_storage_mutation once
  mutate-other e room op mark other (set_call document) options m h same marked differs =
      go (admit docs document options) refl
    where
      go :
          (found : Result Bytes)
          → admit docs document options ≡ found
          → mutate docs e room (set_call document) options ≡ (e, err storage_conflict)
      go (err error) k = ground (arith, marked, k)
      go (ok c) k = ground (arith, marked, k, same, locked-other e room op mark other m h differs)
  mutate-other e room op mark other (patch_call operations) options m h same marked differs =
      go (storage_patch_fingerprint docs operations) refl
    where
      go :
          (found : Result String)
          → storage_patch_fingerprint docs operations ≡ found
          → mutate docs e room (patch_call operations) options ≡ (e, err storage_conflict)
      go (err error) k = ground (arith, marked, k)
      go (ok c) k = ground (arith, marked, k, same, locked-other e room op mark other m h differs)
  mutate-other e room op mark other (delete_call existing) options m h same marked differs =
      ground (arith, marked, same, locked-other e room op mark other m h differs)

  -- The state after a list of mutation calls, each with its room and options.
  unfoldable pub mutate_all : Engine → List (String × (Call docs × StorageMutationOptions)) → Engine
  mutate_all e [] = e
  mutate_all e ((room, (call, options)) ∷ calls) =
      mutate_all (mutate docs e room call options).0 calls

  mutate_all-Remembers :
      (e : Engine) (calls : List (String × (Call docs × StorageMutationOptions)))
      (r o mark : String) (m : StorageMutation)
      → Remembers e r o mark m
      → Remembers (mutate_all e calls) r o mark m
  unfolding mutate_all
  mutate_all-Remembers e [] r o mark m h = h
  mutate_all-Remembers e ((room, (call, options)) ∷ calls) r o mark m h =
      mutate_all-Remembers (mutate docs e room call options).0 calls r o mark m
        (mutate-Remembers docs e room call options r o mark m h)

  -- A set, patch or delete under an operation id that took effect, followed by any mutation calls
  -- on any rooms, whatever their outcomes: a call under the same id in that room whose content has
  -- the same fingerprint returns the first mutation, marked as a duplicate, and changes nothing.
  pub exactly_once :
      (e f : Engine) (room mark : String) (call : Call docs) (options : StorageMutationOptions)
      (m : StorageMutation) (later : List (String × (Call docs × StorageMutationOptions)))
      (again : Call docs) (options' : StorageMutationOptions)
      → (options.op_id == "") ≡ false
      → fingerprint_of docs call options ≡ ok mark
      → mutate docs e room call options ≡ (f, ok (m, false))
      → options'.op_id ≡ options.op_id
      → fingerprint_of docs again options' ≡ ok mark
      → mutate docs (mutate_all f later) room again options' ≡ (mutate_all f later, ok (m, true))
  exactly_once e f room mark call options m later again options' named marked made same marked' =
      mutate-again (mutate_all f later) room options.op_id mark again options' m
        (mutate_all-Remembers f later room options.op_id mark m
          (mutate-Keeps docs e f room mark call options m named marked made))
        same marked'

  -- A set, patch or delete under an operation id that took effect, followed by any mutation calls
  -- on any rooms: a call under the same id in that room whose content has another fingerprint is
  -- refused with a conflict and changes nothing.
  pub other_content_refused :
      (e f : Engine) (room mark other : String) (call : Call docs)
      (options : StorageMutationOptions) (m : StorageMutation)
      (later : List (String × (Call docs × StorageMutationOptions))) (again : Call docs)
      (options' : StorageMutationOptions)
      → (options.op_id == "") ≡ false
      → fingerprint_of docs call options ≡ ok mark
      → mutate docs e room call options ≡ (f, ok (m, false))
      → options'.op_id ≡ options.op_id
      → fingerprint_of docs again options' ≡ ok other
      → mark ≢ other
      → mutate docs (mutate_all f later) room again options'
        ≡ (mutate_all f later, err storage_conflict)
  other_content_refused e f room mark other call options m later again options' named marked made
        same marked' differs =
      mutate-other (mutate_all f later) room options.op_id mark other again options' m
        (mutate_all-Remembers f later room options.op_id mark m
          (mutate-Keeps docs e f room mark call options m named marked made))
        same marked' differs
