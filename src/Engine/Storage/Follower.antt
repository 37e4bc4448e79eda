-- ===== src/Engine/Storage/Follower.antt =====
-- Mutations of other nodes, which arrive in any order and more than once:
-- server/internal/roomengine/engine.go, RecordStorageMutation.
pub mod Order
pub mod Event
use open_rtc.Base.{
  ℕ, ◌≤◌, ◌<◌, String, ◌≡◌, ◌≢◌, refl, ap, sym, subst, ◌∙◌, Bool, true, false, Bool-cases, inl, inr,
  ◌⊎◌, List, [], ◌∷◌, ◌++◌, arith, ◌==◌, eq_refl, if◌then◌else◌,
}
use open_rtc.Cluster.{Bytes, PatchOperation}
use open_rtc.Errors.{Result, ok, err, storage_conflict}
use open_rtc.Engine.{Engine}
use open_rtc.Engine.Storage.{
  Documents, StorageMutationOptions, mutation_delete, valid_storage_mutation_kind, document_of,
  sequence_of, write_sequence, write_document, delete_document,
}
use open_rtc.Engine.Storage.Laws.{
  write_sequence-stale, document_of-write, sequence_of-write, document_of-delete,
  sequence_of-delete,
}
use open_rtc.Engine.Storage.Write.{
  admit, set_storage_with_options, delete_storage_with_options, record_storage_mutation,
}
use open_rtc.Engine.Storage.Write.Swap.{set_storage-ok, set_storage_refused}

-- A mutation as it comes from another node.
pub record Update : Type 0 where
  pub kind : String
  pub document : Bytes
  pub operations : List PatchOperation
  pub options : StorageMutationOptions

-- A sequence that is given and past the current one is taken if none is expected.
write_sequence-newer :
    (options : StorageMutationOptions) (current : ℕ)
    → options.expected_sequence_set ≡ false
    → current < options.sequence
    → write_sequence options current ≡ ok options.sequence
unfolding write_sequence
write_sequence-newer options current plain newer = ground arith

module _ (docs : Documents) where
  abbrev pub receive : Engine → String → Update → Engine
  receive e room u =
      (record_storage_mutation docs e room u.kind u.document u.operations u.options).0

  unfoldable pub receive_all : Engine → String → List Update → Engine
  receive_all e room [] = e
  receive_all e room (u ∷ us) = receive_all (receive e room u) room us

  -- The document that an update stands for: none after a delete.
  abbrev pub Content : Update → Bytes → Type 0
  Content u c =
      (valid_storage_mutation_kind u.kind ≡ true)
      × (((u.kind == mutation_delete) ≡ true × c ≡ [])
          ⊎ ((u.kind == mutation_delete) ≡ false × admit docs u.document u.options ≡ ok c))

  set-newer :
      (e : Engine) (room : String) (document c : Bytes) (options : StorageMutationOptions)
      → options.expected_sequence_set ≡ false
      → sequence_of e room < options.sequence
      → admit docs document options ≡ ok c
      → set_storage_with_options docs e room document options
        ≡ (write_document e room c options.sequence, ok (c, options.sequence))
  unfolding set_storage_with_options
  set-newer e room document c options plain newer admitted =
      rw
        (
          admitted,
          write_sequence-newer options (sequence_of e room) plain newer,
          set_storage_with_options,
        )
        refl

  delete-newer :
      (e : Engine) (room : String) (options : StorageMutationOptions)
      → options.expected_sequence_set ≡ false
      → sequence_of e room < options.sequence
      → delete_storage_with_options docs e room options false
        ≡ (delete_document e room options.sequence, ok options.sequence)
  unfolding delete_storage_with_options
  delete-newer e room options plain newer =
      rw
        (write_sequence-newer options (sequence_of e room) plain newer, delete_storage_with_options)
        refl

  receive-delete :
      (e : Engine) (room : String) (u : Update)
      → sequence_of e room < u.options.sequence
      → valid_storage_mutation_kind u.kind ≡ true
      → (u.kind == mutation_delete) ≡ true
      → (record_storage_mutation docs e room u.kind u.document u.operations u.options).0
        ≡ delete_document e room u.options.sequence
  unfolding record_storage_mutation
  receive-delete e room u newer valid gone =
      rw
        (
          valid,
          gone,
          delete-newer e room (record (u.options) { expected_sequence_set = false }) refl newer,
          record_storage_mutation,
        )
        refl

  receive-set :
      (e : Engine) (room : String) (u : Update) (c : Bytes)
      → sequence_of e room < u.options.sequence
      → valid_storage_mutation_kind u.kind ≡ true
      → (u.kind == mutation_delete) ≡ false
      → admit docs u.document u.options ≡ ok c
      → (record_storage_mutation docs e room u.kind u.document u.operations u.options).0
        ≡ write_document e room c u.options.sequence
  unfolding record_storage_mutation admit
  receive-set e room u c newer valid here admitted =
      rw
        (
          valid,
          here,
          set-newer e room u.document c (record (u.options) { expected_sequence_set = false }) refl
              newer admitted,
          record_storage_mutation,
        )
        refl

  -- An update past the current sequence is taken over.
  pub receive-newer :
      (e : Engine) (room : String) (u : Update) (c : Bytes)
      → sequence_of e room < u.options.sequence
      → Content u c
      → (document_of (receive e room u) room ≡ c)
        × (sequence_of (receive e room u) room ≡ u.options.sequence)
  receive-newer e room u c newer (valid, inl (gone, none)) =
      rw (receive-delete e room u newer valid gone) (
        ground (arith, document_of-delete e room u.options.sequence room, eq_refl room, none),
        ground (arith, sequence_of-delete e room u.options.sequence room, eq_refl room),
      )
  receive-newer e room u c newer (valid, inr (here, admitted)) =
      rw (receive-set e room u c newer valid here admitted) (
        ground (arith, document_of-write e room c u.options.sequence room, eq_refl room),
        ground (arith, sequence_of-write e room c u.options.sequence room, eq_refl room),
      )

  set-stale :
      (e : Engine) (room : String) (document : Bytes) (options : StorageMutationOptions)
      → options.sequence ≢ 0
      → options.sequence ≤ sequence_of e room
      → (set_storage_with_options docs e room document options).0 ≡ e
  unfolding set_storage_with_options
  set-stale e room document options given stale =
      ground (arith, write_sequence-stale options (sequence_of e room) given stale)

  delete-stale :
      (e : Engine) (room : String) (options : StorageMutationOptions)
      → options.sequence ≢ 0
      → options.sequence ≤ sequence_of e room
      → (delete_storage_with_options docs e room options false).0 ≡ e
  unfolding delete_storage_with_options
  delete-stale e room options given stale =
      ground (arith, write_sequence-stale options (sequence_of e room) given stale)

  -- An update that is not past the current sequence changes nothing.
  pub receive-stale :
      (e : Engine) (room : String) (u : Update)
      → u.options.sequence ≢ 0
      → u.options.sequence ≤ sequence_of e room
      → (record_storage_mutation docs e room u.kind u.document u.operations u.options).0 ≡ e
  unfolding record_storage_mutation
  receive-stale e room u given stale =
      let plain = record (u.options) { expected_sequence_set = false } in
      elim (Bool-cases (valid_storage_mutation_kind u.kind)) [
        | inr bad ↦ rw (bad, record_storage_mutation) refl
        | inl fine ↦ elim (Bool-cases (u.kind == mutation_delete)) [
          | inl gone ↦
              rw (fine, gone, record_storage_mutation) (delete-stale e room plain given stale)
          | inr here ↦
              rw (fine, here, record_storage_mutation)
                (set-stale e room u.document plain given stale)
        ]
      ]

  -- What an update may make of the sequence.
  set-below :
      (e : Engine) (room : String) (document : Bytes) (options : StorageMutationOptions) (n : ℕ)
      → options.sequence ≢ 0
      → options.sequence < n
      → sequence_of e room < n
      → sequence_of (set_storage_with_options docs e room document options).0 room < n
  unfolding set_storage_with_options write_sequence
  set-below e room document options n given below now =
      go (set_storage_with_options docs e room document options).1 refl
    where
      go :
          (result : Result (Bytes × ℕ))
          → (set_storage_with_options docs e room document options).1 ≡ result
          → sequence_of (set_storage_with_options docs e room document options).0 room < n
      go (err error) k =
          subst (λ f. sequence_of f room < n)
            (sym (set_storage_refused docs e room document options error k).0) now
      go (ok (c, m)) k =
          let (admitted, sequenced, written) = set_storage-ok docs e room document options c m k in
          subst (λ f. sequence_of f room < n) (sym written)
            (ground (arith, sequence_of-write e room c m room, eq_refl room, sequenced))

  delete-below :
      (e : Engine) (room : String) (options : StorageMutationOptions) (n : ℕ)
      → options.sequence ≢ 0
      → options.sequence < n
      → sequence_of e room < n
      → sequence_of (delete_storage_with_options docs e room options false).0 room < n
  unfolding delete_storage_with_options write_sequence
  delete-below e room options n given below now =
      go (write_sequence options (sequence_of e room)) refl
    where
      go :
          (m : Result ℕ)
          → write_sequence options (sequence_of e room) ≡ m
          → sequence_of (delete_storage_with_options docs e room options false).0 room < n
      go (err error) k = rw (k, delete_storage_with_options) now
      go (ok m) k =
          rw (k, delete_storage_with_options)
            (ground (arith, sequence_of-delete e room m room, eq_refl room, k))

  -- An update whose sequence is below a bound leaves the sequence below it, accepted or not.
  pub receive-below :
      (e : Engine) (room : String) (u : Update) (n : ℕ)
      → u.options.sequence ≢ 0
      → u.options.sequence < n
      → sequence_of e room < n
      → sequence_of
          (record_storage_mutation docs e room u.kind u.document u.operations u.options).0
          room
        < n
  unfolding record_storage_mutation
  receive-below e room u n given below now =
      let plain = record (u.options) { expected_sequence_set = false } in
      elim (Bool-cases (valid_storage_mutation_kind u.kind)) [
        | inr bad ↦ rw (bad, record_storage_mutation) now
        | inl fine ↦ elim (Bool-cases (u.kind == mutation_delete)) [
          | inl gone ↦
              rw (fine, gone, record_storage_mutation) (delete-below e room plain n given below now)
          | inr here ↦
              rw (fine, here, record_storage_mutation)
                (set-below e room u.document plain n given below now)
        ]
      ]
