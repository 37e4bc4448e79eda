-- ===== src/Engine/Storage/Write/Swap.antt =====
-- Optimistic concurrency: a storage write is a compare-and-swap on the sequence of the room.
use open_rtc.Base.{
  ℕ, ◌+◌, ◌<◌, String, ◌≡◌, refl, true, false, arith, ◌==◌, eq_refl, if◌then◌else◌, nat_eq, ◌⊎◌,
  not, ◌&&◌,
}
use native.Mathlib.Nat.{mod-eq_of_lt}
use open_rtc.Cluster.{Bytes, u64_mod}
use open_rtc.Errors.{Error, ok, err, storage_conflict}
use open_rtc.Engine.{Engine}
use open_rtc.Engine.Storage.{
  Documents, StorageMutationOptions, document_of, sequence_of, write_document, write_sequence,
}
use open_rtc.Engine.Storage.Laws.{write_sequence-unexpected, document_of-write, sequence_of-write}
use open_rtc.Engine.Storage.Write.{admit, set_storage_with_options}

module _ (docs : Documents) where
  pub set_storage-ok :
      (e : Engine) (room : String) (document : Bytes) (options : StorageMutationOptions) (c : Bytes)
      (n : ℕ)
      → (set_storage_with_options docs e room document options).1 ≡ ok (c, n)
      → (admit docs document options ≡ ok c)
        × (write_sequence options (sequence_of e room) ≡ ok n)
        × ((set_storage_with_options docs e room document options).0 ≡ write_document e room c n)
  unfolding set_storage_with_options
  set_storage-ok e room document options c n h = (ground arith, ground arith, ground arith)

  set_storage-refused :
      (e : Engine) (room : String) (document : Bytes) (options : StorageMutationOptions) (d : Bytes)
      (error : Error)
      → admit docs document options ≡ ok d
      → write_sequence options (sequence_of e room) ≡ err error
      → set_storage_with_options docs e room document options ≡ (e, err error)
  unfolding set_storage_with_options
  set_storage-refused e room document options d error admitted refused =
      rw (admitted, refused, set_storage_with_options) refl

  -- A set that succeeds, where the counter is not about to wrap, stores the compact form of the
  -- document that was given, admitted under the limit, with the sequence that is returned, and
  -- changes no other room. The sequence is the one that was asked for or else the next one, and it
  -- is past the current one, which is the one that was expected if any was.
  pub set_storage_swap :
      (e : Engine) (room : String) (document : Bytes) (options : StorageMutationOptions) (c : Bytes)
      (n : ℕ)
      → sequence_of e room + 1 < u64_mod
      → (set_storage_with_options docs e room document options).1 ≡ ok (c, n)
      → let f = (set_storage_with_options docs e room document options).0 in
        (admit docs document options ≡ ok c)
        × ((x : String)
            → (document_of f x ≡ (if room == x then c else document_of e x))
              × (sequence_of f x ≡ (if room == x then n else sequence_of e x)))
        × (n ≡ (if nat_eq options.sequence 0 then sequence_of e room + 1 else options.sequence))
        × (sequence_of e room < n)
        × ((options.expected_sequence_set
              && not (nat_eq (sequence_of e room) options.expected_sequence))
            ≡ false)
  unfolding write_sequence
  set_storage_swap e room document options c n within h =
      let (admitted, sequenced, written) = set_storage-ok e room document options c n h in
      rw written (
        admitted,
        (λ x. (document_of-write e room c n x, sequence_of-write e room c n x)),
        ground (arith, sequenced, mod-eq_of_lt within),
        ground (arith, sequenced, mod-eq_of_lt within),
        ground (arith, sequenced),
      )

  -- A set that fails changes nothing, and fails only because the document is not admitted or the
  -- sequence is in conflict.
  pub set_storage_refused :
      (e : Engine) (room : String) (document : Bytes) (options : StorageMutationOptions)
      (error : Error)
      → (set_storage_with_options docs e room document options).1 ≡ err error
      → ((set_storage_with_options docs e room document options).0 ≡ e)
        × ((admit docs document options ≡ err error)
            ⊎ (write_sequence options (sequence_of e room) ≡ err error))
  unfolding set_storage_with_options
  set_storage_refused e room document options error h = (ground (arith, h), ground (arith, h))

  -- Two writers that read the same sequence, where the counter is not about to wrap: once the first
  -- has written, the second, which expects that sequence and has a document that may be stored, gets
  -- a conflict and writes nothing.
  pub no_lost_update :
      (e : Engine) (room : String) (mine theirs : Bytes) (first second : StorageMutationOptions)
      (c d : Bytes) (n : ℕ)
      → second.expected_sequence_set ≡ true
      → second.expected_sequence ≡ sequence_of e room
      → sequence_of e room + 1 < u64_mod
      → (set_storage_with_options docs e room mine first).1 ≡ ok (c, n)
      → admit docs theirs second ≡ ok d
      → let f = (set_storage_with_options docs e room mine first).0 in
        set_storage_with_options docs f room theirs second ≡ (f, err storage_conflict)
  no_lost_update e room mine theirs first second c d n set same within done admitted =
      let swapped = set_storage_swap e room mine first c n within done in
      let f = (set_storage_with_options docs e room mine first).0 in
      let conflict =
        write_sequence-unexpected second (sequence_of f room) set
          (ground (arith, (swapped.1 room).1, same, swapped.3, eq_refl room)) in
      set_storage-refused f room theirs second d storage_conflict admitted conflict
