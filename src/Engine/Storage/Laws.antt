-- ===== src/Engine/Storage/Laws.antt =====
-- What the writes of storage change, and which sequence a write gets.
use open_rtc.Base.{ℕ, ◌+◌, ◌<◌, ◌≤◌, String, ◌≡◌, ◌≢◌, true, [], arith, ◌==◌, if◌then◌else◌}
use native.Mathlib.Nat.{mod-eq_of_lt}
use open_rtc.Cluster.{Bytes, u64_mod}
use open_rtc.Dict.{get-put, get-remove}
use open_rtc.Errors.{ok, err, storage_conflict}
use open_rtc.Engine.{Engine}
use open_rtc.Engine.Storage.{
  StorageMutationOptions, document_of, sequence_of, write_document, delete_document, write_sequence,
}

module _ (e : Engine) (room : String) (document : Bytes) (n : ℕ) (x : String) where
  pub document_of-write :
      document_of (write_document e room document n) x
      ≡ (if room == x then document else document_of e x)
  unfolding document_of write_document
  document_of-write = ground (arith, get-put e.storage room x document)

  pub sequence_of-write :
      sequence_of (write_document e room document n) x ≡ (if room == x then n else sequence_of e x)
  unfolding sequence_of write_document
  sequence_of-write = ground (arith, get-put e.storage_seq room x n)

module _ (e : Engine) (room : String) (n : ℕ) (x : String) where
  pub document_of-delete :
      document_of (delete_document e room n) x ≡ (if room == x then [] else document_of e x)
  unfolding document_of delete_document
  document_of-delete = ground (arith, get-remove e.storage room x)

  pub sequence_of-delete :
      sequence_of (delete_document e room n) x ≡ (if room == x then n else sequence_of e x)
  unfolding sequence_of delete_document
  sequence_of-delete = ground (arith, get-put e.storage_seq room x n)

-- A write that gets a sequence was given the current one if it expected any, and moves it forward.
pub record Advances (options : StorageMutationOptions) (current n : ℕ) : Type 0 where
  pub expected : options.expected_sequence_set ≡ true → options.expected_sequence ≡ current
  pub forward : current + 1 < u64_mod → current < n
  pub given : options.sequence ≢ 0 → n ≡ options.sequence
  pub positive : current + 1 < u64_mod → n ≢ 0

pub write_sequence-Advances :
    (options : StorageMutationOptions) (current n : ℕ)
    → write_sequence options current ≡ ok n
    → Advances options current n
unfolding write_sequence
write_sequence-Advances options current n h = record {
  expected = λ k. ground arith;
  forward = λ k. ground (arith, mod-eq_of_lt k);
  given = λ k. ground arith;
  positive = λ k z. ground (arith, mod-eq_of_lt k);
}

-- A write that expects another sequence than the current one is a conflict.
pub write_sequence-unexpected :
    (options : StorageMutationOptions) (current : ℕ)
    → options.expected_sequence_set ≡ true
    → options.expected_sequence ≢ current
    → write_sequence options current ≡ err storage_conflict
unfolding write_sequence
write_sequence-unexpected options current set other = ground arith

-- So is one that brings a sequence which is not past the current one.
pub write_sequence-stale :
    (options : StorageMutationOptions) (current : ℕ)
    → options.sequence ≢ 0
    → options.sequence ≤ current
    → write_sequence options current ≡ err storage_conflict
unfolding write_sequence
write_sequence-stale options current given stale = ground arith
