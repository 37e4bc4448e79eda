-- ===== src/Protocol/Shape.antt =====
-- What an accepted message has: the rules of server/internal/protocol/messages.go for each message type.
use open_rtc.Base.{
  ℤ, pos, negsuc, ℕ, ◌≤◌, String, ◌≡◌, Bool, true, false, ◌||◌, Option, none, some, [], ◌==◌, leb,
}
use open_rtc.Protocol.{
  MessageType, join, leave, emit, event_ack, presence_set, storage_get, storage_set, storage_patch,
  JoinMeta, EventAckMeta, StorageMeta, Message, Decoders,
}
use open_rtc.Protocol.Names.{is_name}
use open_rtc.Protocol.Parse.{is_empty, starts_with_byte, trim_bytes}

-- A text of one to so many bytes, all of them safe.
abbrev pub IsIdentifier : ℕ → String → Type 0
IsIdentifier max s = ((s == "") ≡ false) × (is_name max s ≡ true)

-- The limit of a page is at most 200, and 0 where it is not given.
abbrev pub at_most_200 : ℤ → Bool
at_most_200 (pos n) = leb n 200
at_most_200 (negsuc n) = false

abbrev pub JoinMetaIsValid : Option JoinMeta → Type 0
JoinMetaIsValid none = Unit {0}
JoinMetaIsValid (some meta) = at_most_200 meta.limit ≡ true

-- The operation id is an identifier, and empty where it is not given.
abbrev pub StorageMetaIsValid : Option StorageMeta → Type 0
StorageMetaIsValid none = Unit {0}
StorageMetaIsValid (some meta) = (meta.op_id == "" || is_name 128 meta.op_id) ≡ true

abbrev pub AckMetaIsValid : Option EventAckMeta → Type 0
AckMetaIsValid none = ⊥
AckMetaIsValid (some meta) = 1 ≤ meta.sequence

-- What a message of each type has, and what it has not.
abbrev pub HasShape : Decoders → MessageType → Message → Type 0
HasShape d join m =
    JoinMetaIsValid m.join_meta
    × (m.event ≡ "")
    × (m.emit_meta ≡ none)
    × (m.event_ack_meta ≡ none)
    × (m.storage_meta ≡ none)
HasShape d leave m =
    (m.join_meta ≡ none)
    × (m.event ≡ "")
    × (m.emit_meta ≡ none)
    × (m.event_ack_meta ≡ none)
    × (m.storage_meta ≡ none)
HasShape d emit m =
    IsIdentifier 128 m.event
    × (is_empty m.payload ≡ false)
    × (m.join_meta ≡ none)
    × (m.event_ack_meta ≡ none)
    × (m.storage_meta ≡ none)
HasShape d event_ack m =
    AckMetaIsValid m.event_ack_meta
    × (m.payload ≡ [])
    × (m.event ≡ "")
    × (m.join_meta ≡ none)
    × (m.emit_meta ≡ none)
    × (m.storage_meta ≡ none)
HasShape d presence_set m =
    (d.valid m.payload ≡ true)
    × (starts_with_byte 123 m.payload ≡ true)
    × (m.event ≡ "")
    × (m.join_meta ≡ none)
    × (m.emit_meta ≡ none)
    × (m.event_ack_meta ≡ none)
    × (m.storage_meta ≡ none)
HasShape d storage_get m =
    (m.payload ≡ [])
    × (m.event ≡ "")
    × (m.join_meta ≡ none)
    × (m.emit_meta ≡ none)
    × (m.event_ack_meta ≡ none)
    × (m.storage_meta ≡ none)
HasShape d storage_set m =
    StorageMetaIsValid m.storage_meta
    × (d.valid m.payload ≡ true)
    × (starts_with_byte 123 (trim_bytes m.payload) ≡ true)
    × (m.event ≡ "")
    × (m.join_meta ≡ none)
    × (m.emit_meta ≡ none)
    × (m.event_ack_meta ≡ none)
HasShape d storage_patch m =
    StorageMetaIsValid m.storage_meta
    × (d.valid m.payload ≡ true)
    × (starts_with_byte 91 (trim_bytes m.payload) ≡ true)
    × (m.event ≡ "")
    × (m.join_meta ≡ none)
    × (m.emit_meta ≡ none)
    × (m.event_ack_meta ≡ none)

-- A message before its type is looked at.
abbrev pub IsPlain : Message → Type 0
IsPlain m =
    (m.event ≡ "")
    × (m.join_meta ≡ none)
    × (m.emit_meta ≡ none)
    × (m.event_ack_meta ≡ none)
    × (m.storage_meta ≡ none)

abbrev pub Keeps : Message → Message → Type 0
Keeps m r =
    (r.message_type ≡ m.message_type) × (r.id ≡ m.id) × (r.room ≡ m.room) × (r.payload ≡ m.payload)
