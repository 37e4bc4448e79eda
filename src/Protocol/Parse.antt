-- ===== src/Protocol/Parse.antt =====
-- `ParseClientMessage` of server/internal/protocol/messages.go, with one function for the body of each
-- message type.
use open_rtc.Base.{
  ℤ, pos, negsuc, ℕ, zero, suc, String, Bool, true, false, not, ◌&&◌, ◌||◌, Option, none, some,
  List, [], ◌∷◌, ◌==◌, if◌then◌else◌, leb, nat_eq, length, contains, append, has_prefix,
}
use open_rtc.Catalog.{bad_request, payload_too_large, room_forbidden}
use open_rtc.Cluster.{Bytes}
use open_rtc.Dict.{Dict, get, has, keys}
use open_rtc.Protocol.{
  MessageType, join, leave, emit, event_ack, presence_set, storage_get, storage_set, storage_patch,
  JoinMeta, EmitMeta, EventAckMeta, StorageMeta, Message, ParseOptions, Parsed, parsed, ◌>>=◌, ◌>>◌,
  require, wanted, Decoders,
}
use open_rtc.Protocol.Names.{validate_message_id, validate_room_name, validate_event_name}

abbrev pub max_payload_bytes_default : ℕ
max_payload_bytes_default = 16384

abbrev pub max_envelope_bytes_default : ℕ
max_envelope_bytes_default = 20480

unfoldable pub or_default : ℕ → ℕ → ℕ
or_default zero limit = limit
or_default (suc n) limit = suc n

-- Every key of the map is one of these.
unfoldable pub only : List String → List String → Bool
unfolding contains
only allowed [] = true
only allowed (key ∷ keys) = contains allowed key && only allowed keys

-- envelope[key]: empty where the key is missing.
unfoldable pub raw_of : Dict Bytes → String → Bytes
unfolding get
raw_of d key = elim (get d key) [ none ↦ [] | some bytes ↦ bytes ]

unfoldable pub is_empty : Bytes → Bool
is_empty [] = true
is_empty (b ∷ bs) = false

unfoldable pub starts_with_byte : ℕ → Bytes → Bool
starts_with_byte b [] = false
starts_with_byte b (c ∷ bs) = nat_eq c b

-- bytes.TrimSpace, as far as its first byte tells.
unfoldable pub trim_bytes : Bytes → Bytes
trim_bytes [] = []
trim_bytes (b ∷ bs) =
    let rest = trim_bytes bs in if (leb 9 b && leb b 13) || nat_eq b 32 then rest else b ∷ bs

unfoldable pub message_type_of : String → Option MessageType
message_type_of name =
    if name == "JOIN"
    then some join
    else if name == "LEAVE"
    then some leave
    else if name == "EMIT"
    then some emit
    else if name == "EVENT_ACK"
    then some event_ack
    else if name == "PRESENCE_SET"
    then some presence_set
    else if name == "STORAGE_GET"
    then some storage_get
    else if name == "STORAGE_SET"
    then some storage_set
    else if name == "STORAGE_PATCH"
    then some storage_patch
    else none

unfoldable pub type_text : MessageType → String
type_text join = "JOIN"
type_text leave = "LEAVE"
type_text emit = "EMIT"
type_text event_ack = "EVENT_ACK"
type_text presence_set = "PRESENCE_SET"
type_text storage_get = "STORAGE_GET"
type_text storage_set = "STORAGE_SET"
type_text storage_patch = "STORAGE_PATCH"

unfoldable pub is_limit : ℤ → Bool
is_limit (pos n) = leb 1 n && leb n 200
is_limit (negsuc n) = false

unfoldable pub validate_op_id : String → Bool → Parsed (Unit {0})
unfolding validate_message_id
validate_op_id op_id true = validate_message_id op_id
validate_op_id op_id false = parsed tt

-- A meta object that may be left out.
abbrev pub optional : {A : Type 0} → Bytes → Parsed A → Parsed (Option A)
optional [] read = parsed none
optional (b ∷ bs) read = read >>= λ a. parsed (some a)

unfoldable pub in_prefix : ParseOptions → String → Bool
unfolding has_prefix
in_prefix options room = options.tenant_prefix == "" || has_prefix room options.tenant_prefix

abbrev pub message_of : MessageType → String → String → Bytes → Message
message_of kind id room payload = record {
  message_type = kind;
  id = id;
  room = room;
  event = "";
  payload = payload;
  join_meta = none;
  emit_meta = none;
  event_ack_meta = none;
  storage_meta = none;
}

abbrev pub envelope_keys : List String
envelope_keys = "t" ∷ "id" ∷ "room" ∷ "event" ∷ "payload" ∷ "meta" ∷ []

module _ (d : Decoders) where
  unfoldable pub read_required_string : Dict Bytes → String → String → Parsed String
  read_required_string envelope key failure = do
    require (not (is_empty (raw_of envelope key))) bad_request failure
    value ← wanted (d.string (raw_of envelope key)) bad_request failure
    require (not (value == "")) bad_request failure
    parsed value

  -- A member of a meta object: the default where it is missing.
  unfoldable pub read_member {ℓ} :
      {A : Type ℓ} → (Bytes → Option A) → (A → Bool) → A → Dict Bytes → String → String → Parsed A
  read_member decode accept default meta key failure = elim (get meta key) [
    | none ↦ parsed default
    | some raw ↦ do
      value ← wanted (decode raw) bad_request failure
      require (accept value) bad_request failure
      parsed value
  ]

  unfoldable pub read_meta : Bytes → List String → String → Parsed (Dict Bytes)
  read_meta meta allowed failure = do
    members ← wanted (d.object meta) bad_request "Meta must be an object when present"
    require (only allowed (keys members)) bad_request failure
    parsed members

  unfoldable pub read_join_meta : Bytes → Parsed JoinMeta
  read_join_meta meta = do
    members ←
        read_meta meta ("limit" ∷ "cursor" ∷ "after_seq" ∷ [])
          "JOIN meta includes unsupported fields"
    limit ←
        read_member d.int is_limit (pos 0) members "limit"
          "JOIN meta.limit must be an integer between 1 and 200"
    cursor ←
        read_member d.string (λ (s : String). not (s == "")) "" members "cursor"
          "JOIN meta.cursor must be a non-empty string"
    after_sequence ←
        read_member d.uint (λ (n : ℕ). true) 0 members "after_seq"
          "JOIN meta.after_seq must be an integer greater than or equal to 0"
    parsed (record { limit = limit; cursor = cursor; after_sequence = after_sequence })

  unfoldable pub read_emit_meta : Bytes → Parsed EmitMeta
  read_emit_meta meta = do
    members ← read_meta meta ("trace_id" ∷ []) "EMIT meta includes unsupported fields"
    trace_id ←
        read_member d.string (λ (s : String). not (s == "")) "" members "trace_id"
          "EMIT meta.trace_id must be a non-empty string"
    parsed (record { trace_id = trace_id })

  unfoldable pub read_event_ack_meta : Bytes → Parsed EventAckMeta
  read_event_ack_meta meta = do
    members ← read_meta meta ("seq" ∷ []) "EVENT_ACK meta includes unsupported fields"
    require (has members "seq") bad_request "EVENT_ACK requires meta.seq"
    sequence ←
        read_member d.uint (λ (n : ℕ). not (nat_eq n 0)) 0 members "seq"
          "EVENT_ACK meta.seq must be an integer greater than or equal to 1"
    parsed (record { sequence = sequence })

  unfoldable pub read_storage_meta : MessageType → Bytes → Parsed StorageMeta
  read_storage_meta kind meta = do
    members ←
        read_meta meta ("op_id" ∷ "expected_seq" ∷ [])
          (append (type_text kind) " meta includes unsupported fields")
    op_id ←
        read_member d.string (λ (s : String). not (s == "")) "" members "op_id"
          (append (type_text kind) " meta.op_id must be a non-empty string")
    validate_op_id op_id (has members "op_id")
    expected ←
        read_member d.uint (λ (n : ℕ). true) 0 members "expected_seq"
          (append (type_text kind)
            " meta.expected_seq must be an integer greater than or equal to 0")
    parsed (record {
      op_id = op_id;
      expected_sequence = expected;
      expected_sequence_set = has members "expected_seq";
    })

  -- The first bytes of a storage payload.
  unfoldable pub check_storage_payload : MessageType → Bytes → Parsed (Unit {0})
  check_storage_payload kind payload = do
    require (not (is_empty payload) && d.valid payload) bad_request
        (append (type_text kind) " requires JSON payload")
    elim kind [
      | storage_set ↦
          require (starts_with_byte 123 (trim_bytes payload)) bad_request
            "STORAGE_SET requires object payload"
      | storage_patch ↦
          require (starts_with_byte 91 (trim_bytes payload)) bad_request
            "STORAGE_PATCH requires JSON Patch array payload"
      | _ ↦ parsed tt
    ]

  unfoldable pub read_storage_body : Bytes → Message → Parsed Message
  read_storage_body meta m = do
    check_storage_payload m.message_type m.payload
    storage_meta ← optional meta (read_storage_meta m.message_type meta)
    parsed (record m { storage_meta = storage_meta })

  -- The switch on the message type: `meta` is the meta of the envelope, empty where it has none.
  unfoldable pub read_body : MessageType → Dict Bytes → Bytes → Message → Parsed Message
  read_body join envelope meta m = do
    join_meta ← optional meta (read_join_meta meta)
    parsed (record m { join_meta = join_meta })
  read_body leave envelope meta m = parsed m
  read_body emit envelope meta m = do
    event ← read_required_string envelope "event" "EMIT requires `event`"
    validate_event_name event
    require (not (is_empty m.payload)) bad_request "EMIT requires `payload`"
    emit_meta ← optional meta (read_emit_meta meta)
    parsed (record m { event = event; emit_meta = emit_meta })
  read_body event_ack envelope meta m = do
    require (is_empty m.payload) bad_request "EVENT_ACK does not accept payload"
    require (not (is_empty meta)) bad_request "EVENT_ACK requires meta.seq"
    ack ← read_event_ack_meta meta
    parsed (record m { event_ack_meta = some ack })
  read_body presence_set envelope meta m = do
    require (not (is_empty m.payload) && (d.valid m.payload && starts_with_byte 123 m.payload))
        bad_request "PRESENCE_SET requires object payload"
    parsed m
  read_body storage_get envelope meta m = do
    require (is_empty m.payload) bad_request "STORAGE_GET does not accept payload"
    require (is_empty meta) bad_request "STORAGE_GET does not accept meta"
    parsed m
  read_body storage_set envelope meta m = read_storage_body meta m
  read_body storage_patch envelope meta m = read_storage_body meta m

  unfoldable pub parse_client_message : Bytes → ParseOptions → Parsed Message
  parse_client_message raw options = do
    require (leb (length raw) (or_default options.max_envelope_bytes max_envelope_bytes_default))
        payload_too_large "Envelope exceeds max size"
    envelope ← wanted (d.object raw) bad_request "Message must be valid JSON"
    require (only envelope_keys (keys envelope)) bad_request "Envelope includes unsupported fields"
    name ← read_required_string envelope "t" "Message type `t` is required"
    id ← read_required_string envelope "id" "Message id `id` is required"
    validate_message_id id
    kind ← wanted (message_type_of name) bad_request (append "Unsupported message type: " name)
    room ← read_required_string envelope "room" "Room is required for this message type"
    validate_room_name room
    require (in_prefix options room) room_forbidden "Room is outside the allowed tenant prefix"
    require
        (leb (length (raw_of envelope "payload"))
          (or_default options.max_payload_bytes max_payload_bytes_default))
        payload_too_large "Payload exceeds max size"
    read_body kind envelope (raw_of envelope "meta")
        (message_of kind id room (raw_of envelope "payload"))
