-- ===== src/Protocol/Sound.antt =====
-- What `ParseClientMessage` of server/internal/protocol/messages.go promises of a message.
use open_rtc.Base.{
  ℕ, ◌≤◌, String, ◌≡◌, refl, sym, subst, ◌∙◌, true, ◌==◌, arith, leb, length, append,
  has_prefix_iff, inl, inr, Bool-cases, leb→le, eq_iff,
}
use open_rtc.Catalog.{bad_request, payload_too_large, room_forbidden}
use open_rtc.Cluster.{Bytes}
use open_rtc.Dict.{Dict, keys}
use open_rtc.Protocol.{
  MessageType, Message, ParseOptions, parsed, require, wanted, Decoders, >>=-eq-parsed,
}
use open_rtc.Protocol.Names.{validate_message_id, validate_room_name}
use open_rtc.Protocol.Parse.{
  or_default, only, raw_of, message_type_of, max_payload_bytes_default, max_envelope_bytes_default,
  in_prefix, read_required_string, read_body, parse_client_message, message_of, envelope_keys,
}
use open_rtc.Protocol.Shape.{IsIdentifier, HasShape}
use open_rtc.Protocol.Metas.{validated_id, validated_room}
use open_rtc.Protocol.Bodies.{read_body-Keeps, read_body-HasShape}

module _ (d : Decoders) where
  -- An accepted message came in an envelope within the limit, is named by identifiers, stands in a room that
  -- begins with the tenant prefix, has a payload within the limit, and has what its type asks for.
  pub record IsAccepted (raw : Bytes) (options : ParseOptions) (m : Message) : Type 0 where
    pub envelope_within :
        length raw ≤ or_default options.max_envelope_bytes max_envelope_bytes_default
    pub id_named : IsIdentifier 128 m.id
    pub room_named : IsIdentifier 256 m.room
    pub in_tenant : (rest : String) × (m.room ≡ append options.tenant_prefix rest)
    pub payload_within :
        length m.payload ≤ or_default options.max_payload_bytes max_payload_bytes_default
    pub shape : HasShape d m.message_type m

  pub in_prefix-rest :
      (options : ParseOptions) (room : String)
      → in_prefix options room ≡ true
      → (rest : String) × (room ≡ append options.tenant_prefix rest)
  unfolding in_prefix append
  in_prefix-rest options room h = elim (Bool-cases (options.tenant_prefix == "")) [
    | inl e ↦ (room, rw ((eq_iff options.tenant_prefix "").0 e, append) refl)
    | inr e ↦ has_prefix_iff room options.tenant_prefix (ground arith)
  ]

  -- A message that is returned has passed every check of the envelope and of its body.
  record Passed (raw : Bytes) (options : ParseOptions) (m : Message) : Type 0 where
    envelope : Dict Bytes
    kind : MessageType
    id : String
    room : String
    within :
        leb (length raw) (or_default options.max_envelope_bytes max_envelope_bytes_default) ≡ true
    id_valid : validate_message_id id ≡ parsed tt
    room_valid : validate_room_name room ≡ parsed tt
    prefixed : in_prefix options room ≡ true
    payload_bounded :
        leb
          (length (raw_of envelope "payload"))
          (or_default options.max_payload_bytes max_payload_bytes_default)
        ≡ true
    read :
        read_body d kind envelope
          (raw_of envelope "meta")
          (message_of kind id room (raw_of envelope "payload"))
        ≡ parsed m

  passes :
      (raw : Bytes) (options : ParseOptions) (m : Message)
      → parse_client_message d raw options ≡ parsed m
      → Passed raw options m
  unfolding parse_client_message
  passes raw options m h =
      let max_envelope : ℕ = or_default options.max_envelope_bytes max_envelope_bytes_default in
      let max_payload : ℕ = or_default options.max_payload_bytes max_payload_bytes_default in
      let (u0, e0, h0) =
        >>=-eq-parsed
          (require (leb (length raw) max_envelope) payload_too_large "Envelope exceeds max size") _
          h in
      let (envelope, e1, h1) =
        >>=-eq-parsed (wanted (d.object raw) bad_request "Message must be valid JSON") _ h0 in
      let (u2, e2, h2) =
        >>=-eq-parsed
          (require (only envelope_keys (keys envelope)) bad_request
            "Envelope includes unsupported fields")
          _ h1 in
      let (name, e3, h3) =
        >>=-eq-parsed (read_required_string d envelope "t" "Message type `t` is required") _ h2 in
      let (id, e4, h4) =
        >>=-eq-parsed (read_required_string d envelope "id" "Message id `id` is required") _ h3 in
      let (u5, e5, h5) = >>=-eq-parsed (validate_message_id id) _ h4 in
      let (kind, e6, h6) =
        >>=-eq-parsed
          (wanted (message_type_of name) bad_request (append "Unsupported message type: " name)) _
          h5 in
      let (room, e7, h7) =
        >>=-eq-parsed
          (read_required_string d envelope "room" "Room is required for this message type") _ h6 in
      let (u8, e8, h8) = >>=-eq-parsed (validate_room_name room) _ h7 in
      let (u9, e9, h9) =
        >>=-eq-parsed
          (require (in_prefix options room) room_forbidden
            "Room is outside the allowed tenant prefix")
          _ h8 in
      let (u10, e10, h10) =
        >>=-eq-parsed
          (require (leb (length (raw_of envelope "payload")) max_payload) payload_too_large
            "Payload exceeds max size")
          _ h9 in
      let start : Message = message_of kind id room (raw_of envelope "payload") in
      record {
        envelope = envelope;
        kind = kind;
        id = id;
        room = room;
        within = ground arith;
        id_valid = e5;
        room_valid = e8;
        prefixed = ground arith;
        payload_bounded = ground arith;
        read = h10;
      }

  accepted :
      (raw : Bytes) (options : ParseOptions) (m : Message)
      → Passed raw options m
      → IsAccepted raw options m
  accepted raw options m p =
      let (same_type, same_id, same_room, same_payload) =
        read_body-Keeps d p.kind p.envelope (raw_of p.envelope "meta")
          (message_of p.kind p.id p.room (raw_of p.envelope "payload")) p.read in
      record {
        envelope_within = leb→le _ _ p.within;
        id_named = subst (IsIdentifier 128) (sym same_id) (validated_id p.id p.id_valid);
        room_named = subst (IsIdentifier 256) (sym same_room) (validated_room p.room p.room_valid);
        in_tenant =
            (let (rest, e) = in_prefix-rest options p.room p.prefixed in (rest, same_room ∙ e));
        payload_within = rw same_payload (leb→le _ _ p.payload_bounded);
        shape =
            subst (λ t. HasShape d t m) (sym same_type)
              (read_body-HasShape d p.kind p.envelope (raw_of p.envelope "meta")
                (message_of p.kind p.id p.room (raw_of p.envelope "payload")) m
                (refl, refl, refl, refl, refl) refl p.read);
      }

  -- Every message that the parser returns came in an envelope within the limit, has an id of 1 to 128 and a
  -- room of 1 to 256 safe characters, stands in a room that begins with the tenant prefix, has a payload
  -- within the limit, and has exactly the parts that its type asks for, valid ones: whatever the bytes and
  -- the decoder.
  pub parse_client_message-IsAccepted :
      (raw : Bytes) (options : ParseOptions) (m : Message)
      → parse_client_message d raw options ≡ parsed m
      → IsAccepted raw options m
  parse_client_message-IsAccepted raw options m h = accepted raw options m (passes raw options m h)
