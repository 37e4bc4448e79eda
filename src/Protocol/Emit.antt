-- ===== src/Protocol/Emit.antt =====
-- Which EMIT messages get through `ParseClientMessage` of server/internal/protocol/messages.go.
use open_rtc.Base.{
  ◌≤◌, String, ◌≡◌, refl, sym, ap, ◌∙◌, subst, ◌↔◌, inl, inr, Bool, true, false, not, some, List,
  [], ◌∷◌, ◌==◌, le→leb, leb→le, leb, length, contains, append, has_prefix-append, eq_iff, eq_refl,
  Bool-cases, arith,
}
use open_rtc.Catalog.{Code, bad_request}
use open_rtc.Protocol.Metas.{unparsed, validated_id, validated_room, validated_event}
use open_rtc.Protocol.Sound.{in_prefix-rest}
use open_rtc.Cluster.{Bytes}
use open_rtc.Dict.{Dict, keys}
use open_rtc.Protocol.{
  emit, Message, ParseOptions, Parsed, parsed, refused, ◌>>=◌, require, wanted, Decoders,
}
use open_rtc.Protocol.Names.{validate_message_id, validate_room_name, validate_event_name}
use open_rtc.Protocol.Shape.{IsIdentifier}
use open_rtc.Protocol.Parse.{
  or_default, only, raw_of, is_empty, message_type_of, max_payload_bytes_default,
  max_envelope_bytes_default, in_prefix, read_required_string, read_body, parse_client_message,
  message_of, envelope_keys,
}

-- What follows from the steps of a chain that returns a value.
steps_of :
    {A B C : Type 0} (m : Parsed A) (f : A → Parsed B) {b : B}
    → (m >>= f) ≡ parsed b
    → ((a : A) → m ≡ parsed a → f a ≡ parsed b → C)
    → C
steps_of (parsed a) f h k = k a refl h
steps_of (refused e) f h k = absurd cc

-- Exactly the keys of an envelope may be there.
only_iff :
    (allowed ks : List String)
    → (only allowed ks ≡ true) ↔ ((k : String) → contains ks k ≡ true → contains allowed k ≡ true)
unfolding only contains
only_iff allowed [] = (λ h k m. absurd cc, λ h. refl)
only_iff allowed (j ∷ ks) =
    let ih = only_iff allowed ks in
    (
      λ h k m. elim (Bool-cases (j == k)) [
        | inl e ↦ subst (λ n. contains allowed n ≡ true) ((eq_iff j k).0 e) (ground arith)
        | inr e ↦ ih.0 (ground arith) k (ground arith)
      ],
      λ h.
          let here : contains allowed j ≡ true = h j (ground (arith, eq_refl j)) in
          let there = ih.1 (λ k m. h k (ground arith)) in ground arith,
    )

in_prefix-append :
    (options : ParseOptions) (room rest : String)
    → room ≡ append options.tenant_prefix rest
    → in_prefix options room ≡ true
unfolding in_prefix
in_prefix-append options room rest e =
    rw e (ground (arith, has_prefix-append options.tenant_prefix rest))

-- A check that lets a message pass has held.
required :
    (b : Bool) (code : Code) (message : String) {u : Unit {0}}
    → require b code message ≡ parsed u
    → b ≡ true
required true code message h = refl
required false code message h = cc

-- A step whose value is known.
known_step :
    {A B C : Type 0} (m : Parsed A) (f : A → Parsed B) {a : A} {b : B}
    → (m >>= f) ≡ parsed b
    → m ≡ parsed a
    → (f a ≡ parsed b → C)
    → C
known_step m f {b = b} h e k = k (subst (λ n. (n >>= f) ≡ parsed b) e h)

emit_type :
    wanted (message_type_of "EMIT") bad_request (append "Unsupported message type: " "EMIT")
    ≡ parsed emit
unfolding message_type_of
emit_type = refl

id_valid : (id : String) → IsIdentifier 128 id → validate_message_id id ≡ parsed tt
unfolding validate_message_id
id_valid id h = rw (h.0, h.1)

room_valid : (room : String) → IsIdentifier 256 room → validate_room_name room ≡ parsed tt
unfolding validate_room_name
room_valid room h = rw (h.0, h.1)

event_valid : (event : String) → IsIdentifier 128 event → validate_event_name event ≡ parsed tt
unfolding validate_event_name
event_valid event h = rw (h.0, h.1)

module _ (d : Decoders) (envelope : Dict Bytes) where
  -- The member is there and decodes to the text, which is not empty.
  abbrev pub Holds : String → String → Type 0
  Holds key s =
      (is_empty (raw_of envelope key) ≡ false)
      × (d.string (raw_of envelope key) ≡ some s)
      × ((s == "") ≡ false)

  Holds-read_required_string :
      (key failure s : String)
      → Holds key s
      → read_required_string d envelope key failure ≡ parsed s
  unfolding read_required_string
  Holds-read_required_string key failure s h = rw (h.0, h.1) (rw h.2)

  -- An EMIT message that passes every check is returned with its parts.
  emit_accepted :
      (raw : Bytes) (options : ParseOptions) (id room event : String)
      → length raw ≤ or_default options.max_envelope_bytes max_envelope_bytes_default
      → d.object raw ≡ some envelope
      → only envelope_keys (keys envelope) ≡ true
      → Holds "t" "EMIT"
      → Holds "id" id × IsIdentifier 128 id
      → Holds "room" room × IsIdentifier 256 room
      → Holds "event" event × IsIdentifier 128 event
      → in_prefix options room ≡ true
      → is_empty (raw_of envelope "payload") ≡ false
      → length (raw_of envelope "payload")
        ≤ or_default options.max_payload_bytes max_payload_bytes_default
      → raw_of envelope "meta" ≡ []
      → parse_client_message d raw options
        ≡ parsed (record (message_of emit id room (raw_of envelope "payload")) { event = event })
  unfolding parse_client_message read_body message_type_of
  emit_accepted raw options id room event w o only_known t i r e p full within no_meta =
      rw
        (
          le→leb _ _ w,
          o,
          only_known,
          Holds-read_required_string "t" "Message type `t` is required" "EMIT" t,
          Holds-read_required_string "id" "Message id `id` is required" id i.0,
          id_valid id i.1,
          Holds-read_required_string "room" "Room is required for this message type" room r.0,
          room_valid room r.1,
          p,
          le→leb _ _ within,
          Holds-read_required_string "event" "EMIT requires `event`" event e.0,
          event_valid event e.1,
          full,
          no_meta,
        )
        refl

  read_required_string-Holds :
      (key failure : String) {s : String}
      → read_required_string d envelope key failure ≡ parsed s
      → Holds key s
  unfolding read_required_string
  read_required_string-Holds key failure h =
      steps_of (require (not (is_empty (raw_of envelope key))) _ _) _ h λ u e0 h0.
        steps_of (wanted (d.string (raw_of envelope key)) _ _) _ h0 λ value e1 h1.
          steps_of (require (not (value == "")) _ _) _ h1
            λ v e2 h2. (ground arith, ground arith, ground arith)

  -- What an EMIT message without meta has to be: an envelope within the limit with no unknown member; an
  -- id, a room and an event that are identifiers, the room with the tenant prefix; and a payload that is
  -- there and within the limit. The message has these parts and no other.
  pub record IsEmit (raw : Bytes) (options : ParseOptions) (m : Message) : Type 0 where
    pub envelope_within :
        length raw ≤ or_default options.max_envelope_bytes max_envelope_bytes_default
    pub known : (k : String) → contains (keys envelope) k ≡ true → contains envelope_keys k ≡ true
    pub id : Holds "id" m.id × IsIdentifier 128 m.id
    pub room : Holds "room" m.room × IsIdentifier 256 m.room
    pub event : Holds "event" m.event × IsIdentifier 128 m.event
    pub in_tenant : (rest : String) × (m.room ≡ append options.tenant_prefix rest)
    pub payload_there : is_empty (raw_of envelope "payload") ≡ false
    pub payload_within :
        length (raw_of envelope "payload")
        ≤ or_default options.max_payload_bytes max_payload_bytes_default
    pub parts :
        m ≡ record (message_of emit m.id m.room (raw_of envelope "payload")) { event = m.event }

  -- The parts of an EMIT message that its body returns.
  abbrev EmitBody : String → String → Bytes → Message → Type 0
  EmitBody id room payload m =
      (event : String) × Holds "event" event
      × IsIdentifier 128 event
      × (is_empty payload ≡ false)
      × (m ≡ record (message_of emit id room payload) { event = event })

  read_body-EmitBody :
      (id room : String) (payload : Bytes) {m : Message}
      → read_body d emit envelope [] (message_of emit id room payload) ≡ parsed m
      → EmitBody id room payload m
  unfolding read_body
  read_body-EmitBody id room payload h =
      steps_of (read_required_string d envelope "event" _) _ h λ event e0 h0.
        steps_of (validate_event_name event) _ h0 λ u e1 h1.
          steps_of (require (not (is_empty payload)) _ _) _ h1 λ v e2 h2. (
            event,
            read_required_string-Holds "event" _ e0,
            validated_event event e1,
            ground arith,
            unparsed h2,
          )

  parse_client_message-IsEmit_sound :
      (raw : Bytes) (options : ParseOptions) (m : Message)
      → d.object raw ≡ some envelope
      → Holds "t" "EMIT"
      → raw_of envelope "meta" ≡ []
      → parse_client_message d raw options ≡ parsed m
      → IsEmit raw options m
  unfolding parse_client_message
  parse_client_message-IsEmit_sound raw options m object t no_meta h =
      steps_of (require (leb (length raw) _) _ _) _ h λ u0 e0 h0.
        known_step (wanted (d.object raw) bad_request "Message must be valid JSON") _ h0
          (ap (λ o. wanted o bad_request "Message must be valid JSON") object)
          λ h1. steps_of (require (only envelope_keys (keys envelope)) _ _) _ h1 λ u2 e2 h2.
            known_step (read_required_string d envelope "t" _) _ h2
              (Holds-read_required_string "t" _ "EMIT" t)
              λ h3. steps_of (read_required_string d envelope "id" _) _ h3 λ id e4 h4.
                steps_of (validate_message_id id) _ h4 λ u5 e5 h5.
                  known_step (wanted (message_type_of "EMIT") _ _) _ h5 emit_type λ h6.
                    steps_of (read_required_string d envelope "room" _) _ h6 λ room e7 h7.
                      steps_of (validate_room_name room) _ h7 λ u8 e8 h8.
                        steps_of (require (in_prefix options room) _ _) _ h8 λ u9 e9 h9.
                          steps_of (require (leb (length (raw_of envelope "payload")) _) _ _) _ h9
                            λ u10 e10 h10.
                              let (event, held, named, there, made) =
                                read_body-EmitBody id room (raw_of envelope "payload") (
                                  subst
                                    (λ meta.
                                      read_body d emit envelope meta
                                        (message_of emit id room (raw_of envelope "payload"))
                                      ≡ parsed m)
                                    no_meta h10) in
                              subst (IsEmit raw options) (sym made) (record {
                                envelope_within = leb→le _ _ (required _ _ _ e0);
                                known =
                                    (only_iff envelope_keys (keys envelope)).0 (required _ _ _ e2);
                                id = (read_required_string-Holds "id" _ e4, validated_id id e5);
                                room = (
                                  read_required_string-Holds "room" _ e7,
                                  validated_room room e8,
                                );
                                event = (held, named);
                                in_tenant = in_prefix-rest d options room (required _ _ _ e9);
                                payload_there = there;
                                payload_within = leb→le _ _ (required _ _ _ e10);
                                parts = refl;
                              })

  -- For an envelope that decodes, has the type EMIT and no meta: a message is returned exactly if the
  -- envelope is within the limit and has no unknown member; the members id, room and event decode to the
  -- texts of the message, which are identifiers, of at most 128, 256 and 128 bytes; the room begins with
  -- the tenant prefix; the payload is there and within the limit; and the message has these parts and no
  -- other.
  pub parse_client_message-IsEmit :
      (raw : Bytes) (options : ParseOptions) (m : Message)
      → d.object raw ≡ some envelope
      → Holds "t" "EMIT"
      → raw_of envelope "meta" ≡ []
      → (parse_client_message d raw options ≡ parsed m) ↔ IsEmit raw options m
  parse_client_message-IsEmit raw options m object t no_meta = (
    parse_client_message-IsEmit_sound raw options m object t no_meta,
    λ h.
        emit_accepted raw options m.id m.room m.event h.envelope_within object
          ((only_iff envelope_keys (keys envelope)).1 h.known) t h.id h.room h.event
          (in_prefix-append options m.room h.in_tenant.0 h.in_tenant.1) h.payload_there
          h.payload_within no_meta
        ∙ ap parsed (sym h.parts),
  )
