-- ===== src/Tests/Protocol.antt =====
-- Examples of the parser, with a decoder that knows one envelope.
use open_rtc.Base.{String, ◌≡◌, refl, true, Option, none, some, [], ◌∷◌, if◌then◌else◌, nat_eq}
use open_rtc.Cluster.{Bytes}
use open_rtc.Dict.{Dict, get, put, empty}
use open_rtc.Protocol.{Message, emit, ParseOptions, Parsed, parsed, Decoders}
use open_rtc.Protocol.Parse.{parse_client_message, message_of, raw_of}
use open_rtc.Protocol.Emit.{IsEmit, parse_client_message-IsEmit}
use open_rtc.Protocol.Sound.{IsAccepted, parse_client_message-IsAccepted}

abbrev envelope : Dict Bytes
envelope =
    put (put (put (put (put empty "t" (1 ∷ [])) "id" (2 ∷ [])) "room" (3 ∷ [])) "event" (4 ∷ []))
      "payload" (5 ∷ [])

abbrev string_of : Bytes → Option String
string_of [] = none
string_of (b ∷ bs) =
    if nat_eq b 1
    then some "EMIT"
    else if nat_eq b 2
    then some "m1"
    else if nat_eq b 3
    then some "acme:lobby"
    else some "said"

abbrev decoders : Decoders
decoders = record {
  object = λ bytes. some envelope;
  string = string_of;
  int = λ bytes. none;
  uint = λ bytes. none;
  valid = λ bytes. true;
}

abbrev options : ParseOptions
options = record { max_envelope_bytes = 0; max_payload_bytes = 10; tenant_prefix = "acme:" }

abbrev said : Message
said = record (message_of emit "m1" "acme:lobby" (5 ∷ [])) { event = "said" }

parses : parse_client_message decoders (9 ∷ []) options ≡ parsed said
unfolding parse_client_message open_rtc.Protocol.Parse.or_default open_rtc.Protocol.Parse.only
    open_rtc.Dict.keys put empty open_rtc.Protocol.Parse.read_required_string
    open_rtc.Protocol.Parse.is_empty raw_of open_rtc.Protocol.Names.validate_message_id
    open_rtc.Protocol.Parse.message_type_of open_rtc.Protocol.Names.validate_room_name
    open_rtc.Protocol.Parse.in_prefix open_rtc.Protocol.Parse.read_body
    open_rtc.Protocol.Names.validate_event_name
parses = refl

parse_client_message-IsAccepted_example : IsAccepted decoders (9 ∷ []) options said
parse_client_message-IsAccepted_example =
    parse_client_message-IsAccepted decoders (9 ∷ []) options said parses

parse_client_message-IsEmit_example : IsEmit decoders envelope (9 ∷ []) options said
unfolding open_rtc.Protocol.Parse.is_empty raw_of put empty
parse_client_message-IsEmit_example =
    (parse_client_message-IsEmit decoders envelope (9 ∷ []) options said refl (refl, refl, refl)
        refl).0
      parses
