-- ===== src/Protocol.antt =====
-- The messages that clients send: server/internal/protocol/messages.go. The types are here, the checks
-- of names in Protocol/Names and the parser in Protocol/Parse; the other children have the proofs.
pub mod Names
pub mod Parse
pub mod Shape
pub mod Metas
pub mod Bodies
pub mod Sound
pub mod Emit
use open_rtc.Base.{◌≡◌, refl, ℤ, ℕ, String, Bool, true, false, Option, none, some}
use open_rtc.Catalog.{Code}
use open_rtc.Cluster.{Bytes}
use open_rtc.Dict.{Dict}

pub data MessageType : Type 0 where
  join leave emit event_ack presence_set storage_get storage_set storage_patch : MessageType

pub record JoinMeta : Type 0 where
  pub limit : ℤ
  pub cursor : String
  pub after_sequence : ℕ

pub record EmitMeta : Type 0 where
  pub trace_id : String

pub record EventAckMeta : Type 0 where
  pub sequence : ℕ

pub record StorageMeta : Type 0 where
  pub op_id : String
  pub expected_sequence : ℕ
  pub expected_sequence_set : Bool

pub record Message : Type 0 where
  pub message_type : MessageType
  pub id : String
  pub room : String
  pub event : String
  pub payload : Bytes
  pub join_meta : Option JoinMeta
  pub emit_meta : Option EmitMeta
  pub event_ack_meta : Option EventAckMeta
  pub storage_meta : Option StorageMeta

pub record ParseOptions : Type 0 where
  pub max_envelope_bytes : ℕ
  pub max_payload_bytes : ℕ
  pub tenant_prefix : String

pub record ParseError : Type 0 where
  pub code : Code
  pub message : String

-- A call that returns a value or a ParseError.
pub data Parsed {ℓ} (A : Type ℓ) : Type ℓ where
  parsed : A → Parsed A
  refused : ParseError → Parsed A

infixl 5 ◌>>=◌ ◌>>◌
abbrev pub ◌>>=◌ {ℓ κ} : {A : Type ℓ} {B : Type κ} → Parsed A → (A → Parsed B) → Parsed B
parsed a >>= f = f a
refused e >>= f = refused e

abbrev pub ◌>>◌ {ℓ} : {B : Type ℓ} → Parsed (Unit {0}) → Parsed B → Parsed B
m >> k = m >>= λ _. k

abbrev pub require : Bool → Code → String → Parsed (Unit {0})
require true code message = parsed tt
require false code message = refused (record { code = code; message = message })

abbrev pub wanted {ℓ} : {A : Type ℓ} → Option A → Code → String → Parsed A
wanted (some a) code message = parsed a
wanted none code message = refused (record { code = code; message = message })

-- A chain that returns a value has done so at each of its steps.
pub >>=-eq-parsed {ℓ κ} :
    {A : Type ℓ} {B : Type κ} (m : Parsed A) (f : A → Parsed B) {b : B}
    → (m >>= f) ≡ parsed b
    → (a : A) × (m ≡ parsed a) × (f a ≡ parsed b)
>>=-eq-parsed (parsed a) f h = (a, refl, h)
>>=-eq-parsed (refused e) f h = cc

-- encoding/json, as far as the parser uses it. `none` is an error.
pub record Decoders : Type 0 where
  -- into a map[string]json.RawMessage
  pub object : Bytes → Option (Dict Bytes)
  -- into a string, an int and a uint64
  pub string : Bytes → Option String
  pub int : Bytes → Option ℤ
  pub uint : Bytes → Option ℕ
  -- json.Valid
  pub valid : Bytes → Bool
