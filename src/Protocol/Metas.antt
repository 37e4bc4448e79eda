-- ===== src/Protocol/Metas.antt =====
-- The checks of names and of the meta objects in server/internal/protocol/messages.go.
use open_rtc.Base.{
  ℕ, ◌≤◌, String, ◌≡◌, refl, true, not, ◌||◌, Option, none, some, [], ◌∷◌, ◌==◌, arith, append,
}
use open_rtc.Catalog.{bad_request}
use open_rtc.Cluster.{Bytes}
use open_rtc.Dict.{Dict, get, has, is_some}
use open_rtc.Protocol.{
  MessageType, JoinMeta, EventAckMeta, StorageMeta, parsed, ◌>>=◌, ◌>>◌, require, wanted, Decoders,
  >>=-eq-parsed,
}
use open_rtc.Protocol.Names.{is_name, validate_message_id, validate_room_name, validate_event_name}
use open_rtc.Protocol.Parse.{
  is_empty, type_text, is_limit, read_member, read_meta, read_join_meta, read_event_ack_meta,
  validate_op_id, read_storage_meta,
}
use open_rtc.Protocol.Shape.{IsIdentifier, at_most_200}

pub validated_event :
    (event : String) → validate_event_name event ≡ parsed tt → IsIdentifier 128 event
unfolding validate_event_name
validated_event event h = ground arith

pub validated_id : (id : String) → validate_message_id id ≡ parsed tt → IsIdentifier 128 id
unfolding validate_message_id
validated_id id h = ground arith

pub validated_room : (room : String) → validate_room_name room ≡ parsed tt → IsIdentifier 256 room
unfolding validate_room_name
validated_room room h = ground arith

pub unparsed : {A : Type 0} {s t : A} → parsed s ≡ parsed t → t ≡ s
unparsed e = cc

pub emptied : (bytes : Bytes) → is_empty bytes ≡ true → bytes ≡ []
unfolding is_empty
emptied [] h = refl
emptied (b ∷ bs) h = cc

module _ (d : Decoders) where
  pub read_join_meta-ok :
      (meta : Bytes) {r : JoinMeta} → read_join_meta d meta ≡ parsed r → at_most_200 r.limit ≡ true
  unfolding read_join_meta read_meta read_member is_limit
  read_join_meta-ok meta h = ground arith

  pub read_event_ack_meta-ok :
      (meta : Bytes) {r : EventAckMeta} → read_event_ack_meta d meta ≡ parsed r → 1 ≤ r.sequence
  unfolding read_event_ack_meta read_meta read_member
  read_event_ack_meta-ok meta h = ground arith

  op_id_named :
      (members : Dict Bytes) (failure : String) (op_id : String)
      → read_member d d.string (λ (s : String). not (s == "")) "" members "op_id" failure
        ≡ parsed op_id
      → validate_op_id op_id (has members "op_id") ≡ parsed tt
      → (op_id == "" || is_name 128 op_id) ≡ true
  unfolding read_member validate_op_id validate_message_id
  op_id_named members failure op_id h k = go (get members "op_id") h k
    where
      go :
          (o : Option Bytes)
          → elim o [
            | none ↦ parsed ""
            | some raw ↦ do
              value ← wanted (d.string raw) bad_request failure
              require (not (value == "")) bad_request failure
              parsed value
          ]
            ≡ parsed op_id
          → validate_op_id op_id (is_some o) ≡ parsed tt
          → (op_id == "" || is_name 128 op_id) ≡ true
      go none e k = rw (unparsed e) refl
      go (some raw) e k = ground arith

  storage_meta_named :
      (kind : MessageType) (members : Dict Bytes) (op_id : String) {r : StorageMeta}
      → (do
        validate_op_id op_id (has members "op_id")
        expected ←
            read_member d d.uint
              (λ (n : ℕ). true)
              0
              members
              "expected_seq"
              (append
                (type_text kind)
                " meta.expected_seq must be an integer greater than or equal to 0")
        parsed (record {
          op_id = op_id;
          expected_sequence = expected;
          expected_sequence_set = has members "expected_seq";
        }))
        ≡ parsed r
      → (validate_op_id op_id (has members "op_id") ≡ parsed tt) × (r.op_id ≡ op_id)
  storage_meta_named kind members op_id h = ground arith

  pub read_storage_meta-ok :
      (kind : MessageType) (meta : Bytes) (r : StorageMeta)
      → read_storage_meta d kind meta ≡ parsed r
      → (r.op_id == "" || is_name 128 r.op_id) ≡ true
  unfolding read_storage_meta
  read_storage_meta-ok kind meta r h =
      let (members, e, h1) =
        >>=-eq-parsed
          (read_meta d meta ("op_id" ∷ "expected_seq" ∷ [])
            (append (type_text kind) " meta includes unsupported fields"))
          _ h in
      let (op_id, e2, h2) =
        >>=-eq-parsed
          (read_member d d.string (λ (s : String). not (s == "")) "" members "op_id"
            (append (type_text kind) " meta.op_id must be a non-empty string"))
          _ h1 in
      let (v, same) = storage_meta_named kind members op_id h2 in
      rw same (
        op_id_named members (append (type_text kind) " meta.op_id must be a non-empty string") op_id
          e2 v)
