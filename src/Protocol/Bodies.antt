-- ===== src/Protocol/Bodies.antt =====
-- The switch on the message type in `ParseClientMessage` of server/internal/protocol/messages.go.
use open_rtc.Base.{◌≤◌, ◌≡◌, sym, subst, true, not, Option, none, some, [], ◌∷◌, arith}
use open_rtc.Catalog.{bad_request}
use open_rtc.Cluster.{Bytes}
use open_rtc.Dict.{Dict}
use open_rtc.Protocol.{
  MessageType, join, leave, emit, event_ack, presence_set, storage_get, storage_set, storage_patch,
  JoinMeta, EventAckMeta, StorageMeta, Message, parsed, require, Decoders, >>=-eq-parsed,
}
use open_rtc.Protocol.Parse.{
  is_empty, starts_with_byte, trim_bytes, read_join_meta, read_event_ack_meta, read_storage_meta,
  check_storage_payload, read_storage_body, read_body, optional,
}
use open_rtc.Protocol.Shape.{at_most_200, StorageMetaIsValid, HasShape, IsPlain, Keeps}
use open_rtc.Protocol.Metas.{
  validated_event, unparsed, emptied, read_join_meta-ok, read_event_ack_meta-ok,
  read_storage_meta-ok,
}

module _ (d : Decoders) where
  read_storage_body-Keeps :
      (meta : Bytes) (m : Message) {r : Message} → read_storage_body d meta m ≡ parsed r → Keeps m r
  unfolding read_storage_body
  read_storage_body-Keeps [] m h = ground arith
  read_storage_body-Keeps (b ∷ bs) m h = ground arith

  read_join_body-Keeps :
      (envelope : Dict Bytes) (meta : Bytes) (m : Message) {r : Message}
      → read_body d join envelope meta m ≡ parsed r
      → Keeps m r
  unfolding read_body
  read_join_body-Keeps envelope [] m h = ground arith
  read_join_body-Keeps envelope (b ∷ bs) m h = ground arith

  pub read_body-Keeps :
      (kind : MessageType) (envelope : Dict Bytes) (meta : Bytes) (m : Message) {r : Message}
      → read_body d kind envelope meta m ≡ parsed r
      → Keeps m r
  unfolding read_body
  read_body-Keeps join envelope meta m h = read_join_body-Keeps envelope meta m h
  read_body-Keeps leave envelope meta m h = ground arith
  read_body-Keeps emit envelope meta m h = ground arith
  read_body-Keeps event_ack envelope meta m h = ground arith
  read_body-Keeps presence_set envelope meta m h = ground arith
  read_body-Keeps storage_get envelope meta m h = ground arith
  read_body-Keeps storage_set envelope meta m h = read_storage_body-Keeps meta m h
  read_body-Keeps storage_patch envelope meta m h = read_storage_body-Keeps meta m h

  join_shape :
      (m r : Message) (meta : JoinMeta)
      → IsPlain m
      → at_most_200 meta.limit ≡ true
      → parsed (record m { join_meta = some meta }) ≡ parsed r
      → HasShape d join r
  join_shape m r meta p l e = rw (unparsed e) (l, p.0, p.2, p.3, p.4)

  ack_shape :
      (m r : Message) (meta : EventAckMeta)
      → IsPlain m
      → m.payload ≡ []
      → 1 ≤ meta.sequence
      → parsed (record m { event_ack_meta = some meta }) ≡ parsed r
      → HasShape d event_ack r
  ack_shape m r meta p o l e = rw (unparsed e) (l, o, p.0, p.1, p.2, p.4)

  -- What the check of a payload leaves.
  StoragePayload : MessageType → Bytes → Type 0
  StoragePayload kind payload =
      (d.valid payload ≡ true)
      × (elim kind [
        | storage_set ↦ starts_with_byte 123 (trim_bytes payload)
        | storage_patch ↦ starts_with_byte 91 (trim_bytes payload)
        | _ ↦ true
      ]
          ≡ true)

  checked_payload :
      (kind : MessageType) (payload : Bytes)
      → check_storage_payload d kind payload ≡ parsed tt
      → StoragePayload kind payload
  unfolding check_storage_payload StoragePayload
  checked_payload join payload h = ground arith
  checked_payload leave payload h = ground arith
  checked_payload emit payload h = ground arith
  checked_payload event_ack payload h = ground arith
  checked_payload presence_set payload h = ground arith
  checked_payload storage_get payload h = ground arith
  checked_payload storage_set payload h = ground arith
  checked_payload storage_patch payload h = ground arith

  -- The two storage writes share everything but the first byte of the payload.
  StorageShape : MessageType → Message → Type 0
  StorageShape kind r =
      StorageMetaIsValid r.storage_meta
      × StoragePayload kind r.payload
      × (r.event ≡ "")
      × (r.join_meta ≡ none)
      × (r.emit_meta ≡ none)
      × (r.event_ack_meta ≡ none)

  storage_shape :
      (kind : MessageType) (meta : Bytes) (m r : Message)
      → IsPlain m
      → m.message_type ≡ kind
      → read_storage_body d meta m ≡ parsed r
      → StorageShape kind r
  unfolding read_storage_body StorageShape
  storage_shape kind meta m r p k h =
      let (u, checked, h1) = >>=-eq-parsed (check_storage_payload d m.message_type m.payload) _ h in
      let (found, e, h2) =
        >>=-eq-parsed (optional meta (read_storage_meta d m.message_type meta)) _ h1 in
      rw (unparsed h2) (
        valid meta found e,
        subst (λ t. StoragePayload t m.payload) k
            (checked_payload m.message_type m.payload checked),
        p.0,
        p.1,
        p.2,
        p.3,
      )
    where
      valid :
          (bytes : Bytes) (found : Option StorageMeta)
          → optional bytes (read_storage_meta d m.message_type bytes) ≡ parsed found
          → StorageMetaIsValid found
      valid [] none e = tt
      valid [] (some s) e = cc
      valid (b ∷ bs) none e = tt
      valid (b ∷ bs) (some s) e = read_storage_meta-ok d m.message_type (b ∷ bs) s (ground arith)

  pub read_body-HasShape :
      (kind : MessageType) (envelope : Dict Bytes) (meta : Bytes) (m r : Message)
      → IsPlain m
      → m.message_type ≡ kind
      → read_body d kind envelope meta m ≡ parsed r
      → HasShape d kind r
  unfolding read_body is_empty StorageShape StoragePayload
  read_body-HasShape join envelope [] m r p k h = ground arith
  read_body-HasShape join envelope (b ∷ bs) m r p k h =
      let (found, e, h1) = >>=-eq-parsed (optional (b ∷ bs) (read_join_meta d (b ∷ bs))) _ h in
      let (meta, e2, h2) = >>=-eq-parsed (read_join_meta d (b ∷ bs)) _ e in
      join_shape m r meta p (read_join_meta-ok d (b ∷ bs) e2) (ground arith)
  read_body-HasShape leave envelope meta m r p k h = ground arith
  read_body-HasShape emit envelope meta m r p k h = ground (arith, validated_event r.event)
  read_body-HasShape event_ack envelope meta m r p k h =
      let (u, e, h1) =
        >>=-eq-parsed (require (is_empty m.payload) bad_request "EVENT_ACK does not accept payload")
          _ h in
      let (v, e1, h2) =
        >>=-eq-parsed (require (not (is_empty meta)) bad_request "EVENT_ACK requires meta.seq") _
          h1 in
      let (ack, e2, h3) = >>=-eq-parsed (read_event_ack_meta d meta) _ h2 in
      ack_shape m r ack p (emptied m.payload (ground arith)) (read_event_ack_meta-ok d meta e2) h3
  read_body-HasShape presence_set envelope meta m r p k h = ground arith
  read_body-HasShape storage_get envelope meta m r p k h =
      let (u, e, h1) =
        >>=-eq-parsed
          (require (is_empty m.payload) bad_request "STORAGE_GET does not accept payload") _ h in
      let empty : m.payload ≡ [] = emptied m.payload (ground arith) in
      let same : r ≡ m = sym (ground arith) in rw same (empty, p.0, p.1, p.2, p.3, p.4)
  read_body-HasShape storage_set envelope meta m r p k h =
      let (a, b, e, f, g, i) = storage_shape storage_set meta m r p k h in (a, b.0, b.1, e, f, g, i)
  read_body-HasShape storage_patch envelope meta m r p k h =
      let (a, b, e, f, g, i) = storage_shape storage_patch meta m r p k h in
      (a, b.0, b.1, e, f, g, i)
