-- ===== src/Patch/Operations.antt =====
-- The operations of a JSON patch, with their pointers: server/internal/cluster/redis.go. Decoding a
-- value and writing a document are parameters, since they are encoding/json.
use Prim.Native.Char.{code}
use open_rtc.Base.{String, List, [], ◌∷◌, ◌==◌, if◌then◌else◌, nat_eq}
use open_rtc.Cluster.{Bytes, PatchOperation}
use open_rtc.Errors.{Result, ok, err, ◌>>=◌, storage_patch}
use open_rtc.Json.{Json, null, object, json_eq}
use open_rtc.Patch.{get_json_value, add_json_value, remove_json_value}

-- strings.Split(text, "/")
split : String → List String
split String.[] = "" ∷ []
split (String.◌∷◌ c s) = if nat_eq (code c) 47 then "" ∷ split s else grow (split s)
  where
    grow : List String → List String
    grow [] = []
    grow (part ∷ parts) = String.◌∷◌ c part ∷ parts

-- "~1" is "/" and "~0" is "~"; "~" stands nowhere else.
decode_token : String → Result String
decode_token String.[] = ok ""
decode_token (String.◌∷◌ c String.[]) =
    if nat_eq (code c) 126 then err storage_patch else ok (String.◌∷◌ c "")
decode_token (String.◌∷◌ c (String.◌∷◌ d s)) =
    let skipped = decode_token s in
    let rest = decode_token (String.◌∷◌ d s) in
    if nat_eq (code c) 126
    then (if nat_eq (code d) 49
        then (do t ← skipped; ok (String.◌∷◌ "/" t))
        else if nat_eq (code d) 48
        then (do t ← skipped; ok (String.◌∷◌ "~" t))
        else err storage_patch)
    else (do t ← rest; ok (String.◌∷◌ c t))

decode_tokens : List String → Result (List String)
unfolding decode_token
decode_tokens [] = ok []
decode_tokens (part ∷ parts) = do
  token ← decode_token part
  tokens ← decode_tokens parts
  ok (token ∷ tokens)

unfoldable pub parse_json_pointer : String → Result (List String)
unfolding split decode_tokens
parse_json_pointer String.[] = ok []
parse_json_pointer (String.◌∷◌ c s) =
    if nat_eq (code c) 47 then decode_tokens (split s) else err storage_patch

abbrev or_null : Result Json → Json
or_null (ok v) = v
or_null (err error) = null

module _ (decode : Bytes → Result Json) (encode : Json → Bytes) where
  unfoldable pub operation_value : PatchOperation → Result Json
  operation_value operation = elim (operation.value) [
    | [] ↦ err storage_patch
    | b ∷ bytes ↦ elim (decode (b ∷ bytes)) [ err error ↦ err storage_patch | ok value ↦ ok value ]
  ]

  -- The switch on the operation's name. A clone of a decoded value is that value.
  unfoldable pub perform : Json → List String → PatchOperation → Result Json
  unfolding operation_value
  perform root tokens operation =
      if operation.op == "add"
      then (do value ← operation_value operation; add_json_value root tokens value)
      else if operation.op == "remove"
      then remove_json_value root tokens
      else if operation.op == "replace"
      then (do
        value ← operation_value operation
        _ ← get_json_value root tokens
        add_json_value root tokens value)
      else if operation.op == "test"
      then (do
        value ← operation_value operation
        current ← get_json_value root tokens
        if json_eq current value then ok root else err storage_patch)
      else if operation.op == "copy"
      then (do
        from ← parse_json_pointer operation.from
        value ← get_json_value root from
        add_json_value root tokens value)
      else if operation.op == "move"
      then (do
        from ← parse_json_pointer operation.from
        value ← get_json_value root from
        add_json_value (or_null (remove_json_value root from)) tokens value)
      else err storage_patch

  unfoldable pub apply_json_patch_operation : Json → PatchOperation → Result Json
  unfolding perform
  apply_json_patch_operation root operation = do
    tokens ← parse_json_pointer operation.path
    perform root tokens operation

  unfoldable pub apply_all : Json → List PatchOperation → Result Json
  apply_all root [] = ok root
  apply_all root (operation ∷ operations) = do
    next ← apply_json_patch_operation root operation
    apply_all next operations

  -- The document that a root is written as; only an object is.
  document_from : Json → Result Bytes
  document_from (object ms) = ok (encode (object ms))
  document_from _ = err storage_patch

  unfoldable pub apply_json_patch : Bytes → List PatchOperation → Result Bytes
  unfolding document_from
  apply_json_patch document operations = elim (decode document) [
    | err error ↦ err storage_patch
    | ok root ↦ (apply_all root operations >>= document_from)
  ]
