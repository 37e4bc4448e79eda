-- ===== src/StorageDocument.antt =====
-- Which documents may be stored: `ValidateStorageDocument` of server/internal/cluster/redis.go. The code
-- visits the members of an object in no particular order, which tells only in the text of the error.
pub mod Grammar
pub mod Sound
use open_rtc.Base.{
  String, Bool, true, false, not, ◌&&◌, ◌||◌, Option, none, some, ◌==◌, if◌then◌else◌,
}
use open_rtc.Cluster.{Bytes}
use open_rtc.Errors.{Result, ok, err, ◌>>=◌, storage_patch}
use open_rtc.Json.{
  Json, null, boolean, number, text, array, object, Elements, done, element, Members, empty_object,
  member, member_of,
}

unfoldable pub is_type_name : String → Bool
is_type_name name = name == "LiveObject" || (name == "LiveList" || name == "LiveMap")

unfoldable pub type_name_of : Json → Option String
type_name_of (text name) = if is_type_name name then some name else none
type_name_of _ = none

unfoldable pub supported : Option String → Option Json → Result (Option String)
supported none data_value = err storage_patch
supported (some name) none = err storage_patch
supported (some name) (some data_value) = ok (some name)

unfoldable pub typed_node : Option Json → Option Json → Result (Option String)
unfolding supported type_name_of
typed_node none data_value = ok none
typed_node (some raw_type) data_value = supported (type_name_of raw_type) data_value

-- The name of the type where the node has one. Its data is `node["data"]`.
unfoldable pub storage_typed_node : Members → Result (Option String)
unfolding typed_node member_of
storage_typed_node node = typed_node (member_of node "liveblocksType") (member_of node "data")

abbrev pub Checked : Type 0
Checked = Result (Unit {0})

abbrev pub and_then : Checked → Checked → Checked
and_then (ok u) rest = rest
and_then (err e) rest = err e

unfoldable pub node_result : Bool → Result (Option String) → Checked → (String → Checked) → Checked
node_result root (err e) children typed = err e
node_result root (ok none) children typed = children
node_result root (ok (some name)) children typed =
    if root && not (name == "LiveObject") then err storage_patch else typed name

unfoldable mutual
  unfolding storage_typed_node node_result

  pub validate_storage_value : Json → Bool → Checked
  validate_storage_value (object node) root =
      node_result root (storage_typed_node node) (validate_members node)
        (λ name. validate_data name node)
  validate_storage_value (array vs) root = validate_elements vs
  validate_storage_value _ root = ok tt

  pub validate_members : Members → Checked
  validate_members empty_object = ok tt
  validate_members (member k v ms) = and_then (validate_storage_value v false) (validate_members ms)

  pub validate_elements : Elements → Checked
  validate_elements done = ok tt
  validate_elements (element v vs) =
      and_then (validate_storage_value v false) (validate_elements vs)

  -- validateStorageTypedData(name, node["data"])
  pub validate_data : String → Members → Checked
  validate_data name empty_object = err storage_patch
  validate_data name (member k v ms) =
      let found = validate_storage_typed_data name v in
      let rest = validate_data name ms in if k == "data" then found else rest

  pub validate_storage_typed_data : String → Json → Checked
  validate_storage_typed_data name (object ms) =
      let children = validate_members ms in
      if name == "LiveObject" || name == "LiveMap" then children else err storage_patch
  validate_storage_typed_data name (array vs) =
      let children = validate_elements vs in
      if name == "LiveList" then children else err storage_patch
  validate_storage_typed_data name _ = err storage_patch

unfoldable pub validate_root : Json → Checked
unfolding validate_storage_value
validate_root (object ms) = validate_storage_value (object ms) true
validate_root _ = err storage_patch

-- The decoder is encoding/json.
unfoldable pub validate_storage_document : (Bytes → Result Json) → Bytes → Checked
validate_storage_document decode document = elim (decode document) [
  | err e ↦ err storage_patch
  | ok root ↦ validate_root root
]
