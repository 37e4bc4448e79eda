-- ===== src/StorageDocument/Grammar.antt =====
-- The documents that `ValidateStorageDocument` of server/internal/cluster/redis.go accepts, described by
-- rules: what the rules allow is accepted.
use open_rtc.Base.{
  String, ◌≡◌, refl, ap, ◌∙◌, Bool, true, false, none, some, ◌==◌, if◌then◌else◌, arith,
}
use open_rtc.Errors.{ok}
use open_rtc.Json.{
  Json, null, boolean, number, text, array, object, Elements, done, element, Members, empty_object,
  member, member_of,
}
use open_rtc.StorageDocument.{
  is_type_name, type_name_of, supported, typed_node, storage_typed_node, node_result,
  validate_storage_value, validate_members, validate_elements, validate_data,
  validate_storage_typed_data,
}

-- A value is plain at every level, or it is a node with a type and its data, of the form for the type.
mutual
  pub data IsStorage : Json → Type 0 where
    is_null : IsStorage null
    is_boolean : {b : Bool} → IsStorage (boolean b)
    is_number : {s : String} → IsStorage (number s)
    is_text : {s : String} → IsStorage (text s)
    is_array : {vs : Elements} → AreStorage vs → IsStorage (array vs)
    is_plain :
        {ms : Members}
        → member_of ms "liveblocksType" ≡ none
        → HasStorage ms
        → IsStorage (object ms)
    is_typed :
        {ms : Members} {name : String} {v : Json}
        → member_of ms "liveblocksType" ≡ some (text name)
        → member_of ms "data" ≡ some v
        → IsData name v
        → IsStorage (object ms)

  pub data AreStorage : Elements → Type 0 where
    no_elements : AreStorage done
    next_element :
        {v : Json} {vs : Elements} → IsStorage v → AreStorage vs → AreStorage (element v vs)

  pub data HasStorage : Members → Type 0 where
    no_members : HasStorage empty_object
    next_member :
        {k : String} {v : Json} {ms : Members}
        → IsStorage v
        → HasStorage ms
        → HasStorage (member k v ms)

  pub data IsData : String → Json → Type 0 where
    object_data : {ms : Members} → HasStorage ms → IsData "LiveObject" (object ms)
    map_data : {ms : Members} → HasStorage ms → IsData "LiveMap" (object ms)
    list_data : {vs : Elements} → AreStorage vs → IsData "LiveList" (array vs)

-- The walk to the member "data" checks that member.
pub validate_data-member_of :
    (name : String) (ms : Members) {v : Json}
    → member_of ms "data" ≡ some v
    → validate_data name ms ≡ validate_storage_typed_data name v
unfolding validate_data member_of
validate_data-member_of name empty_object h = absurd cc
validate_data-member_of name (member k w ms) h =
    go (k == "data") h (validate_data-member_of name ms)
  where
    go :
        (b : Bool) {v : Json}
        → ((if b then some w else member_of ms "data") ≡ some v)
        → (member_of ms "data" ≡ some v
            → validate_data name ms ≡ validate_storage_typed_data name v)
        → ((if b then validate_storage_typed_data name w else validate_data name ms)
            ≡ validate_storage_typed_data name v)
    go true e rest = ap (validate_storage_typed_data name) (ground arith)
    go false e rest = rest e

pub IsData-is_type_name : {name : String} {v : Json} → IsData name v → is_type_name name ≡ true
unfolding is_type_name
IsData-is_type_name (object_data h) = refl
IsData-is_type_name (map_data h) = refl
IsData-is_type_name (list_data h) = refl

pub storage_typed_node-typed :
    (ms : Members) {name : String} {v : Json}
    → member_of ms "liveblocksType" ≡ some (text name)
    → member_of ms "data" ≡ some v
    → is_type_name name ≡ true
    → storage_typed_node ms ≡ ok (some name)
unfolding storage_typed_node typed_node supported type_name_of
storage_typed_node-typed ms t d n = rw (storage_typed_node, t, d, type_name_of, n) refl

pub storage_typed_node-plain :
    (ms : Members) → member_of ms "liveblocksType" ≡ none → storage_typed_node ms ≡ ok none
unfolding storage_typed_node typed_node
storage_typed_node-plain ms t = rw (storage_typed_node, t) refl

mutual
  unfolding validate_storage_value node_result

  value_complete : {v : Json} → IsStorage v → validate_storage_value v false ≡ ok tt
  value_complete is_null = refl
  value_complete is_boolean = refl
  value_complete is_number = refl
  value_complete is_text = refl
  value_complete (is_array hs) = elements_complete hs
  value_complete (is_plain {ms = ms} t hs) =
      rw (storage_typed_node-plain ms t) (members_complete hs)
  value_complete (is_typed {ms = ms} {name = name} t d h) =
      rw (storage_typed_node-typed ms t d (IsData-is_type_name h))
        (validate_data-member_of name ms d ∙ data_complete h)

  elements_complete : {vs : Elements} → AreStorage vs → validate_elements vs ≡ ok tt
  elements_complete no_elements = refl
  elements_complete (next_element h hs) = rw (value_complete h) (elements_complete hs)

  pub members_complete : {ms : Members} → HasStorage ms → validate_members ms ≡ ok tt
  members_complete no_members = refl
  members_complete (next_member h hs) = rw (value_complete h) (members_complete hs)

  pub data_complete :
      {name : String} {v : Json} → IsData name v → validate_storage_typed_data name v ≡ ok tt
  data_complete (object_data h) = members_complete h
  data_complete (map_data h) = members_complete h
  data_complete (list_data h) = elements_complete h
