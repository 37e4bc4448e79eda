-- ===== src/StorageDocument/Sound.antt =====
-- What `ValidateStorageDocument` of server/internal/cluster/redis.go accepts is allowed by the rules.
use open_rtc.Base.{
  String, ◌≡◌, refl, sym, ap, ◌∙◌, inl, inr, ◌↔◌, Bool, true, false, Option, none, some, ◌==◌,
  eq_iff, if◌then◌else◌, subst, Bool-cases, arith,
}
use open_rtc.Cluster.{Bytes}
use open_rtc.Errors.{Result, ok, err, storage_patch}
use open_rtc.Json.{
  Json, null, boolean, number, text, array, object, Elements, done, element, Members, empty_object,
  member, member_of,
}
use open_rtc.StorageDocument.{
  Checked, and_then, type_name_of, supported, typed_node, storage_typed_node, node_result,
  validate_storage_value, validate_members, validate_elements, validate_data,
  validate_storage_typed_data, validate_root, validate_storage_document,
}
use open_rtc.StorageDocument.Grammar.{
  IsStorage, is_null, is_boolean, is_number, is_text, is_array, is_plain, is_typed, AreStorage,
  no_elements, next_element, HasStorage, no_members, next_member, IsData, object_data, map_data,
  list_data, validate_data-member_of, IsData-is_type_name, storage_typed_node-typed,
  storage_typed_node-plain, members_complete, data_complete,
}

and_then-eq_ok : {a b : Checked} → and_then a b ≡ ok tt → (a ≡ ok tt) × (b ≡ ok tt)
and_then-eq_ok {a = ok u} h = (refl, h)
and_then-eq_ok {a = err e} h = absurd cc

-- What a node is that has no error, by the name of its type.
NodeIs : Members → Option String → Type 0
NodeIs ms none = member_of ms "liveblocksType" ≡ none
NodeIs ms (some name) = member_of ms "liveblocksType" ≡ some (text name)

type_name_of-eq_some : (v : Json) {name : String} → type_name_of v ≡ some name → v ≡ text name
unfolding type_name_of
type_name_of-eq_some (text s) h = ground arith
type_name_of-eq_some null h = absurd cc
type_name_of-eq_some (boolean b) h = absurd cc
type_name_of-eq_some (number s) h = absurd cc
type_name_of-eq_some (array vs) h = absurd cc
type_name_of-eq_some (object ms) h = absurd cc

storage_typed_node-NodeIs :
    (ms : Members) (kind : Option String) → storage_typed_node ms ≡ ok kind → NodeIs ms kind
unfolding storage_typed_node typed_node supported NodeIs
storage_typed_node-NodeIs ms kind h =
    go (member_of ms "liveblocksType") (member_of ms "data") kind refl h
  where
    go :
        (raw data_value : Option Json) (k : Option String)
        → member_of ms "liveblocksType" ≡ raw
        → typed_node raw data_value ≡ ok k
        → NodeIs ms k
    go none d none t e = t
    go none d (some name) t e = absurd cc
    go (some raw) none none t e = ground arith
    go (some raw) (some v) none t e = ground arith
    go (some raw) none (some name) t e = ground arith
    go (some raw) (some v) (some name) t e = t ∙ ap some (type_name_of-eq_some raw (ground arith))

-- The data of a node, wherever it stands among the members.
abbrev DataOf : String → Members → Type 0
DataOf name ms = (v : Json) × (member_of ms "data" ≡ some v) × IsData name v

node_sound :
    (ms : Members) (root : Bool) (found : Result (Option String))
    → ((kind : Option String) → found ≡ ok kind → NodeIs ms kind)
    → (validate_members ms ≡ ok tt → HasStorage ms)
    → ((name : String) → validate_data name ms ≡ ok tt → DataOf name ms)
    → node_result root found (validate_members ms) (λ name. validate_data name ms) ≡ ok tt
    → IsStorage (object ms)
unfolding node_result NodeIs
node_sound ms root (err e) node plain typed h = absurd cc
node_sound ms root (ok none) node plain typed h = is_plain (node none refl) (plain h)
node_sound ms root (ok (some name)) node plain typed h =
    let (v, d, fits) = typed name (ground arith) in is_typed (node (some name) refl) d fits

found_sound :
    (b : Bool) (name k : String) (v : Json) (ms : Members)
    → (if b then validate_storage_typed_data name v else validate_data name ms) ≡ ok tt
    → (validate_storage_typed_data name v ≡ ok tt → IsData name v)
    → (validate_data name ms ≡ ok tt → DataOf name ms)
    → (k == "data") ≡ b
    → DataOf name (member k v ms)
unfolding member_of
found_sound true name k v ms h here there e = (v, rw e refl, here h)
found_sound false name k v ms h here there e = let (w, d, fits) = there h in (w, rw e d, fits)

object_form :
    (name : String) (ms : Members)
    → validate_storage_typed_data name (object ms) ≡ ok tt
    → (validate_members ms ≡ ok tt → HasStorage ms)
    → IsData name (object ms)
unfolding validate_storage_typed_data
object_form name ms h sound = elim (Bool-cases (name == "LiveObject")) [
  | inl e ↦
      subst (λ n. IsData n (object ms)) (sym ((eq_iff name _).0 e))
        (object_data (sound (ground arith)))
  | inr e ↦ elim (Bool-cases (name == "LiveMap")) [
    | inl f ↦
        subst (λ n. IsData n (object ms)) (sym ((eq_iff name _).0 f))
          (map_data (sound (ground arith)))
    | inr f ↦ absurd (ground arith)
  ]
]

array_form :
    (name : String) (vs : Elements)
    → validate_storage_typed_data name (array vs) ≡ ok tt
    → (validate_elements vs ≡ ok tt → AreStorage vs)
    → IsData name (array vs)
unfolding validate_storage_typed_data
array_form name vs h sound = elim (Bool-cases (name == "LiveList")) [
  | inl e ↦
      subst (λ n. IsData n (array vs)) (sym ((eq_iff name _).0 e))
        (list_data (sound (ground arith)))
  | inr e ↦ absurd (ground arith)
]

mutual
  unfolding validate_storage_value NodeIs node_result

  value_sound : (v : Json) → validate_storage_value v false ≡ ok tt → IsStorage v
  value_sound null h = is_null
  value_sound (boolean b) h = is_boolean
  value_sound (number s) h = is_number
  value_sound (text s) h = is_text
  value_sound (array vs) h = is_array (elements_sound vs h)
  value_sound (object ms) h =
      node_sound ms false (storage_typed_node ms) (storage_typed_node-NodeIs ms) (members_sound ms)
        (λ name. data_sound name ms) h

  elements_sound : (vs : Elements) → validate_elements vs ≡ ok tt → AreStorage vs
  elements_sound done h = no_elements
  elements_sound (element v vs) h =
      let (here, there) = and_then-eq_ok h in
      next_element (value_sound v here) (elements_sound vs there)

  members_sound : (ms : Members) → validate_members ms ≡ ok tt → HasStorage ms
  members_sound empty_object h = no_members
  members_sound (member k v ms) h =
      let (here, there) = and_then-eq_ok h in
      next_member (value_sound v here) (members_sound ms there)

  data_sound : (name : String) (ms : Members) → validate_data name ms ≡ ok tt → DataOf name ms
  data_sound name empty_object h = absurd cc
  data_sound name (member k v ms) h =
      found_sound (k == "data") name k v ms h (validate_storage_typed_data-IsData name v)
        (data_sound name ms) refl

  validate_storage_typed_data-IsData :
      (name : String) (v : Json) → validate_storage_typed_data name v ≡ ok tt → IsData name v
  validate_storage_typed_data-IsData name (object ms) h = object_form name ms h (members_sound ms)
  validate_storage_typed_data-IsData name (array vs) h = array_form name vs h (elements_sound vs)
  validate_storage_typed_data-IsData name null h = absurd cc
  validate_storage_typed_data-IsData name (boolean b) h = absurd cc
  validate_storage_typed_data-IsData name (number s) h = absurd cc
  validate_storage_typed_data-IsData name (text s) h = absurd cc

abbrev pub RootIsLiveObject : Members → Type 0
RootIsLiveObject ms =
    (name : String) → member_of ms "liveblocksType" ≡ some (text name) → name ≡ "LiveObject"

root_sound :
    (ms : Members) (found : Result (Option String)) (children : Checked) (typed : String → Checked)
    → ((kind : Option String) → found ≡ ok kind → NodeIs ms kind)
    → node_result true found children typed ≡ ok tt
    → RootIsLiveObject ms
unfolding node_result NodeIs
root_sound ms (err e) children typed node h name t = absurd cc
root_sound ms (ok none) children typed node h name t =
    let plain : member_of ms "liveblocksType" ≡ none = node none refl in absurd cc
root_sound ms (ok (some n)) children typed node h name t =
    let same : member_of ms "liveblocksType" ≡ some (text n) = node (some n) refl in
    let same_name : name ≡ n = cc in same_name ∙ (eq_iff n _).0 (ground arith)

root_complete :
    (ms : Members)
    → IsStorage (object ms)
    → RootIsLiveObject ms
    → validate_storage_value (object ms) true ≡ ok tt
unfolding validate_storage_value node_result
root_complete ms (is_plain t hs) root = rw (storage_typed_node-plain ms t) (members_complete hs)
root_complete ms (is_typed {name = name} t d h) root =
    rw (storage_typed_node-typed ms t d (IsData-is_type_name h), (eq_iff name _).1 (root name t))
      (validate_data-member_of name ms d ∙ data_complete h)

-- The document is an object that the rules allow, and it is a LiveObject if it has a type.
abbrev pub IsStorageRoot : Json → Type 0
IsStorageRoot v = (ms : Members) × (v ≡ object ms) × IsStorage (object ms) × RootIsLiveObject ms

validate_root_sound : (v : Json) → validate_root v ≡ ok tt → IsStorageRoot v
unfolding validate_root validate_storage_value
validate_root_sound (object ms) h = (
  ms,
  refl,
  node_sound ms true (storage_typed_node ms) (storage_typed_node-NodeIs ms) (members_sound ms)
      (λ name. data_sound name ms) h,
  root_sound ms (storage_typed_node ms) _ _ (storage_typed_node-NodeIs ms) h,
)
validate_root_sound null h = absurd cc
validate_root_sound (boolean b) h = absurd cc
validate_root_sound (number s) h = absurd cc
validate_root_sound (text s) h = absurd cc
validate_root_sound (array vs) h = absurd cc

validate_root_complete : (v : Json) → IsStorageRoot v → validate_root v ≡ ok tt
unfolding validate_root
validate_root_complete v (ms, e, fits, root) = rw e (root_complete ms fits root)

-- A document is accepted exactly if it decodes to an object that the rules allow, whose type, where it has
-- one, is LiveObject: at every level a value without a type, or a node with one of the three types and with
-- data of the form for it.
pub validate_storage_document_iff :
    (decode : Bytes → Result Json) (document : Bytes)
    → (validate_storage_document decode document ≡ ok tt)
      ↔ ((v : Json) × (decode document ≡ ok v) × IsStorageRoot v)
unfolding validate_storage_document
validate_storage_document_iff decode document = (
  λ h. go (decode document) refl h,
  λ (v, e, fits). rw (validate_storage_document, e) (validate_root_complete v fits),
)
  where
    go :
        (r : Result Json)
        → decode document ≡ r
        → elim r [ err e ↦ err storage_patch | ok root ↦ validate_root root ] ≡ ok tt
        → (v : Json) × (decode document ≡ ok v) × IsStorageRoot v
    go (err e) same h = absurd cc
    go (ok v) same h = (v, same, validate_root_sound v h)
