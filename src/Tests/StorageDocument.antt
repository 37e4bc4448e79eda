-- ===== src/Tests/StorageDocument.antt =====
-- Examples of stored documents: a live object with a live list, and ones that are refused.
use open_rtc.Base.{◌≡◌, refl, String, [], ◌∷◌}
use open_rtc.Cluster.{Bytes}
use open_rtc.Errors.{Result, ok, err, bad_json, storage_patch}
use open_rtc.Json.{Json, number, text, array, object, done, element, empty_object, member}
use open_rtc.StorageDocument.{is_type_name, validate_storage_document, validate_root}
use open_rtc.StorageDocument.Sound.{IsStorageRoot, validate_storage_document_iff}

abbrev typed : String → Json → Json
typed name v = object (member "data" v (member "liveblocksType" (text name) empty_object))

abbrev items : Json
items = typed "LiveList" (array (element (number "1") (element (object empty_object) done)))

abbrev drawing : Json
drawing =
    typed "LiveObject" (object (member "items" items (member "title" (text "a") empty_object)))

abbrev decode : Bytes → Result Json
decode [] = err bad_json
decode (b ∷ bytes) = ok drawing

drawing_accepted : validate_storage_document decode (1 ∷ []) ≡ ok tt
unfolding validate_storage_document validate_root is_type_name
drawing_accepted = refl

validate_storage_document_iff_example : (v : Json) × (decode (1 ∷ []) ≡ ok v) × IsStorageRoot v
validate_storage_document_iff_example =
    (validate_storage_document_iff decode (1 ∷ [])).0 drawing_accepted

list_root_refused : validate_root items ≡ err storage_patch
unfolding validate_root is_type_name
list_root_refused = refl

wrong_data_refused : validate_root (typed "LiveObject" (array done)) ≡ err storage_patch
unfolding validate_root is_type_name
wrong_data_refused = refl
