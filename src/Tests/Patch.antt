-- ===== src/Tests/Patch.antt =====
-- Examples of JSON patches: server/internal/cluster/redis.go. The decoder knows one text only.
use open_rtc.Base.{◌≡◌, refl, false, some, [], ◌∷◌, contains}
use open_rtc.Cluster.{Bytes, PatchOperation}
use open_rtc.Errors.{Result, ok}
use open_rtc.Json.{
  Json, text, array, object, Elements, done, element, Members, empty_object, member, count,
  insert_element,
}
use open_rtc.Patch.{get_json_value, add_json_value}
use open_rtc.Patch.Replace.{replace_inserts}
use open_rtc.Patch.Operations.{apply_json_patch_operation}
use open_rtc.Patch.Lookup.{add-get}

abbrev decode : Bytes → Result Json
decode bytes = ok (text "new")

abbrev encode : Json → Bytes
encode value = []

abbrev two : Elements
two = element (text "a") (element (text "b") done)

abbrev replacement : PatchOperation
replacement = record { op = "replace"; path = "/1"; from = ""; value = 1 ∷ [] }

pointed : open_rtc.Patch.Operations.parse_json_pointer "/1" ≡ ok ("1" ∷ [])
unfolding open_rtc.Patch.Operations.parse_json_pointer
pointed = refl

index_one : open_rtc.Patch.parse_array_index "1" (count two) false ≡ ok (1, false)
unfolding open_rtc.Patch.parse_array_index count
index_one = refl

element_one : open_rtc.Json.element_at two 1 ≡ some (text "b")
unfolding open_rtc.Json.element_at
element_one = refl

decoded : open_rtc.Patch.Operations.operation_value decode encode replacement ≡ ok (text "new")
unfolding open_rtc.Patch.Operations.operation_value
decoded = refl

replace_inserts_example :
    apply_json_patch_operation decode encode (array two) replacement
    ≡ ok (array (insert_element two 1 (text "new")))
replace_inserts_example =
    (replace_inserts decode encode two replacement "1" 1 (text "b") (text "new") refl pointed
      index_one element_one decoded).0

abbrev root : Json
root = object (member "list" (array two) empty_object)

abbrev root_after : Json
root_after = object (member "list" (array (element (text "c") two)) empty_object)

added : add_json_value root ("list" ∷ ("0" ∷ [])) (text "c") ≡ ok root_after
unfolding add_json_value open_rtc.Json.member_of count open_rtc.Json.put_member insert_element
added = refl

no_dash : contains ("list" ∷ ("0" ∷ [])) "-" ≡ false
unfolding contains
no_dash = refl

add-get_example : get_json_value root_after ("list" ∷ ("0" ∷ [])) ≡ ok (text "c")
add-get_example = add-get root ("list" ∷ ("0" ∷ [])) (text "c") root_after no_dash added
