-- ===== src/Patch.antt =====
-- JSON patches of storage documents: server/internal/cluster/redis.go, from ApplyJSONPatch on. The
-- Go code changes a freshly decoded tree in place and drops it on an error; here each function
-- returns the new tree.
pub mod Operations
pub mod Replace
pub mod Lookup
use Prim.Native.Char.{code}
use open_rtc.Base.{
  ℕ, zero, suc, ◌+◌, ◌*◌, ◌-◌, ◌^◌, String, Bool, true, false, ◌&&◌, ◌||◌, not, Option, none, some,
  List, [], ◌∷◌, ◌==◌, if◌then◌else◌, nat_eq, ltb, leb,
}
use open_rtc.Cluster.{Bytes, PatchOperation}
use open_rtc.Errors.{Result, ok, err, ◌>>=◌, storage_patch}
use open_rtc.Json.{
  Json, null, array, object, Elements, Members, count, element_at, set_element, insert_element,
  delete_element, member_of, put_member, delete_member, json_eq,
}

-- The decimal digits of a text, most significant first.
digits : String → ℕ → Option ℕ
digits String.[] n = some n
digits (String.◌∷◌ c s) n =
    let rest = digits s (n * 10 + (code c - 48)) in
    if leb 48 (code c) && leb (code c) 57 then rest else none

-- At least one digit, and below 2 ^ 63.
magnitude : String → Option ℕ
unfolding digits
magnitude String.[] = none
magnitude (String.◌∷◌ c s) = elim (digits (String.◌∷◌ c s) 0) [
  | none ↦ none
  | some n ↦ if ltb n (2 ^ 63) then some n else none
]

-- strconv.Atoi, without the negative numbers, which the caller refuses.
unfoldable pub atoi : String → Option ℕ
unfolding magnitude
atoi String.[] = none
atoi (String.◌∷◌ c s) =
    if nat_eq (code c) 43
    then magnitude s
    else if nat_eq (code c) 45
    then elim (magnitude s) [ none ↦ none | some n ↦ if nat_eq n 0 then some 0 else none ]
    else magnitude (String.◌∷◌ c s)

-- The index, and whether it is the one past the end that "-" names.
unfoldable pub parse_array_index : String → ℕ → Bool → Result (ℕ × Bool)
unfolding atoi
parse_array_index token length allow_append =
    if token == "-"
    then (if allow_append then ok (length, true) else err storage_patch)
    else elim (atoi token) [
      | none ↦ err storage_patch
      | some index ↦
          if allow_append
          then (if ltb length index then err storage_patch else ok (index, false))
          else if leb length index
          then err storage_patch
          else ok (index, false)
    ]

unfoldable pub found : Option Json → Result Json
found none = err storage_patch
found (some v) = ok v

unfoldable pub get_json_value : Json → List String → Result Json
unfolding found parse_array_index
get_json_value root [] = ok root
get_json_value (object ms) (key ∷ tokens) = do
  child ← found (member_of ms key)
  get_json_value child tokens
get_json_value (array vs) (token ∷ tokens) = do
  at ← parse_array_index token (count vs) false
  child ← found (element_at vs at.0)
  get_json_value child tokens
get_json_value _ (token ∷ tokens) = err storage_patch

unfoldable pub add_json_value : Json → List String → Json → Result Json
unfolding found parse_array_index
add_json_value root [] value = ok value
add_json_value (object ms) (key ∷ []) value = ok (object (put_member ms key value))
add_json_value (object ms) (key ∷ (token ∷ tokens)) value = do
  child ← found (member_of ms key)
  updated ← add_json_value child (token ∷ tokens) value
  ok (object (put_member ms key updated))
add_json_value (array vs) (token ∷ []) value = do
  at ← parse_array_index token (count vs) true
  ok (array (insert_element vs at.0 value))
add_json_value (array vs) (index ∷ (token ∷ tokens)) value = do
  at ← parse_array_index index (count vs) true
  child ← (if at.1 || leb (count vs) at.0 then err storage_patch else found (element_at vs at.0))
  updated ← add_json_value child (token ∷ tokens) value
  ok (array (set_element vs at.0 updated))
add_json_value _ (token ∷ tokens) value = err storage_patch

unfoldable pub remove_json_value : Json → List String → Result Json
unfolding found parse_array_index
remove_json_value root [] = err storage_patch
remove_json_value (object ms) (key ∷ []) = do
  child ← found (member_of ms key)
  ok (object (delete_member ms key))
remove_json_value (object ms) (key ∷ (token ∷ tokens)) = do
  child ← found (member_of ms key)
  updated ← remove_json_value child (token ∷ tokens)
  ok (object (put_member ms key updated))
remove_json_value (array vs) (token ∷ []) = do
  at ← parse_array_index token (count vs) false
  ok (array (delete_element vs at.0))
remove_json_value (array vs) (index ∷ (token ∷ tokens)) = do
  at ← parse_array_index index (count vs) false
  child ← found (element_at vs at.0)
  updated ← remove_json_value child (token ∷ tokens)
  ok (array (set_element vs at.0 updated))
remove_json_value _ (token ∷ tokens) = err storage_patch
