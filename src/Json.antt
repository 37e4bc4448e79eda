-- ===== src/Json.antt =====
-- Values that encoding/json decodes into `any`, with numbers as their texts (UseNumber). The members
-- of an object are kept in ascending order of their keys, the order in which json.Marshal writes
-- them, so that two equal objects are one value.
use open_rtc.Base.{
  ℕ, zero, suc, String, Bool, true, false, ◌&&◌, Option, none, some, ◌==◌, if◌then◌else◌, str_le,
}

mutual
  pub data Json : Type 0 where
    null : Json
    boolean : Bool → Json
    number text : String → Json
    array : Elements → Json
    object : Members → Json

  pub data Elements : Type 0 where
    done : Elements
    element : Json → Elements → Elements

  pub data Members : Type 0 where
    empty_object : Members
    member : String → Json → Members → Members

-- len(current)
unfoldable pub count : Elements → ℕ
count done = 0
count (element v vs) = suc (count vs)

-- current[index]
unfoldable pub element_at : Elements → ℕ → Option Json
element_at done i = none
element_at (element v vs) zero = some v
element_at (element v vs) (suc i) = element_at vs i

-- current[index] = value
unfoldable pub set_element : Elements → ℕ → Json → Elements
set_element done i w = done
set_element (element v vs) zero w = element w vs
set_element (element v vs) (suc i) w = element v (set_element vs i w)

-- append(current[:index], append([]any{value}, current[index:]...)...)
unfoldable pub insert_element : Elements → ℕ → Json → Elements
insert_element vs zero w = element w vs
insert_element done (suc i) w = element w done
insert_element (element v vs) (suc i) w = element v (insert_element vs i w)

-- append(current[:index], current[index+1:]...)
unfoldable pub delete_element : Elements → ℕ → Elements
delete_element done i = done
delete_element (element v vs) zero = vs
delete_element (element v vs) (suc i) = element v (delete_element vs i)

-- current[key]
unfoldable pub member_of : Members → String → Option Json
member_of empty_object k = none
member_of (member j v ms) k = let rest = member_of ms k in if j == k then some v else rest

-- current[key] = value
unfoldable pub put_member : Members → String → Json → Members
put_member empty_object k w = member k w empty_object
put_member (member j v ms) k w =
    let rest = put_member ms k w in
    if j == k
    then member j w ms
    else if str_le k j
    then member k w (member j v ms)
    else member j v rest

-- delete(current, key)
unfoldable pub delete_member : Members → String → Members
delete_member empty_object k = empty_object
delete_member (member j v ms) k =
    let rest = delete_member ms k in if j == k then ms else member j v rest

same_bool : Bool → Bool → Bool
same_bool true b = b
same_bool false true = false
same_bool false false = true

-- reflect.DeepEqual
unfoldable mutual
  unfolding same_bool

  pub json_eq : Json → Json → Bool
  json_eq null null = true
  json_eq (boolean a) (boolean b) = same_bool a b
  json_eq (number s) (number t) = s == t
  json_eq (text s) (text t) = s == t
  json_eq (array vs) (array ws) = elements_eq vs ws
  json_eq (object ms) (object ns) = members_eq ms ns
  json_eq _ _ = false

  pub elements_eq : Elements → Elements → Bool
  elements_eq done done = true
  elements_eq (element v vs) (element w ws) = json_eq v w && elements_eq vs ws
  elements_eq _ _ = false

  pub members_eq : Members → Members → Bool
  members_eq empty_object empty_object = true
  members_eq (member j v ms) (member k w ns) = j == k && (json_eq v w && members_eq ms ns)
  members_eq _ _ = false
