-- ===== src/Patch/Replace.antt =====
-- What "replace" does to an element of an array: server/internal/cluster/redis.go.
use open_rtc.Base.{ℕ, zero, suc, ◌<◌, String, ◌≡◌, refl, ap, ◌∙◌, true, false, some, [], ◌∷◌, arith}
use open_rtc.Cluster.{Bytes, PatchOperation}
use open_rtc.Errors.{Result, ok}
use open_rtc.Json.{Json, array, Elements, done, element, count, element_at, insert_element}
use open_rtc.Patch.{parse_array_index, get_json_value, add_json_value}
use open_rtc.Patch.Operations.{
  parse_json_pointer, operation_value, perform, apply_json_patch_operation,
}

pub count-insert_element :
    (vs : Elements) (i : ℕ) (w : Json) → count (insert_element vs i w) ≡ suc (count vs)
unfolding count insert_element
count-insert_element vs zero w = refl
count-insert_element done (suc i) w = refl
count-insert_element (element v vs) (suc i) w = ap suc (count-insert_element vs i w)

element_at-inserted :
    (vs : Elements) (i : ℕ) (w : Json)
    → i < count vs
    → (element_at (insert_element vs i w) i ≡ some w)
      × (element_at (insert_element vs i w) (suc i) ≡ element_at vs i)
unfolding count insert_element element_at
element_at-inserted done i w h = ground arith
element_at-inserted (element v vs) zero w h = (refl, refl)
element_at-inserted (element v vs) (suc i) w h = element_at-inserted vs i w (omega arith)

-- A token that names an element of an array names the same place for an insertion.
index_for_add :
    (token : String) (n i : ℕ)
    → parse_array_index token n false ≡ ok (i, false)
    → (parse_array_index token n true ≡ ok (i, false)) × (i < n)
unfolding parse_array_index
index_for_add token n i h = (ground (arith, h), ground (arith, h))

-- For a decoder and an encoder, an operation whose pointer is an index of an existing element and
-- whose value decodes: "replace" inserts the value before the
-- element and keeps the element. The array is one longer, has the value at the index, and the old
-- element one place after it.
pub replace_inserts :
    (decode : Bytes → Result Json) (encode : Json → Bytes) (vs : Elements)
    (operation : PatchOperation) (token : String) (i : ℕ) (old value : Json)
    → operation.op ≡ "replace"
    → parse_json_pointer operation.path ≡ ok (token ∷ [])
    → parse_array_index token (count vs) false ≡ ok (i, false)
    → element_at vs i ≡ some old
    → operation_value decode encode operation ≡ ok value
    → let ws = insert_element vs i value in
      (apply_json_patch_operation decode encode (array vs) operation ≡ ok (array ws))
      × (count ws ≡ suc (count vs))
      × (element_at ws i ≡ some value)
      × (element_at ws (suc i) ≡ some old)
unfolding apply_json_patch_operation perform get_json_value add_json_value
replace_inserts decode encode vs operation token i old value named path index there given =
    let (index', inside) = index_for_add token (count vs) i index in
    let (here, next) = element_at-inserted vs i value inside in
    let got : get_json_value (array vs) (token ∷ []) ≡ ok old = ground (arith, index, there) in
    let added : add_json_value (array vs) (token ∷ []) value
        ≡ ok (array (insert_element vs i value)) =
      ground (arith, index') in
    let performed : perform decode encode (array vs) (token ∷ []) operation
        ≡ ok (array (insert_element vs i value)) =
      rw (named, given, got, added, perform) refl in
    (
      rw (path, apply_json_patch_operation) performed,
      count-insert_element vs i value,
      here,
      next ∙ there,
    )
