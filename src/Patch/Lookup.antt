-- ===== src/Patch/Lookup.antt =====
-- Reading what "add" wrote: server/internal/cluster/redis.go, addJSONValue and getJSONValue.
use open_rtc.Base.{
  ℕ, zero, suc, ◌≤◌, ◌<◌, String, ◌≡◌, refl, ap, sym, subst, Bool, true, false, ◌||◌, ◌⊎◌, inl, inr,
  Option, none, some, List, [], ◌∷◌, arith, ◌==◌, eq_refl, leb, contains, Bool-cases,
}
use open_rtc.Errors.{Result, ok, err}
use open_rtc.Json.{
  Json, null, boolean, number, text, array, object, Elements, done, element, Members, empty_object,
  member, count, element_at, set_element, insert_element, member_of, put_member,
}
use open_rtc.Patch.{parse_array_index, get_json_value, add_json_value, found}
use open_rtc.Patch.Replace.{count-insert_element}

member_of-put_member :
    (ms : Members) (k : String) (w : Json) → member_of (put_member ms k w) k ≡ some w
unfolding member_of put_member
member_of-put_member empty_object k w = ground (arith, eq_refl k)
member_of-put_member (member j v ms) k w = ground (arith, member_of-put_member ms k w, eq_refl k)

element_at-insert_element :
    (vs : Elements) (i : ℕ) (w : Json)
    → i ≤ count vs
    → element_at (insert_element vs i w) i ≡ some w
unfolding count insert_element element_at
element_at-insert_element vs zero w h = refl
element_at-insert_element done (suc i) w h = ground arith
element_at-insert_element (element v vs) (suc i) w h =
    element_at-insert_element vs i w (omega arith)

element_at-set_element :
    (vs : Elements) (i : ℕ) (w : Json)
    → i < count vs
    → (element_at (set_element vs i w) i ≡ some w) × (count (set_element vs i w) ≡ count vs)
unfolding count set_element element_at
element_at-set_element done i w h = ground arith
element_at-set_element (element v vs) zero w h = (refl, refl)
element_at-set_element (element v vs) (suc i) w h =
    let below = element_at-set_element vs i w (omega arith) in (below.0, ap suc below.1)

-- The index that a token other than "-" names for an insertion, read again in a longer array.
index_after :
    (token : String) (n m i : ℕ) (past : Bool)
    → (token == "-") ≡ false
    → parse_array_index token n true ≡ ok (i, past)
    → n < m ⊎ (i < n × n ≡ m)
    → parse_array_index token m false ≡ ok (i, false)
unfolding parse_array_index
index_after token n m i past named h inside = ground (arith, h)

index_bound :
    (token : String) (n i : ℕ) (past : Bool)
    → (token == "-") ≡ false
    → parse_array_index token n true ≡ ok (i, past)
    → i ≤ n
unfolding parse_array_index
index_bound token n i past named h = ground (arith, h)

read_added :
    (ms : Members) (key : String) (tokens : List String) (child w : Json)
    → get_json_value child tokens ≡ ok w
    → get_json_value (object (put_member ms key child)) (key ∷ tokens) ≡ ok w
unfolding get_json_value found
read_added ms key tokens child w h = rw (member_of-put_member ms key child) h

read_inserted :
    (vs : Elements) (token : String) (i : ℕ) (past : Bool) (w : Json)
    → (token == "-") ≡ false
    → parse_array_index token (count vs) true ≡ ok (i, past)
    → get_json_value (array (insert_element vs i w)) (token ∷ []) ≡ ok w
unfolding get_json_value found
read_inserted vs token i past w named h =
    rw
      (
        index_after token (count vs) (count (insert_element vs i w)) i past named h
            (inl (omega (arith, count-insert_element vs i w))),
        element_at-insert_element vs i w (index_bound token (count vs) i past named h),
      )
      refl

read_set :
    (vs : Elements) (token : String) (tokens : List String) (i : ℕ) (past : Bool) (child w : Json)
    → (token == "-") ≡ false
    → parse_array_index token (count vs) true ≡ ok (i, past)
    → i < count vs
    → get_json_value child tokens ≡ ok w
    → get_json_value (array (set_element vs i child)) (token ∷ tokens) ≡ ok w
unfolding get_json_value found
read_set vs token tokens i past child w named h inside read =
    let (there, same) = element_at-set_element vs i child inside in
    rw
      (
        index_after token (count vs) (count (set_element vs i child)) i past named h
            (inr (inside, sym same)),
        there,
      )
      read

-- What an addition below an element of an array needs.
add_below :
    (vs : Elements) (token next : String) (tokens : List String) (v r : Json)
    → (token == "-") ≡ false
    → add_json_value (array vs) (token ∷ (next ∷ tokens)) v ≡ ok r
    → ((child updated : Json)
        → add_json_value child (next ∷ tokens) v ≡ ok updated
        → get_json_value updated (next ∷ tokens) ≡ ok v)
    → get_json_value r (token ∷ (next ∷ tokens)) ≡ ok v
unfolding add_json_value found
add_below vs token next tokens v r named ran again =
    indexed (parse_array_index token (count vs) true) refl
  where
    updating :
        (i : ℕ) (past : Bool) (child : Json) (result : Result Json)
        → parse_array_index token (count vs) true ≡ ok (i, past)
        → (past || leb (count vs) i) ≡ false
        → element_at vs i ≡ some child
        → add_json_value child (next ∷ tokens) v ≡ result
        → get_json_value r (token ∷ (next ∷ tokens)) ≡ ok v
    updating i past child (err error) p q c u = ground (arith, ran, p, q, c, u)
    updating i past child (ok updated) p q c u =
        subst (λ x. get_json_value x (token ∷ (next ∷ tokens)) ≡ ok v)
          (ground (arith, ran, p, q, c, u))
          (read_set vs token (next ∷ tokens) i past updated v named p (ground arith)
            (again child updated u))

    reading :
        (i : ℕ) (past : Bool) (child : Option Json)
        → parse_array_index token (count vs) true ≡ ok (i, past)
        → element_at vs i ≡ child
        → get_json_value r (token ∷ (next ∷ tokens)) ≡ ok v
    reading i past none p c = ground (arith, ran, p, c)
    reading i past (some child) p c = elim (Bool-cases (past || leb (count vs) i)) [
      | inl out ↦ ground (arith, ran, p, c, out)
      | inr q ↦ updating i past child (add_json_value child (next ∷ tokens) v) p q c refl
    ]

    indexed :
        (at : Result (ℕ × Bool))
        → parse_array_index token (count vs) true ≡ at
        → get_json_value r (token ∷ (next ∷ tokens)) ≡ ok v
    indexed (err error) p = ground (arith, ran, p)
    indexed (ok (i, past)) p = reading i past (element_at vs i) p refl

add_here :
    (vs : Elements) (token : String) (v r : Json)
    → (token == "-") ≡ false
    → add_json_value (array vs) (token ∷ []) v ≡ ok r
    → get_json_value r (token ∷ []) ≡ ok v
unfolding add_json_value
add_here vs token v r named ran = indexed (parse_array_index token (count vs) true) refl
  where
    indexed :
        (at : Result (ℕ × Bool))
        → parse_array_index token (count vs) true ≡ at
        → get_json_value r (token ∷ []) ≡ ok v
    indexed (err error) p = ground (arith, ran, p)
    indexed (ok (i, past)) p =
        subst (λ x. get_json_value x (token ∷ []) ≡ ok v) {x = array (insert_element vs i v)}
          (ground (arith, ran, p)) (read_inserted vs token i past v named p)

add_member :
    (ms : Members) (key next : String) (tokens : List String) (v r : Json)
    → add_json_value (object ms) (key ∷ (next ∷ tokens)) v ≡ ok r
    → ((child updated : Json)
        → add_json_value child (next ∷ tokens) v ≡ ok updated
        → get_json_value updated (next ∷ tokens) ≡ ok v)
    → get_json_value r (key ∷ (next ∷ tokens)) ≡ ok v
unfolding add_json_value found
add_member ms key next tokens v r ran again = reading (member_of ms key) refl
  where
    updating :
        (child : Json) (result : Result Json)
        → member_of ms key ≡ some child
        → add_json_value child (next ∷ tokens) v ≡ result
        → get_json_value r (key ∷ (next ∷ tokens)) ≡ ok v
    updating child (err error) c u = ground (arith, ran, c, u)
    updating child (ok updated) c u =
        subst (λ x. get_json_value x (key ∷ (next ∷ tokens)) ≡ ok v)
          {x = object (put_member ms key updated)} (ground (arith, ran, c, u))
          (read_added ms key (next ∷ tokens) updated v (again child updated u))

    reading :
        (child : Option Json)
        → member_of ms key ≡ child
        → get_json_value r (key ∷ (next ∷ tokens)) ≡ ok v
    reading none c = ground (arith, ran, c)
    reading (some child) c = updating child (add_json_value child (next ∷ tokens) v) c refl

-- After an "add" that succeeds, reading at its pointer gives the value that was added, if no token
-- of the pointer is "-".
pub add-get :
    (root : Json) (tokens : List String) (v r : Json)
    → contains tokens "-" ≡ false
    → add_json_value root tokens v ≡ ok r
    → get_json_value r tokens ≡ ok v
unfolding add_json_value get_json_value found contains
add-get root [] v r plain ran = ground (arith, ran)
add-get (object ms) (key ∷ []) v r plain ran =
    subst (λ x. get_json_value x (key ∷ []) ≡ ok v) {x = object (put_member ms key v)}
      (ground (arith, ran)) (read_added ms key [] v v refl)
add-get (array vs) (token ∷ []) v r plain ran = add_here vs token v r (ground (arith, plain)) ran
add-get (object ms) (key ∷ (next ∷ tokens)) v r plain ran =
    add_member ms key next tokens v r ran
      λ child updated u. add-get child (next ∷ tokens) v updated (ground (arith, plain)) u
add-get (array vs) (token ∷ (next ∷ tokens)) v r plain ran =
    add_below vs token next tokens v r (ground (arith, plain)) ran
      λ child updated u. add-get child (next ∷ tokens) v updated (ground (arith, plain)) u
add-get null (token ∷ tokens) v r plain ran = ground (arith, ran)
add-get (boolean b) (token ∷ tokens) v r plain ran = ground (arith, ran)
add-get (number s) (token ∷ tokens) v r plain ran = ground (arith, ran)
add-get (text s) (token ∷ tokens) v r plain ran = ground (arith, ran)
