-- ===== src/Engine/Fanout.antt =====
-- Who a message goes to: the sorted member lists of server/internal/roomengine/engine.go.
use open_rtc.Base.{
  String, ◌≡◌, sym, ◌∙◌, Bool, not, ◌&&◌, List, [], ◌∷◌, arith, ◌==◌, eq_iff, contains, keep,
  Distinct, IsSorted, contains-sort_strings, sort_strings-Distinct, sort_strings-IsSorted,
  sort_strings_unique,
}
use open_rtc.Dict.{has, keys, IsMap, contains-keys}
use open_rtc.Dict.Nested.{at, has_in, at-IsMap}
use open_rtc.Engine.{Engine, Names, sorted_without, member_ids_locked, yjs_target_ids_locked}
use open_rtc.Engine.Invariant.{IsConsistent}

contains-keep :
    (p : String → Bool) (xs : List String) (k : String)
    → contains (keep p xs) k ≡ (p k && contains xs k)
unfolding contains keep
contains-keep p [] k = ground arith
contains-keep p (x ∷ xs) k = ground (arith, contains-keep p xs k, eq_iff x k)

keep-Distinct : (p : String → Bool) (xs : List String) → Distinct xs → Distinct (keep p xs)
unfolding keep
keep-Distinct p [] d = tt
keep-Distinct p (x ∷ xs) d = ground (arith, keep-Distinct p xs, contains-keep p xs x)

contains-sorted_without :
    (names : Names) (exclude k : String)
    → contains (sorted_without names exclude) k
      ≡ (not (not (exclude == "") && k == exclude) && has names k)
unfolding sorted_without
contains-sorted_without names exclude k =
    contains-sort_strings _ k
    ∙ contains-keep (λ j. not (not (exclude == "") && j == exclude)) (keys names) k
    ∙ ground (arith, contains-keys names k)

sorted_without-Distinct :
    (names : Names) (exclude : String) → IsMap names → Distinct (sorted_without names exclude)
unfolding sorted_without
sorted_without-Distinct names exclude h =
    sort_strings-Distinct _
      (keep-Distinct (λ j. not (not (exclude == "") && j == exclude)) (keys names) h)

-- Two sets with the same names give the same list, whatever the order of their entries.
sorted_without_unique :
    (xs ys : Names) (exclude : String)
    → IsMap xs
    → IsMap ys
    → ((k : String) → has xs k ≡ has ys k)
    → sorted_without xs exclude ≡ sorted_without ys exclude
unfolding sorted_without
sorted_without_unique xs ys exclude hx hy same =
    let p = λ (j : String). not (not (exclude == "") && j == exclude) in
    sort_strings_unique (keep p (keys xs)) (keep p (keys ys)) (keep-Distinct p (keys xs) hx)
      (keep-Distinct p (keys ys) hy)
      λ k.
        contains-keep p (keys xs) k
        ∙ ground (arith, contains-keys xs k, contains-keys ys k, same k)
        ∙ sym (contains-keep p (keys ys) k)

pub contains-member_ids :
    (e : Engine) (room exclude k : String)
    → contains (member_ids_locked e room exclude) k
      ≡ (not (not (exclude == "") && k == exclude) && has_in e.rooms room k)
unfolding member_ids_locked
contains-member_ids e room exclude k = contains-sorted_without (at e.rooms room) exclude k

pub contains-yjs_target_ids :
    (e : Engine) (room exclude k : String)
    → contains (yjs_target_ids_locked e room exclude) k
      ≡ (not (not (exclude == "") && k == exclude) && has_in e.yjs_rooms room k)
unfolding yjs_target_ids_locked
contains-yjs_target_ids e room exclude k = contains-sorted_without (at e.yjs_rooms room) exclude k

-- In a consistent engine the targets of a room are exactly its joined connections other than the
-- excluded one, each once, in ascending order.
pub member_ids_exact :
    (e : Engine) (room exclude : String)
    → IsConsistent e
    → ((k : String)
        → contains (member_ids_locked e room exclude) k
          ≡ (not (not (exclude == "") && k == exclude) && has_in e.conn_rooms k room))
      × Distinct (member_ids_locked e room exclude)
      × IsSorted (member_ids_locked e room exclude)
unfolding member_ids_locked
member_ids_exact e room exclude h = (
  λ k. ground (arith, contains-member_ids e room exclude k, h.indexed k room),
  sorted_without-Distinct (at e.rooms room) exclude (at-IsMap e.rooms room h.rooms_nested),
  unfold sorted_without in sort_strings-IsSorted _,
)

-- Two consistent engines with the same members in a room send to the same targets in the same
-- order, whatever the order in which their maps are iterated.
pub member_ids_deterministic :
    (e f : Engine) (room exclude : String)
    → IsConsistent e
    → IsConsistent f
    → ((k : String) → has_in e.rooms room k ≡ has_in f.rooms room k)
    → member_ids_locked e room exclude ≡ member_ids_locked f room exclude
unfolding member_ids_locked
member_ids_deterministic e f room exclude h k same =
    sorted_without_unique (at e.rooms room) (at f.rooms room) exclude
      (at-IsMap e.rooms room h.rooms_nested) (at-IsMap f.rooms room k.rooms_nested) same
