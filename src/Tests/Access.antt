-- ===== src/Tests/Access.antt =====
-- Examples of access decisions: a tenant "acme", a token with a scope, and a room with groups.
use open_rtc.Base.{
  ℕ, ◌-◌, ◌≤◌, ◌<◌, String, ◌≡◌, ◌≢◌, refl, Bool, true, false, ◌&&◌, ◌||◌, Option, none, some, List,
  [], ◌∷◌, arith, append, contains, ◌⊎◌, inl, inr,
}
use open_rtc.Cluster.{Bytes}
use open_rtc.Dict.{empty, put}
use open_rtc.Access.Claims.{Claims, any_matches, allows}
use open_rtc.Access.Records.{RoomRecord, record_allows}
use open_rtc.Access.Rooms.{
  RoomAuthorizationOptions, RoomGetter, allows_room_action, store_allows, separator_of,
}
use open_rtc.Access.Keys.{PublicKey, KeyResponse, Verifier, lookup_key, choose_key, fetch_keys}
use open_rtc.Access.Tenant.{allows_room_action-tenant}
use open_rtc.Access.Scope.{within, in_reach, write_scope-rooms, read_scope-rooms}
use open_rtc.Access.Groups.{store_allows-groups}
use open_rtc.Access.Implied.{publish_join, record_allows-implied}
use open_rtc.Access.Freshness.{lookup_key-fresh}

-- The scope that grants writing in the rooms that begin with `p`, and nothing is listed.
abbrev write_scope : String → String → String → List String → List String → Claims
write_scope subject tenant p groups group_ids = record {
  subject = subject;
  tenant = tenant;
  join = [];
  publish = [];
  presence = [];
  groups = groups;
  group_ids = group_ids;
  scope = append "room:write:" (append p "*");
}

-- The scope that grants reading storage in the rooms that begin with `p`.
abbrev read_scope : String → String → String → List String → List String → Claims
read_scope subject tenant p groups group_ids =
    record (write_scope subject tenant p groups group_ids) {
      scope = append "storage:read:" (append p "*");
    }

abbrev token : Claims
token = write_scope "ann" "acme" "acme:" ("b" ∷ []) ("a" ∷ "b" ∷ [])

abbrev enforced : RoomAuthorizationOptions
enforced = record { enforce_tenant_prefix = true; tenant_separator = "" }

token_joins : allows_room_action (some token) none "join" "acme:lobby" enforced ≡ true
unfolding allows_room_action
token_joins = refl

allows_room_action-tenant_example :
    (token.tenant ≢ "")
    × (rest : String) × (◌≡◌ {A = String} "acme:lobby"
        (append "acme" (append (separator_of enforced) rest)))
allows_room_action-tenant_example =
    allows_room_action-tenant token none "join" "acme:lobby" enforced refl token_joins

other_tenant : allows_room_action (some token) none "join" "other:lobby" enforced ≡ false
unfolding allows_room_action
other_tenant = refl

write_scope-rooms_example :
    let c = write_scope "ann" "a" "a:" [] [] in
    let reach = in_reach c "a:b" true ":" in
    (allows c "join" "a:b" true ":" ≡ (reach && (any_matches c.join "a:b" || within "a:" "a:b")))
    × (allows c "publish" "a:b" true ":"
        ≡ (reach && (any_matches c.publish "a:b" || within "a:" "a:b")))
    × (allows c "presence" "a:b" true ":"
        ≡ (reach && (any_matches c.presence "a:b" || within "a:" "a:b")))
    × (allows c "storage:write" "a:b" true ":" ≡ false)
unfolding open_rtc.Base.is_space
write_scope-rooms_example =
    write_scope-rooms (write_scope "ann" "a" "a:" [] []) "a:" "a:b" true ":"
      (refl, refl, (refl, refl, tt)) refl

read_scope-rooms_example :
    let c = read_scope "ann" "read" "" [] [] in
    let reach = in_reach c "read:x" true ":" in
    (allows c "storage:read" "read:x" true ":" ≡ (reach && within "" "read:x"))
    × (allows c "storage:write" "read:x" true ":" ≡ (reach && within (append "read:" "") "read:x"))
read_scope-rooms_example =
    read_scope-rooms (read_scope "ann" "read" "" [] []) "" "read:x" true ":" tt refl

-- A token that may only read storage writes it, in a tenant whose name is "read".
read_tenant_written :
    allows_room_action
      (some (read_scope "ann" "read" "" [] []))
      none
      "storage:write"
      "read:x"
      enforced
    ≡ true
unfolding allows_room_action
read_tenant_written = refl

abbrev board : RoomRecord
board = record {
  id = "board";
  metadata = [];
  default_accesses = [];
  users_accesses = empty;
  groups_accesses = put empty "a" ("room:write" ∷ []);
  created_at = 0;
  updated_at = 0;
}

abbrev rooms : RoomGetter
rooms room = some board

abbrev swapped : Claims
swapped = write_scope "ann" "acme" "acme:" [] ("b" ∷ "a" ∷ [])

store_allows-groups_example :
    store_allows token (some rooms) "publish" "board"
    ≡ store_allows swapped (some rooms) "publish" "board"
unfolding contains
store_allows-groups_example =
    store_allows-groups token swapped (some rooms) "publish" "board" refl same
  where
    same :
        (k : String)
        → k ≢ ""
        → (contains ("a" ∷ "b" ∷ []) k || contains ("b" ∷ []) k)
          ≡ (contains ("b" ∷ "a" ∷ []) k || contains [] k)
    same k n = ground arith

group_publishes : record_allows board "ann" ("b" ∷ "a" ∷ []) "publish" ≡ true
unfolding record_allows empty put open_rtc.Access.Records.permission_allows_action
group_publishes = refl

record_allows-implied_example : record_allows board "ann" ("b" ∷ "a" ∷ []) "join" ≡ true
record_allows-implied_example =
    record_allows-implied board "ann" ("b" ∷ "a" ∷ []) publish_join group_publishes

abbrev decode : String → Option Bytes
decode s = some (3 ∷ [])

abbrev answer : KeyResponse
answer = record {
  status = 200;
  document = some (record { kty = "RSA"; kid = "k1"; n = "Aw"; e = "Aw" } ∷ []);
}

abbrev key : PublicKey
key = record { modulus = 3; exponent = 3 }

abbrev started : Verifier
started = record { cached_at = 0; cached_ttl = 300; keys = empty }

abbrev verified : Verifier
verified = record { cached_at = 101; cached_ttl = 300; keys = put empty "k1" key }

looked_up : lookup_key decode started 100 101 (some answer) "k1" ≡ (verified, some key)
unfolding lookup_key
looked_up = refl

lookup_key-fresh_example :
    (choose_key verified.keys "k1" ≡ some key)
    × ((verified ≡ started) × (100 - started.cached_at ≤ started.cached_ttl)
        ⊎ (verified.cached_at ≡ 101) × (fetch_keys decode (some answer) ≡ some verified.keys))
lookup_key-fresh_example =
    lookup_key-fresh decode started 100 101 (some answer) "k1" verified key looked_up
