-- ===== src/Access/Implied.antt =====
-- What one permission implies: permissionAllowsAction of server/internal/cluster/redis.go.
use open_rtc.Base.{String, ◌≡◌, refl, true, Option, none, some, List, [], ◌∷◌, arith}
use open_rtc.Access.Records.{
  RoomRecord, permission_allows_action, permissions_allow, group_permissions, user_permissions,
  record_allows,
}

-- Who may do the first may do the second.
pub data Implies : String → String → Type 0 where
  publish_join : Implies "publish" "join"
  room_write_read : Implies "room:write" "room:read"
  storage_write_read : Implies "storage:write" "storage:read"
  comments_write_read : Implies "comments:write" "comments:read"
  feeds_write_read : Implies "feeds:write" "feeds:read"

-- The actions that the server asks for.
pub data IsAction : String → Type 0 where
  join : IsAction "join"
  publish : IsAction "publish"
  presence : IsAction "presence"
  room_read : IsAction "room:read"
  room_write : IsAction "room:write"
  storage : IsAction "storage"
  storage_read : IsAction "storage:read"
  storage_write : IsAction "storage:write"
  comments : IsAction "comments"
  comments_read : IsAction "comments:read"
  comments_write : IsAction "comments:write"
  feeds : IsAction "feeds"
  feeds_read : IsAction "feeds:read"
  feeds_write : IsAction "feeds:write"

permission_implied :
    (p : String) {action weaker : String}
    → Implies action weaker
    → permission_allows_action p action ≡ true
    → permission_allows_action p weaker ≡ true
unfolding permission_allows_action
permission_implied p publish_join h = ground arith
permission_implied p room_write_read h = ground arith
permission_implied p storage_write_read h = ground arith
permission_implied p comments_write_read h = ground arith
permission_implied p feeds_write_read h = ground arith

permissions_implied :
    (ps : List String) {action weaker : String}
    → Implies action weaker
    → permissions_allow ps action ≡ true
    → permissions_allow ps weaker ≡ true
unfolding permissions_allow
permissions_implied [] i h = h
permissions_implied (p ∷ ps) i h = ground (arith, permission_implied p i, permissions_implied ps i)

-- A room's record that allows somebody to write, publish, comment or feed also allows them to read,
-- by whichever entry of the record decides.
pub record_allows-implied :
    (r : RoomRecord) (subject : String) (group_ids : List String) {action weaker : String}
    → Implies action weaker
    → record_allows r subject group_ids action ≡ true
    → record_allows r subject group_ids weaker ≡ true
unfolding record_allows
record_allows-implied r subject group_ids i h =
    go (user_permissions r subject) (group_permissions r group_ids) i h
  where
    go :
        (u g : Option (List String)) {action weaker : String}
        → Implies action weaker
        → elim u [
          | some permissions ↦ permissions_allow permissions action
          | none ↦ elim g [
            | some permissions ↦ permissions_allow permissions action
            | none ↦ permissions_allow r.default_accesses action
          ]
        ]
          ≡ true
        → elim u [
          | some permissions ↦ permissions_allow permissions weaker
          | none ↦ elim g [
            | some permissions ↦ permissions_allow permissions weaker
            | none ↦ permissions_allow r.default_accesses weaker
          ]
        ]
          ≡ true
    go (some ps) g i h = permissions_implied ps i h
    go none (some ps) i h = permissions_implied ps i h
    go none none i h = permissions_implied r.default_accesses i h

-- The permission room:write allows every action that the server asks for.
pub room_write_allows_all :
    {action : String} → IsAction action → permission_allows_action "room:write" action ≡ true
unfolding permission_allows_action
room_write_allows_all join = refl
room_write_allows_all publish = refl
room_write_allows_all presence = refl
room_write_allows_all room_read = refl
room_write_allows_all room_write = refl
room_write_allows_all storage = refl
room_write_allows_all storage_read = refl
room_write_allows_all storage_write = refl
room_write_allows_all comments = refl
room_write_allows_all comments_read = refl
room_write_allows_all comments_write = refl
room_write_allows_all feeds = refl
room_write_allows_all feeds_read = refl
room_write_allows_all feeds_write = refl
