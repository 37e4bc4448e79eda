-- ===== src/Access/Records.antt =====
-- What a room's record allows: RoomRecord.Allows of server/internal/cluster/redis.go.
use open_rtc.Base.{
  String, Bool, false, ◌||◌, Option, none, some, List, [], ◌∷◌, ◌++◌, ◌==◌, if◌then◌else◌, ℕ,
}
use open_rtc.Cluster.{Bytes}
use open_rtc.Dict.{Dict, get}

pub record RoomRecord : Type 0 where
  pub id : String
  pub metadata : Bytes
  pub default_accesses : List String
  pub users_accesses : Dict (List String)
  pub groups_accesses : Dict (List String)
  pub created_at : ℕ
  pub updated_at : ℕ

unfoldable pub permission_allows_action : String → String → Bool
permission_allows_action permission action =
    if action == "join" || action == "room:read"
    then permission == "room:read" || permission == "room:write"
    else if action == "publish" || action == "room:write"
    then permission == "room:write"
    else if action == "presence"
    then permission == "room:presence:write" || permission == "room:write"
    else if action == "storage" || action == "storage:read"
    then permission == "storage:read"
      || (permission == "storage:write" || permission == "room:write")
    else if action == "storage:write"
    then permission == "storage:write" || permission == "room:write"
    else if action == "comments" || action == "comments:write"
    then permission == "comments:write" || permission == "room:write"
    else if action == "comments:read"
    then permission == "comments:read"
      || (permission == "comments:write" || permission == "room:write")
    else if action == "feeds" || action == "feeds:write"
    then permission == "feeds:write" || permission == "room:write"
    else if action == "feeds:read"
    then permission == "feeds:read" || (permission == "feeds:write" || permission == "room:write")
    else false

unfoldable pub permissions_allow : List String → String → Bool
permissions_allow [] action = false
permissions_allow (permission ∷ permissions) action =
    permission_allows_action permission action || permissions_allow permissions action

-- The permissions of the groups that the record knows; none if it knows no group of the list.
unfoldable pub group_permissions : RoomRecord → List String → Option (List String)
unfolding get
group_permissions r [] = none
group_permissions r (group_id ∷ ids) =
    let rest = group_permissions r ids in
    elim (get r.groups_accesses group_id) [
      | none ↦ rest
      | some permissions ↦ elim rest [
        | none ↦ some permissions
        | some others ↦ some (permissions ++ others)
      ]
    ]

unfoldable pub user_permissions : RoomRecord → String → Option (List String)
unfolding get
user_permissions r subject = if subject == "" then none else get r.users_accesses subject

unfoldable pub record_allows : RoomRecord → String → List String → String → Bool
unfolding user_permissions group_permissions permissions_allow
record_allows r subject group_ids action = elim (user_permissions r subject) [
  | some permissions ↦ permissions_allow permissions action
  | none ↦ elim (group_permissions r group_ids) [
    | some permissions ↦ permissions_allow permissions action
    | none ↦ permissions_allow r.default_accesses action
  ]
]
