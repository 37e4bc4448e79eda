-- ===== src/Access/Claims.antt =====
-- The claims of a token and what they allow: server/internal/auth/verifier.go.
use open_rtc.Base.{
  String, Bool, false, not, ◌&&◌, ◌||◌, none, some, List, [], ◌∷◌, ◌++◌, ◌==◌, if◌then◌else◌,
  append, strip_prefix, has_prefix, fields, contains,
}
use open_rtc.Access.Pattern.{path_match}

pub record Claims : Type 0 where
  pub subject : String
  pub tenant : String
  pub join : List String
  pub publish : List String
  pub presence : List String
  pub groups : List String
  pub group_ids : List String
  pub scope : String

unfoldable pub scope_prefixes_for_action : String → List String
unfolding append
scope_prefixes_for_action action =
    if action == "join" || action == "room:read"
    then "join:" ∷ "room:read:" ∷ "room:write:" ∷ []
    else if action == "publish" || action == "room:write"
    then "publish:" ∷ "room:write:" ∷ []
    else if action == "presence"
    then "presence:" ∷ "room:presence:write:" ∷ "room:write:" ∷ []
    else if action == "storage" || action == "storage:read"
    then "storage:read:" ∷ "storage:write:" ∷ "storage:" ∷ []
    else if action == "storage:write"
    then "storage:write:" ∷ "storage:" ∷ []
    else if action == "comments" || action == "comments:write"
    then "comments:write:" ∷ "comments:" ∷ []
    else if action == "comments:read"
    then "comments:read:" ∷ "comments:write:" ∷ "comments:" ∷ []
    else if action == "feeds" || action == "feeds:read"
    then "feeds:read:" ∷ "feeds:write:" ∷ "feeds:" ∷ []
    else if action == "feeds:write"
    then "feeds:write:" ∷ "feeds:" ∷ []
    else append action ":" ∷ []

-- The pattern of a word of the scope: what follows the first prefix that it has.
unfoldable pub token_pattern : List String → String → List String
unfolding strip_prefix
token_pattern [] token = []
token_pattern (prefix ∷ prefixes) token = elim (strip_prefix prefix token) [
  | none ↦ token_pattern prefixes token
  | some pattern ↦ pattern ∷ []
]

unfoldable pub token_patterns : List String → List String → List String
unfolding token_pattern
token_patterns prefixes [] = []
token_patterns prefixes (token ∷ tokens) =
    token_pattern prefixes token ++ token_patterns prefixes tokens

unfoldable pub listed_patterns : Claims → String → List String
listed_patterns c action =
    if action == "join"
    then c.join
    else if action == "publish"
    then c.publish
    else if action == "presence"
    then c.presence
    else []

unfoldable pub patterns_for : Claims → String → List String
unfolding listed_patterns token_patterns scope_prefixes_for_action fields
patterns_for c action =
    listed_patterns c action ++ token_patterns (scope_prefixes_for_action action) (fields c.scope)

unfoldable pub any_matches : List String → String → Bool
unfolding path_match
any_matches [] room = false
any_matches (pattern ∷ patterns) room = path_match pattern room || any_matches patterns room

-- c.Tenant != "" && strings.HasPrefix(room, c.Tenant+separator)
unfoldable pub in_tenant : Claims → String → String → Bool
unfolding has_prefix append
in_tenant c room separator = not (c.tenant == "") && has_prefix room (append c.tenant separator)

unfoldable pub allows : Claims → String → String → Bool → String → Bool
unfolding in_tenant any_matches patterns_for
allows c action room enforce_prefix separator =
    if enforce_prefix && not (in_tenant c room separator)
    then false
    else any_matches (patterns_for c action) room

-- The groups that are not empty and not in `seen`, each once.
unfoldable pub unseen_groups : List String → List String → List String
unfolding contains
unseen_groups seen [] = []
unseen_groups seen (group_id ∷ ids) =
    let taken = group_id == "" || contains seen group_id in
    let rest = unseen_groups (if taken then seen else group_id ∷ seen) ids in
    if taken then rest else group_id ∷ rest

unfoldable pub room_group_ids : Claims → List String
unfolding unseen_groups
room_group_ids c = unseen_groups [] (c.group_ids ++ c.groups)
