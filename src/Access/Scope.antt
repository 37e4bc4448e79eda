-- ===== src/Access/Scope.antt =====
-- What a scope grants: the patterns of server/internal/auth/verifier.go.
use Prim.Native.Char.{code}
use open_rtc.Base.{
  ℕ, String, ◌≡◌, refl, ap, ◌∙◌, Bool, true, false, not, ◌&&◌, ◌||◌, Option, none, some, List, [],
  ◌∷◌, ◌++◌, arith, nat_eq, append, strip_prefix, is_space, add_word, first_word, fields,
}
use open_rtc.Access.Pattern.{
  Part, star, plain, Reading, outside, read_outside, parts_of, chunks_of, match_chunk, match_parts,
  has_no_slash, path_match,
}
use open_rtc.Access.Claims.{
  Claims, scope_prefixes_for_action, token_patterns, listed_patterns, patterns_for, any_matches,
  in_tenant, allows,
}

-- Not one of the characters that a pattern reads as something else than themselves.
abbrev is_literal : ℕ → Bool
is_literal c = not (nat_eq c 42) && (not (nat_eq c 63) && (not (nat_eq c 91) && not (nat_eq c 92)))

-- No such character and no space.
abbrev pub IsLiteral : String → Type 0
IsLiteral String.[] = Unit {0}
IsLiteral (String.◌∷◌ c s) =
    (is_literal (code c) ≡ true) × (is_space (code c) ≡ false) × IsLiteral s

literal_parts : String → List Part
literal_parts String.[] = []
literal_parts (String.◌∷◌ c s) = plain (code c) ∷ literal_parts s

read_outside-literal : (c : ℕ) → is_literal c ≡ true → read_outside c ≡ (plain c ∷ [], outside)
unfolding read_outside
read_outside-literal c h = ground arith

abbrev with_parts : List Part → Option (List Part) → Option (List Part)
with_parts ps none = none
with_parts ps (some rest) = some (ps ++ rest)

abbrev completed : List Part × Reading → String → Option (List Part)
completed r s = elim (parts_of r.1 s) [ none ↦ none | some rest ↦ some (r.0 ++ rest) ]

parts_of-literal :
    (p s : String) (ps : List Part)
    → IsLiteral p
    → parts_of outside s ≡ some ps
    → parts_of outside (append p s) ≡ some (literal_parts p ++ ps)
unfolding parts_of literal_parts append
parts_of-literal String.[] s ps l e = e
parts_of-literal (String.◌∷◌ c p) s ps l e =
    ap (λ (r : List Part × Reading). completed r (append p s)) (read_outside-literal (code c) l.0)
    ∙ ap (with_parts (plain (code c) ∷ [])) (parts_of-literal p s ps l.2 e)

chunks_of-literal_star :
    (p : String) → chunks_of (literal_parts p ++ star ∷ []) ≡ (literal_parts p, [] ∷ [])
unfolding chunks_of literal_parts
chunks_of-literal_star String.[] = refl
chunks_of-literal_star (String.◌∷◌ c p) = rw (chunks_of-literal_star p, chunks_of) refl

match_chunk-literal : (p s : String) → match_chunk (literal_parts p) s ≡ strip_prefix p s
unfolding match_chunk literal_parts strip_prefix
match_chunk-literal String.[] s = refl
match_chunk-literal (String.◌∷◌ c p) String.[] = refl
match_chunk-literal (String.◌∷◌ c p) (String.◌∷◌ d s) = ground (arith, match_chunk-literal p s)

-- The rooms of a prefix: what follows it has no slash.
abbrev pub within : String → String → Bool
within p room = elim (strip_prefix p room) [ none ↦ false | some rest ↦ has_no_slash rest ]

abbrev decided : String → Option (List Part) → Bool
decided room none = false
decided room (some ps) = match_parts (chunks_of ps) room

path_match-within : (p room : String) → IsLiteral p → path_match (append p "*") room ≡ within p room
unfolding path_match
path_match-within p room l =
    ap (decided room) (parts_of-literal p "*" (star ∷ []) l refl)
    ∙ (ap (λ (c : List Part × List (List Part)). match_parts c room) (chunks_of-literal_star p)
        ∙ rest_of_name (match_chunk (literal_parts p) room) refl)
  where
    rest_of_name :
        (o : Option String)
        → match_chunk (literal_parts p) room ≡ o
        → match_parts (literal_parts p, [] ∷ []) room ≡ within p room
    rest_of_name none e = rw (e, match_parts) (ground (arith, match_chunk-literal p room))
    rest_of_name (some rest) e = rw (e, match_parts) (ground (arith, match_chunk-literal p room))

first_word-append :
    (p s : String)
    → IsLiteral p
    → first_word (append p s) ≡ (append p (first_word s).0, (first_word s).1)
unfolding first_word append
first_word-append String.[] s l = refl
first_word-append (String.◌∷◌ c p) s l = rw (l.1, first_word-append p s l.2) refl

add_word-star : (p : String) → add_word (append p "*") [] ≡ append p "*" ∷ []
unfolding append add_word
add_word-star String.[] = refl
add_word-star (String.◌∷◌ c p) = refl

-- A word is the only field of itself.
fields-word : (p : String) → IsLiteral p → fields (append p "*") ≡ append p "*" ∷ []
unfolding fields
fields-word p l = rw (first_word-append p "*" l, fields) (add_word-star p)

write_scope-IsLiteral : (p : String) → IsLiteral p → IsLiteral (append "room:write:" p)
unfolding append is_space
write_scope-IsLiteral p l = (
  refl,
  refl,
  (
    refl,
    refl,
    (
      refl,
      refl,
      (
        refl,
        refl,
        (
          refl,
          refl,
          (refl, refl, (refl, refl, (refl, refl, (refl, refl, (refl, refl, (refl, refl, l)))))),
        ),
      ),
    ),
  ),
)

-- The rooms that the one word of a scope grants.
abbrev granted : List String → String → List String → Bool
granted prefixes room words = any_matches (token_patterns prefixes words) room

granted_word :
    (p : String) (prefixes : List String) (room : String)
    → IsLiteral p
    → granted prefixes room (fields (append p "*")) ≡ granted prefixes room (append p "*" ∷ [])
granted_word p prefixes room l = ap (granted prefixes room) (fields-word p l)

granted_within :
    (p room : String) → IsLiteral p → any_matches (append p "*" ∷ []) room ≡ within p room
unfolding any_matches
granted_within p room l = ground (arith, path_match-within p room l)

-- One word of the scope whose pattern, by the prefixes of an action, is `q` and a star.
granted_rooms :
    (w q : String) (prefixes : List String) (room : String)
    → IsLiteral w
    → IsLiteral q
    → token_patterns prefixes (append w "*" ∷ []) ≡ append q "*" ∷ []
    → granted prefixes room (fields (append w "*")) ≡ within q room
granted_rooms w q prefixes room l m e =
    granted_word w prefixes room l
    ∙ (ap (λ (t : List String). any_matches t room) e ∙ granted_within q room m)

any_matches-append :
    (ps qs : List String) (room : String)
    → any_matches (ps ++ qs) room ≡ (any_matches ps room || any_matches qs room)
unfolding any_matches
any_matches-append [] qs room = refl
any_matches-append (p ∷ ps) qs room = ground (arith, any_matches-append ps qs room)

-- Whether the tenant prefix leaves the room to the patterns: it is not enforced, or the room has it.
abbrev pub in_reach : Claims → String → Bool → String → Bool
in_reach c room enforce_prefix separator = not enforce_prefix || in_tenant c room separator

-- An action is allowed in reach, by a listed pattern or by the scope.
allows_by :
    (c : Claims) (action room : String) (enforce_prefix : Bool) (separator : String) {b : Bool}
    → granted (scope_prefixes_for_action action) room (fields c.scope) ≡ b
    → allows c action room enforce_prefix separator ≡ (
        in_reach c room enforce_prefix separator
        && (any_matches (listed_patterns c action) room || b))
unfolding allows patterns_for
allows_by c action room enforce_prefix separator e = ground (
  arith,
  any_matches-append (listed_patterns c action)
      (token_patterns (scope_prefixes_for_action action) (fields c.scope)) room,
  e,
)

-- For a token whose scope is the one word `room:write:` with a literal prefix, without spaces and pattern
-- characters, and a star, whatever patterns it lists, and whether or not the tenant prefix is enforced: joining, publishing and setting
-- presence are each allowed in exactly the rooms that a pattern listed for it matches or that have the
-- prefix and no slash after it, and of these, where the tenant prefix is enforced, only in those that have
-- it. Writing storage is allowed nowhere.
pub write_scope-rooms :
    (c : Claims) (p room : String) (enforce_prefix : Bool) (separator : String)
    → IsLiteral p
    → c.scope ≡ append "room:write:" (append p "*")
    → let reach = in_reach c room enforce_prefix separator in
      (allows c "join" room enforce_prefix separator
        ≡ (reach && (any_matches c.join room || within p room)))
      × (allows c "publish" room enforce_prefix separator
          ≡ (reach && (any_matches c.publish room || within p room)))
      × (allows c "presence" room enforce_prefix separator
          ≡ (reach && (any_matches c.presence room || within p room)))
      × (allows c "storage:write" room enforce_prefix separator ≡ false)
unfolding listed_patterns scope_prefixes_for_action append any_matches token_patterns
write_scope-rooms c p room enforce_prefix separator l word = (
  allows_by c "join" room enforce_prefix separator
      (step ("join:" ∷ "room:read:" ∷ "room:write:" ∷ []) refl),
  allows_by c "publish" room enforce_prefix separator (step ("publish:" ∷ "room:write:" ∷ []) refl),
  allows_by c "presence" room enforce_prefix separator
      (step ("presence:" ∷ "room:presence:write:" ∷ "room:write:" ∷ []) refl),
  allows_by c "storage:write" room enforce_prefix separator (
        ap (λ (w : String). granted ("storage:write:" ∷ "storage:" ∷ []) room (fields w)) word
        ∙ granted_word (append "room:write:" p) ("storage:write:" ∷ "storage:" ∷ []) room
            (write_scope-IsLiteral p l))
      ∙ ground arith,
)
  where
    step :
        (prefixes : List String)
        → token_patterns prefixes (append (append "room:write:" p) "*" ∷ []) ≡ append p "*" ∷ []
        → granted prefixes room (fields c.scope) ≡ within p room
    step prefixes e =
        ap (λ (w : String). granted prefixes room (fields w)) word
        ∙ granted_rooms (append "room:write:" p) p prefixes room (write_scope-IsLiteral p l) l e

read_scope-IsLiteral : (p : String) → IsLiteral p → IsLiteral (append "storage:read:" p)
unfolding append is_space
read_scope-IsLiteral p l = (
  refl,
  refl,
  (
    refl,
    refl,
    (
      refl,
      refl,
      (
        refl,
        refl,
        (
          refl,
          refl,
          (
            refl,
            refl,
            (
              refl,
              refl,
              (refl, refl, (refl, refl, (refl, refl, (refl, refl, (refl, refl, (refl, refl, l)))))),
            ),
          ),
        ),
      ),
    ),
  ),
)

read-IsLiteral : (p : String) → IsLiteral p → IsLiteral (append "read:" p)
unfolding append is_space
read-IsLiteral p l = (refl, refl, (refl, refl, (refl, refl, (refl, refl, (refl, refl, l)))))

-- For a token whose scope is the one word `storage:read:` with a literal prefix, without spaces and pattern
-- characters, and a star, whether or not the tenant prefix is enforced: reading storage is allowed in exactly the rooms that have the prefix and no
-- slash after it. Writing storage is allowed too, in exactly the rooms that have `read:` and then the
-- prefix, and no slash after it. Where the tenant prefix is enforced, both only in rooms that have it.
pub read_scope-rooms :
    (c : Claims) (p room : String) (enforce_prefix : Bool) (separator : String)
    → IsLiteral p
    → c.scope ≡ append "storage:read:" (append p "*")
    → let reach = in_reach c room enforce_prefix separator in
      (allows c "storage:read" room enforce_prefix separator ≡ (reach && within p room))
      × (allows c "storage:write" room enforce_prefix separator
          ≡ (reach && within (append "read:" p) room))
unfolding listed_patterns scope_prefixes_for_action append any_matches token_patterns
read_scope-rooms c p room enforce_prefix separator l word = (
  allows_by c "storage:read" room enforce_prefix separator (
      ap
        (λ (w : String).
          granted ("storage:read:" ∷ "storage:write:" ∷ "storage:" ∷ []) room (fields w))
        word
      ∙ granted_rooms (append "storage:read:" p) p
          ("storage:read:" ∷ "storage:write:" ∷ "storage:" ∷ []) room (read_scope-IsLiteral p l) l
          refl),
  allows_by c "storage:write" room enforce_prefix separator (
      ap (λ (w : String). granted ("storage:write:" ∷ "storage:" ∷ []) room (fields w)) word
      ∙ granted_rooms (append "storage:read:" p) (append "read:" p)
          ("storage:write:" ∷ "storage:" ∷ []) room (read_scope-IsLiteral p l) (read-IsLiteral p l)
          refl),
)
