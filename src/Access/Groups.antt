-- ===== src/Access/Groups.antt =====
-- The groups of a token are a set: RoomGroupIDs of server/internal/auth/verifier.go and RoomRecord.Allows
-- of server/internal/cluster/redis.go.
use open_rtc.Base.{
  String, ◌≡◌, ◌≢◌, refl, sym, ap, ◌∙◌, Bool, true, false, not, ◌&&◌, ◌||◌, Option, none, some,
  List, [], ◌∷◌, ◌++◌, arith, ◌==◌, eq_iff, eq_refl, if◌then◌else◌, contains, contains-append,
  Distinct, Bool-cases, inl, inr,
}
use open_rtc.Dict.{get, is_some}
use open_rtc.Access.Claims.{Claims, unseen_groups, room_group_ids}
use open_rtc.Access.Records.{
  RoomRecord, permissions_allow, group_permissions, user_permissions, record_allows,
}
use open_rtc.Access.Rooms.{RoomGetter, store_allows}

-- Some name of the list passes the test.
abbrev some_of : (String → Bool) → List String → Bool
some_of p [] = false
some_of p (k ∷ ks) = p k || some_of p ks

some_of_member :
    (p : String → Bool) (ks : List String) (k : String)
    → contains ks k ≡ true
    → p k ≡ true
    → some_of p ks ≡ true
unfolding contains
some_of_member p [] k h e = ground arith
some_of_member p (j ∷ ks) k h e = elim (Bool-cases (j == k)) [
  | inl same ↦ rw (((eq_iff j k).0 same)) (ground arith)
  | inr other ↦ ground (arith, some_of_member p ks k)
]

some_of_found :
    (p : String → Bool) (ks : List String)
    → some_of p ks ≡ true
    → (k : String) × (contains ks k ≡ true) × (p k ≡ true)
unfolding contains
some_of_found p [] h = ground arith
some_of_found p (j ∷ ks) h = elim (Bool-cases (p j)) [
  | inl e ↦ (j, ground (arith, eq_refl j), e)
  | inr e ↦ let (k, c, f) = some_of_found p ks (ground arith) in (k, ground arith, f)
]

both_ways : (a b : Bool) → (a ≡ true → b ≡ true) → (b ≡ true → a ≡ true) → a ≡ b
both_ways true b f g = sym (f refl)
both_ways false true f g = g refl
both_ways false false f g = refl

some_of_set :
    (p : String → Bool) (ks js : List String)
    → ((k : String) → contains ks k ≡ contains js k)
    → some_of p ks ≡ some_of p js
some_of_set p ks js same =
    both_ways (some_of p ks) (some_of p js)
      (λ h. let (k, c, e) = some_of_found p ks h in some_of_member p js k (sym (same k) ∙ c) e)
      (λ h. let (k, c, e) = some_of_found p js h in some_of_member p ks k (same k ∙ c) e)

abbrev knows : RoomRecord → String → Bool
knows r k = is_some (get r.groups_accesses k)

abbrev group_allows : RoomRecord → String → String → Bool
group_allows r action k = elim (get r.groups_accesses k) [
  | none ↦ false
  | some permissions ↦ permissions_allow permissions action
]

permissions_allow-append :
    (ps qs : List String) (action : String)
    → permissions_allow (ps ++ qs) action
      ≡ (permissions_allow ps action || permissions_allow qs action)
unfolding permissions_allow
permissions_allow-append [] qs action = refl
permissions_allow-append (p ∷ ps) qs action = ground (arith, permissions_allow-append ps qs action)

abbrev allowed_by : Option (List String) → String → Bool
allowed_by none action = false
allowed_by (some permissions) action = permissions_allow permissions action

-- Whether some group is known, and whether a group that is known allows the action.
group_permissions_lem :
    (r : RoomRecord) (ids : List String) (action : String)
    → (is_some (group_permissions r ids) ≡ some_of (knows r) ids)
      × (allowed_by (group_permissions r ids) action ≡ some_of (group_allows r action) ids)
unfolding group_permissions
group_permissions_lem r [] action = (refl, refl)
group_permissions_lem r (k ∷ ids) action =
    let (e, f) = group_permissions_lem r ids action in
    go (get r.groups_accesses k) (group_permissions r ids) e f
  where
    go :
        (u o : Option (List String)) {a b : Bool}
        → is_some o ≡ a
        → allowed_by o action ≡ b
        → (is_some (elim u [
          | none ↦ o
          | some permissions ↦ elim o [
            | none ↦ some permissions
            | some others ↦ some (permissions ++ others)
          ]
        ])
            ≡ (is_some u || a))
          × (allowed_by
                (elim u [
                  | none ↦ o
                  | some permissions ↦ elim o [
                    | none ↦ some permissions
                    | some others ↦ some (permissions ++ others)
                  ]
                ])
                action
              ≡ (elim u [ none ↦ false | some permissions ↦ permissions_allow permissions action ]
                  || b))
    go none o e f = (e, f)
    go (some ps) none e f = ground arith
    go (some ps) (some qs) e f = ground (arith, permissions_allow-append ps qs action)

-- The decision of the groups, as a decision on each group.
group_decision :
    (r : RoomRecord) (ids : List String) (action : String)
    → elim (group_permissions r ids) [
      | some permissions ↦ permissions_allow permissions action
      | none ↦ permissions_allow r.default_accesses action
    ]
      ≡ (if some_of (knows r) ids
          then some_of (group_allows r action) ids
          else permissions_allow r.default_accesses action)
group_decision r ids action =
    let (e, f) = group_permissions_lem r ids action in go (group_permissions r ids) e f
  where
    go :
        (o : Option (List String)) {a b : Bool}
        → is_some o ≡ a
        → allowed_by o action ≡ b
        → elim o [
          | some permissions ↦ permissions_allow permissions action
          | none ↦ permissions_allow r.default_accesses action
        ]
          ≡ (if a then b else permissions_allow r.default_accesses action)
    go none e f = ground arith
    go (some ps) e f = ground arith

-- The order of the groups and how often one stands in the list decide nothing.
pub record_allows-set :
    (r : RoomRecord) (subject : String) (ks js : List String) (action : String)
    → ((k : String) → contains ks k ≡ contains js k)
    → record_allows r subject ks action ≡ record_allows r subject js action
unfolding record_allows
record_allows-set r subject ks js action same = go (user_permissions r subject)
  where
    go :
        (u : Option (List String))
        → elim u [
          | some permissions ↦ permissions_allow permissions action
          | none ↦ elim (group_permissions r ks) [
            | some permissions ↦ permissions_allow permissions action
            | none ↦ permissions_allow r.default_accesses action
          ]
        ]
          ≡ elim u [
            | some permissions ↦ permissions_allow permissions action
            | none ↦ elim (group_permissions r js) [
              | some permissions ↦ permissions_allow permissions action
              | none ↦ permissions_allow r.default_accesses action
            ]
          ]
    go (some ps) = refl
    go none =
        group_decision r ks action
        ∙ (ap
              (λ (b : Bool).
                if b
                then some_of (group_allows r action) ks
                else permissions_allow r.default_accesses action)
              (some_of_set (knows r) ks js same)
            ∙ (ap
                  (λ (b : Bool).
                    if some_of (knows r) js then b else permissions_allow r.default_accesses action)
                  (some_of_set (group_allows r action) ks js same)
                ∙ sym (group_decision r js action)))

contains-unseen_groups :
    (seen ids : List String) (k : String)
    → contains (unseen_groups seen ids) k
      ≡ (contains ids k && (not (k == "") && not (contains seen k)))
unfolding unseen_groups contains
contains-unseen_groups seen [] k = refl
contains-unseen_groups seen (j ∷ ids) k = elim (Bool-cases (j == k)) [
  | inl same ↦ rw ((eq_iff j k).0 same) (elim (Bool-cases (k == "" || contains seen k)) [
    | inl t ↦ rw t (ground (arith, contains-unseen_groups seen ids k))
    | inr t ↦ rw t (ground (arith, eq_refl k))
  ])
  | inr other ↦ elim (Bool-cases (j == "" || contains seen j)) [
    | inl t ↦ rw t (ground (arith, contains-unseen_groups seen ids k))
    | inr t ↦ rw t (ground (arith, contains-unseen_groups (j ∷ seen) ids k))
  ]
]

unseen_groups-Distinct : (seen ids : List String) → Distinct (unseen_groups seen ids)
unfolding unseen_groups
unseen_groups-Distinct seen [] = tt
unseen_groups-Distinct seen (j ∷ ids) = elim (Bool-cases (j == "" || contains seen j)) [
  | inl t ↦ rw t (unseen_groups-Distinct seen ids)
  | inr t ↦
      rw t (contains-unseen_groups (j ∷ seen) ids j ∙ self j, unseen_groups-Distinct (j ∷ seen) ids)
]
  where
    self : (j : String) → (contains ids j && (not (j == "") && not (contains (j ∷ seen) j))) ≡ false
    self j = ground (arith, eq_refl j)

-- The groups of a token are those of its two lists that are not empty, each once.
pub room_group_ids_lem :
    (c : Claims) (k : String)
    → (contains (room_group_ids c) k
        ≡ (not (k == "") && (contains c.group_ids k || contains c.groups k)))
      × Distinct (room_group_ids c)
unfolding room_group_ids contains
room_group_ids_lem c k = (
  ground (
    arith,
    contains-unseen_groups [] (c.group_ids ++ c.groups) k,
    contains-append c.group_ids c.groups k,
  ),
  unseen_groups-Distinct [] (c.group_ids ++ c.groups),
)

-- Two tokens with the same subject whose two lists of groups together have the same names, the empty one
-- aside, get the same decision from every room's record.
pub store_allows-groups :
    (c d : Claims) (store : Option RoomGetter) (action room : String)
    → c.subject ≡ d.subject
    → ((k : String)
        → k ≢ ""
        → (contains c.group_ids k || contains c.groups k)
          ≡ (contains d.group_ids k || contains d.groups k))
    → store_allows c store action room ≡ store_allows d store action room
unfolding store_allows
store_allows-groups c d none action room s same = refl
store_allows-groups c d (some get_room) action room s same = go (get_room room)
  where
    groups_same : (k : String) → contains (room_group_ids c) k ≡ contains (room_group_ids d) k
    groups_same k = elim (Bool-cases (k == "")) [
      | inl e ↦ ground (arith, (room_group_ids_lem c k).0, (room_group_ids_lem d k).0)
      | inr e ↦
          (ground (
            arith,
            (room_group_ids_lem c k).0,
            (room_group_ids_lem d k).0,
            same k (λ p. ground (arith, eq_refl "", ap (λ (t : String). t == "") p)),
          ))
    ]

    go :
        (o : Option RoomRecord)
        → elim o [ none ↦ false | some r ↦ record_allows r c.subject (room_group_ids c) action ]
          ≡ elim o [ none ↦ false | some r ↦ record_allows r d.subject (room_group_ids d) action ]
    go none = refl
    go (some r) =
        ap (λ (t : String). record_allows r t (room_group_ids c) action) s
        ∙ record_allows-set r d.subject (room_group_ids c) (room_group_ids d) action groups_same
