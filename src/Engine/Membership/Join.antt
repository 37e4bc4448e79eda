-- ===== src/Engine/Membership/Join.antt =====
-- What a join changes, and the limits that it respects.
use open_rtc.Base.{
  ℕ, zero, suc, ◌≤◌, String, ◌≡◌, refl, true, false, ◌&&◌, ◌||◌, none, some, arith, ◌==◌, eq_iff,
  eq_refl, ◌⊎◌, if◌then◌else◌, contains, contains-sort_strings, ℤ, pos, negsuc, leb, leb→le,
}
use open_rtc.Dict.{size, keys, contains-keys}
use open_rtc.Dict.Nested.{
  at, has_in, get_in-put_in, get_in-ensure, put_in, ensure, size-at-put_in, size-at-ensure,
}
use open_rtc.Errors.{ok, err, Error}
use open_rtc.Engine.{Engine, reached, snapshot_locked}
use open_rtc.Engine.Invariant.{IsConsistent}
use open_rtc.Engine.Membership.{
  JoinLimits, JoinResult, join_with_limits, enter, new_membership_mutation, mutation_join,
}

-- In a consistent engine, a join that succeeds puts the connection in the room and moves no other; it reports a mutation
-- exactly if the connection was not in the room before, and its snapshot lists the connection.
pub join-adds :
    (e : Engine) (c r : String) (limits : JoinLimits) (result : JoinResult)
    → IsConsistent e
    → (join_with_limits e c r limits).1 ≡ ok result
    → ((x s : String)
        → has_in (join_with_limits e c r limits).0.rooms s x
          ≡ ((r == s && c == x) || has_in e.rooms s x))
      × (result.already_joined ≡ has_in e.conn_rooms c r)
      × (result.membership_mutation ≡ (
          if has_in e.conn_rooms c r
          then none
          else some (new_membership_mutation mutation_join c r)))
      × (contains result.snapshot.members c ≡ true)
unfolding join_with_limits enter snapshot_locked
join-adds e c r limits result h done = (
  λ x s. ground (
    arith,
    get_in-put_in e.rooms r c tt s x,
    get_in-ensure e.conn_rooms c c r,
    h.indexed c r,
    eq_iff r s,
    eq_iff c x,
  ),
  ground (arith, get_in-ensure e.conn_rooms c c r),
  ground (arith, get_in-ensure e.conn_rooms c c r),
  ground (
    arith,
    get_in-ensure e.conn_rooms c c r,
    h.indexed c r,
    contains-sort_strings (keys (at e.rooms r)) c,
    contains-keys (at e.rooms r) c,
    contains-sort_strings (keys (at (put_in e.rooms r c tt) r)) c,
    contains-keys (at (put_in e.rooms r c tt) r) c,
    get_in-put_in e.rooms r c tt r c,
    eq_refl r,
    eq_refl c,
  ),
)

-- `n` has come up to a positive limit.
abbrev pub AtLimit : ℤ → ℕ → Type 0
AtLimit (pos zero) n = ⊥
AtLimit (pos (suc l)) n = suc l ≤ n
AtLimit (negsuc l) n = ⊥

pub reached-AtLimit : (limit : ℤ) (n : ℕ) → reached limit n ≡ true → AtLimit limit n
unfolding reached
reached-AtLimit (pos zero) n h = cc
reached-AtLimit (pos (suc l)) n h = leb→le (suc l) n h
reached-AtLimit (negsuc l) n h = cc

-- A refused join changes no membership, and is refused only at a full connection or a full room.
pub join-refused :
    (e : Engine) (c r : String) (limits : JoinLimits) (error : Error)
    → (join_with_limits e c r limits).1 ≡ err error
    → let f = (join_with_limits e c r limits).0 in
      ((x s : String)
        → (has_in f.rooms s x ≡ has_in e.rooms s x)
          × (has_in f.conn_rooms x s ≡ has_in e.conn_rooms x s))
      × (has_in e.conn_rooms c r ≡ false)
      × (AtLimit limits.rooms_per_connection (size (at e.conn_rooms c))
          ⊎ AtLimit limits.room_connections (size (at e.rooms r)))
unfolding join_with_limits
join-refused e c r limits error failed = (
  λ x s. (ground arith, ground (arith, get_in-ensure e.conn_rooms c x s)),
  ground (arith, get_in-ensure e.conn_rooms c c r),
  ground (
    arith,
    size-at-ensure e.conn_rooms c c,
    reached-AtLimit limits.rooms_per_connection (size (at e.conn_rooms c)),
    reached-AtLimit limits.room_connections (size (at e.rooms r)),
  ),
)

abbrev pub RoomsWithin : ℕ → Engine → Type 0
RoomsWithin n e = (r : String) → size (at e.rooms r) ≤ n

abbrev pub ConnectionsWithin : ℕ → Engine → Type 0
ConnectionsWithin n e = (c : String) → size (at e.conn_rooms c) ≤ n

pub reached-suc : (n m : ℕ) → reached (pos (suc n)) m ≡ leb (suc n) m
unfolding reached
reached-suc n m = refl

-- With a positive limit on the connections of a room, no join makes a room pass it.
pub join-RoomsWithin :
    (e : Engine) (c r : String) (limits : JoinLimits) (n : ℕ)
    → limits.room_connections ≡ pos (suc n)
    → RoomsWithin (suc n) e
    → RoomsWithin (suc n) (join_with_limits e c r limits).0
unfolding join_with_limits enter
join-RoomsWithin e c r limits n bound within = λ s. ground (
  arith,
  within s,
  within r,
  bound,
  reached-suc n (size (at e.rooms r)),
  size-at-put_in e.rooms r c tt s,
)

-- With a positive limit on the rooms of a connection, no join makes a connection pass it.
pub join-ConnectionsWithin :
    (e : Engine) (c r : String) (limits : JoinLimits) (n : ℕ)
    → limits.rooms_per_connection ≡ pos (suc n)
    → ConnectionsWithin (suc n) e
    → ConnectionsWithin (suc n) (join_with_limits e c r limits).0
unfolding join_with_limits enter
join-ConnectionsWithin e c r limits n bound within = λ x. ground (
  arith,
  within x,
  within c,
  bound,
  reached-suc n (size (at (ensure e.conn_rooms c) c)),
  size-at-put_in (ensure e.conn_rooms c) c r tt x,
  size-at-ensure e.conn_rooms c c,
  size-at-ensure e.conn_rooms c x,
)
