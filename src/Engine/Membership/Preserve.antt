-- ===== src/Engine/Membership/Preserve.antt =====
-- Joining, leaving and disconnecting keep the engine consistent.
use open_rtc.Base.{
  String, ◌≡◌, refl, Bool, true, ◌&&◌, none, some, List, [], ◌∷◌, arith, ◌==◌, eq_iff,
  if◌then◌else◌, inl, inr, Option-cases, contains, contains-sort_strings,
}
use open_rtc.Dict.{keys, contains-keys}
use open_rtc.Dict.Nested.{
  at, has_in, get_in, ensure, get_in-put_in, get_in-remove_in, get_in-ensure, put_in-IsNested,
  put_in-IsTidy, remove_in-IsNested, remove_in-IsTidy, ensure-IsNested, IsNested, IsTidy,
  get_in-remove, remove-IsNested, remove-IsTidy,
}
use open_rtc.Engine.{Engine, MembershipMutation, remove_room_member_locked, remove_presence_locked}
use open_rtc.Engine.Invariant.{IsConsistent}
use open_rtc.Engine.Membership.{
  JoinLimits, LeavePlan, DisconnectPlan, join_with_limits, join_checked, enter, exit,
  apply_leave_plan, apply_leave_mutation, drop_rooms, forget, apply_disconnect_plan,
  new_disconnect_plan, disconnect_session,
}

ensure-IsConsistent :
    (e : Engine) (c : String)
    → IsConsistent e
    → IsConsistent (record e { conn_rooms = ensure e.conn_rooms c })
ensure-IsConsistent e c h = record {
  rooms_nested = h.rooms_nested;
  rooms_tidy = h.rooms_tidy;
  conn_rooms_nested = ensure-IsNested e.conn_rooms c h.conn_rooms_nested;
  indexed = λ x r. ground (arith, get_in-ensure e.conn_rooms c x r, h.indexed x r);
  presence_nested = h.presence_nested;
  presence_tidy = h.presence_tidy;
  acks_nested = h.acks_nested;
  acks_tidy = h.acks_tidy;
  acked = λ x r a. ground (arith, get_in-ensure e.conn_rooms c x r, h.acked x r a);
}

enter-IsConsistent : (e : Engine) (c r : String) → IsConsistent e → IsConsistent (enter e c r)
unfolding enter
enter-IsConsistent e c r h = record {
  rooms_nested = put_in-IsNested e.rooms r c tt h.rooms_nested;
  rooms_tidy = put_in-IsTidy e.rooms r c tt h.rooms_tidy;
  conn_rooms_nested = put_in-IsNested e.conn_rooms c r tt h.conn_rooms_nested;
  indexed = λ x y. ground (
    arith,
    get_in-put_in e.rooms r c tt y x,
    get_in-put_in e.conn_rooms c r tt x y,
    h.indexed x y,
  );
  presence_nested = h.presence_nested;
  presence_tidy = h.presence_tidy;
  acks_nested = h.acks_nested;
  acks_tidy = h.acks_tidy;
  acked = λ x y a. ground (arith, get_in-put_in e.conn_rooms c r tt x y, h.acked x y a);
}

exit-IsConsistent : (e : Engine) (c r : String) → IsConsistent e → IsConsistent (exit e c r)
unfolding exit
exit-IsConsistent e c r h = record {
  rooms_nested = remove_in-IsNested e.rooms r c h.rooms_nested;
  rooms_tidy = remove_in-IsTidy e.rooms r c h.rooms_tidy;
  conn_rooms_nested = remove_in-IsNested e.conn_rooms c r h.conn_rooms_nested;
  indexed = λ x y. ground (
    arith,
    get_in-remove_in e.rooms r c y x,
    get_in-remove_in e.conn_rooms c r x y,
    h.indexed x y,
  );
  presence_nested = remove_in-IsNested e.presence r c h.presence_nested;
  presence_tidy = remove_in-IsTidy e.presence r c h.presence_tidy;
  acks_nested = remove_in-IsNested e.event_acks c r h.acks_nested;
  acks_tidy = remove_in-IsTidy e.event_acks c r h.acks_tidy;
  acked = λ x y a. ground (
    arith,
    get_in-remove_in e.event_acks c r x y,
    get_in-remove_in e.conn_rooms c r x y,
    h.acked x y,
  );
}

join_checked-IsConsistent :
    (e : Engine) (c r : String) (limits : JoinLimits)
    → IsConsistent e
    → IsConsistent (join_checked e c r limits).0
unfolding join_checked
join_checked-IsConsistent e c r limits h = ground (arith, enter-IsConsistent e c r h)

-- A join keeps the engine consistent, also one that is refused.
pub join_with_limits-IsConsistent :
    (e : Engine) (c r : String) (limits : JoinLimits)
    → IsConsistent e
    → IsConsistent (join_with_limits e c r limits).0
unfolding join_with_limits
join_with_limits-IsConsistent e c r limits h =
    join_checked-IsConsistent (record e { conn_rooms = ensure e.conn_rooms c }) c r limits
      (ensure-IsConsistent e c h)

apply_leave_mutation-IsConsistent :
    (e : Engine) (m : MembershipMutation) → IsConsistent e → IsConsistent (apply_leave_mutation e m)
unfolding apply_leave_mutation
apply_leave_mutation-IsConsistent e m h = ground (arith, exit-IsConsistent e m.conn_id m.room h)

-- Applying any leave plan, also one made in another state, keeps the engine consistent.
pub apply_leave_plan-IsConsistent :
    (e : Engine) (plan : LeavePlan) → IsConsistent e → IsConsistent (apply_leave_plan e plan).0
unfolding apply_leave_plan
apply_leave_plan-IsConsistent e plan h = elim (Option-cases plan.membership_mutation) [
  | inl none_planned ↦ rw (none_planned, apply_leave_plan) h
  | inr (m, planned) ↦
      rw (planned, apply_leave_plan) (ground (arith, apply_leave_mutation-IsConsistent e m h))
]

-- What the loop of a disconnect leaves behind.
pub record Dropped (e : Engine) (c : String) (rs : List String) (f : Engine) : Type 0 where
  pub rooms_kept :
      (r x : String)
      → get_in f.rooms r x ≡ (if c == x && contains rs r then none else get_in e.rooms r x)
  pub presence_kept :
      (r x : String)
      → get_in f.presence r x ≡ (if c == x && contains rs r then none else get_in e.presence r x)
  pub conn_rooms_same : f.conn_rooms ≡ e.conn_rooms
  pub acks_same : f.event_acks ≡ e.event_acks
  pub sessions_same : f.sessions ≡ e.sessions
  pub rooms_nested : IsNested e.rooms → IsNested f.rooms
  pub rooms_tidy : IsTidy e.rooms → IsTidy f.rooms
  pub presence_nested : IsNested e.presence → IsNested f.presence
  pub presence_tidy : IsTidy e.presence → IsTidy f.presence

pub drop_rooms-Dropped :
    (e : Engine) (c : String) (rs : List String) → Dropped e c rs (drop_rooms e c rs)
unfolding drop_rooms contains
drop_rooms-Dropped e c [] = record {
  rooms_kept = λ r x. ground arith;
  presence_kept = λ r x. ground arith;
  conn_rooms_same = refl;
  acks_same = refl;
  sessions_same = refl;
  rooms_nested = λ h. h;
  rooms_tidy = λ h. h;
  presence_nested = λ h. h;
  presence_tidy = λ h. h;
}
drop_rooms-Dropped e c (room ∷ rs) =
    let rest =
      drop_rooms-Dropped (remove_presence_locked (remove_room_member_locked e c room) c room) c
        rs in
    record {
      rooms_kept = λ r x. ground (arith, rest.rooms_kept r x, get_in-remove_in e.rooms room c r x);
      presence_kept =
          λ r x. ground (arith, rest.presence_kept r x, get_in-remove_in e.presence room c r x);
      conn_rooms_same = rest.conn_rooms_same;
      acks_same = rest.acks_same;
      sessions_same = rest.sessions_same;
      rooms_nested = λ h. rest.rooms_nested (remove_in-IsNested e.rooms room c h);
      rooms_tidy = λ h. rest.rooms_tidy (remove_in-IsTidy e.rooms room c h);
      presence_nested = λ h. rest.presence_nested (remove_in-IsNested e.presence room c h);
      presence_tidy = λ h. rest.presence_tidy (remove_in-IsTidy e.presence room c h);
    }

-- The rooms listed are all that the connection is in.
abbrev pub Covers : Engine → String → List String → Type 0
Covers e c rs = (r : String) → has_in e.conn_rooms c r ≡ true → contains rs r ≡ true

forget_rooms-IsConsistent :
    (e f : Engine) (c : String) (rs : List String)
    → Dropped e c rs f
    → Covers e c rs
    → IsConsistent e
    → IsConsistent (forget f c)
unfolding forget
forget_rooms-IsConsistent e f c rs d covers h = record {
  rooms_nested = d.rooms_nested h.rooms_nested;
  rooms_tidy = d.rooms_tidy h.rooms_tidy;
  conn_rooms_nested = remove-IsNested f.conn_rooms c (rw d.conn_rooms_same h.conn_rooms_nested);
  indexed = λ x r. ground (
    arith,
    d.rooms_kept r x,
    get_in-remove f.conn_rooms c x r,
    d.conn_rooms_same,
    h.indexed x r,
    covers r,
    eq_iff c x,
  );
  presence_nested = d.presence_nested h.presence_nested;
  presence_tidy = d.presence_tidy h.presence_tidy;
  acks_nested = remove-IsNested f.event_acks c (rw d.acks_same h.acks_nested);
  acks_tidy = remove-IsTidy f.event_acks c (rw d.acks_same h.acks_tidy);
  acked = λ x r a. ground (
    arith,
    get_in-remove f.event_acks c x r,
    get_in-remove f.conn_rooms c x r,
    d.conn_rooms_same,
    d.acks_same,
    h.acked x r,
  );
}

-- Applying a disconnect plan keeps the engine consistent if it lists every room that its connection
-- is in.
pub apply_disconnect_plan-IsConsistent :
    (e : Engine) (plan : DisconnectPlan) (c : String)
    → plan.cleanup ≡ some (record { conn_id = c })
    → Covers e c plan.rooms
    → IsConsistent e
    → IsConsistent (apply_disconnect_plan e plan).0
unfolding apply_disconnect_plan
apply_disconnect_plan-IsConsistent e plan c planned covers h =
    rw (planned, apply_disconnect_plan)
      (forget_rooms-IsConsistent e (drop_rooms e c plan.rooms) c plan.rooms
        (drop_rooms-Dropped e c plan.rooms) covers h)

-- A plan made in the same state does.
pub new_disconnect_plan-Covers :
    (e : Engine) (c origin : String) (fanouts : Bool)
    → Covers e c (new_disconnect_plan e c origin fanouts).rooms
unfolding new_disconnect_plan
new_disconnect_plan-Covers e c origin fanouts = λ r joined.
    ground (
      arith,
      contains-sort_strings (keys (at e.conn_rooms c)) r,
      contains-keys (at e.conn_rooms c) r,
    )

pub disconnect_session-IsConsistent :
    (e : Engine) (c origin : String)
    → IsConsistent e
    → IsConsistent (disconnect_session e c origin).0
unfolding disconnect_session
disconnect_session-IsConsistent e c origin h =
    apply_disconnect_plan-IsConsistent e (new_disconnect_plan e c origin true) c
      (unfold new_disconnect_plan in refl) (new_disconnect_plan-Covers e c origin true) h
