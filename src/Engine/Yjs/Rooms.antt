-- ===== src/Engine/Yjs/Rooms.antt =====
-- YJS connections: each is in the room of its session and in no other, and rooms respect the limit.
use open_rtc.Base.{
  ℕ, suc, ◌≤◌, String, ◌≡◌, refl, true, false, ◌&&◌, not, Option, none, some, arith, ◌==◌, eq_iff,
  eq_refl, ℤ, pos, Option-cases, Bool-cases, inl, inr, ◌⊎◌,
}
use open_rtc.Dict.{get, get-put, get-remove, size, put}
use open_rtc.Dict.Nested.{
  IsNested, IsTidy, at, remove_in, has_in, get_in-put_in, get_in-remove_in, put_in-IsNested,
  put_in-IsTidy, remove_in-IsNested, remove_in-IsTidy, size-at-put_in, size-at-remove_in-le,
}
use open_rtc.Errors.{ok, err, yjs_room_capacity_exceeded}
use open_rtc.Engine.{Engine, YjsSessionInfo, reached}
use open_rtc.Engine.Invariant.{IsYjsConsistent, in_room}
use open_rtc.Engine.Yjs.{
  register_yjs_session_with_limit, unregister_yjs_conn, leave_other_yjs_room, enter_yjs_room,
  unregister_from, forget_yjs_session, same_room, remove_yjs_conn_locked,
}
use open_rtc.Engine.Membership.Join.{reached-suc, AtLimit, reached-AtLimit}

-- The connection `c` is in no room, and every other one is where its session says.
record IsOut (e : Engine) (c : String) : Type 0 where
  yjs_nested : IsNested e.yjs_rooms
  yjs_tidy : IsTidy e.yjs_rooms
  outside : (r : String) → has_in e.yjs_rooms r c ≡ false
  others :
      (x r : String) → (c == x) ≡ false → has_in e.yjs_rooms r x ≡ in_room (get e.yjs_sessions x) r

remove-IsOut :
    (e : Engine) (c room : String)
    → IsYjsConsistent e
    → ((r : String) → in_room (get e.yjs_sessions c) r ≡ true → room ≡ r)
    → IsOut (remove_yjs_conn_locked e c room) c
unfolding remove_yjs_conn_locked
remove-IsOut e c room h only = record {
  yjs_nested = remove_in-IsNested e.yjs_rooms room c h.yjs_nested;
  yjs_tidy = remove_in-IsTidy e.yjs_rooms room c h.yjs_tidy;
  outside = λ r. ground (
    arith,
    get_in-remove_in e.yjs_rooms room c r c,
    h.in_session_room c r,
    only r,
    eq_refl c,
    eq_iff room r,
  );
  others = λ x r apart.
      ground (arith, get_in-remove_in e.yjs_rooms room c r x, h.in_session_room x r, apart);
}

remove_again-IsOut :
    (e : Engine) (c room : String) → IsOut e c → IsOut (remove_yjs_conn_locked e c room) c
unfolding remove_yjs_conn_locked
remove_again-IsOut e c room h = record {
  yjs_nested = remove_in-IsNested e.yjs_rooms room c h.yjs_nested;
  yjs_tidy = remove_in-IsTidy e.yjs_rooms room c h.yjs_tidy;
  outside = λ r. ground (arith, get_in-remove_in e.yjs_rooms room c r c, h.outside r);
  others = λ x r apart. ground (arith, get_in-remove_in e.yjs_rooms room c r x, h.others x r apart);
}

stay-IsOut : (e : Engine) (c : String) → IsYjsConsistent e → get e.yjs_sessions c ≡ none → IsOut e c
stay-IsOut e c h absent = record {
  yjs_nested = h.yjs_nested;
  yjs_tidy = h.yjs_tidy;
  outside = λ r. ground (arith, h.in_session_room c r, absent);
  others = λ x r apart. h.in_session_room x r;
}

leave_other-IsOut :
    (e : Engine) (info : YjsSessionInfo)
    → IsYjsConsistent e
    → same_room (get e.yjs_sessions info.conn_id) info.room ≡ false
    → IsOut (leave_other_yjs_room e (get e.yjs_sessions info.conn_id) info) info.conn_id
leave_other-IsOut e info h other = elim (Option-cases (get e.yjs_sessions info.conn_id)) [
  | inl absent ↦ rw absent (unfold leave_other_yjs_room in stay-IsOut e info.conn_id h absent)
  | inr (s, present) ↦
      let out =
        remove-IsOut e info.conn_id s.room h
          (λ r at_room. ground (arith, present, at_room, eq_iff s.room r)) in
      rw present (unfold leave_other_yjs_room in ground (arith, out, other, present))
]

enter-IsYjsConsistent :
    (e : Engine) (info : YjsSessionInfo)
    → IsOut e info.conn_id
    → IsYjsConsistent (enter_yjs_room e info)
unfolding enter_yjs_room
enter-IsYjsConsistent e info h = record {
  yjs_nested = put_in-IsNested e.yjs_rooms info.room info.conn_id tt h.yjs_nested;
  yjs_tidy = put_in-IsTidy e.yjs_rooms info.room info.conn_id tt h.yjs_tidy;
  in_session_room = λ c r. ground (
    arith,
    get_in-put_in e.yjs_rooms info.room info.conn_id tt r c,
    get-put e.yjs_sessions info.conn_id c info,
    h.outside r,
    h.others c r,
    eq_iff info.conn_id c,
  );
}

renew-IsYjsConsistent :
    (e : Engine) (info : YjsSessionInfo)
    → same_room (get e.yjs_sessions info.conn_id) info.room ≡ true
    → IsYjsConsistent e
    → IsYjsConsistent (record e { yjs_sessions = put e.yjs_sessions info.conn_id info })
renew-IsYjsConsistent e info same h = record {
  yjs_nested = h.yjs_nested;
  yjs_tidy = h.yjs_tidy;
  in_session_room = λ c r. elim (Option-cases (get e.yjs_sessions info.conn_id)) [
    | inl absent ↦ ground (arith, same, absent)
    | inr (s, present) ↦ ground (
      arith,
      get-put e.yjs_sessions info.conn_id c info,
      h.in_session_room c r,
      h.in_session_room info.conn_id r,
      same,
      present,
      eq_iff info.conn_id c,
      eq_iff s.room info.room,
    )
  ];
}

-- Registering a YJS connection keeps every connection in the room of its session only, accepted or
-- refused, and also where the connection was in another room before.
pub register-IsYjsConsistent :
    (e : Engine) (info : YjsSessionInfo) (limit : ℤ)
    → IsYjsConsistent e
    → IsYjsConsistent (register_yjs_session_with_limit e info limit).0
unfolding register_yjs_session_with_limit
register-IsYjsConsistent e info limit h =
    let moved = leave_other_yjs_room e (get e.yjs_sessions info.conn_id) info in
    ground (
      arith,
      renew-IsYjsConsistent e info,
      enter-IsYjsConsistent moved info,
      leave_other-IsOut e info h,
    )

forget-IsYjsConsistent :
    (e : Engine) (c : String) → IsOut e c → IsYjsConsistent (forget_yjs_session e c)
unfolding forget_yjs_session
forget-IsYjsConsistent e c h = record {
  yjs_nested = h.yjs_nested;
  yjs_tidy = h.yjs_tidy;
  in_session_room =
      λ x r. ground (arith, get-remove e.yjs_sessions c x, h.outside r, h.others x r, eq_iff c x);
}

unregister_from-IsOut :
    (e : Engine) (c room : String)
    → IsYjsConsistent e
    → IsOut (unregister_from e (get e.yjs_sessions c) c room) c
unregister_from-IsOut e c room h = elim (Option-cases (get e.yjs_sessions c)) [
  | inl absent ↦
      rw absent (unfold unregister_from in remove_again-IsOut e c room (stay-IsOut e c h absent))
  | inr (s, present) ↦
      let out =
        remove-IsOut e c s.room h
          (λ r at_room. ground (arith, present, at_room, eq_iff s.room r)) in
      rw present (
        unfold unregister_from in
        ground (
          arith,
          out,
          remove_again-IsOut (remove_yjs_conn_locked e c s.room) c room out,
          eq_iff s.room room,
          eq_refl s.room,
        ))
]

-- Unregistering a YJS connection, under whatever room the caller names, keeps every connection in
-- the room of its session only.
pub unregister-IsYjsConsistent :
    (e : Engine) (c room : String)
    → IsYjsConsistent e
    → IsYjsConsistent (unregister_yjs_conn e c room)
unfolding unregister_yjs_conn
unregister-IsYjsConsistent e c room h =
    forget-IsYjsConsistent (unregister_from e (get e.yjs_sessions c) c room) c
      (unregister_from-IsOut e c room h)

sessions-unregister_from :
    (e : Engine) (o : Option YjsSessionInfo) (c room : String)
    → (unregister_from e o c room).yjs_sessions ≡ e.yjs_sessions
unfolding unregister_from
sessions-unregister_from e none c room = refl
sessions-unregister_from e (some s) c room = ground arith

-- In a consistent engine, a YJS connection that is unregistered, under whatever room the caller
-- names, has no session and is in no room, and the others are where they were.
pub unregister-removes :
    (e : Engine) (c room : String)
    → IsYjsConsistent e
    → let f = unregister_yjs_conn e c room in
      (get f.yjs_sessions c ≡ none)
      × ((x r : String) → has_in f.yjs_rooms r x ≡ (not (c == x) && has_in e.yjs_rooms r x))
unfolding unregister_yjs_conn forget_yjs_session
unregister-removes e c room h = (
  ground (
    arith,
    get-remove (unregister_from e (get e.yjs_sessions c) c room).yjs_sessions c c,
    eq_refl c,
  ),
  λ x r.
      let out = unregister_from-IsOut e c room h in
      ground (
        arith,
        out.outside r,
        out.others x r,
        h.in_session_room x r,
        sessions-unregister_from e (get e.yjs_sessions c) c room,
        eq_iff c x,
      ),
)

-- In a consistent engine, a registration of a YJS connection with a name in a room with a name
-- either succeeds and puts the connection in that room and in no other, or is refused; one that is
-- refused changes nothing, and is refused only at a full room, which the connection is not in.
pub register_outcome :
    (e : Engine) (info : YjsSessionInfo) (limit : ℤ)
    → IsYjsConsistent e
    → (info.conn_id == "") ≡ false
    → (info.room == "") ≡ false
    → let outcome = register_yjs_session_with_limit e info limit in
      ((outcome.1 ≡ ok tt)
        × ((r : String) → has_in outcome.0.yjs_rooms r info.conn_id ≡ (info.room == r)))
      ⊎ ((outcome.1 ≡ err yjs_room_capacity_exceeded)
          × (outcome.0 ≡ e)
          × (has_in e.yjs_rooms info.room info.conn_id ≡ false)
          × AtLimit limit (size (at e.yjs_rooms info.room)))
unfolding register_yjs_session_with_limit
register_outcome e info limit h named roomed =
    let after = register-IsYjsConsistent e info limit h in
    let left = leave_other_yjs_room e (get e.yjs_sessions info.conn_id) info in
    elim (Bool-cases (same_room (get e.yjs_sessions info.conn_id) info.room)) [
      | inl renewed ↦ inl (
        ground (arith, named, roomed, renewed),
        λ r. ground (
          arith,
          after.in_session_room info.conn_id r,
          get-put e.yjs_sessions info.conn_id info.conn_id info,
          eq_refl info.conn_id,
          named,
          roomed,
          renewed,
        ),
      )
      | inr moved ↦ elim (Bool-cases (reached limit (size (at e.yjs_rooms info.room)))) [
        | inl full ↦ inr (
          ground (arith, named, roomed, moved, full),
          ground (arith, named, roomed, moved, full),
          ground (arith, h.in_session_room info.conn_id info.room, moved),
          reached-AtLimit limit _ full,
        )
        | inr room_left ↦ inl (
          ground (arith, named, roomed, moved, room_left),
          λ r. ground (
            arith,
            after.in_session_room info.conn_id r,
            get-put left.yjs_sessions info.conn_id info.conn_id info,
            eq_refl info.conn_id,
            named,
            roomed,
            moved,
            room_left,
          ),
        )
      ]
    ]

abbrev pub YjsRoomsWithin : ℕ → Engine → Type 0
YjsRoomsWithin n e = (r : String) → size (at e.yjs_rooms r) ≤ n

leave_other-size-le :
    (e : Engine) (o : Option YjsSessionInfo) (info : YjsSessionInfo) (r : String)
    → size (at (leave_other_yjs_room e o info).yjs_rooms r) ≤ size (at e.yjs_rooms r)
unfolding leave_other_yjs_room remove_yjs_conn_locked
leave_other-size-le e none info r = omega arith
leave_other-size-le e (some s) info r =
    ground (arith, size-at-remove_in-le e.yjs_rooms s.room info.conn_id r)

-- With a positive limit no registration of a YJS connection makes a room pass it.
pub register-YjsRoomsWithin :
    (e : Engine) (info : YjsSessionInfo) (n : ℕ)
    → YjsRoomsWithin (suc n) e
    → YjsRoomsWithin (suc n) (register_yjs_session_with_limit e info (pos (suc n))).0
unfolding register_yjs_session_with_limit enter_yjs_room
register-YjsRoomsWithin e info n within = λ r.
    let o = get e.yjs_sessions info.conn_id in
    let moved = leave_other_yjs_room e o info in
    ground (
      arith,
      within r,
      within info.room,
      reached-suc n (size (at e.yjs_rooms info.room)),
      size-at-put_in moved.yjs_rooms info.room info.conn_id tt r,
      leave_other-size-le e o info r,
      leave_other-size-le e o info info.room,
    )

unregister_from-size-le :
    (e : Engine) (o : Option YjsSessionInfo) (c room r : String)
    → size (at (unregister_from e o c room).yjs_rooms r) ≤ size (at e.yjs_rooms r)
unfolding unregister_from remove_yjs_conn_locked
unregister_from-size-le e none c room r = size-at-remove_in-le e.yjs_rooms room c r
unregister_from-size-le e (some s) c room r = elim (Bool-cases (room == "")) [
  | inl unnamed ↦
      rw unnamed (ground (arith, eq_refl s.room, size-at-remove_in-le e.yjs_rooms s.room c r))
  | inr named ↦ rw named (
      ground (
        arith,
        eq_iff s.room room,
        size-at-remove_in-le e.yjs_rooms s.room c r,
        size-at-remove_in-le (remove_in e.yjs_rooms s.room c) room c r,
      ))
]

pub unregister-YjsRoomsWithin :
    (e : Engine) (c room : String) (n : ℕ)
    → YjsRoomsWithin n e
    → YjsRoomsWithin n (unregister_yjs_conn e c room)
unfolding unregister_yjs_conn forget_yjs_session
unregister-YjsRoomsWithin e c room n within =
    λ r. omega (arith, within r, unregister_from-size-le e (get e.yjs_sessions c) c room r)
