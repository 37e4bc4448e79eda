-- ===== src/Tests/Yjs.antt =====
-- Examples of YJS connections and documents: server/internal/roomengine/engine.go.
use open_rtc.Base.{
  ℕ, ◌+◌, ◌<◌, String, ◌≡◌, refl, false, ◌==◌, some, List, [], ◌∷◌, ◌++◌, ◌⊎◌, pos, arith, map,
  length,
}
use open_rtc.Cluster.{YjsEvent}
use open_rtc.Cluster.YjsEventKind
use open_rtc.Dict.{get, size}
use open_rtc.Dict.Nested.{at, has_in}
use open_rtc.Errors.{ok, err, yjs_room_capacity_exceeded}
use open_rtc.Engine.{Engine, YjsSessionInfo, new}
use open_rtc.Engine.Invariant.{IsYjsConsistent, new-IsYjsConsistent}
use open_rtc.Engine.Membership.Join.{AtLimit}
use open_rtc.Engine.Yjs.{register_yjs_session_with_limit, yjs_persistence_mode, append_update}
use open_rtc.Engine.Yjs.Rooms.{register-IsYjsConsistent, register_outcome, YjsRoomsWithin}
use open_rtc.Engine.Yjs.Documents.{
  yjs_doc, int64_end, store_yjs_event, load_yjs_document, new_yjs_document_frames,
}
use open_rtc.Engine.Yjs.Documents.History.{
  IsNumbered, AllAppend, store_all, frame_of, store-frames, load-store_all,
}

abbrev pub session : String → YjsSessionInfo
session room = record { conn_id = "ann"; subject = "alice"; tenant = "t"; room = room }

abbrev registered : Engine
registered = (register_yjs_session_with_limit new (session "r") (pos 1)).0

registered-IsYjsConsistent : IsYjsConsistent registered
registered-IsYjsConsistent = register-IsYjsConsistent new (session "r") (pos 1) new-IsYjsConsistent

register_outcome_example :
    let outcome = register_yjs_session_with_limit registered (session "s") (pos 1) in
    ((outcome.1 ≡ ok tt) × ((r : String) → has_in outcome.0.yjs_rooms r "ann" ≡ ("s" == r)))
    ⊎ ((outcome.1 ≡ err yjs_room_capacity_exceeded)
        × (outcome.0 ≡ registered)
        × (has_in registered.yjs_rooms "s" "ann" ≡ false)
        × AtLimit (pos 1) (size (at registered.yjs_rooms "s")))
register_outcome_example =
    register_outcome registered (session "s") (pos 1) registered-IsYjsConsistent refl refl

new-YjsRoomsWithin : YjsRoomsWithin 1 new
unfolding new at get open_rtc.Dict.empty size
new-YjsRoomsWithin r = omega arith

abbrev event : ℕ → YjsEvent
event kind = record {
  room = "r";
  kind = kind;
  update = 1 ∷ 2 ∷ [];
  sequence = pos 0;
  origin_node = "node";
  origin_conn_id = "ann";
}

update_appends : yjs_persistence_mode YjsEventKind.update ≡ some append_update
unfolding yjs_persistence_mode
update_appends = refl

subdoc_appends : yjs_persistence_mode YjsEventKind.subdoc_update ≡ some append_update
unfolding yjs_persistence_mode
subdoc_appends = refl

new-IsNumbered : IsNumbered (yjs_doc new "r")
unfolding new yjs_doc get open_rtc.Dict.empty
new-IsNumbered = record { sequences = refl; kinds = refl; next = refl }

room_left : length (yjs_doc new "r").updates + 1 < int64_end
unfolding new yjs_doc get open_rtc.Dict.empty
room_left = omega arith

store-frames_example :
    let f = (store_yjs_event new (event YjsEventKind.subdoc_update)).0 in
    new_yjs_document_frames (load_yjs_document f "r")
    ≡ new_yjs_document_frames (load_yjs_document new "r")
      ++ (frame_of (event YjsEventKind.subdoc_update) ∷ [])
store-frames_example =
    (store-frames new (event YjsEventKind.subdoc_update) subdoc_appends new-IsNumbered room_left).0

abbrev events : List YjsEvent
events = event YjsEventKind.update ∷ event YjsEventKind.subdoc_update ∷ []

events_append : AllAppend "r" events
events_append = ((refl, update_appends), ((refl, subdoc_appends), tt))

few : length events < int64_end
few = omega arith

load-store_all_example :
    new_yjs_document_frames (load_yjs_document (store_all new events) "r") ≡ map frame_of events
load-store_all_example = (load-store_all "r" events events_append few).0
