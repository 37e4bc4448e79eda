-- ===== src/Engine/Yjs/Documents/History.antt =====
-- The updates of a document: what is loaded after a series of events.
use open_rtc.Base.{
  ℤ, pos, ℕ, zero, suc, ◌+◌, ◌<◌, String, ◌≡◌, ◌≢◌, refl, sym, ap, ◌∙◌, some, List, [], ◌∷◌, ◌++◌,
  map, arith, ◌==◌, eq_iff, eq_refl, if◌then◌else◌, length, length-append,
}
use mathlib.Core.Path.{ap₂}
use mathlib.Core.List.{append_assoc, append-nil}
use open_rtc.Cluster.{Bytes, YjsEvent}
use open_rtc.Cluster.YjsEventKind
use open_rtc.Dict.{get, put, empty, get-put}
use open_rtc.Errors.{ok}
use open_rtc.Engine.{Engine, MemoryYjsDocument, copy, new}
use open_rtc.Engine.Yjs.{append_update, store_snapshot, yjs_persistence_mode}
use open_rtc.Engine.Yjs.Documents.{
  YjsFrame, yjs_doc, int64_end, next_int64, append_to, write_snapshot, next_sequence,
  store_yjs_event, load_yjs_document, load_from, new_yjs_document_frames, kind_frames,
  snapshot_frames, empty_yjs_document,
}

-- The numbers n + 1, ..., n + k.
abbrev pub counted : ℕ → ℕ → List ℤ
counted n zero = []
counted n (suc k) = pos (n + 1) ∷ counted (n + 1) k

counted-snoc : (n k : ℕ) → counted n k ++ (pos (n + k + 1) ∷ []) ≡ counted n (suc k)
counted-snoc n zero = ap (λ (m : ℕ). pos m ∷ []) (omega arith)
counted-snoc n (suc k) =
    ap (◌∷◌ (pos (n + 1)))
      (ap (λ (m : ℕ). counted (n + 1) k ++ (pos m ∷ [])) (omega arith) ∙ counted-snoc (n + 1) k)

-- The updates of a document carry the sequences 1, 2, ... in order, and a kind each.
pub record IsNumbered (doc : MemoryYjsDocument) : Type 0 where
  pub sequences : doc.update_sequences ≡ counted 0 (length doc.updates)
  pub kinds : length doc.update_kinds ≡ length doc.updates
  pub next : doc.next_sequence ≡ pos (length doc.updates)

length_snoc {ℓ} : {A : Type ℓ} (xs : List A) (x : A) → length (xs ++ (x ∷ [])) ≡ suc (length xs)
length_snoc xs x = omega (arith, length-append xs (x ∷ []))

-- The next sequence, before the counter wraps.
numbered :
    (doc : MemoryYjsDocument)
    → length doc.updates + 1 < int64_end
    → IsNumbered doc
    → next_sequence doc ≡ pos (0 + length doc.updates + 1)
unfolding next_sequence next_int64
numbered doc room h = rw h.next (ground arith)

append_to-IsNumbered :
    (doc : MemoryYjsDocument) (event : YjsEvent)
    → length doc.updates + 1 < int64_end
    → IsNumbered doc
    → IsNumbered (append_to doc event)
unfolding append_to
append_to-IsNumbered doc event room h = record {
  sequences =
      ap₂ (λ (xs : List ℤ) (n : ℤ). xs ++ (n ∷ [])) h.sequences (numbered doc room h)
      ∙ counted-snoc 0 (length doc.updates)
      ∙ ap (counted 0) (sym (length_snoc doc.updates event.update));
  kinds = omega (
    arith,
    h.kinds,
    length-append doc.update_kinds (event.kind ∷ []),
    length-append doc.updates (event.update ∷ []),
  );
  next = numbered doc room h ∙ ap pos (omega (arith, length_snoc doc.updates event.update));
}

map-copy : (us : List Bytes) → map copy us ≡ us
map-copy [] = refl
map-copy (u ∷ us) = ap (◌∷◌ u) (map-copy us)

abbrev pub frame_of : YjsEvent → YjsFrame
frame_of event = record { kind = event.kind; update = event.update }

-- The frames that a new client of a document gets.
abbrev pub frames : MemoryYjsDocument → List YjsFrame
frames doc = new_yjs_document_frames (load_from (some doc))

kind_frames-snoc :
    (ks : List ℕ) (us : List Bytes) (k : ℕ) (u : Bytes)
    → length ks ≡ length us
    → kind_frames (ks ++ (k ∷ [])) (us ++ (u ∷ []))
      ≡ kind_frames ks us ++ (record { kind = k; update = u } ∷ [])
unfolding kind_frames
kind_frames-snoc [] [] k u h = refl
kind_frames-snoc [] (v ∷ us) k u h = absurd (omega arith)
kind_frames-snoc (j ∷ ks) [] k u h = absurd (omega arith)
kind_frames-snoc (j ∷ ks) (v ∷ us) k u h =
    ap (◌∷◌ (record { kind = j; update = v })) (kind_frames-snoc ks us k u (omega arith))

frames_numbered :
    (doc : MemoryYjsDocument)
    → IsNumbered doc
    → frames doc ≡ snapshot_frames doc.snapshot ++ kind_frames doc.update_kinds doc.updates
unfolding new_yjs_document_frames
frames_numbered doc h = rw (map-copy doc.updates) (rw h.kinds (ground arith))

load_frames :
    (e : Engine) (r : String)
    → new_yjs_document_frames (load_yjs_document e r) ≡ frames (yjs_doc e r)
unfolding load_yjs_document yjs_doc
load_frames e r = ground arith

load-sequences :
    (e : Engine) (r : String)
    → (load_yjs_document e r).update_sequences ≡ (yjs_doc e r).update_sequences
unfolding load_yjs_document yjs_doc
load-sequences e r = ground arith

yjs_doc-put :
    (e : Engine) (room r : String) (doc : MemoryYjsDocument)
    → yjs_doc (record e { yjs_docs = put e.yjs_docs room doc }) r
      ≡ (if room == r then doc else yjs_doc e r)
unfolding yjs_doc
yjs_doc-put e room r doc = ground (arith, get-put e.yjs_docs room r doc)

-- The state that an appended update leaves.
appended : Engine → YjsEvent → Engine
appended e event = record e {
  yjs_docs = put e.yjs_docs event.room (append_to (yjs_doc e event.room) event);
}

store-append :
    (e : Engine) (event : YjsEvent)
    → yjs_persistence_mode event.kind ≡ some append_update
    → store_yjs_event e event
      ≡ (appended e event, ok (record event { sequence = next_sequence (yjs_doc e event.room) }))
unfolding store_yjs_event appended
store-append e event mode = rw (mode, store_yjs_event) refl

appended-frames :
    (e : Engine) (event : YjsEvent)
    → IsNumbered (yjs_doc e event.room)
    → length (yjs_doc e event.room).updates + 1 < int64_end
    → (frames (yjs_doc (appended e event) event.room)
        ≡ frames (yjs_doc e event.room) ++ (frame_of event ∷ []))
      × IsNumbered (yjs_doc (appended e event) event.room)
      × (length (yjs_doc (appended e event) event.room).updates
          ≡ suc (length (yjs_doc e event.room).updates))
unfolding appended
appended-frames e event h room =
    let doc = yjs_doc e event.room in
    let after = append_to-IsNumbered doc event room h in
    rw (yjs_doc-put e event.room event.room (append_to doc event), eq_refl event.room)
      (
        (frames_numbered (append_to doc event) after
            ∙ unfold append_to in
              ap (◌++◌ (snapshot_frames doc.snapshot))
                (kind_frames-snoc doc.update_kinds doc.updates event.kind event.update h.kinds)
              ∙ sym (append_assoc (snapshot_frames doc.snapshot) _ _)
              ∙ ap (λ (xs : List YjsFrame). xs ++ (frame_of event ∷ []))
                  (sym (frames_numbered doc h))),
        after,
        (unfold append_to in length_snoc doc.updates event.update),
      )

-- Where the updates of the room's document carry the sequences 1, 2, ... and a kind each, and there are
-- fewer than 2 ^ 63 - 1 of them: storing an update of a durable kind sends it, with its kind, as the last
-- frame to a client that loads the document afterwards; it gets the next sequence, the updates still carry
-- 1, 2, ... and a kind each, and other rooms do not change.
pub store-frames :
    (e : Engine) (event : YjsEvent)
    → yjs_persistence_mode event.kind ≡ some append_update
    → IsNumbered (yjs_doc e event.room)
    → length (yjs_doc e event.room).updates + 1 < int64_end
    → let f = (store_yjs_event e event).0 in
      (new_yjs_document_frames (load_yjs_document f event.room)
        ≡ new_yjs_document_frames (load_yjs_document e event.room) ++ (frame_of event ∷ []))
      × IsNumbered (yjs_doc f event.room)
      × ((store_yjs_event e event).1
          ≡ ok (record event { sequence = pos (length (yjs_doc e event.room).updates + 1) }))
      × ((r : String) → event.room ≢ r → yjs_doc f r ≡ yjs_doc e r)
store-frames e event mode h room =
    let doc = yjs_doc e event.room in
    let after = appended-frames e event h room in
    rw (store-append e event mode) (
      load_frames (appended e event) event.room
          ∙ after.0
          ∙ ap (λ (xs : List YjsFrame). xs ++ (frame_of event ∷ []))
              (sym (load_frames e event.room)),
      after.1,
      ap (λ (n : ℤ). ok (record event { sequence = n }))
          (numbered doc room h ∙ ap pos (omega arith)),
      (λ r other.
          unfold appended in
          ground (arith, yjs_doc-put e event.room r (append_to doc event), eq_iff event.room r)),
    )

-- Storing events one after the other.
abbrev pub store_all : Engine → List YjsEvent → Engine
store_all e [] = e
store_all e (event ∷ events) = store_all (store_yjs_event e event).0 events

-- Updates of durable kinds, all in one room.
abbrev pub AllAppend : String → List YjsEvent → Type 0
AllAppend r [] = Unit {0}
AllAppend r (event ∷ events) =
    ((event.room ≡ r) × (yjs_persistence_mode event.kind ≡ some append_update)) × AllAppend r events

step-frames :
    (e : Engine) (event : YjsEvent) (r : String)
    → event.room ≡ r
    → yjs_persistence_mode event.kind ≡ some append_update
    → IsNumbered (yjs_doc e r)
    → length (yjs_doc e r).updates + 1 < int64_end
    → let f = (store_yjs_event e event).0 in
      (frames (yjs_doc f r) ≡ frames (yjs_doc e r) ++ (frame_of event ∷ []))
      × IsNumbered (yjs_doc f r)
      × (length (yjs_doc f r).updates ≡ suc (length (yjs_doc e r).updates))
step-frames e event r at_r mode h room =
    rw (store-append e event mode, ← at_r) (appended-frames e event (rw at_r h) (rw at_r room))

frames-store_all :
    (e : Engine) (r : String) (events : List YjsEvent)
    → AllAppend r events
    → IsNumbered (yjs_doc e r)
    → length (yjs_doc e r).updates + length events < int64_end
    → (frames (yjs_doc (store_all e events) r) ≡ frames (yjs_doc e r) ++ map frame_of events)
      × IsNumbered (yjs_doc (store_all e events) r)
      × (length (yjs_doc (store_all e events) r).updates
          ≡ length (yjs_doc e r).updates + length events)
frames-store_all e r [] all h room = (sym (append-nil _), h, omega arith)
frames-store_all e r (event ∷ events) all h room =
    let step = step-frames e event r all.0.0 all.0.1 h (omega (arith, room)) in
    let rest =
      frames-store_all (store_yjs_event e event).0 r events all.1 step.1
        (omega (arith, step.2, room)) in
    (
      rest.0
          ∙ ap (λ (xs : List YjsFrame). xs ++ map frame_of events) step.0
          ∙ append_assoc (frames (yjs_doc e r)) (frame_of event ∷ []) (map frame_of events),
      rest.1,
      omega (arith, rest.2, step.2),
    )

no_frames : frames empty_yjs_document ≡ []
unfolding new_yjs_document_frames
no_frames = refl

new-doc : (r : String) → yjs_doc new r ≡ empty_yjs_document
unfolding new yjs_doc get empty
new-doc r = refl

-- Fewer than 2 ^ 63 updates of durable kinds, stored in a room of a new engine, are loaded as
-- frames in the order and under the kinds in which they were stored, with the sequences 1, 2, ...
pub load-store_all :
    (r : String) (events : List YjsEvent)
    → AllAppend r events
    → length events < int64_end
    → (new_yjs_document_frames (load_yjs_document (store_all new events) r) ≡ map frame_of events)
      × ((load_yjs_document (store_all new events) r).update_sequences ≡ counted 0 (length events))
load-store_all r events all room =
    let start : IsNumbered (yjs_doc new r) =
      rw (new-doc r) (record { sequences = refl; kinds = refl; next = refl }) in
    let done = frames-store_all new r events all start (rw (new-doc r) (omega (arith, room))) in
    (
      load_frames (store_all new events) r
          ∙ done.0
          ∙ ap (λ (xs : List YjsFrame). xs ++ map frame_of events)
              (ap frames (new-doc r) ∙ no_frames),
      load-sequences (store_all new events) r
          ∙ done.1.sequences
          ∙ ap (counted 0) (done.2 ∙ rw (new-doc r) (omega arith)),
    )

with_snapshot : Engine → YjsEvent → Engine
with_snapshot e event = record e {
  yjs_docs = put e.yjs_docs event.room (write_snapshot (yjs_doc e event.room) event.update);
}

snapshot_mode :
    (kind : ℕ) → kind ≡ YjsEventKind.snapshot → yjs_persistence_mode kind ≡ some store_snapshot
unfolding yjs_persistence_mode
snapshot_mode kind h = ground arith

store-snap :
    (e : Engine) (event : YjsEvent)
    → event.kind ≡ YjsEventKind.snapshot
    → store_yjs_event e event ≡ (with_snapshot e event, ok event)
unfolding store_yjs_event with_snapshot
store-snap e event k = rw (snapshot_mode event.kind k, store_yjs_event) refl

-- A stored snapshot becomes the first frame of the room's document; the updates stay as they are.
pub store-snapshot :
    (e : Engine) (event : YjsEvent)
    → IsNumbered (yjs_doc e event.room)
    → event.kind ≡ YjsEventKind.snapshot
    → let f = (store_yjs_event e event).0 in
      (new_yjs_document_frames (load_yjs_document f event.room)
        ≡ snapshot_frames event.update
          ++ kind_frames (yjs_doc e event.room).update_kinds (yjs_doc e event.room).updates)
      × IsNumbered (yjs_doc f event.room)
unfolding store_yjs_event write_snapshot with_snapshot
store-snapshot e event h k =
    let doc = yjs_doc e event.room in
    let numbered_still : IsNumbered (write_snapshot doc event.update) = record {
      sequences = h.sequences;
      kinds = h.kinds;
      next = h.next;
    } in
    rw (store-snap e event k) (
      load_frames (with_snapshot e event) event.room
          ∙ rw
              (
                yjs_doc-put e event.room event.room (write_snapshot doc event.update),
                eq_refl event.room,
              )
              (frames_numbered (write_snapshot doc event.update) numbered_still),
      rw (yjs_doc-put e event.room event.room (write_snapshot doc event.update), eq_refl event.room)
          numbered_still,
    )
