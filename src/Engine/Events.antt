-- ===== src/Engine/Events.antt =====
-- Building, copying and classifying the messages of a room: server/internal/roomengine/engine.go.
use open_rtc.Base.{String, Bool, false, not, ◌||◌, ◌==◌, if◌then◌else◌}
use Prim.Native.String.{◌++◌}
use open_rtc.Cluster.{Bytes, PublishedEvent, PresenceEvent, YjsEvent}
use open_rtc.Engine.{copy}

unfoldable pub clone_presence_event : PresenceEvent → PresenceEvent
clone_presence_event event = record event { state = copy event.state }

unfoldable pub clone_published_event : PublishedEvent → PublishedEvent
clone_published_event event = record event { payload = copy event.payload }

unfoldable pub clone_yjs_event : YjsEvent → YjsEvent
clone_yjs_event event = record event { update = copy event.update }

unfoldable pub new_presence_event : String → String → Bytes → String → PresenceEvent
new_presence_event conn_id room payload origin_node = record {
  room = room;
  conn_id = conn_id;
  state = copy payload;
  offline = false;
  origin_node = origin_node;
}

pub record EventOptions : Type 0 where
  pub origin_node : String
  pub trace_id : String
  pub exclude_sender_conn_id : String

unfoldable pub new_event : String → String → Bytes → EventOptions → PublishedEvent
new_event room event_name payload options = record {
  room = room;
  event = event_name;
  payload = copy payload;
  exclude_sender_conn_id = options.exclude_sender_conn_id;
  trace_id = options.trace_id;
  sequence = 0;
  origin_node = options.origin_node;
}

-- cluster.EventStorageUpdate
abbrev pub event_storage_update : String
event_storage_update = "$openrtc.storage.update"

abbrev pub room_created : String
room_created = "openrtc.rooms.created"

abbrev pub room_updated : String
room_updated = "openrtc.rooms.updated"

abbrev pub room_deleted : String
room_deleted = "openrtc.rooms.deleted"

abbrev pub comment_thread_created : String
comment_thread_created = "openrtc.comments.thread.created"

abbrev pub comment_thread_updated : String
comment_thread_updated = "openrtc.comments.thread.updated"

abbrev pub comment_thread_deleted : String
comment_thread_deleted = "openrtc.comments.thread.deleted"

abbrev pub comment_created : String
comment_created = "openrtc.comments.comment.created"

abbrev pub comment_updated : String
comment_updated = "openrtc.comments.comment.updated"

abbrev pub notification_inbox_created : String
notification_inbox_created = "openrtc.notifications.inbox.created"

abbrev pub notification_inbox_read : String
notification_inbox_read = "openrtc.notifications.inbox.read"

abbrev pub notification_inbox_deleted : String
notification_inbox_deleted = "openrtc.notifications.inbox.deleted"

abbrev pub notification_inbox_deleted_all : String
notification_inbox_deleted_all = "openrtc.notifications.inbox.deleted_all"

unfoldable pub is_notification_event : String → Bool
is_notification_event event_name =
    event_name == notification_inbox_created
    || (event_name == notification_inbox_read
        || (event_name == notification_inbox_deleted
            || event_name == notification_inbox_deleted_all))

unfoldable pub is_room_event : String → Bool
is_room_event event_name =
    event_name == room_created || (event_name == room_updated || event_name == room_deleted)

unfoldable pub is_comment_event : String → Bool
is_comment_event event_name =
    event_name == comment_thread_created
    || (event_name == comment_thread_updated
        || (event_name == comment_thread_deleted
            || (event_name == comment_created || event_name == comment_updated)))

unfoldable pub room_event_type : String → String
room_event_type event_name =
    if event_name == room_created
    then "room-created"
    else if event_name == room_updated
    then "room-updated"
    else if event_name == room_deleted
    then "room-deleted"
    else event_name

unfoldable pub comment_event_type : String → String
comment_event_type event_name =
    if event_name == comment_thread_created
    then "thread-created"
    else if event_name == comment_thread_updated
    then "thread-updated"
    else if event_name == comment_thread_deleted
    then "thread-deleted"
    else if event_name == comment_created
    then "comment-created"
    else if event_name == comment_updated
    then "comment-updated"
    else event_name

unfoldable pub notification_event_type : String → String
notification_event_type event_name =
    if event_name == notification_inbox_created
    then "created"
    else if event_name == notification_inbox_read
    then "read"
    else if event_name == notification_inbox_deleted
    then "deleted"
    else if event_name == notification_inbox_deleted_all
    then "deleted-all"
    else event_name

unfoldable pub notification_event_room : String → String
notification_event_room user_id = "notifications:" ++ user_id

pub data ClusterEventKind : Type 0 where
  skip room_event storage_event notification_event : ClusterEventKind

pub record ClusterEventPlan : Type 0 where
  pub event : PublishedEvent
  pub kind : ClusterEventKind

cluster_event_kind : PublishedEvent → String → ClusterEventKind
cluster_event_kind event local_node =
    if event.origin_node == local_node
    then skip
    else if event.event == event_storage_update
    then storage_event
    else if is_notification_event event.event
    then notification_event
    else room_event

unfoldable pub new_cluster_event_plan : PublishedEvent → String → ClusterEventPlan
unfolding cluster_event_kind
new_cluster_event_plan event local_node = record {
  event = clone_published_event event;
  kind = cluster_event_kind event local_node;
}

pub record ClusterPresencePlan : Type 0 where
  pub event : PresenceEvent
  pub deliver : Bool

unfoldable pub new_cluster_presence_plan : PresenceEvent → String → ClusterPresencePlan
new_cluster_presence_plan event local_node = record {
  event = clone_presence_event event;
  deliver = not (event.origin_node == local_node);
}

pub record ClusterYjsEventPlan : Type 0 where
  pub event : YjsEvent
  pub deliver : Bool

unfoldable pub new_cluster_yjs_event_plan : YjsEvent → String → ClusterYjsEventPlan
new_cluster_yjs_event_plan event local_node = record {
  event = clone_yjs_event event;
  deliver = not (event.origin_node == local_node);
}
