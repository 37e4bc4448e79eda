-- ===== src/Catalog.antt =====
-- The error catalogue: server/internal/errors/catalog.go.
use Prim.Native.Nat.{ℕ}
use open_rtc.Base.{Bool, true, false, String}

pub data Code : Type 0 where
  auth_invalid auth_expired room_forbidden room_not_found room_conflict room_capacity : Code
  thread_not_found thread_conflict : Code
  inbox_notification_not_found inbox_notification_conflict : Code
  storage_not_found storage_conflict patch_failed : Code
  rate_limited payload_too_large queue_overflow bad_request internal : Code

pub record Descriptor : Type 0 where
  pub code : Code
  pub http_status : ℕ
  pub ws_close_code : ℕ
  pub retryable : Bool

described : Code → ℕ → ℕ → Bool → Descriptor
described c status close again = record {
  code = c;
  http_status = status;
  ws_close_code = close;
  retryable = again;
}

-- catalog[code]
unfoldable pub descriptor_for : Code → Descriptor
unfolding described
descriptor_for auth_invalid = described auth_invalid 401 4001 false
descriptor_for auth_expired = described auth_expired 401 4002 true
descriptor_for room_forbidden = described room_forbidden 403 4403 false
descriptor_for room_not_found = described room_not_found 404 4404 false
descriptor_for room_conflict = described room_conflict 409 4411 false
descriptor_for room_capacity = described room_capacity 429 4429 true
descriptor_for thread_not_found = described thread_not_found 404 4414 false
descriptor_for thread_conflict = described thread_conflict 409 4415 false
descriptor_for inbox_notification_not_found = described inbox_notification_not_found 404 4416 false
descriptor_for inbox_notification_conflict = described inbox_notification_conflict 409 4417 false
descriptor_for storage_not_found = described storage_not_found 404 4412 false
descriptor_for storage_conflict = described storage_conflict 409 4418 false
descriptor_for patch_failed = described patch_failed 422 4413 false
descriptor_for rate_limited = described rate_limited 429 4408 true
descriptor_for payload_too_large = described payload_too_large 413 4409 false
descriptor_for queue_overflow = described queue_overflow 503 4410 true
descriptor_for bad_request = described bad_request 400 4400 false
descriptor_for internal = described internal 500 4500 true

-- The text of a code, as it goes over the wire.
unfoldable pub code_text : Code → String
code_text auth_invalid = "AUTH_INVALID"
code_text auth_expired = "AUTH_EXPIRED"
code_text room_forbidden = "ROOM_FORBIDDEN"
code_text room_not_found = "ROOM_NOT_FOUND"
code_text room_conflict = "ROOM_CONFLICT"
code_text room_capacity = "ROOM_CAPACITY"
code_text thread_not_found = "THREAD_NOT_FOUND"
code_text thread_conflict = "THREAD_CONFLICT"
code_text inbox_notification_not_found = "INBOX_NOTIFICATION_NOT_FOUND"
code_text inbox_notification_conflict = "INBOX_NOTIFICATION_CONFLICT"
code_text storage_not_found = "STORAGE_NOT_FOUND"
code_text storage_conflict = "STORAGE_CONFLICT"
code_text patch_failed = "PATCH_FAILED"
code_text rate_limited = "RATE_LIMITED"
code_text payload_too_large = "PAYLOAD_TOO_LARGE"
code_text queue_overflow = "QUEUE_OVERFLOW"
code_text bad_request = "BAD_REQUEST"
code_text internal = "INTERNAL"
