-- ===== src/Cluster/YjsEventKind.antt =====
-- The kinds of a YJSEvent, a byte: server/internal/cluster/redis.go.
use open_rtc.Base.{ℕ}

abbrev pub update : ℕ
update = 1

abbrev pub snapshot : ℕ
snapshot = 2

abbrev pub state_vector_request : ℕ
state_vector_request = 3

abbrev pub state_vector_diff : ℕ
state_vector_diff = 4

abbrev pub subdoc_update : ℕ
subdoc_update = 5

abbrev pub subdoc_state_vector : ℕ
subdoc_state_vector = 6

abbrev pub subdoc_diff : ℕ
subdoc_diff = 7
