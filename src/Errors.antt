-- ===== src/Errors.antt =====
-- The sentinel errors that the room engine returns: roomengine/engine.go and cluster/redis.go in
-- server/internal. A wrapped error (`%w`) is the error that it wraps.
pub data Error : Type 0 where
  room_limit_exceeded room_capacity_exceeded yjs_room_capacity_exceeded : Error
  storage_mutation_kind yjs_persistence_kind : Error
  storage_not_found storage_conflict storage_patch : Error
  -- an error of encoding/json
  bad_json : Error

-- A call that returns `(value, error)`.
pub data Result {ℓ} (A : Type ℓ) : Type ℓ where
  ok : A → Result A
  err : Error → Result A

infixl 5 ◌>>=◌
abbrev pub ◌>>=◌ {ℓ κ} : {A : Type ℓ} {B : Type κ} → Result A → (A → Result B) → Result B
ok a >>= f = f a
err e >>= f = err e
