-- ===== src/Access.antt =====
-- Who may do what in a room: server/internal/auth/verifier.go, server/internal/roomengine/
-- authorization.go and the access part of RoomRecord in server/internal/cluster/redis.go. Tenant,
-- Scope, Groups, Implied and Freshness have the proofs.
pub mod Pattern
pub mod Claims
pub mod Records
pub mod Rooms
pub mod Keys
pub mod Tenant
pub mod Scope
pub mod Groups
pub mod Implied
pub mod Freshness
