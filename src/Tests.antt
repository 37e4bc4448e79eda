-- ===== src/Tests.antt =====
-- The theorems applied to small rooms, each with a check that the state reaches the code at issue.
mod Access
mod Config
mod StorageDocument
mod Protocol
mod Runtime
mod Membership
mod Rooms
mod Yjs
mod Storage
mod Patch
