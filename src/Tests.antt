-- ===== src/Tests.antt =====
-- The theorems at concrete inputs, by the part of the program.
mod Fixtures
mod Presence
mod Engine
mod Occupancy
mod FrameQueue
mod Evidence
mod LiveSession
mod Retention
mod Leases
mod Outbox
mod Inbox
mod Idempotency
mod Configuration
mod Waiting
mod Media
mod Rules
