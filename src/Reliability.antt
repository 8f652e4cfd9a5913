-- ===== src/Reliability.antt =====
-- Reliable delivery: retry delays, rows under a lease, the outbox and its publisher, the inbox and
-- its consumer, and idempotent requests. Times and durations are numbers of microseconds.
pub mod Backoff
pub mod Keys
pub mod Leases
pub mod Outbox
pub mod Inbox
pub mod Idempotency
