-- ===== src/Temporal.antt =====
-- backend/app/intelligence/temporal: the event-time engines and their state machines.
pub mod Errors
pub mod Fsm
pub mod Model
pub mod Engine
pub mod Presence
pub mod Dwell
pub mod Occupancy
pub mod Waiting
pub mod Tracks
