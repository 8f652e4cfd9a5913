-- ===== src/Configuration.antt =====
-- The lifecycle of a venue's configuration, its service over the stored versions, and what
-- publication guarantees.
pub mod Machine
pub mod Service
pub mod Versions
pub mod Moves
pub mod Publication
pub mod Pointer
