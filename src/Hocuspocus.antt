-- ===== src/Hocuspocus.antt =====
-- hocuspocu-rs/src/hocuspocus.rs: the documents in memory, and how they come and go.
pub mod Blank
pub mod Loading
pub mod SingleFlight
pub mod Races
pub mod Provenance
pub mod Hooks
pub mod Storing
pub mod Opening
pub mod Loaded
pub mod Persisting
pub mod Configuring
pub mod Payloads
