-- ===== src/Pending.antt =====
-- internal/service: pending_report.go, pending_journal.go and pending_state.go, the store of traffic
-- that the panel has not confirmed. Encryption and JSON are the identity on values; copies are values.
-- The lock makes each method one step.
pub mod Delta
pub mod RoundTrip
pub mod UserMaps
pub mod Users
pub mod Disk
pub mod Store
pub mod Replay
pub mod Recover
pub mod Saves
pub mod Durable
pub mod History
pub mod Cleared
pub mod Examples
