-- ===== src/Tracker.antt =====
-- internal/tracker: tracker.go, relay.go and retire.go. The mutex makes each method one step. A kernel
-- hands over counters that only grow, and fall back when it starts anew.
pub mod Word
pub mod Book
pub mod State
pub mod Charge
pub mod Ledger
pub mod Relay
pub mod Retire
pub mod Examples
