-- ===== src/Mailbox.antt =====
-- internal/controlplane/mailbox.go, and internal/panel/version.go, whose gate it applies. The settings
-- of a node and the devices of its users are opaque; copies are values. The mutex makes each method one
-- step, and the channel of notifications, which holds no data, is left out.
pub mod Gate
pub mod Members
pub mod Box
pub mod Order
pub mod Deltas
pub mod Replica
pub mod Coalesce
pub mod Whole
pub mod Examples
