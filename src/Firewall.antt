-- ===== src/Firewall.antt =====
-- internal/firewall: the ports that the nodes need open, the redirections of port hopping, and the
-- records of the rules that were made.
--
-- A rule holds numbers and texts; what the program uses of net/netip is a parameter. The map of the
-- plans is an association list by owner, and its pairs of plans are visited once each. The back end
-- is an interface; how the write of a file ends is an argument.
pub mod Rule
pub mod Node
pub mod NodePlan
pub mod Combine
pub mod Covers
pub mod Targets
pub mod Parts
pub mod Single
pub mod Protection
pub mod Manager
pub mod Runs
pub mod Submits
pub mod Owned
pub mod Saved
pub mod Recorded
mod Examples
mod RecordExamples
