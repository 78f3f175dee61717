-- ===== src/MachineTraffic.antt =====
-- internal/machinetraffic/meter.go: the traffic quota of a server. The mutex makes each method one
-- step. The disk, the clock, the zone database and the reader of the network cards are arguments:
-- what the write of the state returned, the time, a `Calendar`, and the outcome of the reader.
pub mod Policy
pub mod Counters
pub mod Calendar
pub mod Meter
pub mod Ticks
pub mod Guard
pub mod Keep
pub mod Sums
pub mod Lets
pub mod Runs
pub mod Examples
