-- ===== src/DeviceGate.antt =====
-- internal/devicegate: manager.go, lease_cache.go and protocol.go, the gate that lets the devices of a
-- user connect as far as the panel confirms them.
--
-- Each function is the part of a method that holds the manager's lock, with the time it reads and the
-- panel's answer as arguments; what runs between two such parts is a sequence of these steps. A source
-- is an object that permits point at: it is an entry of a heap, and the map of the sources holds its
-- place. A timer is a step that may come at any time, since what it does checks the deadline again. The
-- sequence numbers of 64 bits do not wrap in the life of a session. Times are nanoseconds, those of the
-- panel milliseconds; an id, a time or a limit that is not positive is written 0.
pub mod Types
pub mod Revoke
pub mod Lease
pub mod Sync
pub mod Permits
pub mod Session
pub mod Admission
pub mod Grant
mod Grows
mod Revoked
mod Leased
mod Permitted
mod Synced
mod Admitted
mod Granted
pub mod Run
pub mod Silent
pub mod Bars
pub mod Barriers
pub mod Entry
pub mod Stopped
mod Examples
