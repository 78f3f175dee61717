-- ===== src/Limiter.antt =====
-- internal/limiter: limiter.go, connlimiter.go, devicelimit.go, speedtracker.go and speed_events.go.
-- Limits that are not positive lift the limit wherever the code reads them: a negative one is written
-- 0. The token buckets are those of golang.org/x/time/rate, a parameter. The mutexes make each method
-- one step.
pub mod Bucket
pub mod Users
pub mod Events
pub mod Speed
pub mod Sync
pub mod Reports
pub mod SpeedSync
pub mod Examples
