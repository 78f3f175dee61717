-- ===== src/Limiter/Events.antt =====
-- `ReportLimitedSnapshot` and its callers, `SnapshotLimitEvents` and `SnapshotMetrics`.
use yz_agent.Prelude.{
  ℕ, ◌+◌, ◌%◌, ◌^◌, String, Bool, true, false, not, ◌&&◌, List, [], ◌∷◌, ◌++◌, ◌==◌, nat_eq,
  string_eq, ltb, if◌then◌else◌, Option, none, some, lookup, insert, length, any,
}
use yz_agent.Limiter.Users.{UserSpec, ConnLimitSpec, LimitSnapshot, LimitEventStat, Limiter}

pub data Kind : Type 0 where
  concurrent rate device : Kind

-- The kind of a report; a text that names none is ignored.
abbrev pub kind_of : String → Option Kind
kind_of kind =
    if kind == "conn"
    then some concurrent
    else if kind == "rate"
    then some rate
    else if kind == "device"
    then some device
    else none

abbrev pub max_device_event_ips : ℕ
max_device_event_ips = 5

abbrev pub count_up : ℕ → ℕ
count_up n = (n + 1) % 2 ^ 64

abbrev pub zero_stat : LimitEventStat
zero_stat = record {
  speed_hits = 0;
  speed_limit = 0;
  speed_first = 0;
  speed_last = 0;
  conn_hits = 0;
  rate_hits = 0;
  conn_limit = 0;
  rate_limit = 0;
  peak_conn = 0;
  device_hits = 0;
  device_limit = 0;
  peak_devices = 0;
  device_ips = [];
  conn_snapshot = none;
  rate_snapshot = none;
  device_snapshot = none;
}

abbrev pub stat_or_zero : Option LimitEventStat → LimitEventStat
stat_or_zero none = zero_stat
stat_or_zero (some stat) = stat

abbrev pub spec_limit : Kind → Option ConnLimitSpec → ℕ → ℕ
spec_limit kind none limit = limit
spec_limit concurrent (some spec) limit = spec.max_conn
spec_limit rate (some spec) limit = spec.rate_per_sec
spec_limit device (some spec) limit = limit

abbrev pub device_default : Kind → UserSpec → ℕ → ℕ
device_default concurrent u limit = limit
device_default rate u limit = limit
device_default device u limit = u.device_limit

-- A limit of 0 is filled in from the configuration.
abbrev pub filled_limit : Kind → UserSpec → Option ConnLimitSpec → ℕ → ℕ
filled_limit kind u spec limit =
    if limit == 0 then spec_limit kind spec (device_default kind u limit) else limit

-- Only the first snapshot of a period is kept.
abbrev pub first_snapshot :
    Option LimitSnapshot → Option LimitSnapshot → ℕ → ℕ → Option LimitSnapshot
first_snapshot (some old) captured limit observed = some old
first_snapshot none none limit observed = none
first_snapshot none (some value) limit observed =
    some (record value { limit = limit; observed = observed })

unfoldable pub add_ip : String → List String → List String
add_ip ip ips =
    if not (ip == "") && ltb (length ips) max_device_event_ips && not (any (λ i. i == ip) ips)
    then ips ++ ip ∷ []
    else ips

-- The entry of the user, with one more rejection.
unfoldable pub count_event :
    Kind → ℕ → ℕ → String → Option LimitSnapshot → LimitEventStat → LimitEventStat
unfolding add_ip
count_event concurrent limit observed ip captured stat = record stat {
  conn_hits = count_up stat.conn_hits;
  conn_limit = limit;
  peak_conn = if ltb stat.peak_conn observed then observed else stat.peak_conn;
  conn_snapshot = first_snapshot stat.conn_snapshot captured limit observed;
}
count_event rate limit observed ip captured stat = record stat {
  rate_hits = count_up stat.rate_hits;
  rate_limit = limit;
  rate_snapshot = first_snapshot stat.rate_snapshot captured limit observed;
}
count_event device limit observed ip captured stat = record stat {
  device_hits = count_up stat.device_hits;
  device_limit = limit;
  peak_devices = if ltb stat.peak_devices observed then observed else stat.peak_devices;
  device_ips = add_ip ip stat.device_ips;
  device_snapshot = first_snapshot stat.device_snapshot captured limit observed;
}

abbrev pub is_device : Kind → Bool
is_device concurrent = false
is_device rate = false
is_device device = true

module _ {B : Type 0} where
  unfoldable pub report_event :
      ℕ → Kind → UserSpec → ℕ → ℕ → String → Option LimitSnapshot → Limiter B → Limiter B
  unfolding count_event
  report_event id kind u limit observed ip captured l =
      let filled = filled_limit kind u (lookup id l.conn_limits) limit in
      let stat = stat_or_zero (lookup id l.limit_events) in
      record l {
        limit_events = insert id (count_event kind filled observed ip captured stat) l.limit_events;
        device_limit_events =
            if is_device kind then count_up l.device_limit_events else l.device_limit_events;
        conn_limit_events =
            if is_device kind then l.conn_limit_events else count_up l.conn_limit_events;
      }

  abbrev pub report_known :
      ℕ
      → Option Kind
      → Option UserSpec
      → ℕ
      → ℕ
      → String
      → Option LimitSnapshot
      → Limiter B
      → Limiter B
  report_known id none u limit observed ip captured l = l
  report_known id (some k) none limit observed ip captured l = l
  report_known id (some k) (some u) limit observed ip captured l =
      report_event id k u limit observed ip captured l

  -- `build` has been called: `captured` is what it returned, if it was given.
  unfoldable pub report_limited_snapshot :
      ℕ → String → ℕ → ℕ → String → Option LimitSnapshot → Limiter B → Limiter B
  unfolding report_event
  report_limited_snapshot id kind limit observed ip captured l =
      report_known id (kind_of kind) (lookup id l.users) limit observed ip captured l

  unfoldable pub report_limited : ℕ → String → ℕ → ℕ → Limiter B → Limiter B
  report_limited id kind limit observed l = report_limited_snapshot id kind limit observed "" none l

  unfoldable pub report_device_limited : ℕ → ℕ → ℕ → String → Limiter B → Limiter B
  report_device_limited id limit observed ip l =
      report_limited_snapshot id "device" limit observed ip none l

  unfoldable pub snapshot_limit_events : Limiter B → Limiter B × List (ℕ × LimitEventStat)
  snapshot_limit_events l = (record l { limit_events = [] }, l.limit_events)

  unfoldable pub snapshot_metrics : Limiter B → ℕ × ℕ
  snapshot_metrics l = (l.device_limit_events, l.conn_limit_events)
