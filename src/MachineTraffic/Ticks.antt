-- ===== src/MachineTraffic/Ticks.antt =====
-- `Tick`, `Snapshot`, `HasPolicy` and `blockedLocked`.
use yz_agent.Prelude.{
  ℕ, ◌+◌, ◌*◌, ◌%◌, ◌^◌, String, Bool, true, false, not, ◌||◌, List, [], ◌∷◌, Option, none, some,
  leb, ◌==◌, nat_eq, string_eq, if◌then◌else◌, unix, second,
}
use yz_agent.MachineTraffic.Policy.{Sample, Reading, Meter}
use yz_agent.MachineTraffic.Counters.{add, empty_reading, add_cards, sorted_names}
use yz_agent.MachineTraffic.Calendar.{Zones, period}
use yz_agent.MachineTraffic.Meter.{new_period_sample, save, zero_sample}

abbrev pub period_or_zero : Option (ℕ × ℕ) → ℕ × ℕ
period_or_zero none = (0, 0)
period_or_zero (some p) = p

-- The end of a period: the counters begin anew.
unfoldable pub roll : Zones → ℕ → Meter → Meter
roll zones now m =
    let p = m.state.policy in
    if leb p.period_end (unix now)
    then (let (start, end) = period_or_zero (period zones (unix now) p.reset_day p.timezone) in
        record m {
          lost = false;
          state = record (m.state) {
            policy = record p {
              period_start = start;
              period_end = end;
              baseline = 0;
              proxy_rx = 0;
              proxy_tx = 0;
            };
            sample = new_period_sample p.epoch start;
            previous = if m.lost then empty_reading else m.state.previous;
          };
        })
    else m

abbrev pub set_sample : Sample → Meter → Meter
set_sample s m = record m { state = record (m.state) { sample = s } }

-- A reading that succeeded.
abbrev pub count_reading : Reading → Meter → Meter
count_reading reading m =
    let s =
      add_cards m.state.previous reading reading.counters
        (record (m.state.sample) { error = "" }) in
    record m {
      state = record (m.state) {
        sample = record s { interfaces = sorted_names reading.counters; initialized = true };
        previous = reading;
      };
    }

abbrev pub is_empty {ℓ} : {A : Type ℓ} → List A → Bool
is_empty [] = true
is_empty (x ∷ xs) = false

-- What the cards gave: none is an error of the reader.
abbrev pub take_reading : Option Reading → Meter → Meter
take_reading none m = set_sample (record (m.state.sample) { error = "interfaces_unavailable" }) m
take_reading (some reading) m =
    if is_empty reading.counters || reading.boot == ""
    then set_sample (record (m.state.sample) { error = "interfaces_unavailable" }) m
    else count_reading reading m

unfoldable pub observe : Option Reading → Meter → Meter
observe reading m =
    let s = m.state.sample in
    if m.state.policy.mode == "proxy"
    then set_sample (record s { error = ""; initialized = true; interfaces = [] }) m
    else if m.lost
    then set_sample (record s { error = "state_lost"; initialized = false }) m
    else take_reading reading m

abbrev pub count_up : Meter → Meter
count_up m =
    set_sample (record (m.state.sample) { sequence = (m.state.sample.sequence + 1) % 2 ^ 64 }) m

-- The write of the state, and the error that its failure leaves in the sample.
abbrev pub save_sample : Bool → Meter → Meter
save_sample saved m =
    if saved
    then save true m
    else set_sample (record (m.state.sample) { error = "state_write_failed" }) (save false m)

-- A `Tick` of a meter that has a policy.
unfoldable pub tick_loaded : Zones → (List String → Option Reading) → Bool → ℕ → Meter → Meter
unfolding roll observe
tick_loaded zones reader saved now m =
    let rolled = count_up (roll zones now m) in
    save_sample saved (observe (reader rolled.state.policy.interfaces) rolled)

-- `sampleLocked`
abbrev pub sample_of : Meter → Sample
sample_of m = record (m.state.sample) {
  revision = m.state.policy.revision;
  mode = m.state.policy.mode;
}

abbrev pub confirmation_timeout : ℕ
confirmation_timeout = 180 * second

unfoldable pub used : Meter → ℕ
used m =
    let p = m.state.policy in
    let s = m.state.sample in
    if p.mode == "proxy"
    then add p.proxy_rx p.proxy_tx
    else if p.mode == "both"
    then add (add p.baseline s.tx) s.rx
    else add p.baseline s.tx

-- `blockedLocked`
unfoldable pub blocked : Meter → ℕ → Bool
unfolding used
blocked m now =
    let p = m.state.policy in
    let s = m.state.sample in
    if not m.loaded
    then true
    else if not p.active
    then true
    else if p.limit == 0
    then false
    else if p.mode == "proxy"
    then m.write_failed
      || not s.initialized
      || not (s.error == "")
      || m.confirmed_at == 0
      || leb (m.confirmed_at + confirmation_timeout) now
      || leb p.limit (used m)
    else m.lost
      || m.write_failed
      || not s.initialized
      || not (s.error == "")
      || leb p.limit (used m)

unfoldable pub tick :
    Zones → (List String → Option Reading) → Bool → ℕ → Meter → Meter × (Sample × Bool)
unfolding tick_loaded blocked
tick zones reader saved now m =
    if not m.loaded
    then (m, (zero_sample, true))
    else let m' = tick_loaded zones reader saved now m in (m', (sample_of m', blocked m' now))

unfoldable pub snapshot : ℕ → Meter → Sample × Bool
unfolding blocked
snapshot now m = (sample_of m, blocked m now)

unfoldable pub has_policy : Meter → Bool
has_policy m = m.loaded || m.lost
