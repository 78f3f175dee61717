-- ===== src/MachineTraffic/Meter.antt =====
-- The state of the meter, `New` and `Apply`.
use yz_agent.Prelude.{
  ℕ, String, Bool, true, false, not, ◌&&◌, ◌||◌, List, [], ◌∷◌, Option, none, some, ltb, leb, ◌==◌,
  nat_eq, string_eq, if◌then◌else◌, max,
}
use yz_agent.MachineTraffic.Policy.{Policy, Sample, DiskState, Meter}
use yz_agent.MachineTraffic.Counters.{empty_reading}
use yz_agent.MachineTraffic.Calendar.{Zones}

abbrev pub zero_policy : Policy
zero_policy = record {
  limit = 0;
  mode = "";
  reset_day = 0;
  timezone = "";
  interfaces = [];
  revision = 0;
  epoch = 0;
  period_start = 0;
  period_end = 0;
  rx = 0;
  tx = 0;
  proxy_rx = 0;
  proxy_tx = 0;
  baseline = 0;
  sequence = 0;
  initialized = false;
  active = false;
}

abbrev pub zero_sample : Sample
zero_sample = record {
  revision = 0;
  mode = "";
  epoch = 0;
  period_start = 0;
  sequence = 0;
  rx = 0;
  tx = 0;
  initialized = false;
  error = "";
  interfaces = [];
}

abbrev pub zero_state : DiskState
zero_state = record {
  version = 0;
  policy = zero_policy;
  sample = zero_sample;
  previous = empty_reading;
}

-- What the state file gave: nothing there, an error, a text that is not JSON with the part of the
-- state that was decoded before the fault, or a state.
pub data Stored : Type 0 where
  absent : Stored
  unreadable : Stored
  undecodable : DiskState → Stored
  decoded : DiskState → Stored

unfoldable pub new : Stored → Meter
new absent = record {
  state = zero_state;
  loaded = false;
  lost = false;
  write_failed = false;
  confirmed_at = 0;
}
new unreadable = record {
  state = zero_state;
  loaded = false;
  lost = true;
  write_failed = false;
  confirmed_at = 0;
}
new (undecodable d) = record {
  state = d;
  loaded = false;
  lost = true;
  write_failed = false;
  confirmed_at = 0;
}
new (decoded d) =
    let good = d.version == 1 && ltb 0 d.policy.epoch in
    record {
      state = d;
      loaded = good;
      lost = if good then d.sample.error == "state_lost" else true;
      write_failed = false;
      confirmed_at = 0;
    }

pub data Outcome : Type 0 where
  applied invalid_policy invalid_timezone save_failed : Outcome

abbrev pub known_mode : String → Bool
known_mode mode = mode == "outbound" || mode == "both" || mode == "proxy"

abbrev pub bad_policy : Policy → Bool
bad_policy p =
    p.epoch == 0
    || p.revision == 0
    || ltb p.reset_day 1
    || ltb 31 p.reset_day
    || leb p.period_end p.period_start
    || not (known_mode p.mode)

abbrev pub is_some {ℓ} : {A : Type ℓ} → Option A → Bool
is_some none = false
is_some (some a) = true

-- `slices.Equal`
abbrev pub same_names : List String → List String → Bool
same_names [] [] = true
same_names [] (b ∷ bs) = false
same_names (a ∷ as') [] = false
same_names (a ∷ as') (b ∷ bs) = a == b && same_names as' bs

abbrev pub bool_beq : Bool → Bool → Bool
bool_beq true b = b
bool_beq false b = not b

-- `saveLocked`: the state goes to the disk, and a failure is remembered.
abbrev pub save : Bool → Meter → Meter
save saved m = record m { write_failed = not saved }

-- A first policy, or one of another epoch.
abbrev pub adopt : Policy → Meter → Meter
adopt p m = record m {
  lost = p.initialized;
  state = record {
    version = 1;
    policy = p;
    sample = record {
      revision = 0;
      mode = "";
      epoch = p.epoch;
      period_start = p.period_start;
      sequence = p.sequence;
      rx = p.rx;
      tx = p.tx;
      initialized = false;
      error = "";
      interfaces = [];
    };
    previous = empty_reading;
  };
  loaded = true;
}

abbrev pub new_period_sample : ℕ → ℕ → Sample
new_period_sample epoch start = record zero_sample { epoch = epoch; period_start = start }

-- The policy of an epoch that goes on, behind the one in force or not.
abbrev pub merged_period : Policy → Policy → Policy
merged_period old p =
    if ltb p.period_start old.period_start
    then record p {
      period_start = old.period_start;
      period_end = old.period_end;
      baseline = old.baseline;
      rx = 0;
      tx = 0;
      sequence = 0;
      proxy_rx = old.proxy_rx;
      proxy_tx = old.proxy_tx;
    }
    else p

abbrev pub forward_period : Policy → Policy → Meter → Meter
forward_period old p m =
    if ltb old.period_start p.period_start
    then record m {
      lost = false;
      state = record (m.state) {
        sample = new_period_sample p.epoch p.period_start;
        previous = if m.lost then empty_reading else m.state.previous;
      };
    }
    else m

abbrev pub check_interfaces : Policy → Policy → Meter → Meter
check_interfaces old p m =
    if not (same_names p.interfaces old.interfaces)
    then record m { state = record (m.state) { previous = empty_reading } }
    else m

abbrev pub check_mode : Policy → Policy → Meter → Meter
check_mode old p m =
    if not (bool_beq (p.mode == "proxy") (old.mode == "proxy"))
    then record m {
      state = record (m.state) {
        sample = record (m.state.sample) { initialized = false; error = ""; interfaces = [] };
      };
    }
    else m

abbrev pub raise_proxy : Policy → Policy → Policy
raise_proxy old p =
    if p.period_start == old.period_start
    then record p { proxy_rx = max p.proxy_rx old.proxy_rx; proxy_tx = max p.proxy_tx old.proxy_tx }
    else p

abbrev pub raise_sample : Policy → Sample → Sample
raise_sample p s =
    if s.period_start == p.period_start
    then record s { rx = max s.rx p.rx; tx = max s.tx p.tx; sequence = max s.sequence p.sequence }
    else s

abbrev pub set_policy : Policy → Meter → Meter
set_policy p m = record m {
  state = record (m.state) { sample = raise_sample p m.state.sample; policy = p };
}

unfoldable pub update : Policy → Policy → Meter → Meter
update old received m =
    let p = merged_period old received in
    let moved = forward_period old p m in
    let checked = check_mode old p (check_interfaces old p moved) in
    set_policy (raise_proxy old p) checked

unfoldable pub apply : Zones → Bool → ℕ → Policy → Meter → Meter × Outcome
apply zones saved now p m =
    let old = m.state.policy in
    if bad_policy p
    then (m, invalid_policy)
    else if not (is_some (zones p.timezone))
    then (m, invalid_timezone)
    else if m.loaded && ltb p.revision old.revision
    then (m, applied)
    else let next =
        if not m.loaded || not (p.epoch == old.epoch) then adopt p m else update old p m in
      (save saved (record next { confirmed_at = now }), if saved then applied else save_failed)
