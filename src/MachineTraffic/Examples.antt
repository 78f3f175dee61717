-- ===== src/MachineTraffic/Examples.antt =====
-- Tests of the meter, and the theorems at concrete inputs.
use yz_agent.Prelude.{
  ℕ, ◌<◌, ◌+◌, ◌-◌, ◌*◌, ◌≡◌, refl, String, true, false, List, [], ◌∷◌, Option, none, some, unix,
  string_eq, nat_eq, arith, ◌/◌, ◌⊎◌, inr,
}
use yz_agent.MachineTraffic.Policy.{Policy, Counter, Reading, Meter}
use yz_agent.MachineTraffic.Counters.{add_cards}
use yz_agent.MachineTraffic.Calendar.{Calendar, IsCalendar, Zones}
use yz_agent.MachineTraffic.Meter.{absent, new, apply, applied, zero_policy, zero_sample}
use yz_agent.MachineTraffic.Ticks.{used, tick, tick_loaded, blocked}
use yz_agent.MachineTraffic.Guard.{IsMetered, unblocked, tick_fails_closed, tick_lost}
use yz_agent.MachineTraffic.Keep.{Grows, Holds, tick-Grows, apply-Holds}
use yz_agent.MachineTraffic.Sums.{one_card}
use yz_agent.MachineTraffic.Lets.{IsSourced, tick-unblocked}
use yz_agent.MachineTraffic.Runs.{Turn, ticks, Counts, ticks_exact}

-- Months of thirty days of a day each second, from the first month on.
abbrev plain : Calendar
plain = record { month_of = λ t. t / 30; days_in = λ m. 30; date = λ m d. m * 30 + (d - 1) }

plain-IsCalendar : IsCalendar plain
plain-IsCalendar = record {
  has_day = λ m. omega arith;
  in_order = λ m d d' h. omega arith;
  month_of-date = λ m d h k. omega arith;
  before_next = λ t d h k. omega arith;
  after_previous = λ t d h k. omega arith;
}

abbrev zones : Zones
zones zone = some plain

abbrev noon : ℕ
noon = 63900000000000000000

abbrev quota : Policy
quota = record zero_policy {
  limit = 1000;
  mode = "both";
  reset_day = 1;
  timezone = "UTC";
  revision = 3;
  epoch = 1;
  period_start = unix noon;
  period_end = unix noon + 100;
  active = true;
}

abbrev card_at : ℕ → Reading
card_at n = one_card "boot" "eth0" "id" (n, n)

abbrev good_reader : ℕ → List String → Option Reading
good_reader n names = some (card_at n)

abbrev bad_reader : List String → Option Reading
bad_reader names = none

abbrev running : Meter
running = record {
  state = record {
    version = 1;
    policy = quota;
    sample = record zero_sample { rx = 5; tx = 6; initialized = true; epoch = 1 };
    previous = card_at 10;
  };
  loaded = true;
  lost = false;
  write_failed = false;
  confirmed_at = noon;
}

abbrev forgetful : Meter
forgetful = record running { lost = true }

-- Ninety bytes each way since the reading before.
tick_counts :
    let (m, (s, b)) = tick zones (good_reader 100) true noon running in
    (s.rx ≡ 95) × (s.tx ≡ 96) × (b ≡ false)
unfolding tick add_cards
tick_counts = (refl, refl, refl)

first_policy : (apply zones true noon quota (new absent)).1 ≡ applied
unfolding apply new
first_policy = refl

abbrev IsLetThrough : Type 0
IsLetThrough =
    (running.loaded ≡ true)
    × (running.state.policy.active ≡ true)
    × ((running.state.policy.limit ≡ 0) ⊎ IsMetered running noon)

running_unblocked : blocked running noon ≡ false
unfolding blocked add_cards
running_unblocked = refl

unblocked_example : IsLetThrough
unblocked_example = unblocked running noon running_unblocked

good-IsSourced : IsSourced (good_reader 100) noon running
good-IsSourced = inr (refl, refl, refl)

used_little : used (tick_loaded zones (good_reader 100) true noon running) < 1000
unfolding tick_loaded used add_cards
used_little = omega arith

tick-unblocked_example : (tick zones (good_reader 100) true noon running).1.1 ≡ false
tick-unblocked_example =
    tick-unblocked zones (good_reader 100) noon running refl refl (omega arith) good-IsSourced
      used_little

tick_fails_closed_example : (tick zones bad_reader true noon running).1.1 ≡ true
tick_fails_closed_example =
    tick_fails_closed zones bad_reader true noon running (omega arith) (inr (refl, refl))

tick_lost_example :
    ((tick zones (good_reader 100) true noon forgetful).1.1 ≡ true)
    × ((tick_loaded zones (good_reader 100) true noon forgetful).lost ≡ true)
tick_lost_example =
    tick_lost zones (good_reader 100) true noon forgetful (omega arith) refl refl (omega arith)

tick-Grows_example :
    Grows running.state.sample (tick_loaded zones (good_reader 100) true noon running).state.sample
tick-Grows_example =
    tick-Grows zones (good_reader 100) true noon running (omega arith) (omega arith)

abbrev stale : Policy
stale = record quota { period_start = 7; revision = 4 }

apply-Holds_example : Holds running (apply zones true noon stale running).0
apply-Holds_example = apply-Holds zones true noon stale running refl refl (omega arith)

abbrev two_cards : Reading
two_cards = record {
  boot = "boot";
  counters =
      ("eth0", record { identity = "id"; rx = 20; tx = 30 })
      ∷ ("eth1", record { identity = "id1"; rx = 40; tx = 50 })
      ∷ [];
}

abbrev swapped : List (String × Counter)
swapped =
    ("eth1", record { identity = "id1"; rx = 40; tx = 50 })
    ∷ ("eth0", record { identity = "id"; rx = 20; tx = 30 })
    ∷ []

abbrev noon_turns : List Turn
noon_turns =
    record { now = noon; saved = true; value = (15, 12) }
    ∷ record { now = noon; saved = false; value = (20, 12) }
    ∷ []

running-Counts : Counts "boot" "eth0" "id" refl zones (10, 10) running
running-Counts = record {
  loaded = refl;
  local = refl;
  kept = refl;
  previous = refl;
  rx = omega arith;
  tx = omega arith;
}

ticks_exact_example :
    ((ticks zones (one_card "boot" "eth0" "id") noon_turns running).state.sample.rx ≡ 15)
    × ((ticks zones (one_card "boot" "eth0" "id") noon_turns running).state.sample.tx ≡ 8)
ticks_exact_example =
    ticks_exact "boot" "eth0" "id" refl zones (10, 10) noon_turns running running-Counts
      (omega arith, (omega arith, tt)) (omega arith)
