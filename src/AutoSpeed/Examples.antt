-- ===== src/AutoSpeed/Examples.antt =====
-- Tests of the temporary limits, and the theorems at concrete inputs.
use yz_agent.Prelude.{
  ℕ, ◌+◌, ◌*◌, ◌≡◌, refl, inr, ◌⊎◌, String, Bool, true, false, List, [], ◌∷◌, Option, some, unix,
  second, string_eq, nat_eq, arith, AllValues, insert,
}
use yz_agent.AutoSpeed.{
  Rule, State, Penalty, Manager, valid, no_penalty, update_state, update_manager, snapshot_users,
  Rates,
}
use yz_agent.AutoSpeed.Runs.{Call, updates, restores, run, initial}
use yz_agent.AutoSpeed.Invariant.{
  AllSound, IsEnforceable, run-initial-AllSound, snapshot-IsEnforceable,
}
use yz_agent.AutoSpeed.Trigger.{IsStarted, IsDue, update_state_starts}

abbrev fingerprint : Rule → String
fingerprint r = "digest"

-- 100 Mbps for three seconds, then 10 Mbps for a minute.
abbrev steady : Rule
steady = record {
  enabled = true;
  mode = "continuous";
  direction = "max";
  threshold = 100;
  target = 10;
  duration = 3;
  window = 0;
  hits = 0;
  hold = 60;
}

steady-valid : valid steady ≡ true
unfolding valid
steady-valid = refl

-- The year 2026, to the nanosecond.
abbrev noon : ℕ
noon = 63900000000000000000

abbrev fast : Option Rates
fast = some ((7, (1000, 20000000)) ∷ [])

abbrev watched : State
watched = record { config = steady; rule = "digest"; since = noon; hits = []; penalty = no_penalty }

abbrev limited : State
limited = record watched {
  penalty = record { limit = 10; until = unix noon + 60; rule = "digest" };
}

abbrev history : List (ℕ × Call)
history =
    (0, updates ((7, some steady) ∷ []) fast noon)
    ∷ (4 * second, updates ((7, some steady) ∷ []) fast (noon + 4 * second))
    ∷ (second, restores [] ((7, some steady) ∷ []))
    ∷ []

history_limits :
    snapshot_users (noon + 4 * second) (run fingerprint noon history initial).1.users
    ≡ (7, record { limit = 10; until = unix (noon + 64 * second); rule = "digest" }) ∷ []
unfolding run snapshot_users update_manager yz_agent.AutoSpeed.restore valid
    yz_agent.AutoSpeed.rule_beq insert
history_limits = refl

run-initial-AllSound_example :
    AllSound fingerprint
      (run fingerprint noon history initial).0
      (run fingerprint noon history initial).1.users
run-initial-AllSound_example = run-initial-AllSound fingerprint noon history

snapshot-IsEnforceable_example :
    AllValues (IsEnforceable noon) (snapshot_users noon ((7, limited) ∷ []))
snapshot-IsEnforceable_example = snapshot-IsEnforceable fingerprint noon ((7, limited) ∷ []) (
  record { config_valid = steady-valid; digest = refl; held = inr (refl, refl, omega arith) },
  tt,
)

update_state_starts_example :
    let t = update_state true false fast (noon + 4 * second) (noon + 4 * second) 7 watched in
    (t.penalty ≡ no_penalty)
    ⊎ ((m : Rates) × (fast ≡ some m)
        × (◌≡◌ {A = Bool} true true)
        × IsStarted (noon + 4 * second) watched t
        × IsDue 7 m false (noon + 4 * second) watched)
update_state_starts_example =
    update_state_starts true false fast (noon + 4 * second) (noon + 4 * second) 7 watched refl
