-- ===== src/AutoSpeed/Runs.antt =====
-- Histories of a manager: updates and restores in order of the clock.
use yz_agent.Prelude.{ℕ, ◌+◌, String, List, [], ◌∷◌, Option}
use yz_agent.AutoSpeed.{Rule, Penalty, Manager, Rules, Rates, update_manager, restore}

-- Calls of a manager, in order of the clock.
pub data Call : Type 0 where
  updates : Rules → Option Rates → ℕ → Call
  restores : List (ℕ × Penalty) → Rules → Call

abbrev pub call : (Rule → String) → ℕ → Call → Manager → Manager
call fingerprint now (updates rules rates sampled) m =
    update_manager fingerprint rules rates sampled now m
call fingerprint now (restores saved rules) m = restore fingerprint saved rules now m

-- A run from a time on: each entry is the time that passes before the call, and the call.
unfoldable pub run : (Rule → String) → ℕ → List (ℕ × Call) → Manager → ℕ × Manager
run fingerprint now [] m = (now, m)
run fingerprint now ((wait, c) ∷ calls) m =
    run fingerprint (now + wait) calls (call fingerprint (now + wait) c m)

abbrev pub initial : Manager
initial = record { users = []; last = 0 }
