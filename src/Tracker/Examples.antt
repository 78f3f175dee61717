-- ===== src/Tracker/Examples.antt =====
-- Tests of the tracker, and the theorems at concrete inputs.
use yz_agent.Prelude.{ℕ, ◌≡◌, refl, true, List, [], ◌∷◌, insert, has_key, nat_eq, arith}
use yz_agent.Tracker.Word.{Pair, zero_pair, IsCounter}
use yz_agent.Tracker.Book.{Traffic}
use yz_agent.Tracker.State.{Tracker, PerSecond, new}
use yz_agent.Tracker.Charge.{Same, charges}
use yz_agent.Tracker.Ledger.{
  Event, sampled, flushed, confirmed, refused, run, start, total, history, run_conserves,
}
use yz_agent.Tracker.Retire.{Counters}

abbrev no_speed : PerSecond
no_speed bytes before now = 0

abbrev pair : ℕ → ℕ → Pair
pair a b = record { up = a; down = b }

-- The kernel starts anew after the first batch, which the panel refuses.
abbrev restart : List Event
restart =
    sampled ((1, pair 100 200) ∷ []) [] 1 10
    ∷ flushed
    ∷ sampled ((1, pair 30 250) ∷ (2, pair 5 5) ∷ []) [] 2 20
    ∷ refused
    ∷ flushed
    ∷ confirmed
    ∷ []

restart_delivers :
    (run no_speed restart (start 0)).delivered ≡ ((1, pair 130 250) ∷ (2, pair 5 5) ∷ []) ∷ []
unfolding run new yz_agent.Tracker.Book.process_all yz_agent.Tracker.Book.delta_pair
    yz_agent.Tracker.Book.restore_all yz_agent.Tracker.Word.add_pair insert
restart_delivers = refl

run_conserves_example :
    Same (total 1 (run no_speed restart (start 0))) (charges zero_pair (history 1 restart))
run_conserves_example = run_conserves no_speed 0 1 restart (omega arith)

abbrev all_of : Counters → Counters
all_of c = c

abbrev busy : Tracker
busy = (run no_speed (sampled ((1, pair 100 200) ∷ []) [] 1 10 ∷ []) (start 0)).tracker

busy_pending : has_key 1 busy.users.pending ≡ true
unfolding run new yz_agent.Tracker.Book.process_all yz_agent.Tracker.Book.delta_pair
    yz_agent.Tracker.Word.add_pair insert yz_agent.Tracker.Book.put
busy_pending = refl

abbrev relaying : Tracker
relaying = record (new 0) { relay = record { last = (9, pair 5 5) ∷ []; pending = [] } }
