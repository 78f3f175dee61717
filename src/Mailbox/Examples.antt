-- ===== src/Mailbox/Examples.antt =====
-- Tests of the mailbox, and the theorems at concrete inputs.
use yz_agent.Prelude.{ℕ, ◌≡◌, refl, String, List, [], ◌∷◌, ◌++◌, none, some, string_eq, nat_eq}
use yz_agent.Mailbox.Gate.{StateVersion, new_gate, accept}
use yz_agent.Mailbox.Members.{UserSpec}
use yz_agent.Mailbox.Box.{Sync, Event, new_node_mailbox}
use yz_agent.Mailbox.Order.{accepted, IsForward, accepted-IsForward}
use yz_agent.Mailbox.Replica.{view_of, deliver_all, replica_of, fill}
use yz_agent.Mailbox.Whole.{Call}
use yz_agent.Mailbox.Coalesce.{Action, applied, drained, run, begin, events, run-deliver_all}

abbrev version : String → ℕ → StateVersion
version epoch sequence = record { epoch = epoch; sequence = sequence }

-- Old messages of a retired epoch are held back, and older ones of the same epoch.
abbrev arriving : List StateVersion
arriving =
    version "a" 1
    ∷ version "a" 3
    ∷ version "a" 2
    ∷ version "b" 1
    ∷ version "a" 4
    ∷ version "b" 2
    ∷ []

accepted-arriving :
    accepted arriving new_gate ≡ version "a" 1 ∷ version "a" 3 ∷ version "b" 1 ∷ version "b" 2 ∷ []
unfolding accepted accept
accepted-arriving = refl

accepted-IsForward_example : IsForward (accepted arriving new_gate)
accepted-IsForward_example = accepted-IsForward arriving new_gate

abbrev user : ℕ → String → UserSpec String
user id settings = record { id = id; settings = settings }

abbrev event : Sync → ℕ → Event String String String
event sync sequence = record {
  sync = sync;
  version = version "a" sequence;
  config = some "settings";
  users = some (user 1 "x" ∷ []);
  device_users = none;
  delta_action = "add";
  delta_users = user 2 "y" ∷ [];
}

abbrev acts : List (Action String String String)
acts =
    applied (event Sync.config 2)
    ∷ drained
    ∷ applied (event Sync.user_delta 3)
    ∷ applied (event Sync.user_delta 1)
    ∷ []

run-deliver_all_example :
    (run (acts ++ drained ∷ []) (begin (event Sync.users 1 ∷ []) (some []) none)).view
    ≡ view_of (
        deliver_all (events acts) (
          fill
            (some [])
            none
            (deliver_all (event Sync.users 1 ∷ []) (replica_of new_node_mailbox))))
run-deliver_all_example = run-deliver_all (event Sync.users 1 ∷ []) (some []) none acts

abbrev snapshot_calls : List (Call String String String)
snapshot_calls =
    Call.applied (event Sync.snapshot 1)
    ∷ Call.applied (event Sync.user_delta 2)
    ∷ Call.seeded none none
    ∷ Call.marked
    ∷ []
