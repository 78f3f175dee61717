-- ===== src/Pending/Examples.antt =====
-- Tests of the store of pending traffic, and the theorems at concrete inputs.
use yz_agent.Prelude.{
  ℕ, ◌≡◌, ◌⊎◌, refl, subst, String, Bool, true, false, ◌&&◌, List, [], ◌∷◌, nat_eq, Option, none,
  some, insert, arith,
}
use yz_agent.Tracker.Word.{Pair, IsCounter}
use yz_agent.Pending.Delta.{PendingTraffic, nothing, is_nothing, apply_pending, diff_pending}
use yz_agent.Pending.Users.{IsPending, SamePending, apply_pending-diff_pending}
use yz_agent.Pending.Disk.{
  PendingBatch, PendingReportFile, missing, file, Disk, put_entry, replay_journal,
}
use yz_agent.Pending.Store.{
  PendingReportStore, Outcomes, Saved, recovered, new_store, is_none, state_of, is_empty_state,
  save, load,
}
use yz_agent.Pending.Recover.{SamePending-refl, Agrees, Recovers}
use yz_agent.Pending.Durable.{save_atomic}
use yz_agent.Pending.History.{Attempt, IsAttempt, history, history-Recovers, history-succeeds}
use yz_agent.Pending.Cleared.{IsGood, cleared, save-cleared}

abbrev pair : ℕ → ℕ → Pair
pair a b = record { up = a; down = b }

abbrev first : PendingTraffic
first = record {
  traffic = (1, pair 5 6) ∷ (2, pair 1 1) ∷ [];
  relay = [];
  relay_user = (1, (7, pair 2 2) ∷ []) ∷ [];
}

abbrev second : PendingTraffic
second = record { traffic = (1, pair 9 6) ∷ []; relay = (7, pair 3 3) ∷ []; relay_user = [] }

first-IsPending : IsPending first
first-IsPending = ground arith

second-IsPending : IsPending second
second-IsPending = ground arith

apply_pending-diff_pending_example :
    (r : PendingTraffic) × (apply_pending first (diff_pending first second) ≡ some r)
    × SamePending r second
apply_pending-diff_pending_example =
    apply_pending-diff_pending first first second first-IsPending second-IsPending
      (SamePending-refl first)

-- Two empty states have one digest, and of the others no two are taken for one.
abbrev same_hash : PendingReportFile String → PendingReportFile String → Bool
same_hash a b = is_empty_state a && is_empty_state b

abbrev same_json : Option (PendingBatch String) → Option (PendingBatch String) → Bool
same_json a b = is_none a && is_none b

json_lem : (a b : Option (PendingBatch String)) → same_json a b ≡ true → a ≡ b
json_lem none none h = refl
json_lem none (some b) h = cc
json_lem (some a) b h = cc

empty_lem : (p : PendingTraffic) → is_nothing p ≡ true → p ≡ nothing
unfolding is_nothing
empty_lem p h = ground (arith, h)

hash_lem :
    (a b : PendingReportFile String)
    → same_hash a b ≡ true
    → (b.batch ≡ a.batch) × SamePending b.pending a.pending
hash_lem a b h =
    let same : b.pending ≡ a.pending =
      ground (arith, h, empty_lem a.pending, empty_lem b.pending) in
    (ground (arith, h), subst (λ p. SamePending b.pending p) same (SamePending-refl b.pending))

abbrev good : Outcomes String
good = record { makes = true; writes = true; leaves_temporary = false; left = none; unlinks = true }

good-IsGood : IsGood good
good-IsGood = record { makes = refl; writes = refl; left = refl; unlinks = refl }

abbrev full_disk : Outcomes String
full_disk = record good { writes = false; leaves_temporary = true }

abbrev blank : Disk String
blank = record { checkpoint = missing; journal = [] }

-- The store after its first save.
abbrev running : PendingReportStore String
running = record (new_store "node") {
  saved = true;
  last_state = state_of "node" none first;
  journal_seq = 1;
}

abbrev running_disk : Disk String
running_disk = record {
  checkpoint = file (record (state_of "node" none first) { journal_sequence = 1 });
  journal = [];
}

running-Agrees : Agrees running running_disk
unfolding replay_journal
running-Agrees = record {
  failed = refl;
  saved = refl;
  stores = record {
    base = record (state_of "node" none first) { journal_sequence = 1 };
    end = record (state_of "node" none first) { journal_sequence = 1 };
    at = refl;
    version = refl;
    identity = refl;
    replayed = refl;
    sequence = refl;
    holds_batch = refl;
    holds_pending = SamePending-refl first;
  };
  valid = first-IsPending;
}

save_atomic_example :
    Recovers "node" (save same_hash same_json good none second running running_disk).disk none first
    ⊎ Recovers "node"
        (save same_hash same_json good none second running running_disk).disk
        none
        second
save_atomic_example =
    save_atomic same_hash same_json json_lem good none second running running_disk running-Agrees
      second-IsPending (omega arith)

abbrev attempt_of : Outcomes String → PendingTraffic → Attempt String
attempt_of o p = record { outcomes = o; batch = none; pending = p }

abbrev early : List (Attempt String)
early = attempt_of good first ∷ attempt_of full_disk second ∷ []

abbrev end : Saved String
end = history same_hash same_json early (attempt_of good second) "node" blank

end_done : end.done ≡ true
unfolding save is_nothing yz_agent.Pending.History.attempts diff_pending put_entry
end_done = refl

first-IsAttempt : IsAttempt (attempt_of good first)
unfolding is_nothing
first-IsAttempt = record { valid = first-IsPending; full = refl; left = refl }

refused-IsAttempt : IsAttempt (attempt_of full_disk second)
unfolding is_nothing
refused-IsAttempt = record { valid = second-IsPending; full = refl; left = refl }

second-IsAttempt : IsAttempt (attempt_of good second)
unfolding is_nothing
second-IsAttempt = record { valid = second-IsPending; full = refl; left = refl }

history-Recovers_example : Recovers "node" end.disk none second
history-Recovers_example =
    history-Recovers same_hash same_json hash_lem json_lem early (attempt_of good second) "node"
      blank (first-IsAttempt, (refused-IsAttempt, tt)) second-IsAttempt (omega arith) end_done

history-succeeds_example :
    ((history same_hash same_json early (attempt_of good second) "node" blank).done ≡ true)
    × Recovers "node"
        (history same_hash same_json early (attempt_of good second) "node" blank).disk
        none
        second
history-succeeds_example =
    history-succeeds same_hash same_json hash_lem json_lem early (attempt_of good second) "node"
      blank (first-IsAttempt, (refused-IsAttempt, tt)) second-IsAttempt (omega arith) good-IsGood

second_full : is_empty_state {E = String} (state_of "node" none second) ≡ false
unfolding is_nothing
second_full = refl

first_saved : (running.saved && same_hash (state_of "node" none nothing) running.last_state) ≡ false
unfolding is_nothing
first_saved = refl

second_other : same_hash (state_of "node" none second) (state_of "node" none nothing) ≡ false
unfolding is_nothing
second_other = refl

save-cleared_example :
    let r = cleared same_hash same_json good running running_disk in
    let r' = save same_hash same_json good none second r.store r.disk in
    (r'.done ≡ true) × ((load true true (new_store "node") r'.disk).2 ≡ recovered none nothing)
save-cleared_example =
    save-cleared same_hash same_json good good none second running running_disk good-IsGood
      good-IsGood refl first_saved second_full second_other refl

-- A checkpoint is published, but its journal cannot be removed: the save fails and the store keeps the
-- state before. The next save writes its difference from that one, which the replay adds to the
-- checkpoint: of 5, 9 and 12 bytes, 16 come back.
abbrev bytes : ℕ → PendingTraffic
bytes n = record { traffic = (1, pair n 0) ∷ []; relay = []; relay_user = [] }

abbrev due : PendingReportStore String
due = record running { last_state = state_of "node" none (bytes 5); journal_seq = 127 }

abbrev interrupted : Saved String
interrupted =
    save same_hash same_json (record good { left = some (λ e. false) }) none (bytes 9) due
      (record running_disk {
        checkpoint = file (record (state_of "node" none (bytes 5)) { journal_sequence = 127 });
      })

counted_twice :
    (load true true
      (new_store "node")
      (save same_hash same_json good none (bytes 12) interrupted.store interrupted.disk).disk).2
    ≡ recovered none (bytes 16)
unfolding save load is_nothing diff_pending put_entry insert replay_journal
    yz_agent.Tracker.Word.add_pair
counted_twice = refl
