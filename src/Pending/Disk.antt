-- ===== src/Pending/Disk.antt =====
-- What the directory of a node holds, and the replay of its journal.
use yz_agent.Prelude.{
  ℕ, ◌+◌, ◌%◌, ◌^◌, String, Bool, true, false, not, List, [], ◌∷◌, ◌==◌, nat_eq, leb, ltb,
  if◌then◌else◌, Option, none, some,
}
use yz_agent.Pending.Delta.{PendingTraffic, is_nothing, apply_pending, ◌>>=◌}

-- `E` is the type of the limit events, which no method reads.
pub record PendingBatch (E : Type 0) : Type 0 where
  pub id : String
  pub limit_events : List E
  pub traffic : PendingTraffic

pub record PendingReportFile (E : Type 0) : Type 0 where
  pub version : ℕ
  pub journal_sequence : ℕ
  pub identity : String
  pub batch : Option (PendingBatch E)
  pub pending : PendingTraffic

pub record PendingJournalRecord (E : Type 0) : Type 0 where
  pub sequence : ℕ
  pub batch_changed : Bool
  pub batch : Option (PendingBatch E)
  pub pending : PendingTraffic

-- The checkpoint; one that is there may not be readable, or not decode.
pub data Content (E : Type 0) : Type 0 where
  missing unreadable garbage : Content E
  file : PendingReportFile E → Content E

-- An entry of the journal's directory: a temporary file of an atomic write, one of another name, and one
-- named by a number, which may not be readable or not decode.
pub data Entry (E : Type 0) : Type 0 where
  temporary foreign : Entry E
  named : ℕ → Option (PendingJournalRecord E) → Entry E

-- The entries stand in the order of their names.
pub record Disk (E : Type 0) : Type 0 where
  pub checkpoint : Content E
  pub journal : List (Entry E)

abbrev pub next_sequence : ℕ → ℕ
next_sequence n = (n + 1) % 2 ^ 64

module _ {E : Type 0} where
  abbrev pub is_empty_list : List E → Bool
  is_empty_list [] = true
  is_empty_list (e ∷ events) = false

  -- `pendingBatch.empty`
  abbrev pub is_empty_batch : PendingBatch E → Bool
  is_empty_batch b = if is_nothing b.traffic then is_empty_list b.limit_events else false

  -- The file of a number is written: a file of the same name is replaced.
  unfoldable pub put_entry : ℕ → PendingJournalRecord E → List (Entry E) → List (Entry E)
  put_entry n r [] = named n (some r) ∷ []
  put_entry n r (temporary ∷ entries) = temporary ∷ put_entry n r entries
  put_entry n r (foreign ∷ entries) = foreign ∷ put_entry n r entries
  put_entry n r (named m old ∷ entries) =
      let later = put_entry n r entries in
      if ltb m n
      then named m old ∷ later
      else if m == n
      then named n (some r) ∷ entries
      else named n (some r) ∷ named m old ∷ entries

  -- A record that follows the state.
  unfoldable pub apply_record :
      PendingReportFile E → PendingJournalRecord E → Option (PendingReportFile E)
  unfolding apply_pending
  apply_record f r = do
    pending ← apply_pending f.pending r.pending
    some (record f {
      journal_sequence = r.sequence;
      batch = if r.batch_changed then r.batch else f.batch;
      pending = pending;
    })

  abbrev pub replay_record :
      ℕ → PendingJournalRecord E → PendingReportFile E → Option (PendingReportFile E)
  replay_record n r f =
      if not (n == r.sequence)
      then none
      else if leb r.sequence f.journal_sequence
      then some f
      else if not (r.sequence == next_sequence f.journal_sequence)
      then none
      else apply_record f r

  -- The body of the loop of `replayJournal`; none is its error.
  unfoldable pub replay_one : Entry E → PendingReportFile E → Option (PendingReportFile E)
  unfolding apply_record
  replay_one temporary f = some f
  replay_one foreign f = none
  replay_one (named n none) f = none
  replay_one (named n (some r)) f = replay_record n r f

  unfoldable pub replay_journal :
      List (Entry E) → PendingReportFile E → Option (PendingReportFile E)
  unfolding replay_one
  replay_journal [] f = some f
  replay_journal (e ∷ entries) f = replay_one e f >>= λ next. replay_journal entries next
