-- ===== src/Pending/Store.antt =====
-- `pendingReportStore`. Each call of the file system that can fail does so as its outcome says.
use yz_agent.Prelude.{
  ℕ, ◌%◌, String, Bool, true, false, not, ◌&&◌, ◌||◌, [], ◌∷◌, ◌==◌, nat_eq, string_eq,
  if◌then◌else◌, Option, none, some, select,
}
use yz_agent.Pending.Delta.{PendingTraffic, nothing, is_nothing, diff_pending}
use yz_agent.Pending.Disk.{
  PendingBatch, PendingReportFile, PendingJournalRecord, Content, missing, unreadable, garbage,
  file, Entry, temporary, Disk, next_sequence, is_empty_batch, put_entry, replay_journal,
}

abbrev pub pending_report_version : ℕ
pending_report_version = 1

-- `last_hash` is the digest of `last_state`, and is not kept beside it.
pub record PendingReportStore (E : Type 0) : Type 0 where
  pub identity : String
  pub saved : Bool
  pub last_state : PendingReportFile E
  pub journal_seq : ℕ
  pub load_failed : Bool

-- Whether the directory could be made, the file be written, and the checkpoint be removed. A write takes
-- in the encoding and the encryption of the text, whose errors return at the same place and leave the
-- same state; the encoding for the digest, of numbers and texts alone, does not fail. A write that
-- fails may leave its temporary file; a removal of the journal that fails leaves what `left` says.
pub record Outcomes (E : Type 0) : Type 0 where
  pub makes : Bool
  pub writes : Bool
  pub leaves_temporary : Bool
  pub left : Option (Entry E → Bool)
  pub unlinks : Bool

pub record Saved (E : Type 0) : Type 0 where
  pub store : PendingReportStore E
  pub disk : Disk E
  pub done : Bool

pub data Loaded (E : Type 0) : Type 0 where
  recovered : Option (PendingBatch E) → PendingTraffic → Loaded E
  failed : Loaded E

module _ {E : Type 0} where
  abbrev pub no_state : String → PendingReportFile E
  no_state identity = record {
    version = 0;
    journal_sequence = 0;
    identity = identity;
    batch = none;
    pending = nothing;
  }

  abbrev pub new_store : String → PendingReportStore E
  new_store identity = record {
    identity = identity;
    saved = false;
    last_state = no_state identity;
    journal_seq = 0;
    load_failed = false;
  }

  abbrev pub filled_batch : Option (PendingBatch E) → Option (PendingBatch E)
  filled_batch none = none
  filled_batch (some b) = if is_empty_batch b then none else some b

  abbrev pub is_none : Option (PendingBatch E) → Bool
  is_none none = true
  is_none (some b) = false

  abbrev pub state_of : String → Option (PendingBatch E) → PendingTraffic → PendingReportFile E
  state_of identity batch pending = record {
    version = pending_report_version;
    journal_sequence = 0;
    identity = identity;
    batch = batch;
    pending = pending;
  }

  abbrev pub is_empty_state : PendingReportFile E → Bool
  is_empty_state f = is_none f.batch && is_nothing f.pending

  abbrev pub failing : PendingReportStore E → Disk E → Saved E
  failing s d = record { store = s; disk = d; done = false }

  abbrev pub commit : PendingReportFile E → PendingReportStore E → Disk E → Saved E
  commit state s d = record {
    store = record s { last_state = state; saved = true };
    disk = d;
    done = true;
  }

  -- The checkpoint is there; the journal goes, and so does the checkpoint of an empty state.
  abbrev pub clear_journal :
      Outcomes E
      → Option (Entry E → Bool)
      → PendingReportFile E
      → PendingReportStore E
      → Disk E
      → Saved E
  clear_journal o (some left) state s d = failing s (record d { journal = select left d.journal })
  clear_journal o none state s d =
      if is_empty_state state
      then (if o.unlinks
          then commit state s (record { checkpoint = missing; journal = [] })
          else failing s (record d { journal = [] }))
      else commit state s (record d { journal = [] })

  unfoldable pub save_checkpoint :
      Outcomes E → PendingReportFile E → PendingReportStore E → Disk E → Saved E
  save_checkpoint o state s d =
      let next = next_sequence s.journal_seq in
      if not o.writes
      then failing s d
      else clear_journal o o.left state (record s { journal_seq = next })
          (record d { checkpoint = file (record state { journal_sequence = next }) })

  abbrev pub with_temporary : Outcomes E → Disk E → Disk E
  with_temporary o d =
      if o.leaves_temporary then record d { journal = temporary ∷ d.journal } else d

-- The digest of the states, and the texts of the batches, are compared.
module _ {E : Type 0} (same_hash : PendingReportFile E → PendingReportFile E → Bool)
    (same_json : Option (PendingBatch E) → Option (PendingBatch E) → Bool) where
  abbrev pub record_of : PendingReportFile E → PendingReportStore E → PendingJournalRecord E
  record_of state s =
      let changed = not (same_json s.last_state.batch state.batch) in
      record {
        sequence = next_sequence s.journal_seq;
        batch_changed = changed;
        batch = if changed then state.batch else none;
        pending = diff_pending s.last_state.pending state.pending;
      }

  unfoldable pub save_record :
      Outcomes E → PendingReportFile E → PendingReportStore E → Disk E → Saved E
  unfolding diff_pending put_entry
  save_record o state s d =
      let r = record_of state s in
      if not o.writes
      then failing s (with_temporary o d)
      else commit state (record s { journal_seq = r.sequence })
          (record d { journal = put_entry r.sequence r d.journal })

  unfoldable pub save_state :
      Outcomes E → PendingReportFile E → PendingReportStore E → Disk E → Saved E
  unfolding save_checkpoint save_record
  save_state o state s d =
      if s.load_failed
      then failing s d
      else if s.saved && same_hash state s.last_state
      then record { store = s; disk = d; done = true }
      else if not o.makes
      then failing s d
      else if not s.saved || s.journal_seq % 128 == 127 || is_empty_state state
      then save_checkpoint o state s d
      else save_record o state s d

  unfoldable pub save :
      Outcomes E
      → Option (PendingBatch E)
      → PendingTraffic
      → PendingReportStore E
      → Disk E
      → Saved E
  unfolding save_state
  save o batch pending s d = save_state o (state_of s.identity (filled_batch batch) pending) s d

module _ {E : Type 0} where
  unfoldable pub compact : Outcomes E → PendingReportStore E → Disk E → Disk E × Bool
  compact o s d =
      if s.load_failed
      then (d, false)
      else if not s.saved || is_empty_state s.last_state
      then (d, true)
      else if not o.writes
      then (d, false)
      else let checkpoint = file (record (s.last_state) { journal_sequence = s.journal_seq }) in
        elim o.left [
          | none ↦ (record { checkpoint = checkpoint; journal = [] }, true)
          | some left ↦ (record { checkpoint = checkpoint; journal = select left d.journal }, false)
        ]

  abbrev pub named_batch : Option (PendingBatch E) → Option (PendingBatch E)
  named_batch none = none
  named_batch (some b) = if b.id == "" || is_empty_batch b then none else some b

  -- A file that does not decode, or is another node's, is moved aside with its journal.
  abbrev pub move_aside :
      Bool → Bool → PendingReportStore E → Disk E → PendingReportStore E × Disk E × Loaded E
  move_aside false journal_moves s d = (s, d, failed)
  move_aside true false s d = (s, record d { checkpoint = missing }, failed)
  move_aside true true s d = (s, record { checkpoint = missing; journal = [] }, failed)

  abbrev pub take_over :
      Option (PendingReportFile E)
      → PendingReportStore E
      → Disk E
      → PendingReportStore E × Disk E × Loaded E
  take_over none s d = (record s { load_failed = true }, d, failed)
  take_over (some f) s d = (
    record s {
      journal_seq = f.journal_sequence;
      last_state = record f { journal_sequence = 0 };
      saved = true;
    },
    d,
    recovered (named_batch f.batch) f.pending,
  )

  abbrev pub load_content :
      Bool
      → Bool
      → Content E
      → PendingReportStore E
      → Disk E
      → PendingReportStore E × Disk E × Loaded E
  load_content moves journal_moves missing s d = (s, d, recovered none nothing)
  load_content moves journal_moves unreadable s d = (s, d, failed)
  load_content moves journal_moves garbage s d = move_aside moves journal_moves s d
  load_content moves journal_moves (file f) s d =
      if not (f.version == pending_report_version) || not (f.identity == s.identity)
      then move_aside moves journal_moves s d
      else take_over (replay_journal d.journal f) s d

  -- Whether the two files can be moved aside is given.
  unfoldable pub load :
      Bool → Bool → PendingReportStore E → Disk E → PendingReportStore E × Disk E × Loaded E
  unfolding replay_journal
  load moves journal_moves s d = load_content moves journal_moves d.checkpoint s d
