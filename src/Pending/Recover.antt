-- ===== src/Pending/Recover.antt =====
-- What a restart recovers after saves that succeed, fail, or are cut short.
use yz_agent.Prelude.{
  ℕ, ◌+◌, ◌^◌, ◌<◌, ◌≡◌, refl, ap, ◌∙◌, String, Bool, true, false, nat_eq, string_eq, nat_beq_iff,
  Option, some, arith,
}
use yz_agent.Pending.Delta.{PendingTraffic, diff_pending, apply_pending}
use yz_agent.Pending.Users.{IsPending, SamePending, apply_pending-diff_pending}
use yz_agent.Pending.Disk.{
  PendingBatch, PendingReportFile, file, named, Disk, put_entry, apply_record, replay_one,
  replay_journal,
}
use yz_agent.Pending.Store.{
  PendingReportStore, recovered, new_store, record_of, load, named_batch, pending_report_version,
}
use yz_agent.Pending.Replay.{replay_journal-IsRead, replay_journal-append, put_entry-append}

pub SamePending-refl : (p : PendingTraffic) → SamePending p p
SamePending-refl p = record { traffic = λ j. refl; relay = λ j. refl; users = λ uid j. refl }

pub SamePending-trans :
    (p q r : PendingTraffic) → SamePending p q → SamePending q r → SamePending p r
SamePending-trans p q r a b = record {
  traffic = λ j. a.traffic j ∙ b.traffic j;
  relay = λ j. a.relay j ∙ b.relay j;
  users = λ uid j. a.users uid j ∙ b.users uid j;
}

module _ {E : Type 0} where
  -- The disk leads to this state: its checkpoint is this node's, and the journal replays.
  pub record Stores (own : String) (d : Disk E) (seq : ℕ) (batch : Option (PendingBatch E))
      (p : PendingTraffic) : Type 0 where
    pub base : PendingReportFile E
    pub end : PendingReportFile E
    pub at : d.checkpoint ≡ file base
    pub version : base.version ≡ pending_report_version
    pub identity : base.identity ≡ own
    pub replayed : replay_journal d.journal base ≡ some end
    pub sequence : end.journal_sequence ≡ seq
    pub holds_batch : end.batch ≡ batch
    pub holds_pending : SamePending end.pending p

  -- The store that has saved, and its disk.
  pub record Agrees (s : PendingReportStore E) (d : Disk E) : Type 0 where
    pub failed : s.load_failed ≡ false
    pub saved : s.saved ≡ true
    pub stores : Stores s.identity d s.journal_seq s.last_state.batch s.last_state.pending
    pub valid : IsPending s.last_state.pending

  -- A store that starts anew recovers the batch and the traffic.
  abbrev pub Recovers : String → Disk E → Option (PendingBatch E) → PendingTraffic → Type 0
  Recovers identity d batch p =
      (q : PendingTraffic) × ((load true true (new_store identity) d).2
        ≡ recovered (named_batch batch) q)
      × SamePending q p

  pub Stores-Recovers :
      (identity : String) (d : Disk E) (seq : ℕ) (batch : Option (PendingBatch E))
      (p : PendingTraffic)
      → Stores identity d seq batch p
      → Recovers identity d batch p
  unfolding load
  Stores-Recovers identity d seq batch p l = (
    l.end.pending,
    ground (
      arith,
      l.at,
      l.version,
      l.identity,
      l.replayed,
      l.holds_batch,
      string_eq.beq_iff l.base.identity identity,
    ),
    l.holds_pending,
  )

module _ {E : Type 0} (same_hash : PendingReportFile E → PendingReportFile E → Bool)
    (same_json : Option (PendingBatch E) → Option (PendingBatch E) → Bool)
    (json_lem : (a b : Option (PendingBatch E)) → same_json a b ≡ true → a ≡ b) where
  replay-record_of :
      (s : PendingReportStore E) (state end : PendingReportFile E) (q : PendingTraffic)
      → end.journal_sequence ≡ s.journal_seq
      → s.journal_seq + 1 < 2 ^ 64
      → end.batch ≡ s.last_state.batch
      → apply_pending end.pending (diff_pending s.last_state.pending state.pending) ≡ some q
      → let next = s.journal_seq + 1 in
        replay_one (named next (some (record_of same_hash same_json state s))) end
        ≡ some (record end { journal_sequence = next; batch = state.batch; pending = q })
  unfolding replay_one apply_record
  replay-record_of s state end q e l b a = ground (
    arith,
    e,
    json_lem s.last_state.batch state.batch,
    nat_beq_iff (s.journal_seq + 1) (s.journal_seq + 1),
  )

  pub record-Stores :
      (s : PendingReportStore E) (d : Disk E) (state : PendingReportFile E)
      → Agrees s d
      → IsPending state.pending
      → s.journal_seq + 1 < 2 ^ 64
      → let next = s.journal_seq + 1 in
        Stores s.identity
          (record d { journal = put_entry next (record_of same_hash same_json state s) d.journal })
          next
          state.batch
          state.pending
  record-Stores s d state h v l =
      let k = h.stores in
      let next : ℕ = s.journal_seq + 1 in
      let r = record_of same_hash same_json state s in
      let (q, done, same) =
        apply_pending-diff_pending k.end.pending s.last_state.pending state.pending h.valid v
          k.holds_pending in
      let read = (replay_journal-IsRead d.journal k.base k.end k.replayed).1 in
      record {
        base = k.base;
        end = record (k.end) { journal_sequence = next; batch = state.batch; pending = q };
        at = k.at;
        version = k.version;
        identity = k.identity;
        replayed =
            ap (λ es. replay_journal es k.base)
              (put_entry-append next r d.journal k.end.journal_sequence (omega (arith, k.sequence))
                read)
            ∙ replay_journal-append d.journal (named next (some r)) k.base k.end k.replayed
            ∙ replay-record_of s state k.end q k.sequence l k.holds_batch done;
        sequence = refl;
        holds_batch = refl;
        holds_pending = same;
      }
