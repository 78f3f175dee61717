-- ===== src/Pending/Saves.antt =====
-- Each save, on every branch, and any number of them.
use yz_agent.Prelude.{
  if_intro, ℕ, ◌+◌, ◌%◌, ◌^◌, ◌≤◌, ◌<◌, ◌≡◌, ◌⊎◌, refl, sym, subst, String, Bool, true, false, not,
  ◌&&◌, ◌||◌, [], ◌∷◌, ◌==◌, nat_eq, string_eq, Option, none, some, arith, inl, inr,
}
use yz_agent.Pending.Delta.{PendingTraffic}
use yz_agent.Pending.Users.{IsPending, SamePending}
use yz_agent.Pending.Disk.{
  PendingBatch, PendingReportFile, file, temporary, Disk, next_sequence, put_entry, replay_journal,
}
use yz_agent.Pending.Store.{
  PendingReportStore, Outcomes, Saved, is_empty_state, failing, commit, clear_journal,
  save_checkpoint, with_temporary, record_of, save_record, save_state, pending_report_version,
}
use yz_agent.Pending.Recover.{SamePending-refl, Stores, Agrees, record-Stores}

module _ {E : Type 0} where
  pub checkpoint-Stores :
      (own : String) (d : Disk E) (next : ℕ) (state : PendingReportFile E)
      → state.version ≡ pending_report_version
      → state.identity ≡ own
      → d.checkpoint ≡ file (record state { journal_sequence = next })
      → replay_journal d.journal (record state { journal_sequence = next })
        ≡ some (record state { journal_sequence = next })
      → Stores own d next state.batch state.pending
  checkpoint-Stores own d next state v i c r = record {
    base = record state { journal_sequence = next };
    end = record state { journal_sequence = next };
    at = c;
    version = v;
    identity = i;
    replayed = r;
    sequence = refl;
    holds_batch = refl;
    holds_pending = SamePending-refl state.pending;
  }

  pub temporary-Stores :
      (own : String) (d : Disk E) (seq : ℕ) (b : Option (PendingBatch E)) (p : PendingTraffic)
      → Stores own d seq b p
      → Stores own (record d { journal = temporary ∷ d.journal }) seq b p
  unfolding replay_journal
  temporary-Stores own d seq b p k = record {
    base = k.base;
    end = k.end;
    at = k.at;
    version = k.version;
    identity = k.identity;
    replayed = k.replayed;
    sequence = k.sequence;
    holds_batch = k.holds_batch;
    holds_pending = k.holds_pending;
  }

  -- Nothing has been saved or loaded yet.
  pub record Fresh (s : PendingReportStore E) : Type 0 where
    pub saved : s.saved ≡ false
    pub failed : s.load_failed ≡ false

  -- A save that leaves the store and its disk in step, whether it was done or not.
  pub record Kept (s : PendingReportStore E) (state : PendingReportFile E) (r : Saved E)
      : Type 0 where
    pub agrees : Agrees r.store r.disk
    pub own : r.store.identity ≡ s.identity
    pub bound : r.store.journal_seq ≤ s.journal_seq + 1
    pub outcome :
        (r.done ≡ false)
        ⊎ ((r.store.last_state.batch ≡ state.batch)
            × SamePending r.store.last_state.pending state.pending)

  failing-Kept :
      (s : PendingReportStore E) (d : Disk E) (state : PendingReportFile E)
      → Agrees s d
      → Kept s state (failing s d)
  failing-Kept s d state h = record {
    agrees = h;
    own = refl;
    bound = omega arith;
    outcome = inl refl;
  }

  pub temporary-Agrees :
      (o : Outcomes E) (s : PendingReportStore E) (d : Disk E)
      → Agrees s d
      → Agrees s (with_temporary o d)
  temporary-Agrees o s d h =
      if_intro (Agrees s) o.leaves_temporary (record d { journal = temporary ∷ d.journal }) d
        (λ e. record {
          failed = h.failed;
          saved = h.saved;
          stores =
              temporary-Stores s.identity d s.journal_seq s.last_state.batch s.last_state.pending
                h.stores;
          valid = h.valid;
        })
        (λ e. h)

  commit-Kept :
      (s s' : PendingReportStore E) (d : Disk E) (state : PendingReportFile E)
      → s'.load_failed ≡ false
      → s'.identity ≡ s.identity
      → s'.journal_seq ≤ s.journal_seq + 1
      → IsPending state.pending
      → Stores s'.identity d s'.journal_seq state.batch state.pending
      → Kept s state (commit state s' d)
  commit-Kept s s' d state f i l v k = record {
    agrees = record { failed = f; saved = refl; stores = k; valid = v };
    own = i;
    bound = l;
    outcome = inr (refl, SamePending-refl state.pending);
  }

  -- A checkpoint that has been written, of something.
  written-Kept :
      (o : Outcomes E) (s : PendingReportStore E) (d : Disk E) (state : PendingReportFile E)
      → s.load_failed ≡ false
      → state.version ≡ pending_report_version
      → state.identity ≡ s.identity
      → IsPending state.pending
      → s.journal_seq + 1 < 2 ^ 64
      → o.left ≡ none
      → is_empty_state state ≡ false
      → let next = next_sequence s.journal_seq in
        Kept s state (
          clear_journal o o.left state
            (record s { journal_seq = next })
            (record d { checkpoint = file (record state { journal_sequence = next }) }))
  unfolding replay_journal
  written-Kept o s d state f v i p l left full =
      let next = next_sequence s.journal_seq in
      let here = record state { journal_sequence = next } in
      rw (left, full)
        (commit-Kept s (record s { journal_seq = next })
          (record { checkpoint = file here; journal = [] }) state f refl (omega arith) p
          (checkpoint-Stores s.identity _ next state v i refl refl))

module _ {E : Type 0} (same_hash : PendingReportFile E → PendingReportFile E → Bool)
    (same_json : Option (PendingBatch E) → Option (PendingBatch E) → Bool)
    (hash_lem : (a b : PendingReportFile E)
      → same_hash a b ≡ true
      → (b.batch ≡ a.batch) × SamePending b.pending a.pending)
    (json_lem : (a b : Option (PendingBatch E)) → same_json a b ≡ true → a ≡ b) where
  record-Kept :
      (o : Outcomes E) (s : PendingReportStore E) (d : Disk E) (state : PendingReportFile E)
      → Agrees s d
      → IsPending state.pending
      → s.journal_seq + 1 < 2 ^ 64
      → Kept s state (save_record same_hash same_json o state s d)
  unfolding save_record
  record-Kept o s d state h p l =
      let next : next_sequence s.journal_seq ≡ s.journal_seq + 1 = omega (arith, l) in
      let r = record_of same_hash same_json state s in
      if_intro (Kept s state) (not o.writes) (failing s (with_temporary o d)) _
        (λ e. record {
          agrees = temporary-Agrees o s d h;
          own = refl;
          bound = omega arith;
          outcome = inl refl;
        })
        (λ e.
          commit-Kept s (record s { journal_seq = next_sequence s.journal_seq })
            (record d { journal = put_entry (next_sequence s.journal_seq) r d.journal }) state
            h.failed refl (omega arith) p
            (subst
              (λ n.
                Stores s.identity (record d { journal = put_entry n r d.journal }) n state.batch
                  state.pending)
              (sym next) (record-Stores same_hash same_json json_lem s d state h p l)))

  -- What is asked of a save: counters, something to save, no wrap of the numbers, and that a removal of
  -- the journal, where there is one, succeeds.
  pub record Asked (o : Outcomes E) (s : PendingReportStore E) (state : PendingReportFile E)
      : Type 0 where
    pub valid : IsPending state.pending
    pub full : is_empty_state state ≡ false
    pub left : o.left ≡ none
    pub fits : s.journal_seq + 1 < 2 ^ 64
    pub version : state.version ≡ pending_report_version
    pub own : state.identity ≡ s.identity

  pub saved-Kept :
      (o : Outcomes E) (s : PendingReportStore E) (d : Disk E) (state : PendingReportFile E)
      → Asked o s state
      → Agrees s d
      → Kept s state (save_state same_hash same_json o state s d)
  unfolding save_state save_checkpoint
  saved-Kept o s d state a h =
      if_intro (Kept s state) s.load_failed (failing s d) _ (λ e. failing-Kept s d state h)
        (λ e.
          if_intro (Kept s state) (s.saved && same_hash state s.last_state) _ _
            (λ same. record {
              agrees = h;
              own = refl;
              bound = omega arith;
              outcome = inr (hash_lem state s.last_state (ground (arith, same)));
            })
            (λ other.
              if_intro (Kept s state) (not o.makes) (failing s d) _ (λ m. failing-Kept s d state h)
                (λ m.
                  if_intro (Kept s state)
                    (not s.saved || s.journal_seq % 128 == 127 || is_empty_state state) _ _
                    (λ c.
                      if_intro (Kept s state) (not o.writes) (failing s d) _
                        (λ w. failing-Kept s d state h)
                        (λ w.
                          written-Kept o s d state h.failed a.version a.own a.valid a.fits a.left
                            a.full))
                    (λ c. record-Kept o s d state h a.valid a.fits))))

  pub Fresh-Kept :
      (o : Outcomes E) (s : PendingReportStore E) (d : Disk E) (state : PendingReportFile E)
      → Asked o s state
      → Fresh s
      → let r = save_state same_hash same_json o state s d in
        ((r.store ≡ s) × (r.done ≡ false)) ⊎ Kept s state r
  unfolding save_state save_checkpoint
  Fresh-Kept o s d state a h =
      let P = λ (r : Saved E). ((r.store ≡ s) × (r.done ≡ false)) ⊎ Kept s state r in
      if_intro P s.load_failed (failing s d) _ (λ e. inl (refl, refl))
        (λ e.
          if_intro P (s.saved && same_hash state s.last_state) _ _
            (λ same. absurd (ground (arith, same, h.saved)))
            (λ other.
              if_intro P (not o.makes) (failing s d) _ (λ m. inl (refl, refl))
                (λ m.
                  if_intro P (not s.saved || s.journal_seq % 128 == 127 || is_empty_state state) _ _
                    (λ c.
                      if_intro P (not o.writes) (failing s d) _ (λ w. inl (refl, refl))
                        (λ w. inr (
                          written-Kept o s d state h.failed a.version a.own a.valid a.fits a.left
                            a.full)))
                    (λ c. absurd (ground (arith, c, h.saved))))))
