-- ===== src/Pending/Durable.antt =====
-- A save that is cut short anywhere.
use yz_agent.Prelude.{
  if_intro, ℕ, ◌+◌, ◌%◌, ◌^◌, ◌≤◌, ◌<◌, ◌≡◌, ◌⊎◌, refl, sym, subst, String, Bool, true, not, ◌&&◌,
  ◌||◌, [], ◌==◌, nat_eq, string_eq, Option, none, some, select, arith, inl, inr,
}
use yz_agent.Pending.Delta.{PendingTraffic, nothing, is_nothing}
use yz_agent.Pending.Users.{IsPending, SamePending}
use yz_agent.Pending.Disk.{
  PendingBatch, PendingReportFile, missing, file, Entry, Disk, next_sequence, put_entry,
  replay_journal,
}
use yz_agent.Pending.Store.{
  PendingReportStore, Outcomes, Saved, filled_batch, state_of, is_empty_state, clear_journal,
  save_checkpoint, with_temporary, record_of, save_record, save_state, save, load,
  pending_report_version,
}
use yz_agent.Pending.Replay.{IsRead-All, replay_journal-IsRead, replay_journal-select}
use yz_agent.Pending.Recover.{
  SamePending-refl, Stores, Agrees, Recovers, Stores-Recovers, record-Stores,
}
use yz_agent.Pending.Saves.{checkpoint-Stores, temporary-Agrees}

nothing_lem : (p : PendingTraffic) → is_nothing p ≡ true → SamePending nothing p
unfolding is_nothing
nothing_lem p h =
    let e : p ≡ nothing = ground (arith, h) in
    subst (λ q. SamePending nothing q) (sym e) (SamePending-refl nothing)

module _ {E : Type 0} where
  select-Stores :
      (own : String) (d : Disk E) (seq next : ℕ) (b : Option (PendingBatch E)) (p : PendingTraffic)
      (state : PendingReportFile E) (left : Entry E → Bool)
      → Stores own d seq b p
      → seq ≤ next
      → state.version ≡ pending_report_version
      → state.identity ≡ own
      → Stores own
          (record {
            checkpoint = file (record state { journal_sequence = next });
            journal = select left d.journal;
          })
          next
          state.batch
          state.pending
  select-Stores own d seq next b p state left k l v i =
      let read = (replay_journal-IsRead d.journal k.base k.end k.replayed).1 in
      checkpoint-Stores own _ next state v i refl (
        replay_journal-select left d.journal (record state { journal_sequence = next })
          (IsRead-All d.journal k.end.journal_sequence next (omega (arith, k.sequence, l)) read))

  nil_replay : (f : PendingReportFile E) → replay_journal [] f ≡ some f
  unfolding replay_journal
  nil_replay f = refl

  -- Either the state before, or the new one.
  abbrev pub RecoversEither : PendingReportStore E → PendingReportFile E → Disk E → Type 0
  RecoversEither s state d =
      Recovers s.identity d s.last_state.batch s.last_state.pending
      ⊎ Recovers s.identity d state.batch state.pending

  missing-Recovers :
      (own : String) (state : PendingReportFile E)
      → is_empty_state state ≡ true
      → Recovers own (record { checkpoint = missing; journal = [] }) state.batch state.pending
  unfolding load
  missing-Recovers own state h =
      let b : state.batch ≡ none = ground (arith, h) in
      (nothing, rw b refl, nothing_lem state.pending (ground (arith, h)))

  clear-Recovers :
      (o : Outcomes E) (left : Option (Entry E → Bool)) (s : PendingReportStore E) (d : Disk E)
      (state : PendingReportFile E)
      → Agrees s d
      → state.version ≡ pending_report_version
      → state.identity ≡ s.identity
      → s.journal_seq + 1 < 2 ^ 64
      → let next = next_sequence s.journal_seq in
        Recovers s.identity
          (clear_journal o left state
            (record s { journal_seq = next })
            (record d { checkpoint = file (record state { journal_sequence = next }) })).disk
          state.batch
          state.pending
  clear-Recovers o (some left) s d state h v i l =
      Stores-Recovers s.identity _ (next_sequence s.journal_seq) state.batch state.pending (
        select-Stores s.identity d s.journal_seq (next_sequence s.journal_seq) s.last_state.batch
          s.last_state.pending state left h.stores (omega (arith, l)) v i)
  clear-Recovers o none s d state h v i l =
      let next = next_sequence s.journal_seq in
      let here = record state { journal_sequence = next } in
      let whole : Recovers s.identity (record { checkpoint = file here; journal = [] }) state.batch
          state.pending =
        Stores-Recovers s.identity _ next state.batch state.pending
          (checkpoint-Stores s.identity _ next state v i refl (nil_replay here)) in
      if_intro (λ (r : Saved E). Recovers s.identity r.disk state.batch state.pending)
        (is_empty_state state) _ _
        (λ e.
          if_intro (λ (r : Saved E). Recovers s.identity r.disk state.batch state.pending) o.unlinks
            _ _ (λ u. missing-Recovers s.identity state e) (λ u. whole))
        (λ e. whole)

  old-Recovers :
      (s : PendingReportStore E) (d : Disk E)
      → Agrees s d
      → Recovers s.identity d s.last_state.batch s.last_state.pending
  old-Recovers s d h =
      Stores-Recovers s.identity d s.journal_seq s.last_state.batch s.last_state.pending h.stores

module _ {E : Type 0} (same_hash : PendingReportFile E → PendingReportFile E → Bool)
    (same_json : Option (PendingBatch E) → Option (PendingBatch E) → Bool)
    (json_lem : (a b : Option (PendingBatch E)) → same_json a b ≡ true → a ≡ b) where
  -- A save that is cut short at any step, or in which any call of the file system fails, leaves what a
  -- restart recovers in full: the batch and the traffic of the last save, or those of the new one.
  pub save_atomic :
      (o : Outcomes E) (batch : Option (PendingBatch E)) (pending : PendingTraffic)
      (s : PendingReportStore E) (d : Disk E)
      → Agrees s d
      → IsPending pending
      → s.journal_seq + 1 < 2 ^ 64
      → Recovers s.identity
          (save same_hash same_json o batch pending s d).disk
          s.last_state.batch
          s.last_state.pending
        ⊎ Recovers s.identity
            (save same_hash same_json o batch pending s d).disk
            (filled_batch batch)
            pending
  unfolding save save_state save_checkpoint save_record
  save_atomic o batch pending s d h p l =
      let state = state_of s.identity (filled_batch batch) pending in
      let P = λ (r : Saved E). RecoversEither s state r.disk in
      let old = old-Recovers s d h in
      let next : next_sequence s.journal_seq ≡ s.journal_seq + 1 = omega (arith, l) in
      let r = record_of same_hash same_json state s in
      if_intro P s.load_failed _ _ (λ e. inl old)
        (λ e.
          if_intro P (s.saved && same_hash state s.last_state) _ _ (λ e. inl old)
            (λ e.
              if_intro P (not o.makes) _ _ (λ e. inl old)
                (λ e.
                  if_intro P (not s.saved || s.journal_seq % 128 == 127 || is_empty_state state) _ _
                    (λ c.
                      if_intro P (not o.writes) _ _ (λ w. inl old)
                        (λ w. inr (clear-Recovers o o.left s d state h refl refl l)))
                    (λ c.
                      if_intro P (not o.writes) _ _
                        (λ w. inl (old-Recovers s (with_temporary o d) (temporary-Agrees o s d h)))
                        (λ w. inr (
                          Stores-Recovers s.identity _ (next_sequence s.journal_seq) state.batch
                            state.pending
                            (subst
                              (λ n.
                                Stores s.identity (record d { journal = put_entry n r d.journal }) n
                                  state.batch state.pending)
                              (sym next)
                              (record-Stores same_hash same_json json_lem s d state h p l))))))))
