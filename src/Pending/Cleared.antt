-- ===== src/Pending/Cleared.antt =====
-- Saves after the state was empty, when the checkpoint has been removed.
use yz_agent.Prelude.{
  ◌%◌, ◌≡◌, Bool, true, false, ◌&&◌, [], ◌==◌, nat_eq, string_eq, Option, none, arith,
}
use yz_agent.Pending.Delta.{PendingTraffic, nothing, is_nothing}
use yz_agent.Pending.Disk.{PendingBatch, PendingReportFile, missing, Disk, next_sequence}
use yz_agent.Pending.Store.{
  PendingReportStore, Outcomes, Saved, recovered, new_store, filled_batch, state_of, is_empty_state,
  save_checkpoint, save_record, save_state, save, load,
}

-- Every call of the file system succeeds.
pub record IsGood {E : Type 0} (o : Outcomes E) : Type 0 where
  pub makes : o.makes ≡ true
  pub writes : o.writes ≡ true
  pub left : o.left ≡ none
  pub unlinks : o.unlinks ≡ true

module _ {E : Type 0} (same_hash : PendingReportFile E → PendingReportFile E → Bool)
    (same_json : Option (PendingBatch E) → Option (PendingBatch E) → Bool) where
  -- On a store that has not failed to load, a save for which every call of the file system succeeds
  -- reports success.
  pub save_succeeds :
      (o : Outcomes E) (batch : Option (PendingBatch E)) (pending : PendingTraffic)
      (s : PendingReportStore E) (d : Disk E)
      → IsGood o
      → s.load_failed ≡ false
      → (save same_hash same_json o batch pending s d).done ≡ true
  unfolding save save_state save_checkpoint save_record
  save_succeeds o batch pending s d g f = ground (arith, g.makes, g.writes, g.left, g.unlinks, f)

  abbrev pub cleared : Outcomes E → PendingReportStore E → Disk E → Saved E
  cleared o s d = save same_hash same_json o none nothing s d

  cleared_lem :
      (o : Outcomes E) (s : PendingReportStore E) (d : Disk E)
      → IsGood o
      → s.load_failed ≡ false
      → (s.saved && same_hash (state_of s.identity none nothing) s.last_state) ≡ false
      → cleared o s d ≡ record {
        store = record s {
          last_state = state_of s.identity none nothing;
          saved = true;
          journal_seq = next_sequence s.journal_seq;
        };
        disk = record { checkpoint = missing; journal = [] };
        done = true;
      }
  unfolding save save_state save_checkpoint is_nothing
  cleared_lem o s d g f n = ground (arith, g.makes, g.writes, g.left, g.unlinks, f, n)

  -- After a save of an empty state, which removes the checkpoint, the next save of something goes to the
  -- journal alone, unless the count of saves asks for a checkpoint just then: it reports success, and a
  -- restart recovers nothing of it.
  pub save-cleared :
      (o o' : Outcomes E) (batch : Option (PendingBatch E)) (pending : PendingTraffic)
      (s : PendingReportStore E) (d : Disk E)
      → IsGood o
      → IsGood o'
      → s.load_failed ≡ false
      → (s.saved && same_hash (state_of s.identity none nothing) s.last_state) ≡ false
      → let state = state_of s.identity (filled_batch batch) pending in
        is_empty_state state ≡ false
        → same_hash state (state_of s.identity none nothing) ≡ false
        → (next_sequence s.journal_seq % 128 == 127) ≡ false
        → let r = cleared o s d in
          let r' = save same_hash same_json o' batch pending r.store r.disk in
          (r'.done ≡ true)
          × ((load true true (new_store s.identity) r'.disk).2 ≡ recovered none nothing)
  unfolding save_state save_record load
  save-cleared o o' batch pending s d g g' f n full fresh odd = rw (cleared_lem o s d g f n) (
      unfold save in
      (
        ground (arith, g'.makes, g'.writes, f, full, fresh, odd),
        ground (arith, g'.makes, g'.writes, f, full, fresh, odd),
      ))
