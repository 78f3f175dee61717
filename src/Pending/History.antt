-- ===== src/Pending/History.antt =====
-- Any number of saves by a store that starts anew.
use yz_agent.Prelude.{
  ℕ, ◌+◌, ◌^◌, ◌≤◌, ◌<◌, ◌≡◌, ◌⊎◌, refl, sym, ap, subst, ◌∙◌, String, Bool, true, false, ◌&&◌, List,
  [], ◌∷◌, nat_eq, string_eq, Option, none, All, length, arith, inl, inr,
}
use yz_agent.Pending.Delta.{PendingTraffic, is_nothing}
use yz_agent.Pending.Users.{IsPending, SamePending}
use yz_agent.Pending.Disk.{PendingBatch, PendingReportFile, Disk}
use yz_agent.Pending.Store.{
  PendingReportStore, Outcomes, Saved, new_store, filled_batch, is_none, state_of, save_state, save,
}
use yz_agent.Pending.Recover.{SamePending-trans, Agrees, Recovers, Stores-Recovers}
use yz_agent.Pending.Cleared.{IsGood, save_succeeds}
use yz_agent.Pending.Saves.{Kept, Asked, saved-Kept, Fresh, Fresh-Kept}

-- A save that is attempted, and what the calls of the file system do.
pub record Attempt (E : Type 0) : Type 0 where
  pub outcomes : Outcomes E
  pub batch : Option (PendingBatch E)
  pub pending : PendingTraffic

-- Counters, something to save, and no removal of the journal that fails.
pub record IsAttempt {E : Type 0} (a : Attempt E) : Type 0 where
  pub valid : IsPending a.pending
  pub full : (is_none (filled_batch a.batch) && is_nothing a.pending) ≡ false
  pub left : a.outcomes.left ≡ none

module _ {E : Type 0} (same_hash : PendingReportFile E → PendingReportFile E → Bool)
    (same_json : Option (PendingBatch E) → Option (PendingBatch E) → Bool) where
  abbrev pub attempt : Attempt E → PendingReportStore E → Disk E → Saved E
  attempt a s d = save same_hash same_json a.outcomes a.batch a.pending s d

  -- The saves, one after the other.
  unfoldable pub attempts :
      List (Attempt E) → PendingReportStore E → Disk E → PendingReportStore E × Disk E
  attempts [] s d = (s, d)
  attempts (a ∷ rest) s d = let r = attempt a s d in attempts rest r.store r.disk

  -- The saves, and one more.
  abbrev pub history : List (Attempt E) → Attempt E → String → Disk E → Saved E
  history calls last own d = let (s, d') = attempts calls (new_store own) d in attempt last s d'

  module _
      (hash_lem : (a b : PendingReportFile E)
        → same_hash a b ≡ true
        → (b.batch ≡ a.batch) × SamePending b.pending a.pending)
      (json_lem : (a b : Option (PendingBatch E)) → same_json a b ≡ true → a ≡ b) where
    -- The store has saved nothing yet, or is in step with its disk.
    record Ready (own : String) (n : ℕ) (s : PendingReportStore E) (d : Disk E) : Type 0 where
      identity : s.identity ≡ own
      bound : s.journal_seq ≤ n
      state : Fresh s ⊎ Agrees s d

    recovered-Kept :
        (own : String) (s : PendingReportStore E) (r : Saved E) (state : PendingReportFile E)
        → s.identity ≡ own
        → Kept s state r
        → (r.done ≡ false) ⊎ Recovers own r.disk state.batch state.pending
    recovered-Kept own s r state i k = elim k.outcome [
      | inl e ↦ inl e
      | inr (b, same) ↦
          let last = r.store.last_state in
          let (q, loads, right) =
            Stores-Recovers r.store.identity r.disk r.store.journal_seq last.batch last.pending
              k.agrees.stores in
          let whole : Recovers r.store.identity r.disk state.batch state.pending =
            subst (λ x. Recovers r.store.identity r.disk x state.pending) b
              (q, loads, SamePending-trans q last.pending state.pending right same) in
          inr (subst (λ x. Recovers x r.disk state.batch state.pending) (k.own ∙ i) whole)
    ]

    Kept-Ready :
        (own : String) (n : ℕ) (s : PendingReportStore E) (r : Saved E)
        (state : PendingReportFile E)
        → s.identity ≡ own
        → s.journal_seq ≤ n
        → Kept s state r
        → Ready own (n + 1) r.store r.disk
          × ((r.done ≡ false) ⊎ Recovers own r.disk state.batch state.pending)
    Kept-Ready own n s r state i b k = (
      record { identity = k.own ∙ i; bound = omega (arith, k.bound, b); state = inr k.agrees },
      recovered-Kept own s r state i k,
    )

    attempt-Kept :
        (a : Attempt E) (own : String) (n : ℕ) (s : PendingReportStore E) (d : Disk E)
        → IsAttempt a
        → n + 1 < 2 ^ 64
        → Ready own n s d
        → Ready own (n + 1) (attempt a s d).store (attempt a s d).disk
          × (((attempt a s d).done ≡ false)
              ⊎ Recovers own (attempt a s d).disk (filled_batch a.batch) a.pending)
    unfolding save
    attempt-Kept a own n s d i l h =
        let state = state_of s.identity (filled_batch a.batch) a.pending in
        let r = save_state same_hash same_json a.outcomes state s d in
        let asked : Asked same_hash same_json hash_lem json_lem a.outcomes s state = record {
          valid = i.valid;
          full = i.full;
          left = i.left;
          fits = omega (arith, l, h.bound);
          version = refl;
          own = refl;
        } in
        let kept = Kept-Ready own n s r state h.identity h.bound in
        elim h.state [
          | inr agrees ↦
              kept
                (saved-Kept same_hash same_json hash_lem json_lem a.outcomes s d state asked agrees)
          | inl fresh ↦
              elim (Fresh-Kept same_hash same_json hash_lem json_lem a.outcomes s d state asked
                fresh) [
                  | inr k ↦ kept k
                  | inl (same, undone) ↦ (
                    record {
                      identity = ap (λ x. x.identity) same ∙ h.identity;
                      bound = omega (arith, h.bound, ap (λ x. x.journal_seq) same);
                      state = inl (subst (λ x. Fresh x) (sym same) fresh);
                    },
                    inl undone,
                  )
                ]
        ]

    Ready-load_failed :
        (own : String) (n : ℕ) (s : PendingReportStore E) (d : Disk E)
        → Ready own n s d
        → s.load_failed ≡ false
    Ready-load_failed own n s d h = elim h.state [
      | inl fresh ↦ fresh.failed
      | inr agrees ↦ agrees.failed
    ]

    attempts-Ready :
        (calls : List (Attempt E)) (own : String) (n : ℕ) (s : PendingReportStore E) (d : Disk E)
        → All IsAttempt calls
        → n + length calls < 2 ^ 64
        → Ready own n s d
        → Ready own (n + length calls) (attempts calls s d).0 (attempts calls s d).1
    unfolding attempts
    attempts-Ready [] own n s d i l h = record {
      identity = h.identity;
      bound = omega (arith, h.bound);
      state = h.state;
    }
    attempts-Ready (a ∷ calls) own n s d (i, is) l h =
        let r = attempt a s d in
        let rest =
          attempts-Ready calls own (n + 1) r.store r.disk is (omega (arith, l))
            (attempt-Kept a own n s d i (omega (arith, l)) h).0 in
        record { identity = rest.identity; bound = omega (arith, rest.bound); state = rest.state }

    start : (own : String) (d : Disk E) → Ready own 0 (new_store own) d
    start own d = record {
      identity = refl;
      bound = omega arith;
      state = inl (record { saved = refl; failed = refl });
    }

    -- Of a store that starts anew and saves something each time, whatever other calls of the file system
    -- fail: after a save that reports success, a restart recovers its batch and its traffic.
    pub history-Recovers :
        (calls : List (Attempt E)) (last : Attempt E) (own : String) (d : Disk E)
        → All IsAttempt calls
        → IsAttempt last
        → length calls + 1 < 2 ^ 64
        → (history calls last own d).done ≡ true
        → Recovers own (history calls last own d).disk (filled_batch last.batch) last.pending
    history-Recovers calls last own d i j l done =
        let (s, d') = attempts calls (new_store own) d in
        let ready =
          attempts-Ready calls own 0 (new_store own) d i (omega (arith, l)) (start own d) in
        elim (attempt-Kept last own (0 + length calls) s d' j (omega (arith, l)) ready).1 [
          | inl undone ↦ absurd (cc (done, undone))
          | inr whole ↦ whole
        ]

    -- Of a store that starts anew and saves something each time, fewer than 2 ^ 64 times, with no
    -- removal of the journal that fails, whatever other calls of the file system failed before: a
    -- save for which every call succeeds reports success, and a restart recovers its batch and its
    -- traffic.
    pub history-succeeds :
        (calls : List (Attempt E)) (last : Attempt E) (own : String) (d : Disk E)
        → All IsAttempt calls
        → IsAttempt last
        → length calls + 1 < 2 ^ 64
        → IsGood last.outcomes
        → ((history calls last own d).done ≡ true)
          × Recovers own (history calls last own d).disk (filled_batch last.batch) last.pending
    history-succeeds calls last own d i j l good =
        let (s, d') = attempts calls (new_store own) d in
        let ready =
          attempts-Ready calls own 0 (new_store own) d i (omega (arith, l)) (start own d) in
        let done =
          save_succeeds same_hash same_json last.outcomes last.batch last.pending s d' good
            (Ready-load_failed own (0 + length calls) s d' ready) in
        (done, history-Recovers calls last own d i j l done)
