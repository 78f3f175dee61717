-- ===== src/DeviceGate/Permitted.antt =====
-- Permits, sessions and admissions only bring the gate forward.
use yz_agent.Prelude.{
  inl, inr, Option-cases, ℕ, ◌+◌, ◌≡◌, refl, String, Bool, true, false, not, ◌&&◌, ◌||◌, ◌==◌,
  nat_eq, string_eq, ltb, if◌then◌else◌, Option, none, some, lookup, insert, arith,
}
use yz_agent.DeviceGate.Types.{
  SourceKey, SourceState, Permit, Flight, Snapshot, Manager, is_empty, lacks, source_of,
  update_source, key_eq,
}
use yz_agent.DeviceGate.Lease.{
  GateError, session_lost, snapshot_required, not_ready, source_revoked, invalid, cancelled,
  transport, not_admitted,
}
use yz_agent.DeviceGate.Permits.{
  with_permit, permit_locked, bind, is_open, is_place, without_permit, leave_source, release,
  touched, at_its_key, new_connection, Acquired, refused_with, join, serves, enter, acquire, left,
  leave_flight, leave, freed, Claimed, again, claimed, claim,
}
use yz_agent.DeviceGate.Session.{
  BeginReply, begin_end, snapshot, confirm_snapshot, lose_session, stop_start, note_error,
}
use yz_agent.DeviceGate.Grows.{
  update_source_lem, Grows, Grows-refl, Grows-trans, branch-Grows, choice-Grows, steady-Grows,
  update-Grows, permit-Grows,
}
use yz_agent.DeviceGate.Revoked.{remove_source-Grows, close_all-Grows}

module _ {bound : ℕ} {same : Bool} where
  pub permit_locked-Grows : (now n : ℕ) (m : Manager) → Grows bound same m (permit_locked now n m).0
  unfolding permit_locked
  permit_locked-Grows now n m =
      let m1 = update_source n (with_permit now (m.seq + 1) m.next) m in
      let first : Grows bound same m m1 =
        update-Grows n (with_permit now (m.seq + 1) m.next) m (λ s h. h) (λ s h. h) in
      let (q, x) = update_source_lem n (with_permit now (m.seq + 1) m.next) m in
      Grows-trans first (
        permit-Grows m.next
          (record { source = n; closing = false; bound = false; released = false }) m1
          (permit_locked now n m).0 (omega (arith, q)) (omega (arith, x))
          (λ k l h. absurd (omega (arith, l, x))) refl refl refl (λ h. h))

  permit_kept-Grows :
      (p : ℕ) (q r : Permit) (m : Manager)
      → lookup p m.permit_heap ≡ some q
      → r.source ≡ q.source
      → Grows bound same m (record m { permit_heap = insert p r m.permit_heap })
  permit_kept-Grows p q r m e o =
      permit-Grows p r m (record m { permit_heap = insert p r m.permit_heap }) (omega arith)
        (omega arith) (λ n l h. let k : some q.source ≡ some n = rw e at h in cc) refl refl refl
        (λ h. h)

  pub bind-Grows :
      (p : ℕ) (has_close : Bool) (m : Manager) → Grows bound same m (bind p has_close m).0
  unfolding bind
  bind-Grows p has_close m = elim (Option-cases (lookup p m.permit_heap)) [
    | inl e ↦ rw e (Grows-refl m)
    | inr (q, e) ↦
        let r : Permit = record q { bound = has_close } in
        rw e (
          choice-Grows (q.closing || q.released) (m, has_close)
            (record m { permit_heap = insert p r m.permit_heap }, false) (Grows-refl m)
            (permit_kept-Grows p q r m e refl))
  ]

  leave_source-Grows :
      (now n : ℕ) (found : Option SourceState) (m : Manager)
      → Grows bound same m (leave_source now n found m)
  leave_source-Grows now n none m = Grows-refl m
  leave_source-Grows now n (some s) m =
      branch-Grows
        (is_empty s.permits
          && is_place n (lookup s.key m.sources)
          && (not m.lease_cache || s.revoked || m.closing || not (ltb now s.deadline)))
        (remove_source-Grows s m) (Grows-refl m)

  pub release-Grows : (now p : ℕ) (m : Manager) → Grows bound same m (release now p m)
  unfolding release
  release-Grows now p m = elim (Option-cases (lookup p m.permit_heap)) [
    | inl e ↦ rw e (Grows-refl m)
    | inr (q, e) ↦
        let r : Permit = record q { released = true } in
        let m0 = record m { permit_heap = insert p r m.permit_heap } in
        let m1 = update_source q.source (without_permit p) m0 in
        rw e (
          branch-Grows q.released (Grows-refl m) (
            Grows-trans (permit_kept-Grows p q r m e refl) (
              Grows-trans (update-Grows q.source (without_permit p) m0 (λ s h. h) (λ s h. h))
                (leave_source-Grows now q.source (lookup q.source m1.source_heap) m1))))
  ]

  touched-Grows :
      (now n : ℕ) (m : Manager)
      → Grows bound same m
          (record (update_source n (touched now (m.seq + 1)) m) { seq = m.seq + 1 })
  touched-Grows now n m =
      let m1 = update_source n (touched now (m.seq + 1)) m in
      let first : Grows bound same m m1 =
        update-Grows n (touched now (m.seq + 1)) m (λ s h. h) (λ s h. h) in
      let (q, x) = update_source_lem n (touched now (m.seq + 1)) m in
      Grows-trans first (
        steady-Grows m1 (record m1 { seq = m.seq + 1 }) (omega (arith, q)) (omega arith) refl refl
          refl (λ h. h))

  pub new_connection-Grows :
      (now p : ℕ) (m : Manager) → Grows bound same m (new_connection now p m).0
  unfolding new_connection
  new_connection-Grows now p m = elim (Option-cases (lookup p m.permit_heap)) [
    | inl e ↦ rw e (Grows-refl m)
    | inr (q, e) ↦
        let found = lookup q.source m.source_heap in
        rw e (
          choice-Grows
            (not (q.closing || q.released)
              && is_open now m.lease_cache found
              && at_its_key q.source found m)
            (record (update_source q.source (touched now (m.seq + 1)) m) { seq = m.seq + 1 }, true)
            (m, false) (touched-Grows now q.source m) (Grows-refl m))
  ]

  join-Grows : (key : SourceKey) (m : Manager) → Grows bound same m (join key m).0
  unfolding join
  join-Grows key m =
      steady-Grows m (join key m).0 (ground arith) (omega arith) refl refl refl (λ h. h)

  enter-Grows :
      (now : ℕ) (key : SourceKey) (place : Option ℕ) (m : Manager)
      → Grows bound same m (enter now key place m).0
  enter-Grows now key (some n) m = permit_locked-Grows now n m
  enter-Grows now key none m = join-Grows key m

  pub acquire-Grows :
      (now : ℕ) (ended stopped : Bool) (key : SourceKey) (m : Manager)
      → Grows bound same m (acquire now ended stopped key m).0
  unfolding acquire
  acquire-Grows now ended stopped key m =
      let entered = enter now key (serves now m.lease_cache (source_of key m)) m in
      let last : Manager × Acquired =
        if lacks key.user m.users then (m, refused_with source_revoked) else entered in
      let rest : Manager × Acquired =
        if not m.ready || m.closing || stopped then (m, refused_with not_ready) else last in
      choice-Grows ended (m, refused_with cancelled) rest (Grows-refl m)
        (choice-Grows (not m.ready || m.closing || stopped) (m, refused_with not_ready) last
          (Grows-refl m)
          (choice-Grows (lacks key.user m.users) (m, refused_with source_revoked) entered
            (Grows-refl m) (enter-Grows now key (serves now m.lease_cache (source_of key m)) m)))

  leave_flight-Grows :
      (key : SourceKey) (sequence w : ℕ) (found : Option Flight) (m : Manager)
      → Grows bound same m (leave_flight key sequence w found m)
  leave_flight-Grows key sequence w none m = Grows-refl m
  leave_flight-Grows key sequence w (some f) m =
      branch-Grows (f.sequence == sequence)
        (steady-Grows m (record m { flights = insert key (left w f) m.flights }) (omega arith)
          (omega arith) refl refl refl (λ h. h))
        (Grows-refl m)

  pub leave-Grows :
      (key : SourceKey) (sequence w : ℕ) (m : Manager) → Grows bound same m (leave key sequence w m)
  unfolding leave
  leave-Grows key sequence w m = leave_flight-Grows key sequence w (lookup key m.flights) m

  freed-Grows : (now : ℕ) (p : Option ℕ) (m : Manager) → Grows bound same m (freed now p m)
  freed-Grows now none m = Grows-refl m
  freed-Grows now (some p) m = release-Grows now p m

  pub claim-Grows :
      (now : ℕ) (ended stopped abandoned : Bool) (p : Option ℕ) (err : Option GateError)
      (m : Manager)
      → Grows bound same m (claim now ended stopped abandoned p err m).0
  unfolding claim
  claim-Grows now ended stopped abandoned p err m =
      let last : Manager × Claimed = if abandoned then (m, again) else (m, claimed p err) in
      let rest : Manager × Claimed =
        if m.closing || stopped then (freed now p m, claimed none (some not_ready)) else last in
      choice-Grows ended (freed now p m, claimed none (some cancelled)) rest (freed-Grows now p m)
        (choice-Grows (m.closing || stopped) (freed now p m, claimed none (some not_ready)) last
          (freed-Grows now p m)
          (choice-Grows abandoned (m, again) (m, claimed p err) (Grows-refl m) (Grows-refl m)))

  pub begin_end-Grows :
      (run : String) (reply : BeginReply) (m : Manager)
      → Grows bound same m (begin_end run reply m).0
  unfolding begin_end
  begin_end-Grows run reply m =
      let m1 = record m { ready = not m.closing; lease_cache = reply.lease_cache == 1 } in
      choice-Grows (not (reply.version == 1) || not (reply.run == run)) (m, some invalid) (m1, none)
        (Grows-refl m) (steady-Grows m m1 (omega arith) (omega arith) refl refl refl (λ h. h))

  pub snapshot-Grows : (now : ℕ) (m : Manager) → Grows bound same m (snapshot now m).0
  unfolding snapshot
  snapshot-Grows now m =
      steady-Grows m (snapshot now m).0 (omega arith) (omega arith) refl refl refl (λ h. h)

  pub confirm_snapshot-Grows :
      (snap : Snapshot) (user : ℕ) (m : Manager) → Grows bound same m (confirm_snapshot snap user m)
  unfolding confirm_snapshot
  confirm_snapshot-Grows snap user m =
      branch-Grows (not m.ready || not (m.run == snap.run)) (Grows-refl m)
        (steady-Grows m _ (omega arith) (omega arith) refl refl refl (λ h. h))

  pub lose_session-Grows : (run : String) (m : Manager) → Grows bound same m (lose_session run m)
  unfolding lose_session
  lose_session-Grows run m =
      let m1 = record m { ready = false; run = ""; synced = 0 } in
      branch-Grows (m.run == run)
        (Grows-trans (steady-Grows m m1 (omega arith) (omega arith) refl refl refl (λ h. h))
          (close_all-Grows m1))
        (Grows-refl m)

  pub stop_start-Grows : (m : Manager) → Grows bound same m (stop_start m)
  unfolding stop_start
  stop_start-Grows m =
      steady-Grows m (stop_start m) (omega arith) (omega arith) refl refl refl (λ h. refl)

  pub note_error-Grows :
      (e : GateError) (run : String) (m : Manager) → Grows bound same m (note_error e run m)
  unfolding note_error
  note_error-Grows session_lost run m = lose_session-Grows run m
  note_error-Grows snapshot_required run m = Grows-refl m
  note_error-Grows not_ready run m = Grows-refl m
  note_error-Grows source_revoked run m = Grows-refl m
  note_error-Grows invalid run m = Grows-refl m
  note_error-Grows cancelled run m = Grows-refl m
  note_error-Grows transport run m = Grows-refl m
  note_error-Grows not_admitted run m = Grows-refl m
