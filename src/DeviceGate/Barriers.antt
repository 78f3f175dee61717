-- ===== src/DeviceGate/Barriers.antt =====
-- What a revocation, the loss of a permission and a retirement mean for all that follows.
use yz_agent.Prelude.{
  ℕ, ◌+◌, ◌≤◌, ◌<◌, ◌≡◌, ◌≢◌, refl, String, true, false, List, [], ◌∷◌, nat_eq, string_eq, some,
  All, arith,
}
use yz_agent.DeviceGate.Types.{
  Revocation, Lease, SourceState, Manager, new_manager, source_of, key_eq,
}
use yz_agent.DeviceGate.Revoke.{
  lease_grace, valid_lease, key_of, remove_source, revoke_items, revoke_locked, apply_revocations,
  current_records,
}
use yz_agent.DeviceGate.Lease.{install}
use yz_agent.DeviceGate.Sync.{removed_users, set_users}
use yz_agent.DeviceGate.Permits.{valid}
use yz_agent.DeviceGate.Session.{snapshot, confirm_snapshot}
use yz_agent.DeviceGate.Grows.{revoked_at, owner_of, Grows, Grows-trans}
use yz_agent.DeviceGate.Revoked.{revoke_locked-Grows, revoke_permits-Grows}
use yz_agent.DeviceGate.Leased.{set_users-Grows}
use yz_agent.DeviceGate.Run.{
  Step, starts_session, last_sent, last_sent-Allowed, run_steps, run_steps-Grows,
  run_steps-IsBarred,
}
use yz_agent.DeviceGate.Silent.{revoked-Invalid}
use yz_agent.DeviceGate.Bars.{
  confirm_snapshot-keeps, install-refuses, is_in, record_of_source, remove_source-lookup, reported,
  revoke_item-revokes, set_users-bars, source_of-lookup,
}

module _ (public : String → String) where
  -- After ApplyRevocations of one item, with a user and a well-formed lease that its source has: no
  -- permit that the source had is ever valid again, whatever steps follow.
  pub apply_revocations-Invalid :
      (steps : List Step) (item : Revocation) (p n at now : ℕ) (s : SourceState) (m : Manager)
      → source_of (key_of item) m ≡ some (n, s)
      → s.lease ≡ item.lease
      → item.user_id ≢ 0
      → valid_lease item.lease ≡ true
      → owner_of p m ≡ some n
      → p < m.next
      → n < m.next
      → valid now p (run_steps public steps (apply_revocations at (item ∷ []) 0 "" m)) ≡ false
  unfolding apply_revocations revoke_locked revoke_items source_of
  apply_revocations-Invalid steps item p n at now s m found same user lease own lp ln =
      let m0 = record m { revoked = current_records at m.revoked } in
      let (m1, permits) = revoke_locked at (item ∷ []) 0 m in
      let m2 = apply_revocations at (item ∷ []) 0 "" m in
      let dead : revoked_at n m1 ≡ true =
        revoke_item-revokes at n item s m0 found (source_of-lookup (key_of item) n s m found) ln
          user lease same in
      let first : Grows 0 false m m1 = revoke_locked-Grows at (item ∷ []) 0 m in
      let closing : Grows 0 false m1 m2 = revoke_permits-Grows permits m1 in
      let all = Grows-trans first closing in
      revoked-Invalid public steps p n now m2 (omega (arith, lp, all.next))
        (omega (arith, ln, all.next)) (all.owner p n lp own)
        (closing.revoked n (omega (arith, ln, first.next)) dead)

  -- After any steps of a new gate, a user stops being one of the node: in the same session,
  -- whatever steps follow, no answer to a request numbered before installs a lease of theirs, even
  -- when they are a user again.
  pub set_users-install :
      (before after : List Step) (ids : List ℕ) (item : Lease) (at now deadline sequence : ℕ)
      → All (λ s. starts_session s ≡ false) after
      → is_in item.user_id (removed_users ids (run_steps public before new_manager)) ≡ true
      → sequence ≤ (run_steps public before new_manager).seq
      → let m = run_steps public after (set_users at ids (run_steps public before new_manager)) in
        install now item deadline sequence m ≡ (m, false)
  set_users-install before after ids item at now deadline sequence k i l =
      let m0 = run_steps public before new_manager in
      let m1 = set_users at ids m0 in
      let m = run_steps public after m1 in
      let bound = last_sent before + (last_sent after + lease_grace) in
      let barred =
        run_steps-IsBarred public bound false before
          (last_sent-Allowed bound false before (omega arith) (λ e. absurd (cc e))) in
      let set : Grows bound true m0 m1 = set_users-Grows at ids m0 in
      let later =
        run_steps-Grows public bound true after m1
          (last_sent-Allowed bound true after (omega arith) (λ e. k)) in
      install-refuses now item deadline sequence m (
        omega (
          arith,
          l,
          set_users-bars at ids item.user_id m0 barred i,
          later.barriers refl (set.bars barred) item.user_id,
        ))

  -- A source with a run, removed after a snapshot was taken and whatever steps came between, is
  -- still to be reported, as it was, when the panel confirms that snapshot.
  pub confirm_snapshot-reported :
      (steps : List Step) (s : SourceState) (now user : ℕ) (m : Manager)
      → s.run ≢ ""
      → reported s.lease (
          confirm_snapshot
            (snapshot now m).1
            user
            (remove_source s (run_steps public steps (snapshot now m).0)))
        ≡ some (record {
          run = s.run;
          confirmed_sequence = s.lease_sequence;
          user_id = s.key.user;
          ip = s.key.ip;
          lease = s.lease;
        })
  unfolding snapshot
  confirm_snapshot-reported steps s now user m h =
      let (m1, snap) = snapshot now m in
      let m2 = run_steps public steps m1 in
      let r = record_of_source s (m2.seq + 1) in
      let bound = last_sent steps + lease_grace in
      let g =
        run_steps-Grows public bound false steps m1
          (last_sent-Allowed bound false steps (omega arith) (λ e. absurd (cc e))) in
      let kept =
        confirm_snapshot-keeps snap user s.lease r (remove_source s m2)
          (remove_source-lookup s m2 h) (omega (arith, g.seq)) in
      rw kept refl
