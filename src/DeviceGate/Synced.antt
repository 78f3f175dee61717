-- ===== src/DeviceGate/Synced.antt =====
-- A synchronisation only brings the gate forward.
use yz_agent.Prelude.{
  ℕ, ◌+◌, ◌≤◌, refl, String, Bool, not, ◌||◌, ◌==◌, nat_eq, string_eq, if◌then◌else◌, Option, none,
  some, arith,
}
use yz_agent.DeviceGate.Types.{Snapshot, Manager, key_eq}
use yz_agent.DeviceGate.Revoke.{lease_grace, apply_revocations}
use yz_agent.DeviceGate.Lease.{
  GateError, session_lost, snapshot_required, not_ready, source_revoked, invalid, cancelled,
  transport, not_admitted,
}
use yz_agent.DeviceGate.Sync.{SyncReply, accept_leases}
use yz_agent.DeviceGate.Session.{
  confirm_snapshot, Answer, failed_with, answered, note_error, forget_base, leases_of,
  sync_confirmed, sync_end,
}
use yz_agent.DeviceGate.Grows.{
  Grows, Grows-refl, Grows-trans, branch-Grows, choice-Grows, steady-Grows,
}
use yz_agent.DeviceGate.Revoked.{apply_revocations-Grows}
use yz_agent.DeviceGate.Leased.{accept_leases-Grows}
use yz_agent.DeviceGate.Permitted.{confirm_snapshot-Grows, note_error-Grows}

module _ {bound : ℕ} {same : Bool} where
  forget_base-Grows : (e : GateError) (m : Manager) → Grows bound same m (forget_base e m)
  forget_base-Grows session_lost m =
      steady-Grows m (forget_base session_lost m) (omega arith) (omega arith) refl refl refl
        (λ h. h)
  forget_base-Grows snapshot_required m = Grows-refl m
  forget_base-Grows not_ready m = Grows-refl m
  forget_base-Grows source_revoked m = Grows-refl m
  forget_base-Grows invalid m = Grows-refl m
  forget_base-Grows cancelled m = Grows-refl m
  forget_base-Grows transport m = Grows-refl m
  forget_base-Grows not_admitted m = Grows-refl m

  leases_of-Grows :
      (public : String → String) (now : ℕ) (reply : SyncReply) (started : ℕ) (snap : Snapshot)
      (m : Manager)
      → started + lease_grace ≤ bound
      → Grows bound same m (leases_of public now reply started snap m).0
  leases_of-Grows public now reply started snap m l =
      let taken = accept_leases public now reply snap.sequence started m in
      choice-Grows snap.lease_cache (if reply.lease_cache then taken else (m, some invalid))
        (m, none)
        (choice-Grows reply.lease_cache taken (m, some invalid)
          (accept_leases-Grows public now reply snap.sequence started m l) (Grows-refl m))
        (Grows-refl m)

  sync_confirmed-Grows :
      (now : ℕ) (snap wire : Snapshot) (reply : SyncReply) (m : Manager) (err : Option GateError)
      → Grows bound same m (sync_confirmed now snap wire reply (m, err)).0
  sync_confirmed-Grows now snap wire reply m (some e) = Grows-refl m
  sync_confirmed-Grows now snap wire reply m none =
      let m1 = record m {
        confirmed = some snap;
        base_sequence = if wire.unchanged then m.base_sequence else snap.sequence;
      } in
      let m2 = confirm_snapshot snap 0 m1 in
      let confirmed : Grows bound same m m2 =
        Grows-trans (steady-Grows m m1 (omega arith) (omega arith) refl refl refl (λ h. h))
          (confirm_snapshot-Grows snap 0 m1) in
      branch-Grows snap.lease_cache confirmed
        (Grows-trans confirmed (apply_revocations-Grows now reply.revoked 0 "" m2))

  pub sync_end-Grows :
      (public : String → String) (now started : ℕ) (ended : Bool) (snap wire : Snapshot)
      (answer : Answer SyncReply) (m : Manager)
      → started + lease_grace ≤ bound
      → Grows bound same m (sync_end public now started ended snap wire answer m).0
  unfolding sync_end
  sync_end-Grows public now started ended snap wire (failed_with e) m l =
      Grows-trans (note_error-Grows e snap.run m) (forget_base-Grows e (note_error e snap.run m))
  sync_end-Grows public now started ended snap wire (answered reply) m l =
      let taken = leases_of public now reply started snap m in
      let rest = sync_confirmed now snap wire reply taken in
      let other : Bool = not (reply.run == snap.run) || not (reply.sequence == snap.sequence) in
      choice-Grows ended
        (apply_revocations now reply.revoked snap.sequence snap.run m, some cancelled)
        (if other then (m, some invalid) else rest)
        (apply_revocations-Grows now reply.revoked snap.sequence snap.run m)
        (choice-Grows other (m, some invalid) rest (Grows-refl m)
          (Grows-trans (leases_of-Grows public now reply started snap m l)
            (sync_confirmed-Grows now snap wire reply taken.0 taken.1)))
