-- ===== src/DeviceGate/Admitted.antt =====
-- An answer to an admission only brings the gate forward.
use yz_agent.Prelude.{
  ℕ, ◌+◌, ◌≤◌, ◌≡◌, refl, String, Bool, true, false, ◌++◌, ◌==◌, nat_eq, string_eq, if◌then◌else◌,
  Option, none, some, arith,
}
use yz_agent.DeviceGate.Types.{
  SourceKey, SourceState, Lease, Snapshot, Manager, source_of, update_source, key_eq,
}
use yz_agent.DeviceGate.Revoke.{lease_grace, valid_lease, apply_revocations}
use yz_agent.DeviceGate.Lease.{
  invalid, cancelled, Deadline, refused, until, lease_deadline, lease_key, install,
}
use yz_agent.DeviceGate.Sync.{SyncReply}
use yz_agent.DeviceGate.Session.{confirm_snapshot, Answer, failed_with, answered}
use yz_agent.DeviceGate.Admission.{
  granted_lease, omitted_from, count_installed, counted, install_admitted, installed_verdict,
  admit_lease, verified_sync, cached_verdict, cached_verified, cached_end, plain_verdict,
  plain_verified, plain_answer, request_end, AdmissionRequest, AdmissionReply, Verdict, allowed,
  denied, waiting, undecided,
}
use yz_agent.DeviceGate.Grows.{
  update_source_lem, Grows, Grows-refl, Grows-trans, choice-Grows, steady-Grows, update-Grows,
}
use yz_agent.DeviceGate.Revoked.{apply_revocations-Grows}
use yz_agent.DeviceGate.Leased.{lease_deadline-until, install-Grows}
use yz_agent.DeviceGate.Permitted.{confirm_snapshot-Grows, note_error-Grows}

module _ {bound : ℕ} {same : Bool} where
  count_installed-Grows :
      (found : Option (ℕ × SourceState)) (m : Manager)
      → Grows bound same m (count_installed found m)
  count_installed-Grows none m =
      steady-Grows m (count_installed none m) (omega arith) (omega arith) refl refl refl (λ h. h)
  count_installed-Grows (some (n, s)) m =
      let m1 = update_source n (omitted_from (m.seq + 1)) m in
      let first : Grows bound same m m1 =
        update-Grows n (omitted_from (m.seq + 1)) m (λ s h. h) (λ s h. h) in
      let (q, x) = update_source_lem n (omitted_from (m.seq + 1)) m in
      Grows-trans first (
        steady-Grows m1 (record m1 { seq = m.seq + 1 }) (omega (arith, q)) (omega arith) refl refl
          refl (λ h. h))

  counted-Grows :
      (key : SourceKey) (m : Manager) (b : Bool) → Grows bound same m (counted key (m, b)).0
  counted-Grows key m false = Grows-refl m
  counted-Grows key m true = count_installed-Grows (source_of key m) m

  install_admitted-Grows :
      (now : ℕ) (request : AdmissionRequest) (item : Lease) (deadline sequence : ℕ) (m : Manager)
      → deadline ≤ bound
      → Grows bound same m (install_admitted now request item deadline sequence m).0
  unfolding install_admitted
  install_admitted-Grows now request item deadline sequence m l =
      let (m1, b) = install now item deadline sequence m in
      choice-Grows (m.run == request.run) (counted (lease_key item) (m1, b)) (m, false)
        (Grows-trans (install-Grows now item deadline sequence m l)
          (counted-Grows (lease_key item) m1 b))
        (Grows-refl m)

  installed_verdict-Grows :
      (reply : AdmissionReply) (m : Manager) (b : Bool)
      → Grows bound same m (installed_verdict reply (m, b)).0
  installed_verdict-Grows reply m true = Grows-refl m
  installed_verdict-Grows reply m false = Grows-refl m

  admit_lease-Grows :
      (now : ℕ) (request : AdmissionRequest) (reply : AdmissionReply) (sequence : ℕ) (d : Deadline)
      (m : Manager)
      → ((t : ℕ) → d ≡ until t → t ≤ bound)
      → Grows bound same m (admit_lease now request reply sequence d m).0
  admit_lease-Grows now request reply sequence (refused e) m l = Grows-refl m
  admit_lease-Grows now request reply sequence (until t) m l =
      let (m1, b) = install_admitted now request (granted_lease request reply) t sequence m in
      Grows-trans
        (install_admitted-Grows now request (granted_lease request reply) t sequence m (l t refl))
        (installed_verdict-Grows reply m1 b)

  cached_verdict-Grows :
      (public : String → String) (now started : ℕ) (request : AdmissionRequest) (snap : Snapshot)
      (reply : AdmissionReply) (m : Manager)
      → started + lease_grace ≤ bound
      → Grows bound same m (cached_verdict public now started request snap reply m).0
  unfolding cached_verdict
  cached_verdict-Grows public now started request snap reply m l =
      let item = granted_lease request reply in
      let d = lease_deadline public item reply.server_time started now in
      let yes : Manager × Verdict = admit_lease now request reply snap.sequence d m in
      let last : Manager × Verdict =
        if reply.status == "waiting" then (m, waiting reply) else (m, undecided invalid) in
      choice-Grows (reply.status == "allowed") yes
        (if reply.status == "denied" then (m, denied reply) else last)
        (admit_lease-Grows now request reply snap.sequence d m (λ t e.
          omega (arith, l, (lease_deadline-until public item reply.server_time started now t e).1)))
        (choice-Grows (reply.status == "denied") (m, denied reply) last (Grows-refl m)
          (choice-Grows (reply.status == "waiting") (m, waiting reply) (m, undecided invalid)
            (Grows-refl m) (Grows-refl m)))

  cached_verified-Grows :
      (public : String → String) (now started : ℕ) (request : AdmissionRequest) (snap : Snapshot)
      (reply : AdmissionReply) (sync : Option SyncReply) (m : Manager)
      → started + lease_grace ≤ bound
      → Grows bound same m (cached_verified public now started request snap reply sync m).0
  cached_verified-Grows public now started request snap reply none m l = Grows-refl m
  cached_verified-Grows public now started request snap reply (some sync) m l =
      let items = sync.revoked ++ reply.revoked in
      let m1 = apply_revocations now items snap.sequence snap.run m in
      Grows-trans (apply_revocations-Grows now items snap.sequence snap.run m) (
        Grows-trans (confirm_snapshot-Grows snap request.user_id m1) (
          cached_verdict-Grows public now started request snap reply
            (confirm_snapshot snap request.user_id m1) l))

  pub cached_end-Grows :
      (public : String → String) (now started : ℕ) (ended : Bool) (request : AdmissionRequest)
      (snap : Snapshot) (answer : Answer AdmissionReply) (m : Manager)
      → started + lease_grace ≤ bound
      → Grows bound same m (cached_end public now started ended request snap answer m).0
  unfolding cached_end
  cached_end-Grows public now started ended request snap (failed_with e) m l =
      note_error-Grows e request.run m
  cached_end-Grows public now started ended request snap (answered reply) m l =
      let sync = verified_sync reply.sync snap in
      choice-Grows ended (m, undecided cancelled)
        (cached_verified public now started request snap reply sync m) (Grows-refl m)
        (cached_verified-Grows public now started request snap reply sync m l)

  plain_verdict-Grows :
      (now : ℕ) (reply : AdmissionReply) (m : Manager)
      → Grows bound same m (plain_verdict now reply m).0
  unfolding plain_verdict
  plain_verdict-Grows now reply m =
      let yes : Manager × Verdict =
        (m, if valid_lease reply.lease then allowed reply else undecided invalid) in
      let waits : Manager × Verdict = (apply_revocations now reply.revoked 0 "" m, waiting reply) in
      let last : Manager × Verdict =
        if reply.status == "waiting" then waits else (m, undecided invalid) in
      choice-Grows (reply.status == "allowed") yes
        (if reply.status == "denied" then (m, denied reply) else last) (Grows-refl m)
        (choice-Grows (reply.status == "denied") (m, denied reply) last (Grows-refl m)
          (choice-Grows (reply.status == "waiting") waits (m, undecided invalid)
            (apply_revocations-Grows now reply.revoked 0 "" m) (Grows-refl m)))

  plain_verified-Grows :
      (now : ℕ) (request : AdmissionRequest) (snap : Snapshot) (reply : AdmissionReply)
      (sync : Option SyncReply) (m : Manager)
      → Grows bound same m (plain_verified now request snap reply sync m).0
  plain_verified-Grows now request snap reply none m = Grows-refl m
  plain_verified-Grows now request snap reply (some sync) m =
      let m1 = confirm_snapshot snap request.user_id m in
      Grows-trans (confirm_snapshot-Grows snap request.user_id m) (
        Grows-trans (apply_revocations-Grows now sync.revoked 0 "" m1)
          (plain_verdict-Grows now reply (apply_revocations now sync.revoked 0 "" m1)))

  plain_answer-Grows :
      (now : ℕ) (request : AdmissionRequest) (snap : Option Snapshot) (reply : AdmissionReply)
      (m : Manager)
      → Grows bound same m (plain_answer now request snap reply m).0
  plain_answer-Grows now request none reply m = plain_verdict-Grows now reply m
  plain_answer-Grows now request (some snap) reply m =
      plain_verified-Grows now request snap reply (verified_sync reply.sync snap) m

  pub request_end-Grows :
      (now : ℕ) (ended : Bool) (request : AdmissionRequest) (snap : Option Snapshot)
      (answer : Answer AdmissionReply) (m : Manager)
      → Grows bound same m (request_end now ended request snap answer m).0
  unfolding request_end
  request_end-Grows now ended request snap (failed_with e) m = note_error-Grows e request.run m
  request_end-Grows now ended request snap (answered reply) m =
      choice-Grows ended (m, undecided cancelled) (plain_answer now request snap reply m)
        (Grows-refl m) (plain_answer-Grows now request snap reply m)
