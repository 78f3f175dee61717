-- ===== src/DeviceGate/Admission.antt =====
-- The admission of a source: a turn of `request` and `cachedAttempt`, after their calls of the panel.
-- When the panel does not take a snapshot with the request, another turn sends none.
use yz_agent.Prelude.{
  ℕ, ◌+◌, String, Bool, true, false, not, ◌||◌, List, ◌++◌, ◌==◌, nat_eq, string_eq, if◌then◌else◌,
  Option, none, some,
}
use yz_agent.DeviceGate.Types.{
  SourceKey, Revocation, Lease, SourceState, Snapshot, Manager, source_of, update_source, key_eq,
}
use yz_agent.DeviceGate.Revoke.{valid_lease, apply_revocations}
use yz_agent.DeviceGate.Lease.{
  GateError, source_revoked, invalid, cancelled, Deadline, refused, until, lease_deadline,
  lease_key, install,
}
use yz_agent.DeviceGate.Sync.{SyncReply}
use yz_agent.DeviceGate.Session.{Answer, failed_with, answered, note_error, confirm_snapshot}

pub record AdmissionRequest : Type 0 where
  pub run : String
  pub sequence : ℕ
  pub user_id : ℕ
  pub ip : String

pub record AdmissionReply : Type 0 where
  pub confirmed_sequence : ℕ
  pub confirmed_at : ℕ
  pub expires_at : ℕ
  pub server_time : ℕ
  pub status : String
  pub lease : String
  pub limit : ℕ
  pub observed : ℕ
  pub reason : String
  pub revoked : List Revocation
  pub sync : Option SyncReply

pub data Verdict : Type 0 where
  allowed : AdmissionReply → Verdict
  denied : AdmissionReply → Verdict
  waiting : AdmissionReply → Verdict
  undecided : GateError → Verdict

abbrev pub granted_lease : AdmissionRequest → AdmissionReply → Lease
granted_lease request reply = record {
  confirmed_sequence = reply.confirmed_sequence;
  user_id = request.user_id;
  ip = request.ip;
  lease = reply.lease;
  confirmed_at = reply.confirmed_at;
  expires_at = reply.expires_at;
}

abbrev pub omitted_from : ℕ → SourceState → SourceState
omitted_from sequence s = record s { omission_sequence = sequence }

abbrev pub count_installed : Option (ℕ × SourceState) → Manager → Manager
count_installed none m = record m { seq = m.seq + 1 }
count_installed (some (n, s)) m = record (update_source n (omitted_from (m.seq + 1)) m) {
  seq = m.seq + 1;
}

abbrev pub counted : SourceKey → Manager × Bool → Manager × Bool
counted key (m, false) = (m, false)
counted key (m, true) = (count_installed (source_of key m) m, true)

-- The lease of an admission, when the session is still that of the request.
unfoldable pub install_admitted : ℕ → AdmissionRequest → Lease → ℕ → ℕ → Manager → Manager × Bool
install_admitted now request item deadline sequence m =
    if m.run == request.run
    then counted (lease_key item) (install now item deadline sequence m)
    else (m, false)

abbrev pub installed_verdict : AdmissionReply → Manager × Bool → Manager × Verdict
installed_verdict reply (m, true) = (m, allowed reply)
installed_verdict reply (m, false) = (m, undecided source_revoked)

abbrev pub admit_lease :
    ℕ → AdmissionRequest → AdmissionReply → ℕ → Deadline → Manager → Manager × Verdict
admit_lease now request reply sequence (refused e) m = (m, undecided e)
admit_lease now request reply sequence (until deadline) m =
    installed_verdict reply
      (install_admitted now request (granted_lease request reply) deadline sequence m)

abbrev pub verified_sync : Option SyncReply → Snapshot → Option SyncReply
verified_sync none snap = none
verified_sync (some sync) snap =
    if not (sync.run == snap.run) || not (sync.sequence == snap.sequence) then none else some sync

unfoldable pub cached_verdict :
    (String → String)
    → ℕ
    → ℕ
    → AdmissionRequest
    → Snapshot
    → AdmissionReply
    → Manager
    → Manager × Verdict
cached_verdict public now started request snap reply m =
    if reply.status == "allowed"
    then admit_lease now request reply snap.sequence
        (lease_deadline public (granted_lease request reply) reply.server_time started now) m
    else if reply.status == "denied"
    then (m, denied reply)
    else if reply.status == "waiting"
    then (m, waiting reply)
    else (m, undecided invalid)

abbrev pub cached_verified :
    (String → String)
    → ℕ
    → ℕ
    → AdmissionRequest
    → Snapshot
    → AdmissionReply
    → Option SyncReply
    → Manager
    → Manager × Verdict
cached_verified public now started request snap reply none m = (m, undecided invalid)
cached_verified public now started request snap reply (some sync) m =
    cached_verdict public now started request snap reply (
      confirm_snapshot snap request.user_id
        (apply_revocations now (sync.revoked ++ reply.revoked) snap.sequence snap.run m))

-- `cachedAttempt` after its call of the panel.
unfoldable pub cached_end :
    (String → String)
    → ℕ
    → ℕ
    → Bool
    → AdmissionRequest
    → Snapshot
    → Answer AdmissionReply
    → Manager
    → Manager × Verdict
cached_end public now started ended request snap (failed_with e) m =
    (note_error e request.run m, undecided e)
cached_end public now started ended request snap (answered reply) m =
    if ended
    then (m, undecided cancelled)
    else cached_verified public now started request snap reply (verified_sync reply.sync snap) m

unfoldable pub plain_verdict : ℕ → AdmissionReply → Manager → Manager × Verdict
plain_verdict now reply m =
    if reply.status == "allowed"
    then (m, if valid_lease reply.lease then allowed reply else undecided invalid)
    else if reply.status == "denied"
    then (m, denied reply)
    else if reply.status == "waiting"
    then (apply_revocations now reply.revoked 0 "" m, waiting reply)
    else (m, undecided invalid)

abbrev pub plain_verified :
    ℕ
    → AdmissionRequest
    → Snapshot
    → AdmissionReply
    → Option SyncReply
    → Manager
    → Manager × Verdict
plain_verified now request snap reply none m = (m, undecided invalid)
plain_verified now request snap reply (some sync) m =
    plain_verdict now reply
      (apply_revocations now sync.revoked 0 "" (confirm_snapshot snap request.user_id m))

abbrev pub plain_answer :
    ℕ → AdmissionRequest → Option Snapshot → AdmissionReply → Manager → Manager × Verdict
plain_answer now request none reply m = plain_verdict now reply m
plain_answer now request (some snap) reply m =
    plain_verified now request snap reply (verified_sync reply.sync snap) m

-- A turn of `request` after its call of the panel, which has sent a snapshot or not.
unfoldable pub request_end :
    ℕ
    → Bool
    → AdmissionRequest
    → Option Snapshot
    → Answer AdmissionReply
    → Manager
    → Manager × Verdict
request_end now ended request snap (failed_with e) m = (note_error e request.run m, undecided e)
request_end now ended request snap (answered reply) m =
    if ended then (m, undecided cancelled) else plain_answer now request snap reply m
