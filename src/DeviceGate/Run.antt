-- ===== src/DeviceGate/Run.antt =====
-- The steps of the gate, in any order.
use yz_agent.Prelude.{
  max, if◌then◌else◌, ℕ, ◌+◌, ◌≤◌, ◌≡◌, refl, String, Bool, true, false, not, ◌||◌, List, [], ◌∷◌,
  ◌==◌, nat_eq, string_eq, Option, none, some, All, arith,
}
use yz_agent.DeviceGate.Types.{
  SourceKey, Revocation, Snapshot, Manager, is_empty, new_manager, key_eq,
}
use yz_agent.DeviceGate.Revoke.{lease_grace, revoke_permit, apply_revocations, close_all}
use yz_agent.DeviceGate.Lease.{GateError, not_ready, expire_source}
use yz_agent.DeviceGate.Sync.{SyncReply, set_users, accept_leases}
use yz_agent.DeviceGate.Permits.{bind, release, new_connection, acquire, leave, claim}
use yz_agent.DeviceGate.Session.{
  start_run, begin_start, BeginReply, begin_end, snapshot, confirm_snapshot, lose_session,
  stop_start, Answer, sync_end,
}
use yz_agent.DeviceGate.Admission.{AdmissionRequest, AdmissionReply, cached_end, request_end}
use yz_agent.DeviceGate.Grant.{admit}
use yz_agent.DeviceGate.Grows.{IsBarred, Grows, Grows-refl, Grows-trans, choice-Grows, steady-Grows}
use yz_agent.DeviceGate.Revoked.{revoke_permit-Grows, apply_revocations-Grows, close_all-Grows}
use yz_agent.DeviceGate.Leased.{expire_source-Grows, set_users-Grows, accept_leases-Grows}
use yz_agent.DeviceGate.Permitted.{
  bind-Grows, release-Grows, new_connection-Grows, acquire-Grows, leave-Grows, claim-Grows,
  begin_end-Grows, snapshot-Grows, confirm_snapshot-Grows, lose_session-Grows, stop_start-Grows,
}
use yz_agent.DeviceGate.Synced.{sync_end-Grows}
use yz_agent.DeviceGate.Admitted.{cached_end-Grows, request_end-Grows}
use yz_agent.DeviceGate.Granted.{admit-Grows}

-- A call or a timer of the gate, with the times it reads and the answer of the panel.
pub data Step : Type 0 where
  revocations : ℕ → List Revocation → ℕ → String → Step
  permit_closed : ℕ → Step
  all_closed : Step
  users_set : ℕ → List ℕ → Step
  source_expired : ℕ → ℕ → ℕ → Step
  leases_accepted : ℕ → SyncReply → ℕ → ℕ → Step
  permit_bound : ℕ → Bool → Step
  permit_released : ℕ → ℕ → Step
  connection_made : ℕ → ℕ → Step
  acquired : ℕ → Bool → Bool → SourceKey → Step
  waiter_left : SourceKey → ℕ → ℕ → Step
  permit_claimed : ℕ → Bool → Bool → Bool → Option ℕ → Option GateError → Step
  session_started : Option String → Step
  session_begun : String → BeginReply → Step
  snapshot_taken : ℕ → Step
  snapshot_confirmed : Snapshot → ℕ → Step
  session_ended : String → Step
  stopped : Step
  synchronised : ℕ → ℕ → Bool → Snapshot → Snapshot → Answer SyncReply → Step
  cached_answered : ℕ → ℕ → Bool → AdmissionRequest → Snapshot → Answer AdmissionReply → Step
  plain_answered : ℕ → Bool → AdmissionRequest → Option Snapshot → Answer AdmissionReply → Step
  admitted : ℕ → Bool → Bool → (ℕ → Bool) → SourceKey → String → Answer String → Step

-- When the request of a step's leases was sent.
abbrev pub sent : Step → ℕ
sent (leases_accepted now reply sequence started) = started
sent (synchronised now started ended snap wire answer) = started
sent (cached_answered now started ended request snap answer) = started
sent _ = 0

abbrev pub starts_session : Step → Bool
starts_session (session_started fresh) = true
starts_session _ = false

-- What is asked of the steps: all leases by the deadline, and no new session in the same one.
abbrev pub Allowed : ℕ → Bool → Step → Type 0
Allowed bound same s = (sent s + lease_grace ≤ bound) × (same ≡ true → starts_session s ≡ false)

-- When the last request of leases was sent.
abbrev pub last_sent : List Step → ℕ
last_sent [] = 0
last_sent (s ∷ steps) = max (sent s) (last_sent steps)

pub last_sent-Allowed :
    (bound : ℕ) (same : Bool) (steps : List Step)
    → last_sent steps + lease_grace ≤ bound
    → (same ≡ true → All (λ s. starts_session s ≡ false) steps)
    → All (Allowed bound same) steps
last_sent-Allowed bound same [] l k = tt
last_sent-Allowed bound same (s ∷ steps) l k = (
  (omega (arith, l), λ e. (k e).0),
  last_sent-Allowed bound same steps (omega (arith, l)) (λ e. (k e).1),
)

start_run-Grows :
    (bound : ℕ) (same : Bool) (fresh : Option String) (m : Manager)
    → (same ≡ true → true ≡ false)
    → Grows bound same m (start_run fresh m).0
start_run-Grows bound same none m e = Grows-refl m
start_run-Grows bound same (some run) m e = record {
  seq = omega arith;
  next = omega arith;
  revoked = λ n l h. h;
  owner = λ p n l h. h;
  deadlines = λ h. h;
  bars = λ h u. omega arith;
  closing = λ h. h;
  barriers = λ s h u. absurd (cc (e s));
}

begin_start-Grows :
    (bound : ℕ) (same : Bool) (fresh : Option String) (m : Manager)
    → (same ≡ true → true ≡ false)
    → Grows bound same m (begin_start fresh m).0
unfolding begin_start
begin_start-Grows bound same fresh m e =
    let kept = record m { confirmed = none; base_sequence = 0 } in
    let started : Grows bound same m (start_run fresh m).0 = start_run-Grows bound same fresh m e in
    choice-Grows (m.closing || not (is_empty m.sources) || not (is_empty m.flights))
      (m, some not_ready) (if m.run == "" then start_run fresh m else (kept, none)) (Grows-refl m)
      (choice-Grows (m.run == "") (start_run fresh m) (kept, none) started
        (steady-Grows m kept (omega arith) (omega arith) refl refl refl (λ h. h)))

module _ (public : String → String) where
  unfoldable pub step : Step → Manager → Manager
  step (revocations now items sequence run) m = apply_revocations now items sequence run m
  step (permit_closed p) m = revoke_permit p m
  step all_closed m = close_all m
  step (users_set now ids) m = set_users now ids m
  step (source_expired now n deadline) m = (expire_source now n deadline m).0
  step (leases_accepted now reply sequence started) m =
      (accept_leases public now reply sequence started m).0
  step (permit_bound p has_close) m = (bind p has_close m).0
  step (permit_released now p) m = release now p m
  step (connection_made now p) m = (new_connection now p m).0
  step (acquired now ended stops key) m = (acquire now ended stops key m).0
  step (waiter_left key sequence w) m = leave key sequence w m
  step (permit_claimed now ended stops abandoned p err) m =
      (claim now ended stops abandoned p err m).0
  step (session_started fresh) m = (begin_start fresh m).0
  step (session_begun run reply) m = (begin_end run reply m).0
  step (snapshot_taken now) m = (snapshot now m).0
  step (snapshot_confirmed snap user) m = confirm_snapshot snap user m
  step (session_ended run) m = lose_session run m
  step stopped m = stop_start m
  step (synchronised now started ended snap wire answer) m =
      (sync_end public now started ended snap wire answer m).0
  step (cached_answered now started ended request snap answer) m =
      (cached_end public now started ended request snap answer m).0
  step (plain_answered now ended request snap answer) m =
      (request_end now ended request snap answer m).0
  step (admitted now ended stops gone key run answer) m =
      (admit now ended stops gone key run answer m).0

  unfoldable pub run_steps : List Step → Manager → Manager
  run_steps [] m = m
  run_steps (s ∷ rest) m = run_steps rest (step s m)

  step-Grows :
      (bound : ℕ) (same : Bool) (s : Step) (m : Manager)
      → Allowed bound same s
      → Grows bound same m (step s m)
  unfolding step
  step-Grows bound same (revocations now items sequence run) m a =
      apply_revocations-Grows now items sequence run m
  step-Grows bound same (permit_closed p) m a = revoke_permit-Grows p m
  step-Grows bound same all_closed m a = close_all-Grows m
  step-Grows bound same (users_set now ids) m a = set_users-Grows now ids m
  step-Grows bound same (source_expired now n deadline) m a = expire_source-Grows now n deadline m
  step-Grows bound same (leases_accepted now reply sequence started) m a =
      accept_leases-Grows public now reply sequence started m a.0
  step-Grows bound same (permit_bound p has_close) m a = bind-Grows p has_close m
  step-Grows bound same (permit_released now p) m a = release-Grows now p m
  step-Grows bound same (connection_made now p) m a = new_connection-Grows now p m
  step-Grows bound same (acquired now ended stops key) m a = acquire-Grows now ended stops key m
  step-Grows bound same (waiter_left key sequence w) m a = leave-Grows key sequence w m
  step-Grows bound same (permit_claimed now ended stops abandoned p err) m a =
      claim-Grows now ended stops abandoned p err m
  step-Grows bound same (session_started fresh) m a = begin_start-Grows bound same fresh m a.1
  step-Grows bound same (session_begun run reply) m a = begin_end-Grows run reply m
  step-Grows bound same (snapshot_taken now) m a = snapshot-Grows now m
  step-Grows bound same (snapshot_confirmed snap user) m a = confirm_snapshot-Grows snap user m
  step-Grows bound same (session_ended run) m a = lose_session-Grows run m
  step-Grows bound same stopped m a = stop_start-Grows m
  step-Grows bound same (synchronised now started ended snap wire answer) m a =
      sync_end-Grows public now started ended snap wire answer m a.0
  step-Grows bound same (cached_answered now started ended request snap answer) m a =
      cached_end-Grows public now started ended request snap answer m a.0
  step-Grows bound same (plain_answered now ended request snap answer) m a =
      request_end-Grows now ended request snap answer m
  step-Grows bound same (admitted now ended stops gone key run answer) m a =
      admit-Grows now ended stops gone key run answer m

  pub run_steps-Grows :
      (bound : ℕ) (same : Bool) (steps : List Step) (m : Manager)
      → All (Allowed bound same) steps
      → Grows bound same m (run_steps steps m)
  unfolding run_steps
  run_steps-Grows bound same [] m a = Grows-refl m
  run_steps-Grows bound same (s ∷ rest) m (a, more) =
      Grows-trans (step-Grows bound same s m a) (run_steps-Grows bound same rest (step s m) more)

  pub run_steps-IsBarred :
      (bound : ℕ) (same : Bool) (steps : List Step)
      → All (Allowed bound same) steps
      → IsBarred (run_steps steps new_manager)
  run_steps-IsBarred bound same steps a =
      (run_steps-Grows bound same steps new_manager a).bars (λ u. omega arith)
