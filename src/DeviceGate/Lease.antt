-- ===== src/DeviceGate/Lease.antt =====
-- Leases of the panel: lease_cache.go.
use yz_agent.Prelude.{
  ℕ, ◌+◌, ◌-◌, ◌*◌, max, String, Bool, true, false, not, ◌&&◌, ◌||◌, List, [], ◌∷◌, ◌==◌, nat_eq,
  string_eq, leb, ltb, if◌then◌else◌, Option, none, some, lookup, erase,
}
use yz_agent.DeviceGate.Types.{
  SourceKey, Revocation, Lease, SourceState, RevokedLease, Manager, is_empty, number_or_zero, lacks,
  source_of, update_source, new_source, key_eq,
}
use yz_agent.DeviceGate.Revoke.{valid_lease, remove_source}

-- The errors of the calls.
pub data GateError : Type 0 where
  session_lost : GateError
  snapshot_required : GateError
  not_ready : GateError
  source_revoked : GateError
  invalid : GateError
  cancelled : GateError
  transport : GateError
  not_admitted : GateError

pub data Deadline : Type 0 where
  refused : GateError → Deadline
  until : ℕ → Deadline

abbrev millisecond : ℕ
millisecond = 1000000

-- `leaseDeadline`, by the clock that was read when the request was sent and by that of now.
unfoldable pub lease_deadline : (String → String) → Lease → ℕ → ℕ → ℕ → Deadline
lease_deadline public item server_time started now =
    if item.user_id == 0
      || not (public item.ip == item.ip)
      || not (valid_lease item.lease)
      || item.confirmed_at == 0
      || ltb server_time item.confirmed_at
      || leb item.expires_at item.confirmed_at
      || ltb 3600000 (item.expires_at - item.confirmed_at)
    then refused invalid
    else let deadline = started + (item.expires_at - server_time) * millisecond in
      if leb item.expires_at server_time || not (ltb now deadline)
      then refused source_revoked
      else until deadline

abbrev pub barrier_of : ℕ → Manager → ℕ
barrier_of user m = number_or_zero (lookup user m.permission_barriers)

-- A lease that was revoked, and that this answer does not confirm again.
abbrev pub barred : ℕ → Lease → Option RevokedLease → Bool
barred sequence item none = false
barred sequence item (some r) = leb sequence r.barrier || ltb item.confirmed_sequence sequence

abbrev pub lease_key : Lease → SourceKey
lease_key item = record { user = item.user_id; ip = item.ip }

unfoldable pub confirmed_source : Lease → ℕ → ℕ → SourceState → SourceState
confirmed_source item deadline sequence s = record s {
  confirmed_at = item.confirmed_at;
  expires_at = item.expires_at;
  confirmed_sequence = sequence;
  lease_sequence = item.confirmed_sequence;
  omission_sequence = sequence;
  deadline = deadline;
}

-- A lease confirmed once more with nothing new: its deadline stays.
unfoldable pub repeated_source : Lease → ℕ → SourceState → SourceState
repeated_source item sequence s = record s {
  confirmed_sequence = sequence;
  lease_sequence = max s.lease_sequence item.confirmed_sequence;
  omission_sequence = max s.omission_sequence sequence;
}

unfoldable pub confirm_source : ℕ → Lease → ℕ → ℕ → Manager → Manager
confirm_source n item deadline sequence m =
    let m1 = update_source n (confirmed_source item deadline sequence) m in
    record m1 { retired = erase item.lease m1.retired }

unfoldable pub install_new : Lease → ℕ → ℕ → Manager → Manager
install_new item deadline sequence m =
    confirm_source m.next item deadline sequence (new_source (lease_key item) item.lease m)

unfoldable pub install_at : ℕ → Lease → ℕ → ℕ → Option (ℕ × SourceState) → Manager → Manager × Bool
install_at now item deadline sequence none m = (install_new item deadline sequence m, true)
install_at now item deadline sequence (some (n, s)) m =
    if ltb sequence s.confirmed_sequence || s.revoked
    then (m, false)
    else if not (s.lease == item.lease)
    then if is_empty s.permits
      then (install_new item deadline sequence (remove_source s m), true)
      else (m, false)
    else if leb item.confirmed_at s.confirmed_at
    then (update_source n (repeated_source item sequence) m, ltb now s.deadline)
    else (confirm_source n item deadline sequence m, true)

abbrev pub refuses_lease : Lease → ℕ → Manager → Bool
refuses_lease item sequence m =
    m.closing
    || not m.ready
    || lacks item.user_id m.users
    || leb sequence (barrier_of item.user_id m)
    || barred sequence item (lookup item.lease m.revoked)

-- `installLeaseLocked`
unfoldable pub install : ℕ → Lease → ℕ → ℕ → Manager → Manager × Bool
install now item deadline sequence m =
    if refuses_lease item sequence m
    then (m, false)
    else install_at now item deadline sequence (source_of (lease_key item) m) m

unfoldable pub install_all : ℕ → ℕ → List (Lease × ℕ) → Manager → Manager
install_all now sequence [] m = m
install_all now sequence ((item, deadline) ∷ rest) m =
    install_all now sequence rest (install now item deadline sequence m).0

-- `expireSource`: the permits are to be closed.
abbrev pub expires : ℕ → ℕ → ℕ → Option ℕ → SourceState → Bool
expires now n deadline none s = false
expires now n deadline (some k) s = k == n && s.deadline == deadline && not (ltb now deadline)

abbrev expire_found : ℕ → ℕ → ℕ → Option SourceState → Manager → Manager × List ℕ
expire_found now n deadline none m = (m, [])
expire_found now n deadline (some s) m =
    if expires now n deadline (lookup s.key m.sources) s
    then (if is_empty s.permits then remove_source s m else m, s.permits)
    else (m, [])

unfoldable pub expire_source : ℕ → ℕ → ℕ → Manager → Manager × List ℕ
expire_source now n deadline m = expire_found now n deadline (lookup n m.source_heap) m

abbrev pub with_source : Option SourceState → List SourceState → List SourceState
with_source none rest = rest
with_source (some s) rest = s ∷ rest

-- `range m.sources`
abbrev pub sources_in : List (SourceKey × ℕ) → List (ℕ × SourceState) → List SourceState
sources_in [] heap = []
sources_in ((key, n) ∷ rest) heap = with_source (lookup n heap) (sources_in rest heap)

abbrev pub revocation_of : SourceState → Revocation
revocation_of s = record {
  run = "";
  confirmed_sequence = 0;
  user_id = s.key.user;
  ip = s.key.ip;
  lease = s.lease;
}
