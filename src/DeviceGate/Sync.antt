-- ===== src/DeviceGate/Sync.antt =====
-- The users of the node and the leases of a synchronisation: `SetUsers` and `acceptLeases`.
use yz_agent.Prelude.{
  ℕ, ◌+◌, String, Bool, false, not, ◌&&◌, List, [], ◌∷◌, ◌++◌, map, ◌==◌, nat_eq, string_eq, leb,
  if◌then◌else◌, Option, none, some, lookup, insert, has_key, select,
}
use yz_agent.DeviceGate.Types.{
  Revocation, Lease, SourceState, Manager, is_empty, lacks, source_of, key_eq,
}
use yz_agent.DeviceGate.Revoke.{key_of, revoke_locked, revoke_permits, apply_revocations}
use yz_agent.DeviceGate.Lease.{
  GateError, not_ready, Deadline, refused, until, lease_deadline, install_all, sources_in,
  revocation_of,
}

abbrev listed : Option (List ℕ) → List ℕ
listed none = []
listed (some ids) = ids

abbrev pub users_in : List SourceState → List ℕ
users_in sources = map (λ s. s.key.user) sources

-- Who is no longer a user of the node: of its users before, of those that ask for admission, and of
-- the sources.
unfoldable pub removed_users : List ℕ → Manager → List ℕ
removed_users ids m =
    select (λ u. lacks u (some ids))
      (listed m.users
        ++ (map (λ f. f.0.user) m.flights ++ users_in (sources_in m.sources m.source_heap)))

unfoldable pub set_barriers : List ℕ → ℕ → List (ℕ × ℕ) → List (ℕ × ℕ)
set_barriers [] sequence barriers = barriers
set_barriers (u ∷ us) sequence barriers = set_barriers us sequence (insert u sequence barriers)

unfoldable pub bar_users : List ℕ → Manager → Manager
bar_users removed m = if is_empty removed then m else record m {
  seq = m.seq + 1;
  permission_barriers = set_barriers removed (m.seq + 1) m.permission_barriers;
}

abbrev pub sources_without : List ℕ → Manager → List Revocation
sources_without ids m =
    map revocation_of
      (select (λ s. lacks s.key.user (some ids)) (sources_in m.sources m.source_heap))

-- `SetUsers`
unfoldable pub set_users : ℕ → List ℕ → Manager → Manager
set_users now ids m =
    let m1 = bar_users (removed_users ids m) (record m { users = some ids }) in
    let (m2, permits) = revoke_locked now (sources_without ids m) 0 m1 in revoke_permits permits m2

pub record SyncReply : Type 0 where
  pub idle : List Revocation
  pub lease_cache : Bool
  pub server_time : ℕ
  pub leases : List Lease
  pub run : String
  pub sequence : ℕ
  pub revoked : List Revocation

pub data Deadlines : Type 0 where
  failed : GateError → Deadlines
  known : List (Lease × ℕ) → Deadlines

abbrev pub with_deadline : Lease → Deadline → Deadlines → Deadlines
with_deadline item (refused e) rest = failed e
with_deadline item (until d) (failed e) = failed e
with_deadline item (until d) (known pairs) = known ((item, d) ∷ pairs)

unfoldable pub deadlines_of : (String → String) → ℕ → ℕ → ℕ → List Lease → Deadlines
deadlines_of public server_time started now [] = known []
deadlines_of public server_time started now (item ∷ items) =
    with_deadline item (lease_deadline public item server_time started now)
      (deadlines_of public server_time started now items)

abbrev pub present_leases : List Lease → List (String × Lease) → List (String × Lease)
present_leases [] present = present
present_leases (item ∷ items) present = present_leases items (insert item.lease item present)

abbrev pub omitted_sources : List (String × Lease) → ℕ → Manager → List Revocation
omitted_sources present sequence m = map revocation_of (
    select (λ s. leb s.omission_sequence sequence && not (has_key s.lease present))
      (sources_in m.sources m.source_heap))

abbrev same_owner : Revocation → Option Lease → Bool
same_owner item none = false
same_owner item (some lease) = lease.user_id == item.user_id && lease.ip == item.ip

abbrev confirmed_of : Option Lease → ℕ
confirmed_of none = 0
confirmed_of (some lease) = lease.confirmed_sequence

-- An idle lease is given back when the gate has no source for it, or one without connections that
-- nothing newer has confirmed.
abbrev give_back :
    Revocation → Option Lease → ℕ → String → Option (ℕ × SourceState) → List Revocation
give_back item lease sequence run none =
    record item { run = run; confirmed_sequence = confirmed_of lease } ∷ []
give_back item lease sequence run (some (n, s)) =
    if s.lease == item.lease
      && is_empty s.permits
      && leb s.confirmed_sequence sequence
      && leb s.omission_sequence sequence
    then item ∷ []
    else []

abbrev pub idle_sources : List (String × Lease) → ℕ → Manager → List Revocation → List Revocation
idle_sources present sequence m [] = []
idle_sources present sequence m (item ∷ items) =
    let lease = lookup item.lease present in
    let others = idle_sources present sequence m items in
    if same_owner item lease && not (has_key (key_of item) m.flights)
    then give_back item lease sequence m.run (source_of (key_of item) m) ++ others
    else others

-- The part of `acceptLeases` after its check of the run, in one hold of the lock.
unfoldable pub accept_locked : ℕ → SyncReply → List (Lease × ℕ) → ℕ → Manager → Manager × List ℕ
accept_locked now reply pairs sequence m =
    let present = present_leases reply.leases [] in
    let omitted = omitted_sources present sequence m in
    let m1 = install_all now sequence pairs m in
    let (m2, permits) = revoke_locked now omitted sequence m1 in
    let (m3, others) =
      revoke_locked now (idle_sources present sequence m2 reply.idle) sequence m2 in
    (m3, permits ++ others)

abbrev pub close_taken : Manager × List ℕ → Manager
close_taken (m, permits) = revoke_permits permits m

unfoldable pub accept_known : ℕ → SyncReply → Deadlines → ℕ → Manager → Manager × Option GateError
accept_known now reply (failed e) sequence m = (m, some e)
accept_known now reply (known pairs) sequence m =
    if m.run == reply.run
    then (close_taken (accept_locked now reply pairs sequence m), none)
    else (m, some not_ready)

-- `acceptLeases`
unfoldable pub accept_leases :
    (String → String) → ℕ → SyncReply → ℕ → ℕ → Manager → Manager × Option GateError
accept_leases public now reply sequence started m =
    let m1 = apply_revocations now reply.revoked sequence reply.run m in
    accept_known now reply (deadlines_of public reply.server_time started now reply.leases) sequence
      m1
