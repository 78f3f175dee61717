-- ===== src/DeviceGate/Grant.antt =====
-- `admit`: the permits of the connections that wait for an admission.
use yz_agent.Prelude.{
  ℕ, String, Bool, false, not, ◌&&◌, ◌||◌, List, [], ◌∷◌, ◌++◌, ◌==◌, nat_eq, string_eq, ltb,
  if◌then◌else◌, Option, none, some, lookup, erase, has_key,
}
use yz_agent.DeviceGate.Types.{
  SourceKey, SourceState, Flight, Manager, is_empty, lacks, source_of, new_source, key_eq,
}
use yz_agent.DeviceGate.Lease.{GateError, not_ready, source_revoked, cancelled}
use yz_agent.DeviceGate.Permits.{permit_locked}
use yz_agent.DeviceGate.Session.{Answer, failed_with, answered}

abbrev pub holds_other : String → Option (ℕ × SourceState) → Bool
holds_other lease none = false
holds_other lease (some (n, s)) = not (s.lease == lease) && not (is_empty s.permits)

abbrev pub holds_lease : ℕ → String → Option (ℕ × SourceState) → Bool
holds_lease now lease none = false
holds_lease now lease (some (n, s)) = s.lease == lease && not s.revoked && ltb now s.deadline

-- Why an allowed admission gives no permits, in the order of the tests of `admit`.
unfoldable pub admit_error :
    ℕ → Bool → Bool → SourceKey → String → Flight → String → Manager → Option GateError
admit_error now ended stopped key run f lease m =
    if lacks key.user m.users
    then some source_revoked
    else if not m.ready || m.closing || not (m.run == run) || stopped
    then some not_ready
    else if ended || f.abandoned
    then some cancelled
    else if has_key lease m.revoked && not m.lease_cache
    then some source_revoked
    else if holds_other lease (source_of key m)
    then some source_revoked
    else if m.lease_cache && not (holds_lease now lease (source_of key m))
    then some source_revoked
    else none

unfoldable pub source_for : SourceKey → String → Option (ℕ × SourceState) → Manager → Manager × ℕ
source_for key lease (some (n, s)) m = (m, n)
source_for key lease none m = (new_source key lease m, m.next)

unfoldable pub grant_one : ℕ → SourceKey → String → ℕ → Manager → Manager × List (ℕ × ℕ)
grant_one now key lease w m =
    let (m1, n) = source_for key lease (source_of key m) m in
    let (m2, p) = permit_locked now n m1 in (m2, (w, p) ∷ [])

-- A permit for each connection that still waits.
unfoldable pub grant :
    ℕ → (ℕ → Bool) → SourceKey → String → List ℕ → Manager → Manager × List (ℕ × ℕ)
grant now gone key lease [] m = (m, [])
grant now gone key lease (w ∷ ws) m =
    let (m1, given) = if gone w then (m, []) else grant_one now key lease w m in
    let (m2, others) = grant now gone key lease ws m1 in (m2, given ++ others)

abbrev pub grant_all :
    ℕ
    → (ℕ → Bool)
    → SourceKey
    → String
    → List ℕ
    → Option GateError
    → Manager
    → Manager × List (ℕ × ℕ) × Option GateError
grant_all now gone key lease ws (some e) m = (m, [], some e)
grant_all now gone key lease ws none m =
    let (m1, given) = grant now gone key lease ws m in (m1, given, none)

abbrev pub admit_found :
    ℕ
    → Bool
    → Bool
    → (ℕ → Bool)
    → SourceKey
    → String
    → Answer String
    → Option Flight
    → Manager
    → Manager × List (ℕ × ℕ) × Option GateError
admit_found now ended stopped gone key run answer none m = (m, [], none)
admit_found now ended stopped gone key run (failed_with e) (some f) m =
    (record m { flights = erase key m.flights }, [], some e)
admit_found now ended stopped gone key run (answered lease) (some f) m =
    let (m1, given, err) =
      grant_all now gone key lease f.waiters (admit_error now ended stopped key run f lease m) m in
    (record m1 { flights = erase key m1.flights }, given, err)

-- `admit` after its request, with the lease of an allowed one: the permits by their connection.
unfoldable pub admit :
    ℕ
    → Bool
    → Bool
    → (ℕ → Bool)
    → SourceKey
    → String
    → Answer String
    → Manager
    → Manager × List (ℕ × ℕ) × Option GateError
admit now ended stopped gone key run answer m =
    admit_found now ended stopped gone key run answer (lookup key m.flights) m
