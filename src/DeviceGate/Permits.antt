-- ===== src/DeviceGate/Permits.antt =====
-- Permits, and the admission of a connection: manager.go.
use yz_agent.Prelude.{
  ℕ, ◌+◌, Bool, true, false, not, ◌&&◌, ◌||◌, [], ◌∷◌, ◌==◌, nat_eq, string_eq, ltb, if◌then◌else◌,
  Option, none, some, lookup, insert, has_key, select,
}
use yz_agent.DeviceGate.Types.{
  SourceKey, SourceState, Permit, Flight, Manager, is_empty, lacks, source_of, update_source,
  key_eq,
}
use yz_agent.DeviceGate.Revoke.{remove_source}
use yz_agent.DeviceGate.Lease.{GateError, not_ready, source_revoked, cancelled}

abbrev pub with_permit : ℕ → ℕ → ℕ → SourceState → SourceState
with_permit now sequence p s = record s {
  sequence = sequence;
  connected = now;
  permits = p ∷ s.permits;
}

-- `permitLocked` for the source of a place: the new permit.
unfoldable pub permit_locked : ℕ → ℕ → Manager → Manager × ℕ
permit_locked now n m =
    let m1 = update_source n (with_permit now (m.seq + 1) m.next) m in
    (
      record m1 {
        seq = m.seq + 1;
        next = m.next + 1;
        permit_heap =
            insert m.next (record { source = n; closing = false; bound = false; released = false })
              m1.permit_heap;
      },
      m.next,
    )

-- `Bind`, and whether the closing is called at once.
abbrev bound_permit : ℕ → Bool → Option Permit → Manager → Manager × Bool
bound_permit p has_close none m = (m, false)
bound_permit p has_close (some q) m =
    if q.closing || q.released
    then (m, has_close)
    else (record m { permit_heap = insert p (record q { bound = has_close }) m.permit_heap }, false)

unfoldable pub bind : ℕ → Bool → Manager → Manager × Bool
bind p has_close m = bound_permit p has_close (lookup p m.permit_heap) m

-- A source that still lets its connections run.
abbrev pub is_open : ℕ → Bool → Option SourceState → Bool
is_open now cached none = false
is_open now cached (some s) = not s.revoked && (not cached || ltb now s.deadline)

abbrev pub open_permit : ℕ → Manager → Option Permit → Bool
open_permit now m none = false
open_permit now m (some q) =
    not (q.closing || q.released) && is_open now m.lease_cache (lookup q.source m.source_heap)

-- `Valid`
unfoldable pub valid : ℕ → ℕ → Manager → Bool
valid now p m = open_permit now m (lookup p m.permit_heap)

abbrev pub without_permit : ℕ → SourceState → SourceState
without_permit p s = record s { permits = select (λ k. not (k == p)) s.permits }

abbrev pub is_place : ℕ → Option ℕ → Bool
is_place n none = false
is_place n (some k) = k == n

abbrev pub leave_source : ℕ → ℕ → Option SourceState → Manager → Manager
leave_source now n none m = m
leave_source now n (some s) m =
    if is_empty s.permits
      && is_place n (lookup s.key m.sources)
      && (not m.lease_cache || s.revoked || m.closing || not (ltb now s.deadline))
    then remove_source s m
    else m

abbrev released_permit : ℕ → ℕ → Option Permit → Manager → Manager
released_permit now p none m = m
released_permit now p (some q) m =
    if q.released
    then m
    else let m1 =
        update_source q.source (without_permit p)
          (record m { permit_heap = insert p (record q { released = true }) m.permit_heap }) in
      leave_source now q.source (lookup q.source m1.source_heap) m1

-- `Release`
unfoldable pub release : ℕ → ℕ → Manager → Manager
release now p m = released_permit now p (lookup p m.permit_heap) m

abbrev pub touched : ℕ → ℕ → SourceState → SourceState
touched now sequence s = record s { sequence = sequence; connected = now }

abbrev pub at_its_key : ℕ → Option SourceState → Manager → Bool
at_its_key n none m = false
at_its_key n (some s) m = is_place n (lookup s.key m.sources)

abbrev connect : ℕ → Option Permit → Manager → Manager × Bool
connect now none m = (m, false)
connect now (some q) m =
    if not (q.closing || q.released)
      && is_open now m.lease_cache (lookup q.source m.source_heap)
      && at_its_key q.source (lookup q.source m.source_heap) m
    then (record (update_source q.source (touched now (m.seq + 1)) m) { seq = m.seq + 1 }, true)
    else (m, false)

-- `NewConnection`
unfoldable pub new_connection : ℕ → ℕ → Manager → Manager × Bool
new_connection now p m = connect now (lookup p m.permit_heap) m

pub data Acquired : Type 0 where
  refused_with : GateError → Acquired
  granted : ℕ → Acquired
  waits : ℕ → Acquired

abbrev pub joined : ℕ → Option Flight → Manager → Flight
joined w none m = record { sequence = m.seq + 1; waiters = w ∷ []; abandoned = false }
joined w (some f) m = record f { waiters = w ∷ f.waiters }

-- One more connection waits for the admission of its source; the first one asks for it.
unfoldable pub join : SourceKey → Manager → Manager × ℕ
join key m = (
  record m {
    seq = if has_key key m.flights then m.seq else m.seq + 1;
    next = m.next + 1;
    flights = insert key (joined m.next (lookup key m.flights) m) m.flights;
  },
  m.next,
)

abbrev pub serves : ℕ → Bool → Option (ℕ × SourceState) → Option ℕ
serves now cached none = none
serves now cached (some (n, s)) =
    if (cached || not (is_empty s.permits)) && (not s.revoked && (not cached || ltb now s.deadline))
    then some n
    else none

abbrev pub enter : ℕ → SourceKey → Option ℕ → Manager → Manager × Acquired
enter now key (some n) m = let (m1, p) = permit_locked now n m in (m1, granted p)
enter now key none m = let (m1, w) = join key m in (m1, waits w)

-- A turn of `Acquire` until it waits: whether the call, and the manager, are at their end is given.
unfoldable pub acquire : ℕ → Bool → Bool → SourceKey → Manager → Manager × Acquired
acquire now ended stopped key m =
    if ended
    then (m, refused_with cancelled)
    else if not m.ready || m.closing || stopped
    then (m, refused_with not_ready)
    else if lacks key.user m.users
    then (m, refused_with source_revoked)
    else enter now key (serves now m.lease_cache (source_of key m)) m

abbrev pub left : ℕ → Flight → Flight
left w f =
    let rest = select (λ k. not (k == w)) f.waiters in
    record f { waiters = rest; abandoned = f.abandoned || is_empty rest }

abbrev pub leave_flight : SourceKey → ℕ → ℕ → Option Flight → Manager → Manager
leave_flight key sequence w none m = m
leave_flight key sequence w (some f) m =
    if f.sequence == sequence then record m { flights = insert key (left w f) m.flights } else m

-- The connection waits no more; an admission that no one waits for is given up.
unfoldable pub leave : SourceKey → ℕ → ℕ → Manager → Manager
leave key sequence w m = leave_flight key sequence w (lookup key m.flights) m

abbrev pub freed : ℕ → Option ℕ → Manager → Manager
freed now none m = m
freed now (some p) m = release now p m

pub data Claimed : Type 0 where
  again : Claimed
  claimed : Option ℕ → Option GateError → Claimed

-- The end of a turn of `Acquire`, with what the admission has left for it.
unfoldable pub claim :
    ℕ → Bool → Bool → Bool → Option ℕ → Option GateError → Manager → Manager × Claimed
claim now ended stopped abandoned permit err m =
    if ended
    then (freed now permit m, claimed none (some cancelled))
    else if m.closing || stopped
    then (freed now permit m, claimed none (some not_ready))
    else if abandoned
    then (m, again)
    else (m, claimed permit err)
