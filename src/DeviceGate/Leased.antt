-- ===== src/DeviceGate/Leased.antt =====
-- Leases and the users of the node only bring the gate forward, and a deadline is at most the grace
-- after its request.
use yz_agent.Prelude.{
  inl, inr, Option-cases, ℕ, ◌+◌, ◌≤◌, ◌<◌, ◌≡◌, refl, subst, String, Bool, true, false, not, ◌||◌,
  List, [], ◌∷◌, ◌==◌, nat_eq, nat_beq_iff, string_eq, leb, ltb, if◌then◌else◌, Option, none, some,
  lookup, insert, erase, lookup-insert, All, arith,
}
use yz_agent.DeviceGate.Types.{
  Lease, SourceState, Manager, is_empty, number_or_zero, source_of, update_source, new_source,
  key_eq,
}
use yz_agent.DeviceGate.Revoke.{
  lease_grace, remove_source, revoke_locked, revoke_permits, apply_revocations,
}
use yz_agent.DeviceGate.Lease.{
  not_ready, Deadline, refused, until, lease_deadline, lease_key, confirmed_source, repeated_source,
  confirm_source, install_new, install_at, refuses_lease, install, install_all, expires,
  expire_source,
}
use yz_agent.DeviceGate.Sync.{
  SyncReply, removed_users, set_barriers, bar_users, sources_without, set_users, Deadlines, failed,
  known, with_deadline, deadlines_of, present_leases, omitted_sources, idle_sources, accept_locked,
  accept_known, accept_leases,
}
use yz_agent.DeviceGate.Grows.{
  Grows, Grows-refl, Grows-trans, branch-Grows, choice-Grows, steady-Grows, update-Grows,
  new_source-Grows,
}
use yz_agent.DeviceGate.Revoked.{
  remove_source-Grows, revoke_locked-Grows, revoke_permits-Grows, apply_revocations-Grows,
}

-- A deadline lies in the future, at most the grace after its request was sent.
pub lease_deadline-until :
    (public : String → String) (item : Lease) (server_time started now d : ℕ)
    → lease_deadline public item server_time started now ≡ until d
    → (now < d) × (d ≤ started + lease_grace)
unfolding lease_deadline
lease_deadline-until public item server_time started now d h = ground (arith, h)

known_injective : (ps qs : List (Lease × ℕ)) → known ps ≡ known qs → ps ≡ qs
known_injective ps qs h = cc

with_deadline-All :
    (bound : ℕ) (item : Lease) (d : Deadline) (rest : Deadlines) (pairs : List (Lease × ℕ))
    → ((t : ℕ) → d ≡ until t → t ≤ bound)
    → ((ps : List (Lease × ℕ)) → rest ≡ known ps → All (λ p. p.1 ≤ bound) ps)
    → with_deadline item d rest ≡ known pairs
    → All (λ p. p.1 ≤ bound) pairs
with_deadline-All bound item (refused e) rest pairs l a h = cc
with_deadline-All bound item (until t) (failed e) pairs l a h = cc
with_deadline-All bound item (until t) (known ps) pairs l a h =
    subst (λ x. All (λ p. p.1 ≤ bound) x) (known_injective ((item, t) ∷ ps) pairs h)
      (l t refl, a ps refl)

deadlines_of-All :
    (bound : ℕ) (public : String → String) (server_time started now : ℕ) (items : List Lease)
    (pairs : List (Lease × ℕ))
    → started + lease_grace ≤ bound
    → deadlines_of public server_time started now items ≡ known pairs
    → All (λ p. p.1 ≤ bound) pairs
unfolding deadlines_of
deadlines_of-All bound public server_time started now [] pairs l h =
    subst (λ x. All (λ p. p.1 ≤ bound) x) (known_injective [] pairs h) tt
deadlines_of-All bound public server_time started now (item ∷ items) pairs l h =
    with_deadline-All bound item (lease_deadline public item server_time started now)
      (deadlines_of public server_time started now items) pairs
      (λ t e. omega (arith, l, (lease_deadline-until public item server_time started now t e).1))
      (λ ps e. deadlines_of-All bound public server_time started now items ps l e) h

pub set_barriers_lem :
    (us : List ℕ) (sequence : ℕ) (barriers : List (ℕ × ℕ)) (u : ℕ)
    → ((v : ℕ) → number_or_zero (lookup v barriers) ≤ sequence)
    → (number_or_zero (lookup u barriers)
        ≤ number_or_zero (lookup u (set_barriers us sequence barriers)))
      × (number_or_zero (lookup u (set_barriers us sequence barriers)) ≤ sequence)
unfolding set_barriers
set_barriers_lem [] sequence barriers u h = (omega arith, h u)
set_barriers_lem (v ∷ us) sequence barriers u h =
    let step : (w : ℕ)
        → lookup w (insert v sequence barriers)
          ≡ (if v == w then some sequence else lookup w barriers) =
      λ w. lookup-insert v w sequence barriers in
    let (low, high) =
      set_barriers_lem us sequence (insert v sequence barriers) u
        (λ w. rw (step w) (ground (arith, nat_beq_iff v w, h w))) in
    let low' : number_or_zero (if v == u then some sequence else lookup u barriers)
        ≤ number_or_zero (lookup u (set_barriers us sequence (insert v sequence barriers))) =
      rw (step u) at low in
    (ground (arith, nat_beq_iff v u, h u, low'), high)

module _ {bound : ℕ} {same : Bool} where
  confirm_source-Grows :
      (n : ℕ) (item : Lease) (deadline sequence : ℕ) (m : Manager)
      → deadline ≤ bound
      → Grows bound same m (confirm_source n item deadline sequence m)
  unfolding confirm_source confirmed_source
  confirm_source-Grows n item deadline sequence m l =
      let m1 = update_source n (confirmed_source item deadline sequence) m in
      let first : Grows bound same m m1 =
        update-Grows n (confirmed_source item deadline sequence) m (λ s h. h) (λ s h. l) in
      Grows-trans first (
        steady-Grows m1 (record m1 { retired = erase item.lease m1.retired }) (omega arith)
          (omega arith) refl refl refl (λ h. h))

  install_new-Grows :
      (item : Lease) (deadline sequence : ℕ) (m : Manager)
      → deadline ≤ bound
      → Grows bound same m (install_new item deadline sequence m)
  unfolding install_new
  install_new-Grows item deadline sequence m l =
      Grows-trans (new_source-Grows (lease_key item) item.lease m) (
        confirm_source-Grows m.next item deadline sequence
          (new_source (lease_key item) item.lease m) l)

  install_at-Grows :
      (now : ℕ) (item : Lease) (deadline sequence : ℕ) (found : Option (ℕ × SourceState))
      (m : Manager)
      → deadline ≤ bound
      → Grows bound same m (install_at now item deadline sequence found m).0
  unfolding install_at repeated_source
  install_at-Grows now item deadline sequence none m l =
      install_new-Grows item deadline sequence m l
  install_at-Grows now item deadline sequence (some (n, s)) m l =
      let fresh : Manager × Bool = (install_new item deadline sequence (remove_source s m), true) in
      let repeated : Manager × Bool =
        (update_source n (repeated_source item sequence) m, ltb now s.deadline) in
      let renewed : Manager × Bool = (confirm_source n item deadline sequence m, true) in
      choice-Grows (ltb sequence s.confirmed_sequence || s.revoked) (m, false)
        (if not (s.lease == item.lease)
          then if is_empty s.permits then fresh else (m, false)
          else if leb item.confirmed_at s.confirmed_at
          then repeated
          else renewed)
        (Grows-refl m)
        (choice-Grows (not (s.lease == item.lease))
          (if is_empty s.permits then fresh else (m, false))
          (if leb item.confirmed_at s.confirmed_at then repeated else renewed)
          (choice-Grows (is_empty s.permits) fresh (m, false)
            (Grows-trans (remove_source-Grows s m)
              (install_new-Grows item deadline sequence (remove_source s m) l))
            (Grows-refl m))
          (choice-Grows (leb item.confirmed_at s.confirmed_at) repeated renewed
            (update-Grows n (repeated_source item sequence) m (λ s h. h) (λ s h. h))
            (confirm_source-Grows n item deadline sequence m l)))

  pub install-Grows :
      (now : ℕ) (item : Lease) (deadline sequence : ℕ) (m : Manager)
      → deadline ≤ bound
      → Grows bound same m (install now item deadline sequence m).0
  unfolding install
  install-Grows now item deadline sequence m l =
      choice-Grows (refuses_lease item sequence m) (m, false)
        (install_at now item deadline sequence (source_of (lease_key item) m) m) (Grows-refl m)
        (install_at-Grows now item deadline sequence (source_of (lease_key item) m) m l)

  install_all-Grows :
      (now sequence : ℕ) (pairs : List (Lease × ℕ)) (m : Manager)
      → All (λ p. p.1 ≤ bound) pairs
      → Grows bound same m (install_all now sequence pairs m)
  unfolding install_all
  install_all-Grows now sequence [] m a = Grows-refl m
  install_all-Grows now sequence ((item, deadline) ∷ rest) m (l, a) =
      Grows-trans (install-Grows now item deadline sequence m l)
        (install_all-Grows now sequence rest (install now item deadline sequence m).0 a)

  pub expire_source-Grows :
      (now n deadline : ℕ) (m : Manager) → Grows bound same m (expire_source now n deadline m).0
  unfolding expire_source
  expire_source-Grows now n deadline m = elim (Option-cases (lookup n m.source_heap)) [
    | inl e ↦ rw e (Grows-refl m)
    | inr (s, e) ↦ rw e (
        choice-Grows (expires now n deadline (lookup s.key m.sources) s)
          (if is_empty s.permits then remove_source s m else m, s.permits) (m, [])
          (branch-Grows (is_empty s.permits) (remove_source-Grows s m) (Grows-refl m))
          (Grows-refl m))
  ]

  accept_locked-Grows :
      (now : ℕ) (reply : SyncReply) (pairs : List (Lease × ℕ)) (sequence : ℕ) (m : Manager)
      → All (λ p. p.1 ≤ bound) pairs
      → Grows bound same m (accept_locked now reply pairs sequence m).0
  unfolding accept_locked
  accept_locked-Grows now reply pairs sequence m a =
      let present = present_leases reply.leases [] in
      let m1 = install_all now sequence pairs m in
      let omitted = omitted_sources present sequence m in
      let m2 = (revoke_locked now omitted sequence m1).0 in
      Grows-trans (install_all-Grows now sequence pairs m a) (
        Grows-trans (revoke_locked-Grows now omitted sequence m1)
          (revoke_locked-Grows now (idle_sources present sequence m2 reply.idle) sequence m2))

  accept_known-Grows :
      (now : ℕ) (reply : SyncReply) (d : Deadlines) (sequence : ℕ) (m : Manager)
      → ((pairs : List (Lease × ℕ)) → d ≡ known pairs → All (λ p. p.1 ≤ bound) pairs)
      → Grows bound same m (accept_known now reply d sequence m).0
  unfolding accept_known
  accept_known-Grows now reply (failed e) sequence m a = Grows-refl m
  accept_known-Grows now reply (known pairs) sequence m a =
      let (m1, permits) = accept_locked now reply pairs sequence m in
      choice-Grows (m.run == reply.run) (revoke_permits permits m1, none) (m, some not_ready)
        (Grows-trans (accept_locked-Grows now reply pairs sequence m (a pairs refl))
          (revoke_permits-Grows permits m1))
        (Grows-refl m)

  pub accept_leases-Grows :
      (public : String → String) (now : ℕ) (reply : SyncReply) (sequence started : ℕ) (m : Manager)
      → started + lease_grace ≤ bound
      → Grows bound same m (accept_leases public now reply sequence started m).0
  unfolding accept_leases
  accept_leases-Grows public now reply sequence started m l =
      let m1 = apply_revocations now reply.revoked sequence reply.run m in
      let d = deadlines_of public reply.server_time started now reply.leases in
      Grows-trans (apply_revocations-Grows now reply.revoked sequence reply.run m) (
        accept_known-Grows now reply d sequence m1 (λ pairs e.
          deadlines_of-All bound public reply.server_time started now reply.leases pairs l e))

  pub bar_users-Grows : (removed : List ℕ) (m : Manager) → Grows bound same m (bar_users removed m)
  unfolding bar_users
  bar_users-Grows removed m = branch-Grows (is_empty removed) (Grows-refl m) (record {
    seq = omega arith;
    next = omega arith;
    revoked = λ n l h. h;
    owner = λ p n l h. h;
    deadlines = λ h. h;
    bars = λ h u.
        (set_barriers_lem removed (m.seq + 1) m.permission_barriers u (λ v. omega (arith, h v))).1;
    closing = λ h. h;
    barriers = λ e h u.
        (set_barriers_lem removed (m.seq + 1) m.permission_barriers u (λ v. omega (arith, h v))).0;
  })

  pub set_users-Grows :
      (now : ℕ) (ids : List ℕ) (m : Manager) → Grows bound same m (set_users now ids m)
  unfolding set_users
  set_users-Grows now ids m =
      let m0 = record m { users = some ids } in
      let m1 = bar_users (removed_users ids m) m0 in
      let (m2, permits) = revoke_locked now (sources_without ids m) 0 m1 in
      Grows-trans (steady-Grows m m0 (omega arith) (omega arith) refl refl refl (λ h. h)) (
        Grows-trans (bar_users-Grows (removed_users ids m) m0) (
          Grows-trans (revoke_locked-Grows now (sources_without ids m) 0 m1)
            (revoke_permits-Grows permits m2)))
