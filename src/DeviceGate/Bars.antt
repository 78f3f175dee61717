-- ===== src/DeviceGate/Bars.antt =====
-- What one revocation, one barrier and one retirement do.
use yz_agent.Prelude.{
  if_intro, max, ℕ, ◌+◌, ◌≤◌, ◌<◌, ◌≡◌, ◌≢◌, refl, ap, subst, ◌∙◌, String, Bool, true, false, not,
  ◌||◌, List, [], ◌∷◌, ◌==◌, nat_eq, nat_beq_iff, string_eq, if◌then◌else◌, Option, none, some,
  Option-cases, Bool-cases, lookup, insert, lookup-insert, any, arith, inl, inr,
}
use yz_agent.DeviceGate.Types.{
  SourceKey, Revocation, Lease, RetiredSource, SourceState, Snapshot, Manager, is_empty,
  number_or_zero, source_in, source_of, update_source, key_eq,
}
use yz_agent.DeviceGate.Revoke.{
  valid_lease, key_of, record_revoked, mark_revoked, remove_source, close_source, revoke_source,
  revoke_item, revoke_locked, revoke_permits, retire,
}
use yz_agent.DeviceGate.Lease.{barrier_of, refuses_lease, install}
use yz_agent.DeviceGate.Sync.{removed_users, set_barriers, bar_users, sources_without, set_users}
use yz_agent.DeviceGate.Session.{confirmed_retired, confirm_snapshot}
use yz_agent.DeviceGate.Grows.{revoked_at, IsBarred, Grows, Grows-trans}
use yz_agent.DeviceGate.Revoked.{revoke_locked-Grows, revoke_permits-Grows}
use yz_agent.DeviceGate.Leased.{set_barriers_lem, bar_users-Grows}

-- Membership, as a test.
abbrev pub is_in : ℕ → List ℕ → Bool
is_in u us = any (λ v. v == u) us

pub close_source-revokes :
    (n : ℕ) (s : SourceState) (m : Manager)
    → lookup n m.source_heap ≡ some s
    → n < m.next
    → revoked_at n (close_source n s m).0 ≡ true
unfolding close_source update_source mark_revoked remove_source retire
close_source-revokes n s m e l =
    let marked = update_source n mark_revoked m in
    let here : revoked_at n marked ≡ true =
      rw (e, lookup-insert n n (mark_revoked s) m.source_heap) (ground (arith, nat_beq_iff n n)) in
    if_intro (λ x. revoked_at n x ≡ true) (is_empty s.permits) (remove_source s marked) marked
      (λ k. here) (λ k. here)

pub revoke_item-revokes :
    (now n : ℕ) (item : Revocation) (s : SourceState) (m : Manager)
    → source_of (key_of item) m ≡ some (n, s)
    → lookup n m.source_heap ≡ some s
    → n < m.next
    → item.user_id ≢ 0
    → valid_lease item.lease ≡ true
    → s.lease ≡ item.lease
    → revoked_at n (revoke_item now 0 item m).0 ≡ true
unfolding revoke_item revoke_source record_revoked
revoke_item-revokes now n item s m found e l user lease same =
    let known : (item.user_id == 0) ≡ false = ground (arith, nat_beq_iff item.user_id 0, user) in
    let equal : (s.lease == item.lease) ≡ true =
      ground (arith, string_eq.beq_iff s.lease item.lease, same) in
    rw (known, lease, found, equal) (close_source-revokes n s (record_revoked now 0 item m) e l)

set_barriers-bars :
    (us : List ℕ) (sequence : ℕ) (barriers : List (ℕ × ℕ)) (u : ℕ)
    → ((v : ℕ) → number_or_zero (lookup v barriers) ≤ sequence)
    → is_in u us ≡ true
    → sequence ≤ number_or_zero (lookup u (set_barriers us sequence barriers))
unfolding set_barriers
set_barriers-bars [] sequence barriers u h i = cc
set_barriers-bars (v ∷ us) sequence barriers u h i =
    let m1 = insert v sequence barriers in
    let put_at : (w : ℕ) → lookup w m1 ≡ (if v == w then some sequence else lookup w barriers) =
      λ w. lookup-insert v w sequence barriers in
    let high : (w : ℕ) → number_or_zero (lookup w m1) ≤ sequence =
      λ w. rw (put_at w) (ground (arith, nat_beq_iff v w, h w)) in
    elim (Bool-cases (v == u)) [
      | inl same ↦
          let low = (set_barriers_lem us sequence m1 u high).0 in
          let put : lookup u m1 ≡ some sequence = rw (put_at u, same) refl in rw put at low
      | inr other ↦ set_barriers-bars us sequence m1 u high (rw other at i)
    ]

confirmed_retired-keeps :
    (sequence user : ℕ) (lease : String) (r : RetiredSource)
    (retired : List (String × RetiredSource))
    → lookup lease retired ≡ some r
    → sequence < r.sequence
    → lookup lease (confirmed_retired sequence user retired) ≡ some r
confirmed_retired-keeps sequence user lease r [] h l = h
confirmed_retired-keeps sequence user lease r ((k, q) ∷ rest) h l =
    ground
      (arith, string_eq.beq_iff k lease, confirmed_retired-keeps sequence user lease r rest, h, l)

bar_users-bars :
    (removed : List ℕ) (u : ℕ) (m : Manager)
    → IsBarred m
    → is_in u removed ≡ true
    → m.seq + 1 ≤ barrier_of u (bar_users removed m)
unfolding bar_users
bar_users-bars [] u m b i = cc
bar_users-bars (v ∷ vs) u m b i =
    set_barriers-bars (v ∷ vs) (m.seq + 1) m.permission_barriers u (λ w. omega (arith, b w)) i

pub set_users-bars :
    (now : ℕ) (ids : List ℕ) (u : ℕ) (m : Manager)
    → IsBarred m
    → is_in u (removed_users ids m) ≡ true
    → m.seq + 1 ≤ barrier_of u (set_users now ids m)
unfolding set_users
set_users-bars now ids u m b i =
    let m0 = record m { users = some ids } in
    let m1 = bar_users (removed_users ids m) m0 in
    let (m2, permits) = revoke_locked now (sources_without ids m) 0 m1 in
    let first : Grows 0 true m0 m1 = bar_users-Grows (removed_users ids m) m0 in
    let rest : Grows 0 true m1 (revoke_permits permits m2) =
      Grows-trans (revoke_locked-Grows now (sources_without ids m) 0 m1)
        (revoke_permits-Grows permits m2) in
    omega
      (arith, bar_users-bars (removed_users ids m) u m0 b i, rest.barriers refl (first.bars b) u)

pub install-refuses :
    (now : ℕ) (item : Lease) (deadline sequence : ℕ) (m : Manager)
    → sequence ≤ barrier_of item.user_id m
    → install now item deadline sequence m ≡ (m, false)
unfolding install
install-refuses now item deadline sequence m l =
    let refused : refuses_lease item sequence m ≡ true = ground (arith, l) in rw refused refl

pub some_injective : {A : Type 0} {a b : A} → some a ≡ some b → a ≡ b
some_injective h = cc

pub source_of-lookup :
    (key : SourceKey) (n : ℕ) (s : SourceState) (m : Manager)
    → source_of key m ≡ some (n, s)
    → lookup n m.source_heap ≡ some s
unfolding source_of
source_of-lookup key n s m h = elim (Option-cases (lookup key m.sources)) [
  | inl e ↦ let k : source_in none m.source_heap ≡ some (n, s) = rw e at h in cc
  | inr (j, e) ↦
      let k : source_in (some j) m.source_heap ≡ some (n, s) = rw e at h in
      elim (Option-cases (lookup j m.source_heap)) [
        | inl f ↦
            let blank : Option (ℕ × SourceState) = none in
            let i : blank ≡ some (n, s) = rw f at k in cc
        | inr (r, f) ↦
            let i : some (j, r) ≡ some (n, s) = rw f at k in
            let both : (j, r) ≡ (n, s) = some_injective i in
            let place : j ≡ n = ap (λ x. x.0) both in
            let state : some r ≡ some s = ap (λ x. some x.1) both in
            subst (λ x. lookup x m.source_heap ≡ some s) place (f ∙ state)
      ]
]

-- The record of a lease that is retired.
abbrev retired_item : Option RetiredSource → Option Revocation
retired_item none = none
retired_item (some r) = some r.item

abbrev pub reported : String → Manager → Option Revocation
reported lease m = retired_item (lookup lease m.retired)

abbrev pub record_of_source : SourceState → ℕ → RetiredSource
record_of_source s sequence = record {
  item = record {
    run = s.run;
    confirmed_sequence = s.lease_sequence;
    user_id = s.key.user;
    ip = s.key.ip;
    lease = s.lease;
  };
  sequence = sequence;
}

pub remove_source-lookup :
    (s : SourceState) (m : Manager)
    → s.run ≢ ""
    → lookup s.lease (remove_source s m).retired ≡ some (record_of_source s (m.seq + 1))
unfolding remove_source retire
remove_source-lookup s m h =
    let fresh : (s.run == "") ≡ false = ground (arith, string_eq.beq_iff s.run "", h) in
    rw (fresh, lookup-insert s.lease s.lease (record_of_source s (m.seq + 1)) m.retired)
      (ground (arith, string_eq.beq_iff s.lease s.lease))

pub confirm_snapshot-keeps :
    (snap : Snapshot) (user : ℕ) (lease : String) (r : RetiredSource) (m : Manager)
    → lookup lease m.retired ≡ some r
    → snap.sequence < r.sequence
    → lookup lease (confirm_snapshot snap user m).retired ≡ some r
unfolding confirm_snapshot
confirm_snapshot-keeps snap user lease r m h l =
    if_intro (λ x. lookup lease x.retired ≡ some r) (not m.ready || not (m.run == snap.run)) m
      (record m {
        synced = max m.synced snap.sequence;
        retired = confirmed_retired snap.sequence user m.retired;
      })
      (λ e. h) (λ e. confirmed_retired-keeps snap.sequence user lease r m.retired h l)
