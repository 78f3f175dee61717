-- ===== src/DeviceGate/Entry.antt =====
-- What a connection is let in with.
use yz_agent.Prelude.{
  ℕ, ◌+◌, ◌≡◌, refl, subst, Bool, true, false, not, ◌&&◌, ◌||◌, ◌==◌, nat_eq, nat_beq_iff,
  string_eq, ltb, Option, none, some, Bool-cases, lookup, lookup-insert, arith, inl, inr,
}
use yz_agent.DeviceGate.Types.{
  SourceKey, SourceState, Permit, Manager, is_empty, source_of, update_source, lacks, key_eq,
}
use yz_agent.DeviceGate.Lease.{not_ready, source_revoked}
use yz_agent.DeviceGate.Permits.{
  with_permit, permit_locked, valid, refused_with, granted, waits, join, serves, enter, acquire,
}
use yz_agent.DeviceGate.Bars.{source_of-lookup}

permit_locked-valid :
    (now n : ℕ) (s : SourceState) (m : Manager)
    → lookup n m.source_heap ≡ some s
    → s.revoked ≡ false
    → (not m.lease_cache || ltb now s.deadline) ≡ true
    → valid now m.next (permit_locked now n m).0 ≡ true
unfolding valid permit_locked update_source
permit_locked-valid now n s m e r d =
    let q : Permit = record { source = n; closing = false; bound = false; released = false } in
    let t = with_permit now (m.seq + 1) m.next s in
    let here : (n == n) ≡ true = ground (arith, nat_beq_iff n n) in
    let there : (m.next == m.next) ≡ true = ground (arith, nat_beq_iff m.next m.next) in
    rw
      (
        e,
        lookup-insert m.next m.next q m.permit_heap,
        there,
        lookup-insert n n t m.source_heap,
        here,
        r,
        d,
      )
      refl

granted_injective : {a b : ℕ} → granted a ≡ granted b → a ≡ b
granted_injective h = cc

enter-valid :
    (now : ℕ) (key : SourceKey) (found : Option (ℕ × SourceState)) (p : ℕ) (m : Manager)
    → ((n : ℕ) (s : SourceState) → found ≡ some (n, s) → lookup n m.source_heap ≡ some s)
    → (enter now key (serves now m.lease_cache found) m).1 ≡ granted p
    → valid now p (enter now key (serves now m.lease_cache found) m).0 ≡ true
unfolding permit_locked join
enter-valid now key none p m l h = cc
enter-valid now key (some (n, s)) p m l h =
    let b : Bool =
      (m.lease_cache || not (is_empty s.permits))
      && (not s.revoked && (not m.lease_cache || ltb now s.deadline)) in
    elim (Bool-cases b) [
      | inr e ↦ let k : waits m.next ≡ granted p = rw e at h in cc
      | inl e ↦
          let k : granted m.next ≡ granted p = rw e at h in
          let live : s.revoked ≡ false = ground (arith, e) in
          let early : (not m.lease_cache || ltb now s.deadline) ≡ true = ground (arith, e) in
          rw e (
            subst (λ x. valid now x (permit_locked now n m).0 ≡ true) (granted_injective k)
              (permit_locked-valid now n s m (l n s refl) live early))
    ]

-- A connection that is let in at once has a valid permit, and it is of a user of the node, by a gate that
-- is ready and not closing.
pub acquire-valid :
    (now : ℕ) (ended stopped : Bool) (key : SourceKey) (p : ℕ) (m : Manager)
    → (acquire now ended stopped key m).1 ≡ granted p
    → (valid now p (acquire now ended stopped key m).0 ≡ true)
      × ((lacks key.user m.users ≡ false) × ((m.ready ≡ true) × (m.closing ≡ false)))
unfolding acquire
acquire-valid now true stopped key p m h = cc
acquire-valid now false stopped key p m h =
    elim (Bool-cases (not m.ready || m.closing || stopped)) [
      | inl e ↦ let k : refused_with not_ready ≡ granted p = rw e at h in cc
      | inr e ↦ elim (Bool-cases (lacks key.user m.users)) [
        | inl f ↦ let k : refused_with source_revoked ≡ granted p = rw (e, f) at h in cc
        | inr f ↦
            let entered = enter now key (serves now m.lease_cache (source_of key m)) m in
            let k : entered.1 ≡ granted p = rw (e, f) at h in
            rw (e, f)
              (
                enter-valid now key (source_of key m) p m (λ n s. source_of-lookup key n s m) k,
                (refl, (ground (arith, e), ground (arith, e))),
              )
      ]
    ]
