-- ===== src/DeviceGate/Silent.antt =====
-- What holds after any number of steps.
use yz_agent.Prelude.{
  ℕ, ◌+◌, ◌≤◌, ◌<◌, ◌≡◌, refl, sym, subst, String, Bool, true, false, List, nat_eq, string_eq,
  Option, none, some, lookup, AllValues-lookup, arith,
}
use yz_agent.DeviceGate.Types.{SourceState, Permit, Manager, new_manager, is_revoked, key_eq}
use yz_agent.DeviceGate.Revoke.{lease_grace}
use yz_agent.DeviceGate.Permits.{is_open, open_permit, valid}
use yz_agent.DeviceGate.Grows.{Within, revoked_at, owner_of}
use yz_agent.DeviceGate.Run.{Step, last_sent, last_sent-Allowed, run_steps, run_steps-Grows}

is_open-late :
    (now t : ℕ) (found : Option SourceState)
    → ((s : SourceState) → found ≡ some s → s.deadline ≤ t)
    → t ≤ now
    → is_open now true found ≡ false
is_open-late now t none h l = refl
is_open-late now t (some s) h l = ground (arith, h s refl, l)

is_open-revoked :
    (now : ℕ) (cached : Bool) (found : Option SourceState)
    → is_revoked found ≡ true
    → is_open now cached found ≡ false
is_open-revoked now cached none h = refl
is_open-revoked now cached (some s) h = ground (arith, h)

some_injective : {a b : ℕ} → some a ≡ some b → a ≡ b
some_injective h = cc

open_permit-closed :
    (now : ℕ) (m : Manager) (found : Option Permit)
    → ((q : Permit)
        → found ≡ some q
        → is_open now m.lease_cache (lookup q.source m.source_heap) ≡ false)
    → open_permit now m found ≡ false
open_permit-closed now m none h = refl
open_permit-closed now m (some q) h = rw (h q refl) (ground arith)

module _ (public : String → String) where
  -- After any steps of a new gate that leave it with the lease cache, no connection is valid at a
  -- time an hour or more after the last request of leases was sent.
  pub silent-Invalid :
      (steps : List Step) (p now : ℕ)
      → (run_steps public steps new_manager).lease_cache ≡ true
      → last_sent steps + lease_grace ≤ now
      → valid now p (run_steps public steps new_manager) ≡ false
  unfolding valid
  silent-Invalid steps p now cached l =
      let m = run_steps public steps new_manager in
      let bound = last_sent steps + lease_grace in
      let g =
        run_steps-Grows public bound false steps new_manager
          (last_sent-Allowed bound false steps (omega arith) (λ e. absurd (cc e))) in
      open_permit-closed now m (lookup p m.permit_heap) (λ q e. rw cached (
        is_open-late now bound (lookup q.source m.source_heap)
          (λ s f. AllValues-lookup (Within bound) q.source m.source_heap (g.deadlines tt) f) l))

  -- A permit whose source is revoked is never valid again.
  pub revoked-Invalid :
      (steps : List Step) (p n now : ℕ) (m : Manager)
      → p < m.next
      → n < m.next
      → owner_of p m ≡ some n
      → revoked_at n m ≡ true
      → valid now p (run_steps public steps m) ≡ false
  unfolding valid
  revoked-Invalid steps p n now m lp ln o r =
      let m' = run_steps public steps m in
      let bound = last_sent steps + lease_grace in
      let g =
        run_steps-Grows public bound false steps m
          (last_sent-Allowed bound false steps (omega arith) (λ e. absurd (cc e))) in
      let dead = g.revoked n ln r in
      let own = g.owner p n lp o in
      open_permit-closed now m' (lookup p m'.permit_heap) (λ q e.
        let k : some q.source ≡ some n = rw e at own in
        is_open-revoked now m'.lease_cache (lookup q.source m'.source_heap)
          (subst (λ x. revoked_at x m' ≡ true) (sym (some_injective k)) dead))
