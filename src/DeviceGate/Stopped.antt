-- ===== src/DeviceGate/Stopped.antt =====
-- What holds after the gate is closed, and after all its sources are.
use yz_agent.Prelude.{
  if_intro, ℕ, ◌+◌, ◌<◌, ◌≡◌, ◌≢◌, refl, sym, subst, ◌∙◌, String, Bool, true, false, not, ◌||◌,
  List, [], ◌∷◌, ◌==◌, nat_eq, nat_beq_iff, string_eq, if◌then◌else◌, Option, none, some,
  Option-cases, Bool-cases, lookup, lookup-insert, arith, inl, inr,
}
use yz_agent.DeviceGate.Types.{
  SourceKey, SourceState, Lease, Flight, Manager, is_empty, update_source, lacks, key_eq,
}
use yz_agent.DeviceGate.Revoke.{
  lease_grace, retire, remove_source, mark_revoked, close_source, close_at, close_sources,
  close_all,
}
use yz_agent.DeviceGate.Lease.{GateError, not_ready, source_revoked, refuses_lease, install}
use yz_agent.DeviceGate.Permits.{valid, granted, acquire, claim, claimed}
use yz_agent.DeviceGate.Session.{Answer, failed_with, answered, stop_start}
use yz_agent.DeviceGate.Grant.{admit_error, admit_found, admit}
use yz_agent.DeviceGate.Grows.{revoked_at, owner_of, Grows, Grows-refl, Grows-trans}
use yz_agent.DeviceGate.Revoked.{close_source-Grows, close_sources-Grows, revoke_permits-Grows}
use yz_agent.DeviceGate.Run.{Step, last_sent, last_sent-Allowed, run_steps, run_steps-Grows}
use yz_agent.DeviceGate.Silent.{revoked-Invalid}
use yz_agent.DeviceGate.Bars.{some_injective, close_source-revokes}
use yz_agent.DeviceGate.Entry.{acquire-valid}

acquire-closed :
    (now : ℕ) (ended stops : Bool) (key : SourceKey) (p : ℕ) (m : Manager)
    → m.closing ≡ true
    → (acquire now ended stops key m).1 ≢ granted p
acquire-closed now ended stops key p m c h =
    let (v, (l, (r, live))) = acquire-valid now ended stops key p m h in cc (c, live)

install-closed :
    (now : ℕ) (item : Lease) (deadline sequence : ℕ) (m : Manager)
    → m.closing ≡ true
    → install now item deadline sequence m ≡ (m, false)
unfolding install
install-closed now item deadline sequence m c =
    let refused : refuses_lease item sequence m ≡ true = ground (arith, c) in rw refused refl

-- The end of a turn that has a permit kept for it.
claim-closed :
    (now : ℕ) (ended stopped abandoned : Bool) (reserved : Option ℕ) (err : Option GateError)
    (m : Manager) (p : ℕ) (e : Option GateError)
    → m.closing ≡ true
    → (claim now ended stopped abandoned reserved err m).1 ≢ claimed (some p) e
unfolding claim
claim-closed now true stopped abandoned reserved err m p e c h = cc
claim-closed now false stopped abandoned reserved err m p e c h =
    let shut : claimed none (some not_ready) ≡ claimed (some p) e = rw c at h in cc

admit_error-closed :
    (now : ℕ) (ended stops : Bool) (key : SourceKey) (run : String) (f : Flight) (lease : String)
    (m : Manager)
    → m.closing ≡ true
    → admit_error now ended stops key run f lease m
      ≡ (if lacks key.user m.users then some source_revoked else some not_ready)
unfolding admit_error
admit_error-closed now ended stops key run f lease m c =
    let shut : (not m.ready || m.closing || not (m.run == run) || stops) ≡ true =
      ground (arith, c) in
    rw shut refl

admit-closed :
    (now : ℕ) (ended stops : Bool) (gone : ℕ → Bool) (key : SourceKey) (run : String)
    (answer : Answer String) (found : Option Flight) (m : Manager)
    → m.closing ≡ true
    → (admit_found now ended stops gone key run answer found m).1 ≡ []
admit-closed now ended stops gone key run answer none m c = refl
admit-closed now ended stops gone key run (failed_with e) (some f) m c = refl
admit-closed now ended stops gone key run (answered lease) (some f) m c =
    elim (Bool-cases (lacks key.user m.users)) [
      | inl e ↦ rw (admit_error-closed now ended stops key run f lease m c, e) refl
      | inr e ↦ rw (admit_error-closed now ended stops key run f lease m c, e) refl
    ]

close_at-other :
    (n k : ℕ) (found : Option SourceState) (m : Manager)
    → k ≢ n
    → lookup n (close_at k found m).0.source_heap ≡ lookup n m.source_heap
unfolding close_source update_source remove_source retire
close_at-other n k none m d = refl
close_at-other n k (some s) m d =
    let marked = update_source k mark_revoked m in
    let here : lookup n marked.source_heap ≡ lookup n m.source_heap =
      elim (Option-cases (lookup k m.source_heap)) [
        | inl e ↦ rw e refl
        | inr (t, e) ↦
            rw (e, lookup-insert k n (mark_revoked t) m.source_heap)
              (ground (arith, nat_beq_iff k n, d))
      ] in
    if_intro (λ x. lookup n x.source_heap ≡ lookup n m.source_heap) (is_empty s.permits)
      (remove_source s marked) marked (λ e. here) (λ e. here)

close_at-Grows :
    (bound : ℕ) (same : Bool) (k : ℕ) (found : Option SourceState) (m : Manager)
    → Grows bound same m (close_at k found m).0
close_at-Grows bound same k none m = Grows-refl m
close_at-Grows bound same k (some s) m = close_source-Grows k s m

found_later :
    (b : Bool) (r : Option ℕ) (j n : ℕ) → (if b then some j else r) ≡ some n → j ≢ n → r ≡ some n
found_later true r j n h d = absurd (d (some_injective h))
found_later false r j n h d = h

close_sources-revokes :
    (sources : List (SourceKey × ℕ)) (key : SourceKey) (n : ℕ) (s : SourceState) (m : Manager)
    → lookup key sources ≡ some n
    → lookup n m.source_heap ≡ some s
    → n < m.next
    → revoked_at n (close_sources sources m).0 ≡ true
unfolding close_sources
close_sources-revokes [] key n s m h e l = cc
close_sources-revokes ((k, j) ∷ rest) key n s m h e l =
    let m1 = (close_at j (lookup j m.source_heap) m).0 in
    let first = close_at-Grows 0 false j (lookup j m.source_heap) m in
    elim (Bool-cases (j == n)) [
      | inl same ↦
          let place : j ≡ n = ground (arith, nat_beq_iff j n, same) in
          let found : lookup j m.source_heap ≡ some s =
            subst (λ x. lookup x m.source_heap ≡ some s) (sym place) e in
          let dead : revoked_at j m1 ≡ true =
            rw found (close_source-revokes j s m found (omega (arith, l, place))) in
          let later : Grows 0 false m1 (close_sources rest m1).0 = close_sources-Grows rest m1 in
          subst (λ x. revoked_at x (close_sources rest m1).0 ≡ true) place
            (later.revoked j (omega (arith, l, place, first.next)) dead)
      | inr other ↦
          let place : j ≢ n = λ q. ground (arith, nat_beq_iff j n, other, q) in
          close_sources-revokes rest key n s m1
            (found_later (k == key) (lookup key rest) j n h place)
            (close_at-other n j (lookup j m.source_heap) m place ∙ e) (omega (arith, l, first.next))
    ]

module _ (public : String → String) where
  -- After Stop has set its flags, whatever follows: no connection is let in, at once, after an
  -- admission, or at the end of a wait with a permit that was kept for it before, and no lease is
  -- installed.
  pub stop_start-closed :
      (steps : List Step) (now : ℕ) (ended stops : Bool) (gone : ℕ → Bool) (key : SourceKey)
      (run : String) (answer : Answer String) (p : ℕ) (item : Lease) (deadline sequence : ℕ)
      (abandoned : Bool) (reserved : Option ℕ) (err e : Option GateError) (m : Manager)
      → let m' = run_steps public steps (stop_start m) in
        ((acquire now ended stops key m').1 ≢ granted p)
        × (((admit now ended stops gone key run answer m').1 ≡ [])
            × (((claim now ended stops abandoned reserved err m').1 ≢ claimed (some p) e)
                × (install now item deadline sequence m' ≡ (m', false))))
  unfolding admit stop_start
  stop_start-closed steps now ended stops gone key run answer p item deadline sequence abandoned
        reserved err e m =
      let m0 = stop_start m in
      let m' = run_steps public steps m0 in
      let bound = last_sent steps + lease_grace in
      let g =
        run_steps-Grows public bound false steps m0
          (last_sent-Allowed bound false steps (omega arith) (λ e. absurd (cc e))) in
      let shut = g.closing refl in
      (
        acquire-closed now ended stops key p m' shut,
        (
          admit-closed now ended stops gone key run answer (lookup key m'.flights) m' shut,
          (
            claim-closed now ended stops abandoned reserved err m' p e shut,
            install-closed now item deadline sequence m' shut,
          ),
        ),
      )

  -- When all is closed, at the end of a session or of the gate, no permit of a source that stood in
  -- the map is ever valid again, whatever steps follow.
  pub close_all-Invalid :
      (steps : List Step) (key : SourceKey) (n p now : ℕ) (s : SourceState) (m : Manager)
      → lookup key m.sources ≡ some n
      → lookup n m.source_heap ≡ some s
      → owner_of p m ≡ some n
      → p < m.next
      → n < m.next
      → valid now p (run_steps public steps (close_all m)) ≡ false
  unfolding close_all
  close_all-Invalid steps key n p now s m h e own lp ln =
      let (m1, permits) = close_sources m.sources m in
      let m2 = close_all m in
      let first : Grows 0 false m m1 = close_sources-Grows m.sources m in
      let closing : Grows 0 false m1 m2 = revoke_permits-Grows permits m1 in
      let all = Grows-trans first closing in
      revoked-Invalid public steps p n now m2 (omega (arith, lp, all.next))
        (omega (arith, ln, all.next)) (all.owner p n lp own)
        (closing.revoked n (omega (arith, ln, first.next))
          (close_sources-revokes m.sources key n s m h e ln))
