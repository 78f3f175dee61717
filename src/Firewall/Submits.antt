-- ===== src/Firewall/Submits.antt =====
-- What one call of the manager does with the plans: `apply` from its check on, and `reconcile`.
use yz_agent.Prelude.{
  ℕ, String, Bool, true, false, [], ◌∷◌, ◌≡◌, refl, sym, subst, ap, ◌∙◌, Option, none, some,
  Bool-cases, inl, inr, if◌then◌else◌, insert, erase, lookup, lookup-insert, lookup-erase, any,
  any-append, ◌==◌, string_eq, arith,
}
use yz_agent.Firewall.Rule.{Rule, overlaps}
use yz_agent.Firewall.Node.{Plan}
use yz_agent.Firewall.Combine.{
  GroupKey, Combined, combined, shared_port, clashing, Rules, all_allows, all_redirects,
  combine_plans,
}
use yz_agent.Firewall.Covers.{opens}
use yz_agent.Firewall.Targets.{combine_plans-opens}
use yz_agent.Firewall.Parts.{IsCombinable, IsCombinable-IsPart, select-IsPart}
use yz_agent.Firewall.Protection.{
  Plans, Failure, backend_failed, Backend, System, Manager, held_listeners, keep_owned, pending_key,
  add_pending, drop_pending, candidate_plans, update_protection, protect_backend, confirm_plan,
  protect, ready_plans,
}
use yz_agent.Firewall.Manager.{
  rules_or_none, written, write_rules, write_sources, write_active, reconcile, reconcile_backend,
  reconcile_union, submitted, submit,
}
use yz_agent.Firewall.Runs.{IsAgreed, reconcile-plans}

any-held_listeners-insert :
    (test : Rule → Bool) (owner : String) (plan : Plan) (confirm : Plans)
    → any test plan.listeners ≡ true
    → any test (held_listeners (insert owner plan confirm)) ≡ true
unfolding insert
any-held_listeners-insert test owner plan [] h = any-append test plan.listeners [] ∙ ground arith
any-held_listeners-insert test owner plan ((key, held) ∷ confirm) h =
    elim (Bool-cases (key == owner)) [
      | inl same ↦ rw same (any-append test plan.listeners (held_listeners confirm) ∙ ground arith)
      | inr other ↦ rw other (
          any-append test held.listeners (held_listeners (insert owner plan confirm))
          ∙ ground (arith, any-held_listeners-insert test owner plan confirm))
    ]

-- No call has been made of the back end, and its keepOwned holds for the rule.
abbrev pub Keeps : {S : Type 0} → Option (Backend S) → Option (Backend S) → Rule → Type 0
Keeps none none r = Unit
Keeps (some b) (some c) r = (c.state ≡ b.state) × (c.active ≡ b.active) × (keep_owned c r ≡ true)
Keeps none (some c) r = true ≡ false
Keeps (some b) none r = true ≡ false

protect_backend-Keeps :
    {S : Type 0} (m : Manager S) (found : Option (Backend S)) (r : Rule)
    → any (λ scope. overlaps scope r) (held_listeners m.confirm) ≡ true
    → Keeps found (protect_backend m found) r
protect_backend-Keeps m none r h = tt
protect_backend-Keeps m (some b) r h = (refl, refl, ground arith)

module _ {S : Type 0} (sys : System S) where
  submitted-refused :
      (m : Manager S) (owner : String) (plan : Plan) (r : Rule) (union : Combined)
      → combine_plans (candidate_plans m owner plan) ≡ union
      → ¬ IsCombinable (candidate_plans m owner plan)
      → any (λ scope. overlaps scope r) plan.listeners ≡ true
      → ((submitted sys m owner plan union).0.plans ≡ m.plans)
        × Keeps m.backend (submitted sys m owner plan union).0.backend r
  unfolding update_protection
  submitted-refused m owner plan r (combined rules) e alone h = elim (alone (rules, e)) [ ]
  submitted-refused m owner plan r shared_port e alone h = (
    refl,
    protect_backend-Keeps (confirm_plan owner plan m) m.backend r
        (any-held_listeners-insert (λ scope. overlaps scope r) owner plan m.confirm h),
  )
  submitted-refused m owner plan r clashing e alone h = (
    refl,
    protect_backend-Keeps (confirm_plan owner plan m) m.backend r
        (any-held_listeners-insert (λ scope. overlaps scope r) owner plan m.confirm h),
  )

  -- If a new plan has no union with the others and with those that wait, then the plans stay as they
  -- are and the back end, if there is one, is not called; and its keepOwned, by which it spares the
  -- rules that it owns, then holds for each rule that overlaps a listener of the new plan.
  pub submit-refused :
      (m : Manager S) (owner : String) (plan : Plan) (r : Rule)
      → ¬ IsCombinable (candidate_plans m owner plan)
      → any (λ scope. overlaps scope r) plan.listeners ≡ true
      → ((submit sys m owner plan).0.plans ≡ m.plans)
        × Keeps m.backend (submit sys m owner plan).0.backend r
  unfolding submit
  submit-refused m owner plan r alone h =
      submitted-refused m owner plan r (combine_plans (candidate_plans m owner plan)) refl alone h

-- The back end with the plans that are ready.
abbrev pub with_active : {S : Type 0} → Manager S → Backend S → Backend S
with_active m b = record b { active = ready_plans m.plans }

-- The manager after the call that writes the rules, and the result that it returns.
abbrev pub reported : {S : Type 0} → Manager S → Backend S → S × Bool → Manager S × Option Failure
reported m b o = (
  record m {
    backend = some (record b { state = o.0 });
    last_err = if o.1 then none else some backend_failed;
  },
  if o.1 then none else some backend_failed,
)

-- No plan that waits has the key, as its pending key.
abbrev pub IsPlain : String → Plans → Type 0
IsPlain key [] = Unit {0}
IsPlain key ((waiting, held) ∷ confirm) =
    ((pending_key waiting == key) ≡ false) × IsPlain key confirm

lookup-drop_pending :
    (key : String) (confirm candidate : Plans)
    → IsPlain key confirm
    → lookup key (drop_pending confirm candidate) ≡ lookup key candidate
lookup-drop_pending key [] candidate h = refl
lookup-drop_pending key ((waiting, held) ∷ confirm) candidate (fresh, h) =
    lookup-drop_pending key confirm (erase (pending_key waiting) candidate) h
    ∙ rw (lookup-erase (pending_key waiting) key candidate, fresh) refl

lookup-insert_unless :
    (key pending owner waiting : String) (held : Plan) (candidate : Plans)
    → (pending == key) ≡ false
    → lookup key (if waiting == owner then candidate else insert pending held candidate)
      ≡ lookup key candidate
lookup-insert_unless key pending owner waiting held candidate fresh =
    elim (Bool-cases (waiting == owner)) [
      | inl own ↦ rw own refl
      | inr other ↦ rw (other, lookup-insert pending key held candidate, fresh) refl
    ]

lookup-add_pending :
    (key owner : String) (confirm candidate : Plans)
    → IsPlain key confirm
    → lookup key (add_pending owner confirm candidate) ≡ lookup key candidate
lookup-add_pending key owner [] candidate h = refl
lookup-add_pending key owner ((waiting, held) ∷ confirm) candidate (fresh, h) =
    lookup-add_pending key owner confirm
      (if waiting == owner then candidate else insert (pending_key waiting) held candidate) h
    ∙ lookup-insert_unless key (pending_key waiting) owner waiting held candidate fresh

module _ {S : Type 0} (sys : System S) where
  submitted-accepted :
      (m : Manager S) (owner : String) (plan : Plan) (rules : Rules) (key : String)
      → IsPlain key m.confirm
      → lookup key (submitted sys m owner plan (combined rules)).0.plans
        ≡ (if owner == key then some plan else lookup key m.plans)
  submitted-accepted m owner plan rules key h =
      ap (λ plans. lookup key plans) (reconcile-plans sys _)
      ∙ (lookup-drop_pending key m.confirm (candidate_plans m owner plan) h
          ∙ (lookup-add_pending key owner m.confirm (insert owner plan m.plans) h
              ∙ lookup-insert owner key plan m.plans))

  -- If a new plan has a union with the others and with those that wait, then it is the plan of its
  -- owner, and the plans of all other owners are as before, for owners that no pending key spells.
  pub submit-accepted :
      (m : Manager S) (owner : String) (plan : Plan) (key : String)
      → IsCombinable (candidate_plans m owner plan)
      → IsPlain key m.confirm
      → lookup key (submit sys m owner plan).0.plans
        ≡ (if owner == key then some plan else lookup key m.plans)
  unfolding submit
  submit-accepted m owner plan key (rules, e) h =
      subst
        (λ u.
          lookup key (submitted sys m owner plan u).0.plans
          ≡ (if owner == key then some plan else lookup key m.plans))
        (sym e) (submitted-accepted m owner plan rules key h)

  written-reported :
      (m : Manager S) (b : Backend S) (o : S × Bool) → written sys m b o ≡ reported m b o
  written-reported m b (state, true) = refl
  written-reported m b (state, false) = refl

  write_active-reported :
      (m : Manager S) (b : Backend S) (s1 s2 : S) (rules : Rules)
      → sys.prepare_source_tools (with_active m b) m.plans ≡ (s1, true)
      → sys.apply_sources (record (with_active m b) { state = s1 }) m.plans ≡ (s2, true)
      → write_active sys m b rules
        ≡ reported m
            (with_active m b)
            (sys.apply_rules (record (with_active m b) { state = s2 }) rules.allows rules.redirects)
  unfolding write_active
  write_active-reported m b s1 s2 rules tools sources =
      let ready = with_active m b in
      ap (λ o. write_sources sys m ready rules o) tools
      ∙ (ap (λ o. write_rules sys m (record ready { state = s1 }) rules o) sources
          ∙ written-reported m (record ready { state = s2 })
              (sys.apply_rules (record ready { state = s2 }) rules.allows rules.redirects))

  -- If the plans of the manager have a union, and the back end prepares its tools and writes its
  -- filter of the sources, then reconcile ends in the call of the back end that writes the rules:
  -- with the merged rules of the plans that are ready, which open and redirect the ports that those
  -- plans do and no others. What that call returns is the new state of the back end and the result. So
  -- no conflict stops it, and the error that it ignores does not occur.
  pub reconcile-writes :
      (m : Manager S) (b : Backend S) (s1 s2 : S) (key : GroupKey) (port : ℕ)
      → m.backend ≡ some b
      → IsAgreed m
      → sys.prepare_source_tools (with_active m (protect m b)) m.plans ≡ (s1, true)
      → sys.apply_sources (record (with_active m (protect m b)) { state = s1 }) m.plans ≡ (s2, true)
      → (rules : Rules) × (combine_plans (ready_plans m.plans) ≡ combined rules)
        × (opens rules.allows key port ≡ opens (all_allows (ready_plans m.plans)) key port)
        × (opens rules.redirects key port ≡ opens (all_redirects (ready_plans m.plans)) key port)
        × (reconcile sys m
            ≡ reported m (with_active m (protect m b)) (
                sys.apply_rules
                  (record (with_active m (protect m b)) { state = s2 })
                  rules.allows
                  rules.redirects))
  unfolding reconcile
  reconcile-writes m b s1 s2 key port found (all, e) tools sources =
      let part = IsCombinable-IsPart (select-IsPart (λ p. p.1.ready) m.plans) (all, e) in
      let shown = combine_plans-opens (ready_plans m.plans) part.0 key port part.1 in
      (
        part.0,
        part.1,
        shown.0,
        shown.1,
        ap (λ o. reconcile_backend sys m o) found
            ∙ (ap (λ u. reconcile_union sys m (protect m b) u) e
                ∙ (ap (λ u. write_active sys m (protect m b) (rules_or_none u)) part.1
                    ∙ write_active-reported m (protect m b) s1 s2 part.0 tools sources)),
      )
