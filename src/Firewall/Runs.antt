-- ===== src/Firewall/Runs.antt =====
-- The plans of the manager always agree, whatever calls it gets.
use yz_agent.Prelude.{
  String, Bool, true, false, not, ◌&&◌, ◌||◌, List, [], ◌∷◌, ◌≡◌, refl, sym, subst, Option, none,
  some, if◌then◌else◌, erase, has_key, string_eq,
}
use yz_agent.Firewall.Rule.{NetIp}
use yz_agent.Firewall.Node.{Result, ok, err, NodeSpec, Plan}
use yz_agent.Firewall.NodePlan.{plan_for_node}
use yz_agent.Firewall.Combine.{
  Combined, combined, shared_port, clashing, Rules, combine_plans, any_share, any_clash, all_claims,
}
use yz_agent.Firewall.Targets.{combine_plans-passed}
use yz_agent.Firewall.Parts.{IsCombinable, IsCombinable-IsPart, erase-IsPart}
use yz_agent.Firewall.Protection.{
  Plans, stopped, disabled, needs_linux, no_redirects, not_released, is_empty, Backend, System,
  Manager, pending_key, drop_pending, candidate_plans, update_protection, begin_discovery,
  expect_nodes, expecting, protect, ready_plans, is_none,
}
use yz_agent.Firewall.Manager.{
  Outcome, cleaned_sources, cleaned_rules, first_backend, node_manages, node_restricts,
  reports_left, is_recovering, rules_or_none, reconcile_backend, written, write_rules,
  write_sources, write_active, reconcile, reconcile_union, submitted, submit, take_plan, release,
  released, close_manager, apply, Call, apply_node, release_owner, tick, begin, expect, stop, step,
  run, new_manager,
}

-- The plans of the manager have a union.
abbrev pub IsAgreed : {S : Type 0} → Manager S → Type 0
IsAgreed m = IsCombinable m.plans

pub IsAgreed-none : IsCombinable []
unfolding any_share any_clash all_claims
IsAgreed-none = combine_plans-passed [] refl refl

-- A property of the value, if there is one.
abbrev OnSome {ℓ κ} : {A : Type ℓ} → (A → Type κ) → Option A → Type κ
OnSome P none = Unit
OnSome P (some a) = P a

-- The plans that a call leaves have one.
record AgreedAfter {S : Type 0} (o : Outcome S) : Type 0 where
  agreed : IsAgreed o.0

if_AgreedAfter :
    {S : Type 0} (b : Bool) (x y : Outcome S)
    → AgreedAfter x
    → AgreedAfter y
    → AgreedAfter (if b then x else y)
if_AgreedAfter true x y hx hy = hx
if_AgreedAfter false x y hx hy = hy

drop_pending-IsCombinable :
    (confirm candidate : Plans)
    → IsCombinable candidate
    → IsCombinable (drop_pending confirm candidate)
drop_pending-IsCombinable [] candidate h = h
drop_pending-IsCombinable ((key, held) ∷ confirm) candidate h =
    drop_pending-IsCombinable confirm (erase (pending_key key) candidate)
      (IsCombinable-IsPart (erase-IsPart (pending_key key) candidate) h)

module _ {S : Type 0} (sys : System S) where
  written-plans :
      (m : Manager S) (b : Backend S) (o : S × Bool) → (written sys m b o).0.plans ≡ m.plans
  written-plans m b (state, true) = refl
  written-plans m b (state, false) = refl

  write_rules-plans :
      (m : Manager S) (b : Backend S) (rules : Rules) (o : S × Bool)
      → (write_rules sys m b rules o).0.plans ≡ m.plans
  write_rules-plans m b rules (state, true) =
      written-plans m b (sys.apply_rules (record b { state = state }) rules.allows rules.redirects)
  write_rules-plans m b rules (state, false) = refl

  write_sources-plans :
      (m : Manager S) (b : Backend S) (rules : Rules) (o : S × Bool)
      → (write_sources sys m b rules o).0.plans ≡ m.plans
  write_sources-plans m b rules (state, true) =
      write_rules-plans m b rules (sys.apply_sources (record b { state = state }) m.plans)
  write_sources-plans m b rules (state, false) = refl

  reconcile_union-plans :
      (m : Manager S) (b : Backend S) (union : Combined)
      → (reconcile_union sys m b union).0.plans ≡ m.plans
  unfolding write_active
  reconcile_union-plans m b (combined all) =
      write_sources-plans m (record b { active = ready_plans m.plans })
        (rules_or_none (combine_plans (ready_plans m.plans)))
        (sys.prepare_source_tools (record b { active = ready_plans m.plans }) m.plans)
  reconcile_union-plans m b shared_port = refl
  reconcile_union-plans m b clashing = refl

  reconcile_backend-plans :
      (m : Manager S) (found : Option (Backend S))
      → (reconcile_backend sys m found).0.plans ≡ m.plans
  reconcile_backend-plans m none = refl
  reconcile_backend-plans m (some b) = reconcile_union-plans m (protect m b) (combine_plans m.plans)

  pub reconcile-plans : (m : Manager S) → (reconcile sys m).0.plans ≡ m.plans
  unfolding reconcile
  reconcile-plans m = reconcile_backend-plans m m.backend

  cleaned_sources-IsAgreed : (o : S × Bool) → OnSome (λ n. IsAgreed n) (cleaned_sources sys o)
  cleaned_sources-IsAgreed (state, true) = IsAgreed-none
  cleaned_sources-IsAgreed (state, false) = tt

  cleaned_rules-IsAgreed : (o : S × Bool) → OnSome (λ n. IsAgreed n) (cleaned_rules sys o)
  cleaned_rules-IsAgreed (state, true) =
      cleaned_sources-IsAgreed (sys.apply_sources (first_backend sys false state) [])
  cleaned_rules-IsAgreed (state, false) = tt

  new_manager-IsAgreed :
      (enabled linux : Bool) (state : S)
      → OnSome (λ n. IsAgreed n) (new_manager sys enabled linux state)
  unfolding new_manager
  new_manager-IsAgreed enabled false state = IsAgreed-none
  new_manager-IsAgreed true true state = IsAgreed-none
  new_manager-IsAgreed false true state =
      cleaned_rules-IsAgreed (sys.apply_rules (first_backend sys false state) [] [])

  reconcile-AgreedAfter : (m : Manager S) → IsAgreed m → AgreedAfter (reconcile sys m)
  reconcile-AgreedAfter m h = record { agreed = subst IsCombinable (sym (reconcile-plans m)) h }

  submitted-AgreedAfter :
      (m : Manager S) (owner : String) (plan : Plan) (union : Combined)
      → combine_plans (candidate_plans m owner plan) ≡ union
      → IsAgreed m
      → AgreedAfter (submitted sys m owner plan union)
  unfolding update_protection
  submitted-AgreedAfter m owner plan (combined rules) e h =
      reconcile-AgreedAfter
        (record m {
          plans = drop_pending m.confirm (candidate_plans m owner plan);
          confirm = erase owner m.confirm;
        })
        (drop_pending-IsCombinable m.confirm (candidate_plans m owner plan) (rules, e))
  submitted-AgreedAfter m owner plan shared_port e h = record { agreed = h }
  submitted-AgreedAfter m owner plan clashing e h = record { agreed = h }

  submit-AgreedAfter :
      (m : Manager S) (owner : String) (plan : Plan)
      → IsAgreed m
      → AgreedAfter (submit sys m owner plan)
  unfolding submit
  submit-AgreedAfter m owner plan h =
      submitted-AgreedAfter m owner plan (combine_plans (candidate_plans m owner plan)) refl h

  take_plan-AgreedAfter :
      (m : Manager S) (owner : String) (ready : Bool) (found : Result Plan)
      → IsAgreed m
      → AgreedAfter (take_plan sys m owner ready found)
  take_plan-AgreedAfter m owner ready (err e) h = record { agreed = h }
  take_plan-AgreedAfter m owner ready (ok p) h =
      if_AgreedAfter (p.restricted && (not m.linux || is_none m.backend)) (m, some needs_linux) _
        (record { agreed = h })
        (if_AgreedAfter (not m.linux && not (is_empty p.redirects))
          (expecting owner m, some no_redirects) _ (record { agreed = h })
          (submit-AgreedAfter (expecting owner m) owner (record p { ready = ready }) h))

  release-AgreedAfter :
      (m : Manager S) (owner : String) → IsAgreed m → AgreedAfter (release sys m owner)
  unfolding release update_protection
  release-AgreedAfter m owner h =
      let left : IsAgreed (released sys owner m) =
        IsCombinable-IsPart (erase-IsPart owner m.plans) h in
      let next = reconcile-AgreedAfter (released sys owner m) left in
      let after = released sys owner m in
      if_AgreedAfter m.closed (m, none) _ (record { agreed = h })
        (if_AgreedAfter (reports_left sys after.backend) _ _
          (if_AgreedAfter (is_recovering sys after.backend) (after, some not_released) _
            (record { agreed = left }) next)
          (if_AgreedAfter
            (not (has_key owner m.plans) && is_none m.last_err && not (has_key owner m.confirm))
            (after, none) _ (record { agreed = left }) next))

  close_manager-AgreedAfter : (m : Manager S) → IsAgreed m → AgreedAfter (close_manager sys m)
  unfolding close_manager
  close_manager-AgreedAfter m h =
      let emptied = record m { plans = []; confirm = []; discovery = []; expected = none } in
      if_AgreedAfter m.closed (m, none) _ (record { agreed = h })
        (record { agreed = (reconcile-AgreedAfter emptied IsAgreed-none).agreed })

  module _ (ip : NetIp) where
    apply-AgreedAfter :
        (m : Manager S) (owner : String) (node : Option NodeSpec) (kernel : String) (ready : Bool)
        → IsAgreed m
        → AgreedAfter (apply sys ip m owner node kernel ready)
    unfolding apply
    apply-AgreedAfter m owner node kernel ready h =
        if_AgreedAfter (not (node_manages sys ip node)) _ _ (release-AgreedAfter m owner h) (
          if_AgreedAfter m.closed (m, some stopped) _ (record { agreed = h })
            (if_AgreedAfter (not m.enabled)
              (m, if node_restricts sys ip node then some disabled else none) _
              (record { agreed = h })
              (take_plan-AgreedAfter m owner ready (plan_for_node ip node kernel) h)))

    step-AgreedAfter :
        (m : Manager S) (c : Call sys ip) → IsAgreed m → AgreedAfter (step sys ip m c)
    unfolding begin_discovery expect_nodes update_protection
    step-AgreedAfter m (apply_node owner node kernel ready) h =
        apply-AgreedAfter m owner node kernel ready h
    step-AgreedAfter m (release_owner owner) h = release-AgreedAfter m owner h
    step-AgreedAfter m tick h = reconcile-AgreedAfter m h
    step-AgreedAfter m (begin instances) h = record { agreed = h }
    step-AgreedAfter m (expect instance_name ids) h = record { agreed = h }
    step-AgreedAfter m stop h = close_manager-AgreedAfter m h

    run-IsAgreed :
        (m : Manager S) (calls : List (Call sys ip)) → IsAgreed m → IsAgreed (run sys ip m calls)
    unfolding run
    run-IsAgreed m [] h = h
    run-IsAgreed m (c ∷ calls) h =
        run-IsAgreed (step sys ip m c).0 calls (step-AgreedAfter m c h).agreed

    -- If a manager is made, then after any calls its plans have a union: after applied and released
    -- nodes, discoveries, ticks of the timer and the end, whatever the back end answers.
    pub run-new_manager :
        (enabled linux : Bool) (state : S) (m : Manager S) (calls : List (Call sys ip))
        → new_manager sys enabled linux state ≡ some m
        → IsAgreed (run sys ip m calls)
    run-new_manager enabled linux state m calls h =
        run-IsAgreed m calls
          (subst (OnSome (λ n. IsAgreed n)) h (new_manager-IsAgreed enabled linux state))
