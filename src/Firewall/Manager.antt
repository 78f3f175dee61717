-- ===== src/Firewall/Manager.antt =====
-- The calls of the manager: manager.go.
use yz_agent.Prelude.{
  String, Bool, true, false, not, ◌&&◌, ◌||◌, List, [], ◌∷◌, string_eq, if◌then◌else◌, Option, none,
  some, erase, has_key,
}
use yz_agent.Firewall.Rule.{NetIp}
use yz_agent.Firewall.Node.{Result, ok, err, NodeSpec, Plan, manages, is_enabled}
use yz_agent.Firewall.NodePlan.{plan_for_node}
use yz_agent.Firewall.Combine.{Combined, combined, shared_port, clashing, Rules, combine_plans}
use yz_agent.Firewall.Protection.{
  Failure, stopped, disabled, needs_linux, no_redirects, not_released, backend_failed, port_shared,
  ports_clash, bad_plan, Backend, System, Manager, is_none, is_empty, ready_plans, drop_pending,
  candidate_plans, protect, update_protection, confirm_plan, expecting, begin_discovery,
  expect_nodes,
}

abbrev pub no_rules : Rules
no_rules = record { allows = []; redirects = [] }

abbrev pub rules_or_none : Combined → Rules
rules_or_none (combined rules) = rules
rules_or_none shared_port = no_rules
rules_or_none clashing = no_rules

abbrev pub Outcome : Type 0 → Type 0
Outcome S = Manager S × Option Failure

module _ {S : Type 0} (sys : System S) where
  open sys use {prepare_source_tools, apply_sources, apply_rules, close, holds_rules}

  abbrev ended : Manager S → Backend S → S → Option Failure → Outcome S
  ended m b state failure =
      (record m { backend = some (record b { state = state }); last_err = failure }, failure)

  -- The calls of the back end, each only after the one before it succeeded.
  abbrev pub written : Manager S → Backend S → S × Bool → Outcome S
  written m b (state, true) = ended m b state none
  written m b (state, false) = ended m b state (some backend_failed)

  abbrev pub write_rules : Manager S → Backend S → Rules → S × Bool → Outcome S
  write_rules m b rules (state, true) =
      written m b (apply_rules (record b { state = state }) rules.allows rules.redirects)
  write_rules m b rules (state, false) = ended m b state (some backend_failed)

  abbrev pub write_sources : Manager S → Backend S → Rules → S × Bool → Outcome S
  write_sources m b rules (state, true) =
      write_rules m b rules (apply_sources (record b { state = state }) m.plans)
  write_sources m b rules (state, false) = ended m b state (some backend_failed)

  -- The rules of the plans that are ready, to the system.
  unfoldable pub write_active : Manager S → Backend S → Rules → Outcome S
  write_active m b rules =
      let ready = record b { active = ready_plans m.plans } in
      write_sources m ready rules (prepare_source_tools ready m.plans)

  abbrev pub reconcile_union : Manager S → Backend S → Combined → Outcome S
  reconcile_union m b (combined all) =
      write_active m b (rules_or_none (combine_plans (ready_plans m.plans)))
  reconcile_union m b shared_port = ended m b b.state (some port_shared)
  reconcile_union m b clashing = ended m b b.state (some ports_clash)

  abbrev pub reconcile_backend : Manager S → Option (Backend S) → Outcome S
  reconcile_backend m none = (m, none)
  reconcile_backend m (some b) = reconcile_union m (protect m b) (combine_plans m.plans)

  -- `reconcile`
  unfoldable pub reconcile : Manager S → Outcome S
  reconcile m = reconcile_backend m m.backend

  -- A plan is taken if it agrees with all others, those that wait included; else it waits itself.
  abbrev pub submitted : Manager S → String → Plan → Combined → Outcome S
  submitted m owner plan (combined rules) = reconcile (record m {
    plans = drop_pending m.confirm (candidate_plans m owner plan);
    confirm = erase owner m.confirm;
  })
  submitted m owner plan shared_port =
      (update_protection (confirm_plan owner plan m), some port_shared)
  submitted m owner plan clashing =
      (update_protection (confirm_plan owner plan m), some ports_clash)

  unfoldable pub submit : Manager S → String → Plan → Outcome S
  submit m owner plan = submitted m owner plan (combine_plans (candidate_plans m owner plan))

  -- No error of `PlanForNode` asks for a confirmation.
  abbrev pub take_plan : Manager S → String → Bool → Result Plan → Outcome S
  take_plan m owner ready (err e) = (expecting owner m, some (bad_plan e))
  take_plan m owner ready (ok p) =
      if p.restricted && (not m.linux || is_none m.backend)
      then (m, some needs_linux)
      else if not m.linux && not (is_empty p.redirects)
      then (expecting owner m, some no_redirects)
      else submit (expecting owner m) owner (record p { ready = ready })

  abbrev pub reports_left : Option (Backend S) → Bool
  reports_left none = false
  reports_left (some b) = holds_rules b.state

  abbrev pub is_recovering : Option (Backend S) → Bool
  is_recovering none = false
  is_recovering (some b) = b.recovering

  abbrev pub released : String → Manager S → Manager S
  released owner m =
      update_protection (record (expecting owner m) {
        confirm = erase owner m.confirm;
        plans = erase owner m.plans;
      })

  -- `Release`
  unfoldable pub release : Manager S → String → Outcome S
  release m owner =
      let next = released owner m in
      if m.closed
      then (m, none)
      else if reports_left next.backend
      then (if is_recovering next.backend then (next, some not_released) else reconcile next)
      else if not (has_key owner m.plans) && is_none m.last_err && not (has_key owner m.confirm)
      then (next, none)
      else reconcile next

  abbrev closed_backend : Option (Backend S) → Option (Backend S)
  closed_backend none = none
  closed_backend (some b) = some (record b { state = (close b).0 })

  abbrev close_failed : Option (Backend S) → Bool
  close_failed none = false
  close_failed (some b) = not (close b).1

  abbrev pub after_close : Outcome S → Outcome S
  after_close (m, failure) = (
    record m { backend = closed_backend m.backend; closed = true },
    if is_none failure && close_failed m.backend then some backend_failed else failure,
  )

  -- `Close`, once the timer has stopped.
  unfoldable pub close_manager : Manager S → Outcome S
  close_manager m =
      if m.closed
      then (m, none)
      else after_close
          (reconcile (record m { plans = []; confirm = []; discovery = []; expected = none }))

  abbrev pub first_backend : Bool → S → Backend S
  first_backend recovering state = record {
    state = state;
    active = [];
    recovering = recovering;
    protected = [];
  }

  abbrev first_manager : Bool → Bool → Option (Backend S) → Manager S
  first_manager enabled linux backend = record {
    plans = [];
    backend = backend;
    enabled = enabled;
    linux = linux;
    closed = false;
    last_err = none;
    confirm = [];
    discovery = [];
    expected = none;
  }

  abbrev pub cleaned_sources : S × Bool → Option (Manager S)
  cleaned_sources (state, true) = some (first_manager false true (some (first_backend false state)))
  cleaned_sources (state, false) = none

  abbrev pub cleaned_rules : S × Bool → Option (Manager S)
  cleaned_rules (state, true) = cleaned_sources (apply_sources (first_backend false state) [])
  cleaned_rules (state, false) = none

  -- `New`, once the configuration holds and the back end is open.
  unfoldable pub new_manager : Bool → Bool → S → Option (Manager S)
  new_manager enabled linux state =
      if not linux
      then some (first_manager enabled false none)
      else if enabled
      then some (first_manager true true (some (first_backend true state)))
      else cleaned_rules (apply_rules (first_backend false state) [] [])

  module _ (ip : NetIp) where
    abbrev pub node_manages : Option NodeSpec → Bool
    node_manages none = true
    node_manages (some n) = manages n.auto_firewall

    abbrev pub node_restricts : Option NodeSpec → Bool
    node_restricts none = false
    node_restricts (some n) = is_enabled n.source_policy

    -- `apply`: `Apply` with `ready`, and `Prepare` without.
    unfoldable pub apply : Manager S → String → Option NodeSpec → String → Bool → Outcome S
    apply m owner node kernel ready =
        if not (node_manages node)
        then release m owner
        else if m.closed
        then (m, some stopped)
        else if not m.enabled
        then (m, if node_restricts node then some disabled else none)
        else take_plan m owner ready (plan_for_node ip node kernel)

    -- A call from outside, the tick of the timer included.
    pub data Call : Type 0 where
      apply_node : String → Option NodeSpec → String → Bool → Call
      release_owner : String → Call
      tick : Call
      begin : List String → Call
      expect : String → List String → Call
      stop : Call

    abbrev pub step : Manager S → Call → Outcome S
    step m (apply_node owner node kernel ready) = apply m owner node kernel ready
    step m (release_owner owner) = release m owner
    step m tick = reconcile m
    step m (begin instances) = (begin_discovery instances m, none)
    step m (expect instance_name ids) = (expect_nodes instance_name ids m, none)
    step m stop = close_manager m

    unfoldable pub run : Manager S → List Call → Manager S
    run m [] = m
    run m (c ∷ calls) = run (step m c).0 calls
