-- ===== src/Firewall/Examples.antt =====
-- Tests of the firewall's plans and its manager, and the theorems at concrete inputs.
use yz_agent.Prelude.{
  ℕ, String, true, false, List, [], ◌∷◌, ◌≡◌, refl, none, some, insert, lookup, suc, ltb, string_eq,
  trim_text, equal_fold,
}
use yz_agent.PortSet.{without, merge}
use yz_agent.PortSet.Parse.{parse}
use yz_agent.Firewall.Rule.{NetIp, Rule}
use yz_agent.Firewall.Node.{
  NodeSpec, Plan, ok, err, no_hopping, empty_plan, listener_protocols, uses_xhttp3,
}
use yz_agent.Firewall.NodePlan.{
  checked_plan, hopping_plan, restricted_plan, listener_addresses, validate, plan_for_node,
}
use yz_agent.Firewall.Combine.{
  GroupKey, Rules, combined, clashing, any_share, any_clash, all_claims, all_redirects, all_allows,
  combine_plans,
}
use yz_agent.Firewall.Targets.{combine_plans-passed, combine_plans-opens, combine_plans-one_target}
use yz_agent.Firewall.Covers.{opens}
use yz_agent.Firewall.Parts.{IsCombinable}
use yz_agent.Firewall.Single.{IsOnPort, plan_for_node-IsOnPort, plan_for_node-IsCombinable}
use yz_agent.Firewall.Protection.{Plans, Backend, System, Manager, candidate_plans, protect}
use yz_agent.Firewall.Manager.{
  Call, apply_node, release_owner, tick, begin, expect, stop, new_manager, run, submit, reconcile,
}
use yz_agent.Firewall.Runs.{IsAgreed, run-new_manager}
use yz_agent.Firewall.Submits.{
  Keeps, with_active, reported, submit-refused, submit-accepted, reconcile-writes,
}

-- Addresses that are read as they stand, all of them of IPv4.
abbrev pub plain_ip : NetIp
plain_ip = record {
  Addr = String;
  parse_addr = some;
  zone = λ a. "";
  unmap = λ a. a;
  is4 = λ a. true;
  is4in6 = λ a. false;
  is_unspecified = λ a. false;
  is_multicast = λ a. false;
  is_global_unicast = λ a. true;
  same_addr = λ a b. false;
  text_of = λ a. a;
  Prefix = String;
  parse_prefix = some;
  prefix_addr = λ p. p;
  masked_text = λ p. p;
  is_masked = λ p. true;
}

abbrev hopping_node : NodeSpec
hopping_node = record {
  relay = none;
  auto_firewall = none;
  server_port = 5;
  listen_ip = "10.0.0.1";
  protocol = "hysteria";
  version = 2;
  network = "";
  transport = "";
  tls = 0;
  alpn = [];
  balancer_network = none;
  source_policy = none;
  source_policy_ready = false;
  source_block_cidrs = [];
  port_hopping = "4-7";
}

abbrev pub rule_at : String → ℕ → ℕ → ℕ → Rule
rule_at address from to target = record {
  family = 4;
  address = address;
  source = "";
  protocol = "udp";
  ports = record { from = from; to = to };
  target = target;
}

abbrev hopping_plan_of : Plan
hopping_plan_of = record empty_plan {
  ready = true;
  listeners = rule_at "10.0.0.1" 5 5 0 ∷ [];
  redirects = rule_at "10.0.0.1" 4 4 5 ∷ rule_at "10.0.0.1" 6 7 5 ∷ [];
}

plan_runs : plan_for_node plain_ip (some hopping_node) "sing-box" ≡ ok hopping_plan_of
unfolding plan_for_node checked_plan hopping_plan restricted_plan listener_addresses
    listener_protocols uses_xhttp3 validate trim_text equal_fold parse without merge
plan_runs = refl

bad_hopping_runs :
    plan_for_node plain_ip (some (record hopping_node { version = 1 })) "sing-box" ≡ err no_hopping
unfolding plan_for_node checked_plan hopping_plan restricted_plan listener_addresses
    listener_protocols uses_xhttp3 validate trim_text equal_fold
bad_hopping_runs = refl

-- A second node that takes the same ports for the same target, and one for another.
abbrev twin_plan : Plan
twin_plan = record hopping_plan_of { redirects = rule_at "" 6 9 5 ∷ [] }

abbrev rival_plan : Plan
rival_plan = record hopping_plan_of {
  listeners = rule_at "10.0.0.1" 9 9 0 ∷ [];
  redirects = rule_at "10.0.0.1" 7 8 9 ∷ [];
}

abbrev pair_of_plans : Plans
pair_of_plans = ("a", hopping_plan_of) ∷ ("b", twin_plan) ∷ []

pair-IsCombinable : IsCombinable pair_of_plans
unfolding any_share any_clash all_claims
pair-IsCombinable = combine_plans-passed pair_of_plans refl refl

rivals_clash : combine_plans (("a", hopping_plan_of) ∷ ("c", rival_plan) ∷ []) ≡ clashing
unfolding combine_plans any_share any_clash all_claims
rivals_clash = refl

abbrev redirect_key : String → ℕ → GroupKey
redirect_key address target = record {
  family = 4;
  address = address;
  protocol = "udp";
  target = target;
  source = "";
}

combine_plans-opens_example :
    (opens pair-IsCombinable.0.allows (redirect_key "10.0.0.1" 0) 7
      ≡ opens (all_allows pair_of_plans) (redirect_key "10.0.0.1" 0) 7)
    × (opens pair-IsCombinable.0.redirects (redirect_key "10.0.0.1" 0) 7
        ≡ opens (all_redirects pair_of_plans) (redirect_key "10.0.0.1" 0) 7)
combine_plans-opens_example =
    combine_plans-opens pair_of_plans pair-IsCombinable.0 (redirect_key "10.0.0.1" 0) 7
      pair-IsCombinable.1

all_claims_open : opens (all_claims pair_of_plans) (redirect_key "10.0.0.1" 5) 7 ≡ true
unfolding all_claims
all_claims_open = refl

redirects_open : opens pair-IsCombinable.0.redirects (redirect_key "" 5) 7 ≡ true
unfolding all_redirects
redirects_open =
    (combine_plans-opens pair_of_plans pair-IsCombinable.0 (redirect_key "" 5) 7
      pair-IsCombinable.1).1

combine_plans-one_target_example : (redirect_key "10.0.0.1" 5).target ≡ (redirect_key "" 5).target
combine_plans-one_target_example =
    combine_plans-one_target pair_of_plans pair-IsCombinable.0 (redirect_key "10.0.0.1" 5)
      (redirect_key "" 5) 7 pair-IsCombinable.1 all_claims_open redirects_open refl refl

plan_for_node-IsOnPort_example : IsOnPort 5 hopping_plan_of
plan_for_node-IsOnPort_example =
    plan_for_node-IsOnPort plain_ip hopping_node "sing-box" hopping_plan_of plan_runs

plan_for_node-IsCombinable_example : IsCombinable (("a", hopping_plan_of) ∷ [])
plan_for_node-IsCombinable_example =
    plan_for_node-IsCombinable plain_ip hopping_node "a" "sing-box" hopping_plan_of plan_runs

-- A back end for which every call succeeds, and which counts them.
abbrev counting_system : System ℕ
counting_system = record {
  prepare_source_tools = λ b plans. (suc b.state, true);
  apply_sources = λ b plans. (suc b.state, true);
  apply_rules = λ b allows redirects. (suc b.state, true);
  close = λ b. (suc b.state, true);
  holds_rules = λ state. ltb 0 state;
}

abbrev first_backend_of : Backend ℕ
first_backend_of = record { state = 0; active = []; recovering = true; protected = [] }

abbrev first_manager_of : Manager ℕ
first_manager_of = record {
  plans = [];
  backend = some first_backend_of;
  enabled = true;
  linux = true;
  closed = false;
  last_err = none;
  confirm = [];
  discovery = [];
  expected = none;
}

abbrev some_calls : List (Call counting_system plain_ip)
some_calls =
    begin ("i" ∷ [])
    ∷ apply_node "a" (some hopping_node) "sing-box" true
    ∷ expect "i" ("1" ∷ [])
    ∷ tick
    ∷ release_owner "a"
    ∷ stop
    ∷ []

run-new_manager_example : IsAgreed (run counting_system plain_ip first_manager_of some_calls)
unfolding new_manager
run-new_manager_example =
    run-new_manager counting_system plain_ip true true 0 first_manager_of some_calls refl

abbrev manager_with_a : Manager ℕ
manager_with_a = record first_manager_of {
  plans = ("a", hopping_plan_of) ∷ [];
  confirm = ("d", empty_plan) ∷ [];
}

rival-alone : ¬ IsCombinable (candidate_plans manager_with_a "c" rival_plan)
unfolding insert combine_plans any_share any_clash all_claims
rival-alone (rules, e) = cc

submit-refused_example :
    ((submit counting_system manager_with_a "c" rival_plan).0.plans ≡ ("a", hopping_plan_of) ∷ [])
    × Keeps
        (some first_backend_of)
        (submit counting_system manager_with_a "c" rival_plan).0.backend
        (rule_at "" 9 9 0)
submit-refused_example =
    submit-refused counting_system manager_with_a "c" rival_plan (rule_at "" 9 9 0) rival-alone refl

twin-agrees : IsCombinable (candidate_plans manager_with_a "b" twin_plan)
unfolding insert any_share any_clash all_claims
twin-agrees = combine_plans-passed (candidate_plans manager_with_a "b" twin_plan) refl refl

submit-accepted_example :
    lookup "b" (submit counting_system manager_with_a "b" twin_plan).0.plans ≡ some twin_plan
submit-accepted_example =
    submit-accepted counting_system manager_with_a "b" twin_plan "b" twin-agrees (refl, tt)

reconcile-writes_example :
    (rules : Rules) × (combine_plans (("a", hopping_plan_of) ∷ []) ≡ combined rules)
    × (opens rules.allows (redirect_key "10.0.0.1" 0) 7 ≡ true)
    × (opens rules.redirects (redirect_key "10.0.0.1" 0) 7 ≡ false)
    × (reconcile counting_system manager_with_a
        ≡ reported manager_with_a
            (with_active manager_with_a (protect manager_with_a first_backend_of))
            (3, true))
unfolding all_allows all_redirects
reconcile-writes_example =
    reconcile-writes counting_system manager_with_a first_backend_of 1 2 (redirect_key "10.0.0.1" 0)
      7 refl plan_for_node-IsCombinable_example refl refl
