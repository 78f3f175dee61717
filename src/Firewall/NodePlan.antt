-- ===== src/Firewall/NodePlan.antt =====
-- The plan of a node: `PlanForNode` of plan.go, with `Validate` of internal/sourcepolicy.
use yz_agent.Prelude.{
  String, Bool, true, not, ◌&&◌, ◌||◌, List, [], ◌∷◌, length, any, ◌==◌, nat_eq, string_eq, leb,
  ltb, if◌then◌else◌, Option, none, some, codes, trim_text,
}
use yz_agent.PortSet.Parse.{parse}
use yz_agent.Firewall.Rule.{NetIp, Rule}
use yz_agent.Firewall.Node.{
  NodeSpec, Plan, Policy, Result, bad_address, bad_policy, bad_port, bad_prefix, base_rule,
  empty_plan, err, guard, hopping_ports, is_bracket, is_enabled, is_landing, listen_rules,
  listener_protocols, no_hopping, not_ready, ok, redirect_rules, relay_node, trim_space, ◌>>=◌,
  ◌>>◌,
}

module _ (ip : NetIp) where
  open ip use {
    Addr, parse_addr, zone, unmap, is4, is4in6, is_unspecified, is_multicast, same_addr, text_of,
    Prefix, parse_prefix, prefix_addr, masked_text,
  }

  abbrev bad_address_of : List Addr → Option Addr → Bool
  bad_address_of seen none = true
  bad_address_of seen (some a) =
      not (zone a == "")
      || is_unspecified (unmap a)
      || is_multicast (unmap a)
      || any (λ b. same_addr b (unmap a)) seen

  abbrev seen_with : List Addr → Option Addr → List Addr
  seen_with seen none = seen
  seen_with seen (some a) = unmap a ∷ seen

  abbrev check_addresses : List Addr → List String → Result (Unit {0})
  check_addresses seen [] = ok tt
  check_addresses seen (value ∷ values) =
      let found = parse_addr (trim_space value) in
      let rest = check_addresses (seen_with seen found) values in
      if bad_address_of seen found then err bad_policy else rest

  abbrev check_list : List String → Result (Unit {0})
  check_list values = guard (leb (length values) 128) bad_policy >> check_addresses [] values

  -- `Policy.Validate`
  unfoldable pub validate : Option Policy → Result (Unit {0})
  validate none = ok tt
  validate (some p) =
      guard (p.mode == "" || p.mode == "disabled" || p.mode == "blacklist" || p.mode == "whitelist")
        bad_policy
      >> (guard (not (p.mode == "whitelist") || not (length p.allow_ips == 0)) bad_policy
          >> (check_list p.allow_ips >> check_list p.block_ips))

  abbrev prefix_text : Option Prefix → Result String
  prefix_text none = err bad_prefix
  prefix_text (some p) =
      if not (zone (prefix_addr p) == "") || is4in6 (prefix_addr p)
      then err bad_prefix
      else ok (masked_text p)

  abbrev pub prefix_texts : List String → Result (List String)
  prefix_texts [] = ok []
  prefix_texts (raw ∷ rest) =
      prefix_text (parse_prefix raw) >>= λ text. prefix_texts rest >>= λ texts. ok (text ∷ texts)

  abbrev one_address : Option Addr → Result (List Rule)
  one_address none = err bad_address
  one_address (some a) =
      if not (zone a == "")
      then err bad_address
      else ok (
          base_rule (if is4 (unmap a) then 4 else 6)
            (if is_unspecified (unmap a) then "" else text_of (unmap a))
          ∷ [])

  -- `listenerAddresses`
  unfoldable pub listener_addresses : String → Result (List Rule)
  listener_addresses raw =
      let trimmed = trim_space raw in
      if trimmed == "" || trimmed == "::" || trimmed == "[::]"
      then ok (base_rule 4 "" ∷ base_rule 6 "" ∷ [])
      else one_address (parse_addr (trim_text is_bracket trimmed))

  -- The plan before its redirections, by the policy of the sources.
  unfoldable pub restricted_plan : NodeSpec → List Rule → Result Plan
  restricted_plan n listeners =
      let open_plan = record empty_plan { ready = true; listeners = listeners } in
      if is_enabled n.source_policy
      then validate n.source_policy
        >> (guard n.source_policy_ready not_ready
            >> (prefix_texts n.source_block_cidrs >>= λ blocked.
                ok (record open_plan { restricted = true; blocked = blocked })))
      else ok open_plan

  unfoldable pub hopping_plan : NodeSpec → List Rule → Plan → Result Plan
  hopping_plan n addresses plan =
      if trim_space n.port_hopping == ""
      then ok plan
      else guard (n.protocol == "hysteria" && n.version == 2 && not (is_landing n.relay)) no_hopping
        >> (hopping_ports (parse (codes n.port_hopping)) >>= λ ports.
            ok (record plan { redirects = redirect_rules n.server_port addresses ports }))

  unfoldable pub checked_plan : NodeSpec → String → Result Plan
  checked_plan n kernel =
      guard (ltb 0 n.server_port && leb n.server_port 65535) bad_port
      >> (listener_addresses n.listen_ip >>= λ addresses.
          listener_protocols n kernel >>= λ protocols.
          restricted_plan n (listen_rules n.server_port addresses protocols) >>= λ plan.
          hopping_plan n addresses plan)

  -- `PlanForNode`
  unfoldable pub plan_for_node : Option NodeSpec → String → Result Plan
  unfolding checked_plan
  plan_for_node none kernel = ok empty_plan
  plan_for_node (some n) kernel = checked_plan (relay_node n n.relay) kernel
