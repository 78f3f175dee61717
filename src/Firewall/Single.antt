-- ===== src/Firewall/Single.antt =====
-- The plan of one node: its redirections lead to its own port, and it never conflicts with itself.
use yz_agent.Prelude.{
  ℕ, String, false, ◌&&◌, List, [], ◌∷◌, ◌++◌, map, any, select, ◌≡◌, refl, subst, All, All-append,
  some, ◌==◌, nat_eq, nat_beq_iff, string_eq, if_intro, leb, ltb, codes, arith,
}
use yz_agent.PortSet.{Range, contains, covers, without}
use yz_agent.PortSet.Parse.{parse}
use yz_agent.PortSet.Cover.{covers-without}
use yz_agent.Firewall.Rule.{NetIp, Rule}
use yz_agent.Firewall.Node.{
  Result, ok, err, ◌>>=◌, guard, NodeSpec, Plan, is_enabled, listen_rule, listen_rules,
  redirect_rule, redirect_rules, relay_node, listener_protocols, hopping_ports, trim_space,
  no_hopping, not_ready, bad_port,
}
use yz_agent.Firewall.NodePlan.{
  listener_addresses, hopping_plan, restricted_plan, validate, prefix_texts, checked_plan,
  plan_for_node,
}
use yz_agent.Firewall.Combine.{clashes, any_clash, claim_of, claims_of, all_claims, any_share}
use yz_agent.Firewall.Targets.{combine_plans-passed}
use yz_agent.Firewall.Parts.{IsCombinable}

-- A property of the result, if there is one.
module _ {ℓ κ} {A : Type ℓ} (P : A → Type κ) where
  abbrev OnOk : Result A → Type κ
  OnOk (ok a) = P a
  OnOk (err e) = Unit

module _ {ℓ μ κ} {A : Type ℓ} {B : Type μ} (Q : B → Type κ) where
  OnOk-bind : (m : Result A) (f : A → Result B) → ((a : A) → OnOk Q (f a)) → OnOk Q (m >>= f)
  OnOk-bind (ok a) f h = h a
  OnOk-bind (err e) f h = tt

module _ {ℓ μ κ ν} {A : Type ℓ} {B : Type μ} (P : A → Type ν) (Q : B → Type κ) where
  OnOk-chain :
      (m : Result A) (f : A → Result B)
      → OnOk P m
      → ((a : A) → P a → OnOk Q (f a))
      → OnOk Q (m >>= f)
  OnOk-chain (ok a) f p h = h a p
  OnOk-chain (err e) f p h = tt

abbrev pub IsListen : ℕ → Rule → Type 0
IsListen port r = r.ports.from ≡ port

-- A redirection to the port, of others than it.
abbrev pub IsRedirect : ℕ → Rule → Type 0
IsRedirect port r = (r.target ≡ port) × (contains r.ports port ≡ false)

abbrev pub IsOnPort : ℕ → Plan → Type 0
IsOnPort port p = All (IsListen port) p.listeners × All (IsRedirect port) p.redirects

listen_rules-All :
    (port : ℕ) (addresses : List Rule) (protocols : List String)
    → All (IsListen port) (listen_rules port addresses protocols)
listen_rules-All port [] protocols = tt
listen_rules-All port (a ∷ addresses) protocols =
    All-append (IsListen port) (map (listen_rule port a) protocols)
      (listen_rules port addresses protocols) (listen_rule-All port a protocols)
      (listen_rules-All port addresses protocols)
  where
    listen_rule-All :
        (port : ℕ) (a : Rule) (protocols : List String)
        → All (IsListen port) (map (listen_rule port a) protocols)
    listen_rule-All port a [] = tt
    listen_rule-All port a (p ∷ protocols) = (refl, listen_rule-All port a protocols)

redirect_rule-All :
    (port : ℕ) (a : Rule) (ranges : List Range)
    → covers ranges port ≡ false
    → All (IsRedirect port) (map (redirect_rule port a) ranges)
redirect_rule-All port a [] h = tt
redirect_rule-All port a (r ∷ ranges) h =
    ((refl, ground arith), redirect_rule-All port a ranges (ground arith))

without-itself : (ranges : List Range) (port : ℕ) → covers (without ranges port) port ≡ false
without-itself ranges port = ground (arith, covers-without ranges port port, nat_beq_iff port port)

redirect_rules-All :
    (port : ℕ) (addresses : List Rule) (ranges : List Range)
    → All (IsRedirect port) (redirect_rules port addresses ranges)
redirect_rules-All port [] ranges = tt
redirect_rules-All port (a ∷ addresses) ranges =
    All-append (IsRedirect port) (map (redirect_rule port a) (without ranges port))
      (redirect_rules port addresses ranges)
      (redirect_rule-All port a (without ranges port) (without-itself ranges port))
      (redirect_rules-All port addresses ranges)

module _ (ip : NetIp) where
  hopping_plan-IsOnPort :
      (n : NodeSpec) (addresses : List Rule) (plan : Plan)
      → IsOnPort n.server_port plan
      → OnOk (IsOnPort n.server_port) (hopping_plan ip n addresses plan)
  unfolding hopping_plan
  hopping_plan-IsOnPort n addresses plan h =
      if_intro (OnOk (IsOnPort n.server_port)) (trim_space n.port_hopping == "") _ _ (λ unset. h)
        (λ set. OnOk-bind (IsOnPort n.server_port) (guard _ no_hopping) _ (λ u.
          OnOk-bind (IsOnPort n.server_port) (hopping_ports (parse (codes n.port_hopping))) _
            (λ ports. (h.0, redirect_rules-All n.server_port addresses ports))))

  restricted_plan-IsOnPort :
      (n : NodeSpec) (addresses : List Rule) (protocols : List String)
      → OnOk
          (IsOnPort n.server_port)
          (restricted_plan ip n (listen_rules n.server_port addresses protocols))
  unfolding restricted_plan
  restricted_plan-IsOnPort n addresses protocols =
      let own = listen_rules-All n.server_port addresses protocols in
      if_intro (OnOk (IsOnPort n.server_port)) (is_enabled n.source_policy) _ _
        (λ enabled. OnOk-bind (IsOnPort n.server_port) (validate ip n.source_policy) _ (λ u.
          OnOk-bind (IsOnPort n.server_port) (guard n.source_policy_ready not_ready) _ (λ w.
            OnOk-bind (IsOnPort n.server_port) (prefix_texts ip n.source_block_cidrs) _
              (λ blocked. (own, tt)))))
        (λ disabled. (own, tt))

  checked_plan-IsOnPort :
      (n : NodeSpec) (kernel : String) → OnOk (IsOnPort n.server_port) (checked_plan ip n kernel)
  unfolding checked_plan
  checked_plan-IsOnPort n kernel =
      OnOk-bind (IsOnPort n.server_port)
        (guard (ltb 0 n.server_port && leb n.server_port 65535) bad_port) _
        (λ u. OnOk-bind (IsOnPort n.server_port) (listener_addresses ip n.listen_ip) _ (λ addresses.
          OnOk-bind (IsOnPort n.server_port) (listener_protocols n kernel) _ (λ protocols.
            OnOk-chain (IsOnPort n.server_port) (IsOnPort n.server_port)
              (restricted_plan ip n (listen_rules n.server_port addresses protocols)) _
              (restricted_plan-IsOnPort n addresses protocols)
              (λ plan h. hopping_plan-IsOnPort n addresses plan h))))

-- The rules of a plan on one port claim that port alone as their target.
All-claims : (port : ℕ) (p : Plan) → IsOnPort port p → All (λ r. r.target ≡ port) (claims_of p)
All-claims port p (l, r) =
    All-append (λ r. r.target ≡ port) (map claim_of (select (λ r. r.protocol == "udp") p.listeners))
      p.redirects (listeners-All p.listeners l) (redirects-All p.redirects r)
  where
    redirects-All :
        (rules : List Rule) → All (IsRedirect port) rules → All (λ r. r.target ≡ port) rules
    redirects-All [] h = tt
    redirects-All (r ∷ rules) (hr, h) = (hr.0, redirects-All rules h)

    listeners-All :
        (rules : List Rule)
        → All (IsListen port) rules
        → All (λ r. r.target ≡ port) (map claim_of (select (λ r. r.protocol == "udp") rules))
    listeners-All [] h = tt
    listeners-All (r ∷ rules) (hr, h) =
        if_intro (λ rs. All (λ r. r.target ≡ port) (map claim_of rs)) (r.protocol == "udp") _ _
          (λ udp. (hr, listeners-All rules h)) (λ tcp. listeners-All rules h)

-- Rules with one target do not clash.
any_clash-one_target :
    (port : ℕ) (claims : List Rule) → All (λ r. r.target ≡ port) claims → any_clash claims ≡ false
unfolding any_clash
any_clash-one_target port [] h = refl
any_clash-one_target port (a ∷ claims) (ha, h) =
    ground (arith, clashes-All a claims, any_clash-one_target port claims h)
  where
    clashes-All :
        (a : Rule) (claims : List Rule)
        → a.target ≡ port
        → All (λ r. r.target ≡ port) claims
        → any (clashes a) claims ≡ false
    clashes-All a [] ha h = refl
    clashes-All a (b ∷ claims) ha (hb, h) =
        ground (arith, nat_eq.beq_iff a.target b.target, clashes-All a claims ha h)

module _ (ip : NetIp) where
  -- If the plan of a node is computed, then each listener of the plan starts at the port of the node
  -- (the port of the landing relay, when the node has one), and each redirection leads to that port
  -- and does not take the traffic of that port itself.
  pub plan_for_node-IsOnPort :
      (n : NodeSpec) (kernel : String) (plan : Plan)
      → plan_for_node ip (some n) kernel ≡ ok plan
      → IsOnPort (relay_node n n.relay).server_port plan
  unfolding plan_for_node
  plan_for_node-IsOnPort n kernel plan h =
      subst (OnOk (IsOnPort (relay_node n n.relay).server_port)) h
        (checked_plan-IsOnPort ip (relay_node n n.relay) kernel)

  -- A node whose plan is computed never conflicts with itself: its plan alone has a union.
  pub plan_for_node-IsCombinable :
      (n : NodeSpec) (owner kernel : String) (plan : Plan)
      → plan_for_node ip (some n) kernel ≡ ok plan
      → IsCombinable ((owner, plan) ∷ [])
  unfolding any_share all_claims
  plan_for_node-IsCombinable n owner kernel plan h =
      let port = (relay_node n n.relay).server_port in
      let claims =
        All-append (λ r. r.target ≡ port) (claims_of plan) []
          (All-claims port plan (plan_for_node-IsOnPort n kernel plan h)) tt in
      combine_plans-passed ((owner, plan) ∷ []) refl
        (any_clash-one_target port (claims_of plan ++ []) claims)
