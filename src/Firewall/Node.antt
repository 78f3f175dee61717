-- ===== src/Firewall/Node.antt =====
-- The plan of a node: `PlanForNode` of plan.go, with the parts of internal/model and
-- internal/sourcepolicy that it asks.
use yz_agent.Prelude.{
  ℕ, String, Bool, true, false, ◌&&◌, ◌||◌, List, [], ◌∷◌, ◌++◌, map, ◌==◌, nat_eq, string_eq,
  if◌then◌else◌, Option, none, some, is_space_code, trim_text, is_lower_of, equal_fold,
}
use yz_agent.PortSet.{Range, without}
use yz_agent.PortSet.Parse as Ports
use yz_agent.PortSet.Parse.{parse}
use yz_agent.Firewall.Rule.{Rule}

pub data PlanError : Type 0 where
  bad_port bad_address no_network unknown_protocol bad_policy : PlanError
  not_ready bad_prefix no_hopping bad_hopping : PlanError

-- What a Go function with an error returns.
pub data Result {ℓ} (A : Type ℓ) : Type ℓ where
  err : PlanError → Result A
  ok : A → Result A

module _ {ℓ κ} {A : Type ℓ} {B : Type κ} where
  infixl 5 ◌>>=◌ ◌>>◌
  abbrev pub ◌>>=◌ : Result A → (A → Result B) → Result B
  err reason >>= next = err reason
  ok value >>= next = next value

  abbrev pub ◌>>◌ : Result A → Result B → Result B
  check >> next = check >>= λ done. next

abbrev pub guard : Bool → PlanError → Result (Unit {0})
guard passed reason = if passed then ok tt else err reason

-- `sourcepolicy.Policy`
pub record Policy : Type 0 where
  pub mode : String
  pub block_cn : Bool
  pub allow_ips : List String
  pub block_ips : List String

-- `model.RelayConfig`, as far as it is asked.
pub record RelayConfig : Type 0 where
  pub mode : String
  pub protocol : String
  pub listen_port : ℕ

-- `model.NodeSpec`, as far as it is asked; `alpn` is what the settings of TLS decode to, and
-- `balancer_network` the network of a balancer, if there is one.
pub record NodeSpec : Type 0 where
  pub relay : Option RelayConfig
  pub auto_firewall : Option Bool
  pub server_port : ℕ
  pub listen_ip : String
  pub protocol : String
  pub version : ℕ
  pub network : String
  pub transport : String
  pub tls : ℕ
  pub alpn : List String
  pub balancer_network : Option String
  pub source_policy : Option Policy
  pub source_policy_ready : Bool
  pub source_block_cidrs : List String
  pub port_hopping : String

pub record Plan : Type 0 where
  pub ready : Bool
  pub listeners : List Rule
  pub redirects : List Rule
  pub restricted : Bool
  pub blocked : List String

abbrev pub empty_plan : Plan
empty_plan = record {
  ready = false;
  listeners = [];
  redirects = [];
  restricted = false;
  blocked = [];
}

abbrev pub trim_space : String → String
trim_space s = trim_text is_space_code s

abbrev pub is_landing : Option RelayConfig → Bool
is_landing none = false
is_landing (some r) = r.mode == "landing"

-- `NodeSpec.ManagesFirewall`
abbrev pub manages : Option Bool → Bool
manages none = true
manages (some b) = b

-- `Policy.Enabled`
abbrev pub is_enabled : Option Policy → Bool
is_enabled none = false
is_enabled (some p) = p.mode == "blacklist" || p.mode == "whitelist" || (p.mode == "" && p.block_cn)

abbrev is_only : String → List String → Bool
is_only s [] = false
is_only s (t ∷ []) = t == s
is_only s (t ∷ u ∷ rest) = false

-- `xhttp.Is` and `xhttp.IsH3`
abbrev is_xhttp : String → Bool
is_xhttp network =
    equal_fold (trim_space network) "xhttp" || equal_fold (trim_space network) "splithttp"

unfoldable pub uses_xhttp3 : NodeSpec → Bool
uses_xhttp3 n = is_xhttp n.network && n.tls == 1 && is_only "h3" n.alpn

abbrev balancer_protocols : Option String → Result (List String)
balancer_protocols none = err no_network
balancer_protocols (some network) = if network == "tcp" then ok (network ∷ []) else err no_network

-- `listenerProtocols`
unfoldable pub listener_protocols : NodeSpec → String → Result (List String)
listener_protocols n kernel =
    let is : String → Bool = λ name. n.protocol == name in
    if uses_xhttp3 n
    then ok ("udp" ∷ [])
    else if is "balancer"
    then balancer_protocols n.balancer_network
    else if is "hysteria" || is "tuic" || is "wireguard"
    then ok ("udp" ∷ [])
    else if is "shadowsocks" || is "naive"
    then ok ("tcp" ∷ "udp" ∷ [])
    else if is "socks"
    then ok (if kernel == "xray" then "tcp" ∷ "udp" ∷ [] else "tcp" ∷ [])
    else if is "http" || is "anytls"
    then ok ("tcp" ∷ [])
    else if is "mieru"
    then ok (if equal_fold n.transport "UDP" then "udp" ∷ [] else "tcp" ∷ [])
    else if is "vmess" || is "vless" || is "trojan"
    then ok (
        if is_lower_of n.network "kcp"
          || is_lower_of n.network "mkcp"
          || is_lower_of n.network "quic"
          || is_lower_of n.network "hysteria"
        then "udp" ∷ []
        else "tcp" ∷ [])
    else err unknown_protocol

abbrev pub base_rule : ℕ → String → Rule
base_rule family address = record {
  family = family;
  address = address;
  source = "";
  protocol = "";
  ports = record { from = 0; to = 0 };
  target = 0;
}

-- The rule of a listener.
abbrev pub listen_rule : ℕ → Rule → String → Rule
listen_rule port address protocol = record address {
  protocol = protocol;
  ports = record { from = port; to = port };
}

abbrev pub listen_rules : ℕ → List Rule → List String → List Rule
listen_rules port [] protocols = []
listen_rules port (a ∷ addresses) protocols =
    map (listen_rule port a) protocols ++ listen_rules port addresses protocols

-- The redirections of a listener, for the ports other than its own.
abbrev pub redirect_rule : ℕ → Rule → Range → Rule
redirect_rule port address ports = record address { protocol = "udp"; ports = ports; target = port }

abbrev pub redirect_rules : ℕ → List Rule → List Range → List Rule
redirect_rules port [] ranges = []
redirect_rules port (a ∷ addresses) ranges =
    map (redirect_rule port a) (without ranges port) ++ redirect_rules port addresses ranges

abbrev pub is_bracket : ℕ → Bool
is_bracket c = c == b'[' || c == b']'

abbrev pub relay_node : NodeSpec → Option RelayConfig → NodeSpec
relay_node n none = n
relay_node n (some r) =
    if r.mode == "landing"
    then record n {
      protocol = r.protocol;
      server_port = if r.listen_port == 0 then n.server_port else r.listen_port;
    }
    else n

abbrev pub hopping_ports : Ports.Result (List Range) → Result (List Range)
hopping_ports (Ports.ok ranges) = ok ranges
hopping_ports (Ports.err e) = err bad_hopping
