-- ===== src/Firewall/Rule.antt =====
-- A rule: plan.go.
use yz_agent.Prelude.{
  ℕ, String, Bool, false, not, ◌&&◌, ◌||◌, List, [], ◌∷◌, ◌++◌, ◌==◌, nat_eq, string_eq, leb,
  if◌then◌else◌, Option, none, some, codes,
}
use yz_agent.PortSet
use yz_agent.PortSet.{Range}
use yz_agent.PortSet.Print.{itoa, print_range}

-- net/netip.
pub record NetIp : Type 1 where
  pub Addr : Type 0
  pub parse_addr : String → Option Addr
  pub zone : Addr → String
  pub unmap : Addr → Addr
  pub is4 : Addr → Bool
  pub is4in6 : Addr → Bool
  pub is_unspecified : Addr → Bool
  pub is_multicast : Addr → Bool
  pub is_global_unicast : Addr → Bool
  pub same_addr : Addr → Addr → Bool
  pub text_of : Addr → String
  pub Prefix : Type 0
  pub parse_prefix : String → Option Prefix
  pub prefix_addr : Prefix → Addr
  pub masked_text : Prefix → String
  pub is_masked : Prefix → Bool

pub record Rule : Type 0 where
  pub family : ℕ
  pub address : String
  pub source : String
  pub protocol : String
  pub ports : Range
  pub target : ℕ

module _ (ip : NetIp) where
  open ip use {Addr, parse_addr, zone, is4, is_unspecified, is_global_unicast}

  abbrev is_family : ℕ → Addr → Bool
  is_family family a = if is4 a then family == 4 else not (family == 4)

  abbrev is_listen : ℕ → Option Addr → Bool
  is_listen family none = false
  is_listen family (some a) = not (is_unspecified a) && is_family family a

  abbrev is_source : Rule → Option Addr → Bool
  is_source r none = false
  is_source r (some a) =
      zone a == "" && is_global_unicast a && is_family r.family a && r.target == 0

  -- `Rule.valid`
  unfoldable pub valid_rule : Rule → Bool
  valid_rule r =
      (r.family == 4 || r.family == 6)
      && PortSet.valid r.ports
      && (r.protocol == "tcp" || r.protocol == "udp")
      && leb r.target 65535
      && (r.target == 0 || r.protocol == "udp")
      && (r.address == "" || is_listen r.family (parse_addr r.address))
      && (r.source == "" || is_source r (parse_addr r.source))

-- `Rule.key`
unfoldable pub rule_text : Rule → List ℕ
rule_text r =
    itoa r.family
    ++ (b'/' ∷ codes r.address
        ++ (b'/' ∷ codes r.protocol
            ++ (b'/' ∷ print_range r.ports
                ++ (b'/' ∷ itoa r.target
                    ++ (if r.source == "" then [] else b'/' ∷ codes r.source)))))

abbrev pub same_address : String → String → Bool
same_address a b = a == "" || b == "" || a == b

-- `overlaps`
abbrev pub overlaps : Rule → Rule → Bool
overlaps a b =
    a.family == b.family
    && a.protocol == b.protocol
    && same_address a.address b.address
    && PortSet.overlaps a.ports b.ports
