-- ===== src/Firewall/Combine.antt =====
-- The union of the plans: `combinePlans` and `mergeRules` of plan.go.
use yz_agent.Prelude.{
  ℕ, String, Bool, true, false, not, ◌&&◌, ◌||◌, List, [], ◌∷◌, ◌++◌, map, any, select, ◌≡◌, ◌↔◌,
  ap, ◌==◌, Eq, nat_eq, string_eq, if◌then◌else◌, Option, none, some, lookup, insert, codes_before,
  arith,
}
use yz_agent.PortSet
use yz_agent.PortSet.{Range, merge}
use yz_agent.Firewall.Rule.{Rule, rule_text, overlaps, same_address}
use yz_agent.Firewall.Node.{Plan}

-- What `mergeRules` groups by; the texts hold no slash, so that the source's text of it tells groups
-- apart.
pub record GroupKey : Type 0 where
  pub family : ℕ
  pub address : String
  pub protocol : String
  pub target : ℕ
  pub source : String

abbrev pub same_group : GroupKey → GroupKey → Bool
same_group a b =
    a.family == b.family
    && a.address == b.address
    && a.protocol == b.protocol
    && a.target == b.target
    && a.source == b.source

pub same_group_iff : (a b : GroupKey) → (same_group a b ≡ true) ↔ (a ≡ b)
same_group_iff a b = (
  λ h.
      let f : a.family ≡ b.family = ground (arith, nat_eq.beq_iff a.family b.family, h) in
      let d : a.address ≡ b.address = ground (arith, string_eq.beq_iff a.address b.address, h) in
      let p : a.protocol ≡ b.protocol =
        ground (arith, string_eq.beq_iff a.protocol b.protocol, h) in
      let t : a.target ≡ b.target = ground (arith, nat_eq.beq_iff a.target b.target, h) in
      let s : a.source ≡ b.source = ground (arith, string_eq.beq_iff a.source b.source, h) in
      λ i. record { family = f i; address = d i; protocol = p i; target = t i; source = s i },
  λ h.
      let f = ap (λ k. k.family) h in
      let d = ap (λ k. k.address) h in
      let p = ap (λ k. k.protocol) h in
      let t = ap (λ k. k.target) h in
      let s = ap (λ k. k.source) h in
      ground (
        arith,
        nat_eq.beq_iff a.family b.family,
        string_eq.beq_iff a.address b.address,
        string_eq.beq_iff a.protocol b.protocol,
        nat_eq.beq_iff a.target b.target,
        string_eq.beq_iff a.source b.source,
        f,
        d,
        p,
        t,
        s,
      ),
)

instance abbrev pub group_eq : Eq GroupKey
group_eq = record { beq = same_group; beq_iff = same_group_iff }

abbrev pub group_of : Rule → GroupKey
group_of r = record {
  family = r.family;
  address = r.address;
  protocol = r.protocol;
  target = r.target;
  source = r.source;
}

pub record Group : Type 0 where
  pub rule : Rule
  pub ports : List Range

abbrev pub joined : Rule → Option Group → Group
joined r none = record { rule = r; ports = r.ports ∷ [] }
joined r (some g) = record g { ports = g.ports ++ (r.ports ∷ []) }

unfoldable pub group_rules : List Rule → List (GroupKey × Group) → List (GroupKey × Group)
group_rules [] groups = groups
group_rules (r ∷ rules) groups =
    group_rules rules (insert (group_of r) (joined r (lookup (group_of r) groups)) groups)

abbrev pub with_ports : Rule → Range → Rule
with_ports r ports = record r { ports = ports }

unfoldable pub merged_groups : List (GroupKey × Group) → List Rule
merged_groups [] = []
merged_groups ((key, g) ∷ groups) = map (with_ports g.rule) (merge g.ports) ++ merged_groups groups

unfoldable pub insert_rule : Rule → List Rule → List Rule
insert_rule r [] = r ∷ []
insert_rule r (s ∷ rest) =
    if codes_before (rule_text s) (rule_text r) then s ∷ insert_rule r rest else r ∷ s ∷ rest

unfoldable pub sort_rules : List Rule → List Rule
unfolding insert_rule
sort_rules [] = []
sort_rules (r ∷ rest) = insert_rule r (sort_rules rest)

-- `mergeRules`
unfoldable pub merge_rules : List Rule → List Rule
merge_rules rules = sort_rules (merged_groups (group_rules rules []))

abbrev pub rules_of : Plan → List Rule
rules_of p = p.listeners ++ p.redirects

-- Two rules of different plans that may not share their port.
abbrev pub shares : Plan → Plan → Rule → Rule → Bool
shares left right a b =
    overlaps a b
    && (left.restricted || right.restricted || not (a.source == "") || not (b.source == ""))

abbrev pub plans_share : Plan → Plan → Bool
plans_share left right =
    any (λ a. any (λ b. shares left right a b) (rules_of right)) (rules_of left)

unfoldable pub any_share : List (String × Plan) → Bool
any_share [] = false
any_share ((owner, left) ∷ plans) = any (λ p. plans_share left p.1) plans || any_share plans

-- A listener on UDP claims its port for itself.
abbrev pub claim_of : Rule → Rule
claim_of r = record r { target = r.ports.from }

abbrev pub claims_of : Plan → List Rule
claims_of p = map claim_of (select (λ r. r.protocol == "udp") p.listeners) ++ p.redirects

unfoldable pub all_claims : List (String × Plan) → List Rule
all_claims [] = []
all_claims ((owner, p) ∷ plans) = claims_of p ++ all_claims plans

-- A redirection opens its ports too.
abbrev pub allow_of : Rule → Rule
allow_of r = record r { target = 0 }

abbrev pub allows_of : Plan → List Rule
allows_of p = p.listeners ++ map allow_of p.redirects

unfoldable pub all_allows : List (String × Plan) → List Rule
all_allows [] = []
all_allows ((owner, p) ∷ plans) = allows_of p ++ all_allows plans

unfoldable pub all_redirects : List (String × Plan) → List Rule
all_redirects [] = []
all_redirects ((owner, p) ∷ plans) = p.redirects ++ all_redirects plans

-- Two claims that send one port to different listeners.
abbrev pub clashes : Rule → Rule → Bool
clashes a b =
    a.family == b.family
    && same_address a.address b.address
    && PortSet.overlaps a.ports b.ports
    && not (a.target == b.target)

unfoldable pub any_clash : List Rule → Bool
any_clash [] = false
any_clash (a ∷ claims) = any (clashes a) claims || any_clash claims

pub record Rules : Type 0 where
  pub allows : List Rule
  pub redirects : List Rule

pub data Combined : Type 0 where
  combined : Rules → Combined
  shared_port : Combined
  clashing : Combined

-- `combinePlans`
unfoldable pub combine_plans : List (String × Plan) → Combined
combine_plans plans =
    if any_share plans
    then shared_port
    else if any_clash (all_claims plans)
    then clashing
    else combined (record {
      allows = merge_rules (all_allows plans);
      redirects = merge_rules (all_redirects plans);
    })
