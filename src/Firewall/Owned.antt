-- ===== src/Firewall/Owned.antt =====
-- What the back end keeps on the disk of the rules it made: state.go, with the check of the records of
-- sources (source_filter.go, source_iptables.go) and of the name of a zone (config/firewall.go).
use yz_agent.Prelude.{
  ℕ, String, Bool, true, false, not, ◌&&◌, ◌||◌, List, [], ◌∷◌, any, length, ◌==◌, nat_eq,
  string_eq, leb, if◌then◌else◌, Option, none, some, codes,
}
use Prim.Native.String.{◌++◌ as text_append}
use yz_agent.Firewall.Rule.{NetIp, Rule, valid_rule}

-- Go's int, where it may be negative.
pub data ℤ : Type 0 where
  pos : ℕ → ℤ
  negsuc : ℕ → ℤ

abbrev pub same_int : ℤ → ℤ → Bool
same_int (pos m) (pos n) = m == n
same_int (negsuc m) (negsuc n) = m == n
same_int (pos m) (negsuc n) = false
same_int (negsuc m) (pos n) = false

-- `ownedRule`
pub record OwnedRule : Type 0 where
  pub backend : String
  pub zone : String
  pub rule : Rule
  pub priority : ℤ

-- `sourcePlan`
pub record SourcePlan : Type 0 where
  pub owner : String
  pub listeners : List Rule
  pub blocked : List String

-- `savedState`
pub record SavedState : Type 0 where
  pub version : ℕ
  pub scope : String
  pub namespace : String
  pub owned : List OwnedRule
  pub redirect : String
  pub redirect_families : List ℕ
  pub source_driver : String
  pub source_plans : List SourcePlan
  pub source_sets : List String

abbrev pub same_rule : Rule → Rule → Bool
same_rule a b =
    a.family == b.family
    && a.address == b.address
    && a.source == b.source
    && a.protocol == b.protocol
    && a.ports.from == b.ports.from
    && a.ports.to == b.ports.to
    && a.target == b.target

abbrev pub same_owned : OwnedRule → OwnedRule → Bool
same_owned a b =
    a.backend == b.backend
    && a.zone == b.zone
    && same_rule a.rule b.rule
    && same_int a.priority b.priority

abbrev has_text : String → List String → Bool
has_text s texts = any (λ t. t == s) texts

abbrev pub all_true {ℓ} : {A : Type ℓ} → (A → Bool) → List A → Bool
all_true test [] = true
all_true test (x ∷ xs) = test x && all_true test xs

abbrev is_driver : String → Bool
is_driver name = name == "" || name == "nftables" || name == "iptables"

abbrev is_zone_code : ℕ → Bool
is_zone_code c =
    (leb b'a' c && leb c b'z')
    || (leb b'A' c && leb c b'Z')
    || (leb b'0' c && leb c b'9')
    || c == b'_'
    || c == b'-'

-- `ValidateFirewall` of a configuration with a zone alone.
unfoldable pub valid_zone : String → Bool
valid_zone zone = all_true is_zone_code (codes zone)

-- A text behind a prefix.
abbrev after_prefix : List ℕ → List ℕ → Option (List ℕ)
after_prefix [] s = some s
after_prefix (c ∷ prefix) [] = none
after_prefix (c ∷ prefix) (d ∷ s) = if c == d then after_prefix prefix s else none

abbrev is_set_code : ℕ → Bool
is_set_code c = c == b'_' || c == b't' || (leb b'0' c && leb c b'9') || (leb b'a' c && leb c b'f')

abbrev is_set_rest : Option (List ℕ) → Bool
is_set_rest none = false
is_set_rest (some rest) = all_true is_set_code rest && leb 12 (length rest)

-- `ownsSourceSetName`; the identifier is made of the digest of the scope.
unfoldable pub owns_set_name : String → String → Bool
owns_set_name source_id name =
    leb (length (codes name)) 31
    && is_set_rest
        (after_prefix (codes (text_append "YZS_" (text_append source_id "_"))) (codes name))

abbrev pub initial_state : String → SavedState
initial_state scope = record {
  version = 1;
  scope = scope;
  namespace = "yz-agent";
  owned = [];
  redirect = "";
  redirect_families = [];
  source_driver = "";
  source_plans = [];
  source_sets = [];
}

module _ (ip : NetIp) (source_id : String) where
  open ip use {parse_prefix, prefix_addr, is4in6, is_masked}

  abbrev valid_blocked : String → Bool
  valid_blocked raw = elim (parse_prefix raw) [
    | none ↦ false
    | some p ↦ is_masked p && not (is4in6 (prefix_addr p))
  ]

  abbrev is_source_listener : Rule → Bool
  is_source_listener r = valid_rule ip r && r.source == "" && r.target == 0

  abbrev valid_source_plans : List String → List SourcePlan → Bool
  valid_source_plans owners [] = true
  valid_source_plans owners (p ∷ plans) =
      not (p.owner == "")
      && not (has_text p.owner owners)
      && not (length p.listeners == 0)
      && all_true is_source_listener p.listeners
      && all_true valid_blocked p.blocked
      && valid_source_plans (p.owner ∷ owners) plans

  -- `validateSourceState`
  unfoldable pub valid_source_state : SavedState → Bool
  valid_source_state s =
      is_driver s.source_driver
      && not (
          s.source_driver == ""
          && (not (length s.source_plans == 0) || not (length s.source_sets == 0)))
      && not (not (s.source_driver == "iptables") && not (length s.source_sets == 0))
      && valid_source_plans [] s.source_plans
      && all_true (owns_set_name source_id) s.source_sets

  -- What `validateState` asks of each rule.
  unfoldable pub valid_owned : OwnedRule → Bool
  valid_owned o =
      not (
        o.backend == "ufw"
        && not (same_int o.priority (pos 0))
        && not (same_int o.priority (negsuc 0)))
      && not (
          o.backend == "firewalld"
          && not (same_int o.priority (pos 0))
          && not (same_int o.priority (negsuc 32767)))
      && (o.backend == "ufw" || o.backend == "firewalld")
      && valid_rule ip o.rule
      && o.rule.target == 0
      && valid_zone o.zone
      && not (o.backend == "firewalld" && o.zone == "")

  abbrev is_family_number : ℕ → Bool
  is_family_number family = family == 4 || family == 6

  -- `validateState`
  unfoldable pub valid_state : String → SavedState → Bool
  valid_state scope s =
      leb 1 s.version
      && leb s.version 4
      && s.scope == scope
      && (s.namespace == "" || s.namespace == "yz-agent")
      && valid_source_state s
      && is_driver s.redirect
      && all_true is_family_number s.redirect_families
      && all_true valid_owned s.owned

  -- `newSystemBackend`, from the file on: none when the state is refused.
  unfoldable pub load_state : String → Option SavedState → Option SavedState
  load_state scope none = some (initial_state scope)
  load_state scope (some s) = if valid_state scope s then some s else none
